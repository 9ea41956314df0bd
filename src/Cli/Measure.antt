-- ===== src/Cli/Measure.antt =====
-- The verb `bench` (cmd/fornax/bench.go) over the files of the machine. encoding/json is an argument,
-- which fails on a rate that is no number.
use llmops.Prelude.{ℕ, pos, Option, none, some, List, [], ◌∷◌, ◌++◌, if◌then◌else◌, ok, err}
use llmops.Strings.{Bytes, codes, is_empty}
use llmops.Mirror.Effects.{Eff}
use llmops.Mirror.Store.Local.{Files, write}
use llmops.Bench.{Config, BenchError, Sample}
use llmops.Bench.Pool.{Report, run}
use llmops.Cli.{Fault, usage, failure}
use llmops.Cli.Flags.{Scanners, Flag, Kind, parse_flags, string_of, int_of}

pub data MeasureError : Type 0 where
  not_run : BenchError → MeasureError
  not_encoded : MeasureError
  not_written : Bytes → MeasureError

abbrev text_flag : Bytes → Flag
text_flag n = record { name = n; kind = Kind.string }

abbrev number_flag : Bytes → Flag
number_flag n = record { name = n; kind = Kind.whole }

-- The flags of `bench`.
abbrev pub bench_flags : List Flag
bench_flags =
    text_flag (codes "url")
    ∷ text_flag (codes "model")
    ∷ number_flag (codes "concurrency")
    ∷ number_flag (codes "requests")
    ∷ number_flag (codes "max-tokens")
    ∷ text_flag (codes "prompt")
    ∷ text_flag (codes "out")
    ∷ []

pub record BenchArgs : Type 0 where
  pub config : Config
  pub out : Bytes

-- What `bench` takes from its arguments.
unfoldable pub bench_args : Scanners → List Bytes → Option BenchArgs
unfolding parse_flags string_of int_of
bench_args sc rest = elim (parse_flags sc bench_flags rest) [
  | none ↦ none
  | some got ↦ some (record {
    config = record {
      base_url = string_of got (codes "url") [];
      model = string_of got (codes "model") [];
      concurrency = int_of sc got (codes "concurrency") (pos 8);
      requests = int_of sc got (codes "requests") (pos 32);
      prompt = string_of got (codes "prompt") (codes "Explain what a mutex is in two sentences.");
      max_tokens = int_of sc got (codes "max-tokens") (pos 128);
    };
    out = string_of got (codes "out") [];
  })
]

-- The report goes to a file, or to stdout.
unfoldable pub deliver : Bytes → Bytes → Eff Files (Fault MeasureError) Bytes
unfolding write
deliver out encoded fs =
    if is_empty out
    then (ok (encoded ++ codes "\n"), fs)
    else if fs.writable out
    then (ok (codes "report written to " ++ (out ++ codes "\n")), write out encoded fs)
    else (err (failure (not_written out)), fs)

module _ (samples : Config → ℕ → Option Sample) (encode : Report → Option Bytes) where
  -- `runBench`
  unfoldable pub run_bench : Scanners → List Bytes → Eff Files (Fault MeasureError) Bytes
  unfolding bench_args run deliver
  run_bench sc rest fs = elim (bench_args sc rest) [
    | none ↦ (err usage, fs)
    | some a ↦ elim (run a.config samples) [
      | err e ↦ (err (failure (not_run e)), fs)
      | ok report ↦ elim (encode report) [
        | none ↦ (err (failure not_encoded), fs)
        | some encoded ↦ deliver a.out encoded fs
      ]
    ]
  ]

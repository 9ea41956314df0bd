-- ===== src/Bench.antt =====
-- The benchmark (internal/bench/bench.go). Durations are in nanoseconds; the rates, which are
-- quotients of floats, are left out of the report.
pub mod Laws
pub mod Pool
use llmops.Prelude.{
  ℕ, zero, suc, ◌+◌, ◌-◌, ◌*◌, ◌/◌, ◌≡◌, refl, Bool, true, false, not, ◌&&◌, ◌||◌, Option, none,
  some, List, [], ◌∷◌, ◌++◌, if◌then◌else◌, Result, ok, err, ◌>>=◌, ensure, ◌>>◌, ltb, leb, ◌==◌, ℤ,
  pos, negsuc, gtz, length,
}
use llmops.Strings.{Bytes, codes, equal, is_empty, cut_prefix, trim_space}

-- `Config`, the timeout aside.
pub record Config : Type 0 where
  pub base_url : Bytes
  pub model : Bytes
  pub concurrency : ℤ
  pub requests : ℤ
  pub prompt : Bytes
  pub max_tokens : ℤ

abbrev positive_or : ℤ → ℤ → ℤ
positive_or d n = if gtz 0 n then n else d

pub data BenchError : Type 0 where
  incomplete_config : BenchError
  speculator_changed : Bytes → Bytes → BenchError

-- The head of `Run`: the configuration with its defaults.
unfoldable pub effective_config : Config → Result BenchError Config
effective_config c =
    if is_empty c.base_url || is_empty c.model
    then err incomplete_config
    else (let concurrency = positive_or (pos 1) c.concurrency in
        ok (record {
          base_url = c.base_url;
          model = c.model;
          concurrency = concurrency;
          requests = positive_or concurrency c.requests;
          prompt = c.prompt;
          max_tokens = positive_or (pos 128) c.max_tokens;
        }))

-- `sample`; the error is a constructor.
pub record Measured : Type 0 where
  pub ttft : ℕ
  pub chunks : ℕ
  pub tokens : ℕ
  pub speculator : Bytes

pub data Sample : Type 0 where
  failed : Sample
  measured : Measured → Sample

-- What the loop of `Run` collects.
pub record Totals : Type 0 where
  pub errors : ℕ
  pub chunks : ℕ
  pub tokens : ℕ
  pub speculator : Bytes
  pub ttfts : List ℕ

abbrev pub no_totals : Totals
no_totals = record { errors = 0; chunks = 0; tokens = 0; speculator = []; ttfts = [] }

unfoldable pub count_measured : Totals → Measured → Result BenchError Totals
count_measured t m =
    let counted : Bytes → Result BenchError Totals = λ spec. ok (record {
      errors = t.errors;
      chunks = t.chunks + m.chunks;
      tokens = t.tokens + m.tokens;
      speculator = spec;
      ttfts = t.ttfts ++ m.ttft ∷ [];
    }) in
    if is_empty t.speculator
    then counted m.speculator
    else if not (is_empty m.speculator) && not (equal m.speculator t.speculator)
    then err (speculator_changed t.speculator m.speculator)
    else counted t.speculator

abbrev pub count_sample : Totals → Sample → Result BenchError Totals
count_sample t failed = ok (record {
  errors = t.errors + 1;
  chunks = t.chunks;
  tokens = t.tokens;
  speculator = t.speculator;
  ttfts = t.ttfts;
})
count_sample t (measured m) = count_measured t m

-- The aggregation loop of `Run`
unfoldable pub aggregate : Totals → List Sample → Result BenchError Totals
aggregate t [] = ok t
aggregate t (s ∷ ss) = count_sample t s >>= λ t'. aggregate t' ss

-- slices.Sort, as an insertion sort.
insert_number : ℕ → List ℕ → List ℕ
insert_number n [] = n ∷ []
insert_number n (m ∷ ms) = let rest = insert_number n ms in if leb n m then n ∷ m ∷ ms else m ∷ rest

unfoldable pub sort_numbers : List ℕ → List ℕ
unfolding insert_number
sort_numbers [] = []
sort_numbers (n ∷ ns) = insert_number n (sort_numbers ns)

-- The index of `percentile`
unfoldable pub percentile_index : ℕ → ℕ → ℕ
percentile_index n p = let idx = (p * n + 99) / 100 in if ltb 0 idx then idx - 1 else idx

-- Indexing; `none` is the panic out of range.
unfoldable pub get_elem? : List ℕ → ℕ → Option ℕ
get_elem? [] i = none
get_elem? (x ∷ xs) zero = some x
get_elem? (x ∷ xs) (suc i) = get_elem? xs i

-- `percentile`
unfoldable pub percentile : List ℕ → ℕ → Option ℕ
unfolding percentile_index get_elem?
percentile sorted p = get_elem? sorted (percentile_index (length sorted) p)

pub record Latency : Type 0 where
  pub p50 : ℕ
  pub p95 : ℕ

-- The percentiles of the report: 0 without a measurement, `none` for a panic.
unfoldable pub latency : List ℕ → Option Latency
unfolding percentile
latency ttfts =
    if ltb 0 (length ttfts)
    then (let sorted = sort_numbers ttfts in
        elim (percentile sorted 50) [
          | none ↦ none
          | some a ↦ elim (percentile sorted 95) [
            | none ↦ none
            | some b ↦ some (record { p50 = a; p95 = b })
          ]
        ])
    else some (record { p50 = 0; p95 = 0 })

-- A response: the status, the speculator header, the lines with their times of arrival, and whether
-- the scanner met an error.
pub record Response : Type 0 where
  pub status : ℕ
  pub header : Bytes
  pub lines : List (ℕ × Bytes)
  pub broken : Bool

-- The scan of `oneRequest` over the lines of a response, each with its time of arrival. The JSON of a
-- usage frame is a parameter: the count it states, if it states one.
module _ (completion_tokens : Bytes → Option ℕ) where
  abbrev pub count_frame : Measured → ℕ → Bytes → Measured
  count_frame s now data_text = record {
    ttft = if s.chunks == 0 then now else s.ttft;
    chunks = suc s.chunks;
    tokens = elim (completion_tokens data_text) [ none ↦ s.tokens | some n ↦ n ];
    speculator = s.speculator;
  }

  unfoldable pub scan_lines : Measured → List (ℕ × Bytes) → Measured
  scan_lines s [] = s
  scan_lines s ((now, line) ∷ lines) =
      let skipped = scan_lines s lines in
      elim (cut_prefix (trim_space line) (codes "data:")) [
        | none ↦ skipped
        | some rest ↦
            (let data_text = trim_space rest in
              let counted = scan_lines (count_frame s now data_text) lines in
              if equal data_text (codes "[DONE]") then s else counted)
      ]

  -- The response part of `oneRequest`: the status, the speculator header, the lines and whether the
  -- scanner met an error.
  unfoldable pub one_response : ℕ → Bytes → List (ℕ × Bytes) → Bool → Sample
  unfolding scan_lines
  one_response status header lines broken =
      let s = scan_lines (record { ttft = 0; chunks = 0; tokens = 0; speculator = header }) lines in
      if not (status == 200)
      then failed
      else if broken
      then failed
      else if s.chunks == 0
      then failed
      else measured s

  -- `oneRequest`: whether the body is encoded and the request is made, and the response, if there is
  -- one.
  unfoldable pub one_request : Bool → Bool → Option Response → Sample
  unfolding one_response
  one_request encodes builds response =
      if not encodes || not builds then failed else elim response [
        | none ↦ failed
        | some r ↦ one_response r.status r.header r.lines r.broken
      ]

-- ===== src/Cli/AgentFlags.antt =====
-- The arguments of the verbs `ps`, `endpoint` and `run` (cmd/fornax/harness.go).
pub mod Laws
use llmops.Prelude.{
  ℕ, ℤ, pos, Bool, true, false, Option, none, some, List, [], ◌∷◌, ◌++◌, if◌then◌else◌,
}
use llmops.Strings.{Bytes, codes, equal, is_empty}
use llmops.Install.{default_config_dir, default_unit_dir}
use llmops.Cli.{pop_positional}
use llmops.Cli.Flags.{Scanners, Flag, Kind, Settings, parse_flags, string_of, duration_of}

-- `defaultToken`
abbrev pub default_token : Bytes
default_token = codes "local"

abbrev text_flag : Bytes → Flag
text_flag n = record { name = n; kind = Kind.string }

-- `hostFlags`, and the flag for the timeout of a probe.
abbrev pub host_flags : List Flag
host_flags = text_flag (codes "config-dir") ∷ text_flag (codes "unit-dir") ∷ []

abbrev pub timeout_flag : Flag
timeout_flag = record { name = codes "timeout"; kind = Kind.duration }

-- Where a discovery looks, and how long it waits for an answer, in nanoseconds.
pub record Look : Type 0 where
  pub config_dir : Bytes
  pub unit_dir : Bytes
  pub timeout : ℤ

unfoldable pub look_of : Scanners → Settings → Look
unfolding string_of duration_of
look_of sc got = record {
  config_dir = string_of got (codes "config-dir") default_config_dir;
  unit_dir = string_of got (codes "unit-dir") default_unit_dir;
  timeout = duration_of sc got (codes "timeout") (pos 2000000000);
}

-- What `endpoint` takes from its arguments.
pub record EndpointArgs : Type 0 where
  pub look : Look
  pub harness : Bytes
  pub model : Bytes
  pub format : Bytes
  pub host : Bytes
  pub token : Bytes

unfoldable pub endpoint_args : Scanners → List Bytes → Option EndpointArgs
unfolding parse_flags look_of
endpoint_args sc rest =
    elim (parse_flags sc
      (host_flags
        ++ (text_flag (codes "harness")
            ∷ text_flag (codes "model")
            ∷ text_flag (codes "format")
            ∷ text_flag (codes "host")
            ∷ text_flag (codes "token")
            ∷ timeout_flag
            ∷ []))
      rest) [
        | none ↦ none
        | some got ↦
            let name = string_of got (codes "harness") [] in
            if is_empty name
            then none
            else some (record {
              look = look_of sc got;
              harness = name;
              model = string_of got (codes "model") [];
              format = string_of got (codes "format") [];
              host = string_of got (codes "host") (codes "127.0.0.1");
              token = string_of got (codes "token") default_token;
            })
      ]

abbrev behind : Bytes → List Bytes × List Bytes → List Bytes × List Bytes
behind a (before, after) = (a ∷ before, after)

-- The loop of `runHarness` that splits at "--".
unfoldable pub split_dashes : List Bytes → List Bytes × List Bytes
unfolding equal
split_dashes [] = ([], [])
split_dashes (a ∷ rest) =
    let later = split_dashes rest in if equal a (codes "--") then ([], rest) else behind a later

-- What `run` takes from its arguments.
pub record RunArgs : Type 0 where
  pub look : Look
  pub harness : Bytes
  pub model : Bytes
  pub host : Bytes
  pub token : Bytes
  pub budget : ℤ
  pub passthrough : List Bytes

-- The flags of `run`.
abbrev pub run_flags : List Flag
run_flags =
    host_flags
    ++ (text_flag (codes "model")
        ∷ text_flag (codes "host")
        ∷ text_flag (codes "token")
        ∷ record { name = codes "wait"; kind = Kind.duration }
        ∷ timeout_flag
        ∷ [])

abbrev pub run_of : Scanners → Bytes → List Bytes → Settings → Option RunArgs
unfolding look_of
run_of sc name passthrough got =
    if is_empty name
    then none
    else some (record {
      look = look_of sc got;
      harness = name;
      model = string_of got (codes "model") [];
      host = string_of got (codes "host") (codes "127.0.0.1");
      token = string_of got (codes "token") default_token;
      budget = duration_of sc got (codes "wait") (pos 0);
      passthrough = passthrough;
    })

unfoldable pub run_args : Scanners → List Bytes → Option RunArgs
unfolding split_dashes pop_positional parse_flags run_of
run_args sc rest =
    let (mine, passthrough) = split_dashes rest in
    let (name, flags) = pop_positional mine in
    elim (parse_flags sc run_flags flags) [
      | none ↦ none
      | some got ↦ run_of sc name passthrough got
    ]

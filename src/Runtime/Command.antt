-- ===== src/Runtime/Command.antt =====
-- The engine's launch command and the options' defaults (internal/runtime/serve.go).
pub mod Fraction
use llmops.Prelude.{
  ℕ, Bool, true, false, not, ◌&&◌, Option, none, some, List, [], ◌∷◌, ◌++◌, if◌then◌else◌, ◌==◌,
  Result, ok, err, map,
}
use llmops.Strings.{Bytes, codes, equal, is_empty, has_prefix, trim_prefix, replace_all}
use llmops.Strings.Numbers.{itoa}
use llmops.Paths.{join_path}
use llmops.Manifest.{Manifest, runtime_sglang, runtime_vllm, load_s3_stream, or_default}
use llmops.Manifest.Speculators.{Speculation}
use llmops.Manifest.Validate.Engine.{draft_path_flag}

-- `expandHome`; `home` is os.UserHomeDir.
unfoldable pub expand_home : Option Bytes → Bytes → Bytes
unfolding has_prefix trim_prefix
expand_home home path =
    if not (equal path (codes "~")) && not (has_prefix path (codes "~/")) then path else elim home [
      | none ↦ path
      | some h ↦ join_path (h ∷ trim_prefix (trim_prefix path (codes "~")) (codes "/") ∷ [])
    ]

pub record Options : Type 0 where
  pub port : ℕ
  pub engine_port : ℕ
  pub cache_root : Bytes
  pub engine_cmd : List Bytes
  pub speculator : Bytes

abbrev or_number : ℕ → ℕ → ℕ
or_number n m = if n == 0 then m else n

-- `(*Options).defaults`, but for the log and the logger.
unfoldable pub defaults : Option Bytes → Options → Options
unfolding expand_home
defaults home o = record o {
  port = or_number o.port 8000;
  engine_port = or_number o.engine_port 30000;
  cache_root = expand_home home (or_default o.cache_root (codes "/cache"));
}

-- `switch m.Runtime`
unfoldable pub launch : Manifest → Bytes → ℕ → Option (List Bytes)
launch m model port =
    if equal m.runtime runtime_sglang
    then some (
        codes "python3"
        ∷ codes "-m"
        ∷ codes "sglang.launch_server"
        ∷ codes "--model-path"
        ∷ model
        ∷ codes "--host"
        ∷ codes "0.0.0.0"
        ∷ codes "--port"
        ∷ itoa port
        ∷ [])
    else if equal m.runtime runtime_vllm
    then some (
        (codes "vllm"
          ∷ codes "serve"
          ∷ model
          ∷ codes "--host"
          ∷ codes "0.0.0.0"
          ∷ codes "--port"
          ∷ itoa port
          ∷ [])
        ++ (if equal m.load load_s3_stream
            then codes "--load-format" ∷ codes "runai_streamer" ∷ []
            else []))
    else none

abbrev pub draft_args : Bytes → List Bytes
draft_args [] = []
draft_args (c ∷ path) = (draft_path_flag ++ b'=' ∷ c ∷ path) ∷ []

pub data CommandError : Type 0 where
  no_engine_command : Bytes → CommandError

-- `EngineCommand`
unfoldable pub engine_command :
    Manifest → Bytes → ℕ → Speculation → Bytes → Result CommandError (List Bytes)
unfolding launch
engine_command m model port spec draft_path = elim (launch m model port) [
  | none ↦ err (no_engine_command m.runtime)
  | some cmd ↦ ok (
      (cmd ++ codes "--served-model-name" ∷ m.name ∷ [])
      ++ ((m.args ++ spec.speculator.args) ++ draft_args draft_path))
]

-- `renderOverride`
unfoldable pub render_override : List Bytes → Bytes → ℕ → List Bytes
unfolding replace_all
render_override tmpl model port =
    map (λ t. replace_all (replace_all t (codes "{model}") model) (codes "{port}") (itoa port)) tmpl

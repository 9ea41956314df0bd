-- ===== src/Manifest/Validate/Engine.antt =====
-- The checks on engine arguments: `checkFraction`, `validateGB10`, `validateDSpark` and
-- `validateSpeculation` of internal/manifest/manifest.go. Each is made on every list of arguments
-- that the model can be started with: its own, and its own with those of each speculator.
use llmops.Prelude.{
  Bool, true, false, not, ◌&&◌, Option, none, some, List, [], ◌∷◌, ◌++◌, if◌then◌else◌, unless, eqz,
}
use llmops.Floats.{Floats}
use llmops.Strings.{Bytes, codes, equal, is_empty}
use llmops.Manifest.{Manifest, runtime_sglang, runtime_vllm, gpu_type_gb10, separate_head}
use llmops.Manifest.Flags.{flag_value}
use llmops.Manifest.Problems.{Problem}
use llmops.Manifest.Speculators.{speculator_names, speculator_at}

-- `memFractionFlags` and `contextFlags`
unfoldable pub fraction_flag : Bytes → Option Bytes
fraction_flag runtime =
    if equal runtime runtime_sglang
    then some (codes "--mem-fraction-static")
    else if equal runtime runtime_vllm
    then some (codes "--gpu-memory-utilization")
    else none

unfoldable pub context_flag : Bytes → Option Bytes
context_flag runtime =
    if equal runtime runtime_sglang
    then some (codes "--context-length")
    else if equal runtime runtime_vllm
    then some (codes "--max-model-len")
    else none

-- The arguments of the model with those of the speculator `name`.
abbrev pub args_with : Manifest → Bytes → List Bytes
args_with m name = m.args ++ (speculator_at m name).args

-- The loop over `m.SpeculatorNames()`.
unfoldable pub for_names : List Bytes → (Bytes → List Problem) → List Problem
for_names [] check = []
for_names (name ∷ names) check = check name ++ for_names names check

module _ (F : Floats) where
  open F use {Float, parse_float, le_float, lt_float, zero_float, four_fifths}

  unfoldable pub check_number : Option Float → Bytes → List Problem
  check_number none spec = Problem.fraction_unparsed spec ∷ []
  check_number (some f) spec =
      if le_float f zero_float
      then Problem.fraction_nonpositive spec ∷ []
      else if lt_float four_fifths f
      then Problem.fraction_above_cap spec ∷ []
      else []

  -- `checkFraction`
  unfoldable pub check_fraction : List Bytes → Bytes → Bytes → List Problem
  unfolding check_number
  check_fraction args frac spec = elim (flag_value args frac) [
    | none ↦ Problem.fraction_missing spec ∷ []
    | some v ↦
        if is_empty v then Problem.fraction_empty spec ∷ [] else check_number (parse_float v) spec
  ]

  -- The part of `validateGB10` for an engine that has a fraction flag.
  unfoldable pub check_gb10_engine : Manifest → Bytes → List Problem
  unfolding check_fraction for_names
  check_gb10_engine m frac =
      check_fraction m.args frac []
      ++ (for_names (speculator_names m) (λ name. check_fraction (args_with m name) frac name)
          ++ elim (context_flag m.runtime) [
            | none ↦ []
            | some ctx ↦
                unless (elim (flag_value m.args ctx) [ none ↦ false | some _ ↦ true ])
                  Problem.context_missing
          ])

  -- `validateGB10`
  unfoldable pub check_gb10 : Manifest → List Problem
  unfolding check_gb10_engine
  check_gb10 m =
      if not (equal m.gpu.type gpu_type_gb10)
      then []
      else unless (eqz m.gpu.count 1 && eqz m.gpu.nodes 1) Problem.gb10_many
        ++ elim (fraction_flag m.runtime) [ none ↦ [] | some frac ↦ check_gb10_engine m frac ]

abbrev pub draft_path_flag : Bytes
draft_path_flag = codes "--speculative-draft-model-path"

abbrev pub algorithm_flag : Bytes
algorithm_flag = codes "--speculative-algorithm"

abbrev pub dspark : Bytes
dspark = codes "DSPARK"

abbrev pub has_flag : List Bytes → Bytes → Bool
has_flag args flag = elim (flag_value args flag) [ none ↦ false | some _ ↦ true ]

unfoldable pub is_dspark : List Bytes → Bool
is_dspark args = elim (flag_value args algorithm_flag) [ none ↦ false | some v ↦ equal v dspark ]

-- `validateDSpark`
unfoldable pub check_dspark : List Bytes → Bool → Bytes → List Problem
unfolding is_dspark
check_dspark args head spec =
    if not (is_dspark args)
    then []
    else unless (not (has_flag args draft_path_flag))
        (if head then Problem.draft_path_derived spec else Problem.draft_path_in_checkpoint spec)
      ++ (unless
            (elim (flag_value args (codes "--pp-size")) [
              | none ↦ true
              | some v ↦ equal v (codes "1")
            ])
            (Problem.pipeline_parallel spec)
          ++ unless (not (has_flag args (codes "--enable-dp-attention")))
              (Problem.dp_attention spec))

-- `validateSpeculation`
unfoldable pub check_speculation : Manifest → List Problem
unfolding check_dspark for_names
check_speculation m =
    check_dspark m.args false []
    ++ for_names (speculator_names m)
        (λ name. check_dspark (args_with m name) (separate_head (speculator_at m name)) name)

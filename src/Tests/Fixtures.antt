-- ===== src/Tests/Fixtures.antt =====
-- Test data: floats with two decimals, and manifests.
use llmops.Prelude.{gtz, eqz, Result}
use llmops.Prelude.{
  ℕ, ◌+◌, ◌*◌, ◌/◌, Bool, false, Option, none, some, List, [], ◌∷◌, if◌then◌else◌, leb, ltb, pos,
}
use llmops.Floats.{Floats}
use llmops.Strings.{Bytes, codes, equal, cut}
use llmops.Strings.Numbers.{digits_value}
use llmops.Manifest.Flags
use llmops.Manifest.Patterns
use llmops.Manifest.Problems.{Problem}
use llmops.Manifest.Speculators
use llmops.Manifest.Validate
use llmops.Manifest.Validate.Fields
use llmops.Manifest.Validate.Engine
use llmops.Manifest.Validate.Draft
use llmops.Manifest
use llmops.Strings
use llmops.Manifest.{Manifest, Speculator, SystemPrompt, no_speculator}

-- Hundredths, or what is not a number.
abbrev both_numbers : (ℕ → ℕ → Bool) → Option ℕ → Option ℕ → Bool
both_numbers test (some a) (some b) = test a b
both_numbers test none b = false
both_numbers test (some a) none = false

unfoldable pub two_decimals : Bytes → Option (Option ℕ)
unfolding cut digits_value equal codes
two_decimals s = if equal s (codes "nan") then some none else elim (cut s b'.') [
  | none ↦ none
  | some (whole, part) ↦ elim (digits_value 0 whole) [
    | none ↦ none
    | some w ↦ elim (digits_value 0 part) [ none ↦ none | some p ↦ some (some (w * 100 + p)) ]
  ]
]

abbrev pub hundredths : Floats
hundredths = record {
  Float = Option ℕ;
  parse_float = two_decimals;
  le_float = both_numbers leb;
  lt_float = both_numbers ltb;
  zero_float = some 0;
  four_fifths = some 80;
  share = λ f n. elim f [ none ↦ 0 | some h ↦ h * n / 100 ];
}

abbrev pub sha : Bytes
sha = codes "0123456789abcdef0123456789abcdef01234567"

abbrev pub head : Speculator
head = record {
  hf_repo = codes "deepseek-ai/dspark-qwen3.8";
  revision = sha;
  s3_prefix = [];
  license = codes "mit";
  license_note = [];
  args = codes "--speculative-algorithm" ∷ codes "DSPARK" ∷ codes "--mem-fraction-static=0.55" ∷ [];
}

abbrev pub qwen : Manifest
qwen = record {
  name = codes "qwen3.8-27b";
  hf_repo = codes "Qwen/Qwen3.8-27B";
  revision = sha;
  s3_prefix = [];
  format = codes "bf16";
  license = codes "apache-2.0";
  license_note = [];
  runtime = codes "sglang";
  image = [];
  deploy = codes "bare-metal";
  engine_dialect = [];
  load = codes "local";
  gpu = record { type = codes "gb10"; count = pos 1; nodes = pos 1 };
  context_max = pos 65536;
  args = codes "--mem-fraction-static" ∷ codes "0.60" ∷ codes "--context-length=65536" ∷ [];
  system_prompt = some (record { mode = codes "default"; text = codes "Be brief." });
  speculators = (codes "dspark", head) ∷ [];
  default_speculator = codes "dspark";
}

-- `Validate` over these floats, in a form that runs.
unfoldable pub run_validate : Manifest → Result (List Problem) Manifest
unfolding codes equal Strings.before Strings.cut_prefix Strings.has_prefix Strings.sort
    Strings.trim_space cut Manifest.separate_head Manifest.dialect Manifest.deploy_mode
    Patterns.matches_name Patterns.matches_repo Patterns.matches_revision Patterns.is_name_start
    Patterns.is_name_byte Patterns.is_repo_byte Patterns.is_hex Flags.flag_value Flags.flag_loop
    Flags.flag_step Flags.has_arg Flags.has_arg_loop Flags.value_after Speculators.find
    Speculators.keys Speculators.speculator_at Speculators.speculator_names Fields.check_source
    Fields.check_head_source Fields.check_runtime Fields.check_dialect Fields.check_deploy
    Fields.check_load Fields.check_sizes Fields.required_args Fields.check_required
    Fields.check_prompt Engine.fraction_flag Engine.context_flag Engine.check_gb10
    Engine.check_speculation Draft.check_speculators Validate.validate gtz eqz two_decimals
run_validate = Validate.validate hundredths

-- ===== src/Tests/Manifests.antt =====
-- Runs and instances on manifests and launch commands.
use llmops.Prelude.{◌≡◌, refl, ◌↔◌, true, false, some, List, [], ◌∷◌, ◌++◌, ok}
use llmops.Strings.{Bytes, codes, equal, contains_byte}
use llmops.Manifest.Flags.{flag_value, has_arg}
use llmops.Manifest.Overrides.{check_required-overridden}
use llmops.Manifest.Speculators.{Speculation, resolve_named, resolve_speculator}
use llmops.Manifest.Speculators
use llmops.Manifest.Validate.{validate}
use llmops.Manifest.Validate.Fields.{check_required}
use llmops.Manifest.Validate.Engine.{fraction_flag}
use llmops.Manifest.Validity.{IsValid, FractionOk}
use llmops.Manifest.Validity.Whole.{validate-IsValid}
use llmops.Runtime.Command.{engine_command}
use llmops.Runtime.Command.Fraction.{engine_command-FractionOk}
use llmops.Tests.Fixtures.{hundredths, run_validate, qwen, head}

pub qwen_valid : validate hundredths qwen ≡ ok qwen
unfolding run_validate
qwen_valid = refl

validate-IsValid_example : (validate hundredths qwen ≡ ok qwen) ↔ IsValid hundredths qwen
validate-IsValid_example = validate-IsValid hundredths qwen

default_choice :
    resolve_speculator qwen [] ≡ ok (record { name = codes "dspark"; speculator = head })
unfolding resolve_speculator resolve_named Speculators.find equal codes
default_choice = refl

sglang_fraction : fraction_flag qwen.runtime ≡ some (codes "--mem-fraction-static")
unfolding fraction_flag equal codes
sglang_fraction = refl

engine_command-FractionOk_example :
    (cmd : List Bytes) × (engine_command qwen
        (codes "/models/q")
        30000
        (record { name = codes "dspark"; speculator = head })
        (codes "/models/d")
      ≡ ok cmd)
    × FractionOk hundredths cmd (codes "--mem-fraction-static")
engine_command-FractionOk_example =
    engine_command-FractionOk hundredths qwen qwen_valid refl [] (codes "/models/q")
      (codes "/models/d") (codes "--mem-fraction-static") 30000 default_choice sglang_fraction

abbrev block_args : List Bytes
block_args = codes "--block-size=128" ∷ []

block_size_required : check_required block_args block_args ≡ []
unfolding run_validate
block_size_required = refl

block_size_plain : contains_byte b'=' (codes "--block-size") ≡ false
unfolding contains_byte codes
block_size_plain = refl

check_required-overridden_example :
    (check_required block_args (block_args ++ (codes "--block-size" ++ b'=' ∷ codes "64") ∷ [])
      ≡ [])
    × (flag_value
          (block_args ++ (codes "--block-size" ++ b'=' ∷ codes "64") ∷ [])
          (codes "--block-size")
        ≡ some (codes "64"))
check_required-overridden_example =
    check_required-overridden block_args block_args (codes "--block-size") (codes "64")
      block_size_plain block_size_required

stated_last :
    flag_value (codes "--mem-fraction-static" ∷ codes "0.55" ∷ []) (codes "--mem-fraction-static")
    ≡ some (codes "0.55")
unfolding run_validate
stated_last = refl

block_size_there : has_arg block_args (codes "--block-size" ++ b'=' ∷ codes "128") ≡ true
unfolding run_validate
block_size_there = refl

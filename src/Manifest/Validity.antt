-- ===== src/Manifest/Validity.antt =====
-- What a valid manifest is, said without the order and the branches of `Validate`
-- (internal/manifest/manifest.go): predicates on the fields, and on every list of arguments that
-- the model can be started with.
pub mod Fields
pub mod Engine
pub mod Draft
pub mod Whole
use llmops.Prelude.{
  ℕ, ◌<◌, ◌≡◌, ◌≢◌, ◌⊎◌, Bool, true, false, Option, none, some, List, [], ◌∷◌, ◌++◌, All, ℤ, pos,
}
use llmops.Floats.{Floats}
use llmops.Strings.{Bytes, codes, contains_byte, trim_space}
use llmops.Manifest
use llmops.Manifest.{
  Manifest, Speculator, SystemPrompt, runtime_sglang, runtime_vllm, runtime_custom, load_nvme_cache,
  load_s3_stream, load_local, gpu_type_gb10, speculator_none, separate_head, dialect, deploy_mode,
}
use llmops.Manifest.Flags.{flag_value, has_arg}
use llmops.Manifest.Patterns.{matches_name, matches_repo, matches_revision}
use llmops.Manifest.Speculators.{find}
use llmops.Manifest.Validate.Fields.{pinned_key, required_args}
use llmops.Manifest.Validate.Engine.{
  fraction_flag, context_flag, algorithm_flag, draft_path_flag, dspark,
}

-- s3://<bucket>/<hf_repo>/<revision>/
abbrev pub PinnedPrefix : Bytes → Bytes → Bytes → Type 0
PinnedPrefix repo revision prefix =
    (bucket : Bytes) × (bucket ≢ [])
    × (contains_byte b'/' bucket ≡ false)
    × (prefix ≡ codes "s3://" ++ (bucket ++ b'/' ∷ pinned_key repo revision))

-- Weights come from the host's disk, or from one prefix that is pinned to the revision.
abbrev pub SourceOk : Manifest → Type 0
SourceOk m =
    ((m.load ≡ load_local) × (m.s3_prefix ≡ []))
    ⊎ ((m.load ≢ load_local) × PinnedPrefix m.hf_repo m.revision m.s3_prefix)

abbrev pub RuntimeOk : Manifest → Type 0
RuntimeOk m =
    (((m.runtime ≡ runtime_sglang) ⊎ (m.runtime ≡ runtime_vllm)) × (m.image ≡ []) × (m.args ≢ []))
    ⊎ ((m.runtime ≡ runtime_custom) × (m.image ≢ []))

abbrev pub DialectOk : Manifest → Type 0
DialectOk m =
    (dialect m ≡ Manifest.engine_dialect_openai_chat)
    ⊎ (dialect m ≡ Manifest.engine_dialect_anthropic)
    ⊎ (dialect m ≡ Manifest.engine_dialect_openai_responses)

abbrev pub DeployOk : Manifest → Type 0
DeployOk m =
    (deploy_mode m ≡ Manifest.deploy_k8s)
    ⊎ ((deploy_mode m ≡ Manifest.deploy_bare_metal) × (m.image ≡ []))

abbrev pub LoadOk : Manifest → Type 0
LoadOk m =
    (m.load ≡ load_nvme_cache)
    ⊎ ((m.load ≡ load_s3_stream) × (m.runtime ≡ runtime_vllm))
    ⊎ (m.load ≡ load_local)

abbrev pub IsPositive : ℤ → Type 0
IsPositive x = (k : ℕ) × (x ≡ pos k) × (0 < k)

abbrev pub SizesOk : Manifest → Type 0
SizesOk m =
    (m.gpu.type ≢ []) × IsPositive m.gpu.count × IsPositive m.gpu.nodes × IsPositive m.context_max

abbrev pub PromptOk : Option SystemPrompt → Type 0
PromptOk none = Unit
PromptOk (some sp) =
    ((sp.mode ≡ Manifest.system_prompt_default)
      ⊎ (sp.mode ≡ Manifest.system_prompt_prepend)
      ⊎ (sp.mode ≡ Manifest.system_prompt_override))
    × (trim_space sp.text ≢ [])

-- The arguments that the model is started with: its own, or those with a speculator's behind.
pub data StartsWith (m : Manifest) : Bytes → Bool → List Bytes → Type 0 where
  alone : StartsWith m [] false m.args
  speculating :
      (name : Bytes) (sp : Speculator)
      → find name m.speculators ≡ some sp
      → StartsWith m name (separate_head sp) (m.args ++ sp.args)

module _ (F : Floats) where
  open F use {Float, parse_float, le_float, lt_float, zero_float, four_fifths}

  -- The flag's last occurrence is a number that is neither ≤ 0 nor above the ceiling.
  abbrev pub FractionOk : List Bytes → Bytes → Type 0
  FractionOk args frac =
      (v : Bytes) × (f : Float) × (flag_value args frac ≡ some v)
      × (v ≢ [])
      × (parse_float v ≡ some f)
      × (le_float f zero_float ≡ false)
      × (lt_float four_fifths f ≡ false)

abbrev pub IsPresent : List Bytes → Bytes → Type 0
IsPresent args flag = (v : Bytes) × (flag_value args flag ≡ some v)

-- What SGLang's DSPARK algorithm demands of the arguments.
abbrev pub DsparkOk : List Bytes → Type 0
DsparkOk args =
    (flag_value args algorithm_flag ≡ some dspark)
    → (flag_value args draft_path_flag ≡ none)
      × ((v : Bytes) → flag_value args (codes "--pp-size") ≡ some v → v ≡ codes "1")
      × (flag_value args (codes "--enable-dp-attention") ≡ none)

abbrev pub SpeculationOk : Manifest → Type 0
SpeculationOk m =
    (spec : Bytes) (head : Bool) (args : List Bytes) → StartsWith m spec head args → DsparkOk args

-- On unified memory: one GPU, and for an engine of ours a fraction within its bounds on every start
-- and a stated context length.
abbrev pub Gb10Ok : Floats → Manifest → Type 0
Gb10Ok F m =
    m.gpu.type ≡ gpu_type_gb10
    → (m.gpu.count ≡ pos 1)
      × (m.gpu.nodes ≡ pos 1)
      × ((frac : Bytes)
          → fraction_flag m.runtime ≡ some frac
          → ((spec : Bytes) (head : Bool) (args : List Bytes)
              → StartsWith m spec head args
              → FractionOk F args frac)
            × ((ctx : Bytes) → context_flag m.runtime ≡ some ctx → IsPresent m.args ctx))

-- A head inside the checkpoint states nothing; a separate one is pinned, licensed and on disk.
abbrev pub HeadOk : Bytes → Speculator → Type 0
HeadOk load sp =
    ((sp.hf_repo ≡ []) × (sp.revision ≡ []) × (sp.license ≡ []) × (sp.s3_prefix ≡ []))
    ⊎ ((sp.hf_repo ≢ [])
        × (matches_repo sp.hf_repo ≡ true)
        × (matches_revision sp.revision ≡ true)
        × (sp.license ≢ [])
        × (((load ≡ load_local) × (sp.s3_prefix ≡ []))
            ⊎ ((load ≢ load_local)
                × (load ≢ load_s3_stream)
                × PinnedPrefix sp.hf_repo sp.revision sp.s3_prefix)))

abbrev pub SpeculatorOk : Bytes → Bytes → Speculator → Type 0
SpeculatorOk load name sp =
    (name ≢ speculator_none) × (matches_name name ≡ true) × (sp.args ≢ []) × HeadOk load sp

-- A default is stated where there is a choice, and names something.
abbrev pub DefaultOk : Manifest → Type 0
DefaultOk m =
    ((m.speculators ≡ [])
      × ((m.default_speculator ≡ []) ⊎ (m.default_speculator ≡ speculator_none)))
    ⊎ ((m.speculators ≢ [])
        × (m.default_speculator ≢ [])
        × ((m.default_speculator ≡ speculator_none)
            ⊎ ((sp : Speculator) × (find m.default_speculator m.speculators ≡ some sp))))

abbrev pub SpeculatorsOk : Manifest → Type 0
SpeculatorsOk m =
    DefaultOk m
    × ((name : Bytes) (sp : Speculator)
        → find name m.speculators ≡ some sp
        → SpeculatorOk m.load name sp)

pub record IsValid (F : Floats) (m : Manifest) : Type 0 where
  pub name_ok : matches_name m.name ≡ true
  pub repo_ok : matches_repo m.hf_repo ≡ true
  pub revision_ok : matches_revision m.revision ≡ true
  pub source_ok : SourceOk m
  pub format_ok : m.format ≢ []
  pub license_ok : m.license ≢ []
  pub runtime_ok : RuntimeOk m
  pub dialect_ok : DialectOk m
  pub deploy_ok : DeployOk m
  pub load_ok : LoadOk m
  pub sizes_ok : SizesOk m
  pub required_ok : All (λ flag. has_arg m.args flag ≡ true) (required_args m.hf_repo)
  pub gb10_ok : Gb10Ok F m
  pub speculators_ok : SpeculatorsOk m
  pub speculation_ok : SpeculationOk m
  pub prompt_ok : PromptOk m.system_prompt

-- ===== src/Manifest.antt =====
-- The models/<name>.yaml schema (internal/manifest/manifest.go): the types, the constants and the
-- fields that have a default. The YAML decoder is not part of it.
pub mod Literals
pub mod Flags
pub mod Patterns
pub mod Speculators
pub mod Problems
pub mod Validate
pub mod Validity
pub mod Overrides
pub mod Load
use llmops.Prelude.{
  ℕ, ◌≡◌, Bool, true, false, not, Option, none, some, List, [], ◌∷◌, ◌++◌, if◌then◌else◌, ℤ,
}
use llmops.Strings.{Bytes, codes, equal, is_empty}

abbrev pub runtime_sglang : Bytes
runtime_sglang = codes "sglang"

abbrev pub runtime_vllm : Bytes
runtime_vllm = codes "vllm"

abbrev pub runtime_custom : Bytes
runtime_custom = codes "custom"

abbrev pub load_nvme_cache : Bytes
load_nvme_cache = codes "nvme-cache"

abbrev pub load_s3_stream : Bytes
load_s3_stream = codes "s3-stream"

abbrev pub load_local : Bytes
load_local = codes "local"

abbrev pub engine_dialect_openai_chat : Bytes
engine_dialect_openai_chat = codes "openai-chat"

abbrev pub engine_dialect_anthropic : Bytes
engine_dialect_anthropic = codes "anthropic-messages"

abbrev pub engine_dialect_openai_responses : Bytes
engine_dialect_openai_responses = codes "openai-responses"

abbrev pub deploy_k8s : Bytes
deploy_k8s = codes "k8s"

abbrev pub deploy_bare_metal : Bytes
deploy_bare_metal = codes "bare-metal"

abbrev pub gpu_type_gb10 : Bytes
gpu_type_gb10 = codes "gb10"

abbrev pub system_prompt_default : Bytes
system_prompt_default = codes "default"

abbrev pub system_prompt_prepend : Bytes
system_prompt_prepend = codes "prepend"

abbrev pub system_prompt_override : Bytes
system_prompt_override = codes "override"

abbrev pub speculator_none : Bytes
speculator_none = codes "none"

pub record Gpu : Type 0 where
  pub type : Bytes
  pub count : ℤ
  pub nodes : ℤ

pub record SystemPrompt : Type 0 where
  pub mode : Bytes
  pub text : Bytes

pub record Speculator : Type 0 where
  pub hf_repo : Bytes
  pub revision : Bytes
  pub s3_prefix : Bytes
  pub license : Bytes
  pub license_note : Bytes
  pub args : List Bytes

-- The zero value of the struct.
abbrev pub no_speculator : Speculator
no_speculator = record {
  hf_repo = [];
  revision = [];
  s3_prefix = [];
  license = [];
  license_note = [];
  args = [];
}

unfoldable pub separate_head : Speculator → Bool
separate_head s = not (is_empty s.hf_repo)

-- A Go map of strings to values: its entries.
abbrev pub StringMap : Type 0 → Type 0
StringMap A = List (Bytes × A)

pub record Manifest : Type 0 where
  pub name : Bytes
  pub hf_repo : Bytes
  pub revision : Bytes
  pub s3_prefix : Bytes
  pub format : Bytes
  pub license : Bytes
  pub license_note : Bytes
  pub runtime : Bytes
  pub image : Bytes
  pub deploy : Bytes
  pub engine_dialect : Bytes
  pub load : Bytes
  pub gpu : Gpu
  pub context_max : ℤ
  pub args : List Bytes
  pub system_prompt : Option SystemPrompt
  pub speculators : StringMap Speculator
  pub default_speculator : Bytes

-- cmp.Or on two strings.
abbrev pub or_default : Bytes → Bytes → Bytes
or_default a b = if is_empty a then b else a

unfoldable pub dialect : Manifest → Bytes
dialect m = or_default m.engine_dialect engine_dialect_openai_chat

unfoldable pub deploy_mode : Manifest → Bytes
deploy_mode m = or_default m.deploy deploy_k8s

unfoldable pub engine_image : Manifest → Bytes
engine_image m =
    if equal m.runtime runtime_custom
    then []
    else if equal m.hf_repo (codes "moonshotai/Kimi-K3")
    then codes "fornax-runtime-sglang-k3"
    else codes "fornax-runtime-" ++ m.runtime

-- ===== src/Manifest/Validate/Fields.antt =====
-- The checks of `Validate` (internal/manifest/manifest.go) on single fields and pairs of them.
use llmops.Prelude.{
  true, false, not, ◌&&◌, ◌||◌, Option, none, some, List, [], ◌∷◌, ◌++◌, if◌then◌else◌, unless, gtz,
}
use llmops.Strings.{Bytes, codes, equal, is_empty, cut_prefix, cut, trim_space}
use llmops.Manifest
use llmops.Manifest.{
  Manifest, Speculator, SystemPrompt, runtime_sglang, runtime_vllm, runtime_custom, load_nvme_cache,
  load_s3_stream, load_local, gpu_type_gb10, speculator_none, separate_head, dialect, deploy_mode,
}
use llmops.Manifest.Flags.{has_arg}
use llmops.Manifest.Problems.{Problem, SourceProblem}

-- hf_repo + "/" + revision + "/"
abbrev pub pinned_key : Bytes → Bytes → Bytes
pinned_key repo revision = repo ++ (b'/' ∷ (revision ++ b'/' ∷ []))

-- `validateS3Prefix`
unfoldable pub check_s3_prefix : Bytes → Bytes → Bytes → List SourceProblem
check_s3_prefix repo revision prefix = elim (cut_prefix prefix (codes "s3://")) [
  | none ↦ SourceProblem.not_s3 ∷ []
  | some rest ↦ elim (cut rest b'/') [
    | none ↦ SourceProblem.no_bucket ∷ []
    | some (bucket, key) ↦
        if is_empty bucket
        then SourceProblem.no_bucket ∷ []
        else unless (equal key (pinned_key repo revision)) SourceProblem.wrong_key
  ]
]

-- `(*Manifest).validateWeightSource`
unfoldable pub check_source : Manifest → List SourceProblem
unfolding check_s3_prefix
check_source m =
    if equal m.load load_local
    then unless (is_empty m.s3_prefix) SourceProblem.local_with_prefix
    else check_s3_prefix m.hf_repo m.revision m.s3_prefix

-- `Speculator.validateWeightSource`
unfoldable pub check_head_source : Speculator → Bytes → List SourceProblem
unfolding check_s3_prefix
check_head_source s load =
    if equal load load_local
    then unless (is_empty s.s3_prefix) SourceProblem.local_with_prefix
    else if equal load load_s3_stream
    then SourceProblem.head_streamed ∷ []
    else check_s3_prefix s.hf_repo s.revision s.s3_prefix

-- `switch m.Runtime`
unfoldable pub check_runtime : Manifest → List Problem
check_runtime m =
    if equal m.runtime runtime_sglang || equal m.runtime runtime_vllm
    then unless (is_empty m.image) Problem.image_not_custom
      ++ unless (elim m.args [ [] ↦ false | _ ∷ _ ↦ true ]) Problem.no_args
    else if equal m.runtime runtime_custom
    then unless (not (is_empty m.image)) Problem.custom_without_image
    else Problem.bad_runtime ∷ []

-- `switch m.Dialect()`
unfoldable pub check_dialect : Manifest → List Problem
check_dialect m =
    let d = dialect m in
    unless
      (equal d Manifest.engine_dialect_openai_chat
        || equal d Manifest.engine_dialect_anthropic
        || equal d Manifest.engine_dialect_openai_responses)
      Problem.bad_dialect

-- `switch m.DeployMode()`
unfoldable pub check_deploy : Manifest → List Problem
check_deploy m =
    if equal (deploy_mode m) Manifest.deploy_k8s
    then []
    else if equal (deploy_mode m) Manifest.deploy_bare_metal
    then unless (is_empty m.image) Problem.bare_metal_image
    else Problem.bad_deploy ∷ []

-- `switch m.Load`
unfoldable pub check_load : Manifest → List Problem
check_load m =
    if equal m.load load_nvme_cache
    then []
    else if equal m.load load_s3_stream
    then unless (equal m.runtime runtime_vllm) Problem.stream_not_vllm
    else unless (equal m.load load_local) Problem.bad_load

unfoldable pub check_sizes : Manifest → List Problem
check_sizes m =
    unless (not (is_empty m.gpu.type) && gtz 0 m.gpu.count && gtz 0 m.gpu.nodes) Problem.bad_gpu
    ++ unless (gtz 0 m.context_max) Problem.bad_context

-- `requiredArgs`
unfoldable pub required_args : Bytes → List Bytes
required_args repo =
    if equal repo (codes "MiniMaxAI/MiniMax-M3")
    then codes "--block-size=128" ∷ []
    else if equal repo (codes "MiniMaxAI/MiniMax-M3-MXFP8")
    then codes "--block-size=128" ∷ []
    else if equal repo (codes "moonshotai/Kimi-K3")
    then codes "--trust-remote-code" ∷ []
    else if equal repo (codes "deepseek-ai/DeepSeek-V4-Flash-0731")
    then codes "--trust-remote-code" ∷ []
    else []

unfoldable pub check_required : List Bytes → List Bytes → List Problem
check_required [] args = []
check_required (flag ∷ flags) args =
    unless (has_arg args flag) (Problem.missing_arg flag) ++ check_required flags args

unfoldable pub check_prompt : Option SystemPrompt → List Problem
check_prompt none = []
check_prompt (some sp) =
    unless
      (equal sp.mode Manifest.system_prompt_default
        || equal sp.mode Manifest.system_prompt_prepend
        || equal sp.mode Manifest.system_prompt_override)
      Problem.bad_prompt_mode
    ++ unless (not (is_empty (trim_space sp.text))) Problem.empty_prompt

-- ===== src/Manifest/Problems.antt =====
-- What validation can report, one constructor for each message of internal/manifest/manifest.go.
-- A problem of an argument list carries the name of the speculator it comes from, or the empty one.
use llmops.Strings.{Bytes}

-- The errors of the weight sources.
pub data SourceProblem : Type 0 where
  local_with_prefix : SourceProblem
  not_s3 : SourceProblem
  no_bucket : SourceProblem
  wrong_key : SourceProblem
  head_streamed : SourceProblem

pub data Problem : Type 0 where
  bad_name bad_repo bad_revision no_format no_license : Problem
  bad_source : SourceProblem → Problem
  image_not_custom no_args custom_without_image bad_runtime : Problem
  bad_dialect bare_metal_image bad_deploy : Problem
  stream_not_vllm bad_load bad_gpu bad_context : Problem
  missing_arg : Bytes → Problem
  gb10_many : Problem
  fraction_missing fraction_empty fraction_unparsed : Bytes → Problem
  fraction_nonpositive fraction_above_cap : Bytes → Problem
  context_missing : Problem
  default_names_nothing no_default default_undeclared : Problem
  reserved_speculator : Problem
  bad_speculator_name no_speculator_args : Bytes → Problem
  head_revision head_license head_prefix : Bytes → Problem
  bad_head_repo bad_head_revision no_head_license : Bytes → Problem
  bad_head_source : Bytes → SourceProblem → Problem
  draft_path_derived draft_path_in_checkpoint : Bytes → Problem
  pipeline_parallel dp_attention : Bytes → Problem
  bad_prompt_mode empty_prompt : Problem

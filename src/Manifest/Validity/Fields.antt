-- ===== src/Manifest/Validity/Fields.antt =====
-- The checks on fields report nothing exactly when the fields are as they should be.
use llmops.Prelude.{
  ◌≡◌, refl, ◌↔◌, inl, inr, true, Option, none, some, List, [], ◌∷◌, ◌++◌, arith, Bool-cases,
  Option-cases, gtz_iff, All,
}
use llmops.Strings.{Bytes, codes, equal, cut_prefix, cut}
use llmops.Strings.Laws.{equal_iff, cut_prefix_iff, cut-eq-some, cut-append, cut_prefix-append}
use llmops.Manifest
use llmops.Manifest.{
  Manifest, SystemPrompt, runtime_sglang, runtime_vllm, runtime_custom, load_nvme_cache,
  load_s3_stream, load_local, dialect, deploy_mode,
}
use llmops.Manifest.Flags.{has_arg}
use llmops.Manifest.Literals.{custom-ne-sglang, custom-ne-vllm, local-ne-s3_stream}
use llmops.Manifest.Validate.Fields.{
  pinned_key, check_s3_prefix, check_source, check_runtime, check_dialect, check_deploy, check_load,
  check_sizes, check_required, check_prompt,
}
use llmops.Manifest.Validity.{
  PinnedPrefix, SourceOk, RuntimeOk, DialectOk, DeployOk, LoadOk, SizesOk, PromptOk,
}

pub check_runtime_iff : (m : Manifest) → (check_runtime m ≡ []) ↔ RuntimeOk m
unfolding check_runtime
check_runtime_iff m = ground (
  arith,
  custom-ne-sglang,
  custom-ne-vllm,
  equal_iff m.runtime runtime_sglang,
  equal_iff m.runtime runtime_vllm,
  equal_iff m.runtime runtime_custom,
)

pub check_dialect_iff : (m : Manifest) → (check_dialect m ≡ []) ↔ DialectOk m
unfolding check_dialect
check_dialect_iff m = ground (
  arith,
  equal_iff (dialect m) Manifest.engine_dialect_openai_chat,
  equal_iff (dialect m) Manifest.engine_dialect_anthropic,
  equal_iff (dialect m) Manifest.engine_dialect_openai_responses,
)

pub check_deploy_iff : (m : Manifest) → (check_deploy m ≡ []) ↔ DeployOk m
unfolding check_deploy
check_deploy_iff m = ground (
  arith,
  equal_iff (deploy_mode m) Manifest.deploy_k8s,
  equal_iff (deploy_mode m) Manifest.deploy_bare_metal,
)

pub check_load_iff : (m : Manifest) → (check_load m ≡ []) ↔ LoadOk m
unfolding check_load
check_load_iff m = ground (
  arith,
  local-ne-s3_stream,
  equal_iff m.load load_nvme_cache,
  equal_iff m.load load_s3_stream,
  equal_iff m.load load_local,
  equal_iff m.runtime runtime_vllm,
)

pub check_sizes_iff : (m : Manifest) → (check_sizes m ≡ []) ↔ SizesOk m
unfolding check_sizes
check_sizes_iff m =
    ground (arith, gtz_iff 0 m.gpu.count, gtz_iff 0 m.gpu.nodes, gtz_iff 0 m.context_max)

pub check_prompt_iff : (p : Option SystemPrompt) → (check_prompt p ≡ []) ↔ PromptOk p
unfolding check_prompt
check_prompt_iff none = (λ _. tt, λ _. refl)
check_prompt_iff (some sp) = ground (
  arith,
  equal_iff sp.mode Manifest.system_prompt_default,
  equal_iff sp.mode Manifest.system_prompt_prepend,
  equal_iff sp.mode Manifest.system_prompt_override,
)

pub check_required_iff :
    (flags args : List Bytes)
    → (check_required flags args ≡ []) ↔ All (λ flag. has_arg args flag ≡ true) flags
unfolding check_required
check_required_iff [] args = (λ _. tt, λ _. refl)
check_required_iff (f ∷ flags) args = ground (arith, check_required_iff flags args)

-- A prefix passes exactly when it is s3://<bucket>/<repo>/<revision>/.
check_s3_prefix_to :
    (repo revision prefix : Bytes)
    → check_s3_prefix repo revision prefix ≡ []
    → PinnedPrefix repo revision prefix
unfolding check_s3_prefix
check_s3_prefix_to repo revision prefix h =
    elim (Option-cases (cut_prefix prefix (codes "s3://"))) [
      | inl e ↦ ground arith
      | inr (rest, e) ↦ elim (Option-cases (cut rest b'/')) [
        | inl f ↦ ground arith
        | inr ((bucket, key), f) ↦
            let split = cut-eq-some rest b'/' f in
            (
              bucket,
              ground arith,
              split.1,
              ground (
                arith,
                (cut_prefix_iff prefix (codes "s3://") rest).0 e,
                split.0,
                equal_iff key (pinned_key repo revision),
              ),
            )
      ]
    ]

check_s3_prefix_from :
    (repo revision prefix : Bytes)
    → PinnedPrefix repo revision prefix
    → check_s3_prefix repo revision prefix ≡ []
unfolding check_s3_prefix
check_s3_prefix_from repo revision prefix (bucket, ne, plain, e) = ground (
  arith,
  cut_prefix-append (codes "s3://") (bucket ++ b'/' ∷ pinned_key repo revision),
  cut-append bucket (pinned_key repo revision) b'/' plain,
  equal_iff (pinned_key repo revision) (pinned_key repo revision),
)

pub check_s3_prefix_iff :
    (repo revision prefix : Bytes)
    → (check_s3_prefix repo revision prefix ≡ []) ↔ PinnedPrefix repo revision prefix
check_s3_prefix_iff repo revision prefix =
    (check_s3_prefix_to repo revision prefix, check_s3_prefix_from repo revision prefix)

pub check_source_iff : (m : Manifest) → (check_source m ≡ []) ↔ SourceOk m
unfolding check_source
check_source_iff m =
    let (to, from) = check_s3_prefix_iff m.hf_repo m.revision m.s3_prefix in
    elim (Bool-cases (equal m.load load_local)) [
      | inl e ↦ ground (arith, equal_iff m.load load_local)
      | inr e ↦ (
        λ h. inr (λ same. cc ((equal_iff m.load load_local).1 same), to (rw e at h)),
        elim [
          | inl (same, _) ↦ cc ((equal_iff m.load load_local).1 same)
          | inr (_, p) ↦ rw e (from p)
        ],
      )
    ]

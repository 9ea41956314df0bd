-- ===== src/Manifest/Literals.antt =====
-- Constants of the schema that are told apart.
use llmops.Prelude.{◌≡◌, refl, false}
use llmops.Strings.{codes, equal}
use llmops.Manifest.{
  runtime_sglang, runtime_vllm, runtime_custom, load_nvme_cache, load_s3_stream, load_local,
  deploy_k8s, deploy_bare_metal,
}

pub custom-ne-sglang : equal runtime_custom runtime_sglang ≡ false
unfolding equal codes
custom-ne-sglang = refl

pub custom-ne-vllm : equal runtime_custom runtime_vllm ≡ false
unfolding equal codes
custom-ne-vllm = refl

pub vllm-ne-sglang : equal runtime_vllm runtime_sglang ≡ false
unfolding equal codes
vllm-ne-sglang = refl

pub local-ne-s3_stream : equal load_local load_s3_stream ≡ false
unfolding equal codes
local-ne-s3_stream = refl

pub nvme_cache-ne-local : equal load_nvme_cache load_local ≡ false
unfolding equal codes
nvme_cache-ne-local = refl

pub bare_metal-ne-k8s : equal deploy_bare_metal deploy_k8s ≡ false
unfolding equal codes
bare_metal-ne-k8s = refl

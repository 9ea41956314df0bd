-- ===== src/Tests/Models.antt =====
-- Two installed models, found by their manifests.
use llmops.Prelude.{◌≡◌, refl, none, some, List, [], ◌∷◌, ok, All, ◌↔◌, length, map}
use llmops.Strings.{Bytes, codes}
use llmops.Manifest.{Manifest}
use llmops.Manifest.Load
use llmops.Manifest.Load.{load_dir}
use llmops.Harness.Models
use llmops.Harness.Models.{Host, Model, IsOrdered, model_at, discover, discover-IsOrdered}
use llmops.Tests.Fixtures.{qwen, hundredths, run_validate}

abbrev installed : Bytes → Manifest
installed name = record qwen { name = name }

-- The text of a manifest stands for its model's name.
abbrev host : Host
host = record {
  read = λ p. some p;
  parse = λ c. some (installed c);
  glob = λ d. codes "q" ∷ codes "g" ∷ [];
  get_at = λ n p. none;
  model_ids = λ b. none;
}

abbrev manifests : List Manifest
manifests = installed (codes "g") ∷ installed (codes "q") ∷ []

read_in : load_dir hundredths host.read host.parse (host.glob []) ≡ ok manifests
unfolding run_validate load_dir Load.load_all Load.load
read_in = refl

abbrev found : List (Model hundredths)
found = map (model_at hundredths host []) manifests

listed : discover hundredths host [] [] ≡ ok found
unfolding run_validate load_dir Load.load_all Load.load Models.discover Models.sort_models
listed = refl

discover-IsOrdered_example :
    IsOrdered hundredths found
    × (length found ≡ length manifests)
    × (All (λ m. m.runtime ≡ codes "sglang") found
        ↔ All (λ m. m.runtime ≡ codes "sglang") (map (model_at hundredths host []) manifests))
discover-IsOrdered_example =
    discover-IsOrdered hundredths host (λ m. m.runtime ≡ codes "sglang") [] [] manifests found
      read_in listed

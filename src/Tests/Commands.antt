-- ===== src/Tests/Commands.antt =====
-- Commands, the check of a directory, and what `ps` reads of a shim.
use llmops.Prelude.{
  ◌≡◌, ◌↔◌, ◌⊎◌, refl, true, false, Option, none, some, List, [], ◌∷◌, ◌++◌, All, ok,
}
use llmops.Strings
use llmops.Strings.{
  Bytes, codes, equal, has_member, split, sort, cut_prefix, contains_byte, trim_space,
}
use llmops.Manifest.{Manifest}
use llmops.Manifest.Load.Laws.{AllLoaded, Loaded}
use llmops.Deploycheck.Accepted.{IsAccepted}
use llmops.Harness.Discover.{Reply, weights_loaded}
use llmops.Runtime.Shim.Metrics.{Formats, key, engine_text, metrics}
use llmops.Runtime.Shim.Metrics.Read.{weights_loaded-metrics}
use llmops.Cli.Main.{Ended, Verbs, dispatch, verb_of, run, run-misused, misused}
use llmops.Cli.Serving.{Site, validate_path, deploy_dir_of, is_there}
use llmops.Cli.Serving.Laws.{validate_path_iff}
use llmops.Tests.Fixtures.{hundredths, two_decimals}
use llmops.Tests.Deploys.{tree}

abbrev usage_always : Verbs (Unit {0})
usage_always = record {
  weights = λ _ _ s. (misused, s);
  serving = λ _ _ s. (misused, s);
  install = λ _ s. (misused, s);
  ps = λ _ s. (misused, s);
  endpoint = λ _ s. (misused, s);
  harness = λ _ s. (misused, s);
  bench = λ _ s. (misused, s);
}

run-misused_example : ((run usage_always (codes "fetch" ∷ []) tt).0 ≡ 2) ↔ (
    (has_member dispatch (codes "fetch") ≡ false)
    ⊎ ((f : Unit {0} → Ended × Unit {0}) × (verb_of usage_always (codes "fetch") [] ≡ some f)
        × ((f tt).0 ≡ misused)))
run-misused_example = run-misused usage_always (codes "fetch") [] tt

abbrev site : Site
site = record { tree = tree; stat = λ _. some true; glob = λ _. codes "models/qwen.yaml" ∷ [] }

validate_path_iff_example :
    ((lines : List Bytes) × (validate_path hundredths site (codes "models") (codes "deploy")
        ≡ ok lines))
    ↔ (((site.stat (codes "models") ≡ some true)
          × (is_there (site.stat (deploy_dir_of (codes "models") (codes "deploy"))) ≡ true)
          × ((m : Manifest) × (ms : List Manifest) × AllLoaded hundredths tree.read tree.parse
                (sort (site.glob (codes "models")))
                (m ∷ ms)
              × All (IsAccepted tree (deploy_dir_of (codes "models") (codes "deploy"))) (m ∷ ms)))
        ⊎ ((site.stat (codes "models") ≡ some false)
            × ((m : Manifest) × Loaded hundredths tree.read tree.parse (codes "models") m)))
validate_path_iff_example = validate_path_iff hundredths site (codes "models") (codes "deploy")

-- A shim that has taken one and a half seconds, in front of an engine with a metric of its own.
abbrev formats : Formats hundredths
formats = record {
  format_float = λ _. codes "1.50";
  quote = λ s. codes "\"" ++ (s ++ codes "\"");
  dialect_text = λ _. codes "openai";
}

abbrev engine_answer : Option Reply
engine_answer = some (record { status = 200; speculator = []; content = codes "engine_up 1\n" })

abbrev shim_text : Bytes
shim_text = metrics hundredths formats engine_answer (some 150) (codes "dspark") []

abbrev answered : Bytes → Option Reply
answered path = some (record { status = 200; speculator = []; content = shim_text })

engine_lines : All (λ l. cut_prefix l key ≡ none) (split (engine_text engine_answer) 10)
unfolding split cut_prefix engine_text codes
engine_lines = (refl, (refl, tt))

exact : two_decimals (trim_space (codes "1.50")) ≡ some (some 150)
unfolding two_decimals trim_space codes Strings.trim_left Strings.trim_right
exact = refl

one_line : contains_byte 10 (codes "1.50") ≡ false
unfolding contains_byte codes
one_line = refl

weights_loaded-metrics_example : weights_loaded hundredths answered (λ _. none) ≡ some 150
weights_loaded-metrics_example =
    weights_loaded-metrics hundredths answered (λ _. none) formats engine_answer (some 150)
      (codes "dspark") [] 200 [] one_line exact engine_lines refl

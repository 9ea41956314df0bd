-- ===== src/Tests/Deploys.antt =====
-- Installs and deploy checks.
use llmops.Prelude.{
  ◌≡◌, ◌↔◌, refl, inl, inr, true, false, none, some, List, [], ◌∷◌, Result, ok, All, if◌then◌else◌,
}
use llmops.Strings
use llmops.Strings.Numbers
use llmops.Strings.{Bytes, codes, equal, sort}
use llmops.Paths
use llmops.Manifest
use llmops.Manifest.{Manifest}
use llmops.Manifest.Patterns.{matches_name, is_name_start, is_name_byte}
use llmops.Manifest.Load.Laws.{AllLoaded}
use llmops.Mirror.Store.Local.{Files}
use llmops.Mirror.Store.Local
use llmops.Install
use llmops.Install.{Options, InstallError, Host, Installed, run_install, unit_text}
use llmops.Install.Idempotent.{run_install_idem}
use llmops.Deploycheck.{Tree, validate_deploy}
use llmops.Deploycheck.Accepted.{IsAccepted, validate_deploy_iff}
use llmops.Deploycheck.Unit.{validate_unit}
use llmops.Deploycheck.Unit.Installed.{IsPlain, validate_unit-unit_text}
use llmops.Deploycheck.Yaml.{Decoded, Entries, document, entry, no_entry, text}
use llmops.Deploycheck.Lws.{image_name, validate_one}
use llmops.Deploycheck.Lws.Fits.{Fits, Reads, LastLws}
use llmops.Deploycheck.Lws.Whole.{validate_one_iff}
use llmops.Tests.Fixtures.{qwen, hundredths}
use llmops.Tests.Manifests.{qwen_valid}

abbrev options : Options
options = record {
  bin_path = [];
  config_dir = [];
  unit_dir = [];
  cache_root = codes "/srv/models";
  user = codes "fornax";
  speculator = [];
}

abbrev bare_host : Host
bare_host = record { files = record { read = λ _. none; writable = λ _. true }; reloads = 0 }

unfoldable run_once : Result InstallError Installed × Host
unfolding codes equal Strings.split Strings.join Numbers.itoa_int Paths.clean Paths.join_path
    Local.write Manifest.deploy_mode Install.run_install Install.unit_text Install.exec_line
    Install.manifest_path Install.unit_path
run_once = run_install qwen options true (some (codes "name: qwen")) bare_host

abbrev result : Installed
result = record {
  manifest_at = codes "/etc/fornax/qwen3.8-27b.yaml";
  unit_at = codes "/etc/systemd/system/qwen3.8-27b.service";
  manifest_changed = true;
  unit_changed = true;
  daemon_reloaded = true;
}

abbrev installed_host : Host
installed_host = run_once.1

installed :
    run_install qwen options true (some (codes "name: qwen")) bare_host
    ≡ (ok result, installed_host)
unfolding run_once codes
installed = refl

name_ok : matches_name qwen.name ≡ true
unfolding codes matches_name is_name_start is_name_byte
name_ok = refl

run_install_idem_example :
    run_install qwen options false (some (codes "name: qwen")) installed_host ≡ (
      ok (record {
        manifest_at = result.manifest_at;
        unit_at = result.unit_at;
        manifest_changed = false;
        unit_changed = false;
        daemon_reloaded = false;
      }),
      installed_host,
    )
run_install_idem_example =
    run_install_idem qwen options true false (some (codes "name: qwen")) bare_host installed_host
      result name_ok installed

plain : IsPlain qwen options
unfolding codes equal Strings.contains_byte Strings.split Strings.join Strings.after_last
    Paths.clean Paths.join_path Paths.base Install.manifest_path Install.defaults
plain = record {
  name_ok = name_ok;
  runtime_line = refl;
  gpu_line = refl;
  user_line = refl;
  binary_ok = refl;
  binary_word = refl;
  path_word = refl;
  cache_word = inr refl;
  speculator_word = inl refl;
}

validate_unit-unit_text_example : validate_unit qwen (some (unit_text qwen options)) ≡ ok tt
validate_unit-unit_text_example = validate_unit-unit_text qwen options plain

named :
    image_name (codes "r.example.com:5000/l/fornax-runtime-sglang:v1")
    ≡ codes "fornax-runtime-sglang"
unfolding codes image_name Strings.after_last
named = refl

abbrev one_lws : List Decoded
one_lws = document (entry (codes "kind") (text (codes "LeaderWorkerSet")) no_entry) ∷ []

validate_one_iff_example : (validate_one qwen (some one_lws) ≡ ok tt) ↔ (
    (docs : List Entries) × Reads one_lws docs
    × ((lws : Entries) × LastLws docs lws × Fits qwen lws))
validate_one_iff_example = validate_one_iff hundredths qwen one_lws qwen_valid

-- One model, whose unit is the installed one.
abbrev pub tree : Tree
tree = record {
  read = λ p.
      if equal p (codes "models/qwen.yaml")
      then some (codes "name: qwen")
      else some (unit_text qwen options);
  exists = λ _. false;
  parse = λ _. some qwen;
  decode = λ _. one_lws;
}

validate_deploy_iff_example :
    (validate_deploy hundredths tree (codes "models/qwen.yaml" ∷ []) (codes "deploy") ≡ ok tt) ↔ (
      (m : Manifest) × (ms : List Manifest) × AllLoaded hundredths tree.read tree.parse
        (sort (codes "models/qwen.yaml" ∷ []))
        (m ∷ ms)
      × All (IsAccepted tree (codes "deploy")) (m ∷ ms))
validate_deploy_iff_example =
    validate_deploy_iff tree (codes "deploy") hundredths (codes "models/qwen.yaml" ∷ [])

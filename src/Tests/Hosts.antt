-- ===== src/Tests/Hosts.antt =====
-- An install from the command line, and what its unit starts.
use llmops.Prelude.{
  ◌≡◌, ◌⊎◌, inl, inr, refl, true, false, Option, none, some, List, [], ◌∷◌, ◌++◌, Result, ok, pos,
  if◌then◌else◌,
}
use llmops.Strings
use llmops.Strings.Numbers
use llmops.Strings.{Bytes, codes, equal, fields}
use llmops.Paths
use llmops.Manifest.{Manifest, or_default, deploy_mode}
use llmops.Manifest.Speculators
use llmops.Manifest.Speculators.{Speculation, resolve_speculator}
use llmops.Manifest.Patterns.{matches_name, is_name_start, is_name_byte}
use llmops.Manifest.Load.{load}
use llmops.Mirror.Store.Local
use llmops.Install as Installing
use llmops.Install.{Host, Options, exec_line, manifest_path, unit_path, unit_text, defaults}
use llmops.Deploycheck.Unit.Installed.{IsPlain}
use llmops.Cli.Flags
use llmops.Cli.{Fault}
use llmops.Cli.Serving.{run_serve}
use llmops.Cli.Install
use llmops.Cli.Install.{InstallArgs, InstallFailure, install_args, run_install_verb}
use llmops.Cli.Install.Laws.{run_install_verb-Intended, Intended}
use llmops.Cli.Install.Starts.{run_install_verb-serves}
use llmops.Tests.Agents.{no_numbers}
use llmops.Tests.Fixtures.{hundredths, run_validate, qwen}

abbrev before : Host
before = record {
  files = record {
    read = λ p. if equal p (codes "qwen.yaml") then some (codes "name: qwen") else none;
    writable = λ _. true;
  };
  reloads = 0;
}

abbrev words : List Bytes
words = codes "--manifest" ∷ codes "qwen.yaml" ∷ codes "--cache-root=/srv/models" ∷ []

abbrev parse : Bytes → Option Manifest
parse _ = some qwen

abbrev args : InstallArgs
args = record {
  manifest = codes "qwen.yaml";
  options = record {
    bin_path = codes "/usr/local/bin/fornax";
    config_dir = codes "/etc/fornax";
    unit_dir = codes "/etc/systemd/system";
    cache_root = codes "/srv/models";
    user = [];
    speculator = [];
  };
  print = false;
  no_reload = false;
}

read_args : install_args no_numbers words ≡ some args
unfolding install_args codes equal Strings.cut Flags.accepts Flags.kind_of Flags.name_token
    Flags.token_of Flags.parse_onto Flags.parse_flags Flags.string_of Flags.bool_of
read_args = refl

loads : load hundredths before.files.read parse args.manifest ≡ ok qwen
unfolding load run_validate codes equal
loads = refl

plain : IsPlain qwen args.options
unfolding codes equal Strings.contains_byte Strings.split Strings.join Strings.after_last
    Paths.clean Paths.join_path Paths.base manifest_path defaults matches_name is_name_start
    is_name_byte
plain = record {
  name_ok = refl;
  runtime_line = refl;
  gpu_line = refl;
  user_line = refl;
  binary_ok = refl;
  binary_word = refl;
  path_word = refl;
  cache_word = inr refl;
  speculator_word = inl refl;
}

unfoldable installs : Result (Fault InstallFailure) Bytes × Host
unfolding codes equal Strings.split Strings.join Numbers.itoa_int Paths.clean Paths.join_path
    Local.write deploy_mode Installing.run_install unit_text exec_line manifest_path unit_path load
    run_validate Strings.cut Flags.accepts Flags.kind_of Flags.name_token Flags.token_of
    Flags.parse_onto Flags.parse_flags Flags.string_of Flags.bool_of install_args run_install_verb
    Install.install_loaded Install.install_line resolve_speculator
installs = run_install_verb hundredths parse true no_numbers words before

abbrev after : Host
after = installs.1

abbrev printed : Bytes
printed =
    codes "installed qwen3.8-27b "
    ++ (226 ∷ 128 ∷ 148 ∷ codes " start it with: systemctl enable --now qwen3.8-27b.service\n")

installed : run_install_verb hundredths parse true no_numbers words before ≡ (ok printed, after)
unfolding installs Speculators.resolve_named
installed = refl

run_install_verb-Intended_example :
    (after ≡ before) ⊎ Intended hundredths parse true no_numbers words before
run_install_verb-Intended_example =
    run_install_verb-Intended hundredths parse true no_numbers words before after (ok printed)
      installed

run_install_verb-serves_example :
    (rest : List Bytes) × (after.files.read (unit_path args.options qwen)
      ≡ some (unit_text qwen args.options))
    × (fields (exec_line qwen args.options)
        ≡ (defaults args.options).bin_path ∷ codes "serve" ∷ rest)
    × (run_serve hundredths
          (record {
            tree = record {
              read = after.files.read;
              exists = λ _. false;
              parse = parse;
              decode = λ _. [];
            };
            stat = λ _. some false;
            glob = λ _. [];
          })
          no_numbers
          []
          rest
        ≡ ok (
          record {
            manifest = manifest_path args.options qwen;
            port = pos 8000;
            engine_port = pos 30000;
            cache_root = or_default args.options.cache_root (codes "/cache");
            speculator = args.options.speculator;
            engine_cmd = [];
          },
          qwen,
        ))
run_install_verb-serves_example =
    run_install_verb-serves hundredths parse true no_numbers words args qwen before after printed
      (λ _. false) (λ _. []) (λ _. some false) (λ _. []) read_args refl loads plain installed

-- ===== src/Cli/Install.antt =====
-- The verb `install` (cmd/fornax/install.go) over a host.
pub mod Laws
pub mod Starts
use llmops.Prelude.{
  ℕ, Bool, true, false, ◌||◌, not, ◌&&◌, Option, none, some, List, [], ◌∷◌, ◌++◌, if◌then◌else◌,
  Result, ok, err, wrap,
}
use llmops.Floats.{Floats}
use llmops.Strings.{Bytes, codes, equal, is_empty}
use llmops.Manifest.{Manifest, deploy_mode, deploy_bare_metal}
use llmops.Manifest.Load.{LoadError, load}
use llmops.Manifest.Speculators.{ResolveError, resolve_speculator}
use llmops.Mirror.Effects.{Eff}
use llmops.Install.{
  Options, Host, Installed, InstallError, run_install, unit_text, unit_name, default_bin_path,
  default_config_dir, default_unit_dir,
}
use llmops.Cli.{Fault, usage, failure}
use llmops.Cli.Flags.{Scanners, Flag, Kind, parse_flags, string_of, bool_of}

pub data InstallFailure : Type 0 where
  not_loaded : LoadError → InstallFailure
  not_resolved : ResolveError → InstallFailure
  no_unit : Bytes → Bytes → InstallFailure
  not_installed : InstallError → InstallFailure

abbrev text_flag : Bytes → Flag
text_flag n = record { name = n; kind = Kind.string }

abbrev truth_flag : Bytes → Flag
truth_flag n = record { name = n; kind = Kind.truth }

-- The flags of `install`.
abbrev pub install_flags : List Flag
install_flags =
    text_flag (codes "manifest")
    ∷ text_flag (codes "bin")
    ∷ text_flag (codes "config-dir")
    ∷ text_flag (codes "unit-dir")
    ∷ text_flag (codes "cache-root")
    ∷ text_flag (codes "user")
    ∷ text_flag (codes "speculator")
    ∷ truth_flag (codes "print")
    ∷ truth_flag (codes "no-reload")
    ∷ []

pub record InstallArgs : Type 0 where
  pub manifest : Bytes
  pub options : Options
  pub print : Bool
  pub no_reload : Bool

-- What `install` takes from its arguments.
unfoldable pub install_args : Scanners → List Bytes → Option InstallArgs
unfolding parse_flags string_of bool_of
install_args sc rest = elim (parse_flags sc install_flags rest) [
  | none ↦ none
  | some got ↦
      let path = string_of got (codes "manifest") [] in
      if is_empty path
      then none
      else some (record {
        manifest = path;
        options = record {
          bin_path = string_of got (codes "bin") default_bin_path;
          config_dir = string_of got (codes "config-dir") default_config_dir;
          unit_dir = string_of got (codes "unit-dir") default_unit_dir;
          cache_root = string_of got (codes "cache-root") [];
          user = string_of got (codes "user") [];
          speculator = string_of got (codes "speculator") [];
        };
        print = bool_of got (codes "print");
        no_reload = bool_of got (codes "no-reload");
      })
]

-- A run that was given a reload which does nothing.
abbrev pub unless_told : Bool → Host → Host → Host
unless_told false before after = after
unless_told true before after = record after { reloads = before.reloads }

-- What `install` prints at its end.
unfoldable pub install_line : Manifest → Installed → Bytes
install_line m r =
    if not r.manifest_changed && not r.unit_changed
    then m.name ++ codes " already installed; nothing to do\n"
    else codes "installed "
      ++ (m.name
          ++ (32 ∷ 226 ∷ 128 ∷ 148 ∷ codes " start it with: systemctl enable --now "
              ++ (unit_name m ++ codes "\n")))

module _ (F : Floats) (parse : Bytes → Option Manifest) (reload_works : Bool) where
  abbrev installed : Manifest → Result InstallError Installed → Result (Fault InstallFailure) Bytes
  unfolding install_line
  installed m (err e) = err (failure (not_installed e))
  installed m (ok r) = ok (install_line m r)

  -- `runInstall` on a manifest that has been loaded.
  unfoldable pub install_loaded : InstallArgs → Manifest → Eff Host (Fault InstallFailure) Bytes
  unfolding resolve_speculator deploy_mode unit_text run_install installed
  install_loaded a m h = elim (resolve_speculator m a.options.speculator) [
    | err e ↦ (err (failure (not_resolved e)), h)
    | ok resolved ↦ elim a.print [
      | true ↦
          if not (equal (deploy_mode m) deploy_bare_metal)
          then (err (failure (no_unit m.name (deploy_mode m))), h)
          else (ok (unit_text m a.options), h)
      | false ↦
          let r =
            run_install m a.options (a.no_reload || reload_works) (h.files.read a.manifest) h in
          (installed m r.0, unless_told a.no_reload h r.1)
    ]
  ]

  -- `runInstall`
  unfoldable pub run_install_verb : Scanners → List Bytes → Eff Host (Fault InstallFailure) Bytes
  unfolding install_args load install_loaded
  run_install_verb sc rest h = elim (install_args sc rest) [
    | none ↦ (err usage, h)
    | some a ↦ elim (load F h.files.read parse a.manifest) [
      | err e ↦ (err (failure (not_loaded e)), h)
      | ok m ↦ install_loaded a m h
    ]
  ]

-- ===== src/Cli/Install/Laws.antt =====
-- What an install does to the host, and what the unit then starts.
use llmops.Prelude.{
  ◌≡◌, ◌⊎◌, inl, inr, Bool, false, Option, some, List, arith, Result, ok, Result-cases,
  Option-cases, Bool-cases,
}
use llmops.Floats.{Floats}
use llmops.Strings.{Bytes, equal}
use llmops.Strings.Laws.{equal_iff}
use llmops.Manifest.{Manifest, deploy_mode, deploy_bare_metal}
use llmops.Manifest.Load.{load}
use llmops.Manifest.Speculators.{Speculation, resolve_speculator}
use llmops.Install.{Host, run_install}
use llmops.Cli.{Fault}
use llmops.Cli.Flags.{Scanners}
use llmops.Cli.Install.{InstallArgs, InstallFailure, install_args, install_loaded, run_install_verb}

module _ (F : Floats) (parse : Bytes → Option Manifest) (works : Bool) (sc : Scanners) where
  -- The host is as it was, unless the arguments ask for an install of a manifest that loads, is
  -- deployed on bare metal, and has the speculator that is asked for.
  abbrev pub Intended : List Bytes → Host → Type 0
  Intended rest h =
      (a : InstallArgs) × (m : Manifest) × (s : Speculation) × (install_args sc rest ≡ some a)
      × (a.print ≡ false)
      × (load F h.files.read parse a.manifest ≡ ok m)
      × (resolve_speculator m a.options.speculator ≡ ok s)
      × (deploy_mode m ≡ deploy_bare_metal)

  loaded_unchanged :
      (a : InstallArgs) (m : Manifest) (h t : Host) (r : Result (Fault InstallFailure) Bytes)
      → install_loaded F parse works a m h ≡ (r, t)
      → (t ≡ h)
        ⊎ ((a.print ≡ false)
            × ((s : Speculation) × (resolve_speculator m a.options.speculator ≡ ok s))
            × (deploy_mode m ≡ deploy_bare_metal))
  unfolding install_loaded run_install
  loaded_unchanged a m h t r e = elim (Result-cases (resolve_speculator m a.options.speculator)) [
    | inr (x, k) ↦ inl (ground (arith, e, k))
    | inl (s, k) ↦ elim (Bool-cases a.print) [
      | inl p ↦ elim (Bool-cases (equal (deploy_mode m) deploy_bare_metal)) [
        | inl d ↦ inl (ground (arith, e, k, p, d))
        | inr d ↦ inl (ground (arith, e, k, p, d))
      ]
      | inr p ↦ elim (Bool-cases (equal (deploy_mode m) deploy_bare_metal)) [
        | inl d ↦ inr (p, (s, k), (equal_iff (deploy_mode m) deploy_bare_metal).0 d)
        | inr d ↦ elim (Bool-cases a.no_reload) [
          | inl n ↦ inl (ground (arith, e, k, p, d, n))
          | inr n ↦ inl (ground (arith, e, k, p, d, n))
        ]
      ]
    ]
  ]

  -- Whatever its outcome, `install` leaves the host as it was, unless its arguments ask for an
  -- install, not for a print, of a manifest that can be read and is valid, that is deployed on bare
  -- metal, and that has the speculator that is asked for.
  pub run_install_verb-Intended :
      (rest : List Bytes) (h t : Host) (r : Result (Fault InstallFailure) Bytes)
      → run_install_verb F parse works sc rest h ≡ (r, t)
      → (t ≡ h) ⊎ Intended rest h
  unfolding run_install_verb
  run_install_verb-Intended rest h t r e = elim (Option-cases (install_args sc rest)) [
    | inl k ↦ inl (ground (arith, e, k))
    | inr (a, k) ↦ elim (Result-cases (load F h.files.read parse a.manifest)) [
      | inr (x, l) ↦ inl (ground (arith, e, k, l))
      | inl (m, l) ↦
          let ran : install_loaded F parse works a m h ≡ (r, t) = ground (arith, e, k, l) in
          elim (loaded_unchanged a m h t r ran) [
            | inl same ↦ inl same
            | inr (p, (s, found), d) ↦ inr (a, m, s, k, p, l, found, d)
          ]
    ]
  ]

-- ===== src/Cli/Serving/Laws.antt =====
-- What `serve` takes from the unit that `install` writes, and what `validate` accepts.
use llmops.Prelude.{
  pos, ◌≡◌, ◌≢◌, refl, ◌↔◌, ◌⊎◌, inl, inr, Bool, true, false, some, List, [], ◌∷◌, ◌++◌, arith,
  Result, ok, All, Result-cases, Option-cases, >>=-eq-ok, wrap-eq-ok,
}
use llmops.Floats.{Floats}
use llmops.Strings.{Bytes, codes, equal, sort}
use llmops.Manifest.{Manifest, or_default}
use llmops.Manifest.Load.{load_dir}
use llmops.Manifest.Load.Laws.{Loaded, AllLoaded, load_iff, load_dir_iff}
use llmops.Deploycheck.{validate_deploy}
use llmops.Deploycheck.Accepted.{IsAccepted, validate_deploy_iff}
use llmops.Deploycheck.Unit.Installed.{flag_words}
use llmops.Cli.Flags.{Scanners}
use llmops.Cli.Serving.{
  Site, ServingError, serve_args, validate_directory, validate_file, validate_path, deploy_dir_of,
  is_there, directory_lines,
}

-- Words as `install` writes them, read back.
pub serve_args-words :
    (sc : Scanners) (path cache spec : Bytes)
    → path ≢ []
    → serve_args sc [] (
        codes "--manifest"
        ∷ path
        ∷ (flag_words (codes "--cache-root") cache ++ flag_words (codes "--speculator") spec))
      ≡ some (record {
        manifest = path;
        port = pos 8000;
        engine_port = pos 30000;
        cache_root = or_default cache (codes "/cache");
        speculator = spec;
        engine_cmd = [];
      })
unfolding serve_args codes equal
serve_args-words sc [] cache spec h = absurd (h refl)
serve_args-words sc (c ∷ p) [] [] h = refl
serve_args-words sc (c ∷ p) [] (d ∷ s) h = refl
serve_args-words sc (c ∷ p) (k ∷ r) [] h = refl
serve_args-words sc (c ∷ p) (k ∷ r) (d ∷ s) h = refl

itself : {b : Bool} → (b ≡ true) ↔ (b ≡ true)
itself = (λ h. h, λ h. h)

module _ (F : Floats) (site : Site) (path deploy_dir : Bytes) where
  open site use {tree, stat, glob}

  -- Manifests that can be read and are valid, at least one, each with its artifact.
  abbrev IsConsistent : Type 0
  IsConsistent =
      (m : Manifest) × (ms : List Manifest) × AllLoaded F tree.read tree.parse (sort (glob path))
        (m ∷ ms)
      × All (IsAccepted tree (deploy_dir_of path deploy_dir)) (m ∷ ms)

  abbrev Succeeds : Result ServingError (List Bytes) → Type 0
  Succeeds r = (lines : List Bytes) × (r ≡ ok lines)

  directory_iff :
      Succeeds (validate_directory F site path deploy_dir)
      ↔ ((is_there (stat (deploy_dir_of path deploy_dir)) ≡ true) × IsConsistent)
  unfolding validate_directory
  directory_iff = (
    λ (lines, h). elim (Result-cases (load_dir F tree.read tree.parse (glob path))) [
      | inr (x, e) ↦ ground (arith, h, e)
      | inl (ms, e) ↦
          elim (Result-cases (validate_deploy F tree (glob path) (deploy_dir_of path deploy_dir))) [
            | inr (x, k) ↦ ground (arith, h, e, k)
            | inl (tt, k) ↦ (
              ground (arith, h, e, k),
              (validate_deploy_iff tree (deploy_dir_of path deploy_dir) F (glob path)).0 k,
            )
          ]
    ],
    λ (there, (m, ms, a, i)).
        let checked =
          (validate_deploy_iff tree (deploy_dir_of path deploy_dir) F (glob path)).1
            (m, ms, a, i) in
        let loads = (load_dir_iff F tree.read tree.parse (glob path) (m ∷ ms)).1 a in
        (directory_lines (m ∷ ms), rw (checked, there, loads) refl),
  )

  file_iff :
      Succeeds (validate_file F site path) ↔ ((m : Manifest) × Loaded F tree.read tree.parse path m)
  unfolding validate_file
  file_iff = (
    λ (lines, h).
        let (m, e, k) = >>=-eq-ok _ _ h in
        (
          m,
          (load_iff F tree.read tree.parse path m).0 ((wrap-eq-ok ServingError.not_loaded _).0 e),
        ),
    λ (m, l).
        ((m.name ++ codes ": ok") ∷ [], rw ((load_iff F tree.read tree.parse path m).1 l) refl),
  )

  -- `validate` succeeds exactly on a manifest that can be read and is valid, and on a directory of
  -- such manifests, at least one, for each of which the directory of artifacts, which exists, has the artifact of
  -- its mode, accepted, and no other.
  pub validate_path_iff : Succeeds (validate_path F site path deploy_dir) ↔ (
      ((stat path ≡ some true)
        × (is_there (stat (deploy_dir_of path deploy_dir)) ≡ true)
        × IsConsistent)
      ⊎ ((stat path ≡ some false) × ((m : Manifest) × Loaded F tree.read tree.parse path m)))
  unfolding validate_path
  validate_path_iff = elim (Option-cases (stat path)) [
    | inl e ↦ (
      λ (lines, h). cc (rw (validate_path, e) at h),
      λ h. elim h [ inl (k, there, all) ↦ cc (e, k) | inr (k, loaded) ↦ cc (e, k) ],
    )
    | inr (true, e) ↦ (
      λ (lines, h).
          let (there, all) = directory_iff.0 (lines, rw (validate_path, e) at h) in
          inl (e, there, all),
      λ h. elim h [
        | inl (k, there, all) ↦
            let (lines, l) = directory_iff.1 (there, all) in (lines, rw (validate_path, e) l)
        | inr (k, loaded) ↦ cc (e, k)
      ],
    )
    | inr (false, e) ↦ (
      λ (lines, h). inr (e, file_iff.0 (lines, rw (validate_path, e) at h)),
      λ h. elim h [
        | inl (k, there, all) ↦ cc (e, k)
        | inr (k, loaded) ↦ let (lines, l) = file_iff.1 loaded in (lines, rw (validate_path, e) l)
      ],
    )
  ]

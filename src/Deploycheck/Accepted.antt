-- ===== src/Deploycheck/Accepted.antt =====
-- The trees that `Validate` accepts.
use llmops.Prelude.{
  ◌≡◌, ◌≢◌, refl, sym, subst, ap, ◌∙◌, ◌↔◌, ◌⊎◌, inl, inr, Bool, true, false, not, none, some, List,
  [], ◌∷◌, arith, Option-cases, ok, wrap, >>=-eq-ok, wrap-eq-ok, checks-ok, ensure-ok, branch-ok,
  All,
}
use llmops.Floats.{Floats}
use llmops.Strings.{Bytes, sort}
use llmops.Strings.Laws.{equal_iff}
use llmops.Paths.{join_path}
use llmops.Manifest.{Manifest, deploy_mode, deploy_bare_metal}
use llmops.Manifest.Validity.{IsValid}
use llmops.Manifest.Validity.Whole.{validate-IsValid}
use llmops.Manifest.Load.{deploy_artifact, load_dir}
use llmops.Manifest.Load.Laws.{AllLoaded, load_dir_iff}
use llmops.Deploycheck.Unit.{validate_unit}
use llmops.Deploycheck.Yaml.{Entries}
use llmops.Deploycheck.Lws.{validate_one}
use llmops.Deploycheck.Lws.Fits.{Fits, Reads, LastLws}
use llmops.Deploycheck.Lws.Whole.{validate_one_iff}
use llmops.Deploycheck.{
  DeployError, Tree, decoded_at, validate_artifact, other_artifact, check_no_stray, check_models,
  some_models, validate_deploy,
}

module _ (t : Tree) (deploy_dir : Bytes) where
  abbrev pub artifact_at : Manifest → Bytes
  artifact_at m = join_path (deploy_dir ∷ deploy_artifact m ∷ [])

  -- The documents of the artifact, of which the last LeaderWorkerSet fits.
  abbrev pub LwsAccepted : Manifest → Type 0
  LwsAccepted m =
      (content : Bytes) × (t.read (artifact_at m) ≡ some content)
      × ((docs : List Entries) × Reads (t.decode content) docs
          × ((lws : Entries) × LastLws docs lws × Fits m lws))

  -- The artifact of the model's mode is right, and that of the other mode is not there.
  abbrev pub IsAccepted : Manifest → Type 0
  IsAccepted m =
      (((deploy_mode m ≡ deploy_bare_metal) × (validate_unit m (t.read (artifact_at m)) ≡ ok tt))
        ⊎ ((deploy_mode m ≢ deploy_bare_metal) × LwsAccepted m))
      × (t.exists (other_artifact deploy_dir m) ≡ false)

  validate_one-none : (m : Manifest) → validate_one m none ≡ ok tt → ⊥
  unfolding validate_one
  validate_one-none m h = cc h

  decoded_none : (path : Bytes) → t.read path ≡ none → decoded_at t path ≡ none
  decoded_none path r = rw (r, decoded_at) refl

  decoded_some :
      (path content : Bytes)
      → t.read path ≡ some content
      → decoded_at t path ≡ some (t.decode content)
  decoded_some path content r = rw (r, decoded_at) refl

  lws_iff :
      (F : Floats) (m : Manifest)
      → IsValid F m
      → (validate_one m (decoded_at t (artifact_at m)) ≡ ok tt) ↔ LwsAccepted m
  lws_iff F m v =
      let one =
        λ (content : Bytes). validate_one_iff F m (t.decode content) ((validate-IsValid F m).1 v) in
      (
        λ h. elim (Option-cases (t.read (artifact_at m))) [
          | inl r ↦
              absurd (
                validate_one-none m
                  (sym (ap (validate_one m) (decoded_none (artifact_at m) r)) ∙ h))
          | inr (content, r) ↦ (
            content,
            r,
            (one content).0
                (sym (ap (validate_one m) (decoded_some (artifact_at m) content r)) ∙ h),
          )
        ],
        λ (content, r, fits).
            ap (validate_one m) (decoded_some (artifact_at m) content r) ∙ (one content).1 fits,
      )

  artifact_iff :
      (F : Floats) (m : Manifest)
      → IsValid F m
      → (validate_artifact t m (artifact_at m) ≡ ok tt) ↔ (
          ((deploy_mode m ≡ deploy_bare_metal) × (validate_unit m (t.read (artifact_at m)) ≡ ok tt))
          ⊎ ((deploy_mode m ≢ deploy_bare_metal) × LwsAccepted m))
  unfolding validate_artifact
  artifact_iff F m v =
      branch-ok _ _ _ (equal_iff (deploy_mode m) deploy_bare_metal) (λ b. wrap-eq-ok _ _)
        (λ n.
          let (to, from) = lws_iff F m v in
          let (up, down) = wrap-eq-ok _ (validate_one m (decoded_at t (artifact_at m))) in
          (λ h. to (up h), λ h. down (from h)))

  not_iff : (b : Bool) → (not b ≡ true) ↔ (b ≡ false)
  not_iff false = ground arith
  not_iff true = ground arith

  models_iff :
      (F : Floats) (ms : List Manifest)
      → All (IsValid F) ms
      → (check_models t deploy_dir ms ≡ ok tt) ↔ All IsAccepted ms
  unfolding check_models check_no_stray
  models_iff F [] vs = (λ h. tt, λ h. refl)
  models_iff F (m ∷ ms) (v, vs) =
      let stray_iff = ensure-ok _ _ (not_iff (t.exists (other_artifact deploy_dir m))) in
      let (to, from) =
        checks-ok _ _ (checks-ok _ _ (artifact_iff F m v) stray_iff) (models_iff F ms vs) in
      (λ h. to h, λ h. from h)

  All-IsValid :
      (F : Floats) (ps : List Bytes) (ms : List Manifest)
      → AllLoaded F t.read t.parse ps ms
      → All (IsValid F) ms
  All-IsValid F [] ms e = subst (All (IsValid F)) (sym e) tt
  All-IsValid F (p ∷ ps) ms (m, rest, e, (content, r, q, v), a) =
      subst (All (IsValid F)) (sym e) (v, All-IsValid F ps rest a)

  accepted :
      (F : Floats) (paths : List Bytes) (ms : List Manifest)
      → AllLoaded F t.read t.parse (sort paths) ms
      → some_models t deploy_dir ms ≡ ok tt
      → (m : Manifest) × (rest : List Manifest) × AllLoaded F t.read t.parse (sort paths) (m ∷ rest)
        × All IsAccepted (m ∷ rest)
  accepted F paths [] a k = cc k
  accepted F paths (m ∷ ms) a k =
      (m, ms, a, (models_iff F (m ∷ ms) (All-IsValid F (sort paths) (m ∷ ms) a)).0 k)

  -- The check accepts a tree exactly when every manifest of it can be read and is valid, there is
  -- at least one, and each model has the artifact of its mode and no other: a unit that the check
  -- of units accepts, or a file whose last LeaderWorkerSet fits the model.
  pub validate_deploy_iff :
      (F : Floats) (paths : List Bytes)
      → (validate_deploy F t paths deploy_dir ≡ ok tt) ↔ (
          (m : Manifest) × (ms : List Manifest) × AllLoaded F t.read t.parse (sort paths) (m ∷ ms)
          × All IsAccepted (m ∷ ms))
  unfolding validate_deploy
  validate_deploy_iff F paths = (
    λ h.
        let (ms, e, k) =
          >>=-eq-ok (wrap DeployError.not_loaded (load_dir F t.read t.parse paths))
            (some_models t deploy_dir) h in
        let l : load_dir F t.read t.parse paths ≡ ok ms = (wrap-eq-ok _ _).0 e in
        accepted F paths ms ((load_dir_iff F t.read t.parse paths ms).0 l) k,
    λ (m, ms, a, i).
        let valid : All (IsValid F) (m ∷ ms) = All-IsValid F (sort paths) (m ∷ ms) a in
        rw ((load_dir_iff F t.read t.parse paths (m ∷ ms)).1 a) ((models_iff F (m ∷ ms) valid).1 i),
  )

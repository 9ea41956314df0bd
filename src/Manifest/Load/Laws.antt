-- ===== src/Manifest/Load/Laws.antt =====
-- What the manifests of a directory are.
use llmops.Prelude.{
  ◌≡◌, refl, sym, ap, ◌∙◌, ◌↔◌, inl, inr, Option, some, List, [], ◌∷◌, arith, Option-cases, ok,
  ◌>>=◌, >>=-eq-ok, wrap-eq-ok, subst,
}
use llmops.Floats.{Floats}
use llmops.Strings.{Bytes, sort}
use llmops.Manifest.{Manifest}
use llmops.Manifest.Problems.{Problem}
use llmops.Manifest.Validate.{validate, as_result, problems}
use llmops.Manifest.Validity.{IsValid}
use llmops.Manifest.Validity.Whole.{validate-IsValid}
use llmops.Manifest.Load.{invalid, load, load_all, load_dir}

module _ (F : Floats) (read : Bytes → Option Bytes) (parse : Bytes → Option Manifest) where
  -- One file: it can be read and decoded, and its manifest is valid.
  abbrev pub Loaded : Bytes → Manifest → Type 0
  Loaded path m =
      (content : Bytes) × (read path ≡ some content) × (parse content ≡ some m) × IsValid F m

  -- The manifests of the paths, one by one and in their order.
  abbrev pub AllLoaded : List Bytes → List Manifest → Type 0
  AllLoaded [] ms = ms ≡ []
  AllLoaded (p ∷ ps) ms =
      (m : Manifest) × (rest : List Manifest) × (ms ≡ m ∷ rest) × Loaded p m × AllLoaded ps rest

  as_result-same : (n m : Manifest) (ps : List Problem) → as_result n ps ≡ ok m → n ≡ m
  as_result-same n m [] h = cc h
  as_result-same n m (p ∷ ps) h = cc h

  validate-same : (n m : Manifest) → validate F n ≡ ok m → n ≡ m
  unfolding validate
  validate-same n m h = as_result-same n m (problems F n) h

  pub load_iff : (path : Bytes) (m : Manifest) → (load F read parse path ≡ ok m) ↔ Loaded path m
  unfolding load
  load_iff path m = (
    λ h. elim (Option-cases (read path)) [
      | inl r ↦ ground (arith, r, h)
      | inr (content, r) ↦ elim (Option-cases (parse content)) [
        | inl p ↦ ground (arith, r, p, h)
        | inr (n, p) ↦
            let k : validate F n ≡ ok m =
              (wrap-eq-ok (invalid path) (validate F n)).0 (rw (r, p) at h) in
            let same : n ≡ m = validate-same n m k in
            (
              content,
              r,
              p ∙ ap some same,
              (validate-IsValid F m).0 (subst (λ x. validate F x ≡ ok m) same k),
            )
      ]
    ],
    λ (content, r, p, v). rw (r, p, (validate-IsValid F m).1 v) refl,
  )

  load_all_iff :
      (ps : List Bytes) (ms : List Manifest) → (load_all F read parse ps ≡ ok ms) ↔ AllLoaded ps ms
  unfolding load_all
  load_all_iff [] ms = (λ h. cc h, λ e. cc e)
  load_all_iff (p ∷ ps) ms = (
    λ h.
        let (m, e, k) =
          >>=-eq-ok (load F read parse p) (λ m. load_all F read parse ps >>= λ ms. ok (m ∷ ms)) h in
        let (rest, f, g) = >>=-eq-ok (load_all F read parse ps) (λ ms. ok (m ∷ ms)) k in
        (m, rest, cc g, (load_iff p m).0 e, (load_all_iff ps rest).0 f),
    λ (m, rest, e, l, a). rw ((load_iff p m).1 l, (load_all_iff ps rest).1 a) (ap ok (sym e)),
  )

  -- `LoadDir` returns the manifests of the sorted paths, in that order, exactly when every file can
  -- be read and decoded and holds a valid manifest; otherwise it returns an error.
  pub load_dir_iff :
      (ps : List Bytes) (ms : List Manifest)
      → (load_dir F read parse ps ≡ ok ms) ↔ AllLoaded (sort ps) ms
  unfolding load_dir
  load_dir_iff ps ms = load_all_iff (sort ps) ms

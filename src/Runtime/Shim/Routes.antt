-- ===== src/Runtime/Shim/Routes.antt =====
-- The surfaces that a manifest's dialect binds, and the routes that RouteTemplate reports.
use llmops.Prelude.{
  ◌≡◌, refl, sym, subst, ◌++◌, ◌∙◌, true, false, none, some, List, [], ◌∷◌, ◌⊎◌, inl, inr, map,
  arith, Bool-cases, Option-cases,
}
use llmops.Strings.{Bytes, codes, equal, has_member}
use llmops.Strings.Laws.{equal_iff}
use llmops.Manifest.{StringMap}
use llmops.Runtime.Shim.Surfaces.{
  Surface, Bound, backends, set_dialect, surface_at, chat_path, messages_path, responses_path,
}
use llmops.Runtime.Shim.Serve.{Shim, probe_paths, route_template}

abbrev pub front_paths : List Bytes
front_paths = chat_path ∷ messages_path ∷ responses_path ∷ []

surface_at-member :
    (ss : StringMap Surface) (p : Bytes) (sf : Surface)
    → surface_at ss p ≡ some sf
    → has_member (map (λ x. x.0) ss) p ≡ true
unfolding surface_at has_member
surface_at-member [] p sf h = cc h
surface_at-member ((q, s) ∷ rest) p sf h = elim (Bool-cases (equal q p)) [
  | inl e ↦ rw e
  | inr e ↦ rw (e, surface_at-member rest p sf (by_rest e))
]
  where
    by_rest : equal q p ≡ false → surface_at rest p ≡ some sf
    by_rest e = ground (arith, h)

set_dialect-paths :
    (d : Bytes) {b : Bound} → set_dialect d ≡ some b → map (λ x. x.0) b.surfaces ≡ front_paths
unfolding set_dialect
set_dialect-paths d h = elim (Option-cases (backends d)) [
  | inl e ↦ ground arith
  | inr ((back, path), e) ↦ ground arith
]

-- The templates that RouteTemplate may report.
abbrev pub templates : List Bytes
templates = codes "/v1/models" ∷ codes "/proxy" ∷ (front_paths ++ probe_paths)

later_front : (path : Bytes) → has_member front_paths path ≡ true → has_member templates path ≡ true
unfolding has_member
later_front path h = ground (arith, h)

later_probe : (path : Bytes) → has_member probe_paths path ≡ true → has_member templates path ≡ true
unfolding has_member
later_probe path h = ground (arith, h)

models_template :
    (path : Bytes) → equal (codes "/v1/models") path ≡ true → has_member templates path ≡ true
unfolding has_member
models_template path h = rw h

models_refl :
    (path : Bytes) → equal path (codes "/v1/models") ≡ true → equal (codes "/v1/models") path ≡ true
models_refl path h =
    (equal_iff (codes "/v1/models") path).1 (sym ((equal_iff path (codes "/v1/models")).0 h))

proxy_template : has_member templates (codes "/proxy") ≡ true
unfolding has_member equal codes
proxy_template = refl

proxy-not-probe : has_member probe_paths (codes "/proxy") ≡ false
unfolding has_member equal codes
proxy-not-probe = refl

proxy-not-models : equal (codes "/v1/models") (codes "/proxy") ≡ false
unfolding equal codes
proxy-not-models = refl

proxy-not-front : has_member front_paths (codes "/proxy") ≡ false
unfolding has_member equal codes
proxy-not-front = refl

pub ready-probe : has_member probe_paths (codes "/ready") ≡ true
unfolding has_member equal codes
ready-probe = refl

module _ (s : Shim) (d path : Bytes) (bound : set_dialect d ≡ some s.bound) where
  surface-front :
      {sf : Surface}
      → surface_at s.bound.surfaces path ≡ some sf
      → has_member front_paths path ≡ true
  surface-front {sf} h =
      subst (λ ps. has_member ps path ≡ true) (set_dialect-paths d bound)
        (surface_at-member s.bound.surfaces path sf h)

  -- How RouteTemplate comes to its answer.
  abbrev TemplateCase : Bytes → Type 0
  TemplateCase t =
      ((t ≡ path) × (has_member probe_paths path ≡ true))
      ⊎ ((t ≡ path) × (equal (codes "/v1/models") path ≡ true))
      ⊎ ((t ≡ path) × (has_member front_paths path ≡ true))
      ⊎ ((t ≡ codes "/proxy")
          × (has_member probe_paths path ≡ false)
          × (surface_at s.bound.surfaces path ≡ none))

  template-cases : TemplateCase (route_template s path)
  unfolding route_template
  template-cases = elim (Bool-cases (has_member probe_paths path)) [
    | inl p ↦ inl (rw p, p)
    | inr p ↦ elim (Bool-cases (equal path (codes "/v1/models"))) [
      | inl q ↦ inr (inl (rw (p, q), models_refl path q))
      | inr q ↦ elim (Option-cases (surface_at s.bound.surfaces path)) [
        | inl e ↦ inr (inr (inr (rw (p, q, e), p, e)))
        | inr (sf, e) ↦ inr (inr (inl (rw (p, q, e), surface-front e)))
      ]
    ]
  ]

  -- The span attribute is one of the eleven templates, whatever path a caller asks for.
  pub route_template-bounded : has_member templates (route_template s path) ≡ true
  route_template-bounded = elim template-cases [
    | inl (t, p) ↦ subst (λ x. has_member templates x ≡ true) (sym t) (later_probe path p)
    | inr (inl (t, q)) ↦ subst (λ x. has_member templates x ≡ true) (sym t) (models_template path q)
    | inr (inr (inl (t, f))) ↦
        subst (λ x. has_member templates x ≡ true) (sym t) (later_front path f)
    | inr (inr (inr (t, _, _))) ↦ subst (λ x. has_member templates x ≡ true) (sym t) proxy_template
  ]

  pub template-proxy :
      route_template s path ≡ codes "/proxy"
      → (has_member probe_paths path ≡ false) × (surface_at s.bound.surfaces path ≡ none)
  template-proxy h = elim template-cases [
    | inl (t, p) ↦ cc (proxy-not-probe, sym t ∙ h, p)
    | inr (inl (t, q)) ↦ cc (proxy-not-models, sym t ∙ h, q)
    | inr (inr (inl (t, f))) ↦ cc (proxy-not-front, sym t ∙ h, f)
    | inr (inr (inr (t, outside, nowhere))) ↦ (outside, nowhere)
  ]

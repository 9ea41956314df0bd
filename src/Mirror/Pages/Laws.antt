-- ===== src/Mirror/Pages/Laws.antt =====
-- Every page is read, and none off the configured site.
use mathlib.Core.List.{append-nil, append_assoc}
use llmops.Prelude.{
  ℕ, zero, suc, ◌≤◌, ◌≡◌, ◌↔◌, sym, ap, ◌∙◌, ◌≢◌, ◌⊎◌, inl, inr, Option, some, List, [], ◌∷◌, ◌++◌,
  arith, Result, ok, length, Result-cases, Option-cases,
}
use llmops.Strings.{Bytes, split}
use llmops.Strings.Laws.{equal_iff}
use llmops.Mirror.Pages.{
  Url, PageError, next_target, same_site, next_in, next_page_url, pages_onto, max_tree_pages,
  get_json_array_paged,
}

module _ (parse : Bytes → Option Url) (base : Url) where
  -- The link comes from a part of the header and is on the base's host under its scheme.
  abbrev pub OnSite : Bytes → Type 0
  OnSite next =
      (raw : Bytes) × (u : Url) × (parse raw ≡ some u)
      × (u.host ≡ base.host)
      × (u.scheme ≡ base.scheme)
      × (next ≡ u.text)

  next_in-OnSite :
      (parts : List Bytes) (next : Bytes)
      → next_in parse base parts ≡ ok next
      → (next ≡ []) ⊎ OnSite next
  unfolding next_in same_site
  next_in-OnSite [] next h = inl (ground arith)
  next_in-OnSite (part ∷ parts) next h = elim (Option-cases (next_target part)) [
    | inl p ↦ next_in-OnSite parts next (ground arith)
    | inr (raw, p) ↦ elim (Option-cases (parse raw)) [
      | inl q ↦ ground arith
      | inr (u, q) ↦ inr (
        raw,
        u,
        q,
        ground (arith, equal_iff u.host base.host),
        ground (arith, equal_iff u.scheme base.scheme),
        ground arith,
      )
    ]
  ]

  -- The server's Link header leads nowhere but to the base's own host and scheme.
  pub next_page_url-OnSite :
      (link next : Bytes) → next_page_url parse base link ≡ ok next → (next ≡ []) ⊎ OnSite next
  unfolding next_page_url
  next_page_url-OnSite link next h = next_in-OnSite (split link b',') next h

  module _ {A : Type 0} (fetch : Bytes → Result PageError (List A × Bytes)) where
    -- The pages that the links lead through from `next` on, the last one without a next link.
    pub data Chain : Bytes → List (List A) → Type 0 where
      done : Chain [] []
      page :
          {items : List A} {link url : Bytes} {rest : List (List A)} (next : Bytes)
          → next ≢ []
          → fetch next ≡ ok (items, link)
          → next_page_url parse base link ≡ ok url
          → Chain url rest
          → Chain next (items ∷ rest)

    abbrev pub items_of : List (List A) → List A
    items_of [] = []
    items_of (p ∷ ps) = p ++ items_of ps

    abbrev pub AllPages : ℕ → List A → Bytes → List A → Type 0
    AllPages rounds all next result =
        (pages : List (List A)) × Chain next pages
        × (length pages ≤ rounds)
        × (result ≡ all ++ items_of pages)

    pages_onto-AllPages :
        (rounds : ℕ) (all : List A) (next : Bytes) (result : List A)
        → pages_onto fetch parse base rounds all next ≡ ok result
        → AllPages rounds all next result
    unfolding pages_onto
    pages_onto-AllPages zero all [] result h = ([], done, omega arith, rw append-nil (ground arith))
    pages_onto-AllPages (suc rounds) all [] result h =
        ([], done, omega arith, rw append-nil (ground arith))
    pages_onto-AllPages zero all (c ∷ cs) result h = cc
    pages_onto-AllPages (suc rounds) all (c ∷ cs) result h = elim (Result-cases (fetch (c ∷ cs))) [
      | inr (e, p) ↦ ground arith
      | inl ((items, link), p) ↦ elim (Result-cases (next_page_url parse base link)) [
        | inr (e, q) ↦ ground arith
        | inl (url, q) ↦
            let (pages, chain, few, eq) =
              pages_onto-AllPages rounds (all ++ items) url result (ground arith) in
            (
              items ∷ pages,
              page (c ∷ cs) (λ x. cc) p q chain,
              omega arith,
              eq ∙ append_assoc all items (items_of pages),
            )
      ]
    ]

    AllPages-pages_onto :
        (rounds : ℕ) (all : List A) (next : Bytes) (pages : List (List A))
        → Chain next pages
        → length pages ≤ rounds
        → pages_onto fetch parse base rounds all next ≡ ok (all ++ items_of pages)
    unfolding pages_onto
    AllPages-pages_onto zero all _ _ done few = rw append-nil
    AllPages-pages_onto (suc rounds) all _ _ done few = rw append-nil
    AllPages-pages_onto zero all _ _ (page next ne p q chain) few = absurd (omega arith)
    AllPages-pages_onto (suc rounds) all _ _ (page {items} {link} {url} {rest} next ne p q chain)
          few =
        ground (
          arith,
          AllPages-pages_onto rounds (all ++ items) url rest chain (omega arith),
          append_assoc all items (items_of rest),
        )

    -- The paged fetch succeeds exactly when the links lead from the first page over at most 1000
    -- pages to one without a next link, and its result is the items of all of them, in order.
    pub get_json_array_paged-AllPages :
        (first : Bytes) (result : List A)
        → (get_json_array_paged fetch parse base first ≡ ok result)
          ↔ AllPages max_tree_pages [] first result
    unfolding get_json_array_paged
    get_json_array_paged-AllPages first result = (
      pages_onto-AllPages max_tree_pages [] first result,
      λ (pages, chain, few, e).
          AllPages-pages_onto max_tree_pages [] first pages chain few ∙ ap ok (sym e),
    )

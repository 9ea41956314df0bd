-- ===== src/Deploycheck/Lws/Whole.antt =====
-- The check of a LeaderWorkerSet accepts those that fit.
use mathlib.Core.List.{append_assoc, append-nil}
use llmops.Prelude.{
  ◌≡◌, ◌≢◌, refl, sym, subst, ap, ◌∙◌, ◌↔◌, ◌⊎◌, inl, inr, Bool, true, false, not, Option, none,
  some, List, [], ◌∷◌, ◌++◌, arith, Bool-cases, All, ok, ensure, ensure-ok, checks-ok, Result-cases,
  pos, gtz,
}
use llmops.Floats.{Floats}
use llmops.Strings.{codes, equal}
use llmops.Manifest.{Manifest}
use llmops.Manifest.Validity.{IsValid}
use llmops.Manifest.Validity.Whole.{validate-IsValid}
use llmops.Manifest.Validate.{validate}
use llmops.Deploycheck.Yaml.{
  Entries, sequence, dict, item, dig, as_text, is_null, Decoded, broken, nil_document, document,
  collect_docs, split_docs,
}
use llmops.Deploycheck.Yaml.Holds.{Holds-dig, text_at_iff, int_at_iff, dig-on_way}
use llmops.Deploycheck.Lws.{
  dns_name, check_worker, no_worker, check_lws, find_lws, check_found, validate_one, spec_path,
}
use llmops.Deploycheck.Lws.Fits.{TemplateFits, Fits, IsLws, LastLws, Reads}
use llmops.Deploycheck.Lws.Containers.{template_iff, matches_name-not_empty, replace_byte-not_empty}

collect_docs-Reads :
    (ds : List Decoded) (got docs : List Entries)
    → collect_docs ds got ≡ ok docs
    → (rest : List Entries) × Reads ds rest × (docs ≡ got ++ rest)
unfolding collect_docs
collect_docs-Reads [] [] docs h = cc h
collect_docs-Reads [] (g ∷ got) docs h =
    let same : docs ≡ g ∷ got = cc h in ([], refl, same ∙ ap (λ x. g ∷ x) (sym (append-nil got)))
collect_docs-Reads (broken ∷ ds) got docs h = cc h
collect_docs-Reads (nil_document ∷ ds) got docs h = collect_docs-Reads ds got docs h
collect_docs-Reads (document d ∷ ds) got docs h =
    let (rest, r, e) = collect_docs-Reads ds (got ++ d ∷ []) docs h in
    (d ∷ rest, (rest, refl, r), e ∙ append_assoc got (d ∷ []) rest)

Reads-collect_docs :
    (ds : List Decoded) (got rest : List Entries) (d : Entries) (es : List Entries)
    → Reads ds rest
    → got ++ rest ≡ d ∷ es
    → collect_docs ds got ≡ ok (d ∷ es)
unfolding collect_docs
Reads-collect_docs [] [] rest d es r e = cc (r, e)
Reads-collect_docs [] (g ∷ got) rest d es r e =
    ap ok (ap (λ x. g ∷ x) (sym (append-nil got)) ∙ ap (λ x. (g ∷ got) ++ x) (sym r) ∙ e)
Reads-collect_docs (broken ∷ ds) got rest d es r e = absurd r
Reads-collect_docs (nil_document ∷ ds) got rest d es r e = Reads-collect_docs ds got rest d es r e
Reads-collect_docs (document x ∷ ds) got rest d es (more, e', r) e =
    Reads-collect_docs ds (got ++ x ∷ []) more d es r
      (append_assoc got (x ∷ []) more ∙ ap (λ y. got ++ y) (sym e') ∙ e)

kind_iff :
    (d : Entries)
    → (equal (as_text (dig (dict d) (codes "kind" ∷ []))) (codes "LeaderWorkerSet") ≡ true)
      ↔ IsLws d
kind_iff d =
    text_at_iff (dict d) (codes "kind" ∷ []) (codes "LeaderWorkerSet") (unfold codes in refl)

-- What the search ends with: the last document of the kind, or what it started with.
find_lws_iff :
    (ds : List Entries) (acc : Option Entries) (lws : Entries)
    → (find_lws acc ds ≡ some lws)
      ↔ (LastLws ds lws ⊎ ((acc ≡ some lws) × All (λ x. IsLws x → ⊥) ds))
unfolding find_lws
find_lws_iff [] acc lws = (λ h. inr (h, tt), λ g. elim g [ inl x ↦ absurd x | inr (h, u) ↦ h ])
find_lws_iff (d ∷ ds) acc lws =
    let (to, from) = kind_iff d in
    elim (Bool-cases
      (equal (as_text (dig (dict d) (codes "kind" ∷ []))) (codes "LeaderWorkerSet"))) [
        | inl k ↦
            let (up, down) = find_lws_iff ds (some d) lws in
            let found : find_lws acc (d ∷ ds) ≡ find_lws (some d) ds = rw k in
            (
              λ h. elim (up (sym found ∙ h)) [
                | inl l ↦ inl (inl l)
                | inr (e, n) ↦ inl (inr (cc e, to k, n))
              ],
              λ g. elim g [
                | inl (inl l) ↦ found ∙ down (inl l)
                | inl (inr (e, i, n)) ↦ found ∙ down (inr (ap some e, n))
                | inr (e, (n, ns)) ↦ absurd (n (to k))
              ],
            )
        | inr k ↦
            let (up, down) = find_lws_iff ds acc lws in
            let found : find_lws acc (d ∷ ds) ≡ find_lws acc ds = rw k in
            let other : IsLws d → ⊥ = λ i. cc (k, from i) in
            (
              λ h. elim (up (sym found ∙ h)) [
                | inl l ↦ inl (inl l)
                | inr (e, n) ↦ inr (e, (other, n))
              ],
              λ g. elim g [
                | inl (inl l) ↦ found ∙ down (inl l)
                | inl (inr (e, i, n)) ↦ absurd (other i)
                | inr (e, (n, ns)) ↦ found ∙ down (inr (e, ns))
              ],
            )
      ]

module _ (F : Floats) (m : Manifest) (v : IsValid F m) where
  worker_iff :
      (lws : Entries)
      → (check_worker m lws ≡ ok tt)
        ↔ ((gtz 1 m.gpu.nodes ≡ false) ⊎ TemplateFits m lws (codes "workerTemplate") false)
  unfolding check_worker
  worker_iff lws =
      let there : Bool = not (is_null (dig (dict lws) (spec_path (codes "workerTemplate") []))) in
      let (to, from) =
        checks-ok (ensure there no_worker) _ (ensure-ok there no_worker (λ h. h, λ h. h))
          (template_iff F m v lws (codes "workerTemplate") false) in
      elim (Bool-cases (gtz 1 m.gpu.nodes)) [
        | inl g ↦ (
          λ h. inr (to (rw g at h)).1,
          λ t. elim t [
            | inl e ↦ cc (g, e)
            | inr (c, cs, h, f) ↦
                let on_way : there ≡ true = ap not (
                  dig-on_way (dict lws) (spec_path (codes "workerTemplate") [])
                    (codes "spec" ∷ codes "containers" ∷ [])
                    (ap is_null (
                      Holds-dig (dict lws)
                        (spec_path (codes "workerTemplate")
                          (codes "spec" ∷ codes "containers" ∷ []))
                        (sequence (item c cs)) h))) in
                rw g (from (on_way, (c, cs, h, f)))
          ],
        )
        | inr g ↦ (λ h. inl g, λ h. rw g)
      ]

  nodes_set : m.gpu.nodes ≢ pos 0
  nodes_set e = let (k, p, lt) = v.sizes_ok.2 in ground (arith, e, p, lt)

  check_lws_iff : (lws : Entries) → (check_lws m lws ≡ ok tt) ↔ Fits m lws
  unfolding check_lws dns_name codes
  check_lws_iff lws =
      let (to, from) =
        checks-ok _ _
          (checks-ok _ _
            (checks-ok _ _
              (ensure-ok _ _ (
                text_at_iff (dict lws) (codes "metadata" ∷ codes "name" ∷ []) (dns_name m.name) (
                  replace_byte-not_empty m.name (codes "-") b'.'
                    (matches_name-not_empty m.name v.name_ok) refl)))
              (ensure-ok _ _
                (int_at_iff (dict lws) (spec_path (codes "size") []) m.gpu.nodes nodes_set)))
            (template_iff F m v lws (codes "leaderTemplate") true))
          (worker_iff lws) in
      (
        λ h. let (((n, s), l), w) = to h in record { named = n; sized = s; leader = l; worker = w },
        λ f. from (((f.named, f.sized), f.leader), f.worker),
      )

  check_found_iff :
      (found : Option Entries)
      → (check_found m found ≡ ok tt) ↔ ((lws : Entries) × (found ≡ some lws) × Fits m lws)
  check_found_iff none = (λ h. cc h, λ (lws, e, f). cc e)
  check_found_iff (some lws) =
      let (to, from) = check_lws_iff lws in
      (
        λ h. (lws, refl, to h),
        λ (l, e, f). let same : l ≡ lws = cc e in from (subst (Fits m) same f),
      )

LastLws-cons :
    (docs : List Entries) (lws : Entries)
    → LastLws docs lws
    → (d : Entries) × (es : List Entries) × (docs ≡ d ∷ es)
LastLws-cons [] lws l = absurd l
LastLws-cons (d ∷ es) lws l = (d, es, refl)

accepted-found :
    (m : Manifest) (ds : List Decoded)
    → validate_one m (some ds) ≡ ok tt
    → (docs : List Entries) × Reads ds docs × (check_found m (find_lws none docs) ≡ ok tt)
unfolding validate_one split_docs
accepted-found m ds h = elim (Result-cases (collect_docs ds [])) [
  | inr (x, e) ↦ cc (h, e)
  | inl (docs, e) ↦
      let (rest, r, same) = collect_docs-Reads ds [] docs e in
      (docs, subst (Reads ds) (sym same) r, rw e at h)
]

-- For a valid manifest, the check accepts a file exactly when all its documents can be decoded and
-- the last LeaderWorkerSet among them fits the model: its name is the model's with dashes for dots,
-- its size the number of nodes, its leader (and above one node its worker) runs the engine's image
-- with the manifest's count of GPUs, and its leader has both probes.
pub validate_one_iff :
    (F : Floats) (m : Manifest) (ds : List Decoded)
    → validate F m ≡ ok m
    → (validate_one m (some ds) ≡ ok tt)
      ↔ ((docs : List Entries) × Reads ds docs × ((lws : Entries) × LastLws docs lws × Fits m lws))
unfolding validate_one split_docs
validate_one_iff F m ds valid =
    let v : IsValid F m = (validate-IsValid F m).0 valid in
    (
      λ h.
          let (docs, r, c) = accepted-found m ds h in
          let (lws, e, f) = (check_found_iff F m v (find_lws none docs)).0 c in
          elim ((find_lws_iff docs none lws).0 e) [
            | inl l ↦ (docs, r, (lws, l, f))
            | inr (n, a) ↦ cc n
          ],
      λ (docs, r, (lws, l, f)).
          let (d, es, e) = LastLws-cons docs lws l in
          let read : collect_docs ds [] ≡ ok docs =
            Reads-collect_docs ds [] docs d es r e ∙ ap ok (sym e) in
          let found : find_lws none docs ≡ some lws = (find_lws_iff docs none lws).1 (inl l) in
          rw read ((check_found_iff F m v (find_lws none docs)).1 (lws, found, f)),
    )

-- ===== src/Deploycheck/Lws/Containers.antt =====
-- The checks on a container, against what a container that fits is.
use llmops.Prelude.{
  ℕ, ◌≡◌, ◌≢◌, refl, sym, subst, ap, ◌∙◌, ◌↔◌, ◌⊎◌, inl, inr, Bool, true, false, not, List, [], ◌∷◌,
  if◌then◌else◌, arith, ok, ensure-ok, checks-ok, branch-ok, ℤ,
}
use llmops.Floats.{Floats}
use llmops.Strings.{Bytes, codes, equal, is_empty, contains_byte, replace_byte, after_last}
use llmops.Strings.Laws.{equal_iff, equal_refl, itoa_int-contains}
use llmops.Strings.Numbers.{itoa_int}
use llmops.Manifest.{Manifest, runtime_sglang, runtime_vllm, runtime_custom, engine_image}
use llmops.Manifest.Patterns.{matches_name}
use llmops.Manifest.Validity.{IsValid}
use llmops.Deploycheck.Yaml.{
  Yaml, Items, Entries, text, int, scalar, sequence, dict, item, no_item, null, dig, as_text,
  as_items, as_entries, is_null, print,
}
use llmops.Deploycheck.Yaml.Holds.{
  Holds, dig-Holds, Holds-dig, text_at_iff, items_at_iff, as_entries_iff,
}
use llmops.Deploycheck.Lws.{
  image_name, before_tag, check_image, check_probes, check_container, validate_container,
  first_container, gpu_path, spec_path,
}
use llmops.Deploycheck.Lws.Images.{IsReference, image_name_iff}
use llmops.Deploycheck.Lws.Fits.{
  image_path, ImageFits, GpusFit, ProbesFit, ContainerFits, TemplateFits,
}

is_text_iff :
    (c : Yaml) (k : Bytes) (ks : List Bytes) (s : Bytes)
    → is_empty s ≡ false
    → (equal (as_text (dig (dict (as_entries c)) (k ∷ ks))) s ≡ true) ↔ Holds c (k ∷ ks) (text s)
is_text_iff c k ks s n =
    let (to, from) = text_at_iff (dict (as_entries c)) (k ∷ ks) s n in
    let (up, down) = as_entries_iff c k ks (text s) in (λ h. up (to h), λ h. from (down h))

check_probes_iff : (c : Yaml) → (check_probes (dict (as_entries c)) ≡ ok tt) ↔ ProbesFit c
unfolding check_probes codes
check_probes_iff c =
    checks-ok _ _
      (ensure-ok _ _ (
        is_text_iff c (codes "readinessProbe") (codes "httpGet" ∷ codes "path" ∷ [])
          (codes "/readyz") refl))
      (ensure-ok _ _ (
        is_text_iff c (codes "livenessProbe") (codes "httpGet" ∷ codes "path" ∷ []) (codes "/livez")
          refl))

print-null : (w : Yaml) (z : ℤ) → print w ≡ itoa_int z → is_null w ≡ false
unfolding print codes contains_byte
print-null null z h = cc (ap (contains_byte b'<') h, itoa_int-contains b'<' z refl refl)
print-null (text s) z h = refl
print-null (int n) z h = refl
print-null (scalar s) z h = refl
print-null (sequence is) z h = refl
print-null (dict es) z h = refl

gpus_iff :
    (m : Manifest) (c : Yaml)
    → (equal (print (dig (dict (as_entries c)) gpu_path)) (itoa_int m.gpu.count) ≡ true)
      ↔ GpusFit m c
gpus_iff m c =
    let limit : Yaml = dig (dict (as_entries c)) gpu_path in
    let rest : List Bytes = codes "limits" ∷ codes "nvidia.com/gpu" ∷ [] in
    (
      λ h.
          let e : print limit ≡ itoa_int m.gpu.count =
            (equal_iff (print limit) (itoa_int m.gpu.count)).0 h in
          let n : is_null limit ≡ false = print-null limit m.gpu.count e in
          (
            limit,
            n,
            (as_entries_iff c (codes "resources") rest limit).0
                (dig-Holds (dict (as_entries c)) gpu_path n),
            e,
          ),
      λ (w, n, h, e). (equal_iff (print limit) (itoa_int m.gpu.count)).1 (
          ap print (
            Holds-dig (dict (as_entries c)) gpu_path w
              ((as_entries_iff c (codes "resources") rest w).1 h))
          ∙ e),
    )

image_name-not_empty : (r : Bytes) → is_empty (image_name r) ≡ false → is_empty r ≡ false
unfolding image_name before_tag after_last
image_name-not_empty [] h = cc
image_name-not_empty (c ∷ r) h = refl

engine_image-not_empty :
    (m : Manifest) → m.runtime ≢ runtime_custom → is_empty (engine_image m) ≡ false
unfolding engine_image codes
engine_image-not_empty m n = ground (arith, equal_iff m.runtime runtime_custom)

engine_iff :
    (m : Manifest) (c : Yaml)
    → m.runtime ≢ runtime_custom
    → (equal (image_name (as_text (dig (dict (as_entries c)) image_path))) (engine_image m) ≡ true)
      ↔ ((ref : Bytes) × Holds c image_path (text ref) × IsReference ref (engine_image m))
engine_iff m c n =
    let found : Bytes = as_text (dig (dict (as_entries c)) image_path) in
    (
      λ h.
          let e : image_name found ≡ engine_image m =
            (equal_iff (image_name found) (engine_image m)).0 h in
          let k : is_empty found ≡ false =
            image_name-not_empty found (ap is_empty e ∙ engine_image-not_empty m n) in
          (
            found,
            (is_text_iff c (codes "image") [] found k).0 (equal_refl found),
            (image_name_iff found (engine_image m)).0 e,
          ),
      λ (ref, h, r). (equal_iff (image_name found) (engine_image m)).1 (
          ap (λ x. image_name (as_text x))
            (Holds-dig (dict (as_entries c)) image_path (text ref)
              ((as_entries_iff c (codes "image") [] (text ref)).1 h))
          ∙ (image_name_iff ref (engine_image m)).1 r),
    )

apart : (a b : Bytes) → equal a b ≡ false → a ≢ b
apart a b h e = cc (h, (equal_iff a b).1 e)

not_nil_empty : (s : Bytes) → s ≢ [] → is_empty s ≡ false
not_nil_empty [] n = absurd (n refl)
not_nil_empty (c ∷ s) n = refl

pub replace_byte-not_empty :
    (s new : Bytes) (old : ℕ)
    → is_empty s ≡ false
    → is_empty new ≡ false
    → is_empty (replace_byte old new s) ≡ false
unfolding replace_byte
replace_byte-not_empty [] new old h k = cc
replace_byte-not_empty (c ∷ s) [] old h k = cc
replace_byte-not_empty (c ∷ s) (d ∷ new) old h k = ground arith

pub matches_name-not_empty : (s : Bytes) → matches_name s ≡ true → is_empty s ≡ false
unfolding matches_name
matches_name-not_empty [] h = cc
matches_name-not_empty (c ∷ s) h = refl

module _ (F : Floats) (m : Manifest) (v : IsValid F m) where
  custom_image : m.runtime ≡ runtime_custom → is_empty m.image ≡ false
  custom_image e = elim v.runtime_ok [
    | inl (inl r, i, a) ↦
        absurd (apart runtime_sglang runtime_custom (unfold equal codes in refl) (sym r ∙ e))
    | inl (inr r, i, a) ↦
        absurd (apart runtime_vllm runtime_custom (unfold equal codes in refl) (sym r ∙ e))
    | inr (r, n) ↦ not_nil_empty m.image n
  ]

  check_image_iff :
      (template : Bytes) (c : Yaml)
      → (check_image m template (as_text (dig (dict (as_entries c)) image_path)) ≡ ok tt)
        ↔ ImageFits m c
  unfolding check_image
  check_image_iff template c =
      branch-ok _ _ _ (equal_iff m.runtime runtime_custom)
        (λ r. ensure-ok _ _ (is_text_iff c (codes "image") [] m.image (custom_image r)))
        (λ n. ensure-ok _ _ (engine_iff m c n))

  probes_iff :
      (probes : Bool) (c : Yaml)
      → ((if not probes then ok tt else check_probes (dict (as_entries c))) ≡ ok tt)
        ↔ ((probes ≡ false) ⊎ ProbesFit c)
  probes_iff true c =
      let (to, from) = check_probes_iff c in
      (λ h. inr (to h), λ g. elim g [ inl e ↦ cc e | inr p ↦ from p ])
  probes_iff false c = (λ h. inl refl, λ g. refl)

  check_container_iff :
      (template : Bytes) (probes : Bool) (c : Yaml)
      → (check_container m template probes (dict (as_entries c)) ≡ ok tt) ↔ ContainerFits m probes c
  unfolding check_container
  check_container_iff template probes c =
      let (to, from) =
        checks-ok _ _ (checks-ok _ _ (check_image_iff template c) (ensure-ok _ _ (gpus_iff m c)))
          (probes_iff probes c) in
      (λ h. let ((i, g), p) = to h in (i, g, p), λ (i, g, p). from ((i, g), p))

  first_iff :
      (template : Bytes) (probes : Bool) (is : Items)
      → (first_container m template probes is ≡ ok tt)
        ↔ ((c : Yaml) × (cs : Items) × (is ≡ item c cs) × ContainerFits m probes c)
  first_iff template probes no_item = (λ h. cc h, λ (c, cs, e, f). cc e)
  first_iff template probes (item c cs) =
      let (to, from) = check_container_iff template probes c in
      (
        λ h. (c, cs, refl, to h),
        λ (c', cs', e, f). let same : c' ≡ c = cc e in from (subst (ContainerFits m probes) same f),
      )

  pub template_iff :
      (lws : Entries) (template : Bytes) (probes : Bool)
      → (validate_container m lws template probes ≡ ok tt) ↔ TemplateFits m lws template probes
  unfolding validate_container
  template_iff lws template probes =
      let at : List Bytes = spec_path template (codes "spec" ∷ codes "containers" ∷ []) in
      let (to, from) = first_iff template probes (as_items (dig (dict lws) at)) in
      (
        λ h. let (c, cs, e, f) = to h in (c, cs, (items_at_iff (dict lws) at c cs).0 e, f),
        λ (c, cs, h, f). from (c, cs, (items_at_iff (dict lws) at c cs).1 h, f),
      )

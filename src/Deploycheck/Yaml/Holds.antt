-- ===== src/Deploycheck/Yaml/Holds.antt =====
-- What stands at a path of keys, said without `dig`.
use llmops.Prelude.{
  ◌≡◌, ◌≢◌, refl, subst, sym, ap, ◌∙◌, ◌↔◌, ◌⊎◌, inl, inr, true, false, List, [], ◌∷◌, ◌++◌, arith,
  Bool-cases, ℤ, pos, eq_int, eq_int_iff,
}
use llmops.Strings.{Bytes, equal, is_empty}
use llmops.Strings.Laws.{equal_iff, equal_refl}
use llmops.Deploycheck.Yaml.{
  Yaml, null, text, int, scalar, sequence, dict, Items, Entries, entry, no_entry, item, entry_at,
  dig, is_null, as_text, as_int, as_items, as_entries,
}

-- The value of a key: that of its first entry.
abbrev pub Has : Entries → Bytes → Yaml → Type 0
Has no_entry k v = ⊥
Has (entry j u es) k v = ((j ≡ k) × (u ≡ v)) ⊎ ((j ≢ k) × Has es k v)

-- Maps all the way along the keys, with the value at the end.
abbrev pub Holds : Yaml → List Bytes → Yaml → Type 0
Holds v [] w = v ≡ w
Holds v (k ∷ ks) w = (es : Entries) × (u : Yaml) × (v ≡ dict es) × Has es k u × Holds u ks w

entry_at-Has :
    (es : Entries) (k : Bytes) → is_null (entry_at es k) ≡ false → Has es k (entry_at es k)
unfolding entry_at
entry_at-Has no_entry k h = cc
entry_at-Has (entry j u es) k h = elim (Bool-cases (equal j k)) [
  | inl e ↦ inl ((equal_iff j k).0 e, rw e)
  | inr e ↦
      let rest : Has es k (entry_at es k) = entry_at-Has es k (rw e at h) in
      inr (λ p. cc (e, (equal_iff j k).1 p), subst (Has es k) (rw e) rest)
]

Has-entry_at : (es : Entries) (k : Bytes) (u : Yaml) → Has es k u → entry_at es k ≡ u
unfolding entry_at
Has-entry_at no_entry k u h = absurd h
Has-entry_at (entry j v es) k u (inl (e, f)) = rw ((equal_iff j k).1 e) f
Has-entry_at (entry j v es) k u (inr (n, h)) = ground (arith, equal_iff j k, Has-entry_at es k u h)

is_null_iff : (v : Yaml) → (is_null v ≡ true) ↔ (v ≡ null)
is_null_iff null = ground arith
is_null_iff (text s) = ground arith
is_null_iff (int n) = ground arith
is_null_iff (scalar s) = ground arith
is_null_iff (sequence is) = ground arith
is_null_iff (dict es) = ground arith

dig-null : (ks : List Bytes) → dig null ks ≡ null
unfolding dig
dig-null [] = refl
dig-null (k ∷ ks) = refl

pub dig-Holds : (v : Yaml) (ks : List Bytes) → is_null (dig v ks) ≡ false → Holds v ks (dig v ks)
unfolding dig
dig-Holds v [] h = refl
dig-Holds (dict es) (k ∷ ks) h = elim (Bool-cases (is_null (entry_at es k))) [
  | inl n ↦
      let e : entry_at es k ≡ null = (is_null_iff (entry_at es k)).0 n in
      cc (h, ap is_null (ap (λ x. dig x ks) e ∙ dig-null ks))
  | inr n ↦ (es, entry_at es k, refl, entry_at-Has es k n, dig-Holds (entry_at es k) ks h)
]
dig-Holds null (k ∷ ks) h = cc
dig-Holds (text s) (k ∷ ks) h = cc
dig-Holds (int n) (k ∷ ks) h = cc
dig-Holds (scalar s) (k ∷ ks) h = cc
dig-Holds (sequence is) (k ∷ ks) h = cc

pub Holds-dig : (v : Yaml) (ks : List Bytes) (w : Yaml) → Holds v ks w → dig v ks ≡ w
unfolding dig
Holds-dig v [] w h = h
Holds-dig v (k ∷ ks) w (es, u, e, a, h) =
    ap (λ x. dig x (k ∷ ks)) e ∙ ap (λ x. dig x ks) (Has-entry_at es k u a) ∙ Holds-dig u ks w h

dig-append : (v : Yaml) (ks js : List Bytes) → dig v (ks ++ js) ≡ dig (dig v ks) js
unfolding dig
dig-append v [] js = refl
dig-append (dict es) (k ∷ ks) js = dig-append (entry_at es k) ks js
dig-append null (k ∷ ks) js = sym (dig-null js)
dig-append (text s) (k ∷ ks) js = sym (dig-null js)
dig-append (int n) (k ∷ ks) js = sym (dig-null js)
dig-append (scalar s) (k ∷ ks) js = sym (dig-null js)
dig-append (sequence is) (k ∷ ks) js = sym (dig-null js)

-- Where something stands behind more keys, the value on the way is there.
pub dig-on_way :
    (v : Yaml) (ks js : List Bytes)
    → is_null (dig v (ks ++ js)) ≡ false
    → is_null (dig v ks) ≡ false
dig-on_way v ks js h = elim (Bool-cases (is_null (dig v ks))) [
  | inr n ↦ n
  | inl n ↦ cc (
    h,
    ap is_null
        (dig-append v ks js ∙ ap (λ x. dig x js) ((is_null_iff (dig v ks)).0 n) ∙ dig-null js),
  )
]

-- A value that is not the absent one stands at the path exactly when `dig` finds it.
pub dig_iff :
    (v : Yaml) (ks : List Bytes) (w : Yaml) → is_null w ≡ false → (dig v ks ≡ w) ↔ Holds v ks w
dig_iff v ks w n = (λ e. subst (Holds v ks) e (dig-Holds v ks (ap is_null e ∙ n)), Holds-dig v ks w)

as_text-text : (v : Yaml) (s : Bytes) → is_empty s ≡ false → as_text v ≡ s → v ≡ text s
as_text-text (text t) s n h = cc
as_text-text null s n h = cc
as_text-text (int t) s n h = cc
as_text-text (scalar t) s n h = cc
as_text-text (sequence t) s n h = cc
as_text-text (dict t) s n h = cc

as_int-int : (v : Yaml) (z : ℤ) → z ≢ pos 0 → as_int v ≡ z → v ≡ int z
as_int-int (int t) z n h = cc
as_int-int (text t) z n h = absurd (n (sym h))
as_int-int null z n h = absurd (n (sym h))
as_int-int (scalar t) z n h = absurd (n (sym h))
as_int-int (sequence t) z n h = absurd (n (sym h))
as_int-int (dict t) z n h = absurd (n (sym h))

pub text_at_iff :
    (v : Yaml) (ks : List Bytes) (s : Bytes)
    → is_empty s ≡ false
    → (equal (as_text (dig v ks)) s ≡ true) ↔ Holds v ks (text s)
text_at_iff v ks s n = (
  λ h.
      (dig_iff v ks (text s) refl).0
        (as_text-text (dig v ks) s n ((equal_iff (as_text (dig v ks)) s).0 h)),
  λ h. ap (λ x. equal (as_text x) s) (Holds-dig v ks (text s) h) ∙ equal_refl s,
)

pub int_at_iff :
    (v : Yaml) (ks : List Bytes) (z : ℤ)
    → z ≢ pos 0
    → (eq_int (as_int (dig v ks)) z ≡ true) ↔ Holds v ks (int z)
int_at_iff v ks z n = (
  λ h.
      (dig_iff v ks (int z) refl).0
        (as_int-int (dig v ks) z n ((eq_int_iff (as_int (dig v ks)) z).0 h)),
  λ h. (eq_int_iff (as_int (dig v ks)) z).1 (ap as_int (Holds-dig v ks (int z) h)),
)

no_entry-Holds : (k : Bytes) (ks : List Bytes) (w : Yaml) → Holds (dict no_entry) (k ∷ ks) w → ⊥
no_entry-Holds k ks w (es, u, e, a, h) = subst (λ x. Has (as_entries x) k u) (sym e) a

-- A value that is no map has nothing behind a key.
pub as_entries_iff :
    (c : Yaml) (k : Bytes) (ks : List Bytes) (w : Yaml)
    → Holds (dict (as_entries c)) (k ∷ ks) w ↔ Holds c (k ∷ ks) w
as_entries_iff (dict es) k ks w = (λ h. h, λ h. h)
as_entries_iff null k ks w = (λ h. absurd (no_entry-Holds k ks w h), λ (es, u, e, a, h). cc e)
as_entries_iff (text s) k ks w = (λ h. absurd (no_entry-Holds k ks w h), λ (es, u, e, a, h). cc e)
as_entries_iff (int n) k ks w = (λ h. absurd (no_entry-Holds k ks w h), λ (es, u, e, a, h). cc e)
as_entries_iff (scalar s) k ks w = (λ h. absurd (no_entry-Holds k ks w h), λ (es, u, e, a, h). cc e)
as_entries_iff (sequence is) k ks w =
    (λ h. absurd (no_entry-Holds k ks w h), λ (es, u, e, a, h). cc e)

as_items-sequence :
    (v : Yaml) (c : Yaml) (cs : Items) → as_items v ≡ item c cs → v ≡ sequence (item c cs)
as_items-sequence (sequence is) c cs h = ap sequence h
as_items-sequence null c cs h = cc h
as_items-sequence (text s) c cs h = cc h
as_items-sequence (int n) c cs h = cc h
as_items-sequence (scalar s) c cs h = cc h
as_items-sequence (dict es) c cs h = cc h

pub items_at_iff :
    (v : Yaml) (ks : List Bytes) (c : Yaml) (cs : Items)
    → (as_items (dig v ks) ≡ item c cs) ↔ Holds v ks (sequence (item c cs))
items_at_iff v ks c cs =
    let (to, from) = dig_iff v ks (sequence (item c cs)) refl in
    (λ h. to (as_items-sequence (dig v ks) c cs h), λ h. ap as_items (from h))

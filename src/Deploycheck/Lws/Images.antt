-- ===== src/Deploycheck/Lws/Images.antt =====
-- What the name of an image is.
use mathlib.Core.List.{append_assoc}
use llmops.Prelude.{
  ℕ, ◌≡◌, refl, subst, ap, ◌∙◌, ◌↔◌, ◌⊎◌, inl, inr, true, false, [], ◌∷◌, ◌++◌, arith, Bool-cases,
  ◌==◌,
}
use llmops.Strings.{Bytes, codes, after_last, contains_byte}
use llmops.Strings.Laws.{contains_byte-append}
use llmops.Deploycheck.Lws.{is_mark, before_tag, image_name}
use llmops.Paths.Laws.{after_last-append, after_last-whole}

-- No byte of the text begins a tag or a digest.
abbrev pub NoMark : Bytes → Type 0
NoMark [] = Unit
NoMark (c ∷ cs) = (is_mark c ≡ false) × NoMark cs

-- Nothing, or a tag or a digest, which have no slash.
abbrev pub IsTag : Bytes → Type 0
IsTag [] = Unit
IsTag (c ∷ cs) = (is_mark c ≡ true) × (contains_byte b'/' (c ∷ cs) ≡ false)

-- A reference: a registry and a path in front of the last slash, the name, and a tag or digest.
pub record IsReference (ref name : Bytes) : Type 0 where
  pub front : Bytes
  pub tag : Bytes
  pub parts : ref ≡ front ++ (name ++ tag)
  pub front_ends : (front ≡ []) ⊎ ((x : Bytes) × (front ≡ x ++ codes "/"))
  pub name_plain : contains_byte b'/' name ≡ false
  pub name_marks : NoMark name
  pub tag_ok : IsTag tag

-- A text that is a name and a tag behind it.
abbrev Tagged : Bytes → Bytes → Type 0
Tagged s name =
    (tag : Bytes) × (s ≡ name ++ tag) × (contains_byte b'/' name ≡ false) × NoMark name × IsTag tag

Tagged-cons :
    (c : ℕ) (s name : Bytes)
    → is_mark c ≡ false
    → contains_byte b'/' (c ∷ s) ≡ false
    → Tagged s name
    → Tagged (c ∷ s) (c ∷ name)
unfolding contains_byte
Tagged-cons c s name m h (tag, e, p, q, t) =
    (tag, ap (λ x. c ∷ x) e, ground (arith, h, p), (m, q), t)

before_tag-Tagged : (s : Bytes) → contains_byte b'/' s ≡ false → Tagged s (before_tag s)
unfolding before_tag contains_byte
before_tag-Tagged [] h = ([], refl, refl, tt, tt)
before_tag-Tagged (c ∷ s) h = elim (Bool-cases (is_mark c)) [
  | inl m ↦
      let e : [] ≡ before_tag (c ∷ s) = rw m in
      subst (Tagged (c ∷ s)) e (c ∷ s, refl, refl, tt, (m, h))
  | inr m ↦
      let e : c ∷ before_tag s ≡ before_tag (c ∷ s) = rw m in
      subst (Tagged (c ∷ s)) e
        (Tagged-cons c s (before_tag s) m h (before_tag-Tagged s (ground (arith, h))))
]

before_tag-append : (name tag : Bytes) → NoMark name → IsTag tag → before_tag (name ++ tag) ≡ name
unfolding before_tag
before_tag-append [] [] n t = refl
before_tag-append [] (c ∷ tag) n (m, h) = rw m
before_tag-append (c ∷ name) tag (m, n) t = rw (m, before_tag-append name tag n t)

-- A text that ends in what follows its last slash.
abbrev Slashed : Bytes → Bytes → Type 0
Slashed s last =
    (front : Bytes) × (s ≡ front ++ last)
    × ((front ≡ []) ⊎ ((x : Bytes) × (front ≡ x ++ codes "/")))
    × (contains_byte b'/' last ≡ false)

Slashed-cons :
    (c : ℕ) (s last : Bytes) → contains_byte b'/' s ≡ true → Slashed s last → Slashed (c ∷ s) last
Slashed-cons c s last h (front, e, inl f, p) = cc (h, p, e, ap (λ x. x ++ last) f)
Slashed-cons c s last h (front, e, inr (x, f), p) =
    (c ∷ front, ap (λ y. c ∷ y) e, inr (c ∷ x, ap (λ y. c ∷ y) f), p)

after_last-Slashed : (s : Bytes) → Slashed s (after_last b'/' s)
unfolding after_last contains_byte codes
after_last-Slashed [] = ([], refl, inl refl, refl)
after_last-Slashed (c ∷ s) = elim (Bool-cases (contains_byte b'/' s)) [
  | inl h ↦
      let e : after_last b'/' s ≡ after_last b'/' (c ∷ s) = rw h in
      subst (Slashed (c ∷ s)) e (Slashed-cons c s (after_last b'/' s) h (after_last-Slashed s))
  | inr h ↦ elim (Bool-cases (c == b'/')) [
    | inl e ↦
        let f : s ≡ after_last b'/' (c ∷ s) = rw (h, e) in
        subst (Slashed (c ∷ s)) f (c ∷ [], refl, inr ([], ground (arith, e)), h)
    | inr e ↦
        let f : c ∷ s ≡ after_last b'/' (c ∷ s) = rw (h, e) in
        subst (Slashed (c ∷ s)) f ([], refl, inl refl, ground (arith, h, e))
  ]
]

after_last-front :
    (front last : Bytes)
    → (front ≡ []) ⊎ ((x : Bytes) × (front ≡ x ++ codes "/"))
    → contains_byte b'/' last ≡ false
    → after_last b'/' (front ++ last) ≡ last
unfolding codes
after_last-front front last (inl e) h = rw e (after_last-whole last b'/' h)
after_last-front front last (inr (x, e)) h =
    rw e (ap (after_last b'/') (append_assoc x (codes "/") last) ∙ after_last-append x last b'/' h)

IsTag-no_slash : (tag : Bytes) → IsTag tag → contains_byte b'/' tag ≡ false
unfolding contains_byte
IsTag-no_slash [] t = refl
IsTag-no_slash (c ∷ tag) (m, h) = h

IsReference-image_name : (ref : Bytes) → IsReference ref (image_name ref)
unfolding image_name
IsReference-image_name ref =
    let (front, e, f, p) = after_last-Slashed ref in
    let (tag, g, q, n, t) = before_tag-Tagged (after_last b'/' ref) p in
    record {
      front = front;
      tag = tag;
      parts = e ∙ ap (λ x. front ++ x) g;
      front_ends = f;
      name_plain = q;
      name_marks = n;
      tag_ok = t;
    }

-- The name of an image is the one between the last slash and the tag or digest, and no other.
pub image_name_iff : (ref name : Bytes) → (image_name ref ≡ name) ↔ IsReference ref name
unfolding image_name
image_name_iff ref name = (
  λ e. subst (IsReference ref) e (IsReference-image_name ref),
  λ r. rw r.parts (
      ap before_tag (
        after_last-front r.front (name ++ r.tag) r.front_ends
          (contains_byte-append b'/' name r.tag r.name_plain (IsTag-no_slash r.tag r.tag_ok)))
      ∙ before_tag-append name r.tag r.name_marks r.tag_ok),
)

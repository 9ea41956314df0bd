-- ===== src/Paths/Laws.antt =====
-- The last component of a joined path.
use mathlib.Core.List.{append_assoc}
use llmops.Prelude.{
  ℕ, ◌≡◌, refl, sym, subst, Bool, true, false, List, [], ◌∷◌, ◌++◌, arith, if◌then◌else◌,
  Bool-cases, ◌⊎◌, inl, inr, ◌==◌,
}
use llmops.Strings.{Bytes, codes, equal, is_empty, split, join, after_last, contains_byte}
use llmops.Paths.{
  clean_onto, backwards, clean, join_path, trim_slashes, base, dot_if_empty, is_rooted,
}

-- A name that may stand as one component of a path: not empty, no slash, not "." or "..".
pub record IsComponent (f : Bytes) : Type 0 where
  pub not_empty : is_empty f ≡ false
  pub no_slash : contains_byte b'/' f ≡ false
  pub not_dot : equal f (codes ".") ≡ false
  pub not_dots : equal f (codes "..") ≡ false

pub after_last-append :
    (a f : Bytes) (sep : ℕ) → contains_byte sep f ≡ false → after_last sep (a ++ sep ∷ f) ≡ f
unfolding after_last contains_byte
after_last-append [] f sep h = ground (arith, h)
after_last-append (c ∷ a) f sep h =
    ground (arith, after_last-append a f sep h, contains_byte-mid a f sep)
  where
    contains_byte-mid : (a f : Bytes) (sep : ℕ) → contains_byte sep (a ++ sep ∷ f) ≡ true
    contains_byte-mid [] f sep = ground arith
    contains_byte-mid (c ∷ a) f sep = ground (arith, contains_byte-mid a f sep)

pub after_last-whole : (f : Bytes) (sep : ℕ) → contains_byte sep f ≡ false → after_last sep f ≡ f
unfolding after_last contains_byte
after_last-whole [] sep h = refl
after_last-whole (c ∷ f) sep h = ground (arith, after_last-whole f sep)

split-shape : (a : Bytes) (sep : ℕ) → (w : Bytes) × (ws : List Bytes) × (split a sep ≡ w ∷ ws)
unfolding split
split-shape [] sep = ([], [], refl)
split-shape (c ∷ a) sep =
    let (w, ws, e) = split-shape a sep in
    elim (Bool-cases (c == sep)) [
      | inl h ↦ ([], split a sep, rw h)
      | inr h ↦ (c ∷ w, ws, rw (h, e))
    ]

split-whole : (f : Bytes) (sep : ℕ) → contains_byte sep f ≡ false → split f sep ≡ f ∷ []
unfolding split contains_byte
split-whole [] sep h = refl
split-whole (c ∷ f) sep h = ground (arith, split-whole f sep)

split-append :
    (a f : Bytes) (sep : ℕ)
    → contains_byte sep f ≡ false
    → split (a ++ sep ∷ f) sep ≡ split a sep ++ f ∷ []
unfolding split
split-append [] f sep h = ground (arith, split-whole f sep)
split-append (c ∷ a) f sep h =
    let (w, ws, e) = split-shape a sep in ground (arith, split-append a f sep h, e)

clean_onto-append :
    (rooted : Bool) (cs kept : List Bytes) (f : Bytes)
    → IsComponent f
    → clean_onto rooted kept (cs ++ f ∷ []) ≡ f ∷ clean_onto rooted kept cs
unfolding clean_onto
clean_onto-append rooted [] kept f h = rw (h.not_empty, h.not_dot, h.not_dots)
clean_onto-append rooted (c ∷ cs) kept f h = clean_onto-append rooted cs _ f h

backwards-append : (k xs ys : List Bytes) → backwards k (xs ++ ys) ≡ backwards k xs ++ ys
unfolding backwards
backwards-append [] xs ys = refl
backwards-append (c ∷ k) xs ys = backwards-append k (c ∷ xs) ys

-- The path is the component, or has it behind its last slash.
abbrev EndsIn : Bytes → Bytes → Type 0
EndsIn f p = (p ≡ f) ⊎ ((x : Bytes) × (p ≡ x ++ b'/' ∷ f))

EndsIn-append : (a p f : Bytes) → EndsIn f p → EndsIn f (a ++ b'/' ∷ p)
EndsIn-append a p f (inl e) = inr (a, rw e)
EndsIn-append a p f (inr (x, e)) =
    inr (a ++ b'/' ∷ x, rw e (sym (append_assoc a (b'/' ∷ x) (b'/' ∷ f))))

join-EndsIn : (ks : List Bytes) (f : Bytes) → EndsIn f (join (ks ++ f ∷ []) (codes "/"))
unfolding join codes
join-EndsIn [] f = inl refl
join-EndsIn (k ∷ []) f = inr (k, refl)
join-EndsIn (k ∷ l ∷ ks) f =
    EndsIn-append k (join ((l ∷ ks) ++ f ∷ []) (codes "/")) f (join-EndsIn (l ∷ ks) f)

dot-EndsIn : (p f : Bytes) → is_empty f ≡ false → EndsIn f p → EndsIn f (dot_if_empty p)
dot-EndsIn [] [] n h = cc
dot-EndsIn [] (c ∷ f) n (inl e) = cc
dot-EndsIn [] (c ∷ f) n (inr ([], e)) = cc
dot-EndsIn [] (c ∷ f) n (inr (x ∷ xs, e)) = cc
dot-EndsIn (c ∷ p) f n h = h

parts-eq :
    (rooted : Bool) (ps cs : List Bytes) (f : Bytes)
    → IsComponent f
    → ps ≡ cs ++ f ∷ []
    → backwards (clean_onto rooted [] ps) [] ≡ backwards (clean_onto rooted [] cs) [] ++ f ∷ []
parts-eq rooted ps cs f h e =
    rw (e, clean_onto-append rooted cs [] f h)
      (unfold backwards in backwards-append (clean_onto rooted [] cs) [] (f ∷ []))

rooted-EndsIn :
    (rooted : Bool) (p f : Bytes)
    → is_empty f ≡ false
    → EndsIn f p
    → EndsIn f (if rooted then b'/' ∷ p else dot_if_empty p)
rooted-EndsIn true p f n h = EndsIn-append [] p f h
rooted-EndsIn false p f n h = dot-EndsIn p f n h

clean-EndsIn :
    (p f : Bytes) (cs : List Bytes)
    → IsComponent f
    → split p b'/' ≡ cs ++ f ∷ []
    → EndsIn f (clean p)
unfolding clean
clean-EndsIn p f cs h e = rooted-EndsIn (is_rooted p) _ f h.not_empty (
    subst (λ ps. EndsIn f (join ps (codes "/")))
      (sym (parts-eq (is_rooted p) (split p b'/') cs f h e))
      (join-EndsIn (backwards (clean_onto (is_rooted p) [] cs) []) f))

trim_slashes-append :
    (x f : Bytes) → is_empty f ≡ false → trim_slashes f ≡ f → trim_slashes (x ++ f) ≡ x ++ f
unfolding trim_slashes
trim_slashes-append [] f n e = e
trim_slashes-append (c ∷ x) f n e =
    ground (arith, trim_slashes-append x f n e, not_empty_append x f n)
  where
    not_empty_append : (x f : Bytes) → is_empty f ≡ false → is_empty (x ++ f) ≡ false
    not_empty_append [] f n = n
    not_empty_append (c ∷ x) f n = refl

trim_slashes-whole : (f : Bytes) → contains_byte b'/' f ≡ false → trim_slashes f ≡ f
unfolding trim_slashes contains_byte
trim_slashes-whole [] h = refl
trim_slashes-whole (c ∷ f) h = ground (arith, trim_slashes-whole f)

trim_slashes-slash :
    (f : Bytes) → is_empty f ≡ false → trim_slashes f ≡ f → trim_slashes (b'/' ∷ f) ≡ b'/' ∷ f
unfolding trim_slashes
trim_slashes-slash f n e = ground (arith, n, e)

trim_slashes-EndsIn : (p f : Bytes) → IsComponent f → EndsIn f p → trim_slashes p ≡ p
trim_slashes-EndsIn p f h (inl e) = rw e (trim_slashes-whole f h.no_slash)
trim_slashes-EndsIn p f h (inr (x, e)) = rw e (
    trim_slashes-append x (b'/' ∷ f) refl
      (trim_slashes-slash f h.not_empty (trim_slashes-whole f h.no_slash)))

EndsIn-not_empty : (p f : Bytes) → is_empty f ≡ false → EndsIn f p → is_empty p ≡ false
EndsIn-not_empty p f n (inl e) = rw e n
EndsIn-not_empty p f n (inr ([], e)) = rw e
EndsIn-not_empty p f n (inr (c ∷ x, e)) = rw e

after_last-EndsIn : (p f : Bytes) → IsComponent f → EndsIn f p → after_last b'/' p ≡ f
after_last-EndsIn p f h (inl e) = rw e (after_last-whole f b'/' h.no_slash)
after_last-EndsIn p f h (inr (x, e)) = rw e (after_last-append x f b'/' h.no_slash)

pub base-EndsIn : (p f : Bytes) → IsComponent f → EndsIn f p → base p ≡ f
unfolding base
base-EndsIn p f h e =
    rw
      (
        EndsIn-not_empty p f h.not_empty e,
        trim_slashes-EndsIn p f h e,
        EndsIn-not_empty p f h.not_empty e,
      )
      (after_last-EndsIn p f h e)

-- The path that Join cleans.
base-joined :
    (p f : Bytes) (cs : List Bytes)
    → IsComponent f
    → split p b'/' ≡ cs ++ f ∷ []
    → base (clean p) ≡ f
base-joined p f cs h e = base-EndsIn (clean p) f h (clean-EndsIn p f cs h e)

-- The last component of a joined path is the last element.
pub base-join_path : (d f : Bytes) → IsComponent f → base (join_path (d ∷ f ∷ [])) ≡ f
unfolding join_path join codes
base-join_path d f h = elim (Bool-cases (is_empty d)) [
  | inl e ↦ rw (e, h.not_empty) (base-joined f f [] h (split-whole f b'/' h.no_slash))
  | inr e ↦
      rw (e, h.not_empty)
        (base-joined (d ++ b'/' ∷ f) f (split d b'/') h (split-append d f b'/' h.no_slash))
]

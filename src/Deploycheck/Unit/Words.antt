-- ===== src/Deploycheck/Unit/Words.antt =====
-- How a command line of single words falls into its fields.
use mathlib.Core.List.{append_assoc, append-nil}
use llmops.Prelude.{
  ◌≡◌, refl, sym, ap, ◌∙◌, Bool, true, false, not, ◌&&◌, List, [], ◌∷◌, ◌++◌, arith, Bool-cases,
  inl, inr, All,
}
use llmops.Strings.{Bytes, is_empty, is_space, fields_onto, fields, trim_right, contains_byte}
use llmops.Strings.Decimal.{spaceless}
use llmops.Strings.Laws.{is_empty_iff, contains_byte-append}

-- A word: not empty, and without white space.
abbrev pub is_word : Bytes → Bool
is_word w = not (is_empty w) && spaceless w

fields_onto-word :
    (x w rest : Bytes) → spaceless x ≡ true → fields_onto w (x ++ rest) ≡ fields_onto (w ++ x) rest
unfolding fields_onto
fields_onto-word [] w rest h = rw append-nil
fields_onto-word (c ∷ x) w rest h =
    ground (arith, fields_onto-word x (w ++ c ∷ []) rest, append_assoc w (c ∷ []) x)

-- A word in front of a space is the first field.
pub fields-word : (x rest : Bytes) → is_word x ≡ true → fields (x ++ b' ' ∷ rest) ≡ x ∷ fields rest
unfolding fields
fields-word [] rest h = cc
fields-word (c ∷ x) rest h =
    fields_onto-word (c ∷ x) [] (b' ' ∷ rest) (ground (arith, h)) ∙ unfold fields_onto in refl

pub fields-last : (x : Bytes) → is_word x ≡ true → fields x ≡ x ∷ []
unfolding fields
fields-last [] h = cc
fields-last (c ∷ x) h =
    ap (fields_onto []) (sym (append-nil (c ∷ x)))
    ∙ fields_onto-word (c ∷ x) [] [] (ground (arith, h))
    ∙ unfold fields_onto in refl

fields_onto-trim_right : (w s : Bytes) → fields_onto w (trim_right s) ≡ fields_onto w s
unfolding fields_onto trim_right
fields_onto-trim_right w [] = refl
fields_onto-trim_right w (c ∷ s) = elim (Bool-cases (is_space c)) [
  | inr h ↦ rw (h, h, fields_onto-trim_right (w ++ c ∷ []) s)
  | inl h ↦ elim (Bool-cases (is_empty (trim_right s))) [
    | inl e ↦
        let cut : trim_right s ≡ [] = (is_empty_iff (trim_right s)).0 e in
        let none_left : fields_onto [] s ≡ [] =
          sym (fields_onto-trim_right [] s) ∙ ap (fields_onto []) cut in
        rw (h, e, none_left)
    | inr e ↦ rw (h, e, h, fields_onto-trim_right [] s)
  ]
]

-- What trimming takes away belongs to no field.
pub fields-trim_right : (s : Bytes) → fields (trim_right s) ≡ fields s
unfolding fields
fields-trim_right s = fields_onto-trim_right [] s

-- Words, each behind a space.
unfoldable pub words_text : List Bytes → Bytes
words_text [] = []
words_text (w ∷ ws) = b' ' ∷ (w ++ words_text ws)

pub words_text-append :
    (vs ws : List Bytes) → words_text (vs ++ ws) ≡ words_text vs ++ words_text ws
unfolding words_text
words_text-append [] ws = refl
words_text-append (v ∷ vs) ws =
    ap (λ t. b' ' ∷ (v ++ t)) (words_text-append vs ws)
    ∙ sym (append_assoc (b' ' ∷ v) (words_text vs) (words_text ws))

-- A word with words behind it falls into these fields.
pub fields-words_text :
    (x : Bytes) (ws : List Bytes)
    → is_word x ≡ true
    → All (λ w. is_word w ≡ true) ws
    → fields (x ++ words_text ws) ≡ x ∷ ws
unfolding words_text
fields-words_text x [] h hs = ap fields (append-nil x) ∙ fields-last x h
fields-words_text x (w ∷ ws) h (k, ks) =
    fields-word x (w ++ words_text ws) h ∙ ap (λ fs. x ∷ fs) (fields-words_text w ws k ks)

-- A space is not the only white space: a newline is.
pub spaceless-newline : (w : Bytes) → spaceless w ≡ true → contains_byte 10 w ≡ false
unfolding contains_byte
spaceless-newline [] h = refl
spaceless-newline (c ∷ w) h = ground (arith, spaceless-newline w)

pub words_text-newline :
    (ws : List Bytes) → All (λ w. is_word w ≡ true) ws → contains_byte 10 (words_text ws) ≡ false
unfolding words_text contains_byte
words_text-newline [] h = refl
words_text-newline (w ∷ ws) (h, hs) =
    contains_byte-append 10 w (words_text ws) (spaceless-newline w (ground (arith, h)))
      (words_text-newline ws hs)

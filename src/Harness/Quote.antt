-- ===== src/Harness/Quote.antt =====
-- What a shell reads in a word that `shellQuote` wrote.
use llmops.Prelude.{
  ℕ, ◌≡◌, refl, ap, Bool, true, false, not, ◌&&◌, Option, none, some, [], ◌∷◌, ◌++◌, if◌then◌else◌,
  ◌==◌, arith, Bool-cases, inl, inr,
}
use llmops.Strings.{Bytes, codes, contains_byte, replace_byte}
use llmops.Harness.{is_safe, all_safe, quoted_quote, shell_quote}

-- Quote removal in a POSIX shell (Shell Command Language, 2.2): outside quotes, after a backslash, or
-- between single quotes.
pub data Mode : Type 0 where
  plain escaped quoted : Mode

abbrev followed_by : ℕ → Option Bytes → Option Bytes
followed_by c none = none
followed_by c (some w) = some (c ∷ w)

-- The bytes that a shell does not take as they are outside quotes (2.2), with those that begin a
-- comment, an assignment, a tilde, brace or history expansion, or negate a pipeline.
abbrev pub specials : Bytes
unfolding codes
specials = codes "|&;<>()$`\\\"' \t\r\n*?[]#~=%!{}^"

-- The text of one word; `none` if it is not one complete word with no expansion in it.
unfoldable pub word_value : Mode → Bytes → Option Bytes
word_value Mode.plain [] = some []
word_value Mode.escaped [] = none
word_value Mode.quoted [] = none
word_value Mode.plain (c ∷ cs) =
    if c == b'\''
    then word_value Mode.quoted cs
    else if c == b'\\'
    then word_value Mode.escaped cs
    else if contains_byte c specials
    then none
    else followed_by c (word_value Mode.plain cs)
word_value Mode.escaped (c ∷ cs) =
    if c == 10 then none else followed_by c (word_value Mode.plain cs)
word_value Mode.quoted (c ∷ cs) =
    if c == b'\'' then word_value Mode.plain cs else followed_by c (word_value Mode.quoted cs)

-- The word itself, as a shell reads it from its start.
unfoldable pub shell_word : Bytes → Option Bytes
unfolding word_value
shell_word w = word_value Mode.plain w

unfoldable none_safe : Bytes → Bool
none_safe [] = true
none_safe (c ∷ cs) = not (is_safe c) && none_safe cs

none_safe_tail : (x : ℕ) (xs : Bytes) → none_safe (x ∷ xs) ≡ true → none_safe xs ≡ true
unfolding none_safe
none_safe_tail x xs h = elim (Bool-cases (is_safe x)) [ inl e ↦ cc (e, h) | inr e ↦ cc (e, h) ]

-- A safe byte is none of the bytes that are not.
safe_apart :
    (c : ℕ) (xs : Bytes) → is_safe c ≡ true → none_safe xs ≡ true → contains_byte c xs ≡ false
unfolding contains_byte none_safe
safe_apart c [] h t = refl
safe_apart c (x ∷ xs) h t = elim (Bool-cases (x == c)) [
  | inl e ↦ let same : x ≡ c = ground arith in cc (ap is_safe same, h, t)
  | inr e ↦ rw (e, safe_apart c xs h (none_safe_tail x xs t))
]

no_special : none_safe specials ≡ true
unfolding none_safe codes
no_special = refl

safe_no_quote : (c : ℕ) → is_safe c ≡ true → (c == b'\'') ≡ false
safe_no_quote c h = ground arith

safe_no_backslash : (c : ℕ) → is_safe c ≡ true → (c == b'\\') ≡ false
safe_no_backslash c h = ground arith

safe_cons :
    (c : ℕ) (cs : Bytes) → all_safe (c ∷ cs) ≡ true → (is_safe c ≡ true) × (all_safe cs ≡ true)
unfolding all_safe
safe_cons c cs h = elim (Bool-cases (is_safe c)) [ inl e ↦ (e, cc (e, h)) | inr e ↦ cc (e, h) ]

word_value-safe : (s : Bytes) → all_safe s ≡ true → word_value Mode.plain s ≡ some s
unfolding word_value all_safe
word_value-safe [] h = refl
word_value-safe (c ∷ cs) h =
    let (safe, others) = safe_cons c cs h in
    rw (
      safe_no_quote c safe,
      safe_no_backslash c safe,
      safe_apart c specials safe no_special,
      word_value-safe cs others,
    )

quote_byte : (c : ℕ) → (c == b'\'') ≡ true → c ≡ b'\''
quote_byte c h = ground arith

word_value-quoted :
    (s : Bytes) → word_value Mode.quoted (replace_byte b'\'' quoted_quote s ++ b'\'' ∷ []) ≡ some s
unfolding word_value replace_byte
word_value-quoted [] = refl
word_value-quoted (c ∷ cs) = elim (Bool-cases (c == b'\'')) [
  | inl h ↦ rw (h, quote_byte c h, word_value-quoted cs)
  | inr h ↦ rw (h, h, word_value-quoted cs)
]

-- A shell that reads a quoted value as one word gets the value back, whatever bytes it holds; the
-- shell takes no special byte as it is outside quotes.
pub shell_quote-word : (s : Bytes) → shell_word (shell_quote s) ≡ some s
unfolding shell_word shell_quote
shell_quote-word [] = refl
shell_quote-word (c ∷ cs) = elim (Bool-cases (all_safe (c ∷ cs))) [
  | inl h ↦ rw (h, word_value-safe (c ∷ cs) h)
  | inr h ↦ rw (h, word_value-quoted (c ∷ cs))
]

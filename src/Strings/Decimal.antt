-- ===== src/Strings/Decimal.antt =====
-- The decimal text of a number is read back, and is one word.
use llmops.Prelude.{
  ℕ, zero, suc, ◌+◌, ◌-◌, ◌*◌, ◌/◌, ◌%◌, ◌<◌, ◌≡◌, refl, Bool, true, false, not, ◌&&◌, some, [],
  ◌∷◌, ltb, arith, Bool-cases, inl, inr, ap, ◌∙◌,
}
use llmops.Strings.{Bytes, is_empty, is_space}
use llmops.Strings.Numbers.{digits_onto, itoa, digits_value, is_digit}

digits_value-digit :
    (v k : ℕ) (out : Bytes)
    → k < 10
    → digits_value v ((48 + k) ∷ out) ≡ digits_value (v * 10 + k) out
unfolding digits_value
digits_value-digit v k out h =
    let digit : is_digit (48 + k) ≡ true = ground (arith, h) in
    let value : v * 10 + (48 + k - 48) ≡ v * 10 + k = omega arith in
    rw digit (ap (λ x. digits_value x out) value)

digits_value-digits_onto :
    (fuel n : ℕ) (out : Bytes)
    → n < fuel
    → digits_value 0 (digits_onto fuel n out) ≡ digits_value n out
unfolding digits_onto
digits_value-digits_onto zero n out h = absurd (ground (arith, h))
digits_value-digits_onto (suc fuel) n out h = elim (Bool-cases (ltb n 10)) [
  | inl l ↦
      let same : 0 * 10 + n % 10 ≡ n = ground (arith, l) in
      rw l (digits_value-digit 0 (n % 10) out (ground arith) ∙ ap (λ x. digits_value x out) same)
  | inr l ↦
      let same : n / 10 * 10 + n % 10 ≡ n = ground arith in
      rw l (
        digits_value-digits_onto fuel (n / 10) ((48 + n % 10) ∷ out) (ground (arith, h, l))
        ∙ digits_value-digit (n / 10) (n % 10) out (ground arith)
        ∙ ap (λ x. digits_value x out) same)
]

pub digits_value-itoa : (n : ℕ) → digits_value 0 (itoa n) ≡ some n
unfolding itoa digits_value
digits_value-itoa n = digits_value-digits_onto (n + 1) n [] (ground arith)

-- No byte of the text is white space, and there is one.
abbrev pub spaceless : Bytes → Bool
spaceless [] = true
spaceless (c ∷ cs) = not (is_space c) && spaceless cs

digits_onto-spaceless :
    (fuel n : ℕ) (out : Bytes) → spaceless out ≡ true → spaceless (digits_onto fuel n out) ≡ true
unfolding digits_onto
digits_onto-spaceless zero n out h = h
digits_onto-spaceless (suc fuel) n out h =
    ground (arith, digits_onto-spaceless fuel (n / 10) ((48 + n % 10) ∷ out), h)

digits_onto-not_empty :
    (fuel n : ℕ) (out : Bytes) → is_empty out ≡ false → is_empty (digits_onto fuel n out) ≡ false
unfolding digits_onto
digits_onto-not_empty zero n out h = h
digits_onto-not_empty (suc fuel) n out h =
    ground (arith, digits_onto-not_empty fuel (n / 10) ((48 + n % 10) ∷ out), h)

pub itoa-spaceless : (n : ℕ) → spaceless (itoa n) ≡ true
unfolding itoa
itoa-spaceless n = digits_onto-spaceless (n + 1) n [] refl

pub itoa-not_empty : (n : ℕ) → is_empty (itoa n) ≡ false
unfolding itoa
itoa-not_empty n = ground (arith, digits_onto-not_empty n (n / 10) ((48 + n % 10) ∷ []))

-- ===== src/Strings/Laws.antt =====
-- Laws of the text functions.
use llmops.Prelude.{
  ℕ, zero, suc, ◌+◌, ◌/◌, ◌%◌, ℤ, pos, negsuc, ◌==◌, ◌≡◌, refl, ◌↔◌, inl, inr, true, false, none,
  some, [], ◌∷◌, ◌++◌, arith, Option-cases,
}
use llmops.Strings.Numbers.{is_digit, digits_onto, itoa, itoa_int}
use llmops.Strings.{Bytes, equal, cut_prefix, has_prefix, cut, contains_byte, is_empty}

pub equal_iff : (a b : Bytes) → (equal a b ≡ true) ↔ (a ≡ b)
unfolding equal
equal_iff [] [] = ground arith
equal_iff (x ∷ a) (y ∷ b) = ground (arith, equal_iff a b)
equal_iff _ _ = ground arith

pub equal_refl : (a : Bytes) → equal a a ≡ true
equal_refl a = (equal_iff a a).1 refl

pub is_empty_iff : (a : Bytes) → (is_empty a ≡ true) ↔ (a ≡ [])
is_empty_iff [] = ground arith
is_empty_iff (c ∷ a) = ground arith

-- Cutting off a prefix succeeds exactly when the text starts with it.
pub cut_prefix_iff : (s p r : Bytes) → (cut_prefix s p ≡ some r) ↔ (s ≡ p ++ r)
unfolding cut_prefix
cut_prefix_iff s [] r = ground arith
cut_prefix_iff [] (p ∷ ps) r = ground arith
cut_prefix_iff (c ∷ cs) (p ∷ ps) r = ground (arith, cut_prefix_iff cs ps r)

pub cut_prefix-append : (p r : Bytes) → cut_prefix (p ++ r) p ≡ some r
cut_prefix-append p r = (cut_prefix_iff (p ++ r) p r).1 refl

pub has_prefix-append : (p r : Bytes) → has_prefix (p ++ r) p ≡ true
unfolding has_prefix
has_prefix-append p r = ground (arith, cut_prefix-append p r)

pub cut-none : (a : Bytes) (sep : ℕ) → contains_byte sep a ≡ false → cut a sep ≡ none
unfolding cut contains_byte
cut-none [] sep h = refl
cut-none (c ∷ a) sep h = ground (arith, cut-none a sep)

pub cut-append :
    (a b : Bytes) (sep : ℕ) → contains_byte sep a ≡ false → cut (a ++ sep ∷ b) sep ≡ some (a, b)
unfolding cut contains_byte
cut-append [] b sep h = ground arith
cut-append (c ∷ a) b sep h = ground (arith, cut-append a b sep)

pub cut-eq-some :
    (s : Bytes) (sep : ℕ) {a b : Bytes}
    → cut s sep ≡ some (a, b)
    → (s ≡ a ++ sep ∷ b) × (contains_byte sep a ≡ false)
unfolding cut contains_byte
cut-eq-some [] sep h = cc
cut-eq-some (c ∷ s) sep {a} {b} h = elim (Option-cases (cut s sep)) [
  | inl e ↦ ground arith
  | inr (p, e) ↦ ground (arith, cut-eq-some s sep e)
]

pub contains_byte-append :
    (c : ℕ) (a b : Bytes)
    → contains_byte c a ≡ false
    → contains_byte c b ≡ false
    → contains_byte c (a ++ b) ≡ false
unfolding contains_byte
contains_byte-append c [] b h k = k
contains_byte-append c (x ∷ a) b h k = ground (arith, contains_byte-append c a b)

digits_onto-contains :
    (b fuel n : ℕ) (out : Bytes)
    → is_digit b ≡ false
    → contains_byte b out ≡ false
    → contains_byte b (digits_onto fuel n out) ≡ false
unfolding digits_onto contains_byte
digits_onto-contains b zero n out d h = h
digits_onto-contains b (suc fuel) n out d h =
    ground (arith, digits_onto-contains b fuel (n / 10) ((48 + n % 10) ∷ out) d)

-- The text of a number has digits and a minus only.
pub itoa_int-contains :
    (b : ℕ) (z : ℤ)
    → is_digit b ≡ false
    → (b == b'-') ≡ false
    → contains_byte b (itoa_int z) ≡ false
unfolding itoa_int itoa contains_byte
itoa_int-contains b (pos n) d m = digits_onto-contains b (n + 1) n [] d refl
itoa_int-contains b (negsuc n) d m =
    ground (arith, digits_onto-contains b (n + 1 + 1) (n + 1) [] d refl)

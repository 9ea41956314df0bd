-- ===== src/Strings/Numbers.antt =====
-- Decimal text of numbers (strconv.Itoa, strconv.Atoi, `%d`).
use llmops.Prelude.{
  ℕ, zero, suc, ◌+◌, ◌-◌, ◌*◌, ◌/◌, ◌%◌, Bool, ◌&&◌, Option, none, some, [], ◌∷◌, ltb, leb,
  if◌then◌else◌, ℤ, pos, negsuc,
}
use llmops.Strings.{Bytes}

-- The last digit is written first; fuel n + 1 is enough for n.
unfoldable pub digits_onto : ℕ → ℕ → Bytes → Bytes
digits_onto zero n out = out
digits_onto (suc fuel) n out =
    let here = (48 + n % 10) ∷ out in
    let more = digits_onto fuel (n / 10) here in if ltb n 10 then here else more

unfoldable pub itoa : ℕ → Bytes
unfolding digits_onto
itoa n = digits_onto (n + 1) n []

unfoldable pub itoa_int : ℤ → Bytes
unfolding itoa
itoa_int (pos n) = itoa n
itoa_int (negsuc n) = b'-' ∷ itoa (n + 1)

abbrev pub is_digit : ℕ → Bool
is_digit c = leb b'0' c && leb c b'9'

unfoldable pub digits_value : ℕ → Bytes → Option ℕ
digits_value acc [] = some acc
digits_value acc (c ∷ cs) =
    let rest = digits_value (acc * 10 + (c - 48)) cs in if is_digit c then rest else none

-- ===== src/Floats.antt =====
-- The floating-point numbers of Go, which the program parses, compares and scales. The comparisons
-- are Go's: each is false where an operand is not a number.
use llmops.Prelude.{ℕ, Bool, Option}
use llmops.Strings.{Bytes}

pub record Floats : Type 1 where
  pub Float : Type 0
  -- strconv.ParseFloat with 64 bits; `none` is an error.
  pub parse_float : Bytes → Option Float
  -- x <= y and x < y
  pub le_float : Float → Float → Bool
  pub lt_float : Float → Float → Bool
  pub zero_float : Float
  -- The literal 0.80.
  pub four_fifths : Float
  -- int64(x * float64(n)) for the memory sizes in question.
  pub share : Float → ℕ → ℕ

-- ===== src/Prelude/Int.antt =====
-- Go's `int` where the source compares it with 0 and 1: a sign and a magnitude.
-- `negsuc n` is -(n + 1).
use Prim.Native.Nat.{ℕ, ◌<◌}
use mathlib.Core.Path.{◌≡◌, refl}
use mathlib.Core.Logic.{◌↔◌}
use mathlib.Core.Bool.{Bool, true, false}
use native.Mathlib.Omega.{arith}
use llmops.Prelude.Tests.{ltb, ◌==◌}

pub data ℤ : Type 0 where
  pos : ℕ → ℤ
  negsuc : ℕ → ℤ

-- n < x
unfoldable pub gtz : ℕ → ℤ → Bool
gtz n (pos k) = ltb n k
gtz n (negsuc k) = false

-- x == n
unfoldable pub eqz : ℤ → ℕ → Bool
eqz (pos k) n = k == n
eqz (negsuc k) n = false

pub gtz_iff : (n : ℕ) (x : ℤ) → (gtz n x ≡ true) ↔ ((k : ℕ) × (x ≡ pos k) × (n < k))
unfolding gtz
gtz_iff n (pos k) = (λ h. (k, refl, ground arith), λ (j, e, h). ground arith)
gtz_iff n (negsuc k) = (λ h. cc, λ (j, e, h). cc)

pub eqz_iff : (x : ℤ) (n : ℕ) → (eqz x n ≡ true) ↔ (x ≡ pos n)
unfolding eqz
eqz_iff (pos k) n = ground arith
eqz_iff (negsuc k) n = (λ h. cc, λ h. cc)

-- x == y
unfoldable pub eq_int : ℤ → ℤ → Bool
eq_int (pos k) (pos n) = k == n
eq_int (negsuc k) (negsuc n) = k == n
eq_int _ _ = false

pub eq_int_iff : (x y : ℤ) → (eq_int x y ≡ true) ↔ (x ≡ y)
unfolding eq_int
eq_int_iff (pos k) (pos n) = ground arith
eq_int_iff (negsuc k) (negsuc n) = ground arith
eq_int_iff (pos k) (negsuc n) = (λ h. cc, λ h. cc)
eq_int_iff (negsuc k) (pos n) = (λ h. cc, λ h. cc)

-- ===== src/Prelude/Lists.antt =====
-- Lists measured by native numbers, predicates on lists, and lists of reported problems.
use Prim.Native.Nat.{ℕ, suc, ◌+◌}
use mathlib.Core.Path.{◌≡◌, refl}
use mathlib.Core.Logic.{◌↔◌}
use mathlib.Core.Bool.{Bool, true, false}
use mathlib.Core.List.{List, [], ◌∷◌, ◌++◌}
use native.Mathlib.Omega.{arith}

module _ {ℓ} {A : Type ℓ} where
  abbrev pub length : List A → ℕ
  length [] = 0
  length (x ∷ xs) = suc (length xs)

  pub length-append : (xs ys : List A) → length (xs ++ ys) ≡ length xs + length ys
  length-append [] ys = omega arith
  length-append (x ∷ xs) ys = omega (arith, length-append xs ys)

  abbrev pub All {κ} : (A → Type κ) → List A → Type κ
  All P [] = Unit
  All P (x ∷ xs) = P x × All P xs

  pub append-eq-nil : (xs ys : List A) → (xs ++ ys ≡ []) ↔ ((xs ≡ []) × (ys ≡ []))
  append-eq-nil [] ys = (λ h. (refl, h), λ h. h.1)
  append-eq-nil (x ∷ xs) ys = (λ h. cc, λ h. cc (h.0))

  -- A problem is reported unless the test passes.
  abbrev pub unless : Bool → A → List A
  unless true p = []
  unless false p = p ∷ []

  pub unless-eq-nil : (b : Bool) (p : A) → (unless b p ≡ []) ↔ (b ≡ true)
  unless-eq-nil true p = (λ _. refl, λ _. refl)
  unless-eq-nil false p = (λ h. cc, λ h. cc)

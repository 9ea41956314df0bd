-- ===== src/Prelude/Results.antt =====
-- The result of a Go function that returns a value and an error.
use mathlib.Core.Path.{◌≡◌, refl}
use mathlib.Core.Bool.{Bool, true, false}
use llmops.Prelude.Tests.{if◌then◌else◌}
use mathlib.Core.Logic.{◌⊎◌, inl, inr, ◌↔◌}

pub data Result {ℓ κ} (E : Type ℓ) (A : Type κ) : Type (ℓ ⊔ κ) where
  ok : A → Result E A
  err : E → Result E A

-- What follows runs on the value, and an error ends the function.
module _ {ℓ κ μ} {E : Type ℓ} {B : Type μ} where
  infixl 5 ◌>>=◌
  abbrev pub ◌>>=◌ : {A : Type κ} → Result E A → (A → Result E B) → Result E B
  err failure >>= next = err failure
  ok value >>= next = next value

  pub >>=-eq-ok :
      {A : Type κ} (r : Result E A) (next : A → Result E B) {final : B}
      → (r >>= next) ≡ ok final
      → (value : A) × (r ≡ ok value) × (next value ≡ ok final)
  >>=-eq-ok (err failure) next ends = cc
  >>=-eq-ok (ok value) next ends = (value, refl, ends)

module _ {ℓ μ} {E : Type ℓ} {B : Type μ} where
  infixl 5 ◌>>◌
  abbrev pub ◌>>◌ : Result E (Unit {0}) → Result E B → Result E B
  err failure >> after = err failure
  ok done >> after = after

-- `if !test { return e }`
abbrev pub ensure {ℓ} : {E : Type ℓ} → Bool → E → Result E (Unit {0})
ensure false e = err e
ensure true _ = ok tt

-- An error wrapped on its way up.
abbrev pub wrap {ℓ κ μ} : {E : Type ℓ} {F : Type μ} {A : Type κ} → (E → F) → Result E A → Result F A
wrap f (ok a) = ok a
wrap f (err e) = err (f e)

pub Result-cases {ℓ κ} :
    {E : Type ℓ} {A : Type κ} (r : Result E A) → ((a : A) × (r ≡ ok a)) ⊎ ((e : E) × (r ≡ err e))
Result-cases (ok a) = inl (a, refl)
Result-cases (err e) = inr (e, refl)

>>-ok {ℓ} :
    {E : Type ℓ} (a b : Result E (Unit {0})) → ((a >> b) ≡ ok tt) ↔ ((a ≡ ok tt) × (b ≡ ok tt))
>>-ok (err e) b = (λ h. cc h, λ (g, h). cc g)
>>-ok (ok a) b = (λ h. (refl, h), λ (g, h). h)

-- A test that stands for a property, and two checks one behind the other.
pub ensure-ok {ℓ} :
    {E : Type ℓ} {P : Type 0} (b : Bool) (e : E) → (b ≡ true) ↔ P → (ensure b e ≡ ok tt) ↔ P
ensure-ok false e h = (λ g. cc g, λ p. cc (h.1 p))
ensure-ok true e h = (λ g. h.0 refl, λ p. refl)

pub checks-ok {ℓ} :
    {E : Type ℓ} {P Q : Type 0} (a b : Result E (Unit {0}))
    → (a ≡ ok tt) ↔ P
    → (b ≡ ok tt) ↔ Q
    → ((a >> b) ≡ ok tt) ↔ (P × Q)
checks-ok a b h k =
    let (to, from) = >>-ok a b in (λ g. (h.0 (to g).0, k.0 (to g).1), λ (p, q). from (h.1 p, k.1 q))

-- A branch on a test that stands for a property.
pub branch-ok {ℓ} :
    {E : Type ℓ} {R P Q : Type 0} (b : Bool) (x y : Result E (Unit {0}))
    → (b ≡ true) ↔ R
    → (R → (x ≡ ok tt) ↔ P)
    → ((R → ⊥) → (y ≡ ok tt) ↔ Q)
    → ((if b then x else y) ≡ ok tt) ↔ ((R × P) ⊎ ((R → ⊥) × Q))
branch-ok true x y r p q = (
  λ h. inl (r.0 refl, (p (r.0 refl)).0 h),
  λ g. elim g [ inl (s, t) ↦ (p s).1 t | inr (n, t) ↦ absurd (n (r.0 refl)) ],
)
branch-ok {R = R} false x y r p q =
    let n : R → ⊥ = λ s. cc (r.1 s) in
    (λ h. inr (n, (q n).0 h), λ g. elim g [ inl (s, t) ↦ absurd (n s) | inr (n', t) ↦ (q n').1 t ])

pub wrap-eq-ok {ℓ κ μ} :
    {E : Type ℓ} {F : Type μ} {A : Type κ} (f : E → F) (x : Result E A) {a : A}
    → (wrap f x ≡ ok a) ↔ (x ≡ ok a)
wrap-eq-ok f (ok b) {a} = (λ h. cc h, λ h. cc h)
wrap-eq-ok f (err e) {a} = (λ h. cc h, λ h. cc h)

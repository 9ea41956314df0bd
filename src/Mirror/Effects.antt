-- ===== src/Mirror/Effects.antt =====
-- Operations on a state that may fail: a Go function that returns an error has acted on the state
-- also where it fails.
use llmops.Prelude.{◌≡◌, refl, ◌⊎◌, inl, inr, Bool, true, false, Result, ok, err}

abbrev pub Eff : Type 0 → Type 0 → Type 0 → Type 0
Eff S E A = S → Result E A × S

abbrev pub pure : {S E A : Type 0} → A → Eff S E A
pure a s = (ok a, s)

abbrev pub throw : {S E A : Type 0} → E → Eff S E A
throw e s = (err e, s)

abbrev then_result : {S E A B : Type 0} → Result E A → (A → Eff S E B) → Eff S E B
then_result (ok a) f = f a
then_result (err e) f = throw e

infixl 5 ◌>>=◌ ◌>>◌
abbrev pub ◌>>=◌ : {S E A B : Type 0} → Eff S E A → (A → Eff S E B) → Eff S E B
◌>>=◌ m f s = let r = m s in then_result r.0 f r.1

abbrev pub ◌>>◌ : {S E A B : Type 0} → Eff S E A → Eff S E B → Eff S E B
m >> k = m >>= λ _. k

-- A read of the state, which leaves it alone.
abbrev pub reading : {S E A : Type 0} → (S → Result E A) → Eff S E A
reading f s = (f s, s)

abbrev pub guard : {S E : Type 0} → Bool → E → Eff S E (Unit {0})
guard true e = pure tt
guard false e = throw e

-- A bind that returns a value has run both parts.
pub >>=-eq-ok :
    {S E A B : Type 0} (m : Eff S E A) (f : A → Eff S E B) (s t : S) {b : B}
    → (m >>= f) s ≡ (ok b, t)
    → (a : A) × (u : S) × (m s ≡ (ok a, u)) × (f a u ≡ (ok b, t))
>>=-eq-ok {S} {E} {A} {B} m f s t {b} h = go (m s) refl h
  where
    go :
        (r : Result E A × S)
        → m s ≡ r
        → then_result r.0 f r.1 ≡ (ok b, t)
        → (a : A) × (u : S) × (m s ≡ (ok a, u)) × (f a u ≡ (ok b, t))
    go (ok a, u) e k = (a, u, e, k)
    go (err x, u) e k = cc

-- How an operation without a value ends.
pub Eff-cases :
    {S E : Type 0} (m : Eff S E (Unit {0})) (s : S)
    → ((t : S) × (m s ≡ (ok tt, t))) ⊎ ((e : E) × (t : S) × (m s ≡ (err e, t)))
Eff-cases {S} {E} m s = go (m s) refl
  where
    go :
        (r : Result E (Unit {0}) × S)
        → m s ≡ r
        → ((t : S) × (m s ≡ (ok tt, t))) ⊎ ((e : E) × (t : S) × (m s ≡ (err e, t)))
    go (ok _, t) h = inl (t, h)
    go (err e, t) h = inr (e, t, h)

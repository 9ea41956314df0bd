-- ===== src/Strings/Sorting.antt =====
-- Sorting keeps what holds of every text.
use llmops.Prelude.{◌↔◌, inl, inr, List, [], ◌∷◌, Bool-cases, All}
use llmops.Strings.{Bytes, before, insert_sorted, sort}

module _ (P : Bytes → Type 0) where
  insert_sorted-All : (w : Bytes) (ws : List Bytes) → All P (insert_sorted w ws) ↔ (P w × All P ws)
  unfolding insert_sorted
  insert_sorted-All w [] = (λ h. h, λ h. h)
  insert_sorted-All w (v ∷ vs) =
      let (to, from) = insert_sorted-All w vs in
      elim (Bool-cases (before w v)) [
        | inl e ↦ rw (e) (λ h. h, λ h. h)
        | inr e ↦
            rw (e)
              (λ (q, rest). let (p, t) = to rest in (p, (q, t)), λ (p, qt). (qt.0, from (p, qt.1)))
      ]

  pub sort-All : (ws : List Bytes) → All P (sort ws) ↔ All P ws
  unfolding sort
  sort-All [] = (λ h. h, λ h. h)
  sort-All (w ∷ ws) = (
    λ h. let (p, rest) = (insert_sorted-All w (sort ws)).0 h in (p, (sort-All ws).0 rest),
    λ (p, rest). (insert_sorted-All w (sort ws)).1 (p, (sort-All ws).1 rest),
  )

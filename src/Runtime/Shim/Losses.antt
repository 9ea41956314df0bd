-- ===== src/Runtime/Shim/Losses.antt =====
-- `recordLoss` (internal/runtime/shim.go): a counter for each dialect and field.
use llmops.Prelude.{
  ℕ, suc, ◌+◌, ◌≡◌, refl, Bool, true, false, List, [], ◌∷◌, if◌then◌else◌, arith, ◌&&◌, Bool-cases,
  inl, inr,
}
use llmops.Strings.{Bytes, equal}
use llmops.Strings.Laws.{equal_iff, equal_refl}
use llmops.Runtime.Shim.Surfaces.{Dialect, same_dialect}

-- `lossKey`
pub record LossKey : Type 0 where
  pub dialect : Dialect
  pub field : Bytes

abbrev same_key : LossKey → LossKey → Bool
same_key a b = same_dialect a.dialect b.dialect && equal a.field b.field

-- The map `lossCount`. A key that was never stored counts 0.
abbrev pub LossCount : Type 0
LossCount = List (LossKey × ℕ)

unfoldable pub loss_at : LossCount → LossKey → ℕ
loss_at [] k = 0
loss_at ((j, n) ∷ rest) k = if same_key j k then n else loss_at rest k

-- `LoadOrStore(key, new(atomic.Int64))` and `Add(1)`
unfoldable pub add_one : LossCount → LossKey → LossCount
add_one [] k = (k, 1) ∷ []
add_one ((j, n) ∷ rest) k =
    let counted = add_one rest k in if same_key j k then (j, suc n) ∷ rest else (j, n) ∷ counted

-- `recordLoss`
unfoldable pub record_loss : LossCount → Dialect → List Bytes → LossCount
record_loss c d [] = c
record_loss c d (f ∷ fs) = record_loss (add_one c (record { dialect = d; field = f })) d fs

-- How often a field is named.
unfoldable pub occurrences : List Bytes → Bytes → ℕ
occurrences [] f = 0
occurrences (g ∷ gs) f = let rest = occurrences gs f in if equal g f then suc rest else rest

same_dialect_eq : (a b : Dialect) → same_dialect a b ≡ true → a ≡ b
unfolding same_dialect
same_dialect_eq Dialect.openai_chat Dialect.openai_chat _ = refl
same_dialect_eq Dialect.anthropic_messages Dialect.anthropic_messages _ = refl
same_dialect_eq Dialect.openai_responses Dialect.openai_responses _ = refl
same_dialect_eq Dialect.openai_chat Dialect.anthropic_messages h = cc
same_dialect_eq Dialect.openai_chat Dialect.openai_responses h = cc
same_dialect_eq Dialect.anthropic_messages Dialect.openai_chat h = cc
same_dialect_eq Dialect.anthropic_messages Dialect.openai_responses h = cc
same_dialect_eq Dialect.openai_responses Dialect.openai_chat h = cc
same_dialect_eq Dialect.openai_responses Dialect.anthropic_messages h = cc

same_dialect_refl : (a : Dialect) → same_dialect a a ≡ true
unfolding same_dialect
same_dialect_refl Dialect.openai_chat = refl
same_dialect_refl Dialect.anthropic_messages = refl
same_dialect_refl Dialect.openai_responses = refl

same_key_eq : (a b : LossKey) → same_key a b ≡ true → a ≡ b
same_key_eq a b h = ground (arith, same_dialect_eq a.dialect b.dialect, equal_iff a.field b.field)

same_key_refl : (a : LossKey) → same_key a a ≡ true
same_key_refl a = rw (same_dialect_refl a.dialect, equal_refl a.field)

add_one-same : (c : LossCount) (k : LossKey) → loss_at (add_one c k) k ≡ suc (loss_at c k)
unfolding loss_at add_one
add_one-same [] k = rw (same_key_refl k)
add_one-same ((j, n) ∷ rest) k = elim (Bool-cases (same_key j k)) [
  | inl h ↦ rw (h, h)
  | inr h ↦ rw (h, h, add_one-same rest k)
]

add_one-other :
    (c : LossCount) (k l : LossKey) → same_key k l ≡ false → loss_at (add_one c k) l ≡ loss_at c l
unfolding loss_at add_one
add_one-other [] k l h = rw h
add_one-other ((j, n) ∷ rest) k l h = elim (Bool-cases (same_key j k)) [
  | inl e ↦ rw (e, same_key_eq j k e, h)
  | inr e ↦ rw (e, add_one-other rest k l h)
]

module _ (c : LossCount) (d e : Dialect) (g f : Bytes) where
  abbrev counted : LossCount
  counted = add_one c (record { dialect = d; field = g })

  counted_here :
      equal g f ≡ true
      → loss_at counted (record { dialect = d; field = f })
        ≡ suc (loss_at c (record { dialect = d; field = f }))
  counted_here h = rw ((equal_iff g f).0 h, add_one-same c (record { dialect = d; field = f }))

  counted_elsewhere :
      equal g f ≡ false
      → loss_at counted (record { dialect = d; field = f })
        ≡ loss_at c (record { dialect = d; field = f })
  counted_elsewhere h =
      add_one-other c (record { dialect = d; field = g }) (record { dialect = d; field = f })
        (rw (same_dialect_refl d, h))

  counted_for_other :
      same_dialect d e ≡ false
      → loss_at counted (record { dialect = e; field = f })
        ≡ loss_at c (record { dialect = e; field = f })
  counted_for_other h =
      add_one-other c (record { dialect = d; field = g }) (record { dialect = e; field = f }) (rw h)

-- After a report, each field has one count more for each time the report names it, in the dialect
-- of the report, and no other count has changed.
pub record_loss-counts :
    (c : LossCount) (d e : Dialect) (fs : List Bytes) (f : Bytes)
    → loss_at (record_loss c d fs) (record { dialect = e; field = f })
      ≡ loss_at c (record { dialect = e; field = f })
        + (if same_dialect d e then occurrences fs f else 0)
unfolding record_loss occurrences
record_loss-counts c d e [] f = ground arith
record_loss-counts c d e (g ∷ gs) f =
    let rest = record_loss-counts (add_one c (record { dialect = d; field = g })) d e gs f in
    elim (Bool-cases (same_dialect d e)) [
      | inr differs ↦ ground (arith, rest, counted_for_other c d e g f differs)
      | inl same ↦ elim (Bool-cases (equal g f)) [
        | inl h ↦ ground (arith, rest, same_dialect_eq d e same, counted_here c d e g f h)
        | inr h ↦ ground (arith, rest, same_dialect_eq d e same, counted_elsewhere c d e g f h)
      ]
    ]

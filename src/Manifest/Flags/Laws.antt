-- ===== src/Manifest/Flags/Laws.antt =====
-- What a flag resolves to when arguments are put together.
use llmops.Prelude.{
  ◌≡◌, refl, ◌≢◌, inl, inr, true, false, Option, none, some, List, [], ◌∷◌, ◌++◌, arith, Bool-cases,
  Option-cases,
}
use llmops.Strings.{Bytes, codes, equal, has_prefix, contains_byte}
use llmops.Strings.Laws.{equal_iff, equal_refl, cut-append, cut-none}
use llmops.Manifest.Flags.{value_after, flag_step, flag_loop, flag_value, has_arg_loop, has_arg}

abbrev last_of : Option Bytes → Option Bytes → Option Bytes
last_of none before = before
last_of (some v) before = some v

flag_step_or :
    (flag a : Bytes) (args : List Bytes) (found : Option Bytes)
    → flag_step flag a args found ≡ last_of (flag_step flag a args none) found
unfolding flag_step
flag_step_or flag a args found = ground arith

flag_loop_or :
    (flag : Bytes) (args : List Bytes) (found : Option Bytes)
    → flag_loop flag args found ≡ last_of (flag_loop flag args none) found
unfolding flag_loop
flag_loop_or flag [] found = refl
flag_loop_or flag (a ∷ args) found = ground (
  arith,
  flag_loop_or flag args (flag_step flag a args found),
  flag_loop_or flag args (flag_step flag a args none),
  flag_step_or flag a args found,
)

flag_loop-append :
    (flag : Bytes) (xs ys : List Bytes) {v : Bytes} (found : Option Bytes)
    → flag_loop flag ys none ≡ some v
    → flag_loop flag (xs ++ ys) found ≡ some v
unfolding flag_loop
flag_loop-append flag [] ys found h = rw (flag_loop_or flag ys found) (rw h)
flag_loop-append flag (x ∷ xs) ys found h = flag_loop-append flag xs ys _ h

-- What stands behind decides: arguments in front of a list that has the flag do not matter.
pub flag_value-append :
    (xs ys : List Bytes) (flag : Bytes) {v : Bytes}
    → flag_value ys flag ≡ some v
    → flag_value (xs ++ ys) flag ≡ some v
unfolding flag_value
flag_value-append xs ys flag h = flag_loop-append flag xs ys none h

module _ (flag : Bytes) (plain : contains_byte b'=' flag ≡ false) where
  flag_step_assigned :
      (v : Bytes) (args : List Bytes) (found : Option Bytes)
      → flag_step flag (flag ++ b'=' ∷ v) args found ≡ some v
  unfolding flag_step
  flag_step_assigned v args found = ground (arith, cut-append flag v b'=' plain, equal_refl flag)

  -- "flag=v" at the end wins.
  pub flag_value-append_assigned :
      (xs : List Bytes) (v : Bytes) → flag_value (xs ++ (flag ++ b'=' ∷ v) ∷ []) flag ≡ some v
  flag_value-append_assigned xs v =
      flag_value-append xs ((flag ++ b'=' ∷ v) ∷ []) flag
        (unfold flag_value flag_loop in flag_step_assigned v [] none)

  flag_step_present :
      (a : Bytes) (args : List Bytes) (found : Option Bytes)
      → equal a flag ≡ true
      → flag_step flag a args found ≡ some (value_after args)
  unfolding flag_step
  flag_step_present a args found h =
      ground (arith, (equal_iff a flag).0 h, cut-none flag b'=' plain, equal_refl flag)

-- A last argument "other=w", of another flag, changes nothing.
module _ (flag other w : Bytes) (plain : contains_byte b'=' other ≡ false) (ne : other ≢ flag)
    (dash : has_prefix (other ++ b'=' ∷ w) (codes "-") ≡ true) where
  value_after-append_other :
      (xs : List Bytes) → value_after (xs ++ (other ++ b'=' ∷ w) ∷ []) ≡ value_after xs
  unfolding value_after
  value_after-append_other [] = rw dash
  value_after-append_other (x ∷ xs) = refl

  flag_step-append_other :
      (a : Bytes) (xs : List Bytes) (found : Option Bytes)
      → flag_step flag a (xs ++ (other ++ b'=' ∷ w) ∷ []) found ≡ flag_step flag a xs found
  unfolding flag_step
  flag_step-append_other a xs found = ground (arith, value_after-append_other xs)

  flag_loop-append_other :
      (xs : List Bytes) (found : Option Bytes)
      → flag_loop flag (xs ++ (other ++ b'=' ∷ w) ∷ []) found ≡ flag_loop flag xs found
  unfolding flag_loop flag_step
  flag_loop-append_other [] found =
      ground (arith, cut-append other w b'=' plain, equal_iff other flag)
  flag_loop-append_other (x ∷ xs) found =
      rw (flag_step-append_other x xs found, flag_loop) (flag_loop-append_other xs _)

  pub flag_value-append_other :
      (xs : List Bytes) → flag_value (xs ++ (other ++ b'=' ∷ w) ∷ []) flag ≡ flag_value xs flag
  unfolding flag_value
  flag_value-append_other xs = flag_loop-append_other xs none

flag_loop-some :
    (flag : Bytes) (args : List Bytes) (u : Bytes)
    → (w : Bytes) × (flag_loop flag args (some u) ≡ some w)
flag_loop-some flag args u = elim (Option-cases (flag_loop flag args none)) [
  | inl e ↦ (u, rw (flag_loop_or flag args (some u)) (rw e))
  | inr (w, e) ↦ (w, rw (flag_loop_or flag args (some u)) (rw e))
]

flag_step-flag_loop :
    (flag a : Bytes) (args : List Bytes) (found : Option Bytes) (u : Bytes)
    → flag_step flag a args found ≡ some u
    → (w : Bytes) × (flag_loop flag (a ∷ args) found ≡ some w)
unfolding flag_loop
flag_step-flag_loop flag a args found u e = rw (e, flag_loop) (flag_loop-some flag args u)

module _ (k v : Bytes) (plain : contains_byte b'=' k ≡ false) where
  has_arg_loop-flag_loop :
      (args : List Bytes) (found : Option Bytes)
      → has_arg_loop (k ++ b'=' ∷ v) (some (k, v)) args ≡ true
      → (w : Bytes) × (flag_loop k args found ≡ some w)
  unfolding has_arg_loop flag_loop
  has_arg_loop-flag_loop [] found h = cc
  has_arg_loop-flag_loop (a ∷ args) found h = elim (Bool-cases (equal a (k ++ b'=' ∷ v))) [
    | inl e ↦
        flag_step-flag_loop k a args found v
          (rw ((equal_iff a _).0 e) (flag_step_assigned k plain v args found))
    | inr m ↦ elim (Bool-cases (equal a k)) [
      | inl e ↦ flag_step-flag_loop k a args found _ (flag_step_present k plain a args found e)
      | inr n ↦ has_arg_loop-flag_loop args _ (ground arith)
    ]
  ]

  -- A required "k=v" that `HasArg` finds makes the flag present, whatever value it ends up with.
  pub has_arg-flag_value :
      (args : List Bytes)
      → has_arg args (k ++ b'=' ∷ v) ≡ true
      → (w : Bytes) × (flag_value args k ≡ some w)
  unfolding has_arg flag_value
  has_arg-flag_value args h = has_arg_loop-flag_loop args none (rw (cut-append k v b'=' plain) at h)

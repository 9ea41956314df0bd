-- ===== src/Manifest/Overrides.antt =====
-- Choosing a speculator of a validated manifest, and what validation does not rule out.
use llmops.Prelude.{
  ◌≡◌, refl, sym, ◌≢◌, ◌↔◌, ◌⊎◌, inl, inr, true, false, Option, none, some, List, [], ◌∷◌, ◌++◌,
  arith, if◌then◌else◌, Bool-cases, Option-cases, ok,
}
use llmops.Floats.{Floats}
use llmops.Strings.{Bytes, equal, is_empty, contains_byte, cut}
use llmops.Strings.Laws.{equal_iff, is_empty_iff}
use llmops.Manifest.{Manifest, Speculator, speculator_none, or_default}
use llmops.Manifest.Flags.{flag_value, has_arg, has_arg_loop, next_is}
use llmops.Manifest.Flags.Laws.{flag_value-append_assigned}
use llmops.Manifest.Speculators.{
  Speculation, no_speculation, find, resolve_named, resolve_speculator,
}
use llmops.Manifest.Validate.{validate}
use llmops.Manifest.Validity.{IsValid}
use llmops.Manifest.Validate.Fields.{check_required}
use llmops.Manifest.Validity.Whole.{validate-IsValid}

-- What an empty choice stands for.
abbrev chosen_name : Manifest → Bytes → Bytes
chosen_name m name = if is_empty name then or_default m.default_speculator speculator_none else name

abbrev pub IsOffered : Manifest → Bytes → Type 0
IsOffered m name =
    (name ≡ speculator_none) ⊎ ((sp : Speculator) × (find name m.speculators ≡ some sp))

resolve_named-offered :
    (m : Manifest) (name : Bytes)
    → IsOffered m name
    → (s : Speculation) × (resolve_named m name ≡ ok s) × (s.name ≡ name)
unfolding resolve_named
resolve_named-offered m name h = elim (Bool-cases (equal name speculator_none)) [
  | inl e ↦ (no_speculation, rw (e, resolve_named), sym ((equal_iff _ _).0 e))
  | inr e ↦ elim h [
    | inl same ↦ cc ((equal_iff name speculator_none).1 same)
    | inr (sp, f) ↦ (record { name = name; speculator = sp }, ground arith, refl)
  ]
]

or_default_stated : (a b : Bytes) → a ≢ [] → or_default a b ≡ a
or_default_stated a b h = ground arith

default-IsOffered :
    (F : Floats) (m : Manifest)
    → IsValid F m
    → IsOffered m (or_default m.default_speculator speculator_none)
default-IsOffered F m v = elim (v.speculators_ok.0) [
  | inl (_, d) ↦ inl (ground arith)
  | inr (_, ne, d) ↦ rw (or_default_stated m.default_speculator speculator_none ne) d
]

resolve_named-IsOffered :
    (m : Manifest) (name : Bytes) {s : Speculation} → resolve_named m name ≡ ok s → IsOffered m name
unfolding resolve_named
resolve_named-IsOffered m name h = elim (Bool-cases (equal name speculator_none)) [
  | inl e ↦ inl ((equal_iff _ _).0 e)
  | inr e ↦ elim (Option-cases (find name m.speculators)) [
    | inl f ↦ ground arith
    | inr found ↦ inr found
  ]
]

-- For a manifest that `Validate` accepts, a choice of speculator resolves exactly when it is empty
-- (the manifest's default then decides), "none", or the name of a declared speculator.
pub resolve_speculator-ok :
    (F : Floats) (m : Manifest)
    → validate F m ≡ ok m
    → (chosen : Bytes)
    → ((s : Speculation) × (resolve_speculator m chosen ≡ ok s))
      ↔ ((chosen ≡ []) ⊎ IsOffered m chosen)
unfolding resolve_speculator
resolve_speculator-ok F m valid chosen = (
  λ (s, h). elim (Bool-cases (is_empty chosen)) [
    | inl e ↦ inl ((is_empty_iff chosen).0 e)
    | inr e ↦ inr (resolve_named-IsOffered m chosen (rw e at h))
  ],
  λ choice. elim (Bool-cases (is_empty chosen)) [
    | inl e ↦
        let default = default-IsOffered F m ((validate-IsValid F m).0 valid) in
        let (s, r, _) = resolve_named-offered m _ default in (s, rw e r)
    | inr e ↦ elim choice [
      | inl none_given ↦ ground arith
      | inr offered ↦ let (s, r, _) = resolve_named-offered m chosen offered in (s, rw e r)
    ]
  ],
)

next_is-append :
    (v : Bytes) (xs ys : List Bytes) → next_is xs v ≡ true → next_is (xs ++ ys) v ≡ true
next_is-append v [] ys h = cc
next_is-append v (x ∷ xs) ys h = h

has_arg_loop-append :
    (flag : Bytes) (parts : Option (Bytes × Bytes)) (xs ys : List Bytes)
    → has_arg_loop flag parts xs ≡ true
    → has_arg_loop flag parts (xs ++ ys) ≡ true
unfolding has_arg_loop
has_arg_loop-append flag none [] ys h = cc
has_arg_loop-append flag (some p) [] ys h = cc
has_arg_loop-append flag none (x ∷ xs) ys h = ground (arith, has_arg_loop-append flag none xs ys)
has_arg_loop-append flag (some (k, v)) (x ∷ xs) ys h =
    ground (arith, has_arg_loop-append flag (some (k, v)) xs ys, next_is-append v xs ys)

check_required-append :
    (flags args more : List Bytes)
    → check_required flags args ≡ []
    → check_required flags (args ++ more) ≡ []
unfolding check_required has_arg
check_required-append [] args more h = refl
check_required-append (flag ∷ flags) args more h = ground (
  arith,
  check_required-append flags args more,
  has_arg_loop-append flag (cut flag b'=') args more,
)

-- The check of required arguments accepts every extension of an accepted list. So a flag that is
-- required with one value can be followed by the same flag with any other, and that one is what the
-- engine reads: the check does not pin the value in force.
pub check_required-overridden :
    (flags args : List Bytes) (flag v : Bytes)
    → contains_byte b'=' flag ≡ false
    → check_required flags args ≡ []
    → (check_required flags (args ++ (flag ++ b'=' ∷ v) ∷ []) ≡ [])
      × (flag_value (args ++ (flag ++ b'=' ∷ v) ∷ []) flag ≡ some v)
check_required-overridden flags args flag v plain h =
    (check_required-append flags args _ h, flag_value-append_assigned flag plain args v)

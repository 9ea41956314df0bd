-- ===== src/Manifest/Flags.antt =====
-- Engine flags in an argument list: `flagValue` and `HasArg` of internal/manifest/manifest.go.
pub mod Laws
use llmops.Prelude.{
  Bool, true, false, not, ◌&&◌, ◌||◌, Option, none, some, List, [], ◌∷◌, if◌then◌else◌,
}
use llmops.Strings.{Bytes, codes, equal, cut, has_prefix}

-- `args[i+1]`, if there is one and it does not start with "-"; the value of a bare flag.
unfoldable pub value_after : List Bytes → Bytes
value_after [] = []
value_after (v ∷ args) = if has_prefix v (codes "-") then [] else v

-- One round of the loop: what argument `a`, with `args` behind it, makes of `value, found`.
unfoldable pub flag_step : Bytes → Bytes → List Bytes → Option Bytes → Option Bytes
unfolding value_after
flag_step flag a args found = elim (cut a b'=') [
  | some (k, v) ↦ if equal k flag then some v else found
  | none ↦ if equal a flag then some (value_after args) else found
]

unfoldable pub flag_loop : Bytes → List Bytes → Option Bytes → Option Bytes
flag_loop flag [] found = found
flag_loop flag (a ∷ args) found = flag_loop flag args (flag_step flag a args found)

-- `none` is the result with `found` false.
unfoldable pub flag_value : List Bytes → Bytes → Option Bytes
flag_value args flag = flag_loop flag args none

abbrev pub next_is : List Bytes → Bytes → Bool
next_is [] v = false
next_is (w ∷ args) v = equal w v

-- The loop of `HasArg`, with `strings.Cut(flag, "=")` done.
unfoldable pub has_arg_loop : Bytes → Option (Bytes × Bytes) → List Bytes → Bool
has_arg_loop flag parts [] = false
has_arg_loop flag none (a ∷ args) = equal a flag || has_arg_loop flag none args
has_arg_loop flag (some (k, v)) (a ∷ args) =
    (equal a flag || (equal a k && next_is args v)) || has_arg_loop flag (some (k, v)) args

unfoldable pub has_arg : List Bytes → Bytes → Bool
unfolding has_arg_loop
has_arg args flag = has_arg_loop flag (cut flag b'=') args

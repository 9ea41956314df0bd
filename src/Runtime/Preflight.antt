-- ===== src/Runtime/Preflight.antt =====
-- The memory check before a start (internal/runtime/preflight.go). An int64 is its 64 bits as a
-- number below 2^64. The file of the kernel's memory report and the walk over the weight directory
-- are arguments; the text that is logged is left out.
pub mod Budget
use llmops.Prelude.{
  ℕ, ◌+◌, ◌-◌, ◌*◌, ◌%◌, Bool, true, false, not, ◌&&◌, Option, none, some, List, [], ◌∷◌, leb, ltb,
  if◌then◌else◌, Result, ok, err,
}
use llmops.Floats.{Floats}
use llmops.Strings.{Bytes, codes, equal, is_empty, cut_prefix, split, fields}
use llmops.Strings.Numbers.{digits_value}
use llmops.Manifest.{Manifest, runtime_sglang, gpu_type_gb10}
use llmops.Manifest.Flags.{flag_value}

-- 2^64 and 2^63
abbrev pub two64 : ℕ
two64 = 18446744073709551616

abbrev pub two63 : ℕ
two63 = 9223372036854775808

-- a + b, and a <= b of signed numbers.
unfoldable pub add_int64 : ℕ → ℕ → ℕ
add_int64 a b = (a + b) % two64

unfoldable pub le_int64 : ℕ → ℕ → Bool
le_int64 a b = leb ((a + two63) % two64) ((b + two63) % two64)

-- `hostFloorBytes`, 8 << 30
abbrev pub host_floor_bytes : ℕ
host_floor_bytes = 8589934592

abbrev nonnegative_int64 : Option ℕ → Option ℕ
nonnegative_int64 none = none
nonnegative_int64 (some n) = if ltb n two63 then some n else none

abbrev negative_int64 : Option ℕ → Option ℕ
negative_int64 none = none
negative_int64 (some n) = if leb n two63 then some ((two64 - n) % two64) else none

abbrev some_digits : Bytes → Option ℕ
unfolding digits_value
some_digits ds = if is_empty ds then none else digits_value 0 ds

-- strconv.ParseInt in base 10 with 64 bits; `none` is an error.
unfoldable pub parse_int : Bytes → Option ℕ
unfolding some_digits
parse_int [] = none
parse_int (c ∷ cs) =
    if equal (c ∷ []) (codes "-")
    then negative_int64 (some_digits cs)
    else if equal (c ∷ []) (codes "+")
    then nonnegative_int64 (some_digits cs)
    else nonnegative_int64 (some_digits (c ∷ cs))

abbrev shifted : Option ℕ → Option ℕ
shifted none = none
shifted (some kb) = some (kb * 1024 % two64)

abbrev first_field : List Bytes → Option ℕ
unfolding parse_int
first_field [] = none
first_field (w ∷ ws) = shifted (parse_int w)

-- The loop of `memTotalBytes` over the lines.
unfoldable pub mem_total_lines : List Bytes → Option ℕ
unfolding first_field
mem_total_lines [] = none
mem_total_lines (line ∷ lines) = elim (cut_prefix line (codes "MemTotal:")) [
  | none ↦ mem_total_lines lines
  | some rest ↦ first_field (fields rest)
]

-- `memTotalBytes`; the argument is `none` if the report cannot be read.
unfoldable pub mem_total_bytes : Option Bytes → Option ℕ
unfolding mem_total_lines
mem_total_bytes none = none
mem_total_bytes (some content) = mem_total_lines (split content 10)

-- What the walk over a directory visits: an entry that cannot be read, a directory, a file whose
-- size is unknown, and a file with its size.
pub data Visit : Type 0 where
  failed directory unsized : Visit
  file : ℕ → Visit

unfoldable pub total_visits : ℕ → List Visit → Option ℕ
unfolding add_int64
total_visits total [] = some total
total_visits total (failed ∷ vs) = none
total_visits total (directory ∷ vs) = total_visits total vs
total_visits total (unsized ∷ vs) = none
total_visits total (file size ∷ vs) = total_visits (add_int64 total size) vs

-- `dirBytes`
unfoldable pub dir_bytes : List Visit → Option ℕ
unfolding total_visits
dir_bytes vs = total_visits 0 vs

-- `memFractionFlagFor`
unfoldable pub mem_fraction_flag_for : Manifest → Bytes
mem_fraction_flag_for m =
    if equal m.runtime runtime_sglang
    then codes "--mem-fraction-static"
    else codes "--gpu-memory-utilization"

-- The engine's share, the checkpoint and the pool of a start that is refused.
pub data Refused : Type 0 where
  refused : ℕ → ℕ → ℕ → Refused

-- The comparison at the end of `CheckMemoryBudget`.
unfoldable pub compare_budget : ℕ → ℕ → ℕ → Result Refused (Unit {0})
unfolding add_int64 le_int64
compare_budget engine ckpt total =
    if le_int64 (add_int64 (add_int64 engine ckpt) host_floor_bytes) total
    then ok tt
    else err (refused engine ckpt total)

module _ (F : Floats) where
  open F use {Float, parse_float, le_float, zero_float, share}

  abbrev positive_fraction : Option Float → Option Float
  positive_fraction none = none
  positive_fraction (some f) = if le_float f zero_float then none else some f

  -- `engineFraction`; `none` is the result with `ok` false.
  unfoldable pub engine_fraction : Manifest → Option Float
  unfolding flag_value mem_fraction_flag_for
  engine_fraction m = elim (flag_value m.args (mem_fraction_flag_for m)) [
    | none ↦ none
    | some v ↦ positive_fraction (parse_float v)
  ]

  abbrev pub budget_of : Option ℕ → Option Float → Option ℕ → Result Refused (Unit {0})
  unfolding compare_budget
  budget_of none f ckpt = ok tt
  budget_of (some total) none ckpt = ok tt
  budget_of (some total) (some f) none = ok tt
  budget_of (some total) (some f) (some ckpt) = compare_budget (share f total) ckpt total

  -- `CheckMemoryBudget`, for the report of the kernel and the walk over the weights.
  unfoldable pub check_memory_budget :
      Manifest → Option Bytes → List Visit → Result Refused (Unit {0})
  unfolding mem_total_bytes engine_fraction dir_bytes budget_of
  check_memory_budget m report visits =
      if not (equal m.gpu.type gpu_type_gb10)
      then ok tt
      else budget_of (mem_total_bytes report) (engine_fraction m) (dir_bytes visits)

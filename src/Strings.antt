-- ===== src/Strings.antt =====
-- Go strings as their bytes, with what the program uses of the packages strings, strconv and
-- unicode. White space and letters are those of ASCII.
pub mod Laws
pub mod Numbers
pub mod Sorting
pub mod Decimal
use Prim.Native.Char.{code}
use llmops.Prelude.{
  ℕ, zero, suc, ◌+◌, ◌-◌, ◌≡◌, refl, ◌↔◌, Bool, true, false, not, ◌&&◌, ◌||◌, Option, none, some,
  List, [], ◌∷◌, ◌++◌, String, ltb, leb, ◌==◌, if◌then◌else◌, length, arith,
}

abbrev pub Bytes : Type 0
Bytes = List ℕ

-- The bytes of a literal, which is ASCII.
unfoldable pub codes : String → Bytes
codes String.[] = []
codes (String.◌∷◌ c s) = code c ∷ codes s

-- a == b
unfoldable pub equal : Bytes → Bytes → Bool
equal [] [] = true
equal [] (y ∷ ys) = false
equal (x ∷ xs) [] = false
equal (x ∷ xs) (y ∷ ys) = x == y && equal xs ys

abbrev pub is_empty : Bytes → Bool
is_empty [] = true
is_empty (c ∷ cs) = false

-- The order of sort.Strings.
unfoldable pub before : Bytes → Bytes → Bool
before [] ys = true
before (x ∷ xs) [] = false
before (x ∷ xs) (y ∷ ys) = ltb x y || (x == y && before xs ys)

-- strings.CutPrefix; `none` is the result with `found` false.
unfoldable pub cut_prefix : Bytes → Bytes → Option Bytes
cut_prefix s [] = some s
cut_prefix [] (p ∷ ps) = none
cut_prefix (c ∷ cs) (p ∷ ps) = if c == p then cut_prefix cs ps else none

unfoldable pub has_prefix : Bytes → Bytes → Bool
has_prefix s p = elim (cut_prefix s p) [ none ↦ false | some _ ↦ true ]

unfoldable pub trim_prefix : Bytes → Bytes → Bytes
trim_prefix s p = elim (cut_prefix s p) [ none ↦ s | some rest ↦ rest ]

abbrev cons_some : ℕ → Option Bytes → Option Bytes
cons_some c none = none
cons_some c (some s) = some (c ∷ s)

-- strings.CutSuffix
unfoldable pub cut_suffix : Bytes → Bytes → Option Bytes
unfolding equal
cut_suffix [] p = if is_empty p then some [] else none
cut_suffix (c ∷ cs) p = if equal (c ∷ cs) p then some [] else cons_some c (cut_suffix cs p)

unfoldable pub trim_suffix : Bytes → Bytes → Bytes
unfolding cut_suffix
trim_suffix s p = elim (cut_suffix s p) [ none ↦ s | some rest ↦ rest ]

abbrev cons_fst : ℕ → Option (Bytes × Bytes) → Option (Bytes × Bytes)
cons_fst c none = none
cons_fst c (some (a, b)) = some (c ∷ a, b)

-- strings.Cut at one byte; `none` is the result with `found` false.
unfoldable pub cut : Bytes → ℕ → Option (Bytes × Bytes)
cut [] sep = none
cut (c ∷ cs) sep = if c == sep then some ([], cs) else cons_fst c (cut cs sep)

abbrev pub cons_head : ℕ → List Bytes → List Bytes
cons_head c [] = (c ∷ []) ∷ []
cons_head c (w ∷ ws) = (c ∷ w) ∷ ws

-- strings.Split at one byte.
unfoldable pub split : Bytes → ℕ → List Bytes
split [] sep = [] ∷ []
split (c ∷ cs) sep = let rest = split cs sep in if c == sep then [] ∷ rest else cons_head c rest

unfoldable pub join : List Bytes → Bytes → Bytes
join [] sep = []
join (w ∷ []) sep = w
join (w ∷ v ∷ ws) sep = w ++ (sep ++ join (v ∷ ws) sep)

abbrev pub is_space : ℕ → Bool
is_space c = c == 32 || (leb 9 c && leb c 13)

unfoldable pub trim_left : Bytes → Bytes
trim_left [] = []
trim_left (c ∷ cs) = let rest = trim_left cs in if is_space c then rest else c ∷ cs

-- A trailing space is dropped together with what is dropped behind it.
unfoldable pub trim_right : Bytes → Bytes
trim_right [] = []
trim_right (c ∷ cs) =
    let rest = trim_right cs in if is_space c && is_empty rest then [] else c ∷ rest

unfoldable pub trim_space : Bytes → Bytes
unfolding trim_left trim_right
trim_space s = trim_right (trim_left s)

abbrev pub close_field : Bytes → List Bytes → List Bytes
close_field [] ws = ws
close_field (c ∷ w) ws = (c ∷ w) ∷ ws

-- `word` is the field read so far.
unfoldable pub fields_onto : Bytes → Bytes → List Bytes
fields_onto word [] = close_field word []
fields_onto word (c ∷ cs) =
    let next = close_field word (fields_onto [] cs) in
    let more = fields_onto (word ++ c ∷ []) cs in if is_space c then next else more

-- strings.Fields
unfoldable pub fields : Bytes → List Bytes
unfolding fields_onto
fields s = fields_onto [] s

unfoldable pub contains_byte : ℕ → Bytes → Bool
contains_byte b [] = false
contains_byte b (c ∷ cs) = c == b || contains_byte b cs

-- strings.Contains
unfoldable pub contains : Bytes → Bytes → Bool
unfolding has_prefix cut_prefix
contains [] p = is_empty p
contains (c ∷ cs) p = has_prefix (c ∷ cs) p || contains cs p

-- strings.ReplaceAll of one byte.
unfoldable pub replace_byte : ℕ → Bytes → Bytes → Bytes
replace_byte old new [] = []
replace_byte old new (c ∷ cs) = (if c == old then new else c ∷ []) ++ replace_byte old new cs

-- The first `skip` bytes belong to a match that has been replaced.
replace_from : Bytes → Bytes → ℕ → Bytes → Bytes
unfolding has_prefix cut_prefix
replace_from old new skip [] = []
replace_from old new (suc skip) (c ∷ cs) = replace_from old new skip cs
replace_from old new zero (c ∷ cs) =
    let matched = new ++ replace_from old new (length old - 1) cs in
    let kept = c ∷ replace_from old new zero cs in if has_prefix (c ∷ cs) old then matched else kept

-- strings.ReplaceAll of a text that is not empty.
unfoldable pub replace_all : Bytes → Bytes → Bytes → Bytes
unfolding replace_from
replace_all s old new = replace_from old new zero s

unfoldable pub lower_byte : ℕ → ℕ
lower_byte c = if leb b'A' c && leb c b'Z' then c + 32 else c

unfoldable pub to_lower : Bytes → Bytes
unfolding lower_byte
to_lower [] = []
to_lower (c ∷ cs) = lower_byte c ∷ to_lower cs

-- What follows the last `sep`, or the whole text.
unfoldable pub after_last : ℕ → Bytes → Bytes
unfolding contains_byte
after_last sep [] = []
after_last sep (c ∷ cs) =
    let rest = after_last sep cs in
    if contains_byte sep cs then rest else if c == sep then cs else c ∷ cs

-- slices.Contains
unfoldable pub has_member : List Bytes → Bytes → Bool
unfolding equal
has_member [] w = false
has_member (v ∷ vs) w = equal v w || has_member vs w

-- sort.Strings, as an insertion sort.
insert_sorted : Bytes → List Bytes → List Bytes
unfolding before
insert_sorted w [] = w ∷ []
insert_sorted w (v ∷ vs) = if before w v then w ∷ v ∷ vs else v ∷ insert_sorted w vs

unfoldable pub sort : List Bytes → List Bytes
unfolding insert_sorted
sort [] = []
sort (w ∷ ws) = insert_sorted w (sort ws)

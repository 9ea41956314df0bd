-- ===== src/Cli/Flags.antt =====
-- What cmd/fornax uses of Go's package flag: a set of flags with their kinds, and Parse, which stops
-- at the first argument that is no flag. The texts of integers and durations are read by arguments.
use llmops.Prelude.{
  Bool, true, false, not, ◌||◌, Option, none, some, List, [], ◌∷◌, if◌then◌else◌, ℤ, ◌==◌,
}
use llmops.Strings.{Bytes, codes, equal, cut, has_member}

pub data Kind : Type 0 where
  string whole truth duration : Kind

pub record Flag : Type 0 where
  pub name : Bytes
  pub kind : Kind

-- strconv.ParseInt in base 0, and time.ParseDuration in nanoseconds.
pub record Scanners : Type 0 where
  pub scan_int : Bytes → Option ℤ
  pub scan_duration : Bytes → Option ℤ

-- strconv.ParseBool
unfoldable pub parse_bool : Bytes → Option Bool
unfolding has_member
parse_bool s =
    if has_member
      (codes "1" ∷ codes "t" ∷ codes "T" ∷ codes "true" ∷ codes "TRUE" ∷ codes "True" ∷ []) s
    then some true
    else if has_member
        (codes "0" ∷ codes "f" ∷ codes "F" ∷ codes "false" ∷ codes "FALSE" ∷ codes "False" ∷ []) s
    then some false
    else none

abbrev is_some : {A : Type 0} → Option A → Bool
is_some none = false
is_some (some a) = true

-- Whether a flag of the kind can be set to the text.
unfoldable pub accepts : Scanners → Kind → Bytes → Bool
unfolding parse_bool
accepts sc string v = true
accepts sc whole v = is_some (sc.scan_int v)
accepts sc truth v = is_some (parse_bool v)
accepts sc duration v = is_some (sc.scan_duration v)

unfoldable pub kind_of : List Flag → Bytes → Option Kind
unfolding equal
kind_of [] n = none
kind_of (f ∷ fs) n = if equal f.name n then some f.kind else kind_of fs n

-- What one argument is.
pub data Token : Type 0 where
  positional terminator malformed : Token
  flag_token : Bytes → Option Bytes → Token

-- The name and the value of a flag, behind its dashes.
unfoldable pub name_token : Bytes → Token
unfolding cut
name_token [] = malformed
name_token (c ∷ n) = if c == b'-' || c == b'=' then malformed else elim (cut (c ∷ n) b'=') [
  | none ↦ flag_token (c ∷ n) none
  | some (k, v) ↦ flag_token k (some v)
]

-- The start of `parseOne`.
unfoldable pub token_of : Bytes → Token
unfolding name_token
token_of [] = positional
token_of (c ∷ []) = positional
token_of (c ∷ d ∷ rest) =
    if not (c == b'-')
    then positional
    else if not (d == b'-')
    then name_token (d ∷ rest)
    else elim rest [ [] ↦ terminator | e ∷ more ↦ name_token (e ∷ more) ]

-- The values that are set, the last one first; a flag that is not there has its default.
abbrev pub Settings : Type 0
Settings = List (Bytes × Bytes)

-- Where the loop stands after an argument.
pub data Next : Type 0 where
  stop failure : Next
  set : Bytes → Bytes → Next
  wait : Bytes → Kind → Next

abbrev pub with_kind : Scanners → Bytes → Option Bytes → Kind → Next
unfolding accepts
with_kind sc n (some v) k = if accepts sc k v then set n v else failure
with_kind sc n none truth = set n (codes "true")
with_kind sc n none string = wait n string
with_kind sc n none whole = wait n whole
with_kind sc n none duration = wait n duration

abbrev pub with_token : Scanners → List Flag → Token → Next
unfolding kind_of with_kind
with_token sc fs positional = stop
with_token sc fs terminator = stop
with_token sc fs malformed = failure
with_token sc fs (flag_token n v) = elim (kind_of fs n) [
  | none ↦ failure
  | some k ↦ with_kind sc n v k
]

-- The loop of Parse over the arguments; a flag without a value waits for the next argument.
unfoldable pub parse_onto :
    Scanners → List Flag → Option (Bytes × Kind) → Settings → List Bytes → Option Settings
unfolding token_of with_token
parse_onto sc fs none got [] = some got
parse_onto sc fs (some (n, k)) got [] = none
parse_onto sc fs (some (n, k)) got (a ∷ rest) = elim (accepts sc k a) [
  | true ↦ parse_onto sc fs none ((n, a) ∷ got) rest
  | false ↦ none
]
parse_onto sc fs none got (a ∷ rest) = elim (with_token sc fs (token_of a)) [
  | stop ↦ some got
  | failure ↦ none
  | set n v ↦ parse_onto sc fs none ((n, v) ∷ got) rest
  | wait n k ↦ parse_onto sc fs (some (n, k)) got rest
]

-- (*FlagSet).Parse; `none` is an error, which is also what -h is.
unfoldable pub parse_flags : Scanners → List Flag → List Bytes → Option Settings
unfolding parse_onto
parse_flags sc fs args = parse_onto sc fs none [] args

-- The values of the flags after Parse.
unfoldable pub string_of : Settings → Bytes → Bytes → Bytes
unfolding equal
string_of [] n default = default
string_of ((k, v) ∷ got) n default = if equal k n then v else string_of got n default

abbrev or_int : Option ℤ → ℤ → ℤ
or_int none default = default
or_int (some z) default = z

unfoldable pub int_of : Scanners → Settings → Bytes → ℤ → ℤ
unfolding equal
int_of sc [] n default = default
int_of sc ((k, v) ∷ got) n default =
    if equal k n then or_int (sc.scan_int v) default else int_of sc got n default

unfoldable pub duration_of : Scanners → Settings → Bytes → ℤ → ℤ
unfolding equal
duration_of sc [] n default = default
duration_of sc ((k, v) ∷ got) n default =
    if equal k n then or_int (sc.scan_duration v) default else duration_of sc got n default

abbrev or_false : Option Bool → Bool
or_false none = false
or_false (some b) = b

unfoldable pub bool_of : Settings → Bytes → Bool
unfolding equal parse_bool
bool_of [] n = false
bool_of ((k, v) ∷ got) n = if equal k n then or_false (parse_bool v) else bool_of got n

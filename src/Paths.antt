-- ===== src/Paths.antt =====
-- File paths: what the program uses of Go's path/filepath, on a system whose separator is "/".
pub mod Laws
use llmops.Prelude.{Bool, true, false, ◌&&◌, ◌||◌, List, [], ◌∷◌, if◌then◌else◌, ◌==◌}
use llmops.Strings.{Bytes, codes, contains_byte, equal, is_empty, split, join, after_last}

-- The kept components, the last one first; ".." takes one away, and stays where there is none.
pub pop_component : Bool → List Bytes → List Bytes
pop_component true [] = []
pop_component false [] = codes ".." ∷ []
pop_component rooted (c ∷ cs) = if equal c (codes "..") then codes ".." ∷ c ∷ cs else cs

clean_onto : Bool → List Bytes → List Bytes → List Bytes
unfolding equal codes pop_component
clean_onto rooted kept [] = kept
clean_onto rooted kept (c ∷ cs) =
    clean_onto rooted
      (if is_empty c || equal c (codes ".")
        then kept
        else if equal c (codes "..")
        then pop_component rooted kept
        else c ∷ kept)
      cs

backwards : List Bytes → List Bytes → List Bytes
backwards [] out = out
backwards (c ∷ cs) out = backwards cs (c ∷ out)

abbrev pub is_rooted : Bytes → Bool
is_rooted [] = false
is_rooted (c ∷ cs) = equal (c ∷ []) (codes "/")

abbrev pub dot_if_empty : Bytes → Bytes
dot_if_empty [] = codes "."
dot_if_empty (c ∷ cs) = c ∷ cs

-- filepath.Clean
unfoldable pub clean : Bytes → Bytes
unfolding clean_onto backwards split join
clean p =
    let parts = join (backwards (clean_onto (is_rooted p) [] (split p b'/')) []) (codes "/") in
    if is_rooted p then b'/' ∷ parts else dot_if_empty parts

drop_empty : List Bytes → List Bytes
drop_empty [] = []
drop_empty (c ∷ cs) = let rest = drop_empty cs in if is_empty c then rest else c ∷ rest

abbrev pub clean_parts : List Bytes → Bytes
clean_parts [] = []
clean_parts (c ∷ cs) = clean (join (c ∷ cs) (codes "/"))

-- filepath.Join; no elements but empty ones give the empty path.
unfoldable pub join_path : List Bytes → Bytes
unfolding clean drop_empty
join_path parts = clean_parts (drop_empty parts)

-- A slash is dropped together with what is dropped behind it.
unfoldable pub trim_slashes : Bytes → Bytes
trim_slashes [] = []
trim_slashes (c ∷ cs) =
    let rest = trim_slashes cs in if c == b'/' && is_empty rest then [] else c ∷ rest

-- filepath.Base
unfoldable pub base : Bytes → Bytes
unfolding after_last trim_slashes
base p =
    if is_empty p
    then codes "."
    else if is_empty (trim_slashes p)
    then codes "/"
    else after_last b'/' (trim_slashes p)

-- What stands in front of the last slash, that slash included.
up_to_slash : Bytes → Bytes
unfolding contains_byte
up_to_slash [] = []
up_to_slash (c ∷ cs) =
    let rest = up_to_slash cs in
    if contains_byte b'/' cs then c ∷ rest else if c == b'/' then c ∷ [] else []

-- filepath.Dir
unfoldable pub dir : Bytes → Bytes
unfolding clean up_to_slash
dir p = clean (up_to_slash p)

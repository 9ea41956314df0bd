-- ===== src/Deploycheck/Yaml.antt =====
-- Decoded YAML, as the deploy check reads it (`any` of gopkg.in/yaml.v3), with `dig`, `splitDocs` and
-- what fmt.Sprint prints of a value.
pub mod Holds
use llmops.Prelude.{
  ℕ, Bool, true, false, Option, none, some, List, [], ◌∷◌, ◌++◌, if◌then◌else◌, Result, ok, err, ℤ,
  pos,
}
use llmops.Strings.{Bytes, codes, equal}
use llmops.Strings.Numbers.{itoa_int}

-- `scalar` is a boolean, a float, a time or another value that is none of the others, with the text
-- that is printed of it; a map has its entries in the order of their keys.
mutual
  pub data Yaml : Type 0 where
    null : Yaml
    text : Bytes → Yaml
    int : ℤ → Yaml
    scalar : Bytes → Yaml
    sequence : Items → Yaml
    dict : Entries → Yaml

  pub data Items : Type 0 where
    no_item : Items
    item : Yaml → Items → Items

  pub data Entries : Type 0 where
    no_entry : Entries
    entry : Bytes → Yaml → Entries → Entries

-- m[k]
unfoldable pub entry_at : Entries → Bytes → Yaml
entry_at no_entry k = null
entry_at (entry j v es) k = if equal j k then v else entry_at es k

-- `dig`
unfoldable pub dig : Yaml → List Bytes → Yaml
unfolding entry_at
dig v [] = v
dig (dict es) (k ∷ ks) = dig (entry_at es k) ks
dig v (k ∷ ks) = null

-- v.(string), v.(int), v.([]any) and v.(map[string]any), each with the zero value of the type where
-- the value has another one.
abbrev pub as_text : Yaml → Bytes
as_text (text s) = s
as_text v = []

abbrev pub as_int : Yaml → ℤ
as_int (int n) = n
as_int v = pos 0

abbrev pub as_items : Yaml → Items
as_items (sequence is) = is
as_items v = no_item

abbrev pub as_entries : Yaml → Entries
as_entries (dict es) = es
as_entries v = no_entry

abbrev pub is_null : Yaml → Bool
is_null null = true
is_null v = false

-- fmt.Sprint; the texts of a sequence or a map are parted by spaces.
unfoldable mutual
  unfolding itoa_int

  pub print : Yaml → Bytes
  print null = codes "<nil>"
  print (text s) = s
  print (int n) = itoa_int n
  print (scalar s) = s
  print (sequence is) = b'[' ∷ (print_items is ++ codes "]")
  print (dict es) = codes "map[" ++ (print_entries es ++ codes "]")

  print_items : Items → Bytes
  print_items no_item = []
  print_items (item v is) = print v ++ print_more is

  print_more : Items → Bytes
  print_more no_item = []
  print_more (item v is) = b' ' ∷ (print v ++ print_more is)

  print_entries : Entries → Bytes
  print_entries no_entry = []
  print_entries (entry k v es) = k ++ b':' ∷ (print v ++ print_others es)

  print_others : Entries → Bytes
  print_others no_entry = []
  print_others (entry k v es) = b' ' ∷ (k ++ b':' ∷ (print v ++ print_others es))

-- What one call of the decoder yields, the end of the file aside.
pub data Decoded : Type 0 where
  broken nil_document : Decoded
  document : Entries → Decoded

pub data DocsError : Type 0 where
  not_decoded empty_yaml : DocsError

abbrev at_least_one : List Entries → Result DocsError (List Entries)
at_least_one [] = err empty_yaml
at_least_one (d ∷ ds) = ok (d ∷ ds)

-- The loop of `splitDocs`.
unfoldable pub collect_docs : List Decoded → List Entries → Result DocsError (List Entries)
collect_docs [] docs = at_least_one docs
collect_docs (broken ∷ ds) docs = err not_decoded
collect_docs (nil_document ∷ ds) docs = collect_docs ds docs
collect_docs (document d ∷ ds) docs = collect_docs ds (docs ++ d ∷ [])

-- `splitDocs`
unfoldable pub split_docs : List Decoded → Result DocsError (List Entries)
unfolding collect_docs
split_docs ds = collect_docs ds []

-- ===== src/Mirror/Store/S5cmd.antt =====
-- `S5cmdStore` (internal/mirror/store.go): the store behind the program s5cmd, which is an argument
-- with what is documented of it as hypotheses. A local file is handed over by its content; fmt.Sscan
-- of a number is an argument too.
pub mod Lawful
use llmops.Prelude.{
  ℕ, ◌≡◌, ◌≢◌, refl, Bool, true, false, not, ◌&&◌, Option, none, some, List, [], ◌∷◌, ◌++◌,
  if◌then◌else◌, Result, ok, err, length,
}
use llmops.Strings.{Bytes, codes, is_empty, trim_space, trim_prefix, split, fields, cut_suffix}
use llmops.Strings.Numbers.{itoa}
use llmops.Mirror.Effects.{Eff}
use llmops.Mirror.Store.{Store, StoreError, failed, IsLawful}

-- How the program ends: with its output, or with a failure and what it has written to stderr.
pub data Ran : Type 0 where
  printed exited : Bytes → Ran

pub data Download : Type 0 where
  downloaded refused : Bytes → Download

-- `s5cmd cp` in both directions, `s5cmd ls`, and what the methods use beside it.
pub record Outside : Type 1 where
  pub State : Type 0
  pub upload : Bytes → Bytes → State → Ran × State
  pub download : Bytes → State → Download
  pub ls : Bytes → State → Ran
  pub scan : Bytes → Option ℕ
  pub makes_temp : Bool
  pub hash : Bytes → Bytes

abbrev has_suffix : Bytes → Bytes → Bool
unfolding cut_suffix
has_suffix s p = elim (cut_suffix s p) [ none ↦ false | some _ ↦ true ]

-- An error of the program, with something on stderr that says that the object is not there.
unfoldable pub no_object : Bytes → Bool
unfolding has_suffix trim_space
no_object stderr =
    not (is_empty stderr) && has_suffix (trim_space stderr) (codes ": no object found")

abbrev pub third : List Bytes → Option Bytes
third (a ∷ b ∷ c ∷ fs) = some c
third fs = none

module _ (w : Outside) (prefix : Bytes) where
  open w use {State, upload, download, ls, scan, makes_temp, hash}

  abbrev pub put_result : Bytes → Ran → Result StoreError (Unit {0})
  put_result remote (printed out) = ok tt
  put_result remote (exited stderr) = err (failed remote)

  -- `(*S5cmdStore).Put`
  unfoldable pub s5cmd_put : Bytes → Bytes → Eff State StoreError (Unit {0})
  s5cmd_put c remote s = let r = upload c (prefix ++ remote) s in (put_result remote r.0, r.1)

  abbrev pub get_result : Bytes → Download → Result StoreError Bytes
  get_result remote (downloaded c) = ok c
  get_result remote (refused stderr) = err (failed remote)

  -- `(*S5cmdStore).Get`
  unfoldable pub s5cmd_get : Bytes → State → Result StoreError Bytes
  s5cmd_get remote s = get_result remote (download (prefix ++ remote) s)

  abbrev pub scanned : Bytes → Option ℕ → Result StoreError (Option ℕ)
  scanned remote none = err (failed remote)
  scanned remote (some n) = ok (some n)

  abbrev pub size_field : Bytes → Option Bytes → Result StoreError (Option ℕ)
  size_field remote none = err (failed remote)
  size_field remote (some f) = scanned remote (scan f)

  abbrev pub size_result : Bytes → Ran → Result StoreError (Option ℕ)
  unfolding no_object
  size_result remote (exited stderr) = if no_object stderr then ok none else err (failed remote)
  size_result remote (printed out) = size_field remote (third (fields (trim_space out)))

  -- `(*S5cmdStore).Size`
  unfoldable pub s5cmd_size : Bytes → State → Result StoreError (Option ℕ)
  unfolding size_result
  s5cmd_size remote s = size_result remote (ls (prefix ++ remote) s)

  abbrev pub hash_result : Result StoreError Bytes → Result StoreError Bytes
  hash_result (ok c) = ok (hash c)
  hash_result (err e) = err e

  -- `(*S5cmdStore).SHA256`, which downloads to a temporary file.
  unfoldable pub s5cmd_sha256 : Bytes → State → Result StoreError Bytes
  unfolding s5cmd_get
  s5cmd_sha256 remote s =
      if not makes_temp then err (failed remote) else hash_result (s5cmd_get remote s)

  abbrev last_of : Bytes → List Bytes → Bytes
  last_of f [] = f
  last_of f (g ∷ gs) = last_of g gs

  abbrev listed : List Bytes → List Bytes → List Bytes
  unfolding trim_prefix
  listed [] rest = rest
  listed (f ∷ fs) rest = trim_prefix (last_of f fs) prefix ∷ rest

  -- The loop of `List` over the lines.
  unfoldable pub list_lines : List Bytes → List Bytes
  unfolding listed
  list_lines [] = []
  list_lines (line ∷ lines) = listed (fields line) (list_lines lines)

  abbrev list_result : Ran → Result StoreError (List Bytes)
  unfolding list_lines
  list_result (exited stderr) = err (failed [])
  list_result (printed out) = ok (list_lines (split (trim_space out) 10))

  -- `(*S5cmdStore).List`
  unfoldable pub s5cmd_list : State → Result StoreError (List Bytes)
  unfolding list_result
  s5cmd_list s = list_result (ls (prefix ++ codes "*") s)

  abbrev pub s5cmd_store : Store
  s5cmd_store = record {
    State = State;
    put = s5cmd_put;
    get = s5cmd_get;
    size = s5cmd_size;
    sha256 = s5cmd_sha256;
  }

-- What is documented of s5cmd and S3: an upload that succeeds stores the object and touches no
-- other, one that fails changes nothing, a download yields what is stored, and a listing of a stored
-- object has its size in the third column. A decimal number is scanned as that number, and a
-- temporary file can be made.
pub record IsS5cmd (w : Outside) : Type 0 where
  pub object : Bytes → w.State → Option Bytes
  pub upload_stores :
      (c url out : Bytes) (s t : w.State)
      → w.upload c url s ≡ (printed out, t)
      → object url t ≡ some c
  pub upload_apart :
      (c url other out : Bytes) (s t : w.State)
      → w.upload c url s ≡ (printed out, t)
      → url ≢ other
      → object other t ≡ object other s
  pub upload_fails :
      (c url stderr : Bytes) (s t : w.State) → w.upload c url s ≡ (exited stderr, t) → t ≡ s
  pub download_stored :
      (c url : Bytes) (s : w.State) → object url s ≡ some c → w.download url s ≡ downloaded c
  pub download_absent :
      (url : Bytes) (s : w.State)
      → object url s ≡ none
      → (stderr : Bytes) × (w.download url s ≡ refused stderr)
  pub ls_stored :
      (c url : Bytes) (s : w.State)
      → object url s ≡ some c
      → (out : Bytes) × (a : Bytes) × (b : Bytes) × (rest : List Bytes) × (w.ls url s ≡ printed out)
        × (fields (trim_space out) ≡ a ∷ b ∷ itoa (length c) ∷ rest)
  pub scan_decimal : (n : ℕ) → w.scan (itoa n) ≡ some n
  pub temp_made : w.makes_temp ≡ true

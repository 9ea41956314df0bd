-- ===== src/Mirror/Pull.antt =====
-- `verifyLocal`, `Pull` and `Freeze` (internal/mirror/mirror.go), with `Resolve` and `Tree` of the
-- Hub client (internal/mirror/hf.go). What the Hub answers and what `hf download` does to the disk
-- are parameters.
pub mod Freeze
use llmops.Prelude.{
  ℕ, Bool, true, false, not, ◌&&◌, Option, none, some, List, [], ◌∷◌, ◌++◌, if◌then◌else◌, ◌==◌,
  Result, ok, err, ◌>>=◌, wrap, length,
}
use llmops.Strings.{Bytes, codes, equal, is_empty, trim_prefix}
use llmops.Paths.{join_path}
use llmops.Mirror.Policy.{TreeFile, PolicyError, check_policy}
use llmops.Mirror.Push.{FileEntry, StoreManifest, MirrorError, total_size, write_manifest}
use llmops.Mirror.Store.Local.{Files, local_store}

pub data PullError : Type 0 where
  hub_failed no_sha empty_tree download_failed : PullError
  policy : PolicyError → PullError
  not_local : Bytes → PullError
  local_size : Bytes → PullError
  local_sum : Bytes → PullError
  not_written : MirrorError → PullError

-- One raw entry of the Hub's tree.
pub record TreeEntry : Type 0 where
  pub type : Bytes
  pub path : Bytes
  pub size : ℕ
  pub lfs_oid : Option Bytes

abbrev lfs_sum : Option Bytes → Bytes
lfs_sum none = []
lfs_sum (some oid) = trim_prefix oid (codes "sha256:")

-- The loop of `Tree` over the raw entries.
unfoldable pub tree_files : List TreeEntry → List TreeFile
tree_files [] = []
tree_files (e ∷ es) =
    let rest = tree_files es in
    if equal e.type (codes "file")
    then record { path = e.path; size = e.size; sha256 = lfs_sum e.lfs_oid } ∷ rest
    else rest

abbrev pub not_empty : List TreeFile → Result PullError (List TreeFile)
not_empty [] = err empty_tree
not_empty (f ∷ fs) = ok (f ∷ fs)

-- The answers of the Hub by request path.
pub record Hub : Type 0 where
  pub sha_at : Bytes → Result PullError Bytes
  pub entries_at : Bytes → Result PullError (List TreeEntry)
  -- url.PathEscape
  pub escape : Bytes → Bytes

-- `Resolve`
unfoldable pub resolve : Hub → Bytes → Bytes → Result PullError Bytes
resolve hub repo revision = do
  sha ← hub.sha_at (
      codes "/api/models/"
      ++ (repo ++ (if is_empty revision then [] else codes "/revision/" ++ hub.escape revision)))
  if is_empty sha then err no_sha else ok sha

-- `Tree`
unfoldable pub tree : Hub → Bytes → Bytes → Result PullError (List TreeFile)
unfolding tree_files
tree hub repo sha = do
  raw ←
      hub.entries_at
        (codes "/api/models/" ++ (repo ++ (codes "/tree/" ++ (sha ++ codes "?recursive=true"))))
  not_empty (tree_files raw)

-- `Resolve`, `Tree` and `CheckPolicy`, with which `Pull` and `Freeze` begin.
unfoldable pub fetch_tree : Hub → Bytes → Bytes → Result PullError (Bytes × List TreeFile)
fetch_tree hub repo revision = do
  sha ← resolve hub repo revision
  files ← tree hub repo sha
  checked ← wrap policy (check_policy files)
  ok (sha, files)

module _ (hash : Bytes → Bytes) where
  -- One round of the loop of `verifyLocal`, on the content found at the file's path.
  unfoldable pub verify_entry : Option Bytes → TreeFile → Result PullError FileEntry
  verify_entry none f = err (not_local f.path)
  verify_entry (some c) f =
      if not (length c == f.size)
      then err (local_size f.path)
      else if not (is_empty f.sha256) && not (equal (hash c) f.sha256)
      then err (local_sum f.path)
      else ok (record { path = f.path; size = f.size; sha256 = hash c })

  -- `verifyLocal`
  unfoldable pub verify_local :
      (Bytes → Option Bytes) → Bytes → List TreeFile → Result PullError (List FileEntry)
  verify_local disk dir [] = ok []
  verify_local disk dir (f ∷ fs) =
      let rest = verify_local disk dir fs in
      verify_entry (disk (join_path (dir ∷ f.path ∷ []))) f >>= λ entry.
      rest >>= λ entries. ok (entry ∷ entries)

  abbrev pub download_then :
      Bytes
      → List TreeFile
      → Bytes
      → Bool × Files
      → Result PullError (Bytes × List FileEntry) × Files
  download_then dir files sha (false, fs) = (err download_failed, fs)
  download_then dir files sha (true, fs) =
      (verify_local fs.read dir files >>= λ entries. ok (sha, entries), fs)

  -- `Pull`; `download` runs `hf download repo --revision sha --local-dir dir`.
  unfoldable pub pull :
      Hub
      → (Bytes → Bytes → Bytes → Files → Bool × Files)
      → Bytes
      → Bytes
      → Bytes
      → Files
      → Result PullError (Bytes × List FileEntry) × Files
  pull hub download repo revision dir fs = elim (fetch_tree hub repo revision) [
    | err e ↦ (err e, fs)
    | ok (sha, files) ↦ elim (verify_local fs.read dir files) [
      | ok entries ↦ (ok (sha, entries), fs)
      | err _ ↦ download_then dir files sha (download repo sha dir fs)
    ]
  ]

  -- `Freeze`
  unfoldable pub freeze :
      (StoreManifest → Bytes)
      → Hub
      → Bytes
      → Bytes
      → Bytes
      → Bytes
      → Files
      → Result PullError Bytes × Files
  freeze encode hub now repo revision dir fs = elim (fetch_tree hub repo revision) [
    | err e ↦ (err e, fs)
    | ok (sha, files) ↦ elim (verify_local fs.read dir files) [
      | err e ↦ (err e, fs)
      | ok entries ↦
          let (r, fs') =
            write_manifest (local_store hash dir) encode now repo sha (total_size entries) entries
              fs in
          (wrap not_written r >>= λ _. ok sha, fs')
    ]
  ]

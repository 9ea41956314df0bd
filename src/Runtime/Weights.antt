-- ===== src/Runtime/Weights.antt =====
-- Preparing weights (internal/runtime/prep.go): a disk, a store that is only read, and locks. A
-- path on the disk may be missing, may fail `stat`, may be seen but not read, or holds a file. A call
-- that waits for a lock is modelled once it has returned.
pub mod Ready
pub mod Prepared
use llmops.Prelude.{
  ℕ, Bool, true, false, not, ◌&&◌, Option, none, some, List, [], ◌∷◌, if◌then◌else◌, ◌==◌, Result,
  ok, err, length, wrap,
}
use llmops.Strings.{Bytes, codes, equal, is_empty}
use llmops.Paths.{join_path, clean}
use llmops.Manifest.{
  Manifest, Speculator, load_local, load_s3_stream, load_nvme_cache, separate_head,
}
use llmops.Mirror.Effects.{Eff, pure, throw, guard, reading, ◌>>=◌, ◌>>◌}
use llmops.Mirror.Push.{FileEntry, StoreManifest, manifest_name}

pub data Entry : Type 0 where
  missing : Entry
  blocked : Entry
  unreadable : ℕ → Entry
  directory : ℕ → Entry
  file : Bytes → Entry

pub record Disk : Type 0 where
  pub look : Bytes → Entry
  pub writable : Bytes → Bool

-- What a store answers: an object, one that breaks off, or none.
pub data Fetched : Type 0 where
  got : Bytes → Fetched
  broken : Bytes → Fetched
  gone : Fetched

pub data WeightError : Type 0 where
  no_directory not_directory cannot_make cannot_lock no_manifest bad_manifest : WeightError
  fetch_failed mismatch_after_fetch stat_failed does_not_match : Bytes → WeightError

unfoldable pub write_file : Bytes → Bytes → Disk → Disk
write_file path c d = record d { look = λ p. if equal path p then file c else d.look p }

-- Everything outside: SHA-256, the manifest's decoder, the store, how flock returns for the lock of a
-- directory, and os.MkdirAll, with the disk that it leaves.
pub record Outside : Type 0 where
  pub hash : Bytes → Bytes
  pub decode : Bytes → Option StoreManifest
  pub fetch : Bytes → Fetched
  pub can_lock : Bytes → Bool
  pub make_all : Bytes → Disk → Bool × Disk

abbrev pub lock_path : Bytes → Bytes
lock_path dir = join_path (dir ∷ codes ".lock" ∷ [])

-- os.OpenFile with O_CREATE and O_RDWR.
unfoldable pub opened : Entry → Bytes → Disk → Option Disk
unfolding write_file
opened missing p d = if d.writable p then some (write_file p [] d) else none
opened (file c) p d = if d.writable p then some d else none
opened blocked p d = none
opened (unreadable n) p d = none
opened (directory n) p d = none

-- A stream cannot serve a head, which is fetched to the cache.
abbrev pub head_load : Bytes → Bytes
head_load load = if equal load load_s3_stream then load_nvme_cache else load

module _ (w : Outside) where
  -- `fileMatches`
  unfoldable pub file_matches : Entry → FileEntry → Result WeightError Bool
  file_matches missing f = ok false
  file_matches blocked f = err (stat_failed f.path)
  file_matches (unreadable n) f = if not (n == f.size) then ok false else err (stat_failed f.path)
  file_matches (directory n) f = if not (n == f.size) then ok false else err (stat_failed f.path)
  file_matches (file c) f =
      if not (length c == f.size) then ok false else ok (equal (w.hash c) f.sha256)

  abbrev pub local_of : Bytes → FileEntry → Bytes
  local_of dir f = join_path (dir ∷ f.path ∷ [])

  -- `store.Get` to a local path.
  unfoldable pub get_to : Fetched → Bytes → FileEntry → Eff Disk WeightError (Unit {0})
  unfolding write_file
  get_to gone local f d = (err (fetch_failed f.path), d)
  get_to (broken c) local f d =
      (err (fetch_failed f.path), if d.writable local then write_file local c d else d)
  get_to (got c) local f d =
      if d.writable local then (ok tt, write_file local c d) else (err (fetch_failed f.path), d)

  abbrev pub is_match : Result WeightError Bool → Bool
  is_match (ok b) = b
  is_match (err e) = false

  -- The rest of `ensureFile` after a miss.
  unfoldable pub refetch : Bytes → FileEntry → Eff Disk WeightError (Unit {0})
  refetch dir f = do
    get_to (w.fetch f.path) (local_of dir f) f
    same ← reading (λ t. file_matches (t.look (local_of dir f)) f)
    guard same (mismatch_after_fetch f.path)

  -- `ensureFile`: an error of the first look counts as a miss.
  unfoldable pub ensure_file : Bytes → FileEntry → Eff Disk WeightError (Unit {0})
  ensure_file dir f d =
      if is_match (file_matches (d.look (local_of dir f)) f) then (ok tt, d) else refetch dir f d

  unfoldable pub ensure_files : Bytes → List FileEntry → Eff Disk WeightError (Unit {0})
  ensure_files dir [] = pure tt
  ensure_files dir (f ∷ fs) = ensure_file dir f >> ensure_files dir fs

  abbrev decoded : Option StoreManifest → Result WeightError StoreManifest
  decoded none = err bad_manifest
  decoded (some sm) = ok sm

  -- `mirror.ReadManifest` of the store, and of the directory itself.
  unfoldable pub read_remote : Fetched → Result WeightError StoreManifest
  read_remote (got c) = decoded (w.decode c)
  read_remote (broken c) = err no_manifest
  read_remote gone = err no_manifest

  unfoldable pub read_local : Entry → Result WeightError StoreManifest
  read_local (file c) = decoded (w.decode c)
  read_local _ = err no_manifest

  -- One round of the loop of `verifyInPlace`.
  unfoldable pub check_in_place :
      Result WeightError Bool → FileEntry → Result WeightError (Unit {0})
  check_in_place (err e) f = err e
  check_in_place (ok true) f = ok tt
  check_in_place (ok false) f = err (does_not_match f.path)

  unfoldable pub check_files : Bytes → Disk → List FileEntry → Result WeightError (Unit {0})
  check_files dir d [] = ok tt
  check_files dir d (f ∷ fs) = elim (check_in_place (file_matches (d.look (local_of dir f)) f) f) [
    | err e ↦ err e
    | ok _ ↦ check_files dir d fs
  ]

  abbrev pub is_directory : Entry → Result WeightError (Unit {0})
  is_directory (directory n) = ok tt
  is_directory missing = err no_directory
  is_directory blocked = err no_directory
  is_directory (unreadable n) = err not_directory
  is_directory (file c) = err not_directory

  -- `lockDir`: what it has created stays where flock fails.
  unfoldable pub lock_dir : Bytes → Eff Disk WeightError (Unit {0})
  unfolding opened
  lock_dir dir d = elim (opened (d.look (lock_path dir)) (lock_path dir) d) [
    | none ↦ (err cannot_lock, d)
    | some t ↦ (if w.can_lock dir then ok tt else err cannot_lock, t)
  ]

  -- `verifyInPlace` behind the lock.
  unfoldable pub verify_locked : Bytes → Disk → Result WeightError Bytes
  verify_locked dir d = elim (read_local (d.look (join_path (dir ∷ manifest_name ∷ [])))) [
    | err e ↦ err e
    | ok sm ↦ elim (check_files dir d sm.files) [ err e ↦ err e | ok _ ↦ ok dir ]
  ]

  -- `verifyInPlace` on the cleaned path.
  unfoldable pub verify_in_place : Bytes → Eff Disk WeightError Bytes
  unfolding lock_dir
  verify_in_place dir = do
    reading (λ d. is_directory (d.look dir))
    lock_dir dir
    reading (verify_locked dir)

  -- os.MkdirAll of the directory.
  abbrev pub make_dir : Bytes → Eff Disk WeightError (Unit {0})
  make_dir dir d = let (made, t) = w.make_all dir d in (if made then ok tt else err cannot_make, t)

  -- The part of `prepareArtifact` that syncs from the store: behind the lock, and from the start.
  unfoldable pub fetch_all : Bytes → Eff Disk WeightError Bytes
  fetch_all dir = do
    sm ← reading (λ _. read_remote (w.fetch manifest_name))
    ensure_files dir sm.files
    pure dir

  unfoldable pub sync : Bytes → Eff Disk WeightError Bytes
  unfolding lock_dir fetch_all
  sync dir = do make_dir dir; lock_dir dir; fetch_all dir

  -- `prepareArtifact`; the joined path is clean.
  unfoldable pub prepare_artifact : Bytes → Bytes → Bytes → Bytes → Eff Disk WeightError Bytes
  prepare_artifact load repo revision cache_root d =
      let dir = join_path (cache_root ∷ repo ∷ revision ∷ []) in
      if equal load load_local then verify_in_place (clean dir) d else sync dir d

  -- `PrepareWeights`
  unfoldable pub prepare_weights : Manifest → Bytes → Eff Disk WeightError Bytes
  prepare_weights m cache_root d =
      if equal m.load load_s3_stream
      then (ok m.s3_prefix, d)
      else prepare_artifact m.load m.hf_repo m.revision cache_root d

  -- `PrepareDraft`
  unfoldable pub prepare_draft : Speculator → Bytes → Bytes → Eff Disk WeightError Bytes
  prepare_draft sp load cache_root d =
      if not (separate_head sp)
      then (ok [], d)
      else prepare_artifact (head_load load) sp.hf_repo sp.revision cache_root d

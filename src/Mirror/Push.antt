-- ===== src/Mirror/Push.antt =====
-- `Push`, `writeManifest`, `ReadManifest` and `Verify` (internal/mirror/mirror.go), over any store.
-- The local disk is what the state says of it, since a store can lie on it too; a file is read when it
-- is put. JSON is an encoder and a decoder, and the clock is the text of `MirroredAt`. Progress lines are left out; the temporary file that holds the
-- encoded manifest is taken to be writable.
pub mod Laws
pub mod Complete
use llmops.Prelude.{
  ℕ, ◌+◌, Bool, true, false, Option, none, some, List, [], ◌∷◌, if◌then◌else◌, ◌==◌, Result, ok,
  err, wrap,
}
use llmops.Strings.{Bytes, codes, equal}
use llmops.Paths.{join_path}
use llmops.Mirror.Effects.{Eff, pure, throw, reading, ◌>>=◌, ◌>>◌}
use llmops.Mirror.Store.{Store, StoreError}

abbrev pub manifest_name : Bytes
manifest_name = codes "_manifest.json"

pub record FileEntry : Type 0 where
  pub path : Bytes
  pub size : ℕ
  pub sha256 : Bytes

pub record StoreManifest : Type 0 where
  pub hf_repo : Bytes
  pub revision : Bytes
  pub mirrored_at : Bytes
  pub total_bytes : ℕ
  pub files : List FileEntry

pub data MirrorError : Type 0 where
  in_store : StoreError → MirrorError
  no_local_file : Bytes → MirrorError
  incomplete : StoreError → MirrorError
  unparsed : MirrorError
  wrong_size : Bytes → MirrorError
  wrong_sum : Bytes → MirrorError

-- The sum over the files.
unfoldable pub total_size : List FileEntry → ℕ
total_size [] = 0
total_size (f ∷ fs) = f.size + total_size fs

-- The manifest of a push at the time `now`.
abbrev pub manifest_of : Bytes → Bytes → Bytes → List FileEntry → StoreManifest
manifest_of now repo sha files = record {
  hf_repo = repo;
  revision = sha;
  mirrored_at = now;
  total_bytes = total_size files;
  files = files;
}

abbrev pub is_size : Option ℕ → ℕ → Bool
is_size none n = false
is_size (some k) n = k == n

module _ (S : Store) where
  open S use {State, put, get, size, sha256}

  abbrev pub lift : {A : Type 0} → Eff State StoreError A → Eff State MirrorError A
  lift m s = let r = m s in (wrap in_store r.0, r.1)

  -- The call of `Put` on a local file.
  unfoldable pub upload :
      (State → Bytes → Option Bytes) → Bytes → FileEntry → Eff State MirrorError (Unit {0})
  upload disk dir f s = elim (disk s (join_path (dir ∷ f.path ∷ []))) [
    | none ↦ (err (no_local_file f.path), s)
    | some c ↦ lift (put c f.path) s
  ]

  -- One round of the loop of `Push`: what is there with the right size and content is skipped.
  unfoldable pub push_file :
      (State → Bytes → Option Bytes) → Bytes → FileEntry → Eff State MirrorError (Unit {0})
  push_file disk dir f = do
    found ← lift (reading (size f.path))
    if is_size found f.size
        then (do
          sum ← lift (reading (sha256 f.path))
          if equal sum f.sha256 then pure tt else upload disk dir f)
        else upload disk dir f

  unfoldable pub push_files :
      (State → Bytes → Option Bytes) → Bytes → List FileEntry → Eff State MirrorError (Unit {0})
  push_files disk dir [] = pure tt
  push_files disk dir (f ∷ fs) = push_file disk dir f >> push_files disk dir fs

  module _ (encode : StoreManifest → Bytes) where
    -- `writeManifest`
    unfoldable pub write_manifest :
        Bytes → Bytes → Bytes → ℕ → List FileEntry → Eff State MirrorError (Unit {0})
    write_manifest now repo sha total files = lift (
        put
          (encode (record {
            hf_repo = repo;
            revision = sha;
            mirrored_at = now;
            total_bytes = total;
            files = files;
          }))
          manifest_name)

    -- `Push`
    unfoldable pub push :
        (State → Bytes → Option Bytes)
        → Bytes
        → Bytes
        → Bytes
        → Bytes
        → List FileEntry
        → Eff State MirrorError (Unit {0})
    push disk now repo sha dir files =
        push_files disk dir files >> write_manifest now repo sha (total_size files) files

  -- `ReadManifest`
  unfoldable pub read_manifest :
      (Bytes → Option StoreManifest) → State → Result MirrorError StoreManifest
  read_manifest decode s = elim (get manifest_name s) [
    | err e ↦ err (incomplete e)
    | ok c ↦ elim (decode c) [ none ↦ err unparsed | some sm ↦ ok sm ]
  ]

  -- One round of the loop of `Verify`.
  unfoldable pub verify_file : FileEntry → State → Result MirrorError (Unit {0})
  verify_file f s = elim (size f.path s) [
    | err e ↦ err (in_store e)
    | ok n ↦
        if is_size n f.size
        then elim (sha256 f.path s) [
          | err e ↦ err (in_store e)
          | ok sum ↦ if equal sum f.sha256 then ok tt else err (wrong_sum f.path)
        ]
        else err (wrong_size f.path)
  ]

  unfoldable pub verify_files : List FileEntry → State → Result MirrorError (Unit {0})
  verify_files [] s = ok tt
  verify_files (f ∷ fs) s = elim (verify_file f s) [ err e ↦ err e | ok _ ↦ verify_files fs s ]

  -- `Verify`
  unfoldable pub verify : (Bytes → Option StoreManifest) → State → Result MirrorError (Unit {0})
  verify decode s = elim (read_manifest decode s) [
    | err e ↦ err e
    | ok sm ↦ verify_files sm.files s
  ]

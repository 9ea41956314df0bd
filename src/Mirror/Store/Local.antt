-- ===== src/Mirror/Store/Local.antt =====
-- `LocalStore` (internal/mirror/store.go) over a file system: a map from paths to contents, and the
-- paths that cannot be written. A put goes through a temporary file and a rename, so it writes the
-- whole content or nothing; `List` skips the temporary files, and is not modelled.
use llmops.Prelude.{
  ℕ, ◌≡◌, ◌≢◌, Bool, Option, none, some, [], ◌∷◌, arith, if◌then◌else◌, Result, ok, err, length,
  Option-cases, inl, inr,
}
use llmops.Strings.{Bytes, equal}
use llmops.Strings.Laws.{equal_iff, equal_refl}
use llmops.Paths.{join_path}
use llmops.Mirror.Effects.{Eff}
use llmops.Mirror.Store.{Store, StoreError, absent, unwritable, IsLawful}

pub record Files : Type 0 where
  pub read : Bytes → Option Bytes
  -- The directory exists or can be made, and takes a file of this name.
  pub writable : Bytes → Bool

unfoldable pub write : Bytes → Bytes → Files → Files
write path c fs = record fs { read = λ p. if equal path p then some c else fs.read p }

abbrev pub or_absent : Bytes → Option Bytes → Result StoreError Bytes
or_absent p none = err (absent p)
or_absent p (some c) = ok c

abbrev size_of : Option Bytes → Option ℕ
size_of none = none
size_of (some c) = some (length c)

-- `(*LocalStore).path`
unfoldable pub local_path : Bytes → Bytes → Bytes
local_path root remote = join_path (root ∷ remote ∷ [])

module _ (hash : Bytes → Bytes) (root : Bytes) where
  -- `(*LocalStore).Put`
  unfoldable pub local_put : Bytes → Bytes → Eff Files StoreError (Unit {0})
  unfolding write local_path
  local_put c remote fs =
      if fs.writable (local_path root remote)
      then (ok tt, write (local_path root remote) c fs)
      else (err (unwritable remote), fs)

  -- `(*LocalStore).Get`, up to the write of the local file.
  unfoldable pub local_get : Bytes → Files → Result StoreError Bytes
  unfolding local_path
  local_get remote fs = or_absent remote (fs.read (local_path root remote))

  -- `(*LocalStore).Size`
  unfoldable pub local_size : Bytes → Files → Result StoreError (Option ℕ)
  unfolding local_path
  local_size remote fs = ok (size_of (fs.read (local_path root remote)))

  -- `(*LocalStore).SHA256`, which is `FileSHA256`
  unfoldable pub local_sha256 : Bytes → Files → Result StoreError Bytes
  unfolding local_path
  local_sha256 remote fs = elim (fs.read (local_path root remote)) [
    | none ↦ err (absent remote)
    | some c ↦ ok (hash c)
  ]

  abbrev pub local_store : Store
  local_store = record {
    State = Files;
    put = local_put;
    get = local_get;
    size = local_size;
    sha256 = local_sha256;
  }

  -- The store meets the interface, objects being apart if their paths differ.
  pub local_get-put :
      (c r : Bytes) (s t : Files) → local_put c r s ≡ (ok tt, t) → local_get r t ≡ ok c
  unfolding local_put local_get
  local_get-put c r s t h = ground (arith, equal_refl (local_path root r))

  pub local_get-put_apart :
      (c r q : Bytes) (s t : Files)
      → local_put c r s ≡ (ok tt, t)
      → local_path root r ≢ local_path root q
      → local_get q t ≡ local_get q s
  unfolding local_put local_get
  local_get-put_apart c r q s t h ne =
      ground (arith, equal_iff (local_path root r) (local_path root q))

  pub local_put_failed :
      (c r : Bytes) (s t : Files) (e : StoreError) → local_put c r s ≡ (err e, t) → t ≡ s
  unfolding local_put
  local_put_failed c r s t e h = ground arith

  pub local_size-of_get :
      (r c : Bytes) (s : Files) → local_get r s ≡ ok c → local_size r s ≡ ok (some (length c))
  unfolding local_get local_size
  local_size-of_get r c s h = ground arith

  pub local_sha256-of_get :
      (r c : Bytes) (s : Files) → local_get r s ≡ ok c → local_sha256 r s ≡ ok (hash c)
  unfolding local_get local_sha256
  local_sha256-of_get r c s h = ground arith

  pub local_get-of_sha256 :
      (r h : Bytes) (s : Files)
      → local_sha256 r s ≡ ok h
      → (c : Bytes) × (local_get r s ≡ ok c) × (hash c ≡ h)
  unfolding local_get local_sha256
  local_get-of_sha256 r h s e = elim (Option-cases (s.read (local_path root r))) [
    | inl f ↦ ground arith
    | inr (c, f) ↦ (c, ground arith, ground arith)
  ]

  unfoldable pub local_store-IsLawful : IsLawful local_store hash length
  local_store-IsLawful = record {
    IsApart = λ r q. local_path root r ≢ local_path root q;
    get-put = local_get-put;
    get-put_apart = local_get-put_apart;
    put_failed = local_put_failed;
    size-of_get = local_size-of_get;
    sha256-of_get = local_sha256-of_get;
    get-of_sha256 = local_get-of_sha256;
  }

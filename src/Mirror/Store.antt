-- ===== src/Mirror/Store.antt =====
-- The interface `Store` (internal/mirror/store.go) as operations on the store's state, and what its
-- clients rely on. `LocalStore` fills it in Mirror.Store.Local, `S5cmdStore` in Mirror.Store.S5cmd.
pub mod Local
pub mod S5cmd
pub mod Open
use llmops.Prelude.{ℕ, ◌≡◌, Option, none, some, Result, ok, err}
use llmops.Strings.{Bytes}
use llmops.Mirror.Effects.{Eff}

pub data StoreError : Type 0 where
  absent : Bytes → StoreError
  unwritable : Bytes → StoreError
  failed : Bytes → StoreError

-- A local file is handed over by its content.
pub record Store : Type 1 where
  pub State : Type 0
  pub put : Bytes → Bytes → Eff State StoreError (Unit {0})
  pub get : Bytes → State → Result StoreError Bytes
  -- `none` is -1, an absent object.
  pub size : Bytes → State → Result StoreError (Option ℕ)
  pub sha256 : Bytes → State → Result StoreError Bytes

-- The content of an object, and what a put changes: that object if it succeeds, none if it fails,
-- and never one that is apart from it. `hash` is SHA-256 in hex, `length` counts bytes.
module _ (S : Store) (hash : Bytes → Bytes) (count : Bytes → ℕ) where
  open S use {State, put, get, size, sha256}

  pub record IsLawful : Type 1 where
    pub IsApart : Bytes → Bytes → Type 0
    pub get-put : (c r : Bytes) (s t : State) → put c r s ≡ (ok tt, t) → get r t ≡ ok c
    pub get-put_apart :
        (c r q : Bytes) (s t : State) → put c r s ≡ (ok tt, t) → IsApart r q → get q t ≡ get q s
    pub put_failed : (c r : Bytes) (s t : State) (e : StoreError) → put c r s ≡ (err e, t) → t ≡ s
    pub size-of_get : (r c : Bytes) (s : State) → get r s ≡ ok c → size r s ≡ ok (some (count c))
    pub sha256-of_get : (r c : Bytes) (s : State) → get r s ≡ ok c → sha256 r s ≡ ok (hash c)
    pub get-of_sha256 :
        (r h : Bytes) (s : State)
        → sha256 r s ≡ ok h
        → (c : Bytes) × (get r s ≡ ok c) × (hash c ≡ h)

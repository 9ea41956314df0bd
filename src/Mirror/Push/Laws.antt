-- ===== src/Mirror/Push/Laws.antt =====
-- Pushing, and what a push leaves in the store.
use llmops.Prelude.{
  ℕ, ◌≡◌, refl, ◌∙◌, inl, inr, Option, some, List, [], ◌∷◌, arith, Result, ok, err, Bool-cases,
  Option-cases, Result-cases, All,
}
use llmops.Strings.{Bytes, equal}
use llmops.Strings.Laws.{equal_iff}
use llmops.Paths.{join_path}
use llmops.Mirror.Effects.{Eff-cases}
use llmops.Mirror.Store.{Store, IsLawful}
use llmops.Mirror.Push.{
  FileEntry, MirrorError, is_size, upload, push_file, push_files, verify_file, verify_files,
}

module _ (S : Store) (hash : Bytes → Bytes) (count : Bytes → ℕ) (L : IsLawful S hash count) where
  open S use {State, put, get, size, sha256}
  open L use {
    IsApart, get-put, get-put_apart, put_failed, size-of_get, sha256-of_get, get-of_sha256,
  }

  -- The store holds the content that the entry describes.
  abbrev pub Holds : State → FileEntry → Type 0
  Holds s f = (c : Bytes) × (get f.path s ≡ ok c) × (count c ≡ f.size) × (hash c ≡ f.sha256)

  verify_file-Holds : (f : FileEntry) (s : State) → verify_file S f s ≡ ok tt → Holds s f
  unfolding verify_file
  verify_file-Holds f s h = elim (Result-cases (size f.path s)) [
    | inr (e, p) ↦ ground arith
    | inl (n, p) ↦ elim (Result-cases (sha256 f.path s)) [
      | inr (e, q) ↦ ground arith
      | inl (sum, q) ↦
          let (c, g, hashed) = get-of_sha256 f.path sum s q in
          (c, g, ground (arith, size-of_get f.path c s g), ground (arith, equal_iff sum f.sha256))
    ]
  ]

  Holds-verify_file : (f : FileEntry) (s : State) → Holds s f → verify_file S f s ≡ ok tt
  unfolding verify_file
  Holds-verify_file f s (c, g, n, h) =
      ground
        (arith, size-of_get f.path c s g, sha256-of_get f.path c s g, equal_iff (hash c) f.sha256)

  pub verify_files-Holds :
      (fs : List FileEntry) (s : State) → verify_files S fs s ≡ ok tt → All (Holds s) fs
  unfolding verify_files
  verify_files-Holds [] s h = tt
  verify_files-Holds (f ∷ fs) s h = elim (Result-cases (verify_file S f s)) [
    | inr (e, p) ↦ ground arith
    | inl (tt, p) ↦ (verify_file-Holds f s p, verify_files-Holds fs s (ground arith))
  ]

  pub Holds-verify_files :
      (fs : List FileEntry) (s : State) → All (Holds s) fs → verify_files S fs s ≡ ok tt
  unfolding verify_files
  Holds-verify_files [] s h = refl
  Holds-verify_files (f ∷ fs) s (h, hs) =
      ground (arith, Holds-verify_file f s h, Holds-verify_files fs s hs)

  module _ (disk : State → Bytes → Option Bytes) (dir : Bytes) where
    abbrev pub disk_at : State → FileEntry → Option Bytes
    disk_at s f = disk s (join_path (dir ∷ f.path ∷ []))

    -- The local file is what the entry says: the outcome of `verifyLocal`.
    abbrev pub IsStaged : State → FileEntry → Type 0
    IsStaged s f = (c : Bytes) × (disk_at s f ≡ some c) × (count c ≡ f.size) × (hash c ≡ f.sha256)

    -- A put of the first file leaves the local file of the second as it is.
    abbrev pub IsKept : FileEntry → FileEntry → Type 0
    IsKept f g = (c : Bytes) (s t : State) → put c f.path s ≡ (ok tt, t) → disk_at t g ≡ disk_at s g

    -- No put writes over a local file that is still to be put.
    abbrev pub IsSteady : List FileEntry → Type 0
    IsSteady [] = Unit
    IsSteady (f ∷ fs) = All (IsKept f) fs × IsSteady fs

    upload-Holds :
        (f : FileEntry) (s t : State)
        → IsStaged s f
        → upload S disk dir f s ≡ (ok tt, t)
        → Holds t f
    unfolding upload
    upload-Holds f s t (c, local, n, h) e = elim (Eff-cases (put c f.path) s) [
      | inl (u, p) ↦ (c, ground (arith, get-put c f.path s u p), n, h)
      | inr (x, u, p) ↦ ground (arith, local, p)
    ]

    upload-IsKept :
        (f g : FileEntry) (s t : State)
        → IsKept f g
        → upload S disk dir f s ≡ (ok tt, t)
        → disk_at t g ≡ disk_at s g
    unfolding upload
    upload-IsKept f g s t kept e = elim (Option-cases (disk_at s f)) [
      | inl none_there ↦ ground arith
      | inr (c, local) ↦ elim (Eff-cases (put c f.path) s) [
        | inl (u, p) ↦ ground (arith, kept c s u p)
        | inr (x, u, p) ↦ ground (arith, local, p)
      ]
    ]

    -- Whatever the outcome, an upload leaves the objects alone that are apart from its own.
    upload_apart :
        (f : FileEntry) (q : Bytes) (s t : State) (r : Result MirrorError (Unit {0}))
        → IsApart f.path q
        → upload S disk dir f s ≡ (r, t)
        → get q t ≡ get q s
    unfolding upload
    upload_apart f q s t r apart e = elim (Option-cases (disk_at s f)) [
      | inl none_there ↦ ground arith
      | inr (c, local) ↦ elim (Eff-cases (put c f.path) s) [
        | inl (u, p) ↦ ground (arith, get-put_apart c f.path q s u p apart)
        | inr (x, u, p) ↦ ground (arith, put_failed c f.path s u x p)
      ]
    ]

    push_file-Holds :
        (f : FileEntry) (s t : State)
        → IsStaged s f
        → push_file S disk dir f s ≡ (ok tt, t)
        → Holds t f
    unfolding push_file
    push_file-Holds f s t staged e = elim (Result-cases (size f.path s)) [
      | inr (x, p) ↦ ground arith
      | inl (n, p) ↦ elim (Bool-cases (is_size n f.size)) [
        | inr b ↦ ground (arith, upload-Holds f s t staged)
        | inl b ↦ elim (Result-cases (sha256 f.path s)) [
          | inr (x, q) ↦ ground arith
          | inl (sum, q) ↦ elim (Bool-cases (equal sum f.sha256)) [
            | inr d ↦ ground (arith, upload-Holds f s t staged)
            | inl d ↦
                let (c, g, hashed) = get-of_sha256 f.path sum s q in
                (
                  c,
                  ground arith,
                  ground (arith, size-of_get f.path c s g),
                  ground (arith, equal_iff sum f.sha256),
                )
          ]
        ]
      ]
    ]

    push_file_apart :
        (f : FileEntry) (q : Bytes) (s t : State) (r : Result MirrorError (Unit {0}))
        → IsApart f.path q
        → push_file S disk dir f s ≡ (r, t)
        → get q t ≡ get q s
    unfolding push_file
    push_file_apart f q s t r apart e = elim (Result-cases (size f.path s)) [
      | inr (x, p) ↦ ground arith
      | inl (n, p) ↦ elim (Bool-cases (is_size n f.size)) [
        | inr b ↦ ground (arith, upload_apart f q s t r apart)
        | inl b ↦ elim (Result-cases (sha256 f.path s)) [
          | inr (x, d) ↦ ground arith
          | inl (sum, d) ↦ ground (arith, upload_apart f q s t r apart)
        ]
      ]
    ]

    push_file-IsKept :
        (f g : FileEntry) (s t : State)
        → IsKept f g
        → push_file S disk dir f s ≡ (ok tt, t)
        → disk_at t g ≡ disk_at s g
    unfolding push_file
    push_file-IsKept f g s t kept e = elim (Result-cases (size f.path s)) [
      | inr (x, p) ↦ ground arith
      | inl (n, p) ↦ elim (Bool-cases (is_size n f.size)) [
        | inr b ↦ ground (arith, upload-IsKept f g s t kept)
        | inl b ↦ elim (Result-cases (sha256 f.path s)) [
          | inr (x, d) ↦ ground arith
          | inl (sum, d) ↦ ground (arith, upload-IsKept f g s t kept)
        ]
      ]
    ]

    -- What is staged is staged after a round for another file.
    push_file-IsStaged :
        (f : FileEntry) (fs : List FileEntry) (s t : State)
        → All (IsKept f) fs
        → push_file S disk dir f s ≡ (ok tt, t)
        → All (IsStaged s) fs
        → All (IsStaged t) fs
    push_file-IsStaged f [] s t kept e staged = tt
    push_file-IsStaged f (g ∷ gs) s t (kept, more) e ((c, local, n, h), staged) = (
      (c, push_file-IsKept f g s t kept e ∙ local, n, h),
      push_file-IsStaged f gs s t more e staged,
    )

    push_file-of_Holds :
        (f : FileEntry) (s : State) → Holds s f → push_file S disk dir f s ≡ (ok tt, s)
    unfolding push_file
    push_file-of_Holds f s (c, g, n, h) =
        ground
          (arith, size-of_get f.path c s g, sha256-of_get f.path c s g, equal_iff (hash c) f.sha256)

    -- The loop of `Push`.
    pub push_files_apart :
        (fs : List FileEntry) (q : Bytes) (s t : State) (r : Result MirrorError (Unit {0}))
        → All (λ f. IsApart f.path q) fs
        → push_files S disk dir fs s ≡ (r, t)
        → get q t ≡ get q s
    unfolding push_files
    push_files_apart [] q s t r a e = ground arith
    push_files_apart (f ∷ fs) q s t r (a, others) e = elim (Eff-cases (push_file S disk dir f) s) [
      | inl (u, p) ↦
          push_files_apart fs q u t r others (ground arith) ∙ push_file_apart f q s u (ok tt) a p
      | inr (x, u, p) ↦ ground (arith, push_file_apart f q s u (err x) a p)
    ]

    -- Entries that name different objects.
    abbrev pub IsSeparate : List FileEntry → Type 0
    IsSeparate [] = Unit
    IsSeparate (f ∷ fs) = All (λ g. IsApart g.path f.path) fs × IsSeparate fs

    pub push_files-Holds :
        (fs : List FileEntry) (s t : State)
        → All (IsStaged s) fs
        → IsSteady fs
        → IsSeparate fs
        → push_files S disk dir fs s ≡ (ok tt, t)
        → All (Holds t) fs
    unfolding push_files
    push_files-Holds [] s t st steady sep e = tt
    push_files-Holds (f ∷ fs) s t (st, sts) (kept, steady) (sep, seps) e =
        elim (Eff-cases (push_file S disk dir f) s) [
          | inl (u, p) ↦
              let later : push_files S disk dir fs u ≡ (ok tt, t) = ground arith in
              let (c, g, n, h) = push_file-Holds f s u st p in
              (
                (c, push_files_apart fs f.path u t (ok tt) sep later ∙ g, n, h),
                push_files-Holds fs u t (push_file-IsStaged f fs s u kept p sts) steady seps later,
              )
          | inr (x, u, p) ↦ ground arith
        ]

    pub push_files-of_Holds :
        (fs : List FileEntry) (s : State)
        → All (Holds s) fs
        → push_files S disk dir fs s ≡ (ok tt, s)
    unfolding push_files
    push_files-of_Holds [] s h = refl
    push_files-of_Holds (f ∷ fs) s (h, hs) =
        ground (arith, push_file-of_Holds f s h, push_files-of_Holds fs s hs)

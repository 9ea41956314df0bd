-- ===== src/Runtime/Weights/Ready.antt =====
-- Weights that were prepared are the weights that the manifest describes.
use llmops.Prelude.{
  ◌≡◌, refl, ◌∙◌, ◌≢◌, ◌↔◌, inl, inr, true, false, List, [], ◌∷◌, arith, Result, ok, err, length,
  All, Result-cases,
}
use llmops.Strings.{Bytes}
use llmops.Strings.Laws.{equal_iff}
use llmops.Mirror.Effects.{Eff-cases}
use llmops.Mirror.Push.{FileEntry}
use llmops.Runtime.Weights.{
  Entry, missing, blocked, unreadable, directory, file, Disk, Fetched, got, broken, gone,
  WeightError, Outside, file_matches, local_of, get_to, refetch, ensure_file, ensure_files,
  check_in_place, check_files,
}

module _ (w : Outside) where
  -- The disk holds the content that the manifest's entry describes.
  abbrev pub Matches : Bytes → Disk → FileEntry → Type 0
  Matches dir d f =
      (c : Bytes) × (d.look (local_of w dir f) ≡ file c)
      × (length c ≡ f.size)
      × (w.hash c ≡ f.sha256)

  file_matches-true :
      (e : Entry) (f : FileEntry)
      → file_matches w e f ≡ ok true
      → (c : Bytes) × (e ≡ file c) × (length c ≡ f.size) × (w.hash c ≡ f.sha256)
  unfolding file_matches
  file_matches-true missing f h = cc
  file_matches-true blocked f h = cc
  file_matches-true (unreadable n) f h = ground arith
  file_matches-true (directory n) f h = ground arith
  file_matches-true (file c) f h =
      (c, refl, ground arith, ground (arith, equal_iff (w.hash c) f.sha256))

  file_matches-of_Matches :
      (dir : Bytes) (d : Disk) (f : FileEntry)
      → Matches dir d f
      → file_matches w (d.look (local_of w dir f)) f ≡ ok true
  unfolding file_matches
  file_matches-of_Matches dir d f (c, e, n, h) = ground (arith, equal_iff (w.hash c) f.sha256)

  get_to_apart :
      (a : Fetched) (local p : Bytes) (f : FileEntry) (d t : Disk)
      (r : Result WeightError (Unit {0}))
      → local ≢ p
      → get_to w a local f d ≡ (r, t)
      → t.look p ≡ d.look p
  unfolding get_to
  get_to_apart gone local p f d t r ne e = ground arith
  get_to_apart (broken c) local p f d t r ne e = ground (arith, equal_iff local p)
  get_to_apart (got c) local p f d t r ne e = ground (arith, equal_iff local p)

  refetch-Matches :
      (dir : Bytes) (f : FileEntry) (d t : Disk) → refetch w dir f d ≡ (ok tt, t) → Matches dir t f
  unfolding refetch
  refetch-Matches dir f d t h =
      elim (Eff-cases (get_to w (w.fetch f.path) (local_of w dir f) f) d) [
        | inr (x, u, p) ↦ ground arith
        | inl (u, p) ↦ elim (Result-cases (file_matches w (u.look (local_of w dir f)) f)) [
          | inr (x, q) ↦ ground arith
          | inl (false, q) ↦ ground arith
          | inl (true, q) ↦
              let same : u ≡ t = ground arith in
              rw (← same) (file_matches-true (u.look (local_of w dir f)) f q)
        ]
      ]

  refetch_apart :
      (dir p : Bytes) (f : FileEntry) (d t : Disk) (r : Result WeightError (Unit {0}))
      → local_of w dir f ≢ p
      → refetch w dir f d ≡ (r, t)
      → t.look p ≡ d.look p
  unfolding refetch
  refetch_apart dir p f d t r ne h =
      elim (Eff-cases (get_to w (w.fetch f.path) (local_of w dir f) f) d) [
        | inr (x, u, q) ↦
            ground (arith, get_to_apart (w.fetch f.path) (local_of w dir f) p f d u (err x) ne q)
        | inl (u, q) ↦
            ground (arith, get_to_apart (w.fetch f.path) (local_of w dir f) p f d u (ok tt) ne q)
      ]

  ensure_file-Matches :
      (dir : Bytes) (f : FileEntry) (d t : Disk)
      → ensure_file w dir f d ≡ (ok tt, t)
      → Matches dir t f
  unfolding ensure_file
  ensure_file-Matches dir f d t h =
      elim (Result-cases (file_matches w (d.look (local_of w dir f)) f)) [
        | inr (x, p) ↦ refetch-Matches dir f d t (ground arith)
        | inl (false, p) ↦ refetch-Matches dir f d t (ground arith)
        | inl (true, p) ↦
            let same : d ≡ t = ground arith in
            rw (← same) (file_matches-true (d.look (local_of w dir f)) f p)
      ]

  ensure_file_apart :
      (dir p : Bytes) (f : FileEntry) (d t : Disk) (r : Result WeightError (Unit {0}))
      → local_of w dir f ≢ p
      → ensure_file w dir f d ≡ (r, t)
      → t.look p ≡ d.look p
  unfolding ensure_file
  ensure_file_apart dir p f d t r ne h = ground (arith, refetch_apart dir p f d t r ne)

  ensure_files_apart :
      (dir p : Bytes) (fs : List FileEntry) (d t : Disk) (r : Result WeightError (Unit {0}))
      → All (λ f. local_of w dir f ≢ p) fs
      → ensure_files w dir fs d ≡ (r, t)
      → t.look p ≡ d.look p
  unfolding ensure_files
  ensure_files_apart dir p [] d t r a h = ground arith
  ensure_files_apart dir p (f ∷ fs) d t r (a, others) h = elim (Eff-cases (ensure_file w dir f) d) [
    | inr (x, u, q) ↦ ground (arith, ensure_file_apart dir p f d u (err x) a q)
    | inl (u, q) ↦
        ensure_files_apart dir p fs u t r others (ground arith)
        ∙ ensure_file_apart dir p f d u (ok tt) a q
  ]

  -- Entries that lie at different paths.
  abbrev pub IsSpread : Bytes → List FileEntry → Type 0
  IsSpread dir [] = Unit
  IsSpread dir (f ∷ fs) = All (λ g. local_of w dir g ≢ local_of w dir f) fs × IsSpread dir fs

  pub ensure_files-Matches :
      (dir : Bytes) (fs : List FileEntry) (d t : Disk)
      → IsSpread dir fs
      → ensure_files w dir fs d ≡ (ok tt, t)
      → All (Matches dir t) fs
  unfolding ensure_files
  ensure_files-Matches dir [] d t s h = tt
  ensure_files-Matches dir (f ∷ fs) d t (s, ss) h = elim (Eff-cases (ensure_file w dir f) d) [
    | inr (x, u, q) ↦ ground arith
    | inl (u, q) ↦
        let later : ensure_files w dir fs u ≡ (ok tt, t) = ground arith in
        let (c, e, n, m) = ensure_file-Matches dir f d u q in
        (
          (c, ensure_files_apart dir (local_of w dir f) fs u t (ok tt) s later ∙ e, n, m),
          ensure_files-Matches dir fs u t ss later,
        )
  ]

  pub check_files-Matches :
      (dir : Bytes) (d : Disk) (fs : List FileEntry)
      → (check_files w dir d fs ≡ ok tt) ↔ All (Matches dir d) fs
  unfolding check_files check_in_place
  check_files-Matches dir d [] = (λ _. tt, λ _. refl)
  check_files-Matches dir d (f ∷ fs) =
      let (to, from) = check_files-Matches dir d fs in
      elim (Result-cases (file_matches w (d.look (local_of w dir f)) f)) [
        | inr (x, p) ↦
            (λ h. ground arith, λ (m, ms). ground (arith, file_matches-of_Matches dir d f m))
        | inl (false, p) ↦
            (λ h. ground arith, λ (m, ms). ground (arith, file_matches-of_Matches dir d f m))
        | inl (true, p) ↦ (
          λ h. (file_matches-true (d.look (local_of w dir f)) f p, to (ground arith)),
          λ (m, ms). ground (arith, from ms),
        )
      ]

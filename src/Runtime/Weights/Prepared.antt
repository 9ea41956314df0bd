-- ===== src/Runtime/Weights/Prepared.antt =====
-- What `PrepareWeights` and `PrepareDraft` vouch for when they return a path.
use llmops.Prelude.{
  ◌≡◌, ◌≢◌, refl, ap, subst, ◌∙◌, ◌⊎◌, inl, inr, none, some, false, Option-cases, [], ◌∷◌, arith,
  ok, err, All, Bool-cases, Result-cases,
}
use llmops.Strings.{Bytes, equal}
use llmops.Strings.Laws.{equal_iff}
use llmops.Paths.{join_path, clean}
use llmops.Manifest.{Manifest, Speculator, separate_head, load_local, load_s3_stream}
use llmops.Mirror.Effects.{Eff-cases, reading, ◌>>=◌, ◌>>◌, >>=-eq-ok}
use llmops.Mirror.Push.{StoreManifest, manifest_name}
use llmops.Runtime.Weights.{
  Disk, Entry, missing, blocked, unreadable, directory, file, WeightError, Outside, is_directory,
  write_file, ensure_files, read_remote, read_local, check_files, lock_path, opened, lock_dir,
  verify_locked, verify_in_place, make_dir, fetch_all, sync, prepare_artifact, prepare_weights,
  head_load, prepare_draft,
}
use llmops.Runtime.Weights.Ready.{Matches, IsSpread, ensure_files-Matches, check_files-Matches}

abbrev pub artifact_dir : Bytes → Bytes → Bytes → Bytes
artifact_dir cache_root repo revision = join_path (cache_root ∷ repo ∷ revision ∷ [])

module _ (w : Outside) where
  -- What taking the lock may leave behind: the lock's file, empty, where nothing was.
  abbrev pub IsLockedFrom : Bytes → Disk → Disk → Type 0
  IsLockedFrom dir d t =
      (t ≡ d) ⊎ ((d.look (lock_path dir) ≡ missing) × (t ≡ write_file (lock_path dir) [] d))

  Entry-cases :
      (e : Entry)
      → (e ≡ missing)
        ⊎ (((c : Bytes) × (e ≡ file c)) ⊎ ((p : Bytes) (d : Disk) → opened e p d ≡ none))
  unfolding opened
  Entry-cases missing = inl refl
  Entry-cases (file c) = inr (inl (c, refl))
  Entry-cases blocked = inr (inr (λ p d. refl))
  Entry-cases (unreadable n) = inr (inr (λ p d. refl))
  Entry-cases (directory n) = inr (inr (λ p d. refl))

  opened-IsLockedFrom :
      (dir : Bytes) (d t : Disk)
      → opened (d.look (lock_path dir)) (lock_path dir) d ≡ some t
      → IsLockedFrom dir d t
  unfolding write_file opened
  opened-IsLockedFrom dir d t h = elim (Entry-cases (d.look (lock_path dir))) [
    | inl e ↦ elim (Bool-cases (d.writable (lock_path dir))) [
      | inl b ↦ inr (e, cc (e, b, h))
      | inr b ↦ cc (e, b, h)
    ]
    | inr (inl (c, e)) ↦ elim (Bool-cases (d.writable (lock_path dir))) [
      | inl b ↦ inl (cc (e, b, h))
      | inr b ↦ cc (e, b, h)
    ]
    | inr (inr k) ↦ cc (k (lock_path dir) d, h)
  ]

  lock_dir-IsLockedFrom :
      (dir : Bytes) (d t : Disk) {u : Unit {0}}
      → lock_dir w dir d ≡ (ok u, t)
      → IsLockedFrom dir d t
  unfolding lock_dir
  lock_dir-IsLockedFrom dir d t h =
      elim (Option-cases (opened (d.look (lock_path dir)) (lock_path dir) d)) [
        | inl e ↦ cc (e, h)
        | inr (v, e) ↦
            let same : v ≡ t = cc (e, h) in opened-IsLockedFrom dir d t (e ∙ ap some same)
      ]

  -- A directory that is verified behind its lock holds what its own manifest lists.
  verify_locked-Matches :
      (dir p : Bytes) (d : Disk)
      → verify_locked w dir d ≡ ok p
      → (p ≡ dir)
        × (sm : StoreManifest) × (read_local w (d.look (join_path (dir ∷ manifest_name ∷ [])))
            ≡ ok sm)
        × All (Matches w dir d) sm.files
  unfolding verify_locked
  verify_locked-Matches dir p d h =
      elim (Result-cases (read_local w (d.look (join_path (dir ∷ manifest_name ∷ []))))) [
        | inr (x, r) ↦ ground arith
        | inl (sm, r) ↦ elim (Result-cases (check_files w dir d sm.files)) [
          | inr (x, c) ↦ ground arith
          | inl (_, c) ↦ (ground arith, sm, r, (check_files-Matches w dir d sm.files).0 c)
        ]
      ]

  -- So does a directory that is verified in place, which gets no other file than its lock.
  verify_in_place-Matches :
      (dir p : Bytes) (d t : Disk)
      → verify_in_place w dir d ≡ (ok p, t)
      → IsLockedFrom dir d t
        × (p ≡ dir)
        × (sm : StoreManifest) × (read_local w (t.look (join_path (dir ∷ manifest_name ∷ [])))
            ≡ ok sm)
        × All (Matches w dir t) sm.files
  unfolding verify_in_place
  verify_in_place-Matches dir p d t h =
      let (_, u, stat, after) =
        >>=-eq-ok (reading (λ s. is_directory w (s.look dir)))
          (λ _. lock_dir w dir >>= λ _. reading (verify_locked w dir)) d t h in
      let (_, v, locked, checked) =
        >>=-eq-ok (lock_dir w dir) (λ _. reading (verify_locked w dir)) u t after in
      let kept : u ≡ d = cc stat in
      let last : v ≡ t = cc checked in
      let verified : verify_locked w dir t ≡ ok p = rw (← last) (ap (λ x. x.0) checked) in
      let (at, sm, r, all) = verify_locked-Matches dir p t verified in
      let free = lock_dir-IsLockedFrom dir u t (locked ∙ ap (λ x. (ok _, x)) last) in
      (subst (λ x. IsLockedFrom dir x t) kept free, at, sm, r, all)

  fetched_ended :
      (dir p : Bytes) (d t u : Disk) (sm : StoreManifest)
      → read_remote w (w.fetch manifest_name) ≡ ok sm
      → ensure_files w dir sm.files d ≡ (ok tt, u)
      → fetch_all w dir d ≡ (ok p, t)
      → (p ≡ dir) × (u ≡ t)
  unfolding fetch_all
  fetched_ended dir p d t u sm r e h =
      let ended : fetch_all w dir d ≡ (ok dir, u) = rw (r, e) in (cc (ended, h), cc (ended, h))

  fetched_failed :
      (dir p : Bytes) (d t u : Disk) (sm : StoreManifest) (x : WeightError)
      → read_remote w (w.fetch manifest_name) ≡ ok sm
      → ensure_files w dir sm.files d ≡ (err x, u)
      → fetch_all w dir d ≢ (ok p, t)
  unfolding fetch_all
  fetched_failed dir p d t u sm x r e h =
      let ended : fetch_all w dir d ≡ (err x, u) = rw (r, e) in cc (ended, h)

  fetched-Matches :
      (dir p : Bytes) (d t : Disk)
      → ((sm : StoreManifest)
          → read_remote w (w.fetch manifest_name) ≡ ok sm
          → IsSpread w dir sm.files)
      → fetch_all w dir d ≡ (ok p, t)
      → (p ≡ dir)
        × (sm : StoreManifest) × (read_remote w (w.fetch manifest_name) ≡ ok sm)
        × All (Matches w dir t) sm.files
  unfolding fetch_all
  fetched-Matches dir p d t spread h = elim (Result-cases (read_remote w (w.fetch manifest_name))) [
    | inr (x, r) ↦ cc (r, h)
    | inl (sm, r) ↦ elim (Eff-cases (ensure_files w dir sm.files) d) [
      | inr (x, u, e) ↦ absurd (fetched_failed dir p d t u sm x r e h)
      | inl (u, e) ↦
          let (at, same) = fetched_ended dir p d t u sm r e h in
          (at, sm, r, rw (← same) (ensure_files-Matches w dir sm.files d u (spread sm r) e))
    ]
  ]

  -- A sync that returns has the store's manifest on disk.
  sync-Matches :
      (dir p : Bytes) (d t : Disk)
      → ((sm : StoreManifest)
          → read_remote w (w.fetch manifest_name) ≡ ok sm
          → IsSpread w dir sm.files)
      → sync w dir d ≡ (ok p, t)
      → (p ≡ dir)
        × (sm : StoreManifest) × (read_remote w (w.fetch manifest_name) ≡ ok sm)
        × All (Matches w dir t) sm.files
  unfolding sync
  sync-Matches dir p d t spread h =
      let (_, u, made, h1) =
        >>=-eq-ok (make_dir w dir) (λ _. lock_dir w dir >> fetch_all w dir) d t h in
      let (_, v, locked, h2) = >>=-eq-ok (lock_dir w dir) (λ _. fetch_all w dir) u t h1 in
      fetched-Matches dir p v t spread h2

  -- Where the files of an artifact are listed: in the directory's own manifest, or the store's.
  abbrev pub IsListed : Bytes → Bytes → Disk → StoreManifest → Type 0
  IsListed load path d sm =
      ((load ≡ load_local)
        × (read_local w (d.look (join_path (path ∷ manifest_name ∷ []))) ≡ ok sm))
      ⊎ ((load ≢ load_local) × (read_remote w (w.fetch manifest_name) ≡ ok sm))

  -- The store's entries lie at different paths.
  abbrev pub Spreads : Bytes → Type 0
  Spreads dir =
      (sm : StoreManifest) → read_remote w (w.fetch manifest_name) ≡ ok sm → IsSpread w dir sm.files

  -- Every file that the governing manifest lists is under the path with its size and sum.
  abbrev pub IsStocked : Bytes → Bytes → Disk → Type 0
  IsStocked load path d =
      (sm : StoreManifest) × IsListed load path d sm × All (Matches w path d) sm.files

  prepare_artifact-IsStocked :
      (load repo revision cache_root path : Bytes) (d t : Disk)
      → Spreads (artifact_dir cache_root repo revision)
      → prepare_artifact w load repo revision cache_root d ≡ (ok path, t)
      → IsStocked load path t × ((load ≢ load_local) ⊎ IsLockedFrom path d t)
  unfolding prepare_artifact
  prepare_artifact-IsStocked load repo revision cache_root path d t spread h =
      let dir = artifact_dir cache_root repo revision in
      elim (Bool-cases (equal load load_local)) [
        | inl l ↦
            let checked : verify_in_place w (clean dir) d ≡ (ok path, t) = ground arith in
            let (locked, at, sm, r, all) = verify_in_place-Matches (clean dir) path d t checked in
            ((sm, inl ((equal_iff _ _).0 l, rw at r), rw at all), inr (rw at locked))
        | inr l ↦
            let synced : sync w dir d ≡ (ok path, t) = ground arith in
            let not_local : load ≢ load_local = λ e. cc ((equal_iff load load_local).1 e) in
            let (at, sm, r, all) = sync-Matches dir path d t spread synced in
            ((sm, inr (not_local, r), rw at all), inl not_local)
      ]

  -- If `PrepareWeights` returns a path, then either the weights are streamed, the path is the
  -- manifest's prefix and the disk is as it was; or every file that the governing manifest lists is
  -- under that path with its size and sum: the directory's own manifest for `load: local`, where
  -- nothing is written but the lock's empty file if it was missing, and the store's otherwise. The
  -- store's entries lie at different paths.
  pub prepare_weights-Matches :
      (m : Manifest) (cache_root path : Bytes) (d t : Disk)
      → Spreads (artifact_dir cache_root m.hf_repo m.revision)
      → prepare_weights w m cache_root d ≡ (ok path, t)
      → ((m.load ≡ load_s3_stream) × (path ≡ m.s3_prefix) × (t ≡ d))
        ⊎ (IsStocked m.load path t × ((m.load ≢ load_local) ⊎ IsLockedFrom path d t))
  unfolding prepare_weights
  prepare_weights-Matches m cache_root path d t spread h =
      elim (Bool-cases (equal m.load load_s3_stream)) [
        | inl s ↦ inl ((equal_iff _ _).0 s, ground arith, ground arith)
        | inr s ↦
            let stored : prepare_artifact w m.load m.hf_repo m.revision cache_root d
                ≡ (ok path, t) =
              ground arith in
            inr (
              prepare_artifact-IsStocked m.load m.hf_repo m.revision cache_root path d t spread
                stored)
      ]

  -- If `PrepareDraft` returns, there is no separate head, or its files are under the path.
  pub prepare_draft-IsStocked :
      (sp : Speculator) (load cache_root path : Bytes) (d t : Disk)
      → Spreads (artifact_dir cache_root sp.hf_repo sp.revision)
      → prepare_draft w sp load cache_root d ≡ (ok path, t)
      → (separate_head sp ≡ false) ⊎ IsStocked (head_load load) path t
  unfolding prepare_draft
  prepare_draft-IsStocked sp load cache_root path d t spread h =
      elim (Bool-cases (separate_head sp)) [
        | inr s ↦ inl s
        | inl s ↦
            let (stocked, _) =
              prepare_artifact-IsStocked (head_load load) sp.hf_repo sp.revision cache_root path d t
                spread (ground arith) in
            inr stocked
      ]

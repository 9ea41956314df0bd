-- ===== src/Install/Idempotent.antt =====
-- A repeated install changes nothing.
use llmops.Prelude.{
  ◌≡◌, ◌≢◌, sym, ◌⊎◌, Bool, true, false, Option, ok, err, arith, Bool-cases, inl, inr, Option-cases,
}
use llmops.Strings.{Bytes, equal}
use llmops.Strings.Laws.{equal_iff, equal_refl}
use llmops.Manifest.{Manifest, deploy_mode, deploy_bare_metal}
use llmops.Mirror.Store.Local.{Files, write}
use llmops.Manifest.Patterns.{matches_name}
use llmops.Install.Names.{manifest_path-unit_path}
use llmops.Install.{
  Options, InstallError, not_written, Host, Installed, has_content, write_if_changed, finish, place,
  run_install, manifest_path, unit_path, unit_text,
}

-- A write that succeeds leaves the content, also where it changes nothing, and no other file is
-- touched.
write_if_changed-content :
    (path c : Bytes) (fs t : Files) (b : Bool)
    → write_if_changed path c fs ≡ (ok b, t)
    → has_content (t.read path) c ≡ true
unfolding write_if_changed
write_if_changed-content path c fs t b h = ground (arith, equal_refl path, equal_refl c)

write_if_changed_apart :
    (path c q : Bytes) (fs t : Files) (b : Bool)
    → path ≢ q
    → write_if_changed path c fs ≡ (ok b, t)
    → t.read q ≡ fs.read q
unfolding write_if_changed
write_if_changed_apart path c q fs t b ne h = ground (arith, equal_iff path q)

write_if_changed-same :
    (path c : Bytes) (fs : Files)
    → has_content (fs.read path) c ≡ true
    → write_if_changed path c fs ≡ (ok false, fs)
unfolding write_if_changed
write_if_changed-same path c fs h = rw h

write_if_changed-cases :
    (path c : Bytes) (fs : Files)
    → ((b : Bool) × (t : Files) × (write_if_changed path c fs ≡ (ok b, t)))
      ⊎ ((x : InstallError) × (t : Files) × (write_if_changed path c fs ≡ (err x, t)))
unfolding write_if_changed
write_if_changed-cases path c fs = elim (Bool-cases (has_content (fs.read path) c)) [
  | inl h ↦ inl (false, fs, rw h)
  | inr h ↦ elim (Bool-cases (fs.writable path)) [
    | inl w ↦ inl (true, write path c fs, rw (h, w))
    | inr w ↦ inr (not_written path, fs, rw (h, w))
  ]
]

finish-files :
    (works : Bool) (mp up : Bytes) (b b' : Bool) (h t : Host) (r : Installed)
    → finish works mp up b b' h ≡ (ok r, t)
    → (t.files ≡ h.files) × (r.manifest_at ≡ mp) × (r.unit_at ≡ up)
unfolding finish
finish-files works mp up b true h t r e = ground (arith, e)
finish-files works mp up b false h t r e = ground (arith, e)

module _ (m : Manifest) (o : Options) (c : Bytes) where
  -- The files after an install: the manifest and the unit are there.
  abbrev pub IsPlaced : Host → Type 0
  IsPlaced t =
      (has_content (t.files.read (manifest_path o m)) c ≡ true)
      × (has_content (t.files.read (unit_path o m)) (unit_text m o) ≡ true)

  pub place-IsPlaced :
      (works : Bool) (h t : Host) (r : Installed)
      → manifest_path o m ≢ unit_path o m
      → place m o works c h ≡ (ok r, t)
      → IsPlaced t × (r.manifest_at ≡ manifest_path o m) × (r.unit_at ≡ unit_path o m)
  unfolding place
  place-IsPlaced works h t r ne e = elim (write_if_changed-cases (manifest_path o m) c h.files) [
    | inr (x, fs, w) ↦ ground (arith, w, e)
    | inl (b, fs, w) ↦ elim (write_if_changed-cases (unit_path o m) (unit_text m o) fs) [
      | inr (x, fs', w') ↦ ground (arith, w, w', e)
      | inl (b', fs', w') ↦
          let kept =
            write_if_changed_apart (unit_path o m) (unit_text m o) (manifest_path o m) fs fs' b'
              (λ p. ne (sym p)) w' in
          let first = write_if_changed-content (manifest_path o m) c h.files fs b w in
          let second = write_if_changed-content (unit_path o m) (unit_text m o) fs fs' b' w' in
          let ended : finish works (manifest_path o m) (unit_path o m) b b'
                (record h { files = fs' })
              ≡ (ok r, t) =
            ground (arith, w, w', e) in
          let (files, at, unit) =
            finish-files works (manifest_path o m) (unit_path o m) b b' (record h { files = fs' }) t
              r ended in
          ((rw (files, kept) first, rw files second), at, unit)
    ]
  ]

  place-same :
      (works : Bool) (t : Host)
      → IsPlaced t
      → place m o works c t ≡ (
        ok (record {
          manifest_at = manifest_path o m;
          unit_at = unit_path o m;
          manifest_changed = false;
          unit_changed = false;
          daemon_reloaded = false;
        }),
        t,
      )
  unfolding place
  place-same works t (a, b) = rw (
    write_if_changed-same (manifest_path o m) c t.files a,
    write_if_changed-same (unit_path o m) (unit_text m o) t.files b,
  )

module _ (m : Manifest) (o : Options) (works again : Bool) (source : Option Bytes) (h t : Host)
    (r : Installed) where
  -- An install that succeeds, for a manifest whose name is valid, can be repeated, whether or not a reload works then: it ends with the
  -- same paths, reports that nothing has changed, and leaves the files and the count of reloads.
  pub run_install_idem :
      matches_name m.name ≡ true
      → run_install m o works source h ≡ (ok r, t)
      → run_install m o again source t ≡ (
        ok (record {
          manifest_at = r.manifest_at;
          unit_at = r.unit_at;
          manifest_changed = false;
          unit_changed = false;
          daemon_reloaded = false;
        }),
        t,
      )
  unfolding run_install
  run_install_idem ok_name e = elim (Bool-cases (equal (deploy_mode m) deploy_bare_metal)) [
    | inr d ↦ ground (arith, d, e)
    | inl d ↦ elim (Option-cases source) [
      | inl s ↦ ground (arith, d, s, e)
      | inr (c, s) ↦
          let placed : place m o works c h ≡ (ok r, t) = ground (arith, d, s, e) in
          let (there, a, b) =
            place-IsPlaced m o c works h t r (manifest_path-unit_path m o ok_name) placed in
          ground (arith, d, s, a, b, place-same m o c again t there)
    ]
  ]

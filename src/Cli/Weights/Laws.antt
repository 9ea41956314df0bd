-- ===== src/Cli/Weights/Laws.antt =====
-- What the verbs on weights achieve together.
use llmops.Prelude.{
  ◌≡◌, refl, ap, inl, inr, Bool, true, false, Option, some, List, [], ◌∷◌, arith, ok, All, length,
  Result-cases, Bool-cases,
}
use llmops.Strings.{Bytes, codes, equal, is_empty}
use llmops.Paths.{join_path}
use llmops.Mirror.Effects.{Eff-cases}
use llmops.Mirror.Store.Local.{Files}
use llmops.Mirror.Store.S5cmd.{Outside, IsS5cmd}
use llmops.Mirror.Store.Open.{Machine, IsAside, open_store, open_store-read, open_store-IsLawful}
use llmops.Mirror.Policy.{TreeFile}
use llmops.Mirror.Push.{FileEntry, manifest_name, manifest_of, push, verify}
use llmops.Mirror.Push.Complete.{push-verify}
use llmops.Mirror.Push.Laws.{IsStaged, IsSteady, IsKept, IsSeparate}
use llmops.Mirror.Pull.{Hub, download_then, pull, fetch_tree, verify_local}
use llmops.Mirror.Pull.Freeze.{AllVouched, verify_local-AllVouched}
use llmops.Cli.Weights.{
  World, Target, push_args, hub, pushed_line, verified_line, remote_prefix, push_pulled, run_push,
  run_verify, run_weights,
}

module _ (hash : Bytes → Bytes) (h : Hub) (download : Bytes → Bytes → Bytes → Files → Bool × Files)
    (repo revision dir : Bytes) where
  download_then-verified :
      (files : List TreeFile) (at : Bytes) (x : Bool × Files) (u : Files) (sha : Bytes)
      (entries : List FileEntry)
      → download_then hash dir files at x ≡ (ok (sha, entries), u)
      → verify_local hash u.read dir files ≡ ok entries
  download_then-verified files at (false, fs) u sha entries e = cc (ap (λ y. y.0) e)
  download_then-verified files at (true, fs) u sha entries e =
      elim (Result-cases (verify_local hash fs.read dir files)) [
        | inl (found, v) ↦ ground (arith, e, v)
        | inr (x, v) ↦ ground (arith, e, v)
      ]

  -- A pull that succeeds has checked the files as they are when it ends.
  pull-verified :
      (fs u : Files) (sha : Bytes) (entries : List FileEntry)
      → pull hash h download repo revision dir fs ≡ (ok (sha, entries), u)
      → (files : List TreeFile) × (verify_local hash u.read dir files ≡ ok entries)
  unfolding pull
  pull-verified fs u sha entries e = elim (Result-cases (fetch_tree h repo revision)) [
    | inr (x, f) ↦ ground arith
    | inl ((sha', files), f) ↦ elim (Result-cases (verify_local hash fs.read dir files)) [
      | inl (found, v) ↦ (files, ground arith)
      | inr (x, v) ↦ (
        files,
        download_then-verified files sha' (download repo sha' dir fs) u sha entries
            (ground (arith, e, f, v)),
      )
    ]
  ]

module _ (w : Outside) (d : IsS5cmd w) (prefix dir : Bytes) where
  -- The local files of a push, and the conditions on its entries, for the store of a prefix.
  abbrev local_files : Machine w → Bytes → Option Bytes
  local_files m = m.files.read

  abbrev pub Staged : Machine w → FileEntry → Type 0
  Staged =
      IsStaged (open_store w prefix) w.hash length (open_store-IsLawful w d prefix) local_files dir

  abbrev pub Separate : List FileEntry → Type 0
  Separate =
      IsSeparate (open_store w prefix) w.hash length (open_store-IsLawful w d prefix) local_files
        dir

  abbrev Steady : List FileEntry → Type 0
  Steady =
      IsSteady (open_store w prefix) w.hash length (open_store-IsLawful w d prefix) local_files dir

  abbrev Kept : FileEntry → FileEntry → Type 0
  Kept = IsKept (open_store w prefix) w.hash length (open_store-IsLawful w d prefix) local_files dir

  AllVouched-IsStaged :
      (m : Machine w) (files : List TreeFile) (es : List FileEntry)
      → AllVouched w.hash m.files.read dir files es
      → All (Staged m) es
  AllVouched-IsStaged m [] [] v = tt
  AllVouched-IsStaged m [] (e ∷ es) v = elim v [ ]
  AllVouched-IsStaged m (f ∷ files) [] v = elim v [ ]
  AllVouched-IsStaged m (f ∷ files) (e ∷ es) (v, vs) = (
    (
      v.content,
      ground (arith, v.on_disk, v.same_path),
      ground (arith, v.size_ok),
      ground (arith, v.sum_ok),
    ),
    AllVouched-IsStaged m files es vs,
  )

  -- The object of an entry is not the local file of a later one.
  abbrev pub AreAside : List FileEntry → Type 0
  AreAside [] = Unit
  AreAside (f ∷ fs) =
      All (λ g. IsAside w prefix f.path (join_path (dir ∷ g.path ∷ []))) fs × AreAside fs

  aside-Kept :
      (f : FileEntry) (fs : List FileEntry)
      → All (λ g. IsAside w prefix f.path (join_path (dir ∷ g.path ∷ []))) fs
      → All (Kept f) fs
  aside-Kept f [] h = tt
  aside-Kept f (g ∷ gs) (h, hs) = (
    λ c s t e. open_store-read w prefix c f.path (join_path (dir ∷ g.path ∷ [])) s t h e,
    aside-Kept f gs hs,
  )

  aside-Steady : (fs : List FileEntry) → AreAside fs → Steady fs
  aside-Steady [] h = tt
  aside-Steady (f ∷ fs) (h, hs) = (aside-Kept f fs h, aside-Steady fs hs)

module _ (w : Outside) (d : IsS5cmd w) (world : World) where
  open world use {scanners, download, encode, decode, now}

  run_push-pulled :
      (rest : List Bytes) (a : Target) (bucket sha : Bytes) (entries : List FileEntry)
      (m t : Machine w) (u : Files) (out : List Bytes)
      → push_args scanners rest ≡ some (a, bucket)
      → pull w.hash (hub w world) download a.repo a.revision a.dir m.files ≡ (ok (sha, entries), u)
      → run_push w world rest m ≡ (ok out, t)
      → push_pulled w world a bucket (sha, entries) (record m { files = u }) ≡ (ok out, t)
  unfolding run_push
  run_push-pulled rest a bucket sha entries m t u out args pulled e =
      elim (Bool-cases (is_empty a.revision)) [
        | inl h ↦ ground (arith, e, args, h)
        | inr h ↦ ground (arith, e, args, h, pulled)
      ]

  push_pulled-ok :
      (a : Target) (bucket sha : Bytes) (entries : List FileEntry) (m t : Machine w)
      (out : List Bytes)
      → push_pulled w world a bucket (sha, entries) m ≡ (ok out, t)
      → let prefix = remote_prefix bucket a.repo sha in
        (out ≡ pushed_line a.repo sha prefix ∷ [])
        × (push (open_store w prefix) encode (λ n. n.files.read) now a.repo sha a.dir entries m
            ≡ (ok tt, t))
  unfolding push_pulled
  push_pulled-ok a bucket sha entries m t out e =
      let prefix = remote_prefix bucket a.repo sha in
      elim (Eff-cases
        (push (open_store w prefix) encode (λ n. n.files.read) now a.repo sha a.dir entries) m) [
          | inl (v, p) ↦ (ground (arith, e, p), ground (arith, e, p))
          | inr (x, v, p) ↦ ground (arith, e, p)
        ]

  run_verify-ok :
      (prefix : Bytes) (t : Machine w)
      → verify (open_store w prefix) decode t ≡ ok tt
      → run_verify w world (prefix ∷ []) t ≡ (ok (verified_line prefix ∷ []), t)
  unfolding run_verify
  run_verify-ok prefix t h = rw h refl

  -- If `fornax push` succeeds, it prints the prefix it has pushed to, and `fornax verify` of that
  -- prefix then succeeds, whatever was stored there before. s5cmd is as documented, the files that
  -- were pulled lie apart from each other and from the manifest in the store, the prefix is a bucket or
  -- a directory where the object of none is the local file of a later one, and the manifest survives
  -- its encoding.
  pub run_push-verify :
      (rest : List Bytes) (a : Target) (bucket sha : Bytes) (entries : List FileEntry)
      (m t : Machine w) (u : Files) (out : List Bytes)
      → push_args scanners rest ≡ some (a, bucket)
      → pull w.hash (hub w world) download a.repo a.revision a.dir m.files ≡ (ok (sha, entries), u)
      → let prefix = remote_prefix bucket a.repo sha in
        Separate w d prefix a.dir entries
        → AreAside w d prefix a.dir entries
        → let prefix = remote_prefix bucket a.repo sha in
          let L = open_store-IsLawful w d prefix in
          All (λ f. L.IsApart manifest_name f.path) entries
          → decode (encode (manifest_of now a.repo sha entries))
            ≡ some (manifest_of now a.repo sha entries)
          → run_weights w world (codes "push") rest m ≡ (ok out, t)
          → let prefix = remote_prefix bucket a.repo sha in
            (out ≡ pushed_line a.repo sha prefix ∷ [])
            × (run_weights w world (codes "verify") (prefix ∷ []) t
                ≡ (ok (verified_line prefix ∷ []), t))
  unfolding run_weights codes equal
  run_push-verify rest a bucket sha entries m t u out args pulled separate aside apart json e =
      let prefix = remote_prefix bucket a.repo sha in
      let (printed, pushed) =
        push_pulled-ok a bucket sha entries (record m { files = u }) t out
          (run_push-pulled rest a bucket sha entries m t u out args pulled e) in
      let (files, found) =
        pull-verified w.hash (hub w world) download a.repo a.revision a.dir m.files u sha entries
          pulled in
      let staged =
        AllVouched-IsStaged w d prefix a.dir (record m { files = u }) files entries
          (verify_local-AllVouched w.hash u.read a.dir files entries found) in
      (
        printed,
        run_verify-ok prefix t (
            push-verify (open_store w prefix) w.hash length (open_store-IsLawful w d prefix) encode
              decode (λ n. n.files.read) now a.repo sha a.dir entries (record m { files = u }) t
              staged (aside-Steady w d prefix a.dir entries aside) separate apart json pushed),
      )

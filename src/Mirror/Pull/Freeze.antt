-- ===== src/Mirror/Pull/Freeze.antt =====
-- What `verifyLocal` vouches for, and a frozen directory is a store that verifies.
use llmops.Prelude.{
  ◌≡◌, ◌≢◌, ◌⊎◌, inl, inr, Option, some, List, [], ◌∷◌, arith, ok, All, length, Result-cases,
  Option-cases, Bool-cases,
}
use llmops.Strings.{Bytes, is_empty}
use llmops.Strings.Laws.{equal_iff, is_empty_iff}
use llmops.Paths.{join_path}
use llmops.Mirror.Effects.{Eff-cases}
use llmops.Mirror.Policy.{TreeFile}
use llmops.Mirror.Store.Local.{
  Files, local_store, local_put, local_get, local_path, local_store-IsLawful,
}
use llmops.Mirror.Push.{
  FileEntry, StoreManifest, manifest_name, manifest_of, write_manifest, verify, read_manifest,
}
use llmops.Mirror.Push.Complete.{verify-Holds, Holds-put}
use llmops.Mirror.Push.Laws.{Holds}
use llmops.Mirror.Pull.{Hub, verify_entry, verify_local, fetch_tree, freeze}

module _ (hash : Bytes → Bytes) (disk : Bytes → Option Bytes) (dir : Bytes) where
  -- The local file has the size, and the sum where the tree states one, that the tree says; the
  -- entry states what is there.
  pub record IsVouched (f : TreeFile) (e : FileEntry) : Type 0 where
    pub content : Bytes
    pub on_disk : disk (join_path (dir ∷ f.path ∷ [])) ≡ some content
    pub same_path : e.path ≡ f.path
    pub size_ok : (length content ≡ f.size) × (e.size ≡ f.size)
    pub sum_ok : e.sha256 ≡ hash content
    pub stated_sum : (f.sha256 ≡ []) ⊎ (hash content ≡ f.sha256)

  abbrev pub AllVouched : List TreeFile → List FileEntry → Type 0
  AllVouched [] [] = Unit
  AllVouched [] (e ∷ es) = ⊥
  AllVouched (f ∷ fs) [] = ⊥
  AllVouched (f ∷ fs) (e ∷ es) = IsVouched f e × AllVouched fs es

  verify_entry-IsVouched :
      (f : TreeFile) (e : FileEntry)
      → verify_entry hash (disk (join_path (dir ∷ f.path ∷ []))) f ≡ ok e
      → IsVouched f e
  unfolding verify_entry
  verify_entry-IsVouched f e h = elim (Option-cases (disk (join_path (dir ∷ f.path ∷ [])))) [
    | inl p ↦ ground arith
    | inr (c, p) ↦ record {
      content = c;
      on_disk = p;
      same_path = ground arith;
      size_ok = (ground arith, ground arith);
      sum_ok = ground arith;
      stated_sum = elim (Bool-cases (is_empty f.sha256)) [
        | inl none_stated ↦ inl ((is_empty_iff f.sha256).0 none_stated)
        | inr stated ↦ inr (ground (arith, stated, equal_iff (hash c) f.sha256))
      ];
    }
  ]

  -- Where `verifyLocal` succeeds it has an entry for each file of the tree, in order, and vouches
  -- for it: the file is there with the tree's size, its sum is the entry's, and the tree's where the
  -- tree states one.
  pub verify_local-AllVouched :
      (fs : List TreeFile) (es : List FileEntry)
      → verify_local hash disk dir fs ≡ ok es
      → AllVouched fs es
  unfolding verify_local
  verify_local-AllVouched [] [] h = tt
  verify_local-AllVouched [] (e ∷ es) h = cc
  verify_local-AllVouched (f ∷ fs) es h =
      elim (Result-cases (verify_entry hash (disk (join_path (dir ∷ f.path ∷ []))) f)) [
        | inr (x, p) ↦ ground arith
        | inl (e, p) ↦ elim (Result-cases (verify_local hash disk dir fs)) [
          | inr (x, q) ↦ ground arith
          | inl (rest, q) ↦
              let same : es ≡ e ∷ rest = ground arith in
              rw same (verify_entry-IsVouched f e p, verify_local-AllVouched fs rest q)
        ]
      ]

module _ (hash : Bytes → Bytes) (dir : Bytes) where
  AllVouched-Holds :
      (fs : Files) (files : List TreeFile) (es : List FileEntry)
      → AllVouched hash fs.read dir files es
      → All (Holds (local_store hash dir) hash length (local_store-IsLawful hash dir) fs) es
  unfolding local_get local_path
  AllVouched-Holds fs [] [] v = tt
  AllVouched-Holds fs [] (e ∷ es) v = elim v [ ]
  AllVouched-Holds fs (f ∷ files) [] v = elim v [ ]
  AllVouched-Holds fs (f ∷ files) (e ∷ es) (v, vs) = (
    (
      v.content,
      ground (arith, v.on_disk, v.same_path),
      ground (arith, v.size_ok),
      ground (arith, v.sum_ok),
    ),
    AllVouched-Holds fs files es vs,
  )

  abbrev pub OffManifest : List FileEntry → Type 0
  OffManifest = All (λ e. local_path dir manifest_name ≢ local_path dir e.path)

  -- A directory that `Freeze` has frozen is a store that `Verify` accepts, if no file of the tree
  -- lies where the manifest does and the manifest survives its encoding.
  pub freeze-verify :
      (encode : StoreManifest → Bytes) (decode : Bytes → Option StoreManifest) (hub : Hub)
      (now repo revision sha : Bytes) (files : List TreeFile) (entries : List FileEntry)
      (fs fs' : Files) (frozen : Bytes)
      → fetch_tree hub repo revision ≡ ok (sha, files)
      → verify_local hash fs.read dir files ≡ ok entries
      → OffManifest entries
      → decode (encode (manifest_of now repo sha entries)) ≡ some (manifest_of now repo sha entries)
      → freeze hash encode hub now repo revision dir fs ≡ (ok frozen, fs')
      → (frozen ≡ sha) × (verify (local_store hash dir) decode fs' ≡ ok tt)
  unfolding freeze write_manifest read_manifest local_store-IsLawful
  freeze-verify encode decode hub now repo revision sha files entries fs fs' frozen fetched local
        off json h =
      let S = local_store hash dir in
      let L = local_store-IsLawful hash dir in
      let c = encode (manifest_of now repo sha entries) in
      let held =
        AllVouched-Holds fs files entries
          (verify_local-AllVouched hash fs.read dir files entries local) in
      elim (Eff-cases (local_put hash dir c manifest_name) fs) [
        | inr (x, u, p) ↦ ground arith
        | inl (u, p) ↦
            let kept = Holds-put S hash length L c manifest_name entries fs u p off held in
            let there = L.get-put c manifest_name fs u p in
            let readable : read_manifest S decode u ≡ ok (manifest_of now repo sha entries) =
              ground (arith, there, json) in
            let same : u ≡ fs' = ground arith in
            (
              ground arith,
              rw (← same) (
                  (verify-Holds S hash length L decode u).1
                    (manifest_of now repo sha entries, readable, kept)),
            )
      ]

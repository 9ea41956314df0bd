-- ===== src/Mirror/Push/Complete.antt =====
-- A push completes the store or leaves its manifest as it was.
use llmops.Prelude.{
  ℕ, ◌≡◌, ◌∙◌, inl, inr, Option, some, List, [], ◌∷◌, ◌↔◌, arith, ok, err, All, Result-cases,
}
use llmops.Strings.{Bytes}
use llmops.Mirror.Effects.{Eff-cases}
use llmops.Mirror.Store.{Store, IsLawful}
use llmops.Mirror.Push.{
  FileEntry, StoreManifest, MirrorError, manifest_name, manifest_of, push_files, write_manifest,
  push, read_manifest, verify,
}
use llmops.Mirror.Push.Laws.{
  Holds, IsStaged, IsSteady, IsSeparate, push_files_apart, push_files-Holds, push_files-of_Holds,
  Holds-verify_files, verify_files-Holds,
}

module _ (S : Store) (hash : Bytes → Bytes) (count : Bytes → ℕ) (L : IsLawful S hash count) where
  open S use {State, put, get}
  open L use {IsApart, get-put, get-put_apart, put_failed}

  pub Holds-put :
      (c r : Bytes) (fs : List FileEntry) (s t : State)
      → put c r s ≡ (ok tt, t)
      → All (λ f. IsApart r f.path) fs
      → All (Holds S hash count L s) fs
      → All (Holds S hash count L t) fs
  Holds-put c r [] s t e a h = tt
  Holds-put c r (f ∷ fs) s t e (a, others) ((b, g, n, m), hs) =
      ((b, get-put_apart c r f.path s t e a ∙ g, n, m), Holds-put c r fs s t e others hs)

  module _ (encode : StoreManifest → Bytes) (decode : Bytes → Option StoreManifest)
      (disk : S.State → Bytes → Option Bytes) (now repo sha dir : Bytes)
      (files : List FileEntry) where
    -- A push that succeeds leaves a store that `Verify` accepts, whatever was there before: the
    -- local files are what the entries say, no put writes over one that is still to be put, the
    -- entries name different objects, none of them the manifest, and the manifest survives its
    -- encoding.
    pub push-verify :
        (s t : State)
        → All (IsStaged S hash count L disk dir s) files
        → IsSteady S hash count L disk dir files
        → IsSeparate S hash count L disk dir files
        → All (λ f. IsApart manifest_name f.path) files
        → decode (encode (manifest_of now repo sha files)) ≡ some (manifest_of now repo sha files)
        → push S encode disk now repo sha dir files s ≡ (ok tt, t)
        → verify S decode t ≡ ok tt
    unfolding push write_manifest verify read_manifest
    push-verify s t staged steady separate apart json e =
        elim (Eff-cases (push_files S disk dir files) s) [
          | inr (x, u, p) ↦ ground arith
          | inl (u, p) ↦
              elim (Eff-cases (put (encode (manifest_of now repo sha files)) manifest_name) u) [
                | inr (x, v, d) ↦ ground arith
                | inl (v, d) ↦
                    let there =
                      get-put (encode (manifest_of now repo sha files)) manifest_name u v d in
                    let held =
                      push_files-Holds S hash count L disk dir files s u staged steady separate p in
                    let kept =
                      Holds-put (encode (manifest_of now repo sha files)) manifest_name files u v d
                        apart held in
                    ground (arith, Holds-verify_files S hash count L files v kept, there, json)
              ]
        ]

    -- A push that fails, at whatever step, leaves the manifest object as it was: a store without one
    -- stays incomplete.
    pub push_failed-manifest :
        (s t : State) (x : MirrorError)
        → All (λ f. IsApart f.path manifest_name) files
        → push S encode disk now repo sha dir files s ≡ (err x, t)
        → (get manifest_name t ≡ get manifest_name s)
          × (read_manifest S decode t ≡ read_manifest S decode s)
    unfolding push write_manifest read_manifest
    push_failed-manifest s t x apart e = elim (Eff-cases (push_files S disk dir files) s) [
      | inr (y, u, p) ↦
          ground (
            arith,
            push_files_apart S hash count L disk dir files manifest_name s u (err y) apart p,
          )
      | inl (u, p) ↦
          elim (Eff-cases (put (encode (manifest_of now repo sha files)) manifest_name) u) [
            | inr (y, v, d) ↦ ground (
              arith,
              push_files_apart S hash count L disk dir files manifest_name s u (ok tt) apart p,
              put_failed (encode (manifest_of now repo sha files)) manifest_name u v y d,
            )
            | inl (v, d) ↦ ground arith
          ]
    ]

    -- After a push that succeeds, its loop over the same files uploads nothing more: it ends in the
    -- state it started from, if no put writes over a local file that is still to be put.
    pub push_files_idem :
        (s t : State)
        → All (IsStaged S hash count L disk dir s) files
        → IsSteady S hash count L disk dir files
        → IsSeparate S hash count L disk dir files
        → All (λ f. IsApart manifest_name f.path) files
        → push S encode disk now repo sha dir files s ≡ (ok tt, t)
        → push_files S disk dir files t ≡ (ok tt, t)
    unfolding push write_manifest
    push_files_idem s t staged steady separate apart e =
        elim (Eff-cases (push_files S disk dir files) s) [
          | inr (x, u, p) ↦ ground arith
          | inl (u, p) ↦
              elim (Eff-cases (put (encode (manifest_of now repo sha files)) manifest_name) u) [
                | inr (x, v, d) ↦ ground arith
                | inl (v, d) ↦
                    let held =
                      push_files-Holds S hash count L disk dir files s u staged steady separate p in
                    let kept =
                      Holds-put (encode (manifest_of now repo sha files)) manifest_name files u v d
                        apart held in
                    ground (arith, push_files-of_Holds S hash count L disk dir files v kept)
              ]
        ]

  -- `Verify` accepts exactly the stores that have a readable manifest and hold what it lists.
  pub verify-Holds :
      (decode : Bytes → Option StoreManifest) (s : State)
      → (verify S decode s ≡ ok tt) ↔ (
          (sm : StoreManifest) × (read_manifest S decode s ≡ ok sm)
          × All (Holds S hash count L s) sm.files)
  unfolding verify
  verify-Holds decode s = (
    λ h. elim (Result-cases (read_manifest S decode s)) [
      | inr (x, p) ↦ ground arith
      | inl (sm, p) ↦ (sm, p, verify_files-Holds S hash count L sm.files s (ground arith))
    ],
    λ (sm, p, held). ground (arith, Holds-verify_files S hash count L sm.files s held, p),
  )

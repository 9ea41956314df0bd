-- ===== src/Mirror/Store/Open.antt =====
-- `OpenStore` (internal/mirror/store.go) and `(*LocalStore).List`: a prefix names a bucket behind
-- s5cmd or a directory, and the store works on the part of the machine that it is for.
-- filepath.WalkDir is what it visits, and filepath.Rel an argument.
use llmops.Prelude.{
  ℕ, ◌≡◌, ◌≢◌, ◌⊎◌, inl, inr, refl, sym, ap, ◌∙◌, Bool, true, false, ◌||◌, Option, none, some, List,
  [], ◌∷◌, ◌++◌, Result, ok, err, length, arith, ◌>>=◌, if◌then◌else◌, Bool-cases,
}
use llmops.Strings.{Bytes, codes, has_prefix, trim_suffix, trim_prefix}
use llmops.Strings.Laws.{equal_iff}
use llmops.Mirror.Store.{Store, StoreError, failed, IsLawful}
use llmops.Mirror.Store.Local.{
  Files, write, local_path, local_put, local_store, local_store-IsLawful,
}
use llmops.Mirror.Store.S5cmd.{Outside, IsS5cmd, s5cmd_store}
use llmops.Mirror.Store.S5cmd.Lawful.{s5cmd_store-IsLawful}

-- A store on a part of a larger state.
module _ (S : Store) (M : Type 0) (part : M → S.State) (change : S.State → M → M) where
  abbrev pub focus : Store
  focus = record {
    State = M;
    put = λ c r m. let x = S.put c r (part m) in (x.0, change x.1 m);
    get = λ r m. S.get r (part m);
    size = λ r m. S.size r (part m);
    sha256 = λ r m. S.sha256 r (part m);
  }

  pub focused :
      {B : Type 0} (x : Result StoreError B × S.State) (m t : M) (r : Result StoreError B)
      → ((u : S.State) → part (change u m) ≡ u)
      → ◌≡◌ {A = Result StoreError B × M} (x.0, change x.1 m) (r, t)
      → x ≡ (r, part t)
  focused {B} x m t r h e =
      let first : x.0 ≡ r = ap (λ y. y.0) e in
      let second : x.1 ≡ part t = sym (h x.1) ∙ ap (λ y. part (y.1)) e in
      ground (arith, first, second)

  -- It is lawful if the part is what it was changed to, and a change to what it is changes nothing.
  unfoldable pub focus-IsLawful :
      (hash : Bytes → Bytes) (count : Bytes → ℕ)
      → IsLawful S hash count
      → ((u : S.State) (m : M) → part (change u m) ≡ u)
      → ((m : M) → change (part m) m ≡ m)
      → IsLawful focus hash count
  focus-IsLawful hash count L get-set set-get = record {
    IsApart = L.IsApart;
    get-put = λ c r s t e.
        L.get-put c r (part s) (part t)
          (focused (S.put c r (part s)) s t (ok tt) (λ u. get-set u s) e);
    get-put_apart = λ c r q s t e a.
        L.get-put_apart c r q (part s) (part t)
          (focused (S.put c r (part s)) s t (ok tt) (λ u. get-set u s) e) a;
    put_failed = λ c r s t x e.
        let after : S.put c r (part s) ≡ (err x, part t) =
          focused (S.put c r (part s)) s t (err x) (λ u. get-set u s) e in
        let same : part t ≡ part s = L.put_failed c r (part s) (part t) x after in
        sym (ap (λ y. y.1) e)
        ∙ ap (λ y. change (y.1) s) after
        ∙ ap (λ u. change u s) same
        ∙ set-get s;
    size-of_get = λ r c s e. L.size-of_get r c (part s) e;
    sha256-of_get = λ r c s e. L.sha256-of_get r c (part s) e;
    get-of_sha256 = λ r h s e. L.get-of_sha256 r h (part s) e;
  }

-- What the commands work on: the files of the machine, and the buckets.
pub record Machine (w : Outside) : Type 0 where
  pub files : Files
  pub buckets : w.State

abbrev pub is_bucket : Bytes → Bool
is_bucket prefix = has_prefix prefix (codes "s3://")

module _ (w : Outside) where
  abbrev bucket_store : Bytes → Store
  bucket_store prefix =
      focus (s5cmd_store w (trim_suffix prefix (codes "/") ++ codes "/")) (Machine w)
        (λ m. m.buckets) (λ u m. record m { buckets = u })

  abbrev directory_store : Bytes → Store
  directory_store prefix =
      focus (local_store w.hash (trim_prefix prefix (codes "file://"))) (Machine w) (λ m. m.files)
        (λ u m. record m { files = u })

  abbrev either : {A : Type 0} → Bool → A → A → A
  either true a b = a
  either false a b = b

  abbrev store_for : Bool → Bytes → Store
  store_for test prefix = record {
    State = Machine w;
    put = either test (bucket_store prefix).put (directory_store prefix).put;
    get = either test (bucket_store prefix).get (directory_store prefix).get;
    size = either test (bucket_store prefix).size (directory_store prefix).size;
    sha256 = either test (bucket_store prefix).sha256 (directory_store prefix).sha256;
  }

  -- `OpenStore`
  abbrev pub open_store : Bytes → Store
  open_store prefix = store_for (is_bucket prefix) prefix

  unfoldable store_for-IsLawful :
      IsS5cmd w → (test : Bool) (prefix : Bytes) → IsLawful (store_for test prefix) w.hash length
  unfolding focus-IsLawful
  store_for-IsLawful d true prefix =
      focus-IsLawful (s5cmd_store w (trim_suffix prefix (codes "/") ++ codes "/")) (Machine w)
        (λ m. m.buckets) (λ u m. record m { buckets = u }) w.hash length
        (s5cmd_store-IsLawful w d (trim_suffix prefix (codes "/") ++ codes "/")) (λ u m. refl)
        (λ m. refl)
  store_for-IsLawful d false prefix =
      focus-IsLawful (local_store w.hash (trim_prefix prefix (codes "file://"))) (Machine w)
        (λ m. m.files) (λ u m. record m { files = u }) w.hash length
        (local_store-IsLawful w.hash (trim_prefix prefix (codes "file://"))) (λ u m. refl)
        (λ m. refl)

  -- Whatever prefix is opened, what it is opened to is a store as its clients expect it, if the
  -- program s5cmd is as documented.
  unfoldable pub open_store-IsLawful :
      IsS5cmd w → (prefix : Bytes) → IsLawful (open_store prefix) w.hash length
  unfolding store_for-IsLawful
  open_store-IsLawful d prefix = store_for-IsLawful d (is_bucket prefix) prefix

  -- A put to what the prefix is opened to does not write the file at `p`: the prefix names a bucket, or
  -- a directory in which the object is another file.
  abbrev pub IsAside : Bytes → Bytes → Bytes → Type 0
  IsAside prefix remote p =
      (is_bucket prefix ≡ true) ⊎ (local_path (trim_prefix prefix (codes "file://")) remote ≢ p)

  directory-read :
      (prefix c remote p : Bytes) (m t : Machine w)
      → local_path (trim_prefix prefix (codes "file://")) remote ≢ p
      → (directory_store prefix).put c remote m ≡ (ok tt, t)
      → t.files.read p ≡ m.files.read p
  unfolding local_put write
  directory-read prefix c remote p m t ne e =
      elim (Bool-cases
        (m.files.writable (local_path (trim_prefix prefix (codes "file://")) remote))) [
          | inl b ↦
              ground (
                arith,
                e,
                b,
                equal_iff (local_path (trim_prefix prefix (codes "file://")) remote) p,
              )
          | inr b ↦ ground (arith, e, b)
        ]

  store_for-read :
      (test : Bool) (prefix c remote p : Bytes) (m t : Machine w)
      → (test ≡ true) ⊎ (local_path (trim_prefix prefix (codes "file://")) remote ≢ p)
      → (store_for test prefix).put c remote m ≡ (ok tt, t)
      → t.files.read p ≡ m.files.read p
  store_for-read true prefix c remote p m t h e = ap (λ x. x.1.files.read p) (sym e)
  store_for-read false prefix c remote p m t (inl k) e = cc k
  store_for-read false prefix c remote p m t (inr ne) e = directory-read prefix c remote p m t ne e

  pub open_store-read :
      (prefix c remote p : Bytes) (m t : Machine w)
      → IsAside prefix remote p
      → (open_store prefix).put c remote m ≡ (ok tt, t)
      → t.files.read p ≡ m.files.read p
  open_store-read prefix = store_for-read (is_bucket prefix) prefix

-- What WalkDir hands over at one path: the error of the visit, if there is one, and whether it says
-- that nothing is there.
pub record Visited : Type 0 where
  pub path : Bytes
  pub name : Bytes
  pub is_dir : Bool
  pub failure : Option Bool

-- The error of `List` is whether nothing is there.
module _ (rel : Bytes → Bytes → Option Bytes) (root : Bytes) where
  abbrev relative : Visited → Result Bool Bytes
  relative v = elim (rel root v.path) [ none ↦ err false | some p ↦ ok p ]

  -- The function that WalkDir calls, along the visits.
  unfoldable pub walk_files : List Visited → Result Bool (List Bytes)
  walk_files [] = ok []
  walk_files (v ∷ vs) =
      let rest = walk_files vs in
      elim v.failure [
        | some missing ↦ err missing
        | none ↦
            if v.is_dir || has_prefix v.name (codes ".put-")
            then rest
            else relative v >>= λ p. rest >>= λ ps. ok (p ∷ ps)
      ]

  -- `(*LocalStore).List`
  unfoldable pub local_list : List Visited → Result StoreError (List Bytes)
  unfolding walk_files
  local_list visits = elim (walk_files visits) [
    | ok ps ↦ ok ps
    | err true ↦ ok []
    | err false ↦ err (failed root)
  ]

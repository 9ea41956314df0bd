-- ===== src/Mirror/Store/S5cmd/Lawful.antt =====
-- The store behind s5cmd is a store as its clients expect it.
use mathlib.Core.List.{append_cancel_left}
use llmops.Prelude.{
  ◌≡◌, ◌≢◌, refl, sym, ap, ◌∙◌, inl, inr, none, some, ◌++◌, Result, ok, err, length, Option-cases,
}
use llmops.Strings.{Bytes}
use llmops.Mirror.Store.{StoreError, failed, IsLawful}
use llmops.Mirror.Store.S5cmd.{
  Ran, printed, exited, Outside, IsS5cmd, put_result, get_result, size_result, size_field, scanned,
  third, hash_result, s5cmd_put, s5cmd_get, s5cmd_size, s5cmd_sha256, s5cmd_store,
}

module _ (w : Outside) (d : IsS5cmd w) (prefix : Bytes) where
  -- A get yields what is stored, and an error where nothing is.
  get_stored :
      (r c : Bytes) (s : w.State)
      → d.object (prefix ++ r) s ≡ some c
      → s5cmd_get w prefix r s ≡ ok c
  unfolding s5cmd_get
  get_stored r c s h = ap (get_result w prefix r) (d.download_stored c (prefix ++ r) s h)

  get_absent :
      (r : Bytes) (s : w.State)
      → d.object (prefix ++ r) s ≡ none
      → s5cmd_get w prefix r s ≡ err (failed r)
  unfolding s5cmd_get
  get_absent r s h =
      let (stderr, e) = d.download_absent (prefix ++ r) s h in ap (get_result w prefix r) e

  stored_of_get :
      (r c : Bytes) (s : w.State)
      → s5cmd_get w prefix r s ≡ ok c
      → d.object (prefix ++ r) s ≡ some c
  stored_of_get r c s h = elim (Option-cases (d.object (prefix ++ r) s)) [
    | inl e ↦ cc (get_absent r s e, h)
    | inr (c', e) ↦ let same : ok c' ≡ ok c = sym (get_stored r c' s e) ∙ h in e ∙ ap some (cc same)
  ]

  get_same :
      (r : Bytes) (s t : w.State)
      → d.object (prefix ++ r) t ≡ d.object (prefix ++ r) s
      → s5cmd_get w prefix r t ≡ s5cmd_get w prefix r s
  get_same r s t h = elim (Option-cases (d.object (prefix ++ r) s)) [
    | inl e ↦ get_absent r t (h ∙ e) ∙ sym (get_absent r s e)
    | inr (c, e) ↦ get_stored r c t (h ∙ e) ∙ sym (get_stored r c s e)
  ]

  -- How an upload ends, by how the program does.
  put_cases :
      (r : Bytes) (x : Ran × w.State) (t : w.State)
      → ◌≡◌ {A = Result StoreError (Unit {0}) × w.State} (put_result w prefix r x.0, x.1) (ok tt, t)
      → (out : Bytes) × (x ≡ (printed out, t))
  put_cases r (printed out, u) t h = (out, ap (λ v. (printed out, v)) (ap (λ y. y.1) h))
  put_cases r (exited stderr, u) t h = cc (ap (λ y. y.0) h)

  put_failed_cases :
      (r : Bytes) (x : Ran × w.State) (t : w.State) (e : StoreError)
      → ◌≡◌ {A = Result StoreError (Unit {0}) × w.State} (put_result w prefix r x.0, x.1) (err e, t)
      → (stderr : Bytes) × (x ≡ (exited stderr, t))
  put_failed_cases r (printed out, u) t e h = cc (ap (λ y. y.0) h)
  put_failed_cases r (exited stderr, u) t e h =
      (stderr, ap (λ v. (exited stderr, v)) (ap (λ y. y.1) h))

  s5cmd_get-put :
      (c r : Bytes) (s t : w.State)
      → s5cmd_put w prefix c r s ≡ (ok tt, t)
      → s5cmd_get w prefix r t ≡ ok c
  unfolding s5cmd_put
  s5cmd_get-put c r s t h =
      let (out, e) = put_cases r (w.upload c (prefix ++ r) s) t h in
      get_stored r c t (d.upload_stores c (prefix ++ r) out s t e)

  s5cmd_get-put_apart :
      (c r q : Bytes) (s t : w.State)
      → s5cmd_put w prefix c r s ≡ (ok tt, t)
      → r ≢ q
      → s5cmd_get w prefix q t ≡ s5cmd_get w prefix q s
  unfolding s5cmd_put
  s5cmd_get-put_apart c r q s t h n =
      let (out, e) = put_cases r (w.upload c (prefix ++ r) s) t h in
      get_same q s t (
        d.upload_apart c (prefix ++ r) (prefix ++ q) out s t e
          (λ p. n (append_cancel_left prefix r q p)))

  s5cmd_put_failed :
      (c r : Bytes) (s t : w.State) (e : StoreError) → s5cmd_put w prefix c r s ≡ (err e, t) → t ≡ s
  unfolding s5cmd_put
  s5cmd_put_failed c r s t e h =
      let (stderr, x) = put_failed_cases r (w.upload c (prefix ++ r) s) t e h in
      d.upload_fails c (prefix ++ r) stderr s t x

  s5cmd_size-of_get :
      (r c : Bytes) (s : w.State)
      → s5cmd_get w prefix r s ≡ ok c
      → s5cmd_size w prefix r s ≡ ok (some (length c))
  unfolding s5cmd_size size_result
  s5cmd_size-of_get r c s h =
      let (out, a, b, rest, l, f) = d.ls_stored c (prefix ++ r) s (stored_of_get r c s h) in
      ap (size_result w prefix r) l
      ∙ ap (λ fs. size_field w prefix r (third fs)) f
      ∙ ap (scanned w prefix r) (d.scan_decimal (length c))

  s5cmd_sha256-of_get :
      (r c : Bytes) (s : w.State)
      → s5cmd_get w prefix r s ≡ ok c
      → s5cmd_sha256 w prefix r s ≡ ok (w.hash c)
  unfolding s5cmd_sha256
  s5cmd_sha256-of_get r c s h = rw d.temp_made (ap (hash_result w prefix) h)

  hash_result_cases :
      (x : Result StoreError Bytes) (h : Bytes)
      → hash_result w prefix x ≡ ok h
      → (c : Bytes) × (x ≡ ok c) × (w.hash c ≡ h)
  hash_result_cases (ok c) h e = (c, refl, cc e)
  hash_result_cases (err x) h e = cc e

  s5cmd_get-of_sha256 :
      (r h : Bytes) (s : w.State)
      → s5cmd_sha256 w prefix r s ≡ ok h
      → (c : Bytes) × (s5cmd_get w prefix r s ≡ ok c) × (w.hash c ≡ h)
  unfolding s5cmd_sha256
  s5cmd_get-of_sha256 r h s e = hash_result_cases (s5cmd_get w prefix r s) h (rw d.temp_made at e)

  -- Where s5cmd and S3 do what is documented of them, the store behind s5cmd meets the interface
  -- that Push and Verify rely on, objects being apart if their names differ.
  pub s5cmd_store-IsLawful : IsLawful (s5cmd_store w prefix) w.hash length
  s5cmd_store-IsLawful = record {
    IsApart = λ r q. r ≢ q;
    get-put = s5cmd_get-put;
    get-put_apart = s5cmd_get-put_apart;
    put_failed = s5cmd_put_failed;
    size-of_get = s5cmd_size-of_get;
    sha256-of_get = s5cmd_sha256-of_get;
    get-of_sha256 = s5cmd_get-of_sha256;
  }

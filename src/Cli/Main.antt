-- ===== src/Cli/Main.antt =====
-- `run`, `versionString` and `dispatch` (cmd/fornax/main.go): the choice of a verb, and the exit code.
-- The verbs are an interface, each a function on a state; what debug.ReadBuildInfo says is an
-- argument.
use llmops.Prelude.{
  ℕ, ◌≡◌, refl, sym, ap, ◌∙◌, ◌↔◌, ◌⊎◌, inl, inr, Bool, true, false, Option, none, some, List, [],
  ◌∷◌, ◌++◌, if◌then◌else◌, Result, ok, err, ltb, length, arith, Option-cases, zero, suc,
}
use llmops.Strings.{Bytes, codes, equal, is_empty, has_member}
use llmops.Manifest.{or_default}
use llmops.Cli.{Fault, usage, failure}

-- The error that a verb ends with: none, a `usageErr`, or another.
pub data Ended : Type 0 where
  done misused broken : Ended

unfoldable pub ended : {E A : Type 0} → Result (Fault E) A → Ended
ended (ok a) = done
ended (err usage) = misused
ended (err (failure e)) = broken

-- The verbs, over the state that they work on.
pub record Verbs (S : Type 0) : Type 0 where
  pub weights : Bytes → List Bytes → S → Ended × S
  pub serving : Bytes → List Bytes → S → Ended × S
  pub install : List Bytes → S → Ended × S
  pub ps : List Bytes → S → Ended × S
  pub endpoint : List Bytes → S → Ended × S
  pub harness : List Bytes → S → Ended × S
  pub bench : List Bytes → S → Ended × S

-- `dispatch`
abbrev pub dispatch : List Bytes
dispatch =
    codes "pull"
    ∷ codes "freeze"
    ∷ codes "push"
    ∷ codes "verify"
    ∷ codes "list"
    ∷ codes "serve"
    ∷ codes "validate"
    ∷ codes "install"
    ∷ codes "ps"
    ∷ codes "endpoint"
    ∷ codes "run"
    ∷ codes "bench"
    ∷ codes "version"
    ∷ []

abbrev weight_verbs : List Bytes
weight_verbs = codes "pull" ∷ codes "freeze" ∷ codes "push" ∷ codes "verify" ∷ codes "list" ∷ []

abbrev serving_verbs : List Bytes
serving_verbs = codes "serve" ∷ codes "validate" ∷ []

abbrev exit_code : Ended → ℕ
exit_code done = 0
exit_code misused = 2
exit_code broken = 1

module _ {S : Type 0} (v : Verbs S) where
  -- The switch; `none` is its default.
  unfoldable pub verb_of : Bytes → List Bytes → Option (S → Ended × S)
  unfolding equal has_member
  verb_of cmd rest =
      if has_member weight_verbs cmd
      then some (v.weights cmd rest)
      else if has_member serving_verbs cmd
      then some (v.serving cmd rest)
      else if equal (codes "install") cmd
      then some (v.install rest)
      else if equal (codes "ps") cmd
      then some (v.ps rest)
      else if equal (codes "endpoint") cmd
      then some (v.endpoint rest)
      else if equal (codes "run") cmd
      then some (v.harness rest)
      else if equal (codes "bench") cmd
      then some (v.bench rest)
      else if equal (codes "version") cmd
      then some (λ s. (done, s))
      else none

  abbrev exited : Ended × S → ℕ × S
  exited (e, s) = (exit_code e, s)

  abbrev outcome : Option (S → Ended × S) → S → ℕ × S
  outcome none s = (2, s)
  outcome (some f) s = exited (f s)

  -- `run`
  unfoldable pub run : List Bytes → S → ℕ × S
  unfolding verb_of
  run [] s = (2, s)
  run (cmd ∷ rest) s = outcome (verb_of cmd rest) s

  abbrev is_some : {A : Type 0} → Option A → Bool
  is_some none = false
  is_some (some a) = true

  -- The switch knows exactly the verbs that `dispatch` lists.
  verb_of-dispatch :
      (cmd : Bytes) (rest : List Bytes) → is_some (verb_of cmd rest) ≡ has_member dispatch cmd
  unfolding verb_of has_member
  verb_of-dispatch cmd rest = ground arith

  exit_code_iff : (e : Ended) → (exit_code e ≡ 2) ↔ (e ≡ misused)
  exit_code_iff done = (λ h. ground (arith, h), λ h. cc h)
  exit_code_iff misused = (λ h. refl, λ h. refl)
  exit_code_iff broken = (λ h. ground (arith, h), λ h. cc h)

  -- The exit code is 2 exactly for a command that `dispatch` does not list, and for a verb of it that
  -- ends with a usage error.
  pub run-misused :
      (cmd : Bytes) (rest : List Bytes) (s : S)
      → ((run (cmd ∷ rest) s).0 ≡ 2) ↔ (
          (has_member dispatch cmd ≡ false)
          ⊎ ((f : S → Ended × S) × (verb_of cmd rest ≡ some f) × ((f s).0 ≡ misused)))
  unfolding run
  run-misused cmd rest s = elim (Option-cases (verb_of cmd rest)) [
    | inl e ↦
        let unlisted : has_member dispatch cmd ≡ false =
          sym (verb_of-dispatch cmd rest) ∙ ap is_some e in
        (λ h. inl unlisted, λ h. ap (λ o. (outcome o s).0) e)
    | inr (f, e) ↦
        let listed : has_member dispatch cmd ≡ true =
          sym (verb_of-dispatch cmd rest) ∙ ap is_some e in
        let ends : (run (cmd ∷ rest) s).0 ≡ exit_code (f s).0 = ap (λ o. (outcome o s).0) e in
        (
          λ h. inr (f, e, (exit_code_iff (f s).0).0 (sym ends ∙ h)),
          λ h. elim h [
            | inl k ↦ cc (k, listed)
            | inr (g, k, m) ↦ ap (λ o. (outcome o s).0) k ∙ (exit_code_iff (g s).0).1 m
          ],
        )
  ]

-- debug.BuildInfo: the version of the main module and the settings.
pub record BuildInfo : Type 0 where
  pub main_version : Bytes
  pub settings : List (Bytes × Bytes)

-- The loop over the settings; the last revision stays.
unfoldable pub revision_of : Bytes → List (Bytes × Bytes) → Bytes
unfolding equal
revision_of c [] = c
revision_of c ((k, x) ∷ rest) = revision_of (if equal k (codes "vcs.revision") then x else c) rest

abbrev main_of : Option BuildInfo → Bytes → Bytes
main_of none v = v
main_of (some info) v = or_default v info.main_version

abbrev commit_of : Option BuildInfo → Bytes → Bytes
unfolding revision_of
commit_of none c = c
commit_of (some info) c = if is_empty c then revision_of c info.settings else c

-- `buildIdentity`, for the values that the build stamps.
unfoldable pub build_identity : Bytes → Bytes → Option BuildInfo → Bytes × Bytes
unfolding commit_of
build_identity version commit info =
    (or_default (main_of info version) (codes "(devel)"), commit_of info commit)

unfoldable pub first_bytes : ℕ → Bytes → Bytes
first_bytes zero s = []
first_bytes (suc n) [] = []
first_bytes (suc n) (c ∷ s) = c ∷ first_bytes n s

-- `versionString`
unfoldable pub version_string : Bytes → Bytes → Option BuildInfo → Bytes
unfolding build_identity first_bytes
version_string version commit info =
    let (v, c) = build_identity version commit info in
    if is_empty c
    then v
    else v ++ (codes " (" ++ ((if ltb 12 (length c) then first_bytes 12 c else c) ++ codes ")"))

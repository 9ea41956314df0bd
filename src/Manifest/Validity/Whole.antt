-- ===== src/Manifest/Validity/Whole.antt =====
-- `Validate` accepts exactly the valid manifests.
use llmops.Prelude.{◌≡◌, refl, ◌≢◌, ◌↔◌, true, List, [], ◌∷◌, ◌++◌, arith, append-eq-nil, ok}
use llmops.Floats.{Floats}
use llmops.Manifest.{Manifest}
use llmops.Manifest.Patterns.{matches_name, matches_repo, matches_revision}
use llmops.Manifest.Problems.{Problem, SourceProblem}
use llmops.Manifest.Validate.{in_model, check_identity, problems, as_result, validate}
use llmops.Manifest.Validate.Fields.{check_source, required_args}
use llmops.Manifest.Validity.{IsValid, SourceOk}
use llmops.Manifest.Validity.Draft.{check_speculators_iff}
use llmops.Manifest.Validity.Engine.{check_gb10_iff, check_speculation_iff}
use llmops.Manifest.Validity.Fields.{
  check_source_iff, check_runtime_iff, check_dialect_iff, check_deploy_iff, check_load_iff,
  check_sizes_iff, check_required_iff, check_prompt_iff,
}

in_model_iff : (ps : List SourceProblem) → (in_model ps ≡ []) ↔ (ps ≡ [])
in_model_iff [] = (λ _. refl, λ _. refl)
in_model_iff (p ∷ ps) = (λ h. cc, λ h. cc)

check_identity_iff :
    (m : Manifest)
    → (check_identity m ≡ []) ↔ (
        (matches_name m.name ≡ true)
        × (matches_repo m.hf_repo ≡ true)
        × (matches_revision m.revision ≡ true)
        × SourceOk m
        × (m.format ≢ [])
        × (m.license ≢ []))
unfolding check_identity
check_identity_iff m = ground (arith, in_model_iff (check_source m), check_source_iff m)

both : {xs ys : List Problem} → xs ≡ [] → ys ≡ [] → xs ++ ys ≡ []
both {xs} {ys} a b = (append-eq-nil xs ys).1 (a, b)

module _ (F : Floats) (m : Manifest) where
  problems_to : problems F m ≡ [] → IsValid F m
  unfolding problems
  problems_to h =
      let (h1, r1) = (append-eq-nil _ _).0 h in
      let (h2, r2) = (append-eq-nil _ _).0 r1 in
      let (h3, r3) = (append-eq-nil _ _).0 r2 in
      let (h4, r4) = (append-eq-nil _ _).0 r3 in
      let (h5, r5) = (append-eq-nil _ _).0 r4 in
      let (h6, r6) = (append-eq-nil _ _).0 r5 in
      let (h7, r7) = (append-eq-nil _ _).0 r6 in
      let (h8, r8) = (append-eq-nil _ _).0 r7 in
      let (h9, r9) = (append-eq-nil _ _).0 r8 in
      let (h10, h11) = (append-eq-nil _ _).0 r9 in
      let (name, repo, revision, source, format, license) = (check_identity_iff m).0 h1 in
      record {
        name_ok = name;
        repo_ok = repo;
        revision_ok = revision;
        source_ok = source;
        format_ok = format;
        license_ok = license;
        runtime_ok = (check_runtime_iff m).0 h2;
        dialect_ok = (check_dialect_iff m).0 h3;
        deploy_ok = (check_deploy_iff m).0 h4;
        load_ok = (check_load_iff m).0 h5;
        sizes_ok = (check_sizes_iff m).0 h6;
        required_ok = (check_required_iff (required_args m.hf_repo) m.args).0 h7;
        gb10_ok = (check_gb10_iff F m).0 h8;
        speculators_ok = (check_speculators_iff m).0 h9;
        speculation_ok = (check_speculation_iff m).0 h10;
        prompt_ok = (check_prompt_iff m.system_prompt).0 h11;
      }

  problems_from : IsValid F m → problems F m ≡ []
  unfolding problems
  problems_from v =
      both
        ((check_identity_iff m).1
          (v.name_ok, v.repo_ok, v.revision_ok, v.source_ok, v.format_ok, v.license_ok))
        (both ((check_runtime_iff m).1 v.runtime_ok) (
          both ((check_dialect_iff m).1 v.dialect_ok) (
            both ((check_deploy_iff m).1 v.deploy_ok) (
              both ((check_load_iff m).1 v.load_ok) (
                both ((check_sizes_iff m).1 v.sizes_ok) (
                  both ((check_required_iff (required_args m.hf_repo) m.args).1 v.required_ok) (
                    both ((check_gb10_iff F m).1 v.gb10_ok) (
                      both ((check_speculators_iff m).1 v.speculators_ok) (
                        both ((check_speculation_iff m).1 v.speculation_ok)
                          ((check_prompt_iff m.system_prompt).1 v.prompt_ok))))))))))

  as_result-eq-ok : (ps : List Problem) → (as_result m ps ≡ ok m) ↔ (ps ≡ [])
  as_result-eq-ok [] = (λ _. refl, λ _. refl)
  as_result-eq-ok (p ∷ ps) = (λ h. cc, λ h. cc)

  -- `Validate` returns no error exactly when the manifest is valid: its name, repository and
  -- revision are well formed, its weights come from one pinned place, its engine, deploy and load
  -- fields fit together, required arguments are there, every start on unified memory states a
  -- memory fraction within its bounds, the speculators are named, pinned and licensed with a stated
  -- default, every DSPARK start meets the engine's constraints, and the prompt is stated.
  pub validate-IsValid : (validate F m ≡ ok m) ↔ IsValid F m
  unfolding validate
  validate-IsValid =
      let (to, from) = as_result-eq-ok (problems F m) in
      (λ h. problems_to (to h), λ v. from (problems_from v))

-- ===== src/Manifest/Validate.antt =====
-- `Validate` of internal/manifest/manifest.go. The Go code appends a message for each failed check,
-- and reports an error if there is any: here the result is the list of the problems, in the order
-- of the source. `ParseFloat` and the comparisons of floats are those of `Floats`.
pub mod Fields
pub mod Engine
pub mod Draft
use llmops.Prelude.{List, [], ◌∷◌, ◌++◌, unless, not, Result, ok, err}
use llmops.Floats.{Floats}
use llmops.Strings.{is_empty}
use llmops.Manifest.{Manifest}
use llmops.Manifest.Patterns.{matches_name, matches_repo, matches_revision}
use llmops.Manifest.Problems.{Problem, SourceProblem}
use Fields.{
  check_source, check_runtime, check_dialect, check_deploy, check_load, check_sizes, required_args,
  check_required, check_prompt,
}
use Engine.{check_gb10, check_speculation}
use Draft.{check_speculators}

abbrev pub in_model : List SourceProblem → List Problem
in_model [] = []
in_model (p ∷ ps) = Problem.bad_source p ∷ in_model ps

unfoldable pub check_identity : Manifest → List Problem
check_identity m =
    unless (matches_name m.name) Problem.bad_name
    ++ (unless (matches_repo m.hf_repo) Problem.bad_repo
        ++ (unless (matches_revision m.revision) Problem.bad_revision
            ++ (in_model (check_source m)
                ++ (unless (not (is_empty m.format)) Problem.no_format
                    ++ unless (not (is_empty m.license)) Problem.no_license))))

unfoldable pub problems : Floats → Manifest → List Problem
unfolding check_identity
problems F m =
    check_identity m
    ++ (check_runtime m
        ++ (check_dialect m
            ++ (check_deploy m
                ++ (check_load m
                    ++ (check_sizes m
                        ++ (check_required (required_args m.hf_repo) m.args
                            ++ (check_gb10 F m
                                ++ (check_speculators m
                                    ++ (check_speculation m ++ check_prompt m.system_prompt)))))))))

abbrev pub as_result : Manifest → List Problem → Result (List Problem) Manifest
as_result m [] = ok m
as_result m (p ∷ ps) = err (p ∷ ps)

-- The end of `Validate`: an error if anything has failed.
unfoldable pub validate : Floats → Manifest → Result (List Problem) Manifest
unfolding problems
validate F m = as_result m (problems F m)

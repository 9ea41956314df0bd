-- ===== src/Manifest/Validate/Draft.antt =====
-- `validateSpeculators` of internal/manifest/manifest.go: the set of speculators and its default.
use llmops.Prelude.{true, false, not, ◌||◌, none, some, List, [], ◌∷◌, ◌++◌, if◌then◌else◌, unless}
use llmops.Strings.{Bytes, equal, is_empty}
use llmops.Manifest.{Manifest, Speculator, StringMap, speculator_none, separate_head}
use llmops.Manifest.Patterns.{matches_name, matches_repo, matches_revision}
use llmops.Manifest.Problems.{Problem, SourceProblem}
use llmops.Manifest.Speculators.{find, speculator_names, speculator_at}
use llmops.Manifest.Validate.Engine.{for_names}
use llmops.Manifest.Validate.Fields.{check_head_source}

abbrev pub in_head : Bytes → List SourceProblem → List Problem
in_head name [] = []
in_head name (p ∷ ps) = Problem.bad_head_source name p ∷ in_head name ps

-- `switch d := m.DefaultSpeculator`
unfoldable pub check_default : Manifest → List Problem
check_default m =
    if is_empty m.default_speculator
    then Problem.no_default ∷ []
    else if equal m.default_speculator speculator_none
    then []
    else elim (find m.default_speculator m.speculators) [
      | none ↦ Problem.default_undeclared ∷ []
      | some _ ↦ []
    ]

-- A head inside the checkpoint is covered by the model's own revision and license.
unfoldable pub check_inner_head : Bytes → Speculator → List Problem
check_inner_head name sp =
    if not (is_empty sp.revision)
    then Problem.head_revision name ∷ []
    else if not (is_empty sp.license)
    then Problem.head_license name ∷ []
    else unless (is_empty sp.s3_prefix) (Problem.head_prefix name)

unfoldable pub check_separate_head : Bytes → Bytes → Speculator → List Problem
check_separate_head load name sp =
    unless (matches_repo sp.hf_repo) (Problem.bad_head_repo name)
    ++ (unless (matches_revision sp.revision) (Problem.bad_head_revision name)
        ++ (unless (not (is_empty sp.license)) (Problem.no_head_license name)
            ++ in_head name (check_head_source sp load)))

-- One round of the loop over the names.
unfoldable pub check_speculator : Bytes → Bytes → Speculator → List Problem
unfolding check_inner_head check_separate_head
check_speculator load name sp =
    (if equal name speculator_none
      then Problem.reserved_speculator ∷ []
      else unless (matches_name name) (Problem.bad_speculator_name name))
    ++ (unless (elim sp.args [ [] ↦ false | _ ∷ _ ↦ true ]) (Problem.no_speculator_args name)
        ++ (if separate_head sp
            then check_separate_head load name sp
            else check_inner_head name sp))

abbrev pub check_set : StringMap Speculator → List Problem → List Problem → List Problem
check_set [] no_set set = no_set
check_set (_ ∷ _) no_set set = set

-- `validateSpeculators`
unfoldable pub check_speculators : Manifest → List Problem
unfolding check_default check_speculator for_names
check_speculators m =
    check_set m.speculators
      (unless (is_empty m.default_speculator || equal m.default_speculator speculator_none)
        Problem.default_names_nothing)
      (check_default m
        ++ for_names (speculator_names m)
            (λ name. check_speculator m.load name (speculator_at m name)))

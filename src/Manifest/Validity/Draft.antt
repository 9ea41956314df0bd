-- ===== src/Manifest/Validity/Draft.antt =====
-- The checks on the set of speculators report nothing exactly when it is as it should be.
use llmops.Prelude.{
  ◌≡◌, refl, subst, ◌≢◌, ◌↔◌, ◌⊎◌, inl, inr, true, some, List, [], ◌∷◌, arith, if◌then◌else◌,
  append-eq-nil, Bool-cases,
}
use llmops.Strings.{Bytes, equal}
use llmops.Strings.Laws.{equal_iff}
use llmops.Manifest.{
  Manifest, Speculator, StringMap, speculator_none, separate_head, load_local, load_s3_stream,
}
use llmops.Manifest.Patterns.{matches_repo, matches_revision}
use llmops.Manifest.Problems.{Problem, SourceProblem}
use llmops.Manifest.Speculators.{find, speculator_names, speculator_at}
use llmops.Manifest.Speculators.Keys.{names-All}
use llmops.Manifest.Validate.Engine.{for_names}
use llmops.Manifest.Validate.Fields.{check_head_source}
use llmops.Manifest.Validate.Draft.{
  in_head, check_set, check_default, check_inner_head, check_separate_head, check_speculator,
  check_speculators,
}
use llmops.Manifest.Validity.{PinnedPrefix, HeadOk, SpeculatorOk, SpeculatorsOk}
use llmops.Manifest.Validity.Engine.{for_names_iff}
use llmops.Manifest.Validity.Fields.{check_s3_prefix_iff}

in_head_iff : (name : Bytes) (ps : List SourceProblem) → (in_head name ps ≡ []) ↔ (ps ≡ [])
in_head_iff name [] = (λ _. refl, λ _. refl)
in_head_iff name (p ∷ ps) = (λ h. cc, λ h. cc)

HeadSourceOk : Bytes → Speculator → Type 0
HeadSourceOk load sp =
    ((load ≡ load_local) × (sp.s3_prefix ≡ []))
    ⊎ ((load ≢ load_local)
        × (load ≢ load_s3_stream)
        × PinnedPrefix sp.hf_repo sp.revision sp.s3_prefix)

check_head_source_iff :
    (sp : Speculator) (load : Bytes) → (check_head_source sp load ≡ []) ↔ HeadSourceOk load sp
unfolding check_head_source HeadSourceOk
check_head_source_iff sp load =
    let (to, from) = check_s3_prefix_iff sp.hf_repo sp.revision sp.s3_prefix in
    elim (Bool-cases (equal load load_local)) [
      | inl e ↦ ground (arith, equal_iff load load_local)
      | inr e ↦ elim (Bool-cases (equal load load_s3_stream)) [
        | inl f ↦ ground (arith, equal_iff load load_local, equal_iff load load_s3_stream)
        | inr f ↦ (
          λ h. inr (
            λ same. cc ((equal_iff load load_local).1 same),
            λ same. cc ((equal_iff load load_s3_stream).1 same),
            to (rw (e, f) at h),
          ),
          elim [
            | inl (same, _) ↦ cc ((equal_iff load load_local).1 same)
            | inr (_, _, p) ↦ rw (e, f) (from p)
          ],
        )
      ]
    ]

check_inner_head_iff :
    (name : Bytes) (sp : Speculator)
    → (check_inner_head name sp ≡ [])
      ↔ ((sp.revision ≡ []) × (sp.license ≡ []) × (sp.s3_prefix ≡ []))
unfolding check_inner_head
check_inner_head_iff name sp = ground arith

check_separate_head_iff :
    (load name : Bytes) (sp : Speculator)
    → (check_separate_head load name sp ≡ []) ↔ (
        (matches_repo sp.hf_repo ≡ true)
        × (matches_revision sp.revision ≡ true)
        × (sp.license ≢ [])
        × HeadSourceOk load sp)
unfolding check_separate_head
check_separate_head_iff load name sp =
    ground (arith, in_head_iff name (check_head_source sp load), check_head_source_iff sp load)

check_head_iff :
    (load name : Bytes) (sp : Speculator)
    → ((if separate_head sp then check_separate_head load name sp else check_inner_head name sp)
        ≡ [])
      ↔ HeadOk load sp
unfolding separate_head HeadSourceOk
check_head_iff load name sp =
    ground (arith, check_inner_head_iff name sp, check_separate_head_iff load name sp)

pub check_speculator_iff :
    (load name : Bytes) (sp : Speculator)
    → (check_speculator load name sp ≡ []) ↔ SpeculatorOk load name sp
unfolding check_speculator
check_speculator_iff load name sp =
    ground (arith, equal_iff name speculator_none, check_head_iff load name sp)

check_default_iff :
    (m : Manifest)
    → (check_default m ≡ []) ↔ (
        (m.default_speculator ≢ [])
        × ((m.default_speculator ≡ speculator_none)
            ⊎ ((sp : Speculator) × (find m.default_speculator m.speculators ≡ some sp))))
unfolding check_default
check_default_iff m = ground (arith, equal_iff m.default_speculator speculator_none)

check_set_iff :
    (specs : StringMap Speculator) (without with_some : List Problem)
    → (check_set specs without with_some ≡ [])
      ↔ (((specs ≡ []) × (without ≡ [])) ⊎ ((specs ≢ []) × (with_some ≡ [])))
check_set_iff [] a b = ground arith
check_set_iff (_ ∷ _) a b = ground arith

EachOk : Manifest → Type 0
EachOk m =
    (name : Bytes) (sp : Speculator)
    → find name m.speculators ≡ some sp
    → SpeculatorOk m.load name sp

check_each_iff :
    (m : Manifest)
    → (for_names (speculator_names m) (λ name. check_speculator m.load name (speculator_at m name))
        ≡ [])
      ↔ EachOk m
unfolding EachOk
check_each_iff m =
    let (to, from) = names-All m (λ name sp. check_speculator m.load name sp ≡ []) in
    (
      λ h name sp e.
          (check_speculator_iff m.load name sp).0 (to ((for_names_iff _ _).0 h) name sp e),
      λ ok.
          (for_names_iff _ _).1
            (from (λ name sp e. (check_speculator_iff m.load name sp).1 (ok name sp e))),
    )

none_found : (m : Manifest) → m.speculators ≡ [] → EachOk m
unfolding EachOk find
none_found m e name sp f = cc (subst (λ s. find name s ≡ some sp) e f)

pub check_speculators_iff : (m : Manifest) → (check_speculators m ≡ []) ↔ SpeculatorsOk m
unfolding check_speculators EachOk
check_speculators_iff m = (
  λ h. elim ((check_set_iff m.speculators _ _).0 h) [
    | inl (e, a) ↦ (ground (arith, equal_iff m.default_speculator speculator_none), none_found m e)
    | inr (ne, b) ↦
        let (d, each) = (append-eq-nil _ _).0 b in
        let (stated, names) = (check_default_iff m).0 d in
        (inr (ne, stated, names), (check_each_iff m).0 each)
  ],
  λ (default, each). (check_set_iff m.speculators _ _).1 (elim default [
    | inl (e, a) ↦ inl (e, ground (arith, equal_iff m.default_speculator speculator_none))
    | inr (ne, stated, names) ↦ inr (
      ne,
      (append-eq-nil _ _).1 ((check_default_iff m).1 (stated, names), (check_each_iff m).1 each),
    )
  ]),
)

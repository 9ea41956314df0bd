-- ===== src/Manifest/Validity/Engine.antt =====
-- The checks on engine arguments report nothing exactly when every start is as it should be.
use llmops.Prelude.{
  ◌≡◌, refl, subst, ◌↔◌, inl, inr, Bool, true, false, ◌&&◌, Option, none, some, List, [], ◌∷◌, ◌++◌,
  arith, unless, append-eq-nil, Bool-cases, Option-cases, eqz, eqz_iff, ℤ, pos, All,
}
use mathlib.Core.Option.{some-injective}
use llmops.Floats.{Floats}
use llmops.Strings.{Bytes, codes, equal}
use llmops.Strings.Laws.{equal_iff}
use llmops.Manifest.{Manifest, gpu_type_gb10, separate_head}
use llmops.Manifest.Flags.{flag_value}
use llmops.Manifest.Problems.{Problem}
use llmops.Manifest.Speculators.{speculator_names, speculator_at}
use llmops.Manifest.Speculators.Keys.{names-All}
use llmops.Manifest.Validate.Engine.{
  fraction_flag, context_flag, args_with, for_names, check_fraction, check_gb10_engine, check_gb10,
  algorithm_flag, dspark, is_dspark, check_dspark, check_speculation,
}
use llmops.Manifest.Validity.{
  StartsWith, alone, speculating, FractionOk, IsPresent, DsparkOk, SpeculationOk, Gb10Ok,
}

pub for_names_iff :
    (names : List Bytes) (check : Bytes → List Problem)
    → (for_names names check ≡ []) ↔ All (λ name. check name ≡ []) names
unfolding for_names
for_names_iff [] check = (λ _. tt, λ _. refl)
for_names_iff (name ∷ names) check =
    let (to, from) = for_names_iff names check in
    let (split, merge) = append-eq-nil (check name) (for_names names check) in
    (λ h. ((split h).0, to (split h).1), λ h. merge (h.0, from h.1))

-- A check made on the model's own arguments and on those with each speculator's, and a property of
-- every start.
module _ (m : Manifest) (check : List Bytes → Bool → Bytes → List Problem)
    (Ok : List Bytes → Type 0)
    (fits : (args : List Bytes) (head : Bool) (spec : Bytes)
      → (check args head spec ≡ []) ↔ Ok args) where
  starts_to :
      (check m.args false []
          ++ for_names
              (speculator_names m)
              (λ name. check (args_with m name) (separate_head (speculator_at m name)) name)
        ≡ [])
      → (spec : Bytes) (head : Bool) (args : List Bytes) → StartsWith m spec head args
      → Ok args
  starts_to h _ _ _ alone = (fits m.args false []).0 ((append-eq-nil _ _).0 h).0
  starts_to h _ _ _ (speculating name sp e) = (fits _ _ name).0 (
      (names-All m (λ name sp. check (m.args ++ sp.args) (separate_head sp) name ≡ [])).0
        ((for_names_iff _ _).0 ((append-eq-nil _ _).0 h).1) name sp e)

  starts_from :
      ((spec : Bytes) (head : Bool) (args : List Bytes) → StartsWith m spec head args → Ok args)
      → check m.args false []
          ++ for_names
              (speculator_names m)
              (λ name. check (args_with m name) (separate_head (speculator_at m name)) name)
        ≡ []
  starts_from ok = (append-eq-nil _ _).1 (
    (fits m.args false []).1 (ok _ _ _ alone),
    (for_names_iff _ _).1 (
        (names-All m (λ name sp. check (m.args ++ sp.args) (separate_head sp) name ≡ [])).1
          (λ name sp e. (fits _ _ name).1 (ok _ _ _ (speculating name sp e)))),
  )

check_dspark_to :
    (args : List Bytes) (head : Bool) (spec : Bytes)
    → check_dspark args head spec ≡ []
    → DsparkOk args
unfolding check_dspark
check_dspark_to args head spec h on = (
  ground (arith, equal_iff dspark dspark),
  λ v e. ground (arith, equal_iff dspark dspark, equal_iff v (codes "1")),
  ground (arith, equal_iff dspark dspark),
)

-- A flag's value is absent, or what the list says it is.
pipeline_ok :
    (o : Option Bytes)
    → ((v : Bytes) → o ≡ some v → v ≡ codes "1")
    → (elim o [ none ↦ true | some v ↦ equal v (codes "1") ]) ≡ true
pipeline_ok none h = refl
pipeline_ok (some v) h = (equal_iff v (codes "1")).1 (h v refl)

is_dspark_to :
    (args : List Bytes) → is_dspark args ≡ true → flag_value args algorithm_flag ≡ some dspark
unfolding is_dspark
is_dspark_to args h = elim (Option-cases (flag_value args algorithm_flag)) [
  | inl e ↦ ground arith
  | inr (v, e) ↦ ground (arith, equal_iff v dspark)
]

check_dspark_from :
    (args : List Bytes) (head : Bool) (spec : Bytes)
    → DsparkOk args
    → check_dspark args head spec ≡ []
unfolding check_dspark
check_dspark_from args head spec ok = elim (Bool-cases (is_dspark args)) [
  | inl on ↦
      let (no_path, one, no_attention) = ok (is_dspark_to args on) in
      ground (arith, no_path, pipeline_ok (flag_value args (codes "--pp-size")) one, no_attention)
  | inr off ↦ rw off
]

pub check_dspark_iff :
    (args : List Bytes) (head : Bool) (spec : Bytes)
    → (check_dspark args head spec ≡ []) ↔ DsparkOk args
check_dspark_iff args head spec = (check_dspark_to args head spec, check_dspark_from args head spec)

pub check_speculation_iff : (m : Manifest) → (check_speculation m ≡ []) ↔ SpeculationOk m
unfolding check_speculation
check_speculation_iff m = (
  starts_to m check_dspark DsparkOk check_dspark_iff,
  starts_from m check_dspark DsparkOk check_dspark_iff,
)

module _ (F : Floats) where
  open F use {Float, parse_float, le_float, lt_float, zero_float, four_fifths}

  check_fraction_to :
      (args : List Bytes) (frac spec : Bytes)
      → check_fraction F args frac spec ≡ []
      → FractionOk F args frac
  unfolding check_fraction
  check_fraction_to args frac spec h = elim (Option-cases (flag_value args frac)) [
    | inl e ↦ ground arith
    | inr (v, e) ↦ elim (Option-cases (parse_float v)) [
      | inl p ↦ ground arith
      | inr (f, p) ↦ (v, f, e, ground arith, p, ground arith, ground arith)
    ]
  ]

  check_fraction_from :
      (args : List Bytes) (frac spec : Bytes)
      → FractionOk F args frac
      → check_fraction F args frac spec ≡ []
  unfolding check_fraction
  check_fraction_from args frac spec (v, f, e, ne, p, positive, below) = ground arith

  pub check_fraction_iff :
      (frac : Bytes) (args : List Bytes) (head : Bool) (spec : Bytes)
      → (check_fraction F args frac spec ≡ []) ↔ FractionOk F args frac
  check_fraction_iff frac args _ spec =
      (check_fraction_to args frac spec, check_fraction_from args frac spec)

  -- The fraction on every start, and the context length of the model's own arguments.
  EngineOk : Manifest → Bytes → Type 0
  EngineOk m frac =
      ((spec : Bytes) (head : Bool) (args : List Bytes)
        → StartsWith m spec head args
        → FractionOk F args frac)
      × ((ctx : Bytes) → context_flag m.runtime ≡ some ctx → IsPresent m.args ctx)

  check_context_iff :
      (m : Manifest)
      → (elim (context_flag m.runtime) as (λ _. List Problem) [
        | none ↦ []
        | some ctx ↦
            unless
              (elim (flag_value m.args ctx) [ none ↦ false | some _ ↦ true ])
              Problem.context_missing
      ]
          ≡ [])
        ↔ ((ctx : Bytes) → context_flag m.runtime ≡ some ctx → IsPresent m.args ctx)
  check_context_iff m = elim (Option-cases (context_flag m.runtime)) [
    | inl e ↦ rw e (λ _ ctx f. cc, λ _. refl)
    | inr (ctx, e) ↦ elim (Option-cases (flag_value m.args ctx)) [
      | inl f ↦ rw (e, f) (λ h. cc, λ h. let (v, g) = h ctx refl in cc (f, g))
      | inr (v, f) ↦ rw (e, f) (λ _ c g. (v, cc), λ _. refl)
    ]
  ]

  check_gb10_engine_iff :
      (m : Manifest) (frac : Bytes) → (check_gb10_engine F m frac ≡ []) ↔ EngineOk m frac
  unfolding check_gb10_engine EngineOk
  check_gb10_engine_iff m frac =
      let check =
        λ (args : List Bytes) (head : Bool) (spec : Bytes). check_fraction F args frac spec in
      let Ok = λ (args : List Bytes). FractionOk F args frac in
      let fits = check_fraction_iff frac in
      let (to, from) = check_context_iff m in
      (
        λ h.
            let (base, rest) = (append-eq-nil _ _).0 h in
            let (names, context) = (append-eq-nil _ _).0 rest in
            (starts_to m check Ok fits ((append-eq-nil _ _).1 (base, names)), to context),
        λ (starts, context).
            let (base, names) = (append-eq-nil _ _).0 (starts_from m check Ok fits starts) in
            (append-eq-nil _ _).1 (base, (append-eq-nil _ _).1 (names, from context)),
      )

  check_fractions_iff :
      (m : Manifest)
      → (elim (fraction_flag m.runtime) as (λ _. List Problem) [
        | none ↦ []
        | some frac ↦ check_gb10_engine F m frac
      ]
          ≡ [])
        ↔ ((frac : Bytes) → fraction_flag m.runtime ≡ some frac → EngineOk m frac)
  check_fractions_iff m = elim (Option-cases (fraction_flag m.runtime)) [
    | inl e ↦ rw e (λ _ frac f. cc, λ _. refl)
    | inr (frac, e) ↦
        let (to, from) = check_gb10_engine_iff m frac in
        rw e (λ h fr f. subst (EngineOk m) (some-injective _ _ f) (to h), λ h. from (h frac refl))
  ]

  one_gpu :
      (a b : ℤ) (p : Problem) → (unless (eqz a 1 && eqz b 1) p ≡ []) ↔ ((a ≡ pos 1) × (b ≡ pos 1))
  one_gpu a b p = ground (arith, eqz_iff a 1, eqz_iff b 1)

  pub check_gb10_iff : (m : Manifest) → (check_gb10 F m ≡ []) ↔ Gb10Ok F m
  unfolding check_gb10 EngineOk
  check_gb10_iff m =
      let (to, from) = check_fractions_iff m in
      elim (Bool-cases (equal m.gpu.type gpu_type_gb10)) [
        | inl e ↦
            let (one, back) = one_gpu m.gpu.count m.gpu.nodes Problem.gb10_many in
            rw e (
              λ h _.
                  let (sizes, engine) = (append-eq-nil _ _).0 h in
                  let (a, b) = one sizes in (a, b, to engine),
              λ ok.
                  let (a, b, engine) = ok ((equal_iff _ _).0 e) in
                  (append-eq-nil _ _).1 (back (a, b), from engine),
            )
        | inr e ↦ rw e (λ _ same. cc ((equal_iff _ _).1 same), λ _. refl)
      ]

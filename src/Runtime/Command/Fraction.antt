-- ===== src/Runtime/Command/Fraction.antt =====
-- What the engine of a validated manifest is told about memory, whichever speculator is chosen.
use mathlib.Core.List.{append-nil}
use llmops.Prelude.{
  ℕ, ◌≡◌, refl, ◌∙◌, ◌≢◌, ◌⊎◌, inl, inr, true, false, some, List, [], ◌∷◌, ◌++◌, arith, Bool-cases,
  Option-cases, ok,
}
use llmops.Floats.{Floats}
use llmops.Strings.{Bytes, codes, equal, contains_byte, has_prefix, cut_prefix}
use llmops.Strings.Laws.{equal_iff}
use llmops.Manifest.{Manifest, speculator_none, gpu_type_gb10}
use llmops.Manifest.Flags.{flag_value}
use llmops.Manifest.Flags.Laws.{flag_value-append, flag_value-append_other}
use llmops.Manifest.Speculators.{Speculation, find, resolve_named, resolve_speculator}
use llmops.Manifest.Validate.{validate}
use llmops.Manifest.Validate.Engine.{fraction_flag, draft_path_flag}
use llmops.Manifest.Validity.{IsValid, alone, speculating, FractionOk}
use llmops.Manifest.Validity.Whole.{validate-IsValid}
use llmops.Runtime.Command.{launch, draft_args, engine_command}

-- What the choice can be: nothing, or a declared speculator under its name.
pub resolve_named-eq-ok :
    (m : Manifest) (name : Bytes) {s : Speculation}
    → resolve_named m name ≡ ok s
    → ((s.name ≡ speculator_none) × (s.speculator.args ≡ []))
      ⊎ (find s.name m.speculators ≡ some s.speculator)
unfolding resolve_named
resolve_named-eq-ok m name {s} h = elim (Bool-cases (equal name speculator_none)) [
  | inl e ↦ inl (ground arith, ground arith)
  | inr e ↦ elim (Option-cases (find name m.speculators)) [
    | inl f ↦ ground arith
    | inr (sp, f) ↦ inr (ground arith)
  ]
]

draft_path-plain : contains_byte b'=' draft_path_flag ≡ false
unfolding contains_byte codes
draft_path-plain = refl

draft_path-dash : (w : Bytes) → has_prefix (draft_path_flag ++ b'=' ∷ w) (codes "-") ≡ true
unfolding has_prefix cut_prefix codes
draft_path-dash w = refl

draft_path-ne-sglang : equal draft_path_flag (codes "--mem-fraction-static") ≡ false
unfolding equal codes
draft_path-ne-sglang = refl

draft_path-ne-vllm : equal draft_path_flag (codes "--gpu-memory-utilization") ≡ false
unfolding equal codes
draft_path-ne-vllm = refl

draft_path-ne-fraction :
    (runtime frac : Bytes) → fraction_flag runtime ≡ some frac → draft_path_flag ≢ frac
unfolding fraction_flag
draft_path-ne-fraction runtime frac h e = ground (
  arith,
  draft_path-ne-sglang,
  draft_path-ne-vllm,
  equal_iff draft_path_flag (codes "--mem-fraction-static"),
  equal_iff draft_path_flag (codes "--gpu-memory-utilization"),
)

flag_value-draft_args :
    (args : List Bytes) (frac draft : Bytes)
    → draft_path_flag ≢ frac
    → flag_value (args ++ draft_args draft) frac ≡ flag_value args frac
flag_value-draft_args args frac [] ne = rw append-nil
flag_value-draft_args args frac (c ∷ path) ne =
    flag_value-append_other frac draft_path_flag (c ∷ path) draft_path-plain ne
      (draft_path-dash (c ∷ path)) args

launch-of_fraction :
    (m : Manifest) (model : Bytes) (port : ℕ) (frac : Bytes)
    → fraction_flag m.runtime ≡ some frac
    → (cmd : List Bytes) × (launch m model port ≡ some cmd)
unfolding launch fraction_flag
launch-of_fraction m model port frac h = elim (Option-cases (launch m model port)) [
  | inl e ↦ ground arith
  | inr (cmd, e) ↦ (cmd, e)
]

module _ (F : Floats) (m : Manifest) (valid : IsValid F m)
    (unified : m.gpu.type ≡ gpu_type_gb10) where
  chosen-FractionOk :
      (chosen frac : Bytes) {s : Speculation}
      → resolve_speculator m chosen ≡ ok s
      → fraction_flag m.runtime ≡ some frac
      → FractionOk F (m.args ++ s.speculator.args) frac
  unfolding resolve_speculator
  chosen-FractionOk chosen frac {s} h e =
      let starts = ((valid.gb10_ok unified).2 frac e).0 in
      elim (resolve_named-eq-ok m _ h) [
        | inl (_, none_added) ↦ rw (none_added, append-nil) (starts [] false m.args alone)
        | inr found ↦ starts s.name _ _ (speculating s.name s.speculator found)
      ]

  engine_command-FractionOk_valid :
      (chosen model draft frac : Bytes) (port : ℕ) {s : Speculation}
      → resolve_speculator m chosen ≡ ok s
      → fraction_flag m.runtime ≡ some frac
      → (cmd : List Bytes) × (engine_command m model port s draft ≡ ok cmd) × FractionOk F cmd frac
  unfolding engine_command
  engine_command-FractionOk_valid chosen model draft frac port {s} h e =
      let (cmd, launched) = launch-of_fraction m model port frac e in
      let (v, f, stated, nonempty, parsed, positive, below) = chosen-FractionOk chosen frac h e in
      let front = cmd ++ codes "--served-model-name" ∷ m.name ∷ [] in
      let tail = (m.args ++ s.speculator.args) ++ draft_args draft in
      let kept =
        flag_value-draft_args (m.args ++ s.speculator.args) frac draft
          (draft_path-ne-fraction m.runtime frac e) in
      let last = flag_value-append front tail frac (kept ∙ stated) in
      (front ++ tail, ground arith, (v, f, last, nonempty, parsed, positive, below))

-- On unified memory, for a manifest that `Validate` accepts and an engine of ours: whichever
-- speculator the operator chooses, and wherever weights and draft head were staged, the launch
-- command exists, and the memory fraction that the engine reads from it (the flag's last
-- occurrence) is a number that is neither ≤ 0 nor above 0.80.
pub engine_command-FractionOk :
    (F : Floats) (m : Manifest)
    → validate F m ≡ ok m
    → m.gpu.type ≡ gpu_type_gb10
    → (chosen model draft frac : Bytes) (port : ℕ) {s : Speculation}
    → resolve_speculator m chosen ≡ ok s
    → fraction_flag m.runtime ≡ some frac
    → (cmd : List Bytes) × (engine_command m model port s draft ≡ ok cmd) × FractionOk F cmd frac
engine_command-FractionOk F m valid unified =
    engine_command-FractionOk_valid F m ((validate-IsValid F m).0 valid) unified

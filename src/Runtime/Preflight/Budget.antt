-- ===== src/Runtime/Preflight/Budget.antt =====
-- What the memory check accepts.
use llmops.Prelude.{
  ℕ, ◌+◌, ◌<◌, ◌≤◌, ◌≡◌, refl, sym, subst, ap, ◌∙◌, ◌↔◌, inl, inr, true, false, Option, none, some,
  List, [], ◌∷◌, arith, Bool-cases, ok, err,
}
use llmops.Floats.{Floats}
use llmops.Strings.{Bytes, equal}
use llmops.Strings.Laws.{equal_iff}
use llmops.Manifest.{Manifest, gpu_type_gb10}
use llmops.Manifest.Flags.{flag_value}
use llmops.Manifest.Validate.{validate}
use llmops.Manifest.Validate.Engine.{fraction_flag}
use llmops.Manifest.Validity.{IsValid, alone}
use llmops.Manifest.Validity.Whole.{validate-IsValid}
use llmops.Runtime.Preflight.{
  two64, two63, add_int64, le_int64, host_floor_bytes, mem_total_bytes, Visit, failed, directory,
  unsized, file, total_visits, dir_bytes, mem_fraction_flag_for, Refused, compare_budget,
  engine_fraction, budget_of, check_memory_budget,
}

-- Without overflow, the comparison is that of the numbers.
compare_budget_iff :
    (engine ckpt total : ℕ)
    → engine + ckpt + host_floor_bytes < two63
    → total < two63
    → (compare_budget engine ckpt total ≡ ok tt) ↔ (engine + ckpt + host_floor_bytes ≤ total)
unfolding compare_budget add_int64 le_int64
compare_budget_iff engine ckpt total h k = ground arith

-- The sizes of all files add up to the number, and none is unknown.
abbrev pub Weighs : List Visit → ℕ → Type 0
Weighs [] n = n ≡ 0
Weighs (failed ∷ vs) n = ⊥
Weighs (directory ∷ vs) n = Weighs vs n
Weighs (unsized ∷ vs) n = ⊥
Weighs (file size ∷ vs) n = (k : ℕ) × (n ≡ size + k) × Weighs vs k

total_visits-Weighs :
    (acc : ℕ) (vs : List Visit) (n : ℕ)
    → Weighs vs n
    → acc + n < two64
    → total_visits acc vs ≡ some (acc + n)
unfolding total_visits add_int64
total_visits-Weighs acc [] n w h = ground (arith, w)
total_visits-Weighs acc (failed ∷ vs) n w h = absurd w
total_visits-Weighs acc (directory ∷ vs) n w h = total_visits-Weighs acc vs n w h
total_visits-Weighs acc (unsized ∷ vs) n w h = absurd w
total_visits-Weighs acc (file size ∷ vs) n (k, e, w) h =
    let fits : add_int64 acc size ≡ acc + size = ground (arith, e, h) in
    ap (λ a. total_visits a vs) fits
    ∙ total_visits-Weighs (acc + size) vs k w (ground (arith, e, h))
    ∙ ap some (ground (arith, e))

module _ (F : Floats) (m : Manifest) where
  open F use {Float, share, lt_float, four_fifths}

  budget_known :
      (a c : Option ℕ) (b : Option Float) {total ckpt : ℕ} {f : Float}
      → a ≡ some total
      → b ≡ some f
      → c ≡ some ckpt
      → budget_of F a b c ≡ compare_budget (share f total) ckpt total
  unfolding budget_of compare_budget
  budget_known a c b x y z = rw (x, y, z, budget_of) refl

  compare_budget-refused :
      (e c t engine ckpt total : ℕ)
      → compare_budget e c t ≡ err (Refused.refused engine ckpt total)
      → (e ≡ engine) × (c ≡ ckpt) × (t ≡ total)
  unfolding compare_budget
  compare_budget-refused e c t engine ckpt total h = ground (arith, h)

  budget_refused :
      (a c : Option ℕ) (b : Option Float) (engine ckpt total : ℕ)
      → budget_of F a b c ≡ err (Refused.refused engine ckpt total)
      → (a ≡ some total) × ((f : Float) × (b ≡ some f) × (engine ≡ share f total)) × (c ≡ some ckpt)
  unfolding budget_of
  budget_refused none c b engine ckpt total h = cc h
  budget_refused (some t) c none engine ckpt total h = cc h
  budget_refused (some t) none (some f) engine ckpt total h = cc h
  budget_refused (some t) (some c) (some f) engine ckpt total h =
      let (x, y, z) = compare_budget-refused (share f t) c t engine ckpt total h in
      (ap some z, (f, refl, sym x ∙ ap (share f) z), ap some y)

  mem_fraction_flag_for-eq :
      (frac : Bytes) → fraction_flag m.runtime ≡ some frac → mem_fraction_flag_for m ≡ frac
  unfolding mem_fraction_flag_for fraction_flag
  mem_fraction_flag_for-eq frac e = ground (arith, e)

  -- On unified memory, where the pool, the fraction and the sizes of all files are known and no sum
  -- overflows, a start is accepted exactly when the engine's share, the checkpoint and the floor of
  -- the host fit into the pool.
  pub check_memory_budget_iff :
      (report : Option Bytes) (visits : List Visit) (total ckpt : ℕ) (f : Float)
      → m.gpu.type ≡ gpu_type_gb10
      → mem_total_bytes report ≡ some total
      → engine_fraction F m ≡ some f
      → Weighs visits ckpt
      → share f total + ckpt + host_floor_bytes < two63
      → total < two63
      → (check_memory_budget F m report visits ≡ ok tt)
        ↔ (share f total + ckpt + host_floor_bytes ≤ total)
  unfolding check_memory_budget dir_bytes
  check_memory_budget_iff report visits total ckpt f g t e w h k =
      let d : dir_bytes visits ≡ some ckpt =
        total_visits-Weighs 0 visits ckpt w (ground (arith, h)) ∙ ap some (ground arith) in
      let (to, from) = compare_budget_iff (share f total) ckpt total h k in
      let unified : equal m.gpu.type gpu_type_gb10 ≡ true =
        (equal_iff m.gpu.type gpu_type_gb10).1 g in
      let known =
        budget_known (mem_total_bytes report) (dir_bytes visits) (engine_fraction F m) t e d in
      let same : check_memory_budget F m report visits ≡ compare_budget (share f total) ckpt total =
        rw unified known in
      (λ x. to (sym same ∙ x), λ x. same ∙ from x)

  -- A start is refused only on unified memory, and only if the pool, the fraction and the size of
  -- the weights are all known; the error has these numbers.
  pub check_memory_budget-refused :
      (report : Option Bytes) (visits : List Visit) (engine ckpt total : ℕ)
      → check_memory_budget F m report visits ≡ err (Refused.refused engine ckpt total)
      → (m.gpu.type ≡ gpu_type_gb10)
        × (mem_total_bytes report ≡ some total)
        × ((f : Float) × (engine_fraction F m ≡ some f) × (engine ≡ share f total))
        × (dir_bytes visits ≡ some ckpt)
  unfolding check_memory_budget
  check_memory_budget-refused report visits engine ckpt total h =
      elim (Bool-cases (equal m.gpu.type gpu_type_gb10)) [
        | inr n ↦ ground (arith, n, h)
        | inl g ↦
            let refusal : budget_of F (mem_total_bytes report) (engine_fraction F m)
                  (dir_bytes visits)
                ≡ err (Refused.refused engine ckpt total) =
              rw g at h in
            let (x, y, z) =
              budget_refused (mem_total_bytes report) (dir_bytes visits) (engine_fraction F m)
                engine ckpt total refusal in
            ((equal_iff m.gpu.type gpu_type_gb10).0 g, x, y, z)
      ]

  engine_fraction_stated :
      (s : Bytes) (f : Float)
      → flag_value m.args (mem_fraction_flag_for m) ≡ some s
      → F.parse_float s ≡ some f
      → F.le_float f F.zero_float ≡ false
      → engine_fraction F m ≡ some f
  unfolding engine_fraction
  engine_fraction_stated s f found parsed positive = cc (found, parsed, positive)

  -- A valid manifest of an engine of ours on unified memory states the fraction that the check
  -- reads, and it is not above four fifths.
  pub engine_fraction-valid :
      (frac : Bytes)
      → validate F m ≡ ok m
      → m.gpu.type ≡ gpu_type_gb10
      → fraction_flag m.runtime ≡ some frac
      → (f : Float) × (engine_fraction F m ≡ some f) × (lt_float four_fifths f ≡ false)
  engine_fraction-valid frac valid g e =
      let v : IsValid F m = (validate-IsValid F m).0 valid in
      let (s, f, found, n, parsed, positive, below) =
        ((v.gb10_ok g).2 frac e).0 [] false m.args alone in
      (
        f,
        engine_fraction_stated s f
            (subst (λ x. flag_value m.args x ≡ some s) (sym (mem_fraction_flag_for-eq frac e))
              found)
            parsed positive,
        below,
      )

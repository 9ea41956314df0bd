-- ===== src/Bench/Pool/Laws.antt =====
-- The pool measures each request once, and ends.
use llmops.Prelude.{
  ℕ, suc, ◌+◌, ◌-◌, ◌*◌, ◌<◌, ◌≤◌, ◌≡◌, refl, ap, ◌∙◌, ◌⊎◌, ◌↔◌, inl, inr, Option, none, some, List,
  [], ◌∷◌, ◌++◌, if◌then◌else◌, ◌==◌, ltb, length, length-append, arith, Bool-cases,
}
use llmops.Bench.{Sample, failed}
use llmops.Bench.Pool.{
  Pool, Step, taken, ended, Reach, start, after, IsFinished, started, hand_over, end_request,
  put_sample,
}

-- How often a number is in a list, and whether a place is written.
unfoldable pub times : ℕ → List ℕ → ℕ
times i [] = 0
times i (j ∷ js) = let rest = times i js in if j == i then suc rest else rest

abbrev pub filled : Option Sample → ℕ
filled none = 0
filled (some s) = 1

times-append : (i : ℕ) (xs ys : List ℕ) → times i (xs ++ ys) ≡ times i xs + times i ys
unfolding times
times-append i [] ys = ground arith
times-append i (x ∷ xs) ys = ground (arith, times-append i xs ys)

-- Every number that was handed over is either worked on by one worker or written once, and no other
-- is; the workers are idle or at work.
pub record IsSound (concurrency requests : ℕ) (k : ℕ) (p : Pool) : Type 0 where
  pub workers : p.idle + length p.busy ≡ concurrency
  pub in_range : p.next ≤ requests
  pub steps : k + length p.busy ≡ 2 * p.next
  pub once : (i : ℕ) → times i p.busy + filled (p.samples i) ≡ (if ltb i p.next then 1 else 0)

started-IsSound : (concurrency requests : ℕ) → IsSound concurrency requests 0 (started concurrency)
unfolding times
started-IsSound concurrency requests = record {
  workers = ground arith;
  in_range = ground arith;
  steps = refl;
  once = λ i. ground arith;
}

Step-IsSound :
    (concurrency requests k : ℕ) (p q : Pool)
    → IsSound concurrency requests k p
    → Step requests p q
    → IsSound concurrency requests (suc k) q
unfolding hand_over end_request put_sample times
Step-IsSound concurrency requests k _ _ h (taken p idle below some_idle) = record {
  workers = ground (arith, h.workers, some_idle);
  in_range = ground (arith, below);
  steps = ground (arith, h.steps);
  once = λ i. ground (arith, h.once i);
}
Step-IsSound concurrency requests k _ _ h (ended p front i back s at) =
    let before : length p.busy ≡ length front + suc (length back) =
      ap length at ∙ length-append front (i ∷ back) in
    record {
      workers = ground (arith, h.workers, before, length-append front back);
      in_range = h.in_range;
      steps = ground (arith, h.steps, before, length-append front back);
      once = λ j.
          let there : times j p.busy ≡ times j front + times j (i ∷ back) =
            ap (times j) at ∙ times-append j front (i ∷ back) in
          elim (Bool-cases (i == j)) [
            | inl e ↦ ground (arith, e, h.once j, there, times-append j front back)
            | inr e ↦ ground (arith, e, h.once j, there, times-append j front back)
          ];
    }

pub Reach-IsSound :
    (concurrency requests k : ℕ) (p : Pool)
    → Reach concurrency requests k p
    → IsSound concurrency requests k p
Reach-IsSound concurrency requests _ _ start = started-IsSound concurrency requests
Reach-IsSound concurrency requests _ _ (after k p q r s) =
    Step-IsSound concurrency requests k p q (Reach-IsSound concurrency requests k p r) s

busy_cases : (xs : List ℕ) → (xs ≡ []) ⊎ ((y : ℕ) × (ys : List ℕ) × (xs ≡ y ∷ ys))
busy_cases [] = inl refl
busy_cases (y ∷ ys) = inr (y, ys, refl)

no_length : (xs : List ℕ) → length xs ≡ 0 → xs ≡ []
no_length [] h = refl
no_length (x ∷ xs) h = ground (arith, h)

-- A step that can be taken, where the pool has not finished and there is a worker.
next_step :
    (concurrency requests k : ℕ) (p : Pool)
    → 0 < concurrency
    → IsSound concurrency requests k p
    → IsFinished requests p ⊎ ((q : Pool) × Step requests p q)
next_step concurrency requests k p some_worker h = elim (busy_cases p.busy) [
  | inr (j, js, e) ↦ inr (end_request p [] j js failed, ended p [] j js failed e)
  | inl e ↦ elim (Bool-cases (ltb p.next requests)) [
    | inr d ↦ inl (ground (arith, d, h.in_range), e)
    | inl d ↦
        let none_busy : length p.busy ≡ 0 = ap length e in
        inr (
          hand_over p (p.idle - 1),
          taken p (p.idle - 1) (ground (arith, d))
              (ground (arith, h.workers, none_busy, some_worker)),
        )
  ]
]

-- Whatever the scheduler does, a run of the pool ends, after two steps for each request: no run
-- takes more, a pool that has not finished can take a step if it has a worker, and it has finished
-- exactly when it has taken them all.
pub Reach-ends :
    (concurrency requests k : ℕ) (p : Pool)
    → 0 < concurrency
    → Reach concurrency requests k p
    → (k ≤ 2 * requests)
      × (IsFinished requests p ⊎ ((q : Pool) × Step requests p q))
      × ((k ≡ 2 * requests) ↔ IsFinished requests p)
Reach-ends concurrency requests k p some_worker r =
    let h = Reach-IsSound concurrency requests k p r in
    (
      ground (arith, h.steps, h.in_range),
      next_step concurrency requests k p some_worker h,
      (
        λ e. (
          ground (arith, e, h.steps, h.in_range),
          no_length p.busy (ground (arith, e, h.steps, h.in_range)),
        ),
        λ (all, none_busy).
            let empty : length p.busy ≡ 0 = ap length none_busy in
            ground (arith, all, empty, h.steps),
      ),
    )

-- When the pool has finished, every request has its sample and no other place is written.
pub Reach-measured :
    (concurrency requests k : ℕ) (p : Pool) (i : ℕ)
    → Reach concurrency requests k p
    → IsFinished requests p
    → filled (p.samples i) ≡ (if ltb i requests then 1 else 0)
unfolding times
Reach-measured concurrency requests k p i r (all, none_busy) =
    let h = Reach-IsSound concurrency requests k p r in
    let empty : times i p.busy ≡ 0 = ap (times i) none_busy in
    let written : times i p.busy + filled (p.samples i) ≡ (if ltb i requests then 1 else 0) =
      h.once i ∙ ap (λ n. if ltb i n then 1 else 0) all in
    ground (arith, written, empty)

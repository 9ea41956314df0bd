-- ===== src/Cli/Agents/Laws.antt =====
-- What `run` launches.
use llmops.Prelude.{
  ℕ, ℤ, gtz, ◌≡◌, refl, sym, ap, subst, ◌∙◌, ◌⊎◌, inl, inr, Bool, true, ◌||◌, not, some, List, [],
  ◌∷◌, ◌++◌, arith, Result, ok, Result-cases, Option-cases, Bool-cases,
}
use llmops.Floats.{Floats}
use llmops.Strings.{Bytes, equal}
use llmops.Strings.Laws.{equal_iff}
use llmops.Harness.{Harness, env_vars, lookup_harness}
use llmops.Harness.Models.{Model, ready}
use llmops.Cli.{Fault}
use llmops.Cli.AgentFlags.{Look, RunArgs, run_args}
use llmops.Cli.Agents.{
  Waited, satisfied, broke, expired, AgentError, AgentWorld, Exec, find_model, only_model,
  pick_model, resolve_model, poll, await_ready, launch, run_harness, endpoint_at, assignments,
  is_down,
}

-- wait.Until says that its condition holds only after a poll where it did.
abbrev pub IsUntil : {F : Floats} → AgentWorld F → Type 0
IsUntil w =
    (condition : ℕ → Result (Fault AgentError) Bool) (n : ℕ)
    → w.until condition ≡ satisfied n
    → condition n ≡ ok true

module _ (F : Floats) (w : AgentWorld F) where
  open w use {scanners, execute, look_path, environ, until}

  Waited-cases :
      (x : Waited (Fault AgentError))
      → ((n : ℕ) × (x ≡ satisfied n))
        ⊎ (((n : ℕ) × (e : Fault AgentError) × (x ≡ broke n e)) ⊎ (x ≡ expired))
  Waited-cases (satisfied n) = inl (n, refl)
  Waited-cases (broke n e) = inr (inl (n, e, refl))
  Waited-cases expired = inr (inr refl)

  find_model-name :
      (ms : List (Model F)) (n : Bytes) (m : Model F) → find_model F ms n ≡ some m → m.name ≡ n
  unfolding find_model
  find_model-name [] n m h = cc h
  find_model-name (k ∷ ks) n m h = elim (Bool-cases (equal k.name n)) [
    | inl e ↦ ground (arith, h, e, equal_iff k.name n)
    | inr e ↦ find_model-name ks n m (ground (arith, h, e))
  ]

  -- A model that is among those of a list, and one that a discovery has found.
  abbrev pub IsListed : Model F → List (Model F) → Type 0
  IsListed m [] = ⊥
  IsListed m (k ∷ ks) = (k ≡ m) ⊎ IsListed m ks

  abbrev pub Discovered : Look → Model F → Type 0
  Discovered look m =
      (n : ℕ) × (models : List (Model F)) × (w.discover_at n look ≡ ok models) × IsListed m models

  find_model-IsListed :
      (ms : List (Model F)) (n : Bytes) (m : Model F) → find_model F ms n ≡ some m → IsListed m ms
  unfolding find_model
  find_model-IsListed [] n m h = cc h
  find_model-IsListed (k ∷ ks) n m h = elim (Bool-cases (equal k.name n)) [
    | inl e ↦ inl (ground (arith, h, e))
    | inr e ↦ inr (find_model-IsListed ks n m (ground (arith, h, e)))
  ]

  only_model-IsListed : (ms : List (Model F)) (m : Model F) → only_model F ms ≡ ok m → IsListed m ms
  only_model-IsListed [] m h = cc h
  only_model-IsListed (k ∷ []) m h = inl (cc h)
  only_model-IsListed (k ∷ l ∷ ks) m h = cc h

  pick_model-IsListed :
      (n : Bytes) (ms : List (Model F)) (m : Model F) → pick_model F n ms ≡ ok m → IsListed m ms
  unfolding pick_model
  pick_model-IsListed [] ms m h = only_model-IsListed ms m h
  pick_model-IsListed (c ∷ n) ms m h = elim (Option-cases (find_model F ms (c ∷ n))) [
    | inl e ↦ ground (arith, h, e)
    | inr (k, e) ↦ find_model-IsListed ms (c ∷ n) m (ground (arith, h, e))
  ]

  resolve_model-Discovered :
      (k : ℕ) (look : Look) (n : Bytes) (m : Model F)
      → resolve_model F w k look n ≡ ok m
      → Discovered look m
  unfolding resolve_model
  resolve_model-Discovered k look n m h = elim (Result-cases (w.discover_at k look)) [
    | inl (ms, e) ↦ (k, ms, e, pick_model-IsListed n ms m (ground (arith, h, e)))
    | inr (x, e) ↦ ground (arith, h, e)
  ]

  pick_model-name :
      (n : Bytes) (ms : List (Model F)) (m : Model F)
      → pick_model F n ms ≡ ok m
      → (n ≡ []) ⊎ (m.name ≡ n)
  unfolding pick_model
  pick_model-name [] ms m h = inl refl
  pick_model-name (c ∷ n) ms m h = elim (Option-cases (find_model F ms (c ∷ n))) [
    | inl e ↦ ground (arith, h, e)
    | inr (k, e) ↦ inr (find_model-name ms (c ∷ n) m (ground (arith, h, e)))
  ]

  resolve_model-name :
      (k : ℕ) (look : Look) (n : Bytes) (m : Model F)
      → resolve_model F w k look n ≡ ok m
      → (n ≡ []) ⊎ (m.name ≡ n)
  unfolding resolve_model
  resolve_model-name k look n m h = elim (Result-cases (w.discover_at k look)) [
    | inl (ms, e) ↦ pick_model-name n ms m (ground (arith, h, e))
    | inr (x, e) ↦ ground (arith, h, e)
  ]

  -- A poll that holds has found the model ready.
  poll-ready :
      (look : Look) (n : Bytes) (k : ℕ)
      → poll F w look n k ≡ ok true
      → (m : Model F) × (resolve_model F w k look n ≡ ok m) × (ready m.state ≡ true)
  unfolding poll
  poll-ready look n k h = elim (Result-cases (resolve_model F w k look n)) [
    | inr (x, e) ↦ ground (arith, h, e)
    | inl (m, e) ↦ elim (Bool-cases (is_down m.state)) [
      | inl d ↦ ground (arith, h, e, d)
      | inr d ↦ (m, e, ground (arith, h, e, d))
    ]
  ]

  await_ready-ready :
      IsUntil w
      → (look : Look) (m : Model F) (budget : ℤ) (got : Model F) → Discovered look m
      → await_ready F w look m budget ≡ ok got
      → (ready got.state ≡ true) × ((m.name ≡ []) ⊎ (got.name ≡ m.name)) × Discovered look got
  unfolding await_ready
  await_ready-ready sound look m budget got seen h = elim (Bool-cases (ready m.state)) [
    | inl r ↦
        let same : m ≡ got = ground (arith, h, r) in
        (
          ap (λ x. ready (x.state)) (sym same) ∙ r,
          inr (ap (λ x. x.name) (sym same)),
          subst (Discovered look) same seen,
        )
    | inr r ↦ elim (Bool-cases (not (gtz 0 budget) || is_down m.state)) [
      | inl d ↦ ground (arith, h, r, d)
      | inr d ↦ elim (Waited-cases (until (poll F w look m.name))) [
        | inl (n, e) ↦
            let (found, f, is_ready) =
              poll-ready look m.name n (sound (poll F w look m.name) n e) in
            let same : found ≡ got = ground (arith, h, r, d, e, f) in
            (
              ap (λ x. ready (x.state)) (sym same) ∙ is_ready,
              resolve_model-name n look m.name got (f ∙ ap ok same),
              resolve_model-Discovered n look m.name got (f ∙ ap ok same),
            )
        | inr (inl (n, x, e)) ↦ ground (arith, h, r, d, e)
        | inr (inr e) ↦ ground (arith, h, r, d, e)
      ]
    ]
  ]

  -- What `run` becomes: the harness with the arguments behind "--", in the environment of the
  -- caller and that of the harness for the model's endpoint.
  abbrev Launched : RunArgs → Harness → Model F → Exec → Type 0
  Launched a h m x =
      (x.argv ≡ h.name ∷ a.passthrough)
      × (look_path h.name ≡ some x.bin)
      × ((vars : List (Bytes × Bytes)) × (env_vars execute h (endpoint_at F w m a.host a.token)
            ≡ ok vars)
          × (x.env ≡ environ ++ assignments vars))

  launch-Launched :
      (a : RunArgs) (h : Harness) (m : Model F) (x : Exec)
      → launch F w a h m ≡ ok x
      → Launched a h m x
  unfolding launch
  launch-Launched a h m x e =
      elim (Result-cases (env_vars execute h (endpoint_at F w m a.host a.token))) [
        | inr (y, v) ↦ ground (arith, e, v)
        | inl (vars, v) ↦ elim (Option-cases (look_path h.name)) [
          | inl l ↦ ground (arith, e, v, l)
          | inr (bin, l) ↦
              (ground (arith, e, v, l), ground (arith, e, v, l), (vars, v, ground (arith, e, v, l)))
        ]
      ]

  asked :
      (n first got : Bytes)
      → (n ≡ []) ⊎ (first ≡ n)
      → (first ≡ []) ⊎ (got ≡ first)
      → (n ≡ []) ⊎ (got ≡ n)
  asked n first got (inl e) h = inl e
  asked n first got (inr e) (inl k) = inl (sym e ∙ k)
  asked n first got (inr e) (inr k) = inr (k ∙ e)

  -- `run` launches a harness only against a model that is in the list of a discovery over the
  -- directories that were asked for, and is ready in that list; it is the one that was asked for
  -- where a name was given, and the harness gets the arguments behind "--". wait.Until says that its
  -- condition holds only after a poll where it did.
  pub run_harness-ready :
      IsUntil w
      → (rest : List Bytes) (x : Exec) → run_harness F w rest ≡ ok x
      → (a : RunArgs) × (h : Harness) × (m : Model F) × (run_args scanners rest ≡ some a)
        × (lookup_harness a.harness ≡ ok h)
        × Discovered a.look m
        × (ready m.state ≡ true)
        × ((a.model ≡ []) ⊎ (m.name ≡ a.model))
        × Launched a h m x
  unfolding run_harness
  run_harness-ready sound rest x e = elim (Option-cases (run_args scanners rest)) [
    | inl k ↦ ground (arith, e, k)
    | inr (a, k) ↦ elim (Result-cases (lookup_harness a.harness)) [
      | inr (y, l) ↦ ground (arith, e, k, l)
      | inl (h, l) ↦ elim (Result-cases (resolve_model F w 0 a.look a.model)) [
        | inr (y, r) ↦ ground (arith, e, k, l, r)
        | inl (first, r) ↦ elim (Result-cases (await_ready F w a.look first a.budget)) [
          | inr (y, b) ↦ ground (arith, e, k, l, r, b)
          | inl (m, b) ↦
              let ran : launch F w a h m ≡ ok x = ground (arith, e, k, l, r, b) in
              let seen = resolve_model-Discovered 0 a.look a.model first r in
              let (is_ready, same, listed) =
                await_ready-ready sound a.look first a.budget m seen b in
              (
                a,
                h,
                m,
                k,
                l,
                listed,
                is_ready,
                asked a.model first.name m.name (resolve_model-name 0 a.look a.model first r) same,
                launch-Launched a h m x ran,
              )
        ]
      ]
    ]
  ]

-- ===== src/Runtime/Serve/Sound.antt =====
-- What holds in every state that `Serve` passes through.
use llmops.Prelude.{
  ℕ, ◌≡◌, refl, sym, subst, ◌∙◌, ◌⊎◌, inl, inr, true, false, Option, none, some, List, Result, ok,
  err, arith, Bool-cases,
}
use llmops.Floats.{Floats}
use llmops.Strings.{Bytes}
use llmops.Manifest.{Manifest, separate_head, load_s3_stream}
use llmops.Manifest.Speculators.{Speculation, resolve_speculator, ResolveError}
use llmops.Runtime.Command.{CommandError, Options}
use llmops.Runtime.Weights.{Disk, WeightError, head_load, prepare_weights, prepare_draft}
use llmops.Runtime.Weights.Prepared.{
  Spreads, artifact_dir, IsStocked, prepare_weights-Matches, prepare_draft-IsStocked,
}
use llmops.Runtime.Preflight.{Refused, check_memory_budget}
use llmops.Runtime.Shim.Surfaces.{Bound}
use llmops.Runtime.Shim.Serve.{EngineReply, Shim, NotReady, ready}
use llmops.Runtime.Serve.{
  server_failed, Phase, fresh, exposed, staged, ready_to_launch, running, returned, Serving, World,
  initial, opts, expose, stage, stage_draft, admit, command_for, start_engine, advance_from,
  advance, Event, cancelled, exited, failed, end_with, Step, go, wait, Reach, here, next,
}

module _ (F : Floats) (w : World) (m : Manifest) (o : Options) where
  abbrev pub Resolved : Speculation → Type 0
  Resolved spec = resolve_speculator m (opts F w m o).speculator ≡ ok spec

  -- The weights, then the draft head, have been prepared on the way to the disk.
  abbrev pub Prepared : Speculation → Bytes → Bytes → Disk → Type 0
  Prepared spec model draft t =
      (d : Disk) × (u : Disk) × (prepare_weights w.target m (opts F w m o).cache_root d
        ≡ (ok model, u))
      × (prepare_draft w.head spec.speculator m.load (opts F w m o).cache_root u ≡ (ok draft, t))

  abbrev pub Admitted : Bytes → Disk → Type 0
  Admitted model t = check_memory_budget F m w.report (w.walk t model) ≡ ok tt

  abbrev pub Waiting : Serving → Type 0
  Waiting s = (s.weights_nanoseconds ≡ 0) × (s.engine ≡ none)

  -- The entries of the store of the weights, and of the head's, lie at different paths.
  abbrev pub SpreadsBoth : Type 0
  SpreadsBoth =
      Spreads w.target (artifact_dir (opts F w m o).cache_root m.hf_repo m.revision)
      × ((spec : Speculation)
          → Resolved spec
          → Spreads w.head (
              artifact_dir (opts F w m o).cache_root spec.speculator.hf_repo
                spec.speculator.revision))

  -- The weights are streamed, or their files are on the disk that the draft head is prepared from;
  -- then the speculator has no head of its own, or the head's files are on the disk.
  abbrev pub IsFilled : Speculation → Bytes → Bytes → Disk → Type 0
  IsFilled spec model draft t =
      (u : Disk) × ((m.load ≡ load_s3_stream) ⊎ IsStocked w.target m.load model u)
      × (prepare_draft w.head spec.speculator m.load (opts F w m o).cache_root u ≡ (ok draft, t))
      × ((separate_head spec.speculator ≡ false) ⊎ IsStocked w.head (head_load m.load) draft t)

  Prepared-IsFilled :
      (spec : Speculation) (model draft : Bytes) (t : Disk)
      → SpreadsBoth
      → Resolved spec
      → Prepared spec model draft t
      → IsFilled spec model draft t
  Prepared-IsFilled spec model draft t (whole, heads) a (d, u, x, y) =
      let cache_root = (opts F w m o).cache_root in
      let head =
        prepare_draft-IsStocked w.head spec.speculator m.load cache_root draft u t (heads spec a)
          y in
      elim (prepare_weights-Matches w.target m cache_root model d u whole x) [
        | inl (s, _, _) ↦ (u, inl s, y, head)
        | inr (stocked, _) ↦ (u, inr stocked, y, head)
      ]

  -- What the function relies on at each point.
  abbrev pub IsSound : Phase → Serving → Type 0
  IsSound fresh s = (s.listening ≡ false) × Waiting s
  IsSound (exposed spec) s = Resolved spec × (s.listening ≡ true) × Waiting s
  IsSound (staged spec model draft) s =
      Resolved spec × Prepared spec model draft s.disk × (s.listening ≡ true) × Waiting s
  IsSound (ready_to_launch spec model draft) s =
      Resolved spec
      × Prepared spec model draft s.disk
      × Admitted model s.disk
      × (s.listening ≡ true)
      × (s.weights_nanoseconds ≡ w.elapsed)
      × (s.engine ≡ none)
  IsSound (running args) s =
      (spec : Speculation) × (model : Bytes) × (draft : Bytes) × Resolved spec
      × Prepared spec model draft s.disk
      × Admitted model s.disk
      × (command_for F w m o (opts F w m o).engine_cmd spec model draft ≡ ok args)
      × (s.listening ≡ true)
      × (s.weights_nanoseconds ≡ w.elapsed)
      × (s.engine ≡ some args)
  IsSound (returned r) s = (s.listening ≡ false) × ((s.engine ≡ none) ⊎ (r ≡ err server_failed))

  abbrev Holds : Serving → Type 0
  Holds s = IsSound s.phase s

  expose-Holds :
      (r : Result ResolveError Speculation) (b : Option Bound) (s : Serving)
      → resolve_speculator m (opts F w m o).speculator ≡ r
      → IsSound fresh s
      → Holds (expose F w m o r b s)
  expose-Holds (err e) b s x (l, (z, n)) = (refl, inl n)
  expose-Holds (ok spec) none s x (l, (z, n)) = (refl, inl n)
  expose-Holds (ok spec) (some b) s x (l, (z, n)) = elim (Bool-cases w.registers) [
    | inr r ↦ rw r (refl, inl n)
    | inl r ↦ elim (Bool-cases w.listens) [
      | inr i ↦ rw (r, i) (refl, inl n)
      | inl i ↦ rw (r, i) (x, refl, (z, n))
    ]
  ]

  stage_draft-Holds :
      (spec : Speculation) (model : Bytes) (u : Disk) (r : Result WeightError Bytes × Disk)
      (s : Serving)
      → prepare_weights w.target m (opts F w m o).cache_root s.disk ≡ (ok model, u)
      → prepare_draft w.head spec.speculator m.load (opts F w m o).cache_root u ≡ r
      → IsSound (exposed spec) s
      → Holds (stage_draft F w m o spec model r s)
  stage_draft-Holds spec model u (err e, d) s x y (a, l, (z, n)) = (refl, inl n)
  stage_draft-Holds spec model u (ok draft, d) s x y (a, l, (z, n)) =
      (a, (s.disk, u, x, y), l, (z, n))

  stage-Holds :
      (spec : Speculation) (r : Result WeightError Bytes × Disk) (s : Serving)
      → prepare_weights w.target m (opts F w m o).cache_root s.disk ≡ r
      → IsSound (exposed spec) s
      → Holds (stage F w m o spec r s)
  stage-Holds spec (err e, d) s x (a, l, (z, n)) = (refl, inl n)
  stage-Holds spec (ok model, d) s x h = stage_draft-Holds spec model d _ s x refl h

  admit-Holds :
      (spec : Speculation) (model draft : Bytes) (r : Result Refused (Unit {0})) (s : Serving)
      → check_memory_budget F m w.report (w.walk s.disk model) ≡ r
      → IsSound (staged spec model draft) s
      → Holds (admit F w m o spec model draft r s)
  admit-Holds spec model draft (err e) s x (a, p, l, (z, n)) = (refl, inl n)
  admit-Holds spec model draft (ok tt) s x (a, p, l, (z, n)) = (a, p, x, l, refl, n)

  start_engine-Holds :
      (spec : Speculation) (model draft : Bytes) (r : Result CommandError (List Bytes))
      (s : Serving)
      → command_for F w m o (opts F w m o).engine_cmd spec model draft ≡ r
      → IsSound (ready_to_launch spec model draft) s
      → Holds (start_engine F w m o r s)
  start_engine-Holds spec model draft (err e) s x (a, p, b, l, z, n) = (refl, inl n)
  start_engine-Holds spec model draft (ok args) s x (a, p, b, l, z, n) =
      elim (Bool-cases (w.starts args)) [
        | inr i ↦ rw i (refl, inl n)
        | inl i ↦ rw i (spec, model, draft, a, p, b, x, l, z, refl)
      ]

  advance_from-Holds :
      (p : Phase) (s : Serving) → s.phase ≡ p → IsSound p s → Holds (advance_from F w m o p s)
  advance_from-Holds fresh s e h = expose-Holds _ _ s refl h
  advance_from-Holds (exposed spec) s e h = stage-Holds spec _ s refl h
  advance_from-Holds (staged spec model draft) s e h = admit-Holds spec model draft _ s refl h
  advance_from-Holds (ready_to_launch spec model draft) s e h =
      start_engine-Holds spec model draft _ s refl h
  advance_from-Holds (running args) s e h = subst (λ p. IsSound p s) (sym e) h
  advance_from-Holds (returned r) s e h = subst (λ p. IsSound p s) (sym e) h

  end_with-Holds : (e : Event) (s : Serving) → Holds (end_with e s)
  unfolding end_with
  end_with-Holds cancelled s = (refl, inl refl)
  end_with-Holds exited s = (refl, inl refl)
  end_with-Holds failed s = (refl, inr refl)

  Step-Holds : {s t : Serving} → Step F w m o s t → Holds s → Holds t
  unfolding advance
  Step-Holds (go s) h = advance_from-Holds s.phase s refl h
  Step-Holds (wait e s args x) h = end_with-Holds e s

  Reach-Holds : {s t : Serving} → Reach F w m o s t → Holds s → Holds t
  Reach-Holds here h = h
  Reach-Holds (next r st) h = Step-Holds st (Reach-Holds r h)

  -- In every state that `Serve` passes through: the engine runs only with the command of the
  -- resolved speculator, on weights and a draft head that have been prepared, after the memory
  -- check has accepted the start; before that check the shim reports no loaded weights; and a
  -- return leaves no listener, and an engine only if the shim's server has failed.
  pub Reach-IsSound : (d : Disk) (s : Serving) → Reach F w m o (initial d) s → IsSound s.phase s
  Reach-IsSound d s r = Reach-Holds r (refl, (refl, refl))

  -- The shim as a request finds it.
  abbrev pub ShimOf : Serving → Shim → Type 0
  ShimOf s shim = shim.weights_nanoseconds ≡ s.weights_nanoseconds

  ready-loaded :
      (engine_get : Bytes → Option ℕ) (engine_post : Bytes → Bytes → Option EngineReply)
      (shim : Shim)
      → shim.weights_nanoseconds ≡ 0
      → ready engine_get engine_post shim ≡ some NotReady.weights_loading
  unfolding ready
  ready-loaded engine_get engine_post shim h = ground (arith, h)

  ready-IsAdmitted :
      (p : Phase) (engine_get : Bytes → Option ℕ) (engine_post : Bytes → Bytes → Option EngineReply)
      (shim : Shim) (s : Serving)
      → IsSound p s
      → ShimOf s shim
      → s.listening ≡ true
      → ready engine_get engine_post shim ≡ none
      → (spec : Speculation) × (model : Bytes) × (draft : Bytes) × Resolved spec
        × Prepared spec model draft s.disk
        × Admitted model s.disk
  ready-IsAdmitted fresh get post shim s (l, (z, n)) h k r = cc (l, k)
  ready-IsAdmitted (exposed spec) get post shim s (a, l, (z, n)) h k r =
      cc (ready-loaded get post shim (h ∙ z), r)
  ready-IsAdmitted (staged spec model draft) get post shim s (a, p, l, (z, n)) h k r =
      cc (ready-loaded get post shim (h ∙ z), r)
  ready-IsAdmitted (ready_to_launch spec model draft) get post shim s (a, p, b, l, z, n) h k r =
      (spec, model, draft, a, p, b)
  ready-IsAdmitted (running args) get post shim s (spec, model, draft, a, p, b, c, l, z, n) h k r =
      (spec, model, draft, a, p, b)
  ready-IsAdmitted (returned x) get post shim s (l, n) h k r = cc (l, k)

  -- Whenever the shim answers that it is ready, the weights were prepared and then the draft head of
  -- the resolved speculator: weights that are not streamed had their files on the disk with their
  -- sizes and sums when the head's turn came, and so has a separate head now; and the memory check
  -- has accepted the start. The entries of each store lie at different paths.
  pub ready-IsFilled :
      (engine_get : Bytes → Option ℕ) (engine_post : Bytes → Bytes → Option EngineReply)
      (shim : Shim) (d : Disk) (s : Serving)
      → SpreadsBoth
      → Reach F w m o (initial d) s
      → ShimOf s shim
      → s.listening ≡ true
      → ready engine_get engine_post shim ≡ none
      → (spec : Speculation) × (model : Bytes) × (draft : Bytes) × Resolved spec
        × IsFilled spec model draft s.disk
        × Admitted model s.disk
  ready-IsFilled get post shim d s both r h k e =
      let (spec, model, draft, a, p, b) =
        ready-IsAdmitted s.phase get post shim s (Reach-IsSound d s r) h k e in
      (spec, model, draft, a, Prepared-IsFilled spec model draft s.disk both a p, b)

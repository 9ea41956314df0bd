-- ===== src/Runtime/Serve.antt =====
-- `Serve` of internal/runtime/serve.go as the states that it passes through: what a request to the
-- shim can see while the weights are prepared and the engine runs.
pub mod Sound
use llmops.Prelude.{
  ℕ, ◌≡◌, Bool, true, false, not, Option, none, some, List, [], ◌∷◌, if◌then◌else◌, Result, ok, err,
}
use llmops.Floats.{Floats}
use llmops.Strings.{Bytes}
use llmops.Manifest.{Manifest, dialect}
use llmops.Manifest.Speculators.{Speculation, resolve_speculator, ResolveError}
use llmops.Mirror.Effects.{Eff}
use llmops.Runtime.Command.{Options, defaults, CommandError, engine_command, render_override}
use llmops.Runtime.Weights.{Disk, Outside, WeightError, prepare_weights, prepare_draft}
use llmops.Runtime.Preflight.{Visit, Refused, check_memory_budget}
use llmops.Runtime.Shim.Surfaces.{Bound, set_dialect}

pub data ServeError : Type 0 where
  unresolved : ResolveError → ServeError
  unknown_dialect not_registered not_listening : ServeError
  not_prepared not_drafted : WeightError → ServeError
  over_budget : Refused → ServeError
  no_command : CommandError → ServeError
  not_started engine_exited server_failed : ServeError

-- How far the function has come, with the values that the rest of it uses.
pub data Phase : Type 0 where
  fresh : Phase
  exposed : Speculation → Phase
  staged ready_to_launch : Speculation → Bytes → Bytes → Phase
  running : List Bytes → Phase
  returned : Result ServeError (Unit {0}) → Phase

-- The host and the shim: the weights' time in nanoseconds is 0 until it is set.
pub record Serving : Type 0 where
  pub phase : Phase
  pub disk : Disk
  pub listening : Bool
  pub weights_nanoseconds : ℕ
  pub engine : Option (List Bytes)

-- What the function meets: the two stores, the home directory, whether the metrics, the listener
-- and a process start, the memory report, the walk over a directory, and the time that passes.
pub record World : Type 0 where
  pub target : Outside
  pub head : Outside
  pub home : Option Bytes
  pub registers : Bool
  pub listens : Bool
  pub starts : List Bytes → Bool
  pub report : Option Bytes
  pub walk : Disk → Bytes → List Visit
  pub elapsed : ℕ

abbrev pub initial : Disk → Serving
initial d = record {
  phase = fresh;
  disk = d;
  listening = false;
  weights_nanoseconds = 0;
  engine = none;
}

-- A return closes the server.
abbrev pub stop : Result ServeError (Unit {0}) → Serving → Serving
stop r s = record s { phase = returned r; listening = false }

-- The cases of the `select`.
pub data Event : Type 0 where
  cancelled exited failed : Event

-- A cancelled context kills the engine, and it is reaped.
unfoldable pub end_with : Event → Serving → Serving
end_with cancelled s = stop (ok tt) (record s { engine = none })
end_with exited s = stop (err engine_exited) (record s { engine = none })
end_with failed s = stop (err server_failed) s

module _ (F : Floats) (w : World) (m : Manifest) (o : Options) where
  abbrev pub opts : Options
  opts = defaults w.home o

  -- From the start to the listener.
  abbrev pub expose : Result ResolveError Speculation → Option Bound → Serving → Serving
  expose (err e) b s = stop (err (unresolved e)) s
  expose (ok spec) none s = stop (err unknown_dialect) s
  expose (ok spec) (some b) s =
      if not w.registers
      then stop (err not_registered) s
      else if not w.listens
      then stop (err not_listening) s
      else record s { phase = exposed spec; listening = true }

  -- The weights, then the draft head.
  abbrev pub stage_draft : Speculation → Bytes → Result WeightError Bytes × Disk → Serving → Serving
  stage_draft spec model (err e, d) s = stop (err (not_drafted e)) (record s { disk = d })
  stage_draft spec model (ok draft, d) s = record s { phase = staged spec model draft; disk = d }

  abbrev pub stage : Speculation → Result WeightError Bytes × Disk → Serving → Serving
  stage spec (err e, d) s = stop (err (not_prepared e)) (record s { disk = d })
  stage spec (ok model, d) s =
      stage_draft spec model (prepare_draft w.head spec.speculator m.load opts.cache_root d) s

  -- The memory check; the shim is told that the weights are loaded.
  abbrev pub admit : Speculation → Bytes → Bytes → Result Refused (Unit {0}) → Serving → Serving
  admit spec model draft (err e) s = stop (err (over_budget e)) s
  admit spec model draft (ok tt) s = record s {
    phase = ready_to_launch spec model draft;
    weights_nanoseconds = w.elapsed;
  }

  -- The engine's command, which a test can override.
  abbrev pub command_for :
      List Bytes → Speculation → Bytes → Bytes → Result CommandError (List Bytes)
  command_for [] spec model draft = engine_command m model opts.engine_port spec draft
  command_for (c ∷ cs) spec model draft = ok (render_override (c ∷ cs) model opts.engine_port)

  abbrev pub start_engine : Result CommandError (List Bytes) → Serving → Serving
  start_engine (err e) s = stop (err (no_command e)) s
  start_engine (ok args) s =
      if not (w.starts args)
      then stop (err not_started) s
      else record s { phase = running args; engine = some args }

  -- The next write of `Serve` that another goroutine can see.
  abbrev pub advance_from : Phase → Serving → Serving
  advance_from fresh s = expose (resolve_speculator m opts.speculator) (set_dialect (dialect m)) s
  advance_from (exposed spec) s = stage spec (prepare_weights w.target m opts.cache_root s.disk) s
  advance_from (staged spec model draft) s =
      admit spec model draft (check_memory_budget F m w.report (w.walk s.disk model)) s
  advance_from (ready_to_launch spec model draft) s =
      start_engine (command_for opts.engine_cmd spec model draft) s
  advance_from (running args) s = s
  advance_from (returned r) s = s

  unfoldable pub advance : Serving → Serving
  advance s = advance_from s.phase s

  -- One step: the function goes on, or an event ends the wait for one.
  pub data Step : Serving → Serving → Type 0 where
    go : (s : Serving) → Step s (advance s)
    wait :
        (e : Event) (s : Serving) (args : List Bytes)
        → s.phase ≡ running args
        → Step s (end_with e s)

  pub data Reach (s : Serving) : Serving → Type 0 where
    here : Reach s s
    next : {t u : Serving} → Reach s t → Step t u → Reach s u

-- ===== src/Cli/Agents.antt =====
-- The verbs `ps`, `endpoint` and `run` (cmd/fornax/harness.go). What a discovery finds is an
-- argument, one answer for each time it is asked; so are text/template, fmt's %.1f, encoding/json and
-- text/tabwriter, the PATH, the environment, and wait.Until of latere.ai/x/pkg/wait.
pub mod Laws
use llmops.Prelude.{
  ℕ, suc, ℤ, pos, gtz, ◌≡◌, Bool, true, false, ◌||◌, not, ◌&&◌, Option, none, some, List, [], ◌∷◌,
  ◌++◌, if◌then◌else◌, Result, ok, err, wrap, ◌>>=◌, map, length,
}
use llmops.Floats.{Floats}
use llmops.Strings.{Bytes, codes, equal, is_empty}
use llmops.Strings.Numbers.{itoa}
use llmops.Install.{default_config_dir, default_unit_dir}
use llmops.Manifest.Load.{LoadError}
use llmops.Harness.{
  Harness, Endpoint, HarnessError, lookup_harness, env_vars, shell, config, default_config, Format,
}
use llmops.Harness.Discover.{State, endpoint_for}
use llmops.Harness.Models.{Model, ready}
use llmops.Cli.{Fault, usage, failure, pop_positional}
use llmops.Cli.AgentFlags.{Look, EndpointArgs, endpoint_args, RunArgs, run_args}
use llmops.Cli.Flags.{Scanners, Flag, Kind, Settings, parse_flags, string_of, duration_of, bool_of}

pub data AgentError : Type 0 where
  not_discovered : LoadError → AgentError
  no_model : Bytes → AgentError
  in_harness : HarnessError → AgentError
  not_on_path : Bytes → AgentError
  not_ready went_down not_in_time : Bytes → AgentError
  not_encoded : AgentError

-- How wait.Until ends: with a poll of the condition, numbered from 1, that holds or that fails, or
-- at the deadline.
pub data Waited (E : Type 0) : Type 0 where
  satisfied : ℕ → Waited E
  broke : ℕ → E → Waited E
  expired : Waited E

pub record AgentWorld (F : Floats) : Type 0 where
  pub scanners : Scanners
  -- `Discover`, asked for the n-th time; the poll n of a wait is the question n.
  pub discover_at : ℕ → Look → Result LoadError (List (Model F))
  pub execute : Bytes → Endpoint → Option Bytes
  pub until : (ℕ → Result (Fault AgentError) Bool) → Waited (Fault AgentError)
  pub look_path : Bytes → Option Bytes
  pub environ : List Bytes

-- The call of execve that ends `run`.
pub record Exec : Type 0 where
  pub bin : Bytes
  pub argv : List Bytes
  pub env : List Bytes

abbrev is_down : State → Bool
is_down State.ready = false
is_down State.loading = false
is_down State.down = true

abbrev pub state_text : State → Bytes
state_text State.ready = codes "ready"
state_text State.loading = codes "loading"
state_text State.down = codes "down"

abbrev pub assignments : List (Bytes × Bytes) → List Bytes
assignments [] = []
assignments ((k, v) ∷ rest) = (k ++ b'=' ∷ v) ∷ assignments rest

module _ (F : Floats) where
  -- harness.Model{}
  abbrev zero_model : Model F
  zero_model = record {
    name = [];
    runtime = [];
    gpu = [];
    port = 0;
    state = State.down;
    loaded = F.zero_float;
    speculator = [];
  }

  unfoldable pub find_model : List (Model F) → Bytes → Option (Model F)
  unfolding equal
  find_model [] n = none
  find_model (m ∷ ms) n = if equal m.name n then some m else find_model ms n

  abbrev pub only_model : List (Model F) → Result (Fault AgentError) (Model F)
  only_model [] = err usage
  only_model (m ∷ []) = ok m
  only_model (m ∷ n ∷ ms) = err usage

  abbrev pub pick_model : Bytes → List (Model F) → Result (Fault AgentError) (Model F)
  unfolding find_model
  pick_model name models =
      if is_empty name
      then only_model models
      else elim (find_model models name) [ none ↦ err (failure (no_model name)) | some m ↦ ok m ]

  module _ (w : AgentWorld F) where
    open w use {scanners, discover_at, execute, until, look_path, environ}

    -- `resolveModel`
    unfoldable pub resolve_model : ℕ → Look → Bytes → Result (Fault AgentError) (Model F)
    unfolding pick_model
    resolve_model n look name =
        wrap (λ e. failure (not_discovered e)) (discover_at n look) >>= pick_model name

    -- The condition that is waited for.
    unfoldable pub poll : Look → Bytes → ℕ → Result (Fault AgentError) Bool
    unfolding resolve_model ready
    poll look name n = resolve_model n look name >>= λ got.
        if is_down got.state then err (failure (went_down name)) else ok (ready got.state)

    -- The variable `got` after the poll.
    abbrev got_at : Result (Fault AgentError) (Model F) → Model F
    got_at (ok m) = m
    got_at (err e) = zero_model

    -- `awaitReady`
    unfoldable pub await_ready : Look → Model F → ℤ → Result (Fault AgentError) (Model F)
    unfolding poll ready
    await_ready look m budget =
        if ready m.state
        then ok m
        else if not (gtz 0 budget) || is_down m.state
        then err (failure (not_ready m.name))
        else elim (until (poll look m.name)) [
          | satisfied n ↦ ok (got_at (resolve_model n look m.name))
          | broke n e ↦ err e
          | expired ↦ err (failure (not_in_time m.name))
        ]

    abbrev pub harness_of : Bytes → Result (Fault AgentError) Harness
    harness_of name = wrap (λ e. failure (in_harness e)) (lookup_harness name)

    -- `EndpointFor` for a discovered model.
    abbrev pub endpoint_at : Model F → Bytes → Bytes → Endpoint
    endpoint_at m host token = endpoint_for m.name m.port host token

    -- The end of `runHarness`.
    unfoldable pub launch : RunArgs → Harness → Model F → Result (Fault AgentError) Exec
    unfolding env_vars
    launch a h m =
        wrap (λ e. failure (in_harness e)) (env_vars execute h (endpoint_at m a.host a.token))
        >>= λ vars. elim (look_path h.name) [
          | none ↦ err (failure (not_on_path h.name))
          | some bin ↦ ok (record {
            bin = bin;
            argv = h.name ∷ a.passthrough;
            env = environ ++ assignments vars;
          })
        ]

    -- `runHarness`, up to execve.
    unfoldable pub run_harness : List Bytes → Result (Fault AgentError) Exec
    unfolding run_args lookup_harness resolve_model await_ready launch
    run_harness rest = elim (run_args scanners rest) [
      | none ↦ err usage
      | some a ↦ harness_of a.harness >>= λ h. resolve_model 0 a.look a.model >>= λ m.
          await_ready a.look m a.budget >>= λ served. launch a h served
    ]

    -- `switch harness.Format(*format)`
    unfoldable pub render : Bytes → Harness → Endpoint → Result (Fault AgentError) Bytes
    unfolding default_config shell config
    render format h e =
        if is_empty format
        then wrap (λ x. failure (in_harness x)) (default_config execute h e)
        else if equal format (codes "env")
        then wrap (λ x. failure (in_harness x)) (shell execute h e)
        else if equal format (codes "json") || equal format (codes "toml")
        then wrap (λ x. failure (in_harness x)) (config execute h e)
        else err usage

    -- What `endpoint` writes to the two streams.
    abbrev notes : EndpointArgs → Harness → Model F → Endpoint → List Bytes
    notes a h m e =
        (codes "# "
          ++ (e.base_url
              ++ codes " is unauthenticated; the token below is a placeholder (specs/026)"))
        ∷ ((if not (ready m.state)
              then (codes "# warning: "
                  ++ (m.name ++ (codes " is " ++ (state_text m.state ++ codes ", not ready"))))
                ∷ []
              else [])
            ++ (if not (is_empty h.config_file) && not (equal a.format (codes "env"))
                then (codes "# write this to " ++ h.config_file) ∷ []
                else []))

    -- `runEndpoint`: stdout, and the lines of stderr.
    unfoldable pub run_endpoint : List Bytes → Result (Fault AgentError) (Bytes × List Bytes)
    unfolding endpoint_args lookup_harness resolve_model endpoint_for render
    run_endpoint rest = elim (endpoint_args scanners rest) [
      | none ↦ err usage
      | some a ↦ harness_of a.harness >>= λ h. resolve_model 0 a.look a.model >>= λ m.
          let e = endpoint_at m a.host a.token in
          render a.format h e >>= λ rendered. ok (rendered, notes a h m e)
    ]

-- ===== src/Tests/Agents.antt =====
-- A harness launched against the only installed model.
use llmops.Prelude.{◌≡◌, ◌⊎◌, refl, true, false, pos, none, some, List, [], ◌∷◌, ◌++◌, Result, ok}
use llmops.Strings
use llmops.Strings.{Bytes, codes, equal, has_member}
use llmops.Strings.Numbers
use llmops.Harness
use llmops.Harness.{Harness, lookup_harness, env_vars, codex}
use llmops.Harness.Discover
use llmops.Harness.Discover.{State}
use llmops.Harness.Models.{Model, ready}
use llmops.Cli
use llmops.Cli.Flags
use llmops.Cli.AgentFlags.Laws.{run_args-passthrough}
use llmops.Install.{default_config_dir, default_unit_dir}
use llmops.Cli.Agents
use llmops.Cli.{Fault}
use llmops.Cli.Flags.{Scanners}
use llmops.Cli.AgentFlags
use llmops.Cli.AgentFlags.{RunArgs, run_args}
use llmops.Cli.Agents.{
  AgentError, AgentWorld, Exec, Waited, expired, run_harness, assignments, endpoint_at,
}
use llmops.Cli.Agents.Laws.{IsUntil, Discovered, run_harness-ready}
use llmops.Tests.Fixtures.{hundredths}

abbrev pub no_numbers : Scanners
no_numbers = record { scan_int = λ _. none; scan_duration = λ _. none }

abbrev served : Model hundredths
served = record {
  name = codes "qwen";
  runtime = codes "sglang";
  gpu = codes "1xgb10";
  port = 8000;
  state = State.ready;
  loaded = some 150;
  speculator = [];
}

abbrev host : AgentWorld hundredths
host = record {
  scanners = no_numbers;
  discover_at = λ _ _. ok (served ∷ []);
  execute = λ _ e. some e.base_url;
  until = λ _. expired;
  look_path = λ n. some (codes "/bin/" ++ n);
  environ = codes "HOME=/root" ∷ [];
}

never_satisfied : IsUntil host
never_satisfied condition n h = cc h

abbrev words : List Bytes
words = codes "codex" ∷ codes "--model" ∷ codes "qwen" ∷ codes "--" ∷ codes "--model" ∷ []

unfoldable launched : Result (Fault AgentError) Exec
unfolding codes equal run_harness run_args env_vars lookup_harness ready Strings.has_prefix
    Strings.cut_prefix Strings.cut Strings.trim_suffix Strings.cut_suffix Numbers.itoa
    Harness.resolve_endpoint Harness.find_harness Discover.endpoint_for Cli.split_repo
    Cli.pop_positional Flags.accepts Flags.kind_of Flags.name_token Flags.token_of Flags.parse_onto
    Flags.parse_flags Flags.string_of Flags.duration_of AgentFlags.split_dashes Agents.find_model
    Agents.resolve_model Agents.await_ready Agents.launch
launched = run_harness hundredths host words

abbrev becomes : Exec
becomes = record {
  bin = codes "/bin/codex";
  argv = codes "codex" ∷ codes "--model" ∷ [];
  env =
      codes "HOME=/root"
      ∷ codes "OPENAI_BASE_URL=http://127.0.0.1:8000/v1"
      ∷ codes "OPENAI_API_KEY=http://127.0.0.1:8000/v1"
      ∷ [];
}

launches : run_harness hundredths host words ≡ ok becomes
unfolding launched
launches = refl

run_harness-ready_example :
    (a : RunArgs) × (h : Harness) × (m : Model hundredths) × (run_args no_numbers words ≡ some a)
    × (lookup_harness a.harness ≡ ok h)
    × Discovered hundredths host a.look m
    × (ready m.state ≡ true)
    × ((a.model ≡ []) ⊎ (m.name ≡ a.model))
    × ((becomes.argv ≡ h.name ∷ a.passthrough)
        × (host.look_path h.name ≡ some becomes.bin)
        × ((vars : List (Bytes × Bytes)) × (env_vars host.execute h
                (endpoint_at hundredths host m a.host a.token)
              ≡ ok vars)
            × (becomes.env ≡ host.environ ++ assignments vars)))
run_harness-ready_example = run_harness-ready hundredths host never_satisfied words becomes launches

abbrev mine : List Bytes
mine = codes "codex" ∷ codes "--model" ∷ codes "qwen" ∷ []

abbrev understood : RunArgs
understood = record {
  look = record {
    config_dir = default_config_dir;
    unit_dir = default_unit_dir;
    timeout = pos 2000000000;
  };
  harness = codes "codex";
  model = codes "qwen";
  host = codes "127.0.0.1";
  token = codes "local";
  budget = pos 0;
  passthrough = [];
}

no_dashes : has_member mine (codes "--") ≡ false
unfolding launched has_member
no_dashes = refl

run_mine : run_args no_numbers mine ≡ some understood
unfolding launched AgentFlags.look_of
run_mine = refl

run_args-passthrough_example :
    run_args no_numbers (mine ++ codes "--" ∷ codes "--model" ∷ [])
    ≡ some (record understood { passthrough = codes "--model" ∷ [] })
run_args-passthrough_example =
    run_args-passthrough no_numbers mine (codes "--model" ∷ []) understood no_dashes run_mine

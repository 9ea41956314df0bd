-- ===== src/Tests/Starts.antt =====
-- Starts of the engine: the memory check, and the states of a start.
use llmops.Prelude.{◌+◌, ◌≤◌, ◌≡◌, ◌↔◌, refl, true, none, some, List, [], ◌∷◌, ◌++◌, ok, err, arith}
use llmops.Strings
use llmops.Strings.{Bytes, codes, equal}
use llmops.Paths
use llmops.Manifest
use llmops.Manifest.{Manifest, gpu_type_gb10}
use llmops.Manifest.Flags
use llmops.Manifest.Speculators
use llmops.Manifest.Speculators.{Speculation}
use llmops.Manifest.Validate.Engine.{fraction_flag}
use llmops.Runtime.Command
use llmops.Runtime.Command.{Options}
use llmops.Runtime.Weights
use llmops.Runtime.Weights.{Disk}
use llmops.Runtime.Shim.Serve.{Shim, ready}
use llmops.Runtime.Shim.Surfaces
use llmops.Runtime.Preflight.{
  Visit, file, directory, Refused, host_floor_bytes, mem_total_bytes, engine_fraction,
  check_memory_budget,
}
use llmops.Runtime.Preflight.Budget.{check_memory_budget_iff}
use llmops.Runtime.Serve.{Serving, World, initial, advance, Reach, here, next, go}
use llmops.Runtime.Serve.Sound.{
  Resolved, IsSound, IsFilled, Admitted, Reach-IsSound, ready-IsFilled,
}
use llmops.Tests.Fixtures.{qwen, hundredths, two_decimals}
use llmops.Tests.Runtimes.{cached, outside, empty_disk, spread}

-- 128 GB, of which the engine takes three fifths, and two files.
abbrev report : Bytes
report = codes "MemFree: 1 kB" ++ 10 ∷ codes "MemTotal:  134217728 kB"

abbrev visits : List Visit
visits = directory ∷ file 20000000000 ∷ file 3000000000 ∷ []

pool : mem_total_bytes (some report) ≡ some 137438953472
unfolding mem_total_bytes codes equal Strings.cut_prefix Strings.split Strings.fields
pool = refl

stated : engine_fraction hundredths qwen ≡ some (some 60)
unfolding engine_fraction codes equal two_decimals Flags.flag_value Flags.flag_loop Flags.flag_step
    Flags.value_after Strings.cut_prefix Strings.has_prefix
stated = refl

check_memory_budget_iff_example :
    (check_memory_budget hundredths qwen (some report) visits ≡ ok tt)
    ↔ (82463372083 + 23000000000 + host_floor_bytes ≤ 137438953472)
check_memory_budget_iff_example =
    check_memory_budget_iff hundredths qwen (some report) visits 137438953472 23000000000 (some 60)
      refl pool stated (3000000000, refl, (0, refl, refl)) (omega arith) (omega arith)

refusal :
    check_memory_budget hundredths qwen (some report) (file 60000000000 ∷ [])
    ≡ err (Refused.refused 82463372083 60000000000 137438953472)
unfolding check_memory_budget mem_total_bytes codes equal two_decimals Flags.flag_value
    Flags.flag_loop Flags.flag_step Flags.value_after Strings.cut_prefix Strings.split
    Strings.fields Strings.has_prefix
refusal = refl

sglang_flag : fraction_flag qwen.runtime ≡ some (codes "--mem-fraction-static")
unfolding fraction_flag equal codes
sglang_flag = refl

-- A host where all goes well, and a start with a draft head.
abbrev drafted_model : Manifest
drafted_model = cached

abbrev options : Options
options = record {
  port = 0;
  engine_port = 0;
  cache_root = codes "/c";
  engine_cmd = [];
  speculator = [];
}

abbrev world : World
world = record {
  target = outside;
  head = outside;
  home = none;
  registers = true;
  listens = true;
  starts = λ _. true;
  report = none;
  walk = λ _ _. visits;
  elapsed = 7;
}

abbrev step : Serving → Serving
step = advance hundredths world drafted_model options

abbrev third : Serving
third = step (step (step (initial empty_disk)))

reached : Reach hundredths world drafted_model options (initial empty_disk) third
reached = next (next (next here (go _)) (go _)) (go _)

Reach-IsSound_example : IsSound hundredths world drafted_model options third.phase third
Reach-IsSound_example =
    Reach-IsSound hundredths world drafted_model options empty_disk third reached

-- What the third state is.
unfoldable run_third : Serving
unfolding advance codes equal Strings.split Strings.join Strings.has_prefix Strings.trim_prefix
    Strings.cut_prefix Paths.clean Paths.join_path Speculators.resolve_speculator Manifest.dialect
    Surfaces.set_dialect Surfaces.backends Command.defaults Command.expand_home
    Weights.prepare_weights Weights.prepare_draft Weights.prepare_artifact Weights.opened
    Weights.lock_dir Weights.fetch_all Weights.sync Weights.ensure_files Weights.read_remote
    check_memory_budget Speculators.resolve_named Speculators.find Speculators.speculator_at
    Weights.ensure_file Weights.file_matches Weights.refetch Weights.get_to Manifest.separate_head
run_third = third

listening : third.listening ≡ true
unfolding run_third
listening = refl

elapsed : world.elapsed ≡ third.weights_nanoseconds
unfolding run_third
elapsed = refl

abbrev shim : Shim
shim = record {
  bound = record { engine_path = codes "/v1/chat/completions"; surfaces = [] };
  system_prompt = none;
  speculator = [];
  health_path = [];
  weights_nanoseconds = 7;
}

healthy : ready (λ _. some 200) (λ _ _. none) shim ≡ none
unfolding ready
healthy = refl

ready-IsFilled_example :
    (spec : Speculation) × (model : Bytes) × (draft : Bytes) × Resolved hundredths world
      drafted_model options spec
    × IsFilled hundredths world drafted_model options spec model draft third.disk
    × Admitted hundredths world drafted_model options model third.disk
ready-IsFilled_example =
    ready-IsFilled hundredths world drafted_model options (λ _. some 200) (λ _ _. none) shim
      empty_disk third (spread _, λ _ _. spread _) reached elapsed listening healthy

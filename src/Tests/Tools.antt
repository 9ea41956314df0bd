-- ===== src/Tests/Tools.antt =====
-- Runs of the harness configuration, of `ps` and of the benchmark.
use llmops.Prelude.{suc, ◌*◌, ◌≡◌, ◌≤◌, ◌<◌, refl, true, Option, some, List, [], ◌∷◌, ok, arith}
use llmops.Strings
use llmops.Strings.{Bytes, codes, equal, has_member}
use llmops.Harness.{shell_quote}
use llmops.Harness.Quote.{shell_word, shell_quote-word}
use llmops.Harness.Discover
use llmops.Harness.Discover.{Reply, State, probe, probe-ready}
use llmops.Bench
use llmops.Bench.{
  Measured, Sample, Totals, no_totals, aggregate, percentile_index, latency, Latency,
}
use llmops.Bench.Laws.{percentile_index-nearest_rank}
use llmops.Tests.Fixtures.{hundredths}

shell_quote-word_example : shell_word (shell_quote (codes "it's")) ≡ some (codes "it's")
shell_quote-word_example = shell_quote-word (codes "it's")

abbrev answers : Bytes → Option Reply
answers path = some (record { status = 200; speculator = []; content = [] })

abbrev names_qwen : Bytes → Option (List Bytes)
names_qwen c = some (codes "qwen" ∷ [])

unfoldable run_probe : State
unfolding codes equal has_member Strings.split Strings.cut_prefix Strings.trim_space Discover.serves
    Discover.weights_loaded Discover.state_of_status Discover.is_ready Discover.probe
run_probe = (probe hundredths answers names_qwen (codes "qwen")).state

found_ready : (probe hundredths answers names_qwen (codes "qwen")).state ≡ State.ready
unfolding run_probe
found_ready = refl

probe-ready_example :
    ((r : Reply) × (answers (codes "/readyz") ≡ some r) × (r.status ≡ 200))
    × (has_member (codes "qwen" ∷ []) (codes "qwen") ≡ true)
probe-ready_example =
    probe-ready hundredths answers names_qwen (codes "qwen")
      (record { status = 200; speculator = []; content = [] }) (codes "qwen") [] refl refl refl
      found_ready

percentile_index-nearest_rank_example :
    (percentile_index 7 95 < 7)
    × (95 * 7 ≤ 100 * suc (percentile_index 7 95))
    × (100 * percentile_index 7 95 < 95 * 7)
percentile_index-nearest_rank_example =
    percentile_index-nearest_rank 7 95 (omega arith) (omega arith) (omega arith)

abbrev fast : Measured
fast = record { ttft = 5; chunks = 3; tokens = 9; speculator = codes "dspark" }

abbrev run_of_two : List Sample
run_of_two = Sample.failed ∷ Sample.measured fast ∷ []

abbrev totals_of_two : Totals
totals_of_two = record {
  errors = 1;
  chunks = 3;
  tokens = 9;
  speculator = codes "dspark";
  ttfts = 5 ∷ [];
}

aggregated : aggregate no_totals run_of_two ≡ ok totals_of_two
unfolding aggregate Bench.count_measured equal codes
aggregated = refl

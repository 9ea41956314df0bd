-- ===== src/Tests/Pools.antt =====
-- A pool of one worker with one request, and a report.
use llmops.Prelude.{
  ℕ, ◌+◌, ◌*◌, ◌<◌, ◌≤◌, ◌≡◌, ◌↔◌, ◌⊎◌, refl, Option, some, [], ◌∷◌, ◌==◌, if◌then◌else◌, ltb, ok,
  length, arith, pos, gtz, ◌++◌,
}
use llmops.Strings.{codes, equal}
use llmops.Bench
use llmops.Bench.Pool
use llmops.Bench.{Config, Sample, Latency, measured, failed, effective_config}
use llmops.Bench.Laws.{failures}
use llmops.Bench.Pool.{
  Pool, Step, taken, ended, Reach, start, after, IsFinished, started, hand_over, end_request,
  Report, run, collected,
}
use llmops.Bench.Pool.Laws.{filled, Reach-ends, Reach-measured}
use llmops.Bench.Pool.Reports.{run-counts}

abbrev at_work : Pool
at_work = hand_over (started 1) 0

abbrev finished : Pool
finished = end_request at_work [] 0 [] failed

unfoldable at_work_busy : at_work.busy ≡ [] ++ 0 ∷ []
unfolding hand_over
at_work_busy = refl

reached : Reach 1 1 2 finished
reached =
    after 1 at_work finished
      (after 0 (started 1) at_work start (taken (started 1) 0 (omega arith) refl))
      (ended at_work [] 0 [] failed at_work_busy)

Reach-ends_example :
    (2 ≤ 2 * 1)
    × (IsFinished 1 finished ⊎ ((q : Pool) × Step 1 finished q))
    × ((2 ≡ 2 * 1) ↔ IsFinished 1 finished)
Reach-ends_example = Reach-ends 1 1 2 finished (omega arith) reached

is_finished : IsFinished 1 finished
unfolding hand_over end_request
is_finished = (refl, refl)

Reach-measured_example : filled (finished.samples 0) ≡ (if ltb 0 1 then 1 else 0)
Reach-measured_example = Reach-measured 1 1 2 finished 0 reached is_finished

abbrev two_requests : Config
two_requests = record {
  base_url = codes "http://h";
  model = codes "qwen";
  concurrency = pos 1;
  requests = pos 2;
  prompt = [];
  max_tokens = pos 8;
}

abbrev one_fails : Config → ℕ → Option Sample
one_fails c i =
    if i == 0
    then some failed
    else some (measured (record { ttft = 5; chunks = 1; tokens = 1; speculator = [] }))

abbrev reported : Report
reported = record {
  config = two_requests;
  requests = pos 2;
  totals = record { errors = 1; chunks = 1; tokens = 1; speculator = []; ttfts = 5 ∷ [] };
  latencies = some (record { p50 = 5; p95 = 5 });
}

run-reported : run two_requests one_fails ≡ ok reported
unfolding run codes gtz equal Bench.effective_config Bench.aggregate Bench.count_measured
    Bench.latency Bench.percentile Bench.sort_numbers Pool.collected Pool.report_of
run-reported = refl

run-counts_example :
    (n : ℕ) × (e : Config) × (effective_config two_requests ≡ ok e)
    × (reported.requests ≡ pos n)
    × (0 < n)
    × (reported.totals.errors + length reported.totals.ttfts ≡ n)
    × (reported.totals.errors ≡ failures (collected n 0 (one_fails e)))
    × ((l : Latency) × (reported.latencies ≡ some l))
run-counts_example = run-counts two_requests one_fails reported run-reported

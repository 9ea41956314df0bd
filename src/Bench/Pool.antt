-- ===== src/Bench/Pool.antt =====
-- The workers of `Run` (internal/bench/bench.go): a pool of goroutines that take the numbers of the
-- requests from a channel and write each sample to its place. A step is the hand-over of a number
-- to a worker that waits, or the end of a request, with whatever sample it has; any order of steps
-- that the scheduler may take is a sequence of them.
pub mod Laws
pub mod Reports
use llmops.Prelude.{
  ℕ, zero, suc, ◌+◌, ◌-◌, ◌<◌, ◌≤◌, ◌≡◌, Option, none, some, List, [], ◌∷◌, ◌++◌, if◌then◌else◌,
  ◌==◌, ltb, length, Result, ok, err, ◌>>=◌, pos, ℤ, negsuc,
}
use llmops.Strings.{Bytes}
use llmops.Bench.{
  Config, BenchError, Sample, Measured, measured, Totals, no_totals, effective_config, aggregate,
  Latency, latency,
}

-- The next number to hand over, the workers that wait for one, the numbers that are being worked
-- on, and the samples that are written.
pub record Pool : Type 0 where
  pub next : ℕ
  pub idle : ℕ
  pub busy : List ℕ
  pub samples : ℕ → Option Sample

abbrev pub started : ℕ → Pool
started concurrency = record { next = 0; idle = concurrency; busy = []; samples = λ _. none }

-- `jobs <- i`, taken by a worker
unfoldable pub hand_over : Pool → ℕ → Pool
hand_over p idle = record {
  next = suc p.next;
  idle = idle;
  busy = p.next ∷ p.busy;
  samples = p.samples;
}

-- `samples[i] = oneRequest(...)`
unfoldable pub put_sample : ℕ → Sample → (ℕ → Option Sample) → ℕ → Option Sample
put_sample i s samples j = if i == j then some s else samples j

unfoldable pub end_request : Pool → List ℕ → ℕ → List ℕ → Sample → Pool
unfolding put_sample
end_request p front i back s = record {
  next = p.next;
  idle = suc p.idle;
  busy = front ++ back;
  samples = put_sample i s p.samples;
}

-- One step of the pool, for a number of requests.
pub data Step (requests : ℕ) : Pool → Pool → Type 0 where
  taken :
      (p : Pool) (idle : ℕ)
      → p.next < requests
      → p.idle ≡ suc idle
      → Step requests p (hand_over p idle)
  ended :
      (p : Pool) (front : List ℕ) (i : ℕ) (back : List ℕ) (s : Sample)
      → p.busy ≡ front ++ i ∷ back
      → Step requests p (end_request p front i back s)

-- The pools that a number of steps leads to.
pub data Reach (concurrency requests : ℕ) : ℕ → Pool → Type 0 where
  start : Reach concurrency requests 0 (started concurrency)
  after :
      (k : ℕ) (p q : Pool)
      → Reach concurrency requests k p
      → Step requests p q
      → Reach concurrency requests (suc k) q

-- `wg.Wait()` returns: the channel is closed and drained, and no worker is at work.
abbrev pub IsFinished : ℕ → Pool → Type 0
IsFinished requests p = (p.next ≡ requests) × (p.busy ≡ [])

-- The zero value of a sample, and the slice as a list.
abbrev zero_sample : Sample
zero_sample = measured (record { ttft = 0; chunks = 0; tokens = 0; speculator = [] })

abbrev or_zero : Option Sample → Sample
or_zero none = zero_sample
or_zero (some s) = s

unfoldable pub collected : ℕ → ℕ → (ℕ → Option Sample) → List Sample
collected zero from samples = []
collected (suc n) from samples = or_zero (samples from) ∷ collected n (suc from) samples

-- `Report`, the rates and the duration aside; the percentiles are `none` for a panic.
pub record Report : Type 0 where
  pub config : Config
  pub requests : ℤ
  pub totals : Totals
  pub latencies : Option Latency

-- What `Run` makes of the samples.
unfoldable pub report_of : Config → List Sample → Result BenchError Report
unfolding aggregate latency
report_of c samples = aggregate no_totals samples >>= λ t.
    ok (record { config = c; requests = c.requests; totals = t; latencies = latency t.ttfts })

abbrev count_of : ℤ → ℕ
count_of (pos n) = n
count_of (negsuc n) = 0

-- `Run`, for the samples that the pool leaves when it has finished.
unfoldable pub run : Config → (Config → ℕ → Option Sample) → Result BenchError Report
unfolding effective_config collected report_of
run c samples = effective_config c >>= λ effective.
    report_of effective (collected (count_of effective.requests) 0 (samples effective))

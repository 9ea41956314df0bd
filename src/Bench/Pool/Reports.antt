-- ===== src/Bench/Pool/Reports.antt =====
-- The report of a run accounts for every request.
use llmops.Prelude.{
  ℕ, zero, suc, ◌+◌, ◌<◌, ◌≡◌, refl, sym, ap, ◌∙◌, inl, inr, true, ◌||◌, Option, some, List, ℤ, pos,
  gtz, gtz_iff, length, arith, Bool-cases, Result-cases, ok,
}
use llmops.Strings.{is_empty}
use llmops.Bench.{Config, Sample, Latency, no_totals, positive_or, effective_config, aggregate}
use llmops.Bench.Laws.{failures, aggregate-counts, latency-defined}
use llmops.Bench.Pool.{Report, run, report_of, collected, count_of}

length-collected : (n i : ℕ) (samples : ℕ → Option Sample) → length (collected n i samples) ≡ n
unfolding collected
length-collected zero i samples = refl
length-collected (suc n) i samples = ground (arith, length-collected n (suc i) samples)

positive_or-positive : (d n : ℤ) → gtz 0 d ≡ true → gtz 0 (positive_or d n) ≡ true
positive_or-positive d n h = elim (Bool-cases (gtz 0 n)) [ inl e ↦ rw e e | inr e ↦ rw e h ]

effective_config-positive : (c e : Config) → effective_config c ≡ ok e → gtz 0 e.requests ≡ true
unfolding effective_config
effective_config-positive c e h = elim (Bool-cases (is_empty c.base_url || is_empty c.model)) [
  | inl k ↦ ground (arith, h, k)
  | inr k ↦
      let concurrency = positive_or (pos 1) c.concurrency in
      let positive =
        positive_or-positive concurrency c.requests
          (positive_or-positive (pos 1) c.concurrency (unfold gtz in refl)) in
      ground (arith, h, k, positive)
]

report_of-counts :
    (c : Config) (ss : List Sample) (rep : Report)
    → report_of c ss ≡ ok rep
    → (rep.requests ≡ c.requests)
      × (rep.totals.errors + length rep.totals.ttfts ≡ length ss)
      × (rep.totals.errors ≡ failures ss)
      × ((l : Latency) × (rep.latencies ≡ some l))
unfolding report_of
report_of-counts c ss rep h = elim (Result-cases (aggregate no_totals ss)) [
  | inr (x, k) ↦ ground (arith, h, k)
  | inl (t, k) ↦
      let (failed_ones, all, same, kept) = aggregate-counts no_totals t ss k in
      let (l, defined) = latency-defined t.ttfts in
      let counted : t ≡ rep.totals = ground (arith, h, k) in
      (
        ground (arith, h, k),
        rw (← counted) (ground (arith, all)),
        rw (← counted) (ground (arith, failed_ones)),
        (l, ground (arith, h, k, defined)),
      )
]

-- Where `Run` returns a report, it is of at least one request; each request counts once, as an error
-- or as a measured latency, the errors are the samples that failed, and the percentiles are defined.
pub run-counts :
    (c : Config) (samples : Config → ℕ → Option Sample) (rep : Report)
    → run c samples ≡ ok rep
    → (n : ℕ) × (e : Config) × (effective_config c ≡ ok e)
      × (rep.requests ≡ pos n)
      × (0 < n)
      × (rep.totals.errors + length rep.totals.ttfts ≡ n)
      × (rep.totals.errors ≡ failures (collected n 0 (samples e)))
      × ((l : Latency) × (rep.latencies ≡ some l))
unfolding run
run-counts c samples rep h = elim (Result-cases (effective_config c)) [
  | inr (x, k) ↦ ground (arith, h, k)
  | inl (e, k) ↦
      let (n, is_n, positive) = (gtz_iff 0 e.requests).0 (effective_config-positive c e k) in
      let found : report_of e (collected n 0 (samples e)) ≡ ok rep =
        ap (λ z. report_of e (collected (count_of z) 0 (samples e))) (sym is_n) ∙ ran e k in
      let (same, all, failed_ones, defined) =
        report_of-counts e (collected n 0 (samples e)) rep found in
      (n, e, k, same ∙ is_n, positive, all ∙ length-collected n 0 (samples e), failed_ones, defined)
]
  where
    ran :
        (e : Config)
        → effective_config c ≡ ok e
        → report_of e (collected (count_of e.requests) 0 (samples e)) ≡ ok rep
    ran e k = ground (arith, h, k)

-- ===== src/Bench/Laws.antt =====
-- Laws of the benchmark's aggregation and percentiles.
use llmops.Prelude.{
  ℕ, zero, suc, ◌+◌, ◌-◌, ◌*◌, ◌/◌, ◌≡◌, refl, some, List, [], ◌∷◌, ok, ltb, length, ◌⊎◌, inl, inr,
  arith, Bool-cases, ◌≤◌, ◌<◌, length-append, >>=-eq-ok, All,
}
use llmops.Strings.{Bytes, is_empty}
use llmops.Strings.Laws.{equal_iff, is_empty_iff}
use llmops.Bench.{
  Measured, Sample, failed, measured, Totals, count_measured, aggregate, insert_number,
  sort_numbers, percentile_index, get_elem?, percentile, latency, Latency,
}

get_elem?-some : (xs : List ℕ) (i : ℕ) → i < length xs → (x : ℕ) × (get_elem? xs i ≡ some x)
unfolding get_elem?
get_elem?-some [] i h = ground arith
get_elem?-some (x ∷ xs) zero h = (x, refl)
get_elem?-some (x ∷ xs) (suc i) h = get_elem?-some xs i (omega (arith, h))

-- The nearest rank of the product x = p * n.
rank :
    (x n : ℕ)
    → 0 < x
    → x ≤ 100 * n
    → ((x + 99) / 100 - 1 < n)
      × (x ≤ 100 * suc ((x + 99) / 100 - 1))
      × (100 * ((x + 99) / 100 - 1) < x)
      × (0 < (x + 99) / 100)
rank x n h0 h1 = (omega arith, omega arith, omega arith, omega arith)

-- The nearest rank: of a sample that is not empty and for a percentage p from 1 to 100, the index is
-- in range, and its rank k is the least with 100 * k at least p * n.
pub percentile_index-nearest_rank :
    (n p : ℕ)
    → 0 < n
    → 0 < p
    → p ≤ 100
    → (percentile_index n p < n)
      × (p * n ≤ 100 * suc (percentile_index n p))
      × (100 * percentile_index n p < p * n)
unfolding percentile_index
percentile_index-nearest_rank n p h0 h1 h2 =
    let (a, b, c, d) = rank (p * n) n (grind arith) (grind arith) in
    (ground (arith, a, d), ground (arith, b, d), ground (arith, c, d))

length-insert_number : (n : ℕ) (ms : List ℕ) → length (insert_number n ms) ≡ suc (length ms)
unfolding insert_number
length-insert_number n [] = refl
length-insert_number n (m ∷ ms) = ground (arith, length-insert_number n ms)

length-sort_numbers : (ns : List ℕ) → length (sort_numbers ns) ≡ length ns
unfolding sort_numbers
length-sort_numbers [] = refl
length-sort_numbers (n ∷ ns) =
    omega (arith, length-insert_number n (sort_numbers ns), length-sort_numbers ns)

percentile-in_range :
    (ns : List ℕ) (p : ℕ)
    → 0 < length ns
    → 0 < p
    → p ≤ 100
    → (x : ℕ) × (percentile (sort_numbers ns) p ≡ some x)
unfolding percentile
percentile-in_range ns p h0 h1 h2 =
    let same = length-sort_numbers ns in
    get_elem?-some (sort_numbers ns) (percentile_index (length (sort_numbers ns)) p)
      ((percentile_index-nearest_rank (length (sort_numbers ns)) p (omega (arith, same)) h1 h2).0)

-- How many samples failed.
unfoldable pub failures : List Sample → ℕ
failures [] = 0
failures (failed ∷ ss) = suc (failures ss)
failures (measured m ∷ ss) = failures ss

-- A measured sample that names a speculator names this one.
abbrev pub Agrees : Bytes → Sample → Type 0
Agrees spec failed = Unit
Agrees spec (measured m) = (m.speculator ≡ []) ⊎ (m.speculator ≡ spec)

count_measured-adds :
    (t v : Totals) (m : Measured)
    → count_measured t m ≡ ok v
    → (v.errors ≡ t.errors)
      × (length v.ttfts ≡ suc (length t.ttfts))
      × ((m.speculator ≡ []) ⊎ (m.speculator ≡ v.speculator))
      × ((t.speculator ≡ []) ⊎ (v.speculator ≡ t.speculator))
unfolding count_measured
count_measured-adds t v m h = elim (Bool-cases (is_empty t.speculator)) [
  | inl e ↦ ground (arith, e, is_empty_iff t.speculator, length-append t.ttfts (m.ttft ∷ []))
  | inr e ↦ ground (
    arith,
    e,
    is_empty_iff m.speculator,
    equal_iff m.speculator t.speculator,
    length-append t.ttfts (m.ttft ∷ []),
  )
]

-- When the aggregation succeeds, it has counted each sample once, as an error or as a latency, and
-- every sample that names a speculator names the reported one.
pub aggregate-counts :
    (t u : Totals) (ss : List Sample)
    → aggregate t ss ≡ ok u
    → (u.errors ≡ t.errors + failures ss)
      × (u.errors + length u.ttfts ≡ t.errors + length t.ttfts + length ss)
      × All (Agrees u.speculator) ss
      × ((t.speculator ≡ []) ⊎ (u.speculator ≡ t.speculator))
unfolding aggregate failures
aggregate-counts t u [] h = ground arith
aggregate-counts t u (failed ∷ ss) h = ground (
  arith,
  aggregate-counts
      (record {
        errors = t.errors + 1;
        chunks = t.chunks;
        tokens = t.tokens;
        speculator = t.speculator;
        ttfts = t.ttfts;
      })
      u ss h,
)
aggregate-counts t u (measured m ∷ ss) h =
    let (v, counted, rest) = >>=-eq-ok (count_measured t m) (λ t'. aggregate t' ss) h in
    ground (arith, count_measured-adds t v m counted, aggregate-counts v u ss rest)

-- A run with at least one latency has its two percentiles: nothing is read out of range.
pub latency-defined : (ns : List ℕ) → (l : Latency) × (latency ns ≡ some l)
unfolding latency
latency-defined ns = elim (Bool-cases (ltb 0 (length ns))) [
  | inr h ↦ (record { p50 = 0; p95 = 0 }, rw h)
  | inl h ↦
      let (a, at50) = percentile-in_range ns 50 (ground (arith, h)) (omega arith) (omega arith) in
      let (b, at95) = percentile-in_range ns 95 (ground (arith, h)) (omega arith) (omega arith) in
      (record { p50 = a; p95 = b }, rw (h, at50, at95))
]

-- ===== src/Bench/Comparison.antt =====
-- The synchronous part of bindings/cpp/benchmarks/async_ffi_overhead_benchmark.cpp, the check of its
-- results, and `main` of benchmark_main.cpp.
use kvstore_ffi.Prelude.{
  ℕ, zero, suc, ◌+◌, ◌*◌, ◌≤◌, ◌<◌, arith, leb, subst, ◌≡◌, refl, ◌⊎◌, inl, inr, Bool, true, false,
  Option, none, some, List, [], ◌∷◌, ◌==◌, if◌then◌else◌, length, get_elem?, Bool-cases,
}
use kvstore_ffi.Prelude.State.{Run, pure, ◌>>=◌, ◌>>◌}
use kvstore_ffi.Text.{Text}
use kvstore_ffi.Platform.{Platform}
use kvstore_ffi.Ffi.State.{at}
use kvstore_ffi.Binding.State.{Outcome, returned, thrown, App}
use kvstore_ffi.Binding.{client_new, client_destroy, try_get}
use kvstore_ffi.Bench.Values.{to_string, generate_value}
use kvstore_ffi.Bench.Direct.{direct_get, direct_set}
use kvstore_ffi.Bench.Runs.{Latencies, latencies_of, hit_config, hit_threads}

-- `"async_bench_" + std::to_string(size)`
abbrev pub async_bench_key : ℕ → Text
async_bench_key size =
    b'a'
    ∷ b's'
    ∷ b'y'
    ∷ b'n'
    ∷ b'c'
    ∷ b'_'
    ∷ b'b'
    ∷ b'e'
    ∷ b'n'
    ∷ b'c'
    ∷ b'h'
    ∷ b'_'
    ∷ to_string size

-- `BenchmarkResult` of this benchmark: the operations and the latencies.
pub record SyncResult : Type 0 where
  pub total_ops : ℕ
  pub latencies : Option Latencies

module _ ⦃P : Platform⦄ where
  -- `SetupTestData(sizes)`: for each size whether the value came back with its size.
  unfoldable pub setup_async_test_data : List ℕ → P.World → Option (List Bool) × P.World
  unfolding direct_get direct_set
  setup_async_test_data [] w = (some [], w)
  setup_async_test_data (size ∷ sizes) w =
      let (got, w') =
        direct_get (async_bench_key size)
          (direct_set (async_bench_key size) (generate_value size) w) in
      let (rest, w'') = setup_async_test_data sizes w' in
      elim got [
        | none ↦ (none, w')
        | some retrieved ↦ elim rest [
          | none ↦ (none, w'')
          | some checks ↦ (some ((length retrieved == size) ∷ checks), w'')
        ]
      ]

  -- `RunSyncCacheHitBenchmark`
  unfoldable pub run_sync_cache_hit :
      Text → Text → (ℕ → ℕ) → (ℕ → ℕ) → List (List ℕ) → Run App (Outcome SyncResult)
  unfolding hit_threads latencies_of
  run_sync_cache_hit server_url key scale50 scale99 threads = do
    made ← client_new (hit_config server_url)
    elim made [
      | thrown e ↦ pure (thrown e)
      | returned a ↦ do
        warm ← try_get a (at key)
        p ← hit_threads a key threads (record { latencies = []; total_ops = 0 })
        client_destroy a
        pure (
            returned (record {
              total_ops = p.total_ops;
              latencies = latencies_of scale50 scale99 p.latencies;
            }))
    ]

  -- `main` of benchmark_main.cpp: exit code 1 where the server does not give a value for "key0", else
  -- 0 after the benchmarks, which are an argument; `none` is an exception of the JSON library.
  unfoldable pub suite_main : (P.World → P.World) → P.World → Option ℕ × P.World
  unfolding direct_get
  suite_main run_specified_benchmarks w =
      let (got, w') = direct_get (b'k' ∷ b'e' ∷ b'y' ∷ b'0' ∷ []) w in
      elim got [
        | none ↦ (none, w')
        | some [] ↦ (some 1, w')
        | some (b ∷ value) ↦ (some 0, run_specified_benchmarks w')
      ]

-- `async_cache_hit_ns` of a result: the mean of `others + 1` latencies with this sum.
pub record MeanNs : Type 0 where
  pub sum : ℕ
  pub others : ℕ

-- `async_cache_hit_ns >= 5000`, on the exact quotient.
unfoldable pub reaches_limit : MeanNs → Bool
reaches_limit t = leb (5000 * (t.others + 1)) t.sum

-- The loop for `all_pass`, on the field `async_cache_hit_ns` of the results.
unfoldable pub all_pass : List MeanNs → Bool
unfolding reaches_limit
all_pass [] = true
all_pass (r ∷ results) = if reaches_limit r then false else all_pass results

-- The mean is less than 5000 nanoseconds.
abbrev pub IsFast : MeanNs → Type 0
IsFast t = t.sum < 5000 * (t.others + 1)

-- The check passes exactly where the mean of each result is less than 5000 nanoseconds: it passes
-- and all are less, or it fails and one of them is not less.
pub all_pass_lem :
    (results : List MeanNs)
    → ((all_pass results ≡ true) × ((i : ℕ) (t : MeanNs) → get_elem? results i ≡ some t → IsFast t))
      ⊎ ((all_pass results ≡ false)
          × ((i : ℕ) × (t : MeanNs) × (get_elem? results i ≡ some t)
              × (5000 * (t.others + 1) ≤ t.sum)))
unfolding all_pass reaches_limit
all_pass_lem [] = inl (refl, λ i t e. cc)
all_pass_lem (t ∷ results) = elim (Bool-cases (leb (5000 * (t.others + 1)) t.sum)) [
  | inl reached ↦ rw (all_pass, reached) (inr (refl, (0, t, refl, ground arith)))
  | inr below ↦ elim (all_pass_lem results) [
    | inl (e, h) ↦ rw (all_pass, below) (inl (e, λ i x q. each t results (ground arith) h i x q))
    | inr (e, (i, x, q, h)) ↦ rw (all_pass, below) (inr (e, (suc i, x, q, h)))
  ]
]
  where
    each :
        (t : MeanNs) (results : List MeanNs)
        → IsFast t
        → ((i : ℕ) (x : MeanNs) → get_elem? results i ≡ some x → IsFast x)
        → (i : ℕ) (x : MeanNs) → get_elem? (t ∷ results) i ≡ some x
        → IsFast x
    each t results below h zero x q = let same : t ≡ x = cc in subst (λ y. IsFast y) same below
    each t results below h (suc i) x q = h i x q

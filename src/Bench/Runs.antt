-- ===== src/Bench/Runs.antt =====
-- The benchmark runs on the C++ client: bindings/cpp/benchmarks/ffi_overhead_benchmark.cpp. The
-- durations that the clock gives are an argument: one list for each thread. The threads run one after
-- the other.
use kvstore_ffi.Prelude.{ℕ, ◌+◌, ◌*◌, ◌%◌, ◌^◌, Option, none, some, List, [], ◌∷◌, ◌++◌, length}
use kvstore_ffi.Prelude.State.{Run, pure, fault, ◌>>=◌, ◌>>◌}
use kvstore_ffi.Text.{Text}
use kvstore_ffi.Platform.{Platform}
use kvstore_ffi.Ffi.State.{at}
use kvstore_ffi.Binding.State.{Outcome, returned, thrown, Config, after, App, ref_at}
use kvstore_ffi.Binding.{
  client_new, client_destroy, get_ref, get, try_get, clear_cache, get_cache_stats,
  value_ref_destroy,
}
use kvstore_ffi.Bench.Statistics.{percentile}

-- `local_latencies` and `total_ops`
pub record Progress : Type 0 where
  pub latencies : List ℕ
  pub total_ops : ℕ

-- `push_back` of a latency and `fetch_add(1)`
unfoldable pub push : ℕ → Progress → Progress
push lap p = record {
  latencies = p.latencies ++ (lap ∷ []);
  total_ops = (p.total_ops + 1) % 2 ^ 64;
}

-- What the cache-miss run keeps of one call: a failed request is skipped.
unfoldable pub push_returned : Outcome Text → ℕ → Progress → Progress
unfolding push
push_returned (returned value) lap p = push lap p
push_returned (thrown e) lap p = p

abbrev pub sum : List ℕ → ℕ
sum [] = 0
sum (x ∷ l) = x + sum l

-- `mean_ns` as a fraction, `p50_ns` and `p99_ns`
pub record Latencies : Type 0 where
  pub mean_ns : ℕ × ℕ
  pub p50_ns : ℕ
  pub p99_ns : ℕ

-- `BenchmarkResult`; the latencies are not set where there are none.
pub record BenchmarkResult : Type 0 where
  pub value_size : ℕ
  pub thread_count : ℕ
  pub total_ops : ℕ
  pub latencies : Option Latencies

-- The last part of each run; `scale50` and `scale99` are the products of `Percentile`.
unfoldable pub latencies_of : (ℕ → ℕ) → (ℕ → ℕ) → List ℕ → Option Latencies
latencies_of scale50 scale99 [] = none
latencies_of scale50 scale99 (x ∷ l) = elim (percentile scale50 (x ∷ l)) [
  | none ↦ none
  | some (p50, sorted) ↦ elim (percentile scale99 sorted) [
    | none ↦ none
    | some (p99, again) ↦
        some (record { mean_ns = (sum (x ∷ l), length (x ∷ l)); p50_ns = p50; p99_ns = p99 })
  ]
]

unfoldable pub summary : ℕ → ℕ → (ℕ → ℕ) → (ℕ → ℕ) → Progress → BenchmarkResult
unfolding latencies_of
summary value_size thread_count scale50 scale99 p = record {
  value_size = value_size;
  thread_count = thread_count;
  total_ops = p.total_ops;
  latencies = latencies_of scale50 scale99 p.latencies;
}

-- The configurations: a tiny cache with a short time to live, and a large one that keeps an hour.
abbrev pub miss_config : Text → Config
miss_config server_url = record {
  server_url = server_url;
  cache_ttl = after 1;
  cache_capacity = 1;
  connection_pool_size = 10;
}

abbrev pub hit_config : Text → Config
hit_config server_url = record {
  server_url = server_url;
  cache_ttl = after (60 * 60 * 1000);
  cache_capacity = 10000;
  connection_pool_size = 10;
}

module _ ⦃P : Platform⦄ where
  -- The loop of one thread of `RunSDKCacheHitBenchmark`: the view is made and dropped.
  unfoldable pub hit_loop : ℕ → Text → List ℕ → Progress → Run App Progress
  unfolding push
  hit_loop a key [] p = pure p
  hit_loop a key (lap ∷ laps) p = do
    r ← get_ref a (at key)
    ref ← ref_at r
    value_ref_destroy r
    hit_loop a key laps (push lap p)

  -- The threads of `RunSDKCacheHitBenchmark`, on one client.
  unfoldable pub hit_threads : ℕ → Text → List (List ℕ) → Progress → Run App Progress
  unfolding hit_loop
  hit_threads a key [] p = pure p
  hit_threads a key (laps ∷ threads) p = do q ← hit_loop a key laps p; hit_threads a key threads q

  -- `RunSDKCacheHitBenchmark`
  unfoldable pub run_sdk_cache_hit :
      Text → Text → ℕ → (ℕ → ℕ) → (ℕ → ℕ) → List (List ℕ) → Run App (Outcome BenchmarkResult)
  unfolding hit_threads summary
  run_sdk_cache_hit server_url key value_size scale50 scale99 threads = do
    made ← client_new (hit_config server_url)
    elim made [
      | thrown e ↦ pure (thrown e)
      | returned a ↦ do
        warm ← try_get a (at key)
        p ← hit_threads a key threads (record { latencies = []; total_ops = 0 })
        stats ← get_cache_stats a
        client_destroy a
        pure (returned (summary value_size (length threads) scale50 scale99 p))
    ]

  -- The loop of one thread of `RunSDKCacheMissBenchmark`: the cache is cleared before each call.
  unfoldable pub miss_once : ℕ → Text → Run App (Outcome Text)
  miss_once a key = do clear_cache a; get a (at key)

  unfoldable pub miss_loop : ℕ → Text → List ℕ → Progress → Run App Progress
  unfolding miss_once push_returned
  miss_loop a key [] p = pure p
  miss_loop a key (lap ∷ laps) p = do
    out ← miss_once a key
    miss_loop a key laps (push_returned out lap p)

  -- One thread, with a client of its own; an exception that leaves a thread ends the process.
  unfoldable pub miss_thread : Text → Text → List ℕ → Progress → Run App Progress
  unfolding miss_loop
  miss_thread server_url key laps p = do
    made ← client_new (miss_config server_url)
    elim made [
      | thrown e ↦ fault
      | returned a ↦ do q ← miss_loop a key laps p; client_destroy a; pure q
    ]

  unfoldable pub miss_threads : Text → Text → List (List ℕ) → Progress → Run App Progress
  unfolding miss_thread
  miss_threads server_url key [] p = pure p
  miss_threads server_url key (laps ∷ threads) p = do
    q ← miss_thread server_url key laps p
    miss_threads server_url key threads q

  -- `RunSDKCacheMissBenchmark`
  unfoldable pub run_sdk_cache_miss :
      Text → Text → ℕ → (ℕ → ℕ) → (ℕ → ℕ) → List (List ℕ) → Run App BenchmarkResult
  unfolding miss_threads summary
  run_sdk_cache_miss server_url key value_size scale50 scale99 threads = do
    p ← miss_threads server_url key threads (record { latencies = []; total_ops = 0 })
    pure (summary value_size (length threads) scale50 scale99 p)

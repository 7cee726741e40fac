-- ===== src/Bench/Suite.antt =====
-- The benchmarks of bindings/cpp/benchmarks/benchmark_main.cpp. The random key indices of the rounds
-- are an argument.
use kvstore_ffi.Prelude.{
  ℕ, zero, suc, ◌*◌, ◌<◌, ◌≡◌, refl, false, Option, none, some, List, [], ◌∷◌, ◌==◌, length,
  get_elem?, arith, ap, ◌∙◌,
}
use kvstore_ffi.Prelude.Table.{deref, deref-alloc_self}
use kvstore_ffi.Prelude.State.{Run, pure, ◌>>=◌, ◌>>◌, Returns, returns, bind, mono}
use kvstore_ffi.Text.{Text}
use kvstore_ffi.Platform.{Platform}
use kvstore_ffi.Ffi.State.{at}
use kvstore_ffi.Ffi.Get.{slice_text}
use kvstore_ffi.Binding.State.{
  Outcome, returned, thrown, Config, hit_rate, after, ValueRef, KvStoreClient, App, ref_at,
}
use kvstore_ffi.Binding.{
  client_new, client_destroy, get_ref, get, try_get, clear_cache, get_cache_stats,
  value_ref_destroy,
}
use kvstore_ffi.Binding.Ownership.{AppInv, ref_at-eq}
use kvstore_ffi.Binding.Reads.{get_ref_lem, try_get_lem, finish_lem}
use kvstore_ffi.Bench.Direct.{direct_get}
use kvstore_ffi.Bench.Loops.{Left, Left-refl, Left-trans}
use kvstore_ffi.Bench.Values.{num_keys, initialize_keys}

-- `GetHighConcurrencyThreadCount`, where `cores` threads are there.
unfoldable pub high_concurrency_thread_count : ℕ → ℕ
high_concurrency_thread_count cores = cores * 16

-- The configurations of the cache-miss and cache-hit benchmarks.
abbrev pub suite_miss_config : Text → Config
suite_miss_config server_url = record {
  server_url = server_url;
  cache_ttl = after 1;
  cache_capacity = 10;
  connection_pool_size = 100;
}

abbrev pub suite_hit_config : Text → Config
suite_hit_config server_url = record {
  server_url = server_url;
  cache_ttl = after (60 * 60 * 1000);
  cache_capacity = num_keys * 2;
  connection_pool_size = 100;
}

module _ ⦃P : Platform⦄ where
  -- `g_keys[idx]`; to read past the end is a fault.
  unfoldable pub key_at : List Text → ℕ → Run App Text
  key_at keys idx s = elim (get_elem? keys idx) [ none ↦ none | some key ↦ some (key, s) ]

  -- The rounds of `BM_DirectHttp_Get`; `none` is an exception of the JSON library.
  unfoldable pub direct_rounds : List Text → List ℕ → P.World → Option (Unit {0}) × P.World
  unfolding direct_get
  direct_rounds keys [] w = (some tt, w)
  direct_rounds keys (idx ∷ idxs) w = elim (get_elem? keys idx) [
    | none ↦ (none, w)
    | some key ↦
        let (got, w') = direct_get key w in
        elim got [ none ↦ (none, w') | some v ↦ direct_rounds keys idxs w' ]
  ]

  -- The rounds of `BM_Binding_Get_CacheMiss`; an exception of `Get` leaves the benchmark.
  unfoldable pub miss_rounds : ℕ → List Text → List ℕ → Run App (Outcome (Unit {0}))
  unfolding key_at
  miss_rounds a keys [] = pure (returned tt)
  miss_rounds a keys (idx ∷ idxs) = do
    clear_cache a
    key ← key_at keys idx
    out ← get a (at key)
    elim out [ thrown e ↦ pure (thrown e) | returned v ↦ miss_rounds a keys idxs ]

  -- `BM_Binding_Get_CacheMiss`; the client ends on every way out.
  unfoldable pub bm_cache_miss : Text → List ℕ → Run App (Outcome (Unit {0}))
  unfolding miss_rounds initialize_keys
  bm_cache_miss server_url idxs = do
    made ← client_new (suite_miss_config server_url)
    elim made [
      | thrown e ↦ pure (thrown e)
      | returned a ↦ do
        out ← miss_rounds a (initialize_keys ([], [])).0 idxs
        client_destroy a
        pure out
    ]

  -- `for (const auto& key : g_keys) client.TryGet(key)`
  unfoldable pub warm_up : ℕ → List Text → Run App (Unit {0})
  warm_up a [] = pure tt
  warm_up a (key ∷ keys) = do v ← try_get a (at key); warm_up a keys

  -- The rounds of `BM_Binding_Get_CacheHit`: the view is made and dropped.
  unfoldable pub hit_rounds : ℕ → List Text → List ℕ → Run App (Unit {0})
  unfolding key_at
  hit_rounds a keys [] = pure tt
  hit_rounds a keys (idx ∷ idxs) = do
    key ← key_at keys idx
    r ← get_ref a (at key)
    ref ← ref_at r
    value_ref_destroy r
    hit_rounds a keys idxs

  -- `BM_Binding_Get_CacheHit`, with the counters that it reports.
  unfoldable pub bm_cache_hit : Text → List ℕ → Run App (Outcome (ℕ × (ℕ × ℕ)))
  unfolding warm_up hit_rounds initialize_keys
  bm_cache_hit server_url idxs = do
    made ← client_new (suite_hit_config server_url)
    elim made [
      | thrown e ↦ pure (thrown e)
      | returned a ↦ do
        warm_up a (initialize_keys ([], [])).0
        hit_rounds a (initialize_keys ([], [])).0 idxs
        stats ← get_cache_stats a
        client_destroy a
        pure (returned (stats.hits, hit_rate stats))
    ]

  -- The rounds of `BM_Binding_Get_CacheHit_WithCopy`.
  unfoldable pub copy_rounds : ℕ → List Text → List ℕ → Run App (Outcome (Unit {0}))
  unfolding key_at
  copy_rounds a keys [] = pure (returned tt)
  copy_rounds a keys (idx ∷ idxs) = do
    key ← key_at keys idx
    out ← get a (at key)
    elim out [ thrown e ↦ pure (thrown e) | returned v ↦ copy_rounds a keys idxs ]

  -- `BM_Binding_Get_CacheHit_WithCopy`
  unfoldable pub bm_cache_hit_with_copy : Text → List ℕ → Run App (Outcome (Unit {0}))
  unfolding warm_up copy_rounds initialize_keys
  bm_cache_hit_with_copy server_url idxs = do
    made ← client_new (suite_hit_config server_url)
    elim made [
      | thrown e ↦ pure (thrown e)
      | returned a ↦ do
        warm_up a (initialize_keys ([], [])).0
        out ← copy_rounds a (initialize_keys ([], [])).0 idxs
        client_destroy a
        pure out
    ]

  -- `BM_Binding_Get_HighConcurrency` on the client of its thread, which stays alive until the thread
  -- ends: made and warmed up where there is none yet (`none`).
  unfoldable pub high_concurrency : Text → Option ℕ → List ℕ → Run App (Outcome ℕ)
  unfolding warm_up hit_rounds initialize_keys
  high_concurrency server_url (some a) idxs = do
    hit_rounds a (initialize_keys ([], [])).0 idxs
    pure (returned a)
  high_concurrency server_url none idxs = do
    made ← client_new (suite_hit_config server_url)
    elim made [
      | thrown e ↦ pure (thrown e)
      | returned a ↦ do
        warm_up a (initialize_keys ([], [])).0
        hit_rounds a (initialize_keys ([], [])).0 idxs
        pure (returned a)
    ]

  -- Every index is below the number of keys.
  abbrev pub AllBelow : ℕ → List ℕ → Type 0
  AllBelow n [] = Unit {0}
  AllBelow n (idx ∷ idxs) = (idx < n) × AllBelow n idxs

  key_at_lem :
      (keys : List Text) (idx : ℕ) (s : App)
      → idx < length keys
      → (key : Text) × (key_at keys idx s ≡ some (key, s))
  unfolding key_at
  key_at_lem [] idx s h = absurd (omega arith)
  key_at_lem (key ∷ keys) zero s h = (key, refl)
  key_at_lem (key ∷ keys) (suc idx) s h = key_at_lem keys idx s (omega arith)

  -- The warm-up of a client that is alive ends without a fault for any keys, and leaves no reference
  -- behind.
  pub warm_up_lem :
      (a : ℕ) (k : KvStoreClient) (keys : List Text) (s : App)
      → AppInv s
      → deref s.clients a ≡ some k
      → (k.client == 0) ≡ false
      → Returns (λ _ t. Left s t) (warm_up a keys s)
  unfolding warm_up
  warm_up_lem a k [] s i e own = returns (Left-refl s i)
  warm_up_lem a k (key ∷ keys) s i e own =
      let (c, there) = i.live a k e own in
      bind (try_get_lem a k c (at key) s i e own there) λ v t (said, d).
        mono (warm_up_lem a k keys t d.inv (ap (λ x. deref x a) d.clients ∙ e) own) λ _ u l.
          Left-trans
            (record {
              inv = d.inv;
              keeps = d.keeps;
              clients = d.clients;
              same = d.same;
              boxes = d.boxes;
            })
            l

  -- The rounds of the cache-hit benchmark on a client object that was not moved from, in a state
  -- that keeps the invariant and with indices within the keys, end without a fault, whatever the
  -- cache and the server answer, and leave no reference behind.
  pub hit_rounds_lem :
      (a : ℕ) (k : KvStoreClient) (keys : List Text) (idxs : List ℕ) (s : App)
      → AppInv s
      → deref s.clients a ≡ some k
      → (k.client == 0) ≡ false
      → AllBelow (length keys) idxs
      → Returns (λ _ t. Left s t) (hit_rounds a keys idxs s)
  unfolding hit_rounds
  hit_rounds_lem a k keys [] s i e own h = returns (Left-refl s i)
  hit_rounds_lem a k keys (idx ∷ idxs) s i e own (h, hs) =
      let (c, there) = i.live a k e own in
      let (key, q) = key_at_lem keys idx s h in
      rw q (
        bind (get_ref_lem a k c (at key) s i e own there) λ r t n.
          let o : ValueRef = record { client = k.client; result = n.result } in
          rw (ref_at-eq r o t (rw (n.refs, n.place) (deref-alloc_self s.refs o))) (
            bind (finish_lem s t k c (slice_text (at key)) r n) λ _ u d.
              mono (hit_rounds_lem a k keys idxs u d.inv (ap (λ x. deref x a) d.clients ∙ e) own hs)
                λ _ v l.
                  Left-trans
                    (record {
                      inv = d.inv;
                      keeps = d.keeps;
                      clients = d.clients;
                      same = d.same;
                      boxes = d.boxes;
                    })
                    l))

-- ===== src/Ffi/Counters.antt =====
-- The hit and miss counters of core-sdk/src/cache.rs, as `kv_store_cache_stats` of
-- core-sdk/src/ffi.rs reports them.
use kvstore_ffi.Prelude.{ℕ, ◌+◌, ◌%◌, ◌^◌, ◌≡◌, Option, none, some, refl, ◌∙◌}
use kvstore_ffi.Prelude.Table.{deref, deref_ne_null}
use kvstore_ffi.Prelude.State.{Returns, returns, bind, mono, ◌>>=◌}
use kvstore_ffi.Text.{Text}
use kvstore_ffi.Platform.{Platform}
use kvstore_ffi.Cache.{KvCache}
use kvstore_ffi.Cache.Accounts.{Accessed}
use kvstore_ffi.Cache.View.{cached}
use kvstore_ffi.Ffi.State.{Slice, KvStoreClient, KvCacheStats, KvGetResult, KvSetResult, Sdk}
use kvstore_ffi.Ffi.{kv_store_get, kv_store_set, kv_store_cache_clear, kv_store_cache_stats}
use kvstore_ffi.Ffi.Books.{Inv}
use kvstore_ffi.Ffi.Get.{slice_text, GetOutcome, kv_store_get_lem}
use kvstore_ffi.Ffi.Set.{SetOutcome, kv_store_set_lem}
use kvstore_ffi.Ffi.Lifecycle.{kv_store_cache_clear_lem}

module _ ⦃P : Platform⦄ where
  -- The statistics have the counters that the cache had.
  abbrev pub Unchanged : KvCache → KvCacheStats → Type 0
  Unchanged c st = (st.hits ≡ c.hits) × (st.misses ≡ c.misses)

  -- They have one hit more if a value was known, else one miss more.
  abbrev pub OneMore : KvCache → Option Text → KvCacheStats → Type 0
  OneMore c (some v) st = (st.hits ≡ (c.hits + 1) % 2 ^ 64) × (st.misses ≡ c.misses)
  OneMore c none st = (st.hits ≡ c.hits) × (st.misses ≡ (c.misses + 1) % 2 ^ 64)

  -- The statistics after a read: a key that the slice does not hold is no access.
  abbrev pub AfterGet : KvStoreClient → Sdk → Option Text → KvCacheStats → Type 0
  AfterGet c s none st = Unchanged c.cache st
  AfterGet c s (some key) st = OneMore c.cache (cached c.cache s.arcs key) st

  stats_lem :
      (p : ℕ) (c : KvStoreClient) (s : Sdk)
      → deref s.clients p ≡ some c
      → Returns
          (λ st t. (st.hits ≡ c.cache.hits) × (st.misses ≡ c.cache.misses))
          (kv_store_cache_stats p s)
  unfolding kv_store_cache_stats
  stats_lem p c s e =
      rw (deref_ne_null s.clients p c e, e, kv_store_cache_stats) (returns (refl, refl))

  accessed_lem :
      (o : Option Text) (c d : KvCache) (st : KvCacheStats)
      → Accessed o c d
      → (st.hits ≡ d.hits) × (st.misses ≡ d.misses)
      → OneMore c o st
  accessed_lem none c d st (h, m) (h', m') = (h' ∙ h, m' ∙ m)
  accessed_lem (some v) c d st (h, m) (h', m') = (h' ∙ h, m' ∙ m)

  after_get :
      {held : ℕ → ℕ} (p : ℕ) (c : KvStoreClient) (k : Slice) (s : Sdk)
      → Inv held s
      → deref s.clients p ≡ some c
      → Returns
          (λ st t. AfterGet c s (slice_text k) st)
          ((do _ ← kv_store_get p k; kv_store_cache_stats p) s)
  after_get {held} p c k s i e =
      bind (kv_store_get_lem {held = held} p c k s i e) λ r t g. said (slice_text k) r t g
    where
      said :
          (o : Option Text) (r : KvGetResult) (t : Sdk)
          → GetOutcome held s p c o r t
          → Returns (λ st t. AfterGet c s o st) (kv_store_cache_stats p t)
      said none r t (_, same) = rw same (stats_lem p c s e)
      said (some key) r t g =
          mono (stats_lem p (record c { cache = g.cache }) t g.updated.here)
            λ st u q. accessed_lem (cached c.cache s.arcs key) c.cache g.cache st g.counts q

  after_set :
      {held : ℕ → ℕ} (p : ℕ) (c : KvStoreClient) (k v : Slice) (s : Sdk)
      → Inv held s
      → deref s.clients p ≡ some c
      → Returns
          (λ st t. Unchanged c.cache st)
          ((do _ ← kv_store_set p k v; kv_store_cache_stats p) s)
  after_set {held} p c k v s i e =
      bind (kv_store_set_lem {held = held} p c k v s i e)
        λ r t g. said (slice_text k) (slice_text v) r t g
    where
      said :
          (o o' : Option Text) (r : KvSetResult) (t : Sdk)
          → SetOutcome held s p c o o' r t
          → Returns (λ st t. Unchanged c.cache st) (kv_store_cache_stats p t)
      said none o' r t (_, same) = rw same (stats_lem p c s e)
      said (some key) none r t (_, same) = rw same (stats_lem p c s e)
      said (some key) (some value) r t g =
          mono (stats_lem p (record c { cache = g.cache }) t g.updated.here)
            λ st u (h, m). (h ∙ g.counts.0, m ∙ g.counts.1)

  -- For a live client, where the books are right, the statistics that `kv_store_cache_stats` reports
  -- tell of the accesses: after a `kv_store_get` of a valid key there is one hit more if the cache
  -- knew a value of it, else one miss more, modulo 2^64, and the other counter is as before. A
  -- `kv_store_get` of a null or non-UTF-8 key, a `kv_store_set` with whatever outcome and a
  -- `kv_store_cache_clear` leave both counters as they were.
  pub kv_store_cache_stats_lem :
      {held : ℕ → ℕ} (p : ℕ) (c : KvStoreClient) (k v : Slice) (s : Sdk)
      → Inv held s
      → deref s.clients p ≡ some c
      → Returns
          (λ st t. AfterGet c s (slice_text k) st)
          ((do _ ← kv_store_get p k; kv_store_cache_stats p) s)
        × Returns
            (λ st t. Unchanged c.cache st)
            ((do _ ← kv_store_set p k v; kv_store_cache_stats p) s)
        × Returns
            (λ st t. Unchanged c.cache st)
            ((do _ ← kv_store_cache_clear p; kv_store_cache_stats p) s)
  kv_store_cache_stats_lem {held} p c k v s i e = (
    after_get {held = held} p c k s i e,
    after_set {held = held} p c k v s i e,
    bind (kv_store_cache_clear_lem {held = held} p c s i e) λ _ t (_, _, _, (d, up, _, (h, m))).
        mono (stats_lem p (record c { cache = d }) t up.here) λ st u q. (q.0 ∙ h, q.1 ∙ m),
  )

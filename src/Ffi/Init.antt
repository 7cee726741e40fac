-- ===== src/Ffi/Init.antt =====
-- `kv_store_init`: a new client with an empty cache, or null.
use kvstore_ffi.Prelude.{
  ℕ, ◌≡◌, refl, ◌≢◌, ◌⊎◌, inl, inr, true, false, none, some, arith, Option-cases, Bool-cases,
}
use kvstore_ffi.Prelude.Table.{deref, fresh, total-alloc, deref-alloc_self, deref-alloc_ne}
use kvstore_ffi.Prelude.State.{Returns, returns, mono}
use kvstore_ffi.Text.{Text, from_utf8, from_ptr, trim_slashes}
use kvstore_ffi.Platform.{Platform}
use kvstore_ffi.Http.{KvHttpClient, http_new}
use kvstore_ffi.Cache.{cache_new}
use kvstore_ffi.Cache.View.{cached}
use kvstore_ffi.Ffi.State.{KvStoreConfig, KvStoreClient, Sdk}
use kvstore_ffi.Ffi.Books.{Inv, client_refs}
use kvstore_ffi.Ffi.{box_client, init_url, kv_store_init}

module _ ⦃P : Platform⦄ where
  open P use {Store, build, builds, get-build, refs-build}

  -- The new client: at a new address, with an empty cache and counters at 0, the other clients and
  -- the heap as they were.
  pub record Boxed (s : Sdk) (url : Text) (p : ℕ) (t : Sdk) : Type 0 where
    pub client : KvStoreClient
    pub place : p ≡ fresh s.clients
    pub here : deref t.clients p ≡ some client
    pub elsewhere : (q : ℕ) → q ≢ p → deref t.clients q ≡ deref s.clients q
    pub empty : (j : Text) → cached client.cache t.arcs j ≡ none
    pub counters : (client.cache.hits ≡ 0) × (client.cache.misses ≡ 0)
    pub base_url : client.http_client.base_url ≡ trim_slashes url

  box_client_lem :
      {held : ℕ → ℕ} (config : KvStoreConfig) (http : KvHttpClient) (st : Store) (url : Text)
      (s : Sdk)
      → Inv held s
      → build config.cache_capacity config.cache_ttl_ms ≡ some st
      → http.base_url ≡ trim_slashes url
      → Returns
          (λ p t. Inv held t × (t.arcs ≡ s.arcs) × (t.world ≡ s.world) × Boxed s url p t)
          (box_client config http s)
  unfolding box_client cache_new cached
  box_client_lem config http st url s i e base =
      let c : KvStoreClient = record {
        cache = record { store = st; hits = 0; misses = 0 };
        http_client = http;
      } in
      rw (e, box_client)
        (returns (
          record {
            counted = i.counted;
            balance = λ b. omega (
              arith,
              i.balance b,
              total-alloc (client_refs b) s.clients c,
              refs-build config.cache_capacity config.cache_ttl_ms st b e,
            );
          },
          refl,
          refl,
          record {
            client = c;
            place = refl;
            here = deref-alloc_self s.clients c;
            elsewhere = λ q n. deref-alloc_ne s.clients c q n;
            empty = λ j. rw (get-build config.cache_capacity config.cache_ttl_ms st j e, cached);
            counters = (refl, refl);
            base_url = base;
          },
        ))

  init_url_lem :
      {held : ℕ → ℕ} (config : KvStoreConfig) (url : Text) (st : Store) (s : Sdk)
      → Inv held s
      → build config.cache_capacity config.cache_ttl_ms ≡ some st
      → Returns
          (λ p t.
            Inv held t
            × (t.arcs ≡ s.arcs)
            × (t.world ≡ s.world)
            × (((builds config.connection_pool_size ≡ false) × (p ≡ 0) × (t ≡ s))
                ⊎ ((builds config.connection_pool_size ≡ true) × Boxed s url p t)))
          (init_url config url s)
  unfolding init_url http_new
  init_url_lem {held} config url st s i e = elim (Bool-cases (builds config.connection_pool_size)) [
    | inl yes_built ↦
        rw (yes_built, init_url)
          (mono
            (box_client_lem {held = held} config (record { base_url = trim_slashes url }) st url s i
              e refl)
            λ p t (i', arcs, world, new). (i', arcs, world, inr (refl, new)))
    | inr not_built ↦ rw (not_built, init_url) (returns (i, refl, refl, inl (refl, refl, refl)))
  ]

  -- A null configuration gives null, and nothing changes. With a URL and a time to live that moka
  -- takes, `kv_store_init` returns: null, and nothing changes, exactly if the URL (up to its first
  -- NUL) is no UTF-8 or the HTTP client cannot be built, else a new client for the URL with an empty
  -- cache.
  pub kv_store_init_lem :
      {held : ℕ → ℕ} (config : KvStoreConfig) (raw : Text) (st : Store) (s : Sdk)
      → Inv held s
      → config.server_url ≡ some raw
      → build config.cache_capacity config.cache_ttl_ms ≡ some st
      → (kv_store_init none s ≡ some (0, s))
        × Returns
            (λ p t.
              Inv held t
              × (t.arcs ≡ s.arcs)
              × (t.world ≡ s.world)
              × (((p ≡ 0)
                    × (t ≡ s)
                    × ((from_utf8 (from_ptr raw) ≡ none)
                        ⊎ (builds config.connection_pool_size ≡ false)))
                  ⊎ ((url : Text) × (from_utf8 (from_ptr raw) ≡ some url)
                      × (builds config.connection_pool_size ≡ true)
                      × Boxed s url p t)))
            (kv_store_init (some config) s)
  unfolding kv_store_init
  kv_store_init_lem {held} config raw st s i u e = (
    refl,
    elim (Option-cases (from_utf8 (from_ptr raw))) [
      | inl bad ↦ rw (u, bad, kv_store_init) (returns (i, refl, refl, inl (refl, refl, inl refl)))
      | inr (url, good) ↦
          rw (u, good, kv_store_init)
            (mono (init_url_lem {held = held} config url st s i e) λ p t (i', arcs, world, o). (
              i',
              arcs,
              world,
              elim o [
                | inl (not_built, null, same) ↦ inl (null, same, inr not_built)
                | inr (built, new) ↦ inr (url, refl, built, new)
              ],
            ))
    ],
  )

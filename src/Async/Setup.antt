-- ===== src/Async/Setup.antt =====
-- The constructor of `KvStoreAsyncClient` of bindings/cpp/include/kv_store_async.hpp, with
-- `kv_store_async_init` below it, and the cache calls of the object.
mod Init
use kvstore_ffi.Prelude.{
  ℕ, none, some, ◌≡◌, ◌⊎◌, refl, inl, inr, false, sym, ap, subst, ◌∙◌, arith, ◌==◌, Bool-cases,
  Option-cases, if◌then◌else◌,
}
use kvstore_ffi.Prelude.Table.{
  deref, alloc, fresh, deref-alloc, deref-fresh, deref-alloc_self, deref_ne_null,
}
use kvstore_ffi.Prelude.State.{Run, pure, Returns, returns, bind, mono, ◌>>=◌}
use kvstore_ffi.Text.{Text, from_utf8, from_ptr}
use kvstore_ffi.ErrorCode.{EnumErrorCode}
use kvstore_ffi.Memory.Counts.{Keeps, Keeps-refl}
use kvstore_ffi.Platform.{Platform}
use kvstore_ffi.Cache.{KvCache, cache_new, cache_clear, cache_len}
use kvstore_ffi.Cache.View.{cached}
use kvstore_ffi.Ffi.State.{KvStoreConfig, Sdk, KvStoreClient as BoxedClient, on_cache}
use kvstore_ffi.Http.{http_new}
use kvstore_ffi.Ffi.{
  kv_store_init, init_url, box_client, kv_store_cache_clear, kv_store_cache_stats,
}
use kvstore_ffi.Ffi.Books.{Updated}
use kvstore_ffi.Ffi.Init.{Boxed, kv_store_init_lem}
use kvstore_ffi.Ffi.Lifecycle.{kv_store_cache_clear_lem}
use kvstore_ffi.Binding.State.{Config, Outcome, returned, thrown, on_sdk}
use kvstore_ffi.Binding.{kv_store_exception}
use kvstore_ffi.Binding.Ownership.{held}
use kvstore_ffi.Async.{Post, AsyncApp, on_app}
use kvstore_ffi.Async.Runtime.{
  on_core, new_core, new_box, async_init_url, kv_store_async_init, kv_store_async_cache_clear,
  kv_store_async_cache_stats,
}
use kvstore_ffi.Async.Client.{
  async_init_failed, async_config, new_object, async_client_new, async_clear_cache,
  async_get_cache_stats,
}
use kvstore_ffi.Async.Invariant.{IsCore, AsyncInv, Went}
use kvstore_ffi.Async.Owners.{Owners-more}
use kvstore_ffi.Async.Cores.{on_core_lem, Below, AsyncInv-below, cores-Updated}
use kvstore_ffi.Async.Objects.{Owners-AsyncInv, AsyncInv-with}
use kvstore_ffi.Async.Gets.{object_at-eq, box_at-eq}
use kvstore_ffi.Async.Setup.Init.{Inited, kv_store_async_init_lem}

module _ ⦃P : Platform⦄ where
  -- How the constructor ends: an exception and no object, or an object with a new boxed client.
  abbrev pub AsyncMade : Config → AsyncApp → Outcome ℕ → AsyncApp → Type 0
  AsyncMade config s out t =
      ((out ≡ thrown (kv_store_exception async_init_failed EnumErrorCode.internal_error))
        × (t.post ≡ s.post)
        × (t.app.sdk ≡ s.app.sdk))
      ⊎ ((out ≡ returned (fresh s.objects))
          × (t.objects ≡ alloc s.objects (fresh s.boxes))
          × ((url : Text) × (c : ℕ) × (from_utf8 (from_ptr config.server_url) ≡ some url)
              × (t.boxes ≡ alloc s.boxes c)
              × Boxed s.app.sdk url c t.app.sdk))

  -- In a state that keeps the invariant and with a time to live that moka takes, the constructor
  -- either throws a KvStoreException with InternalError and makes no object, or makes one object for
  -- a new boxed client with an empty cache. The invariant is kept.
  pub async_client_new_lem :
      (config : Config) (st : P.Store) (s : AsyncApp)
      → AsyncInv s
      → P.build (async_config config).cache_capacity (async_config config).cache_ttl_ms ≡ some st
      → Returns
          (λ out t. Went s t × (t.app.refs ≡ s.app.refs) × AsyncMade config s out t)
          (async_client_new config s)
  unfolding async_client_new new_object
  async_client_new_lem config st s i e =
      bind (kv_store_async_init_lem config st s i e) λ p t ((it, keeps), refs, o). elim o [
        | inl (null, post, same) ↦ rw null (returns ((it, keeps), refs, inl (refl, post, same)))
        | inr (place, (url, c, good, post, new)) ↦
            let boxes = ap (λ (x : Post). x.boxes) post in
            let objects = ap (λ (x : Post). x.objects) post in
            let there : deref t.boxes p ≡ some c =
              ap (λ x. deref x p) boxes
              ∙ ap (deref (alloc s.boxes c)) place
              ∙ deref-alloc_self s.boxes c in
            rw (deref_ne_null t.boxes p c there) (
              returns (
                (
                  AsyncInv-with t.objects (alloc t.objects p) t it (
                      Owners-more (Owners-AsyncInv t it) p (λ own. (c, there))
                        (λ b own f.
                          let (d, q) = i.owning b p (ap (λ x. deref x b) (sym objects) ∙ f) own in
                          ground (arith, deref-fresh s.boxes, place, q))),
                  keeps,
                ),
                refs,
                inr (
                  ap (λ x. returned (fresh x)) objects,
                  ap (λ x. alloc x p) objects ∙ ap (alloc s.objects) place,
                  (url, c, good, boxes, new),
                ),
              ))
      ]

  -- `ClearCache` on an object that was not moved from, in a state that keeps the invariant, empties
  -- the cache that its boxed client and its tasks share; the invariant is kept, and no object,
  -- promise or task changes.
  pub async_clear_cache_lem :
      (a p c : ℕ) (k : BoxedClient) (s : AsyncApp)
      → AsyncInv s
      → deref s.objects a ≡ some p
      → (p == 0) ≡ false
      → deref s.boxes p ≡ some c
      → deref s.app.sdk.clients c ≡ some k
      → Returns
          (λ _ t.
            Went s t
            × (t.app.refs ≡ s.app.refs)
            × (t.post ≡ s.post)
            × ((d : KvCache) × Updated s.app.sdk c k d t.app.sdk
                × ((j : Text) → cached d t.app.sdk.arcs j ≡ none)))
          (async_clear_cache a s)
  unfolding async_clear_cache kv_store_async_cache_clear kv_store_cache_clear
  async_clear_cache_lem a p c k s i e own box there =
      rw (object_at-eq a p s e, own, box_at-eq p c s box)
        (mono
          (on_core_lem (on_cache c cache_clear) s (
            subst (Returns _) (rw (deref_ne_null s.app.sdk.clients c k there) refl)
              (kv_store_cache_clear_lem {held = held s.app.refs} c k s.app.sdk i.inv.books there)))
          λ _ t ((books, keeps, world, (d, up, empty, _)), refs, clients, post).
            let below : Below s t.app.sdk = record {
              keeps = keeps;
              cores = λ x used. cores-Updated up x;
            } in
            (
              (AsyncInv-below s t i books below refs clients post, keeps),
              refs,
              post,
              (d, up, empty),
            ))

  -- `GetCacheStats` on an object with a boxed client reports the counters and the size of the cache
  -- that it shares with its tasks, and changes nothing.
  pub async_get_cache_stats_lem :
      (a p c : ℕ) (k : BoxedClient) (s : AsyncApp)
      → deref s.objects a ≡ some p
      → (p == 0) ≡ false
      → deref s.boxes p ≡ some c
      → deref s.app.sdk.clients c ≡ some k
      → async_get_cache_stats a s
        ≡ some (
          record { hits = k.cache.hits; misses = k.cache.misses; current_size = cache_len k.cache },
          s,
        )
  unfolding async_get_cache_stats kv_store_async_cache_stats on_core on_app on_sdk
      kv_store_cache_stats cache_len
  async_get_cache_stats_lem a p c k s e own box there =
      rw
        (
          object_at-eq a p s e,
          own,
          box_at-eq p c s box,
          deref_ne_null s.app.sdk.clients c k there,
          there,
        )
        refl

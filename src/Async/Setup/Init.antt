-- ===== src/Async/Setup/Init.antt =====
-- `kv_store_async_init` of core-sdk/src/ffi_async.rs.
use kvstore_ffi.Prelude.{
  ℕ, some, ◌≡◌, ◌⊎◌, refl, inl, inr, false, ap, subst, ◌∙◌, arith, ◌==◌, Bool-cases, Option-cases,
  if◌then◌else◌,
}
use kvstore_ffi.Prelude.Table.{deref, alloc, fresh, deref-alloc, deref-fresh, deref_ne_null}
use kvstore_ffi.Prelude.State.{Run, pure, Returns, returns, bind, ◌>>=◌}
use kvstore_ffi.Text.{Text, from_utf8, from_ptr}
use kvstore_ffi.Memory.Counts.{Keeps, Keeps-refl}
use kvstore_ffi.Platform.{Platform}
use kvstore_ffi.Cache.{cache_new}
use kvstore_ffi.Ffi.State.{KvStoreConfig, Sdk}
use kvstore_ffi.Http.{http_new}
use kvstore_ffi.Ffi.{kv_store_init, init_url, box_client}
use kvstore_ffi.Ffi.Init.{Boxed, kv_store_init_lem}
use kvstore_ffi.Binding.State.{Config, on_sdk}
use kvstore_ffi.Binding.Ownership.{held}
use kvstore_ffi.Async.{Post, AsyncApp, on_app}
use kvstore_ffi.Async.Runtime.{on_core, new_core, new_box, async_init_url, kv_store_async_init}
use kvstore_ffi.Async.Client.{async_config}
use kvstore_ffi.Async.Invariant.{IsCore, AsyncInv, Went}
use kvstore_ffi.Async.Cores.{on_core_lem, Below, AsyncInv-below}

module _ ⦃P : Platform⦄ where
  -- A new boxed client that no object owns yet.
  boxed-AsyncInv :
      (c : ℕ) (s : AsyncApp)
      → AsyncInv s
      → IsCore s.app.sdk c
      → AsyncInv (record s { post = record s.post { boxes = alloc s.boxes c } })
  boxed-AsyncInv c s i core = record {
    inv = i.inv;
    alone = i.alone;
    boxed = λ b d q. elim (Bool-cases (fresh s.boxes == b)) [
      | inl here ↦ subst (IsCore s.app.sdk) (ground (arith, q, deref-alloc s.boxes b c)) core
      | inr other ↦ i.boxed b d (ground (arith, q, deref-alloc s.boxes b c))
    ];
    working = i.working;
    get_ledger = i.get_ledger;
    set_ledger = i.set_ledger;
    named = i.named;
    owning = λ a p e own.
        let (d, q) = i.owning a p e own in
        (d, ground (arith, deref-alloc s.boxes p c, deref-fresh s.boxes, q));
    single = i.single;
    ready = i.ready;
    kept = i.kept;
  }

  -- How `kv_store_async_init` ends.
  abbrev pub Inited : Text → AsyncApp → ℕ → AsyncApp → Type 0
  Inited server_url s p t =
      ((p ≡ 0) × (t.post ≡ s.post) × (t.app.sdk ≡ s.app.sdk))
      ⊎ ((p ≡ fresh s.boxes)
          × ((url : Text) × (c : ℕ) × (from_utf8 (from_ptr server_url) ≡ some url)
              × (t.post ≡ record s.post { boxes = alloc s.boxes c })
              × Boxed s.app.sdk url c t.app.sdk))

  -- The steps of `kv_store_async_init` are those of `kv_store_init`, and then the box.
  boxes_core : ℕ → Run AsyncApp ℕ
  boxes_core c = if c == 0 then pure 0 else new_box c

  fresh_ne_null : (s : Sdk) → (fresh s.clients == 0) ≡ false
  unfolding fresh
  fresh_ne_null s = ground arith

  core_config : Config → KvStoreConfig
  core_config config = record {
    server_url = some config.server_url;
    cache_ttl_ms = (async_config config).cache_ttl_ms;
    cache_capacity = (async_config config).cache_capacity;
    connection_pool_size = config.connection_pool_size;
    padding = 0;
  }

  same_steps :
      (config : Config) (st : P.Store) (s : AsyncApp)
      → P.build (async_config config).cache_capacity (async_config config).cache_ttl_ms ≡ some st
      → kv_store_async_init (some (async_config config)) s
        ≡ (do c ← on_core (kv_store_init (some (core_config config))); boxes_core c) s
  unfolding kv_store_async_init async_config async_init_url kv_store_init init_url http_new
      box_client new_core cache_new boxes_core on_core on_app on_sdk core_config
  same_steps config st s e = elim (Option-cases (from_utf8 (from_ptr config.server_url))) [
    | inl bad ↦ rw (bad, kv_store_async_init, kv_store_init, ◌>>=◌, on_core, on_app, on_sdk) refl
    | inr (url, good) ↦ elim (Bool-cases (P.builds config.connection_pool_size)) [
      | inl built ↦
          rw
            (
              good,
              built,
              e,
              fresh_ne_null s.app.sdk,
              kv_store_async_init,
              kv_store_init,
              init_url,
              async_init_url,
              http_new,
              new_core,
              box_client,
              cache_new,
              ◌>>=◌,
              on_core,
              on_app,
              on_sdk,
              boxes_core,
            )
            refl
      | inr not_built ↦
          rw
            (
              good, not_built, kv_store_async_init, kv_store_init, init_url, async_init_url,
              http_new, ◌>>=◌, on_core, on_app, on_sdk,
            )
            refl
    ]
  ]

  pub kv_store_async_init_lem :
      (config : Config) (st : P.Store) (s : AsyncApp)
      → AsyncInv s
      → P.build (async_config config).cache_capacity (async_config config).cache_ttl_ms ≡ some st
      → Returns
          (λ p t. Went s t × (t.app.refs ≡ s.app.refs) × Inited config.server_url s p t)
          (kv_store_async_init (some (async_config config)) s)
  unfolding async_config boxes_core new_box core_config
  kv_store_async_init_lem config st s i e =
      let c_config = core_config config in
      rw (same_steps config st s e) (
        bind
          (on_core_lem (kv_store_init (some c_config)) s (
            (kv_store_init_lem {held = held s.app.refs} c_config config.server_url st s.app.sdk
              i.inv.books refl e).1))
          λ c t ((books, arcs, world, o), refs, clients, post).
            let keeps : Keeps s.app.sdk.arcs t.app.sdk.arcs = rw arcs (Keeps-refl s.app.sdk.arcs) in
            elim o [
              | inl (null, same, why) ↦
                  let below : Below s t.app.sdk = record {
                    keeps = keeps;
                    cores = λ d used (k, q). (k, ap (λ x. deref x.clients d) same ∙ q);
                  } in
                  rw null (
                    returns (
                      (AsyncInv-below s t i books below refs clients post, keeps),
                      refs,
                      inl (refl, post, same),
                    ))
              | inr (url, good, built, new) ↦
                  let below : Below s t.app.sdk = record {
                    keeps = keeps;
                    cores = λ d used (k, q). (
                      k,
                      new.elsewhere d
                            (λ z. ground (arith, deref-fresh s.app.sdk.clients, new.place, q))
                          ∙ q,
                    );
                  } in
                  rw (deref_ne_null t.app.sdk.clients c new.client new.here) (
                    returns (
                      (
                        boxed-AsyncInv c t (AsyncInv-below s t i books below refs clients post)
                            (new.client, new.here),
                        keeps,
                      ),
                      refs,
                      inr (
                        ap (λ (x : Post). fresh x.boxes) post,
                        (
                          url,
                          c,
                          good,
                          ap (λ (x : Post). record x { boxes = alloc x.boxes c }) post,
                          new,
                        ),
                      ),
                    ))
            ])

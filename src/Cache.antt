-- ===== src/Cache.antt =====
-- core-sdk/src/cache.rs: the cache of `Arc<String>` values with its hit and miss counters.
pub mod Accounts
pub mod View
use kvstore_ffi.Prelude.{ℕ, ◌+◌, ◌%◌, ◌^◌, Option, none, some, List}
use kvstore_ffi.Prelude.State.{Run, pure, ◌>>=◌, ◌>>◌}
use kvstore_ffi.Text.{Text}
use kvstore_ffi.Memory.{Arcs, arc_new, arc_clone, arc_drop_all}
use kvstore_ffi.Platform.{Platform}

-- `fetch_add(1)` on an `AtomicU64`, which wraps.
abbrev pub fetch_add_one : ℕ → ℕ
fetch_add_one n = (n + 1) % 2 ^ 64

module _ ⦃P : Platform⦄ where
  open P use {Store, build, get, insert, invalidate, invalidate_all, housekeep, entry_count}

  pub record KvCache : Type 0 where
    pub store : Store
    pub hits : ℕ
    pub misses : ℕ

  -- `KvCache::new`; `none` is moka's panic.
  unfoldable pub cache_new : ℕ → ℕ → Option KvCache
  cache_new capacity ttl_ms = elim (build capacity ttl_ms) [
    | none ↦ none
    | some s ↦ some (record { store = s; hits = 0; misses = 0 })
  ]

  -- `KvCache::get` counts the access, and clones the `Arc` of a hit.
  unfoldable pub cache_get : Text → KvCache → Run Arcs (Option ℕ × KvCache)
  cache_get key c = elim (get c.store key) [
    | some a ↦ do arc_clone a; pure (some a, record c { hits = fetch_add_one c.hits })
    | none ↦ pure (none, record c { misses = fetch_add_one c.misses })
  ]

  -- `KvCache::insert`: one reference goes to the cache, the other to the caller.
  unfoldable pub cache_insert : Text → Text → KvCache → Run Arcs (ℕ × KvCache)
  cache_insert key value c = do
    a ← arc_new value
    arc_clone a
    arc_drop_all (insert c.store key a).1
    pure (a, record c { store = (insert c.store key a).0 })

  -- `KvCache::invalidate`
  unfoldable pub cache_invalidate : Text → KvCache → Run Arcs (Unit {0} × KvCache)
  cache_invalidate key c = do
    arc_drop_all (invalidate c.store key).1
    pure (tt, record c { store = (invalidate c.store key).0 })

  -- `KvCache::clear`
  unfoldable pub cache_clear : KvCache → Run Arcs (Unit {0} × KvCache)
  cache_clear c = do
    arc_drop_all (invalidate_all c.store).1
    pure (tt, record c { store = (invalidate_all c.store).0 })

  -- `KvCache::len`
  unfoldable pub cache_len : KvCache → ℕ
  cache_len c = entry_count c.store

  -- moka's own maintenance, between any two calls: entries expire or are evicted.
  unfoldable pub cache_maintain : KvCache → Run Arcs (Unit {0} × KvCache)
  cache_maintain c = do
    arc_drop_all (housekeep c.store).1
    pure (tt, record c { store = (housekeep c.store).0 })

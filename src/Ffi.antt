-- ===== src/Ffi.antt =====
-- core-sdk/src/ffi.rs, and the structs of bindings/cpp/include/kv_store.h: the C interface of the
-- synchronous client. A client is a `Box` behind a pointer; a pointer is an address, 0 is null.
pub mod State
pub mod Books
pub mod Get
pub mod Init
pub mod Lifecycle
pub mod Counters
pub mod Set
use kvstore_ffi.Prelude.{
  ℕ, Bool, true, false, Option, none, some, List, ◌==◌, if◌then◌else◌, length,
}
use kvstore_ffi.Prelude.Table.{Table, deref, write, alloc, fresh}
use kvstore_ffi.Prelude.State.{Run, pure, fault, ◌>>=◌, ◌>>◌}
use kvstore_ffi.Text.{Text, from_utf8, from_ptr}
use kvstore_ffi.ErrorCode.{ErrorCode, as_i32}
use kvstore_ffi.Memory.{Arcs, text_at, arc_drop, arc_drop_all}
use kvstore_ffi.Platform.{Platform}
use kvstore_ffi.Http.{Result, ok, err, KvHttpClient, http_new, http_get, http_set}
use kvstore_ffi.Cache.{
  KvCache, cache_new, cache_get, cache_insert, cache_invalidate, cache_clear, cache_len,
}
use State.{
  Slice, null, at, KvStringRef, null_ref, KvGetResult, KvSetResult, KvStoreConfig, KvCacheStats,
  KvStoreClient, Sdk, on_arcs, on_cache, on_http,
}

-- `KvGetResult::success`: the pointer and length of the text, and the `Arc` as a raw handle.
unfoldable pub get_success : ℕ → Run Arcs KvGetResult
get_success a h = elim (text_at h a) [
  | none ↦ none
  | some t ↦ some (
    record {
      value = record { ptr = a; len = length t };
      error_code = as_i32 ErrorCode.success;
      padding = 0;
      arc_handle = a;
    },
    h,
  )
]

-- `KvGetResult::error`
unfoldable pub get_error : ErrorCode → KvGetResult
get_error code = record { value = null_ref; error_code = as_i32 code; padding = 0; arc_handle = 0 }

-- `KvSetResult::success` and `KvSetResult::error`
unfoldable pub set_success : KvSetResult
set_success = record { error_code = as_i32 ErrorCode.success; padding = 0 }

unfoldable pub set_error : ErrorCode → KvSetResult
set_error code = record { error_code = as_i32 code; padding = 0 }

module _ ⦃P : Platform⦄ where
  open P use {discard}

  -- The new client of `kv_store_init`, once its HTTP client is there.
  unfoldable pub box_client : KvStoreConfig → KvHttpClient → Run Sdk ℕ
  box_client config http s = elim (cache_new config.cache_capacity config.cache_ttl_ms) [
    | none ↦ none
    | some cache ↦ some (
      fresh s.clients,
      record s { clients = alloc s.clients (record { cache = cache; http_client = http }) },
    )
  ]

  unfoldable pub init_url : KvStoreConfig → Text → Run Sdk ℕ
  unfolding box_client
  init_url config url = elim (http_new url config.connection_pool_size) [
    | err _ ↦ pure 0
    | ok http ↦ box_client config http
  ]

  -- `kv_store_init`; a null `server_url` is read all the same, which is undefined.
  unfoldable pub kv_store_init : Option KvStoreConfig → Run Sdk ℕ
  unfolding init_url
  kv_store_init none = pure 0
  kv_store_init (some config) = elim config.server_url [
    | none ↦ fault
    | some raw ↦ elim (from_utf8 (from_ptr raw)) [ none ↦ pure 0 | some url ↦ init_url config url ]
  ]

  -- `drop(Box::from_raw(client))`: the client goes, and with it the references of its cache.
  unfoldable pub drop_client : ℕ → Run Sdk (Unit {0})
  drop_client p s = elim (deref s.clients p) [
    | none ↦ none
    | some c ↦
        on_arcs (arc_drop_all (discard c.cache.store))
          (record s { clients = write s.clients p none })
  ]

  -- `kv_store_destroy`
  unfoldable pub kv_store_destroy : ℕ → Run Sdk (Unit {0})
  unfolding drop_client
  kv_store_destroy p = if p == 0 then pure tt else drop_client p

  -- The last part of `kv_store_get`: what the server answered.
  unfoldable pub fetched : ℕ → Text → Result Text → Run Sdk KvGetResult
  fetched p key (ok value) = do a ← on_cache p (cache_insert key value); on_arcs (get_success a)
  fetched p key (err code) = pure (get_error code)

  -- What the cache answered: a hit returns at once, a miss asks the server.
  unfoldable pub looked_up : ℕ → Text → Option ℕ → Run Sdk KvGetResult
  unfolding fetched
  looked_up p key (some a) = on_arcs (get_success a)
  looked_up p key none = do r ← on_http p (λ c. http_get c key); fetched p key r

  unfoldable pub get_key : ℕ → Text → Run Sdk KvGetResult
  unfolding looked_up
  get_key p key = do found ← on_cache p (cache_get key); looked_up p key found

  unfoldable pub get_slice : ℕ → Slice → Run Sdk KvGetResult
  unfolding get_key
  get_slice p (null n) = pure (get_error ErrorCode.invalid_input)
  get_slice p (at bytes) = elim (from_utf8 bytes) [
    | none ↦ pure (get_error ErrorCode.invalid_input)
    | some key ↦ get_key p key
  ]

  -- `kv_store_get`
  unfoldable pub kv_store_get : ℕ → Slice → Run Sdk KvGetResult
  unfolding get_slice
  kv_store_get p key = if p == 0 then pure (get_error ErrorCode.invalid_input) else get_slice p key

  -- `kv_store_release_get`: the result comes back with its handle cleared. `_client` is not read.
  unfoldable pub kv_store_release_get : ℕ → Option KvGetResult → Run Sdk (Option KvGetResult)
  kv_store_release_get _client none = pure none
  kv_store_release_get _client (some r) =
      if r.arc_handle == 0
      then pure (some r)
      else (do on_arcs (arc_drop r.arc_handle); pure (some (record r { arc_handle = 0 })))

  -- The last part of `kv_store_set`: write through on success, invalidate on failure.
  unfoldable pub stored : ℕ → Text → Text → Result (Unit {0}) → Run Sdk KvSetResult
  stored p key value (ok _) = do
    a ← on_cache p (cache_insert key value)
    on_arcs (arc_drop a)
    pure set_success
  stored p key value (err code) = do on_cache p (cache_invalidate key); pure (set_error code)

  unfoldable pub set_key : ℕ → Text → Text → Run Sdk KvSetResult
  unfolding stored
  set_key p key value = do r ← on_http p (λ c. http_set c key value); stored p key value r

  -- `kv_store_set`
  unfoldable pub set_slices : ℕ → Slice → Slice → Run Sdk KvSetResult
  unfolding set_key
  set_slices p (null n) value = pure (set_error ErrorCode.invalid_input)
  set_slices p (at key) (null n) = pure (set_error ErrorCode.invalid_input)
  set_slices p (at key) (at value) = elim (from_utf8 key) [
    | none ↦ pure (set_error ErrorCode.invalid_input)
    | some k ↦ elim (from_utf8 value) [
      | none ↦ pure (set_error ErrorCode.invalid_input)
      | some v ↦ set_key p k v
    ]
  ]

  unfoldable pub kv_store_set : ℕ → Slice → Slice → Run Sdk KvSetResult
  unfolding set_slices
  kv_store_set p key value =
      if p == 0 then pure (set_error ErrorCode.invalid_input) else set_slices p key value

  -- `kv_store_cache_clear`
  unfoldable pub kv_store_cache_clear : ℕ → Run Sdk (Unit {0})
  kv_store_cache_clear p = if p == 0 then pure tt else on_cache p cache_clear

  -- `kv_store_cache_stats`
  unfoldable pub kv_store_cache_stats : ℕ → Run Sdk KvCacheStats
  kv_store_cache_stats p s =
      if p == 0
      then some (record { hits = 0; misses = 0; current_size = 0 }, s)
      else (elim (deref s.clients p) [
        | none ↦ none
        | some c ↦ some (
          record { hits = c.cache.hits; misses = c.cache.misses; current_size = cache_len c.cache },
          s,
        )
      ])

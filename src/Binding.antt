-- ===== src/Binding.antt =====
-- bindings/cpp/include/kv_store.hpp: the C++ classes over the C interface. Objects have addresses
-- in a table; a destructor empties the slot.
pub mod State
pub mod Ownership
pub mod Moves
pub mod Expected
pub mod Answers
pub mod Reads
pub mod Writes
pub mod Rates
pub mod Clients
pub mod Assignment
pub mod Program
use kvstore_ffi.Prelude.{
  ℕ, zero, suc, ◌+◌, ◌-◌, ◌%◌, ◌^◌, Bool, true, false, Option, none, some, List, [], ◌∷◌, ◌++◌,
  ◌==◌, if◌then◌else◌,
}
use kvstore_ffi.Prelude.Table.{deref, write, alloc, fresh}
use kvstore_ffi.Prelude.State.{Run, pure, fault, and_then, ◌>>=◌, ◌>>◌}
use kvstore_ffi.Text.{Text}
use kvstore_ffi.ErrorCode.{EnumErrorCode, cast_error_code}
use kvstore_ffi.Platform.{Platform}
use kvstore_ffi.Ffi.State.{
  Slice, null, at, KvGetResult, KvSetResult, KvStoreConfig, KvCacheStats, Sdk,
}
use kvstore_ffi.Ffi.{
  kv_store_init, kv_store_destroy, kv_store_get, kv_store_release_get, kv_store_set,
  kv_store_cache_clear, kv_store_cache_stats,
}
use State.{
  ExceptionClass, KvStoreException, Outcome, returned, thrown, Config, CacheStats, ValueRef,
  KvStoreClient, App, on_sdk, ref_at, set_ref, client_at, set_client, value_ref_new, read_view,
  valid, error, millis_as_u64,
}

-- `"Key not found: "`
abbrev pub key_not_found_text : Text
key_not_found_text =
    b'K' ∷ b'e' ∷ b'y' ∷ b' ' ∷ b'n' ∷ b'o' ∷ b't' ∷ b' ' ∷ b'f' ∷ b'o' ∷ b'u' ∷ b'n' ∷ b'd' ∷ b':'
    ∷ b' ' ∷ []

-- `"Get failed"`, `"Set failed"` and `"Failed to initialize KV store client"`
abbrev pub get_failed : Text
get_failed = b'G' ∷ b'e' ∷ b't' ∷ b' ' ∷ b'f' ∷ b'a' ∷ b'i' ∷ b'l' ∷ b'e' ∷ b'd' ∷ []

abbrev pub set_failed : Text
set_failed = b'S' ∷ b'e' ∷ b't' ∷ b' ' ∷ b'f' ∷ b'a' ∷ b'i' ∷ b'l' ∷ b'e' ∷ b'd' ∷ []

abbrev pub init_failed : Text
init_failed =
    b'F' ∷ b'a' ∷ b'i' ∷ b'l' ∷ b'e' ∷ b'd' ∷ b' ' ∷ b't' ∷ b'o' ∷ b' ' ∷ b'i' ∷ b'n' ∷ b'i' ∷ b't'
    ∷ b'i' ∷ b'a' ∷ b'l' ∷ b'i' ∷ b'z' ∷ b'e' ∷ b' ' ∷ b'K' ∷ b'V' ∷ b' ' ∷ b's' ∷ b't' ∷ b'o'
    ∷ b'r' ∷ b'e' ∷ b' ' ∷ b'c' ∷ b'l' ∷ b'i' ∷ b'e' ∷ b'n' ∷ b't' ∷ []

-- `KeyNotFoundException(key)`
unfoldable pub key_not_found_exception : Text → KvStoreException
key_not_found_exception key = record {
  class = ExceptionClass.key_not_found_exception;
  what = key_not_found_text ++ key;
  code = EnumErrorCode.key_not_found;
}

-- `KvStoreException(msg, code)`
unfoldable pub kv_store_exception : Text → EnumErrorCode → KvStoreException
kv_store_exception msg code = record {
  class = ExceptionClass.kv_store_exception;
  what = msg;
  code = code;
}

-- `std::string(key)`
unfoldable pub slice_string : Slice → Text
slice_string (null n) = []
slice_string (at bytes) = bytes

-- The fields of `c_config`.
unfoldable pub c_config : Config → KvStoreConfig
c_config config = record {
  server_url = some config.server_url;
  cache_ttl_ms = millis_as_u64 config.cache_ttl;
  cache_capacity = config.cache_capacity % 2 ^ 64;
  connection_pool_size = config.connection_pool_size;
  padding = 0;
}

-- The exception of `Get` for an invalid result.
unfoldable pub get_exception : Text → EnumErrorCode → KvStoreException
unfolding key_not_found_exception kv_store_exception
get_exception key EnumErrorCode.key_not_found = key_not_found_exception key
get_exception key code = kv_store_exception get_failed code

module _ ⦃P : Platform⦄ where
  -- `~ValueRef()`, and the end of the object.
  unfoldable pub value_ref_destroy : ℕ → Run App (Unit {0})
  value_ref_destroy a = do
    o ← ref_at a
    if o.client == 0
        then pure tt
        else (do _ ← on_sdk (kv_store_release_get o.client (some o.result)); pure tt)
    set_ref a none

  -- `ValueRef(ValueRef&& other)`: a new object; the other loses its client.
  unfoldable pub value_ref_move : ℕ → Run App ℕ
  value_ref_move other = do
    o ← ref_at other
    set_ref other (some (record o { client = 0 }))
    value_ref_new o.client o.result

  -- The part of `operator=(ValueRef&&)` that gives up what the object had.
  unfoldable pub give_up : ValueRef → Run App (Unit {0})
  give_up o =
      if o.client == 0
      then pure tt
      else (do _ ← on_sdk (kv_store_release_get o.client (some o.result)); pure tt)

  -- `operator=(ValueRef&& other)` on the object at `this`.
  unfoldable pub value_ref_assign : ℕ → ℕ → Run App (Unit {0})
  unfolding give_up
  value_ref_assign this other = do
    o ← ref_at other
    t ← ref_at this
    if this == other
        then pure tt
        else (do give_up t; set_ref this (some o); set_ref other (some (record o { client = 0 })))

  -- `KvStoreClient(const Config&)`
  unfoldable pub client_new : Config → Run App (Outcome ℕ)
  unfolding c_config kv_store_exception
  client_new config = do
    p ← on_sdk (kv_store_init (some (c_config config)))
    if p == 0
        then pure (thrown (kv_store_exception init_failed EnumErrorCode.internal_error))
        else (λ s. some (
          returned (fresh s.clients),
          record s { clients = alloc s.clients (record { client = p }) },
        ))

  -- `~KvStoreClient()`
  unfoldable pub client_destroy : ℕ → Run App (Unit {0})
  client_destroy a = do
    k ← client_at a
    if k.client == 0 then pure tt else on_sdk (kv_store_destroy k.client)
    set_client a none

  -- `KvStoreClient(KvStoreClient&& other)`
  unfoldable pub client_move : ℕ → Run App ℕ
  client_move other = do
    k ← client_at other
    set_client other (some (record { client = 0 }))
    λ s. some (fresh s.clients, record s { clients = alloc s.clients k })

  -- `operator=(KvStoreClient&& other)`
  unfoldable pub client_assign : ℕ → ℕ → Run App (Unit {0})
  client_assign this other = do
    k ← client_at other
    t ← client_at this
    if this == other then pure tt else (do
      (if t.client == 0 then pure tt else on_sdk (kv_store_destroy t.client))
      set_client this (some k)
      set_client other (some (record { client = 0 })))

  -- `GetRef(key)`
  unfoldable pub get_ref : ℕ → Slice → Run App ℕ
  get_ref a key = do
    k ← client_at a
    r ← on_sdk (kv_store_get k.client key)
    value_ref_new k.client r

  -- `ref.to_string()` where the result is valid, else the exception.
  unfoldable pub get_body : Slice → ValueRef → Run App (Outcome Text)
  unfolding get_exception slice_string
  get_body key o =
      if valid o
      then (do v ← read_view o; pure (returned v))
      else pure (thrown (get_exception (slice_string key) (error o)))

  -- `Get(key)`; the local `ref` is destroyed on every way out.
  unfoldable pub get : ℕ → Slice → Run App (Outcome Text)
  unfolding get_ref get_body value_ref_destroy
  get a key = do
    r ← get_ref a key
    o ← ref_at r
    out ← get_body key o
    value_ref_destroy r
    pure out

  -- `TryGet(key)`
  unfoldable pub try_get_body : ValueRef → Run App (Option Text)
  try_get_body o = if valid o then (do v ← read_view o; pure (some v)) else pure none

  unfoldable pub try_get : ℕ → Slice → Run App (Option Text)
  unfolding get_ref try_get_body value_ref_destroy
  try_get a key = do
    r ← get_ref a key
    o ← ref_at r
    out ← try_get_body o
    value_ref_destroy r
    pure out

  -- The last part of `Set`: an error code is thrown.
  unfoldable pub throw_code : KvSetResult → Run App (Outcome (Unit {0}))
  unfolding kv_store_exception
  throw_code r =
      if r.error_code == 0
      then pure (returned tt)
      else pure (thrown (kv_store_exception set_failed (cast_error_code r.error_code)))

  -- `Set(key, value)`
  unfoldable pub set : ℕ → Slice → Slice → Run App (Outcome (Unit {0}))
  unfolding throw_code
  set a key value = do k ← client_at a; r ← on_sdk (kv_store_set k.client key value); throw_code r

  -- `ClearCache()`
  unfoldable pub clear_cache : ℕ → Run App (Unit {0})
  clear_cache a = do k ← client_at a; on_sdk (kv_store_cache_clear k.client)

  -- `GetCacheStats()`
  unfoldable pub get_cache_stats : ℕ → Run App CacheStats
  get_cache_stats a = do
    k ← client_at a
    st ← on_sdk (kv_store_cache_stats k.client)
    pure (record { hits = st.hits; misses = st.misses; current_size = st.current_size })

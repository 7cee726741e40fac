-- ===== src/Async/Client.antt =====
-- bindings/cpp/include/kv_store_async.hpp: `KvStoreAsyncClient`, its futures and `FireAndForget`. A
-- future is named by the address of its shared state.
use kvstore_ffi.Prelude.{ℕ, ◌%◌, ◌^◌, Option, none, some, ◌∷◌, [], ◌==◌, if◌then◌else◌}
use kvstore_ffi.Prelude.Table.{deref, write, alloc, fresh}
use kvstore_ffi.Prelude.State.{Run, pure, and_then, ◌>>=◌, ◌>>◌}
use kvstore_ffi.Text.{Text}
use kvstore_ffi.ErrorCode.{EnumErrorCode}
use kvstore_ffi.Platform.{Platform}
use kvstore_ffi.Ffi.State.{Slice}
use kvstore_ffi.Binding.State.{
  ValueRef, KvStoreException, Outcome, returned, thrown, Config, CacheStats, App, ref_at, read_view,
  valid, error, millis_as_u64,
}
use kvstore_ffi.Binding.{key_not_found_exception, kv_store_exception}
use kvstore_ffi.Async.{
  Shared, pending, value, exception, AsyncApp, on_app, async_value_ref_move,
  async_value_ref_destroy,
}
use kvstore_ffi.Async.Runtime.{
  KvStoreAsyncConfig, kv_store_async_init, kv_store_async_destroy, kv_store_get_async,
  kv_store_set_async, kv_store_async_cache_stats, kv_store_async_cache_clear,
}

-- `"Failed to initialize async KV store client"`, `"Key not found"` and `"Get failed"`
abbrev pub async_init_failed : Text
async_init_failed =
    b'F' ∷ b'a' ∷ b'i' ∷ b'l' ∷ b'e' ∷ b'd' ∷ b' ' ∷ b't' ∷ b'o' ∷ b' ' ∷ b'i' ∷ b'n' ∷ b'i' ∷ b't'
    ∷ b'i' ∷ b'a' ∷ b'l' ∷ b'i' ∷ b'z' ∷ b'e' ∷ b' ' ∷ b'a' ∷ b's' ∷ b'y' ∷ b'n' ∷ b'c' ∷ b' '
    ∷ b'K' ∷ b'V' ∷ b' ' ∷ b's' ∷ b't' ∷ b'o' ∷ b'r' ∷ b'e' ∷ b' ' ∷ b'c' ∷ b'l' ∷ b'i' ∷ b'e'
    ∷ b'n' ∷ b't' ∷ []

abbrev pub not_found_message : Text
not_found_message =
    b'K' ∷ b'e' ∷ b'y' ∷ b' ' ∷ b'n' ∷ b'o' ∷ b't' ∷ b' ' ∷ b'f' ∷ b'o' ∷ b'u' ∷ b'n' ∷ b'd' ∷ []

abbrev pub async_get_failed : Text
async_get_failed = b'G' ∷ b'e' ∷ b't' ∷ b' ' ∷ b'f' ∷ b'a' ∷ b'i' ∷ b'l' ∷ b'e' ∷ b'd' ∷ []

-- The exception of `GetAsync` for an invalid result.
unfoldable pub get_async_exception : EnumErrorCode → KvStoreException
unfolding key_not_found_exception kv_store_exception
get_async_exception EnumErrorCode.key_not_found = key_not_found_exception not_found_message
get_async_exception code = kv_store_exception async_get_failed code

-- What `get()` of a future does: wait, or give its result.
pub data Wait (A : Type 0) : Type 0 where
  blocked : Wait A
  done : A → Wait A

-- The fields of `c_config`.
unfoldable pub async_config : Config → KvStoreAsyncConfig
async_config config = record {
  server_url = some config.server_url;
  cache_ttl_ms = millis_as_u64 config.cache_ttl;
  cache_capacity = config.cache_capacity % 2 ^ 64;
  connection_pool_size = config.connection_pool_size;
  padding = 0;
}

module _ ⦃P : Platform⦄ where
  -- `client_` of an object; to use one whose lifetime is over is a fault.
  unfoldable pub object_at : ℕ → Run AsyncApp ℕ
  object_at a s = elim (deref s.objects a) [ none ↦ none | some p ↦ some (p, s) ]

  unfoldable pub set_object : ℕ → Option ℕ → Run AsyncApp (Unit {0})
  set_object a v s = some (tt, record s { post = record s.post { objects = write s.objects a v } })

  unfoldable pub new_object : ℕ → Run AsyncApp ℕ
  new_object p s =
      some (fresh s.objects, record s { post = record s.post { objects = alloc s.objects p } })

  -- `KvStoreAsyncClient(const Config&)`
  unfoldable pub async_client_new : Config → Run AsyncApp (Outcome ℕ)
  unfolding async_config kv_store_exception new_object
  async_client_new config = do
    p ← kv_store_async_init (some (async_config config))
    if p == 0
        then pure (thrown (kv_store_exception async_init_failed EnumErrorCode.internal_error))
        else (do a ← new_object p; pure (returned a))

  -- `~KvStoreAsyncClient()`
  unfoldable pub async_client_destroy : ℕ → Run AsyncApp (Unit {0})
  unfolding object_at set_object
  async_client_destroy a = do
    p ← object_at a
    if p == 0 then pure tt else kv_store_async_destroy p
    set_object a none

  -- `KvStoreAsyncClient(KvStoreAsyncClient&& other)`
  unfoldable pub async_client_move : ℕ → Run AsyncApp ℕ
  unfolding object_at set_object new_object
  async_client_move other = do p ← object_at other; set_object other (some 0); new_object p

  -- `operator=(KvStoreAsyncClient&& other)`
  unfoldable pub async_client_assign : ℕ → ℕ → Run AsyncApp (Unit {0})
  unfolding object_at set_object
  async_client_assign this other = do
    p ← object_at other
    q ← object_at this
    if this == other then pure tt else (do
      (if q == 0 then pure tt else kv_store_async_destroy q)
      set_object this (some p)
      set_object other (some 0))

  -- `new detail::GetContext(client_)` with its promise, and `new detail::SetContext()`.
  unfoldable pub new_get_context : ℕ → Run AsyncApp ℕ
  new_get_context client s = some (
    fresh s.get_contexts,
    record s {
      post = record s.post {
        gets = alloc s.gets pending;
        get_contexts = alloc s.get_contexts (record { client = client; promise = fresh s.gets });
      };
    },
  )

  unfoldable pub new_set_context : Run AsyncApp ℕ
  new_set_context s = some (
    fresh s.set_contexts,
    record s {
      post = record s.post {
        sets = alloc s.sets pending;
        set_contexts = alloc s.set_contexts (record { promise = fresh s.sets });
      };
    },
  )

  -- `GetRefAsync(key)`; `get_future()` names the shared state that `new` is about to make.
  unfoldable pub get_ref_async : ℕ → Slice → Run AsyncApp ℕ
  unfolding object_at new_get_context
  get_ref_async a key s =
      (do
        p ← object_at a
        ctx ← new_get_context p
        kv_store_get_async p key ctx
        pure (fresh s.gets))
        s

  -- `SetAsync(key, value)`
  unfoldable pub set_async : ℕ → Slice → Slice → Run AsyncApp ℕ
  unfolding object_at new_set_context
  set_async a key text s =
      (do
        ctx ← new_set_context
        p ← object_at a
        kv_store_set_async p key text ctx
        pure (fresh s.sets))
        s

  -- `get()` of the future of `GetRefAsync`: the value is moved out, and the shared state ends.
  unfoldable pub take_value : ℕ → Run App ℕ
  take_value v = do r ← async_value_ref_move v; async_value_ref_destroy v; pure r

  unfoldable pub take_ref : ℕ → Run AsyncApp (Wait (Outcome ℕ))
  unfolding take_value
  take_ref f s = elim (deref s.gets f) [
    | none ↦ none
    | some pending ↦ some (blocked, s)
    | some (exception e) ↦
        some (done (thrown e), record s { post = record s.post { gets = write s.gets f none } })
    | some (value v) ↦ and_then (on_app (take_value v) s) λ r t.
        some (done (returned r), record t { post = record t.post { gets = write t.gets f none } })
  ]

  -- `get()` of the future of `SetAsync`.
  abbrev pub set_outcome : Shared (Unit {0}) → Wait (Outcome (Unit {0}))
  set_outcome pending = blocked
  set_outcome (value _) = done (returned tt)
  set_outcome (exception e) = done (thrown e)

  unfoldable pub take_set : ℕ → Run AsyncApp (Wait (Outcome (Unit {0})))
  take_set f s = elim (deref s.sets f) [
    | none ↦ none
    | some pending ↦ some (blocked, s)
    | some c ↦
        some (set_outcome c, record s { post = record s.post { sets = write s.sets f none } })
  ]

  -- What the deferred body of `GetAsync(key)` makes of the object.
  unfoldable pub string_body : ValueRef → Run App (Outcome Text)
  unfolding get_async_exception
  string_body o =
      if valid o
      then (do v ← read_view o; pure (returned v))
      else pure (thrown (get_async_exception (error o)))

  -- The deferred body of `GetAsync(key)`, which `get()` of its future runs.
  unfoldable pub string_of : Wait (Outcome ℕ) → Run AsyncApp (Wait (Outcome Text))
  unfolding string_body
  string_of blocked = pure blocked
  string_of (done (thrown e)) = pure (done (thrown e))
  string_of (done (returned r)) = do
    o ← on_app (ref_at r)
    out ← on_app (string_body o)
    on_app (async_value_ref_destroy r)
    pure (done out)

  unfoldable pub await_string : ℕ → Run AsyncApp (Wait (Outcome Text))
  unfolding take_ref string_of
  await_string f = do w ← take_ref f; string_of w

  -- What the deferred body of `TryGetAsync(key)` makes of the object, and the body.
  unfoldable pub optional_body : ValueRef → Run App (Option Text)
  optional_body o = if valid o then (do v ← read_view o; pure (some v)) else pure none

  unfoldable pub optional_of : Wait (Outcome ℕ) → Run AsyncApp (Wait (Outcome (Option Text)))
  unfolding optional_body
  optional_of blocked = pure blocked
  optional_of (done (thrown e)) = pure (done (thrown e))
  optional_of (done (returned r)) = do
    o ← on_app (ref_at r)
    out ← on_app (optional_body o)
    on_app (async_value_ref_destroy r)
    pure (done (returned out))

  unfoldable pub await_optional : ℕ → Run AsyncApp (Wait (Outcome (Option Text)))
  unfolding take_ref optional_of
  await_optional f = do w ← take_ref f; optional_of w

  -- `ClearCache()` and `GetCacheStats()`
  unfoldable pub async_clear_cache : ℕ → Run AsyncApp (Unit {0})
  unfolding object_at
  async_clear_cache a = do p ← object_at a; kv_store_async_cache_clear p

  unfoldable pub async_get_cache_stats : ℕ → Run AsyncApp CacheStats
  unfolding object_at
  async_get_cache_stats a = do
    p ← object_at a
    st ← kv_store_async_cache_stats p
    pure (record { hits = st.hits; misses = st.misses; current_size = st.current_size })

  -- `FireAndForget::Set(key, value)`; the detached thread is a `get()` of the future that drops its
  -- outcome.
  unfoldable pub fire_and_forget_set : ℕ → Slice → Slice → Run AsyncApp ℕ
  unfolding set_async
  fire_and_forget_set a key text = set_async a key text

  unfoldable pub detached_get : ℕ → Run AsyncApp (Unit {0})
  unfolding take_set
  detached_get f = do w ← take_set f; pure tt

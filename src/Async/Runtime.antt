-- ===== src/Async/Runtime.antt =====
-- core-sdk/src/ffi_async.rs: the C interface of the asynchronous client and the tasks that it spawns.
-- A boxed client is a cache and an HTTP client, of which a task has clones: what they share is a core,
-- an entry of `sdk.clients`. The callbacks are those of kv_store_async.hpp.
use kvstore_ffi.Prelude.{ℕ, ◌+◌, Option, none, some, ◌==◌, if◌then◌else◌}
use kvstore_ffi.Prelude.Table.{deref, write, alloc, fresh, total}
use kvstore_ffi.Prelude.State.{Run, pure, fault, ◌>>=◌, ◌>>◌}
use kvstore_ffi.Text.{Text, from_utf8, from_ptr}
use kvstore_ffi.ErrorCode.{ErrorCode, as_i32}
use kvstore_ffi.Http.{Result, ok, err, KvHttpClient, http_new, http_get, http_set}
use kvstore_ffi.Platform.{Platform}
use kvstore_ffi.Cache.{cache_new, cache_get, cache_clear}
use kvstore_ffi.Ffi.State.{Slice, null, at, KvCacheStats, Sdk, on_arcs, on_cache, on_http}
use kvstore_ffi.Ffi.{drop_client, get_success, get_error, fetched, stored, kv_store_cache_stats}
use kvstore_ffi.Binding.State.{on_sdk}
use kvstore_ffi.Async.{
  Job, asks_get, answered_get, asks_set, answered_set, Task, AsyncApp, on_app, get_callback,
  set_callback,
}

-- `KvStoreAsyncConfig`; `none` is a null `server_url`.
pub record KvStoreAsyncConfig : Type 0 where
  pub server_url : Option Text
  pub cache_ttl_ms : ℕ
  pub cache_capacity : ℕ
  pub connection_pool_size : ℕ
  pub padding : ℕ

-- 1 where the two are the same.
abbrev pub one_if : ℕ → ℕ → ℕ
one_if a b = if a == b then 1 else 0

module _ ⦃P : Platform⦄ where
  unfoldable pub on_core : {A : Type 0} → Run Sdk A → Run AsyncApp A
  unfolding on_app on_sdk
  on_core m = on_app (on_sdk m)

  -- The core of a boxed client; a dangling pointer is a fault.
  unfoldable pub box_at : ℕ → Run AsyncApp ℕ
  box_at p s = elim (deref s.boxes p) [ none ↦ none | some c ↦ some (c, s) ]

  unfoldable pub task_at : ℕ → Run AsyncApp Task
  task_at i s = elim (deref s.tasks i) [ none ↦ none | some t ↦ some (t, s) ]

  unfoldable pub set_task : ℕ → Option Task → Run AsyncApp (Unit {0})
  set_task i v s = some (tt, record s { post = record s.post { tasks = write s.tasks i v } })

  -- `ASYNC_RUNTIME.spawn(…)`
  unfoldable pub spawn : Task → Run AsyncApp (Unit {0})
  spawn t s = some (tt, record s { post = record s.post { tasks = alloc s.tasks t } })

  -- How many boxed clients and tasks share a core.
  abbrev pub sharers : ℕ → AsyncApp → ℕ
  sharers c s = total (one_if c) s.boxes + total (λ t. one_if c t.core) s.tasks

  -- What the end of a box or of a task does to its core: the last one that shares it drops it.
  unfoldable pub release_core : ℕ → Run AsyncApp (Unit {0})
  unfolding on_core
  release_core c s = if sharers c s == 0 then on_core (drop_client c) s else pure tt s

  -- The new core of `kv_store_async_init`, once its HTTP client is there, and its box.
  unfoldable pub new_core : KvStoreAsyncConfig → KvHttpClient → Run Sdk ℕ
  new_core config http s = elim (cache_new config.cache_capacity config.cache_ttl_ms) [
    | none ↦ none
    | some cache ↦ some (
      fresh s.clients,
      record s { clients = alloc s.clients (record { cache = cache; http_client = http }) },
    )
  ]

  unfoldable pub new_box : ℕ → Run AsyncApp ℕ
  new_box c s = some (fresh s.boxes, record s { post = record s.post { boxes = alloc s.boxes c } })

  unfoldable pub async_init_url : KvStoreAsyncConfig → Text → Run AsyncApp ℕ
  unfolding on_core new_core new_box
  async_init_url config url = elim (http_new url config.connection_pool_size) [
    | err _ ↦ pure 0
    | ok http ↦ do c ← on_core (new_core config http); new_box c
  ]

  -- `kv_store_async_init`; a null `server_url` is read all the same, which is undefined.
  unfoldable pub kv_store_async_init : Option KvStoreAsyncConfig → Run AsyncApp ℕ
  unfolding async_init_url
  kv_store_async_init none = pure 0
  kv_store_async_init (some config) = elim config.server_url [
    | none ↦ fault
    | some raw ↦ elim (from_utf8 (from_ptr raw)) [
      | none ↦ pure 0
      | some url ↦ async_init_url config url
    ]
  ]

  -- `kv_store_async_destroy`
  unfoldable pub drop_box : ℕ → Run AsyncApp (Unit {0})
  drop_box p s = some (tt, record s { post = record s.post { boxes = write s.boxes p none } })

  unfoldable pub kv_store_async_destroy : ℕ → Run AsyncApp (Unit {0})
  unfolding release_core drop_box
  kv_store_async_destroy p =
      if p == 0 then pure tt else (do c ← box_at p; drop_box p; release_core c)

  -- `kv_store_get_async`: what the cache answered; a miss spawns a task.
  unfoldable pub async_looked_up : ℕ → Text → ℕ → Option ℕ → Run AsyncApp (Unit {0})
  unfolding on_core spawn
  async_looked_up c key user_data (some a) = do
    r ← on_core (on_arcs (get_success a))
    get_callback user_data r
  async_looked_up c key user_data none =
      spawn (record { core = c; job = asks_get key; user_data = user_data })

  unfoldable pub async_get_key : ℕ → Text → ℕ → Run AsyncApp (Unit {0})
  unfolding async_looked_up
  async_get_key c key user_data = do
    found ← on_core (on_cache c (cache_get key))
    async_looked_up c key user_data found

  unfoldable pub async_get_slice : ℕ → Slice → ℕ → Run AsyncApp (Unit {0})
  unfolding async_get_key
  async_get_slice p (null n) user_data = get_callback user_data (get_error ErrorCode.invalid_input)
  async_get_slice p (at bytes) user_data = do
    c ← box_at p
    elim (from_utf8 bytes) [
      | none ↦ get_callback user_data (get_error ErrorCode.invalid_input)
      | some key ↦ async_get_key c key user_data
    ]

  unfoldable pub kv_store_get_async : ℕ → Slice → ℕ → Run AsyncApp (Unit {0})
  unfolding async_get_slice
  kv_store_get_async p key user_data =
      if p == 0
      then get_callback user_data (get_error ErrorCode.invalid_input)
      else async_get_slice p key user_data

  -- `kv_store_set_async`
  unfoldable pub async_set_slices : ℕ → Slice → Slice → ℕ → Run AsyncApp (Unit {0})
  unfolding spawn
  async_set_slices p (null n) value user_data =
      set_callback user_data (as_i32 ErrorCode.invalid_input)
  async_set_slices p (at key) (null n) user_data =
      set_callback user_data (as_i32 ErrorCode.invalid_input)
  async_set_slices p (at key) (at value) user_data = do
    c ← box_at p
    elim (from_utf8 key) [
      | none ↦ set_callback user_data (as_i32 ErrorCode.invalid_input)
      | some k ↦ elim (from_utf8 value) [
        | none ↦ set_callback user_data (as_i32 ErrorCode.invalid_input)
        | some v ↦ spawn (record { core = c; job = asks_set k v; user_data = user_data })
      ]
    ]

  unfoldable pub kv_store_set_async : ℕ → Slice → Slice → ℕ → Run AsyncApp (Unit {0})
  unfolding async_set_slices
  kv_store_set_async p key value user_data =
      if p == 0
      then set_callback user_data (as_i32 ErrorCode.invalid_input)
      else async_set_slices p key value user_data

  -- The task of a get up to its `await`: the server takes the request and answers.
  unfoldable pub get_asks : ℕ → Task → Text → Run AsyncApp (Unit {0})
  unfolding on_core set_task
  get_asks i t key = do
    r ← on_core (on_http t.core (λ h. http_get h key))
    set_task i (some (record t { job = answered_get key r }))

  -- The task of a set up to its `await`.
  unfoldable pub set_asks : ℕ → Task → Text → Text → Run AsyncApp (Unit {0})
  unfolding on_core set_task
  set_asks i t key value = do
    r ← on_core (on_http t.core (λ h. http_set h key value))
    set_task i (some (record t { job = answered_set key value r }))

  unfoldable pub asks : ℕ → Task → Job → Run AsyncApp (Unit {0})
  unfolding get_asks set_asks
  asks i t (asks_get key) = get_asks i t key
  asks i t (asks_set key value) = set_asks i t key value
  asks i t (answered_get key r) = fault
  asks i t (answered_set key value r) = fault

  unfoldable pub task_asks : ℕ → Run AsyncApp (Unit {0})
  unfolding asks task_at
  task_asks i = do t ← task_at i; asks i t t.job

  -- The end of a task: its clones are dropped.
  unfoldable pub end_task : ℕ → ℕ → Run AsyncApp (Unit {0})
  unfolding set_task release_core
  end_task i c = do set_task i none; release_core c

  -- The task of a get after its `await`: the cache is updated and the callback is called.
  unfoldable pub get_finishes : ℕ → Task → Text → Result Text → Run AsyncApp (Unit {0})
  unfolding on_core end_task
  get_finishes i t key r = do
    q ← on_core (fetched t.core key r)
    get_callback t.user_data q
    end_task i t.core

  -- The task of a set after its `await`.
  unfoldable pub set_finishes : ℕ → Task → Text → Text → Result (Unit {0}) → Run AsyncApp (Unit {0})
  unfolding on_core end_task
  set_finishes i t key value r = do
    q ← on_core (stored t.core key value r)
    set_callback t.user_data q.error_code
    end_task i t.core

  unfoldable pub finishes : ℕ → Task → Job → Run AsyncApp (Unit {0})
  unfolding get_finishes set_finishes
  finishes i t (answered_get key r) = get_finishes i t key r
  finishes i t (answered_set key value r) = set_finishes i t key value r
  finishes i t (asks_get key) = fault
  finishes i t (asks_set key value) = fault

  unfoldable pub task_finishes : ℕ → Run AsyncApp (Unit {0})
  unfolding finishes task_at
  task_finishes i = do t ← task_at i; finishes i t t.job

  -- `kv_store_async_cache_stats`
  unfoldable pub kv_store_async_cache_stats : ℕ → Run AsyncApp KvCacheStats
  unfolding on_core
  kv_store_async_cache_stats p =
      if p == 0
      then pure (record { hits = 0; misses = 0; current_size = 0 })
      else (do c ← box_at p; on_core (kv_store_cache_stats c))

  -- `kv_store_async_cache_clear`
  unfoldable pub kv_store_async_cache_clear : ℕ → Run AsyncApp (Unit {0})
  unfolding on_core
  kv_store_async_cache_clear p =
      if p == 0 then pure tt else (do c ← box_at p; on_core (on_cache c cache_clear))

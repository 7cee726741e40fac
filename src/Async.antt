-- ===== src/Async.antt =====
-- bindings/cpp/include/kv_store_async.hpp: the objects, contexts and callbacks of the asynchronous
-- wrapper, and the state of the interface of core-sdk/src/ffi_async.rs below it.
pub mod Callbacks
pub mod GetCallback
pub mod Runtime
pub mod Client
pub mod Ledger
pub mod Invariant
pub mod Cores
pub mod Entries
pub mod Tasks
pub mod Finish
pub mod Gets
pub mod Sets
pub mod Futures
pub mod Await
pub mod Owners
pub mod Objects
pub mod Setup
pub mod Progress
pub mod Program
pub mod Drain
pub mod Whole
pub mod Delivery
use kvstore_ffi.Prelude.{
  ℕ, ◌≡◌, refl, Bool, true, false, Option, none, some, List, [], ◌∷◌, ◌==◌, if◌then◌else◌,
}
use kvstore_ffi.Prelude.Table.{Table, deref, write, alloc, fresh}
use kvstore_ffi.Prelude.State.{Run, pure, fault, and_then, ◌>>=◌, ◌>>◌}
use kvstore_ffi.ErrorCode.{cast_error_code}
use kvstore_ffi.Text.{Text}
use kvstore_ffi.Http.{Result}
use kvstore_ffi.Memory.{arc_drop}
use kvstore_ffi.Platform.{Platform}
use kvstore_ffi.Ffi.State.{KvGetResult, Sdk, on_arcs}
use kvstore_ffi.Binding.State.{
  KvStoreException, ValueRef, App, on_sdk, ref_at, set_ref, value_ref_new,
}
use kvstore_ffi.Binding.{kv_store_exception, set_failed}

-- The shared state of a promise and its future.
pub data Shared (A : Type 0) : Type 0 where
  pending : Shared A
  value : A → Shared A
  exception : KvStoreException → Shared A

-- `struct GetContext` and `struct SetContext`; a promise is named by the address of its shared state.
pub record GetContext : Type 0 where
  pub client : ℕ
  pub promise : ℕ

pub record SetContext : Type 0 where
  pub promise : ℕ

-- Where a spawned task stands: before the server has answered its request, and after it.
pub data Job : Type 0 where
  asks_get : Text → Job
  answered_get : Text → Result Text → Job
  asks_set : Text → Text → Job
  answered_set : Text → Text → Result (Unit {0}) → Job

-- A task on the runtime: its clones of the cache and of the HTTP client, which are named together by
-- the address of what they share, its job and the pointer for the callback.
pub record Task : Type 0 where
  pub core : ℕ
  pub job : Job
  pub user_data : ℕ

-- All that the asynchronous calls keep beside the heap: the contexts, the shared states, the tasks,
-- the boxed clients (each by what its cache and HTTP client share) and the `KvStoreAsyncClient`
-- objects (each by its `client_`).
pub record Post : Type 0 where
  pub get_contexts : Table GetContext
  pub set_contexts : Table SetContext
  pub gets : Table (Shared ℕ)
  pub sets : Table (Shared (Unit {0}))
  pub tasks : Table Task
  pub boxes : Table ℕ
  pub objects : Table ℕ

module _ ⦃P : Platform⦄ where
  -- The heap, the shared caches (`app.sdk.clients`), the world and the `AsyncValueRef` objects, which
  -- have the fields of a `ValueRef`; and the rest. The value of a get is the address of its object.
  pub record AsyncApp : Type 0 where
    pub app : App
    pub post : Post
    pub open post use *

  unfoldable pub on_app : {A : Type 0} → Run App A → Run AsyncApp A
  on_app m s = and_then (m s.app) λ a t. some (a, record s { app = t })

  -- `kv_store_async_release_get`
  unfoldable pub kv_store_async_release_get : ℕ → Option KvGetResult → Run Sdk (Option KvGetResult)
  kv_store_async_release_get _client none = pure none
  kv_store_async_release_get _client (some r) =
      if r.arc_handle == 0
      then pure (some r)
      else (do on_arcs (arc_drop r.arc_handle); pure (some (record r { arc_handle = 0 })))

  -- What a destructor or an assignment does with what the object had.
  unfoldable pub async_give_up : ValueRef → Run App (Unit {0})
  unfolding kv_store_async_release_get
  async_give_up o =
      if o.client == 0
      then pure tt
      else (do _ ← on_sdk (kv_store_async_release_get o.client (some o.result)); pure tt)

  -- `~AsyncValueRef()`
  unfoldable pub async_value_ref_destroy : ℕ → Run App (Unit {0})
  unfolding async_give_up
  async_value_ref_destroy a = do o ← ref_at a; async_give_up o; set_ref a none

  -- `AsyncValueRef(AsyncValueRef&& other)`
  unfoldable pub async_value_ref_move : ℕ → Run App ℕ
  async_value_ref_move other = do
    o ← ref_at other
    set_ref other (some (record o { client = 0 }))
    value_ref_new o.client o.result

  -- `operator=(AsyncValueRef&& other)`
  unfoldable pub async_value_ref_assign : ℕ → ℕ → Run App (Unit {0})
  unfolding async_give_up
  async_value_ref_assign this other = do
    o ← ref_at other
    t ← ref_at this
    if this == other then pure tt else (do
      async_give_up t
      set_ref this (some o)
      set_ref other (some (record o { client = 0 })))

  unfoldable pub get_context_at : ℕ → Run AsyncApp GetContext
  get_context_at p s = elim (deref s.get_contexts p) [ none ↦ none | some c ↦ some (c, s) ]

  unfoldable pub delete_get_context : ℕ → Run AsyncApp (Unit {0})
  delete_get_context p s =
      some (tt, record s { post = record s.post { get_contexts = write s.get_contexts p none } })

  unfoldable pub set_context_at : ℕ → Run AsyncApp SetContext
  set_context_at p s = elim (deref s.set_contexts p) [ none ↦ none | some c ↦ some (c, s) ]

  unfoldable pub delete_set_context : ℕ → Run AsyncApp (Unit {0})
  delete_set_context p s =
      some (tt, record s { post = record s.post { set_contexts = write s.set_contexts p none } })

  -- `promise.set_value(std::move(ref))`: the value is moved into the shared state. A promise that
  -- has its result throws; the `set_exception` that follows throws again, out of the callback, and
  -- ends the process.
  unfoldable pub set_get_value : ℕ → ℕ → Run AsyncApp (Unit {0})
  unfolding async_value_ref_move
  set_get_value promise r s = elim (deref s.gets promise) [
    | some pending ↦ and_then (on_app (async_value_ref_move r) s) λ v t.
        some
          (tt, record t { post = record t.post { gets = write t.gets promise (some (value v)) } })
    | _ ↦ none
  ]

  -- `set_value()` or `set_exception(…)` of a set.
  unfoldable pub settle_set : ℕ → Shared (Unit {0}) → Run AsyncApp (Unit {0})
  settle_set promise result s = elim (deref s.sets promise) [
    | some pending ↦
        some (tt, record s { post = record s.post { sets = write s.sets promise (some result) } })
    | _ ↦ none
  ]

  -- `get_callback(user_data, result)`
  unfoldable pub get_callback : ℕ → KvGetResult → Run AsyncApp (Unit {0})
  unfolding set_get_value async_value_ref_destroy
  get_callback user_data result = do
    ctx ← get_context_at user_data
    ref ← on_app (value_ref_new ctx.client result)
    set_get_value ctx.promise ref
    on_app (async_value_ref_destroy ref)
    delete_get_context user_data

  -- `set_callback(user_data, error_code)`
  unfoldable pub set_callback : ℕ → ℕ → Run AsyncApp (Unit {0})
  unfolding settle_set kv_store_exception
  set_callback user_data error_code = do
    ctx ← set_context_at user_data
    settle_set ctx.promise (
        if error_code == 0
        then value tt
        else exception (kv_store_exception set_failed (cast_error_code error_code)))
    delete_set_context user_data

-- ===== src/Async/Callbacks.antt =====
-- bindings/cpp/include/kv_store_async.hpp: `AsyncValueRef` beside `ValueRef`, and `set_callback`.
use kvstore_ffi.Prelude.{ℕ, ◌≡◌, refl, none, some, ◌==◌, if◌then◌else◌}
use kvstore_ffi.Prelude.Table.{deref, write, deref-write_self}
use kvstore_ffi.Prelude.State.{Returns, returns}
use kvstore_ffi.ErrorCode.{ErrorCode, as_i32, same_name, as_i32_round_trip, cast_error_code}
use kvstore_ffi.Platform.{Platform}
use kvstore_ffi.Ffi.{kv_store_release_get}
use kvstore_ffi.Binding.State.{App}
use kvstore_ffi.Binding.{
  kv_store_exception, set_failed, give_up, value_ref_destroy, value_ref_move, value_ref_assign,
}
use kvstore_ffi.Async.{
  Shared, pending, value, exception, SetContext, AsyncApp, kv_store_async_release_get,
  async_give_up, async_value_ref_destroy, async_value_ref_move, async_value_ref_assign,
  set_callback, settle_set, set_context_at, delete_set_context,
}

module _ ⦃P : Platform⦄ where
  -- `AsyncValueRef` does in its destructor, its move constructor and its move assignment what
  -- `ValueRef` does.
  pub async_value_ref_lem :
      (a b : ℕ) (s : App)
      → (async_value_ref_destroy a s ≡ value_ref_destroy a s)
        × (async_value_ref_move a s ≡ value_ref_move a s)
        × (async_value_ref_assign a b s ≡ value_ref_assign a b s)
  unfolding async_value_ref_destroy value_ref_destroy async_value_ref_move value_ref_move
      async_value_ref_assign value_ref_assign give_up async_give_up kv_store_release_get
      kv_store_async_release_get
  async_value_ref_lem a b s = (refl, refl, refl)

  set_context_at-eq :
      (p : ℕ) (ctx : SetContext) (s : AsyncApp)
      → deref s.set_contexts p ≡ some ctx
      → set_context_at p s ≡ some (ctx, s)
  unfolding set_context_at
  set_context_at-eq p ctx s e = rw (set_context_at, e) refl

  settle_set-eq :
      (a : ℕ) (result : Shared (Unit {0})) (s : AsyncApp)
      → deref s.sets a ≡ some pending
      → settle_set a result s
        ≡ some (tt, record s { post = record s.post { sets = write s.sets a (some result) } })
  unfolding settle_set
  settle_set-eq a result s e = rw (settle_set, e) refl

  no_context : (p n : ℕ) (s : AsyncApp) → deref s.set_contexts p ≡ none → set_callback p n s ≡ none
  unfolding set_callback set_context_at
  no_context p n s e = rw (set_context_at, e) refl

  -- What a callback with this code puts into the promise.
  abbrev pub set_settled : ℕ → Shared (Unit {0})
  set_settled n =
      if n == 0 then value tt else exception (kv_store_exception set_failed (cast_error_code n))

  pub set_callback-eq :
      (p n : ℕ) (ctx : SetContext) (s : AsyncApp)
      → deref s.set_contexts p ≡ some ctx
      → deref s.sets ctx.promise ≡ some pending
      → set_callback p n s
        ≡ some (
          tt,
          record s {
            post = record s.post {
              sets = write s.sets ctx.promise (some (set_settled n));
              set_contexts = write s.set_contexts p none;
            };
          },
        )
  unfolding set_callback delete_set_context
  set_callback-eq p n ctx s e q =
      rw (set_context_at-eq p ctx s e, settle_set-eq ctx.promise (set_settled n) s q) refl

  -- `set_callback` with a live context and a code of the SDK settles a pending promise: with a
  -- value for code 0, else with a KvStoreException of that code. It frees its context, so that a
  -- second call is an access to freed memory.
  pub set_callback_lem :
      (p : ℕ) (ctx : SetContext) (code : ErrorCode) (s : AsyncApp)
      → deref s.set_contexts p ≡ some ctx
      → deref s.sets ctx.promise ≡ some pending
      → Returns
          (λ _ t.
            (deref t.sets ctx.promise
              ≡ some (
                  if as_i32 code == 0
                  then value tt
                  else exception (kv_store_exception set_failed (same_name code))))
            × (deref t.set_contexts p ≡ none)
            × (t.app ≡ s.app)
            × (t.gets ≡ s.gets)
            × ((n : ℕ) → set_callback p n t ≡ none))
          (set_callback p (as_i32 code) s)
  set_callback_lem p ctx code s e q = rw (set_callback-eq p (as_i32 code) ctx s e q) (
      returns (
        rw (as_i32_round_trip code).1 (deref-write_self s.sets ctx.promise pending _ q),
        deref-write_self s.set_contexts p ctx none e,
        refl,
        refl,
        λ n. no_context p n _ (deref-write_self s.set_contexts p ctx none e),
      ))

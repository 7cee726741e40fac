-- ===== src/Async/Await.antt =====
-- The strings of the futures of bindings/cpp/include/kv_store_async.hpp, and the outcomes of sets.
use kvstore_ffi.Prelude.{ℕ, none, some, ◌≡◌, refl, false, ap, sym, ◌∙◌, ◌==◌}
use kvstore_ffi.Prelude.Table.{deref, write}
use kvstore_ffi.Prelude.State.{Returns, returns, bind, mono}
use kvstore_ffi.Text.{Text}
use kvstore_ffi.Memory.Counts.{Keeps-trans}
use kvstore_ffi.Platform.{Platform}
use kvstore_ffi.ErrorCode.{ErrorCode, same_name}
use kvstore_ffi.Http.{Result, ok, err}
use kvstore_ffi.Ffi.Get.{Answers}
use kvstore_ffi.Binding.State.{ValueRef, Outcome, returned, thrown, App}
use kvstore_ffi.Binding.Ownership.{ref_at-eq}
use kvstore_ffi.Binding.Expected.{await_outcome, try_get_outcome}
use kvstore_ffi.Binding.{key_not_found_exception, kv_store_exception}
use kvstore_ffi.Binding.Answers.{IsProper, valid-error, valid_ok, read_view_lem}
use kvstore_ffi.Async.{Shared, pending, value, exception, AsyncApp, on_app, async_value_ref_destroy}
use kvstore_ffi.Async.Client.{
  Wait, done, get_async_exception, string_body, optional_body, string_of, await_string, optional_of,
  await_optional, set_outcome, take_set,
}
use kvstore_ffi.Async.Invariant.{set_pointer, set_promise, waits, AsyncInv, Went}
use kvstore_ffi.Async.Entries.{Entries-taken}
use kvstore_ffi.Async.Finish.{Answers-Keeps}
use kvstore_ffi.Async.Futures.{TookRef, take_ref_lem, free_destroy_lem}

module _ ⦃P : Platform⦄ where
  -- What is left of an awaited get.
  abbrev pub Left : ℕ → AsyncApp → AsyncApp → Type 0
  Left f s u =
      Went s u
      × (u.app.sdk.world ≡ s.app.sdk.world)
      × (u.post ≡ record s.post { gets = write s.gets f none })

  gone :
      (f : ℕ) (o : ValueRef) (s t : AsyncApp) (out : Wait (Outcome ℕ))
      → (took : TookRef f o s out t)
      → Returns (λ _ u. Left f s u) (on_app (async_value_ref_destroy took.place) t)
  gone f o s t out took =
      mono (free_destroy_lem took.place o t took.went.0 took.here took.free)
        λ _ u (went, post, world).
          ((went.0, Keeps-trans took.went.1 went.1), world ∙ took.world, post ∙ took.post)

  get_async_exception_lem :
      (code : ErrorCode) → await_outcome (err code) ≡ thrown (get_async_exception (same_name code))
  unfolding get_async_exception key_not_found_exception kv_store_exception same_name
  get_async_exception_lem ErrorCode.success = refl
  get_async_exception_lem ErrorCode.key_not_found = refl
  get_async_exception_lem ErrorCode.connection_error = refl
  get_async_exception_lem ErrorCode.timeout = refl
  get_async_exception_lem ErrorCode.invalid_input = refl
  get_async_exception_lem ErrorCode.internal_error = refl

  string_body_lem :
      (o : ValueRef) (said : Result Text) (s : App)
      → Answers o.result s.sdk.arcs said
      → IsProper said
      → string_body o s ≡ some (await_outcome said, s)
  unfolding string_body
  string_body_lem o (ok v) s q proper = rw (valid_ok o q.0, read_view_lem o v s q)
  string_body_lem o (err code) s q proper =
      let (bad, same) = valid-error o code q (proper code refl) in
      rw (bad, same) (ap (λ x. some (x, s)) (sym (get_async_exception_lem code)))

  optional_body_lem :
      (o : ValueRef) (said : Result Text) (s : App)
      → Answers o.result s.sdk.arcs said
      → IsProper said
      → optional_body o s ≡ some (try_get_outcome said, s)
  unfolding optional_body
  optional_body_lem o (ok v) s q proper = rw (valid_ok o q.0, read_view_lem o v s q)
  optional_body_lem o (err code) s q proper =
      let (bad, same) = valid-error o code q (proper code refl) in rw bad

  -- `get()` of a future of `GetAsync` whose promise has its value, in a state that keeps the
  -- invariant, returns the text of the answer, or throws: a KeyNotFoundException with the message
  -- "Key not found: Key not found" where the answer is KeyNotFound, else a KvStoreException with the
  -- message "Get failed" and the code. The object is destroyed, no request is made, and the invariant is kept.
  pub await_string_lem :
      (f v : ℕ) (o : ValueRef) (res : Result Text) (s : AsyncApp)
      → AsyncInv s
      → deref s.gets f ≡ some (value v)
      → deref s.app.refs v ≡ some o
      → Answers o.result s.app.sdk.arcs res
      → IsProper res
      → ((x : Text) → res ≡ ok x → (o.client == 0) ≡ false)
      → Returns (λ out u. (out ≡ done (await_outcome res)) × Left f s u) (await_string f s)
  unfolding await_string string_of on_app
  await_string_lem f v o res s i e there answers proper own =
      bind (take_ref_lem f v o s i e there) λ out t took.
        rw
          (
            took.given,
            ref_at-eq took.place o t.app took.here,
            string_body_lem o res t.app
                (Answers-Keeps t took.place o s.app.sdk.arcs res took.went.0.inv took.here own
                  took.went.1 answers)
                proper,
          )
          (bind (gone f o s t out took) λ _ u left. returns (refl, left))

  -- `get()` of a future of `TryGetAsync` whose promise has its value, in a state that keeps the
  -- invariant, returns the text of the answer, and nothing for every error.
  pub await_optional_lem :
      (f v : ℕ) (o : ValueRef) (res : Result Text) (s : AsyncApp)
      → AsyncInv s
      → deref s.gets f ≡ some (value v)
      → deref s.app.refs v ≡ some o
      → Answers o.result s.app.sdk.arcs res
      → IsProper res
      → ((x : Text) → res ≡ ok x → (o.client == 0) ≡ false)
      → Returns
          (λ out u. (out ≡ done (returned (try_get_outcome res))) × Left f s u)
          (await_optional f s)
  unfolding await_optional optional_of on_app
  await_optional_lem f v o res s i e there answers proper own =
      bind (take_ref_lem f v o s i e there) λ out t took.
        rw
          (
            took.given,
            ref_at-eq took.place o t.app took.here,
            optional_body_lem o res t.app
                (Answers-Keeps t took.place o s.app.sdk.arcs res took.went.0.inv took.here own
                  took.went.1 answers)
                proper,
          )
          (bind (gone f o s t out took) λ _ u left. returns (refl, left))

  took :
      (f : ℕ) (c : Shared (Unit {0})) (s : AsyncApp)
      → AsyncInv s
      → deref s.sets f ≡ some c
      → waits (some c) ≡ false
      → AsyncInv (record s { post = record s.post { sets = write s.sets f none } })
  took f c s i e w = record {
    inv = i.inv;
    alone = i.alone;
    boxed = i.boxed;
    working = i.working;
    get_ledger = i.get_ledger;
    set_ledger =
        Entries-taken set_pointer set_promise s.tasks s.set_contexts s.sets i.set_ledger f c e w;
    named = i.named;
    owning = i.owning;
    single = i.single;
    ready = i.ready;
    kept = i.kept;
  }

  -- `get()` of a future of `SetAsync` gives what is in the promise, or blocks; it keeps the
  -- invariant.
  pub take_set_lem :
      (f : ℕ) (c : Shared (Unit {0})) (s : AsyncApp)
      → AsyncInv s
      → deref s.sets f ≡ some c
      → Returns (λ out u. (out ≡ set_outcome c) × AsyncInv u × (u.app ≡ s.app)) (take_set f s)
  unfolding take_set
  take_set_lem f pending s i e = rw (take_set, e) (returns (refl, i, refl))
  take_set_lem f (value x) s i e =
      rw (take_set, e) (returns (refl, took f (value x) s i e refl, refl))
  take_set_lem f (exception x) s i e =
      rw (take_set, e) (returns (refl, took f (exception x) s i e refl, refl))

-- ===== src/Async/Sets.antt =====
-- `SetAsync` of bindings/cpp/include/kv_store_async.hpp with `kv_store_set_async` below it.
use kvstore_ffi.Prelude.{
  ℕ, Option, none, some, ◌≡◌, refl, inl, inr, false, subst, arith, ◌==◌, Bool-cases, Option-cases,
}
use kvstore_ffi.Prelude.Table.{deref, write, alloc, fresh, deref-alloc, deref-alloc_self}
use kvstore_ffi.Text.{Text, from_utf8}
use kvstore_ffi.ErrorCode.{ErrorCode, as_i32}
use kvstore_ffi.Platform.{Platform}
use kvstore_ffi.Ffi.State.{Slice, null, at}
use kvstore_ffi.Ffi.Get.{slice_text}
use kvstore_ffi.Async.{pending, asks_set, Task, AsyncApp, set_callback}
use kvstore_ffi.Async.Callbacks.{set_settled, set_callback-eq}
use kvstore_ffi.Async.Runtime.{kv_store_set_async, async_set_slices, spawn}
use kvstore_ffi.Async.Client.{new_set_context, set_async}
use kvstore_ffi.Async.Invariant.{
  get_pointer, set_pointer, get_promise, set_promise, IsCore, AsyncInv,
}
use kvstore_ffi.Async.Entries.{Entries-immediate, Entries-spawned, Entries-other}
use kvstore_ffi.Async.Gets.{object_at-eq, box_at-eq}

module _ ⦃P : Platform⦄ where
  -- With the new promise and context of a set.
  abbrev pub telling : AsyncApp → AsyncApp
  telling s = record s {
    post = record s.post {
      sets = alloc s.sets pending;
      set_contexts = alloc s.set_contexts (record { promise = fresh s.sets });
    };
  }

  -- The promise of the set has its outcome when the call returns.
  abbrev pub refused : AsyncApp → AsyncApp
  refused s = record s {
    post = record s.post {
      sets =
          write (alloc s.sets pending) (fresh s.sets)
            (some (set_settled (as_i32 ErrorCode.invalid_input)));
      set_contexts =
          write (alloc s.set_contexts (record { promise = fresh s.sets })) (fresh s.set_contexts)
            none;
    };
  }

  -- A task for the set is on its way when the call returns.
  abbrev pub telling_task : ℕ → Text → Text → AsyncApp → Task
  telling_task c key text s = record {
    core = c;
    job = asks_set key text;
    user_data = fresh s.set_contexts;
  }

  abbrev pub accepted : ℕ → Text → Text → AsyncApp → AsyncApp
  accepted c key text s = record (telling s) {
    post = record (telling s).post { tasks = alloc s.tasks (telling_task c key text s) };
  }

  refused-AsyncInv : (s : AsyncApp) → AsyncInv s → AsyncInv (refused s)
  unfolding as_i32
  refused-AsyncInv s inv = record {
    inv = inv.inv;
    alone = inv.alone;
    boxed = inv.boxed;
    working = inv.working;
    get_ledger = inv.get_ledger;
    set_ledger =
        Entries-immediate set_pointer set_promise s.tasks s.set_contexts s.sets inv.set_ledger
          (record { promise = fresh s.sets }) (set_settled (as_i32 ErrorCode.invalid_input)) refl
          refl;
    named = inv.named;
    owning = inv.owning;
    single = inv.single;
    ready = inv.ready;
    kept = inv.kept;
  }

  accepted-AsyncInv :
      (c : ℕ) (key text : Text) (s : AsyncApp)
      → AsyncInv s
      → IsCore s.app.sdk c
      → AsyncInv (accepted c key text s)
  accepted-AsyncInv c key text s inv core =
      let t = telling_task c key text s in
      record {
        inv = inv.inv;
        alone = inv.alone;
        boxed = inv.boxed;
        working = λ j x e. elim (Bool-cases (fresh s.tasks == j)) [
          | inl here ↦
              let same : t ≡ x = ground (arith, deref-alloc s.tasks j t) in
              subst (λ (y : Task). IsCore s.app.sdk y.core) same core
          | inr other ↦ inv.working j x (ground (arith, deref-alloc s.tasks j t))
        ];
        get_ledger =
            Entries-other get_pointer get_promise s.tasks s.get_contexts s.gets inv.get_ledger t
              refl refl;
        set_ledger =
            Entries-spawned set_pointer set_promise s.tasks s.set_contexts s.sets inv.set_ledger t
              (record { promise = fresh s.sets }) refl refl refl refl;
        named = inv.named;
        owning = inv.owning;
        single = inv.single;
        ready = inv.ready;
        kept = inv.kept;
      }

  -- How a set ends, by what the slices hold.
  abbrev pub told : ℕ → Option Text → Option Text → AsyncApp → AsyncApp
  told c (some key) (some text) s = accepted c key text s
  told c (some key) none s = refused s
  told c none v s = refused s

  reject-eq :
      (s : AsyncApp)
      → set_callback (fresh s.set_contexts) (as_i32 ErrorCode.invalid_input) (telling s)
        ≡ some (tt, refused s)
  reject-eq s =
      set_callback-eq (fresh s.set_contexts) (as_i32 ErrorCode.invalid_input)
        (record { promise = fresh s.sets }) (telling s)
        (deref-alloc_self s.set_contexts (record { promise = fresh s.sets }))
        (deref-alloc_self s.sets pending)

  slices-eq :
      (client c : ℕ) (key text : Slice) (s : AsyncApp)
      → deref s.boxes client ≡ some c
      → async_set_slices client key text (fresh s.set_contexts) (telling s)
        ≡ some (tt, told c (slice_text key) (slice_text text) s)
  unfolding async_set_slices spawn
  slices-eq client c (null n) text s box = reject-eq s
  slices-eq client c (at key) (null n) s box = elim (Option-cases (from_utf8 key)) [
    | inl bad ↦ rw bad (reject-eq s)
    | inr (k, good) ↦ rw good (reject-eq s)
  ]
  slices-eq client c (at key) (at text) s box =
      rw (box_at-eq client c (telling s) box) (elim (Option-cases (from_utf8 key)) [
        | inl bad ↦ rw bad (reject-eq s)
        | inr (k, good) ↦ elim (Option-cases (from_utf8 text)) [
          | inl bad ↦ rw (good, bad) (reject-eq s)
          | inr (v, fine) ↦ rw (good, fine) refl
        ]
      ])

  told-AsyncInv :
      (c : ℕ) (key text : Option Text) (s : AsyncApp)
      → AsyncInv s
      → IsCore s.app.sdk c
      → AsyncInv (told c key text s)
  told-AsyncInv c (some key) (some text) s inv core = accepted-AsyncInv c key text s inv core
  told-AsyncInv c (some key) none s inv core = refused-AsyncInv s inv
  told-AsyncInv c none text s inv core = refused-AsyncInv s inv

  -- `SetAsync` on a client object that was not moved from, in a state that keeps the invariant,
  -- returns the future of a new promise. Where the key or the value is null or no UTF-8, the promise
  -- has a KvStoreException with InvalidInput; else it is pending, and a task is spawned to send the
  -- value. Neither the heap nor a cache changes, no request is made, and the invariant is kept.
  pub set_async_lem :
      (a client c : ℕ) (key text : Slice) (s : AsyncApp)
      → AsyncInv s
      → deref s.objects a ≡ some client
      → (client == 0) ≡ false
      → deref s.boxes client ≡ some c
      → (set_async a key text s ≡ some (fresh s.sets, told c (slice_text key) (slice_text text) s))
        × AsyncInv (told c (slice_text key) (slice_text text) s)
  unfolding set_async new_set_context kv_store_set_async
  set_async_lem a client c key text s inv e own box = (
    rw (object_at-eq a client (telling s) e, own, slices-eq client c key text s box) refl,
    told-AsyncInv c (slice_text key) (slice_text text) s inv (inv.boxed client c box),
  )

  -- `SetAsync` on a client object that was moved from fails at once, with InvalidInput.
  pub set_async-moved :
      (a : ℕ) (key text : Slice) (s : AsyncApp)
      → AsyncInv s
      → deref s.objects a ≡ some 0
      → (set_async a key text s ≡ some (fresh s.sets, refused s)) × AsyncInv (refused s)
  unfolding set_async new_set_context kv_store_set_async
  set_async-moved a key text s inv e =
      (rw (object_at-eq a 0 (telling s) e, reject-eq s) refl, refused-AsyncInv s inv)

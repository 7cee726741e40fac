-- ===== src/Async/Finish.antt =====
-- The end of a task of core-sdk/src/ffi_async.rs: the cache, the callback and the clones.
pub mod Callback
pub use Callback.{end_task_lem, Answers-Keeps, FinishedGet, finish_get}
use kvstore_ffi.Prelude.{
  ℕ, none, some, ◌≡◌, refl, inl, inr, sym, ap, subst, ◌∙◌, arith, ◌==◌, Bool-cases, false,
}
use kvstore_ffi.Prelude.Table.{deref, write, deref-write, weight-le-total}
use kvstore_ffi.Prelude.State.{Returns, bind, mono}
use kvstore_ffi.Text.{Text}
use kvstore_ffi.Memory.{Arcs}
use kvstore_ffi.Memory.Counts.{Keeps, Keeps-trans, Keeps-text}
use kvstore_ffi.Platform.{Platform}
use kvstore_ffi.Http.{Result, ok, err}
use kvstore_ffi.Ffi.State.{Sdk, KvGetResult, KvSetResult, KvStoreClient as BoxedClient}
use kvstore_ffi.Cache.{KvCache}
use kvstore_ffi.Ffi.Books.{Updated}
use kvstore_ffi.Ffi.{fetched, stored}
use kvstore_ffi.Ffi.Get.{fetched_lem, Answers, text_at_ne_null}
use kvstore_ffi.Ffi.Set.{stored_lem, set_result}
use kvstore_ffi.Binding.State.{ValueRef}
use kvstore_ffi.Binding.Ownership.{held, holds, AppInv}
use kvstore_ffi.Async.{
  Shared, pending, value, exception, GetContext, SetContext, Job, asks_get, answered_get, asks_set,
  answered_set, Task, Post, AsyncApp,
}
use kvstore_ffi.Async.Callbacks.{set_settled, set_callback-eq}
use kvstore_ffi.Async.GetCallback.{Delivered, get_callback-Delivered}
use kvstore_ffi.Async.Runtime.{
  release_core, task_finishes, finishes, get_finishes, set_finishes, end_task,
}
use kvstore_ffi.Async.Invariant.{
  get_pointer_of, set_pointer_of, get_pointer, set_pointer, get_promise, set_promise, waits,
  GetLedger, SetLedger, IsCore, AsyncInv, Went,
}
use kvstore_ffi.Async.Entries.{waiting, Entries-settled, Entries-idle}
use kvstore_ffi.Async.Cores.{on_core_lem, Below, AsyncInv-below, cores-Updated, release_core_lem}
use kvstore_ffi.Async.Delivery.{Grown, holding, Arrives-of_result, AsyncInv-delivered}
use kvstore_ffi.Async.Tasks.{task_at-eq}

module _ ⦃P : Platform⦄ where
  -- The state below after a call on the core `c` that changed its cache.
  pub Below-Updated :
      {s : AsyncApp} {t : Sdk} {c : ℕ} {k : BoxedClient} {d : KvCache}
      → Keeps s.app.sdk.arcs t.arcs
      → Updated s.app.sdk c k d t
      → Below s t
  Below-Updated keeps up = record { keeps = keeps; cores = λ c used. cores-Updated up c }

  -- A task whose get was answered, in a state that keeps the invariant, ends: it settles its promise
  -- with an `AsyncValueRef` that has the answer, and frees its context. No other promise or task
  -- changes, no request is made, and the invariant is kept.
  pub task_finishes_get_lem :
      (i : ℕ) (t : Task) (ctx : GetContext) (key : Text) (r : Result Text) (s : AsyncApp)
      → AsyncInv s
      → deref s.tasks i ≡ some t
      → t.job ≡ answered_get key r
      → deref s.get_contexts t.user_data ≡ some ctx
      → Returns (λ _ u. FinishedGet i t.user_data ctx r s u) (task_finishes i s)
  unfolding task_finishes finishes get_finishes set_finishes
  task_finishes_get_lem i t ctx key r s inv e job ec =
      let (k, there) = inv.working i t e in
      let g : get_pointer (some t) ≡ some t.user_data =
        ap (λ j. get_pointer_of j t.user_data) job in
      let w : set_pointer (some t) ≡ none = ap (λ j. set_pointer_of j t.user_data) job in
      let cell =
        waiting (deref s.gets ctx.promise)
          (inv.get_ledger.unsettled t.user_data ctx.promise (ap get_promise ec)) in
      rw (task_at-eq i t s e, job)
        (bind
          (on_core_lem (fetched t.core key r) s
            (fetched_lem {held = held s.app.refs} t.core k key r s.app.sdk inv.inv.books there))
          λ q v ((books, keeps, answers, world, (d, up, learns, _)), refs, clients, post).
            bind
              (get_callback-Delivered t.user_data ctx q v
                (Arrives-of_result ctx.client q s v inv
                  (holding ctx.client q s v.app.sdk (inv.named t.user_data ctx ec) books) keeps
                  (r, answers) refs clients)
                (ap (λ (x : Post). deref x.get_contexts t.user_data) post ∙ ec)
                (ap (λ (x : Post). deref x.gets ctx.promise) post ∙ cell))
              λ _ u d'.
                finish_get i t.user_data t ctx key r q s v u inv e g w ec (Below-Updated keeps up)
                  (_, up.here) refs clients post world answers d')

  -- A set has ended: its promise holds the outcome of the request.
  pub record FinishedSet (i p : ℕ) (ctx : SetContext) (r : Result (Unit {0})) (s u : AsyncApp)
      : Type 0 where
    pub went : Went s u
    pub refs : u.app.refs ≡ s.app.refs
    pub world : u.app.sdk.world ≡ s.app.sdk.world
    pub post : u.post ≡ record s.post {
      sets = write s.sets ctx.promise (some (set_settled (set_result r).error_code));
      set_contexts = write s.set_contexts p none;
      tasks = write s.tasks i none;
    }

  settled_set : (n : ℕ) → waits (some (set_settled n)) ≡ false
  settled_set n = elim (Bool-cases (n == 0)) [ inl e ↦ rw e refl | inr e ↦ rw e refl ]

  -- The invariant after the outcome of a set was delivered.
  set-AsyncInv :
      (i p n : ℕ) (t : Task) (ctx : SetContext) (s : AsyncApp)
      → AsyncInv s
      → deref s.tasks i ≡ some t
      → get_pointer (some t) ≡ none
      → set_pointer (some t) ≡ some p
      → deref s.set_contexts p ≡ some ctx
      → AsyncInv (record s {
        post = record s.post {
          sets = write s.sets ctx.promise (some (set_settled n));
          set_contexts = write s.set_contexts p none;
          tasks = write s.tasks i none;
        };
      })
  set-AsyncInv i p n t ctx s inv et eg ep ec = record {
    inv = inv.inv;
    alone = inv.alone;
    boxed = inv.boxed;
    working = λ j x e. inv.working j x (ground (arith, deref-write s.tasks i j t none et));
    get_ledger =
        Entries-idle get_pointer get_promise s.tasks s.get_contexts s.gets inv.get_ledger i t none
          et (sym eg);
    set_ledger =
        Entries-settled set_pointer set_promise s.tasks s.set_contexts s.sets inv.set_ledger i p
          ctx.promise t ctx (set_settled n) refl refl et ep ec refl (settled_set n);
    named = inv.named;
    owning = inv.owning;
    single = inv.single;
    ready = inv.ready;
    kept = inv.kept;
  }

  -- A task whose set was answered, in a state that keeps the invariant, ends: it settles its promise
  -- with a value where the server took the request, else with a KvStoreException of the code, and
  -- frees its context. No other promise or task changes, and the invariant is kept.
  pub task_finishes_set_lem :
      (i : ℕ) (t : Task) (ctx : SetContext) (key text : Text) (r : Result (Unit {0})) (s : AsyncApp)
      → AsyncInv s
      → deref s.tasks i ≡ some t
      → t.job ≡ answered_set key text r
      → deref s.set_contexts t.user_data ≡ some ctx
      → Returns (λ _ u. FinishedSet i t.user_data ctx r s u) (task_finishes i s)
  unfolding task_finishes finishes get_finishes set_finishes
  task_finishes_set_lem i t ctx key text r s inv e job ec =
      let (k, there) = inv.working i t e in
      let w : set_pointer (some t) ≡ some t.user_data =
        ap (λ j. set_pointer_of j t.user_data) job in
      let g : get_pointer (some t) ≡ none = ap (λ j. get_pointer_of j t.user_data) job in
      rw (task_at-eq i t s e, job)
        (bind
          (on_core_lem (stored t.core key text r) s
            (stored_lem {held = held s.app.refs} t.core k key text r s.app.sdk inv.inv.books there))
          λ q v (wrote, refs, clients, post).
            let n = q.error_code in
            let ec' = ap (λ (x : Post). deref x.set_contexts t.user_data) post ∙ ec in
            let e' = ap (λ (x : Post). deref x.tasks i) post ∙ e in
            let invv =
              AsyncInv-below s v inv wrote.inv (Below-Updated wrote.keeps wrote.updated) refs
                clients post in
            let cell =
              waiting (deref v.sets ctx.promise)
                (invv.set_ledger.unsettled t.user_data ctx.promise (ap set_promise ec')) in
            rw (set_callback-eq t.user_data n ctx v ec' cell) (
              mono
                (end_task_lem i t.core
                  (record v {
                    post = record v.post {
                      sets = write v.sets ctx.promise (some (set_settled n));
                      set_contexts = write v.set_contexts t.user_data none;
                    };
                  })
                  (set-AsyncInv i t.user_data n t ctx v invv e' g w ec') (_, wrote.updated.here))
                λ _ u ((invu, keeps), refs', post', world'). record {
                  went = (invu, Keeps-trans wrote.keeps keeps);
                  refs = refs' ∙ refs;
                  world = world' ∙ wrote.world;
                  post =
                      post'
                      ∙ ap
                          (λ (x : Post). record x {
                            sets = write x.sets ctx.promise (some (set_settled n));
                            set_contexts = write x.set_contexts t.user_data none;
                            tasks = write x.tasks i none;
                          })
                          post
                      ∙ ap
                          (λ (x : KvSetResult). record s.post {
                            sets = write s.sets ctx.promise (some (set_settled x.error_code));
                            set_contexts = write s.set_contexts t.user_data none;
                            tasks = write s.tasks i none;
                          })
                          wrote.answers;
                }))

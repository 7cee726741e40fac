-- ===== src/Async/Finish/Callback.antt =====
-- The end of the task of a get of core-sdk/src/ffi_async.rs: from its callback to the end of its clones.
use kvstore_ffi.Prelude.{
  ℕ, none, some, ◌≡◌, refl, inl, inr, sym, ap, subst, ◌∙◌, arith, ◌==◌, Bool-cases, false,
}
use kvstore_ffi.Prelude.Table.{deref, write, deref-write, weight-le-total}
use kvstore_ffi.Prelude.State.{Returns, mono}
use kvstore_ffi.Text.{Text}
use kvstore_ffi.Memory.{Arcs}
use kvstore_ffi.Memory.Counts.{Keeps, Keeps-trans, Keeps-text}
use kvstore_ffi.Platform.{Platform}
use kvstore_ffi.Http.{Result, ok, err}
use kvstore_ffi.Ffi.State.{KvGetResult}
use kvstore_ffi.Ffi.Get.{Answers, text_at_ne_null}
use kvstore_ffi.Binding.State.{ValueRef}
use kvstore_ffi.Binding.Ownership.{holds, AppInv}
use kvstore_ffi.Async.{
  Shared, pending, value, exception, GetContext, SetContext, Job, asks_get, answered_get, asks_set,
  answered_set, Task, Post, AsyncApp,
}
use kvstore_ffi.Async.GetCallback.{Delivered}
use kvstore_ffi.Async.Runtime.{
  release_core, task_finishes, finishes, get_finishes, set_finishes, end_task,
}
use kvstore_ffi.Async.Invariant.{
  get_pointer, set_pointer, get_promise, set_promise, GetLedger, SetLedger, IsCore, AsyncInv, Went,
}
use kvstore_ffi.Async.Entries.{waiting, Entries-settled, Entries-idle}
use kvstore_ffi.Async.Cores.{Below, release_core_lem}
use kvstore_ffi.Async.Delivery.{Grown, AsyncInv-delivered}

module _ ⦃P : Platform⦄ where
  -- The state in which a task has ended.
  abbrev without : ℕ → AsyncApp → AsyncApp
  without i s = record s { post = record s.post { tasks = write s.tasks i none } }

  pub end_task_lem :
      (i c : ℕ) (s : AsyncApp)
      → AsyncInv (without i s)
      → IsCore s.app.sdk c
      → Returns
          (λ _ t.
            Went s t
            × (t.app.refs ≡ s.app.refs)
            × (t.post ≡ record s.post { tasks = write s.tasks i none })
            × (t.app.sdk.world ≡ s.app.sdk.world))
          (end_task i c s)
  unfolding end_task kvstore_ffi.Async.Runtime.set_task
  end_task_lem i c s inv core = release_core_lem c (without i s) inv core

  -- A text that a live object owns stays.
  pub Answers-Keeps :
      (s : AsyncApp) (a : ℕ) (o : ValueRef) (h : Arcs) (res : Result Text)
      → AppInv s.app
      → deref s.app.refs a ≡ some o
      → ((x : Text) → res ≡ ok x → (o.client == 0) ≡ false)
      → Keeps h s.app.sdk.arcs
      → Answers o.result h res
      → Answers o.result s.app.sdk.arcs res
  Answers-Keeps s a o h (ok v) inv e own keeps q = (
    q.0,
    q.1,
    q.2,
    Keeps-text keeps o.result.arc_handle v q.3 (
        ground (
          arith,
          own v refl,
          inv.books.balance o.result.arc_handle,
          weight-le-total (holds o.result.arc_handle) s.app.refs a o e,
          text_at_ne_null h o.result.arc_handle v q.3,
        )),
  )
  Answers-Keeps s a o h (err code) inv e own keeps q = q

  -- A get has ended: its promise holds an `AsyncValueRef` of the client for the answer.
  pub record FinishedGet (i p : ℕ) (ctx : GetContext) (r : Result Text) (s u : AsyncApp)
      : Type 0 where
    pub went : Went s u
    pub place : ℕ
    pub result : KvGetResult
    pub owner : deref u.app.refs place ≡ some (record { client = ctx.client; result = result })
    pub answers : Answers result u.app.sdk.arcs r
    pub world : u.app.sdk.world ≡ s.app.sdk.world
    pub post : u.post ≡ record s.post {
      gets = write s.gets ctx.promise (some (value place));
      get_contexts = write s.get_contexts p none;
      tasks = write s.tasks i none;
    }

  -- From the callback to the end of the task.
  pub finish_get :
      (i p : ℕ) (t : Task) (ctx : GetContext) (key : Text) (r : Result Text) (q : KvGetResult)
      (s v u : AsyncApp)
      → AsyncInv s
      → deref s.tasks i ≡ some t
      → get_pointer (some t) ≡ some p
      → set_pointer (some t) ≡ none
      → deref s.get_contexts p ≡ some ctx
      → Below s v.app.sdk
      → IsCore v.app.sdk t.core
      → v.app.refs ≡ s.app.refs
      → v.app.clients ≡ s.app.clients
      → v.post ≡ s.post
      → v.app.sdk.world ≡ s.app.sdk.world
      → Answers q v.app.sdk.arcs r
      → Delivered v p ctx q u
      → Returns (λ _ w. FinishedGet i p ctx r s w) (end_task i t.core u)
  finish_get i p t ctx key r q s v u inv et ep es ec below (k, core) refs clients post still answers
        d =
      let same : u.post ≡ record s.post {
        gets = write s.gets ctx.promise (some (value d.place));
        get_contexts = write s.get_contexts p none;
      } =
        d.post
        ∙ ap
            (λ (x : Post). record x {
              gets = write x.gets ctx.promise (some (value d.place));
              get_contexts = write x.get_contexts p none;
            })
            post in
      let final = ap (λ (x : Post). record x { tasks = write x.tasks i none }) same in
      let cell =
        waiting (deref s.gets ctx.promise)
          (inv.get_ledger.unsettled p ctx.promise (ap get_promise ec)) in
      let fin : AsyncInv (without i u) =
        AsyncInv-delivered s v u (without i u) p ctx q inv below refs clients d refl
          (ap (λ (x : Post). x.boxes) final) (ap (λ (x : Post). x.objects) final)
          (subst
            (λ (x : Post). (j : ℕ) (y : Task) → deref x.tasks j ≡ some y → deref s.tasks j ≡ some y)
            (sym final) (λ j y e. ground (arith, deref-write s.tasks i j t none et)))
          (subst (λ (x : Post). GetLedger x.tasks x.get_contexts x.gets) (sym final)
            (Entries-settled get_pointer get_promise s.tasks s.get_contexts s.gets inv.get_ledger i
              p ctx.promise t ctx (value d.place) refl refl et ep ec refl refl))
          (subst (λ (x : Post). SetLedger x.tasks x.set_contexts x.sets) (sym final)
            (Entries-idle set_pointer set_promise s.tasks s.set_contexts s.sets inv.set_ledger i t
              none et (sym es)))
          (subst
            (λ (x : Post).
              (y : ℕ) (c : GetContext)
              → deref x.get_contexts y ≡ some c
              → deref s.get_contexts y ≡ some c)
            (sym final) (λ y c e. ground (arith, deref-write s.get_contexts p y ctx none ec)))
          (subst (λ (x : Post). Grown s.gets ctx.promise d.place x.gets) (sym final)
            (λ b x e. elim (Bool-cases (ctx.promise == b)) [
              | inl here ↦ inl (
                ground arith,
                ground
                    (arith, deref-write s.gets ctx.promise b pending (some (value d.place)) cell),
              )
              | inr other ↦ inr (
                  ground
                    (arith, deref-write s.gets ctx.promise b pending (some (value d.place)) cell))
            ])) in
      mono (end_task_lem i t.core u fin (k, ap (λ x. deref x t.core) d.boxed ∙ core))
        λ _ w ((invw, keeps), refs', post', world').
          let owner = ap (λ x. deref x d.place) refs' ∙ d.owner in
          record {
            went = (invw, Keeps-trans below.keeps (Keeps-trans d.keeps keeps));
            place = d.place;
            result = q;
            owner = owner;
            answers =
                Answers-Keeps w d.place (record { client = ctx.client; result = q }) v.app.sdk.arcs
                  r invw.inv owner (λ _ _. inv.named p ctx ec) (Keeps-trans d.keeps keeps) answers;
            world = world' ∙ d.world ∙ still;
            post = post' ∙ final;
          }

-- ===== src/Async/Gets/Ready.antt =====
-- The ways in which `kv_store_get_async` of core-sdk/src/ffi_async.rs leaves the promise of a get: with
-- its value, or with a task.
use kvstore_ffi.Prelude.{
  ℕ, none, some, ◌≡◌, refl, inl, inr, false, sym, ap, subst, ◌∙◌, arith, ◌+◌, ◌==◌, Bool-cases,
}
use kvstore_ffi.Prelude.Table.{deref, write, alloc, fresh, deref-alloc, deref-alloc_self}
use kvstore_ffi.Prelude.State.{Returns, mono}
use kvstore_ffi.Text.{Text}
use kvstore_ffi.Memory.Counts.{Keeps-trans}
use kvstore_ffi.Platform.{Platform}
use kvstore_ffi.Http.{Result, ok}
use kvstore_ffi.Cache.{KvCache}
use kvstore_ffi.Ffi.State.{KvGetResult, KvStoreClient as BoxedClient}
use kvstore_ffi.Ffi.Books.{Inv}
use kvstore_ffi.Ffi.Get.{Answers}
use kvstore_ffi.Binding.Ownership.{held, holds}
use kvstore_ffi.Async.{pending, value, GetContext, asks_get, Task, Post, AsyncApp, get_callback}
use kvstore_ffi.Async.GetCallback.{get_callback-Delivered}
use kvstore_ffi.Async.Runtime.{box_at}
use kvstore_ffi.Async.Client.{object_at}
use kvstore_ffi.Async.Invariant.{
  get_pointer, set_pointer, get_promise, set_promise, GetLedger, SetLedger, IsCore, AsyncInv, Went,
}
use kvstore_ffi.Async.Entries.{once_more, Entries-immediate, Entries-spawned, Entries-other}
use kvstore_ffi.Async.Cores.{Below}
use kvstore_ffi.Async.Delivery.{Arrives-of_result, AsyncInv-delivered}
use kvstore_ffi.Async.Finish.{Answers-Keeps}

module _ ⦃P : Platform⦄ where
  pub object_at-eq :
      (a p : ℕ) (s : AsyncApp) → deref s.objects a ≡ some p → object_at a s ≡ some (p, s)
  unfolding object_at
  object_at-eq a p s e = rw (object_at, e) refl

  pub box_at-eq : (p c : ℕ) (s : AsyncApp) → deref s.boxes p ≡ some c → box_at p s ≡ some (c, s)
  unfolding box_at
  box_at-eq p c s e = rw (box_at, e) refl

  -- With the new promise and context of a get.
  abbrev pub asking : ℕ → Post → Post
  asking client x = record x {
    gets = alloc x.gets pending;
    get_contexts = alloc x.get_contexts (record { client = client; promise = fresh x.gets });
  }

  -- The future of a get is ready when the call returns.
  pub record ReadyGet (client : ℕ) (res : Result Text) (s u : AsyncApp) : Type 0 where
    pub went : Went s u
    pub place : ℕ
    pub result : KvGetResult
    pub owner : deref u.app.refs place ≡ some (record { client = client; result = result })
    pub answers : Answers result u.app.sdk.arcs res
    pub world : u.app.sdk.world ≡ s.app.sdk.world
    pub post : u.post ≡ record s.post {
      gets = write (alloc s.gets pending) (fresh s.gets) (some (value place));
      get_contexts =
          write
            (alloc s.get_contexts (record { client = client; promise = fresh s.gets }))
            (fresh s.get_contexts)
            none;
    }

  -- The callback is called before the call returns.
  pub at_once :
      (client : ℕ) (res : Result Text) (q : KvGetResult) (s v : AsyncApp)
      → AsyncInv s
      → Below s v.app.sdk
      → v.app.sdk.world ≡ s.app.sdk.world
      → v.app.refs ≡ s.app.refs
      → v.app.clients ≡ s.app.clients
      → v.post ≡ asking client s.post
      → Inv (λ b. held s.app.refs b + holds b (record { client = client; result = q })) v.app.sdk
      → Answers q v.app.sdk.arcs res
      → ((x : Text) → res ≡ ok x → (client == 0) ≡ false)
      → Returns (λ _ u. ReadyGet client res s u) (get_callback (fresh s.get_contexts) q v)
  at_once client res q s v inv below world refs clients post books answers own =
      let ctx : GetContext = record { client = client; promise = fresh s.gets } in
      let p = fresh s.get_contexts in
      mono
        (get_callback-Delivered p ctx q v
          (Arrives-of_result client q s v inv books below.keeps (res, answers) refs clients)
          (ap (λ (x : Post). deref x.get_contexts p) post ∙ deref-alloc_self s.get_contexts ctx)
          (ap (λ (x : Post). deref x.gets ctx.promise) post ∙ deref-alloc_self s.gets pending))
        λ _ u d.
          let final =
            d.post
            ∙ ap
                (λ (x : Post). record x {
                  gets = write x.gets ctx.promise (some (value d.place));
                  get_contexts = write x.get_contexts p none;
                })
                post in
          let invu =
            AsyncInv-delivered s v u u p ctx q inv below refs clients d refl
              (ap (λ (x : Post). x.boxes) final) (ap (λ (x : Post). x.objects) final)
              (λ j y e. ap (λ (x : Post). deref x.tasks j) (sym final) ∙ e)
              (subst (λ (x : Post). GetLedger x.tasks x.get_contexts x.gets) (sym final)
                (Entries-immediate get_pointer get_promise s.tasks s.get_contexts s.gets
                  inv.get_ledger ctx (value d.place) refl refl))
              (subst (λ (x : Post). SetLedger x.tasks x.set_contexts x.sets) (sym final)
                inv.set_ledger)
              (λ y c e. ground (
                arith,
                ap (λ (x : Post). deref x.get_contexts y) (sym final) ∙ e,
                once_more (λ x. x) s.get_contexts ctx none y,
              ))
              (λ b x e. elim (Bool-cases (ctx.promise == b)) [
                | inl here ↦ inl (
                  ground arith,
                  ground (
                    arith,
                    ap (λ (x : Post). deref x.gets b) (sym final) ∙ e,
                    once_more (λ x. x) s.gets pending (some (value d.place)) b,
                  ),
                )
                | inr other ↦ inr (
                    ground (
                      arith,
                      ap (λ (x : Post). deref x.gets b) (sym final) ∙ e,
                      once_more (λ x. x) s.gets pending (some (value d.place)) b,
                    ))
              ]) in
          record {
            went = (invu, Keeps-trans below.keeps d.keeps);
            place = d.place;
            result = q;
            owner = d.owner;
            answers =
                Answers-Keeps u d.place (record { client = client; result = q }) v.app.sdk.arcs res
                  invu.inv d.owner own d.keeps answers;
            world = d.world ∙ world;
            post = final;
          }

  -- A task for the get is on its way when the call returns.
  pub record SpawnedGet (client c : ℕ) (k : BoxedClient) (key : Text) (s u : AsyncApp)
      : Type 0 where
    pub went : Went s u
    pub world : u.app.sdk.world ≡ s.app.sdk.world
    pub cache : KvCache
    pub core : deref u.app.sdk.clients c ≡ some (record k { cache = cache })
    pub refs : u.app.refs ≡ s.app.refs
    pub post : u.post ≡ record (asking client s.post) {
      tasks =
          alloc s.tasks (record { core = c; job = asks_get key; user_data = fresh s.get_contexts });
    }

  -- The invariant with one more get on its way.
  pub get-AsyncInv :
      (client c : ℕ) (key : Text) (s : AsyncApp)
      → AsyncInv s
      → (client == 0) ≡ false
      → IsCore s.app.sdk c
      → AsyncInv (record s {
        post = record (asking client s.post) {
          tasks =
              alloc s.tasks
                (record { core = c; job = asks_get key; user_data = fresh s.get_contexts });
        };
      })
  get-AsyncInv client c key s inv own core =
      let t : Task = record { core = c; job = asks_get key; user_data = fresh s.get_contexts } in
      let ctx : GetContext = record { client = client; promise = fresh s.gets } in
      record {
        inv = inv.inv;
        alone = inv.alone;
        boxed = inv.boxed;
        working = λ j x e. elim (Bool-cases (fresh s.tasks == j)) [
          | inl here ↦
              let same : t ≡ x = ground (arith, deref-alloc s.tasks j t) in
              subst (λ (y : Task). IsCore s.app.sdk y.core) same core
          | inr other ↦ inv.working j x (ground (arith, deref-alloc s.tasks j t))
        ];
        get_ledger =
            Entries-spawned get_pointer get_promise s.tasks s.get_contexts s.gets inv.get_ledger t
              ctx refl refl refl refl;
        set_ledger =
            Entries-other set_pointer set_promise s.tasks s.set_contexts s.sets inv.set_ledger t
              refl refl;
        named = λ q x e. elim (Bool-cases (fresh s.get_contexts == q)) [
          | inl here ↦
              let same : ctx ≡ x = ground (arith, deref-alloc s.get_contexts q ctx) in
              subst (λ (y : GetContext). (y.client == 0) ≡ false) same own
          | inr other ↦ inv.named q x (ground (arith, deref-alloc s.get_contexts q ctx))
        ];
        owning = inv.owning;
        single = inv.single;
        ready = λ b v e. inv.ready b v (ground (arith, deref-alloc s.gets b pending));
        kept = λ b b' v e f.
            inv.kept b b' v (ground (arith, deref-alloc s.gets b pending))
              (ground (arith, deref-alloc s.gets b' pending));
      }

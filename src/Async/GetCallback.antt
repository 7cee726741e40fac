-- ===== src/Async/GetCallback.antt =====
-- bindings/cpp/include/kv_store_async.hpp: `get_callback` and its promise.
use kvstore_ffi.Prelude.{
  ℕ, suc, ◌==◌, if◌then◌else◌, ◌+◌, ◌≡◌, refl, none, some, arith, sym, ap, ◌∙◌, subst,
}
use kvstore_ffi.Memory.Counts.{Keeps}
use kvstore_ffi.Prelude.Table.{
  Table, deref-beyond, deref-write, deref-alloc, deref-fresh, fresh-alloc, deref, write, alloc,
  fresh, deref-write_self, deref-alloc_self, lt_fresh, fresh-write,
}
use kvstore_ffi.Prelude.State.{Run, Returns, returns, bind, mono}
use kvstore_ffi.Platform.{Platform}
use kvstore_ffi.Ffi.State.{KvGetResult}
use kvstore_ffi.Ffi.Books.{Inv}
use kvstore_ffi.Binding.State.{ValueRef, App, value_ref_new}
use kvstore_ffi.Binding.Ownership.{
  holds, held, IsSound, AllSound, AllLive, AllApart, AppInv, value_ref_new_lem,
}
use kvstore_ffi.Binding.Moves.{Ended, value_ref_move_lem, value_ref_destroy_lem}
use kvstore_ffi.Async.{
  pending, value, GetContext, Post, AsyncApp, on_app, async_value_ref_destroy, async_value_ref_move,
  get_context_at, delete_get_context, set_get_value, get_callback,
}
use kvstore_ffi.Async.Callbacks.{async_value_ref_lem}

module _ ⦃P : Platform⦄ where
  -- The state in which a result is on its way to the callback: nobody holds its reference yet.
  pub record Arrives (client : ℕ) (r : KvGetResult) (s : App) : Type 0 where
    pub books : Inv (λ b. held s.refs b + holds b (record { client = client; result = r })) s.sdk
    pub sound : AllSound s.sdk.arcs s.refs
    pub good : IsSound s.sdk.arcs r
    pub live : AllLive s.clients s.sdk
    pub apart : AllApart s.clients

  pub on_app_lem :
      {A : Type 0} {Q : A → App → Type 0} (m : Run App A) (s : AsyncApp)
      → Returns Q (m s.app)
      → Returns (λ a t. Q a t.app × (t.post ≡ s.post)) (on_app m s)
  unfolding on_app
  on_app_lem m s r = bind r λ a t q. returns (q, refl)

  get_context_at-eq :
      (p : ℕ) (ctx : GetContext) (s : AsyncApp)
      → deref s.get_contexts p ≡ some ctx
      → get_context_at p s ≡ some (ctx, s)
  unfolding get_context_at
  get_context_at-eq p ctx s e = rw (get_context_at, e) refl

  no_context :
      (p : ℕ) (r : KvGetResult) (s : AsyncApp)
      → deref s.get_contexts p ≡ none
      → get_callback p r s ≡ none
  unfolding get_callback get_context_at
  no_context p r s e = rw (get_context_at, e) refl

  -- `AsyncValueRef` moves and ends as `ValueRef` does.
  abbrev pub Moved : App → ℕ → ValueRef → ℕ → App → Type 0
  Moved s a o b t =
      AppInv t
      × (t.sdk ≡ s.sdk)
      × (t.clients ≡ s.clients)
      × (b ≡ fresh s.refs)
      × (t.refs ≡ alloc (write s.refs a (some (record o { client = 0 }))) o)

  pub async_value_ref_move_lem :
      (a : ℕ) (o : ValueRef) (s : App)
      → AppInv s
      → deref s.refs a ≡ some o
      → Returns (Moved s a o) (async_value_ref_move a s)
  async_value_ref_move_lem a o s i e =
      subst (Returns (Moved s a o)) (sym (async_value_ref_lem a a s).1)
        (value_ref_move_lem a o s i e)

  pub async_value_ref_destroy_lem :
      (a : ℕ) (o : ValueRef) (s : App)
      → AppInv s
      → deref s.refs a ≡ some o
      → Returns (λ _ t. Ended s a t) (async_value_ref_destroy a s)
  async_value_ref_destroy_lem a o s i e =
      subst (Returns (λ _ t. Ended s a t)) (sym (async_value_ref_lem a a s).0)
        (value_ref_destroy_lem a o s i e)

  -- What `set_value` leaves: the value moved to a new object, the old one owning nothing.
  record Settled (s : AsyncApp) (a r : ℕ) (o : ValueRef) (t : AsyncApp) : Type 0 where
    inv : AppInv t.app
    sdk : t.app.sdk ≡ s.app.sdk
    clients : t.app.clients ≡ s.app.clients
    place : ℕ
    new : place ≡ fresh s.app.refs
    refs : t.app.refs ≡ alloc (write s.app.refs r (some (record o { client = 0 }))) o
    post : t.post ≡ record s.post { gets = write s.gets a (some (value place)) }

  set_get_value_lem :
      (a r : ℕ) (o : ValueRef) (s : AsyncApp)
      → AppInv s.app
      → deref s.app.refs r ≡ some o
      → deref s.gets a ≡ some pending
      → Returns (λ _ t. Settled s a r o t) (set_get_value a r s)
  unfolding set_get_value
  set_get_value_lem a r o s i e q =
      rw (set_get_value, q)
        (bind (on_app_lem (async_value_ref_move r) s (async_value_ref_move_lem r o s.app i e))
          λ v t ((it, sdk, objects, place, refs), post). returns (record {
            inv = it;
            sdk = sdk;
            clients = objects;
            place = v;
            new = place;
            refs = refs;
            post = ap (λ (x : Post). record x { gets = write x.gets a (some (value v)) }) post;
          }))

  -- What `get_callback` leaves: the heap and the other objects as they were, one new object that owns
  -- the result, the promise settled with it and the context freed.
  pub record Delivered (s : AsyncApp) (p : ℕ) (ctx : GetContext) (r : KvGetResult) (t : AsyncApp)
      : Type 0 where
    pub inv : AppInv t.app
    pub keeps : Keeps s.app.sdk.arcs t.app.sdk.arcs
    pub boxed : t.app.sdk.clients ≡ s.app.sdk.clients
    pub world : t.app.sdk.world ≡ s.app.sdk.world
    pub clients : t.app.clients ≡ s.app.clients
    pub place : ℕ
    pub new : deref s.app.refs place ≡ none
    pub owner : deref t.app.refs place ≡ some (record { client = ctx.client; result = r })
    pub others : (b : ℕ) (o : ValueRef) → deref s.app.refs b ≡ some o → deref t.app.refs b ≡ some o
    pub post : t.post ≡ record s.post {
      gets = write s.gets ctx.promise (some (value place));
      get_contexts = write s.get_contexts p none;
    }

  -- The table of the objects on the way: one made, moved from and ended, the other kept.
  moved_from :
      (refs : Table ValueRef) (o gone : ValueRef) (a : ℕ)
      → a ≡ fresh refs
      → deref (alloc (write (alloc refs o) a (some gone)) o) a ≡ some gone
  moved_from refs o gone a ea =
      let t1 = alloc refs o in
      let e1 : deref t1 a ≡ some o = rw ea (deref-alloc_self refs o) in
      let f2 = fresh-write t1 a (some gone) in
      let f1 = fresh-alloc refs o in
      ground
        (arith, deref-alloc (write t1 a (some gone)) a o, deref-write_self t1 a o (some gone) e1)

  refs_after :
      (refs : Table ValueRef) (o gone : ValueRef) (a v b : ℕ)
      → a ≡ fresh refs
      → v ≡ fresh (alloc refs o)
      → deref (write (alloc (write (alloc refs o) a (some gone)) o) a none) b
        ≡ (if v == b then some o else deref refs b)
  refs_after refs o gone a v b ea ev =
      let t1 = alloc refs o in
      let t2 = write t1 a (some gone) in
      let e1 : deref t1 a ≡ some o = rw ea (deref-alloc_self refs o) in
      let f2 : fresh t2 ≡ v = fresh-write t1 a (some gone) ∙ sym ev in
      let f1 : v ≡ suc a = ev ∙ fresh-alloc refs o ∙ ap suc (sym ea) in
      ground (
        arith,
        deref-write (alloc t2 o) a b gone none (moved_from refs o gone a ea),
        deref-alloc t2 b o,
        deref-write t1 a b o (some gone) e1,
        deref-alloc refs b o,
        deref-fresh refs,
      )

  delivered :
      (p : ℕ) (ctx : GetContext) (r : KvGetResult) (s t u w : AsyncApp) (a : ℕ)
      → (t.app.sdk ≡ s.app.sdk)
        × (t.app.clients ≡ s.app.clients)
        × (a ≡ fresh s.app.refs)
        × (t.app.refs ≡ alloc s.app.refs (record { client = ctx.client; result = r }))
        × (t.post ≡ s.post)
      → Settled t ctx.promise a (record { client = ctx.client; result = r }) u
      → Ended u.app a w.app
      → w.post ≡ u.post
      → Delivered s p ctx r
          (record w { post = record w.post { get_contexts = write w.get_contexts p none } })
  delivered p ctx r s t u w a (sdk, objects, place, refs, post) settled ended post' =
      let o : ValueRef = record { client = ctx.client; result = r } in
      let gone : ValueRef = record o { client = 0 } in
      let all : (b : ℕ)
          → deref w.app.refs b ≡ (if settled.place == b then some o else deref s.app.refs b) =
        λ b.
          rw (ended.refs, settled.refs, refs)
            (refs_after s.app.refs o gone a settled.place b place (settled.new ∙ ap fresh refs)) in
      let far : suc (fresh s.app.refs) ≡ settled.place =
        sym (settled.new ∙ ap fresh refs ∙ fresh-alloc s.app.refs o) in
      record {
        inv = ended.inv;
        keeps = subst (λ x. Keeps x.arcs w.app.sdk.arcs) (settled.sdk ∙ sdk) ended.keeps;
        boxed = ended.boxed ∙ ap (λ x. x.clients) (settled.sdk ∙ sdk);
        world = ended.world ∙ ap (λ x. x.world) (settled.sdk ∙ sdk);
        clients = ended.clients ∙ settled.clients ∙ objects;
        place = settled.place;
        new = deref-beyond s.app.refs settled.place (omega arith);
        owner = ground (arith, all settled.place);
        others = λ b x e. ground (arith, all b, e, lt_fresh s.app.refs b x e);
        post =
            ap (λ (x : Post). record x { get_contexts = write x.get_contexts p none })
              (post'
                ∙ settled.post
                ∙ ap
                    (λ (x : Post). record x {
                      gets = write x.gets ctx.promise (some (value settled.place));
                    })
                    post);
      }

  pub get_callback-Delivered :
      (p : ℕ) (ctx : GetContext) (r : KvGetResult) (s : AsyncApp)
      → Arrives ctx.client r s.app
      → deref s.get_contexts p ≡ some ctx
      → deref s.gets ctx.promise ≡ some pending
      → Returns (λ _ t. Delivered s p ctx r t) (get_callback p r s)
  unfolding get_callback delete_get_context
  get_callback-Delivered p ctx r s arrives e q =
      let o : ValueRef = record { client = ctx.client; result = r } in
      let gone : ValueRef = record o { client = 0 } in
      rw (get_context_at-eq p ctx s e) (
        bind
          (on_app_lem (value_ref_new ctx.client r) s (
            value_ref_new_lem ctx.client r s.app arrives.books arrives.sound (λ _. arrives.good)
              arrives.live arrives.apart))
          λ a t ((it, sdk, objects, place, refs), post).
            bind
              (set_get_value_lem ctx.promise a o t it
                (rw (refs, place) (deref-alloc_self s.app.refs o))
                (ap (λ x. deref x.gets ctx.promise) post ∙ q))
              λ _ u settled.
                bind
                  (on_app_lem (async_value_ref_destroy a) u (
                    async_value_ref_destroy_lem a gone u.app settled.inv
                      (rw (settled.refs, refs) (moved_from s.app.refs o gone a place))))
                  λ _ w (ended, post'). returns (
                    delivered p ctx r s t u w a (sdk, objects, place, refs, post) settled ended
                      post'))

  -- `get_callback` with a live context and a pending promise, where the reference of the result
  -- is nobody else's, settles the promise with one `AsyncValueRef` of the client and the result,
  -- and keeps the invariant. The context is freed, so that a second call is an access to freed
  -- memory.
  pub get_callback_lem :
      (p : ℕ) (ctx : GetContext) (r : KvGetResult) (s : AsyncApp)
      → Arrives ctx.client r s.app
      → deref s.get_contexts p ≡ some ctx
      → deref s.gets ctx.promise ≡ some pending
      → Returns
          (λ _ t.
            AppInv t.app
            × ((v : ℕ) × (deref t.gets ctx.promise ≡ some (value v))
                × (deref t.app.refs v ≡ some (record { client = ctx.client; result = r })))
            × (deref t.get_contexts p ≡ none)
            × (t.sets ≡ s.sets)
            × ((q : KvGetResult) → get_callback p q t ≡ none))
          (get_callback p r s)
  get_callback_lem p ctx r s arrives e q =
      mono (get_callback-Delivered p ctx r s arrives e q) λ _ t d.
        let freed : deref t.get_contexts p ≡ none =
          ap (λ (x : Post). deref x.get_contexts p) d.post
          ∙ deref-write_self s.get_contexts p ctx none e in
        (
          d.inv,
          (
            d.place,
            ap (λ (x : Post). deref x.gets ctx.promise) d.post
                ∙ deref-write_self s.gets ctx.promise pending (some (value d.place)) q,
            d.owner,
          ),
          freed,
          ap (λ (x : Post). x.sets) d.post,
          λ x. no_context p x t freed,
        )

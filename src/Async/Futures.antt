-- ===== src/Async/Futures.antt =====
-- The futures of bindings/cpp/include/kv_store_async.hpp: what `get()` gives.
pub mod Values
pub use Values.{Taken, take_value_lem}
use kvstore_ffi.Prelude.{
  ℕ, none, some, ◌≡◌, ◌≢◌, refl, inl, inr, false, sym, ap, subst, ◌∙◌, arith, ◌==◌, if◌then◌else◌,
  Bool-cases,
}
use kvstore_ffi.Prelude.Table.{
  Table, deref, write, alloc, fresh, deref-write, deref-alloc, deref-write_self, deref-fresh,
  fresh-write, lt_fresh,
}
use kvstore_ffi.Prelude.State.{Returns, returns, bind, mono}
use kvstore_ffi.Memory.Counts.{Keeps, Keeps-refl}
use kvstore_ffi.Platform.{Platform}
use kvstore_ffi.Binding.State.{ValueRef, App, Outcome, returned}
use kvstore_ffi.Binding.Ownership.{AppInv}
use kvstore_ffi.Async.{
  Shared, pending, value, exception, Post, AsyncApp, on_app, async_value_ref_destroy,
}
use kvstore_ffi.Async.GetCallback.{
  on_app_lem, async_value_ref_move_lem, async_value_ref_destroy_lem,
}
use kvstore_ffi.Async.Client.{Wait, blocked, done, take_value, take_ref}
use kvstore_ffi.Async.Invariant.{get_pointer, get_promise, waits, IsCore, AsyncInv, Went}
use kvstore_ffi.Async.Entries.{Entries-taken}

module _ ⦃P : Platform⦄ where
  -- After a change of the objects that leaves those in the shared states.
  pub AsyncInv-refs :
      (s t : AsyncApp)
      → AsyncInv s
      → AppInv t.app
      → t.app.sdk.clients ≡ s.app.sdk.clients
      → t.app.clients ≡ s.app.clients
      → t.post ≡ s.post
      → ((a v : ℕ)
          → deref s.gets a ≡ some (value v)
          → (o : ValueRef) × (deref t.app.refs v ≡ some o))
      → AsyncInv t
  AsyncInv-refs s t i inv boxed clients post ready =
      let core : (c : ℕ) → IsCore s.app.sdk c → IsCore t.app.sdk c =
        λ c (k, e). (k, ap (λ x. deref x c) boxed ∙ e) in
      record {
        inv = inv;
        alone = rw clients i.alone;
        boxed = rw post λ b c e. core c (i.boxed b c e);
        working = rw post λ j x e. core x.core (i.working j x e);
        get_ledger = rw post i.get_ledger;
        set_ledger = rw post i.set_ledger;
        named = rw post i.named;
        owning = rw post i.owning;
        single = rw post i.single;
        ready = rw post ready;
        kept = rw post i.kept;
      }

  -- The object is in no shared state.
  abbrev pub IsFree : ℕ → AsyncApp → Type 0
  IsFree r s = (a : ℕ) → deref s.gets a ≢ some (value r)

  -- `~AsyncValueRef()` of a live object outside the shared states.
  pub free_destroy_lem :
      (r : ℕ) (o : ValueRef) (s : AsyncApp)
      → AsyncInv s
      → deref s.app.refs r ≡ some o
      → IsFree r s
      → Returns
          (λ _ t. Went s t × (t.post ≡ s.post) × (t.app.sdk.world ≡ s.app.sdk.world))
          (on_app (async_value_ref_destroy r) s)
  free_destroy_lem r o s i e free =
      mono
        (on_app_lem (async_value_ref_destroy r) s (async_value_ref_destroy_lem r o s.app i.inv e))
        λ _ t (ended, post). (
          (
            AsyncInv-refs s t i ended.inv ended.boxed ended.clients post λ a v q.
                let (x, there) = i.ready a v q in
                elim (Bool-cases (r == v)) [
                  | inl here ↦ absurd (free a (ground (arith, q)))
                  | inr other ↦ (
                    x,
                    ground (
                      arith,
                      ap (λ y. deref y v) ended.refs,
                      deref-write s.app.refs r v o none e,
                    ),
                  )
                ],
            ended.keeps,
          ),
          post,
          ended.world,
        )

  -- After a settled promise was taken.
  taken-AsyncInv :
      (f : ℕ) (c : Shared ℕ) (s : AsyncApp)
      → AsyncInv s
      → deref s.gets f ≡ some c
      → waits (some c) ≡ false
      → (t : AsyncApp) → AppInv t.app
      → t.app.sdk.clients ≡ s.app.sdk.clients
      → t.app.clients ≡ s.app.clients
      → t.post ≡ record s.post { gets = write s.gets f none }
      → ((a v : ℕ)
          → f ≢ a
          → deref s.gets a ≡ some (value v)
          → (o : ValueRef) × (deref t.app.refs v ≡ some o))
      → AsyncInv t
  taken-AsyncInv f c s i e w t inv boxed clients post ready =
      let core : (d : ℕ) → IsCore s.app.sdk d → IsCore t.app.sdk d =
        λ d (k, q). (k, ap (λ x. deref x d) boxed ∙ q) in
      let left : (a v : ℕ)
          → deref (write s.gets f none) a ≡ some (value v)
          → (f ≢ a) × (deref s.gets a ≡ some (value v)) =
        λ a v q. (
          ground (arith, deref-write s.gets f a c none e),
          ground (arith, deref-write s.gets f a c none e),
        ) in
      record {
        inv = inv;
        alone = rw clients i.alone;
        boxed = rw post λ b d q. core d (i.boxed b d q);
        working = rw post λ j x q. core x.core (i.working j x q);
        get_ledger = rw post (
            Entries-taken get_pointer get_promise s.tasks s.get_contexts s.gets i.get_ledger f c e
              w);
        set_ledger = rw post i.set_ledger;
        named = rw post i.named;
        owning = rw post i.owning;
        single = rw post i.single;
        ready = rw post λ a v q. let (n, old) = left a v q in ready a v n old;
        kept = rw post λ a b v q q'. i.kept a b v (left a v q).1 (left b v q').1;
      }

  -- What `get()` of the future of a get leaves: its object at a new place, and no shared state.
  pub record TookRef (f : ℕ) (o : ValueRef) (s : AsyncApp) (out : Wait (Outcome ℕ)) (u : AsyncApp)
      : Type 0 where
    pub went : Went s u
    pub place : ℕ
    pub given : out ≡ done (returned place)
    pub here : deref u.app.refs place ≡ some o
    pub free : IsFree place u
    pub world : u.app.sdk.world ≡ s.app.sdk.world
    pub post : u.post ≡ record s.post { gets = write s.gets f none }

  -- `get()` of a future of `GetRefAsync` whose promise has its value moves the `AsyncValueRef` out
  -- to a new object, in a state that keeps the invariant, and keeps it.
  pub take_ref_lem :
      (f v : ℕ) (o : ValueRef) (s : AsyncApp)
      → AsyncInv s
      → deref s.gets f ≡ some (value v)
      → deref s.app.refs v ≡ some o
      → Returns (λ out u. TookRef f o s out u) (take_ref f s)
  unfolding take_ref
  take_ref_lem f v o s i e there =
      rw (take_ref, e)
        (bind (on_app_lem (take_value v) s (take_value_lem v o s.app i.inv there))
          λ r t (taken, post).
            let final = ap (λ (x : Post). record x { gets = write x.gets f none }) post in
            returns (record {
              went = (
                taken-AsyncInv f (value v) s i e refl
                    (record t { post = record t.post { gets = write t.gets f none } }) taken.inv
                    taken.boxed taken.clients final
                    (λ a w n q.
                      let (x, old) = i.ready a w q in
                      (
                        x,
                        taken.others w x (λ same. n (i.kept f a v e (ground (arith, same, q)))) old,
                      )),
                taken.keeps,
              );
              place = r;
              given = refl;
              here = taken.here;
              free = λ a q.
                  let old : deref s.gets a ≡ some (value r) = ground (
                    arith,
                    ap (λ (x : Post). deref x.gets a) final,
                    q,
                    deref-write s.gets f a (value v) none e,
                  ) in
                  let (x, there') = i.ready a r old in ground (arith, taken.new, there');
              world = taken.world;
              post = final;
            }))

  -- `get()` blocks while the promise is pending, and changes nothing.
  pub take_ref-pending :
      (f : ℕ) (s : AsyncApp) → deref s.gets f ≡ some pending → take_ref f s ≡ some (blocked, s)
  unfolding take_ref
  take_ref-pending f s e = rw (take_ref, e) refl

  -- `get()` of a future in a state that keeps the invariant does not fault, and keeps it.
  pub take_ref-Went :
      (f : ℕ) (c : Shared ℕ) (s : AsyncApp)
      → AsyncInv s
      → deref s.gets f ≡ some c
      → Returns (λ _ u. Went s u) (take_ref f s)
  unfolding take_ref
  take_ref-Went f pending s i e = rw (take_ref, e) (returns (i, Keeps-refl s.app.sdk.arcs))
  take_ref-Went f (value v) s i e =
      let (o, there) = i.ready f v e in mono (take_ref_lem f v o s i e there) λ _ u took. took.went
  take_ref-Went f (exception x) s i e =
      rw (take_ref, e)
        (returns (
          taken-AsyncInv f (exception x) s i e refl
              (record s { post = record s.post { gets = write s.gets f none } }) i.inv refl refl
              refl (λ a v n q. i.ready a v q),
          Keeps-refl s.app.sdk.arcs,
        ))

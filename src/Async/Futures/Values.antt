-- ===== src/Async/Futures/Values.antt =====
-- The value of a future of bindings/cpp/include/kv_store_async.hpp on its way out of the shared state.
use kvstore_ffi.Prelude.{ℕ, none, some, ◌≡◌, ◌≢◌, sym, ap, subst, ◌∙◌, arith, ◌==◌, if◌then◌else◌}
use kvstore_ffi.Prelude.Table.{
  Table, deref, write, alloc, fresh, deref-write, deref-alloc, deref-write_self, deref-fresh,
  fresh-write, lt_fresh,
}
use kvstore_ffi.Prelude.State.{Returns, returns, bind}
use kvstore_ffi.Memory.Counts.{Keeps}
use kvstore_ffi.Platform.{Platform}
use kvstore_ffi.Binding.State.{ValueRef, App}
use kvstore_ffi.Binding.Ownership.{AppInv}
use kvstore_ffi.Async.GetCallback.{async_value_ref_move_lem, async_value_ref_destroy_lem}
use kvstore_ffi.Async.Client.{take_value}

module _ ⦃P : Platform⦄ where
  -- What `take_value` leaves: the object at a new place, and nothing at the old one.
  pub record Taken (s : App) (v : ℕ) (o : ValueRef) (r : ℕ) (t : App) : Type 0 where
    pub inv : AppInv t
    pub keeps : Keeps s.sdk.arcs t.sdk.arcs
    pub boxed : t.sdk.clients ≡ s.sdk.clients
    pub world : t.sdk.world ≡ s.sdk.world
    pub clients : t.clients ≡ s.clients
    pub new : deref s.refs r ≡ none
    pub here : deref t.refs r ≡ some o
    pub others : (b : ℕ) (x : ValueRef) → v ≢ b → deref s.refs b ≡ some x → deref t.refs b ≡ some x

  taken_refs :
      (refs : Table ValueRef) (v r b : ℕ) (o gone : ValueRef)
      → deref refs v ≡ some o
      → r ≡ fresh refs
      → deref (write (alloc (write refs v (some gone)) o) v none) b
        ≡ (if v == b then none else if r == b then some o else deref refs b)
  taken_refs refs v r b o gone e er =
      let t1 = write refs v (some gone) in
      let f1 : fresh t1 ≡ r = fresh-write refs v (some gone) ∙ sym er in
      let l = lt_fresh refs v o e in
      let e2 : deref (alloc t1 o) v ≡ some gone =
        ground (arith, deref-alloc t1 v o, deref-write_self refs v o (some gone) e) in
      ground (
        arith,
        deref-write (alloc t1 o) v b gone none e2,
        deref-alloc t1 b o,
        deref-write refs v b o (some gone) e,
      )

  pub take_value_lem :
      (v : ℕ) (o : ValueRef) (s : App)
      → AppInv s
      → deref s.refs v ≡ some o
      → Returns (λ r t. Taken s v o r t) (take_value v s)
  unfolding take_value
  take_value_lem v o s inv e =
      let gone : ValueRef = record o { client = 0 } in
      let l = lt_fresh s.refs v o e in
      bind (async_value_ref_move_lem v o s inv e) λ r t (it, sdk, clients, place, refs).
        let f1 : fresh (write s.refs v (some gone)) ≡ r =
          fresh-write s.refs v (some gone) ∙ sym place in
        let there : deref t.refs v ≡ some gone = ground (
          arith,
          ap (λ x. deref x v) refs,
          deref-alloc (write s.refs v (some gone)) v o,
          deref-write_self s.refs v o (some gone) e,
        ) in
        bind (async_value_ref_destroy_lem v gone t it there) λ _ u ended.
          let all = λ (b : ℕ).
            ap (λ x. deref x b) ended.refs
            ∙ ap (λ x. deref (write x v none) b) refs
            ∙ taken_refs s.refs v r b o gone e place in
          returns (record {
            inv = ended.inv;
            keeps = subst (λ x. Keeps x.arcs u.sdk.arcs) sdk ended.keeps;
            boxed = ended.boxed ∙ ap (λ x. x.clients) sdk;
            world = ended.world ∙ ap (λ x. x.world) sdk;
            clients = ended.clients ∙ clients;
            new = ap (deref s.refs) place ∙ deref-fresh s.refs;
            here = ground (arith, all r);
            others = λ b x n q. ground (arith, all b, lt_fresh s.refs b x q);
          })

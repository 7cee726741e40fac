-- ===== src/Async/Objects/Boxes.antt =====
-- `kv_store_async_destroy` of core-sdk/src/ffi_async.rs, and the objects of the wrapper while one hands
-- its boxed client over.
use kvstore_ffi.Prelude.{
  ℕ, zero, suc, Option, none, some, [], ◌≡◌, ◌≢◌, ◌⊎◌, refl, inl, inr, true, false, sym, ap, subst,
  ◌∙◌, arith, ◌==◌, ==_iff, if◌then◌else◌, Bool-cases, Option-cases,
}
use kvstore_ffi.Prelude.Table.{
  Table, deref, write, alloc, fresh, deref-write, deref-alloc, deref-fresh, deref-alloc_self,
  fresh-write, lt_fresh, deref_ne_null, deref-write_self, deref-write_ne, write_comm, write-twice,
}
use kvstore_ffi.Prelude.State.{and_then, Returns, returns, bind}
use kvstore_ffi.Memory.Counts.{Keeps}
use kvstore_ffi.Platform.{Platform}
use kvstore_ffi.Ffi.{drop_client}
use kvstore_ffi.Binding.State.{on_sdk}
use kvstore_ffi.Async.{Post, AsyncApp, on_app}
use kvstore_ffi.Async.Runtime.{on_core, drop_box, sharers, release_core, kv_store_async_destroy}
use kvstore_ffi.Async.Invariant.{AsyncInv}
use kvstore_ffi.Async.Owners.{Owners, Owners-less, Owners-set}
use kvstore_ffi.Async.Cores.{release_core_lem}
use kvstore_ffi.Async.Gets.{box_at-eq}

module _ ⦃P : Platform⦄ where
  abbrev pub with_objects : Table ℕ → AsyncApp → AsyncApp
  with_objects x s = record s { post = record s.post { objects = x } }

  pub Owners-AsyncInv : (s : AsyncApp) → AsyncInv s → Owners s.objects s.boxes
  Owners-AsyncInv s i = record { owning = i.owning; single = i.single }

  pub AsyncInv-with :
      (x y : Table ℕ) (s : AsyncApp)
      → AsyncInv (with_objects x s)
      → Owners y s.boxes
      → AsyncInv (with_objects y s)
  AsyncInv-with x y s i o = record {
    inv = i.inv;
    alone = i.alone;
    boxed = i.boxed;
    working = i.working;
    get_ledger = i.get_ledger;
    set_ledger = i.set_ledger;
    named = i.named;
    owning = o.owning;
    single = o.single;
    ready = i.ready;
    kept = i.kept;
  }

  -- The end of a core does not look at the objects.
  release_core-objects :
      (c : ℕ) (s : AsyncApp)
      → release_core c s
        ≡ and_then (release_core c (with_objects [] s)) (λ a t. some (a, with_objects s.objects t))
  unfolding release_core on_core on_app on_sdk
  release_core-objects c s = elim (Bool-cases (sharers c s == 0)) [
    | inr shared ↦ rw shared refl
    | inl last ↦ elim (Option-cases (drop_client c s.app.sdk)) [
      | inl fault ↦ rw (last, fault) refl
      | inr (r, e) ↦ rw (last, e) refl
    ]
  ]

  Owners-nil : (boxes : Table ℕ) → Owners [] boxes
  unfolding deref kvstore_ffi.Prelude.Table.slot
  Owners-nil boxes = record {
    owning = λ a p e. absurd (nothing a e);
    single = λ a b p e. absurd (nothing a e);
  }
    where
      nothing : {p : ℕ} (a : ℕ) → deref [] a ≡ some p → ⊥
      nothing zero e = cc
      nothing (suc a) e = cc

  -- The end of a boxed client, leaving the objects to the caller.
  pub record Unboxed (p : ℕ) (s t : AsyncApp) : Type 0 where
    pub inv : AsyncInv (with_objects [] t)
    pub keeps : Keeps s.app.sdk.arcs t.app.sdk.arcs
    pub refs : t.app.refs ≡ s.app.refs
    pub post : t.post ≡ record s.post { boxes = write s.boxes p none }

  pub kv_store_async_destroy_lem :
      (p c : ℕ) (s : AsyncApp)
      → AsyncInv s
      → (p == 0) ≡ false
      → deref s.boxes p ≡ some c
      → Returns (λ _ t. Unboxed p s t) (kv_store_async_destroy p s)
  unfolding kv_store_async_destroy drop_box
  kv_store_async_destroy_lem p c s i own e =
      let dropped : AsyncApp = record s { post = record s.post { boxes = write s.boxes p none } } in
      let quiet : AsyncInv (with_objects [] dropped) = record {
        inv = i.inv;
        alone = i.alone;
        boxed = λ b d q. i.boxed b d (ground (arith, deref-write s.boxes p b c none e));
        working = i.working;
        get_ledger = i.get_ledger;
        set_ledger = i.set_ledger;
        named = i.named;
        owning = (Owners-nil dropped.boxes).owning;
        single = (Owners-nil dropped.boxes).single;
        ready = i.ready;
        kept = i.kept;
      } in
      rw (own, box_at-eq p c s e, release_core-objects c dropped)
        (bind (release_core_lem c (with_objects [] dropped) quiet (i.boxed p c e))
          λ _ t ((it, keeps), refs, post, world). returns (record {
            inv = AsyncInv-with t.objects [] t it (Owners-nil t.boxes);
            keeps = keeps;
            refs = refs;
            post = ap (λ (x : Post). record x { objects = s.objects }) post;
          }))

  -- Once its owner was made null, nobody owns a boxed client.
  pub unowned :
      (a p : ℕ) (s : AsyncApp)
      → AsyncInv s
      → deref s.objects a ≡ some p
      → (b : ℕ) → (p == 0) ≡ false
      → deref (write s.objects a (some 0)) b ≢ some p
  unowned a p s i e b own f = elim (Bool-cases (a == b)) [
    | inl here ↦ ground (arith, deref-write s.objects a b p (some 0) e)
    | inr other ↦
        let same = i.single a b p e (ground (arith, deref-write s.objects a b p (some 0) e)) own in
        ground arith
  ]

  -- From where the target of an assignment is null, to its end.
  pub handed :
      (a b q p : ℕ) (objects boxes : Table ℕ)
      → a ≢ b
      → deref objects a ≡ some q
      → deref objects b ≡ some p
      → Owners (write objects a (some 0)) boxes
      → Owners (write (write objects a (some p)) b (some 0)) boxes
  handed a b q p objects boxes n ea eb o =
      let at_b : deref (write objects a (some 0)) b ≡ some p =
        deref-write_ne objects a b (some 0) n ∙ eb in
      let less = Owners-less o b p (some 0) at_b (λ x f. ground (arith, f)) in
      let table = write (write objects a (some 0)) b (some 0) in
      let at_a : deref table a ≡ some 0 =
        deref-write_ne (write objects a (some 0)) b a (some 0) (λ z. n (sym z))
        ∙ deref-write_self objects a q (some 0) ea in
      subst (λ x. Owners x boxes)
        (ap (λ x. write x a (some p)) (write_comm objects a b (some 0) (some 0) n)
          ∙ write-twice (write objects b (some 0)) a (some 0) (some p)
          ∙ sym (write_comm objects a b (some p) (some 0) n))
        (Owners-set less a p at_a (o.owning b p at_b) (λ x own f. elim (Bool-cases (b == x)) [
          | inl here ↦ ground (arith, deref-write (write objects a (some 0)) b x p (some 0) at_b)
          | inr other ↦
              let f' : deref (write objects a (some 0)) x ≡ some p =
                ground (arith, deref-write (write objects a (some 0)) b x p (some 0) at_b) in
              let same = o.single b x p at_b f' own in ground arith
        ]))

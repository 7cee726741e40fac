-- ===== src/Async/Objects.antt =====
-- `KvStoreAsyncClient` of bindings/cpp/include/kv_store_async.hpp: its constructors, its destructor
-- and its assignment, with `kv_store_async_init` and `kv_store_async_destroy` below them.
pub mod Boxes
pub use Boxes.{
  with_objects, Owners-AsyncInv, AsyncInv-with, Unboxed, kv_store_async_destroy_lem, unowned,
  handed,
}
use kvstore_ffi.Prelude.{
  ℕ, zero, suc, Option, none, some, [], ◌≡◌, ◌≢◌, ◌⊎◌, refl, inl, inr, true, false, sym, ap, subst,
  ◌∙◌, arith, ◌==◌, ==_iff, if◌then◌else◌, Bool-cases, Option-cases,
}
use kvstore_ffi.Prelude.Table.{
  Table, deref, write, alloc, fresh, deref-write, deref-alloc, deref-fresh, deref-alloc_self,
  fresh-write, lt_fresh, deref_ne_null, deref-write_self, deref-write_ne, write_comm, write-twice,
}
use kvstore_ffi.Prelude.State.{and_then, Returns, returns, bind}
use kvstore_ffi.Memory.Counts.{Keeps, Keeps-refl}
use kvstore_ffi.Platform.{Platform}
use kvstore_ffi.Ffi.{drop_client}
use kvstore_ffi.Binding.State.{on_sdk}
use kvstore_ffi.Async.{Post, AsyncApp, on_app}
use kvstore_ffi.Async.Runtime.{on_core, drop_box, sharers, release_core, kv_store_async_destroy}
use kvstore_ffi.Async.Client.{
  set_object, new_object, async_client_destroy, async_client_move, async_client_assign,
}
use kvstore_ffi.Async.Invariant.{AsyncInv, Went}
use kvstore_ffi.Async.Owners.{Owners, Owners-less, Owners-without, Owners-more, Owners-set}
use kvstore_ffi.Async.Cores.{release_core_lem}
use kvstore_ffi.Async.Gets.{object_at-eq, box_at-eq}

module _ ⦃P : Platform⦄ where
  -- What a call on the objects leaves below them: the heap, the futures and the tasks.
  pub record Rearranged (s t : AsyncApp) : Type 0 where
    pub went : Went s t
    pub refs : t.app.refs ≡ s.app.refs
    pub tasks : t.tasks ≡ s.tasks
    pub gets : t.gets ≡ s.gets
    pub sets : t.sets ≡ s.sets

  rearranged :
      (p : ℕ) (x : Table ℕ) (s t : AsyncApp)
      → Unboxed p s t
      → Owners x (write s.boxes p none)
      → Rearranged s (with_objects x t)
  rearranged p x s t u o = record {
    went = (
      AsyncInv-with [] x t u.inv (subst (λ (y : Post). Owners x y.boxes) (sym u.post) o),
      u.keeps,
    );
    refs = u.refs;
    tasks = ap (λ (y : Post). y.tasks) u.post;
    gets = ap (λ (y : Post). y.gets) u.post;
    sets = ap (λ (y : Post). y.sets) u.post;
  }

  -- The objects alone change.
  pub only_objects :
      (x : Table ℕ) (s : AsyncApp) → AsyncInv s → Owners x s.boxes → Rearranged s (with_objects x s)
  only_objects x s i o = record {
    went = (AsyncInv-with s.objects x s i o, Keeps-refl s.app.sdk.arcs);
    refs = refl;
    tasks = refl;
    gets = refl;
    sets = refl;
  }

  -- `~KvStoreAsyncClient()` of a live object, in a state that keeps the invariant, keeps it: the
  -- boxed client ends with the object, but every task goes on with its cache and HTTP client, and
  -- every promise, object of `AsyncValueRef` and text that one of them owns stays.
  pub async_client_destroy_lem :
      (a p : ℕ) (s : AsyncApp)
      → AsyncInv s
      → deref s.objects a ≡ some p
      → Returns (λ _ t. Rearranged s t × (deref t.objects a ≡ none)) (async_client_destroy a s)
  unfolding async_client_destroy set_object
  async_client_destroy_lem a p s i e = elim (Bool-cases (p == 0)) [
    | inl null ↦
        rw (object_at-eq a p s e, null)
          (returns (
            only_objects (write s.objects a none) s i
                (Owners-less (Owners-AsyncInv s i) a p none e (λ q f. cc)),
            deref-write_self s.objects a p none e,
          ))
    | inr own ↦
        let (c, there) = i.owning a p e own in
        rw (object_at-eq a p s e, own)
          (bind (kv_store_async_destroy_lem p c s i own there) λ _ t u.
            let same = ap (λ (y : Post). y.objects) u.post in
            returns (
              rearranged p (write t.objects a none) s t u (
                  rw same
                    (Owners-without (Owners-AsyncInv s i) a p c none e own there (λ q f. cc))),
              rw same (deref-write_self s.objects a p none e),
            ))
  ]

  -- The move constructor from a live client object, in a state that keeps the invariant, makes an
  -- object with its boxed client, leaves the old one null, and keeps the invariant.
  pub async_client_move_lem :
      (a p : ℕ) (s : AsyncApp)
      → AsyncInv s
      → deref s.objects a ≡ some p
      → Returns
          (λ b t.
            Rearranged s t
            × (b ≡ fresh s.objects)
            × (t.objects ≡ alloc (write s.objects a (some 0)) p))
          (async_client_move a s)
  unfolding async_client_move set_object new_object
  async_client_move_lem a p s i e =
      let less = Owners-less (Owners-AsyncInv s i) a p (some 0) e (λ q f. ground (arith, f)) in
      rw (object_at-eq a p s e) (
        returns (
          only_objects (alloc (write s.objects a (some 0)) p) s i
              (Owners-more less p (i.owning a p e) (unowned a p s i e)),
          fresh-write s.objects a (some 0),
          refl,
        ))

  -- Move assignment between live client objects, in a state that keeps the invariant, ends the
  -- boxed client of the target, hands that of the source over, leaves the source null and keeps
  -- the invariant; assigned to itself, an object stays as it is.
  pub async_client_assign_lem :
      (a b q p : ℕ) (s : AsyncApp)
      → AsyncInv s
      → deref s.objects a ≡ some q
      → deref s.objects b ≡ some p
      → Returns
          (λ _ t.
            Rearranged s t
            × (t.objects
                ≡ (if a == b then s.objects else write (write s.objects a (some p)) b (some 0))))
          (async_client_assign a b s)
  unfolding async_client_assign set_object
  async_client_assign_lem a b q p s i ea eb = elim (Bool-cases (a == b)) [
    | inl same ↦
        rw (object_at-eq b p s eb, object_at-eq a q s ea, same)
          (returns (only_objects s.objects s i (Owners-AsyncInv s i), refl))
    | inr other ↦ elim (Bool-cases (q == 0)) [
      | inl null ↦
          rw (object_at-eq b p s eb, object_at-eq a q s ea, other, null)
            (returns (
              only_objects (write (write s.objects a (some p)) b (some 0)) s i (
                  handed a b q p s.objects s.boxes (ground arith) ea eb
                    (Owners-less (Owners-AsyncInv s i) a q (some 0) ea (λ x f. ground (arith, f)))),
              refl,
            ))
      | inr own ↦
          let (c, there) = i.owning a q ea own in
          rw (object_at-eq b p s eb, object_at-eq a q s ea, other, own)
            (bind (kv_store_async_destroy_lem q c s i own there) λ _ t u.
              let same = ap (λ (y : Post). y.objects) u.post in
              returns (
                rearranged q (write (write t.objects a (some p)) b (some 0)) s t u (
                    rw same (
                      handed a b q p s.objects (write s.boxes q none) (ground arith) ea eb (
                        Owners-without (Owners-AsyncInv s i) a q c (some 0) ea own there
                          (λ x f. ground (arith, f))))),
                ap (λ x. write (write x a (some p)) b (some 0)) same,
              ))
    ]
  ]

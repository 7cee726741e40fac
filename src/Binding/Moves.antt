-- ===== src/Binding/Moves.antt =====
-- `ValueRef`: its destructor, move constructor and move assignment.
use kvstore_ffi.Prelude.{
  ℕ, ◌≡◌, refl, inl, inr, false, none, some, arith, ◌==◌, if◌then◌else◌, Bool-cases, ap, subst, ◌∙◌,
}
use kvstore_ffi.Prelude.Table.{
  Table, deref, write, alloc, fresh, total-write, deref-write, fresh-write,
}
use kvstore_ffi.Prelude.State.{Returns, returns, bind, mono}
use kvstore_ffi.Memory.{Arcs}
use kvstore_ffi.Memory.Counts.{Keeps, Keeps-refl}
use kvstore_ffi.Platform.{Platform}
use kvstore_ffi.Ffi.{kv_store_release_get}
use kvstore_ffi.Ffi.Books.{Inv, Inv-congr}
use kvstore_ffi.Ffi.Lifecycle.{kv_store_release_get_lem}
use kvstore_ffi.Binding.State.{ValueRef, App, on_sdk, set_ref}
use kvstore_ffi.Binding.{value_ref_destroy, value_ref_move, value_ref_assign, give_up}
use kvstore_ffi.Binding.Ownership.{
  holds, held, IsSound, AllSound, AppInv, AllSound-Keeps, on_sdk_lem, AllLive-same, ref_at-eq,
  value_ref_new_lem, AllSound-write, set_ref_lem,
}

module _ ⦃P : Platform⦄ where
  -- What the end of an object leaves: everything of the others.
  pub record Ended (s : App) (a : ℕ) (t : App) : Type 0 where
    pub inv : AppInv t
    pub keeps : Keeps s.sdk.arcs t.sdk.arcs
    pub boxed : t.sdk.clients ≡ s.sdk.clients
    pub world : t.sdk.world ≡ s.sdk.world
    pub clients : t.clients ≡ s.clients
    pub refs : t.refs ≡ write s.refs a none

  -- `give_up` returns the reference that the object at `a` owns, whatever is written there next.
  pub give_up_lem :
      (a : ℕ) (o : ValueRef) (s : App)
      → AppInv s
      → deref s.refs a ≡ some o
      → Returns
          (λ _ t.
            Inv (held (write s.refs a none)) t.sdk
            × AllSound t.sdk.arcs (write s.refs a none)
            × Keeps s.sdk.arcs t.sdk.arcs
            × (t.sdk.clients ≡ s.sdk.clients)
            × (t.sdk.world ≡ s.sdk.world)
            × (t.clients ≡ s.clients)
            × (t.refs ≡ s.refs))
          (give_up o s)
  unfolding give_up on_sdk
  give_up_lem a o s inv e =
      let left = λ (b : ℕ). total-write (holds b) s.refs a o none e in
      let rest = AllSound-write s.sdk.arcs s.refs a o none e inv.sound (λ x q. cc) in
      elim (Bool-cases (o.client == 0)) [
        | inl moved ↦ rw moved (
            returns (
              Inv-congr (λ b. ground (arith, left b)) inv.books,
              rest,
              Keeps-refl s.sdk.arcs,
              refl,
              refl,
              refl,
              refl,
            ))
        | inr owner ↦ rw owner (
            bind
              (on_sdk_lem (kv_store_release_get o.client (some o.result)) s (
                kv_store_release_get_lem {held = held (write s.refs a none)} o.client o.result s.sdk
                  (Inv-congr (λ b. ground (arith, left b)) inv.books)))
              λ q t ((got, i', keeps, clients, world, again), refs, objects). returns (
                i',
                AllSound-Keeps s.sdk.arcs t.sdk.arcs (write s.refs a none) keeps
                    (λ b. omega (arith, i'.balance b)) rest,
                keeps,
                clients,
                world,
                objects,
                refs,
              ))
      ]

  -- `~ValueRef()` of a live object, in a state that keeps the invariant, ends the object,
  -- returns what it owns and keeps the invariant; the other objects and the boxed clients are as
  -- they were.
  pub value_ref_destroy_lem :
      (a : ℕ) (o : ValueRef) (s : App)
      → AppInv s
      → deref s.refs a ≡ some o
      → Returns (λ _ t. Ended s a t) (value_ref_destroy a s)
  unfolding value_ref_destroy give_up
  value_ref_destroy_lem a o s inv e = rw (ref_at-eq a o s e) (
      bind (give_up_lem a o s inv e) λ _ t (books, sound, keeps, boxed, world, clients, refs).
        mono
          (set_ref_lem a none t (rw refs books) (rw refs sound)
            (rw clients (AllLive-same s.sdk t.sdk s.clients boxed inv.live)) (rw clients inv.apart))
          λ _ u (iu, sdk, objects, table). record {
            inv = iu;
            keeps = rw sdk keeps;
            boxed = ap (λ x. x.clients) sdk ∙ boxed;
            world = ap (λ x. x.world) sdk ∙ world;
            clients = objects ∙ clients;
            refs = table ∙ ap (λ r. write r a none) refs;
          })

  -- The move constructor from a live `ValueRef`, in a state that keeps the invariant, makes a
  -- new object with its client and its result, and takes its client from the old one; nothing
  -- else changes, and the invariant is kept.
  pub value_ref_move_lem :
      (a : ℕ) (o : ValueRef) (s : App)
      → AppInv s
      → deref s.refs a ≡ some o
      → Returns
          (λ b t.
            AppInv t
            × (t.sdk ≡ s.sdk)
            × (t.clients ≡ s.clients)
            × (b ≡ fresh s.refs)
            × (t.refs ≡ alloc (write s.refs a (some (record o { client = 0 }))) o))
          (value_ref_move a s)
  unfolding value_ref_move set_ref
  value_ref_move_lem a o s inv e =
      let gone : ValueRef = record o { client = 0 } in
      let s' : App = record s { refs = write s.refs a (some gone) } in
      rw (ref_at-eq a o s e) (
        mono
          (value_ref_new_lem o.client o.result s'
            (Inv-congr (λ b. omega (arith, total-write (holds b) s.refs a o (some gone) e))
              inv.books)
            (AllSound-write s.sdk.arcs s.refs a o (some gone) e inv.sound (λ x q. ground arith))
            (λ owner. inv.sound a o e owner) inv.live inv.apart)
          λ b t (it, sdk, objects, new, table).
            (it, sdk, objects, new ∙ fresh-write s.refs a (some gone), table))

  -- Move assignment between live objects of `ValueRef`, in a state that keeps the invariant,
  -- gives back what the target owned, hands over what the source owns and keeps the invariant;
  -- assigned to itself, an object stays as it is.
  pub value_ref_assign_lem :
      (a b : ℕ) (t o : ValueRef) (s : App)
      → AppInv s
      → deref s.refs a ≡ some t
      → deref s.refs b ≡ some o
      → Returns
          (λ _ u.
            AppInv u
            × Keeps s.sdk.arcs u.sdk.arcs
            × (u.clients ≡ s.clients)
            × (u.sdk.world ≡ s.sdk.world)
            × (u.refs ≡ (
                if a == b
                then s.refs
                else write (write s.refs a (some o)) b (some (record o { client = 0 })))))
          (value_ref_assign a b s)
  unfolding value_ref_assign set_ref give_up
  value_ref_assign_lem a b t o s inv ea eb =
      let gone : ValueRef = record o { client = 0 } in
      let ours = write s.refs a (some o) in
      rw (ref_at-eq b o s eb, ref_at-eq a t s ea)
        (elim (Bool-cases (a == b)) [
          | inl same ↦ rw same (returns (inv, Keeps-refl s.sdk.arcs, refl, refl, refl))
          | inr apart ↦
              let still : deref ours b ≡ some o =
                ground (arith, deref-write s.refs a b t (some o) ea) in
              rw apart (
                bind (give_up_lem a t s inv ea)
                  λ _ u (books, sound, keeps, boxed, world, objects, refs). rw refs (
                    returns (
                      record {
                        books =
                            Inv-congr
                              (λ x. omega (
                                arith,
                                total-write (holds x) s.refs a t none ea,
                                total-write (holds x) s.refs a t (some o) ea,
                                total-write (holds x) ours b o (some gone) still,
                              ))
                              books;
                        sound = λ x y q owner.
                            assigned u.sdk.arcs s.refs a b t o ea eb apart sound x y q owner;
                        live = rw objects (AllLive-same s.sdk u.sdk s.clients boxed inv.live);
                        apart = rw objects inv.apart;
                      },
                      keeps,
                      objects,
                      world,
                      refl,
                    )))
        ])
    where
      assigned :
          (h : Arcs) (refs : Table ValueRef) (a b : ℕ) (t o : ValueRef)
          → deref refs a ≡ some t
          → deref refs b ≡ some o
          → (a == b) ≡ false
          → AllSound h (write refs a none)
          → AllSound h (write (write refs a (some o)) b (some (record o { client = 0 })))
      assigned h refs a b t o ea eb apart sound x y q owner =
          let ours = write refs a (some o) in
          let still : deref ours b ≡ some o = ground (arith, deref-write refs a b t (some o) ea) in
          let q' = deref-write ours b x o (some (record o { client = 0 })) still in
          elim (Bool-cases (b == x)) [
            | inl old ↦ absurd (ground arith)
            | inr other ↦ elim (Bool-cases (a == x)) [
              | inl new ↦
                  let same : o ≡ y = ground (arith, deref-write refs a x t (some o) ea) in
                  subst (λ z. IsSound h z.result) same
                    (sound b o (ground (arith, deref-write refs a b t none ea)) (ground arith))
              | inr neither ↦
                  sound x y
                    (ground
                      (arith, deref-write refs a x t (some o) ea, deref-write refs a x t none ea))
                    owner
            ]
          ]

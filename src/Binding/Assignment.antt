-- ===== src/Binding/Assignment.antt =====
-- `KvStoreClient`: its move assignment.
use kvstore_ffi.Prelude.{
  ℕ, ◌≡◌, refl, ◌≢◌, ◌⊎◌, inl, inr, false, Option, none, some, arith, ◌==◌, ==_iff, if◌then◌else◌,
  Bool-cases, sym, ap, subst, ◌∙◌,
}
use kvstore_ffi.Prelude.Table.{Table, deref, write, deref-write}
use kvstore_ffi.Prelude.State.{pure, Returns, returns, bind, mono}
use kvstore_ffi.Memory.Counts.{Keeps, Keeps-refl}
use kvstore_ffi.Platform.{Platform}
use kvstore_ffi.Ffi.{kv_store_destroy}
use kvstore_ffi.Ffi.Books.{Inv}
use kvstore_ffi.Ffi.Lifecycle.{kv_store_destroy_lem}
use kvstore_ffi.Binding.State.{KvStoreClient, App, on_sdk, set_client}
use kvstore_ffi.Binding.{client_assign}
use kvstore_ffi.Binding.Ownership.{held, AllSound-Keeps, AppInv, on_sdk_lem}
use kvstore_ffi.Binding.Reads.{client_at-eq}

module _ ⦃P : Platform⦄ where
  null_client : (s : App) → deref s.sdk.clients 0 ≡ none
  unfolding deref
  null_client s = refl

  -- What an object gives up when it is assigned to: its boxed client, if it has one.
  drop_held_lem :
      (a : ℕ) (k : KvStoreClient) (s : App)
      → AppInv s
      → deref s.clients a ≡ some k
      → Returns
          (λ _ t.
            Inv (held s.refs) t.sdk
            × Keeps s.sdk.arcs t.sdk.arcs
            × (t.refs ≡ s.refs)
            × (t.clients ≡ s.clients)
            × (t.sdk.world ≡ s.sdk.world)
            × ((q : ℕ) → k.client ≢ q → deref t.sdk.clients q ≡ deref s.sdk.clients q)
            × (deref t.sdk.clients k.client ≡ none))
          ((if k.client == 0 then pure tt else on_sdk (kv_store_destroy k.client)) s)
  drop_held_lem a k s i e = elim (Bool-cases (k.client == 0)) [
    | inl null ↦
        let z : k.client ≡ 0 = (==_iff k.client 0).0 null in
        rw null (
          returns (
            i.books,
            Keeps-refl s.sdk.arcs,
            refl,
            refl,
            refl,
            λ q n. refl,
            subst (λ p. deref s.sdk.clients p ≡ none) (sym z) (null_client s),
          ))
    | inr own ↦
        let (c, there) = i.live a k e own in
        rw own (
          mono
            (on_sdk_lem (kv_store_destroy k.client) s
              (kv_store_destroy_lem {held = held s.refs} k.client c s.sdk i.books there))
            λ _ t ((books, keeps, world, freed, elsewhere), refs, objects).
              (books, keeps, refs, objects, world, elsewhere, freed))
  ]

  -- An object after an assignment of the one at `b` to the one at `a`.
  assigned_object :
      (l : Table KvStoreClient) (a b d : ℕ) (t k x : KvStoreClient)
      → deref l a ≡ some t
      → deref l b ≡ some k
      → (a == b) ≡ false
      → deref (write (write l a (some k)) b (some (record { client = 0 }))) d ≡ some x
      → (x.client == 0) ≡ false
      → ((d ≡ a) × (k ≡ x)) ⊎ ((a ≢ d) × (b ≢ d) × (deref l d ≡ some x))
  assigned_object l a b d t k x ea eb ne q own =
      let gone : Option KvStoreClient = some (record { client = 0 }) in
      let first = deref-write l a d t (some k) ea in
      let still : deref (write l a (some k)) b ≡ some k =
        ground (arith, deref-write l a b t (some k) ea) in
      let second = deref-write (write l a (some k)) b d k gone still in
      elim (Bool-cases (b == d)) [
        | inl here ↦ absurd (ground arith)
        | inr other ↦ elim (Bool-cases (a == d)) [
          | inl there ↦ inl (ground arith, ground arith)
          | inr neither ↦ inr (ground arith, ground arith, ground arith)
        ]
      ]

  apart_ne : (a b : ℕ) → (a == b) ≡ false → b ≢ a
  apart_ne a b ne e = absurd (ground arith)

  assigned_apart :
      (s : App) (a b : ℕ) (t k : KvStoreClient)
      → AppInv s
      → deref s.clients a ≡ some t
      → deref s.clients b ≡ some k
      → (a == b) ≡ false
      → (d d' : ℕ) (x y : KvStoreClient) → (x.client == 0) ≡ false
      → x.client ≡ y.client
      → ((d ≡ a) × (k ≡ x)) ⊎ ((a ≢ d) × (b ≢ d) × (deref s.clients d ≡ some x))
      → ((d' ≡ a) × (k ≡ y)) ⊎ ((a ≢ d') × (b ≢ d') × (deref s.clients d' ≡ some y))
      → d ≡ d'
  assigned_apart s a b t k i ea eb ne d d' x y own z (inl (e, same)) (inl (e', same')) = e ∙ sym e'
  assigned_apart s a b t k i ea eb ne d d' x y own z (inl (e, same)) (inr (o', n', old')) = absurd (
      n' (
        i.apart b d' k y eb old' (subst (λ w. (w.client == 0) ≡ false) (sym same) own)
          (ap (λ w. w.client) same ∙ z)))
  assigned_apart s a b t k i ea eb ne d d' x y own z (inr (o, n, old)) (inl (e', same')) =
      absurd (n (sym (i.apart d b x k old eb own (z ∙ sym (ap (λ w. w.client) same')))))
  assigned_apart s a b t k i ea eb ne d d' x y own z (inr (o, n, old)) (inr (o', n', old')) =
      i.apart d d' x y old old' own z

  -- The objects after an assignment keep the invariant.
  assigned-Inv :
      (s u : App) (a b : ℕ) (t k : KvStoreClient)
      → AppInv s
      → deref s.clients a ≡ some t
      → deref s.clients b ≡ some k
      → (a == b) ≡ false
      → Inv (held s.refs) u.sdk
      → Keeps s.sdk.arcs u.sdk.arcs
      → u.refs ≡ s.refs
      → ((q : ℕ) → t.client ≢ q → deref u.sdk.clients q ≡ deref s.sdk.clients q)
      → AppInv (record u {
        clients = write (write s.clients a (some k)) b (some (record { client = 0 }));
      })
  assigned-Inv s u a b t k i ea eb ne books keeps refs elsewhere = record {
    books = rw refs books;
    sound = rw refs (
        AllSound-Keeps s.sdk.arcs u.sdk.arcs s.refs keeps (λ x. omega (arith, books.balance x))
          i.sound);
    live = λ d x q own. elim (assigned_object s.clients a b d t k x ea eb ne q own) [
      | inl (new, same) ↦
          let own' : (k.client == 0) ≡ false =
            subst (λ w. (w.client == 0) ≡ false) (sym same) own in
          let (c, there) = i.live b k eb own' in
          let z' : t.client ≢ k.client =
            λ z. apart_ne a b ne (i.apart b a k t eb ea own' (sym z)) in
          (
            c,
            subst (λ w. deref u.sdk.clients w.client ≡ some c) same (elsewhere k.client z' ∙ there),
          )
      | inr (other, neither, old) ↦
          let (c, there) = i.live d x old own in
          (c, elsewhere x.client (λ z. other (sym (i.apart d a x t old ea own (sym z)))) ∙ there)
    ];
    apart = λ d d' x y q q' own z.
        assigned_apart s a b t k i ea eb ne d d' x y own z
          (assigned_object s.clients a b d t k x ea eb ne q own)
          (assigned_object s.clients a b d' t k y ea eb ne q'
            (subst (λ n. (n == 0) ≡ false) z own));
  }

  -- Move assignment between live client objects, in a state that keeps the invariant, hands the
  -- boxed client of the source over to the target, frees the boxed client that the target had,
  -- leaves the source null and keeps the invariant; the other boxed clients stay as they are.
  -- Assigned to itself, an object stays as it is, and so does the boxed client.
  pub client_assign_lem :
      (a b : ℕ) (t k : KvStoreClient) (s : App)
      → AppInv s
      → deref s.clients a ≡ some t
      → deref s.clients b ≡ some k
      → Returns
          (λ _ u.
            AppInv u
            × Keeps s.sdk.arcs u.sdk.arcs
            × (u.refs ≡ s.refs)
            × (u.sdk.world ≡ s.sdk.world)
            × (u.clients ≡ (
                if a == b
                then s.clients
                else write (write s.clients a (some k)) b (some (record { client = 0 }))))
            × (deref u.sdk.clients t.client
                ≡ (if a == b then deref s.sdk.clients t.client else none))
            × ((q : ℕ) → t.client ≢ q → deref u.sdk.clients q ≡ deref s.sdk.clients q))
          (client_assign a b s)
  unfolding client_assign set_client
  client_assign_lem a b t k s i ea eb =
      rw (client_at-eq b k s eb, client_at-eq a t s ea)
        (elim (Bool-cases (a == b)) [
          | inl same ↦
              rw same (returns (i, Keeps-refl s.sdk.arcs, refl, refl, refl, refl, λ q o. refl))
          | inr ne ↦ rw ne (
              bind (drop_held_lem a t s i ea)
                λ _ u (books, keeps, refs, objects, world, elsewhere, freed). rw objects (
                  returns (
                    assigned-Inv s u a b t k i ea eb ne books keeps refs elsewhere,
                    keeps,
                    refs,
                    world,
                    refl,
                    freed,
                    elsewhere,
                  )))
        ])

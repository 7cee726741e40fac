-- ===== src/Binding/Clients.antt =====
-- `KvStoreClient` of bindings/cpp/include/kv_store.hpp: its constructor, its move constructor, its
-- destructor after a move, and `GetCacheStats`.
use kvstore_ffi.Prelude.{
  ℕ, ◌≡◌, refl, ◌≢◌, ◌⊎◌, inl, inr, true, false, Option, none, some, arith, ◌==◌, Bool-cases, sym,
  ap, subst, ◌∙◌,
}
use kvstore_ffi.Prelude.Table.{
  Table, deref, write, alloc, fresh, deref-write, deref-alloc, lt_fresh, fresh-write, deref_ne_null,
}
use kvstore_ffi.Prelude.State.{Returns, returns, bind}
use kvstore_ffi.Text.{Text, from_utf8, from_ptr}
use kvstore_ffi.ErrorCode.{EnumErrorCode}
use kvstore_ffi.Platform.{Platform}
use kvstore_ffi.Ffi.State.{KvStoreClient as BoxedClient}
use kvstore_ffi.Ffi.{kv_store_init, kv_store_cache_stats}
use kvstore_ffi.Cache.{cache_len}
use kvstore_ffi.Ffi.Books.{Inv}
use kvstore_ffi.Ffi.Init.{Boxed, kv_store_init_lem}
use kvstore_ffi.Binding.State.{
  Config, KvStoreClient, Outcome, returned, thrown, App, on_sdk, set_client,
}
use kvstore_ffi.Binding.{
  c_config, kv_store_exception, init_failed, client_new, client_move, client_destroy,
  get_cache_stats,
}
use kvstore_ffi.Binding.Ownership.{held, AppInv, on_sdk_lem}
use kvstore_ffi.Binding.Reads.{client_at-eq}

module _ ⦃P : Platform⦄ where
  open P use {Store, build}

  -- The client objects after a move: the new object is the old one, which is null now.
  moved_object :
      (l : Table KvStoreClient) (a b : ℕ) (k x : KvStoreClient)
      → deref l a ≡ some k
      → deref (alloc (write l a (some (record { client = 0 }))) k) b ≡ some x
      → (x.client == 0) ≡ false
      → ((b ≡ fresh l) × (k ≡ x)) ⊎ ((a ≢ b) × (deref l b ≡ some x))
  moved_object l a b k x e q own =
      let gone : Option KvStoreClient = some (record { client = 0 }) in
      elim (Bool-cases (fresh (write l a gone) == b)) [
        | inl new ↦
            inl (
              ground (arith, fresh-write l a gone),
              ground (arith, deref-alloc (write l a gone) b k),
            )
        | inr old ↦ elim (Bool-cases (a == b)) [
          | inl here ↦
              absurd (ground (arith, deref-alloc (write l a gone) b k, deref-write l a b k gone e))
          | inr other ↦ inr (
            ground arith,
            ground (arith, deref-alloc (write l a gone) b k, deref-write l a b k gone e),
          )
        ]
      ]

  -- The move constructor from a live client object, in a state that keeps the invariant, hands
  -- the boxed client over: the new object has it, the old one is null, nothing else changes, and
  -- the invariant is kept.
  pub client_move_lem :
      (a : ℕ) (k : KvStoreClient) (s : App)
      → AppInv s
      → deref s.clients a ≡ some k
      → Returns
          (λ b t.
            AppInv t
            × (t.sdk ≡ s.sdk)
            × (t.refs ≡ s.refs)
            × (b ≡ fresh s.clients)
            × (t.clients ≡ alloc (write s.clients a (some (record { client = 0 }))) k))
          (client_move a s)
  unfolding client_move set_client
  client_move_lem a k s i e = rw (client_at-eq a k s e) (
      returns (
        record {
          books = i.books;
          sound = i.sound;
          live = λ b x q own. elim (moved_object s.clients a b k x e q own) [
            | inl (new, same) ↦
                subst (λ y. (c : BoxedClient) × (deref s.sdk.clients y.client ≡ some c)) same
                  (i.live a k e (subst (λ y. (y.client == 0) ≡ false) (sym same) own))
            | inr (other, old) ↦ i.live b x old own
          ];
          apart = λ b b' x y q q' own z.
              let own' : (y.client == 0) ≡ false = subst (λ n. (n == 0) ≡ false) z own in
              elim (moved_object s.clients a b k x e q own) [
                | inl (new, same) ↦ elim (moved_object s.clients a b' k y e q' own') [
                  | inl (new', same') ↦ new ∙ sym new'
                  | inr (other', old') ↦ absurd (
                      other' (
                        i.apart a b' k y e old'
                          (subst (λ w. (w.client == 0) ≡ false) (sym same) own)
                          (ap (λ w. w.client) same ∙ z)))
                ]
                | inr (other, old) ↦ elim (moved_object s.clients a b' k y e q' own') [
                  | inl (new', same') ↦
                      absurd (
                        other
                          (sym (i.apart b a x k old e own (z ∙ sym (ap (λ w. w.client) same')))))
                  | inr (other', old') ↦ i.apart b b' x y old old' own z
                ]
              ];
        },
        refl,
        refl,
        fresh-write s.clients a (some (record { client = 0 })),
        refl,
      ))

  -- How the constructor ends: an exception and no object, or an object with a new boxed client.
  abbrev pub Made : Config → App → Outcome ℕ → App → Type 0
  Made config s out t =
      ((out ≡ thrown (kv_store_exception init_failed EnumErrorCode.internal_error))
        × (t.clients ≡ s.clients)
        × (t.sdk ≡ s.sdk))
      ⊎ ((out ≡ returned (fresh s.clients))
          × ((url : Text) × (p : ℕ) × (from_utf8 (from_ptr config.server_url) ≡ some url)
              × (t.clients ≡ alloc s.clients (record { client = p }))
              × Boxed s.sdk url p t.sdk))

  added_object :
      (l : Table KvStoreClient) (k x : KvStoreClient) (a : ℕ)
      → deref (alloc l k) a ≡ some x
      → ((a ≡ fresh l) × (k ≡ x)) ⊎ (deref l a ≡ some x)
  added_object l k x a q = elim (Bool-cases (fresh l == a)) [
    | inl here ↦ inl (ground arith, ground (arith, deref-alloc l a k))
    | inr other ↦ inr (ground (arith, deref-alloc l a k))
  ]

  -- A live object's boxed client is older than the next one.
  older :
      (s : App) (a : ℕ) (x : KvStoreClient)
      → AppInv s
      → deref s.clients a ≡ some x
      → (x.client == 0) ≡ false
      → x.client ≢ fresh s.sdk.clients
  older s a x i q own z =
      let (c, there) = i.live a x q own in omega (arith, lt_fresh s.sdk.clients x.client c there)

  -- A new object for a new boxed client.
  new_object_lem :
      (s t : App) (url : Text) (p : ℕ)
      → AppInv s
      → Inv (held s.refs) t.sdk
      → t.sdk.arcs ≡ s.sdk.arcs
      → t.refs ≡ s.refs
      → t.clients ≡ alloc s.clients (record { client = p })
      → Boxed s.sdk url p t.sdk
      → AppInv t
  new_object_lem s t url p i books arcs refs objects new =
      let k : KvStoreClient = record { client = p } in
      record {
        books = rw refs books;
        sound = rw (refs, arcs) i.sound;
        live = rw objects λ a x q own. elim (added_object s.clients k x a q) [
          | inl (here, same) ↦ (
            new.client,
            subst (λ y. deref t.sdk.clients y.client ≡ some new.client) same new.here,
          )
          | inr old ↦
              let (c, there) = i.live a x old own in
              (c, new.elsewhere x.client (λ z. older s a x i old own (z ∙ new.place)) ∙ there)
        ];
        apart = rw objects λ a b x y q q' own z.
            let own' : (y.client == 0) ≡ false = subst (λ n. (n == 0) ≡ false) z own in
            elim (added_object s.clients k x a q) [
              | inl (here, same) ↦ elim (added_object s.clients k y b q') [
                | inl (here', same') ↦ here ∙ sym here'
                | inr old' ↦
                    absurd
                      (older s b y i old' own' (sym z ∙ sym (ap (λ w. w.client) same) ∙ new.place))
              ]
              | inr old ↦ elim (added_object s.clients k y b q') [
                | inl (here', same') ↦
                    absurd (older s a x i old own (z ∙ sym (ap (λ w. w.client) same') ∙ new.place))
                | inr old' ↦ i.apart a b x y old old' own z
              ]
            ];
      }

  -- In a state that keeps the invariant and with a time to live that moka takes, the constructor
  -- either throws a KvStoreException with InternalError and makes no object, or makes one object
  -- for a new boxed client with an empty cache. The invariant is kept.
  pub client_new_lem :
      (config : Config) (st : Store) (s : App)
      → AppInv s
      → build (c_config config).cache_capacity (c_config config).cache_ttl_ms ≡ some st
      → Returns
          (λ out t.
            AppInv t
            × (t.sdk.arcs ≡ s.sdk.arcs)
            × (t.sdk.world ≡ s.sdk.world)
            × (t.refs ≡ s.refs)
            × Made config s out t)
          (client_new config s)
  unfolding client_new c_config
  client_new_lem config st s i e =
      bind
        (on_sdk_lem (kv_store_init (some (c_config config))) s (
          (kv_store_init_lem {held = held s.refs} (c_config config) config.server_url st s.sdk
            i.books refl e).1))
        λ p t ((books, arcs, world, o), refs, objects). elim o [
          | inl (null, same, why) ↦ rw null (
              returns (
                record {
                  books = rw refs books;
                  sound = rw (refs, arcs) i.sound;
                  live = rw (objects, same) i.live;
                  apart = rw objects i.apart;
                },
                arcs,
                world,
                refs,
                inl (refl, objects, same),
              ))
          | inr (url, good, built, new) ↦ rw (deref_ne_null t.sdk.clients p new.client new.here) (
              returns (
                new_object_lem s (record t { clients = alloc t.clients (record { client = p }) })
                    url p i books arcs refs (ap (λ l. alloc l (record { client = p })) objects) new,
                arcs,
                world,
                refs,
                inr (
                  ap (λ l. returned (fresh l)) objects,
                  (url, p, good, ap (λ l. alloc l (record { client = p })) objects, new),
                ),
              ))
        ]

  -- What is left of the objects when one ends.
  pub remaining :
      (l : Table KvStoreClient) (a b : ℕ) (k x : KvStoreClient)
      → deref l a ≡ some k
      → deref (write l a none) b ≡ some x
      → deref l b ≡ some x
  remaining l a b k x e q = elim (Bool-cases (a == b)) [
    | inl same ↦ absurd (ground (arith, deref-write l a b k none e))
    | inr other ↦ ground (arith, deref-write l a b k none e)
  ]

  -- `~KvStoreClient()` of an object that was moved from ends the object alone.
  pub client_destroy-moved :
      (a : ℕ) (k : KvStoreClient) (s : App)
      → AppInv s
      → deref s.clients a ≡ some k
      → (k.client == 0) ≡ true
      → Returns (λ _ t. AppInv t × (t.sdk ≡ s.sdk) × (t.refs ≡ s.refs)) (client_destroy a s)
  unfolding client_destroy set_client
  client_destroy-moved a k s i e null =
      rw (client_at-eq a k s e, null)
        (returns (
          record {
            books = i.books;
            sound = i.sound;
            live = λ b x q own. i.live b x (remaining s.clients a b k x e q) own;
            apart = λ b b' x y q q' own z.
                i.apart b b' x y (remaining s.clients a b k x e q)
                  (remaining s.clients a b' k y e q') own z;
          },
          refl,
          refl,
        ))

  -- `GetCacheStats` on a client object with a boxed client reports the counters and the size of
  -- its cache, and changes nothing.
  pub get_cache_stats_lem :
      (a : ℕ) (k : KvStoreClient) (c : BoxedClient) (s : App)
      → deref s.clients a ≡ some k
      → deref s.sdk.clients k.client ≡ some c
      → get_cache_stats a s
        ≡ some (
          record { hits = c.cache.hits; misses = c.cache.misses; current_size = cache_len c.cache },
          s,
        )
  unfolding get_cache_stats on_sdk kv_store_cache_stats cache_len
  get_cache_stats_lem a k c s e there =
      rw
        (
          client_at-eq a k s e,
          kv_store_cache_stats,
          deref_ne_null s.sdk.clients k.client c there,
          there,
        )
        refl

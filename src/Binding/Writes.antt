-- ===== src/Binding/Writes.antt =====
-- `Set`, `ClearCache` and the end of a client object, in bindings/cpp/include/kv_store.hpp.
use kvstore_ffi.Prelude.{
  ℕ, ◌≡◌, refl, ◌≢◌, inl, inr, false, Option, none, some, arith, ◌==◌, Bool-cases, sym, ap, subst,
  ◌∙◌,
}
use kvstore_ffi.Prelude.Table.{Table, deref, write, deref-write}
use kvstore_ffi.Prelude.State.{Returns, returns, bind, mono}
use kvstore_ffi.Text.{Text}
use kvstore_ffi.ErrorCode.{ErrorCode, as_i32, same_name, as_i32_round_trip}
use kvstore_ffi.Memory.{Arcs}
use kvstore_ffi.Memory.Counts.{Keeps, Keeps-refl}
use kvstore_ffi.Platform.{Platform, Response}
use kvstore_ffi.Http.{Result, ok, err, put_request, http_set, read_set}
use kvstore_ffi.Cache.{KvCache}
use kvstore_ffi.Cache.View.{cached}
use kvstore_ffi.Ffi.State.{Slice, KvSetResult, Sdk, KvStoreClient as BoxedClient}
use kvstore_ffi.Ffi.{set_success, set_error, kv_store_set, kv_store_cache_clear, kv_store_destroy}
use kvstore_ffi.Ffi.Books.{Inv, Updated, Updated-refl}
use kvstore_ffi.Ffi.Get.{slice_text}
use kvstore_ffi.Ffi.Set.{set_result, Writes, SetOutcome, kv_store_set_lem}
use kvstore_ffi.Ffi.Lifecycle.{kv_store_cache_clear_lem, kv_store_destroy_lem}
use kvstore_ffi.Binding.State.{KvStoreClient, Outcome, returned, thrown, App, set_client}
use kvstore_ffi.Binding.{
  kv_store_exception, set_failed, throw_code, set, clear_cache, client_destroy,
}
use kvstore_ffi.Binding.Ownership.{
  held, AllSound-Keeps, AllLive, AllLive-Updated, AppInv, on_sdk_lem,
}
use kvstore_ffi.Binding.Reads.{client_at-eq}

module _ ⦃P : Platform⦄ where
  -- The answer to a write of the slices, and the world after it.
  abbrev pub written : BoxedClient → Sdk → Option Text → Option Text → Result (Unit {0}) × P.World
  written c s (some key) (some value) = http_set c.http_client key value s.world
  written c s (some key) none = (err ErrorCode.invalid_input, s.world)
  written c s none v = (err ErrorCode.invalid_input, s.world)

  -- What the cache knows after it, by the key that the slice held.
  abbrev pub SetView :
      Option Text → Option Text → BoxedClient → KvCache → Arcs → Arcs → Result (Unit {0}) → Type 0
  SetView (some key) (some value) c d h g res = Writes (cached c.cache h) key value res (cached d g)
  SetView (some key) none c d h g res = (d ≡ c.cache) × (g ≡ h)
  SetView none v c d h g res = (d ≡ c.cache) × (g ≡ h)

  read_set-proper :
      (r : Option (Response P.Body)) (code : ErrorCode)
      → read_set r ≡ err code
      → code ≢ ErrorCode.success
  unfolding read_set
  read_set-proper none code e = ground arith
  read_set-proper (some r) code e = ground arith

  -- What every outcome of `kv_store_set` has in common.
  pub record Stored (h : ℕ → ℕ) (s : Sdk) (p : ℕ) (c : BoxedClient) (k v : Option Text)
      (r : KvSetResult) (t : Sdk) : Type 0 where
    pub inv : Inv h t
    pub keeps : Keeps s.arcs t.arcs
    pub cache : KvCache
    pub updated : Updated s p c cache t
    pub answers : r ≡ set_result (written c s k v).0
    pub world : t.world ≡ (written c s k v).1
    pub view : SetView k v c cache s.arcs t.arcs (written c s k v).0

  Stored-of_outcome :
      (h : ℕ → ℕ) (s : Sdk) (p : ℕ) (c : BoxedClient) (k v : Option Text) (r : KvSetResult)
      (t : Sdk)
      → Inv h s
      → deref s.clients p ≡ some c
      → SetOutcome h s p c k v r t
      → Stored h s p c k v r t
  Stored-of_outcome h s p c none v r t i e (q, same) =
      rw (q, same)
        (record {
          inv = i;
          keeps = Keeps-refl s.arcs;
          cache = c.cache;
          updated = Updated-refl s p c e;
          answers = refl;
          world = refl;
          view = (refl, refl);
        })
  Stored-of_outcome h s p c (some key) none r t i e (q, same) =
      rw (q, same)
        (record {
          inv = i;
          keeps = Keeps-refl s.arcs;
          cache = c.cache;
          updated = Updated-refl s p c e;
          answers = refl;
          world = refl;
          view = (refl, refl);
        })
  Stored-of_outcome h s p c (some key) (some value) r t i e o = record {
    inv = o.inv;
    keeps = o.keeps;
    cache = o.cache;
    updated = o.updated;
    answers = o.answers;
    world = o.world;
    view = o.writes;
  }

  -- What `Set` should end with.
  abbrev pub set_outcome : Result (Unit {0}) → Outcome (Unit {0})
  set_outcome (ok _) = returned tt
  set_outcome (err code) = thrown (kv_store_exception set_failed (same_name code))

  -- What a finished `Set` leaves.
  pub record SetDone (s : App) (k : KvStoreClient) (c : BoxedClient) (key value : Option Text)
      (out : Outcome (Unit {0})) (t : App) : Type 0 where
    pub inv : AppInv t
    pub keeps : Keeps s.sdk.arcs t.sdk.arcs
    pub clients : t.clients ≡ s.clients
    pub refs : t.refs ≡ s.refs
    pub cache : KvCache
    pub updated : Updated s.sdk k.client c cache t.sdk
    pub answers : out ≡ set_outcome (written c s.sdk key value).0
    pub world : t.sdk.world ≡ (written c s.sdk key value).1
    pub view : SetView key value c cache s.sdk.arcs t.sdk.arcs (written c s.sdk key value).0

  -- The objects are untouched by a call into the interface that keeps the books.
  pub after_sdk :
      (s t : App)
      → Inv (held s.refs) t.sdk
      → Keeps s.sdk.arcs t.sdk.arcs
      → t.refs ≡ s.refs
      → t.clients ≡ s.clients
      → AllLive s.clients t.sdk
      → AppInv s
      → AppInv t
  after_sdk s t i keeps refs objects live inv = record {
    books = rw refs i;
    sound = rw refs (
        AllSound-Keeps s.sdk.arcs t.sdk.arcs s.refs keeps (λ b. omega (arith, i.balance b))
          inv.sound);
    live = rw objects live;
    apart = rw objects inv.apart;
  }

  finish_set :
      (r : KvSetResult) (res : Result (Unit {0})) (s : App)
      → r ≡ set_result res
      → ((code : ErrorCode) → res ≡ err code → code ≢ ErrorCode.success)
      → throw_code r s ≡ some (set_outcome res, s)
  unfolding throw_code set_success set_error as_i32
  finish_set r (ok tt) s e proper = rw e
  finish_set r (err code) s e proper =
      let n : (as_i32 code ≡ 0) → ⊥ = λ z. proper code refl ((as_i32_round_trip code).2.0 z) in
      let q : (as_i32 code == 0) ≡ false = nonzero (as_i32 code) n in
      rw (e, q, (as_i32_round_trip code).1)
    where
      nonzero : (a : ℕ) → ((a ≡ 0) → ⊥) → (a == 0) ≡ false
      nonzero a n = ground arith

  written-proper :
      (c : BoxedClient) (s : Sdk) (k v : Option Text) (code : ErrorCode)
      → (written c s k v).0 ≡ err code
      → code ≢ ErrorCode.success
  unfolding http_set
  written-proper c s none v code e = ground arith
  written-proper c s (some key) none code e = ground arith
  written-proper c s (some key) (some value) code e =
      read_set-proper (P.send s.world (put_request c.http_client key value)).0 code e

  -- `Set` on a client object that was not moved from, in a state that keeps the invariant, ends
  -- as its request to the server did: it returns where the server took the value, and throws a
  -- KvStoreException with the code of any error, InvalidInput for a null or non-UTF-8 argument,
  -- which makes no request. After a request the cache has the new value or none of the key, and
  -- none after an error; of other keys it forgets at most. The invariant is kept, and no object
  -- changes.
  pub set_lem :
      (a : ℕ) (k : KvStoreClient) (c : BoxedClient) (key value : Slice) (s : App)
      → AppInv s
      → deref s.clients a ≡ some k
      → (k.client == 0) ≡ false
      → deref s.sdk.clients k.client ≡ some c
      → Returns (SetDone s k c (slice_text key) (slice_text value)) (set a key value s)
  unfolding set
  set_lem a k c key value s inv e owner boxed = rw (client_at-eq a k s e) (
      bind
        (on_sdk_lem (kv_store_set k.client key value) s (
          mono (kv_store_set_lem {held = held s.refs} k.client c key value s.sdk inv.books boxed)
            λ r t o.
              Stored-of_outcome (held s.refs) s.sdk k.client c (slice_text key) (slice_text value) r
                t inv.books boxed o))
        λ r t (st, refs, objects).
          subst (Returns (SetDone s k c (slice_text key) (slice_text value)))
            (sym (
              finish_set r (written c s.sdk (slice_text key) (slice_text value)).0 t st.answers
                (written-proper c s.sdk (slice_text key) (slice_text value))))
            (returns (record {
              inv =
                  after_sdk s t st.inv st.keeps refs objects
                    (AllLive-Updated s.clients st.updated inv.live) inv;
              keeps = st.keeps;
              clients = objects;
              refs = refs;
              cache = st.cache;
              updated = st.updated;
              answers = refl;
              world = st.world;
              view = st.view;
            })))

  -- `ClearCache` on a client object that was not moved from, in a state that keeps the
  -- invariant, empties the cache of its client; the invariant is kept, and no object changes.
  pub clear_cache_lem :
      (a : ℕ) (k : KvStoreClient) (c : BoxedClient) (s : App)
      → AppInv s
      → deref s.clients a ≡ some k
      → (k.client == 0) ≡ false
      → deref s.sdk.clients k.client ≡ some c
      → Returns
          (λ _ t.
            AppInv t
            × Keeps s.sdk.arcs t.sdk.arcs
            × (t.clients ≡ s.clients)
            × (t.refs ≡ s.refs)
            × (t.sdk.world ≡ s.sdk.world)
            × ((d : KvCache) × Updated s.sdk k.client c d t.sdk
                × ((j : Text) → cached d t.sdk.arcs j ≡ none)))
          (clear_cache a s)
  unfolding clear_cache
  clear_cache_lem a k c s inv e owner boxed = rw (client_at-eq a k s e) (
      mono
        (on_sdk_lem (kv_store_cache_clear k.client) s
          (kv_store_cache_clear_lem {held = held s.refs} k.client c s.sdk inv.books boxed))
        λ _ t ((i, keeps, world, (d, up, none_left, _)), refs, objects). (
          after_sdk s t i keeps refs objects (AllLive-Updated s.clients up inv.live) inv,
          keeps,
          objects,
          refs,
          world,
          (d, up, none_left),
        ))

  -- `~KvStoreClient()` of an object that was not moved from, in a state that keeps the
  -- invariant, frees the boxed client and keeps the invariant: the objects of `ValueRef` are as
  -- they were, and a text is kept or freed.
  pub client_destroy_lem :
      (a : ℕ) (k : KvStoreClient) (c : BoxedClient) (s : App)
      → AppInv s
      → deref s.clients a ≡ some k
      → (k.client == 0) ≡ false
      → deref s.sdk.clients k.client ≡ some c
      → Returns
          (λ _ t.
            AppInv t
            × Keeps s.sdk.arcs t.sdk.arcs
            × (t.refs ≡ s.refs)
            × (t.clients ≡ write s.clients a none)
            × (t.sdk.world ≡ s.sdk.world)
            × (deref t.sdk.clients k.client ≡ none))
          (client_destroy a s)
  unfolding client_destroy set_client
  client_destroy_lem a k c s inv e owner boxed =
      rw (client_at-eq a k s e, owner)
        (bind
          (on_sdk_lem (kv_store_destroy k.client) s
            (kv_store_destroy_lem {held = held s.refs} k.client c s.sdk inv.books boxed))
          λ _ t ((i, keeps, world, freed, elsewhere), refs, objects).
            let left =
              λ (b : ℕ) (x : KvStoreClient) (q : deref (write s.clients a none) b ≡ some x).
                remains s.clients a b k x e q in
            returns (
              record {
                books = rw refs i;
                sound = rw refs (
                    AllSound-Keeps s.sdk.arcs t.sdk.arcs s.refs keeps
                      (λ b. omega (arith, i.balance b)) inv.sound);
                live = rw objects λ b x q own.
                    let (ne, q') = left b x q in
                    let (d, there) = inv.live b x q' own in
                    (d, elsewhere x.client (λ z. ne (inv.apart a b k x e q' owner z)) ∙ there);
                apart =
                    rw objects λ b b' x y q q' own z.
                      inv.apart b b' x y (left b x q).1 (left b' y q').1 own z;
              },
              keeps,
              refs,
              ap (λ l. write l a none) objects,
              world,
              freed,
            ))
    where
      remains :
          (l : Table KvStoreClient) (a b : ℕ) (k x : KvStoreClient)
          → deref l a ≡ some k
          → deref (write l a none) b ≡ some x
          → (a ≢ b) × (deref l b ≡ some x)
      remains l a b k x e q = elim (Bool-cases (a == b)) [
        | inl same ↦ absurd (ground (arith, deref-write l a b k none e))
        | inr other ↦ (ground arith, ground (arith, deref-write l a b k none e))
      ]

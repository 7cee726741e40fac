-- ===== src/Binding/Reads.antt =====
-- `GetRef`, `Get` and `TryGet` of bindings/cpp/include/kv_store.hpp.
use kvstore_ffi.Prelude.{ℕ, ◌+◌, ◌≡◌, refl, false, Option, none, some, arith, ◌==◌, ap, ◌∙◌}
use kvstore_ffi.Prelude.Table.{
  Table, deref, alloc, fresh, total, total-write, total-alloc, deref-alloc_self,
}
use kvstore_ffi.Prelude.State.{Returns, returns, bind, mono}
use kvstore_ffi.Text.{Text}
use kvstore_ffi.Memory.Counts.{Keeps, Keeps-refl, Keeps-trans}
use kvstore_ffi.Platform.{Platform}
use kvstore_ffi.Ffi.State.{Slice, KvGetResult, Sdk, KvStoreClient as BoxedClient}
use kvstore_ffi.Ffi.{get_error, kv_store_get}
use kvstore_ffi.Ffi.Books.{Inv, Inv-congr, Recached, Updated-Recached}
use kvstore_ffi.Ffi.Get.{owns, Answers, slice_text, GetOutcome, kv_store_get_lem}
use kvstore_ffi.Binding.State.{ValueRef, KvStoreClient, App, client_at}
use kvstore_ffi.Binding.{get_ref, get, try_get, value_ref_destroy}
use kvstore_ffi.Binding.Expected.{get_outcome, try_get_outcome}
use kvstore_ffi.Binding.Ownership.{
  holds, held, AllSound-Keeps, AllLive, AllLive-Updated, AppInv, on_sdk_lem, ref_at-eq,
  value_ref_new_lem,
}
use kvstore_ffi.Binding.Moves.{value_ref_destroy_lem}
use kvstore_ffi.Binding.Answers.{spoken, spoken-IsProper, get_body_lem, try_get_body_lem}

module _ ⦃P : Platform⦄ where
  -- What every outcome of `kv_store_get` has in common.
  pub record Spoke (h : ℕ → ℕ) (s : Sdk) (c : BoxedClient) (k : Option Text)
      (clients : Table KvStoreClient) (r : KvGetResult) (t : Sdk) : Type 0 where
    pub inv : Inv (λ b. h b + owns r.arc_handle b) t
    pub keeps : Keeps s.arcs t.arcs
    pub live : AllLive clients t
    pub boxes : Recached s t
    pub answers : Answers r t.arcs (spoken c s k).0
    pub world : t.world ≡ (spoken c s k).1

  Spoke-of_outcome :
      (h : ℕ → ℕ) (s : Sdk) (p : ℕ) (c : BoxedClient) (k : Option Text)
      (clients : Table KvStoreClient) (r : KvGetResult) (t : Sdk)
      → Inv h s
      → AllLive clients s
      → deref s.clients p ≡ some c
      → GetOutcome h s p c k r t
      → Spoke h s c k clients r t
  unfolding get_error
  Spoke-of_outcome h s p c none clients r t i live there (e, same) =
      rw (e, same)
        (record {
          inv = Inv-congr (λ b. omega arith) i;
          keeps = Keeps-refl s.arcs;
          live = live;
          boxes = λ q x q'. (x.cache, q');
          answers = refl;
          world = refl;
        })
  Spoke-of_outcome h s p c (some key) clients r t i live there g = record {
    inv = g.inv;
    keeps = g.keeps;
    live = AllLive-Updated clients g.updated live;
    boxes = Updated-Recached there g.updated;
    answers = g.answers;
    world = g.world;
  }

  pub client_at-eq :
      (a : ℕ) (k : KvStoreClient) (s : App)
      → deref s.clients a ≡ some k
      → client_at a s ≡ some (k, s)
  unfolding client_at
  client_at-eq a k s e = rw (e, client_at)

  -- The state after a new `ValueRef` for the key was made at `r`.
  pub record NewRef (s : App) (k : KvStoreClient) (c : BoxedClient) (key : Option Text) (r : ℕ)
      (t : App) : Type 0 where
    pub inv : AppInv t
    pub keeps : Keeps s.sdk.arcs t.sdk.arcs
    pub clients : t.clients ≡ s.clients
    pub boxes : Recached s.sdk t.sdk
    pub world : t.sdk.world ≡ (spoken c s.sdk key).1
    pub result : KvGetResult
    pub answers : Answers result t.sdk.arcs (spoken c s.sdk key).0
    pub refs : t.refs ≡ alloc s.refs (record { client = k.client; result = result })
    pub place : r ≡ fresh s.refs

  -- `GetRef` on a client object that was not moved from returns a `ValueRef` for the answer.
  pub get_ref_lem :
      (a : ℕ) (k : KvStoreClient) (c : BoxedClient) (key : Slice) (s : App)
      → AppInv s
      → deref s.clients a ≡ some k
      → (k.client == 0) ≡ false
      → deref s.sdk.clients k.client ≡ some c
      → Returns (NewRef s k c (slice_text key)) (get_ref a key s)
  unfolding get_ref
  get_ref_lem a k c key s inv e owner boxed = rw (client_at-eq a k s e) (
      bind
        (on_sdk_lem (kv_store_get k.client key) s (
          mono (kv_store_get_lem {held = held s.refs} k.client c key s.sdk inv.books boxed)
            (λ r t o.
              Spoke-of_outcome (held s.refs) s.sdk k.client c (slice_text key) s.clients r t
                inv.books inv.live boxed o)))
        λ r t (sp, refs, objects).
          mono
            (value_ref_new_lem k.client r t (rw refs (Inv-congr (λ b. ground arith) sp.inv))
              (rw refs (
                AllSound-Keeps s.sdk.arcs t.sdk.arcs s.refs sp.keeps
                  (λ b. omega (arith, sp.inv.balance b)) inv.sound))
              (λ _. ((spoken c s.sdk (slice_text key)).0, sp.answers)) (rw objects sp.live)
              (rw objects inv.apart))
            λ b u (iu, sdk, clients, place, table). record {
              inv = iu;
              keeps = rw sdk sp.keeps;
              clients = clients ∙ objects;
              boxes = rw sdk sp.boxes;
              world = ap (λ x. x.world) sdk ∙ sp.world;
              result = r;
              answers = rw sdk sp.answers;
              refs = table ∙ ap (λ x. alloc x (record { client = k.client; result = r })) refs;
              place = place ∙ ap (λ x. fresh x) refs;
            })

  -- What a finished `Get` or `TryGet` leaves: all objects as they were, and their books.
  pub record Read (s : App) (c : BoxedClient) (key : Option Text) (t : App) : Type 0 where
    pub inv : AppInv t
    pub keeps : Keeps s.sdk.arcs t.sdk.arcs
    pub clients : t.clients ≡ s.clients
    pub boxes : Recached s.sdk t.sdk
    pub world : t.sdk.world ≡ (spoken c s.sdk key).1
    pub same : (b : ℕ) → held t.refs b ≡ held s.refs b

  -- The local `ref` ends: what the read leaves.
  pub finish_lem :
      (s t : App) (k : KvStoreClient) (c : BoxedClient) (key : Option Text) (r : ℕ)
      → NewRef s k c key r t
      → Returns (λ _ u. Read s c key u) (value_ref_destroy r t)
  finish_lem s t k c key r n =
      let o : ValueRef = record { client = k.client; result = n.result } in
      let here : deref t.refs r ≡ some o = rw (n.refs, n.place) (deref-alloc_self s.refs o) in
      mono (value_ref_destroy_lem r o t n.inv here) λ _ u e. record {
        inv = e.inv;
        keeps = Keeps-trans n.keeps e.keeps;
        clients = e.clients ∙ n.clients;
        boxes = rw e.boxed n.boxes;
        world = e.world ∙ n.world;
        same = λ b. omega (
          arith,
          ap (λ x. total (holds b) x) e.refs,
          total-write (holds b) t.refs r o none here,
          ap (λ x. total (holds b) x) n.refs,
          total-alloc (holds b) s.refs o,
        );
      }

  -- `Get` on a client object that was not moved from, in a state that keeps the invariant,
  -- returns the value that the cache or the server gives, and throws for each error: a
  -- KeyNotFoundException with the message "Key not found: " and the key where the answer is
  -- KeyNotFound, else a KvStoreException with the message "Get failed" and the code. Whichever way
  -- it ends, the invariant is kept, the client objects are as they were and as many references are
  -- held as before.
  pub get_lem :
      (a : ℕ) (k : KvStoreClient) (c : BoxedClient) (key : Slice) (s : App)
      → AppInv s
      → deref s.clients a ≡ some k
      → (k.client == 0) ≡ false
      → deref s.sdk.clients k.client ≡ some c
      → Returns
          (λ out t.
            (out ≡ get_outcome key (spoken c s.sdk (slice_text key)).0)
            × Read s c (slice_text key) t)
          (get a key s)
  unfolding get
  get_lem a k c key s inv e owner boxed = bind (get_ref_lem a k c key s inv e owner boxed) λ r t n.
      let o : ValueRef = record { client = k.client; result = n.result } in
      rw
        (
          ref_at-eq r o t (rw (n.refs, n.place) (deref-alloc_self s.refs o)),
          get_body_lem key o (spoken c s.sdk (slice_text key)).0 t n.answers
              (spoken-IsProper c s.sdk (slice_text key)),
        )
        (bind (finish_lem s t k c (slice_text key) r n) λ _ u d. returns (refl, d))

  -- `TryGet` on a client object that was not moved from, in a state that keeps the invariant,
  -- returns the value that the cache or the server gives, and nothing for every error; it leaves
  -- what `Get` leaves.
  pub try_get_lem :
      (a : ℕ) (k : KvStoreClient) (c : BoxedClient) (key : Slice) (s : App)
      → AppInv s
      → deref s.clients a ≡ some k
      → (k.client == 0) ≡ false
      → deref s.sdk.clients k.client ≡ some c
      → Returns
          (λ out t.
            (out ≡ try_get_outcome (spoken c s.sdk (slice_text key)).0)
            × Read s c (slice_text key) t)
          (try_get a key s)
  unfolding try_get
  try_get_lem a k c key s inv e owner boxed =
      bind (get_ref_lem a k c key s inv e owner boxed) λ r t n.
        let o : ValueRef = record { client = k.client; result = n.result } in
        rw
          (
            ref_at-eq r o t (rw (n.refs, n.place) (deref-alloc_self s.refs o)),
            try_get_body_lem o (spoken c s.sdk (slice_text key)).0 t n.answers
                (spoken-IsProper c s.sdk (slice_text key)),
          )
          (bind (finish_lem s t k c (slice_text key) r n) λ _ u d. returns (refl, d))

-- ===== src/Ffi/Set.antt =====
-- `kv_store_set` of core-sdk/src/ffi.rs: its results, the books and what the cache knows after it.
use kvstore_ffi.Prelude.{
  ℕ, ◌+◌, ◌≡◌, refl, inl, inr, Option, none, some, arith, Option-cases, sym, ap, subst, ◌∙◌,
}
use kvstore_ffi.Prelude.Table.{deref, deref_ne_null}
use kvstore_ffi.Prelude.State.{Returns, returns, bind, mono}
use kvstore_ffi.Text.{Text, from_utf8}
use kvstore_ffi.ErrorCode.{ErrorCode}
use kvstore_ffi.Memory.{arc_drop}
use kvstore_ffi.Memory.Counts.{one, nothing, Keeps, Keeps-trans, arc_drop_lem}
use kvstore_ffi.Platform.{Platform}
use kvstore_ffi.Http.{Result, ok, err, http_set}
use kvstore_ffi.Cache.{KvCache, cache_insert, cache_invalidate}
use kvstore_ffi.Cache.Accounts.{
  SameCounts, Inserts, Invalidates, cache_insert_lem, cache_invalidate_lem,
}
use kvstore_ffi.Cache.View.{
  Contents, learn, Forgets, Forgets-trans, cached, cached_same, cached-insert, cached-invalidate,
}
use kvstore_ffi.Ffi.State.{Slice, null, at, KvSetResult, KvStoreClient, Sdk, on_arcs}
use kvstore_ffi.Ffi.Books.{
  Inv, Inv-Owned, Inv-congr, Updated, on_arcs_lem, on_cache_lem, on_http_lem,
}
use kvstore_ffi.Ffi.Get.{slice_text}
use kvstore_ffi.Ffi.{set_success, set_error, stored, set_key, set_slices, kv_store_set}

-- The result that tells the outcome of a write.
abbrev pub set_result : Result (Unit {0}) → KvSetResult
set_result (ok _) = set_success
set_result (err code) = set_error code

-- What the cache knows after a write: the new value or nothing of a key that the server took,
-- nothing of a key whose write failed; of the others what it knew, or nothing.
abbrev pub Writes : Contents → Text → Text → Result (Unit {0}) → Contents → Type 0
Writes f key value (ok _) g = Forgets (learn f key value) g
Writes f key value (err code) g = Forgets f g × (g key ≡ none)

module _ ⦃P : Platform⦄ where
  -- A reference that the callers hold is given back.
  pub release_lem :
      {held : ℕ → ℕ} (a : ℕ) (s : Sdk)
      → Inv (λ b. held b + one a b) s
      → Returns
          (λ _ t. Inv held t × Keeps s.arcs t.arcs × (t.clients ≡ s.clients) × (t.world ≡ s.world))
          (on_arcs (arc_drop a) s)
  release_lem {held} a s i =
      mono
        (on_arcs_lem nothing (one a) (λ _ _. Unit {0}) (arc_drop a) s (λ b. omega arith) i
          (mono (arc_drop_lem a s.arcs i.counted (ground (arith, i.balance a))) λ _ g k. (k, tt)))
        λ _ t (i', keeps, clients, world, _).
          (Inv-congr (λ b. omega arith) i', keeps, clients, world)

  -- The outcome of a write that the server answered by `res`, leaving the world `w`.
  pub record Wrote (held : ℕ → ℕ) (s : Sdk) (p : ℕ) (c : KvStoreClient) (key value : Text)
      (res : Result (Unit {0})) (w : P.World) (r : KvSetResult) (t : Sdk) : Type 0 where
    pub inv : Inv held t
    pub keeps : Keeps s.arcs t.arcs
    pub cache : KvCache
    pub updated : Updated s p c cache t
    pub answers : r ≡ set_result res
    pub world : t.world ≡ w
    pub writes : Writes (cached c.cache s.arcs) key value res (cached cache t.arcs)
    pub counts : SameCounts c.cache cache

  pub stored_lem :
      {held : ℕ → ℕ} (p : ℕ) (c : KvStoreClient) (key value : Text) (r : Result (Unit {0}))
      (s : Sdk)
      → Inv held s
      → deref s.clients p ≡ some c
      → Returns (Wrote held s p c key value r s.world) (stored p key value r s)
  unfolding stored
  stored_lem {held} p c key value (ok _) s i e =
      bind
        (on_cache_lem one (Inserts key value c.cache s.arcs) (cache_insert key value) p c s i e
          (cache_insert_lem key value c.cache s.arcs i.counted (Inv-Owned p c i e)))
        λ a t (i', keeps, w, (d, up, (text, _, store, same_counts))).
          bind (release_lem {held = held} a t i') λ _ u (iu, keeps', clients, world).
            returns (record {
              inv = iu;
              keeps = Keeps-trans keeps keeps';
              cache = d;
              updated = record {
                here = subst (λ k. deref k p ≡ some (record c { cache = d })) (sym clients) up.here;
                elsewhere = λ q n. ap (λ k. deref k q) clients ∙ up.elsewhere q n;
              };
              answers = refl;
              world = world ∙ w;
              writes =
                  Forgets-trans
                    (cached-insert c.cache d s.arcs t.arcs key value a keeps (Inv-Owned p c i e)
                      store text)
                    λ j.
                      cached_same d d t.arcs u.arcs j keeps'
                        (Inv-Owned p (record c { cache = d }) i' up.here) (inl refl);
              counts = same_counts;
            })
  stored_lem {held} p c key value (err code) s i e =
      bind
        (on_cache_lem (λ _. nothing) (Invalidates key c.cache) (cache_invalidate key) p c s i e
          (cache_invalidate_lem key c.cache s.arcs i.counted (Inv-Owned p c i e)))
        λ _ t (i', keeps, w, (d, up, (store, same_counts))). returns (record {
          inv = Inv-congr (λ b. omega arith) i';
          keeps = keeps;
          cache = d;
          updated = up;
          answers = refl;
          world = w;
          writes = cached-invalidate c.cache d s.arcs t.arcs key keeps (Inv-Owned p c i e) store;
          counts = same_counts;
        })

  -- The same, with the answer of the server to the one request.
  abbrev pub WroteReply :
      (ℕ → ℕ) → Sdk → ℕ → KvStoreClient → Text → Text → KvSetResult → Sdk → Type 0
  WroteReply held s p c key value =
      Wrote held s p c key value (http_set c.http_client key value s.world).0
        (http_set c.http_client key value s.world).1

  pub set_key_lem :
      {held : ℕ → ℕ} (p : ℕ) (c : KvStoreClient) (key value : Text) (s : Sdk)
      → Inv held s
      → deref s.clients p ≡ some c
      → Returns (WroteReply held s p c key value) (set_key p key value s)
  unfolding set_key
  set_key_lem {held} p c key value s i e =
      bind (on_http_lem (λ h. http_set h key value) p c s i e)
        λ r u (iu, arcs, clients, answer, world).
          rw (← answer, ← world)
            (mono
              (stored_lem p c key value r u iu (subst (λ k. deref k p ≡ some c) (sym clients) e))
              λ q t o. record {
                inv = o.inv;
                keeps = subst (λ h. Keeps h t.arcs) arcs o.keeps;
                cache = o.cache;
                updated = record {
                  here = o.updated.here;
                  elsewhere = λ x n. o.updated.elsewhere x n ∙ ap (λ k. deref k x) clients;
                };
                answers = o.answers;
                world = o.world;
                writes =
                    subst (λ h. Writes (cached c.cache h) key value r (cached o.cache t.arcs)) arcs
                      o.writes;
                counts = o.counts;
              })

  -- What `kv_store_set` does with the texts that the slices hold.
  abbrev pub SetOutcome :
      (ℕ → ℕ) → Sdk → ℕ → KvStoreClient → Option Text → Option Text → KvSetResult → Sdk → Type 0
  SetOutcome held s p c (some key) (some value) r t = WroteReply held s p c key value r t
  SetOutcome held s p c (some key) none r t = (r ≡ set_error ErrorCode.invalid_input) × (t ≡ s)
  SetOutcome held s p c none v r t = (r ≡ set_error ErrorCode.invalid_input) × (t ≡ s)

  set_slices_lem :
      {held : ℕ → ℕ} (p : ℕ) (c : KvStoreClient) (k v : Slice) (s : Sdk)
      → Inv held s
      → deref s.clients p ≡ some c
      → Returns (SetOutcome held s p c (slice_text k) (slice_text v)) (set_slices p k v s)
  unfolding set_slices
  set_slices_lem p c (null n) v s i e = returns (refl, refl)
  set_slices_lem p c (at key) (null n) s i e = elim (Option-cases (from_utf8 key)) [
    | inl bad ↦ rw bad (returns (refl, refl))
    | inr (k, good) ↦ rw good (returns (refl, refl))
  ]
  set_slices_lem {held} p c (at key) (at value) s i e = elim (Option-cases (from_utf8 key)) [
    | inl bad ↦ rw (bad, set_slices) (returns (refl, refl))
    | inr (k, good) ↦ elim (Option-cases (from_utf8 value)) [
      | inl bad ↦ rw (good, bad, set_slices) (returns (refl, refl))
      | inr (v, fine) ↦ rw (good, fine, set_slices) (set_key_lem {held = held} p c k v s i e)
    ]
  ]

  -- `kv_store_set` on a live client, where the books are right, returns. A null or non-UTF-8 key
  -- or value gives InvalidInput and changes nothing. Otherwise one request is made, and its
  -- outcome is the result: on success the cache holds the new value of the key or none, on
  -- failure it holds none; of other keys it forgets at most. The callers hold what they held,
  -- and the books stay right.
  pub kv_store_set_lem :
      {held : ℕ → ℕ} (p : ℕ) (c : KvStoreClient) (k v : Slice) (s : Sdk)
      → Inv held s
      → deref s.clients p ≡ some c
      → Returns (SetOutcome held s p c (slice_text k) (slice_text v)) (kv_store_set p k v s)
  unfolding kv_store_set
  kv_store_set_lem {held} p c k v s i e =
      rw (deref_ne_null s.clients p c e) (set_slices_lem {held = held} p c k v s i e)

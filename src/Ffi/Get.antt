-- ===== src/Ffi/Get.antt =====
-- `kv_store_get` of core-sdk/src/ffi.rs: its results, the books and what the cache learns.
use kvstore_ffi.Prelude.{
  ℕ, zero, suc, false, ◌+◌, ◌≡◌, refl, inl, inr, Option, none, some, arith, ◌==◌, if◌then◌else◌,
  length, Option-cases, sym, ap, subst, ◌∙◌,
}
use kvstore_ffi.Prelude.Table.{deref, deref_ne_null}
use kvstore_ffi.Prelude.State.{Returns, returns, bind, mono}
use kvstore_ffi.Text.{Text, from_utf8}
use kvstore_ffi.ErrorCode.{ErrorCode, as_i32}
use kvstore_ffi.Memory.{Arcs, text_at}
use kvstore_ffi.Memory.Counts.{one, Keeps, Keeps-refl, Keeps-trans, Keeps-text, strong_text}
use kvstore_ffi.Platform.{Platform}
use kvstore_ffi.Http.{Result, ok, err, http_get}
use kvstore_ffi.Cache.{KvCache, cache_get, cache_insert}
use kvstore_ffi.Cache.Accounts.{
  gained, Accessed, SameCounts, LooksUp, Inserts, cache_get_lem, cache_insert_lem,
}
use kvstore_ffi.Cache.View.{
  Contents, learn, Forgets, Forgets-trans, Forgets-learn, Forgets-known, cached, cached_same,
  cached_hit, cached_miss, cached-insert,
}
use kvstore_ffi.Ffi.State.{Slice, null, at, KvGetResult, KvStoreClient, Sdk, on_arcs}
use kvstore_ffi.Ffi.Books.{
  Inv, Inv-Owned, Inv-congr, Updated, Updated-refl, Updated-trans, on_cache_lem, on_http_lem,
}
use kvstore_ffi.Ffi.{get_success, get_error, fetched, looked_up, get_key, get_slice, kv_store_get}

-- The reference that a handle stands for; the null handle stands for none.
abbrev pub owns : ℕ → ℕ → ℕ
owns a b = if a == 0 then 0 else one a b

-- A result tells of a value: code 0, a pointer into the `Arc` that its handle keeps, the length and
-- the text. Or of an error: its code, and no pointers.
abbrev pub Answers : KvGetResult → Arcs → Result Text → Type 0
Answers r h (ok v) =
    (r.error_code ≡ 0)
    × (r.value.ptr ≡ r.arc_handle)
    × (r.value.len ≡ length v)
    × (text_at h r.arc_handle ≡ some v)
Answers r h (err code) = r ≡ get_error code

pub text_at_ne_null : (h : Arcs) (a : ℕ) (t : Text) → text_at h a ≡ some t → (a == 0) ≡ false
unfolding text_at deref
text_at_ne_null h zero t e = cc
text_at_ne_null h (suc a) t e = ground arith

module _ ⦃P : Platform⦄ where
  open P use {get, refs, refs-get}

  pub get_success_lem :
      (a : ℕ) (t : Text) (s : Sdk)
      → text_at s.arcs a ≡ some t
      → Returns
          (λ r u. (u ≡ s) × Answers r s.arcs (ok t) × (r.arc_handle ≡ a))
          (on_arcs (get_success a) s)
  unfolding get_success on_arcs as_i32
  get_success_lem a t s e =
      rw (e, on_arcs, get_success) (returns (refl, (refl, refl, refl, e), refl))

  pub deliver_lem :
      (held : ℕ → ℕ) (a : ℕ) (t : Text) (s : Sdk)
      → Inv (λ b. held b + one a b) s
      → text_at s.arcs a ≡ some t
      → Returns
          (λ r u. (u ≡ s) × Answers r s.arcs (ok t) × Inv (λ b. held b + owns r.arc_handle b) s)
          (on_arcs (get_success a) s)
  deliver_lem held a t s i e =
      mono (get_success_lem a t s e)
        λ r u (same, answers, handle). (same, answers, rw (handle, text_at_ne_null s.arcs a t e) i)

  -- What `kv_store_get` should answer for a valid key, and the world after it: the cached value,
  -- with no request; else what the server says.
  abbrev pub reply : KvStoreClient → Text → Option Text → P.World → Result Text × P.World
  reply c key (some v) w = (ok v, w)
  reply c key none w = http_get c.http_client key w

  -- What the cache knows after an answer.
  abbrev pub learnt : Contents → Text → Result Text → Contents
  learnt f key (ok v) = learn f key v
  learnt f key (err code) = f

  -- The outcome of a call that read the key, from state `s`: the result says `res`, the world is
  -- `w`, the cache learnt the value, and the books count the reference in the result.
  pub record Got (held : ℕ → ℕ) (s : Sdk) (p : ℕ) (c : KvStoreClient) (key : Text)
      (res : Result Text) (w : P.World) (r : KvGetResult) (t : Sdk) : Type 0 where
    pub inv : Inv (λ b. held b + owns r.arc_handle b) t
    pub keeps : Keeps s.arcs t.arcs
    pub cache : KvCache
    pub updated : Updated s p c cache t
    pub answers : Answers r t.arcs res
    pub world : t.world ≡ w
    pub learns : Forgets (learnt (cached c.cache s.arcs) key res) (cached cache t.arcs)
    pub counts : Accessed (cached c.cache s.arcs key) c.cache cache

  -- The same, with the answer and the world that `kv_store_get` should give.
  abbrev pub GotReply : (ℕ → ℕ) → Sdk → ℕ → KvStoreClient → Text → KvGetResult → Sdk → Type 0
  GotReply held s p c key =
      Got held s p c key (reply c key (cached c.cache s.arcs key) s.world).0
        (reply c key (cached c.cache s.arcs key) s.world).1

  Forgets-learnt :
      {f g : Contents} (key : Text) (r : Result Text)
      → Forgets f g
      → Forgets (learnt f key r) (learnt g key r)
  Forgets-learnt key (ok v) p = Forgets-learn key v p
  Forgets-learnt key (err code) p = p

  pub fetched_lem :
      {held : ℕ → ℕ} (p : ℕ) (c : KvStoreClient) (key : Text) (r : Result Text) (s : Sdk)
      → Inv held s
      → deref s.clients p ≡ some c
      → Returns
          (λ q t.
            Inv (λ b. held b + owns q.arc_handle b) t
            × Keeps s.arcs t.arcs
            × Answers q t.arcs r
            × (t.world ≡ s.world)
            × ((d : KvCache) × Updated s p c d t
                × Forgets (learnt (cached c.cache s.arcs) key r) (cached d t.arcs)
                × SameCounts c.cache d))
          (fetched p key r s)
  unfolding fetched get_error
  fetched_lem {held} p c key (ok v) s i e =
      bind
        (on_cache_lem one (Inserts key v c.cache s.arcs) (cache_insert key v) p c s i e
          (cache_insert_lem key v c.cache s.arcs i.counted (Inv-Owned p c i e)))
        λ a t (i', keeps, w, (d, up, (text, _, store, same_counts))).
          mono (deliver_lem held a v t i' text) λ r u (same, answers, books). rw same (
            books,
            keeps,
            answers,
            w,
            (
              d,
              up,
              cached-insert c.cache d s.arcs t.arcs key v a keeps (Inv-Owned p c i e) store text,
              same_counts,
            ),
          )
  fetched_lem p c key (err code) s i e = returns (
    Inv-congr (λ b. omega arith) i,
    Keeps-refl s.arcs,
    refl,
    refl,
    (c.cache, Updated-refl s p c e, λ j. inl refl, (refl, refl)),
  )

  hit_lem :
      {held : ℕ → ℕ} (p : ℕ) (c : KvStoreClient) (key v : Text) (a : ℕ) (s t : Sdk) (d : KvCache)
      → Inv held s
      → deref s.clients p ≡ some c
      → Inv (λ b. held b + one a b) t
      → Keeps s.arcs t.arcs
      → t.world ≡ s.world
      → Updated s p c d t
      → get c.cache.store key ≡ some a
      → d.store ≡ c.cache.store
      → Accessed (some a) c.cache d
      → text_at s.arcs a ≡ some v
      → Returns (GotReply held s p c key) (on_arcs (get_success a) t)
  hit_lem {held} p c key v a s t d i e i' keeps w up hit store counts q =
      let known = cached_hit c.cache s.arcs key a hit ∙ q in
      rw known (
        mono (deliver_lem held a v t i' (Keeps-text keeps a v q (ground (arith, i'.balance a))))
          λ r u (same, answers, books). rw same (record {
            inv = books;
            keeps = keeps;
            cache = d;
            updated = up;
            answers = answers;
            world = w;
            learns = Forgets-known key v known λ j.
                cached_same c.cache d s.arcs t.arcs j keeps (Inv-Owned p c i e)
                  (inl (ap (λ x. get x j) store));
            counts = subst (λ o. Accessed o c.cache d) (sym known) counts;
          }))

  miss_lem :
      {held : ℕ → ℕ} (p : ℕ) (c : KvStoreClient) (key : Text) (s t : Sdk) (d : KvCache)
      → Inv held s
      → deref s.clients p ≡ some c
      → Inv held t
      → Keeps s.arcs t.arcs
      → t.world ≡ s.world
      → Updated s p c d t
      → get c.cache.store key ≡ none
      → d.store ≡ c.cache.store
      → Accessed {A = ℕ} none c.cache d
      → Returns (GotReply held s p c key) (looked_up p key none t)
  unfolding looked_up
  miss_lem {held} p c key s t d i e i' keeps w up miss store counts =
      let c' : KvStoreClient = record c { cache = d } in
      let http = λ (o : P.World). http_get c.http_client key o in
      rw (cached_miss c.cache s.arcs key miss) (
        bind (on_http_lem (λ h. http_get h key) p c' t i' up.here)
          λ r u (iu, arcs, clients, answer, world).
            mono
              (fetched_lem p c' key r u iu (subst (λ k. deref k p ≡ some c') (sym clients) up.here))
              λ q z (iz, keeps', answers, w', (d', up', forgets, same)).
                let said = answer ∙ ap (λ o. (http o).0) w in
                record {
                  inv = iz;
                  keeps = Keeps-trans keeps (subst (λ h. Keeps h z.arcs) arcs keeps');
                  cache = d';
                  updated = Updated-trans up clients up';
                  answers = subst (Answers q z.arcs) said answers;
                  world = w' ∙ world ∙ ap (λ o. (http o).1) w;
                  learns =
                      Forgets-trans
                        (Forgets-learnt key (http s.world).0 λ j.
                          cached_same c.cache d s.arcs u.arcs j
                            (subst (Keeps s.arcs) (sym arcs) keeps) (Inv-Owned p c i e)
                            (inl (ap (λ x. get x j) store)))
                        (subst (λ x. Forgets (learnt (cached d u.arcs) key x) (cached d' z.arcs))
                          said forgets);
                  counts =
                      subst (λ o. Accessed o c.cache d') (sym (cached_miss c.cache s.arcs key miss))
                        (same.0 ∙ counts.0, same.1 ∙ counts.1);
                })

  -- For a live client and a valid key, `kv_store_get` answers from the cache or by one request.
  pub get_key_lem :
      {held : ℕ → ℕ} (p : ℕ) (c : KvStoreClient) (key : Text) (s : Sdk)
      → Inv held s
      → deref s.clients p ≡ some c
      → Returns (GotReply held s p c key) (get_key p key s)
  unfolding get_key
  get_key_lem {held} p c key s i e =
      bind
        (on_cache_lem gained (LooksUp key c.cache) (cache_get key) p c s i e
          (cache_get_lem key c.cache s.arcs i.counted (Inv-Owned p c i e)))
        λ found t (i', keeps, w, (d, up, (looks, store, counts))).
          go found t d i' keeps w up looks store counts
    where
      go :
          (found : Option ℕ) (t : Sdk) (d : KvCache)
          → Inv (λ b. held b + gained found b) t
          → Keeps s.arcs t.arcs
          → t.world ≡ s.world
          → Updated s p c d t
          → found ≡ get c.cache.store key
          → d.store ≡ c.cache.store
          → Accessed found c.cache d
          → Returns (GotReply held s p c key) (looked_up p key found t)
      go none t d i' keeps w up looks store counts =
          miss_lem p c key s t d i e (Inv-congr (λ b. omega arith) i') keeps w up (sym looks) store
            counts
      go (some a) t d i' keeps w up looks store counts =
          let (v, q) =
            strong_text s.arcs a
              (omega (arith, refs-get c.cache.store key a (sym looks), Inv-Owned p c i e a)) in
          hit_lem p c key v a s t d i e i' keeps w up (sym looks) store counts q

  -- The key that a slice holds: a null pointer holds none, nor do bytes that are no UTF-8.
  abbrev pub slice_text : Slice → Option Text
  slice_text (null n) = none
  slice_text (at bytes) = from_utf8 bytes

  abbrev pub GetOutcome :
      (ℕ → ℕ) → Sdk → ℕ → KvStoreClient → Option Text → KvGetResult → Sdk → Type 0
  GetOutcome held s p c none r t = (r ≡ get_error ErrorCode.invalid_input) × (t ≡ s)
  GetOutcome held s p c (some key) r t = GotReply held s p c key r t

  get_slice_lem :
      {held : ℕ → ℕ} (p : ℕ) (c : KvStoreClient) (k : Slice) (s : Sdk)
      → Inv held s
      → deref s.clients p ≡ some c
      → Returns (GetOutcome held s p c (slice_text k)) (get_slice p k s)
  unfolding get_slice
  get_slice_lem p c (null n) s i e = returns (refl, refl)
  get_slice_lem {held} p c (at bytes) s i e = elim (Option-cases (from_utf8 bytes)) [
    | inl bad ↦ rw (bad, get_slice) (returns (refl, refl))
    | inr (key, good) ↦ rw (good, get_slice) (get_key_lem {held = held} p c key s i e)
  ]

  -- `kv_store_get` on a live client, where the books are right, returns, whatever the key is. A
  -- null or non-UTF-8 key gives InvalidInput and changes nothing. For any other key the result
  -- is the cached value, with no request, or what one request to the server gives; a value is
  -- delivered with a handle that the books count, the text behind it and its length; the cache
  -- learns a fetched value and forgets at most.
  pub kv_store_get_lem :
      {held : ℕ → ℕ} (p : ℕ) (c : KvStoreClient) (k : Slice) (s : Sdk)
      → Inv held s
      → deref s.clients p ≡ some c
      → Returns (GetOutcome held s p c (slice_text k)) (kv_store_get p k s)
  unfolding kv_store_get
  kv_store_get_lem {held} p c k s i e =
      rw (deref_ne_null s.clients p c e) (get_slice_lem {held = held} p c k s i e)

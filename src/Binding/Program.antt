-- ===== src/Binding/Program.antt =====
-- Programs over the wrapper: any sequence of calls on objects that are alive.
use kvstore_ffi.Prelude.{
  Bool-cases, ℕ, ◌≡◌, refl, inl, inr, false, none, some, List, [], ◌∷◌, arith, ◌==◌, Option-cases,
  ap, subst,
}
use kvstore_ffi.Prelude.Table.{deref, weight-le-total, total-empty}
use kvstore_ffi.Prelude.State.{Run, pure, ◌>>=◌, ◌>>◌, Returns, returns, bind, mono, outcome}
use kvstore_ffi.Text.{Text}
use kvstore_ffi.Memory.{text_at, strong_at}
use kvstore_ffi.Http.{ok, err}
use kvstore_ffi.Memory.Counts.{nothing, Keeps, Keeps-refl, Keeps-trans, Keeps-text}
use kvstore_ffi.Platform.{Platform}
use kvstore_ffi.Ffi.State.{Slice, on_cache, KvStoreClient as BoxedClient}
use kvstore_ffi.ErrorCode.{ErrorCode}
use kvstore_ffi.Ffi.{get_error}
use kvstore_ffi.Ffi.Get.{text_at_ne_null}
use kvstore_ffi.Ffi.Books.{Inv-Owned, Inv-congr, on_cache_lem, client_refs}
use kvstore_ffi.Cache.{cache_maintain}
use kvstore_ffi.Cache.Accounts.{Maintains, cache_maintain_lem}
use kvstore_ffi.Binding.State.{Config, on_sdk, read_view, ValueRef, KvStoreClient, App}
use kvstore_ffi.Binding.{
  c_config, client_new, client_move, client_assign, get_cache_stats, value_ref_destroy,
  value_ref_move, value_ref_assign, client_destroy, get_ref, get, try_get, set, clear_cache,
}
use kvstore_ffi.Binding.Assignment.{client_assign_lem}
use kvstore_ffi.Binding.Clients.{
  client_new_lem, client_move_lem, client_destroy-moved, get_cache_stats_lem,
}
use kvstore_ffi.Binding.Ownership.{holds, held, IsSound, AppInv, AllLive-Updated, on_sdk_lem}
use kvstore_ffi.Binding.Moves.{value_ref_destroy_lem, value_ref_move_lem, value_ref_assign_lem}
use kvstore_ffi.Binding.Answers.{read_view_lem}
use kvstore_ffi.Binding.Reads.{get_ref_lem, get_lem, try_get_lem}
use kvstore_ffi.Binding.Writes.{after_sdk, set_lem, clear_cache_lem, client_destroy_lem}

-- The calls, on objects named by their addresses.
pub data Call : Type 0 where
  calls_get_ref calls_get calls_try_get : ℕ → Slice → Call
  calls_set : ℕ → Slice → Slice → Call
  calls_client_new : Config → Call
  calls_clear_cache calls_client_move calls_client_destroy : ℕ → Call
  calls_ref_move calls_ref_destroy : ℕ → Call
  calls_ref_assign calls_client_assign : ℕ → ℕ → Call
  calls_get_cache_stats : ℕ → Call
  -- The cache of the boxed client at this pointer runs its maintenance.
  cache_maintains : ℕ → Call

module _ ⦃P : Platform⦄ where
  unfoldable pub perform : Call → Run App (Unit {0})
  perform (calls_get_ref a key) = do r ← get_ref a key; pure tt
  perform (calls_get a key) = do out ← get a key; pure tt
  perform (calls_try_get a key) = do out ← try_get a key; pure tt
  perform (calls_set a key value) = do out ← set a key value; pure tt
  perform (calls_clear_cache a) = clear_cache a
  perform (calls_client_new config) = do made ← client_new config; pure tt
  perform (calls_client_move a) = do b ← client_move a; pure tt
  perform (calls_client_assign a b) = client_assign a b
  perform (calls_get_cache_stats a) = do stats ← get_cache_stats a; pure tt
  perform (calls_client_destroy a) = client_destroy a
  perform (calls_ref_move a) = do r ← value_ref_move a; pure tt
  perform (calls_ref_destroy a) = value_ref_destroy a
  perform (calls_ref_assign a b) = value_ref_assign a b
  perform (cache_maintains p) = on_sdk (on_cache p cache_maintain)

  -- The object at `a` is a client object within its lifetime.
  abbrev pub IsObject : ℕ → App → Type 0
  IsObject a s = (k : KvStoreClient) × (deref s.clients a ≡ some k)

  -- The object at `a` is a client that was not moved from.
  abbrev pub IsClient : ℕ → App → Type 0
  IsClient a s = (k : KvStoreClient) × (deref s.clients a ≡ some k) × ((k.client == 0) ≡ false)

  -- The object at `a` is a `ValueRef` within its lifetime.
  abbrev pub IsRef : ℕ → App → Type 0
  IsRef a s = (o : ValueRef) × (deref s.refs a ≡ some o)

  -- The call is on objects that are alive; a new client has a time to live that moka takes.
  abbrev pub IsLegal : Call → App → Type 0
  IsLegal (calls_get_ref a key) s = IsClient a s
  IsLegal (calls_get a key) s = IsClient a s
  IsLegal (calls_try_get a key) s = IsClient a s
  IsLegal (calls_set a key value) s = IsClient a s
  IsLegal (calls_clear_cache a) s = IsClient a s
  IsLegal (calls_client_new config) s =
      (st : P.Store) × (P.build (c_config config).cache_capacity (c_config config).cache_ttl_ms
        ≡ some st)
  IsLegal (calls_client_move a) s = IsObject a s
  IsLegal (calls_client_assign a b) s = IsObject a s × IsObject b s
  IsLegal (calls_get_cache_stats a) s = IsClient a s
  IsLegal (calls_client_destroy a) s = IsObject a s
  IsLegal (calls_ref_move a) s = IsRef a s
  IsLegal (calls_ref_destroy a) s = IsRef a s
  IsLegal (calls_ref_assign a b) s = IsRef a s × IsRef b s
  IsLegal (cache_maintains p) s = (c : BoxedClient) × (deref s.sdk.clients p ≡ some c)

  abbrev pub Safe : App → App → Type 0
  Safe s t = AppInv t × Keeps s.sdk.arcs t.sdk.arcs

  perform_lem :
      (x : Call) (s : App) → AppInv s → IsLegal x s → Returns (λ _ t. Safe s t) (perform x s)
  unfolding perform
  perform_lem (calls_get_ref a key) s i (k, e, own) =
      let (c, there) = i.live a k e own in
      bind (get_ref_lem a k c key s i e own there) λ r t n. returns (n.inv, n.keeps)
  perform_lem (calls_get a key) s i (k, e, own) =
      let (c, there) = i.live a k e own in
      bind (get_lem a k c key s i e own there) λ r t (_, d). returns (d.inv, d.keeps)
  perform_lem (calls_try_get a key) s i (k, e, own) =
      let (c, there) = i.live a k e own in
      bind (try_get_lem a k c key s i e own there) λ r t (_, d). returns (d.inv, d.keeps)
  perform_lem (calls_set a key value) s i (k, e, own) =
      let (c, there) = i.live a k e own in
      bind (set_lem a k c key value s i e own there) λ r t d. returns (d.inv, d.keeps)
  perform_lem (calls_clear_cache a) s i (k, e, own) =
      let (c, there) = i.live a k e own in
      mono (clear_cache_lem a k c s i e own there) λ _ t d. (d.0, d.1)
  perform_lem (calls_client_new config) s i (st, e) =
      bind (client_new_lem config st s i e)
        λ out t (i', arcs, world, refs, made). returns (i', rw arcs (Keeps-refl s.sdk.arcs))
  perform_lem (calls_client_move a) s i (k, e) =
      bind (client_move_lem a k s i e)
        λ b t (i', sdk, refs, place, objects). returns (i', rw sdk (Keeps-refl s.sdk.arcs))
  perform_lem (calls_client_assign a b) s i ((t, ea), (k, eb)) =
      mono (client_assign_lem a b t k s i ea eb) λ _ u d. (d.0, d.1)
  perform_lem (calls_get_cache_stats a) s i (k, e, own) =
      let (c, there) = i.live a k e own in
      rw (get_cache_stats_lem a k c s e there) (returns (i, Keeps-refl s.sdk.arcs))
  perform_lem (calls_client_destroy a) s i (k, e) = elim (Bool-cases (k.client == 0)) [
    | inl null ↦
        mono (client_destroy-moved a k s i e null)
          λ _ t (i', sdk, refs). (i', rw sdk (Keeps-refl s.sdk.arcs))
    | inr own ↦
        let (c, there) = i.live a k e own in
        mono (client_destroy_lem a k c s i e own there) λ _ t d. (d.0, d.1)
  ]
  perform_lem (calls_ref_move a) s i (o, e) =
      bind (value_ref_move_lem a o s i e)
        λ b t (i', sdk, _, _, _). returns (i', rw sdk (Keeps-refl s.sdk.arcs))
  perform_lem (calls_ref_destroy a) s i (o, e) =
      mono (value_ref_destroy_lem a o s i e) λ _ t d. (d.inv, d.keeps)
  perform_lem (calls_ref_assign a b) s i ((t, ea), (o, eb)) =
      mono (value_ref_assign_lem a b t o s i ea eb) λ _ u d. (d.0, d.1)
  perform_lem (cache_maintains p) s i (c, e) =
      mono
        (on_sdk_lem (on_cache p cache_maintain) s (
          on_cache_lem (λ _. nothing) (Maintains c.cache) cache_maintain p c s.sdk i.books e
            (cache_maintain_lem c.cache s.sdk.arcs i.books.counted (Inv-Owned p c i.books e))))
        λ _ t ((j, keeps, w, (d, up, _)), refs, objects). (
          after_sdk s t (Inv-congr (λ b. omega arith) j) keeps refs objects
              (AllLive-Updated s.clients up i.live) i,
          keeps,
        )

  unfoldable pub run : List Call → Run App (Unit {0})
  run [] = pure tt
  run (x ∷ xs) = do perform x; run xs

  -- Each call is legal in the state in which it is made.
  abbrev pub AllLegal : List Call → App → Type 0
  AllLegal [] s = Unit {0}
  AllLegal (x ∷ xs) s = IsLegal x s × ((t : App) → perform x s ≡ some (tt, t) → AllLegal xs t)

  -- From a state that keeps the invariant, no sequence of legal calls faults: no text is read after
  -- it is freed, and none is freed twice. The invariant is kept, and every text is kept or freed,
  -- never changed. A call is legal if the objects that it is on are live in the state in which it
  -- is made; if in addition, for GetRef, Get, TryGet, Set, ClearCache and GetCacheStats, the
  -- client object was not moved from; and, for a new client, if moka takes its time to live.
  pub run-Safe :
      (xs : List Call) (s : App) → AppInv s → AllLegal xs s → Returns (λ _ t. Safe s t) (run xs s)
  unfolding run
  run-Safe [] s i legal = returns (i, Keeps-refl s.sdk.arcs)
  run-Safe (x ∷ xs) s i (now, later) =
      let (_, t, e, (i', keeps)) = outcome (perform_lem x s i now) in
      rw e (mono (run-Safe xs t i' (later t e)) λ _ u (iu, keeps'). (iu, Keeps-trans keeps keeps'))

  pub read_view_err :
      (o : ValueRef) (code : ErrorCode) (s : App)
      → o.result ≡ get_error code
      → read_view o s ≡ some ([], s)
  unfolding read_view get_error kvstore_ffi.Ffi.State.null_ref
  read_view_err o code s q = rw (ap (λ r. r.value.len == 0) q) refl

  -- The text of a `ValueRef` with a client stays the same: where a legal sequence of calls,
  -- which may overwrite, invalidate or evict the key or destroy the client, runs from a state
  -- that keeps the invariant and leaves the object as it was, a read of its view succeeds before
  -- and after it and gives the same text.
  pub read_view_stable :
      (xs : List Call) (s t : App) (a : ℕ) (o : ValueRef)
      → AppInv s
      → AllLegal xs s
      → run xs s ≡ some (tt, t)
      → deref s.refs a ≡ some o
      → deref t.refs a ≡ some o
      → (o.client == 0) ≡ false
      → (v : Text) × (read_view o s ≡ some (v, s)) × (read_view o t ≡ some (v, t))
  read_view_stable xs s t a o i legal e before now own =
      let (_, u, e', (j, keeps)) = outcome (run-Safe xs s i legal) in
      let same : u ≡ t = cc in
      go (i.sound a o before own)
        (subst (λ x. AppInv x × Keeps s.sdk.arcs x.sdk.arcs) same (j, keeps))
    where
      go :
          IsSound s.sdk.arcs o.result
          → AppInv t × Keeps s.sdk.arcs t.sdk.arcs
          → (v : Text) × (read_view o s ≡ some (v, s)) × (read_view o t ≡ some (v, t))
      go (ok v, q) (j, keeps) = (
        v,
        read_view_lem o v s q,
        read_view_lem o v t (
          q.0,
          q.1,
          q.2,
          Keeps-text keeps o.result.arc_handle v q.3 (
              ground (
                arith,
                j.books.balance o.result.arc_handle,
                weight-le-total (holds o.result.arc_handle) t.refs a o now,
                text_at_ne_null s.sdk.arcs o.result.arc_handle v q.3,
              )),
        ),
      )
      go (err code, q) (j, keeps) = ([], read_view_err o code s q, read_view_err o code t q)

  text_gone :
      (s : App)
      → AppInv s
      → ((b : ℕ) → held s.refs b ≡ 0)
      → ((p : ℕ) → deref s.sdk.clients p ≡ none)
      → (b : ℕ) → text_at s.sdk.arcs b ≡ none
  unfolding text_at strong_at
  text_gone s i released destroyed b = elim (Option-cases (deref s.sdk.arcs b)) [
    | inl n ↦ rw (text_at, n) refl
    | inr (c, e) ↦ absurd (
        ground (
          arith,
          i.books.counted b c e,
          i.books.balance b,
          released b,
          total-empty (client_refs b) s.sdk.clients destroyed,
        ))
  ]

  -- Nothing leaks: after a legal sequence of calls from a state that keeps the invariant, if no
  -- `ValueRef` owns a reference and no boxed client is left, no text is left.
  pub no_leak :
      (xs : List Call) (s t : App)
      → AppInv s
      → AllLegal xs s
      → run xs s ≡ some (tt, t)
      → ((b : ℕ) → held t.refs b ≡ 0)
      → ((p : ℕ) → deref t.sdk.clients p ≡ none)
      → (b : ℕ) → text_at t.sdk.arcs b ≡ none
  no_leak xs s t i legal e released destroyed =
      let (_, u, e', (j, keeps)) = outcome (run-Safe xs s i legal) in
      let same : u ≡ t = cc in text_gone t (subst (λ x. AppInv x) same j) released destroyed

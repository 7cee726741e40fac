-- ===== src/Async/Program.antt =====
-- Programs over the asynchronous wrapper: any sequence of calls of its client and of steps of the
-- runtime's tasks.
use kvstore_ffi.Prelude.{
  ℕ, List, [], ◌∷◌, Option, none, some, ◌≡◌, refl, inl, inr, false, sym, ap, subst, arith, ◌==◌,
  Bool-cases,
}
use kvstore_ffi.Prelude.Table.{deref, write, deref-write, deref-alloc, lt_fresh, fresh-write}
use kvstore_ffi.Prelude.State.{Run, pure, ◌>>=◌, ◌>>◌, Returns, returns, bind, mono, outcome}
use kvstore_ffi.Text.{Text}
use kvstore_ffi.Memory.Counts.{Keeps, Keeps-refl, Keeps-trans, nothing}
use kvstore_ffi.Platform.{Platform}
use kvstore_ffi.Cache.{cache_maintain}
use kvstore_ffi.Cache.Accounts.{Maintains, cache_maintain_lem}
use kvstore_ffi.Cache.View.{cached}
use kvstore_ffi.Ffi.State.{Slice, KvStoreClient as BoxedClient, on_cache}
use kvstore_ffi.Ffi.Books.{Inv-Owned, Inv-congr, on_cache_lem}
use kvstore_ffi.Ffi.Get.{slice_text}
use kvstore_ffi.Http.{ok, err}
use kvstore_ffi.Text.{Text}
use kvstore_ffi.Binding.Answers.{read_view_lem}
use kvstore_ffi.Binding.Program.{read_view_err}
use kvstore_ffi.Binding.Ownership.{IsSound, ref_at-eq}
use kvstore_ffi.Binding.State.{ref_at, read_view, ValueRef, Config}
use kvstore_ffi.Async.{
  Shared, Task, AsyncApp, on_app, async_value_ref_destroy, async_value_ref_move,
}
use kvstore_ffi.Async.GetCallback.{on_app_lem, async_value_ref_move_lem}
use kvstore_ffi.Async.Runtime.{on_core, task_asks, task_finishes}
use kvstore_ffi.Async.Client.{
  async_config, async_client_new, async_client_destroy, async_client_move, async_client_assign,
  get_ref_async, set_async, fire_and_forget_set, take_ref, detached_get, async_clear_cache,
  async_get_cache_stats,
}
use kvstore_ffi.Async.Invariant.{IsCore, AsyncInv, Went}
use kvstore_ffi.Async.Cores.{on_core_lem, Below, AsyncInv-below, cores-Updated}
use kvstore_ffi.Async.Tasks.{IsAsking, task_asks_lem}
use kvstore_ffi.Async.Gets.{Looked, GetAsyncOutcome, get_ref_async_lem, get_ref_async-moved}
use kvstore_ffi.Async.Sets.{told, set_async_lem, set_async-moved}
use kvstore_ffi.Async.Futures.{IsFree, AsyncInv-refs, free_destroy_lem, take_ref-Went}
use kvstore_ffi.Async.Await.{take_set_lem}
use kvstore_ffi.Async.Objects.{
  async_client_destroy_lem, async_client_move_lem, async_client_assign_lem,
}
use kvstore_ffi.Async.Setup.{async_client_new_lem, async_clear_cache_lem, async_get_cache_stats_lem}
use kvstore_ffi.Async.Progress.{IsAnswered, task_finishes_lem}

-- The calls of the client, on objects and futures named by their addresses, and the steps of the
-- runtime and of the cache.
pub data AsyncCall : Type 0 where
  calls_new : Config → AsyncCall
  calls_destroy calls_move : ℕ → AsyncCall
  calls_assign : ℕ → ℕ → AsyncCall
  calls_get : ℕ → Slice → AsyncCall
  calls_set calls_fire_and_forget : ℕ → Slice → Slice → AsyncCall
  calls_clear calls_stats : ℕ → AsyncCall
  waits_get waits_set : ℕ → AsyncCall
  ref_moves ref_ends ref_reads : ℕ → AsyncCall
  task_sends task_ends : ℕ → AsyncCall
  core_maintains : ℕ → AsyncCall

module _ ⦃P : Platform⦄ where
  unfoldable pub step : AsyncCall → Run AsyncApp (Unit {0})
  step (calls_new config) = do made ← async_client_new config; pure tt
  step (calls_destroy a) = async_client_destroy a
  step (calls_move a) = do b ← async_client_move a; pure tt
  step (calls_assign a b) = async_client_assign a b
  step (calls_get a key) = do f ← get_ref_async a key; pure tt
  step (calls_set a key text) = do f ← set_async a key text; pure tt
  step (calls_fire_and_forget a key text) = do f ← fire_and_forget_set a key text; pure tt
  step (calls_clear a) = async_clear_cache a
  step (calls_stats a) = do st ← async_get_cache_stats a; pure tt
  step (waits_get f) = do w ← take_ref f; pure tt
  step (waits_set f) = detached_get f
  step (ref_moves r) = do b ← on_app (async_value_ref_move r); pure tt
  step (ref_ends r) = on_app (async_value_ref_destroy r)
  step (ref_reads r) = do o ← on_app (ref_at r); v ← on_app (read_view o); pure tt
  step (task_sends i) = task_asks i
  step (task_ends i) = task_finishes i
  step (core_maintains c) = on_core (on_cache c cache_maintain)

  abbrev pub IsAsyncObject : ℕ → AsyncApp → Type 0
  IsAsyncObject a s = (p : ℕ) × (deref s.objects a ≡ some p)

  abbrev pub IsAsyncClient : ℕ → AsyncApp → Type 0
  IsAsyncClient a s = (p : ℕ) × (deref s.objects a ≡ some p) × ((p == 0) ≡ false)

  -- An `AsyncValueRef` of the client, which is in no shared state.
  abbrev pub IsOwnRef : ℕ → AsyncApp → Type 0
  IsOwnRef r s = (o : ValueRef) × (deref s.app.refs r ≡ some o) × IsFree r s

  -- What a call or a step needs: live objects and futures, a task that stands where the step starts,
  -- a time to live that moka takes.
  abbrev pub IsEnabled : AsyncCall → AsyncApp → Type 0
  IsEnabled (calls_new config) s =
      (st : P.Store) × (P.build (async_config config).cache_capacity
          (async_config config).cache_ttl_ms
        ≡ some st)
  IsEnabled (calls_destroy a) s = IsAsyncObject a s
  IsEnabled (calls_move a) s = IsAsyncObject a s
  IsEnabled (calls_assign a b) s = IsAsyncObject a s × IsAsyncObject b s
  IsEnabled (calls_get a key) s = IsAsyncObject a s
  IsEnabled (calls_set a key text) s = IsAsyncObject a s
  IsEnabled (calls_fire_and_forget a key text) s = IsAsyncObject a s
  IsEnabled (calls_clear a) s = IsAsyncClient a s
  IsEnabled (calls_stats a) s = IsAsyncClient a s
  IsEnabled (waits_get f) s = (c : Shared ℕ) × (deref s.gets f ≡ some c)
  IsEnabled (waits_set f) s = (c : Shared (Unit {0})) × (deref s.sets f ≡ some c)
  IsEnabled (ref_moves r) s = IsOwnRef r s
  IsEnabled (ref_ends r) s = IsOwnRef r s
  IsEnabled (ref_reads r) s =
      (o : ValueRef) × (deref s.app.refs r ≡ some o) × ((o.client == 0) ≡ false)
  IsEnabled (task_sends i) s = (t : Task) × (deref s.tasks i ≡ some t) × IsAsking t.job
  IsEnabled (task_ends i) s = (t : Task) × (deref s.tasks i ≡ some t) × IsAnswered t.job
  IsEnabled (core_maintains c) s = IsCore s.app.sdk c

  looked-Went :
      (client c : ℕ) (k : BoxedClient) (key : Option Text) (s u : AsyncApp)
      → GetAsyncOutcome client c k key s u
      → Went s u
  looked-Went client c k none s u o = o.went
  looked-Went client c k (some key) s u o = go (cached k.cache s.app.sdk.arcs key) o
    where
      go : (found : Option Text) → Looked client c k key found s u → Went s u
      go none o = o.went
      go (some v) o = o.went

  get-Went :
      (a p : ℕ) (key : Slice) (s : AsyncApp)
      → AsyncInv s
      → deref s.objects a ≡ some p
      → Returns (λ _ u. Went s u) (get_ref_async a key s)
  get-Went a p key s inv e = elim (Bool-cases (p == 0)) [
    | inl null ↦ mono (get_ref_async-moved a key s inv (ground (arith, e))) λ f u d. d.1.went
    | inr own ↦
        let (c, box) = inv.owning a p e own in
        let (k, there) = inv.boxed p c box in
        mono (get_ref_async_lem a p c key k s inv e own box there)
          λ f u d. looked-Went p c k (slice_text key) s u d.1
  ]

  told_arcs : (c : ℕ) (key text : Option Text) (s : AsyncApp) → (told c key text s).app ≡ s.app
  told_arcs c (some key) (some text) s = refl
  told_arcs c (some key) none s = refl
  told_arcs c none text s = refl

  set-Went :
      (a p : ℕ) (key text : Slice) (s : AsyncApp)
      → AsyncInv s
      → deref s.objects a ≡ some p
      → Returns (λ _ u. Went s u) (set_async a key text s)
  set-Went a p key text s inv e = elim (Bool-cases (p == 0)) [
    | inl null ↦
        let (made, it) = set_async-moved a key text s inv (ground (arith, e)) in
        rw made (returns (it, Keeps-refl s.app.sdk.arcs))
    | inr own ↦
        let (c, box) = inv.owning a p e own in
        let (made, it) = set_async_lem a p c key text s inv e own box in
        rw made (
          returns (
            it,
            subst (λ x. Keeps s.app.sdk.arcs x.sdk.arcs)
                (sym (told_arcs c (slice_text key) (slice_text text) s))
                (Keeps-refl s.app.sdk.arcs),
          ))
  ]

  -- `AsyncValueRef(AsyncValueRef&& other)` from a live object outside the shared states.
  free_move_lem :
      (r : ℕ) (o : ValueRef) (s : AsyncApp)
      → AsyncInv s
      → deref s.app.refs r ≡ some o
      → IsFree r s
      → Returns (λ _ t. Went s t) (on_app (async_value_ref_move r) s)
  free_move_lem r o s i e free =
      let gone : ValueRef = record o { client = 0 } in
      mono (on_app_lem (async_value_ref_move r) s (async_value_ref_move_lem r o s.app i.inv e))
        λ b t ((inv, sdk, clients, place, refs), post). (
          AsyncInv-refs s t i inv (ap (λ x. x.clients) sdk) clients post (λ a v q.
              let (x, there) = i.ready a v q in
              elim (Bool-cases (r == v)) [
                | inl here ↦ absurd (free a (ground (arith, q)))
                | inr other ↦ (
                  x,
                  ground (
                    arith,
                    ap (λ y. deref y v) refs,
                    deref-alloc (write s.app.refs r (some gone)) v o,
                    fresh-write s.app.refs r (some gone),
                    lt_fresh s.app.refs v x there,
                    deref-write s.app.refs r v o (some gone) e,
                  ),
                )
              ]),
          rw sdk (Keeps-refl s.app.sdk.arcs),
        )

  view_lem :
      (o : ValueRef) (s : AsyncApp)
      → IsSound s.app.sdk.arcs o.result
      → (v : Text) × (read_view o s.app ≡ some (v, s.app))
  view_lem o s (ok v, q) = (v, read_view_lem o v s.app q)
  view_lem o s (err code, q) = ([], read_view_err o code s.app q)

  step_lem :
      (x : AsyncCall) (s : AsyncApp)
      → AsyncInv s
      → IsEnabled x s
      → Returns (λ _ u. Went s u) (step x s)
  unfolding step fire_and_forget_set detached_get on_app
  step_lem (calls_new config) s i (st, e) =
      bind (async_client_new_lem config st s i e) λ out u d. returns d.0
  step_lem (calls_destroy a) s i (p, e) =
      mono (async_client_destroy_lem a p s i e) λ _ u d. d.0.went
  step_lem (calls_move a) s i (p, e) =
      bind (async_client_move_lem a p s i e) λ b u d. returns d.0.went
  step_lem (calls_assign a b) s i ((q, ea), (p, eb)) =
      mono (async_client_assign_lem a b q p s i ea eb) λ _ u d. d.0.went
  step_lem (calls_get a key) s i (p, e) = bind (get-Went a p key s i e) λ f u went. returns went
  step_lem (calls_set a key text) s i (p, e) =
      bind (set-Went a p key text s i e) λ f u went. returns went
  step_lem (calls_fire_and_forget a key text) s i (p, e) =
      bind (set-Went a p key text s i e) λ f u went. returns went
  step_lem (calls_clear a) s i (p, e, own) =
      let (c, box) = i.owning a p e own in
      let (k, there) = i.boxed p c box in
      mono (async_clear_cache_lem a p c k s i e own box there) λ _ u d. d.0
  step_lem (calls_stats a) s i (p, e, own) =
      let (c, box) = i.owning a p e own in
      let (k, there) = i.boxed p c box in
      rw (async_get_cache_stats_lem a p c k s e own box there)
        (returns (i, Keeps-refl s.app.sdk.arcs))
  step_lem (waits_get f) s i (c, e) = bind (take_ref-Went f c s i e) λ w u went. returns went
  step_lem (waits_set f) s i (c, e) = bind (take_set_lem f c s i e) λ w u (_, it, same).
      returns
        (it, subst (λ x. Keeps s.app.sdk.arcs x.sdk.arcs) (sym same) (Keeps-refl s.app.sdk.arcs))
  step_lem (ref_moves r) s i (o, e, free) =
      bind (free_move_lem r o s i e free) λ b u went. returns went
  step_lem (ref_ends r) s i (o, e, free) = mono (free_destroy_lem r o s i e free) λ _ u d. d.0
  step_lem (ref_reads r) s i (o, e, own) =
      let (v, read) = view_lem o s (i.inv.sound r o e own) in
      rw (ref_at-eq r o s.app e, read) (returns (i, Keeps-refl s.app.sdk.arcs))
  step_lem (task_sends n) s i (t, e, asking) =
      let (k, there) = i.working n t e in
      mono (task_asks_lem n t k s i e asking there) λ _ u d. d.went
  step_lem (task_ends n) s i (t, e, answered) =
      mono (task_finishes_lem n t s i e answered) λ _ u d. d.went
  step_lem (core_maintains c) s i (k, e) =
      mono
        (on_core_lem (on_cache c cache_maintain) s (
          on_cache_lem (λ _. nothing) (Maintains k.cache) cache_maintain c k s.app.sdk i.inv.books e
            (cache_maintain_lem k.cache s.app.sdk.arcs i.inv.books.counted
              (Inv-Owned c k i.inv.books e))))
        λ _ t ((books, keeps, w, (d, up, _)), refs, clients, post).
          let below : Below s t.app.sdk = record {
            keeps = keeps;
            cores = λ x used. cores-Updated up x;
          } in
          (AsyncInv-below s t i (Inv-congr (λ b. omega arith) books) below refs clients post, keeps)

  -- An interleaving: calls and steps in the order in which they are made.
  unfoldable pub run_async : List AsyncCall → Run AsyncApp (Unit {0})
  run_async [] = pure tt
  run_async (x ∷ xs) = do step x; run_async xs

  -- Each call and step is enabled in the state in which it is made.
  abbrev pub AllEnabled : List AsyncCall → AsyncApp → Type 0
  AllEnabled [] s = Unit {0}
  AllEnabled (x ∷ xs) s =
      IsEnabled x s × ((t : AsyncApp) → step x s ≡ some (tt, t) → AllEnabled xs t)

  -- From a state that keeps the invariant, no interleaving of calls of the client with steps of the
  -- tasks, each enabled in the state in which it is made, faults: no callback finds its context
  -- freed or its promise settled, no task finds its cache dropped, no text is read after it is freed
  -- and none is freed twice. The invariant is kept, and every text is kept or freed, never changed.
  pub run_async-Safe :
      (xs : List AsyncCall) (s : AsyncApp)
      → AsyncInv s
      → AllEnabled xs s
      → Returns (λ _ u. Went s u) (run_async xs s)
  unfolding run_async
  run_async-Safe [] s i enabled = returns (i, Keeps-refl s.app.sdk.arcs)
  run_async-Safe (x ∷ xs) s i (now, later) =
      let (_, t, e, (it, keeps)) = outcome (step_lem x s i now) in
      rw e (
        mono (run_async-Safe xs t it (later t e))
          λ _ u (iu, keeps'). (iu, Keeps-trans keeps keeps'))

-- ===== src/Async/Gets.antt =====
-- `GetRefAsync` of bindings/cpp/include/kv_store_async.hpp with `kv_store_get_async` below it.
pub mod Ready
pub use Ready.{object_at-eq, box_at-eq, asking, ReadyGet, at_once, SpawnedGet, get-AsyncInv}
use kvstore_ffi.Prelude.{
  ℕ, Option, none, some, ◌≡◌, refl, inl, inr, false, sym, ap, subst, ◌∙◌, arith, ◌+◌, ◌==◌,
  Bool-cases, Option-cases,
}
use kvstore_ffi.Prelude.Table.{deref, write, alloc, fresh, deref-alloc, deref-alloc_self}
use kvstore_ffi.Prelude.State.{and_then, Returns, returns, bind, mono}
use kvstore_ffi.Text.{Text, from_utf8}
use kvstore_ffi.ErrorCode.{ErrorCode}
use kvstore_ffi.Memory.{text_at}
use kvstore_ffi.Memory.Counts.{Keeps-refl, Keeps-trans, Keeps-text, one, strong_text}
use kvstore_ffi.Platform.{Platform}
use kvstore_ffi.Http.{Result, ok, err}
use kvstore_ffi.Cache.{KvCache, cache_get}
use kvstore_ffi.Cache.Accounts.{gained, LooksUp, cache_get_lem}
use kvstore_ffi.Cache.View.{cached, cached_hit, cached_miss}
use kvstore_ffi.Ffi.State.{
  Slice, null, at, KvGetResult, KvStoreClient as BoxedClient, on_cache, on_arcs,
}
use kvstore_ffi.Ffi.{get_error, get_success}
use kvstore_ffi.Ffi.Books.{Inv, Inv-congr, Inv-Owned, on_cache_lem}
use kvstore_ffi.Ffi.Get.{Answers, slice_text, deliver_lem}
use kvstore_ffi.Binding.Ownership.{held, holds}
use kvstore_ffi.Async.{pending, value, GetContext, asks_get, Task, Post, AsyncApp, get_callback}
use kvstore_ffi.Async.GetCallback.{get_callback-Delivered}
use kvstore_ffi.Async.Runtime.{
  on_core, box_at, kv_store_get_async, async_get_slice, async_get_key, async_looked_up, spawn,
}
use kvstore_ffi.Async.Client.{object_at, new_get_context, get_ref_async}
use kvstore_ffi.Async.Invariant.{
  get_pointer, set_pointer, get_promise, set_promise, GetLedger, SetLedger, IsCore, AsyncInv, Went,
}
use kvstore_ffi.Async.Entries.{once_more, Entries-immediate, Entries-spawned, Entries-other}
use kvstore_ffi.Async.Cores.{on_core_lem, Below, AsyncInv-below}
use kvstore_ffi.Async.Delivery.{holding, Arrives-of_result, AsyncInv-delivered}
use kvstore_ffi.Async.Finish.{Answers-Keeps, Below-Updated}

module _ ⦃P : Platform⦄ where
  -- How a get ends on a client, by what the cache knows of the key.
  abbrev pub Looked : ℕ → ℕ → BoxedClient → Text → Option Text → AsyncApp → AsyncApp → Type 0
  Looked client c k key (some v) s u = ReadyGet client (ok v) s u
  Looked client c k key none s u = SpawnedGet client c k key s u

  abbrev pub GetAsyncOutcome : ℕ → ℕ → BoxedClient → Option Text → AsyncApp → AsyncApp → Type 0
  GetAsyncOutcome client c k none s u = ReadyGet client (err ErrorCode.invalid_input) s u
  GetAsyncOutcome client c k (some key) s u =
      Looked client c k key (cached k.cache s.app.sdk.arcs key) s u

  -- The state in which the promise and the context of a get are there.
  abbrev pub posed : ℕ → AsyncApp → AsyncApp
  posed client s = record s { post = asking client s.post }

  rejected :
      (client : ℕ) (s : AsyncApp)
      → AsyncInv s
      → Returns
          (λ _ u. ReadyGet client (err ErrorCode.invalid_input) s u)
          (get_callback (fresh s.get_contexts) (get_error ErrorCode.invalid_input) (posed client s))
  unfolding get_error
  rejected client s inv =
      at_once client (err ErrorCode.invalid_input) (get_error ErrorCode.invalid_input) s
        (posed client s) inv (record { keeps = Keeps-refl s.app.sdk.arcs; cores = λ c used x. x })
        refl refl refl refl (Inv-congr (λ b. ground arith) inv.inv.books) refl (λ x e. cc)

  spawned :
      (client c : ℕ) (key : Text) (k : BoxedClient) (d : KvCache) (s v : AsyncApp)
      → AsyncInv s
      → (client == 0) ≡ false
      → Inv (held s.app.refs) v.app.sdk
      → Below s v.app.sdk
      → deref v.app.sdk.clients c ≡ some (record k { cache = d })
      → v.app.sdk.world ≡ s.app.sdk.world
      → v.app.refs ≡ s.app.refs
      → v.app.clients ≡ s.app.clients
      → v.post ≡ asking client s.post
      → Returns
          (λ _ u. SpawnedGet client c k key s u)
          (async_looked_up c key (fresh s.get_contexts) none v)
  unfolding async_looked_up spawn
  spawned client c key k d s v inv own books below core world refs clients post =
      let t : Task = record { core = c; job = asks_get key; user_data = fresh s.get_contexts } in
      let final = ap (λ (x : Post). record x { tasks = alloc x.tasks t }) post in
      let before : AsyncApp = record v { post = s.post } in
      returns (record {
        went = (
          subst (λ x. AsyncInv (record v { post = x })) (sym final)
              (get-AsyncInv client c key before
                (AsyncInv-below s before inv books below refs clients refl) own (_, core)),
          below.keeps,
        );
        world = world;
        cache = d;
        core = core;
        refs = refs;
        post = final;
      })

  served :
      (client : ℕ) (t : Text) (a : ℕ) (s v : AsyncApp)
      → AsyncInv s
      → (client == 0) ≡ false
      → Inv (λ b. held s.app.refs b + one a b) v.app.sdk
      → Below s v.app.sdk
      → v.app.sdk.world ≡ s.app.sdk.world
      → v.app.refs ≡ s.app.refs
      → v.app.clients ≡ s.app.clients
      → v.post ≡ asking client s.post
      → text_at v.app.sdk.arcs a ≡ some t
      → Returns
          (λ _ u. ReadyGet client (ok t) s u)
          (and_then
            (on_core (on_arcs (get_success a)) v)
            (λ r. get_callback (fresh s.get_contexts) r))
  served client t a s v inv own books below world refs clients post text =
      bind
        (on_core_lem (on_arcs (get_success a)) v
          (deliver_lem (held s.app.refs) a t v.app.sdk books text))
        λ q u ((same, answers, books'), refs', clients', post').
          at_once client (ok t) q s u inv (subst (Below s) (sym same) below)
            (ap (λ x. x.world) same ∙ world) (refs' ∙ refs) (clients' ∙ clients) (post' ∙ post)
            (holding client q s u.app.sdk own (subst (Inv _) (sym same) books'))
            (subst (λ x. Answers q x.arcs (ok t)) (sym same) answers) (λ _ _. own)

  found_lem :
      (client c : ℕ) (key : Text) (k : BoxedClient) (s : AsyncApp)
      → AsyncInv s
      → (client == 0) ≡ false
      → deref s.app.sdk.clients c ≡ some k
      → Returns
          (λ _ u. Looked client c k key (cached k.cache s.app.sdk.arcs key) s u)
          (async_get_key c key (fresh s.get_contexts) (posed client s))
  unfolding async_get_key async_looked_up
  found_lem client c key k s inv own there =
      let h = held s.app.refs in
      let owned = Inv-Owned c k inv.inv.books there in
      bind
        (on_core_lem (on_cache c (cache_get key)) (posed client s) (
          on_cache_lem gained (LooksUp key k.cache) (cache_get key) c k s.app.sdk inv.inv.books
            there (cache_get_lem key k.cache s.app.sdk.arcs inv.inv.books.counted owned)))
        λ found v ((books, keeps, world, (d, up, (looks, store, _))), refs, clients, post).
          elim (Option-cases found) [
            | inl miss ↦
                rw (cached_miss k.cache s.app.sdk.arcs key (sym looks ∙ miss), miss)
                  (spawned client c key k d s v inv own
                    (Inv-congr (λ b. ground (arith, miss)) books) (Below-Updated keeps up) up.here
                    world refs clients post)
            | inr (a, hit) ↦
                let (t, text) =
                  strong_text s.app.sdk.arcs a
                    (omega (arith, P.refs-get k.cache.store key a (sym looks ∙ hit), owned a)) in
                rw (cached_hit k.cache s.app.sdk.arcs key a (sym looks ∙ hit) ∙ text, hit)
                  (served client t a s v inv own (Inv-congr (λ b. ground (arith, hit)) books)
                    (Below-Updated keeps up) world refs clients post
                    (Keeps-text keeps a t text (ground (arith, hit, books.balance a))))
          ]

  slice_lem :
      (client c : ℕ) (key : Slice) (k : BoxedClient) (s : AsyncApp)
      → AsyncInv s
      → (client == 0) ≡ false
      → deref s.boxes client ≡ some c
      → deref s.app.sdk.clients c ≡ some k
      → Returns
          (λ _ u. GetAsyncOutcome client c k (slice_text key) s u)
          (async_get_slice client key (fresh s.get_contexts) (posed client s))
  unfolding async_get_slice
  slice_lem client c (null n) k s inv own box there = rejected client s inv
  slice_lem client c (at bytes) k s inv own box there =
      rw (box_at-eq client c (posed client s) box) (elim (Option-cases (from_utf8 bytes)) [
        | inl bad ↦ rw bad (rejected client s inv)
        | inr (key, good) ↦ rw good (found_lem client c key k s inv own there)
      ])

  -- `GetRefAsync` on a client object that was not moved from, in a state that keeps the invariant,
  -- returns the future of a new promise, and makes no request. For a null or non-UTF-8 key the
  -- promise has an `AsyncValueRef` with InvalidInput; for a key that the cache knows, one with the
  -- cached value; else it is pending and a task is spawned to ask for the key. The invariant is kept.
  pub get_ref_async_lem :
      (a client c : ℕ) (key : Slice) (k : BoxedClient) (s : AsyncApp)
      → AsyncInv s
      → deref s.objects a ≡ some client
      → (client == 0) ≡ false
      → deref s.boxes client ≡ some c
      → deref s.app.sdk.clients c ≡ some k
      → Returns
          (λ f u. (f ≡ fresh s.gets) × GetAsyncOutcome client c k (slice_text key) s u)
          (get_ref_async a key s)
  unfolding get_ref_async new_get_context kv_store_get_async
  get_ref_async_lem a client c key k s inv e own box there =
      rw (object_at-eq a client s e, own)
        (bind (slice_lem client c key k s inv own box there) λ _ u o. returns (refl, o))

  -- `GetRefAsync` on a client object that was moved from, in a state that keeps the invariant, gives
  -- an `AsyncValueRef` with InvalidInput and no client, and keeps the invariant.
  pub get_ref_async-moved :
      (a : ℕ) (key : Slice) (s : AsyncApp)
      → AsyncInv s
      → deref s.objects a ≡ some 0
      → Returns
          (λ f u. (f ≡ fresh s.gets) × ReadyGet 0 (err ErrorCode.invalid_input) s u)
          (get_ref_async a key s)
  unfolding get_ref_async new_get_context kv_store_get_async
  get_ref_async-moved a key s inv e =
      rw (object_at-eq a 0 s e) (bind (rejected 0 s inv) λ _ u o. returns (refl, o))

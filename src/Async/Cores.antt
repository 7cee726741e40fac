-- ===== src/Async/Cores.antt =====
-- The cores that the boxed clients and the tasks share: calls on one, and its end.
use kvstore_ffi.Prelude.{
  ℕ, ◌≡◌, refl, inl, inr, false, none, some, arith, ◌==◌, ==_iff, Bool-cases, subst, ◌∙◌,
}
use kvstore_ffi.Prelude.Table.{deref, weight-le-total, deref_ne_null}
use kvstore_ffi.Prelude.State.{Run, Returns, returns, mono}
use kvstore_ffi.Memory.Counts.{Keeps, Keeps-refl}
use kvstore_ffi.Platform.{Platform}
use kvstore_ffi.Cache.{KvCache}
use kvstore_ffi.Ffi.State.{Sdk, KvStoreClient}
use kvstore_ffi.Ffi.{drop_client, kv_store_destroy}
use kvstore_ffi.Ffi.Books.{Inv, Updated}
use kvstore_ffi.Ffi.Lifecycle.{kv_store_destroy_lem}
use kvstore_ffi.Binding.State.{App, on_sdk}
use kvstore_ffi.Binding.Ownership.{held, AllSound, AllSound-Keeps, AppInv, on_sdk_lem}
use kvstore_ffi.Async.{Task, AsyncApp}
use kvstore_ffi.Async.GetCallback.{on_app_lem}
use kvstore_ffi.Async.Runtime.{on_core, one_if, sharers, release_core}
use kvstore_ffi.Async.Invariant.{IsCore, AsyncInv, Went}

module _ ⦃P : Platform⦄ where
  pub on_core_lem :
      {A : Type 0} {Q : A → Sdk → Type 0} (m : Run Sdk A) (s : AsyncApp)
      → Returns Q (m s.app.sdk)
      → Returns
          (λ a t.
            Q a t.app.sdk
            × (t.app.refs ≡ s.app.refs)
            × (t.app.clients ≡ s.app.clients)
            × (t.post ≡ s.post))
          (on_core m s)
  unfolding on_core
  on_core_lem m s r =
      mono (on_app_lem (on_sdk m) s (on_sdk_lem m s.app r))
        λ a t ((q, refs, clients), post). (q, refs, clients, post)

  -- The objects' invariant where there are no synchronous clients.
  pub app_inv :
      (s : App)
      → Inv (held s.refs) s.sdk
      → AllSound s.sdk.arcs s.refs
      → ((a : ℕ) → deref s.clients a ≡ none)
      → AppInv s
  app_inv s books sound alone = record {
    books = books;
    sound = sound;
    live = λ a k e own. absurd (ground (arith, alone a));
    apart = λ a b k l e f own same. absurd (ground (arith, alone a));
  }

  pub cores-Updated :
      {s t : Sdk} {p : ℕ} {k : KvStoreClient} {d : KvCache}
      → Updated s p k d t
      → (c : ℕ) → IsCore s c
      → IsCore t c
  cores-Updated {p} {k} {d} up c (x, e) = elim (Bool-cases (p == c)) [
    | inl here ↦ (record k { cache = d }, rw (← (==_iff p c).0 here) up.here)
    | inr other ↦ (x, up.elsewhere c (ground arith) ∙ e)
  ]

  -- A change of the heap, of the cores and of the world, which leaves the cores in use.
  pub record Below (s : AsyncApp) (t : Sdk) : Type 0 where
    pub keeps : Keeps s.app.sdk.arcs t.arcs
    pub cores : (c : ℕ) → (sharers c s == 0) ≡ false → IsCore s.app.sdk c → IsCore t c

  pub box-shares : (s : AsyncApp) (b c : ℕ) → deref s.boxes b ≡ some c → (sharers c s == 0) ≡ false
  box-shares s b c e = ground (arith, weight-le-total (one_if c) s.boxes b c e)

  pub task-shares :
      (s : AsyncApp) (i : ℕ) (t : Task) → deref s.tasks i ≡ some t → (sharers t.core s == 0) ≡ false
  task-shares s i t e =
      ground (arith, weight-le-total (λ (x : Task). one_if t.core x.core) s.tasks i t e)

  -- After a change below, with the books right for the same objects, the invariant holds.
  pub AsyncInv-below :
      (s t : AsyncApp)
      → AsyncInv s
      → Inv (held s.app.refs) t.app.sdk
      → Below s t.app.sdk
      → t.app.refs ≡ s.app.refs
      → t.app.clients ≡ s.app.clients
      → t.post ≡ s.post
      → AsyncInv t
  AsyncInv-below s t i books below refs clients post = record {
    inv =
        app_inv t.app (rw refs books)
          (rw refs (
            AllSound-Keeps s.app.sdk.arcs t.app.sdk.arcs s.app.refs below.keeps
              (λ b. omega (arith, books.balance b)) i.inv.sound))
          (rw clients i.alone);
    alone = rw clients i.alone;
    boxed = rw post λ b c e. below.cores c (box-shares s b c e) (i.boxed b c e);
    working = rw post λ j x e. below.cores x.core (task-shares s j x e) (i.working j x e);
    get_ledger = rw post i.get_ledger;
    set_ledger = rw post i.set_ledger;
    named = rw post i.named;
    owning = rw post i.owning;
    single = rw post i.single;
    ready = rw (post, refs) i.ready;
    kept = rw post i.kept;
  }

  -- No box and no task shares a core that is dropped.
  pub release_core_lem :
      (c : ℕ) (s : AsyncApp)
      → AsyncInv s
      → IsCore s.app.sdk c
      → Returns
          (λ _ t.
            Went s t
            × (t.app.refs ≡ s.app.refs)
            × (t.post ≡ s.post)
            × (t.app.sdk.world ≡ s.app.sdk.world))
          (release_core c s)
  unfolding release_core kv_store_destroy
  release_core_lem c s i (k, e) = elim (Bool-cases (sharers c s == 0)) [
    | inr shared ↦ rw shared (returns ((i, Keeps-refl s.app.sdk.arcs), refl, refl, refl))
    | inl last ↦ rw last (
        mono
          (on_core_lem (drop_client c) s (
            subst (Returns _) (rw (deref_ne_null s.app.sdk.clients c k e) refl)
              (kv_store_destroy_lem {held = held s.app.refs} c k s.app.sdk i.inv.books e)))
          λ _ t ((books, keeps, world, gone, others), refs, clients, post).
            let below : Below s t.app.sdk = record {
              keeps = keeps;
              cores = λ d used (x, q). (x, others d (ground arith) ∙ q);
            } in
            ((AsyncInv-below s t i books below refs clients post, keeps), refs, post, world))
  ]

-- ===== src/Async/Tasks.antt =====
-- The steps of the tasks of core-sdk/src/ffi_async.rs: the request, and what follows the answer.
use kvstore_ffi.Prelude.{ℕ, some, ◌≡◌, refl, inl, inr, sym, ap, subst, ◌∙◌, arith, ◌==◌, Bool-cases}
use kvstore_ffi.Prelude.Table.{deref, write, deref-write}
use kvstore_ffi.Prelude.State.{Returns, returns, bind}
use kvstore_ffi.Memory.Counts.{Keeps, Keeps-refl}
use kvstore_ffi.Platform.{Platform}
use kvstore_ffi.Http.{http_get, http_set}
use kvstore_ffi.Ffi.State.{KvStoreClient as BoxedClient, on_http}
use kvstore_ffi.Ffi.Books.{Inv, on_http_lem}
use kvstore_ffi.Binding.Ownership.{held}
use kvstore_ffi.Async.{Job, asks_get, answered_get, asks_set, answered_set, Task, Post, AsyncApp}
use kvstore_ffi.Async.Runtime.{task_at, set_task, task_asks, asks, get_asks, set_asks}
use kvstore_ffi.Async.Invariant.{
  get_pointer, set_pointer, get_promise, set_promise, IsCore, AsyncInv, Went,
}
use kvstore_ffi.Async.Entries.{Entries-idle}
use kvstore_ffi.Async.Cores.{on_core_lem, Below, AsyncInv-below}

module _ ⦃P : Platform⦄ where
  pub task_at-eq :
      (i : ℕ) (t : Task) (s : AsyncApp) → deref s.tasks i ≡ some t → task_at i s ≡ some (t, s)
  unfolding task_at
  task_at-eq i t s e = rw (task_at, e) refl

  -- A task goes on with the same core and the same context.
  set_task-AsyncInv :
      (i : ℕ) (t t' : Task) (s : AsyncApp)
      → AsyncInv s
      → deref s.tasks i ≡ some t
      → t'.core ≡ t.core
      → get_pointer (some t') ≡ get_pointer (some t)
      → set_pointer (some t') ≡ set_pointer (some t)
      → AsyncInv (record s { post = record s.post { tasks = write s.tasks i (some t') } })
  set_task-AsyncInv i t t' s inv e core g w = record {
    inv = inv.inv;
    alone = inv.alone;
    boxed = inv.boxed;
    working = λ j x q. elim (Bool-cases (i == j)) [
      | inl here ↦
          let same : t' ≡ x = ground (arith, deref-write s.tasks i j t (some t') e) in
          subst (IsCore s.app.sdk) (sym core ∙ ap (λ y. y.core) same) (inv.working i t e)
      | inr other ↦ inv.working j x (ground (arith, deref-write s.tasks i j t (some t') e))
    ];
    get_ledger =
        Entries-idle get_pointer get_promise s.tasks s.get_contexts s.gets inv.get_ledger i t
          (some t') e g;
    set_ledger =
        Entries-idle set_pointer set_promise s.tasks s.set_contexts s.sets inv.set_ledger i t
          (some t') e w;
    named = inv.named;
    owning = inv.owning;
    single = inv.single;
    ready = inv.ready;
    kept = inv.kept;
  }

  -- What the server makes of a job: the answered job, and the world after it.
  abbrev pub answer : BoxedClient → Job → P.World → Job × P.World
  answer k (asks_get key) w =
      (answered_get key (http_get k.http_client key w).0, (http_get k.http_client key w).1)
  answer k (asks_set key text) w = (
    answered_set key text (http_set k.http_client key text w).0,
    (http_set k.http_client key text w).1,
  )
  answer k (answered_get key r) w = (answered_get key r, w)
  answer k (answered_set key text r) w = (answered_set key text r, w)

  -- The job is still to be asked.
  abbrev pub IsAsking : Job → Type 0
  IsAsking (asks_get key) = Unit {0}
  IsAsking (asks_set key text) = Unit {0}
  IsAsking (answered_get key r) = ⊥
  IsAsking (answered_set key text r) = ⊥

  pub record Asked (i : ℕ) (t : Task) (k : BoxedClient) (s u : AsyncApp) : Type 0 where
    pub went : Went s u
    pub arcs : u.app.sdk.arcs ≡ s.app.sdk.arcs
    pub cores : u.app.sdk.clients ≡ s.app.sdk.clients
    pub world : u.app.sdk.world ≡ (answer k t.job s.app.sdk.world).1
    pub post : u.post ≡ record s.post {
      tasks = write s.tasks i (some (record t { job = (answer k t.job s.app.sdk.world).0 }));
    }

  -- After the request a task goes on as `t'`.
  asked :
      (i : ℕ) (t t' : Task) (k : BoxedClient) (s u : AsyncApp)
      → AsyncInv s
      → deref s.tasks i ≡ some t
      → Inv (held s.app.refs) u.app.sdk
      → u.app.sdk.arcs ≡ s.app.sdk.arcs
      → u.app.sdk.clients ≡ s.app.sdk.clients
      → u.app.sdk.world ≡ (answer k t.job s.app.sdk.world).1
      → t' ≡ record t { job = (answer k t.job s.app.sdk.world).0 }
      → u.app.refs ≡ s.app.refs
      → u.app.clients ≡ s.app.clients
      → u.post ≡ s.post
      → get_pointer (some t') ≡ get_pointer (some t)
      → set_pointer (some t') ≡ set_pointer (some t)
      → Asked i t k s (record u { post = record u.post { tasks = write u.tasks i (some t') } })
  asked i t t' k s u inv e books arcs cores world answered refs clients post g w =
      let keeps : Keeps s.app.sdk.arcs u.app.sdk.arcs = rw arcs (Keeps-refl s.app.sdk.arcs) in
      let below : Below s u.app.sdk = record {
        keeps = keeps;
        cores = λ c used (x, q). (x, ap (λ y. deref y c) cores ∙ q);
      } in
      record {
        went = (
          set_task-AsyncInv i t t' u (AsyncInv-below s u inv books below refs clients post)
              (ap (λ (x : Post). deref x.tasks i) post ∙ e) (ap (λ (x : Task). x.core) answered) g
              w,
          keeps,
        );
        arcs = arcs;
        cores = cores;
        world = world;
        post =
            ap (λ (x : Post). record x { tasks = write x.tasks i (some t') }) post
            ∙ ap (λ (x : Task). record s.post { tasks = write s.tasks i (some x) }) answered;
      }

  -- A task that is still to ask, in a state that keeps the invariant, sends one request; it goes on
  -- with the answer, and the invariant is kept.
  pub task_asks_lem :
      (i : ℕ) (t : Task) (k : BoxedClient) (s : AsyncApp)
      → AsyncInv s
      → deref s.tasks i ≡ some t
      → IsAsking t.job
      → deref s.app.sdk.clients t.core ≡ some k
      → Returns (λ _ u. Asked i t k s u) (task_asks i s)
  unfolding task_asks asks get_asks set_asks set_task
  task_asks_lem i t k s inv e asking there = rw (task_at-eq i t s e) (go t.job refl asking)
    where
      go :
          (job : Job)
          → job ≡ t.job
          → IsAsking job
          → Returns (λ _ u. Asked i t k s u) (asks i t job s)
      go (asks_get key) same _ =
          bind
            (on_core_lem (on_http t.core (λ h. http_get h key)) s (
              on_http_lem {held = held s.app.refs} (λ h. http_get h key) t.core k s.app.sdk
                inv.inv.books there))
            λ r u ((books, arcs, cores, said, world), refs, clients, post). returns (
              asked i t (record t { job = answered_get key r }) k s u inv e books arcs cores
                (world ∙ ap (λ j. (answer k j s.app.sdk.world).1) same)
                (ap (λ x. record t { job = answered_get key x }) said
                  ∙ ap (λ j. record t { job = (answer k j s.app.sdk.world).0 }) same)
                refs clients post (ap (λ j. get_pointer (some (record t { job = j }))) same)
                (ap (λ j. set_pointer (some (record t { job = j }))) same))
      go (asks_set key text) same _ =
          bind
            (on_core_lem (on_http t.core (λ h. http_set h key text)) s (
              on_http_lem {held = held s.app.refs} (λ h. http_set h key text) t.core k s.app.sdk
                inv.inv.books there))
            λ r u ((books, arcs, cores, said, world), refs, clients, post). returns (
              asked i t (record t { job = answered_set key text r }) k s u inv e books arcs cores
                (world ∙ ap (λ j. (answer k j s.app.sdk.world).1) same)
                (ap (λ x. record t { job = answered_set key text x }) said
                  ∙ ap (λ j. record t { job = (answer k j s.app.sdk.world).0 }) same)
                refs clients post (ap (λ j. get_pointer (some (record t { job = j }))) same)
                (ap (λ j. set_pointer (some (record t { job = j }))) same))
      go (answered_get key r) same never = absurd never
      go (answered_set key text r) same never = absurd never

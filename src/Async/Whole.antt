-- ===== src/Async/Whole.antt =====
-- `GetAsync` of bindings/cpp/include/kv_store_async.hpp from the call to `get()` of its future, where
-- the runtime runs the task in between.
use kvstore_ffi.Prelude.{
  ℕ, [], ◌∷◌, Option, none, some, ◌≡◌, refl, false, sym, ap, subst, ◌∙◌, ◌==◌,
}
use kvstore_ffi.Prelude.Table.{deref, alloc, fresh, deref-fresh, deref-alloc_self, deref-write_self}
use kvstore_ffi.Prelude.State.{Run, Returns, returns, bind, mono, ◌>>=◌, ◌>>◌}
use kvstore_ffi.Text.{Text}
use kvstore_ffi.Memory.Counts.{Keeps-trans}
use kvstore_ffi.ErrorCode.{ErrorCode}
use kvstore_ffi.Platform.{Platform}
use kvstore_ffi.Http.{Result, ok, err, http_get}
use kvstore_ffi.Cache.View.{cached}
use kvstore_ffi.Ffi.State.{KvGetResult, Slice, KvStoreClient as BoxedClient}
use kvstore_ffi.Ffi.Get.{Answers, slice_text, reply}
use kvstore_ffi.Binding.State.{Outcome}
use kvstore_ffi.Binding.Answers.{IsProper, spoken, spoken-IsProper}
use kvstore_ffi.Binding.Expected.{await_outcome}
use kvstore_ffi.Async.{pending, value, GetContext, asks_get, answered_get, Task, Post, AsyncApp}
use kvstore_ffi.Async.Runtime.{task_asks, task_finishes}
use kvstore_ffi.Async.Client.{Wait, done, get_ref_async, await_string}
use kvstore_ffi.Async.Invariant.{AsyncInv, Went}
use kvstore_ffi.Async.Tasks.{task_asks_lem}
use kvstore_ffi.Async.Finish.{task_finishes_get_lem}
use kvstore_ffi.Async.Gets.{ReadyGet, SpawnedGet, Looked, GetAsyncOutcome, get_ref_async_lem}
use kvstore_ffi.Async.Await.{await_string_lem}
use kvstore_ffi.Async.Drain.{complete_job, complete, drain}

module _ ⦃P : Platform⦄ where
  -- `GetAsync(key)`, the run of the task that it may have spawned, and `get()` of the future.
  unfoldable pub get_and_wait : ℕ → Slice → Run AsyncApp (Wait (Outcome Text))
  unfolding drain
  get_and_wait a key s = (do f ← get_ref_async a key; drain (fresh s.tasks ∷ []); await_string f) s

  -- What the whole of a get leaves, with this answer and this world.
  abbrev pub Whole : Result Text × P.World → AsyncApp → Wait (Outcome Text) → AsyncApp → Type 0
  Whole (res, w) s out u = (out ≡ done (await_outcome res)) × Went s u × (u.app.sdk.world ≡ w)

  ready_lem :
      (client : ℕ) (res : Result Text) (s t : AsyncApp)
      → ReadyGet client res s t
      → IsProper res
      → ((x : Text) → res ≡ ok x → (client == 0) ≡ false)
      → Returns
          (Whole (res, s.app.sdk.world) s)
          ((drain (fresh s.tasks ∷ []) >> await_string (fresh s.gets)) t)
  unfolding drain complete
  ready_lem client res s t d proper own =
      let no_task : deref t.tasks (fresh s.tasks) ≡ none =
        ap (λ (x : Post). deref x.tasks (fresh s.tasks)) d.post ∙ deref-fresh s.tasks in
      let there : deref t.gets (fresh s.gets) ≡ some (value d.place) =
        ap (λ (x : Post). deref x.gets (fresh s.gets)) d.post
        ∙ deref-write_self (alloc s.gets pending) (fresh s.gets) pending (some (value d.place))
            (deref-alloc_self s.gets pending) in
      rw (complete, no_task)
        (mono
          (await_string_lem (fresh s.gets) d.place (record { client = client; result = d.result })
            res t d.went.0 there d.owner d.answers proper own)
          λ out u (given, (went, world, post)).
            (given, (went.0, Keeps-trans d.went.1 went.1), world ∙ d.world))

  -- The task of a get has ended: its promise has the answer.
  record Fetched (client f : ℕ) (res : Result Text) (w : P.World) (s t : AsyncApp) : Type 0 where
    went : Went s t
    place : ℕ
    result : KvGetResult
    there : deref t.gets f ≡ some (value place)
    owner : deref t.app.refs place ≡ some (record { client = client; result = result })
    answers : Answers result t.app.sdk.arcs res
    world : t.app.sdk.world ≡ w

  task_lem :
      (client c i f p : ℕ) (k : BoxedClient) (key : Text) (s : AsyncApp)
      → AsyncInv s
      → deref s.tasks i ≡ some (record { core = c; job = asks_get key; user_data = p })
      → deref s.get_contexts p ≡ some (record { client = client; promise = f })
      → deref s.gets f ≡ some pending
      → deref s.app.sdk.clients c ≡ some k
      → Returns
          (λ _ t.
            Fetched client f
              (http_get k.http_client key s.app.sdk.world).0
              (http_get k.http_client key s.app.sdk.world).1
              s
              t)
          ((task_asks i >> task_finishes i) s)
  task_lem client c i f p k key s inv there context cell core =
      let task : Task = record { core = c; job = asks_get key; user_data = p } in
      let ctx : GetContext = record { client = client; promise = f } in
      let res = (http_get k.http_client key s.app.sdk.world).0 in
      let answered : Task = record task { job = answered_get key res } in
      bind (task_asks_lem i task k s inv there tt core) λ _ u asked.
        mono
          (task_finishes_get_lem i answered ctx key res u asked.went.0
            (ap (λ (x : Post). deref x.tasks i) asked.post
              ∙ deref-write_self s.tasks i task (some answered) there)
            refl (ap (λ (x : Post). deref x.get_contexts p) asked.post ∙ context))
          λ _ w fin. record {
            went = (fin.went.0, Keeps-trans asked.went.1 fin.went.1);
            place = fin.place;
            result = fin.result;
            there =
                ap (λ (x : Post). deref x.gets f) fin.post
                ∙ deref-write_self u.gets f pending (some (value fin.place))
                    (ap (λ (x : Post). deref x.gets f) asked.post ∙ cell);
            owner = fin.owner;
            answers = fin.answers;
            world = fin.world ∙ asked.world;
          }

  spawned_lem :
      (client c : ℕ) (k : BoxedClient) (key : Text) (s t : AsyncApp)
      → SpawnedGet client c k key s t
      → (client == 0) ≡ false
      → IsProper (http_get k.http_client key t.app.sdk.world).0
      → Returns
          (Whole (http_get k.http_client key t.app.sdk.world) s)
          ((drain (fresh s.tasks ∷ []) >> await_string (fresh s.gets)) t)
  unfolding drain complete complete_job
  spawned_lem client c k key s t d own proper =
      let core : BoxedClient = record k { cache = d.cache } in
      let res = http_get k.http_client key t.app.sdk.world in
      let i = fresh s.tasks in
      let f = fresh s.gets in
      let p = fresh s.get_contexts in
      let task : Task = record { core = c; job = asks_get key; user_data = p } in
      let there : deref t.tasks i ≡ some task =
        ap (λ (x : Post). deref x.tasks i) d.post ∙ deref-alloc_self s.tasks task in
      let context =
        ap (λ (x : Post). deref x.get_contexts p) d.post
        ∙ deref-alloc_self s.get_contexts (record { client = client; promise = f }) in
      let cell = ap (λ (x : Post). deref x.gets f) d.post ∙ deref-alloc_self s.gets pending in
      rw (complete, there)
        (bind {P = λ _ w. Fetched client f res.0 res.1 t w}
          (bind (task_lem client c i f p core key t d.went.0 there context cell d.core)
            λ _ w fetched. returns fetched)
          λ _ w fetched.
            mono
              (await_string_lem f fetched.place
                (record { client = client; result = fetched.result }) res.0 w fetched.went.0
                fetched.there fetched.owner fetched.answers proper (λ _ _. own))
              λ out u (given, (went, world, post)). (
                given,
                (went.0, Keeps-trans (Keeps-trans d.went.1 fetched.went.1) went.1),
                world ∙ fetched.world,
              ))

  looked_lem :
      (client c : ℕ) (k : BoxedClient) (key : Text) (s t : AsyncApp) (found : Option Text)
      → Looked client c k key found s t
      → (client == 0) ≡ false
      → IsProper (reply k key found s.app.sdk.world).0
      → Returns
          (Whole (reply k key found s.app.sdk.world) s)
          ((drain (fresh s.tasks ∷ []) >> await_string (fresh s.gets)) t)
  looked_lem client c k key s t none d own proper =
      subst
        (λ w.
          Returns (Whole (http_get k.http_client key w) s)
            ((drain (fresh s.tasks ∷ []) >> await_string (fresh s.gets)) t))
        d.world
        (spawned_lem client c k key s t d own
          (subst (λ w. IsProper (http_get k.http_client key w).0) (sym d.world) proper))
  looked_lem client c k key s t (some v) d own proper =
      ready_lem client (ok v) s t d proper (λ _ _. own)

  outcome_lem :
      (client c : ℕ) (k : BoxedClient) (key : Option Text) (s t : AsyncApp)
      → GetAsyncOutcome client c k key s t
      → (client == 0) ≡ false
      → Returns
          (Whole (spoken k s.app.sdk key) s)
          ((drain (fresh s.tasks ∷ []) >> await_string (fresh s.gets)) t)
  outcome_lem client c k none s t d own =
      ready_lem client (err ErrorCode.invalid_input) s t d (spoken-IsProper k s.app.sdk none)
        (λ x e. cc)
  outcome_lem client c k (some key) s t d own =
      looked_lem client c k key s t (cached k.cache s.app.sdk.arcs key) d own
        (spoken-IsProper k s.app.sdk (some key))

  -- `GetAsync` on a client object that was not moved from, in a state that keeps the invariant, gives,
  -- once the task that it may have spawned has run, the value that the cache or the server has of the
  -- key, or an exception for the error: a KeyNotFoundException with the message
  -- "Key not found: Key not found" for a missing key, else a KvStoreException with the message
  -- "Get failed" and the code. As many requests are made, and the invariant is kept.
  pub get_and_wait_lem :
      (a client c : ℕ) (key : Slice) (k : BoxedClient) (s : AsyncApp)
      → AsyncInv s
      → deref s.objects a ≡ some client
      → (client == 0) ≡ false
      → deref s.boxes client ≡ some c
      → deref s.app.sdk.clients c ≡ some k
      → Returns
          (λ out u.
            (out ≡ done (await_outcome (spoken k s.app.sdk (slice_text key)).0))
            × Went s u
            × (u.app.sdk.world ≡ (spoken k s.app.sdk (slice_text key)).1))
          (get_and_wait a key s)
  unfolding get_and_wait
  get_and_wait_lem a client c key k s inv e own box there =
      bind (get_ref_async_lem a client c key k s inv e own box there)
        λ f t (new, d). rw new (outcome_lem client c k (slice_text key) s t d own)

-- ===== src/Tests/AsyncRuns.antt =====
-- The theorems on the asynchronous wrapper and on the hit rate, at small inputs.
use kvstore_ffi.Prelude.{
  ℕ, zero, suc, ◌*◌, ◌<◌, ◌≤◌, ◌≡◌, refl, inl, false, none, some, List, [], ◌∷◌, arith, subst,
}
use kvstore_ffi.Prelude.Table.{deref, slot, write, total, fresh}
use kvstore_ffi.Prelude.State.{Returns}
use kvstore_ffi.ErrorCode.{ErrorCode}
use kvstore_ffi.Http.{err}
use kvstore_ffi.Ffi.State.{at}
use kvstore_ffi.Ffi.Get.{slice_text}
use kvstore_ffi.Binding.State.{hit_rate}
use kvstore_ffi.Binding.Rates.{hit_rate_bounds}
use kvstore_ffi.Binding.Answers.{spoken}
use kvstore_ffi.Binding.Expected.{await_outcome}
use kvstore_ffi.Async.{Shared, Task, AsyncApp}
use kvstore_ffi.Async.Client.{done, get_ref_async, await_string, async_client_destroy}
use kvstore_ffi.Async.Invariant.{waits, Went}
use kvstore_ffi.Async.Program.{
  AsyncCall, calls_destroy, task_sends, step, run_async, AllEnabled, IsEnabled, run_async-Safe,
}
use kvstore_ffi.Async.Drain.{IsAmong, drain, drain_lem}
use kvstore_ffi.Async.Gets.{GetAsyncOutcome, get_ref_async_lem}
use kvstore_ffi.Async.Await.{Left, await_string_lem}
use kvstore_ffi.Async.Whole.{get_and_wait, get_and_wait_lem}
use kvstore_ffi.Tests.Sample.{sample, text_a, boxed}
use kvstore_ffi.Tests.AsyncSample.{
  idle, idle-AsyncInv, core_there, box_there, asking_get, asking_get-AsyncInv, missing, answered,
  answered-AsyncInv, missing_there, future_there,
}

hit_rate_bounds_example :
    (0 < (hit_rate (record { hits = 3; misses = 1; current_size = 1 })).1)
    × ((hit_rate (record { hits = 3; misses = 1; current_size = 1 })).0
        ≤ (hit_rate (record { hits = 3; misses = 1; current_size = 1 })).1)
    × ((hit_rate (record { hits = 3; misses = 1; current_size = 1 })).0 * 4
        ≡ 3 * (hit_rate (record { hits = 3; misses = 1; current_size = 1 })).1)
hit_rate_bounds_example =
    hit_rate_bounds (record { hits = 3; misses = 1; current_size = 1 }) (omega arith)

object_there : deref idle.objects 1 ≡ some 1
unfolding deref slot
object_there = refl

get_ref_async_lem_example :
    Returns
      (λ f u. (f ≡ fresh idle.gets) × GetAsyncOutcome 1 1 boxed (slice_text (at text_a)) idle u)
      (get_ref_async 1 (at text_a) idle)
get_ref_async_lem_example =
    get_ref_async_lem 1 1 1 (at text_a) boxed idle idle-AsyncInv object_there refl box_there
      core_there

get_and_wait_lem_example :
    Returns
      (λ out u.
        (out ≡ done (await_outcome (spoken boxed idle.app.sdk (slice_text (at text_a))).0))
        × Went idle u
        × (u.app.sdk.world ≡ (spoken boxed idle.app.sdk (slice_text (at text_a))).1))
      (get_and_wait 1 (at text_a) idle)
get_and_wait_lem_example =
    get_and_wait_lem 1 1 1 (at text_a) boxed idle idle-AsyncInv object_there refl box_there
      core_there

await_string_lem_example :
    Returns
      (λ out u. (out ≡ done (await_outcome (err ErrorCode.key_not_found))) × Left 1 answered u)
      (await_string 1 answered)
await_string_lem_example =
    await_string_lem 1 1 missing (err ErrorCode.key_not_found) answered answered-AsyncInv
      future_there missing_there refl (λ code e z. cc) (λ x e. refl)

only_task : (i : ℕ) (t : Task) → deref asking_get.tasks i ≡ some t → IsAmong i (1 ∷ [])
unfolding deref slot
only_task zero t e = cc
only_task (suc zero) t e = inl refl
only_task (suc (suc i)) t e = cc

drain_lem_example :
    Returns
      (λ _ u.
        Went asking_get u
        × ((i : ℕ) → deref u.tasks i ≡ none)
        × ((f : ℕ) (c : Shared ℕ)
            → deref asking_get.gets f ≡ some c
            → (d : Shared ℕ) × (deref u.gets f ≡ some d)
              × (waits (some d) ≡ false)
              × (waits (some c) ≡ false → d ≡ c))
        × ((f : ℕ) (c : Shared (Unit {0}))
            → deref asking_get.sets f ≡ some c
            → (d : Shared (Unit {0})) × (deref u.sets f ≡ some d)
              × (waits (some d) ≡ false)
              × (waits (some c) ≡ false → d ≡ c)))
      (drain (1 ∷ []) asking_get)
drain_lem_example = drain_lem (1 ∷ []) asking_get asking_get-AsyncInv only_task

-- The object of the client ends while its get is on its way.
abbrev orphaned : AsyncApp
orphaned = record asking_get {
  post = record asking_get.post { boxes = none ∷ []; objects = none ∷ [] };
}

object_ends : step (calls_destroy 1) asking_get ≡ some (tt, orphaned)
unfolding step async_client_destroy kvstore_ffi.Async.Client.object_at deref slot
    kvstore_ffi.Async.Runtime.kv_store_async_destroy kvstore_ffi.Async.Runtime.box_at
    kvstore_ffi.Async.Runtime.drop_box kvstore_ffi.Async.Runtime.release_core total
    kvstore_ffi.Async.Client.set_object write
object_ends = refl

-- A call and a step of a task that the call left alone.
abbrev end_and_ask : List AsyncCall
end_and_ask = calls_destroy 1 ∷ task_sends 1 ∷ []

end_and_ask-AllEnabled : AllEnabled end_and_ask asking_get
unfolding deref slot
end_and_ask-AllEnabled = (
  (1, refl),
  λ t e.
      let same : orphaned ≡ t = cc object_ends in
      (subst (λ x. IsEnabled (task_sends 1) x) same (_, refl, tt), λ u q. tt),
)

run_async-Safe_example : Returns (λ _ u. Went asking_get u) (run_async end_and_ask asking_get)
run_async-Safe_example =
    run_async-Safe end_and_ask asking_get asking_get-AsyncInv end_and_ask-AllEnabled

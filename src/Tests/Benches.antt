-- ===== src/Tests/Benches.antt =====
-- The theorems on the benchmarks and the callbacks, at small inputs.
use kvstore_ffi.Prelude.{
  ℕ, zero, suc, ◌+◌, ◌*◌, ◌%◌, ◌^◌, ◌++◌, ◌≤◌, ◌<◌, ◌≡◌, ◌≢◌, refl, ◌⊎◌, true, false, none, some,
  List, [], ◌∷◌, length, get_elem?, ltb, leb, if◌then◌else◌, ◌==◌, arith,
}
use kvstore_ffi.Prelude.Table.{deref, slot, total}
use kvstore_ffi.Memory.{text_at}
use kvstore_ffi.Ffi.State.{KvGetResult}
use kvstore_ffi.Binding.State.{ValueRef}
use kvstore_ffi.Binding.Ownership.{AppInv}
use kvstore_ffi.Http.{ok}
use kvstore_ffi.Prelude.State.{Returns}
use kvstore_ffi.ErrorCode.{ErrorCode, as_i32, same_name}
use kvstore_ffi.Ffi.State.{at}
use kvstore_ffi.Ffi.Get.{slice_text}
use kvstore_ffi.Binding.{kv_store_exception, set_failed}
use kvstore_ffi.Binding.Expected.{get_outcome}
use kvstore_ffi.Bench.Values.{
  IsFilled, letter, generate_value, generate_value_lem, initialize_keys_distinct, initialize_keys,
}
use kvstore_ffi.Bench.Statistics.{sort, tally, percentile, percentile_place, percentile_lem}
use kvstore_ffi.Bench.Verdict.{
  Double, FfiOverheadResult, worst_case, worst_of, no_worst, worst_case_lem,
}
use kvstore_ffi.Bench.Runs.{Progress, hit_threads, miss_once, miss_loop}
use kvstore_ffi.Bench.Loops.{
  Left, hit_threads_lem, asked, miss_once_lem, answers_of, kept, miss_loop_lem,
}
use kvstore_ffi.Bench.Suite.{hit_rounds, hit_rounds_lem}
use kvstore_ffi.Bench.Comparison.{MeanNs, IsFast, all_pass, all_pass_lem}
use kvstore_ffi.Async.{pending, value, exception, AsyncApp, set_callback, get_callback}
use kvstore_ffi.Async.Callbacks.{set_callback_lem}
use kvstore_ffi.Async.GetCallback.{Arrives, get_callback_lem}
use kvstore_ffi.Tests.Held.{got, held_app, holding-Inv}
use kvstore_ffi.Tests.Sample.{sample, text_a, text_v, boxed, sdk, app, app-AppInv, site}

generate_value_lem_example : IsFilled letter 30 (generate_value 30)
generate_value_lem_example = generate_value_lem 30

initialize_keys_distinct_example :
    get_elem? (initialize_keys ([], [])).0 3 ≢ get_elem? (initialize_keys ([], [])).0 7
initialize_keys_distinct_example =
    initialize_keys_distinct 3 7 (omega arith) (omega arith) (omega arith)

abbrev half : ℕ → ℕ
half n = n

percentile_lem_example :
    (v : ℕ) × (percentile half (3 ∷ 1 ∷ 2 ∷ []) ≡ some (v, sort (3 ∷ 1 ∷ 2 ∷ [])))
    × (tally (λ y. ltb y v) (3 ∷ 1 ∷ 2 ∷ []) ≤ percentile_place half 3)
    × (percentile_place half 3 < tally (λ y. leb y v) (3 ∷ 1 ∷ 2 ∷ []))
    × (percentile_place half 3 < 3)
percentile_lem_example = percentile_lem half (3 ∷ 1 ∷ 2 ∷ []) (omega arith) (omega arith)

-- Whole nanoseconds as times.
abbrev nanoseconds : Double
nanoseconds = record {
  Time = ℕ;
  zero_time = 0;
  above = λ a b. ltb b a;
  above_irrefl = λ a. ground arith;
  above_trans = λ a b c h k. ground arith;
}

abbrev result : FfiOverheadResult nanoseconds
result = record { value_size = 64; thread_count = 16; ffi_overhead_ns = 700 }

worst_case_lem_example :
    (ltb (worst_case nanoseconds (result ∷ [])).overhead_ns 700 ≡ false)
    × ((worst_case nanoseconds (result ∷ []) ≡ no_worst nanoseconds)
        ⊎ ((j : ℕ) × (x : FfiOverheadResult nanoseconds) × (get_elem? (result ∷ []) j ≡ some x)
            × (16 ≤ x.thread_count)
            × (worst_case nanoseconds (result ∷ []) ≡ worst_of nanoseconds x)))
worst_case_lem_example = worst_case_lem nanoseconds (result ∷ []) 0 result refl (omega arith)

object_there : deref app.clients 1 ≡ some (record { client = 1 })
unfolding deref slot
object_there = refl

boxed_there : deref sdk.clients 1 ≡ some boxed
unfolding deref slot
boxed_there = refl

abbrev start : Progress
start = record { latencies = []; total_ops = 0 }

abbrev laps : List (List ℕ)
laps = (40 ∷ 50 ∷ []) ∷ (60 ∷ []) ∷ []

hit_threads_lem_example :
    Returns
      (λ q t. (q.latencies ≡ 40 ∷ 50 ∷ 60 ∷ []) × (q.total_ops ≡ (0 + 3) % 2 ^ 64) × Left app t)
      (hit_threads 1 text_a laps start app)
hit_threads_lem_example =
    hit_threads_lem 1 (record { client = 1 }) text_a laps start app app-AppInv object_there refl
      (omega arith)

miss_once_lem_example :
    Returns
      (λ out t.
        (out ≡ get_outcome (at text_a) (asked boxed (slice_text (at text_a)) site).0)
        × (t.sdk.world ≡ (asked boxed (slice_text (at text_a)) site).1)
        × Left app t)
      (miss_once 1 text_a app)
miss_once_lem_example =
    miss_once_lem 1 (record { client = 1 }) boxed text_a app app-AppInv object_there refl
      boxed_there

miss_loop_lem_example :
    Returns
      (λ q t.
        (q.latencies ≡ [] ++ kept (answers_of boxed text_a (40 ∷ 50 ∷ []) site) (40 ∷ 50 ∷ []))
        × (q.total_ops
            ≡ (0 + length (kept (answers_of boxed text_a (40 ∷ 50 ∷ []) site) (40 ∷ 50 ∷ [])))
              % 2 ^ 64)
        × Left app t)
      (miss_loop 1 text_a (40 ∷ 50 ∷ []) start app)
miss_loop_lem_example =
    miss_loop_lem 1 (record { client = 1 }) boxed text_a (40 ∷ 50 ∷ []) start app app-AppInv
      object_there refl boxed_there (omega arith)

hit_rounds_lem_example :
    Returns (λ _ t. Left app t) (hit_rounds 1 (text_a ∷ text_v ∷ []) (1 ∷ 0 ∷ []) app)
hit_rounds_lem_example =
    hit_rounds_lem 1 (record { client = 1 }) (text_a ∷ text_v ∷ []) (1 ∷ 0 ∷ []) app app-AppInv
      object_there refl (omega arith, (omega arith, tt))

-- Means of 700 and of 5000 nanoseconds.
abbrev means : List MeanNs
means = record { sum = 1400; others = 1 } ∷ record { sum = 5000; others = 0 } ∷ []

all_pass_lem_example :
    ((all_pass means ≡ true) × ((i : ℕ) (t : MeanNs) → get_elem? means i ≡ some t → IsFast t))
    ⊎ ((all_pass means ≡ false)
        × ((i : ℕ) × (t : MeanNs) × (get_elem? means i ≡ some t) × (5000 * (t.others + 1) ≤ t.sum)))
all_pass_lem_example = all_pass_lem means

-- One set is on its way.
abbrev waiting : AsyncApp
waiting = record {
  app = app;
  post = record {
    get_contexts = [];
    set_contexts = some (record { promise = 1 }) ∷ [];
    gets = [];
    sets = some pending ∷ [];
    tasks = [];
    boxes = [];
    objects = [];
  };
}

context_there : deref waiting.set_contexts 1 ≡ some (record { promise = 1 })
unfolding deref slot
context_there = refl

promise_pending : deref waiting.sets 1 ≡ some pending
unfolding deref slot
promise_pending = refl

set_callback_lem_example :
    Returns
      (λ _ t.
        (deref t.sets 1
          ≡ some (
              if as_i32 ErrorCode.timeout == 0
              then value tt
              else exception (kv_store_exception set_failed (same_name ErrorCode.timeout))))
        × (deref t.set_contexts 1 ≡ none)
        × (t.app ≡ waiting.app)
        × (t.gets ≡ waiting.gets)
        × ((n : ℕ) → set_callback 1 n t ≡ none))
      (set_callback 1 (as_i32 ErrorCode.timeout) waiting)
set_callback_lem_example =
    set_callback_lem 1 (record { promise = 1 }) ErrorCode.timeout waiting context_there
      promise_pending

-- A result is on its way to the callback of a get.
abbrev arriving : AsyncApp
arriving = record waiting {
  app = record held_app { refs = [] };
  post = record waiting.post {
    get_contexts = some (record { client = 1; promise = 1 }) ∷ [];
    gets = some pending ∷ [];
  };
}

got-Arrives : Arrives 1 got arriving.app
unfolding total deref slot text_at
got-Arrives = record {
  books = holding-Inv;
  sound = λ a o e. absurd (no_ref a o e);
  good = (ok text_v, (refl, refl, refl, refl));
  live = app-AppInv.live;
  apart = app-AppInv.apart;
}
  where
    no_ref : (a : ℕ) (o : ValueRef) → deref [] a ≡ some o → ⊥
    no_ref zero o e = cc
    no_ref (suc i) o e = cc

get_context_there : deref arriving.get_contexts 1 ≡ some (record { client = 1; promise = 1 })
unfolding deref slot
get_context_there = refl

get_pending : deref arriving.gets 1 ≡ some pending
unfolding deref slot
get_pending = refl

get_callback_lem_example :
    Returns
      (λ _ t.
        AppInv t.app
        × ((v : ℕ) × (deref t.gets 1 ≡ some (value v))
            × (deref t.app.refs v ≡ some (record { client = 1; result = got })))
        × (deref t.get_contexts 1 ≡ none)
        × (t.sets ≡ arriving.sets)
        × ((q : KvGetResult) → get_callback 1 q t ≡ none))
      (get_callback 1 got arriving)
get_callback_lem_example =
    get_callback_lem 1 (record { client = 1; promise = 1 }) got arriving got-Arrives
      get_context_there get_pending

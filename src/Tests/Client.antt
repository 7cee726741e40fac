-- ===== src/Tests/Client.antt =====
-- The theorems on the C interface and the C++ client, at small states.
use kvstore_ffi.Prelude.{
  ℕ, zero, suc, ◌≡◌, ◌↔◌, subst, refl, true, false, Option, none, some, List, [], ◌∷◌, ◌⊎◌,
}
use kvstore_ffi.Prelude.Table.{deref, slot, total, write, fresh, alloc}
use kvstore_ffi.ErrorCode.{
  ErrorCode, as_i32, from_i32, cast_error_code, same_name, as_i32_round_trip,
}
use kvstore_ffi.Memory.Counts.{Keeps}
use kvstore_ffi.Cache.{KvCache}
use kvstore_ffi.Cache.View.{cached}
use kvstore_ffi.Prelude.State.{Returns, ◌>>=◌}
use kvstore_ffi.Text.{Text, from_utf8, from_ptr}
use kvstore_ffi.Memory.{Cell, strong_at, text_at}
use kvstore_ffi.Ffi.State.{at, KvGetResult, KvStoreConfig, Sdk, KvStoreClient as BoxedClient}
use kvstore_ffi.Ffi.Books.{Inv, Updated}
use kvstore_ffi.Ffi.{
  kv_store_get, kv_store_set, kv_store_destroy, kv_store_release_get, kv_store_cache_clear,
  kv_store_init, kv_store_cache_stats,
}
use kvstore_ffi.Ffi.Get.{GetOutcome, kv_store_get_lem, slice_text}
use kvstore_ffi.Ffi.Set.{SetOutcome, kv_store_set_lem}
use kvstore_ffi.Ffi.Lifecycle.{released, kv_store_release_get_lem}
use kvstore_ffi.Ffi.Counters.{AfterGet, Unchanged, kv_store_cache_stats_lem}
use kvstore_ffi.Ffi.Init.{Boxed, kv_store_init_lem}
use kvstore_ffi.Binding.State.{App, ValueRef, KvStoreClient, Outcome, read_view}
use kvstore_ffi.Binding.Ownership.{AppInv, held}
use kvstore_ffi.Binding.{
  get, try_get, set, clear_cache, client_destroy, value_ref_destroy, value_ref_move,
  value_ref_assign,
}
use kvstore_ffi.Binding.Moves.{value_ref_destroy_lem, value_ref_move_lem, Ended}
use kvstore_ffi.Binding.Answers.{spoken}
use kvstore_ffi.Binding.Reads.{get_lem, try_get_lem, Read}
use kvstore_ffi.Binding.Expected.{get_outcome, try_get_outcome}
use kvstore_ffi.Binding.Writes.{set_lem, clear_cache_lem, client_destroy_lem, SetDone}
use kvstore_ffi.Binding.Program.{
  Call, perform, IsRef, AllLegal, calls_ref_destroy, calls_client_destroy, run, run-Safe,
  read_view_stable, no_leak, Safe,
}
use kvstore_ffi.Tests.Held.{got, view_of_v, holding, held_app, held_app-AppInv, holding-Inv}
use kvstore_ffi.Tests.Sample.{sample, text_a, text_v, boxed, sdk, sdk-Inv, nobody, app, app-AppInv}

abbrev left_app : App
left_app = record {
  sdk = record holding { clients = none ∷ [] };
  refs = some view_of_v ∷ [];
  clients = none ∷ [];
}

abbrev empty_app : App
empty_app = record left_app {
  sdk = record holding { arcs = none ∷ []; clients = none ∷ [] };
  refs = none ∷ [];
}

-- The client ends first, then the `ValueRef`.
abbrev both_end : List Call
both_end = calls_client_destroy 1 ∷ calls_ref_destroy 1 ∷ []

first_ends : perform (calls_client_destroy 1) held_app ≡ some (tt, left_app)
unfolding perform client_destroy kvstore_ffi.Binding.State.client_at deref
    kvstore_ffi.Binding.State.on_sdk kv_store_destroy kvstore_ffi.Ffi.State.on_arcs
    kvstore_ffi.Memory.arc_drop_all kvstore_ffi.Binding.State.set_client write
first_ends = refl

second_ends : perform (calls_ref_destroy 1) left_app ≡ some (tt, empty_app)
unfolding perform value_ref_destroy kvstore_ffi.Binding.State.ref_at deref
    kvstore_ffi.Binding.State.on_sdk kv_store_release_get kvstore_ffi.Ffi.State.on_arcs
    kvstore_ffi.Memory.arc_drop kvstore_ffi.Binding.State.set_ref write
second_ends = refl

both_end-AllLegal : AllLegal both_end held_app
unfolding deref slot
both_end-AllLegal = (
  (record { client = 1 }, refl),
  λ t e.
      let same : left_app ≡ t = cc first_ends in
      (subst (λ x. IsRef 1 x) same (view_of_v, refl), λ u q. tt),
)

run-Safe_example : Returns (λ _ t. Safe held_app t) (run both_end held_app)
run-Safe_example = run-Safe both_end held_app held_app-AppInv both_end-AllLegal

client_ends : AllLegal (calls_client_destroy 1 ∷ []) held_app
unfolding deref slot
client_ends = ((record { client = 1 }, refl), λ t e. tt)

client_ends-run : run (calls_client_destroy 1 ∷ []) held_app ≡ some (tt, left_app)
unfolding run
client_ends-run = rw first_ends refl

held_ref : deref held_app.refs 1 ≡ some view_of_v
unfolding deref slot
held_ref = refl

-- The `ValueRef` outlives its client.
read_view_stable_example :
    (v : Text) × (read_view view_of_v held_app ≡ some (v, held_app))
    × (read_view view_of_v left_app ≡ some (v, left_app))
read_view_stable_example =
    read_view_stable (calls_client_destroy 1 ∷ []) held_app left_app 1 view_of_v held_app-AppInv
      client_ends client_ends-run held_ref held_ref refl

no_slot : {A : Type 0} (p : ℕ) → deref {A = A} (none ∷ []) p ≡ none
unfolding deref slot
no_slot zero = refl
no_slot (suc zero) = refl
no_slot (suc (suc p)) = refl

both_end-run : run both_end held_app ≡ some (tt, empty_app)
unfolding run
both_end-run = rw (first_ends, second_ends) refl

nobody_holds : (b : ℕ) → held empty_app.refs b ≡ 0
unfolding total
nobody_holds b = refl

no_leak_example : text_at empty_app.sdk.arcs 1 ≡ none
no_leak_example =
    no_leak both_end held_app empty_app held_app-AppInv both_end-AllLegal both_end-run nobody_holds
      (no_slot {A = BoxedClient}) 1

boxed_here : deref sdk.clients 1 ≡ some boxed
unfolding deref slot
boxed_here = refl

object_here : deref app.clients 1 ≡ some (record { client = 1 })
unfolding deref slot
object_here = refl

kv_store_get_lem_example :
    Returns
      (GetOutcome nobody sdk 1 boxed (slice_text (at text_a)))
      (kv_store_get 1 (at text_a) sdk)
kv_store_get_lem_example =
    kv_store_get_lem {held = nobody} 1 boxed (at text_a) sdk sdk-Inv boxed_here

kv_store_set_lem_example :
    Returns
      (SetOutcome nobody sdk 1 boxed (slice_text (at text_a)) (slice_text (at text_v)))
      (kv_store_set 1 (at text_a) (at text_v) sdk)
kv_store_set_lem_example =
    kv_store_set_lem {held = nobody} 1 boxed (at text_a) (at text_v) sdk sdk-Inv boxed_here

-- The answer of the server for the key "a".
abbrev ReadDone : Outcome Text → App → Type 0
ReadDone out t =
    (out ≡ get_outcome (at text_a) (spoken boxed sdk (slice_text (at text_a))).0)
    × Read app boxed (slice_text (at text_a)) t

get_lem_example : Returns ReadDone (get 1 (at text_a) app)
get_lem_example =
    get_lem 1 (record { client = 1 }) boxed (at text_a) app app-AppInv object_here refl boxed_here

abbrev TryDone : Option Text → App → Type 0
TryDone out t =
    (out ≡ try_get_outcome (spoken boxed sdk (slice_text (at text_a))).0)
    × Read app boxed (slice_text (at text_a)) t

try_get_lem_example : Returns TryDone (try_get 1 (at text_a) app)
try_get_lem_example =
    try_get_lem 1 (record { client = 1 }) boxed (at text_a) app app-AppInv object_here refl
      boxed_here

set_lem_example :
    Returns
      (SetDone app (record { client = 1 }) boxed (slice_text (at text_a)) (slice_text (at text_v)))
      (set 1 (at text_a) (at text_v) app)
set_lem_example =
    set_lem 1 (record { client = 1 }) boxed (at text_a) (at text_v) app app-AppInv object_here refl
      boxed_here

value_ref_destroy_lem_example : Returns (λ _ t. Ended held_app 1 t) (value_ref_destroy 1 held_app)
value_ref_destroy_lem_example = value_ref_destroy_lem 1 view_of_v held_app held_app-AppInv held_ref

value_ref_move_lem_example :
    Returns
      (λ b t.
        AppInv t
        × (t.sdk ≡ held_app.sdk)
        × (t.clients ≡ held_app.clients)
        × (b ≡ fresh held_app.refs)
        × (t.refs
            ≡ alloc (write held_app.refs 1 (some (record view_of_v { client = 0 }))) view_of_v))
      (value_ref_move 1 held_app)
value_ref_move_lem_example = value_ref_move_lem 1 view_of_v held_app held_app-AppInv held_ref

clear_cache_lem_example :
    Returns
      (λ _ t.
        AppInv t
        × Keeps held_app.sdk.arcs t.sdk.arcs
        × (t.clients ≡ held_app.clients)
        × (t.refs ≡ held_app.refs)
        × (t.sdk.world ≡ held_app.sdk.world)
        × ((d : KvCache) × Updated holding 1 boxed d t.sdk
            × ((j : Text) → cached d t.sdk.arcs j ≡ none)))
      (clear_cache 1 held_app)
clear_cache_lem_example =
    clear_cache_lem 1 (record { client = 1 }) boxed held_app held_app-AppInv object_here refl
      boxed_here

client_destroy_lem_example :
    Returns
      (λ _ t.
        AppInv t
        × Keeps held_app.sdk.arcs t.sdk.arcs
        × (t.refs ≡ held_app.refs)
        × (t.clients ≡ write held_app.clients 1 none)
        × (t.sdk.world ≡ held_app.sdk.world)
        × (deref t.sdk.clients 1 ≡ none))
      (client_destroy 1 held_app)
client_destroy_lem_example =
    client_destroy_lem 1 (record { client = 1 }) boxed held_app held_app-AppInv object_here refl
      boxed_here

kv_store_release_get_lem_example :
    Returns
      (λ q t.
        (q ≡ some (released got))
        × Inv nobody t
        × Keeps holding.arcs t.arcs
        × (t.clients ≡ holding.clients)
        × (t.world ≡ holding.world)
        × (kv_store_release_get 1 q t ≡ some (q, t)))
      (kv_store_release_get 1 (some got) holding)
kv_store_release_get_lem_example =
    kv_store_release_get_lem {held = nobody} 1 got holding holding-Inv

kv_store_cache_stats_lem_example :
    Returns
      (λ st t. AfterGet boxed sdk (slice_text (at text_a)) st)
      ((do _ ← kv_store_get 1 (at text_a); kv_store_cache_stats 1) sdk)
    × Returns
        (λ st t. Unchanged boxed.cache st)
        ((do _ ← kv_store_set 1 (at text_a) (at text_v); kv_store_cache_stats 1) sdk)
    × Returns
        (λ st t. Unchanged boxed.cache st)
        ((do _ ← kv_store_cache_clear 1; kv_store_cache_stats 1) sdk)
kv_store_cache_stats_lem_example =
    kv_store_cache_stats_lem {held = nobody} 1 boxed (at text_a) (at text_v) sdk sdk-Inv boxed_here

abbrev config : KvStoreConfig
config = record {
  server_url = some (b'u' ∷ b'/' ∷ []);
  cache_ttl_ms = 60000;
  cache_capacity = 2;
  connection_pool_size = 1;
  padding = 0;
}

kv_store_init_lem_example :
    (kv_store_init none sdk ≡ some (0, sdk))
    × Returns
        (λ p t.
          Inv nobody t
          × (t.arcs ≡ sdk.arcs)
          × (t.world ≡ sdk.world)
          × (((p ≡ 0)
                × (t ≡ sdk)
                × ((from_utf8 (from_ptr (b'u' ∷ b'/' ∷ [])) ≡ none) ⊎ (true ≡ false)))
              ⊎ ((url : Text) × (from_utf8 (from_ptr (b'u' ∷ b'/' ∷ [])) ≡ some url)
                  × (true ≡ true)
                  × Boxed sdk url p t)))
        (kv_store_init (some config) sdk)
kv_store_init_lem_example =
    kv_store_init_lem {held = nobody} config (b'u' ∷ b'/' ∷ [])
      (record { capacity = 2; entries = [] }) sdk sdk-Inv refl refl

as_i32_round_trip_example :
    (from_i32 (as_i32 ErrorCode.timeout) ≡ ErrorCode.timeout)
    × (cast_error_code (as_i32 ErrorCode.timeout) ≡ same_name ErrorCode.timeout)
    × ((as_i32 ErrorCode.timeout ≡ 0) ↔ (ErrorCode.timeout ≡ ErrorCode.success))
as_i32_round_trip_example = as_i32_round_trip ErrorCode.timeout

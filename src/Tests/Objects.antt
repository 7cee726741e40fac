-- ===== src/Tests/Objects.antt =====
-- The theorems on client objects, at small states.
use kvstore_ffi.Prelude.{ℕ, ◌≡◌, ◌≢◌, refl, subst, none, some, [], ◌∷◌}
use kvstore_ffi.Prelude.Table.{deref, slot, alloc, write, fresh}
use kvstore_ffi.Prelude.State.{Returns, outcome}
use kvstore_ffi.Memory.Counts.{Keeps}
use kvstore_ffi.Binding.State.{Config, after, App}
use kvstore_ffi.Binding.{c_config, client_new, client_move, client_assign, get_cache_stats}
use kvstore_ffi.Binding.Ownership.{AppInv}
use kvstore_ffi.Binding.Clients.{Made, client_new_lem, client_move_lem}
use kvstore_ffi.Binding.Assignment.{client_assign_lem}
use kvstore_ffi.Tests.ListCache.{Store, build_store}
use kvstore_ffi.Binding.{value_ref_move, value_ref_assign}
use kvstore_ffi.Binding.Moves.{value_ref_move_lem, value_ref_assign_lem}
use kvstore_ffi.Tests.Held.{view_of_v, held_app, held_app-AppInv}
use kvstore_ffi.Tests.Sample.{sample, boxed, sdk, app, app-AppInv}

abbrev minute : Config
minute = record {
  server_url = b'u' ∷ b'/' ∷ [];
  cache_ttl = after 60000;
  cache_capacity = 2;
  connection_pool_size = 1;
}

abbrev store : Store
store = record { capacity = 2; entries = [] }

minute-builds :
    build_store (c_config minute).cache_capacity (c_config minute).cache_ttl_ms ≡ some store
unfolding c_config kvstore_ffi.Binding.State.millis_as_u64
minute-builds = refl

client_new_lem_example :
    Returns
      (λ out t.
        AppInv t
        × (t.sdk.arcs ≡ app.sdk.arcs)
        × (t.sdk.world ≡ app.sdk.world)
        × (t.refs ≡ app.refs)
        × Made minute app out t)
      (client_new minute app)
client_new_lem_example = client_new_lem minute store app app-AppInv minute-builds

object : deref app.clients 1 ≡ some (record { client = 1 })
unfolding deref slot
object = refl

boxed_object : deref sdk.clients 1 ≡ some boxed
unfolding deref slot
boxed_object = refl

client_move_lem_example :
    Returns
      (λ b t.
        AppInv t
        × (t.sdk ≡ app.sdk)
        × (t.refs ≡ app.refs)
        × (b ≡ fresh app.clients)
        × (t.clients
            ≡ alloc (write app.clients 1 (some (record { client = 0 }))) (record { client = 1 })))
      (client_move 1 app)
client_move_lem_example = client_move_lem 1 (record { client = 1 }) app app-AppInv object

-- The client object at 1 was moved to 2.
abbrev moved : App
moved = record app { clients = some (record { client = 0 }) ∷ some (record { client = 1 }) ∷ [] }

client_move-app : client_move 1 app ≡ some (2, moved)
unfolding client_move deref kvstore_ffi.Binding.State.client_at kvstore_ffi.Binding.State.set_client
    fresh alloc write
client_move-app = refl

moved-AppInv : AppInv moved
moved-AppInv =
    let (b, t, e, d) = outcome (client_move_lem 1 (record { client = 1 }) app app-AppInv object) in
    let same : t ≡ moved = cc client_move-app in subst (λ x. AppInv x) same d.0

null_object : deref moved.clients 1 ≡ some (record { client = 0 })
unfolding deref slot
null_object = refl

new_object : deref moved.clients 2 ≡ some (record { client = 1 })
unfolding deref slot
new_object = refl

-- The null client at 1 is moved over the one at 2, whose boxed client is freed.
client_assign_lem_example :
    Returns
      (λ _ u.
        AppInv u
        × Keeps moved.sdk.arcs u.sdk.arcs
        × (u.refs ≡ moved.refs)
        × (u.sdk.world ≡ moved.sdk.world)
        × (u.clients
            ≡ write
                (write moved.clients 2 (some (record { client = 0 })))
                1
                (some (record { client = 0 })))
        × (deref u.sdk.clients 1 ≡ none)
        × ((q : ℕ) → 1 ≢ q → deref u.sdk.clients q ≡ deref moved.sdk.clients q))
      (client_assign 2 1 moved)
client_assign_lem_example =
    client_assign_lem 2 1 (record { client = 1 }) (record { client = 0 }) moved moved-AppInv
      new_object null_object

-- The `ValueRef` at 1 was moved to 2.
abbrev ref_moved : App
ref_moved = record held_app { refs = some (record view_of_v { client = 0 }) ∷ some view_of_v ∷ [] }

value_ref_move-held_app : value_ref_move 1 held_app ≡ some (2, ref_moved)
unfolding value_ref_move deref kvstore_ffi.Binding.State.ref_at kvstore_ffi.Binding.State.set_ref
    kvstore_ffi.Binding.State.value_ref_new fresh alloc write
value_ref_move-held_app = refl

held_ref : deref held_app.refs 1 ≡ some view_of_v
unfolding deref slot
held_ref = refl

ref_moved-AppInv : AppInv ref_moved
ref_moved-AppInv =
    let (b, t, e, d) = outcome (value_ref_move_lem 1 view_of_v held_app held_app-AppInv held_ref) in
    let same : t ≡ ref_moved = cc value_ref_move-held_app in subst (λ x. AppInv x) same d.0

null_ref : deref ref_moved.refs 1 ≡ some (record view_of_v { client = 0 })
unfolding deref slot
null_ref = refl

new_ref : deref ref_moved.refs 2 ≡ some view_of_v
unfolding deref slot
new_ref = refl

-- An owner is assigned an object that was moved from: its text is given back.
value_ref_assign_lem_example :
    Returns
      (λ _ u.
        AppInv u
        × Keeps ref_moved.sdk.arcs u.sdk.arcs
        × (u.clients ≡ ref_moved.clients)
        × (u.sdk.world ≡ ref_moved.sdk.world)
        × (u.refs
            ≡ write
                (write ref_moved.refs 2 (some (record view_of_v { client = 0 })))
                1
                (some (record view_of_v { client = 0 }))))
      (value_ref_assign 2 1 ref_moved)
value_ref_assign_lem_example =
    value_ref_assign_lem 2 1 view_of_v (record view_of_v { client = 0 }) ref_moved ref_moved-AppInv
      new_ref null_ref

-- ===== src/Server.antt =====
-- server/src/main.rs: the handlers of the server over its map. The map of dashmap and what axum makes
-- of a request before a handler sees it are parameters.
pub mod Client
use kvstore_ffi.Prelude.{
  ℕ, zero, suc, ◌≡◌, ◌≢◌, Bool, true, Option, none, some, List, [], ◌∷◌, ◌++◌, if◌then◌else◌,
}
use kvstore_ffi.Text.{Text}
use kvstore_ffi.Bench.Values.{to_string}
use kvstore_ffi.Platform.{Method, Request, Response, Serde}

-- `DashMap<String, String>`
pub record DashMap : Type 1 where
  pub Map : Type 0
  pub empty : Map
  pub find : Map → Text → Option Text
  pub insert : Map → Text → Text → Map
  -- The value that was there, and the map without it.
  pub remove : Map → Text → Option Text × Map
  pub find-empty : (k : Text) → find empty k ≡ none
  pub find-insert_self : (m : Map) (k v : Text) → find (insert m k v) k ≡ some v
  pub find-insert_ne : (m : Map) (k v j : Text) → k ≢ j → find (insert m k v) j ≡ find m j
  pub remove_old : (m : Map) (k : Text) → (remove m k).0 ≡ find m k
  pub find-remove_self : (m : Map) (k : Text) → find (remove m k).1 k ≡ none
  pub find-remove_ne : (m : Map) (k j : Text) → k ≢ j → find (remove m k).1 j ≡ find m j

-- The router and the extractors of axum: the key of a URL whose path is `/kv/{key}`, decoded; whether
-- the path is `/health`; the responses to other paths or methods and to a body that is no
-- `SetRequest`.
pub record Axum (B : Type 0) : Type 0 where
  pub path_key : Text → Option Text
  pub is_health : Text → Bool
  pub unmatched : Request B → Response B
  pub rejected : Request B → Response B

-- `"Key '"`, `"' not found"` and `"ok"`
abbrev pub key_text_before : Text
key_text_before = b'K' ∷ b'e' ∷ b'y' ∷ b' ' ∷ b'\'' ∷ []

abbrev pub key_text_after : Text
key_text_after = b'\'' ∷ b' ' ∷ b'n' ∷ b'o' ∷ b't' ∷ b' ' ∷ b'f' ∷ b'o' ∷ b'u' ∷ b'n' ∷ b'd' ∷ []

abbrev pub ok_text : Text
ok_text = b'o' ∷ b'k' ∷ []

-- `format!("key{}", i)` and `format!("value{}", i)`
abbrev pub server_key : ℕ → Text
server_key i = b'k' ∷ b'e' ∷ b'y' ∷ to_string i

abbrev pub server_value : ℕ → Text
server_value i = b'v' ∷ b'a' ∷ b'l' ∷ b'u' ∷ b'e' ∷ to_string i

module _ (D : DashMap) (J : Serde) where
  open D use {Map, empty, find, insert, remove}
  open J use {Body, value_body, success_body, error_body, status_body, read_value}

  missing_key : Text → Response Body
  missing_key key = record {
    status = 404;
    body = error_body (key_text_before ++ (key ++ key_text_after));
  }

  -- `get_value`
  unfoldable pub get_value : Text → Map → Response Body
  unfolding missing_key
  get_value key store = elim (find store key) [
    | some value ↦ record { status = 200; body = value_body value }
    | none ↦ missing_key key
  ]

  -- `set_value`
  unfoldable pub set_value : Text → Text → Map → Response Body × Map
  set_value key value store =
      (record { status = 200; body = success_body true }, insert store key value)

  -- `delete_value`
  unfoldable pub delete_value : Text → Map → Response Body × Map
  unfolding missing_key
  delete_value key store = elim (remove store key).0 [
    | some value ↦ (record { status = 200; body = success_body true }, (remove store key).1)
    | none ↦ (missing_key key, (remove store key).1)
  ]

  -- `health_check`
  unfoldable pub health_check : Response Body
  health_check = record { status = 200; body = status_body ok_text }

  -- The routes of `main`.
  unfoldable pub kv_route : Axum Body → Text → Request Body → Map → Response Body × Map
  unfolding get_value set_value delete_value
  kv_route axum key r store = elim r.method [
    | Method.get ↦ (get_value key store, store)
    | Method.put ↦ elim (read_value r.body) [
      | none ↦ (axum.rejected r, store)
      | some value ↦ set_value key value store
    ]
    | Method.delete ↦ delete_value key store
  ]

  unfoldable pub health_route : Axum Body → Request Body → Response Body
  unfolding health_check
  health_route axum r = elim r.method [
    | Method.get ↦ (if axum.is_health r.url then health_check else axum.unmatched r)
    | _ ↦ axum.unmatched r
  ]

  unfoldable pub handle : Axum Body → Request Body → Map → Response Body × Map
  unfolding kv_route health_route
  handle axum r store = elim (axum.path_key r.url) [
    | some key ↦ kv_route axum key r store
    | none ↦ (health_route axum r, store)
  ]

  -- The loop that fills the map, with `n` rounds to go, and the map that the server starts with.
  unfoldable pub populate : ℕ → ℕ → Map → Map
  populate zero i store = store
  populate (suc n) i store = populate n (suc i) (insert store (server_key i) (server_value i))

  unfoldable pub initial_store : Map
  unfolding populate
  initial_store = populate 1000 0 empty

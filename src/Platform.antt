-- ===== src/Platform.antt =====
-- What the program calls and does not implement: the `moka` cache, the HTTP client `reqwest` with
-- the network and server behind it, and the JSON of `serde`. Each is a record of operations, with
-- the laws that its documentation gives.
use kvstore_ffi.Prelude.{ℕ, ◌+◌, ◌<◌, ◌≡◌, ◌≢◌, ◌⊎◌, Bool, Option, none, some, List, [], ◌∷◌, count}
use kvstore_ffi.Text.{Text}

abbrev one : ℕ → ℕ → ℕ
one a b = count b (a ∷ [])

-- `moka::sync::Cache<String, Arc<String>>`. An entry is the address of an `Arc`, of which the cache
-- owns one reference. An operation that drops entries returns the references it gives up. The cache
-- may forget any entry at any time (expiry, eviction, refused admission), and invents none.
pub record Moka : Type 1 where
  pub Store : Type 0
  -- Capacity and time to live in milliseconds; `none` is the documented panic of a time to live
  -- above 1000 years.
  pub build : ℕ → ℕ → Option Store
  pub get : Store → Text → Option ℕ
  pub insert : Store → Text → ℕ → Store × List ℕ
  pub invalidate : Store → Text → Store × List ℕ
  pub invalidate_all : Store → Store × List ℕ
  -- Maintenance that the cache runs on its own.
  pub housekeep : Store → Store × List ℕ
  -- The drop of the cache.
  pub discard : Store → List ℕ
  pub entry_count : Store → ℕ
  -- How many references to an address the cache owns.
  pub refs : Store → ℕ → ℕ
  pub get-build : (n t : ℕ) (s : Store) (k : Text) → build n t ≡ some s → get s k ≡ none
  pub get-insert_self :
      (s : Store) (k : Text) (a : ℕ)
      → (get (insert s k a).0 k ≡ some a) ⊎ (get (insert s k a).0 k ≡ none)
  pub get-insert_ne :
      (s : Store) (k j : Text) (a : ℕ)
      → j ≢ k
      → (get (insert s k a).0 j ≡ get s j) ⊎ (get (insert s k a).0 j ≡ none)
  pub get-invalidate_self : (s : Store) (k : Text) → get (invalidate s k).0 k ≡ none
  pub get-invalidate :
      (s : Store) (k j : Text)
      → (get (invalidate s k).0 j ≡ get s j) ⊎ (get (invalidate s k).0 j ≡ none)
  pub get-invalidate_all : (s : Store) (k : Text) → get (invalidate_all s).0 k ≡ none
  pub get-housekeep :
      (s : Store) (k : Text) → (get (housekeep s).0 k ≡ get s k) ⊎ (get (housekeep s).0 k ≡ none)
  pub refs-get : (s : Store) (k : Text) (a : ℕ) → get s k ≡ some a → 0 < refs s a
  pub refs-build : (n t : ℕ) (s : Store) (b : ℕ) → build n t ≡ some s → refs s b ≡ 0
  pub refs-insert :
      (s : Store) (k : Text) (a b : ℕ)
      → refs (insert s k a).0 b + count b (insert s k a).1 ≡ refs s b + one a b
  pub refs-invalidate :
      (s : Store) (k : Text) (b : ℕ)
      → refs (invalidate s k).0 b + count b (invalidate s k).1 ≡ refs s b
  pub refs-invalidate_all :
      (s : Store) (b : ℕ) → refs (invalidate_all s).0 b + count b (invalidate_all s).1 ≡ refs s b
  pub refs-housekeep :
      (s : Store) (b : ℕ) → refs (housekeep s).0 b + count b (housekeep s).1 ≡ refs s b
  pub refs-discard : (s : Store) (b : ℕ) → count b (discard s) ≡ refs s b

-- `serde_json` for the documents that the program sends: `{"value": …}`, `{"success": …}`,
-- `{"error": …}`, `{"status": …}`.
pub record Serde : Type 1 where
  pub Body : Type 0
  pub value_body : Text → Body
  pub success_body : Bool → Body
  pub error_body : Text → Body
  pub status_body : Text → Body
  -- The body of a request that has none.
  pub no_body : Body
  -- Reading `struct GetResponse { value }` or `struct SetRequest { value }`.
  pub read_value : Body → Option Text
  pub read_value-value_body : (v : Text) → read_value (value_body v) ≡ some v

pub data Method : Type 0 where
  get put delete : Method

pub record Request (B : Type 0) : Type 0 where
  pub method : Method
  pub url : Text
  pub body : B

pub record Response (B : Type 0) : Type 0 where
  pub status : ℕ
  pub body : B

pub record Platform : Type 1 where
  pub moka : Moka
  pub open moka use *
  pub serde : Serde
  pub open serde use *
  -- The network, and all that is behind it.
  pub World : Type 0
  -- `Client::builder()…build()` for a pool of this size succeeds.
  pub builds : ℕ → Bool
  -- `send()`: the response, or an error before one arrived, and what became of the world.
  pub send : World → Request Body → Option (Response Body) × World
  -- nlohmann::json of the benchmarks: `dump()` of an object with this `value`, and the string that
  -- `parse` and `get` read from a body; `none` is an exception.
  pub json_body : Text → Body
  pub json_value : Body → Option Text

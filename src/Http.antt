-- ===== src/Http.antt =====
-- core-sdk/src/client.rs: the HTTP client. async_client.rs repeats it with `await`.
use kvstore_ffi.Prelude.{
  ℕ, Bool, ◌&&◌, Option, none, some, [], ◌∷◌, ◌++◌, ltb, leb, ◌==◌, if◌then◌else◌,
}
use kvstore_ffi.Text.{Text, trim_slashes}
use kvstore_ffi.ErrorCode.{ErrorCode}
use kvstore_ffi.Platform.{Platform, Method, Request, Response}

-- `Result<A, ErrorCode>`
pub data Result (A : Type 0) : Type 0 where
  ok : A → Result A
  err : ErrorCode → Result A

-- `struct KvHttpClient`, of which only the base URL is state.
pub record KvHttpClient : Type 0 where
  pub base_url : Text

-- `"/kv/"`
abbrev pub kv_path : Text
kv_path = b'/' ∷ b'k' ∷ b'v' ∷ b'/' ∷ []

-- `format!("{}/kv/{}", self.base_url, key)`
unfoldable pub kv_url : KvHttpClient → Text → Text
kv_url c key = c.base_url ++ (kv_path ++ key)

-- `status().is_success()`
unfoldable pub is_success : ℕ → Bool
is_success status = leb 200 status && ltb status 300

module _ ⦃P : Platform⦄ where
  open P use {World, Body, send, builds, read_value, value_body, no_body}

  -- `KvHttpClient::new`
  unfoldable pub http_new : Text → ℕ → Result KvHttpClient
  http_new server_url pool_size =
      if builds pool_size
      then ok (record { base_url = trim_slashes server_url })
      else err ErrorCode.connection_error

  -- What `get` makes of the outcome of `send`.
  unfoldable pub read_get : Option (Response Body) → Result Text
  unfolding is_success
  read_get none = err ErrorCode.connection_error
  read_get (some r) =
      if is_success r.status
      then (elim (read_value r.body) [ none ↦ err ErrorCode.internal_error | some v ↦ ok v ])
      else if r.status == 404
      then err ErrorCode.key_not_found
      else err ErrorCode.internal_error

  -- What `set` makes of the outcome of `send`.
  unfoldable pub read_set : Option (Response Body) → Result (Unit {0})
  unfolding is_success
  read_set none = err ErrorCode.connection_error
  read_set (some r) = if is_success r.status then ok tt else err ErrorCode.internal_error

  abbrev pub get_request : KvHttpClient → Text → Request Body
  get_request c key = record { method = Method.get; url = kv_url c key; body = no_body }

  abbrev pub put_request : KvHttpClient → Text → Text → Request Body
  put_request c key value = record {
    method = Method.put;
    url = kv_url c key;
    body = value_body value;
  }

  -- `KvHttpClient::get`
  unfoldable pub http_get : KvHttpClient → Text → World → Result Text × World
  unfolding read_get
  http_get c key w = let (r, w') = send w (get_request c key) in (read_get r, w')

  -- `KvHttpClient::set`
  unfoldable pub http_set : KvHttpClient → Text → Text → World → Result (Unit {0}) × World
  unfolding read_set
  http_set c key value w = let (r, w') = send w (put_request c key value) in (read_set r, w')

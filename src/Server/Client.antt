-- ===== src/Server/Client.antt =====
-- The HTTP client of core-sdk/src/client.rs against the server of server/src/main.rs.
use kvstore_ffi.Prelude.{◌≡◌, refl, Option, none, some, ap, ◌∙◌, inl, inr, Option-cases}
use kvstore_ffi.Text.{Text}
use kvstore_ffi.Platform.{Platform, Request}
use kvstore_ffi.Http.{
  KvHttpClient, Result, ok, err, kv_url, get_request, put_request, read_get, read_set, http_get,
  http_set, is_success,
}
use kvstore_ffi.ErrorCode.{ErrorCode}
use kvstore_ffi.Server.{DashMap, Axum, get_value, set_value, kv_route, handle}

-- What the abstract map answers to a read.
abbrev pub answer_of : Option Text → Result Text
answer_of (some v) = ok v
answer_of none = err ErrorCode.key_not_found

module _ ⦃P : Platform⦄ where
  -- The world has the server with its map in it, and every request reaches it.
  pub record Serves (D : DashMap) (axum : Axum P.Body) : Type 0 where
    pub store : P.World → D.Map
    pub replies :
        (w : P.World) (r : Request P.Body)
        → (P.send w r).0 ≡ some (handle D P.serde axum r (store w)).0
    pub stores :
        (w : P.World) (r : Request P.Body)
        → store (P.send w r).1 ≡ (handle D P.serde axum r (store w)).1

  module _ (D : DashMap) (axum : Axum P.Body) (net : Serves D axum) where
    got :
        (c : KvHttpClient) (key name : Text) (m : D.Map)
        → axum.path_key (kv_url c key) ≡ some name
        → handle D P.serde axum (get_request c key) m ≡ (get_value D P.serde name m, m)
    unfolding handle kv_route
    got c key name m e = rw (handle, e) refl

    put_there :
        (c : KvHttpClient) (key name value : Text) (m : D.Map)
        → axum.path_key (kv_url c key) ≡ some name
        → handle D P.serde axum (put_request c key value) m ≡ set_value D P.serde name value m
    unfolding handle kv_route
    put_there c key name value m e = rw (handle, e, kv_route, P.read_value-value_body value) refl

    read_value_lem :
        (name : Text) (m : D.Map)
        → read_get (some (get_value D P.serde name m)) ≡ answer_of (D.find m name)
    unfolding read_get get_value is_success
    read_value_lem name m = elim (Option-cases (D.find m name)) [
      | inl none_there ↦ rw (get_value, none_there) refl
      | inr (v, there) ↦ rw (get_value, there, P.read_value-value_body v) refl
    ]

    -- Where the server is reached, the client's `get` answers what the map has of the name that axum
    -- reads from its URL, and leaves the map.
    pub http_get_served :
        (c : KvHttpClient) (key name : Text) (w : P.World)
        → axum.path_key (kv_url c key) ≡ some name
        → ((http_get c key w).0 ≡ answer_of (D.find (net.store w) name))
          × (net.store (http_get c key w).1 ≡ net.store w)
    unfolding http_get
    http_get_served c key name w e =
        let q = got c key name (net.store w) e in
        (
          ap read_get (net.replies w (get_request c key) ∙ ap (λ x. some x.0) q)
              ∙ read_value_lem name (net.store w),
          net.stores w (get_request c key) ∙ ap (λ x. x.1) q,
        )

    -- The client's `set` succeeds, and the map has the value under that name.
    pub http_set_served :
        (c : KvHttpClient) (key name value : Text) (w : P.World)
        → axum.path_key (kv_url c key) ≡ some name
        → ((http_set c key value w).0 ≡ ok tt)
          × (net.store (http_set c key value w).1 ≡ D.insert (net.store w) name value)
    unfolding http_set read_set is_success set_value
    http_set_served c key name value w e =
        let q = put_there c key name value (net.store w) e in
        (
          ap read_set (net.replies w (put_request c key value) ∙ ap (λ x. some x.0) q),
          net.stores w (put_request c key value) ∙ ap (λ x. x.1) q,
        )

-- ===== src/Ffi/State.antt =====
-- The structs of the C interface, the state behind it, and the access to one client.
use kvstore_ffi.Prelude.{ℕ, Option, none, some}
use kvstore_ffi.Prelude.Table.{Table, deref, write}
use kvstore_ffi.Prelude.State.{Run, and_then}
use kvstore_ffi.Text.{Text}
use kvstore_ffi.Memory.{Arcs}
use kvstore_ffi.Platform.{Platform}
use kvstore_ffi.Http.{KvHttpClient}
use kvstore_ffi.Cache.{KvCache}

-- A pointer and a length that the caller passes: null with some length, or readable bytes.
pub data Slice : Type 0 where
  null : ℕ → Slice
  at : Text → Slice

-- `KvStringRef`. The buffer of a text is named by the address of the `Arc` that owns it.
pub record KvStringRef : Type 0 where
  pub ptr : ℕ
  pub len : ℕ

-- `KvStringRef::null`
unfoldable pub null_ref : KvStringRef
null_ref = record { ptr = 0; len = 0 }

pub record KvGetResult : Type 0 where
  pub value : KvStringRef
  pub error_code : ℕ
  pub padding : ℕ
  pub arc_handle : ℕ

pub record KvSetResult : Type 0 where
  pub error_code : ℕ
  pub padding : ℕ

-- `none` is a null `server_url`.
pub record KvStoreConfig : Type 0 where
  pub server_url : Option Text
  pub cache_ttl_ms : ℕ
  pub cache_capacity : ℕ
  pub connection_pool_size : ℕ
  pub padding : ℕ

pub record KvCacheStats : Type 0 where
  pub hits : ℕ
  pub misses : ℕ
  pub current_size : ℕ

module _ ⦃P : Platform⦄ where
  pub record KvStoreClient : Type 0 where
    pub cache : KvCache
    pub http_client : KvHttpClient

  -- All that the calls act on: the `Arc` heap, the boxed clients, the world beyond.
  pub record Sdk : Type 0 where
    pub arcs : Arcs
    pub clients : Table KvStoreClient
    pub world : P.World

  -- An operation on the heap.
  unfoldable pub on_arcs : {A : Type 0} → Run Arcs A → Run Sdk A
  on_arcs m s = and_then (m s.arcs) λ a h. some (a, record s { arcs = h })

  -- An operation on the cache of the client at `p`; a dangling pointer is a fault.
  unfoldable pub on_cache : {A : Type 0} → ℕ → (KvCache → Run Arcs (A × KvCache)) → Run Sdk A
  on_cache p f s = elim (deref s.clients p) [
    | none ↦ none
    | some c ↦ and_then (f c.cache s.arcs) λ (a, d) h.
        some (a, record s { arcs = h; clients = write s.clients p (some (record c { cache = d })) })
  ]

  -- A request of the client at `p`.
  unfoldable pub on_http : {A : Type 0} → ℕ → (KvHttpClient → P.World → A × P.World) → Run Sdk A
  on_http p f s = elim (deref s.clients p) [
    | none ↦ none
    | some c ↦ some ((f c.http_client s.world).0, record s { world = (f c.http_client s.world).1 })
  ]

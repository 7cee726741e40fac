-- ===== src/Binding/State.antt =====
-- The objects of the C++ classes, and their access functions.
use kvstore_ffi.Prelude.{
  ℕ, ◌+◌, ◌-◌, ◌%◌, ◌^◌, Bool, Option, none, some, [], ◌==◌, ltb, if◌then◌else◌, take,
}
use kvstore_ffi.Prelude.Table.{Table, deref, write, alloc, fresh}
use kvstore_ffi.Prelude.State.{Run, and_then}
use kvstore_ffi.Text.{Text}
use kvstore_ffi.ErrorCode.{EnumErrorCode, cast_error_code}
use kvstore_ffi.Memory.{text_at}
use kvstore_ffi.Platform.{Platform}
use kvstore_ffi.Ffi.State.{KvGetResult, Sdk}

pub data ExceptionClass : Type 0 where
  kv_store_exception key_not_found_exception connection_exception : ExceptionClass

-- An exception object of the class or a subclass: its message and its code.
pub record KvStoreException : Type 0 where
  pub class : ExceptionClass
  pub what : Text
  pub code : EnumErrorCode

-- How a function ends.
pub data Outcome (A : Type 0) : Type 0 where
  returned : A → Outcome A
  thrown : KvStoreException → Outcome A

-- A signed count of milliseconds; `before n` is -(n + 1).
pub data Millis : Type 0 where
  after : ℕ → Millis
  before : ℕ → Millis

-- `static_cast<uint64_t>(cache_ttl.count())`
unfoldable pub millis_as_u64 : Millis → ℕ
millis_as_u64 (after n) = n % 2 ^ 64
millis_as_u64 (before n) = 2 ^ 64 - 1 - n % 2 ^ 64

-- `struct Config`
pub record Config : Type 0 where
  pub server_url : Text
  pub cache_ttl : Millis
  pub cache_capacity : ℕ
  pub connection_pool_size : ℕ

-- `struct CacheStats`
pub record CacheStats : Type 0 where
  pub hits : ℕ
  pub misses : ℕ
  pub current_size : ℕ

-- `hit_rate()`, as the exact numerator and denominator of the quotient of `double`; `uint64_t` sums
-- wrap.
unfoldable pub hit_rate : CacheStats → ℕ × ℕ
hit_rate s =
    let total = (s.hits + s.misses) % 2 ^ 64 in if ltb 0 total then (s.hits, total) else (0, 1)

-- `class ValueRef`
pub record ValueRef : Type 0 where
  pub client : ℕ
  pub result : KvGetResult

-- `class KvStoreClient`
pub record KvStoreClient : Type 0 where
  pub client : ℕ

-- `valid()` and `error()`
unfoldable pub valid : ValueRef → Bool
valid o = o.result.error_code == 0

unfoldable pub error : ValueRef → EnumErrorCode
error o = cast_error_code o.result.error_code

module _ ⦃P : Platform⦄ where
  -- The state behind the C interface, and the C++ objects.
  pub record App : Type 0 where
    pub sdk : Sdk
    pub refs : Table ValueRef
    pub clients : Table KvStoreClient

  unfoldable pub on_sdk : {A : Type 0} → Run Sdk A → Run App A
  on_sdk m s = and_then (m s.sdk) λ a t. some (a, record s { sdk = t })

  -- The object at an address; to use one whose lifetime is over is a fault.
  unfoldable pub ref_at : ℕ → Run App ValueRef
  ref_at a s = elim (deref s.refs a) [ none ↦ none | some o ↦ some (o, s) ]

  unfoldable pub set_ref : ℕ → Option ValueRef → Run App (Unit {0})
  set_ref a v s = some (tt, record s { refs = write s.refs a v })

  unfoldable pub client_at : ℕ → Run App KvStoreClient
  client_at a s = elim (deref s.clients a) [ none ↦ none | some k ↦ some (k, s) ]

  unfoldable pub set_client : ℕ → Option KvStoreClient → Run App (Unit {0})
  set_client a v s = some (tt, record s { clients = write s.clients a v })

  -- `ValueRef(client, result)`
  unfoldable pub value_ref_new : ℕ → KvGetResult → Run App ℕ
  value_ref_new client result s =
      some (
        fresh s.refs,
        record s { refs = alloc s.refs (record { client = client; result = result }) },
      )

  -- `view()`, and the read of its bytes: no byte is read where the length is 0, and a read through
  -- a pointer into freed memory is a fault.
  unfoldable pub read_view : ValueRef → Run App Text
  read_view o s =
      if o.result.value.len == 0
      then some ([], s)
      else (elim (text_at s.sdk.arcs o.result.value.ptr) [
        | none ↦ none
        | some t ↦ some (take o.result.value.len t, s)
      ])

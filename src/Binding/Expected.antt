-- ===== src/Binding/Expected.antt =====
-- What a reader of bindings/cpp/include expects `Get` and its kin to end with, written out without
-- the definitions of the classes.
use kvstore_ffi.Prelude.{Option, none, some, [], ◌∷◌}
use kvstore_ffi.Text.{Text}
use kvstore_ffi.ErrorCode.{ErrorCode, EnumErrorCode, same_name}
use kvstore_ffi.Http.{Result, ok, err}
use kvstore_ffi.Ffi.State.{Slice, null, at}
use kvstore_ffi.Binding.State.{Outcome, returned, thrown, ExceptionClass, KvStoreException}

-- The KeyNotFoundException that names this key.
abbrev pub missing : Text → KvStoreException
missing key = record {
  class = ExceptionClass.key_not_found_exception;
  what =
      b'K' ∷ b'e' ∷ b'y' ∷ b' ' ∷ b'n' ∷ b'o' ∷ b't' ∷ b' ' ∷ b'f' ∷ b'o' ∷ b'u' ∷ b'n' ∷ b'd'
      ∷ b':' ∷ b' ' ∷ key;
  code = EnumErrorCode.key_not_found;
}

-- The KvStoreException for another error.
abbrev pub failed : ErrorCode → KvStoreException
failed code = record {
  class = ExceptionClass.kv_store_exception;
  what = b'G' ∷ b'e' ∷ b't' ∷ b' ' ∷ b'f' ∷ b'a' ∷ b'i' ∷ b'l' ∷ b'e' ∷ b'd' ∷ [];
  code = same_name code;
}

-- The exception for a code, where the key is named so.
abbrev pub failure : Text → ErrorCode → KvStoreException
failure key ErrorCode.key_not_found = missing key
failure key code = failed code

-- What `Get` should end with, given the answer.
abbrev pub get_outcome : Slice → Result Text → Outcome Text
get_outcome key (ok v) = returned v
get_outcome (null n) (err code) = thrown (failure [] code)
get_outcome (at bytes) (err code) = thrown (failure bytes code)

-- What `get()` of the future of `GetAsync` should end with; the key is not named.
abbrev pub await_outcome : Result Text → Outcome Text
await_outcome (ok v) = returned v
await_outcome (err code) = thrown (
    failure
      (b'K' ∷ b'e' ∷ b'y' ∷ b' ' ∷ b'n' ∷ b'o' ∷ b't' ∷ b' ' ∷ b'f' ∷ b'o' ∷ b'u' ∷ b'n' ∷ b'd'
        ∷ [])
      code)

-- What `TryGet` should return.
abbrev pub try_get_outcome : Result Text → Option Text
try_get_outcome (ok v) = some v
try_get_outcome (err code) = none

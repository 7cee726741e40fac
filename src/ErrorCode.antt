-- ===== src/ErrorCode.antt =====
-- The error codes: core-sdk/src/error.rs, and the enum of bindings/cpp/include/kv_store.hpp that
-- repeats them. Both sides pass them across the boundary as an `int32_t`.
use kvstore_ffi.Prelude.{ℕ, ◌≡◌, refl, ◌↔◌, ◌==◌, if◌then◌else◌}

-- `enum ErrorCode` of error.rs.
pub data ErrorCode : Type 0 where
  success key_not_found connection_error timeout invalid_input internal_error : ErrorCode

-- `code as i32`
unfoldable pub as_i32 : ErrorCode → ℕ
as_i32 success = 0
as_i32 key_not_found = 1
as_i32 connection_error = 2
as_i32 timeout = 3
as_i32 invalid_input = 4
as_i32 internal_error = 5

-- `impl From<i32> for ErrorCode`
unfoldable pub from_i32 : ℕ → ErrorCode
from_i32 code =
    if code == 0
    then success
    else if code == 1
    then key_not_found
    else if code == 2
    then connection_error
    else if code == 3
    then timeout
    else if code == 4
    then invalid_input
    else internal_error

-- `enum class ErrorCode : int32_t` of kv_store.hpp. A cast from `int32_t` keeps every value, so the
-- type also has the values that no enumerator names (as the bit pattern of the integer).
pub data EnumErrorCode : Type 0 where
  success key_not_found connection_error timeout invalid_input internal_error : EnumErrorCode
  unnamed : ℕ → EnumErrorCode

-- `static_cast<ErrorCode>(code)`
unfoldable pub cast_error_code : ℕ → EnumErrorCode
cast_error_code code =
    if code == 0
    then EnumErrorCode.success
    else if code == 1
    then EnumErrorCode.key_not_found
    else if code == 2
    then EnumErrorCode.connection_error
    else if code == 3
    then EnumErrorCode.timeout
    else if code == 4
    then EnumErrorCode.invalid_input
    else if code == 5
    then EnumErrorCode.internal_error
    else unnamed code

-- The enumerator of the same name.
unfoldable pub same_name : ErrorCode → EnumErrorCode
same_name ErrorCode.success = EnumErrorCode.success
same_name ErrorCode.key_not_found = EnumErrorCode.key_not_found
same_name ErrorCode.connection_error = EnumErrorCode.connection_error
same_name ErrorCode.timeout = EnumErrorCode.timeout
same_name ErrorCode.invalid_input = EnumErrorCode.invalid_input
same_name ErrorCode.internal_error = EnumErrorCode.internal_error

-- A code that crosses the boundary as an `int32_t` is read back as itself by `From<i32>`, and as
-- the enumerator of the same name by the cast of the C++ wrapper; only success is the number 0.
pub as_i32_round_trip :
    (code : ErrorCode)
    → (from_i32 (as_i32 code) ≡ code)
      × (cast_error_code (as_i32 code) ≡ same_name code)
      × ((as_i32 code ≡ 0) ↔ (code ≡ ErrorCode.success))
unfolding as_i32 from_i32 cast_error_code same_name
as_i32_round_trip success = (refl, refl, (λ _. refl, λ _. refl))
as_i32_round_trip key_not_found = (refl, refl, (λ e. cc, λ e. cc))
as_i32_round_trip connection_error = (refl, refl, (λ e. cc, λ e. cc))
as_i32_round_trip timeout = (refl, refl, (λ e. cc, λ e. cc))
as_i32_round_trip invalid_input = (refl, refl, (λ e. cc, λ e. cc))
as_i32_round_trip internal_error = (refl, refl, (λ e. cc, λ e. cc))

-- ===== src/Binding/Answers.antt =====
-- The answers to reads, and what the bodies of `Get` and `TryGet` of
-- bindings/cpp/include/kv_store.hpp make of them.
use kvstore_ffi.Prelude.{
  ◌≡◌, refl, ◌≢◌, inl, inr, true, false, Option, none, some, [], ◌∷◌, arith, length, take-length,
  Option-cases, ap, sym, subst,
}
use kvstore_ffi.Text.{Text}
use kvstore_ffi.ErrorCode.{ErrorCode, as_i32, same_name, as_i32_round_trip}
use kvstore_ffi.Platform.{Platform, Response}
use kvstore_ffi.Http.{Result, ok, err, get_request, http_get, read_get}
use kvstore_ffi.Cache.View.{cached}
use kvstore_ffi.Ffi.State.{Slice, null, at, Sdk, KvStoreClient as BoxedClient}
use kvstore_ffi.Ffi.{get_error}
use kvstore_ffi.Ffi.Get.{Answers, reply}
use kvstore_ffi.Binding.State.{ValueRef, thrown, App, read_view, valid, error}
use kvstore_ffi.Binding.{
  get_exception, key_not_found_exception, kv_store_exception, slice_string, get_body, try_get_body,
}
use kvstore_ffi.Binding.Expected.{get_outcome, try_get_outcome}

-- An answer is a value, or an error other than success.
abbrev pub IsProper : Result Text → Type 0
IsProper r = (code : ErrorCode) → r ≡ err code → code ≢ ErrorCode.success

module _ ⦃P : Platform⦄ where
  -- The answer to a read of the slice, and the world after it.
  abbrev pub spoken : BoxedClient → Sdk → Option Text → Result Text × P.World
  spoken c s none = (err ErrorCode.invalid_input, s.world)
  spoken c s (some key) = reply c key (cached c.cache s.arcs key) s.world

  read_get-IsProper : (r : Option (Response P.Body)) → IsProper (read_get r)
  unfolding read_get
  read_get-IsProper none code e = ground arith
  read_get-IsProper (some r) code e = ground arith

  pub spoken-IsProper : (c : BoxedClient) (s : Sdk) (k : Option Text) → IsProper (spoken c s k).0
  unfolding http_get
  spoken-IsProper c s none code e = ground arith
  spoken-IsProper c s (some key) code e = elim (Option-cases (cached c.cache s.arcs key)) [
    | inl miss ↦
        read_get-IsProper (P.send s.world (get_request c.http_client key)).0 code
          (subst (λ o. (reply c key o s.world).0 ≡ err code) miss e)
    | inr (v, hit) ↦ absurd (no_error v (subst (λ o. (reply c key o s.world).0 ≡ err code) hit e))
  ]
    where
      no_error : (v : Text) → ok v ≡ err code → ⊥
      no_error v q = cc

  get_exception_lem :
      (key : Slice) (code : ErrorCode)
      → get_outcome key (err code) ≡ thrown (get_exception (slice_string key) (same_name code))
  unfolding get_exception slice_string key_not_found_exception kv_store_exception same_name
  get_exception_lem (null n) ErrorCode.success = refl
  get_exception_lem (null n) ErrorCode.key_not_found = refl
  get_exception_lem (null n) ErrorCode.connection_error = refl
  get_exception_lem (null n) ErrorCode.timeout = refl
  get_exception_lem (null n) ErrorCode.invalid_input = refl
  get_exception_lem (null n) ErrorCode.internal_error = refl
  get_exception_lem (at bytes) ErrorCode.success = refl
  get_exception_lem (at bytes) ErrorCode.key_not_found = refl
  get_exception_lem (at bytes) ErrorCode.connection_error = refl
  get_exception_lem (at bytes) ErrorCode.timeout = refl
  get_exception_lem (at bytes) ErrorCode.invalid_input = refl
  get_exception_lem (at bytes) ErrorCode.internal_error = refl

  pub valid-error :
      (o : ValueRef) (code : ErrorCode)
      → o.result ≡ get_error code
      → code ≢ ErrorCode.success
      → (valid o ≡ false) × (error o ≡ same_name code)
  unfolding valid error get_error
  valid-error o code e proper =
      let n : (as_i32 code ≡ 0) → ⊥ = λ z. proper ((as_i32_round_trip code).2.0 z) in
      let q : o.result.error_code ≡ as_i32 code = ap (λ r. r.error_code) e in
      (ground arith, rw q (as_i32_round_trip code).1)

  pub read_view_lem :
      (o : ValueRef) (v : Text) (s : App)
      → Answers o.result s.sdk.arcs (ok v)
      → read_view o s ≡ some (v, s)
  unfolding read_view
  read_view_lem o v s q = ground (arith, take-length v, empty v)
    where
      empty : (w : Text) → length w ≡ 0 → w ≡ []
      empty [] e = refl
      empty (x ∷ w) e = absurd (omega arith)

  pub valid_ok : (o : ValueRef) → o.result.error_code ≡ 0 → valid o ≡ true
  unfolding valid
  valid_ok o e = ground arith

  pub get_body_lem :
      (key : Slice) (o : ValueRef) (said : Result Text) (s : App)
      → Answers o.result s.sdk.arcs said
      → IsProper said
      → get_body key o s ≡ some (get_outcome key said, s)
  unfolding get_body
  get_body_lem key o (ok v) s q proper = rw (valid_ok o q.0, read_view_lem o v s q)
  get_body_lem key o (err code) s q proper =
      let (bad, same) = valid-error o code q (proper code refl) in
      rw (bad, same) (ap (λ x. some (x, s)) (sym (get_exception_lem key code)))

  pub try_get_body_lem :
      (o : ValueRef) (said : Result Text) (s : App)
      → Answers o.result s.sdk.arcs said
      → IsProper said
      → try_get_body o s ≡ some (try_get_outcome said, s)
  unfolding try_get_body
  try_get_body_lem o (ok v) s q proper = rw (valid_ok o q.0, read_view_lem o v s q)
  try_get_body_lem o (err code) s q proper =
      let (bad, same) = valid-error o code q (proper code refl) in rw bad

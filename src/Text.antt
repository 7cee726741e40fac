-- ===== src/Text.antt =====
-- Texts as lists of bytes, and what the code takes from Rust's standard library on them:
-- `std::str::from_utf8`, `CStr::from_ptr` and `trim_end_matches`.
use kvstore_ffi.Prelude.{
  ℕ, ◌≡◌, refl, Bool, true, false, ◌&&◌, Option, none, some, List, [], ◌∷◌, ltb, leb, ◌==◌,
  if◌then◌else◌,
}

abbrev pub Text : Type 0
Text = List ℕ

-- `lo <= b && b <= hi`
abbrev within : ℕ → ℕ → ℕ → Bool
within lo hi b = leb lo b && leb b hi

-- A continuation byte.
abbrev tail_byte : ℕ → Bool
tail_byte = within 0x80 0xbf

-- The second byte of a three-byte sequence: no overlong form, no surrogate.
abbrev second_of_three : ℕ → ℕ → Bool
second_of_three a b =
    if a == 0xe0 then within 0xa0 0xbf b else if a == 0xed then within 0x80 0x9f b else tail_byte b

-- The second byte of a four-byte sequence: no overlong form, nothing above U+10FFFF.
abbrev second_of_four : ℕ → ℕ → Bool
second_of_four a b =
    if a == 0xf0 then within 0x90 0xbf b else if a == 0xf4 then within 0x80 0x8f b else tail_byte b

-- Well-formed UTF-8, by the table of the Unicode standard that `from_utf8` documents.
unfoldable pub is_utf8 : Text → Bool
is_utf8 [] = true
is_utf8 (a ∷ []) = ltb a 0x80
is_utf8 (a ∷ b ∷ []) = if ltb a 0x80 then is_utf8 (b ∷ []) else within 0xc2 0xdf a && tail_byte b
is_utf8 (a ∷ b ∷ c ∷ []) =
    let one = is_utf8 (b ∷ c ∷ []) in
    let two = is_utf8 (c ∷ []) in
    if ltb a 0x80
    then one
    else if within 0xc2 0xdf a
    then tail_byte b && two
    else within 0xe0 0xef a && second_of_three a b && tail_byte c
is_utf8 (a ∷ b ∷ c ∷ d ∷ s) =
    let one = is_utf8 (b ∷ c ∷ d ∷ s) in
    let two = is_utf8 (c ∷ d ∷ s) in
    let three = is_utf8 (d ∷ s) in
    let four = is_utf8 s in
    if ltb a 0x80
    then one
    else if within 0xc2 0xdf a
    then tail_byte b && two
    else if within 0xe0 0xef a
    then second_of_three a b && tail_byte c && three
    else within 0xf0 0xf4 a && second_of_four a b && tail_byte c && tail_byte d && four

-- `std::str::from_utf8`: the same bytes, or an error.
unfoldable pub from_utf8 : Text → Option Text
from_utf8 s = if is_utf8 s then some s else none

-- `CStr::from_ptr`: the bytes up to the first NUL.
unfoldable pub from_ptr : Text → Text
from_ptr [] = []
from_ptr (b ∷ s) = if b == 0 then [] else b ∷ from_ptr s

-- `s.trim_end_matches('/')`
unfoldable pub trim_slashes : Text → Text
trim_slashes [] = []
trim_slashes (b ∷ s) = elim (trim_slashes s) [
  | [] ↦ if b == b'/' then [] else b ∷ []
  | c ∷ r ↦ b ∷ c ∷ r
]

utf8_accepts :
    is_utf8 (0x61 ∷ 0xc3 ∷ 0xa9 ∷ 0xe2 ∷ 0x82 ∷ 0xac ∷ 0xf0 ∷ 0x9f ∷ 0x98 ∷ 0x80 ∷ []) ≡ true
unfolding is_utf8
utf8_accepts = refl

utf8_refuses_overlong : is_utf8 (0xc0 ∷ 0x80 ∷ []) ≡ false
unfolding is_utf8
utf8_refuses_overlong = refl

utf8_refuses_surrogate : is_utf8 (0xed ∷ 0xa0 ∷ 0x80 ∷ []) ≡ false
unfolding is_utf8
utf8_refuses_surrogate = refl

trims : trim_slashes (b'a' ∷ b'/' ∷ b'b' ∷ b'/' ∷ b'/' ∷ []) ≡ b'a' ∷ b'/' ∷ b'b' ∷ []
unfolding trim_slashes
trims = refl

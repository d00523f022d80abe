-- ===== src/Rust/Utf8.antt =====
-- `std::str::from_utf8`: the well-formed sequences of the Unicode standard, table 3-7.
use tjiftjaf.Prelude.{ℕ, leb, if◌then◌else◌, ◌&&◌, ◌==◌, Bool, true, false, [], ◌∷◌, ◌≡◌, refl}
use tjiftjaf.Result.{invalid_value, Result, ok, err}
use tjiftjaf.Rust.{Bytes}

-- What may come next: a first byte, the last continuation bytes of a character, or a second
-- byte with a range of its own.
pub data Expect : Type 0 where
  first one two three after_e0 after_ed after_f0 after_f4 invalid : Expect

abbrev within : ℕ → ℕ → ℕ → Bool
within lo hi b = leb lo b && leb b hi

expect_first : ℕ → Expect
expect_first b =
    if leb b 0x7f
    then first
    else if within 0xc2 0xdf b
    then one
    else if b == 0xe0
    then after_e0
    else if b == 0xed
    then after_ed
    else if within 0xe1 0xef b
    then two
    else if b == 0xf0
    then after_f0
    else if within 0xf1 0xf3 b
    then three
    else if b == 0xf4
    then after_f4
    else invalid

expect_next : Expect → ℕ → Expect
expect_next first b = expect_first b
expect_next one b = if within 0x80 0xbf b then first else invalid
expect_next two b = if within 0x80 0xbf b then one else invalid
expect_next three b = if within 0x80 0xbf b then two else invalid
expect_next after_e0 b = if within 0xa0 0xbf b then one else invalid
expect_next after_ed b = if within 0x80 0x9f b then one else invalid
expect_next after_f0 b = if within 0x90 0xbf b then two else invalid
expect_next after_f4 b = if within 0x80 0x8f b then two else invalid
expect_next invalid b = invalid

is_first : Expect → Bool
is_first first = true
is_first _ = false

is_utf8_from : Expect → Bytes → Bool
is_utf8_from e [] = is_first e
is_utf8_from e (b ∷ bytes) = is_utf8_from (expect_next e b) bytes

unfoldable pub is_utf8 : Bytes → Bool
unfolding is_utf8_from is_first expect_next expect_first
is_utf8 bytes = is_utf8_from first bytes

-- `std::str::from_utf8`, with any error turned into `DecodingError::InvalidValue`.
unfoldable pub from_utf8 : Bytes → Result Bytes
from_utf8 bytes = if is_utf8 bytes then ok bytes else err invalid_value

-- Valid UTF-8, the invariant of Rust's `str`.
abbrev pub IsStr : Bytes → Type 0
IsStr s = is_utf8 s ≡ true

pub from_utf8_ok : (s : Bytes) → IsStr s → from_utf8 s ≡ ok s
unfolding from_utf8
from_utf8_ok s h = rw h

is_utf8_samples :
    (is_utf8 (0x4d ∷ 0xc3 ∷ 0xa9 ∷ 0xe2 ∷ 0x82 ∷ 0xac ∷ 0xf0 ∷ 0x9f ∷ 0x98 ∷ 0x80 ∷ []) ≡ true)
    × (is_utf8 (0xed ∷ 0xa0 ∷ 0x80 ∷ []) ≡ false)
    × (is_utf8 (0xc0 ∷ 0x80 ∷ []) ≡ false)
    × (is_utf8 (0xe2 ∷ 0x82 ∷ []) ≡ false)
unfolding is_utf8
is_utf8_samples = (refl, refl, refl, refl)

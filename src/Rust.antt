-- ===== src/Rust.antt =====
-- What the code uses of Rust's core: slices, checked integers, big-endian pairs and `from_utf8`.
-- A `Vec<u8>`, a slice and a string are lists of numbers below 256; a string is valid UTF-8.
pub mod Slices
pub mod Utf8
use tjiftjaf.Prelude.{
  ℕ, ◌+◌, ◌-◌, ◌*◌, ◌/◌, ◌%◌, ◌<◌, ◌^◌, ltb, if◌then◌else◌, ◌||◌, List, [], ◌∷◌, Option, none, some,
  length, take, drop, get_elem?, All, Bool, true, false, ◌&&◌, ◌==◌,
}
use tjiftjaf.Result.{Result, ok, panic}

abbrev pub Bytes : Type 0
Bytes = List ℕ

abbrev pub IsByte : ℕ → Type 0
IsByte b = b < 256

abbrev pub IsU16 : ℕ → Type 0
IsU16 n = n < 65536

-- `bytes[index]`
abbrev pub index : Bytes → ℕ → Result ℕ
index bytes i = elim (get_elem? bytes i) [ none ↦ panic | some b ↦ ok b ]

-- `&bytes[start..end]`
unfoldable pub slice : Bytes → ℕ → ℕ → Result Bytes
slice bytes start end =
    if ltb end start || ltb (length bytes) end
    then panic
    else ok (take (end - start) (drop start bytes))

-- `&bytes[start..]`
unfoldable pub slice_from : Bytes → ℕ → Result Bytes
slice_from bytes start = if ltb (length bytes) start then panic else ok (drop start bytes)

-- `a + b`, `a * b` and `a - b` on `u32`, with overflow checks.
abbrev pub add_u32 : ℕ → ℕ → Result ℕ
add_u32 a b = if ltb (a + b) (2 ^ 32) then ok (a + b) else panic

abbrev pub mul_u32 : ℕ → ℕ → Result ℕ
mul_u32 a b = if ltb (a * b) (2 ^ 32) then ok (a * b) else panic

-- `a - b` on any unsigned type, with overflow checks.
abbrev pub sub_checked : ℕ → ℕ → Result ℕ
sub_checked a b = if ltb a b then panic else ok (a - b)

-- `n as u16` and `n as u8`
abbrev pub as_u16 : ℕ → ℕ
as_u16 n = n % 65536

-- `n.to_be_bytes()` and `u16::from_be_bytes([msb, lsb])`
abbrev pub to_be_bytes : ℕ → Bytes
to_be_bytes n = n / 256 % 256 ∷ n % 256 ∷ []

abbrev pub from_be_bytes : ℕ → ℕ → ℕ
from_be_bytes msb lsb = msb * 256 + lsb

-- `a == b` on slices
unfoldable pub bytes_eq : Bytes → Bytes → Bool
bytes_eq [] [] = true
bytes_eq (x ∷ xs) (y ∷ ys) = x == y && bytes_eq xs ys
bytes_eq _ _ = false

-- ===== src/Decode.antt =====
-- src/decode.rs: numbers, the remaining length and length-prefixed fields.
pub mod Length
pub mod Field
use tjiftjaf.Prelude.{
  ℕ, zero, suc, ◌+◌, ◌-◌, List, [], ◌∷◌, ltb, ◌==◌, not, if◌then◌else◌, length, get_elem?,
}
use tjiftjaf.Prelude.Bits.{mask_127, has_bit}
use tjiftjaf.Result.{
  Result, ok, err, panic, ◌>>=◌, ◌>>◌, fail_if, ok_or, not_enough_bytes, invalid_value,
}
use tjiftjaf.Rust.{Bytes, index, slice, slice_from, add_u32, mul_u32, from_be_bytes}
use tjiftjaf.Rust.Utf8.{from_utf8}

unfoldable pub u16 : Bytes → Result ℕ
u16 bytes = do
  msb ← ok_or (get_elem? bytes 0) (not_enough_bytes 2 0)
  lsb ← ok_or (get_elem? bytes 1) (not_enough_bytes 2 0)
  ok (from_be_bytes msb lsb)

-- The `loop` of `packet_length`; the list is what stands from `index` on.
pub packet_length_loop : Bytes → (index multiplier value : ℕ) → Result ℕ
packet_length_loop [] i multiplier value = err (not_enough_bytes (i + 1) i)
packet_length_loop (byte ∷ rest) i multiplier value = do
  product ← mul_u32 (mask_127 byte) multiplier
  value' ← add_u32 value product
  multiplier' ← mul_u32 multiplier 128
  let done = do a ← add_u32 value' 1; b ← add_u32 a i; add_u32 b 1
  let more = packet_length_loop rest (i + 1) multiplier' value'
  if not (has_bit 128 byte) then done else if i == 3 then err invalid_value else more

unfoldable pub packet_length : Bytes → Result ℕ
unfolding packet_length_loop
packet_length bytes = packet_length_loop bytes 0 1 0

-- `field::bytes`: the data of the next field, and the length of the field with its prefix.
unfoldable pub bytes : Bytes → Result (Bytes × ℕ)
bytes input = do
  fail_if (ltb (length input) 2) (not_enough_bytes 2 (length input))
  msb ← index input 0
  lsb ← index input 1
  let size = from_be_bytes msb lsb
  fail_if (ltb (length input) (size + 2)) (not_enough_bytes (size + 2) (length input))
  value ← slice input 2 (2 + size)
  ok (value, size + 2)

-- `field::variable_length`
unfoldable pub variable_length : Bytes → Result (Bytes × ℕ)
variable_length input = do
  fail_if (ltb (length input) 2) (not_enough_bytes 2 (length input))
  msb ← index input 0
  lsb ← index input 1
  let size = from_be_bytes msb lsb
  fail_if (ltb (length input) (size + 2)) (not_enough_bytes (size + 2) (length input))
  value ← slice input 2 (2 + size)
  ok (value, size + 2)

-- `field::variable_length_n`
unfoldable pub variable_length_n : ℕ → Bytes → Result (Bytes × ℕ)
variable_length_n zero input = variable_length input
variable_length_n (suc n) input = do
  fail_if (ltb (length input) 2) (not_enough_bytes 2 (length input))
  msb ← index input 0
  lsb ← index input 1
  let offset = from_be_bytes msb lsb + 2
  fail_if (ltb (length input) offset) (not_enough_bytes (offset + 2) (length input))
  rest ← slice_from input offset
  variable_length_n n rest

-- `field::utf8`
unfoldable pub utf8 : Bytes → Result (Bytes × ℕ)
utf8 input = do (field, offset) ← bytes input; value ← from_utf8 field; ok (value, offset)

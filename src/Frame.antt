-- ===== src/Frame.antt =====
-- src/packet/mod.rs: the traits `Frame` and `UnverifiedFrame` as interfaces, with their default
-- methods.
pub mod Layout
pub mod Payload
pub mod Checks
pub mod Verified
use tjiftjaf.Prelude.{
  ℕ, zero, suc, ◌+◌, ◌-◌, not, ◌==◌, if◌then◌else◌, leb, Option, none, some, length, get_elem?,
  Bool,
}
use tjiftjaf.Prelude.Bits.{has_bit}
use tjiftjaf.Result.{
  Result, ok, err, fail_if, too_many_bytes, ◌>>=◌, ◌>>◌, assert, ok_or, unwrap, not_enough_bytes,
  invalid_remaining_length,
}
use tjiftjaf.Rust.{Bytes, index, slice, slice_from, sub_checked}
use tjiftjaf.Decode.{packet_length}
use tjiftjaf.Kinds.{PacketType, packet_type_try_from}

pub record Frame (A : Type 0) : Type 0 where
  pub as_bytes : A → Bytes
  pub variable_header : A → Result Bytes

-- `Frame::header`, which reads the bytes alone.
unfoldable pub header_of : Bytes → Result Bytes
header_of inner = do
  first ← index inner 1
  let after_first = do
    second ← index inner 2
    let after_second = do
      third ← index inner 3
      if not (has_bit 128 third) then slice inner 0 4 else slice inner 0 5
    if not (has_bit 128 second) then slice inner 0 3 else after_second
  if not (has_bit 128 first) then slice inner 0 2 else after_first

-- `Frame::length`
unfoldable pub length_of : Bytes → Result ℕ
length_of inner = do rest ← slice inner 1 (length inner); unwrap (packet_length rest)

-- `Frame::packet_type`
unfoldable pub packet_type_of : Bytes → Result PacketType
packet_type_of inner = do
  assert (leb 2 (length inner))
  byte ← index inner 0
  unwrap (packet_type_try_from byte)

module _ {A : Type 0} ⦃f : Frame A⦄ where
  -- `Frame::offset_variable_header`
  unfoldable pub offset_variable_header : A → Result ℕ
  offset_variable_header a = do header ← header_of (f.as_bytes a); ok (length header)

  -- `Frame::offset_payload`
  unfoldable pub offset_payload : A → Result ℕ
  offset_payload a = do
    header ← header_of (f.as_bytes a)
    variable ← f.variable_header a
    ok (length header + length variable)

  -- `Frame::payload`
  unfoldable pub payload : A → Result Bytes
  payload a = do
    header ← header_of (f.as_bytes a)
    variable ← f.variable_header a
    let offset = length header + length variable
    total ← length_of (f.as_bytes a)
    size ← sub_checked total offset
    slice (f.as_bytes a) offset (offset + size)

-- The `for n in 1..5` of `try_header`, with the rounds left.
unfoldable pub try_header_loop : Bytes → (n rounds : ℕ) → Result Bytes
try_header_loop inner n zero = err invalid_remaining_length
try_header_loop inner n (suc rounds) =
    let next = try_header_loop inner (n + 1) rounds in
    do
      byte ← ok_or (get_elem? inner n) (not_enough_bytes 1 0)
      if not (has_bit 128 byte) then slice inner 0 (n + 1) else next

-- `UnverifiedFrame::try_header`
unfoldable pub try_header : Bytes → Result Bytes
unfolding try_header_loop
try_header inner = try_header_loop inner 1 4

-- `UnverifiedFrame::try_offset_variable_header`
unfoldable pub try_offset_variable_header : Bytes → Result ℕ
try_offset_variable_header inner = do header ← try_header inner; ok (length header)

-- The required methods of `UnverifiedFrame`; an implementation computes its variable header
-- with the two functions above.
pub record UnverifiedFrame (A : Type 0) : Type 0 where
  pub bytes : A → Bytes
  pub try_variable_header : A → Result Bytes

module _ {A : Type 0} ⦃f : UnverifiedFrame A⦄ where
  -- `UnverifiedFrame::try_offset_payload`
  unfoldable pub try_offset_payload : A → Result ℕ
  try_offset_payload a = do
    header ← try_header (f.bytes a)
    variable ← f.try_variable_header a
    ok (length header + length variable)

  -- `UnverifiedFrame::try_payload`
  unfoldable pub try_payload : A → Result Bytes
  try_payload a = do
    offset ← try_offset_payload a
    size ← sub_checked (length (f.bytes a)) offset
    slice (f.bytes a) offset (offset + size)

-- `try_variable_header` of SUBSCRIBE, SUBACK and UNSUBSCRIBE: the two bytes behind the header.
unfoldable pub try_two_bytes : Bytes → Result Bytes
try_two_bytes inner = do offset ← try_offset_variable_header inner; slice inner offset (offset + 2)

-- ... and `variable_header` of the same packets.
unfoldable pub two_bytes : Bytes → Result Bytes
two_bytes inner = do header ← header_of inner; slice inner (length header) (length header + 2)

-- The second half of each `verify_header`: the encoded length must be the actual one.
unfoldable pub check_length : Bytes → Bytes → Result (Unit {0})
check_length inner header = do
  field ← slice header 1 (length header)
  n ← packet_length field
  fail_if (not (n == length inner)) too_many_bytes

-- ===== src/Packet/Ack.antt =====
-- src/packet/ack.rs and the five packets made of it: PUBACK, PUBREC, PUBREL, PUBCOMP, UNSUBACK.
pub mod Codec
use tjiftjaf.Prelude.{ℕ, ◌+◌, ◌*◌, ◌/◌, ◌%◌, [], ◌∷◌, ltb, not, ◌==◌, if◌then◌else◌, length}
use tjiftjaf.Result.{
  Result, ok, err, panic, ◌>>=◌, ◌>>◌, fail_if, unwrap, not_enough_bytes, too_many_bytes,
  invalid_value, invalid_packet_type,
}
use tjiftjaf.Rust.{Bytes, index, slice_from}
use tjiftjaf.Kinds.{PacketType, packet_type_code, packet_type_try_from, packet_type_eq}
use tjiftjaf.Frame.{Frame}

-- `Ack([u8; 4])`
pub record Ack : Type 0 where
  pub byte_0 : ℕ
  pub byte_1 : ℕ
  pub byte_2 : ℕ
  pub byte_3 : ℕ

-- `Ack::new`
unfoldable pub new : PacketType → ℕ → Ack
unfolding packet_type_code
new t packet_identifier = record {
  byte_0 = packet_type_code t * 16;
  byte_1 = 2;
  byte_2 = packet_identifier / 256 % 256;
  byte_3 = packet_identifier % 256;
}

-- `Ack::packet_type`
unfoldable pub packet_type : Ack → Result PacketType
packet_type ack = unwrap (packet_type_try_from ack.byte_0)

-- `Ack::packet_identifier`
abbrev pub packet_identifier : Ack → ℕ
packet_identifier ack = ack.byte_2 * 256 + ack.byte_3

-- `Ack::as_bytes` and `From<Ack> for Vec<u8>`
abbrev pub as_bytes : Ack → Bytes
as_bytes ack = ack.byte_0 ∷ ack.byte_1 ∷ ack.byte_2 ∷ ack.byte_3 ∷ []

-- `Ack::variable_header`
instance abbrev pub ack_frame : Frame Ack
ack_frame = record { as_bytes = as_bytes; variable_header = λ ack. slice_from (as_bytes ack) 2 }

-- `value.try_into()` of four bytes
array_of_4 : Bytes → Result Ack
array_of_4 (a ∷ b ∷ c ∷ d ∷ []) = ok (record { byte_0 = a; byte_1 = b; byte_2 = c; byte_3 = d })
array_of_4 _ = panic

-- `Ack::try_from`
unfoldable pub try_from : Bytes → Result Ack
unfolding array_of_4
try_from value = do
  fail_if (ltb (length value) 4) (not_enough_bytes 4 (length value))
  byte ← index value 0
  packet_type_try_from byte
  remaining_length ← index value 1
  fail_if (not (remaining_length == 2)) invalid_value
  fail_if (ltb 4 (length value)) too_many_bytes
  array_of_4 value

-- `PubAck::try_from` and its four copies: an `Ack` of the expected type.
unfoldable pub try_from_as : PacketType → Bytes → Result Ack
try_from_as expected value = do
  ack ← try_from value
  t ← packet_type ack
  if packet_type_eq t expected then ok ack else err (invalid_packet_type (packet_type_code t))

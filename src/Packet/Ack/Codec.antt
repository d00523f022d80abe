-- ===== src/Packet/Ack/Codec.antt =====
-- Acknowledgements round trip, and exactly the four-byte frames of their type are accepted.
use tjiftjaf.Prelude.{ℕ, ◌+◌, ◌*◌, ◌/◌, ◌<◌, ◌≡◌, arith, ◌≢◌, [], ◌∷◌}
use tjiftjaf.Result.{Result, ok, err, panic, outcome, is_ok, is_err, is_panic}
use tjiftjaf.Rust.{Bytes, IsU16}
use tjiftjaf.Kinds.{PacketType, packet_type_code, packet_type_try_from}
use tjiftjaf.Kinds.Codes.{
  packet_type_try_from-shifted, packet_type_try_from-code, packet_type_eq_refl, packet_type_eq-eq,
  packet_type_try_from-IsTypeOf,
}
use tjiftjaf.Packet.Ack
use tjiftjaf.Packet.Ack.{Ack}

-- For an identifier of 16 bits, what `new` builds is decoded to itself, and it carries that
-- identifier.
pub try_from_as-new :
    (t : PacketType) (id : ℕ)
    → IsU16 id
    → (Ack.try_from_as t (Ack.as_bytes (Ack.new t id)) ≡ ok (Ack.new t id))
      × (Ack.packet_identifier (Ack.new t id) ≡ id)
unfolding Ack.try_from_as Ack.try_from Ack.new Ack.packet_type
try_from_as-new t id h =
    (ground (arith, packet_type_try_from-shifted t, packet_type_eq_refl t), omega arith)

-- The frames that decode to an acknowledgement of type `t`: four bytes, the type in the upper
-- half of the first, and a remaining length of 2. The lower half is free.
abbrev pub IsAckOf : PacketType → Bytes → Result Ack → Type 0
IsAckOf t bytes (ok ack) =
    (bytes ≡ Ack.as_bytes ack) × (ack.byte_0 / 16 ≡ packet_type_code t) × (ack.byte_1 ≡ 2)
IsAckOf t bytes (err e) = Unit
IsAckOf t bytes panic = ⊥

type_of_byte :
    (byte : ℕ) (t : PacketType) → packet_type_try_from byte ≡ ok t → packet_type_code t ≡ byte / 16
type_of_byte byte t e = rw e at (packet_type_try_from-IsTypeOf byte)

type-ne-panic : (byte : ℕ) → packet_type_try_from byte ≢ panic
type-ne-panic byte e = rw e at (packet_type_try_from-IsTypeOf byte)

-- On any bytes the decoder of an acknowledgement returns an error, or a packet that holds
-- these bytes, with the type in the upper half of the first and a remaining length of 2. It
-- never panics.
pub try_from_as-IsAckOf :
    (t : PacketType) (bytes : Bytes) → IsAckOf t bytes (Ack.try_from_as t bytes)
unfolding Ack.try_from_as Ack.try_from Ack.packet_type
try_from_as-IsAckOf t (a ∷ b ∷ c ∷ d ∷ []) = elim (outcome (packet_type_try_from a)) [
  | is_ok u e ↦ ground (arith, e, type_of_byte a u e, packet_type_eq-eq u t)
  | is_err x e ↦ ground (arith, e)
  | is_panic e ↦ absurd (type-ne-panic a e)
]
try_from_as-IsAckOf t (a ∷ b ∷ c ∷ d ∷ x ∷ rest) = elim (outcome (packet_type_try_from a)) [
  | is_ok u e ↦ ground (arith, e)
  | is_err x e ↦ ground (arith, e)
  | is_panic e ↦ absurd (type-ne-panic a e)
]
try_from_as-IsAckOf t _ = tt

-- A four-byte frame of the type with remaining length 2 is accepted with any flags below 16.
pub try_from_as_flags :
    (t : PacketType) (flags c d : ℕ)
    → flags < 16
    → Ack.try_from_as t ((packet_type_code t * 16 + flags) ∷ 2 ∷ c ∷ d ∷ [])
      ≡ ok (record { byte_0 = packet_type_code t * 16 + flags; byte_1 = 2; byte_2 = c; byte_3 = d })
unfolding Ack.try_from_as Ack.try_from Ack.packet_type
try_from_as_flags t flags c d h =
    ground (arith, packet_type_try_from-code t flags, packet_type_eq_refl t)

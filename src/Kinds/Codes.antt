-- ===== src/Kinds/Codes.antt =====
-- Packet types and delivery guarantees against their codes.
use tjiftjaf.Prelude.{ℕ, ◌+◌, ◌*◌, ◌/◌, ◌≤◌, ◌<◌, ◌≡◌, ◌⊎◌, arith, true, some, ==-eq}
use tjiftjaf.Result.{Result, ok, err, panic, invalid_packet_type}
use tjiftjaf.Kinds.{
  PacketType, packet_type_code, packet_type_try_from, packet_type_eq, QoS, qos_code, qos_try_from,
  connect,
}

-- A type's code in the upper half of a byte is read back, whatever the flags below 16 are.
pub packet_type_try_from-code :
    (t : PacketType) (flags : ℕ)
    → flags < 16
    → packet_type_try_from (packet_type_code t * 16 + flags) ≡ ok t
unfolding packet_type_try_from packet_type_code
packet_type_try_from-code connect flags h = ground arith
packet_type_try_from-code _ flags h = ground arith

pub packet_type_try_from-shifted :
    (t : PacketType) → packet_type_try_from (packet_type_code t * 16) ≡ ok t
packet_type_try_from-shifted t =
    let e : packet_type_code t * 16 ≡ packet_type_code t * 16 + 0 = omega arith in
    rw e (packet_type_try_from-code t 0 (omega arith))

-- Of a byte, the type is read from the upper half, and exactly the halves 0 and 15 are refused.
abbrev pub IsTypeOf : ℕ → Result PacketType → Type 0
IsTypeOf byte (ok t) = packet_type_code t ≡ byte / 16
IsTypeOf byte (err e) = ((byte / 16 ≡ 0) ⊎ (15 ≤ byte / 16)) × (e ≡ invalid_packet_type byte)
IsTypeOf byte panic = ⊥

-- Of any byte, the type has the upper half for its code; the byte is refused only where that
-- half is 0 or at least 15, with the byte in the error.
pub packet_type_try_from-IsTypeOf : (byte : ℕ) → IsTypeOf byte (packet_type_try_from byte)
unfolding packet_type_try_from packet_type_code
packet_type_try_from-IsTypeOf byte = ground arith

pub packet_type_eq-eq : (a b : PacketType) → packet_type_eq a b ≡ true → a ≡ b
unfolding packet_type_eq
packet_type_eq-eq a b h =
    let codes : packet_type_code a ≡ packet_type_code b = ==-eq _ _ h in
    cc (
      codes,
      packet_type_try_from-code a 0 (omega arith),
      packet_type_try_from-code b 0 (omega arith),
    )

pub packet_type_eq_refl : (a : PacketType) → packet_type_eq a a ≡ true
unfolding packet_type_eq
packet_type_eq_refl a = ground arith

pub qos_try_from-code : (q : QoS) → qos_try_from (qos_code q) ≡ some q
unfolding qos_try_from
qos_try_from-code q = ground arith

pub qos_code-try_from : (v : ℕ) (q : QoS) → qos_try_from v ≡ some q → qos_code q ≡ v
unfolding qos_try_from
qos_code-try_from v q h = ground arith

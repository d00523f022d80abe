-- ===== src/Kinds.antt =====
-- src/packet/mod.rs: `PacketType`, `QoS` and `ProtocolLevel`, with their codes.
pub mod Codes
use tjiftjaf.Prelude.{
  ℕ, ◌*◌, ◌/◌, ◌%◌, ◌==◌, if◌then◌else◌, Bool, true, false, Option, none, some, List, [], ◌∷◌,
}
use tjiftjaf.Result.{Result, ok, err, invalid_packet_type, not_enough_bytes, ok_or, ◌>>=◌, or_err}
use tjiftjaf.Rust.{Bytes}
use tjiftjaf.Prelude.{get_elem?}

pub data PacketType : Type 0 where
  connect conn_ack publish pub_ack pub_rec pub_rel pub_comp : PacketType
  subscribe sub_ack unsubscribe unsub_ack ping_req ping_resp disconnect : PacketType

-- `PacketType as u8` and `From<PacketType> for u8`
unfoldable pub packet_type_code : PacketType → ℕ
packet_type_code connect = 1
packet_type_code conn_ack = 2
packet_type_code publish = 3
packet_type_code pub_ack = 4
packet_type_code pub_rec = 5
packet_type_code pub_rel = 6
packet_type_code pub_comp = 7
packet_type_code subscribe = 8
packet_type_code sub_ack = 9
packet_type_code unsubscribe = 10
packet_type_code unsub_ack = 11
packet_type_code ping_req = 12
packet_type_code ping_resp = 13
packet_type_code disconnect = 14

packet_type_of_code : ℕ → Option PacketType
packet_type_of_code code =
    if code == 1
    then some connect
    else if code == 2
    then some conn_ack
    else if code == 3
    then some publish
    else if code == 4
    then some pub_ack
    else if code == 5
    then some pub_rec
    else if code == 6
    then some pub_rel
    else if code == 7
    then some pub_comp
    else if code == 8
    then some subscribe
    else if code == 9
    then some sub_ack
    else if code == 10
    then some unsubscribe
    else if code == 11
    then some unsub_ack
    else if code == 12
    then some ping_req
    else if code == 13
    then some ping_resp
    else if code == 14
    then some disconnect
    else none

-- `PacketType::try_from(byte)`, the error turned into a `DecodingError`.
unfoldable pub packet_type_try_from : ℕ → Result PacketType
unfolding packet_type_of_code
packet_type_try_from value = ok_or (packet_type_of_code (value / 16)) (invalid_packet_type value)

-- `decode::packet_type`
unfoldable pub decode_packet_type : Bytes → Result PacketType
decode_packet_type bytes = do
  byte ← ok_or (get_elem? bytes 0) (not_enough_bytes 1 0)
  or_err (packet_type_try_from byte) (invalid_packet_type byte)

-- `==` on packet types
unfoldable pub packet_type_eq : PacketType → PacketType → Bool
unfolding packet_type_code
packet_type_eq a b = packet_type_code a == packet_type_code b

pub data QoS : Type 0 where
  at_most_once_delivery at_least_once_delivery exactly_once_delivery : QoS

-- `QoS as u8`
abbrev pub qos_code : QoS → ℕ
qos_code at_most_once_delivery = 0
qos_code at_least_once_delivery = 1
qos_code exactly_once_delivery = 2

-- `QoS::try_from(byte)`; `none` stands for `Err(InvalidQoS(byte))`.
unfoldable pub qos_try_from : ℕ → Option QoS
qos_try_from value =
    if value == 0
    then some at_most_once_delivery
    else if value == 1
    then some at_least_once_delivery
    else if value == 2
    then some exactly_once_delivery
    else none

-- `qos == QoS::AtMostOnceDelivery`
abbrev pub is_at_most_once : QoS → Bool
is_at_most_once at_most_once_delivery = true
is_at_most_once _ = false

-- `ProtocolLevel::_3_1_1 as u8`
abbrev pub protocol_level_3_1_1 : ℕ
protocol_level_3_1_1 = 4

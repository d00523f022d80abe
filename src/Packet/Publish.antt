-- ===== src/Packet/Publish.antt =====
-- src/packet/publish.rs: a message on a topic.
pub mod Flags
pub mod Codec
pub mod Verified
use Prim.Native.Nat.{bit_or}
use tjiftjaf.Prelude.{
  ℕ, ◌+◌, ◌*◌, ◌/◌, ◌%◌, List, [], ◌∷◌, ◌++◌, not, ◌==◌, if◌then◌else◌, length, Bool, true, false,
  Option, none, some,
}
use tjiftjaf.Prelude.Bits.{has_bit}
use tjiftjaf.Result.{
  Result, ok, err, ◌>>=◌, ◌>>◌, fail_if, ok_or, unwrap, invalid_value, invalid_packet_type, other,
}
use tjiftjaf.Rust.{Bytes, index, slice, slice_from, to_be_bytes}
use tjiftjaf.Decode
use tjiftjaf.Encode
use tjiftjaf.Encode.{remaining_length}
use tjiftjaf.Kinds.{
  publish, packet_type_code, packet_type_eq, decode_packet_type, QoS, qos_code, qos_try_from,
  is_at_most_once, at_most_once_delivery,
}
use tjiftjaf.Frame.{
  Frame, UnverifiedFrame, try_header, try_offset_variable_header, check_length, try_payload,
}

pub record UnverifiedPublish : Type 0 where
  pub inner : Bytes

pub record Publish : Type 0 where
  pub inner : UnverifiedPublish

-- `UnverifiedPublish::qos`
unfoldable pub try_qos : UnverifiedPublish → Result QoS
try_qos p = do
  header ← try_header p.inner
  first ← index header 0
  ok_or (qos_try_from (first / 2 % 4)) invalid_value

-- `UnverifiedPublish::retain`
unfoldable pub try_retain : UnverifiedPublish → Result Bool
try_retain p = do header ← try_header p.inner; first ← index header 0; ok (has_bit 1 first)

-- `UnverifiedPublish::duplicate`
unfoldable pub try_duplicate : UnverifiedPublish → Result Bool
try_duplicate p = do header ← try_header p.inner; first ← index header 0; ok (has_bit 8 first)

-- `UnverifiedPublish::try_variable_header`
unfoldable pub try_variable_header : UnverifiedPublish → Result Bytes
try_variable_header p = do
  offset ← try_offset_variable_header p.inner
  rest ← slice_from p.inner offset
  (_, topic_len) ← Decode.utf8 rest
  qos ← try_qos p
  let len = if is_at_most_once qos then topic_len else topic_len + 2
  slice p.inner offset (offset + len)

instance abbrev pub unverified_frame : UnverifiedFrame UnverifiedPublish
unverified_frame = record { bytes = λ p. p.inner; try_variable_header = try_variable_header }

instance abbrev pub publish_frame : Frame Publish
publish_frame = record {
  as_bytes = λ p. p.inner.inner;
  variable_header = λ p. unwrap (try_variable_header p.inner);
}

-- `UnverifiedPublish::topic`
unfoldable pub try_topic : UnverifiedPublish → Result Bytes
try_topic p = do
  variable_header ← try_variable_header p
  (topic, _) ← Decode.utf8 variable_header
  ok topic

-- `UnverifiedPublish::packet_identifier`
unfoldable pub try_packet_identifier : UnverifiedPublish → Result (Option ℕ)
try_packet_identifier p = do
  variable_header ← try_variable_header p
  (_, offset) ← Decode.utf8 variable_header
  qos ← try_qos p
  let identified = do
    rest ← slice_from variable_header offset
    identifier ← Decode.u16 rest
    ok (some identifier)
  if is_at_most_once qos
      then (if length variable_header == offset then ok none else err other)
      else identified

-- `UnverifiedPublish::verify_header`
unfoldable pub verify_header : UnverifiedPublish → Result (Unit {0})
verify_header p = do
  header ← try_header p.inner
  t ← decode_packet_type header
  fail_if (not (packet_type_eq t publish)) (invalid_packet_type 3)
  check_length p.inner header

-- `UnverifiedPublish::verify`, with `verify_variable_header`
unfoldable pub verify : UnverifiedPublish → Result Publish
verify p = do verify_header p; try_topic p; try_packet_identifier p; ok (record { inner = p })

-- `Publish::try_from`
unfoldable pub try_from : Bytes → Result Publish
try_from value = verify (record { inner = value })

-- `Publish::into_bytes`
abbrev pub into_bytes : Publish → Bytes
into_bytes p = p.inner.inner

-- The getters of `Publish`
abbrev pub topic : Publish → Result Bytes
topic p = unwrap (try_topic p.inner)

abbrev pub payload : Publish → Result Bytes
payload p = unwrap (try_payload p.inner)

abbrev pub qos : Publish → Result QoS
qos p = unwrap (try_qos p.inner)

abbrev pub retain : Publish → Result Bool
retain p = unwrap (try_retain p.inner)

abbrev pub duplicate : Publish → Result Bool
duplicate p = unwrap (try_duplicate p.inner)

abbrev pub packet_identifier : Publish → Result (Option ℕ)
packet_identifier p = unwrap (try_packet_identifier p.inner)

pub record Builder : Type 0 where
  pub topic : Bytes
  pub payload : Bytes
  pub qos : QoS
  pub retain : Bool
  pub duplicate : Bool
  pub packet_identifier : Option ℕ

-- `Builder::new` and the setters
abbrev pub new : Bytes → Bytes → Builder
new topic payload = record {
  topic = topic;
  payload = payload;
  qos = at_most_once_delivery;
  retain = false;
  duplicate = false;
  packet_identifier = none;
}

abbrev pub set_qos : Builder → QoS → Builder
set_qos b qos = record b { qos = qos }

abbrev pub set_retain : Builder → Bool → Builder
set_retain b retain = record b { retain = retain }

abbrev pub set_duplicate : Builder → Bool → Builder
set_duplicate b duplicate = record b { duplicate = duplicate }

abbrev pub set_packet_identifier : Builder → ℕ → Builder
set_packet_identifier b id = record b { packet_identifier = some id }

-- The first byte that `build` writes: the type, and `DUP QoS QoS RETAIN`.
unfoldable pub first_byte : Bool → QoS → Bool → ℕ
first_byte retain qos duplicate =
    let retained : ℕ = if retain then bit_or 0 1 else 0 in
    let guaranteed = bit_or retained (qos_code qos * 2) in
    let flags = if duplicate then bit_or guaranteed 8 else guaranteed in bit_or (3 * 16) flags

-- `Option::unwrap_or_else`, on what `packet_identifier()` would return.
abbrev pub unwrap_or : Option ℕ → ℕ → ℕ
unwrap_or none generated = generated
unwrap_or (some id) generated = id

-- The variable header that `build` writes.
unfoldable pub variable_header_of : Builder → ℕ → Bytes
variable_header_of b generated =
    if is_at_most_once b.qos
    then Encode.utf8 b.topic
    else Encode.utf8 b.topic ++ to_be_bytes (unwrap_or b.packet_identifier generated)

-- `Builder::build`; `generated` is what `packet_identifier()` returns.
unfoldable pub build : Builder → ℕ → Result Publish
build b generated = do
  let first = first_byte b.retain b.qos b.duplicate
  let variable_header = variable_header_of b generated
  remaining ← remaining_length (length variable_header + length b.payload)
  unwrap (verify (record { inner = first ∷ (remaining ++ (variable_header ++ b.payload)) }))

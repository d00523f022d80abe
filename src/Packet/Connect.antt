-- ===== src/Packet/Connect.antt =====
-- src/packet/connect.rs: the first packet of a client, parsed and checked.
pub mod Build
pub mod Fields
pub mod Consistent
pub mod Codec
pub mod Verified
use tjiftjaf.Prelude.{
  ℕ, ◌+◌, ◌%◌, [], ◌∷◌, not, ◌==◌, ◌&&◌, if◌then◌else◌, length, Bool, true, false, Option, none,
  some,
}
use tjiftjaf.Result.{Result, ok, panic, ◌>>=◌, ◌>>◌, assert, fail_if, unwrap, invalid_packet_type}
use tjiftjaf.Rust.{Bytes, index, slice, slice_from, bytes_eq}
use tjiftjaf.Rust.Utf8.{from_utf8}
use tjiftjaf.Decode
use tjiftjaf.Decode.{variable_length_n}
use tjiftjaf.Kinds.{connect, packet_type_eq, decode_packet_type, QoS, protocol_level_3_1_1}
use tjiftjaf.Frame.{
  Frame, UnverifiedFrame, try_header, try_offset_variable_header, check_length, try_payload,
}
use tjiftjaf.Packet.ConnectFlags
use tjiftjaf.Packet.ConnectFlags.{Flags}

pub record UnverifiedConnect : Type 0 where
  pub inner : Bytes

pub record Connect : Type 0 where
  pub inner : UnverifiedConnect

pub record Will : Type 0 where
  pub topic : Bytes
  pub message : Bytes
  pub retain : Bool
  pub qos : QoS

-- `UnverifiedConnect::try_variable_header`: a fixed size of 10 bytes.
unfoldable pub try_variable_header : UnverifiedConnect → Result Bytes
try_variable_header p = do
  offset ← try_offset_variable_header p.inner
  slice p.inner offset (offset + 10)

instance abbrev pub unverified_frame : UnverifiedFrame UnverifiedConnect
unverified_frame = record { bytes = λ p. p.inner; try_variable_header = try_variable_header }

instance abbrev pub connect_frame : Frame Connect
connect_frame = record {
  as_bytes = λ p. p.inner.inner;
  variable_header = λ p. unwrap (try_variable_header p.inner);
}

-- `UnverifiedConnect::keep_alive`
unfoldable pub try_keep_alive : UnverifiedConnect → Result ℕ
try_keep_alive p = do
  variable_header ← try_variable_header p
  rest ← slice_from variable_header 8
  Decode.u16 rest

-- `UnverifiedConnect::client_id`
unfoldable pub try_client_id : UnverifiedConnect → Result Bytes
try_client_id p = do payload ← try_payload p; (client_id, _) ← Decode.utf8 payload; ok client_id

-- `UnverifiedConnect::connect_flags`
unfoldable pub try_connect_flags : UnverifiedConnect → Result Flags
try_connect_flags p = do
  variable_header ← try_variable_header p
  bits ← index variable_header 7
  ok (record { bits = bits })

-- `UnverifiedConnect::will`
unfoldable pub try_will : UnverifiedConnect → Result (Option Will)
try_will p = do
  flags ← try_connect_flags p
  let present = do
    payload ← try_payload p
    (topic, _) ← variable_length_n 1 payload
    will_topic ← from_utf8 topic
    (will_message, _) ← variable_length_n 2 payload
    qos ← ConnectFlags.will_qos flags
    ok (
        some (record {
          topic = will_topic;
          message = will_message;
          retain = ConnectFlags.will_retain flags;
          qos = qos;
        }))
  if not (ConnectFlags.will_flag flags) then ok none else present

-- `UnverifiedConnect::username`; a password without a username runs into `todo!`.
unfoldable pub try_username : UnverifiedConnect → Result (Option Bytes)
try_username p = do
  flags ← try_connect_flags p
  let absent = if ConnectFlags.password flags then panic else ok none
  let field_index : ℕ = if ConnectFlags.will_flag flags then 3 else 1
  let present = do
    payload ← try_payload p
    (field, _) ← variable_length_n field_index payload
    username ← from_utf8 field
    ok (some username)
  if not (ConnectFlags.username flags) then absent else present

-- `UnverifiedConnect::password`
unfoldable pub try_password : UnverifiedConnect → Result (Option Bytes)
try_password p = do
  flags ← try_connect_flags p
  let field_index : ℕ = if ConnectFlags.will_flag flags then 4 else 2
  let present = do
    payload ← try_payload p
    (password, _) ← variable_length_n field_index payload
    ok (some password)
  if not (ConnectFlags.password flags) then ok none else present

-- `UnverifiedConnect::verify_header`
unfoldable pub verify_header : UnverifiedConnect → Result (Unit {0})
verify_header p = do
  header ← try_header p.inner
  t ← decode_packet_type header
  fail_if (not (packet_type_eq t connect)) (invalid_packet_type 5)
  check_length p.inner header

-- The bytes of "MQTT".
abbrev pub protocol_name : Bytes
protocol_name = 77 ∷ 81 ∷ 84 ∷ 84 ∷ []

-- `UnverifiedConnect::verify_variable_header`
unfoldable pub verify_variable_header : UnverifiedConnect → Result (Unit {0})
verify_variable_header p = do
  header ← try_variable_header p
  (name, offset) ← Decode.utf8 header
  assert (bytes_eq name protocol_name)
  level ← index header offset
  assert (level == protocol_level_3_1_1)
  flags ← index header (offset + 1)
  assert (flags % 2 == 0)

abbrev pub is_empty : Bytes → Bool
is_empty [] = true
is_empty (x ∷ xs) = false

-- `UnverifiedConnect::verify_payload`; an empty client id without a clean session runs into
-- `todo!`.
unfoldable pub verify_payload : UnverifiedConnect → Result (Unit {0})
verify_payload p = do
  payload ← try_payload p
  (client_id, _) ← Decode.utf8 payload
  flags ← try_connect_flags p
  assert (not (is_empty client_id && not (ConnectFlags.clean_session flags)))
  try_will p
  try_username p
  try_password p
  ok tt

-- `UnverifiedConnect::verify`
unfoldable pub verify : UnverifiedConnect → Result Connect
verify p = do verify_header p; verify_variable_header p; verify_payload p; ok (record { inner = p })

-- `Connect::try_from`
unfoldable pub try_from : Bytes → Result Connect
try_from value = verify (record { inner = value })

-- `Connect::into_bytes`
abbrev pub into_bytes : Connect → Bytes
into_bytes p = p.inner.inner

-- The getters of `Connect`
abbrev pub flags : Connect → Result Flags
flags p = unwrap (try_connect_flags p.inner)

abbrev pub client_id : Connect → Result Bytes
client_id p = unwrap (try_client_id p.inner)

abbrev pub keep_alive : Connect → Result ℕ
keep_alive p = unwrap (try_keep_alive p.inner)

abbrev pub username : Connect → Result (Option Bytes)
username p = unwrap (try_username p.inner)

abbrev pub password : Connect → Result (Option Bytes)
password p = unwrap (try_password p.inner)

abbrev pub will : Connect → Result (Option Will)
will p = unwrap (try_will p.inner)

-- ===== src/Packet/ConnAck.antt =====
-- src/packet/connack.rs: the four-byte answer to a CONNECT.
pub mod Codec
use tjiftjaf.Prelude.{
  ℕ, ◌*◌, [], ◌∷◌, ltb, not, ◌==◌, ◌&&◌, if◌then◌else◌, length, Bool, true, false,
}
use tjiftjaf.Prelude.Bits.{has_bit}
use tjiftjaf.Result.{
  Result, ok, err, panic, ◌>>=◌, ◌>>◌, fail_if, unwrap, not_enough_bytes, too_many_bytes,
  invalid_value, invalid_packet_type, invalid_remaining_length, other,
}
use tjiftjaf.Rust.{Bytes, index, slice_from}
use tjiftjaf.Frame.{Frame}

pub data ReturnCode : Type 0 where
  connection_accepted : ReturnCode
  connection_refused_unacceptable_protocol_version : ReturnCode
  connection_refused_identifier_rejected : ReturnCode
  connection_refused_server_unavailable : ReturnCode
  connection_refused_bad_username_or_password : ReturnCode
  connection_refused_not_authorized : ReturnCode

-- `From<ReturnCode> for u8`
abbrev pub return_code_byte : ReturnCode → ℕ
return_code_byte connection_accepted = 0
return_code_byte connection_refused_unacceptable_protocol_version = 1
return_code_byte connection_refused_identifier_rejected = 2
return_code_byte connection_refused_server_unavailable = 3
return_code_byte connection_refused_bad_username_or_password = 4
return_code_byte connection_refused_not_authorized = 5

-- `ReturnCode::try_from`
unfoldable pub return_code_try_from : ℕ → Result ReturnCode
return_code_try_from value =
    if value == 0
    then ok connection_accepted
    else if value == 1
    then ok connection_refused_unacceptable_protocol_version
    else if value == 2
    then ok connection_refused_identifier_rejected
    else if value == 3
    then ok connection_refused_server_unavailable
    else if value == 4
    then ok connection_refused_bad_username_or_password
    else if value == 5
    then ok connection_refused_not_authorized
    else err invalid_value

-- `return_code != ReturnCode::ConnectionAccepted`
abbrev pub is_refused : ReturnCode → Bool
is_refused connection_accepted = false
is_refused _ = true

pub record ConnAck : Type 0 where
  pub byte_0 : ℕ
  pub byte_1 : ℕ
  pub byte_2 : ℕ
  pub byte_3 : ℕ

-- `ConnAck::as_bytes` and `From<ConnAck> for Vec<u8>`
abbrev pub as_bytes : ConnAck → Bytes
as_bytes p = p.byte_0 ∷ p.byte_1 ∷ p.byte_2 ∷ p.byte_3 ∷ []

instance abbrev pub conn_ack_frame : Frame ConnAck
conn_ack_frame = record { as_bytes = as_bytes; variable_header = λ p. slice_from (as_bytes p) 2 }

-- `ConnAck::session_present`
abbrev pub session_present : ConnAck → Bool
session_present p = has_bit 1 p.byte_2

-- `ConnAck::return_code`
unfoldable pub return_code : ConnAck → Result ReturnCode
return_code p = unwrap (return_code_try_from p.byte_3)

-- `value.try_into().unwrap()` of four bytes
array_of_4 : Bytes → Result ConnAck
array_of_4 (a ∷ b ∷ c ∷ d ∷ []) = ok (record { byte_0 = a; byte_1 = b; byte_2 = c; byte_3 = d })
array_of_4 _ = panic

-- `ConnAck::try_from`
unfoldable pub try_from : Bytes → Result ConnAck
unfolding array_of_4
try_from value = do
  fail_if (ltb (length value) 4) (not_enough_bytes 4 (length value))
  fail_if (ltb 4 (length value)) too_many_bytes
  first ← index value 0
  fail_if (not (first == 32)) (invalid_packet_type first)
  remaining_length ← index value 1
  fail_if (not (remaining_length == 2)) invalid_remaining_length
  flags ← index value 2
  fail_if (ltb 1 flags) other
  code ← index value 3
  return_code ← return_code_try_from code
  fail_if (is_refused return_code && not (flags == 0)) other
  array_of_4 value

pub record ConnAckBuilder : Type 0 where
  pub return_code : ReturnCode
  pub session_present : Bool

-- `ConnAckBuilder::new`
abbrev pub new : ConnAckBuilder
new = record { return_code = connection_accepted; session_present = false }

-- `ConnAckBuilder::session_present` and `ConnAckBuilder::return_code`
abbrev pub set_session_present : ConnAckBuilder → ConnAckBuilder
set_session_present b = record b { session_present = true }

abbrev pub set_return_code : ConnAckBuilder → ReturnCode → ConnAckBuilder
set_return_code b code = record b { return_code = code }

-- `ConnAckBuilder::build`
unfoldable pub build : ConnAckBuilder → ConnAck
build b = record {
  byte_0 = 2 * 16;
  byte_1 = 2;
  byte_2 = if b.session_present then 1 else 0;
  byte_3 = return_code_byte b.return_code;
}

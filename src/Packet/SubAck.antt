-- ===== src/Packet/SubAck.antt =====
-- src/packet/suback.rs: the answer to a SUBSCRIBE, with a return code for each topic.
pub mod Codec
use tjiftjaf.Prelude.{
  ℕ, ◌+◌, ◌*◌, ◌%◌, List, [], ◌∷◌, ◌++◌, not, ◌==◌, if◌then◌else◌, length, Option, none, some,
}
use tjiftjaf.Result.{
  Result, ok, err, ◌>>=◌, ◌>>◌, fail_if, ok_or, unwrap, invalid_value, invalid_packet_type,
  header_contains_invalid_flags,
}
use tjiftjaf.Rust.{Bytes, index, to_be_bytes}
use tjiftjaf.Decode.{u16}
use tjiftjaf.Encode.{remaining_length}
use tjiftjaf.Kinds.{
  sub_ack, packet_type_code, packet_type_eq, decode_packet_type, QoS, qos_code,
  at_most_once_delivery, at_least_once_delivery, exactly_once_delivery,
}
use tjiftjaf.Frame.{
  Frame, UnverifiedFrame, try_header, try_two_bytes, two_bytes, check_length, try_payload,
}

pub data ReturnCode : Type 0 where
  qos : QoS → ReturnCode
  failure : ReturnCode

-- `From<ReturnCode> for u8`
abbrev pub return_code_byte : ReturnCode → ℕ
return_code_byte (qos q) = qos_code q
return_code_byte failure = 0x80

-- `ReturnCode::try_from(byte)`; `none` stands for `Err(InvalidReturnCode(byte))`.
unfoldable pub return_code_try_from : ℕ → Option ReturnCode
return_code_try_from value =
    if value == 0
    then some (qos at_most_once_delivery)
    else if value == 1
    then some (qos at_least_once_delivery)
    else if value == 2
    then some (qos exactly_once_delivery)
    else if value == 0x80
    then some failure
    else none

pub record UnverifiedSubAck : Type 0 where
  pub inner : Bytes

pub record SubAck : Type 0 where
  pub inner : UnverifiedSubAck

instance abbrev pub unverified_frame : UnverifiedFrame UnverifiedSubAck
unverified_frame = record { bytes = λ p. p.inner; try_variable_header = λ p. try_two_bytes p.inner }

instance abbrev pub sub_ack_frame : Frame SubAck
sub_ack_frame = record {
  as_bytes = λ p. p.inner.inner;
  variable_header = λ p. two_bytes p.inner.inner;
}

-- `SubAck::into_bytes`
abbrev pub into_bytes : SubAck → Bytes
into_bytes p = p.inner.inner

-- `UnverifiedSubAck::try_packet_identifier`
unfoldable pub try_packet_identifier : UnverifiedSubAck → Result ℕ
try_packet_identifier p = do header ← try_two_bytes p.inner; u16 header

-- `UnverifiedSubAck::verify_header`
unfoldable pub verify_header : UnverifiedSubAck → Result (Unit {0})
verify_header p = do
  header ← try_header p.inner
  t ← decode_packet_type header
  fail_if (not (packet_type_eq t sub_ack)) (invalid_packet_type (packet_type_code t))
  first ← index header 0
  fail_if (not (first % 16 == 0)) header_contains_invalid_flags
  check_length p.inner header

-- `.iter().map(ReturnCode::try_from).collect()`, and the error turned into a `DecodingError`
unfoldable pub collect_return_codes : Bytes → Result (List ReturnCode)
collect_return_codes [] = ok []
collect_return_codes (byte ∷ bytes) = do
  code ← ok_or (return_code_try_from byte) invalid_value
  codes ← collect_return_codes bytes
  ok (code ∷ codes)

-- `UnverifiedSubAck::try_return_codes`
unfoldable pub try_return_codes : UnverifiedSubAck → Result (List ReturnCode)
try_return_codes p = do payload ← try_payload p; collect_return_codes payload

-- `UnverifiedSubAck::verify`, with `verify_variable_header` and `verify_payload`
unfoldable pub verify : UnverifiedSubAck → Result SubAck
verify p = do verify_header p; try_two_bytes p.inner; try_return_codes p; ok (record { inner = p })

-- `SubAck::try_from`
unfoldable pub try_from : Bytes → Result SubAck
try_from value = verify (record { inner = value })

-- `SubAck::packet_identifier` and `SubAck::return_codes`
unfoldable pub packet_identifier : SubAck → Result ℕ
packet_identifier p = unwrap (try_packet_identifier p.inner)

unfoldable pub return_codes : SubAck → Result (List ReturnCode)
return_codes p = unwrap (try_return_codes p.inner)

pub record Builder : Type 0 where
  pub packet_identifier : ℕ
  pub return_codes : List ReturnCode

-- `Builder::new` and `Builder::add_return_code`
abbrev pub new : ℕ → ReturnCode → Builder
new id code = record { packet_identifier = id; return_codes = code ∷ [] }

abbrev pub add_return_code : Builder → ReturnCode → Builder
add_return_code b code = record b { return_codes = b.return_codes ++ (code ∷ []) }

-- `for code in self.return_codes { payload.push(code.into()) }`
abbrev pub code_bytes : List ReturnCode → Bytes
code_bytes [] = []
code_bytes (code ∷ codes) = return_code_byte code ∷ code_bytes codes

-- `Builder::build`
unfoldable pub build : Builder → Result SubAck
build b = do
  let variable_header = to_be_bytes b.packet_identifier
  let payload = code_bytes b.return_codes
  remaining ← remaining_length (length variable_header + length payload)
  let packet = packet_type_code sub_ack * 16 ∷ (remaining ++ (variable_header ++ payload))
  unwrap (verify (record { inner = packet }))

-- ===== src/Packet/SubAck/Codec.antt =====
-- SUBACK: what a builder makes is accepted and read back.
use tjiftjaf.Prelude.{suc, ◌+◌, ◌*◌, ◌≤◌, ◌≡◌, refl, ap, arith, List, [], ◌∷◌, ◌++◌, length}
use tjiftjaf.Result.{ok, unwrap}
use tjiftjaf.Rust.{Bytes, IsU16, to_be_bytes}
use tjiftjaf.Decode.Field.{u16-to_be_bytes}
use tjiftjaf.Kinds.{
  sub_ack, packet_type_code, decode_packet_type, packet_type_eq, packet_type_try_from,
}
use tjiftjaf.Frame.{try_two_bytes}
use tjiftjaf.Frame.Layout.{max_body, frame, remaining_length-parts, try_header-fixed_header}
use tjiftjaf.Frame.Payload.{try_payload-frame}
use tjiftjaf.Frame.Checks.{check_length-frame, try_two_bytes-frame}
use tjiftjaf.Packet.SubAck
use tjiftjaf.Packet.SubAck.{SubAck, UnverifiedSubAck, ReturnCode, Builder}

collect-code_bytes :
    (codes : List ReturnCode) → SubAck.collect_return_codes (SubAck.code_bytes codes) ≡ ok codes
unfolding SubAck.collect_return_codes SubAck.return_code_try_from
collect-code_bytes [] = refl
collect-code_bytes (code ∷ codes) = ground (arith, collect-code_bytes codes)

length-code_bytes : (codes : List ReturnCode) → length (SubAck.code_bytes codes) ≡ length codes
length-code_bytes [] = refl
length-code_bytes (code ∷ codes) = ap suc (length-code_bytes codes)

module _ (b : Builder) (fits : length b.return_codes + 2 ≤ max_body) where
  abbrev pub body : Bytes
  body = to_be_bytes b.packet_identifier ++ SubAck.code_bytes b.return_codes

  body-fits : length body ≤ max_body
  body-fits = omega (arith, length-code_bytes b.return_codes)

  abbrev pub unverified : UnverifiedSubAck
  unverified = record { inner = frame (packet_type_code sub_ack * 16) body }

  abbrev pub built : SubAck
  built = record { inner = unverified }

  verify_header-built : SubAck.verify_header unverified ≡ ok tt
  unfolding SubAck.verify_header decode_packet_type packet_type_eq packet_type_code
      packet_type_try_from
  verify_header-built =
      rw (try_header-fixed_header (packet_type_code sub_ack * 16) (length body) body body-fits)
        (check_length-frame _ body body-fits)

  try_two_bytes-built : try_two_bytes unverified.inner ≡ ok (to_be_bytes b.packet_identifier)
  try_two_bytes-built = try_two_bytes-frame _ (to_be_bytes b.packet_identifier) _ refl body-fits

  try_return_codes-built : SubAck.try_return_codes unverified ≡ ok b.return_codes
  unfolding SubAck.try_return_codes
  try_return_codes-built =
      rw
        (try_payload-frame unverified (packet_type_code sub_ack * 16)
          (to_be_bytes b.packet_identifier) (SubAck.code_bytes b.return_codes) body-fits refl
          try_two_bytes-built)
        (collect-code_bytes b.return_codes)

  verify-built : SubAck.verify unverified ≡ ok built
  unfolding SubAck.verify
  verify-built = rw (verify_header-built, try_two_bytes-built, try_return_codes-built)

  pub build-built : SubAck.build b ≡ ok built
  unfolding SubAck.build
  build-built =
      rw
        (remaining_length-parts (to_be_bytes b.packet_identifier) (SubAck.code_bytes b.return_codes)
          body-fits)
        (ap unwrap verify-built)

-- A builder makes a packet, for an identifier of 16 bits and up to the longest body; the packet
-- decodes to itself, and shows the identifier and the return codes of the builder, in order.
pub build_sub_ack :
    (b : Builder)
    → IsU16 b.packet_identifier
    → length b.return_codes + 2 ≤ max_body
    → (p : SubAck) × (SubAck.build b ≡ ok p)
      × (SubAck.try_from (SubAck.into_bytes p) ≡ ok p)
      × (SubAck.packet_identifier p ≡ ok b.packet_identifier)
      × (SubAck.return_codes p ≡ ok b.return_codes)
unfolding SubAck.try_from SubAck.packet_identifier SubAck.return_codes SubAck.try_packet_identifier
build_sub_ack b id fits = (
  built b fits,
  build-built b fits,
  verify-built b fits,
  rw (try_two_bytes-built b fits) (ap unwrap (u16-to_be_bytes b.packet_identifier [] id)),
  ap unwrap (try_return_codes-built b fits),
)

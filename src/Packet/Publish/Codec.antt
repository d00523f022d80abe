-- ===== src/Packet/Publish/Codec.antt =====
-- PUBLISH: what a builder makes is accepted and read back.
use tjiftjaf.Prelude.{
  ℕ, ◌+◌, ◌≤◌, ◌≡◌, refl, ap, arith, [], ◌++◌, append_assoc, append-nil, length, length-append,
  Option, none, some, if◌then◌else◌, false, Bool-cases, inl, inr,
}
use tjiftjaf.Result.{ok, unwrap}
use tjiftjaf.Rust.{Bytes, IsU16, slice_from, to_be_bytes}
use tjiftjaf.Rust.Slices.{slice_from-append}
use tjiftjaf.Rust.Utf8.{IsStr}
use tjiftjaf.Decode
use tjiftjaf.Decode.Field.{u16-to_be_bytes, utf8-encode, length-encode_utf8}
use tjiftjaf.Encode
use tjiftjaf.Kinds.{publish, decode_packet_type, is_at_most_once}
use tjiftjaf.Kinds.Codes.{packet_type_eq_refl}
use tjiftjaf.Frame.{try_payload}
use tjiftjaf.Frame.Layout.{
  max_body, frame, fixed_header, remaining_length-parts, try_header-fixed_header,
  try_offset-fixed_header,
}
use tjiftjaf.Frame.Payload.{try_payload-frame, slice-frame}
use tjiftjaf.Frame.Checks.{check_length-frame}
use tjiftjaf.Packet.Publish
use tjiftjaf.Packet.Publish.{
  Publish, UnverifiedPublish, unverified_frame, Builder, first_byte, variable_header_of, unwrap_or,
}
use tjiftjaf.Packet.Publish.Flags.{
  try_qos-frame, try_retain-frame, try_duplicate-frame, packet_type_try_from-first_byte,
}

-- What `build` can encode: a string topic and an identifier that fit their fields, and a body
-- that fits the remaining length.
pub record Fits (b : Builder) (generated : ℕ) : Type 0 where
  pub topic_str : IsStr b.topic
  pub topic_small : IsU16 (length b.topic)
  pub id_small : IsU16 (unwrap_or b.packet_identifier generated)
  pub body_small : length (variable_header_of b generated ++ b.payload) ≤ max_body

-- The identifier that a built packet carries: one, unless it is sent at most once.
abbrev pub identifier_of : Builder → ℕ → Option ℕ
identifier_of b generated =
    if is_at_most_once b.qos then none else some (unwrap_or b.packet_identifier generated)

module _ (b : Builder) (generated : ℕ) (fit : Fits b generated) where
  abbrev variable : Bytes
  variable = variable_header_of b generated

  abbrev body : Bytes
  body = variable ++ b.payload

  abbrev first : ℕ
  first = first_byte b.retain b.qos b.duplicate

  abbrev unverified : UnverifiedPublish
  unverified = record { inner = frame first body }

  abbrev built : Publish
  built = record { inner = unverified }

  utf8-variable : (rest : Bytes) → Decode.utf8 (variable ++ rest) ≡ ok (b.topic, length b.topic + 2)
  unfolding variable_header_of
  utf8-variable rest = elim (Bool-cases (is_at_most_once b.qos)) [
    | inl e ↦ rw e (utf8-encode b.topic rest fit.topic_small fit.topic_str)
    | inr e ↦
        let id : Bytes = to_be_bytes (unwrap_or b.packet_identifier generated) in
        rw (e, append_assoc (Encode.utf8 b.topic) id rest)
          (utf8-encode b.topic (id ++ rest) fit.topic_small fit.topic_str)
  ]

  length-variable :
      length variable
      ≡ (if is_at_most_once b.qos then length b.topic + 2 else length b.topic + 2 + 2)
  unfolding variable_header_of
  length-variable = elim (Bool-cases (is_at_most_once b.qos)) [
    | inl e ↦ rw e (length-encode_utf8 b.topic)
    | inr e ↦ rw e (
        omega (
          arith,
          length-encode_utf8 b.topic,
          length-append (Encode.utf8 b.topic)
              (to_be_bytes (unwrap_or b.packet_identifier generated)),
        ))
  ]

  qos-built : Publish.try_qos unverified ≡ ok b.qos
  qos-built = try_qos-frame b.retain b.qos b.duplicate body fit.body_small

  variable-built : Publish.try_variable_header unverified ≡ ok variable
  unfolding Publish.try_variable_header
  variable-built =
      rw
        (
          try_offset-fixed_header first (length body) body fit.body_small,
          slice_from-append (fixed_header first (length body)) body _ refl,
          utf8-variable b.payload,
          qos-built,
        )
        (slice-frame first variable b.payload _ _ refl (omega (arith, length-variable)))

  utf8-variable_alone : Decode.utf8 variable ≡ ok (b.topic, length b.topic + 2)
  utf8-variable_alone = rw (append-nil variable) at (utf8-variable [])

  topic-built : Publish.try_topic unverified ≡ ok b.topic
  unfolding Publish.try_topic
  topic-built = rw (variable-built, utf8-variable_alone)

  identified :
      is_at_most_once b.qos ≡ false
      → slice_from variable (length b.topic + 2)
        ≡ ok (to_be_bytes (unwrap_or b.packet_identifier generated))
  unfolding variable_header_of
  identified e = rw e (
      slice_from-append (Encode.utf8 b.topic)
        (to_be_bytes (unwrap_or b.packet_identifier generated)) (length b.topic + 2)
        (omega (arith, length-encode_utf8 b.topic)))

  identifier-built : Publish.try_packet_identifier unverified ≡ ok (identifier_of b generated)
  unfolding Publish.try_packet_identifier
  identifier-built =
      rw (variable-built, qos-built, utf8-variable_alone)
        (elim (Bool-cases (is_at_most_once b.qos)) [
          | inl e ↦ ground (arith, e, length-variable)
          | inr e ↦ rw (
            e,
            identified e,
            u16-to_be_bytes (unwrap_or b.packet_identifier generated) [] fit.id_small,
          )
        ])

  header-built : Publish.verify_header unverified ≡ ok tt
  unfolding Publish.verify_header decode_packet_type
  header-built =
      rw
        (
          try_header-fixed_header first (length body) body fit.body_small,
          packet_type_try_from-first_byte b.retain b.qos b.duplicate,
          packet_type_eq_refl publish,
        )
        (check_length-frame first body fit.body_small)

  verify-built : Publish.verify unverified ≡ ok built
  unfolding Publish.verify
  verify-built = rw (header-built, topic-built, identifier-built)

  build-built : Publish.build b generated ≡ ok built
  unfolding Publish.build
  build-built =
      rw (remaining_length-parts variable b.payload fit.body_small) (ap unwrap verify-built)

  payload-built : try_payload unverified ≡ ok b.payload
  payload-built =
      try_payload-frame unverified first variable b.payload fit.body_small refl variable-built

-- The getters of a packet return what its builder was given.
pub record ShowsPublish (b : Builder) (generated : ℕ) (p : Publish) : Type 0 where
  pub topic_is : Publish.topic p ≡ ok b.topic
  pub payload_is : Publish.payload p ≡ ok b.payload
  pub qos_is : Publish.qos p ≡ ok b.qos
  pub retain_is : Publish.retain p ≡ ok b.retain
  pub duplicate_is : Publish.duplicate p ≡ ok b.duplicate
  pub identifier_is : Publish.packet_identifier p ≡ ok (identifier_of b generated)

-- A builder whose settings fit makes a packet; the packet decodes to itself, and its getters
-- return the settings of the builder.
pub build_publish :
    (b : Builder) (generated : ℕ)
    → Fits b generated
    → (p : Publish) × (Publish.build b generated ≡ ok p)
      × (Publish.try_from (Publish.into_bytes p) ≡ ok p)
      × ShowsPublish b generated p
unfolding Publish.try_from
build_publish b generated fit = (
  built b generated fit,
  build-built b generated fit,
  verify-built b generated fit,
  record {
    topic_is = ap unwrap (topic-built b generated fit);
    payload_is = ap unwrap (payload-built b generated fit);
    qos_is = ap unwrap (qos-built b generated fit);
    retain_is = ap unwrap (try_retain-frame b.retain b.qos b.duplicate _ fit.body_small);
    duplicate_is = ap unwrap (try_duplicate-frame b.retain b.qos b.duplicate _ fit.body_small);
    identifier_is = ap unwrap (identifier-built b generated fit);
  },
)

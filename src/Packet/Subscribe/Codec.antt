-- ===== src/Packet/Subscribe/Codec.antt =====
-- SUBSCRIBE: what a builder makes is accepted and read back.
use tjiftjaf.Prelude.{
  ℕ, ◌+◌, ◌*◌, ◌≤◌, ◌<◌, ◌≡◌, refl, sym, ap, arith, List, [], ◌∷◌, ◌++◌, append_assoc, length,
  length-append, All,
}
use tjiftjaf.Result.{ok, unwrap, outcome, is_ok, is_err, is_panic}
use tjiftjaf.Rust.{Bytes, IsU16, to_be_bytes, slice_from}
use tjiftjaf.Rust.Slices.{slice_from-append, index-append}
use tjiftjaf.Rust.Utf8.{IsStr}
use tjiftjaf.Decode
use tjiftjaf.Decode.Field.{u16-to_be_bytes, utf8-encode, length-encode_utf8, utf8-pos}
use tjiftjaf.Encode
use tjiftjaf.Kinds.{
  subscribe, packet_type_code, decode_packet_type, packet_type_eq, packet_type_try_from, QoS,
  qos_code,
}
use tjiftjaf.Kinds.Codes.{qos_try_from-code}
use tjiftjaf.Frame.{try_two_bytes, payload}
use tjiftjaf.Frame.Layout.{max_body, frame, remaining_length-parts, try_header-fixed_header}
use tjiftjaf.Frame.Payload.{try_payload-frame, payload-frame}
use tjiftjaf.Frame.Checks.{check_length-frame, try_two_bytes-frame, two_bytes-frame}
use tjiftjaf.Packet
use tjiftjaf.Packet.{Packet}
use tjiftjaf.Packet.Topics.{collect}
use tjiftjaf.Packet.Topics.RoundTrip.{ItemCodec, encode_all, collect-encode_all, drain-collect_loop}
use tjiftjaf.Packet.Subscribe
use tjiftjaf.Packet.Subscribe.{Subscribe, UnverifiedSubscribe, Builder}

-- A topic that `build` can encode: a string that fits its length field.
abbrev pub Fits : Bytes × QoS → Type 0
Fits (topic, qos) = IsStr topic × IsU16 (length topic)

pub length-topic_bytes : (t : Bytes × QoS) → length (Subscribe.topic_bytes t) ≡ length t.0 + 3
unfolding Subscribe.topic_bytes
length-topic_bytes (topic, qos) =
    omega (arith, length-append (Encode.utf8 topic) (qos_code qos ∷ []), length-encode_utf8 topic)

pub topic_bytes-pos : (t : Bytes × QoS) → 0 < length (Subscribe.topic_bytes t)
topic_bytes-pos t = omega (arith, length-topic_bytes t)

topics_bytes-pos :
    (ts : List (Bytes × QoS)) → 0 < length ts → 0 < length (Subscribe.topics_bytes ts)
topics_bytes-pos [] h = absurd (omega arith)
topics_bytes-pos (t ∷ ts) h =
    omega (
      arith,
      topic_bytes-pos t,
      length-append (Subscribe.topic_bytes t) (Subscribe.topics_bytes ts),
    )

pub topic_at-topic_bytes :
    (front back : Bytes) (t : Bytes × QoS)
    → Fits t
    → Subscribe.topic_at (front ++ (Subscribe.topic_bytes t ++ back)) (length front)
      ≡ ok (t, length front + length (Subscribe.topic_bytes t))
unfolding Subscribe.topic_at Subscribe.topic_bytes
topic_at-topic_bytes front back (topic, qos) (str, small) =
    let tail : Bytes = qos_code qos ∷ back in
    let whole : front ++ (Encode.utf8 topic ++ tail) ≡ (front ++ Encode.utf8 topic) ++ tail =
      sym (append_assoc front (Encode.utf8 topic) tail) in
    rw (append_assoc (Encode.utf8 topic) (qos_code qos ∷ []) back) (
      rw
        (
          slice_from-append front (Encode.utf8 topic ++ tail) (length front) refl,
          utf8-encode topic tail small str,
          whole,
          index-append (front ++ Encode.utf8 topic) back (qos_code qos)
              (length front + (length topic + 2))
              (omega (arith, length-append front (Encode.utf8 topic), length-encode_utf8 topic)),
          qos_try_from-code qos,
          length-append (Encode.utf8 topic) (qos_code qos ∷ []),
          length-encode_utf8 topic,
        )
        (ap (λ (n : ℕ). ok ((topic, qos), n)) (omega arith)))

pub topic_at_advances :
    (payload : Bytes) (offset : ℕ) (t : Bytes × QoS) (next : ℕ)
    → Subscribe.topic_at payload offset ≡ ok (t, next)
    → offset < next
unfolding Subscribe.topic_at
topic_at_advances payload offset t next h = elim (outcome (slice_from payload offset)) [
  | is_ok rest e ↦ elim (outcome (Decode.utf8 rest)) [
    | is_ok (v, k) e' ↦ ground (arith, utf8-pos rest v k e')
    | is_err x e' ↦ absurd (ground arith)
    | is_panic e' ↦ absurd (ground arith)
  ]
  | is_err x e ↦ absurd (ground arith)
  | is_panic e ↦ absurd (ground arith)
]

-- The entries of a SUBSCRIBE: an encoder that the parser inverts.
unfoldable pub topic_codec : ItemCodec Subscribe.topic_at
topic_codec = record {
  encode = Subscribe.topic_bytes;
  Fits = Fits;
  encode_pos = topic_bytes-pos;
  item-encode = topic_at-topic_bytes;
  advances = topic_at_advances;
}

topics_bytes-encode_all :
    (ts : List (Bytes × QoS)) → Subscribe.topics_bytes ts ≡ encode_all topic_codec ts
unfolding topic_codec
topics_bytes-encode_all [] = refl
topics_bytes-encode_all (t ∷ ts) =
    ap (λ (l : Bytes). Subscribe.topic_bytes t ++ l) (topics_bytes-encode_all ts)

collect-topics_bytes :
    (ts : List (Bytes × QoS))
    → 0 < length ts
    → All Fits ts
    → collect Subscribe.topic_at (Subscribe.topics_bytes ts) ≡ ok ts
unfolding topic_codec
collect-topics_bytes ts h fits =
    rw (topics_bytes-encode_all ts) (collect-encode_all topic_codec ts h fits)

abbrev pub body : Builder → Bytes
body b = to_be_bytes b.packet_identifier ++ Subscribe.topics_bytes b.topics

abbrev pub first_byte : ℕ
first_byte = packet_type_code subscribe * 16 + 2

module _ (b : Builder) (id : IsU16 b.packet_identifier) (some_topic : 0 < length b.topics)
    (topics_fit : All Fits b.topics) (fits : length (body b) ≤ max_body) where
  abbrev unverified : UnverifiedSubscribe
  unverified = record { inner = frame first_byte (body b) }

  abbrev built : Subscribe
  built = record { inner = unverified }

  verify_header-built : Subscribe.verify_header unverified ≡ ok tt
  unfolding Subscribe.verify_header decode_packet_type packet_type_eq packet_type_code
      packet_type_try_from
  verify_header-built =
      rw (try_header-fixed_header first_byte (length (body b)) (body b) fits)
        (check_length-frame first_byte (body b) fits)

  try_two_bytes-built : try_two_bytes unverified.inner ≡ ok (to_be_bytes b.packet_identifier)
  try_two_bytes-built =
      try_two_bytes-frame first_byte (to_be_bytes b.packet_identifier)
        (Subscribe.topics_bytes b.topics) refl fits

  try_topics-built : Subscribe.try_topics unverified ≡ ok b.topics
  unfolding Subscribe.try_topics
  try_topics-built =
      rw
        (try_payload-frame unverified first_byte (to_be_bytes b.packet_identifier)
          (Subscribe.topics_bytes b.topics) fits refl try_two_bytes-built)
        (collect-topics_bytes b.topics some_topic topics_fit)

  verify-built : Subscribe.verify unverified ≡ ok built
  unfolding Subscribe.verify
  verify-built = rw (verify_header-built, try_two_bytes-built, try_topics-built)

  build-built : Subscribe.build b ≡ ok built
  unfolding Subscribe.build
  build-built =
      rw
        (remaining_length-parts (to_be_bytes b.packet_identifier) (Subscribe.topics_bytes b.topics)
          fits)
        (ap unwrap verify-built)

  all_topics-built : Subscribe.all_topics built ≡ ok b.topics
  unfolding Subscribe.all_topics Subscribe.topics
  all_topics-built =
      rw
        (payload-frame built first_byte (to_be_bytes b.packet_identifier)
          (Subscribe.topics_bytes b.topics) fits refl
          (two_bytes-frame first_byte (to_be_bytes b.packet_identifier)
            (Subscribe.topics_bytes b.topics) refl fits))
        (drain-collect_loop Subscribe.topic_at _ _ 0 [] b.topics
          (topics_bytes-pos b.topics some_topic)
          (unfold collect in collect-topics_bytes b.topics some_topic topics_fit))

-- A builder with a topic and a 16-bit identifier makes a packet, when its strings and its body
-- fit their length fields; the packet decodes to itself, shows the identifier, and its
-- iterator yields the topics in the order in which they were added.
pub build_subscribe :
    (b : Builder)
    → IsU16 b.packet_identifier
    → 0 < length b.topics
    → All Fits b.topics
    → length (body b) ≤ max_body
    → (p : Subscribe) × (Subscribe.build b ≡ ok p)
      × (Subscribe.try_from (Subscribe.into_bytes p) ≡ ok p)
      × (Subscribe.packet_identifier p ≡ ok b.packet_identifier)
      × (Subscribe.all_topics p ≡ ok b.topics)
unfolding Subscribe.try_from Subscribe.packet_identifier Subscribe.try_packet_identifier
build_subscribe b id h topics_fit fits = (
  built b id h topics_fit fits,
  build-built b id h topics_fit fits,
  verify-built b id h topics_fit fits,
  rw (try_two_bytes-built b id h topics_fit fits)
      (ap unwrap (u16-to_be_bytes b.packet_identifier [] id)),
  all_topics-built b id h topics_fit fits,
)

-- The packet of a builder is a frame, which `Packet::try_from` accepts as a SUBSCRIBE.
pub build-frame :
    (b : Builder)
    → IsU16 b.packet_identifier
    → 0 < length b.topics
    → All Fits b.topics
    → length (body b) ≤ max_body
    → (p : Subscribe) × (Subscribe.build b ≡ ok p)
      × (Subscribe.into_bytes p ≡ frame first_byte (body b))
      × (Packet.try_from (frame first_byte (body b)) ≡ ok (Packet.subscribe p))
      × (Subscribe.packet_identifier p ≡ ok b.packet_identifier)
      × (Subscribe.all_topics p ≡ ok b.topics)
unfolding Packet.try_from Subscribe.try_from Subscribe.packet_identifier
    Subscribe.try_packet_identifier packet_type_code packet_type_try_from
build-frame b id h topics_fit fits = (
  built b id h topics_fit fits,
  build-built b id h topics_fit fits,
  refl,
  rw (verify-built b id h topics_fit fits) refl,
  rw (try_two_bytes-built b id h topics_fit fits)
      (ap unwrap (u16-to_be_bytes b.packet_identifier [] id)),
  all_topics-built b id h topics_fit fits,
)

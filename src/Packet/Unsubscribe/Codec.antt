-- ===== src/Packet/Unsubscribe/Codec.antt =====
-- UNSUBSCRIBE: what a builder makes is accepted and read back.
use tjiftjaf.Prelude.{
  ℕ, ◌+◌, ◌*◌, ◌≤◌, ◌<◌, ◌≡◌, refl, ap, arith, List, [], ◌∷◌, ◌++◌, length, length-append, All,
}
use tjiftjaf.Result.{ok, unwrap, outcome, is_ok, is_err, is_panic}
use tjiftjaf.Rust.{Bytes, IsU16, to_be_bytes, slice_from}
use tjiftjaf.Rust.Slices.{slice_from-append}
use tjiftjaf.Rust.Utf8.{IsStr}
use tjiftjaf.Decode
use tjiftjaf.Decode.Field.{u16-to_be_bytes, utf8-encode, length-encode_utf8, utf8-pos}
use tjiftjaf.Encode
use tjiftjaf.Kinds.{
  unsubscribe, packet_type_code, decode_packet_type, packet_type_eq, packet_type_try_from,
}
use tjiftjaf.Frame.{try_two_bytes, payload}
use tjiftjaf.Frame.Layout.{max_body, frame, remaining_length-parts, try_header-fixed_header}
use tjiftjaf.Frame.Payload.{try_payload-frame, payload-frame}
use tjiftjaf.Frame.Checks.{check_length-frame, try_two_bytes-frame, two_bytes-frame}
use tjiftjaf.Packet.Topics.{collect}
use tjiftjaf.Packet.Topics.RoundTrip.{ItemCodec, encode_all, collect-encode_all, drain-collect_loop}
use tjiftjaf.Packet.Unsubscribe
use tjiftjaf.Packet.Unsubscribe.{Unsubscribe, UnverifiedUnsubscribe, Builder}

-- A topic that `build` can encode: a string that fits its length field.
abbrev pub Fits : Bytes → Type 0
Fits topic = IsStr topic × IsU16 (length topic)

topic_bytes-pos : (t : Bytes) → 0 < length (Unsubscribe.topic_bytes t)
unfolding Unsubscribe.topic_bytes
topic_bytes-pos t = omega (arith, length-encode_utf8 t)

topics_bytes-pos : (ts : List Bytes) → 0 < length ts → 0 < length (Unsubscribe.topics_bytes ts)
topics_bytes-pos [] h = absurd (omega arith)
topics_bytes-pos (t ∷ ts) h = omega (
  arith,
  topic_bytes-pos t,
  length-append (Unsubscribe.topic_bytes t) (Unsubscribe.topics_bytes ts),
)

topic_at-topic_bytes :
    (front back : Bytes) (t : Bytes)
    → Fits t
    → Unsubscribe.topic_at (front ++ (Unsubscribe.topic_bytes t ++ back)) (length front)
      ≡ ok (t, length front + length (Unsubscribe.topic_bytes t))
unfolding Unsubscribe.topic_at Unsubscribe.topic_bytes
topic_at-topic_bytes front back t (str, small) = rw (
  slice_from-append front (Encode.utf8 t ++ back) (length front) refl,
  utf8-encode t back small str,
  length-encode_utf8 t,
)

topic_at_advances :
    (payload : Bytes) (offset : ℕ) (t : Bytes) (next : ℕ)
    → Unsubscribe.topic_at payload offset ≡ ok (t, next)
    → offset < next
unfolding Unsubscribe.topic_at
topic_at_advances payload offset t next h = elim (outcome (slice_from payload offset)) [
  | is_ok rest e ↦ elim (outcome (Decode.utf8 rest)) [
    | is_ok (v, k) e' ↦ ground (arith, utf8-pos rest v k e')
    | is_err x e' ↦ absurd (ground arith)
    | is_panic e' ↦ absurd (ground arith)
  ]
  | is_err x e ↦ absurd (ground arith)
  | is_panic e ↦ absurd (ground arith)
]

topic_codec : ItemCodec Unsubscribe.topic_at
topic_codec = record {
  encode = Unsubscribe.topic_bytes;
  Fits = Fits;
  encode_pos = topic_bytes-pos;
  item-encode = topic_at-topic_bytes;
  advances = topic_at_advances;
}

topics_bytes-encode_all :
    (ts : List Bytes) → Unsubscribe.topics_bytes ts ≡ encode_all topic_codec ts
unfolding topic_codec
topics_bytes-encode_all [] = refl
topics_bytes-encode_all (t ∷ ts) =
    ap (λ (l : Bytes). Unsubscribe.topic_bytes t ++ l) (topics_bytes-encode_all ts)

collect-topics_bytes :
    (ts : List Bytes)
    → 0 < length ts
    → All Fits ts
    → collect Unsubscribe.topic_at (Unsubscribe.topics_bytes ts) ≡ ok ts
unfolding topic_codec
collect-topics_bytes ts h fits =
    rw (topics_bytes-encode_all ts) (collect-encode_all topic_codec ts h fits)

abbrev body : Builder → Bytes
body b = to_be_bytes b.packet_identifier ++ Unsubscribe.topics_bytes b.topics

abbrev first_byte : ℕ
first_byte = packet_type_code unsubscribe * 16 + 2

module _ (b : Builder) (id : IsU16 b.packet_identifier) (some_topic : 0 < length b.topics)
    (topics_fit : All Fits b.topics) (fits : length (body b) ≤ max_body) where
  abbrev unverified : UnverifiedUnsubscribe
  unverified = record { inner = frame first_byte (body b) }

  abbrev built : Unsubscribe
  built = record { inner = unverified }

  verify_header-built : Unsubscribe.verify_header unverified ≡ ok tt
  unfolding Unsubscribe.verify_header decode_packet_type packet_type_eq packet_type_code
      packet_type_try_from
  verify_header-built =
      rw (try_header-fixed_header first_byte (length (body b)) (body b) fits)
        (check_length-frame first_byte (body b) fits)

  try_two_bytes-built : try_two_bytes unverified.inner ≡ ok (to_be_bytes b.packet_identifier)
  try_two_bytes-built =
      try_two_bytes-frame first_byte (to_be_bytes b.packet_identifier)
        (Unsubscribe.topics_bytes b.topics) refl fits

  try_topics-built : Unsubscribe.try_topics unverified ≡ ok b.topics
  unfolding Unsubscribe.try_topics
  try_topics-built =
      rw
        (try_payload-frame unverified first_byte (to_be_bytes b.packet_identifier)
          (Unsubscribe.topics_bytes b.topics) fits refl try_two_bytes-built)
        (collect-topics_bytes b.topics some_topic topics_fit)

  verify-built : Unsubscribe.verify unverified ≡ ok built
  unfolding Unsubscribe.verify
  verify-built = rw (verify_header-built, try_two_bytes-built, try_topics-built)

  build-built : Unsubscribe.build b ≡ ok built
  unfolding Unsubscribe.build
  build-built =
      rw
        (remaining_length-parts (to_be_bytes b.packet_identifier)
          (Unsubscribe.topics_bytes b.topics) fits)
        (ap unwrap verify-built)

  all_topics-built : Unsubscribe.all_topics built ≡ ok b.topics
  unfolding Unsubscribe.all_topics Unsubscribe.topics
  all_topics-built =
      rw
        (payload-frame built first_byte (to_be_bytes b.packet_identifier)
          (Unsubscribe.topics_bytes b.topics) fits refl
          (two_bytes-frame first_byte (to_be_bytes b.packet_identifier)
            (Unsubscribe.topics_bytes b.topics) refl fits))
        (drain-collect_loop Unsubscribe.topic_at _ _ 0 [] b.topics
          (topics_bytes-pos b.topics some_topic)
          (unfold collect in collect-topics_bytes b.topics some_topic topics_fit))

-- A builder with a topic and a 16-bit identifier makes a packet, when its strings and its body
-- fit their length fields; the packet decodes to itself, shows the identifier, and its
-- iterator yields the topics in the order in which they were added.
pub build_unsubscribe :
    (b : Builder)
    → IsU16 b.packet_identifier
    → 0 < length b.topics
    → All Fits b.topics
    → length (body b) ≤ max_body
    → (p : Unsubscribe) × (Unsubscribe.build b ≡ ok p)
      × (Unsubscribe.try_from (Unsubscribe.into_bytes p) ≡ ok p)
      × (Unsubscribe.packet_identifier p ≡ ok b.packet_identifier)
      × (Unsubscribe.all_topics p ≡ ok b.topics)
unfolding Unsubscribe.try_from Unsubscribe.packet_identifier Unsubscribe.try_packet_identifier
build_unsubscribe b id h topics_fit fits = (
  built b id h topics_fit fits,
  build-built b id h topics_fit fits,
  verify-built b id h topics_fit fits,
  rw (try_two_bytes-built b id h topics_fit fits)
      (ap unwrap (u16-to_be_bytes b.packet_identifier [] id)),
  all_topics-built b id h topics_fit fits,
)

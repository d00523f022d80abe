-- ===== src/Packet/Subscribe.antt =====
-- src/packet/subscribe.rs: topics that a client asks for, each with a QoS.
pub mod Codec
pub mod Verified
pub mod Count
use tjiftjaf.Prelude.{ℕ, suc, ◌+◌, ◌*◌, List, [], ◌∷◌, ◌++◌, not, length}
use tjiftjaf.Result.{
  Result, ok, ◌>>=◌, ◌>>◌, fail_if, ok_or, unwrap, invalid_value, invalid_packet_type,
}
use tjiftjaf.Rust.{Bytes, index, slice_from, to_be_bytes}
use tjiftjaf.Decode
use tjiftjaf.Encode
use tjiftjaf.Encode.{remaining_length}
use tjiftjaf.Kinds.{
  subscribe, packet_type_code, packet_type_eq, decode_packet_type, QoS, qos_code, qos_try_from,
}
use tjiftjaf.Frame.{
  Frame, UnverifiedFrame, try_header, try_two_bytes, two_bytes, check_length, try_payload, payload,
}
use tjiftjaf.Packet.Topics.{Topics, collect, drain}

pub record UnverifiedSubscribe : Type 0 where
  pub inner : Bytes

pub record Subscribe : Type 0 where
  pub inner : UnverifiedSubscribe

instance abbrev pub unverified_frame : UnverifiedFrame UnverifiedSubscribe
unverified_frame = record { bytes = λ p. p.inner; try_variable_header = λ p. try_two_bytes p.inner }

instance abbrev pub subscribe_frame : Frame Subscribe
subscribe_frame = record {
  as_bytes = λ p. p.inner.inner;
  variable_header = λ p. two_bytes p.inner.inner;
}

-- `Subscribe::into_bytes`
abbrev pub into_bytes : Subscribe → Bytes
into_bytes p = p.inner.inner

-- `UnverifiedSubscribe::try_packet_identifier`
unfoldable pub try_packet_identifier : UnverifiedSubscribe → Result ℕ
try_packet_identifier p = do header ← try_two_bytes p.inner; Decode.u16 header

-- `UnverifiedSubscribe::verify_header`
unfoldable pub verify_header : UnverifiedSubscribe → Result (Unit {0})
verify_header p = do
  header ← try_header p.inner
  t ← decode_packet_type header
  fail_if (not (packet_type_eq t subscribe)) (invalid_packet_type 5)
  check_length p.inner header

-- The body of the loop of `try_topics`.
unfoldable pub topic_at : Bytes → ℕ → Result ((Bytes × QoS) × ℕ)
topic_at payload offset = do
  rest ← slice_from payload offset
  (topic, size) ← Decode.utf8 rest
  byte ← index payload (offset + size)
  qos ← ok_or (qos_try_from byte) invalid_value
  ok ((topic, qos), offset + size + 1)

-- `UnverifiedSubscribe::try_topics`
unfoldable pub try_topics : UnverifiedSubscribe → Result (List (Bytes × QoS))
try_topics p = do payload ← try_payload p; collect topic_at payload

-- `UnverifiedSubscribe::verify`, with `verify_variable_header` and `verify_payload`
unfoldable pub verify : UnverifiedSubscribe → Result Subscribe
verify p = do verify_header p; try_two_bytes p.inner; try_topics p; ok (record { inner = p })

-- `Subscribe::try_from`
unfoldable pub try_from : Bytes → Result Subscribe
try_from value = verify (record { inner = value })

-- `Subscribe::packet_identifier`
unfoldable pub packet_identifier : Subscribe → Result ℕ
packet_identifier p = unwrap (try_packet_identifier p.inner)

-- `Subscribe::topics`
unfoldable pub topics : Subscribe → Result Topics
topics p = do body ← payload p; ok (record { topics = body; offset = 0 })

-- All that `Subscribe::topics` yields.
unfoldable pub all_topics : Subscribe → Result (List (Bytes × QoS))
all_topics p = do t ← topics p; drain topic_at (suc (suc (length t.topics))) t []

pub record Builder : Type 0 where
  pub packet_identifier : ℕ
  pub topics : List (Bytes × QoS)

-- `Builder::add_topic`
abbrev pub add_topic : Builder → (Bytes × QoS) → Builder
add_topic b topic = record b { topics = b.topics ++ (topic ∷ []) }

-- `Builder::new`, with the identifier that `packet_identifier()` returns.
abbrev pub new : ℕ → (Bytes × QoS) → Builder
new id topic = add_topic (record { packet_identifier = id; topics = [] }) topic

-- What `build` appends for one topic.
unfoldable pub topic_bytes : Bytes × QoS → Bytes
topic_bytes (topic, qos) = Encode.utf8 topic ++ (qos_code qos ∷ [])

-- The `for` loop of `Builder::build`.
abbrev pub topics_bytes : List (Bytes × QoS) → Bytes
topics_bytes [] = []
topics_bytes (topic ∷ topics) = topic_bytes topic ++ topics_bytes topics

-- `Builder::build`
unfoldable pub build : Builder → Result Subscribe
build b = do
  let variable_header = to_be_bytes b.packet_identifier
  let body = topics_bytes b.topics
  remaining ← remaining_length (length variable_header + length body)
  let packet = (packet_type_code subscribe * 16 + 2) ∷ (remaining ++ (variable_header ++ body))
  unwrap (verify (record { inner = packet }))

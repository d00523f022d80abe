-- ===== src/Packet/Unsubscribe.antt =====
-- src/packet/unsubscribe.rs: topics that a client gives up.
pub mod Codec
use tjiftjaf.Prelude.{ℕ, suc, ◌+◌, ◌*◌, List, [], ◌∷◌, ◌++◌, not, length}
use tjiftjaf.Result.{
  Result, ok, ◌>>=◌, ◌>>◌, fail_if, ok_or, unwrap, invalid_value, invalid_packet_type,
}
use tjiftjaf.Rust.{Bytes, index, slice_from, to_be_bytes}
use tjiftjaf.Decode
use tjiftjaf.Encode
use tjiftjaf.Encode.{remaining_length}
use tjiftjaf.Kinds.{
  unsubscribe, packet_type_code, packet_type_eq, decode_packet_type, QoS, qos_code, qos_try_from,
}
use tjiftjaf.Frame.{
  Frame, UnverifiedFrame, try_header, try_two_bytes, two_bytes, check_length, try_payload, payload,
}
use tjiftjaf.Packet.Topics.{Topics, collect, drain}

pub record UnverifiedUnsubscribe : Type 0 where
  pub inner : Bytes

pub record Unsubscribe : Type 0 where
  pub inner : UnverifiedUnsubscribe

instance abbrev pub unverified_frame : UnverifiedFrame UnverifiedUnsubscribe
unverified_frame = record { bytes = λ p. p.inner; try_variable_header = λ p. try_two_bytes p.inner }

instance abbrev pub unsubscribe_frame : Frame Unsubscribe
unsubscribe_frame = record {
  as_bytes = λ p. p.inner.inner;
  variable_header = λ p. two_bytes p.inner.inner;
}

-- `Unsubscribe::into_bytes`
abbrev pub into_bytes : Unsubscribe → Bytes
into_bytes p = p.inner.inner

-- `UnverifiedUnsubscribe::try_packet_identifier`
unfoldable pub try_packet_identifier : UnverifiedUnsubscribe → Result ℕ
try_packet_identifier p = do header ← try_two_bytes p.inner; Decode.u16 header

-- `UnverifiedUnsubscribe::verify_header`
unfoldable pub verify_header : UnverifiedUnsubscribe → Result (Unit {0})
verify_header p = do
  header ← try_header p.inner
  t ← decode_packet_type header
  fail_if (not (packet_type_eq t unsubscribe)) (invalid_packet_type 10)
  check_length p.inner header

-- The body of the loop of `try_topics`.
unfoldable pub topic_at : Bytes → ℕ → Result (Bytes × ℕ)
topic_at payload offset = do
  rest ← slice_from payload offset
  (topic, size) ← Decode.utf8 rest
  ok (topic, offset + size)

-- `UnverifiedUnsubscribe::try_topics`
unfoldable pub try_topics : UnverifiedUnsubscribe → Result (List Bytes)
try_topics p = do payload ← try_payload p; collect topic_at payload

-- `UnverifiedUnsubscribe::verify`, with `verify_variable_header` and `verify_payload`
unfoldable pub verify : UnverifiedUnsubscribe → Result Unsubscribe
verify p = do verify_header p; try_two_bytes p.inner; try_topics p; ok (record { inner = p })

-- `Unsubscribe::try_from`
unfoldable pub try_from : Bytes → Result Unsubscribe
try_from value = verify (record { inner = value })

-- `Unsubscribe::packet_identifier`
unfoldable pub packet_identifier : Unsubscribe → Result ℕ
packet_identifier p = unwrap (try_packet_identifier p.inner)

-- `Unsubscribe::topics`
unfoldable pub topics : Unsubscribe → Result Topics
topics p = do body ← payload p; ok (record { topics = body; offset = 0 })

-- All that `Unsubscribe::topics` yields.
unfoldable pub all_topics : Unsubscribe → Result (List Bytes)
all_topics p = do t ← topics p; drain topic_at (suc (suc (length t.topics))) t []

pub record Builder : Type 0 where
  pub packet_identifier : ℕ
  pub topics : List Bytes

-- `Builder::add_topic`
abbrev pub add_topic : Builder → Bytes → Builder
add_topic b topic = record b { topics = b.topics ++ (topic ∷ []) }

-- `Builder::new`, with the identifier that `packet_identifier()` returns.
abbrev pub new : ℕ → Bytes → Builder
new id topic = add_topic (record { packet_identifier = id; topics = [] }) topic

-- What `build` appends for one topic.
unfoldable pub topic_bytes : Bytes → Bytes
topic_bytes topic = Encode.utf8 topic

-- The `for` loop of `Builder::build`.
abbrev pub topics_bytes : List Bytes → Bytes
topics_bytes [] = []
topics_bytes (topic ∷ topics) = topic_bytes topic ++ topics_bytes topics

-- `Builder::build`
unfoldable pub build : Builder → Result Unsubscribe
build b = do
  let variable_header = to_be_bytes b.packet_identifier
  let body = topics_bytes b.topics
  remaining ← remaining_length (length variable_header + length body)
  let packet = (packet_type_code unsubscribe * 16 + 2) ∷ (remaining ++ (variable_header ++ body))
  unwrap (verify (record { inner = packet }))

-- ===== src/Examples/Session.antt =====
-- The sessions of the server at concrete clients and packets.
use tjiftjaf.Prelude.{
  ◌↔◌, ◌/◌, false, ℕ, true, List, [], ◌∷◌, ◌++◌, ◌≡◌, refl, arith, ◌%◌, ◌^◌, some,
}
use tjiftjaf.Result.{ok, panic}
use tjiftjaf.Rust.{Bytes, slice, slice_from, bytes_eq}
use tjiftjaf.Rust.Utf8.{from_utf8, is_utf8}
use tjiftjaf.Encode.Remaining.{groups}
use tjiftjaf.Decode
use tjiftjaf.Decode.{packet_length}
use tjiftjaf.Kinds.{
  at_most_once_delivery, at_least_once_delivery, decode_packet_type, packet_type_try_from,
  packet_type_eq, packet_type_code, qos_try_from,
}
use tjiftjaf.Frame
use tjiftjaf.Frame.{check_length, try_header, try_offset_variable_header, try_two_bytes}
use tjiftjaf.Frame.Layout.{frame}
use tjiftjaf.Packet
use tjiftjaf.Packet.{Packet}
use tjiftjaf.Packet.Ack
use tjiftjaf.Packet.Connect
use tjiftjaf.Packet.Publish
use tjiftjaf.Packet.SubAck
use tjiftjaf.Packet.Subscribe
use tjiftjaf.Packet.Topics
use tjiftjaf.Binding
use tjiftjaf.Binding.{MqttBinding, receive, start_of_header, from_connect}
use tjiftjaf.Binding.Receive.{Delivered}
use tjiftjaf.Client.{answer}
use tjiftjaf.Server.{read_packet}
use tjiftjaf.Server.Table.{Subscriber, packet, handle_client_message, addressed, push_topics}
use tjiftjaf.Server.Table.Deliver.{filter, stays, reached, senders}
use tjiftjaf.Server.Session.{
  Client, readable, outbound, go_on, failed, unexpected_packet, on_packet, on_event,
}
use tjiftjaf.Server.Session.Grants.{on_packet-subscribe}
use tjiftjaf.Server.Session.Answers.{outbound-body}
use tjiftjaf.Server.Session.Panics.{is_unserved, on_event-panic}
use tjiftjaf.Server.Route.{publish-Delivered}
use tjiftjaf.Server.Acks.{puback, answer-fails}
use tjiftjaf.Shorthand.{subscribe}
use tjiftjaf.Shorthand.Granted.{subscribe-Granted}
use tjiftjaf.Examples.{ab, ab-IsStr}

-- A session with the client ab.
abbrev pub ab_connect : Connect.Connect
ab_connect = record {
  inner = record {
    inner = 16 ∷ 14 ∷ 0 ∷ 4 ∷ 77 ∷ 81 ∷ 84 ∷ 84 ∷ 4 ∷ 2 ∷ 0 ∷ 60 ∷ 0 ∷ 2 ∷ 97 ∷ 98 ∷ [];
  };
}

ab_connect-client_id : Connect.client_id ab_connect ≡ ok ab
unfolding Connect.try_client_id Connect.try_variable_header try_offset_variable_header try_header
    slice slice_from Decode.u16 Decode.utf8 Decode.bytes from_utf8 is_utf8 Frame.try_payload
    Frame.try_offset_payload
ab_connect-client_id = refl

abbrev with_stream : Bytes → Client ℕ
with_stream stream = record { connect = ab_connect; stream = stream; sent = []; funnelled = [] }

-- It asks for the topic ab with QoS 1, under the identifier 9.
abbrev pub wish : Subscribe.Subscribe
wish = record { inner = record { inner = 130 ∷ 7 ∷ 0 ∷ 9 ∷ 0 ∷ 2 ∷ 97 ∷ 98 ∷ 1 ∷ [] } }

wish-identifier : Subscribe.packet_identifier wish ≡ ok 9
unfolding Subscribe.packet_identifier Subscribe.try_packet_identifier try_two_bytes
    try_offset_variable_header try_header slice slice_from Decode.u16
wish-identifier = refl

pub wish-topics : Subscribe.all_topics wish ≡ ok ((ab, at_least_once_delivery) ∷ [])
unfolding Subscribe.all_topics Subscribe.topics Frame.payload try_two_bytes
    try_offset_variable_header try_header slice slice_from Topics.drain Subscribe.topic_at
    Decode.utf8 Decode.bytes from_utf8 is_utf8 qos_try_from Frame.header_of Frame.two_bytes
    Frame.length_of packet_length
wish-topics = refl

on_packet-subscribe_example :
    (a : SubAck.SubAck) × (on_packet (with_stream []) true true (Packet.subscribe wish)
      ≡ ok (
        record (with_stream []) {
          sent = SubAck.into_bytes a ∷ [];
          funnelled = packet ab (Packet.subscribe wish) ∷ [];
        },
        go_on,
      ))
    × (SubAck.try_from (SubAck.into_bytes a) ≡ ok a)
    × (SubAck.packet_identifier a ≡ ok 9)
    × (SubAck.return_codes a ≡ ok (SubAck.qos at_least_once_delivery ∷ []))
on_packet-subscribe_example =
    on_packet-subscribe (with_stream []) wish 9 ab ((ab, at_least_once_delivery) ∷ [])
      wish-identifier wish-topics (omega arith) (omega arith) (omega arith) ab_connect-client_id

-- It acknowledges a publication of QoS 2 with PUBREC 7.
abbrev pubrec : Packet
pubrec = Packet.pub_rec (record { byte_0 = 80; byte_1 = 2; byte_2 = 0; byte_3 = 7 })

pubrec_framed : Packet.try_from (frame 80 (0 ∷ 7 ∷ [])) ≡ ok pubrec
unfolding Packet.try_from Ack.try_from_as Ack.try_from packet_type_try_from packet_type_eq
    Ack.packet_type groups
pubrec_framed = refl

abbrev recording : Client ℕ
recording = with_stream (frame 80 (0 ∷ 7 ∷ []))

on_event-panic_example :
    (on_event recording (readable false true) ≡ panic) ↔ (is_unserved (80 / 16) ≡ true)
unfolding groups
on_event-panic_example =
    on_event-panic recording 80 (0 ∷ 7 ∷ []) [] ab pubrec false true refl (omega arith)
      pubrec_framed ab_connect-client_id

-- A PUBLISH whose body is a DISCONNECT.
abbrev nested : Client ℕ
nested = with_stream (frame 48 (frame 224 []) ++ (1 ∷ []))

outbound-body_example :
    (read_packet nested.stream ≡ some (Packet.try_from (frame 48 (frame 224 [])), 1 ∷ []))
    × (c : Client ℕ) × (on_event nested (outbound pubrec 1 0 true) ≡ ok (c, go_on))
    × (read_packet c.stream ≡ some (Packet.try_from (frame 224 []), 1 ∷ []))
unfolding groups
outbound-body_example = outbound-body nested pubrec 48 224 [] (1 ∷ []) refl (omega arith)

-- A message 1 on ab.
abbrev pub note_body : Bytes
note_body = 0 ∷ 2 ∷ 97 ∷ 98 ∷ 1 ∷ []

abbrev pub note : Publish.Publish
note = record { inner = record { inner = 48 ∷ 5 ∷ note_body } }

note_framed : Packet.try_from (frame 48 note_body) ≡ ok (Packet.publish note)
unfolding Packet.try_from Publish.try_from Publish.verify Publish.verify_header try_header slice
    decode_packet_type packet_type_try_from packet_type_eq check_length packet_length
    Publish.try_topic Publish.try_variable_header try_offset_variable_header slice_from Decode.utf8
    Decode.bytes from_utf8 is_utf8 Publish.try_qos Decode.u16 packet_type_code qos_try_from
    Publish.try_packet_identifier groups
note_framed = refl

pub topic_of_note : Publish.topic note ≡ ok ab
unfolding Publish.try_topic Publish.try_variable_header Publish.try_qos try_offset_variable_header
    try_header slice slice_from Decode.utf8 Decode.bytes is_utf8 from_utf8 qos_try_from
topic_of_note = refl

abbrev listeners : List (Subscriber ℕ)
listeners = record { client_id = ab; sender = 1; topics = ab ∷ [] } ∷ []

abbrev reader : MqttBinding
reader = from_connect ab_connect 0

reader-start : reader.state ≡ start_of_header
unfolding from_connect
reader-start = refl

abbrev publisher : Client ℕ
publisher = with_stream (frame 48 note_body ++ (192 ∷ 0 ∷ []))

publish-Delivered_example :
    (on_event publisher (readable true true)
      ≡ ok (
        record publisher {
          stream = 192 ∷ 0 ∷ [];
          funnelled = packet ab (Packet.publish note) ∷ [];
        },
        go_on,
      ))
    × (handle_client_message (λ _. true) (packet ab (Packet.publish note)) listeners
        ≡ ok (
          filter (stays (λ _. true) ab) listeners,
          addressed (Packet.publish note) (senders (filter (reached (λ _. true) ab) listeners)),
        ))
    × (on_event (with_stream []) (outbound (Packet.publish note) 0 0 true)
        ≡ ok (record (with_stream []) { sent = frame 48 note_body ∷ [] }, go_on))
    × (b : MqttBinding) × (receive 3 reader (frame 48 note_body ++ (208 ∷ []))
        ≡ ok (b, some (Packet.publish note), 208 ∷ []))
    × Delivered reader b
publish-Delivered_example =
    publish-Delivered publisher (with_stream []) reader (λ _. true) listeners 48 note_body
      (192 ∷ 0 ∷ []) (208 ∷ []) ab ab note refl (omega arith) note_framed ab_connect-client_id
      topic_of_note (refl, tt) reader-start

-- A message on ab with QoS 1 and the identifier 7.
abbrev asked : Publish.Publish
asked = record { inner = record { inner = 50 ∷ 6 ∷ 0 ∷ 2 ∷ 97 ∷ 98 ∷ 0 ∷ 7 ∷ [] } }

asked-qos : Publish.qos asked ≡ ok at_least_once_delivery
unfolding Publish.try_qos try_header slice qos_try_from
asked-qos = refl

asked-identifier : Publish.packet_identifier asked ≡ ok (some 7)
unfolding Publish.try_packet_identifier Publish.try_variable_header Publish.try_qos
    try_offset_variable_header try_header slice slice_from Decode.utf8 Decode.bytes is_utf8
    from_utf8 qos_try_from Decode.u16
asked-identifier = refl

abbrev acknowledging : Client ℕ
acknowledging = with_stream (Packet.into_bytes (puback 7) ++ [])

answer-fails_example :
    (answer reader (Packet.publish asked) ≡ ok (Binding.send reader (puback 7)))
    × (on_event acknowledging (readable true true)
        ≡ ok (record acknowledging { stream = [] }, failed unexpected_packet))
answer-fails_example = answer-fails reader acknowledging asked 7 [] asked-qos asked-identifier refl

-- The client ab subscribes to ab.
subscribe-Granted_example :
    (p : Subscribe.Subscribe) × (a : SubAck.SubAck) × (subscribe (some 1000000) ab ≡ ok p)
    × (on_event (with_stream (Subscribe.into_bytes p ++ [])) (readable true true)
        ≡ ok (
          record (with_stream []) {
            sent = SubAck.into_bytes a ∷ [];
            funnelled = packet ab (Packet.subscribe p) ∷ [];
          },
          go_on,
        ))
    × (SubAck.try_from (SubAck.into_bytes a) ≡ ok a)
    × (SubAck.packet_identifier a ≡ ok (1000000 % 2 ^ 16))
    × (SubAck.return_codes a ≡ ok (SubAck.qos at_most_once_delivery ∷ []))
    × (handle_client_message (λ _. true) (packet ab (Packet.subscribe p)) listeners
        ≡ ok (push_topics ab (ab ∷ []) listeners, []))
unfolding bytes_eq
subscribe-Granted_example =
    subscribe-Granted 1000000 ab ab [] (with_stream []) (λ _. true) listeners ab-IsStr (omega arith)
      ab_connect-client_id refl

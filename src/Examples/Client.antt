-- ===== src/Examples/Client.antt =====
-- The binding of a client at concrete packets.
use tjiftjaf.Packet.Publish
use tjiftjaf.Rust.Utf8.{from_utf8, is_utf8}
use tjiftjaf.Frame.{check_length}
use tjiftjaf.Kinds.{QoS, decode_packet_type, packet_type_code, qos_try_from}
use tjiftjaf.Client.{answer}
use tjiftjaf.Client.Answer.{Answered, answer-publish}
use tjiftjaf.Prelude.{ℕ, Option, ◌≡◌, refl, arith, [], ◌∷◌, ◌++◌, none, some}
use tjiftjaf.Result.{ok}
use tjiftjaf.Rust.{slice, slice_from}
use tjiftjaf.Encode.Remaining.{groups}
use tjiftjaf.Decode
use tjiftjaf.Decode.{packet_length}
use tjiftjaf.Kinds.{packet_type_try_from, packet_type_eq}
use tjiftjaf.Frame.{try_header, try_offset_variable_header}
use tjiftjaf.Frame.Layout.{frame}
use tjiftjaf.Packet
use tjiftjaf.Packet.{Packet}
use tjiftjaf.Packet.Ack
use tjiftjaf.Packet.Ping
use tjiftjaf.Packet.Ping.{try_from_constant, try_from_constant_eq, pingreq_bytes}
use tjiftjaf.Packet.Connect
use tjiftjaf.Binding.{
  MqttBinding, from_connect, receive, send, start_of_header, end_of_header, connected, poll_timeout,
  handle_timeout,
}
use tjiftjaf.Binding.Receive.{receive-frame, Delivered}
use tjiftjaf.Binding.Long.{receive_long}
use tjiftjaf.Binding.Timeout.{handle_timeout-poll_timeout}
use tjiftjaf.Binding.Handshake.{enqueued, start, Opening, Run-Opening}
use tjiftjaf.Examples.{puback}

-- A client that waits for PUBACK 7 and gets it, with another byte behind it.
abbrev acked_connect : Connect.Connect
acked_connect = record { inner = record { inner = 16 ∷ 0 ∷ [] } }

abbrev fresh : MqttBinding
fresh = from_connect acked_connect 0

fresh-start : fresh.state ≡ start_of_header
unfolding from_connect
fresh-start = refl

puback_framed : Packet.try_from (frame 64 (0 ∷ 7 ∷ [])) ≡ ok puback
unfolding Packet.try_from Ack.try_from_as Ack.try_from packet_type_try_from packet_type_eq
    Ack.packet_type groups
puback_framed = refl

receive-frame_example :
    (b : MqttBinding) × (receive 3 fresh (frame 64 (0 ∷ 7 ∷ []) ++ (192 ∷ []))
      ≡ ok (b, some puback, 192 ∷ []))
    × Delivered fresh b
receive-frame_example =
    receive-frame fresh 64 (0 ∷ 7 ∷ []) (192 ∷ []) puback fresh-start (omega arith) puback_framed

receive_long_example :
    receive 2 fresh (48 ∷ 128 ∷ 128 ∷ 128 ∷ 1 ∷ [])
    ≡ ok (record fresh { state = end_of_header (48 ∷ 128 ∷ []) }, none, 1 ∷ [])
receive_long_example =
    receive_long fresh 48 128 128 128 (1 ∷ []) fresh-start (omega arith) (omega arith) (omega arith)
      (omega arith) (omega arith) (omega arith)

Run-Opening_example : Opening acked_connect [] (send fresh puback)
Run-Opening_example = Run-Opening acked_connect [] (send fresh puback) (enqueued puback (start 0))

-- A connected client.
abbrev online : MqttBinding
online = record {
  connection_status = connected;
  state = start_of_header;
  transmits = Packet.ping_req Ping.ping_req ∷ [];
  statistics = record { bytes_read = 0; bytes_sent = 0; packets_read = 0; packets_sent = 0 };
  last_io = 0;
  connect = acked_connect;
}

-- A client with a keep alive interval of a minute.
abbrev minute : Connect.Connect
minute = record {
  inner = record { inner = 16 ∷ 12 ∷ 0 ∷ 4 ∷ 77 ∷ 81 ∷ 84 ∷ 84 ∷ 4 ∷ 2 ∷ 0 ∷ 60 ∷ 0 ∷ 0 ∷ [] };
}

abbrev quiet : MqttBinding
quiet = record online { connect = minute }

minute-keep_alive : Connect.keep_alive minute ≡ ok 60
unfolding Connect.try_keep_alive Connect.try_variable_header try_offset_variable_header try_header
    slice slice_from Decode.u16
minute-keep_alive = refl

quiet-wake : poll_timeout quiet ≡ ok 60000000000
unfolding poll_timeout
quiet-wake = rw minute-keep_alive refl

handle_timeout-poll_timeout_example :
    handle_timeout quiet 61000000000 ≡ ok (send quiet (Packet.ping_req Ping.ping_req))
handle_timeout-poll_timeout_example =
    handle_timeout-poll_timeout quiet 61000000000 60 60000000000 minute-keep_alive (omega arith)
      quiet-wake

-- A message on ab with QoS 1 and the identifier 7.
abbrev question : Publish.Publish
question = record { inner = record { inner = 50 ∷ 6 ∷ 0 ∷ 2 ∷ 97 ∷ 98 ∷ 0 ∷ 7 ∷ [] } }

question_decoded : Publish.try_from (50 ∷ 6 ∷ 0 ∷ 2 ∷ 97 ∷ 98 ∷ 0 ∷ 7 ∷ []) ≡ ok question
unfolding Publish.try_from Publish.verify Publish.verify_header try_header slice decode_packet_type
    packet_type_try_from packet_type_eq check_length packet_length Publish.try_topic
    Publish.try_variable_header try_offset_variable_header slice_from Decode.utf8 Decode.bytes
    from_utf8 is_utf8 Publish.try_qos Decode.u16 packet_type_code qos_try_from
    Publish.try_packet_identifier
question_decoded = refl

answer-publish_example :
    (q : QoS) × (o : Option ℕ) × (Publish.qos question ≡ ok q)
    × (Publish.packet_identifier question ≡ ok o)
    × Answered online (answer online (Packet.publish question)) q o
answer-publish_example =
    answer-publish (50 ∷ 6 ∷ 0 ∷ 2 ∷ 97 ∷ 98 ∷ 0 ∷ 7 ∷ []) question online question_decoded

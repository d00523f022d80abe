-- ===== src/Examples/Loop.antt =====
-- The loops of the clients at concrete sockets, packets and events.
use tjiftjaf.Prelude.{true, List, [], ◌∷◌, ◌++◌, ◌≡◌, ◌≢◌, refl, arith, length, some}
use tjiftjaf.Result.{ok, panic}
use tjiftjaf.Rust.{Bytes, slice, slice_from}
use tjiftjaf.Encode.Remaining.{groups}
use tjiftjaf.Decode
use tjiftjaf.Decode.{packet_length}
use tjiftjaf.Kinds.{packet_type_try_from, packet_type_eq}
use tjiftjaf.Frame.{length_of, try_header, try_offset_variable_header}
use tjiftjaf.Frame.Layout.{frame}
use tjiftjaf.Packet
use tjiftjaf.Packet.{Packet}
use tjiftjaf.Packet.Ack
use tjiftjaf.Packet.ConnAck
use tjiftjaf.Packet.Connect
use tjiftjaf.Packet.Ping
use tjiftjaf.Packet.Ping.{disconnect_bytes}
use tjiftjaf.Binding.{
  MqttBinding, from_connect, send, start_of_header, end_of_header, rest_of_packet, connected,
  connecting, poll_transmits, transmit_in, transmit_connect, record_outbound_packet, poll_timeout,
}
use tjiftjaf.Binding.Receive.{Delivered}
use tjiftjaf.Client.Loop.{
  Socket, Client, Flow, Round, go_on, stop, unfinished, disconnected, packet_is_empty, read,
  received, new, enqueue, flush, flush_loop, on_event, round, run,
}
use tjiftjaf.Client.Loop.Order.{Flushed, Measured, no_packets, measured, flush-Flushed}
use tjiftjaf.Client.Loop.Disconnect.{flush-disconnect}
use tjiftjaf.Client.Loop.Ends.{run-Finishes}
use tjiftjaf.Client.Loop.Opens.{connack-Flushed, ack, quiet}
use tjiftjaf.Client.Loop.ShortRead.{at_state, split_two_bytes}
use tjiftjaf.Client.Loop.Refines.{Follows, run-Session}
use tjiftjaf.Client.Blocking
use tjiftjaf.Client.Blocking.{Turn, read_loop}
use tjiftjaf.Client.Blocking.Traced.{Every, From}
use tjiftjaf.Client.Blocking.Enqueued.{run-From}
use tjiftjaf.Client.Blocking.Delivers.{told, read_loop-frame}
use tjiftjaf.Examples.{puback}

-- A socket that takes every write, each a nanosecond later.
abbrev willing : Socket
willing = record { write = λ _ _. true; close = λ _. true; clock = λ written. length written }

-- A CONNECT with a keep alive interval of a minute, and an empty client id.
abbrev minute_bytes : Bytes
minute_bytes = 16 ∷ 12 ∷ 0 ∷ 4 ∷ 77 ∷ 81 ∷ 84 ∷ 84 ∷ 4 ∷ 2 ∷ 0 ∷ 60 ∷ 0 ∷ 0 ∷ []

abbrev every_minute : Connect.Connect
every_minute = record { inner = record { inner = minute_bytes } }

every_minute-keep_alive : Connect.keep_alive every_minute ≡ ok 60
unfolding Connect.try_keep_alive Connect.try_variable_header try_offset_variable_header try_header
    slice slice_from Decode.u16
every_minute-keep_alive = refl

-- A client in its first round, which is given a PUBACK to send.
abbrev first_round : List Round
first_round = record { queued = []; event = received puback } ∷ []

abbrev connecting_binding : MqttBinding
connecting_binding = record {
  connection_status = connecting;
  state = start_of_header;
  transmits = puback ∷ [];
  statistics = record { bytes_read = 0; bytes_sent = 14; packets_read = 0; packets_sent = 1 };
  last_io = 0;
  connect = every_minute;
}

abbrev begun : Client
begun = record {
  binding = connecting_binding;
  written = minute_bytes ∷ [];
  decoded = [];
  forwarded = [];
}

begun-run : run willing (new every_minute 0) first_round ≡ ok (begun, go_on)
unfolding run round flush flush_loop new from_connect poll_transmits transmit_in transmit_connect
    record_outbound_packet Packet.length length_of packet_length slice Packet.into_bytes on_event
    send poll_timeout Connect.try_keep_alive Connect.try_variable_header try_offset_variable_header
    try_header slice_from Decode.u16
begun-run = refl

run-Session_example : Follows every_minute begun go_on
run-Session_example = run-Session every_minute 0 willing first_round begun go_on begun-run

run-Finishes_example : run willing (new every_minute 0) first_round ≢ ok (begun, unfinished)
run-Finishes_example = run-Finishes willing (new every_minute 0) begun first_round

-- A client that is connected, with a PUBACK to send.
abbrev online_client : Client
online_client = record begun {
  binding = record connecting_binding { connection_status = connected };
}

pub_ack-length : Packet.length puback ≡ ok 4
unfolding Packet.length length_of packet_length slice Packet.into_bytes
pub_ack-length = refl

one_puback : Measured (puback ∷ [])
one_puback = measured puback 4 pub_ack-length no_packets

flush-Flushed_example :
    (c : Client) × (flow : Flow) × (flush willing online_client ≡ ok (c, flow))
    × Flushed willing online_client c flow (puback ∷ [])
flush-Flushed_example =
    flush-Flushed willing online_client (puback ∷ []) (λ _ _. refl) refl refl one_puback

flush-disconnect_example :
    (c : Client) × (flush willing
        (enqueue online_client (puback ∷ Packet.disconnect Ping.disconnect ∷ []))
      ≡ ok (c, stop disconnected))
    × (c.written ≡ minute_bytes ∷ disconnect_bytes ∷ [])
    × (c.binding.transmits ≡ puback ∷ puback ∷ [])
flush-disconnect_example = flush-disconnect willing online_client (puback ∷ []) (λ _ _. refl) refl

-- A CONNACK that refuses the user.
refusal : Packet.try_from (32 ∷ 2 ∷ 0 ∷ 5 ∷ []) ≡ ok (Packet.conn_ack (ack 0 5))
unfolding Packet.try_from ConnAck.try_from ConnAck.return_code_try_from packet_type_try_from
refusal = refl

connack-Flushed_example :
    (c c' : Client) × (flow : Flow) × (run willing begun
        (quiet (read (32 ∷ 2 ∷ []) true) ∷ quiet (read (0 ∷ 5 ∷ []) true) ∷ [])
      ≡ ok (c, go_on))
    × (c.forwarded ≡ Packet.conn_ack (ack 0 5) ∷ [])
    × (c.written ≡ minute_bytes ∷ [])
    × (flush willing c ≡ ok (c', flow))
    × Flushed willing c c' flow (puback ∷ [])
connack-Flushed_example =
    connack-Flushed willing begun (puback ∷ []) 0 5 60 (λ _ _. refl) refl refl refl one_puback
      every_minute-keep_alive refusal

-- PINGRESP in two reads, with a PUBACK behind it.
split_two_bytes_example :
    (on_event begun 0 (read (208 ∷ []) true)
      ≡ ok (at_state begun (end_of_header (208 ∷ [])), go_on))
    × (on_event (at_state begun (end_of_header (208 ∷ []))) 0 (read (0 ∷ []) true)
        ≡ ok (at_state begun (rest_of_packet (208 ∷ 0 ∷ []) 0), go_on))
    × (on_event (at_state begun (rest_of_packet (208 ∷ 0 ∷ []) 0)) 0 (read (64 ∷ 2 ∷ []) true)
        ≡ ok (at_state begun (rest_of_packet (208 ∷ 0 ∷ []) 0), stop packet_is_empty))
    × (on_event (at_state begun (end_of_header (208 ∷ []))) 0 (read (0 ∷ 64 ∷ []) true) ≡ panic)
split_two_bytes_example = split_two_bytes begun 208 64 0 (64 ∷ 2 ∷ []) true refl

-- The blocking client, woken up for a PUBACK.
abbrev first_turn : List Turn
first_turn = record { queued = []; polled = some (Blocking.publish (puback ∷ []) ∷ []) } ∷ []

abbrev begun_blocking : Blocking.Client
begun_blocking = record { loop = begun; stream = 208 ∷ [] }

first_turn-run :
    Blocking.run 3 willing (Blocking.new every_minute 0 (208 ∷ [])) first_turn
    ≡ ok (begun_blocking, go_on)
unfolding Blocking.run Blocking.turn Blocking.on_events Blocking.on_event Blocking.new flush
    flush_loop new from_connect poll_transmits transmit_in transmit_connect record_outbound_packet
    Packet.length length_of packet_length slice Packet.into_bytes send poll_timeout
    Connect.try_keep_alive Connect.try_variable_header try_offset_variable_header try_header
    slice_from Decode.u16
first_turn-run = refl

run-From_example : Every (From every_minute (λ p. p ≡ puback)) (minute_bytes ∷ [])
run-From_example =
    run-From every_minute (λ p. p ≡ puback) 0 3 (208 ∷ []) willing first_turn begun_blocking go_on
      ((tt, ((refl, tt), tt)), tt) first_turn-run

-- It reads a PUBACK with a byte behind it.
abbrev offered : Blocking.Client
offered = record { loop = begun; stream = frame 64 (0 ∷ 7 ∷ []) ++ (208 ∷ []) }

puback_framed : Packet.try_from (frame 64 (0 ∷ 7 ∷ [])) ≡ ok puback
unfolding Packet.try_from Ack.try_from_as Ack.try_from packet_type_try_from packet_type_eq
    Ack.packet_type groups
puback_framed = refl

read_loop-frame_example :
    (b : MqttBinding) × (read_loop 3 offered true ≡ ok (told offered b puback (208 ∷ []), go_on))
    × Delivered connecting_binding b
read_loop-frame_example =
    read_loop-frame offered 64 (0 ∷ 7 ∷ []) (208 ∷ []) puback refl refl (omega arith) puback_framed

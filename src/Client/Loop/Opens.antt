-- ===== src/Client/Loop/Opens.antt =====
-- src/aio/mod.rs: from the CONNACK of the broker to the packets that wait for it.
use tjiftjaf.Prelude.{
  ℕ, suc, ◌+◌, ◌≡◌, refl, ap, ◌∙◌, arith, [], ◌∷◌, Option, none, some, true, List, length, ◌==◌,
  ◌*◌, if◌then◌else◌, ◌⊎◌, ◌++◌,
}
use tjiftjaf.Result.{Result, ok, ◌>>=◌}
use tjiftjaf.Rust.{Bytes, slice_from, slice}
use tjiftjaf.Decode.{packet_length}
use tjiftjaf.Kinds.{packet_type_eq, packet_type_try_from}
use tjiftjaf.Frame.{length_of, packet_type_of}
use tjiftjaf.Packet
use tjiftjaf.Packet.{Packet}
use tjiftjaf.Packet.ConnAck
use tjiftjaf.Packet.Connect
use tjiftjaf.Binding.{
  MqttBinding, start_of_header, rest_of_packet, get_read_buffer, try_decode, decode_in,
  decode_start, decode_rest, decode_frame, record_inbound_packet, connecting, connected,
  poll_transmits, transmit_in, poll_timeout, ClientDisconnected, from_secs,
}
use tjiftjaf.Client.{answer}
use tjiftjaf.Client.Loop.{
  Socket, Client, Flow, Round, go_on, read, on_event, flush, flush_loop, round, run, on_polled,
  Event, and_wait,
}
use tjiftjaf.Client.Loop.Order.{Flushed, Measured, Accepts, newest_first, flush-Flushed}
use tjiftjaf.Client.Loop.ShortRead.{event-read, buffer_start}

-- The first two bytes of a CONNACK, and the other two.
decode_head :
    (b : MqttBinding)
    → b.state ≡ start_of_header
    → try_decode b (32 ∷ 2 ∷ []) ≡ ok (record b { state = rest_of_packet (32 ∷ 2 ∷ []) 2 }, none)
unfolding try_decode decode_in decode_start slice_from packet_length
decode_head b st = ap (decode_in b (32 ∷ 2 ∷ [])) st

module _ (s k : ℕ) where
  abbrev pub ack : ConnAck.ConnAck
  ack = record { byte_0 = 32; byte_1 = 2; byte_2 = s; byte_3 = k }

  -- The binding that has decoded the CONNACK.
  abbrev greeted : MqttBinding → MqttBinding
  greeted b = record b {
    connection_status = connected;
    state = start_of_header;
    statistics = record b.statistics {
      bytes_read = b.statistics.bytes_read + 4;
      packets_read = b.statistics.packets_read + 1;
    };
  }

  decode_ack :
      (b : MqttBinding)
      → Packet.try_from (32 ∷ 2 ∷ s ∷ k ∷ []) ≡ ok (Packet.conn_ack ack)
      → decode_frame b (32 ∷ 2 ∷ s ∷ k ∷ []) ≡ ok (greeted b, some (Packet.conn_ack ack))
  unfolding decode_frame record_inbound_packet Packet.packet_type Packet.length Packet.into_bytes
      length_of packet_length slice packet_type_of packet_type_eq packet_type_try_from
  decode_ack b e = rw e refl

  decode_tail :
      (b : MqttBinding)
      → b.state ≡ rest_of_packet (32 ∷ 2 ∷ []) 2
      → Packet.try_from (32 ∷ 2 ∷ s ∷ k ∷ []) ≡ ok (Packet.conn_ack ack)
      → try_decode b (s ∷ k ∷ []) ≡ ok (greeted b, some (Packet.conn_ack ack))
  unfolding try_decode decode_in decode_rest
  decode_tail b st e = ap (decode_in b (s ∷ k ∷ [])) st ∙ decode_ack b e

-- A client that waits for its CONNACK writes nothing.
flush_waits :
    (socket : Socket) (c : Client) (rounds : ℕ)
    → c.binding.connection_status ≡ connecting
    → flush_loop (suc rounds) socket c ≡ ok (c, go_on)
unfolding flush_loop poll_transmits transmit_in
flush_waits socket c rounds st =
    ap
      (λ (m : Result (MqttBinding × (ClientDisconnected ⊎ Option Bytes))).
        m >>= λ x. on_polled socket (record c { binding = x.0 }) x.1 (flush_loop rounds socket))
      (ap (transmit_in c.binding (socket.clock c.written)) st)

abbrev pub quiet : Event → Round
quiet event = record { queued = []; event = event }

round_waits :
    (socket : Socket) (c : Client) (t : ℕ) (event : Event)
    → c.binding.connection_status ≡ connecting
    → poll_timeout c.binding ≡ ok t
    → round socket c (quiet event) ≡ on_event c t event
unfolding round flush
round_waits socket c t event st wake =
    let n : ℕ = length c.binding.transmits in
    let two : 2 + n ≡ suc (suc n) = omega arith in
    ap (λ (m : Result (Client × Flow)). m >>= λ x. and_wait x event)
      (ap (λ (rounds : ℕ). flush_loop rounds socket c) two ∙ flush_waits socket c (suc n) st)
    ∙ ap (λ (m : Result ℕ). m >>= λ timeout. on_event c timeout event) wake

timeout_of :
    (b : MqttBinding) (k : ℕ)
    → Connect.keep_alive b.connect ≡ ok k
    → (t : ℕ) × (poll_timeout b ≡ ok t)
unfolding poll_timeout
timeout_of b k e = (b.last_io + from_secs (if k == 0 then 86400 * 365 * 30 else k), rw e refl)

-- A client that has written its CONNECT and reads a CONNACK that `Packet::try_from` accepts, in
-- two reads of two bytes, tells the handle, and then writes every packet that waited for it, up
-- to and with the first DISCONNECT, if the socket takes every write and the packets are
-- measured.
pub connack-Flushed :
    (socket : Socket) (c : Client) (ps : List Packet) (s k keep_alive : ℕ)
    → Accepts socket
    → c.binding.connection_status ≡ connecting
    → c.binding.state ≡ start_of_header
    → c.binding.transmits ≡ newest_first ps
    → Measured ps
    → Connect.keep_alive c.binding.connect ≡ ok keep_alive
    → Packet.try_from (32 ∷ 2 ∷ s ∷ k ∷ []) ≡ ok (Packet.conn_ack (ack s k))
    → (c1 c2 : Client) × (flow : Flow) × (run socket c
          (quiet (read (32 ∷ 2 ∷ []) true) ∷ quiet (read (s ∷ k ∷ []) true) ∷ [])
        ≡ ok (c1, go_on))
      × (c1.forwarded ≡ c.forwarded ++ (Packet.conn_ack (ack s k) ∷ []))
      × (c1.written ≡ c.written)
      × (flush socket c1 ≡ ok (c2, flow))
      × Flushed socket c1 c2 flow ps
unfolding run get_read_buffer answer
connack-Flushed socket c ps s k keep_alive takes st start queue m alive e =
    let (t, wake) = timeout_of c.binding keep_alive alive in
    let b1 : MqttBinding = record c.binding { state = rest_of_packet (32 ∷ 2 ∷ []) 2 } in
    let c1 : Client = record c { binding = b1 } in
    let (t1, wake1) = timeout_of b1 keep_alive alive in
    let p : Packet = Packet.conn_ack (ack s k) in
    let c2 : Client = record c {
      binding = greeted s k b1;
      decoded = c.decoded ++ (p ∷ []);
      forwarded = c.forwarded ++ (p ∷ []);
    } in
    let first : round socket c (quiet (read (32 ∷ 2 ∷ []) true)) ≡ ok (c1, go_on) =
      round_waits socket c t (read (32 ∷ 2 ∷ []) true) st wake
      ∙ event-read c t 2 _ (32 ∷ 2 ∷ []) true _ (buffer_start c.binding start) refl (omega arith)
          (decode_head c.binding start) in
    let second : round socket c1 (quiet (read (s ∷ k ∷ []) true)) ≡ ok (c2, go_on) =
      round_waits socket c1 t1 (read (s ∷ k ∷ []) true) st wake1
      ∙ event-read c1 t1 2 _ (s ∷ k ∷ []) true _ refl refl (omega arith)
          (decode_tail s k b1 refl e) in
    let (c3, flow, flushed, f) = flush-Flushed socket c2 ps takes refl queue m in
    (c2, c3, flow, rw (first, second) refl, refl, refl, flushed, f)

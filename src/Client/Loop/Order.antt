-- ===== src/Client/Loop/Order.antt =====
-- src/aio/mod.rs: what a connected client writes when it sends its pending transmits.
use tjiftjaf.Prelude.{
  ℕ, zero, suc, ◌+◌, ◌<◌, ◌≡◌, refl, sym, ap, ◌∙◌, arith, Bool, true, false, Bool-cases, ◌||◌, ◌⊎◌,
  inl, inr, Option, none, some, List, [], ◌∷◌, ◌++◌, append_assoc, append-nil, length,
  length-append, if◌then◌else◌,
}
use tjiftjaf.Result.{Result, ok, ◌>>=◌}
use tjiftjaf.Rust.{Bytes}
use tjiftjaf.Packet
use tjiftjaf.Packet.{Packet}
use tjiftjaf.Binding
use tjiftjaf.Binding.{
  MqttBinding, ClientDisconnected, client_disconnected, connected, poll_transmits, transmit_in,
  transmit, pop, record_outbound_packet, is_disconnect, send,
}
use tjiftjaf.Binding.Handshake.{pop_append}
use tjiftjaf.Client.Loop.{
  Socket, Client, Flow, go_on, stop, disconnected, io_error, on_polled, flush_loop, flush,
}

-- The order of `pop`: the newest packet first.
abbrev pub newest_first : List Packet → List Packet
newest_first [] = []
newest_first (p ∷ ps) = newest_first ps ++ (p ∷ [])

length-newest_first : (ps : List Packet) → length (newest_first ps) ≡ length ps
length-newest_first [] = refl
length-newest_first (p ∷ ps) =
    length-append (newest_first ps) (p ∷ []) ∙ omega (arith, length-newest_first ps)

-- In that order, what is written, up to and with the first DISCONNECT, and what is left.
abbrev pub written_of : List Packet → List Bytes
written_of [] = []
written_of (p ∷ ps) =
    let rest = written_of ps in Packet.into_bytes p ∷ (if is_disconnect p then [] else rest)

abbrev pub left_of : List Packet → List Packet
left_of [] = []
left_of (p ∷ ps) = let rest = left_of ps in if is_disconnect p then ps else rest

abbrev pub ends_session : List Packet → Bool
ends_session [] = false
ends_session (p ∷ ps) = is_disconnect p || ends_session ps

-- Packets whose `Frame::length` is computed.
pub data Measured : List Packet → Type 0 where
  no_packets : Measured []
  measured :
      {ps : List Packet} (p : Packet) (n : ℕ)
      → Packet.length p ≡ ok n
      → Measured ps
      → Measured (p ∷ ps)

-- A socket that takes every write.
abbrev pub Accepts : Socket → Type 0
Accepts socket = (written : List Bytes) (bytes : Bytes) → socket.write written bytes ≡ true

-- What the loop leaves of a client whose pending transmits are `ps`, the newest first.
pub record Flushed (socket : Socket) (c c' : Client) (flow : Flow) (ps : List Packet) : Type 0 where
  pub written_is : c'.written ≡ c.written ++ written_of ps
  pub queue_is : c'.binding.transmits ≡ newest_first (left_of ps)
  pub flow_is : flow ≡ (
      if ends_session ps
      then (if socket.close c'.written then stop disconnected else stop io_error)
      else go_on)
  pub decoded_is : c'.decoded ≡ c.decoded
  pub forwarded_is : c'.forwarded ≡ c.forwarded

-- The binding after it has transmitted a packet.
abbrev transmitted : MqttBinding → (now : ℕ) → List Packet → Packet → ℕ → MqttBinding
transmitted b now rest p n = record b {
  connection_status = if is_disconnect p then Binding.disconnected else b.connection_status;
  transmits = rest;
  last_io = now;
  statistics = record b.statistics {
    bytes_sent = b.statistics.bytes_sent + n;
    packets_sent = b.statistics.packets_sent + 1;
  };
}

poll_one :
    (b : MqttBinding) (now n : ℕ) (rest : List Packet) (p : Packet)
    → b.connection_status ≡ connected
    → b.transmits ≡ rest ++ (p ∷ [])
    → Packet.length p ≡ ok n
    → poll_transmits b now ≡ ok (transmitted b now rest p n, inr (some (Packet.into_bytes p)))
unfolding poll_transmits transmit_in transmit record_outbound_packet
poll_one b now n rest p st queue size =
    ap (transmit_in b now) st
    ∙ ap (transmit b now) (ap pop queue ∙ pop_append rest p)
    ∙ rw size refl

module _ (socket : Socket) (takes : Accepts socket) where
  abbrev next_round :
      ℕ
      → Client
      → Result (MqttBinding × (ClientDisconnected ⊎ Option Bytes))
      → Result (Client × Flow)
  next_round rounds c m =
      m >>= λ x. on_polled socket (record c { binding = x.0 }) x.1 (flush_loop rounds socket)

  -- The client after it has written a packet.
  abbrev pub wrote : Client → List Packet → Packet → ℕ → Client
  wrote c rest p n = record c {
    binding = transmitted c.binding (socket.clock c.written) rest p n;
    written = c.written ++ (Packet.into_bytes p ∷ []);
  }

  pub write_one :
      (rounds n : ℕ) (c : Client) (rest : List Packet) (p : Packet)
      → c.binding.connection_status ≡ connected
      → c.binding.transmits ≡ rest ++ (p ∷ [])
      → Packet.length p ≡ ok n
      → flush_loop (suc rounds) socket c ≡ flush_loop rounds socket (wrote c rest p n)
  unfolding flush_loop
  write_one rounds n c rest p st queue size =
      ap (next_round rounds c) (poll_one c.binding (socket.clock c.written) n rest p st queue size)
      ∙ rw (takes c.written (Packet.into_bytes p)) refl

  flush_empty :
      (rounds : ℕ) (c : Client)
      → c.binding.connection_status ≡ connected
      → c.binding.transmits ≡ []
      → flush_loop (suc rounds) socket c ≡ ok (c, go_on)
  unfolding flush_loop poll_transmits transmit_in transmit
  flush_empty rounds c st queue =
      let poll : poll_transmits c.binding (socket.clock c.written) ≡ ok (c.binding, inr none) =
        ap (transmit_in c.binding (socket.clock c.written)) st
        ∙ ap (transmit c.binding (socket.clock c.written)) (ap pop queue) in
      ap (next_round rounds c) poll

  pub flush_closed :
      (rounds : ℕ) (c : Client)
      → c.binding.connection_status ≡ Binding.disconnected
      → flush_loop (suc rounds) socket c
        ≡ ok (c, if socket.close c.written then stop disconnected else stop io_error)
  unfolding flush_loop poll_transmits transmit_in
  flush_closed rounds c st =
      let poll : poll_transmits c.binding (socket.clock c.written)
          ≡ ok (c.binding, inl client_disconnected) =
        ap (transmit_in c.binding (socket.clock c.written)) st in
      ap (next_round rounds c) poll

  flush_queue :
      (rounds : ℕ) (c : Client) (ps : List Packet)
      → Measured ps
      → c.binding.connection_status ≡ connected
      → c.binding.transmits ≡ newest_first ps
      → length ps < rounds
      → (c' : Client) × (flow : Flow) × (flush_loop rounds socket c ≡ ok (c', flow))
        × Flushed socket c c' flow ps
  flush_queue zero c ps m st queue fit = absurd (omega arith)
  flush_queue (suc rounds) c [] m st queue fit = (
    c,
    go_on,
    flush_empty rounds c st queue,
    record {
      written_is = sym (append-nil c.written);
      queue_is = queue;
      flow_is = refl;
      decoded_is = refl;
      forwarded_is = refl;
    },
  )
  flush_queue (suc zero) c (p ∷ ps) m st queue fit = absurd (omega arith)
  flush_queue (suc (suc rounds)) c (_ ∷ ps) (measured p n size m) st queue fit =
      let c1 : Client = wrote c (newest_first ps) p n in
      let start = write_one (suc rounds) n c (newest_first ps) p st queue size in
      elim (Bool-cases (is_disconnect p)) [
        | inl d ↦ (
          c1,
          _,
          start ∙ flush_closed rounds c1 (rw d refl),
          record {
            written_is = rw d refl;
            queue_is = rw d refl;
            flow_is = rw d refl;
            decoded_is = refl;
            forwarded_is = refl;
          },
        )
        | inr d ↦
            let (c', flow, e, f) = flush_queue (suc rounds) c1 ps m (rw d st) refl (omega arith) in
            (
              c',
              flow,
              start ∙ e,
              record {
                written_is = rw d (f.written_is ∙ append_assoc c.written _ _);
                queue_is = rw d f.queue_is;
                flow_is = rw d f.flow_is;
                decoded_is = f.decoded_is;
                forwarded_is = f.forwarded_is;
              },
            )
      ]

-- A connected client whose socket takes every write, and whose pending packets are measured,
-- writes them, the newest first, up to and with the first DISCONNECT, and then closes the
-- socket if there was one; it keeps in its queue what comes behind that DISCONNECT.
pub flush-Flushed :
    (socket : Socket) (c : Client) (ps : List Packet)
    → Accepts socket
    → c.binding.connection_status ≡ connected
    → c.binding.transmits ≡ newest_first ps
    → Measured ps
    → (c' : Client) × (flow : Flow) × (flush socket c ≡ ok (c', flow)) × Flushed socket c c' flow ps
unfolding flush
flush-Flushed socket c ps takes st queue m =
    let size : length c.binding.transmits ≡ length ps = ap length queue ∙ length-newest_first ps in
    flush_queue socket takes (2 + length c.binding.transmits) c ps m st queue (omega (arith, size))

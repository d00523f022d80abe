-- ===== src/Client/Loop.antt =====
-- src/aio/mod.rs: `Client::run`, the loop of the async client around its binding. What the
-- socket, the channel to the handle and the clock do is a list of rounds, each with the packets
-- that were queued and with the branch of `select!` that is ready. The socket's answers to
-- writes and the clock are functions of the bytes that were written before.
pub mod Flush
pub mod Ends
pub mod Order
pub mod Disconnect
pub mod Protocol
pub mod Shown
pub mod Refines
pub mod ShortRead
pub mod Opens
use tjiftjaf.Prelude.{
  ℕ, zero, suc, ◌+◌, ◌==◌, if◌then◌else◌, Bool, List, [], ◌∷◌, ◌++◌, Option, none, some, ◌⊎◌, inl,
  inr, length, take,
}
use tjiftjaf.Result.{Result, ok, ◌>>=◌}
use tjiftjaf.Rust.{Bytes}
use tjiftjaf.Packet.{Packet}
use tjiftjaf.Packet.Connect.{Connect}
use tjiftjaf.Binding.{
  MqttBinding, ClientDisconnected, from_connect, send, poll_transmits, poll_timeout, handle_timeout,
  get_read_buffer, try_decode,
}
use tjiftjaf.Client.{answer}

-- Whether a write or the close succeeds, and the instant of the next write.
pub record Socket : Type 0 where
  pub write : (written : List Bytes) → Bytes → Bool
  pub close : (written : List Bytes) → Bool
  pub clock : (written : List Bytes) → ℕ

-- The state of a client, with what it has written to its socket, and what it has decoded and
-- sent to the handle, oldest first.
pub record Client : Type 0 where
  pub binding : MqttBinding
  pub written : List Bytes
  pub decoded : List Packet
  pub forwarded : List Packet

-- What `Client::run` returns: `Ok(())`, an error of the socket, or one of its own three errors.
pub data Exit : Type 0 where
  disconnected : Exit
  io_error : Exit
  packet_is_empty : Exit
  handler_failed : Exit
  channel_failed : Exit

-- A part of the loop goes on, returns from the function, or has no rounds left.
pub data Flow : Type 0 where
  go_on : Flow
  stop : Exit → Flow
  unfinished : Flow

-- `Client::new`, at the instant `now`
unfoldable pub new : Connect → (now : ℕ) → Client
new connect now = record {
  binding = from_connect connect now;
  written = [];
  decoded = [];
  forwarded = [];
}

-- `while let Ok(packet) = receiver.try_recv() { self.binding.send(packet) }`
abbrev pub send_all : MqttBinding → List Packet → MqttBinding
send_all b [] = b
send_all b (packet ∷ queue) = send_all (send b packet) queue

abbrev pub enqueue : Client → List Packet → Client
enqueue c queue = record c { binding = send_all c.binding queue }

-- The `match` on what `poll_transmits` returned; `again` is the next round of the loop.
abbrev pub on_polled :
    Socket
    → Client
    → ClientDisconnected ⊎ Option Bytes
    → (again : Client → Result (Client × Flow)) → Result (Client × Flow)
on_polled socket c (inr (some bytes)) again =
    let next = again (record c { written = c.written ++ (bytes ∷ []) }) in
    if socket.write c.written bytes then next else ok (c, stop io_error)
on_polled socket c (inr none) again = ok (c, go_on)
on_polled socket c (inl _) again =
    ok (c, if socket.close c.written then stop disconnected else stop io_error)

-- The loop that sends all pending transmits.
unfoldable pub flush_loop : (rounds : ℕ) → Socket → Client → Result (Client × Flow)
flush_loop zero socket c = ok (c, unfinished)
flush_loop (suc rounds) socket c = do
  (b, polled) ← poll_transmits c.binding (socket.clock c.written)
  on_polled socket (record c { binding = b }) polled (flush_loop rounds socket)

unfoldable pub flush : Socket → Client → Result (Client × Flow)
flush socket c = flush_loop (2 + length c.binding.transmits) socket c

-- A branch of `select!`: a read of at most as many bytes as the buffer has, with whether the
-- handle takes the packet that comes out; a read that fails; the timer, which fires `late`
-- nanoseconds after the deadline; a packet from the handle; and the handle's end.
pub data Event : Type 0 where
  read : (available : Bytes) (handle_open : Bool) → Event
  read_failed : Event
  timer : (late : ℕ) → Event
  received : Packet → Event
  closed : Event

abbrev pub on_decoded : Client → Bool → MqttBinding × Option Packet → Result (Client × Flow)
on_decoded c handle_open (b, none) = ok (record c { binding = b }, go_on)
on_decoded c handle_open (b, some packet) = do
  answered ← answer b packet
  let c' = record c { binding = answered; decoded = c.decoded ++ (packet ∷ []) }
  ok (
      if handle_open
      then (record c' { forwarded = c.forwarded ++ (packet ∷ []) }, go_on)
      else (c', stop handler_failed))

-- A read of `bytes` into the buffer.
unfoldable pub on_read : Client → Bytes → Bool → Result (Client × Flow)
on_read c bytes handle_open =
    let decode = try_decode c.binding bytes >>= on_decoded c handle_open in
    if length bytes == 0 then ok (c, stop packet_is_empty) else decode

unfoldable pub on_event : Client → (timeout : ℕ) → Event → Result (Client × Flow)
on_event c timeout (read available handle_open) =
    on_read c (take (length (get_read_buffer c.binding)) available) handle_open
on_event c timeout read_failed = ok (c, stop io_error)
on_event c timeout (timer late) = do
  b ← handle_timeout c.binding (timeout + late)
  ok (record c { binding = b }, go_on)
on_event c timeout (received packet) = ok (record c { binding = send c.binding packet }, go_on)
on_event c timeout closed = ok (c, stop channel_failed)

pub record Round : Type 0 where
  pub queued : List Packet
  pub event : Event

abbrev pub and_wait : Client × Flow → Event → Result (Client × Flow)
and_wait (c, go_on) event = poll_timeout c.binding >>= λ timeout. on_event c timeout event
and_wait (c, stop exit) event = ok (c, stop exit)
and_wait (c, unfinished) event = ok (c, unfinished)

-- A round of the loop of `Client::run`
unfoldable pub round : Socket → Client → Round → Result (Client × Flow)
round socket c r = do flushed ← flush socket (enqueue c r.queued); and_wait flushed r.event

abbrev pub and_then : Client × Flow → (Client → Result (Client × Flow)) → Result (Client × Flow)
and_then (c, go_on) next = next c
and_then (c, stop exit) next = ok (c, stop exit)
and_then (c, unfinished) next = ok (c, unfinished)

-- `Client::run`, for the rounds that there are
unfoldable pub run : Socket → Client → List Round → Result (Client × Flow)
run socket c [] = ok (c, go_on)
run socket c (r ∷ rounds) = do
  result ← round socket c r
  and_then result (λ next. run socket next rounds)

-- ===== src/Client/Blocking.antt =====
-- src/blocking/mod.rs: `Client::run`, the loop of the blocking client around its binding, on a
-- list of turns, each with the packets that were queued and the events that `poll` brings. The
-- bytes that the broker sends before it closes the connection are a list.
pub mod Traced
pub mod Enqueued
pub mod Delivers
pub mod Handle
use tjiftjaf.Prelude.{
  ℕ, zero, suc, ◌+◌, ltb, not, if◌then◌else◌, Bool, true, false, List, [], ◌∷◌, ◌++◌, Option, none,
  some, length, take, drop,
}
use tjiftjaf.Result.{Result, ok, ◌>>=◌}
use tjiftjaf.Rust.{Bytes}
use tjiftjaf.Packet.{Packet}
use tjiftjaf.Packet.Connect.{Connect}
use tjiftjaf.Binding.{MqttBinding, poll_timeout, get_read_buffer, try_decode}
use tjiftjaf.Client.Loop
use tjiftjaf.Client.Loop.{
  Socket, Flow, go_on, stop, unfinished, io_error, handler_failed, send_all, enqueue, flush,
}

-- The state of a client: the same as of the async one, and the bytes that are still to come.
pub record Client : Type 0 where
  pub loop : Loop.Client
  pub stream : Bytes

-- `Client::new`, at the instant `now`
unfoldable pub new : Connect → (now : ℕ) → Bytes → Client
new connect now stream = record { loop = Loop.new connect now; stream = stream }

-- The tokens `CLIENT` and `PUBLISH`, and others. With PUBLISH come the packets in the channel;
-- with CLIENT, whether the event is readable and whether the handle takes what is decoded.
pub data Event : Type 0 where
  client : (is_readable handle_open : Bool) → Event
  publish : (queued : List Packet) → Event
  other : Event

-- What the loop that reads a packet does with what was decoded.
abbrev pub on_decoded :
    Client
    → Bool
    → MqttBinding × Option Packet
    → (again : Client → Result (Client × Flow)) → Result (Client × Flow)
on_decoded c handle_open (b, none) again = again (record c { loop = record c.loop { binding = b } })
on_decoded c handle_open (b, some packet) again =
    let heard : Loop.Client = record c.loop {
      binding = b;
      decoded = c.loop.decoded ++ (packet ∷ []);
    } in
    let told : Loop.Client = record heard { forwarded = c.loop.forwarded ++ (packet ∷ []) } in
    ok (
      if handle_open
      then (record c { loop = told }, go_on)
      else (record c { loop = heard }, stop handler_failed))

-- A round of that loop, in which `read_exact` fills the buffer, or fails at the stream's end.
abbrev pub read_round :
    Client
    → (size : ℕ) (handle_open : Bool) → (again : Client → Result (Client × Flow))
    → Result (Client × Flow)
read_round c size handle_open again =
    let rest : Client = record c { stream = drop size c.stream } in
    let decode =
      try_decode c.loop.binding (take size c.stream) >>= λ r. on_decoded rest handle_open r again in
    if ltb (length c.stream) size then ok (record c { stream = [] }, stop io_error) else decode

-- The loop itself, which has no bound of its own: a header that is not decoded keeps it.
unfoldable pub read_loop : (rounds : ℕ) → Client → Bool → Result (Client × Flow)
read_loop zero c handle_open = ok (c, unfinished)
read_loop (suc rounds) c handle_open =
    read_round c (length (get_read_buffer c.loop.binding)) handle_open
      (λ next. read_loop rounds next handle_open)

-- The body of `for event in events.iter()`
unfoldable pub on_event : (rounds : ℕ) → Client → Event → Result (Client × Flow)
on_event rounds c (publish queued) = ok (record c { loop = enqueue c.loop queued }, go_on)
on_event rounds c other = ok (c, go_on)
on_event rounds c (client is_readable handle_open) =
    let readable = read_loop rounds c handle_open in
    if not is_readable then ok (c, go_on) else readable

abbrev pub and_then : Client × Flow → (Client → Result (Client × Flow)) → Result (Client × Flow)
and_then (c, go_on) next = next c
and_then (c, stop exit) next = ok (c, stop exit)
and_then (c, unfinished) next = ok (c, unfinished)

unfoldable pub on_events : (rounds : ℕ) → Client → List Event → Result (Client × Flow)
on_events rounds c [] = ok (c, go_on)
on_events rounds c (event ∷ events) = do
  result ← on_event rounds c event
  and_then result (λ next. on_events rounds next events)

-- A turn, whose `poll` fails or brings events
pub record Turn : Type 0 where
  pub queued : List Packet
  pub polled : Option (List Event)

abbrev pub on_poll : (rounds : ℕ) → Client → Option (List Event) → Result (Client × Flow)
on_poll rounds c none = ok (c, stop io_error)
on_poll rounds c (some events) = on_events rounds c events

unfoldable pub turn : (rounds : ℕ) → Socket → Client → Turn → Result (Client × Flow)
turn rounds socket c t = do
  (flushed, flow) ← flush socket (enqueue c.loop t.queued)
  and_then (record c { loop = flushed }, flow)
      (λ next. poll_timeout next.loop.binding >>= λ timeout. on_poll rounds next t.polled)

-- `Client::run`, for the turns that there are
unfoldable pub run : (rounds : ℕ) → Socket → Client → List Turn → Result (Client × Flow)
run rounds socket c [] = ok (c, go_on)
run rounds socket c (t ∷ turns) = do
  result ← turn rounds socket c t
  and_then result (λ next. run rounds socket next turns)

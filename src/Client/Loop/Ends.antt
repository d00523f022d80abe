-- ===== src/Client/Loop/Ends.antt =====
-- src/aio/mod.rs: no round of `Client::run` is kept by the loop that sends its transmits.
use tjiftjaf.Prelude.{
  ℕ, ◌+◌, ◌≢◌, Bool, true, false, Bool-cases, inl, inr, Option, none, some, List, [], ◌∷◌, ◌++◌,
  length, if◌then◌else◌, take, ◌==◌,
}
use tjiftjaf.Result.{ok}
use tjiftjaf.Rust.{Bytes}
use tjiftjaf.Packet.{Packet}
use tjiftjaf.Binding.{MqttBinding, send, poll_timeout, handle_timeout, get_read_buffer, try_decode}
use tjiftjaf.Client.{answer}
use tjiftjaf.Client.Loop.{
  Socket, Client, Flow, Event, Round, go_on, stop, unfinished, packet_is_empty, handler_failed,
  io_error, channel_failed, read, read_failed, timer, received, closed, on_decoded, on_read,
  on_event, and_wait, and_then, round, run, flush, enqueue,
}
use tjiftjaf.Client.Loop.Flush.{Finishes, bind-Finishes, flow-Finishes, flush-Finishes}

-- Whether the handle takes a packet.
forwards-Finishes :
    (good bad : Client) (handle_open : Bool)
    → Finishes (ok (if handle_open then (good, go_on) else (bad, stop handler_failed)))
forwards-Finishes good bad true = flow-Finishes good go_on (λ e. cc)
forwards-Finishes good bad false = flow-Finishes bad (stop handler_failed) (λ e. cc)

decoded-Finishes :
    (c : Client) (handle_open : Bool) (r : MqttBinding × Option Packet)
    → Finishes (on_decoded c handle_open r)
decoded-Finishes c handle_open (b, none) = flow-Finishes (record c { binding = b }) go_on (λ e. cc)
decoded-Finishes c handle_open (b, some p) = bind-Finishes (answer b p) _ (λ answered _.
    let heard : Client = record c { binding = answered; decoded = c.decoded ++ (p ∷ []) } in
    forwards-Finishes (record heard { forwarded = c.forwarded ++ (p ∷ []) }) heard handle_open)

read-Finishes :
    (c : Client) (bytes : Bytes) (handle_open : Bool) → Finishes (on_read c bytes handle_open)
unfolding on_read
read-Finishes c bytes handle_open = elim (Bool-cases (length bytes == 0)) [
  | inl h ↦ rw h (flow-Finishes c (stop packet_is_empty) (λ e. cc))
  | inr h ↦
      rw h (bind-Finishes (try_decode c.binding bytes) _ (λ r _. decoded-Finishes c handle_open r))
]

event-Finishes : (c : Client) (timeout : ℕ) (event : Event) → Finishes (on_event c timeout event)
unfolding on_event
event-Finishes c timeout (read available handle_open) =
    read-Finishes c (take (length (get_read_buffer c.binding)) available) handle_open
event-Finishes c timeout read_failed = flow-Finishes c (stop io_error) (λ e. cc)
event-Finishes c timeout (timer late) =
    bind-Finishes (handle_timeout c.binding (timeout + late)) _
      (λ b _. flow-Finishes (record c { binding = b }) go_on (λ e. cc))
event-Finishes c timeout (received packet) =
    flow-Finishes (record c { binding = send c.binding packet }) go_on (λ e. cc)
event-Finishes c timeout closed = flow-Finishes c (stop channel_failed) (λ e. cc)

waited-Finishes :
    (c : Client) (flow : Flow) (event : Event)
    → flow ≢ unfinished
    → Finishes (and_wait (c, flow) event)
waited-Finishes c go_on event n =
    bind-Finishes (poll_timeout c.binding) _ (λ timeout _. event-Finishes c timeout event)
waited-Finishes c (stop exit) event n = flow-Finishes c (stop exit) n
waited-Finishes c unfinished event n = flow-Finishes c unfinished n

round-Finishes : (socket : Socket) (c : Client) (r : Round) → Finishes (round socket c r)
unfolding round
round-Finishes socket c r =
    let c0 : Client = enqueue c r.queued in
    bind-Finishes (flush socket c0) _ (λ (x : Client × Flow) e.
      waited-Finishes x.0 x.1 r.event (λ h. flush-Finishes socket c0 x.0 (rw h at e)))

next-Finishes :
    (socket : Socket) (c : Client) (flow : Flow) (rounds : List Round)
    → ((next c' : Client) → run socket next rounds ≢ ok (c', unfinished))
    → flow ≢ unfinished
    → Finishes (and_then (c, flow) (λ next. run socket next rounds))
next-Finishes socket c go_on rounds more n = more c
next-Finishes socket c (stop exit) rounds more n = flow-Finishes c (stop exit) n
next-Finishes socket c unfinished rounds more n = flow-Finishes c unfinished n

-- Whatever the status, the queue and the socket, the loop that sends the pending transmits comes
-- to an end within two rounds more than there are packets, in each round of any run: a run goes
-- on, returns, or panics.
pub run-Finishes :
    (socket : Socket) (c c' : Client) (rounds : List Round)
    → run socket c rounds ≢ ok (c', unfinished)
unfolding run
run-Finishes socket c c' [] = flow-Finishes c go_on (λ e. cc) c'
run-Finishes socket c c' (r ∷ rounds) =
    bind-Finishes (round socket c r) _
      (λ (x : Client × Flow) e.
        next-Finishes socket x.0 x.1 rounds (λ c1 c2. run-Finishes socket c1 c2 rounds)
          (λ h. round-Finishes socket c r x.0 (rw h at e)))
      c'

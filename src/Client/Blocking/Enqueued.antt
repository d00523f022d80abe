-- ===== src/Client/Blocking/Enqueued.antt =====
-- src/blocking/mod.rs: the blocking client writes its CONNECT and what the handle enqueues.
use mathlib.Core.Path.{subst}
use tjiftjaf.Prelude.{
  ℕ, zero, suc, ◌+◌, ◌≡◌, refl, arith, Bool, true, false, Bool-cases, ltb, inl, inr, Option, none,
  some, List, [], ◌∷◌, length, take, drop,
}
use tjiftjaf.Result.{Result, ok, ◌>>=◌, >>=-eq-ok}
use tjiftjaf.Rust.{Bytes}
use tjiftjaf.Packet.{Packet}
use tjiftjaf.Packet.Connect.{Connect}
use tjiftjaf.Binding.{MqttBinding, from_connect, send, poll_timeout, try_decode, get_read_buffer}
use tjiftjaf.Binding.Decoded.{try_decode-transmits, try_decode-connect}
use tjiftjaf.Client.Loop
use tjiftjaf.Client.Loop.{
  Socket, Flow, go_on, stop, unfinished, disconnected, io_error, handler_failed, send_all, enqueue,
  on_polled, flush_loop, flush,
}
use tjiftjaf.Client.Blocking.Traced.{Every, Every-append, From, Traced, moved, flush_loop-Holds}
use tjiftjaf.Client.Blocking.{
  Client, Event, Turn, new, client, publish, other, on_decoded, read_round, read_loop, on_event,
  on_events, and_then, on_poll, turn, run,
}

-- The packets that a turn enqueues have the property.
abbrev pub EventHas : (Packet → Type 0) → Event → Type 0
EventHas P (publish queued) = Every P queued
EventHas P (client _ _) = Unit
EventHas P other = Unit

abbrev pub PollHas : (Packet → Type 0) → Option (List Event) → Type 0
PollHas P none = Unit
PollHas P (some events) = Every (EventHas P) events

abbrev pub TurnHas : (Packet → Type 0) → Turn → Type 0
TurnHas P t = Every P t.queued × PollHas P t.polled

module _ (connect : Connect) (P : Packet → Type 0) where
  abbrev Holds : Result (Client × Flow) → Type 0
  Holds r = (c : Client) (f : Flow) → r ≡ ok (c, f) → Traced connect P c.loop

  of_client :
      (c c' : Client) (f f' : Flow)
      → ◌≡◌ {A = Result (Client × Flow)} (ok (c, f)) (ok (c', f'))
      → c ≡ c'
  of_client c c' f f' e = ground (arith, e)

  holds : (c : Client) (f : Flow) → Traced connect P c.loop → Holds (ok (c, f))
  holds c f t c' f' e = subst (λ (x : Client). Traced connect P x.loop) (of_client c c' f f' e) t

  bind-Holds :
      {A : Type 0} (m : Result A) (next : A → Result (Client × Flow))
      → ((x : A) → m ≡ ok x → Holds (next x))
      → Holds (m >>= next)
  bind-Holds m next h c f e = let (x, me, ne) = >>=-eq-ok m next e in h x me c f ne

  abbrev Continues : (Client → Result (Client × Flow)) → Type 0
  Continues again = (c : Client) → Traced connect P c.loop → Holds (again c)

  then-Holds :
      (c : Client) (f : Flow) (next : Client → Result (Client × Flow))
      → Traced connect P c.loop
      → Continues next
      → Holds (and_then (c, f) next)
  then-Holds c go_on next t more = more c t
  then-Holds c (stop exit) next t more = holds c (stop exit) t
  then-Holds c unfinished next t more = holds c unfinished t

  decoded-Holds :
      (c : Client) (handle_open : Bool) (b : MqttBinding) (o : Option Packet)
      (again : Client → Result (Client × Flow))
      → Continues again
      → Traced connect P (record c.loop { binding = b })
      → Holds (on_decoded c handle_open (b, o) again)
  decoded-Holds c handle_open b none again more t =
      more (record c { loop = record c.loop { binding = b } }) t
  decoded-Holds c true b (some p) again more t =
      holds _ go_on (record { connect_is = t.connect_is; queued = t.queued; written = t.written })
  decoded-Holds c false b (some p) again more t =
      holds _ (stop handler_failed)
        (record { connect_is = t.connect_is; queued = t.queued; written = t.written })

  round-Holds :
      (c : Client) (size : ℕ) (handle_open : Bool) (again : Client → Result (Client × Flow))
      → Continues again
      → Traced connect P c.loop
      → Holds (read_round c size handle_open again)
  round-Holds c size handle_open again more t =
      let bytes : Bytes = take size c.stream in
      elim (Bool-cases (ltb (length c.stream) size)) [
        | inl h ↦ rw h (holds (record c { stream = [] }) (stop io_error) t)
        | inr h ↦ rw h (
            bind-Holds (try_decode c.loop.binding bytes) _ (λ (r : MqttBinding × Option Packet) e.
              decoded-Holds (record c { stream = drop size c.stream }) handle_open r.0 r.1 again
                more
                (moved connect P c.loop r.0 (try_decode-connect c.loop.binding r.0 bytes r.1 e)
                  (rw (try_decode-transmits c.loop.binding r.0 bytes r.1 e) t.queued) t)))
      ]

  read_loop-Holds :
      (rounds : ℕ) (handle_open : Bool) → Continues (λ c. read_loop rounds c handle_open)
  unfolding read_loop
  read_loop-Holds zero handle_open c t = holds c unfinished t
  read_loop-Holds (suc rounds) handle_open c t =
      round-Holds c (length (get_read_buffer c.loop.binding)) handle_open
        (λ next. read_loop rounds next handle_open) (read_loop-Holds rounds handle_open) t

  enqueue-Traced :
      (c : Loop.Client) (queue : List Packet)
      → Every P queue
      → Traced connect P c
      → Traced connect P (enqueue c queue)
  unfolding send
  enqueue-Traced c [] q t = record {
    connect_is = t.connect_is;
    queued = t.queued;
    written = t.written;
  }
  enqueue-Traced c (p ∷ queue) (h, q) t =
      enqueue-Traced (record c { binding = send c.binding p }) queue q
        (record {
          connect_is = t.connect_is;
          queued = Every-append P c.binding.transmits (p ∷ []) t.queued (h, tt);
          written = t.written;
        })

  event-Holds :
      (rounds : ℕ) (c : Client) (event : Event)
      → EventHas P event
      → Traced connect P c.loop
      → Holds (on_event rounds c event)
  unfolding on_event
  event-Holds rounds c (publish queued) h t =
      holds (record c { loop = enqueue c.loop queued }) go_on (enqueue-Traced c.loop queued h t)
  event-Holds rounds c other h t = holds c go_on t
  event-Holds rounds c (client true handle_open) h t = read_loop-Holds rounds handle_open c t
  event-Holds rounds c (client false handle_open) h t = holds c go_on t

  events-Holds :
      (rounds : ℕ) (events : List Event)
      → Every (EventHas P) events
      → Continues (λ c. on_events rounds c events)
  unfolding on_events
  events-Holds rounds [] h c t c' f e = holds c go_on t c' f e
  events-Holds rounds (event ∷ events) (h, hs) c t c' f e =
      let ((c1, f1), e1, e2) = >>=-eq-ok (on_event rounds c event) _ e in
      then-Holds c1 f1 (λ next. on_events rounds next events)
        (event-Holds rounds c event h t c1 f1 e1) (events-Holds rounds events hs) c' f e2

  poll-Holds :
      (rounds : ℕ) (polled : Option (List Event))
      → PollHas P polled
      → Continues (λ c. on_poll rounds c polled)
  poll-Holds rounds none h c t = holds c (stop io_error) t
  poll-Holds rounds (some events) h c t = events-Holds rounds events h c t

  turn-Holds :
      (rounds : ℕ) (socket : Socket) (t : Turn)
      → TurnHas P t
      → Continues (λ c. turn rounds socket c t)
  unfolding turn flush
  turn-Holds rounds socket t (queue_has, poll_has) c traced c' f e =
      let c0 : Loop.Client = enqueue c.loop t.queued in
      let ((flushed, flow), e1, e2) = >>=-eq-ok (flush socket c0) _ e in
      let t1 =
        flush_loop-Holds connect P (2 + length c0.binding.transmits) socket c0
          (enqueue-Traced c.loop t.queued queue_has traced) flushed flow e1 in
      then-Holds (record c { loop = flushed }) flow
        (λ next. poll_timeout next.loop.binding >>= λ timeout. on_poll rounds next t.polled) t1
        (λ next u.
          bind-Holds (poll_timeout next.loop.binding) _
            (λ timeout _. poll-Holds rounds t.polled poll_has next u))
        c' f e2

  run-Holds :
      (rounds : ℕ) (socket : Socket) (turns : List Turn)
      → Every (TurnHas P) turns
      → Continues (λ c. run rounds socket c turns)
  unfolding run
  run-Holds rounds socket [] h c t c' f e = holds c go_on t c' f e
  run-Holds rounds socket (t ∷ turns) (h, hs) c traced c' f e =
      let ((c1, f1), e1, e2) = >>=-eq-ok (turn rounds socket c t) _ e in
      then-Holds c1 f1 (λ next. run rounds socket next turns)
        (turn-Holds rounds socket t h c traced c1 f1 e1) (run-Holds rounds socket turns hs) c' f e2

-- What the blocking client writes is its CONNECT, or a packet that the handle enqueued: any
-- property of all the packets that are enqueued is one of each packet behind the CONNECT that it
-- writes. So it answers no PUBLISH, and writes no PINGREQ of its own.
pub run-From :
    (connect : Connect) (P : Packet → Type 0) (now rounds : ℕ) (stream : Bytes) (socket : Socket)
    (turns : List Turn) (c : Client) (flow : Flow)
    → Every (TurnHas P) turns
    → run rounds socket (new connect now stream) turns ≡ ok (c, flow)
    → Every (From connect P) c.loop.written
unfolding new Loop.new from_connect
run-From connect P now rounds stream socket turns c flow h e =
    let start : Traced connect P (Loop.new connect now) = record {
      connect_is = refl;
      queued = tt;
      written = tt;
    } in
    (run-Holds connect P rounds socket turns h (new connect now stream) start c flow e).written

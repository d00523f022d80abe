-- ===== src/Client/Loop/Refines.antt =====
-- src/aio/mod.rs: each run of `Client::run` is a session of the protocol.
use mathlib.Core.Path.{subst}
use tjiftjaf.Prelude.{
  ℕ, ◌+◌, ◌≡◌, refl, sym, ◌∙◌, Bool, Bool-cases, inl, inr, Option, none, some, List, [], ◌∷◌, ◌++◌,
  length, take, ◌==◌,
}
use tjiftjaf.Result.{Result, ok, >>=-eq-ok}
use tjiftjaf.Rust.{Bytes}
use tjiftjaf.Kinds.{PacketType}
use tjiftjaf.Packet
use tjiftjaf.Packet.{Packet}
use tjiftjaf.Packet.Connect.{Connect}
use tjiftjaf.Binding
use tjiftjaf.Binding.{
  MqttBinding, ConnectionStatus, ClientDisconnected, from_connect, not_connected, connecting,
  connected, send, poll_transmits, poll_timeout, handle_timeout, get_read_buffer, try_decode,
  is_disconnect,
}
use tjiftjaf.Binding.Keeps.{IsConnAck, Reads, Keeps, Keeps-all, handle_timeout-Keeps}
use tjiftjaf.Binding.Decoded.{Decoded, try_decode-Decoded}
use tjiftjaf.Client.{answer}
use tjiftjaf.Client.Loop.{
  Socket, Client, Flow, Event, Round, go_on, stop, unfinished, disconnected, io_error,
  packet_is_empty, handler_failed, channel_failed, read, read_failed, timer, received, closed, new,
  send_all, enqueue, flush, on_decoded, on_read, on_event, and_wait, round, and_then, run,
}
use tjiftjaf.Client.Keeps.{answer-Keeps}
use tjiftjaf.Client.Loop.Shown.{Refines, SomeSession, Shown, shown, kept, flush_loop-Shown}
use tjiftjaf.Client.Loop.Flush.{of_flow}
use tjiftjaf.Client.Loop.Protocol.{Session, Live, initial, reads-Session, greets-Session}

same_some : {A : Type 0} {a a' : A} → some a ≡ some a' → a ≡ a'
same_some e = cc

of_reads : (b b' : MqttBinding) → Reads b b' → Keeps b b'
of_reads b b' r = record { status_is = r.status_is; connect_is = r.connect_is }

no_ack : ¬ IsConnAck none
no_ack (p, same, t) = cc

-- The same of a whole run, which may be over before its first read.
abbrev pub Follows : Connect → Client → Flow → Type 0
Follows connect c go_on = Session connect c.binding.connection_status c.written c.decoded
Follows connect c (stop disconnected) = Session connect Binding.disconnected c.written c.decoded
Follows connect c (stop io_error) = SomeSession connect c
Follows connect c (stop packet_is_empty) = SomeSession connect c
Follows connect c (stop handler_failed) = SomeSession connect c
Follows connect c (stop channel_failed) = SomeSession connect c
Follows connect c unfinished = SomeSession connect c

Shown-Follows :
    (connect : Connect) (c : Client) (f : Flow) → Shown connect c f → Follows connect c f
Shown-Follows connect c go_on (r, live) = r.session
Shown-Follows connect c (stop disconnected) s = s
Shown-Follows connect c (stop io_error) s = s
Shown-Follows connect c (stop packet_is_empty) s = s
Shown-Follows connect c (stop handler_failed) s = s
Shown-Follows connect c (stop channel_failed) s = s
Shown-Follows connect c unfinished s = s

followed :
    (connect : Connect) (c c' : Client) (f f' : Flow)
    → ◌≡◌ {A = Result (Client × Flow)} (ok (c, f)) (ok (c', f'))
    → Follows connect c f
    → Follows connect c' f'
followed connect c c' f f' e s =
    let (same, flow) = of_flow c c' f f' e in
    subst (λ x. Follows connect c' x) flow (subst (λ x. Follows connect x f) same s)

module _ (connect : Connect) where
  Live-Keeps :
      (c : Client) (b : MqttBinding)
      → Keeps c.binding b
      → Live c.binding.connection_status
      → Live b.connection_status
  Live-Keeps c b k live = subst Live (sym k.status_is) live

  -- A client that has decoded a packet.
  heard :
      (c : Client) (b : MqttBinding) (p : Packet)
      → Refines connect c
      → Live c.binding.connection_status
      → Decoded c.binding b (some p)
      → Refines connect (record c { binding = b; decoded = c.decoded ++ (p ∷ []) })
        × Live b.connection_status
  heard c b p r live (inl d) =
      let k : Keeps c.binding b = of_reads c.binding b d in
      (
        record {
          session = rw k.status_is (reads-Session connect _ c.written c.decoded p r.session live);
          connect_is = k.connect_is ∙ r.connect_is;
        },
        Live-Keeps c b k live,
      )
  heard c b p r live (inr g) =
      let (p', same, t) = g.acknowledged in
      let t' : Packet.packet_type p ≡ ok PacketType.conn_ack =
        subst (λ x. Packet.packet_type x ≡ ok PacketType.conn_ack) (sym (same_some same)) t in
      (
        record {
          session =
              rw g.status_is (greets-Session connect _ c.written c.decoded p t' r.session live);
          connect_is = g.connect_is ∙ r.connect_is;
        },
        inr g.status_is,
      )

  Decoded-Shown :
      (c c' : Client) (f : Flow) (b : MqttBinding) (o : Option Packet) (handle_open : Bool)
      → Refines connect c
      → Live c.binding.connection_status
      → Decoded c.binding b o
      → on_decoded c handle_open (b, o) ≡ ok (c', f)
      → Shown connect c' f
  Decoded-Shown c c' f b none handle_open r live (inl d) e =
      let k : Keeps c.binding b = of_reads c.binding b d in
      shown connect (record c { binding = b }) c' go_on f e
        (kept connect c b k r, Live-Keeps c b k live)
  Decoded-Shown c c' f b none handle_open r live (inr g) e = absurd (no_ack g.acknowledged)
  Decoded-Shown c c' f b (some p) handle_open r live d e =
      let c1 : Client = record c { binding = b; decoded = c.decoded ++ (p ∷ []) } in
      let (r1, live1) = heard c b p r live d in
      let (answered, ea, e1) = >>=-eq-ok (answer b p) _ e in
      let k = answer-Keeps b answered p ea in
      let c2 : Client = record c1 { binding = answered } in
      let r2 = kept connect c1 answered k r1 in
      elim (Bool-cases handle_open) [
        | inl h ↦
            shown connect (record c2 { forwarded = c.forwarded ++ (p ∷ []) }) c' go_on f
              (rw h at e1)
              (
                record { session = r2.session; connect_is = r2.connect_is },
                Live-Keeps c1 answered k live1,
              )
        | inr h ↦
            shown connect c2 c' (stop handler_failed) f (rw h at e1)
              (answered.connection_status, r2.session)
      ]

  read-Shown :
      (c c' : Client) (f : Flow) (bytes : Bytes) (handle_open : Bool)
      → Refines connect c
      → Live c.binding.connection_status
      → on_read c bytes handle_open ≡ ok (c', f)
      → Shown connect c' f
  unfolding on_read
  read-Shown c c' f bytes handle_open r live e = elim (Bool-cases (length bytes == 0)) [
    | inl h ↦
        shown connect c c' (stop packet_is_empty) f (rw h at e)
          (c.binding.connection_status, r.session)
    | inr h ↦
        let ((b, o), e1, e2) = >>=-eq-ok (try_decode c.binding bytes) _ (rw h at e) in
        Decoded-Shown c c' f b o handle_open r live (try_decode-Decoded c.binding b bytes o e1) e2
  ]

  event-Shown :
      (c c' : Client) (f : Flow) (timeout : ℕ) (event : Event)
      → Refines connect c
      → Live c.binding.connection_status
      → on_event c timeout event ≡ ok (c', f)
      → Shown connect c' f
  unfolding on_event send
  event-Shown c c' f timeout (read available handle_open) r live e =
      read-Shown c c' f (take (length (get_read_buffer c.binding)) available) handle_open r live e
  event-Shown c c' f timeout read_failed r live e =
      shown connect c c' (stop io_error) f e (c.binding.connection_status, r.session)
  event-Shown c c' f timeout (timer late) r live e =
      let (b, e1, e2) = >>=-eq-ok (handle_timeout c.binding (timeout + late)) _ e in
      let k = handle_timeout-Keeps c.binding b (timeout + late) e1 in
      shown connect (record c { binding = b }) c' go_on f e2
        (kept connect c b k r, Live-Keeps c b k live)
  event-Shown c c' f timeout (received packet) r live e =
      shown connect (record c { binding = send c.binding packet }) c' go_on f e
        (record { session = r.session; connect_is = r.connect_is }, live)
  event-Shown c c' f timeout closed r live e =
      shown connect c c' (stop channel_failed) f e (c.binding.connection_status, r.session)

  send_all-Keeps : (b : MqttBinding) (queue : List Packet) → Keeps b (send_all b queue)
  unfolding send
  send_all-Keeps b [] = Keeps-all b
  send_all-Keeps b (p ∷ queue) =
      let k = send_all-Keeps (send b p) queue in
      record { status_is = k.status_is; connect_is = k.connect_is }

  -- The parts of a round, one behind the other.
  waited-Shown :
      (c c' : Client) (flow f : Flow) (event : Event)
      → Shown connect c flow
      → and_wait (c, flow) event ≡ ok (c', f)
      → Shown connect c' f
  waited-Shown c c' go_on f event (r, live) e =
      let (timeout, _, e1) = >>=-eq-ok (poll_timeout c.binding) _ e in
      event-Shown c c' f timeout event r live e1
  waited-Shown c c' (stop exit) f event s e = shown connect c c' (stop exit) f e s
  waited-Shown c c' unfinished f event s e = shown connect c c' unfinished f e s

  round-Shown :
      (socket : Socket) (c c' : Client) (f : Flow) (r : Round)
      → Refines connect c
      → round socket c r ≡ ok (c', f)
      → Shown connect c' f
  unfolding round flush
  round-Shown socket c c' f r ref e =
      let c0 : Client = enqueue c r.queued in
      let ref0 = kept connect c c0.binding (send_all-Keeps c.binding r.queued) ref in
      let ((c1, flow), e1, e2) = >>=-eq-ok (flush socket c0) _ e in
      waited-Shown c1 c' flow f r.event
        (flush_loop-Shown connect (2 + length c0.binding.transmits) socket c0 c1 flow ref0 e1) e2

  next-Follows :
      (socket : Socket) (c c' : Client) (flow f : Flow) (rounds : List Round)
      → ((c1 : Client)
          → Refines connect c1
          → run socket c1 rounds ≡ ok (c', f)
          → Follows connect c' f)
      → Shown connect c flow
      → and_then (c, flow) (λ next. run socket next rounds) ≡ ok (c', f)
      → Follows connect c' f
  next-Follows socket c c' go_on f rounds more (r, live) e = more c r e
  next-Follows socket c c' (stop exit) f rounds more s e =
      followed connect c c' (stop exit) f e (Shown-Follows connect c (stop exit) s)
  next-Follows socket c c' unfinished f rounds more s e = followed connect c c' unfinished f e s

  run-Follows :
      (socket : Socket) (c c' : Client) (f : Flow) (rounds : List Round)
      → Refines connect c
      → run socket c rounds ≡ ok (c', f)
      → Follows connect c' f
  unfolding run
  run-Follows socket c c' f [] ref e = followed connect c c' go_on f e ref.session
  run-Follows socket c c' f (r ∷ rounds) ref e =
      let ((c1, flow), e1, e2) = >>=-eq-ok (round socket c r) _ e in
      next-Follows socket c1 c' flow f rounds
        (λ c2 ref2 e3. run-Follows socket c2 c' f rounds ref2 e3)
        (round-Shown socket c c1 flow r ref e1) e2

-- Whatever the socket, the broker, the handle and the clock do, a client of `Client::new` keeps
-- to the protocol, as long as it does not panic: its CONNECT is written first, another packet is
-- written only after a CONNACK was decoded, and nothing is written behind a DISCONNECT; the
-- status of the binding is that of the session, and `Ok(())` is returned behind a DISCONNECT
-- only.
pub run-Session :
    (connect : Connect) (now : ℕ) (socket : Socket) (rounds : List Round) (c : Client) (flow : Flow)
    → run socket (new connect now) rounds ≡ ok (c, flow)
    → Follows connect c flow
unfolding new from_connect
run-Session connect now socket rounds c flow e =
    run-Follows connect socket (new connect now) c flow rounds
      (record { session = initial; connect_is = refl }) e

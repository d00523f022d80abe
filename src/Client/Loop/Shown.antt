-- ===== src/Client/Loop/Shown.antt =====
-- src/aio/mod.rs: the loop of `Client::run` that sends all pending transmits keeps to the protocol.
use mathlib.Core.Path.{subst}
use tjiftjaf.Prelude.{
  ℕ, zero, suc, ◌≡◌, sym, ap, ◌∙◌, Bool-cases, ◌⊎◌, inl, inr, Option, some, [], ◌∷◌, ◌++◌,
}
use tjiftjaf.Result.{Result, ok, >>=-eq-ok}
use tjiftjaf.Rust.{Bytes}
use tjiftjaf.Packet
use tjiftjaf.Packet.{Packet}
use tjiftjaf.Packet.Connect.{Connect}
use tjiftjaf.Binding
use tjiftjaf.Binding.{
  MqttBinding, ConnectionStatus, ClientDisconnected, from_connect, not_connected, connecting,
  connected, send, poll_transmits, poll_timeout, handle_timeout, get_read_buffer, try_decode,
  is_disconnect,
}
use tjiftjaf.Binding.Keeps.{Keeps, Keeps-all}
use tjiftjaf.Binding.Poll.{Poll, refused, opened, waits, drained, sent, poll_transmits-Poll}
use tjiftjaf.Client.Loop.{
  Socket, Client, Flow, go_on, stop, unfinished, disconnected, io_error, packet_is_empty,
  handler_failed, channel_failed, on_polled, flush_loop,
}
use tjiftjaf.Client.Loop.Flush.{of_flow}
use tjiftjaf.Client.Loop.Protocol.{Session, Live, opens-Session, sends-Session}

-- A client in the middle of its loop.
pub record Refines (connect : Connect) (c : Client) : Type 0 where
  pub session : Session connect c.binding.connection_status c.written c.decoded
  pub connect_is : c.binding.connect ≡ connect

abbrev pub SomeSession : Connect → Client → Type 0
SomeSession connect c = (status : ConnectionStatus) × Session connect status c.written c.decoded

-- A client behind a part of the loop: in a session that reads, or behind one that ended with a
-- DISCONNECT, or with an error of the socket or of a channel in between.
abbrev pub Shown : Connect → Client → Flow → Type 0
Shown connect c go_on = Refines connect c × Live c.binding.connection_status
Shown connect c (stop disconnected) = Session connect Binding.disconnected c.written c.decoded
Shown connect c (stop io_error) = SomeSession connect c
Shown connect c (stop packet_is_empty) = SomeSession connect c
Shown connect c (stop handler_failed) = SomeSession connect c
Shown connect c (stop channel_failed) = SomeSession connect c
Shown connect c unfinished = SomeSession connect c

module _ (connect : Connect) where
  -- What is shown of a result is shown of an equal one.
  pub shown :
      (c c' : Client) (f f' : Flow)
      → ◌≡◌ {A = Result (Client × Flow)} (ok (c, f)) (ok (c', f'))
      → Shown connect c f
      → Shown connect c' f'
  shown c c' f f' e s =
      let (same, flow) = of_flow c c' f f' e in
      subst (λ x. Shown connect c' x) flow (subst (λ x. Shown connect x f) same s)

  -- A binding that keeps its status and its CONNECT.
  pub kept :
      (c : Client) (b : MqttBinding)
      → Keeps c.binding b
      → Refines connect c
      → Refines connect (record c { binding = b })
  kept c b k r = record {
    session = subst (λ s. Session connect s c.written c.decoded) (sym k.status_is) r.session;
    connect_is = k.connect_is ∙ r.connect_is;
  }

  abbrev Continues : (Client → Result (Client × Flow)) → Type 0
  Continues again =
      (c c' : Client) (f : Flow) → Refines connect c → again c ≡ ok (c', f) → Shown connect c' f

  wrote-Shown :
      (socket : Socket) (c c' : Client) (f : Flow) (bytes : Bytes)
      (again : Client → Result (Client × Flow))
      → Continues again
      → SomeSession connect c
      → Refines connect (record c { written = c.written ++ (bytes ∷ []) })
      → on_polled socket c (inr (some bytes)) again ≡ ok (c', f)
      → Shown connect c' f
  wrote-Shown socket c c' f bytes again more before r e =
      elim (Bool-cases (socket.write c.written bytes)) [
        | inl h ↦ more (record c { written = c.written ++ (bytes ∷ []) }) c' f r (rw h at e)
        | inr h ↦ shown c c' (stop io_error) f (rw h at e) before
      ]

  polled-Shown :
      (socket : Socket) (c c' : Client) (f : Flow) (b : MqttBinding)
      (r : ClientDisconnected ⊎ Option Bytes) (again : Client → Result (Client × Flow))
      → Continues again
      → Refines connect c
      → Poll c.binding b r
      → on_polled socket (record c { binding = b }) r again ≡ ok (c', f)
      → Shown connect c' f
  unfolding Packet.into_bytes
  polled-Shown socket c c' f b r again more ref (refused st same result) e =
      let c1 : Client = record c { binding = b } in
      let over = subst (λ s. Session connect s c.written c.decoded) st ref.session in
      let e0 = sym (ap (λ x. on_polled socket c1 x again) result) ∙ e in
      elim (Bool-cases (socket.close c.written)) [
        | inl h ↦ shown c1 c' (stop disconnected) f (rw h at e0) over
        | inr h ↦ shown c1 c' (stop io_error) f (rw h at e0) (Binding.disconnected, over)
      ]
  polled-Shown socket c c' f b r again more ref (opened st m result) e =
      let c1 : Client = record c { binding = b } in
      wrote-Shown socket c1 c' f _ again more (c.binding.connection_status, ref.session)
        (record {
          session =
              rw (m.status_is, ref.connect_is)
                (opens-Session connect _ c.written c.decoded ref.session st);
          connect_is = m.connect_is ∙ ref.connect_is;
        })
        (sym (ap (λ x. on_polled socket c1 x again) result) ∙ e)
  polled-Shown socket c c' f b r again more ref (waits st same result) e =
      let c1 : Client = record c { binding = b } in
      let e0 = sym (ap (λ x. on_polled socket c1 x again) result) ∙ e in
      let k : Keeps c.binding b = subst (Keeps c.binding) (sym same) (Keeps-all c.binding) in
      shown c1 c' go_on f e0 (kept c b k ref, inl (k.status_is ∙ st))
  polled-Shown socket c c' f b r again more ref (drained st empty same result) e =
      let c1 : Client = record c { binding = b } in
      let e0 = sym (ap (λ x. on_polled socket c1 x again) result) ∙ e in
      let k : Keeps c.binding b = subst (Keeps c.binding) (sym same) (Keeps-all c.binding) in
      shown c1 c' go_on f e0 (kept c b k ref, inr (k.status_is ∙ st))
  polled-Shown socket c c' f b r again more ref (sent rest p st cut m result) e =
      let c1 : Client = record c { binding = b } in
      wrote-Shown socket c1 c' f _ again more (c.binding.connection_status, ref.session)
        (record {
          session = rw m.status_is (sends-Session connect _ c.written c.decoded p ref.session st);
          connect_is = m.connect_is ∙ ref.connect_is;
        })
        (sym (ap (λ x. on_polled socket c1 x again) result) ∙ e)

  pub flush_loop-Shown : (rounds : ℕ) (socket : Socket) → Continues (flush_loop rounds socket)
  unfolding flush_loop
  flush_loop-Shown zero socket c c' f r e =
      shown c c' unfinished f e (c.binding.connection_status, r.session)
  flush_loop-Shown (suc rounds) socket c c' f r e =
      let now = socket.clock c.written in
      let ((b, polled), e1, e2) = >>=-eq-ok (poll_transmits c.binding now) _ e in
      polled-Shown socket c c' f b polled (flush_loop rounds socket)
        (flush_loop-Shown rounds socket) r (poll_transmits-Poll c.binding b now polled e1) e2

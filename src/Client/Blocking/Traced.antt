-- ===== src/Client/Blocking/Traced.antt =====
-- src/blocking/mod.rs: sending the pending transmits writes the CONNECT or what was enqueued.
use mathlib.Core.Path.{subst}
use tjiftjaf.Prelude.{
  ℕ, zero, suc, ◌≡◌, refl, ap, ◌∙◌, Bool-cases, ◌⊎◌, inl, inr, Option, some, List, [], ◌∷◌, ◌++◌,
}
use tjiftjaf.Result.{Result, ok, >>=-eq-ok}
use tjiftjaf.Rust.{Bytes}
use tjiftjaf.Packet
use tjiftjaf.Packet.{Packet}
use tjiftjaf.Packet.Connect
use tjiftjaf.Packet.Connect.{Connect}
use tjiftjaf.Binding.{MqttBinding, ClientDisconnected, poll_transmits}
use tjiftjaf.Binding.Poll.{Poll, refused, opened, waits, drained, sent, poll_transmits-Poll}
use tjiftjaf.Client.Loop
use tjiftjaf.Client.Loop.{
  Socket, Flow, go_on, stop, unfinished, disconnected, io_error, handler_failed, send_all, enqueue,
  on_polled, flush_loop, flush,
}
use tjiftjaf.Client.Loop.Flush.{of_flow}

-- A predicate holds of each element.
abbrev pub Every {ℓ} : {A : Type ℓ} → (A → Type 0) → List A → Type 0
Every P [] = Unit
Every P (x ∷ xs) = P x × Every P xs

pub Every-append :
    {A : Type 0} (P : A → Type 0) (xs ys : List A) → Every P xs → Every P ys → Every P (xs ++ ys)
Every-append P [] ys e h = h
Every-append P (x ∷ xs) ys (p, e) h = (p, Every-append P xs ys e h)

pub Every-front :
    {A : Type 0} (P : A → Type 0) (xs ys : List A) → Every P (xs ++ ys) → Every P xs × Every P ys
Every-front P [] ys e = (tt, e)
Every-front P (x ∷ xs) ys (p, e) = let (f, b) = Every-front P xs ys e in ((p, f), b)

-- The bytes of the client's CONNECT, or of a packet with the property.
abbrev pub From : Connect → (Packet → Type 0) → Bytes → Type 0
From connect P bytes =
    (bytes ≡ Connect.into_bytes connect) ⊎ ((p : Packet) × P p × (bytes ≡ Packet.into_bytes p))

module _ (connect : Connect) (P : Packet → Type 0) where
  -- What the queue and the socket hold comes from the packets with the property.
  pub record Traced (c : Loop.Client) : Type 0 where
    pub connect_is : c.binding.connect ≡ connect
    pub queued : Every P c.binding.transmits
    pub written : Every (From connect P) c.written

  abbrev pub Holds : Result (Loop.Client × Flow) → Type 0
  Holds r = (c : Loop.Client) (f : Flow) → r ≡ ok (c, f) → Traced c

  pub holds : (c : Loop.Client) (f : Flow) → Traced c → Holds (ok (c, f))
  holds c f t c' f' e = subst Traced (of_flow c c' f f' e).0 t

  abbrev pub Continues : (Loop.Client → Result (Loop.Client × Flow)) → Type 0
  Continues again = (c : Loop.Client) → Traced c → Holds (again c)

  write-Holds :
      (socket : Socket) (c : Loop.Client) (bytes : Bytes)
      (again : Loop.Client → Result (Loop.Client × Flow))
      → Continues again
      → Traced c
      → From connect P bytes
      → Holds (on_polled socket c (inr (some bytes)) again)
  write-Holds socket c bytes again more t from =
      let t1 : Traced (record c { written = c.written ++ (bytes ∷ []) }) = record {
        connect_is = t.connect_is;
        queued = t.queued;
        written = Every-append (From connect P) c.written (bytes ∷ []) t.written (from, tt);
      } in
      elim (Bool-cases (socket.write c.written bytes)) [
        | inl h ↦ rw h (more (record c { written = c.written ++ (bytes ∷ []) }) t1)
        | inr h ↦ rw h (holds c (stop io_error) t)
      ]

  -- The same queue, or a part of it
  pub moved :
      (c : Loop.Client) (b : MqttBinding)
      → b.connect ≡ c.binding.connect
      → Every P b.transmits
      → Traced c
      → Traced (record c { binding = b })
  moved c b same q t = record { connect_is = same ∙ t.connect_is; queued = q; written = t.written }

  polled-Holds :
      (socket : Socket) (c : Loop.Client) (b : MqttBinding) (r : ClientDisconnected ⊎ Option Bytes)
      (again : Loop.Client → Result (Loop.Client × Flow))
      → Continues again
      → Traced c
      → Poll c.binding b r
      → Holds (on_polled socket (record c { binding = b }) r again)
  unfolding Packet.into_bytes
  polled-Holds socket c b r again more t (refused st same result) =
      let t1 = moved c b (rw same refl) (rw same t.queued) t in
      elim (Bool-cases (socket.close c.written)) [
        | inl h ↦ rw (result, h) (holds (record c { binding = b }) (stop disconnected) t1)
        | inr h ↦ rw (result, h) (holds (record c { binding = b }) (stop io_error) t1)
      ]
  polled-Holds socket c b r again more t (opened st m result) = rw result (
      write-Holds socket (record c { binding = b }) (Connect.into_bytes c.binding.connect) again
        more (moved c b m.connect_is (rw m.queue_is t.queued) t)
        (inl (ap Connect.into_bytes t.connect_is)))
  polled-Holds socket c b r again more t (waits st same result) =
      rw result
        (holds (record c { binding = b }) go_on (moved c b (rw same refl) (rw same t.queued) t))
  polled-Holds socket c b r again more t (drained st empty same result) =
      rw result
        (holds (record c { binding = b }) go_on (moved c b (rw same refl) (rw same t.queued) t))
  polled-Holds socket c b r again more t (sent rest p st cut m result) =
      let (front, last) = Every-front P rest (p ∷ []) (rw cut at t.queued) in
      rw result (
        write-Holds socket (record c { binding = b }) (Packet.into_bytes p) again more
          (moved c b m.connect_is (rw m.queue_is front) t) (inr (p, last.0, refl)))

  pub flush_loop-Holds :
      (rounds : ℕ) (socket : Socket) (c : Loop.Client)
      → Traced c
      → Holds (flush_loop rounds socket c)
  unfolding flush_loop
  flush_loop-Holds zero socket c t c' f e = holds c unfinished t c' f e
  flush_loop-Holds (suc rounds) socket c t c' f e =
      let now = socket.clock c.written in
      let ((b, polled), e1, e2) = >>=-eq-ok (poll_transmits c.binding now) _ e in
      polled-Holds socket c b polled (flush_loop rounds socket)
        (λ next u. flush_loop-Holds rounds socket next u) t
        (poll_transmits-Poll c.binding b now polled e1) c' f e2

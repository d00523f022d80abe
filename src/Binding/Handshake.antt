-- ===== src/Binding/Handshake.antt =====
-- src/lib.rs: what a binding transmits, over any sequence of calls.
use mathlib.Core.Path.{subst}
use tjiftjaf.Prelude.{
  ℕ, ◌+◌, ◌≡◌, refl, sym, ap, ◌∙◌, ◌⊎◌, inl, inr, Bool, true, false, List, [], ◌∷◌, ◌++◌, Option,
  none, some, if◌then◌else◌,
}
use tjiftjaf.Result.{ok, >>=-eq-ok}
use tjiftjaf.Rust.{Bytes}
use tjiftjaf.Packet
use tjiftjaf.Packet.{Packet}
use tjiftjaf.Packet.Connect
use tjiftjaf.Packet.Connect.{Connect}
use tjiftjaf.Binding.{
  MqttBinding, ClientDisconnected, not_connected, connecting, connected, disconnected, from_connect,
  send, handle_timeout, poll_transmits, transmit_in, transmit_connect, transmit, pop, try_decode,
  client_disconnected, record_outbound_packet, is_disconnect,
}
use tjiftjaf.Binding.Keeps.{IsConnAck, Keeps, of_ok, try_decode-Keeps, handle_timeout-Keeps}

pub pop_append {ℓ} : {A : Type ℓ} (xs : List A) (x : A) → pop (xs ++ (x ∷ [])) ≡ some (xs, x)
pop_append [] x = refl
pop_append (y ∷ ys) x = rw (pop_append ys x)

-- While connected, the packet that was sent last, if its length can be computed, is transmitted
-- first, and it leaves the others as they were; a DISCONNECT ends the connection.
pub poll_transmits-send :
    (b : MqttBinding) (packet : Packet) (now n : ℕ)
    → b.connection_status ≡ connected
    → Packet.length packet ≡ ok n
    → poll_transmits (send b packet) now
      ≡ ok (
        record b {
          connection_status = if is_disconnect packet then disconnected else connected;
          last_io = now;
          statistics = record b.statistics {
            bytes_sent = b.statistics.bytes_sent + n;
            packets_sent = b.statistics.packets_sent + 1;
          };
        },
        inr (some (Packet.into_bytes packet)),
      )
unfolding poll_transmits send transmit_in transmit record_outbound_packet
poll_transmits-send b packet now n st e =
    ap (transmit_in (send b packet) now) st
    ∙ ap (transmit (send b packet) now) (pop_append b.transmits packet)
    ∙ rw (e, st) refl

-- The calls of a client on the binding that it made for `connect`, with what they transmit;
-- `acked` says whether a CONNACK was decoded.
pub data Run (connect : Connect) : (acked : Bool) → List Bytes → MqttBinding → Type 0 where
  start : (now : ℕ) → Run connect false [] (from_connect connect now)
  enqueued :
      {acked : Bool} {out : List Bytes} {b : MqttBinding} (p : Packet)
      → Run connect acked out b
      → Run connect acked out (send b p)
  timeout :
      {acked : Bool} {out : List Bytes} {b b' : MqttBinding} (now : ℕ)
      → handle_timeout b now ≡ ok b'
      → Run connect acked out b
      → Run connect acked out b'
  idle :
      {acked : Bool} {out : List Bytes} {b b' : MqttBinding} (now : ℕ)
      → poll_transmits b now ≡ ok (b', inr none)
      → Run connect acked out b
      → Run connect acked out b'
  refused :
      {acked : Bool} {out : List Bytes} {b b' : MqttBinding} (now : ℕ)
      → poll_transmits b now ≡ ok (b', inl client_disconnected)
      → Run connect acked out b
      → Run connect acked out b'
  transmitted :
      {acked : Bool} {out : List Bytes} {b b' : MqttBinding} (now : ℕ) (bytes : Bytes)
      → poll_transmits b now ≡ ok (b', inr (some bytes))
      → Run connect acked out b
      → Run connect acked (out ++ (bytes ∷ [])) b'
  decoded :
      {acked : Bool} {out : List Bytes} {b b' : MqttBinding} (buf : Bytes) (o : Option Packet)
      → try_decode b buf ≡ ok (b', o)
      → (¬ IsConnAck o)
      → Run connect acked out b
      → Run connect acked out b'
  acknowledged :
      {acked : Bool} {out : List Bytes} {b b' : MqttBinding} (buf : Bytes) (o : Option Packet)
      → try_decode b buf ≡ ok (b', o)
      → IsConnAck o
      → Run connect acked out b
      → Run connect true out b'

-- Before a CONNACK a binding has transmitted nothing, or its CONNECT.
abbrev pub Opening : Connect → List Bytes → MqttBinding → Type 0
Opening connect out b =
    (b.connect ≡ connect)
    × (((out ≡ []) × (b.connection_status ≡ not_connected))
        ⊎ ((out ≡ Connect.into_bytes connect ∷ []) × (b.connection_status ≡ connecting)))

Keeps-Opening :
    (c : Connect) (out : List Bytes) (b b' : MqttBinding)
    → Keeps b b'
    → Opening c out b
    → Opening c out b'
Keeps-Opening c out b b' k (e, inl (s, st)) = (k.connect_is ∙ e, inl (s, k.status_is ∙ st))
Keeps-Opening c out b b' k (e, inr (s, st)) = (k.connect_is ∙ e, inr (s, k.status_is ∙ st))

-- What `poll_transmits` does before a CONNACK.
abbrev sent_with : List Bytes → ClientDisconnected ⊎ Option Bytes → List Bytes
sent_with out (inl _) = out
sent_with out (inr none) = out
sent_with out (inr (some bytes)) = out ++ (bytes ∷ [])

poll_transmits-Opening :
    (c : Connect) (out : List Bytes) (b b' : MqttBinding) (now : ℕ)
    (r : ClientDisconnected ⊎ Option Bytes)
    → poll_transmits b now ≡ ok (b', r)
    → Opening c out b
    → Opening c (sent_with out r) b'
unfolding poll_transmits transmit_in transmit_connect Packet.into_bytes
poll_transmits-Opening c out b b' now r e (ec, inl (s, st)) =
    let e0 = sym (ap (transmit_in b now) st) ∙ e in
    let (stats, _, e1) =
      >>=-eq-ok (record_outbound_packet b.statistics (Packet.connect b.connect)) _ e0 in
    let b1 : MqttBinding = record b {
      connection_status = connecting;
      last_io = now;
      statistics = stats;
    } in
    let (same, result) = of_ok b1 b' _ r e1 in
    let bytes : out ++ (Connect.into_bytes b.connect ∷ []) ≡ Connect.into_bytes c ∷ [] =
      rw (s, ec) refl in
    let opened : Opening c (out ++ (Connect.into_bytes b.connect ∷ [])) b1 =
      (ec, inr (bytes, refl)) in
    subst (λ m. Opening c (sent_with out r) m) same
      (subst (λ x. Opening c (sent_with out x) b1) result opened)
poll_transmits-Opening c out b b' now r e (ec, inr (s, st)) =
    let e0 = sym (ap (transmit_in b now) st) ∙ e in
    let (same, result) = of_ok b b' _ r e0 in
    subst (λ m. Opening c (sent_with out r) m) same
      (subst (λ x. Opening c (sent_with out x) b) result (ec, inr (s, st)))

opening :
    (c : Connect) (acked : Bool) (out : List Bytes) (b : MqttBinding)
    → Run c acked out b
    → acked ≡ false
    → Opening c out b
unfolding from_connect send
opening c _ _ _ (start now) h = (refl, inl (refl, refl))
opening c acked out _ (enqueued p run) h =
    let (ec, rest) = opening c acked out _ run h in (ec, rest)
opening c acked out b' (timeout now e run) h =
    Keeps-Opening c out _ b' (handle_timeout-Keeps _ b' now e) (opening c acked out _ run h)
opening c acked out b' (idle now e run) h =
    poll_transmits-Opening c out _ b' now _ e (opening c acked out _ run h)
opening c acked out b' (refused now e run) h =
    poll_transmits-Opening c out _ b' now _ e (opening c acked out _ run h)
opening c acked _ b' (transmitted now bytes e run) h =
    poll_transmits-Opening c _ _ b' now _ e (opening c acked _ _ run h)
opening c acked out b' (decoded buf o e quiet run) h =
    Keeps-Opening c out _ b' (try_decode-Keeps _ b' buf o e quiet) (opening c acked out _ run h)
opening c _ out b' (acknowledged buf o e shown run) h = cc

-- As long as no CONNACK was decoded, whatever calls are made, a binding has transmitted
-- nothing and is not connected, or has transmitted its CONNECT alone and waits.
pub Run-Opening :
    (c : Connect) (out : List Bytes) (b : MqttBinding) → Run c false out b → Opening c out b
Run-Opening c out b run = opening c false out b run refl

-- ===== src/Binding/Poll.antt =====
-- src/lib.rs: what `poll_transmits` does, by the status of the connection.
use mathlib.Core.Path.{subst}
use tjiftjaf.Prelude.{
  ℕ, ◌≡◌, refl, sym, ap, ◌∙◌, if◌then◌else◌, ◌⊎◌, inl, inr, Option, none, some, List, [], ◌∷◌, ◌++◌,
}
use tjiftjaf.Result.{ok, >>=-eq-ok}
use tjiftjaf.Rust.{Bytes}
use tjiftjaf.Packet
use tjiftjaf.Packet.{Packet}
use tjiftjaf.Binding.{
  MqttBinding, ConnectionStatus, ClientDisconnected, client_disconnected, not_connected, connecting,
  connected, disconnected, poll_transmits, transmit_in, transmit_connect, transmit, pop,
  record_outbound_packet, is_disconnect,
}
use tjiftjaf.Binding.Handshake.{pop_append}
use tjiftjaf.Binding.Keeps.{of_ok}

-- A list is empty or ends in an element.
ends :
    {A : Type 0} (xs : List A)
    → (xs ≡ []) ⊎ ((rest : List A) × (last : A) × (xs ≡ rest ++ (last ∷ [])))
ends [] = inl refl
ends (x ∷ xs) = elim (ends xs) [
  | inl e ↦ inr ([], x, ap (λ (l : List _). x ∷ l) e)
  | inr (rest, last, e) ↦ inr (x ∷ rest, last, ap (λ (l : List _). x ∷ l) e)
]

-- A change of a binding that touches its status, its queue, its clock and its statistics only.
pub record Moves (b b' : MqttBinding) (status : ConnectionStatus) (queue : List Packet)
    : Type 0 where
  pub status_is : b'.connection_status ≡ status
  pub queue_is : b'.transmits ≡ queue
  pub state_is : b'.state ≡ b.state
  pub connect_is : b'.connect ≡ b.connect

-- The cases of `poll_transmits`.
pub data Poll (b b' : MqttBinding) (r : ClientDisconnected ⊎ Option Bytes) : Type 0 where
  refused : b.connection_status ≡ disconnected → b' ≡ b → r ≡ inl client_disconnected → Poll b b' r
  opened :
      b.connection_status ≡ not_connected
      → Moves b b' connecting b.transmits
      → r ≡ inr (some (Packet.into_bytes (Packet.connect b.connect)))
      → Poll b b' r
  waits : b.connection_status ≡ connecting → b' ≡ b → r ≡ inr none → Poll b b' r
  drained : b.connection_status ≡ connected → b.transmits ≡ [] → b' ≡ b → r ≡ inr none → Poll b b' r
  sent :
      (rest : List Packet) (p : Packet)
      → b.connection_status ≡ connected
      → b.transmits ≡ rest ++ (p ∷ [])
      → Moves b b' (if is_disconnect p then disconnected else b.connection_status) rest
      → r ≡ inr (some (Packet.into_bytes p))
      → Poll b b' r

opens :
    (b b' : MqttBinding) (now : ℕ) (r : ClientDisconnected ⊎ Option Bytes)
    → b.connection_status ≡ not_connected
    → transmit_connect b now ≡ ok (b', r)
    → Poll b b' r
unfolding transmit_connect
opens b b' now r st e =
    let (s, _, e1) =
      >>=-eq-ok (record_outbound_packet b.statistics (Packet.connect b.connect)) _ e in
    let b1 : MqttBinding = record b {
      connection_status = connecting;
      last_io = now;
      statistics = s;
    } in
    let (same, result) = of_ok b1 b' _ r e1 in
    let moved : Moves b b1 connecting b.transmits = record {
      status_is = refl;
      queue_is = refl;
      state_is = refl;
      connect_is = refl;
    } in
    opened st (subst (λ m. Moves b m connecting b.transmits) same moved) (sym result)

sends :
    (b b' : MqttBinding) (now : ℕ) (r : ClientDisconnected ⊎ Option Bytes)
    → b.connection_status ≡ connected
    → transmit b now (pop b.transmits) ≡ ok (b', r)
    → Poll b b' r
unfolding transmit
sends b b' now r st e = elim (ends b.transmits) [
  | inl none_left ↦
      let e0 = sym (ap (transmit b now) (ap pop none_left)) ∙ e in
      let (same, result) = of_ok b b' _ r e0 in drained st none_left (sym same) (sym result)
  | inr (rest, p, cut) ↦
      let e0 = sym (ap (transmit b now) (ap pop cut ∙ pop_append rest p)) ∙ e in
      let (s, _, e1) = >>=-eq-ok (record_outbound_packet b.statistics p) _ e0 in
      let b1 : MqttBinding = record b {
        connection_status = if is_disconnect p then disconnected else b.connection_status;
        transmits = rest;
        last_io = now;
        statistics = s;
      } in
      let (same, result) = of_ok b1 b' _ r e1 in
      let status = if is_disconnect p then disconnected else b.connection_status in
      let moved : Moves b b1 status rest = record {
        status_is = refl;
        queue_is = refl;
        state_is = refl;
        connect_is = refl;
      } in
      sent rest p st cut (subst (λ m. Moves b m status rest) same moved) (sym result)
]

polls :
    (b b' : MqttBinding) (now : ℕ) (r : ClientDisconnected ⊎ Option Bytes)
    (status : ConnectionStatus)
    → b.connection_status ≡ status
    → transmit_in b now status ≡ ok (b', r)
    → Poll b b' r
unfolding transmit_in
polls b b' now r disconnected st e =
    let (same, result) = of_ok b b' _ r e in refused st (sym same) (sym result)
polls b b' now r not_connected st e = opens b b' now r st e
polls b b' now r connecting st e =
    let (same, result) = of_ok b b' _ r e in waits st (sym same) (sym result)
polls b b' now r connected st e = sends b b' now r st e

-- What `poll_transmits` returns without a panic, and what it does to the binding.
pub poll_transmits-Poll :
    (b b' : MqttBinding) (now : ℕ) (r : ClientDisconnected ⊎ Option Bytes)
    → poll_transmits b now ≡ ok (b', r)
    → Poll b b' r
unfolding poll_transmits
poll_transmits-Poll b b' now r e = polls b b' now r b.connection_status refl e

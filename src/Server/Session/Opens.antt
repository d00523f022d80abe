-- ===== src/Server/Session/Opens.antt =====
-- src/aio/server.rs: how `on_new_connection` opens the session of a client.
use tjiftjaf.Prelude.{
  ℕ, ◌≤◌, ◌≡◌, refl, ap, ◌∙◌, Bool, true, false, List, [], ◌∷◌, ◌++◌, some, length,
}
use tjiftjaf.Result.{Result, ok, ◌>>=◌}
use tjiftjaf.Rust.{Bytes}
use tjiftjaf.Frame.Layout.{max_body, frame}
use tjiftjaf.Packet
use tjiftjaf.Packet.{Packet}
use tjiftjaf.Packet.ConnAck
use tjiftjaf.Packet.Connect
use tjiftjaf.Packet.Connect.{Connect}
use tjiftjaf.Packet.Connect.Verified.{connect-Readable}
use tjiftjaf.Packet.Decoder.{try_from-connect}
use tjiftjaf.Server.Read.{read_packet-frame}
use tjiftjaf.Server.Table.{Message, register}
use tjiftjaf.Server.Session.{
  Client, Event, failed, io_error, server_error, run_loop, run, on_first, on_first_packet,
  on_new_connection,
}

-- The bytes of the CONNACK that accepts a connection.
abbrev pub acceptance : Bytes
acceptance = 32 ∷ 2 ∷ 0 ∷ 0 ∷ []

module _ {Sender : Type 0} where
  -- The client behind its CONNECT, with what it was sent and what the server took from it.
  abbrev pub opened : Connect → Bytes → List Bytes → List (Message Sender) → Client Sender
  opened connect stream sent funnelled = record {
    connect = connect;
    stream = stream;
    sent = sent;
    funnelled = funnelled;
  }

  -- The first packet is the frame at the front of the stream.
  on_new_connection-first :
      (first : ℕ) (body rest : Bytes) (p : Packet) (sender : Sender) (funnel_open written : Bool)
      (events : List Event)
      → length body ≤ max_body
      → Packet.try_from (frame first body) ≡ ok p
      → on_new_connection (frame first body ++ rest) sender funnel_open written events
        ≡ on_first_packet p rest sender funnel_open written events
  unfolding on_new_connection
  on_new_connection-first first body rest p sender funnel_open written events fit accepted =
      ap (λ r. on_first r sender funnel_open written events)
        (read_packet-frame first body rest fit
          ∙ ap (λ (r : Result Packet). some (r, rest)) accepted)

  -- What `on_first_packet` does with a CONNECT that has the client id `id`.
  opens :
      (c : Connect) (id rest : Bytes) (sender : Sender) (events : List Event)
      → Connect.client_id c ≡ ok id
      → (on_first_packet (Packet.connect c) rest sender true true events ≡ (
          run_loop (opened c rest (acceptance ∷ []) (register id sender ∷ [])) events >>= λ end.
          ok (some (end.0), end.1)))
        × (on_first_packet (Packet.connect c) rest sender false true events
            ≡ ok (some (opened c rest (acceptance ∷ []) []), failed server_error))
        × ((funnel_open : Bool)
            → on_first_packet (Packet.connect c) rest sender funnel_open false events
              ≡ ok (some (opened c rest [] []), failed io_error))
  unfolding on_first_packet run Packet.into_bytes ConnAck.build
  opens c id rest sender events e = (rw e refl, rw e refl, λ _. rw e refl)

  -- Where a connection starts with a frame with a length of up to four bytes that
  -- `Packet::try_from` accepts as a CONNECT, that has a client id. The client is sent a CONNACK
  -- that accepts it, the server is sent the registration of its name with the sender of its
  -- channel, and the loop of the session serves what follows the frame. Where the server is gone
  -- the session ends with an error behind the CONNACK, and where the socket does not take the
  -- CONNACK the server hears of nothing.
  pub on_new_connection-connect :
      (first : ℕ) (body rest : Bytes) (c : Connect) (sender : Sender) (events : List Event)
      → length body ≤ max_body
      → Packet.try_from (frame first body) ≡ ok (Packet.connect c)
      → (id : Bytes) × (Connect.client_id c ≡ ok id)
        × (on_new_connection (frame first body ++ rest) sender true true events ≡ (
            run_loop (opened c rest (acceptance ∷ []) (register id sender ∷ [])) events >>= λ end.
            ok (some (end.0), end.1)))
        × (on_new_connection (frame first body ++ rest) sender false true events
            ≡ ok (some (opened c rest (acceptance ∷ []) []), failed server_error))
        × ((funnel_open : Bool)
            → on_new_connection (frame first body ++ rest) sender funnel_open false events
              ≡ ok (some (opened c rest [] []), failed io_error))
  on_new_connection-connect first body rest c sender events fit accepted =
      let getters =
        connect-Readable (frame first body) c (try_from-connect (frame first body) c accepted) in
      let (id, e) = getters.client_id in
      let (both, closed, broken) = opens c id rest sender events e in
      let first_read = λ (funnel_open written : Bool).
        on_new_connection-first first body rest (Packet.connect c) sender funnel_open written events
          fit accepted in
      (
        id,
        e,
        first_read true true ∙ both,
        first_read false true ∙ closed,
        λ funnel_open. first_read funnel_open false ∙ broken funnel_open,
      )

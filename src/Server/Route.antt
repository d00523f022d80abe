-- ===== src/Server/Route.antt =====
-- src/aio/server.rs and src/lib.rs: the way of a PUBLISH from one client, through the server, to
-- the binding of another.
use tjiftjaf.Prelude.{ℕ, ◌≤◌, ◌≡◌, refl, ◌∙◌, arith, Bool, true, List, [], ◌∷◌, ◌++◌, some, length}
use tjiftjaf.Result.{ok}
use tjiftjaf.Rust.{Bytes}
use tjiftjaf.Frame.Layout.{max_body, frame}
use tjiftjaf.Packet
use tjiftjaf.Packet.{Packet}
use tjiftjaf.Packet.Connect
use tjiftjaf.Packet.Publish
use tjiftjaf.Packet.Publish.{Publish}
use tjiftjaf.Packet.RoundTrip.{try_from-into_bytes}
use tjiftjaf.Binding.{MqttBinding, start_of_header, receive}
use tjiftjaf.Binding.Receive.{receive-frame, Delivered}
use tjiftjaf.Binding.Rounds.{max_three}
use tjiftjaf.Server.Table.{Subscriber, packet, handle_client_message, addressed}
use tjiftjaf.Server.Table.Deliver.{Distinct, filter, stays, reached, senders, on_publish_lem}
use tjiftjaf.Server.Session.{Client, readable, outbound, go_on, on_packet, on_event}
use tjiftjaf.Server.Session.Answers.{on_event-frame, drop_read_packet-none}

module _ {Sender : Type 0} where
  -- The publisher's session hands the PUBLISH to the server.
  forwards :
      (c : Client Sender) (first : ℕ) (body rest name : Bytes) (p : Publish)
      → c.stream ≡ frame first body ++ rest
      → length body ≤ max_body
      → Packet.try_from (frame first body) ≡ ok (Packet.publish p)
      → Connect.client_id c.connect ≡ ok name
      → on_event c (readable true true)
        ≡ ok (
          record c {
            stream = rest;
            funnelled = c.funnelled ++ (packet name (Packet.publish p) ∷ []);
          },
          go_on,
        )
  unfolding on_packet
  forwards c first body rest name p e fit accepted en =
      on_event-frame c first body rest (Packet.publish p) true true e fit accepted ∙ rw en refl

  -- The subscriber's session writes the bytes of the frame.
  writes :
      (d : Client Sender) (first : ℕ) (body : Bytes) (p : Publish)
      → Packet.try_from (frame first body) ≡ ok (Packet.publish p)
      → on_event d (outbound (Packet.publish p) 0 0 true)
        ≡ ok (record d { sent = d.sent ++ (frame first body ∷ []) }, go_on)
  unfolding on_event
  writes d first body p accepted =
      rw
        (
          try_from-into_bytes (frame first body) (Packet.publish p) accepted,
          drop_read_packet-none d.stream,
        )
        refl

  -- A frame with a length of up to three bytes that `Packet::try_from` accepts as a PUBLISH, in
  -- front of the stream of a session with a client id, whose server takes the message: the session hands it to the server; the
  -- server, where no client has two entries in its table, sends it to the connected clients with
  -- a subscription that matches its topic, and to no one else; the session of any of these, whose socket takes the bytes and that has not begun to read, writes
  -- the frame unchanged; and a binding at the start of a header that is fed with it, whatever
  -- follows, delivers the same PUBLISH.
  pub publish-Delivered :
      (c d : Client Sender) (b : MqttBinding) (delivers : Sender → Bool)
      (table : List (Subscriber Sender)) (first : ℕ) (body rest more name topic : Bytes)
      (p : Publish)
      → c.stream ≡ frame first body ++ rest
      → length body ≤ max_three
      → Packet.try_from (frame first body) ≡ ok (Packet.publish p)
      → Connect.client_id c.connect ≡ ok name
      → Publish.topic p ≡ ok topic
      → Distinct table
      → b.state ≡ start_of_header
      → (on_event c (readable true true)
          ≡ ok (
            record c {
              stream = rest;
              funnelled = c.funnelled ++ (packet name (Packet.publish p) ∷ []);
            },
            go_on,
          ))
        × (handle_client_message delivers (packet name (Packet.publish p)) table
            ≡ ok (
              filter (stays delivers topic) table,
              addressed (Packet.publish p) (senders (filter (reached delivers topic) table)),
            ))
        × (on_event d (outbound (Packet.publish p) 0 0 true)
            ≡ ok (record d { sent = d.sent ++ (frame first body ∷ []) }, go_on))
        × (b' : MqttBinding) × (receive 3 b (frame first body ++ more)
            ≡ ok (b', some (Packet.publish p), more))
        × Delivered b b'
  unfolding handle_client_message
  publish-Delivered c d b delivers table first body rest more name topic p e fit accepted en et
        distinct start =
      let (b', received, kept) =
        receive-frame b first body more (Packet.publish p) start fit accepted in
      (
        forwards c first body rest name p e (omega arith) accepted en,
        on_publish_lem delivers topic p table et distinct,
        writes d first body p accepted,
        b',
        received,
        kept,
      )

-- ===== src/Shorthand/Granted.antt =====
-- src/lib.rs and src/aio/server.rs: a SUBSCRIBE of the function `subscribe`, and the server.
use tjiftjaf.Prelude.{
  ℕ, ◌%◌, ◌^◌, ◌≤◌, ◌≡◌, refl, ap, ◌∙◌, arith, Bool, true, some, List, [], ◌∷◌, ◌++◌, length,
  length-append,
}
use tjiftjaf.Result.{ok}
use tjiftjaf.Rust.{Bytes, IsU16, to_be_bytes}
use tjiftjaf.Rust.Utf8.{IsStr}
use tjiftjaf.Kinds.{at_most_once_delivery}
use tjiftjaf.Frame.Layout.{max_body}
use tjiftjaf.Packet.{Packet}
use tjiftjaf.Packet.Connect
use tjiftjaf.Packet.SubAck
use tjiftjaf.Packet.Subscribe
use tjiftjaf.Packet.Subscribe.Codec.{build-frame, body, first_byte, length-topic_bytes}
use tjiftjaf.Server.Table.{
  Subscriber, packet, handle_client_message, on_subscribe, has_client, push_topics,
}
use tjiftjaf.Server.Session.{Client, readable, go_on, on_event}
use tjiftjaf.Server.Session.Answers.{on_event-frame}
use tjiftjaf.Server.Session.Grants.{on_packet-subscribe}
use tjiftjaf.Shorthand.{packet_identifier, subscribe}

abbrev one_topic : ℕ → Bytes → Subscribe.Builder
one_topic id topic = Subscribe.new id (topic, at_most_once_delivery)

length-body :
    (id : ℕ) (topic : Bytes) → IsU16 (length topic) → length (body (one_topic id topic)) ≤ max_body
length-body id topic small =
    let entry = length-topic_bytes (topic, at_most_once_delivery) in
    let all = length-append (Subscribe.topic_bytes (topic, at_most_once_delivery)) [] in
    omega (
      arith,
      length-append (to_be_bytes id) (Subscribe.topics_bytes ((topic, at_most_once_delivery) ∷ [])),
      all,
      entry,
      small,
    )

module _ {Sender : Type 0} where
  -- A SUBSCRIBE that `subscribe` makes at `nanos` since the epoch, for a topic that is a string of
  -- fewer than 65536 bytes, in front of the stream of a session with a client id, whose server takes the message and whose
  -- socket takes the bytes, is answered with a SUBACK that decodes to its identifier, `nanos` modulo 65536, and to a grant of QoS 0;
  -- the server, which the session hands it to, adds the topic to those of the client, where that
  -- has an entry in its table.
  pub subscribe-Granted :
      (nanos : ℕ) (topic name rest : Bytes) (c : Client Sender) (delivers : Sender → Bool)
      (table : List (Subscriber Sender))
      → IsStr topic
      → IsU16 (length topic)
      → Connect.client_id c.connect ≡ ok name
      → has_client name table ≡ true
      → (p : Subscribe.Subscribe) × (ack : SubAck.SubAck) × (subscribe (some nanos) topic ≡ ok p)
        × (on_event (record c { stream = Subscribe.into_bytes p ++ rest }) (readable true true)
            ≡ ok (
              record c {
                stream = rest;
                sent = c.sent ++ (SubAck.into_bytes ack ∷ []);
                funnelled = c.funnelled ++ (packet name (Packet.subscribe p) ∷ []);
              },
              go_on,
            ))
        × (SubAck.try_from (SubAck.into_bytes ack) ≡ ok ack)
        × (SubAck.packet_identifier ack ≡ ok (nanos % 2 ^ 16))
        × (SubAck.return_codes ack ≡ ok (SubAck.qos at_most_once_delivery ∷ []))
        × (handle_client_message delivers (packet name (Packet.subscribe p)) table
            ≡ ok (push_topics name (topic ∷ []) table, []))
  unfolding subscribe packet_identifier handle_client_message on_subscribe
  subscribe-Granted nanos topic name rest c delivers table str small en known =
      let id : ℕ = nanos % 2 ^ 16 in
      let b : Subscribe.Builder = one_topic id topic in
      let u16 : IsU16 id = omega arith in
      let fits = length-body id topic small in
      let (p, built, bytes, accepted, ei, et) =
        build-frame b u16 (omega arith) ((str, small), tt) fits in
      let c1 : Client Sender = record c { stream = Subscribe.into_bytes p ++ rest } in
      let (ack, answered, decodes, same, granted) =
        on_packet-subscribe (record c { stream = rest }) p id name b.topics ei et u16 (omega arith)
          (omega arith) en in
      (
        p,
        ack,
        built,
        on_event-frame c1 first_byte (body b) rest (Packet.subscribe p) true true
              (ap (λ (l : Bytes). l ++ rest) bytes) fits accepted
            ∙ answered,
        decodes,
        same,
        granted,
        rw (known, et) refl,
      )

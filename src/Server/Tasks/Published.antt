-- ===== src/Server/Tasks/Published.antt =====
-- src/aio/server.rs: what `Server::run` sends to the clients.
use tjiftjaf.Prelude.{
  ◌≡◌, refl, sym, ap, ◌∙◌, arith, Bool, Bool-cases, inl, inr, List, [], ◌∷◌, ◌++◌, All,
  append_assoc,
}
use tjiftjaf.Result.{Result, ok, >>=-eq-ok}
use tjiftjaf.Rust.{Bytes}
use tjiftjaf.Packet.{Packet}
use tjiftjaf.Packet.Subscribe
use tjiftjaf.Packet.Publish
use tjiftjaf.Packet.Publish.{Publish}
use tjiftjaf.Server.Table.{
  Subscriber, Message, register, packet, has_client, deliver, addressed, on_subscribe, on_publish,
  handle_client_message,
}
use tjiftjaf.Server.Tasks.{State, Run, begin, receive, handle, messages_of, Run-Handled}

module _ {Sender : Type 0} where
  -- The message is one of the messages.
  abbrev pub Among : Message Sender → List (Message Sender) → Type 0
  Among m messages = (front back : List (Message Sender)) × (messages ≡ front ++ (m ∷ back))

  -- The packet is a PUBLISH in one of the messages.
  abbrev pub Published : List (Message Sender) → Sender × Packet → Type 0
  Published messages (_, p) =
      (id : Bytes) × (publish : Publish) × (p ≡ Packet.publish publish)
      × Among (packet id (Packet.publish publish)) messages

  Among-append :
      (m : Message Sender) (messages more : List (Message Sender))
      → Among m messages
      → Among m (messages ++ more)
  Among-append m messages more (front, back, e) = (
    front,
    back ++ more,
    ap (λ (l : List (Message Sender)). l ++ more) e ∙ append_assoc front (m ∷ back) more,
  )

  Published-append :
      (messages more : List (Message Sender)) (sent : List (Sender × Packet))
      → All (Published messages) sent
      → All (Published (messages ++ more)) sent
  Published-append messages more [] a = tt
  Published-append messages more (x ∷ sent) ((id, publish, e, at), a) =
      ((id, publish, e, Among-append _ messages more at), Published-append messages more sent a)

  All-append :
      (messages : List (Message Sender)) (sent more : List (Sender × Packet))
      → All (Published messages) sent
      → All (Published messages) more
      → All (Published messages) (sent ++ more)
  All-append messages [] more a b = b
  All-append messages (x ∷ sent) more a b = (a.0, All-append messages sent more a.1 b)

  Published-addressed :
      (id : Bytes) (publish : Publish) (messages : List (Message Sender)) (peers : List Sender)
      → Among (packet id (Packet.publish publish)) messages
      → All (Published messages) (addressed (Packet.publish publish) peers)
  Published-addressed id publish messages [] at = tt
  Published-addressed id publish messages (peer ∷ peers) at =
      ((id, publish, refl, at), Published-addressed id publish messages peers at)

  on_subscribe-silent :
      (id : Bytes) (p : Subscribe.Subscribe) (table table' : List (Subscriber Sender))
      (out : List (Sender × Packet))
      → on_subscribe id p table ≡ ok (table', out)
      → out ≡ []
  unfolding on_subscribe
  on_subscribe-silent id p table table' out e = elim (Bool-cases (has_client id table)) [
    | inl known ↦
        let (topics, _, e1) = >>=-eq-ok (Subscribe.all_topics p) _ (rw known at e) in
        ground (arith, e1)
    | inr unknown ↦ ground (arith, rw unknown at e)
  ]

  silent :
      (messages : List (Message Sender)) (table table' : List (Subscriber Sender))
      (out : List (Sender × Packet))
      → ◌≡◌ {A = Result (List (Subscriber Sender) × List (Sender × Packet))}
          (ok (table, []))
          (ok (table', out))
      → All (Published messages) out
  silent messages table table' out e = let same : out ≡ [] = ground (arith, e) in rw same tt

  publishes :
      (delivers : Sender → Bool) (id : Bytes) (p : Publish) (messages : List (Message Sender))
      (table table' : List (Subscriber Sender)) (out : List (Sender × Packet))
      → on_publish delivers p table ≡ ok (table', out)
      → Among (packet id (Packet.publish p)) messages
      → All (Published messages) out
  unfolding on_publish
  publishes delivers id p messages table table' out e at =
      let (needle, _, e1) = >>=-eq-ok (Publish.topic p) _ e in
      let peers = (deliver delivers needle table).0 in
      let same : addressed (Packet.publish p) peers ≡ out = ground (arith, e1) in
      rw (sym same) (Published-addressed id p messages peers at)

  sends :
      (delivers : Sender → Bool) (message : Message Sender) (messages : List (Message Sender))
      (table table' : List (Subscriber Sender)) (out : List (Sender × Packet))
      → handle_client_message delivers message table ≡ ok (table', out)
      → Among message messages
      → All (Published messages) out
  unfolding handle_client_message
  sends delivers (register id sender) messages table table' out e at =
      silent messages _ table' out e
  sends delivers (packet id (Packet.subscribe p)) messages table table' out e at =
      rw (on_subscribe-silent id p table table' out e) tt
  sends delivers (packet id (Packet.publish p)) messages table table' out e at =
      publishes delivers id p messages table table' out e at
  sends delivers (packet id (Packet.connect p)) messages table table' out e at =
      silent messages table table' out e
  sends delivers (packet id (Packet.conn_ack p)) messages table table' out e at =
      silent messages table table' out e
  sends delivers (packet id (Packet.pub_ack p)) messages table table' out e at =
      silent messages table table' out e
  sends delivers (packet id (Packet.pub_rec p)) messages table table' out e at =
      silent messages table table' out e
  sends delivers (packet id (Packet.pub_rel p)) messages table table' out e at =
      silent messages table table' out e
  sends delivers (packet id (Packet.pub_comp p)) messages table table' out e at =
      silent messages table table' out e
  sends delivers (packet id (Packet.sub_ack p)) messages table table' out e at =
      silent messages table table' out e
  sends delivers (packet id (Packet.unsubscribe p)) messages table table' out e at =
      silent messages table table' out e
  sends delivers (packet id (Packet.unsub_ack p)) messages table table' out e at =
      silent messages table table' out e
  sends delivers (packet id (Packet.ping_req p)) messages table table' out e at =
      silent messages table table' out e
  sends delivers (packet id (Packet.ping_resp p)) messages table table' out e at =
      silent messages table table' out e
  sends delivers (packet id (Packet.disconnect p)) messages table table' out e at =
      silent messages table table' out e

  -- Wherever the server comes to, every packet that it has sent to a client is a PUBLISH that a
  -- session sent to the server, unchanged.
  pub Run-Published :
      {messages : List (Message Sender)} {s : State Sender}
      → Run messages s
      → All (Published messages) s.sent
  Run-Published begin = tt
  Run-Published (receive {messages} {s} run message room) =
      Published-append messages (message ∷ []) s.sent (Run-Published run)
  Run-Published (handle {messages} {s} run delivers message queue table out eq e) =
      let ((done, read, _), _, _) = Run-Handled run in
      let at : Among message messages =
        (messages_of done, queue, sym read ∙ ap (◌++◌ (messages_of done)) eq) in
      All-append messages s.sent out (Run-Published run)
        (sends delivers message messages s.table table out e at)

-- ===== src/Server/Table/Invariant.antt =====
-- src/aio/server.rs: a client has one entry at most, whatever messages the server handles.
use tjiftjaf.Prelude.{◌≡◌, sym, ◌∙◌, arith, Bool, Bool-cases, inl, inr, List, []}
use tjiftjaf.Result.{Result, ok, >>=-eq-ok}
use tjiftjaf.Rust.{Bytes}
use tjiftjaf.Packet.{Packet}
use tjiftjaf.Packet.Subscribe
use tjiftjaf.Packet.Publish
use tjiftjaf.Packet.Publish.{Publish}
use tjiftjaf.Server.Table.{
  Subscriber, Message, register, packet, has_client, names, on_subscribe, on_publish,
  handle_client_message,
}
use tjiftjaf.Server.Table.Deliver.{
  Distinct, insert-Distinct, push_topics-Distinct, filter-Distinct, on_publish_lem,
}

module _ {Sender : Type 0} (delivers : Sender → Bool) where
  left :
      (table table' : List (Subscriber Sender)) (out out' : List (Sender × Packet))
      → Distinct table
      → ◌≡◌ {A = Result (List (Subscriber Sender) × List (Sender × Packet))}
          (ok (table, out))
          (ok (table', out'))
      → Distinct table'
  left table table' out out' h e = let same : table ≡ table' = ground (arith, e) in rw same at h

  on_subscribe-Distinct :
      (id : Bytes) (s : Subscribe.Subscribe) (table table' : List (Subscriber Sender))
      (out : List (Sender × Packet))
      → on_subscribe id s table ≡ ok (table', out)
      → Distinct table
      → Distinct table'
  unfolding on_subscribe
  on_subscribe-Distinct id s table table' out e h = elim (Bool-cases (has_client id table)) [
    | inl known ↦
        let (topics, _, e1) = >>=-eq-ok (Subscribe.all_topics s) _ (rw known at e) in
        left _ table' [] out (push_topics-Distinct id (names topics) table h) e1
    | inr unknown ↦ left table table' [] out h (rw unknown at e)
  ]

  pub topic_read :
      (p : Publish) (table table' : List (Subscriber Sender)) (out : List (Sender × Packet))
      → on_publish delivers p table ≡ ok (table', out)
      → (needle : Bytes) × (Publish.topic p ≡ ok needle)
  unfolding on_publish
  topic_read p table table' out e =
      let (needle, topic, _) = >>=-eq-ok (Publish.topic p) _ e in (needle, topic)

  on_publish-Distinct :
      (p : Publish) (table table' : List (Subscriber Sender)) (out : List (Sender × Packet))
      → on_publish delivers p table ≡ ok (table', out)
      → Distinct table
      → Distinct table'
  on_publish-Distinct p table table' out e h =
      let (needle, topic) = topic_read p table table' out e in
      left _ table' _ out (filter-Distinct _ table h)
        (sym (on_publish_lem delivers needle p table topic h) ∙ e)

  -- Where no client has two entries, none has two after any message that the server handles.
  pub handle_client_message-Distinct :
      (message : Message Sender) (table table' : List (Subscriber Sender))
      (out : List (Sender × Packet))
      → Distinct table
      → handle_client_message delivers message table ≡ ok (table', out)
      → Distinct table'
  unfolding handle_client_message
  handle_client_message-Distinct (register id sender) table table' out h e =
      left _ table' [] out
        (insert-Distinct (record { client_id = id; sender = sender; topics = [] }) table h) e
  handle_client_message-Distinct (packet id (Packet.subscribe s)) table table' out h e =
      on_subscribe-Distinct id s table table' out e h
  handle_client_message-Distinct (packet id (Packet.publish p)) table table' out h e =
      on_publish-Distinct p table table' out e h
  handle_client_message-Distinct (packet id (Packet.connect p)) table table' out h e =
      left table table' [] out h e
  handle_client_message-Distinct (packet id (Packet.conn_ack p)) table table' out h e =
      left table table' [] out h e
  handle_client_message-Distinct (packet id (Packet.pub_ack p)) table table' out h e =
      left table table' [] out h e
  handle_client_message-Distinct (packet id (Packet.pub_rec p)) table table' out h e =
      left table table' [] out h e
  handle_client_message-Distinct (packet id (Packet.pub_rel p)) table table' out h e =
      left table table' [] out h e
  handle_client_message-Distinct (packet id (Packet.pub_comp p)) table table' out h e =
      left table table' [] out h e
  handle_client_message-Distinct (packet id (Packet.sub_ack p)) table table' out h e =
      left table table' [] out h e
  handle_client_message-Distinct (packet id (Packet.unsubscribe p)) table table' out h e =
      left table table' [] out h e
  handle_client_message-Distinct (packet id (Packet.unsub_ack p)) table table' out h e =
      left table table' [] out h e
  handle_client_message-Distinct (packet id (Packet.ping_req p)) table table' out h e =
      left table table' [] out h e
  handle_client_message-Distinct (packet id (Packet.ping_resp p)) table table' out h e =
      left table table' [] out h e
  handle_client_message-Distinct (packet id (Packet.disconnect p)) table table' out h e =
      left table table' [] out h e

-- ===== src/Server/Table/History.antt =====
-- src/aio/server.rs: what the messages of the clients do to what the table holds for one of them.
use tjiftjaf.Prelude.{
  ◌≡◌, refl, sym, ap, ◌∙◌, arith, if◌then◌else◌, Bool, Bool-cases, inl, inr, List, [], ◌∷◌,
}
use tjiftjaf.Result.{Result, ok, >>=-eq-ok}
use tjiftjaf.Rust.{Bytes, bytes_eq}
use tjiftjaf.Rust.Slices.{bytes_eq_iff}
use tjiftjaf.Packet.{Packet}
use tjiftjaf.Packet.Subscribe
use tjiftjaf.Packet.Publish
use tjiftjaf.Packet.Publish.{Publish}
use tjiftjaf.Server.Table.{
  Subscriber, Message, register, packet, insert, has_client, push_topics, names, on_subscribe,
  on_publish, handle_client_message, handle_messages,
}
use tjiftjaf.Server.Table.Deliver.{Distinct, filter, stays, on_publish_lem}
use tjiftjaf.Server.Table.Invariant.{handle_client_message-Distinct, topic_read}
use tjiftjaf.Server.Table.Subscriptions.{
  asked, lookup, extend, keep, after, history, lookup-insert, lookup-push_topics, lookup-none,
  lookup-filter,
}

module _ {Sender : Type 0} where
  after-on_subscribe :
      (id name : Bytes) (p : Subscribe.Subscribe) (table table' : List (Subscriber Sender))
      (out : List (Sender × Packet))
      → on_subscribe name p table ≡ ok (table', out)
      → lookup id table' ≡ (
          if bytes_eq name id
          then extend (asked (Subscribe.all_topics p)) (lookup id table)
          else lookup id table)
  unfolding on_subscribe
  after-on_subscribe id name p table table' out e = elim (Bool-cases (has_client name table)) [
    | inl known ↦
        let (topics, et, e1) = >>=-eq-ok (Subscribe.all_topics p) _ (rw known at e) in
        let same : push_topics name (names topics) table ≡ table' = ground (arith, e1) in
        ap (lookup id) (sym same) ∙ lookup-push_topics id name (names topics) table ∙ rw et refl
    | inr unknown ↦
        let same : table ≡ table' = ground (arith, rw unknown at e) in
        rw (sym same) (elim (Bool-cases (bytes_eq name id)) [
          | inl k ↦
              let absent = lookup-none id table (rw ((bytes_eq_iff name id).0 k) at unknown) in
              rw (k, absent) refl
          | inr k ↦ rw k refl
        ])
  ]

  after-on_publish :
      (id : Bytes) (delivers : Sender → Bool) (p : Publish)
      (table table' : List (Subscriber Sender)) (out : List (Sender × Packet))
      → Distinct table
      → on_publish delivers p table ≡ ok (table', out)
      → lookup id table' ≡ keep delivers (Publish.topic p) (lookup id table)
  after-on_publish id delivers p table table' out h e =
      let (needle, topic) = topic_read delivers p table table' out e in
      let same : filter (stays delivers needle) table ≡ table' =
        ground (arith, sym (on_publish_lem delivers needle p table topic h) ∙ e) in
      rw (sym same, topic) (lookup-filter id delivers needle table h)

  unmoved :
      (id : Bytes) (table table' : List (Subscriber Sender)) (out : List (Sender × Packet))
      → ◌≡◌ {A = Result (List (Subscriber Sender) × List (Sender × Packet))}
          (ok (table, []))
          (ok (table', out))
      → lookup id table' ≡ lookup id table
  unmoved id table table' out e =
      let same : table' ≡ table = ground (arith, e) in ap (lookup id) same

  -- A message that is handled does to a client's entry what `after` says.
  lookup-after :
      (id : Bytes) (delivers : Sender → Bool) (message : Message Sender)
      (table table' : List (Subscriber Sender)) (out : List (Sender × Packet))
      → Distinct table
      → handle_client_message delivers message table ≡ ok (table', out)
      → lookup id table' ≡ after id (delivers, message) (lookup id table)
  unfolding handle_client_message
  lookup-after id delivers (register name sender) table table' out h e =
      let s : Subscriber Sender = record { client_id = name; sender = sender; topics = [] } in
      let same : insert s table ≡ table' = ground (arith, e) in
      rw (sym same) (lookup-insert id s table)
  lookup-after id delivers (packet name (Packet.subscribe p)) table table' out h e =
      after-on_subscribe id name p table table' out e
  lookup-after id delivers (packet name (Packet.publish p)) table table' out h e =
      after-on_publish id delivers p table table' out h e
  lookup-after id delivers (packet name (Packet.connect p)) table table' out h e =
      unmoved id table table' out e
  lookup-after id delivers (packet name (Packet.conn_ack p)) table table' out h e =
      unmoved id table table' out e
  lookup-after id delivers (packet name (Packet.pub_ack p)) table table' out h e =
      unmoved id table table' out e
  lookup-after id delivers (packet name (Packet.pub_rec p)) table table' out h e =
      unmoved id table table' out e
  lookup-after id delivers (packet name (Packet.pub_rel p)) table table' out h e =
      unmoved id table table' out e
  lookup-after id delivers (packet name (Packet.pub_comp p)) table table' out h e =
      unmoved id table table' out e
  lookup-after id delivers (packet name (Packet.sub_ack p)) table table' out h e =
      unmoved id table table' out e
  lookup-after id delivers (packet name (Packet.unsubscribe p)) table table' out h e =
      unmoved id table table' out e
  lookup-after id delivers (packet name (Packet.unsub_ack p)) table table' out h e =
      unmoved id table table' out e
  lookup-after id delivers (packet name (Packet.ping_req p)) table table' out h e =
      unmoved id table table' out e
  lookup-after id delivers (packet name (Packet.ping_resp p)) table table' out h e =
      unmoved id table table' out e
  lookup-after id delivers (packet name (Packet.disconnect p)) table table' out h e =
      unmoved id table table' out e

  -- Whatever messages the server has handled, on a table where no client has two entries: none has
  -- two, and what the table holds for a client is what the history of the messages says. It has
  -- the sender of its last registration and the topics that it subscribed to since then, until a
  -- message that it asked for could not be delivered; no other client changes that.
  pub handle_messages-history :
      (id : Bytes) (messages : List ((Sender → Bool) × Message Sender))
      (table table' : List (Subscriber Sender)) (out : List (Sender × Packet))
      → Distinct table
      → handle_messages messages table ≡ ok (table', out)
      → Distinct table' × (lookup id table' ≡ history id messages (lookup id table))
  unfolding handle_messages
  handle_messages-history id [] table table' out h e =
      let same : table ≡ table' = ground (arith, e) in (rw same at h, ap (lookup id) (sym same))
  handle_messages-history id ((delivers, message) ∷ messages) table table' out h e =
      let ((next, sent), e1, f1) = >>=-eq-ok (handle_client_message delivers message table) _ e in
      let ((last, more), e2, f2) = >>=-eq-ok (handle_messages messages next) _ f1 in
      let same : last ≡ table' = ground (arith, f2) in
      let kept = handle_client_message-Distinct delivers message table next sent h e1 in
      let (unique, view) = handle_messages-history id messages next last more kept e2 in
      (
        rw same at unique,
        ap (lookup id) (sym same)
            ∙ view
            ∙ ap (history id messages) (lookup-after id delivers message table next sent h e1),
      )

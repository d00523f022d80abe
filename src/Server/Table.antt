-- ===== src/Server/Table.antt =====
-- src/aio/server.rs: the subscriptions of the server, and what a message does to them. The map
-- is a list of entries, one for a client; the order of its iteration is that of the list. A
-- `Sender` is of any type, and `delivers` says whether `send` on it succeeds.
pub mod Deliver
pub mod Invariant
pub mod Subscriptions
pub mod History
use tjiftjaf.Prelude.{
  ℕ, ◌||◌, not, if◌then◌else◌, Bool, true, false, List, [], ◌∷◌, ◌++◌, Option, none, some,
}
use tjiftjaf.Result.{Result, ok, ◌>>=◌}
use tjiftjaf.Rust.{Bytes, bytes_eq}
use tjiftjaf.Kinds.{QoS}
use tjiftjaf.Packet.{Packet}
use tjiftjaf.Packet
use tjiftjaf.Packet.Subscribe
use tjiftjaf.Packet.Publish
use tjiftjaf.Packet.Publish.{Publish}
use tjiftjaf.Server.Topic.{does_topic_match_subscription}

pub record Subscriber (Sender : Type 0) : Type 0 where
  pub client_id : Bytes
  pub sender : Sender
  pub topics : List Bytes

pub data Message (Sender : Type 0) : Type 0 where
  register : (client_id : Bytes) → Sender → Message Sender
  packet : (client_id : Bytes) → Packet → Message Sender

-- `topics.iter().any(|subscription| does_topic_match_subscription(subscription, needle))`
abbrev pub any_match : List Bytes → Bytes → Bool
any_match [] needle = false
any_match (subscription ∷ topics) needle =
    does_topic_match_subscription subscription needle || any_match topics needle

-- The topics of `subscribe.topics()`, without their QoS
abbrev pub names : List (Bytes × QoS) → List Bytes
names [] = []
names ((topic, _) ∷ topics) = topic ∷ names topics

module _ {Sender : Type 0} where
  -- `HashMap::insert`, `HashMap::get_mut` with a change of the topics, and `HashMap::remove`
  abbrev pub insert : Subscriber Sender → List (Subscriber Sender) → List (Subscriber Sender)
  insert s [] = s ∷ []
  insert s (t ∷ table) =
      let rest = insert s table in if bytes_eq t.client_id s.client_id then s ∷ table else t ∷ rest

  abbrev pub has_client : Bytes → List (Subscriber Sender) → Bool
  has_client id [] = false
  has_client id (t ∷ table) = bytes_eq t.client_id id || has_client id table

  abbrev pub push_topics : Bytes → List Bytes → List (Subscriber Sender) → List (Subscriber Sender)
  push_topics id topics [] = []
  push_topics id topics (t ∷ table) =
      let rest = push_topics id topics table in
      if bytes_eq t.client_id id then record t { topics = t.topics ++ topics } ∷ table else t ∷ rest

  abbrev pub remove : Bytes → List (Subscriber Sender) → List (Subscriber Sender)
  remove id [] = []
  remove id (t ∷ table) =
      let rest = remove id table in if bytes_eq t.client_id id then table else t ∷ rest

  -- The loop that sends a message: to whom it is sent, and who is disconnected.
  abbrev pub deliver : (Sender → Bool) → Bytes → List (Subscriber Sender) → List Sender × List Bytes
  deliver delivers needle [] = ([], [])
  deliver delivers needle (t ∷ table) =
      let (sent, disconnected) = deliver delivers needle table in
      if not (any_match t.topics needle)
      then (sent, disconnected)
      else if delivers t.sender
      then (t.sender ∷ sent, disconnected)
      else (sent, t.client_id ∷ disconnected)

  -- `for client in disconnected_clients { self.subscriptions.remove(&client) }`
  abbrev pub remove_all : List Bytes → List (Subscriber Sender) → List (Subscriber Sender)
  remove_all [] table = table
  remove_all (id ∷ ids) table = remove_all ids (remove id table)

  -- The arms of `handle_client_message` for a SUBSCRIBE and a PUBLISH.
  unfoldable pub on_subscribe :
      Bytes
      → Subscribe.Subscribe
      → List (Subscriber Sender)
      → Result (List (Subscriber Sender) × List (Sender × Packet))
  on_subscribe id subscribe table =
      let known =
        Subscribe.all_topics subscribe >>= λ topics. ok (push_topics id (names topics) table, []) in
      if has_client id table then known else ok (table, [])

  abbrev pub addressed : Packet → List Sender → List (Sender × Packet)
  addressed p [] = []
  addressed p (s ∷ senders) = (s, p) ∷ addressed p senders

  unfoldable pub on_publish :
      (Sender → Bool)
      → Publish
      → List (Subscriber Sender)
      → Result (List (Subscriber Sender) × List (Sender × Packet))
  on_publish delivers publish table = do
    needle ← Publish.topic publish
    let (sent, disconnected) = deliver delivers needle table
    ok (remove_all disconnected table, addressed (Packet.publish publish) sent)

  -- `Server::handle_client_message`, with the packets that it sends
  unfoldable pub handle_client_message :
      (Sender → Bool)
      → Message Sender
      → List (Subscriber Sender)
      → Result (List (Subscriber Sender) × List (Sender × Packet))
  handle_client_message delivers (register id sender) table =
      ok (insert (record { client_id = id; sender = sender; topics = [] }) table, [])
  handle_client_message delivers (packet id (Packet.subscribe subscribe)) table =
      on_subscribe id subscribe table
  handle_client_message delivers (packet id (Packet.publish publish)) table =
      on_publish delivers publish table
  handle_client_message delivers (packet id _) table = ok (table, [])

  -- The loop of `Server::run` over the messages that clients send, each with the senders that
  -- deliver at its time
  unfoldable pub handle_messages :
      List ((Sender → Bool) × Message Sender)
      → List (Subscriber Sender)
      → Result (List (Subscriber Sender) × List (Sender × Packet))
  handle_messages [] table = ok (table, [])
  handle_messages ((delivers, message) ∷ messages) table = do
    (next, sent) ← handle_client_message delivers message table
    (last, more) ← handle_messages messages next
    ok (last, sent ++ more)

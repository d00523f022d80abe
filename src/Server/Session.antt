-- ===== src/Server/Session.antt =====
-- src/aio/server.rs: a client's session on the server: `on_new_connection`, and `Client::run` on
-- a list of what `select!` brings. `funnel_open` says whether the server takes a message, and
-- `written` whether the socket takes the bytes. A `Sender` is of any type.
pub mod Grants
pub mod Answers
pub mod Opens
pub mod Panics
use tjiftjaf.Prelude.{
  ℕ, drop, Bool, true, false, List, [], ◌∷◌, ◌++◌, Option, none, some, suc, length, if◌then◌else◌,
}
use tjiftjaf.Result.{Result, ok, err, panic, ◌>>=◌, DecodingError, too_many_bytes}
use tjiftjaf.Rust.{Bytes}
use tjiftjaf.Kinds.{QoS}
use tjiftjaf.Packet
use tjiftjaf.Packet.{Packet}
use tjiftjaf.Packet.ConnAck
use tjiftjaf.Packet.Connect
use tjiftjaf.Packet.Connect.{Connect}
use tjiftjaf.Packet.Ping
use tjiftjaf.Packet.SubAck
use tjiftjaf.Packet.Subscribe
use tjiftjaf.Packet.Topics
use tjiftjaf.Packet.Topics.{Topics}
use tjiftjaf.Server.{read_packet, drop_read_packet}
use tjiftjaf.Server.Table.{Message, register, packet}

pub data ClientError : Type 0 where
  io_error : ClientError
  decoding_error : DecodingError → ClientError
  server_error : ClientError
  unexpected_packet : ClientError

-- How a part of a session ends: it goes on, the client has disconnected, or there is an error.
pub data Flow : Type 0 where
  go_on : Flow
  disconnected : Flow
  failed : ClientError → Flow

-- A client of the server, with the bytes that are still to be read from its stream, the packets
-- that were written to it, and the messages that the server took from it.
pub record Client (Sender : Type 0) : Type 0 where
  pub connect : Connect
  pub stream : Bytes
  pub sent : List Bytes
  pub funnelled : List (Message Sender)

-- `for (_, qos) in topics { builder = builder.add_return_code(qos) }`
abbrev pub grant : SubAck.Builder → List (Bytes × QoS) → SubAck.Builder
grant builder [] = builder
grant builder ((_, qos) ∷ topics) = grant (SubAck.add_return_code builder (SubAck.qos qos)) topics

-- The builder of the SUBACK, on what `topics.next()` returned: the iterator, and the first topic.
-- The loop over the others has as many rounds as there are bytes.
abbrev pub grant_from :
    Subscribe.Subscribe → (rounds : ℕ) → Topics × Option (Bytes × QoS) → Result SubAck.Builder
grant_from subscribe rounds (topics, none) = panic
grant_from subscribe rounds (topics, some (_, qos)) = do
  id ← Subscribe.packet_identifier subscribe
  rest ← Topics.drain Subscribe.topic_at rounds topics []
  ok (grant (SubAck.new id (SubAck.qos qos)) rest)

unfoldable pub sub_ack_builder : Subscribe.Subscribe → Result SubAck.Builder
sub_ack_builder subscribe = do
  topics ← Subscribe.topics subscribe
  first ← Topics.next Subscribe.topic_at topics
  grant_from subscribe (suc (length topics.topics)) first

-- What `select!` brings: a packet to be read from the stream, a packet that the server sends to
-- the client, or the end of the server's sender. The branch that is not taken is dropped: a packet of
-- the server comes when `read_packet` has read `reads` times, and a part of what it reads next.
pub data Event : Type 0 where
  readable : (funnel_open written : Bool) → Event
  outbound : Packet → (reads part : ℕ) (written : Bool) → Event
  sender_closed : Event

module _ {Sender : Type 0} where
  -- `Client::send`
  abbrev pub send : Client Sender → Packet → (written : Bool) → Client Sender × Flow
  send c p true = (record c { sent = c.sent ++ (Packet.into_bytes p ∷ []) }, go_on)
  send c p false = (c, failed io_error)

  -- `funnel.send(message).await?`, with what comes behind it
  abbrev pub funnel :
      Client Sender
      → Message Sender
      → (funnel_open : Bool) → (Client Sender → Result (Client Sender × Flow))
      → Result (Client Sender × Flow)
  funnel c message false next = ok (c, failed server_error)
  funnel c message true next = next (record c { funnelled = c.funnelled ++ (message ∷ []) })

  -- The `match` on a packet that was read, and what is sent back.
  unfoldable pub on_packet :
      Client Sender → (funnel_open written : Bool) → Packet → Result (Client Sender × Flow)
  on_packet c funnel_open written (Packet.ping_req _) =
      ok (send c (Packet.ping_resp Ping.ping_resp) written)
  on_packet c funnel_open written (Packet.disconnect _) = ok (c, disconnected)
  on_packet c funnel_open written (Packet.subscribe subscribe) = do
    builder ← sub_ack_builder subscribe
    id ← Connect.client_id c.connect
    funnel c (packet id (Packet.subscribe subscribe)) funnel_open
        (λ c'. SubAck.build builder >>= λ ack. ok (send c' (Packet.sub_ack ack) written))
  on_packet c funnel_open written (Packet.publish publish) = do
    id ← Connect.client_id c.connect
    funnel c (packet id (Packet.publish publish)) funnel_open (λ c'. ok (c', go_on))
  on_packet c funnel_open written (Packet.connect _) = ok (c, failed unexpected_packet)
  on_packet c funnel_open written (Packet.sub_ack _) = ok (c, failed unexpected_packet)
  on_packet c funnel_open written (Packet.pub_ack _) = ok (c, failed unexpected_packet)
  on_packet c funnel_open written _ = panic

  abbrev pub on_read :
      Client Sender → Bool → Bool → Option (Result Packet × Bytes) → Result (Client Sender × Flow)
  on_read c funnel_open written (some (ok p, rest)) =
      on_packet (record c { stream = rest }) funnel_open written p
  on_read c funnel_open written (some (err error, rest)) =
      ok (record c { stream = rest }, failed (decoding_error error))
  on_read c funnel_open written (some (panic, rest)) = panic
  on_read c funnel_open written none = panic

  unfoldable pub on_event : Client Sender → Event → Result (Client Sender × Flow)
  on_event c (readable funnel_open written) = on_read c funnel_open written (read_packet c.stream)
  on_event c (outbound p reads part written) =
      ok (send (record c { stream = drop_read_packet reads part c.stream }) p written)
  on_event c sender_closed = ok (c, failed server_error)

  abbrev pub and_then :
      Client Sender × Flow
      → (Client Sender → Result (Client Sender × Flow))
      → Result (Client Sender × Flow)
  and_then (c, go_on) next = next c
  and_then (c, disconnected) next = ok (c, disconnected)
  and_then (c, failed error) next = ok (c, failed error)

  -- The loop of `Client::run`, for the events that there are
  unfoldable pub run_loop : Client Sender → List Event → Result (Client Sender × Flow)
  run_loop c [] = ok (c, go_on)
  run_loop c (event ∷ events) = do
    result ← on_event c event
    and_then result (λ next. run_loop next events)

  -- `Client::run`, which registers the client with the sender of its channel
  unfoldable pub run :
      Client Sender → Sender → (funnel_open : Bool) → List Event → Result (Client Sender × Flow)
  run c sender funnel_open events = do
    id ← Connect.client_id c.connect
    funnel c (register id sender) funnel_open (λ c'. run_loop c' events)

  -- The rest of `on_new_connection`, on the first packet; a failure before there is a client has
  -- no client.
  abbrev pub accept : Connect → Bytes → Client Sender
  accept connect stream = record { connect = connect; stream = stream; sent = []; funnelled = [] }

  unfoldable pub on_first_packet :
      Packet
      → (rest : Bytes) → Sender
      → (funnel_open written : Bool) → List Event
      → Result (Option (Client Sender) × Flow)
  on_first_packet (Packet.connect connect) rest sender funnel_open written events = do
    id ← Connect.client_id connect
    let ack =
        Packet.conn_ack
          (ConnAck.build (ConnAck.set_return_code ConnAck.new ConnAck.connection_accepted))
    (c, flow) ←
        and_then (send (accept connect rest) ack written) (λ c. run c sender funnel_open events)
    ok (some c, flow)
  on_first_packet _ rest sender funnel_open written events = ok (none, failed unexpected_packet)

  abbrev pub on_first :
      Option (Result Packet × Bytes)
      → Sender
      → (funnel_open written : Bool) → List Event
      → Result (Option (Client Sender) × Flow)
  on_first (some (ok p, rest)) sender funnel_open written events =
      on_first_packet p rest sender funnel_open written events
  on_first (some (err error, rest)) sender funnel_open written events =
      ok (none, failed (decoding_error error))
  on_first (some (panic, rest)) sender funnel_open written events = panic
  on_first none sender funnel_open written events = panic

  -- `on_new_connection`, on the bytes that the client sends before it closes the connection
  unfoldable pub on_new_connection :
      Bytes
      → Sender
      → (funnel_open written : Bool) → List Event
      → Result (Option (Client Sender) × Flow)
  on_new_connection stream sender funnel_open written events =
      on_first (read_packet stream) sender funnel_open written events

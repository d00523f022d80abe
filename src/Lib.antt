-- ===== src/Lib.antt =====
-- tjiftjaf: the MQTT 3.1.1 packets of the crate, decoded, verified and built, the state machine
-- of a client, the loops of the two clients around it, and the server: how it reads packets,
-- matches topics, keeps its clients and serves a session.
--
-- Bytes come in at the bottom and packets leave at the top. `encode` and `decode` hold the
-- fields that all packets share, `packet::Frame` lays a packet out as a fixed header, a variable
-- header and a payload, each packet has a module with its decoder, its getters and its builder,
-- `Packet` dispatches over them, and `MqttBinding` reads and transmits packets for a client. The
-- clients run a binding between a socket and the channels to their handle. A session of the
-- server cuts packets out of its stream with a parser of its own, answers some and hands the
-- others to the server, which hands a PUBLISH on to the clients in its table that have a matching
-- subscription.
--
--   Result          src/decode.rs: DecodingError, and the results of fallible code
--   Rust            slices, checked integers, big-endian pairs and from_utf8 of the language
--   Encode          src/encode.rs: utf8, bytes, remaining_length
--   Decode          src/decode.rs: u16, packet_length, field::{bytes, utf8, variable_length}
--   Kinds           src/packet/mod.rs: PacketType, QoS, ProtocolLevel; src/decode.rs: packet_type
--   Frame           src/packet/mod.rs: the traits Frame and UnverifiedFrame
--   Packet          src/packet/mod.rs: Packet
--   Packet.Ack      src/packet/ack.rs, puback.rs, pubrec.rs, pubrel.rs, pubcomp.rs, unsuback.rs
--   Packet.ConnAck  src/packet/connack.rs
--   Packet.Ping     src/packet/ping_req.rs, ping_resp.rs, disconnect.rs
--   Packet.SubAck   src/packet/suback.rs
--   Packet.Topics, Packet.Subscribe, Packet.Unsubscribe
--                   src/packet/subscribe.rs, unsubscribe.rs
--   Packet.Publish  src/packet/publish.rs
--   Packet.ConnectFlags, Packet.Connect
--                   src/packet/connect.rs
--   Binding         src/lib.rs: MqttBinding
--   Client          src/aio/mod.rs: the answers of Client::run to the packets that it decodes
--   Client.Loop     src/aio/mod.rs: Client::new, Client::run
--   Client.Handle   src/aio/mod.rs: ClientHandle, Emit
--   Client.Blocking src/blocking/mod.rs: Client::new, Client::run
--   Client.Blocking.Handle
--                   src/blocking/mod.rs: ClientHandle, Emit
--   Shorthand       src/lib.rs: packet_identifier, connect, subscribe, unsubscribe, publish
--   Server          src/aio/server.rs: Parser, read_packet; src/packet/mod.rs: min_bytes_required
--   Server.Topic    src/aio/server.rs: does_topic_match_subscription
--   Server.Table    src/aio/server.rs: Server and Message, handle_client_message,
--                   the loop of Server::run over the messages
--   Server.Session  src/aio/server.rs: on_new_connection, Client::send, Client::run
--   Server.Tasks    src/aio/server.rs: the tasks of Server::run with the channel between them
--   Server.Route, Server.Acks
--                   the way of a PUBLISH and of its acknowledgement between client and server
--
-- Prelude passes on the library's names and holds lists, tests and bits over the native numbers.
-- The modules below a component hold what is shown about it; Examples applies the theorems at
-- concrete packets.
--
-- A definition has the name of the function that it models. Where two structs of one file have
-- a method of the same name, that of the unverified one has `try_` before it, and a setter of a
-- builder that has the name of its field has `set_`.
--
-- Conventions. A panic is a value of Result: overflow checks are on, and an unwrap of an error,
-- an index out of bounds, a failed assertion and `todo!` panic. Additions on usize are taken not
-- to overflow, nor does an Instant. A string is its UTF-8 bytes; from_utf8 is the automaton of
-- the well-formed sequences. InvalidValue stands without its message. A mask on a byte is the
-- quotient and the remainder that it takes, and Prelude.Bits checks that they are the bits; an
-- `|` is the native operation. The type markers of the builder of CONNECT, AsRef and Into
-- arguments, logging, Debug, Display and the arbitrary instances are left out. What
-- packet_identifier() returns is an argument of the builders that call it, and the clock is one of
-- packet_identifier.
--
-- Bounds. remaining_length divides its argument by 128 until it is 0, and recurses on the
-- accessibility of `<`. packet_length recurses on its input. collect_loop, the loop over the
-- topics, has fuel for each byte of the payload and one more round: an entry takes two bytes at
-- least. drain, which runs the iterator to its end, has the fuel of that loop and one round more.
-- receive runs a binding for a number of reads; three are enough for a frame whose length takes
-- up to three bytes. The loop of read_packet has four rounds, which are enough on any stream.
--
-- The loop of a client that sends its transmits has two rounds more than there are packets: one
-- for a CONNECT, and one that finds none. The loop in which the blocking client reads a packet has
-- no bound in the source, and a number of rounds here. The event loops run on the events that
-- there are.
--
-- The world. What a loop gets from outside is a list: in a round of the async client the packets
-- that try_recv returns, and the branch of select! that is ready, with the bytes that a read
-- brings, the packet from the handle, or how late the timer fires; in a turn of the blocking
-- client the events of mio; in a session the packets to be read, the packets that the server
-- sends, and how far the read was that select! drops. Whether a socket takes a
-- write, and the instant of it, are functions of what was written before. Futures, threads and
-- wakers do no more than this here. An Instant that is earlier than another is 0 before it.
--
-- The server's map of clients is a list of entries. A Sender is of any type, and a function says
-- whether a send on it succeeds, which a send does where the receiver of the channel is there.
-- The channel between the tasks of the server is a queue with room for 100 messages; that which
-- leads to a session is the packets that were sent on it. What a task does is a step, and the
-- steps of the tasks come in any order.
--
-- Not modelled: spawn of the two clients, and the listener of Server::run, which start the parts
-- that are modelled in threads and futures and connect them by channels; and the tests.
pub mod Prelude
pub mod Result
pub mod Rust
pub mod Encode
pub mod Decode
pub mod Kinds
pub mod Frame
pub mod Packet
pub mod Binding
pub mod Client
pub mod Shorthand
pub mod Server
pub mod Examples

-- ===== src/Packet.antt =====
-- src/packet/mod.rs: the enum `Packet` over the packets of the child modules.
pub mod Ack
pub mod ConnAck
pub mod Ping
pub mod SubAck
pub mod Topics
pub mod Subscribe
pub mod Unsubscribe
pub mod Publish
pub mod ConnectFlags
pub mod Connect
pub mod RoundTrip
pub mod Decoder
use tjiftjaf.Prelude.{ℕ, get_elem?}
use tjiftjaf.Result.{Result, ok, ◌>>=◌, ok_or, not_enough_bytes}
use tjiftjaf.Rust.{Bytes}
use tjiftjaf.Kinds.{PacketType, packet_type_try_from}
use tjiftjaf.Frame
use tjiftjaf.Frame.{length_of, packet_type_of}
use Ack.{ack_frame}
use ConnAck.{conn_ack_frame}
use Ping.{
  PingReq, PingResp, Disconnect, ping_req_frame, ping_resp_frame, disconnect_frame, pingreq_bytes,
  pingresp_bytes, disconnect_bytes, ping_req_try_from, ping_resp_try_from, disconnect_try_from,
}
use SubAck.{sub_ack_frame}
use Subscribe.{subscribe_frame}
use Unsubscribe.{unsubscribe_frame}
use Connect.{connect_frame}

-- `PubAck(Ack)` and its four likes are their `Ack`.
pub data Packet : Type 0 where
  connect : Connect.Connect → Packet
  conn_ack : ConnAck.ConnAck → Packet
  publish : Publish.Publish → Packet
  pub_ack pub_rec pub_rel pub_comp : Ack.Ack → Packet
  subscribe : Subscribe.Subscribe → Packet
  sub_ack : SubAck.SubAck → Packet
  unsubscribe : Unsubscribe.Unsubscribe → Packet
  unsub_ack : Ack.Ack → Packet
  ping_req : PingReq → Packet
  ping_resp : PingResp → Packet
  disconnect : Disconnect → Packet

-- `Packet::into_bytes`; each packet's `Frame::as_bytes` gives the same bytes.
unfoldable pub into_bytes : Packet → Bytes
into_bytes (connect p) = Connect.into_bytes p
into_bytes (conn_ack p) = ConnAck.as_bytes p
into_bytes (publish p) = Publish.into_bytes p
into_bytes (pub_ack p) = Ack.as_bytes p
into_bytes (pub_rec p) = Ack.as_bytes p
into_bytes (pub_rel p) = Ack.as_bytes p
into_bytes (pub_comp p) = Ack.as_bytes p
into_bytes (subscribe p) = Subscribe.into_bytes p
into_bytes (sub_ack p) = SubAck.into_bytes p
into_bytes (unsubscribe p) = Unsubscribe.into_bytes p
into_bytes (unsub_ack p) = Ack.as_bytes p
into_bytes (ping_req p) = pingreq_bytes
into_bytes (ping_resp p) = pingresp_bytes
into_bytes (disconnect p) = disconnect_bytes

-- `Packet::packet_type` and `Packet::length`, by the default methods of `Frame`.
unfoldable pub packet_type : Packet → Result PacketType
packet_type p = packet_type_of (into_bytes p)

unfoldable pub length : Packet → Result ℕ
length p = length_of (into_bytes p)

-- `Packet::payload`
unfoldable pub payload : Packet → Result Bytes
payload (connect p) = Frame.payload p
payload (conn_ack p) = Frame.payload p
payload (publish p) = Publish.payload p
payload (pub_ack p) = Frame.payload p
payload (pub_rec p) = Frame.payload p
payload (pub_rel p) = Frame.payload p
payload (pub_comp p) = Frame.payload p
payload (subscribe p) = Frame.payload p
payload (sub_ack p) = Frame.payload p
payload (unsubscribe p) = Frame.payload p
payload (unsub_ack p) = Frame.payload p
payload (ping_req p) = Frame.payload p
payload (ping_resp p) = Frame.payload p
payload (disconnect p) = Frame.payload p

-- The `match packet_type` of `Packet::try_from`.
unfoldable pub try_from_type : PacketType → Bytes → Result Packet
try_from_type PacketType.connect value = do ok (connect (← Connect.try_from value))
try_from_type PacketType.ping_req value = do ok (ping_req (← ping_req_try_from value))
try_from_type PacketType.ping_resp value = do ok (ping_resp (← ping_resp_try_from value))
try_from_type PacketType.disconnect value = do ok (disconnect (← disconnect_try_from value))
try_from_type PacketType.pub_comp value = do
  ok (pub_comp (← Ack.try_from_as PacketType.pub_comp value))
try_from_type PacketType.conn_ack value = do ok (conn_ack (← ConnAck.try_from value))
try_from_type PacketType.sub_ack value = do ok (sub_ack (← SubAck.try_from value))
try_from_type PacketType.publish value = do ok (publish (← Publish.try_from value))
try_from_type PacketType.pub_rec value = do
  ok (pub_rec (← Ack.try_from_as PacketType.pub_rec value))
try_from_type PacketType.pub_rel value = do
  ok (pub_rel (← Ack.try_from_as PacketType.pub_rel value))
try_from_type PacketType.pub_ack value = do
  ok (pub_ack (← Ack.try_from_as PacketType.pub_ack value))
try_from_type PacketType.unsub_ack value = do
  ok (unsub_ack (← Ack.try_from_as PacketType.unsub_ack value))
try_from_type PacketType.unsubscribe value = do ok (unsubscribe (← Unsubscribe.try_from value))
try_from_type PacketType.subscribe value = do ok (subscribe (← Subscribe.try_from value))

-- `Packet::try_from`
unfoldable pub try_from : Bytes → Result Packet
unfolding try_from_type
try_from value = do
  byte ← ok_or (get_elem? value 0) (not_enough_bytes 2 0)
  t ← packet_type_try_from byte
  try_from_type t value

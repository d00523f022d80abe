-- ===== src/Client.antt =====
-- src/aio/mod.rs: what the client answers to a packet that its binding decoded.
pub mod Answer
pub mod Keeps
pub mod Loop
pub mod Blocking
pub mod Handle
use tjiftjaf.Prelude.{ℕ, Option, none, some}
use tjiftjaf.Result.{Result, ok, panic, ◌>>=◌}
use tjiftjaf.Kinds.{
  PacketType, QoS, at_most_once_delivery, at_least_once_delivery, exactly_once_delivery,
}
use tjiftjaf.Packet.{Packet}
use tjiftjaf.Packet
use tjiftjaf.Packet.Ack
use tjiftjaf.Packet.Publish
use tjiftjaf.Binding.{MqttBinding, send}

-- The `match` on the QoS and the identifier of a PUBLISH.
unfoldable pub acknowledge : MqttBinding → QoS → Option ℕ → Result MqttBinding
acknowledge b at_most_once_delivery id = ok b
acknowledge b at_least_once_delivery (some id) =
    ok (send b (Packet.pub_ack (Ack.new PacketType.pub_ack id)))
acknowledge b exactly_once_delivery (some id) =
    ok (send b (Packet.pub_rec (Ack.new PacketType.pub_rec id)))
acknowledge b at_least_once_delivery none = panic
acknowledge b exactly_once_delivery none = panic

-- The tests of a decoded packet in the loop of `Client::run`.
unfoldable pub answer : MqttBinding → Packet → Result MqttBinding
answer b (Packet.publish publish) = do
  qos ← Publish.qos publish
  id ← Publish.packet_identifier publish
  acknowledge b qos id
answer b (Packet.pub_rec ack) =
    ok (send b (Packet.pub_rel (Ack.new PacketType.pub_rel (Ack.packet_identifier ack))))
answer b (Packet.pub_rel ack) =
    ok (send b (Packet.pub_comp (Ack.new PacketType.pub_comp (Ack.packet_identifier ack))))
answer b _ = ok b

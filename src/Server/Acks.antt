-- ===== src/Server/Acks.antt =====
-- src/aio/mod.rs and src/aio/server.rs: what the server's session makes of the async client's
-- answer to a PUBLISH of QoS 1.
use tjiftjaf.Prelude.{ℕ, ◌≡◌, refl, arith, ◌++◌, some, true, ◌/◌, ◌%◌, [], ◌∷◌}
use tjiftjaf.Result.{ok}
use tjiftjaf.Rust.{Bytes}
use tjiftjaf.Encode.Remaining.{groups}
use tjiftjaf.Kinds.{PacketType, packet_type_try_from, packet_type_eq, at_least_once_delivery}
use tjiftjaf.Frame.Layout.{frame}
use tjiftjaf.Packet
use tjiftjaf.Packet.{Packet}
use tjiftjaf.Packet.Ack
use tjiftjaf.Packet.Publish
use tjiftjaf.Packet.Publish.{Publish}
use tjiftjaf.Binding
use tjiftjaf.Binding.{MqttBinding}
use tjiftjaf.Client.{answer, acknowledge}
use tjiftjaf.Server.Session.{Client, readable, failed, unexpected_packet, on_event, on_packet}
use tjiftjaf.Server.Session.Answers.{on_event-frame}

abbrev pub puback : ℕ → Packet
puback id = Packet.pub_ack (Ack.new PacketType.pub_ack id)

try_from-puback :
    (id : ℕ) → Packet.try_from (frame 64 (id / 256 % 256 ∷ id % 256 ∷ [])) ≡ ok (puback id)
unfolding Packet.try_from Ack.try_from_as Ack.try_from packet_type_try_from packet_type_eq
    Ack.packet_type groups Ack.new
try_from-puback id = refl

puback_bytes : (id : ℕ) → Packet.into_bytes (puback id) ≡ frame 64 (id / 256 % 256 ∷ id % 256 ∷ [])
unfolding Packet.into_bytes Ack.new groups
puback_bytes id = refl

-- The async client answers a PUBLISH of QoS 1 with a PUBACK of its identifier; the session of the
-- server that reads the bytes of this answer fails with `UnexpectedPacket`, and ends.
pub answer-fails :
    {Sender : Type 0} (b : MqttBinding) (d : Client Sender) (p : Publish) (id : ℕ) (rest : Bytes)
    → Publish.qos p ≡ ok at_least_once_delivery
    → Publish.packet_identifier p ≡ ok (some id)
    → d.stream ≡ Packet.into_bytes (puback id) ++ rest
    → (answer b (Packet.publish p) ≡ ok (Binding.send b (puback id)))
      × (on_event d (readable true true)
          ≡ ok (record d { stream = rest }, failed unexpected_packet))
unfolding answer acknowledge on_packet
answer-fails b d p id rest eq ei stream = (
  rw (eq, ei) refl,
  on_event-frame d 64 (id / 256 % 256 ∷ id % 256 ∷ []) rest (puback id) true true
      (rw (puback_bytes id) at stream) (omega arith) (try_from-puback id),
)

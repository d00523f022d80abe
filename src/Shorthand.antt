-- ===== src/Shorthand.antt =====
-- src/lib.rs: `packet_identifier`, and the functions that build a packet with a topic. The clock
-- is an argument: the nanoseconds since the epoch, or `none` before it.
pub mod Granted
use tjiftjaf.Prelude.{
  ℕ, suc, ◌+◌, ◌*◌, ◌%◌, ◌^◌, ◌≤◌, ◌<◌, ◌≡◌, ◌≢◌, refl, ap, ◌∙◌, arith, Option, none, some, List,
  [], ◌∷◌, length, All,
}
use tjiftjaf.Result.{Result, ok, panic, ◌>>=◌}
use tjiftjaf.Rust.{Bytes, IsU16}
use tjiftjaf.Kinds.{QoS, at_most_once_delivery}
use tjiftjaf.Packet
use tjiftjaf.Packet.{Packet}
use tjiftjaf.Packet.Connect
use tjiftjaf.Packet.Connect.Build
use tjiftjaf.Packet.Subscribe
use tjiftjaf.Packet.Subscribe.Codec.{build_subscribe}
use tjiftjaf.Packet.Unsubscribe
use tjiftjaf.Packet.Publish

-- `packet_identifier`
unfoldable pub packet_identifier : Option ℕ → Result ℕ
packet_identifier (some nanos) = ok (nanos % 2 ^ 16)
packet_identifier none = panic

-- `connect`
unfoldable pub connect : (client_id : Bytes) (keep_alive_interval : ℕ) → Result Packet
connect client_id keep_alive_interval = do
  p ←
      Build.build
        (Build.set_keep_alive (Build.set_client_id Build.new client_id) keep_alive_interval)
  ok (Packet.connect p)

-- `subscribe` and `unsubscribe`
unfoldable pub subscribe : Option ℕ → Bytes → Result Subscribe.Subscribe
subscribe now topic = do
  id ← packet_identifier now
  Subscribe.build (Subscribe.new id (topic, at_most_once_delivery))

unfoldable pub unsubscribe : Option ℕ → Bytes → Result Unsubscribe.Unsubscribe
unsubscribe now topic = do id ← packet_identifier now; Unsubscribe.build (Unsubscribe.new id topic)

-- `publish`; with a QoS of 0 there is no identifier.
unfoldable pub publish : (topic payload : Bytes) → Result Publish.Publish
publish topic payload = Publish.build (Publish.new topic payload) 0

-- ===== src/Packet/Decoder.antt =====
-- src/packet/mod.rs: which decoder a packet comes from.
use tjiftjaf.Prelude.{◌≡◌, ap, ◌∙◌, get_elem?}
use tjiftjaf.Result.{Result, ok, >>=-eq-ok, ok_or, not_enough_bytes}
use tjiftjaf.Rust.{Bytes}
use tjiftjaf.Kinds.{PacketType, packet_type_try_from}
use tjiftjaf.Packet
use tjiftjaf.Packet.{Packet, try_from_type}
use tjiftjaf.Packet.Ack
use tjiftjaf.Packet.ConnAck
use tjiftjaf.Packet.Ping.{ping_req_try_from, ping_resp_try_from, disconnect_try_from}
use tjiftjaf.Packet.SubAck
use tjiftjaf.Packet.Subscribe
use tjiftjaf.Packet.Unsubscribe
use tjiftjaf.Packet.Publish
use tjiftjaf.Packet.Connect
use tjiftjaf.Packet.Connect.{Connect}

connect_inj : {c p : Connect} → Result.ok (Packet.connect c) ≡ ok (Packet.connect p) → c ≡ p
connect_inj e = cc

connect_of_type :
    (t : PacketType) (v : Bytes) (p : Connect)
    → try_from_type t v ≡ ok (Packet.connect p)
    → Connect.try_from v ≡ ok p
unfolding try_from_type
connect_of_type PacketType.connect v p e =
    let (c, ec, same) = >>=-eq-ok (Connect.try_from v) _ e in ec ∙ ap ok (connect_inj same)
connect_of_type PacketType.ping_req v p e =
    let (_, _, same) = >>=-eq-ok (ping_req_try_from v) _ e in cc
connect_of_type PacketType.ping_resp v p e =
    let (_, _, same) = >>=-eq-ok (ping_resp_try_from v) _ e in cc
connect_of_type PacketType.disconnect v p e =
    let (_, _, same) = >>=-eq-ok (disconnect_try_from v) _ e in cc
connect_of_type PacketType.pub_comp v p e =
    let (_, _, same) = >>=-eq-ok (Ack.try_from_as PacketType.pub_comp v) _ e in cc
connect_of_type PacketType.conn_ack v p e =
    let (_, _, same) = >>=-eq-ok (ConnAck.try_from v) _ e in cc
connect_of_type PacketType.sub_ack v p e =
    let (_, _, same) = >>=-eq-ok (SubAck.try_from v) _ e in cc
connect_of_type PacketType.publish v p e =
    let (_, _, same) = >>=-eq-ok (Publish.try_from v) _ e in cc
connect_of_type PacketType.pub_rec v p e =
    let (_, _, same) = >>=-eq-ok (Ack.try_from_as PacketType.pub_rec v) _ e in cc
connect_of_type PacketType.pub_rel v p e =
    let (_, _, same) = >>=-eq-ok (Ack.try_from_as PacketType.pub_rel v) _ e in cc
connect_of_type PacketType.pub_ack v p e =
    let (_, _, same) = >>=-eq-ok (Ack.try_from_as PacketType.pub_ack v) _ e in cc
connect_of_type PacketType.unsub_ack v p e =
    let (_, _, same) = >>=-eq-ok (Ack.try_from_as PacketType.unsub_ack v) _ e in cc
connect_of_type PacketType.unsubscribe v p e =
    let (_, _, same) = >>=-eq-ok (Unsubscribe.try_from v) _ e in cc
connect_of_type PacketType.subscribe v p e =
    let (_, _, same) = >>=-eq-ok (Subscribe.try_from v) _ e in cc

-- A CONNECT comes from `Connect::try_from`.
pub try_from-connect :
    (v : Bytes) (p : Connect)
    → Packet.try_from v ≡ ok (Packet.connect p)
    → Connect.try_from v ≡ ok p
unfolding Packet.try_from
try_from-connect v p e =
    let (byte, _, e1) = >>=-eq-ok (ok_or (get_elem? v 0) (not_enough_bytes 2 0)) _ e in
    let (t, _, e2) = >>=-eq-ok (packet_type_try_from byte) _ e1 in connect_of_type t v p e2

-- ===== src/Client/Keeps.antt =====
-- src/aio/mod.rs: an answer leaves the status of the connection as it was.
use mathlib.Core.Path.{subst}
use tjiftjaf.Prelude.{ℕ, ◌≡◌, refl, Option, none, some}
use tjiftjaf.Result.{Result, ok, >>=-eq-ok}
use tjiftjaf.Kinds.{QoS, at_most_once_delivery, at_least_once_delivery, exactly_once_delivery}
use tjiftjaf.Packet.{Packet}
use tjiftjaf.Packet.Publish
use tjiftjaf.Binding.{MqttBinding, send}
use tjiftjaf.Binding.Keeps.{Keeps, Keeps-all, ok_inj}
use tjiftjaf.Client.{answer, acknowledge}

-- An answer is enqueued, and touches nothing else.
send-Keeps : (b b' : MqttBinding) (p : Packet) → Result.ok (send b p) ≡ ok b' → Keeps b b'
unfolding send
send-Keeps b b' p e = subst (Keeps b) (ok_inj e) (record { status_is = refl; connect_is = refl })

same-Keeps : (b b' : MqttBinding) → Result.ok b ≡ ok b' → Keeps b b'
same-Keeps b b' e = subst (Keeps b) (ok_inj e) (Keeps-all b)

acknowledge-Keeps :
    (b b' : MqttBinding) (q : QoS) (id : Option ℕ) → acknowledge b q id ≡ ok b' → Keeps b b'
unfolding acknowledge
acknowledge-Keeps b b' at_most_once_delivery id e = same-Keeps b b' e
acknowledge-Keeps b b' at_least_once_delivery (some id) e = send-Keeps b b' _ e
acknowledge-Keeps b b' exactly_once_delivery (some id) e = send-Keeps b b' _ e
acknowledge-Keeps b b' at_least_once_delivery none e = cc
acknowledge-Keeps b b' exactly_once_delivery none e = cc

pub answer-Keeps : (b b' : MqttBinding) (p : Packet) → answer b p ≡ ok b' → Keeps b b'
unfolding answer
answer-Keeps b b' (Packet.publish p) e =
    let (q, _, e1) = >>=-eq-ok (Publish.qos p) _ e in
    let (id, _, e2) = >>=-eq-ok (Publish.packet_identifier p) _ e1 in acknowledge-Keeps b b' q id e2
answer-Keeps b b' (Packet.pub_rec ack) e = send-Keeps b b' _ e
answer-Keeps b b' (Packet.pub_rel ack) e = send-Keeps b b' _ e
answer-Keeps b b' (Packet.connect _) e = same-Keeps b b' e
answer-Keeps b b' (Packet.conn_ack _) e = same-Keeps b b' e
answer-Keeps b b' (Packet.pub_ack _) e = same-Keeps b b' e
answer-Keeps b b' (Packet.pub_comp _) e = same-Keeps b b' e
answer-Keeps b b' (Packet.subscribe _) e = same-Keeps b b' e
answer-Keeps b b' (Packet.sub_ack _) e = same-Keeps b b' e
answer-Keeps b b' (Packet.unsubscribe _) e = same-Keeps b b' e
answer-Keeps b b' (Packet.unsub_ack _) e = same-Keeps b b' e
answer-Keeps b b' (Packet.ping_req _) e = same-Keeps b b' e
answer-Keeps b b' (Packet.ping_resp _) e = same-Keeps b b' e
answer-Keeps b b' (Packet.disconnect _) e = same-Keeps b b' e

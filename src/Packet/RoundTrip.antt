-- ===== src/Packet/RoundTrip.antt =====
-- Decoding loses nothing: the bytes of a decoded packet are the bytes that were decoded.
use tjiftjaf.Prelude.{get_elem?, ◌≡◌, refl, sym, ap, ◌∙◌}
use tjiftjaf.Result.{Result, ok, err, panic, >>=-eq-ok, ◌>>=◌, ◌>>◌, ok_or, not_enough_bytes}
use tjiftjaf.Rust.{Bytes}
use tjiftjaf.Kinds.{PacketType, packet_type_try_from}
use tjiftjaf.Frame.{try_two_bytes}
use tjiftjaf.Packet.{
  Packet, into_bytes, try_from, try_from_type, connect, conn_ack, publish, pub_ack, pub_rec,
  pub_rel, pub_comp, subscribe, sub_ack, unsubscribe, unsub_ack, ping_req, ping_resp, disconnect,
}
use tjiftjaf.Packet.Ack
use tjiftjaf.Packet.Ack.Codec.{try_from_as-IsAckOf}
use tjiftjaf.Packet.ConnAck
use tjiftjaf.Packet.ConnAck.Codec.{try_from-IsConnAck}
use tjiftjaf.Packet.Ping
use tjiftjaf.Packet.Ping.{
  pingreq_bytes, pingresp_bytes, disconnect_bytes, try_from_constant, try_from_constant_eq,
  ping_req_try_from, ping_resp_try_from, disconnect_try_from,
}
use tjiftjaf.Packet.SubAck
use tjiftjaf.Packet.Subscribe
use tjiftjaf.Packet.Unsubscribe
use tjiftjaf.Packet.Publish
use tjiftjaf.Packet.Connect

ack_bytes :
    (t : PacketType) (bytes : Bytes) (p : Ack.Ack)
    → Ack.try_from_as t bytes ≡ ok p
    → Ack.as_bytes p ≡ bytes
ack_bytes t bytes p e = sym (rw e at (try_from_as-IsAckOf t bytes)).0

conn_ack_bytes :
    (bytes : Bytes) (p : ConnAck.ConnAck)
    → ConnAck.try_from bytes ≡ ok p
    → ConnAck.as_bytes p ≡ bytes
conn_ack_bytes bytes p e = sym (rw e at (try_from-IsConnAck bytes)).0

-- Three checks in a row give, when they pass, the packet that follows them.
passed {ℓ} :
    {A B C : Type 0} {P : Type ℓ} (a : Result A) (b : Result B) (c : Result C) {p q : P}
    → (a >> (b >> (c >> ok p))) ≡ ok q
    → p ≡ q
passed (ok a) (ok b) (ok c) e = cc
passed (ok a) (ok b) (err c) e = cc
passed (ok a) (ok b) panic e = cc
passed (ok a) (err b) c e = cc
passed (ok a) panic c e = cc
passed (err a) b c e = cc
passed panic b c e = cc

ok-inj {ℓ} : {A : Type ℓ} {a b : A} → Result.ok a ≡ ok b → a ≡ b
ok-inj e = cc

sub_ack_bytes :
    (bytes : Bytes) (p : SubAck.SubAck) → SubAck.try_from bytes ≡ ok p → SubAck.into_bytes p ≡ bytes
unfolding SubAck.try_from SubAck.verify
sub_ack_bytes bytes p e =
    let u : SubAck.UnverifiedSubAck = record { inner = bytes } in
    sym (
      ap SubAck.into_bytes
        (passed (SubAck.verify_header u) (try_two_bytes bytes) (SubAck.try_return_codes u) e))

subscribe_bytes :
    (bytes : Bytes) (p : Subscribe.Subscribe)
    → Subscribe.try_from bytes ≡ ok p
    → Subscribe.into_bytes p ≡ bytes
unfolding Subscribe.try_from Subscribe.verify
subscribe_bytes bytes p e =
    let u : Subscribe.UnverifiedSubscribe = record { inner = bytes } in
    sym (
      ap Subscribe.into_bytes
        (passed (Subscribe.verify_header u) (try_two_bytes bytes) (Subscribe.try_topics u) e))

unsubscribe_bytes :
    (bytes : Bytes) (p : Unsubscribe.Unsubscribe)
    → Unsubscribe.try_from bytes ≡ ok p
    → Unsubscribe.into_bytes p ≡ bytes
unfolding Unsubscribe.try_from Unsubscribe.verify
unsubscribe_bytes bytes p e =
    let u : Unsubscribe.UnverifiedUnsubscribe = record { inner = bytes } in
    sym (
      ap Unsubscribe.into_bytes
        (passed (Unsubscribe.verify_header u) (try_two_bytes bytes) (Unsubscribe.try_topics u) e))

publish_bytes :
    (bytes : Bytes) (p : Publish.Publish)
    → Publish.try_from bytes ≡ ok p
    → Publish.into_bytes p ≡ bytes
unfolding Publish.try_from Publish.verify
publish_bytes bytes p e =
    let u : Publish.UnverifiedPublish = record { inner = bytes } in
    sym (
      ap Publish.into_bytes (
        passed (Publish.verify_header u) (Publish.try_topic u) (Publish.try_packet_identifier u) e))

connect_bytes :
    (bytes : Bytes) (p : Connect.Connect)
    → Connect.try_from bytes ≡ ok p
    → Connect.into_bytes p ≡ bytes
unfolding Connect.try_from Connect.verify
connect_bytes bytes p e =
    let u : Connect.UnverifiedConnect = record { inner = bytes } in
    sym (
      ap Connect.into_bytes (
        passed (Connect.verify_header u) (Connect.verify_variable_header u)
          (Connect.verify_payload u) e))

through :
    {A : Type 0} (bytes : Bytes) (m : Result A) (c : A → Packet) (p : Packet)
    → ((q : A) → m ≡ ok q → into_bytes (c q) ≡ bytes)
    → (m >>= λ q. ok (c q)) ≡ ok p
    → into_bytes p ≡ bytes
through bytes (ok q) c p f e = sym (ap into_bytes (ok-inj e)) ∙ f q refl
through bytes (err _) c p f e = cc
through bytes panic c p f e = cc

typed_bytes :
    (t : PacketType) (bytes : Bytes) (p : Packet)
    → try_from_type t bytes ≡ ok p
    → into_bytes p ≡ bytes
unfolding try_from_type into_bytes ping_req_try_from ping_resp_try_from disconnect_try_from
typed_bytes PacketType.connect bytes p e =
    through bytes (Connect.try_from bytes) connect p (λ q h. connect_bytes bytes q h) e
typed_bytes PacketType.conn_ack bytes p e =
    through bytes (ConnAck.try_from bytes) conn_ack p (λ q h. conn_ack_bytes bytes q h) e
typed_bytes PacketType.publish bytes p e =
    through bytes (Publish.try_from bytes) publish p (λ q h. publish_bytes bytes q h) e
typed_bytes PacketType.pub_ack bytes p e =
    through bytes (Ack.try_from_as PacketType.pub_ack bytes) pub_ack p
      (λ q h. ack_bytes _ bytes q h) e
typed_bytes PacketType.pub_rec bytes p e =
    through bytes (Ack.try_from_as PacketType.pub_rec bytes) pub_rec p
      (λ q h. ack_bytes _ bytes q h) e
typed_bytes PacketType.pub_rel bytes p e =
    through bytes (Ack.try_from_as PacketType.pub_rel bytes) pub_rel p
      (λ q h. ack_bytes _ bytes q h) e
typed_bytes PacketType.pub_comp bytes p e =
    through bytes (Ack.try_from_as PacketType.pub_comp bytes) pub_comp p
      (λ q h. ack_bytes _ bytes q h) e
typed_bytes PacketType.subscribe bytes p e =
    through bytes (Subscribe.try_from bytes) subscribe p (λ q h. subscribe_bytes bytes q h) e
typed_bytes PacketType.sub_ack bytes p e =
    through bytes (SubAck.try_from bytes) sub_ack p (λ q h. sub_ack_bytes bytes q h) e
typed_bytes PacketType.unsubscribe bytes p e =
    through bytes (Unsubscribe.try_from bytes) unsubscribe p (λ q h. unsubscribe_bytes bytes q h) e
typed_bytes PacketType.unsub_ack bytes p e =
    through bytes (Ack.try_from_as PacketType.unsub_ack bytes) unsub_ack p
      (λ q h. ack_bytes _ bytes q h) e
typed_bytes PacketType.ping_req bytes p e =
    through bytes (ping_req_try_from bytes) ping_req p
      (λ q h. sym (try_from_constant_eq Ping.ping_req q pingreq_bytes bytes h)) e
typed_bytes PacketType.ping_resp bytes p e =
    through bytes (ping_resp_try_from bytes) ping_resp p
      (λ q h. sym (try_from_constant_eq Ping.ping_resp q pingresp_bytes bytes h)) e
typed_bytes PacketType.disconnect bytes p e =
    through bytes (disconnect_try_from bytes) disconnect p
      (λ q h. sym (try_from_constant_eq Ping.disconnect q disconnect_bytes bytes h)) e

-- When `Packet::try_from` accepts bytes, the packet's `into_bytes` are these bytes.
pub try_from-into_bytes :
    (bytes : Bytes) (p : Packet) → try_from bytes ≡ ok p → into_bytes p ≡ bytes
unfolding try_from
try_from-into_bytes bytes p e =
    let (byte, _, e1) = >>=-eq-ok (ok_or (get_elem? bytes 0) (not_enough_bytes 2 0)) _ e in
    let (t, _, e2) = >>=-eq-ok (packet_type_try_from byte) _ e1 in typed_bytes t bytes p e2

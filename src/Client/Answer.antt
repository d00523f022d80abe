-- ===== src/Client/Answer.antt =====
-- src/aio/mod.rs: the client answers each PUBLISH that was decoded, as its QoS asks for.
use tjiftjaf.Prelude.{ℕ, ◌≡◌, refl, sym, ap, ◌∙◌, arith, Option, none, some, if◌then◌else◌}
use tjiftjaf.Result.{Result, ok, ◌>>=◌, >>=-eq-ok, unwrap}
use tjiftjaf.Rust.{Bytes, slice_from}
use tjiftjaf.Decode
use tjiftjaf.Kinds.{
  PacketType, QoS, at_most_once_delivery, at_least_once_delivery, exactly_once_delivery,
  is_at_most_once,
}
use tjiftjaf.Packet.{Packet}
use tjiftjaf.Packet.Ack
use tjiftjaf.Packet.Publish
use tjiftjaf.Packet.Publish.{UnverifiedPublish}
use tjiftjaf.Binding.{MqttBinding, send}
use tjiftjaf.Client.{acknowledge, answer}

-- What the client has to answer to a PUBLISH with a QoS and an identifier; one with a QoS above
-- 0 and no identifier does not occur.
abbrev pub Answered : MqttBinding → Result MqttBinding → QoS → Option ℕ → Type 0
Answered b r at_most_once_delivery o = r ≡ ok b
Answered b r at_least_once_delivery (some id) =
    r ≡ ok (send b (Packet.pub_ack (Ack.new PacketType.pub_ack id)))
Answered b r exactly_once_delivery (some id) =
    r ≡ ok (send b (Packet.pub_rec (Ack.new PacketType.pub_rec id)))
Answered b r at_least_once_delivery none = ⊥
Answered b r exactly_once_delivery none = ⊥

-- The end of `packet_identifier`: an identifier, unless the QoS asks for none.
identified :
    (s : Result Bytes) (o : Option ℕ)
    → (s >>= λ rest. (Decode.u16 rest >>= λ i. ok (some i))) ≡ ok o
    → (id : ℕ) × (o ≡ some id)
identified s o e =
    let (rest, _, e1) = >>=-eq-ok s _ e in
    let (id, _, e2) = >>=-eq-ok (Decode.u16 rest) _ e1 in (id, ground (arith, e2))

by_qos :
    (q : QoS) (o : Option ℕ) (bare : Result (Option ℕ)) (s : Result Bytes)
    → (if is_at_most_once q then bare else (s >>= λ rest. (Decode.u16 rest >>= λ i. ok (some i))))
      ≡ ok o
    → (b : MqttBinding) → Answered b (acknowledge b q o) q o
unfolding acknowledge
by_qos at_most_once_delivery o bare s e b = refl
by_qos at_least_once_delivery o bare s e b = let (id, some_id) = identified s o e in rw some_id refl
by_qos exactly_once_delivery o bare s e b = let (id, some_id) = identified s o e in rw some_id refl

identifier-cases :
    (u : UnverifiedPublish) (o : Option ℕ)
    → Publish.try_packet_identifier u ≡ ok o
    → (q : QoS) × (Publish.try_qos u ≡ ok q)
      × ((b : MqttBinding) → Answered b (acknowledge b q o) q o)
unfolding Publish.try_packet_identifier
identifier-cases u o e =
    let (header, _, e1) = >>=-eq-ok (Publish.try_variable_header u) _ e in
    let (pair, _, e2) = >>=-eq-ok (Decode.utf8 header) _ e1 in
    let (q, eq, e3) = >>=-eq-ok (Publish.try_qos u) _ e2 in
    (q, eq, by_qos q o _ (slice_from header pair.1) e3)

verified_identifier :
    (bytes : Bytes) (p : Publish.Publish)
    → Publish.try_from bytes ≡ ok p
    → (o : Option ℕ) × (Publish.try_packet_identifier p.inner ≡ ok o)
unfolding Publish.try_from Publish.verify
verified_identifier bytes p e =
    let u : UnverifiedPublish = record { inner = bytes } in
    let (_, _, e1) = >>=-eq-ok (Publish.verify_header u) _ e in
    let (_, _, e2) = >>=-eq-ok (Publish.try_topic u) _ e1 in
    let (o, found, e3) = >>=-eq-ok (Publish.try_packet_identifier u) _ e2 in
    let same : u ≡ p.inner = ground (arith, e3) in
    (o, ap Publish.try_packet_identifier (sym same) ∙ found)

-- To a PUBLISH that `Publish::try_from` accepted, the client answers without a panic: nothing
-- for QoS 0, a PUBACK with the packet's identifier for QoS 1, and a PUBREC with it for QoS 2.
pub answer-publish :
    (bytes : Bytes) (p : Publish.Publish) (b : MqttBinding)
    → Publish.try_from bytes ≡ ok p
    → (q : QoS) × (o : Option ℕ) × (Publish.qos p ≡ ok q)
      × (Publish.packet_identifier p ≡ ok o)
      × Answered b (answer b (Packet.publish p)) q o
unfolding answer
answer-publish bytes p b e =
    let (o, found) = verified_identifier bytes p e in
    let (q, eq, answered) = identifier-cases p.inner o found in
    (q, o, ap unwrap eq, ap unwrap found, rw (eq, found) (answered b))

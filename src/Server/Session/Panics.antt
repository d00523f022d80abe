-- ===== src/Server/Session/Panics.antt =====
-- src/aio/server.rs: which frames of a client make its session panic.
use mathlib.Core.Path.{subst}
use tjiftjaf.Prelude.{
  ℕ, ◌+◌, ◌/◌, ◌≤◌, ◌≡◌, ◌≢◌, ◌↔◌, refl, sym, ap, ◌∙◌, arith, Bool, true, false, ◌||◌, ◌==◌, List,
  [], ◌∷◌, ◌++◌, length, length-append,
}
use tjiftjaf.Result.{Result, ok, err, panic, ◌>>=◌, >>=-eq-ok}
use tjiftjaf.Rust.{Bytes}
use tjiftjaf.Frame.Layout.{max_body, frame, fixed_header, try_header-fixed_header}
use tjiftjaf.Kinds.{PacketType, QoS, packet_type_code, packet_type_try_from}
use tjiftjaf.Kinds.Codes.{packet_type_try_from-IsTypeOf, IsTypeOf}
use tjiftjaf.Packet
use tjiftjaf.Packet.{Packet, try_from_type}
use tjiftjaf.Packet.Ack
use tjiftjaf.Packet.ConnAck
use tjiftjaf.Packet.Connect
use tjiftjaf.Packet.Ping.{ping_req_try_from, ping_resp_try_from, disconnect_try_from}
use tjiftjaf.Packet.Publish
use tjiftjaf.Packet.SubAck
use tjiftjaf.Packet.SubAck.Codec.{built, build-built}
use tjiftjaf.Packet.Subscribe
use tjiftjaf.Packet.Subscribe.Verified.{subscribe-Readable}
use tjiftjaf.Packet.Subscribe.Count.{topics-length}
use tjiftjaf.Packet.Unsubscribe
use tjiftjaf.Server.Table.{Message, packet}
use tjiftjaf.Server.Session.{
  Client, Flow, go_on, send, funnel, readable, on_packet, on_event, sub_ack_builder,
}
use tjiftjaf.Server.Session.Answers.{on_event-frame}
use tjiftjaf.Server.Session.Grants.{codes, length-codes, builder_of}

-- The types of CONNACK, PUBREC, PUBREL, PUBCOMP, UNSUBSCRIBE, UNSUBACK and PINGRESP in MQTT.
abbrev pub is_unserved : ℕ → Bool
is_unserved code =
    code == 2 || code == 5 || code == 6 || code == 7 || code == 10 || code == 11 || code == 13

-- The bytes behind the fixed header are at least as many as the topics and two more.
topics-frame :
    (first : ℕ) (body : Bytes) (s : Subscribe.Subscribe)
    → length body ≤ max_body
    → Subscribe.try_from (frame first body) ≡ ok s
    → (ts : List (Bytes × QoS)) × (Subscribe.all_topics s ≡ ok ts)
      × (ts ≢ [])
      × (length ts + 2 ≤ max_body)
topics-frame first body s fit e =
    let header = fixed_header first (length body) in
    let (ts, all, some_topic, room) =
      topics-length (frame first body) header s
        (try_header-fixed_header first (length body) body fit) e in
    let size : length (frame first body) ≡ length header + length body =
      length-append header body in
    (ts, all, some_topic, omega (arith, room, size, fit))

-- The SUBACK that answers a SUBSCRIBE that was verified is built.
answer_built :
    (first : ℕ) (body : Bytes) (s : Subscribe.Subscribe)
    → length body ≤ max_body
    → Subscribe.try_from (frame first body) ≡ ok s
    → (b : SubAck.Builder) × (ack : SubAck.SubAck) × (sub_ack_builder s ≡ ok b)
      × (SubAck.build b ≡ ok ack)
answer_built first body s fit e =
    let (id, ei) = (subscribe-Readable (frame first body) s e).packet_identifier in
    let (ts, all, some_topic, room) = topics-frame first body s fit e in
    with_topics id ts ei all some_topic room
  where
    with_topics :
        (id : ℕ) (ts : List (Bytes × QoS))
        → Subscribe.packet_identifier s ≡ ok id
        → Subscribe.all_topics s ≡ ok ts
        → ts ≢ []
        → length ts + 2 ≤ max_body
        → (b : SubAck.Builder) × (ack : SubAck.SubAck) × (sub_ack_builder s ≡ ok b)
          × (SubAck.build b ≡ ok ack)
    with_topics id [] ei all some_topic room = absurd (some_topic refl)
    with_topics id ((topic, q) ∷ ts) ei all some_topic room =
        let b : SubAck.Builder = record {
          packet_identifier = id;
          return_codes = codes ((topic, q) ∷ ts);
        } in
        let fits : length b.return_codes + 2 ≤ max_body = omega (arith, length-codes ts, room) in
        (b, built b fits, builder_of s id topic q ts ei all, build-built b fits)

module _ {Sender : Type 0} (c : Client Sender) (funnel_open written : Bool) where
  -- Whether a packet makes the session panic.
  abbrev Crashes : Bool → Packet → Type 0
  Crashes unserved p = (on_packet c funnel_open written p ≡ panic) ↔ (unserved ≡ true)

  never : (p : Packet) → on_packet c funnel_open written p ≢ panic → Crashes false p
  never p h = (λ e. absurd (h e), λ e. cc)

  always : (p : Packet) → on_packet c funnel_open written p ≡ panic → Crashes true p
  always p h = (λ _. refl, λ _. h)

  through :
      {A : Type 0} (m : Result A) (make : A → Packet) (unserved : Bool) (p : Packet)
      → ((q : A) → m ≡ ok q → Crashes unserved (make q))
      → (m >>= λ q. ok (make q)) ≡ ok p
      → Crashes unserved p
  through (ok q) make unserved p h e =
      let same : make q ≡ p = ground (arith, e) in subst (Crashes unserved) same (h q refl)
  through (err _) make unserved p h e = cc
  through panic make unserved p h e = cc

  funnel_served :
      (takes : Bool) (message : Message Sender)
      (next : Client Sender → Result (Client Sender × Flow))
      → ((c' : Client Sender) → next c' ≢ panic)
      → funnel c message takes next ≢ panic
  funnel_served true message next h e = h _ e
  funnel_served false message next h e = cc

  publish_served :
      (name : Bytes) (p : Publish.Publish)
      → Connect.client_id c.connect ≡ ok name
      → on_packet c funnel_open written (Packet.publish p) ≢ panic
  unfolding on_packet
  publish_served name p en e =
      funnel_served funnel_open (packet name (Packet.publish p)) (λ c'. ok (c', go_on))
        (λ c' e'. cc) (rw en at e)

  subscribe_served :
      (name : Bytes) (s : Subscribe.Subscribe) (b : SubAck.Builder) (ack : SubAck.SubAck)
      → Connect.client_id c.connect ≡ ok name
      → sub_ack_builder s ≡ ok b
      → SubAck.build b ≡ ok ack
      → on_packet c funnel_open written (Packet.subscribe s) ≢ panic
  unfolding on_packet
  subscribe_served name s b ack en eb ea e =
      funnel_served funnel_open (packet name (Packet.subscribe s))
        (λ c'. SubAck.build b >>= λ a. ok (send c' (Packet.sub_ack a) written))
        (λ c' e'. let e1 = rw ea at e' in cc) (rw (eb, en) at e)

  -- A packet of a type that `Packet::try_from` accepts in a frame.
  try_from_type-Crashes :
      (t : PacketType) (first : ℕ) (body name : Bytes) (p : Packet)
      → length body ≤ max_body
      → Connect.client_id c.connect ≡ ok name
      → try_from_type t (frame first body) ≡ ok p
      → Crashes (is_unserved (packet_type_code t)) p
  unfolding try_from_type packet_type_code on_packet
  try_from_type-Crashes PacketType.connect first body name p fit en e =
      through (Connect.try_from (frame first body)) (λ q. Packet.connect q) false p
        (λ q accepted. never (Packet.connect q) (λ e. cc)) e
  try_from_type-Crashes PacketType.conn_ack first body name p fit en e =
      through (ConnAck.try_from (frame first body)) (λ q. Packet.conn_ack q) true p
        (λ q accepted. always (Packet.conn_ack q) refl) e
  try_from_type-Crashes PacketType.publish first body name p fit en e =
      through (Publish.try_from (frame first body)) (λ q. Packet.publish q) false p
        (λ q accepted. never (Packet.publish q) (publish_served name q en)) e
  try_from_type-Crashes PacketType.pub_ack first body name p fit en e =
      through (Ack.try_from_as PacketType.pub_ack (frame first body)) (λ q. Packet.pub_ack q) false
        p (λ q accepted. never (Packet.pub_ack q) (λ e. cc)) e
  try_from_type-Crashes PacketType.pub_rec first body name p fit en e =
      through (Ack.try_from_as PacketType.pub_rec (frame first body)) (λ q. Packet.pub_rec q) true p
        (λ q accepted. always (Packet.pub_rec q) refl) e
  try_from_type-Crashes PacketType.pub_rel first body name p fit en e =
      through (Ack.try_from_as PacketType.pub_rel (frame first body)) (λ q. Packet.pub_rel q) true p
        (λ q accepted. always (Packet.pub_rel q) refl) e
  try_from_type-Crashes PacketType.pub_comp first body name p fit en e =
      through (Ack.try_from_as PacketType.pub_comp (frame first body)) (λ q. Packet.pub_comp q) true
        p (λ q accepted. always (Packet.pub_comp q) refl) e
  try_from_type-Crashes PacketType.subscribe first body name p fit en e =
      through (Subscribe.try_from (frame first body)) (λ q. Packet.subscribe q) false p
        (λ q accepted.
          let (b, ack, eb, ea) = answer_built first body q fit accepted in
          never (Packet.subscribe q) (subscribe_served name q b ack en eb ea))
        e
  try_from_type-Crashes PacketType.sub_ack first body name p fit en e =
      through (SubAck.try_from (frame first body)) (λ q. Packet.sub_ack q) false p
        (λ q accepted. never (Packet.sub_ack q) (λ e. cc)) e
  try_from_type-Crashes PacketType.unsubscribe first body name p fit en e =
      through (Unsubscribe.try_from (frame first body)) (λ q. Packet.unsubscribe q) true p
        (λ q accepted. always (Packet.unsubscribe q) refl) e
  try_from_type-Crashes PacketType.unsub_ack first body name p fit en e =
      through (Ack.try_from_as PacketType.unsub_ack (frame first body)) (λ q. Packet.unsub_ack q)
        true p (λ q accepted. always (Packet.unsub_ack q) refl) e
  try_from_type-Crashes PacketType.ping_req first body name p fit en e =
      through (ping_req_try_from (frame first body)) (λ q. Packet.ping_req q) false p
        (λ q accepted. never (Packet.ping_req q) (λ e. cc)) e
  try_from_type-Crashes PacketType.ping_resp first body name p fit en e =
      through (ping_resp_try_from (frame first body)) (λ q. Packet.ping_resp q) true p
        (λ q accepted. always (Packet.ping_resp q) refl) e
  try_from_type-Crashes PacketType.disconnect first body name p fit en e =
      through (disconnect_try_from (frame first body)) (λ q. Packet.disconnect q) false p
        (λ q accepted. never (Packet.disconnect q) (λ e. cc)) e

module _ {Sender : Type 0} where
  -- A session with a client id reads a frame with a length of up to four bytes that
  -- `Packet::try_from` accepts. It panics where the type in the first byte is that of CONNACK,
  -- PUBREC, PUBREL, PUBCOMP, UNSUBSCRIBE, UNSUBACK or PINGRESP, and for no other type: whatever is
  -- in the packet, and whether or not the server takes the message and the socket the bytes.
  pub on_event-panic :
      (c : Client Sender) (first : ℕ) (body rest name : Bytes) (p : Packet)
      (funnel_open written : Bool)
      → c.stream ≡ frame first body ++ rest
      → length body ≤ max_body
      → Packet.try_from (frame first body) ≡ ok p
      → Connect.client_id c.connect ≡ ok name
      → (on_event c (readable funnel_open written) ≡ panic) ↔ (is_unserved (first / 16) ≡ true)
  unfolding Packet.try_from
  on_event-panic c first body rest name p funnel_open written es fit accepted en =
      let (t, et, e1) = >>=-eq-ok (packet_type_try_from first) _ accepted in
      let code : packet_type_code t ≡ first / 16 =
        subst (IsTypeOf first) et (packet_type_try_from-IsTypeOf first) in
      let same = on_event-frame c first body rest p funnel_open written es fit accepted in
      let c' : Client Sender = record c { stream = rest } in
      let (panics, unserved) =
        try_from_type-Crashes c' funnel_open written t first body name p fit en e1 in
      (
        λ e. ap is_unserved (sym code) ∙ panics (sym same ∙ e),
        λ u. same ∙ unserved (ap is_unserved code ∙ u),
      )

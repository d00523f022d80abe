-- ===== src/Packet/Subscribe/Verified.antt =====
-- src/packet/subscribe.rs: the getters of a SUBSCRIBE that was verified.
use mathlib.Core.Path.{subst}
use tjiftjaf.Prelude.{
  ℕ, zero, suc, not, ◌++◌, inl, inr, ◌+◌, ◌<◌, ◌≡◌, ◌≢◌, sym, ap, ◌∙◌, arith, List, [], ◌∷◌, length,
}
use tjiftjaf.Result.{ok, >>=-eq-ok, unwrap, fail_if, invalid_packet_type}
use tjiftjaf.Rust.{Bytes, slice, slice_from}
use tjiftjaf.Rust.Slices.{length-slice}
use tjiftjaf.Decode
use tjiftjaf.Decode.Field.{u16-ok}
use tjiftjaf.Kinds.{PacketType, QoS, decode_packet_type, packet_type_eq}
use tjiftjaf.Frame.{
  try_header, try_two_bytes, two_bytes, try_payload, try_offset_payload, payload, check_length,
  try_offset_variable_header,
}
use tjiftjaf.Frame.Verified.{header_of-try_header, length_of-check_length}
use tjiftjaf.Packet.Topics.{collect, collect_loop}
use tjiftjaf.Packet.Topics.RoundTrip.{drain-collect_loop, collect_loop-cases}
use tjiftjaf.Packet.Subscribe
use tjiftjaf.Packet.Subscribe.{
  Subscribe, UnverifiedSubscribe, unverified_frame, subscribe_frame, topic_at,
}

-- What the getters of a SUBSCRIBE return: it has a topic.
pub record Readable (p : Subscribe) : Type 0 where
  pub packet_identifier : (v : ℕ) × (Subscribe.packet_identifier p ≡ ok v)
  pub topics : (v : List (Bytes × QoS)) × (Subscribe.all_topics p ≡ ok v) × (v ≢ [])

-- The two bytes of the variable header.
pub two_bytes-try_two_bytes :
    (inner header variable : Bytes)
    → try_header inner ≡ ok header
    → try_two_bytes inner ≡ ok variable
    → (two_bytes inner ≡ ok variable) × (length variable ≡ 2)
unfolding try_two_bytes two_bytes try_offset_variable_header
two_bytes-try_two_bytes inner header variable e v =
    let v' : slice inner (length header) (length header + 2) ≡ ok variable = rw e at v in
    (
      rw (header_of-try_header inner header e) v',
      (length-slice inner variable (length header) (length header + 2) v').0 ∙ omega arith,
    )

-- The getter of the payload agrees with the check of it.
payload-try_payload :
    (u : UnverifiedSubscribe) (header variable body : Bytes)
    → try_header u.inner ≡ ok header
    → check_length u.inner header ≡ ok tt
    → try_two_bytes u.inner ≡ ok variable
    → try_payload u ≡ ok body
    → payload {A = Subscribe} (record { inner = u }) ≡ ok body
unfolding payload try_payload try_offset_payload
payload-try_payload u header variable body e checked v b =
    rw
      (
        header_of-try_header u.inner header e,
        (two_bytes-try_two_bytes u.inner header variable e v).0,
        length_of-check_length u.inner header e checked,
      )
      (rw (e, v) at b)

-- A loop that succeeds has collected an entry.
collected : {A : Type 0} (out : List A) (x : A) → out ++ (x ∷ []) ≢ []
collected [] x e = cc
collected (y ∷ out) x e = cc

loop-ne-nil :
    (f : ℕ) (body : Bytes) (offset : ℕ) (out ts : List (Bytes × QoS))
    → collect_loop topic_at f body offset out ≡ ok ts
    → ts ≢ []
loop-ne-nil zero body offset out ts e = unfold collect_loop in cc
loop-ne-nil (suc f) body offset out ts e =
    let (x, n, _, rest) = collect_loop-cases topic_at f body offset out ts e in
    elim rest [
      | inl (_, same) ↦ (λ h. collected out x (sym same ∙ h))
      | inr (_, more) ↦ loop-ne-nil f body n (out ++ (x ∷ [])) ts more
    ]

-- An empty payload is refused.
body_pos :
    (body : Bytes) (ts : List (Bytes × QoS)) → collect topic_at body ≡ ok ts → 0 < length body
unfolding collect collect_loop topic_at slice_from Decode.utf8 Decode.bytes
body_pos [] ts e = cc
body_pos (x ∷ body) ts e = omega arith

-- The iterator yields the topics that the verification has collected.
pub all_topics-try_topics :
    (u : UnverifiedSubscribe) (ts : List (Bytes × QoS))
    → Subscribe.verify u ≡ ok (record { inner = u })
    → Subscribe.try_topics u ≡ ok ts
    → (Subscribe.all_topics (record { inner = u }) ≡ ok ts) × (ts ≢ [])
unfolding Subscribe.verify Subscribe.verify_header Subscribe.try_topics Subscribe.all_topics
    Subscribe.topics collect
all_topics-try_topics u ts e et =
    let (_, eh, e1) = >>=-eq-ok (Subscribe.verify_header u) _ e in
    let (header, e0, h1) = >>=-eq-ok (try_header u.inner) _ eh in
    let (t, _, h2) = >>=-eq-ok (decode_packet_type header) _ h1 in
    let (_, _, checked) =
      >>=-eq-ok (fail_if (not (packet_type_eq t PacketType.subscribe)) (invalid_packet_type 5)) _
        h2 in
    let (variable, ev, _) = >>=-eq-ok (try_two_bytes u.inner) _ e1 in
    let (body, eb, ec) = >>=-eq-ok (try_payload u) _ et in
    let yields =
      drain-collect_loop topic_at (suc (length body)) body 0 [] ts (body_pos body ts ec) ec in
    (
      rw (payload-try_payload u header variable body e0 checked ev eb) yields,
      loop-ne-nil (suc (length body)) body 0 [] ts ec,
    )

try_header_ok :
    (u : UnverifiedSubscribe) (variable : Bytes)
    → try_two_bytes u.inner ≡ ok variable
    → (header : Bytes) × (try_header u.inner ≡ ok header)
unfolding try_two_bytes try_offset_variable_header
try_header_ok u variable ev =
    let (offset, eo, _) = >>=-eq-ok (try_offset_variable_header u.inner) _ ev in
    let (header, e0, _) = >>=-eq-ok (try_header u.inner) _ eo in (header, e0)

of_unverified :
    (u : UnverifiedSubscribe)
    → Subscribe.verify u ≡ ok (record { inner = u })
    → Readable (record { inner = u })
unfolding Subscribe.verify Subscribe.packet_identifier Subscribe.try_packet_identifier
of_unverified u e =
    let (_, eh, e1) = >>=-eq-ok (Subscribe.verify_header u) _ e in
    let (variable, ev, e2) = >>=-eq-ok (try_two_bytes u.inner) _ e1 in
    let (ts, et, _) = >>=-eq-ok (Subscribe.try_topics u) _ e2 in
    let (header, e0) = try_header_ok u variable ev in
    let (id, ei) =
      u16-ok variable (omega (arith, (two_bytes-try_two_bytes u.inner header variable e0 ev).1)) in
    record {
      packet_identifier = (id, rw ev (ap unwrap ei));
      topics = (let (all, some_topic) = all_topics-try_topics u ts e et in (ts, all, some_topic));
    }

-- A SUBSCRIBE that `Subscribe::try_from` accepts can be read: no getter panics, nor does the
-- iterator over the topics, which yields a topic at least.
pub subscribe-Readable :
    (bytes : Bytes) (p : Subscribe) → Subscribe.try_from bytes ≡ ok p → Readable p
unfolding Subscribe.try_from Subscribe.verify
subscribe-Readable bytes p e =
    let u : UnverifiedSubscribe = record { inner = bytes } in
    let (_, _, e1) = >>=-eq-ok (Subscribe.verify_header u) _ e in
    let (_, _, e2) = >>=-eq-ok (try_two_bytes bytes) _ e1 in
    let (_, _, e3) = >>=-eq-ok (Subscribe.try_topics u) _ e2 in
    let same : record { inner = u } ≡ p = ground (arith, e3) in
    subst Readable same (of_unverified u (e ∙ ap ok (sym same)))

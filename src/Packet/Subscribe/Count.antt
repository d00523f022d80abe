-- ===== src/Packet/Subscribe/Count.antt =====
-- src/packet/subscribe.rs: how many topics a SUBSCRIBE that was verified has room for.
use tjiftjaf.Prelude.{
  ℕ, zero, suc, inl, inr, ◌+◌, ◌-◌, ◌≤◌, ◌<◌, ◌≡◌, ◌≢◌, sym, ap, ◌∙◌, arith, List, [], ◌∷◌, ◌++◌,
  length, length-append,
}
use tjiftjaf.Result.{ok, ◌>>=◌, >>=-eq-ok, ok_or, invalid_value}
use tjiftjaf.Rust.{Bytes, index, slice, slice_from, sub_checked}
use tjiftjaf.Rust.Slices.{length-slice}
use tjiftjaf.Decode
use tjiftjaf.Kinds.{QoS, qos_try_from}
use tjiftjaf.Frame.{try_header, try_two_bytes, try_payload, try_offset_payload}
use tjiftjaf.Packet.Topics.{collect, collect_loop}
use tjiftjaf.Packet.Topics.RoundTrip.{collect_loop-cases}
use tjiftjaf.Packet.Subscribe
use tjiftjaf.Packet.Subscribe.{Subscribe, UnverifiedSubscribe, unverified_frame, topic_at}
use tjiftjaf.Packet.Subscribe.Verified.{two_bytes-try_two_bytes, all_topics-try_topics}

index-lt : (bytes : Bytes) (i x : ℕ) → index bytes i ≡ ok x → i < length bytes
index-lt [] i x e = cc
index-lt (b ∷ bytes) zero x e = omega arith
index-lt (b ∷ bytes) (suc i) x e = omega (arith, index-lt bytes i x e)

-- An entry takes a byte at least, and ends inside the payload.
topic_at-bounds :
    (payload : Bytes) (offset n : ℕ) (x : Bytes × QoS)
    → topic_at payload offset ≡ ok (x, n)
    → (offset < n) × (n ≤ length payload)
unfolding topic_at
topic_at-bounds payload offset n x e =
    let (rest, _, e1) = >>=-eq-ok (slice_from payload offset) _ e in
    let ((topic, size), _, e2) = >>=-eq-ok (Decode.utf8 rest) _ e1 in
    let (byte, inside, e3) = >>=-eq-ok (index payload (offset + size)) _ e2 in
    let (q, _, e4) = >>=-eq-ok (ok_or (qos_try_from byte) invalid_value) _ e3 in
    let end : offset + size + 1 ≡ n = ground (arith, e4) in
    let lt = index-lt payload (offset + size) byte inside in
    (omega (arith, end), omega (arith, end, lt))

collect_loop-length :
    (f : ℕ) (payload : Bytes) (offset : ℕ) (out ts : List (Bytes × QoS))
    → length out ≤ offset
    → collect_loop topic_at f payload offset out ≡ ok ts
    → length ts ≤ length payload
collect_loop-length zero payload offset out ts le e = unfold collect_loop in cc
collect_loop-length (suc f) payload offset out ts le e =
    let (x, n, item, rest) = collect_loop-cases topic_at f payload offset out ts e in
    let (more, inside) = topic_at-bounds payload offset n x item in
    let size : length (out ++ (x ∷ [])) ≡ length out + 1 = length-append out (x ∷ []) in
    elim rest [
      | inl (_, same) ↦ omega (arith, ap length same, size, le, more, inside)
      | inr (_, again) ↦
          collect_loop-length f payload n (out ++ (x ∷ [])) ts (omega (arith, size, le, more)) again
    ]

-- The payload is what is behind the header and the two bytes of the identifier.
length-payload :
    (u : UnverifiedSubscribe) (header variable body : Bytes)
    → try_header u.inner ≡ ok header
    → try_two_bytes u.inner ≡ ok variable
    → try_payload u ≡ ok body
    → length body + 2 + length header ≡ length u.inner
unfolding try_payload try_offset_payload
length-payload u header variable body e v b =
    let offset : ℕ = length header + length variable in
    let b' : (sub_checked (length u.inner) offset >>= λ size. slice u.inner offset (offset + size))
        ≡ ok body =
      rw (e, v) at b in
    let (size, es, cut) = >>=-eq-ok (sub_checked (length u.inner) offset) _ b' in
    let two = (two_bytes-try_two_bytes u.inner header variable e v).1 in
    let rest : length u.inner - offset ≡ size = ground (arith, es) in
    let (parts, _, fits) = length-slice u.inner body offset (offset + size) cut in
    let room : offset ≤ length u.inner = ground (arith, es) in omega (arith, two, rest, parts, room)

-- There is room for the return codes of all topics where there was room for the topics.
verify-length :
    (u : UnverifiedSubscribe) (header : Bytes)
    → try_header u.inner ≡ ok header
    → Subscribe.verify u ≡ ok (record { inner = u })
    → (ts : List (Bytes × QoS)) × (Subscribe.all_topics (record { inner = u }) ≡ ok ts)
      × (ts ≢ [])
      × (length ts + 2 + length header ≤ length u.inner)
unfolding Subscribe.verify Subscribe.try_topics collect
verify-length u header eh e =
    let (_, _, e1) = >>=-eq-ok (Subscribe.verify_header u) _ e in
    let (variable, ev, e2) = >>=-eq-ok (try_two_bytes u.inner) _ e1 in
    let (ts, et, _) = >>=-eq-ok (Subscribe.try_topics u) _ e2 in
    let (body, eb, ec) = >>=-eq-ok (try_payload u) _ et in
    let (all, some_topic) = all_topics-try_topics u ts e et in
    let count = collect_loop-length (suc (length body)) body 0 [] ts (omega arith) ec in
    let size = length-payload u header variable body eh ev eb in
    (ts, all, some_topic, omega (arith, count, size))

pub topics-length :
    (bytes header : Bytes) (p : Subscribe)
    → try_header bytes ≡ ok header
    → Subscribe.try_from bytes ≡ ok p
    → (ts : List (Bytes × QoS)) × (Subscribe.all_topics p ≡ ok ts)
      × (ts ≢ [])
      × (length ts + 2 + length header ≤ length bytes)
unfolding Subscribe.try_from Subscribe.verify
topics-length bytes header p eh e =
    let u : UnverifiedSubscribe = record { inner = bytes } in
    let (_, _, e1) = >>=-eq-ok (Subscribe.verify_header u) _ e in
    let (_, _, e2) = >>=-eq-ok (try_two_bytes bytes) _ e1 in
    let (_, _, e3) = >>=-eq-ok (Subscribe.try_topics u) _ e2 in
    let same : record { inner = u } ≡ p = ground (arith, e3) in
    let (ts, all, some_topic, fits) = verify-length u header eh (e ∙ ap ok (sym same)) in
    (ts, ap Subscribe.all_topics (sym same) ∙ all, some_topic, fits)

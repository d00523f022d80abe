-- ===== src/Packet/Publish/Verified.antt =====
-- src/packet/publish.rs: the getters of a PUBLISH that was verified.
use mathlib.Core.Path.{subst}
use tjiftjaf.Prelude.{
  ℕ, ◌+◌, ◌-◌, ◌≤◌, ◌≡◌, refl, sym, ap, ◌∙◌, arith, Option, Bool, length, take, drop, if◌then◌else◌,
}
use tjiftjaf.Prelude.Bits.{has_bit}
use tjiftjaf.Result.{ok, >>=-eq-ok, unwrap}
use tjiftjaf.Rust.{Bytes, index, slice_from}
use tjiftjaf.Rust.Slices.{length-slice, slice_ok, ok_injective}
use tjiftjaf.Decode
use tjiftjaf.Kinds.{QoS, is_at_most_once}
use tjiftjaf.Frame.{try_header, try_payload, try_offset_payload, try_offset_variable_header}
use tjiftjaf.Packet.Publish
use tjiftjaf.Packet.Publish.{Publish, UnverifiedPublish, unverified_frame}

-- What the getters of a PUBLISH return.
pub record Readable (p : Publish) : Type 0 where
  pub topic : (v : Bytes) × (Publish.topic p ≡ ok v)
  pub payload : (v : Bytes) × (Publish.payload p ≡ ok v)
  pub qos : (v : QoS) × (Publish.qos p ≡ ok v)
  pub retain : (v : Bool) × (Publish.retain p ≡ ok v)
  pub duplicate : (v : Bool) × (Publish.duplicate p ≡ ok v)
  pub packet_identifier : (v : Option ℕ) × (Publish.packet_identifier p ≡ ok v)

-- What the variable header is cut out of
cut :
    (u : UnverifiedPublish) (header : Bytes)
    → Publish.try_variable_header u ≡ ok header
    → (fixed : Bytes) × (q : QoS) × (try_header u.inner ≡ ok fixed)
      × (Publish.try_qos u ≡ ok q)
      × (length fixed + length header ≤ length u.inner)
unfolding Publish.try_variable_header try_offset_variable_header
cut u header e =
    let (offset, eo, e1) = >>=-eq-ok (try_offset_variable_header u.inner) _ e in
    let (fixed, ef, eo') = >>=-eq-ok (try_header u.inner) _ eo in
    let (rest, _, e2) = >>=-eq-ok (slice_from u.inner offset) _ e1 in
    let ((t, n), _, e3) = >>=-eq-ok (Decode.utf8 rest) _ e2 in
    let (q, eq, e4) = >>=-eq-ok (Publish.try_qos u) _ e3 in
    let same : length fixed ≡ offset = ok_injective eo' in
    let len : ℕ = if is_at_most_once q then n else n + 2 in
    let (size, _, fits) = length-slice u.inner header offset (offset + len) e4 in
    (fixed, q, ef, eq, omega (arith, size, fits, same))

payload-ok :
    (u : UnverifiedPublish) (fixed header : Bytes)
    → try_header u.inner ≡ ok fixed
    → Publish.try_variable_header u ≡ ok header
    → length fixed + length header ≤ length u.inner
    → (v : Bytes) × (try_payload u ≡ ok v)
unfolding try_payload try_offset_payload
payload-ok u fixed header ef eh fits =
    let offset : ℕ = length fixed + length header in
    let size : ℕ = length u.inner - offset in
    let whole = slice_ok u.inner offset (offset + size) (omega arith) (omega (arith, fits)) in
    (take (offset + size - offset) (drop offset u.inner), rw (ef, eh) (ground (arith, fits, whole)))

of_unverified :
    (u : UnverifiedPublish)
    → Publish.verify u ≡ ok (record { inner = u })
    → Readable (record { inner = u })
unfolding Publish.verify Publish.try_topic Publish.try_qos Publish.try_retain Publish.try_duplicate
of_unverified u e =
    let (_, _, e1) = >>=-eq-ok (Publish.verify_header u) _ e in
    let (topic, et, e2) = >>=-eq-ok (Publish.try_topic u) _ e1 in
    let (id, ei, _) = >>=-eq-ok (Publish.try_packet_identifier u) _ e2 in
    let (header, eh, _) = >>=-eq-ok (Publish.try_variable_header u) _ et in
    let (fixed, q, ef, eq, fits) = cut u header eh in
    let (first, e0, _) = >>=-eq-ok (index fixed 0) _ (rw ef at eq) in
    let (payload, ep) = payload-ok u fixed header ef eh fits in
    record {
      topic = (topic, ap unwrap et);
      payload = (payload, ap unwrap ep);
      qos = (q, ap unwrap eq);
      retain = (has_bit 1 first, rw (ef, e0) refl);
      duplicate = (has_bit 8 first, rw (ef, e0) refl);
      packet_identifier = (id, ap unwrap ei);
    }

-- A PUBLISH that `Publish::try_from` accepts can be read: none of its getters panics.
pub publish-Readable : (bytes : Bytes) (p : Publish) → Publish.try_from bytes ≡ ok p → Readable p
unfolding Publish.try_from Publish.verify
publish-Readable bytes p e =
    let u : UnverifiedPublish = record { inner = bytes } in
    let (_, _, e1) = >>=-eq-ok (Publish.verify_header u) _ e in
    let (_, _, e2) = >>=-eq-ok (Publish.try_topic u) _ e1 in
    let (_, _, e3) = >>=-eq-ok (Publish.try_packet_identifier u) _ e2 in
    let same : record { inner = u } ≡ p = ground (arith, e3) in
    subst Readable same (of_unverified u (e ∙ ap ok (sym same)))

-- ===== src/Server/Session/Answers.antt =====
-- src/aio/server.rs: what a session does with the frames that a client sends.
use tjiftjaf.Prelude.{
  ltb, Bool-cases, inl, inr, ℕ, ◌≤◌, ◌<◌, ◌≡◌, refl, ap, ◌∙◌, arith, Bool, true, [], ◌∷◌, ◌++◌,
  some, length, length-append,
}
use tjiftjaf.Result.{Result, ok, err, panic}
use tjiftjaf.Rust.{Bytes, slice_from, sub_checked}
use tjiftjaf.Encode.Remaining.{remaining}
use tjiftjaf.Frame.Layout.{max_body, frame}
use tjiftjaf.Packet
use tjiftjaf.Packet.{Packet}
use tjiftjaf.Binding.Rounds.{one_byte}
use tjiftjaf.Server.{read_packet, drop_read_packet, drop_read, drop_call, min_bytes_required}
use tjiftjaf.Server.Read.{read_packet-frame}
use tjiftjaf.Server.Session.{Client, readable, outbound, go_on, on_packet, on_event, on_read}

-- A read that has not begun takes nothing along.
pub drop_read_packet-none : (stream : Bytes) → drop_read_packet 0 0 stream ≡ stream
unfolding drop_read_packet drop_read min_bytes_required sub_checked
drop_read_packet-none stream = refl

drop_call-none : (r : Result ℕ) (stream : Bytes) → drop_call r 0 stream ≡ stream
drop_call-none (ok n) stream = elim (Bool-cases (ltb 0 n)) [
  | inl more ↦ rw more refl
  | inr none_left ↦ let z : n ≡ 0 = ground (arith, none_left) in rw (none_left, z) refl
]
drop_call-none (err error) stream = refl
drop_call-none panic stream = refl

-- A read that has read once takes the first two bytes along.
drop_read_packet-two :
    (first second : ℕ) (stream : Bytes) → drop_read_packet 1 0 (first ∷ second ∷ stream) ≡ stream
unfolding drop_read_packet drop_read min_bytes_required sub_checked slice_from
drop_read_packet-two first second stream =
    drop_call-none (min_bytes_required (first ∷ second ∷ [])) stream

module _ {Sender : Type 0} where
  -- A frame at the front of the stream is read, and what follows it stays.
  pub on_event-frame :
      (c : Client Sender) (first : ℕ) (body rest : Bytes) (p : Packet) (funnel_open written : Bool)
      → c.stream ≡ frame first body ++ rest
      → length body ≤ max_body
      → Packet.try_from (frame first body) ≡ ok p
      → on_event c (readable funnel_open written)
        ≡ on_packet (record c { stream = rest }) funnel_open written p
  unfolding on_event
  on_event-frame c first body rest p funnel_open written e fit accepted =
      ap (on_read c funnel_open written) (
        ap read_packet e
        ∙ read_packet-frame first body rest fit
        ∙ ap (λ (r : Result Packet). some (r, rest)) accepted)

  -- A session finds a frame in front of its stream whose body is a frame itself, and is shorter
  -- than 128 bytes. Left alone, `read_packet` reads the outer frame. If the server sends a packet
  -- to the client after `read_packet` has read once, then the next packet that the session reads
  -- is the inner frame.
  pub outbound-body :
      (c : Client Sender) (p : Packet) (first inner : ℕ) (body rest : Bytes)
      → c.stream ≡ frame first (frame inner body) ++ rest
      → length (frame inner body) < 128
      → (read_packet c.stream ≡ some (Packet.try_from (frame first (frame inner body)), rest))
        × (c' : Client Sender) × (on_event c (outbound p 1 0 true) ≡ ok (c', go_on))
        × (read_packet c'.stream ≡ some (Packet.try_from (frame inner body), rest))
  unfolding on_event
  outbound-body c p first inner body rest e small =
      let n : ℕ = length (frame inner body) in
      let short : length body ≤ max_body =
        omega (arith, length-append (remaining (length body)) body, small) in
      let shape : frame first (frame inner body) ++ rest ≡ first ∷ n ∷ (frame inner body ++ rest) =
        rw (one_byte n small) refl in
      let left : drop_read_packet 1 0 c.stream ≡ frame inner body ++ rest =
        ap (drop_read_packet 1 0) (e ∙ shape)
        ∙ drop_read_packet-two first n (frame inner body ++ rest) in
      (
        ap read_packet e ∙ read_packet-frame first (frame inner body) rest (omega (arith, small)),
        _,
        refl,
        ap read_packet left ∙ read_packet-frame inner body rest short,
      )

-- ===== src/Binding/Receive.antt =====
-- src/lib.rs: a binding that is fed from its own read buffers decodes the frames that arrive.
use tjiftjaf.Prelude.{
  ℕ, suc, ◌+◌, ◌/◌, ◌%◌, ◌≤◌, ◌<◌, ◌≡◌, refl, sym, ap, ◌∙◌, arith, [], ◌∷◌, ◌++◌, length,
  take-append, drop-append, none, some, inl, inr, if◌then◌else◌,
}
use tjiftjaf.Result.{ok, >>=-eq-ok}
use tjiftjaf.Rust.{Bytes, slice_from}
use tjiftjaf.Decode.{packet_length}
use tjiftjaf.Decode.Length.{packet_length-remaining}
use tjiftjaf.Encode.Remaining.{groups}
use tjiftjaf.Kinds.{PacketType, packet_type_eq, packet_type_try_from}
use tjiftjaf.Frame.{packet_type_of}
use tjiftjaf.Frame.Layout.{max_body, frame, packet_length-header, length_of-frame}
use tjiftjaf.Packet
use tjiftjaf.Packet.{Packet}
use tjiftjaf.Packet.RoundTrip.{try_from-into_bytes}
use tjiftjaf.Binding.{
  MqttBinding, start_of_header, end_of_header, connected, rest_of_packet, try_decode, receive,
  decode_frame, decode_rest, decode_start, get_read_buffer, buffer_in, decode_in,
  record_inbound_packet, two_byte_packet,
}
use tjiftjaf.Binding.Rounds.{
  max_three, one_byte, two_bytes, three_bytes, length-zeros, size, receive_more, receive_done,
  size_start, first_of, empty_of, lengths, decode_start_more, decode_end-length,
}

-- What a delivered packet leaves of the binding.
pub record Delivered (b b' : MqttBinding) : Type 0 where
  pub state_is : b'.state ≡ start_of_header
  pub transmits_is : b'.transmits ≡ b.transmits
  pub connect_is : b'.connect ≡ b.connect

module _ (first : ℕ) (body : Bytes) (p : Packet) (small : length body ≤ max_body)
    (e : Packet.try_from (frame first body) ≡ ok p) where
  packet_type-frame : (t : PacketType) × (Packet.packet_type p ≡ ok t)
  unfolding Packet.packet_type packet_type_of Packet.try_from groups
  packet_type-frame =
      let (t, et, _) = >>=-eq-ok (packet_type_try_from first) _ e in
      (t, rw (try_from-into_bytes (frame first body) p e) (ground (arith, et)))

  length-frame : Packet.length p ≡ ok (length (frame first body))
  unfolding Packet.length
  length-frame = rw (try_from-into_bytes (frame first body) p e) (length_of-frame first body small)

  abbrev delivered : MqttBinding → MqttBinding
  delivered b = record b {
    connection_status =
        if packet_type_eq packet_type-frame.0 PacketType.conn_ack
        then connected
        else b.connection_status;
    state = start_of_header;
    statistics = record b.statistics {
      bytes_read = b.statistics.bytes_read + length (frame first body);
      packets_read = b.statistics.packets_read + 1;
    };
  }

  decode_frame-frame :
      (b : MqttBinding) → decode_frame b (frame first body) ≡ ok (delivered b, some p)
  unfolding decode_frame record_inbound_packet
  decode_frame-frame b = rw (e, packet_type-frame.1, length-frame) refl

  delivered-Delivered : (b : MqttBinding) → Delivered b (delivered b)
  delivered-Delivered b = record { state_is = refl; transmits_is = refl; connect_is = refl }

  decode_rest-frame :
      (b : MqttBinding) (header tail : Bytes)
      → header ++ tail ≡ frame first body
      → decode_rest b header (length tail) tail ≡ ok (delivered b, some p)
  unfolding decode_rest
  decode_rest-frame b header tail whole = rw (whole, decode_frame-frame b) (ground arith)

  -- The last round, which reads the rest of the frame.
  receive_rest :
      (rounds : ℕ) (b : MqttBinding) (header tail rest : Bytes)
      → b.state ≡ rest_of_packet header (length tail)
      → header ++ tail ≡ frame first body
      → receive (suc rounds) b (tail ++ rest) ≡ ok (delivered b, some p, rest)
  unfolding get_read_buffer try_decode decode_in
  receive_rest rounds b header tail rest st whole =
      let n : size b ≡ length tail =
        ap (λ s. length (buffer_in s)) st ∙ length-zeros (length tail) in
      let decoded : try_decode b tail ≡ ok (delivered b, some p) =
        ap (decode_in b tail) st ∙ decode_rest-frame b header tail whole in
      receive_done rounds b (delivered b) (tail ++ rest) p (rw (n, take-append tail rest) decoded)
      ∙ rw (n, drop-append tail rest) refl

  -- The first round, on two bytes that say the length.
  decode_start-frame :
      (b : MqttBinding) (k : ℕ)
      → b.state ≡ start_of_header
      → packet_length (k ∷ []) ≡ ok (2 + length body)
      → 0 < length body
      → length body < 128
      → try_decode b (first ∷ k ∷ [])
        ≡ ok (record b { state = rest_of_packet (first ∷ k ∷ []) (length body) }, none)
  unfolding try_decode decode_in decode_start slice_from
  decode_start-frame b k st l h h' = ap (decode_in b (first ∷ k ∷ [])) st ∙ rw l (ground arith)

  module _ (b : MqttBinding) (start : b.state ≡ start_of_header) (rest : Bytes) where
    receive_one :
        0 < length body
        → length body < 128
        → receive 3 b (frame first body ++ rest) ≡ ok (delivered b, some p, rest)
    receive_one h k =
        let n : ℕ = length body in
        let r = one_byte n k in
        let l : packet_length (n ∷ []) ≡ ok (2 + n) =
          rw r at (packet_length-header first body small) ∙ ap ok (omega arith) in
        let b1 : MqttBinding = record b { state = rest_of_packet (first ∷ n ∷ []) n } in
        let whole : first ∷ n ∷ body ≡ frame first body = rw r refl in
        ap (λ (s : Bytes). receive 3 b (s ++ rest)) (sym whole)
        ∙ receive_more 2 b b1 (first ∷ n ∷ (body ++ rest))
            (rw (size_start b start) (decode_start-frame b n start l h k))
        ∙ rw (size_start b start) (receive_rest 1 b1 (first ∷ n ∷ []) body rest refl whole)

    -- The second and the third round.
    receive_end :
        (k l m : ℕ) (tail : Bytes)
        → 128 ≤ k
        → k < 256
        → first ∷ k ∷ l ∷ m ∷ tail ≡ frame first body
        → packet_length (k ∷ l ∷ m ∷ []) ≡ ok (4 + length tail)
        → receive 3 b ((first ∷ k ∷ l ∷ m ∷ tail) ++ rest) ≡ ok (delivered b, some p, rest)
    unfolding get_read_buffer
    receive_end k l m tail h h' whole e =
        let b1 : MqttBinding = record b { state = end_of_header (first ∷ k ∷ []) } in
        let b2 : MqttBinding = record b {
          state = rest_of_packet (first ∷ k ∷ l ∷ m ∷ []) (length tail);
        } in
        receive_more 2 b b1 (first ∷ k ∷ l ∷ m ∷ (tail ++ rest))
          (rw (size_start b start) (decode_start_more b first k start h h'))
        ∙ rw (size_start b start) (
            receive_more 1 b1 b2 (l ∷ m ∷ (tail ++ rest))
              (decode_end-length b1 first k l m (length tail) refl e)
            ∙ receive_rest 0 b2 (first ∷ k ∷ l ∷ m ∷ []) tail rest refl whole)

    receive_three :
        16384 ≤ length body
        → length body ≤ max_three
        → receive 3 b (frame first body ++ rest) ≡ ok (delivered b, some p, rest)
    receive_three h k =
        let n : ℕ = length body in
        let r = three_bytes n h k in
        let whole : first ∷ (n % 128 + 128) ∷ (n / 128 % 128 + 128) ∷ (n / 128 / 128) ∷ body
            ≡ frame first body =
          rw r refl in
        let l : packet_length ((n % 128 + 128) ∷ (n / 128 % 128 + 128) ∷ (n / 128 / 128) ∷ [])
            ≡ ok (4 + n) =
          rw r at (packet_length-header first body small) ∙ ap ok (omega arith) in
        ap (λ (s : Bytes). receive 3 b (s ++ rest)) (sym whole)
        ∙ receive_end _ _ _ body (omega arith) (omega arith) whole l

    receive_two :
        128 ≤ length body
        → length body < 16384
        → receive 3 b (frame first body ++ rest) ≡ ok (delivered b, some p, rest)
    receive_two h k =
        let (x, tail, cut) = first_of body h in
        let n : ℕ = length body in
        let r = two_bytes n h k in
        let whole : first ∷ (n % 128 + 128) ∷ (n / 128) ∷ x ∷ tail ≡ frame first body =
          rw (r, cut) refl in
        let size : suc (length tail) ≡ n = rw cut refl in
        let l : packet_length ((n % 128 + 128) ∷ (n / 128) ∷ x ∷ []) ≡ ok (4 + length tail) =
          rw r at (packet_length-remaining n (x ∷ []) small) ∙ ap ok (omega (arith, size)) in
        ap (λ (s : Bytes). receive 3 b (s ++ rest)) (sym whole)
        ∙ receive_end _ _ _ tail (omega arith) (omega arith) whole l

    receive_empty : length body ≡ 0 → receive 3 b (frame first body ++ rest) ≡ ok (b, some p, rest)
    unfolding try_decode decode_in decode_start packet_length slice_from groups two_byte_packet
    receive_empty h =
        let none_left : body ≡ [] = empty_of body h in
        let e' : Packet.try_from (first ∷ 0 ∷ []) ≡ ok p = rw none_left at e in
        let decoded : try_decode b (first ∷ 0 ∷ []) ≡ ok (b, some p) =
          ap (decode_in b (first ∷ 0 ∷ [])) start ∙ rw e' refl in
        rw none_left (
          receive_done 2 b b (first ∷ 0 ∷ rest) p (rw (size_start b start) decoded)
          ∙ rw (size_start b start) refl)

-- At the start of a header, a frame with a length of up to three bytes that `Packet::try_from`
-- accepts is delivered in at most three reads, with nothing of what follows it consumed; the
-- binding waits for the next frame, and keeps what it is to transmit.
pub receive-frame :
    (b : MqttBinding) (first : ℕ) (body rest : Bytes) (p : Packet)
    → b.state ≡ start_of_header
    → length body ≤ max_three
    → Packet.try_from (frame first body) ≡ ok p
    → (b' : MqttBinding) × (receive 3 b (frame first body ++ rest) ≡ ok (b', some p, rest))
      × Delivered b b'
receive-frame b first body rest p start small e =
    let fit : length body ≤ max_body = omega arith in
    let later = delivered-Delivered first body p fit e b in
    elim (lengths (length body)) [
      | inl h ↦ (
        b,
        receive_empty first body p fit e b start rest h,
        record { state_is = start; transmits_is = refl; connect_is = refl },
      )
      | inr (inl (h, k)) ↦ (_, receive_one first body p fit e b start rest h k, later)
      | inr (inr (inl (h, k))) ↦ (_, receive_two first body p fit e b start rest h k, later)
      | inr (inr (inr h)) ↦ (_, receive_three first body p fit e b start rest h small, later)
    ]

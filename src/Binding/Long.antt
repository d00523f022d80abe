-- ===== src/Binding/Long.antt =====
-- src/lib.rs: a binding that is fed a frame whose length takes four bytes.
use tjiftjaf.Prelude.{
  ℕ, ◌+◌, ◌/◌, ◌%◌, ◌≤◌, ◌<◌, ◌≡◌, refl, ap, ◌∙◌, arith, [], ◌∷◌, ◌++◌, length, drop, none,
}
use tjiftjaf.Result.{ok}
use tjiftjaf.Rust.{Bytes, slice_from}
use tjiftjaf.Decode.{packet_length}
use tjiftjaf.Encode.Remaining.{groups, remaining}
use tjiftjaf.Frame.Layout.{frame}
use tjiftjaf.Binding.{
  MqttBinding, start_of_header, end_of_header, try_decode, receive, decode_end, get_read_buffer,
  decode_in,
}
use tjiftjaf.Binding.Rounds.{max_three, receive_more, receive-none, size_start, decode_start_more}

four_bytes :
    (n : ℕ)
    → max_three < n
    → remaining n
      ≡ (n % 128 + 128)
        ∷ (n / 128 % 128 + 128)
        ∷ (n / 128 / 128 % 128 + 128)
        ∷ (n / 128 / 128 / 128)
        ∷ []
unfolding groups
four_bytes n h = ground arith

decode_end_long :
    (b : MqttBinding) (first k l m : ℕ)
    → b.state ≡ end_of_header (first ∷ k ∷ [])
    → 128 ≤ k
    → k < 256
    → 128 ≤ l
    → l < 256
    → 128 ≤ m
    → m < 256
    → try_decode b (l ∷ m ∷ []) ≡ ok (b, none)
unfolding try_decode decode_in decode_end slice_from packet_length
decode_end_long b first k l m st h1 h2 h3 h4 h5 h6 = ap (decode_in b (l ∷ m ∷ [])) st ∙ ground arith

-- At the start of a header, where a length has its top bit set in three bytes, the second read
-- is lost: after two reads four bytes are consumed, and the binding still holds the first two
-- only and waits for two.
pub receive_long :
    (b : MqttBinding) (first k l m : ℕ) (rest : Bytes)
    → b.state ≡ start_of_header
    → 128 ≤ k
    → k < 256
    → 128 ≤ l
    → l < 256
    → 128 ≤ m
    → m < 256
    → receive 2 b (first ∷ k ∷ l ∷ m ∷ rest)
      ≡ ok (record b { state = end_of_header (first ∷ k ∷ []) }, none, rest)
unfolding get_read_buffer
receive_long b first k l m rest start h1 h2 h3 h4 h5 h6 =
    let b1 : MqttBinding = record b { state = end_of_header (first ∷ k ∷ []) } in
    receive_more 1 b b1 (first ∷ k ∷ l ∷ m ∷ rest)
      (rw (size_start b start) (decode_start_more b first k start h1 h2))
    ∙ rw (size_start b start) (
        receive_more 0 b1 b1 (l ∷ m ∷ rest) (decode_end_long b1 first k l m refl h1 h2 h3 h4 h5 h6))
    ∙ receive-none b1 rest

-- A body of more than 2097151 bytes has such a length.
pub receive_long_frame :
    (b : MqttBinding) (first : ℕ) (body rest : Bytes)
    → b.state ≡ start_of_header
    → max_three < length body
    → receive 2 b (frame first body ++ rest)
      ≡ ok (
        record b { state = end_of_header (first ∷ (length body % 128 + 128) ∷ []) },
        none,
        drop 4 (frame first body ++ rest),
      )
receive_long_frame b first body rest start h = rw (four_bytes (length body) h) (
    receive_long b first _ _ _ _ start (omega arith) (omega arith) (omega arith) (omega arith)
      (omega arith) (omega arith))

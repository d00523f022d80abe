-- ===== src/Binding/Rounds.antt =====
-- src/lib.rs: single reads of a binding, and the bytes that the length of a frame takes.
use tjiftjaf.Prelude.{
  ℕ, zero, suc, ◌+◌, ◌/◌, ◌%◌, ◌≤◌, ◌<◌, ◌≡◌, refl, ap, ◌∙◌, arith, ltb, ◌==◌, [], ◌∷◌, length,
  take, drop, none, some, ◌⊎◌, inl, inr, Bool-cases,
}
use tjiftjaf.Result.{ok}
use tjiftjaf.Rust.{Bytes, slice_from}
use tjiftjaf.Decode.{packet_length}
use tjiftjaf.Encode.Remaining.{groups, remaining}
use tjiftjaf.Packet.{Packet}
use tjiftjaf.Binding.{
  MqttBinding, start_of_header, end_of_header, rest_of_packet, try_decode, receive, decode_start,
  decode_end, get_read_buffer, decode_in, zeros,
}

-- The longest body whose length takes three bytes.
abbrev pub max_three : ℕ
max_three = 2097151

pub one_byte : (n : ℕ) → n < 128 → remaining n ≡ n ∷ []
unfolding groups
one_byte n h = ground arith

pub two_bytes : (n : ℕ) → 128 ≤ n → n < 16384 → remaining n ≡ (n % 128 + 128) ∷ (n / 128) ∷ []
unfolding groups
two_bytes n h k = ground arith

pub three_bytes :
    (n : ℕ)
    → 16384 ≤ n
    → n ≤ max_three
    → remaining n ≡ (n % 128 + 128) ∷ (n / 128 % 128 + 128) ∷ (n / 128 / 128) ∷ []
unfolding groups
three_bytes n h k = ground arith

pub length-zeros : (n : ℕ) → length (zeros n) ≡ n
length-zeros zero = refl
length-zeros (suc n) = ap suc (length-zeros n)

-- The bytes that the next read takes.
abbrev pub size : MqttBinding → ℕ
size b = length (get_read_buffer b)

module _ (rounds : ℕ) (b b' : MqttBinding) (stream : Bytes) where
  pub receive_more :
      try_decode b (take (size b) stream) ≡ ok (b', none)
      → receive (suc rounds) b stream ≡ receive rounds b' (drop (size b) stream)
  unfolding receive
  receive_more e = rw e refl

  pub receive_done :
      (p : Packet)
      → try_decode b (take (size b) stream) ≡ ok (b', some p)
      → receive (suc rounds) b stream ≡ ok (b', some p, drop (size b) stream)
  unfolding receive
  receive_done p e = rw e refl

pub receive-none : (b : MqttBinding) (stream : Bytes) → receive 0 b stream ≡ ok (b, none, stream)
unfolding receive
receive-none b stream = refl

pub size_start : (b : MqttBinding) → b.state ≡ start_of_header → size b ≡ 2
unfolding get_read_buffer
size_start b e = rw e refl

pub first_of : (xs : Bytes) → 128 ≤ length xs → (x : ℕ) × (tail : Bytes) × (xs ≡ x ∷ tail)
first_of [] h = absurd (omega arith)
first_of (x ∷ xs) h = (x, xs, refl)

pub empty_of : (xs : Bytes) → length xs ≡ 0 → xs ≡ []
empty_of [] h = refl
empty_of (x ∷ xs) h = absurd (omega arith)

pub lengths :
    (n : ℕ) → (n ≡ 0) ⊎ (((0 < n) × (n < 128)) ⊎ (((128 ≤ n) × (n < 16384)) ⊎ (16384 ≤ n)))
lengths n = elim (Bool-cases (n == 0)) [
  | inl z ↦ inl (ground arith)
  | inr p ↦ elim (Bool-cases (ltb n 128)) [
    | inl a ↦ inr (inl (ground arith))
    | inr a ↦ elim (Bool-cases (ltb n 16384)) [
      | inl b ↦ inr (inr (inl (ground arith)))
      | inr b ↦ inr (inr (inr (ground arith)))
    ]
  ]
]

-- The first round, on a first length byte that announces another one.
pub decode_start_more :
    (b : MqttBinding) (first k : ℕ)
    → b.state ≡ start_of_header
    → 128 ≤ k
    → k < 256
    → try_decode b (first ∷ k ∷ []) ≡ ok (record b { state = end_of_header (first ∷ k ∷ []) }, none)
unfolding try_decode decode_in decode_start slice_from packet_length
decode_start_more b first k st h h' = ap (decode_in b (first ∷ k ∷ [])) st ∙ ground arith

-- The second round, where the four bytes that were read say the length.
pub decode_end-length :
    (b : MqttBinding) (first k l m n : ℕ)
    → b.state ≡ end_of_header (first ∷ k ∷ [])
    → packet_length (k ∷ l ∷ m ∷ []) ≡ ok (4 + n)
    → try_decode b (l ∷ m ∷ [])
      ≡ ok (record b { state = rest_of_packet (first ∷ k ∷ l ∷ m ∷ []) n }, none)
unfolding try_decode decode_in decode_end slice_from
decode_end-length b first k l m n st e = ap (decode_in b (l ∷ m ∷ [])) st ∙ rw e (ground arith)

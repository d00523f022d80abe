-- ===== src/Server/Stop.antt =====
-- src/aio/server.rs: `read_packet` comes to an end on any stream.
use tjiftjaf.Prelude.{
  ℕ, suc, ◌+◌, ◌%◌, ◌^◌, ◌≤◌, ◌<◌, ◌≡◌, ◌≢◌, sym, ap, ◌∙◌, arith, ltb, ◌==◌, [], ◌∷◌, ◌++◌, length,
  take, drop, length-append, length-take, Option, none, inl, inr, Bool-cases,
}
use tjiftjaf.Result.{
  Result, ok, err, not_enough_bytes, too_many_bytes, invalid_packet_type, invalid_value,
  invalid_remaining_length, header_contains_invalid_flags, other, DecodingError, outcome, is_ok,
  is_err, is_panic,
}
use tjiftjaf.Rust.{Bytes, sub_checked}
use tjiftjaf.Decode.{packet_length}
use tjiftjaf.Decode.Length.{packet_length-IsLength, packet_length-append}
use tjiftjaf.Packet.{Packet}
use tjiftjaf.Server.{
  Parser, new, bytes_required, min_bytes_required, bytes_missing, read_loop, read_round,
  read_packet,
}
use tjiftjaf.Binding.{len_u32}
use tjiftjaf.Server.Read.{required_behind, rest_of}

-- The loop returns before its rounds are over.
abbrev Stops : Option (Result Packet × Bytes) → Type 0
Stops r = r ≢ none

-- A round that reads leaves the question to the next one.
read_round-Stops :
    (n : ℕ) (parser : Parser) (stream : Bytes) (again : ℕ → Option (Result Packet × Bytes))
    → (0 < n → n ≤ length stream → Stops (again n))
    → Stops (read_round (ok n) parser stream again)
read_round-Stops n parser stream again f = elim (Bool-cases (n == 0)) [
  | inl z ↦ rw z (λ h. cc)
  | inr z ↦ elim (Bool-cases (ltb (length stream) n)) [
    | inl short ↦ rw (z, short) (λ h. cc)
    | inr long ↦ rw (z, long) (f (ground arith) (ground arith))
  ]
]

-- ... and so does a round whose question is answered.
round-Stops :
    (rounds : ℕ) (parser : Parser) (stream : Bytes)
    → ((n : ℕ)
        → bytes_required parser ≡ ok n
        → 0 < n
        → n ≤ length stream
        → Stops (rest_of rounds parser stream n))
    → Stops (read_loop (suc rounds) parser stream)
unfolding read_loop
round-Stops rounds parser stream f = elim (outcome (bytes_required parser)) [
  | is_ok n e ↦ rw e (read_round-Stops n parser stream (rest_of rounds parser stream) (f n e))
  | is_err x e ↦ rw e (λ h. cc)
  | is_panic e ↦ rw e (λ h. cc)
]

-- A parser that asks for nothing stops.
nothing-Stops :
    (rounds : ℕ) (parser : Parser) (stream : Bytes)
    → bytes_required parser ≡ ok 0
    → Stops (read_loop (suc rounds) parser stream)
nothing-Stops rounds parser stream e =
    round-Stops rounds parser stream (λ n e' pos long. absurd (ground (arith, e, e', pos)))

-- What is asked for where the length is known.
required_known :
    (a b l : ℕ) (rest : Bytes)
    → packet_length (b ∷ rest) ≡ ok l
    → min_bytes_required (a ∷ b ∷ rest) ≡ sub_checked l (len_u32 (a ∷ b ∷ rest))
unfolding bytes_missing
required_known a b l rest e = required_behind a b rest ∙ ap (bytes_missing (a ∷ b ∷ rest)) e

length_bound : (xs : Bytes) (l : ℕ) → packet_length xs ≡ ok l → l ≤ 268435460
length_bound xs l e = (rw e at (packet_length-IsLength xs)).1

-- Where the length is known, one more read completes the packet.
known-Stops :
    (rounds a b l : ℕ) (rest stream : Bytes)
    → packet_length (b ∷ rest) ≡ ok l
    → length rest ≤ 125
    → Stops (read_loop (suc (suc rounds)) (record { inner = a ∷ b ∷ rest }) stream)
known-Stops rounds a b l rest stream e short =
    round-Stops (suc rounds) _ stream (λ n required pos long.
      let asked : sub_checked l (len_u32 (a ∷ b ∷ rest)) ≡ ok n =
        sym (required_known a b l rest e) ∙ required in
      let front : Bytes = take n stream in
      let size : length front ≡ n = omega (arith, length-take n stream, long) in
      nothing-Stops rounds _ (drop n stream) (
        required_known a b l (rest ++ front) (packet_length-append (b ∷ rest) front l e)
        ∙ ground
            (arith, asked, size, short, length-append rest front, length_bound (b ∷ rest) l e)))

-- No error of `packet_length` asks for more than 127 bytes.
missing_error :
    (payload : Bytes) (x : DecodingError) (n : ℕ)
    → bytes_missing payload (err x) ≡ ok n
    → n + length payload % 2 ^ 32 ≡ 127
unfolding bytes_missing
missing_error payload (not_enough_bytes _ _) n e = ground (arith, e)
missing_error payload too_many_bytes n e = cc
missing_error payload (invalid_packet_type _) n e = cc
missing_error payload invalid_value n e = cc
missing_error payload invalid_remaining_length n e = cc
missing_error payload header_contains_invalid_flags n e = cc
missing_error payload other n e = cc

error_required :
    (a b : ℕ) (rest : Bytes) (x : DecodingError) (n : ℕ)
    → packet_length (b ∷ rest) ≡ err x
    → min_bytes_required (a ∷ b ∷ rest) ≡ ok n
    → n + length (a ∷ b ∷ rest) % 2 ^ 32 ≡ 127
error_required a b rest x n e required =
    missing_error (a ∷ b ∷ rest) x n
      (sym (required_behind a b rest ∙ ap (bytes_missing (a ∷ b ∷ rest)) e) ∙ required)

-- Where the length is not known after two bytes, 125 more of them decide.
unknown-Stops :
    (a b : ℕ) (front stream : Bytes)
    → length front ≡ 125
    → Stops (read_loop 2 (record { inner = a ∷ b ∷ front }) stream)
unknown-Stops a b front stream size = elim (outcome (packet_length (b ∷ front))) [
  | is_ok l e ↦ known-Stops 0 a b l front stream e (omega arith)
  | is_err x e ↦ round-Stops 1 _ stream (λ n required pos long.
      absurd (omega (arith, error_required a b front x n e required, pos, size)))
  | is_panic e ↦ absurd (rw e at (packet_length-IsLength (b ∷ front)))
]

-- The rounds behind the first one.
headed-Stops :
    (a b : ℕ) (stream : Bytes) → Stops (read_loop 3 (record { inner = a ∷ b ∷ [] }) stream)
headed-Stops a b stream = elim (outcome (packet_length (b ∷ []))) [
  | is_ok l e ↦ known-Stops 1 a b l [] stream e (omega arith)
  | is_err x e ↦ round-Stops 2 _ stream (λ n required pos long.
      unknown-Stops a b (take n stream) (drop n stream)
        (omega (arith, error_required a b [] x n e required, length-take n stream, long)))
  | is_panic e ↦ absurd (rw e at (packet_length-IsLength (b ∷ [])))
]

first_round : (stream : Bytes) → Stops (read_loop 4 new stream)
unfolding min_bytes_required
first_round [] = round-Stops 3 new [] (λ n required pos long. absurd (omega arith))
first_round (a ∷ []) =
    round-Stops 3 new (a ∷ []) (λ n required pos long. absurd (ground (arith, required, long)))
first_round (a ∷ b ∷ stream) = round-Stops 3 new (a ∷ b ∷ stream) (λ n required pos long.
    let two : n ≡ 2 = ground (arith, required) in rw two (headed-Stops a b stream))

-- On any stream `read_packet` comes to an end within four rounds of its loop: it returns a
-- packet, an error or a panic.
pub read_packet-ne-none : (stream : Bytes) → read_packet stream ≢ none
unfolding read_packet
read_packet-ne-none stream = first_round stream

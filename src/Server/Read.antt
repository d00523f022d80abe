-- ===== src/Server/Read.antt =====
-- src/aio/server.rs: `read_packet` reads a frame exactly, and always comes to an end.
use tjiftjaf.Prelude.{
  ℕ, suc, ◌+◌, ◌-◌, ◌/◌, ◌%◌, ◌≤◌, ◌<◌, ◌≡◌, refl, sym, ap, ◌∙◌, arith, ltb, ◌==◌, [], ◌∷◌, ◌++◌,
  append_assoc, append-nil, length, take, drop, length-append, take-append, drop-append,
  length-take, take-append-drop, Option, some, inl, inr, Bool-cases,
}
use tjiftjaf.Result.{Result, ok, err, panic}
use tjiftjaf.Rust.{Bytes, slice_from}
use tjiftjaf.Decode.{packet_length}
use tjiftjaf.Decode.Length.{packet_length-remaining}
use tjiftjaf.Encode.Remaining.{groups, remaining, length-groups}
use tjiftjaf.Frame.Layout.{max_body, frame}
use tjiftjaf.Packet
use tjiftjaf.Packet.{Packet}
use tjiftjaf.Server.{
  Parser, new, push, parse, parsed, read_round, bytes_required, min_bytes_required, bytes_missing,
  read_loop, read_packet,
}

abbrev pub rest_of : ℕ → Parser → Bytes → ℕ → Option (Result Packet × Bytes)
rest_of rounds parser stream n = read_loop rounds (push parser (take n stream)) (drop n stream)

-- A round that reads, and the last one.
read_more :
    (rounds n : ℕ) (parser : Parser) (front back : Bytes)
    → bytes_required parser ≡ ok n
    → 0 < n
    → length front ≡ n
    → read_loop (suc rounds) parser (front ++ back) ≡ read_loop rounds (push parser front) back
unfolding read_loop
read_more rounds n parser front back e pos size =
    ap
      (λ (r : Result ℕ).
        read_round r parser (front ++ back) (rest_of rounds parser (front ++ back)))
      (e ∙ ap ok (sym size))
    ∙ rw (take-append front back, drop-append front back) (ground (arith, length-append front back))

parsed_result : (parser : Parser) (r : Result Packet) → (parsed parser r).0 ≡ r
parsed_result parser (ok p) = refl
parsed_result parser (err e) = refl
parsed_result parser panic = refl

read_done :
    (rounds : ℕ) (parser : Parser) (stream : Bytes)
    → bytes_required parser ≡ ok 0
    → read_loop (suc rounds) parser stream ≡ some (Packet.try_from parser.inner, stream)
unfolding read_loop parse
read_done rounds parser stream e =
    ap (λ (r : Result ℕ). read_round r parser stream (rest_of rounds parser stream)) e
    ∙ ap (λ (r : Result Packet). some (r, stream))
        (parsed_result parser (Packet.try_from parser.inner))

-- Behind two bytes the length is decoded.
pub required_behind :
    (a b : ℕ) (rest : Bytes)
    → min_bytes_required (a ∷ b ∷ rest) ≡ bytes_missing (a ∷ b ∷ rest) (packet_length (b ∷ rest))
unfolding min_bytes_required slice_from
required_behind a b rest = ground arith

module _ (first k : ℕ) (tail body : Bytes) (fit : length body ≤ max_body)
    (head : remaining (length body) ≡ k ∷ tail) where
  -- The fixed header and a part of the body leave the rest of the body to be read.
  required :
      (p q : Bytes) → body ≡ p ++ q → min_bytes_required (first ∷ k ∷ (tail ++ p)) ≡ ok (length q)
  unfolding bytes_missing
  required p q cut =
      let size : length body ≡ length p + length q = ap length cut ∙ length-append p q in
      let l : packet_length (k ∷ (tail ++ p)) ≡ ok (2 + length tail + length body) =
        rw head at (packet_length-remaining (length body) p fit) ∙ ap ok (omega arith) in
      let short : length tail ≤ 3 = omega (arith, rw head at (length-groups 3 (length body)).1) in
      required_behind first k (tail ++ p)
      ∙ ap (bytes_missing (first ∷ k ∷ (tail ++ p))) l
      ∙ ground (arith, length-append tail p, size, short)

empty_of : (xs : Bytes) → length xs ≡ 0 → xs ≡ []
empty_of [] h = refl
empty_of (x ∷ xs) h = absurd (omega arith)

-- A first length byte with its top bit set asks for 125 bytes.
required_long : (first k : ℕ) → 128 ≤ k → k < 256 → min_bytes_required (first ∷ k ∷ []) ≡ ok 125
unfolding min_bytes_required bytes_missing slice_from packet_length
required_long first k h h' = ground arith

long_header :
    (n : ℕ)
    → 128 ≤ n
    → (k : ℕ) × (tail : Bytes) × (remaining n ≡ k ∷ tail)
      × (128 ≤ k)
      × (k < 256)
      × (length tail ≤ 3)
unfolding groups
long_header n h = (
  n % 128 + 128,
  groups 2 (n / 128),
  ground arith,
  omega arith,
  omega arith,
  omega (arith, length-groups 2 (n / 128)),
)

short_header : (n : ℕ) → n < 128 → remaining n ≡ n ∷ []
unfolding groups
short_header n h = ground arith

regroup : (a b c d : Bytes) → (a ++ (b ++ c)) ++ d ≡ (a ++ b) ++ (c ++ d)
regroup a b c d = simp append_assoc

-- What the loop holds after the first two bytes.
abbrev headed : ℕ → ℕ → Parser
headed first k = record { inner = first ∷ k ∷ [] }

read_head :
    (rounds first k : ℕ) (back : Bytes)
    → read_loop (suc rounds) new (first ∷ k ∷ back) ≡ read_loop rounds (headed first k) back
read_head rounds first k back =
    read_more rounds 2 new (first ∷ k ∷ []) back (unfold min_bytes_required in refl) (omega arith)
      refl

module _ (first : ℕ) (body rest : Bytes) (fit : length body ≤ max_body) where
  abbrev Reads : Type 0
  Reads = read_packet (frame first body ++ rest) ≡ some (Packet.try_from (frame first body), rest)

  read_empty : length body ≡ 0 → Reads
  unfolding read_packet
  read_empty h =
      let none_left : body ≡ [] = empty_of body h in
      let head : remaining (length body) ≡ 0 ∷ [] =
        short_header (length body) (omega arith) ∙ ap (λ (n : ℕ). n ∷ []) h in
      rw (head, none_left)
        (read_head 3 first 0 rest
          ∙ read_done 2 (headed first 0) rest (required first 0 [] body fit head [] [] none_left))

  read_short : 0 < length body → length body < 128 → Reads
  unfolding read_packet
  read_short pos small =
      let n : ℕ = length body in
      let head : remaining n ≡ n ∷ [] = short_header n small in
      rw head (
        read_head 3 first n (body ++ rest)
        ∙ read_more 2 n (headed first n) body rest (required first n [] body fit head [] body refl)
            pos refl
        ∙ read_done 1 (record { inner = first ∷ n ∷ body }) rest
            (required first n [] body fit head body [] (sym (append-nil body))))

  read_long : 128 ≤ length body → Reads
  unfolding read_packet
  read_long large =
      let (k, tail, head, low, high, short) = long_header (length body) large in
      let p : Bytes = take (125 - length tail) body in
      let q : Bytes = drop (125 - length tail) body in
      let cut : p ++ q ≡ body = take-append-drop (125 - length tail) body in
      let size : length p ≡ 125 - length tail =
        omega (arith, length-take (125 - length tail) body, short) in
      let sizes : length p + length q ≡ length body = sym (length-append p q) ∙ ap length cut in
      let stream : (first ∷ k ∷ (tail ++ body)) ++ rest ≡ first ∷ k ∷ ((tail ++ p) ++ (q ++ rest)) =
        ap (λ (l : Bytes). first ∷ k ∷ ((tail ++ l) ++ rest)) (sym cut)
        ∙ ap (λ (l : Bytes). first ∷ k ∷ l) (regroup tail p q rest) in
      let whole : (tail ++ p) ++ q ≡ tail ++ body =
        append_assoc tail p q ∙ ap (λ (l : Bytes). tail ++ l) cut in
      rw head (
        ap (read_loop 4 new) stream
        ∙ read_head 3 first k ((tail ++ p) ++ (q ++ rest))
        ∙ read_more 2 125 (headed first k) (tail ++ p) (q ++ rest) (required_long first k low high)
            (omega arith) (omega (arith, length-append tail p, size, short))
        ∙ read_more 1 (length q) (record { inner = first ∷ k ∷ (tail ++ p) }) q rest
            (required first k tail body fit head p q (sym cut)) (omega (arith, size, sizes)) refl
        ∙ read_done 0 (record { inner = first ∷ k ∷ ((tail ++ p) ++ q) }) rest
            (ap (λ (l : Bytes). min_bytes_required (first ∷ k ∷ l)) whole
              ∙ required first k tail body fit head body [] (sym (append-nil body)))
        ∙ ap (λ (l : Bytes). some (Packet.try_from (first ∷ k ∷ l), rest)) whole)

-- A frame in front of a stream is read exactly: `read_packet` returns what `Packet::try_from`
-- makes of it, and leaves what follows it, for any body that a frame can have.
pub read_packet-frame :
    (first : ℕ) (body rest : Bytes)
    → length body ≤ max_body
    → read_packet (frame first body ++ rest) ≡ some (Packet.try_from (frame first body), rest)
read_packet-frame first body rest fit = elim (Bool-cases (ltb (length body) 128)) [
  | inl small ↦ elim (Bool-cases (length body == 0)) [
    | inl z ↦ read_empty first body rest fit (ground arith)
    | inr z ↦ read_short first body rest fit (ground arith) (ground arith)
  ]
  | inr large ↦ read_long first body rest fit (ground arith)
]

-- ===== src/Frame/Layout.antt =====
-- Frames as MQTT lays them out: a first byte, the remaining length, and that many bytes.
use tjiftjaf.Prelude.{
  ℕ, ◌+◌, ◌≤◌, ◌≡◌, refl, ap, ◌∙◌, sym, arith, [], ◌∷◌, ◌++◌, append-nil, length, length-append,
}
use tjiftjaf.Result.{ok}
use tjiftjaf.Rust.{Bytes, slice}
use tjiftjaf.Rust.Slices.{slice-append}
use tjiftjaf.Decode.{packet_length}
use tjiftjaf.Decode.Length.{packet_length-remaining}
use tjiftjaf.Encode.{remaining_length}
use tjiftjaf.Encode.Remaining.{groups, remaining, remaining_length-remaining}
use tjiftjaf.Frame.{try_header, try_offset_variable_header, header_of, length_of}

-- The longest body that a frame can have.
abbrev pub max_body : ℕ
max_body = 268435455

-- The fixed header of a frame with `n` bytes behind it.
abbrev pub fixed_header : ℕ → ℕ → Bytes
fixed_header first n = first ∷ remaining n

abbrev pub frame : ℕ → Bytes → Bytes
frame first body = fixed_header first (length body) ++ body

pub try_header-fixed_header :
    (first n : ℕ) (rest : Bytes)
    → n ≤ max_body
    → try_header (fixed_header first n ++ rest) ≡ ok (fixed_header first n)
unfolding try_header groups slice
try_header-fixed_header first n rest h = ground arith

pub header_of-fixed_header :
    (first n : ℕ) (rest : Bytes)
    → n ≤ max_body
    → header_of (fixed_header first n ++ rest) ≡ ok (fixed_header first n)
unfolding header_of groups slice
header_of-fixed_header first n rest h = ground arith

pub try_offset-fixed_header :
    (first n : ℕ) (rest : Bytes)
    → n ≤ max_body
    → try_offset_variable_header (fixed_header first n ++ rest) ≡ ok (length (fixed_header first n))
unfolding try_offset_variable_header
try_offset-fixed_header first n rest h = rw (try_header-fixed_header first n rest h)

-- The encoded length of a frame is its length in bytes.
pub packet_length-frame :
    (first : ℕ) (body : Bytes)
    → length body ≤ max_body
    → packet_length (remaining (length body) ++ body) ≡ ok (length (frame first body))
packet_length-frame first body h =
    packet_length-remaining (length body) body h
    ∙ ap ok (omega (arith, length-append (remaining (length body)) body))

-- ... and the fixed header alone tells it.
pub packet_length-header :
    (first : ℕ) (body : Bytes)
    → length body ≤ max_body
    → packet_length (remaining (length body)) ≡ ok (length (frame first body))
packet_length-header first body h =
    rw (append-nil) at (packet_length-remaining (length body) [] h)
    ∙ ap ok (omega (arith, length-append (remaining (length body)) body))

pub slice_tail : (x : ℕ) (rest : Bytes) → slice (x ∷ rest) 1 (length (x ∷ rest)) ≡ ok rest
slice_tail x rest =
    ap (λ (l : Bytes). slice (x ∷ l) 1 (length (x ∷ l))) (sym (append-nil rest))
    ∙ slice-append (x ∷ []) rest [] 1 _ refl (omega (arith, length-append rest []))

-- `Frame::length` of a frame that fits is its number of bytes.
pub length_of-frame :
    (first : ℕ) (body : Bytes)
    → length body ≤ max_body
    → length_of (frame first body) ≡ ok (length (frame first body))
unfolding length_of
length_of-frame first body h =
    rw (slice_tail first (remaining (length body) ++ body), packet_length-frame first body h)

-- The remaining length that a builder writes in front of the two parts of a body.
pub remaining_length-parts :
    (variable rest : Bytes)
    → length (variable ++ rest) ≤ max_body
    → remaining_length (length variable + length rest) ≡ ok (remaining (length (variable ++ rest)))
remaining_length-parts variable rest h =
    let size : length variable + length rest ≡ length (variable ++ rest) =
      omega (arith, length-append variable rest) in
    rw size (remaining_length-remaining (length (variable ++ rest)) h)

-- ===== src/Frame/Checks.antt =====
-- The steps of `verify` on a frame that is laid out well.
use tjiftjaf.Prelude.{ℕ, ◌≤◌, ◌<◌, ◌≡◌, refl, arith, ◌++◌, length, length-append, ==-refl}
use tjiftjaf.Result.{ok, panic}
use tjiftjaf.Rust.{Bytes}
use tjiftjaf.Rust.Slices.{slice_panic}
use tjiftjaf.Encode.Remaining.{remaining}
use tjiftjaf.Frame.{try_two_bytes, two_bytes, check_length}
use tjiftjaf.Frame.Layout.{
  max_body, fixed_header, frame, try_offset-fixed_header, header_of-fixed_header,
  packet_length-header, slice_tail,
}
use tjiftjaf.Frame.Payload.{slice-frame}

pub check_length-frame :
    (first : ℕ) (body : Bytes)
    → length body ≤ max_body
    → check_length (frame first body) (fixed_header first (length body)) ≡ ok tt
unfolding check_length
check_length-frame first body h =
    rw (slice_tail first (remaining (length body)), packet_length-header first body h) (rw ==-refl)

module _ (first : ℕ) (variable rest : Bytes) (two : length variable ≡ 2)
    (fits : length (variable ++ rest) ≤ max_body) where
  pub try_two_bytes-frame : try_two_bytes (frame first (variable ++ rest)) ≡ ok variable
  unfolding try_two_bytes
  try_two_bytes-frame =
      rw (try_offset-fixed_header first (length (variable ++ rest)) (variable ++ rest) fits)
        (slice-frame first variable rest _ _ refl (omega arith))

  pub two_bytes-frame : two_bytes (frame first (variable ++ rest)) ≡ ok variable
  unfolding two_bytes
  two_bytes-frame =
      rw (header_of-fixed_header first (length (variable ++ rest)) (variable ++ rest) fits)
        (slice-frame first variable rest _ _ refl (omega arith))

-- With a body of fewer than two bytes, `try_variable_header` of a SUBSCRIBE, SUBACK or
-- UNSUBSCRIBE panics.
pub try_two_bytes_short :
    (first : ℕ) (body : Bytes) → length body < 2 → try_two_bytes (frame first body) ≡ panic
unfolding try_two_bytes
try_two_bytes_short first body h =
    rw (try_offset-fixed_header first (length body) body (omega arith))
      (slice_panic _ _ _ (omega (arith, length-append (fixed_header first (length body)) body)))

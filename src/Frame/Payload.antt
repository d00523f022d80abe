-- ===== src/Frame/Payload.antt =====
-- The payload of a frame whose variable header is known.
use tjiftjaf.Prelude.{
  ℕ, ◌+◌, ◌≤◌, ◌≡◌, refl, ap, ◌∙◌, arith, [], ◌++◌, append_assoc, append-nil, length, length-append,
}
use tjiftjaf.Result.{ok, ◌>>=◌}
use tjiftjaf.Rust.{Bytes, slice, sub_checked}
use tjiftjaf.Rust.Slices.{slice-append}
use tjiftjaf.Frame.{Frame, UnverifiedFrame, payload, try_offset_payload, try_payload}
use tjiftjaf.Frame.Layout.{
  max_body, fixed_header, frame, try_header-fixed_header, header_of-fixed_header, length_of-frame,
}

module _ (first : ℕ) (variable rest : Bytes) where
  front : Bytes
  front = fixed_header first (length (variable ++ rest))

  slice-variable :
      slice (frame first (variable ++ rest)) (length front) (length front + length variable)
      ≡ ok variable
  unfolding front
  slice-variable = slice-append front variable rest _ _ refl refl

  slice_rest :
      (size : ℕ)
      → size ≡ length rest
      → slice
          (frame first (variable ++ rest))
          (length front + length variable)
          (length front + length variable + size)
        ≡ ok rest
  unfolding front
  slice_rest size e =
      let whole : front ++ (variable ++ rest) ≡ (front ++ variable) ++ (rest ++ []) =
        simp (append_assoc, append-nil) in
      let before = length-append front variable in
      ap
        (λ (l : Bytes).
          slice l (length front + length variable) (length front + length variable + size))
        whole
      ∙ slice-append (front ++ variable) rest [] _ _ (omega arith) (omega arith)

  length-frame :
      length (frame first (variable ++ rest)) ≡ length front + length variable + length rest
  unfolding front
  length-frame = omega (arith, length-append front (variable ++ rest), length-append variable rest)

  -- The last two steps of `payload` and of `try_payload`.
  rest_checked :
      (total offset : ℕ)
      → total ≡ length (frame first (variable ++ rest))
      → offset ≡ length front + length variable
      → (sub_checked total offset >>= λ size.
          slice (frame first (variable ++ rest)) offset (offset + size))
        ≡ ok rest
  rest_checked total offset e o =
      let left : sub_checked total offset ≡ ok (length rest) = ground (arith, length-frame) in
      rw (left, o) (slice_rest (length rest) refl)

pub slice-frame :
    (first : ℕ) (variable rest : Bytes) (start end : ℕ)
    → start ≡ length (fixed_header first (length (variable ++ rest)))
    → end ≡ start + length variable
    → slice (frame first (variable ++ rest)) start end ≡ ok variable
unfolding front
slice-frame first variable rest start end s e = rw (e, s) (slice-variable first variable rest)

-- An unverified frame that is laid out as such, and whose variable header is the first part
-- of its body, has the second part for its payload.
pub try_payload-frame :
    {A : Type 0} ⦃f : UnverifiedFrame A⦄ (a : A) (first : ℕ) (variable rest : Bytes)
    → length (variable ++ rest) ≤ max_body
    → f.bytes a ≡ frame first (variable ++ rest)
    → f.try_variable_header a ≡ ok variable
    → try_payload a ≡ ok rest
unfolding try_payload try_offset_payload front
try_payload-frame a first variable rest fits shape var =
    rw
      (
        shape,
        try_header-fixed_header first (length (variable ++ rest)) (variable ++ rest) fits,
        var,
      )
      (rest_checked first variable rest _ _ refl refl)

pub payload-frame :
    {A : Type 0} ⦃f : Frame A⦄ (a : A) (first : ℕ) (variable rest : Bytes)
    → length (variable ++ rest) ≤ max_body
    → f.as_bytes a ≡ frame first (variable ++ rest)
    → f.variable_header a ≡ ok variable
    → payload a ≡ ok rest
unfolding payload front
payload-frame a first variable rest fits shape var =
    rw
      (
        shape,
        header_of-fixed_header first (length (variable ++ rest)) (variable ++ rest) fits,
        var,
        length_of-frame first (variable ++ rest) fits,
      )
      (rest_checked first variable rest _ _ refl refl)

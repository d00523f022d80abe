-- ===== src/Frame/Verified.antt =====
-- src/packet/mod.rs: the methods of `Frame` on bytes that passed the checks of `UnverifiedFrame`.
use tjiftjaf.Prelude.{
  ℕ, zero, suc, ◌+◌, ◌≡◌, refl, sym, ap, ◌∙◌, arith, [], ◌∷◌, ◌++◌, ◌==◌, not, Bool, true, false,
  Bool-cases, inl, inr, length, take, drop, get_elem?, take-append-drop,
}
use tjiftjaf.Prelude.Bits.{has_bit}
use tjiftjaf.Result.{ok, >>=-eq-ok, ok_or, not_enough_bytes, fail_if, too_many_bytes}
use tjiftjaf.Rust.{Bytes, slice}
use tjiftjaf.Rust.Slices.{ok_injective}
use tjiftjaf.Decode.{packet_length}
use tjiftjaf.Decode.Length.{packet_length-append}
use tjiftjaf.Frame.Layout.{slice_tail}
use tjiftjaf.Frame.{try_header, try_header_loop, header_of, length_of, check_length}

-- Where `try_header` finds a header, `header` returns it.
pub header_of-try_header :
    (inner header : Bytes) → try_header inner ≡ ok header → header_of inner ≡ ok header
unfolding try_header header_of
header_of-try_header [] header e = cc
header_of-try_header (a ∷ []) header e = cc
header_of-try_header (a ∷ b ∷ []) header e = ground (arith, e)
header_of-try_header (a ∷ b ∷ c ∷ []) header e = ground (arith, e)
header_of-try_header (a ∷ b ∷ c ∷ d ∷ []) header e = ground (arith, e)
header_of-try_header (a ∷ b ∷ c ∷ d ∷ x ∷ rest) header e = ground (arith, e)

-- A header of `n` bytes is the front of its bytes.
front :
    (inner header : Bytes) (n : ℕ)
    → slice inner 0 (suc n) ≡ ok header
    → (x : ℕ) × (field tail : Bytes) × (header ≡ x ∷ field) × (inner ≡ x ∷ (field ++ tail))
unfolding slice
front [] header n e = absurd (ground (arith, e))
front (x ∷ rest) header n e = (
  x,
  take n rest,
  drop n rest,
  ground (arith, e),
  ap (λ (l : Bytes). x ∷ l) (sym (take-append-drop n rest)),
)

-- A header is cut out of its bytes.
cut_loop :
    (inner header : Bytes) (n rounds : ℕ)
    → try_header_loop inner n rounds ≡ ok header
    → (m : ℕ) × (slice inner 0 (suc m) ≡ ok header)
unfolding try_header_loop
cut_loop inner header n zero e = cc
cut_loop inner header n (suc rounds) e =
    let (byte, _, e1) = >>=-eq-ok (ok_or (get_elem? inner n) (not_enough_bytes 1 0)) _ e in
    let next : suc n ≡ n + 1 = omega arith in
    elim (Bool-cases (not (has_bit 128 byte))) [
      | inl h ↦ (n, ap (slice inner 0) next ∙ rw h at e1)
      | inr h ↦ cut_loop inner header (n + 1) rounds (rw h at e1)
    ]

-- The parts of bytes whose header was found.
pub try_header-front :
    (inner header : Bytes)
    → try_header inner ≡ ok header
    → (x : ℕ) × (field tail : Bytes) × (header ≡ x ∷ field) × (inner ≡ x ∷ (field ++ tail))
unfolding try_header
try_header-front inner header e =
    let (m, cut) = cut_loop inner header 1 4 e in front inner header m cut

passed : (b : Bool) → fail_if (not b) too_many_bytes ≡ ok tt → b ≡ true
passed true e = refl
passed false e = cc

length_of_cons :
    (x : ℕ) (rest : Bytes) (n : ℕ) → packet_length rest ≡ ok n → length_of (x ∷ rest) ≡ ok n
unfolding length_of
length_of_cons x rest n e = rw (slice_tail x rest, e) refl

-- Where `verify_header` has found the encoded length right, `length` returns it.
pub length_of-check_length :
    (inner header : Bytes)
    → try_header inner ≡ ok header
    → check_length inner header ≡ ok tt
    → length_of inner ≡ ok (length inner)
unfolding check_length length_of
length_of-check_length inner header e checked =
    let (x, field, tail, eh, ei) = try_header-front inner header e in
    let (f, ef, c1) = >>=-eq-ok (slice header 1 (length header)) _ checked in
    let (n, en, c2) = >>=-eq-ok (packet_length f) _ c1 in
    let same : field ≡ f = ok_injective (sym (slice_tail x field) ∙ rw eh at ef) in
    let whole : packet_length (field ++ tail) ≡ ok n =
      packet_length-append field tail n (ap packet_length same ∙ en) in
    let right : n ≡ length inner = ground (arith, passed (n == length inner) c2) in
    ap length_of ei ∙ length_of_cons x (field ++ tail) n whole ∙ ap ok right

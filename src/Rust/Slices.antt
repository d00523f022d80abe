-- ===== src/Rust/Slices.antt =====
-- Laws of indexing and slicing.
use tjiftjaf.Prelude.{
  ℕ, zero, suc, ◌+◌, ◌-◌, ◌≤◌, ◌<◌, ◌≡◌, ap, ◌∙◌, arith, [], ◌∷◌, ◌++◌, length, take, drop,
  length-append, take-append, drop-append, length-take, length-drop, ◌↔◌, true, ltb, ◌||◌, ◌≢◌, sym,
  Bool-cases, inl, inr,
}
use tjiftjaf.Result.{Result, ok, panic}
use tjiftjaf.Rust.{Bytes, index, slice, slice_from, bytes_eq}

pub slice_ok :
    (bytes : Bytes) (start end : ℕ)
    → start ≤ end
    → end ≤ length bytes
    → slice bytes start end ≡ ok (take (end - start) (drop start bytes))
unfolding slice
slice_ok bytes start end h k = ground arith

pub slice_panic :
    (bytes : Bytes) (start end : ℕ) → length bytes < end → slice bytes start end ≡ panic
unfolding slice
slice_panic bytes start end h = ground arith

pub slice_from_ok :
    (bytes : Bytes) (start : ℕ)
    → start ≤ length bytes
    → slice_from bytes start ≡ ok (drop start bytes)
unfolding slice_from
slice_from_ok bytes start h = ground arith

-- The middle of three parts, by its bounds.
pub slice-append :
    (front middle back : Bytes) (start end : ℕ)
    → start ≡ length front
    → end ≡ length front + length middle
    → slice (front ++ (middle ++ back)) start end ≡ ok middle
slice-append front middle back start end s e =
    let size : end - start ≡ length middle = omega arith in
    slice_ok _ start end (omega arith)
      (omega (arith, length-append front (middle ++ back), length-append middle back))
    ∙ rw (size, s, drop-append front (middle ++ back)) (ap ok (take-append middle back))

pub slice_from-append :
    (front back : Bytes) (start : ℕ)
    → start ≡ length front
    → slice_from (front ++ back) start ≡ ok back
slice_from-append front back start s =
    slice_from_ok _ start (omega (arith, length-append front back))
    ∙ rw s (ap ok (drop-append front back))

pub bytes_eq_iff : (a b : Bytes) → (bytes_eq a b ≡ true) ↔ (a ≡ b)
unfolding bytes_eq
bytes_eq_iff (x ∷ a) (y ∷ b) = ground (arith, bytes_eq_iff a b)
bytes_eq_iff _ _ = ground arith

pub index-append :
    (front back : Bytes) (x i : ℕ) → i ≡ length front → index (front ++ (x ∷ back)) i ≡ ok x
index-append [] back x i e = rw e
index-append (y ∷ front) back x zero e = absurd (omega arith)
index-append (y ∷ front) back x (suc i) e = index-append front back x i (omega arith)

pub ok_injective : {A : Type 0} {a b : A} → Result.ok a ≡ ok b → a ≡ b
ok_injective e = cc

ok-ne-panic : {A : Type 0} {a : A} → panic ≢ Result.ok a
ok-ne-panic e = cc

-- A slice that does not panic lies inside its bytes.
pub length-slice :
    (bytes part : Bytes) (start end : ℕ)
    → slice bytes start end ≡ ok part
    → (length part ≡ end - start) × (start ≤ end) × (end ≤ length bytes)
unfolding slice
length-slice bytes part start end e = elim (Bool-cases (ltb end start || ltb (length bytes) end)) [
  | inl h ↦ absurd (ok-ne-panic (rw h at e))
  | inr h ↦
      let le : start ≤ end = ground arith in
      let fits : end ≤ length bytes = ground arith in
      let same : take (end - start) (drop start bytes) ≡ part = ok_injective (rw h at e) in
      (
        sym (ap length same)
            ∙ omega (
              arith,
              length-take (end - start) (drop start bytes),
              length-drop start bytes,
              le,
              fits,
            ),
        le,
        fits,
      )
]

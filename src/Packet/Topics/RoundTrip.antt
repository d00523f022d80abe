-- ===== src/Packet/Topics/RoundTrip.antt =====
-- Entries one behind the other are collected in order, and the iterator agrees with the loop.
use tjiftjaf.Prelude.{
  ℕ, zero, suc, ◌+◌, ◌-◌, ◌≤◌, ◌<◌, ◌≡◌, sym, ap, ◌∙◌, arith, List, [], ◌∷◌, ◌++◌, append_assoc,
  length, length-append, All, leb, Bool-cases, inl, inr, ◌⊎◌,
}
use tjiftjaf.Result.{Result, ok, outcome, is_ok, is_err, is_panic}
use tjiftjaf.Rust.{Bytes}
use tjiftjaf.Packet.Topics.{Topics, collect_loop, collect, next, drain}

-- An entry parser against an encoder of entries: it reads back what was written, wherever
-- that stands, and it moves on.
pub record ItemCodec {A : Type 0} (item : Bytes → ℕ → Result (A × ℕ)) : Type 1 where
  pub encode : A → Bytes
  pub Fits : A → Type 0
  pub encode_pos : (x : A) → 0 < length (encode x)
  pub item-encode :
      (front back : Bytes) (x : A)
      → Fits x
      → item (front ++ (encode x ++ back)) (length front) ≡ ok (x, length front + length (encode x))
  pub advances :
      (payload : Bytes) (offset : ℕ) (x : A) (next : ℕ)
      → item payload offset ≡ ok (x, next)
      → offset < next

module _ {A : Type 0} {item : Bytes → ℕ → Result (A × ℕ)} (c : ItemCodec item) where
  abbrev pub encode_all : List A → Bytes
  encode_all [] = []
  encode_all (x ∷ xs) = c.encode x ++ encode_all xs

  pub length-encode_all : (xs : List A) → length xs ≤ length (encode_all xs)
  length-encode_all [] = omega arith
  length-encode_all (x ∷ xs) =
      omega
        (arith, c.encode_pos x, length-append (c.encode x) (encode_all xs), length-encode_all xs)

  collect_loop-encode_all :
      (xs : List A) (x : A) (fuel : ℕ) (front : Bytes) (out : List A)
      → All c.Fits (x ∷ xs)
      → length xs < fuel
      → collect_loop item fuel (front ++ encode_all (x ∷ xs)) (length front) out
        ≡ ok (out ++ (x ∷ xs))
  unfolding collect_loop
  collect_loop-encode_all xs x zero front out fits h = absurd (omega arith)
  collect_loop-encode_all [] x (suc fuel) front out fits h =
      rw (c.item-encode front [] x fits.0)
        (ground (arith, length-append front (c.encode x ++ []), length-append (c.encode x) []))
  collect_loop-encode_all (y ∷ ys) x (suc fuel) front out fits h =
      let later : Bytes = encode_all (y ∷ ys) in
      let again : collect_loop item fuel (front ++ (c.encode x ++ later))
            (length front + length (c.encode x)) (out ++ (x ∷ []))
          ≡ ok (out ++ (x ∷ y ∷ ys)) =
        rw
          (
            append_assoc front (c.encode x) later,
            length-append front (c.encode x),
            append_assoc out (x ∷ []) (y ∷ ys),
          )
          at
          (collect_loop-encode_all ys y fuel (front ++ c.encode x) (out ++ (x ∷ [])) fits.1
            (omega arith)) in
      rw (c.item-encode front later x fits.0) (
        ground (
          arith,
          again,
          c.encode_pos y,
          length-append front (c.encode x ++ later),
          length-append (c.encode x) later,
          length-append (c.encode y) (encode_all ys),
        ))

  -- For an entry parser with an encoder that it inverts, a payload of one encoded entry or more
  -- is collected to its entries, in order.
  pub collect-encode_all :
      (xs : List A) → 0 < length xs → All c.Fits xs → collect item (encode_all xs) ≡ ok xs
  unfolding collect
  collect-encode_all [] h fits = absurd (omega arith)
  collect-encode_all (x ∷ xs) h fits =
      collect_loop-encode_all xs x (suc (length (encode_all (x ∷ xs)))) [] [] fits
        (omega (arith, length-encode_all (x ∷ xs)))

  -- For an entry parser that moves on, fuel that exceeds the bytes that are left gives the
  -- result of any other such fuel: the loop does not run out of it.
  pub collect_loop_fuel :
      (f g : ℕ) (payload : Bytes) (offset : ℕ) (out : List A)
      → length payload - offset < f
      → length payload - offset < g
      → collect_loop item f payload offset out ≡ collect_loop item g payload offset out
  unfolding collect_loop
  collect_loop_fuel zero g payload offset out h k = absurd (omega arith)
  collect_loop_fuel (suc f) zero payload offset out h k = absurd (omega arith)
  collect_loop_fuel (suc f) (suc g) payload offset out h k = elim (outcome (item payload offset)) [
    | is_ok (x, next) e ↦ rw e (
        ground (
          arith,
          c.advances payload offset x next e,
          collect_loop_fuel f g payload next (out ++ (x ∷ [])),
        ))
    | is_err z e ↦ rw e
    | is_panic e ↦ rw e
  ]

module _ {A : Type 0} (item : Bytes → ℕ → Result (A × ℕ)) where
  abbrev topics_at : Bytes → ℕ → Topics
  topics_at payload offset = record { topics = payload; offset = offset }

  drain_end :
      (f : ℕ) (payload : Bytes) (offset : ℕ) (out : List A)
      → length payload ≤ offset
      → drain item (suc f) (topics_at payload offset) out ≡ ok out
  unfolding drain
  drain_end f payload offset out h = ground arith

  drain_step :
      (f : ℕ) (payload : Bytes) (offset : ℕ) (out : List A) (x : A) (n : ℕ)
      → offset < length payload
      → item payload offset ≡ ok (x, n)
      → drain item (suc f) (topics_at payload offset) out
        ≡ drain item f (topics_at payload n) (out ++ (x ∷ []))
  unfolding drain
  drain_step f payload offset out x n h e = ground arith

  pub collect_loop-cases :
      (f : ℕ) (payload : Bytes) (offset : ℕ) (out xs : List A)
      → collect_loop item (suc f) payload offset out ≡ ok xs
      → (x : A) × (n : ℕ) × (item payload offset ≡ ok (x, n))
        × (((length payload ≤ n) × (xs ≡ out ++ (x ∷ [])))
            ⊎ ((n < length payload) × (collect_loop item f payload n (out ++ (x ∷ [])) ≡ ok xs)))
  unfolding collect_loop
  collect_loop-cases f payload offset out xs h = elim (outcome (item payload offset)) [
    | is_ok (x, n) e ↦
        let h' = rw e at h in
        elim (Bool-cases (leb (length payload) n)) [
          | inl last ↦ (x, n, e, inl (ground arith, ground arith))
          | inr more ↦ (x, n, e, inr (ground arith, ground arith))
        ]
    | is_err z e ↦ absurd (ground arith)
    | is_panic e ↦ absurd (ground arith)
  ]

  -- Where the loop of the verification collects a list from an offset inside the payload, the
  -- iterator yields the same entries and does not panic.
  pub drain-collect_loop :
      (f : ℕ) (payload : Bytes) (offset : ℕ) (out xs : List A)
      → offset < length payload
      → collect_loop item f payload offset out ≡ ok xs
      → drain item (suc f) (topics_at payload offset) out ≡ ok xs
  drain-collect_loop zero payload offset out xs lt h = unfold collect_loop in cc
  drain-collect_loop (suc f) payload offset out xs lt h =
      let (x, n, e, rest) = collect_loop-cases f payload offset out xs h in
      drain_step (suc f) payload offset out x n lt e ∙ elim rest [
        | inl (last, same) ↦ drain_end f payload n _ last ∙ ap ok (sym same)
        | inr (more, h') ↦ drain-collect_loop f payload n _ xs more h'
      ]

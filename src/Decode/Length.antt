-- ===== src/Decode/Length.antt =====
-- `packet_length` on any bytes, and on what `remaining_length` writes.
use native.Mathlib.Nat.{div-add-mod}
use tjiftjaf.Prelude.{
  ap, ℕ, zero, suc, ◌+◌, ◌*◌, ◌/◌, ◌%◌, ◌^◌, ◌≤◌, ◌<◌, ◌≡◌, arith, [], ◌∷◌, ◌++◌, length,
}
use tjiftjaf.Result.{Result, ok, err, panic}
use tjiftjaf.Rust.{Bytes}
use tjiftjaf.Decode.{packet_length_loop, packet_length}
use tjiftjaf.Encode.Remaining.{groups, remaining}

-- One round on a last group, and on a group with the top bit set.
last_group :
    (n i m value : ℕ) (rest : Bytes)
    → n < 128
    → i ≤ 3
    → m ≤ 2097152
    → value + n * m < 268435456
    → packet_length_loop (n ∷ rest) i m value ≡ ok (value + n * m + i + 2)
unfolding packet_length_loop
last_group n i m value rest h k l s = ground arith

inner_group :
    (g i m value : ℕ) (rest : Bytes)
    → g < 128
    → i < 3
    → m ≤ 2097152
    → value + g * m < 268435456
    → packet_length_loop ((g + 128) ∷ rest) i m value
      ≡ packet_length_loop rest (i + 1) (m * 128) (value + g * m)
unfolding packet_length_loop
inner_group g i m value rest h k l s = ground arith

-- The largest multiplier in the round that may be followed by `k` more.
abbrev largest : ℕ → ℕ
largest zero = 2097152
largest (suc zero) = 16384
largest (suc (suc zero)) = 128
largest (suc (suc (suc zero))) = 1
largest (suc (suc (suc (suc k)))) = 0

largest_step : (k m : ℕ) → m ≤ largest (suc k) → m * 128 ≤ largest k
largest_step zero m h = omega arith
largest_step (suc zero) m h = omega arith
largest_step (suc (suc zero)) m h = omega arith
largest_step (suc (suc (suc k))) m h = omega arith

largest-le : (k : ℕ) → largest k ≤ 2097152
largest-le zero = omega arith
largest-le (suc zero) = omega arith
largest-le (suc (suc zero)) = omega arith
largest-le (suc (suc (suc zero))) = omega arith
largest-le (suc (suc (suc (suc k)))) = omega arith

split_group : (n m : ℕ) → n * m ≡ n % 128 * m + n / 128 * (m * 128)
split_group n m = omega (arith, ap (λ (t : ℕ). t * m) (div-add-mod n 128))

packet_length_loop-groups :
    (k n i m value : ℕ) (rest : Bytes)
    → i + k ≡ 3
    → m ≤ largest k
    → n < 128 ^ suc k
    → value + n * m < 268435456
    → packet_length_loop (groups k n ++ rest) i m value
      ≡ ok (value + n * m + i + length (groups k n) + 1)
unfolding groups
packet_length_loop-groups zero n i m value rest e b h s =
    ground (arith, last_group n i m value rest)
packet_length_loop-groups (suc k) n i m value rest e b h s = ground (
  arith,
  largest-le (suc k),
  largest_step k m,
  split_group n m,
  last_group n i m value rest,
  inner_group (n % 128) i m value (groups k (n / 128) ++ rest),
  packet_length_loop-groups k (n / 128) (i + 1) (m * 128) (value + n % 128 * m) rest,
)

-- For a number of at most 268435455, `packet_length` reads back the field that
-- `remaining_length` writes, and returns the length of the whole packet: a byte for the type,
-- the field itself and the number.
pub packet_length-remaining :
    (n : ℕ) (rest : Bytes)
    → n ≤ 268435455
    → packet_length (remaining n ++ rest) ≡ ok (1 + length (remaining n) + n)
unfolding packet_length
packet_length-remaining n rest h = ground (arith, packet_length_loop-groups 3 n 0 1 0 rest)

-- A length that a packet of MQTT 3.1.1 can have, or an error that is no panic.
abbrev pub IsLength : Result ℕ → Type 0
IsLength (ok n) = (2 ≤ n) × (n ≤ 268435460)
IsLength (err e) = Unit
IsLength panic = ⊥

group_bound : (b m : ℕ) → b % 128 * m + m ≤ 128 * m
group_bound b m = grind arith

packet_length_loop-IsLength :
    (k i m value : ℕ) (src : Bytes)
    → i + k ≡ 3
    → m ≤ largest k
    → value < m
    → IsLength (packet_length_loop src i m value)
unfolding packet_length_loop
packet_length_loop-IsLength k i m value [] e b h = tt
packet_length_loop-IsLength zero i m value (byte ∷ rest) e b h = ground (arith, group_bound byte m)
packet_length_loop-IsLength (suc k) i m value (byte ∷ rest) e b h = ground (
  arith,
  group_bound byte m,
  largest-le (suc k),
  largest_step k m,
  packet_length_loop-IsLength k (i + 1) (m * 128) (value + byte % 128 * m) rest,
)

-- On any bytes `packet_length` computes without overflow: it returns an error, or a length from
-- 2 to 268435460.
pub packet_length-IsLength : (src : Bytes) → IsLength (packet_length src)
unfolding packet_length
packet_length-IsLength src =
    packet_length_loop-IsLength 3 0 1 0 src (omega arith) (omega arith) (omega arith)

packet_length_loop-append :
    (xs ys : Bytes) (i m v n : ℕ)
    → packet_length_loop xs i m v ≡ ok n
    → packet_length_loop (xs ++ ys) i m v ≡ ok n
unfolding packet_length_loop
packet_length_loop-append [] ys i m v n e = cc
packet_length_loop-append (x ∷ xs) ys i m v n e =
    ground (arith, e, packet_length_loop-append xs ys (i + 1) (m * 128) (v + x % 128 * m) n)

-- A length that is known does not depend on what follows.
pub packet_length-append :
    (xs ys : Bytes) (n : ℕ) → packet_length xs ≡ ok n → packet_length (xs ++ ys) ≡ ok n
unfolding packet_length
packet_length-append xs ys n e = packet_length_loop-append xs ys 0 1 0 n e

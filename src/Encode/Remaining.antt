-- ===== src/Encode/Remaining.antt =====
-- The bytes that `remaining_length` writes, in closed form.
use mathlib.Core.WellFounded.{Acc}
use tjiftjaf.Prelude.Order.{lt_wf}
use tjiftjaf.Prelude.{
  ℕ, zero, suc, ◌+◌, ◌/◌, ◌%◌, ◌^◌, ◌≤◌, ◌<◌, ◌≡◌, arith, [], ◌∷◌, ◌++◌, append_assoc, ltb,
  if◌then◌else◌, length, All,
}
use tjiftjaf.Result.{ok, panic}
use tjiftjaf.Rust.{Bytes, IsByte}
use tjiftjaf.Encode.{remaining_length_loop, remaining_length}

-- Groups of seven bits, the lowest first, with the top bit set on all but the last; at most
-- `k + 1` of them.
unfoldable pub groups : ℕ → ℕ → Bytes
groups zero n = n ∷ []
groups (suc k) n = if ltb n 128 then n ∷ [] else (n % 128 + 128) ∷ groups k (n / 128)

-- The remaining length field of MQTT 3.1.1, section 2.2.3.
abbrev pub remaining : ℕ → Bytes
remaining n = groups 3 n

remaining_length_loop-groups :
    (k n : ℕ) (w : Acc ◌<◌ n) (out : Bytes)
    → n < 128 ^ suc k
    → remaining_length_loop n w out ≡ out ++ groups k n
unfolding remaining_length_loop groups
remaining_length_loop-groups zero n (Acc.intro _ smaller) out h = ground arith
remaining_length_loop-groups (suc k) n (Acc.intro _ smaller) out h =
    let next : Bytes = (n % 128 + 128) ∷ [] in
    grind (
      arith,
      λ (w : Acc ◌<◌ (n / 128)).
          remaining_length_loop-groups k (n / 128) w (out ++ next) (omega arith),
      append_assoc out next (groups k (n / 128)),
    )

pub length-groups : (k n : ℕ) → (1 ≤ length (groups k n)) × (length (groups k n) ≤ k + 1)
unfolding groups
length-groups zero n = omega arith
length-groups (suc k) n = ground (arith, length-groups k (n / 128))

-- Up to 268435455 the loop stops within four rounds, no assertion fails, and it returns the
-- groups of seven bits in closed form.
pub remaining_length-remaining : (n : ℕ) → n ≤ 268435455 → remaining_length n ≡ ok (remaining n)
unfolding remaining_length
remaining_length-remaining n h =
    ground
      (arith, remaining_length_loop-groups 3 n (lt_wf.apply n) [] (omega arith), length-groups 3 n)

-- A longer remaining length than the 268435455 of MQTT fails an assertion: it panics.
pub remaining_length_panic : (n : ℕ) → 268435455 < n → remaining_length n ≡ panic
unfolding remaining_length
remaining_length_panic n h = ground arith

pub groups-IsByte : (k n : ℕ) → n < 128 ^ suc k → All IsByte (groups k n)
unfolding groups
groups-IsByte zero n h = omega arith
groups-IsByte (suc k) n h = ground (arith, groups-IsByte k (n / 128) (omega arith))

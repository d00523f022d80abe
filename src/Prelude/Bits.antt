-- ===== src/Prelude/Bits.antt =====
-- Rust's masks and shifts of a byte, written as arithmetic that the tactics read, and the
-- tables that show them equal to the bitwise operations on every byte.
use Prim.Native.Nat.{ℕ, zero, suc, ◌+◌, ◌/◌, ◌%◌, ◌<◌, bit_and, bit_or}
use mathlib.Core.Path.{◌≡◌, refl}
use mathlib.Core.Bool.{Bool, true, ◌&&◌}
use native.Mathlib.Omega.{arith}
use tjiftjaf.Prelude.Tests.{◌==◌, ==-eq, if◌then◌else◌}

-- `byte & 127`
abbrev pub mask_127 : ℕ → ℕ
mask_127 byte = byte % 128

-- `byte & bit == bit` for a power of two `bit`; `byte & 128 == 0` is its negation.
abbrev pub has_bit : ℕ → ℕ → Bool
has_bit bit byte = byte / bit % 2 == 1

-- `byte |= bit` for a power of two `bit`.
abbrev pub set_bit : ℕ → ℕ → ℕ
set_bit bit byte = if has_bit bit byte then byte else byte + bit

unfoldable pub check_below : ℕ → (ℕ → Bool) → Bool
check_below zero p = true
check_below (suc n) p = p n && check_below n p

pub check_below_lem : (n : ℕ) (p : ℕ → Bool) (x : ℕ) → check_below n p ≡ true → x < n → p x ≡ true
unfolding check_below
check_below_lem zero p x h lt = absurd (omega arith)
check_below_lem (suc n) p x h lt = ground (arith, check_below_lem n p x)

module _ (f g : ℕ → ℕ) (table : check_below 256 (λ b. f b == g b) ≡ true) where
  same_on_bytes : (b : ℕ) → b < 256 → f b ≡ g b
  same_on_bytes b h = ==-eq (f b) (g b) (check_below_lem 256 _ b table h)

pub bit_and_127 : (b : ℕ) → b < 256 → bit_and b 127 ≡ mask_127 b
unfolding check_below
bit_and_127 = same_on_bytes _ _ refl

pub bit_and_128 : (b : ℕ) → b < 256 → bit_and b 128 ≡ (if has_bit 128 b then 128 else 0)
unfolding check_below
bit_and_128 = same_on_bytes _ _ refl

pub bit_or_128 : (b : ℕ) → b < 256 → bit_or b 128 ≡ set_bit 128 b
unfolding check_below
bit_or_128 = same_on_bytes _ _ refl

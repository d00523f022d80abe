-- ===== src/Encode.antt =====
-- src/encode.rs: length-prefixed fields and the remaining length of a packet.
pub mod Remaining
use mathlib.Core.Logic.{dite}
use mathlib.Core.WellFounded.{Acc}
use native.Mathlib.Decide.{dec_lt}
use tjiftjaf.Prelude.{ℕ, ◌+◌, ◌/◌, ◌%◌, ◌<◌, [], ◌∷◌, ◌++◌, leb, if◌then◌else◌, length, arith}
use tjiftjaf.Prelude.Order.{lt_wf}
use tjiftjaf.Prelude.Bits.{set_bit}
use tjiftjaf.Result.{Result, ok, ◌>>◌, assert}
use tjiftjaf.Rust.{Bytes, as_u16, to_be_bytes}

-- `encode::utf8`; a string is its bytes.
unfoldable pub utf8 : Bytes → Bytes
utf8 value = to_be_bytes (as_u16 (length value)) ++ value

unfoldable pub bytes : Bytes → Bytes
bytes value = to_be_bytes (as_u16 (length value)) ++ value

quotient-lt : (n : ℕ) → 0 < n / 128 → n / 128 < n
quotient-lt n h = omega arith

-- The `loop`: it ends when the quotient is 0.
remaining_length_loop : (n : ℕ) → Acc ◌<◌ n → Bytes → Bytes
remaining_length_loop n (Acc.intro _ smaller) out =
    let byte = n % 128 in
    dite (dec_lt 0 (n / 128))
      (λ more.
        remaining_length_loop (n / 128) (smaller _ (quotient-lt n more))
          (out ++ (set_bit 128 byte ∷ [])))
      (λ _. out ++ (byte ∷ []))

unfoldable pub remaining_length : ℕ → Result Bytes
unfolding remaining_length_loop quotient-lt lt_wf dec_lt
remaining_length n = do
  assert (leb n 268435455)
  let out = remaining_length_loop n (lt_wf.apply n) []
  assert (leb (length out) 4)
  ok out

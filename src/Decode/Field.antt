-- ===== src/Decode/Field.antt =====
-- Length-prefixed fields: what `encode` writes is read back, and what is read stood there.
use tjiftjaf.Prelude.{
  ℕ, suc, ◌+◌, ◌*◌, ◌-◌, ◌/◌, ◌%◌, ◌≤◌, ◌≡◌, refl, ap, arith, [], ◌∷◌, ◌++◌, length, take, drop,
  length-append, length-take, sym, ◌∙◌,
}
use tjiftjaf.Result.{Result, ok, err, panic, outcome, is_ok, is_err, is_panic}
use tjiftjaf.Rust.{Bytes, IsU16, slice, to_be_bytes, as_u16}
use tjiftjaf.Rust.Slices.{slice-append, slice_from-append, slice_ok}
use tjiftjaf.Rust.Utf8.{IsStr, from_utf8, from_utf8_ok}
use tjiftjaf.Decode.{u16, bytes, variable_length, variable_length_n, utf8}
use tjiftjaf.Encode

pub u16-to_be_bytes : (n : ℕ) (rest : Bytes) → IsU16 n → u16 (to_be_bytes n ++ rest) ≡ ok n
unfolding u16
u16-to_be_bytes n rest h = ground arith

-- `field::variable_length` and `field::bytes` are the same function.
pub variable_length-bytes : (input : Bytes) → variable_length input ≡ bytes input
unfolding variable_length bytes
variable_length-bytes input = refl

-- A value of fewer than 65536 bytes is read back from its encoding, whatever follows it.
pub bytes-encode :
    (value rest : Bytes)
    → IsU16 (length value)
    → bytes (Encode.bytes value ++ rest) ≡ ok (value, length value + 2)
unfolding bytes Encode.bytes
bytes-encode value rest h = ground (
  arith,
  length-append value rest,
  slice-append (to_be_bytes (as_u16 (length value))) value rest 2 (2 + length value) refl,
)

pub utf8-bytes :
    (input value : Bytes) (k : ℕ)
    → bytes input ≡ ok (value, k)
    → IsStr value
    → utf8 input ≡ ok (value, k)
unfolding utf8
utf8-bytes input value k h s = rw (h, from_utf8_ok value s)

pub encode_same : (value : Bytes) → Encode.utf8 value ≡ Encode.bytes value
unfolding Encode.utf8 Encode.bytes
encode_same value = refl

pub utf8-encode :
    (value rest : Bytes)
    → IsU16 (length value)
    → IsStr value
    → utf8 (Encode.utf8 value ++ rest) ≡ ok (value, length value + 2)
utf8-encode value rest h s =
    rw (encode_same value) (utf8-bytes _ value _ (bytes-encode value rest h) s)

pub length-encode : (value : Bytes) → length (Encode.bytes value) ≡ length value + 2
unfolding Encode.bytes
length-encode value = omega arith

pub length-encode_utf8 : (value : Bytes) → length (Encode.utf8 value) ≡ length value + 2
unfolding Encode.utf8
length-encode_utf8 value = omega arith

-- Skipping the first field leads to the next one.
pub variable_length_n-encode :
    (n : ℕ) (value rest : Bytes)
    → IsU16 (length value)
    → variable_length_n (suc n) (Encode.bytes value ++ rest) ≡ variable_length_n n rest
unfolding variable_length_n Encode.bytes
variable_length_n-encode n value rest h = ground (
  arith,
  length-append value rest,
  slice_from-append (to_be_bytes (as_u16 (length value)) ++ value) rest (length value + 2),
)

pub variable_length_n-zero :
    (value rest : Bytes)
    → IsU16 (length value)
    → variable_length_n 0 (Encode.bytes value ++ rest) ≡ ok (value, length value + 2)
unfolding variable_length_n
variable_length_n-zero value rest h = rw variable_length-bytes (bytes-encode value rest h)

-- What a field parser returns: the data stands behind a prefix of two bytes, and the length
-- counts both. It does not panic.
abbrev pub IsField : Bytes → Result (Bytes × ℕ) → Type 0
IsField input (ok (value, k)) =
    (k ≡ length value + 2) × (k ≤ length input) × (value ≡ take (length value) (drop 2 input))
IsField input (err e) = Unit
IsField input panic = ⊥

slice_field :
    (a b size : ℕ) (rest : Bytes)
    → size ≤ length rest
    → slice (a ∷ b ∷ rest) 2 (2 + size) ≡ ok (take size rest)
slice_field a b size rest h =
    let width : 2 + size - 2 ≡ size = omega arith in
    slice_ok (a ∷ b ∷ rest) 2 (2 + size) (omega arith) (omega arith) ∙ rw width

length-take_le : (n : ℕ) (xs : Bytes) → n ≤ length xs → length (take n xs) ≡ n
length-take_le n xs h = omega (arith, length-take n xs)

take-length-take : (n : ℕ) (xs : Bytes) → n ≤ length xs → take n xs ≡ take (length (take n xs)) xs
take-length-take n xs h = ap (λ (k : ℕ). take k xs) (sym (length-take_le n xs h))

-- On any bytes `field::bytes` returns an error, or the data behind a prefix of two bytes with
-- the length that counts both, which is no more than there is. It never panics.
pub bytes-IsField : (input : Bytes) → IsField input (bytes input)
unfolding bytes
bytes-IsField [] = tt
bytes-IsField (a ∷ []) = tt
bytes-IsField (a ∷ b ∷ rest) = ground (
  arith,
  slice_field a b (a * 256 + b) rest,
  length-take_le (a * 256 + b) rest,
  take-length-take (a * 256 + b) rest,
)

-- A value of 65536 bytes or more is written with the prefix cut to 16 bits: decoding returns a
-- prefix of the value, of its length modulo 65536.
pub bytes-encode_long :
    (value rest : Bytes)
    → 65536 ≤ length value
    → bytes (Encode.bytes value ++ rest)
      ≡ ok (take (length value % 65536) (value ++ rest), length value % 65536 + 2)
unfolding bytes Encode.bytes
bytes-encode_long value rest h =
    let size = length value % 65536 in
    ground (
      arith,
      length-append value rest,
      slice_field (size / 256 % 256) (size % 256) size (value ++ rest),
    )

-- A parsed string takes the two bytes of its prefix at least.
pub utf8-pos : (input value : Bytes) (k : ℕ) → utf8 input ≡ ok (value, k) → 2 ≤ k
unfolding utf8 from_utf8
utf8-pos input value k h = elim (outcome (bytes input)) [
  | is_ok (v, n) e ↦
      let field : n ≡ length v + 2 = (rw e at (bytes-IsField input)).0 in ground arith
  | is_err x e ↦ absurd (ground arith)
  | is_panic e ↦ absurd (ground arith)
]

-- Two bytes are enough for a number.
pub u16-ok : (bytes : Bytes) → 2 ≤ length bytes → (v : ℕ) × (u16 bytes ≡ ok v)
unfolding u16
u16-ok [] h = absurd (omega arith)
u16-ok (a ∷ []) h = absurd (omega arith)
u16-ok (a ∷ b ∷ rest) h = (_, refl)

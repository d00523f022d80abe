-- ===== src/Result.antt =====
-- src/decode.rs: `DecodingError`, and the results of fallible code. A panic (an `unwrap` of an
-- error, an index or a slice out of bounds, `todo!`, a failed assertion, an integer overflow
-- under overflow checks) is a result of its own.
use tjiftjaf.Prelude.{ℕ, ◌≡◌, refl, Bool, true, false, Option, none, some}

-- `invalid_value` stands without its message.
pub data DecodingError : Type 0 where
  not_enough_bytes : (minimum actual : ℕ) → DecodingError
  too_many_bytes : DecodingError
  invalid_packet_type : ℕ → DecodingError
  invalid_value : DecodingError
  invalid_remaining_length : DecodingError
  header_contains_invalid_flags : DecodingError
  other : DecodingError

pub data Result {ℓ} (A : Type ℓ) : Type ℓ where
  panic : Result A
  err : DecodingError → Result A
  ok : A → Result A

infixl 5 ◌>>=◌ ◌>>◌
abbrev pub ◌>>=◌ {ℓ κ} : {A : Type ℓ} {B : Type κ} → Result A → (A → Result B) → Result B
panic >>= next = panic
err e >>= next = err e
ok value >>= next = next value

abbrev pub ◌>>◌ {ℓ κ} : {A : Type ℓ} {B : Type κ} → Result A → Result B → Result B
first >> second = first >>= λ _. second

-- `if bad { return Err(e) }`
abbrev pub fail_if : Bool → DecodingError → Result (Unit {0})
fail_if true e = err e
fail_if false e = ok tt

-- `assert!(good)`
abbrev pub assert : Bool → Result (Unit {0})
assert true = ok tt
assert false = panic

-- `Option::ok_or`
abbrev pub ok_or {ℓ} : {A : Type ℓ} → Option A → DecodingError → Result A
ok_or none e = err e
ok_or (some a) e = ok a

-- `Result::unwrap` and `Result::expect`
abbrev pub unwrap {ℓ} : {A : Type ℓ} → Result A → Result A
unwrap (ok a) = ok a
unwrap (err e) = panic
unwrap panic = panic

-- `Result::map_err` with a constant function
abbrev pub or_err {ℓ} : {A : Type ℓ} → Result A → DecodingError → Result A
or_err (ok a) e = ok a
or_err (err _) e = err e
or_err panic e = panic

module _ {ℓ κ} {A : Type ℓ} {B : Type κ} where
  -- What a chain that succeeds has gone through.
  pub >>=-eq-ok :
      (first : Result A) (next : A → Result B) {y : B}
      → (first >>= next) ≡ ok y
      → (x : A) × (first ≡ ok x) × (next x ≡ ok y)
  >>=-eq-ok panic next e = cc
  >>=-eq-ok (err error) next e = cc
  >>=-eq-ok (ok x) next e = (x, refl, e)

pub data Outcome {ℓ} {A : Type ℓ} (r : Result A) : Type ℓ where
  is_ok : (a : A) → r ≡ ok a → Outcome r
  is_err : (e : DecodingError) → r ≡ err e → Outcome r
  is_panic : r ≡ panic → Outcome r

-- To split on a result and keep the equation.
pub outcome {ℓ} : {A : Type ℓ} (r : Result A) → Outcome r
outcome (ok a) = is_ok a refl
outcome (err e) = is_err e refl
outcome panic = is_panic refl

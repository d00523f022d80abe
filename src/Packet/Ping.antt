-- ===== src/Packet/Ping.antt =====
-- src/packet/ping_req.rs, ping_resp.rs and disconnect.rs: packets of two constant bytes.
use tjiftjaf.Prelude.{
  ◌*◌, ◌≡◌, refl, arith, [], ◌∷◌, ltb, if◌then◌else◌, length, Bool-cases, inl, inr,
}
use tjiftjaf.Result.{Result, ok, err, not_enough_bytes, too_many_bytes, other}
use tjiftjaf.Rust.{Bytes, bytes_eq}
use tjiftjaf.Rust.Slices.{bytes_eq_iff}
use tjiftjaf.Frame.{Frame}

pub data PingReq : Type 0 where
  ping_req : PingReq

pub data PingResp : Type 0 where
  ping_resp : PingResp

pub data Disconnect : Type 0 where
  disconnect : Disconnect

-- `PINGREQ`, `PINGRESP` and `DISCONNECT`
abbrev pub pingreq_bytes : Bytes
pingreq_bytes = 12 * 16 ∷ 0 ∷ []

abbrev pub pingresp_bytes : Bytes
pingresp_bytes = 13 * 16 ∷ 0 ∷ []

abbrev pub disconnect_bytes : Bytes
disconnect_bytes = 14 * 16 ∷ 0 ∷ []

instance abbrev pub ping_req_frame : Frame PingReq
ping_req_frame = record { as_bytes = λ _. pingreq_bytes; variable_header = λ _. ok [] }

instance abbrev pub ping_resp_frame : Frame PingResp
ping_resp_frame = record { as_bytes = λ _. pingresp_bytes; variable_header = λ _. ok [] }

instance abbrev pub disconnect_frame : Frame Disconnect
disconnect_frame = record { as_bytes = λ _. disconnect_bytes; variable_header = λ _. ok [] }

-- The body that the three `try_from` share, for a packet `p` with the constant `expected`.
unfoldable pub try_from_constant {ℓ} : {A : Type ℓ} → A → Bytes → Bytes → Result A
try_from_constant p expected value =
    if bytes_eq value expected
    then ok p
    else if ltb (length value) (length expected)
    then err (not_enough_bytes (length expected) (length value))
    else if ltb (length expected) (length value)
    then err too_many_bytes
    else err other

-- `PingReq::try_from`, `PingResp::try_from` and `Disconnect::try_from`
unfoldable pub ping_req_try_from : Bytes → Result PingReq
ping_req_try_from = try_from_constant ping_req pingreq_bytes

unfoldable pub ping_resp_try_from : Bytes → Result PingResp
ping_resp_try_from = try_from_constant ping_resp pingresp_bytes

unfoldable pub disconnect_try_from : Bytes → Result Disconnect
disconnect_try_from = try_from_constant disconnect disconnect_bytes

-- The three decoders accept their constant, and nothing else.
pub try_from_constant_refl :
    {A : Type 0} (p : A) (expected : Bytes) → try_from_constant p expected expected ≡ ok p
unfolding try_from_constant
try_from_constant_refl p expected = rw ((bytes_eq_iff expected expected).1 refl) refl

-- What the decoder of a constant packet accepts is the constant.
pub try_from_constant_eq :
    {A : Type 0} (p q : A) (expected value : Bytes)
    → try_from_constant p expected value ≡ ok q
    → value ≡ expected
unfolding try_from_constant
try_from_constant_eq p q expected value h = elim (Bool-cases (bytes_eq value expected)) [
  | inl e ↦ (bytes_eq_iff value expected).0 e
  | inr n ↦ ground (arith, n, h)
]

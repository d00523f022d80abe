-- ===== src/Packet/ConnAck/Codec.antt =====
-- CONNACK packets: which bytes are accepted, and what a builder makes of its settings.
use tjiftjaf.Prelude.{◌≤◌, ◌≡◌, ◌⊎◌, arith, [], ◌∷◌, ◌&&◌, if◌then◌else◌}
use tjiftjaf.Result.{Result, ok, err, panic, other}
use tjiftjaf.Rust.{Bytes}
use tjiftjaf.Packet.ConnAck
use tjiftjaf.Packet.ConnAck.{ConnAck, ConnAckBuilder}

-- The bytes 32, 2, s, c where c is a return code, and s is 0, or 1 with the return code 0.
abbrev pub IsConnAck : Bytes → Result ConnAck → Type 0
IsConnAck bytes (ok p) =
    (bytes ≡ ConnAck.as_bytes p)
    × (p.byte_0 ≡ 32)
    × (p.byte_1 ≡ 2)
    × (p.byte_3 ≤ 5)
    × ((p.byte_2 ≡ 0) ⊎ ((p.byte_2 ≡ 1) × (p.byte_3 ≡ 0)))
IsConnAck bytes (err e) = Unit
IsConnAck bytes panic = ⊥

-- On any bytes `ConnAck::try_from` returns an error, or a packet that holds these bytes, which
-- are 32, 2, s, c with c at most 5, and s 0, or s 1 and c 0. It never panics.
pub try_from-IsConnAck : (bytes : Bytes) → IsConnAck bytes (ConnAck.try_from bytes)
unfolding ConnAck.try_from ConnAck.return_code_try_from
try_from-IsConnAck (a ∷ b ∷ c ∷ d ∷ []) = ground arith
try_from-IsConnAck (a ∷ b ∷ c ∷ d ∷ x ∷ rest) = ground arith
try_from-IsConnAck _ = tt

-- A built packet shows the settings of its builder.
pub build_getters :
    (b : ConnAckBuilder)
    → (ConnAck.session_present (ConnAck.build b) ≡ b.session_present)
      × (ConnAck.return_code (ConnAck.build b) ≡ ok b.return_code)
unfolding ConnAck.build ConnAck.return_code ConnAck.return_code_try_from
build_getters b = (ground arith, ground arith)

-- The packet of any builder decodes to itself, except that one with a session and a refusal is refused.
pub try_from-build :
    (b : ConnAckBuilder)
    → ConnAck.try_from (ConnAck.as_bytes (ConnAck.build b)) ≡ (
        if b.session_present && ConnAck.is_refused b.return_code
        then err other
        else ok (ConnAck.build b))
unfolding ConnAck.try_from ConnAck.build ConnAck.return_code_try_from
try_from-build b = ground arith

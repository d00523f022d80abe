-- ===== src/Packet/Publish/Flags.antt =====
-- The flags of PUBLISH in its first byte.
use tjiftjaf.Prelude.{ℕ, ◌+◌, ◌*◌, ◌≤◌, ◌≡◌, refl, arith, ◌∷◌, length, Bool, true, false}
use tjiftjaf.Result.{ok}
use tjiftjaf.Rust.{Bytes}
use tjiftjaf.Kinds.{
  QoS, qos_code, at_most_once_delivery, at_least_once_delivery, exactly_once_delivery,
  packet_type_try_from, publish, qos_try_from,
}
use tjiftjaf.Frame.{try_header}
use tjiftjaf.Frame.Layout.{max_body, frame, try_header-fixed_header}
use tjiftjaf.Packet.Publish
use tjiftjaf.Packet.Publish.{UnverifiedPublish, first_byte}

abbrev bit : Bool → ℕ
bit true = 1
bit false = 0

-- The bits of the first byte: 0 RETAIN, 1 and 2 QoS, 3 DUP, 4 to 7 the type.
pub first_byte_lem :
    (retain : Bool) (qos : QoS) (duplicate : Bool)
    → first_byte retain qos duplicate ≡ 48 + 8 * bit duplicate + 2 * qos_code qos + bit retain
unfolding first_byte
first_byte_lem true at_most_once_delivery true = refl
first_byte_lem true at_most_once_delivery false = refl
first_byte_lem true at_least_once_delivery true = refl
first_byte_lem true at_least_once_delivery false = refl
first_byte_lem true exactly_once_delivery true = refl
first_byte_lem true exactly_once_delivery false = refl
first_byte_lem false at_most_once_delivery true = refl
first_byte_lem false at_most_once_delivery false = refl
first_byte_lem false at_least_once_delivery true = refl
first_byte_lem false at_least_once_delivery false = refl
first_byte_lem false exactly_once_delivery true = refl
first_byte_lem false exactly_once_delivery false = refl

module _ (retain : Bool) (qos : QoS) (duplicate : Bool) (body : Bytes)
    (fits : length body ≤ max_body) where
  abbrev framed : UnverifiedPublish
  framed = record { inner = frame (first_byte retain qos duplicate) body }

  header-framed :
      try_header framed.inner
      ≡ ok (first_byte retain qos duplicate ∷ tjiftjaf.Encode.Remaining.remaining (length body))
  header-framed = try_header-fixed_header _ (length body) body fits

  pub try_qos-frame : Publish.try_qos framed ≡ ok qos
  unfolding Publish.try_qos qos_try_from
  try_qos-frame = rw header-framed (rw (first_byte_lem retain qos duplicate) (ground arith))

  pub try_retain-frame : Publish.try_retain framed ≡ ok retain
  unfolding Publish.try_retain
  try_retain-frame = rw header-framed (rw (first_byte_lem retain qos duplicate) (ground arith))

  pub try_duplicate-frame : Publish.try_duplicate framed ≡ ok duplicate
  unfolding Publish.try_duplicate
  try_duplicate-frame = rw header-framed (rw (first_byte_lem retain qos duplicate) (ground arith))

pub packet_type_try_from-first_byte :
    (retain : Bool) (qos : QoS) (duplicate : Bool)
    → packet_type_try_from (first_byte retain qos duplicate) ≡ ok publish
unfolding packet_type_try_from
packet_type_try_from-first_byte retain qos duplicate =
    rw (first_byte_lem retain qos duplicate) (ground arith)

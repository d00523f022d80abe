-- ===== src/Packet/Connect/Consistent.antt =====
-- The flags of a CONNECT builder say which of its fields are set, whatever setters are called.
use Prim.Native.Nat.{bit_or}
use tjiftjaf.Prelude.{
  ℕ, ◌+◌, ◌*◌, ◌/◌, ◌%◌, ◌<◌, ◌≡◌, refl, ap, arith, Bool, true, if◌then◌else◌, ◌==◌, ==-eq,
}
use tjiftjaf.Prelude.Bits.{check_below, check_below_lem}
use tjiftjaf.Result.{ok}
use tjiftjaf.Rust.{Bytes}
use tjiftjaf.Kinds.{
  QoS, qos_code, qos_try_from, at_most_once_delivery, at_least_once_delivery, exactly_once_delivery,
}
use tjiftjaf.Packet.ConnectFlags
use tjiftjaf.Packet.Connect.Build
use tjiftjaf.Packet.Connect.Build.{Builder}
use tjiftjaf.Packet.Connect.Fields.{is_some}

-- The builder's flags agree with its fields; `qos` is the QoS of the will.
pub record Consistent (b : Builder) (qos : QoS) : Type 0 where
  pub byte : b.flags.bits < 256
  pub reserved : b.flags.bits % 2 ≡ 0
  pub will_shown : ConnectFlags.will_flag b.flags ≡ is_some b.will_topic
  pub will_paired : is_some b.will_message ≡ is_some b.will_topic
  pub username_shown : ConnectFlags.username b.flags ≡ is_some b.username
  pub password_shown : ConnectFlags.password b.flags ≡ is_some b.password
  pub qos_shown : ConnectFlags.will_qos b.flags ≡ ok qos

pub new-Consistent : Consistent Build.new at_most_once_delivery
unfolding ConnectFlags.will_qos qos_try_from
new-Consistent = record {
  byte = omega arith;
  reserved = refl;
  will_shown = refl;
  will_paired = refl;
  username_shown = refl;
  password_shown = refl;
  qos_shown = refl;
}

module _ {b : Builder} {qos : QoS} (c : Consistent b qos) where
  pub set_client_id-Consistent : (id : Bytes) → Consistent (Build.set_client_id b id) qos
  set_client_id-Consistent id = record {
    byte = c.byte;
    reserved = c.reserved;
    will_shown = c.will_shown;
    will_paired = c.will_paired;
    username_shown = c.username_shown;
    password_shown = c.password_shown;
    qos_shown = c.qos_shown;
  }

  pub set_username-Consistent : (u : Bytes) → Consistent (Build.set_username b u) qos
  unfolding ConnectFlags.will_qos
  set_username-Consistent u = record {
    byte = ground (arith, c.byte);
    reserved = ground (arith, c.reserved);
    will_shown = ground (arith, c.will_shown);
    will_paired = c.will_paired;
    username_shown = ground (arith, c.username_shown);
    password_shown = ground (arith, c.password_shown);
    qos_shown = ground (arith, c.qos_shown);
  }

  pub set_will-Consistent : (t m : Bytes) → Consistent (Build.set_will b t m) qos
  unfolding ConnectFlags.will_qos
  set_will-Consistent t m = record {
    byte = ground (arith, c.byte);
    reserved = ground (arith, c.reserved);
    will_shown = ground (arith, c.will_shown);
    will_paired = refl;
    username_shown = ground (arith, c.username_shown);
    password_shown = ground (arith, c.password_shown);
    qos_shown = ground (arith, c.qos_shown);
  }

  -- `Builder::password` keeps the flags of a consistent builder in step with its fields.
  pub set_password-Consistent : (w : Bytes) → Consistent (Build.set_password b w) qos
  unfolding ConnectFlags.will_qos
  set_password-Consistent w = record {
    byte = ground (arith, c.byte);
    reserved = ground (arith, c.reserved);
    will_shown = ground (arith, c.will_shown);
    will_paired = c.will_paired;
    username_shown = ground (arith, c.username_shown);
    password_shown = ground (arith, c.password_shown);
    qos_shown = ground (arith, c.qos_shown);
  }

  pub set_clean_session-Consistent : Consistent (Build.set_clean_session b) qos
  unfolding ConnectFlags.will_qos
  set_clean_session-Consistent = record {
    byte = ground (arith, c.byte);
    reserved = ground (arith, c.reserved);
    will_shown = ground (arith, c.will_shown);
    will_paired = c.will_paired;
    username_shown = ground (arith, c.username_shown);
    password_shown = ground (arith, c.password_shown);
    qos_shown = ground (arith, c.qos_shown);
  }

  pub retain_will-Consistent : Consistent (Build.retain_will b) qos
  unfolding ConnectFlags.will_qos
  retain_will-Consistent = record {
    byte = ground (arith, c.byte);
    reserved = ground (arith, c.reserved);
    will_shown = ground (arith, c.will_shown);
    will_paired = c.will_paired;
    username_shown = ground (arith, c.username_shown);
    password_shown = ground (arith, c.password_shown);
    qos_shown = ground (arith, c.qos_shown);
  }

-- `|=` of a QoS on flags without one is an addition.
qos_bits_free : ℕ → ℕ → Bool
qos_bits_free q bits = if bits / 8 % 4 == 0 then bit_or bits (q * 8) == bits + q * 8 else true

qos_bits_table : (q : QoS) → check_below 256 (qos_bits_free (qos_code q)) ≡ true
unfolding check_below qos_bits_free
qos_bits_table at_most_once_delivery = refl
qos_bits_table at_least_once_delivery = refl
qos_bits_table exactly_once_delivery = refl

or_qos :
    (q : QoS) (bits : ℕ)
    → bits < 256
    → bits / 8 % 4 ≡ 0
    → bit_or bits (qos_code q * 8) ≡ bits + qos_code q * 8
unfolding qos_bits_free
or_qos q bits h e =
    ==-eq _ _ (rw (ap (λ (n : ℕ). n == 0) e) at (check_below_lem 256 _ bits (qos_bits_table q) h))

-- `Builder::will_qos`, on a consistent builder whose will has QoS 0, gives a consistent builder
-- whose will has the new QoS.
pub set_will_qos-Consistent :
    {b : Builder} (qos : QoS)
    → Consistent b at_most_once_delivery
    → Consistent (Build.set_will_qos b qos) qos
unfolding ConnectFlags.set_will_qos ConnectFlags.will_qos qos_try_from
set_will_qos-Consistent {b} qos c =
    let free : b.flags.bits / 8 % 4 ≡ 0 = ground (arith, c.qos_shown) in
    let sum = or_qos qos b.flags.bits c.byte free in
    record {
      byte = ground (arith, c.byte, sum);
      reserved = ground (arith, c.reserved, sum);
      will_shown = ground (arith, c.will_shown, sum);
      will_paired = c.will_paired;
      username_shown = ground (arith, c.username_shown, sum);
      password_shown = ground (arith, c.password_shown, sum);
      qos_shown = ground (arith, sum);
    }

-- ===== src/Packet/ConnectFlags.antt =====
-- src/packet/connect.rs: the connect flags, a byte.
use Prim.Native.Nat.{bit_or}
use tjiftjaf.Prelude.{ℕ, ◌*◌, ◌/◌, ◌%◌, Bool}
use tjiftjaf.Prelude.Bits.{has_bit, set_bit}
use tjiftjaf.Result.{Result, unwrap, ok_or, other}
use tjiftjaf.Kinds.{QoS, qos_code, qos_try_from}

pub record Flags : Type 0 where
  pub bits : ℕ

abbrev pub username : Flags → Bool
username f = has_bit 128 f.bits

abbrev pub set_username : Flags → Flags
set_username f = record { bits = set_bit 128 f.bits }

abbrev pub password : Flags → Bool
password f = has_bit 64 f.bits

abbrev pub set_password : Flags → Flags
set_password f = record { bits = set_bit 64 f.bits }

abbrev pub will_retain : Flags → Bool
will_retain f = has_bit 32 f.bits

abbrev pub set_will_retain : Flags → Flags
set_will_retain f = record { bits = set_bit 32 f.bits }

-- `(self.0 & 24) >> 3`, and `unwrap` of what is no QoS.
unfoldable pub will_qos : Flags → Result QoS
will_qos f = unwrap (ok_or (qos_try_from (f.bits / 8 % 4)) other)

unfoldable pub set_will_qos : Flags → QoS → Flags
set_will_qos f qos = record { bits = bit_or f.bits (qos_code qos * 8) }

abbrev pub will_flag : Flags → Bool
will_flag f = has_bit 4 f.bits

abbrev pub set_will_flag : Flags → Flags
set_will_flag f = record { bits = set_bit 4 f.bits }

abbrev pub clean_session : Flags → Bool
clean_session f = has_bit 2 f.bits

abbrev pub set_clean_session : Flags → Flags
set_clean_session f = record { bits = set_bit 2 f.bits }

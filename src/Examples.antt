-- ===== src/Examples.antt =====
-- Theorems of the other modules at concrete packets: a PUBACK, and a name that they share.
mod Packets
mod Fields
mod Client
mod Server
mod Loop
mod Session
mod Verified
mod Tasks
use tjiftjaf.Prelude.{refl, [], ◌∷◌}
use tjiftjaf.Rust.{Bytes}
use tjiftjaf.Rust.Utf8.{IsStr, is_utf8}
use tjiftjaf.Packet
use tjiftjaf.Packet.{Packet}

-- PUBACK 7, decoded.
abbrev pub puback_bytes : Bytes
puback_bytes = 64 ∷ 2 ∷ 0 ∷ 7 ∷ []

abbrev pub puback : Packet
puback = Packet.pub_ack (record { byte_0 = 64; byte_1 = 2; byte_2 = 0; byte_3 = 7 })

-- A topic and a name.
abbrev pub ab : Bytes
ab = 97 ∷ 98 ∷ []

pub ab-IsStr : IsStr ab
unfolding is_utf8
ab-IsStr = refl

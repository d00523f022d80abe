-- ===== src/Packet/Connect/Build.antt =====
-- src/packet/connect.rs: the builder of CONNECT. The markers `WithAuth` and `WithWill` are
-- left out: `password`, `will_qos` and `retain_will` stand in `impl` blocks whose type
-- parameters merely bear their names, so every builder has these methods.
use tjiftjaf.Prelude.{ℕ, ◌+◌, ◌*◌, [], ◌∷◌, ◌++◌, if◌then◌else◌, length, Option, none, some}
use tjiftjaf.Result.{Result, ◌>>=◌, unwrap}
use tjiftjaf.Rust.{Bytes, to_be_bytes}
use tjiftjaf.Encode
use tjiftjaf.Encode.{remaining_length}
use tjiftjaf.Kinds.{connect, packet_type_code, QoS, protocol_level_3_1_1}
use tjiftjaf.Packet.Connect.{Connect, verify, is_empty}
use tjiftjaf.Packet.ConnectFlags
use tjiftjaf.Packet.ConnectFlags.{Flags}

pub record Builder : Type 0 where
  pub client_id : Bytes
  pub keep_alive : ℕ
  pub will_topic : Option Bytes
  pub will_message : Option Bytes
  pub username : Option Bytes
  pub password : Option Bytes
  pub flags : Flags

-- `Builder::new`
abbrev pub new : Builder
new = record {
  client_id = [];
  keep_alive = 0;
  will_topic = none;
  will_message = none;
  username = none;
  password = none;
  flags = record { bits = 0 };
}

abbrev pub set_client_id : Builder → Bytes → Builder
set_client_id b client_id = record b { client_id = client_id }

abbrev pub set_keep_alive : Builder → ℕ → Builder
set_keep_alive b interval = record b { keep_alive = interval }

-- `Builder::username`
abbrev pub set_username : Builder → Bytes → Builder
set_username b username = record b {
  username = some username;
  flags = ConnectFlags.set_username b.flags;
}

-- `Builder::will`
abbrev pub set_will : Builder → Bytes → Bytes → Builder
set_will b topic message = record b {
  will_topic = some topic;
  will_message = some message;
  flags = ConnectFlags.set_will_flag b.flags;
}

-- `Builder::clean_session`
abbrev pub set_clean_session : Builder → Builder
set_clean_session b = record b { flags = ConnectFlags.set_clean_session b.flags }

-- `Builder::password`
abbrev pub set_password : Builder → Bytes → Builder
set_password b password = record b {
  password = some password;
  flags = ConnectFlags.set_password b.flags;
}

-- `Builder::will_qos`
abbrev pub set_will_qos : Builder → QoS → Builder
set_will_qos b qos = record b { flags = ConnectFlags.set_will_qos b.flags qos }

-- `Builder::retain_will`
abbrev pub retain_will : Builder → Builder
retain_will b = record b { flags = ConnectFlags.set_will_retain b.flags }

-- The flags that `build` writes.
abbrev pub built_flags : Builder → Flags
built_flags b = if is_empty b.client_id then ConnectFlags.set_clean_session b.flags else b.flags

-- The variable header that `build` writes.
abbrev pub variable_header_of : Builder → Bytes
variable_header_of b =
    0
    ∷ 4
    ∷ 77
    ∷ 81
    ∷ 84
    ∷ 84
    ∷ protocol_level_3_1_1
    ∷ (built_flags b).bits
    ∷ to_be_bytes b.keep_alive

-- `if let Some(field) = field { payload.append(&mut encode(field)) }`
abbrev pub optional : (Bytes → Bytes) → Option Bytes → Bytes
optional encode none = []
optional encode (some field) = encode field

abbrev pub credentials_of : Option Bytes → Option Bytes → Bytes
credentials_of none password = []
credentials_of (some username) password = Encode.utf8 username ++ optional Encode.bytes password

-- The payload that `build` writes.
abbrev pub payload_of : Builder → Bytes
payload_of b =
    Encode.utf8 b.client_id
    ++ (optional Encode.utf8 b.will_topic
        ++ (optional Encode.bytes b.will_message ++ credentials_of b.username b.password))

-- `Builder::build`
unfoldable pub build : Builder → Result Connect
build b = do
  let variable_header = variable_header_of b
  let payload = payload_of b
  remaining ← remaining_length (length variable_header + length payload)
  let packet = (packet_type_code connect * 16) ∷ (remaining ++ (variable_header ++ payload))
  unwrap (verify (record { inner = packet }))

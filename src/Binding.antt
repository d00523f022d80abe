-- ===== src/Binding.antt =====
-- src/lib.rs: `MqttBinding`, the state of a client without its I/O. An instant is a number of
-- nanoseconds, and each method returns the changed binding with its result.
pub mod Rounds
pub mod Receive
pub mod Long
pub mod Timeout
pub mod Keeps
pub mod Handshake
pub mod Poll
pub mod Decoded
use tjiftjaf.Prelude.{
  ℕ, zero, suc, ◌+◌, ◌-◌, ◌*◌, ◌/◌, ◌%◌, ◌^◌, ltb, leb, ◌==◌, if◌then◌else◌, Bool, true, false,
  List, [], ◌∷◌, ◌++◌, Option, none, some, ◌⊎◌, inl, inr, length, take, drop,
}
use tjiftjaf.Result.{Result, ok, err, panic, ◌>>=◌, unwrap, not_enough_bytes}
use tjiftjaf.Rust.{Bytes, slice_from, sub_checked}
use tjiftjaf.Decode.{packet_length}
use tjiftjaf.Kinds.{PacketType, packet_type_eq}
use tjiftjaf.Packet
use tjiftjaf.Packet.{Packet}
use tjiftjaf.Packet.Connect
use tjiftjaf.Packet.Connect.{Connect}
use tjiftjaf.Packet.Ping

pub data State : Type 0 where
  start_of_header : State
  end_of_header : (partial_header : Bytes) → State
  rest_of_packet : (header : Bytes) (bytes_remaining : ℕ) → State

pub data ConnectionStatus : Type 0 where
  not_connected connecting connected disconnected : ConnectionStatus

pub data ClientDisconnected : Type 0 where
  client_disconnected : ClientDisconnected

pub record Statistics : Type 0 where
  pub bytes_read : ℕ
  pub bytes_sent : ℕ
  pub packets_read : ℕ
  pub packets_sent : ℕ

-- `Statistics::record_inbound_packet` and `Statistics::record_outbound_packet`
unfoldable pub record_inbound_packet : Statistics → Packet → Result Statistics
record_inbound_packet s packet = do
  n ← Packet.length packet
  ok (record s { bytes_read = s.bytes_read + n; packets_read = s.packets_read + 1 })

unfoldable pub record_outbound_packet : Statistics → Packet → Result Statistics
record_outbound_packet s packet = do
  n ← Packet.length packet
  ok (record s { bytes_sent = s.bytes_sent + n; packets_sent = s.packets_sent + 1 })

-- `transmits` is a `Vec`: `push` appends to it.
pub record MqttBinding : Type 0 where
  pub connection_status : ConnectionStatus
  pub state : State
  pub transmits : List Packet
  pub statistics : Statistics
  pub last_io : ℕ
  pub connect : Connect

-- `MqttBinding::from_connect`, at the instant `now`
unfoldable pub from_connect : Connect → (now : ℕ) → MqttBinding
from_connect connect now = record {
  connection_status = not_connected;
  state = start_of_header;
  transmits = [];
  statistics = record { bytes_read = 0; bytes_sent = 0; packets_read = 0; packets_sent = 0 };
  last_io = now;
  connect = connect;
}

-- `MqttBinding::send`
unfoldable pub send : MqttBinding → Packet → MqttBinding
send b packet = record b { transmits = b.transmits ++ (packet ∷ []) }

-- `Duration::as_secs`, and the other way
abbrev pub as_secs : ℕ → ℕ
as_secs nanos = nanos / 1000000000

abbrev pub from_secs : ℕ → ℕ
from_secs secs = secs * 1000000000

-- `MqttBinding::handle_timeout`; `now - last_io` is 0 for an earlier `now`, as in Rust.
unfoldable pub handle_timeout : MqttBinding → (now : ℕ) → Result MqttBinding
handle_timeout b now = do
  keep_alive ← Connect.keep_alive b.connect
  let pinged = record b { transmits = b.transmits ++ (Packet.ping_req Ping.ping_req ∷ []) }
  ok (if leb keep_alive (as_secs (now - b.last_io)) then pinged else b)

-- `MqttBinding::poll_timeout`
unfoldable pub poll_timeout : MqttBinding → Result ℕ
poll_timeout b = do
  keep_alive ← Connect.keep_alive b.connect
  let interval = if keep_alive == 0 then 86400 * 365 * 30 else keep_alive
  ok (b.last_io + from_secs interval)

-- `vec![0; n]`
abbrev pub zeros : ℕ → Bytes
zeros zero = []
zeros (suc n) = 0 ∷ zeros n

-- `MqttBinding::get_read_buffer`
abbrev pub buffer_in : State → Bytes
buffer_in start_of_header = zeros 2
buffer_in (end_of_header partial_header) = zeros 2
buffer_in (rest_of_packet header bytes_remaining) = zeros bytes_remaining

unfoldable pub get_read_buffer : MqttBinding → Bytes
get_read_buffer b = buffer_in b.state

-- `Vec::pop`
abbrev pub pop {ℓ} : {A : Type ℓ} → List A → Option (List A × A)
pop [] = none
pop (x ∷ xs) = elim (pop xs) [ none ↦ some ([], x) | some (rest, last) ↦ some (x ∷ rest, last) ]

abbrev pub is_disconnect : Packet → Bool
is_disconnect (Packet.disconnect _) = true
is_disconnect _ = false

-- The end of `poll_transmits`, on what `self.transmits.pop()` returned.
unfoldable pub transmit :
    MqttBinding
    → ℕ
    → Option (List Packet × Packet)
    → Result (MqttBinding × (ClientDisconnected ⊎ Option Bytes))
transmit b now none = ok (b, inr none)
transmit b now (some (rest, packet)) = do
  statistics ← record_outbound_packet b.statistics packet
  ok (
    record b {
      connection_status = if is_disconnect packet then disconnected else b.connection_status;
      transmits = rest;
      last_io = now;
      statistics = statistics;
    },
    inr (some (Packet.into_bytes packet)),
  )

-- The branch of `poll_transmits` that opens the connection.
unfoldable pub transmit_connect :
    MqttBinding → ℕ → Result (MqttBinding × (ClientDisconnected ⊎ Option Bytes))
transmit_connect b now = do
  let packet = Packet.connect b.connect
  statistics ← record_outbound_packet b.statistics packet
  ok (
    record b { connection_status = connecting; last_io = now; statistics = statistics },
    inr (some (Packet.into_bytes packet)),
  )

-- The tests of `poll_transmits`, and `MqttBinding::poll_transmits` itself
unfoldable pub transmit_in :
    MqttBinding → ℕ → ConnectionStatus → Result (MqttBinding × (ClientDisconnected ⊎ Option Bytes))
transmit_in b now disconnected = ok (b, inl client_disconnected)
transmit_in b now not_connected = transmit_connect b now
transmit_in b now connecting = ok (b, inr none)
transmit_in b now connected = transmit b now (pop b.transmits)

unfoldable pub poll_transmits :
    MqttBinding → (now : ℕ) → Result (MqttBinding × (ClientDisconnected ⊎ Option Bytes))
poll_transmits b now = transmit_in b now b.connection_status

-- `buf.len() as u32`
abbrev pub len_u32 : Bytes → ℕ
len_u32 buf = length buf % 2 ^ 32

-- `try_decode` at the start of a header: a packet of two bytes is complete.
unfoldable pub two_byte_packet : MqttBinding → Result Packet → Result (MqttBinding × Option Packet)
two_byte_packet b (ok packet) = ok (b, some packet)
two_byte_packet b (err _) = ok (b, none)
two_byte_packet b panic = panic

unfoldable pub decode_start : MqttBinding → Bytes → Result ℕ → Result (MqttBinding × Option Packet)
decode_start b buf (ok packet_length) = do
  bytes_remaining ← sub_checked packet_length (len_u32 buf)
  let complete = two_byte_packet b (Packet.try_from buf)
  if bytes_remaining == 0
      then complete
      else ok (record b { state = rest_of_packet buf bytes_remaining }, none)
decode_start b buf (err (not_enough_bytes _ _)) = ok (record b { state = end_of_header buf }, none)
decode_start b buf (err _) = ok (b, none)
decode_start b buf panic = panic

-- ... at the end of a header,
unfoldable pub decode_end : MqttBinding → Bytes → Result ℕ → Result (MqttBinding × Option Packet)
decode_end b header (ok packet_length) = do
  bytes_remaining ← sub_checked packet_length (len_u32 header)
  ok (record b { state = rest_of_packet header bytes_remaining }, none)
decode_end b header (err _) = ok (b, none)
decode_end b header panic = panic

-- ... and behind it.
unfoldable pub decode_frame : MqttBinding → Bytes → Result (MqttBinding × Option Packet)
decode_frame b frame = do
  packet ← unwrap (Packet.try_from frame)
  t ← Packet.packet_type packet
  statistics ← record_inbound_packet b.statistics packet
  ok (
    record b {
      connection_status =
          if packet_type_eq t PacketType.conn_ack then connected else b.connection_status;
      state = start_of_header;
      statistics = statistics;
    },
    some packet,
  )

unfoldable pub decode_rest : MqttBinding → Bytes → ℕ → Bytes → Result (MqttBinding × Option Packet)
decode_rest b header bytes_remaining buf =
    let whole = decode_frame b (header ++ buf) in
    if ltb (length buf) bytes_remaining
    then (sub_checked bytes_remaining (len_u32 buf) >>= λ remaining.
        ok (record b { state = rest_of_packet (header ++ buf) remaining }, none))
    else whole

-- The `match` of `try_decode`, and `MqttBinding::try_decode` itself
unfoldable pub decode_in : MqttBinding → Bytes → State → Result (MqttBinding × Option Packet)
decode_in b buf start_of_header = do
  rest ← slice_from buf 1
  decode_start b buf (packet_length rest)
decode_in b buf (end_of_header partial_header) = do
  rest ← slice_from (partial_header ++ buf) 1
  decode_end b (partial_header ++ buf) (packet_length rest)
decode_in b buf (rest_of_packet header bytes_remaining) = decode_rest b header bytes_remaining buf

unfoldable pub try_decode : MqttBinding → Bytes → Result (MqttBinding × Option Packet)
try_decode b buf = decode_in b buf b.state

-- The loop around a binding, as the client's and the test's: it fills the read buffer from
-- the bytes that arrive and decodes it, for a number of rounds or until there is a packet.
unfoldable pub receive :
    (rounds : ℕ) → MqttBinding → Bytes → Result (MqttBinding × Option Packet × Bytes)
receive zero b stream = ok (b, none, stream)
receive (suc rounds) b stream = do
  let size = length (get_read_buffer b)
  (b', packet) ← try_decode b (take size stream)
  let again = receive rounds b' (drop size stream)
  elim packet [ none ↦ again | some p ↦ ok (b', some p, drop size stream) ]

-- ===== src/Client/Loop/ShortRead.antt =====
-- src/aio/mod.rs: a packet of two bytes that arrives in two reads.
use tjiftjaf.Prelude.{ℕ, ◌≡◌, refl, ap, ◌∙◌, [], ◌∷◌, ◌<◌, arith, Option, none, Bool, length, take}
use tjiftjaf.Result.{ok, panic}
use tjiftjaf.Rust.{Bytes, slice_from}
use tjiftjaf.Decode.{packet_length}
use tjiftjaf.Packet.{Packet}
use tjiftjaf.Binding.{
  MqttBinding, State, start_of_header, end_of_header, rest_of_packet, get_read_buffer, buffer_in,
  try_decode, decode_in, decode_start, decode_end,
}
use tjiftjaf.Client.Loop.{Client, go_on, stop, packet_is_empty, read, on_event, on_read, on_decoded}

abbrev pub at_state : Client → State → Client
at_state c s = record c { binding = record c.binding { state = s } }

-- A read that brings no more than there is room for.
pub event-read :
    (c : Client) (t n : ℕ) (available bytes : Bytes) (handle_open : Bool)
    (r : MqttBinding × Option Packet)
    → length (get_read_buffer c.binding) ≡ n
    → take n available ≡ bytes
    → 0 < length bytes
    → try_decode c.binding bytes ≡ ok r
    → on_event c t (read available handle_open) ≡ on_decoded c handle_open r
unfolding on_event on_read
event-read c t n available bytes handle_open r size room pos decode =
    ap (λ (m : ℕ). on_read c (take m available) handle_open) size
    ∙ ap (λ (l : Bytes). on_read c l handle_open) room
    ∙ rw decode (ground (arith, pos))

pub buffer_start : (b : MqttBinding) → b.state ≡ start_of_header → length (get_read_buffer b) ≡ 2
unfolding get_read_buffer
buffer_start b st = ap (λ (s : State). length (buffer_in s)) st

decode_one :
    (b : MqttBinding) (first : ℕ)
    → b.state ≡ start_of_header
    → try_decode b (first ∷ []) ≡ ok (record b { state = end_of_header (first ∷ []) }, none)
unfolding try_decode decode_in decode_start slice_from packet_length
decode_one b first st = ap (decode_in b (first ∷ [])) st

first_byte :
    (c : Client) (first t : ℕ) (handle_open : Bool)
    → c.binding.state ≡ start_of_header
    → on_event c t (read (first ∷ []) handle_open)
      ≡ ok (at_state c (end_of_header (first ∷ [])), go_on)
first_byte c first t handle_open st =
    event-read c t 2 (first ∷ []) (first ∷ []) handle_open _ (buffer_start c.binding st) refl
      (omega arith) (decode_one c.binding first st)

-- A client that waits for a packet, and reads the first byte of a packet of two bytes alone,
-- then waits for no more bytes after the second: the next read stops it with `Packet is empty`,
-- whatever is there to be read. If a byte of the next packet comes with the second, it panics.
pub split_two_bytes :
    (c : Client) (first next t : ℕ) (more : Bytes) (handle_open : Bool)
    → c.binding.state ≡ start_of_header
    → (on_event c t (read (first ∷ []) handle_open)
        ≡ ok (at_state c (end_of_header (first ∷ [])), go_on))
      × (on_event (at_state c (end_of_header (first ∷ []))) t (read (0 ∷ []) handle_open)
          ≡ ok (at_state c (rest_of_packet (first ∷ 0 ∷ []) 0), go_on))
      × (on_event (at_state c (rest_of_packet (first ∷ 0 ∷ []) 0)) t (read more handle_open)
          ≡ ok (at_state c (rest_of_packet (first ∷ 0 ∷ []) 0), stop packet_is_empty))
      × (on_event (at_state c (end_of_header (first ∷ []))) t (read (0 ∷ next ∷ []) handle_open)
          ≡ panic)
unfolding on_event on_read get_read_buffer try_decode decode_in decode_start decode_end slice_from
    packet_length
split_two_bytes c first next t more handle_open st =
    (first_byte c first t handle_open st, refl, refl, refl)

-- ===== src/Binding/Decoded.antt =====
-- src/lib.rs: what decoding does to the status of a connection.
use tjiftjaf.Prelude.{
  ℕ, ◌≡◌, refl, sym, ap, ◌∙◌, ◌⊎◌, inl, inr, ◌++◌, Option, Bool-cases, ltb, length,
}
use tjiftjaf.Result.{>>=-eq-ok, unwrap, ok}
use tjiftjaf.Rust.{Bytes, slice_from, sub_checked}
use tjiftjaf.Decode.{packet_length}
use tjiftjaf.Kinds.{PacketType, packet_type_eq}
use tjiftjaf.Kinds.Codes.{packet_type_eq-eq}
use tjiftjaf.Packet
use tjiftjaf.Packet.{Packet}
use tjiftjaf.Binding.{
  MqttBinding, State, connected, try_decode, decode_in, decode_rest, decode_frame, start_of_header,
  end_of_header, rest_of_packet, record_inbound_packet, len_u32,
}
use tjiftjaf.Binding.Keeps.{IsConnAck, Reads, Reads-ok, of_ok, decode_start-Reads, decode_end-Reads}

-- A CONNACK was decoded, and the binding is connected.
pub record Greeted (b b' : MqttBinding) (o : Option Packet) : Type 0 where
  pub acknowledged : IsConnAck o
  pub status_is : b'.connection_status ≡ connected
  pub connect_is : b'.connect ≡ b.connect
  pub queue_is : b'.transmits ≡ b.transmits

abbrev pub Decoded : MqttBinding → MqttBinding → Option Packet → Type 0
Decoded b b' o = Reads b b' ⊎ Greeted b b' o

decode_frame-Decoded :
    (b b' : MqttBinding) (frame : Bytes) (o : Option Packet)
    → decode_frame b frame ≡ ok (b', o)
    → Decoded b b' o
unfolding decode_frame
decode_frame-Decoded b b' frame o e =
    let (p, ep, e1) = >>=-eq-ok (unwrap (Packet.try_from frame)) _ e in
    let (t, et, e2) = >>=-eq-ok (Packet.packet_type p) _ e1 in
    let (s, es, e3) = >>=-eq-ok (record_inbound_packet b.statistics p) _ e2 in
    elim (Bool-cases (packet_type_eq t PacketType.conn_ack)) [
      | inl h ↦
          let (same, result) = of_ok _ b' _ o (rw h at e3) in
          inr (record {
            acknowledged = (p, sym result, et ∙ ap ok (packet_type_eq-eq t PacketType.conn_ack h));
            status_is = sym (ap (λ (m : MqttBinding). m.connection_status) same);
            connect_is = sym (ap (λ (m : MqttBinding). m.connect) same);
            queue_is = sym (ap (λ (m : MqttBinding). m.transmits) same);
          })
      | inr h ↦ inl (
          Reads-ok b _ b' _ o (record { status_is = refl; connect_is = refl; queue_is = refl })
            (rw h at e3))
    ]

decode_rest-Decoded :
    (b b' : MqttBinding) (header buf : Bytes) (n : ℕ) (o : Option Packet)
    → decode_rest b header n buf ≡ ok (b', o)
    → Decoded b b' o
unfolding decode_rest
decode_rest-Decoded b b' header buf n o e = elim (Bool-cases (ltb (length buf) n)) [
  | inl h ↦
      let (r, _, e1) = >>=-eq-ok (sub_checked n (len_u32 buf)) _ (rw h at e) in
      inl (Reads-ok b _ b' _ o (record { status_is = refl; connect_is = refl; queue_is = refl }) e1)
  | inr h ↦ decode_frame-Decoded b b' (header ++ buf) o (rw h at e)
]

decode_in-Decoded :
    (b b' : MqttBinding) (buf : Bytes) (o : Option Packet) (s : State)
    → decode_in b buf s ≡ ok (b', o)
    → Decoded b b' o
unfolding decode_in
decode_in-Decoded b b' buf o start_of_header e =
    let (r, _, e1) = >>=-eq-ok (slice_from buf 1) _ e in
    inl (decode_start-Reads b b' buf o (packet_length r) e1)
decode_in-Decoded b b' buf o (end_of_header h) e =
    let (r, _, e1) = >>=-eq-ok (slice_from (h ++ buf) 1) _ e in
    inl (decode_end-Reads b b' (h ++ buf) o (packet_length r) e1)
decode_in-Decoded b b' buf o (rest_of_packet h n) e = decode_rest-Decoded b b' h buf n o e

pub try_decode-Decoded :
    (b b' : MqttBinding) (buf : Bytes) (o : Option Packet)
    → try_decode b buf ≡ ok (b', o)
    → Decoded b b' o
unfolding try_decode
try_decode-Decoded b b' buf o e = decode_in-Decoded b b' buf o b.state e

-- Decoding leaves the queue as it was.
pub try_decode-transmits :
    (b b' : MqttBinding) (buf : Bytes) (o : Option Packet)
    → try_decode b buf ≡ ok (b', o)
    → b'.transmits ≡ b.transmits
try_decode-transmits b b' buf o e = elim (try_decode-Decoded b b' buf o e) [
  | inl r ↦ r.queue_is
  | inr g ↦ g.queue_is
]

pub try_decode-connect :
    (b b' : MqttBinding) (buf : Bytes) (o : Option Packet)
    → try_decode b buf ≡ ok (b', o)
    → b'.connect ≡ b.connect
try_decode-connect b b' buf o e = elim (try_decode-Decoded b b' buf o e) [
  | inl r ↦ r.connect_is
  | inr g ↦ g.connect_is
]

-- ===== src/Binding/Keeps.antt =====
-- src/lib.rs: calls of a binding that leave the status of its connection as it was.
use tjiftjaf.Prelude.{
  ℕ, ◌-◌, leb, ◌≡◌, refl, sym, ap, ◌∙◌, inl, inr, arith, ◌++◌, Option, none, some, Bool-cases, ltb,
  ◌==◌, length,
}
use tjiftjaf.Result.{
  Result, ok, err, panic, >>=-eq-ok, unwrap, not_enough_bytes, too_many_bytes, invalid_packet_type,
  invalid_value, invalid_remaining_length, header_contains_invalid_flags, other,
}
use tjiftjaf.Rust.{Bytes, slice_from, sub_checked}
use tjiftjaf.Decode.{packet_length}
use tjiftjaf.Kinds.{PacketType, packet_type_eq}
use tjiftjaf.Kinds.Codes.{packet_type_eq-eq}
use tjiftjaf.Packet
use tjiftjaf.Packet.{Packet}
use tjiftjaf.Packet.Connect
use tjiftjaf.Packet.Connect.{Connect}
use tjiftjaf.Binding.{
  MqttBinding, State, handle_timeout, try_decode, decode_in, decode_start, decode_end, decode_rest,
  decode_frame, two_byte_packet, start_of_header, end_of_header, rest_of_packet,
  record_inbound_packet, len_u32, as_secs,
}

-- A packet makes the binding connected when it is a CONNACK.
abbrev pub IsConnAck : Option Packet → Type 0
IsConnAck o = (p : Packet) × (o ≡ some p) × (Packet.packet_type p ≡ ok PacketType.conn_ack)

-- What a call that neither transmits nor decodes a CONNACK keeps.
pub record Keeps (b b' : MqttBinding) : Type 0 where
  pub status_is : b'.connection_status ≡ b.connection_status
  pub connect_is : b'.connect ≡ b.connect

pub Keeps-all : (b : MqttBinding) → Keeps b b
Keeps-all b = record { status_is = refl; connect_is = refl }

pub ok_inj : {A : Type 0} {a a' : A} → Result.ok a ≡ ok a' → a ≡ a'
ok_inj e = cc

pub of_ok :
    {A B : Type 0} (a a' : A) (b b' : B)
    → ◌≡◌ {A = Result (A × B)} (ok (a, b)) (ok (a', b'))
    → (a ≡ a') × (b ≡ b')
of_ok a a' b b' e = (ground (arith, e), ground (arith, e))

-- What decoding keeps, but for a CONNACK.
pub record Reads (b b' : MqttBinding) : Type 0 where
  pub status_is : b'.connection_status ≡ b.connection_status
  pub connect_is : b'.connect ≡ b.connect
  pub queue_is : b'.transmits ≡ b.transmits

pub Reads-all : (b : MqttBinding) → Reads b b
Reads-all b = record { status_is = refl; connect_is = refl; queue_is = refl }

pub Reads-ok :
    (b b1 b' : MqttBinding) (o1 o : Option Packet)
    → Reads b b1
    → ◌≡◌ {A = Result (MqttBinding × Option Packet)} (ok (b1, o1)) (ok (b', o))
    → Reads b b'
Reads-ok b b1 b' o1 o k e = rw (of_ok b1 b' o1 o e).0 at k

pub two_byte_packet-Reads :
    (b b' : MqttBinding) (o : Option Packet) (r : Result Packet)
    → two_byte_packet b r ≡ ok (b', o)
    → Reads b b'
unfolding two_byte_packet
two_byte_packet-Reads b b' o (ok p) e = record {
  status_is = ground arith;
  connect_is = ground arith;
  queue_is = ground arith;
}
two_byte_packet-Reads b b' o (err x) e = record {
  status_is = ground arith;
  connect_is = ground arith;
  queue_is = ground arith;
}
two_byte_packet-Reads b b' o panic e = cc

pub decode_start-Reads :
    (b b' : MqttBinding) (buf : Bytes) (o : Option Packet) (r : Result ℕ)
    → decode_start b buf r ≡ ok (b', o)
    → Reads b b'
unfolding decode_start
decode_start-Reads b b' buf o (ok n) e = elim (Bool-cases (ltb n (len_u32 buf))) [
  | inl h ↦ absurd (ground (arith, e))
  | inr h ↦ elim (Bool-cases (n - len_u32 buf == 0)) [
    | inl z ↦ two_byte_packet-Reads b b' o (Packet.try_from buf) (rw (h, z) at e)
    | inr z ↦
        Reads-ok b _ b' _ o (record { status_is = refl; connect_is = refl; queue_is = refl })
          (rw (h, z) at e)
  ]
]
decode_start-Reads b b' buf o (err (not_enough_bytes _ _)) e =
    Reads-ok b _ b' none o (record { status_is = refl; connect_is = refl; queue_is = refl }) e
decode_start-Reads b b' buf o (err too_many_bytes) e = Reads-ok b b b' none o (Reads-all b) e
decode_start-Reads b b' buf o (err (invalid_packet_type _)) e =
    Reads-ok b b b' none o (Reads-all b) e
decode_start-Reads b b' buf o (err invalid_value) e = Reads-ok b b b' none o (Reads-all b) e
decode_start-Reads b b' buf o (err invalid_remaining_length) e =
    Reads-ok b b b' none o (Reads-all b) e
decode_start-Reads b b' buf o (err header_contains_invalid_flags) e =
    Reads-ok b b b' none o (Reads-all b) e
decode_start-Reads b b' buf o (err other) e = Reads-ok b b b' none o (Reads-all b) e
decode_start-Reads b b' buf o panic e = cc

pub decode_end-Reads :
    (b b' : MqttBinding) (header : Bytes) (o : Option Packet) (r : Result ℕ)
    → decode_end b header r ≡ ok (b', o)
    → Reads b b'
unfolding decode_end
decode_end-Reads b b' header o (ok n) e = elim (Bool-cases (ltb n (len_u32 header))) [
  | inl h ↦ absurd (ground (arith, e))
  | inr h ↦
      Reads-ok b _ b' _ o (record { status_is = refl; connect_is = refl; queue_is = refl })
        (rw h at e)
]
decode_end-Reads b b' header o (err x) e = Reads-ok b b b' none o (Reads-all b) e
decode_end-Reads b b' header o panic e = cc

pub decode_frame-Reads :
    (b b' : MqttBinding) (frame : Bytes) (o : Option Packet)
    → decode_frame b frame ≡ ok (b', o)
    → (¬ IsConnAck o)
    → Reads b b'
unfolding decode_frame
decode_frame-Reads b b' frame o e n =
    let (p, ep, e1) = >>=-eq-ok (unwrap (Packet.try_from frame)) _ e in
    let (t, et, e2) = >>=-eq-ok (Packet.packet_type p) _ e1 in
    let (s, es, e3) = >>=-eq-ok (record_inbound_packet b.statistics p) _ e2 in
    elim (Bool-cases (packet_type_eq t PacketType.conn_ack)) [
      | inl h ↦
          absurd (
            n (
              p,
              sym (of_ok _ b' _ o e3).1,
              et ∙ ap ok (packet_type_eq-eq t PacketType.conn_ack h),
            ))
      | inr h ↦
          Reads-ok b _ b' _ o (record { status_is = refl; connect_is = refl; queue_is = refl })
            (rw h at e3)
    ]

pub decode_rest-Reads :
    (b b' : MqttBinding) (header buf : Bytes) (n : ℕ) (o : Option Packet)
    → decode_rest b header n buf ≡ ok (b', o)
    → (¬ IsConnAck o)
    → Reads b b'
unfolding decode_rest
decode_rest-Reads b b' header buf n o e quiet = elim (Bool-cases (ltb (length buf) n)) [
  | inl h ↦
      let (r, _, e1) = >>=-eq-ok (sub_checked n (len_u32 buf)) _ (rw h at e) in
      Reads-ok b _ b' _ o (record { status_is = refl; connect_is = refl; queue_is = refl }) e1
  | inr h ↦ decode_frame-Reads b b' (header ++ buf) o (rw h at e) quiet
]

pub decode_in-Reads :
    (b b' : MqttBinding) (buf : Bytes) (o : Option Packet) (s : State)
    → decode_in b buf s ≡ ok (b', o)
    → (¬ IsConnAck o)
    → Reads b b'
unfolding decode_in
decode_in-Reads b b' buf o start_of_header e quiet =
    let (r, _, e1) = >>=-eq-ok (slice_from buf 1) _ e in
    decode_start-Reads b b' buf o (packet_length r) e1
decode_in-Reads b b' buf o (end_of_header h) e quiet =
    let (r, _, e1) = >>=-eq-ok (slice_from (h ++ buf) 1) _ e in
    decode_end-Reads b b' (h ++ buf) o (packet_length r) e1
decode_in-Reads b b' buf o (rest_of_packet h n) e quiet = decode_rest-Reads b b' h buf n o e quiet

pub try_decode-Reads :
    (b b' : MqttBinding) (buf : Bytes) (o : Option Packet)
    → try_decode b buf ≡ ok (b', o)
    → (¬ IsConnAck o)
    → Reads b b'
unfolding try_decode
try_decode-Reads b b' buf o e quiet = decode_in-Reads b b' buf o b.state e quiet

pub try_decode-Keeps :
    (b b' : MqttBinding) (buf : Bytes) (o : Option Packet)
    → try_decode b buf ≡ ok (b', o)
    → (¬ IsConnAck o)
    → Keeps b b'
try_decode-Keeps b b' buf o e quiet =
    let r = try_decode-Reads b b' buf o e quiet in
    record { status_is = r.status_is; connect_is = r.connect_is }

pub handle_timeout-Keeps :
    (b b' : MqttBinding) (now : ℕ) → handle_timeout b now ≡ ok b' → Keeps b b'
unfolding handle_timeout
handle_timeout-Keeps b b' now e =
    let (k, _, e1) = >>=-eq-ok (Connect.keep_alive b.connect) _ e in
    elim (Bool-cases (leb k (as_secs (now - b.last_io)))) [
      | inl h ↦
          let same = ok_inj (rw h at e1) in
          record {
            status_is = sym (ap (λ (m : MqttBinding). m.connection_status) same);
            connect_is = sym (ap (λ (m : MqttBinding). m.connect) same);
          }
      | inr h ↦
          let same = ok_inj (rw h at e1) in
          record {
            status_is = sym (ap (λ (m : MqttBinding). m.connection_status) same);
            connect_is = sym (ap (λ (m : MqttBinding). m.connect) same);
          }
    ]

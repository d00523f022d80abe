-- ===== src/Client/Loop/Protocol.antt =====
-- src/aio/mod.rs: a session as the protocol describes it, and that `Client::run` keeps to it.
use mathlib.Core.Path.{subst}
use tjiftjaf.Prelude.{
  ◌≡◌, true, false, Bool-cases, ◌⊎◌, inl, inr, List, [], ◌∷◌, ◌++◌, if◌then◌else◌,
}
use tjiftjaf.Result.{ok}
use tjiftjaf.Rust.{Bytes}
use tjiftjaf.Kinds.{PacketType}
use tjiftjaf.Packet
use tjiftjaf.Packet.{Packet}
use tjiftjaf.Packet.Connect
use tjiftjaf.Packet.Connect.{Connect}
use tjiftjaf.Binding
use tjiftjaf.Binding.{ConnectionStatus, not_connected, connecting, connected, is_disconnect}

-- A client's session, as a relation of its own: the status of the connection, the bytes that
-- were written, and the packets that came back. CONNECT comes first, other packets are written
-- after a CONNACK came, and DISCONNECT is the last.
pub data Session (connect : Connect) : ConnectionStatus → List Bytes → List Packet → Type 0 where
  initial : Session connect not_connected [] []
  hello : Session connect connecting (Connect.into_bytes connect ∷ []) []
  welcome :
      {out : List Bytes} {back : List Packet} (p : Packet)
      → Packet.packet_type p ≡ ok PacketType.conn_ack
      → Session connect connecting out back
      → Session connect connected out (back ++ (p ∷ []))
  hears :
      {out : List Bytes} {back : List Packet} (p : Packet)
      → Session connect connecting out back
      → Session connect connecting out (back ++ (p ∷ []))
  listens :
      {out : List Bytes} {back : List Packet} (p : Packet)
      → Session connect connected out back
      → Session connect connected out (back ++ (p ∷ []))
  says :
      {out : List Bytes} {back : List Packet} (p : Packet)
      → is_disconnect p ≡ false
      → Session connect connected out back
      → Session connect connected (out ++ (Packet.into_bytes p ∷ [])) back
  bye :
      {out : List Bytes} {back : List Packet} (p : Packet)
      → is_disconnect p ≡ true
      → Session connect connected out back
      → Session connect Binding.disconnected (out ++ (Packet.into_bytes p ∷ [])) back

-- A status at which a client reads.
abbrev pub Live : ConnectionStatus → Type 0
Live status = (status ≡ connecting) ⊎ (status ≡ connected)

pub opens-Session :
    (c : Connect) (status : ConnectionStatus) (out : List Bytes) (back : List Packet)
    → Session c status out back
    → status ≡ not_connected
    → Session c connecting (out ++ (Connect.into_bytes c ∷ [])) back
opens-Session c _ _ _ initial h = hello
opens-Session c _ _ _ hello h = cc
opens-Session c _ _ _ (welcome p t s) h = cc
opens-Session c _ _ _ (hears p s) h = cc
opens-Session c _ _ _ (listens p s) h = cc
opens-Session c _ _ _ (says p d s) h = cc
opens-Session c _ _ _ (bye p d s) h = cc

pub sends-Session :
    (c : Connect) (status : ConnectionStatus) (out : List Bytes) (back : List Packet) (p : Packet)
    → Session c status out back
    → status ≡ connected
    → Session c
        (if is_disconnect p then Binding.disconnected else status)
        (out ++ (Packet.into_bytes p ∷ []))
        back
sends-Session c status out back p s st =
    let s' : Session c connected out back = subst (λ x. Session c x out back) st s in
    elim (Bool-cases (is_disconnect p)) [
      | inl d ↦ rw d (bye p d s')
      | inr d ↦ rw (d, st) (says p d s')
    ]

pub reads-Session :
    (c : Connect) (status : ConnectionStatus) (out : List Bytes) (back : List Packet) (p : Packet)
    → Session c status out back
    → Live status
    → Session c status out (back ++ (p ∷ []))
reads-Session c status out back p s (inl st) =
    rw st (hears p (subst (λ x. Session c x out back) st s))
reads-Session c status out back p s (inr st) =
    rw st (listens p (subst (λ x. Session c x out back) st s))

pub greets-Session :
    (c : Connect) (status : ConnectionStatus) (out : List Bytes) (back : List Packet) (p : Packet)
    → Packet.packet_type p ≡ ok PacketType.conn_ack
    → Session c status out back
    → Live status
    → Session c connected out (back ++ (p ∷ []))
greets-Session c status out back p t s (inl st) =
    welcome p t (subst (λ x. Session c x out back) st s)
greets-Session c status out back p t s (inr st) = listens p (subst (λ x. Session c x out back) st s)

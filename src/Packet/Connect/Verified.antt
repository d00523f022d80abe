-- ===== src/Packet/Connect/Verified.antt =====
-- src/packet/connect.rs: the getters of a CONNECT that was verified.
use mathlib.Core.Path.{subst}
use tjiftjaf.Prelude.{
  ℕ, ◌+◌, ◌≡◌, refl, sym, ap, ◌∙◌, arith, Option, Bool, not, ◌&&◌, drop, length-drop,
}
use tjiftjaf.Result.{ok, >>=-eq-ok, unwrap, assert}
use tjiftjaf.Rust.{Bytes}
use tjiftjaf.Rust.Slices.{length-slice, slice_from_ok}
use tjiftjaf.Frame.{try_payload, try_offset_variable_header}
use tjiftjaf.Decode
use tjiftjaf.Decode.Field.{u16-ok}
use tjiftjaf.Packet.ConnectFlags
use tjiftjaf.Packet.ConnectFlags.{Flags}
use tjiftjaf.Packet.Connect
use tjiftjaf.Packet.Connect.{Connect, UnverifiedConnect, Will, unverified_frame}

-- What the getters of a CONNECT return.
pub record Readable (p : Connect) : Type 0 where
  pub client_id : (v : Bytes) × (Connect.client_id p ≡ ok v)
  pub keep_alive : (v : ℕ) × (Connect.keep_alive p ≡ ok v)
  pub flags : (v : Flags) × (Connect.flags p ≡ ok v)
  pub will : (v : Option Will) × (Connect.will p ≡ ok v)
  pub username : (v : Option Bytes) × (Connect.username p ≡ ok v)
  pub password : (v : Option Bytes) × (Connect.password p ≡ ok v)

-- The fixed variable header has room for the keep alive interval.
keep_alive-ok :
    (u : UnverifiedConnect) (header : Bytes)
    → Connect.try_variable_header u ≡ ok header
    → (v : ℕ) × (Connect.try_keep_alive u ≡ ok v)
unfolding Connect.try_variable_header Connect.try_keep_alive
keep_alive-ok u header e =
    let (offset, eo, es) = >>=-eq-ok (try_offset_variable_header u.inner) _ e in
    let size = (length-slice u.inner header offset (offset + 10) es).0 in
    let rest = slice_from_ok header 8 (omega (arith, size)) in
    let (v, ev) = u16-ok (drop 8 header) (omega (arith, size, length-drop 8 header)) in
    (v, rw (e, rest) ev)

of_unverified :
    (u : UnverifiedConnect)
    → Connect.verify u ≡ ok (record { inner = u })
    → Readable (record { inner = u })
unfolding Connect.verify Connect.verify_variable_header Connect.verify_payload Connect.try_client_id
of_unverified u e =
    let (_, _, e1) = >>=-eq-ok (Connect.verify_header u) _ e in
    let (_, ev, e2) = >>=-eq-ok (Connect.verify_variable_header u) _ e1 in
    let (header, eh, _) = >>=-eq-ok (Connect.try_variable_header u) _ ev in
    let (_, ep, _) = >>=-eq-ok (Connect.verify_payload u) _ e2 in
    let (payload, epay, f1) = >>=-eq-ok (try_payload u) _ ep in
    let ((id, n), eid, f2) = >>=-eq-ok (Decode.utf8 payload) _ f1 in
    let (flags, eflags, f3) = >>=-eq-ok (Connect.try_connect_flags u) _ f2 in
    let named : Bool = not (Connect.is_empty id && not (ConnectFlags.clean_session flags)) in
    let (_, _, f4) = >>=-eq-ok (assert named) _ f3 in
    let (will, ewill, f5) = >>=-eq-ok (Connect.try_will u) _ f4 in
    let (username, euser, f6) = >>=-eq-ok (Connect.try_username u) _ f5 in
    let (password, epass, _) = >>=-eq-ok (Connect.try_password u) _ f6 in
    let (alive, ealive) = keep_alive-ok u header eh in
    record {
      client_id = (id, rw (epay, eid) refl);
      keep_alive = (alive, ap unwrap ealive);
      flags = (flags, ap unwrap eflags);
      will = (will, ap unwrap ewill);
      username = (username, ap unwrap euser);
      password = (password, ap unwrap epass);
    }

-- A CONNECT that `Connect::try_from` accepts can be read: none of its getters panics.
pub connect-Readable : (bytes : Bytes) (p : Connect) → Connect.try_from bytes ≡ ok p → Readable p
unfolding Connect.try_from Connect.verify
connect-Readable bytes p e =
    let u : UnverifiedConnect = record { inner = bytes } in
    let (_, _, e1) = >>=-eq-ok (Connect.verify_header u) _ e in
    let (_, _, e2) = >>=-eq-ok (Connect.verify_variable_header u) _ e1 in
    let (_, _, e3) = >>=-eq-ok (Connect.verify_payload u) _ e2 in
    let same : record { inner = u } ≡ p = ground (arith, e3) in
    subst Readable same (of_unverified u (e ∙ ap ok (sym same)))

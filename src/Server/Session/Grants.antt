-- ===== src/Server/Session/Grants.antt =====
-- src/aio/server.rs: the SUBACK that answers a SUBSCRIBE.
use tjiftjaf.Prelude.{
  ℕ, zero, suc, ◌+◌, ◌≤◌, ◌<◌, ◌≡◌, refl, sym, ap, ◌∙◌, arith, List, [], ◌∷◌, ◌++◌, append_assoc,
  append-nil, length, Option, none, some, true, ◌⊎◌, inl, inr,
}
use tjiftjaf.Result.{
  Result, ok, err, panic, ◌>>=◌, >>=-eq-ok, DecodingError, outcome, is_ok, is_err, is_panic,
}
use tjiftjaf.Rust.{Bytes, IsU16}
use tjiftjaf.Kinds.{QoS}
use tjiftjaf.Frame.Layout.{max_body}
use tjiftjaf.Packet
use tjiftjaf.Packet.{Packet}
use tjiftjaf.Packet.Connect
use tjiftjaf.Packet.SubAck
use tjiftjaf.Packet.SubAck.Codec.{build_sub_ack}
use tjiftjaf.Packet.Subscribe
use tjiftjaf.Packet.Topics.{Topics, next, drain}
use tjiftjaf.Server.Table.{packet}
use tjiftjaf.Server.Session.{Client, go_on, grant, sub_ack_builder, on_packet}

cons_inj :
    {A : Type 0} {x y : A} {xs ys : List A} → Result.ok (x ∷ xs) ≡ ok (y ∷ ys) → (x ≡ y) × (xs ≡ ys)
cons_inj e = (cc, cc)

not_nil : {A : Type 0} (x : A) (xs : List A) → ¬ (Result.ok [] ≡ ok (x ∷ xs))
not_nil x xs e = cc

module _ {A : Type 0} (item : Bytes → ℕ → Result (A × ℕ)) where
  drain-none :
      (f : ℕ) (t t' : Topics) (out : List A)
      → next item t ≡ ok (t', none)
      → drain item (suc f) t out ≡ ok out
  unfolding drain
  drain-none f t t' out e = rw e refl

  drain-some :
      (f : ℕ) (t t' : Topics) (out : List A) (x : A)
      → next item t ≡ ok (t', some x)
      → drain item (suc f) t out ≡ drain item f t' (out ++ (x ∷ []))
  unfolding drain
  drain-some f t t' out x e = rw e refl

  -- What is drained stands behind what was drained before.
  abbrev behind : List A → Result (List A) → Result (List A)
  behind out r = r >>= λ xs. ok (out ++ xs)

  behind-behind :
      (out : List A) (x : A) (r : Result (List A))
      → behind out (behind (x ∷ []) r) ≡ behind (out ++ (x ∷ [])) r
  behind-behind out x panic = refl
  behind-behind out x (err e) = refl
  behind-behind out x (ok xs) = ap ok (sym (append_assoc out (x ∷ []) xs))

  drain_failed :
      (f : ℕ) (t : Topics) (out : List A)
      → (next item t ≡ panic) ⊎ ((e : DecodingError) × (next item t ≡ err e))
      → drain item (suc f) t out ≡ behind out (drain item (suc f) t [])
  unfolding drain
  drain_failed f t out (inl e) = rw e refl
  drain_failed f t out (inr (x, e)) = rw e refl

  drain_found :
      (f : ℕ) (t t' : Topics) (out : List A) (found : Option A)
      → ((out' : List A) → drain item f t' out' ≡ behind out' (drain item f t' []))
      → next item t ≡ ok (t', found)
      → drain item (suc f) t out ≡ behind out (drain item (suc f) t [])
  drain_found f t t' out none more e =
      drain-none f t t' out e
      ∙ ap ok (sym (append-nil out))
      ∙ ap (behind out) (sym (drain-none f t t' [] e))
  drain_found f t t' out (some x) more e =
      drain-some f t t' out x e
      ∙ more (out ++ (x ∷ []))
      ∙ sym (behind-behind out x (drain item f t' []))
      ∙ ap (behind out) (sym (more (x ∷ [])) ∙ sym (drain-some f t t' [] x e))

  drain_zero : (t : Topics) (out : List A) → drain item 0 t out ≡ panic
  unfolding drain
  drain_zero t out = refl

  drain-behind :
      (f : ℕ) (t : Topics) (out : List A) → drain item f t out ≡ behind out (drain item f t [])
  drain-behind zero t out = drain_zero t out ∙ ap (behind out) (sym (drain_zero t []))
  drain-behind (suc f) t out = elim (outcome (next item t)) [
    | is_ok (t', found) e ↦ drain_found f t t' out found (drain-behind f t') e
    | is_err x e ↦ drain_failed f t out (inr (x, e))
    | is_panic e ↦ drain_failed f t out (inl e)
  ]

  found_first :
      (f : ℕ) (t t' : Topics) (x : A) (xs : List A) (found : Option A)
      → next item t ≡ ok (t', found)
      → drain item (suc f) t [] ≡ ok (x ∷ xs)
      → (s : Topics) × (next item t ≡ ok (s, some x)) × (drain item f s [] ≡ ok xs)
  found_first f t t' x xs none e h = absurd (not_nil x xs (sym (drain-none f t t' [] e) ∙ h))
  found_first f t t' x xs (some y) e h =
      let d : behind (y ∷ []) (drain item f t' []) ≡ ok (x ∷ xs) =
        sym (drain-behind f t' (y ∷ [])) ∙ sym (drain-some f t t' [] y e) ∙ h in
      let (ys, ey, same) = >>=-eq-ok (drain item f t' []) _ d in
      let (head, tail) = cons_inj same in
      (t', e ∙ ap (λ (z : A). ok (t', some z)) head, ey ∙ ap ok tail)

  -- An iterator that yields topics yields the first of them, and then the others.
  first_of :
      (f : ℕ) (t : Topics) (x : A) (xs : List A)
      → drain item (suc f) t [] ≡ ok (x ∷ xs)
      → (t' : Topics) × (next item t ≡ ok (t', some x)) × (drain item f t' [] ≡ ok xs)
  unfolding drain
  first_of f t x xs h =
      let ((t', found), e, _) = >>=-eq-ok (next item t) _ h in found_first f t t' x xs found e h

-- The return codes that grant each topic its QoS.
abbrev pub codes : List (Bytes × QoS) → List SubAck.ReturnCode
codes [] = []
codes ((_, q) ∷ topics) = SubAck.qos q ∷ codes topics

pub length-codes : (topics : List (Bytes × QoS)) → length (codes topics) ≡ length topics
length-codes [] = refl
length-codes (_ ∷ topics) = ap suc (length-codes topics)

abbrev with_codes : SubAck.Builder → List SubAck.ReturnCode → SubAck.Builder
with_codes b l = record b { return_codes = b.return_codes ++ l }

grant-codes :
    (b : SubAck.Builder) (topics : List (Bytes × QoS))
    → grant b topics ≡ with_codes b (codes topics)
grant-codes b [] = rw (append-nil b.return_codes) refl
grant-codes b ((_, q) ∷ topics) =
    grant-codes (SubAck.add_return_code b (SubAck.qos q)) topics
    ∙ rw (append_assoc b.return_codes (SubAck.qos q ∷ []) (codes topics)) refl

pub builder_of :
    (s : Subscribe.Subscribe) (id : ℕ) (topic : Bytes) (q : QoS) (topics : List (Bytes × QoS))
    → Subscribe.packet_identifier s ≡ ok id
    → Subscribe.all_topics s ≡ ok ((topic, q) ∷ topics)
    → sub_ack_builder s
      ≡ ok (record { packet_identifier = id; return_codes = codes ((topic, q) ∷ topics) })
unfolding Subscribe.all_topics sub_ack_builder
builder_of s id topic q topics ei et =
    let (t, e0, e1) = >>=-eq-ok (Subscribe.topics s) _ et in
    let (t', e2, e3) = first_of Subscribe.topic_at (suc (length t.topics)) t (topic, q) topics e1 in
    rw (e0, e2, ei, e3) (ap ok (grant-codes (SubAck.new id (SubAck.qos q)) topics))

module _ {Sender : Type 0} where
  -- To a SUBSCRIBE whose identifier and topics are read, with a topic, an identifier of 16 bits
  -- and no more topics than a SUBACK has room for, a session whose CONNECT has a client id, whose
  -- server takes the message and whose socket takes the bytes answers with a SUBACK that decodes
  -- to the same identifier and to the QoS of each topic, in order, after it has handed the
  -- SUBSCRIBE to the server under that client id.
  pub on_packet-subscribe :
      (c : Client Sender) (s : Subscribe.Subscribe) (id : ℕ) (name : Bytes)
      (topics : List (Bytes × QoS))
      → Subscribe.packet_identifier s ≡ ok id
      → Subscribe.all_topics s ≡ ok topics
      → IsU16 id
      → 0 < length topics
      → length topics + 2 ≤ max_body
      → Connect.client_id c.connect ≡ ok name
      → (ack : SubAck.SubAck) × (on_packet c true true (Packet.subscribe s)
          ≡ ok (
            record c {
              sent = c.sent ++ (SubAck.into_bytes ack ∷ []);
              funnelled = c.funnelled ++ (packet name (Packet.subscribe s) ∷ []);
            },
            go_on,
          ))
        × (SubAck.try_from (SubAck.into_bytes ack) ≡ ok ack)
        × (SubAck.packet_identifier ack ≡ ok id)
        × (SubAck.return_codes ack ≡ ok (codes topics))
  unfolding on_packet Packet.into_bytes
  on_packet-subscribe c s id name [] ei et small pos fit en = absurd (omega arith)
  on_packet-subscribe c s id name ((topic, q) ∷ topics) ei et small pos fit en =
      let b : SubAck.Builder = record {
        packet_identifier = id;
        return_codes = codes ((topic, q) ∷ topics);
      } in
      let (ack, built, decodes, same_id, granted) =
        build_sub_ack b small (omega (arith, length-codes topics)) in
      (ack, rw (builder_of s id topic q topics ei et, en, built) refl, decodes, same_id, granted)

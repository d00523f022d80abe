-- ===== src/Client/Handle.antt =====
-- src/aio/mod.rs: `ClientHandle`, on the packets that its channels carry.
use tjiftjaf.Prelude.{◌≡◌, refl, ◌∙◌, Bool, List, [], ◌∷◌, ◌++◌, Option, none, some, if◌then◌else◌}
use tjiftjaf.Packet.{Packet}
use tjiftjaf.Packet.Ping
use tjiftjaf.Packet.Publish.{Publish}
use tjiftjaf.Packet.Subscribe.{Subscribe}
use tjiftjaf.Packet.Unsubscribe.{Unsubscribe}

-- The packets that the handle has sent, whether the client still takes them, and the packets
-- that the client sends to it before it ends.
pub record ClientHandle : Type 0 where
  pub sender : List Packet
  pub is_open : Bool
  pub receiver : List Packet

-- `ClientHandle::send`; `none` is the error.
unfoldable pub send : ClientHandle → Packet → Option ClientHandle
send h packet = if h.is_open then some (record h { sender = h.sender ++ (packet ∷ []) }) else none

-- `ClientHandle::disconnect`, which drops the handle.
unfoldable pub disconnect : ClientHandle → Option ClientHandle
disconnect h = send h (Packet.disconnect Ping.disconnect)

-- `Into<Packet>` for the packets that can be emitted
pub record IntoPacket (A : Type 0) : Type 0 where
  pub into : A → Packet

instance abbrev pub publish_into : IntoPacket Publish
publish_into = record { into = λ p. Packet.publish p }

instance abbrev pub subscribe_into : IntoPacket Subscribe
subscribe_into = record { into = λ p. Packet.subscribe p }

instance abbrev pub unsubscribe_into : IntoPacket Unsubscribe
unsubscribe_into = record { into = λ p. Packet.unsubscribe p }

-- `Emit::emit`, the same for the three packets
unfoldable pub emit : {A : Type 0} → ⦃e : IntoPacket A⦄ → A → ClientHandle → Option ClientHandle
emit ⦃e = e⦄ p h = send h (e.into p)

-- The loop of `ClientHandle::subscriptions`; `none` is the error of a channel that is closed.
abbrev pub next_publish : List Packet → Option Publish × List Packet
next_publish [] = (none, [])
next_publish (Packet.publish p ∷ packets) = (some p, packets)
next_publish (_ ∷ packets) = next_publish packets

unfoldable pub subscriptions : ClientHandle → Option Publish × ClientHandle
subscriptions h =
    let (found, rest) = next_publish h.receiver in (found, record h { receiver = rest })

-- The publications among packets.
abbrev pub publications : List Packet → List Publish
publications [] = []
publications (Packet.publish p ∷ packets) = p ∷ publications packets
publications (_ ∷ packets) = publications packets

-- A call returns the first publication, and leaves the others, or there is none.
abbrev pub Takes : List Packet → Option Publish × List Packet → Type 0
Takes packets (none, rest) = (publications packets ≡ []) × (rest ≡ [])
Takes packets (some p, rest) = publications packets ≡ p ∷ publications rest

same_as :
    (packets packets' : List Packet) (r : Option Publish × List Packet)
    → publications packets' ≡ publications packets
    → Takes packets r
    → Takes packets' r
same_as packets packets' (none, rest) e (t, gone) = (e ∙ t, gone)
same_as packets packets' (some p, rest) e t = e ∙ t

pub next_publish-Takes : (packets : List Packet) → Takes packets (next_publish packets)
next_publish-Takes [] = (refl, refl)
next_publish-Takes (Packet.publish p ∷ packets) = refl
next_publish-Takes (Packet.connect p ∷ packets) =
    same_as packets (Packet.connect p ∷ packets) (next_publish packets) refl
      (next_publish-Takes packets)
next_publish-Takes (Packet.conn_ack p ∷ packets) =
    same_as packets (Packet.conn_ack p ∷ packets) (next_publish packets) refl
      (next_publish-Takes packets)
next_publish-Takes (Packet.pub_ack p ∷ packets) =
    same_as packets (Packet.pub_ack p ∷ packets) (next_publish packets) refl
      (next_publish-Takes packets)
next_publish-Takes (Packet.pub_rec p ∷ packets) =
    same_as packets (Packet.pub_rec p ∷ packets) (next_publish packets) refl
      (next_publish-Takes packets)
next_publish-Takes (Packet.pub_rel p ∷ packets) =
    same_as packets (Packet.pub_rel p ∷ packets) (next_publish packets) refl
      (next_publish-Takes packets)
next_publish-Takes (Packet.pub_comp p ∷ packets) =
    same_as packets (Packet.pub_comp p ∷ packets) (next_publish packets) refl
      (next_publish-Takes packets)
next_publish-Takes (Packet.subscribe p ∷ packets) =
    same_as packets (Packet.subscribe p ∷ packets) (next_publish packets) refl
      (next_publish-Takes packets)
next_publish-Takes (Packet.sub_ack p ∷ packets) =
    same_as packets (Packet.sub_ack p ∷ packets) (next_publish packets) refl
      (next_publish-Takes packets)
next_publish-Takes (Packet.unsubscribe p ∷ packets) =
    same_as packets (Packet.unsubscribe p ∷ packets) (next_publish packets) refl
      (next_publish-Takes packets)
next_publish-Takes (Packet.unsub_ack p ∷ packets) =
    same_as packets (Packet.unsub_ack p ∷ packets) (next_publish packets) refl
      (next_publish-Takes packets)
next_publish-Takes (Packet.ping_req p ∷ packets) =
    same_as packets (Packet.ping_req p ∷ packets) (next_publish packets) refl
      (next_publish-Takes packets)
next_publish-Takes (Packet.ping_resp p ∷ packets) =
    same_as packets (Packet.ping_resp p ∷ packets) (next_publish packets) refl
      (next_publish-Takes packets)
next_publish-Takes (Packet.disconnect p ∷ packets) =
    same_as packets (Packet.disconnect p ∷ packets) (next_publish packets) refl
      (next_publish-Takes packets)

-- Each call of `subscriptions` returns the first publication among the packets that the client
-- sent and drops the packets before it, so that the calls return all publications in order; it
-- fails only where the channel is closed with none left.
pub subscriptions-Takes :
    (h : ClientHandle) → Takes h.receiver ((subscriptions h).0, (subscriptions h).1.receiver)
unfolding subscriptions
subscriptions-Takes h = next_publish-Takes h.receiver

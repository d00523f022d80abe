-- ===== src/Client/Blocking/Handle.antt =====
-- src/blocking/mod.rs: `ClientHandle`, on the packets that its channels carry.
use tjiftjaf.Prelude.{ℕ, suc, Bool, true, false, List, [], ◌∷◌, ◌++◌, Option, if◌then◌else◌}
use tjiftjaf.Packet.{Packet}
use tjiftjaf.Packet.Ping
use tjiftjaf.Packet.Publish.{Publish}
use tjiftjaf.Client.Handle.{IntoPacket, next_publish, Takes, next_publish-Takes}

-- As that of the async client, with the number of events that the waker has raised.
pub record ClientHandle : Type 0 where
  pub sender : List Packet
  pub is_open : Bool
  pub receiver : List Packet
  pub wakes : ℕ

-- `ClientHandle::send`, where `woken` says whether the waker works: the handle behind it, and
-- whether it returns Ok. A packet stays in the channel although the waker fails.
unfoldable pub send : ClientHandle → Packet → (woken : Bool) → ClientHandle × Bool
send h packet woken =
    let queued : ClientHandle = record h { sender = h.sender ++ (packet ∷ []) } in
    if h.is_open
    then (if woken then (record queued { wakes = suc h.wakes }, true) else (queued, false))
    else (h, false)

-- `Emit::emit`, the same for the three packets
unfoldable pub emit :
    {A : Type 0} → ⦃e : IntoPacket A⦄ → A → ClientHandle → (woken : Bool) → ClientHandle × Bool
emit ⦃e = e⦄ p h woken = send h (e.into p) woken

-- `ClientHandle::disconnect`
unfoldable pub disconnect : ClientHandle → (woken : Bool) → ClientHandle × Bool
disconnect h woken = send h (Packet.disconnect Ping.disconnect) woken

-- `ClientHandle::publication`
unfoldable pub publication : ClientHandle → Option Publish × ClientHandle
publication h = let (found, rest) = next_publish h.receiver in (found, record h { receiver = rest })

-- As `subscriptions` of the async client.
pub publication-Takes :
    (h : ClientHandle) → Takes h.receiver ((publication h).0, (publication h).1.receiver)
unfolding publication
publication-Takes h = next_publish-Takes h.receiver

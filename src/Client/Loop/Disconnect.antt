-- ===== src/Client/Loop/Disconnect.antt =====
-- src/aio/mod.rs: what a client does with a DISCONNECT behind other packets.
use tjiftjaf.Prelude.{
  ℕ, suc, ◌+◌, ◌≡◌, refl, sym, ap, ◌∙◌, arith, List, [], ◌∷◌, ◌++◌, append_assoc, append-nil,
  length, if◌then◌else◌,
}
use tjiftjaf.Result.{ok}
use tjiftjaf.Packet
use tjiftjaf.Packet.{Packet}
use tjiftjaf.Packet.Ping
use tjiftjaf.Packet.Ping.{disconnect_bytes}
use tjiftjaf.Rust.{slice}
use tjiftjaf.Decode.{packet_length}
use tjiftjaf.Frame.{length_of}
use tjiftjaf.Binding.{MqttBinding, connected, send}
use tjiftjaf.Client.Loop.{
  Socket, Client, stop, disconnected, io_error, flush_loop, flush, send_all, enqueue,
}
use tjiftjaf.Client.Loop.Order.{Accepts, wrote, write_one, flush_closed}

-- What enqueueing does to a client.
send_all-transmits :
    (b : MqttBinding) (queue : List Packet)
    → ((send_all b queue).transmits ≡ b.transmits ++ queue)
      × ((send_all b queue).connection_status ≡ b.connection_status)
unfolding send
send_all-transmits b [] = (sym (append-nil b.transmits), refl)
send_all-transmits b (p ∷ queue) =
    let (q, st) = send_all-transmits (send b p) queue in (q ∙ append_assoc b.transmits _ _, st)

disconnect-length : Packet.length (Packet.disconnect Ping.disconnect) ≡ ok 2
unfolding Packet.length length_of packet_length slice Packet.into_bytes
disconnect-length = refl

-- If a connected client finds a DISCONNECT behind other packets in its channel, and its socket
-- takes every write, then it writes the DISCONNECT alone and returns: the packets that were
-- sent before it stay in the queue.
pub flush-disconnect :
    (socket : Socket) (c : Client) (queue : List Packet)
    → Accepts socket
    → c.binding.connection_status ≡ connected
    → (c' : Client) × (flush socket (enqueue c (queue ++ (Packet.disconnect Ping.disconnect ∷ [])))
        ≡ ok (c', if socket.close c'.written then stop disconnected else stop io_error))
      × (c'.written ≡ c.written ++ (disconnect_bytes ∷ []))
      × (c'.binding.transmits ≡ c.binding.transmits ++ queue)
unfolding flush Packet.into_bytes
flush-disconnect socket c queue takes st =
    let bye : Packet = Packet.disconnect Ping.disconnect in
    let c0 : Client = enqueue c (queue ++ (bye ∷ [])) in
    let (q, st') = send_all-transmits c.binding (queue ++ (bye ∷ [])) in
    let rest = c.binding.transmits ++ queue in
    let c1 : Client = wrote socket takes c0 rest bye 2 in
    let n : ℕ = length c0.binding.transmits in
    let two : 2 + n ≡ suc (suc n) = omega arith in
    (
      c1,
      ap (λ (rounds : ℕ). flush_loop rounds socket c0) two
          ∙ write_one socket takes (suc n) 2 c0 rest bye (st' ∙ st)
              (q ∙ sym (append_assoc c.binding.transmits queue _)) disconnect-length
          ∙ flush_closed socket takes n c1 refl,
      refl,
      refl,
    )

-- ===== src/Client/Loop/Flush.antt =====
-- src/aio/mod.rs: the loop of `Client::run` that sends all pending transmits.
use tjiftjaf.Prelude.{
  ℕ, zero, suc, ◌+◌, ◌≤◌, ◌≡◌, ◌≢◌, arith, Bool-cases, ◌⊎◌, inl, inr, Option, some, List, [], ◌∷◌,
  ◌++◌, length, length-append, if◌then◌else◌,
}
use tjiftjaf.Result.{Result, ok, ◌>>=◌, >>=-eq-ok}
use tjiftjaf.Rust.{Bytes}
use tjiftjaf.Packet.{Packet}
use tjiftjaf.Binding
use tjiftjaf.Binding.{
  MqttBinding, ConnectionStatus, ClientDisconnected, client_disconnected, not_connected, connecting,
  connected, poll_transmits, transmit_in, transmit_connect, transmit, pop, record_outbound_packet,
  is_disconnect, Statistics,
}
use tjiftjaf.Binding.Poll.{Poll, Moves, refused, opened, waits, drained, sent, poll_transmits-Poll}
use tjiftjaf.Client.Loop.{
  Socket, Client, Flow, go_on, stop, unfinished, disconnected, io_error, on_polled, flush_loop,
  flush,
}

-- The loop ends, with whatever result, before its rounds are over.
abbrev pub Finishes : Result (Client × Flow) → Type 0
Finishes r = (c : Client) → r ≢ ok (c, unfinished)

pub bind-Finishes :
    {A : Type 0} (m : Result A) (next : A → Result (Client × Flow))
    → ((x : A) → m ≡ ok x → Finishes (next x))
    → Finishes (m >>= next)
bind-Finishes m next f c e = let (x, me, ne) = >>=-eq-ok m next e in f x me c ne

pub of_flow :
    (c c' : Client) (f f' : Flow)
    → ◌≡◌ {A = Result (Client × Flow)} (ok (c, f)) (ok (c', f'))
    → (c ≡ c') × (f ≡ f')
of_flow c c' f f' e = (ground (arith, e), ground (arith, e))

pub flow-Finishes : (c : Client) (f : Flow) → f ≢ unfinished → Finishes (ok (c, f))
flow-Finishes c f n c' e = n (of_flow c c' f unfinished e).1

-- The rounds that a status and a queue need.
abbrev budget : ConnectionStatus → List Packet → ℕ
budget not_connected queue = 2
budget connecting queue = 1
budget connected queue = suc (length queue)
budget Binding.disconnected queue = 1

on_write-Finishes :
    (socket : Socket) (c : Client) (bytes : Bytes) (again : Client → Result (Client × Flow))
    → Finishes (again (record c { written = c.written ++ (bytes ∷ []) }))
    → Finishes (on_polled socket c (inr (some bytes)) again)
on_write-Finishes socket c bytes again f = elim (Bool-cases (socket.write c.written bytes)) [
  | inl h ↦ rw h f
  | inr h ↦ rw h (flow-Finishes c (stop io_error) (λ e. cc))
]

on_closed-Finishes :
    (socket : Socket) (c : Client) (x : ClientDisconnected)
    (again : Client → Result (Client × Flow))
    → Finishes (on_polled socket c (inl x) again)
on_closed-Finishes socket c x again = elim (Bool-cases (socket.close c.written)) [
  | inl h ↦ rw h (flow-Finishes c (stop disconnected) (λ e. cc))
  | inr h ↦ rw h (flow-Finishes c (stop io_error) (λ e. cc))
]

-- The induction hypothesis on the rounds.
abbrev Enough : ℕ → Socket → Type 0
Enough n socket =
    (c : Client)
    → budget c.binding.connection_status c.binding.transmits ≤ n
    → Finishes (flush_loop n socket c)

budget_pos : (status : ConnectionStatus) (queue : List Packet) → ¬ (budget status queue ≤ 0)
budget_pos not_connected queue h = omega arith
budget_pos connecting queue h = omega arith
budget_pos connected queue h = omega arith
budget_pos Binding.disconnected queue h = omega arith

-- The rounds that are left after a packet was sent are enough for what is left of the queue.
sent_fits :
    (n : ℕ) (b b' : MqttBinding) (rest : List Packet) (p : Packet)
    → b.connection_status ≡ connected
    → b.transmits ≡ rest ++ (p ∷ [])
    → Moves b b' (if is_disconnect p then Binding.disconnected else b.connection_status) rest
    → budget b.connection_status b.transmits ≤ suc n
    → budget b'.connection_status b'.transmits ≤ n
sent_fits n b b' rest p st cut m h =
    let h' : suc (length (rest ++ (p ∷ []))) ≤ suc n = rw (st, cut) at h in
    let one = length-append rest (p ∷ []) in
    elim (Bool-cases (is_disconnect p)) [
      | inl d ↦ rw (m.status_is, d) (omega (arith, h', one))
      | inr d ↦ rw (m.status_is, d, st, m.queue_is) (omega (arith, h', one))
    ]

-- A round of the loop, by what `poll_transmits` does.
polled-Finishes :
    (n : ℕ) (socket : Socket) (c : Client) (b : MqttBinding) (r : ClientDisconnected ⊎ Option Bytes)
    → budget c.binding.connection_status c.binding.transmits ≤ suc n
    → Enough n socket
    → Poll c.binding b r
    → Finishes (on_polled socket (record c { binding = b }) r (flush_loop n socket))
polled-Finishes n socket c b r h more (refused st same result) =
    rw result (
      on_closed-Finishes socket (record c { binding = b }) client_disconnected
        (flush_loop n socket))
polled-Finishes n socket c b r h more (opened st m result) = rw result (
    on_write-Finishes socket (record c { binding = b }) _ (flush_loop n socket)
      (more (record c { binding = b; written = _ }) (rw m.status_is (ground (arith, rw st at h)))))
polled-Finishes n socket c b r h more (waits st same result) =
    rw result (flow-Finishes (record c { binding = b }) go_on (λ e. cc))
polled-Finishes n socket c b r h more (drained st empty same result) =
    rw result (flow-Finishes (record c { binding = b }) go_on (λ e. cc))
polled-Finishes n socket c b r h more (sent rest p st cut m result) = rw result (
    on_write-Finishes socket (record c { binding = b }) _ (flush_loop n socket)
      (more (record c { binding = b; written = _ }) (sent_fits n c.binding b rest p st cut m h)))

loop-Finishes : (n : ℕ) (socket : Socket) → Enough n socket
unfolding flush_loop
loop-Finishes zero socket c h =
    absurd (budget_pos c.binding.connection_status c.binding.transmits h)
loop-Finishes (suc n) socket c h =
    bind-Finishes (poll_transmits c.binding (socket.clock c.written)) _ (λ x e.
      polled-Finishes n socket c x.0 x.1 h (loop-Finishes n socket)
        (poll_transmits-Poll c.binding x.0 (socket.clock c.written) x.1 e))

budget_fits :
    (status : ConnectionStatus) (queue : List Packet) → budget status queue ≤ 2 + length queue
budget_fits not_connected queue = omega arith
budget_fits connecting queue = omega arith
budget_fits connected queue = omega arith
budget_fits Binding.disconnected queue = omega arith

pub flush-Finishes : (socket : Socket) (c : Client) → Finishes (flush socket c)
unfolding flush
flush-Finishes socket c =
    loop-Finishes (2 + length c.binding.transmits) socket c
      (budget_fits c.binding.connection_status c.binding.transmits)

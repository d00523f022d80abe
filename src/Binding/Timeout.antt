-- ===== src/Binding/Timeout.antt =====
-- src/lib.rs: `handle_timeout` and `poll_timeout` agree.
use tjiftjaf.Prelude.{ℕ, ◌<◌, ◌≡◌, arith, leb, if◌then◌else◌}
use tjiftjaf.Result.{ok}
use tjiftjaf.Packet.{Packet}
use tjiftjaf.Packet.Connect
use tjiftjaf.Packet.Ping
use tjiftjaf.Binding.{MqttBinding, handle_timeout, poll_timeout, send}

-- With a keep alive interval, the instant that `poll_timeout` returns is the first one at
-- which `handle_timeout` schedules a PINGREQ; before it, `handle_timeout` changes nothing.
pub handle_timeout-poll_timeout :
    (b : MqttBinding) (now keep_alive wake : ℕ)
    → Connect.keep_alive b.connect ≡ ok keep_alive
    → 0 < keep_alive
    → poll_timeout b ≡ ok wake
    → handle_timeout b now ≡ ok (if leb wake now then send b (Packet.ping_req Ping.ping_req) else b)
unfolding handle_timeout poll_timeout send
handle_timeout-poll_timeout b now keep_alive wake e pos w =
    let w' = rw e at w in rw e (ground (arith, w'))

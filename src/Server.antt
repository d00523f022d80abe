-- ===== src/Server.antt =====
-- src/aio/server.rs and src/packet/mod.rs: how the server cuts packets out of a stream.
pub mod Read
pub mod Stop
pub mod Tasks
pub mod Topic
pub mod Table
pub mod Session
pub mod Route
pub mod Acks
use tjiftjaf.Prelude.{
  ℕ, zero, suc, ltb, ◌==◌, if◌then◌else◌, List, [], ◌∷◌, ◌++◌, Option, none, some, length, take,
  drop,
}
use tjiftjaf.Result.{Result, ok, err, panic, ◌>>=◌, not_enough_bytes, too_many_bytes}
use tjiftjaf.Rust.{Bytes, slice_from, sub_checked}
use tjiftjaf.Decode.{packet_length}
use tjiftjaf.Packet
use tjiftjaf.Packet.{Packet}
use tjiftjaf.Binding.{len_u32}

-- The `match` of `min_bytes_required` on what `packet_length` returned.
unfoldable pub bytes_missing : Bytes → Result ℕ → Result ℕ
bytes_missing payload (ok length) = sub_checked length (len_u32 payload)
bytes_missing payload (err (not_enough_bytes _ _)) = sub_checked 127 (len_u32 payload)
bytes_missing payload (err error) = panic
bytes_missing payload panic = panic

-- `packet::min_bytes_required`
unfoldable pub min_bytes_required : Bytes → Result ℕ
min_bytes_required payload =
    let more = slice_from payload 1 >>= λ rest. bytes_missing payload (packet_length rest) in
    if ltb (length payload) 2 then sub_checked 2 (len_u32 payload) else more

pub record Parser : Type 0 where
  pub inner : Bytes

-- `Parser::new`, `Parser::push` and `Parser::bytes_required`
abbrev pub new : Parser
new = record { inner = [] }

abbrev pub push : Parser → Bytes → Parser
push parser bytes = record { inner = parser.inner ++ bytes }

abbrev pub bytes_required : Parser → Result ℕ
bytes_required parser = min_bytes_required parser.inner

-- `Parser::parse`, which returns the parser too.
abbrev pub parsed : Parser → Result Packet → Result Packet × Parser
parsed parser (ok packet) = (ok packet, new)
parsed parser (err error) = (err error, parser)
parsed parser panic = (panic, parser)

unfoldable pub parse : Parser → Result Packet × Parser
parse parser = parsed parser (Packet.try_from parser.inner)

-- A round of the loop of `read_packet`, on what `bytes_required` returned; `read_exact` fails
-- where the stream ends.
abbrev pub read_round :
    Result ℕ
    → Parser
    → Bytes
    → (again : ℕ → Option (Result Packet × Bytes)) → Option (Result Packet × Bytes)
read_round (ok n) parser stream again =
    let next = again n in
    if n == 0
    then some ((parse parser).0, stream)
    else if ltb (length stream) n
    then some (err too_many_bytes, [])
    else next
read_round (err error) parser stream again = some (panic, stream)
read_round panic parser stream again = some (panic, stream)

-- The loop itself, on the bytes that the reader is going to give; `none` when the rounds are
-- over.
unfoldable pub read_loop : (rounds : ℕ) → Parser → Bytes → Option (Result Packet × Bytes)
read_loop zero parser stream = none
read_loop (suc rounds) parser stream =
    read_round (bytes_required parser) parser stream
      (λ n. read_loop rounds (push parser (take n stream)) (drop n stream))

-- `read_packet`
unfoldable pub read_packet : Bytes → Option (Result Packet × Bytes)
read_packet stream = read_loop 4 new stream

-- A `read_packet` that is dropped before it returns. It has read the bytes of `reads` calls of
-- `read_exact` into its parser, and `part` of those that the next call waits for, if there are as
-- many; the reader goes on behind them.
abbrev pub drop_call : Result ℕ → (part : ℕ) → Bytes → Bytes
drop_call (ok n) part stream = if ltb part n then drop part stream else drop n stream
drop_call (err error) part stream = stream
drop_call panic part stream = stream

abbrev pub drop_behind : Result ℕ → Bytes → (again : ℕ → Bytes) → Bytes
drop_behind (ok n) stream again = let next = again n in if n == 0 then stream else next
drop_behind (err error) stream again = stream
drop_behind panic stream again = stream

unfoldable pub drop_read : (reads part : ℕ) → Parser → Bytes → Bytes
drop_read zero part parser stream = drop_call (bytes_required parser) part stream
drop_read (suc reads) part parser stream =
    drop_behind (bytes_required parser) stream
      (λ n. drop_read reads part (push parser (take n stream)) (drop n stream))

unfoldable pub drop_read_packet : (reads part : ℕ) → Bytes → Bytes
drop_read_packet reads part stream = drop_read reads part new stream

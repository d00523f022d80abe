-- ===== src/Examples/Fields.antt =====
-- Fields, frames and short packets at concrete bytes.
use tjiftjaf.Prelude.{◌+◌, ◌%◌, ◌≡◌, ◌≤◌, arith, [], ◌∷◌, ◌++◌, take, length}
use tjiftjaf.Result.{ok, panic}
use tjiftjaf.Rust.{Bytes}
use tjiftjaf.Encode
use tjiftjaf.Encode.{remaining_length}
use tjiftjaf.Decode
use tjiftjaf.Decode.{packet_length}
use tjiftjaf.Decode.Field.{bytes-encode_long}
use tjiftjaf.Frame.{try_two_bytes}
use tjiftjaf.Frame.Layout.{frame}
use tjiftjaf.Frame.Checks.{try_two_bytes_short}
use tjiftjaf.Packet.ConnAck
use tjiftjaf.Packet.ConnAck.Codec.{try_from-build}
use tjiftjaf.Binding.{zeros}
use tjiftjaf.Binding.Rounds.{length-zeros}

abbrev resumed : ConnAck.ConnAckBuilder
resumed = ConnAck.set_session_present ConnAck.new

try_from-build_example :
    ConnAck.try_from (ConnAck.as_bytes (ConnAck.build resumed)) ≡ ok (ConnAck.build resumed)
try_from-build_example = try_from-build resumed

try_two_bytes_short_example : try_two_bytes (frame 130 (7 ∷ [])) ≡ panic
try_two_bytes_short_example = try_two_bytes_short 130 (7 ∷ []) (omega arith)

-- A value that is one byte too long for its prefix.
unfoldable long_value : Bytes
long_value = zeros 65536

long_value-length : 65536 ≤ length long_value
unfolding long_value
long_value-length = rw (length-zeros 65536) (omega arith)

bytes-encode_long_example :
    Decode.bytes (Encode.bytes long_value ++ [])
    ≡ ok (take (length long_value % 65536) (long_value ++ []), length long_value % 65536 + 2)
bytes-encode_long_example = bytes-encode_long long_value [] long_value-length

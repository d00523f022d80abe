-- ===== src/Examples/Verified.antt =====
-- Packets that were verified, and the opening of a session.
use tjiftjaf.Prelude.{ℕ, Bool, true, false, [], ◌∷◌, ◌++◌, ◌≡◌, refl, arith, some}
use tjiftjaf.Result.{ok, ◌>>=◌}
use tjiftjaf.Rust.{Bytes, slice, slice_from, bytes_eq}
use tjiftjaf.Rust.Utf8.{from_utf8, is_utf8}
use tjiftjaf.Encode.Remaining.{groups}
use tjiftjaf.Decode
use tjiftjaf.Decode.{packet_length}
use tjiftjaf.Kinds.{
  decode_packet_type, packet_type_try_from, packet_type_eq, packet_type_code, qos_try_from,
}
use tjiftjaf.Frame
use tjiftjaf.Frame.{check_length, try_header, try_offset_variable_header, try_two_bytes}
use tjiftjaf.Frame.Layout.{frame}
use tjiftjaf.Packet
use tjiftjaf.Packet.{Packet}
use tjiftjaf.Packet.Connect
use tjiftjaf.Packet.Publish
use tjiftjaf.Packet.Subscribe
use tjiftjaf.Packet.Topics
use tjiftjaf.Packet.Decoder.{try_from-connect}
use tjiftjaf.Packet.Connect.Verified as ConnectVerified
use tjiftjaf.Packet.Connect.Verified.{connect-Readable}
use tjiftjaf.Packet.Subscribe.Verified as SubscribeVerified
use tjiftjaf.Packet.Subscribe.Verified.{subscribe-Readable}
use tjiftjaf.Packet.Publish.Verified as PublishVerified
use tjiftjaf.Packet.Publish.Verified.{publish-Readable}
use tjiftjaf.Server.Session.Opens.{acceptance, opened, on_new_connection-connect}
use tjiftjaf.Server.Table.{register}
use tjiftjaf.Server.Session.{failed, run_loop, on_new_connection, server_error, io_error}
use tjiftjaf.Packet.ConnectFlags
use tjiftjaf.Examples.Session.{ab_connect, wish, note, note_body}

-- The CONNECT of the client ab, which then closes the connection.
abbrev connect_body : Bytes
connect_body = 0 ∷ 4 ∷ 77 ∷ 81 ∷ 84 ∷ 84 ∷ 4 ∷ 2 ∷ 0 ∷ 60 ∷ 0 ∷ 2 ∷ 97 ∷ 98 ∷ []

connect_framed : Packet.try_from (frame 16 connect_body) ≡ ok (Packet.connect ab_connect)
unfolding Packet.try_from Connect.try_from groups packet_type_try_from Connect.verify
    Connect.verify_header try_header slice decode_packet_type packet_type_eq check_length
    packet_length Connect.verify_variable_header Connect.try_variable_header
    try_offset_variable_header Decode.utf8 Decode.bytes from_utf8 is_utf8 bytes_eq slice_from
    Connect.verify_payload Frame.try_payload Frame.try_offset_payload Connect.try_client_id
    Connect.try_connect_flags Connect.try_will Connect.try_username Connect.try_password
    Decode.variable_length_n Decode.u16 ConnectFlags.will_qos qos_try_from
connect_framed = refl

on_new_connection-connect_example :
    (id : Bytes) × (Connect.client_id ab_connect ≡ ok id)
    × (on_new_connection {Sender = ℕ} (frame 16 connect_body ++ []) 3 true true [] ≡ (
        run_loop (opened ab_connect [] (acceptance ∷ []) (register id 3 ∷ [])) [] >>= λ end.
        ok (some (end.0), end.1)))
    × (on_new_connection {Sender = ℕ} (frame 16 connect_body ++ []) 3 false true []
        ≡ ok (some (opened ab_connect [] (acceptance ∷ []) []), failed server_error))
    × ((funnel_open : Bool)
        → on_new_connection {Sender = ℕ} (frame 16 connect_body ++ []) 3 funnel_open false []
          ≡ ok (some (opened ab_connect [] [] []), failed io_error))
on_new_connection-connect_example =
    on_new_connection-connect 16 connect_body [] ab_connect 3 [] (omega arith) connect_framed

connect-Readable_example : ConnectVerified.Readable ab_connect
connect-Readable_example =
    connect-Readable (frame 16 connect_body) ab_connect
      (try_from-connect (frame 16 connect_body) ab_connect connect_framed)

wish_decoded : Subscribe.try_from (130 ∷ 7 ∷ 0 ∷ 9 ∷ 0 ∷ 2 ∷ 97 ∷ 98 ∷ 1 ∷ []) ≡ ok wish
unfolding Subscribe.try_from Subscribe.verify Subscribe.verify_header try_header slice
    decode_packet_type packet_type_try_from packet_type_eq check_length packet_length try_two_bytes
    try_offset_variable_header Subscribe.try_topics Frame.try_payload Frame.try_offset_payload
    Topics.collect Topics.collect_loop Subscribe.topic_at slice_from Decode.utf8 Decode.bytes
    from_utf8 is_utf8 qos_try_from
wish_decoded = refl

subscribe-Readable_example : SubscribeVerified.Readable wish
subscribe-Readable_example =
    subscribe-Readable (130 ∷ 7 ∷ 0 ∷ 9 ∷ 0 ∷ 2 ∷ 97 ∷ 98 ∷ 1 ∷ []) wish wish_decoded

note_decoded : Publish.try_from (48 ∷ 5 ∷ note_body) ≡ ok note
unfolding Publish.try_from Publish.verify Publish.verify_header try_header slice decode_packet_type
    packet_type_try_from packet_type_eq check_length packet_length Publish.try_topic
    Publish.try_variable_header try_offset_variable_header slice_from Decode.utf8 Decode.bytes
    from_utf8 is_utf8 Publish.try_qos Decode.u16 packet_type_code qos_try_from
    Publish.try_packet_identifier
note_decoded = refl

publish-Readable_example : PublishVerified.Readable note
publish-Readable_example = publish-Readable (48 ∷ 5 ∷ note_body) note note_decoded

-- ===== src/Examples/Server.antt =====
-- The server at concrete streams, topics and messages.
use tjiftjaf.Prelude.{
  ℕ, Bool, true, ◌==◌, ◌≢◌, ◌≡◌, ◌↔◌, refl, arith, List, [], ◌∷◌, ◌++◌, none, some,
}
use tjiftjaf.Result.{ok}
use tjiftjaf.Rust.{Bytes, bytes_eq, slice, slice_from}
use tjiftjaf.Rust.Utf8.{is_utf8, from_utf8}
use tjiftjaf.Decode
use tjiftjaf.Decode.{packet_length}
use tjiftjaf.Kinds.{qos_try_from}
use tjiftjaf.Frame.{try_header, try_offset_variable_header}
use tjiftjaf.Frame.Layout.{frame}
use tjiftjaf.Packet
use tjiftjaf.Packet.{Packet}
use tjiftjaf.Packet.Publish
use tjiftjaf.Server.{read_packet}
use tjiftjaf.Server.Read.{read_packet-frame}
use tjiftjaf.Server.Stop.{read_packet-ne-none}
use tjiftjaf.Server.Topic.{does_topic_match_subscription, match_segments, split, slash}
use tjiftjaf.Server.Topic.Segments.{Matches, does_topic_match_iff, does_topic_match_hash}
use tjiftjaf.Server.Table.{
  Subscriber, Message, register, packet, on_publish, handle_client_message, handle_messages,
  addressed,
}
use tjiftjaf.Server.Table.Deliver.{Distinct, filter, stays, reached, senders, on_publish_lem}
use tjiftjaf.Server.Table.Subscriptions.{lookup, history}
use tjiftjaf.Server.Table.History.{handle_messages-history}

read_packet-frame_example :
    read_packet (frame 64 (0 ∷ 7 ∷ []) ++ (9 ∷ []))
    ≡ some (Packet.try_from (frame 64 (0 ∷ 7 ∷ [])), 9 ∷ [])
read_packet-frame_example = read_packet-frame 64 (0 ∷ 7 ∷ []) (9 ∷ []) (omega arith)

read_packet-ne-none_example : read_packet (64 ∷ 128 ∷ []) ≢ none
read_packet-ne-none_example = read_packet-ne-none (64 ∷ 128 ∷ [])

-- The filter a/+ and the topic a/b.
abbrev a_plus : Bytes
a_plus = 97 ∷ 47 ∷ 43 ∷ []

abbrev a_b : Bytes
a_b = 97 ∷ 47 ∷ 98 ∷ []

does_topic_match_iff_example :
    (does_topic_match_subscription a_plus a_b ≡ true)
    ↔ Matches (split slash a_plus) (split slash a_b)
does_topic_match_iff_example = does_topic_match_iff a_plus a_b refl

-- The filter a/#.
abbrev a_hash : Bytes
a_hash = 97 ∷ 47 ∷ 35 ∷ []

does_topic_match_hash_example :
    (does_topic_match_subscription a_hash a_b ≡ true)
    ↔ ((rest : Bytes) × (a_b ≡ (97 ∷ 47 ∷ []) ++ rest))
does_topic_match_hash_example = does_topic_match_hash (97 ∷ 47 ∷ []) [] a_b refl

-- A message on a/b, for a client that listens and one that is gone.
abbrev note_on_a_b : Publish.Publish
note_on_a_b = record { inner = record { inner = 48 ∷ 6 ∷ 0 ∷ 3 ∷ 97 ∷ 47 ∷ 98 ∷ 1 ∷ [] } }

note-topic : Publish.topic note_on_a_b ≡ ok a_b
unfolding Publish.try_topic Publish.try_variable_header Publish.try_qos try_offset_variable_header
    try_header slice slice_from Decode.utf8 Decode.bytes is_utf8 from_utf8 qos_try_from
note-topic = refl

abbrev clients : List (Subscriber ℕ)
clients =
    record { client_id = 1 ∷ []; sender = 1; topics = a_plus ∷ [] }
    ∷ record { client_id = 2 ∷ []; sender = 2; topics = a_plus ∷ [] }
    ∷ []

clients-Distinct : Distinct clients
unfolding bytes_eq
clients-Distinct = (refl, (refl, tt))

-- A channel that is open for the first client only.
abbrev first_only : ℕ → Bool
first_only n = n == 1

on_publish_lem_example :
    on_publish first_only note_on_a_b clients
    ≡ ok (
      filter (stays first_only a_b) clients,
      addressed (Packet.publish note_on_a_b) (senders (filter (reached first_only a_b) clients)),
    )
on_publish_lem_example =
    on_publish_lem first_only a_b note_on_a_b clients note-topic clients-Distinct

-- The client 2 connects again.
abbrev again : Message ℕ
again = register (2 ∷ []) 3

abbrev clients_again : List (Subscriber ℕ)
clients_again =
    record { client_id = 1 ∷ []; sender = 1; topics = a_plus ∷ [] }
    ∷ record { client_id = 2 ∷ []; sender = 3; topics = [] }
    ∷ []

registered : handle_client_message first_only again clients ≡ ok (clients_again, [])
unfolding handle_client_message bytes_eq
registered = refl

-- It connects again, and a message on a/b reaches the client 1 only.
abbrev conversation : List ((ℕ → Bool) × Message ℕ)
conversation = (first_only, packet (2 ∷ []) (Packet.publish note_on_a_b)) ∷ (first_only, again) ∷ []

held :
    handle_messages conversation clients ≡ ok (clients_again, (1, Packet.publish note_on_a_b) ∷ [])
unfolding handle_messages handle_client_message on_publish bytes_eq does_topic_match_subscription
    match_segments
held = rw note-topic refl

handle_messages-history_example :
    Distinct clients_again
    × (lookup (2 ∷ []) clients_again ≡ history (2 ∷ []) conversation (lookup (2 ∷ []) clients))
handle_messages-history_example =
    handle_messages-history (2 ∷ []) conversation clients clients_again _ clients-Distinct held

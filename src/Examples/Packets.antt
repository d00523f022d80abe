-- ===== src/Examples/Packets.antt =====
-- Builders, decoders and the loops over topics at concrete packets.
use tjiftjaf.Prelude.{◌≡◌, refl, arith, [], ◌∷◌, ◌++◌}
use tjiftjaf.Result.{ok, panic}
use tjiftjaf.Rust.Utf8.{IsStr, is_utf8}
use tjiftjaf.Encode
use tjiftjaf.Encode.{remaining_length}
use tjiftjaf.Kinds.{
  packet_type_try_from, packet_type_eq, at_most_once_delivery, at_least_once_delivery,
}
use tjiftjaf.Packet
use tjiftjaf.Packet.{Packet}
use tjiftjaf.Packet.RoundTrip.{try_from-into_bytes}
use tjiftjaf.Packet.Ack
use tjiftjaf.Packet.Connect
use tjiftjaf.Packet.Connect.Build
use tjiftjaf.Packet.Connect.Codec as ConnectCodec
use tjiftjaf.Packet.Connect.Codec.{build_connect, build_password_alone, ShowsConnect}
use tjiftjaf.Packet.Connect.Consistent.{
  Consistent, new-Consistent, set_client_id-Consistent, set_username-Consistent,
  set_password-Consistent,
}
use tjiftjaf.Packet.Publish
use tjiftjaf.Packet.Publish.Codec as PublishCodec
use tjiftjaf.Packet.Publish.Codec.{build_publish, ShowsPublish}
use tjiftjaf.Packet.Subscribe
use tjiftjaf.Packet.Subscribe.Codec.{build_subscribe}
use tjiftjaf.Packet.Unsubscribe
use tjiftjaf.Packet.Unsubscribe.Codec.{build_unsubscribe}
use tjiftjaf.Examples.{puback_bytes, puback, ab, ab-IsStr}

puback_decoded : Packet.try_from puback_bytes ≡ ok puback
unfolding Packet.try_from Ack.try_from_as Ack.try_from packet_type_try_from packet_type_eq
    Ack.packet_type
puback_decoded = refl

try_from-into_bytes_example : Packet.into_bytes puback ≡ puback_bytes
try_from-into_bytes_example = try_from-into_bytes puback_bytes puback puback_decoded

empty-IsStr : IsStr []
unfolding is_utf8
empty-IsStr = refl

abbrev login : Build.Builder
login = Build.set_password (Build.set_username (Build.set_client_id Build.new ab) ab) (1 ∷ 2 ∷ [])

login-Consistent : Consistent login at_most_once_delivery
login-Consistent =
    let named = set_client_id-Consistent new-Consistent ab in
    let known = set_username-Consistent {b = Build.set_client_id Build.new ab} named ab in
    set_password-Consistent {b = Build.set_username (Build.set_client_id Build.new ab) ab} known
      (1 ∷ 2 ∷ [])

login-Fits : ConnectCodec.Fits login
unfolding Encode.utf8 Encode.bytes
login-Fits = record {
  client_id_str = ab-IsStr;
  topic_str = tt;
  username_str = ab-IsStr;
  small = (omega arith, (omega arith, (omega arith, tt)));
  keep_alive_small = omega arith;
  body_small = omega arith;
}

build_connect_example :
    (p : Connect.Connect) × (Build.build login ≡ ok p)
    × (Connect.try_from (Connect.into_bytes p) ≡ ok p)
    × ShowsConnect login at_most_once_delivery p
build_connect_example =
    build_connect login at_most_once_delivery login-Consistent login-Fits (λ e. cc)

abbrev password_only : Build.Builder
password_only = Build.set_password Build.new (1 ∷ [])

password_only-Fits : ConnectCodec.Fits password_only
unfolding Encode.utf8 Encode.bytes
password_only-Fits = record {
  client_id_str = empty-IsStr;
  topic_str = tt;
  username_str = tt;
  small = (omega arith, tt);
  keep_alive_small = omega arith;
  body_small = omega arith;
}

build_password_alone_example : Build.build password_only ≡ panic
build_password_alone_example =
    build_password_alone password_only at_most_once_delivery (1 ∷ [])
      (set_password-Consistent {b = Build.new} new-Consistent (1 ∷ [])) password_only-Fits refl refl

-- A message with QoS 1.
abbrev message : Publish.Builder
message = Publish.set_qos (Publish.new ab (1 ∷ 2 ∷ 3 ∷ [])) at_least_once_delivery

message-Fits : PublishCodec.Fits message 300
unfolding Publish.variable_header_of Encode.utf8
message-Fits = record {
  topic_str = ab-IsStr;
  topic_small = omega arith;
  id_small = omega arith;
  body_small = omega arith;
}

build_publish_example :
    (p : Publish.Publish) × (Publish.build message 300 ≡ ok p)
    × (Publish.try_from (Publish.into_bytes p) ≡ ok p)
    × ShowsPublish message 300 p
build_publish_example = build_publish message 300 message-Fits

abbrev two_topics : Subscribe.Builder
two_topics =
    Subscribe.add_topic (Subscribe.new 9 (ab, at_least_once_delivery))
      (ab ++ ab, at_most_once_delivery)

build_subscribe_example :
    (p : Subscribe.Subscribe) × (Subscribe.build two_topics ≡ ok p)
    × (Subscribe.try_from (Subscribe.into_bytes p) ≡ ok p)
    × (Subscribe.packet_identifier p ≡ ok 9)
    × (Subscribe.all_topics p
        ≡ ok ((ab, at_least_once_delivery) ∷ (ab ++ ab, at_most_once_delivery) ∷ []))
unfolding is_utf8 Subscribe.topic_bytes Encode.utf8
build_subscribe_example =
    build_subscribe two_topics (omega arith) (omega arith)
      ((refl, omega arith), ((refl, omega arith), tt)) (omega arith)

abbrev two_filters : Unsubscribe.Builder
two_filters = Unsubscribe.add_topic (Unsubscribe.new 9 ab) (ab ++ ab)

build_unsubscribe_example :
    (p : Unsubscribe.Unsubscribe) × (Unsubscribe.build two_filters ≡ ok p)
    × (Unsubscribe.try_from (Unsubscribe.into_bytes p) ≡ ok p)
    × (Unsubscribe.packet_identifier p ≡ ok 9)
    × (Unsubscribe.all_topics p ≡ ok (ab ∷ (ab ++ ab) ∷ []))
unfolding is_utf8 Unsubscribe.topic_bytes Encode.utf8
build_unsubscribe_example =
    build_unsubscribe two_filters (omega arith) (omega arith)
      ((refl, omega arith), ((refl, omega arith), tt)) (omega arith)

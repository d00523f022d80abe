-- ===== src/Examples/Tasks.antt =====
-- The server at three messages: the client ab registers, subscribes to ab and publishes on it.
use tjiftjaf.Prelude.{ℕ, Bool, true, ◌≡◌, refl, arith, List, [], ◌∷◌, All}
use tjiftjaf.Result.{ok}
use tjiftjaf.Rust.{bytes_eq}
use tjiftjaf.Packet.{Packet}
use tjiftjaf.Server.Topic.{does_topic_match_subscription, match_segments}
use tjiftjaf.Server.Table.{
  Subscriber, Message, register, packet, on_subscribe, on_publish, handle_client_message,
}
use tjiftjaf.Server.Tasks.{State, Run, begin, receive, handle}
use tjiftjaf.Server.Tasks.Published.{Published, Run-Published}
use tjiftjaf.Examples.{ab}
use tjiftjaf.Examples.Session.{wish, wish-topics, note, topic_of_note}

abbrev open_all : ℕ → Bool
open_all _ = true

abbrev registers : Message ℕ
registers = register ab 1

abbrev subscribes : Message ℕ
subscribes = packet ab (Packet.subscribe wish)

abbrev publishes : Message ℕ
publishes = packet ab (Packet.publish note)

abbrev fresh_table : List (Subscriber ℕ)
fresh_table = record { client_id = ab; sender = 1; topics = [] } ∷ []

abbrev known_table : List (Subscriber ℕ)
known_table = record { client_id = ab; sender = 1; topics = ab ∷ [] } ∷ []

registered : handle_client_message open_all registers [] ≡ ok (fresh_table, [])
unfolding handle_client_message
registered = refl

subscribed : handle_client_message open_all subscribes fresh_table ≡ ok (known_table, [])
unfolding handle_client_message on_subscribe bytes_eq
subscribed = rw wish-topics refl

published :
    handle_client_message open_all publishes known_table
    ≡ ok (known_table, (1, Packet.publish note) ∷ [])
unfolding handle_client_message on_publish bytes_eq does_topic_match_subscription match_segments
published = rw topic_of_note refl

abbrev done : State ℕ
done = record { queue = []; table = known_table; sent = (1, Packet.publish note) ∷ [] }

-- The second and the third message come while the first waits.
run : Run (registers ∷ subscribes ∷ publishes ∷ []) done
run =
    let waiting =
      receive (receive (receive begin registers (omega arith)) subscribes (omega arith)) publishes
        (omega arith) in
    let one =
      handle waiting open_all registers (subscribes ∷ publishes ∷ []) fresh_table [] refl
        registered in
    let two = handle one open_all subscribes (publishes ∷ []) known_table [] refl subscribed in
    handle two open_all publishes [] known_table ((1, Packet.publish note) ∷ []) refl published

Run-Published_example :
    All (Published (registers ∷ subscribes ∷ publishes ∷ [])) ((1, Packet.publish note) ∷ [])
Run-Published_example = Run-Published run

-- ===== src/Server/Table/Subscriptions.antt =====
-- src/aio/server.rs: the table of the server, as each client sees it: the sender and the topics
-- that belong to its name, if any.
use tjiftjaf.Prelude.{
  ◌≡◌, refl, sym, ◌∙◌, arith, ◌||◌, not, if◌then◌else◌, Bool, true, false, Bool-cases, inl, inr,
  List, [], ◌∷◌, ◌++◌, Option, none, some,
}
use tjiftjaf.Result.{Result, ok}
use tjiftjaf.Rust.{Bytes, bytes_eq}
use tjiftjaf.Rust.Slices.{bytes_eq_iff}
use tjiftjaf.Kinds.{QoS}
use tjiftjaf.Packet.{Packet}
use tjiftjaf.Packet.Subscribe
use tjiftjaf.Packet.Publish
use tjiftjaf.Packet.Publish.{Publish}
use tjiftjaf.Server.Table.{
  Subscriber, Message, register, packet, insert, has_client, push_topics, any_match, names,
}
use tjiftjaf.Server.Table.Deliver.{Distinct, filter, stays, has_client-filter}

-- What a packet that was verified returns, and nothing for others.
abbrev pub asked : Result (List (Bytes × QoS)) → List Bytes
asked (ok topics) = names topics
asked _ = []

-- Of two names that differ, at most one is a third.
apart : (a b c : Bytes) → bytes_eq a b ≡ false → bytes_eq a c ≡ true → bytes_eq b c ≡ false
apart a b c e h = elim (Bool-cases (bytes_eq b c)) [
  | inr k ↦ k
  | inl k ↦
      let same : a ≡ b = (bytes_eq_iff a c).0 h ∙ sym ((bytes_eq_iff b c).0 k) in
      cc (e, (bytes_eq_iff a b).1 same)
]

-- What the table holds for a client.
abbrev pub Entry : Type 0 → Type 0
Entry Sender = Option (Sender × List Bytes)

module _ {Sender : Type 0} where
  abbrev pub lookup : Bytes → List (Subscriber Sender) → Entry Sender
  lookup id [] = none
  lookup id (t ∷ table) =
      let rest = lookup id table in
      if bytes_eq t.client_id id then some (t.sender, t.topics) else rest

  -- A subscription adds topics to those of a client that is registered.
  abbrev pub extend : List Bytes → Entry Sender → Entry Sender
  extend topics none = none
  extend topics (some (sender, old)) = some (sender, old ++ topics)

  -- A client is dropped when a message that it asked for cannot be delivered.
  abbrev pub keep : (Sender → Bool) → Result Bytes → Entry Sender → Entry Sender
  keep delivers (ok needle) (some (sender, topics)) =
      if not (any_match topics needle) || delivers sender then some (sender, topics) else none
  keep delivers _ entry = entry

  -- The subscriptions of the client `id` after a message, from those before it.
  abbrev pub after : Bytes → (Sender → Bool) × Message Sender → Entry Sender → Entry Sender
  after id (_, register name sender) entry = if bytes_eq name id then some (sender, []) else entry
  after id (_, packet name (Packet.subscribe p)) entry =
      if bytes_eq name id then extend (asked (Subscribe.all_topics p)) entry else entry
  after id (delivers, packet name (Packet.publish p)) entry = keep delivers (Publish.topic p) entry
  after id (_, packet name _) entry = entry

  abbrev pub history : Bytes → List ((Sender → Bool) × Message Sender) → Entry Sender → Entry Sender
  history id [] entry = entry
  history id (message ∷ messages) entry = history id messages (after id message entry)

  pub lookup-insert :
      (id : Bytes) (s : Subscriber Sender) (table : List (Subscriber Sender))
      → lookup id (insert s table)
        ≡ (if bytes_eq s.client_id id then some (s.sender, s.topics) else lookup id table)
  lookup-insert id s [] = refl
  lookup-insert id s (t ∷ table) = elim (Bool-cases (bytes_eq t.client_id s.client_id)) [
    | inl e ↦ rw (e, (bytes_eq_iff t.client_id s.client_id).0 e) (ground arith)
    | inr e ↦
        rw (e, lookup-insert id s table)
          (elim (Bool-cases (bytes_eq t.client_id id)) [
            | inl h ↦ rw (h, apart t.client_id s.client_id id e h) refl
            | inr h ↦ rw h refl
          ])
  ]

  pub lookup-push_topics :
      (id name : Bytes) (topics : List Bytes) (table : List (Subscriber Sender))
      → lookup id (push_topics name topics table)
        ≡ (if bytes_eq name id then extend topics (lookup id table) else lookup id table)
  lookup-push_topics id name topics [] = ground arith
  lookup-push_topics id name topics (t ∷ table) = elim (Bool-cases (bytes_eq t.client_id name)) [
    | inl e ↦ rw (e, (bytes_eq_iff t.client_id name).0 e) (ground arith)
    | inr e ↦
        rw (e, lookup-push_topics id name topics table)
          (elim (Bool-cases (bytes_eq t.client_id id)) [
            | inl h ↦ rw (h, apart t.client_id name id e h) refl
            | inr h ↦ rw h refl
          ])
  ]

  pub lookup-none :
      (id : Bytes) (table : List (Subscriber Sender))
      → has_client id table ≡ false
      → lookup id table ≡ none
  lookup-none id [] h = refl
  lookup-none id (t ∷ table) h = elim (Bool-cases (bytes_eq t.client_id id)) [
    | inl e ↦ absurd (ground (arith, h))
    | inr e ↦ rw e (lookup-none id table (ground (arith, h)))
  ]

  pub lookup-filter :
      (id : Bytes) (delivers : Sender → Bool) (needle : Bytes) (table : List (Subscriber Sender))
      → Distinct table
      → lookup id (filter (stays delivers needle) table)
        ≡ keep delivers (ok needle) (lookup id table)
  lookup-filter id delivers needle [] h = refl
  lookup-filter id delivers needle (t ∷ table) h =
      let later = lookup-filter id delivers needle table h.1 in
      elim (Bool-cases (bytes_eq t.client_id id)) [
        | inl e ↦
            let gone : lookup id (filter (stays delivers needle) table) ≡ none = lookup-none id _ (
              has_client-filter id (stays delivers needle) table
                (rw ((bytes_eq_iff t.client_id id).0 e) at h.0)) in
            elim (Bool-cases (stays delivers needle t)) [
              | inl k ↦ rw (k, e, k) refl
              | inr k ↦ rw (k, e, k) gone
            ]
        | inr e ↦ elim (Bool-cases (stays delivers needle t)) [
          | inl k ↦ rw (k, e) later
          | inr k ↦ rw (k, e) later
        ]
      ]

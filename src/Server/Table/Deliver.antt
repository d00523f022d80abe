-- ===== src/Server/Table/Deliver.antt =====
-- src/aio/server.rs: who gets a message, and which subscriptions are left.
use tjiftjaf.Prelude.{
  ◌≡◌, refl, sym, ap, ◌∙◌, arith, ◌&&◌, ◌||◌, not, if◌then◌else◌, Bool, true, false, Bool-cases,
  inl, inr, List, [], ◌∷◌, All,
}
use tjiftjaf.Result.{ok}
use tjiftjaf.Rust.{Bytes, bytes_eq}
use tjiftjaf.Rust.Slices.{bytes_eq_iff}
use tjiftjaf.Packet.{Packet}
use tjiftjaf.Packet.Publish
use tjiftjaf.Packet.Publish.{Publish}
use tjiftjaf.Server.Table.{
  Subscriber, insert, has_client, push_topics, remove, any_match, deliver, remove_all, addressed,
  on_publish,
}

bytes_eq_refl : (a : Bytes) → bytes_eq a a ≡ true
bytes_eq_refl a = (bytes_eq_iff a a).1 refl

bytes_eq_sym : (a b : Bytes) → bytes_eq a b ≡ bytes_eq b a
bytes_eq_sym a b = elim (Bool-cases (bytes_eq a b)) [
  | inl h ↦ h ∙ sym ((bytes_eq_iff b a).1 (sym ((bytes_eq_iff a b).0 h)))
  | inr h ↦ elim (Bool-cases (bytes_eq b a)) [
    | inl k ↦ (bytes_eq_iff a b).1 (sym ((bytes_eq_iff b a).0 k)) ∙ sym k
    | inr k ↦ h ∙ sym k
  ]
]

abbrev pub filter {ℓ} : {A : Type ℓ} → (A → Bool) → List A → List A
filter p [] = []
filter p (x ∷ xs) = if p x then x ∷ filter p xs else filter p xs

module _ {Sender : Type 0} where
  -- No client has two entries.
  abbrev pub Distinct : List (Subscriber Sender) → Type 0
  Distinct [] = Unit
  Distinct (t ∷ table) = (has_client t.client_id table ≡ false) × Distinct table

  abbrev pub senders : List (Subscriber Sender) → List Sender
  senders [] = []
  senders (t ∷ table) = t.sender ∷ senders table

  -- Whom a message on `needle` reaches, and who stays: all but those whom it does not reach.
  abbrev pub reached : (Sender → Bool) → Bytes → Subscriber Sender → Bool
  reached delivers needle t = any_match t.topics needle && delivers t.sender

  abbrev pub stays : (Sender → Bool) → Bytes → Subscriber Sender → Bool
  stays delivers needle t = not (any_match t.topics needle) || delivers t.sender

  remove_head :
      (t : Subscriber Sender) (table : List (Subscriber Sender))
      → remove t.client_id (t ∷ table) ≡ table
  remove_head t table =
      ap (λ (b : Bool). if b then table else t ∷ remove t.client_id table)
        (bytes_eq_refl t.client_id)

  remove_all-skip :
      (t : Subscriber Sender) (ids : List Bytes) (table : List (Subscriber Sender))
      → All (λ id. bytes_eq t.client_id id ≡ false) ids
      → remove_all ids (t ∷ table) ≡ t ∷ remove_all ids table
  remove_all-skip t [] table a = refl
  remove_all-skip t (id ∷ ids) table a = rw a.0 (remove_all-skip t ids (remove id table) a.1)

  module _ (delivers : Sender → Bool) (needle : Bytes) where
    disconnected_others :
        (k : Bytes) (table : List (Subscriber Sender))
        → has_client k table ≡ false
        → All (λ id. bytes_eq k id ≡ false) (deliver delivers needle table).1
    disconnected_others k [] h = tt
    disconnected_others k (t ∷ table) h =
        let other : bytes_eq k t.client_id ≡ false =
          bytes_eq_sym k t.client_id ∙ ground (arith, h) in
        let later = disconnected_others k table (ground (arith, h)) in
        elim (Bool-cases (any_match t.topics needle)) [
          | inr m ↦ rw m later
          | inl m ↦ elim (Bool-cases (delivers t.sender)) [
            | inl d ↦ rw (m, d) later
            | inr d ↦ rw (m, d) (other, later)
          ]
        ]

    deliver-senders :
        (table : List (Subscriber Sender))
        → (deliver delivers needle table).0 ≡ senders (filter (reached delivers needle) table)
    deliver-senders [] = refl
    deliver-senders (t ∷ table) = elim (Bool-cases (any_match t.topics needle)) [
      | inr m ↦ rw m (deliver-senders table)
      | inl m ↦ elim (Bool-cases (delivers t.sender)) [
        | inl d ↦ rw (m, d) (ap (◌∷◌ t.sender) (deliver-senders table))
        | inr d ↦ rw (m, d) (deliver-senders table)
      ]
    ]

    remove_all-deliver :
        (table : List (Subscriber Sender))
        → Distinct table
        → remove_all (deliver delivers needle table).1 table ≡ filter (stays delivers needle) table
    remove_all-deliver [] h = refl
    remove_all-deliver (t ∷ table) h =
        let others = disconnected_others t.client_id table h.0 in
        let later = remove_all-deliver table h.1 in
        let kept =
          remove_all-skip t (deliver delivers needle table).1 table others ∙ ap (◌∷◌ t) later in
        elim (Bool-cases (any_match t.topics needle)) [
          | inr m ↦ rw m kept
          | inl m ↦ elim (Bool-cases (delivers t.sender)) [
            | inl d ↦ rw (m, d) kept
            | inr d ↦
                rw (m, d)
                  (ap (remove_all (deliver delivers needle table).1) (remove_head t table) ∙ later)
          ]
        ]

    -- A PUBLISH whose topic is read, in a table where no client has two entries, is sent to the
    -- connected clients with a matching subscription and to no one else, and removes the
    -- disconnected ones of these and no one else.
    pub on_publish_lem :
        (publish : Publish) (table : List (Subscriber Sender))
        → Publish.topic publish ≡ ok needle
        → Distinct table
        → on_publish delivers publish table
          ≡ ok (
            filter (stays delivers needle) table,
            addressed (Packet.publish publish) (senders (filter (reached delivers needle) table)),
          )
    unfolding on_publish
    on_publish_lem publish table e h =
        rw (e, remove_all-deliver table h, deliver-senders table) refl

  -- What becomes of the clients that have an entry.
  has_client-insert :
      (k : Bytes) (s : Subscriber Sender) (table : List (Subscriber Sender))
      → has_client k table ≡ false
      → bytes_eq s.client_id k ≡ false
      → has_client k (insert s table) ≡ false
  has_client-insert k s [] h other = rw other
  has_client-insert k s (t ∷ table) h other = elim (Bool-cases (bytes_eq t.client_id s.client_id)) [
    | inl e ↦ rw (e, other) (ground (arith, h))
    | inr e ↦ rw e (ground (arith, h, has_client-insert k s table))
  ]

  has_client-push_topics :
      (k id : Bytes) (topics : List Bytes) (table : List (Subscriber Sender))
      → has_client k (push_topics id topics table) ≡ has_client k table
  has_client-push_topics k id topics [] = refl
  has_client-push_topics k id topics (t ∷ table) = elim (Bool-cases (bytes_eq t.client_id id)) [
    | inl e ↦ rw e refl
    | inr e ↦
        rw e (
          ap (λ (b : Bool). bytes_eq t.client_id k || b) (has_client-push_topics k id topics table))
  ]

  pub has_client-filter :
      (k : Bytes) (p : Subscriber Sender → Bool) (table : List (Subscriber Sender))
      → has_client k table ≡ false
      → has_client k (filter p table) ≡ false
  has_client-filter k p [] h = refl
  has_client-filter k p (t ∷ table) h = elim (Bool-cases (p t)) [
    | inl e ↦ rw e (ground (arith, h, has_client-filter k p table))
    | inr e ↦ rw e (ground (arith, h, has_client-filter k p table))
  ]

  pub insert-Distinct :
      (s : Subscriber Sender) (table : List (Subscriber Sender))
      → Distinct table
      → Distinct (insert s table)
  insert-Distinct s [] h = (refl, tt)
  insert-Distinct s (t ∷ table) h = elim (Bool-cases (bytes_eq t.client_id s.client_id)) [
    | inl e ↦ rw e (rw ((bytes_eq_iff t.client_id s.client_id).0 e) at h.0, h.1)
    | inr e ↦ rw e (
      has_client-insert t.client_id s table h.0 (bytes_eq_sym s.client_id t.client_id ∙ e),
      insert-Distinct s table h.1,
    )
  ]

  pub push_topics-Distinct :
      (id : Bytes) (topics : List Bytes) (table : List (Subscriber Sender))
      → Distinct table
      → Distinct (push_topics id topics table)
  push_topics-Distinct id topics [] h = tt
  push_topics-Distinct id topics (t ∷ table) h = elim (Bool-cases (bytes_eq t.client_id id)) [
    | inl e ↦ rw e h
    | inr e ↦ rw e (
      has_client-push_topics t.client_id id topics table ∙ h.0,
      push_topics-Distinct id topics table h.1,
    )
  ]

  pub filter-Distinct :
      (p : Subscriber Sender → Bool) (table : List (Subscriber Sender))
      → Distinct table
      → Distinct (filter p table)
  filter-Distinct p [] h = tt
  filter-Distinct p (t ∷ table) h = elim (Bool-cases (p t)) [
    | inl e ↦ rw e (has_client-filter t.client_id p table h.0, filter-Distinct p table h.1)
    | inr e ↦ rw e (filter-Distinct p table h.1)
  ]

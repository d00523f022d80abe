-- ===== src/Server/Tasks.antt =====
-- src/aio/server.rs: the two tasks of `Server::run`, with the channel between them. The sessions
-- of the one task send messages, and the other task handles them one at a time. The channel is
-- one of `async_channel`: a queue that hands the messages over in the order in which they were
-- sent, and makes a session wait where it holds 100. Sessions and messages come in any order.
pub mod Published
pub mod Entries
use tjiftjaf.Prelude.{
  ℕ, ◌+◌, ◌≤◌, ◌<◌, ◌≡◌, refl, sym, ap, ◌∙◌, arith, Bool, List, [], ◌∷◌, ◌++◌, append_assoc,
  append-nil, length, length-append,
}
use tjiftjaf.Result.{Result, ok, ◌>>=◌, >>=-eq-ok}
use tjiftjaf.Packet.{Packet}
use tjiftjaf.Server.Table.{Subscriber, Message, handle_client_message, handle_messages}
use tjiftjaf.Server.Table.Deliver.{Distinct}
use tjiftjaf.Server.Table.Invariant.{handle_client_message-Distinct}

abbrev pub capacity : ℕ
capacity = 100

-- The messages in the channel, the subscriptions, and the packets that were sent to clients.
pub record State (Sender : Type 0) : Type 0 where
  pub queue : List (Message Sender)
  pub table : List (Subscriber Sender)
  pub sent : List (Sender × Packet)

module _ {Sender : Type 0} where
  abbrev pub start : State Sender
  start = record { queue = []; table = []; sent = [] }

  -- The states that the server comes to, with the messages that the sessions have sent.
  pub data Run : List (Message Sender) → State Sender → Type 0 where
    begin : Run [] start
    receive :
        {messages : List (Message Sender)} {s : State Sender}
        → Run messages s
        → (message : Message Sender) → length s.queue < capacity
        → Run (messages ++ (message ∷ [])) (record s { queue = s.queue ++ (message ∷ []) })
    handle :
        {messages : List (Message Sender)} {s : State Sender}
        → Run messages s
        → (delivers : Sender → Bool) (message : Message Sender) (queue : List (Message Sender))
          (table : List (Subscriber Sender)) (out : List (Sender × Packet))
        → s.queue ≡ message ∷ queue
        → handle_client_message delivers message s.table ≡ ok (table, out)
        → Run messages (record { queue = queue; table = table; sent = s.sent ++ out })

  abbrev pub messages_of : List ((Sender → Bool) × Message Sender) → List (Message Sender)
  messages_of [] = []
  messages_of ((_, message) ∷ messages) = message ∷ messages_of messages

  messages_of-append :
      (done more : List ((Sender → Bool) × Message Sender))
      → messages_of (done ++ more) ≡ messages_of done ++ messages_of more
  messages_of-append [] more = refl
  messages_of-append ((_, message) ∷ done) more = ap (◌∷◌ message) (messages_of-append done more)

  -- One more message behind those that were handled.
  handle_messages_snoc :
      (done : List ((Sender → Bool) × Message Sender)) (delivers : Sender → Bool)
      (message : Message Sender) (table next last : List (Subscriber Sender))
      (sent out : List (Sender × Packet))
      → handle_messages done table ≡ ok (next, sent)
      → handle_client_message delivers message next ≡ ok (last, out)
      → handle_messages (done ++ ((delivers, message) ∷ [])) table ≡ ok (last, sent ++ out)
  unfolding handle_messages
  handle_messages_snoc [] delivers message table next last sent out e e' =
      let same : table ≡ next = ground (arith, e) in
      let none_sent : [] ≡ sent = ground (arith, e) in
      rw (same, e', sym none_sent, append-nil out) refl
  handle_messages_snoc ((d, m) ∷ done) delivers message table next last sent out e e' =
      let ((middle, o1), e1, f1) = >>=-eq-ok (handle_client_message d m table) _ e in
      let ((next', o2), e2, f2) = >>=-eq-ok (handle_messages done middle) _ f1 in
      let same : next' ≡ next = ground (arith, f2) in
      let all_sent : o1 ++ o2 ≡ sent = ground (arith, f2) in
      let later =
        handle_messages_snoc done delivers message middle next last o2 out
          (e2 ∙ ap (λ (t : List (Subscriber Sender)). ok (t, o2)) same) e' in
      rw (e1, later, sym all_sent, append_assoc o1 o2 out) refl

  -- What the server has come to is what handling a first part of the messages gives.
  abbrev pub Handled : List (Message Sender) → State Sender → Type 0
  Handled messages s =
      (done : List ((Sender → Bool) × Message Sender)) × (messages_of done ++ s.queue ≡ messages)
      × (handle_messages done [] ≡ ok (s.table, s.sent))

  -- Wherever the server comes to, it has handled a first part of the messages in the order in which
  -- the sessions sent them, each once, and the others wait in the channel in that order, 100 at
  -- most: the table and the packets that were sent are those that the loop over the first part
  -- gives on an empty table. No client has two entries.
  pub Run-Handled :
      {messages : List (Message Sender)} {s : State Sender}
      → Run messages s
      → Handled messages s × (length s.queue ≤ capacity) × Distinct s.table
  unfolding handle_messages
  Run-Handled begin = (([], refl, refl), omega arith, tt)
  Run-Handled {s = s'} (receive {messages} {s} run message room) =
      let ((done, e, h), _, unique) = Run-Handled run in
      (
        (
          done,
          sym (append_assoc (messages_of done) s.queue (message ∷ []))
              ∙ ap (λ (l : List (Message Sender)). l ++ (message ∷ [])) e,
          h,
        ),
        omega (arith, room, length-append s.queue (message ∷ [])),
        unique,
      )
  Run-Handled (handle {messages} {s} run delivers message queue table out eq e) =
      let ((done, read, h), room, unique) = Run-Handled run in
      let next = done ++ ((delivers, message) ∷ []) in
      let order : messages_of next ++ queue ≡ messages =
        ap (λ (l : List (Message Sender)). l ++ queue)
          (messages_of-append done ((delivers, message) ∷ []))
        ∙ append_assoc (messages_of done) (message ∷ []) queue
        ∙ ap (◌++◌ (messages_of done)) (sym eq)
        ∙ read in
      (
        (next, order, handle_messages_snoc done delivers message [] s.table table s.sent out h e),
        ground (arith, ap length eq, room),
        handle_client_message-Distinct delivers message s.table table out unique e,
      )

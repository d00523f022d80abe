-- ===== src/Client/Blocking/Delivers.antt =====
-- src/blocking/mod.rs: a readable event delivers the frame that the broker sent.
use tjiftjaf.Prelude.{
  ℕ, zero, suc, ◌≤◌, ◌≡◌, ◌≢◌, refl, sym, ap, ◌∙◌, arith, true, Bool-cases, ltb, inl, ◌⊎◌, inr,
  Option, none, some, List, [], ◌∷◌, ◌++◌, append_assoc, length, length-append, take, drop,
}
use tjiftjaf.Result.{ok, >>=-eq-ok}
use tjiftjaf.Rust.{Bytes}
use tjiftjaf.Packet
use tjiftjaf.Packet.{Packet}
use tjiftjaf.Frame.Layout.{frame}
use tjiftjaf.Binding.{MqttBinding, start_of_header, try_decode, receive, pop}
use tjiftjaf.Binding.Receive.{receive-frame, Delivered}
use tjiftjaf.Binding.Rounds.{max_three, size, receive_more, receive_done, receive-none}
use tjiftjaf.Binding.Keeps.{ok_inj}
use tjiftjaf.Binding.Handshake.{pop_append}
use tjiftjaf.Client.Loop.{go_on}
use tjiftjaf.Client.Blocking.{Client, read_loop}

none-ne-some : {A : Type 0} {a : A} → none ≢ some a
none-ne-some e = cc

some_inj : {A : Type 0} {a a' : A} → some a ≡ some a' → a ≡ a'
some_inj e = cc

take_short : {A : Type 0} (n : ℕ) (xs ys : List A) → n ≤ length xs → take n (xs ++ ys) ≡ take n xs
take_short zero xs ys h = refl
take_short (suc n) [] ys h = absurd (omega arith)
take_short (suc n) (x ∷ xs) ys h = ap (λ (l : List _). x ∷ l) (take_short n xs ys (omega arith))

drop_short :
    {A : Type 0} (n : ℕ) (xs ys : List A) → n ≤ length xs → drop n (xs ++ ys) ≡ drop n xs ++ ys
drop_short zero xs ys h = refl
drop_short (suc n) [] ys h = absurd (omega arith)
drop_short (suc n) (x ∷ xs) ys h = drop_short n xs ys (omega arith)

drop_over : {A : Type 0} (n : ℕ) (xs : List A) → length xs ≤ n → drop n xs ≡ []
drop_over zero [] h = refl
drop_over zero (x ∷ xs) h = absurd (omega arith)
drop_over (suc n) [] h = refl
drop_over (suc n) (x ∷ xs) h = drop_over n xs (omega arith)

-- A round of `receive` that succeeds decodes nothing and goes on, or a packet and ends.
abbrev Step : ℕ → MqttBinding → Bytes → MqttBinding × Option Packet × Bytes → Type 0
Step rounds b stream y =
    (b1 : MqttBinding) × (((try_decode b (take (size b) stream) ≡ ok (b1, none))
        × (receive rounds b1 (drop (size b) stream) ≡ ok y))
      ⊎ ((q : Packet) × (try_decode b (take (size b) stream) ≡ ok (b1, some q))
          × (◌≡◌ {A = MqttBinding × Option Packet × Bytes} (b1, some q, drop (size b) stream) y)))

Step-option :
    (rounds : ℕ) (b b1 : MqttBinding) (stream : Bytes) (o : Option Packet)
    (y : MqttBinding × Option Packet × Bytes)
    → try_decode b (take (size b) stream) ≡ ok (b1, o)
    → receive (suc rounds) b stream ≡ ok y
    → Step rounds b stream y
Step-option rounds b b1 stream none y d e =
    (b1, inl (d, sym (receive_more rounds b b1 stream d) ∙ e))
Step-option rounds b b1 stream (some q) y d e =
    (b1, inr (q, d, ok_inj (sym (receive_done rounds b b1 stream q d) ∙ e)))

step :
    (rounds : ℕ) (b : MqttBinding) (stream : Bytes) (y : MqttBinding × Option Packet × Bytes)
    → receive (suc rounds) b stream ≡ ok y
    → Step rounds b stream y
unfolding receive
step rounds b stream y e =
    let ((b1, o), d, _) = >>=-eq-ok (try_decode b (take (size b) stream)) _ e in
    Step-option rounds b b1 stream o y d e

abbrev packet_of : MqttBinding × Option Packet × Bytes → Option Packet
packet_of y = y.1

abbrev binding_of : MqttBinding × Option Packet × Bytes → MqttBinding
binding_of y = y.0

abbrev rest_of : MqttBinding × Option Packet × Bytes → Bytes
rest_of y = y.2

-- A packet that is received at the end of a stream leaves no rest.
receive-nil :
    (rounds : ℕ) (b b' : MqttBinding) (p : Packet) (rest : Bytes)
    → receive rounds b [] ≡ ok (b', some p, rest)
    → rest ≡ []
receive-nil zero b b' p rest e =
    absurd (none-ne-some (ap packet_of (ok_inj (sym (receive-none b []) ∙ e))))
receive-nil (suc rounds) b b' p rest e =
    let gone : drop {A = ℕ} (size b) [] ≡ [] = drop_over (size b) [] (omega arith) in
    let (b1, s) = step rounds b [] (b', some p, rest) e in
    elim s [
      | inl (d, more) ↦ receive-nil rounds b1 b' p rest (rw gone at more)
      | inr (q, d, same) ↦ sym (ap rest_of same) ∙ gone
    ]

ends_in : (xs : Bytes) (x : ℕ) → xs ++ (x ∷ []) ≢ []
ends_in [] x e = cc
ends_in (y ∷ ys) x e = cc

front_of : (xs ys : Bytes) (x : ℕ) → xs ++ (x ∷ []) ≡ ys ++ (x ∷ []) → xs ≡ ys
front_of xs ys x e =
    let both = sym (pop_append xs x) ∙ ap pop e ∙ pop_append ys x in ground (arith, both)

-- The client that has told its handle of a packet.
abbrev pub told : Client → MqttBinding → Packet → Bytes → Client
told c b p rest = record {
  loop = record c.loop {
    binding = b;
    decoded = c.loop.decoded ++ (p ∷ []);
    forwarded = c.loop.forwarded ++ (p ∷ []);
  };
  stream = rest;
}

-- Where `receive` finds a packet with a byte to spare behind the stream, the loop of the client
-- finds it without that byte.
loop-receive :
    (rounds x : ℕ) (c : Client) (b' : MqttBinding) (p : Packet) (rest : Bytes)
    → receive rounds c.loop.binding (c.stream ++ (x ∷ [])) ≡ ok (b', some p, rest ++ (x ∷ []))
    → read_loop rounds c true ≡ ok (told c b' p rest, go_on)
unfolding read_loop
loop-receive zero x c b' p rest e =
    absurd (none-ne-some (ap packet_of (ok_inj (sym (receive-none c.loop.binding _) ∙ e))))
loop-receive (suc rounds) x c b' p rest e =
    let b : MqttBinding = c.loop.binding in
    let n : ℕ = size b in
    let y : MqttBinding × Option Packet × Bytes = (b', some p, rest ++ (x ∷ [])) in
    let (b1, s) = step rounds b (c.stream ++ (x ∷ [])) y e in
    elim (Bool-cases (ltb (length c.stream) n)) [
      | inl long ↦
          let one = length-append c.stream (x ∷ []) in
          let gone : drop n (c.stream ++ (x ∷ [])) ≡ [] =
            drop_over n _ (ground (arith, one, long)) in
          absurd (
            ends_in rest x (elim s [
              | inl (d, more) ↦ receive-nil rounds b1 b' p _ (rw gone at more)
              | inr (q, d, same) ↦ sym (ap rest_of same) ∙ gone
            ]))
      | inr fits ↦
          let le : n ≤ length c.stream = ground arith in
          let cut = take_short n c.stream (x ∷ []) le in
          let cut' = drop_short n c.stream (x ∷ []) le in
          elim s [
            | inl (d, more) ↦
                let c1 : Client = record {
                  loop = record c.loop { binding = b1 };
                  stream = drop n c.stream;
                } in
                rw (fits, rw cut at d) (loop-receive rounds x c1 b' p rest (rw cut' at more))
            | inr (q, d, same) ↦
                let gone = front_of (drop n c.stream) rest x (sym cut' ∙ ap rest_of same) in
                let out : read_loop (suc rounds) c true
                    ≡ ok (told c b1 q (drop n c.stream), go_on) =
                  rw (fits, rw cut at d) refl in
                let renamed : told c b1 q (drop n c.stream) ≡ told c b' p rest =
                  rw (ap binding_of same, some_inj (ap packet_of same), gone) refl in
                out ∙ ap (λ (l : Client). ok (l, go_on)) renamed
          ]
    ]

-- On a readable event, where the binding is at the start of a header and the broker has sent a
-- frame with a length of up to three bytes that `Packet::try_from` accepts, the loop ends within
-- three reads, whatever follows: the handle is told of the packet, if it still listens, with
-- nothing of what follows the frame consumed, and the queue is kept.
pub read_loop-frame :
    (c : Client) (first : ℕ) (body rest : Bytes) (p : Packet)
    → c.loop.binding.state ≡ start_of_header
    → c.stream ≡ frame first body ++ rest
    → length body ≤ max_three
    → Packet.try_from (frame first body) ≡ ok p
    → (b : MqttBinding) × (read_loop 3 c true ≡ ok (told c b p rest, go_on))
      × Delivered c.loop.binding b
read_loop-frame c first body rest p start sent fit e =
    let (b, received, d) =
      receive-frame c.loop.binding first body (rest ++ (0 ∷ [])) p start fit e in
    let stream : c.stream ++ (0 ∷ []) ≡ frame first body ++ (rest ++ (0 ∷ [])) =
      ap (λ (l : Bytes). l ++ (0 ∷ [])) sent ∙ append_assoc (frame first body) rest (0 ∷ []) in
    (b, loop-receive 3 0 c b p rest (rw stream received), d)

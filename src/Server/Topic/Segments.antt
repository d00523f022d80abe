-- ===== src/Server/Topic/Segments.antt =====
-- src/aio/server.rs: matching of topics, level by level and by prefix.
use tjiftjaf.Prelude.{
  ℕ, ◌≡◌, ◌↔◌, refl, sym, ap, ◌∙◌, arith, ◌==◌, ==-eq, ==-refl, true, false, Bool-cases, inl, inr,
  List, [], ◌∷◌, ◌++◌, All, none, some,
}
use tjiftjaf.Rust.{Bytes, bytes_eq}
use tjiftjaf.Rust.Slices.{bytes_eq_iff}
use tjiftjaf.Server.Topic.{
  hash, plus, slash, contains, split_once, starts_with, cons_head, split, match_segments,
  does_topic_match_subscription,
}

-- The levels of a filter against those of a topic: a `+` stands for any level.
pub data Matches : List Bytes → List Bytes → Type 0 where
  done : Matches [] []
  any :
      {filters segments : List Bytes} (segment : Bytes)
      → Matches filters segments
      → Matches ((plus ∷ []) ∷ filters) (segment ∷ segments)
  same :
      {filters segments : List Bytes} (segment : Bytes)
      → Matches filters segments
      → Matches (segment ∷ filters) (segment ∷ segments)

bytes_eq-true : {a b : Bytes} → bytes_eq a b ≡ true → a ≡ b
bytes_eq-true {a} {b} e = (bytes_eq_iff a b).0 e

bytes_eq_refl : (a : Bytes) → bytes_eq a a ≡ true
bytes_eq_refl a = (bytes_eq_iff a a).1 refl

match_segments-Matches :
    (filters segments : List Bytes)
    → match_segments filters segments ≡ true
    → Matches filters segments
unfolding match_segments
match_segments-Matches [] [] e = done
match_segments-Matches [] (s ∷ ss) e = cc
match_segments-Matches (f ∷ fs) [] e = cc
match_segments-Matches (f ∷ fs) (s ∷ ss) e = elim (Bool-cases (bytes_eq f (plus ∷ []))) [
  | inl h ↦ rw (bytes_eq-true h) (any s (match_segments-Matches fs ss (rw h at e)))
  | inr h ↦ elim (Bool-cases (bytes_eq f s)) [
    | inl k ↦ rw (bytes_eq-true k) (same s (match_segments-Matches fs ss (rw (h, k) at e)))
    | inr k ↦ absurd (ground (arith, e, h, k))
  ]
]

Matches-match_segments :
    {filters segments : List Bytes}
    → Matches filters segments
    → match_segments filters segments ≡ true
unfolding match_segments
Matches-match_segments done = refl
Matches-match_segments (any s m) = rw (bytes_eq_refl (plus ∷ [])) (Matches-match_segments m)
Matches-match_segments (same s m) = elim (Bool-cases (bytes_eq s (plus ∷ []))) [
  | inl h ↦ rw h (Matches-match_segments m)
  | inr h ↦ rw (h, bytes_eq_refl s) (Matches-match_segments m)
]

Matches-refl : (l : List Bytes) → Matches l l
Matches-refl [] = done
Matches-refl (s ∷ l) = same s (Matches-refl l)

-- No `+` in a filter: it is matched by itself alone.
Plain : Bytes → Type 0
Plain s = contains plus s ≡ false

Matches-Plain :
    {filters segments : List Bytes}
    → Matches filters segments
    → All Plain filters
    → filters ≡ segments
unfolding Plain
Matches-Plain done p = refl
Matches-Plain (any s m) p = absurd (ground arith)
Matches-Plain (same s m) p = ap (◌∷◌ s) (Matches-Plain m p.1)

-- `split` loses nothing.
join : ℕ → List Bytes → Bytes
join c [] = []
join c (s ∷ []) = s
join c (s ∷ t ∷ ss) = s ++ (c ∷ join c (t ∷ ss))

join-cons_head : (c x : ℕ) (l : List Bytes) → join c (cons_head x l) ≡ x ∷ join c l
unfolding join
join-cons_head c x [] = refl
join-cons_head c x (s ∷ []) = refl
join-cons_head c x (s ∷ t ∷ ss) = refl

join_empty_head :
    (c x : ℕ) (l : List Bytes) → join c ([] ∷ cons_head x l) ≡ c ∷ join c (cons_head x l)
unfolding join
join_empty_head c x [] = refl
join_empty_head c x (s ∷ ss) = refl

join_empty : (c : ℕ) (xs : Bytes) → join c ([] ∷ split c xs) ≡ c ∷ join c (split c xs)
unfolding join
join_empty c [] = refl
join_empty c (x ∷ xs) = elim (Bool-cases (x == c)) [
  | inl h ↦ rw h refl
  | inr h ↦ rw h (join_empty_head c x (split c xs))
]

join-split : (c : ℕ) (xs : Bytes) → join c (split c xs) ≡ xs
unfolding join
join-split c [] = refl
join-split c (x ∷ xs) = elim (Bool-cases (x == c)) [
  | inl h ↦ rw h (join_empty c xs ∙ rw (join-split c xs, ==-eq x c h) refl)
  | inr h ↦ rw h (join-cons_head c x (split c xs) ∙ ap (◌∷◌ x) (join-split c xs))
]

split_injective : (c : ℕ) (xs ys : Bytes) → split c xs ≡ split c ys → xs ≡ ys
split_injective c xs ys e = sym (join-split c xs) ∙ ap (join c) e ∙ join-split c ys

-- The levels of a filter without `+` have none.
cons_head-Plain :
    (x : ℕ) (l : List Bytes) → (x == plus) ≡ false → All Plain l → All Plain (cons_head x l)
unfolding Plain
cons_head-Plain x [] h a = (rw h, tt)
cons_head-Plain x (s ∷ ss) h a = (rw h a.0, a.1)

split-Plain : (xs : Bytes) → contains plus xs ≡ false → All Plain (split slash xs)
unfolding Plain
split-Plain [] h = (refl, tt)
split-Plain (x ∷ xs) h = elim (Bool-cases (x == plus)) [
  | inl p ↦ absurd (ground (arith, p, h))
  | inr p ↦
      let later = split-Plain xs (rw p at h) in
      elim (Bool-cases (x == slash)) [
        | inl q ↦ rw q (refl, later)
        | inr q ↦ rw q (cons_head-Plain x (split slash xs) p later)
      ]
]

split_once-none : (c : ℕ) (xs : Bytes) → contains c xs ≡ false → split_once c xs ≡ none
split_once-none c [] h = refl
split_once-none c (x ∷ xs) h = elim (Bool-cases (x == c)) [
  | inl p ↦ absurd (ground (arith, p, h))
  | inr p ↦ rw (p, split_once-none c xs (rw p at h)) refl
]

-- A topic that a subscription without `#` matches has its levels, with any level for a `+`.
does_topic_match-Matches :
    (subscription topic : Bytes)
    → contains hash subscription ≡ false
    → does_topic_match_subscription subscription topic ≡ true
    → Matches (split slash subscription) (split slash topic)
unfolding does_topic_match_subscription
does_topic_match-Matches sub topic no_hash e = elim (Bool-cases (contains plus sub)) [
  | inl p ↦ match_segments-Matches _ _ (rw (no_hash, p, split_once-none hash sub no_hash) at e)
  | inr p ↦
      let same_bytes : sub ≡ topic = bytes_eq-true (rw (no_hash, p) at e) in
      rw same_bytes (Matches-refl (split slash topic))
]

-- A topic that has the levels of a subscription without `#`, with any level for a `+`, matches
-- it.
Matches-does_topic_match :
    (subscription topic : Bytes)
    → contains hash subscription ≡ false
    → Matches (split slash subscription) (split slash topic)
    → does_topic_match_subscription subscription topic ≡ true
unfolding does_topic_match_subscription
Matches-does_topic_match sub topic no_hash m = elim (Bool-cases (contains plus sub)) [
  | inl p ↦ rw (no_hash, p, split_once-none hash sub no_hash) (Matches-match_segments m)
  | inr p ↦
      let same_bytes : sub ≡ topic =
        split_injective slash sub topic (Matches-Plain m (split-Plain sub p)) in
      rw (no_hash, p) ((bytes_eq_iff sub topic).1 same_bytes)
]

-- A subscription without `#` is matched by the topics that have its levels, with any level for a
-- `+`, and by no others.
pub does_topic_match_iff :
    (subscription topic : Bytes)
    → contains hash subscription ≡ false
    → (does_topic_match_subscription subscription topic ≡ true)
      ↔ Matches (split slash subscription) (split slash topic)
does_topic_match_iff sub topic no_hash =
    (does_topic_match-Matches sub topic no_hash, Matches-does_topic_match sub topic no_hash)

contains-append : (c : ℕ) (prefix tail : Bytes) → contains c (prefix ++ (c ∷ tail)) ≡ true
contains-append c [] tail = rw (==-refl c) refl
contains-append c (x ∷ prefix) tail = rw (contains-append c prefix tail) (ground arith)

split_once-append :
    (c : ℕ) (prefix tail : Bytes)
    → contains c prefix ≡ false
    → split_once c (prefix ++ (c ∷ tail)) ≡ some prefix
split_once-append c [] tail h = rw (==-refl c) refl
split_once-append c (x ∷ prefix) tail h = elim (Bool-cases (x == c)) [
  | inl p ↦ absurd (ground (arith, p, h))
  | inr p ↦ rw (p, split_once-append c prefix tail (rw p at h)) refl
]

starts_with-cut :
    (topic prefix : Bytes)
    → starts_with topic prefix ≡ true
    → (rest : Bytes) × (topic ≡ prefix ++ rest)
starts_with-cut topic [] e = (topic, refl)
starts_with-cut [] (y ∷ prefix) e = cc
starts_with-cut (x ∷ topic) (y ∷ prefix) e = elim (Bool-cases (x == y)) [
  | inl p ↦
      let (rest, cut) = starts_with-cut topic prefix (rw p at e) in
      (rest, rw (cut, ==-eq x y p) refl)
  | inr p ↦ absurd (ground (arith, p, e))
]

starts_with-append : (prefix rest : Bytes) → starts_with (prefix ++ rest) prefix ≡ true
starts_with-append [] rest = refl
starts_with-append (x ∷ prefix) rest = rw (==-refl x, starts_with-append prefix rest) refl

-- A topic that begins with what stands before the first `#` of a subscription matches it.
does_topic_match-append :
    (prefix tail rest : Bytes)
    → contains hash prefix ≡ false
    → does_topic_match_subscription (prefix ++ (hash ∷ tail)) (prefix ++ rest) ≡ true
unfolding does_topic_match_subscription
does_topic_match-append prefix tail rest h =
    rw (contains-append hash prefix tail, split_once-append hash prefix tail h)
      (starts_with-append prefix rest)

-- A subscription with a `#` is matched by the topics that begin with what stands before the first
-- `#`, taken literally, even where that has a `+`, and by no others.
pub does_topic_match_hash :
    (prefix tail topic : Bytes)
    → contains hash prefix ≡ false
    → (does_topic_match_subscription (prefix ++ (hash ∷ tail)) topic ≡ true)
      ↔ ((rest : Bytes) × (topic ≡ prefix ++ rest))
unfolding does_topic_match_subscription
does_topic_match_hash prefix tail topic h = (
  λ e.
      starts_with-cut topic prefix
        (rw (contains-append hash prefix tail, split_once-append hash prefix tail h) at e),
  λ (rest, e). rw e (does_topic_match-append prefix tail rest h),
)

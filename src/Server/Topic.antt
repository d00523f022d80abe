-- ===== src/Server/Topic.antt =====
-- src/aio/server.rs: which subscriptions a topic matches.
pub mod Segments
use tjiftjaf.Prelude.{
  ℕ, ◌==◌, ◌&&◌, ◌||◌, not, if◌then◌else◌, Bool, true, false, List, [], ◌∷◌, Option, none, some,
}
use tjiftjaf.Rust.{Bytes, bytes_eq}

-- The characters `#`, `+` and `/`.
abbrev pub hash : ℕ
hash = 35

abbrev pub plus : ℕ
plus = 43

abbrev pub slash : ℕ
slash = 47

-- `str::contains`, `str::split_once` (the part before the separator), `str::starts_with` and
-- `str::split`, for a character of one byte.
abbrev pub contains : ℕ → Bytes → Bool
contains c [] = false
contains c (x ∷ xs) = x == c || contains c xs

abbrev pub split_once : ℕ → Bytes → Option Bytes
split_once c [] = none
split_once c (x ∷ xs) =
    let rest : Option Bytes = elim (split_once c xs) [
      | none ↦ none
      | some prefix ↦ some (x ∷ prefix)
    ] in
    if x == c then some [] else rest

abbrev pub starts_with : Bytes → Bytes → Bool
starts_with text [] = true
starts_with [] (y ∷ prefix) = false
starts_with (x ∷ text) (y ∷ prefix) = x == y && starts_with text prefix

abbrev pub cons_head : ℕ → List Bytes → List Bytes
cons_head x [] = (x ∷ []) ∷ []
cons_head x (segment ∷ segments) = (x ∷ segment) ∷ segments

abbrev pub split : ℕ → Bytes → List Bytes
split c [] = [] ∷ []
split c (x ∷ xs) = let rest = split c xs in if x == c then [] ∷ rest else cons_head x rest

-- The `for` loop of `does_topic_match_subscription`, and the test behind it.
unfoldable pub match_segments : (filters segments : List Bytes) → Bool
match_segments [] [] = true
match_segments [] (segment ∷ segments) = false
match_segments (filter ∷ filters) [] = false
match_segments (filter ∷ filters) (segment ∷ segments) =
    let rest = match_segments filters segments in
    if bytes_eq filter (plus ∷ [])
    then rest
    else if not (bytes_eq filter segment)
    then false
    else rest

-- The part behind the exact match, on what `split_once('#')` returned.
abbrev pub match_wildcards : Option Bytes → Bytes → Bytes → Bool
match_wildcards (some prefix) subscription topic = starts_with topic prefix
match_wildcards none subscription topic =
    match_segments (split slash subscription) (split slash topic)

unfoldable pub does_topic_match_subscription : (subscription topic : Bytes) → Bool
does_topic_match_subscription subscription topic =
    if not (contains hash subscription) && not (contains plus subscription)
    then bytes_eq subscription topic
    else match_wildcards (split_once hash subscription) subscription topic

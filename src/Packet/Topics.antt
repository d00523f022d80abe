-- ===== src/Packet/Topics.antt =====
-- src/packet/subscribe.rs and unsubscribe.rs: the loop of `try_topics` and the iterator
-- `Topics`, which the two files write alike. `item` is the body that parses one entry at an
-- offset of the payload and returns the offset behind it.
pub mod RoundTrip
use tjiftjaf.Prelude.{
  ℕ, zero, suc, List, [], ◌∷◌, ◌++◌, leb, if◌then◌else◌, length, Option, none, some,
}
use tjiftjaf.Result.{Result, ok, panic, ◌>>=◌, unwrap}
use tjiftjaf.Rust.{Bytes}

pub record Topics : Type 0 where
  pub topics : Bytes
  pub offset : ℕ

module _ {A : Type 0} (item : Bytes → ℕ → Result (A × ℕ)) where
  -- The `loop` of `try_topics`, with the rounds that it may still make.
  unfoldable pub collect_loop : ℕ → Bytes → ℕ → List A → Result (List A)
  collect_loop zero payload offset out = panic
  collect_loop (suc fuel) payload offset out = do
    (x, next) ← item payload offset
    let rest = collect_loop fuel payload next (out ++ (x ∷ []))
    if leb (length payload) next then ok (out ++ (x ∷ [])) else rest

  -- Each round takes at least a byte.
  unfoldable pub collect : Bytes → Result (List A)
  unfolding collect_loop
  collect payload = collect_loop (suc (length payload)) payload 0 []

  -- `Topics::next`
  unfoldable pub next : Topics → Result (Topics × Option A)
  next t = if leb (length t.topics) t.offset then ok (t, none) else do
    (x, offset') ← unwrap (item t.topics t.offset)
    ok (record t { offset = offset' }, some x)

  -- `for topic in topics`, with the rounds that it may still make.
  unfoldable pub drain : ℕ → Topics → List A → Result (List A)
  unfolding next
  drain zero t out = panic
  drain (suc fuel) t out = do
    (t', found) ← next t
    elim found [ none ↦ ok out | some x ↦ drain fuel t' (out ++ (x ∷ [])) ]

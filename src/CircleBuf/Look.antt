-- ===== src/CircleBuf/Look.antt =====
-- `Initialize` and `ClearContent`.
use linuxgameserver.Common.{
  ℕ, ◌^◌, ◌<◌, ◌≡◌, inl, inr, true, Option, none, some, List, [], if◌then◌else◌, ◌==◌, length,
  arith, Option-cases,
}
use linuxgameserver.CircleBuf.{FixLenCircleBuf, initialize, clear_content}
use linuxgameserver.CircleBuf.Valid.{IsValid, contents}

module _ {A : Type 0} where
  -- A buffer that has never had a block has its indices at 0, as the constructor sets them.
  abbrev pub IsFresh : FixLenCircleBuf A → Type 0
  IsFresh b = elim b.buf [ none ↦ (b.read_index ≡ 0) × (b.write_index ≡ 0) | some _ ↦ Unit {0} ]

  -- `Initialize` of a buffer that had a block or is as constructed: if it returns true, the buffer is
  -- valid and empty, of the size asked for, or of 10 places where that is 0. `new` gives blocks of
  -- the size asked for, and an `int` counts the places.
  pub initialize-IsValid :
      (alloc : ℕ → Option (List A)) (b : FixLenCircleBuf A) (item_size n : ℕ)
      → ((k : ℕ) (mem : List A) → alloc k ≡ some mem → length mem ≡ k)
      → IsFresh b
      → n < 2 ^ 31
      → (initialize alloc b item_size n).0 ≡ true
      → let b' = (initialize alloc b item_size n).1 in
        IsValid b'
        × (contents b' ≡ [])
        × (b'.max_item_count ≡ (if n == 0 then 10 else n))
        × (b'.item_size ≡ item_size)
  unfolding initialize
  initialize-IsValid alloc b item_size n law fresh h ok =
      elim (Option-cases (alloc (if n == 0 then 10 else n))) [
        | inl e ↦ absurd (ground (arith, e))
        | inr (mem, e) ↦ ground (arith, e, law (if n == 0 then 10 else n) mem e, fresh)
      ]

  pub clear_content-IsValid :
      {b : FixLenCircleBuf A}
      → IsValid b
      → IsValid (clear_content b) × (contents (clear_content b) ≡ [])
  unfolding clear_content
  clear_content-IsValid v = ground arith

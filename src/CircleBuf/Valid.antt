-- ===== src/CircleBuf/Valid.antt =====
-- The representation invariant of the circular buffer, the items that it holds, and what the counts
-- of the code are on the numbers of a valid buffer: nothing wraps.
use linuxgameserver.Common.{
  ℕ, ◌+◌, ◌-◌, ◌^◌, ◌≤◌, ◌<◌, ◌≡◌, false, none, some, List, [], ◌++◌, if◌then◌else◌, leb, ◌==◌,
  length, take, drop, length-append, length-take, length-drop, arith,
}
use linuxgameserver.Common.Words.{
  size_of_int, int_of_size, size_add, size_sub, int_add, int_sub, int_lt,
}
use linuxgameserver.CircleBuf.{
  FixLenCircleBuf, free_item_count, current_item_count, next_read_index, get_current_exist_count,
}

module _ {A : Type 0} where
  abbrev pub block : FixLenCircleBuf A → List A
  block b = elim b.buf [ none ↦ [] | some mem ↦ mem ]

  -- The block is there and holds `m_sMaxItemCount` items, both indices lie in it, and an `int`
  -- counts it.
  pub record IsValid (b : FixLenCircleBuf A) : Type 0 where
    pub allocated : b.buf ≡ some (block b)
    pub full_size : length (block b) ≡ b.max_item_count
    pub small : b.max_item_count < 2 ^ 31
    pub read_in : b.read_index < b.max_item_count
    pub write_in : b.write_index < b.max_item_count

  -- The items from index `r` up to index `w`, going round at the end of the block.
  abbrev pub window : List A → ℕ → ℕ → List A
  window mem r w = if leb r w then take (w - r) (drop r mem) else drop r mem ++ take w mem

  -- The items between the two indices, oldest first.
  abbrev pub contents : FixLenCircleBuf A → List A
  contents b = window (block b) b.read_index b.write_index

  -- One item of the block stays free, by which a full buffer is told from an empty one.
  abbrev pub capacity : FixLenCircleBuf A → ℕ
  capacity b = b.max_item_count - 1

  abbrev pub count : FixLenCircleBuf A → ℕ
  count b =
      if leb b.read_index b.write_index
      then b.write_index - b.read_index
      else b.max_item_count - b.read_index + b.write_index

  pub length-contents : {b : FixLenCircleBuf A} → IsValid b → length (contents b) ≡ count b
  length-contents {b} v = ground (
    arith,
    length-drop b.read_index (block b),
    length-take (b.write_index - b.read_index) (drop b.read_index (block b)),
    length-take b.write_index (block b),
    length-append (drop b.read_index (block b)) (take b.write_index (block b)),
  )

  pub count-le-capacity : {b : FixLenCircleBuf A} → IsValid b → count b ≤ capacity b
  count-le-capacity v = ground arith

  pub free_item_count_lem :
      {b : FixLenCircleBuf A} → IsValid b → free_item_count b ≡ b.max_item_count - count b
  unfolding free_item_count int_lt int_sub int_of_size size_sub size_add size_of_int
  free_item_count_lem v = ground arith

  pub current_item_count_lem :
      {b : FixLenCircleBuf A}
      → IsValid b
      → (b.read_index == b.write_index) ≡ false
      → current_item_count b ≡ count b
  unfolding current_item_count int_lt int_sub int_of_size size_sub size_add size_of_int
  current_item_count_lem v h = ground arith

  pub get_current_exist_count-count :
      {b : FixLenCircleBuf A} → IsValid b → get_current_exist_count b ≡ count b
  unfolding get_current_exist_count int_lt int_sub int_of_size size_sub size_add size_of_int
  get_current_exist_count-count v = ground arith

  pub next_read_index_lem :
      {b : FixLenCircleBuf A}
      → IsValid b
      → next_read_index b ≡ (if b.read_index + 1 == b.max_item_count then 0 else b.read_index + 1)
  unfolding next_read_index int_add size_of_int
  next_read_index_lem v = ground arith

-- ===== src/CircleBuf.antt =====
-- NetWork/LFixLenCircleBuf.cpp and LFixLenCircleBuf.h: the circular buffer of fixed-size items that
-- the packet pools, the work queues and the send buffers of the sessions are made of.
-- An item is a value of any type `A`; the block `m_pbuf` is the list of its items, so that an offset
-- `n * m_sItemSize` is the index `n`. A pointer argument that the code tests is an `Option` (a
-- source block) or a Boolean (a destination). An operation returns the new buffer behind its
-- results. The atomic reads and writes of the two indices are plain ones of one thread.
pub mod Queue
pub mod Valid
pub mod Store
pub mod Refine
pub mod Transfer
pub mod Copy
pub mod Look
pub mod Run
mod Tests
use linuxgameserver.Common.{
  ℕ, ◌+◌, Bool, true, false, Option, none, some, List, if◌then◌else◌, ltb, leb, ◌==◌, get_elem?,
  take, drop, write_at,
}
use linuxgameserver.Common.Words.{
  size_of_int, int_of_size, size_add, size_sub, int_add, int_sub, int_lt, int_le,
}

-- `E_Circle_Error`.
pub data CircleError : Type 0 where
  no_error uninitialized can_not_contain_data input_buf_null : CircleError
  input_buf_not_enough_len is_empty : CircleError

pub record FixLenCircleBuf (A : Type 0) : Type 0 where
  pub read_index : ℕ
  pub write_index : ℕ
  pub item_size : ℕ
  pub buf : Option (List A)
  pub max_item_count : ℕ

module _ {A : Type 0} where
  -- `alloc` is `new char[…]`: the block of so many items, or a null pointer.
  unfoldable pub initialize :
      (alloc : ℕ → Option (List A)) → FixLenCircleBuf A → ℕ → ℕ → Bool × FixLenCircleBuf A
  initialize alloc b item_size count = if item_size == 0 then (false, b) else (elim block [
    | none ↦ (false, record emptied { buf = none })
    | some mem ↦
        (true, record emptied { buf = some mem; item_size = item_size; max_item_count = count' })
  ])
    where
      count' : ℕ
      count' = if count == 0 then 10 else count

      block : Option (List A)
      block = alloc count'

      emptied : FixLenCircleBuf A
      emptied = elim b.buf [ none ↦ b | some _ ↦ record b { read_index = 0; write_index = 0 } ]

  -- `nFreeItemCount` of `AddItems`.
  unfoldable pub free_item_count : FixLenCircleBuf A → ℕ
  free_item_count b =
      if int_lt b.write_index b.read_index
      then int_sub b.read_index b.write_index
      else int_of_size (
          size_sub (size_add b.max_item_count (size_of_int b.read_index))
            (size_of_int b.write_index))

  -- `nCurrentItemCount` of the readers, where the indices differ.
  unfoldable pub current_item_count : FixLenCircleBuf A → ℕ
  current_item_count b =
      if int_lt b.read_index b.write_index
      then int_sub b.write_index b.read_index
      else int_of_size (
          size_sub (size_add b.max_item_count (size_of_int b.write_index))
            (size_of_int b.read_index))

  -- The part of `AddItems` that copies, in one block or in two.
  unfoldable pub store : FixLenCircleBuf A → List A → List A → ℕ → FixLenCircleBuf A
  store b mem src n =
      if int_lt w r
      then record b { buf = some whole; write_index = w' }
      else if leb (size_add (size_of_int w) n) max
      then record b { buf = some whole; write_index = if size_of_int w' == max then 0 else w' }
      else record b {
        buf = some (
            write_at (write_at mem (size_of_int w) (take (size_of_int first) src)) 0
              (take (size_of_int second) (drop (size_of_int first) src)));
        write_index = second;
      }
    where
      open b use {write_index as w, read_index as r, max_item_count as max}

      whole : List A
      whole = write_at mem (size_of_int w) (take n src)

      w' : ℕ
      w' = int_of_size (size_add (size_of_int w) n)

      first : ℕ
      first = int_of_size (size_sub max (size_of_int w))

      second : ℕ
      second = int_of_size (size_sub n (size_of_int first))

  unfoldable pub add_block :
      FixLenCircleBuf A → List A → List A → ℕ → CircleError × FixLenCircleBuf A
  add_block b mem src n =
      if ltb (size_sub b.max_item_count 1) n
      then (can_not_contain_data, b)
      else if int_le (free_item_count b) 1
      then (can_not_contain_data, b)
      else if ltb (size_of_int (int_sub (free_item_count b) 1)) n
      then (can_not_contain_data, b)
      else (no_error, store b mem src n)

  unfoldable pub add_items :
      FixLenCircleBuf A → Option (List A) → ℕ → CircleError × FixLenCircleBuf A
  add_items b src n = elim b.buf [
    | none ↦ (uninitialized, b)
    | some mem ↦ elim src [ none ↦ (input_buf_null, b) | some xs ↦ add_block b mem xs n ]
  ]

  -- The index behind `r`: `nReadIndex++` and its return to 0.
  unfoldable pub next_read_index : FixLenCircleBuf A → ℕ
  next_read_index b =
      let r' = int_add b.read_index 1 in if size_of_int r' == b.max_item_count then 0 else r'

  -- `LookUpOneItem`: the result and what is copied to the destination.
  pub look_up_one_item : FixLenCircleBuf A → Bool → ℕ → CircleError × Option A
  look_up_one_item b dest len = elim b.buf [
    | none ↦ (uninitialized, none)
    | some mem ↦
        if dest
        then if ltb len b.item_size
          then (input_buf_not_enough_len, none)
          else if b.read_index == b.write_index
          then (is_empty, none)
          else if current_item_count b == 0
          then (is_empty, none)
          else (no_error, get_elem? mem (size_of_int b.read_index))
        else (input_buf_null, none)
  ]

  unfoldable pub get_one_item :
      FixLenCircleBuf A → Bool → ℕ → CircleError × Option A × FixLenCircleBuf A
  get_one_item b dest len = elim b.buf [
    | none ↦ (uninitialized, none, b)
    | some mem ↦
        if dest
        then if ltb len b.item_size
          then (input_buf_not_enough_len, none, b)
          else if b.read_index == b.write_index
          then (is_empty, none, b)
          else if current_item_count b == 0
          then (is_empty, none, b)
          else (
            no_error,
            get_elem? mem (size_of_int b.read_index),
            record b { read_index = next_read_index b },
          )
        else (input_buf_null, none, b)
  ]

  pub delete_one_item_at_head : FixLenCircleBuf A → CircleError × FixLenCircleBuf A
  delete_one_item_at_head b =
      if b.read_index == b.write_index
      then (is_empty, b)
      else if current_item_count b == 0
      then (is_empty, b)
      else (no_error, record b { read_index = next_read_index b })

  -- The index that `LookUpNItem` reads.
  pub look_up_index : FixLenCircleBuf A → ℕ → ℕ
  look_up_index b n =
      let at = size_of_int (int_add b.read_index n) in
      if int_lt b.read_index b.write_index
      then at
      else if leb b.max_item_count at
      then size_sub at b.max_item_count
      else at

  -- `LookUpNItem`, whose guard lets `n` through that equals the count of the items.
  pub look_up_n_item : FixLenCircleBuf A → Bool → ℕ → ℕ → CircleError × Option A
  look_up_n_item b dest len n = elim b.buf [
    | none ↦ (uninitialized, none)
    | some mem ↦
        if dest
        then if ltb len b.item_size
          then (input_buf_not_enough_len, none)
          else if b.read_index == b.write_index
          then (is_empty, none)
          else if current_item_count b == 0
          then (is_empty, none)
          else if int_lt (current_item_count b) n
          then (is_empty, none)
          else (no_error, get_elem? mem (look_up_index b n))
        else (input_buf_null, none)
  ]

  pub get_current_exist_count : FixLenCircleBuf A → ℕ
  get_current_exist_count b =
      if write_index == read_index
      then 0
      else if int_lt read_index write_index
      then int_sub write_index read_index
      else int_of_size
          (size_add (size_sub max_item_count (size_of_int read_index)) (size_of_int write_index))
    where
      open b use {read_index, write_index, max_item_count}

  pub clear_content : FixLenCircleBuf A → FixLenCircleBuf A
  clear_content b = record b { read_index = 0; write_index = 0 }

  unfoldable pub set_read_index : FixLenCircleBuf A → ℕ → FixLenCircleBuf A
  set_read_index b n = record b { read_index = n }

  unfoldable pub get_max_item_count : FixLenCircleBuf A → ℕ
  get_max_item_count b = int_of_size b.max_item_count

  -- One call of `AddItems` on the destination in `RequestItems`, and what follows it.
  pub hand_over :
      FixLenCircleBuf A
      → FixLenCircleBuf A
      → List A
      → ℕ
      → ℕ
      → ℕ × FixLenCircleBuf A × FixLenCircleBuf A
  hand_over b dest mem n r' =
      let (e, dest') = add_items dest (some (drop (size_of_int b.read_index) mem)) n in
      elim e [ no_error ↦ (int_of_size n, record b { read_index = r' }, dest') | _ ↦ (0, b, dest') ]

  pub request_block :
      FixLenCircleBuf A → FixLenCircleBuf A → List A → ℕ → ℕ × FixLenCircleBuf A × FixLenCircleBuf A
  request_block b dest mem n =
      if r == w
      then (0, b, dest)
      else if int_lt r w
      then if leb (size_of_int (int_sub w r)) n
        then hand_over b dest mem (size_of_int (int_sub w r)) w
        else hand_over b dest mem n r'
      else if ltb n (size_of_int to_end)
      then hand_over b dest mem n r'
      else if size_of_int to_end == n
      then hand_over b dest mem n 0
      else hand_over b dest mem (size_of_int to_end) 0
    where
      open b use {write_index as w, read_index as r, max_item_count as max}

      r' : ℕ
      r' = int_of_size (size_add (size_of_int r) n)

      to_end : ℕ
      to_end = int_of_size (size_sub max (size_of_int r))

  -- The result, this buffer and the other one, which is another object than this one.
  pub request_items :
      FixLenCircleBuf A
      → Option (FixLenCircleBuf A)
      → ℕ
      → ℕ × FixLenCircleBuf A × Option (FixLenCircleBuf A)
  request_items b dest n = elim b.buf [
    | none ↦ (0, b, dest)
    | some mem ↦ elim dest [
      | none ↦ (0, b, none)
      | some d ↦ let (k, b', d') = request_block b d mem n in (k, b', some d')
    ]
  ]

  -- The second `AddItems` of `CopyAllItemsToOtherFixLenCircleBuf`, from the start of the block.
  pub copy_rest :
      FixLenCircleBuf A → FixLenCircleBuf A → List A → Bool × FixLenCircleBuf A × FixLenCircleBuf A
  copy_rest b dest mem =
      let (e, dest') = add_items dest (some mem) (size_of_int b.write_index) in
      elim e [
        | no_error ↦ (true, record b { read_index = b.write_index }, dest')
        | _ ↦ (false, b, dest')
      ]

  pub copy_block :
      FixLenCircleBuf A → FixLenCircleBuf A → List A → Bool × FixLenCircleBuf A × FixLenCircleBuf A
  copy_block b dest mem =
      if r == w
      then (true, b, dest)
      else if int_lt r w
      then (let (e, dest') = add_items dest (some source) (size_of_int (int_sub w r)) in
          elim e [ no_error ↦ (true, record b { read_index = w }, dest') | _ ↦ (false, b, dest') ])
      else (let (e, dest') = add_items dest (some source) (size_sub max (size_of_int r)) in
          elim e [
            | no_error ↦ copy_rest (record b { read_index = 0 }) dest' mem
            | _ ↦ (false, b, dest')
          ])
    where
      open b use {write_index as w, read_index as r, max_item_count as max}

      source : List A
      source = drop (size_of_int r) mem

  pub copy_all_items_to_other_fix_len_circle_buf :
      FixLenCircleBuf A
      → Option (FixLenCircleBuf A)
      → Bool × FixLenCircleBuf A × Option (FixLenCircleBuf A)
  copy_all_items_to_other_fix_len_circle_buf b dest = elim b.buf [
    | none ↦ (false, b, dest)
    | some mem ↦ elim dest [
      | none ↦ (false, b, none)
      | some d ↦ let (k, b', d') = copy_block b d mem in (k, b', some d')
    ]
  ]

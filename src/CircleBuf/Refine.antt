-- ===== src/CircleBuf/Refine.antt =====
-- `AddItems`, `GetOneItem` and `DeleteOneItemAtHead` against the bounded queue.
use linuxgameserver.Common.{
  ℕ, ◌+◌, ◌-◌, ◌≤◌, ◌<◌, ◌≡◌, ap, ◌∙◌, Bool, true, false, some, List, [], ◌∷◌, if◌then◌else◌, ltb,
  leb, ◌==◌, ◌&&◌, length, take, drop, get_elem?, Bool-cases, inl, inr, length-take, length-drop,
  drop-get_elem?, take-cons, ◌≢◌, drop_all, eqb→ne, arith,
}
use linuxgameserver.Common.Words.{size_of_int, size_sub, int_sub, int_le}
use linuxgameserver.CircleBuf.{
  no_error, can_not_contain_data, FixLenCircleBuf, store, add_block, add_items, get_one_item,
  delete_one_item_at_head, look_up_one_item, next_read_index,
}
use linuxgameserver.CircleBuf.Valid.{
  IsValid, block, window, contents, count, capacity, length-contents, free_item_count_lem,
  current_item_count_lem, next_read_index_lem,
}
use linuxgameserver.CircleBuf.Store.{store-IsValid, store-contents}
use linuxgameserver.CircleBuf.Queue

module _ {A : Type 0} where
  pub add_items-block :
      {b : FixLenCircleBuf A} (src : List A) (n : ℕ)
      → IsValid b
      → add_items b (some src) n ≡ add_block b (block b) src n
  unfolding add_items
  add_items-block src n v = ground arith

  -- The three guards of `AddItems` together.
  pub add_block_guard :
      {b : FixLenCircleBuf A} (src : List A) (n : ℕ)
      → IsValid b
      → add_block b (block b) src n ≡ (
          if ltb (count b) (capacity b) && leb (count b + n) (capacity b)
          then (no_error, store b (block b) src n)
          else (can_not_contain_data, b))
  unfolding add_block size_sub int_le int_sub size_of_int
  add_block_guard {b} src n v = ground (arith, free_item_count_lem v)

  pub add_items_lem :
      {b : FixLenCircleBuf A} (src : List A) (n : ℕ)
      → IsValid b
      → add_items b (some src) n ≡ (
          if ltb (count b) (capacity b) && leb (count b + n) (capacity b)
          then (no_error, store b (block b) src n)
          else (can_not_contain_data, b))
  add_items_lem src n v = add_items-block src n v ∙ add_block_guard src n v

  -- Whatever is added, a valid buffer stays valid.
  pub add_items-IsValid :
      {b : FixLenCircleBuf A} (src : List A) (n : ℕ)
      → IsValid b
      → IsValid (add_items b (some src) n).1
  add_items-IsValid {b} src n v = rw (add_items_lem src n v) (ground (arith, store-IsValid v src n))

  pub add_items_refines :
      {b : FixLenCircleBuf A} (src : List A) (n : ℕ)
      → IsValid b
      → n ≤ length src
      → let (e, b') = add_items b (some src) n in
        (e, contents b') ≡ Queue.add (capacity b) (contents b) (take n src)
  unfolding Queue.add
  add_items_refines {b} src n v h =
      rw (add_items_lem src n v)
        (ground (arith, store-contents v src n, length-contents v, length-take n src h))

  window-next :
      (mem : List A) (r w : ℕ) {x : A}
      → r < length mem
      → w < length mem
      → r ≢ w
      → drop r mem ≡ x ∷ drop (r + 1) mem
      → window mem r w ≡ x ∷ window mem (if r + 1 == length mem then 0 else r + 1) w
  window-next mem r w {x} h k ne d =
      ground (
        arith,
        length-drop (r + 1) mem,
        drop_all (r + 1) mem,
        take-cons (w - r) x (drop (r + 1) mem),
      )

  -- The oldest item of a buffer that is not empty, in the block and among the items.
  contents-next :
      {b : FixLenCircleBuf A}
      → IsValid b
      → (b.read_index == b.write_index) ≡ false
      → (x : A) × (get_elem? (block b) b.read_index ≡ some x)
        × (contents b ≡ x ∷ contents (record b { read_index = next_read_index b }))
  contents-next {b} v h =
      let (x, e, d) = drop-get_elem? b.read_index (block b) (omega arith) in
      (
        x,
        e,
        window-next (block b) b.read_index b.write_index (omega arith) (omega arith) (eqb→ne _ _ h)
              d
            ∙ ap (λ i. x ∷ window (block b) i b.write_index)
                (rw (v.full_size, next_read_index_lem v)),
      )

  contents_empty :
      {b : FixLenCircleBuf A} → IsValid b → (b.read_index == b.write_index) ≡ true → contents b ≡ []
  contents_empty {b} v h = ground arith

  -- A destination with room for an item gets the oldest one, which leaves the buffer.
  pub get_one_item_refines :
      {b : FixLenCircleBuf A} (len : ℕ)
      → IsValid b
      → b.item_size ≤ len
      → let (e, out, b') = get_one_item b true len in (e, out, contents b') ≡ Queue.get (contents b)
  unfolding get_one_item Queue.get size_of_int
  get_one_item_refines {b} len v h = elim (Bool-cases (b.read_index == b.write_index)) [
    | inl e ↦ ground (arith, contents_empty v e)
    | inr e ↦ ground (arith, contents-next v e, current_item_count_lem v e)
  ]

  pub get_one_item-IsValid :
      {b : FixLenCircleBuf A} (dest : Bool) (len : ℕ)
      → IsValid b
      → IsValid (get_one_item b dest len).2
  unfolding get_one_item
  get_one_item-IsValid {b} dest len v = ground (arith, next_read_index_lem v)

  -- `LookUpOneItem` and then `DeleteOneItemAtHead` do what `GetOneItem` does.
  pub look_up-delete-get :
      {b : FixLenCircleBuf A} (len : ℕ)
      → IsValid b
      → b.item_size ≤ len
      → let (e, out) = look_up_one_item b true len in
        let (e', b') = delete_one_item_at_head b in
        ((e, out, b') ≡ get_one_item b true len) × (e' ≡ e)
  unfolding get_one_item look_up_one_item delete_one_item_at_head
  look_up-delete-get {b} len v h = ground arith

  pub item_size-add_items :
      {b : FixLenCircleBuf A} (src : List A) (n : ℕ)
      → IsValid b
      → (add_items b (some src) n).1.item_size ≡ b.item_size
  unfolding store
  item_size-add_items {b} src n v = rw (add_items_lem src n v) (ground arith)

  pub item_size-get_one_item :
      (b : FixLenCircleBuf A) (dest : Bool) (len : ℕ)
      → (get_one_item b dest len).2.item_size ≡ b.item_size
  unfolding get_one_item
  item_size-get_one_item b dest len = ground arith

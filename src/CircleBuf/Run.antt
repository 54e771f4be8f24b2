-- ===== src/CircleBuf/Run.antt =====
-- Any row of calls of one thread on a valid buffer, against the bounded queue.
use linuxgameserver.Common.{
  ℕ, ◌≡◌, refl, true, Option, none, some, List, [], ◌∷◌, length, take_all, arith,
}
use linuxgameserver.CircleBuf.{CircleError, FixLenCircleBuf, add_items, get_one_item}
use linuxgameserver.CircleBuf.Valid.{IsValid, block, contents, capacity}
use linuxgameserver.CircleBuf.Refine.{
  add_items_lem, add_items_refines, add_items-IsValid, get_one_item_refines, get_one_item-IsValid,
}
use linuxgameserver.CircleBuf.Copy.{capacity-store}
use linuxgameserver.CircleBuf.Queue
use linuxgameserver.CircleBuf.Queue.{Call, adds, gets}

module _ {A : Type 0} where
  -- The calls on the buffer, with whole blocks to add and room for an item to get.
  unfoldable pub run : FixLenCircleBuf A → List (Call A) → List (CircleError × Option A)
  run b [] = []
  run b (adds xs ∷ calls) =
      let (e, b') = add_items b (some xs) (length xs) in (e, none) ∷ run b' calls
  run b (gets ∷ calls) =
      let (e, out, b') = get_one_item b true b.item_size in (e, out) ∷ run b' calls

  capacity-add_items :
      {b : FixLenCircleBuf A} (src : List A) (n : ℕ)
      → IsValid b
      → capacity (add_items b (some src) n).1 ≡ capacity b
  capacity-add_items {b} src n v =
      rw (add_items_lem src n v) (ground (arith, capacity-store b (block b) src n))

  capacity-get_one_item :
      (b : FixLenCircleBuf A) (len : ℕ) → capacity (get_one_item b true len).2 ≡ capacity b
  unfolding get_one_item
  capacity-get_one_item b len = ground arith

  -- No row of calls tells a valid buffer from the bounded queue of its items.
  pub run_refines :
      (calls : List (Call A)) {b : FixLenCircleBuf A}
      → IsValid b
      → run b calls ≡ Queue.run (capacity b) (contents b) calls
  unfolding run Queue.run
  run_refines [] v = refl
  run_refines (adds xs ∷ calls) {b} v = ground (
    arith,
    run_refines calls (add_items-IsValid xs (length xs) v),
    add_items_refines xs (length xs) v,
    capacity-add_items xs (length xs) v,
    take_all (length xs) xs,
  )
  run_refines (gets ∷ calls) {b} v = ground (
    arith,
    run_refines calls (get_one_item-IsValid true b.item_size v),
    get_one_item_refines b.item_size v,
    capacity-get_one_item b b.item_size,
  )

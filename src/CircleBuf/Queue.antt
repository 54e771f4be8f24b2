-- ===== src/CircleBuf/Queue.antt =====
-- What the circular buffer promises: a queue that holds at most `cap` items, oldest first.
use linuxgameserver.Common.{
  ℕ, ◌+◌, ◌&&◌, Option, none, some, List, [], ◌∷◌, ◌++◌, if◌then◌else◌, ltb, leb, length,
}
use linuxgameserver.CircleBuf.{CircleError, no_error, can_not_contain_data, is_empty}

-- What a client does with a queue: add a block of items, or get one.
pub data Call (A : Type 0) : Type 0 where
  adds : List A → Call A
  gets : Call A

module _ {A : Type 0} where
  -- All of the items are taken, or none; and a full queue refuses also a block of no items.
  unfoldable pub add : ℕ → List A → List A → CircleError × List A
  add cap q xs =
      if ltb (length q) cap && leb (length q + length xs) cap
      then (no_error, q ++ xs)
      else (can_not_contain_data, q)

  unfoldable pub get : List A → CircleError × Option A × List A
  get [] = (is_empty, none, [])
  get (x ∷ q) = (no_error, some x, q)

  -- The results of a row of calls.
  unfoldable pub run : ℕ → List A → List (Call A) → List (CircleError × Option A)
  run cap q [] = []
  run cap q (adds xs ∷ calls) = let (e, q') = add cap q xs in (e, none) ∷ run cap q' calls
  run cap q (gets ∷ calls) = let (e, out, q') = get q in (e, out) ∷ run cap q' calls

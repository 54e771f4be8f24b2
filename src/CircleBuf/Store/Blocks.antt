-- ===== src/CircleBuf/Store/Blocks.antt =====
-- Writing behind the items of a circular block, on lists alone: `r` is the index of the oldest item,
-- `w` the one behind the newest.
use linuxgameserver.Common.{
  ℕ, ◌+◌, ◌-◌, ◌≤◌, ◌≡◌, refl, sym, ap₂, ◌∙◌, List, ◌++◌, length, take, drop, write_at, length-drop,
  length-write_at, take-write_at, drop-write_at, drop-write_at_past, take_all, append_assoc, arith,
}

module _ {A : Type 0} (mem : List A) (r w : ℕ) where
  -- The free part lies before the items.
  pub inside :
      (n : ℕ) (xs : List A)
      → length xs ≡ n
      → w + n ≤ r
      → r ≤ length mem
      → drop r (write_at mem w xs) ++ take (w + n) (write_at mem w xs)
        ≡ (drop r mem ++ take w mem) ++ xs
  inside n xs e h k =
      ap₂ ◌++◌ (drop-write_at_past r mem w xs (omega arith))
        (take-write_at (w + n) mem w xs (omega arith) (omega arith))
      ∙ sym (append_assoc (drop r mem) (take w mem) xs)

  -- The items do not go round, and there is place behind them.
  pub behind :
      (n k : ℕ) (xs : List A)
      → length xs ≡ n
      → r ≤ w
      → k ≡ w + n - r
      → w + n ≤ length mem
      → take k (drop r (write_at mem w xs)) ≡ take (w - r) (drop r mem) ++ xs
  behind n k xs e h d l =
      rw (drop-write_at r mem w xs h)
        (take-write_at k (drop r mem) (w - r) xs (omega arith) (omega (arith, length-drop r mem)))

  -- The block is filled to its end.
  pub to_end :
      (n : ℕ) (xs : List A)
      → length xs ≡ n
      → r ≤ w
      → w + n ≡ length mem
      → drop r (write_at mem w xs) ≡ take (w - r) (drop r mem) ++ xs
  to_end n xs e h l =
      sym (
        take_all (w + n - r) (drop r (write_at mem w xs))
          (omega (arith, length-drop r (write_at mem w xs), length-write_at mem w xs)))
      ∙ behind n (w + n - r) xs e h refl (omega arith)

  -- The block is filled to its end and goes on from its start.
  pub around :
      (m : ℕ) (ys zs : List A)
      → length ys + w ≡ length mem
      → r ≤ w
      → length zs ≡ m
      → m ≤ r
      → drop r (write_at (write_at mem w ys) 0 zs) ++ take m (write_at (write_at mem w ys) 0 zs)
        ≡ take (w - r) (drop r mem) ++ (ys ++ zs)
  around m ys zs e h f g =
      ap₂ ◌++◌
        (drop-write_at_past r (write_at mem w ys) 0 zs (omega arith)
          ∙ to_end (length ys) ys refl h (omega arith))
        (take-write_at m (write_at mem w ys) 0 zs (omega arith)
          (omega (arith, length-write_at mem w ys)))
      ∙ append_assoc (take (w - r) (drop r mem)) ys zs

-- ===== src/CircleBuf/Store.antt =====
-- What `AddItems` does to the block and to the items: the copies in one part or in two.
mod Blocks
use linuxgameserver.Common.{
  ℕ, ◌+◌, ◌-◌, ◌^◌, ◌≤◌, ◌<◌, ◌≡◌, refl, sym, ap, ◌∙◌, Bool, true, false, Option, none, some, List,
  [], ◌∷◌, ◌++◌, if◌then◌else◌, ltb, leb, ◌==◌, length, take, drop, write_at, length-take,
  length-drop, take-append-take, length-write_at, take-append-drop, arith,
}
use linuxgameserver.Common.Words.{size_of_int, int_of_size, size_add, size_sub, int_lt}
use linuxgameserver.CircleBuf.{FixLenCircleBuf, store}
use linuxgameserver.CircleBuf.Valid.{IsValid, block, contents, count}
use Blocks.{inside, behind, to_end, around}

module _ {A : Type 0} where
  -- `store` over numbers that do not wrap.
  plain_store : FixLenCircleBuf A → List A → ℕ → FixLenCircleBuf A
  plain_store b src n =
      if leb (w + n) max
      then record b {
        buf = some (write_at (block b) w (take n src));
        write_index = if w + n == max then 0 else w + n;
      }
      else record b {
        buf = some (
            write_at (write_at (block b) w (take (max - w) src)) 0
              (take (n - (max - w)) (drop (max - w) src)));
        write_index = n - (max - w);
      }
    where
      open b use {write_index as w, max_item_count as max}

  module _ {b : FixLenCircleBuf A} (v : IsValid b) (src : List A) (n : ℕ)
      (room : count b + n < b.max_item_count) where
    store_plain : store b (block b) src n ≡ plain_store b src n
    unfolding store plain_store size_of_int int_of_size size_add size_sub int_lt
    store_plain = ground arith

    pub store-IsValid : IsValid (store b (block b) src n)
    unfolding plain_store
    store-IsValid = rw store_plain (
        ground (
          arith,
          length-write_at (block b) b.write_index (take n src),
          length-write_at (block b) b.write_index (take (b.max_item_count - b.write_index) src),
          length-write_at
              (write_at (block b) b.write_index (take (b.max_item_count - b.write_index) src)) 0
              (take (n - (b.max_item_count - b.write_index))
                (drop (b.max_item_count - b.write_index) src)),
        ))

    pub store-contents :
        n ≤ length src → contents (store b (block b) src n) ≡ contents b ++ take n src
    unfolding plain_store
    store-contents h = rw store_plain (
        ground (
          arith,
          length-take n src h,
          length-take first src,
          length-drop first src,
          length-take (n - first) (drop first src),
          take-append-take first n src,
          inside (block b) r w n (take n src),
          behind (block b) r w n (w + n - r) (take n src),
          to_end (block b) r w n (take n src),
          around (block b) r w (n - first) (take first src) (take (n - first) (drop first src)),
        ))
      where
        open b use {read_index as r, write_index as w}

        first : ℕ
        first = b.max_item_count - w

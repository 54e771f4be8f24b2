-- ===== src/CircleBuf/Transfer.antt =====
-- `RequestItems` and `CopyAllItemsToOtherFixLenCircleBuf`, which move items from one buffer to
-- another one in the blocks that the circular layout gives.
use linuxgameserver.Common.{
  ℕ, ◌+◌, ◌-◌, ◌^◌, ◌≤◌, ◌<◌, ◌≡◌, ◌≢◌, refl, sym, ◌∙◌, inl, inr, Bool, ◌&&◌, Bool-cases, some,
  List, [], ◌++◌, if◌then◌else◌, ltb, leb, ◌==◌, length, take, drop, eqb→ne, length-take,
  length-drop, take_all, take-append-drop, take-append-take, drop-drop, append-nil, append_assoc,
  arith,
}
use Prim.Native.Nat.{min}
use linuxgameserver.Common.Words.{size_of_int, int_of_size, size_add, size_sub, int_lt, int_sub}
use linuxgameserver.CircleBuf.{FixLenCircleBuf, store, hand_over, request_block, request_items}
use linuxgameserver.CircleBuf.Valid.{IsValid, block, window, contents, count, capacity}
use linuxgameserver.CircleBuf.Store.{store-IsValid, store-contents}
use linuxgameserver.CircleBuf.Refine.{add_items_lem}

module _ {A : Type 0} where
  -- Reading on from the front of a window.
  module _ (mem : List A) (r w m : ℕ) where
    pub skip_behind :
        r ≤ w → m ≤ w - r → take m (drop r mem) ++ window mem (r + m) w ≡ window mem r w
    skip_behind h k = ground (arith, take-append-take m (w - r) (drop r mem) k, drop-drop m r mem)

    pub skip_around : w < r → take m (drop r mem) ++ window mem (r + m) w ≡ window mem r w
    skip_around h = ground (
      arith,
      take-append-drop m (drop r mem),
      drop-drop m r mem,
      append_assoc (take m (drop r mem)) (drop (r + m) mem) (take w mem),
    )

    pub skip_end :
        w < r → r + m ≡ length mem → take m (drop r mem) ++ window mem 0 w ≡ window mem r w
    skip_end h k = ground (arith, take_all m (drop r mem), length-drop r mem)

  -- Items went from the front of `b` to the end of `d`: none is lost, copied or out of order, and
  -- the result counts them.
  pub record Moved (b d : FixLenCircleBuf A) (k : ℕ) (b' d' : FixLenCircleBuf A) : Type 0 where
    pub items : List A
    pub number : length items ≡ k
    pub from : contents b ≡ items ++ contents b'
    pub to : contents d' ≡ contents d ++ items
    pub from_valid : IsValid b'
    pub to_valid : IsValid d'

  abbrev pub fits : FixLenCircleBuf A → ℕ → Bool
  fits d n = ltb (count d) (capacity d) && leb (count d + n) (capacity d)

  pub nothing : {b d : FixLenCircleBuf A} → IsValid b → IsValid d → Moved b d 0 b d
  nothing {b} {d} v u = record {
    items = [];
    number = refl;
    from = refl;
    to = sym (append-nil (contents d));
    from_valid = v;
    to_valid = u;
  }

  module _ {b d : FixLenCircleBuf A} (v : IsValid b) (u : IsValid d) (n r' : ℕ) where
    hand_over_lem : hand_over b d (block b) n r' ≡ (
        if fits d n
        then (
          int_of_size n,
          record b { read_index = r' },
          store d (block d) (drop b.read_index (block b)) n,
        )
        else (0, b, d))
    unfolding hand_over size_of_int
    hand_over_lem = ground (arith, add_items_lem (drop (size_of_int b.read_index) (block b)) n u)

    hand_over-Moved :
        n < 2 ^ 31
        → r' < b.max_item_count
        → n ≤ length (drop b.read_index (block b))
        → take n (drop b.read_index (block b)) ++ window (block b) r' b.write_index ≡ contents b
        → let (k, b', d') = hand_over b d (block b) n r' in Moved b d k b' d'
    unfolding int_of_size
    hand_over-Moved small inside enough e = elim (Bool-cases (fits d n)) [
      | inl yes_fits ↦
          rw (hand_over_lem, yes_fits)
            (record {
              items = take n (drop b.read_index (block b));
              number = length-take n (drop b.read_index (block b)) enough ∙ omega arith;
              from = sym e;
              to = store-contents u (drop b.read_index (block b)) n (ground arith) enough;
              from_valid = ground arith;
              to_valid = store-IsValid u (drop b.read_index (block b)) n (ground arith);
            })
      | inr full ↦ rw (hand_over_lem, full) (nothing v u)
    ]

  -- How many items `RequestItems` asks the other buffer to take: what is wanted, within the part of
  -- the items that lies in one piece.
  abbrev pub chunk : FixLenCircleBuf A → ℕ → ℕ
  chunk b n =
      min n (
        (if leb b.read_index b.write_index then b.write_index else b.max_item_count) - b.read_index)

  abbrev after : FixLenCircleBuf A → ℕ → ℕ
  after b n =
      if leb b.write_index b.read_index && (b.read_index + chunk b n == b.max_item_count)
      then 0
      else b.read_index + chunk b n

  module _ {b d : FixLenCircleBuf A} (v : IsValid b) (u : IsValid d) (n : ℕ) where
    request_block_lem : request_block b d (block b) n ≡ (
        if b.read_index == b.write_index
        then (0, b, d)
        else hand_over b d (block b) (chunk b n) (after b n))
    unfolding request_block size_of_int int_of_size size_add size_sub int_lt int_sub
    request_block_lem = ground arith

    chunk-Moved :
        b.read_index ≢ b.write_index
        → let (k, b', d') = hand_over b d (block b) (chunk b n) (after b n) in Moved b d k b' d'
    chunk-Moved ne =
        hand_over-Moved v u (chunk b n) (after b n) (ground arith) (ground arith)
          (ground (arith, length-drop b.read_index (block b)))
          (ground (
            arith,
            skip_behind (block b) b.read_index b.write_index (chunk b n),
            skip_around (block b) b.read_index b.write_index (chunk b n),
            skip_end (block b) b.read_index b.write_index (chunk b n),
          ))

    request_block-Moved : let (k, b', d') = request_block b d (block b) n in Moved b d k b' d'
    request_block-Moved = elim (Bool-cases (b.read_index == b.write_index)) [
      | inl e ↦ rw (request_block_lem, e) (nothing v u)
      | inr e ↦ rw (request_block_lem, e) (chunk-Moved (eqb→ne _ _ e))
    ]

    request_block-count :
        (request_block b d (block b) n).0 ≡ (if fits d (chunk b n) then chunk b n else 0)
    unfolding int_of_size
    request_block-count =
        rw request_block_lem (ground (arith, hand_over_lem v u (chunk b n) (after b n)))

    -- The buffers behind a call with another buffer that is there.
    request_items-block :
        request_items b (some d) n
        ≡ (let (k, b', d') = request_block b d (block b) n in (k, b', some d'))
    unfolding request_items
    request_items-block = ground arith

  -- What `RequestItems` moves, and how much of it.
  pub request_items-Moved :
      {b d : FixLenCircleBuf A}
      → IsValid b
      → IsValid d
      → (n : ℕ)
      → let (k, b', dest) = request_items b (some d) n in
        (d' : FixLenCircleBuf A) × (dest ≡ some d')
        × Moved b d k b' d'
        × (k ≡ (if fits d (chunk b n) then chunk b n else 0))
  request_items-Moved {b} {d} v u n = rw (request_items-block v u n) (
    (request_block b d (block b) n).2,
    refl,
    request_block-Moved v u n,
    request_block-count v u n,
  )

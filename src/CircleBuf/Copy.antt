-- ===== src/CircleBuf/Copy.antt =====
-- `CopyAllItemsToOtherFixLenCircleBuf`: the items go over in one block or in two.
use linuxgameserver.Common.{
  ℕ, ◌+◌, ◌-◌, ◌≤◌, ◌<◌, ◌≡◌, refl, sym, subst, ap, ap₂, ◌∙◌, inl, inr, Bool, true, false,
  Bool-cases, some, List, [], ◌++◌, if◌then◌else◌, ltb, ◌==◌, length, take, drop, length-take,
  length-drop, length-append, append_assoc, ltb→lt, arith,
}
use linuxgameserver.Common.Words.{size_of_int, size_sub, int_lt, int_sub}
use linuxgameserver.CircleBuf.{
  FixLenCircleBuf, store, copy_rest, copy_block, copy_all_items_to_other_fix_len_circle_buf,
}
use linuxgameserver.CircleBuf.Valid.{
  IsValid, block, window, contents, count, capacity, length-contents,
}
use linuxgameserver.CircleBuf.Store.{store-IsValid, store-contents}
use linuxgameserver.CircleBuf.Refine.{add_items_lem}
use linuxgameserver.CircleBuf.Transfer.{Moved, fits, nothing, skip_behind, skip_end}

module _ {A : Type 0} where
  abbrev to_end : FixLenCircleBuf A → ℕ
  to_end b = b.max_item_count - b.read_index

  abbrev wrapped : FixLenCircleBuf A → FixLenCircleBuf A
  wrapped b = record b { read_index = 0 }

  -- The other buffer with the first `n` items behind the read index.
  abbrev filled : FixLenCircleBuf A → FixLenCircleBuf A → ℕ → FixLenCircleBuf A
  filled b d n = store d (block d) (drop b.read_index (block b)) n

  both :
      {b c d : FixLenCircleBuf A} {b' d' d'' : FixLenCircleBuf A} {j k : ℕ}
      → Moved b d j c d'
      → Moved c d' k b' d''
      → Moved b d (j + k) b' d''
  both {b} {c} {d} {b'} {d'} {d''} p q = record {
    items = p.items ++ q.items;
    number = length-append p.items q.items ∙ ap₂ ◌+◌ p.number q.number;
    from = p.from ∙ ap (◌++◌ p.items) q.from ∙ sym (append_assoc p.items q.items (contents b'));
    to = q.to ∙ ap (λ l. l ++ q.items) p.to ∙ append_assoc (contents d) p.items q.items;
    from_valid = q.from_valid;
    to_valid = q.to_valid;
  }

  -- One `AddItems` of the first `n` items of a window that starts at the read index.
  one :
      {b d : FixLenCircleBuf A} (n r' : ℕ)
      → IsValid b
      → IsValid d
      → r' < b.max_item_count
      → n ≤ length (drop b.read_index (block b))
      → take n (drop b.read_index (block b)) ++ window (block b) r' b.write_index ≡ contents b
      → fits d n ≡ true
      → Moved b d n
          (record b { read_index = r' })
          (store d (block d) (drop b.read_index (block b)) n)
  one {b} {d} n r' v u inside enough e yes_fits = record {
    items = take n (drop b.read_index (block b));
    number = length-take n (drop b.read_index (block b)) enough;
    from = sym e;
    to = store-contents u (drop b.read_index (block b)) n (ground arith) enough;
    from_valid = ground arith;
    to_valid = store-IsValid u (drop b.read_index (block b)) n (ground arith);
  }

  -- What a call of the copy has done.
  pub record Copied (b d : FixLenCircleBuf A) (all : Bool) (b' d' : FixLenCircleBuf A)
      : Type 0 where
    pub number : ℕ
    pub moved : Moved b d number b' d'
    pub complete : all ≡ true → contents b' ≡ []
    pub room : count b + count d < capacity d → all ≡ true

  module _ {b d : FixLenCircleBuf A} (v : IsValid b) (u : IsValid d) where
    rest_lem :
        b.read_index ≡ 0
        → copy_rest b d (block b) ≡ (
            if fits d b.write_index
            then (
              true,
              record b { read_index = b.write_index },
              store d (block d) (block b) b.write_index,
            )
            else (false, b, d))
    unfolding copy_rest size_of_int
    rest_lem e = ground (arith, add_items_lem (block b) b.write_index u)

    refused : (all : Bool) → all ≡ false → ¬ (count b + count d < capacity d) → Copied b d all b d
    refused all e full = record {
      number = 0;
      moved = nothing v u;
      complete = λ h. cc;
      room = λ h. absurd (full h);
    }

    rest-Copied :
        b.read_index ≡ 0 → let (all, b', d') = copy_rest b d (block b) in Copied b d all b' d'
    rest-Copied e = elim (Bool-cases (fits d b.write_index)) [
      | inl yes_fits ↦
          rw (rest_lem e, yes_fits)
            (record {
              number = b.write_index;
              moved =
                  subst
                    (λ i.
                      Moved b d w (record b { read_index = w })
                        (store d (block d) (drop i (block b)) w))
                    e
                    (one b.write_index b.write_index v u (ground arith)
                      (ground (arith, length-drop b.read_index (block b)))
                      (ground
                        (arith, skip_behind (block b) b.read_index b.write_index b.write_index))
                      yes_fits);
              complete = λ h. ground arith;
              room = λ h. refl;
            })
      | inr full ↦ rw (rest_lem e, full) (refused false refl (λ h. ground arith))
    ]
      where
        open b use {write_index as w}

    copy_block_lem : copy_block b d (block b) ≡ (
        if b.read_index == b.write_index
        then (true, b, d)
        else if ltb b.read_index b.write_index
        then (if fits d (b.write_index - b.read_index)
            then (
              true,
              record b { read_index = b.write_index },
              filled b d (b.write_index - b.read_index),
            )
            else (false, b, d))
        else if fits d (to_end b)
        then copy_rest (wrapped b) (filled b d (to_end b)) (block b)
        else (false, b, d))
    unfolding copy_block size_of_int int_lt int_sub size_sub
    copy_block_lem = ground (
      arith,
      add_items_lem (drop b.read_index (block b)) (b.write_index - b.read_index) u,
      add_items_lem (drop b.read_index (block b)) (to_end b) u,
    )

    straight-Copied :
        b.read_index < b.write_index
        → fits d (b.write_index - b.read_index) ≡ true
        → Copied b d true
            (record b { read_index = b.write_index })
            (filled b d (b.write_index - b.read_index))
    straight-Copied h yes_fits = record {
      number = b.write_index - b.read_index;
      moved =
          one (b.write_index - b.read_index) b.write_index v u (ground arith)
            (ground (arith, length-drop b.read_index (block b)))
            (ground (
              arith,
              skip_behind (block b) b.read_index b.write_index (b.write_index - b.read_index),
            ))
            yes_fits;
      complete = λ _. ground arith;
      room = λ _. refl;
    }

    first-Moved :
        b.write_index < b.read_index
        → fits d (to_end b) ≡ true
        → Moved b d (to_end b) (wrapped b) (filled b d (to_end b))
    first-Moved h yes_fits =
        one (to_end b) 0 v u (ground arith) (ground (arith, length-drop b.read_index (block b)))
          (skip_end (block b) b.read_index b.write_index (to_end b) h (ground arith)) yes_fits

  count-wrapped :
      (b : FixLenCircleBuf A)
      → b.write_index < b.read_index
      → count b ≡ to_end b + count (wrapped b)
  count-wrapped b h = ground arith

  pub capacity-store :
      (d : FixLenCircleBuf A) (mem src : List A) (n : ℕ) → capacity (store d mem src n) ≡ capacity d
  unfolding store
  capacity-store d mem src n = ground arith

  module _ {b d : FixLenCircleBuf A} (v : IsValid b) (u : IsValid d) where
    around-Copied :
        b.write_index < b.read_index
        → fits d (to_end b) ≡ true
        → let (all, b', d') = copy_rest (wrapped b) (filled b d (to_end b)) (block b) in
          Copied b d all b' d'
    around-Copied h yes_fits = record {
      number = to_end b + rest.number;
      moved = both first rest.moved;
      complete = rest.complete;
      room = λ k. rest.room (
          omega (
            arith,
            length-contents first.to_valid,
            length-contents u,
            capacity-store d (block d) (drop b.read_index (block b)) (to_end b),
            ap length first.to,
            length-append (contents d) first.items,
            first.number,
            (count-wrapped b h),
          ));
    }
      where
        first : Moved b d (to_end b) (wrapped b) (filled b d (to_end b))
        first = first-Moved v u h yes_fits

        rest :
            let (all, b', d') = copy_rest (wrapped b) (filled b d (to_end b)) (block b) in
            Copied (wrapped b) (filled b d (to_end b)) all b' d'
        rest = rest-Copied first.from_valid first.to_valid refl

    pub copy_block-Copied : let (all, b', d') = copy_block b d (block b) in Copied b d all b' d'
    copy_block-Copied = rw (copy_block_lem v u) (elim (Bool-cases (b.read_index == b.write_index)) [
      | inl e ↦ rw e (record {
        number = 0;
        moved = nothing v u;
        complete = λ _. ground arith;
        room = λ _. refl;
      })
      | inr ne ↦ elim (Bool-cases (ltb b.read_index b.write_index)) [
        | inl lt ↦ elim (Bool-cases (fits d (b.write_index - b.read_index))) [
          | inl e ↦ rw (ne, lt, e) (straight-Copied v u (ltb→lt _ _ lt) e)
          | inr e ↦ rw (ne, lt, e) (refused v u false refl (λ h. ground arith))
        ]
        | inr ge ↦ elim (Bool-cases (fits d (to_end b))) [
          | inl e ↦ rw (ne, ge, e) (around-Copied (ground arith) e)
          | inr e ↦ rw (ne, ge, e) (refused v u false refl (λ h. ground arith))
        ]
      ]
    ])

    copy_all_block :
        copy_all_items_to_other_fix_len_circle_buf b (some d)
        ≡ (let (k, b', d') = copy_block b d (block b) in (k, b', some d'))
    unfolding copy_all_items_to_other_fix_len_circle_buf
    copy_all_block = ground arith

  module _ {b d : FixLenCircleBuf A} (v : IsValid b) (u : IsValid d) where
    -- Whatever the call returns, items only went over in order, from the front of one buffer to the
    -- end of the other, and both buffers stay valid.
    pub copy_all_items-Moved :
        let (all, b', dest) = copy_all_items_to_other_fix_len_circle_buf b (some d) in
        (d' : FixLenCircleBuf A) × (dest ≡ some d') × (k : ℕ) × Moved b d k b' d'
    copy_all_items-Moved =
        let c = copy_block-Copied v u in
        rw (copy_all_block v u) ((copy_block b d (block b)).2, refl, c.number, c.moved)

    -- If the call returns true, the buffer is empty.
    pub copy_all_items_empties :
        (copy_all_items_to_other_fix_len_circle_buf b (some d)).0 ≡ true
        → contents (copy_all_items_to_other_fix_len_circle_buf b (some d)).1 ≡ []
    copy_all_items_empties = let c = copy_block-Copied v u in rw (copy_all_block v u) c.complete

    -- With a place to spare in the other buffer the call returns true.
    pub copy_all_items_room :
        count b + count d < capacity d
        → (copy_all_items_to_other_fix_len_circle_buf b (some d)).0 ≡ true
    copy_all_items_room = let c = copy_block-Copied v u in rw (copy_all_block v u) c.room

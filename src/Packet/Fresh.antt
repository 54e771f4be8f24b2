-- ===== src/Packet/Fresh.antt =====
-- New packets, `DirectSetData`, and the packet id.
use mathlib.Core.Option
use linuxgameserver.Common.{
  ℕ, zero, suc, ◌+◌, ◌-◌, ◌^◌, ◌≤◌, ◌<◌, ◌≡◌, refl, sym, ap, ◌∙◌, subst, Bool, true, Option, some,
  List, [], ◌++◌, length, take, drop, write_at, length-write_at, length-take, take-write_at,
  take-write_at_before, drop-append_left, drop-take, take-take, drop_all, arith,
}
use linuxgameserver.Common.Words.{size_sub}
use linuxgameserver.Packet.Bytes.{bytes, value}
use linuxgameserver.Packet.{
  PacketBase, no_error, data_not_enough, current_data_len, set_data_len, zeros, cleared, new_packet,
  reset, set_error_code, add_data, direct_set_data, set_packet_id, get_packet_id,
}
use linuxgameserver.Packet.Region.{
  block, data_len, IsWhole, data_from, unread, payload, current_data_len-set_data_len,
}
use linuxgameserver.Packet.Flow.{add_data-Added}

pub length-zeros : (n : ℕ) → length (zeros n) ≡ n
unfolding zeros
length-zeros zero = refl
length-zeros (suc n) = ap suc (length-zeros n)

-- Nothing is in the packet, and nothing of it is read.
pub record IsFresh (p : PacketBase) : Type 0 where
  pub whole : IsWhole p
  pub empty : data_len p ≡ 2
  pub start : p.current_read_pos ≡ 2

module _ (n : ℕ) (h : 2 ≤ n) where
  length-cleared : length (cleared n) ≡ n
  length-cleared = length-write_at (zeros n) 0 (bytes 2 2) ∙ length-zeros n

  data_len-cleared : current_data_len (cleared n) ≡ 2
  data_len-cleared =
      current_data_len-set_data_len (zeros n) 2 (omega (arith, length-zeros n)) (omega arith)

-- The packet behind a constructor or `Reset`.
abbrev pub fresh : ℕ → PacketBase
fresh n = record {
  data_buf = some (cleared n);
  packet_buf_len = n;
  error_code = no_error;
  current_read_pos = 2;
  packet_type = 0;
}

pub fresh-IsFresh : (n : ℕ) → 2 ≤ n → n < 2 ^ 16 → IsFresh (fresh n)
fresh-IsFresh n h k = record {
  whole = record {
    held = refl;
    full = length-cleared n h;
    small = k;
    len_in = omega (arith, data_len-cleared n h);
    pos_in = omega (arith, data_len-cleared n h);
    two = omega arith;
  };
  empty = data_len-cleared n h;
  start = refl;
}

pub reset-fresh : (p : PacketBase) → IsWhole p → reset p ≡ fresh p.packet_buf_len
unfolding reset
reset-fresh p w =
    ap (λ (o : Option (List ℕ)). record (fresh p.packet_buf_len) { data_buf = o })
      (ap (Option.map (λ _. cleared p.packet_buf_len)) w.held)

-- A packet that comes from a pool and is reset is as a new one.
pub reset-new_packet : (p : PacketBase) → IsWhole p → new_packet p.packet_buf_len ≡ some (reset p)
unfolding new_packet
reset-new_packet p w = ground (arith, reset-fresh p w)

module _ (p : PacketBase) (f : IsFresh p) where
  open f use {whole as w}

  pub unread-IsFresh : unread p ≡ []
  unread-IsFresh =
      drop_all p.current_read_pos (take (data_len p) (block p))
        (omega (arith, f.start, f.empty, length-take (data_len p) (block p), w.full, w.len_in))

  direct_set_data_lem :
      (bs : List ℕ)
      → length bs + 2 ≤ p.packet_buf_len
      → direct_set_data p bs ≡ (
        true,
        record p { data_buf = some (write_at (set_data_len (block p) (length bs + 2)) 2 bs) },
      )
  unfolding direct_set_data size_sub
  direct_set_data_lem bs h = ground (arith, w.held)

  module _ (bs : List ℕ) (h : length bs + 2 ≤ p.packet_buf_len) where
    abbrev counted : List ℕ
    counted = set_data_len (block p) (length bs + 2)

    abbrev filled : List ℕ
    filled = write_at counted 2 bs

    length-counted : length counted ≡ p.packet_buf_len
    length-counted = length-write_at (block p) 0 (bytes 2 (length bs + 2)) ∙ w.full

    data_len-filled : current_data_len filled ≡ length bs + 2
    data_len-filled =
        ap value (take-write_at_before 2 counted 2 bs (omega arith))
        ∙ current_data_len-set_data_len (block p) (length bs + 2) (omega (arith, w.full))
            (omega (arith, w.small))

    data_from-filled : data_from 2 filled ≡ bs
    data_from-filled =
        ap (λ n. drop 2 (take n filled)) data_len-filled
        ∙ ap (drop 2) (
            take-write_at (length bs + 2) counted 2 bs (omega arith)
              (omega (arith, length-counted)))
        ∙ drop-append_left 2 (take 2 counted) bs
            (omega (arith, length-take 2 counted (omega (arith, length-counted))))
        ∙ ap (λ xs. xs ++ bs)
            (drop_all 2 (take 2 counted)
              (omega (arith, length-take 2 counted (omega (arith, length-counted)))))

    filled-IsWhole : IsWhole (record p { data_buf = some filled })
    filled-IsWhole = record {
      held = refl;
      full = length-write_at counted 2 bs ∙ length-counted;
      small = w.small;
      len_in = omega (arith, data_len-filled);
      pos_in = omega (arith, data_len-filled, f.start);
      two = w.two;
    }

  -- A received payload that fits is what is read of the packet, and all of it.
  pub direct_set_data-unread :
      (bs : List ℕ)
      → length bs + 2 ≤ p.packet_buf_len
      → let (ok, q) = direct_set_data p bs in (ok ≡ true) × IsWhole q × (unread q ≡ bs)
  direct_set_data-unread bs h =
      subst (λ (x : Bool × PacketBase). (x.0 ≡ true) × IsWhole x.1 × (unread x.1 ≡ bs))
        (sym (direct_set_data_lem bs h))
        (
          refl,
          filled-IsWhole bs h,
          ap (λ r. data_from r (filled bs h)) f.start ∙ data_from-filled bs h,
        )

get_packet_id-payload :
    (q : PacketBase) → 6 ≤ data_len q → get_packet_id q (block q) ≡ (value (take 4 (payload q)), q)
unfolding get_packet_id
get_packet_id-payload q h =
    ground arith
    ∙ ap (λ bs. (value bs, q))
        (sym (
          ap (take 4) (drop-take 2 (data_len q) (block q))
          ∙ take-take 4 (data_len q - 2) (drop 2 (block q)) (omega arith)))

get_packet_id_short :
    (q : PacketBase)
    → data_len q ≡ 2
    → get_packet_id q (block q) ≡ (0, set_error_code q data_not_enough)
unfolding get_packet_id
get_packet_id_short q h = ground arith

-- The id of the packet `q` is not found, and the bytes `bs` that are added stand in its place.
abbrev pub IsLost : PacketBase → List ℕ → Type 0
IsLost q bs =
    let q' = add_data q (some bs) in
    ((get_packet_id q (block q)).0 ≡ 0)
    × ((get_packet_id q (block q)).1.error_code ≡ data_not_enough)
    × (payload q' ≡ bs)
    × ((get_packet_id q' (block q')).0 ≡ value (take 4 bs))

-- The id of a packet.
module _ (p : PacketBase) (f : IsFresh p) (id : ℕ) (h : 6 ≤ p.packet_buf_len) where
  open f use {whole as w}

  abbrev marked : PacketBase
  marked = record p { data_buf = some (write_at (block p) 2 (bytes 4 id)) }

  set_packet_id_lem : set_packet_id p id ≡ marked
  unfolding set_packet_id
  set_packet_id_lem =
      ground arith
      ∙ ap (λ (o : Option (List ℕ)). record p { data_buf = o })
          (ap (Option.map (λ mem. write_at mem 2 (bytes 4 id))) w.held)

  data_len-marked : data_len marked ≡ 2
  data_len-marked =
      ap value (take-write_at_before 2 (block p) 2 (bytes 4 id) (omega arith)) ∙ f.empty

  marked-IsFresh : IsFresh marked
  marked-IsFresh = record {
    whole = record {
      held = refl;
      full = length-write_at (block p) 2 (bytes 4 id) ∙ w.full;
      small = w.small;
      len_in = omega (arith, data_len-marked);
      pos_in = omega (arith, data_len-marked, f.start);
      two = w.two;
    };
    empty = data_len-marked;
    start = f.start;
  }

  -- `SetPacketID` does not count the id: it is not found again, and the first data that are added
  -- take its place.
  pub set_packet_id_overwritten :
      (bs : List ℕ)
      → 4 ≤ length bs
      → length bs < 8192
      → length bs + 2 ≤ p.packet_buf_len
      → IsLost (set_packet_id p id) bs
  set_packet_id_overwritten bs four k l =
      let a = add_data-Added marked marked-IsFresh.whole bs k (omega (arith, data_len-marked, l)) in
      let paid : payload (add_data marked (some bs)) ≡ bs =
        a.paid
        ∙ ap (λ xs. xs ++ bs)
            (drop_all 2 (take (data_len marked) (block marked)) (
              omega (
                arith,
                data_len-marked,
                length-take (data_len marked) (block marked),
                marked-IsFresh.whole.full,
                marked-IsFresh.whole.len_in,
              ))) in
      subst (λ q. IsLost q bs) (sym set_packet_id_lem)
        (
          ap (λ x. x.0) (get_packet_id_short marked data_len-marked),
          ap (λ x. x.1.error_code) (get_packet_id_short marked data_len-marked),
          paid,
          ap (λ x. x.0)
                (get_packet_id-payload (add_data marked (some bs))
                  (omega (arith, a.grown, data_len-marked)))
              ∙ ap (λ xs. value (take 4 xs)) paid,
        )

-- ===== src/PacketPool/Sound.antt =====
-- Every packet of a pool lies in the class of its own buffer length, whatever the callers do.
use linuxgameserver.Common.{
  ℕ, zero, suc, ◌≤◌, ◌≡◌, refl, ap, subst, ◌∙◌, inl, inr, true, false, Option, none, some,
  Option-cases, List, [], ◌∷◌, ◌++◌, get_elem?, set, leb→le, eqb→eq, arith,
}
use linuxgameserver.CircleBuf.{FixLenCircleBuf, CircleError, no_error, add_items, get_one_item}
use linuxgameserver.CircleBuf.Valid.{IsValid, contents}
use linuxgameserver.CircleBuf.Refine.{
  add_items_refines, add_items-IsValid, get_one_item_refines, get_one_item-IsValid,
  item_size-add_items, item_size-get_one_item,
}
use linuxgameserver.CircleBuf.Queue
use linuxgameserver.PacketPool.{
  PacketPoolDesc, PacketPoolManager, pointer_size, select_index_for_packet_len,
  select_index_for_packet_len_equal, request_one_packet, free_one_item_to_pool,
}
use linuxgameserver.PacketPool.Select.{
  select_index_for_packet_len-IsFirst, select_index_for_packet_len_equal-IsFirst,
}

-- `buf_len` is `GetPacketBufLen` of a packet, which its constructor fixes.
module _ {P : Type 0} (buf_len : P → ℕ) where
  abbrev pub AllLen : ℕ → List P → Type 0
  AllLen n [] = Unit {0}
  AllLen n (p ∷ ps) = (buf_len p ≡ n) × AllLen n ps

  AllLen-append : (n : ℕ) (ps qs : List P) → AllLen n ps → AllLen n qs → AllLen n (ps ++ qs)
  AllLen-append n [] qs h k = k
  AllLen-append n (p ∷ ps) qs h k = (h.0, AllLen-append n ps qs h.1 k)

  pub record IsClass (d : PacketPoolDesc) (b : FixLenCircleBuf P) : Type 0 where
    pub valid : IsValid b
    pub pointers : b.item_size ≡ pointer_size
    pub lens : AllLen d.packet_len (contents b)

  abbrev pub Classes : List PacketPoolDesc → List (FixLenCircleBuf P) → Type 0
  Classes [] [] = Unit {0}
  Classes (d ∷ ds) (b ∷ bs) = IsClass d b × Classes ds bs
  Classes [] (b ∷ bs) = ⊥
  Classes (d ∷ ds) [] = ⊥

  abbrev pub IsSound : PacketPoolManager P → Type 0
  IsSound m = Classes m.descs m.bufs

  IsClass-at :
      (ds : List PacketPoolDesc) (bs : List (FixLenCircleBuf P)) (k : ℕ) {d : PacketPoolDesc}
      → Classes ds bs
      → get_elem? ds k ≡ some d
      → (b : FixLenCircleBuf P) × (get_elem? bs k ≡ some b) × IsClass d b
  IsClass-at [] [] k c e = cc
  IsClass-at [] (b ∷ bs) k c e = absurd c
  IsClass-at (d ∷ ds) [] k c e = absurd c
  IsClass-at (d ∷ ds) (b ∷ bs) zero c e =
      (b, refl, subst (λ x. IsClass x b) (ground (arith, e)) c.0)
  IsClass-at (d ∷ ds) (b ∷ bs) (suc k) c e = IsClass-at ds bs k c.1 e

  set_class :
      (ds : List PacketPoolDesc) (bs : List (FixLenCircleBuf P)) (k : ℕ) {d : PacketPoolDesc}
      {b : FixLenCircleBuf P}
      → Classes ds bs
      → get_elem? ds k ≡ some d
      → IsClass d b
      → Classes ds (set bs k b)
  set_class [] [] k c e h = c
  set_class [] (b ∷ bs) k c e h = absurd c
  set_class (d ∷ ds) [] k c e h = absurd c
  set_class (d ∷ ds) (b ∷ bs) zero {b = b'} c e h =
      (subst (λ x. IsClass x b') (ground (arith, e)) h, c.1)
  set_class (d ∷ ds) (b ∷ bs) (suc k) c e h = (c.0, set_class ds bs k c.1 e h)

  module _ {d : PacketPoolDesc} {b : FixLenCircleBuf P} (h : IsClass d b) where
    pub add-IsClass :
        (p : P) → buf_len p ≡ d.packet_len → IsClass d (add_items b (some (p ∷ [])) 1).1
    unfolding Queue.add
    add-IsClass p e = record {
      valid = add_items-IsValid (p ∷ []) 1 h.valid;
      pointers = item_size-add_items (p ∷ []) 1 h.valid ∙ h.pointers;
      lens = ground (
        arith,
        add_items_refines (p ∷ []) 1 h.valid,
        AllLen-append d.packet_len (contents b) (p ∷ []) h.lens (e, tt),
        h.lens,
      );
    }

    refines :
        let (e, out, b') = get_one_item b true pointer_size in
        (e, out, contents b') ≡ Queue.get (contents b)
    refines = get_one_item_refines pointer_size h.valid (omega (arith, h.pointers))

    get-IsClass : IsClass d (get_one_item b true pointer_size).2
    unfolding Queue.get
    get-IsClass = record {
      valid = get_one_item-IsValid true pointer_size h.valid;
      pointers = item_size-get_one_item b true pointer_size ∙ h.pointers;
      lens = tail (contents b) (contents (get_one_item b true pointer_size).2) h.lens refines;
    }
      where
        tail :
            (q q' : List P) {e : CircleError} {out : Option P}
            → AllLen d.packet_len q
            → (e, out, q') ≡ Queue.get q
            → AllLen d.packet_len q'
        tail [] q' l g = subst (AllLen d.packet_len) {x = []} {y = q'} (ground (arith, g)) tt
        tail (x ∷ q) q' l g = subst (AllLen d.packet_len) {x = q} {y = q'} (ground (arith, g)) l.1

    get_buf_len : (p : P) → (get_one_item b true pointer_size).1 ≡ some p → buf_len p ≡ d.packet_len
    unfolding Queue.get
    get_buf_len p o = head (contents b) h.lens (refines)
      where
        head :
            (q : List P) {e : CircleError} {q' : List P}
            → AllLen d.packet_len q
            → (e, (get_one_item b true pointer_size).1, q') ≡ Queue.get q
            → buf_len p ≡ d.packet_len
        head [] l g = absurd (ground (arith, g, o))
        head (x ∷ q) l g = ap buf_len {x = p} {y = x} (ground (arith, g, o)) ∙ l.0

  abbrev given : CircleError → Option P → Option P
  given no_error out = out
  given _ out = none

  given-some : (e : CircleError) (out : Option P) (p : P) → given e out ≡ some p → out ≡ some p
  given-some e out p h = ground (arith, h)

  request_none :
      (m : PacketPoolManager P) (len : ℕ)
      → select_index_for_packet_len m len ≡ none
      → request_one_packet m len ≡ (none, m)
  unfolding request_one_packet
  request_none m len e = rw (e, request_one_packet)

  request_at :
      (m : PacketPoolManager P) (len i : ℕ) (b : FixLenCircleBuf P)
      → select_index_for_packet_len m len ≡ some i
      → get_elem? m.bufs i ≡ some b
      → request_one_packet m len ≡ (
          let (e, out, b') = get_one_item b true pointer_size in
          (given e out, record m { bufs = set m.bufs i b' }))
  unfolding request_one_packet
  request_at m len i b h k = ground arith

  free_at :
      (m : PacketPoolManager P) (p : P) (len i : ℕ) (b : FixLenCircleBuf P)
      → select_index_for_packet_len_equal m len ≡ some i
      → get_elem? m.bufs i ≡ some b
      → (free_one_item_to_pool m p len).1
        ≡ record m { bufs = set m.bufs i (add_items b (some (p ∷ [])) 1).1 }
  unfolding free_one_item_to_pool
  free_at m p len i b h k = ground arith

  free_none :
      (m : PacketPoolManager P) (p : P) (len : ℕ)
      → select_index_for_packet_len_equal m len ≡ none
      → free_one_item_to_pool m p len ≡ (false, m)
  unfolding free_one_item_to_pool
  free_none m p len e = rw (e, free_one_item_to_pool)

  request_one_packet_both :
      (m : PacketPoolManager P) (len : ℕ)
      → IsSound m
      → let (out, m') = request_one_packet m len in
        IsSound m' × ((p : P) → out ≡ some p → len ≤ buf_len p)
  request_one_packet_both m len s = elim (Option-cases (select_index_for_packet_len m len)) [
    | inl e ↦ rw (request_none m len e) (s, λ p o. cc)
    | inr (i, e) ↦
        let f = select_index_for_packet_len-IsFirst m len i e in
        let (b, eb, c) = IsClass-at m.descs m.bufs i s f.at in
        rw (request_at m len i b e eb) (
          set_class m.descs m.bufs i s f.at (get-IsClass c),
          λ p o.
              rw (get_buf_len c p (given-some (get_one_item b true pointer_size).0 _ p o))
                (leb→le _ _ f.holds),
        )
  ]

  -- The pool stays sound when a packet is asked for.
  pub request_one_packet-IsSound :
      (m : PacketPoolManager P) (len : ℕ) → IsSound m → IsSound (request_one_packet m len).1
  request_one_packet-IsSound m len s = (request_one_packet_both m len s).0

  -- A packet that a sound pool hands out has a buffer for the length that was asked for.
  pub request_one_packet_len :
      (m : PacketPoolManager P) (len : ℕ) (p : P)
      → IsSound m
      → (request_one_packet m len).0 ≡ some p
      → len ≤ buf_len p
  request_one_packet_len m len p s = (request_one_packet_both m len s).1 p

  -- A packet that comes back under its own length keeps the pool sound.
  pub free_one_item_to_pool-IsSound :
      (m : PacketPoolManager P) (p : P)
      → IsSound m
      → IsSound (free_one_item_to_pool m p (buf_len p)).1
  free_one_item_to_pool-IsSound m p s =
      elim (Option-cases (select_index_for_packet_len_equal m (buf_len p))) [
        | inl e ↦ rw (free_none m p (buf_len p) e) s
        | inr (i, e) ↦
            let f = select_index_for_packet_len_equal-IsFirst m (buf_len p) i e in
            let (b, eb, c) = IsClass-at m.descs m.bufs i s f.at in
            rw (free_at m p (buf_len p) i b e eb)
              (set_class m.descs m.bufs i s f.at (add-IsClass c p (eqb→eq _ _ f.holds)))
      ]

-- ===== src/PacketPool/Fill.antt =====
-- `Initialize` fills each class with packets of its length, and the commit to a global manager.
use linuxgameserver.Common.{
  ℕ, zero, suc, ◌+◌, ◌^◌, ◌<◌, ◌≡◌, refl, sym, ap, subst, ◌∙◌, inl, inr, Bool, true, false, Option,
  none, some, Option-cases, List, [], ◌∷◌, length, length-append, arith,
}
use linuxgameserver.CircleBuf.{FixLenCircleBuf, no_error, add_items, initialize}
use linuxgameserver.CircleBuf.Valid.{contents}
use linuxgameserver.CircleBuf.Refine.{add_items_refines}
use linuxgameserver.CircleBuf.Look.{initialize-IsValid}
use linuxgameserver.CircleBuf.Queue
use linuxgameserver.PacketPool.{
  PacketPoolDesc, PacketPoolManager, pointer_size, new_buf, fill, fill_all, initialize_pool,
  order_and_set_packet_desc,
}
use linuxgameserver.PacketPool.Order.{least, suffix_least, order_and_set_descs}
use linuxgameserver.PacketPool.Sound.{AllLen, IsClass, Classes, IsSound, add-IsClass}

-- An `int` counts the items of each class.
abbrev pub AllSmall : List PacketPoolDesc → Type 0
AllSmall [] = Unit {0}
AllSmall (d ∷ ds) = (d.max_alloc_size < 2 ^ 31) × AllSmall ds

least-small :
    (d : PacketPoolDesc) (es : List PacketPoolDesc)
    → d.max_alloc_size < 2 ^ 31
    → AllSmall es
    → (least d es).max_alloc_size < 2 ^ 31
unfolding least
least-small d [] h s = h
least-small d (e ∷ es) h s = ground (arith, least-small d es h s.1, least-small e es s.0 s.1)

suffix_least-AllSmall : (ds : List PacketPoolDesc) → AllSmall ds → AllSmall (suffix_least ds)
unfolding suffix_least
suffix_least-AllSmall [] s = tt
suffix_least-AllSmall (d ∷ ds) s = (least-small d ds s.0 s.1, suffix_least-AllSmall ds s.1)

module _ {P : Type 0} (buf_len : P → ℕ) (alloc : ℕ → Option (List P))
    (new_packet : ℕ → ℕ → Option P)
    (alloc_len : (k : ℕ) (mem : List P) → alloc k ≡ some mem → length mem ≡ k)
    (packet_len : (n len : ℕ) (p : P) → new_packet n len ≡ some p → buf_len p ≡ len) where
  -- A class with `k` packets.
  pub record Holds (d : PacketPoolDesc) (k : ℕ) (b : FixLenCircleBuf P) : Type 0 where
    pub class : IsClass buf_len d b
    pub number : length (contents b) ≡ k

  Holds-eq :
      {d : PacketPoolDesc} {i j : ℕ} {b : FixLenCircleBuf P} → i ≡ j → Holds d i b → Holds d j b
  Holds-eq e h = record { class = h.class; number = h.number ∙ e }

  add-Holds :
      {d : PacketPoolDesc} {k : ℕ} {b : FixLenCircleBuf P} (p : P)
      → Holds d k b
      → buf_len p ≡ d.packet_len
      → (add_items b (some (p ∷ [])) 1).0 ≡ no_error
      → Holds d (suc k) (add_items b (some (p ∷ [])) 1).1
  unfolding Queue.add
  add-Holds {d} {k} {b} p h e ok = record {
    class = add-IsClass buf_len h.class p e;
    number = ground (
      arith,
      add_items_refines (p ∷ []) 1 h.class.valid,
      length-append (contents b) (p ∷ []),
      h.number,
    );
  }

  fill-none :
      (k n len : ℕ) (b : FixLenCircleBuf P)
      → new_packet n len ≡ none
      → (fill alloc new_packet (suc k) n len b).0 ≡ false
  unfolding fill
  fill-none k n len b e = ground arith

  fill-some :
      (k n len : ℕ) (b : FixLenCircleBuf P) (p : P)
      → new_packet n len ≡ some p
      → (fill alloc new_packet (suc k) n len b).0 ≡ true
      → ((add_items b (some (p ∷ [])) 1).0 ≡ no_error)
        × (fill alloc new_packet (suc k) n len b
            ≡ fill alloc new_packet k (suc n) len (add_items b (some (p ∷ [])) 1).1)
  unfolding fill
  fill-some k n len b p e ok = ground arith

  fill-Holds :
      (k n j : ℕ) {d : PacketPoolDesc} {b : FixLenCircleBuf P}
      → Holds d j b
      → (fill alloc new_packet k n d.packet_len b).0 ≡ true
      → Holds d (j + k) (fill alloc new_packet k n d.packet_len b).2
  unfolding fill
  fill-Holds zero n j {d} {b} h ok = Holds-eq {i = j} {j = j + 0} (omega arith) h
  fill-Holds (suc k) n j {d} {b} h ok = elim (Option-cases (new_packet n d.packet_len)) [
    | inl e ↦ absurd (ground (arith, fill-none k n d.packet_len b e, ok))
    | inr (p, e) ↦
        let (added, step) = fill-some k n d.packet_len b p e ok in
        let rest =
          fill-Holds k (suc n) (suc j) (add-Holds p h (packet_len n d.packet_len p e) added)
            (ap (λ r. r.0) (sym step) ∙ ok) in
        subst (λ r. Holds d (j + suc k) r.2) (sym step)
          (Holds-eq {i = suc j + k} {j = j + suc k} (omega arith) rest)
  ]

  abbrev pub AllHold : List PacketPoolDesc → List (FixLenCircleBuf P) → Type 0
  AllHold [] [] = Unit {0}
  AllHold (d ∷ ds) (b ∷ bs) = Holds d d.init_size b × AllHold ds bs
  AllHold [] (b ∷ bs) = ⊥
  AllHold (d ∷ ds) [] = ⊥

  new-Holds :
      (d : PacketPoolDesc)
      → d.max_alloc_size < 2 ^ 31
      → (initialize alloc new_buf pointer_size d.max_alloc_size).0 ≡ true
      → Holds d 0 (initialize alloc new_buf pointer_size d.max_alloc_size).1
  unfolding new_buf
  new-Holds d small ok =
      let (v, e, m, s) =
        initialize-IsValid alloc new_buf pointer_size d.max_alloc_size alloc_len (refl, refl) small
          ok in
      record {
        class = record {
          valid = v;
          pointers = s;
          lens = subst (AllLen buf_len d.packet_len) (sym e) tt;
        };
        number = ap length e;
      }

  abbrev made : PacketPoolDesc → Bool × FixLenCircleBuf P
  made d = initialize alloc new_buf pointer_size d.max_alloc_size

  abbrev filled : ℕ → PacketPoolDesc → Bool × ℕ × FixLenCircleBuf P
  filled n d = fill alloc new_packet d.init_size n d.packet_len (made d).1

  fill_all_step :
      (n : ℕ) (d : PacketPoolDesc) (ds : List PacketPoolDesc)
      → (fill_all alloc new_packet n (d ∷ ds)).0 ≡ true
      → let (rest, n'', bs) = fill_all alloc new_packet (filled n d).1 ds in
        ((made d).0 ≡ true)
        × ((filled n d).0 ≡ true)
        × (rest ≡ true)
        × ((fill_all alloc new_packet n (d ∷ ds)).2 ≡ (filled n d).2 ∷ bs)
  unfolding fill_all
  fill_all_step n d ds ok = ground arith

  fill_all-AllHold :
      (n : ℕ) (ds : List PacketPoolDesc)
      → AllSmall ds
      → (fill_all alloc new_packet n ds).0 ≡ true
      → AllHold ds (fill_all alloc new_packet n ds).2
  unfolding fill_all
  fill_all-AllHold n [] s ok = tt
  fill_all-AllHold n (d ∷ ds) s ok =
      let (m, f, r, e) = fill_all_step n d ds ok in
      subst (AllHold (d ∷ ds)) (sym e) (
        Holds-eq {i = 0 + d.init_size} {j = d.init_size} (omega arith)
            (fill-Holds d.init_size n 0 (new-Holds d s.0 m) f),
        fill_all-AllHold (filled n d).1 ds s.1 r,
      )

  AllHold-Classes :
      (ds : List PacketPoolDesc) (bs : List (FixLenCircleBuf P))
      → AllHold ds bs
      → Classes buf_len ds bs
  AllHold-Classes [] [] h = tt
  AllHold-Classes [] (b ∷ bs) h = h
  AllHold-Classes (d ∷ ds) [] h = h
  AllHold-Classes (d ∷ ds) (b ∷ bs) h = (h.0.class, AllHold-Classes ds bs h.1)

  abbrev ordered : PacketPoolManager P → List PacketPoolDesc → List PacketPoolDesc
  ordered m ds = (order_and_set_packet_desc m ds).1.descs

  initialize_pool_ok :
      (m : PacketPoolManager P) (ds : List PacketPoolDesc) (n : ℕ)
      → AllSmall ds
      → (initialize_pool alloc new_packet m ds n).0 ≡ true
      → let (all, n', bs) = fill_all alloc new_packet n (ordered m ds) in
        AllSmall (ordered m ds)
        × (all ≡ true)
        × ((initialize_pool alloc new_packet m ds n).2
            ≡ record (order_and_set_packet_desc m ds).1 { bufs = bs })
  unfolding initialize_pool
  initialize_pool_ok m ds n s ok = (small (ground arith), ground arith, ground arith)
    where
      small : (order_and_set_packet_desc m ds).0 ≡ true → AllSmall (ordered m ds)
      small h =
          subst AllSmall {x = suffix_least ds} (sym (order_and_set_descs m ds h))
            (suffix_least-AllSmall ds s)

  -- A manager that `Initialize` accepts is sound, and each class has its `unInitSize` packets. The
  -- largest numbers of packets asked for fit into an int.
  pub initialize_pool-IsSound :
      (m : PacketPoolManager P) (ds : List PacketPoolDesc) (n : ℕ)
      → AllSmall ds
      → (initialize_pool alloc new_packet m ds n).0 ≡ true
      → let m' = (initialize_pool alloc new_packet m ds n).2 in
        IsSound buf_len m' × AllHold m'.descs m'.bufs
  initialize_pool-IsSound m ds n s ok =
      let (small, filled_all, e) = initialize_pool_ok m ds n s ok in
      let held = fill_all-AllHold n (ordered m ds) small filled_all in
      subst (λ (x : PacketPoolManager P). IsSound buf_len x × AllHold x.descs x.bufs) (sym e)
        (AllHold-Classes (ordered m ds) _ held, held)

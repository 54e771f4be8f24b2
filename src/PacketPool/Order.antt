-- ===== src/PacketPool/Order.antt =====
-- What the sorting loops of `OrderAndSetPacketDesc` compute.
use linuxgameserver.Common.{
  ℕ, suc, ◌+◌, ◌-◌, ◌<◌, ◌≡◌, refl, sym, ap, ap₂, ◌∙◌, true, some, List, [], ◌∷◌, ◌++◌,
  if◌then◌else◌, ltb, length, length-append, get_elem?, set, get_elem?-middle, set-middle,
  append_assoc, arith,
}
use linuxgameserver.PacketPool.{
  PacketPoolDesc, PacketPoolManager, order_and_set_packet_desc, exchange, inner_loop, outer_loop,
  order_packet_desc,
}

abbrev lesser : PacketPoolDesc → PacketPoolDesc → PacketPoolDesc
lesser a b = if ltb b.packet_len a.packet_len then b else a

-- The description of the least length among `d` and `ds`, the first one of several.
unfoldable pub least : PacketPoolDesc → List PacketPoolDesc → PacketPoolDesc
least d [] = d
least d (e ∷ es) = least (lesser d e) es

-- Each place holds the least description from there on.
unfoldable pub suffix_least : List PacketPoolDesc → List PacketPoolDesc
suffix_least [] = []
suffix_least (d ∷ ds) = least d ds ∷ suffix_least ds

module _ (j : ℕ) (pre mid post : List PacketPoolDesc) (a b : PacketPoolDesc)
    (h : j ≡ length pre + 1 + length mid) where
  far : j ≡ length (pre ++ (a ∷ mid))
  far = omega (arith, length-append pre (a ∷ mid))

  get_far : get_elem? (pre ++ (a ∷ (mid ++ (b ∷ post)))) j ≡ some b
  get_far =
      rw (← append_assoc pre (a ∷ mid) (b ∷ post))
        (get_elem?-middle j (pre ++ (a ∷ mid)) b post far)

  set_far : set (pre ++ (a ∷ (mid ++ (b ∷ post)))) j b ≡ pre ++ (a ∷ (mid ++ (b ∷ post)))
  set_far =
      rw (← append_assoc pre (a ∷ mid) (b ∷ post)) (set-middle j (pre ++ (a ∷ mid)) b b post far)

-- The second assignment of the exchange changes nothing.
exchange_lem :
    (i j : ℕ) (pre mid post : List PacketPoolDesc) (a b : PacketPoolDesc)
    → i ≡ length pre
    → j ≡ i + 1 + length mid
    → exchange (pre ++ (a ∷ (mid ++ (b ∷ post)))) i j ≡ pre ++ (lesser a b ∷ (mid ++ (b ∷ post)))
unfolding exchange
exchange_lem i j pre mid post a b h k = ground (
  arith,
  get_elem?-middle i pre a (mid ++ (b ∷ post)),
  get_elem?-middle i pre b (mid ++ (b ∷ post)),
  set-middle i pre a b (mid ++ (b ∷ post)),
  get_far j pre mid post a b,
  set_far j pre mid post b b,
)

inner_loop_lem :
    (i j : ℕ) (pre mid post : List PacketPoolDesc) (a : PacketPoolDesc)
    → i ≡ length pre
    → j ≡ i + 1 + length mid
    → inner_loop (length post) i j (pre ++ (a ∷ (mid ++ post)))
      ≡ pre ++ (least a post ∷ (mid ++ post))
unfolding inner_loop least
inner_loop_lem i j pre mid [] a h k = refl
inner_loop_lem i j pre mid (b ∷ post) a h k =
    ap (inner_loop (length post) i (suc j)) (exchange_lem i j pre mid post a b h k)
    ∙ ap (λ l. inner_loop (length post) i (suc j) (pre ++ (lesser a b ∷ l)))
        (sym (append_assoc mid (b ∷ []) post))
    ∙ inner_loop_lem i (suc j) pre (mid ++ (b ∷ [])) post (lesser a b) h
        (omega (arith, length-append mid (b ∷ [])))
    ∙ ap (λ l. pre ++ (least (lesser a b) post ∷ l)) (append_assoc mid (b ∷ []) post)

outer_loop_lem :
    (i n : ℕ) (pre post : List PacketPoolDesc)
    → i ≡ length pre
    → n ≡ i + length post
    → outer_loop (length post) i n (pre ++ post) ≡ pre ++ suffix_least post
unfolding outer_loop suffix_least
outer_loop_lem i n pre [] h k = refl
outer_loop_lem i n pre (a ∷ post) h k =
    ap (λ c. outer_loop (length post) (suc i) n (inner_loop c i (suc i) (pre ++ (a ∷ post))))
      {x = n - suc i} {y = length post} (omega arith)
    ∙ ap (outer_loop (length post) (suc i) n) (
        inner_loop_lem i (suc i) pre [] post a h (omega arith)
        ∙ sym (append_assoc pre (least a post ∷ []) post))
    ∙ outer_loop_lem (suc i) n (pre ++ (least a post ∷ [])) post
        (omega (arith, length-append pre (least a post ∷ []))) (omega arith)
    ∙ append_assoc pre (least a post ∷ []) (suffix_least post)

-- The loops put into each place the least description from there on, whatever they are given.
pub order_packet_desc-eq-suffix_least :
    (ds : List PacketPoolDesc) → order_packet_desc ds ≡ suffix_least ds
unfolding order_packet_desc
order_packet_desc-eq-suffix_least ds = outer_loop_lem 0 (length ds) [] ds refl (omega arith)

-- The lengths grow along the list.
abbrev pub IsAscending : List PacketPoolDesc → Type 0
IsAscending [] = Unit {0}
IsAscending (d ∷ []) = Unit {0}
IsAscending (d ∷ (e ∷ es)) = (d.packet_len < e.packet_len) × IsAscending (e ∷ es)

least_ascending :
    (d : PacketPoolDesc) (es : List PacketPoolDesc) → IsAscending (d ∷ es) → least d es ≡ d
unfolding least
least_ascending d [] h = refl
least_ascending d (e ∷ []) h = ground arith
least_ascending d (e ∷ (f ∷ es)) h =
    ap (λ x. least x (f ∷ es)) {x = lesser d e} {y = d} (ground arith)
    ∙ least_ascending d (f ∷ es) (omega arith, h.1.1)

suffix_least_ascending : (ds : List PacketPoolDesc) → IsAscending ds → suffix_least ds ≡ ds
unfolding suffix_least least
suffix_least_ascending [] h = refl
suffix_least_ascending (d ∷ []) h = refl
suffix_least_ascending (d ∷ (e ∷ es)) h =
    ap₂ ◌∷◌ (least_ascending d (e ∷ es) h) (suffix_least_ascending (e ∷ es) h.1)

-- Descriptions that stand in order already are kept as they are.
pub order_packet_desc_ascending :
    (ds : List PacketPoolDesc) → IsAscending ds → order_packet_desc ds ≡ ds
order_packet_desc_ascending ds h =
    order_packet_desc-eq-suffix_least ds ∙ suffix_least_ascending ds h

pub order_and_set_descs :
    {P : Type 0} (m : PacketPoolManager P) (ds : List PacketPoolDesc)
    → (order_and_set_packet_desc m ds).0 ≡ true
    → (order_and_set_packet_desc m ds).1.descs ≡ suffix_least ds
unfolding order_and_set_packet_desc
order_and_set_descs m ds h = ground (arith, order_packet_desc-eq-suffix_least ds)

-- ===== src/Session/Packets.antt =====
-- The bytes of whole packets, and what reading them gives.
use linuxgameserver.Common.{
  ℕ, zero, suc, ◌+◌, ◌-◌, ◌≤◌, ◌≡◌, sym, ap, ap₂, ◌∙◌, false, List, [], ◌∷◌, ◌++◌, length, drop,
  length-append, take_all, drop_all, append-nil, append_assoc, arith,
}
use linuxgameserver.Session.{max_packet_size, packet_len}
use linuxgameserver.Session.Frames.{pending, is_bad, decode, encode, decode_short}
use linuxgameserver.Session.Chunks.{front, decode_front, decode-append}

abbrev pub encode_all : List (List ℕ) → List ℕ
encode_all [] = []
encode_all (p ∷ ps) = encode p ++ encode_all ps

-- Each payload fits in a packet.
abbrev pub AllFit : List (List ℕ) → Type 0
AllFit [] = Unit
AllFit (p ∷ ps) = (length p + 2 ≤ max_packet_size) × AllFit ps

length-encode : (p : List ℕ) → length (encode p) ≡ length p + 2
unfolding encode
length-encode p = omega arith

packet_len-encode : (p : List ℕ) → packet_len (encode p) ≡ length p + 2
unfolding encode
packet_len-encode p = omega arith

front-encode : (p : List ℕ) → front (encode p) ≡ p
unfolding encode
front-encode p = take_all (packet_len (encode p) - 2) p (omega (arith, packet_len-encode p))

rest-encode : (p : List ℕ) → drop (packet_len (encode p)) (encode p) ≡ []
rest-encode p =
    drop_all (packet_len (encode p)) (encode p)
      (omega (arith, packet_len-encode p, length-encode p))

encode_good : (p : List ℕ) → length p + 2 ≤ max_packet_size → is_bad (packet_len (encode p)) ≡ false
encode_good p h = ground (arith, packet_len-encode p)

-- Reading whole packets gives back their payloads.
pub decode-encode_all :
    (f : ℕ) (ps packets : List (List ℕ))
    → AllFit ps
    → length (encode_all ps) ≤ f
    → decode f packets (encode_all ps) ≡ pending (packets ++ ps) []
decode-encode_all f [] packets h k =
    decode_short packets [] f (omega arith) ∙ ap (λ qs. pending qs []) (sym (append-nil packets))
decode-encode_all zero (p ∷ ps) packets h k =
    absurd (omega (arith, length-append (encode p) (encode_all ps), length-encode p))
decode-encode_all (suc f) (p ∷ ps) packets (h, hs) k =
    decode_front packets (encode p) (encode_all ps) f f (omega (arith, length-encode p))
      (encode_good p h) (omega (arith, length-encode p, packet_len-encode p)) k k
    ∙ ap₂ (λ q r. decode f (packets ++ (q ∷ [])) (r ++ encode_all ps)) (front-encode p)
        (rest-encode p)
    ∙ decode-encode_all f ps (packets ++ (p ∷ [])) hs
        (omega (arith, length-append (encode p) (encode_all ps), length-encode p))
    ∙ ap (λ qs. pending qs []) (append_assoc packets (p ∷ []) ps)

-- Packets that arrive in two parts, cut at any byte, are all read: what the first part leaves over
-- is read with the second part.
pub decode-cut :
    (f k : ℕ) (ps qs : List (List ℕ)) (a b rest : List ℕ)
    → AllFit ps
    → a ++ b ≡ encode_all ps
    → length a ≤ f
    → length (rest ++ b) ≤ k
    → decode f [] a ≡ pending qs rest
    → decode k qs (rest ++ b) ≡ pending ps []
decode-cut f k ps qs a b rest h e ha hk d =
    sym (decode-append f (length (a ++ b)) k [] qs a b rest ha (omega arith) hk d)
    ∙ ap (decode (length (a ++ b)) []) e
    ∙ decode-encode_all (length (a ++ b)) ps [] h (omega (arith, ap length e))

-- ===== src/Session/Chunks.antt =====
-- How a stream may be cut: reading does not depend on the places where the bytes arrive in parts.
use linuxgameserver.Common.{
  ℕ, zero, suc, ◌+◌, ◌-◌, ◌≤◌, ◌≡◌, ◌≢◌, refl, sym, ap, ap₂, ◌∙◌, inl, inr, false, Bool-cases, List,
  [], ◌∷◌, ◌++◌, ltb, leb, leb→le, ltb→le, ltb→lt, length, take, drop, length-drop, length-append,
  drop-append_left, take-append_left, arith,
}
use linuxgameserver.Session.{packet_len}
use linuxgameserver.Session.Frames.{
  pending, broken, is_bad, decode, decode_step, decode_short, decode_bad,
}

-- The payload of the packet in front, and the packets with it.
abbrev pub front : List ℕ → List ℕ
front bs = take (packet_len bs - 2) (drop 2 bs)

abbrev pub more : List (List ℕ) → List ℕ → List (List ℕ)
more packets bs = packets ++ (front bs ∷ [])

pub decode_fuel :
    (f g : ℕ) (packets : List (List ℕ)) (bs : List ℕ)
    → length bs ≤ f
    → length bs ≤ g
    → decode f packets bs ≡ decode g packets bs
unfolding decode
decode_fuel zero zero packets bs h k = refl
decode_fuel zero (suc g) packets bs h k = ground arith
decode_fuel (suc f) zero packets bs h k = ground arith
decode_fuel (suc f) (suc g) packets bs h k = elim (Bool-cases (ltb (length bs) 2)) [
  | inl e ↦ ground arith
  | inr e ↦ elim (Bool-cases (is_bad (packet_len bs))) [
    | inl b ↦ ground arith
    | inr b ↦ ground (
      arith,
      decode_fuel f g (more packets bs) (drop (packet_len bs) bs)
          (ground (arith, length-drop (packet_len bs) bs))
          (ground (arith, length-drop (packet_len bs) bs)),
    )
  ]
]

pub packet_len-append : (a b : List ℕ) → 2 ≤ length a → packet_len (a ++ b) ≡ packet_len a
packet_len-append [] b h = absurd (omega arith)
packet_len-append (x ∷ []) b h = absurd (omega arith)
packet_len-append (x ∷ (y ∷ a)) b h = refl

front-append : (a b : List ℕ) → 2 ≤ length a → packet_len a ≤ length a → front (a ++ b) ≡ front a
front-append a b h k =
    ap₂ (λ n xs. take (n - 2) xs) (packet_len-append a b h) (drop-append_left 2 a b h)
    ∙ take-append_left (packet_len a - 2) (drop 2 a) b (omega (arith, length-drop 2 a))

rest-append :
    (a b : List ℕ)
    → 2 ≤ length a
    → packet_len a ≤ length a
    → drop (packet_len (a ++ b)) (a ++ b) ≡ drop (packet_len a) a ++ b
rest-append a b h k =
    ap (λ n. drop n (a ++ b)) (packet_len-append a b h) ∙ drop-append_left (packet_len a) a b k

pub good_len : (n : ℕ) → is_bad n ≡ false → 2 ≤ n
good_len n h = ground arith

pub length-rest :
    (f : ℕ) (a b : List ℕ)
    → is_bad (packet_len a) ≡ false
    → packet_len a ≤ length a
    → length (a ++ b) ≤ suc f
    → length (drop (packet_len a) a ++ b) ≤ f
length-rest f a b good k l = omega (
  arith,
  length-append a b,
  length-append (drop (packet_len a) a) b,
  length-drop (packet_len a) a,
  good_len (packet_len a) good,
)

module _ (packets : List (List ℕ)) (a b : List ℕ) where
  pub decode_front :
      (f g : ℕ)
      → 2 ≤ length a
      → is_bad (packet_len a) ≡ false
      → packet_len a ≤ length a
      → length (a ++ b) ≤ suc f
      → length (a ++ b) ≤ suc g
      → decode (suc f) packets (a ++ b) ≡ decode g (more packets a) (drop (packet_len a) a ++ b)
  decode_front f g h good k l m =
      decode_step packets (a ++ b) f (omega (arith, length-append a b))
        (ap is_bad (packet_len-append a b h) ∙ good)
      ∙ ground (arith, packet_len-append a b h, length-append a b)
      ∙ ap₂ (decode f) (ap (λ p. packets ++ (p ∷ [])) (front-append a b h k)) (rest-append a b h k)
      ∙ decode_fuel f g (more packets a) (drop (packet_len a) a ++ b) (length-rest f a b good k l)
          (length-rest g a b good k m)

  -- The first part ends inside of a packet.
  decode_stopped :
      {ps : List (List ℕ)} {rest : List ℕ} (f g k : ℕ)
      → length (a ++ b) ≤ g
      → length (rest ++ b) ≤ k
      → decode f packets a ≡ pending packets a
      → decode f packets a ≡ pending ps rest
      → decode g packets (a ++ b) ≡ decode k ps (rest ++ b)
  decode_stopped {ps} {rest} f g k hg hk s e =
      let same : pending packets a ≡ pending ps rest = sym s ∙ e in
      decode_fuel g (g + k) packets (a ++ b) hg (omega (arith, hg))
      ∙ ap (λ x. elim x [ pending qs r ↦ decode (g + k) qs (r ++ b) | broken qs ↦ broken qs ]) same
      ∙ decode_fuel (g + k) k ps (rest ++ b) (omega (arith, hk)) hk

pub pending≢broken : {ps qs : List (List ℕ)} {rest : List ℕ} → pending ps rest ≢ broken qs
pending≢broken e = cc

-- What is read of a first part, then of the rest behind it, is what is read of both at once.
pub decode-append :
    (f g k : ℕ) (packets ps : List (List ℕ)) (a b rest : List ℕ)
    → length a ≤ f
    → length (a ++ b) ≤ g
    → length (rest ++ b) ≤ k
    → decode f packets a ≡ pending ps rest
    → decode g packets (a ++ b) ≡ decode k ps (rest ++ b)
decode-append zero g k packets ps a b rest ha hg hk e =
    decode_stopped packets a b 0 g k hg hk (decode_short packets a 0 (omega arith)) e
decode-append (suc f) zero k packets ps a b rest ha hg hk e =
    decode_stopped packets a b (suc f) 0 k hg hk
      (decode_short packets a (suc f) (omega (arith, length-append a b))) e
decode-append (suc f) (suc g) k packets ps a b rest ha hg hk e =
    elim (Bool-cases (ltb (length a) 2)) [
      | inl s ↦
          decode_stopped packets a b (suc f) (suc g) k hg hk
            (decode_short packets a (suc f) (ltb→lt _ _ s)) e
      | inr s ↦ elim (Bool-cases (is_bad (packet_len a))) [
        | inl bad ↦
            absurd (pending≢broken (sym e ∙ decode_bad packets a (suc f) (ltb→le _ _ s) ha bad))
        | inr good ↦ elim (Bool-cases (leb (packet_len a) (length a))) [
          | inl l ↦
              decode_front packets a b g g (ltb→le _ _ s) good (leb→le _ _ l) hg hg
              ∙ decode-append f g k (more packets a) ps (drop (packet_len a) a) b rest
                  (ground (arith, length-drop (packet_len a) a))
                  (length-rest g a b good (leb→le _ _ l) hg) hk
                  (sym (decode_step packets a f (ltb→le _ _ s) good ∙ ground arith) ∙ e)
          | inr l ↦
              decode_stopped packets a b (suc f) (suc g) k hg hk
                (decode_step packets a f (ltb→le _ _ s) good ∙ ground arith) e
        ]
      ]
    ]

-- ===== src/Session/Frames.antt =====
-- The stream of packets on a connection, apart from any buffer: each is a length word of two bytes,
-- which counts itself, and a payload.
use linuxgameserver.Common.{
  ℕ, zero, suc, ◌+◌, ◌-◌, ◌/◌, ◌%◌, ◌≤◌, ◌<◌, ◌≡◌, refl, Bool, true, false, List, [], ◌∷◌, ◌++◌,
  if◌then◌else◌, ltb, leb, length, take, drop, arith,
}
use linuxgameserver.Session.{max_packet_size, packet_len}

-- What reading a stream comes to: it waits for more bytes behind the packets, or it is broken.
pub data Stream : Type 0 where
  pending : List (List ℕ) → List ℕ → Stream
  broken : List (List ℕ) → Stream

abbrev pub is_bad : ℕ → Bool
is_bad len = if ltb max_packet_size len then true else ltb len 2

-- The packets of the bytes `bs`, behind `packets`; the fuel is at least the number of the bytes.
unfoldable pub decode : ℕ → List (List ℕ) → List ℕ → Stream
decode zero packets bs = pending packets bs
decode (suc fuel) packets bs =
    let len = packet_len bs in
    let rest = decode fuel (packets ++ (take (len - 2) (drop 2 bs) ∷ [])) (drop len bs) in
    if ltb (length bs) 2
    then pending packets bs
    else if is_bad len
    then broken packets
    else if leb len (length bs)
    then rest
    else pending packets bs

-- The bytes of a packet.
unfoldable pub encode : List ℕ → List ℕ
encode payload = (len % 256) ∷ ((len / 256) ∷ payload)
  where
    len : ℕ
    len = length payload + 2

module _ (packets : List (List ℕ)) (bs : List ℕ) where
  pub decode_short : (fuel : ℕ) → length bs < 2 → decode fuel packets bs ≡ pending packets bs
  unfolding decode
  decode_short zero h = refl
  decode_short (suc fuel) h = ground arith

  pub decode_bad :
      (fuel : ℕ)
      → 2 ≤ length bs
      → length bs ≤ fuel
      → is_bad (packet_len bs) ≡ true
      → decode fuel packets bs ≡ broken packets
  unfolding decode
  decode_bad zero h k b = absurd (omega arith)
  decode_bad (suc fuel) h k b = ground arith

  pub decode_step :
      (fuel : ℕ)
      → 2 ≤ length bs
      → is_bad (packet_len bs) ≡ false
      → decode (suc fuel) packets bs ≡ (
          if leb (packet_len bs) (length bs)
          then decode fuel
              (packets ++ (take (packet_len bs - 2) (drop 2 bs) ∷ []))
              (drop (packet_len bs) bs)
          else pending packets bs)
  unfolding decode
  decode_step fuel h b = ground arith

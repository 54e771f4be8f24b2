-- ===== src/Session/Recv.antt =====
-- `RecvData` against the stream of packets.
use linuxgameserver.Common.{
  ℕ, zero, suc, ◌+◌, ◌-◌, ◌≤◌, ◌<◌, ◌≡◌, ◌≢◌, refl, sym, ap, ◌∙◌, inl, inr, true, false, Bool-cases,
  List, [], ◌∷◌, ◌++◌, if◌then◌else◌, ltb, leb, leb→le, ltb→le, length, take, drop, write_at,
  length-write_at, take-write_at, arith,
}
use linuxgameserver.Session.{
  Session, RecvThread, recved, content_size, packet_len, consume, append_to_close, wait_again,
  recv_loop, recv_data,
}
use linuxgameserver.Session.Frames.{
  pending, broken, is_bad, decode, decode_step, decode_short, decode_bad,
}
use linuxgameserver.Session.Held.{
  held, IsOpen, IsServing, Matches, Matches-resp, length_pos, length-held, packet_len-held,
  consume-IsOpen, held-consume, payload-held, consume_fuel,
}

module _ {t : RecvThread} (serving : IsServing t) where
  wait_again-Matches :
      {s : Session} (packets : List (List ℕ))
      → IsOpen s
      → Matches (wait_again t s packets) (pending packets (held s))
  unfolding wait_again
  wait_again-Matches packets h = ground (arith, serving.watches)

  -- One round of the loop.
  module _ (s : Session) (packets : List (List ℕ)) where
    abbrev len : ℕ
    len = packet_len s.recved_content

    abbrev next : Session
    next = consume t s len

    abbrev packets' : List (List ℕ)
    packets' = packets ++ (take (len - 2) (drop 2 s.recved_content) ∷ [])

    loop_step :
        (fuel n : ℕ)
        → recv_loop (suc fuel) t s packets n ≡ (
            if leb len s.current_content_len
            then (if ltb next.current_content_len 2
                then wait_again t next packets'
                else if is_bad (packet_len next.recved_content)
                then append_to_close next packets'
                else recv_loop fuel t next packets' (suc n))
            else wait_again t s packets)
    unfolding recv_loop
    loop_step fuel n = ground (arith, serving.gives n len, serving.takes n)

    decode_round :
        (fuel : ℕ)
        → IsOpen s
        → 2 ≤ s.current_content_len
        → is_bad len ≡ false
        → len ≤ s.current_content_len
        → decode (suc fuel) packets (held s) ≡ decode fuel packets' (held next)
    decode_round fuel h two good k =
        decode_step packets (held s) fuel (omega (arith, length-held h))
          (ap is_bad (packet_len-held t h two) ∙ good)
        ∙ ground (
          arith,
          length-held h,
          packet_len-held t h two,
          payload-held t h len k,
          held-consume t h len k,
        )

    decode_stop :
        (fuel : ℕ)
        → IsOpen s
        → 2 ≤ s.current_content_len
        → is_bad len ≡ false
        → s.current_content_len < len
        → decode (suc fuel) packets (held s) ≡ pending packets (held s)
    decode_stop fuel h two good k =
        decode_step packets (held s) fuel (omega (arith, length-held h))
          (ap is_bad (packet_len-held t h two) ∙ good)
        ∙ ground (arith, length-held h, packet_len-held t h two)

  append_to_close-Matches :
      {s : Session} (packets : List (List ℕ))
      → IsOpen s
      → Matches (append_to_close s packets) (broken packets)
  unfolding append_to_close
  append_to_close-Matches packets h = ground (arith, h.not_closing)

  -- The loop, from a whole length word on.
  recv_loop-Matches :
      (fuel n : ℕ) (s : Session) (packets : List (List ℕ))
      → IsOpen s
      → 2 ≤ s.current_content_len
      → is_bad (packet_len s.recved_content) ≡ false
      → s.current_content_len ≤ fuel
      → Matches (recv_loop fuel t s packets n) (decode fuel packets (held s))
  recv_loop-Matches zero n s packets h two good k = absurd (omega arith)
  recv_loop-Matches (suc fuel) n s packets h two good k =
      elim (Bool-cases (leb (len s packets) s.current_content_len)) [
        | inr e ↦
            Matches-resp (loop_step s packets fuel n ∙ ground arith)
              (decode_stop s packets fuel h two good (ground arith)) (wait_again-Matches packets h)
        | inl e ↦
            let le : len s packets ≤ s.current_content_len = leb→le _ _ e in
            let o = consume-IsOpen t h (len s packets) le in
            let less = consume_fuel t s fuel (len s packets) good k two in
            let round = decode_round s packets fuel h two good le in
            elim (Bool-cases (ltb (next s packets).current_content_len 2)) [
              | inl f ↦
                  Matches-resp (loop_step s packets fuel n ∙ ground arith)
                    (round
                      ∙ decode_short (packets' s packets) (held (next s packets)) fuel
                          (ground (arith, length-held o)))
                    (wait_again-Matches (packets' s packets) o)
              | inr f ↦ elim (Bool-cases (is_bad (packet_len (next s packets).recved_content))) [
                | inl b ↦
                    Matches-resp {o' = append_to_close (next s packets) (packets' s packets)}
                      (loop_step s packets fuel n ∙ ground arith)
                      (round
                        ∙ decode_bad (packets' s packets) (held (next s packets)) fuel
                            (omega (arith, length-held o, ltb→le _ _ f))
                            (omega (arith, length-held o, less))
                            (ap is_bad (packet_len-held t o (ltb→le _ _ f)) ∙ b))
                      (append_to_close-Matches (packets' s packets) o)
                | inr b ↦
                    Matches-resp
                      {o' = recv_loop fuel t (next s packets) (packets' s packets) (suc n)}
                      (loop_step s packets fuel n ∙ ground arith) round
                      (recv_loop-Matches fuel (suc n) (next s packets) (packets' s packets) o
                        (ltb→le _ _ f) b less)
              ]
            ]
      ]

-- The session with the bytes that `Recv` gave.
abbrev pub filled : Session → List ℕ → Session
filled s bytes = record s {
  recved_content = write_at s.recved_content s.current_content_len bytes;
  current_content_len = s.current_content_len + length bytes;
}

module _ {s : Session} (bytes : List ℕ) (h : IsOpen s)
    (room : s.current_content_len + length bytes ≤ content_size) where
  filled-IsOpen : IsOpen (filled s bytes)
  filled-IsOpen = record {
    whole = length-write_at s.recved_content s.current_content_len bytes ∙ h.whole;
    inside = room;
    not_closing = h.not_closing;
  }

  held-filled : held (filled s bytes) ≡ held s ++ bytes
  held-filled =
      take-write_at (s.current_content_len + length bytes) s.recved_content s.current_content_len
        bytes refl (omega (arith, h.whole))

  recv_data_bad :
      (t : RecvThread)
      → bytes ≢ []
      → 2 ≤ s.current_content_len + length bytes
      → is_bad (packet_len (filled s bytes).recved_content) ≡ true
      → recv_data t s (recved bytes) ≡ append_to_close (filled s bytes) []
  unfolding recv_data
  recv_data_bad t ne two b = ground (arith, length_pos bytes ne)

  recv_data_good :
      (t : RecvThread)
      → bytes ≢ []
      → 2 ≤ s.current_content_len + length bytes
      → is_bad (packet_len (filled s bytes).recved_content) ≡ false
      → recv_data t s (recved bytes)
        ≡ recv_loop (s.current_content_len + length bytes) t (filled s bytes) [] 0
  unfolding recv_data
  recv_data_good t ne two b = ground (arith, length_pos bytes ne)

-- On an open session, with bytes received that make two at least together with those held and that fit
-- into the content, and a thread that has packets and room in its queue and can watch the socket,
-- `RecvData` does what an independent reader of the stream says: it hands over the same packets, and
-- keeps the same rest and watches the socket, or closes the session where the stream is broken.
pub recv_data-Matches :
    {t : RecvThread} (serving : IsServing t) {s : Session} (bytes : List ℕ)
    → IsOpen s
    → bytes ≢ []
    → 2 ≤ s.current_content_len + length bytes
    → s.current_content_len + length bytes ≤ content_size
    → Matches
        (recv_data t s (recved bytes))
        (decode (s.current_content_len + length bytes) [] (held s ++ bytes))
recv_data-Matches {t} serving {s} bytes h ne two room =
    let o = filled-IsOpen bytes h room in
    let e =
      ap (decode (s.current_content_len + length bytes) []) (sym (held-filled bytes h room)) in
    elim (Bool-cases (is_bad (packet_len (filled s bytes).recved_content))) [
      | inl b ↦
          Matches-resp {o' = append_to_close (filled s bytes) []}
            (recv_data_bad bytes h room t ne two b)
            (e
              ∙ decode_bad [] (held (filled s bytes)) (s.current_content_len + length bytes)
                  (omega (arith, length-held o)) (omega (arith, length-held o))
                  (ap is_bad (packet_len-held t o two) ∙ b))
            (append_to_close-Matches serving [] o)
      | inr b ↦
          Matches-resp
            {o' = recv_loop (s.current_content_len + length bytes) t (filled s bytes) [] 0}
            (recv_data_good bytes h room t ne two b) e
            (recv_loop-Matches serving (s.current_content_len + length bytes) 0 (filled s bytes) []
              o two b (omega arith))
    ]

-- ===== src/Session/Held.antt =====
-- The bytes that a session holds, and what `RecvData` promises of them.
use linuxgameserver.Common.{
  ℕ, zero, suc, ◌-◌, ◌≤◌, ◌≡◌, ◌≢◌, refl, sym, ap, ◌∙◌, subst, true, false, List, [], ◌∷◌, length,
  take, drop, length-take, length-drop, length-write_at, take-write_at, drop-take, take-take, arith,
}
use linuxgameserver.Session.{Session, RecvThread, RecvOutcome, content_size, packet_len, consume}
use linuxgameserver.Session.Frames.{Stream, pending, broken, is_bad}

-- The bytes of the content that are not yet handed over.
abbrev pub held : Session → List ℕ
held s = take s.current_content_len s.recved_content

-- The content has its size, and the session has not gone to the close thread.
pub record IsOpen (s : Session) : Type 0 where
  pub whole : length s.recved_content ≡ content_size
  pub inside : s.current_content_len ≤ content_size
  pub not_closing : s.close_work_sended ≡ 0

-- The thread has packets and room, and the socket can be watched.
pub record IsServing (t : RecvThread) : Type 0 where
  pub gives : (n len : ℕ) → t.get_one_free_packet n len ≡ true
  pub takes : (n : ℕ) → t.add_packet_to_local n ≡ true
  pub watches : t.add_to_epoll_wait_thread ≡ true

-- The outcome of a call is that of reading the stream.
abbrev pub Matches : RecvOutcome → Stream → Type 0
Matches o (pending packets rest) =
    (o.packets ≡ packets)
    × (held o.session ≡ rest)
    × (o.waiting ≡ true)
    × (o.close_appended ≡ false)
    × IsOpen o.session
Matches o (broken packets) = (o.packets ≡ packets) × (o.waiting ≡ false) × (o.close_appended ≡ true)

pub Matches-resp :
    {o o' : RecvOutcome} {r r' : Stream} → o ≡ o' → r ≡ r' → Matches o' r' → Matches o r
Matches-resp {o} {o'} {r} {r'} e f m =
    subst (λ x. Matches x r) (sym e) (subst (Matches o') (sym f) m)

pub length-held : {s : Session} → IsOpen s → length (held s) ≡ s.current_content_len
length-held {s} h = length-take s.current_content_len s.recved_content (omega (arith, h.whole))

pub length_pos : (xs : List ℕ) → xs ≢ [] → 1 ≤ length xs
length_pos [] h = absurd (h refl)
length_pos (x ∷ xs) h = omega arith

pub packet_len-take :
    (n : ℕ) (xs : List ℕ) → 2 ≤ n → n ≤ length xs → packet_len (take n xs) ≡ packet_len xs
packet_len-take zero xs h k = absurd (omega arith)
packet_len-take (suc zero) xs h k = absurd (omega arith)
packet_len-take (suc (suc n)) [] h k = refl
packet_len-take (suc (suc n)) (x ∷ []) h k = refl
packet_len-take (suc (suc n)) (x ∷ (y ∷ xs)) h k = refl

module _ (t : RecvThread) {s : Session} (h : IsOpen s) where
  pub packet_len-held :
      2 ≤ s.current_content_len → packet_len (held s) ≡ packet_len s.recved_content
  packet_len-held k =
      packet_len-take s.current_content_len s.recved_content k (omega (arith, h.whole))

  module _ (len : ℕ) (k : len ≤ s.current_content_len) where
    pub consume-IsOpen : IsOpen (consume t s len)
    unfolding consume
    consume-IsOpen = record {
      whole =
          length-write_at s.recved_content 0
            (take (s.current_content_len - len) (drop len s.recved_content))
          ∙ h.whole;
      inside = omega (arith, h.inside);
      not_closing = h.not_closing;
    }

    pub held-consume : held (consume t s len) ≡ drop len (held s)
    unfolding consume
    held-consume =
        take-write_at (s.current_content_len - len) s.recved_content 0
          (take (s.current_content_len - len) (drop len s.recved_content))
          (omega (
            arith,
            length-take (s.current_content_len - len) (drop len s.recved_content),
            length-drop len s.recved_content,
            h.whole,
            h.inside,
          ))
          (omega (arith, h.whole, h.inside))
        ∙ sym (drop-take len s.current_content_len s.recved_content)

    pub payload-held : take (len - 2) (drop 2 (held s)) ≡ take (len - 2) (drop 2 s.recved_content)
    payload-held =
        ap (take (len - 2)) (drop-take 2 s.current_content_len s.recved_content)
        ∙ take-take (len - 2) (s.current_content_len - 2) (drop 2 s.recved_content) (omega arith)

module _ (t : RecvThread) (s : Session) (fuel len : ℕ) where
  pub consume_fuel :
      is_bad len ≡ false
      → s.current_content_len ≤ suc fuel
      → 2 ≤ s.current_content_len
      → (consume t s len).current_content_len ≤ fuel
  unfolding consume
  consume_fuel good k two = ground arith

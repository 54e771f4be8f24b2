-- ===== src/Gate/Reads.antt =====
-- What the handlers of the gate server read from a packet with a given content.
use linuxgameserver.Common.{
  ℕ, zero, suc, ◌≤◌, ◌<◌, ◌≡◌, refl, sym, ap, ◌∙◌, subst, false, none, some, List, [], ◌∷◌, ◌++◌,
  length, take, drop, length-append, length-take, take-append_left, drop-append_left, take_all,
  drop_all, arith,
}
use linuxgameserver.Packet.{PacketBase, no_error, zeros, direct_set_data}
use linuxgameserver.Packet.Bytes.{bytes, limit}
use linuxgameserver.Packet.Region.{IsWhole, unread}
use linuxgameserver.Packet.Fresh.{length-zeros, fresh, fresh-IsFresh, direct_set_data-unread}
use linuxgameserver.Packet.Flow.{get_data-Taken}
use linuxgameserver.Packet.Typed.{ulong_long, get_ulong_long, get}
use linuxgameserver.Packet.Net.{size, to_net}
use linuxgameserver.Packet.RoundTrip.{get-Got}
use linuxgameserver.Gate.Handlers.{Value, typed, block, has_error, get_array, text, padded}

-- The bytes of a row of values.
abbrev pub content : List Value → List ℕ
content [] = []
content (typed k x ∷ vs) = bytes (size k) (to_net k x) ++ content vs
content (block bs ∷ vs) = bs ++ content vs

-- A sound packet without an error that has these values left.
pub record IsReady (p : PacketBase) (vs : List Value) : Type 0 where
  pub sound : IsWhole p
  pub clear : p.error_code ≡ no_error
  pub left : unread p ≡ content vs

pub has_error-IsReady : (p : PacketBase) (vs : List Value) → IsReady p vs → has_error p ≡ false
has_error-IsReady p vs r = ap (λ e. has_error (record p { error_code = e })) r.clear

pub get_ulong_long-IsReady :
    (p : PacketBase) (x : ℕ) (vs : List Value)
    → IsReady p (typed ulong_long x ∷ vs)
    → x < limit 8
    → ((get_ulong_long p 0).0 ≡ x) × IsReady (get_ulong_long p 0).1 vs
unfolding get
get_ulong_long-IsReady p x vs r h =
    let g =
      get-Got p (record { kind = ulong_long; number = x; old = 0 }) (content vs) r.sound h r.left in
    (g.result, record { sound = g.sound; clear = g.same_error ∙ r.clear; left = g.left })

pub get_array-IsReady :
    (p : PacketBase) (bs : List ℕ) (n : ℕ) (vs : List Value)
    → IsReady p (block bs ∷ vs)
    → length bs ≡ n
    → n < 10240
    → ((get_array p n).0 ≡ bs) × IsReady (get_array p n).1 vs
unfolding get_array
get_array-IsReady p bs n vs r e h =
    let long : n ≤ length (unread p) =
      subst (λ u. n ≤ length u) (sym r.left) (omega (arith, length-append bs (content vs), e)) in
    let (got, t) = get_data-Taken p r.sound (zeros n) n long h in
    (
      ap (λ x. elim x [ some ys ↦ ys | none ↦ zeros n ]) got
          ∙ ap (take n) r.left
          ∙ take-append_left n bs (content vs) (omega (arith, e))
          ∙ take_all n bs (omega (arith, e)),
      record {
        sound = t.sound;
        clear = t.same_error ∙ r.clear;
        left =
            t.rest
            ∙ ap (drop n) r.left
            ∙ drop-append_left n bs (content vs) (omega (arith, e))
            ∙ ap (λ u. u ++ content vs) (drop_all n bs (omega (arith, e)));
      },
    )

-- A text without a zero in it.
abbrev pub IsText : List ℕ → Type 0
IsText [] = Unit
IsText (b ∷ bs) = (0 < b) × IsText bs

text-zeros : (n m : ℕ) → text (take n (zeros m)) ≡ []
unfolding zeros
text-zeros zero m = refl
text-zeros (suc n) zero = refl
text-zeros (suc n) (suc m) = refl

text-take : (n m : ℕ) (xs : List ℕ) → IsText xs → length xs ≤ n → text (take n (xs ++ zeros m)) ≡ xs
text-take n m [] h k = text-zeros n m
text-take zero m (x ∷ xs) h k = absurd (omega arith)
text-take (suc n) m (x ∷ xs) (h, hs) k = ground (arith, text-take n m xs hs)

-- A text that fits comes back from its array.
pub text-padded : (n : ℕ) (xs : List ℕ) → IsText xs → length xs ≤ n → text (padded n xs) ≡ xs
text-padded n xs h k = text-take n n xs h k

pub length-padded : (n : ℕ) (xs : List ℕ) → length (padded n xs) ≡ n
length-padded n xs =
    length-take n (xs ++ zeros n) (omega (arith, length-append xs (zeros n), length-zeros n))

-- A packet with a row of values in it.
abbrev pub packet_of : List Value → PacketBase
packet_of vs = (direct_set_data (fresh 256) (content vs)).1

pub packet_of-IsReady : (vs : List Value) → length (content vs) ≤ 254 → IsReady (packet_of vs) vs
unfolding direct_set_data
packet_of-IsReady vs h =
    let (ok, whole, got) =
      direct_set_data-unread (fresh 256) (fresh-IsFresh 256 (omega arith) (omega arith))
        (content vs) (omega arith) in
    record { sound = whole; clear = ground arith; left = got }

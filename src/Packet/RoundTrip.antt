-- ===== src/Packet/RoundTrip.antt =====
-- What is added to a packet by `<<` is read back by `>>`.
use linuxgameserver.Common.{
  ℕ, ◌≤◌, ◌<◌, ◌≡◌, sym, ap, ◌∙◌, subst, Option, none, some, List, [], ◌∷◌, ◌++◌, length, take,
  drop, length-append, take-append_left, drop-append_left, take_all, drop_all, arith,
}
use linuxgameserver.Packet.{PacketBase}
use linuxgameserver.Packet.Bytes.{bytes, value, limit, length-bytes, value-bytes}
use linuxgameserver.Packet.Region.{IsWhole, unread}
use linuxgameserver.Packet.Flow.{Taken, get_data-Taken}
use linuxgameserver.Packet.Typed.{get_value, Kind, put, get}
use linuxgameserver.Packet.Net.{
  size, to_net, from_net, kept, get_lem, from_net-to_net, to_net_lt, size_small,
}

-- A value to add, and what the variable holds into which it is read.
pub record Field : Type 0 where
  pub kind : Kind
  pub number : ℕ
  pub old : ℕ

abbrev pub encode : Field → List ℕ
encode f = bytes (size f.kind) (to_net f.kind f.number)

abbrev pub encode_all : List Field → List ℕ
encode_all [] = []
encode_all (f ∷ fs) = encode f ++ encode_all fs

abbrev pub put_all : PacketBase → List Field → PacketBase
put_all p [] = p
put_all p (f ∷ fs) = put_all (put p f.kind f.number) fs

abbrev pub get_all : PacketBase → List Field → List ℕ × PacketBase
get_all p [] = ([], p)
get_all p (f ∷ fs) =
    let (x, p') = get p f.kind f.old in let (xs, last) = get_all p' fs in (x ∷ xs, last)

abbrev pub kept_all : List Field → List ℕ
kept_all [] = []
kept_all (f ∷ fs) = kept f.kind f.number ∷ kept_all fs

-- The values are in the range of their types.
abbrev pub AllFit : List Field → Type 0
AllFit [] = Unit
AllFit (f ∷ fs) = (f.number < limit (size f.kind)) × AllFit fs

length-encode : (f : Field) → length (encode f) ≡ size f.kind
length-encode f = length-bytes (size f.kind) (to_net f.kind f.number)

record AllAdded (p : PacketBase) (fs : List Field) (q : PacketBase) : Type 0 where
  sound : IsWhole q
  behind : unread q ≡ unread p ++ encode_all fs
  same_error : q.error_code ≡ p.error_code

-- One value is read from the front.
pub record Got (p : PacketBase) (f : Field) (rest : List ℕ) (out : ℕ × PacketBase) : Type 0 where
  pub result : out.0 ≡ kept f.kind f.number
  pub sound : IsWhole out.1
  pub left : unread out.1 ≡ rest
  pub same_error : out.1.error_code ≡ p.error_code

get_value-Got :
    (p : PacketBase) (n old : ℕ) (bs rest : List ℕ)
    → IsWhole p
    → n ≡ length bs
    → n ≤ 8
    → unread p ≡ bs ++ rest
    → ((get_value p n old).0 ≡ value bs) × Taken p n (get_value p n old).1
unfolding get_value
get_value-Got p n old bs rest w e h u =
    let (v, t) =
      get_data-Taken p w (bytes n old) n (omega (arith, e, ap length u, length-append bs rest))
        (omega arith) in
    (
      ap (λ (o : Option (List ℕ)). elim o as (λ _. ℕ) [ some xs ↦ value xs | none ↦ old ])
          (v
            ∙ ap some (
                ap (take n) u
                ∙ take-append_left n bs rest (omega (arith, e))
                ∙ take_all n bs (omega (arith, e)))),
      t,
    )

pub get-Got :
    (p : PacketBase) (f : Field) (rest : List ℕ)
    → IsWhole p
    → f.number < limit (size f.kind)
    → unread p ≡ encode f ++ rest
    → Got p f rest (get p f.kind f.old)
get-Got p f rest w h u =
    let (v, t) =
      get_value-Got p (size f.kind) f.old (encode f) rest w (sym (length-encode f))
        (size_small f.kind) u in
    subst (Got p f rest) (sym (get_lem p f.kind f.old)) (record {
      result =
          ap (from_net f.kind)
            (v ∙ value-bytes (size f.kind) (to_net f.kind f.number) (to_net_lt f.kind f.number h))
          ∙ from_net-to_net f.kind f.number h;
      sound = t.sound;
      left =
          t.rest
          ∙ ap (drop (size f.kind)) u
          ∙ drop-append_left (size f.kind) (encode f) rest (omega (arith, length-encode f))
          ∙ ap (λ xs. xs ++ rest)
              (drop_all (size f.kind) (encode f) (omega (arith, length-encode f)));
      same_error = t.same_error;
    })

record AllGot (p : PacketBase) (fs : List Field) (rest : List ℕ) (out : List ℕ × PacketBase)
    : Type 0 where
  results : out.0 ≡ kept_all fs
  left : unread out.1 ≡ rest
  same_error : out.1.error_code ≡ p.error_code

-- ===== src/Packet/Net.antt =====
-- Typed values in network byte order.
use linuxgameserver.Common.{
  ℕ, ◌+◌, ◌*◌, ◌/◌, ◌%◌, ◌^◌, ◌≤◌, ◌<◌, ◌≡◌, refl, ap, ap₂, ◌∙◌, some, arith,
}
use linuxgameserver.Packet.{PacketBase, add_data}
use linuxgameserver.Packet.Bytes.{bytes, swap, limit, swap_lt, swap-swap, swap_low}
use linuxgameserver.Packet.Typed.{
  hton64, ntoh64, get_value, Kind, char, byte, ushort, short, int, uint, long, ulong, long_long,
  ulong_long, put, get,
}

abbrev pub size : Kind → ℕ
size char = 1
size byte = 1
size ushort = 2
size short = 2
size int = 4
size uint = 4
size long = 8
size ulong = 8
size long_long = 8
size ulong_long = 8

-- What `<<` makes of a value before `AddData`, and `>>` of one behind `GetData`.
abbrev pub to_net : Kind → ℕ → ℕ
to_net char x = x
to_net byte x = x
to_net ushort x = swap 2 x
to_net short x = swap 2 x
to_net int x = swap 4 x
to_net uint x = swap 4 x
to_net long x = swap 4 x
to_net ulong x = swap 4 x
to_net long_long x = hton64 x
to_net ulong_long x = hton64 x

abbrev pub from_net : Kind → ℕ → ℕ
from_net char x = x
from_net byte x = x
from_net ushort x = swap 2 x
from_net short x = swap 2 x
from_net int x = swap 4 x
from_net uint x = swap 4 x
from_net long x = swap 4 x
from_net ulong x = swap 4 x
from_net long_long x = ntoh64 x
from_net ulong_long x = ntoh64 x

-- The value that comes back: of a `long` only the lower half is sent.
abbrev pub kept : Kind → ℕ → ℕ
kept long x = x % 2 ^ 32
kept ulong x = x % 2 ^ 32
kept _ x = x

pub put_lem :
    (p : PacketBase) (k : Kind) (x : ℕ)
    → put p k x ≡ add_data p (some (bytes (size k) (to_net k x)))
unfolding put
put_lem p char x = refl
put_lem p byte x = refl
put_lem p ushort x = refl
put_lem p short x = refl
put_lem p int x = refl
put_lem p uint x = refl
put_lem p long x = refl
put_lem p ulong x = refl
put_lem p long_long x = refl
put_lem p ulong_long x = refl

pub get_lem :
    (p : PacketBase) (k : Kind) (old : ℕ)
    → get p k old ≡ (from_net k (get_value p (size k) old).0, (get_value p (size k) old).1)
unfolding get
get_lem p char old = refl
get_lem p byte old = refl
get_lem p ushort old = refl
get_lem p short old = refl
get_lem p int old = refl
get_lem p uint old = refl
get_lem p long old = refl
get_lem p ulong old = refl
get_lem p long_long old = refl
get_lem p ulong_long old = refl

ntoh64-hton64 : (x : ℕ) → x < 2 ^ 64 → ntoh64 (hton64 x) ≡ x
unfolding hton64 ntoh64
ntoh64-hton64 x h =
    let a = swap 4 (x % 2 ^ 32) in
    let b = swap 4 ((x / 2 ^ 32) % 2 ^ 32) in
    let low : (a * 2 ^ 32 + b) % 2 ^ 32 ≡ b = omega (arith, swap_lt 4 ((x / 2 ^ 32) % 2 ^ 32)) in
    let high : ((a * 2 ^ 32 + b) / 2 ^ 32) % 2 ^ 32 ≡ a =
      omega (arith, swap_lt 4 ((x / 2 ^ 32) % 2 ^ 32), swap_lt 4 (x % 2 ^ 32)) in
    ap₂ (λ u v. swap 4 u * 2 ^ 32 + swap 4 v) low high
    ∙ omega (
      arith,
      swap-swap 4 ((x / 2 ^ 32) % 2 ^ 32) (omega arith),
      swap-swap 4 (x % 2 ^ 32) (omega arith),
    )

swap_mod : (x : ℕ) → swap 4 x ≡ swap 4 (x % 2 ^ 32)
swap_mod x =
    ap (swap 4) {x = x} {y = (x / 2 ^ 32) * 2 ^ 32 + x % 2 ^ 32} (omega arith)
    ∙ swap_low (x % 2 ^ 32) (x / 2 ^ 32) (omega arith)

swap-swap_long : (x : ℕ) → swap 4 (swap 4 x) ≡ x % 2 ^ 32
swap-swap_long x = ap (swap 4) (swap_mod x) ∙ swap-swap 4 (x % 2 ^ 32) (omega arith)

pub from_net-to_net : (k : Kind) (x : ℕ) → x < limit (size k) → from_net k (to_net k x) ≡ kept k x
from_net-to_net char x h = refl
from_net-to_net byte x h = refl
from_net-to_net ushort x h = swap-swap 2 x h
from_net-to_net short x h = swap-swap 2 x h
from_net-to_net int x h = swap-swap 4 x h
from_net-to_net uint x h = swap-swap 4 x h
from_net-to_net long x h = swap-swap_long x
from_net-to_net ulong x h = swap-swap_long x
from_net-to_net long_long x h = ntoh64-hton64 x h
from_net-to_net ulong_long x h = ntoh64-hton64 x h

hton64_lt : (x : ℕ) → hton64 x < limit 8
unfolding hton64
hton64_lt x = omega (arith, swap_lt 4 ((x / 2 ^ 32) % 2 ^ 32), swap_lt 4 (x % 2 ^ 32))

pub to_net_lt : (k : Kind) (x : ℕ) → x < limit (size k) → to_net k x < limit (size k)
to_net_lt char x h = h
to_net_lt byte x h = h
to_net_lt ushort x h = swap_lt 2 x
to_net_lt short x h = swap_lt 2 x
to_net_lt int x h = swap_lt 4 x
to_net_lt uint x h = swap_lt 4 x
to_net_lt long x h = omega (arith, swap_lt 4 x)
to_net_lt ulong x h = omega (arith, swap_lt 4 x)
to_net_lt long_long x h = hton64_lt x
to_net_lt ulong_long x h = hton64_lt x

pub size_small : (k : Kind) → size k ≤ 8
size_small char = omega arith
size_small byte = omega arith
size_small ushort = omega arith
size_small short = omega arith
size_small int = omega arith
size_small uint = omega arith
size_small long = omega arith
size_small ulong = omega arith
size_small long_long = omega arith
size_small ulong_long = omega arith

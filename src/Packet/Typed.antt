-- ===== src/Packet/Typed.antt =====
-- NetWork/LPacketBase.cpp: the typed values of a packet, and the operators `<<` and `>>` on them.
-- A getter is given what its variable holds before; on a failure it converts that.
use linuxgameserver.Common.{ℕ, ◌+◌, ◌*◌, ◌/◌, ◌%◌, ◌^◌, none, some}
use linuxgameserver.Packet.{PacketBase, add_data, get_data}
use linuxgameserver.Packet.Bytes.{bytes, value, swap}

-- `hton64`; `ntoh64` does the same.
unfoldable pub hton64 : ℕ → ℕ
hton64 x = swap 4 (x % 2 ^ 32) * 2 ^ 32 + swap 4 ((x / 2 ^ 32) % 2 ^ 32)

unfoldable pub ntoh64 : ℕ → ℕ
ntoh64 x = swap 4 (x % 2 ^ 32) * 2 ^ 32 + swap 4 ((x / 2 ^ 32) % 2 ^ 32)

unfoldable pub add_char : PacketBase → ℕ → PacketBase
add_char p x = add_data p (some (bytes 1 x))

unfoldable pub add_byte : PacketBase → ℕ → PacketBase
add_byte p x = add_data p (some (bytes 1 x))

unfoldable pub add_ushort : PacketBase → ℕ → PacketBase
add_ushort p x = add_data p (some (bytes 2 (swap 2 x)))

unfoldable pub add_short : PacketBase → ℕ → PacketBase
add_short p x = add_data p (some (bytes 2 (swap 2 x)))

unfoldable pub add_int : PacketBase → ℕ → PacketBase
add_int p x = add_data p (some (bytes 4 (swap 4 x)))

unfoldable pub add_uint : PacketBase → ℕ → PacketBase
add_uint p x = add_data p (some (bytes 4 (swap 4 x)))

unfoldable pub add_long : PacketBase → ℕ → PacketBase
add_long p x = add_data p (some (bytes 8 (swap 4 x)))

unfoldable pub add_ulong : PacketBase → ℕ → PacketBase
add_ulong p x = add_data p (some (bytes 8 (swap 4 x)))

unfoldable pub add_long_long : PacketBase → ℕ → PacketBase
add_long_long p x = add_data p (some (bytes 8 (hton64 x)))

unfoldable pub add_ulong_long : PacketBase → ℕ → PacketBase
add_ulong_long p x = add_data p (some (bytes 8 (hton64 x)))

-- The value of a variable of `n` bytes behind `GetData`.
unfoldable pub get_value : PacketBase → ℕ → ℕ → ℕ × PacketBase
get_value p n old =
    let (got, p') = get_data p (some (bytes n old)) n in
    (elim got [ some bs ↦ value bs | none ↦ old ], p')

unfoldable pub get_char : PacketBase → ℕ → ℕ × PacketBase
get_char p old = let (x, p') = get_value p 1 old in (x, p')

unfoldable pub get_byte : PacketBase → ℕ → ℕ × PacketBase
get_byte p old = let (x, p') = get_value p 1 old in (x, p')

unfoldable pub get_ushort : PacketBase → ℕ → ℕ × PacketBase
get_ushort p old = let (x, p') = get_value p 2 old in (swap 2 x, p')

unfoldable pub get_short : PacketBase → ℕ → ℕ × PacketBase
get_short p old = let (x, p') = get_value p 2 old in (swap 2 x, p')

unfoldable pub get_int : PacketBase → ℕ → ℕ × PacketBase
get_int p old = let (x, p') = get_value p 4 old in (swap 4 x, p')

unfoldable pub get_uint : PacketBase → ℕ → ℕ × PacketBase
get_uint p old = let (x, p') = get_value p 4 old in (swap 4 x, p')

unfoldable pub get_long : PacketBase → ℕ → ℕ × PacketBase
get_long p old = let (x, p') = get_value p 8 old in (swap 4 x, p')

unfoldable pub get_ulong : PacketBase → ℕ → ℕ × PacketBase
get_ulong p old = let (x, p') = get_value p 8 old in (swap 4 x, p')

unfoldable pub get_long_long : PacketBase → ℕ → ℕ × PacketBase
get_long_long p old = let (x, p') = get_value p 8 old in (ntoh64 x, p')

unfoldable pub get_ulong_long : PacketBase → ℕ → ℕ × PacketBase
get_ulong_long p old = let (x, p') = get_value p 8 old in (ntoh64 x, p')

-- The types of the overloaded operators.
pub data Kind : Type 0 where
  char byte ushort short int uint long ulong long_long ulong_long : Kind

-- The operator `<<`.
unfoldable pub put : PacketBase → Kind → ℕ → PacketBase
unfolding add_char add_byte add_ushort add_short add_int add_uint add_long add_ulong add_long_long
    add_ulong_long
put p char x = add_char p x
put p byte x = add_byte p x
put p ushort x = add_ushort p x
put p short x = add_short p x
put p int x = add_int p x
put p uint x = add_uint p x
put p long x = add_long p x
put p ulong x = add_ulong p x
put p long_long x = add_long_long p x
put p ulong_long x = add_ulong_long p x

-- The operator `>>`.
unfoldable pub get : PacketBase → Kind → ℕ → ℕ × PacketBase
unfolding get_char get_byte get_ushort get_short get_int get_uint get_long get_ulong get_long_long
    get_ulong_long
get p char old = get_char p old
get p byte old = get_byte p old
get p ushort old = get_ushort p old
get p short old = get_short p old
get p int old = get_int p old
get p uint old = get_uint p old
get p long old = get_long p old
get p ulong old = get_ulong p old
get p long_long old = get_long_long p old
get p ulong_long old = get_ulong_long p old

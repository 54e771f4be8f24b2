-- ===== src/Packet.antt =====
-- NetWork/LPacketBase.cpp and LPacketBase.h: a packet buffer with a length word, to which typed
-- values are added and from which they are read, in network byte order.
-- A byte is a number below 256, an integer its bit pattern; the host is little-endian with a `long`
-- of 64 bits. `htons`, `htonl` and their inverses reverse the bytes of an integer.
pub mod Bytes
pub mod Region
pub mod Flow
pub mod Typed
pub mod Net
pub mod RoundTrip
pub mod Fresh
pub mod Checksum
mod Tests
use mathlib.Core.Option
use linuxgameserver.Common.{
  ℕ, zero, suc, ◌+◌, ◌-◌, ◌*◌, ◌/◌, ◌%◌, ◌^◌, Bool, true, false, Option, none, some, List, [], ◌∷◌,
  ◌++◌, if◌then◌else◌, ltb, leb, ◌==◌, length, take, drop, write_at,
}
use linuxgameserver.Common.Words.{size_sub}
use linuxgameserver.Packet.Bytes.{bytes, value}

-- The constants of `LPacketBase.h` for `m_nErrorCode`.
pub data PacketError : Type 0 where
  no_error data_too_long data_not_enough buf_not_init : PacketError
  input_param_wrong output_param_wrong : PacketError

pub record PacketBase : Type 0 where
  pub data_buf : Option (List ℕ)
  pub packet_buf_len : ℕ
  pub error_code : PacketError
  pub current_read_pos : ℕ
  pub packet_type : ℕ

abbrev pub set_error_code : PacketBase → PacketError → PacketBase
set_error_code p e = record p { error_code = e }

-- The length word, which counts itself, and its assignment.
abbrev pub current_data_len : List ℕ → ℕ
current_data_len mem = value (take 2 mem)

abbrev pub set_data_len : List ℕ → ℕ → List ℕ
set_data_len mem n = write_at mem 0 (bytes 2 n)

unfoldable pub zeros : ℕ → List ℕ
zeros zero = []
zeros (suc n) = 0 ∷ zeros n

-- The block of a packet with nothing in it.
abbrev pub cleared : ℕ → List ℕ
cleared n = set_data_len (zeros n) 2

-- `new char[n]` is the block that the constructor clears; `none` where the constructor returns with
-- its fields unset.
unfoldable pub new_packet : ℕ → Option PacketBase
new_packet n =
    if ltb n 2
    then none
    else some (record {
      data_buf = some (cleared n);
      packet_buf_len = n;
      error_code = no_error;
      current_read_pos = 2;
      packet_type = 0;
    })

-- The code clears the block without a test of its pointer.
unfoldable pub reset : PacketBase → PacketBase
reset p = record p {
  data_buf = Option.map (λ _. cleared p.packet_buf_len) p.data_buf;
  error_code = no_error;
  current_read_pos = 2;
  packet_type = 0;
}

abbrev pub check_have_enough_buf : PacketBase → List ℕ → ℕ → Bool
check_have_enough_buf p mem n = leb (current_data_len mem + n) p.packet_buf_len

abbrev pub check_have_enough_data : PacketBase → List ℕ → ℕ → Bool
check_have_enough_data p mem n = leb (p.current_read_pos + n) (current_data_len mem)

-- The block `mem` with the bytes behind its data.
abbrev pub append_at : List ℕ → List ℕ → List ℕ
append_at mem bs =
    set_data_len (write_at mem (current_data_len mem) bs) (current_data_len mem + length bs)

-- `src` is `none` for a null pointer.
unfoldable pub add_data : PacketBase → Option (List ℕ) → PacketBase
add_data p src = elim p.data_buf [
  | none ↦ set_error_code p buf_not_init
  | some mem ↦ elim src [
    | none ↦ set_error_code p input_param_wrong
    | some bs ↦
        if leb 8192 (length bs)
        then set_error_code p data_too_long
        else if check_have_enough_buf p mem (length bs)
        then record p { data_buf = some (append_at mem bs) }
        else set_error_code p data_too_long
  ]
]

-- `n` bytes to a destination that holds `old` before, `none` for a null pointer; it is left alone
-- where the packet has too little.
unfoldable pub get_data : PacketBase → Option (List ℕ) → ℕ → Option (List ℕ) × PacketBase
get_data p old n = elim p.data_buf [
  | none ↦ (old, set_error_code p buf_not_init)
  | some mem ↦ elim old [
    | none ↦ (none, set_error_code p output_param_wrong)
    | some bs ↦
        if leb 10240 n
        then (some bs, set_error_code p data_too_long)
        else if check_have_enough_data p mem (n % 2 ^ 16)
        then (
          some (take n (drop p.current_read_pos mem)),
          record p { current_read_pos = (p.current_read_pos + n) % 2 ^ 16 },
        )
        else (some bs, set_error_code p data_not_enough)
  ]
]

unfoldable pub get_data_len : List ℕ → ℕ
get_data_len mem = (current_data_len mem + 2 ^ 16 - 2) % 2 ^ 16

unfoldable pub direct_set_data : PacketBase → List ℕ → Bool × PacketBase
direct_set_data p bs =
    if ltb (size_sub p.packet_buf_len 2) (length bs)
    then (false, set_error_code p data_too_long)
    else (elim p.data_buf [
      | none ↦ (false, set_error_code p buf_not_init)
      | some mem ↦
          (true, record p { data_buf = some (write_at (set_data_len mem (length bs + 2)) 2 bs) })
    ])

-- The packet id stands behind the length word, in the byte order of the host. Neither function
-- tests the pointer; what they do to a null pointer is not modelled.
unfoldable pub set_packet_id : PacketBase → ℕ → PacketBase
set_packet_id p id =
    if ltb p.packet_buf_len 6
    then set_error_code p data_too_long
    else record p { data_buf = Option.map (λ mem. write_at mem 2 (bytes 4 id)) p.data_buf }

unfoldable pub get_packet_id : PacketBase → List ℕ → ℕ × PacketBase
get_packet_id p mem =
    if leb 6 (current_data_len mem)
    then (value (take 4 (drop 2 mem)), p)
    else (0, set_error_code p data_not_enough)

-- `crc` is `crc32` from 0 over a block; a checksum takes the eight bytes of an `unsigned long`.
module _ (crc : List ℕ → ℕ) where
  unfoldable pub make_crc32_code_to_packet : PacketBase → List ℕ → Bool × List ℕ
  make_crc32_code_to_packet p mem =
      if ltb p.packet_buf_len (n + 8)
      then (false, mem)
      else (true, write_at counted n (bytes 8 (crc (take n counted))))
    where
      n : ℕ
      n = current_data_len mem

      counted : List ℕ
      counted = set_data_len mem (n + 8)

  unfoldable pub check_crc32_code : List ℕ → Bool
  check_crc32_code mem = crc (take n mem) == value (take 8 (drop n mem))
    where
      n : ℕ
      n = size_sub (current_data_len mem) 8

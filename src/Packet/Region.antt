-- ===== src/Packet/Region.antt =====
-- The data of a packet as a row of bytes: what is added stands behind it, what is read comes from
-- its front.
use linuxgameserver.Common.{
  ℕ, ◌+◌, ◌-◌, ◌^◌, ◌≤◌, ◌<◌, ◌≡◌, refl, sym, ap, ◌∙◌, none, some, List, [], ◌++◌, length, take,
  drop, write_at, length-write_at, length-take, length-drop, take-write_at, drop-write_at_past,
  drop-take, drop-append_left, arith,
}
use linuxgameserver.Packet.Bytes.{bytes, value, length-bytes, value-bytes}
use linuxgameserver.Packet.{PacketBase, current_data_len, set_data_len, append_at}

abbrev pub block : PacketBase → List ℕ
block p = elim p.data_buf [ none ↦ [] | some mem ↦ mem ]

abbrev pub data_len : PacketBase → ℕ
data_len p = current_data_len (block p)

-- The block is there and as long as the packet says; the data lie in it, and the read position in
-- the data.
pub record IsWhole (p : PacketBase) : Type 0 where
  pub held : p.data_buf ≡ some (block p)
  pub full : length (block p) ≡ p.packet_buf_len
  pub small : p.packet_buf_len < 2 ^ 16
  pub len_in : data_len p ≤ p.packet_buf_len
  pub pos_in : p.current_read_pos ≤ data_len p
  pub two : 2 ≤ p.current_read_pos

-- The data from the place `r` on.
abbrev pub data_from : ℕ → List ℕ → List ℕ
data_from r mem = drop r (take (current_data_len mem) mem)

abbrev pub unread : PacketBase → List ℕ
unread p = data_from p.current_read_pos (block p)

-- The bytes behind the length word.
abbrev pub payload : PacketBase → List ℕ
payload p = data_from 2 (block p)

module _ (mem : List ℕ) (n : ℕ) (room : 2 ≤ length mem) where
  take-set_data_len : take 2 (set_data_len mem n) ≡ bytes 2 n
  take-set_data_len = take-write_at 2 mem 0 (bytes 2 n) (sym (length-bytes 2 n)) room

  pub current_data_len-set_data_len : n < 2 ^ 16 → current_data_len (set_data_len mem n) ≡ n
  current_data_len-set_data_len h = ap value take-set_data_len ∙ value-bytes 2 n h

  pub drop-set_data_len : (r : ℕ) → 2 ≤ r → drop r (set_data_len mem n) ≡ drop r mem
  drop-set_data_len r h = drop-write_at_past r mem 0 (bytes 2 n) h

  pub data_from-set_data_len :
      (r : ℕ) → 2 ≤ r → n < 2 ^ 16 → data_from r (set_data_len mem n) ≡ drop r (take n mem)
  data_from-set_data_len r h k =
      ap (λ m. drop r (take m (set_data_len mem n))) (current_data_len-set_data_len k)
      ∙ drop-take r n (set_data_len mem n)
      ∙ ap (take (n - r)) (drop-set_data_len r h)
      ∙ sym (drop-take r n mem)

module _ (mem bs : List ℕ) (two : 2 ≤ length mem) (small : length mem < 2 ^ 16)
    (room : current_data_len mem + length bs ≤ length mem) where
  abbrev c : ℕ
  c = current_data_len mem

  pub length-append_at : length (append_at mem bs) ≡ length mem
  length-append_at =
      length-write_at (write_at mem c bs) 0 (bytes 2 (c + length bs)) ∙ length-write_at mem c bs

  pub current_data_len-append_at : current_data_len (append_at mem bs) ≡ c + length bs
  current_data_len-append_at =
      current_data_len-set_data_len (write_at mem c bs) (c + length bs)
        (omega (arith, length-write_at mem c bs)) (omega arith)

  pub data_from-append_at :
      (r : ℕ) → 2 ≤ r → r ≤ c → data_from r (append_at mem bs) ≡ data_from r mem ++ bs
  data_from-append_at r h k =
      data_from-set_data_len (write_at mem c bs) (c + length bs)
        (omega (arith, length-write_at mem c bs)) r h (omega arith)
      ∙ ap (drop r) (take-write_at (c + length bs) mem c bs refl room)
      ∙ drop-append_left r (take c mem) bs (omega (arith, length-take c mem (omega arith)))

pub length-unread :
    (p : PacketBase) → IsWhole p → length (unread p) ≡ data_len p - p.current_read_pos
length-unread p w =
    length-drop p.current_read_pos (take (data_len p) (block p))
    ∙ omega (arith, length-take (data_len p) (block p) (omega (arith, w.full, w.len_in)))

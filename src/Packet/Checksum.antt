-- ===== src/Packet/Checksum.antt =====
-- `MakeCRC32CodeToPacket` and `CheckCRC32Code`, for any checksum.
use linuxgameserver.Common.{
  ℕ, ◌+◌, ◌-◌, ◌^◌, ◌≤◌, ◌<◌, ◌≡◌, refl, sym, ap, ◌∙◌, subst, Bool, true, List, ◌++◌, eq→eqb,
  length, take, drop, write_at, length-write_at, length-take, take-write_at, take-write_at_before,
  drop-take, drop-append_left, drop_all, arith,
}
use linuxgameserver.Common.Words.{size_sub}
use linuxgameserver.Packet.Bytes.{bytes, value, length-bytes, value-bytes}
use linuxgameserver.Packet.{
  PacketBase, current_data_len, set_data_len, make_crc32_code_to_packet, check_crc32_code,
}
use linuxgameserver.Packet.Region.{block, data_len, IsWhole, current_data_len-set_data_len}

module _ (crc : List ℕ → ℕ) (p : PacketBase) (w : IsWhole p)
    (room : data_len p + 8 ≤ p.packet_buf_len) where
  abbrev n : ℕ
  n = data_len p

  abbrev counted : List ℕ
  counted = set_data_len (block p) (n + 8)

  abbrev code : ℕ
  code = crc (take n counted)

  abbrev signed : List ℕ
  signed = write_at counted n (bytes 8 code)

  make_crc32_lem : make_crc32_code_to_packet crc p (block p) ≡ (true, signed)
  unfolding make_crc32_code_to_packet
  make_crc32_lem = ground arith

  data_len-signed : current_data_len signed ≡ n + 8
  data_len-signed =
      ap value (take-write_at_before 2 counted n (bytes 8 code) (omega (arith, w.two, w.pos_in)))
      ∙ current_data_len-set_data_len (block p) (n + 8)
          (omega (arith, w.two, w.pos_in, w.len_in, w.full)) (omega (arith, w.small, room))

  code-signed : take 8 (drop n signed) ≡ bytes 8 code
  code-signed =
      ap (λ k. take k (drop n signed)) {x = 8} {y = n + 8 - n} (omega arith)
      ∙ sym (drop-take n (n + 8) signed)
      ∙ ap (drop n) (
          take-write_at (n + 8) counted n (bytes 8 code) (omega (arith, length-bytes 8 code))
            (omega (arith, length-write_at (block p) 0 (bytes 2 (n + 8)), w.full, room)))
      ∙ drop-append_left n (take n counted) (bytes 8 code) (omega (arith, length-counted))
      ∙ ap (λ xs. xs ++ bytes 8 code) (drop_all n (take n counted) (omega (arith, length-counted)))
    where
      length-counted : length (take n counted) ≡ n
      length-counted =
          length-take n counted
            (omega (arith, length-write_at (block p) 0 (bytes 2 (n + 8)), w.full, room))

  check_signed : code < 2 ^ 64 → check_crc32_code crc signed ≡ true
  unfolding check_crc32_code size_sub
  check_signed h =
      let e : size_sub (current_data_len signed) 8 ≡ n =
        omega (arith, data_len-signed, w.small, room) in
      eq→eqb _ _ (
        ap (λ k. crc (take k signed)) e
        ∙ ap crc (take-write_at_before n counted n (bytes 8 code) (omega arith))
        ∙ sym (value-bytes 8 code h)
        ∙ ap value (sym code-signed)
        ∙ ap (λ k. value (take 8 (drop k signed))) (sym e))

  -- A packet that has been given its checksum passes the check.
  check-make_crc32 :
      ((bs : List ℕ) → crc bs < 2 ^ 64)
      → let (ok, mem) = make_crc32_code_to_packet crc p (block p) in
        (ok ≡ true) × (check_crc32_code crc mem ≡ true)
  check-make_crc32 h =
      subst (λ (x : Bool × List ℕ). (x.0 ≡ true) × (check_crc32_code crc x.1 ≡ true))
        (sym make_crc32_lem) (refl, check_signed (h (take n counted)))

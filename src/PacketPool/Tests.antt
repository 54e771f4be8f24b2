-- ===== src/PacketPool/Tests.antt =====
-- Runs of the packet pools on small inputs, and their theorems at them.
use linuxgameserver.Common.{
  ℕ, zero, suc, ◌≡◌, refl, ap, Bool, true, some, List, [], ◌∷◌, ◌≤◌, length, arith,
}
use linuxgameserver.Common.Words.{
  size_of_int, int_of_size, size_add, size_sub, int_add, int_sub, int_lt, int_le,
}
use linuxgameserver.CircleBuf.{
  initialize, add_items, add_block, store, free_item_count, get_one_item, current_item_count,
  next_read_index,
}
use linuxgameserver.PacketPool.{
  PacketPoolDesc, PacketPoolManager, has_error_len, has_same_len, order_and_set_packet_desc, fill,
  fill_all, new_buf, exchange, inner_loop, outer_loop, order_packet_desc, request_one_packet,
  initialize_pool, select_index_for_packet_len,
}
use linuxgameserver.PacketPool.Order.{least, suffix_least, order_packet_desc-eq-suffix_least}
use linuxgameserver.PacketPool.Sound.{IsSound, request_one_packet_len}
use linuxgameserver.PacketPool.Fill.{AllHold, initialize_pool-IsSound}

abbrev desc : ℕ → ℕ → ℕ → PacketPoolDesc
desc len init most = record { packet_len = len; init_size = init; max_alloc_size = most }

-- A packet is its buffer length and a serial number.
abbrev Packet : Type 0
Packet = ℕ × ℕ

abbrev buf_len : Packet → ℕ
buf_len p = p.0

abbrev blank : PacketPoolManager Packet
blank = record {
  packet_len_type_count = 0;
  min_packet_size = 0;
  max_packet_size = 0;
  descs = [];
  bufs = [];
}

abbrev zeros : ℕ → List Packet
zeros = elim [ zero ↦ [] | suc (n → ih) ↦ (0, 0) ∷ ih ]

length-zeros : (k : ℕ) → length (zeros k) ≡ k
length-zeros zero = refl
length-zeros (suc k) = ap suc (length-zeros k)

alloc_len : (k : ℕ) (mem : List Packet) → some (zeros k) ≡ some mem → length mem ≡ k
alloc_len k mem e = ground (arith, e, length-zeros k)

packet_len : (n len : ℕ) (p : Packet) → some (len, n) ≡ some p → buf_len p ≡ len
packet_len n len p e = ground (arith, e)

abbrev two : List PacketPoolDesc
two = desc 64 2 4 ∷ desc 128 1 4 ∷ []

abbrev started : Bool × ℕ × PacketPoolManager Packet
started = initialize_pool (λ k. some (zeros k)) (λ n len. some (len, n)) blank two 0

started_ok : started.0 ≡ true
unfolding initialize_pool order_and_set_packet_desc has_error_len has_same_len order_packet_desc
    outer_loop inner_loop exchange fill_all fill new_buf initialize add_items add_block store
    free_item_count size_of_int int_of_size size_add size_sub int_sub int_lt int_le
started_ok = refl

initialize_pool-IsSound_example :
    let m = started.2 in
    IsSound buf_len m
    × AllHold buf_len
        (λ k. some (zeros k))
        (λ n len. some (len, n))
        alloc_len
        packet_len
        m.descs
        m.bufs
initialize_pool-IsSound_example =
    initialize_pool-IsSound buf_len (λ k. some (zeros k)) (λ n len. some (len, n)) alloc_len
      packet_len blank two 0 (omega arith) started_ok

request_65 : (request_one_packet started.2 65).0 ≡ some (128, 2)
unfolding request_one_packet select_index_for_packet_len initialize_pool order_and_set_packet_desc
    has_error_len has_same_len order_packet_desc outer_loop inner_loop exchange fill_all fill
    new_buf initialize add_items add_block store free_item_count get_one_item current_item_count
    next_read_index size_of_int int_of_size size_add size_sub int_add int_sub int_lt int_le
request_65 = refl

request_one_packet_len_example : 65 ≤ buf_len (128, 2)
request_one_packet_len_example =
    request_one_packet_len buf_len started.2 65 (128, 2) initialize_pool-IsSound_example.0
      request_65

order_packet_desc-eq-suffix_least_example :
    order_packet_desc (desc 64 1 2 ∷ desc 32 1 2 ∷ desc 48 1 2 ∷ [])
    ≡ desc 32 1 2 ∷ desc 32 1 2 ∷ desc 48 1 2 ∷ []
unfolding suffix_least least
order_packet_desc-eq-suffix_least_example =
    order_packet_desc-eq-suffix_least (desc 64 1 2 ∷ desc 32 1 2 ∷ desc 48 1 2 ∷ [])

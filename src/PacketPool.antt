-- ===== src/PacketPool.antt =====
-- NetWork/LPacketPoolManager.h: the pools of packets by buffer length. A packet is known by its
-- address, a value of any type `P`; `T` of the template decides only how one is made.
pub mod Order
pub mod Select
pub mod Sound
pub mod Fill
mod Tests
use linuxgameserver.Common.{
  ℕ, zero, suc, ◌+◌, ◌-◌, ◌%◌, ◌^◌, Bool, true, false, ◌||◌, Option, none, some, List, [], ◌∷◌,
  if◌then◌else◌, ltb, leb, ◌==◌, length, get_elem?, set, map,
}
use linuxgameserver.CircleBuf.{
  FixLenCircleBuf, CircleError, no_error, initialize, add_items, get_one_item, request_items,
  copy_all_items_to_other_fix_len_circle_buf, get_current_exist_count,
}
use linuxgameserver.Common.Words.{int_add, size_sub}

-- `t_Packet_Pool_Desc`.
pub record PacketPoolDesc : Type 0 where
  pub packet_len : ℕ
  pub init_size : ℕ
  pub max_alloc_size : ℕ

pub record PacketPoolManager (P : Type 0) : Type 0 where
  pub packet_len_type_count : ℕ
  pub min_packet_size : ℕ
  pub max_packet_size : ℕ
  pub descs : List PacketPoolDesc
  pub bufs : List (FixLenCircleBuf P)

-- The first check of `OrderAndSetPacketDesc`: a description with a length or a size of zero.
pub has_error_len : List PacketPoolDesc → Bool
has_error_len [] = false
has_error_len (d ∷ ds) = ((d.packet_len == 0) || (d.max_alloc_size == 0)) || has_error_len ds

-- The second one: two descriptions of one length.
pub has_len : ℕ → List PacketPoolDesc → Bool
has_len n [] = false
has_len n (d ∷ ds) = (n == d.packet_len) || has_len n ds

pub has_same_len : List PacketPoolDesc → Bool
unfolding has_len
has_same_len [] = false
has_same_len (d ∷ ds) = has_len d.packet_len ds || has_same_len ds

-- One round of the inner loop that sorts. `tppd` keeps the old element and is not used: the second
-- assignment reads the element that the first one has just written.
pub exchange : List PacketPoolDesc → ℕ → ℕ → List PacketPoolDesc
exchange ds i j = elim (get_elem? ds i) [
  | none ↦ ds
  | some a ↦ elim (get_elem? ds j) [
    | none ↦ ds
    | some b ↦
        if ltb b.packet_len a.packet_len
        then (let ds' = set ds i b in elim (get_elem? ds' i) [ none ↦ ds' | some c ↦ set ds' j c ])
        else ds
  ]
]

-- The loops over `unInnerIndex` and `unIndex`, by the rounds that are left.
pub inner_loop : ℕ → ℕ → ℕ → List PacketPoolDesc → List PacketPoolDesc
inner_loop zero i j ds = ds
inner_loop (suc k) i j ds = inner_loop k i (suc j) (exchange ds i j)

pub outer_loop : ℕ → ℕ → ℕ → List PacketPoolDesc → List PacketPoolDesc
outer_loop zero i n ds = ds
outer_loop (suc k) i n ds = outer_loop k (suc i) n (inner_loop (n - suc i) i (suc i) ds)

pub order_packet_desc : List PacketPoolDesc → List PacketPoolDesc
order_packet_desc ds = outer_loop (length ds) 0 (length ds) ds

abbrev pub packet_len_at : List PacketPoolDesc → ℕ → ℕ
packet_len_at ds i = elim (get_elem? ds i) [ none ↦ 0 | some d ↦ d.packet_len ]

-- The loops of `SelectIndexForPacketLen` and `SelectIndexForPacketLenEqual`; `none` is -1.
pub first_index : (ℕ → Bool) → List PacketPoolDesc → ℕ → Option ℕ
first_index test [] i = none
first_index test (d ∷ ds) i =
    let rest = first_index test ds (suc i) in if test d.packet_len then some i else rest

-- `sizeof(T*)`.
abbrev pub pointer_size : ℕ
pointer_size = 8

module _ {P : Type 0} where
  pub order_and_set_packet_desc :
      PacketPoolManager P → List PacketPoolDesc → Bool × PacketPoolManager P
  order_and_set_packet_desc m ds =
      if length ds == 0
      then (false, m)
      else if has_error_len ds
      then (false, m)
      else if has_same_len ds
      then (false, m)
      else (
        true,
        record m {
          packet_len_type_count = length ds;
          descs = ordered;
          min_packet_size = packet_len_at ordered 0;
          max_packet_size = packet_len_at ordered (length ds - 1);
        },
      )
    where
      ordered : List PacketPoolDesc
      ordered = order_packet_desc ds

  pub select_index_for_packet_len : PacketPoolManager P → ℕ → Option ℕ
  unfolding first_index
  select_index_for_packet_len m len =
      if ltb m.max_packet_size len then none else first_index (λ l. leb len l) m.descs 0

  pub select_index_for_packet_len_equal : PacketPoolManager P → ℕ → Option ℕ
  unfolding first_index
  select_index_for_packet_len_equal m len =
      if ltb m.max_packet_size len then none else first_index (λ l. len == l) m.descs 0

  -- The packet or a null pointer. Only the first fitting class is asked, also when it is empty.
  pub request_one_packet : PacketPoolManager P → ℕ → Option P × PacketPoolManager P
  request_one_packet m len = elim (select_index_for_packet_len m len) [
    | none ↦ (none, m)
    | some i ↦ elim (get_elem? m.bufs i) [
      | none ↦ (none, m)
      | some b ↦
          let (e, out, b') = get_one_item b true pointer_size in
          let m' : PacketPoolManager P = record m { bufs = set m.bufs i b' } in
          elim e [ no_error ↦ (out, m') | _ ↦ (none, m') ]
    ]
  ]

  pub free_one_item_to_pool : PacketPoolManager P → P → ℕ → Bool × PacketPoolManager P
  free_one_item_to_pool m p len = elim (select_index_for_packet_len_equal m len) [
    | none ↦ (false, m)
    | some i ↦ elim (get_elem? m.bufs i) [
      | none ↦ (false, m)
      | some b ↦
          let (e, b') = add_items b (some (p ∷ [])) 1 in
          let m' : PacketPoolManager P = record m { bufs = set m.bufs i b' } in
          elim e [ no_error ↦ (true, m') | _ ↦ (false, m') ]
    ]
  ]

  -- `Request`: another manager's buffer takes packets of this one.
  pub request :
      PacketPoolManager P
      → Option (FixLenCircleBuf P)
      → ℕ
      → ℕ
      → ℕ × PacketPoolManager P × Option (FixLenCircleBuf P)
  request m none n len = (0, m, none)
  request m (some d) n len =
      if n == 0 then (0, m, some d) else (elim (select_index_for_packet_len_equal m len) [
        | none ↦ (0, m, some d)
        | some i ↦ elim (get_elem? m.bufs i) [
          | none ↦ (0, m, some d)
          | some b ↦
              let (k, b', d') = request_items b (some d) n in
              (k, record m { bufs = set m.bufs i b' }, d')
        ]
      ])

  -- `GetFixLenCircleBuf`: the index of the buffer, and how many items it can hold at most.
  pub get_fix_len_circle_buf : PacketPoolManager P → ℕ → Option (ℕ × ℕ)
  get_fix_len_circle_buf m len = elim (select_index_for_packet_len_equal m len) [
    | none ↦ none
    | some i ↦ elim (get_elem? m.descs i) [
      | none ↦ none
      | some d ↦ some (i, (d.max_alloc_size + 2 ^ 32 - 1) % 2 ^ 32)
    ]
  ]

  -- The buffers at the chosen indices of the two managers, and the copy between them.
  pub commit_between :
      PacketPoolManager P
      → PacketPoolManager P
      → ℕ
      → ℕ
      → Bool × PacketPoolManager P × PacketPoolManager P
  commit_between m other i j = elim (get_elem? m.bufs i) [
    | none ↦ (false, m, other)
    | some b ↦ elim (get_elem? other.bufs j) [
      | none ↦ (false, m, other)
      | some d ↦
          let (all, b', dest) = copy_all_items_to_other_fix_len_circle_buf b (some d) in
          (
            all,
            record m { bufs = set m.bufs i b' },
            record other { bufs = elim dest [ none ↦ other.bufs | some d' ↦ set other.bufs j d' ] },
          )
    ]
  ]

  pub commit_to_another :
      PacketPoolManager P
      → Option (PacketPoolManager P)
      → ℕ
      → Bool × PacketPoolManager P × Option (PacketPoolManager P)
  commit_to_another m none len = (false, m, none)
  commit_to_another m (some other) len = elim (select_index_for_packet_len_equal m len) [
    | none ↦ (false, m, some other)
    | some i ↦ elim (get_fix_len_circle_buf other len) [
      | none ↦ (false, m, some other)
      | some (j, most) ↦
          let (done, m', other') = commit_between m other i j in (done, m', some other')
    ]
  ]

  -- The loop of `CommitAllLocalPacketPoolToGlobalPacketPool` over the descriptions; what fails is
  -- only logged.
  pub commit_each :
      List PacketPoolDesc
      → PacketPoolManager P
      → Option (PacketPoolManager P)
      → PacketPoolManager P × Option (PacketPoolManager P)
  commit_each [] m other = (m, other)
  commit_each (d ∷ ds) m other =
      let (done, m', other') = commit_to_another m other d.packet_len in commit_each ds m' other'

  -- The guard returns when there is a global manager, and goes on when there is none.
  pub commit_all_local_packet_pool_to_global_packet_pool :
      PacketPoolManager P
      → Option (PacketPoolManager P)
      → Bool × PacketPoolManager P × Option (PacketPoolManager P)
  unfolding commit_each
  commit_all_local_packet_pool_to_global_packet_pool m (some other) = (false, m, some other)
  commit_all_local_packet_pool_to_global_packet_pool m none =
      let (m', other') = commit_each m.descs m none in (true, m', other')

  pub get_current_content_count : List (FixLenCircleBuf P) → ℕ → ℕ
  get_current_content_count [] n = n
  get_current_content_count (b ∷ bs) n =
      get_current_content_count bs (int_add n (get_current_exist_count b))

  -- What the constructor of `LFixLenCircleBuf` leaves.
  pub new_buf : FixLenCircleBuf P
  new_buf = record {
    read_index = 0;
    write_index = 0;
    item_size = 0;
    buf = none;
    max_item_count = 0;
  }

  -- `Initialize` makes its objects by `new`: `alloc` gives the blocks, `new_packet` the packet for
  -- the n-th call and a length; `none` is a null pointer. The number of the calls is passed on.
  module _ (alloc : ℕ → Option (List P)) (new_packet : ℕ → ℕ → Option P) where
    pub fill : ℕ → ℕ → ℕ → FixLenCircleBuf P → Bool × ℕ × FixLenCircleBuf P
    fill zero n len b = (true, n, b)
    fill (suc k) n len b = elim (new_packet n len) [
      | none ↦ (false, n, b)
      | some p ↦
          let (e, b') = add_items b (some (p ∷ [])) 1 in
          elim e [ no_error ↦ fill k (suc n) len b' | _ ↦ (false, suc n, b') ]
    ]

    pub fill_all : ℕ → List PacketPoolDesc → Bool × ℕ × List (FixLenCircleBuf P)
    fill_all n [] = (true, n, [])
    fill_all n (d ∷ ds) =
        let (made, b) = initialize alloc new_buf pointer_size d.max_alloc_size in
        let (filled, n', b') = fill d.init_size n d.packet_len b in
        let (rest, n'', bs) = fill_all n' ds in
        let stop : List (FixLenCircleBuf P) = map (λ _. new_buf) ds in
        if made
        then if filled then (rest, n'', b' ∷ bs) else (false, n', b' ∷ stop)
        else (false, n, b ∷ stop)

    pub initialize_pool :
        PacketPoolManager P → List PacketPoolDesc → ℕ → Bool × ℕ × PacketPoolManager P
    initialize_pool m ds n =
        let (ordered, m') = order_and_set_packet_desc m ds in
        let (filled, n', bs) = fill_all n m'.descs in
        if length ds == 0
        then (false, n, m)
        else if ordered
        then (filled, n', record m' { bufs = bs })
        else (false, n, m')

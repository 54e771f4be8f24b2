-- ===== src/Master/UniqueId.antt =====
-- include/Server_Define.h: the unique id of a server as one number.
use linuxgameserver.Common.{◌/◌, ◌%◌, ◌^◌, ◌<◌, ◌≡◌, true, arith}
use linuxgameserver.Master.{ServerId, get_server_unique_id, is_server_type, set_server_id}

-- The fields are in the range of their C++ types.
pub record InRange (i : ServerId) : Type 0 where
  pub type_lt : i.server_type < 2 ^ 8
  pub area_lt : i.area_id < 2 ^ 16
  pub group_lt : i.group_id < 2 ^ 16
  pub server_lt : i.server_id < 2 ^ 16

-- A valid server id comes back from its number.
pub set_server_id-get_server_unique_id :
    (i : ServerId)
    → InRange i
    → is_server_type i.server_type ≡ true
    → set_server_id (get_server_unique_id i) ≡ (true, i)
unfolding set_server_id get_server_unique_id
set_server_id-get_server_unique_id i r h =
    let n = get_server_unique_id i in
    let t : (n / 2 ^ 48) % 2 ^ 8 ≡ i.server_type =
      omega (arith, r.type_lt, r.area_lt, r.group_lt, r.server_lt) in
    let a : (n / 2 ^ 32) % 2 ^ 16 ≡ i.area_id =
      omega (arith, r.type_lt, r.area_lt, r.group_lt, r.server_lt) in
    let g : (n / 2 ^ 16) % 2 ^ 16 ≡ i.group_id =
      omega (arith, r.type_lt, r.area_lt, r.group_lt, r.server_lt) in
    let s : n % 2 ^ 16 ≡ i.server_id =
      omega (arith, r.type_lt, r.area_lt, r.group_lt, r.server_lt) in
    ground (arith, t, a, g, s)

-- ===== src/Master.antt =====
-- MasterServer/LServerManager.cpp, LServer.cpp and include/Server_Define.h: the servers that have
-- connected to the master server, before and behind their registration.
-- A server is the address of its object; `live` says which addresses hold an object, so that `new` and
-- `delete` can be followed.
pub mod UniqueId
pub mod Accounted
pub mod Moves
pub mod Keeps
pub mod Reach
pub mod Users
pub mod Neighbours
pub mod Handlers
pub mod Known
pub mod Online
pub mod Report
mod Tests
mod UserTests
use linuxgameserver.Common.{
  ℕ, ◌+◌, ◌*◌, ◌/◌, ◌%◌, ◌^◌, Bool, true, false, ◌&&◌, ◌||◌, Option, none, some, if◌then◌else◌, ltb,
  leb, ◌==◌,
}
use linuxgameserver.Common.Maps.{Map, find, assign, erase}
use linuxgameserver.Gate.{SessionAccepted}

-- `LServerID`: a field of 8 bits and three of 16.
pub record ServerId : Type 0 where
  pub server_type : ℕ
  pub area_id : ℕ
  pub group_id : ℕ
  pub server_id : ℕ

-- The shifted parts share no bits, so that `|` adds them.
unfoldable pub get_server_unique_id : ServerId → ℕ
get_server_unique_id i =
    i.server_type * 2 ^ 48 + i.area_id * 2 ^ 32 + i.group_id * 2 ^ 16 + i.server_id

-- `E_Server_Type_Max`, and the test of a type against it and `E_Server_Type_Invalid`.
abbrev pub server_type_max : ℕ
server_type_max = 8

abbrev pub is_server_type : ℕ → Bool
is_server_type t = ltb 0 t && ltb t server_type_max

-- The masks and shifts as division and remainder; an invalid type resets the fields.
unfoldable pub set_server_id : ℕ → Bool × ServerId
set_server_id n =
    let t = (n / 2 ^ 48) % 2 ^ 8 in
    if is_server_type t
    then (
      true,
      record {
        server_type = t;
        area_id = (n / 2 ^ 32) % 2 ^ 16;
        group_id = (n / 2 ^ 16) % 2 ^ 16;
        server_id = n % 2 ^ 16;
      },
    )
    else (false, record { server_type = 0; area_id = 0; group_id = 0; server_id = 0 })

pub data ServerState : Type 0 where
  unknow registered initialized working : ServerState

-- `LServer`.
pub record MasterServer : Type 0 where
  pub id : ServerId
  pub session_id : ℕ
  pub server_state : ServerState
  pub server_base_info : SessionAccepted
  pub current_serve_count : ℕ

pub record ServerManager : Type 0 where
  pub servers : Map ℕ
  pub session_to_servers : Map ℕ
  pub new_up_servers : Map ℕ
  pub objects : ℕ → MasterServer
  pub live : ℕ → Bool

abbrev pub set {ℓ} : {A : Type ℓ} → (ℕ → A) → ℕ → A → ℕ → A
set f p a q = if p == q then a else f q

-- `new` of an object at the address `p`, with what is then set, and `delete`.
abbrev pub create : ServerManager → ℕ → MasterServer → ServerManager
create m p o = record m { objects = set m.objects p o; live = set m.live p true }

abbrev pub delete : ServerManager → ℕ → ServerManager
delete m p = record m { live = set m.live p false }

abbrev pub no_id : ServerId
no_id = record { server_type = 0; area_id = 0; group_id = 0; server_id = 0 }

abbrev pub new_up : ℕ → SessionAccepted → MasterServer
new_up sid tsa = record {
  id = no_id;
  session_id = sid;
  server_state = unknow;
  server_base_info = tsa;
  current_serve_count = 0;
}

-- `p` is what `new` returns; the entry of the session is overwritten without a test.
unfoldable pub add_new_up_server : ServerManager → ℕ → ℕ → SessionAccepted → Bool × ServerManager
add_new_up_server m p sid tsa =
    let m' = create m p (new_up sid tsa) in
    (true, record m' { new_up_servers = assign m.new_up_servers sid p })

-- The types for which `CreateServer` makes an object: all but the master server's own.
abbrev pub create_server : ℕ → Bool
create_server t = ltb 1 t && ltb t server_type_max

abbrev pub drop_new_up : ServerManager → ℕ → ℕ → ServerManager
drop_new_up m sid q = delete (record m { new_up_servers = erase m.new_up_servers sid }) q

abbrev pub register : ℕ → ServerId → SessionAccepted → MasterServer
register sid i tsa = record {
  id = i;
  session_id = sid;
  server_state = registered;
  server_base_info = tsa;
  current_serve_count = 0;
}

-- `p` is what `CreateServer` returns where it makes an object.
unfoldable pub add_server : ServerManager → ℕ → ℕ → ServerId → Bool × ServerManager
add_server m p sid i = elim (find m.new_up_servers sid) [
  | none ↦ (false, m)
  | some q ↦
      if is_server_type i.server_type && create_server i.server_type
      then (let uid = get_server_unique_id i in
          let m1 = drop_new_up (create m p (register sid i (m.objects q).server_base_info)) sid q in
          elim (find m.servers uid) [
            | some _ ↦ (false, delete m1 p)
            | none ↦ elim (find m.session_to_servers sid) [
              | some _ ↦ (false, delete m1 p)
              | none ↦ (
                true,
                record m1 {
                  servers = assign m.servers uid p;
                  session_to_servers = assign m.session_to_servers sid p;
                },
              )
            ]
          ])
      else (false, drop_new_up m sid q)
]

abbrev pub find_server : ServerManager → ℕ → Option ℕ
find_server m uid = find m.servers uid

abbrev pub find_server_by_id : ServerManager → ServerId → Option ℕ
find_server_by_id m i = find_server m (get_server_unique_id i)

unfoldable pub find_server_by_session_id : ServerManager → ℕ → Option ℕ
find_server_by_session_id m sid = elim (find m.session_to_servers sid) [
  | some p ↦ some p
  | none ↦ find m.new_up_servers sid
]

unfoldable pub remove_new_up : ServerManager → ℕ → ServerManager
remove_new_up m sid = elim (find m.new_up_servers sid) [ none ↦ m | some q ↦ drop_new_up m sid q ]

unfoldable pub remove_session : ServerManager → ℕ → ServerManager
remove_session m sid = elim (find m.session_to_servers sid) [
  | none ↦ m
  | some p ↦
      delete
        (record m {
          session_to_servers = erase m.session_to_servers sid;
          servers = erase m.servers (get_server_unique_id (m.objects p).id);
        })
        p
]

unfoldable pub remove_server_by_net_work_session_id : ServerManager → ℕ → ServerManager
remove_server_by_net_work_session_id m sid = remove_session (remove_new_up m sid) sid

unfoldable pub remove_server : ServerManager → ℕ → ServerManager
remove_server m uid = elim (find m.servers uid) [
  | none ↦ m
  | some p ↦
      delete
        (record m {
          servers = erase m.servers uid;
          session_to_servers = erase m.session_to_servers (m.objects p).session_id;
        })
        p
]

abbrev pub remove_server_by_id : ServerManager → ServerId → ServerManager
remove_server_by_id m i = remove_server m (get_server_unique_id i)

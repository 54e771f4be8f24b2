-- ===== src/Gate.antt =====
-- GateServer/LClientManager.cpp and LClient.cpp: the clients of a gate server by session and by user,
-- the pool of their objects, and the users that are expected with their login keys.
-- A client is the address of its object, and `clients` the objects themselves. A text is the list of
-- its characters before the terminating zero. `now` is what `time` returns.
pub mod Expected
pub mod Tick
pub mod Handlers
pub mod Lobby
pub mod Master
pub mod Sound
pub mod Keeps
pub mod Handled
pub mod Reach
pub mod Pool
pub mod Reads
pub mod Login
pub mod Enter
mod Keyless
pub mod Stale
mod Tests
use linuxgameserver.Common.{
  ℕ, zero, suc, ◌+◌, ◌%◌, ◌^◌, Bool, true, false, ◌&&◌, ◌||◌, Option, none, some, List, [], ◌∷◌,
  ◌++◌, if◌then◌else◌, ltb, leb, ◌==◌, take, length,
}
use linuxgameserver.Common.Maps.{Map, find, assign, erase}

pub data ClientState : Type 0 where
  unknown just_connect initialized login_waiting_master_confirm logined : ClientState
  request_lobby loginning_lobby in_lobby request_game_server : ClientState
  loginning_game_server in_game_server : ClientState

-- The value of a state in the enumeration.
abbrev pub rank : ClientState → ℕ
rank unknown = 0
rank just_connect = 1
rank initialized = 2
rank login_waiting_master_confirm = 3
rank logined = 4
rank request_lobby = 5
rank loginning_lobby = 6
rank in_lobby = 7
rank request_game_server = 8
rank loginning_game_server = 9
rank in_game_server = 10

pub record Client : Type 0 where
  pub unique_id_in_db : ℕ
  pub user_id : List ℕ
  pub client_state : ClientState
  pub current_server_unique_id : ℕ
  pub session_id : ℕ
  pub send_thread_id : ℕ
  pub recv_thread_id : ℕ
  pub ip : List ℕ
  pub port : ℕ

-- `t_Session_Accepted`, as far as the manager reads it.
pub record SessionAccepted : Type 0 where
  pub ip : List ℕ
  pub port : ℕ
  pub recv_thread_id : ℕ
  pub send_thread_id : ℕ

pub record WillConnect : Type 0 where
  pub login_key : List ℕ
  pub user_id : List ℕ

pub record TimeOutInfo : Type 0 where
  pub unique_id : ℕ
  pub move_time : ℕ

pub record ClientManager : Type 0 where
  pub session_to_client : Map ℕ
  pub unique_id_to_client : Map ℕ
  pub client_pool : List ℕ
  pub will_connect_infos : Map WillConnect
  pub time_out_queue : List TimeOutInfo
  pub login_key_will_connect : ℕ
  pub clients : ℕ → Client

-- An assignment to the fields of an object.
abbrev pub update : (ℕ → Client) → ℕ → (Client → Client) → ℕ → Client
update clients p f q = if p == q then f (clients q) else clients q

-- `MAX_USER_ID_LEN`, and the sizes of a key and of an address.
abbrev pub max_user_id_len : ℕ
max_user_id_len = 16

abbrev pub key_len : ℕ
key_len = 128

abbrev pub connect : ℕ → SessionAccepted → Client → Client
connect sid tas c = record c {
  client_state = just_connect;
  session_id = sid;
  send_thread_id = tas.send_thread_id;
  recv_thread_id = tas.recv_thread_id;
  ip = take 19 tas.ip;
  port = tas.port;
}

-- The constructor.
abbrev pub new_client : Client
new_client = record {
  unique_id_in_db = 0;
  user_id = [];
  client_state = unknown;
  current_server_unique_id = 0;
  session_id = 0;
  send_thread_id = 0;
  recv_thread_id = 0;
  ip = [];
  port = 0;
}

unfoldable pub add_new_up_client : ClientManager → ℕ → SessionAccepted → Bool × ClientManager
add_new_up_client m sid tas = elim (find m.session_to_client sid) [
  | some _ ↦ (false, m)
  | none ↦ elim m.client_pool [
    | [] ↦ (false, m)
    | p ∷ rest ↦ (
      true,
      record m {
        client_pool = rest;
        clients = update m.clients p (connect sid tas);
        session_to_client = assign m.session_to_client sid p;
      },
    )
  ]
]

-- `strncmp` gives zero.
abbrev pub same_text : List ℕ → List ℕ → Bool
same_text [] [] = true
same_text [] (_ ∷ _) = false
same_text (_ ∷ _) [] = false
same_text (a ∷ xs) (b ∷ ys) = a == b && same_text xs ys

abbrev pub initialized_client : ℕ → WillConnect → Client → Client
initialized_client uid w c = record c {
  unique_id_in_db = uid;
  client_state = initialized;
  user_id = take max_user_id_len w.user_id;
}

-- The entry of an expected user is used up, also by a wrong key.
unfoldable pub check_client_info : ClientManager → ℕ → ℕ → List ℕ → Bool × ClientManager
check_client_info m sid uid key = elim (find m.session_to_client sid) [
  | none ↦ (false, m)
  | some p ↦ elim (find m.unique_id_to_client uid) [
    | some _ ↦ (false, m)
    | none ↦ elim (find m.will_connect_infos uid) [
      | none ↦ (false, m)
      | some w ↦
          (let m' : ClientManager = record m {
            will_connect_infos = erase m.will_connect_infos uid;
          } in
            if same_text (take key_len w.login_key) (take key_len key)
            then (
              true,
              record m' {
                clients = update m.clients p (initialized_client uid w);
                unique_id_to_client = assign m.unique_id_to_client uid p;
              },
            )
            else (false, m'))
    ]
  ]
]

abbrev pub find_client_by_session_id : ClientManager → ℕ → Option ℕ
find_client_by_session_id m sid = find m.session_to_client sid

abbrev pub find_client_by_user_unique_id_in_db : ClientManager → ℕ → Option ℕ
find_client_by_user_unique_id_in_db m uid = find m.unique_id_to_client uid

abbrev pub free_client : ClientManager → ℕ → ClientManager
free_client m p = record m { client_pool = m.client_pool ++ (p ∷ []) }

-- For an initialized client the entry of the session stays.
unfoldable pub remove_client_by_session_id : ClientManager → ℕ → ClientManager
remove_client_by_session_id m sid = elim (find m.session_to_client sid) [
  | none ↦ m
  | some p ↦
      if ltb (rank (m.clients p).client_state) (rank initialized)
      then free_client (record m { session_to_client = erase m.session_to_client sid }) p
      else free_client
          (record m {
            unique_id_to_client = erase m.unique_id_to_client (m.clients p).unique_id_in_db;
          })
          p
]

unfoldable pub remove_client_by_user_unique_id_in_db : ClientManager → ℕ → ClientManager
remove_client_by_user_unique_id_in_db m uid = elim (find m.unique_id_to_client uid) [
  | none ↦ m
  | some p ↦
      free_client
        (record m {
          unique_id_to_client = erase m.unique_id_to_client uid;
          session_to_client = erase m.session_to_client (m.clients p).session_id;
        })
        p
]

abbrev pub get_serve_count : ClientManager → ℕ
get_serve_count m = length m.session_to_client % 2 ^ 32

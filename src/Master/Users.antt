-- ===== src/Master/Users.antt =====
-- MasterServer/LUserManager.cpp, LUser.cpp and the user part of LMasterServerMainLogic.cpp: the users
-- that are on line, by their ids, and the pool of their objects.
use linuxgameserver.Common.{
  ℕ, Bool, true, false, Option, none, some, List, [], ◌∷◌, ◌++◌, if◌then◌else◌, ◌==◌, take,
}
use linuxgameserver.Common.Maps.{Map, find, assign, erase}
use linuxgameserver.Gate.{max_user_id_len}
use linuxgameserver.Master.{set}

pub data UserState : Type 0 where
  user_unknown created waiting_gate_server_reponse waiting_gate_server_login : UserState
  connectted_to_gate_server : UserState

-- The value of a state in the enumeration.
abbrev pub state_rank : UserState → ℕ
state_rank user_unknown = 0
state_rank created = 1
state_rank waiting_gate_server_reponse = 2
state_rank waiting_gate_server_login = 3
state_rank connectted_to_gate_server = 4

pub record User : Type 0 where
  pub user_id_in_db : ℕ
  pub user_id : List ℕ
  pub user_state : UserState

-- A user is the address of its object.
pub record UserManager : Type 0 where
  pub users : Map ℕ
  pub user_pool : List ℕ
  pub user_objects : ℕ → User

-- The constructor and `Reset`.
abbrev pub reset_user : User
reset_user = record { user_id_in_db = 0; user_id = []; user_state = user_unknown }

abbrev pub find_user : UserManager → ℕ → Option ℕ
find_user m uid = find m.users uid

abbrev pub is_exist_user_info : UserManager → ℕ → Bool
is_exist_user_info m uid = elim (find m.users uid) [ none ↦ false | some _ ↦ true ]

unfoldable pub add_new_user_info : UserManager → ℕ → Bool × UserManager
add_new_user_info m p =
    let uid = (m.user_objects p).user_id_in_db in
    if is_exist_user_info m uid
    then (false, m)
    else (true, record m { users = assign m.users uid p })

unfoldable pub free_one_user : UserManager → ℕ → UserManager
free_one_user m p = record m {
  user_objects = set m.user_objects p reset_user;
  user_pool = m.user_pool ++ (p ∷ []);
}

unfoldable pub remove_user : UserManager → ℕ → UserManager
remove_user m uid = elim (find m.users uid) [
  | none ↦ m
  | some p ↦ free_one_user (record m { users = erase m.users uid }) p
]

-- `fresh` is what `new` returns where the pool is empty.
unfoldable pub alloc_one_user : UserManager → (fresh : Option ℕ) → Option ℕ × UserManager
alloc_one_user m fresh = elim m.user_pool [
  | p ∷ rest ↦ (some p, record m { user_pool = rest })
  | [] ↦ elim fresh [
    | none ↦ (none, m)
    | some p ↦ (some p, record m { user_objects = set m.user_objects p reset_user })
  ]
]

abbrev pub set_user_state : UserManager → ℕ → UserState → UserManager
set_user_state m p st = record m {
  user_objects = set m.user_objects p (record (m.user_objects p) { user_state = st });
}

-- The one change of state that it knows is from the creation to the wait for the gate server.
unfoldable pub update_user_state : UserManager → ℕ → UserState → Bool × UserManager
update_user_state m uid st = elim (find m.users uid) [
  | none ↦ (false, m)
  | some p ↦
      if state_rank st == state_rank waiting_gate_server_reponse
      then (if state_rank (m.user_objects p).user_state == state_rank created
          then (true, set_user_state m p waiting_gate_server_reponse)
          else (false, m))
      else (false, m)
]

-- The patterns of the results -1 and -2.
abbrev pub global_error_unknown : ℕ
global_error_unknown = 4294967295

abbrev pub global_error_user_already_online : ℕ
global_error_user_already_online = 4294967294

abbrev pub created_user : ℕ → List ℕ → User
created_user uid user = record {
  user_id_in_db = uid;
  user_id = take max_user_id_len user;
  user_state = created;
}

-- The main logic thread and the text are there.
unfoldable pub user_online_from_login_server :
    UserManager → (fresh : Option ℕ) → List ℕ → ℕ → ℕ × UserManager
user_online_from_login_server m fresh user uid =
    if uid == 0 then (global_error_unknown, m) else (elim (find_user m uid) [
      | some _ ↦ (global_error_user_already_online, m)
      | none ↦
          (let (got, m1) = alloc_one_user m fresh in
            elim got [
              | none ↦ (global_error_unknown, m1)
              | some p ↦
                  (let m2 = record m1 {
                    user_objects = set m1.user_objects p (created_user uid user);
                  } in
                    let (ok, m3) = add_new_user_info m2 p in
                    if ok then (0, m3) else (global_error_unknown, free_one_user m3 p))
            ])
    ])

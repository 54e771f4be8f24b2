-- ===== src/Gate/Expected.antt =====
-- GateServer/LClientManager.cpp: the users that are expected, with their login keys.
use linuxgameserver.Common.{
  ℕ, ◌+◌, ◌%◌, ◌^◌, Bool, true, false, ◌||◌, Option, none, some, List, [], ◌∷◌, ◌++◌, if◌then◌else◌,
  ltb, take,
}
use linuxgameserver.Common.Maps.{find, assign}
use linuxgameserver.Gate.{WillConnect, ClientManager, max_user_id_len, key_len}

-- The key and the user id are `none` for null pointers. An entry that is there stays as it is.
unfoldable pub add_will_connect_client_info :
    ClientManager → ℕ → ℕ → Option (List ℕ) → Option (List ℕ) → Bool × ClientManager
add_will_connect_client_info m now uid none user = (false, m)
add_will_connect_client_info m now uid (some key) none = (false, m)
add_will_connect_client_info m now uid (some key) (some user) =
    elim (find m.will_connect_infos uid) [
      | some _ ↦ (true, m)
      | none ↦ (
        true,
        record m {
          will_connect_infos =
              assign m.will_connect_infos uid
                (record { login_key = take key_len key; user_id = take max_user_id_len user });
          time_out_queue =
              m.time_out_queue ++ (record { unique_id = uid; move_time = now + 5 } ∷ []);
        },
      )
    ]

-- The lengths of the buffers, `none` for null pointers; the result is what is copied to them.
unfoldable pub find_will_connect_client_info :
    ClientManager → ℕ → Option ℕ → Option ℕ → Option WillConnect
find_will_connect_client_info m uid none user_buf = none
find_will_connect_client_info m uid (some n) none = none
find_will_connect_client_info m uid (some n) (some k) =
    if ltb n key_len || ltb k max_user_id_len then none else find m.will_connect_infos uid

-- The count of the keys is an `unsigned int`; the key is its decimal text.
unfoldable pub build_login_key : (print : ℕ → List ℕ) → ClientManager → List ℕ × ClientManager
build_login_key print m =
    let n = (m.login_key_will_connect + 1) % 2 ^ 32 in
    (print n, record m { login_key_will_connect = n })

-- ===== src/Gate/Keeps.antt =====
-- GateServer/LClientManager.cpp: each operation keeps the indices and the pool sound.
use linuxgameserver.Common.{
  ℕ, ◌+◌, ◌≤◌, ◌<◌, ◌≡◌, sym, subst, some, List, [], ◌∷◌, ◌++◌, inl, inr, ◌∙◌, take, Bool-cases,
  Option-cases, List-cases, arith,
}
use linuxgameserver.Common.Maps.{find, assign, erase}
use linuxgameserver.Gate.{
  ClientState, rank, SessionAccepted, ClientManager, update, connect, same_text, key_len,
  max_user_id_len, initialized_client, add_new_up_client, check_client_info,
  remove_client_by_session_id, remove_client_by_user_unique_id_in_db,
}
use linuxgameserver.Gate.Expected.{add_will_connect_client_info}
use linuxgameserver.Gate.Handlers.{set_client_state}
use linuxgameserver.Gate.Sound.{
  Sound, IsSound, Sound-connect, Sound-initialized_client, Sound-free, Sound-drop,
  Sound-set_client_state,
}

-- A manager that is another one.
pub IsSound-eq : (n m : ClientManager) → IsSound m → n ≡ m → IsSound n
IsSound-eq n m h e = subst IsSound (sym e) h

pub add_new_up_client-IsSound :
    (m : ClientManager) (sid : ℕ) (tas : SessionAccepted)
    → IsSound m
    → IsSound (add_new_up_client m sid tas).1
unfolding add_new_up_client
add_new_up_client-IsSound m sid tas h = elim (Option-cases (find m.session_to_client sid)) [
  | inr (q, e) ↦ IsSound-eq (add_new_up_client m sid tas).1 m h (ground arith)
  | inl e ↦ elim (List-cases m.client_pool) [
    | inl c ↦ IsSound-eq (add_new_up_client m sid tas).1 m h (ground arith)
    | inr (p, rest, c) ↦
        IsSound-eq (add_new_up_client m sid tas).1
          (record m {
            client_pool = rest;
            clients = update m.clients p (connect sid tas);
            session_to_client = assign m.session_to_client sid p;
          })
          (Sound-connect sid p tas rest
            (subst (λ l. Sound m.session_to_client m.unique_id_to_client l m.clients) c h) e)
          (ground arith)
  ]
]

-- A login is taken to be of a client that is not initialized; the code does not test it.
pub check_client_info-IsSound :
    (m : ClientManager) (sid uid : ℕ) (key : List ℕ)
    → IsSound m
    → ((p : ℕ) → find m.session_to_client sid ≡ some p → rank (m.clients p).client_state < 2)
    → IsSound (check_client_info m sid uid key).1
unfolding check_client_info
check_client_info-IsSound m sid uid key h g = elim (Option-cases (find m.session_to_client sid)) [
  | inl e ↦ IsSound-eq (check_client_info m sid uid key).1 m h (ground arith)
  | inr (p, e) ↦ elim (Option-cases (find m.unique_id_to_client uid)) [
    | inr (q, f) ↦ IsSound-eq (check_client_info m sid uid key).1 m h (ground arith)
    | inl f ↦ elim (Option-cases (find m.will_connect_infos uid)) [
      | inl k ↦ IsSound-eq (check_client_info m sid uid key).1 m h (ground arith)
      | inr (w, k) ↦ elim (Bool-cases (same_text (take key_len w.login_key) (take key_len key))) [
        | inr d ↦
            IsSound-eq (check_client_info m sid uid key).1
              (record m { will_connect_infos = erase m.will_connect_infos uid }) h (ground arith)
        | inl d ↦
            IsSound-eq (check_client_info m sid uid key).1
              (record m {
                will_connect_infos = erase m.will_connect_infos uid;
                clients = update m.clients p (initialized_client uid w);
                unique_id_to_client = assign m.unique_id_to_client uid p;
              })
              (Sound-initialized_client sid uid p w m.client_pool h e f (g p e)) (ground arith)
      ]
    ]
  ]
]

pub remove_by_user-IsSound :
    (m : ClientManager) (uid : ℕ)
    → IsSound m
    → IsSound (remove_client_by_user_unique_id_in_db m uid)
unfolding remove_client_by_user_unique_id_in_db
remove_by_user-IsSound m uid h = elim (Option-cases (find m.unique_id_to_client uid)) [
  | inl e ↦ IsSound-eq (remove_client_by_user_unique_id_in_db m uid) m h (ground arith)
  | inr (p, e) ↦
      IsSound-eq (remove_client_by_user_unique_id_in_db m uid)
        (record m {
          unique_id_to_client = erase m.unique_id_to_client uid;
          session_to_client = erase m.session_to_client (m.clients p).session_id;
          client_pool = m.client_pool ++ (p ∷ []);
        })
        (Sound-free (m.clients p).session_id uid p m.client_pool h (h.user_session uid p e)
          (λ u k. sym (h.by_user u p k) ∙ h.by_user uid p e))
        (ground arith)
]

-- The removal by the session of a client that is not initialized.
pub remove_by_session-IsSound :
    (m : ClientManager) (sid : ℕ)
    → IsSound m
    → ((p : ℕ) → find m.session_to_client sid ≡ some p → rank (m.clients p).client_state < 2)
    → IsSound (remove_client_by_session_id m sid)
unfolding remove_client_by_session_id
remove_by_session-IsSound m sid h g = elim (Option-cases (find m.session_to_client sid)) [
  | inl e ↦ IsSound-eq (remove_client_by_session_id m sid) m h (ground arith)
  | inr (p, e) ↦
      IsSound-eq (remove_client_by_session_id m sid)
        (record m {
          session_to_client = erase m.session_to_client sid;
          client_pool = m.client_pool ++ (p ∷ []);
        })
        (Sound-drop sid p m.client_pool h e (g p e)) (ground (arith, g p e))
]

pub set_client_state-IsSound :
    (m : ClientManager) (p : ℕ) (st : ClientState)
    → IsSound m
    → 2 ≤ rank st
    → IsSound (set_client_state m p st)
unfolding set_client_state
set_client_state-IsSound m p st h e = Sound-set_client_state p st m.client_pool h e

pub add_will_connect-IsSound :
    (m : ClientManager) (now uid : ℕ) (key user : List ℕ)
    → IsSound m
    → IsSound (add_will_connect_client_info m now uid (some key) (some user)).1
unfolding add_will_connect_client_info
add_will_connect-IsSound m now uid key user h =
    elim (Option-cases (find m.will_connect_infos uid)) [
      | inl e ↦
          IsSound-eq (add_will_connect_client_info m now uid (some key) (some user)).1
            (record m {
              will_connect_infos =
                  assign m.will_connect_infos uid
                    (record { login_key = take key_len key; user_id = take max_user_id_len user });
              time_out_queue =
                  m.time_out_queue ++ (record { unique_id = uid; move_time = now + 5 } ∷ []);
            })
            h (ground arith)
      | inr (w, e) ↦
          IsSound-eq (add_will_connect_client_info m now uid (some key) (some user)).1 m h
            (ground arith)
    ]

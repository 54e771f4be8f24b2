-- ===== src/Master/UserTests.antt =====
-- Runs of the users of the master server on small inputs, and the theorems at them.
use linuxgameserver.Common.{
  ℕ, ◌≡◌, refl, true, none, some, List, [], ◌∷◌, ◌==◌, if◌then◌else◌, arith,
}
use linuxgameserver.Common.Maps.{find}
use linuxgameserver.Packet.{zeros}
use linuxgameserver.Packet.Typed.{ulong_long, long_long}
use linuxgameserver.Gate.{SessionAccepted}
use linuxgameserver.Gate.Handlers.{Value, typed, block, text, padded}
use linuxgameserver.Gate.Reads.{packet_of, packet_of-IsReady}
use linuxgameserver.Master.{
  ServerId, set_server_id, MasterServer, registered, ServerManager, new_up,
  find_server_by_session_id,
}
use linuxgameserver.Master.Users.{
  UserManager, waiting_gate_server_reponse, connectted_to_gate_server, reset_user, created_user,
  find_user, user_online_from_login_server, remove_user,
}
use linuxgameserver.Master.Handlers.{
  Master, send_to, m2ga_user_will_login, select_best_gate_server, first_gate, l2m_user_online,
  ga2m_user_gateserver_offline,
}
use linuxgameserver.Master.Neighbours.{
  broad_cast_server_to_servers, waiting_for, broad_cast_server_to_servers-waiting_for,
}
use linuxgameserver.Master.Known.{IsKnown}
use linuxgameserver.Master.Online.{
  UserSteps, IsNewUser, comes_online, leaves, stop, next, user_steps-IsKnown,
}
use linuxgameserver.Master.Report.{ga2m_user_gateserver_offline_lem, l2m_user_online_lem}
use linuxgameserver.SessionManager.Life.{occurrences}

abbrev accepted : SessionAccepted
accepted = record { ip = 49 ∷ []; port = 80; recv_thread_id = 0; send_thread_id = 1 }

abbrev server : ℕ → ℕ → MasterServer
server t sid = record (new_up sid accepted) {
  id = record { server_type = t; area_id = 1; group_id = 1; server_id = 1 };
  server_state = registered;
}

-- A login server in session 7 and a gate server in session 8.
abbrev both : ServerManager
both = record {
  servers = record { key = 2; value = 100 } ∷ record { key = 3; value = 101 } ∷ [];
  session_to_servers = record { key = 7; value = 100 } ∷ record { key = 8; value = 101 } ∷ [];
  new_up_servers = [];
  objects = λ p. if p == 100 then server 2 7 else server 3 8;
  live = λ p. true;
}

abbrev nobody : UserManager
nobody = record { users = []; user_pool = 50 ∷ 51 ∷ []; user_objects = λ _. reset_user }

nobody-IsKnown : IsKnown nobody
unfolding find occurrences
nobody-IsKnown = record {
  by_id = λ u p e. ground arith;
  in_use = λ u p e. ground arith;
  pooled = λ p. ground arith;
}

abbrev master : Master
master = record { server_manager = both; user_manager = nobody }

abbrev name : List ℕ
name = padded 16 (65 ∷ 66 ∷ [])

abbrev report : List Value
report = typed ulong_long 1 ∷ block name ∷ typed ulong_long 42 ∷ []

no_new : IsNewUser nobody none
no_new p e = ground arith

user_steps :
    UserSteps nobody (remove_user (user_online_from_login_server nobody none (65 ∷ []) 42).1 42)
user_steps =
    next _ (comes_online nobody none (65 ∷ []) 42 no_new)
      (next _ (leaves (user_online_from_login_server nobody none (65 ∷ []) 42).1 42) (stop _))

user_steps-IsKnown_example :
    IsKnown (remove_user (user_online_from_login_server nobody none (65 ∷ []) 42).1 42)
user_steps-IsKnown_example = user_steps-IsKnown user_steps nobody-IsKnown

login_server : find_server_by_session_id both 7 ≡ some 100
unfolding find_server_by_session_id find
login_server = refl

gate_server : find_server_by_session_id both 8 ≡ some 101
unfolding find_server_by_session_id find
gate_server = refl

best_gate : select_best_gate_server both ≡ some 8
unfolding select_best_gate_server first_gate
best_gate = refl

no_user : find_user nobody 42 ≡ none
unfolding find
no_user = refl

l2m_user_online_lem_example :
    let (sent, n) = l2m_user_online master 7 none (packet_of report) in
    (sent
      ≡ send_to
          (server 3 8)
          128
          m2ga_user_will_login
          (typed ulong_long 1 ∷ typed long_long 7 ∷ block name ∷ typed ulong_long 42 ∷ [])
        ∷ [])
    × (find_user n.user_manager 42 ≡ some 50)
    × (n.user_manager.user_objects 50
        ≡ record (created_user 42 (text name)) { user_state = waiting_gate_server_reponse })
    × (n.user_manager.user_pool ≡ 51 ∷ [])
unfolding zeros
l2m_user_online_lem_example =
    l2m_user_online_lem master 7 100 8 101 1 42 50 (51 ∷ []) name none (packet_of report)
      (packet_of-IsReady report (omega arith)) (omega arith) (omega arith) (omega arith) refl
      login_server refl best_gate gate_server no_user refl

-- A user that is connected.
abbrev somebody : UserManager
somebody = record {
  users = record { key = 42; value = 50 } ∷ [];
  user_pool = 51 ∷ [];
  user_objects = λ p.
      if p == 50
      then record (created_user 42 (65 ∷ [])) { user_state = connectted_to_gate_server }
      else reset_user;
}

one_user : find_user somebody 42 ≡ some 50
unfolding find
one_user = refl

ga2m_user_gateserver_offline_lem_example :
    let s : Master = record { server_manager = both; user_manager = somebody } in
    let m = (ga2m_user_gateserver_offline s (packet_of (typed ulong_long 42 ∷ []))).user_manager in
    (find_user m 42 ≡ none)
    × (m.user_pool ≡ 51 ∷ 50 ∷ [])
    × (find_user m 43 ≡ find_user somebody 43)
ga2m_user_gateserver_offline_lem_example =
    ga2m_user_gateserver_offline_lem (record { server_manager = both; user_manager = somebody })
      (packet_of (typed ulong_long 42 ∷ [])) 42 50 43
      (packet_of-IsReady (typed ulong_long 42 ∷ []) (omega arith)) (omega arith) one_user
      (omega arith) (omega arith)

-- A lobby server registers; the gate server is told.
abbrev lobby_id : ServerId
lobby_id = record { server_type = 4; area_id = 1; group_id = 1; server_id = 1 }

lobby_number : set_server_id 1125904201875457 ≡ (true, lobby_id)
unfolding set_server_id
lobby_number = refl

broad_cast_server_to_servers-waiting_for_example :
    occurrences 101 (broad_cast_server_to_servers both 1125904201875457)
    ≡ occurrences 101 (waiting_for both.objects 4 both.servers)
broad_cast_server_to_servers-waiting_for_example =
    broad_cast_server_to_servers-waiting_for both 1125904201875457 101 lobby_id (omega arith)
      lobby_number

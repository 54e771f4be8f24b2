-- ===== src/Master/Tests.antt =====
-- Runs of the servers on small inputs, and the theorems at them.
use linuxgameserver.Common.{◌≡◌, refl, true, false, none, some, [], ◌∷◌, arith}
use linuxgameserver.Common.Maps.{find, assign}
use linuxgameserver.Gate.{SessionAccepted}
use linuxgameserver.Master.{
  ServerId, get_server_unique_id, set_server_id, ServerManager, new_up, set, add_new_up_server,
  add_server, find_server, find_server_by_id, find_server_by_session_id,
  remove_server_by_net_work_session_id,
}
use linuxgameserver.Master.UniqueId.{set_server_id-get_server_unique_id}
use linuxgameserver.Master.Keeps.{IsAccounted, add_new_up_server-IsAccounted}
use linuxgameserver.Master.Reach.{
  MasterSteps, stop, next, registers, disconnects, master_steps-IsAccounted, find_server-add_server,
}

abbrev gate_id : ServerId
gate_id = record { server_type = 3; area_id = 1; group_id = 2; server_id = 5 }

abbrev accepted : SessionAccepted
accepted = record { ip = 49 ∷ []; port = 80; recv_thread_id = 0; send_thread_id = 1 }

abbrev bare : ServerManager
bare = record {
  servers = [];
  session_to_servers = [];
  new_up_servers = [];
  objects = λ _. new_up 0 accepted;
  live = λ _. false;
}

bare-IsAccounted : IsAccounted bare
unfolding find
bare-IsAccounted = record {
  server_id = λ i p e. ground arith;
  server_session = λ i p e. ground arith;
  session_id = λ i p e. ground arith;
  session_server = λ i p e. ground arith;
  new_session = λ i p e. ground arith;
  session_state = λ i p e. ground arith;
  new_state = λ i p e. ground arith;
  session_live = λ i p e. ground arith;
  new_live = λ i p e. ground arith;
  counted = λ p e. ground arith;
}

set_server_id-get_server_unique_id_example :
    set_server_id (get_server_unique_id gate_id) ≡ (true, gate_id)
set_server_id-get_server_unique_id_example =
    set_server_id-get_server_unique_id gate_id
      (record {
        type_lt = omega arith;
        area_lt = omega arith;
        group_lt = omega arith;
        server_lt = omega arith;
      })
      refl

-- A server has connected in session 7.
abbrev one : ServerManager
one = record bare {
  new_up_servers = record { key = 7; value = 100 } ∷ [];
  objects = set bare.objects 100 (new_up 7 accepted);
  live = set bare.live 100 true;
}

one_new : find one.new_up_servers 7 ≡ some 100
unfolding find
one_new = refl

none_new : find bare.new_up_servers 7 ≡ none
unfolding find
none_new = refl

no_session : find one.session_to_servers 7 ≡ none
unfolding find
no_session = refl

no_server : find_server_by_id one gate_id ≡ none
unfolding find
no_server = refl

one-IsAccounted : IsAccounted one
unfolding add_new_up_server assign
one-IsAccounted = add_new_up_server-IsAccounted bare 100 7 accepted bare-IsAccounted refl none_new

one_steps :
    MasterSteps one (remove_server_by_net_work_session_id (add_server one 101 7 gate_id).1 7)
one_steps =
    next _ (registers one 101 7 gate_id refl)
      (next _ (disconnects (add_server one 101 7 gate_id).1 7) (stop _))

master_steps-IsAccounted_example :
    IsAccounted (remove_server_by_net_work_session_id (add_server one 101 7 gate_id).1 7)
master_steps-IsAccounted_example = master_steps-IsAccounted one_steps one-IsAccounted

find_server-add_server_example :
    let (ok, n) = add_server one 101 7 gate_id in
    (ok ≡ true)
    × (find_server_by_id n gate_id ≡ some 101)
    × (find_server_by_session_id n 7 ≡ some 101)
    × (find n.new_up_servers 7 ≡ none)
    × (find_server n 9 ≡ find_server one 9)
unfolding get_server_unique_id
find_server-add_server_example =
    find_server-add_server one 101 100 7 gate_id 9 one_new refl no_server no_session (omega arith)

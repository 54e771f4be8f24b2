-- ===== src/Gate/Tests.antt =====
-- Runs of the gate server on small inputs, and its theorems at them.
use linuxgameserver.Common.{
  ℕ, ◌+◌, ◌%◌, ◌≤◌, ◌≡◌, refl, true, none, some, List, [], ◌∷◌, drop, length, if◌then◌else◌, ◌==◌,
  arith,
}
use linuxgameserver.Common.Maps.{find}
use linuxgameserver.Packet.{zeros}
use linuxgameserver.Packet.Typed.{int, ulong_long, long_long, ushort}
use linuxgameserver.Gate.{
  unknown, logined, login_waiting_master_confirm, Client, SessionAccepted, ClientManager,
  initialized_client, add_new_up_client, check_client_info, remove_client_by_session_id, key_len,
}
use linuxgameserver.Gate.Expected.{add_will_connect_client_info}
use linuxgameserver.Gate.Tick.{
  over, users, is_in, process_time_out_will_connect, process_time_out_will_connect_lem,
}
use linuxgameserver.Gate.Handlers.{
  GateServer, Value, typed, block, to_master, ga2m_user_gateserver_online, ga2m_user_will_login,
  c2ga_user_loginkey, on_add_session, padded, text,
}
use linuxgameserver.Gate.Master.{will_login_result, m2ga_user_will_login}
use linuxgameserver.Gate.Sound.{IsSound}
use linuxgameserver.Gate.Pool.{Sound-empty}
use linuxgameserver.Gate.Reach.{Steps, stop, next, connects, ticks, gate_steps-IsSound}
use linuxgameserver.Gate.Reads.{packet_of, packet_of-IsReady}
use linuxgameserver.Gate.Login.{
  IsUnknown, expectation, CheckedFirst, check_client_info-add_will_connect,
}
use linuxgameserver.Gate.Keyless.{m2ga_user_will_login_keyless}
use linuxgameserver.Gate.Enter.{Announced, c2ga_user_loginkey-m2ga_user_will_login}
use linuxgameserver.Gate.Stale.{add_new_up_client-remove_client}
use linuxgameserver.SessionManager.Life.{occurrences}

abbrev blank : Client
blank = record {
  unique_id_in_db = 0;
  user_id = [];
  client_state = unknown;
  current_server_unique_id = 0;
  session_id = 0;
  send_thread_id = 0;
  recv_thread_id = 0;
  ip = [];
  port = 0;
}

abbrev accepted : SessionAccepted
accepted = record { ip = 49 ∷ []; port = 80; recv_thread_id = 3; send_thread_id = 4 }

-- No client is connected, and one stands in the pool.
abbrev idle : ClientManager
idle = record {
  session_to_client = [];
  unique_id_to_client = [];
  client_pool = 100 ∷ [];
  will_connect_infos = [];
  time_out_queue = [];
  login_key_will_connect = 0;
  clients = λ _. blank;
}

abbrev gate : ClientManager → GateServer
gate m = record {
  manager = m;
  servers = [];
  kick_outs = [];
  listen_ip = 49 ∷ [];
  listen_port = 4000;
}

-- A client is connected in session 7.
abbrev one : ClientManager
one = record idle {
  session_to_client = record { key = 7; value = 100 } ∷ [];
  client_pool = [];
  clients =
      λ p. if p == 100 then record blank { client_state = logined; session_id = 7 } else blank;
}

abbrev waiting : ClientManager
waiting = record idle {
  time_out_queue =
      record { unique_id = 42; move_time = 5 } ∷ record { unique_id = 43; move_time = 50 } ∷ [];
  will_connect_infos =
      record { key = 42; value = record { login_key = 49 ∷ []; user_id = [] } } ∷ [];
}

idle-IsSound : IsSound idle
unfolding occurrences
idle-IsSound = Sound-empty refl refl (λ p. ground arith)

-- Of two users in the queue the time of the first is over.
process_time_out_will_connect_lem_example :
    let gone = over 20 100 waiting.time_out_queue in
    let (told, m) = process_time_out_will_connect waiting 20 in
    (told ≡ users gone)
    × (length told ≤ 100)
    × (m.time_out_queue ≡ drop (length gone) waiting.time_out_queue)
    × ((u : ℕ)
        → find m.will_connect_infos u
          ≡ (if is_in u told then none else find waiting.will_connect_infos u))
process_time_out_will_connect_lem_example = process_time_out_will_connect_lem waiting 20

abbrev print : ℕ → List ℕ
print n = (48 + n % 10) ∷ []

abbrev up : GateServer
unfolding on_add_session add_new_up_client
up = (on_add_session (gate idle) 7 accepted).1

up-Steps :
    Steps print (gate idle) (record up { manager = (process_time_out_will_connect up.manager 9).1 })
unfolding up on_add_session
up-Steps = next _ (connects (gate idle) 7 accepted) (next _ (ticks up 9) (stop _))

gate_steps-IsSound_example : IsSound (process_time_out_will_connect up.manager 9).1
gate_steps-IsSound_example = gate_steps-IsSound up-Steps idle-IsSound

one_session : find one.session_to_client 7 ≡ some 100
unfolding find
one_session = refl

one-IsUnknown : IsUnknown one 42
unfolding find
one-IsUnknown = record { not_connected = refl; not_expected = refl }

check_client_info-add_will_connect_example :
    CheckedFirst one 42 100 (expectation (49 ∷ []) (65 ∷ [])) true (
      check_client_info
        (add_will_connect_client_info one 10 42 (some (49 ∷ [])) (some (65 ∷ []))).1
        7
        42
        (49 ∷ []))
check_client_info-add_will_connect_example =
    check_client_info-add_will_connect one 7 42 100 10 (49 ∷ []) (65 ∷ []) one_session one-IsUnknown
      (49 ∷ [])

other_session : find one.session_to_client 8 ≡ none
unfolding find
other_session = refl

add_new_up_client-remove_client_example :
    let (ok, n) = add_new_up_client (remove_client_by_session_id one 7) 8 accepted in
    (ok ≡ true)
    × (find n.session_to_client 7 ≡ some 100)
    × (find n.session_to_client 8 ≡ some 100)
    × ((n.clients 100).session_id ≡ 8)
add_new_up_client-remove_client_example =
    add_new_up_client-remove_client one 7 8 100 accepted one_session other_session (omega arith)
      refl

abbrev name : List ℕ
name = padded 16 (65 ∷ 66 ∷ [])

abbrev announcement : List Value
announcement = typed ulong_long 1 ∷ typed ulong_long 2 ∷ block name ∷ typed ulong_long 42 ∷ []

abbrev login : List Value
login = typed ulong_long 42 ∷ block (padded key_len (print 1)) ∷ []

announced : Announced print (gate one) 42 (packet_of login)
unfolding zeros
announced = record {
  ready = packet_of-IsReady login (omega arith);
  is_text = (omega arith, tt);
  fits = omega arith;
}

c2ga_user_loginkey-m2ga_user_will_login_example :
    let (answer, g1) = m2ga_user_will_login print 192 (gate one) 10 (packet_of announcement) in
    let (sent, g2) = c2ga_user_loginkey g1 7 (packet_of login) in
    (answer
      ≡ will_login_result 192 0 1 2 name 42
          (block (padded 128 (49 ∷ [])) ∷ block (padded 16 (49 ∷ [])) ∷ typed ushort 4000 ∷ [])
        ∷ [])
    × (sent
        ≡ to_master 128 ga2m_user_gateserver_online (typed ulong_long 7 ∷ typed long_long 42 ∷ [])
          ∷ [])
    × (find g2.manager.unique_id_to_client 42 ≡ some 100)
    × (g2.manager.clients 100
        ≡ record (initialized_client 42 (expectation (49 ∷ []) (text name)) (one.clients 100)) {
          client_state = login_waiting_master_confirm;
        })
    × (find g2.manager.will_connect_infos 42 ≡ none)
unfolding zeros
c2ga_user_loginkey-m2ga_user_will_login_example =
    c2ga_user_loginkey-m2ga_user_will_login print 192 (gate one) 10 7 100 1 2 42 name
      (packet_of announcement) (packet_of login) (packet_of-IsReady announcement (omega arith))
      (omega arith) (omega arith) (omega arith) refl one-IsUnknown one_session announced

m2ga_user_will_login_keyless_example :
    let (answer, g1) = m2ga_user_will_login print 128 (gate one) 10 (packet_of announcement) in
    (answer
      ≡ to_master 120 ga2m_user_will_login (
          typed int 0
          ∷ typed ulong_long 1
          ∷ typed ulong_long 2
          ∷ block name
          ∷ typed ulong_long 42
          ∷ block (padded 16 (49 ∷ []))
          ∷ typed ushort 4000
          ∷ [])
        ∷ [])
    × (find g1.manager.will_connect_infos 42 ≡ some (expectation (49 ∷ []) (text name)))
unfolding zeros
m2ga_user_will_login_keyless_example =
    m2ga_user_will_login_keyless print 128 (gate one) 10 1 2 42 name (packet_of announcement)
      (packet_of-IsReady announcement (omega arith)) (omega arith) (omega arith) (omega arith) refl
      one-IsUnknown (omega arith) (omega arith)

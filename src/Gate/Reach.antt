-- ===== src/Gate/Reach.antt =====
-- The gate server as steps: its handlers, the end of the time of expected users and the removals of
-- clients, in any order.
use linuxgameserver.Common.{ℕ, List}
use linuxgameserver.Packet.{PacketBase}
use linuxgameserver.Gate.{
  SessionAccepted, remove_client_by_session_id, remove_client_by_user_unique_id_in_db,
}
use linuxgameserver.Gate.Tick.{process_time_out_will_connect}
use linuxgameserver.Gate.Handlers.{GateServer, on_add_session, c2ga_user_loginkey}
use linuxgameserver.Gate.Lobby.{c2ga_enter_lobbyserver, m2ga_select_lobbyserver, lb2ga_user_online}
use linuxgameserver.Gate.Master.{m2ga_user_will_login, m2ga_user_gateserver_online}
use linuxgameserver.Gate.Sound.{IsSound}
use linuxgameserver.Gate.Keeps.{remove_by_user-IsSound, remove_by_session-IsSound}
use linuxgameserver.Gate.Handled.{
  IsNew, enter_lobby-IsSound, online-IsSound, lobby_answer-IsSound, select_lobby-IsSound,
  will_login-IsSound, login-IsSound, connect-IsSound, time_out-IsSound,
}

-- The code does not test that a login comes from a new client, and has no step that removes one that
-- is not new by its session.
pub data Step (print : ℕ → List ℕ) : GateServer → GateServer → Type 0 where
  connects :
      (g : GateServer) (sid : ℕ) (tas : SessionAccepted) → Step print g (on_add_session g sid tas).1
  logs_in :
      (g : GateServer) (sid : ℕ) (packet : PacketBase)
      → IsNew g.manager sid
      → Step print g (c2ga_user_loginkey g sid packet).1
  enters_lobby : (g : GateServer) (sid : ℕ) → Step print g (c2ga_enter_lobbyserver g sid).1
  lobby_selected :
      (g : GateServer) (now : ℕ) (packet : PacketBase)
      → Step print g (m2ga_select_lobbyserver g now packet).1
  lobby_answers :
      (g : GateServer) (now : ℕ) (packet : PacketBase)
      → Step print g (lb2ga_user_online g now packet).1
  expects :
      (len : ℕ) (g : GateServer) (now : ℕ) (packet : PacketBase)
      → Step print g (m2ga_user_will_login print len g now packet).1
  confirms :
      (g : GateServer) (now : ℕ) (packet : PacketBase)
      → Step print g (m2ga_user_gateserver_online g now packet).1
  ticks :
      (g : GateServer) (now : ℕ)
      → Step print g (record g { manager = (process_time_out_will_connect g.manager now).1 })
  removes_user :
      (g : GateServer) (uid : ℕ)
      → Step print g (record g { manager = remove_client_by_user_unique_id_in_db g.manager uid })
  removes_session :
      (g : GateServer) (sid : ℕ)
      → IsNew g.manager sid
      → Step print g (record g { manager = remove_client_by_session_id g.manager sid })

pub data Steps (print : ℕ → List ℕ) : GateServer → GateServer → Type 0 where
  stop : (g : GateServer) → Steps print g g
  next : {g h : GateServer} (k : GateServer) → Step print g h → Steps print h k → Steps print g k

Step-IsSound :
    {print : ℕ → List ℕ} {g k : GateServer} → Step print g k → IsSound g.manager → IsSound k.manager
Step-IsSound (connects g sid tas) h = connect-IsSound g sid tas h
Step-IsSound (logs_in g sid packet new) h = login-IsSound g sid packet h new
Step-IsSound (enters_lobby g sid) h = enter_lobby-IsSound g sid h
Step-IsSound (lobby_selected g now packet) h = select_lobby-IsSound g now packet h
Step-IsSound (lobby_answers g now packet) h = lobby_answer-IsSound g now packet h
Step-IsSound {print = print} (expects len g now packet) h =
    will_login-IsSound print len g now packet h
Step-IsSound (confirms g now packet) h = online-IsSound g now packet h
Step-IsSound (ticks g now) h = time_out-IsSound g.manager now h
Step-IsSound (removes_user g uid) h = remove_by_user-IsSound g.manager uid h
Step-IsSound (removes_session g sid new) h = remove_by_session-IsSound g.manager sid h new

-- Whatever the order of the steps: a client that stands under a session or a user carries its id, so
-- that none stands under two; a user's client stands under its session and is initialized; no client
-- is twice in the pool, and none of the pool stands under a session. A login is taken to come from a
-- session without an initialized client, and a removal by session to be of such a session too.
pub gate_steps-IsSound :
    {print : ℕ → List ℕ} {g k : GateServer}
    → Steps print g k
    → IsSound g.manager
    → IsSound k.manager
gate_steps-IsSound (stop g) h = h
gate_steps-IsSound (next k s ss) h = gate_steps-IsSound ss (Step-IsSound s h)

-- ===== src/Gate/Handled.antt =====
-- GateServer/LGateServerPacketProcess_*.cpp: each handler keeps the indices of the clients sound.
use linuxgameserver.Common.{
  ℕ, ◌≤◌, ◌<◌, ◌≡◌, some, List, ◌==◌, inl, inr, Bool-cases, Option-cases, arith,
}
use linuxgameserver.Common.Maps.{find}
use linuxgameserver.Packet.{PacketBase}
use linuxgameserver.Packet.Typed.{get_ulong_long, get_int}
use linuxgameserver.Gate.{
  ClientState, initialized, logined, request_lobby, loginning_lobby, in_lobby, rank,
  SessionAccepted, ClientManager, login_waiting_master_confirm, check_client_info, max_user_id_len,
}
use linuxgameserver.Gate.Expected.{build_login_key, add_will_connect_client_info}
use linuxgameserver.Gate.Tick.{process_time_out_will_connect}
use linuxgameserver.Gate.Handlers.{
  GateServer, on_add_session, c2ga_user_loginkey, set_client_state, get_array, has_error, text,
}
use linuxgameserver.Gate.Lobby.{c2ga_enter_lobbyserver, m2ga_select_lobbyserver, lb2ga_user_online}
use linuxgameserver.Gate.Master.{m2ga_user_will_login, m2ga_user_gateserver_online}
use linuxgameserver.Gate.Sound.{IsSound}
use linuxgameserver.Gate.Keeps.{
  IsSound-eq, add_new_up_client-IsSound, check_client_info-IsSound, set_client_state-IsSound,
  add_will_connect-IsSound,
}

-- The client of a session, where there is one, is not initialized yet.
abbrev pub IsNew : ClientManager → ℕ → Type 0
IsNew m sid =
    (p : ℕ)
    → find m.session_to_client sid ≡ some p
    → rank (m.clients p).client_state < rank initialized

pub enter_lobby-IsSound :
    (g : GateServer) (sid : ℕ)
    → IsSound g.manager
    → IsSound (c2ga_enter_lobbyserver g sid).1.manager
unfolding c2ga_enter_lobbyserver
enter_lobby-IsSound g sid h = elim (Option-cases (find g.manager.session_to_client sid)) [
  | inl e ↦ IsSound-eq (c2ga_enter_lobbyserver g sid).1.manager g.manager h (ground arith)
  | inr (p, e) ↦ elim (Bool-cases (rank (g.manager.clients p).client_state == rank logined)) [
    | inl k ↦
        IsSound-eq (c2ga_enter_lobbyserver g sid).1.manager
          (set_client_state g.manager p request_lobby)
          (set_client_state-IsSound g.manager p request_lobby h (omega arith)) (ground arith)
    | inr k ↦ IsSound-eq (c2ga_enter_lobbyserver g sid).1.manager g.manager h (ground arith)
  ]
]

IsSound-moved :
    (n m : ClientManager) (p : ℕ) (st : ClientState)
    → IsSound m
    → rank initialized ≤ rank st
    → n ≡ set_client_state m p st
    → IsSound n
IsSound-moved n m p st h k e =
    IsSound-eq n (set_client_state m p st) (set_client_state-IsSound m p st h k) e

pub online-IsSound :
    (g : GateServer) (now : ℕ) (packet : PacketBase)
    → IsSound g.manager
    → IsSound (m2ga_user_gateserver_online g now packet).1.manager
unfolding m2ga_user_gateserver_online
online-IsSound g now packet h =
    let out = (m2ga_user_gateserver_online g now packet).1.manager in
    let (result, p1) = get_int packet 0 in
    let (uid, p2) = get_ulong_long p1 0 in
    let (sid, p3) = get_ulong_long p2 0 in
    elim (Option-cases (find g.manager.session_to_client sid)) [
      | inl e ↦ IsSound-eq out g.manager h (ground arith)
      | inr (p, e) ↦ elim (Bool-cases (result == 0)) [
        | inl k ↦ IsSound-moved out g.manager p logined h (omega arith) (ground arith)
        | inr k ↦ IsSound-eq out g.manager h (ground arith)
      ]
    ]

pub lobby_answer-IsSound :
    (g : GateServer) (now : ℕ) (packet : PacketBase)
    → IsSound g.manager
    → IsSound (lb2ga_user_online g now packet).1.manager
unfolding lb2ga_user_online
lobby_answer-IsSound g now packet h =
    let out = (lb2ga_user_online g now packet).1.manager in
    let (result, p1) = get_int packet 0 in
    let (sid, p2) = get_ulong_long p1 0 in
    let (uid, p3) = get_ulong_long p2 0 in
    elim (Bool-cases (has_error p3)) [
      | inl b ↦ IsSound-eq out g.manager h (ground arith)
      | inr b ↦ elim (Option-cases (find g.manager.session_to_client sid)) [
        | inl e ↦ IsSound-eq out g.manager h (ground arith)
        | inr (p, e) ↦ elim (Bool-cases (result == 0)) [
          | inl k ↦ IsSound-moved out g.manager p in_lobby h (omega arith) (ground arith)
          | inr k ↦ IsSound-eq out g.manager h (ground arith)
        ]
      ]
    ]

pub select_lobby-IsSound :
    (g : GateServer) (now : ℕ) (packet : PacketBase)
    → IsSound g.manager
    → IsSound (m2ga_select_lobbyserver g now packet).1.manager
unfolding m2ga_select_lobbyserver
select_lobby-IsSound g now packet h =
    let out = (m2ga_select_lobbyserver g now packet).1.manager in
    let (result, p1) = get_int packet 0 in
    let (sid, p2) = get_ulong_long p1 0 in
    let (uid, p3) = get_ulong_long p2 0 in
    let (lobby, p4) = get_ulong_long p3 0 in
    elim (Bool-cases (has_error p4)) [
      | inl b ↦ IsSound-eq out g.manager h (ground arith)
      | inr b ↦ elim (Option-cases (find g.manager.unique_id_to_client uid)) [
        | inl e ↦ IsSound-eq out g.manager h (ground arith)
        | inr (p, e) ↦ elim (Bool-cases (result == 0)) [
          | inr k ↦ IsSound-eq out g.manager h (ground arith)
          | inl k ↦ elim (Option-cases (find g.servers lobby)) [
            | inl f ↦ IsSound-eq out g.manager h (ground arith)
            | inr (s, f) ↦
                IsSound-moved out g.manager p loginning_lobby h (omega arith) (ground arith)
          ]
        ]
      ]
    ]

pub will_login-IsSound :
    (print : ℕ → List ℕ) (len : ℕ) (g : GateServer) (now : ℕ) (packet : PacketBase)
    → IsSound g.manager
    → IsSound (m2ga_user_will_login print len g now packet).1.manager
unfolding m2ga_user_will_login build_login_key
will_login-IsSound print len g now packet h =
    let out = (m2ga_user_will_login print len g now packet).1.manager in
    let (login_session, p1) = get_ulong_long packet 0 in
    let (login_server, p2) = get_ulong_long p1 0 in
    let (user, p3) = get_array p2 max_user_id_len in
    let (uid, p4) = get_ulong_long p3 0 in
    elim (Bool-cases (has_error p4)) [
      | inl b ↦ IsSound-eq out g.manager h (ground arith)
      | inr b ↦ elim (Option-cases (find g.manager.unique_id_to_client uid)) [
        | inr (p, e) ↦ IsSound-eq out g.manager h (ground arith)
        | inl e ↦
            let (key, m1) = build_login_key print g.manager in
            IsSound-eq out (add_will_connect_client_info m1 now uid (some key) (some (text user))).1
              (add_will_connect-IsSound m1 now uid key (text user) h) (ground arith)
      ]
    ]

pub login-IsSound :
    (g : GateServer) (sid : ℕ) (packet : PacketBase)
    → IsSound g.manager
    → IsNew g.manager sid
    → IsSound (c2ga_user_loginkey g sid packet).1.manager
unfolding c2ga_user_loginkey
login-IsSound g sid packet h new =
    let out = (c2ga_user_loginkey g sid packet).1.manager in
    let (uid, p1) = get_ulong_long packet 0 in
    let (key, p2) = get_array p1 128 in
    let m = (check_client_info g.manager sid uid (text key)).1 in
    let s = check_client_info-IsSound g.manager sid uid (text key) h new in
    elim (Bool-cases (has_error p2)) [
      | inl b ↦ IsSound-eq out g.manager h (ground arith)
      | inr b ↦ elim (Option-cases (find g.manager.session_to_client sid)) [
        | inl e ↦ IsSound-eq out g.manager h (ground arith)
        | inr (p, e) ↦ elim (Bool-cases (check_client_info g.manager sid uid (text key)).0) [
          | inl k ↦
              IsSound-moved out m p login_waiting_master_confirm s (omega arith) (ground arith)
          | inr k ↦ IsSound-eq out m s (ground arith)
        ]
      ]
    ]

pub connect-IsSound :
    (g : GateServer) (sid : ℕ) (tas : SessionAccepted)
    → IsSound g.manager
    → IsSound (on_add_session g sid tas).1.manager
unfolding on_add_session
connect-IsSound g sid tas h = add_new_up_client-IsSound g.manager sid tas h

pub time_out-IsSound :
    (m : ClientManager) (now : ℕ) → IsSound m → IsSound (process_time_out_will_connect m now).1
unfolding process_time_out_will_connect
time_out-IsSound m now h = h

-- ===== src/Gate/Lobby.antt =====
-- GateServer/LGateServerPacketProcess_Client_Lobby.cpp: the handlers on the way into a lobby.
use linuxgameserver.Common.{ℕ, none, some, List, [], ◌∷◌, if◌then◌else◌, ◌==◌}
use linuxgameserver.Packet.{PacketBase}
use linuxgameserver.Packet.Typed.{int, ulong_long, get_int, get_ulong_long}
use linuxgameserver.Gate.{
  logined, request_lobby, loginning_lobby, in_lobby, rank, Client, find_client_by_session_id,
  find_client_by_user_unique_id_in_db, max_user_id_len,
}
use linuxgameserver.Gate.Handlers.{
  Server, GateServer, ga2m_select_lobbyserver, ga2c_enter_lobbyserver, ga2lb_user_online, typed,
  block, Effect, to_master, to_client, to_server, padded, has_error, set_client_state,
  find_server_by_server_id, add_session_id_to_kick_out_queue,
}

unfoldable pub c2ga_enter_lobbyserver : GateServer → ℕ → List Effect × GateServer
c2ga_enter_lobbyserver g sid = elim (find_client_by_session_id g.manager sid) [
  | none ↦ ([], g)
  | some p ↦
      if rank (g.manager.clients p).client_state == rank logined
      then (
        to_master 32 ga2m_select_lobbyserver
              (typed ulong_long sid ∷ typed ulong_long (g.manager.clients p).unique_id_in_db ∷ [])
            ∷ [],
        record g { manager = set_client_state g.manager p request_lobby },
      )
      else ([], g)
]

-- The answer to a client about the lobby in a packet of `len` bytes.
abbrev pub enter_result : Client → ℕ → ℕ → Effect
enter_result c len result =
    to_client c.session_id c.send_thread_id len ga2c_enter_lobbyserver (typed int result ∷ [])

abbrev pub user_online : Client → Server → Effect
user_online c server = to_server server.session_id server.send_thread_id 64 ga2lb_user_online (
    typed ulong_long c.session_id
    ∷ typed ulong_long c.unique_id_in_db
    ∷ block (padded max_user_id_len c.user_id)
    ∷ [])

-- Where the lobby server is not known the client is told the result of the master server.
unfoldable pub m2ga_select_lobbyserver : GateServer → ℕ → PacketBase → List Effect × GateServer
m2ga_select_lobbyserver g now packet =
    let (result, p1) = get_int packet 0 in
    let (sid, p2) = get_ulong_long p1 0 in
    let (uid, p3) = get_ulong_long p2 0 in
    let (lobby, p4) = get_ulong_long p3 0 in
    if has_error p4 then ([], g) else (elim (find_client_by_user_unique_id_in_db g.manager uid) [
      | none ↦ ([], g)
      | some p ↦
          (let c = g.manager.clients p in
            if result == 0
            then (elim (find_server_by_server_id g lobby) [
              | none ↦ (
                enter_result c 32 result ∷ [],
                add_session_id_to_kick_out_queue g now c.session_id 3,
              )
              | some server ↦ (
                user_online c server ∷ [],
                record g { manager = set_client_state g.manager p loginning_lobby },
              )
            ])
            else (
              enter_result c 32 result ∷ [],
              add_session_id_to_kick_out_queue g now c.session_id 3,
            ))
    ])

unfoldable pub lb2ga_user_online : GateServer → ℕ → PacketBase → List Effect × GateServer
lb2ga_user_online g now packet =
    let (result, p1) = get_int packet 0 in
    let (sid, p2) = get_ulong_long p1 0 in
    let (uid, p3) = get_ulong_long p2 0 in
    if has_error p3 then ([], g) else (elim (find_client_by_session_id g.manager sid) [
      | none ↦ ([], g)
      | some p ↦
          (let c = g.manager.clients p in
            if result == 0
            then (
              enter_result c 16 result ∷ [],
              record g { manager = set_client_state g.manager p in_lobby },
            )
            else (
              enter_result c 16 result ∷ [],
              add_session_id_to_kick_out_queue g now c.session_id 5,
            ))
    ])

unfoldable pub c2ga_get_role_info : GateServer → ℕ → List Effect
c2ga_get_role_info g sid = elim (find_client_by_session_id g.manager sid) [
  | none ↦ []
  | some p ↦
      (let c = g.manager.clients p in
        if rank c.client_state == rank in_lobby
        then (elim (find_server_by_server_id g c.current_server_unique_id) [
          | none ↦ []
          | some server ↦ user_online c server ∷ []
        ])
        else [])
]

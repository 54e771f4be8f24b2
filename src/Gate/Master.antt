-- ===== src/Gate/Master.antt =====
-- GateServer/LGateServerPacketProcess_FromMasterServer.cpp: the handlers of the packets about users
-- that the master server sends.
use linuxgameserver.Common.{ℕ, none, some, List, [], ◌∷◌, if◌then◌else◌, ◌==◌}
use linuxgameserver.Packet.{PacketBase}
use linuxgameserver.Packet.Typed.{int, ushort, ulong_long, get_int, get_ulong_long}
use linuxgameserver.Gate.{
  logined, find_client_by_session_id, find_client_by_user_unique_id_in_db, max_user_id_len, key_len,
}
use linuxgameserver.Gate.Expected.{add_will_connect_client_info, build_login_key}
use linuxgameserver.Gate.Handlers.{
  GateServer, ga2m_user_will_login, ga2c_user_login, Value, typed, block, Effect, to_master,
  to_client, values_with_room, text, padded, has_error, get_array, set_client_state,
  add_session_id_to_kick_out_queue,
}

-- The pattern of the result -1.
abbrev pub minus_one : ℕ
minus_one = 4294967295

-- The answer about a user that is to log in: the result, whom it is for, and what follows on success,
-- as far as the packet that is handed out for 120 bytes, with a buffer of `len`, has room for it behind
-- its length.
abbrev pub will_login_result :
    (len result login_session login_server : ℕ) (user : List ℕ) (uid : ℕ) → List Value → Effect
will_login_result len result login_session login_server user uid more =
    to_master 120 ga2m_user_will_login (
      values_with_room len 2 (
        typed int result
        ∷ typed ulong_long login_session
        ∷ typed ulong_long login_server
        ∷ block user
        ∷ typed ulong_long uid
        ∷ more))

-- `print` is `sprintf` with the format of an unsigned int. The buffer of the key is there, so that
-- `BuildLoginKey` returns true.
unfoldable pub m2ga_user_will_login :
    (print : ℕ → List ℕ) → (len : ℕ) → GateServer → ℕ → PacketBase → List Effect × GateServer
m2ga_user_will_login print len g now packet =
    let (login_session, p1) = get_ulong_long packet 0 in
    let (login_server, p2) = get_ulong_long p1 0 in
    let (user, p3) = get_array p2 max_user_id_len in
    let (uid, p4) = get_ulong_long p3 0 in
    if has_error p4 then ([], g) else (elim (find_client_by_user_unique_id_in_db g.manager uid) [
      | some _ ↦ (will_login_result len minus_one login_session login_server user uid [] ∷ [], g)
      | none ↦
          (let (key, m1) = build_login_key print g.manager in
            let (ok, m2) = add_will_connect_client_info m1 now uid (some key) (some (text user)) in
            if ok
            then (
              will_login_result len 0 login_session login_server user uid (
                    block (padded key_len key)
                    ∷ block (padded 16 g.listen_ip)
                    ∷ typed ushort g.listen_port
                    ∷ [])
                  ∷ [],
              record g { manager = m2 },
            )
            else (
              will_login_result len minus_one login_session login_server user uid [] ∷ [],
              record g { manager = m2 },
            ))
    ])

-- Neither the error code of the packet nor the state of the client is tested.
unfoldable pub m2ga_user_gateserver_online : GateServer → ℕ → PacketBase → List Effect × GateServer
m2ga_user_gateserver_online g now packet =
    let (result, p1) = get_int packet 0 in
    let (uid, p2) = get_ulong_long p1 0 in
    let (sid, p3) = get_ulong_long p2 0 in
    elim (find_client_by_session_id g.manager sid) [
      | none ↦ ([], g)
      | some p ↦
          (let c = g.manager.clients p in
            let answer =
              to_client c.session_id c.send_thread_id 32 ga2c_user_login (typed int result ∷ []) in
            if result == 0
            then (answer ∷ [], record g { manager = set_client_state g.manager p logined })
            else (answer ∷ [], add_session_id_to_kick_out_queue g now sid 2))
    ]

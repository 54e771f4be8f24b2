-- ===== src/Master/Handlers.antt =====
-- MasterServer/LMasterServerPacketProcess_LoginServer.cpp and _GateServer.cpp: the handlers of the
-- users' packets. Packets from a pool are taken to be there.
use linuxgameserver.Common.{ℕ, Option, none, some, List, [], ◌∷◌, if◌then◌else◌, leb, ◌==◌}
use linuxgameserver.Common.Maps.{Map}
use linuxgameserver.Packet.{PacketBase}
use linuxgameserver.Packet.Typed.{
  int, ushort, long_long, ulong_long, get_int, get_ushort, get_ulong_long,
}
use linuxgameserver.Gate.{max_user_id_len}
use linuxgameserver.Gate.Handlers.{Value, typed, block, text, has_error, get_array}
use linuxgameserver.Master.{ServerManager, MasterServer, find_server_by_session_id}
use linuxgameserver.Master.Users.{
  waiting_gate_server_reponse, waiting_gate_server_login, connectted_to_gate_server, state_rank,
  UserManager, find_user, remove_user, set_user_state, update_user_state,
  user_online_from_login_server, global_error_unknown,
}

pub record Master : Type 0 where
  pub server_manager : ServerManager
  pub user_manager : UserManager

pub data MasterPacketId : Type 0 where
  m2l_user_online_verify m2ga_user_will_login m2ga_user_gateserver_online : MasterPacketId

-- A packet of a length to the session of a server.
pub record Sent : Type 0 where
  pub to_session : ℕ
  pub to_thread : ℕ
  pub packet_len : ℕ
  pub packet_id : MasterPacketId
  pub values : List Value

abbrev pub send_to : MasterServer → ℕ → MasterPacketId → List Value → Sent
send_to o len id vs = record {
  to_session = o.session_id;
  to_thread = o.server_base_info.send_thread_id;
  packet_len = len;
  packet_id = id;
  values = vs;
}

-- The first gate server in the order of the ids; its session.
unfoldable pub first_gate : (ℕ → MasterServer) → Map ℕ → Option ℕ
first_gate objects [] = none
first_gate objects (e ∷ m) =
    let rest = first_gate objects m in
    if (objects e.value).id.server_type == 3 then some (objects e.value).session_id else rest

unfoldable pub select_best_gate_server : ServerManager → Option ℕ
select_best_gate_server m = first_gate m.objects m.servers

abbrev pub verify : MasterServer → ℕ → (result login_session : ℕ) → List ℕ → ℕ → List Value → Sent
verify o len result login_session user uid more =
    send_to o len m2l_user_online_verify
      (typed int result ∷ typed ulong_long login_session ∷ block user ∷ typed ulong_long uid ∷ more)

-- The error code of the packet is not tested.
unfoldable pub l2m_user_online : Master → ℕ → (fresh : Option ℕ) → PacketBase → List Sent × Master
l2m_user_online s sid fresh packet = elim (find_server_by_session_id s.server_manager sid) [
  | none ↦ ([], s)
  | some q ↦
      (let o = s.server_manager.objects q in
        let (login_session, p1) = get_ulong_long packet 0 in
        let (user, p2) = get_array p1 max_user_id_len in
        let (uid, p3) = get_ulong_long p2 0 in
        let (result, m1) = user_online_from_login_server s.user_manager fresh (text user) uid in
        let (ok, m2) = update_user_state m1 uid waiting_gate_server_reponse in
        let failed = verify o 128 global_error_unknown login_session user uid [] in
        if o.id.server_type == 2
        then (if result == 0
            then (elim (select_best_gate_server s.server_manager) [
              | none ↦ (failed ∷ [], record s { user_manager = m1 })
              | some gate_session ↦
                  if ok
                  then (elim (find_server_by_session_id s.server_manager gate_session) [
                    | none ↦ (failed ∷ [], record s { user_manager = m2 })
                    | some g ↦ (
                      send_to (s.server_manager.objects g) 128 m2ga_user_will_login (
                            typed ulong_long login_session
                            ∷ typed long_long o.session_id
                            ∷ block user
                            ∷ typed ulong_long uid
                            ∷ [])
                          ∷ [],
                      record s { user_manager = m2 },
                    )
                  ])
                  else (failed ∷ [], record s { user_manager = m2 })
            ])
            else (
              verify o 128 result login_session user uid [] ∷ [],
              record s { user_manager = m1 },
            ))
        else ([], s))
]

unfoldable pub l2m_user_offline : Master → ℕ → PacketBase → Master
l2m_user_offline s sid packet =
    let (user, p1) = get_array packet max_user_id_len in
    let (uid, p2) = get_ulong_long p1 0 in
    elim (find_server_by_session_id s.server_manager sid) [
      | none ↦ s
      | some q ↦ if has_error p2 then s else (elim (find_user s.user_manager uid) [
        | none ↦ s
        | some u ↦
            if leb (state_rank (s.user_manager.user_objects u).user_state)
              (state_rank waiting_gate_server_reponse)
            then record s { user_manager = remove_user s.user_manager uid }
            else s
      ])
    ]

-- The answer of a gate server to an announcement.
unfoldable pub ga2m_user_will_login : Master → PacketBase → List Sent × Master
ga2m_user_will_login s packet =
    let (result, p1) = get_int packet 0 in
    let (login_session, p2) = get_ulong_long p1 0 in
    let (login_server, p3) = get_ulong_long p2 0 in
    let (user, p4) = get_array p3 max_user_id_len in
    let (uid, p5) = get_ulong_long p4 0 in
    let (key, p6) = get_array p5 128 in
    let (ip, p7) = get_array p6 16 in
    let (port, p8) = get_ushort p7 0 in
    let removed = record s { user_manager = remove_user s.user_manager uid } in
    if has_error p5
    then ([], s)
    else (elim (find_server_by_session_id s.server_manager login_server) [
      | none ↦ ([], removed)
      | some q ↦ elim (find_user s.user_manager uid) [
        | none ↦ ([], s)
        | some u ↦
            (let o = s.server_manager.objects q in
              if result == 0
              then (if has_error p8
                  then (verify o 512 global_error_unknown login_session user uid [] ∷ [], removed)
                  else (
                    verify o 512 result login_session user uid
                          (block key ∷ block ip ∷ typed ushort port ∷ [])
                        ∷ [],
                    record s {
                      user_manager = set_user_state s.user_manager u waiting_gate_server_login;
                    },
                  ))
              else (verify o 512 result login_session user uid [] ∷ [], removed))
      ]
    ])

unfoldable pub ga2m_user_gateserver_offline : Master → PacketBase → Master
ga2m_user_gateserver_offline s packet =
    let (uid, p1) = get_ulong_long packet 0 in
    if has_error p1 then s else (elim (find_user s.user_manager uid) [
      | none ↦ s
      | some u ↦
          if leb (state_rank waiting_gate_server_reponse)
            (state_rank (s.user_manager.user_objects u).user_state)
          then record s { user_manager = remove_user s.user_manager uid }
          else s
    ])

abbrev pub online_answer : MasterServer → (result uid gate_session : ℕ) → Sent
online_answer o result uid gate_session =
    send_to o 32 m2ga_user_gateserver_online
      (typed int result ∷ typed ulong_long uid ∷ typed ulong_long gate_session ∷ [])

-- The state of the user is not tested.
unfoldable pub ga2m_user_gateserver_online : Master → ℕ → PacketBase → List Sent × Master
ga2m_user_gateserver_online s sid packet =
    let (gate_session, p1) = get_ulong_long packet 0 in
    let (uid, p2) = get_ulong_long p1 0 in
    elim (find_server_by_session_id s.server_manager sid) [
      | none ↦ ([], s)
      | some q ↦
          (let o = s.server_manager.objects q in
            if has_error p2 then ([], s) else (elim (find_user s.user_manager uid) [
              | none ↦ (online_answer o global_error_unknown uid gate_session ∷ [], s)
              | some u ↦ (
                online_answer o 0 uid gate_session ∷ [],
                record s {
                  user_manager = set_user_state s.user_manager u connectted_to_gate_server;
                },
              )
            ]))
    ]

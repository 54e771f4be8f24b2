-- ===== src/Master/Report.antt =====
-- What the reports of a login server and of a gate server about a user do at the master server.
use linuxgameserver.Common.{
  ℕ, ◌≤◌, ◌<◌, ◌≡◌, ◌≢◌, Option, none, some, List, [], ◌∷◌, ◌++◌, length, arith,
}
use linuxgameserver.Common.Maps.{find-assign, find-erase}
use linuxgameserver.Packet.{PacketBase}
use linuxgameserver.Packet.Bytes.{limit}
use linuxgameserver.Packet.Typed.{ulong_long, long_long}
use linuxgameserver.Gate.Handlers.{typed, block, text}
use linuxgameserver.Gate.Reads.{
  IsReady, has_error-IsReady, get_ulong_long-IsReady, get_array-IsReady,
}
use linuxgameserver.Gate.{max_user_id_len}
use linuxgameserver.Master.{find_server_by_session_id}
use linuxgameserver.Master.Users.{
  state_rank, created_user, free_one_user, remove_user, alloc_one_user, add_new_user_info,
  find_user, update_user_state, waiting_gate_server_reponse, user_online_from_login_server,
}
use linuxgameserver.Master.Handlers.{
  Master, l2m_user_online, send_to, m2ga_user_will_login, select_best_gate_server,
  ga2m_user_gateserver_offline,
}

-- A report of a gate server that a user is off line removes a user that it was asked to expect, one that
-- is connected by now included; every other user stays.
pub ga2m_user_gateserver_offline_lem :
    (s : Master) (packet : PacketBase) (uid p other : ℕ)
    → IsReady packet (typed ulong_long uid ∷ [])
    → uid < limit 8
    → find_user s.user_manager uid ≡ some p
    → state_rank waiting_gate_server_reponse ≤ state_rank (s.user_manager.user_objects p).user_state
    → other ≢ uid
    → let m = (ga2m_user_gateserver_offline s packet).user_manager in
      (find_user m uid ≡ none)
      × (m.user_pool ≡ s.user_manager.user_pool ++ (p ∷ []))
      × (find_user m other ≡ find_user s.user_manager other)
unfolding ga2m_user_gateserver_offline remove_user free_one_user
ga2m_user_gateserver_offline_lem s packet uid p other r h e w d =
    let (e1, r1) = get_ulong_long-IsReady packet uid [] r h in
    let clear = has_error-IsReady _ [] r1 in
    (
      ground (arith, find-erase s.user_manager.users uid uid),
      ground arith,
      ground (arith, find-erase s.user_manager.users uid other),
    )

-- A user that a login server reports under an id that is not 0 and not known is put on line with the
-- next object of the pool, waits for the gate server that is selected, and is announced to it.
pub l2m_user_online_lem :
    (s : Master) (sid q gate_session g login_session uid p : ℕ) (rest user : List ℕ)
    (fresh : Option ℕ) (packet : PacketBase)
    → IsReady packet (typed ulong_long login_session ∷ block user ∷ typed ulong_long uid ∷ [])
    → login_session < limit 8
    → uid < limit 8
    → 0 < uid
    → length user ≡ max_user_id_len
    → find_server_by_session_id s.server_manager sid ≡ some q
    → (s.server_manager.objects q).id.server_type ≡ 2
    → select_best_gate_server s.server_manager ≡ some gate_session
    → find_server_by_session_id s.server_manager gate_session ≡ some g
    → find_user s.user_manager uid ≡ none
    → s.user_manager.user_pool ≡ p ∷ rest
    → let (sent, n) = l2m_user_online s sid fresh packet in
      (sent
        ≡ send_to (s.server_manager.objects g) 128 m2ga_user_will_login (
            typed ulong_long login_session
            ∷ typed long_long (s.server_manager.objects q).session_id
            ∷ block user
            ∷ typed ulong_long uid
            ∷ [])
          ∷ [])
      × (find_user n.user_manager uid ≡ some p)
      × (n.user_manager.user_objects p
          ≡ record (created_user uid (text user)) { user_state = waiting_gate_server_reponse })
      × (n.user_manager.user_pool ≡ rest)
unfolding l2m_user_online user_online_from_login_server alloc_one_user add_new_user_info
    update_user_state
l2m_user_online_lem s sid q gate_session g login_session uid p rest user fresh packet r hs hu pos hl
      e t sel f u c =
    let (e1, r1) = get_ulong_long-IsReady packet login_session _ r hs in
    let (e2, r2) = get_array-IsReady _ user max_user_id_len _ r1 hl (omega arith) in
    let (e3, r3) = get_ulong_long-IsReady _ uid [] r2 hu in
    let kept = find-assign s.user_manager.users uid uid p in
    (ground arith, ground arith, ground arith, ground arith)

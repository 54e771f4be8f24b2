-- ===== src/Gate/Stale.antt =====
-- GateServer/LClientManager.cpp and the handler of a login: the two ways in which a client comes to
-- stand under two keys.
use linuxgameserver.Common.{ℕ, ◌≤◌, ◌≡◌, true, none, some, [], arith}
use linuxgameserver.Common.Maps.{find, find-assign}
use linuxgameserver.Gate.{
  initialized, rank, SessionAccepted, ClientManager, add_new_up_client, remove_client_by_session_id,
}

-- The removal by its session of a client that is initialized, with no other in the pool, leaves it
-- under the session; the next connection is given the same client, so that both sessions lead to it.
pub add_new_up_client-remove_client :
    (m : ClientManager) (sid sid' p : ℕ) (tas : SessionAccepted)
    → find m.session_to_client sid ≡ some p
    → find m.session_to_client sid' ≡ none
    → rank initialized ≤ rank (m.clients p).client_state
    → m.client_pool ≡ []
    → let (ok, n) = add_new_up_client (remove_client_by_session_id m sid) sid' tas in
      (ok ≡ true)
      × (find n.session_to_client sid ≡ some p)
      × (find n.session_to_client sid' ≡ some p)
      × ((n.clients p).session_id ≡ sid')
unfolding add_new_up_client remove_client_by_session_id
add_new_up_client-remove_client m sid sid' p tas e f h c = (
  ground arith,
  ground (arith, find-assign m.session_to_client sid' sid p),
  ground (arith, find-assign m.session_to_client sid' sid' p),
  ground arith,
)

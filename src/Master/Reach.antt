-- ===== src/Master/Reach.antt =====
-- The servers of the master server as steps, and what a registration does to them.
use linuxgameserver.Common.{ℕ, ◌≡◌, ◌≢◌, true, false, ◌&&◌, none, some, arith}
use linuxgameserver.Common.Maps.{find, find-assign, find-erase}
use linuxgameserver.Gate.{SessionAccepted}
use linuxgameserver.Master.{
  ServerId, get_server_unique_id, is_server_type, create_server, ServerManager, add_new_up_server,
  add_server, find_server, find_server_by_id, find_server_by_session_id,
  remove_server_by_net_work_session_id, remove_server,
}
use linuxgameserver.Master.Keeps.{
  IsAccounted, add_new_up_server-IsAccounted, add_server-IsAccounted, remove_by_session-IsAccounted,
  remove_server-IsAccounted,
}

-- `new` gives an address without an object; a connection comes with a session that no new server has.
pub data MasterStep : ServerManager → ServerManager → Type 0 where
  connects :
      (m : ServerManager) (p sid : ℕ) (tsa : SessionAccepted)
      → m.live p ≡ false
      → find m.new_up_servers sid ≡ none
      → MasterStep m (add_new_up_server m p sid tsa).1
  registers :
      (m : ServerManager) (p sid : ℕ) (i : ServerId)
      → m.live p ≡ false
      → MasterStep m (add_server m p sid i).1
  disconnects :
      (m : ServerManager) (sid : ℕ) → MasterStep m (remove_server_by_net_work_session_id m sid)
  removes : (m : ServerManager) (uid : ℕ) → MasterStep m (remove_server m uid)

pub data MasterSteps : ServerManager → ServerManager → Type 0 where
  stop : (m : ServerManager) → MasterSteps m m
  next :
      {m n : ServerManager} (o : ServerManager) → MasterStep m n → MasterSteps n o → MasterSteps m o

step-IsAccounted : {m n : ServerManager} → MasterStep m n → IsAccounted m → IsAccounted n
step-IsAccounted (connects m p sid tsa f e) h = add_new_up_server-IsAccounted m p sid tsa h f e
step-IsAccounted (registers m p sid i f) h = add_server-IsAccounted m p sid i h f
step-IsAccounted (disconnects m sid) h = remove_by_session-IsAccounted m sid h
step-IsAccounted (removes m uid) h = remove_server-IsAccounted m uid h

-- Whatever the order of the steps, each entry of the three maps leads to a live object that carries
-- the key, the registered servers are the same by id and by session, and every object that is made
-- stands in the maps until it is deleted: none is lost and none is used behind its deletion. A
-- connection is taken to come with a session that no new server has.
pub master_steps-IsAccounted :
    {m n : ServerManager} → MasterSteps m n → IsAccounted m → IsAccounted n
master_steps-IsAccounted (stop m) h = h
master_steps-IsAccounted (next o s ss) h = master_steps-IsAccounted ss (step-IsAccounted s h)

-- A server that has connected is registered under a valid id that no server has: it is then found by
-- the id and by the session, and no longer among the new ones; no other server is found otherwise
-- than before.
pub find_server-add_server :
    (m : ServerManager) (p q sid : ℕ) (i : ServerId) (uid : ℕ)
    → find m.new_up_servers sid ≡ some q
    → (is_server_type i.server_type && create_server i.server_type) ≡ true
    → find_server_by_id m i ≡ none
    → find m.session_to_servers sid ≡ none
    → uid ≢ get_server_unique_id i
    → let (ok, n) = add_server m p sid i in
      (ok ≡ true)
      × (find_server_by_id n i ≡ some p)
      × (find_server_by_session_id n sid ≡ some p)
      × (find n.new_up_servers sid ≡ none)
      × (find_server n uid ≡ find_server m uid)
unfolding add_server find_server_by_session_id
find_server-add_server m p q sid i uid e t f g d = (
  ground arith,
  ground (arith, find-assign m.servers (get_server_unique_id i) (get_server_unique_id i) p),
  ground (arith, find-assign m.session_to_servers sid sid p),
  ground (arith, find-erase m.new_up_servers sid sid),
  ground (arith, find-assign m.servers (get_server_unique_id i) uid p),
)

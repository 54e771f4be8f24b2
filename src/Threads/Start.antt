-- ===== src/Threads/Start.antt =====
-- The network services before the first connection.
use linuxgameserver.Common.{ℕ, ◌≤◌, ◌≡◌, ◌≢◌, refl, some, List, [], arith}
use linuxgameserver.Common.Maps.{find}
use linuxgameserver.CircleBuf.{FixLenCircleBuf}
use linuxgameserver.SessionManager.{MasterSessionManager, found, find_session}
use linuxgameserver.SessionManager.Alloc.{IsReady}
use linuxgameserver.SessionManager.Life.{occurrences}
use linuxgameserver.Threads.{RecvPacket, idle, waiting, no_thread, NetWorkServices}
use linuxgameserver.Threads.Sound.{IsSound, holds, untold, waits, pooled}

-- No session is bound or to be closed; the queues of sessions to stop have room for `room` entries each, that of
-- the close thread for `close_room`.
unfoldable pub start :
    MasterSessionManager → ℕ → ℕ → (ℕ → List ℕ) → FixLenCircleBuf RecvPacket → NetWorkServices
start m room close_room cs b = record {
  sessions = m;
  thread_ids = λ r p. no_thread;
  stops = λ r p. 0;
  close_sent = λ p. 0;
  counts = cs;
  capacity = λ r. room;
  will_close = λ r t. [];
  work = λ r t. idle;
  need_to_close = [];
  close_capacity = close_room;
  close_work = waiting;
  disconnects = b;
  received = b;
  failures = 0;
}

waits_none : (m : MasterSessionManager) (p : ℕ) → m.will_reuse ≡ [] → waits m p ≡ 0
unfolding waits find
waits_none m p e = ground arith

pub start-IsSound :
    (m : MasterSessionManager) (room close_room : ℕ) (cs : ℕ → List ℕ)
    (b : FixLenCircleBuf RecvPacket)
    → IsReady m
    → m.will_reuse ≡ []
    → ((p : ℕ) → occurrences p m.queue_dirty ≤ 1)
    → ((id p : ℕ) → find_session m id ≢ found (some p))
    → IsSound (start m room close_room cs b)
unfolding start pooled holds untold occurrences
start-IsSound m room close_room cs b h e once none = record {
  ready = h;
  known = λ id p k. absurd (none id p k);
  separate = λ p. omega (arith, once p, waits_none m p e);
  none_else = λ r t p k. refl;
  none_elsewhere = λ r t p k. refl;
  few = λ r t p k. refl;
  once = λ r p k. omega arith;
  told = λ r p k f l. absurd (omega (arith, waits_none m p e));
  in_use = λ r p k. refl;
  seen = λ r t p k. absurd (ground arith);
  last = λ p k l. absurd (omega (arith, waits_none m p e));
  closing = tt;
}

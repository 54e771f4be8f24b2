-- ===== src/SessionManager/Tests.antt =====
-- Runs of the session managers on small inputs, and their theorems at them.
use linuxgameserver.Common.{
  ◌+◌, ◌^◌, ◌-◌, ◌≡◌, refl, none, some, [], ◌∷◌, if◌then◌else◌, ◌==◌, arith,
}
use linuxgameserver.Common.Words.{int_lt}
use linuxgameserver.Common.Maps.{find}
use linuxgameserver.SessionManager.{
  SessionManager, MasterSessionManager, select_from, next_session_id, max_id, alloc_session,
  get_session_id, found, find_session, free_session,
}
use linuxgameserver.SessionManager.Alloc.{IsReady, registered, find_session-alloc_session}
use linuxgameserver.SessionManager.Free.{find_session-free_session}

abbrev busy : SessionManager
busy = record { sessions = record { key = 7; value = 50 } ∷ []; current_session_managered = 1 }

abbrev idle : SessionManager
idle = record { sessions = []; current_session_managered = 0 }

-- Two managers: the session at 50 is in use under the id 7, and that at 100 is in the pool.
abbrev two : MasterSessionManager
two = record {
  queue_dirty = 100 ∷ [];
  last_session_id = 8;
  session_manager_count = 2;
  managers = busy ∷ idle ∷ [];
  session_ids = record { key = 50; value = 7 } ∷ [];
  will_reuse = [];
}

two-IsReady : IsReady two
two-IsReady = record {
  all_there = refl;
  some_there = omega arith;
  few = omega arith;
  counted = omega arith;
}

two_next : next_session_id two ≡ 2 ^ 48 + 9
unfolding select_from int_lt
two_next = refl

two_free : registered two (next_session_id two) ≡ none
unfolding select_from int_lt find
two_free = refl

find_session-alloc_session_example :
    let (q, m') = alloc_session two in
    (q ≡ some 100)
    × (get_session_id m' 100 ≡ next_session_id two)
    × (find_session m' 7
        ≡ (if 7 == next_session_id two then found (some 100) else find_session two 7))
find_session-alloc_session_example =
    find_session-alloc_session two 100 [] 7 two-IsReady refl (omega (arith, two_next)) two_free

two_id : get_session_id two 50 ≡ 7
unfolding find
two_id = refl

find_session-free_session_example :
    find_session (free_session two (some 50)) 7
    ≡ (if 7 == get_session_id two 50 then found none else find_session two 7)
find_session-free_session_example =
    find_session-free_session two 50 7 two-IsReady (omega (arith, two_id))

-- The count is about to start again.
abbrev last : MasterSessionManager
last = record two { last_session_id = max_id - 1; managers = idle ∷ busy ∷ [] }

last-IsReady : IsReady last
last-IsReady = record {
  all_there = refl;
  some_there = omega arith;
  few = omega arith;
  counted = omega arith;
}

last_next : next_session_id last ≡ 0
unfolding select_from int_lt
last_next = refl

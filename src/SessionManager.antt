-- ===== src/SessionManager.antt =====
-- NetWork/LSessionManager.cpp and LSessionManager.h: the sessions in use by their ids, spread over
-- several managers, and the pool of the sessions that are not in use.
-- A session is the address of its object; `session_ids` holds the `m_u64SessionID` of each object.
-- The locks, the socket that `FreeSession` closes and the bindings of a session to its threads are
-- not part of the state. An operation returns the new manager behind its result.
pub mod Select
pub mod Alloc
pub mod Free
pub mod Life
pub mod Pool
mod Tests
use linuxgameserver.Common.{
  ℕ, zero, suc, ◌+◌, ◌-◌, ◌*◌, ◌/◌, ◌%◌, ◌^◌, Bool, true, false, Option, none, some, List, [], ◌∷◌,
  ◌++◌, if◌then◌else◌, ltb, leb, ◌==◌, get_elem?,
}
use linuxgameserver.Common.Words.{int_lt, int_sub, int_add}
use linuxgameserver.Common.Maps.{Map, find, assign, erase}

pub record SessionManager : Type 0 where
  pub sessions : Map ℕ
  pub current_session_managered : ℕ

pub record MasterSessionManager : Type 0 where
  pub queue_dirty : List ℕ
  pub last_session_id : ℕ
  pub session_manager_count : ℕ
  pub managers : List SessionManager
  pub session_ids : Map ℕ
  pub will_reuse : Map ℕ

unfoldable pub add_session : SessionManager → ℕ → ℕ → Bool × SessionManager
add_session m p id = if id == 0 then (false, m) else (elim (find m.sessions id) [
  | some _ ↦ (false, m)
  | none ↦ (true, record m { sessions = assign m.sessions id p })
])

unfoldable pub remove_session : SessionManager → ℕ → SessionManager
remove_session m id = elim (find m.sessions id) [
  | some _ ↦ record m { sessions = erase m.sessions id }
  | none ↦ m
]

abbrev pub increment : SessionManager → SessionManager
increment m = record m { current_session_managered = int_add m.current_session_managered 1 }

abbrev pub decrement : SessionManager → SessionManager
decrement m = record m { current_session_managered = int_sub m.current_session_managered 1 }

-- The loop over the managers from the index `i` on; `best` is the choice so far, with `least`
-- sessions.
unfoldable pub select_from : List SessionManager → ℕ → ℕ → ℕ → ℕ
select_from [] i best least = best
select_from (m ∷ ms) i best least =
    let n = m.current_session_managered in
    let taken = select_from ms (suc i) i n in
    let kept = select_from ms (suc i) best least in if int_lt n least then taken else kept

-- 0x0fffffff.
abbrev pub most : ℕ
most = 268435455

abbrev pub select_session_manager : MasterSessionManager → ℕ
select_session_manager m = select_from m.managers 0 0 most

-- The element of an array through a function.
unfoldable pub update :
    List SessionManager → ℕ → (SessionManager → SessionManager) → List SessionManager
update [] i f = []
update (m ∷ ms) zero f = f m ∷ ms
update (m ∷ ms) (suc i) f = m ∷ update ms i f

abbrev pub max_id : ℕ
max_id = 2 ^ 48 - 1

-- The count of the ids starts again at 0.
abbrev pub next_count : ℕ → ℕ
next_count n = if leb max_id (n + 1) then 0 else n + 1

-- The manager in the upper 16 bits, the count below them.
abbrev pub next_session_id : MasterSessionManager → ℕ
next_session_id m = select_session_manager m * 2 ^ 48 + next_count m.last_session_id

unfoldable pub alloc_session : MasterSessionManager → Option ℕ × MasterSessionManager
alloc_session m = elim m.queue_dirty [
  | [] ↦ (none, m)
  | p ∷ rest ↦ (
    some p,
    record m {
      queue_dirty = rest;
      last_session_id = next_count m.last_session_id;
      session_ids = assign m.session_ids p (next_session_id m);
      managers =
          update m.managers (select_session_manager m)
            (λ s. (add_session (increment s) p (next_session_id m)).1);
    },
  )
]

-- `found none` for a null pointer; `out_of_bounds` where the code reads behind the array of managers.
pub data FindResult : Type 0 where
  found : Option ℕ → FindResult
  out_of_bounds : FindResult

abbrev pub manager_of : ℕ → ℕ
manager_of id = (id / 2 ^ 48) % 2 ^ 16

unfoldable pub find_session : MasterSessionManager → ℕ → FindResult
find_session m id =
    if id == 0
    then found none
    else if ltb m.session_manager_count (manager_of id)
    then found none
    else (elim (get_elem? m.managers (manager_of id)) [
      | some s ↦ found (find s.sessions id)
      | none ↦ out_of_bounds
    ])

-- The `m_u64SessionID` of a session object.
abbrev pub get_session_id : MasterSessionManager → ℕ → ℕ
get_session_id m p = elim (find m.session_ids p) [ some id ↦ id | none ↦ 0 ]

unfoldable pub free_session : MasterSessionManager → Option ℕ → MasterSessionManager
free_session m none = m
free_session m (some p) =
    let id = get_session_id m p in
    if leb m.session_manager_count (manager_of id) then m else record m {
      managers = update m.managers (manager_of id) (λ s. decrement (remove_session s id));
    }

unfoldable pub free_session_to_pool : MasterSessionManager → Option ℕ → MasterSessionManager
free_session_to_pool m none = m
free_session_to_pool m (some p) = record m { queue_dirty = m.queue_dirty ++ (p ∷ []) }

unfoldable pub add_to_will_reuse_manager : MasterSessionManager → ℕ → MasterSessionManager
add_to_will_reuse_manager m p = elim (find m.will_reuse p) [
  | none ↦ record m { will_reuse = assign m.will_reuse p p }
  | some _ ↦ m
]

unfoldable pub move_will_close_session_to_session_pool :
    MasterSessionManager → ℕ → MasterSessionManager
unfolding free_session_to_pool
move_will_close_session_to_session_pool m p = elim (find m.will_reuse p) [
  | some _ ↦
      (let m' = free_session_to_pool m (some p) in record m' { will_reuse = erase m.will_reuse p })
  | none ↦ m
]

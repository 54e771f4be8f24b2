-- ===== src/Threads/Sound.antt =====
-- Closing a session (NetWork/LCloseSocketThread.cpp and the threads it tells): who owes what.
use linuxgameserver.Common.{
  ℕ, ◌+◌, ◌≤◌, ◌<◌, ◌≡◌, ◌≢◌, ◌⊎◌, true, none, some, List, [], ◌∷◌, if◌then◌else◌, ◌==◌,
}
use linuxgameserver.Common.Maps.{find}
use linuxgameserver.SessionManager.{MasterSessionManager, found, find_session, get_session_id}
use linuxgameserver.SessionManager.Alloc.{IsReady}
use linuxgameserver.SessionManager.Life.{occurrences}
use linuxgameserver.Threads.{
  Work, idle, taken, stopped, all_stopped, CloseWork, waiting, found_one, freed, telling, crashed,
  NetWorkServices,
}
use linuxgameserver.Threads.Closing.{thread_of, all_stops}

-- Whether a session waits for its reuse, as a number.
unfoldable pub waits : MasterSessionManager → ℕ → ℕ
waits m p = elim (find m.will_reuse p) [ none ↦ 0 | some _ ↦ 1 ]

unfoldable pub pooled : MasterSessionManager → ℕ → ℕ
pooled m p = occurrences p m.queue_dirty

unfoldable pub holds : Work → ℕ → ℕ
holds (taken q) p = if q == p then 1 else 0
holds idle p = 0
holds (stopped q) p = 0
holds (all_stopped q) p = 0

-- What the close thread has still to tell about the session.
unfoldable pub untold : CloseWork → ℕ → ℕ → ℕ
untold (telling id q rs) r p = if q == p then occurrences r rs else 0
untold waiting r p = 0
untold (found_one id q) r p = 0
untold (freed id q) r p = 0
untold crashed r p = 0

-- How often thread `t` of the kind `r` has still to set its flag of the session.
abbrev pub has : NetWorkServices → ℕ → ℕ → ℕ → ℕ
has s r t p = occurrences p (s.will_close r t) + holds (s.work r t) p

-- The session's flag of a kind of thread, and what may still set it.
abbrev pub owed : NetWorkServices → ℕ → ℕ → ℕ
owed s r p = has s r (thread_of s r p) p + untold s.close_work r p + s.stops r p

abbrev pub AreRoles : List ℕ → Type 0
AreRoles [] = Unit
AreRoles (r ∷ rs) = (r < 4) × AreRoles rs

-- A session that a thread is about to hand back.
abbrev pub IsLast : NetWorkServices → ℕ → Type 0
IsLast s p = (r : ℕ) × (t : ℕ) × ((s.work r t ≡ stopped p) ⊎ (s.work r t ≡ all_stopped p))

abbrev pub IsClosing : MasterSessionManager → CloseWork → Type 0
IsClosing m waiting = Unit
IsClosing m crashed = Unit
IsClosing m (found_one id p) = find_session m id ≡ found (some p)
IsClosing m (freed id p) =
    (waits m p + pooled m p ≡ 0) × ((j : ℕ) → find_session m j ≢ found (some p))
IsClosing m (telling id p []) = Unit
IsClosing m (telling id p (r ∷ rs)) = (waits m p ≡ 1) × AreRoles (r ∷ rs)

-- A session that is found carries its id and is in use. One that waits for its reuse has for each
-- kind of thread the flag set or one notice at most on its way, to the thread it is bound to, and one
-- at least when no notice failed; no other session has a notice. The flags of a session in use are 0,
-- and when all four are 1, a thread is at hand that hands the session back.
pub record IsSound (s : NetWorkServices) : Type 0 where
  pub ready : IsReady s.sessions
  pub known :
      (id p : ℕ)
      → find_session s.sessions id ≡ found (some p)
      → (get_session_id s.sessions p ≡ id) × (waits s.sessions p + pooled s.sessions p ≡ 0)
  pub separate : (p : ℕ) → waits s.sessions p + pooled s.sessions p ≤ 1
  pub none_else : (r t p : ℕ) → waits s.sessions p ≡ 0 → has s r t p ≡ 0
  pub none_elsewhere : (r t p : ℕ) → t ≢ thread_of s r p → has s r t p ≡ 0
  pub few : (r t p : ℕ) → 4 ≤ r → has s r t p ≡ 0
  pub once : (r p : ℕ) → waits s.sessions p ≡ 1 → owed s r p ≤ 1
  pub told : (r p : ℕ) → waits s.sessions p ≡ 1 → s.failures ≡ 0 → r < 4 → owed s r p ≡ 1
  pub in_use : (r p : ℕ) → waits s.sessions p + pooled s.sessions p ≡ 0 → s.stops r p ≡ 0
  pub seen :
      (r t p : ℕ)
      → s.work r t ≡ all_stopped p
      → (waits s.sessions p + pooled s.sessions p ≡ 1) × (all_stops s p ≡ true)
  pub last : (p : ℕ) → waits s.sessions p ≡ 1 → all_stops s p ≡ true → IsLast s p
  pub closing : IsClosing s.sessions s.close_work

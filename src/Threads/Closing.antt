-- ===== src/Threads/Closing.antt =====
-- NetWork/LCloseSocketThread.cpp and the parts of the other threads that stop a session: the close
-- thread takes its id, frees it, puts the object with those that wait for their reuse and tells four
-- threads; each sets its flag, and one that then reads four flags hands the object back.
use linuxgameserver.Common.{
  ℕ, ◌+◌, ◌&&◌, ◌||◌, ltb, length, Bool, Option, none, some, List, [], ◌∷◌, if◌then◌else◌, ◌==◌,
}
use linuxgameserver.Common.Maps.{find}
use linuxgameserver.CircleBuf.{add_items, copy_all_items_to_other_fix_len_circle_buf}
use linuxgameserver.CircleBuf.Queue.{add}
use linuxgameserver.SessionManager.{
  FindResult, found, out_of_bounds, find_session, free_session, add_to_will_reuse_manager,
  move_will_close_session_to_session_pool,
}
use linuxgameserver.Threads.{
  recv_role, send_role, epoll_role, main_role, Work, idle, taken, stopped, all_stopped, CloseWork,
  waiting, found_one, freed, telling, crashed, NetWorkServices, put, is_no_error, unbind_all,
}

-- There is one thread of the main logic; a session of another kind of thread names its thread.
abbrev pub thread_of : NetWorkServices → ℕ → ℕ → ℕ
thread_of s r p = if r == main_role then 0 else s.thread_ids r p

unfoldable pub append_to_close : NetWorkServices → ℕ → Bool × NetWorkServices
append_to_close s id =
    let (e, q) = add s.close_capacity s.need_to_close (id ∷ []) in
    (is_no_error e, record s { need_to_close = q })

-- The result of `AppendToClose` is not looked at. `none` where `FindSession` reads outside its array.
unfoldable pub process_kick_out_session : NetWorkServices → ℕ → Option NetWorkServices
process_kick_out_session s id = elim (find_session s.sessions id) [
  | out_of_bounds ↦ none
  | found none ↦ some s
  | found (some p) ↦ some (
      if s.close_sent p == 0
      then record (append_to_close s id).1 {
        close_sent = λ q. if p == q then 1 else s.close_sent q;
      }
      else s)
]

-- Whether the manager of a kind of threads has the thread of the session. Without one, the pointer is
-- null and the program crashes.
unfoldable pub is_there : NetWorkServices → ℕ → ℕ → Bool
is_there s r p = (r == main_role) || ltb (s.thread_ids r p) (length (s.counts r))

-- The session into the queue of its thread of the kind `r`; a full queue writes to the error log.
unfoldable pub add_will_close_session : NetWorkServices → ℕ → ℕ → NetWorkServices
add_will_close_session s r p =
    let t = thread_of s r p in
    let (e, q) = add (s.capacity r) (s.will_close r t) (p ∷ []) in
    record s {
      will_close = put s.will_close r t q;
      failures = if is_no_error e then s.failures else s.failures + 1;
    }

-- The packet that reports the closed session, through the buffer of the close thread; what does not
-- fit into the queue of the main logic stays there for the next turn.
unfoldable pub commit_disconnect : NetWorkServices → ℕ → NetWorkServices
commit_disconnect s id =
    let (e, b) =
      add_items s.disconnects (some (record { session_id = id; packet = none } ∷ [])) 1 in
    let (ok, b', d) = copy_all_items_to_other_fix_len_circle_buf b (some s.received) in
    if is_no_error e
    then record s { disconnects = b'; received = elim d [ some x ↦ x | none ↦ s.received ] }
    else record s { disconnects = b }

-- The order in which the close thread tells the others.
abbrev pub all_roles : List ℕ
all_roles = main_role ∷ epoll_role ∷ recv_role ∷ send_role ∷ []

-- What `FindSession` makes of an id that is to be closed.
unfoldable pub claim : ℕ → FindResult → CloseWork
claim id out_of_bounds = crashed
claim id (found none) = waiting
claim id (found (some p)) = found_one id p

unfoldable pub take_need_to_close : NetWorkServices → List ℕ → NetWorkServices
take_need_to_close s [] = s
take_need_to_close s (id ∷ q) = record s {
  need_to_close = q;
  close_work = claim id (find_session s.sessions id);
}

-- One step of the close thread. It stays where it is for ever when the program crashes.
unfoldable pub close_from : NetWorkServices → CloseWork → NetWorkServices
close_from s waiting = take_need_to_close s s.need_to_close
close_from s (found_one id p) = record s {
  sessions = free_session s.sessions (some p);
  close_work = freed id p;
}
close_from s (freed id p) = record s {
  sessions = add_to_will_reuse_manager s.sessions p;
  close_work = telling id p all_roles;
}
close_from s (telling id p []) = record (commit_disconnect s id) { close_work = waiting }
close_from s (telling id p (r ∷ rs)) =
    if is_there s r p
    then record (add_will_close_session s r p) { close_work = telling id p rs }
    else s
close_from s crashed = s

abbrev pub close_step : NetWorkServices → NetWorkServices
close_step s = close_from s s.close_work

-- `GetStopProcessInfos` and the test on its four results.
abbrev pub all_stops : NetWorkServices → ℕ → Bool
all_stops s p =
    (s.stops send_role p == 1)
    && (s.stops recv_role p == 1)
    && (s.stops main_role p == 1)
    && (s.stops epoll_role p == 1)

-- The session leaves its threads only if it waits for its reuse.
unfoldable pub move_to_session_pool : NetWorkServices → ℕ → NetWorkServices
move_to_session_pool s p = elim (find s.sessions.will_reuse p) [
  | none ↦ s
  | some _ ↦ record (unbind_all s p) {
    sessions = move_will_close_session_to_session_pool s.sessions p;
  }
]

unfoldable pub take_will_close : NetWorkServices → ℕ → ℕ → List ℕ → NetWorkServices
take_will_close s r t [] = s
take_will_close s r t (p ∷ q) = record s {
  will_close = put s.will_close r t q;
  work = put s.work r t (taken p);
}

-- One step of thread `t` of the kind `r` in the function that stops a session.
unfoldable pub work_from : NetWorkServices → ℕ → ℕ → Work → NetWorkServices
work_from s r t idle = take_will_close s r t (s.will_close r t)
work_from s r t (taken p) = record s {
  stops = put s.stops r p 1;
  work = put s.work r t (stopped p);
}
work_from s r t (stopped p) = record s {
  work = put s.work r t (if all_stops s p then all_stopped p else idle);
}
work_from s r t (all_stopped p) = record (move_to_session_pool s p) { work = put s.work r t idle }

abbrev pub work_step : NetWorkServices → ℕ → ℕ → NetWorkServices
work_step s r t = work_from s r t (s.work r t)

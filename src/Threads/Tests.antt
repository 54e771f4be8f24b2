-- ===== src/Threads/Tests.antt =====
-- Runs of the threads on small inputs, and their theorems at them.
mod Full
mod Bound
use linuxgameserver.Common.{ℕ, ◌≤◌, ◌≡◌, ◌≢◌, refl, true, none, some, List, [], ◌∷◌, ◌++◌, arith}
use linuxgameserver.Common.Words.{
  int_lt, int_le, int_add, int_sub, int_of_size, size_add, size_of_int, size_sub,
}
use linuxgameserver.Common.Maps.{find, assign, erase}
use linuxgameserver.CircleBuf.{FixLenCircleBuf, add_items, add_block, free_item_count}
use linuxgameserver.CircleBuf.Queue.{add}
use linuxgameserver.SessionManager
use linuxgameserver.SessionManager.{
  SessionManager, MasterSessionManager, next_session_id, alloc_session, found, find_session,
  free_session, add_to_will_reuse_manager, move_will_close_session_to_session_pool,
  free_session_to_pool, update, add_session, remove_session,
}
use linuxgameserver.SessionManager.Alloc.{IsReady, registered}
use linuxgameserver.SessionManager.Life.{occurrences}
use linuxgameserver.Threads.{
  waiting, telling, taken, all_stopped, RecvPacket, NetWorkServices, select_from, change, bind,
  unbind, unbind_all, reset_session, report, is_no_error,
}
use linuxgameserver.Threads.Closing.{
  append_to_close, close_step, close_from, claim, work_step, work_from, take_need_to_close,
  take_will_close, add_will_close_session, is_there, commit_disconnect, move_to_session_pool,
}
use linuxgameserver.Threads.Connecting.{
  watch, announce, bind_first, bind_second, bind_third, add_connected_socket,
}
use linuxgameserver.Threads.Sound.{IsSound, waits, pooled}
use linuxgameserver.Threads.Reach.{
  Step, connects, requests, closes, works, Steps, IsQuiet, thread_steps-quiet, thread_steps-IsSound,
  thread_steps-pooled,
}
use linuxgameserver.Threads.Reach
use linuxgameserver.Threads.Start.{start, start-IsSound}

-- One manager without sessions, and the session at 100 in the pool.
abbrev one : MasterSessionManager
one = record {
  queue_dirty = 100 ∷ [];
  last_session_id = 8;
  session_manager_count = 1;
  managers = record { sessions = []; current_session_managered = 0 } ∷ [];
  session_ids = [];
  will_reuse = [];
}

one-IsReady : IsReady one
one-IsReady = record {
  all_there = refl;
  some_there = omega arith;
  few = omega arith;
  counted = omega arith;
}

abbrev blank : RecvPacket
blank = record { session_id = 0; packet = none }

abbrev buffer : FixLenCircleBuf RecvPacket
buffer = record {
  read_index = 0;
  write_index = 0;
  item_size = 16;
  buf = some (blank ∷ blank ∷ blank ∷ blank ∷ []);
  max_item_count = 4;
}

abbrev fresh : NetWorkServices
fresh = start one 4 4 (λ r. 0 ∷ 0 ∷ []) buffer

one_unfound : (id p : ℕ) → find_session one id ≢ found (some p)
unfolding find_session find
one_unfound id p e = ground arith

one_once : (p : ℕ) → occurrences p one.queue_dirty ≤ 1
unfolding occurrences
one_once p = ground arith

fresh-IsSound : IsSound fresh
fresh-IsSound = start-IsSound one 4 4 (λ r. 0 ∷ 0 ∷ []) buffer one-IsReady refl one_once one_unfound

one_next : next_session_id one ≡ 9
unfolding SessionManager.select_from int_lt
one_next = refl

-- The step of a thread: of the close thread, or of thread 0 of a kind.
data Turn : Type 0 where
  close_turn : Turn
  turn_of : ℕ → Turn

unfoldable play : List Turn → NetWorkServices → NetWorkServices
play [] s = s
play (close_turn ∷ ts) s = play ts (close_step s)
play (turn_of r ∷ ts) s = play ts (work_step s r 0)

play-Steps : (ts : List Turn) (s : NetWorkServices) → Steps s (play ts s)
unfolding play
play-Steps [] s = Reach.stop s
play-Steps (close_turn ∷ ts) s = Reach.next _ (closes s) (play-Steps ts (close_step s))
play-Steps (turn_of r ∷ ts) s = Reach.next _ (works s r 0) (play-Steps ts (work_step s r 0))

abbrev connected : NetWorkServices
connected = (add_connected_socket fresh 5 (some 70) true).1

abbrev asked : NetWorkServices
asked = (append_to_close connected 9).1

-- The close thread takes the id, frees the session, lets it wait and tells four threads.
abbrev closing_turns : List Turn
closing_turns =
    close_turn ∷ close_turn ∷ close_turn ∷ close_turn ∷ close_turn ∷ close_turn ∷ close_turn
    ∷ close_turn ∷ []

abbrev told : NetWorkServices
told = play closing_turns asked

-- Each of the four takes the session, sets its flag and reads the flags; the last hands it back.
abbrev turns : List Turn
turns =
    turn_of 0
    ∷ turn_of 0
    ∷ turn_of 0
    ∷ turn_of 1
    ∷ turn_of 1
    ∷ turn_of 1
    ∷ turn_of 2
    ∷ turn_of 2
    ∷ turn_of 2
    ∷ turn_of 3
    ∷ turn_of 3
    ∷ turn_of 3
    ∷ turn_of 3
    ∷ []

abbrev finished : NetWorkServices
finished = play (closing_turns ++ turns) asked

connected_found : find_session connected.sessions 9 ≡ found (some 100)
unfolding add_connected_socket bind_first bind_second bind_third announce watch bind report
    reset_session alloc_session find_session find assign update add_session
    SessionManager.select_from select_from int_lt int_le int_add is_no_error add_items change start
    add_block size_sub free_item_count int_of_size size_add size_of_int int_sub
connected_found = refl

told_waits :
    (told.sessions.will_reuse ≡ record { key = 100; value = 100 } ∷ [])
    × (told.will_close 1 0 ≡ 100 ∷ [])
    × (told.close_work ≡ waiting)
unfolding add_connected_socket bind_first bind_second bind_third announce watch bind report
    reset_session alloc_session find_session find assign update add_session
    SessionManager.select_from select_from int_lt int_le int_add is_no_error add_items change start
    add_block size_sub free_item_count int_of_size size_add size_of_int int_sub play append_to_close
    add close_from claim take_need_to_close free_session remove_session erase
    add_to_will_reuse_manager add_will_close_session is_there commit_disconnect
told_waits = (refl, refl, refl)

finished_counts : (finished.sessions.queue_dirty ≡ 100 ∷ []) × (finished.counts 0 ≡ 0 ∷ 0 ∷ [])
unfolding add_connected_socket bind_first bind_second bind_third announce watch bind report
    reset_session alloc_session find_session find assign update add_session
    SessionManager.select_from select_from int_lt int_le int_add is_no_error add_items change start
    add_block size_sub free_item_count int_of_size size_add size_of_int int_sub play append_to_close
    add close_from claim take_need_to_close free_session remove_session erase
    add_to_will_reuse_manager add_will_close_session is_there commit_disconnect work_from
    take_will_close move_to_session_pool move_will_close_session_to_session_pool
    free_session_to_pool unbind_all unbind
finished_counts = (refl, refl)

one_free : registered one (next_session_id one) ≡ none
unfolding SessionManager.select_from int_lt find
one_free = refl

one_ne : next_session_id one ≢ 0
unfolding SessionManager.select_from int_lt
one_ne = omega arith

fresh_calm :
    (r t p : ℕ) (q : List ℕ) → fresh.sessions.queue_dirty ≡ p ∷ q → fresh.work r t ≢ all_stopped p
unfolding start
fresh_calm r t p q e = λ f. ground arith

fresh-connected : Step fresh connected
unfolding start
fresh-connected = connects fresh 5 (some 70) true one_ne one_free fresh_calm

fresh-told : Steps fresh told
fresh-told = Reach.next _ fresh-connected (Reach.next _ (requests connected 9) (play-Steps _ asked))

fresh-finished : Steps fresh finished
fresh-finished =
    Reach.next _ fresh-connected (Reach.next _ (requests connected 9) (play-Steps _ asked))

finished-IsQuiet : IsQuiet finished
unfolding add_connected_socket bind_first bind_second bind_third announce watch bind report
    reset_session alloc_session find_session find assign update add_session
    SessionManager.select_from select_from int_lt int_le int_add is_no_error add_items change start
    add_block size_sub free_item_count int_of_size size_add size_of_int int_sub play append_to_close
    add close_from claim take_need_to_close free_session remove_session erase
    add_to_will_reuse_manager add_will_close_session is_there commit_disconnect work_from
    take_will_close move_to_session_pool move_will_close_session_to_session_pool
    free_session_to_pool unbind_all unbind
finished-IsQuiet = record {
  no_notice = λ r t. ground arith;
  no_work = λ r t. ground arith;
  no_closing = refl;
}

finished_told : finished.failures ≡ 0
unfolding add_connected_socket bind_first bind_second bind_third announce watch bind report
    reset_session alloc_session find_session find assign update add_session
    SessionManager.select_from select_from int_lt int_le int_add is_no_error add_items change start
    add_block size_sub free_item_count int_of_size size_add size_of_int int_sub play append_to_close
    add close_from claim take_need_to_close free_session remove_session erase
    add_to_will_reuse_manager add_will_close_session is_there commit_disconnect work_from
    take_will_close move_to_session_pool move_will_close_session_to_session_pool
    free_session_to_pool unbind_all unbind
finished_told = refl

thread_steps-quiet_example : waits finished.sessions 100 ≡ 0
thread_steps-quiet_example =
    thread_steps-quiet 100 fresh-finished fresh-IsSound finished-IsQuiet finished_told

thread_steps-IsSound_example : IsSound told
thread_steps-IsSound_example = thread_steps-IsSound fresh-told fresh-IsSound

finished_pooled : 1 ≤ pooled finished.sessions 100
unfolding add_connected_socket bind_first bind_second bind_third announce watch bind report
    reset_session alloc_session find_session find assign update add_session
    SessionManager.select_from select_from int_lt int_le int_add is_no_error add_items change start
    add_block size_sub free_item_count int_of_size size_add size_of_int int_sub play append_to_close
    add close_from claim take_need_to_close free_session remove_session erase
    add_to_will_reuse_manager add_will_close_session is_there commit_disconnect work_from
    take_will_close move_to_session_pool move_will_close_session_to_session_pool
    free_session_to_pool unbind_all unbind pooled occurrences
finished_pooled = omega arith

thread_steps-pooled_example :
    (pooled finished.sessions 100 ≡ 1)
    × ((id : ℕ) → find_session finished.sessions id ≢ found (some 100))
    × (occurrences 100 (finished.will_close 2 0) ≡ 0)
    × (finished.work 2 0 ≢ taken 100)
    × ((id a : ℕ) (rs : List ℕ) → finished.close_work ≢ telling id 100 (a ∷ rs))
thread_steps-pooled_example =
    thread_steps-pooled 100 2 0 fresh-finished fresh-IsSound finished_pooled

-- The threads that have the session in their queues.
abbrev told_threads : List (ℕ × ℕ)
told_threads = (3, 0) ∷ (1, 0) ∷ (0, 0) ∷ (2, 0) ∷ []

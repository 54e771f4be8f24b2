-- ===== src/Threads/Tests/Full.antt =====
-- Sessions that are connected or closed when a queue has no room, or a thread refuses them.
use linuxgameserver.Common.{
  ℕ, ◌≤◌, ◌≡◌, ◌≢◌, refl, true, false, none, some, List, [], ◌∷◌, if◌then◌else◌, ◌==◌, length,
  arith,
}
use linuxgameserver.Common.Words.{
  int_lt, int_le, int_add, int_sub, int_of_size, size_add, size_of_int, size_sub,
}
use linuxgameserver.Common.Maps.{find, assign, erase}
use linuxgameserver.CircleBuf.{add_items, add_block, free_item_count}
use linuxgameserver.CircleBuf.Queue.{add}
use linuxgameserver.SessionManager
use linuxgameserver.SessionManager.{
  SessionManager, MasterSessionManager, next_session_id, alloc_session, found, find_session,
  free_session, add_to_will_reuse_manager, move_will_close_session_to_session_pool,
  free_session_to_pool, update, add_session, remove_session, most,
}
use linuxgameserver.SessionManager.Alloc.{registered}
use linuxgameserver.Threads.{
  give_back, telling, all_stopped, NetWorkServices, select_from, change, bind, unbind, unbind_all,
  reset_session, report, is_no_error,
}
use linuxgameserver.Threads.Closing.{
  all_roles, thread_of, process_kick_out_session, append_to_close, close_step, close_from, claim,
  take_need_to_close, add_will_close_session, is_there, commit_disconnect,
}
use linuxgameserver.Threads.Connecting.{
  watch, announce, bind_first, bind_second, bind_third, add_connected_socket,
}
use linuxgameserver.Threads.Sound.{IsSound, waits, pooled}
use linuxgameserver.Threads.Reach.{
  Step, connects, requests, closes, works, Steps, IsQuiet, thread_steps-quiet, thread_steps-IsSound,
  thread_steps-pooled,
}
use linuxgameserver.Threads.Reach
use linuxgameserver.Threads.Lost.{close_step_full}
use linuxgameserver.Threads.Refused.{add_connected_socket_refused, process_kick_out_session_full}
use linuxgameserver.Threads.Start.{start, start-IsSound}
use linuxgameserver.Threads.Tests.{
  one, fresh, buffer, one-IsReady, one_unfound, one_once, fresh-IsSound, one_ne, one_free,
  close_turn, play, play-Steps, connected,
}

-- The queues of the threads have no room.
abbrev tight : NetWorkServices
tight = start one 0 4 (λ r. 0 ∷ 0 ∷ []) buffer

tight-IsSound : IsSound tight
tight-IsSound = start-IsSound one 0 4 (λ r. 0 ∷ 0 ∷ []) buffer one-IsReady refl one_once one_unfound

tight_calm :
    (r t p : ℕ) (q : List ℕ) → tight.sessions.queue_dirty ≡ p ∷ q → tight.work r t ≢ all_stopped p
unfolding start
tight_calm r t p q e = λ f. ground arith

abbrev tight_asked : NetWorkServices
tight_asked = (append_to_close (add_connected_socket tight 5 (some 70) true).1 9).1

abbrev stuck : NetWorkServices
stuck = play (close_turn ∷ close_turn ∷ close_turn ∷ []) tight_asked

tight-connected : Step tight (add_connected_socket tight 5 (some 70) true).1
unfolding start
tight-connected = connects tight 5 (some 70) true one_ne one_free tight_calm

tight-stuck : Steps tight stuck
tight-stuck = Reach.next _ tight-connected (
    Reach.next _ (requests (add_connected_socket tight 5 (some 70) true).1 9)
      (play-Steps _ tight_asked))

stuck_telling : stuck.close_work ≡ telling 9 100 all_roles
unfolding add_connected_socket bind_first bind_second bind_third announce watch bind report
    reset_session alloc_session find_session find assign update add_session
    SessionManager.select_from select_from int_lt int_le int_add is_no_error add_items change start
    add_block size_sub free_item_count int_of_size size_add size_of_int int_sub play append_to_close
    add close_from claim take_need_to_close free_session remove_session erase
    add_to_will_reuse_manager add_will_close_session is_there commit_disconnect
stuck_telling = refl

stuck_full : stuck.capacity 3 ≤ length (stuck.will_close 3 (thread_of stuck 3 100))
unfolding add_connected_socket bind_first bind_second bind_third announce watch bind report
    reset_session alloc_session find_session find assign update add_session
    SessionManager.select_from select_from int_lt int_le int_add is_no_error add_items change start
    add_block size_sub free_item_count int_of_size size_add size_of_int int_sub play append_to_close
    add close_from claim take_need_to_close free_session remove_session erase
    add_to_will_reuse_manager add_will_close_session is_there commit_disconnect
stuck_full = omega arith

stuck_there : is_there stuck 3 100 ≡ true
unfolding is_there
stuck_there = refl

close_step_full_example :
    (waits (close_step stuck).sessions 100 ≡ 1) × (pooled (close_step stuck).sessions 100 ≡ 0)
close_step_full_example =
    close_step_full (thread_steps-IsSound tight-stuck tight-IsSound) stuck_telling stuck_there
      stuck_full (Reach.stop (close_step stuck))

refused_one : (add_connected_socket fresh 5 (some 70) false).0 ≡ false
unfolding add_connected_socket bind_first bind_second bind_third announce watch bind report
    reset_session alloc_session find_session find assign update add_session
    SessionManager.select_from select_from int_lt int_le int_add is_no_error add_items change start
    add_block size_sub free_item_count int_of_size size_add size_of_int int_sub unbind_all unbind
    give_back free_session remove_session erase
refused_one = refl

fresh_next : next_session_id fresh.sessions ≢ 0
unfolding start
fresh_next = one_ne

fresh_free : registered fresh.sessions (next_session_id fresh.sessions) ≡ none
unfolding start
fresh_free = one_free

fresh_head : fresh.sessions.queue_dirty ≡ 100 ∷ []
unfolding start
fresh_head = refl

socket_positive : int_le 5 0 ≡ false
unfolding int_le
socket_positive = refl

add_connected_socket_refused_example :
    let n = (add_connected_socket fresh 5 (some 70) false).1 in
    (pooled n.sessions 100 ≡ 0)
    × (waits n.sessions 100 ≡ 0)
    × (find_session n.sessions 9 ≢ found (some 100))
add_connected_socket_refused_example =
    add_connected_socket_refused 5 (some 70) false 100 [] 9 fresh-IsSound fresh_head fresh_next
      fresh_free socket_positive refused_one

-- The queue of the close thread has no room.
abbrev crowded : NetWorkServices
crowded = record connected { close_capacity = 0 }

crowded_found : find_session crowded.sessions 9 ≡ found (some 100)
unfolding add_connected_socket bind_first bind_second bind_third announce watch bind report
    reset_session alloc_session find_session find assign update add_session
    SessionManager.select_from select_from int_lt int_le int_add is_no_error add_items change start
    add_block size_sub free_item_count int_of_size size_add size_of_int int_sub
crowded_found = refl

crowded_full : crowded.close_capacity ≤ length crowded.need_to_close
crowded_full = omega arith

crowded_unsent : crowded.close_sent 100 ≡ 0
unfolding add_connected_socket bind_first bind_second bind_third announce watch bind report
    reset_session alloc_session find_session find assign update add_session
    SessionManager.select_from select_from int_lt int_le int_add is_no_error add_items change start
    add_block size_sub free_item_count int_of_size size_add size_of_int int_sub
crowded_unsent = refl

process_kick_out_session_full_example :
    let n = record crowded { close_sent = λ q. if 100 == q then 1 else crowded.close_sent q } in
    let m = record n { need_to_close = [] } in
    (process_kick_out_session crowded 9 ≡ some n) × (process_kick_out_session m 9 ≡ some m)
process_kick_out_session_full_example =
    process_kick_out_session_full crowded 9 100 [] crowded_found crowded_full crowded_unsent

-- ===== src/Threads/Tests/Bound.antt =====
-- Sessions that are bound to threads, and one that is handed back too early.
use linuxgameserver.Common.{ℕ, ◌<◌, ◌^◌, ◌≡◌, refl, [], ◌∷◌, if◌then◌else◌, ◌==◌, length, arith}
use linuxgameserver.Common.Words.{int_sub}
use linuxgameserver.Common.Maps.{find, erase}
use linuxgameserver.SessionManager.{
  move_will_close_session_to_session_pool, free_session_to_pool, most,
}
use linuxgameserver.SessionManager.Life.{occurrences}
use linuxgameserver.Threads.{
  no_thread, bind_recv_thread, bind_send_thread, bind_epoll_thread, all_stopped, NetWorkServices,
  recv_role, send_role, epoll_role, change, unbind, unbind_all, put,
}
use linuxgameserver.Threads.Closing.{work_step, work_from, move_to_session_pool}
use linuxgameserver.Threads.Binding.{
  bound_to, AreCounts, IsBound, bind_threads-IsBound, bound_sessions,
}
use linuxgameserver.Threads.Counts
use linuxgameserver.Threads.Recount.{IsCounted}
use linuxgameserver.Threads.Counts.{binds_recv, unbinds, bind_steps-IsCounted}
use linuxgameserver.Threads.Start.{start}
use linuxgameserver.Threads.Tests.{one, fresh}

fresh_counts : (r : ℕ) → AreCounts (fresh.counts r)
unfolding start
fresh_counts r = (omega arith, (omega arith, tt))

fresh_short : (r : ℕ) → length (fresh.counts r) < 2 ^ 16
unfolding start
fresh_short r = omega arith

fresh_room : (r : ℕ) → bound_to (fresh.counts r) 0 < most
unfolding start
fresh_room r = omega arith

bind_threads-IsBound_example :
    IsBound fresh recv_role 100 (bind_recv_thread fresh 100)
    × IsBound fresh send_role 100 (bind_send_thread fresh 100)
    × IsBound fresh epoll_role 100 (bind_epoll_thread fresh 100)
bind_threads-IsBound_example =
    bind_threads-IsBound fresh 100 (λ r. 0) fresh_counts fresh_short fresh_room

fresh_exact :
    (r t : ℕ)
    → t < length (fresh.counts r)
    → bound_to (fresh.counts r) t ≡ bound_sessions (fresh.thread_ids r) t (100 ∷ [])
unfolding start bound_sessions
fresh_exact r t l = ground arith

fresh-IsCounted : (r : ℕ) → IsCounted (100 ∷ []) fresh r
fresh-IsCounted r = record { small = fresh_counts r; short = fresh_short r; exact = fresh_exact r }

one_100 : occurrences 100 (100 ∷ []) ≡ 1
unfolding occurrences
one_100 = refl

fresh_unbound : fresh.thread_ids recv_role 100 ≡ no_thread
unfolding start
fresh_unbound = refl

abbrev bound_one : NetWorkServices
bound_one = (bind_recv_thread fresh 100).1

bind_steps-IsCounted_example : IsCounted (100 ∷ []) (unbind bound_one recv_role 100) recv_role
bind_steps-IsCounted_example =
    bind_steps-IsCounted
      (Counts.next _ (binds_recv fresh 100 one_100 fresh_unbound)
        (Counts.next _ (unbinds bound_one recv_role 100 one_100) (Counts.stop _)))
      fresh-IsCounted recv_role

-- The session was connected and closed again after the send thread had read its four flags, and
-- before this thread hands it back; the other threads have not taken the new notice.
abbrev reused : NetWorkServices
reused = record fresh {
  sessions = record one { queue_dirty = []; will_reuse = record { key = 100; value = 100 } ∷ [] };
  thread_ids = λ r p. 0;
  will_close = λ r t. if t == 0 then 100 ∷ [] else [];
  work = put fresh.work 1 0 (all_stopped 100);
}

-- The session is then in the pool although three threads have it in their queues.
reused_early :
    let n = work_step reused 1 0 in
    (n.sessions.queue_dirty ≡ 100 ∷ [])
    × (n.will_close 0 0 ≡ 100 ∷ [])
    × (n.will_close 2 0 ≡ 100 ∷ [])
    × (n.will_close 3 0 ≡ 100 ∷ [])
unfolding start work_from move_to_session_pool move_will_close_session_to_session_pool
    free_session_to_pool unbind_all unbind find erase change int_sub
reused_early = (refl, refl, refl, refl)

-- ===== src/Threads/Reach.antt =====
-- The threads of the network services as steps in any order: connections, requests to close a session
-- by whatever thread, and the steps of the close thread and of the threads it tells.
use linuxgameserver.Common.{
  ℕ, ◌≤◌, ◌<◌, ◌≡◌, ◌≢◌, refl, subst, Bool, Option, none, some, inl, inr, List, [], ◌∷◌, arith,
}
use linuxgameserver.SessionManager.{next_session_id, found, find_session}
use linuxgameserver.SessionManager.Alloc.{registered}
use linuxgameserver.SessionManager.Life.{occurrences}
use linuxgameserver.Threads.{
  recv_role, send_role, epoll_role, main_role, Work, idle, taken, stopped, all_stopped, waiting,
  telling, NetWorkServices,
}
use linuxgameserver.Threads.Closing.{append_to_close, close_step, work_step, work_from, thread_of}
use linuxgameserver.Threads.Connecting.{add_connected_socket}
use linuxgameserver.Threads.Sound.{
  IsSound, has, owed, holds, untold, waits, pooled, IsLast, IsClosing,
}
use linuxgameserver.Threads.Workers.{taken-IsSound, stopped-IsSound, read-IsSound}
use linuxgameserver.Threads.Movers.{moved-IsSound}
use linuxgameserver.Threads.Freeing.{claimed-IsSound}
use linuxgameserver.Threads.Tellers.{close_from-IsSound}
use linuxgameserver.Threads.Joins.{connected-IsSound}

-- A connection is taken to get an id that is not 0 and not in use, and a session that no thread is
-- about to hand back a second time.
pub data Step : NetWorkServices → NetWorkServices → Type 0 where
  connects :
      (s : NetWorkServices) (socket : ℕ) (packet : Option ℕ) (watched : Bool)
      → next_session_id s.sessions ≢ 0
      → registered s.sessions (next_session_id s.sessions) ≡ none
      → ((r t p : ℕ) (q : List ℕ) → s.sessions.queue_dirty ≡ p ∷ q → s.work r t ≢ all_stopped p)
      → Step s (add_connected_socket s socket packet watched).1
  requests : (s : NetWorkServices) (id : ℕ) → Step s (append_to_close s id).1
  closes : (s : NetWorkServices) → Step s (close_step s)
  works : (s : NetWorkServices) (r t : ℕ) → Step s (work_step s r t)

pub data Steps : NetWorkServices → NetWorkServices → Type 0 where
  stop : (s : NetWorkServices) → Steps s s
  next : {s n : NetWorkServices} (o : NetWorkServices) → Step s n → Steps n o → Steps s o

requested-IsSound : (s : NetWorkServices) (id : ℕ) → IsSound s → IsSound (append_to_close s id).1
unfolding append_to_close
requested-IsSound s id h =
    claimed-IsSound _ s.close_work s.disconnects s.received h (λ a c. refl) h.closing

worked-IsSound :
    {s : NetWorkServices} (r t : ℕ) (w : Work)
    → IsSound s
    → s.work r t ≡ w
    → IsSound (work_from s r t w)
unfolding work_from
worked-IsSound {s = s} r t idle h e = taken-IsSound r t (s.will_close r t) h e refl
worked-IsSound r t (taken p) h e = stopped-IsSound r t p h e
worked-IsSound r t (stopped p) h e = read-IsSound r t p h e
worked-IsSound r t (all_stopped p) h e = moved-IsSound r t p h e

pub Step-IsSound : {s n : NetWorkServices} → Step s n → IsSound s → IsSound n
Step-IsSound (connects s socket packet watched ne free calm) h =
    connected-IsSound socket packet watched h ne free calm
Step-IsSound (requests s id) h = requested-IsSound s id h
Step-IsSound (closes s) h = close_from-IsSound s.close_work h refl
Step-IsSound (works s r t) h = worked-IsSound r t (s.work r t) h refl

-- Whatever the order of the steps, the sessions stay sound: one that is found is in use; one that
-- waits for its reuse owes each kind of thread its flag or one notice at most; one that is not
-- closed has all flags 0; and when all four are 1, a thread is at hand that hands the session back. A
-- connection is taken to get an id that is not 0 and not in use, and a session that no thread is about
-- to hand back.
pub thread_steps-IsSound : {s n : NetWorkServices} → Steps s n → IsSound s → IsSound n
thread_steps-IsSound (stop s) h = h
thread_steps-IsSound (next o a rest) h = thread_steps-IsSound rest (Step-IsSound a h)

-- A session that is in the pool is there once, no id finds it, no queue of any thread has it, no thread
-- has taken it from its queue without having set its flag, and the close thread has nobody to tell of
-- it. A thread may still be about to read its flags, or to report it a second time.
pub thread_steps-pooled :
    {s n : NetWorkServices} (p r t : ℕ)
    → Steps s n
    → IsSound s
    → 1 ≤ pooled n.sessions p
    → (pooled n.sessions p ≡ 1)
      × ((id : ℕ) → find_session n.sessions id ≢ found (some p))
      × (occurrences p (n.will_close r t) ≡ 0)
      × (n.work r t ≢ taken p)
      × ((id a : ℕ) (rs : List ℕ) → n.close_work ≢ telling id p (a ∷ rs))
unfolding holds
thread_steps-pooled {n = n} p r t ss k l =
    let h = thread_steps-IsSound ss k in
    (
      omega (arith, h.separate p),
      λ id f. omega (arith, (h.known id p f).1),
      omega (arith, none h),
      λ f. ground (arith, none h),
      λ id a rs f. omega (arith, (subst (IsClosing n.sessions) f h.closing).0, h.separate p),
    )
  where
    none : (h : IsSound n) → has n r t p ≡ 0
    none h = h.none_else r t p (omega (arith, h.separate p))

-- Nobody has anything to do.
pub record IsQuiet (s : NetWorkServices) : Type 0 where
  pub no_notice : (r t : ℕ) → s.will_close r t ≡ []
  pub no_work : (r t : ℕ) → s.work r t ≡ idle
  pub no_closing : s.close_work ≡ waiting

module _ {s : NetWorkServices} (h : IsSound s) (q : IsQuiet s) (f : s.failures ≡ 0) where
  quiet-owed : (r p : ℕ) → owed s r p ≡ s.stops r p
  unfolding holds untold occurrences
  quiet-owed r p =
      ground (arith, q.no_notice r (thread_of s r p), q.no_work r (thread_of s r p), q.no_closing)

  quiet-stops : (p r : ℕ) → waits s.sessions p ≡ 1 → r < 4 → s.stops r p ≡ 1
  quiet-stops p r k l = omega (arith, quiet-owed r p, h.told r p k f l)

  not_last : (p : ℕ) → ¬ IsLast s p
  not_last p (r, t, inl e) = ground (arith, q.no_work r t)
  not_last p (r, t, inr e) = ground (arith, q.no_work r t)

  quiet-waits : (p : ℕ) → waits s.sessions p ≢ 1
  quiet-waits p k = not_last p (
      h.last p k (
        ground (
          arith,
          quiet-stops p recv_role k (omega arith),
          quiet-stops p send_role k (omega arith),
          quiet-stops p epoll_role k (omega arith),
          quiet-stops p main_role k (omega arith),
        )))

-- No closed session is forgotten: in whatever order the threads took their steps, once no notice is
-- on its way and no thread is at work on one, no session waits for its reuse any more. No notice is
-- taken to have met a full queue.
pub thread_steps-quiet :
    {s n : NetWorkServices} (p : ℕ)
    → Steps s n
    → IsSound s
    → IsQuiet n
    → n.failures ≡ 0
    → waits n.sessions p ≡ 0
thread_steps-quiet p ss k q f =
    let h = thread_steps-IsSound ss k in omega (arith, h.separate p, quiet-waits h q f p)

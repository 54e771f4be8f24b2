-- ===== src/Threads.antt =====
-- NetWork: how a session is bound to its threads (LRecvThreadManager.cpp, LSendThreadManager.cpp,
-- LEpollThreadManager.cpp, LNetWorkServices.cpp) and how it is closed by the close thread
-- (LCloseSocketThread.cpp) together with the main logic, the epoll, the receive and the send threads.
-- A step of a thread is what it does with one shared object: with a queue, with the four stop flags
-- of a session, or with the manager of the sessions. `GetStopProcessInfos` is one step, and so is a
-- new connection. A queue of sessions to stop is the bounded queue of CircleBuf/Queue; `none` as a
-- packet is the null pointer that reports a closed session.
pub mod Closing
pub mod Connecting
mod Sound
mod Workers
mod Movers
mod Freeing
mod Closer
mod Tellers
mod Connect
mod Joins
pub mod Reach
mod Losing
mod Lost
mod Refused
mod Drain
mod Drained
mod Binding
mod Recount
mod Counts
mod Start
mod Tests
use linuxgameserver.Common.{
  ℕ, zero, suc, ◌+◌, ◌-◌, ◌^◌, Bool, true, false, not, ◌&&◌, ◌||◌, Option, none, some, List, [],
  ◌∷◌, if◌then◌else◌, leb, ◌==◌, length, get_elem?, set,
}
use linuxgameserver.Common.Words.{int_lt, int_le, int_add, int_sub}
use linuxgameserver.CircleBuf.{
  CircleError, no_error, FixLenCircleBuf, add_items, copy_all_items_to_other_fix_len_circle_buf,
}
use linuxgameserver.CircleBuf.Queue.{add}
use linuxgameserver.SessionManager.{
  MasterSessionManager, most, alloc_session, found, out_of_bounds, find_session, get_session_id,
  free_session, add_to_will_reuse_manager, move_will_close_session_to_session_pool,
}

-- The kinds of threads that work on a session, by number.
abbrev pub recv_role : ℕ
recv_role = 0

abbrev pub send_role : ℕ
send_role = 1

abbrev pub epoll_role : ℕ
epoll_role = 2

abbrev pub main_role : ℕ
main_role = 3

-- What a thread holds of a session that is to be stopped: the session is taken from the queue, its
-- stop flag is set, or all four flags were read as 1.
pub data Work : Type 0 where
  idle : Work
  taken : ℕ → Work
  stopped : ℕ → Work
  all_stopped : ℕ → Work

-- Where the close thread is in its turn for an id and a session; `crashed` behind a read outside
-- the array of the managers.
pub data CloseWork : Type 0 where
  waiting : CloseWork
  found_one : ℕ → ℕ → CloseWork
  freed : ℕ → ℕ → CloseWork
  telling : ℕ → ℕ → List ℕ → CloseWork
  crashed : CloseWork

pub record RecvPacket : Type 0 where
  pub session_id : ℕ
  pub packet : Option ℕ

-- `thread_ids`, `stops` and `close_sent` are fields of the session objects, by kind of thread and
-- address; `counts` are the sessions bound to each thread; `failures` counts the lines of the error
-- log for a session that a thread could not be told of.
pub record NetWorkServices : Type 0 where
  pub sessions : MasterSessionManager
  pub thread_ids : ℕ → ℕ → ℕ
  pub stops : ℕ → ℕ → ℕ
  pub close_sent : ℕ → ℕ
  pub counts : ℕ → List ℕ
  pub capacity : ℕ → ℕ
  pub will_close : ℕ → ℕ → List ℕ
  pub work : ℕ → ℕ → Work
  pub need_to_close : List ℕ
  pub close_capacity : ℕ
  pub close_work : CloseWork
  pub disconnects : FixLenCircleBuf RecvPacket
  pub received : FixLenCircleBuf RecvPacket
  pub failures : ℕ

abbrev pub put {ℓ} : {A : Type ℓ} → (ℕ → ℕ → A) → ℕ → ℕ → A → ℕ → ℕ → A
put f r t a = λ r' t'. if r == r' then (if t == t' then a else f r' t') else f r' t'

-- -1 as an `int`.
abbrev pub no_thread : ℕ
no_thread = 2 ^ 32 - 1

abbrev pub is_negative : ℕ → Bool
is_negative n = leb (2 ^ 31) n

-- The loop over the threads from the index `i` on.
unfoldable pub select_from : List ℕ → ℕ → ℕ → ℕ → ℕ
select_from [] i best least = best
select_from (n ∷ ns) i best least =
    let chosen = select_from ns (suc i) i n in
    let kept = select_from ns (suc i) best least in if int_lt n least then chosen else kept

abbrev pub select_thread : NetWorkServices → ℕ → ℕ
select_thread s r = select_from (s.counts r) 0 no_thread most

-- A count through a function.
unfoldable pub change : List ℕ → ℕ → (ℕ → ℕ) → List ℕ
change [] t f = []
change (n ∷ ns) zero f = f n ∷ ns
change (n ∷ ns) (suc t) f = n ∷ change ns t f

abbrev pub recount : NetWorkServices → ℕ → ℕ → (ℕ → ℕ) → ℕ → List ℕ
recount s r t f = λ r'. if r == r' then change (s.counts r) t f else s.counts r'

-- The three managers differ in the test that refuses a choice.
unfoldable pub bind : NetWorkServices → ℕ → ℕ → (ℕ → Bool) → Bool × NetWorkServices
bind s r p refuses =
    let t = select_thread s r in
    if refuses t then (false, s) else (
      true,
      record s { thread_ids = put s.thread_ids r p t; counts = recount s r t (λ n. int_add n 1) },
    )

abbrev pub bind_recv_thread : NetWorkServices → ℕ → Bool × NetWorkServices
bind_recv_thread s p = bind s recv_role p is_negative

abbrev pub bind_send_thread : NetWorkServices → ℕ → Bool × NetWorkServices
bind_send_thread s p = bind s send_role p (λ t. t == no_thread)

abbrev pub bind_epoll_thread : NetWorkServices → ℕ → Bool × NetWorkServices
bind_epoll_thread s p =
    bind s epoll_role p (λ t. is_negative t || leb (length (s.counts epoll_role)) t)

unfoldable pub unbind : NetWorkServices → ℕ → ℕ → NetWorkServices
unbind s r p =
    let t = s.thread_ids r p in
    if is_negative t || leb (length (s.counts r)) t then s else record s {
      thread_ids = put s.thread_ids r p no_thread;
      counts = recount s r t (λ n. int_sub n 1);
    }

abbrev pub unbind_recv_thread : NetWorkServices → ℕ → NetWorkServices
unbind_recv_thread s p = unbind s recv_role p

abbrev pub unbind_send_thread : NetWorkServices → ℕ → NetWorkServices
unbind_send_thread s p = unbind s send_role p

abbrev pub unbind_epoll_thread : NetWorkServices → ℕ → NetWorkServices
unbind_epoll_thread s p = unbind s epoll_role p

-- What `LSession::Reset` does to the bindings and the flags.
unfoldable pub reset_session : NetWorkServices → ℕ → NetWorkServices
reset_session s p = record s {
  thread_ids = λ r q. if p == q then no_thread else s.thread_ids r q;
  stops = λ r q. if p == q then 0 else s.stops r q;
  close_sent = λ q. if p == q then 0 else s.close_sent q;
}

unfoldable pub give_back : NetWorkServices → ℕ → NetWorkServices
give_back s p = record s { sessions = free_session s.sessions (some p) }

unfoldable pub unbind_all : NetWorkServices → ℕ → NetWorkServices
unbind_all s p = unbind_recv_thread (unbind_send_thread (unbind_epoll_thread s p) p) p

unfoldable pub is_no_error : CircleError → Bool
is_no_error no_error = true
is_no_error _ = false

-- A packet of the session into the queue of the main logic; `none` reports that it is closed.
unfoldable pub report : NetWorkServices → ℕ → Option ℕ → Bool × NetWorkServices
report s p packet =
    let id = get_session_id s.sessions p in
    let (e, b) = add_items s.received (some (record { session_id = id; packet = packet } ∷ [])) 1 in
    (is_no_error e, record s { received = b })

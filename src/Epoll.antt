-- ===== src/Epoll.antt =====
-- NetWork/LEpollThread.cpp: the events that an epoll thread collects for the receive and the send
-- threads, in an array for each thread, and hands over in one block. `LRecvThread::AddWorkItems` and
-- `LSendThread::PushEpollOutEvent` put a block into the bounded queue of CircleBuf/Queue. `none` as a
-- result stands for an access outside of an array.
mod Events
mod Overflow
mod Turn
mod Tests
use linuxgameserver.Common.{
  ℕ, zero, suc, ◌+◌, ◌%◌, ◌^◌, Bool, true, false, ◌&&◌, ◌||◌, not, Option, none, some, List, [],
  ◌∷◌, if◌then◌else◌, ltb, leb, ◌==◌, length, take, set,
}
use linuxgameserver.Common.Words.{int_add}
use linuxgameserver.CircleBuf.Queue.{add}
use linuxgameserver.SessionManager.{FindResult, found, out_of_bounds, find_session}
use linuxgameserver.Threads.{recv_role, send_role, no_thread, is_no_error, NetWorkServices}

infixl 5 ◌>>=◌
abbrev pub ◌>>=◌ {ℓ κ} : {A : Type ℓ} {B : Type κ} → Option A → (A → Option B) → Option B
none >>= f = none
some a >>= f = f a

-- The array of session ids for one thread, and how many of them are in use.
pub record WorkItems : Type 0 where
  pub items : List ℕ
  pub count : ℕ

-- The arrays for the threads of one kind, `max` places each, and the queues of these threads.
pub record Side : Type 0 where
  pub thread_count : ℕ
  pub max : ℕ
  pub work : ℕ → WorkItems
  pub capacity : ℕ
  pub queues : ℕ → List ℕ

pub record EpollThread : Type 0 where
  pub recv_side : Side
  pub send_side : Side

abbrev pub at_thread {ℓ} : {A : Type ℓ} → (ℕ → A) → ℕ → A → ℕ → A
at_thread f r a = λ q. if r == q then a else f q

abbrev pub pending : WorkItems → List ℕ
pending w = take w.count w.items

abbrev pub with_count : Side → ℕ → ℕ → Side
with_count s r n = record s { work = at_thread s.work r (record (s.work r) { count = n }) }

-- An id into the next place of an array.
unfoldable pub store_item : Side → ℕ → ℕ → Option Side
store_item s r id =
    let w = s.work r in
    if ltb w.count (length w.items)
    then some (record s {
      work =
          at_thread s.work r (record { items = set w.items w.count id; count = int_add w.count 1 });
    })
    else none

-- The block of an array into the queue of a thread, and the array is empty; or nothing, when it does
-- not fit.
unfoldable pub hand_over_items : Side → ℕ → ℕ → Bool × Side
hand_over_items s r t =
    let (e, q) = add s.capacity (s.queues t) (pending (s.work r)) in
    if is_no_error e
    then (true, record (with_count s r 0) { queues = at_thread s.queues t q })
    else (false, s)

-- `GetRecvThread` takes an unsigned short.
unfoldable pub commit_single_local_work_item : Side → ℕ → Bool × Side
commit_single_local_work_item s r =
    if (s.work r).count == 0
    then (true, s)
    else if leb s.thread_count (r % 2 ^ 16)
    then (false, s)
    else hand_over_items s r (r % 2 ^ 16)

-- A full array is handed over; when this fails, its events are dropped.
unfoldable pub push_recv_work_item : Side → ℕ → ℕ → Option (Bool × Side)
push_recv_work_item s r id =
    if leb s.thread_count r then some (false, s) else (elim (store_item s r id) [
      | none ↦ none
      | some n ↦
          let (ok, c) = commit_single_local_work_item n r in
          some (
            true,
            if int_add (s.work r).count 1 == s.max then (if ok then c else with_count n r 0) else n,
          )
    ])

unfoldable pub commit_single_local_send_item : Side → ℕ → Bool × Side
commit_single_local_send_item s r =
    if leb s.thread_count r then (false, s) else hand_over_items s r r

-- A full array is handed over; when this fails, it stays as it is.
unfoldable pub push_send_work_item : Side → ℕ → ℕ → Option (Bool × Side)
push_send_work_item s r id =
    if leb s.thread_count r then some (false, s) else (elim (store_item s r id) [
      | none ↦ none
      | some n ↦
          let (ok, c) = commit_single_local_send_item n r in
          some (if int_add (s.work r).count 1 == s.max then (ok, c) else (true, n))
    ])

-- The threads from `r` on, `n` of them.
unfoldable pub commit_local_from : ℕ → ℕ → Side → Bool × Side
commit_local_from zero r s = (true, s)
commit_local_from (suc n) r s =
    let (ok, c) = commit_single_local_work_item s r in
    let (all, d) = commit_local_from n (suc r) c in (ok && all, d)

abbrev pub commit_local_work_item : Side → Bool × Side
commit_local_work_item s = commit_local_from s.thread_count 0 s

unfoldable pub commit_send_from : ℕ → ℕ → Side → Side
commit_send_from zero r s = s
commit_send_from (suc n) r s = commit_send_from n (suc r) (commit_single_local_send_item s r).1

-- It returns true whatever happens.
abbrev pub commit_all_send_work_item : Side → Bool × Side
commit_all_send_work_item s = (true, commit_send_from s.thread_count 0 s)

-- What `epoll_wait` reports of a session: that it can be read from, or written to.
pub record EpollEvent : Type 0 where
  pub event_session : ℕ
  pub readable : Bool
  pub writable : Bool

-- The two sides and the events since the last commit of each.
pub record Round : Type 0 where
  pub thread : EpollThread
  pub local_all_sum : ℕ
  pub local_send_all_sum : ℕ

unfoldable pub on_readable : NetWorkServices → ℕ → EpollEvent → Round → Option Round
on_readable n p e s =
    let r = n.thread_ids recv_role p in
    if (r == no_thread) || not e.readable
    then some s
    else (elim (push_recv_work_item s.thread.recv_side r e.event_session) [
      | none ↦ none
      | some (ok, c) ↦
          let full = leb c.max (int_add s.local_all_sum 1) in
          some (record s {
            thread = record s.thread {
              recv_side = if full then (commit_local_work_item c).1 else c;
            };
            local_all_sum = if full then 0 else int_add s.local_all_sum 1;
          })
    ])

unfoldable pub on_writable : NetWorkServices → ℕ → EpollEvent → Round → Option Round
on_writable n p e s =
    let r = n.thread_ids send_role p in
    if (r == no_thread) || not e.writable
    then some s
    else (elim (push_send_work_item s.thread.send_side r e.event_session) [
      | none ↦ none
      | some (ok, c) ↦
          let full = leb c.max (int_add s.local_send_all_sum 1) in
          some (record s {
            thread = record s.thread {
              send_side = if full then (commit_all_send_work_item c).1 else c;
            };
            local_send_all_sum = if full then 0 else int_add s.local_send_all_sum 1;
          })
    ])

-- An event of a session that is not found, or is being closed, is passed over.
unfoldable pub on_event : NetWorkServices → EpollEvent → Round → Option Round
on_event n e s = elim (find_session n.sessions e.event_session) [
  | out_of_bounds ↦ none
  | found none ↦ some s
  | found (some p) ↦
      if n.close_sent p == 0 then (do c ← on_readable n p e s; on_writable n p e c) else some s
]

unfoldable pub on_events : NetWorkServices → List EpollEvent → Round → Option Round
on_events n [] s = some s
on_events n (e ∷ es) s = do c ← on_event n e s; on_events n es c

-- The events of one call of `epoll_wait`, and the commits behind them.
unfoldable pub process_events : NetWorkServices → List EpollEvent → EpollThread → Option EpollThread
process_events n es t = do
  s ← on_events n es (record { thread = t; local_all_sum = 0; local_send_all_sum = 0 })
  some (record {
    recv_side = (commit_local_work_item s.thread.recv_side).1;
    send_side = (commit_all_send_work_item s.thread.send_side).1;
  })

-- ===== src/Epoll/Turn.antt =====
-- A turn of an epoll thread (NetWork/LEpollThread.cpp) with the events of sessions to read from.
use linuxgameserver.Common.{
  ℕ, zero, suc, ◌%◌, ◌^◌, ◌≤◌, ◌≡◌, ◌≢◌, refl, sym, subst, ap, inl, inr, Bool, true, false,
  Bool-cases, none, some, List, [], ◌∷◌, if◌then◌else◌, leb, ◌==◌, leb→le, ◌||◌, not, arith,
}
use linuxgameserver.Common.Words.{int_add}
use linuxgameserver.SessionManager.{FindResult, found, out_of_bounds, find_session}
use linuxgameserver.Threads.{recv_role, no_thread, NetWorkServices}
use linuxgameserver.Epoll.{
  EpollEvent, Round, on_readable, on_writable, on_event, on_events, process_events,
  commit_all_send_work_item, Side, EpollThread, hand_over_items, commit_single_local_work_item,
  push_recv_work_item, commit_local_from, commit_local_work_item,
}
use linuxgameserver.Epoll.Events.{
  IsInside, hand_over_items_cases, emptied-IsInside, push_recv_work_item-IsTaken,
}

if-IsInside :
    (b : Bool) (x y : Bool × Side) → IsInside x.1 → IsInside y.1 → IsInside (if b then x else y).1
if-IsInside true x y i j = i
if-IsInside false x y i j = j

hand_over_items-IsInside : {s : Side} (r t : ℕ) → IsInside s → IsInside (hand_over_items s r t).1
hand_over_items-IsInside {s = s} r t h = elim (hand_over_items_cases s r t) [
  | inl e ↦
      subst (λ x. IsInside x.1) (sym e)
        (emptied-IsInside s r _ h.some_place h.small h.threads h.places (λ q ne. h.free q))
  | inr (e, n) ↦ subst (λ x. IsInside x.1) (sym e) h
]

commit_single-IsInside :
    {s : Side} (r : ℕ) → IsInside s → IsInside (commit_single_local_work_item s r).1
unfolding commit_single_local_work_item
commit_single-IsInside {s = s} r h =
    let queued = hand_over_items s r (r % 2 ^ 16) in
    let handing = if leb s.thread_count (r % 2 ^ 16) then (false, s) else queued in
    if-IsInside ((s.work r).count == 0) (true, s) handing h
      (if-IsInside (leb s.thread_count (r % 2 ^ 16)) (false, s) queued h
        (hand_over_items-IsInside r (r % 2 ^ 16) h))

commit_from-IsInside : (n r : ℕ) {s : Side} → IsInside s → IsInside (commit_local_from n r s).1
unfolding commit_local_from
commit_from-IsInside zero r h = h
commit_from-IsInside (suc n) r h = commit_from-IsInside n (suc r) (commit_single-IsInside r h)

push_recv_work_item_far :
    (s : Side) (r id : ℕ) → s.thread_count ≤ r → push_recv_work_item s r id ≡ some (false, s)
unfolding push_recv_work_item
push_recv_work_item_far s r id l = ground arith

pushed-IsInside :
    {s : Side} (r id : ℕ)
    → IsInside s
    → (ok : Bool) × (n : Side) × (push_recv_work_item s r id ≡ some (ok, n)) × IsInside n
pushed-IsInside {s = s} r id h = elim (Bool-cases (leb s.thread_count r)) [
  | inl l ↦ (false, s, push_recv_work_item_far s r id (leb→le _ _ l), h)
  | inr l ↦ let (n, e, i, t) = push_recv_work_item-IsTaken r id h (ground arith) in (true, n, e, i)
]

-- The end of an event that can be read: the side behind its push, and behind the commit of all.
abbrev read_end : Round → Side → Round
read_end s c =
    let full = leb c.max (int_add s.local_all_sum 1) in
    record s {
      thread = record s.thread { recv_side = if full then (commit_local_work_item c).1 else c };
      local_all_sum = if full then 0 else int_add s.local_all_sum 1;
    }

read_end-IsInside : (s : Round) (c : Side) → IsInside c → IsInside (read_end s c).thread.recv_side
read_end-IsInside s c h = elim (Bool-cases (leb c.max (int_add s.local_all_sum 1))) [
  | inl e ↦
      subst IsInside (ap (λ b. if b then (commit_local_work_item c).1 else c) (sym e))
        (commit_from-IsInside c.thread_count 0 h)
  | inr e ↦ subst IsInside (ap (λ b. if b then (commit_local_work_item c).1 else c) (sym e)) h
]

readable-IsInside :
    (n : NetWorkServices) (p : ℕ) (e : EpollEvent) (s : Round)
    → IsInside s.thread.recv_side
    → (m : Round) × (on_readable n p e s ≡ some m) × IsInside m.thread.recv_side
unfolding on_readable
readable-IsInside n p e s h =
    let r = n.thread_ids recv_role p in
    elim (Bool-cases ((r == no_thread) || not e.readable)) [
      | inl k ↦ (s, ground arith, h)
      | inr k ↦
          let (ok, c, f, i) = pushed-IsInside r e.event_session h in
          (read_end s c, ground arith, read_end-IsInside s c i)
    ]

unwritable :
    (n : NetWorkServices) (p : ℕ) (e : EpollEvent) (s : Round)
    → e.writable ≡ false
    → on_writable n p e s ≡ some s
unfolding on_writable
unwritable n p e s w = ground arith

event-IsInside :
    (n : NetWorkServices) (e : EpollEvent) (s : Round)
    → IsInside s.thread.recv_side
    → find_session n.sessions e.event_session ≢ out_of_bounds
    → e.writable ≡ false
    → (m : Round) × (on_event n e s ≡ some m) × IsInside m.thread.recv_side
unfolding on_event
event-IsInside n e s h k w = go (find_session n.sessions e.event_session) refl
  where
    go :
        (f : FindResult)
        → find_session n.sessions e.event_session ≡ f
        → (m : Round) × (on_event n e s ≡ some m) × IsInside m.thread.recv_side
    go out_of_bounds d = absurd (k d)
    go (found none) d = (s, ground arith, h)
    go (found (some p)) d = elim (Bool-cases (n.close_sent p == 0)) [
      | inr c ↦ (s, ground arith, h)
      | inl c ↦
          let (m, f, i) = readable-IsInside n p e s h in
          (m, ground (arith, unwritable n p e m w), i)
    ]

-- No event says that a session can be written to, and none makes `FindSession` read outside of its
-- array.
abbrev pub AreReads : NetWorkServices → List EpollEvent → Type 0
AreReads n [] = Unit
AreReads n (e ∷ es) =
    (e.writable ≡ false) × (find_session n.sessions e.event_session ≢ out_of_bounds) × AreReads n es

events-IsInside :
    (n : NetWorkServices) (es : List EpollEvent) (s : Round)
    → IsInside s.thread.recv_side
    → AreReads n es
    → (m : Round) × (on_events n es s ≡ some m) × IsInside m.thread.recv_side
unfolding on_events
events-IsInside n [] s h w = (s, refl, h)
events-IsInside n (e ∷ es) s h (w, k, ws) =
    let (m, f, i) = event-IsInside n e s h k w in
    let (o, g, j) = events-IsInside n es m i ws in (o, ground arith, j)

abbrev started : EpollThread → Round
started t = record { thread = t; local_all_sum = 0; local_send_all_sum = 0 }

-- The commits behind the events.
abbrev behind : Round → EpollThread
behind m = record {
  recv_side = (commit_local_work_item m.thread.recv_side).1;
  send_side = (commit_all_send_work_item m.thread.send_side).1;
}

-- A turn of an epoll thread with any events of sessions that can be read from is carried out, and
-- writes to no place outside of the arrays for the receive threads, whether their queues have room or
-- not. No id of the events is taken to make `FindSession` read outside of its array.
pub process_events-IsInside :
    (n : NetWorkServices) (es : List EpollEvent) (t : EpollThread)
    → IsInside t.recv_side
    → AreReads n es
    → (m : EpollThread) × (process_events n es t ≡ some m) × IsInside m.recv_side
unfolding process_events
process_events-IsInside n es t h w =
    let (m, e, i) = events-IsInside n es (started t) h w in
    (behind m, ground arith, commit_from-IsInside m.thread.recv_side.thread_count 0 i)

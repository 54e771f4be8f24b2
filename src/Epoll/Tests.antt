-- ===== src/Epoll/Tests.antt =====
-- Runs of an epoll thread on small inputs, and its theorems at them.
use linuxgameserver.Common.{ℕ, ◌≡◌, refl, true, false, none, some, List, [], ◌∷◌, arith}
use linuxgameserver.Common.Words.{int_add}
use linuxgameserver.CircleBuf.Queue.{add}
use linuxgameserver.Threads.{is_no_error, NetWorkServices, RecvPacket, idle, waiting}
use linuxgameserver.CircleBuf.{FixLenCircleBuf}
use linuxgameserver.SessionManager.{found, find_session}
use linuxgameserver.Common.Maps.{find}
use linuxgameserver.Epoll.{
  on_events, on_event, on_readable, on_writable, push_recv_work_item, commit_single_local_work_item,
  commit_single_local_send_item, commit_local_from, commit_send_from, hand_over_items, store_item,
  EpollThread, EpollEvent, process_events, Side, WorkItems, push_send_work_item,
}
use linuxgameserver.Epoll.Events.{IsInside, IsTaken, push_recv_work_item-IsTaken}
use linuxgameserver.Epoll.Turn.{AreReads, process_events-IsInside}
use linuxgameserver.Epoll.Overflow.{push_send_work_item_outside}

-- Two threads with arrays of two places; the array of thread 0 has the event of session 7.
abbrev arrays : ℕ → WorkItems
arrays r = record { items = 7 ∷ 0 ∷ []; count = 1 }

abbrev roomy : Side
roomy = record { thread_count = 2; max = 2; work = arrays; capacity = 4; queues = λ r. 5 ∷ [] }

roomy-IsInside : IsInside roomy
roomy-IsInside = record {
  some_place = omega arith;
  small = omega arith;
  threads = omega arith;
  places = λ r. refl;
  free = λ r. omega arith;
}

push_recv_work_item-IsTaken_example :
    (n : Side) × (push_recv_work_item roomy 1 9 ≡ some (true, n)) × IsInside n × IsTaken roomy 1 9 n
push_recv_work_item-IsTaken_example = push_recv_work_item-IsTaken 1 9 roomy-IsInside (omega arith)

abbrev no_buffer : FixLenCircleBuf RecvPacket
no_buffer = record {
  read_index = 0;
  write_index = 0;
  item_size = 16;
  buf = none;
  max_item_count = 0;
}

-- Session 100 is found under the id 9, and is bound to the threads 0.
abbrev services : NetWorkServices
services = record {
  sessions = record {
    queue_dirty = [];
    last_session_id = 9;
    session_manager_count = 1;
    managers =
        record { sessions = record { key = 9; value = 100 } ∷ []; current_session_managered = 1 }
        ∷ [];
    session_ids = record { key = 100; value = 9 } ∷ [];
    will_reuse = [];
  };
  thread_ids = λ r p. 0;
  stops = λ r p. 0;
  close_sent = λ p. 0;
  counts = λ r. 1 ∷ [];
  capacity = λ r. 4;
  will_close = λ r t. [];
  work = λ r t. idle;
  need_to_close = [];
  close_capacity = 4;
  close_work = waiting;
  disconnects = no_buffer;
  received = no_buffer;
  failures = 0;
}

abbrev epoll_thread : EpollThread
epoll_thread = record { recv_side = roomy; send_side = roomy }

abbrev events : List EpollEvent
events =
    record { event_session = 9; readable = true; writable = false }
    ∷ record { event_session = 8; readable = true; writable = false }
    ∷ record { event_session = 9; readable = true; writable = false }
    ∷ []

services_known :
    (find_session services.sessions 9 ≡ found (some 100))
    × (find_session services.sessions 8 ≡ found none)
unfolding find_session find
services_known = (refl, refl)

events-AreReads : AreReads services events
events-AreReads = (
  refl,
  ground (arith, known.0),
  (refl, ground (arith, known.1), (refl, ground (arith, known.0), tt)),
)
  where
    known :
        (find_session services.sessions 9 ≡ found (some 100))
        × (find_session services.sessions 8 ≡ found none)
    known = services_known

process_events-IsInside_example :
    (m : EpollThread) × (process_events services events epoll_thread ≡ some m)
    × IsInside m.recv_side
process_events-IsInside_example =
    process_events-IsInside services events epoll_thread roomy-IsInside events-AreReads

-- The first event fills the array of thread 0, which goes into the queue; the second is passed over,
-- and the last is committed behind the events.
process_events_queue :
    (elim (process_events services events epoll_thread) as (λ o. List ℕ) [
      | none ↦ []
      | some m ↦ m.recv_side.queues 0
    ])
    ≡ 5 ∷ 7 ∷ 9 ∷ 9 ∷ []
unfolding process_events on_events on_event on_readable on_writable push_recv_work_item
    commit_single_local_work_item commit_single_local_send_item commit_local_from commit_send_from
    hand_over_items store_item add is_no_error int_add find_session find
process_events_queue = refl

abbrev crowded : Side
crowded = record roomy { capacity = 1 }

crowded-IsInside : IsInside crowded
crowded-IsInside = record {
  some_place = omega arith;
  small = omega arith;
  threads = omega arith;
  places = λ r. refl;
  free = λ r. omega arith;
}

push_send_work_item_outside_example :
    (n : Side) × (push_send_work_item crowded 0 9 ≡ some (false, n))
    × ((n.work 0).count ≡ n.max)
    × (push_send_work_item n 0 10 ≡ none)
push_send_work_item_outside_example =
    push_send_work_item_outside 0 9 10 crowded-IsInside (omega arith) refl (omega arith)

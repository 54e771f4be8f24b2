-- ===== src/Epoll/Overflow.antt =====
-- What becomes of the events for the send threads (NetWork/LEpollThread.cpp) when a queue is full.
use linuxgameserver.Common.{ℕ, suc, ◌≤◌, ◌<◌, ◌≡◌, ap, ◌∙◌, false, none, some, length, arith}
use linuxgameserver.CircleBuf.Queue.{add}
use linuxgameserver.Threads.{is_no_error}
use linuxgameserver.Epoll.{
  Side, store_item, hand_over_items, commit_single_local_send_item, push_send_work_item,
}
use linuxgameserver.Epoll.Events.{
  IsInside, stored, store_item-stored, stored_count, stored_places, at_thread_here,
}

module _ {s : Side} (h : IsInside s) {r : ℕ} (l : r < s.thread_count) (id next : ℕ)
    (full : suc (s.work r).count ≡ s.max) (no_room : s.capacity ≤ length (s.queues r)) where
  refused : hand_over_items (stored s r id) r r ≡ (false, stored s r id)
  unfolding hand_over_items add is_no_error
  refused = ground arith

  push_refused : push_send_work_item s r id ≡ some (false, stored s r id)
  unfolding push_send_work_item commit_single_local_send_item
  push_refused = ground (arith, store_item-stored h r id, stored_count h r id, refused)

  store_outside : store_item (stored s r id) r next ≡ none
  unfolding store_item
  store_outside = ground (arith, stored_count h r id, stored_places h r id r)

  push_outside : push_send_work_item (stored s r id) r next ≡ none
  unfolding push_send_work_item
  push_outside = ground (arith, store_outside)

-- When the event for a send thread that fills its array meets a queue without room, the push fails
-- and leaves the array full; the next event for the thread is written behind the array.
pub push_send_work_item_outside :
    {s : Side} (r id next : ℕ)
    → IsInside s
    → r < s.thread_count
    → suc (s.work r).count ≡ s.max
    → s.capacity ≤ length (s.queues r)
    → (n : Side) × (push_send_work_item s r id ≡ some (false, n))
      × ((n.work r).count ≡ n.max)
      × (push_send_work_item n r next ≡ none)
push_send_work_item_outside {s = s} r id next h l full no_room = (
  stored s r id,
  push_refused h l id next full no_room,
  ap (λ w. w.count) (at_thread_here s.work r _) ∙ stored_count h r id ∙ full,
  push_outside h l id next full no_room,
)

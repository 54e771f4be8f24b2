-- ===== src/Epoll/Events.antt =====
-- What becomes of the events for the receive threads (NetWork/LEpollThread.cpp).
use linuxgameserver.Common.{
  ℕ, zero, suc, ◌+◌, ◌%◌, ◌^◌, ◌≤◌, ◌<◌, ◌≡◌, ◌≢◌, refl, ap, ◌∙◌, ◌⊎◌, inl, inr, true, false,
  Bool-cases, some, List, [], ◌∷◌, ◌++◌, if◌then◌else◌, ltb, leb, ◌==◌, eq→eqb, ne→eqb, length,
  take, set, length-set, length-append, length-take, append-nil, ◌&&◌, arith,
}
use linuxgameserver.Common.Words.{int_add}
use linuxgameserver.CircleBuf.Queue.{add}
use linuxgameserver.Threads.{is_no_error}
use linuxgameserver.Epoll.{
  Side, at_thread, pending, with_count, store_item, hand_over_items, commit_single_local_work_item,
  push_recv_work_item,
}

-- Each array has `max` places, and one is free at least.
pub record IsInside (s : Side) : Type 0 where
  pub some_place : 0 < s.max
  pub small : s.max < 2 ^ 32
  pub threads : s.thread_count ≤ 2 ^ 16
  pub places : (r : ℕ) → length (s.work r).items ≡ s.max
  pub free : (r : ℕ) → (s.work r).count < s.max

take-set :
    (xs : List ℕ) (n v : ℕ) → n < length xs → take (suc n) (set xs n v) ≡ take n xs ++ (v ∷ [])
take-set [] n v h = absurd (omega arith)
take-set (x ∷ xs) zero v h = refl
take-set (x ∷ xs) (suc n) v h = ap (λ ys. x ∷ ys) (take-set xs n v (omega arith))

-- The side with the id stored for a thread.
abbrev pub stored : Side → ℕ → ℕ → Side
stored s r id = record s {
  work = at_thread s.work r (record {
    items = set (s.work r).items (s.work r).count id;
    count = int_add (s.work r).count 1;
  });
}

pub at_thread_here : {A : Type 0} (f : ℕ → A) (r : ℕ) (a : A) → at_thread f r a r ≡ a
at_thread_here f r a = ap (λ b. if b then a else f r) (eq→eqb r r refl)

at_thread_there : {A : Type 0} (f : ℕ → A) (r q : ℕ) (a : A) → r ≢ q → at_thread f r a q ≡ f q
at_thread_there f r q a ne = ap (λ b. if b then a else f q) (ne→eqb r q ne)

-- The block of an array is in the queue of a thread.
abbrev handed : Side → ℕ → ℕ → Side
handed s r t = record (with_count s r 0) {
  queues = at_thread s.queues t (s.queues t ++ pending (s.work r));
}

pub hand_over_items_cases :
    (s : Side) (r t : ℕ)
    → (hand_over_items s r t ≡ (true, handed s r t))
      ⊎ ((hand_over_items s r t ≡ (false, s))
          × ((s.capacity ≤ length (s.queues t))
              ⊎ (s.capacity < length (s.queues t) + length (pending (s.work r)))))
unfolding hand_over_items add is_no_error
hand_over_items_cases s r t =
    elim (Bool-cases (
      ltb (length (s.queues t)) s.capacity
      && leb (length (s.queues t) + length (pending (s.work r))) s.capacity)) [
        | inl e ↦ inl (ground arith)
        | inr e ↦ inr (ground arith, no_room e)
      ]
  where
    no_room :
        (ltb (length (s.queues t)) s.capacity
            && leb (length (s.queues t) + length (pending (s.work r))) s.capacity)
          ≡ false
        → (s.capacity ≤ length (s.queues t))
          ⊎ (s.capacity < length (s.queues t) + length (pending (s.work r)))
    no_room e = elim (Bool-cases (ltb (length (s.queues t)) s.capacity)) [
      | inl a ↦ inr (ground arith)
      | inr a ↦ inl (ground arith)
    ]

-- A side with an array emptied, and any queues.
pub emptied-IsInside :
    (s : Side) (r : ℕ) (qs : ℕ → List ℕ)
    → 0 < s.max
    → s.max < 2 ^ 32
    → s.thread_count ≤ 2 ^ 16
    → ((q : ℕ) → length (s.work q).items ≡ s.max)
    → ((q : ℕ) → r ≢ q → (s.work q).count < s.max)
    → IsInside (record (with_count s r 0) { queues = qs })
emptied-IsInside s r qs a b c p f = record {
  some_place = a;
  small = b;
  threads = c;
  places = λ q. ground (arith, p q, p r);
  free = λ q. ground (arith, f q);
}

module _ {s : Side} (h : IsInside s) (r id : ℕ) where
  pub store_item-stored : store_item s r id ≡ some (stored s r id)
  unfolding store_item
  store_item-stored = ground (arith, h.places r, h.free r)

  pub stored_count : int_add (s.work r).count 1 ≡ suc (s.work r).count
  unfolding int_add
  stored_count = omega (arith, h.free r, h.small)

  pending-stored : pending ((stored s r id).work r) ≡ pending (s.work r) ++ (id ∷ [])
  pending-stored =
      ap pending (at_thread_here s.work r _)
      ∙ ap (λ n. take n (set (s.work r).items (s.work r).count id)) stored_count
      ∙ take-set (s.work r).items (s.work r).count id (omega (arith, h.places r, h.free r))

  pub stored_places : (q : ℕ) → length ((stored s r id).work q).items ≡ s.max
  stored_places q =
      ground (arith, h.places q, length-set (s.work r).items (s.work r).count id, h.places r)

  stored_free : (q : ℕ) → r ≢ q → ((stored s r id).work q).count < s.max
  stored_free q ne = ground (arith, h.free q)

  stored-IsInside : suc (s.work r).count ≢ s.max → IsInside (stored s r id)
  stored-IsInside ne = record {
    some_place = h.some_place;
    small = h.small;
    threads = h.threads;
    places = stored_places;
    free = λ q. ground (arith, h.free q, h.free r, stored_count);
  }

  own_thread : r < s.thread_count → r % 2 ^ 16 ≡ r
  own_thread l = omega (arith, h.threads, l)

  full_queue :
      (s.capacity ≤ length (s.queues r))
        ⊎ (s.capacity < length (s.queues r) + length (pending ((stored s r id).work r)))
      → suc (s.work r).count ≡ s.max
      → s.capacity < length (s.queues r) + s.max
  full_queue (inl a) e = omega (arith, a, h.some_place)
  full_queue (inr a) e = omega (
    arith,
    a,
    e,
    ap length pending-stored,
    length-append (pending (s.work r)) (id ∷ []),
    length-take (s.work r).count (s.work r).items (omega (arith, h.places r, h.free r)),
  )

  -- The three ends of a push.
  push_cases :
      r < s.thread_count
      → ((suc (s.work r).count ≢ s.max) × (push_recv_work_item s r id ≡ some (true, stored s r id)))
        ⊎ ((suc (s.work r).count ≡ s.max)
            × ((push_recv_work_item s r id ≡ some (true, handed (stored s r id) r r))
                ⊎ ((push_recv_work_item s r id ≡ some (true, with_count (stored s r id) r 0))
                    × (s.capacity < length (s.queues r) + s.max))))
  unfolding push_recv_work_item commit_single_local_work_item
  push_cases l = elim (Bool-cases (int_add (s.work r).count 1 == s.max)) [
    | inr e ↦ inl (ground (arith, stored_count), ground (arith, store_item-stored))
    | inl e ↦ inr (
      ground (arith, stored_count),
      (elim (hand_over_items_cases (stored s r id) r r) [
        | inl k ↦ inl (ground (arith, store_item-stored, stored_count, h.threads, own_thread l))
        | inr (k, n) ↦ inr (
          ground (arith, store_item-stored, stored_count, h.threads, own_thread l),
          full_queue n (ground (arith, stored_count)),
        )
      ]),
    )
  ]

-- Where an event goes: it follows the others of its thread, in its array or in its queue, or a full
-- array met a queue without room for its `max` events, which are dropped.
abbrev pub IsTaken : Side → ℕ → ℕ → Side → Type 0
IsTaken s r id n =
    (n.queues r ++ pending (n.work r) ≡ s.queues r ++ (pending (s.work r) ++ (id ∷ [])))
    ⊎ ((suc (s.work r).count ≡ s.max)
        × (s.capacity < length (s.queues r) + s.max)
        × (n.queues r ≡ s.queues r)
        × (pending (n.work r) ≡ []))

module _ {s : Side} (h : IsInside s) (r id : ℕ) where
  stored-IsTaken : IsTaken s r id (stored s r id)
  stored-IsTaken = inl (ap (λ xs. s.queues r ++ xs) (pending-stored h r id))

  handed-IsTaken : IsTaken s r id (handed (stored s r id) r r)
  handed-IsTaken = inl (
      ap (λ xs. xs ++ pending ((handed (stored s r id) r r).work r)) (at_thread_here s.queues r _)
      ∙ ap (λ w. (s.queues r ++ pending ((stored s r id).work r)) ++ pending w)
          (at_thread_here (stored s r id).work r _)
      ∙ append-nil _
      ∙ ap (λ xs. s.queues r ++ xs) (pending-stored h r id))

  dropped-IsTaken :
      suc (s.work r).count ≡ s.max
      → s.capacity < length (s.queues r) + s.max
      → IsTaken s r id (with_count (stored s r id) r 0)
  dropped-IsTaken e f = inr (e, f, refl, ap pending (at_thread_here (stored s r id).work r _))

  ended-IsInside :
      (qs : ℕ → List ℕ) → IsInside (record (with_count (stored s r id) r 0) { queues = qs })
  ended-IsInside qs =
      emptied-IsInside (stored s r id) r qs h.some_place h.small h.threads (stored_places h r id)
        (stored_free h r id)

-- An event for a receive thread never leaves its array, and leaves a place free in it; it stands
-- behind the others of its thread, in the array or in the queue, unless it fills the array and the
-- queue has no room for as many events as the array has places: then all events of the array are
-- dropped, and the push still says that it was done. The thread is one of those that are there.
pub push_recv_work_item-IsTaken :
    {s : Side} (r id : ℕ)
    → IsInside s
    → r < s.thread_count
    → (n : Side) × (push_recv_work_item s r id ≡ some (true, n)) × IsInside n × IsTaken s r id n
push_recv_work_item-IsTaken {s = s} r id h l = elim (push_cases h r id l) [
  | inl (ne, e) ↦ (stored s r id, e, stored-IsInside h r id ne, stored-IsTaken h r id)
  | inr (full, inl e) ↦
      (handed (stored s r id) r r, e, ended-IsInside h r id _, handed-IsTaken h r id)
  | inr (full, inr (e, no_room)) ↦ (
    with_count (stored s r id) r 0,
    e,
    ended-IsInside h r id s.queues,
    dropped-IsTaken h r id full no_room,
  )
]

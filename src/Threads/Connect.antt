-- ===== src/Threads/Connect.antt =====
-- A new connection keeps the sessions sound.
use linuxgameserver.Common.{
  ℕ, ◌+◌, ◌<◌, ◌≡◌, ◌≢◌, sym, subst, ◌∙◌, inl, inr, Bool-cases, some, none, List, [], ◌∷◌,
  if◌then◌else◌, ◌==◌, eqb→ne, arith,
}
use linuxgameserver.Common.Maps.{find-assign}
use linuxgameserver.CircleBuf.{FixLenCircleBuf}
use linuxgameserver.SessionManager.{
  MasterSessionManager, found, find_session, get_session_id, next_session_id, manager_of,
  alloc_session, free_session,
}
use linuxgameserver.SessionManager.Alloc.{
  IsReady, registered, find_session_lem, find_session-alloc_session, alloc_session-IsReady,
  get_session_id-alloc_session,
}
use linuxgameserver.SessionManager.Free.{free_session-IsReady, find_session-free_session}
use linuxgameserver.SessionManager.Life.{occurrences}
use linuxgameserver.Threads.{
  CloseWork, waiting, crashed, found_one, freed, telling, all_stopped, RecvPacket, NetWorkServices,
}
use linuxgameserver.Threads.Sound.{IsSound, owed, waits, pooled, IsLast, IsClosing}
use linuxgameserver.Threads.Freeing.{
  free_session-session_ids, waits-free_session, pooled-free_session,
}

-- Session `p` has left the pool for the new id `id`, and may be found under it.
pub record IsTaken (m n : MasterSessionManager) (p id : ℕ) : Type 0 where
  pub ready : IsReady n
  pub at : get_session_id n p ≡ id
  pub others : (c : ℕ) → p ≢ c → get_session_id n c ≡ get_session_id m c
  pub new : (c : ℕ) → find_session m id ≢ found (some c)
  pub only : (c : ℕ) → find_session n id ≡ found (some c) → c ≡ p
  pub rest : (j : ℕ) → j ≢ id → find_session n j ≡ find_session m j
  pub same_waits : (c : ℕ) → waits n c ≡ waits m c
  pub same_pooled : (c : ℕ) → pooled m c ≡ pooled n c + (if p == c then 1 else 0)

module _ {m : MasterSessionManager} {p : ℕ} {q : List ℕ} (h : IsReady m) (e : m.queue_dirty ≡ p ∷ q)
    (ne : next_session_id m ≢ 0) (free : registered m (next_session_id m) ≡ none) where
  abbrev allocated : MasterSessionManager
  allocated = (alloc_session m).1

  find_new : (c : ℕ) → find_session m (next_session_id m) ≢ found (some c)
  find_new c f = ground (arith, find_session_lem m (next_session_id m) h)

  find_allocated :
      (j : ℕ)
      → find_session allocated j
        ≡ (if j == next_session_id m then found (some p) else find_session m j)
  find_allocated j = (find_session-alloc_session m p q j h e ne free).2

  waits-allocated : (c : ℕ) → waits allocated c ≡ waits m c
  unfolding alloc_session waits
  waits-allocated c = ground arith

  pooled-allocated : (c : ℕ) → pooled m c ≡ pooled allocated c + (if p == c then 1 else 0)
  unfolding alloc_session pooled occurrences
  pooled-allocated c = ground arith

  session_ids-allocated : (c : ℕ) → p ≢ c → get_session_id allocated c ≡ get_session_id m c
  unfolding alloc_session
  session_ids-allocated c k = ground (arith, find-assign m.session_ids p c (next_session_id m))

  pub alloc-IsTaken : IsTaken m allocated p (next_session_id m)
  alloc-IsTaken = record {
    ready = alloc_session-IsReady h e;
    at = get_session_id-alloc_session h e;
    others = session_ids-allocated;
    new = find_new;
    only = λ c k. ground (arith, find_allocated (next_session_id m));
    rest = λ j k. ground (arith, find_allocated j);
    same_waits = waits-allocated;
    same_pooled = pooled-allocated;
  }

module _ {m n : MasterSessionManager} {p id : ℕ} (t : IsTaken m n p id)
    (lt : manager_of id < n.session_manager_count) where
  at_lt : manager_of (get_session_id n p) < n.session_manager_count
  at_lt = subst (λ x. manager_of x < n.session_manager_count) (sym t.at) lt

  find_given_back :
      (j : ℕ)
      → find_session (free_session n (some p)) j
        ≡ (if j == id then found none else find_session n j)
  find_given_back j = find_session-free_session n p j t.ready at_lt ∙ ground (arith, t.at)

  pub free-IsTaken : IsTaken m (free_session n (some p)) p id
  free-IsTaken = record {
    ready = free_session-IsReady t.ready p at_lt;
    at = free_session-session_ids n p p ∙ t.at;
    others = λ c k. free_session-session_ids n p c ∙ t.others c k;
    new = t.new;
    only = λ c k. ground (arith, find_given_back id);
    rest = λ j k. ground (arith, find_given_back j, t.rest j k);
    same_waits = λ c. waits-free_session n p c ∙ t.same_waits c;
    same_pooled = λ c. ground (arith, pooled-free_session n p c, t.same_pooled c);
  }

-- The services with session `p` taken from the pool and reset; its threads and the queue of packets
-- may be any.
abbrev pub joined :
    NetWorkServices
    → MasterSessionManager
    → ℕ
    → (ℕ → ℕ → ℕ)
    → (ℕ → List ℕ)
    → (ℕ → ℕ)
    → FixLenCircleBuf RecvPacket
    → NetWorkServices
joined s n p ids cs sent x = record s {
  sessions = n;
  thread_ids = ids;
  stops = λ r q. if p == q then 0 else s.stops r q;
  close_sent = sent;
  counts = cs;
  received = x;
}

module _ {s : NetWorkServices} {n : MasterSessionManager} {p id : ℕ} (ids : ℕ → ℕ → ℕ)
    (cs : ℕ → List ℕ) (sent : ℕ → ℕ) (x : FixLenCircleBuf RecvPacket)
    (same : (a c : ℕ) → p ≢ c → ids a c ≡ s.thread_ids a c) (h : IsSound s)
    (t : IsTaken s.sessions n p id) (calm : (a b : ℕ) → s.work a b ≢ all_stopped p) where
  abbrev after : NetWorkServices
  after = joined s n p ids cs sent x

  head_pooled : (waits s.sessions p ≡ 0) × (pooled s.sessions p ≡ 1) × (pooled n p ≡ 0)
  head_pooled = ground (arith, t.same_pooled p, h.separate p)

  joined_places : (c : ℕ) → (waits n c ≡ waits s.sessions c) × (waits s.sessions c ≡ 1 → p ≢ c)
  joined_places c = (t.same_waits c, λ k f. ground (arith, head_pooled))

  joined-owed : (a c : ℕ) → p ≢ c → owed after a c ≡ owed s a c
  joined-owed a c e = ground (arith, same a c e)

  joined-known :
      (j c : ℕ)
      → find_session n j ≡ found (some c)
      → (get_session_id n c ≡ j) × (waits n c + pooled n c ≡ 0)
  joined-known j c k = elim (Bool-cases (j == id)) [
    | inl e ↦ ground (arith, t.only c, t.at, head_pooled, t.same_waits p)
    | inr e ↦
        let (f, g) = h.known j c (sym (t.rest j (eqb→ne _ _ e)) ∙ k) in
        ground (arith, f, g, t.others c, head_pooled, t.same_waits c, t.same_pooled c)
  ]

  joined-IsClosing : (c : CloseWork) → IsClosing s.sessions c → IsClosing n c
  joined-IsClosing waiting k = tt
  joined-IsClosing crashed k = tt
  joined-IsClosing (found_one j q) k =
      t.rest j (λ e. t.new q (subst (λ y. find_session s.sessions y ≡ found (some q)) e k)) ∙ k
  joined-IsClosing (freed j q) (k, l) =
      (ground (arith, t.same_waits q, t.same_pooled q), λ i f. not_found q k l i f)
    where
      not_found :
          (c : ℕ)
          → waits s.sessions c + pooled s.sessions c ≡ 0
          → ((i : ℕ) → find_session s.sessions i ≢ found (some c))
          → (i : ℕ) → find_session n i ≢ found (some c)
      not_found c z u i f = elim (Bool-cases (i == id)) [
        | inl e ↦ ground (arith, t.only c, head_pooled)
        | inr e ↦ u i (sym (t.rest i (eqb→ne _ _ e)) ∙ f)
      ]
  joined-IsClosing (telling j q []) k = tt
  joined-IsClosing (telling j q (r ∷ rs)) (k, l) = (t.same_waits q ∙ k, l)

  joined-last : (c : ℕ) → IsLast s c → IsLast after c
  joined-last c k = k

  pub joined-IsSound : IsSound after
  joined-IsSound = record {
    ready = t.ready;
    known = joined-known;
    separate = λ c. ground (arith, t.same_waits c, t.same_pooled c, h.separate c);
    none_else = λ a b c k. ground (arith, t.same_waits c, h.none_else a b c);
    none_elsewhere = λ a b c k. elim (Bool-cases (p == c)) [
      | inl e ↦ h.none_else a b c (ground (arith, head_pooled))
      | inr e ↦ h.none_elsewhere a b c (λ f. k (f ∙ ground (arith, same a c (eqb→ne _ _ e))))
    ];
    few = h.few;
    once = λ a c k. ground (arith, joined_places c, joined-owed a c, h.once a c);
    told = λ a c k f l. ground (arith, joined_places c, joined-owed a c, h.told a c);
    in_use = λ a c k. ground (arith, t.same_waits c, t.same_pooled c, h.in_use a c);
    seen = λ a b c k. ground (arith, h.seen a b c, calm a b, t.same_waits c, t.same_pooled c);
    last = λ c k l. h.last c (sym (t.same_waits c) ∙ k) (ground (arith, joined_places c));
    closing = joined-IsClosing s.close_work h.closing;
  }

-- ===== src/Threads/Movers.antt =====
-- A thread that has read four flags hands the session back.
use linuxgameserver.Common.{
  leb, leb→le, ◌∙◌, ℕ, ◌+◌, ◌<◌, ◌≡◌, ◌≢◌, refl, sym, subst, inl, inr, Bool-cases, Option-cases,
  none, some, List, [], ◌∷◌, ◌++◌, if◌then◌else◌, ◌==◌, eqb→eq, eqb→ne, arith,
}
use linuxgameserver.Common.Maps.{find, erase, find-erase}
use linuxgameserver.SessionManager.{
  MasterSessionManager, free_session_to_pool, move_will_close_session_to_session_pool, find_session,
}
use linuxgameserver.SessionManager.Life.{occurrences, occurrences-append}
use linuxgameserver.Threads.{
  recv_role, send_role, epoll_role, CloseWork, waiting, crashed, found_one, freed, telling, idle,
  all_stopped, NetWorkServices, put, unbind, unbind_all,
}
use linuxgameserver.Threads.Closing.{work_from, thread_of, move_to_session_pool}
use linuxgameserver.Threads.Sound.{
  IsSound, has, owed, waits, pooled, holds, untold, IsLast, IsClosing,
}

-- The session finds nobody who waits for it: a report that comes late.
module _ {s : NetWorkServices} {r t p : ℕ} (h : IsSound s) (w : s.work r t ≡ all_stopped p) where
  abbrev rested : NetWorkServices
  rested = record s { work = put s.work r t idle }

  pub rested-has : (a b c : ℕ) → has rested a b c ≡ has s a b c
  unfolding holds
  rested-has a b c = ground arith

  rested-last : (c : ℕ) → p ≢ c → IsLast s c → IsLast rested c
  rested-last c e (a, b, inl f) = (a, b, inl (ground arith))
  rested-last c e (a, b, inr f) = (a, b, inr (ground arith))

  rested-IsSound : waits s.sessions p ≡ 0 → IsSound rested
  rested-IsSound z = record {
    ready = h.ready;
    known = h.known;
    separate = h.separate;
    none_else = λ a b c k. omega (arith, rested-has a b c, h.none_else a b c k);
    none_elsewhere = λ a b c k. omega (arith, rested-has a b c, h.none_elsewhere a b c k);
    few = λ a b c k. omega (arith, rested-has a b c, h.few a b c k);
    once = λ a c k. omega (arith, rested-has a (thread_of s a c) c, h.once a c k);
    told = λ a c k f l. omega (arith, rested-has a (thread_of s a c) c, h.told a c k f l);
    in_use = h.in_use;
    seen = λ a b c k. ground (arith, h.seen a b c);
    last = λ c k l. rested-last c (λ e. ground arith) (h.last c k l);
    closing = h.closing;
  }

abbrev moved : MasterSessionManager → ℕ → MasterSessionManager
moved m p = record m { queue_dirty = m.queue_dirty ++ (p ∷ []); will_reuse = erase m.will_reuse p }

pub waits-moved :
    (m : MasterSessionManager) (p q : ℕ) → waits (moved m p) q ≡ (if q == p then 0 else waits m q)
unfolding waits
waits-moved m p q = ground (arith, find-erase m.will_reuse p q)

pub pooled-moved :
    (m : MasterSessionManager) (p q : ℕ)
    → pooled (moved m p) q ≡ (if q == p then pooled m q + 1 else pooled m q)
unfolding pooled occurrences
pooled-moved m p q = ground (arith, occurrences-append q m.queue_dirty (p ∷ []))

find_session-moved :
    (m : MasterSessionManager) (p j : ℕ) → find_session (moved m p) j ≡ find_session m j
unfolding find_session
find_session-moved m p j = refl

unbind-thread_ids :
    (s : NetWorkServices) (r p a c : ℕ) → p ≢ c → (unbind s r p).thread_ids a c ≡ s.thread_ids a c
unfolding unbind
unbind-thread_ids s r p a c e = ground arith

-- The bindings without the session's: nothing else of the services changes.
unbind_same :
    (s : NetWorkServices) (r p : ℕ)
    → unbind s r p
      ≡ record s { thread_ids = (unbind s r p).thread_ids; counts = (unbind s r p).counts }
unfolding unbind
unbind_same s r p = ground arith

-- The session is put back into the pool, with any bindings `ids` for it.
abbrev handed : NetWorkServices → ℕ → ℕ → ℕ → (ℕ → ℕ → ℕ) → (ℕ → List ℕ) → NetWorkServices
handed s r t p ids cs = record s {
  sessions = moved s.sessions p;
  work = put s.work r t idle;
  thread_ids = ids;
  counts = cs;
}

module _ {s : NetWorkServices} {r t p : ℕ} (ids : ℕ → ℕ → ℕ) (cs : ℕ → List ℕ)
    (same : (a c : ℕ) → p ≢ c → ids a c ≡ s.thread_ids a c) (h : IsSound s)
    (w : s.work r t ≡ all_stopped p) (z : waits s.sessions p ≡ 1) where
  abbrev after : NetWorkServices
  after = handed s r t p ids cs

  handed-has : (a b c : ℕ) → has after a b c ≡ has s a b c
  unfolding holds
  handed-has a b c = ground arith

  handed-thread_of : (a c : ℕ) → p ≢ c → thread_of after a c ≡ thread_of s a c
  handed-thread_of a c e = ground (arith, same a c e)

  stop_of : (a : ℕ) → a < 4 → s.stops a p ≡ 1
  stop_of a l = ground (arith, (h.seen r t p w).1)

  nothing_owed : (a : ℕ) → a < 4 → has s a (thread_of s a p) p + untold s.close_work a p ≡ 0
  nothing_owed a l = omega (arith, stop_of a l, h.once a p z)

  none_has : (a b : ℕ) → has s a b p ≡ 0
  none_has a b = elim (Bool-cases (b == thread_of s a p)) [
    | inr e ↦ h.none_elsewhere a b p (eqb→ne _ _ e)
    | inl e ↦ elim (Bool-cases (leb 4 a)) [
      | inl f ↦ h.few a b p (leb→le _ _ f)
      | inr f ↦
          subst (λ x. has s a x p ≡ 0) (sym (eqb→eq _ _ e))
            (omega (arith, nothing_owed a (ground arith)))
    ]
  ]

  handed_places :
      (c : ℕ)
      → waits (moved s.sessions p) c + pooled (moved s.sessions p) c
        ≡ waits s.sessions c + pooled s.sessions c
  handed_places c = ground (arith, waits-moved s.sessions p c, pooled-moved s.sessions p c)

  handed_waits : (c : ℕ) → waits (moved s.sessions p) c ≡ 1 → (p ≢ c) × (waits s.sessions c ≡ 1)
  handed_waits c k = ground (arith, waits-moved s.sessions p c)

  handed-last : (c : ℕ) → p ≢ c → IsLast s c → IsLast after c
  handed-last c e (a, b, inl f) = (a, b, inl (ground arith))
  handed-last c e (a, b, inr f) = (a, b, inr (ground arith))

  pub handed-owed : (a c : ℕ) → p ≢ c → owed after a c ≡ owed s a c
  handed-owed a c e = ground (arith, same a c e, handed-has a (thread_of s a c) c)

  handed-none_elsewhere : (a b c : ℕ) → b ≢ thread_of after a c → has after a b c ≡ 0
  handed-none_elsewhere a b c k = elim (Bool-cases (p == c)) [
    | inl e ↦ handed-has a b c ∙ subst (λ x. has s a b x ≡ 0) (eqb→eq _ _ e) (none_has a b)
    | inr e ↦
        handed-has a b c
        ∙ h.none_elsewhere a b c (λ f. k (f ∙ sym (handed-thread_of a c (eqb→ne _ _ e))))
  ]

  -- The close thread has no more to tell about the session.
  telling_other : (id q a : ℕ) (rs : List ℕ) → s.close_work ≡ telling id q (a ∷ rs) → a < 4 → p ≢ q
  unfolding untold occurrences
  telling_other id q a rs e l f = ground (arith, nothing_owed a l)

  handed-IsClosing :
      (c : CloseWork) → s.close_work ≡ c → IsClosing s.sessions c → IsClosing (moved s.sessions p) c
  handed-IsClosing waiting e k = tt
  handed-IsClosing crashed e k = tt
  handed-IsClosing (found_one id q) e k = find_session-moved s.sessions p id ∙ k
  handed-IsClosing (freed id q) e (k, l) =
      (handed_places q ∙ k, λ j f. l j (sym (find_session-moved s.sessions p j) ∙ f))
  handed-IsClosing (telling id q []) e k = tt
  handed-IsClosing (telling id q (a ∷ rs)) e (k, (l, ls)) =
      (ground (arith, waits-moved s.sessions p q, telling_other id q a rs e l), (l, ls))

  handed-IsSound : IsSound after
  handed-IsSound = record {
    ready = record {
      all_there = h.ready.all_there;
      some_there = h.ready.some_there;
      few = h.ready.few;
      counted = h.ready.counted;
    };
    known = λ id c k.
        let (e, f) = h.known id c (sym (find_session-moved s.sessions p id) ∙ k) in
        (e, handed_places c ∙ f);
    separate = λ c. omega (arith, handed_places c, h.separate c);
    none_else = λ a b c k.
        ground
          (arith, handed-has a b c, waits-moved s.sessions p c, h.none_else a b c, none_has a b);
    none_elsewhere = handed-none_elsewhere;
    few = λ a b c k. omega (arith, handed-has a b c, h.few a b c k);
    once =
        λ a c k. let (ne, f) = handed_waits c k in omega (arith, handed-owed a c ne, h.once a c f);
    told = λ a c k f l.
        let (ne, g) = handed_waits c k in omega (arith, handed-owed a c ne, h.told a c g f l);
    in_use = λ a c k. h.in_use a c (sym (handed_places c) ∙ k);
    seen = λ a b c k. let (e, f) = h.seen a b c (ground arith) in (handed_places c ∙ e, f);
    last = λ c k l. let (ne, f) = handed_waits c k in handed-last c ne (h.last c f l);
    closing = handed-IsClosing s.close_work refl h.closing;
  }

pub unbind_all-thread_ids :
    (s : NetWorkServices) (p a c : ℕ) → p ≢ c → (unbind_all s p).thread_ids a c ≡ s.thread_ids a c
unfolding unbind_all
unbind_all-thread_ids s p a c e = ground (
  arith,
  unbind-thread_ids s epoll_role p a c e,
  unbind-thread_ids (unbind s epoll_role p) send_role p a c e,
  unbind-thread_ids (unbind (unbind s epoll_role p) send_role p) recv_role p a c e,
)

pub unbind_all_same :
    (s : NetWorkServices) (p : ℕ)
    → unbind_all s p
      ≡ record s { thread_ids = (unbind_all s p).thread_ids; counts = (unbind_all s p).counts }
unfolding unbind_all unbind
unbind_all_same s p = ground arith

pub work_from-handed :
    (s : NetWorkServices) (r t p q : ℕ)
    → find s.sessions.will_reuse p ≡ some q
    → work_from s r t (all_stopped p)
      ≡ handed s r t p (unbind_all s p).thread_ids (unbind_all s p).counts
unfolding work_from move_to_session_pool move_will_close_session_to_session_pool
    free_session_to_pool
work_from-handed s r t p q e = ground (arith, unbind_all_same s p)

pub work_from_late :
    (s : NetWorkServices) (r t p : ℕ)
    → find s.sessions.will_reuse p ≡ none
    → work_from s r t (all_stopped p) ≡ record s { work = put s.work r t idle }
unfolding work_from move_to_session_pool
work_from_late s r t p e = ground arith

pub moved-IsSound :
    {s : NetWorkServices} (r t p : ℕ)
    → IsSound s
    → s.work r t ≡ all_stopped p
    → IsSound (work_from s r t (all_stopped p))
unfolding waits
moved-IsSound {s = s} r t p h w = elim (Option-cases (find s.sessions.will_reuse p)) [
  | inl e ↦ subst IsSound (sym (work_from_late s r t p e)) (rested-IsSound h w (ground arith))
  | inr (q, e) ↦
      subst IsSound (sym (work_from-handed s r t p q e))
        (handed-IsSound _ _ (unbind_all-thread_ids s p) h w (ground arith))
]

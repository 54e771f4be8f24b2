-- ===== src/Threads/Workers.antt =====
-- The threads that stop a session keep the sessions sound.
use linuxgameserver.Common.{
  ℕ, ◌+◌, ◌≤◌, ◌≡◌, ◌≢◌, inl, inr, true, Bool-cases, List, [], ◌∷◌, if◌then◌else◌, ◌==◌, eqb→eq,
  eqb→ne, arith,
}
use linuxgameserver.SessionManager.Life.{occurrences}
use linuxgameserver.Threads.{send_role, idle, taken, stopped, all_stopped, NetWorkServices, put}
use linuxgameserver.Threads.Closing.{thread_of, all_stops, take_will_close, work_from}
use linuxgameserver.Threads.Sound.{IsSound, has, owed, waits, pooled, holds, IsLast}

abbrev took : NetWorkServices → ℕ → ℕ → ℕ → List ℕ → NetWorkServices
took s r t p q = record s { will_close = put s.will_close r t q; work = put s.work r t (taken p) }

module _ {s : NetWorkServices} {r t p : ℕ} {q : List ℕ} (h : IsSound s) (w : s.work r t ≡ idle)
    (e : s.will_close r t ≡ p ∷ q) where
  pub took-has : (r' t' p' : ℕ) → has (took s r t p q) r' t' p' ≡ has s r' t' p'
  unfolding occurrences holds
  took-has r' t' p' = ground arith

  took-last : (p' : ℕ) → IsLast s p' → IsLast (took s r t p q) p'
  took-last p' (a, b, inl k) = (a, b, inl (ground arith))
  took-last p' (a, b, inr k) = (a, b, inr (ground arith))

  took-IsSound : IsSound (took s r t p q)
  took-IsSound = record {
    ready = h.ready;
    known = h.known;
    separate = h.separate;
    none_else = λ a b c k. ground (arith, took-has a b c, h.none_else a b c);
    none_elsewhere = λ a b c k. ground (arith, took-has a b c, h.none_elsewhere a b c);
    few = λ a b c k. ground (arith, took-has a b c, h.few a b c);
    once = λ a c k. omega (arith, took-has a (thread_of s a c) c, h.once a c k);
    told = λ a c k f l. omega (arith, took-has a (thread_of s a c) c, h.told a c k f l);
    in_use = h.in_use;
    seen = λ a b c k. h.seen a b c (ground arith);
    last = λ c k l. took-last c (h.last c k l);
    closing = h.closing;
  }

-- The thread sets its flag of the session.
abbrev set_stop : NetWorkServices → ℕ → ℕ → ℕ → NetWorkServices
set_stop s r t p = record s { stops = put s.stops r p 1; work = put s.work r t (stopped p) }

module _ {s : NetWorkServices} {r t p : ℕ} (h : IsSound s) (w : s.work r t ≡ taken p) where
  taken-has : 1 ≤ has s r t p
  unfolding holds
  taken-has = ground arith

  taken-waits : waits s.sessions p ≡ 1
  taken-waits = ground (arith, taken-has, h.none_else r t p, h.separate p)

  taken_at : t ≡ thread_of s r p
  taken_at = elim (Bool-cases (t == thread_of s r p)) [
    | inl e ↦ eqb→eq _ _ e
    | inr e ↦ absurd (omega (arith, taken-has, h.none_elsewhere r t p (eqb→ne _ _ e)))
  ]

  taken_once : (has s r t p ≡ 1) × (s.stops r p ≡ 0)
  taken_once = ground (arith, taken-has, taken-waits, taken_at, h.once r p)

  set_stop-has :
      (a b c : ℕ)
      → has s a b c
        ≡ has (set_stop s r t p) a b c
          + (if r == a then (if t == b then (if p == c then 1 else 0) else 0) else 0)
  unfolding holds
  set_stop-has a b c = ground arith

  pub set_stop-owed : (a c : ℕ) → owed (set_stop s r t p) a c ≡ owed s a c
  set_stop-owed a c = ground (arith, set_stop-has a (thread_of s a c) c, taken_at, taken_once)

  set_stop_other : (c : ℕ) → p ≢ c → IsLast s c → IsLast (set_stop s r t p) c
  set_stop_other c e (a, b, inl f) = (a, b, inl (ground arith))
  set_stop_other c e (a, b, inr f) = (a, b, inr (ground arith))

  set_stop-last :
      (c : ℕ)
      → waits s.sessions c ≡ 1
      → all_stops (set_stop s r t p) c ≡ true
      → IsLast (set_stop s r t p) c
  set_stop-last c k l = elim (Bool-cases (p == c)) [
    | inl e ↦ (r, t, inl (ground arith))
    | inr e ↦ set_stop_other c (eqb→ne _ _ e) (h.last c k (ground arith))
  ]

  set_stop-IsSound : IsSound (set_stop s r t p)
  set_stop-IsSound = record {
    ready = h.ready;
    known = h.known;
    separate = h.separate;
    none_else = λ a b c k. omega (arith, set_stop-has a b c, h.none_else a b c k);
    none_elsewhere = λ a b c k. omega (arith, set_stop-has a b c, h.none_elsewhere a b c k);
    few = λ a b c k. omega (arith, set_stop-has a b c, h.few a b c k);
    once = λ a c k. omega (arith, set_stop-owed a c, h.once a c k);
    told = λ a c k f l. omega (arith, set_stop-owed a c, h.told a c k f l);
    in_use = λ a c k. ground (arith, h.in_use a c k, taken-waits);
    seen = λ a b c k. ground (arith, h.seen a b c);
    last = set_stop-last;
    closing = h.closing;
  }

-- The thread has read the four flags.
abbrev read_stops : NetWorkServices → ℕ → ℕ → ℕ → NetWorkServices
read_stops s r t p = record s {
  work = put s.work r t (if all_stops s p then all_stopped p else idle);
}

module _ {s : NetWorkServices} {r t p : ℕ} (h : IsSound s) (w : s.work r t ≡ stopped p) where
  pub read_stops-has : (a b c : ℕ) → has (read_stops s r t p) a b c ≡ has s a b c
  unfolding holds
  read_stops-has a b c = elim (Bool-cases (all_stops s p)) [
    | inl e ↦ ground arith
    | inr e ↦ ground arith
  ]

  read_stops-places : all_stops s p ≡ true → waits s.sessions p + pooled s.sessions p ≡ 1
  read_stops-places e = ground (arith, h.in_use send_role p, h.separate p)

  read_stops-last : (c : ℕ) → all_stops s c ≡ true → IsLast s c → IsLast (read_stops s r t p) c
  read_stops-last c l (a, b, inl f) = elim (Bool-cases (p == c)) [
    | inl e ↦ (r, t, inr (ground arith))
    | inr e ↦ (a, b, inl (ground arith))
  ]
  read_stops-last c l (a, b, inr f) = (a, b, inr (ground arith))

  read_stops-seen :
      (a b c : ℕ)
      → (read_stops s r t p).work a b ≡ all_stopped c
      → (waits s.sessions c + pooled s.sessions c ≡ 1) × (all_stops s c ≡ true)
  read_stops-seen a b c k = elim (Bool-cases (all_stops s p)) [
    | inl e ↦ ground (arith, read_stops-places e, h.seen a b c)
    | inr e ↦ ground (arith, h.seen a b c)
  ]

  read_stops-IsSound : IsSound (read_stops s r t p)
  read_stops-IsSound = record {
    ready = h.ready;
    known = h.known;
    separate = h.separate;
    none_else = λ a b c k. omega (arith, read_stops-has a b c, h.none_else a b c k);
    none_elsewhere = λ a b c k. omega (arith, read_stops-has a b c, h.none_elsewhere a b c k);
    few = λ a b c k. omega (arith, read_stops-has a b c, h.few a b c k);
    once = λ a c k. omega (arith, read_stops-has a (thread_of s a c) c, h.once a c k);
    told = λ a c k f l. omega (arith, read_stops-has a (thread_of s a c) c, h.told a c k f l);
    in_use = h.in_use;
    seen = read_stops-seen;
    last = λ c k l. read_stops-last c l (h.last c k l);
    closing = h.closing;
  }

-- Every step of a thread that stops sessions, but the last.
pub taken-IsSound :
    {s : NetWorkServices} (r t : ℕ) (q : List ℕ)
    → IsSound s
    → s.work r t ≡ idle
    → s.will_close r t ≡ q
    → IsSound (take_will_close s r t q)
unfolding take_will_close
taken-IsSound r t [] h w e = h
taken-IsSound r t (p ∷ q) h w e = took-IsSound h w e

pub stopped-IsSound :
    {s : NetWorkServices} (r t p : ℕ)
    → IsSound s
    → s.work r t ≡ taken p
    → IsSound (work_from s r t (taken p))
unfolding work_from
stopped-IsSound r t p h w = set_stop-IsSound h w

pub read-IsSound :
    {s : NetWorkServices} (r t p : ℕ)
    → IsSound s
    → s.work r t ≡ stopped p
    → IsSound (work_from s r t (stopped p))
unfolding work_from
read-IsSound r t p h w = read_stops-IsSound h w

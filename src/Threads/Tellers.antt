-- ===== src/Threads/Tellers.antt =====
-- The close thread tells the other threads of a session, and reports it as closed.
use linuxgameserver.Common.{
  ℕ, ◌+◌, ◌≤◌, ◌≡◌, refl, sym, subst, inl, inr, ◌⊎◌, true, false, Bool-cases, List, [], ◌∷◌, ◌++◌,
  if◌then◌else◌, ◌==◌, ltb, leb, length, ◌&&◌, arith,
}
use linuxgameserver.CircleBuf.Queue.{add}
use linuxgameserver.SessionManager.Life.{occurrences, occurrences-append}
use linuxgameserver.Threads.{
  CloseWork, waiting, crashed, found_one, freed, telling, NetWorkServices, put, is_no_error,
}
use linuxgameserver.Threads.Closing.{
  thread_of, add_will_close_session, commit_disconnect, close_from, is_there,
}
use linuxgameserver.Threads.Sound.{IsSound, has, owed, waits, untold, IsClosing, AreRoles}
use linuxgameserver.Threads.Freeing.{claimed-IsSound, taken_id-IsSound, free-IsSound}
use linuxgameserver.Threads.Closer.{retire-IsSound}

-- A session that is added, or a full queue.
pub add_one :
    (cap : ℕ) (q : List ℕ) (p : ℕ)
    → (((is_no_error (add cap q (p ∷ [])).0 ≡ true) × ((add cap q (p ∷ [])).1 ≡ q ++ (p ∷ [])))
        ⊎ ((is_no_error (add cap q (p ∷ [])).0 ≡ false) × ((add cap q (p ∷ [])).1 ≡ q)))
unfolding add is_no_error
add_one cap q p = elim (Bool-cases (ltb (length q) cap && leb (length q + 1) cap)) [
  | inl e ↦ inl (ground arith, ground arith)
  | inr e ↦ inr (ground arith, ground arith)
]

abbrev notified : NetWorkServices → ℕ → ℕ → ℕ → List ℕ → List ℕ → ℕ → NetWorkServices
notified s r id p rs q f = record s {
  will_close = put s.will_close r (thread_of s r p) q;
  failures = f;
  close_work = telling id p rs;
}

module _ {s : NetWorkServices} {id p r : ℕ} {rs : List ℕ} (h : IsSound s)
    (w : s.close_work ≡ telling id p (r ∷ rs)) where
  waits_told : waits s.sessions p ≡ 1
  waits_told = (subst (IsClosing s.sessions) w h.closing).0

  are_roles : AreRoles (r ∷ rs)
  are_roles = (subst (IsClosing s.sessions) w h.closing).1

  rest_told : (qs : List ℕ) → qs ≡ rs → AreRoles qs → IsClosing s.sessions (telling id p qs)
  rest_told [] e a = tt
  rest_told (q ∷ qs) e a = (waits_told, a)

  untold-notified :
      (a c : ℕ)
      → untold s.close_work a c
        ≡ untold (telling id p rs) a c + (if p == c then (if a == r then 1 else 0) else 0)
  unfolding untold occurrences
  untold-notified a c = ground arith

  module _ (q : List ℕ) (f : ℕ) (n : ℕ)
      (e : (c : ℕ)
        → occurrences c q
          ≡ occurrences c (s.will_close r (thread_of s r p)) + (if p == c then n else 0))
      (le : n ≤ 1) where
    abbrev after : NetWorkServices
    after = notified s r id p rs q f

    notified-has :
        (a b c : ℕ)
        → has after a b c
          ≡ has s a b c
            + (if p == c
                then (if a == r then (if b == thread_of s r p then n else 0) else 0)
                else 0)
    notified-has a b c = ground (arith, e c)

    pub notified-owed :
        (a c : ℕ)
        → owed after a c + (if p == c then (if a == r then 1 else 0) else 0)
          ≡ owed s a c + (if p == c then (if a == r then n else 0) else 0)
    notified-owed a c = ground (arith, untold-notified a c, notified-has a (thread_of s a c) c)

    notified-IsSound : (s.failures ≤ f) → (f ≡ 0 → n ≡ 1) → IsSound after
    notified-IsSound grow one = record {
      ready = h.ready;
      known = h.known;
      separate = h.separate;
      none_else = λ a b c k. ground (arith, notified-has a b c, h.none_else a b c, waits_told);
      none_elsewhere = λ a b c k. ground (arith, notified-has a b c, h.none_elsewhere a b c);
      few = λ a b c k. ground (arith, notified-has a b c, h.few a b c, are_roles.0);
      once = λ a c k. ground (arith, notified-owed a c, h.once a c k);
      told = λ a c k l m. ground (arith, notified-owed a c, h.told a c k);
      in_use = h.in_use;
      seen = h.seen;
      last = λ c k l. h.last c k l;
      closing = rest_told rs refl are_roles.1;
    }

  added-IsSound : IsSound (record (add_will_close_session s r p) { close_work = telling id p rs })
  unfolding add_will_close_session occurrences
  added-IsSound = elim (add_one (s.capacity r) (s.will_close r (thread_of s r p)) p) [
    | inl (a, b) ↦
        notified-IsSound _ _ 1
          (λ c. ground (arith, b, occurrences-append c (s.will_close r (thread_of s r p)) (p ∷ [])))
          (omega arith) (ground arith) (λ z. refl)
    | inr (a, b) ↦
        notified-IsSound _ _ 0 (λ c. ground (arith, b)) (omega arith) (ground arith)
          (λ z. ground arith)
  ]

pub close_from_there :
    (s : NetWorkServices) (id p r : ℕ) (rs : List ℕ)
    → is_there s r p ≡ true
    → close_from s (telling id p (r ∷ rs))
      ≡ record (add_will_close_session s r p) { close_work = telling id p rs }
unfolding close_from
close_from_there s id p r rs e = ground arith

pub close_from_crash :
    (s : NetWorkServices) (id p r : ℕ) (rs : List ℕ)
    → is_there s r p ≡ false
    → close_from s (telling id p (r ∷ rs)) ≡ s
unfolding close_from
close_from_crash s id p r rs e = ground arith

told-IsSound :
    {s : NetWorkServices} (id p r : ℕ) (rs : List ℕ)
    → IsSound s
    → s.close_work ≡ telling id p (r ∷ rs)
    → IsSound (close_from s (telling id p (r ∷ rs)))
told-IsSound {s = s} id p r rs h w = elim (Bool-cases (is_there s r p)) [
  | inl e ↦ subst IsSound (sym (close_from_there s id p r rs e)) (added-IsSound h w)
  | inr e ↦ subst IsSound (sym (close_from_crash s id p r rs e)) h
]

pub commit_disconnect_lem :
    (s : NetWorkServices) (id : ℕ)
    → commit_disconnect s id ≡ record s {
      disconnects = (commit_disconnect s id).disconnects;
      received = (commit_disconnect s id).received;
    }
unfolding commit_disconnect
commit_disconnect_lem s id = ground arith

committed-IsSound :
    {s : NetWorkServices} (id p : ℕ)
    → IsSound s
    → s.close_work ≡ telling id p []
    → IsSound (close_from s (telling id p []))
unfolding close_from untold occurrences
committed-IsSound {s = s} id p h w =
    subst (λ n. IsSound (record n { close_work = waiting })) (sym (commit_disconnect_lem s id))
      (claimed-IsSound s.need_to_close waiting (commit_disconnect s id).disconnects
        (commit_disconnect s id).received h (λ a c. ground arith) tt)

-- Every step of the close thread.
pub close_from-IsSound :
    {s : NetWorkServices} (c : CloseWork) → IsSound s → s.close_work ≡ c → IsSound (close_from s c)
unfolding close_from
close_from-IsSound {s = s} waiting h w = taken_id-IsSound s.need_to_close h w
close_from-IsSound (found_one id p) h w = free-IsSound h w
close_from-IsSound (freed id p) h w = retire-IsSound h w
close_from-IsSound (telling id p []) h w = committed-IsSound id p h w
close_from-IsSound (telling id p (r ∷ rs)) h w = told-IsSound id p r rs h w
close_from-IsSound crashed h w = h

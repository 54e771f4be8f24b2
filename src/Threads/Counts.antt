-- ===== src/Threads/Counts.antt =====
-- The counts of the threads are the numbers of the sessions that are bound to them.
use linuxgameserver.Common.{
  ℕ, zero, suc, ◌^◌, ◌≤◌, ◌<◌, ◌≡◌, refl, sym, subst, inl, inr, Bool, true, false, Bool-cases, List,
  [], ◌∷◌, ◌==◌, leb, leb→le, eqb→eq, eqb→ne, length, arith,
}
use linuxgameserver.Common.Words.{int_add, int_sub, int_add_small, int_sub_small}
use linuxgameserver.SessionManager.{most}
use linuxgameserver.SessionManager.Life.{occurrences}
use linuxgameserver.Threads.{
  recv_role, send_role, epoll_role, NetWorkServices, no_thread, select_thread, bind, unbind,
  bind_recv_thread, bind_send_thread, bind_epoll_thread,
}
use linuxgameserver.Threads.Binding.{bound_to, AreCounts, bound_to-most, bind_lem}
use linuxgameserver.Threads.Recount.{
  IsCounted, select-cases, rebound, bound_sessions-put, rebound-IsCounted, rebound_other,
}

all-IsCounted :
    {ps : List ℕ} {s : NetWorkServices} (r p v t : ℕ) (f : ℕ → ℕ)
    → ((a : ℕ) → IsCounted ps s a)
    → IsCounted ps (rebound s r p v t f) r
    → (a : ℕ) → IsCounted ps (rebound s r p v t f) a
all-IsCounted r p v t f h k a = elim (Bool-cases (r == a)) [
  | inl e ↦ subst (IsCounted _ _) (eqb→eq r a e) k
  | inr e ↦ rebound_other r p v t f (eqb→ne r a e) (h a)
]

bind_refused :
    (s : NetWorkServices) (r p : ℕ) (g : ℕ → Bool)
    → select_thread s r ≡ no_thread
    → g no_thread ≡ true
    → bind s r p g ≡ (false, s)
unfolding bind
bind_refused s r p g c k = ground arith

bound_to-AreCounts : (ns : List ℕ) (t : ℕ) → AreCounts ns → bound_to ns t ≤ most
bound_to-AreCounts [] t h = omega arith
bound_to-AreCounts (n ∷ ns) zero (l, h) = l
bound_to-AreCounts (n ∷ ns) (suc t) (l, h) = bound_to-AreCounts ns t h

bind-IsCounted :
    {ps : List ℕ} {s : NetWorkServices} (r p : ℕ) (g : ℕ → Bool)
    → ((a : ℕ) → IsCounted ps s a)
    → occurrences p ps ≡ 1
    → s.thread_ids r p ≡ no_thread
    → g no_thread ≡ true
    → ((t : ℕ) → t < length (s.counts r) → g t ≡ false)
    → (a : ℕ) → IsCounted ps (bind s r p g).1 a
bind-IsCounted {ps = ps} {s = s} r p g h e z no_one one a =
    elim (select-cases (s.counts r) (h r).small) [
      | inl c ↦ subst (λ x. IsCounted ps x.1 a) (sym (bind_refused s r p g c no_one)) (h a)
      | inr (t, c, l) ↦
          let lt : t < length (s.counts r) = bound_to-most (s.counts r) t l in
          subst (λ x. IsCounted ps x.1 a) (sym (bind_lem s r p t g c (one t lt)))
            (all-IsCounted r p t t (λ n. int_add n 1) h
              (rebound-IsCounted (h r) p t t (λ n. int_add n 1) e
                (omega (arith, int_add_small (bound_to (s.counts r) t) 1 (omega arith))) lt
                (λ j k.
                  ground
                    (arith, (h r).short, int_add_small (bound_to (s.counts r) t) 1 (omega arith))))
              a)
    ]

unbind_lem :
    (s : NetWorkServices) (r p : ℕ)
    → s.thread_ids r p < length (s.counts r)
    → length (s.counts r) < 2 ^ 16
    → unbind s r p ≡ rebound s r p no_thread (s.thread_ids r p) (λ n. int_sub n 1)
unfolding unbind
unbind_lem s r p l k = ground arith

unbind_none :
    (s : NetWorkServices) (r p : ℕ) → length (s.counts r) ≤ s.thread_ids r p → unbind s r p ≡ s
unfolding unbind
unbind_none s r p l = ground arith

unbind-IsCounted :
    {ps : List ℕ} {s : NetWorkServices} (r p : ℕ)
    → ((a : ℕ) → IsCounted ps s a)
    → occurrences p ps ≡ 1
    → (a : ℕ) → IsCounted ps (unbind s r p) a
unbind-IsCounted {ps = ps} {s = s} r p h e a =
    let t = s.thread_ids r p in
    let n = bound_to (s.counts r) t in
    elim (Bool-cases (leb (length (s.counts r)) t)) [
      | inl l ↦ subst (λ x. IsCounted ps x a) (sym (unbind_none s r p (leb→le _ _ l))) (h a)
      | inr l ↦
          let lt : t < length (s.counts r) = ground arith in
          let one : 1 ≤ n = ground (
            arith,
            bound_sessions-put s.thread_ids r p no_thread t ps e,
            (h r).exact t lt,
            lt,
            (h r).short,
          ) in
          let top : n ≤ most = bound_to-AreCounts (s.counts r) t (h r).small in
          subst (λ x. IsCounted ps x a) (sym (unbind_lem s r p lt (h r).short))
            (all-IsCounted r p no_thread t (λ x. int_sub x 1) h
              (rebound-IsCounted (h r) p no_thread t (λ x. int_sub x 1) e
                (omega (arith, int_sub_small n 1 one (omega arith))) lt
                (λ j k. ground (arith, (h r).short, int_sub_small n 1 one (omega arith))))
              a)
    ]

-- Sessions are bound to threads and unbound again; only a session without a thread is bound.
pub data BindStep (ps : List ℕ) : NetWorkServices → NetWorkServices → Type 0 where
  binds_recv :
      (s : NetWorkServices) (p : ℕ)
      → occurrences p ps ≡ 1
      → s.thread_ids recv_role p ≡ no_thread
      → BindStep ps s (bind_recv_thread s p).1
  binds_send :
      (s : NetWorkServices) (p : ℕ)
      → occurrences p ps ≡ 1
      → s.thread_ids send_role p ≡ no_thread
      → BindStep ps s (bind_send_thread s p).1
  binds_epoll :
      (s : NetWorkServices) (p : ℕ)
      → occurrences p ps ≡ 1
      → s.thread_ids epoll_role p ≡ no_thread
      → BindStep ps s (bind_epoll_thread s p).1
  unbinds : (s : NetWorkServices) (r p : ℕ) → occurrences p ps ≡ 1 → BindStep ps s (unbind s r p)

pub data BindSteps (ps : List ℕ) : NetWorkServices → NetWorkServices → Type 0 where
  stop : (s : NetWorkServices) → BindSteps ps s s
  next :
      {s n : NetWorkServices} (o : NetWorkServices)
      → BindStep ps s n
      → BindSteps ps n o
      → BindSteps ps s o

BindStep-IsCounted :
    {ps : List ℕ} {s n : NetWorkServices}
    → BindStep ps s n
    → ((r : ℕ) → IsCounted ps s r)
    → (r : ℕ) → IsCounted ps n r
BindStep-IsCounted (binds_recv s p e z) h =
    bind-IsCounted recv_role p _ h e z refl (λ t l. ground (arith, (h recv_role).short))
BindStep-IsCounted (binds_send s p e z) h =
    bind-IsCounted send_role p _ h e z refl (λ t l. ground (arith, (h send_role).short))
BindStep-IsCounted (binds_epoll s p e z) h =
    bind-IsCounted epoll_role p _ h e z refl (λ t l. ground (arith, (h epoll_role).short))
BindStep-IsCounted (unbinds s r p e) h = unbind-IsCounted r p h e

-- In whatever order sessions are bound to threads and unbound, the count of each thread is the number
-- of the sessions that name it. Only a session without a thread of the kind is bound.
pub bind_steps-IsCounted :
    {ps : List ℕ} {s n : NetWorkServices}
    → BindSteps ps s n
    → ((r : ℕ) → IsCounted ps s r)
    → (r : ℕ) → IsCounted ps n r
bind_steps-IsCounted (stop s) h = h
bind_steps-IsCounted (next o a rest) h = bind_steps-IsCounted rest (BindStep-IsCounted a h)

-- ===== src/Threads/Recount.antt =====
-- A change of one binding and one count of a thread.
use linuxgameserver.Common.{
  ℕ, zero, suc, ◌+◌, ◌^◌, ◌≤◌, ◌<◌, ◌≡◌, ◌≢◌, refl, sym, subst, ap, ◌∙◌, ◌⊎◌, inl, inr, false, List,
  [], ◌∷◌, ◌==◌, if◌then◌else◌, eq→eqb, ne→eqb, length, map, arith,
}
use linuxgameserver.SessionManager.{most}
use linuxgameserver.SessionManager.Select.{select_from_least}
use linuxgameserver.SessionManager.Life.{occurrences}
use linuxgameserver.Threads.{NetWorkServices, no_thread, select_from, change, put, recount}
use linuxgameserver.Threads.Binding.{
  bound_to, AreCounts, bound_to-change, bound_sessions, bound_sessions-change, as_manager,
  select_from_same, load-as_manager, as_manager-AllCounts,
}

-- `ps` are the addresses of all sessions.
pub record IsCounted (ps : List ℕ) (s : NetWorkServices) (r : ℕ) : Type 0 where
  pub small : AreCounts (s.counts r)
  pub short : length (s.counts r) < 2 ^ 16
  pub exact :
      (t : ℕ)
      → t < length (s.counts r)
      → bound_to (s.counts r) t ≡ bound_sessions (s.thread_ids r) t ps

length-change : (ns : List ℕ) (t : ℕ) (f : ℕ → ℕ) → length (change ns t f) ≡ length ns
unfolding change
length-change [] t f = refl
length-change (n ∷ ns) zero f = refl
length-change (n ∷ ns) (suc t) f = ap suc (length-change ns t f)

change-AreCounts :
    (ns : List ℕ) (t : ℕ) (f : ℕ → ℕ)
    → AreCounts ns
    → (t < length ns → f (bound_to ns t) ≤ most)
    → AreCounts (change ns t f)
unfolding change
change-AreCounts [] t f h k = tt
change-AreCounts (n ∷ ns) zero f (l, h) k = (k (omega arith), h)
change-AreCounts (n ∷ ns) (suc t) f (l, h) k = (l, change-AreCounts ns t f h (λ i. k (omega arith)))

-- No thread, or one with room.
pub select-cases :
    (ns : List ℕ)
    → AreCounts ns
    → (select_from ns 0 no_thread most ≡ no_thread)
      ⊎ ((t : ℕ) × (select_from ns 0 no_thread most ≡ t) × (bound_to ns t < most))
select-cases ns h =
    elim (select_from_least (map as_manager ns) 0 no_thread most (as_manager-AllCounts ns h)
      (omega arith)) [
        | inl (r, a) ↦ inl (select_from_same ns 0 no_thread most ∙ r)
        | inr (k, r, a, b) ↦ inr (
          k,
          select_from_same ns 0 no_thread most ∙ r ∙ omega arith,
          subst (λ x. x < most) (load-as_manager ns k) b,
        )
      ]

-- Session `p` moves to `v`, and `f` changes the count of thread `t`.
abbrev pub rebound : NetWorkServices → ℕ → ℕ → ℕ → ℕ → (ℕ → ℕ) → NetWorkServices
rebound s r p v t f = record s { thread_ids = put s.thread_ids r p v; counts = recount s r t f }

pub bound_sessions-put :
    (ids : ℕ → ℕ → ℕ) (r p v t : ℕ) (ps : List ℕ)
    → occurrences p ps ≡ 1
    → bound_sessions (put ids r p v r) t ps + (if ids r p == t then 1 else 0)
      ≡ bound_sessions (ids r) t ps + (if v == t then 1 else 0)
bound_sessions-put ids r p v t ps e =
    ap
      (λ b.
        bound_sessions (λ q. if b then (if p == q then v else ids r q) else ids r q) t ps
        + (if ids r p == t then 1 else 0))
      (eq→eqb r r refl)
    ∙ bound_sessions-change (ids r) p v t ps e

recount_at :
    (s : NetWorkServices) (r t : ℕ) (f : ℕ → ℕ) → recount s r t f r ≡ change (s.counts r) t f
recount_at s r t f = ap (λ b. if b then change (s.counts r) t f else s.counts r) (eq→eqb r r refl)

module _ {ps : List ℕ} {s : NetWorkServices} {r : ℕ} (h : IsCounted ps s r) (p v t : ℕ) (f : ℕ → ℕ)
    (e : occurrences p ps ≡ 1) (small : f (bound_to (s.counts r) t) ≤ most)
    (lt : t < length (s.counts r))
    (k : (j : ℕ)
      → j < length (s.counts r)
      → (if t == j then f (bound_to (s.counts r) t) else bound_to (s.counts r) j)
          + (if s.thread_ids r p == j then 1 else 0)
        ≡ bound_to (s.counts r) j + (if v == j then 1 else 0)) where
  rebound_length : length (recount s r t f r) ≡ length (s.counts r)
  rebound_length = ap length (recount_at s r t f) ∙ length-change (s.counts r) t f

  pub rebound-IsCounted : IsCounted ps (rebound s r p v t f) r
  rebound-IsCounted = record {
    small =
        subst AreCounts (sym (recount_at s r t f))
          (change-AreCounts (s.counts r) t f h.small (λ i. small));
    short = omega (arith, rebound_length, h.short);
    exact = λ j l.
        let l' : j < length (s.counts r) = omega (arith, l, rebound_length) in
        let a : bound_to (recount s r t f r) j ≡ bound_to (change (s.counts r) t f) j =
          ap (λ ns. bound_to ns j) (recount_at s r t f) in
        omega (
          arith,
          a,
          bound_to-change (s.counts r) t j f lt,
          bound_sessions-put s.thread_ids r p v j ps e,
          k j l',
          h.exact j l',
        );
  }

-- What happens to the threads of another kind.
pub rebound_other :
    {ps : List ℕ} {s : NetWorkServices} {a : ℕ} (r p v t : ℕ) (f : ℕ → ℕ)
    → r ≢ a
    → IsCounted ps s a
    → IsCounted ps (rebound s r p v t f) a
rebound_other {ps = ps} {s = s} {a = a} r p v t f ne h = record {
  small = subst AreCounts (sym same) h.small;
  short = subst (λ ns. length ns < 2 ^ 16) (sym same) h.short;
  exact = λ j l.
      ap (λ ns. bound_to ns j) same
      ∙ h.exact j (subst (λ ns. j < length ns) same l)
      ∙ ap
          (λ b.
            bound_sessions
              (λ q. if b then (if p == q then v else s.thread_ids a q) else s.thread_ids a q) j ps)
          (sym other);
}
  where
    other : (r == a) ≡ false
    other = ne→eqb r a ne

    same : recount s r t f a ≡ s.counts a
    same = ap (λ b. if b then change (s.counts r) t f else s.counts a) other

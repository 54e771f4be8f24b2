-- ===== src/Threads/Binding.antt =====
-- The choice of a thread for a session (`SelectRecvThread` and its like), and its counts.
use linuxgameserver.Common.{
  ℕ, zero, suc, ◌+◌, ◌^◌, ◌≤◌, ◌<◌, ◌≡◌, refl, sym, subst, ◌∙◌, inl, inr, Bool, true, false, some,
  none, List, [], ◌∷◌, ◌==◌, if◌then◌else◌, length, get_elem?, map, arith,
}
use linuxgameserver.Common.Words.{int_add, int_add_small}
use linuxgameserver.SessionManager
use linuxgameserver.SessionManager.{SessionManager, most}
use linuxgameserver.SessionManager.Select.{load, AllCounts, select_from_least}
use linuxgameserver.SessionManager.Life.{occurrences}
use linuxgameserver.Threads.{
  NetWorkServices, no_thread, select_from, select_thread, change, put, recount, bind,
  bind_recv_thread, recv_role, send_role, epoll_role, bind_send_thread, bind_epoll_thread,
}

-- The sessions bound to a thread, `most` where there is none.
abbrev pub bound_to : List ℕ → ℕ → ℕ
bound_to ns t = elim (get_elem? ns t) [ some n ↦ n | none ↦ most ]

abbrev pub AreCounts : List ℕ → Type 0
AreCounts [] = Unit
AreCounts (n ∷ ns) = (n ≤ most) × AreCounts ns

-- A count as a manager of that many sessions: the choice is that of a manager for a session.
abbrev pub as_manager : ℕ → SessionManager
as_manager n = record { sessions = []; current_session_managered = n }

pub select_from_same :
    (ns : List ℕ) (i best least : ℕ)
    → select_from ns i best least ≡ SessionManager.select_from (map as_manager ns) i best least
unfolding select_from SessionManager.select_from
select_from_same [] i best least = refl
select_from_same (n ∷ ns) i best least =
    ground (arith, select_from_same ns (suc i) i n, select_from_same ns (suc i) best least)

pub load-as_manager : (ns : List ℕ) (t : ℕ) → load (map as_manager ns) t ≡ bound_to ns t
load-as_manager [] t = refl
load-as_manager (n ∷ ns) zero = refl
load-as_manager (n ∷ ns) (suc t) = load-as_manager ns t

pub as_manager-AllCounts : (ns : List ℕ) → AreCounts ns → AllCounts (map as_manager ns)
as_manager-AllCounts [] h = tt
as_manager-AllCounts (n ∷ ns) (l, h) = (l, as_manager-AllCounts ns h)

pub bound_to-most : (ns : List ℕ) (t : ℕ) → bound_to ns t < most → t < length ns
bound_to-most [] t h = absurd (omega arith)
bound_to-most (n ∷ ns) zero h = omega arith
bound_to-most (n ∷ ns) (suc t) h = omega (arith, bound_to-most ns t h)

-- When a thread has room, some thread is chosen, and none has fewer sessions.
pub select_from-least :
    (ns : List ℕ) (i : ℕ)
    → AreCounts ns
    → bound_to ns i < most
    → (t : ℕ) × (select_from ns 0 no_thread most ≡ t)
      × (bound_to ns t < most)
      × ((j : ℕ) → bound_to ns t ≤ bound_to ns j)
select_from-least ns i h l =
    elim (select_from_least (map as_manager ns) 0 no_thread most (as_manager-AllCounts ns h)
      (omega arith)) [
        | inl (r, a) ↦ absurd (omega (arith, a i, l, load-as_manager ns i))
        | inr (k, r, a, b) ↦ (
          k,
          select_from_same ns 0 no_thread most ∙ r ∙ omega arith,
          subst (λ x. x < most) (load-as_manager ns k) b,
          λ j. omega (arith, a j, load-as_manager ns j, load-as_manager ns k),
        )
      ]

pub bound_to-change :
    (ns : List ℕ) (t j : ℕ) (f : ℕ → ℕ)
    → t < length ns
    → bound_to (change ns t f) j ≡ (if t == j then f (bound_to ns t) else bound_to ns j)
unfolding change
bound_to-change [] t j f h = absurd (omega arith)
bound_to-change (n ∷ ns) zero zero f h = refl
bound_to-change (n ∷ ns) zero (suc j) f h = ground arith
bound_to-change (n ∷ ns) (suc t) zero f h = ground arith
bound_to-change (n ∷ ns) (suc t) (suc j) f h =
    ground (arith, bound_to-change ns t j f (omega arith))

pub bind_lem :
    (s : NetWorkServices) (r p t : ℕ) (f : ℕ → Bool)
    → select_thread s r ≡ t
    → f t ≡ false
    → bind s r p f ≡ (
      true,
      record s { thread_ids = put s.thread_ids r p t; counts = recount s r t (λ n. int_add n 1) },
    )
unfolding bind
bind_lem s r p t f e g = ground arith

-- Session `p` has got a thread of the kind `r` with the fewest sessions, and its count is one more.
abbrev pub IsBound : NetWorkServices → ℕ → ℕ → Bool × NetWorkServices → Type 0
IsBound s r p (ok, n) =
    (ok ≡ true)
    × (n.thread_ids r p < length (s.counts r))
    × ((j : ℕ) → bound_to (s.counts r) (n.thread_ids r p) ≤ bound_to (s.counts r) j)
    × ((j : ℕ)
        → bound_to (n.counts r) j
          ≡ bound_to (s.counts r) j + (if n.thread_ids r p == j then 1 else 0))

bind-IsBound :
    (s : NetWorkServices) (r p i : ℕ) (f : ℕ → Bool)
    → AreCounts (s.counts r)
    → bound_to (s.counts r) i < most
    → ((t : ℕ) → t < length (s.counts r) → f t ≡ false)
    → IsBound s r p (bind s r p f)
bind-IsBound s r p i f h l g =
    let (t, e, b, a) = select_from-least (s.counts r) i h l in
    let lt : t < length (s.counts r) = bound_to-most (s.counts r) t b in
    subst (IsBound s r p) (sym (bind_lem s r p t f e (g t lt))) (
      refl,
      ground arith,
      λ j. ground (arith, a j),
      λ j. ground (
        arith,
        bound_to-change (s.counts r) t j (λ n. int_add n 1) lt,
        int_add_small (bound_to (s.counts r) t) 1 (omega arith),
      ),
    )

-- When a receive thread, a send thread and an epoll thread have room, a session is bound to one of each
-- kind that has the fewest sessions, and the count of this thread is one more, of the others the same.
pub bind_threads-IsBound :
    (s : NetWorkServices) (p : ℕ) (i : ℕ → ℕ)
    → ((r : ℕ) → AreCounts (s.counts r))
    → ((r : ℕ) → length (s.counts r) < 2 ^ 16)
    → ((r : ℕ) → bound_to (s.counts r) (i r) < most)
    → IsBound s recv_role p (bind_recv_thread s p)
      × IsBound s send_role p (bind_send_thread s p)
      × IsBound s epoll_role p (bind_epoll_thread s p)
bind_threads-IsBound s p i h l b = (
  bind-IsBound s recv_role p (i recv_role) _ (h recv_role) (b recv_role)
      (λ t k. ground (arith, l recv_role)),
  bind-IsBound s send_role p (i send_role) _ (h send_role) (b send_role)
      (λ t k. ground (arith, l send_role)),
  bind-IsBound s epoll_role p (i epoll_role) _ (h epoll_role) (b epoll_role)
      (λ t k. ground (arith, l epoll_role)),
)

-- The sessions of a list that are bound to a thread.
unfoldable pub bound_sessions : (ℕ → ℕ) → ℕ → List ℕ → ℕ
bound_sessions ids t [] = 0
bound_sessions ids t (p ∷ ps) = let n = bound_sessions ids t ps in if ids p == t then n + 1 else n

bound_sessions-other :
    (ids : ℕ → ℕ) (p v t : ℕ) (ps : List ℕ)
    → occurrences p ps ≡ 0
    → bound_sessions (λ q. if p == q then v else ids q) t ps ≡ bound_sessions ids t ps
unfolding bound_sessions occurrences
bound_sessions-other ids p v t [] e = refl
bound_sessions-other ids p v t (q ∷ ps) e = ground (arith, bound_sessions-other ids p v t ps)

pub bound_sessions-change :
    (ids : ℕ → ℕ) (p v t : ℕ) (ps : List ℕ)
    → occurrences p ps ≡ 1
    → bound_sessions (λ q. if p == q then v else ids q) t ps + (if ids p == t then 1 else 0)
      ≡ bound_sessions ids t ps + (if v == t then 1 else 0)
unfolding bound_sessions occurrences
bound_sessions-change ids p v t [] e = absurd (omega arith)
bound_sessions-change ids p v t (q ∷ ps) e =
    ground (arith, bound_sessions-change ids p v t ps, bound_sessions-other ids p v t ps)

-- ===== src/Threads/Joins.antt =====
-- Each way through a new connection (NetWork/LNetWorkServices.cpp) keeps the sessions sound.
use linuxgameserver.Common.{
  ℕ, ◌<◌, ◌≡◌, ◌≢◌, refl, sym, subst, ap, ◌∙◌, inl, inr, Bool, true, false, List-cases, Option,
  some, none, List, [], ◌∷◌, if◌then◌else◌, arith,
}
use linuxgameserver.Common.Words.{int_le}
use linuxgameserver.SessionManager.{next_session_id, manager_of, alloc_session, free_session}
use linuxgameserver.SessionManager.Alloc.{
  registered, manager_of-next_session_id, select_lt, alloc_session_result,
}
use linuxgameserver.Threads.{
  recv_role, send_role, epoll_role, all_stopped, NetWorkServices, bind, unbind, reset_session,
  give_back, unbind_all, report,
}
use linuxgameserver.Threads.Connecting.{
  watch, announce, bind_third, bind_second, bind_first, add_connected_socket,
}
use linuxgameserver.Threads.Sound.{IsSound}
use linuxgameserver.Threads.Connect.{IsTaken, alloc-IsTaken, free-IsTaken, joined, joined-IsSound}

-- Session `p` is taken from the pool for the id `id`; only its bindings, its flags, the counts and
-- the queue of packets are others.
pub record IsJoined (s : NetWorkServices) (p id : ℕ) (n : NetWorkServices) : Type 0 where
  pub same : n ≡ joined s n.sessions p n.thread_ids n.counts n.close_sent n.received
  pub others : (a c : ℕ) → p ≢ c → n.thread_ids a c ≡ s.thread_ids a c
  pub takes : IsTaken s.sessions n.sessions p id
  pub below : manager_of id < n.sessions.session_manager_count

-- A change of the bindings, the counts and the queue of packets alone.
pub record IsRebound (n : NetWorkServices) (p : ℕ) (k : NetWorkServices) : Type 0 where
  pub alike : k ≡ record n { thread_ids = k.thread_ids; counts = k.counts; received = k.received }
  pub kept : (a c : ℕ) → p ≢ c → k.thread_ids a c ≡ n.thread_ids a c

pub bind-IsRebound : (n : NetWorkServices) (r p : ℕ) (f : ℕ → Bool) → IsRebound n p (bind n r p f).1
unfolding bind
bind-IsRebound n r p f = record { alike = ground arith; kept = λ a c e. ground arith }

pub unbind-IsRebound : (n : NetWorkServices) (r p : ℕ) → IsRebound n p (unbind n r p)
unfolding unbind
unbind-IsRebound n r p = record { alike = ground arith; kept = λ a c e. ground arith }

pub report-IsRebound : (n : NetWorkServices) (p : ℕ) (o : Option ℕ) → IsRebound n p (report n p o).1
unfolding report
report-IsRebound n p o = record { alike = ground arith; kept = λ a c e. ground arith }

module _ {s n : NetWorkServices} {p id : ℕ} (j : IsJoined s p id n) where
  pub rebound-IsJoined : {k : NetWorkServices} → IsRebound n p k → IsJoined s p id k
  rebound-IsJoined {k = k} b =
      let e : k.sessions ≡ n.sessions = ap (λ x. x.sessions) b.alike in
      record {
        same =
            b.alike
            ∙ ap {A = NetWorkServices}
                (λ x. record x {
                  thread_ids = k.thread_ids;
                  counts = k.counts;
                  received = k.received;
                })
                j.same
            ∙ ap (λ y. joined s y.sessions p k.thread_ids k.counts y.close_sent k.received)
                (sym b.alike);
        others = λ a c ne. b.kept a c ne ∙ j.others a c ne;
        takes = subst (λ m. IsTaken s.sessions m p id) (sym e) j.takes;
        below = subst (λ m. manager_of id < m.session_manager_count) (sym e) j.below;
      }

  pub back-IsJoined : IsJoined s p id (give_back n p)
  unfolding give_back free_session
  back-IsJoined = record {
    same =
        ap {A = NetWorkServices} (λ x. record x { sessions = free_session n.sessions (some p) })
          j.same;
    others = j.others;
    takes = free-IsTaken j.takes j.below;
    below = ground (arith, j.below);
  }

pub unbound-IsJoined :
    {s n : NetWorkServices} {p id : ℕ} → IsJoined s p id n → IsJoined s p id (unbind_all n p)
unfolding unbind_all
unbound-IsJoined {n = n} {p = p} j =
    rebound-IsJoined
      (rebound-IsJoined (rebound-IsJoined j (unbind-IsRebound n epoll_role p))
        (unbind-IsRebound _ send_role p))
      (unbind-IsRebound _ recv_role p)

module _ {s : NetWorkServices} {p id : ℕ} (packet : Option ℕ) where
  watch-IsJoined :
      {n : NetWorkServices} (watched : Bool)
      → IsJoined s p id n
      → IsJoined s p id (watch n p watched).1
  unfolding watch
  watch-IsJoined true j = j
  watch-IsJoined {n = n} false j =
      back-IsJoined (unbound-IsJoined (rebound-IsJoined j (report-IsRebound n p none)))

  if-IsJoined :
      (b : Bool) (x y : Bool × NetWorkServices)
      → IsJoined s p id x.1
      → IsJoined s p id y.1
      → IsJoined s p id (if b then x else y).1
  if-IsJoined true x y i j = i
  if-IsJoined false x y i j = j

  module _ (watched : Bool) where
    announce-IsJoined :
        {n : NetWorkServices} → IsJoined s p id n → IsJoined s p id (announce n p packet watched).1
    unfolding announce
    announce-IsJoined {n = n} j =
        let i = rebound-IsJoined j (report-IsRebound n p packet) in
        if-IsJoined _ _ _ (watch-IsJoined watched i) (back-IsJoined (unbound-IsJoined i))

    third-IsJoined :
        {n : NetWorkServices}
        → IsJoined s p id n
        → IsJoined s p id (bind_third n p packet watched).1
    unfolding bind_third
    third-IsJoined {n = n} j =
        let i = rebound-IsJoined j (bind-IsRebound n epoll_role p _) in
        if-IsJoined _ _ _ (announce-IsJoined i) (
          back-IsJoined (
            rebound-IsJoined (rebound-IsJoined i (unbind-IsRebound _ send_role p))
              (unbind-IsRebound _ recv_role p)))

    second-IsJoined :
        {n : NetWorkServices}
        → IsJoined s p id n
        → IsJoined s p id (bind_second n p packet watched).1
    unfolding bind_second
    second-IsJoined {n = n} j =
        let i = rebound-IsJoined j (bind-IsRebound n send_role p _) in
        if-IsJoined _ _ _ (third-IsJoined i)
          (back-IsJoined (rebound-IsJoined i (unbind-IsRebound _ recv_role p)))

    first-IsJoined :
        {n : NetWorkServices}
        → IsJoined s p id n
        → IsJoined s p id (bind_first n p packet watched).1
    unfolding bind_first
    first-IsJoined {n = n} j =
        let i = rebound-IsJoined j (bind-IsRebound n recv_role p _) in
        if-IsJoined _ _ _ (second-IsJoined i) (back-IsJoined i)

module _ {s : NetWorkServices} {p : ℕ} {q : List ℕ} (h : IsSound s)
    (e : s.sessions.queue_dirty ≡ p ∷ q) (ne : next_session_id s.sessions ≢ 0)
    (free : registered s.sessions (next_session_id s.sessions) ≡ none) where
  pub reset-IsJoined :
      IsJoined s p
        (next_session_id s.sessions)
        (reset_session (record s { sessions = (alloc_session s.sessions).1 }) p)
  unfolding reset_session alloc_session
  reset-IsJoined = record {
    same = refl;
    others = λ a c k. ground arith;
    takes = alloc-IsTaken h.ready e ne free;
    below = ground (arith, manager_of-next_session_id h.ready, select_lt h.ready);
  }

  pub taken-IsJoined :
      (packet : Option ℕ) (watched : Bool)
      → IsJoined s p
          (next_session_id s.sessions)
          (bind_first
            (reset_session (record s { sessions = (alloc_session s.sessions).1 }) p)
            p
            packet
            watched).1
  taken-IsJoined packet watched = first-IsJoined packet watched reset-IsJoined

joined_whole-IsSound :
    {s n : NetWorkServices} {p id : ℕ}
    → IsSound s
    → ((a b : ℕ) → s.work a b ≢ all_stopped p)
    → IsJoined s p id n
    → IsSound n
joined_whole-IsSound {n = n} h calm j =
    subst IsSound (sym j.same)
      (joined-IsSound n.thread_ids n.counts n.close_sent n.received j.others h j.takes calm)

pub add_connected_socket_empty :
    (s : NetWorkServices) (socket : ℕ) (packet : Option ℕ) (watched : Bool)
    → s.sessions.queue_dirty ≡ []
    → (add_connected_socket s socket packet watched).1 ≡ s
unfolding add_connected_socket alloc_session
add_connected_socket_empty s socket packet watched e = ground arith

pub add_connected_socket-some :
    (s : NetWorkServices) (socket : ℕ) (packet : Option ℕ) (watched : Bool) (p : ℕ)
    → (alloc_session s.sessions).0 ≡ some p
    → add_connected_socket s socket packet watched ≡ (
        if int_le socket 0
        then (false, s)
        else bind_first
            (reset_session (record s { sessions = (alloc_session s.sessions).1 }) p)
            p
            packet
            watched)
unfolding add_connected_socket
add_connected_socket-some s socket packet watched p e = ground arith

if-IsSound :
    (b : Bool) (x y : Bool × NetWorkServices)
    → IsSound x.1
    → IsSound y.1
    → IsSound (if b then x else y).1
if-IsSound true x y i j = i
if-IsSound false x y i j = j

-- A connection leaves the sessions sound when the id for it is neither 0 nor in use, and no thread is
-- about to hand back the session that it gets.
pub connected-IsSound :
    {s : NetWorkServices} (socket : ℕ) (packet : Option ℕ) (watched : Bool)
    → IsSound s
    → next_session_id s.sessions ≢ 0
    → registered s.sessions (next_session_id s.sessions) ≡ none
    → ((a b p : ℕ) (q : List ℕ) → s.sessions.queue_dirty ≡ p ∷ q → s.work a b ≢ all_stopped p)
    → IsSound (add_connected_socket s socket packet watched).1
connected-IsSound {s = s} socket packet watched h ne free calm =
    elim (List-cases s.sessions.queue_dirty) [
      | inl e ↦ subst IsSound (sym (add_connected_socket_empty s socket packet watched e)) h
      | inr (p, q, e) ↦
          subst (λ x. IsSound x.1)
            (sym (
              add_connected_socket-some s socket packet watched p (alloc_session_result h.ready e)))
            (if-IsSound (int_le socket 0) _ _ h (
              joined_whole-IsSound h (λ a b. calm a b p q e)
                (taken-IsJoined h e ne free packet watched)))
    ]

-- ===== src/Threads/Refused.antt =====
-- A connection that is refused behind `AllocSession`, and a request to close that meets a full queue.
use linuxgameserver.Common.{
  ℕ, ◌≤◌, ◌<◌, ◌≡◌, ◌≢◌, sym, subst, ap, ◌∙◌, Bool, true, false, Bool-cases, Option, none, some,
  inl, inr, List, ◌∷◌, ◌==◌, if◌then◌else◌, eqb→ne, length, arith,
}
use linuxgameserver.Common.Words.{int_le}
use linuxgameserver.CircleBuf.Queue.{add}
use linuxgameserver.SessionManager.{next_session_id, manager_of, alloc_session, found, find_session}
use linuxgameserver.SessionManager.Alloc.{registered, alloc_session_result}
use linuxgameserver.SessionManager.Free.{find_session-free_session}
use linuxgameserver.SessionManager.Life.{occurrences}
use linuxgameserver.Threads.{
  recv_role, send_role, epoll_role, NetWorkServices, reset_session, give_back,
}
use linuxgameserver.Threads.Closing.{append_to_close, process_kick_out_session}
use linuxgameserver.Threads.Connecting.{
  watch, announce, bind_third, bind_second, bind_first, add_connected_socket,
}
use linuxgameserver.Threads.Sound.{IsSound, waits, pooled}
use linuxgameserver.Threads.Joins.{
  IsJoined, rebound-IsJoined, unbound-IsJoined, back-IsJoined, bind-IsRebound, unbind-IsRebound,
  report-IsRebound, reset-IsJoined, add_connected_socket-some,
}

-- Session `p` was taken from the pool for `id`, and a result of `false` says that `id` finds nothing.
record IsTried (s : NetWorkServices) (p id : ℕ) (x : Bool × NetWorkServices) : Type 0 where
  joins : IsJoined s p id x.1
  unfound : x.0 ≡ false → (c : ℕ) → find_session x.1.sessions id ≢ found (some c)

module _ {s : NetWorkServices} {p id : ℕ} where
  given_back-IsTried :
      {n : NetWorkServices} → IsJoined s p id n → IsTried s p id (false, give_back n p)
  unfolding give_back
  given_back-IsTried {n = n} j = record {
    joins = back-IsJoined j;
    unfound = λ e c. ground (
      arith,
      j.takes.at,
      find_session-free_session n.sessions p id j.takes.ready
          (subst (λ x. manager_of x < n.sessions.session_manager_count) (sym j.takes.at) j.below),
    );
  }

  if-IsTried :
      (b : Bool) (x y : Bool × NetWorkServices)
      → IsTried s p id x
      → IsTried s p id y
      → IsTried s p id (if b then x else y)
  if-IsTried true x y i j = i
  if-IsTried false x y i j = j

  watch-IsTried :
      {n : NetWorkServices} (watched : Bool)
      → IsJoined s p id n
      → IsTried s p id (watch n p watched)
  unfolding watch
  watch-IsTried true j = record { joins = j; unfound = λ e. absurd (ground arith) }
  watch-IsTried {n = n} false j =
      given_back-IsTried (unbound-IsJoined (rebound-IsJoined j (report-IsRebound n p none)))

  module _ (packet : Option ℕ) (watched : Bool) where
    announce-IsTried :
        {n : NetWorkServices} → IsJoined s p id n → IsTried s p id (announce n p packet watched)
    unfolding announce
    announce-IsTried {n = n} j =
        let i = rebound-IsJoined j (report-IsRebound n p packet) in
        if-IsTried _ _ _ (watch-IsTried watched i) (given_back-IsTried (unbound-IsJoined i))

    third-IsTried :
        {n : NetWorkServices} → IsJoined s p id n → IsTried s p id (bind_third n p packet watched)
    unfolding bind_third
    third-IsTried {n = n} j =
        let i = rebound-IsJoined j (bind-IsRebound n epoll_role p _) in
        if-IsTried _ _ _ (announce-IsTried i) (
          given_back-IsTried (
            rebound-IsJoined (rebound-IsJoined i (unbind-IsRebound _ send_role p))
              (unbind-IsRebound _ recv_role p)))

    second-IsTried :
        {n : NetWorkServices} → IsJoined s p id n → IsTried s p id (bind_second n p packet watched)
    unfolding bind_second
    second-IsTried {n = n} j =
        let i = rebound-IsJoined j (bind-IsRebound n send_role p _) in
        if-IsTried _ _ _ (third-IsTried i)
          (given_back-IsTried (rebound-IsJoined i (unbind-IsRebound _ recv_role p)))

    first-IsTried :
        {n : NetWorkServices} → IsJoined s p id n → IsTried s p id (bind_first n p packet watched)
    unfolding bind_first
    first-IsTried {n = n} j =
        let i = rebound-IsJoined j (bind-IsRebound n recv_role p _) in
        if-IsTried _ _ _ (second-IsTried i) (given_back-IsTried i)

tried-unfound :
    {s : NetWorkServices} {p id : ℕ} {x : Bool × NetWorkServices} (j : ℕ)
    → IsSound s
    → IsTried s p id x
    → 1 ≤ pooled s.sessions p
    → x.0 ≡ false
    → (pooled x.1.sessions p ≡ 0)
      × (waits x.1.sessions p ≡ 0)
      × (find_session x.1.sessions j ≢ found (some p))
tried-unfound {s = s} {p = p} {id = id} j h t k e = (
  ground (arith, t.joins.takes.same_pooled p, h.separate p),
  ground (arith, t.joins.takes.same_waits p, h.separate p),
  λ f. elim (Bool-cases (j == id)) [
    | inl d ↦ t.unfound e p (ground arith)
    | inr d ↦ omega (arith, (h.known j p (sym (t.joins.takes.rest j (eqb→ne _ _ d)) ∙ f)).1)
  ],
)

head-pooled :
    (s : NetWorkServices) (p : ℕ) (q : List ℕ)
    → s.sessions.queue_dirty ≡ p ∷ q
    → 1 ≤ pooled s.sessions p
unfolding pooled occurrences
head-pooled s p q e = ground arith

-- A connection that is refused although a session was free loses the session: it is neither in the
-- pool nor waits for its reuse, and no id finds it. The id for it is taken to be neither 0 nor in use.
pub add_connected_socket_refused :
    {s : NetWorkServices} (socket : ℕ) (packet : Option ℕ) (watched : Bool) (p : ℕ) (q : List ℕ)
    (j : ℕ)
    → IsSound s
    → s.sessions.queue_dirty ≡ p ∷ q
    → next_session_id s.sessions ≢ 0
    → registered s.sessions (next_session_id s.sessions) ≡ none
    → int_le socket 0 ≡ false
    → (add_connected_socket s socket packet watched).0 ≡ false
    → let n = (add_connected_socket s socket packet watched).1 in
      (pooled n.sessions p ≡ 0)
      × (waits n.sessions p ≡ 0)
      × (find_session n.sessions j ≢ found (some p))
add_connected_socket_refused {s = s} socket packet watched p q j h e ne free pos fails =
    tried-unfound j h tried (head-pooled s p q e) fails
  where
    same :
        add_connected_socket s socket packet watched
        ≡ bind_first
            (reset_session (record s { sessions = (alloc_session s.sessions).1 }) p)
            p
            packet
            watched
    same =
        add_connected_socket-some s socket packet watched p (alloc_session_result h.ready e)
        ∙ ap
            (λ b.
              if b
              then (false, s)
              else bind_first
                  (reset_session (record s { sessions = (alloc_session s.sessions).1 }) p) p packet
                  watched)
            pos

    tried : IsTried s p (next_session_id s.sessions) (add_connected_socket s socket packet watched)
    tried =
        subst (IsTried s p (next_session_id s.sessions)) (sym same)
          (first-IsTried packet watched (reset-IsJoined h e ne free))

append_to_close_full :
    (s : NetWorkServices) (id : ℕ)
    → s.close_capacity ≤ length s.need_to_close
    → (append_to_close s id).1 ≡ s
unfolding append_to_close add
append_to_close_full s id full = ground arith

-- When the queue of the close thread is full, a request to close a session marks it as closing all
-- the same and leaves no entry; later requests leave none either, also when there is room again.
pub process_kick_out_session_full :
    (s : NetWorkServices) (id p : ℕ) (later : List ℕ)
    → find_session s.sessions id ≡ found (some p)
    → s.close_capacity ≤ length s.need_to_close
    → s.close_sent p ≡ 0
    → let n = record s { close_sent = λ q. if p == q then 1 else s.close_sent q } in
      let m = record n { need_to_close = later } in
      (process_kick_out_session s id ≡ some n) × (process_kick_out_session m id ≡ some m)
unfolding process_kick_out_session find_session
process_kick_out_session_full s id p later e full k =
    (ground (arith, append_to_close_full s id full), ground arith)

-- ===== src/Threads/Lost.antt =====
-- A thread that was not told of a closed session: nobody makes up for it.
use linuxgameserver.Common.{
  ℕ, ◌≤◌, ◌≡◌, ◌≢◌, refl, sym, subst, ap, ◌∙◌, Bool, true, false, List-cases, Option, none, inl,
  inr, List, [], ◌∷◌, if◌then◌else◌, length, arith,
}
use linuxgameserver.Common.Words.{int_le}
use linuxgameserver.CircleBuf.Queue.{add}
use linuxgameserver.SessionManager.{next_session_id}
use linuxgameserver.SessionManager.Alloc.{registered, alloc_session_result}
use linuxgameserver.SessionManager.Life.{occurrences}
use linuxgameserver.Threads.{telling, NetWorkServices}
use linuxgameserver.Threads.Closing.{
  append_to_close, close_step, close_from, thread_of, add_will_close_session, is_there,
}
use linuxgameserver.Threads.Connecting.{add_connected_socket}
use linuxgameserver.Threads.Sound.{IsSound, owed, waits, pooled, IsClosing}
use linuxgameserver.Threads.Tellers.{close_from_there, notified-owed}
use linuxgameserver.Threads.Joins.{
  IsJoined, taken-IsJoined, add_connected_socket-some, add_connected_socket_empty,
}
use linuxgameserver.Threads.Reach.{
  Step, connects, requests, closes, works, Steps, stop, next, Step-IsSound,
}
use linuxgameserver.Threads.Losing.{IsLost, work-IsLost, close-IsLost}

module _ {s : NetWorkServices} {r p : ℕ} (h : IsSound s) (l : IsLost s r p) where
  joined-IsLost :
      {id c : ℕ} {n : NetWorkServices} → IsJoined s c id n → pooled s.sessions c ≡ 1 → IsLost n r p
  joined-IsLost {c = c} {n = n} j k =
      let w : waits n.sessions p ≡ 1 = j.takes.same_waits p ∙ l.still_waits in
      let ne : c ≢ p = λ e. ground (arith, h.separate p, l.still_waits) in
      record {
        a_role = l.a_role;
        still_waits = w;
        nothing_owed =
            ap (λ x. owed x r p) j.same ∙ ground (arith, j.others r p ne, l.nothing_owed);
      }

if-IsLost :
    {r p : ℕ} (b : Bool) (x y : Bool × NetWorkServices)
    → IsLost x.1 r p
    → IsLost y.1 r p
    → IsLost (if b then x else y).1 r p
if-IsLost true x y i j = i
if-IsLost false x y i j = j

connect-IsLost :
    {s : NetWorkServices} {r p : ℕ} (socket : ℕ) (packet : Option ℕ) (watched : Bool)
    → IsSound s
    → IsLost s r p
    → next_session_id s.sessions ≢ 0
    → registered s.sessions (next_session_id s.sessions) ≡ none
    → IsLost (add_connected_socket s socket packet watched).1 r p
unfolding pooled occurrences
connect-IsLost {s = s} {r = r} {p = p} socket packet watched h l ne free =
    elim (List-cases s.sessions.queue_dirty) [
      | inl e ↦
          subst (λ n. IsLost n r p) (sym (add_connected_socket_empty s socket packet watched e)) l
      | inr (c, q, e) ↦
          subst (λ x. IsLost x.1 r p)
            (sym (
              add_connected_socket-some s socket packet watched c (alloc_session_result h.ready e)))
            (if-IsLost (int_le socket 0) _ _ l (
              joined-IsLost h l (taken-IsJoined h e ne free packet watched)
                (ground (arith, h.separate c))))
    ]

request-IsLost :
    {s : NetWorkServices} {r p : ℕ} (id : ℕ) → IsLost s r p → IsLost (append_to_close s id).1 r p
unfolding append_to_close
request-IsLost id l = record {
  a_role = l.a_role;
  still_waits = l.still_waits;
  nothing_owed = l.nothing_owed;
}

Step-IsLost : {s n : NetWorkServices} {r p : ℕ} → Step s n → IsSound s → IsLost s r p → IsLost n r p
Step-IsLost (connects s socket packet watched ne free calm) h l =
    connect-IsLost socket packet watched h l ne free
Step-IsLost (requests s id) h l = request-IsLost id l
Step-IsLost (closes s) h l = close-IsLost h l s.close_work refl
Step-IsLost (works s a t) h l = work-IsLost h l a t (s.work a t) refl

lost_forever :
    {s n : NetWorkServices} {r p : ℕ}
    → Steps s n
    → IsSound s
    → IsLost s r p
    → (waits n.sessions p ≡ 1) × (pooled n.sessions p ≡ 0)
lost_forever (stop s) h l = (l.still_waits, omega (arith, h.separate _, l.still_waits))
lost_forever (next o a rest) h l = lost_forever rest (Step-IsSound a h) (Step-IsLost a h l)

module _ {s : NetWorkServices} {id p r : ℕ} {rs : List ℕ} (h : IsSound s)
    (w : s.close_work ≡ telling id p (r ∷ rs)) (there : is_there s r p ≡ true)
    (full : s.capacity r ≤ length (s.will_close r (thread_of s r p))) where
  full_unchanged :
      (add (s.capacity r) (s.will_close r (thread_of s r p)) (p ∷ [])).1
      ≡ s.will_close r (thread_of s r p)
  unfolding add
  full_unchanged = ground arith

  added-IsLost : IsLost (record (add_will_close_session s r p) { close_work = telling id p rs }) r p
  unfolding add_will_close_session
  added-IsLost = record {
    a_role = (subst (IsClosing s.sessions) w h.closing).1.0;
    still_waits = (subst (IsClosing s.sessions) w h.closing).0;
    nothing_owed = ground (
      arith,
      h.once r p (subst (IsClosing s.sessions) w h.closing).0,
      notified-owed h w (add (s.capacity r) (s.will_close r (thread_of s r p)) (p ∷ [])).1 0 0
          (λ x. ground (arith, full_unchanged)) (omega arith) r p,
    );
  }

  full-IsLost : IsLost (close_from s (telling id p (r ∷ rs))) r p
  full-IsLost = subst (λ n. IsLost n r p) (sym (close_from_there s id p r rs there)) added-IsLost

-- A session for which the notice to a thread meets the full queue of that thread waits for its reuse forever: whatever
-- the further steps, no thread hands it back into the pool.
pub close_step_full :
    {s n : NetWorkServices} {id p r : ℕ} {rs : List ℕ}
    → IsSound s
    → s.close_work ≡ telling id p (r ∷ rs)
    → is_there s r p ≡ true
    → s.capacity r ≤ length (s.will_close r (thread_of s r p))
    → Steps (close_step s) n
    → (waits n.sessions p ≡ 1) × (pooled n.sessions p ≡ 0)
close_step_full {s = s} {p = p} {r = r} h w there full rest =
    lost_forever rest (Step-IsSound (closes s) h)
      (subst (λ c. IsLost (close_from s c) r p) (sym w) (full-IsLost h w there full))

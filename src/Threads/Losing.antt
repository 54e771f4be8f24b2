-- ===== src/Threads/Losing.antt =====
-- A session that a thread was not told of, through the steps of the threads.
use linuxgameserver.Common.{
  ℕ, ◌<◌, ◌≡◌, ◌≢◌, refl, sym, subst, ◌∙◌, Option-cases, Bool-cases, inl, inr, List, [], ◌∷◌, arith,
}
use linuxgameserver.Common.Maps.{find}
use linuxgameserver.CircleBuf.Queue.{add}
use linuxgameserver.SessionManager.{find_session}
use linuxgameserver.SessionManager.Life.{occurrences, occurrences-append}
use linuxgameserver.Threads.{
  Work, idle, taken, stopped, all_stopped, CloseWork, waiting, telling, found_one, freed, crashed,
  NetWorkServices, unbind_all,
}
use linuxgameserver.Threads.Closing.{
  close_from, take_need_to_close, take_will_close, work_from, thread_of, add_will_close_session,
  is_there,
}
use linuxgameserver.Threads.Sound.{IsSound, owed, untold, waits}
use linuxgameserver.Threads.Workers.{took-has, set_stop-owed, read_stops-has}
use linuxgameserver.Threads.Movers.{
  rested-has, waits-moved, handed-owed, unbind_all-thread_ids, work_from-handed, work_from_late,
}
use linuxgameserver.Threads.Freeing.{untold-claim, free-owed, waits-free_session}
use linuxgameserver.Threads.Closer.{unplaced, retire-owed, waits-retired}
use linuxgameserver.Threads.Tellers.{
  close_from_there, close_from_crash, add_one, notified-owed, commit_disconnect_lem,
}

-- The session waits for its reuse, and the thread of the kind `r` has neither set its flag nor is it
-- to be told.
pub record IsLost (s : NetWorkServices) (r p : ℕ) : Type 0 where
  pub a_role : r < 4
  pub still_waits : waits s.sessions p ≡ 1
  pub nothing_owed : owed s r p ≡ 0

module _ {s : NetWorkServices} {r p : ℕ} (h : IsSound s) (l : IsLost s r p) where
  take-IsLost :
      (a t : ℕ) (q : List ℕ)
      → s.work a t ≡ idle
      → s.will_close a t ≡ q
      → IsLost (take_will_close s a t q) r p
  unfolding take_will_close
  take-IsLost a t [] w e = l
  take-IsLost a t (c ∷ q) w e = record {
    a_role = l.a_role;
    still_waits = l.still_waits;
    nothing_owed = omega (arith, took-has h w e r (thread_of s r p) p, l.nothing_owed);
  }

  stop-IsLost : (a t c : ℕ) → s.work a t ≡ taken c → IsLost (work_from s a t (taken c)) r p
  unfolding work_from
  stop-IsLost a t c w = record {
    a_role = l.a_role;
    still_waits = l.still_waits;
    nothing_owed = set_stop-owed h w r p ∙ l.nothing_owed;
  }

  read-IsLost : (a t c : ℕ) → s.work a t ≡ stopped c → IsLost (work_from s a t (stopped c)) r p
  unfolding work_from
  read-IsLost a t c w = record {
    a_role = l.a_role;
    still_waits = l.still_waits;
    nothing_owed = omega (arith, read_stops-has h w r (thread_of s r p) p, l.nothing_owed);
  }

  -- No thread has read four flags of the session.
  not_seen : (a t c : ℕ) → s.work a t ≡ all_stopped c → c ≢ p
  not_seen a t c w e = ground (arith, (h.seen a t c w).1, l.nothing_owed, l.a_role)

  move-IsLost :
      (a t c : ℕ) → s.work a t ≡ all_stopped c → IsLost (work_from s a t (all_stopped c)) r p
  unfolding waits
  move-IsLost a t c w = elim (Option-cases (find s.sessions.will_reuse c)) [
    | inl e ↦
        subst (λ n. IsLost n r p) (sym (work_from_late s a t c e))
          (record {
            a_role = l.a_role;
            still_waits = l.still_waits;
            nothing_owed = omega (arith, rested-has h w r (thread_of s r p) p, l.nothing_owed);
          })
    | inr (q, e) ↦
        subst (λ n. IsLost n r p) (sym (work_from-handed s a t c q e))
          (record {
            a_role = l.a_role;
            still_waits =
                ground (arith, waits-moved s.sessions c p, not_seen a t c w, l.still_waits);
            nothing_owed =
                handed-owed (unbind_all s c).thread_ids (unbind_all s c).counts
                  (unbind_all-thread_ids s c) h w (ground arith) r p (not_seen a t c w)
                ∙ l.nothing_owed;
          })
  ]

  pub work-IsLost : (a t : ℕ) (w : Work) → s.work a t ≡ w → IsLost (work_from s a t w) r p
  unfolding work_from
  work-IsLost a t idle e = take-IsLost a t (s.will_close a t) e refl
  work-IsLost a t (taken c) e = stop-IsLost a t c e
  work-IsLost a t (stopped c) e = read-IsLost a t c e
  work-IsLost a t (all_stopped c) e = move-IsLost a t c e

  claim-IsLost : (q : List ℕ) → s.close_work ≡ waiting → IsLost (take_need_to_close s q) r p
  unfolding take_need_to_close
  claim-IsLost [] w = l
  claim-IsLost (id ∷ q) w = record {
    a_role = l.a_role;
    still_waits = l.still_waits;
    nothing_owed = omega (arith, untold-claim id (find_session s.sessions id) r p, l.nothing_owed);
  }

  added-IsLost :
      (id c a : ℕ) (rs : List ℕ)
      → s.close_work ≡ telling id c (a ∷ rs)
      → IsLost (record (add_will_close_session s a c) { close_work = telling id c rs }) r p
  unfolding add_will_close_session occurrences
  added-IsLost id c a rs w = record {
    a_role = l.a_role;
    still_waits = l.still_waits;
    nothing_owed = elim (add_one (s.capacity a) (s.will_close a (thread_of s a c)) c) [
      | inl (e, f) ↦ ground (
        arith,
        l.nothing_owed,
        notified-owed h w told 0 1
            (λ x.
              ground (arith, f, occurrences-append x (s.will_close a (thread_of s a c)) (c ∷ [])))
            (omega arith) r p,
      )
      | inr (e, f) ↦ ground (
        arith,
        l.nothing_owed,
        notified-owed h w told 0 0 (λ x. ground (arith, f)) (omega arith) r p,
      )
    ];
  }
    where
      told : List ℕ
      told = (add (s.capacity a) (s.will_close a (thread_of s a c)) (c ∷ [])).1

  tell-IsLost :
      (id c a : ℕ) (rs : List ℕ)
      → s.close_work ≡ telling id c (a ∷ rs)
      → IsLost (close_from s (telling id c (a ∷ rs))) r p
  tell-IsLost id c a rs w = elim (Bool-cases (is_there s a c)) [
    | inl e ↦
        subst (λ n. IsLost n r p) (sym (close_from_there s id c a rs e)) (added-IsLost id c a rs w)
    | inr e ↦ subst (λ n. IsLost n r p) (sym (close_from_crash s id c a rs e)) l
  ]

  commit-IsLost :
      (id c : ℕ) → s.close_work ≡ telling id c [] → IsLost (close_from s (telling id c [])) r p
  unfolding close_from untold occurrences
  commit-IsLost id c e =
      subst (λ n. IsLost (record n { close_work = waiting }) r p) (sym (commit_disconnect_lem s id))
        (record {
          a_role = l.a_role;
          still_waits = l.still_waits;
          nothing_owed = ground (arith, l.nothing_owed);
        })

  pub close-IsLost : (w : CloseWork) → s.close_work ≡ w → IsLost (close_from s w) r p
  unfolding close_from
  close-IsLost waiting e = claim-IsLost s.need_to_close e
  close-IsLost (found_one id c) e = record {
    a_role = l.a_role;
    still_waits = waits-free_session s.sessions c p ∙ l.still_waits;
    nothing_owed = free-owed h e r p ∙ l.nothing_owed;
  }
  close-IsLost (freed id c) e = record {
    a_role = l.a_role;
    still_waits = ground (arith, waits-retired s.sessions c p, l.still_waits);
    nothing_owed = ground (arith, retire-owed h e r p, l.nothing_owed, unplaced h e, l.still_waits);
  }
  close-IsLost (telling id c []) e = commit-IsLost id c e
  close-IsLost (telling id c (a ∷ rs)) e = tell-IsLost id c a rs e
  close-IsLost crashed e = l

-- ===== src/Threads/Closer.antt =====
-- The close thread keeps the sessions sound.
use linuxgameserver.Common.{
  ℕ, ◌+◌, ◌≤◌, ◌<◌, ◌≡◌, ◌≢◌, sym, subst, ap, ◌∙◌, inl, inr, Bool-cases, none, some, if◌then◌else◌,
  ◌==◌, eqb→eq, arith,
}
use linuxgameserver.Common.Maps.{find, assign, find-assign}
use linuxgameserver.SessionManager.{
  MasterSessionManager, found, find_session, get_session_id, add_to_will_reuse_manager,
}
use linuxgameserver.SessionManager.Alloc.{IsReady}
use linuxgameserver.SessionManager.Life.{occurrences}
use linuxgameserver.Threads.{send_role, freed, telling, NetWorkServices}
use linuxgameserver.Threads.Closing.{thread_of, all_roles}
use linuxgameserver.Threads.Sound.{IsSound, owed, waits, pooled, untold, IsClosing}

add_to_will_reuse_manager_lem :
    (m : MasterSessionManager) (p : ℕ)
    → add_to_will_reuse_manager m p ≡ record m {
      will_reuse = elim (find m.will_reuse p) [
        | none ↦ assign m.will_reuse p p
        | some _ ↦ m.will_reuse
      ];
    }
unfolding add_to_will_reuse_manager
add_to_will_reuse_manager_lem m p = ground arith

module _ (m : MasterSessionManager) (p : ℕ) where
  pub waits-retired :
      (c : ℕ) → waits (add_to_will_reuse_manager m p) c ≡ (if c == p then 1 else waits m c)
  unfolding add_to_will_reuse_manager waits
  waits-retired c = ground (arith, find-assign m.will_reuse p c p)

  pooled-retired : (c : ℕ) → pooled (add_to_will_reuse_manager m p) c ≡ pooled m c
  unfolding add_to_will_reuse_manager pooled
  pooled-retired c = ground arith

  find_session-retired : (j : ℕ) → find_session (add_to_will_reuse_manager m p) j ≡ find_session m j
  unfolding find_session
  find_session-retired j = ap (λ n. find_session n j) (add_to_will_reuse_manager_lem m p)

  get_session_id-retired :
      (c : ℕ) → get_session_id (add_to_will_reuse_manager m p) c ≡ get_session_id m c
  get_session_id-retired c = ap (λ n. get_session_id n c) (add_to_will_reuse_manager_lem m p)

  retired-IsReady : IsReady m → IsReady (add_to_will_reuse_manager m p)
  retired-IsReady h = subst IsReady (sym (add_to_will_reuse_manager_lem m p)) (record {
    all_there = h.all_there;
    some_there = h.some_there;
    few = h.few;
    counted = h.counted;
  })

all_roles_once : (r : ℕ) → occurrences r all_roles ≤ 1
unfolding occurrences
all_roles_once r = ground arith

all_roles_each : (r : ℕ) → r < 4 → occurrences r all_roles ≡ 1
unfolding occurrences
all_roles_each r l = ground arith

module _ {s : NetWorkServices} {id p : ℕ} (h : IsSound s) (w : s.close_work ≡ freed id p) where
  abbrev after_retire : NetWorkServices
  after_retire = record s {
    sessions = add_to_will_reuse_manager s.sessions p;
    close_work = telling id p all_roles;
  }

  pub unplaced : waits s.sessions p + pooled s.sessions p ≡ 0
  unplaced = (subst (IsClosing s.sessions) w h.closing).0

  unfound : (j : ℕ) → find_session s.sessions j ≢ found (some p)
  unfound = (subst (IsClosing s.sessions) w h.closing).1

  retire_places :
      (c : ℕ)
      → (waits after_retire.sessions c ≡ (if c == p then 1 else waits s.sessions c))
        × (pooled after_retire.sessions c ≡ pooled s.sessions c)
  retire_places c = (waits-retired s.sessions p c, pooled-retired s.sessions p c)

  retire-untold :
      (a c : ℕ)
      → (untold s.close_work a c ≡ 0)
        × (untold after_retire.close_work a c ≡ (if p == c then occurrences a all_roles else 0))
  unfolding untold
  retire-untold a c = ground arith

  pub retire-owed :
      (a c : ℕ)
      → owed after_retire a c ≡ owed s a c + (if p == c then occurrences a all_roles else 0)
  retire-owed a c = omega (arith, retire-untold a c)

  owed_none : (a : ℕ) → owed s a p ≡ 0
  owed_none a =
      ground (arith, h.none_else a (thread_of s a p) p, h.in_use a p, unplaced, retire-untold a p)

  pub retire-IsSound : IsSound after_retire
  retire-IsSound = record {
    ready = retired-IsReady s.sessions p h.ready;
    known = λ j c k.
        let e = sym (find_session-retired s.sessions p j) ∙ k in
        let (f, g) = h.known j c e in (get_session_id-retired s.sessions p c ∙ f, other j c e g);
    separate = λ c. ground (arith, retire_places c, h.separate c, unplaced);
    none_else = λ a b c k. ground (arith, retire_places c, h.none_else a b c);
    none_elsewhere = h.none_elsewhere;
    few = h.few;
    once = λ a c k.
        ground (arith, retire-owed a c, h.once a c, owed_none a, all_roles_once a, retire_places c);
    told = λ a c k f l.
        ground (arith, retire-owed a c, h.told a c, owed_none a, all_roles_each a, retire_places c);
    in_use = λ a c k. ground (arith, retire_places c, h.in_use a c);
    seen = λ a b c k. ground (arith, retire_places c, h.seen a b c, unplaced);
    last = λ c k l. h.last c (ground (arith, retire_places c, h.in_use send_role p, unplaced)) l;
    closing = (
      ground (arith, retire_places p),
      (omega arith, (omega arith, (omega arith, (omega arith, tt)))),
    );
  }
    where
      other :
          (j c : ℕ)
          → find_session s.sessions j ≡ found (some c)
          → waits s.sessions c + pooled s.sessions c ≡ 0
          → waits after_retire.sessions c + pooled after_retire.sessions c ≡ 0
      other j c e g = elim (Bool-cases (c == p)) [
        | inl d ↦
            absurd
              (unfound j (subst (λ x. find_session s.sessions j ≡ found (some x)) (eqb→eq _ _ d) e))
        | inr d ↦ ground (arith, retire_places c)
      ]

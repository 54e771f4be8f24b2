-- ===== src/Threads/Freeing.antt =====
-- The close thread finds a session that is asked for, and frees its id.
use linuxgameserver.Common.{
  ℕ, ◌<◌, ◌≡◌, refl, sym, subst, ◌∙◌, none, some, List, [], ◌∷◌, if◌then◌else◌, ◌==◌, arith,
}
use linuxgameserver.CircleBuf.{FixLenCircleBuf}
use linuxgameserver.SessionManager.{
  MasterSessionManager, FindResult, found, out_of_bounds, find_session, get_session_id, manager_of,
  free_session,
}
use linuxgameserver.SessionManager.Alloc.{IsReady, find_session_lem}
use linuxgameserver.SessionManager.Free.{free_session-IsReady, find_session-free_session}
use linuxgameserver.Threads.{RecvPacket, CloseWork, waiting, found_one, freed, NetWorkServices}
use linuxgameserver.Threads.Closing.{claim, take_need_to_close}
use linuxgameserver.Threads.Sound.{IsSound, owed, waits, pooled, untold, IsClosing}

-- A change of nothing but the queues of the close thread and its place in the turn.
pub claimed-IsSound :
    {s : NetWorkServices} (q : List ℕ) (c : CloseWork) (d x : FixLenCircleBuf RecvPacket)
    → IsSound s
    → ((r p : ℕ) → untold s.close_work r p ≡ untold c r p)
    → IsClosing s.sessions c
    → IsSound (record s { need_to_close = q; close_work = c; disconnects = d; received = x })
claimed-IsSound {s = s} q c d x h e k = record {
  ready = h.ready;
  known = h.known;
  separate = h.separate;
  none_else = h.none_else;
  none_elsewhere = h.none_elsewhere;
  few = h.few;
  once = λ a p w. omega (arith, e a p, h.once a p w);
  told = λ a p w f l. omega (arith, e a p, h.told a p w f l);
  in_use = h.in_use;
  seen = h.seen;
  last = λ p w l. h.last p w l;
  closing = k;
}

claim-IsClosing :
    (m : MasterSessionManager) (id : ℕ) (f : FindResult)
    → find_session m id ≡ f
    → IsClosing m (claim id f)
unfolding claim
claim-IsClosing m id out_of_bounds e = tt
claim-IsClosing m id (found none) e = tt
claim-IsClosing m id (found (some p)) e = e

pub untold-claim : (id : ℕ) (f : FindResult) (r p : ℕ) → untold (claim id f) r p ≡ 0
unfolding claim untold
untold-claim id out_of_bounds r p = refl
untold-claim id (found none) r p = refl
untold-claim id (found (some q)) r p = refl

pub taken_id-IsSound :
    {s : NetWorkServices} (q : List ℕ)
    → IsSound s
    → s.close_work ≡ waiting
    → IsSound (take_need_to_close s q)
unfolding take_need_to_close untold
taken_id-IsSound [] h w = h
taken_id-IsSound {s = s} (id ∷ q) h w =
    let f = find_session s.sessions id in
    claimed-IsSound q (claim id f) s.disconnects s.received h
      (λ r p. ground (arith, untold-claim id f r p)) (claim-IsClosing s.sessions id f refl)

found-manager_of :
    (m : MasterSessionManager) (id p : ℕ)
    → IsReady m
    → find_session m id ≡ found (some p)
    → manager_of id < m.session_manager_count
found-manager_of m id p h e = ground (arith, find_session_lem m id h)

pub free_session-session_ids :
    (m : MasterSessionManager) (p q : ℕ)
    → get_session_id (free_session m (some p)) q ≡ get_session_id m q
unfolding free_session
free_session-session_ids m p q = ground arith

pub waits-free_session :
    (m : MasterSessionManager) (p q : ℕ) → waits (free_session m (some p)) q ≡ waits m q
unfolding free_session waits
waits-free_session m p q = ground arith

pub pooled-free_session :
    (m : MasterSessionManager) (p q : ℕ) → pooled (free_session m (some p)) q ≡ pooled m q
unfolding free_session pooled
pooled-free_session m p q = ground arith

module _ {s : NetWorkServices} {id p : ℕ} (h : IsSound s) (w : s.close_work ≡ found_one id p) where
  abbrev after_free : NetWorkServices
  after_free = record s { sessions = free_session s.sessions (some p); close_work = freed id p }

  found_id : find_session s.sessions id ≡ found (some p)
  found_id = subst (IsClosing s.sessions) w h.closing

  free_at : manager_of (get_session_id s.sessions p) < s.sessions.session_manager_count
  free_at =
      subst (λ x. manager_of x < s.sessions.session_manager_count) (sym (h.known id p found_id).0)
        (found-manager_of s.sessions id p h.ready found_id)

  find_freed :
      (j : ℕ)
      → find_session after_free.sessions j
        ≡ (if j == id then found none else find_session s.sessions j)
  find_freed j =
      find_session-free_session s.sessions p j h.ready free_at
      ∙ ground (arith, h.known id p found_id)

  free_places :
      (c : ℕ)
      → (waits after_free.sessions c ≡ waits s.sessions c)
        × (pooled after_free.sessions c ≡ pooled s.sessions c)
  free_places c = (waits-free_session s.sessions p c, pooled-free_session s.sessions p c)

  pub free-owed : (a c : ℕ) → owed after_free a c ≡ owed s a c
  unfolding untold
  free-owed a c = ground arith

  pub free-IsSound : IsSound after_free
  free-IsSound = record {
    ready = free_session-IsReady h.ready p free_at;
    known = λ j c k.
        ground (
          arith,
          free_session-session_ids s.sessions p c,
          find_freed j,
          free_places c,
          h.known j c,
        );
    separate = λ c. ground (arith, free_places c, h.separate c);
    none_else = λ a b c k. h.none_else a b c (sym (free_places c).0 ∙ k);
    none_elsewhere = h.none_elsewhere;
    few = h.few;
    once = λ a c k. omega (arith, free-owed a c, h.once a c (sym (free_places c).0 ∙ k));
    told = λ a c k f l. omega (arith, free-owed a c, h.told a c (sym (free_places c).0 ∙ k) f l);
    in_use = λ a c k. h.in_use a c (ground (arith, free_places c));
    seen = λ a b c k. ground (arith, free_places c, h.seen a b c k);
    last = λ c k l. h.last c (sym (free_places c).0 ∙ k) l;
    closing = (
      ground (arith, free_places p, h.known id p found_id),
      λ j f. ground (arith, find_freed j, h.known j p, (h.known id p found_id).0),
    );
  }

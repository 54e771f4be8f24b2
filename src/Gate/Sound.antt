-- ===== src/Gate/Sound.antt =====
-- GateServer/LClientManager.cpp: the two indices of the clients and the pool belong together.
use linuxgameserver.Common.{ℕ, ◌≤◌, ◌<◌, ◌≡◌, none, some, List, [], ◌∷◌, ◌++◌, arith}
use linuxgameserver.Common.Maps.{Map, find, assign, erase, find-assign, find-erase}
use linuxgameserver.Gate.{
  ClientState, rank, Client, SessionAccepted, WillConnect, ClientManager, update, connect,
  initialized_client,
}
use linuxgameserver.SessionManager.Life.{occurrences, occurrences-append}

-- The indices lead to clients that carry the key; a user's client stands under its session too and is
-- initialized; the pool has no client twice and none that stands under a session.
pub record Sound (sessions users : Map ℕ) (pool : List ℕ) (clients : ℕ → Client) : Type 0 where
  pub by_session : (s p : ℕ) → find sessions s ≡ some p → (clients p).session_id ≡ s
  pub by_user : (u p : ℕ) → find users u ≡ some p → (clients p).unique_id_in_db ≡ u
  pub user_session :
      (u p : ℕ) → find users u ≡ some p → find sessions (clients p).session_id ≡ some p
  pub user_state : (u p : ℕ) → find users u ≡ some p → 2 ≤ rank (clients p).client_state
  pub once : (p : ℕ) → occurrences p pool ≤ 1
  pub apart : (s p : ℕ) → find sessions s ≡ some p → occurrences p pool ≡ 0

abbrev pub IsSound : ClientManager → Type 0
IsSound m = Sound m.session_to_client m.unique_id_to_client m.client_pool m.clients

module _ {ss us : Map ℕ} {cl : ℕ → Client} where
  pub Sound-connect :
      (sid p : ℕ) (tas : SessionAccepted) (rest : List ℕ)
      → Sound ss us (p ∷ rest) cl
      → find ss sid ≡ none
      → Sound (assign ss sid p) us rest (update cl p (connect sid tas))
  unfolding occurrences
  Sound-connect sid p tas rest h e = record {
    by_session = λ s q k. ground (arith, find-assign ss sid s p, h.by_session s q, h.apart s q);
    by_user =
        λ u q k. ground (arith, h.by_user u q, h.user_session u q, h.apart (cl q).session_id q);
    user_session = λ u q k. ground (
      arith,
      find-assign ss sid (cl q).session_id p,
      h.user_session u q,
      h.apart (cl q).session_id q,
    );
    user_state =
        λ u q k. ground (arith, h.user_state u q, h.user_session u q, h.apart (cl q).session_id q);
    once = λ q. ground (arith, h.once q);
    apart = λ s q k. ground (arith, find-assign ss sid s p, h.apart s q, h.once p);
  }

  pub Sound-initialized_client :
      (sid uid p : ℕ) (w : WillConnect) (pool : List ℕ)
      → Sound ss us pool cl
      → find ss sid ≡ some p
      → find us uid ≡ none
      → rank (cl p).client_state < 2
      → Sound ss (assign us uid p) pool (update cl p (initialized_client uid w))
  Sound-initialized_client sid uid p w pool h e f g = record {
    by_session = λ s q k. ground (arith, h.by_session s q);
    by_user = λ u q k. ground (arith, find-assign us uid u p, h.by_user u q, h.user_state u q);
    user_session =
        λ u q k. ground (arith, find-assign us uid u p, h.user_session u q, h.by_session sid p);
    user_state = λ u q k. ground (arith, find-assign us uid u p, h.user_state u q);
    once = h.once;
    apart = h.apart;
  }

  pub Sound-free :
      (sid uid p : ℕ) (pool : List ℕ)
      → Sound ss us pool cl
      → find ss sid ≡ some p
      → ((u : ℕ) → find us u ≡ some p → u ≡ uid)
      → Sound (erase ss sid) (erase us uid) (pool ++ (p ∷ [])) cl
  unfolding occurrences
  Sound-free sid uid p pool h e f = record {
    by_session = λ s q k. ground (arith, find-erase ss sid s, h.by_session s q);
    by_user = λ u q k. ground (arith, find-erase us uid u, h.by_user u q);
    user_session = λ u q k.
        ground (
          arith,
          find-erase us uid u,
          find-erase ss sid (cl q).session_id,
          h.user_session u q,
          f u,
        );
    user_state = λ u q k. ground (arith, find-erase us uid u, h.user_state u q);
    once = λ q. ground (arith, occurrences-append q pool (p ∷ []), h.once q, h.apart sid p);
    apart = λ s q k. ground (
      arith,
      occurrences-append q pool (p ∷ []),
      find-erase ss sid s,
      h.apart s q,
      h.by_session s q,
      h.by_session sid p,
    );
  }

  pub Sound-drop :
      (sid p : ℕ) (pool : List ℕ)
      → Sound ss us pool cl
      → find ss sid ≡ some p
      → rank (cl p).client_state < 2
      → Sound (erase ss sid) us (pool ++ (p ∷ [])) cl
  unfolding occurrences
  Sound-drop sid p pool h e g = record {
    by_session = λ s q k. ground (arith, find-erase ss sid s, h.by_session s q);
    by_user = h.by_user;
    user_session = λ u q k.
        ground (arith, find-erase ss sid (cl q).session_id, h.user_session u q, h.user_state u q);
    user_state = h.user_state;
    once = λ q. ground (arith, occurrences-append q pool (p ∷ []), h.once q, h.apart sid p);
    apart = λ s q k. ground (
      arith,
      occurrences-append q pool (p ∷ []),
      find-erase ss sid s,
      h.apart s q,
      h.by_session s q,
      h.by_session sid p,
    );
  }

  pub Sound-set_client_state :
      (p : ℕ) (st : ClientState) (pool : List ℕ)
      → Sound ss us pool cl
      → 2 ≤ rank st
      → Sound ss us pool (update cl p (λ c. record c { client_state = st }))
  Sound-set_client_state p st pool h e = record {
    by_session = λ s q k. ground (arith, h.by_session s q);
    by_user = λ u q k. ground (arith, h.by_user u q);
    user_session = λ u q k. ground (arith, h.user_session u q);
    user_state = λ u q k. ground (arith, h.user_state u q);
    once = h.once;
    apart = h.apart;
  }

-- ===== src/Master/Known.antt =====
-- MasterServer/LUserManager.cpp: the index of the users and the pool of their objects.
use linuxgameserver.Common.{ℕ, ◌≤◌, ◌≡◌, ◌≢◌, none, some, List, [], ◌∷◌, ◌++◌, arith}
use linuxgameserver.Common.Maps.{Map, find, assign, erase, find-assign, find-erase}
use linuxgameserver.Master.{set}
use linuxgameserver.Master.Users.{User, UserManager, UserState, reset_user}
use linuxgameserver.SessionManager.Life.{occurrences, occurrences-append}

-- An entry leads to an object that carries the id and is in use; the pool has no object twice.
pub record Known (users : Map ℕ) (pool : List ℕ) (objects : ℕ → User) : Type 0 where
  pub by_id : (u p : ℕ) → find users u ≡ some p → (objects p).user_id_in_db ≡ u
  pub in_use : (u p : ℕ) → find users u ≡ some p → occurrences p pool ≡ 0
  pub pooled : (p : ℕ) → occurrences p pool ≤ 1

abbrev pub IsKnown : UserManager → Type 0
IsKnown m = Known m.users m.user_pool m.user_objects

module _ {us : Map ℕ} {pool : List ℕ} {ob : ℕ → User} where
  pub Known-free :
      (uid p : ℕ)
      → Known us pool ob
      → find us uid ≡ some p
      → Known (erase us uid) (pool ++ (p ∷ [])) (set ob p reset_user)
  unfolding occurrences
  Known-free uid p h e = record {
    by_id = λ u q k. ground (arith, find-erase us uid u, h.by_id u q, h.by_id uid p);
    in_use = λ u q k. ground (
      arith,
      find-erase us uid u,
      h.in_use u q,
      h.by_id u q,
      h.by_id uid p,
      occurrences-append q pool (p ∷ []),
    );
    pooled = λ q. ground (arith, occurrences-append q pool (p ∷ []), h.pooled q, h.in_use uid p);
  }

  -- An object that is not in use and not in the pool any more takes up a user.
  pub Known-add :
      (uid p : ℕ) (o : User)
      → Known us pool ob
      → find us uid ≡ none
      → ((u : ℕ) → find us u ≢ some p)
      → occurrences p pool ≡ 0
      → o.user_id_in_db ≡ uid
      → Known (assign us uid p) pool (set ob p o)
  Known-add uid p o h e f g k = record {
    by_id = λ u q d. ground (arith, find-assign us uid u p, h.by_id u q, f u);
    in_use = λ u q d. ground (arith, find-assign us uid u p, h.in_use u q);
    pooled = h.pooled;
  }

  pub Known-set :
      (p : ℕ) (st : UserState)
      → Known us pool ob
      → Known us pool (set ob p (record (ob p) { user_state = st }))
  Known-set p st h = record {
    by_id = λ u q d. ground (arith, h.by_id u q);
    in_use = h.in_use;
    pooled = h.pooled;
  }

  pub Known-take : (p : ℕ) → Known us (p ∷ pool) ob → Known us pool ob
  unfolding occurrences
  Known-take p h = record {
    by_id = h.by_id;
    in_use = λ u q d. ground (arith, h.in_use u q);
    pooled = λ q. ground (arith, h.pooled q);
  }

  pub Known-taken :
      (p : ℕ) → Known us (p ∷ pool) ob → (occurrences p pool ≡ 0) × ((u : ℕ) → find us u ≢ some p)
  unfolding occurrences
  Known-taken p h = (ground (arith, h.pooled p), λ u d. ground (arith, h.in_use u p))

  -- An object that no user has may change.
  pub Known-unused :
      (p : ℕ) (o : User)
      → Known us pool ob
      → ((u : ℕ) → find us u ≢ some p)
      → Known us pool (set ob p o)
  Known-unused p o h f = record {
    by_id = λ u q d. ground (arith, h.by_id u q, f u);
    in_use = h.in_use;
    pooled = h.pooled;
  }

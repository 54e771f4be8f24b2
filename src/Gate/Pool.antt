-- ===== src/Gate/Pool.antt =====
-- GateServer/LClientManager.cpp: `InitializeClientPool`, where the life of the clients starts.
use linuxgameserver.Common.{
  ℕ, zero, suc, ◌+◌, ◌≤◌, ◌≡◌, refl, sym, ap, subst, ◌∙◌, Bool, true, false, Option, some, List, [],
  ◌∷◌, ◌++◌, ◌==◌, length, if◌then◌else◌, length-append, arith, none,
}
use linuxgameserver.Common.Maps.{Map, find}
use linuxgameserver.Gate.{Client, ClientManager, free_client, new_client, update}
use linuxgameserver.Gate.Sound.{Sound, IsSound}
use linuxgameserver.SessionManager.Life.{occurrences, occurrences-append}

-- `new i` is the address of the object that the turn `i` of the loop makes, with `none` for no memory.
unfoldable pub push_clients : (new : ℕ → Option ℕ) → ℕ → ℕ → ClientManager → Bool × ClientManager
push_clients new i zero m = (true, m)
push_clients new i (suc n) m = elim (new i) [
  | none ↦ (false, m)
  | some p ↦
      push_clients new (suc i) n
        (free_client (record m { clients = update m.clients p (λ _. new_client) }) p)
]

-- `ready` says that the main logic is set.
unfoldable pub initialize_client_pool :
    (new : ℕ → Option ℕ) → Bool → ℕ → ClientManager → Bool × ClientManager
initialize_client_pool new ready size m =
    if ready then push_clients new 0 (if size == 0 then 100 else size) m else (false, m)

-- Every turn of `new` gives an object, and two turns never the same.
pub record IsAllocator (new : ℕ → Option ℕ) : Type 0 where
  pub at : ℕ → ℕ
  pub gives : (i : ℕ) → new i ≡ some (at i)
  pub apart : (i j : ℕ) → at i ≡ at j → i ≡ j

-- The pool has no client twice and none that is still to come.
abbrev IsFilled : (at : ℕ → ℕ) → ℕ → List ℕ → Type 0
IsFilled at i pool =
    (p : ℕ) → (occurrences p pool ≤ 1) × ((j : ℕ) → i ≤ j → at j ≡ p → occurrences p pool ≡ 0)

pub Sound-empty :
    {ss us : Map ℕ} {pool : List ℕ} {cl : ℕ → Client}
    → ss ≡ []
    → us ≡ []
    → ((p : ℕ) → occurrences p pool ≤ 1)
    → Sound ss us pool cl
unfolding find
Sound-empty e f once = record {
  by_session = λ s p k. ground arith;
  by_user = λ u p k. ground arith;
  user_session = λ u p k. ground arith;
  user_state = λ u p k. ground arith;
  once = once;
  apart = λ s p k. ground arith;
}

module _ (new : ℕ → Option ℕ) (a : IsAllocator new) where
  filled :
      (i : ℕ) (pool : List ℕ) → IsFilled a.at i pool → IsFilled a.at (suc i) (pool ++ (a.at i ∷ []))
  unfolding occurrences
  filled i pool h p = (
    ground (arith, occurrences-append p pool (a.at i ∷ []), (h p).0, (h p).1 i),
    λ j k e. ground (arith, occurrences-append p pool (a.at i ∷ []), (h p).1 j, a.apart i j),
  )

  step :
      (i n : ℕ) (m : ClientManager)
      → push_clients new i (suc n) m
        ≡ push_clients new (suc i) n (
            free_client
              (record m { clients = update m.clients (a.at i) (λ _. new_client) })
              (a.at i))
  unfolding push_clients
  step i n m = ground (arith, a.gives i)

  -- What the loop keeps and makes.
  record Pushed (m : ClientManager) (n : ℕ) (out : Bool × ClientManager) : Type 0 where
    done : out.0 ≡ true
    sessions : out.1.session_to_client ≡ m.session_to_client
    users : out.1.unique_id_to_client ≡ m.unique_id_to_client
    size : length out.1.client_pool ≡ length m.client_pool + n
    once : (p : ℕ) → occurrences p out.1.client_pool ≤ 1

  push_clients-Pushed :
      (i n : ℕ) (m : ClientManager)
      → IsFilled a.at i m.client_pool
      → Pushed m n (push_clients new i n m)
  unfolding push_clients
  push_clients-Pushed i zero m h = record {
    done = refl;
    sessions = refl;
    users = refl;
    size = omega arith;
    once = λ p. (h p).0;
  }
  push_clients-Pushed i (suc n) m h =
      let m' =
        free_client (record m { clients = update m.clients (a.at i) (λ _. new_client) }) (a.at i) in
      let r = push_clients-Pushed (suc i) n m' (filled i m.client_pool h) in
      subst (Pushed m (suc n)) (sym (step i n m)) (record {
        done = r.done;
        sessions = r.sessions;
        users = r.users;
        size = omega (arith, r.size, length-append m.client_pool (a.at i ∷ []));
        once = r.once;
      })

  -- A pool for a manager without clients is made with 100 clients where none are asked for, all of them
  -- different; no session and no user has one yet, and the manager is sound.
  initialize_client_pool-IsSound :
      (size : ℕ) (m : ClientManager)
      → m.client_pool ≡ []
      → m.session_to_client ≡ []
      → m.unique_id_to_client ≡ []
      → let (ok, m') = initialize_client_pool new true size m in
        (ok ≡ true) × (length m'.client_pool ≡ (if size == 0 then 100 else size)) × IsSound m'
  unfolding initialize_client_pool occurrences
  initialize_client_pool-IsSound size m e f g =
      let r =
        push_clients-Pushed 0 (if size == 0 then 100 else size) m
          (subst (IsFilled a.at 0) (sym e) (λ p. (omega arith, λ j h k. refl))) in
      (
        r.done,
        omega (arith, r.size, ap length e),
        Sound-empty (r.sessions ∙ f) (r.users ∙ g) r.once,
      )

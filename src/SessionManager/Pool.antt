-- ===== src/SessionManager/Pool.antt =====
-- NetWork/LSessionManager.cpp: `InitializeSessionPool`, which makes the managers and the sessions.
-- The n-th `new LSession` is `new_session n`, `none` for a null pointer; `new_managers` says whether
-- the array of managers could be made.
use linuxgameserver.Common.{
  ℕ, zero, suc, ◌+◌, ◌*◌, ◌%◌, ◌^◌, ◌<◌, ◌≡◌, refl, sym, ap, subst, ◌∙◌, Bool, true, false, Option,
  none, some, List, [], ◌∷◌, ◌++◌, if◌then◌else◌, ◌==◌, leb, length, length-append, arith,
}
use linuxgameserver.Common.Maps.{assign}
use linuxgameserver.SessionManager.{SessionManager, MasterSessionManager, max_id}
use linuxgameserver.SessionManager.Alloc.{IsReady}

pub fresh_managers : ℕ → List SessionManager
fresh_managers zero = []
fresh_managers (suc n) = record { sessions = []; current_session_managered = 0 } ∷ fresh_managers n

-- The numbers of managers and of sessions for the arguments of `InitializeSessionPool`.
abbrev pub managers_num : ℕ → ℕ
managers_num num = if num == 0 then 1 else if leb 255 num then 255 else num

abbrev pub max_session_count : ℕ → ℕ → ℕ
max_session_count num per = ((if per == 0 then 1 else per) * managers_num num) % 2 ^ 32

module _ (new_session : ℕ → Option ℕ) where
  -- `k` more sessions, `n` of which are made.
  pub fill_pool : ℕ → ℕ → MasterSessionManager → Bool × MasterSessionManager
  fill_pool zero n m = (true, m)
  fill_pool (suc k) n m = elim (new_session n) [
    | none ↦ (false, m)
    | some p ↦ fill_pool k (suc n) (record m {
      queue_dirty = m.queue_dirty ++ (p ∷ []);
      session_ids = assign m.session_ids p 0;
    })
  ]

  -- `has_services` says that the net-work services are set.
  pub initialize_session_pool :
      (has_services new_managers : Bool)
      → MasterSessionManager
      → ℕ
      → ℕ
      → Bool × MasterSessionManager
  unfolding fill_pool fresh_managers
  initialize_session_pool false new_managers m num per = (false, m)
  initialize_session_pool true false m num per =
      (false, record m { session_manager_count = managers_num num; managers = [] })
  initialize_session_pool true true m num per = fill_pool (max_session_count num per) 0 (record m {
    session_manager_count = managers_num num;
    managers = fresh_managers (managers_num num);
  })

  length-fresh_managers : (n : ℕ) → length (fresh_managers n) ≡ n
  unfolding fresh_managers
  length-fresh_managers zero = refl
  length-fresh_managers (suc n) = ap suc (length-fresh_managers n)

  -- The sessions that are made are in the pool; nothing else changes but their ids.
  record Filled (k : ℕ) (m : MasterSessionManager) (out : Bool × MasterSessionManager)
      : Type 0 where
    ok : out.0 ≡ true
    pool : length out.1.queue_dirty ≡ length m.queue_dirty + k
    count : out.1.session_manager_count ≡ m.session_manager_count
    array : out.1.managers ≡ m.managers
    last : out.1.last_session_id ≡ m.last_session_id

  module _ (address : ℕ → ℕ) (made : (n : ℕ) → new_session n ≡ some (address n)) where
    abbrev with_session : ℕ → MasterSessionManager → MasterSessionManager
    with_session n m = record m {
      queue_dirty = m.queue_dirty ++ (address n ∷ []);
      session_ids = assign m.session_ids (address n) 0;
    }

    fill_pool-suc :
        (k n : ℕ) (m : MasterSessionManager)
        → fill_pool (suc k) n m ≡ fill_pool k (suc n) (with_session n m)
    unfolding fill_pool
    fill_pool-suc k n m = ground (arith, made n)

    fill_pool-Filled : (k n : ℕ) (m : MasterSessionManager) → Filled k m (fill_pool k n m)
    unfolding fill_pool
    fill_pool-Filled zero n m = record {
      ok = refl;
      pool = omega arith;
      count = refl;
      array = refl;
      last = refl;
    }
    fill_pool-Filled (suc k) n m = subst (Filled (suc k) m) (sym (fill_pool-suc k n m)) (
        let f = fill_pool-Filled k (suc n) (with_session n m) in
        record {
          ok = f.ok;
          pool = omega (arith, f.pool, length-append m.queue_dirty (address n ∷ []));
          count = f.count;
          array = f.array;
          last = f.last;
        })

    -- With memory for every session, the pool is ready and holds the sessions of all managers.
    pub initialize_session_pool-IsReady :
        (m : MasterSessionManager) (num per : ℕ)
        → m.last_session_id < max_id
        → let (ok, m') = initialize_session_pool true true m num per in
          (ok ≡ true)
          × IsReady m'
          × (length m'.queue_dirty ≡ length m.queue_dirty + max_session_count num per)
    unfolding initialize_session_pool
    initialize_session_pool-IsReady m num per h =
        let f = fill_pool-Filled (max_session_count num per) 0 (record m {
          session_manager_count = managers_num num;
          managers = fresh_managers (managers_num num);
        }) in
        (
          f.ok,
          record {
            all_there = ap length f.array ∙ length-fresh_managers (managers_num num) ∙ sym f.count;
            some_there = ground (arith, f.count);
            few = ground (arith, f.count);
            counted = omega (arith, f.last, h);
          },
          f.pool,
        )

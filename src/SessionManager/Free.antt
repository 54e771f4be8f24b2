-- ===== src/SessionManager/Free.antt =====
-- `FreeSession`, and an id that `FindSession` treats wrongly.
use linuxgameserver.Common.{
  ℕ, ◌<◌, ◌≡◌, sym, subst, ap, ◌∙◌, none, some, if◌then◌else◌, ◌==◌, eqb→eq, Bool-cases, inl, inr,
  arith,
}
use linuxgameserver.Common.Maps.{find}
use linuxgameserver.SessionManager.{
  MasterSessionManager, remove_session, decrement, update, found, manager_of, find_session,
  get_session_id, free_session,
}
use linuxgameserver.SessionManager.Alloc.{
  IsReady, registered, registered-update, registered-at, pick, get_elem?-some, length-update,
  find-remove_session, find_session_lem,
}

module _ {m : MasterSessionManager} (h : IsReady m) (p : ℕ) where
  module _ (k : manager_of (get_session_id m p) < m.session_manager_count) where
    free_session-managers : free_session m (some p) ≡ record m {
      managers =
          update m.managers
            (manager_of (get_session_id m p))
            (λ s. decrement (remove_session s (get_session_id m p)));
    }
    unfolding free_session
    free_session-managers = ground arith

    registered-free_session :
        (j : ℕ)
        → registered (free_session m (some p)) j
          ≡ (if j == get_session_id m p then none else registered m j)
    registered-free_session j =
        let id = get_session_id m p in
        let (s, e) = get_elem?-some m.managers (manager_of id) (omega (arith, k, h.all_there)) in
        ap (λ x. registered x j) free_session-managers
        ∙ registered-update m (manager_of id) j (λ s. decrement (remove_session s id)) s e
        ∙ pick (manager_of id) (manager_of j) id j (find (remove_session s id).sessions j) none
            (registered m j) (λ c. ap manager_of (sym c))
            (λ c.
              find-remove_session s id j
              ∙ ap (λ o. if j == id then none else o)
                  (sym (registered-at m (manager_of id) j s e (sym c))))

    pub free_session-IsReady : IsReady (free_session m (some p))
    free_session-IsReady = subst IsReady (sym free_session-managers) (record {
      all_there = length-update m.managers (manager_of (get_session_id m p)) _ ∙ h.all_there;
      some_there = h.some_there;
      few = h.few;
      counted = h.counted;
    })

    free_session-count : (free_session m (some p)).session_manager_count ≡ m.session_manager_count
    free_session-count = ap (λ x. x.session_manager_count) free_session-managers

-- A session that is freed is found no more; the other ids are found as before.
pub find_session-free_session :
    (m : MasterSessionManager) (p j : ℕ)
    → IsReady m
    → manager_of (get_session_id m p) < m.session_manager_count
    → find_session (free_session m (some p)) j
      ≡ (if j == get_session_id m p then found none else find_session m j)
find_session-free_session m p j h k =
    find_session_lem (free_session m (some p)) j (free_session-IsReady h p k)
    ∙ elim (Bool-cases (j == get_session_id m p)) [
      | inl e ↦ ground (
        arith,
        registered-free_session h p k j,
        free_session-count h p k,
        ap manager_of (eqb→eq _ _ e),
        k,
      )
      | inr e ↦
          ground (
            arith,
            registered-free_session h p k j,
            free_session-count h p k,
            find_session_lem m j h,
          )
    ]

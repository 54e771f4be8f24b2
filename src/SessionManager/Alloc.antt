-- ===== src/SessionManager/Alloc.antt =====
-- The ids of the sessions: what `AllocSession` gives, `FindSession` finds until `FreeSession`.
use linuxgameserver.Common.{
  ℕ, zero, suc, ◌≤◌, ◌<◌, ◌≡◌, ◌≢◌, refl, sym, ap, ◌∙◌, Option, none, some, List, [], ◌∷◌,
  if◌then◌else◌, ◌==◌, eqb→eq, eqb→ne, ltb, ltb→lt, ltb→le, length, get_elem?, Bool-cases, inl, inr,
  arith,
}
use linuxgameserver.Common.Maps.{find, find-assign, find-erase}
use linuxgameserver.SessionManager.{
  SessionManager, MasterSessionManager, add_session, remove_session, increment,
  select_session_manager, update, max_id, next_count, next_session_id, alloc_session, found,
  out_of_bounds, manager_of, find_session, get_session_id,
}
use linuxgameserver.SessionManager.Select.{select_from_lt, get_elem?-update}

-- The managers that `InitializeSessionPool` makes are there, one at least.
pub record IsReady (m : MasterSessionManager) : Type 0 where
  pub all_there : length m.managers ≡ m.session_manager_count
  pub some_there : 0 < m.session_manager_count
  pub few : m.session_manager_count ≤ 255
  pub counted : m.last_session_id < max_id

-- The sessions of the manager for an id.
abbrev pub registered : MasterSessionManager → ℕ → Option ℕ
registered m id = elim (get_elem? m.managers (manager_of id)) [
  | some s ↦ find s.sessions id
  | none ↦ none
]

pub get_elem?-some :
    (ms : List SessionManager) (i : ℕ)
    → i < length ms
    → (s : SessionManager) × (get_elem? ms i ≡ some s)
get_elem?-some [] i h = absurd (omega arith)
get_elem?-some (m ∷ ms) zero h = (m, refl)
get_elem?-some (m ∷ ms) (suc i) h = get_elem?-some ms i (omega arith)

get_elem?_behind : (ms : List SessionManager) (i : ℕ) → length ms ≤ i → get_elem? ms i ≡ none
get_elem?_behind [] i h = refl
get_elem?_behind (m ∷ ms) zero h = absurd (omega arith)
get_elem?_behind (m ∷ ms) (suc i) h = get_elem?_behind ms i (omega arith)

module _ {m : MasterSessionManager} (h : IsReady m) where
  pub select_lt : select_session_manager m < m.session_manager_count
  select_lt = omega (
    arith,
    select_from_lt m.managers 0 0 268435455 (omega (arith, h.all_there, h.some_there)),
    h.all_there,
  )

  next_count_lt : next_count m.last_session_id < max_id
  next_count_lt = ground (arith, h.counted)

  pub manager_of-next_session_id : manager_of (next_session_id m) ≡ select_session_manager m
  manager_of-next_session_id = omega (arith, select_lt, next_count_lt, h.few)

  find_session-registered :
      (id : ℕ)
      → id ≢ 0
      → manager_of id < m.session_manager_count
      → find_session m id ≡ found (registered m id)
  unfolding find_session
  find_session-registered id ne k =
      let (s, e) = get_elem?-some m.managers (manager_of id) (omega (arith, k, h.all_there)) in
      ground arith

find-add_session :
    (s : SessionManager) (p id j : ℕ)
    → id ≢ 0
    → find s.sessions id ≡ none
    → find (add_session s p id).1.sessions j ≡ (if j == id then some p else find s.sessions j)
unfolding add_session
find-add_session s p id j ne e = ground (arith, find-assign s.sessions id j p)

pub find-remove_session :
    (s : SessionManager) (id j : ℕ)
    → find (remove_session s id).sessions j ≡ (if j == id then none else find s.sessions j)
unfolding remove_session
find-remove_session s id j = ground (arith, find-erase s.sessions id j)

-- The sessions of a manager that is passed through a function.
pub registered-update :
    (m : MasterSessionManager) (i j : ℕ) (f : SessionManager → SessionManager) (s : SessionManager)
    → get_elem? m.managers i ≡ some s
    → registered (record m { managers = update m.managers i f }) j
      ≡ (if i == manager_of j then find (f s).sessions j else registered m j)
registered-update m i j f s e =
    ap
      (λ (o : Option SessionManager). elim o as (λ _. Option ℕ) [
        | some x ↦ find x.sessions j
        | none ↦ none
      ])
      (get_elem?-update m.managers i (manager_of j) f)
    ∙ ground arith

pub registered-at :
    (m : MasterSessionManager) (i j : ℕ) (s : SessionManager)
    → get_elem? m.managers i ≡ some s
    → manager_of j ≡ i
    → registered m j ≡ find s.sessions j
registered-at m i j s e c =
    ap
      (λ (o : Option SessionManager). elim o as (λ _. Option ℕ) [
        | some x ↦ find x.sessions j
        | none ↦ none
      ])
      (ap (get_elem? m.managers) c ∙ e)

-- Where only the entries of manager `i` change, and only at `id`, which is one of its ids.
pub pick :
    (i k id j : ℕ) (x y z : Option ℕ)
    → (j ≡ id → i ≡ k)
    → (i ≡ k → x ≡ (if j == id then y else z))
    → (if i == k then x else z) ≡ (if j == id then y else z)
pick i k id j x y z h e = elim (Bool-cases (i == k)) [
  | inl c ↦ ground (arith, e (eqb→eq _ _ c))
  | inr c ↦ elim (Bool-cases (j == id)) [
    | inl d ↦ absurd (eqb→ne _ _ c (h (eqb→eq _ _ d)))
    | inr d ↦ ground arith
  ]
]

pub length-update :
    (ms : List SessionManager) (i : ℕ) (f : SessionManager → SessionManager)
    → length (update ms i f) ≡ length ms
unfolding update
length-update [] i f = refl
length-update (m ∷ ms) zero f = refl
length-update (m ∷ ms) (suc i) f = ap suc (length-update ms i f)

-- `FindSession` on every id.
pub find_session_lem :
    (m : MasterSessionManager) (j : ℕ)
    → IsReady m
    → find_session m j ≡ (
        if j == 0
        then found none
        else if ltb (manager_of j) m.session_manager_count
        then found (registered m j)
        else if manager_of j == m.session_manager_count
        then out_of_bounds
        else found none)
unfolding find_session
find_session_lem m j h = elim (Bool-cases (j == 0)) [
  | inl z ↦ ground arith
  | inr z ↦ elim (Bool-cases (ltb (manager_of j) m.session_manager_count)) [
    | inl k ↦ find_session-registered h j (eqb→ne _ _ z) (ltb→lt _ _ k) ∙ ground arith
    | inr k ↦ ground (
      arith,
      get_elem?_behind m.managers (manager_of j) (omega (arith, ltb→le _ _ k, h.all_there)),
    )
  ]
]

module _ {m : MasterSessionManager} (h : IsReady m) {p : ℕ} {rest : List ℕ}
    (q : m.queue_dirty ≡ p ∷ rest) where
  -- The manager behind `AllocSession`.
  abbrev after : MasterSessionManager
  after = (alloc_session m).1

  pub alloc_session-managers :
      after.managers
      ≡ update m.managers
          (select_session_manager m)
          (λ s. (add_session (increment s) p (next_session_id m)).1)
  unfolding alloc_session
  alloc_session-managers = ground arith

  alloc_session-count : after.session_manager_count ≡ m.session_manager_count
  unfolding alloc_session
  alloc_session-count = ground arith

  alloc_session-last : after.last_session_id ≡ next_count m.last_session_id
  unfolding alloc_session
  alloc_session-last = ground arith

  pub alloc_session-IsReady : IsReady after
  alloc_session-IsReady = record {
    all_there =
        ap length alloc_session-managers
        ∙ length-update m.managers (select_session_manager m) _
        ∙ h.all_there
        ∙ sym alloc_session-count;
    some_there = omega (arith, alloc_session-count, h.some_there);
    few = omega (arith, alloc_session-count, h.few);
    counted = omega (arith, next_count_lt h, alloc_session-last);
  }

  module _ (ne : next_session_id m ≢ 0) (free : registered m (next_session_id m) ≡ none) where
    pub registered-alloc_session :
        (j : ℕ) → registered after j ≡ (if j == next_session_id m then some p else registered m j)
    registered-alloc_session j =
        let (s, e) =
          get_elem?-some m.managers (select_session_manager m)
            (omega (arith, select_lt h, h.all_there)) in
        ap (λ ms. registered (record m { managers = ms }) j) alloc_session-managers
        ∙ registered-update m (select_session_manager m) j
            (λ s. (add_session (increment s) p (next_session_id m)).1) s e
        ∙ pick (select_session_manager m) (manager_of j) (next_session_id m) j
            (find (add_session (increment s) p (next_session_id m)).1.sessions j) (some p)
            (registered m j) (λ c. sym (manager_of-next_session_id h) ∙ ap manager_of (sym c))
            (λ c.
              find-add_session (increment s) p (next_session_id m) j ne (
                sym (
                  registered-at m (select_session_manager m) (next_session_id m) s e
                    (manager_of-next_session_id h))
                ∙ free)
              ∙ ap (λ o. if j == next_session_id m then some p else o)
                  (sym (registered-at m (select_session_manager m) j s e (sym c))))

  pub alloc_session_result : (alloc_session m).0 ≡ some p
  unfolding alloc_session
  alloc_session_result = ground arith

  pub get_session_id-alloc_session : get_session_id after p ≡ next_session_id m
  unfolding alloc_session
  get_session_id-alloc_session = ground (arith, find-assign m.session_ids p p (next_session_id m))

-- When the next id is not 0 and no session is registered under it, an allocated session carries it and
-- is found under it, and what is found under each other id is as before.
pub find_session-alloc_session :
    (m : MasterSessionManager) (p : ℕ) (rest : List ℕ) (j : ℕ)
    → IsReady m
    → m.queue_dirty ≡ p ∷ rest
    → next_session_id m ≢ 0
    → registered m (next_session_id m) ≡ none
    → let (q, m') = alloc_session m in
      (q ≡ some p)
      × (get_session_id m' p ≡ next_session_id m)
      × (find_session m' j ≡ (if j == next_session_id m then found (some p) else find_session m j))
find_session-alloc_session m p rest j h q ne free = (
  alloc_session_result h q,
  get_session_id-alloc_session h q,
  find_session_lem (alloc_session m).1 j (alloc_session-IsReady h q)
      ∙ ground (
        arith,
        registered-alloc_session h q ne free j,
        alloc_session-count h q,
        find_session_lem m j h,
        manager_of-next_session_id h,
        select_lt h,
      ),
)

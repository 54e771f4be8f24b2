-- ===== src/Master/Online.antt =====
-- The users of the master server as steps.
use linuxgameserver.Common.{
  ℕ, ◌≡◌, ◌≢◌, refl, sym, subst, Option, some, List, [], ◌∷◌, ◌++◌, ◌==◌, inl, inr, Bool-cases,
  Option-cases, List-cases, arith,
}
use linuxgameserver.Common.Maps.{find, assign, erase}
use linuxgameserver.Master.{set}
use linuxgameserver.Master.Users.{
  UserManager, UserState, state_rank, reset_user, created_user, free_one_user, remove_user,
  alloc_one_user, add_new_user_info, set_user_state, update_user_state, waiting_gate_server_reponse,
  created, user_online_from_login_server,
}
use linuxgameserver.Master.Known.{
  Known, IsKnown, Known-free, Known-add, Known-set, Known-take, Known-taken, Known-unused,
}
use linuxgameserver.SessionManager.Life.{occurrences}

IsKnown-eq : (n m : UserManager) → IsKnown m → n ≡ m → IsKnown n
IsKnown-eq n m h e = subst IsKnown (sym e) h

-- `new` gives an object that no user has and that is not in the pool.
abbrev pub IsNewUser : UserManager → Option ℕ → Type 0
IsNewUser m fresh =
    (p : ℕ) → fresh ≡ some p → (occurrences p m.user_pool ≡ 0) × ((u : ℕ) → find m.users u ≢ some p)

online-IsKnown :
    (m : UserManager) (fresh : Option ℕ) (user : List ℕ) (uid : ℕ)
    → IsKnown m
    → IsNewUser m fresh
    → IsKnown (user_online_from_login_server m fresh user uid).1
unfolding user_online_from_login_server alloc_one_user add_new_user_info
online-IsKnown m fresh user uid h f =
    let out = (user_online_from_login_server m fresh user uid).1 in
    elim (Bool-cases (uid == 0)) [
      | inl z ↦ IsKnown-eq out m h (ground arith)
      | inr z ↦ elim (Option-cases (find m.users uid)) [
        | inr (q, e) ↦ IsKnown-eq out m h (ground arith)
        | inl e ↦ elim (List-cases m.user_pool) [
          | inr (p, rest, c) ↦
              let h' = subst (λ l. Known m.users l m.user_objects) c h in
              let (g, k) = Known-taken p h' in
              IsKnown-eq out
                (record m {
                  users = assign m.users uid p;
                  user_pool = rest;
                  user_objects = set m.user_objects p (created_user uid user);
                })
                (Known-add uid p (created_user uid user) (Known-take p h') e k g refl)
                (ground arith)
          | inl c ↦ elim (Option-cases fresh) [
            | inl n ↦ IsKnown-eq out m h (ground arith)
            | inr (p, n) ↦
                let (g, k) = f p n in
                IsKnown-eq out
                  (record m {
                    users = assign m.users uid p;
                    user_objects = set (set m.user_objects p reset_user) p (created_user uid user);
                  })
                  (Known-add uid p (created_user uid user) (Known-unused p reset_user h k) e k g
                    refl)
                  (ground arith)
          ]
        ]
      ]
    ]

remove_user-IsKnown : (m : UserManager) (uid : ℕ) → IsKnown m → IsKnown (remove_user m uid)
unfolding remove_user free_one_user
remove_user-IsKnown m uid h = elim (Option-cases (find m.users uid)) [
  | inl e ↦ IsKnown-eq (remove_user m uid) m h (ground arith)
  | inr (p, e) ↦
      IsKnown-eq (remove_user m uid)
        (record m {
          users = erase m.users uid;
          user_objects = set m.user_objects p reset_user;
          user_pool = m.user_pool ++ (p ∷ []);
        })
        (Known-free uid p h e) (ground arith)
]

update-IsKnown :
    (m : UserManager) (uid : ℕ) (st : UserState)
    → IsKnown m
    → IsKnown (update_user_state m uid st).1
unfolding update_user_state
update-IsKnown m uid st h =
    let out = (update_user_state m uid st).1 in
    elim (Option-cases (find m.users uid)) [
      | inl e ↦ IsKnown-eq out m h (ground arith)
      | inr (p, e) ↦ elim (Bool-cases (state_rank st == state_rank waiting_gate_server_reponse)) [
        | inr c ↦ IsKnown-eq out m h (ground arith)
        | inl c ↦
            elim (Bool-cases (state_rank (m.user_objects p).user_state == state_rank created)) [
              | inr d ↦ IsKnown-eq out m h (ground arith)
              | inl d ↦
                  IsKnown-eq out (set_user_state m p waiting_gate_server_reponse)
                    (Known-set p waiting_gate_server_reponse h) (ground arith)
            ]
      ]
    ]

pub data UserStep : UserManager → UserManager → Type 0 where
  comes_online :
      (m : UserManager) (fresh : Option ℕ) (user : List ℕ) (uid : ℕ)
      → IsNewUser m fresh
      → UserStep m (user_online_from_login_server m fresh user uid).1
  updates : (m : UserManager) (uid : ℕ) (st : UserState) → UserStep m (update_user_state m uid st).1
  moves : (m : UserManager) (p : ℕ) (st : UserState) → UserStep m (set_user_state m p st)
  leaves : (m : UserManager) (uid : ℕ) → UserStep m (remove_user m uid)

pub data UserSteps : UserManager → UserManager → Type 0 where
  stop : (m : UserManager) → UserSteps m m
  next : {m n : UserManager} (o : UserManager) → UserStep m n → UserSteps n o → UserSteps m o

step-IsKnown : {m n : UserManager} → UserStep m n → IsKnown m → IsKnown n
step-IsKnown (comes_online m fresh user uid f) h = online-IsKnown m fresh user uid h f
step-IsKnown (updates m uid st) h = update-IsKnown m uid st h
step-IsKnown (moves m p st) h = Known-set p st h
step-IsKnown (leaves m uid) h = remove_user-IsKnown m uid h

-- Whatever the order in which users come on line, change their states and leave, each id leads to an
-- object that carries it, so that no two ids share one, and no object is twice in the pool or in the
-- pool while a user has it. An object that is made anew is taken to be one that no user has and that
-- is not in the pool.
pub user_steps-IsKnown : {m n : UserManager} → UserSteps m n → IsKnown m → IsKnown n
user_steps-IsKnown (stop m) h = h
user_steps-IsKnown (next o s ss) h = user_steps-IsKnown ss (step-IsKnown s h)

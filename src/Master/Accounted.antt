-- ===== src/Master/Accounted.antt =====
-- MasterServer/LServerManager.cpp: the indices of the servers agree, and every object that is made
-- stands in them until it is deleted.
use linuxgameserver.Common.{
  ℕ, ◌≡◌, sym, ap, ◌∙◌, Bool, true, false, none, some, if◌then◌else◌, ◌==◌, inl, inr, Bool-cases,
  arith,
}
use linuxgameserver.Common.Maps.{Map, find, assign, find-assign}
use linuxgameserver.Master.{
  get_server_unique_id, unknow, registered, initialized, working, MasterServer, set,
}

-- A server behind its registration.
abbrev pub is_registered : MasterServer → Bool
is_registered o = elim o.server_state [
  | unknow ↦ false
  | registered ↦ true
  | initialized ↦ true
  | working ↦ true
]

abbrev pub unique_id : MasterServer → ℕ
unique_id o = get_server_unique_id o.id

-- The entries lead to live objects that carry the keys; a registered server stands under its id and
-- under its session, one that is not under its session among the new ones; and every live object
-- stands there.
pub record Accounted (servers sessions news : Map ℕ) (objects : ℕ → MasterServer) (live : ℕ → Bool)
    : Type 0 where
  pub server_id : (i p : ℕ) → find servers i ≡ some p → unique_id (objects p) ≡ i
  pub server_session :
      (i p : ℕ) → find servers i ≡ some p → find sessions (objects p).session_id ≡ some p
  pub session_id : (s p : ℕ) → find sessions s ≡ some p → (objects p).session_id ≡ s
  pub session_server :
      (s p : ℕ) → find sessions s ≡ some p → find servers (unique_id (objects p)) ≡ some p
  pub new_session : (s p : ℕ) → find news s ≡ some p → (objects p).session_id ≡ s
  pub session_state : (s p : ℕ) → find sessions s ≡ some p → is_registered (objects p) ≡ true
  pub new_state : (s p : ℕ) → find news s ≡ some p → is_registered (objects p) ≡ false
  pub session_live : (s p : ℕ) → find sessions s ≡ some p → live p ≡ true
  pub new_live : (s p : ℕ) → find news s ≡ some p → live p ≡ true
  pub counted :
      (p : ℕ)
      → live p ≡ true
      → (if is_registered (objects p)
          then find sessions (objects p).session_id
          else find news (objects p).session_id)
        ≡ some p

module _ {sv ss ns : Map ℕ} {ob : ℕ → MasterServer} {lv : ℕ → Bool}
    (h : Accounted sv ss ns ob lv) where
  pub server_live : (i p : ℕ) → find sv i ≡ some p → lv p ≡ true
  server_live i p e = h.session_live (ob p).session_id p (h.server_session i p e)

  -- What is not live does not count.
  pub Accounted-same :
      (ob' : ℕ → MasterServer) (lv' : ℕ → Bool)
      → ((p : ℕ) → lv' p ≡ lv p)
      → ((p : ℕ) → lv p ≡ true → ob' p ≡ ob p)
      → Accounted sv ss ns ob' lv'
  Accounted-same ob' lv' l o = record {
    server_id = λ i p e. ap unique_id (o p (server_live i p e)) ∙ h.server_id i p e;
    server_session =
        λ i p e. ap (λ x. find ss x.session_id) (o p (server_live i p e)) ∙ h.server_session i p e;
    session_id = λ s p e. ap (λ x. x.session_id) (o p (h.session_live s p e)) ∙ h.session_id s p e;
    session_server = λ s p e.
        ap (λ x. find sv (unique_id x)) (o p (h.session_live s p e)) ∙ h.session_server s p e;
    new_session = λ s p e. ap (λ x. x.session_id) (o p (h.new_live s p e)) ∙ h.new_session s p e;
    session_state = λ s p e. ap is_registered (o p (h.session_live s p e)) ∙ h.session_state s p e;
    new_state = λ s p e. ap is_registered (o p (h.new_live s p e)) ∙ h.new_state s p e;
    session_live = λ s p e. l p ∙ h.session_live s p e;
    new_live = λ s p e. l p ∙ h.new_live s p e;
    counted = λ p e.
        ap (λ x. if is_registered x then find ss x.session_id else find ns x.session_id)
          (o p (sym (l p) ∙ e))
        ∙ h.counted p (sym (l p) ∙ e);
  }

  -- A new connection.
  pub Accounted-new :
      (p sid : ℕ) (o : MasterServer)
      → lv p ≡ false
      → find ns sid ≡ none
      → o.session_id ≡ sid
      → is_registered o ≡ false
      → Accounted sv ss (assign ns sid p) (set ob p o) (set lv p true)
  Accounted-new p sid o f e k r = record {
    server_id = λ i q d. ground (arith, h.server_id i q, server_live i q);
    server_session = λ i q d. ground (arith, h.server_session i q, server_live i q);
    session_id = λ s q d. ground (arith, h.session_id s q, h.session_live s q);
    session_server = λ s q d. ground (arith, h.session_server s q, h.session_live s q);
    new_session =
        λ s q d. ground (arith, find-assign ns sid s p, h.new_session s q, h.new_live s q);
    session_state = λ s q d. ground (arith, h.session_state s q, h.session_live s q);
    new_state = λ s q d. ground (arith, find-assign ns sid s p, h.new_state s q, h.new_live s q);
    session_live = λ s q d. ground (arith, h.session_live s q);
    new_live = λ s q d. ground (arith, find-assign ns sid s p, h.new_live s q);
    counted = λ q d. elim (Bool-cases (p == q)) [
      | inl c ↦ ground (arith, find-assign ns sid sid p)
      | inr c ↦ ground (arith, find-assign ns sid (ob q).session_id p, h.counted q)
    ];
  }

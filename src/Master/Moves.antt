-- ===== src/Master/Moves.antt =====
-- MasterServer/LServerManager.cpp: an object leaves the new servers, is registered, or is removed.
use linuxgameserver.Common.{
  ℕ, ◌≡◌, Bool, true, false, none, some, ◌==◌, inl, inr, Bool-cases, arith,
}
use linuxgameserver.Common.Maps.{Map, find, assign, erase, find-assign, find-erase}
use linuxgameserver.Master.{MasterServer, set}
use linuxgameserver.Master.Accounted.{is_registered, unique_id, Accounted, server_live}

module _ {sv ss ns : Map ℕ} {ob : ℕ → MasterServer} {lv : ℕ → Bool}
    (h : Accounted sv ss ns ob lv) where
  pub Accounted-drop_new_up :
      (q sid : ℕ) → find ns sid ≡ some q → Accounted sv ss (erase ns sid) ob (set lv q false)
  Accounted-drop_new_up q sid e = record {
    server_id = h.server_id;
    server_session = h.server_session;
    session_id = h.session_id;
    session_server = h.session_server;
    new_session = λ s p d. ground (arith, find-erase ns sid s, h.new_session s p);
    session_state = h.session_state;
    new_state = λ s p d. ground (arith, find-erase ns sid s, h.new_state s p);
    session_live =
        λ s p d. ground (arith, h.session_live s p, h.session_state s p, h.new_state sid q);
    new_live = λ s p d.
        ground (arith, find-erase ns sid s, h.new_live s p, h.new_session s p, h.new_session sid q);
    counted = λ p d. ground (arith, find-erase ns sid (ob p).session_id, h.counted p);
  }

  pub Accounted-register :
      (p sid : ℕ) (o : MasterServer)
      → lv p ≡ false
      → find sv (unique_id o) ≡ none
      → find ss sid ≡ none
      → o.session_id ≡ sid
      → is_registered o ≡ true
      → Accounted (assign sv (unique_id o) p) (assign ss sid p) ns (set ob p o) (set lv p true)
  Accounted-register p sid o f e g k r = record {
    server_id = λ i q d.
        ground (arith, find-assign sv (unique_id o) i p, h.server_id i q, server_live h i q);
    server_session = λ i q d. ground (
      arith,
      find-assign sv (unique_id o) i p,
      find-assign ss sid sid p,
      find-assign ss sid (ob q).session_id p,
      h.server_session i q,
      server_live h i q,
    );
    session_id =
        λ s q d. ground (arith, find-assign ss sid s p, h.session_id s q, h.session_live s q);
    session_server = λ s q d. ground (
      arith,
      find-assign ss sid s p,
      find-assign sv (unique_id o) (unique_id o) p,
      find-assign sv (unique_id o) (unique_id (ob q)) p,
      h.session_server s q,
      h.session_live s q,
    );
    new_session = λ s q d. ground (arith, h.new_session s q, h.new_live s q);
    session_state =
        λ s q d. ground (arith, find-assign ss sid s p, h.session_state s q, h.session_live s q);
    new_state = λ s q d. ground (arith, h.new_state s q, h.new_live s q);
    session_live = λ s q d. ground (arith, find-assign ss sid s p, h.session_live s q);
    new_live = λ s q d. ground (arith, h.new_live s q);
    counted = λ q d. elim (Bool-cases (p == q)) [
      | inl c ↦ ground (arith, find-assign ss sid sid p)
      | inr c ↦ ground (arith, find-assign ss sid (ob q).session_id p, h.counted q)
    ];
  }

  pub Accounted-remove :
      (p sid uid : ℕ)
      → find ss sid ≡ some p
      → unique_id (ob p) ≡ uid
      → Accounted (erase sv uid) (erase ss sid) ns ob (set lv p false)
  Accounted-remove p sid uid e f = record {
    server_id = λ i q d. ground (arith, find-erase sv uid i, h.server_id i q);
    server_session = λ i q d. ground (
      arith,
      find-erase sv uid i,
      find-erase ss sid (ob q).session_id,
      h.server_session i q,
      h.server_id i q,
    );
    session_id = λ s q d. ground (arith, find-erase ss sid s, h.session_id s q);
    session_server = λ s q d. ground (
      arith,
      find-erase ss sid s,
      find-erase sv uid (unique_id (ob q)),
      h.session_server s q,
      h.session_server sid p,
      h.session_id s q,
      h.session_id sid p,
    );
    new_session = h.new_session;
    session_state = λ s q d. ground (arith, find-erase ss sid s, h.session_state s q);
    new_state = h.new_state;
    session_live = λ s q d.
        ground
          (arith, find-erase ss sid s, h.session_live s q, h.session_id s q, h.session_id sid p);
    new_live = λ s q d. ground (arith, h.new_live s q, h.new_state s q, h.session_state sid p);
    counted =
        λ q d. ground (arith, find-erase ss sid (ob q).session_id, h.counted q, h.session_id sid p);
  }

-- ===== src/Master/Keeps.antt =====
-- MasterServer/LServerManager.cpp: each operation keeps the servers accounted for.
use linuxgameserver.Common.{
  ℕ, ◌≡◌, refl, sym, subst, false, ◌&&◌, none, some, inl, inr, Bool-cases, Option-cases, arith,
}
use linuxgameserver.Common.Maps.{find, assign, erase}
use linuxgameserver.Gate.{SessionAccepted}
use linuxgameserver.Master.{
  ServerId, get_server_unique_id, is_server_type, ServerManager, create, delete, new_up, register,
  drop_new_up, create_server, add_new_up_server, add_server, remove_new_up, remove_session,
  remove_server_by_net_work_session_id, remove_server,
}
use linuxgameserver.Master.Accounted.{unique_id, Accounted, Accounted-same, Accounted-new}
use linuxgameserver.Master.Moves.{Accounted-drop_new_up, Accounted-register, Accounted-remove}

abbrev pub IsAccounted : ServerManager → Type 0
IsAccounted m = Accounted m.servers m.session_to_servers m.new_up_servers m.objects m.live

IsAccounted-eq : (n m : ServerManager) → IsAccounted m → n ≡ m → IsAccounted n
IsAccounted-eq n m h e = subst IsAccounted (sym e) h

pub add_new_up_server-IsAccounted :
    (m : ServerManager) (p sid : ℕ) (tsa : SessionAccepted)
    → IsAccounted m
    → m.live p ≡ false
    → find m.new_up_servers sid ≡ none
    → IsAccounted (add_new_up_server m p sid tsa).1
unfolding add_new_up_server
add_new_up_server-IsAccounted m p sid tsa h f e =
    Accounted-new h p sid (new_up sid tsa) f e refl refl

pub remove_new_up-IsAccounted :
    (m : ServerManager) (sid : ℕ) → IsAccounted m → IsAccounted (remove_new_up m sid)
unfolding remove_new_up
remove_new_up-IsAccounted m sid h = elim (Option-cases (find m.new_up_servers sid)) [
  | inl e ↦ IsAccounted-eq (remove_new_up m sid) m h (ground arith)
  | inr (q, e) ↦
      IsAccounted-eq (remove_new_up m sid) (drop_new_up m sid q) (Accounted-drop_new_up h q sid e)
        (ground arith)
]

pub remove_session-IsAccounted :
    (m : ServerManager) (sid : ℕ) → IsAccounted m → IsAccounted (remove_session m sid)
unfolding remove_session
remove_session-IsAccounted m sid h = elim (Option-cases (find m.session_to_servers sid)) [
  | inl e ↦ IsAccounted-eq (remove_session m sid) m h (ground arith)
  | inr (p, e) ↦
      IsAccounted-eq (remove_session m sid)
        (delete
          (record m {
            session_to_servers = erase m.session_to_servers sid;
            servers = erase m.servers (get_server_unique_id (m.objects p).id);
          })
          p)
        (Accounted-remove h p sid (unique_id (m.objects p)) e refl) (ground arith)
]

pub remove_server-IsAccounted :
    (m : ServerManager) (uid : ℕ) → IsAccounted m → IsAccounted (remove_server m uid)
unfolding remove_server
remove_server-IsAccounted m uid h = elim (Option-cases (find m.servers uid)) [
  | inl e ↦ IsAccounted-eq (remove_server m uid) m h (ground arith)
  | inr (p, e) ↦
      IsAccounted-eq (remove_server m uid)
        (delete
          (record m {
            servers = erase m.servers uid;
            session_to_servers = erase m.session_to_servers (m.objects p).session_id;
          })
          p)
        (Accounted-remove h p (m.objects p).session_id uid (h.server_session uid p e)
          (h.server_id uid p e))
        (ground arith)
]

pub remove_by_session-IsAccounted :
    (m : ServerManager) (sid : ℕ)
    → IsAccounted m
    → IsAccounted (remove_server_by_net_work_session_id m sid)
unfolding remove_server_by_net_work_session_id
remove_by_session-IsAccounted m sid h =
    remove_session-IsAccounted (remove_new_up m sid) sid (remove_new_up-IsAccounted m sid h)

-- The new object of a registration, behind the deletion of the old one.
module _ (m : ServerManager) (p q sid : ℕ) (i : ServerId) (h : IsAccounted m) (f : m.live p ≡ false)
    (e : find m.new_up_servers sid ≡ some q) where
  abbrev made : ServerManager
  made = drop_new_up (create m p (register sid i (m.objects q).server_base_info)) sid q

  -- The object is given up again.
  given_up : IsAccounted (delete made p)
  given_up =
      Accounted-same (Accounted-drop_new_up h q sid e) made.objects (delete made p).live
        (λ x. ground (arith, h.new_live sid q)) (λ x l. ground (arith, h.new_live sid q))

  kept :
      find m.servers (get_server_unique_id i) ≡ none
      → find m.session_to_servers sid ≡ none
      → IsAccounted (record made {
        servers = assign m.servers (get_server_unique_id i) p;
        session_to_servers = assign m.session_to_servers sid p;
      })
  kept g k =
      Accounted-same
        (Accounted-register (Accounted-drop_new_up h q sid e) p sid
          (register sid i (m.objects q).server_base_info) (ground (arith, h.new_live sid q)) g k
          refl refl)
        made.objects made.live (λ x. ground (arith, h.new_live sid q)) (λ x l. refl)

  add_server-found : IsAccounted (add_server m p sid i).1
  unfolding add_server
  add_server-found =
      let out = (add_server m p sid i).1 in
      elim (Bool-cases (is_server_type i.server_type && create_server i.server_type)) [
        | inr c ↦
            IsAccounted-eq out (drop_new_up m sid q) (Accounted-drop_new_up h q sid e)
              (ground arith)
        | inl c ↦ elim (Option-cases (find m.servers (get_server_unique_id i))) [
          | inr (x, g) ↦ IsAccounted-eq out (delete made p) given_up (ground arith)
          | inl g ↦ elim (Option-cases (find m.session_to_servers sid)) [
            | inr (x, k) ↦ IsAccounted-eq out (delete made p) given_up (ground arith)
            | inl k ↦
                IsAccounted-eq out
                  (record made {
                    servers = assign m.servers (get_server_unique_id i) p;
                    session_to_servers = assign m.session_to_servers sid p;
                  })
                  (kept g k) (ground arith)
          ]
        ]
      ]

pub add_server-IsAccounted :
    (m : ServerManager) (p sid : ℕ) (i : ServerId)
    → IsAccounted m
    → m.live p ≡ false
    → IsAccounted (add_server m p sid i).1
unfolding add_server
add_server-IsAccounted m p sid i h f = elim (Option-cases (find m.new_up_servers sid)) [
  | inl e ↦ IsAccounted-eq (add_server m p sid i).1 m h (ground arith)
  | inr (q, e) ↦ add_server-found m p q sid i h f e
]

-- ===== src/Gate/Login.antt =====
-- The login of a user at the gate server, from its announcement by the master server to the packet
-- with the key, and what the end of its time does then.
use linuxgameserver.Common.{
  ℕ, ◌+◌, ◌≡◌, refl, sym, ap, ◌∙◌, subst, Bool, true, false, none, some, List, [], ◌∷◌, ◌++◌,
  if◌then◌else◌, take, take-take, arith,
}
use linuxgameserver.Common.Maps.{find, assign, find-assign, find-erase, erase}
use linuxgameserver.Gate.{
  initialized_client, update, WillConnect, ClientManager, same_text, check_client_info, key_len,
  max_user_id_len,
}
use linuxgameserver.Gate.Expected.{add_will_connect_client_info}

same_text_refl : (xs : List ℕ) → same_text xs xs ≡ true
same_text_refl [] = refl
same_text_refl (x ∷ xs) = ground (arith, same_text_refl xs)

-- A user that is neither connected nor expected yet.
pub record IsUnknown (m : ClientManager) (uid : ℕ) : Type 0 where
  pub not_connected : find m.unique_id_to_client uid ≡ none
  pub not_expected : find m.will_connect_infos uid ≡ none

-- The manager behind a key that is right, and behind one that is not.
abbrev pub admit : ClientManager → ℕ → ℕ → WillConnect → ClientManager
admit m p uid w = record m {
  will_connect_infos = erase m.will_connect_infos uid;
  clients = update m.clients p (initialized_client uid w);
  unique_id_to_client = assign m.unique_id_to_client uid p;
}

abbrev pub forget : ClientManager → ℕ → ClientManager
forget m uid = record m { will_connect_infos = erase m.will_connect_infos uid }

abbrev pub expectation : List ℕ → List ℕ → WillConnect
expectation key user = record { login_key = take key_len key; user_id = take max_user_id_len user }

abbrev pub expect : ClientManager → ℕ → ℕ → WillConnect → ClientManager
expect m now uid w = record m {
  will_connect_infos = assign m.will_connect_infos uid w;
  time_out_queue = m.time_out_queue ++ (record { unique_id = uid; move_time = now + 5 } ∷ []);
}

pub check_client_info_lem :
    (m : ClientManager) (sid uid p : ℕ) (w : WillConnect) (key : List ℕ)
    → find m.session_to_client sid ≡ some p
    → find m.unique_id_to_client uid ≡ none
    → find m.will_connect_infos uid ≡ some w
    → check_client_info m sid uid key ≡ (
        if same_text (take key_len w.login_key) (take key_len key)
        then (true, admit m p uid w)
        else (false, forget m uid))
unfolding check_client_info
check_client_info_lem m sid uid p w key e f g = ground arith

check_unexpected :
    (m : ClientManager) (sid uid : ℕ) (key : List ℕ)
    → find m.will_connect_infos uid ≡ none
    → (check_client_info m sid uid key).0 ≡ false
unfolding check_client_info
check_unexpected m sid uid key e = ground arith

pub add_will_connect_lem :
    (m : ClientManager) (now uid : ℕ) (key user : List ℕ)
    → find m.will_connect_infos uid ≡ none
    → add_will_connect_client_info m now uid (some key) (some user)
      ≡ (true, expect m now uid (expectation key user))
unfolding add_will_connect_client_info
add_will_connect_lem m now uid key user e = ground arith

-- What a login with an expected user's id and a key comes to.
pub record CheckedFirst (m : ClientManager) (uid p : ℕ) (w : WillConnect) (right : Bool)
    (out : Bool × ClientManager) : Type 0 where
  pub result : out.0 ≡ right
  pub by_user : find out.1.unique_id_to_client uid ≡ (if right then some p else none)
  pub client :
      out.1.clients p ≡ (if right then initialized_client uid w (m.clients p) else m.clients p)
  pub used_up : find out.1.will_connect_infos uid ≡ none
  pub refused : (sid : ℕ) (key : List ℕ) → (check_client_info out.1 sid uid key).0 ≡ false

pub forgotten :
    (m : ClientManager) (uid : ℕ) (w : WillConnect)
    → find (erase (assign m.will_connect_infos uid w) uid) uid ≡ none
forgotten m uid w = ground (arith, find-erase (assign m.will_connect_infos uid w) uid uid)

checked :
    (m : ClientManager) (uid p now : ℕ) (w : WillConnect)
    → IsUnknown m uid
    → (b : Bool)
    → let n = expect m now uid w in
      CheckedFirst m uid p w b (if b then (true, admit n p uid w) else (false, forget n uid))
checked m uid p now w u true = record {
  result = refl;
  by_user = ground (arith, find-assign m.unique_id_to_client uid uid p);
  client = ground arith;
  used_up = forgotten m uid w;
  refused = λ sid key.
      check_unexpected (admit (expect m now uid w) p uid w) sid uid key (forgotten m uid w);
}
checked m uid p now w u false = record {
  result = refl;
  by_user = u.not_connected;
  client = refl;
  used_up = forgotten m uid w;
  refused =
      λ sid key. check_unexpected (forget (expect m now uid w) uid) sid uid key (forgotten m uid w);
}

module _ (m : ClientManager) (sid uid p now : ℕ) (key user : List ℕ)
    (session : find m.session_to_client sid ≡ some p) (u : IsUnknown m uid) where
  -- The check of any key by a user that has just become expected.
  pub check-expected :
      (key' : List ℕ)
      → let n = expect m now uid (expectation key user) in
        check_client_info
          (add_will_connect_client_info m now uid (some key) (some user)).1
          sid
          uid
          key'
        ≡ (if same_text (take key_len key) (take key_len key')
            then (true, admit n p uid (expectation key user))
            else (false, forget n uid))
  check-expected key' =
      let n = expect m now uid (expectation key user) in
      ap (λ x. check_client_info x.1 sid uid key')
        (add_will_connect_lem m now uid key user u.not_expected)
      ∙ check_client_info_lem n sid uid p (expectation key user) key' session u.not_connected
          (ground (arith, find-assign m.will_connect_infos uid uid (expectation key user)))
      ∙ ap
          (λ k.
            if same_text k (take key_len key')
            then (true, admit n p uid (expectation key user))
            else (false, forget n uid))
          (take-take key_len key_len key (omega arith))

  -- A user that is expected is let in by the first key that comes with his id from a session, if it is
  -- the right one in its first 128 characters; then he stands under his id and his client carries it,
  -- and no later key is taken. A wrong key uses the expectation up and changes no client.
  pub check_client_info-add_will_connect :
      (key' : List ℕ)
      → CheckedFirst m uid p
          (expectation key user)
          (same_text (take key_len key) (take key_len key'))
          (check_client_info
            (add_will_connect_client_info m now uid (some key) (some user)).1
            sid
            uid
            key')
  check_client_info-add_will_connect key' =
      let right = same_text (take key_len key) (take key_len key') in
      subst (CheckedFirst m uid p (expectation key user) right) (sym (check-expected key'))
        (checked m uid p now (expectation key user) u right)

  pub check_right_key :
      check_client_info
        (add_will_connect_client_info m now uid (some key) (some user)).1
        sid
        uid
        key
      ≡ (true, admit (expect m now uid (expectation key user)) p uid (expectation key user))
  check_right_key =
      check-expected key
      ∙ ap
          (λ b.
            if b
            then (
              true,
              admit (expect m now uid (expectation key user)) p uid (expectation key user),
            )
            else (false, forget (expect m now uid (expectation key user)) uid))
          (same_text_refl (take key_len key))

-- ===== src/Gate/Enter.antt =====
-- The two packets of a login: the announcement by the master server and the key of the client.
use linuxgameserver.Common.{
  ℕ, ◌+◌, ◌%◌, ◌^◌, ◌≤◌, ◌<◌, ◌≡◌, ap, ◌∙◌, true, none, some, List, [], ◌∷◌, length, arith,
}
use linuxgameserver.Common.Maps.{find, find-assign}
use linuxgameserver.Packet.{PacketBase}
use linuxgameserver.Packet.Bytes.{limit}
use linuxgameserver.Packet.Typed.{ulong_long, long_long, ushort}
use linuxgameserver.Gate.{
  login_waiting_master_confirm, ClientManager, check_client_info, initialized_client,
  max_user_id_len, key_len,
}
use linuxgameserver.Gate.Expected.{add_will_connect_client_info, build_login_key}
use linuxgameserver.Gate.Handlers.{
  GateServer, typed, block, to_master, ga2m_user_gateserver_online, c2ga_user_loginkey, text,
  padded, set_client_state,
}
use linuxgameserver.Gate.Master.{will_login_result, m2ga_user_will_login}
use linuxgameserver.Gate.Reads.{
  IsReady, has_error-IsReady, get_ulong_long-IsReady, get_array-IsReady, IsText, text-padded,
  length-padded,
}
use linuxgameserver.Gate.Login.{
  IsUnknown, admit, expect, expectation, check_right_key, forgotten, add_will_connect_lem,
}

-- The next key.
abbrev pub next_key : ClientManager → ℕ
next_key m = (m.login_key_will_connect + 1) % 2 ^ 32

module _ (print : ℕ → List ℕ) (g : GateServer) (now : ℕ) where
  -- The manager behind an announcement.
  abbrev pub announced : ℕ → List ℕ → ClientManager
  announced uid user =
      (add_will_connect_client_info
        (record g.manager { login_key_will_connect = next_key g.manager }) now uid
        (some (print (next_key g.manager))) (some (text user))).1

  pub m2ga_user_will_login_lem :
      (len : ℕ) (packet : PacketBase) (login_session login_server uid : ℕ) (user : List ℕ)
      → IsReady packet (
          typed ulong_long login_session
          ∷ typed ulong_long login_server
          ∷ block user
          ∷ typed ulong_long uid
          ∷ [])
      → login_session < limit 8
      → login_server < limit 8
      → uid < limit 8
      → length user ≡ max_user_id_len
      → IsUnknown g.manager uid
      → m2ga_user_will_login print len g now packet ≡ (
        will_login_result len 0 login_session login_server user uid (
              block (padded key_len (print (next_key g.manager)))
              ∷ block (padded 16 g.listen_ip)
              ∷ typed ushort g.listen_port
              ∷ [])
            ∷ [],
        record g { manager = announced uid user },
      )
  unfolding m2ga_user_will_login build_login_key add_will_connect_client_info
  m2ga_user_will_login_lem len packet s v uid user r hs hv hu hl u =
      let (e1, r1) = get_ulong_long-IsReady packet s _ r hs in
      let (e2, r2) = get_ulong_long-IsReady _ v _ r1 hv in
      let (e3, r3) = get_array-IsReady _ user max_user_id_len _ r2 hl (omega arith) in
      let (e4, r4) = get_ulong_long-IsReady _ uid [] r3 hu in
      let clear = has_error-IsReady _ [] r4 in
      let f = u.not_connected in let k = u.not_expected in ground arith

-- A login packet with a user's id and a key that the manager takes.
pub c2ga_user_loginkey_lem :
    (g : GateServer) (sid uid p : ℕ) (key : List ℕ) (packet : PacketBase) (m : ClientManager)
    → IsReady packet (typed ulong_long uid ∷ block (padded key_len key) ∷ [])
    → length (padded key_len key) ≡ key_len
    → uid < limit 8
    → IsText key
    → length key ≤ key_len
    → find g.manager.session_to_client sid ≡ some p
    → check_client_info g.manager sid uid key ≡ (true, m)
    → c2ga_user_loginkey g sid packet ≡ (
      to_master 128 ga2m_user_gateserver_online (typed ulong_long sid ∷ typed long_long uid ∷ [])
          ∷ [],
      record g { manager = set_client_state m p login_waiting_master_confirm },
    )
unfolding c2ga_user_loginkey
c2ga_user_loginkey_lem g sid uid p key packet m r hl hu t ht e c =
    let (e1, r1) = get_ulong_long-IsReady packet uid _ r hu in
    let (e2, r2) = get_array-IsReady _ (padded key_len key) key_len [] r1 hl (omega arith) in
    let clear = has_error-IsReady _ [] r2 in let same = text-padded key_len key t ht in ground arith

-- The packet of a client brings the next key.
pub record Announced (print : ℕ → List ℕ) (g : GateServer) (uid : ℕ) (packet : PacketBase)
    : Type 0 where
  pub ready :
      IsReady packet
        (typed ulong_long uid ∷ block (padded key_len (print (next_key g.manager))) ∷ [])
  pub is_text : IsText (print (next_key g.manager))
  pub fits : length (print (next_key g.manager)) ≤ key_len

-- A user that the master server announces, and that is neither connected nor expected, is logged in by
-- the packet with the next key from a session that has a client: the announcement is answered with that
-- key as far as the packet for the answer has room, the master server is asked to confirm him, he stands under his id, his client carries his id and name and waits for the
-- confirmation, and he is expected no longer. The text that `sprintf` makes of the number is without a
-- zero and not longer than the key's array.
pub c2ga_user_loginkey-m2ga_user_will_login :
    (print : ℕ → List ℕ) (len : ℕ) (g : GateServer) (now sid p login_session login_server uid : ℕ)
    (user : List ℕ) (announcement login : PacketBase)
    → IsReady announcement (
        typed ulong_long login_session
        ∷ typed ulong_long login_server
        ∷ block user
        ∷ typed ulong_long uid
        ∷ [])
    → login_session < limit 8
    → login_server < limit 8
    → uid < limit 8
    → length user ≡ max_user_id_len
    → IsUnknown g.manager uid
    → find g.manager.session_to_client sid ≡ some p
    → Announced print g uid login
    → let key = print (next_key g.manager) in
      let (answer, g1) = m2ga_user_will_login print len g now announcement in
      let (sent, g2) = c2ga_user_loginkey g1 sid login in
      (answer
        ≡ will_login_result len 0 login_session login_server user uid (
            block (padded key_len key)
            ∷ block (padded 16 g.listen_ip)
            ∷ typed ushort g.listen_port
            ∷ [])
          ∷ [])
      × (sent
          ≡ to_master 128 ga2m_user_gateserver_online
              (typed ulong_long sid ∷ typed long_long uid ∷ [])
            ∷ [])
      × (find g2.manager.unique_id_to_client uid ≡ some p)
      × (g2.manager.clients p
          ≡ record (initialized_client uid (expectation key (text user)) (g.manager.clients p)) {
            client_state = login_waiting_master_confirm;
          })
      × (find g2.manager.will_connect_infos uid ≡ none)
unfolding set_client_state
c2ga_user_loginkey-m2ga_user_will_login print len g now sid p s v uid user w l r hs hv hu hl u e a =
    let key = print (next_key g.manager) in
    let m = record g.manager { login_key_will_connect = next_key g.manager } in
    let n = announced print g now uid user in
    let first = m2ga_user_will_login_lem print g now len w s v uid user r hs hv hu hl u in
    let kept = ap (λ x. x.1) (add_will_connect_lem m now uid key (text user) u.not_expected) in
    let second =
      c2ga_user_loginkey_lem (record g { manager = n }) sid uid p key l
        (admit (expect m now uid (expectation key (text user))) p uid (expectation key (text user)))
        a.ready (length-padded key_len key) hu a.is_text a.fits
        (ap (λ x. find x.session_to_client sid) kept ∙ e)
        (check_right_key m sid uid p now key (text user) e
          (record { not_connected = u.not_connected; not_expected = u.not_expected })) in
    let both = ap (λ x. c2ga_user_loginkey x.1 sid l) first ∙ second in
    (
      ap (λ x. x.0) first,
      ap (λ x. x.0) both,
      ap (λ x. find x.1.manager.unique_id_to_client uid) both
          ∙ ground (arith, find-assign g.manager.unique_id_to_client uid uid p),
      ap (λ x. x.1.manager.clients p) both ∙ ground arith,
      ap (λ x. find x.1.manager.will_connect_infos uid) both
          ∙ forgotten m uid (expectation key (text user)),
    )

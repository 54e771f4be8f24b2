-- ===== src/Gate/Keyless.antt =====
-- The answer to an announcement in a packet without room for its key
-- (GateServer/LGateServerPacketProcess_FromMasterServer.cpp).
use linuxgameserver.Common.{ℕ, ◌+◌, ◌≤◌, ◌<◌, ◌≡◌, ap, ◌∙◌, some, List, [], ◌∷◌, length, arith}
use linuxgameserver.Common.Maps.{find, find-assign}
use linuxgameserver.Packet.{PacketBase}
use linuxgameserver.Packet.Bytes.{limit}
use linuxgameserver.Packet.Typed.{int, ulong_long, ushort}
use linuxgameserver.Gate.{max_user_id_len, key_len}
use linuxgameserver.Gate.Handlers.{
  GateServer, Value, typed, block, value_len, values_with_room, to_master, ga2m_user_will_login,
  text, padded,
}
use linuxgameserver.Gate.Master.{m2ga_user_will_login}
use linuxgameserver.Gate.Reads.{IsReady, length-padded}
use linuxgameserver.Gate.Login.{IsUnknown, expectation, add_will_connect_lem}
use linuxgameserver.Gate.Enter.{next_key, m2ga_user_will_login_lem}

with_room :
    (len used : ℕ) (v : Value) (vs : List Value)
    → value_len v < 8192
    → used + value_len v ≤ len
    → values_with_room len used (v ∷ vs) ≡ v ∷ values_with_room len (used + value_len v) vs
unfolding values_with_room
with_room len used v vs h k = ground arith

without_room :
    (len used : ℕ) (v : Value) (vs : List Value)
    → len < used + value_len v
    → values_with_room len used (v ∷ vs) ≡ values_with_room len used vs
unfolding values_with_room
without_room len used v vs h = ground arith

module _ {len : ℕ} (s v uid : ℕ) (user key ip : List ℕ) (port : ℕ) (low : 64 ≤ len)
    (high : len < 174) (hu : length user ≡ 16) (hk : length key ≡ 128) (hi : length ip ≡ 16) where
  abbrev behind_key : List Value
  behind_key = block ip ∷ typed ushort port ∷ []

  keyless_end :
      (used : ℕ) → used ≡ 46 → values_with_room len used (block key ∷ behind_key) ≡ behind_key
  unfolding values_with_room
  keyless_end used e =
      without_room len used (block key) behind_key (omega (arith, e, hk, high))
      ∙ with_room len used (block ip) (typed ushort port ∷ []) (omega (arith, hi))
          (omega (arith, e, hi, low))
      ∙ ap (λ vs. block ip ∷ vs)
          (with_room len (used + length ip) (typed ushort port) [] (omega arith)
            (omega (arith, e, hi, low)))

  keyless :
      values_with_room len 2 (
        typed int 0
        ∷ typed ulong_long s
        ∷ typed ulong_long v
        ∷ block user
        ∷ typed ulong_long uid
        ∷ block key
        ∷ behind_key)
      ≡ typed int 0
        ∷ typed ulong_long s
        ∷ typed ulong_long v
        ∷ block user
        ∷ typed ulong_long uid
        ∷ behind_key
  keyless =
      with_room len 2 (typed int 0) _ (omega arith) (omega (arith, low))
      ∙ ap (λ vs. typed int 0 ∷ vs)
          (with_room len 6 (typed ulong_long s) _ (omega arith) (omega (arith, low))
            ∙ ap (λ vs. typed ulong_long s ∷ vs)
                (with_room len 14 (typed ulong_long v) _ (omega arith) (omega (arith, low))
                  ∙ ap (λ vs. typed ulong_long v ∷ vs)
                      (with_room len 22 (block user) _ (omega (arith, hu)) (omega (arith, low, hu))
                        ∙ ap (λ vs. block user ∷ vs)
                            (with_room len (22 + length user) (typed ulong_long uid) _ (omega arith)
                                (omega (arith, low, hu))
                              ∙ ap (λ vs. typed ulong_long uid ∷ vs)
                                  (keyless_end (22 + length user + 8) (omega (arith, hu)))))))

-- A user that the master server announces, neither connected nor expected, is expected with the next
-- key; but when the packet for the answer has a buffer of at least 64 bytes and fewer than 174, as one
-- asked for with 120 bytes can have, the answer says that all went well and has everything but the key.
-- The user's id and the address are arrays of 16 bytes.
pub m2ga_user_will_login_keyless :
    (print : ℕ → List ℕ) (len : ℕ) (g : GateServer) (now login_session login_server uid : ℕ)
    (user : List ℕ) (announcement : PacketBase)
    → IsReady announcement (
        typed ulong_long login_session
        ∷ typed ulong_long login_server
        ∷ block user
        ∷ typed ulong_long uid
        ∷ [])
    → login_session < limit 8
    → login_server < limit 8
    → uid < limit 8
    → length user ≡ max_user_id_len
    → IsUnknown g.manager uid
    → 64 ≤ len
    → len < 174
    → let (answer, g1) = m2ga_user_will_login print len g now announcement in
      (answer
        ≡ to_master 120 ga2m_user_will_login (
            typed int 0
            ∷ typed ulong_long login_session
            ∷ typed ulong_long login_server
            ∷ block user
            ∷ typed ulong_long uid
            ∷ block (padded 16 g.listen_ip)
            ∷ typed ushort g.listen_port
            ∷ [])
          ∷ [])
      × (find g1.manager.will_connect_infos uid
          ≡ some (expectation (print (next_key g.manager)) (text user)))
m2ga_user_will_login_keyless print len g now s v uid user w r hs hv hu hl u low high =
    let m = record g.manager { login_key_will_connect = next_key g.manager } in
    let key = print (next_key g.manager) in
    let first = m2ga_user_will_login_lem print g now len w s v uid user r hs hv hu hl u in
    let kept = ap (λ x. x.1) (add_will_connect_lem m now uid key (text user) u.not_expected) in
    (
      ap (λ x. x.0) first
          ∙ ap (λ vs. to_master 120 ga2m_user_will_login vs ∷ [])
              (keyless s v uid user (padded key_len key) (padded 16 g.listen_ip) g.listen_port low
                high hl (length-padded key_len key) (length-padded 16 g.listen_ip)),
      ap (λ x. find x.1.manager.will_connect_infos uid) first
          ∙ ap (λ x. find x.will_connect_infos uid) kept
          ∙ ground (arith, find-assign m.will_connect_infos uid uid (expectation key (text user))),
    )

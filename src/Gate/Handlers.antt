-- ===== src/Gate/Handlers.antt =====
-- GateServer/LGateServerMainLogic.cpp, LServerManager.cpp and
-- LGateServerPacketProcess_Client_Login.cpp: the state of the gate server that the packet handlers
-- share, the packets that they send, and the handler of a login.
-- A handler reads a packet with the getters of `Packet`. Packets from a pool are taken to be there.
use linuxgameserver.Common.{
  ℕ, ◌+◌, Bool, true, false, Option, none, some, List, [], ◌∷◌, ◌++◌, if◌then◌else◌, ◌==◌, ◌&&◌,
  ltb, leb, length, take,
}
use linuxgameserver.Common.Maps.{Map, find, assign}
use linuxgameserver.Packet.{
  PacketBase, no_error, data_too_long, data_not_enough, buf_not_init, input_param_wrong,
  output_param_wrong, zeros, get_data,
}
use linuxgameserver.Packet.Typed.{Kind, ulong_long, long_long, get_ulong_long}
use linuxgameserver.Packet.Net.{size}
use linuxgameserver.Gate.{
  ClientState, login_waiting_master_confirm, SessionAccepted, ClientManager, update,
  add_new_up_client, check_client_info, find_client_by_session_id,
}

pub record Server : Type 0 where
  pub session_id : ℕ
  pub send_thread_id : ℕ

-- `kick_outs` has the time for each session that is to be kicked out.
pub record GateServer : Type 0 where
  pub manager : ClientManager
  pub servers : Map Server
  pub kick_outs : Map ℕ
  pub listen_ip : List ℕ
  pub listen_port : ℕ

pub data PacketId : Type 0 where
  ga2m_user_will_login ga2m_user_gateserver_online ga2m_select_lobbyserver : PacketId
  ga2c_user_login ga2c_enter_lobbyserver ga2lb_user_online : PacketId

-- What is added to a packet, by the operation of a type or by `AddData`.
pub data Value : Type 0 where
  typed : Kind → ℕ → Value
  block : List ℕ → Value

abbrev pub value_len : Value → ℕ
value_len (typed k x) = size k
value_len (block bs) = length bs

-- What a packet with a buffer of `len` bytes takes of the values behind `used` bytes: `AddData`
-- leaves a value out for which there is no room, and the handlers go on with the next.
unfoldable pub values_with_room : ℕ → ℕ → List Value → List Value
values_with_room len used [] = []
values_with_room len used (v ∷ vs) =
    let n = value_len v in
    let fits = ltb n 8192 && leb (used + n) len in
    let rest = values_with_room len (if fits then used + n else used) vs in
    if fits then v ∷ rest else rest

-- What a handler asks of the networks: a packet of a length with its values, or the end of a session.
pub data Effect : Type 0 where
  to_master : ℕ → PacketId → List Value → Effect
  to_client : (session_id send_thread_id : ℕ) → ℕ → PacketId → List Value → Effect
  to_server : (session_id send_thread_id : ℕ) → ℕ → PacketId → List Value → Effect
  kick_out : ℕ → Effect

-- The characters before the terminating zero, and an array of `n` characters filled by `strncpy`.
abbrev pub text : List ℕ → List ℕ
text [] = []
text (b ∷ bs) = if b == 0 then [] else b ∷ text bs

abbrev pub padded : ℕ → List ℕ → List ℕ
padded n xs = take n (xs ++ zeros n)

-- `GetErrorCode() != 0`.
abbrev pub has_error : PacketBase → Bool
has_error p = elim p.error_code [
  | no_error ↦ false
  | data_too_long ↦ true
  | data_not_enough ↦ true
  | buf_not_init ↦ true
  | input_param_wrong ↦ true
  | output_param_wrong ↦ true
]

-- `n` bytes into an array of zeros.
unfoldable pub get_array : PacketBase → ℕ → List ℕ × PacketBase
get_array p n =
    let (got, p') = get_data p (some (zeros n)) n in
    (elim got [ some bs ↦ bs | none ↦ zeros n ], p')

unfoldable pub set_client_state : ClientManager → ℕ → ClientState → ClientManager
set_client_state m p st = record m {
  clients = update m.clients p (λ c. record c { client_state = st });
}

abbrev pub find_server_by_server_id : GateServer → ℕ → Option Server
find_server_by_server_id g id = find g.servers id

abbrev pub kick_out_one_session : ℕ → List Effect
kick_out_one_session sid = if sid == 0 then [] else kick_out sid ∷ []

abbrev pub add_session_id_to_kick_out_queue : GateServer → ℕ → ℕ → ℕ → GateServer
add_session_id_to_kick_out_queue g now sid keep = record g {
  kick_outs = assign g.kick_outs sid (now + keep);
}

unfoldable pub on_add_session : GateServer → ℕ → SessionAccepted → List Effect × GateServer
on_add_session g sid tas =
    let (ok, m) = add_new_up_client g.manager sid tas in
    (if ok then [] else kick_out_one_session sid, record g { manager = m })

-- The state of the client is not tested.
unfoldable pub c2ga_user_loginkey : GateServer → ℕ → PacketBase → List Effect × GateServer
unfolding get_array
c2ga_user_loginkey g sid packet =
    let (uid, p1) = get_ulong_long packet 0 in
    let (key, p2) = get_array p1 128 in
    if has_error p2 then ([], g) else (elim (find_client_by_session_id g.manager sid) [
      | none ↦ ([], g)
      | some p ↦
          (let (ok, m) = check_client_info g.manager sid uid (text key) in
            if ok
            then (
              to_master 128 ga2m_user_gateserver_online
                    (typed ulong_long sid ∷ typed long_long uid ∷ [])
                  ∷ [],
              record g { manager = set_client_state m p login_waiting_master_confirm },
            )
            else (kick_out_one_session sid, record g { manager = m }))
    ])

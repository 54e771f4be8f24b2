-- ===== src/Master/Neighbours.antt =====
-- MasterServer/LServerManager.cpp and LMasterServerMainLogic.cpp: which servers are told of each other
-- when one registers.
use linuxgameserver.Common.{
  ℕ, ◌+◌, ◌≡◌, ◌<◌, refl, Bool, true, false, ◌||◌, none, some, List, [], ◌∷◌, ◌++◌, if◌then◌else◌,
  ◌==◌, inl, inr, Bool-cases, arith,
}
use linuxgameserver.Common.Maps.{Map}
use linuxgameserver.Master.{MasterServer, ServerManager, ServerId, set_server_id, find_server}
use linuxgameserver.SessionManager.Life.{occurrences, occurrences-append}

-- The switch on the type of a server over the types that it is told of.
abbrev pub is_neighbour : (own other : ℕ) → Bool
is_neighbour own other =
    if own == 2
    then other == 7
    else if own == 3
    then (other == 4) || (other == 5)
    else if own == 4
    then other == 6
    else if own == 5
    then other == 6
    else false

-- The servers in the order of the map of which a server of the type `own` is told.
pub neighbours : (ℕ → MasterServer) → ℕ → Map ℕ → List ℕ
neighbours objects own [] = []
neighbours objects own (e ∷ m) =
    let rest = neighbours objects own m in
    if is_neighbour own (objects e.value).id.server_type then e.value ∷ rest else rest

unfoldable pub send_packet_to_server_can_connect_to_server_infos : ServerManager → ℕ → List ℕ
send_packet_to_server_can_connect_to_server_infos m uid = elim (find_server m uid) [
  | none ↦ []
  | some p ↦ neighbours m.objects (m.objects p).id.server_type m.servers
]

-- The servers of a type, to which a packet is sent.
pub of_type : (ℕ → MasterServer) → ℕ → Map ℕ → List ℕ
of_type objects t [] = []
of_type objects t (e ∷ m) =
    let rest = of_type objects t m in
    if (objects e.value).id.server_type == t then e.value ∷ rest else rest

abbrev pub broad_cast_to_servers_by_server_type : ServerManager → ℕ → List ℕ
broad_cast_to_servers_by_server_type m t = of_type m.objects t m.servers

-- The servers that are told of a server of the type `t`.
unfoldable pub told_of_type : ServerManager → ℕ → List ℕ
told_of_type m t =
    if (t == 4) || (t == 5)
    then broad_cast_to_servers_by_server_type m 3
    else if t == 6
    then broad_cast_to_servers_by_server_type m 4 ++ broad_cast_to_servers_by_server_type m 5
    else if t == 7
    then broad_cast_to_servers_by_server_type m 2
    else []

-- The main logic thread is there, and so is the packet.
unfoldable pub broad_cast_server_to_servers : ServerManager → ℕ → List ℕ
broad_cast_server_to_servers m uid =
    let (ok, i) = set_server_id uid in
    if uid == 0 then [] else if ok then told_of_type m i.server_type else []

-- The servers that would be told of a server of the type `t` if they registered now.
pub waiting_for : (ℕ → MasterServer) → ℕ → Map ℕ → List ℕ
waiting_for objects t [] = []
waiting_for objects t (e ∷ m) =
    let rest = waiting_for objects t m in
    if is_neighbour (objects e.value).id.server_type t then e.value ∷ rest else rest

of_type-none :
    (objects : ℕ → MasterServer) (t p : ℕ) (sv : Map ℕ)
    → ((t == 4) || (t == 5) || (t == 6) || (t == 7)) ≡ false
    → waiting_for objects t sv ≡ []
unfolding waiting_for
of_type-none objects t p [] h = refl
of_type-none objects t p (e ∷ sv) h = ground (arith, of_type-none objects t p sv h)

module _ (objects : ℕ → MasterServer) (p : ℕ) where
  lobby :
      (t : ℕ) (sv : Map ℕ)
      → ((t == 4) || (t == 5)) ≡ true
      → of_type objects 3 sv ≡ waiting_for objects t sv
  unfolding waiting_for of_type
  lobby t [] h = refl
  lobby t (e ∷ sv) h = ground (arith, lobby t sv h)

  account : (sv : Map ℕ) → of_type objects 2 sv ≡ waiting_for objects 7 sv
  unfolding waiting_for of_type
  account [] = refl
  account (e ∷ sv) = ground (arith, account sv)

  db :
      (sv : Map ℕ)
      → occurrences p (of_type objects 4 sv) + occurrences p (of_type objects 5 sv)
        ≡ occurrences p (waiting_for objects 6 sv)
  unfolding waiting_for of_type occurrences
  db [] = refl
  db (e ∷ sv) = ground (arith, db sv)

-- The broadcast about a server that registers under a valid id goes to just those servers, and as often,
-- that would be told of it by the infos about the servers they can connect to.
pub broad_cast_server_to_servers-waiting_for :
    (m : ServerManager) (uid p : ℕ) (i : ServerId)
    → 0 < uid
    → set_server_id uid ≡ (true, i)
    → occurrences p (broad_cast_server_to_servers m uid)
      ≡ occurrences p (waiting_for m.objects i.server_type m.servers)
unfolding broad_cast_server_to_servers told_of_type occurrences
broad_cast_server_to_servers-waiting_for m uid p i h e =
    let t = i.server_type in
    elim (Bool-cases ((t == 4) || (t == 5))) [
      | inl a ↦ ground (arith, lobby m.objects p t m.servers)
      | inr a ↦ elim (Bool-cases (t == 6)) [
        | inl b ↦ ground (
          arith,
          db m.objects p m.servers,
          occurrences-append p (of_type m.objects 4 m.servers) (of_type m.objects 5 m.servers),
        )
        | inr b ↦ elim (Bool-cases (t == 7)) [
          | inl c ↦ ground (arith, account m.objects p m.servers)
          | inr c ↦ ground (arith, of_type-none m.objects t p m.servers)
        ]
      ]
    ]

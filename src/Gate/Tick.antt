-- ===== src/Gate/Tick.antt =====
-- GateServer/LClientManager.cpp: `ProcessTimeOutWillConnect`, which forgets the users that did not
-- connect in time and tells the master server.
use linuxgameserver.Common.{
  ℕ, zero, suc, ◌+◌, ◌-◌, ◌≤◌, ◌<◌, ◌≡◌, refl, sym, ap, ◌∙◌, Bool, true, false, ◌||◌, ◌&&◌, none,
  List, [], ◌∷◌, if◌then◌else◌, ltb, ◌==◌, length, drop, inl, inr, Bool-cases, subst, arith,
}
use linuxgameserver.Common.Maps.{Map, find, erase, find-erase}
use linuxgameserver.Gate.{WillConnect, TimeOutInfo, ClientManager}

-- The users of which the master server is told, the rest of the queue and of the expected users.
-- `count` entries are done before.
unfoldable pub process_loop :
    ℕ → ℕ → List TimeOutInfo → Map WillConnect → List ℕ × List TimeOutInfo × Map WillConnect
process_loop now count [] infos = ([], [], infos)
process_loop now count (t ∷ ts) infos =
    let (told, rest, infos') = process_loop now (count + 1) ts (erase infos t.unique_id) in
    if ltb 100 (count + 1)
    then ([], t ∷ ts, infos)
    else if ltb t.move_time now
    then (t.unique_id ∷ told, rest, infos')
    else ([], t ∷ ts, infos)

unfoldable pub process_time_out_will_connect : ClientManager → ℕ → List ℕ × ClientManager
unfolding process_loop
process_time_out_will_connect m now =
    let (told, rest, infos) = process_loop now 0 m.time_out_queue m.will_connect_infos in
    (told, record m { time_out_queue = rest; will_connect_infos = infos })

-- The first entries that are over at `now`, `n` at most.
abbrev pub over : ℕ → ℕ → List TimeOutInfo → List TimeOutInfo
over now zero ts = []
over now (suc n) [] = []
over now (suc n) (t ∷ ts) = if ltb t.move_time now then t ∷ over now n ts else []

abbrev pub users : List TimeOutInfo → List ℕ
users [] = []
users (t ∷ ts) = t.unique_id ∷ users ts

abbrev pub is_in : ℕ → List ℕ → Bool
is_in u [] = false
is_in u (v ∷ vs) = (u == v) || is_in u vs

over_zero : (now count : ℕ) (ts : List TimeOutInfo) → 100 ≤ count → over now (100 - count) ts ≡ []
over_zero now count ts h = ap (λ n. over now n ts) {x = 100 - count} {y = 0} (omega arith)

over_step :
    (now count : ℕ) (t : TimeOutInfo) (ts : List TimeOutInfo)
    → count < 100
    → over now (100 - count) (t ∷ ts)
      ≡ (if ltb t.move_time now then t ∷ over now (100 - (count + 1)) ts else [])
over_step now count t ts h =
    ap (λ n. over now n (t ∷ ts)) {x = 100 - count} {y = suc (100 - (count + 1))} (omega arith)

-- What a run of the loop amounts to.
record Processed (now n : ℕ) (ts : List TimeOutInfo) (infos : Map WillConnect)
    (out : List ℕ × List TimeOutInfo × Map WillConnect) : Type 0 where
  told : out.0 ≡ users (over now n ts)
  rest : out.1 ≡ drop (length (over now n ts)) ts
  forgotten :
      (u : ℕ) → find out.2 u ≡ (if is_in u (users (over now n ts)) then none else find infos u)

process_loop_stop :
    (now count : ℕ) (t : TimeOutInfo) (ts : List TimeOutInfo) (infos : Map WillConnect)
    → over now (100 - count) (t ∷ ts) ≡ []
    → process_loop now count (t ∷ ts) infos ≡ ([], t ∷ ts, infos)
unfolding process_loop
process_loop_stop now count t ts infos e = elim (Bool-cases (ltb 100 (count + 1))) [
  | inl f ↦ ground arith
  | inr f ↦ elim (Bool-cases (ltb t.move_time now)) [
    | inl g ↦ ground (arith, over_step now count t ts)
    | inr g ↦ ground arith
  ]
]

process_loop_go :
    (now count : ℕ) (t : TimeOutInfo) (ts : List TimeOutInfo) (infos : Map WillConnect)
    → count < 100
    → ltb t.move_time now ≡ true
    → let out = process_loop now (count + 1) ts (erase infos t.unique_id) in
      process_loop now count (t ∷ ts) infos ≡ (t.unique_id ∷ out.0, out.1, out.2)
unfolding process_loop
process_loop_go now count t ts infos h g = ground arith

over_nil : (now n : ℕ) → over now n [] ≡ []
over_nil now zero = refl
over_nil now (suc n) = refl

-- A loop that does nothing.
Processed-none :
    (now n : ℕ) (ts : List TimeOutInfo) (infos : Map WillConnect)
    (out : List ℕ × List TimeOutInfo × Map WillConnect)
    → over now n ts ≡ []
    → out ≡ ([], ts, infos)
    → Processed now n ts infos out
Processed-none now n ts infos out h e = record {
  told = ap (λ x. x.0) e ∙ sym (ap users h);
  rest = ap (λ x. x.1) e ∙ sym (ap (λ x. drop (length x) ts) h);
  forgotten = λ u.
      ap (λ x. find x.2 u) e ∙ sym (ap (λ x. if is_in u (users x) then none else find infos u) h);
}

over_stop :
    (now count : ℕ) (t : TimeOutInfo) (ts : List TimeOutInfo)
    → (ltb count 100 && ltb t.move_time now) ≡ false
    → over now (100 - count) (t ∷ ts) ≡ []
over_stop now count t ts h = elim (Bool-cases (ltb count 100)) [
  | inl e ↦ ground (arith, over_step now count t ts)
  | inr e ↦ over_zero now count (t ∷ ts) (ground arith)
]

process_loop-Processed :
    (now count : ℕ) (ts : List TimeOutInfo) (infos : Map WillConnect)
    → Processed now (100 - count) ts infos (process_loop now count ts infos)
unfolding process_loop
process_loop-Processed now count [] infos =
    Processed-none now (100 - count) [] infos _ (over_nil now (100 - count)) refl
process_loop-Processed now count (t ∷ ts) infos =
    let ih = process_loop-Processed now (count + 1) ts (erase infos t.unique_id) in
    elim (Bool-cases (ltb count 100 && ltb t.move_time now)) [
      | inl e ↦ record {
        told =
            ground (arith, over_step now count t ts, ih.told, process_loop_go now count t ts infos);
        rest =
            ground (arith, over_step now count t ts, ih.rest, process_loop_go now count t ts infos);
        forgotten = λ u. ground (
          arith,
          over_step now count t ts,
          ih.forgotten u,
          find-erase infos t.unique_id u,
          process_loop_go now count t ts infos,
        );
      }
      | inr e ↦
          Processed-none now (100 - count) (t ∷ ts) infos _ (over_stop now count t ts e)
            (process_loop_stop now count t ts infos (over_stop now count t ts e))
    ]

length-over : (now n : ℕ) (ts : List TimeOutInfo) → length (over now n ts) ≤ n
length-over now zero ts = omega arith
length-over now (suc n) [] = omega arith
length-over now (suc n) (t ∷ ts) = ground (arith, length-over now n ts)

length-users : (ts : List TimeOutInfo) → length (users ts) ≡ length ts
length-users [] = refl
length-users (t ∷ ts) = ap suc (length-users ts)

-- A run handles the entries at the front of the queue that are over, 100 at most: the master server is
-- told their users in the order of the queue, they leave the queue, and just these users are no longer
-- expected.
pub process_time_out_will_connect_lem :
    (m : ClientManager) (now : ℕ)
    → let gone = over now 100 m.time_out_queue in
      let (told, m') = process_time_out_will_connect m now in
      (told ≡ users gone)
      × (length told ≤ 100)
      × (m'.time_out_queue ≡ drop (length gone) m.time_out_queue)
      × ((u : ℕ)
          → find m'.will_connect_infos u
            ≡ (if is_in u told then none else find m.will_connect_infos u))
unfolding process_time_out_will_connect
process_time_out_will_connect_lem m now =
    let p = process_loop-Processed now 0 m.time_out_queue m.will_connect_infos in
    let n = length-over now 100 m.time_out_queue in
    (
      p.told,
      subst (λ x. length x ≤ 100) (sym p.told)
          (omega (arith, n, length-users (over now 100 m.time_out_queue))),
      p.rest,
      λ u.
          p.forgotten u
          ∙ ap (λ x. if is_in u x then none else find m.will_connect_infos u) (sym p.told),
    )

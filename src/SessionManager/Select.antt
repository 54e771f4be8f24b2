-- ===== src/SessionManager/Select.antt =====
-- The choice of a manager for a new session, and the elements of the array of managers.
use linuxgameserver.Common.{
  ℕ, zero, suc, ◌+◌, ◌≤◌, ◌<◌, ◌≡◌, refl, ◌∙◌, ◌⊎◌, sym, subst, ltb, ltb→lt, ltb→le, none, some,
  List, [], ◌∷◌, if◌then◌else◌, ◌==◌, length, get_elem?, Bool-cases, inl, inr, arith,
}
use linuxgameserver.Common.Words.{int_lt}
use linuxgameserver.SessionManager.{
  SessionManager, MasterSessionManager, select_from, select_session_manager, update, most,
}

pub select_from_lt :
    (ms : List SessionManager) (i best least : ℕ)
    → best < i + length ms
    → select_from ms i best least < i + length ms
unfolding select_from
select_from_lt [] i best least h = h
select_from_lt (m ∷ ms) i best least h = ground (
  arith,
  select_from_lt ms (suc i) i m.current_session_managered (omega arith),
  select_from_lt ms (suc i) best least (omega arith),
)

-- The sessions of the manager at an index, `most` behind the end.
abbrev pub load : List SessionManager → ℕ → ℕ
load ms i = elim (get_elem? ms i) [ some m ↦ m.current_session_managered | none ↦ most ]

-- The counts are `int`s that are not negative.
abbrev pub AllCounts : List SessionManager → Type 0
AllCounts [] = Unit
AllCounts (m ∷ ms) = (m.current_session_managered ≤ most) × AllCounts ms

abbrev pub IsLeast : List SessionManager → ℕ → Type 0
IsLeast ms n = (j : ℕ) → n ≤ load ms j

-- Either the first choice stays, and no manager has fewer than `least` sessions, or the result is
-- the index of a manager with the fewest sessions.
abbrev pub Chosen : List SessionManager → ℕ → ℕ → ℕ → ℕ → Type 0
Chosen ms i best least r =
    ((r ≡ best) × IsLeast ms least)
    ⊎ ((k : ℕ) × (r ≡ i + k) × IsLeast ms (load ms k) × (load ms k < least))

IsLeast-cons :
    (m : SessionManager) (ms : List SessionManager) (n : ℕ)
    → n ≤ m.current_session_managered
    → IsLeast ms n
    → IsLeast (m ∷ ms) n
IsLeast-cons m ms n h l zero = h
IsLeast-cons m ms n h l (suc j) = l j

IsLeast-le : (ms : List SessionManager) (n k : ℕ) → n ≤ k → IsLeast ms k → IsLeast ms n
IsLeast-le ms n k h l j = omega (arith, l j)

select_from_taken :
    (m : SessionManager) (ms : List SessionManager) (i best least : ℕ)
    → m.current_session_managered < least
    → least ≤ most
    → select_from (m ∷ ms) i best least ≡ select_from ms (suc i) i m.current_session_managered
unfolding select_from int_lt
select_from_taken m ms i best least h l = ground arith

select_from_kept :
    (m : SessionManager) (ms : List SessionManager) (i best least : ℕ)
    → least ≤ m.current_session_managered
    → m.current_session_managered ≤ most
    → select_from (m ∷ ms) i best least ≡ select_from ms (suc i) best least
unfolding select_from int_lt
select_from_kept m ms i best least h l = ground arith

pub select_from_least :
    (ms : List SessionManager) (i best least : ℕ)
    → AllCounts ms
    → least ≤ most
    → Chosen ms i best least (select_from ms i best least)
unfolding select_from
select_from_least [] i best least h l = inl (refl, λ j. l)
select_from_least (m ∷ ms) i best least (h, hs) l =
    elim (Bool-cases (ltb m.current_session_managered least)) [
      | inl e ↦
          subst (Chosen (m ∷ ms) i best least)
            (sym (select_from_taken m ms i best least (ltb→lt _ _ e) l))
            (elim (select_from_least ms (suc i) i m.current_session_managered hs h) [
              | inl (r, a) ↦
                  inr (0, r ∙ omega arith, IsLeast-cons m ms _ (omega arith) a, ltb→lt _ _ e)
              | inr (k, r, a, b) ↦ inr (
                suc k,
                r ∙ omega arith,
                IsLeast-cons m ms _ (omega arith) a,
                omega (arith, b, ltb→lt _ _ e),
              )
            ])
      | inr e ↦
          subst (Chosen (m ∷ ms) i best least)
            (sym (select_from_kept m ms i best least (ltb→le _ _ e) h))
            (elim (select_from_least ms (suc i) best least hs l) [
              | inl (r, a) ↦ inl (r, IsLeast-cons m ms least (ltb→le _ _ e) a)
              | inr (k, r, a, b) ↦ inr (
                suc k,
                r ∙ omega arith,
                IsLeast-cons m ms _ (omega (arith, b, ltb→le _ _ e)) a,
                b,
              )
            ])
    ]

load-most : (ms : List SessionManager) (i : ℕ) → AllCounts ms → load ms i ≤ most
load-most [] i h = omega arith
load-most (m ∷ ms) zero (h, hs) = h
load-most (m ∷ ms) (suc i) (h, hs) = load-most ms i hs

-- The manager for a new session is one with the fewest sessions.
pub select_session_manager_least :
    (m : MasterSessionManager) (j : ℕ)
    → AllCounts m.managers
    → load m.managers (select_session_manager m) ≤ load m.managers j
select_session_manager_least m j h = elim (select_from_least m.managers 0 0 most h (omega arith)) [
  | inl (r, a) ↦
      subst (λ n. load m.managers n ≤ load m.managers j) (sym r)
        (omega (arith, load-most m.managers 0 h, a j))
  | inr (i, r, a, b) ↦
      subst (λ n. load m.managers n ≤ load m.managers j) (sym (r ∙ omega arith)) (a j)
]

pub get_elem?-update :
    (ms : List SessionManager) (i j : ℕ) (f : SessionManager → SessionManager)
    → get_elem? (update ms i f) j ≡ (
        if i == j
        then (elim (get_elem? ms j) [ none ↦ none | some m ↦ some (f m) ])
        else get_elem? ms j)
unfolding update
get_elem?-update [] i j f = ground arith
get_elem?-update (m ∷ ms) zero zero f = refl
get_elem?-update (m ∷ ms) zero (suc j) f = ground arith
get_elem?-update (m ∷ ms) (suc i) zero f = ground arith
get_elem?-update (m ∷ ms) (suc i) (suc j) f = ground (arith, get_elem?-update ms i j f)

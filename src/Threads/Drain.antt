-- ===== src/Threads/Drain.antt =====
-- The loop of a thread that takes the sessions to stop from its queue.
use linuxgameserver.Common.{
  ℕ, zero, suc, ◌+◌, ◌-◌, ◌*◌, ◌≤◌, ◌≡◌, refl, sym, subst, Bool-cases, Option-cases, inl, inr, List,
  [], ◌∷◌, length, arith,
}
use linuxgameserver.Common.Maps.{find}
use linuxgameserver.Threads.{Work, idle, taken, stopped, all_stopped, NetWorkServices}
use linuxgameserver.Threads.Closing.{take_will_close, work_from, work_step, all_stops}
use linuxgameserver.Threads.Movers.{work_from-handed, work_from_late}

abbrev rank : Work → ℕ
rank idle = 0
rank (taken p) = 3
rank (stopped p) = 2
rank (all_stopped p) = 1

-- The steps that a thread has before it, at most.
abbrev pub left_to_do : NetWorkServices → ℕ → ℕ → ℕ
left_to_do s r t = 4 * length (s.will_close r t) + rank (s.work r t)

-- A number of steps of one thread.
unfoldable pub run_work : ℕ → NetWorkServices → ℕ → ℕ → NetWorkServices
run_work zero s r t = s
run_work (suc n) s r t = run_work n (work_step s r t) r t

take_left :
    (s : NetWorkServices) (r t : ℕ) (q : List ℕ)
    → s.will_close r t ≡ q
    → s.work r t ≡ idle
    → left_to_do (take_will_close s r t q) r t ≤ left_to_do s r t - 1
unfolding take_will_close
take_left s r t [] e w = ground arith
take_left s r t (p ∷ q) e w = ground arith

read_left :
    (s : NetWorkServices) (r t p : ℕ)
    → s.work r t ≡ stopped p
    → left_to_do (work_from s r t (stopped p)) r t ≤ left_to_do s r t - 1
unfolding work_from
read_left s r t p w = elim (Bool-cases (all_stops s p)) [
  | inl e ↦ ground arith
  | inr e ↦ ground arith
]

move_left :
    (s : NetWorkServices) (r t p : ℕ)
    → s.work r t ≡ all_stopped p
    → left_to_do (work_from s r t (all_stopped p)) r t ≤ left_to_do s r t - 1
move_left s r t p w = elim (Option-cases (find s.sessions.will_reuse p)) [
  | inl e ↦
      subst (λ n. left_to_do n r t ≤ left_to_do s r t - 1) (sym (work_from_late s r t p e))
        (ground arith)
  | inr (q, e) ↦
      subst (λ n. left_to_do n r t ≤ left_to_do s r t - 1) (sym (work_from-handed s r t p q e))
        (ground arith)
]

work_left :
    (s : NetWorkServices) (r t : ℕ) (w : Work)
    → s.work r t ≡ w
    → left_to_do (work_from s r t w) r t ≤ left_to_do s r t - 1
unfolding work_from
work_left s r t idle w = take_left s r t (s.will_close r t) refl w
work_left s r t (taken p) w = ground arith
work_left s r t (stopped p) w = read_left s r t p w
work_left s r t (all_stopped p) w = move_left s r t p w

nothing_left : (q : List ℕ) (w : Work) → 4 * length q + rank w ≡ 0 → (q ≡ []) × (w ≡ idle)
nothing_left [] idle e = (refl, refl)
nothing_left [] (taken p) e = absurd (omega arith)
nothing_left [] (stopped p) e = absurd (omega arith)
nothing_left [] (all_stopped p) e = absurd (omega arith)
nothing_left (x ∷ q) w e = absurd (omega arith)

left_nothing :
    (s : NetWorkServices) (r t : ℕ)
    → left_to_do s r t ≡ 0
    → (s.will_close r t ≡ []) × (s.work r t ≡ idle)
left_nothing s r t e = nothing_left (s.will_close r t) (s.work r t) e

-- A thread that is told of no more sessions comes to the end of its queue and of its work, in four
-- steps for each session of the queue and three more.
pub run_work_ends :
    (n : ℕ) (s : NetWorkServices) (r t : ℕ)
    → left_to_do s r t ≤ n
    → let s' = run_work n s r t in (s'.will_close r t ≡ []) × (s'.work r t ≡ idle)
unfolding run_work
run_work_ends zero s r t h = left_nothing s r t (omega arith)
run_work_ends (suc n) s r t h =
    run_work_ends n (work_step s r t) r t (omega (arith, work_left s r t (s.work r t) refl))

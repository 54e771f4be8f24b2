-- ===== src/Threads/Drained.antt =====
-- The threads that stop a session, one after another until each has nothing to do.
use linuxgameserver.Common.{ℕ, ◌+◌, ◌≤◌, ◌≡◌, ◌&&◌, ◌||◌, Bool, false, List, [], ◌∷◌, ◌==◌}
use linuxgameserver.Threads.{idle, waiting, NetWorkServices}
use linuxgameserver.Threads.Sound.{IsSound, waits, pooled}
use linuxgameserver.Threads.Drain.{run_work, left_to_do}

abbrev pub IsAtRest : NetWorkServices → ℕ → ℕ → Type 0
IsAtRest s r t = (s.will_close r t ≡ []) × (s.work r t ≡ idle)

-- What the steps of thread `t` of the kind `r` keep.
record Kept (s n : NetWorkServices) (r t : ℕ) : Type 0 where
  closing : n.close_work ≡ s.close_work
  failed : n.failures ≡ s.failures
  queues : (a b : ℕ) → ((r == a) && (t == b)) ≡ false → n.will_close a b ≡ s.will_close a b
  at_work : (a b : ℕ) → ((r == a) && (t == b)) ≡ false → n.work a b ≡ s.work a b
  sessions :
      (p : ℕ) → waits s.sessions p + pooled s.sessions p ≤ waits n.sessions p + pooled n.sessions p

-- Each thread of the list until it has nothing to do.
unfoldable pub run_threads : List (ℕ × ℕ) → NetWorkServices → NetWorkServices
run_threads [] s = s
run_threads ((r, t) ∷ ts) s = run_threads ts (run_work (left_to_do s r t) s r t)

abbrev pub is_listed : List (ℕ × ℕ) → ℕ → ℕ → Bool
is_listed [] a b = false
is_listed ((r, t) ∷ ts) a b = ((r == a) && (t == b)) || is_listed ts a b

-- The close thread has nobody to tell, no notice failed, and the threads outside of the list have
-- nothing to do.
pub record IsLeft (ts : List (ℕ × ℕ)) (s : NetWorkServices) : Type 0 where
  pub sound : IsSound s
  pub no_closing : s.close_work ≡ waiting
  pub no_failure : s.failures ≡ 0
  pub others : (a b : ℕ) → is_listed ts a b ≡ false → IsAtRest s a b

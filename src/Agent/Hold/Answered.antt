-- ===== src/Agent/Hold/Answered.antt =====
-- What the caller of `tryLockTaskForExec` is told, and when the task is cancelled.
use gopher_cron.Base.{
  ℕ, suc, ◌+◌, ◌*◌, length, ◌≤◌, ◌<◌, List, [], ◌∷◌, ◌++◌, true, false, All, ◌≡◌, inl, inr, refl,
  arith, Bool-cases,
}
use gopher_cron.Agent.Hold.{
  Code, aborted, unauthenticated, canceled, other, Turn, expired, refused, held_to_end, held_until,
  Held, stops, sleep, take, after_loss, hold_loop, try_lock_task_for_exec, begin,
}

abbrev pub refusals : List Code → List Turn
refusals [] = []
refusals (c ∷ cs) = refused c ∷ refusals cs

-- the refusals that the loop answers with another try
abbrev pub Passing : Code → Type 0
Passing aborted = ⊥
Passing unauthenticated = ⊥
Passing _ = Unit {0}

stops-Passing :
    (code : Code) (tries : ℕ) → tries ≤ 3 → stops code tries ≡ false → Passing code × (tries < 3)
stops-Passing aborted tries h e = cc
stops-Passing unauthenticated tries h e = cc
stops-Passing canceled tries h e = (tt, ground arith)
stops-Passing other tries h e = (tt, ground arith)

-- The context expires while nothing was answered and the refusals so far were all passed.
abbrev pub ExpiresFrom : ℕ → List Turn → Type 0
ExpiresFrom tries turns =
    (codes : List Code) × (rest : List Turn) × All Passing codes
    × (tries + length codes ≤ 3)
    × (turns ≡ refusals codes ++ expired ∷ rest)

-- Refusals from a number of tries on that reach four end the loop.
refused_out :
    (codes : List Code) (rest : List Turn) (tries : ℕ) (h : Held)
    → tries ≤ 3
    → 4 ≤ tries + length codes
    → (hold_loop (refusals codes ++ rest) tries h).cancelled ≡ true
unfolding hold_loop
refused_out [] rest tries h t le = ground arith
refused_out (c ∷ cs) rest tries h t le = elim (Bool-cases (stops c tries)) [
  | inl s ↦ rw s refl
  | inr s ↦ rw s (
      refused_out cs rest (suc tries) (sleep (1000 * tries) h) (stops-Passing c tries t s).1
        (omega arith))
]

refused_later :
    (turns : List Turn) (codes : List Code) (rest : List Turn) (tries : ℕ) (h : Held)
    → tries ≤ 3
    → 4 ≤ length codes
    → (hold_loop (turns ++ refusals codes ++ rest) tries h).cancelled ≡ true
unfolding hold_loop
refused_later [] codes rest tries h t le = refused_out codes rest tries h t (omega arith)
refused_later (expired ∷ turns) codes rest tries h t le = refl
refused_later (refused c ∷ turns) codes rest tries h t le = elim (Bool-cases (stops c tries)) [
  | inl s ↦ rw s refl
  | inr s ↦ rw s (
      refused_later turns codes rest (suc tries) (sleep (1000 * tries) h)
        (stops-Passing c tries t s).1 le)
]
refused_later (held_to_end ∷ turns) codes rest tries h t le = refl
refused_later (held_until lost ∷ turns) codes rest tries h t le =
    refused_later turns codes rest 0 (after_loss lost (take h)) (omega arith) le

-- Whatever happened before, four refusals in a row cancel the task: it does not go on for long
-- without its lock.
pub try_lock_task_for_exec-refused :
    (latency : ℕ) (turns : List Turn) (codes : List Code) (rest : List Turn)
    → 4 ≤ length codes
    → (try_lock_task_for_exec latency (turns ++ refusals codes ++ rest)).cancelled ≡ true
unfolding try_lock_task_for_exec
try_lock_task_for_exec-refused latency turns codes rest le =
    refused_later turns codes rest 0 (begin latency) (omega arith) le

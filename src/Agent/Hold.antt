-- ===== src/Agent/Hold.antt =====
-- How the agent takes the lock of a run and keeps it: `tryLockTaskForExec` of agent/scheduler.go.
-- What the center and the clock do is the list of turns of the loop: the context of the task is
-- over when the loop looks, the center refuses the lock, or it grants the lock, which then lasts
-- until the context is over or the stream of the lock ends. A list that ends leaves the loop
-- waiting. A panic inside the loop is not modelled.
pub mod Answered
use gopher_cron.Base.{
  ℕ, suc, ◌+◌, ◌*◌, List, [], ◌∷◌, Bool, true, false, Option, none, some, ◌==◌, if◌then◌else◌,
}

-- `codes.Code` as far as the loop looks at it
pub data Code : Type 0 where
  aborted unauthenticated canceled other : Code

-- `closed` is a stream that ends without an error.
pub data Lost : Type 0 where
  closed : Lost
  broken : Code → Lost

pub data Turn : Type 0 where
  expired : Turn
  refused : Code → Turn
  held_to_end : Turn
  held_until : Lost → Turn

-- What `resultChan` gives the caller: an error, or nil once the channel is closed.
pub data Answer : Type 0 where
  locked : Answer
  failed : Code → Answer

-- `answer` is `none` while the caller waits. `cancelled`: `CancelFunc` was called. `noted`: the
-- reason was written to `taskResultWriter`. `sleeps` is in milliseconds, latest first.
pub record Held : Type 0 where
  pub answer : Option Answer
  pub cancelled : Bool
  pub noted : Bool
  pub sleeps : List ℕ

abbrev pub stops : Code → ℕ → Bool
stops aborted tries = true
stops unauthenticated tries = true
stops _ tries = tries == 3

-- `once.Do`
abbrev pub first_answer : Answer → Option Answer → Option Answer
first_answer a none = some a
first_answer a (some b) = some b

abbrev pub is_first : Option Answer → Bool
is_first none = true
is_first (some a) = false

abbrev pub cancel : Held → Held
cancel h = record h { cancelled = true }

abbrev pub sleep : ℕ → Held → Held
sleep ms h = record h { sleeps = ms ∷ h.sleeps }

abbrev pub give_up : Code → Held → Held
give_up code h = record h {
  answer = first_answer (failed code) h.answer;
  noted = if is_first h.answer then h.noted else true;
}

abbrev pub take : Held → Held
take h = record h { answer = first_answer locked h.answer }

abbrev pub after_loss : Lost → Held → Held
after_loss (broken canceled) h = sleep 100 h
after_loss _ h = h

unfoldable pub hold_loop : List Turn → (tries : ℕ) → Held → Held
hold_loop [] tries h = h
hold_loop (expired ∷ turns) tries h = cancel h
hold_loop (refused code ∷ turns) tries h =
    let retried = hold_loop turns (suc tries) (sleep (1000 * tries) h) in
    if stops code tries then cancel (give_up code h) else retried
hold_loop (held_to_end ∷ turns) tries h = cancel (take h)
hold_loop (held_until lost ∷ turns) tries h = hold_loop turns 0 (after_loss lost (take h))

abbrev pub begin : (latency : ℕ) → Held
begin latency = record { answer = none; cancelled = false; noted = false; sleeps = latency ∷ [] }

unfoldable pub try_lock_task_for_exec : (latency : ℕ) → List Turn → Held
unfolding hold_loop
try_lock_task_for_exec latency turns = hold_loop turns 0 (begin latency)

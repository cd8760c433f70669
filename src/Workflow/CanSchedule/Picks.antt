-- ===== src/Workflow/CanSchedule/Picks.antt =====
-- What the body of the loop decides for one task.
use gopher_cron.Base.{◌≤◌, ◌<◌, Text, List, [], ◌∷◌, true, ◌≡◌, ◌⊎◌, ◌↔◌, refl, arith, All, length}
use gopher_cron.Base.Map.{lookup}
use gopher_cron.Workflow.Types.{
  Status, starting, finished, not_running, fail, other, WorkflowTaskInfo, eq_info,
  WorkflowTaskStates, workflow_schedule_limit,
}
use gopher_cron.Workflow.CanSchedule.{
  Env, StatesMap, skip, hold, pick, give_up, is_empty, entry_done, deps_done, state_of, choose,
  choose_status,
}

-- The task is on record as done.
abbrev pub IsDone : StatesMap → WorkflowTaskInfo → Type 0
IsDone m t = entry_done (lookup t m) ≡ true

-- Each task that this one waits for is done.
abbrev pub DepsDone : StatesMap → List WorkflowTaskInfo → Type 0
DepsDone m = All (λ d. (d.task_id ≡ []) ⊎ IsDone m d)

is_empty_iff : (t : Text) → (is_empty t ≡ true) ↔ (t ≡ [])
is_empty_iff [] = (λ _. refl, λ _. refl)
is_empty_iff (c ∷ t) = (λ h. cc, λ h. cc)

pub deps_done_iff :
    (m : StatesMap) (deps : List WorkflowTaskInfo) → (deps_done m deps ≡ true) ↔ DepsDone m deps
unfolding deps_done
deps_done_iff m [] = (λ _. tt, λ _. refl)
deps_done_iff m (d ∷ deps) = (
  λ h. ground (arith, is_empty_iff d.task_id, deps_done_iff m deps),
  λ h. ground (arith, is_empty_iff d.task_id, deps_done_iff m deps),
)

-- A task that may be started: it waits to be started, or it was started or failed fewer than
-- three times.
abbrev pub MayStart : WorkflowTaskStates → Type 0
MayStart s =
    (s.current_status ≡ not_running)
    ⊎ ((s.current_status ≡ starting) × (s.schedule_count < workflow_schedule_limit))
    ⊎ ((s.current_status ≡ fail) × (s.schedule_count < workflow_schedule_limit))

-- A task whose starts are used up.
abbrev pub IsExhausted : WorkflowTaskStates → Type 0
IsExhausted s =
    ((s.current_status ≡ starting) ⊎ (s.current_status ≡ fail))
    × (workflow_schedule_limit ≤ s.schedule_count)

abbrev pub IsKnown : Status → Type 0
IsKnown finished = ⊥
IsKnown (other t) = ⊥
IsKnown _ = Unit

module _ (env : Env) (task : WorkflowTaskInfo) where
  choose_status-pick :
      (st : Status) (s : WorkflowTaskStates)
      → choose_status env task st s ≡ pick
      → (st ≡ not_running)
        ⊎ ((st ≡ starting) × (s.schedule_count < workflow_schedule_limit))
        ⊎ ((st ≡ fail) × (s.schedule_count < workflow_schedule_limit))
  unfolding choose_status
  choose_status-pick st s h = ground arith

  choose_status-give_up :
      (st : Status) (s : WorkflowTaskStates)
      → choose_status env task st s ≡ give_up
      → ((st ≡ starting) ⊎ (st ≡ fail)) × (workflow_schedule_limit ≤ s.schedule_count)
  unfolding choose_status
  choose_status-give_up st s h = ground arith

module _ (env : Env) (m : StatesMap) (task : WorkflowTaskInfo) (deps : List WorkflowTaskInfo) where
  pub choose-pick :
      choose env m task deps ≡ pick
      → (¬ IsDone m task) × DepsDone m deps × MayStart (state_of (lookup task m))
  unfolding choose choose_status
  choose-pick h = (
    λ d. ground arith,
    (deps_done_iff m deps).0 (ground arith),
    choose_status-pick env task (state_of (lookup task m)).current_status (state_of (lookup task m))
        (ground arith),
  )

  pub choose-give_up :
      choose env m task deps ≡ give_up
      → (¬ IsDone m task) × DepsDone m deps × IsExhausted (state_of (lookup task m))
  unfolding choose choose_status
  choose-give_up h = (
    λ d. ground arith,
    (deps_done_iff m deps).0 (ground arith),
    choose_status-give_up env task (state_of (lookup task m)).current_status
        (state_of (lookup task m)) (ground arith),
  )

  -- A task is passed over only if it is done, or has a status that no task is given.
  pub choose-skip :
      choose env m task deps ≡ skip
      → IsKnown (state_of (lookup task m)).current_status
      → IsDone m task
  unfolding choose choose_status
  choose-skip h k = ground arith

  pub choose_done : IsDone m task → choose env m task deps ≡ skip
  unfolding choose
  choose_done h = rw h

  -- While a task waits for another the loop goes on.
  pub choose_waiting : ¬ IsDone m task → ¬ DepsDone m deps → choose env m task deps ≡ hold
  unfolding choose
  choose_waiting h k = ground (arith, deps_done_iff m deps)

  -- A task that is not running and has at most one record is started without a debounce.
  pub choose_waits_to_start :
      DepsDone m deps
      → (state_of (lookup task m)).current_status ≡ not_running
      → length (state_of (lookup task m)).schedule_records ≤ 1
      → choose env m task deps ≡ pick
  unfolding choose choose_status
  choose_waits_to_start d h k = ground (arith, deps_done_iff m deps)

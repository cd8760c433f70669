-- ===== src/Workflow/CanSchedule.antt =====
-- `WorkflowPlan.CanSchedule` of app/workflow.go: which tasks of a plan are started next. The loop
-- reads locks, stops tasks on the agents and writes to etcd: those answers come from `Env`.
pub mod Picks
pub mod Rounds
pub mod Starts
use gopher_cron.Base.{
  ℕ, suc, ◌+◌, Text, List, [], ◌∷◌, ◌++◌, Bool, true, false, not, ◌&&◌, ◌||◌, Option, none, some,
  leb, ltb, if◌then◌else◌, length, get_last?, has_prefix, codes,
}
use gopher_cron.Base.Map.{lookup, insert}
use gopher_cron.Keys.{build_workflow_task_status_key_prefix}
use gopher_cron.Workflow.Types.{
  Status, starting, running, not_running, done, fail, is_done, workflow_schedule_limit,
  WorkflowTaskInfo, eq_info, WorkflowTaskStates, WorkflowRunningTaskInfo, Err, internal_error,
  nil_pointer, etcd_error, workflow_in_process, Result, ok, err, Doc, json, corrupt,
}
use gopher_cron.Workflow.TaskStates.{Docs, set_workflow_task_not_running}

-- `common.WorkflowTask`, the fields that are read
pub record WorkflowTask : Type 0 where
  pub task_id : Text
  pub project_id : ℕ
  pub task_name : Text
  pub command : Text
  pub remark : Text
  pub timeout : ℕ
  pub noseize : ℕ

-- A task with the tasks that it waits for. An empty task id among these waits for nothing.
abbrev pub TaskFlow : Type 0
TaskFlow = List (WorkflowTaskInfo × List WorkflowTaskInfo)

-- The states read at the start of a round, by task.
abbrev pub StatesMap : Type 0
StatesMap = List (WorkflowTaskInfo × WorkflowTaskStates)

-- What the loop learns from outside while it visits a task: the clock at the debounce test and at
-- the re-run mark, `Deploy.Timeout`, the tasks that are being scheduled, whether the lock of the
-- task is held, whether the agents were told to stop it, and whether the transaction was stored.
pub record Env : Type 0 where
  pub now : WorkflowTaskInfo → ℕ
  pub mark_time : WorkflowTaskInfo → ℕ
  pub timeout : ℕ
  pub is_in_process : Text → Bool
  pub lock_exist : WorkflowTaskInfo → Result Bool
  pub kill_workflow_tasks : WorkflowTaskInfo → Result (Unit {0})
  pub stored : WorkflowTaskInfo → Bool

-- What the body of the loop does with one task: nothing, wait for it, start it, look whether its
-- lock is still held, or give the whole plan up.
pub data Choice : Type 0 where
  skip hold pick recheck give_up : Choice

module _ (env : Env) (task : WorkflowTaskInfo) where
  after_debounce : WorkflowTaskStates → Bool
  after_debounce s = elim (get_last? s.schedule_records) [
    | none ↦ true
    | some r ↦ leb (r.event_time + (env.timeout + 2)) (env.now task)
  ]

  -- the case `TASK_STATUS_NOT_RUNNING_V2`, into which the failed case falls through
  pick_or_hold : WorkflowTaskStates → Choice
  pick_or_hold s =
      if ltb 1 (length s.schedule_records) && not (after_debounce s) then hold else pick

  abbrev latest_is_starting : WorkflowTaskStates → Bool
  latest_is_starting s = elim (get_last? s.schedule_records) [
    | none ↦ false
    | some r ↦ elim r.status [ starting ↦ true | _ ↦ false ]
  ]

  -- the `switch` on the current status
  unfoldable pub choose_status : Status → WorkflowTaskStates → Choice
  unfolding after_debounce pick_or_hold
  choose_status running s = if after_debounce s then recheck else hold
  choose_status fail s =
      if leb workflow_schedule_limit s.schedule_count then give_up else pick_or_hold s
  choose_status not_running s = pick_or_hold s
  choose_status starting s =
      if leb workflow_schedule_limit s.schedule_count
      then give_up
      else if env.is_in_process task.task_id || latest_is_starting s && not (after_debounce s)
      then hold
      else pick
  choose_status _ s = skip

abbrev pub is_empty : Text → Bool
is_empty [] = true
is_empty (c ∷ s) = false

abbrev pub entry_done : Option WorkflowTaskStates → Bool
entry_done none = false
entry_done (some s) = is_done s.current_status

unfoldable pub deps_done : StatesMap → List WorkflowTaskInfo → Bool
deps_done m [] = true
deps_done m (d ∷ deps) = (is_empty d.task_id || entry_done (lookup d m)) && deps_done m deps

-- The state of a task that never ran.
abbrev pub fresh : WorkflowTaskStates
fresh = record {
  project_id = 0;
  task_id = [];
  workflow_id = 0;
  current_status = not_running;
  schedule_count = 0;
  command = [];
  start_time = 0;
  end_time = 0;
  schedule_records = [];
}

abbrev pub state_of : Option WorkflowTaskStates → WorkflowTaskStates
state_of none = fresh
state_of (some s) = s

unfoldable pub choose : Env → StatesMap → WorkflowTaskInfo → List WorkflowTaskInfo → Choice
choose env m task deps =
    if entry_done (lookup task m)
    then skip
    else if not (deps_done m deps)
    then hold
    else choose_status env task (state_of (lookup task m)).current_status (state_of (lookup task m))

-- The three results of the Go function: (readys, finished, nil), (nil, true, ErrWorkflowFailed)
-- and (nil, false, err).
pub data Outcome : Type 0 where
  tasks : List WorkflowTaskInfo → Bool → Outcome
  plan_failed : Outcome
  stopped : Err → Outcome

abbrev with_doc :
    Doc WorkflowTaskStates → Result (List WorkflowTaskStates) → Result (List WorkflowTaskStates)
with_doc corrupt rest = err internal_error
with_doc (json s) (ok ss) = ok (s ∷ ss)
with_doc (json s) (err e) = err e

-- The documents whose keys begin with a prefix, decoded; one that cannot be decoded is an error.
unfoldable pub get_workflow_tasks_states : Text → Docs → Result (List WorkflowTaskStates)
get_workflow_tasks_states prefix [] = ok []
get_workflow_tasks_states prefix ((k, d) ∷ docs) =
    if has_prefix k prefix
    then with_doc d (get_workflow_tasks_states prefix docs)
    else get_workflow_tasks_states prefix docs

abbrev state_key : WorkflowTaskStates → WorkflowTaskInfo
state_key s = record { project_id = s.project_id; task_id = s.task_id }

unfoldable pub states_map : List WorkflowTaskStates → StatesMap → StatesMap
states_map [] m = m
states_map (s ∷ ss) m = states_map ss (insert (state_key s) s m)

module _ (etcd_prefix : Text) (env : Env) (workflow_id : ℕ) where
  -- The re-run of a task whose lock is gone. The plan's own record of the task gives the key.
  unfoldable pub mark_rerun :
      WorkflowTaskInfo → Option WorkflowTask → WorkflowTaskStates → Docs → Docs × Result (Unit {0})
  mark_rerun task none s docs = (docs, err nil_pointer)
  mark_rerun task (some wt) s docs = elim (get_last? s.schedule_records) [
    | none ↦ (docs, err nil_pointer)
    | some r ↦
        if env.stored task
        then set_workflow_task_not_running etcd_prefix (env.mark_time task)
            (record {
              workflow_id = workflow_id;
              tmp_id = r.tmp_id;
              task_id = wt.task_id;
              task_name = wt.task_name;
              project_id = wt.project_id;
              agent_ip = [];
            })
            (codes "waiting re-run") docs
        else (docs, err etcd_error)
  ]

  -- A running task whose lock is held goes on; one whose lock is gone is stopped and marked.
  unfoldable pub check_lock :
      WorkflowTaskInfo → Option WorkflowTask → WorkflowTaskStates → Docs → Docs × Result (Unit {0})
  unfolding mark_rerun
  check_lock task wt s docs = elim (env.lock_exist task) [
    | err e ↦ (docs, ok tt)
    | ok true ↦ (docs, ok tt)
    | ok false ↦ elim (env.kill_workflow_tasks task) [
      | err e ↦ (docs, ok tt)
      | ok u ↦ mark_rerun task wt s docs
    ]
  ]

  -- The loop over `TaskFlow`, with the tasks found so far and the flag `finished`.
  unfoldable pub rounds :
      StatesMap
      → List (WorkflowTaskInfo × WorkflowTask)
      → TaskFlow
      → List WorkflowTaskInfo
      → Bool
      → Docs
      → Docs × Outcome
  rounds m known [] readys finished docs = (docs, tasks readys finished)
  rounds m known ((task, deps) ∷ flow) readys finished docs = elim (choose env m task deps) [
    | skip ↦ rounds m known flow readys finished docs
    | hold ↦ rounds m known flow readys false docs
    | pick ↦ rounds m known flow (readys ++ task ∷ []) false docs
    | give_up ↦ (docs, plan_failed)
    | recheck ↦
        let (docs', checked) =
          check_lock task (lookup task known) (state_of (lookup task m)) docs in
        elim checked [ ok u ↦ rounds m known flow readys false docs' | err e ↦ (docs', stopped e) ]
  ]

  -- `locked` says that another goroutine holds the lock of the plan.
  unfoldable pub can_schedule :
      (locked : Bool) → List (WorkflowTaskInfo × WorkflowTask) → TaskFlow → Docs → Docs × Outcome
  can_schedule true known flow docs = (docs, stopped workflow_in_process)
  can_schedule false known flow docs =
      elim (get_workflow_tasks_states
        (build_workflow_task_status_key_prefix etcd_prefix workflow_id) docs) [
          | err e ↦ (docs, stopped e)
          | ok states ↦ rounds (states_map states []) known flow [] true docs
        ]

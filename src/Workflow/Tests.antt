-- ===== src/Workflow/Tests.antt =====
-- A workflow of two tasks, the second of which waits for the first.
use gopher_cron.Base.{
  ℕ, Text, List, [], ◌∷◌, Bool, true, false, Option, none, some, codes, ◌≡◌, ◌≢◌, ◌≤◌, ◌<◌, ◌↔◌,
  ◌⊎◌, inl, inr, refl, arith, All, Any, In, ◌+◌, ◌*◌, ◌==◌, if◌then◌else◌, eq_text, length,
}
use gopher_cron.Base.Map.{lookup}
use gopher_cron.Keys.{build_workflow_task_status_key, build_workflow_task_status_key_prefix}
use gopher_cron.Workflow.Types.{
  Status, starting, running, finished, not_running, done, fail, WorkflowTaskInfo, eq_info,
  WorkflowTaskStates, WorkflowTaskScheduleRecord, PlanState, WorkflowInfo, TaskInfo,
  WorkflowRunningTaskInfo, TaskFinished, Result, ok, err, unknown, Doc, json,
}
use gopher_cron.Workflow.TaskStates.{Docs}
use gopher_cron.Workflow.CanSchedule.{
  WorkflowTask, TaskFlow, Env, get_workflow_tasks_states, can_schedule, Outcome, tasks, plan_failed,
  states_map, state_of,
}
use gopher_cron.Workflow.CanSchedule.Picks.{IsDone, DepsDone, MayStart, IsKnown}
use gopher_cron.Workflow.CanSchedule.Starts.{
  HasEntry, WaitsIn, can_schedule-MayStart, can_schedule-In, can_schedule-finished,
  can_schedule-cycle,
}

abbrev pub cron : Text
cron = codes "/cron"

abbrev task_a : WorkflowTaskInfo
task_a = record { project_id = 1; task_id = codes "a" }

abbrev pub task_b : WorkflowTaskInfo
task_b = record { project_id = 1; task_id = codes "b" }

abbrev nothing_before : WorkflowTaskInfo
nothing_before = record { project_id = 0; task_id = [] }

abbrev pub flow : TaskFlow
flow = (task_a, nothing_before ∷ []) ∷ (task_b, task_a ∷ []) ∷ []

-- Each task waits for the other.
abbrev cyclic : TaskFlow
cyclic = (task_a, task_b ∷ []) ∷ (task_b, task_a ∷ []) ∷ []

abbrev pub env : Env
env = record {
  now = λ t. 100;
  mark_time = λ t. 100;
  timeout = 5;
  is_in_process = λ t. false;
  lock_exist = λ t. ok true;
  kill_workflow_tasks = λ t. ok tt;
  stored = λ t. true;
}

abbrev pub row : Status → WorkflowTaskScheduleRecord
row st = record { tmp_id = []; result = []; status = st; event_time = 10; agent_ip = [] }

abbrev pub state_a : Status → ℕ → WorkflowTaskStates
state_a st count = record {
  project_id = 1;
  task_id = codes "a";
  workflow_id = 7;
  current_status = st;
  schedule_count = count;
  command = [];
  start_time = 5;
  end_time = 0;
  schedule_records = row starting ∷ row st ∷ [];
}

unfoldable pub key_a : Text
unfolding build_workflow_task_status_key
key_a = build_workflow_task_status_key cron 7 1 (codes "a")

abbrev pub docs : Status → ℕ → Docs
docs st count = (key_a, json (state_a st count)) ∷ []

readable_a :
    (st : Status) (count : ℕ)
    → get_workflow_tasks_states (build_workflow_task_status_key_prefix cron 7) (docs st count)
      ≡ ok (state_a st count ∷ [])
unfolding get_workflow_tasks_states build_workflow_task_status_key_prefix
    build_workflow_task_status_key gopher_cron.Base.has_prefix gopher_cron.Keys.decimal key_a
readable_a st count = refl

decided_b : (can_schedule cron env 7 false [] flow (docs done 1)).1 ≡ tasks (task_b ∷ []) false
unfolding can_schedule get_workflow_tasks_states build_workflow_task_status_key_prefix
    build_workflow_task_status_key gopher_cron.Base.has_prefix gopher_cron.Keys.decimal
    gopher_cron.Workflow.CanSchedule.rounds gopher_cron.Workflow.CanSchedule.choose lookup
    states_map gopher_cron.Base.Map.insert gopher_cron.Workflow.Types.info_eq
    gopher_cron.Base.text_eq gopher_cron.Workflow.CanSchedule.deps_done
    gopher_cron.Workflow.CanSchedule.choose_status key_a
decided_b = refl

In-flow_b : In task_b (task_b ∷ [])
In-flow_b = inl refl

can_schedule-MayStart_example : HasEntry flow task_b (λ deps.
    (¬ IsDone (states_map (state_a done 1 ∷ []) []) task_b)
    × DepsDone (states_map (state_a done 1 ∷ []) []) deps
    × MayStart (state_of (lookup task_b (states_map (state_a done 1 ∷ []) []))))
can_schedule-MayStart_example =
    can_schedule-MayStart cron env 7 [] flow (docs done 1) (state_a done 1 ∷ []) (readable_a done 1)
      (task_b ∷ []) false decided_b task_b In-flow_b

DepsDone-b : HasEntry flow task_b (DepsDone (states_map (state_a done 1 ∷ []) []))
unfolding lookup states_map gopher_cron.Base.Map.insert gopher_cron.Workflow.Types.info_eq
    gopher_cron.Base.text_eq
DepsDone-b = inr (inl (refl, (inr refl, tt)))

waits_b :
    (state_of (lookup task_b (states_map (state_a done 1 ∷ []) []))).current_status ≡ not_running
unfolding lookup states_map gopher_cron.Base.Map.insert gopher_cron.Workflow.Types.info_eq
    gopher_cron.Base.text_eq
waits_b = refl

few_b : length (state_of (lookup task_b (states_map (state_a done 1 ∷ []) []))).schedule_records ≤ 1
unfolding lookup states_map gopher_cron.Base.Map.insert gopher_cron.Workflow.Types.info_eq
    gopher_cron.Base.text_eq
few_b = omega arith

can_schedule-In_example : In task_b (task_b ∷ [])
can_schedule-In_example =
    can_schedule-In cron env 7 [] flow (docs done 1) (state_a done 1 ∷ []) (readable_a done 1)
      (task_b ∷ []) false decided_b task_b DepsDone-b waits_b few_b

IsKnown-flow :
    All
      (λ e. IsKnown (state_of (lookup e.0 (states_map (state_a done 1 ∷ []) []))).current_status)
      flow
unfolding lookup states_map gopher_cron.Base.Map.insert gopher_cron.Workflow.Types.info_eq
    gopher_cron.Base.text_eq
IsKnown-flow = (tt, (tt, tt))

can_schedule-finished_example :
    (false ≡ true) ↔ All (λ e. IsDone (states_map (state_a done 1 ∷ []) []) e.0) flow
can_schedule-finished_example =
    can_schedule-finished cron env 7 [] flow (docs done 1) (state_a done 1 ∷ []) (readable_a done 1)
      (task_b ∷ []) false decided_b IsKnown-flow

readable_none : get_workflow_tasks_states (build_workflow_task_status_key_prefix cron 7) [] ≡ ok []
unfolding get_workflow_tasks_states
readable_none = refl

decided_cyclic : (can_schedule cron env 7 false [] cyclic []).1 ≡ tasks [] false
unfolding can_schedule get_workflow_tasks_states gopher_cron.Workflow.CanSchedule.rounds
    gopher_cron.Workflow.CanSchedule.choose lookup states_map
    gopher_cron.Workflow.CanSchedule.deps_done
decided_cyclic = refl

undone : All (λ t. ¬ IsDone (states_map [] []) t) (task_a ∷ task_b ∷ [])
unfolding lookup states_map gopher_cron.Base.Map.insert gopher_cron.Workflow.Types.info_eq
    gopher_cron.Base.text_eq
undone = (λ h. cc, (λ h. cc, tt))

waits : All (λ e. In e.0 (task_a ∷ task_b ∷ []) → WaitsIn (task_a ∷ task_b ∷ []) e.1) cyclic
waits = (λ m. inl (λ e. cc, inr (inl refl)), (λ m. inl (λ e. cc, inl refl), tt))

In-cycle : In task_a (task_a ∷ task_b ∷ [])
In-cycle = inl refl

can_schedule-cycle_example : ¬ In task_a []
can_schedule-cycle_example =
    can_schedule-cycle cron env 7 [] cyclic [] [] readable_none [] false decided_cyclic
      (task_a ∷ task_b ∷ []) undone waits task_a In-cycle

gives_up : (can_schedule cron env 7 false [] flow (docs fail 3)).1 ≡ plan_failed
unfolding can_schedule get_workflow_tasks_states gopher_cron.Base.has_prefix
    build_workflow_task_status_key_prefix key_a gopher_cron.Keys.decimal
    gopher_cron.Workflow.CanSchedule.rounds gopher_cron.Workflow.CanSchedule.choose lookup
    states_map gopher_cron.Base.Map.insert gopher_cron.Workflow.Types.info_eq
    gopher_cron.Base.text_eq gopher_cron.Workflow.CanSchedule.deps_done
    gopher_cron.Workflow.CanSchedule.choose_status
gives_up = refl

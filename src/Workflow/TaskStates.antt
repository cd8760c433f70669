-- ===== src/Workflow/TaskStates.antt =====
-- app/schedule.go: the four transactions that write the state of one task of a workflow. Each runs
-- inside one etcd transaction, so it is a function of the stored documents; on an error nothing
-- is written. `now` and `now'` are the clock readings of a call, in the order they are taken.
pub mod Records
pub mod Frame
pub mod Runs
use gopher_cron.Base.{
  ℕ, ◌+◌, Text, List, [], ◌∷◌, ◌++◌, eq_text, Bool, true, false, Option, none, some, leb,
  if◌then◌else◌,
}
use gopher_cron.Base.Map.{lookup, insert}
use gopher_cron.Keys.{build_workflow_task_status_key}
use gopher_cron.Workflow.Types.{
  Status, starting, running, not_running, done, fail, is_terminal, workflow_schedule_limit,
  WorkflowTaskScheduleRecord, WorkflowTaskStates, WorkflowInfo, TaskInfo, WorkflowRunningTaskInfo,
  TaskFinished, Err, internal_error, unknown, decode_error, nil_pointer, Result, ok, err, Doc, json,
  corrupt,
}

-- The documents under the task status keys.
abbrev pub Docs : Type 0
Docs = List (Text × Doc WorkflowTaskStates)

abbrev pub Row : Type 0
Row = WorkflowTaskScheduleRecord

-- `append(s.ScheduleRecords, r)` with a new current status
abbrev pub push_record : Status → Row → WorkflowTaskStates → WorkflowTaskStates
push_record st r s = record s {
  current_status = st;
  schedule_records = s.schedule_records ++ r ∷ [];
}

abbrev pub finish_row : ℕ → Text → TaskFinished → Row
finish_row now agent_ip r = record {
  tmp_id = r.tmp_id;
  result = r.result;
  status = r.status;
  event_time = now;
  agent_ip = agent_ip;
}

abbrev pub not_running_row : ℕ → WorkflowRunningTaskInfo → Text → Row
not_running_row now t reason = record {
  tmp_id = t.tmp_id;
  result = reason;
  status = not_running;
  event_time = now;
  agent_ip = [];
}

abbrev pub running_row : ℕ → WorkflowRunningTaskInfo → Row
running_row now t = record {
  tmp_id = t.tmp_id;
  result = [];
  status = running;
  event_time = now;
  agent_ip = t.agent_ip;
}

abbrev pub starting_row : ℕ → TaskInfo → Row
starting_row now task = record {
  tmp_id = task.tmp_id;
  result = [];
  status = starting;
  event_time = now;
  agent_ip = [];
}

-- The branches on the reported status, with the value of `planFinished`.
unfoldable pub settle : Status → ℕ → Row → WorkflowTaskStates → WorkflowTaskStates × Bool
settle fail now row s =
    if leb workflow_schedule_limit s.schedule_count
    then (record (push_record fail row s) { end_time = now }, true)
    else (push_record not_running row s, false)
settle done now row s = (record (push_record done row s) { end_time = now }, false)
settle _ now row s = (push_record s.current_status row s, false)

unfoldable pub start_first : (now now' : ℕ) → WorkflowInfo → TaskInfo → WorkflowTaskStates
start_first now now' flow task = record {
  project_id = task.project_id;
  task_id = task.task_id;
  workflow_id = flow.workflow_id;
  current_status = starting;
  schedule_count = 1;
  command = task.command;
  start_time = now;
  end_time = 0;
  schedule_records = starting_row now' task ∷ [];
}

unfoldable pub start_again : ℕ → TaskInfo → WorkflowTaskStates → WorkflowTaskStates
start_again now task s = record s {
  current_status = starting;
  schedule_count = s.schedule_count + 1;
  schedule_records = s.schedule_records ++ starting_row now task ∷ [];
}

module _ (etcd_prefix : Text) where
  abbrev pub finished_key : TaskFinished → Text
  finished_key r = build_workflow_task_status_key etcd_prefix r.workflow_id r.project_id r.task_id

  abbrev pub running_key : WorkflowRunningTaskInfo → Text
  running_key t = build_workflow_task_status_key etcd_prefix t.workflow_id t.project_id t.task_id

  abbrev pub start_key : WorkflowInfo → TaskInfo → Text
  start_key flow t =
      build_workflow_task_status_key etcd_prefix flow.workflow_id t.project_id t.task_id

  -- `finished` does not always mean success.
  unfoldable pub set_work_flow_task_finished :
      (now : ℕ) (agent_ip : Text) → TaskFinished → Docs → Docs × Result Bool
  unfolding settle
  set_work_flow_task_finished now agent_ip r docs = elim (lookup (finished_key r) docs) [
    | none ↦ (docs, ok false)
    | some corrupt ↦ (docs, err internal_error)
    | some (json s) ↦
        if is_terminal s.current_status
        then (docs, ok false)
        else let (s', plan_finished) = settle r.status now (finish_row now agent_ip r) s in
          (insert (finished_key r) (json s') docs, ok plan_finished)
  ]

  unfoldable pub set_workflow_task_not_running :
      (now : ℕ) → WorkflowRunningTaskInfo → (reason : Text) → Docs → Docs × Result (Unit {0})
  set_workflow_task_not_running now t reason docs = elim (lookup (running_key t) docs) [
    | none ↦ (docs, ok tt)
    | some corrupt ↦ (docs, ok tt)
    | some (json s) ↦ (
      insert (running_key t) (json (push_record not_running (not_running_row now t reason) s)) docs,
      ok tt,
    )
  ]

  unfoldable pub set_workflow_task_running :
      (now : ℕ) → WorkflowRunningTaskInfo → Docs → Docs × Result (Unit {0})
  set_workflow_task_running now t docs = elim (lookup (running_key t) docs) [
    | none ↦ (docs, err unknown)
    | some corrupt ↦ (docs, err decode_error)
    | some (json s) ↦
        (insert (running_key t) (json (push_record running (running_row now t) s)) docs, ok tt)
  ]

  -- `taskInfo.FlowInfo.WorkflowID` panics where the task belongs to no workflow.
  unfoldable pub set_workflow_task_starting :
      (now now' : ℕ) → TaskInfo → Docs → Docs × Result (Unit {0})
  unfolding start_first start_again
  set_workflow_task_starting now now' task docs = elim task.flow_info [
    | none ↦ (docs, err nil_pointer)
    | some flow ↦ elim (lookup (start_key flow task) docs) [
      | none ↦ (insert (start_key flow task) (json (start_first now now' flow task)) docs, ok tt)
      | some corrupt ↦ (docs, err internal_error)
      | some (json s) ↦ (insert (start_key flow task) (json (start_again now' task s)) docs, ok tt)
    ]
  ]

-- ===== src/Workflow/Finish.antt =====
-- app/workflow.go: `WorkflowPlan.Finished`, which ends a run of a workflow: it clears the state in
-- etcd, kills what still runs, and logs the result. Warnings and messages are left out.
pub mod Kills
pub mod Ended
pub mod Over
use gopher_cron.Base.{
  ℕ, Text, List, [], ◌∷◌, ◌++◌, Bool, true, false, Option, none, some, codes, if◌then◌else◌,
}
use gopher_cron.Utils.Reason.{write_string}
use gopher_cron.Workflow.Types.{
  Status, starting, running, finished, done, fail, WorkflowTaskInfo, WorkflowTaskStates, PlanState,
  Err, internal_error, nil_pointer, etcd_error, Result, ok, err,
}
use gopher_cron.Workflow.TaskStates.{Docs}
use gopher_cron.Workflow.PlanStates.{
  Plans, get_workflow_plan_state, get_workflow_all_task_states, clear_workflow_keys,
}

-- What `GetWorkflowTask` finds: an error, no row, or a row with its name.
pub data Detail : Type 0 where
  db_error missing : Detail
  named : Text → Detail

abbrev pub info_of : WorkflowTaskStates → WorkflowTaskInfo
info_of v = record { project_id = v.project_id; task_id = v.task_id }

-- `p.planState.Status`, the failed reason and the kill list
pub record Tally : Type 0 where
  pub status : Status
  pub reason : Text
  pub kill_list : List WorkflowTaskInfo

abbrev pub runs : Status → Bool
runs starting = true
runs running = true
runs _ = false

-- The text that is written behind the name of a task, if the status is one of the three.
unfoldable pub complaint : Status → Option Text
complaint fail = some (codes "任务执行失败")
complaint starting = some (codes "任务启动失败")
complaint running = some (codes "任务执行失败")
complaint _ = none

abbrev pub fails : Status → Status → Status
fails fail _ = fail
fails _ s = s

-- The status and the kill list, which are set before the name of the task is read.
unfoldable pub mark : WorkflowTaskStates → Tally → Tally
mark v t = record t {
  status = fails v.current_status t.status;
  kill_list = if runs v.current_status then t.kill_list ++ info_of v ∷ [] else t.kill_list;
}

unfoldable pub write_complaint : Text → Text → Tally → Tally
unfolding write_string
write_complaint name c t = record t { reason = write_string c (write_string name t.reason) }

-- The loop over the task states. Reading the name of a task with no row panics.
unfoldable pub tally :
    (WorkflowTaskInfo → Detail) → List WorkflowTaskStates → Tally → Tally × Option Err
unfolding complaint mark write_complaint
tally detail [] t = (t, none)
tally detail (v ∷ vs) t = elim (detail (info_of v)) [
  | db_error ↦ (t, some internal_error)
  | missing ↦ elim (complaint v.current_status) [
    | none ↦ tally detail vs t
    | some c ↦ (mark v t, some nil_pointer)
  ]
  | named name ↦ elim (complaint v.current_status) [
    | none ↦ tally detail vs t
    | some c ↦ tally detail vs (write_complaint name c (mark v t))
  ]
]

-- How the retried clearing of the keys ended: after both deletes, or with an error after the
-- first delete or before it.
pub data Clearing : Type 0 where
  both first_only neither : Clearing

-- What the calls of `Finished` answer.
pub record Answers : Type 0 where
  pub plan_answered : Bool
  pub tasks_answered : Bool
  pub detail : WorkflowTaskInfo → Detail
  pub now : ℕ
  pub clearing : Clearing
  pub killed : Bool
  pub logged : Bool

pub record World : Type 0 where
  pub plans : Plans
  pub docs : Docs
  pub plan_state : Option PlanState
  pub kills : List (List WorkflowTaskInfo)
  pub logs : List PlanState

abbrev pub start_tally : Option Text → Tally
start_tally none = record { status = done; reason = []; kill_list = [] }
start_tally (some e) = record { status = fail; reason = []; kill_list = [] }

abbrev pub add_error : Option Text → Text → Text
add_error none reason = reason
add_error (some e) reason = write_string e reason

abbrev pub final_state : ℕ → Text → List WorkflowTaskStates → PlanState → PlanState
final_state now reason states s = record s {
  reason = reason;
  records = states;
  end_time = now;
  status = finished;
}

module _ (etcd_prefix : Text) (workflow_id : ℕ) (a : Answers) (with_error : Option Text) where
  -- the last step, which writes the log
  unfoldable pub log_final : PlanState → World → World × Result (Unit {0})
  log_final s w =
      if a.logged then (record w { logs = s ∷ w.logs }, ok tt) else (w, err internal_error)

  -- what follows the clearing: the tasks are killed if there was an error
  unfoldable pub kill_and_log :
      PlanState → List WorkflowTaskInfo → World → World × Result (Unit {0})
  unfolding log_final
  kill_and_log s kill_list w = elim with_error [
    | none ↦ log_final s w
    | some e ↦
        if a.killed
        then log_final s (record w { kills = kill_list ∷ w.kills })
        else (w, err internal_error)
  ]

  -- what follows the answer of the clearing
  unfoldable pub after_clear :
      PlanState
      → List WorkflowTaskInfo
      → World
      → (Plans × Docs) × Result (Unit {0})
      → World × Result (Unit {0})
  unfolding kill_and_log
  after_clear s kill_list w ((plans, docs), ok x) =
      kill_and_log s kill_list (record w { plans = plans; docs = docs })
  after_clear s kill_list w ((plans, docs), err e) =
      (record w { plans = plans; docs = docs }, err e)

  unfoldable pub clear_and_log :
      Clearing → PlanState → List WorkflowTaskInfo → World → World × Result (Unit {0})
  unfolding clear_workflow_keys after_clear
  clear_and_log both s kill_list w =
      after_clear s kill_list w
        (clear_workflow_keys etcd_prefix workflow_id true true (w.plans, w.docs))
  clear_and_log first_only s kill_list w =
      after_clear s kill_list w
        (clear_workflow_keys etcd_prefix workflow_id true false (w.plans, w.docs))
  clear_and_log neither s kill_list w =
      after_clear s kill_list w
        (clear_workflow_keys etcd_prefix workflow_id false false (w.plans, w.docs))

  unfoldable pub after_tally :
      PlanState → List WorkflowTaskStates → World → Tally × Option Err → World × Result (Unit {0})
  unfolding clear_and_log
  after_tally s states w (t, some e) =
      (record w { plan_state = some (record s { status = t.status }) }, err e)
  after_tally s states w (t, none) =
      clear_and_log a.clearing (final_state a.now (add_error with_error t.reason) states s)
        t.kill_list (record w { plan_state = some (record s { status = t.status }) })

  -- with the state that was read
  unfoldable pub finish_plan : PlanState → World → World × Result (Unit {0})
  unfolding get_workflow_all_task_states tally after_tally
  finish_plan s w =
      elim (get_workflow_all_task_states etcd_prefix workflow_id a.tasks_answered w.docs) [
        | err e ↦ (
          record w { plan_state = some (record s { status = (start_tally with_error).status }) },
          err e,
        )
        | ok states ↦ after_tally s states w (tally a.detail states (start_tally with_error))
      ]

  unfoldable pub finished_plan : World → World × Result (Unit {0})
  unfolding get_workflow_plan_state finish_plan
  finished_plan w = elim (get_workflow_plan_state etcd_prefix workflow_id a.plan_answered w.plans) [
    | err e ↦ (w, err e)
    | ok none ↦ (record w { plan_state = none }, ok tt)
    | ok (some s) ↦ finish_plan s (record w { plan_state = some s })
  ]

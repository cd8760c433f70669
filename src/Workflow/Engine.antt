-- ===== src/Workflow/Engine.antt =====
-- app/workflow.go: the plans that the runner holds in memory, and how they are set, deleted and
-- refreshed.
pub mod Schedule
pub mod Sent
use gopher_cron.Base.{
  ℕ, suc, ◌+◌, Text, List, [], ◌∷◌, ◌++◌, codes, Bool, true, false, Option, none, some, ◌==◌,
  if◌then◌else◌, nat_eq,
}
use gopher_cron.Base.Map.{lookup, insert, erase}
use gopher_cron.Lock.{Write, answered, lost_before, lost_after}
use gopher_cron.Workflow.Types.{
  WorkflowTaskInfo, eq_info, TaskInfo, TaskFinished, Err, internal_error, nil_pointer, etcd_error,
  Result, ok, err,
}
use gopher_cron.Workflow.TaskStates.{Docs, set_work_flow_task_finished}
use gopher_cron.Workflow.PlanStates.{Plans, get_workflow_plan_state}
use gopher_cron.Workflow.CanSchedule.{
  WorkflowTask, TaskFlow, Env, Outcome, tasks, plan_failed, stopped, can_schedule,
}
use gopher_cron.Workflow.SchedulePlan.{PlanRow, row_task, deps_map}
use gopher_cron.Workflow.Finish.{Answers, World, finished_plan}
use gopher_cron.Workflow.Runner.{Plan, refreshed}

-- `WorkflowPlan`, with its tasks
pub record Flow : Type 0 where
  pub plan : Plan
  pub open plan use *
  pub known : List (WorkflowTaskInfo × WorkflowTask)
  pub task_flow : TaskFlow
  pub plan_update_time : ℕ

-- The runner: the stores, its plans by workflow id, the raises and the drops of `planCounter`, and
-- the tasks that were sent to `scheduleEventChan`, in order. `plan_state` of `world` is that of the
-- plan that is being finished.
pub record Engine : Type 0 where
  pub world : World
  pub flows : List (ℕ × Flow)
  pub raised : ℕ
  pub dropped : ℕ
  pub events : List TaskInfo

unfoldable pub get_plan : ℕ → Engine → Option Flow
get_plan id e = lookup id e.flows

-- What the database answers to `RefreshPlanTasks`: the create time of the latest row, or no row;
-- the rows; and the record of a task, or no record. `none` outside is an error.
pub record Stored : Type 0 where
  pub latest : Option (Option ℕ)
  pub rows : Option (List PlanRow)
  pub task_of : WorkflowTaskInfo → Option (Option WorkflowTask)

abbrev pub Known : Type 0
Known = List (WorkflowTaskInfo × WorkflowTask)

-- A task without a record is a nil entry, which reads like a missing one.
abbrev pub add_known : WorkflowTaskInfo → Option WorkflowTask → Known → Known
add_known key none known = known
add_known key (some t) known = insert key t known

-- `tasksMap`; `none` is an error
unfoldable pub fetch_tasks :
    (WorkflowTaskInfo → Option (Option WorkflowTask)) → List PlanRow → Known → Option Known
fetch_tasks task_of [] known = some known
fetch_tasks task_of (v ∷ rows) known = elim (lookup (row_task v) known) [
  | some t ↦ fetch_tasks task_of rows known
  | none ↦ elim (task_of (row_task v)) [
    | none ↦ none
    | some t ↦ fetch_tasks task_of rows (add_known (row_task v) t known)
  ]
]

unfoldable pub refresh_tasks : Stored → ℕ → Flow → Flow × Result (Unit {0})
unfolding fetch_tasks
refresh_tasks s time f = elim s.rows [
  | none ↦ (f, err internal_error)
  | some rows ↦ elim (fetch_tasks s.task_of rows []) [
    | none ↦ (f, err internal_error)
    | some known ↦
        (record f { known = known; task_flow = deps_map rows []; plan_update_time = time }, ok tt)
  ]
]

-- `RefreshPlanTasks`: nothing is read where the latest row is of the time of the
-- last read.
unfoldable pub refresh_plan_tasks : Stored → Flow → Flow × Result (Unit {0})
unfolding refresh_tasks
refresh_plan_tasks s f = elim s.latest [
  | none ↦ (f, err internal_error)
  | some none ↦ (record f { known = []; task_flow = []; plan_update_time = 0 }, ok tt)
  | some (some time) ↦ if f.plan_update_time == time then (f, ok tt) else refresh_tasks s time f
]

abbrev pub put_flow : Flow → Engine → Engine
put_flow f e = record e { flows = insert f.workflow_id f e.flows }

-- What the calls of `SetPlan` answer; `next_time` is that of the cron expression, if it parses.
pub record SetAnswers : Type 0 where
  pub read_state : Bool
  pub stored : Stored
  pub next_time : Option ℕ

abbrev pub new_flow : (id workflow_status : ℕ) → Flow
new_flow id workflow_status = record {
  plan = record { workflow_id = id; status = workflow_status; plan_state = none; next_time = 0 };
  known = [];
  task_flow = [];
  plan_update_time = 0;
}

-- A plan that is there is changed in place; a new one raises the counter.
unfoldable pub begin_set : (id workflow_status : ℕ) → Engine → Engine × Flow × Bool
begin_set id workflow_status e = elim (get_plan id e) [
  | none ↦ (record e { raised = suc e.raised }, new_flow id workflow_status, false)
  | some f ↦
      let f' = record f { plan = record f.plan { workflow_id = id; status = workflow_status } } in
      (put_flow f' e, f', true)
]

-- what was done to a plan in place stays where a later call fails
abbrev pub keep_if : Bool → Flow → Engine → Engine
keep_if true f e = put_flow f e
keep_if false f e = e

abbrev pub set_next : Option ℕ → Bool → Engine → Flow → Engine × Result (Unit {0})
set_next none there e f = (keep_if there f e, err internal_error)
set_next (some t) there e f =
    (put_flow (record f { plan = record f.plan { next_time = t } }) e, ok tt)

abbrev pub set_refreshed :
    Option ℕ → Bool → Engine → Flow × Result (Unit {0}) → Engine × Result (Unit {0})
set_refreshed next there e (f, err x) = (keep_if there f e, err x)
set_refreshed next there e (f, ok u) = set_next next there e f

unfoldable pub set_plan :
    (etcd_prefix : Text)
    → SetAnswers
    → (id workflow_status : ℕ) → Engine
    → Engine × Result (Unit {0})
unfolding begin_set refresh_plan_tasks get_workflow_plan_state get_plan
set_plan etcd_prefix a id workflow_status e =
    let (e', f, there) = begin_set id workflow_status e in
    elim (get_workflow_plan_state etcd_prefix id a.read_state e'.world.plans) [
      | err x ↦ (e', err x)
      | ok s ↦
          set_refreshed a.next_time there e'
            (refresh_plan_tasks a.stored (record f { plan = refreshed f.plan s }))
    ]

-- `DelPlan`
unfoldable pub del_plan : ℕ → Engine → Engine
del_plan id e = record e { dropped = suc e.dropped; flows = erase id e.flows }

-- ===== src/Agent.antt =====
-- agent/scheduler.go: the agent's scheduler: its table of plans, the events that change it, when a
-- task may start, and the random wait before a lock is tried. What an event starts runs in its own
-- goroutine: here it is recorded.
pub mod Running
pub mod Table
pub mod Timer
pub mod Hold
pub mod Latency
mod Tests
mod RunTests
use gopher_cron.Base.{
  ℕ, Text, List, [], ◌∷◌, eq_text, Bool, true, false, Option, none, some, ◌==◌, if◌then◌else◌,
  text_eq,
}
use gopher_cron.Base.Map.{lookup, insert, erase}
use gopher_cron.Keys.{gen_task_scheduler_key}

-- The fields of a task, with its operator's `TmpID`, that the scheduler reads.
pub record Task : Type 0 where
  pub project_id : ℕ
  pub task_id : Text
  pub cron : Text
  pub command : Text
  pub status : ℕ
  pub tmp_id : Text

abbrev pub scheduler_key : Task → Text
scheduler_key t = gen_task_scheduler_key t.project_id t.task_id

pub data PlanType : Type 0 where
  normal_plan active_plan workflow_plan : PlanType

pub record SchedulePlan : Type 0 where
  pub task : Task
  pub type : PlanType
  pub tmp_id : Text
  pub plan_time : ℕ

-- The plans and the tasks in execution, by key; then what was done so far, latest first: the keys
-- whose cancel function was called, and the plans that began to execute.
pub record Scheduler : Type 0 where
  pub plan_table : List (Text × SchedulePlan)
  pub executing : List (Text × Text)
  pub cancelled : List Text
  pub begun : List SchedulePlan

pub data EventType : Type 0 where
  save delete kill temporary workflow_schedule : EventType

pub record TaskEvent : Type 0 where
  pub event_type : EventType
  pub task : Task

pub data StartError : Type 0 where
  closing busy : StartError

abbrev pub task_status_start : ℕ
task_status_start = 1

abbrev pub fill_tmp_id : Text → SchedulePlan → SchedulePlan
fill_tmp_id new_id plan = elim plan.tmp_id [ [] ↦ record plan { tmp_id = new_id } | c ∷ s ↦ plan ]

-- `TryStartTask` up to the goroutine that executes the task; `new_id` is a fresh id.
unfoldable pub try_start_task :
    (is_close : Bool) (new_id : Text) → SchedulePlan → Scheduler → Scheduler × Option StartError
try_start_task true new_id plan s = (s, some closing)
try_start_task false new_id plan s = elim (lookup (scheduler_key plan.task) s.executing) [
  | none ↦ (record s { begun = fill_tmp_id new_id plan ∷ s.begun }, none)
  | some tmp_id ↦ (s, some busy)
]

unfoldable pub set_plan : Text → SchedulePlan → Scheduler → Scheduler
set_plan key value s = record s { plan_table = insert key value s.plan_table }

unfoldable pub remove_plan : Text → Scheduler → Scheduler
remove_plan key s = record s { plan_table = erase key s.plan_table }

-- `next` is the time that `cronexpr` gives for an expression, if it parses it.
module _ (next : Text → Option ℕ) (now : ℕ) (is_close : Bool) (new_id : Text) where
  unfoldable pub build_task_scheduler_plan : Task → PlanType → Option SchedulePlan
  build_task_scheduler_plan task type = elim (next task.cron) [
    | none ↦ none
    | some t ↦ some (record { task = task; type = type; tmp_id = task.tmp_id; plan_time = t })
  ]

  abbrev pub build_workflow_task_scheduler_plan : Task → SchedulePlan
  build_workflow_task_scheduler_plan task = record {
    task = task;
    type = workflow_plan;
    tmp_id = task.tmp_id;
    plan_time = now;
  }

  unfoldable pub save_task : Task → Scheduler → Scheduler
  unfolding build_task_scheduler_plan set_plan remove_plan
  save_task task s =
      if task.status == task_status_start
      then elim (build_task_scheduler_plan task normal_plan) [
        | none ↦ s
        | some plan ↦ set_plan (scheduler_key task) plan s
      ]
      else remove_plan (scheduler_key task) s

  unfoldable pub kill_task : Task → Scheduler → Scheduler
  kill_task task s = elim (lookup (scheduler_key task) s.executing) [
    | none ↦ s
    | some tmp_id ↦ record s { cancelled = scheduler_key task ∷ s.cancelled }
  ]

  unfoldable pub start_now : Task → Scheduler → Scheduler
  unfolding build_task_scheduler_plan try_start_task
  start_now task s = elim (build_task_scheduler_plan task active_plan) [
    | none ↦ s
    | some plan ↦ (try_start_task is_close new_id (record plan { plan_time = now }) s).0
  ]

  abbrev pub handle : EventType → Task → Scheduler → Scheduler
  handle save task s = save_task task s
  handle delete task s = remove_plan (scheduler_key task) s
  handle kill task s = kill_task task s
  handle temporary task s = start_now task s
  handle workflow_schedule task s =
      (try_start_task is_close new_id (build_workflow_task_scheduler_plan task) s).0

  unfoldable pub handle_task_event : TaskEvent → Scheduler → Scheduler
  unfolding save_task remove_plan kill_task start_now try_start_task
  handle_task_event event s = handle event.event_type event.task s

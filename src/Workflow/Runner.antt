-- ===== src/Workflow/Runner.antt =====
-- The workflow runner of app/workflow.go, which starts plans that are due, and the handler of
-- app/schedule.go that sends one task of a running plan to an agent.
pub mod Due
pub mod Sending
use gopher_cron.Base.{
  ℕ, ◌+◌, ◌-◌, Text, List, [], ◌∷◌, ◌++◌, eq_text, Bool, true, false, ◌&&◌, ◌||◌, not, Option, none,
  some, ◌==◌, ltb, leb, min, if◌then◌else◌,
}
use gopher_cron.Base.Map.{lookup}
use gopher_cron.Keys.{build_workflow_task_status_key}
use gopher_cron.Lock.{Write, answered, lost_before, lost_after}
use gopher_cron.Workflow.Types.{
  Status, starting, running, not_running, WorkflowTaskInfo, eq_info, WorkflowTaskStates,
  WorkflowInfo, TaskInfo, PlanState, Err, internal_error, nil_pointer, etcd_error,
  workflow_in_process, Result, ok, err, Doc, json, corrupt,
}
use gopher_cron.Workflow.TaskStates.{Docs, set_workflow_task_starting}
use gopher_cron.Workflow.PlanStates.{Plans, get_workflow_plan_state, set_workflow_plan_running}
use gopher_cron.Workflow.CanSchedule.{WorkflowTask, Outcome, tasks, plan_failed, stopped}

-- `WorkflowPlan`, without its tasks. `status` is `Workflow.Status`, `next_time` is in nanoseconds.
pub record Plan : Type 0 where
  pub workflow_id : ℕ
  pub status : ℕ
  pub plan_state : Option PlanState
  pub next_time : ℕ

abbrev pub is_running_status : Status → Bool
is_running_status running = true
is_running_status _ = false

abbrev pub task_status_running : ℕ
task_status_running = 1

abbrev pub second : ℕ
second = 1000000000

-- `now - latest > next - now` on signed numbers: a plan that was not tried for longer than its
-- period is not taken to run.
abbrev pub is_stale : (now next latest : ℕ) → Bool
is_stale now next latest = ltb (next + latest) (now + now)

abbrev pub refreshed : Plan → Option PlanState → Plan
refreshed p s = record p { plan_state = s }

module _ (etcd_prefix : Text) where
  -- `next` is the next time of the plan's expression, in seconds.
  unfoldable pub is_running : (replied : Bool) (now next : ℕ) → Plans → Plan → Plan × Result Bool
  unfolding get_workflow_plan_state
  is_running replied now next plans p =
      elim (get_workflow_plan_state etcd_prefix p.workflow_id replied plans) [
        | err e ↦ (p, err e)
        | ok none ↦ (refreshed p none, ok false)
        | ok (some s) ↦ (
          refreshed p (some s),
          ok (if is_stale now next s.latest_try_time then false else is_running_status s.status),
        )
      ]

  unfoldable pub set_running :
      (replied : Bool) (now now' : ℕ) → Plans → Plan → (Plans × Plan) × Result (Unit {0})
  unfolding set_workflow_plan_running
  set_running replied now now' plans p =
      let (plans', r) =
        set_workflow_plan_running etcd_prefix p.workflow_id replied now now' plans in
      elim r [ err e ↦ ((plans', p), err e) | ok s ↦ ((plans', refreshed p (some s)), ok tt) ]

  -- How `TryStartPlan` ends before it schedules: with an error or nothing to do, as a node that is
  -- not the leader, or by going on to schedule the plan.
  pub data Start : Type 0 where
    refused : Option Err → Start
    left_to_leader go_on : Start

  unfoldable pub try_start_plan :
      (is_leader : Bool) (read written : Bool) (now next now' now'' : ℕ)
      → Plans
      → Plan
      → (Plans × Plan) × Start
  unfolding is_running set_running
  try_start_plan is_leader read written now next now' now'' plans p =
      let (p', r) = is_running read now next plans p in
      let (stored, set) = set_running written now' now'' plans p' in
      elim r [
        | err e ↦ ((plans, p'), refused (some e))
        | ok true ↦ ((plans, p'), refused none)
        | ok false ↦ elim set [
          | err e ↦ (stored, refused (some e))
          | ok u ↦ (stored, if is_leader then go_on else left_to_leader)
        ]
      ]

  -- How `scheduleTask` ends before the agent is called: with nothing to do, with an error, or with
  -- the task that is handed to an agent.
  pub data Handled : Type 0 where
    dropped : Handled
    failed : Err → Handled
    sent : TaskInfo → Handled

  abbrev pub may_start : Status → Bool
  may_start not_running = true
  may_start starting = true
  may_start _ = false

  -- `getWorkflowTaskStates` returns no state and no error for a value that does not decode.
  unfoldable pub start_allowed : Option (Doc WorkflowTaskStates) → Bool
  start_allowed none = true
  start_allowed (some corrupt) = true
  start_allowed (some (json s)) = may_start s.current_status

  abbrev pub with_tmp_id : Text → TaskInfo → TaskInfo
  with_tmp_id t task = record task { tmp_id = t }

  -- How the transaction ends: `before` is what etcd holds without it.
  unfoldable pub after_starting :
      (commit : Write) (before : Docs) → TaskInfo → Docs × Result (Unit {0}) → Docs × Handled
  after_starting commit before task (docs, err e) = (before, failed internal_error)
  after_starting answered before task (docs, ok u) = (docs, sent task)
  after_starting lost_before before task (docs, ok u) = (before, failed internal_error)
  after_starting lost_after before task (docs, ok u) = (docs, failed internal_error)

  -- The part for a task of a workflow whose plan `p` is known.
  unfoldable pub schedule_in_plan :
      (read replied : Bool) (commit : Write) (now next now' now'' : ℕ) (tmp_id : Text)
      → WorkflowInfo
      → TaskInfo
      → Plan
      → Plans
      → Docs
      → Docs × Handled
  unfolding is_running start_allowed after_starting set_workflow_task_starting
  schedule_in_plan read replied commit now next now' now'' tmp_id flow task p plans docs =
      elim ((is_running read now next plans p).1) [
        | err e ↦ (docs, failed e)
        | ok false ↦ (docs, dropped)
        | ok true ↦
            if not replied
            then (docs, failed internal_error)
            else if start_allowed (
                lookup
                  (build_workflow_task_status_key etcd_prefix flow.workflow_id task.project_id
                    task.task_id)
                  docs)
            then after_starting commit docs (with_tmp_id tmp_id task)
                (set_workflow_task_starting etcd_prefix now' now'' (with_tmp_id tmp_id task) docs)
            else (docs, dropped)
      ]

  -- `scheduleTask` up to the agent, with the answer of etcd to the transaction: a task in process and one whose plan is unknown are dropped.
  -- `taskInfo.FlowInfo.WorkflowID` panics where the task belongs to no workflow.
  unfoldable pub schedule_task :
      (in_process : Bool) (get_plan : ℕ → Option Plan) (read replied : Bool) (commit : Write)
      (now next now' now'' : ℕ) (tmp_id : Text)
      → TaskInfo
      → Plans
      → Docs
      → Docs × Handled
  unfolding schedule_in_plan
  schedule_task true get_plan read replied commit now next now' now'' tmp_id task plans docs =
      (docs, dropped)
  schedule_task false get_plan read replied commit now next now' now'' tmp_id task plans docs =
      elim task.flow_info [
        | none ↦ (docs, failed nil_pointer)
        | some flow ↦ elim (get_plan flow.workflow_id) [
          | none ↦ (docs, dropped)
          | some p ↦
              schedule_in_plan read replied commit now next now' now'' tmp_id flow task p plans docs
        ]
      ]

-- `TrySchedule`: the ids of the plans for which it calls `TryStartPlan`, in order, the id and the next
-- time of every plan that it does not skip, and the time to wait. What a call changes in the state of
-- its own plan is in `try_start_plan`; a visit looks at the plan as it is before the call.
-- `next` is the next time after `now` of the expression of a plan.
module _ (next : Plan → ℕ) (now : ℕ) where
  abbrev pub is_active : Plan → Bool
  is_active p =
      p.status == task_status_running
      || (elim p.plan_state [ none ↦ false | some s ↦ is_running_status s.status ])

  abbrev pub is_due : Plan → Bool
  is_due p = leb p.next_time now

  abbrev pub near : Option ℕ → ℕ → Option ℕ
  near none t = some t
  near (some n) t = if ltb t n then some t else some n

  -- A plan that is due gets its next time after the call.
  abbrev pub advance : Plan → ℕ
  advance p = if is_due p then next p else p.next_time

  -- The calls, the next times, and the first of them.
  abbrev pub Visited : Type 0
  Visited = (List ℕ × List (ℕ × ℕ)) × Option ℕ

  abbrev pub visit_active : Plan → Visited → Visited
  visit_active p ((ids, ts), n) =
      ((if is_due p then p.workflow_id ∷ ids else ids, (p.workflow_id, advance p) ∷ ts), n)

  unfoldable pub visit : List Plan → Option ℕ → Visited
  visit [] n = (([], []), n)
  visit (p ∷ ps) n =
      let on = visit ps (near n (advance p)) in
      let off = visit ps n in if is_active p then visit_active p on else off

  -- the wait until the next plan is due
  abbrev pub wait_until : Option ℕ → ℕ
  wait_until none = second
  wait_until (some t) = t - now

  unfoldable pub try_schedule : List Plan → (List ℕ × List (ℕ × ℕ)) × ℕ
  unfolding visit
  try_schedule plans = ((visit plans none).0, wait_until (visit plans none).1)

-- ===== src/Workflow/Engine/Schedule.antt =====
-- app/workflow.go: how a plan of the runner is scheduled, and what the report of a task leads to:
-- `scheduleWorkflowPlan` and `handleTaskResultV1`. Metrics, warnings and log lines are left out.
use gopher_cron.Base.{
  ℕ, Text, List, [], ◌∷◌, ◌++◌, codes, Bool, true, false, Option, none, some, if◌then◌else◌,
}
use gopher_cron.Base.Map.{lookup}
use gopher_cron.Lock.{Write, answered, lost_before, lost_after}
use gopher_cron.Workflow.Types.{
  WorkflowTaskInfo, eq_info, TaskInfo, TaskFinished, Err, nil_pointer, etcd_error, Result, ok, err,
}
use gopher_cron.Workflow.TaskStates.{Docs, set_work_flow_task_finished}
use gopher_cron.Workflow.CanSchedule.{
  WorkflowTask, Env, Outcome, tasks, plan_failed, stopped, can_schedule,
}
use gopher_cron.Workflow.Finish.{Answers, World, finished_plan}
use gopher_cron.Workflow.Engine.{
  Flow, Engine, Known, Stored, get_plan, put_flow, refresh_plan_tasks,
}

-- The event of a task of a plan, without its run id.
abbrev pub task_event : ℕ → WorkflowTask → TaskInfo
task_event workflow_id t = record {
  task_id = t.task_id;
  name = t.task_name;
  project_id = t.project_id;
  command = t.command;
  remark = t.remark;
  timeout = t.timeout;
  noseize = t.noseize;
  tmp_id = [];
  flow_info = some (record { workflow_id = workflow_id; tmp_id = [] });
}

abbrev pub send_event : TaskInfo → Engine → Engine
send_event t e = record e { events = e.events ++ t ∷ [] }

-- The loop that sends the tasks to start; a task without a record panics.
unfoldable pub send_events : ℕ → Known → List WorkflowTaskInfo → Engine → Engine × Result (Unit {0})
send_events workflow_id known [] e = (e, ok tt)
send_events workflow_id known (v ∷ vs) e = elim (lookup v known) [
  | none ↦ (e, err nil_pointer)
  | some t ↦ send_events workflow_id known vs (send_event (task_event workflow_id t) e)
]

abbrev pub with_plan_state : World → Flow → Flow
with_plan_state w f = record f { plan = record f.plan { plan_state = w.plan_state } }

abbrev pub err_workflow_failed : Text
err_workflow_failed = codes "workflow任务失败"

abbrev pub with_docs : Docs → Engine → Engine
with_docs docs e = record e { world = record e.world { docs = docs } }

-- What is asked of the outside while a plan is scheduled once.
pub record ScheduleAnswers : Type 0 where
  pub stored : Stored
  pub locked : Bool
  pub env : Env
  pub finish : Answers

-- What the calls of the handler of a report answer.
pub record ReportAnswers : Type 0 where
  pub now : ℕ
  pub commits : List Write
  pub finish : Answers
  pub tries : List ScheduleAnswers

module _ (etcd_prefix : Text) (is_leader : Bool) where
  -- `Finished` of a plan of the runner
  unfoldable pub finish_flow : Answers → Option Text → Flow → Engine → Engine × Result (Unit {0})
  finish_flow a with_error f e =
      let (w, r) =
        finished_plan etcd_prefix f.workflow_id a with_error
          (record e.world { plan_state = f.plan_state }) in
      (put_flow (with_plan_state w f) (record e { world = w }), r)

  -- The error of a failed `Finished` is logged with the text of the error of the plan, which
  -- panics where the plan has none.
  abbrev pub after_finish : Option Text → Engine × Result (Unit {0}) → Engine × Result (Unit {0})
  after_finish with_error (e, ok u) = (e, ok tt)
  after_finish none (e, err x) = (e, err nil_pointer)
  after_finish (some t) (e, err x) = (e, ok tt)

  unfoldable pub after_can_schedule :
      ScheduleAnswers → Flow → Engine → Outcome → Engine × Result (Unit {0})
  unfolding finish_flow send_events
  after_can_schedule a f e (stopped x) = (e, err x)
  after_can_schedule a f e plan_failed =
      after_finish (some err_workflow_failed) (finish_flow a.finish (some err_workflow_failed) f e)
  after_can_schedule a f e (tasks readys true) = after_finish none (finish_flow a.finish none f e)
  after_can_schedule a f e (tasks readys false) =
      if is_leader then send_events f.workflow_id f.known readys e else (e, ok tt)

  unfoldable pub schedule_refreshed :
      ScheduleAnswers → Engine → Flow × Result (Unit {0}) → Engine × Result (Unit {0})
  unfolding after_can_schedule
  schedule_refreshed a e (f, err x) = (put_flow f e, err x)
  schedule_refreshed a e (f, ok u) =
      let (docs, outcome) =
        can_schedule etcd_prefix a.env f.workflow_id a.locked f.known f.task_flow e.world.docs in
      after_can_schedule a f (with_docs docs (put_flow f e)) outcome

  unfoldable pub schedule_workflow_plan :
      ScheduleAnswers → Flow → Engine → Engine × Result (Unit {0})
  unfolding schedule_refreshed refresh_plan_tasks
  schedule_workflow_plan a f e = schedule_refreshed a e (refresh_plan_tasks a.stored f)

  -- `rego.Retry` on a list of tries, each on the plan as it is then; the last error is returned.
  unfoldable pub schedule_retried :
      List ScheduleAnswers → ℕ → Err → Engine → Engine × Result (Unit {0})
  unfolding schedule_workflow_plan
  schedule_retried [] id last e = (e, err last)
  schedule_retried (a ∷ more) id last e = elim (get_plan id e) [
    | none ↦ (e, err last)
    | some f ↦
        let (e', r) = schedule_workflow_plan a f e in
        elim r [ ok u ↦ (e', ok tt) | err x ↦ schedule_retried more id x e' ]
  ]

  -- The transaction of `setWorkFlowTaskFinished` on a list of tries: a try that is lost after it
  -- was stored is made again.
  unfoldable pub finish_retried :
      (now : ℕ) (agent_ip : Text) → TaskFinished → List Write → Err → Docs → Docs × Result Bool
  unfolding set_work_flow_task_finished
  finish_retried now agent_ip r [] last docs = (docs, err last)
  finish_retried now agent_ip r (w ∷ ws) last docs =
      let (docs', done) = set_work_flow_task_finished etcd_prefix now agent_ip r docs in
      elim done [
        | err x ↦ finish_retried now agent_ip r ws x docs
        | ok plan_finished ↦ elim w [
          | answered ↦ (docs', ok plan_finished)
          | lost_before ↦ finish_retried now agent_ip r ws etcd_error docs
          | lost_after ↦ finish_retried now agent_ip r ws etcd_error docs'
        ]
      ]

  -- An error of `Finished` is not read here.
  abbrev pub finish_ignored : Answers → ℕ → Engine → Engine
  finish_ignored a id e = elim (get_plan id e) [ none ↦ e | some f ↦ (finish_flow a none f e).0 ]

  unfoldable pub go_on : ReportAnswers → ℕ → Engine → Engine × Result (Unit {0})
  unfolding schedule_retried get_plan
  go_on a id e =
      if is_leader
      then elim (get_plan id e) [
        | none ↦ (e, ok tt)
        | some f ↦ schedule_retried a.tries id etcd_error e
      ]
      else (e, ok tt)

  unfoldable pub after_finished :
      ReportAnswers → ℕ → Engine → Docs × Result Bool → Engine × Result (Unit {0})
  unfolding go_on finish_flow get_plan
  after_finished a id e (docs, err x) = (with_docs docs e, err x)
  after_finished a id e (docs, ok true) = (finish_ignored a.finish id (with_docs docs e), ok tt)
  after_finished a id e (docs, ok false) = go_on a id (with_docs docs e)

  -- `handleTaskResultV1`
  unfoldable pub handle_task_result :
      ReportAnswers → (agent_ip : Text) → TaskFinished → Engine → Engine × Result (Unit {0})
  unfolding finish_retried after_finished
  handle_task_result a agent_ip r e =
      after_finished a r.workflow_id e
        (finish_retried a.now agent_ip r a.commits etcd_error e.world.docs)

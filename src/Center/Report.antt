-- ===== src/Center/Report.antt =====
-- cmd/service/rpc.go: `StatusReporter`, which an agent calls when a run begins and when it ends.
use gopher_cron.Base.{
  ℕ, Text, [], codes, Bool, true, false, ◌==◌, Option, none, some, if◌then◌else◌,
}
use gopher_cron.Lock.{Write}
use gopher_cron.Utils.Version.{compare_version}
use gopher_cron.Workflow.Types.{workflow_in_process, Doc, json, corrupt}
use gopher_cron.Workflow.Engine.Schedule.{ReportAnswers}
use gopher_cron.Agent.{PlanType, active_plan}
use gopher_cron.Logs.{TaskExecutingInfo}
use gopher_cron.Center.{
  TaskFinishedV2, Center, CenterError, internal, panicked, of_workflow, Fetched, fetched, not_found,
  fetch_error, get_task,
}
use gopher_cron.Center.Running.{RunAnswers, set_task_running}
use gopher_cron.Center.Finished.{Project, save_task_log, handler_task_finished}

-- The event of a report, by its type: the JSON of a run that begins, or of one that has ended.
pub data Event : Type 0 where
  running_event : Doc TaskExecutingInfo → Event
  finished_event : Doc TaskFinishedV2 → Event
  other_event : Event

-- What an agent is told. `aborted` tells it to give the run up without another try.
pub data Told : Type 0 where
  told_ok unauthenticated aborted failed : Told

pub record Answers : Type 0 where
  pub read_task : Bool
  pub run : RunAnswers
  pub project : Project
  pub save_answered : Bool
  pub save_time : ℕ
  pub delete_key : Write
  pub report : ReportAnswers

-- Who reports: the projects its token allows, where it has one, its address and its version.
pub record Caller : Type 0 where
  pub allow : Option (ℕ → Bool)
  pub agent_ip : Text
  pub agent_version : Option Text

abbrev pub version_text : Option Text → Text
version_text none = []
version_text (some v) = v

abbrev pub is_allowed : Caller → ℕ → Bool
is_allowed caller project_id = elim caller.allow [ none ↦ true | some allow ↦ allow project_id ]

abbrev pub is_active : PlanType → Bool
is_active active_plan = true
is_active _ = false

abbrev pub task_status_scheduling : ℕ
task_status_scheduling = 1

-- an error with a code other than 500 is not tried again
abbrev pub told_error : CenterError → Told
told_error internal = failed
told_error panicked = failed
told_error (of_workflow e) = failed
told_error _ = aborted

abbrev pub told_run : Center × Option CenterError → Center × Told
told_run (c, none) = (c, told_ok)
told_run (c, some e) = (c, told_error e)

-- `ErrWorkflowInProcess` is no error of a report
abbrev pub told_finished : Center × Option CenterError → Center × Told
told_finished (c, none) = (c, told_ok)
told_finished (c, some (of_workflow workflow_in_process)) = (c, told_ok)
told_finished (c, some _) = (c, failed)

-- A run that nobody asked for by hand needs a task that is scheduled; `none` lets it go on.
unfoldable pub check_schedule : Fetched → Option Told
check_schedule not_found = some failed
check_schedule fetch_error = some failed
check_schedule (fetched task) = if task.status == task_status_scheduling then none else some aborted

abbrev pub gate : Center → Center × Told → Option Told → Center × Told
gate c run none = run
gate c run (some told) = (c, told)

module _ (etcd_prefix : Text) (is_leader : Bool)
    (result_json : (result error operator : Text) → Text) where
  unfoldable pub report_running :
      Answers → Caller → (project_id : ℕ) → TaskExecutingInfo → Center → Center × Told
  unfolding check_schedule set_task_running get_task
  report_running a caller project_id info c =
      let run = told_run (
        set_task_running etcd_prefix a.run caller.agent_ip (version_text caller.agent_version) info
          c) in
      if is_active info.plan_type
      then run
      else gate c run
          (check_schedule (get_task etcd_prefix a.read_task project_id info.task.task_id c))

  -- Agents newer than v2.1.9999 leave the log to the center.
  unfoldable pub save_if_new : Answers → Caller → TaskFinishedV2 → Center → Center
  unfolding save_task_log
  save_if_new a caller r c = elim caller.agent_version [
    | none ↦ c
    | some v ↦
        if compare_version (codes "v2.1.9999") v
        then save_task_log result_json a.project a.save_answered a.save_time caller.agent_ip r c
        else c
  ]

  unfoldable pub report_finished : Answers → Caller → TaskFinishedV2 → Center → Center × Told
  unfolding save_if_new handler_task_finished
  report_finished a caller r c = told_finished (
      handler_task_finished etcd_prefix is_leader a.delete_key a.report caller.agent_ip r
        (save_if_new a caller r c))

  unfoldable pub status_reporter :
      Answers → Caller → (project_id : ℕ) → Event → Center → Center × Told
  unfolding report_running report_finished
  status_reporter a caller project_id (running_event corrupt) c =
      if is_allowed caller project_id then (c, failed) else (c, unauthenticated)
  status_reporter a caller project_id (running_event (json info)) c =
      if is_allowed caller project_id
      then report_running a caller project_id info c
      else (c, unauthenticated)
  status_reporter a caller project_id (finished_event corrupt) c =
      if is_allowed caller project_id then (c, failed) else (c, unauthenticated)
  status_reporter a caller project_id (finished_event (json r)) c =
      if is_allowed caller project_id then report_finished a caller r c else (c, unauthenticated)
  status_reporter a caller project_id other_event c =
      if is_allowed caller project_id then (c, told_ok) else (c, unauthenticated)

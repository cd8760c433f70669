-- ===== src/Center/Finished.antt =====
-- app/schedule.go: `SaveTaskLog` and `HandlerTaskFinished`, for a run that has ended. Metrics,
-- warnings and web hooks are left out, and so are the messages of the workflow runner.
use gopher_cron.Base.{ℕ, Text, [], ◌∷◌, Bool, true, false, ◌==◌, Option, none, some, if◌then◌else◌}
use gopher_cron.Lock.{Write}
use gopher_cron.Workflow.Types.{Result, ok, err}
use gopher_cron.Workflow.Engine.{Engine}
use gopher_cron.Workflow.Engine.Schedule.{ReportAnswers, handle_task_result}
use gopher_cron.Logs.{TaskLog, create_or_update_task_log}
use gopher_cron.Center.{
  TaskFinishedV2, task_status_changed, Center, CenterError, internal, of_workflow, publish,
}
use gopher_cron.Center.Running.{task_has_error, del_task_running_key}

-- What the search for the project of a run gives: an error, no project, or its title.
pub data Project : Type 0 where
  project_error no_project : Project
  titled : Text → Project

abbrev pub has_text : Text → Bool
has_text [] = false
has_text (b ∷ s) = true

abbrev pub error_flag : Text → ℕ
error_flag error = if has_text error then task_has_error else 0

-- the row of a run that has ended; `result_json` is the JSON of a `TaskResultLog`
abbrev pub finished_log :
    (result_json : (result error operator : Text) → Text)
    → (agent_ip title : Text) → TaskFinishedV2
    → TaskLog
finished_log result_json agent_ip title r = record {
  project_id = r.project_id;
  task_id = r.task_id;
  project = title;
  name = r.task_name;
  result = result_json r.result r.error r.operator;
  plan_time = r.plan_time;
  start_time = r.start_time;
  end_time = r.end_time;
  command = r.command;
  with_error = error_flag r.error;
  client_ip = agent_ip;
  tmp_id = r.tmp_id;
  agent_version = [];
  create_time = 0;
}

unfoldable pub save_log : (answered : Bool) (now : ℕ) → TaskLog → Center → Center
unfolding create_or_update_task_log
save_log answered now row c = record c {
  table = create_or_update_task_log answered now row c.table;
}

unfoldable pub save_task_log :
    (result_json : (result error operator : Text) → Text)
    → Project
    → (answered : Bool) (now : ℕ) (agent_ip : Text) → TaskFinishedV2
    → Center
    → Center
unfolding save_log
save_task_log result_json project_error answered now agent_ip r c = c
save_task_log result_json no_project answered now agent_ip r c =
    save_log answered now (finished_log result_json agent_ip [] r) c
save_task_log result_json (titled title) answered now agent_ip r c =
    save_log answered now (finished_log result_json agent_ip title r) c

abbrev pub announce : TaskFinishedV2 → Center → Center
announce r c = publish (task_status_changed r.project_id r.task_id r.tmp_id r.status) c

abbrev pub after_engine :
    TaskFinishedV2 → Center → Engine × Result (Unit {0}) → Center × Option CenterError
after_engine r c (e, ok u) = (announce r (record c { engine = e }), none)
after_engine r c (e, err x) = (record c { engine = e }, some (of_workflow x))

module _ (etcd_prefix : Text) (is_leader : Bool) where
  unfoldable pub after_delete :
      ReportAnswers
      → (agent_ip : Text) → TaskFinishedV2
      → Center × Option CenterError
      → Center × Option CenterError
  unfolding handle_task_result
  after_delete a agent_ip r (c, some e) = (c, some internal)
  after_delete a agent_ip r (c, none) =
      if r.workflow_id == 0
      then (announce r c, none)
      else after_engine r c
          (handle_task_result etcd_prefix is_leader a agent_ip r.finished c.engine)

  unfoldable pub handler_task_finished :
      Write
      → ReportAnswers
      → (agent_ip : Text) → TaskFinishedV2
      → Center
      → Center × Option CenterError
  unfolding after_delete del_task_running_key
  handler_task_finished delete a agent_ip r c =
      after_delete a agent_ip r (del_task_running_key etcd_prefix delete r.project_id r.task_id c)

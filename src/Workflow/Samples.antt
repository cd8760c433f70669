-- ===== src/Workflow/Samples.antt =====
-- One task of a workflow in etcd, and a plan of two tasks.
use gopher_cron.Base.{Text, List, [], ◌∷◌, some, codes, refl, All, eq_text}
use gopher_cron.Base.Map.{lookup}
use gopher_cron.Keys.{build_workflow_task_status_key}
use gopher_cron.Workflow.Types.{
  Status, done, WorkflowInfo, TaskInfo, WorkflowRunningTaskInfo, TaskFinished,
}
use gopher_cron.Workflow.TaskStates.Runs.{Call, finish, mark_running, start, apply_all}
use gopher_cron.Workflow.TaskStates.Records.{IsReport, EntryIsConsistent, apply_all-IsConsistent}

abbrev cron : Text
cron = codes "/cron"

abbrev flow : WorkflowInfo
flow = record { workflow_id = 7; tmp_id = [] }

abbrev task : TaskInfo
task = record {
  task_id = codes "a";
  name = codes "backup";
  project_id = 1;
  command = [];
  remark = [];
  timeout = 5;
  noseize = 0;
  tmp_id = [];
  flow_info = some flow;
}

abbrev on_agent : WorkflowRunningTaskInfo
on_agent = record {
  workflow_id = 7;
  tmp_id = [];
  task_id = codes "a";
  task_name = codes "backup";
  project_id = 1;
  agent_ip = [];
}

abbrev report : Status → TaskFinished
report st = record {
  task_id = codes "a";
  project_id = 1;
  status = st;
  workflow_id = 7;
  tmp_id = [];
  result = [];
}

abbrev run_calls : List Call
run_calls = start 1 1 task ∷ mark_running 2 on_agent ∷ finish 3 [] (report done) ∷ []

abbrev key_a : Text
key_a = build_workflow_task_status_key cron 7 1 (codes "a")

reports : All IsReport run_calls
reports = (tt, (tt, (refl, tt)))

apply_all-IsConsistent_example : EntryIsConsistent (lookup key_a (apply_all cron run_calls []))
apply_all-IsConsistent_example = apply_all-IsConsistent cron run_calls reports key_a

-- ===== src/Center/Samples.antt =====
-- A center with one task, one run of it and two agents.
use gopher_cron.Base.{Text, List, [], ◌∷◌, codes, true, false, none, some, ◌++◌}
use gopher_cron.Keys.{build_key, build_task_status_key}
use gopher_cron.Lock.{answered, lost_before, Kvs, Replies}
use gopher_cron.Agent.{normal_plan, workflow_plan, Task}
use gopher_cron.Workflow.Types.{running, done, TaskInfo, json}
use gopher_cron.Workflow.Finish.{both, missing}
use gopher_cron.Workflow.Engine.{Engine}
use gopher_cron.Workflow.Engine.Schedule.{ReportAnswers}
use gopher_cron.Logs.{TaskLog, TaskExecutingInfo}
use gopher_cron.Center.{StoredTask, TaskRunningInfo, Kept, TaskFinishedV2, Center}
use gopher_cron.Center.Running.{RunAnswers}
use gopher_cron.Center.Check.{Agents, says}
use gopher_cron.Center.Reset.{ResetAnswers}
use gopher_cron.Center.Finished.{titled}
use gopher_cron.Center.Report.{Answers, Caller}
use gopher_cron.Center.Session.{Asked, Peer}
use gopher_cron.Center.Tasks.{SaveAnswers, DeleteAnswers}
use gopher_cron.Center.Kill.{KillAnswers}

abbrev pub cron : Text
cron = codes "/cron"

abbrev pub ip : Text
ip = codes "10.0.0.1"

abbrev pub version : Text
version = codes "v2.4.8"

abbrev pub task : TaskInfo
task = record {
  task_id = codes "a";
  name = codes "backup";
  project_id = 1;
  command = [];
  remark = [];
  timeout = 5;
  noseize = 0;
  tmp_id = [];
  flow_info = none;
}

abbrev pub stored : StoredTask
stored = record {
  info = task;
  cron = [];
  create_time = 0;
  status = 1;
  is_running = none;
  exclusion = 0;
  client_ip = [];
}

abbrev pub run : TaskExecutingInfo
run = record {
  task = task;
  plan_time = some 100;
  plan_type = normal_plan;
  real_time = some 101;
  tmp_id = codes "x";
}

abbrev pub row : TaskLog
row = record {
  project_id = 1;
  task_id = codes "a";
  project = [];
  name = codes "backup";
  result = [];
  plan_time = 100;
  start_time = 101;
  end_time = 0;
  command = [];
  with_error = 0;
  client_ip = ip;
  tmp_id = codes "x";
  agent_version = version;
  create_time = 101;
}

-- a run of the same task that has ended
abbrev pub old_row : TaskLog
old_row = record row { plan_time = 50; start_time = 51; end_time = 60; tmp_id = codes "wxy" }

abbrev pub memory : TaskRunningInfo
memory = record { status = running; tmp_id = codes "x"; timestamp = 102; agent_ip = ip }

abbrev pub kept : Kept
kept = record { value = json memory; lease = some 5 }

abbrev pub engine : Engine
engine = record {
  world = record { plans = []; docs = []; plan_state = none; kills = []; logs = [] };
  flows = [];
  raised = 0;
  dropped = 0;
  events = [];
}

abbrev pub idle : Center
idle = record {
  tasks = (build_key cron 1 (codes "a"), json stored) ∷ [];
  status_keys = [];
  engine = engine;
  table = [];
  published = [];
  dispatched = [];
}

abbrev pub busy : Center
busy = record idle {
  status_keys = (build_task_status_key cron 1 (codes "a"), kept) ∷ [];
  table = old_row ∷ row ∷ [];
}

abbrev pub run_answers : RunAnswers
run_answers = record {
  read_log = true;
  write_log = true;
  commit = answered;
  grant = true;
  put = answered;
  now = 102;
  log_time = 102;
  create_time = 102;
  record_time = 102;
}

-- the lease is not granted
abbrev pub no_lease : RunAnswers
no_lease = record run_answers { grant = false }

abbrev pub report : TaskFinishedV2
report = record {
  finished = record {
    task_id = codes "a";
    project_id = 1;
    status = done;
    workflow_id = 0;
    tmp_id = codes "x";
    result = [];
  };
  task_name = codes "backup";
  command = [];
  start_time = 101;
  end_time = 110;
  error = [];
  operator = [];
  plan_time = 100;
}

abbrev pub result_json : (result error operator : Text) → Text
result_json result error operator = result ++ error ++ operator

abbrev pub offline : Text → Text
offline addr = addr

-- an agent whose address goes on behind the recorded one, and the recorded one
abbrev pub neighbours : Agents
neighbours = record {
  streams = some (
      record { addr = ip ++ codes "2:80"; is_running = says false }
      ∷ record { addr = ip ++ codes ":80"; is_running = says true }
      ∷ []);
  clients = none;
}

abbrev pub nobody : Agents
nobody = record { streams = some []; clients = some [] }

abbrev pub reset_answers : Agents → ResetAnswers
reset_answers agents = record {
  read_key = true;
  agents = agents;
  read_task = true;
  active = none;
  read_log = true;
  write_log = true;
  delete_key = answered;
  commit = true;
  timeout_now = 103;
  active_now = 103;
  now = 103;
}

abbrev pub kill_answers : KillAnswers
kill_answers = record {
  read_key = true;
  agents = nobody;
  read_log = true;
  write_log = true;
  commit = true;
  delete_key = lost_before;
  now = 103;
  find_streams = none;
}

abbrev pub report_answers : ReportAnswers
report_answers = record {
  now = 110;
  commits = answered ∷ [];
  finish = record {
    plan_answered = true;
    tasks_answered = true;
    detail = λ t. missing;
    now = 110;
    clearing = both;
    killed = true;
    logged = true;
  };
  tries = [];
}

abbrev pub answers : Answers
answers = record {
  read_task = true;
  run = run_answers;
  project = titled (codes "p");
  save_answered = true;
  save_time = 111;
  delete_key = answered;
  report = report_answers;
}

abbrev pub caller : Caller
caller = record { allow = none; agent_ip = ip; agent_version = some version }

abbrev pub workflow_event : Task
workflow_event = record {
  project_id = 1;
  task_id = codes "b";
  cron = [];
  command = [];
  status = 1;
  tmp_id = codes "x";
}

-- the run of a task that is stored with its workflow only
abbrev pub workflow_run : TaskExecutingInfo
workflow_run = record run { task = record task { task_id = codes "b" }; plan_type = workflow_plan }

abbrev pub peer : Peer
peer = record { allow = none; revoked = answered; agent_ip = some ip }

abbrev pub unlocked : Kvs
unlocked key = none

abbrev pub replies : Replies
replies = record {
  grant = some 6;
  keep_alive = true;
  commit = answered;
  put = answered;
  revoke = answered;
}

-- what an agent asks for: it does not send its address
abbrev pub asked : List TaskLog → Asked
asked table = record {
  request = record { project_id = 1; task_id = codes "a"; task_tmp_id = codes "x"; agent_ip = [] };
  replies = replies;
  read_log = true;
  table = table;
  sent = true;
}

abbrev pub save_answers : SaveAnswers
save_answers = record { got_lock = true; read = true; send = answered; put = answered }

abbrev pub delete_answers : DeleteAnswers
delete_answers = record { used = some 0; read = true; send = answered; delete = answered }

-- ===== src/Center/Running.antt =====
-- app/schedule.go: `SetTaskRunning`, which an agent calls before it runs a task, and
-- `DelTaskRunningKey`. Log lines, metrics and warnings are left out.
use gopher_cron.Base.{ℕ, Text, eq_text, codes, Bool, true, ◌==◌, Option, none, some, if◌then◌else◌}
use gopher_cron.Base.Map.{insert, erase}
use gopher_cron.Keys.{build_task_status_key}
use gopher_cron.Utils.Version.{compare_version}
use gopher_cron.Lock.{Write, answered, lost_before, lost_after}
use gopher_cron.Workflow.Types.{
  running, WorkflowInfo, WorkflowRunningTaskInfo, Result, ok, err, json,
}
use gopher_cron.Workflow.TaskStates.{Docs, set_workflow_task_running}
use gopher_cron.Workflow.Engine.Schedule.{with_docs}
use gopher_cron.Logs.{
  TaskExecutingInfo, Table, Checked, failed, created, check_or_create_schedule_log,
}
use gopher_cron.Center.{
  TaskRunningInfo, task_status_changed, workflow_task_status_changed, Center, CenterError,
  forbidden, internal, publish,
}

abbrev pub default_task_timeout_seconds : ℕ
default_task_timeout_seconds = 300

abbrev pub task_has_error : ℕ
task_has_error = 1

-- What the calls of `SetTaskRunning` answer: the queries of the log, the transaction on the states
-- of a workflow, the grant of a lease and the put; and the clock, in the order of its readings.
pub record RunAnswers : Type 0 where
  pub read_log : Bool
  pub write_log : Bool
  pub commit : Write
  pub grant : Bool
  pub put : Write
  pub now : ℕ
  pub log_time : ℕ
  pub create_time : ℕ
  pub record_time : ℕ

abbrev pub running_info : ℕ → (agent_ip : Text) → TaskExecutingInfo → TaskRunningInfo
running_info now agent_ip info = record {
  status = running;
  tmp_id = info.tmp_id;
  timestamp = now;
  agent_ip = agent_ip;
}

abbrev pub workflow_running_info :
    (agent_ip : Text) → WorkflowInfo → TaskExecutingInfo → WorkflowRunningTaskInfo
workflow_running_info agent_ip flow info = record {
  workflow_id = flow.workflow_id;
  tmp_id = info.tmp_id;
  task_id = info.task.task_id;
  task_name = info.task.name;
  project_id = info.task.project_id;
  agent_ip = agent_ip;
}

-- only an answer that no row was created stops the run
abbrev pub may_run : Checked → Bool
may_run failed = true
may_run (created b) = b

abbrev pub log_run : Table × Checked → Table × Bool
log_run (t, checked) = (t, may_run checked)

-- Agents newer than v2.4.6 get a row in the log, unless the run has no plan time.
unfoldable pub check_log :
    RunAnswers → (agent_ip agent_version : Text) → TaskExecutingInfo → Table → Table × Bool
unfolding check_or_create_schedule_log
check_log a agent_ip agent_version info t = elim info.plan_time [
  | none ↦ (t, true)
  | some plan_time ↦
      if compare_version (codes "v2.4.6") agent_version
      then log_run (
          check_or_create_schedule_log a.read_log a.write_log a.log_time a.create_time plan_time
            info agent_ip agent_version t)
      else (t, true)
]

abbrev pub lease_seconds : ℕ → ℕ
lease_seconds timeout = if timeout == 0 then default_task_timeout_seconds else timeout

-- a write to a part of the state, as etcd answers it
abbrev pub written {ℓ} : {A : Type ℓ} → Write → (old new : A) → A
written answered old new = new
written lost_before old new = old
written lost_after old new = new

abbrev pub error_of : Write → Option CenterError
error_of answered = none
error_of lost_before = some internal
error_of lost_after = some internal

module _ (etcd_prefix : Text) where
  abbrev pub status_key : TaskExecutingInfo → Text
  status_key info = build_task_status_key etcd_prefix info.task.project_id info.task.task_id

  -- The transaction for a task of a workflow, which also puts the status key. It publishes before
  -- it commits.
  unfoldable pub run_in_workflow :
      RunAnswers
      → (agent_ip : Text) → WorkflowInfo
      → TaskExecutingInfo
      → Center
      → Docs × Result (Unit {0})
      → Center × Option CenterError
  run_in_workflow a agent_ip flow info c (docs, err e) = (c, some internal)
  run_in_workflow a agent_ip flow info c (docs, ok u) = (
    publish
        (workflow_task_status_changed flow.workflow_id info.task.project_id info.task.task_id
          running)
        (record c {
          engine = with_docs (written a.commit c.engine.world.docs docs) c.engine;
          status_keys = written a.commit c.status_keys (
              insert (status_key info)
                (record { value = json (running_info a.now agent_ip info); lease = none })
                c.status_keys);
        }),
    error_of a.commit,
  )

  abbrev pub published_if : Write → TaskExecutingInfo → Center → Center
  published_if answered info c =
      publish (task_status_changed info.task.project_id info.task.task_id info.tmp_id running) c
  published_if _ info c = c

  -- a task outside workflows: the status key hangs on a lease
  unfoldable pub run_alone :
      RunAnswers → (agent_ip : Text) → TaskExecutingInfo → Center → Center × Option CenterError
  run_alone a agent_ip info c =
      if a.grant
      then (
        published_if a.put info (record c {
          status_keys = written a.put c.status_keys (
              insert (status_key info)
                (record {
                  value = json (running_info a.now agent_ip info);
                  lease = some (lease_seconds info.task.timeout);
                })
                c.status_keys);
        }),
        error_of a.put,
      )
      else (c, some internal)

  unfoldable pub run_as :
      RunAnswers
      → (agent_ip : Text) → TaskExecutingInfo
      → Center
      → Option WorkflowInfo
      → Center × Option CenterError
  unfolding run_in_workflow run_alone set_workflow_task_running
  run_as a agent_ip info c none = run_alone a agent_ip info c
  run_as a agent_ip info c (some flow) = run_in_workflow a agent_ip flow info c (
      set_workflow_task_running etcd_prefix a.record_time (workflow_running_info agent_ip flow info)
        c.engine.world.docs)

  unfoldable pub run_task :
      RunAnswers → (agent_ip : Text) → TaskExecutingInfo → Center → Center × Option CenterError
  unfolding run_as
  run_task a agent_ip info c = run_as a agent_ip info c info.task.flow_info

  unfoldable pub set_task_running :
      RunAnswers
      → (agent_ip agent_version : Text) → TaskExecutingInfo
      → Center
      → Center × Option CenterError
  unfolding check_log run_task
  set_task_running a agent_ip agent_version info c =
      let (table, may) = check_log a agent_ip agent_version info c.table in
      if may
      then run_task a agent_ip info (record c { table = table })
      else (record c { table = table }, some forbidden)

  -- `DelTaskRunningKey`
  unfoldable pub del_task_running_key :
      Write → (project_id : ℕ) (task_id : Text) → Center → Center × Option CenterError
  del_task_running_key delete project_id task_id c = (
    record c {
      status_keys =
          written delete c.status_keys
            (erase (build_task_status_key etcd_prefix project_id task_id) c.status_keys);
    },
    error_of delete,
  )

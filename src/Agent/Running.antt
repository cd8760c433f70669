-- ===== src/Agent/Running.antt =====
-- The goroutine of `TryStartTask` and `reportTaskResult`, both of agent/scheduler.go: one run of a
-- task from the lock to its report. What the lock, the center and the shell answer are arguments.
-- `Unix` of a time, of a library, is a parameter. Retries of the reports are inside the answers, and
-- so are what the keeper of the lock notes while the command runs. Warnings, logs, metrics and
-- panics are not modelled.
pub mod Reported
pub mod Status
pub mod EndTime
pub mod Logged
use gopher_cron.Base.{
  ℕ, Text, codes, List, [], ◌∷◌, ◌++◌, eq_text, Bool, true, false, Option, none, some, ◌==◌,
  if◌then◌else◌,
}
use gopher_cron.Base.Map.{insert, erase}
use gopher_cron.Keys.Decimal.{decimal}
use gopher_cron.Agent.{SchedulePlan, Scheduler, PlanType, active_plan, scheduler_key}
use gopher_cron.Agent.Hold.{Code, aborted, Answer, locked, failed}
use gopher_cron.Center.{TaskFinishedV2}
use gopher_cron.Utils.Signal.{SignalChannel, new_signal_channel, send, close}
use gopher_cron.Utils.Reason.{write_string, write_string_prefix}
use gopher_cron.Workflow.Types.{done, fail}

pub record TaskExecuteResult : Type 0 where
  pub output : Text
  pub err : Text
  pub start_time : ℕ
  pub end_time : ℕ

-- The plan with the id of the run filled in, and the fields of the task and of the plan that only a
-- run reads.
pub record RunPlan : Type 0 where
  pub plan : SchedulePlan
  pub task_name : Text
  pub noseize : Bool
  pub flow_info : Option ℕ
  pub user_id : ℕ
  pub user_name : Text

-- What the center answers to the report that the task runs.
pub data RunningReply : Type 0 where
  accepted : RunningReply
  rejected : (message : Text) → RunningReply
  unreached : Code → (error : Text) → RunningReply

-- `executing` is the table of running tasks, `executed` the ids of the runs whose command ran,
-- `reports` what went to the center, latest first.
pub record Run : Type 0 where
  pub executing : List (Text × Text)
  pub executed : List Text
  pub reports : List TaskFinishedV2
  pub cancelled : Bool
  pub signal : SignalChannel Text
  pub reason : Text
  pub pushed : List TaskExecuteResult

abbrev pub operator_of : RunPlan → Text
operator_of r =
    if r.user_id == 0 then [] else r.user_name ++ codes "(" ++ decimal r.user_id ++ codes ")"

abbrev pub workflow_of : Option ℕ → ℕ
workflow_of none = 0
workflow_of (some id) = id

module _ (unix : ℕ → ℕ) where
  abbrev pub started_report : RunPlan → TaskFinishedV2
  started_report r = record {
    finished = record {
      task_id = r.plan.task.task_id;
      project_id = r.plan.task.project_id;
      status = done;
      workflow_id = workflow_of r.flow_info;
      tmp_id = r.plan.tmp_id;
      result = [];
    };
    task_name = r.task_name;
    command = r.plan.task.command;
    start_time = 0;
    end_time = 0;
    error = [];
    operator = operator_of r;
    plan_time = unix r.plan.plan_time;
  }

  abbrev pub with_result : TaskExecuteResult → TaskFinishedV2 → TaskFinishedV2
  with_result x f = record f {
    finished = record f.finished { result = x.output };
    start_time = unix x.start_time;
    end_time = unix x.end_time;
  }

  abbrev pub with_err : Text → TaskFinishedV2 → TaskFinishedV2
  with_err [] f = f
  with_err (b ∷ s) f = record f { finished = record f.finished { status = fail }; error = b ∷ s }

  -- the value that `reportTaskResult` sends
  unfoldable pub report_task_result : RunPlan → Option TaskExecuteResult → TaskFinishedV2
  unfolding decimal
  report_task_result r none = started_report r
  report_task_result r (some x) = with_err x.err (with_result x (started_report r))

  -- the deferred calls once the task is in the table
  abbrev pub finish : RunPlan → Option TaskExecuteResult → Run → Run
  finish r x s = record s {
    reports = report_task_result r x ∷ s.reports;
    executing = erase (scheduler_key r.plan.task) s.executing;
    cancelled = true;
  }

  abbrev pub prefixed : Text → Text → Text
  prefixed err reason = write_string_prefix (codes "任务执行结果: " ++ err) reason

  -- The error of the command goes in front of the reasons noted so far, and the result carries both.
  abbrev pub explain : Text → TaskExecuteResult → Run → Run × TaskExecuteResult
  explain [] x s = (s, x)
  explain (b ∷ e) x s =
      let reason = prefixed (b ∷ e) s.reason in
      (record s { reason = reason }, record x { err = reason })

  abbrev pub push : RunPlan → Run × TaskExecuteResult → Run
  push r (s, x) = finish r (some x) (record s { pushed = x ∷ s.pushed })

  -- `ExecuteTask` once it is known whether the context is over. A context that timed out is not told
  -- apart from one that was cancelled.
  abbrev pub start_command :
      RunPlan → (is_over : Bool) (shell : TaskExecuteResult) → Run → Run × TaskExecuteResult
  start_command r true shell s = (s, record shell { output = []; err = codes "context canceled" })
  start_command r false shell s = (record s { executed = r.plan.tmp_id ∷ s.executed }, shell)

  -- `late`: the task starts later than it may; `shell`: what the command gives; `end_time` is that of
  -- the execution on every branch.
  unfoldable pub execute_task :
      RunPlan → (late : Bool) (shell : TaskExecuteResult) → Run → Run × TaskExecuteResult
  execute_task r true shell s =
      (s, record shell { output = []; err = codes "task starting timeout" })
  execute_task r false shell s = start_command r s.cancelled shell s

  unfoldable pub executed_result : RunPlan → Run × TaskExecuteResult → Run
  unfolding report_task_result write_string_prefix
  executed_result r (s, x) = push r (explain x.err x s)

  unfoldable pub run_command : RunPlan → (late : Bool) (shell : TaskExecuteResult) → Run → Run
  unfolding execute_task executed_result close
  run_command r late shell s =
      executed_result r (execute_task r late shell (record s { signal = close s.signal }))

  abbrev pub start_failed : Text → Text
  start_failed e = codes "agent上报任务开始状态失败: " ++ e ++ codes "，任务终止"

  unfoldable pub stop_run : (reason told : Text) → Run → Run
  unfolding send write_string
  stop_run reason told s = record s {
    cancelled = true;
    reason = write_string reason s.reason;
    signal = send told s.signal;
  }

  unfoldable pub after_reply :
      RunPlan → RunningReply → (late : Bool) (shell : TaskExecuteResult) → Run → Run
  unfolding run_command stop_run report_task_result
  after_reply r accepted late shell s = run_command r late shell s
  after_reply r (rejected message) late shell s =
      run_command r late shell (stop_run message (start_failed message) s)
  after_reply r (unreached aborted e) late shell s = finish r none s
  after_reply r (unreached code e) late shell s =
      run_command r late shell (stop_run (start_failed e) (start_failed e) s)

  abbrev pub set_executing : RunPlan → Run → Run
  set_executing r s = record s {
    executing = insert (scheduler_key r.plan.task) r.plan.tmp_id s.executing;
  }

  -- `error_text` is the text of the error of a lock.
  unfoldable pub after_lock :
      (error_text : Code → Text)
      → RunPlan
      → Answer
      → RunningReply
      → (late : Bool) (shell : TaskExecuteResult) → Run
      → Run
  unfolding after_reply send
  after_lock error_text r (failed code) reply late shell s = record s {
    cancelled = true;
    signal = send (error_text code) s.signal;
  }
  after_lock error_text r locked reply late shell s =
      after_reply r reply late shell (set_executing r s)

  unfoldable pub run_task :
      (error_text : Code → Text)
      → RunPlan
      → Answer
      → RunningReply
      → (late : Bool) (shell : TaskExecuteResult) → Run
      → Run
  unfolding after_lock after_reply
  run_task error_text r lock reply late shell s =
      if r.noseize
      then after_reply r reply late shell (set_executing r s)
      else after_lock error_text r lock reply late shell s

-- `errSignal`, which only a run that somebody asked for by hand leaves open
abbrev pub first_signal : PlanType → SignalChannel Text
first_signal active_plan = new_signal_channel
first_signal _ = record { is_close = true; channel = none }

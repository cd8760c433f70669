-- ===== src/Center/Reset.antt =====
-- app/schedule.go: `CheckTaskIsRunningWithResetStatus`, which ends the run of a task whose agent is
-- gone. The clock is read for the timeout, for the active time and for the end of the log.
use gopher_cron.Base.{
  ℕ, ◌+◌, Text, List, [], ◌∷◌, eq_text, Bool, true, false, not, ◌&&◌, ◌==◌, ltb, Option, none, some,
  text_eq, if◌then◌else◌,
}
use gopher_cron.Lock.{Write}
use gopher_cron.Workflow.Types.{fail}
use gopher_cron.Logs.{TaskLog, Table, get_one, create_or_update_task_log}
use gopher_cron.Center.{
  TaskRunningInfo, task_status_changed, Center, CenterError, internal, Reply, answer, refuse,
  publish, Fetched, fetched, not_found, fetch_error, get_task,
}
use gopher_cron.Center.Running.{task_has_error, del_task_running_key}
use gopher_cron.Center.Check.{Agents, check_task_is_running}

-- What the calls answer. `active` is the last time the agent was seen, 0 where it never was.
pub record ResetAnswers : Type 0 where
  pub read_key : Bool
  pub agents : Agents
  pub read_task : Bool
  pub active : Option ℕ
  pub read_log : Bool
  pub write_log : Bool
  pub delete_key : Write
  pub commit : Bool
  pub timeout_now : ℕ
  pub active_now : ℕ
  pub now : ℕ

abbrev pub Outcome : Type 0
Outcome = Center × Reply (List TaskRunningInfo)

abbrev pub is_some {ℓ} : {A : Type ℓ} → List A → Bool
is_some [] = false
is_some (x ∷ xs) = true

-- How the first case of the switch ends: by an error, by `break`, or by falling through.
pub data Waiting : Type 0 where
  stops leaves falls : Waiting

abbrev pub five_minutes : ℕ
five_minutes = 300

-- An agent that was seen in the last five minutes may come back.
abbrev pub after_active : (now : ℕ) → Option ℕ → Waiting
after_active now none = stops
after_active now (some active) = if ltb now (active + five_minutes) then leaves else falls

-- `timeout > now - timestamp`, on signed numbers
unfoldable pub wait_for : ResetAnswers → TaskRunningInfo → List TaskRunningInfo → Fetched → Waiting
wait_for a memory check not_found = stops
wait_for a memory check fetch_error = stops
wait_for a memory check (fetched task) =
    if ltb a.timeout_now (task.timeout + memory.timestamp) && is_some check
    then after_active a.active_now a.active
    else falls

-- `result_json` is the JSON of a `TaskResultLog`, and `offline` the text that names the agent.
module _ (etcd_prefix : Text) (result_json : (result error operator : Text) → Text)
    (offline : Text → Text) where
  abbrev pub ended_log : ℕ → (agent_ip : Text) → TaskLog → TaskLog
  ended_log now agent_ip log = record log {
    with_error = task_has_error;
    result = result_json [] (offline agent_ip) [];
    end_time = now;
  }

  -- the end of the database transaction, whose own error is not read
  abbrev pub committed : Bool → Table → Center → Center
  committed true table c = record c { table = table }
  committed false table c = c

  -- what follows the delete of the key of the run that is checked
  unfoldable pub after_delete :
      ResetAnswers
      → (project_id : ℕ) (task_id tmp_id : Text) → List TaskRunningInfo
      → Table
      → Center × Option CenterError
      → Outcome
  after_delete a project_id task_id tmp_id check table (c, some e) = (c, refuse internal)
  after_delete a project_id task_id tmp_id check table (c, none) = (
    publish (task_status_changed project_id task_id tmp_id fail) (committed a.commit table c),
    answer check,
  )

  -- The log of the run is ended in a transaction; an error rolls it back.
  unfoldable pub end_run :
      ResetAnswers
      → (project_id : ℕ) (task_id tmp_id : Text) → TaskRunningInfo
      → List TaskRunningInfo
      → TaskLog
      → Center
      → Outcome
  unfolding create_or_update_task_log after_delete del_task_running_key
  end_run a project_id task_id tmp_id memory check log c =
      let table =
        create_or_update_task_log a.write_log a.now (ended_log a.now memory.agent_ip log) c.table in
      if not a.write_log
      then (c, refuse internal)
      else if text_eq memory.tmp_id tmp_id
      then after_delete a project_id task_id memory.tmp_id check table
          (del_task_running_key etcd_prefix a.delete_key project_id task_id c)
      else (committed a.commit table c, answer check)

  -- a run without a log, or whose log has ended, is left alone
  unfoldable pub reset_found :
      ResetAnswers
      → (project_id : ℕ) (task_id tmp_id : Text) → TaskRunningInfo
      → List TaskRunningInfo
      → Center
      → Option TaskLog
      → Outcome
  unfolding end_run
  reset_found a project_id task_id tmp_id memory check c none = (c, answer [])
  reset_found a project_id task_id tmp_id memory check c (some log) =
      if log.end_time == 0
      then end_run a project_id task_id tmp_id memory check log c
      else (c, answer check)

  -- the second case
  unfoldable pub reset_log :
      ResetAnswers
      → (project_id : ℕ) (task_id tmp_id : Text) → TaskRunningInfo
      → List TaskRunningInfo
      → Center
      → Outcome
  unfolding reset_found
  reset_log a project_id task_id tmp_id memory check c =
      if a.read_log
      then reset_found a project_id task_id tmp_id memory check c
          (get_one project_id task_id tmp_id c.table)
      else (c, refuse internal)

  unfoldable pub after_wait :
      ResetAnswers
      → (project_id : ℕ) (task_id tmp_id : Text) → TaskRunningInfo
      → List TaskRunningInfo
      → Center
      → Waiting
      → Outcome
  unfolding reset_log
  after_wait a project_id task_id tmp_id memory check c stops = (c, refuse internal)
  after_wait a project_id task_id tmp_id memory check c leaves = (c, answer check)
  after_wait a project_id task_id tmp_id memory check c falls =
      reset_log a project_id task_id tmp_id memory check c

  -- the switch on the run that was last seen
  unfoldable pub after_check :
      ResetAnswers
      → (project_id : ℕ) (task_id tmp_id : Text) → Center
      → Reply (TaskRunningInfo × List TaskRunningInfo)
      → Outcome
  unfolding after_wait wait_for get_task
  after_check a project_id task_id tmp_id c (refuse e) = (c, refuse e)
  after_check a project_id task_id tmp_id c (answer (memory, check)) =
      if text_eq memory.tmp_id tmp_id
      then after_wait a project_id task_id tmp_id memory check c
          (wait_for a memory check (get_task etcd_prefix a.read_task project_id task_id c))
      else reset_log a project_id task_id tmp_id memory check c

  unfoldable pub check_task_is_running_with_reset_status :
      ResetAnswers → (project_id : ℕ) (task_id tmp_id : Text) → Center → Outcome
  unfolding after_check check_task_is_running
  check_task_is_running_with_reset_status a project_id task_id tmp_id c =
      after_check a project_id task_id tmp_id c
        (check_task_is_running etcd_prefix a.read_key a.agents project_id task_id c)

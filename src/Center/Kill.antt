-- ===== src/Center/Kill.antt =====
-- app/etcd.go: `KillTask`, which stops a task on the agents, or ends the run of a task whose agent
-- is gone.
use gopher_cron.Base.{
  ℕ, Text, List, [], ◌∷◌, Bool, true, false, not, ◌==◌, Option, none, some, if◌then◌else◌,
}
use gopher_cron.Lock.{Write}
use gopher_cron.Workflow.Types.{fail}
use gopher_cron.Logs.{TaskLog, Table, get_one, create_or_update_task_log}
use gopher_cron.Center.{
  TaskRunningInfo, task_status_changed, kill_event, Center, CenterError, internal, panicked, Reply,
  answer, refuse, publish, dispatch,
}
use gopher_cron.Center.Running.{del_task_running_key}
use gopher_cron.Center.Check.{Agents, check_task_is_running}
use gopher_cron.Center.Reset.{ended_log, committed}
use gopher_cron.Center.Finished.{has_text}

pub record KillAnswers : Type 0 where
  pub read_key : Bool
  pub agents : Agents
  pub read_log : Bool
  pub write_log : Bool
  pub commit : Bool
  pub delete_key : Write
  pub now : ℕ
  pub find_streams : Option (List (Text × Bool))

-- The loop over the streams: each address, and whether the kill was answered.
unfoldable pub kill_streams :
    (project_id : ℕ) (task_id : Text) → List (Text × Bool) → Center → Center × Option CenterError
kill_streams project_id task_id [] c = (c, none)
kill_streams project_id task_id ((addr, true) ∷ streams) c =
    kill_streams project_id task_id streams (dispatch (kill_event addr project_id task_id) c)
kill_streams project_id task_id ((addr, false) ∷ streams) c =
    (dispatch (kill_event addr project_id task_id) c, some internal)

unfoldable pub kill_found :
    Option (List (Text × Bool))
    → (project_id : ℕ) (task_id : Text) → Center
    → Center × Option CenterError
unfolding kill_streams
kill_found none project_id task_id c = (c, some internal)
kill_found (some streams) project_id task_id c = kill_streams project_id task_id streams c

-- What is left to do once the key is deleted: with nothing running only the message.
unfoldable pub kill_running :
    KillAnswers
    → (project_id : ℕ) (task_id : Text) → TaskRunningInfo
    → List TaskRunningInfo
    → Center × Option CenterError
    → Center × Option CenterError
unfolding kill_found
kill_running a project_id task_id memory check (c, some e) = (c, some internal)
kill_running a project_id task_id memory [] (c, none) =
    (publish (task_status_changed project_id task_id memory.tmp_id fail) c, none)
kill_running a project_id task_id memory (r ∷ check) (c, none) =
    kill_found a.find_streams project_id task_id c

module _ (etcd_prefix : Text) (result_json : (result error operator : Text) → Text)
    (offline : Text → Text) where
  unfoldable pub delete_and_kill :
      KillAnswers
      → (project_id : ℕ) (task_id : Text) → TaskRunningInfo
      → List TaskRunningInfo
      → Center
      → Center × Option CenterError
  unfolding kill_running del_task_running_key
  delete_and_kill a project_id task_id memory check c =
      kill_running a project_id task_id memory check
        (del_task_running_key etcd_prefix a.delete_key project_id task_id c)

  -- The deferred commit reads the error of the inner block, so it is made whatever the delete of
  -- the key returns.
  abbrev pub committed_after :
      Bool → Table → Center × Option CenterError → Center × Option CenterError
  committed_after commit table (c, e) =
      (committed etcd_prefix result_json offline commit table c, e)

  -- The run of an agent that is gone; a run without a log panics.
  unfoldable pub end_gone :
      KillAnswers
      → (project_id : ℕ) (task_id : Text) → TaskRunningInfo
      → List TaskRunningInfo
      → Center
      → Option TaskLog
      → Center × Option CenterError
  unfolding delete_and_kill create_or_update_task_log
  end_gone a project_id task_id memory check c none = (c, some panicked)
  end_gone a project_id task_id memory check c (some log) =
      if not (log.end_time == 0)
      then delete_and_kill a project_id task_id memory check c
      else if not a.write_log
      then (c, some internal)
      else committed_after a.commit
          (create_or_update_task_log true a.now
            (ended_log etcd_prefix result_json offline a.now memory.agent_ip log) c.table)
          (delete_and_kill a project_id task_id memory check c)

  abbrev pub is_gone : TaskRunningInfo → List TaskRunningInfo → Bool
  is_gone memory [] = has_text memory.agent_ip
  is_gone memory (r ∷ check) = false

  unfoldable pub kill_checked :
      KillAnswers
      → (project_id : ℕ) (task_id : Text) → Center
      → Reply (TaskRunningInfo × List TaskRunningInfo)
      → Center × Option CenterError
  unfolding end_gone delete_and_kill get_one
  kill_checked a project_id task_id c (refuse e) = (c, some e)
  kill_checked a project_id task_id c (answer (memory, check)) =
      if not (is_gone memory check)
      then delete_and_kill a project_id task_id memory check c
      else if not a.read_log
      then (c, some internal)
      else end_gone a project_id task_id memory check c
          (get_one project_id task_id memory.tmp_id c.table)

  unfoldable pub kill_task :
      KillAnswers → (project_id : ℕ) (task_id : Text) → Center → Center × Option CenterError
  unfolding kill_checked check_task_is_running
  kill_task a project_id task_id c =
      kill_checked a project_id task_id c
        (check_task_is_running etcd_prefix a.read_key a.agents project_id task_id c)

-- ===== src/Center.antt =====
-- What the center keeps while tasks run: the tasks and their running status in etcd, the states of
-- workflows, the table of runs, and the messages it has published. common/protocol.go,
-- protocol/interface.go and app/webpublish.go. A call that etcd or the database does not answer is
-- an argument; a message of the web bus is recorded, latest first.
pub mod Running
pub mod Check
pub mod Reset
pub mod Finished
pub mod Report
pub mod Session
pub mod Once
pub mod Ended
pub mod Offline
pub mod Accepted
pub mod Held
pub mod Tasks
pub mod Kill
pub mod Stores
pub mod Killed
pub mod Samples
mod Tests
use gopher_cron.Base.{ℕ, Text, List, [], ◌∷◌, eq_text, Bool, true, false, Option, none, some}
use gopher_cron.Base.Map.{lookup}
use gopher_cron.Keys.{build_key}
use gopher_cron.Workflow.Types.{
  Status, not_running, TaskInfo, TaskFinished, Err, Doc, json, corrupt,
}
use gopher_cron.Workflow.Engine.{Engine}
use gopher_cron.Logs.{Table}

-- `TaskInfo` as it is stored: with the fields that only the center reads. In `is_running` the
-- undefined status -1 is `none`.
pub record StoredTask : Type 0 where
  pub info : TaskInfo
  pub open info use *
  pub cron : Text
  pub create_time : ℕ
  pub status : ℕ
  pub is_running : Option ℕ
  pub exclusion : ℕ
  pub client_ip : Text

pub record TaskRunningInfo : Type 0 where
  pub status : Status
  pub tmp_id : Text
  pub timestamp : ℕ
  pub agent_ip : Text

-- A status key: its value, and the seconds of its lease.
pub record Kept : Type 0 where
  pub value : Doc TaskRunningInfo
  pub lease : Option ℕ

-- `TaskFinishedV2`: what the workflow engine reads, and what goes into the log.
pub record TaskFinishedV2 : Type 0 where
  pub finished : TaskFinished
  pub open finished use *
  pub task_name : Text
  pub command : Text
  pub start_time : ℕ
  pub end_time : ℕ
  pub error : Text
  pub operator : Text
  pub plan_time : ℕ

-- `messageTaskStatusChanged` and `messageWorkflowTaskStatusChanged`
pub data Message : Type 0 where
  task_status_changed : (project_id : ℕ) (task_id tmp_id : Text) → Status → Message
  workflow_task_status_changed : (workflow_id project_id : ℕ) (task_id : Text) → Status → Message

-- What is sent to agents: a task that was saved or deleted, and a kill of a running task.
pub data Dispatched : Type 0 where
  put_event : StoredTask → Dispatched
  delete_event : Doc StoredTask → Dispatched
  kill_event : (addr : Text) (project_id : ℕ) (task_id : Text) → Dispatched

pub record Center : Type 0 where
  pub tasks : List (Text × Doc StoredTask)
  pub status_keys : List (Text × Kept)
  pub engine : Engine
  pub table : Table
  pub published : List Message
  pub dispatched : List Dispatched

-- `*errors.Error` of a code other than 500, by its code, a panic, and every other error.
-- An error of the workflow engine keeps its kind.
pub data CenterError : Type 0 where
  bad_request forbidden locked internal panicked : CenterError
  of_workflow : Err → CenterError

pub data Reply (A : Type 0) : Type 0 where
  answer : A → Reply A
  refuse : CenterError → Reply A

abbrev pub publish : Message → Center → Center
publish m c = record c { published = m ∷ c.published }

abbrev pub dispatch : Dispatched → Center → Center
dispatch d c = record c { dispatched = d ∷ c.dispatched }

-- The zero value, which stands where nothing is stored.
abbrev pub no_running_info : TaskRunningInfo
no_running_info = record { status = not_running; tmp_id = []; timestamp = 0; agent_ip = [] }

-- `GetTask`: the task, `ErrDataNotFound`, or any other error.
pub data Fetched : Type 0 where
  fetched : StoredTask → Fetched
  not_found fetch_error : Fetched

abbrev pub fetched_doc : Option (Doc StoredTask) → Fetched
fetched_doc none = not_found
fetched_doc (some corrupt) = fetch_error
fetched_doc (some (json t)) = fetched t

unfoldable pub get_task :
    (etcd_prefix : Text) (answered : Bool) (project_id : ℕ) (task_id : Text) → Center → Fetched
get_task etcd_prefix false project_id task_id c = fetch_error
get_task etcd_prefix true project_id task_id c =
    fetched_doc (lookup (build_key etcd_prefix project_id task_id) c.tasks)

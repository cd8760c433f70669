-- ===== src/Logs.antt =====
-- pkg/store/sqlStore/task_log_partition.go: the table of the runs of tasks, `gc_task_log_p`, and
-- the statements of its store. The table is the list of its rows in the order of their ids; the id
-- itself and the partitions are left out. A statement that the database refuses changes nothing,
-- which is the argument `answered`.
pub mod Rows
pub mod Runs
use gopher_cron.Base.{
  ℕ, Text, List, [], ◌∷◌, ◌++◌, Bool, true, false, not, ◌&&◌, ◌==◌, ltb, Option, none, some,
  text_eq, if◌then◌else◌,
}
use gopher_cron.Workflow.Types.{TaskInfo}
use gopher_cron.Agent.{PlanType}

pub record TaskLog : Type 0 where
  pub project_id : ℕ
  pub task_id : Text
  pub project : Text
  pub name : Text
  pub result : Text
  pub plan_time : ℕ
  pub start_time : ℕ
  pub end_time : ℕ
  pub command : Text
  pub with_error : ℕ
  pub client_ip : Text
  pub tmp_id : Text
  pub agent_version : Text
  pub create_time : ℕ

abbrev pub Table : Type 0
Table = List TaskLog

-- `TaskExecutingInfo`, without its context; the zero time of Go is `none`
pub record TaskExecutingInfo : Type 0 where
  pub task : TaskInfo
  pub plan_time : Option ℕ
  pub plan_type : PlanType
  pub real_time : Option ℕ
  pub tmp_id : Text

abbrev pub task_execute_noseize : ℕ
task_execute_noseize = 1

-- the rows of one task at one plan time, and of one run
unfoldable pub is_plan : (plan_time project_id : ℕ) (task_id : Text) → TaskLog → Bool
is_plan plan_time project_id task_id r =
    r.plan_time == plan_time && (r.project_id == project_id && text_eq r.task_id task_id)

unfoldable pub is_run : (project_id : ℕ) (task_id tmp_id : Text) → TaskLog → Bool
is_run project_id task_id tmp_id r =
    r.project_id == project_id && (text_eq r.task_id task_id && text_eq r.tmp_id tmp_id)

-- the unique key `uk_project_task_tmp`
unfoldable pub same_key : TaskLog → TaskLog → Bool
unfolding is_plan
same_key a b = is_plan a.plan_time a.project_id a.task_id b && text_eq b.tmp_id a.tmp_id

unfoldable pub exists : (TaskLog → Bool) → Table → Bool
exists p [] = false
exists p (r ∷ rs) = let rest = exists p rs in if p r then true else rest

-- `First`, which orders by the id
unfoldable pub find : (TaskLog → Bool) → Table → Option TaskLog
find p [] = none
find p (r ∷ rs) = let rest = find p rs in if p r then some r else rest

-- the columns that `ON DUPLICATE KEY UPDATE` sets
abbrev pub update_columns : TaskLog → TaskLog → TaskLog
update_columns row r = record r {
  end_time = row.end_time;
  result = row.result;
  with_error = row.with_error;
  project = row.project;
}

unfoldable pub upsert : TaskLog → Table → Table
unfolding same_key
upsert row [] = row ∷ []
upsert row (r ∷ rs) =
    let rest = upsert row rs in if same_key row r then update_columns row r ∷ rs else r ∷ rest

abbrev pub with_create_time : ℕ → TaskLog → TaskLog
with_create_time now row = if row.create_time == 0 then record row { create_time = now } else row

unfoldable pub create_or_update_task_log : (answered : Bool) (now : ℕ) → TaskLog → Table → Table
unfolding upsert
create_or_update_task_log true now row t = upsert (with_create_time now row) t
create_or_update_task_log false now row t = t

-- `Create`, which the unique key refuses for a row that is there
unfoldable pub create : TaskLog → Table → Table × Bool
unfolding exists
create row t = if exists (same_key row) t then (t, false) else (t ++ row ∷ [], true)

unfoldable pub get_one : (project_id : ℕ) (task_id tmp_id : Text) → Table → Option TaskLog
unfolding find
get_one project_id task_id tmp_id t = find (is_run project_id task_id tmp_id) t

-- The Unix time of Go's zero time is negative; `CheckOrCreateScheduleLog` is called with a plan
-- time that is not zero.
abbrev pub real_time_or : ℕ → Option ℕ → ℕ
real_time_or now none = now
real_time_or now (some t) = t

-- The first query: is the run there that a new one would repeat? For a task that several agents
-- may run it is the run of the same id.
unfoldable pub schedule_log_exists : (plan_time : ℕ) → TaskExecutingInfo → Table → Bool
schedule_log_exists plan_time info t =
    if info.task.noseize == task_execute_noseize
    then exists
        (λ r.
          is_plan plan_time info.task.project_id info.task.task_id r
          && text_eq r.tmp_id info.tmp_id)
        t
    else exists (is_plan plan_time info.task.project_id info.task.task_id) t

abbrev pub schedule_log :
    (now now' plan_time : ℕ) → TaskExecutingInfo → (agent_ip agent_version : Text) → TaskLog
schedule_log now now' plan_time info agent_ip agent_version = record {
  project_id = info.task.project_id;
  task_id = info.task.task_id;
  project = [];
  name = info.task.name;
  result = [];
  plan_time = plan_time;
  start_time = real_time_or now info.real_time;
  end_time = 0;
  command = info.task.command;
  with_error = 0;
  client_ip = agent_ip;
  tmp_id = info.tmp_id;
  agent_version = agent_version;
  create_time = now';
}

-- How the call ends: with an error, or with the answer whether a row was created.
pub data Checked : Type 0 where
  failed : Checked
  created : Bool → Checked

abbrev pub created_or_failed : Table × Bool → Table × Checked
created_or_failed (t, true) = (t, created true)
created_or_failed (t, false) = (t, failed)

unfoldable pub check_or_create_schedule_log :
    (read written : Bool) (now now' plan_time : ℕ)
    → TaskExecutingInfo
    → (agent_ip agent_version : Text) → Table
    → Table × Checked
unfolding schedule_log_exists create
check_or_create_schedule_log read written now now' plan_time info agent_ip agent_version t =
    if not read
    then (t, failed)
    else if schedule_log_exists plan_time info t
    then (t, created false)
    else if not written
    then (t, failed)
    else created_or_failed (create (schedule_log now now' plan_time info agent_ip agent_version) t)

-- the rows of runs that were planned between two times and have not ended
unfoldable pub load_running_tasks : (before after : ℕ) → Table → Table
load_running_tasks before after [] = []
load_running_tasks before after (r ∷ rs) =
    let rest = load_running_tasks before after rs in
    if r.end_time == 0 && (ltb after r.plan_time && ltb r.plan_time before) then r ∷ rest else rest

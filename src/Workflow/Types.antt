-- ===== src/Workflow/Types.antt =====
-- The data of the workflow engine: common/const.go, common/protocol.go, app/schedule.go and
-- app/workflow.go. Times are Unix seconds.
use gopher_cron.Base.{
  ℕ, Text, List, ◌≡◌, ◌↔◌, Bool, true, false, ◌&&◌, ◌==◌, arith, Option, Eq, text_eq, text_eq_iff,
  get_last?,
}

-- The V2 status texts of common/const.go. Any other text is `other`.
pub data Status : Type 0 where
  starting running finished not_running done fail : Status
  other : Text → Status

abbrev pub is_done : Status → Bool
is_done done = true
is_done _ = false

abbrev pub is_terminal : Status → Bool
is_terminal done = true
is_terminal fail = true
is_terminal _ = false

abbrev pub workflow_schedule_limit : ℕ
workflow_schedule_limit = 3

-- `WorkflowTaskInfo`: the key of a task in a workflow.
pub record WorkflowTaskInfo : Type 0 where
  pub project_id : ℕ
  pub task_id : Text

unfoldable pub info_eq : WorkflowTaskInfo → WorkflowTaskInfo → Bool
info_eq a b = a.project_id == b.project_id && text_eq a.task_id b.task_id

pub info_eq_iff : (a b : WorkflowTaskInfo) → (info_eq a b ≡ true) ↔ (a ≡ b)
unfolding info_eq
info_eq_iff a b = (
  λ h. ground (arith, text_eq_iff a.task_id b.task_id),
  λ h. ground (arith, text_eq_iff a.task_id b.task_id),
)

instance abbrev pub eq_info : Eq WorkflowTaskInfo
eq_info = record { beq = info_eq; beq_iff = info_eq_iff }

pub record WorkflowTaskScheduleRecord : Type 0 where
  pub tmp_id : Text
  pub result : Text
  pub status : Status
  pub event_time : ℕ
  pub agent_ip : Text

pub record WorkflowTaskStates : Type 0 where
  pub project_id : ℕ
  pub task_id : Text
  pub workflow_id : ℕ
  pub current_status : Status
  pub schedule_count : ℕ
  pub command : Text
  pub start_time : ℕ
  pub end_time : ℕ
  pub schedule_records : List WorkflowTaskScheduleRecord

-- `nil` where no record exists
pub get_latest_schedule_record : WorkflowTaskStates → Option WorkflowTaskScheduleRecord
get_latest_schedule_record s = get_last? s.schedule_records

pub record PlanState : Type 0 where
  pub workflow_id : ℕ
  pub start_time : ℕ
  pub end_time : ℕ
  pub status : Status
  pub reason : Text
  pub latest_try_time : ℕ
  pub records : List WorkflowTaskStates

pub record WorkflowInfo : Type 0 where
  pub workflow_id : ℕ
  pub tmp_id : Text

-- The fields of `TaskInfo` that the workflow engine reads or writes.
pub record TaskInfo : Type 0 where
  pub task_id : Text
  pub name : Text
  pub project_id : ℕ
  pub command : Text
  pub remark : Text
  pub timeout : ℕ
  pub noseize : ℕ
  pub tmp_id : Text
  pub flow_info : Option WorkflowInfo

pub record WorkflowRunningTaskInfo : Type 0 where
  pub workflow_id : ℕ
  pub tmp_id : Text
  pub task_id : Text
  pub task_name : Text
  pub project_id : ℕ
  pub agent_ip : Text

-- The fields of `TaskFinishedV2` that the workflow engine reads.
pub record TaskFinished : Type 0 where
  pub task_id : Text
  pub project_id : ℕ
  pub status : Status
  pub workflow_id : ℕ
  pub tmp_id : Text
  pub result : Text

-- The errors that the engine returns. `nil_pointer` is a panic on a nil pointer, and
-- `etcd_error` is any error of an etcd call.
pub data Err : Type 0 where
  internal_error unknown decode_error nil_pointer etcd_error workflow_failed workflow_in_process :
      Err

pub data Result (A : Type 0) : Type 0 where
  ok : A → Result A
  err : Err → Result A

-- The text at a key of etcd: the JSON of a value, or a text that `json.Unmarshal` refuses.
-- Decoding the JSON of a value gives the value.
pub data Doc (A : Type 0) : Type 0 where
  json : A → Doc A
  corrupt : Doc A

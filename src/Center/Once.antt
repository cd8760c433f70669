-- ===== src/Center/Once.antt =====
-- The log lets a task run once at a plan time: the proofs on `SetTaskRunning`.
use gopher_cron.Base.{
  ℕ, Text, ◌≡◌, refl, sym, subst, codes, Bool, true, false, Option, none, some, Bool-cases, inl,
  inr,
}
use gopher_cron.Utils.Version.{compare_version}
use gopher_cron.Lock.{Write, answered, lost_before, lost_after}
use gopher_cron.Logs.{Table, TaskExecutingInfo, is_plan, exists}
use gopher_cron.Logs.Rows.{IsSeized, check_or_create-logged, check_or_create-refused}
use gopher_cron.Workflow.TaskStates.{Docs}
use gopher_cron.Workflow.Types.{WorkflowInfo, Result, ok, err}
use gopher_cron.Center.{Center, forbidden}
use gopher_cron.Center.Running.{
  RunAnswers, check_log, run_task, run_as, run_alone, run_in_workflow, set_task_running,
  published_if,
}

-- an agent that leaves the log to the center, and a run with a plan time
abbrev pub IsLogged : (version : Text) (plan_time : ℕ) → TaskExecutingInfo → Type 0
IsLogged version plan_time info =
    (compare_version (codes "v2.4.6") version ≡ true)
    × (info.plan_time ≡ some plan_time)
    × IsSeized info

abbrev pub planned : ℕ → TaskExecutingInfo → Table → Bool
planned plan_time info t = exists (is_plan plan_time info.task.project_id info.task.task_id) t

check_log-logged :
    (a : RunAnswers) (ip version : Text) (plan_time : ℕ) (info : TaskExecutingInfo) (t : Table)
    → a.read_log ≡ true
    → a.write_log ≡ true
    → IsLogged version plan_time info
    → planned plan_time info (check_log a ip version info t).0 ≡ true
unfolding check_log
check_log-logged a ip version plan_time info t r w (v, p, s) =
    rw (p, v, r, w) (check_or_create-logged a.log_time a.create_time plan_time info ip version t s)

check_log-refused :
    (a : RunAnswers) (ip version : Text) (plan_time : ℕ) (info : TaskExecutingInfo) (t : Table)
    → a.read_log ≡ true
    → IsLogged version plan_time info
    → planned plan_time info t ≡ true
    → check_log a ip version info t ≡ (t, false)
unfolding check_log
check_log-refused a ip version plan_time info t r (v, p, s) h = rw (
  p,
  v,
  r,
  check_or_create-refused a.write_log a.log_time a.create_time plan_time info ip version t s h,
)

module _ (etcd_prefix : Text) where
  run_in_workflow-table :
      (a : RunAnswers) (ip : Text) (flow : WorkflowInfo) (info : TaskExecutingInfo) (c : Center)
      (d : Docs × Result (Unit {0}))
      → (run_in_workflow etcd_prefix a ip flow info c d).0.table ≡ c.table
  unfolding run_in_workflow
  run_in_workflow-table a ip flow info c (docs, ok u) = refl
  run_in_workflow-table a ip flow info c (docs, err e) = refl

  published_if-table :
      (w : Write) (info : TaskExecutingInfo) (c : Center)
      → (published_if etcd_prefix w info c).table ≡ c.table
  published_if-table answered info c = refl
  published_if-table lost_before info c = refl
  published_if-table lost_after info c = refl

  run_alone-table :
      (a : RunAnswers) (ip : Text) (info : TaskExecutingInfo) (c : Center)
      → (run_alone etcd_prefix a ip info c).0.table ≡ c.table
  unfolding run_alone
  run_alone-table a ip info c = elim (Bool-cases a.grant) [
    | inl h ↦ rw (h, published_if-table a.put info) refl
    | inr h ↦ rw h
  ]

  run_as-table :
      (a : RunAnswers) (ip : Text) (info : TaskExecutingInfo) (c : Center)
      (flow : Option WorkflowInfo)
      → (run_as etcd_prefix a ip info c flow).0.table ≡ c.table
  unfolding run_as
  run_as-table a ip info c none = run_alone-table a ip info c
  run_as-table a ip info c (some flow) = run_in_workflow-table a ip flow info c _

  run_task-table :
      (a : RunAnswers) (ip : Text) (info : TaskExecutingInfo) (c : Center)
      → (run_task etcd_prefix a ip info c).0.table ≡ c.table
  unfolding run_task
  run_task-table a ip info c = run_as-table a ip info c info.task.flow_info

  -- the table after the call is the checked one
  set_task_running-table :
      (a : RunAnswers) (ip version : Text) (info : TaskExecutingInfo) (c : Center)
      → (set_task_running etcd_prefix a ip version info c).0.table
        ≡ (check_log a ip version info c.table).0
  unfolding set_task_running
  set_task_running-table a ip version info c =
      elim (Bool-cases (check_log a ip version info c.table).1) [
        | inl h ↦ rw (h, run_task-table a ip info) refl
        | inr h ↦ rw h
      ]

  set_task_running-refused :
      (b : RunAnswers) (ip version : Text) (plan_time : ℕ) (info : TaskExecutingInfo) (c : Center)
      → b.read_log ≡ true
      → IsLogged version plan_time info
      → planned plan_time info c.table ≡ true
      → set_task_running etcd_prefix b ip version info c ≡ (c, some forbidden)
  unfolding set_task_running
  set_task_running-refused b ip version plan_time info c r l h =
      rw (check_log-refused b ip version plan_time info c.table r l h)

  -- Of two calls for one task and plan time, of agents newer than v2.4.6 and for a task that only
  -- one agent may run, whose log queries are answered, the second is refused as forbidden and
  -- changes nothing, whatever run id, agent and answers it has and however the first one ended.
  pub set_task_running-once :
      (a b : RunAnswers) (ip ip' version version' : Text) (plan_time : ℕ)
      (info info' : TaskExecutingInfo) (c : Center)
      → a.read_log ≡ true
      → a.write_log ≡ true
      → b.read_log ≡ true
      → IsLogged version plan_time info
      → IsLogged version' plan_time info'
      → info'.task.project_id ≡ info.task.project_id
      → info'.task.task_id ≡ info.task.task_id
      → set_task_running etcd_prefix b ip' version' info'
          (set_task_running etcd_prefix a ip version info c).0
        ≡ ((set_task_running etcd_prefix a ip version info c).0, some forbidden)
  unfolding set_task_running
  set_task_running-once a b ip ip' version version' plan_time info info' c r w r' l l' ep et =
      let logged = check_log-logged a ip version plan_time info c.table r w l in
      let stays =
        subst (λ t. planned plan_time info t ≡ true)
          (sym (set_task_running-table a ip version info c)) logged in
      set_task_running-refused b ip' version' plan_time info' _ r' l' (rw (ep, et) stays)

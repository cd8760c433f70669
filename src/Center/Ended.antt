-- ===== src/Center/Ended.antt =====
-- What the end of a run leaves in the log: the proofs on `SaveTaskLog` and on the reset of a run
-- whose agent is gone.
use gopher_cron.Base.{
  ℕ, Text, List, ◌≡◌, ◌≢◌, refl, Bool, true, false, ◌==◌, Option, none, some, arith, text_eq,
  Bool-cases, inl, inr, In,
}
use gopher_cron.Logs.{TaskLog, Table, get_one, create_or_update_task_log}
use gopher_cron.Logs.Runs.{one-create_or_update-some, In-create_or_update, one-get_one}
use gopher_cron.Center.{TaskFinishedV2, TaskRunningInfo, Center, CenterError, Reply, answer, refuse}
use gopher_cron.Center.Running.{del_task_running_key}
use gopher_cron.Center.Check.{check_task_is_running}
use gopher_cron.Center.Reset.{
  ResetAnswers, committed, after_delete, ended_log, end_run, reset_found, reset_log, after_wait,
  after_check, Waiting, stops, leaves, falls, check_task_is_running_with_reset_status,
}
use gopher_cron.Center.Finished.{titled, finished_log, save_task_log, error_flag}

module _ (result_json : (result error operator : Text) → Text) where
  -- The report of a run with a known project, stored by an answering database, ends the row that
  -- the start of the run left for the same plan time: the row keeps its start, its agent and its
  -- names, and gets the end, the result, the error flag and the title of the project.
  pub get_one-save_task_log :
      (now : ℕ) (ip title : Text) (r : TaskFinishedV2) (c : Center) (log : TaskLog)
      → get_one r.project_id r.task_id r.tmp_id c.table ≡ some log
      → log.plan_time ≡ r.plan_time
      → get_one r.project_id r.task_id r.tmp_id
          (save_task_log result_json (titled title) true now ip r c).table
        ≡ some (record log {
          end_time = r.end_time;
          result = result_json r.result r.error r.operator;
          with_error = error_flag r.error;
          project = title;
        })
  unfolding save_task_log
  get_one-save_task_log now ip title r c log h e =
      one-create_or_update-some now (finished_log result_json ip title r) log c.table h e

module _ (etcd_prefix : Text) (result_json : (result error operator : Text) → Text)
    (offline : Text → Text) where
  In-committed :
      (b : Bool) (t : Table) (c : Center) (x : TaskLog)
      → In x c.table
      → In x t
      → In x (committed etcd_prefix result_json offline b t c).table
  In-committed true t c x m n = n
  In-committed false t c x m n = m

  In-after_delete :
      (a : ResetAnswers) (pid : ℕ) (tid tmp : Text) (check : List TaskRunningInfo) (t : Table)
      (x : TaskLog) (d : Center × Option CenterError)
      → In x d.0.table
      → In x t
      → In x (after_delete etcd_prefix result_json offline a pid tid tmp check t d).0.table
  unfolding after_delete
  In-after_delete a pid tid tmp check t x (c, some e) m n = m
  In-after_delete a pid tid tmp check t x (c, none) m n = In-committed a.commit t c x m n

  In-end_run :
      (a : ResetAnswers) (pid : ℕ) (tid tmp : Text) (memory : TaskRunningInfo)
      (check : List TaskRunningInfo) (log x : TaskLog) (c : Center)
      → get_one pid tid tmp c.table ≡ some log
      → log.end_time ≡ 0
      → x.end_time ≢ 0
      → In x c.table
      → In x (end_run etcd_prefix result_json offline a pid tid tmp memory check log c).0.table
  unfolding end_run del_task_running_key
  In-end_run a pid tid tmp memory check log x c h e n m = elim (Bool-cases a.write_log) [
    | inr refused ↦ rw refused m
    | inl stored ↦ elim (Bool-cases (text_eq memory.tmp_id tmp)) [
      | inl same ↦ rw (stored, same) (In-after_delete a pid tid memory.tmp_id check _ x _ m kept)
      | inr other ↦ rw (stored, other) (In-committed a.commit _ c x m kept)
    ]
  ]
    where
      kept : In x (
          create_or_update_task_log true a.now
            (ended_log etcd_prefix result_json offline a.now memory.agent_ip log)
            c.table)
      kept =
          In-create_or_update a.now
            (ended_log etcd_prefix result_json offline a.now memory.agent_ip log) log x c.table
            (one-get_one pid tid tmp c.table h) e refl n m

  In-reset_found :
      (a : ResetAnswers) (pid : ℕ) (tid tmp : Text) (memory : TaskRunningInfo)
      (check : List TaskRunningInfo) (x : TaskLog) (c : Center) (o : Option TaskLog)
      → get_one pid tid tmp c.table ≡ o
      → x.end_time ≢ 0
      → In x c.table
      → In x (reset_found etcd_prefix result_json offline a pid tid tmp memory check c o).0.table
  unfolding reset_found
  In-reset_found a pid tid tmp memory check x c none h n m = m
  In-reset_found a pid tid tmp memory check x c (some log) h n m =
      elim (Bool-cases (log.end_time == 0)) [
        | inl zero_end ↦
            rw zero_end (In-end_run a pid tid tmp memory check log x c h (ground arith) n m)
        | inr ended ↦ rw ended m
      ]

  In-reset_log :
      (a : ResetAnswers) (pid : ℕ) (tid tmp : Text) (memory : TaskRunningInfo)
      (check : List TaskRunningInfo) (x : TaskLog) (c : Center)
      → x.end_time ≢ 0
      → In x c.table
      → In x (reset_log etcd_prefix result_json offline a pid tid tmp memory check c).0.table
  unfolding reset_log
  In-reset_log a pid tid tmp memory check x c n m = elim (Bool-cases a.read_log) [
    | inl r ↦
        rw r (In-reset_found a pid tid tmp memory check x c (get_one pid tid tmp c.table) refl n m)
    | inr r ↦ rw r m
  ]

  In-after_wait :
      (a : ResetAnswers) (pid : ℕ) (tid tmp : Text) (memory : TaskRunningInfo)
      (check : List TaskRunningInfo) (x : TaskLog) (c : Center) (w : Waiting)
      → x.end_time ≢ 0
      → In x c.table
      → In x (after_wait etcd_prefix result_json offline a pid tid tmp memory check c w).0.table
  unfolding after_wait
  In-after_wait a pid tid tmp memory check x c stops n m = m
  In-after_wait a pid tid tmp memory check x c leaves n m = m
  In-after_wait a pid tid tmp memory check x c falls n m =
      In-reset_log a pid tid tmp memory check x c n m

  In-after_check :
      (a : ResetAnswers) (pid : ℕ) (tid tmp : Text) (x : TaskLog) (c : Center)
      (r : Reply (TaskRunningInfo × List TaskRunningInfo))
      → x.end_time ≢ 0
      → In x c.table
      → In x (after_check etcd_prefix result_json offline a pid tid tmp c r).0.table
  unfolding after_check
  In-after_check a pid tid tmp x c (refuse e) n m = m
  In-after_check a pid tid tmp x c (answer (memory, check)) n m =
      elim (Bool-cases (text_eq memory.tmp_id tmp)) [
        | inl same ↦ rw same (In-after_wait a pid tid tmp memory check x c _ n m)
        | inr other ↦ rw other (In-reset_log a pid tid tmp memory check x c n m)
      ]

  -- The reset of a run leaves every row whose run has ended in the table as it is, whatever the
  -- outside answers and however the reset ends.
  pub In-check_task_is_running_with_reset_status :
      (a : ResetAnswers) (pid : ℕ) (tid tmp : Text) (x : TaskLog) (c : Center)
      → x.end_time ≢ 0
      → In x c.table
      → In x
          (check_task_is_running_with_reset_status etcd_prefix result_json offline a pid tid tmp
            c).0.table
  unfolding check_task_is_running_with_reset_status
  In-check_task_is_running_with_reset_status a pid tid tmp x c n m =
      In-after_check a pid tid tmp x c
        (check_task_is_running etcd_prefix a.read_key a.agents pid tid c) n m

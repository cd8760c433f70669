-- ===== src/Agent/Running/Logged.antt =====
-- A run of the agent, reported to the center, in the table of runs.
use gopher_cron.Base.{subst, ℕ, Text, [], ◌∷◌, Bool, true, some, ◌≡◌, ◌≢◌, ◌↔◌, ◌⊎◌, refl}
use gopher_cron.Agent.Hold.{Code, Answer, locked}
use gopher_cron.Agent.Running.{TaskExecuteResult, RunPlan, RunningReply, Run, run_task}
use gopher_cron.Agent.Running.EndTime.{IsEndOf, run_task-EndsWith}
use gopher_cron.Agent.Running.Reported.{IsReportOf, run_task-IsOver}
use gopher_cron.Center.{TaskFinishedV2, Center}
use gopher_cron.Center.Ended.{get_one-save_task_log}
use gopher_cron.Center.Finished.{save_task_log, titled, error_flag}
use gopher_cron.Logs.{TaskLog, get_one}
use gopher_cron.Workflow.Types.{fail}

error_flag_iff : (e : Text) → (error_flag e ≡ 1) ↔ (e ≢ [])
error_flag_iff [] = (λ h. absurd cc, λ h. absurd (h refl))
error_flag_iff (b ∷ e) = (λ h. λ z. cc, λ h. refl)

module _ (result_json : (result error operator : Text) → Text) (unix : ℕ → ℕ)
    (error_text : Code → Text) where
  -- The row of a run after its report: it is marked exactly when the report says that the run failed,
  -- and its end is that of the execution, or 0 after an abort.
  abbrev pub IsLogged :
      RunPlan → RunningReply → TaskExecuteResult → TaskLog → Center → TaskFinishedV2 → Type 0
  IsLogged r reply shell log c f =
      (row : TaskLog) × (get_one r.plan.task.project_id r.plan.task.task_id r.plan.tmp_id c.table
        ≡ some row)
      × ((row.with_error ≡ 1) ↔ (f.status ≡ fail))
      × IsEndOf unix error_text r reply shell row.end_time
      × (row.start_time ≡ log.start_time)

  report-IsLogged :
      (now : ℕ) (ip title : Text) (r : RunPlan) (c : Center) (log : TaskLog) (f : TaskFinishedV2)
      (reply : RunningReply) (shell : TaskExecuteResult)
      → IsReportOf unix error_text r f
      → IsEndOf unix error_text r reply shell f.end_time
      → get_one r.plan.task.project_id r.plan.task.task_id r.plan.tmp_id c.table ≡ some log
      → log.plan_time ≡ unix r.plan.plan_time
      → IsLogged r reply shell log (save_task_log result_json (titled title) true now ip f c) f
  report-IsLogged now ip title r c log f reply shell (t, p, i, l, s, (q, q')) ends h e =
      let saved =
        get_one-save_task_log result_json now ip title f c log (cc (t, p, i, h)) (cc (e, l)) in
      let (g, g') = error_flag_iff f.error in
      (
        record log {
          end_time = f.end_time;
          result = result_json f.result f.error f.operator;
          with_error = error_flag f.error;
          project = title;
        },
        cc (t, p, i, saved),
        (λ m. q' (g m), λ m. g' (q m)),
        ends,
        refl,
      )

  -- A run that has its lock or needs none reports once, and when the center, with the project known
  -- and the database answering, stores that report over the row that the start of the run left, the
  -- row keeps its start and is marked as an error exactly when the report says that the run failed.
  -- It gets the end of the execution, but after a run that the center aborted its end is 0, so that
  -- it counts as a run that has not ended.
  pub run_task-IsLogged :
      (now : ℕ) (ip title : Text) (r : RunPlan) (lock : Answer) (reply : RunningReply) (late : Bool)
      (shell : TaskExecuteResult) (s : Run) (c : Center) (log : TaskLog)
      → (r.noseize ≡ true) ⊎ (lock ≡ locked)
      → get_one r.plan.task.project_id r.plan.task.task_id r.plan.tmp_id c.table ≡ some log
      → log.plan_time ≡ unix r.plan.plan_time
      → (f : TaskFinishedV2) × ((run_task unix error_text r lock reply late shell s).reports
          ≡ f ∷ s.reports)
        × IsLogged r reply shell log (save_task_log result_json (titled title) true now ip f c) f
  run_task-IsLogged now ip title r lock reply late shell s c log n h e =
      let (over, a, b) = run_task-IsOver unix error_text r lock reply late shell s n in
      let (f, is_report, sent) = over in
      let (g, sent', ends) = run_task-EndsWith unix error_text r lock reply late shell s n in
      let same : g ≡ f = cc (sent, sent') in
      (
        f,
        sent,
        report-IsLogged now ip title r c log f reply shell is_report
            (subst (λ x. IsEndOf unix error_text r reply shell x.end_time) same ends) h e,
      )

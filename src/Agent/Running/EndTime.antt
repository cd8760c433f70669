-- ===== src/Agent/Running/EndTime.antt =====
-- The end that the report of a run names.
use gopher_cron.Base.{
  ℕ, Text, [], ◌∷◌, codes, Bool, true, false, some, ◌≡◌, ◌⊎◌, inl, inr, refl, Bool-cases,
}
use gopher_cron.Agent.Hold.{Code, aborted, unauthenticated, canceled, other, Answer, locked}
use gopher_cron.Agent.Running.{
  TaskExecuteResult, RunPlan, RunningReply, accepted, rejected, unreached, Run, report_task_result,
  explain, push, prefixed, execute_task, start_command, executed_result, run_command, start_failed,
  stop_run, after_reply, set_executing, after_lock, run_task, with_err, with_result, started_report,
}
use gopher_cron.Center.{TaskFinishedV2}
use gopher_cron.Utils.Signal.{close}

module _ (unix : ℕ → ℕ) (error_text : Code → Text) (r : RunPlan) where
  -- The run from `s` to `s'` sent one report, with this end.
  abbrev EndsAt : ℕ → Run → Run → Type 0
  EndsAt t s s' = (f : TaskFinishedV2) × (s'.reports ≡ f ∷ s.reports) × (f.end_time ≡ t)

  with_err-end_time : (e : Text) (f : TaskFinishedV2) → (with_err unix e f).end_time ≡ f.end_time
  with_err-end_time [] f = refl
  with_err-end_time (b ∷ e) f = refl

  explained-EndsAt :
      (e : Text) (x : TaskExecuteResult) (s : Run)
      → EndsAt (unix x.end_time) s (push unix r (explain unix e x s))
  unfolding report_task_result
  explained-EndsAt [] x s = (
    report_task_result unix r (some x),
    refl,
    with_err-end_time x.err (with_result unix x (started_report unix r)),
  )
  explained-EndsAt (b ∷ e) x s =
      let y = record x { err = prefixed unix (b ∷ e) s.reason } in
      (
        report_task_result unix r (some y),
        refl,
        with_err-end_time y.err (with_result unix y (started_report unix r)),
      )

  result-EndsAt :
      (x : TaskExecuteResult) (s : Run) → EndsAt (unix x.end_time) s (executed_result unix r (s, x))
  unfolding executed_result
  result-EndsAt x s = explained-EndsAt x.err x s

  started-EndsAt :
      (is_over : Bool) (shell : TaskExecuteResult) (s : Run)
      → EndsAt
          (unix shell.end_time)
          s
          (executed_result unix r (start_command unix r is_over shell s))
  started-EndsAt true shell s =
      result-EndsAt (record shell { output = []; err = codes "context canceled" }) s
  started-EndsAt false shell s =
      result-EndsAt shell (record s { executed = r.plan.tmp_id ∷ s.executed })

  command-EndsAt :
      (late : Bool) (shell : TaskExecuteResult) (s : Run)
      → EndsAt (unix shell.end_time) s (run_command unix r late shell s)
  unfolding run_command execute_task
  command-EndsAt true shell s =
      result-EndsAt (record shell { output = []; err = codes "task starting timeout" })
        (record s { signal = close s.signal })
  command-EndsAt false shell s =
      started-EndsAt s.cancelled shell (record s { signal = close s.signal })

  -- The end is that of the execution, but 0 if the center aborted the run.
  abbrev pub IsEndOf : RunningReply → TaskExecuteResult → ℕ → Type 0
  IsEndOf accepted shell t = t ≡ unix shell.end_time
  IsEndOf (rejected m) shell t = t ≡ unix shell.end_time
  IsEndOf (unreached aborted e) shell t = t ≡ 0
  IsEndOf (unreached _ e) shell t = t ≡ unix shell.end_time

  abbrev EndsWith : RunningReply → TaskExecuteResult → Run → Run → Type 0
  EndsWith reply shell s s' =
      (f : TaskFinishedV2) × (s'.reports ≡ f ∷ s.reports) × IsEndOf reply shell f.end_time

  reply-EndsWith :
      (reply : RunningReply) (late : Bool) (shell : TaskExecuteResult) (s : Run)
      → EndsWith reply shell s (after_reply unix r reply late shell s)
  unfolding after_reply report_task_result stop_run
  reply-EndsWith accepted late shell s = command-EndsAt late shell s
  reply-EndsWith (rejected m) late shell s =
      command-EndsAt late shell (stop_run unix m (start_failed unix m) s)
  reply-EndsWith (unreached aborted e) late shell s = (started_report unix r, refl, refl)
  reply-EndsWith (unreached unauthenticated e) late shell s =
      command-EndsAt late shell (stop_run unix (start_failed unix e) (start_failed unix e) s)
  reply-EndsWith (unreached canceled e) late shell s =
      command-EndsAt late shell (stop_run unix (start_failed unix e) (start_failed unix e) s)
  reply-EndsWith (unreached other e) late shell s =
      command-EndsAt late shell (stop_run unix (start_failed unix e) (start_failed unix e) s)

  pub run_task-EndsWith :
      (lock : Answer) (reply : RunningReply) (late : Bool) (shell : TaskExecuteResult) (s : Run)
      → (r.noseize ≡ true) ⊎ (lock ≡ locked)
      → EndsWith reply shell s (run_task unix error_text r lock reply late shell s)
  unfolding run_task after_lock
  run_task-EndsWith lock reply late shell s (inl n) =
      rw n (reply-EndsWith reply late shell (set_executing unix r s))
  run_task-EndsWith lock reply late shell s (inr l) = elim (Bool-cases r.noseize) [
    | inl n ↦ rw n (reply-EndsWith reply late shell (set_executing unix r s))
    | inr n ↦ rw (n, l) (reply-EndsWith reply late shell (set_executing unix r s))
  ]

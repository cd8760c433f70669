-- ===== src/Agent/Running/Reported.antt =====
-- What a run leaves behind: its report, its place in the table of running tasks, and whether its
-- command ran.
use gopher_cron.Base.{
  ℕ, Text, [], ◌∷◌, eq_text, Bool, true, false, Option, none, some, codes, if◌then◌else◌, ◌≡◌, ◌≢◌,
  ◌↔◌, ◌⊎◌, inl, inr, refl, Bool-cases, beq_refl,
}
use gopher_cron.Base.Map.{lookup, lookup-erase}
use gopher_cron.Agent.{scheduler_key}
use gopher_cron.Agent.Hold.{Code, aborted, unauthenticated, canceled, other, Answer, locked, failed}
use gopher_cron.Agent.Running.{
  TaskExecuteResult, RunPlan, RunningReply, accepted, rejected, unreached, Run, report_task_result,
  finish, explain, push, prefixed, execute_task, start_command, executed_result, run_command,
  start_failed, stop_run, after_reply, set_executing, after_lock, run_task, with_err, with_result,
  started_report,
}
use gopher_cron.Center.{TaskFinishedV2}
use gopher_cron.Utils.Signal.{close}
use gopher_cron.Workflow.Types.{done, fail}

module _ (unix : ℕ → ℕ) (error_text : Code → Text) (r : RunPlan) where
  -- A report names the run, and says that it failed exactly when it carries an error.
  abbrev pub IsReportOf : TaskFinishedV2 → Type 0
  IsReportOf f =
      (f.task_id ≡ r.plan.task.task_id)
      × (f.project_id ≡ r.plan.task.project_id)
      × (f.tmp_id ≡ r.plan.tmp_id)
      × (f.plan_time ≡ unix r.plan.plan_time)
      × ((f.status ≡ done) ⊎ (f.status ≡ fail))
      × ((f.status ≡ fail) ↔ (f.error ≢ []))

  with_err-IsReportOf :
      (e : Text) (f : TaskFinishedV2)
      → IsReportOf f
      → f.status ≡ done
      → f.error ≡ []
      → IsReportOf (with_err unix e f)
  with_err-IsReportOf [] f h d n = h
  with_err-IsReportOf (b ∷ e) f (t, p, i, l, s, q) d n =
      (t, p, i, l, inr refl, (λ g. λ z. cc, λ g. refl))

  report-IsReportOf : (x : Option TaskExecuteResult) → IsReportOf (report_task_result unix r x)
  unfolding report_task_result
  report-IsReportOf none =
      (refl, refl, refl, refl, inl refl, (λ g. absurd cc, λ g. absurd (g refl)))
  report-IsReportOf (some x) =
      with_err-IsReportOf x.err (with_result unix x (started_report unix r))
        (refl, refl, refl, refl, inl refl, (λ g. absurd cc, λ g. absurd (g refl))) refl refl

  -- The run from `s` to `s'` has sent its report and has left the table of running tasks.
  abbrev pub IsOver : Run → Run → Type 0
  IsOver s s' =
      ((f : TaskFinishedV2) × IsReportOf f × (s'.reports ≡ f ∷ s.reports))
      × (lookup (scheduler_key r.plan.task) s'.executing ≡ none)
      × (s'.cancelled ≡ true)

  finish-IsOver : (x : Option TaskExecuteResult) (s : Run) → IsOver s (finish unix r x s)
  finish-IsOver x s =
      let k = scheduler_key r.plan.task in
      (
        (report_task_result unix r x, report-IsReportOf x, refl),
        rw (lookup-erase k k s.executing, beq_refl k) refl,
        refl,
      )

  explained-IsOver :
      (e : Text) (x : TaskExecuteResult) (s : Run) → IsOver s (push unix r (explain unix e x s))
  explained-IsOver [] x s = finish-IsOver (some x) (record s { pushed = x ∷ s.pushed })
  explained-IsOver (b ∷ e) x s =
      let reason = prefixed unix (b ∷ e) s.reason in
      let y = record x { err = reason } in
      finish-IsOver (some y) (record s { reason = reason; pushed = y ∷ s.pushed })

  result-IsOver : (x : TaskExecuteResult) (s : Run) → IsOver s (executed_result unix r (s, x))
  unfolding executed_result
  result-IsOver x s = explained-IsOver x.err x s

  started-IsOver :
      (is_over : Bool) (shell : TaskExecuteResult) (s : Run)
      → IsOver s (executed_result unix r (start_command unix r is_over shell s))
  started-IsOver true shell s =
      result-IsOver (record shell { output = []; err = codes "context canceled" }) s
  started-IsOver false shell s =
      result-IsOver shell (record s { executed = r.plan.tmp_id ∷ s.executed })

  command-IsOver :
      (late : Bool) (shell : TaskExecuteResult) (s : Run)
      → IsOver s (run_command unix r late shell s)
  unfolding run_command execute_task
  command-IsOver true shell s =
      result-IsOver (record shell { output = []; err = codes "task starting timeout" })
        (record s { signal = close s.signal })
  command-IsOver false shell s =
      started-IsOver s.cancelled shell (record s { signal = close s.signal })

  reply-IsOver :
      (reply : RunningReply) (late : Bool) (shell : TaskExecuteResult) (s : Run)
      → IsOver s (after_reply unix r reply late shell s)
  unfolding after_reply stop_run
  reply-IsOver accepted late shell s = command-IsOver late shell s
  reply-IsOver (rejected m) late shell s =
      command-IsOver late shell (stop_run unix m (start_failed unix m) s)
  reply-IsOver (unreached aborted e) late shell s = finish-IsOver none s
  reply-IsOver (unreached unauthenticated e) late shell s =
      command-IsOver late shell (stop_run unix (start_failed unix e) (start_failed unix e) s)
  reply-IsOver (unreached canceled e) late shell s =
      command-IsOver late shell (stop_run unix (start_failed unix e) (start_failed unix e) s)
  reply-IsOver (unreached other e) late shell s =
      command-IsOver late shell (stop_run unix (start_failed unix e) (start_failed unix e) s)

  -- Whatever the center and the shell answer, a run that has its lock or needs none sends exactly
  -- one report of itself, which says that it failed exactly when it carries an error, and it leaves
  -- the table of running tasks with its context cancelled.
  pub run_task-IsOver :
      (lock : Answer) (reply : RunningReply) (late : Bool) (shell : TaskExecuteResult) (s : Run)
      → (r.noseize ≡ true) ⊎ (lock ≡ locked)
      → IsOver s (run_task unix error_text r lock reply late shell s)
  unfolding run_task after_lock
  run_task-IsOver lock reply late shell s (inl n) =
      rw n (reply-IsOver reply late shell (set_executing unix r s))
  run_task-IsOver lock reply late shell s (inr l) = elim (Bool-cases r.noseize) [
    | inl n ↦ rw n (reply-IsOver reply late shell (set_executing unix r s))
    | inr n ↦ rw (n, l) (reply-IsOver reply late shell (set_executing unix r s))
  ]

  -- What makes a command run: nobody else holds the lock, the center accepted the run, it is in time,
  -- and nothing cancelled it before.
  abbrev pub MayExecute : Answer → RunningReply → Bool → Run → Type 0
  MayExecute lock reply late s =
      ((r.noseize ≡ true) ⊎ (lock ≡ locked))
      × (reply ≡ accepted)
      × (late ≡ false)
      × (s.cancelled ≡ false)

  -- Either `P` holds and the command ran once, or `P` fails and it did not run.
  abbrev pub RanIf : Type 0 → Run → Run → Type 0
  RanIf P s s' =
      (P × (s'.executed ≡ r.plan.tmp_id ∷ s.executed)) ⊎ ((¬ P) × (s'.executed ≡ s.executed))

  result_executed :
      (x : TaskExecuteResult) (s : Run) → (executed_result unix r (s, x)).executed ≡ s.executed
  unfolding executed_result
  result_executed x s = go x.err
    where
      go : (e : Text) → (push unix r (explain unix e x s)).executed ≡ s.executed
      go [] = refl
      go (b ∷ e) = refl

  started-RanIf :
      (is_over : Bool) (shell : TaskExecuteResult) (s : Run)
      → RanIf (is_over ≡ false) s (executed_result unix r (start_command unix r is_over shell s))
  started-RanIf true shell s =
      inr
        (λ e. cc, result_executed (record shell { output = []; err = codes "context canceled" }) s)
  started-RanIf false shell s =
      inl (refl, result_executed shell (record s { executed = r.plan.tmp_id ∷ s.executed }))

  command-RanIf :
      (late : Bool) (shell : TaskExecuteResult) (s : Run)
      → RanIf ((late ≡ false) × (s.cancelled ≡ false)) s (run_command unix r late shell s)
  unfolding run_command execute_task
  command-RanIf true shell s = inr (
    λ e. absurd (cc (e.0)),
    result_executed (record shell { output = []; err = codes "task starting timeout" })
        (record s { signal = close s.signal }),
  )
  command-RanIf false shell s =
      elim (started-RanIf s.cancelled shell (record s { signal = close s.signal })) [
        | inl (e, q) ↦ inl ((refl, e), q)
        | inr (n, q) ↦ inr (λ e. n e.1, q)
      ]

  stopped-RanIf :
      {P : Type 0} (reason told : Text) (late : Bool) (shell : TaskExecuteResult) (s : Run)
      → ¬ P
      → RanIf P s (run_command unix r late shell (stop_run unix reason told s))
  unfolding stop_run
  stopped-RanIf reason told late shell s n =
      elim (command-RanIf late shell (stop_run unix reason told s)) [
        | inl (e, q) ↦ absurd (cc (e.1))
        | inr (m, q) ↦ inr (n, q)
      ]

  reply-RanIf :
      (reply : RunningReply) (late : Bool) (shell : TaskExecuteResult) (s : Run)
      → RanIf
          ((reply ≡ accepted) × (late ≡ false) × (s.cancelled ≡ false))
          s
          (after_reply unix r reply late shell s)
  unfolding after_reply
  reply-RanIf accepted late shell s = elim (command-RanIf late shell s) [
    | inl ((l, c), q) ↦ inl ((refl, l, c), q)
    | inr (n, q) ↦ inr (λ (a, l, c). n (l, c), q)
  ]
  reply-RanIf (rejected m) late shell s =
      stopped-RanIf m (start_failed unix m) late shell s (λ e. absurd (cc (e.0)))
  reply-RanIf (unreached aborted x) late shell s = inr (λ e. absurd (cc (e.0)), refl)
  reply-RanIf (unreached unauthenticated x) late shell s =
      stopped-RanIf (start_failed unix x) (start_failed unix x) late shell s
        (λ e. absurd (cc (e.0)))
  reply-RanIf (unreached canceled x) late shell s =
      stopped-RanIf (start_failed unix x) (start_failed unix x) late shell s
        (λ e. absurd (cc (e.0)))
  reply-RanIf (unreached other x) late shell s =
      stopped-RanIf (start_failed unix x) (start_failed unix x) late shell s
        (λ e. absurd (cc (e.0)))

  held-RanIf :
      (lock : Answer) (reply : RunningReply) (late : Bool) (shell : TaskExecuteResult) (s : Run)
      → (r.noseize ≡ true) ⊎ (lock ≡ locked)
      → RanIf
          (MayExecute lock reply late s)
          s
          (after_reply unix r reply late shell (set_executing unix r s))
  held-RanIf lock reply late shell s h =
      elim (reply-RanIf reply late shell (set_executing unix r s)) [
        | inl ((a, l, c), q) ↦ inl ((h, a, l, c), q)
        | inr (n, q) ↦ inr (λ (m, a, l, c). n (a, l, c), q)
      ]

  -- The command of a run is executed, once, exactly when the run has its lock or needs none, the
  -- center accepted it, it is in time, and nothing cancelled it before; otherwise it is not executed.
  pub run_task-RanIf :
      (lock : Answer) (reply : RunningReply) (late : Bool) (shell : TaskExecuteResult) (s : Run)
      → RanIf (MayExecute lock reply late s) s (run_task unix error_text r lock reply late shell s)
  unfolding run_task after_lock
  run_task-RanIf lock reply late shell s = go r.noseize lock refl
    where
      go :
          (b : Bool) (l : Answer)
          → r.noseize ≡ b
          → RanIf (MayExecute l reply late s) s (
              if b
              then after_reply unix r reply late shell (set_executing unix r s)
              else after_lock unix error_text r l reply late shell s)
      go true l e = held-RanIf l reply late shell s (inl e)
      go false locked e = held-RanIf locked reply late shell s (inr refl)
      go false (failed code) e = inr (λ (m, a, t, c). elim m [ inl x ↦ cc | inr x ↦ cc ], refl)

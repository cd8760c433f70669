-- ===== src/Agent/Running/Status.antt =====
-- When the report of a run says that the run is done.
use gopher_cron.Base.{
  ℕ, Text, [], ◌∷◌, codes, Bool, true, false, none, some, ◌≡◌, ◌≢◌, ◌↔◌, ◌⊎◌, inl, inr, refl,
  Bool-cases, ap, subst, eq_text,
}
use gopher_cron.Base.Map.{lookup}
use gopher_cron.Agent.{scheduler_key}
use gopher_cron.Agent.Hold.{Code, aborted, unauthenticated, canceled, other, Answer, locked}
use gopher_cron.Agent.Running.{
  TaskExecuteResult, RunPlan, RunningReply, accepted, rejected, unreached, Run, report_task_result,
  explain, push, prefixed, execute_task, start_command, executed_result, run_command, start_failed,
  stop_run, after_reply, set_executing, after_lock, run_task, with_err, with_result, started_report,
}
use gopher_cron.Agent.Running.Reported.{IsReportOf, run_task-IsOver}
use gopher_cron.Center.{TaskFinishedV2}
use gopher_cron.Utils.Reason.{write_string, write_string_prefix}
use gopher_cron.Utils.Signal.{close}
use gopher_cron.Workflow.Types.{done}

module _ (unix : ℕ → ℕ) (error_text : Code → Text) (r : RunPlan) where
  -- The run from `s` to `s'` sent one report, and that says done exactly if `P` holds.
  abbrev SaysDoneIf : Type 0 → Run → Run → Type 0
  SaysDoneIf P s s' = (f : TaskFinishedV2) × (s'.reports ≡ f ∷ s.reports) × ((f.status ≡ done) ↔ P)

  with_err-fails : (e : Text) (f : TaskFinishedV2) → e ≢ [] → (with_err unix e f).status ≢ done
  with_err-fails [] f n d = n refl
  with_err-fails (b ∷ e) f n d = cc

  prefixed_full : (e reason : Text) → prefixed unix e reason ≢ []
  unfolding write_string write_string_prefix
  prefixed_full e [] z = cc
  prefixed_full e (c ∷ w) z = cc

  explained-SaysDoneIf :
      (e : Text) (x : TaskExecuteResult) (s : Run)
      → x.err ≡ e
      → SaysDoneIf (x.err ≡ []) s (push unix r (explain unix e x s))
  unfolding report_task_result
  explained-SaysDoneIf [] x s h = (
    report_task_result unix r (some x),
    refl,
    (
      λ d. h,
      λ z. ap (λ e. (with_err unix e (with_result unix x (started_report unix r))).status) h,
    ),
  )
  explained-SaysDoneIf (b ∷ e) x s h =
      let reason = prefixed unix (b ∷ e) s.reason in
      let y = record x { err = reason } in
      (
        report_task_result unix r (some y),
        refl,
        (
          λ d. absurd (
              with_err-fails reason (with_result unix y (started_report unix r))
                (prefixed_full (b ∷ e) s.reason) d),
          λ z. absurd (cc (z, h)),
        ),
      )

  result-SaysDoneIf :
      (x : TaskExecuteResult) (s : Run) → SaysDoneIf (x.err ≡ []) s (executed_result unix r (s, x))
  unfolding executed_result
  result-SaysDoneIf x s = explained-SaysDoneIf x.err x s refl

  failed-SaysDoneIf :
      (P : Type 0) (x : TaskExecuteResult) (s : Run)
      → x.err ≢ []
      → ¬ P
      → SaysDoneIf P s (executed_result unix r (s, x))
  failed-SaysDoneIf P x s n m =
      let (f, e, (g, g')) = result-SaysDoneIf x s in
      (f, e, (λ d. absurd (n (g d)), λ p. absurd (m p)))

  started-SaysDoneIf :
      (is_over : Bool) (shell : TaskExecuteResult) (s : Run)
      → SaysDoneIf
          ((is_over ≡ false) × (shell.err ≡ []))
          s
          (executed_result unix r (start_command unix r is_over shell s))
  started-SaysDoneIf true shell s =
      failed-SaysDoneIf _ (record shell { output = []; err = codes "context canceled" }) s (λ z. cc)
        (λ p. absurd (cc (p.0)))
  started-SaysDoneIf false shell s =
      let (f, e, (g, g')) =
        result-SaysDoneIf shell (record s { executed = r.plan.tmp_id ∷ s.executed }) in
      (f, e, (λ d. (refl, g d), λ p. g' p.1))

  command-SaysDoneIf :
      (late : Bool) (shell : TaskExecuteResult) (s : Run)
      → SaysDoneIf
          ((late ≡ false) × (s.cancelled ≡ false) × (shell.err ≡ []))
          s
          (run_command unix r late shell s)
  unfolding run_command execute_task
  command-SaysDoneIf true shell s =
      failed-SaysDoneIf _ (record shell { output = []; err = codes "task starting timeout" })
        (record s { signal = close s.signal }) (λ z. cc) (λ p. absurd (cc (p.0)))
  command-SaysDoneIf false shell s =
      let (f, e, (g, g')) =
        started-SaysDoneIf s.cancelled shell (record s { signal = close s.signal }) in
      (f, e, (λ d. (refl, (g d).0, (g d).1), λ (l, c, n). g' (c, n)))

  -- the center aborted the run, or it accepted it and the command ran to its end without an error
  abbrev pub EndsWell : RunningReply → Bool → TaskExecuteResult → Run → Type 0
  EndsWell reply late shell s =
      ((e : Text) × (reply ≡ unreached aborted e))
      ⊎ ((reply ≡ accepted) × (late ≡ false) × (s.cancelled ≡ false) × (shell.err ≡ []))

  stopped-SaysDoneIf :
      (P : Type 0) (reason told : Text) (late : Bool) (shell : TaskExecuteResult) (s : Run)
      → ¬ P
      → SaysDoneIf P s (run_command unix r late shell (stop_run unix reason told s))
  unfolding stop_run
  stopped-SaysDoneIf P reason told late shell s n =
      let (f, e, (g, g')) = command-SaysDoneIf late shell (stop_run unix reason told s) in
      (f, e, (λ d. let (l, c, x) = g d in absurd (cc c), λ p. absurd (n p)))

  reply-SaysDoneIf :
      (reply : RunningReply) (late : Bool) (shell : TaskExecuteResult) (s : Run)
      → SaysDoneIf (EndsWell reply late shell s) s (after_reply unix r reply late shell s)
  unfolding after_reply report_task_result
  reply-SaysDoneIf accepted late shell s =
      let (f, e, (g, g')) = command-SaysDoneIf late shell s in
      (
        f,
        e,
        (
          λ d. let (l, c, x) = g d in inr (refl, l, c, x),
          λ p. elim p [ inl (m, x) ↦ absurd (cc x) | inr (a, l, c, x) ↦ g' (l, c, x) ],
        ),
      )
  reply-SaysDoneIf (rejected m) late shell s =
      stopped-SaysDoneIf _ m (start_failed unix m) late shell s
        (λ p. elim p [ inl q ↦ absurd (cc (q.1)) | inr q ↦ absurd (cc (q.0)) ])
  reply-SaysDoneIf (unreached aborted m) late shell s =
      (started_report unix r, refl, (λ d. inl (m, refl), λ p. refl))
  reply-SaysDoneIf (unreached unauthenticated m) late shell s =
      stopped-SaysDoneIf _ (start_failed unix m) (start_failed unix m) late shell s
        (λ p. elim p [ inl q ↦ absurd (cc (q.1)) | inr q ↦ absurd (cc (q.0)) ])
  reply-SaysDoneIf (unreached canceled m) late shell s =
      stopped-SaysDoneIf _ (start_failed unix m) (start_failed unix m) late shell s
        (λ p. elim p [ inl q ↦ absurd (cc (q.1)) | inr q ↦ absurd (cc (q.0)) ])
  reply-SaysDoneIf (unreached other m) late shell s =
      stopped-SaysDoneIf _ (start_failed unix m) (start_failed unix m) late shell s
        (λ p. elim p [ inl q ↦ absurd (cc (q.1)) | inr q ↦ absurd (cc (q.0)) ])

  run-SaysDoneIf :
      (lock : Answer) (reply : RunningReply) (late : Bool) (shell : TaskExecuteResult) (s : Run)
      → (r.noseize ≡ true) ⊎ (lock ≡ locked)
      → SaysDoneIf
          (EndsWell reply late shell s)
          s
          (run_task unix error_text r lock reply late shell s)
  unfolding run_task after_lock
  run-SaysDoneIf lock reply late shell s (inl n) =
      rw n (reply-SaysDoneIf reply late shell (set_executing unix r s))
  run-SaysDoneIf lock reply late shell s (inr l) = elim (Bool-cases r.noseize) [
    | inl n ↦ rw n (reply-SaysDoneIf reply late shell (set_executing unix r s))
    | inr n ↦ rw (n, l) (reply-SaysDoneIf reply late shell (set_executing unix r s))
  ]

  -- A run that has its lock or needs none sends exactly one report of itself and leaves the table of
  -- running tasks. The report says that the run is done exactly when the center aborted the run, or
  -- accepted it and the command ran in time, not cancelled, without an error; else it says that the
  -- run failed, with an error.
  pub run_task-EndsWell :
      (lock : Answer) (reply : RunningReply) (late : Bool) (shell : TaskExecuteResult) (s : Run)
      → (r.noseize ≡ true) ⊎ (lock ≡ locked)
      → ((f : TaskFinishedV2) × IsReportOf unix error_text r f
          × ((run_task unix error_text r lock reply late shell s).reports ≡ f ∷ s.reports)
          × ((f.status ≡ done) ↔ EndsWell reply late shell s))
        × (lookup
              (scheduler_key r.plan.task)
              (run_task unix error_text r lock reply late shell s).executing
            ≡ none)
  run_task-EndsWell lock reply late shell s n =
      let (over, gone, c) = run_task-IsOver unix error_text r lock reply late shell s n in
      let (f, is_report, sent) = over in
      let (g, sent', iff) = run-SaysDoneIf lock reply late shell s n in
      let same : f ≡ g = cc (sent, sent') in
      ((g, subst (IsReportOf unix error_text r) same is_report, sent', iff), gone)

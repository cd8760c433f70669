-- ===== src/Center/Accepted.antt =====
-- What it means that a report was accepted: the proofs on `StatusReporter`.
use gopher_cron.Base.{
  ℕ, Text, ◌≡◌, ◌≢◌, ◌⊎◌, refl, sym, subst, eq_text, Bool, true, false, Option, none, some, arith,
  Bool-cases, Option-cases, inl, inr, ap, ◌∙◌, if◌then◌else◌,
}
use gopher_cron.Base.Map.{lookup, lookup-insert_self}
use gopher_cron.Lock.{Write, answered, lost_before, lost_after}
use gopher_cron.Logs.{TaskExecutingInfo}
use gopher_cron.Workflow.TaskStates.{Docs}
use gopher_cron.Workflow.Types.{WorkflowInfo, Result, ok, err, json}
use gopher_cron.Center.{
  StoredTask, Center, CenterError, forbidden, internal, panicked, bad_request, locked, of_workflow,
  Fetched, fetched, not_found, fetch_error, get_task,
}
use gopher_cron.Center.Running.{
  RunAnswers, running_info, check_log, run_in_workflow, run_alone, run_as, run_task,
  set_task_running, lease_seconds, status_key, error_of,
}
use gopher_cron.Center.Report.{
  Answers, Caller, Told, told_ok, unauthenticated, running_event, version_text, is_allowed,
  is_active, task_status_scheduling, told_run, gate, check_schedule, report_running,
  status_reporter,
}

error_of-none : (w : Write) → error_of w ≡ none → w ≡ answered
error_of-none answered h = refl
error_of-none lost_before h = cc
error_of-none lost_after h = cc

module _ (etcd_prefix : Text) where
  -- the status key of a run holds its running information
  abbrev pub IsRunning : ℕ → (ip : Text) → TaskExecutingInfo → Center → Type 0
  IsRunning now ip info c =
      (lease : Option ℕ) × (lookup (status_key etcd_prefix info) c.status_keys
        ≡ some (record { value = json (running_info now ip info); lease = lease }))

  run_in_workflow-IsRunning :
      (a : RunAnswers) (ip : Text) (flow : WorkflowInfo) (info : TaskExecutingInfo) (c : Center)
      (d : Docs × Result (Unit {0}))
      → (run_in_workflow etcd_prefix a ip flow info c d).1 ≡ none
      → IsRunning a.now ip info (run_in_workflow etcd_prefix a ip flow info c d).0
  unfolding run_in_workflow
  run_in_workflow-IsRunning a ip flow info c (docs, err e) h = cc
  run_in_workflow-IsRunning a ip flow info c (docs, ok u) h = (
    none,
    rw (error_of-none a.commit h)
        (lookup-insert_self (status_key etcd_prefix info) _ c.status_keys),
  )

  run_alone_failed :
      (a : RunAnswers) (ip : Text) (info : TaskExecutingInfo) (c : Center)
      → a.grant ≡ false
      → run_alone etcd_prefix a ip info c ≡ (c, some internal)
  unfolding run_alone
  run_alone_failed a ip info c h = rw h

  run_alone_granted :
      (a : RunAnswers) (ip : Text) (info : TaskExecutingInfo) (c : Center)
      → a.grant ≡ true
      → (run_alone etcd_prefix a ip info c).1 ≡ error_of a.put
  unfolding run_alone
  run_alone_granted a ip info c h = rw h

  run_alone-IsRunning :
      (a : RunAnswers) (ip : Text) (info : TaskExecutingInfo) (c : Center)
      → (run_alone etcd_prefix a ip info c).1 ≡ none
      → IsRunning a.now ip info (run_alone etcd_prefix a ip info c).0
  unfolding run_alone
  run_alone-IsRunning a ip info c h = elim (Bool-cases a.grant) [
    | inr no_lease ↦
        absurd (some_none (sym (ap (λ x. x.1) (run_alone_failed a ip info c no_lease)) ∙ h))
    | inl leased ↦
        let put = error_of-none a.put (sym (run_alone_granted a ip info c leased) ∙ h) in
        (
          some (lease_seconds info.task.timeout),
          rw (leased, put) (lookup-insert_self (status_key etcd_prefix info) _ c.status_keys),
        )
  ]
    where
      some_none : some internal ≡ none → ⊥
      some_none e = cc

  run_as-IsRunning :
      (a : RunAnswers) (ip : Text) (info : TaskExecutingInfo) (c : Center)
      (flow : Option WorkflowInfo)
      → (run_as etcd_prefix a ip info c flow).1 ≡ none
      → IsRunning a.now ip info (run_as etcd_prefix a ip info c flow).0
  unfolding run_as
  run_as-IsRunning a ip info c none h = run_alone-IsRunning a ip info c h
  run_as-IsRunning a ip info c (some flow) h = run_in_workflow-IsRunning a ip flow info c _ h

  set_task_running_refused :
      (a : RunAnswers) (ip version : Text) (info : TaskExecutingInfo) (c : Center)
      → (check_log a ip version info c.table).1 ≡ false
      → (set_task_running etcd_prefix a ip version info c).1 ≡ some forbidden
  unfolding set_task_running
  set_task_running_refused a ip version info c h = rw h

  -- the state behind the log
  abbrev logged : RunAnswers → (ip version : Text) → TaskExecutingInfo → Center → Center
  logged a ip version info c = record c { table = (check_log a ip version info c.table).0 }

  set_task_running_allowed :
      (a : RunAnswers) (ip version : Text) (info : TaskExecutingInfo) (c : Center)
      → (check_log a ip version info c.table).1 ≡ true
      → set_task_running etcd_prefix a ip version info c
        ≡ run_task etcd_prefix a ip info (logged a ip version info c)
  unfolding set_task_running
  set_task_running_allowed a ip version info c h = rw h

  set_task_running-IsRunning :
      (a : RunAnswers) (ip version : Text) (info : TaskExecutingInfo) (c : Center)
      → (set_task_running etcd_prefix a ip version info c).1 ≡ none
      → IsRunning a.now ip info (set_task_running etcd_prefix a ip version info c).0
  unfolding run_task
  set_task_running-IsRunning a ip version info c h =
      elim (Bool-cases (check_log a ip version info c.table).1) [
        | inr n ↦ absurd (some_none (sym (set_task_running_refused a ip version info c n) ∙ h))
        | inl y ↦
            let same = set_task_running_allowed a ip version info c y in
            subst (λ r. IsRunning a.now ip info r.0) (sym same)
              (run_as-IsRunning a ip info (logged a ip version info c) info.task.flow_info
                (sym (ap (λ r. r.1) same) ∙ h))
      ]
    where
      some_none : some forbidden ≡ none → ⊥
      some_none e = cc

  told_run-none : (r : Center × Option CenterError) → (told_run r).1 ≡ told_ok → r.1 ≡ none
  told_run-none (c, none) h = refl
  told_run-none (c, some bad_request) h = cc
  told_run-none (c, some forbidden) h = cc
  told_run-none (c, some locked) h = cc
  told_run-none (c, some internal) h = cc
  told_run-none (c, some panicked) h = cc
  told_run-none (c, some (of_workflow e)) h = cc

  told_run-state : (r : Center × Option CenterError) → (told_run r).0 ≡ r.0
  told_run-state (c, none) = refl
  told_run-state (c, some e) = refl

abbrev pub IsScheduled : Fetched → Type 0
IsScheduled t = (task : StoredTask) × (t ≡ fetched task) × (task.status ≡ task_status_scheduling)

check_schedule-none : (t : Fetched) → check_schedule t ≡ none → IsScheduled t
unfolding check_schedule
check_schedule-none not_found h = cc
check_schedule-none fetch_error h = cc
check_schedule-none (fetched task) h = (task, refl, ground arith)

check_schedule-some : (t : Fetched) → (told : Told) → check_schedule t ≡ some told → told ≢ told_ok
unfolding check_schedule
check_schedule-some not_found told h = cc
check_schedule-some fetch_error told h = cc
check_schedule-some (fetched task) told h = λ e. ground arith

gate-ok :
    (c : Center) (run : Center × Told) (t : Fetched)
    → (gate c run (check_schedule t)).1 ≡ told_ok
    → IsScheduled t × (gate c run (check_schedule t) ≡ run)
gate-ok c run t h = elim (Option-cases (check_schedule t)) [
  | inl e ↦ (check_schedule-none t e, ap (gate c run) e)
  | inr (told, e) ↦ absurd (check_schedule-some t told e (sym (ap (λ x. (gate c run x).1) e) ∙ h))
]

gated-ok :
    (b : Bool) (c : Center) (run : Center × Told) (t : Fetched)
    → (if b then run else gate c run (check_schedule t)).1 ≡ told_ok
    → ((b ≡ true) ⊎ IsScheduled t) × ((if b then run else gate c run (check_schedule t)) ≡ run)
gated-ok true c run t h = (inl refl, refl)
gated-ok false c run t h = let (s, e) = gate-ok c run t h in (inr s, e)

module _ (etcd_prefix : Text) (is_leader : Bool)
    (result_json : (result error operator : Text) → Text) where
  -- What the center knows when it has accepted that a run begins: the run was asked for by hand or
  -- its task is scheduled, and the status key names the run, the agent and the time.
  abbrev pub IsAccepted : Answers → Caller → ℕ → TaskExecutingInfo → Center → Center → Type 0
  IsAccepted a caller pid info c c' =
      ((is_active info.plan_type ≡ true)
        ⊎ IsScheduled (get_task etcd_prefix a.read_task pid info.task.task_id c))
      × IsRunning etcd_prefix a.run.now caller.agent_ip info c'

  abbrev the_run : Answers → Caller → TaskExecutingInfo → Center → Center × Told
  the_run a caller info c = told_run (
      set_task_running etcd_prefix a.run caller.agent_ip (version_text caller.agent_version) info c)

  the_run-IsRunning :
      (a : Answers) (caller : Caller) (info : TaskExecutingInfo) (c : Center)
      → (the_run a caller info c).1 ≡ told_ok
      → IsRunning etcd_prefix a.run.now caller.agent_ip info (the_run a caller info c).0
  the_run-IsRunning a caller info c h =
      let r =
        set_task_running etcd_prefix a.run caller.agent_ip (version_text caller.agent_version) info
          c in
      subst (IsRunning etcd_prefix a.run.now caller.agent_ip info)
        (sym (told_run-state etcd_prefix r))
        (set_task_running-IsRunning etcd_prefix a.run caller.agent_ip
          (version_text caller.agent_version) info c (told_run-none etcd_prefix r h))

  report_running-IsAccepted :
      (a : Answers) (caller : Caller) (pid : ℕ) (info : TaskExecutingInfo) (c : Center)
      → (report_running etcd_prefix is_leader result_json a caller pid info c).1 ≡ told_ok
      → IsAccepted a caller pid info c
          (report_running etcd_prefix is_leader result_json a caller pid info c).0
  unfolding report_running
  report_running-IsAccepted a caller pid info c h =
      let run = the_run a caller info c in
      let t = get_task etcd_prefix a.read_task pid info.task.task_id c in
      let (why, same) = gated-ok (is_active info.plan_type) c run t h in
      (
        why,
        subst (λ r. IsRunning etcd_prefix a.run.now caller.agent_ip info r.0) (sym same)
            (the_run-IsRunning a caller info c (sym (ap (λ r. r.1) same) ∙ h)),
      )

  -- the caller shows no list of projects, or one with this project
  abbrev pub IsAllowed : Caller → ℕ → Type 0
  IsAllowed caller pid =
      (caller.allow ≡ none)
      ⊎ ((allow : ℕ → Bool) × (caller.allow ≡ some allow) × (allow pid ≡ true))

  allowed_lem : (caller : Caller) (pid : ℕ) → is_allowed caller pid ≡ true → IsAllowed caller pid
  allowed_lem caller pid h = elim (Option-cases caller.allow) [
    | inl e ↦ inl e
    | inr (allow, e) ↦ inr (allow, e, ground arith)
  ]

  -- A report that a run begins is accepted only from a caller that shows no list of projects or one
  -- with the project of the request, for a run that was asked for by hand or a task that is
  -- scheduled in the project of the request. Then the status key of the project and task that the
  -- run itself names, which may be another project, holds this run, this agent and the time.
  pub status_reporter-IsAccepted :
      (a : Answers) (caller : Caller) (pid : ℕ) (info : TaskExecutingInfo) (c : Center)
      → (status_reporter etcd_prefix is_leader result_json a caller pid
          (running_event (json info))
          c).1
        ≡ told_ok
      → IsAllowed caller pid
        × IsAccepted a caller pid info c
            (status_reporter etcd_prefix is_leader result_json a caller pid
              (running_event (json info))
              c).0
  unfolding status_reporter
  status_reporter-IsAccepted a caller pid info c h = elim (Bool-cases (is_allowed caller pid)) [
    | inl y ↦
        let h' = subst (λ b. allowed_or b ≡ told_ok) y h in
        (allowed_lem caller pid y, rw y (report_running-IsAccepted a caller pid info c h'))
    | inr n ↦ absurd (unauthenticated_ok (subst (λ b. allowed_or b ≡ told_ok) n h))
  ]
    where
      allowed_or : Bool → Told
      allowed_or b =
          (if b
            then report_running etcd_prefix is_leader result_json a caller pid info c
            else (c, unauthenticated)).1

      unauthenticated_ok : unauthenticated ≡ told_ok → ⊥
      unauthenticated_ok e = cc

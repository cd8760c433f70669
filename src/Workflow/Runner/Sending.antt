-- ===== src/Workflow/Runner/Sending.antt =====
-- When a task is sent to an agent, and when a plan is started.
use gopher_cron.Base.{
  ℕ, ◌+◌, ◌≤◌, Text, eq_text, Bool, true, false, Option, none, some, ◌≡◌, ◌⊎◌, refl, ap, sym, ◌∙◌,
  Option-cases, Bool-cases, inl, inr, arith, if◌then◌else◌,
}
use gopher_cron.Base.Map.{lookup, lookup-insert_self}
use gopher_cron.Lock.{Write, answered, lost_before, lost_after}
use gopher_cron.Workflow.Types.{
  Status, starting, running, finished, not_running, done, fail, other, WorkflowTaskStates,
  WorkflowInfo, TaskInfo, PlanState, Result, ok, err, Doc, json, corrupt,
}
use gopher_cron.Workflow.TaskStates.{
  Docs, set_workflow_task_starting, start_key, start_first, start_again,
}
use gopher_cron.Workflow.PlanStates.{Plans, plan_key, get_workflow_plan_state}
use gopher_cron.Workflow.Runner.{
  Plan, is_running, is_running_status, is_stale, start_allowed, may_start, after_starting, sent,
  schedule_in_plan, with_tmp_id, schedule_task,
}

module _ (etcd_prefix : Text) where
  starting_stored :
      (now now' : ℕ) (task : TaskInfo) (flow : WorkflowInfo) (docs docs' : Docs) (u : Unit {0})
      → task.flow_info ≡ some flow
      → set_workflow_task_starting etcd_prefix now now' task docs ≡ (docs', ok u)
      → (s : WorkflowTaskStates) × (lookup (start_key etcd_prefix flow task) docs' ≡ some (json s))
        × (s.current_status ≡ starting)
  unfolding set_workflow_task_starting start_first start_again
  starting_stored now now' task flow docs docs' u f e =
      go (lookup (start_key etcd_prefix flow task) docs) refl
    where
      go :
          (o : Option (Doc WorkflowTaskStates))
          → lookup (start_key etcd_prefix flow task) docs ≡ o
          → (s : WorkflowTaskStates) × (lookup (start_key etcd_prefix flow task) docs'
              ≡ some (json s))
            × (s.current_status ≡ starting)
      go none p =
          let x = rw (f, p, set_workflow_task_starting) at e in
          (
            start_first now now' flow task,
            ap (λ r. lookup (start_key etcd_prefix flow task) r) (sym (ap (λ r. r.0) x))
                ∙ lookup-insert_self (start_key etcd_prefix flow task)
                    (json (start_first now now' flow task)) docs,
            refl,
          )
      go (some corrupt) p = let x = rw (f, p, set_workflow_task_starting) at e in cc
      go (some (json s)) p =
          let x = rw (f, p, set_workflow_task_starting) at e in
          (
            start_again now' task s,
            ap (λ r. lookup (start_key etcd_prefix flow task) r) (sym (ap (λ r. r.0) x))
                ∙ lookup-insert_self (start_key etcd_prefix flow task)
                    (json (start_again now' task s)) docs,
            refl,
          )

  abbrev pub Started : Docs → WorkflowInfo → TaskInfo → Type 0
  Started docs' flow task =
      (s : WorkflowTaskStates) × (lookup (start_key etcd_prefix flow task) docs' ≡ some (json s))
      × (s.current_status ≡ starting)

  after_starting-sent :
      (commit : Write) (before : Docs) (task sent_task : TaskInfo) (r : Docs × Result (Unit {0}))
      (docs' : Docs)
      → after_starting etcd_prefix commit before task r ≡ (docs', sent sent_task)
      → r ≡ (docs', ok tt)
  unfolding after_starting
  after_starting-sent answered before task sent_task (docs, ok u) docs' e =
      let q : docs ≡ docs' = ap (λ x. x.0) e in ap (λ d. (d, ok tt)) q
  after_starting-sent lost_before before task sent_task (docs, ok u) docs' e = cc
  after_starting-sent lost_after before task sent_task (docs, ok u) docs' e = cc
  after_starting-sent commit before task sent_task (docs, err x) docs' e = cc

  -- The state is missing, does not decode, or is `not_running` or `starting`.
  abbrev pub MayBeStarted : Option (Doc WorkflowTaskStates) → Type 0
  MayBeStarted none = Unit
  MayBeStarted (some corrupt) = Unit
  MayBeStarted (some (json s)) = (s.current_status ≡ not_running) ⊎ (s.current_status ≡ starting)

  may_start-cases :
      (s : Status) → may_start etcd_prefix s ≡ true → (s ≡ not_running) ⊎ (s ≡ starting)
  may_start-cases starting h = inr refl
  may_start-cases running h = cc
  may_start-cases finished h = cc
  may_start-cases not_running h = inl refl
  may_start-cases done h = cc
  may_start-cases fail h = cc
  may_start-cases (other t) h = cc

  start_allowed-MayBeStarted :
      (o : Option (Doc WorkflowTaskStates)) → start_allowed etcd_prefix o ≡ true → MayBeStarted o
  unfolding start_allowed
  start_allowed-MayBeStarted none h = tt
  start_allowed-MayBeStarted (some corrupt) h = tt
  start_allowed-MayBeStarted (some (json s)) h = may_start-cases s.current_status h

  -- The plan is stored as running, and was not last tried longer ago than its next time lies ahead.
  abbrev pub RunsInEtcd : (now next : ℕ) → Plans → Plan → Type 0
  RunsInEtcd now next plans p =
      (s : PlanState) × (lookup (plan_key etcd_prefix p.workflow_id) plans ≡ some (json s))
      × (s.status ≡ running)
      × (now + now ≤ next + s.latest_try_time)

  running_status : (s : Status) → is_running_status s ≡ true → s ≡ running
  running_status starting h = cc
  running_status running h = refl
  running_status finished h = cc
  running_status not_running h = cc
  running_status done h = cc
  running_status fail h = cc
  running_status (other t) h = cc

  is_running-RunsInEtcd :
      (read : Bool) (now next : ℕ) (plans : Plans) (p : Plan)
      → (is_running etcd_prefix read now next plans p).1 ≡ ok true
      → RunsInEtcd now next plans p
  unfolding is_running get_workflow_plan_state
  is_running-RunsInEtcd false now next plans p h = cc
  is_running-RunsInEtcd true now next plans p h =
      elim (Option-cases (lookup (plan_key etcd_prefix p.workflow_id) plans)) [
        | inl e ↦ let x = rw (e, is_running) at h in cc
        | inr (corrupt, e) ↦ let x = rw (e, is_running) at h in cc
        | inr (json s, e) ↦
            let x = rw (e, is_running) at h in
            let (fresh, on) = fresh_running s x in (s, e, running_status s.status on, fresh)
      ]
    where
      fresh_running :
          (s : PlanState)
          → ok (if is_stale now next s.latest_try_time then false else is_running_status s.status)
            ≡ ok true
          → (now + now ≤ next + s.latest_try_time) × (is_running_status s.status ≡ true)
      fresh_running s x = elim (Bool-cases (is_stale now next s.latest_try_time)) [
        | inl t ↦ absurd (let y = rw t at x in cc)
        | inr t ↦ (ground arith, (let y = rw t at x in cc))
      ]

  abbrev pub IsDue : (now next : ℕ) → Plans → Docs → Docs → WorkflowInfo → TaskInfo → Plan → Type 0
  IsDue now next plans docs docs' flow task p =
      RunsInEtcd now next plans p
      × MayBeStarted (lookup (start_key etcd_prefix flow task) docs)
      × Started docs' flow task

  in_plan-sent :
      (read replied : Bool) (commit : Write) (now next now' now'' : ℕ) (tmp_id : Text)
      (flow : WorkflowInfo) (task sent_task : TaskInfo) (p : Plan) (plans : Plans)
      (docs docs' : Docs)
      → task.flow_info ≡ some flow
      → schedule_in_plan etcd_prefix read replied commit now next now' now'' tmp_id flow task p
          plans docs
        ≡ (docs', sent sent_task)
      → IsDue now next plans docs docs' flow task p
  unfolding schedule_in_plan
  in_plan-sent read replied commit now next now' now'' tmp_id flow task sent_task p plans docs docs'
        f e =
      go ((is_running etcd_prefix read now next plans p).1) replied
        (start_allowed etcd_prefix (lookup (start_key etcd_prefix flow task) docs)) refl refl refl
    where
      call : Docs × Result (Unit {0})
      call =
          set_workflow_task_starting etcd_prefix now' now'' (with_tmp_id etcd_prefix tmp_id task)
            docs

      go :
          (r : Result Bool) (a b : Bool)
          → (is_running etcd_prefix read now next plans p).1 ≡ r
          → replied ≡ a
          → start_allowed etcd_prefix (lookup (start_key etcd_prefix flow task) docs) ≡ b
          → IsDue now next plans docs docs' flow task p
      go (err x) a b h k l = let y = rw (h, schedule_in_plan) at e in cc
      go (ok false) a b h k l = let y = rw (h, schedule_in_plan) at e in cc
      go (ok true) false b h k l = let y = rw (h, k, schedule_in_plan) at e in cc
      go (ok true) true false h k l = let y = rw (h, k, l, schedule_in_plan) at e in cc
      go (ok true) true true h k l =
          let y = rw (h, k, l, schedule_in_plan) at e in
          (
            is_running-RunsInEtcd read now next plans p h,
            start_allowed-MayBeStarted (lookup (start_key etcd_prefix flow task) docs) l,
            starting_stored now' now'' (with_tmp_id etcd_prefix tmp_id task) flow docs docs' tt f (
                after_starting-sent commit docs (with_tmp_id etcd_prefix tmp_id task) sent_task call
                  docs' y),
          )

  -- A task is sent to an agent only if it is not in process, its plan is known and stored as running
  -- in etcd, last tried no longer ago than its next time lies ahead, and the state of the task is
  -- missing, does not decode, or is `not_running` or `starting`. By then its state in etcd is
  -- `starting`.
  pub schedule_task-sent :
      (in_process : Bool) (get_plan : ℕ → Option Plan) (read replied : Bool) (commit : Write)
      (now next now' now'' : ℕ) (tmp_id : Text) (task sent_task : TaskInfo) (flow : WorkflowInfo)
      (plans : Plans) (docs docs' : Docs)
      → task.flow_info ≡ some flow
      → schedule_task etcd_prefix in_process get_plan read replied commit now next now' now'' tmp_id
          task plans docs
        ≡ (docs', sent sent_task)
      → (in_process ≡ false)
        × ((p : Plan) × (get_plan flow.workflow_id ≡ some p)
            × IsDue now next plans docs docs' flow task p)
  unfolding schedule_task schedule_in_plan
  schedule_task-sent true get_plan read replied commit now next now' now'' tmp_id task sent_task
        flow plans docs docs' f e =
      cc
  schedule_task-sent false get_plan read replied commit now next now' now'' tmp_id task sent_task
        flow plans docs docs' f e =
      elim (Option-cases (get_plan flow.workflow_id)) [
        | inl g ↦ let x = rw (f, g, schedule_task) at e in cc
        | inr (p, g) ↦ (
          refl,
          (
            p,
            g,
            in_plan-sent read replied commit now next now' now'' tmp_id flow task sent_task p plans
                docs docs' f (rw (f, g, schedule_task) at e),
          ),
        )
      ]

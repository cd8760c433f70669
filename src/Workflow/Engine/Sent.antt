-- ===== src/Workflow/Engine/Sent.antt =====
-- Which tasks the runner sends to be started: the proofs on `scheduleWorkflowPlan` and
-- `handleTaskResultV1`.
use gopher_cron.Base.{
  ℕ, Text, List, [], ◌∷◌, ◌++◌, ◌≡◌, ◌⊎◌, refl, sym, subst, Bool, true, false, Option, none, some,
  In, In-append-cases, inl, inr, ◌∙◌, if◌then◌else◌,
}
use gopher_cron.Base.Map.{lookup}
use gopher_cron.Keys.{build_workflow_task_status_key_prefix}
use gopher_cron.Workflow.Types.{
  WorkflowTaskInfo, eq_info, WorkflowTaskStates, TaskInfo, nil_pointer, Result, ok, err,
}
use gopher_cron.Workflow.TaskStates.{Docs}
use gopher_cron.Workflow.CanSchedule.{
  WorkflowTask, Outcome, tasks, plan_failed, stopped, states_map, state_of,
  get_workflow_tasks_states, can_schedule,
}
use gopher_cron.Workflow.CanSchedule.Picks.{IsDone, DepsDone, MayStart}
use gopher_cron.Workflow.CanSchedule.Starts.{HasEntry, can_schedule-MayStart}
use gopher_cron.Workflow.Finish.{Answers}
use gopher_cron.Workflow.Engine.{Flow, Engine, Known, put_flow, refresh_plan_tasks}
use gopher_cron.Workflow.Engine.Schedule.{
  task_event, send_event, err_workflow_failed, send_events, with_docs, ScheduleAnswers, finish_flow,
  after_finish, after_can_schedule, schedule_refreshed, schedule_workflow_plan,
}

-- an event of a task of the list that the plan has a record of
abbrev pub IsEventOf : ℕ → Known → List WorkflowTaskInfo → TaskInfo → Type 0
IsEventOf id known vs t =
    (v : WorkflowTaskInfo) × (wt : WorkflowTask) × (lookup v known ≡ some wt)
    × (t ≡ task_event id wt)
    × In v vs

send_events-IsEventOf :
    (id : ℕ) (known : Known) (vs : List WorkflowTaskInfo) (e : Engine) (t : TaskInfo)
    → In t (send_events id known vs e).0.events
    → In t e.events ⊎ IsEventOf id known vs t
unfolding send_events
send_events-IsEventOf id known [] e t m = inl m
send_events-IsEventOf id known (v ∷ vs) e t m =
    go (lookup v known) refl m (send_events-IsEventOf id known vs)
  where
    after : Option WorkflowTask → Engine × Result (Unit {0})
    after none = (e, err nil_pointer)
    after (some wt) = send_events id known vs (send_event (task_event id wt) e)

    widen : IsEventOf id known vs t → IsEventOf id known (v ∷ vs) t
    widen (w, wt, found, same, i) = (w, wt, found, same, inr i)

    new :
        (wt : WorkflowTask)
        → lookup v known ≡ some wt
        → In t (e.events ++ task_event id wt ∷ []) ⊎ IsEventOf id known vs t
        → In t e.events ⊎ IsEventOf id known (v ∷ vs) t
    new wt found (inr r) = inr (widen r)
    new wt found (inl i) = elim (In-append-cases t e.events (task_event id wt ∷ []) i) [
      | inl old ↦ inl old
      | inr (inl same) ↦ inr (v, wt, found, sym same, inl refl)
      | inr (inr x) ↦ absurd x
    ]

    go :
        (o : Option WorkflowTask)
        → lookup v known ≡ o
        → In t (after o).0.events
        → ((e : Engine) (t : TaskInfo)
            → In t (send_events id known vs e).0.events
            → In t e.events ⊎ IsEventOf id known vs t)
        → In t e.events ⊎ IsEventOf id known (v ∷ vs) t
    go none found i rec = inl i
    go (some wt) found i rec = new wt found (rec _ t i)

module _ (etcd_prefix : Text) (is_leader : Bool) where
  after_finish-events :
      (o : Option Text) (d : Engine × Result (Unit {0}))
      → (after_finish etcd_prefix is_leader o d).0.events ≡ d.0.events
  after_finish-events o (e, ok u) = refl
  after_finish-events none (e, err x) = refl
  after_finish-events (some t) (e, err x) = refl

  finish_flow-events :
      (a : Answers) (o : Option Text) (f : Flow) (e : Engine)
      → (finish_flow etcd_prefix is_leader a o f e).0.events ≡ e.events
  unfolding finish_flow
  finish_flow-events a o f e = refl

  -- where the leader sends events, they are those of the tasks to start
  abbrev IsSent : Flow → Engine → Outcome → TaskInfo → Type 0
  IsSent f e out t =
      (is_leader ≡ true)
      × (readys : List WorkflowTaskInfo) × (out ≡ tasks readys false)
      × IsEventOf f.workflow_id f.known readys t

  after_can_schedule-IsSent :
      (a : ScheduleAnswers) (f : Flow) (e : Engine) (out : Outcome) (t : TaskInfo)
      → In t (after_can_schedule etcd_prefix is_leader a f e out).0.events
      → In t e.events ⊎ IsSent f e out t
  unfolding after_can_schedule
  after_can_schedule-IsSent a f e (stopped x) t m = inl m
  after_can_schedule-IsSent a f e plan_failed t m = inl (
      subst (In t)
        (after_finish-events (some err_workflow_failed) _
          ∙ finish_flow-events a.finish (some err_workflow_failed) f e)
        m)
  after_can_schedule-IsSent a f e (tasks readys true) t m =
      inl (subst (In t) (after_finish-events none _ ∙ finish_flow-events a.finish none f e) m)
  after_can_schedule-IsSent a f e (tasks readys false) t m = go is_leader refl m
    where
      after : Bool → Engine × Result (Unit {0})
      after b = if b then send_events f.workflow_id f.known readys e else (e, ok tt)

      go :
          (b : Bool)
          → is_leader ≡ b
          → In t (after b).0.events
          → In t e.events ⊎ IsSent f e (tasks readys false) t
      go false leads i = inl i
      go true leads i = elim (send_events-IsEventOf f.workflow_id f.known readys e t i) [
        | inl old ↦ inl old
        | inr new ↦ inr (leads, readys, refl, new)
      ]

  abbrev pub docs_prefix : Flow → Text
  docs_prefix f = build_workflow_task_status_key_prefix etcd_prefix f.workflow_id

  -- what an event of a plan says: the leader sent it, the plan has a record of the task and an entry
  -- of it whose dependencies are done, and the task may start
  abbrev pub IsDue : Flow → List WorkflowTaskStates → TaskInfo → Type 0
  IsDue f states t =
      (is_leader ≡ true)
      × ((v : WorkflowTaskInfo) × (wt : WorkflowTask) × (lookup v f.known ≡ some wt)
          × (t ≡ task_event f.workflow_id wt)
          × HasEntry f.task_flow v (λ deps.
            (¬ IsDone (states_map states []) v)
            × DepsDone (states_map states []) deps
            × MayStart (state_of (lookup v (states_map states [])))))

  -- Whatever is sent to be started while a plan is scheduled, is sent by the leader, from the plan
  -- as the refresh of its tasks leaves it, which reads the rows only where the latest of them is
  -- not of the time of the last read, for a task that has an entry whose dependencies are all done, that is not
  -- done itself, and that waits to be started or was started fewer than three times. The plan could
  -- be refreshed, its lock is free and the stored states decode.
  pub schedule_workflow_plan-IsDue :
      (a : ScheduleAnswers) (f f' : Flow) (e : Engine) (states : List WorkflowTaskStates)
      (t : TaskInfo)
      → refresh_plan_tasks a.stored f ≡ (f', ok tt)
      → a.locked ≡ false
      → get_workflow_tasks_states (docs_prefix f') e.world.docs ≡ ok states
      → In t (schedule_workflow_plan etcd_prefix is_leader a f e).0.events
      → In t e.events ⊎ IsDue f' states t
  unfolding schedule_workflow_plan schedule_refreshed
  schedule_workflow_plan-IsDue a f f' e states t fresh free readable m =
      let m' =
        subst (λ r. In t (schedule_refreshed etcd_prefix is_leader a e r).0.events) fresh m in
      go (after_can_schedule-IsSent a f' (with_docs decided.0 (put_flow f' e)) decided.1 t m')
    where
      decided : Docs × Outcome
      decided =
          can_schedule etcd_prefix a.env f'.workflow_id a.locked f'.known f'.task_flow e.world.docs

      go :
          In t e.events ⊎ IsSent f' (with_docs decided.0 (put_flow f' e)) decided.1 t
          → In t e.events ⊎ IsDue f' states t
      go (inl old) = inl old
      go (inr (leads, readys, out, (v, wt, found, same, i))) =
          let out' =
            subst
              (λ b.
                (can_schedule etcd_prefix a.env f'.workflow_id b f'.known f'.task_flow
                  e.world.docs).1
                ≡ tasks readys false)
              free out in
          inr (
            leads,
            (
              v,
              wt,
              found,
              same,
              can_schedule-MayStart etcd_prefix a.env f'.workflow_id f'.known f'.task_flow
                  e.world.docs states readable readys false out' v i,
            ),
          )

-- ===== src/Workflow/Finish/Over.antt =====
-- What the end of a run leaves behind, key by key and field by field.
use gopher_cron.Base.{
  ℕ, Text, List, [], ◌∷◌, eq_text, nat_eq, true, Option, none, some, ◌==◌, if◌then◌else◌, In, Any,
  ◌≡◌, ◌↔◌, ◌⊎◌, inl, inr, refl, ap, ◌∙◌, Bool-cases,
}
use gopher_cron.Base.Map.{lookup}
use gopher_cron.Keys.{build_workflow_task_status_key}
use gopher_cron.Workflow.Types.{
  Status, starting, running, finished, not_running, done, fail, other, WorkflowTaskInfo,
  WorkflowTaskStates, PlanState, ok,
}
use gopher_cron.Workflow.PlanStates.{
  plan_key, get_workflow_plan_state, get_workflow_all_task_states,
}
use gopher_cron.Workflow.PlanStates.Cleared.{clear_workflow_keys-removed}
use gopher_cron.Workflow.Finish.{Answers, World, info_of, runs, finished_plan, final_state}
use gopher_cron.Workflow.Finish.Kills.{running_of}
use gopher_cron.Workflow.Finish.Ended.{kills_of, finished_plan-IsEnd}

abbrev pub IsLive : WorkflowTaskStates → Type 0
IsLive v = (v.current_status ≡ starting) ⊎ (v.current_status ≡ running)

runs_iff : (s : Status) → (runs s ≡ true) ↔ ((s ≡ starting) ⊎ (s ≡ running))
runs_iff starting = (λ h. inl refl, λ h. refl)
runs_iff running = (λ h. inr refl, λ h. refl)
runs_iff finished = (λ h. absurd cc, λ h. elim h [ inl e ↦ cc | inr e ↦ cc ])
runs_iff not_running = (λ h. absurd cc, λ h. elim h [ inl e ↦ cc | inr e ↦ cc ])
runs_iff done = (λ h. absurd cc, λ h. elim h [ inl e ↦ cc | inr e ↦ cc ])
runs_iff fail = (λ h. absurd cc, λ h. elim h [ inl e ↦ cc | inr e ↦ cc ])
runs_iff (other t) = (λ h. absurd cc, λ h. elim h [ inl e ↦ cc | inr e ↦ cc ])

In-running_of :
    (states : List WorkflowTaskStates) (k : WorkflowTaskInfo)
    → In k (running_of states) ↔ Any (λ v. IsLive v × (info_of v ≡ k)) states
In-running_of [] k = (λ m. m, λ m. m)
In-running_of (v ∷ vs) k =
    let (f, g) = In-running_of vs k in
    let (h, h') = runs_iff v.current_status in
    elim (Bool-cases (runs v.current_status)) [
      | inl e ↦ rw e (
        λ m. elim m [ inl x ↦ inl (h e, x) | inr x ↦ inr (f x) ],
        λ m. elim m [ inl x ↦ inl x.1 | inr x ↦ inr (g x) ],
      )
      | inr e ↦ rw e (
        λ m. inr (f m),
        λ m. elim m [ inl x ↦ let t = h' x.0 in absurd (cc (e, t)) | inr x ↦ g x ],
      )
    ]

-- With an error one list is killed, of the tasks that are starting or running; else none is.
abbrev pub KillsLive : Option Text → List WorkflowTaskStates → World → World → Type 0
KillsLive none states w w' = w'.kills ≡ w.kills
KillsLive (some e) states w w' =
    (l : List WorkflowTaskInfo) × (w'.kills ≡ l ∷ w.kills)
    × ((k : WorkflowTaskInfo) → In k l ↔ Any (λ v. IsLive v × (info_of v ≡ k)) states)

kills_of-KillsLive :
    (e : Option Text) (states : List WorkflowTaskStates) (w w' : World)
    → w'.kills ≡ kills_of e (running_of states) w.kills
    → KillsLive e states w w'
kills_of-KillsLive none states w w' h = h
kills_of-KillsLive (some e) states w w' h = (running_of states, h, In-running_of states)

module _ (etcd_prefix : Text) (workflow_id : ℕ) (a : Answers) where
  -- The plan and the task states of the workflow are gone, and those of other workflows' tasks stay.
  abbrev pub IsCleared : World → World → Type 0
  IsCleared w w' =
      (lookup (plan_key etcd_prefix workflow_id) w'.plans ≡ none)
      × ((v p : ℕ) (t : Text)
          → lookup (build_workflow_task_status_key etcd_prefix v p t) w'.docs ≡ (
              if v == workflow_id
              then none
              else lookup (build_workflow_task_status_key etcd_prefix v p t) w.docs))

  -- One entry is written, that names the run and its start, and holds the end and all task states.
  abbrev pub IsWritten : PlanState → List WorkflowTaskStates → World → World → Type 0
  IsWritten s states w w' =
      (log : PlanState) × (w'.logs ≡ log ∷ w.logs)
      × (log.workflow_id ≡ s.workflow_id)
      × (log.start_time ≡ s.start_time)
      × (log.end_time ≡ a.now)
      × (log.status ≡ finished)
      × (log.records ≡ states)

  -- If the end of a run succeeds for a plan with state `s` and task states `states`, then exactly
  -- one log entry is written: for the workflow and the start of `s`, finished now, with all the task
  -- states. In etcd the plan and every task state of the workflow are gone, and the task states of
  -- every other workflow are as before. With an error, exactly the tasks that are starting or
  -- running are killed, and without one nothing is.
  pub finished_plan-IsCleared :
      (e : Option Text) (s : PlanState) (states : List WorkflowTaskStates) (w : World)
      → get_workflow_plan_state etcd_prefix workflow_id a.plan_answered w.plans ≡ ok (some s)
      → get_workflow_all_task_states etcd_prefix workflow_id a.tasks_answered w.docs ≡ ok states
      → (finished_plan etcd_prefix workflow_id a e w).1 ≡ ok tt
      → IsCleared w (finished_plan etcd_prefix workflow_id a e w).0
        × IsWritten s states w (finished_plan etcd_prefix workflow_id a e w).0
        × KillsLive e states w (finished_plan etcd_prefix workflow_id a e w).0
  finished_plan-IsCleared e s states w p r h =
      let (reason, status, ended) =
        finished_plan-IsEnd etcd_prefix workflow_id a e s states w p r h in
      let (plan_gone, tasks_gone) =
        clear_workflow_keys-removed etcd_prefix workflow_id w.plans w.docs in
      (
        (
          ap (λ x. lookup (plan_key etcd_prefix workflow_id) x.plans) ended ∙ plan_gone,
          λ v q t.
              ap (λ x. lookup (build_workflow_task_status_key etcd_prefix v q t) x.docs) ended
              ∙ tasks_gone v q t,
        ),
        (final_state a.now reason states s, ap (λ x. x.logs) ended, refl, refl, refl, refl, refl),
        kills_of-KillsLive e states w (finished_plan etcd_prefix workflow_id a e w).0
            (ap (λ x. x.kills) ended),
      )

-- ===== src/Workflow/CanSchedule/Starts.antt =====
-- The theorems about `CanSchedule`: what it starts, when a plan is finished or has failed, and
-- what becomes of tasks that wait for one another.
use gopher_cron.Base.{
  ℕ, ◌≤◌, Text, List, [], ◌∷◌, Bool, true, false, ◌≡◌, ◌≢◌, ◌⊎◌, ◌↔◌, ◌∙◌, sym, inl, inr, refl,
  arith, All, Any, In, All-In, Any-map, length, eq_text, subst,
}
use gopher_cron.Base.Map.{lookup}
use gopher_cron.Keys.{build_workflow_task_status_key_prefix}
use gopher_cron.Workflow.Types.{WorkflowTaskInfo, WorkflowTaskStates, eq_info, ok, not_running}
use gopher_cron.Workflow.TaskStates.{Docs}
use gopher_cron.Workflow.CanSchedule.{
  WorkflowTask, TaskFlow, Env, StatesMap, Choice, skip, hold, pick, recheck, give_up, choose, tasks,
  plan_failed, state_of, get_workflow_tasks_states, states_map, can_schedule,
}
use gopher_cron.Workflow.CanSchedule.Picks.{
  IsDone, DepsDone, MayStart, IsExhausted, IsKnown, choose-pick, choose-give_up, choose-skip,
  choose_done, choose_waits_to_start,
}
use gopher_cron.Workflow.CanSchedule.Rounds.{picks, all_skip, Agrees, GivesUp, rounds-Agrees}

-- An entry of the plan with this task satisfies `P`.
abbrev pub HasEntry : TaskFlow → WorkflowTaskInfo → (List WorkflowTaskInfo → Type 0) → Type 0
HasEntry flow t P = Any (λ e. (e.0 ≡ t) × P e.1) flow

module _ (env : Env) (m : StatesMap) where
  In-picks :
      (t : WorkflowTaskInfo) (flow : TaskFlow)
      → In t (picks env m flow)
      → HasEntry flow t (λ deps. choose env m t deps ≡ pick)
  unfolding picks
  In-picks t [] h = h
  In-picks t ((x, deps) ∷ flow) h = go (choose env m x deps) refl (In-picks t flow)
    where
      go :
          (c : Choice)
          → choose env m x deps ≡ c
          → (In t (picks env m flow) → HasEntry flow t (λ d. choose env m t d ≡ pick))
          → HasEntry ((x, deps) ∷ flow) t (λ d. choose env m t d ≡ pick)
      go skip e ih = inr (ih (rw (e, picks) at h))
      go hold e ih = inr (ih (rw (e, picks) at h))
      go pick e ih =
          let found : (x ≡ t) ⊎ In t (picks env m flow) = rw (e, picks) at h in
          elim found [
            | inl q ↦ inl (q, subst (λ y. choose env m y deps ≡ pick) q e)
            | inr later ↦ inr (ih later)
          ]
      go recheck e ih = inr (ih (rw (e, picks) at h))
      go give_up e ih = inr (ih (rw (e, picks) at h))

  picks-In :
      (t : WorkflowTaskInfo) (flow : TaskFlow)
      → HasEntry flow t (λ deps. choose env m t deps ≡ pick)
      → In t (picks env m flow)
  unfolding picks
  picks-In t [] h = h
  picks-In t ((x, deps) ∷ flow) (inl (q, e)) =
      rw (subst (λ y. choose env m y deps ≡ pick) (sym q) e, picks) (inl q)
  picks-In t ((x, deps) ∷ flow) (inr h) = go (choose env m x deps) refl (picks-In t flow h)
    where
      go :
          (c : Choice)
          → choose env m x deps ≡ c
          → In t (picks env m flow)
          → In t (picks env m ((x, deps) ∷ flow))
      go skip e ih = rw (e, picks) ih
      go hold e ih = rw (e, picks) ih
      go pick e ih = rw (e, picks) (inr ih)
      go recheck e ih = rw (e, picks) ih
      go give_up e ih = rw (e, picks) ih

  all_skip-IsDone :
      (flow : TaskFlow)
      → All (λ e. IsKnown (state_of (lookup e.0 m)).current_status) flow
      → (all_skip env m flow ≡ true) ↔ All (λ e. IsDone m e.0) flow
  unfolding all_skip
  all_skip-IsDone [] k = (λ _. tt, λ _. refl)
  all_skip-IsDone ((x, deps) ∷ flow) k = (
    λ h. (choose-skip env m x deps (ground arith) k.0, (all_skip-IsDone flow k.1).0 (ground arith)),
    λ (d, ds). rw (choose_done env m x deps d, all_skip) ((all_skip-IsDone flow k.1).1 ds),
  )

-- A task waits for a named task of the list.
abbrev pub WaitsIn : List WorkflowTaskInfo → List WorkflowTaskInfo → Type 0
WaitsIn group deps = Any (λ d. (d.task_id ≢ []) × In d group) deps

not-DepsDone :
    (m : StatesMap) (group deps : List WorkflowTaskInfo)
    → All (λ t. ¬ IsDone m t) group
    → WaitsIn group deps
    → ¬ DepsDone m deps
not-DepsDone m group [] g w d = w
not-DepsDone m group (x ∷ deps) g (inl (named, member)) (inl e, ds) = named e
not-DepsDone m group (x ∷ deps) g (inl (named, member)) (inr e, ds) =
    All-In (λ t. ¬ IsDone m t) group g member e
not-DepsDone m group (x ∷ deps) g (inr w) (d, ds) = not-DepsDone m group deps g w ds

module _ (etcd_prefix : Text) (env : Env) (workflow_id : ℕ)
    (known : List (WorkflowTaskInfo × WorkflowTask)) (flow : TaskFlow) (docs : Docs)
    (states : List WorkflowTaskStates)
    (readable : get_workflow_tasks_states
        (build_workflow_task_status_key_prefix etcd_prefix workflow_id)
        docs
      ≡ ok states) where
  abbrev now_known : StatesMap
  now_known = states_map states []

  result-Agrees :
      Agrees
        (picks env now_known flow)
        (all_skip env now_known flow)
        (Any (GivesUp env now_known) flow)
        (can_schedule etcd_prefix env workflow_id false known flow docs).1
  unfolding can_schedule
  result-Agrees =
      rw (readable, can_schedule)
        (rounds-Agrees etcd_prefix env workflow_id now_known known flow [] true docs)

  module _ (readys : List WorkflowTaskInfo) (finished : Bool)
      (decided : (can_schedule etcd_prefix env workflow_id false known flow docs).1
        ≡ tasks readys finished) where
    decided-picks : (readys ≡ picks env now_known flow) × (finished ≡ all_skip env now_known flow)
    decided-picks =
        subst
          (Agrees (picks env now_known flow) (all_skip env now_known flow)
            (Any (GivesUp env now_known) flow))
          decided result-Agrees

    -- If the stored states decode and the round returns with no error: a task is among them
    -- only if the plan has it with dependencies that are all done, it is not done itself, and
    -- it waits to be started or was started fewer than three times.
    pub can_schedule-MayStart :
        (t : WorkflowTaskInfo)
        → In t readys
        → HasEntry flow t (λ deps.
          (¬ IsDone now_known t)
          × DepsDone now_known deps
          × MayStart (state_of (lookup t now_known)))
    can_schedule-MayStart t h =
        Any-map flow (λ e (q, p). (q, choose-pick env now_known t e.1 p))
          (In-picks env now_known t flow (subst (In t) decided-picks.0 h))

    -- If the stored states decode and the round returns with no error: a task whose
    -- dependencies are all done, and that was never started or is marked for another start with
    -- at most one record, is returned.
    pub can_schedule-In :
        (t : WorkflowTaskInfo)
        → HasEntry flow t (DepsDone now_known)
        → (state_of (lookup t now_known)).current_status ≡ not_running
        → length (state_of (lookup t now_known)).schedule_records ≤ 1
        → In t readys
    can_schedule-In t h waiting few = subst (In t) (sym decided-picks.0) (
        picks-In env now_known t flow (
          Any-map flow (λ e (q, d). (q, choose_waits_to_start env now_known t e.1 d waiting few))
            h))

    -- If the stored states decode, the round returns with no error, and the stored statuses are
    -- those that the engine writes, then the plan is reported finished exactly when each of its
    -- tasks is done.
    pub can_schedule-finished :
        All (λ e. IsKnown (state_of (lookup e.0 now_known)).current_status) flow
        → (finished ≡ true) ↔ All (λ e. IsDone now_known e.0) flow
    can_schedule-finished k =
        let (forth, back) = all_skip-IsDone env now_known flow k in
        (λ h. forth (sym decided-picks.1 ∙ h), λ h. decided-picks.1 ∙ back h)

    -- If the stored states decode and the round returns with no error, tasks that wait for one
    -- another are not returned: if no task of a group is done and the plan has each of them
    -- only with a dependency inside the group, then none is returned.
    pub can_schedule-cycle :
        (group : List WorkflowTaskInfo)
        → All (λ t. ¬ IsDone now_known t) group
        → All (λ e. In e.0 group → WaitsIn group e.1) flow
        → (t : WorkflowTaskInfo) → In t group
        → ¬ In t readys
    can_schedule-cycle group undone waits t member h =
        not_waiting flow waits (can_schedule-MayStart t h)
      where
        not_waiting :
            (f : TaskFlow)
            → All (λ e. In e.0 group → WaitsIn group e.1) f
            → ¬ HasEntry f t (λ deps.
              (¬ IsDone now_known t)
              × DepsDone now_known deps
              × MayStart (state_of (lookup t now_known)))
        not_waiting [] w a = a
        not_waiting (e ∷ f) w (inl (q, r)) =
            not-DepsDone now_known group e.1 undone (w.0 (subst (λ x. In x group) (sym q) member))
              r.1
        not_waiting (e ∷ f) w (inr a) = not_waiting f w.1 a

  -- If the stored states decode, the plan is given up only for a task that is not done, whose
  -- dependencies are all done, and that is starting or failed after three starts or more.
  pub can_schedule-IsExhausted :
      (can_schedule etcd_prefix env workflow_id false known flow docs).1 ≡ plan_failed
      → Any
          (λ e.
            (¬ IsDone now_known e.0)
            × DepsDone now_known e.1
            × IsExhausted (state_of (lookup e.0 now_known)))
          flow
  can_schedule-IsExhausted h =
      Any-map flow (λ e g. choose-give_up env now_known e.0 e.1 g)
        (subst
          (Agrees (picks env now_known flow) (all_skip env now_known flow)
            (Any (GivesUp env now_known) flow))
          h result-Agrees)

-- ===== src/Workflow/CanSchedule/Rounds.antt =====
-- What the loop of `CanSchedule` returns, for every order in which the map of tasks is visited.
use gopher_cron.Base.{
  ℕ, Text, List, [], ◌∷◌, ◌++◌, Bool, true, false, ◌&&◌, ◌≡◌, ◌⊎◌, inl, inr, refl, arith, Any,
  append-nil, append_assoc,
}
use gopher_cron.Base.Map.{lookup}
use gopher_cron.Workflow.Types.{WorkflowTaskInfo, eq_info, Result, ok, err}
use gopher_cron.Workflow.TaskStates.{Docs}
use gopher_cron.Workflow.CanSchedule.{
  WorkflowTask, TaskFlow, Env, StatesMap, Choice, skip, hold, pick, recheck, give_up, choose,
  Outcome, tasks, plan_failed, stopped, check_lock, rounds, state_of,
}

-- The tasks that the loop would start, in the order of the visit.
unfoldable pub picks : Env → StatesMap → TaskFlow → List WorkflowTaskInfo
picks env m [] = []
picks env m ((t, deps) ∷ flow) = elim (choose env m t deps) [
  | pick ↦ t ∷ picks env m flow
  | _ ↦ picks env m flow
]

-- The loop passes over every task.
unfoldable pub all_skip : Env → StatesMap → TaskFlow → Bool
all_skip env m [] = true
all_skip env m ((t, deps) ∷ flow) = elim (choose env m t deps) [
  | skip ↦ all_skip env m flow
  | _ ↦ false
]

-- The result is these tasks and this flag, or the plan has failed for this reason.
abbrev pub Agrees : List WorkflowTaskInfo → Bool → Type 0 → Outcome → Type 0
Agrees readys finished F (tasks rs f) = (rs ≡ readys) × (f ≡ finished)
Agrees readys finished F plan_failed = F
Agrees readys finished F (stopped e) = Unit

Agrees-map :
    (readys : List WorkflowTaskInfo) (finished : Bool) {F G : Type 0} (o : Outcome)
    → (F → G)
    → Agrees readys finished F o
    → Agrees readys finished G o
Agrees-map readys finished (tasks rs f) g a = a
Agrees-map readys finished plan_failed g a = g a
Agrees-map readys finished (stopped e) g a = tt

abbrev pub GivesUp : Env → StatesMap → WorkflowTaskInfo × List WorkflowTaskInfo → Type 0
GivesUp env m e = choose env m e.0 e.1 ≡ give_up

after_check :
    (readys : List WorkflowTaskInfo) (finished : Bool) (F : Type 0) (r : Result (Unit {0}))
    (docs : Docs) (o : Docs × Outcome)
    → Agrees readys finished F o.1
    → Agrees readys finished F
        (elim r as (λ x. Docs × Outcome) [ ok u ↦ o | err e ↦ (docs, stopped e) ]).1
after_check readys finished F (ok u) docs o a = a
after_check readys finished F (err e) docs o a = tt

and_false : (b : Bool) → (b && false) ≡ false
and_false true = refl
and_false false = refl

module _ (etcd_prefix : Text) (env : Env) (workflow_id : ℕ) (m : StatesMap)
    (known : List (WorkflowTaskInfo × WorkflowTask)) where
  pub rounds-Agrees :
      (flow : TaskFlow) (readys : List WorkflowTaskInfo) (finished : Bool) (docs : Docs)
      → Agrees
          (readys ++ picks env m flow)
          (finished && all_skip env m flow)
          (Any (GivesUp env m) flow)
          (rounds etcd_prefix env workflow_id m known flow readys finished docs).1
  unfolding rounds picks all_skip
  rounds-Agrees [] readys finished docs = ground (arith, append-nil readys)
  rounds-Agrees ((t, deps) ∷ flow) readys finished docs =
      go (choose env m t deps) refl (rounds-Agrees flow)
    where
      go :
          (c : Choice)
          → choose env m t deps ≡ c
          → ((rs : List WorkflowTaskInfo) (f : Bool) (d : Docs)
              → Agrees
                  (rs ++ picks env m flow)
                  (f && all_skip env m flow)
                  (Any (GivesUp env m) flow)
                  (rounds etcd_prefix env workflow_id m known flow rs f d).1)
          → Agrees
              (readys ++ picks env m ((t, deps) ∷ flow))
              (finished && all_skip env m ((t, deps) ∷ flow))
              (Any (GivesUp env m) ((t, deps) ∷ flow))
              (rounds etcd_prefix env workflow_id m known ((t, deps) ∷ flow) readys finished docs).1
      go skip e ih =
          rw (e, rounds, picks, all_skip)
            (Agrees-map (readys ++ picks env m flow) (finished && all_skip env m flow)
              (rounds etcd_prefix env workflow_id m known flow readys finished docs).1 inr
              (ih readys finished docs))
      go hold e ih =
          rw (e, rounds, picks, all_skip)
            (rw (and_false finished) (
              Agrees-map (readys ++ picks env m flow) false
                (rounds etcd_prefix env workflow_id m known flow readys false docs).1 inr
                (ih readys false docs)))
      go pick e ih =
          rw (e, rounds, picks, all_skip)
            (rw (and_false finished) (
              Agrees-map (readys ++ t ∷ picks env m flow) false
                (rounds etcd_prefix env workflow_id m known flow (readys ++ t ∷ []) false docs).1
                inr (rw append_assoc at (ih (readys ++ t ∷ []) false docs))))
      go give_up e ih = rw (e, rounds, picks, all_skip) (inl refl)
      go recheck e ih =
          rw (e, rounds, picks, all_skip)
            (rw (and_false finished) (
              let checked =
                check_lock etcd_prefix env workflow_id t (lookup t known) (state_of (lookup t m))
                  docs in
              after_check (readys ++ picks env m flow) false
                ((◌≡◌ {A = Choice} recheck give_up) ⊎ Any (GivesUp env m) flow) checked.1 checked.0
                (rounds etcd_prefix env workflow_id m known flow readys false checked.0)
                (Agrees-map (readys ++ picks env m flow) false
                  (rounds etcd_prefix env workflow_id m known flow readys false checked.0).1 inr
                  (ih readys false checked.0))))

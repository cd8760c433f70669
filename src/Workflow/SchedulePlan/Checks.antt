-- ===== src/Workflow/SchedulePlan/Checks.antt =====
-- What the checks of `CreateWorkflowSchedulePlan` guarantee of the rows that are stored.
use gopher_cron.Base.{
  ℕ, Text, List, [], ◌∷◌, eq_text, none, some, ◌≡◌, ◌≢◌, inl, inr, arith, All, Any, sym, subst,
  Any-map, Option-cases,
}
use gopher_cron.Base.Map.{lookup}
use gopher_cron.Keys.Tasks.{build_workflow_task_index-injective}
use gopher_cron.Workflow.Types.{eq_info}
use gopher_cron.Workflow.SchedulePlan.{
  PlanRow, PlanArgs, need_to_create, son_key, Tasks, collect, Found, present, check_dependencies,
  check_plan,
}
use gopher_cron.Workflow.SchedulePlan.Collected.{AllCompatible, collect-IsOpen, collect-lookup}

-- The task that a row waits for has a row of its own, and the task of the row itself exists.
abbrev pub IsSupported : (ℕ → Text → Found) → List PlanRow → PlanRow → Type 0
IsSupported get_workflow_task rows v =
    v.dependency_task_id ≢ []
    → Any (λ w. (w.project_id ≡ v.dependency_project_id) × (w.task_id ≡ v.dependency_task_id)) rows
      × (get_workflow_task v.project_id v.task_id ≡ present)

module _ (get_workflow_task : ℕ → Text → Found) (all : List PlanRow) (tasks : Tasks)
    (collected : collect all [] ≡ some tasks) where
  row_of_key :
      (v : PlanRow) {sons : List Text}
      → lookup (son_key v) tasks ≡ some sons
      → Any (λ w. (w.project_id ≡ v.dependency_project_id) × (w.task_id ≡ v.dependency_task_id)) all
  unfolding lookup
  row_of_key v e = elim (collect-lookup all [] (son_key v) collected e) [
    | inl a ↦
        Any-map all
          (λ w q.
            build_workflow_task_index-injective w.project_id v.dependency_project_id w.task_id
              v.dependency_task_id q)
          a
    | inr (s, p) ↦ cc
  ]

  dependency_found :
      (v : PlanRow) (rows : List PlanRow)
      → check_dependencies get_workflow_task tasks (v ∷ rows) ≡ none
      → (v.dependency_task_id ≢ []
          → (sons : List Text) × (lookup (son_key v) tasks ≡ some sons)
            × (get_workflow_task v.project_id v.task_id ≡ present))
        × (check_dependencies get_workflow_task tasks rows ≡ none)
  unfolding check_dependencies
  dependency_found v rows h = elim (Option-cases (lookup (son_key v) tasks)) [
    | inl e ↦ (λ named. ground arith, ground arith)
    | inr (sons, e) ↦ (λ named. (sons, e, ground arith), ground arith)
  ]

  check_dependencies-IsSupported :
      (rows : List PlanRow)
      → check_dependencies get_workflow_task tasks rows ≡ none
      → All (IsSupported get_workflow_task all) rows
  unfolding check_dependencies
  check_dependencies-IsSupported [] h = tt
  check_dependencies-IsSupported (v ∷ rows) h =
      let (found, rest) = dependency_found v rows h in
      (
        λ named. let (sons, e, p) = found named in (row_of_key v e, p),
        check_dependencies-IsSupported rows rest,
      )

check_plan-inl :
    (get_workflow_task : ℕ → Text → Found) (args : List PlanArgs) {rows : List PlanRow}
    → check_plan get_workflow_task args ≡ inl rows
    → (rows ≡ need_to_create args)
      × ((tasks : Tasks) × (collect (need_to_create args) [] ≡ some tasks)
          × (check_dependencies get_workflow_task tasks (need_to_create args) ≡ none))
unfolding check_plan
check_plan-inl get_workflow_task args h = elim (Option-cases (collect (need_to_create args) [])) [
  | inl e ↦ ground arith
  | inr (tasks, e) ↦
      elim (Option-cases (check_dependencies get_workflow_task tasks (need_to_create args))) [
        | inl p ↦ (ground arith, (tasks, e, p))
        | inr (x, p) ↦ ground arith
      ]
]

-- If the checks accept a request, the rows that are stored are those of its arguments in order,
-- no row repeats an earlier dependency or is mixed with a root row of the same task, and, for each
-- row that names a dependency, that dependency has a row of its own and the row's task exists.
pub check_plan-IsSupported :
    (get_workflow_task : ℕ → Text → Found) (args : List PlanArgs) {rows : List PlanRow}
    → check_plan get_workflow_task args ≡ inl rows
    → (rows ≡ need_to_create args)
      × AllCompatible rows
      × All (IsSupported get_workflow_task rows) rows
check_plan-IsSupported get_workflow_task args h =
    let (e, (tasks, c, d)) = check_plan-inl get_workflow_task args h in
    let both =
      subst (λ r. AllCompatible r × All (IsSupported get_workflow_task r) r) (sym e)
        (
          (collect-IsOpen (need_to_create args) [] c).1,
          check_dependencies-IsSupported get_workflow_task (need_to_create args) tasks c
              (need_to_create args) d,
        ) in
    (e, both.0, both.1)

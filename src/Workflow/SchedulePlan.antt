-- ===== src/Workflow/SchedulePlan.antt =====
-- app/workflow.go: the rows of a plan that `CreateWorkflowSchedulePlan` accepts, and the graph that
-- `RefreshPlanTasks` builds from stored rows.
pub mod Collected
pub mod Checks
use gopher_cron.Base.{
  ℕ, Text, List, [], ◌∷◌, ◌++◌, eq_text, Bool, true, false, ◌&&◌, ◌||◌, Option, none, some, ◌==◌,
  ltb, if◌then◌else◌, length, codes, map, text_eq, ◌⊎◌, inl, inr,
}
use gopher_cron.Base.Map.{lookup, insert}
use gopher_cron.Keys.{build_workflow_task_index}
use gopher_cron.Workflow.Types.{WorkflowTaskInfo, eq_info, Err, Result, ok, err}

-- `common.WorkflowSchedulePlan` without the columns that the checks do not read
pub record PlanRow : Type 0 where
  pub task_id : Text
  pub project_id : ℕ
  pub dependency_task_id : Text
  pub dependency_project_id : ℕ

-- `CreateWorkflowSchedulePlanArgs`
pub record PlanArgs : Type 0 where
  pub task : WorkflowTaskInfo
  pub dependencies : List WorkflowTaskInfo

abbrev pub dependency_row : WorkflowTaskInfo → WorkflowTaskInfo → PlanRow
dependency_row t d = record {
  task_id = t.task_id;
  project_id = t.project_id;
  dependency_task_id = d.task_id;
  dependency_project_id = d.project_id;
}

-- the row of a task with no dependency
abbrev pub root_row : WorkflowTaskInfo → PlanRow
root_row t = record {
  task_id = t.task_id;
  project_id = t.project_id;
  dependency_task_id = [];
  dependency_project_id = 0;
}

unfoldable pub rows_of : PlanArgs → List PlanRow
rows_of a = elim a.dependencies [
  | [] ↦ root_row a.task ∷ []
  | d ∷ ds ↦ map (dependency_row a.task) (d ∷ ds)
]

-- `needToCreate`
unfoldable pub need_to_create : List PlanArgs → List PlanRow
need_to_create [] = []
need_to_create (a ∷ args) = rows_of a ++ need_to_create args

abbrev pub check_key : PlanRow → Text
check_key v = build_workflow_task_index v.project_id v.task_id

abbrev pub son_key : PlanRow → Text
son_key v = build_workflow_task_index v.dependency_project_id v.dependency_task_id

-- A set of sons, as `map[string]bool` where only `true` is stored.
unfoldable pub has_son : Text → List Text → Bool
has_son k [] = false
has_son k (s ∷ sons) = text_eq s k || has_son k sons

-- the tasks seen so far, each with its sons
abbrev pub Tasks : Type 0
Tasks = List (Text × List Text)

abbrev pub sons_of : Text → Tasks → List Text
sons_of k tasks = elim (lookup k tasks) [ none ↦ [] | some sons ↦ sons ]

-- The test for a row that repeats a dependency, or that joins a task with no dependency.
unfoldable pub is_repeated : PlanRow → List Text → Bool
is_repeated v sons =
    (v.dependency_project_id == 0 && ltb 0 (length sons))
    || (has_son (son_key v) sons || has_son (codes "0_") sons)

-- the loop that collects the tasks; `none` is the error for a repeated row
unfoldable pub collect : List PlanRow → Tasks → Option Tasks
collect [] tasks = some tasks
collect (v ∷ rows) tasks =
    let sons = sons_of (check_key v) tasks in
    let rest = collect rows (insert (check_key v) (son_key v ∷ sons) tasks) in
    if is_repeated v sons then none else rest

pub data PlanError : Type 0 where
  repeated_task missing_dependency task_not_exist store_error : PlanError

-- What `GetWorkflowTask` finds: an error, no row, or the row.
pub data Found : Type 0 where
  failed absent present : Found

-- the loop over the rows with a dependency
unfoldable pub check_dependencies : (ℕ → Text → Found) → Tasks → List PlanRow → Option PlanError
check_dependencies get_workflow_task tasks [] = none
check_dependencies get_workflow_task tasks (v ∷ rows) =
    let rest = check_dependencies get_workflow_task tasks rows in
    elim v.dependency_task_id [
      | [] ↦ rest
      | c ∷ s ↦ elim (lookup (son_key v) tasks) [
        | none ↦ some missing_dependency
        | some sons ↦ elim (get_workflow_task v.project_id v.task_id) [
          | failed ↦ some store_error
          | absent ↦ some task_not_exist
          | present ↦ rest
        ]
      ]
    ]

-- The rows that are stored, or the error that is returned before anything is written.
unfoldable pub check_plan : (ℕ → Text → Found) → List PlanArgs → List PlanRow ⊎ PlanError
check_plan get_workflow_task args =
    let rows = need_to_create args in
    elim (collect rows []) [
      | none ↦ inr repeated_task
      | some tasks ↦ elim (check_dependencies get_workflow_task tasks rows) [
        | none ↦ inl rows
        | some e ↦ inr e
      ]
    ]

abbrev pub row_task : PlanRow → WorkflowTaskInfo
row_task v = record { project_id = v.project_id; task_id = v.task_id }

abbrev row_dependency : PlanRow → WorkflowTaskInfo
row_dependency v = record { project_id = v.dependency_project_id; task_id = v.dependency_task_id }

abbrev pub deps_of :
    WorkflowTaskInfo → List (WorkflowTaskInfo × List WorkflowTaskInfo) → List WorkflowTaskInfo
deps_of t m = elim (lookup t m) [ none ↦ [] | some deps ↦ deps ]

-- `depsMap` of `RefreshPlanTasks`
unfoldable pub deps_map :
    List PlanRow
    → List (WorkflowTaskInfo × List WorkflowTaskInfo)
    → List (WorkflowTaskInfo × List WorkflowTaskInfo)
deps_map [] m = m
deps_map (v ∷ rows) m =
    deps_map rows (insert (row_task v) (deps_of (row_task v) m ++ row_dependency v ∷ []) m)

-- ===== src/Workflow/PlanStates.antt =====
-- app/schedule.go: the state of a plan in etcd, how it is read, set to running and cleared.
pub mod Cleared
use gopher_cron.Base.{
  ℕ, Text, List, [], ◌∷◌, eq_text, Bool, true, false, Option, none, some, has_prefix, if◌then◌else◌,
  ◌≡◌, refl, arith, text_eq_iff, Bool-cases, inl, inr,
}
use gopher_cron.Base.Map.{lookup, insert}
use gopher_cron.Keys.{build_workflow_plan_key, build_workflow_task_status_key_prefix}
use gopher_cron.Workflow.Types.{
  Status, running, not_running, PlanState, Err, decode_error, etcd_error, Result, ok, err, Doc,
  json, corrupt, WorkflowTaskStates,
}
use gopher_cron.Workflow.TaskStates.{Docs}

abbrev pub Plans : Type 0
Plans = List (Text × Doc PlanState)

-- `kv.Delete(ctx, p, clientv3.WithPrefix())` and `kv.Get(ctx, p, clientv3.WithPrefix())`, on the
-- documents of one kind
module _ {V : Type 0} where
  unfoldable pub delete_prefix : Text → List (Text × V) → List (Text × V)
  delete_prefix p [] = []
  delete_prefix p ((k, v) ∷ kvs) =
      let rest = delete_prefix p kvs in if has_prefix k p then rest else (k, v) ∷ rest

  unfoldable pub get_prefix : Text → List (Text × V) → List V
  get_prefix p [] = []
  get_prefix p ((k, v) ∷ kvs) =
      let rest = get_prefix p kvs in if has_prefix k p then v ∷ rest else rest

  pub lookup-delete_prefix :
      (p k : Text) (kvs : List (Text × V))
      → lookup k (delete_prefix p kvs) ≡ (if has_prefix k p then none else lookup k kvs)
  unfolding lookup delete_prefix
  lookup-delete_prefix p k [] = elim (Bool-cases (has_prefix k p)) [ inl h ↦ rw h | inr h ↦ rw h ]
  lookup-delete_prefix p k ((j, v) ∷ kvs) =
      ground (arith, text_eq_iff j k, lookup-delete_prefix p k kvs)

-- `&item` for a value that does not decode: the zero value.
abbrev pub zero_states : WorkflowTaskStates
zero_states = record {
  project_id = 0;
  task_id = [];
  workflow_id = 0;
  current_status = not_running;
  schedule_count = 0;
  command = [];
  start_time = 0;
  end_time = 0;
  schedule_records = [];
}

unfoldable pub decode_all : List (Doc WorkflowTaskStates) → List WorkflowTaskStates
decode_all [] = []
decode_all (json s ∷ ds) = s ∷ decode_all ds
decode_all (corrupt ∷ ds) = zero_states ∷ decode_all ds

-- What a plan in etcd becomes, with the two clock readings of a new one.
abbrev pub run_again : ℕ → PlanState → PlanState
run_again now s = record s { status = running; latest_try_time = now }

abbrev pub run_first : (workflow_id now now' : ℕ) → PlanState
run_first workflow_id now now' = record {
  workflow_id = workflow_id;
  start_time = now;
  end_time = 0;
  status = running;
  reason = [];
  latest_try_time = now';
  records = [];
}

-- `answered` says whether etcd answers.
module _ (etcd_prefix : Text) (workflow_id : ℕ) where
  abbrev pub plan_key : Text
  plan_key = build_workflow_plan_key etcd_prefix workflow_id

  abbrev pub tasks_prefix : Text
  tasks_prefix = build_workflow_task_status_key_prefix etcd_prefix workflow_id

  unfoldable pub get_workflow_all_task_states :
      (answered : Bool) → Docs → Result (List WorkflowTaskStates)
  unfolding decode_all get_prefix
  get_workflow_all_task_states true docs = ok (decode_all (get_prefix tasks_prefix docs))
  get_workflow_all_task_states false docs = err etcd_error

  unfoldable pub get_workflow_plan_state : (answered : Bool) → Plans → Result (Option PlanState)
  get_workflow_plan_state true plans = elim (lookup plan_key plans) [
    | none ↦ ok none
    | some corrupt ↦ err decode_error
    | some (json s) ↦ ok (some s)
  ]
  get_workflow_plan_state false plans = err etcd_error

  unfoldable pub set_workflow_plan_running :
      (answered : Bool) (now now' : ℕ) → Plans → Plans × Result PlanState
  set_workflow_plan_running false now now' plans = (plans, err etcd_error)
  set_workflow_plan_running true now now' plans = elim (lookup plan_key plans) [
    | none ↦ (
      insert plan_key (json (run_first workflow_id now now')) plans,
      ok (run_first workflow_id now now'),
    )
    | some corrupt ↦ (plans, err decode_error)
    | some (json s) ↦ (insert plan_key (json (run_again now s)) plans, ok (run_again now s))
  ]

  -- Whether each of the two deletes is carried out.
  unfoldable pub clear_workflow_keys :
      (first second : Bool) → Plans × Docs → (Plans × Docs) × Result (Unit {0})
  unfolding delete_prefix
  clear_workflow_keys false second (plans, docs) = ((plans, docs), err etcd_error)
  clear_workflow_keys true false (plans, docs) =
      ((delete_prefix plan_key plans, delete_prefix plan_key docs), err etcd_error)
  clear_workflow_keys true true (plans, docs) = (
    (
      delete_prefix tasks_prefix (delete_prefix plan_key plans),
      delete_prefix tasks_prefix (delete_prefix plan_key docs),
    ),
    ok tt,
  )

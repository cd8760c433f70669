-- ===== src/Workflow/TaskStates/Runs.antt =====
-- The four transactions of app/schedule.go as calls on the stored documents, and what a call does
-- to the document at one key.
use gopher_cron.Base.{
  ℕ, Text, List, [], ◌∷◌, Bool, false, Option, none, some, if◌then◌else◌, eq_text, ◌≡◌, arith,
  text_eq, text_eq_iff, inl, inr, Option-cases,
}
use gopher_cron.Base.Map.{lookup, lookup-insert}
use gopher_cron.Workflow.Types.{
  is_terminal, not_running, running, WorkflowTaskStates, TaskInfo, WorkflowInfo,
  WorkflowRunningTaskInfo, TaskFinished, Doc, json, corrupt,
}
use gopher_cron.Workflow.TaskStates.{
  Docs, push_record, not_running_row, running_row, finish_row, settle, start_first, start_again,
  finished_key, running_key, start_key, set_work_flow_task_finished, set_workflow_task_not_running,
  set_workflow_task_running, set_workflow_task_starting,
}

pub data Call : Type 0 where
  finish : ℕ → Text → TaskFinished → Call
  mark_not_running : ℕ → WorkflowRunningTaskInfo → Text → Call
  mark_running : ℕ → WorkflowRunningTaskInfo → Call
  start : ℕ → ℕ → TaskInfo → Call

abbrev pub Entry : Type 0
Entry = Option (Doc WorkflowTaskStates)

module _ (etcd_prefix : Text) where
  unfoldable pub apply : Call → Docs → Docs
  apply (finish now ip r) docs = (set_work_flow_task_finished etcd_prefix now ip r docs).0
  apply (mark_not_running now t reason) docs =
      (set_workflow_task_not_running etcd_prefix now t reason docs).0
  apply (mark_running now t) docs = (set_workflow_task_running etcd_prefix now t docs).0
  apply (start now now' task) docs = (set_workflow_task_starting etcd_prefix now now' task docs).0

  -- The calls of a list, the first one first.
  unfoldable pub apply_all : List Call → Docs → Docs
  apply_all [] docs = docs
  apply_all (c ∷ cs) docs = apply_all cs (apply c docs)

  abbrev pub start_target : Option WorkflowInfo → TaskInfo → Option Text
  start_target none task = none
  start_target (some flow) task = some (start_key etcd_prefix flow task)

  -- The key that a call reads and writes; a task of no workflow has none.
  unfoldable pub target : Call → Option Text
  target (finish now ip r) = some (finished_key etcd_prefix r)
  target (mark_not_running now t reason) = some (running_key etcd_prefix t)
  target (mark_running now t) = some (running_key etcd_prefix t)
  target (start now now' task) = start_target task.flow_info task

-- What a call makes of the document at its key.
unfoldable pub update : Call → Entry → Entry
update (finish now ip r) (some (json s)) =
    if is_terminal s.current_status
    then some (json s)
    else some (json (settle r.status now (finish_row now ip r) s).0)
update (mark_not_running now t reason) (some (json s)) =
    some (json (push_record not_running (not_running_row now t reason) s))
update (mark_running now t) (some (json s)) =
    some (json (push_record running (running_row now t) s))
update (start now now' task) none = elim task.flow_info [
  | none ↦ none
  | some flow ↦ some (json (start_first now now' flow task))
]
update (start now now' task) (some (json s)) = elim task.flow_info [
  | none ↦ some (json s)
  | some flow ↦ some (json (start_again now' task s))
]
update _ e = e

abbrev pub at_target : Option Text → Text → Bool
at_target none k = false
at_target (some j) k = text_eq j k

module _ (etcd_prefix : Text) where
  -- A call replaces the document at its key as `update` says, and touches no other key.
  pub lookup-apply :
      (c : Call) (docs : Docs) (k : Text)
      → lookup k (apply etcd_prefix c docs)
        ≡ (if at_target (target etcd_prefix c) k then update c (lookup k docs) else lookup k docs)
  unfolding apply target update set_work_flow_task_finished set_workflow_task_not_running
      set_workflow_task_running set_workflow_task_starting
  lookup-apply (finish now ip r) docs k =
      elim (Option-cases (lookup (finished_key etcd_prefix r) docs)) [
        | inl e ↦ ground (arith, text_eq_iff (finished_key etcd_prefix r) k)
        | inr (corrupt, e) ↦ ground (arith, text_eq_iff (finished_key etcd_prefix r) k)
        | inr (json s, e) ↦ ground (
          arith,
          text_eq_iff (finished_key etcd_prefix r) k,
          lookup-insert (finished_key etcd_prefix r) k
              (json (settle r.status now (finish_row now ip r) s).0) docs,
        )
      ]
  lookup-apply (mark_not_running now t reason) docs k =
      let j = running_key etcd_prefix t in grind (arith, text_eq_iff j k, lookup-insert)
  lookup-apply (mark_running now t) docs k =
      grind (arith, text_eq_iff (running_key etcd_prefix t) k, lookup-insert)
  lookup-apply (start now now' task) docs k = elim (Option-cases task.flow_info) [
    | inl no_flow ↦ ground arith
    | inr (flow, e) ↦ grind (arith, text_eq_iff (start_key etcd_prefix flow task) k, lookup-insert)
  ]

-- ===== src/Workflow/TaskStates/Frame.antt =====
-- What one transaction leaves as it was: the other tasks, the history, and a finished task.
use gopher_cron.Base.{
  ℕ, ◌≤◌, Text, List, [], ◌∷◌, ◌++◌, Bool, true, false, Option, none, some, ◌≡◌, ◌⊎◌, refl, sym,
  arith, if-elim, eq_text, text_eq_iff, Bool-cases, Option-cases, inl, inr, append-nil,
}
use gopher_cron.Base.Map.{lookup, insert, lookup-insert_self}
use gopher_cron.Keys.{build_workflow_task_status_key}
use gopher_cron.Keys.Tasks.{build_workflow_task_status_key-injective}
use gopher_cron.Workflow.Types.{
  WorkflowTaskStates, WorkflowInfo, TaskInfo, TaskFinished, json, corrupt, ok, is_terminal, fail,
  done, Status,
}
use gopher_cron.Workflow.TaskStates.{
  Docs, Row, not_running_row, running_row, starting_row, finished_key, finish_row,
  set_work_flow_task_finished, settle, start_again,
}
use gopher_cron.Workflow.TaskStates.Runs.{
  Call, finish, mark_not_running, mark_running, start, apply, target, start_target, at_target,
  update, lookup-apply, Entry,
}

abbrev pub StartsTask : Option WorkflowInfo → TaskInfo → ℕ → ℕ → Text → Type 0
StartsTask none task w p t = ⊥
StartsTask (some flow) task w p t =
    (flow.workflow_id ≡ w) × (task.project_id ≡ p) × (task.task_id ≡ t)

-- The workflow, the project and the task of a call are these.
abbrev pub IsAbout : Call → ℕ → ℕ → Text → Type 0
IsAbout (finish now ip r) w p t = (r.workflow_id ≡ w) × (r.project_id ≡ p) × (r.task_id ≡ t)
IsAbout (mark_not_running now r reason) w p t =
    (r.workflow_id ≡ w) × (r.project_id ≡ p) × (r.task_id ≡ t)
IsAbout (mark_running now r) w p t = (r.workflow_id ≡ w) × (r.project_id ≡ p) × (r.task_id ≡ t)
IsAbout (start now now' task) w p t = StartsTask task.flow_info task w p t

module _ (etcd_prefix : Text) where
  abbrev key : ℕ → ℕ → Text → Text
  key = build_workflow_task_status_key etcd_prefix

  at_start-StartsTask :
      (o : Option WorkflowInfo) (task : TaskInfo) (w p : ℕ) (t : Text)
      → at_target (start_target etcd_prefix o task) (key w p t) ≡ true
      → StartsTask o task w p t
  at_start-StartsTask none task w p t h = cc
  at_start-StartsTask (some flow) task w p t h =
      build_workflow_task_status_key-injective etcd_prefix _ _ _ _ _ _ ((text_eq_iff _ _).0 h)

  at_target-IsAbout :
      (c : Call) (w p : ℕ) (t : Text)
      → at_target (target etcd_prefix c) (key w p t) ≡ true
      → IsAbout c w p t
  unfolding target
  at_target-IsAbout (finish now ip r) w p t h =
      build_workflow_task_status_key-injective etcd_prefix _ _ _ _ _ _ ((text_eq_iff _ _).0 h)
  at_target-IsAbout (mark_not_running now r reason) w p t h =
      build_workflow_task_status_key-injective etcd_prefix _ _ _ _ _ _ ((text_eq_iff _ _).0 h)
  at_target-IsAbout (mark_running now r) w p t h =
      build_workflow_task_status_key-injective etcd_prefix _ _ _ _ _ _ ((text_eq_iff _ _).0 h)
  at_target-IsAbout (start now now' task) w p t h = at_start-StartsTask task.flow_info task w p t h

  -- A call about one task leaves the state of every other task of every workflow as it was.
  pub apply-other :
      (c : Call) (docs : Docs) (w p : ℕ) (t : Text)
      → ¬ IsAbout c w p t
      → lookup (key w p t) (apply etcd_prefix c docs) ≡ lookup (key w p t) docs
  apply-other c docs w p t h = elim (Bool-cases (at_target (target etcd_prefix c) (key w p t))) [
    | inl e ↦ absurd (h (at_target-IsAbout c w p t e))
    | inr e ↦ rw (lookup-apply etcd_prefix c docs (key w p t), e)
  ]

-- The rows of the first entry are the first rows of the second, and its count is no larger.
abbrev pub Extends : Entry → Entry → Type 0
Extends (some (json s)) (some (json s')) =
    (rest : List Row) × (s'.schedule_records ≡ s.schedule_records ++ rest)
    × (s.schedule_count ≤ s'.schedule_count)
Extends (some (json s)) _ = ⊥
Extends _ e = Unit

settle-Extends :
    (st : Status) (now : ℕ) (r : Row) (s : WorkflowTaskStates)
    → Extends (some (json s)) (some (json (settle st now r s).0))
unfolding settle
settle-Extends fail now r s = (r ∷ [], ground arith, ground arith)
settle-Extends _ now r s = (r ∷ [], ground arith, ground arith)

update-Extends : (c : Call) (e : Entry) → Extends e (update c e)
unfolding update start_again
update-Extends c none = tt
update-Extends c (some corrupt) = tt
update-Extends (finish now ip r) (some (json s)) =
    if-elim (Extends (some (json s))) (is_terminal s.current_status)
      ([], sym (append-nil s.schedule_records), omega arith)
      (settle-Extends r.status now (finish_row now ip r) s)
update-Extends (mark_not_running now t reason) (some (json s)) =
    (not_running_row now t reason ∷ [], refl, omega arith)
update-Extends (mark_running now t) (some (json s)) = (running_row now t ∷ [], refl, omega arith)
update-Extends (start now now' task) (some (json s)) = elim (Option-cases task.flow_info) [
  | inl e ↦ rw e ([], sym (append-nil s.schedule_records), omega arith)
  | inr (flow, e) ↦ rw e (starting_row now' task ∷ [], refl, omega arith)
]

Extends-refl : (e : Entry) → Extends e e
Extends-refl none = tt
Extends-refl (some corrupt) = tt
Extends-refl (some (json s)) = ([], sym (append-nil s.schedule_records), omega arith)

ok_true : {b : Bool} → ok b ≡ ok true → b ≡ true
ok_true e = cc

module _ (etcd_prefix : Text) where
  -- No call rewrites history: the records of a stored task state are the first records of the
  -- state after the call, its count does not fall, and it is neither deleted nor made unreadable.
  pub apply-Extends :
      (c : Call) (docs : Docs) (k : Text)
      → Extends (lookup k docs) (lookup k (apply etcd_prefix c docs))
  apply-Extends c docs k = rw (lookup-apply etcd_prefix c docs k) (
      if-elim (Extends (lookup k docs)) (at_target (target etcd_prefix c) k)
        (update-Extends c (lookup k docs)) (Extends-refl (lookup k docs)))

  -- A report on a task whose state is `done` or `fail` is dropped.
  finish_terminal :
      (now : ℕ) (ip : Text) (r : TaskFinished) (docs : Docs) (s : WorkflowTaskStates)
      → lookup (finished_key etcd_prefix r) docs ≡ some (json s)
      → is_terminal s.current_status ≡ true
      → set_work_flow_task_finished etcd_prefix now ip r docs ≡ (docs, ok false)
  unfolding set_work_flow_task_finished
  finish_terminal now ip r docs s e h = rw (e, set_work_flow_task_finished) (rw h)

  finish_live :
      (now : ℕ) (ip : Text) (r : TaskFinished) (docs : Docs) (s : WorkflowTaskStates)
      → lookup (finished_key etcd_prefix r) docs ≡ some (json s)
      → is_terminal s.current_status ≡ false
      → set_work_flow_task_finished etcd_prefix now ip r docs ≡ (
        insert
            (finished_key etcd_prefix r)
            (json (settle r.status now (finish_row now ip r) s).0)
            docs,
        ok (settle r.status now (finish_row now ip r) s).1,
      )
  unfolding set_work_flow_task_finished
  finish_live now ip r docs s e h = rw (e, set_work_flow_task_finished) (rw h)

  settle_final :
      (st : Status) (now : ℕ) (row : Row) (s : WorkflowTaskStates)
      → (st ≡ done) ⊎ ((settle st now row s).1 ≡ true)
      → is_terminal (settle st now row s).0.current_status ≡ true
  unfolding settle
  settle_final st now row s h = ground arith

  -- A report that is stored as final leaves a final state.
  finish_stores :
      (now : ℕ) (ip : Text) (r : TaskFinished) (docs : Docs) (s : WorkflowTaskStates)
      → lookup (finished_key etcd_prefix r) docs ≡ some (json s)
      → (r.status ≡ done) ⊎ ((set_work_flow_task_finished etcd_prefix now ip r docs).1 ≡ ok true)
      → (s' : WorkflowTaskStates) × (lookup
            (finished_key etcd_prefix r)
            (set_work_flow_task_finished etcd_prefix now ip r docs).0
          ≡ some (json s'))
        × (is_terminal s'.current_status ≡ true)
  finish_stores now ip r docs s e h = elim (Bool-cases (is_terminal s.current_status)) [
    | inl old ↦ (s, rw (finish_terminal now ip r docs s e old) e, old)
    | inr new ↦
        let st = (settle r.status now (finish_row now ip r) s) in
        let live = finish_live now ip r docs s e new in
        (
          st.0,
          rw live (lookup-insert_self (finished_key etcd_prefix r) (json st.0) docs),
          settle_final r.status now (finish_row now ip r) s
              (elim h [ inl d ↦ inl d | inr f ↦ inr (ok_true (rw live at f)) ]),
        )
  ]

  -- A report that ends the plan, or one that says `done` and is stored, is the last word on its
  -- task: a later report on the same task changes nothing and does not end the plan again.
  pub set_work_flow_task_finished_once :
      (now now' : ℕ) (ip ip' : Text) (r r' : TaskFinished) (docs : Docs) (s : WorkflowTaskStates)
      → lookup (finished_key etcd_prefix r) docs ≡ some (json s)
      → (r.status ≡ done) ⊎ ((set_work_flow_task_finished etcd_prefix now ip r docs).1 ≡ ok true)
      → finished_key etcd_prefix r' ≡ finished_key etcd_prefix r
      → let after = (set_work_flow_task_finished etcd_prefix now ip r docs).0 in
        set_work_flow_task_finished etcd_prefix now' ip' r' after ≡ (after, ok false)
  set_work_flow_task_finished_once now now' ip ip' r r' docs s e h same =
      let (s', e', final) = finish_stores now ip r docs s e h in
      finish_terminal now' ip' r' (set_work_flow_task_finished etcd_prefix now ip r docs).0 s'
        (rw same e') final

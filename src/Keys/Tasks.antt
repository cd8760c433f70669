-- ===== src/Keys/Tasks.antt =====
-- Which keys the key builders of common/protocol.go keep apart: injectivity, and what a prefix
-- of a project or of a workflow selects.
use gopher_cron.Base.{
  ℕ, Text, [], ◌∷◌, ◌++◌, ◌≡◌, true, ◌↔◌, arith, has_prefix, has_prefix-append,
  has_prefix-append_left, has_prefix→append, append_assoc, codes,
}
use gopher_cron.Keys.{
  slash, underscore, decimal, workflow, status, build_key, build_task_prefix_key,
  build_task_status_key, build_workflow_task_status_key_prefix, build_workflow_task_status_key,
  build_lock_key, gen_task_scheduler_key, build_workflow_task_index,
}
use gopher_cron.Keys.Decimal.{IsDigit, decimal-cons-injective}

pub append-cancel_left : (p s t : Text) → p ++ s ≡ p ++ t → s ≡ t
append-cancel_left [] s t e = e
append-cancel_left (x ∷ p) s t e = append-cancel_left p s t (cc)

slash_no-IsDigit : ¬ IsDigit slash
slash_no-IsDigit h = omega arith

underscore_no-IsDigit : ¬ IsDigit underscore
underscore_no-IsDigit h = omega arith

-- What stands behind a number and a slash is selected by that number and that slash only.
has_prefix-decimal :
    (a b : ℕ) (s : Text)
    → (has_prefix (decimal a ++ slash ∷ s) (decimal b ++ slash ∷ []) ≡ true) ↔ (a ≡ b)
has_prefix-decimal a b s = (forth, back)
  where
    forth : has_prefix (decimal a ++ slash ∷ s) (decimal b ++ slash ∷ []) ≡ true → a ≡ b
    forth h =
        let (r, e) = has_prefix→append (decimal a ++ slash ∷ s) (decimal b ++ slash ∷ []) h in
        (decimal-cons-injective slash a b s r slash_no-IsDigit (rw append_assoc at e)).0

    back : a ≡ b → has_prefix (decimal a ++ slash ∷ s) (decimal b ++ slash ∷ []) ≡ true
    back e = rw e (
        rw (has_prefix-append_left (decimal b) (slash ∷ s) (slash ∷ []))
          (has_prefix-append (slash ∷ []) s))

module _ (etcd_prefix : Text) where
  -- A read or a delete under the task status prefix of workflow `w` meets the task status key of
  -- workflow `v` exactly when `v` is `w`, whatever the project and the task are called.
  pub has_prefix-build_workflow_task_status_key :
      (w v project_id : ℕ) (task_id : Text)
      → (has_prefix
            (build_workflow_task_status_key etcd_prefix v project_id task_id)
            (build_workflow_task_status_key_prefix etcd_prefix w)
          ≡ true)
        ↔ (v ≡ w)
  unfolding build_workflow_task_status_key
  has_prefix-build_workflow_task_status_key w v project_id task_id =
      simp (append_assoc, has_prefix-append_left)
        (rw
          (has_prefix-append_left (slash ∷ (workflow ++ slash ∷ []))
            (decimal v ++ slash ∷ (decimal project_id ++ slash ∷ task_id))
            (decimal w ++ slash ∷ []))
          (has_prefix-decimal v w (decimal project_id ++ slash ∷ task_id)))

  -- Two workflow tasks share a status key only if they are one task of one workflow.
  pub build_workflow_task_status_key-injective :
      (v w p q : ℕ) (s t : Text)
      → build_workflow_task_status_key etcd_prefix v p s
        ≡ build_workflow_task_status_key etcd_prefix w q t
      → (v ≡ w) × (p ≡ q) × (s ≡ t)
  unfolding build_workflow_task_status_key
  build_workflow_task_status_key-injective v w p q s t e =
      let head = slash ∷ (workflow ++ slash ∷ []) in
      let (same_flow, rest) =
        decimal-cons-injective slash v w (decimal p ++ slash ∷ s) (decimal q ++ slash ∷ t)
          slash_no-IsDigit
          (append-cancel_left head _ _
            (append-cancel_left etcd_prefix _ _ (simp append_assoc at e))) in
      let (same_project, same_task) = decimal-cons-injective slash p q s t slash_no-IsDigit rest in
      (same_flow, same_project, same_task)

  -- A read or a delete under a project's task prefix meets the task key and the task status key
  -- of a task exactly when the task is one of that project.
  pub has_prefix-build_key :
      (project_id p : ℕ) (task_id : Text)
      → ((has_prefix
              (build_key etcd_prefix p task_id)
              (build_task_prefix_key etcd_prefix project_id)
            ≡ true)
          ↔ (p ≡ project_id))
        × ((has_prefix
                (build_task_status_key etcd_prefix p task_id)
                (build_task_prefix_key etcd_prefix project_id)
              ≡ true)
            ↔ (p ≡ project_id))
  unfolding build_key build_task_prefix_key build_task_status_key
  has_prefix-build_key project_id p task_id = (
    rw (has_prefix-append_left etcd_prefix _ _) (
        rw
          (has_prefix-append_left (slash ∷ []) (decimal p ++ slash ∷ task_id)
            (decimal project_id ++ slash ∷ []))
          (has_prefix-decimal p project_id task_id)),
    rw (has_prefix-append_left etcd_prefix _ _) (
        rw
          (has_prefix-append_left (slash ∷ []) (decimal p ++ slash ∷ (task_id ++ slash ∷ status))
            (decimal project_id ++ slash ∷ []))
          (has_prefix-decimal p project_id (task_id ++ slash ∷ status))),
  )

  -- Two tasks share a lock key only if they are one task of one project.
  pub build_lock_key-injective :
      (p q : ℕ) (s t : Text)
      → build_lock_key etcd_prefix p s ≡ build_lock_key etcd_prefix q t
      → (p ≡ q) × (s ≡ t)
  unfolding build_lock_key
  build_lock_key-injective p q s t e =
      decimal-cons-injective slash p q s t slash_no-IsDigit
        (append-cancel_left (codes "/lock/") _ _ (append-cancel_left etcd_prefix _ _ e))

-- The lock key, the table key and the index of a task determine its project and its id.
pub gen_task_scheduler_key-injective :
    (p q : ℕ) (s t : Text)
    → gen_task_scheduler_key p s ≡ gen_task_scheduler_key q t
    → (p ≡ q) × (s ≡ t)
unfolding gen_task_scheduler_key
gen_task_scheduler_key-injective p q s t e =
    decimal-cons-injective underscore p q s t underscore_no-IsDigit e

-- The index of a workflow task determines its project and its id.
pub build_workflow_task_index-injective :
    (p q : ℕ) (s t : Text)
    → build_workflow_task_index p s ≡ build_workflow_task_index q t
    → (p ≡ q) × (s ≡ t)
unfolding build_workflow_task_index
build_workflow_task_index-injective p q s t e =
    decimal-cons-injective underscore p q s t underscore_no-IsDigit e

-- ===== src/Workflow/PlanStates/Cleared.antt =====
-- What a run leaves in etcd: the running state reads back, and what clearing a workflow removes.
use gopher_cron.Base.{
  ℕ, ◌+◌, ◌*◌, ◌<◌, Text, [], ◌∷◌, eq_text, true, none, some, has_prefix, nat_eq, beq_false,
  if◌then◌else◌, ◌≡◌, ◌==◌, ◌≢◌, List, All, refl, arith, Option-cases, Bool-cases, ap, ◌∙◌, sym,
  inl, inr, ==_iff, ◌⊎◌,
}
use gopher_cron.Base.Map.{lookup, insert, lookup-insert, lookup-insert_self}
use gopher_cron.Keys.{build_workflow_task_status_key}
use gopher_cron.Keys.Tasks.{has_prefix-build_workflow_task_status_key}
use gopher_cron.Keys.Plans.{
  has_prefix-build_workflow_plan_key, has_prefix-plan_task, has_prefix-task_plan,
  build_workflow_plan_key-injective,
}
use gopher_cron.Workflow.Types.{PlanState, ok, json, corrupt}
use gopher_cron.Workflow.TaskStates.{Docs}
use gopher_cron.Workflow.PlanStates.{
  Plans, delete_prefix, lookup-delete_prefix, plan_key, tasks_prefix, run_first, run_again,
  get_workflow_plan_state, set_workflow_plan_running, clear_workflow_keys,
}

has_prefix_self : (s : Text) → has_prefix s s ≡ true
unfolding has_prefix
has_prefix_self [] = refl
has_prefix_self (c ∷ s) = ground (arith, has_prefix_self s)

-- the number that is written with the digits `ds` behind those of `w`
abbrev pub extended : ℕ → List ℕ → ℕ
extended w [] = w
extended w (d ∷ ds) = extended (w * 10 + d) ds

has_prefix_trans :
    (a b c : Text) → has_prefix a b ≡ true → has_prefix b c ≡ true → has_prefix a c ≡ true
unfolding has_prefix
has_prefix_trans a b [] h k = refl
has_prefix_trans a [] (z ∷ c) h k = cc
has_prefix_trans [] (y ∷ b) (z ∷ c) h k = cc
has_prefix_trans (x ∷ a) (y ∷ b) (z ∷ c) h k = ground (arith, has_prefix_trans a b c)

module _ (etcd_prefix : Text) where
  -- the store that both deletes leave
  abbrev pub cleared : ℕ → Plans → Docs → Plans × Docs
  cleared w plans docs = (clear_workflow_keys etcd_prefix w true true (plans, docs)).0

  -- A plan key is left alone by a delete under a task prefix.
  lookup-cleared_plan :
      (w v : ℕ) (plans : Plans) (docs : Docs)
      → lookup (plan_key etcd_prefix v) (cleared w plans docs).0 ≡ (
          if has_prefix (plan_key etcd_prefix v) (plan_key etcd_prefix w)
          then none
          else lookup (plan_key etcd_prefix v) plans)
  unfolding clear_workflow_keys
  lookup-cleared_plan w v plans docs =
      lookup-delete_prefix (tasks_prefix etcd_prefix w) (plan_key etcd_prefix v)
        (delete_prefix (plan_key etcd_prefix w) plans)
      ∙ rw (has_prefix-task_plan etcd_prefix w v)
          (lookup-delete_prefix (plan_key etcd_prefix w) (plan_key etcd_prefix v) plans)

  under_prefix :
      (w v p : ℕ) (t : Text)
      → has_prefix (build_workflow_task_status_key etcd_prefix v p t) (tasks_prefix etcd_prefix w)
        ≡ (v == w)
  under_prefix w v p t =
      let same = has_prefix-build_workflow_task_status_key etcd_prefix w v p t in
      elim (Bool-cases (v == w)) [
        | inl e ↦ same.1 ((==_iff v w).0 e) ∙ sym e
        | inr n ↦
            elim (Bool-cases (
              has_prefix (build_workflow_task_status_key etcd_prefix v p t)
                (tasks_prefix etcd_prefix w))) [
                  | inl h ↦ let q = same.0 h in ground arith
                  | inr h ↦ h ∙ sym n
                ]
      ]

  lookup-cleared_task :
      (w v p : ℕ) (t : Text) (plans : Plans) (docs : Docs)
      → lookup (build_workflow_task_status_key etcd_prefix v p t) (cleared w plans docs).1
        ≡ (if v == w then none else lookup (build_workflow_task_status_key etcd_prefix v p t) docs)
  unfolding clear_workflow_keys
  lookup-cleared_task w v p t plans docs =
      let key = build_workflow_task_status_key etcd_prefix v p t in
      lookup-delete_prefix (tasks_prefix etcd_prefix w) key
        (delete_prefix (plan_key etcd_prefix w) docs)
      ∙ ap (λ b. if b then none else lookup key (delete_prefix (plan_key etcd_prefix w) docs))
          (under_prefix w v p t)
      ∙ ap (λ o. if v == w then none else o)
          (lookup-delete_prefix (plan_key etcd_prefix w) key docs
            ∙ ap (λ b. if b then none else lookup key docs)
                (has_prefix-plan_task etcd_prefix w v p t))

  -- When both deletes of clearing workflow `w` are carried out, its plan and all its tasks are
  -- gone, and the tasks of every other workflow are as before.
  pub clear_workflow_keys-removed :
      (w : ℕ) (plans : Plans) (docs : Docs)
      → (lookup (plan_key etcd_prefix w) (cleared w plans docs).0 ≡ none)
        × ((v p : ℕ) (t : Text)
            → lookup (build_workflow_task_status_key etcd_prefix v p t) (cleared w plans docs).1 ≡ (
                if v == w
                then none
                else lookup (build_workflow_task_status_key etcd_prefix v p t) docs))
  clear_workflow_keys-removed w plans docs = (
    lookup-cleared_plan w w plans docs
        ∙ ap (λ b. if b then none else lookup (plan_key etcd_prefix w) plans)
            (has_prefix_self (plan_key etcd_prefix w)),
    λ v p t. lookup-cleared_task w v p t plans docs,
  )

  -- a plan key of an id that goes on behind the digits of `w`
  has_prefix-extended :
      (w : ℕ) (ds : List ℕ)
      → 0 < w
      → All (λ d. d < 10) ds
      → has_prefix (plan_key etcd_prefix (extended w ds)) (plan_key etcd_prefix w) ≡ true
  has_prefix-extended w [] h k = has_prefix_self (plan_key etcd_prefix w)
  has_prefix-extended w (d ∷ ds) h (k, ks) =
      has_prefix_trans (plan_key etcd_prefix (extended (w * 10 + d) ds))
        (plan_key etcd_prefix (w * 10 + d)) (plan_key etcd_prefix w)
        (has_prefix-extended (w * 10 + d) ds (omega arith) ks)
        (has_prefix-build_workflow_plan_key etcd_prefix w d h k)

  -- The running state of any workflow whose id is `w`, not zero, with further digits behind it is
  -- removed with `w`.
  pub clear_workflow_keys-neighbour :
      (w : ℕ) (ds : List ℕ) (plans : Plans) (docs : Docs)
      → 0 < w
      → All (λ d. d < 10) ds
      → get_workflow_plan_state etcd_prefix (extended w ds) true (cleared w plans docs).0 ≡ ok none
  unfolding get_workflow_plan_state
  clear_workflow_keys-neighbour w ds plans docs h k =
      let gone =
        lookup-cleared_plan w (extended w ds) plans docs
        ∙ ap (λ b. if b then none else lookup (plan_key etcd_prefix (extended w ds)) plans)
            (has_prefix-extended w ds h k) in
      rw (gone, get_workflow_plan_state) refl

  -- what a new running state comes from
  abbrev pub StartsFrom : ℕ → (now now' : ℕ) → Plans → PlanState → Type 0
  StartsFrom w now now' plans s =
      ((lookup (plan_key etcd_prefix w) plans ≡ none) × (s ≡ run_first w now now'))
      ⊎ ((old : PlanState) × (lookup (plan_key etcd_prefix w) plans ≡ some (json old))
          × (s ≡ run_again now old))

  set_running :
      (w now now' : ℕ) (plans : Plans) (s : PlanState)
      → (set_workflow_plan_running etcd_prefix w true now now' plans).1 ≡ ok s
      → ((set_workflow_plan_running etcd_prefix w true now now' plans).0
          ≡ insert (plan_key etcd_prefix w) (json s) plans)
        × StartsFrom w now now' plans s
  unfolding set_workflow_plan_running
  set_running w now now' plans s e = elim (Option-cases (lookup (plan_key etcd_prefix w) plans)) [
    | inl p ↦
        let q : run_first w now now' ≡ s = let r = rw (p, set_workflow_plan_running) at e in cc in
        (
          rw (p, set_workflow_plan_running)
              (ap (λ x. insert (plan_key etcd_prefix w) (json x) plans) q),
          inl (p, sym q),
        )
    | inr (corrupt, p) ↦ let r = rw (p, set_workflow_plan_running) at e in cc
    | inr (json old, p) ↦
        let q : run_again now old ≡ s = let r = rw (p, set_workflow_plan_running) at e in cc in
        (
          rw (p, set_workflow_plan_running)
              (ap (λ x. insert (plan_key etcd_prefix w) (json x) plans) q),
          inr (old, p, sym q),
        )
  ]

  -- A plan that was set to running reads back as the state that was returned: the old state, set
  -- to running and tried now, or a new one if there was none. The plans of other workflows stay.
  pub get-set_workflow_plan_running :
      (w now now' : ℕ) (plans : Plans) (s : PlanState)
      → (set_workflow_plan_running etcd_prefix w true now now' plans).1 ≡ ok s
      → StartsFrom w now now' plans s
        × (get_workflow_plan_state etcd_prefix w true
              (set_workflow_plan_running etcd_prefix w true now now' plans).0
            ≡ ok (some s))
        × ((v : ℕ)
            → v ≢ w
            → lookup
                (plan_key etcd_prefix v)
                (set_workflow_plan_running etcd_prefix w true now now' plans).0
              ≡ lookup (plan_key etcd_prefix v) plans)
  unfolding get_workflow_plan_state
  get-set_workflow_plan_running w now now' plans s e =
      let (stored, from) = set_running w now now' plans s e in
      (
        from,
        ap (get_workflow_plan_state etcd_prefix w true) stored
            ∙ rw
                (
                  lookup-insert_self (plan_key etcd_prefix w) (json s) plans,
                  get_workflow_plan_state,
                )
                refl,
        λ v n.
            let other : plan_key etcd_prefix w ≢ plan_key etcd_prefix v =
              λ q. n (sym (build_workflow_plan_key-injective etcd_prefix w v q)) in
            ap (lookup (plan_key etcd_prefix v)) stored
            ∙ lookup-insert (plan_key etcd_prefix w) (plan_key etcd_prefix v) (json s) plans
            ∙ ap (λ b. if b then some (json s) else lookup (plan_key etcd_prefix v) plans)
                (beq_false (plan_key etcd_prefix w) (plan_key etcd_prefix v) other),
      )

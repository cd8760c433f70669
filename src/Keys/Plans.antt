-- ===== src/Keys/Plans.antt =====
-- The plan keys of common/protocol.go have no separator at their end, so one can be a prefix of
-- another.
use gopher_cron.Base.{
  ℕ, ◌+◌, ◌*◌, ◌<◌, Text, [], ◌∷◌, ◌≡◌, true, false, has_prefix, has_prefix-append,
  has_prefix-append_left, append_assoc, codes,
}
use gopher_cron.Keys.{
  decimal, build_workflow_plan_key, build_workflow_task_status_key,
  build_workflow_task_status_key_prefix,
}
use gopher_cron.Keys.Decimal.{decimal-snoc, decimal-injective}
use gopher_cron.Keys.Tasks.{append-cancel_left}

module _ (etcd_prefix : Text) where
  -- The plan key of a workflow is a prefix of the plan key of each workflow whose id has one more
  -- decimal digit behind the id of the first.
  pub has_prefix-build_workflow_plan_key :
      (w d : ℕ)
      → 0 < w
      → d < 10
      → has_prefix
          (build_workflow_plan_key etcd_prefix (w * 10 + d))
          (build_workflow_plan_key etcd_prefix w)
        ≡ true
  unfolding build_workflow_plan_key
  has_prefix-build_workflow_plan_key w d h k = rw (has_prefix-append_left etcd_prefix _ _) (
      rw (has_prefix-append_left (codes "/workflow_plan/") (decimal (w * 10 + d)) (decimal w))
        (rw (decimal-snoc w d h k) (has_prefix-append (decimal w) ((b'0' + d) ∷ []))))

  pub build_workflow_plan_key-injective :
      (v w : ℕ)
      → build_workflow_plan_key etcd_prefix v ≡ build_workflow_plan_key etcd_prefix w
      → v ≡ w
  unfolding build_workflow_plan_key
  build_workflow_plan_key-injective v w e =
      decimal-injective v w
        (append-cancel_left (codes "/workflow_plan/") _ _ (append-cancel_left etcd_prefix _ _ e))

  -- No task status key stands under a plan key.
  pub has_prefix-plan_task :
      (w v p : ℕ) (t : Text)
      → has_prefix
          (build_workflow_task_status_key etcd_prefix v p t)
          (build_workflow_plan_key etcd_prefix w)
        ≡ false
  unfolding build_workflow_plan_key build_workflow_task_status_key has_prefix
  has_prefix-plan_task w v p t = simp (append_assoc, has_prefix-append_left)

  -- No plan key stands under a task status prefix.
  pub has_prefix-task_plan :
      (w v : ℕ)
      → has_prefix
          (build_workflow_plan_key etcd_prefix v)
          (build_workflow_task_status_key_prefix etcd_prefix w)
        ≡ false
  unfolding build_workflow_plan_key build_workflow_task_status_key_prefix has_prefix
  has_prefix-task_plan w v = simp has_prefix-append_left

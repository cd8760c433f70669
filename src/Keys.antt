-- ===== src/Keys.antt =====
-- common/protocol.go and common/model.go: the keys under which the center stores its state in
-- etcd, and the index of a workflow task. An id is a database id, so `%d` prints a natural number.
pub mod Decimal
pub mod Parse
pub mod Plans
pub mod Tasks
unfoldable pub use Decimal.{decimal}
use gopher_cron.Base.{ℕ, Text, codes, ◌∷◌, [], ◌++◌}

abbrev pub slash : ℕ
slash = b'/'

abbrev pub underscore : ℕ
underscore = b'_'

abbrev pub temporary : Text
temporary = codes "t_scheduler"

abbrev pub workflow : Text
workflow = codes "t_flow"

abbrev pub status : Text
status = codes "t_status"

-- `ETCD_PREFIX` is "/cron" unless the configuration sets another.
module _ (etcd_prefix : Text) where
  unfoldable pub build_task_update_key : ℕ → Text → Text
  build_task_update_key project_id task_id =
      etcd_prefix ++ (codes "/update/" ++ (decimal project_id ++ slash ∷ task_id))

  unfoldable pub build_key : ℕ → Text → Text
  build_key project_id task_id = etcd_prefix ++ slash ∷ (decimal project_id ++ slash ∷ task_id)

  unfoldable pub build_task_prefix_key : ℕ → Text
  build_task_prefix_key project_id = etcd_prefix ++ slash ∷ (decimal project_id ++ slash ∷ [])

  unfoldable pub build_workflow_add_user_lock_key : ℕ → ℕ → Text
  build_workflow_add_user_lock_key workflow_id user_id =
      etcd_prefix
      ++ (codes "/lock/workflow_user_" ++ (decimal workflow_id ++ underscore ∷ decimal user_id))

  unfoldable pub build_task_status_key : ℕ → Text → Text
  build_task_status_key project_id task_id =
      etcd_prefix ++ slash ∷ (decimal project_id ++ slash ∷ (task_id ++ slash ∷ status))

  unfoldable pub build_workflow_task_status_key_prefix : ℕ → Text
  build_workflow_task_status_key_prefix workflow_id =
      etcd_prefix ++ slash ∷ (workflow ++ slash ∷ (decimal workflow_id ++ slash ∷ []))

  unfoldable pub build_workflow_task_status_key : ℕ → ℕ → Text → Text
  unfolding build_workflow_task_status_key_prefix
  build_workflow_task_status_key workflow_id project_id task_id =
      build_workflow_task_status_key_prefix workflow_id ++ (decimal project_id ++ slash ∷ task_id)

  unfoldable pub build_scheduler_key : ℕ → Text → Text
  build_scheduler_key project_id task_id =
      etcd_prefix ++ slash ∷ (decimal project_id ++ slash ∷ (temporary ++ slash ∷ task_id))

  unfoldable pub build_workflow_scheduler_key : ℕ → ℕ → Text → Text
  build_workflow_scheduler_key workflow_id project_id task_id =
      etcd_prefix
      ++ slash
        ∷ (decimal project_id
            ++ slash ∷ (workflow ++ slash ∷ (decimal workflow_id ++ slash ∷ task_id)))

  unfoldable pub build_lock_key : ℕ → Text → Text
  build_lock_key project_id task_id =
      etcd_prefix ++ (codes "/lock/" ++ (decimal project_id ++ slash ∷ task_id))

  unfoldable pub build_kill_key : ℕ → Text → Text
  build_kill_key project_id task_id =
      etcd_prefix ++ (codes "/kill/" ++ (decimal project_id ++ slash ∷ task_id))

  unfoldable pub build_register_key : ℕ → Text → Text
  build_register_key project_id ip =
      etcd_prefix ++ (codes "/register/" ++ (decimal project_id ++ slash ∷ ip))

  unfoldable pub build_workflow_plan_key : ℕ → Text
  build_workflow_plan_key workflow_id =
      etcd_prefix ++ (codes "/workflow_plan/" ++ decimal workflow_id)

unfoldable pub gen_task_scheduler_key : ℕ → Text → Text
gen_task_scheduler_key project_id task_id = decimal project_id ++ underscore ∷ task_id

unfoldable pub build_workflow_task_index : ℕ → Text → Text
build_workflow_task_index pid tid = decimal pid ++ underscore ∷ tid

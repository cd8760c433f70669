-- ===== src/Keys/Parse.antt =====
-- common/protocol.go: what is read back out of a key.
use gopher_cron.Base.{ℕ, Text, List, [], ◌∷◌, ◌++◌, ◌≡◌, ◌∙◌, ap, arith, All, append_assoc}
use gopher_cron.Base.Split.{trim_prefix, trim_lem, split, Lacks, split-append, split_last}
use gopher_cron.Keys.{
  slash, status, decimal, build_key, build_register_key, build_kill_key, build_task_status_key,
}
use gopher_cron.Keys.Decimal.{IsDigit, decimal-IsDigit}

decimal-Lacks : (s : Text) → All IsDigit s → Lacks slash s
decimal-Lacks [] h = tt
decimal-Lacks (c ∷ s) h = (ground arith, decimal-Lacks s h.1)

parts :
    (name pid tid : Text)
    → Lacks slash name
    → Lacks slash pid
    → Lacks slash tid
    → split slash (slash ∷ (name ++ slash ∷ (pid ++ slash ∷ (tid ++ slash ∷ status))))
      ≡ [] ∷ name ∷ pid ∷ tid ∷ status ∷ []
parts name pid tid h k l =
    split-append slash [] (name ++ slash ∷ (pid ++ slash ∷ (tid ++ slash ∷ status))) tt
    ∙ ap (λ r. [] ∷ r)
        (split-append slash name (pid ++ slash ∷ (tid ++ slash ∷ status)) h
          ∙ ap (λ r. name ∷ r)
              (split-append slash pid (tid ++ slash ∷ status) k
                ∙ ap (λ r. pid ∷ r)
                    (split-append slash tid status l
                      ∙ ap (λ r. tid ∷ r) (split_last slash status (omega arith)))))

-- `sp[2], sp[3]` of five parts, and two empty texts for any other number of parts
third_and_fourth : List Text → Text × Text
third_and_fourth (a ∷ b ∷ pid ∷ tid ∷ e ∷ []) = (pid, tid)
third_and_fourth _ = ([], [])

pub patch_project_id_task_id_from_status_key : Text → Text × Text
unfolding third_and_fourth split
patch_project_id_task_id_from_status_key key = third_and_fourth (split slash key)

module _ (etcd_prefix : Text) where
  pub extract_task_id : ℕ → Text → Text
  unfolding trim_prefix
  extract_task_id project key = trim_prefix key (build_key etcd_prefix project [])

  pub extract_worker_ip : ℕ → Text → Text
  unfolding trim_prefix
  extract_worker_ip project key = trim_prefix key (build_register_key etcd_prefix project [])

  pub extract_kill_id : ℕ → Text → Text
  unfolding trim_prefix
  extract_kill_id project key = trim_prefix key (build_kill_key etcd_prefix project [])

  -- A task id, an agent's ip and a kill id are read back from the keys that are built for them.
  pub extract-build :
      (project : ℕ) (name : Text)
      → (extract_task_id project (build_key etcd_prefix project name) ≡ name)
        × (extract_worker_ip project (build_register_key etcd_prefix project name) ≡ name)
        × (extract_kill_id project (build_kill_key etcd_prefix project name) ≡ name)
  unfolding extract_task_id build_key extract_worker_ip build_register_key extract_kill_id
      build_kill_key
  extract-build project name = (
    trim_lem (build_key etcd_prefix project name) (build_key etcd_prefix project []) name
        (simp append_assoc),
    trim_lem (build_register_key etcd_prefix project name)
        (build_register_key etcd_prefix project []) name (simp append_assoc),
    trim_lem (build_kill_key etcd_prefix project name) (build_kill_key etcd_prefix project []) name
        (simp append_assoc),
  )

  -- Under a prefix of one segment, such as "/cron", the project and the task of a status key are
  -- read back from it, if no slash stands in the task id.
  pub patch-build_task_status_key :
      (name : Text) (project_id : ℕ) (task_id : Text)
      → etcd_prefix ≡ slash ∷ name
      → Lacks slash name
      → Lacks slash task_id
      → patch_project_id_task_id_from_status_key
          (build_task_status_key etcd_prefix project_id task_id)
        ≡ (decimal project_id, task_id)
  unfolding patch_project_id_task_id_from_status_key build_task_status_key
  patch-build_task_status_key name project_id task_id e h k = rw e (
      ap third_and_fourth (
        parts name (decimal project_id) task_id h
          (decimal-Lacks (decimal project_id) (decimal-IsDigit project_id)) k))

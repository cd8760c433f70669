-- ===== src/Center/Tasks.antt =====
-- app/etcd.go: `SaveTask` and `DeleteTask`, which store a task and tell the agents. `SaveTask` runs
-- under the lock of the task; that one of its ten tries got the lock is an argument.
use gopher_cron.Base.{ℕ, zero, suc, Text, eq_text, Bool, Option, none, some, if◌then◌else◌}
use gopher_cron.Base.Map.{lookup, insert}
use gopher_cron.Keys.{build_key}
use gopher_cron.Lock.{Write, answered, lost_before, lost_after}
use gopher_cron.Workflow.PlanStates.{delete_prefix}
use gopher_cron.Workflow.Types.{Doc, json, corrupt}
use gopher_cron.Center.{
  StoredTask, put_event, delete_event, Center, bad_request, locked, internal, Reply, answer, refuse,
  dispatch, Fetched, fetched, not_found, fetch_error, get_task,
}
use gopher_cron.Center.Running.{written}

pub record SaveAnswers : Type 0 where
  pub got_lock : Bool
  pub read : Bool
  pub send : Write
  pub put : Write

-- A task that is saved without a running status keeps the one it had.
abbrev pub keep_running : StoredTask → StoredTask → StoredTask
keep_running old task = elim task.is_running [
  | none ↦ record task { is_running = old.is_running; client_ip = old.client_ip }
  | some r ↦ task
]

-- What the calls of `DeleteTask` answer: how many workflows use the task, and so on.
pub record DeleteAnswers : Type 0 where
  pub used : Option ℕ
  pub read : Bool
  pub send : Write
  pub delete : Write

module _ (etcd_prefix : Text) where
  abbrev pub task_key : StoredTask → Text
  task_key task = build_key etcd_prefix task.project_id task.task_id

  abbrev pub put_task : Write → StoredTask → Center → Center
  put_task w task c = record c {
    tasks = written w c.tasks (insert (task_key task) (json task) c.tasks);
  }

  -- the events are sent first, then the task is put; `old` is what is returned
  unfoldable pub send_and_put :
      (send put : Write) (old task : StoredTask) → Center → Center × Reply StoredTask
  send_and_put lost_before put old task c = (c, refuse internal)
  send_and_put lost_after put old task c = (dispatch (put_event task) c, refuse internal)
  send_and_put answered answered old task c =
      (put_task answered task (dispatch (put_event task) c), answer old)
  send_and_put answered put old task c =
      (put_task put task (dispatch (put_event task) c), refuse internal)

  unfoldable pub save_fetched :
      SaveAnswers → StoredTask → Center → Fetched → Center × Reply StoredTask
  unfolding send_and_put
  save_fetched a task c fetch_error = (c, refuse internal)
  save_fetched a task c not_found = send_and_put a.send a.put task task c
  save_fetched a task c (fetched old) = send_and_put a.send a.put old (keep_running old task) c

  unfoldable pub save_task : SaveAnswers → StoredTask → Center → Center × Reply StoredTask
  unfolding save_fetched get_task
  save_task a task c =
      if a.got_lock
      then save_fetched a task c (get_task etcd_prefix a.read task.project_id task.task_id c)
      else (c, refuse locked)

  -- the old task, where it decodes
  abbrev pub old_task : Doc StoredTask → Option StoredTask
  old_task corrupt = none
  old_task (json t) = some t

  -- every key that begins with the key of the task is deleted, its status key among them
  abbrev pub delete_keys : Write → (project_id : ℕ) (task_id : Text) → Center → Center
  delete_keys w project_id task_id c = record c {
    tasks = written w c.tasks (delete_prefix (build_key etcd_prefix project_id task_id) c.tasks);
    status_keys =
        written w c.status_keys
          (delete_prefix (build_key etcd_prefix project_id task_id) c.status_keys);
  }

  unfoldable pub send_and_delete :
      (send delete : Write) (project_id : ℕ) (task_id : Text)
      → Center
      → Doc StoredTask
      → Center × Reply (Option StoredTask)
  send_and_delete lost_before delete project_id task_id c doc = (c, refuse internal)
  send_and_delete lost_after delete project_id task_id c doc =
      (dispatch (delete_event doc) c, refuse internal)
  send_and_delete answered answered project_id task_id c doc = (
    delete_keys answered project_id task_id (dispatch (delete_event doc) c),
    answer (old_task doc),
  )
  send_and_delete answered delete project_id task_id c doc =
      (delete_keys delete project_id task_id (dispatch (delete_event doc) c), refuse internal)

  unfoldable pub delete_found :
      DeleteAnswers
      → (project_id : ℕ) (task_id : Text) → Center
      → Option (Doc StoredTask)
      → Center × Reply (Option StoredTask)
  unfolding send_and_delete
  delete_found a project_id task_id c none = (c, refuse bad_request)
  delete_found a project_id task_id c (some doc) =
      send_and_delete a.send a.delete project_id task_id c doc

  unfoldable pub delete_unused :
      DeleteAnswers
      → (project_id : ℕ) (task_id : Text) → Center
      → Center × Reply (Option StoredTask)
  unfolding delete_found
  delete_unused a project_id task_id c =
      if a.read
      then delete_found a project_id task_id c
          (lookup (build_key etcd_prefix project_id task_id) c.tasks)
      else (c, refuse internal)

  unfoldable pub delete_counted :
      Option ℕ
      → DeleteAnswers
      → (project_id : ℕ) (task_id : Text) → Center
      → Center × Reply (Option StoredTask)
  unfolding delete_unused
  delete_counted none a project_id task_id c = (c, refuse internal)
  delete_counted (some zero) a project_id task_id c = delete_unused a project_id task_id c
  delete_counted (some (suc n)) a project_id task_id c = (c, refuse bad_request)

  unfoldable pub delete_task :
      DeleteAnswers
      → (project_id : ℕ) (task_id : Text) → Center
      → Center × Reply (Option StoredTask)
  unfolding delete_counted
  delete_task a project_id task_id c = delete_counted a.used a project_id task_id c

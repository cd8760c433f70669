-- ===== src/Center/Stores.antt =====
-- Which tasks are stored after a save, a delete and a kill: the proofs on `SaveTask`, `DeleteTask`
-- and `KillTask`.
use gopher_cron.Base.{
  ℕ, zero, suc, Text, [], ◌∷◌, ◌++◌, ◌≡◌, refl, eq_text, Bool, true, false, Option, none, some, ap,
  ◌∙◌, subst, has_prefix, has_prefix-append, has_prefix-append_left, if◌then◌else◌,
}
use gopher_cron.Base.Map.{lookup, lookup-insert_self}
use gopher_cron.Keys.{build_key, slash, decimal}
use gopher_cron.Lock.{Write, answered, lost_before, lost_after}
use gopher_cron.Workflow.PlanStates.{lookup-delete_prefix}
use gopher_cron.Workflow.Types.{Doc, json}
use gopher_cron.Center.{
  StoredTask, Center, Reply, answer, refuse, Fetched, fetched, not_found, fetch_error, get_task,
  fetched_doc, internal, locked,
}
use gopher_cron.Center.Tasks.{
  SaveAnswers, keep_running, task_key, put_task, send_and_put, save_fetched, save_task,
  DeleteAnswers, send_and_delete, delete_found, delete_unused, delete_counted, delete_task,
}

module _ (etcd_prefix : Text) where
  -- The running status and the agent that a save stores, from those of the saved task and what was
  -- there before.
  abbrev kept_status : Option ℕ → Fetched → Option ℕ
  kept_status (some s) before = some s
  kept_status none (fetched old) = old.is_running
  kept_status none _ = none

  abbrev kept_agent : Option ℕ → Text → Fetched → Text
  kept_agent (some s) ip before = ip
  kept_agent none ip (fetched old) = old.client_ip
  kept_agent none ip _ = ip

  abbrev pub saved : StoredTask → Fetched → StoredTask
  saved task before = record task {
    is_running = kept_status task.is_running before;
    client_ip = kept_agent task.is_running task.client_ip before;
  }

  -- what is stored where there was no task
  abbrev saved_new : StoredTask → Option ℕ → StoredTask
  saved_new task o = record task {
    is_running = kept_status o not_found;
    client_ip = kept_agent o task.client_ip not_found;
  }

  new-saved : (task : StoredTask) → task ≡ saved task not_found
  new-saved task = go task.is_running refl
    where
      go : (o : Option ℕ) → task.is_running ≡ o → task ≡ saved_new task o
      go none e = ap (λ x. record task { is_running = x }) e
      go (some s) e = ap (λ x. record task { is_running = x }) e

  abbrev saved_over : StoredTask → StoredTask → Option ℕ → StoredTask
  saved_over old task o = record task {
    is_running = kept_status o (fetched old);
    client_ip = kept_agent o task.client_ip (fetched old);
  }

  keep_running-saved : (old task : StoredTask) → keep_running old task ≡ saved task (fetched old)
  keep_running-saved old task = go task.is_running refl
    where
      after : Option ℕ → StoredTask
      after none = record task { is_running = old.is_running; client_ip = old.client_ip }
      after (some s) = task

      go : (o : Option ℕ) → task.is_running ≡ o → after o ≡ saved_over old task o
      go none e = refl
      go (some s) e = ap (λ x. record task { is_running = x }) e

  abbrev pub IsStored : StoredTask → Center → Type 0
  IsStored t c = get_task etcd_prefix true t.project_id t.task_id c ≡ fetched t

  get-put : (task : StoredTask) (c : Center) → IsStored task (put_task etcd_prefix answered task c)
  unfolding get_task
  get-put task c = rw (lookup-insert_self (task_key etcd_prefix task) (json task) c.tasks)

  send_and_put-IsStored :
      (send put : Write) (old task r : StoredTask) (c : Center)
      → (send_and_put etcd_prefix send put old task c).1 ≡ answer r
      → IsStored task (send_and_put etcd_prefix send put old task c).0
  unfolding send_and_put
  send_and_put-IsStored lost_before put old task r c h = cc
  send_and_put-IsStored lost_after put old task r c h = cc
  send_and_put-IsStored answered answered old task r c h = get-put task _
  send_and_put-IsStored answered lost_before old task r c h = cc
  send_and_put-IsStored answered lost_after old task r c h = cc

  save_fetched-IsStored :
      (a : SaveAnswers) (task r : StoredTask) (c : Center) (f : Fetched)
      → (save_fetched etcd_prefix a task c f).1 ≡ answer r
      → IsStored (saved task f) (save_fetched etcd_prefix a task c f).0
  unfolding save_fetched
  save_fetched-IsStored a task r c fetch_error h = cc
  save_fetched-IsStored a task r c not_found h =
      subst (λ t. IsStored t (send_and_put etcd_prefix a.send a.put task task c).0) (new-saved task)
        (send_and_put-IsStored a.send a.put task task r c h)
  save_fetched-IsStored a task r c (fetched old) h =
      subst
        (λ t. IsStored t (send_and_put etcd_prefix a.send a.put old (keep_running old task) c).0)
        (keep_running-saved old task)
        (send_and_put-IsStored a.send a.put old (keep_running old task) r c h)

  -- A save that returns no error is read back: the task is stored as given, but for the running
  -- status and the agent, which a save without a running status keeps from the task that was there.
  pub save_task-IsStored :
      (a : SaveAnswers) (task r : StoredTask) (c : Center)
      → (save_task etcd_prefix a task c).1 ≡ answer r
      → IsStored
          (saved task (get_task etcd_prefix a.read task.project_id task.task_id c))
          (save_task etcd_prefix a task c).0
  unfolding save_task
  save_task-IsStored a task r c h = go a.got_lock h
    where
      after : Bool → Center × Reply StoredTask
      after b =
          if b
          then save_fetched etcd_prefix a task c
              (get_task etcd_prefix a.read task.project_id task.task_id c)
          else (c, refuse locked)

      go :
          (b : Bool)
          → (after b).1 ≡ answer r
          → IsStored
              (saved task (get_task etcd_prefix a.read task.project_id task.task_id c))
              (after b).0
      go true q =
          save_fetched-IsStored a task r c
            (get_task etcd_prefix a.read task.project_id task.task_id c) q
      go false q = cc

  -- the keys that are left
  abbrev pub Removed : (pid : ℕ) (tid : Text) → Center → Center → Type 0
  Removed pid tid c c' =
      ((k : Text)
        → lookup k c'.tasks
          ≡ (if has_prefix k (build_key etcd_prefix pid tid) then none else lookup k c.tasks))
      × ((k : Text)
          → lookup k c'.status_keys ≡ (
              if has_prefix k (build_key etcd_prefix pid tid)
              then none
              else lookup k c.status_keys))

  send_and_delete-Removed :
      (send delete : Write) (pid : ℕ) (tid : Text) (c : Center) (doc : Doc StoredTask)
      (r : Option StoredTask)
      → (send_and_delete etcd_prefix send delete pid tid c doc).1 ≡ answer r
      → Removed pid tid c (send_and_delete etcd_prefix send delete pid tid c doc).0
  unfolding send_and_delete
  send_and_delete-Removed lost_before delete pid tid c doc r h = cc
  send_and_delete-Removed lost_after delete pid tid c doc r h = cc
  send_and_delete-Removed answered answered pid tid c doc r h = (
    λ k. lookup-delete_prefix (build_key etcd_prefix pid tid) k c.tasks,
    λ k. lookup-delete_prefix (build_key etcd_prefix pid tid) k c.status_keys,
  )
  send_and_delete-Removed answered lost_before pid tid c doc r h = cc
  send_and_delete-Removed answered lost_after pid tid c doc r h = cc

  delete_found-Removed :
      (a : DeleteAnswers) (pid : ℕ) (tid : Text) (c : Center) (o : Option (Doc StoredTask))
      (r : Option StoredTask)
      → (delete_found etcd_prefix a pid tid c o).1 ≡ answer r
      → Removed pid tid c (delete_found etcd_prefix a pid tid c o).0
  unfolding delete_found
  delete_found-Removed a pid tid c none r h = cc
  delete_found-Removed a pid tid c (some doc) r h =
      send_and_delete-Removed a.send a.delete pid tid c doc r h

  delete_unused-Removed :
      (a : DeleteAnswers) (pid : ℕ) (tid : Text) (c : Center) (r : Option StoredTask)
      → (delete_unused etcd_prefix a pid tid c).1 ≡ answer r
      → Removed pid tid c (delete_unused etcd_prefix a pid tid c).0
  unfolding delete_unused
  delete_unused-Removed a pid tid c r h = go a.read h
    where
      after : Bool → Center × Reply (Option StoredTask)
      after b =
          if b
          then delete_found etcd_prefix a pid tid c (lookup (build_key etcd_prefix pid tid) c.tasks)
          else (c, refuse internal)

      go : (b : Bool) → (after b).1 ≡ answer r → Removed pid tid c (after b).0
      go true q =
          delete_found-Removed a pid tid c (lookup (build_key etcd_prefix pid tid) c.tasks) r q
      go false q = cc

  delete_counted-Removed :
      (n : Option ℕ) (a : DeleteAnswers) (pid : ℕ) (tid : Text) (c : Center) (r : Option StoredTask)
      → (delete_counted etcd_prefix n a pid tid c).1 ≡ answer r
      → (n ≡ some 0) × Removed pid tid c (delete_counted etcd_prefix n a pid tid c).0
  unfolding delete_counted
  delete_counted-Removed none a pid tid c r h = cc
  delete_counted-Removed (some zero) a pid tid c r h = (refl, delete_unused-Removed a pid tid c r h)
  delete_counted-Removed (some (suc n)) a pid tid c r h = cc

  -- A delete that returns no error is one of a task that no workflow uses, and it removes just the
  -- keys of tasks and of running tasks that begin with the key of the task.
  pub delete_task-Removed :
      (a : DeleteAnswers) (pid : ℕ) (tid : Text) (c : Center) (r : Option StoredTask)
      → (delete_task etcd_prefix a pid tid c).1 ≡ answer r
      → (a.used ≡ some 0) × Removed pid tid c (delete_task etcd_prefix a pid tid c).0
  unfolding delete_task
  delete_task-Removed a pid tid c r h = delete_counted-Removed a.used a pid tid c r h

  has_prefix-build_key :
      (pid : ℕ) (tid more : Text)
      → has_prefix (build_key etcd_prefix pid (tid ++ more)) (build_key etcd_prefix pid tid) ≡ true
  unfolding build_key
  has_prefix-build_key pid tid more =
      has_prefix-append_left etcd_prefix _ _
      ∙ has_prefix-append_left (slash ∷ []) _ _
      ∙ has_prefix-append_left (decimal pid) _ _
      ∙ has_prefix-append_left (slash ∷ []) _ _
      ∙ has_prefix-append tid more

  -- A delete that returns no error also removes every task of the project whose id goes on behind
  -- the id that was given.
  pub delete_task-neighbour :
      (a : DeleteAnswers) (pid : ℕ) (tid more : Text) (c : Center) (r : Option StoredTask)
      → (delete_task etcd_prefix a pid tid c).1 ≡ answer r
      → get_task etcd_prefix true pid (tid ++ more) (delete_task etcd_prefix a pid tid c).0
        ≡ not_found
  unfolding get_task
  delete_task-neighbour a pid tid more c r h =
      let (unused, (removed, other)) = delete_task-Removed a pid tid c r h in
      ap fetched_doc (
        removed (build_key etcd_prefix pid (tid ++ more))
        ∙ ap (λ b. if b then none else lookup (build_key etcd_prefix pid (tid ++ more)) c.tasks)
            (has_prefix-build_key pid tid more))

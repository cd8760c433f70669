-- ===== src/Center/Offline.antt =====
-- What the reset of a run does where no agent runs the task: the proofs on
-- `CheckTaskIsRunningWithResetStatus`.
use gopher_cron.Base.{
  ℕ, Text, List, [], ◌∷◌, ◌≡◌, refl, sym, eq_text, true, false, ◌==◌, Option, none, some, arith,
  text_eq, text_eq_iff, has_prefix, has_prefix-append, ◌++◌, ==_iff, beq_refl, ◌∙◌,
}
use gopher_cron.Base.Map.{lookup, erase, lookup-erase}
use gopher_cron.Keys.{build_task_status_key}
use gopher_cron.Lock.{answered}
use gopher_cron.Workflow.Types.{fail, json}
use gopher_cron.Logs.{TaskLog, get_one, create_or_update_task_log}
use gopher_cron.Logs.Runs.{one-create_or_update-some, one-get_one, one-keys}
use gopher_cron.Center.{
  publish, task_status_changed, Kept, StoredTask, TaskRunningInfo, Center, answer, get_task,
  fetched,
}
use gopher_cron.Center.Running.{del_task_running_key}
use gopher_cron.Center.Check.{Agent, says, contains, ask, ask_agents, check_task_is_running}
use gopher_cron.Center.Reset.{
  ResetAnswers, after_delete, ended_log, end_run, reset_found, reset_log, after_wait, after_check,
  falls, wait_for, check_task_is_running_with_reset_status,
}

-- the calls of the reset that write are answered
abbrev pub AreAnswered : ResetAnswers → Type 0
AreAnswered a =
    (a.read_log ≡ true) × (a.write_log ≡ true) × (a.delete_key ≡ answered) × (a.commit ≡ true)

contains_prefix : (s p : Text) → has_prefix s p ≡ true → contains s p ≡ true
unfolding contains
contains_prefix [] p h = h
contains_prefix (b ∷ s) p h = rw h

module _ (etcd_prefix : Text) (result_json : (result error operator : Text) → Text)
    (offline : Text → Text) where
  -- what is left of a run whose agent is gone
  abbrev pub IsOver : ℕ → (pid : ℕ) (tid tmp : Text) → TaskRunningInfo → TaskLog → Center → Type 0
  IsOver now pid tid tmp memory log c =
      (lookup (build_task_status_key etcd_prefix pid tid) c.status_keys ≡ none)
      × (get_one pid tid tmp c.table
          ≡ some (ended_log etcd_prefix result_json offline now memory.agent_ip log))

  -- the state that it leaves
  abbrev over : ℕ → (pid : ℕ) (tid tmp : Text) → TaskRunningInfo → TaskLog → Center → Center
  over now pid tid tmp memory log c =
      publish (task_status_changed pid tid memory.tmp_id fail) (record c {
        status_keys = erase (build_task_status_key etcd_prefix pid tid) c.status_keys;
        table =
            create_or_update_task_log true now
              (ended_log etcd_prefix result_json offline now memory.agent_ip log) c.table;
      })

  end_run-over :
      (a : ResetAnswers) (pid : ℕ) (tid tmp : Text) (memory : TaskRunningInfo)
      (check : List TaskRunningInfo) (log : TaskLog) (c : Center)
      → AreAnswered a
      → text_eq memory.tmp_id tmp ≡ true
      → end_run etcd_prefix result_json offline a pid tid tmp memory check log c
        ≡ (over a.now pid tid tmp memory log c, answer check)
  unfolding end_run del_task_running_key after_delete
  end_run-over a pid tid tmp memory check log c (r, w, d, m) e = rw (w, e, d, m)

  over-IsOver :
      (now pid : ℕ) (tid tmp : Text) (memory : TaskRunningInfo) (log : TaskLog) (c : Center)
      → get_one pid tid tmp c.table ≡ some log
      → IsOver now pid tid tmp memory log (over now pid tid tmp memory log c)
  over-IsOver now pid tid tmp memory log c h = (
    rw (
      lookup-erase (build_task_status_key etcd_prefix pid tid)
          (build_task_status_key etcd_prefix pid tid) c.status_keys,
      beq_refl (build_task_status_key etcd_prefix pid tid),
    ),
    sym (one-keys pid tid tmp c.table _ h)
        ∙ one-create_or_update-some now
            (ended_log etcd_prefix result_json offline now memory.agent_ip log) log c.table
            (one-get_one pid tid tmp c.table h) refl,
  )

  -- The switch falls through where no agent says that it runs the task.
  wait_for-falls :
      (a : ResetAnswers) (memory : TaskRunningInfo) (task : StoredTask)
      → wait_for a memory [] (fetched task) ≡ falls
  unfolding wait_for
  wait_for-falls a memory task = ground arith

  reset_log-over :
      (a : ResetAnswers) (pid : ℕ) (tid tmp : Text) (memory : TaskRunningInfo)
      (check : List TaskRunningInfo) (log : TaskLog) (c : Center)
      → AreAnswered a
      → text_eq memory.tmp_id tmp ≡ true
      → get_one pid tid tmp c.table ≡ some log
      → (log.end_time == 0) ≡ true
      → reset_log etcd_prefix result_json offline a pid tid tmp memory check c
        ≡ (over a.now pid tid tmp memory log c, answer check)
  unfolding reset_log reset_found
  reset_log-over a pid tid tmp memory check log c (r, w, d, m) same h e =
      rw (r, h, e) (end_run-over a pid tid tmp memory check log c (r, w, d, m) same)

  pub check_task_is_running_with_reset_status-IsOver :
      (a : ResetAnswers) (pid : ℕ) (tid : Text) (memory : TaskRunningInfo) (task : StoredTask)
      (log : TaskLog) (c : Center)
      → AreAnswered a
      → check_task_is_running etcd_prefix a.read_key a.agents pid tid c ≡ answer (memory, [])
      → get_task etcd_prefix a.read_task pid tid c ≡ fetched task
      → get_one pid tid memory.tmp_id c.table ≡ some log
      → log.end_time ≡ 0
      → IsOver a.now pid tid memory.tmp_id memory log
          (check_task_is_running_with_reset_status etcd_prefix result_json offline a pid tid
            memory.tmp_id c).0
        × ((check_task_is_running_with_reset_status etcd_prefix result_json offline a pid tid
              memory.tmp_id c).1
            ≡ answer [])
  unfolding check_task_is_running_with_reset_status after_check after_wait
  check_task_is_running_with_reset_status-IsOver a pid tid memory task log c w run stored h e =
      let same = (text_eq_iff memory.tmp_id memory.tmp_id).1 refl in
      let reset =
        reset_log-over a pid tid memory.tmp_id memory [] log c w same h
          ((==_iff log.end_time 0).1 e) in
      rw (run, same, stored, wait_for-falls a memory task, reset)
        (over-IsOver a.now pid tid memory.tmp_id memory log c h, refl)

  contains-append : (s t : Text) → contains (s ++ t) s ≡ true
  unfolding contains
  contains-append s t = contains_prefix (s ++ t) s (has_prefix-append s t)

  -- the first agent answers for the other
  asked :
      (a : ResetAnswers) (pid : ℕ) (tid : Text) (kept : Kept) (memory : TaskRunningInfo)
      (c : Center) (more port : Text) (agents : List Agent) (clients : Option (List Agent))
      → a.read_key ≡ true
      → a.agents ≡ record {
        streams = some (
            record { addr = memory.agent_ip ++ more; is_running = says false }
            ∷ record { addr = memory.agent_ip ++ port; is_running = says true }
            ∷ agents);
        clients = clients;
      }
      → lookup (build_task_status_key etcd_prefix pid tid) c.status_keys ≡ some kept
      → kept.value ≡ json memory
      → check_task_is_running etcd_prefix a.read_key a.agents pid tid c ≡ answer (memory, [])
  unfolding check_task_is_running ask_agents ask
  asked a pid tid kept memory c more port agents clients read found at value =
      rw (read, found, at, value, contains-append memory.agent_ip more)

  -- Where the first agent of the list has an address that begins with the recorded address but
  -- goes on, and says that it does not run the task, the run of the recorded agent is over after the
  -- reset, though that agent is in the list and says that it runs the task: with etcd read, a stored
  -- task, a log that has not ended, and the calls that write answered.
  pub check_task_is_running_with_reset_status-neighbour :
      (a : ResetAnswers) (pid : ℕ) (tid : Text) (kept : Kept) (memory : TaskRunningInfo)
      (task : StoredTask) (log : TaskLog) (c : Center) (more port : Text) (agents : List Agent)
      (clients : Option (List Agent))
      → AreAnswered a
      → a.read_key ≡ true
      → a.agents ≡ record {
        streams = some (
            record { addr = memory.agent_ip ++ more; is_running = says false }
            ∷ record { addr = memory.agent_ip ++ port; is_running = says true }
            ∷ agents);
        clients = clients;
      }
      → lookup (build_task_status_key etcd_prefix pid tid) c.status_keys ≡ some kept
      → kept.value ≡ json memory
      → get_task etcd_prefix a.read_task pid tid c ≡ fetched task
      → get_one pid tid memory.tmp_id c.table ≡ some log
      → log.end_time ≡ 0
      → IsOver a.now pid tid memory.tmp_id memory log
          (check_task_is_running_with_reset_status etcd_prefix result_json offline a pid tid
            memory.tmp_id c).0
  check_task_is_running_with_reset_status-neighbour a pid tid kept memory task log c more port
        agents clients w read found at value stored h e =
      (check_task_is_running_with_reset_status-IsOver a pid tid memory task log c w
        (asked a pid tid kept memory c more port agents clients read found at value) stored h e).0

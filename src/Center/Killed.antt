-- ===== src/Center/Killed.antt =====
-- What a kill leaves of a run whose agent is gone: the proofs on `KillTask`.
use gopher_cron.Base.{ℕ, Text, true}
use gopher_cron.Logs.{TaskLog, Table, create_or_update_task_log}
use gopher_cron.Center.{TaskRunningInfo, Center}
use gopher_cron.Center.Reset.{ended_log}

module _ (etcd_prefix : Text) (result_json : (result error operator : Text) → Text)
    (offline : Text → Text) where
  -- the table behind the call, and what the delete of the key says
  abbrev ended_table : ℕ → TaskRunningInfo → TaskLog → Center → Table
  ended_table now memory log c =
      create_or_update_task_log true now
        (ended_log etcd_prefix result_json offline now memory.agent_ip log) c.table

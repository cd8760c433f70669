-- ===== src/Center/Session.antt =====
-- cmd/service/rpc.go: `TryLock`, the stream on which an agent takes the lock of a task, holds it,
-- and gives it back by closing the stream. The heartbeats that are sent meanwhile, and the sleep
-- before the unlock of a v2.4.7 agent, are left out.
use gopher_cron.Base.{
  ℕ, Text, List, [], ◌∷◌, ◌++◌, codes, Bool, true, not, ◌==◌, Option, none, some, text_eq,
  if◌then◌else◌,
}
use gopher_cron.Keys.{build_lock_key}
use gopher_cron.Lock.{
  Write, Kvs, Locker, Replies, LockError, Attempt, lock_already_required, try_lock_with_owner,
  unlock, init_locker,
}
use gopher_cron.Logs.{TaskLog, Table, get_one}

-- `TryLockRequest` of type `LOCK`
pub record Request : Type 0 where
  pub project_id : ℕ
  pub task_id : Text
  pub task_tmp_id : Text
  pub agent_ip : Text

-- What is received: a request to lock, with etcd's replies, whether the log could be read, the
-- table at that time, and whether the reply could be sent; or an unlock, an error or nothing.
pub record Asked : Type 0 where
  pub request : Request
  pub replies : Replies
  pub read_log : Bool
  pub table : Table
  pub sent : Bool

-- How a stream ends: in peace, or with a status.
pub data Ended : Type 0 where
  closed permission_denied unauthenticated already_locked lock_failed log_failed task_ended
        task_running send_failed :
      Ended

-- The agent on the stream: the projects its token allows, where it has one, and its address; and
-- how etcd ends the revoke of the deferred unlock.
pub record Peer : Type 0 where
  pub allow : Option (ℕ → Bool)
  pub revoked : Write
  pub agent_ip : Option Text

abbrev pub is_allowed : Peer → ℕ → Bool
is_allowed peer project_id = elim peer.allow [ none ↦ true | some allow ↦ allow project_id ]

abbrev pub owner : Text → Request → Text
owner agent_ip r = agent_ip ++ codes ":" ++ r.task_tmp_id

-- what the log of the run says against the lock
unfoldable pub check_run : Request → Option TaskLog → Option Ended
check_run r none = none
check_run r (some log) =
    if not (log.end_time == 0)
    then some task_ended
    else if text_eq log.client_ip r.agent_ip
    then none
    else some task_running

abbrev pub lock_error : LockError → Ended
lock_error lock_already_required = already_locked
lock_error _ = lock_failed

-- what happens behind the attempt: `none` goes on with the loop
unfoldable pub after_lock : Asked → Option LockError → Option Ended
unfolding check_run get_one
after_lock q (some e) = some (lock_error e)
after_lock q none =
    if not q.read_log
    then some log_failed
    else elim (check_run q.request
        (get_one q.request.project_id q.request.task_id q.request.task_tmp_id q.table)) [
          | some ended ↦ some ended
          | none ↦ if q.sent then none else some send_failed
        ]

abbrev pub attempted : Asked → Attempt → Option Locker × Kvs × Option Ended
attempted q (tl, kvs, e) = (some tl, kvs, after_lock q e)

-- The deferred call unlocks the last locker that was made.
abbrev pub unlock_last : (revoked : Write) → Option Locker → Kvs → Kvs
unlock_last revoked none kvs = kvs
unlock_last revoked (some tl) kvs = (unlock revoked tl kvs).1

-- What follows a round: the end of the stream, or the rest of the loop.
abbrev pub go_on :
    (revoked : Write)
    → (Option Locker → Kvs → (List Kvs × Kvs) × Ended)
    → Option Locker × Kvs × Option Ended
    → (List Kvs × Kvs) × Ended
go_on revoked rest (last, kvs, some ended) = (([], unlock_last revoked last kvs), ended)
go_on revoked rest (last, kvs, none) =
    let ((seen, final), ended) = rest last kvs in ((kvs ∷ seen, final), ended)

module _ (etcd_prefix : Text) where
  abbrev pub task_locker : Request → Locker
  task_locker r = init_locker (build_lock_key etcd_prefix r.project_id r.task_id)

  -- One round of the loop: the locker that it leaves, the keys, and how the stream ends, if it
  -- does.
  unfoldable pub lock_round :
      Peer → (agent_ip : Text) → Asked → Option Locker → Kvs → Option Locker × Kvs × Option Ended
  unfolding after_lock
  lock_round peer agent_ip q last kvs =
      if is_allowed peer q.request.project_id
      then attempted q
          (try_lock_with_owner q.replies (owner agent_ip q.request) (task_locker q.request) kvs)
      else (last, kvs, some unauthenticated)

  -- The keys after each reply, latest last, and after the stream.
  unfoldable pub session_loop :
      Peer → (agent_ip : Text) → List Asked → Option Locker → Kvs → (List Kvs × Kvs) × Ended
  unfolding lock_round
  session_loop peer agent_ip [] last kvs = (([], unlock_last peer.revoked last kvs), closed)
  session_loop peer agent_ip (q ∷ qs) last kvs =
      go_on peer.revoked (λ last' kvs'. session_loop peer agent_ip qs last' kvs')
        (lock_round peer agent_ip q last kvs)

  unfoldable pub try_lock_session : Peer → List Asked → Kvs → (List Kvs × Kvs) × Ended
  unfolding session_loop
  try_lock_session peer asked kvs = elim peer.agent_ip [
    | none ↦ (([], kvs), permission_denied)
    | some agent_ip ↦ session_loop peer agent_ip asked none kvs
  ]

-- ===== src/Workflow/TaskStates/Records.antt =====
-- What holds of the stored state of a task after any calls that report a success or a failure.
use gopher_cron.Base.{
  ℕ, ◌+◌, ◌≤◌, List, [], ◌∷◌, ◌++◌, Bool, true, false, Option, none, some, ◌≡◌, arith, All,
  get_last?, get_last?-snoc, if-elim, eq_text, Text,
}
use gopher_cron.Base.Map.{lookup}
use gopher_cron.Workflow.Types.{
  Status, starting, running, not_running, done, fail, WorkflowTaskStates, json, corrupt,
  workflow_schedule_limit,
}
use gopher_cron.Workflow.TaskStates.{
  Row, finish_row, not_running_row, running_row, starting_row, settle, start_first, start_again,
  Docs,
}
use gopher_cron.Workflow.TaskStates.Runs.{
  Call, finish, mark_not_running, mark_running, start, Entry, update, apply, apply_all, target,
  at_target, lookup-apply,
}

abbrev pub one_if_starting : Status → ℕ
one_if_starting starting = 1
one_if_starting _ = 0

-- How many rows record a start.
pub starts : List Row → ℕ
starts [] = 0
starts (r ∷ rs) = one_if_starting r.status + starts rs

starts-snoc :
    (rs : List Row) (r : Row) → starts (rs ++ r ∷ []) ≡ starts rs + one_if_starting r.status
unfolding starts
starts-snoc [] r = omega arith
starts-snoc (x ∷ rs) r = omega (arith, starts-snoc rs r)

-- The statuses that the latest row may have under a current status.
abbrev pub agrees : Status → Status → Bool
agrees starting starting = true
agrees running running = true
agrees done done = true
agrees fail fail = true
agrees not_running fail = true
agrees not_running not_running = true
agrees _ _ = false

abbrev pub latest_agrees : Status → Option Row → Bool
latest_agrees st none = false
latest_agrees st (some r) = agrees st r.status

pub record IsConsistent (s : WorkflowTaskStates) : Type 0 where
  -- the count is the number of starts on record
  pub counted : s.schedule_count ≡ starts s.schedule_records
  pub started : 1 ≤ s.schedule_count
  -- the current status agrees with the latest record
  pub latest : latest_agrees s.current_status (get_last? s.schedule_records) ≡ true
  -- a task fails for good only when its starts are used up
  pub exhausted : s.current_status ≡ fail → workflow_schedule_limit ≤ s.schedule_count

abbrev pub EntryIsConsistent : Entry → Type 0
EntryIsConsistent none = Unit
EntryIsConsistent (some corrupt) = Unit
EntryIsConsistent (some (json s)) = IsConsistent s

abbrev pub is_report : Status → Bool
is_report done = true
is_report fail = true
is_report _ = false

-- A report of the end of a task says `done` or `fail`.
abbrev pub IsReport : Call → Type 0
IsReport (finish now ip r) = is_report r.status ≡ true
IsReport _ = Unit

update-IsConsistent :
    (c : Call) (e : Entry) → IsReport c → EntryIsConsistent e → EntryIsConsistent (update c e)
unfolding update settle start_first start_again starts
update-IsConsistent (finish now ip r) none h i = tt
update-IsConsistent (finish now ip r) (some corrupt) h i = tt
update-IsConsistent (finish now ip r) (some (json s)) h i =
    let r = finish_row now ip r in
    ground (arith, starts-snoc s.schedule_records r, get_last?-snoc s.schedule_records r)
update-IsConsistent (mark_not_running now t reason) none h i = tt
update-IsConsistent (mark_not_running now t reason) (some corrupt) h i = tt
update-IsConsistent (mark_not_running now t reason) (some (json s)) h i = ground (
  arith,
  starts-snoc s.schedule_records (not_running_row now t reason),
  get_last?-snoc s.schedule_records (not_running_row now t reason),
)
update-IsConsistent (mark_running now t) none h i = tt
update-IsConsistent (mark_running now t) (some corrupt) h i = tt
update-IsConsistent (mark_running now t) (some (json s)) h i = ground (
  arith,
  starts-snoc s.schedule_records (running_row now t),
  get_last?-snoc s.schedule_records (running_row now t),
)
update-IsConsistent (start now now' task) none h i = ground arith
update-IsConsistent (start now now' task) (some corrupt) h i = tt
update-IsConsistent (start now now' task) (some (json s)) h i = ground (
  arith,
  starts-snoc s.schedule_records (starting_row now' task),
  get_last?-snoc s.schedule_records (starting_row now' task),
)

module _ (etcd_prefix : Text) where
  apply-IsConsistent :
      (c : Call) (docs : Docs)
      → IsReport c
      → ((k : Text) → EntryIsConsistent (lookup k docs))
      → (k : Text) → EntryIsConsistent (lookup k (apply etcd_prefix c docs))
  apply-IsConsistent c docs h i k = rw (lookup-apply etcd_prefix c docs k) (
      if-elim EntryIsConsistent (at_target (target etcd_prefix c) k)
        (update-IsConsistent c (lookup k docs) h (i k)) (i k))

  apply_all-keeps :
      (cs : List Call) (docs : Docs)
      → All IsReport cs
      → ((k : Text) → EntryIsConsistent (lookup k docs))
      → (k : Text) → EntryIsConsistent (lookup k (apply_all etcd_prefix cs docs))
  unfolding apply_all
  apply_all-keeps [] docs h i = i
  apply_all-keeps (c ∷ cs) docs h i =
      apply_all-keeps cs (apply etcd_prefix c docs) h.1 (apply-IsConsistent c docs h.0 i)

  -- After any calls from an empty store, whose reports say `done` or `fail`, the state of every
  -- task is consistent: its count is the number of starts on record and at least 1, its current
  -- status agrees with its latest record, and it has failed only after three starts or more.
  pub apply_all-IsConsistent :
      (cs : List Call)
      → All IsReport cs
      → (k : Text) → EntryIsConsistent (lookup k (apply_all etcd_prefix cs []))
  apply_all-IsConsistent cs h = apply_all-keeps cs [] h (λ k. unfold lookup in tt)

-- ===== src/Center/Tests.antt =====
-- Witnesses of the proofs on the center, at the samples.
use gopher_cron.Base.{
  ℕ, zero, suc, Text, List, [], ◌∷◌, ◌++◌, ◌≡◌, ◌≢◌, ◌⊎◌, refl, inl, inr, eq_text, codes, Bool,
  true, false, Option, none, some, arith, In, text_eq, if◌then◌else◌,
}
use gopher_cron.Base.Map.{lookup}
use gopher_cron.Keys.{build_task_status_key, build_key}
use gopher_cron.Utils.Version.{compare_version}
use gopher_cron.Lock.{Held}
use gopher_cron.Lock.Attempts.{GrantsFresh, error_of}
use gopher_cron.Workflow.Types.{json}
use gopher_cron.Logs.{get_one, TaskLog}
use gopher_cron.Center.{forbidden, answer, fetched, get_task}
use gopher_cron.Center.Running.{set_task_running}
use gopher_cron.Center.Reset.{check_task_is_running_with_reset_status}
use gopher_cron.Center.Report.{told_ok, running_event, status_reporter}
use gopher_cron.Center.Session.{try_lock_session}
use gopher_cron.Center.Tasks.{save_task, delete_task}
use gopher_cron.Center.Once.{IsLogged, set_task_running-once}
use gopher_cron.Center.Ended.{In-check_task_is_running_with_reset_status}
use gopher_cron.Center.Offline.{
  AreAnswered, IsOver, check_task_is_running_with_reset_status-neighbour,
}
use gopher_cron.Center.Accepted.{IsAllowed, IsAccepted, status_reporter-IsAccepted}
use gopher_cron.Center.Held.{
  AllHold, attempt, lock_key, try_lock_session-AllHold, try_lock_session-released,
}
use gopher_cron.Center.Stores.{IsStored, saved, Removed, save_task-IsStored, delete_task-Removed}
use gopher_cron.Center.Samples.{
  cron, ip, version, stored, run, row, old_row, memory, kept, idle, busy, run_answers, no_lease,
  result_json, offline, neighbours, nobody, reset_answers, answers, caller, peer, unlocked, asked,
  save_answers, delete_answers,
}

newer : compare_version (codes "v2.4.6") version ≡ true
unfolding compare_version gopher_cron.Base.Split.split gopher_cron.Utils.Version.release
    gopher_cron.Base.Split.trim_prefix gopher_cron.Utils.Version.atoi
newer = refl

seized : run.task.noseize ≢ 1
seized e = omega (arith, e)

logged : IsLogged version 100 run
logged = (newer, refl, seized)

set_task_running-once_example :
    set_task_running cron run_answers ip version run
      (set_task_running cron no_lease ip version run idle).0
    ≡ ((set_task_running cron no_lease ip version run idle).0, some forbidden)
set_task_running-once_example =
    set_task_running-once cron no_lease run_answers ip ip version version 100 run run idle refl refl
      refl logged logged refl refl

row_found : get_one 1 (codes "a") (codes "x") busy.table ≡ some row
unfolding get_one gopher_cron.Logs.is_run text_eq
row_found = refl

has_ended : old_row.end_time ≢ 0
has_ended e = cc

In-check_task_is_running_with_reset_status_example :
    In old_row
      (check_task_is_running_with_reset_status cron result_json offline
        (reset_answers nobody)
        1
        (codes "a")
        (codes "x")
        busy).0.table
In-check_task_is_running_with_reset_status_example =
    In-check_task_is_running_with_reset_status cron result_json offline (reset_answers nobody) 1
      (codes "a") (codes "x") old_row busy has_ended (inl refl)

all_answered : (AreAnswered (reset_answers nobody)) × (AreAnswered (reset_answers neighbours))
all_answered = ((refl, refl, refl, refl), (refl, refl, refl, refl))

kept_key : lookup (build_task_status_key cron 1 (codes "a")) busy.status_keys ≡ some kept
unfolding lookup text_eq build_task_status_key gopher_cron.Keys.decimal
kept_key = refl

task_found : get_task cron true 1 (codes "a") busy ≡ fetched stored
unfolding get_task lookup text_eq build_key gopher_cron.Keys.decimal
task_found = refl

check_task_is_running_with_reset_status-neighbour_example :
    IsOver cron result_json offline 103 1
      (codes "a")
      (codes "x")
      memory
      row
      (check_task_is_running_with_reset_status cron result_json offline
        (reset_answers neighbours)
        1
        (codes "a")
        (codes "x")
        busy).0
check_task_is_running_with_reset_status-neighbour_example =
    check_task_is_running_with_reset_status-neighbour cron result_json offline
      (reset_answers neighbours) 1 (codes "a") kept memory stored row busy (codes "2:80")
      (codes ":80") [] none all_answered.1 refl refl kept_key refl task_found row_found refl

accepted :
    (status_reporter cron true result_json answers caller 1 (running_event (json run)) idle).1
    ≡ told_ok
unfolding status_reporter lookup text_eq build_key gopher_cron.Keys.decimal compare_version
    gopher_cron.Base.Split.split gopher_cron.Utils.Version.release
    gopher_cron.Base.Split.trim_prefix gopher_cron.Utils.Version.atoi
accepted = refl

status_reporter-IsAccepted_example :
    IsAllowed cron true result_json caller 1
    × IsAccepted cron true result_json answers caller 1 run idle
        (status_reporter cron true result_json answers caller 1 (running_event (json run)) idle).0
status_reporter-IsAccepted_example =
    status_reporter-IsAccepted cron true result_json answers caller 1 run idle accepted

try_lock_session-AllHold_example :
    AllHold cron ip (asked [] ∷ []) (try_lock_session cron peer (asked [] ∷ []) unlocked).0.0
try_lock_session-AllHold_example =
    try_lock_session-AllHold cron peer ip (asked [] ∷ []) unlocked refl

fresh_lease : (t : List TaskLog) → GrantsFresh (asked t).replies unlocked
fresh_lease t l g k h e = cc

locks : (t : List TaskLog) → error_of (attempt cron ip (asked t) unlocked) ≡ none
unfolding gopher_cron.Lock.try_lock_with_owner
locks t = refl

try_lock_session-released_example :
    (try_lock_session cron peer (asked [] ∷ []) unlocked).0.1 (lock_key cron (asked [])) ≡ none
unfolding text_eq gopher_cron.Keys.build_lock_key gopher_cron.Keys.decimal
try_lock_session-released_example =
    try_lock_session-released cron peer ip (asked []) unlocked refl refl (fresh_lease []) (locks [])
      refl (lock_key cron (asked []))

saved_now : (save_task cron save_answers stored idle).1 ≡ answer stored
unfolding save_task lookup text_eq build_key gopher_cron.Keys.decimal
saved_now = refl

save_task-IsStored_example :
    IsStored cron
      (saved cron stored (get_task cron true 1 (codes "a") idle))
      (save_task cron save_answers stored idle).0
save_task-IsStored_example = save_task-IsStored cron save_answers stored stored idle saved_now

deleted_now : (delete_task cron delete_answers 1 (codes "a") busy).1 ≡ answer (some stored)
unfolding delete_task lookup text_eq build_key gopher_cron.Keys.decimal
deleted_now = refl

delete_task-Removed_example :
    (delete_answers.used ≡ some 0)
    × Removed cron 1 (codes "a") busy (delete_task cron delete_answers 1 (codes "a") busy).0
delete_task-Removed_example =
    delete_task-Removed cron delete_answers 1 (codes "a") busy (some stored) deleted_now

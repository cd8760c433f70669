-- ===== src/Agent/RunTests.antt =====
-- A pass of the agent, its lock and its runs at concrete values.
use gopher_cron.Base.{
  ℕ, ◌+◌, Text, codes, List, [], ◌∷◌, ◌++◌, eq_text, true, false, none, some, In, Any, ◌≡◌, ◌↔◌,
  inr, refl, arith, text_eq,
}
use gopher_cron.Agent.{scheduler_key, SchedulePlan, normal_plan, Scheduler}
use gopher_cron.Agent.Timer.{try_schedule}
use gopher_cron.Agent.Timer.Due.{
  Starts, IsTick, In-try_schedule, try_schedule-IsTick, try_schedule-once,
}
use gopher_cron.Agent.Hold.{
  Code, other, locked, Turn, expired, refused, closed, held_until, try_lock_task_for_exec,
}
use gopher_cron.Agent.Hold.Answered.{refusals, try_lock_task_for_exec-refused}
use gopher_cron.Agent.Running.{
  TaskExecuteResult, RunPlan, accepted, rejected, Run, run_task, first_signal,
}
use gopher_cron.Base.Map.{lookup}
use gopher_cron.Workflow.Types.{done}
use gopher_cron.Agent.Running.Status.{EndsWell, run_task-EndsWell}
use gopher_cron.Agent.Running.Reported.{IsReportOf, MayExecute, RanIf, run_task-RanIf}
use gopher_cron.Agent.Running.Logged.{IsLogged, run_task-IsLogged}
use gopher_cron.Center.{TaskFinishedV2}
use gopher_cron.Center.Samples.{row, busy, ip}
use gopher_cron.Center.Finished.{save_task_log, titled}
use gopher_cron.Logs.{get_one}

abbrev next_minute : Text → ℕ → ℕ
next_minute cron t = t + 60

abbrev plan_at : ℕ → SchedulePlan
plan_at t = record {
  task = record {
    project_id = 1;
    task_id = codes "a";
    cron = codes "* * * * *";
    command = codes "ls";
    status = 1;
    tmp_id = [];
  };
  type = normal_plan;
  tmp_id = codes "x";
  plan_time = t;
}

abbrev planned : Scheduler
planned = record {
  plan_table = (codes "1_a", plan_at 100) ∷ (codes "1_b", plan_at 130) ∷ [];
  executing = [];
  cancelled = [];
  begun = [];
}

In-try_schedule_example :
    In (plan_at 100) (try_schedule next_minute 5 110 planned).started
    ↔ Any (λ e. (e.1 ≡ plan_at 100) × Starts next_minute 5 110 e.1) planned.plan_table
In-try_schedule_example = In-try_schedule next_minute 5 110 planned (plan_at 100)

try_schedule-IsTick_example :
    IsTick next_minute 5 110
      (try_schedule next_minute 5 110 planned).scheduler.plan_table
      (try_schedule next_minute 5 110 planned).wait
try_schedule-IsTick_example =
    try_schedule-IsTick next_minute 5 110 planned (omega arith) (omega arith, (omega arith, tt))

try_schedule-once_example :
    ¬ In
      (plan_at 100)
      (try_schedule next_minute 5 110 (try_schedule next_minute 5 110 planned).scheduler).started
try_schedule-once_example =
    try_schedule-once next_minute 5 110 planned (plan_at 100) (omega arith, (omega arith, tt))

abbrev lost_turns : List Turn
lost_turns = refused other ∷ expired ∷ []

abbrev four : List Code
four = other ∷ other ∷ other ∷ other ∷ []

try_lock_task_for_exec-refused_example :
    (try_lock_task_for_exec 7
      ((held_until closed ∷ []) ++ refusals four ++ (expired ∷ []))).cancelled
    ≡ true
try_lock_task_for_exec-refused_example =
    try_lock_task_for_exec-refused 7 (held_until closed ∷ []) four (expired ∷ []) (omega arith)

abbrev run_plan : RunPlan
run_plan = record {
  plan = plan_at 100;
  task_name = codes "backup";
  noseize = false;
  flow_info = none;
  user_id = 0;
  user_name = [];
}

abbrev before : Run
before = record {
  executing = [];
  executed = [];
  reports = [];
  cancelled = false;
  signal = first_signal normal_plan;
  reason = [];
  pushed = [];
}

abbrev listed : TaskExecuteResult
listed = record { output = codes "x"; err = []; start_time = 101; end_time = 109 }

abbrev seconds : ℕ → ℕ
seconds t = t

abbrev text_of : Code → Text
text_of c = codes "lock"

abbrev json_of : (result error operator : Text) → Text
json_of result error operator = result

run_task-EndsWell_example :
    ((f : TaskFinishedV2) × IsReportOf seconds text_of run_plan f
      × ((run_task seconds text_of run_plan locked
            (rejected (codes "no"))
            false
            listed
            before).reports
          ≡ f ∷ [])
      × ((f.status ≡ done)
          ↔ EndsWell seconds text_of run_plan (rejected (codes "no")) false listed before))
    × (lookup
          (scheduler_key run_plan.plan.task)
          (run_task seconds text_of run_plan locked
            (rejected (codes "no"))
            false
            listed
            before).executing
        ≡ none)
run_task-EndsWell_example =
    run_task-EndsWell seconds text_of run_plan locked (rejected (codes "no")) false listed before
      (inr refl)

run_task-RanIf_example :
    RanIf seconds text_of run_plan
      (MayExecute seconds text_of run_plan locked accepted false before)
      before
      (run_task seconds text_of run_plan locked accepted false listed before)
run_task-RanIf_example = run_task-RanIf seconds text_of run_plan locked accepted false listed before

row_there : get_one 1 (codes "a") (codes "x") busy.table ≡ some row
unfolding get_one gopher_cron.Logs.is_run text_eq
row_there = refl

run_task-IsLogged_example :
    (f : TaskFinishedV2) × ((run_task seconds text_of run_plan locked accepted false listed
        before).reports
      ≡ f ∷ [])
    × IsLogged json_of seconds text_of run_plan accepted listed row
        (save_task_log json_of (titled (codes "p")) true 111 ip f busy)
        f
run_task-IsLogged_example =
    run_task-IsLogged json_of seconds text_of 111 ip (codes "p") run_plan locked accepted false
      listed before busy row (inr refl) row_there refl

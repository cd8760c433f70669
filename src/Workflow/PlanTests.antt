-- ===== src/Workflow/PlanTests.antt =====
-- A plan of one task that runs and ends, and a request for a plan of two tasks.
use gopher_cron.Base.{
  ℕ, zero, suc, ◌+◌, ◌*◌, ◌≤◌, ◌<◌, Text, List, [], ◌∷◌, ◌++◌, Bool, true, false, Option, none,
  some, codes, ◌≡◌, ◌≢◌, ◌↔◌, ◌⊎◌, inl, inr, refl, arith, All, Any, In, ◌==◌, if◌then◌else◌,
  eq_text, text_eq,
}
use gopher_cron.Base.Map.{lookup}
use gopher_cron.Keys.{build_workflow_task_status_key}
use gopher_cron.Workflow.Types.{
  Status, running, WorkflowTaskStates, WorkflowInfo, TaskInfo, WorkflowRunningTaskInfo,
  TaskFinished, ok, json,
}
use gopher_cron.Workflow.TaskStates.{Docs}
use gopher_cron.Workflow.SchedulePlan.{
  PlanArgs, PlanRow, Found, present, check_plan, need_to_create,
}
use gopher_cron.Workflow.SchedulePlan.Collected.{AllCompatible}
use gopher_cron.Workflow.SchedulePlan.Checks.{IsSupported, check_plan-IsSupported}
use gopher_cron.Workflow.PlanStates.{
  Plans, plan_key, run_first, get_workflow_plan_state, get_workflow_all_task_states,
  set_workflow_plan_running,
}
use gopher_cron.Workflow.PlanStates.Cleared.{cleared, clear_workflow_keys-neighbour}
use gopher_cron.Workflow.Finish.{Answers, named, World, both, finished_plan}
use gopher_cron.Workflow.Finish.Over.{IsCleared, IsWritten, KillsLive, finished_plan-IsCleared}
use gopher_cron.Workflow.Types.{done}
use gopher_cron.Lock.{answered}
use gopher_cron.Workflow.Runner.{Plan, schedule_task, sent}
use gopher_cron.Workflow.Runner.Sending.{IsDue, schedule_task-sent}

abbrev cron : Text
cron = codes "/cron"

abbrev flow : WorkflowInfo
flow = record { workflow_id = 7; tmp_id = [] }

abbrev task : TaskInfo
task = record {
  task_id = codes "a";
  name = codes "backup";
  project_id = 1;
  command = [];
  remark = [];
  timeout = 5;
  noseize = 0;
  tmp_id = [];
  flow_info = some flow;
}

abbrev on_agent : WorkflowRunningTaskInfo
on_agent = record {
  workflow_id = 7;
  tmp_id = [];
  task_id = codes "a";
  task_name = codes "backup";
  project_id = 1;
  agent_ip = [];
}

abbrev report : Status → TaskFinished
report st = record {
  task_id = codes "a";
  project_id = 1;
  status = st;
  workflow_id = 7;
  tmp_id = [];
  result = [];
}

abbrev plans : Plans
plans = (plan_key cron 7, json (run_first 7 1 1)) ∷ []

-- The task runs.
abbrev live : WorkflowTaskStates
live = record {
  project_id = 1;
  task_id = codes "a";
  workflow_id = 7;
  current_status = running;
  schedule_count = 1;
  command = [];
  start_time = 1;
  end_time = 0;
  schedule_records = [];
}

abbrev docs : Docs
docs = (build_workflow_task_status_key cron 7 1 (codes "a"), json live) ∷ []

abbrev plans_123 : Plans
plans_123 = (plan_key cron 123, json (run_first 123 1 1)) ∷ []

positive : 0 < 1
positive = omega arith

digits : All (λ d. d < 10) (2 ∷ 3 ∷ [])
digits = (omega arith, (omega arith, tt))

clear_workflow_keys-neighbour_example :
    get_workflow_plan_state cron 123 true (cleared cron 1 plans_123 []).0 ≡ ok none
clear_workflow_keys-neighbour_example =
    clear_workflow_keys-neighbour cron 1 (2 ∷ 3 ∷ []) plans_123 [] positive digits

set_first : (set_workflow_plan_running cron 7 true 1 1 []).1 ≡ ok (run_first 7 1 1)
unfolding set_workflow_plan_running lookup
set_first = refl

abbrev answers : Answers
answers = record {
  plan_answered = true;
  tasks_answered = true;
  detail = λ t. named (codes "backup");
  now = 9;
  clearing = both;
  killed = true;
  logged = true;
}

abbrev world : World
world = record { plans = plans; docs = docs; plan_state = none; kills = []; logs = [] }

abbrev stopped_by : Option Text
stopped_by = some (codes "stopped")

plan_read : get_workflow_plan_state cron 7 true plans ≡ ok (some (run_first 7 1 1))
unfolding get_workflow_plan_state lookup text_eq gopher_cron.Keys.build_workflow_plan_key
    gopher_cron.Keys.decimal
plan_read = refl

tasks_read : get_workflow_all_task_states cron 7 true docs ≡ ok (live ∷ [])
unfolding get_workflow_all_task_states gopher_cron.Base.has_prefix
    gopher_cron.Keys.build_workflow_task_status_key_prefix build_workflow_task_status_key
    gopher_cron.Keys.decimal
tasks_read = refl

ended_well : (finished_plan cron 7 answers stopped_by world).1 ≡ ok tt
unfolding finished_plan lookup text_eq gopher_cron.Keys.build_workflow_plan_key
    gopher_cron.Keys.decimal gopher_cron.Base.has_prefix
    gopher_cron.Keys.build_workflow_task_status_key_prefix build_workflow_task_status_key
ended_well = refl

finished_plan-IsCleared_example :
    IsCleared cron 7 answers world (finished_plan cron 7 answers stopped_by world).0
    × IsWritten cron 7 answers
        (run_first 7 1 1)
        (live ∷ [])
        world
        (finished_plan cron 7 answers stopped_by world).0
    × KillsLive stopped_by (live ∷ []) world (finished_plan cron 7 answers stopped_by world).0
finished_plan-IsCleared_example =
    finished_plan-IsCleared cron 7 answers stopped_by (run_first 7 1 1) (live ∷ []) world plan_read
      tasks_read ended_well

abbrev a_report : TaskFinished
a_report = record {
  task_id = codes "a";
  project_id = 1;
  status = done;
  workflow_id = 7;
  tmp_id = [];
  result = [];
}

abbrev a_run : WorkflowRunningTaskInfo
a_run = record {
  workflow_id = 7;
  tmp_id = [];
  task_id = codes "a";
  task_name = codes "backup";
  project_id = 1;
  agent_ip = [];
}

-- The second task waits for the first.
abbrev args : List PlanArgs
args =
    record { task = record { project_id = 1; task_id = codes "a" }; dependencies = [] }
    ∷ record {
      task = record { project_id = 1; task_id = codes "b" };
      dependencies = record { project_id = 1; task_id = codes "a" } ∷ [];
    }
    ∷ []

abbrev all_present : ℕ → Text → Found
all_present project_id task_id = present

accepted : check_plan all_present args ≡ inl (need_to_create args)
unfolding check_plan gopher_cron.Workflow.SchedulePlan.collect need_to_create
    gopher_cron.Workflow.SchedulePlan.rows_of gopher_cron.Workflow.SchedulePlan.is_repeated lookup
    gopher_cron.Workflow.SchedulePlan.has_son gopher_cron.Base.Map.insert text_eq
    gopher_cron.Keys.build_workflow_task_index gopher_cron.Keys.decimal
    gopher_cron.Workflow.SchedulePlan.check_dependencies
accepted = refl

check_plan-IsSupported_example :
    (need_to_create args ≡ need_to_create args)
    × AllCompatible (need_to_create args)
    × All (IsSupported all_present (need_to_create args)) (need_to_create args)
check_plan-IsSupported_example = check_plan-IsSupported all_present args accepted

abbrev due : Plan
due = record { workflow_id = 7; status = 1; plan_state = none; next_time = 50 }

abbrev tomorrow : Plan → ℕ
tomorrow p = 1000

abbrev new_task : TaskInfo
new_task = record task { tmp_id = codes "t" }

abbrev the_plan : ℕ → Option Plan
the_plan workflow_id = some due

abbrev after_start : Docs
after_start =
    (schedule_task cron false the_plan true true answered 2 60 3 3 (codes "t") task plans []).0

task_sent :
    schedule_task cron false the_plan true true answered 2 60 3 3 (codes "t") task plans []
    ≡ (after_start, sent new_task)
unfolding schedule_task lookup text_eq gopher_cron.Keys.build_workflow_plan_key
    gopher_cron.Keys.decimal
task_sent = refl

in_the_flow : task.flow_info ≡ some flow
in_the_flow = refl

schedule_task-sent_example :
    (◌≡◌ {A = Bool} false false)
    × ((p : Plan) × (the_plan 7 ≡ some p) × IsDue cron 2 60 plans [] after_start flow task p)
schedule_task-sent_example =
    schedule_task-sent cron false the_plan true true answered 2 60 3 3 (codes "t") task new_task
      flow plans [] after_start in_the_flow task_sent

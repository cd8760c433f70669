-- ===== src/Workflow/EngineTests.antt =====
-- The runner sends the second task of a workflow, whose first task is done.
use gopher_cron.Base.{
  ℕ, List, [], ◌∷◌, true, false, some, ◌≡◌, ◌⊎◌, refl, inl, inr, In, Text, Option, text_eq,
  if◌then◌else◌, codes, none, subst, sym,
}
use gopher_cron.Workflow.Types.{
  WorkflowTaskInfo, eq_info, WorkflowTaskStates, TaskInfo, done, Result, ok,
}
use gopher_cron.Workflow.CanSchedule.{WorkflowTask, get_workflow_tasks_states}
use gopher_cron.Workflow.SchedulePlan.{PlanRow}
use gopher_cron.Workflow.Finish.{both, missing}
use gopher_cron.Workflow.Engine.{Flow, Engine, refresh_plan_tasks}
use gopher_cron.Workflow.Engine.Schedule.{ScheduleAnswers, task_event, schedule_workflow_plan}
use gopher_cron.Workflow.Engine.Sent.{IsDue, docs_prefix, schedule_workflow_plan-IsDue}
use gopher_cron.Workflow.Tests.{cron, env, flow, docs, state_a, task_b}

abbrev second : WorkflowTask
second = record {
  task_id = codes "b";
  project_id = 1;
  task_name = codes "clean";
  command = [];
  remark = [];
  timeout = 5;
  noseize = 0;
}

abbrev the_flow : Flow
the_flow = record {
  plan = record { workflow_id = 7; status = 1; plan_state = none; next_time = 0 };
  known = (task_b, second) ∷ [];
  task_flow = flow;
  plan_update_time = 5;
}

abbrev engine : Engine
engine = record {
  world = record { plans = []; docs = docs done 1; plan_state = none; kills = []; logs = [] };
  flows = (7, the_flow) ∷ [];
  raised = 1;
  dropped = 0;
  events = [];
}

-- The plan as it was read before, and its rows now: the second task waits for the first.
abbrev old_flow : Flow
old_flow = record the_flow { known = []; task_flow = []; plan_update_time = 4 }

abbrev rows : List PlanRow
rows =
    record {
      task_id = codes "a";
      project_id = 1;
      dependency_task_id = [];
      dependency_project_id = 0;
    }
    ∷ record {
      task_id = codes "b";
      project_id = 1;
      dependency_task_id = codes "a";
      dependency_project_id = 1;
    }
    ∷ []

abbrev stored_task : WorkflowTaskInfo → Option WorkflowTask
stored_task t = if text_eq t.task_id (codes "b") then some second else none

abbrev answers : ScheduleAnswers
answers = record {
  stored = record { latest = some (some 5); rows = some rows; task_of = λ t. some (stored_task t) };
  locked = false;
  env = env;
  finish = record {
    plan_answered = true;
    tasks_answered = true;
    detail = λ t. missing;
    now = 9;
    clearing = both;
    killed = true;
    logged = true;
  };
}

reread : refresh_plan_tasks answers.stored old_flow ≡ (the_flow, ok tt)
unfolding refresh_plan_tasks gopher_cron.Workflow.Engine.refresh_tasks
    gopher_cron.Workflow.Engine.fetch_tasks gopher_cron.Workflow.SchedulePlan.deps_map text_eq
    gopher_cron.Base.Map.insert gopher_cron.Base.Map.lookup gopher_cron.Workflow.Types.info_eq
reread = refl

readable :
    get_workflow_tasks_states (docs_prefix cron true the_flow) (docs done 1)
    ≡ ok (state_a done 1 ∷ [])
unfolding get_workflow_tasks_states gopher_cron.Keys.build_workflow_task_status_key_prefix
    gopher_cron.Keys.build_workflow_task_status_key gopher_cron.Base.has_prefix
    gopher_cron.Keys.decimal gopher_cron.Workflow.Tests.key_a
readable = refl

is_sent :
    (schedule_workflow_plan cron true answers old_flow engine).0.events ≡ task_event 7 second ∷ []
unfolding schedule_workflow_plan refresh_plan_tasks gopher_cron.Workflow.Engine.refresh_tasks
    gopher_cron.Workflow.Engine.fetch_tasks gopher_cron.Workflow.SchedulePlan.deps_map
    gopher_cron.Workflow.CanSchedule.can_schedule get_workflow_tasks_states
    gopher_cron.Keys.build_workflow_task_status_key_prefix
    gopher_cron.Keys.build_workflow_task_status_key gopher_cron.Base.has_prefix
    gopher_cron.Keys.decimal gopher_cron.Workflow.Tests.key_a
    gopher_cron.Workflow.CanSchedule.rounds gopher_cron.Workflow.CanSchedule.choose
    gopher_cron.Base.Map.lookup gopher_cron.Workflow.CanSchedule.states_map
    gopher_cron.Base.Map.insert gopher_cron.Workflow.Types.info_eq gopher_cron.Base.text_eq
    gopher_cron.Workflow.CanSchedule.deps_done gopher_cron.Workflow.CanSchedule.choose_status
is_sent = refl

In-event :
    In (task_event 7 second) (schedule_workflow_plan cron true answers old_flow engine).0.events
In-event = subst (In (task_event 7 second)) (sym is_sent) (inl refl)

schedule_workflow_plan-IsDue_example :
    In (task_event 7 second) engine.events
    ⊎ IsDue cron true the_flow (state_a done 1 ∷ []) (task_event 7 second)
schedule_workflow_plan-IsDue_example =
    schedule_workflow_plan-IsDue cron true answers old_flow the_flow engine (state_a done 1 ∷ [])
      (task_event 7 second) reread refl readable In-event

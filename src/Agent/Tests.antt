-- ===== src/Agent/Tests.antt =====
-- The agent's scheduler at concrete values.
use gopher_cron.Base.{
  ℕ, ◌+◌, ◌-◌, ◌*◌, ◌≤◌, ◌<◌, min, Text, codes, Option, none, some, false, ◌≡◌, List, [], ◌∷◌,
  eq_text, arith,
}
use gopher_cron.Base.Map.{lookup}
use gopher_cron.Agent.{Task, normal_plan, Scheduler, TaskEvent, save, kill, scheduler_key}
use gopher_cron.Agent.Table.{handle_all, lookup-handle_all}
use gopher_cron.Agent.Latency.{
  negative, weight, plus, get_scheduler_latency, get_scheduler_latency-bounds,
}

abbrev backup : Task
backup = record {
  project_id = 1;
  task_id = codes "a";
  cron = codes "* * * * *";
  command = codes "ls";
  status = 1;
  tmp_id = [];
}

abbrev events : List TaskEvent
events =
    record { event_type = save; task = backup } ∷ record { event_type = kill; task = backup } ∷ []

abbrev idle : Scheduler
idle = record { plan_table = []; executing = []; cancelled = []; begun = [] }

abbrev in_a_minute : Text → Option ℕ
in_a_minute cron = some 60

lookup-handle_all_example :
    lookup (scheduler_key backup) (handle_all in_a_minute 0 false [] events idle).plan_table
    ≡ some (record { task = backup; type = normal_plan; tmp_id = []; plan_time = 60 })
unfolding gopher_cron.Base.text_eq gopher_cron.Keys.gen_task_scheduler_key
    gopher_cron.Keys.Decimal.decimal
lookup-handle_all_example =
    lookup-handle_all in_a_minute 0 false [] (scheduler_key backup) events idle

abbrev lowest : ℕ → ℕ
lowest n = 0

lowest_below : (n : ℕ) → 0 < n → lowest n < n
lowest_below n h = h

get_scheduler_latency-bounds_example :
    (get_scheduler_latency lowest negative 3 ≡ none)
    × (get_scheduler_latency lowest (weight 0) 3 ≡ none)
    × ((w : ℕ)
        → 0 < w
        → (d : ℕ) × (get_scheduler_latency lowest (weight w) 3 ≡ some (plus d))
          × ((501 - 5 * min w 100) + min (3 * 20) 200 ≤ d)
          × (d ≤ 500 + min (3 * 20) 200))
get_scheduler_latency-bounds_example =
    get_scheduler_latency-bounds lowest 3 lowest_below (omega arith)

-- ===== src/Agent/Timer.antt =====
-- One pass of the agent over its plans: `TrySchedule` of agent/scheduler.go, the calls of
-- `TryStartTask` that it makes in their own goroutines, and `PlanCount` and `PlanRange`. A time is
-- in nanoseconds, and 0 is the zero time of Go. `expr_next` stands for `Expr.Next` of the parsed
-- expression; it gives the zero time when the expression matches no later time. A weight below zero
-- acts as 0. The plans are visited in the order of the table, where Go's map promises none.
pub mod Due
use gopher_cron.Base.{
  ℕ, ◌-◌, Text, List, [], ◌∷◌, ◌++◌, Bool, true, false, ◌&&◌, ◌||◌, ◌==◌, ltb, leb, length,
  if◌then◌else◌,
}
use gopher_cron.Agent.{SchedulePlan, Scheduler, task_status_start}

-- `time.Duration`: at most 2^63 - 1 nanoseconds, where `Sub` stops
abbrev pub max_duration : ℕ
max_duration = 9223372036854775807

pub data Duration : Type 0 where
  ahead past : ℕ → Duration

abbrev pub saturate : ℕ → ℕ
saturate d = if ltb max_duration d then max_duration else d

abbrev pub time_sub : (t now : ℕ) → Duration
time_sub t now = if leb now t then ahead (saturate (t - now)) else past (saturate (now - t))

abbrev pub second : ℕ
second = 1000000000

-- The new table, the plans handed to `TryStartTask` in order, and `nearTime`.
pub record Pass : Type 0 where
  pub plan_table : List (Text × SchedulePlan)
  pub started : List SchedulePlan
  pub near_time : ℕ

-- The new scheduler, the plans handed to `TryStartTask`, and the time to wait.
pub record Tick : Type 0 where
  pub scheduler : Scheduler
  pub started : List SchedulePlan
  pub wait : Duration

abbrev pub plan_count : Scheduler → ℕ
plan_count s = length s.plan_table

module _ (expr_next : (cron : Text) → ℕ → ℕ) (weight now : ℕ) where
  abbrev pub is_due : SchedulePlan → Bool
  is_due p = leb p.plan_time now

  abbrev pub may_start : SchedulePlan → Bool
  may_start p = ltb 0 weight && (p.task.status == task_status_start)

  abbrev pub advance : SchedulePlan → SchedulePlan
  advance p = if is_due p then record p { plan_time = expr_next p.task.cron now } else p

  abbrev pub starts : SchedulePlan → List SchedulePlan
  starts p = if is_due p && may_start p then p ∷ [] else []

  abbrev pub nearer : ℕ → ℕ → ℕ
  nearer near t = if (near == 0) || ltb t near then t else near

  abbrev pub with_plan : Text → SchedulePlan → List SchedulePlan → Pass → Pass
  with_plan key p ps r = record {
    plan_table = (key, p) ∷ r.plan_table;
    started = ps ++ r.started;
    near_time = r.near_time;
  }

  unfoldable pub plan_range : List (Text × SchedulePlan) → (near : ℕ) → Pass
  plan_range [] near = record { plan_table = []; started = []; near_time = near }
  plan_range ((key, p) ∷ plans) near =
      with_plan key (advance p) (starts p) (plan_range plans (nearer near (advance p).plan_time))

  abbrev pub tick : Scheduler → Pass → Tick
  tick s r = record {
    scheduler = record s { plan_table = r.plan_table };
    started = r.started;
    wait = time_sub r.near_time now;
  }

  unfoldable pub try_schedule : Scheduler → Tick
  unfolding plan_range
  try_schedule s =
      if plan_count s == 0
      then record { scheduler = s; started = []; wait = ahead second }
      else tick s (plan_range s.plan_table 0)

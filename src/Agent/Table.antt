-- ===== src/Agent/Table.antt =====
-- What the events do to the agent's table of plans.
use gopher_cron.Base.{
  ℕ, Text, List, [], ◌∷◌, eq_text, Bool, true, false, Option, none, some, ◌==◌, if◌then◌else◌,
  text_eq, ◌≡◌, refl, Option-cases, Bool-cases, inl, inr, ap, ◌∙◌,
}
use gopher_cron.Base.Map.{lookup, lookup-insert, lookup-erase}
use gopher_cron.Agent.{
  Task, scheduler_key, normal_plan, active_plan, SchedulePlan, Scheduler, EventType, save, delete,
  kill, temporary, workflow_schedule, TaskEvent, task_status_start, handle_task_event,
  build_task_scheduler_plan, try_start_task, set_plan, remove_plan, save_task, start_now, kill_task,
  handle, build_workflow_task_scheduler_plan,
}

same_table :
    (is_close : Bool) (new_id : Text) (plan : SchedulePlan) (s : Scheduler)
    → (try_start_task is_close new_id plan s).0.plan_table ≡ s.plan_table
unfolding try_start_task
same_table true new_id plan s = refl
same_table false new_id plan s =
    elim (Option-cases (lookup (scheduler_key plan.task) s.executing)) [
      | inl e ↦ rw (e, try_start_task) refl
      | inr (t, e) ↦ rw (e, try_start_task) refl
    ]

module _ (next : Text → Option ℕ) (now : ℕ) (is_close : Bool) (new_id : Text) where
  -- The plan of a key after an event, from the plan that it had: an event of another key keeps it,
  -- and so does one that is neither a save nor a delete; a delete, or a save of a task that is not
  -- to run, drops it; a save puts the plan of the task, and keeps the old one if the expression
  -- does not parse.
  abbrev pub saved : Task → Option SchedulePlan → Option SchedulePlan
  saved task old =
      if task.status == task_status_start
      then elim (next task.cron) [
        | none ↦ old
        | some t ↦
            some (record { task = task; type = normal_plan; tmp_id = task.tmp_id; plan_time = t })
      ]
      else none

  abbrev pub plan_after : EventType → Task → Option SchedulePlan → Option SchedulePlan
  plan_after save task old = saved task old
  plan_after delete task old = none
  plan_after _ task old = old

  abbrev pub after_event : Text → TaskEvent → Option SchedulePlan → Option SchedulePlan
  after_event key event old =
      if text_eq (scheduler_key event.task) key
      then plan_after event.event_type event.task old
      else old

  unchanged :
      (key : Text) (task : Task) (s s' : Scheduler)
      → s'.plan_table ≡ s.plan_table
      → lookup key s'.plan_table ≡ (
          if text_eq (scheduler_key task) key
          then lookup key s.plan_table
          else lookup key s.plan_table)
  unchanged key task s s' e = elim (Bool-cases (text_eq (scheduler_key task) key)) [
    | inl h ↦ rw h (ap (lookup key) e)
    | inr h ↦ rw h (ap (lookup key) e)
  ]

  lookup-save :
      (key : Text) (task : Task) (s : Scheduler)
      → lookup key (save_task next now is_close new_id task s).plan_table ≡ (
          if text_eq (scheduler_key task) key
          then saved task (lookup key s.plan_table)
          else lookup key s.plan_table)
  unfolding save_task set_plan remove_plan build_task_scheduler_plan
  lookup-save key task s = go (task.status == task_status_start) (next task.cron) refl refl
    where
      go :
          (b : Bool) (o : Option ℕ)
          → (task.status == task_status_start) ≡ b
          → next task.cron ≡ o
          → lookup key (save_task next now is_close new_id task s).plan_table ≡ (
              if text_eq (scheduler_key task) key
              then saved task (lookup key s.plan_table)
              else lookup key s.plan_table)
      go false o h e = rw (h, save_task) (lookup-erase (scheduler_key task) key s.plan_table)
      go true none h e = rw (h, e, save_task) (unchanged key task s s refl)
      go true (some t) h e =
          rw (h, e, save_task)
            (lookup-insert (scheduler_key task) key
              (record { task = task; type = normal_plan; tmp_id = task.tmp_id; plan_time = t })
              s.plan_table)

  kill-table :
      (task : Task) (s : Scheduler)
      → (kill_task next now is_close new_id task s).plan_table ≡ s.plan_table
  unfolding kill_task
  kill-table task s = elim (Option-cases (lookup (scheduler_key task) s.executing)) [
    | inl e ↦ rw (e, kill_task) refl
    | inr (t, e) ↦ rw (e, kill_task) refl
  ]

  start-table :
      (task : Task) (s : Scheduler)
      → (start_now next now is_close new_id task s).plan_table ≡ s.plan_table
  unfolding start_now build_task_scheduler_plan
  start-table task s = elim (Option-cases (next task.cron)) [
    | inl e ↦ rw (e, start_now) refl
    | inr (t, e) ↦
        rw (e, start_now)
          (same_table is_close new_id
            (record { task = task; type = active_plan; tmp_id = task.tmp_id; plan_time = now }) s)
  ]

  lookup-event :
      (key : Text) (type : EventType) (task : Task) (s : Scheduler)
      → lookup key (handle next now is_close new_id type task s).plan_table ≡ (
          if text_eq (scheduler_key task) key
          then plan_after type task (lookup key s.plan_table)
          else lookup key s.plan_table)
  unfolding remove_plan
  lookup-event key save task s = lookup-save key task s
  lookup-event key delete task s = lookup-erase (scheduler_key task) key s.plan_table
  lookup-event key kill task s =
      unchanged key task s (kill_task next now is_close new_id task s) (kill-table task s)
  lookup-event key temporary task s =
      unchanged key task s (start_now next now is_close new_id task s) (start-table task s)
  lookup-event key workflow_schedule task s =
      unchanged key task s
        (try_start_task is_close new_id
          (build_workflow_task_scheduler_plan next now is_close new_id task) s).0
        (same_table is_close new_id
          (build_workflow_task_scheduler_plan next now is_close new_id task) s)

  unfoldable pub handle_all : List TaskEvent → Scheduler → Scheduler
  handle_all [] s = s
  handle_all (event ∷ events) s =
      handle_all events (handle_task_event next now is_close new_id event s)

  abbrev pub after_all : Text → List TaskEvent → Option SchedulePlan → Option SchedulePlan
  after_all key [] old = old
  after_all key (event ∷ events) old = after_all key events (after_event key event old)

  -- After any sequence of events, the plan of a key is what the events leave of the plan that it
  -- had, one after the other: events of other keys, kills and starts leave it alone.
  pub lookup-handle_all :
      (key : Text) (events : List TaskEvent) (s : Scheduler)
      → lookup key (handle_all events s).plan_table ≡ after_all key events (lookup key s.plan_table)
  unfolding handle_all handle_task_event
  lookup-handle_all key [] s = refl
  lookup-handle_all key (event ∷ events) s =
      lookup-handle_all key events (handle_task_event next now is_close new_id event s)
      ∙ ap (after_all key events) (lookup-event key event.event_type event.task s)

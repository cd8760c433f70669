-- ===== src/Workflow/Finish/Ended.antt =====
-- What holds once a run of a workflow has ended.
use gopher_cron.Base.{
  ℕ, Text, List, [], ◌∷◌, ◌++◌, eq_text, Option, none, some, ◌≡◌, refl, ap, ◌∙◌, Bool-cases, inl,
  inr, nat_eq,
}
use gopher_cron.Workflow.Types.{Status, WorkflowTaskInfo, WorkflowTaskStates, PlanState, Err, ok}
use gopher_cron.Workflow.PlanStates.{
  get_workflow_plan_state, get_workflow_all_task_states, clear_workflow_keys,
}
use gopher_cron.Workflow.PlanStates.Cleared.{cleared}
use gopher_cron.Workflow.Finish.{
  Tally, tally, Clearing, both, first_only, neither, Answers, World, start_tally, final_state,
  log_final, kill_and_log, clear_and_log, after_tally, finish_plan, finished_plan, add_error,
  after_clear,
}
use gopher_cron.Workflow.Finish.Kills.{running_of, tally-kill_list}

abbrev pub kills_of :
    Option Text
    → List WorkflowTaskInfo
    → List (List WorkflowTaskInfo)
    → List (List WorkflowTaskInfo)
kills_of none kill_list kills = kills
kills_of (some e) kill_list kills = kill_list ∷ kills

module _ (etcd_prefix : Text) (workflow_id : ℕ) (a : Answers) where
  log_final-ok :
      (e : Option Text) (s : PlanState) (w : World)
      → (log_final etcd_prefix workflow_id a e s w).1 ≡ ok tt
      → (log_final etcd_prefix workflow_id a e s w).0 ≡ record w { logs = s ∷ w.logs }
  unfolding log_final
  log_final-ok e s w h = elim (Bool-cases a.logged) [
    | inl l ↦ rw (l, log_final) refl
    | inr l ↦ let x = rw (l, log_final) at h in cc
  ]

  kill_and_log-ok :
      (e : Option Text) (s : PlanState) (k : List WorkflowTaskInfo) (w : World)
      → (kill_and_log etcd_prefix workflow_id a e s k w).1 ≡ ok tt
      → (kill_and_log etcd_prefix workflow_id a e s k w).0
        ≡ record w { kills = kills_of e k w.kills; logs = s ∷ w.logs }
  unfolding kill_and_log
  kill_and_log-ok none s k w h = log_final-ok none s w h
  kill_and_log-ok (some e) s k w h = elim (Bool-cases a.killed) [
    | inl l ↦
        rw (l, kill_and_log)
          (log_final-ok (some e) s (record w { kills = k ∷ w.kills }) (rw (l, kill_and_log) at h))
    | inr l ↦ let x = rw (l, kill_and_log) at h in cc
  ]

  -- The world when the end of a run succeeded with this log entry and this kill list.
  abbrev pub ended_world : Option Text → PlanState → List WorkflowTaskInfo → World → World
  ended_world e s k w = record w {
    plans = (cleared etcd_prefix workflow_id w.plans w.docs).0;
    docs = (cleared etcd_prefix workflow_id w.plans w.docs).1;
    kills = kills_of e k w.kills;
    logs = s ∷ w.logs;
  }

  clear_and_log-ok :
      (c : Clearing) (e : Option Text) (s : PlanState) (k : List WorkflowTaskInfo) (w : World)
      → (clear_and_log etcd_prefix workflow_id a e c s k w).1 ≡ ok tt
      → (clear_and_log etcd_prefix workflow_id a e c s k w).0 ≡ ended_world e s k w
  unfolding clear_and_log clear_workflow_keys after_clear
  clear_and_log-ok both e s k w h =
      let (plans, docs) = cleared etcd_prefix workflow_id w.plans w.docs in
      kill_and_log-ok e s k (record w { plans = plans; docs = docs }) h
  clear_and_log-ok first_only e s k w h = cc
  clear_and_log-ok neither e s k w h = cc

  -- The log entry of a run: the state that was read, with the end, the reason and all task states.
  abbrev pub IsEnd : Option Text → PlanState → List WorkflowTaskStates → World → World → Type 0
  IsEnd e s states w w' =
      (reason : Text) × (status : Status) × (w'
        ≡ ended_world e (final_state a.now reason states s) (running_of states)
            (record w { plan_state = some (record s { status = status }) }))

  start_tally-empty : (e : Option Text) → (start_tally e).kill_list ≡ []
  start_tally-empty none = refl
  start_tally-empty (some e) = refl

  after_tally-IsEnd :
      (e : Option Text) (s : PlanState) (states : List WorkflowTaskStates) (w : World)
      (t : Tally × Option Err)
      → (t.1 ≡ none → t.0.kill_list ≡ running_of states)
      → (after_tally etcd_prefix workflow_id a e s states w t).1 ≡ ok tt
      → IsEnd e s states w (after_tally etcd_prefix workflow_id a e s states w t).0
  unfolding after_tally
  after_tally-IsEnd e s states w (t, some x) k h = cc
  after_tally-IsEnd e s states w (t, none) k h =
      let reason = add_error e t.reason in
      let log = final_state a.now reason states s in
      let w' = record w { plan_state = some (record s { status = t.status }) } in
      (
        reason,
        t.status,
        clear_and_log-ok a.clearing e log t.kill_list w' h
            ∙ ap (λ l. ended_world e log l w') (k refl),
      )

  finish_plan-IsEnd :
      (e : Option Text) (s : PlanState) (states : List WorkflowTaskStates) (w : World)
      → get_workflow_all_task_states etcd_prefix workflow_id a.tasks_answered w.docs ≡ ok states
      → (finish_plan etcd_prefix workflow_id a e s w).1 ≡ ok tt
      → IsEnd e s states w (finish_plan etcd_prefix workflow_id a e s w).0
  unfolding finish_plan
  finish_plan-IsEnd e s states w r h =
      rw (r, finish_plan)
        (after_tally-IsEnd e s states w (tally a.detail states (start_tally e))
          (λ q.
            tally-kill_list a.detail states (start_tally e) q
            ∙ ap (λ l. l ++ running_of states) (start_tally-empty e))
          (rw (r, finish_plan) at h))

  -- If the end of a run succeeds for a plan with state `s` and task states `states`, then exactly
  -- one log entry is written: `s`, finished now, with all the task states. The keys are those that
  -- clearing the workflow leaves. With an error, the tasks of the kill list are killed, and without
  -- one nothing is.
  pub finished_plan-IsEnd :
      (e : Option Text) (s : PlanState) (states : List WorkflowTaskStates) (w : World)
      → get_workflow_plan_state etcd_prefix workflow_id a.plan_answered w.plans ≡ ok (some s)
      → get_workflow_all_task_states etcd_prefix workflow_id a.tasks_answered w.docs ≡ ok states
      → (finished_plan etcd_prefix workflow_id a e w).1 ≡ ok tt
      → IsEnd e s states w (finished_plan etcd_prefix workflow_id a e w).0
  unfolding finished_plan
  finished_plan-IsEnd e s states w p r h =
      rw (p, finished_plan)
        (finish_plan-IsEnd e s states (record w { plan_state = some s }) r
          (rw (p, finished_plan) at h))

-- ===== src/Lib.antt =====
-- gopherCron: a distributed cron service. A center keeps tasks and workflows in a database and
-- their running state in etcd; agents run the tasks. This library models the parts that decide
-- what runs, with paths from the root of the repository.
--
-- The parts and how they interact
-- - Keys: common/protocol.go, the keys under which everything is stored in etcd (`BuildKey` is
--   `build_key`, and so on), and what is read back out of a key. The configurable prefix is a
--   parameter. Keys/Decimal is the print of a number by `%d`.
-- - Workflow/TaskStates: app/schedule.go, the transactions that write the state of a task of a
--   workflow. A transaction is a function of the stored documents, and its error leaves them alone.
-- - Workflow/CanSchedule: app/workflow.go, `CanSchedule`, which reads those states and decides
--   which tasks start next, whether the plan is finished, and whether it has failed.
-- - Workflow/SchedulePlan: app/workflow.go, the rows of a plan that `CreateWorkflowSchedulePlan`
--   accepts, and the graph that `RefreshPlanTasks` builds for `CanSchedule`.
-- - Workflow/PlanStates: app/schedule.go, the state of a plan in etcd.
-- - Workflow/Finish: app/workflow.go, `Finished`, which ends a run: it clears the states, kills
--   what still runs and writes the log.
-- - Workflow/Runner: app/workflow.go and app/schedule.go, `TrySchedule` and `TryStartPlan`, which
--   start plans that are due, and `scheduleTask`, which sends one task to an agent.
-- - Workflow/Engine: app/workflow.go, the plans that the runner holds (`SetPlan`, `DelPlan`,
--   `RefreshPlanTasks`), `scheduleWorkflowPlan`, and `handleTaskResultV1`, which the report of a task
--   of a workflow leads to.
-- - Logs: pkg/store/sqlStore/task_log_partition.go, the table of the runs of tasks.
-- - Center: app/schedule.go and app/etcd.go, what the center does for a task: `SetTaskRunning`
--   (Running), `CheckTaskIsRunning` (Check), the reset of a run whose agent is gone (Reset),
--   `SaveTaskLog` and `HandlerTaskFinished` (Finished), `SaveTask` and `DeleteTask` (Tasks), and
--   `KillTask` (Kill). Report and Session are `StatusReporter` and `TryLock` of cmd/service/rpc.go,
--   which call these, the lock and the workflow engine. The other modules hold the proofs.
-- - Lock: pkg/etcd/locker.go, the lock that a center takes in etcd for an agent's task.
-- - Agent: agent/scheduler.go, the table of plans of an agent and its events. `TrySchedule` is
--   Timer, `tryLockTaskForExec` is Hold, the goroutine of `TryStartTask` with `reportTaskResult`
--   and `ExecuteTask` of agent/executer.go is Running, the wait before a lock is Latency. The
--   report of Running is what `SaveTaskLog` of the center stores (Running/Logged).
-- - Streams: app/registry.go, the streams of the agents that are connected to a center.
-- - Access: app/app.go and app/rbac.go, who may act in a project.
-- - Utils: utils/utils.go, versions, retries, the signal channel and the reason writer.
-- - Base: lists, maps, texts and tests that the others share.
--
-- How the code is modelled
-- Go strings are lists of bytes (`Text`), maps are association lists whose order is arbitrary,
-- and the documents in etcd are maps from keys. Ids, times and counts are natural numbers: ids
-- come from a database, times are Unix seconds or nanoseconds. Where the code subtracts times, the
-- comparison is written so that it agrees with the signed one. JSON of a value decodes to that
-- value, and any other text is `corrupt`. What comes from outside (the clock, the database, etcd's
-- answers, agents, random numbers, the cron library, gorbac) is an argument.
-- Loops are recursion on the list that they walk. `Keys.Decimal` uses one round more than a number
-- has digits; `RetryFunc` recurses on the retries that are left.
--
-- Not modelled: HTTP handlers, the SQL of the other tables, metrics, warnings, processes, tokens and
-- generated code, which only call libraries; the registration of agents and the replies to their
-- events, and the webhooks. Messages to the web are recorded where a task outside workflows changes
-- its status, not where the workflow runner sends them.
pub mod Base
pub mod Center
pub mod Keys
pub mod Logs
pub mod Lock
pub mod Agent
pub mod Access
pub mod Streams
pub mod Utils
pub mod Workflow

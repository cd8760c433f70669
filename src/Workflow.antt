-- ===== src/Workflow.antt =====
-- The workflow engine of the center: app/workflow.go and the workflow half of app/schedule.go.
pub mod Types
pub mod TaskStates
pub mod CanSchedule
pub mod SchedulePlan
pub mod PlanStates
pub mod Finish
pub mod Runner
pub mod Engine
mod Tests
mod Samples
mod PlanTests
mod EngineTests

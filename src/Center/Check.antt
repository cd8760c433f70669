-- ===== src/Center/Check.antt =====
-- app/schedule.go: `CheckTaskIsRunning`, which asks the agent of a status key whether it runs the
-- task.
use gopher_cron.Base.{
  ℕ, Text, List, [], ◌∷◌, eq_text, Bool, true, false, Option, none, some, has_prefix, if◌then◌else◌,
}
use gopher_cron.Base.Map.{lookup}
use gopher_cron.Keys.{build_task_status_key}
use gopher_cron.Workflow.Types.{json, corrupt}
use gopher_cron.Center.{
  TaskRunningInfo, Kept, Center, internal, Reply, answer, refuse, no_running_info,
}

-- An agent as the center finds it: its address, and how it answers whether it runs the task: with
-- an error, with a reply of another kind, or with the truth.
pub data Running : Type 0 where
  unreachable unexpected : Running
  says : Bool → Running

pub record Agent : Type 0 where
  pub addr : Text
  pub is_running : Running

-- `FindAgentsV2` and `FindAgents`; `none` is an error
pub record Agents : Type 0 where
  pub streams : Option (List Agent)
  pub clients : Option (List Agent)

-- `strings.Contains`
unfoldable pub contains : Text → Text → Bool
contains [] sub = has_prefix [] sub
contains (b ∷ s) sub = let rest = contains s sub in if has_prefix (b ∷ s) sub then true else rest

abbrev pub reply_of : Running → TaskRunningInfo → Reply (List TaskRunningInfo)
reply_of unreachable info = refuse internal
reply_of unexpected info = answer []
reply_of (says false) info = answer []
reply_of (says true) info = answer (info ∷ [])

-- The loop asks the first agent whose address contains the recorded one.
unfoldable pub ask : List Agent → TaskRunningInfo → Reply (List TaskRunningInfo)
unfolding contains
ask [] info = answer []
ask (a ∷ agents) info =
    let rest = ask agents info in
    if contains a.addr info.agent_ip then reply_of a.is_running info else rest

-- Agents of the first version are asked where no stream is open.
unfoldable pub ask_agents : Agents → TaskRunningInfo → Reply (List TaskRunningInfo)
unfolding ask
ask_agents agents info = elim agents.streams [
  | none ↦ refuse internal
  | some (s ∷ streams) ↦ ask (s ∷ streams) info
  | some [] ↦ elim agents.clients [ none ↦ refuse internal | some clients ↦ ask clients info ]
]

abbrev pub with_info :
    TaskRunningInfo → Reply (List TaskRunningInfo) → Reply (TaskRunningInfo × List TaskRunningInfo)
with_info info (answer result) = answer (info, result)
with_info info (refuse e) = refuse e

abbrev pub check_kept : Agents → Option Kept → Reply (TaskRunningInfo × List TaskRunningInfo)
check_kept agents none = answer (no_running_info, [])
check_kept agents (some kept) = elim kept.value [
  | corrupt ↦ refuse internal
  | json info ↦ with_info info (ask_agents agents info)
]

unfoldable pub check_task_is_running :
    (etcd_prefix : Text) (answered : Bool)
    → Agents
    → (project_id : ℕ) (task_id : Text) → Center
    → Reply (TaskRunningInfo × List TaskRunningInfo)
unfolding ask_agents
check_task_is_running etcd_prefix false agents project_id task_id c = refuse internal
check_task_is_running etcd_prefix true agents project_id task_id c =
    check_kept agents (lookup (build_task_status_key etcd_prefix project_id task_id) c.status_keys)

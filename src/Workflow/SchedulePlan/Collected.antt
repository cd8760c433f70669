-- ===== src/Workflow/SchedulePlan/Collected.antt =====
-- What the loop over the rows of a plan has seen when it accepts them.
use gopher_cron.Base.{
  Text, List, [], ◌∷◌, eq_text, text_eq, text_eq_iff, false, some, if◌then◌else◌, codes, ◌≡◌, ◌≢◌,
  ap₂, ◌⊎◌, inl, inr, refl, arith, All, Any, Bool-cases, ◌∙◌, subst, All-map,
}
use gopher_cron.Base.Map.{lookup, insert, lookup-insert}
use gopher_cron.Keys.{decimal, build_workflow_task_index}
use gopher_cron.Workflow.Types.{eq_info}
use gopher_cron.Workflow.SchedulePlan.{
  PlanRow, check_key, son_key, has_son, Tasks, sons_of, is_repeated, collect,
}

abbrev pub SameTask : PlanRow → PlanRow → Type 0
SameTask v w = (v.project_id ≡ w.project_id) × (v.task_id ≡ w.task_id)

abbrev pub SameDependency : PlanRow → PlanRow → Type 0
SameDependency v w =
    (v.dependency_project_id ≡ w.dependency_project_id)
    × (v.dependency_task_id ≡ w.dependency_task_id)

-- The row of a task that waits for nothing.
abbrev pub IsRoot : PlanRow → Type 0
IsRoot v = (v.dependency_project_id ≡ 0) × (v.dependency_task_id ≡ [])

-- A later row `w` neither repeats `v` nor joins a task that waits for nothing.
abbrev pub Compatible : PlanRow → PlanRow → Type 0
Compatible v w =
    SameTask v w → (¬ SameDependency v w) × (¬ IsRoot v) × (w.dependency_project_id ≢ 0)

abbrev pub AllCompatible : List PlanRow → Type 0
AllCompatible [] = Unit
AllCompatible (v ∷ rows) = All (Compatible v) rows × AllCompatible rows

-- A row that may still come, given the tasks seen so far.
abbrev pub IsOpen : Tasks → PlanRow → Type 0
IsOpen tasks w = is_repeated w (sons_of (check_key w) tasks) ≡ false

pub sons_of-insert :
    (k j : Text) (sons : List Text) (tasks : Tasks)
    → sons_of j (insert k sons tasks) ≡ (if text_eq k j then sons else sons_of j tasks)
sons_of-insert k j sons tasks = ground (arith, lookup-insert k j sons tasks)

pub zero_key : build_workflow_task_index 0 [] ≡ codes "0_"
unfolding build_workflow_task_index decimal
zero_key = refl

pub same_son : (v w : PlanRow) → SameDependency v w → son_key v ≡ son_key w
same_son v w e = ap₂ build_workflow_task_index e.0 e.1

pub root_son : (v : PlanRow) → IsRoot v → son_key v ≡ codes "0_"
root_son v e = ap₂ build_workflow_task_index e.0 e.1 ∙ zero_key

pub not_repeated_cons :
    (w : PlanRow) (k : Text) (sons : List Text)
    → is_repeated w (k ∷ sons) ≡ false
    → (k ≢ son_key w)
      × (k ≢ codes "0_")
      × (w.dependency_project_id ≢ 0)
      × (is_repeated w sons ≡ false)
unfolding is_repeated has_son
not_repeated_cons w k sons h = (
  λ e. ground (arith, (text_eq_iff k (son_key w)).1 e),
  λ e. ground (arith, (text_eq_iff k (codes "0_")).1 e),
  λ e. ground arith,
  ground arith,
)

abbrev pub with_row : PlanRow → Tasks → Tasks
with_row v tasks = insert (check_key v) (son_key v ∷ sons_of (check_key v) tasks) tasks

pub open_same :
    (v w : PlanRow) (tasks : Tasks)
    → check_key v ≡ check_key w
    → IsOpen (with_row v tasks) w
    → is_repeated w (son_key v ∷ sons_of (check_key v) tasks) ≡ false
open_same v w tasks e o =
    rw
      (
        sons_of-insert (check_key v) (check_key w) (son_key v ∷ sons_of (check_key v) tasks) tasks,
        (text_eq_iff (check_key v) (check_key w)).1 e,
      )
      at o

pub open-Compatible : (v w : PlanRow) (tasks : Tasks) → IsOpen (with_row v tasks) w → Compatible v w
open-Compatible v w tasks o s =
    let (a, b, c, _) =
      not_repeated_cons w (son_key v) (sons_of (check_key v) tasks)
        (open_same v w tasks (ap₂ build_workflow_task_index s.0 s.1) o) in
    (λ e. a (same_son v w e), λ e. b (root_son v e), c)

pub IsOpen-before : (v w : PlanRow) (tasks : Tasks) → IsOpen (with_row v tasks) w → IsOpen tasks w
IsOpen-before v w tasks o = elim (Bool-cases (text_eq (check_key v) (check_key w))) [
  | inl e ↦
      let same = (text_eq_iff (check_key v) (check_key w)).0 e in
      let (_, _, _, d) =
        not_repeated_cons w (son_key v) (sons_of (check_key v) tasks)
          (open_same v w tasks same o) in
      subst (λ k. is_repeated w (sons_of k tasks) ≡ false) same d
  | inr n ↦
      rw
        (
          sons_of-insert (check_key v) (check_key w) (son_key v ∷ sons_of (check_key v) tasks)
              tasks,
          n,
        )
        at o
]

pub collect-cons :
    (v : PlanRow) (rows : List PlanRow) (tasks : Tasks) {out : Tasks}
    → collect (v ∷ rows) tasks ≡ some out
    → IsOpen tasks v × (collect rows (with_row v tasks) ≡ some out)
unfolding collect
collect-cons v rows tasks h = (ground arith, ground arith)

pub collect-IsOpen :
    (rows : List PlanRow) (tasks : Tasks) {out : Tasks}
    → collect rows tasks ≡ some out
    → All (IsOpen tasks) rows × AllCompatible rows
collect-IsOpen [] tasks h = (tt, tt)
collect-IsOpen (v ∷ rows) tasks h =
    let (opened, rest) = collect-cons v rows tasks h in
    let (o, c) = collect-IsOpen rows (with_row v tasks) rest in
    (
      (opened, All-map rows (λ w. IsOpen-before v w tasks) o),
      (All-map rows (λ w. open-Compatible v w tasks) o, c),
    )

-- Every collected task is the task of a row, or was there before.
pub collect-lookup :
    (rows : List PlanRow) (tasks : Tasks) (k : Text) {out : Tasks} {sons : List Text}
    → collect rows tasks ≡ some out
    → lookup k out ≡ some sons
    → Any (λ w. check_key w ≡ k) rows ⊎ ((s : List Text) × (lookup k tasks ≡ some s))
unfolding collect
collect-lookup [] tasks k {sons = sons} h e = inr (sons, ground arith)
collect-lookup (v ∷ rows) tasks k h e =
    elim (collect-lookup rows (with_row v tasks) k (collect-cons v rows tasks h).1 e) [
      | inl a ↦ inl (inr a)
      | inr (s, p) ↦ elim (Bool-cases (text_eq (check_key v) k)) [
        | inl same ↦ inl (inl ((text_eq_iff (check_key v) k).0 same))
        | inr other ↦ inr (
          s,
          rw (lookup-insert (check_key v) k (son_key v ∷ sons_of (check_key v) tasks) tasks, other)
              at p,
        )
      ]
    ]

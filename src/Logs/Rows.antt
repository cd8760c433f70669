-- ===== src/Logs/Rows.antt =====
-- The rows of the table of runs: a plan time is logged once, and the unique key stays unique.
use gopher_cron.Base.{
  ℕ, Text, [], ◌∷◌, ◌++◌, ◌≡◌, ◌≢◌, refl, Bool, true, false, arith, text_eq_iff, Bool-cases, inl,
  inr,
}
use gopher_cron.Logs.{
  TaskLog, Table, TaskExecutingInfo, task_execute_noseize, is_plan, same_key, exists, create,
  schedule_log, schedule_log_exists, created, check_or_create_schedule_log,
}

pub exists-append :
    (p : TaskLog → Bool) (t : Table) (r : TaskLog) → p r ≡ true → exists p (t ++ r ∷ []) ≡ true
unfolding exists
exists-append p [] r h = rw h
exists-append p (x ∷ t) r h = ground (arith, exists-append p t r h)

pub exists-append_left :
    (p : TaskLog → Bool) (t u : Table) → exists p t ≡ true → exists p (t ++ u) ≡ true
unfolding exists
exists-append_left p [] u h = cc
exists-append_left p (x ∷ t) u h = ground (arith, exists-append_left p t u)

pub is_plan_refl :
    (t i : ℕ) (k : Text) (r : TaskLog)
    → r.plan_time ≡ t
    → r.project_id ≡ i
    → r.task_id ≡ k
    → is_plan t i k r ≡ true
unfolding is_plan
is_plan_refl t i k r e f g = ground (arith, text_eq_iff r.task_id k)

-- The rows of a table that was checked: the old ones, and the new one where it was created.
pub create-append : (r : TaskLog) (t u : Table) → create r t ≡ (u, true) → u ≡ t ++ r ∷ []
unfolding create
create-append r t u h = ground arith

abbrev pub IsSeized : TaskExecutingInfo → Type 0
IsSeized info = info.task.noseize ≢ task_execute_noseize

pub schedule_log_exists-seized :
    (plan_time : ℕ) (info : TaskExecutingInfo) (t : Table)
    → IsSeized info
    → schedule_log_exists plan_time info t
      ≡ exists (is_plan plan_time info.task.project_id info.task.task_id) t
unfolding schedule_log_exists
schedule_log_exists-seized plan_time info t h = ground arith

pub check_or_create-created :
    (read written : Bool) (now now' plan_time : ℕ) (info : TaskExecutingInfo) (ip version : Text)
    (t : Table) {u : Table}
    → check_or_create_schedule_log read written now now' plan_time info ip version t
      ≡ (u, created true)
    → u ≡ t ++ schedule_log now now' plan_time info ip version ∷ []
unfolding check_or_create_schedule_log
check_or_create-created read written now now' plan_time info ip version t {u} h =
    ground (arith, create-append (schedule_log now now' plan_time info ip version) t u)

pub check_or_create-refused :
    (written : Bool) (now now' plan_time : ℕ) (info : TaskExecutingInfo) (ip version : Text)
    (t : Table)
    → IsSeized info
    → exists (is_plan plan_time info.task.project_id info.task.task_id) t ≡ true
    → check_or_create_schedule_log true written now now' plan_time info ip version t
      ≡ (t, created false)
unfolding check_or_create_schedule_log
check_or_create-refused written now now' plan_time info ip version t s h =
    rw (schedule_log_exists-seized plan_time info t s, h)

-- a row stays in the table whatever is asked of it
pub check_or_create-exists :
    (p : TaskLog → Bool) (read written : Bool) (now now' plan_time : ℕ) (info : TaskExecutingInfo)
    (ip version : Text) (t : Table)
    → exists p t ≡ true
    → exists p (check_or_create_schedule_log read written now now' plan_time info ip version t).0
      ≡ true
unfolding check_or_create_schedule_log create
check_or_create-exists p read written now now' plan_time info ip version t h =
    ground (arith, exists-append_left p t (schedule_log now now' plan_time info ip version ∷ []) h)

pub exists-imply :
    (p q : TaskLog → Bool)
    → ((r : TaskLog) → p r ≡ true → q r ≡ true)
    → (t : Table) → exists q t ≡ false
    → exists p t ≡ false
unfolding exists
exists-imply p q f [] h = refl
exists-imply p q f (x ∷ t) h = elim (Bool-cases (p x)) [
  | inl y ↦ ground (arith, f x y)
  | inr n ↦ ground (arith, exists-imply p q f t)
]

same_key-is_plan :
    (a r : TaskLog) → same_key a r ≡ true → is_plan a.plan_time a.project_id a.task_id r ≡ true
unfolding same_key
same_key-is_plan a r h = ground arith

-- After a check that the database answered there is a row for the plan time.
pub check_or_create-logged :
    (now now' plan_time : ℕ) (info : TaskExecutingInfo) (ip version : Text) (t : Table)
    → IsSeized info
    → exists
        (is_plan plan_time info.task.project_id info.task.task_id)
        (check_or_create_schedule_log true true now now' plan_time info ip version t).0
      ≡ true
unfolding check_or_create_schedule_log create
check_or_create-logged now now' plan_time info ip version t s =
    elim (Bool-cases (exists (is_plan plan_time info.task.project_id info.task.task_id) t)) [
      | inl h ↦ rw (schedule_log_exists-seized plan_time info t s, h) h
      | inr h ↦
          let none_same = exists-imply (same_key row) _ (same_key-is_plan row) t h in
          rw (schedule_log_exists-seized plan_time info t s, h, none_same)
            (exists-append _ t row (is_plan_refl _ _ _ row refl refl refl))
    ]
  where
    row : TaskLog
    row = schedule_log now now' plan_time info ip version

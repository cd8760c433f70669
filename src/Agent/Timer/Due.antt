-- ===== src/Agent/Timer/Due.antt =====
-- Which plans a pass of the agent starts, and how long it waits.
use gopher_cron.Base.{
  ℕ, ◌-◌, ◌≤◌, ◌<◌, Text, List, [], ◌∷◌, true, ◌==◌, leb, All, Any, In, ◌≡◌, ◌↔◌, ◌⊎◌, inl, inr,
  refl, arith, Bool-cases, sym, ◌∙◌, All-map, length, ◌&&◌, In-append_left, In-append_right,
  In-append-cases, subst,
}
use gopher_cron.Agent.{SchedulePlan, Scheduler, task_status_start}
use gopher_cron.Agent.Timer.{
  Pass, try_schedule, plan_range, advance, starts, nearer, may_start, is_due, time_sub, ahead,
  Duration, plan_count, saturate,
}

none_left :
    (P : Text × SchedulePlan → Type 0) (plans : List (Text × SchedulePlan))
    → (length plans == 0) ≡ true
    → ¬ Any P plans
none_left P [] e m = m
none_left P (p ∷ plans) e m = ground arith

module _ (expr_next : (cron : Text) → ℕ → ℕ) (weight now : ℕ) where
  -- A plan of the table that a pass starts: it is due, the task is to run, and the agent has weight.
  abbrev pub Starts : SchedulePlan → Type 0
  Starts p = (p.plan_time ≤ now) × (0 < weight) × (p.task.status ≡ task_status_start)

  may_start-Starts :
      (p : SchedulePlan)
      → (is_due expr_next weight now p && may_start expr_next weight now p) ≡ true
      → Starts p
  may_start-Starts p e = ground arith

  Starts-may_start :
      (p : SchedulePlan)
      → Starts p
      → (is_due expr_next weight now p && may_start expr_next weight now p) ≡ true
  Starts-may_start p s = ground arith

  starts_iff : (p q : SchedulePlan) → In q (starts expr_next weight now p) ↔ ((p ≡ q) × Starts p)
  starts_iff p q =
      elim (Bool-cases (is_due expr_next weight now p && may_start expr_next weight now p)) [
        | inl e ↦
            rw e
              (λ m. elim m [ inl x ↦ (x, may_start-Starts p e) | inr x ↦ absurd x ], λ m. inl m.0)
        | inr e ↦ rw e (λ m. absurd m, λ m. let t = Starts-may_start p m.1 in absurd (cc (e, t)))
      ]

  range-In :
      (plans : List (Text × SchedulePlan)) (near : ℕ) (q : SchedulePlan)
      → In q (plan_range expr_next weight now plans near).started
        ↔ Any (λ e. (e.1 ≡ q) × Starts e.1) plans
  unfolding plan_range
  range-In [] near q = (λ m. m, λ m. m)
  range-In ((key, p) ∷ plans) near q =
      let near' = nearer expr_next weight now near (advance expr_next weight now p).plan_time in
      let later = (plan_range expr_next weight now plans near').started in
      let (f, g) = range-In plans near' q in
      let (h, k) = starts_iff p q in
      (
        λ m. elim (In-append-cases q (starts expr_next weight now p) later m) [
          | inl x ↦ inl (h x)
          | inr x ↦ inr (f x)
        ],
        λ m. elim m [
          | inl x ↦ In-append_left q (starts expr_next weight now p) later (k x)
          | inr x ↦ In-append_right q (starts expr_next weight now p) later (g x)
        ],
      )

  -- A pass hands exactly the due plans of tasks that are to run to `TryStartTask`, as they were
  -- before the pass, and none at all when the agent has no weight.
  pub In-try_schedule :
      (s : Scheduler) (q : SchedulePlan)
      → In q (try_schedule expr_next weight now s).started
        ↔ Any (λ e. (e.1 ≡ q) × Starts e.1) s.plan_table
  unfolding try_schedule
  In-try_schedule s q = elim (Bool-cases (plan_count s == 0)) [
    | inl e ↦ rw e (λ m. absurd m, λ m. absurd (none_left _ s.plan_table e m))
    | inr e ↦ rw e (range-In s.plan_table 0 q)
  ]

  -- Not zero, and at most `k`.
  abbrev Reaches : ℕ → ℕ → Type 0
  Reaches near k = (0 < near) × (near ≤ k)

  abbrev pub Nearest : ℕ → Pass → Type 0
  Nearest near r =
      ((k : ℕ) → Reaches near k → Reaches r.near_time k)
      × All (λ e. (now < e.1.plan_time) × Reaches r.near_time e.1.plan_time) r.plan_table
      × ((r.near_time ≡ near) ⊎ Any (λ e. e.1.plan_time ≡ r.near_time) r.plan_table)

  advance_later :
      (p : SchedulePlan)
      → now < expr_next p.task.cron now
      → now < (advance expr_next weight now p).plan_time
  advance_later p h = elim (Bool-cases (is_due expr_next weight now p)) [
    | inl e ↦ rw e h
    | inr e ↦ rw e (ground arith)
  ]

  nearer-Reaches :
      (near t k : ℕ)
      → 0 < t
      → (Reaches near k ⊎ (t ≤ k))
      → Reaches (nearer expr_next weight now near t) k
  nearer-Reaches near t k z h = ground arith

  nearer-cases :
      (near t : ℕ)
      → (nearer expr_next weight now near t ≡ near) ⊎ (t ≡ nearer expr_next weight now near t)
  nearer-cases near t = ground arith

  range-Nearest :
      (plans : List (Text × SchedulePlan)) (near : ℕ)
      → All (λ e. now < expr_next e.1.task.cron now) plans
      → Nearest near (plan_range expr_next weight now plans near)
  unfolding plan_range
  range-Nearest [] near h = (λ k z. z, tt, inl refl)
  range-Nearest ((key, p) ∷ plans) near (c, cs) =
      let t = (advance expr_next weight now p).plan_time in
      let near' = nearer expr_next weight now near t in
      let l = advance_later p c in
      let (f, all, o) = range-Nearest plans near' cs in
      (
        λ k z. f k (nearer-Reaches near t k (omega (arith, l)) (inl z)),
        ((l, f t (nearer-Reaches near t t (omega (arith, l)) (inr (omega arith)))), all),
        elim o [
          | inl e ↦ elim (nearer-cases near t) [
            | inl n ↦ inl (e ∙ n)
            | inr n ↦ inr (inl (n ∙ sym e))
          ]
          | inr a ↦ inr (inr a)
        ],
      )

  -- The plan times of a table after a pass, next to the wait that the pass asks for.
  abbrev pub IsTick : List (Text × SchedulePlan) → Duration → Type 0
  IsTick plans wait =
      (near : ℕ) × All (λ e. (now < e.1.plan_time) × (near ≤ e.1.plan_time)) plans
      × Any (λ e. e.1.plan_time ≡ near) plans
      × (wait ≡ ahead (saturate (near - now)))

  attained :
      (plans : List (Text × SchedulePlan)) (near m : ℕ)
      → All (λ e. (now < e.1.plan_time) × Reaches near e.1.plan_time) plans
      → Any (λ e. e.1.plan_time ≡ m) plans
      → now < m
  attained [] near m all a = absurd a
  attained (p ∷ plans) near m (c, all) (inl e) = omega (arith, c.0, e)
  attained (p ∷ plans) near m (c, all) (inr a) = attained plans near m all a

  time_sub_ahead : (m : ℕ) → now < m → time_sub m now ≡ ahead (saturate (m - now))
  time_sub_ahead m h = elim (Bool-cases (leb now m)) [ inl e ↦ rw e refl | inr e ↦ ground arith ]

  Nearest-IsTick :
      (r : Pass) → 0 < r.near_time → Nearest 0 r → IsTick r.plan_table (time_sub r.near_time now)
  Nearest-IsTick r z (f, all, inl e) = ground arith
  Nearest-IsTick r z (f, all, inr a) = (
    r.near_time,
    All-map r.plan_table (λ e c. (c.0, c.1.1)) all,
    a,
    time_sub_ahead r.near_time (attained r.plan_table r.near_time r.near_time all a),
  )

  near_positive :
      (plans : List (Text × SchedulePlan))
      → 0 < length plans
      → Nearest 0 (plan_range expr_next weight now plans 0)
      → 0 < (plan_range expr_next weight now plans 0).near_time
  unfolding plan_range
  near_positive [] z n = ground arith
  near_positive ((key, p) ∷ plans) z (f, (c, all), o) = c.1.0

  -- If the expressions of all plans match a later time, then after a pass over at least one plan
  -- every plan lies ahead, and the agent waits exactly until the first of them, as far as a
  -- duration reaches.
  pub try_schedule-IsTick :
      (s : Scheduler)
      → 0 < plan_count s
      → All (λ e. now < expr_next e.1.task.cron now) s.plan_table
      → IsTick
          (try_schedule expr_next weight now s).scheduler.plan_table
          (try_schedule expr_next weight now s).wait
  unfolding try_schedule
  try_schedule-IsTick s z h =
      let n = range-Nearest s.plan_table 0 h in
      elim (Bool-cases (plan_count s == 0)) [
        | inl e ↦ ground arith
        | inr e ↦ rw e (
            Nearest-IsTick (plan_range expr_next weight now s.plan_table 0)
              (near_positive s.plan_table z n) n)
      ]

  started_later :
      (plans : List (Text × SchedulePlan)) (q : SchedulePlan) (near : ℕ)
      → All (λ e. (now < e.1.plan_time) × (near ≤ e.1.plan_time)) plans
      → ¬ Any (λ e. (e.1 ≡ q) × Starts e.1) plans
  started_later [] q near h a = a
  started_later (p ∷ plans) q near (c, h) (inl x) = omega (arith, c.0, x.1.0)
  started_later (p ∷ plans) q near (c, h) (inr x) = started_later plans q near h x

  idle :
      (s : Scheduler)
      → (plan_count s == 0) ≡ true
      → (try_schedule expr_next weight now s).scheduler ≡ s
  unfolding try_schedule
  idle s e = rw e refl

  -- If the expressions of all plans match a later time, a second pass at the same moment starts
  -- nothing: no run is started twice for one plan time.
  pub try_schedule-once :
      (s : Scheduler) (q : SchedulePlan)
      → All (λ e. now < expr_next e.1.task.cron now) s.plan_table
      → ¬ In q
          (try_schedule expr_next weight now
            (try_schedule expr_next weight now s).scheduler).started
  try_schedule-once s q h m =
      let after = (try_schedule expr_next weight now s).scheduler in
      let again = (In-try_schedule after q).0 m in
      elim (Bool-cases (plan_count s == 0)) [
        | inl e ↦
            none_left _ s.plan_table e
              (subst (λ t. Any (λ e. (e.1 ≡ q) × Starts e.1) t.plan_table) (idle s e) again)
        | inr e ↦
            let (near, all, a, w) = try_schedule-IsTick s (ground arith) h in
            started_later after.plan_table q near all again
      ]

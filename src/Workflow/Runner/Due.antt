-- ===== src/Workflow/Runner/Due.antt =====
-- Which plans `TrySchedule` starts, and how long it waits.
use gopher_cron.Base.{
  ℕ, ◌+◌, ◌≤◌, ◌<◌, List, [], true, Option, none, some, ◌≡◌, ◌↔◌, ◌⊎◌, All, Any, In,
}
use gopher_cron.Workflow.Runner.{Plan, is_active, near, advance, visit, second, Visited}

abbrev AtMost : Option ℕ → ℕ → Type 0
AtMost none k = ⊥
AtMost (some m) k = m ≤ k

module _ (next : Plan → ℕ) (now : ℕ) where
  -- A plan that is visited and due.
  abbrev pub Starts : Plan → Type 0
  Starts p = (is_active next now p ≡ true) × (p.next_time ≤ now)

  -- `t` is the next time of a plan that is visited: a new one if the plan is due.
  abbrev pub IsNext : Plan → ℕ → Type 0
  IsNext p t = ((p.next_time ≤ now) × (next p ≡ t)) ⊎ ((now < p.next_time) × (p.next_time ≡ t))

  rest_of : Plan → List Plan → Option ℕ → Visited next now
  rest_of p ps n = visit next now ps (near next now n (advance next now p))

  -- what the calls and the next times of a visit are to the plans
  abbrev pub ListsStarts : List Plan → Visited next now → Type 0
  ListsStarts ps v =
      ((id : ℕ) → In id v.0.0 ↔ Any (λ p. Starts p × (p.workflow_id ≡ id)) ps)
      × ((id t : ℕ)
          → In (id, t) v.0.1
            ↔ Any (λ p. (is_active next now p ≡ true) × (p.workflow_id ≡ id) × IsNext p t) ps)

  -- what the next time of a visit from `n` is to the next times that it lists
  abbrev Nearest : Option ℕ → Visited next now → Type 0
  Nearest n v =
      ((k : ℕ) → AtMost n k → AtMost v.1 k)
      × All (λ e. (now < e.1) × AtMost v.1 e.1) v.0.1
      × ((m : ℕ) → v.1 ≡ some m → (n ≡ some m) ⊎ Any (λ e. e.1 ≡ m) v.0.1)

  module _ (later : (p : Plan) → now < next p) where
    -- The wait of a visit: none of the next times is sooner, and one of them is met exactly; with no
    -- next times it is a second.
    abbrev pub IsWait : List (ℕ × ℕ) → ℕ → Type 0
    IsWait ts d =
        (0 < d)
        × All (λ e. now + d ≤ e.1) ts
        × (Any (λ e. e.1 ≡ now + d) ts ⊎ ((ts ≡ []) × (d ≡ second)))

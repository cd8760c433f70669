-- ===== src/Logs/Runs.antt =====
-- The row of one run, as the insert with `ON DUPLICATE KEY UPDATE` leaves it.
use gopher_cron.Base.{
  ℕ, Text, [], ◌∷◌, ◌≡◌, ◌≢◌, sym, subst, Bool, true, false, ◌==◌, Option, none, some, arith,
  text_eq_iff, Bool-cases, inl, inr, In, ap, ◌∙◌,
}
use gopher_cron.Logs.{
  TaskLog, Table, is_plan, is_run, same_key, find, get_one, upsert, update_columns,
  with_create_time, create_or_update_task_log,
}

abbrev pub run_of : TaskLog → TaskLog → Bool
run_of d = is_run d.project_id d.task_id d.tmp_id

same_key-is_run : (d r : TaskLog) → same_key d r ≡ true → run_of d r ≡ true
unfolding same_key is_plan is_run
same_key-is_run d r h = ground arith

same_key-plan_time :
    (d r : TaskLog) → run_of d r ≡ true → r.plan_time ≡ d.plan_time → same_key d r ≡ true
unfolding same_key is_plan is_run
same_key-plan_time d r h e = ground arith

update-run_of : (d r : TaskLog) → run_of d r ≡ true → run_of d (update_columns d r) ≡ true
unfolding is_run
update-run_of d r h = ground arith

run_of_refl : (d : TaskLog) → run_of d d ≡ true
unfolding is_run
run_of_refl d = ground (arith, text_eq_iff d.task_id d.task_id, text_eq_iff d.tmp_id d.tmp_id)

find_hit : (p : TaskLog → Bool) (r : TaskLog) (t : Table) → p r ≡ true → find p (r ∷ t) ≡ some r
unfolding find
find_hit p r t h = rw h

find_miss : (p : TaskLog → Bool) (r : TaskLog) (t : Table) → p r ≡ false → find p (r ∷ t) ≡ find p t
unfolding find
find_miss p r t h = rw h

upsert_hit :
    (d r : TaskLog) (t : Table) → same_key d r ≡ true → upsert d (r ∷ t) ≡ update_columns d r ∷ t
unfolding upsert
upsert_hit d r t h = rw h

upsert_miss : (d r : TaskLog) (t : Table) → same_key d r ≡ false → upsert d (r ∷ t) ≡ r ∷ upsert d t
unfolding upsert
upsert_miss d r t h = rw h

not_same_key : (d r : TaskLog) → run_of d r ≡ false → same_key d r ≡ false
not_same_key d r h = elim (Bool-cases (same_key d r)) [
  | inl y ↦ absurd (false_true (sym h ∙ same_key-is_run d r y))
  | inr n ↦ n
]
  where
    false_true : false ≡ true → ⊥
    false_true e = cc

-- The first row of a run gets the new columns, where its plan time is that of the new row.
pub find-upsert-some :
    (d log : TaskLog) (t : Table)
    → find (run_of d) t ≡ some log
    → log.plan_time ≡ d.plan_time
    → find (run_of d) (upsert d t) ≡ some (update_columns d log)
unfolding find
find-upsert-some d log [] h e = cc
find-upsert-some d log (r ∷ t) h e = elim (Bool-cases (run_of d r)) [
  | inl y ↦
      let same = some-injective (sym (find_hit (run_of d) r t y) ∙ h) in
      let hit = upsert_hit d r t (same_key-plan_time d r y (ap (λ x. x.plan_time) same ∙ e)) in
      ap (find (run_of d)) hit
      ∙ find_hit (run_of d) (update_columns d r) t (update-run_of d r y)
      ∙ ap (λ x. some (update_columns d x)) same
  | inr n ↦
      ap (find (run_of d)) (upsert_miss d r t (not_same_key d r n))
      ∙ find_miss (run_of d) r (upsert d t) n
      ∙ find-upsert-some d log t (sym (find_miss (run_of d) r t n) ∙ h) e
]
  where
    some-injective : {a b : TaskLog} → some a ≡ some b → a ≡ b
    some-injective q = cc

-- A run without a row gets the new one.
pub find-upsert-none :
    (d : TaskLog) (t : Table) → find (run_of d) t ≡ none → find (run_of d) (upsert d t) ≡ some d
unfolding upsert
find-upsert-none d [] h = find_hit (run_of d) d [] (run_of_refl d)
find-upsert-none d (r ∷ t) h = elim (Bool-cases (run_of d r)) [
  | inl y ↦ absurd (some_none (sym (find_hit (run_of d) r t y) ∙ h))
  | inr n ↦
      ap (find (run_of d)) (upsert_miss d r t (not_same_key d r n))
      ∙ find_miss (run_of d) r (upsert d t) n
      ∙ find-upsert-none d t (sym (find_miss (run_of d) r t n) ∙ h)
]
  where
    some_none : {a : TaskLog} → some a ≡ none → ⊥
    some_none q = cc

run_of-create_time :
    (now : ℕ) (d : TaskLog) (t : Table)
    → find (run_of (with_create_time now d)) t ≡ find (run_of d) t
run_of-create_time now d t = ground arith

abbrev pub one : TaskLog → Table → Option TaskLog
one d t = get_one d.project_id d.task_id d.tmp_id t

pub one-create_or_update-some :
    (now : ℕ) (d log : TaskLog) (t : Table)
    → one d t ≡ some log
    → log.plan_time ≡ d.plan_time
    → one d (create_or_update_task_log true now d t) ≡ some (update_columns d log)
unfolding get_one create_or_update_task_log
one-create_or_update-some now d log t h e = elim (Bool-cases (d.create_time == 0)) [
  | inl y ↦ rw y (find-upsert-some (record d { create_time = now }) log t h e)
  | inr n ↦ rw n (find-upsert-some d log t h e)
]

pub one-create_or_update-none :
    (now : ℕ) (d : TaskLog) (t : Table)
    → one d t ≡ none
    → one d (create_or_update_task_log true now d t) ≡ some (with_create_time now d)
unfolding get_one create_or_update_task_log
one-create_or_update-none now d t h = elim (Bool-cases (d.create_time == 0)) [
  | inl y ↦ rw y (find-upsert-none (record d { create_time = now }) t h)
  | inr n ↦ rw n (find-upsert-none d t h)
]

In-tail : (x r s : TaskLog) (t : Table) → r ≢ x → In x (r ∷ t) → In x (s ∷ t)
In-tail x r s t n (inl q) = absurd (n q)
In-tail x r s t n (inr w) = inr w

-- Rows that have ended stay: an update reaches only the first row of its key.
pub In-upsert :
    (d log x : TaskLog) (t : Table)
    → find (run_of d) t ≡ some log
    → log.end_time ≡ 0
    → log.plan_time ≡ d.plan_time
    → x.end_time ≢ 0
    → In x t
    → In x (upsert d t)
In-upsert d log x [] h e p n m = absurd m
In-upsert d log x (r ∷ t) h e p n m = elim (Bool-cases (run_of d r)) [
  | inl y ↦
      let same = some-injective (sym (find_hit (run_of d) r t y) ∙ h) in
      let hit = upsert_hit d r t (same_key-plan_time d r y (ap (λ x. x.plan_time) same ∙ p)) in
      subst (In x) (sym hit)
        (In-tail x r (update_columns d r) t (λ q. n (ap (λ x. x.end_time) (sym q ∙ same) ∙ e)) m)
  | inr miss ↦
      subst (In x) (sym (upsert_miss d r t (not_same_key d r miss)))
        (in_tail m (λ w. In-upsert d log x t (sym (find_miss (run_of d) r t miss) ∙ h) e p n w))
]
  where
    some-injective : {a b : TaskLog} → some a ≡ some b → a ≡ b
    some-injective q = cc

    in_tail : In x (r ∷ t) → (In x t → In x (upsert d t)) → In x (r ∷ upsert d t)
    in_tail (inl q) f = inl q
    in_tail (inr w) f = inr (f w)

pub In-create_or_update :
    (now : ℕ) (d log x : TaskLog) (t : Table)
    → one d t ≡ some log
    → log.end_time ≡ 0
    → log.plan_time ≡ d.plan_time
    → x.end_time ≢ 0
    → In x t
    → In x (create_or_update_task_log true now d t)
unfolding get_one create_or_update_task_log
In-create_or_update now d log x t h e p n m = elim (Bool-cases (d.create_time == 0)) [
  | inl y ↦ rw y (In-upsert (record d { create_time = now }) log x t h e p n m)
  | inr f ↦ rw f (In-upsert d log x t h e p n m)
]

find-holds : (p : TaskLog → Bool) (t : Table) {log : TaskLog} → find p t ≡ some log → p log ≡ true
unfolding find
find-holds p [] h = cc
find-holds p (r ∷ t) {log} h = elim (Bool-cases (p r)) [
  | inl y ↦ ground arith
  | inr n ↦ find-holds p t (sym (find_miss p r t n) ∙ h)
]

-- the row that is found is one of the run
pub one-keys :
    (pid : ℕ) (tid tmp : Text) (t u : Table) {log : TaskLog}
    → get_one pid tid tmp t ≡ some log
    → one log u ≡ get_one pid tid tmp u
unfolding get_one is_run
one-keys pid tid tmp t u {log} h =
    let held = find-holds (is_run pid tid tmp) t h in
    let i : log.project_id ≡ pid = ground arith in
    let k : log.task_id ≡ tid = ground (arith, text_eq_iff log.task_id tid) in
    let m : log.tmp_id ≡ tmp = ground (arith, text_eq_iff log.tmp_id tmp) in
    ap (λ x. find (is_run x log.task_id log.tmp_id) u) i
    ∙ ap (λ x. find (is_run pid x log.tmp_id) u) k
    ∙ ap (λ x. find (is_run pid tid x) u) m

pub one-get_one :
    (pid : ℕ) (tid tmp : Text) (t : Table) {log : TaskLog}
    → get_one pid tid tmp t ≡ some log
    → one log t ≡ some log
one-get_one pid tid tmp t h = one-keys pid tid tmp t t h ∙ h

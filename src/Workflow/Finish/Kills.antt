-- ===== src/Workflow/Finish/Kills.antt =====
-- Which tasks the end of a run kills.
use gopher_cron.Base.{
  Text, List, [], ◌∷◌, ◌++◌, eq_text, false, Option, none, some, if◌then◌else◌, ◌≡◌, refl, sym, ◌∙◌,
  Bool-cases, inl, inr, append-nil, append_assoc, nat_eq,
}
use gopher_cron.Workflow.Types.{
  Status, starting, running, finished, done, fail, not_running, other, WorkflowTaskInfo,
  WorkflowTaskStates,
}
use gopher_cron.Workflow.Finish.{
  Detail, db_error, missing, named, info_of, Tally, runs, complaint, mark, write_complaint, tally,
}

-- The tasks that are starting or running.
abbrev pub running_of : List WorkflowTaskStates → List WorkflowTaskInfo
running_of [] = []
running_of (v ∷ vs) =
    let rest = running_of vs in if runs v.current_status then info_of v ∷ rest else rest

pub complaint-runs : (s : Status) → complaint s ≡ none → runs s ≡ false
unfolding complaint
complaint-runs starting h = cc
complaint-runs running h = cc
complaint-runs finished h = refl
complaint-runs not_running h = refl
complaint-runs done h = refl
complaint-runs fail h = refl
complaint-runs (other t) h = refl

pub mark-kill_list :
    (v : WorkflowTaskStates) (t : Tally) (rest : List WorkflowTaskInfo)
    → (mark v t).kill_list ++ rest
      ≡ t.kill_list ++ (if runs v.current_status then info_of v ∷ rest else rest)
unfolding mark
mark-kill_list v t rest = elim (Bool-cases (runs v.current_status)) [
  | inl h ↦ rw h (append_assoc t.kill_list (info_of v ∷ []) rest)
  | inr h ↦ rw h refl
]

-- If every task of a run is found, the kill list holds the tasks that are starting or running, in order.
pub tally-kill_list :
    (detail : WorkflowTaskInfo → Detail) (vs : List WorkflowTaskStates) (t : Tally)
    → (tally detail vs t).1 ≡ none
    → (tally detail vs t).0.kill_list ≡ t.kill_list ++ running_of vs
unfolding tally write_complaint
tally-kill_list detail [] t h = sym (append-nil t.kill_list)
tally-kill_list detail (v ∷ vs) t h =
    go (detail (info_of v)) (complaint v.current_status) refl refl
      (λ t' h'. tally-kill_list detail vs t' h')
  where
    go :
        (d : Detail) (c : Option Text)
        → detail (info_of v) ≡ d
        → complaint v.current_status ≡ c
        → ((t' : Tally)
            → (tally detail vs t').1 ≡ none
            → (tally detail vs t').0.kill_list ≡ t'.kill_list ++ running_of vs)
        → (tally detail (v ∷ vs) t).0.kill_list ≡ t.kill_list ++ running_of (v ∷ vs)
    go db_error c e p ih = let x = rw (e, tally) at h in cc
    go missing none e p ih =
        rw (complaint-runs v.current_status p) (rw (e, p, tally) (ih t (rw (e, p, tally) at h)))
    go missing (some c) e p ih = let x = rw (e, p, tally) at h in cc
    go (named n) none e p ih =
        rw (complaint-runs v.current_status p) (rw (e, p, tally) (ih t (rw (e, p, tally) at h)))
    go (named n) (some c) e p ih =
        rw (e, p, tally)
          (ih (write_complaint n c (mark v t)) (rw (e, p, tally) at h)
            ∙ mark-kill_list v t (running_of vs))

-- ===== src/Automation/Cycles.antt =====
-- `cycle_completed` and the restart (tikrec/automation.py).
use tik_rec.Base.{
  ℕ, ◌≡◌, refl, sym, subst, Bool, true, false, not, ◌||◌, Option, none, some, List, [], ◌∷◌, ◌++◌,
  if◌then◌else◌, All, leb, is_some,
}
use tik_rec.Text.{Text, TextDict, get, put, pop}
use tik_rec.Text.Laws.{IsDict, put-IsDict, pop-IsDict}
use tik_rec.Automation.{
  AutomationState, PathRules, Job, Liveness, live, offline, unknown, pending, Observation,
  jobs_match_observation,
}
use tik_rec.Automation.Cycle.{
  Services, World, result, set_result, disable, block_live_creators, begin_cycle, rearm, rearm_one,
  replace_state, automation_state_unavailable, automation_state_ambiguous, dict_eq,
}
use tik_rec.Automation.Coordinator.{
  find_admitted, find_observation, is_ready, or_unavailable, capacity, is_exhausted,
  controller_jobs, attempt,
}
use tik_rec.Automation.Fill.{
  classify, admission_of, apply_rearm, fill, admit_and_fill, run_cycle, cycle_completed,
}
use tik_rec.Automation.Ahead.{IsCoherent, replace_state-IsCoherent, set_result-IsCoherent}
use tik_rec.Automation.Attempt.{attempt-Tried, IsCoherent-as}
use tik_rec.Automation.Candidates.{
  NoRepeat, creators, seen_of, IsCanonical, IsFreshIn, find-fresh, classify-IsCandidates,
  sort-NoRepeat, All-sort,
}
use tik_rec.Automation.Loop.{
  AllNew, transport-All, choose-IsCoherent, choose_three-IsCoherent, set_results-IsCoherent,
  block-IsCoherent, disable-IsCoherent, begin-IsCoherent, classify-IsCoherent,
}

rearm_one-IsDict :
    (jobs : List Job) (s : Liveness) (o : Observation) (consumed : TextDict Text)
    (again : List Text)
    → IsDict consumed
    → IsDict (rearm_one jobs s o consumed again).0
unfolding rearm_one
rearm_one-IsDict jobs live o consumed again d = by_match (jobs_match_observation o jobs) o.room_id
  where
    by_match :
        (b : Bool) (q : Option Text)
        → let r : TextDict Text × List Text =
            if b
            then elim q [ none ↦ (consumed, again) | some r ↦ (put consumed o.creator r, again) ]
            else (consumed, again) in
          IsDict r.0
    by_match true none = d
    by_match true (some r) = put-IsDict consumed o.creator r d
    by_match false q = d
rearm_one-IsDict jobs offline o consumed again d = by_known (is_some (get consumed o.creator))
  where
    by_known :
        (b : Bool)
        → let r : TextDict Text × List Text =
            if b then (pop consumed o.creator, o.creator ∷ again) else (consumed, again) in
          IsDict r.0
    by_known true = pop-IsDict consumed o.creator d
    by_known false = d
rearm_one-IsDict jobs unknown o consumed again d = d
rearm_one-IsDict jobs pending o consumed again d = d

rearm-IsDict :
    (jobs : List Job) (os : List Observation) (consumed : TextDict Text) (again : List Text)
    → IsDict consumed
    → IsDict (rearm jobs os consumed again).0
unfolding rearm
rearm-IsDict jobs [] consumed again d = d
rearm-IsDict jobs (o ∷ os) consumed again d =
    let (c, r) = rearm_one jobs o.state o consumed again in
    rearm-IsDict jobs os c r (rearm_one-IsDict jobs o.state o consumed again d)

module _ (rules : PathRules) (services : Services) (raw_copy_creators : List Text) where
  open services use {State, jobs, evaluate}

  apply_rearm-IsCoherent :
      (seen : List Observation) (w : World State)
      → IsCoherent rules w
      → IsCoherent rules (apply_rearm rules services raw_copy_creators seen w).1
  unfolding apply_rearm
  apply_rearm-IsCoherent seen w k = by_jobs (controller_jobs rules services w.services)
    where
      by_jobs :
          (js : Option (List Job))
          → let r : List Text × World State = elim js [
            | none ↦ ([], disable automation_state_ambiguous w)
            | some js ↦
                let (consumed, again) = rearm js seen w.state.consumed_rooms [] in
                (
                  again,
                  if dict_eq consumed w.state.consumed_rooms
                      then w
                      else (replace_state rules consumed w.state.pending_claim
                          automation_state_unavailable w).1,
                )
          ] in
            IsCoherent rules r.1
      by_jobs none = disable-IsCoherent rules automation_state_ambiguous w k
      by_jobs (some js) =
          choose-IsCoherent rules
            (dict_eq (rearm js seen w.state.consumed_rooms []).0 w.state.consumed_rooms) w _ k
            (replace_state-IsCoherent rules _ w.state.pending_claim automation_state_unavailable w
              (rearm-IsDict js seen w.state.consumed_rooms [] k.keyed) k)

  -- The loop over distinct creators with new rooms.
  fill-IsCoherent :
      (seen : List Observation) (cs : List Text) (w : World State)
      → NoRepeat cs
      → AllNew seen w cs
      → IsCoherent rules w
      → IsCoherent rules (fill rules services raw_copy_creators seen cs w)
  unfolding fill
  fill-IsCoherent seen [] w d new k = k
  fill-IsCoherent seen (c ∷ cs) w d new k =
      let admission = admission_of (find_admitted c (evaluate w.services seen)) in
      let reason = capacity (or_unavailable admission.reason) in
      let passed = set_result c (result admission.state (some reason)) w in
      let passed_k = set_result-IsCoherent rules c (result admission.state (some reason)) w k in
      let chosen : World State = record w { selected_creators = w.selected_creators ++ c ∷ [] } in
      let t =
        attempt-Tried rules services raw_copy_creators c (find_observation c seen) admission chosen
          (λ o r found room. find-fresh w.state.consumed_rooms seen c o r new.0 found room)
          (IsCoherent-as rules chosen w (refl, refl, refl, refl) k) in
      choose_three-IsCoherent rules (is_ready admission.state)
        (attempt rules services raw_copy_creators c (find_observation c seen) admission chosen).0
        (is_exhausted reason) _ _ _ _
        (λ going.
          fill-IsCoherent seen cs _ d.1
            (transport-All w.state.consumed_rooms _ seen c cs d.0 (t.others going) new.1)
            t.coherent)
        (set_results-IsCoherent rules _ cs _ t.coherent)
        (set_results-IsCoherent rules _ cs passed passed_k)
        (fill-IsCoherent seen cs passed d.1 (unfold set_result in new.1) passed_k)

  admit_and_fill-IsCoherent :
      (seen : List Observation) (again : List Text) (w : World State)
      → NoRepeat (creators seen)
      → All IsCanonical seen
      → seen_of (evaluate w.services seen) ≡ seen
      → IsCoherent rules w
      → IsCoherent rules (admit_and_fill rules services raw_copy_creators seen again w)
  unfolding admit_and_fill
  admit_and_fill-IsCoherent seen again w d canon same k =
      let admitted = evaluate w.services seen in
      let consumed = w.state.consumed_rooms in
      let cs =
        classify-IsCandidates consumed again admitted w
          (subst (λ os. NoRepeat (creators os)) (sym same) d)
          (subst (All IsCanonical) (sym same) canon) in
      let (kv, kept) = classify-IsCoherent rules consumed again admitted w k in
      fill-IsCoherent seen _ _ (sort-NoRepeat _ cs.distinct)
        (All-sort (IsFreshIn _ seen) _ (
          subst
            (λ (s : AutomationState).
              All (IsFreshIn s.consumed_rooms seen) (classify consumed again admitted w).0)
            (sym kept)
            (subst (λ os. All (IsFreshIn consumed os) (classify consumed again admitted w).0) same
              cs.fresh)))
        kv

  run_cycle-IsCoherent :
      (seen : List Observation) (w : World State)
      → NoRepeat (creators seen)
      → All IsCanonical seen
      → ((s : State) → seen_of (evaluate s seen) ≡ seen)
      → IsCoherent rules w
      → IsCoherent rules (run_cycle rules services raw_copy_creators seen w)
  unfolding run_cycle
  run_cycle-IsCoherent seen w d canon same k =
      choose-IsCoherent rules (not w.operational) _ _ (block-IsCoherent rules seen w k) (
        by_rearmed (apply_rearm rules services raw_copy_creators seen w)
          (apply_rearm-IsCoherent seen w k))
    where
      by_rearmed :
          (r : List Text × World State)
          → IsCoherent rules r.1
          → IsCoherent rules (
              if not r.1.operational
              then block_live_creators seen r.1
              else admit_and_fill rules services raw_copy_creators seen r.0 r.1)
      by_rearmed (again, v) kv =
          choose-IsCoherent rules (not v.operational) _ _ (block-IsCoherent rules seen v kv)
            (admit_and_fill-IsCoherent seen again v d canon (same v.services) kv)

  pub cycle_completed-IsCoherent :
      (cycle : ℕ) (seen : List Observation) (w : World State)
      → NoRepeat (creators seen)
      → All IsCanonical seen
      → ((s : State) → seen_of (evaluate s seen) ≡ seen)
      → IsCoherent rules w
      → IsCoherent rules (cycle_completed rules services raw_copy_creators cycle seen w)
  unfolding cycle_completed
  cycle_completed-IsCoherent cycle seen w d canon same k =
      choose-IsCoherent rules (w.stopping || leb cycle w.latest_cycle_count) _ _ k (
        run_cycle-IsCoherent seen (begin_cycle cycle w) d canon same
          (begin-IsCoherent rules cycle w k))

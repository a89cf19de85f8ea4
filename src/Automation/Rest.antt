-- ===== src/Automation/Rest.antt =====
-- The pending claim of a coordinator between its steps (tikrec/automation.py).
use tik_rec.Base.{
  ℕ, ◌≡◌, refl, sym, ap, ◌∙◌, Bool, true, false, not, Option, none, some, List, [], ◌∷◌, ◌++◌,
  if◌then◌else◌,
}
use tik_rec.Text.{Text, TextDict, put, text_in}
use tik_rec.Automation.{
  Claim, AutomationState, PathRules, Job, Liveness, live, offline, unknown, pending, Observation,
  jobs_match_claim, jobs_prove_no_claimed_start,
}
use tik_rec.Automation.Cycle.{
  Services, World, Reason, stop, result, CycleResult, set_result, set_results, disable,
  block_live_creators, begin_cycle, rearm, replace_state, rejected, Admission, Admitted, StartReply,
  accepted, SaveOutcome, blocked, automation_state_unavailable, automation_state_ambiguous, dict_eq,
  controller_state_unavailable,
}
use tik_rec.Automation.Coordinator.{
  controller_jobs, make_claim, settle_reply, start_claimed, attempt_claim, attempt,
  prior_session_id_for_start,
}
use tik_rec.Automation.Fill.{
  classify, apply_rearm, fill, admit_and_fill, run_cycle, cycle_completed, reconcile,
  reconcile_claim, load_and_reconcile, restart,
}
use tik_rec.Automation.Ahead.{target, Replaced, replace_state_lem}

pub record IsAtRest {S : Type 0} (w : World S) : Type 0 where
  pub unclaimed : w.operational ≡ true → w.state.pending_claim ≡ none

module _ {S : Type 0} where
  pub IsAtRest-as :
      (v w : World S) → v.operational ≡ w.operational → v.state ≡ w.state → IsAtRest w → IsAtRest v
  IsAtRest-as v w o s k = record {
    unclaimed = λ e. ap (λ (x : AutomationState). x.pending_claim) s ∙ k.unclaimed (sym o ∙ e);
  }

  choose-IsAtRest :
      (b : Bool) (v w : World S) → IsAtRest v → IsAtRest w → IsAtRest (if b then v else w)
  choose-IsAtRest true v w h k = h
  choose-IsAtRest false v w h k = k

  disable-IsAtRest : (reason : Reason) (w : World S) → IsAtRest (disable reason w)
  unfolding disable
  disable-IsAtRest reason w = record { unclaimed = λ e. cc (e) }

  set_result-IsAtRest :
      (c : Text) (r : CycleResult) (w : World S) → IsAtRest w → IsAtRest (set_result c r w)
  unfolding set_result
  set_result-IsAtRest c r w k = IsAtRest-as _ w refl refl k

  pub stop-IsAtRest : (w : World S) → IsAtRest w → IsAtRest (stop w)
  unfolding stop
  stop-IsAtRest w k = IsAtRest-as _ w refl refl k

  set_results-IsAtRest :
      (r : CycleResult) (cs : List Text) (w : World S) → IsAtRest w → IsAtRest (set_results r cs w)
  unfolding set_results
  set_results-IsAtRest r [] w k = k
  set_results-IsAtRest r (c ∷ cs) w k = set_results-IsAtRest r cs _ (set_result-IsAtRest c r w k)

  block-IsAtRest :
      (os : List Observation) (w : World S) → IsAtRest w → IsAtRest (block_live_creators os w)
  unfolding block_live_creators
  block-IsAtRest [] w k = k
  block-IsAtRest (o ∷ os) w k = block-IsAtRest os _ (by_state o.state)
    where
      by_state :
          (s : Liveness)
          → IsAtRest
              (elim s [ live ↦ set_result o.creator (result blocked w.blocked_reason) w | _ ↦ w ])
      by_state live = set_result-IsAtRest o.creator (result blocked w.blocked_reason) w k
      by_state offline = k
      by_state unknown = k
      by_state pending = k

  classify-IsAtRest :
      (consumed : TextDict Text) (again : List Text) (as' : List Admitted) (w : World S)
      → IsAtRest w
      → IsAtRest (classify consumed again as' w).1
  unfolding classify
  classify-IsAtRest consumed again [] w k = k
  classify-IsAtRest consumed again (a ∷ as') w k =
      classify-IsAtRest consumed again as' _ (set_result-IsAtRest a.seen.creator _ w k)

  -- A save is at rest where it writes no claim, and also where it does not return.
  Replaced-IsAtRest :
      (rules : PathRules) (s : AutomationState) (w : World S) (r : Bool × World S)
      → Replaced rules s w r
      → (w.operational ≡ true → s.pending_claim ≡ none)
      → IsAtRest r.1
  Replaced-IsAtRest rules s w (true, v) h clear = record {
    unclaimed = λ e. ap (λ (x : AutomationState). x.pending_claim) h.0 ∙ clear (sym h.2 ∙ e);
  }
  Replaced-IsAtRest rules s w (false, v) h clear = record { unclaimed = λ e. cc (h.0, e) }

  replace_state-IsAtRest :
      (rules : PathRules) (consumed : TextDict Text) (claim : Option Claim) (reason : Reason)
      (w : World S)
      → (w.operational ≡ true → claim ≡ none)
      → IsAtRest (replace_state rules consumed claim reason w).1
  replace_state-IsAtRest rules consumed claim reason w clear =
      Replaced-IsAtRest rules (target consumed claim) w _
        (replace_state_lem rules consumed claim reason w) clear

  rejected-IsAtRest :
      (rules : PathRules) (c : Text) (reason : Reason) (again : Bool) (w : World S)
      → IsAtRest (rejected rules c reason again w).1
  unfolding rejected
  rejected-IsAtRest rules c reason again w = set_result-IsAtRest c _ _ (
      replace_state-IsAtRest rules w.state.consumed_rooms none automation_state_ambiguous w
        (λ e. refl))

module _ (rules : PathRules) (services : Services) where
  open services use {State}

  -- Whatever `start` answers, the claim is dropped or the coordinator is disabled.
  settle_reply-IsAtRest :
      (claim : Claim) (reply : StartReply) (w : World State)
      → IsAtRest (settle_reply rules services claim reply w).1
  unfolding settle_reply
  settle_reply-IsAtRest claim (accepted job) w =
      unfold set_result in
      IsAtRest-as _
        (replace_state rules (put w.state.consumed_rooms claim.creator claim.room_id) none
          automation_state_ambiguous w).1
        refl refl (replace_state-IsAtRest rules _ none automation_state_ambiguous w (λ e. refl))
  settle_reply-IsAtRest claim StartReply.duplicate w =
      rejected-IsAtRest rules claim.creator _ true w
  settle_reply-IsAtRest claim StartReply.busy w = rejected-IsAtRest rules claim.creator _ false w
  settle_reply-IsAtRest claim StartReply.refused w = rejected-IsAtRest rules claim.creator _ false w

  attempt_claim-IsAtRest :
      (raw : Bool) (c : Text) (found : Option Claim) (w : World State)
      → IsAtRest w
      → IsAtRest (attempt_claim rules services raw c found w).1
  unfolding attempt_claim start_claimed
  attempt_claim-IsAtRest raw c none w k = set_result-IsAtRest c _ w k
  attempt_claim-IsAtRest raw c (some claim) w k =
      by_save
        (replace_state rules w.state.consumed_rooms (some claim) automation_state_unavailable w)
        (replace_state_lem rules w.state.consumed_rooms (some claim) automation_state_unavailable w)
    where
      by_save :
          (r : Bool × World State)
          → Replaced rules (target w.state.consumed_rooms (some claim)) w r
          → let v : Bool × World State =
              if r.0
              then start_claimed rules services raw claim r.1
              else (false, set_result c (result blocked (some automation_state_unavailable)) r.1) in
            IsAtRest v.1
      by_save (true, v) h = settle_reply-IsAtRest claim _ _
      by_save (false, v) h = set_result-IsAtRest c _ v (record { unclaimed = λ e. cc (h.0, e) })

  module _ (raw_copy_creators : List Text) where
    attempt-IsAtRest :
        (c : Text) (observed : Option Observation) (a : Admission) (w : World State)
        → IsAtRest w
        → IsAtRest (attempt rules services raw_copy_creators c observed a w).1
    unfolding attempt
    attempt-IsAtRest c observed a w k =
        by_fingerprint (prior_session_id_for_start rules services w.services)
      where
        by_fingerprint :
            (prior : Option (Option Text))
            → let v : Bool × World State = elim prior [
              | none ↦ (false, set_result c (result blocked (some controller_state_unavailable)) w)
              | some previous ↦
                  attempt_claim rules services
                    (text_in c raw_copy_creators)
                    c
                    (make_claim rules c observed a previous)
                    w
            ] in
              IsAtRest v.1
        by_fingerprint none = set_result-IsAtRest c _ w k
        by_fingerprint (some previous) = attempt_claim-IsAtRest _ c _ w k

    fill-IsAtRest :
        (seen : List Observation) (cs : List Text) (w : World State)
        → IsAtRest w
        → IsAtRest (fill rules services raw_copy_creators seen cs w)
    unfolding fill
    fill-IsAtRest seen [] w k = k
    fill-IsAtRest seen (c ∷ cs) w k =
        let passed = set_result-IsAtRest c _ w k in
        let tried =
          attempt-IsAtRest c _ _ (record w { selected_creators = w.selected_creators ++ c ∷ [] })
            (IsAtRest-as _ w refl refl k) in
        choose-IsAtRest _ _ _
          (choose-IsAtRest _ _ _ (fill-IsAtRest seen cs _ tried)
            (set_results-IsAtRest _ cs _ tried))
          (choose-IsAtRest _ _ _ (set_results-IsAtRest _ cs _ passed)
            (fill-IsAtRest seen cs _ passed))

    apply_rearm-IsAtRest :
        (seen : List Observation) (w : World State)
        → IsAtRest w
        → IsAtRest (apply_rearm rules services raw_copy_creators seen w).1
    unfolding apply_rearm
    apply_rearm-IsAtRest seen w k = by_jobs (controller_jobs rules services w.services)
      where
        by_jobs :
            (js : Option (List Job))
            → let r : List Text × World State = elim js [
              | none ↦ ([], disable automation_state_ambiguous w)
              | some js ↦
                  let (consumed, again) = rearm js seen w.state.consumed_rooms [] in
                  (
                    again,
                    if dict_eq consumed w.state.consumed_rooms
                        then w
                        else (replace_state rules consumed w.state.pending_claim
                            automation_state_unavailable w).1,
                  )
            ] in
              IsAtRest r.1
        by_jobs none = disable-IsAtRest automation_state_ambiguous w
        by_jobs (some js) = choose-IsAtRest _ w _ k (
            replace_state-IsAtRest rules _ w.state.pending_claim automation_state_unavailable w
              k.unclaimed)

    run_cycle-IsAtRest :
        (seen : List Observation) (w : World State)
        → IsAtRest w
        → IsAtRest (run_cycle rules services raw_copy_creators seen w)
    unfolding run_cycle admit_and_fill
    run_cycle-IsAtRest seen w k =
        let rearmed = apply_rearm-IsAtRest seen w k in
        choose-IsAtRest (not w.operational) _ _ (block-IsAtRest seen w k) (
          choose-IsAtRest _ _ _ (block-IsAtRest seen _ rearmed)
            (fill-IsAtRest seen _ _ (classify-IsAtRest _ _ _ _ rearmed)))

    pub cycle_completed-IsAtRest :
        (cycle : ℕ) (seen : List Observation) (w : World State)
        → IsAtRest w
        → IsAtRest (cycle_completed rules services raw_copy_creators cycle seen w)
    unfolding cycle_completed begin_cycle
    cycle_completed-IsAtRest cycle seen w k =
        choose-IsAtRest _ _ _ k
          (run_cycle-IsAtRest seen (begin_cycle cycle w) (IsAtRest-as _ w refl refl k))

    reconcile-IsAtRest :
        (c : Claim) (js : Option (List Job)) (w : World State)
        → IsAtRest (reconcile rules services raw_copy_creators c js w)
    unfolding reconcile
    reconcile-IsAtRest c none w = disable-IsAtRest automation_state_ambiguous w
    reconcile-IsAtRest c (some js) w =
        choose-IsAtRest (jobs_match_claim c js) _ _
          (replace_state-IsAtRest rules _ none automation_state_ambiguous w (λ e. refl))
          (choose-IsAtRest (jobs_prove_no_claimed_start c js) _ _
            (replace_state-IsAtRest rules _ none automation_state_ambiguous w (λ e. refl))
            (disable-IsAtRest automation_state_ambiguous w))

    pub restart-IsAtRest :
        (loaded : Option AutomationState) (schedule : List SaveOutcome) (w : World State)
        → IsAtRest (restart rules services raw_copy_creators loaded schedule w)
    unfolding restart load_and_reconcile
    restart-IsAtRest none schedule w = unfold disable in record { unclaimed = λ e. cc }
    restart-IsAtRest (some s) schedule w = by_claim s.pending_claim _ refl
      where
        by_claim :
            (claim : Option Claim) (v : World State)
            → v.state.pending_claim ≡ claim
            → IsAtRest (reconcile_claim rules services raw_copy_creators claim v)
        by_claim none v h = record { unclaimed = λ e. h }
        by_claim (some c) v h = reconcile-IsAtRest c _ v

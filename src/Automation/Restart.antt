-- ===== src/Automation/Restart.antt =====
-- The start of a coordinator over what a crash left (`_load_and_reconcile` of tikrec/automation.py).
use tik_rec.Base.{
  ◌≡◌, ◌⊎◌, refl, sym, ap, ◌∙◌, Bool, true, false, Option, none, some, List, if◌then◌else◌, inl,
  inr, All,
}
use tik_rec.Text.{Text, TextDict, get, put}
use tik_rec.Text.Laws.{IsDict, put-IsDict, get-put_self, get-sort_items}
use tik_rec.Automation.{
  Claim, AutomationState, PathRules, Job, jobs_match_claim, jobs_prove_no_claimed_start,
}
use tik_rec.Automation.Cycle.{
  Services, World, SaveOutcome, disable, replace_state, automation_state_ambiguous,
}
use tik_rec.Automation.Coordinator.{controller_jobs}
use tik_rec.Automation.Fill.{reconcile, reconcile_claim, load_and_reconcile, restart}
use tik_rec.Automation.Ahead.{
  IsClaimed, IsCoherent, target, Replaced, replace_state_lem, replace_state-IsCoherent,
}
use tik_rec.Automation.Loop.{choose-IsCoherent, disable-IsCoherent}

-- How an operational coordinator has settled the claim `c` that was on the disk: its start is
-- counted since a job of the controller has it, or forgotten since the jobs exclude it.
pub record IsSettled {S : Type 0} (c : Claim) (jobs : Option (List Job)) (before : AutomationState)
    (v : World S) : Type 0 where
  pub found : List Job
  pub known : jobs ≡ some found
  pub cleared : v.state.pending_claim ≡ none
  pub written : v.durable ≡ v.state
  pub decided :
      ((jobs_match_claim c found ≡ true) × (get v.state.consumed_rooms c.creator ≡ some c.room_id))
      ⊎ ((jobs_match_claim c found ≡ false)
          × (jobs_prove_no_claimed_start c found ≡ true)
          × ((j : Text) → get v.state.consumed_rooms j ≡ get before.consumed_rooms j))

module _ (rules : PathRules) (services : Services) (raw_copy_creators : List Text) where
  open services use {State, jobs}

  IsSettled-by :
      (c : Claim) (found : List Job) (before : AutomationState) (consumed : TextDict Text)
      (w : World State) (r : Bool × World State)
      → Replaced rules (target consumed none) w r
      → IsDict consumed
      → (((jobs_match_claim c found ≡ true) × (get consumed c.creator ≡ some c.room_id))
          ⊎ ((jobs_match_claim c found ≡ false)
              × (jobs_prove_no_claimed_start c found ≡ true)
              × ((j : Text) → get consumed j ≡ get before.consumed_rooms j)))
      → r.1.operational ≡ true
      → IsSettled c (some found) before r.1
  IsSettled-by c found before consumed w (false, v) h d decided e = cc (h.0)
  IsSettled-by c found before consumed w (true, v) h d decided e =
      let look : (j : Text) → get v.state.consumed_rooms j ≡ get consumed j = λ j.
        ap (λ (s : AutomationState). get s.consumed_rooms j) h.0 ∙ get-sort_items consumed j d in
      record {
        found = found;
        known = refl;
        cleared = ap (λ (s : AutomationState). s.pending_claim) h.0;
        written = h.1 ∙ sym h.0;
        decided = elim decided [
          | inl x ↦ inl (x.0, look c.creator ∙ x.1)
          | inr x ↦ inr (x.0, x.1, λ j. look j ∙ x.2 j)
        ];
      }

  reconcile-IsSettled :
      (c : Claim) (js : Option (List Job)) (w : World State)
      → IsDict w.state.consumed_rooms
      → (reconcile rules services raw_copy_creators c js w).operational ≡ true
      → IsSettled c js w.state (reconcile rules services raw_copy_creators c js w)
  unfolding reconcile disable
  reconcile-IsSettled c none w d = λ e. cc
  reconcile-IsSettled c (some js) w d =
      by_jobs (jobs_match_claim c js) (jobs_prove_no_claimed_start c js) refl refl
    where
      by_jobs :
          (hit idle : Bool)
          → jobs_match_claim c js ≡ hit
          → jobs_prove_no_claimed_start c js ≡ idle
          → let v : World State =
              if hit
              then (replace_state rules
                  (put w.state.consumed_rooms c.creator c.room_id)
                  none
                  automation_state_ambiguous
                  w).1
              else (if idle
                  then (replace_state rules w.state.consumed_rooms none automation_state_ambiguous
                      w).1
                  else disable automation_state_ambiguous w) in
            v.operational ≡ true → IsSettled c (some js) w.state v
      by_jobs true idle e f =
          IsSettled-by c js w.state (put w.state.consumed_rooms c.creator c.room_id) w _
            (replace_state_lem rules (put w.state.consumed_rooms c.creator c.room_id) none
              automation_state_ambiguous w)
            (put-IsDict w.state.consumed_rooms c.creator c.room_id d)
            (inl (e, get-put_self w.state.consumed_rooms c.creator c.room_id))
      by_jobs false true e f =
          IsSettled-by c js w.state w.state.consumed_rooms w _
            (replace_state_lem rules w.state.consumed_rooms none automation_state_ambiguous w) d
            (inr (e, f, λ j. refl))
      by_jobs false false e f = λ k. cc (k)

  reconcile-IsCoherent :
      (c : Claim) (js : Option (List Job)) (w : World State)
      → IsCoherent rules w
      → IsCoherent rules (reconcile rules services raw_copy_creators c js w)
  unfolding reconcile
  reconcile-IsCoherent c none w k = disable-IsCoherent rules automation_state_ambiguous w k
  reconcile-IsCoherent c (some js) w k =
      choose-IsCoherent rules (jobs_match_claim c js) _ _
        (replace_state-IsCoherent rules _ none automation_state_ambiguous w
          (put-IsDict w.state.consumed_rooms c.creator c.room_id k.keyed) k)
        (choose-IsCoherent rules (jobs_prove_no_claimed_start c js) _ _
          (replace_state-IsCoherent rules _ none automation_state_ambiguous w k.keyed k)
          (disable-IsCoherent rules automation_state_ambiguous w k))

  -- After a crash that left a claim on the disk, a coordinator that is operational has settled the
  -- claim by the jobs of the controller, and has written what it decided: the room counts as started
  -- where a job has the claim, and the consumed rooms are as they were where the jobs exclude it.
  pub restart-IsSettled :
      (c : Claim) (schedule : List SaveOutcome) (w : World State)
      → w.durable.pending_claim ≡ some c
      → IsDict w.durable.consumed_rooms
      → (restart rules services raw_copy_creators (some w.durable) schedule w).operational ≡ true
      → IsSettled c
          (controller_jobs rules services w.services)
          w.durable
          (restart rules services raw_copy_creators (some w.durable) schedule w)
  unfolding restart load_and_reconcile
  restart-IsSettled c schedule w pending d =
      simp (pending) (reconcile-IsSettled c (controller_jobs rules services w.services) _ d)

  -- A coordinator that could read the document starts coherent.
  pub restart-IsCoherent :
      (readable : Bool) (schedule : List SaveOutcome) (w : World State)
      → IsDict w.durable.consumed_rooms
      → All (IsClaimed rules) w.calls
      → IsCoherent rules (
          restart rules services raw_copy_creators
            (if readable then some w.durable else none)
            schedule
            w)
  unfolding restart load_and_reconcile
  restart-IsCoherent false schedule w d calls =
      unfold disable in record { synced = λ e. cc; keyed = tt; stored = d; claimed = calls }
  restart-IsCoherent true schedule w d calls =
      by_claim w.durable.pending_claim _
        (record { synced = λ e. refl; keyed = d; stored = d; claimed = calls })
    where
      by_claim :
          (claim : Option Claim) (v : World State)
          → IsCoherent rules v
          → IsCoherent rules (reconcile_claim rules services raw_copy_creators claim v)
      by_claim none v k = k
      by_claim (some c) v k = reconcile-IsCoherent c _ v k

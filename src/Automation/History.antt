-- ===== src/Automation/History.antt =====
-- Every history of a coordinator: cycles, stops, changes of the controller, crashes and restarts
-- (tikrec/automation.py).
use tik_rec.Base.{ℕ, ◌≡◌, refl, ap, ◌∙◌, Bool, true, none, some, List, [], if◌then◌else◌, All}
use tik_rec.Text.{Text}
use tik_rec.Text.Laws.{IsDict}
use tik_rec.Automation.{AutomationState, PathRules, Observation}
use tik_rec.Automation.Cycle.{Services, World, SaveOutcome, stop}
use tik_rec.Automation.Fill.{cycle_completed, restart}
use tik_rec.Automation.Ahead.{IsClaimed, IsCoherent}
use tik_rec.Automation.Attempt.{IsCoherent-as}
use tik_rec.Automation.Candidates.{NoRepeat, creators, seen_of, IsCanonical}
use tik_rec.Automation.Rest.{
  IsAtRest, IsAtRest-as, stop-IsAtRest, cycle_completed-IsAtRest, restart-IsAtRest,
}
use tik_rec.Automation.Cycles.{cycle_completed-IsCoherent}
use tik_rec.Automation.Restart.{restart-IsCoherent}

module _ (rules : PathRules) (services : Services) (raw_copy_creators : List Text) where
  open services use {State, evaluate}

  -- What can happen: a cycle of the monitor, whose snapshot names each configured creator once; a
  -- stop; a change of the controller or the admission by themselves; and a crash with a restart over
  -- the document on the disk, if it can be read.
  pub data Step : World State → World State → Type 0 where
    cycle :
        (n : ℕ) (seen : List Observation) (w : World State)
        → NoRepeat (creators seen)
        → All IsCanonical seen
        → Step w (cycle_completed rules services raw_copy_creators n seen w)
    stopped : (w : World State) → Step w (stop w)
    moved : (s : State) (w : World State) → Step w (record w { services = s })
    restarted :
        (readable : Bool) (schedule : List SaveOutcome) (w : World State)
        → Step w (
            restart rules services raw_copy_creators
              (if readable then some w.durable else none)
              schedule
              w)

  -- From a first start over some document, before any call.
  pub data Reachable : World State → Type 0 where
    created :
        (readable : Bool) (schedule : List SaveOutcome) (w : World State)
        → IsDict w.durable.consumed_rooms
        → w.calls ≡ []
        → Reachable (
            restart rules services raw_copy_creators
              (if readable then some w.durable else none)
              schedule
              w)
    later : (w v : World State) → Reachable w → Step w v → Reachable v

  Reachable-IsAtRest : (w : World State) → Reachable w → IsAtRest w
  Reachable-IsAtRest _ (created readable schedule w d e) =
      restart-IsAtRest rules services raw_copy_creators _ schedule w
  Reachable-IsAtRest _ (later w _ r (cycle n seen _ d canon)) =
      cycle_completed-IsAtRest rules services raw_copy_creators n seen w (Reachable-IsAtRest w r)
  Reachable-IsAtRest _ (later w _ r (stopped _)) = stop-IsAtRest w (Reachable-IsAtRest w r)
  Reachable-IsAtRest _ (later w _ r (moved s _)) =
      IsAtRest-as _ w refl refl (Reachable-IsAtRest w r)
  Reachable-IsAtRest _ (later w _ r (restarted readable schedule _)) =
      restart-IsAtRest rules services raw_copy_creators _ schedule w

  module _
      (faithful : (s : State) (seen : List Observation) → seen_of (evaluate s seen) ≡ seen) where
    Step-IsCoherent : (w v : World State) → Step w v → IsCoherent rules w → IsCoherent rules v
    Step-IsCoherent w _ (cycle n seen _ d canon) k =
        cycle_completed-IsCoherent rules services raw_copy_creators n seen w d canon
          (λ s. faithful s seen) k
    Step-IsCoherent w _ (stopped _) k =
        unfold stop in IsCoherent-as rules _ w (refl, refl, refl, refl) k
    Step-IsCoherent w _ (moved s _) k = IsCoherent-as rules _ w (refl, refl, refl, refl) k
    Step-IsCoherent w _ (restarted readable schedule _) k =
        restart-IsCoherent rules services raw_copy_creators readable schedule w k.stored k.claimed

    Reachable-IsCoherent : (w : World State) → Reachable w → IsCoherent rules w
    Reachable-IsCoherent _ (created readable schedule w d e) =
        restart-IsCoherent rules services raw_copy_creators readable schedule w d (rw e tt)
    Reachable-IsCoherent v (later w _ r s) = Step-IsCoherent w v s (Reachable-IsCoherent w r)

    -- In every history of cycles, stops, crashes and restarts, whatever the controller answers and
    -- however each save ends, each call of `start` is made while the document on the disk holds a valid
    -- claim for exactly what is asked for and does not count the room as started; while the coordinator
    -- is operational, memory and disk agree, and between the steps it holds no claim. The admission
    -- returns the observations that it was given, and a snapshot names each creator once, with canonical
    -- rooms.
    pub Reachable-IsClaimed :
        (w : World State)
        → Reachable w
        → All (IsClaimed rules) w.calls
          × (w.operational ≡ true → (w.durable ≡ w.state) × (w.durable.pending_claim ≡ none))
    Reachable-IsClaimed w r =
        let k = Reachable-IsCoherent w r in
        (
          k.claimed,
          λ e. (
            k.synced e,
            ap (λ (x : AutomationState). x.pending_claim) (k.synced e)
                ∙ (Reachable-IsAtRest w r).unclaimed e,
          ),
        )

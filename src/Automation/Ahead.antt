-- ===== src/Automation/Ahead.antt =====
-- The claim on the disk and the calls of `start` (tikrec/automation.py): saves, by how they end.
use tik_rec.Base.{
  ◌≡◌, ◌≢◌, ◌⊎◌, refl, sym, ◌∙◌, Bool, true, false, Option, none, some, List, [], ◌∷◌,
  if◌then◌else◌, All, inl, inr,
}
use tik_rec.Text.{Text, TextDict, get, sort_items}
use tik_rec.Text.Laws.{IsDict, sort_items-IsDict}
use tik_rec.Automation.{Claim, AutomationState, PathRules, claim_valid, state_valid, page_of}
use tik_rec.Automation.Cycle.{
  Reason, automation_state_ambiguous, World, StartCall, CycleResult, SaveOutcome, disable, save_by,
  set_result, replace_state, rejected,
}

-- A call of `start` for a creator: the document on the disk holds a valid claim for exactly what
-- is asked for, and does not count the room as started.
pub record IsClaimed (rules : PathRules) (call : StartCall) : Type 0 where
  pub claim : Claim
  pub durable : call.document.pending_claim ≡ some claim
  pub valid : claim_valid rules claim ≡ true
  pub creator : claim.creator ≡ call.creator
  pub page : call.request.page ≡ page_of claim.creator
  pub output : call.request.output_path ≡ claim.output_path
  pub room : call.request.expected_room_id ≡ claim.room_id
  pub fresh : get call.document.consumed_rooms claim.creator ≢ some claim.room_id

-- What holds of a coordinator between its steps: memory and disk agree while it is operational.
pub record IsCoherent {S : Type 0} (rules : PathRules) (w : World S) : Type 0 where
  pub synced : w.operational ≡ true → w.durable ≡ w.state
  pub keyed : IsDict w.state.consumed_rooms
  pub stored : IsDict w.durable.consumed_rooms
  pub claimed : All (IsClaimed rules) w.calls

abbrev pub target : TextDict Text → Option Claim → AutomationState
target consumed claim = record { consumed_rooms = sort_items consumed; pending_claim = claim }

module _ {S : Type 0} (rules : PathRules) where
  -- What a save has done, by whether it returned.
  abbrev pub Replaced : AutomationState → World S → Bool × World S → Type 0
  Replaced s w (true, v) =
      (v.state ≡ s)
      × (v.durable ≡ s)
      × (v.operational ≡ w.operational)
      × (v.calls ≡ w.calls)
      × (v.services ≡ w.services)
  Replaced s w (false, v) =
      (v.operational ≡ false)
      × (v.state ≡ w.state)
      × (v.calls ≡ w.calls)
      × ((v.durable ≡ w.durable) ⊎ (v.durable ≡ s))

  save_by-Replaced :
      (outcomes : List SaveOutcome) (reason : Reason) (s : AutomationState) (w : World S)
      → Replaced s w (save_by outcomes reason s w)
  unfolding save_by
  save_by-Replaced [] reason s w = (refl, refl, refl, refl, refl)
  save_by-Replaced (SaveOutcome.saved ∷ rest) reason s w = (refl, refl, refl, refl, refl)
  save_by-Replaced (SaveOutcome.raised_before ∷ rest) reason s w = (refl, refl, refl, inl refl)
  save_by-Replaced (SaveOutcome.raised_after ∷ rest) reason s w = (refl, refl, refl, inr refl)

  pub replace_state_lem :
      (consumed : TextDict Text) (claim : Option Claim) (reason : Reason) (w : World S)
      → Replaced (target consumed claim) w (replace_state rules consumed claim reason w)
  unfolding replace_state
  replace_state_lem consumed claim reason w = by_test (state_valid rules (target consumed claim))
    where
      by_test :
          (b : Bool)
          → Replaced (target consumed claim) w (
              if b
              then save_by w.schedule reason (target consumed claim) w
              else (false, disable reason w))
      by_test true = save_by-Replaced w.schedule reason (target consumed claim) w
      by_test false = (refl, refl, refl, inl refl)

  -- A save keeps the coordinator coherent, whatever its outcome.
  Replaced-IsCoherent :
      (s : AutomationState) (w : World S) (r : Bool × World S)
      → Replaced s w r
      → IsDict s.consumed_rooms
      → IsCoherent rules w
      → IsCoherent rules r.1
  Replaced-IsCoherent s w (true, v) h d k = record {
    synced = λ _. h.1 ∙ sym h.0;
    keyed = rw h.0 d;
    stored = rw h.1 d;
    claimed = rw h.3 k.claimed;
  }
  Replaced-IsCoherent s w (false, v) h d k = record {
    synced = λ e. cc (h.0);
    keyed = rw h.1 k.keyed;
    stored = elim h.3 [ inl kept ↦ rw kept k.stored | inr done ↦ rw done d ];
    claimed = rw h.2 k.claimed;
  }

  pub replace_state-IsCoherent :
      (consumed : TextDict Text) (claim : Option Claim) (reason : Reason) (w : World S)
      → IsDict consumed
      → IsCoherent rules w
      → IsCoherent rules (replace_state rules consumed claim reason w).1
  replace_state-IsCoherent consumed claim reason w d k =
      Replaced-IsCoherent (target consumed claim) w _ (replace_state_lem consumed claim reason w)
        (sort_items-IsDict consumed d) k

  pub set_result-IsCoherent :
      (c : Text) (r : CycleResult) (w : World S)
      → IsCoherent rules w
      → IsCoherent rules (set_result c r w)
  unfolding set_result
  set_result-IsCoherent c r w k = record {
    synced = k.synced;
    keyed = k.keyed;
    stored = k.stored;
    claimed = k.claimed;
  }

  pub rejected-IsCoherent :
      (c : Text) (reason : Reason) (again : Bool) (w : World S)
      → IsCoherent rules w
      → IsCoherent rules (rejected rules c reason again w).1
  unfolding rejected
  rejected-IsCoherent c reason again w k =
      set_result-IsCoherent c _ _ (
        replace_state-IsCoherent w.state.consumed_rooms none automation_state_ambiguous w k.keyed k)

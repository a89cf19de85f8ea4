-- ===== src/Automation/Cycle.antt =====
-- `AutomationCoordinator` (tikrec/automation.py). The controller, the admission and the disk are
-- arguments: each call takes and returns their state, and each save has an outcome from a schedule.
use tik_rec.Base.{
  ℕ, Bool, true, false, ◌&&◌, Option, none, some, List, [], ◌∷◌, if◌then◌else◌, is_some,
}
use tik_rec.Text.{Text, TextDict, get, put, pop, sort_items}
use tik_rec.Automation.{
  Claim, AutomationState, PathRules, state_valid, Job, Liveness, live, offline, Observation,
  jobs_match_observation, option_text_eq,
}

-- The words of a result: an admission's own state, and those of the coordinator.
pub data ResultState : Type 0 where
  not_applicable skipped blocked ready : ResultState
  rearmed suppressed eligible started failed not_selected armed : ResultState

pub data Reason : Type 0 where
  recording_slot_unavailable output_directory_unconfigured storage_unavailable : Reason
  low_free_space output_name_unavailable : Reason
  automation_state_unavailable automation_state_ambiguous : Reason
  capacity_exhausted admission_unavailable offline_observed same_room_consumed : Reason
  controller_state_unavailable identity_unavailable duplicate_live_owned : Reason
  start_rejected_busy start_rejected state_promotion_pending prior_start_attempt_failed : Reason
  claim_clear_failed service_shutting_down : Reason

-- The `admission` of one creator.
pub record Admission : Type 0 where
  pub state : ResultState
  pub reason : Option Reason
  pub free_bytes : Option ℕ
  pub output_path : Option Text
  pub parts_directory : Option Text

pub record Admitted : Type 0 where
  pub seen : Observation
  pub admission : Admission

pub record Request : Type 0 where
  pub page : Text
  pub output_path : Text
  pub expected_room_id : Text
  pub raw_copy : Bool

pub record StartedJob : Type 0 where
  pub session_id : Option Text
  pub slot_id : Option Text

-- `start` returns a job, or raises.
pub data StartReply : Type 0 where
  accepted : StartedJob → StartReply
  duplicate busy refused : StartReply

-- What the coordinator calls; `none` is an exception.
pub record Services : Type 1 where
  pub State : Type 0
  pub jobs : State → Option (List Job)
  pub fingerprint : Option (State → Option (Option Text))
  pub start : Request → State → StartReply × State
  pub evaluate : State → List Observation → List Admitted

-- How `AutomationStateStore.save` ends: the document is replaced or not, and the call raises or not.
pub data SaveOutcome : Type 0 where
  saved raised_before raised_after : SaveOutcome

pub record StartedRecording : Type 0 where
  pub creator : Text
  pub room_id : Text
  pub session_id : Option Text
  pub output_path : Text
  pub slot_id : Option Text

pub record CycleResult : Type 0 where
  pub state : ResultState
  pub reason : Option Reason

-- A call of `start`, with the document that was on the disk when it was made.
pub record StartCall : Type 0 where
  pub creator : Text
  pub request : Request
  pub document : AutomationState

pub record World (S : Type 0) : Type 0 where
  pub stopping : Bool
  pub operational : Bool
  pub blocked_reason : Option Reason
  pub state : AutomationState
  pub latest_cycle_count : ℕ
  pub selected_creators : List Text
  pub started_recordings : List StartedRecording
  pub cycle_results : TextDict CycleResult
  pub services : S
  pub durable : AutomationState
  pub schedule : List SaveOutcome
  pub calls : List StartCall

abbrev pub result : ResultState → Option Reason → CycleResult
result state reason = record { state = state; reason = reason }

module _ {S : Type 0} where
  unfoldable pub set_result : Text → CycleResult → World S → World S
  set_result creator r w = record w { cycle_results = put w.cycle_results creator r }

  -- `_disable`
  unfoldable pub disable : Reason → World S → World S
  disable reason w = record w { operational = false; blocked_reason = some reason }

  -- `stop`
  unfoldable pub stop : World S → World S
  stop w = record w { stopping = true }

  -- `save` of a valid document, by the next outcome; a schedule that has run out saves.
  unfoldable pub save_by : List SaveOutcome → Reason → AutomationState → World S → Bool × World S
  unfolding disable
  save_by [] reason s w = (true, record w { durable = s; state = s })
  save_by (SaveOutcome.saved ∷ rest) reason s w =
      (true, record w { durable = s; schedule = rest; state = s })
  save_by (SaveOutcome.raised_before ∷ rest) reason s w =
      (false, disable reason (record w { schedule = rest }))
  save_by (SaveOutcome.raised_after ∷ rest) reason s w =
      (false, disable reason (record w { durable = s; schedule = rest }))

  -- `_replace_state`
  unfoldable pub replace_state :
      PathRules → TextDict Text → Option Claim → Reason → World S → Bool × World S
  unfolding save_by
  replace_state rules consumed claim reason w =
      let s : AutomationState = record {
        consumed_rooms = sort_items consumed;
        pending_claim = claim;
      } in
      if state_valid rules s then save_by w.schedule reason s w else (false, disable reason w)

  -- `_block_live_creators`
  unfoldable pub block_live_creators : List Observation → World S → World S
  unfolding set_result
  block_live_creators [] w = w
  block_live_creators (o ∷ os) w =
      block_live_creators os
        (elim o.state [ live ↦ set_result o.creator (result blocked w.blocked_reason) w | _ ↦ w ])

  -- `_capacity_exhausted`, `_halt_remaining`
  unfoldable pub set_results : CycleResult → List Text → World S → World S
  unfolding set_result
  set_results r [] w = w
  set_results r (c ∷ cs) w = set_results r cs (set_result c r w)

  -- `_begin_cycle`
  unfoldable pub begin_cycle : ℕ → World S → World S
  begin_cycle cycle w = record w {
    latest_cycle_count = cycle;
    selected_creators = [];
    started_recordings = [];
    cycle_results = [];
  }

  -- `_rejected`
  unfoldable pub rejected : PathRules → Text → Reason → Bool → World S → Bool × World S
  unfolding set_result
  rejected rules creator reason is_duplicate w =
      let (cleared, v) =
        replace_state rules w.state.consumed_rooms none automation_state_ambiguous w in
      (
        is_duplicate && cleared,
        set_result creator
            (result (if is_duplicate && cleared then suppressed else failed)
              (some (if cleared then reason else claim_clear_failed)))
            v,
      )

-- One round of the loop in `_apply_rearm_and_existing_job`: the consumed rooms and the creators
-- re-armed.
unfoldable pub rearm_one :
    List Job → Liveness → Observation → TextDict Text → List Text → TextDict Text × List Text
rearm_one jobs live o consumed again =
    if jobs_match_observation o jobs
    then elim o.room_id [ none ↦ (consumed, again) | some r ↦ (put consumed o.creator r, again) ]
    else (consumed, again)
rearm_one jobs offline o consumed again =
    if is_some (get consumed o.creator)
    then (pop consumed o.creator, o.creator ∷ again)
    else (consumed, again)
rearm_one jobs _ o consumed again = (consumed, again)

unfoldable pub rearm :
    List Job → List Observation → TextDict Text → List Text → TextDict Text × List Text
rearm jobs [] consumed again = (consumed, again)
rearm jobs (o ∷ os) consumed again =
    let (c, r) = rearm_one jobs o.state o consumed again in rearm jobs os c r

-- `consumed != before`: as dicts, so whatever the order.
unfoldable pub dict_within : TextDict Text → TextDict Text → Bool
dict_within [] d = true
dict_within (e ∷ c) d = option_text_eq (get d e.0) (some e.1) && dict_within c d

unfoldable pub dict_eq : TextDict Text → TextDict Text → Bool
unfolding dict_within
dict_eq c d = dict_within c d && dict_within d c

-- ===== src/Automation/Coordinator.antt =====
-- One cycle of `AutomationCoordinator`, and its reconciliation after a restart
-- (tikrec/automation.py).
use tik_rec.Base.{Bool, true, false, Option, none, some, List, [], ◌∷◌, ◌++◌, if◌then◌else◌}
use tik_rec.Text.{Text, text_eq, put, text_in}
use tik_rec.Automation.{
  Claim, PathRules, claim_valid, Job, page_of, Observation, canonical_of, prior_session_id_for_jobs,
}
use tik_rec.Automation.Cycle.{
  ResultState, blocked, ready, started, Reason, recording_slot_unavailable,
  automation_state_unavailable, automation_state_ambiguous, capacity_exhausted,
  admission_unavailable, controller_state_unavailable, identity_unavailable, duplicate_live_owned,
  start_rejected_busy, start_rejected, state_promotion_pending, Admission, Admitted, Request,
  StartReply, accepted, Services, World, result, set_result, replace_state, rejected,
}

-- A non-empty list of jobs, as `controller_jobs` wants it.
unfoldable pub nonempty_jobs : Option (List Job) → Option (List Job)
nonempty_jobs none = none
nonempty_jobs (some []) = none
nonempty_jobs (some (j ∷ js)) = some (j ∷ js)

unfoldable pub find_admitted : Text → List Admitted → Option Admitted
find_admitted creator [] = none
find_admitted creator (a ∷ as') =
    if text_eq a.seen.creator creator then some a else find_admitted creator as'

-- `_creator` of a monitoring snapshot
unfoldable pub find_observation : Text → List Observation → Option Observation
find_observation creator [] = none
find_observation creator (o ∷ os) =
    if text_eq o.creator creator then some o else find_observation creator os

abbrev pub is_ready : ResultState → Bool
is_ready ready = true
is_ready _ = false

abbrev pub or_unavailable : Option Reason → Reason
or_unavailable none = admission_unavailable
or_unavailable (some r) = r

abbrev pub capacity : Reason → Reason
capacity recording_slot_unavailable = capacity_exhausted
capacity r = r

abbrev pub is_exhausted : Reason → Bool
is_exhausted capacity_exhausted = true
is_exhausted _ = false

-- The claim of `_attempt`, validated; `none` is the exception.
unfoldable pub checked_claim : PathRules → Claim → Option Claim
checked_claim rules c = if claim_valid rules c then some c else none

unfoldable pub claim_of :
    PathRules → Text → Option Text → Option Text → Option Text → Option Text → Option Claim
unfolding checked_claim
claim_of rules creator previous (some room) (some output) (some parts) =
    checked_claim rules (record {
      creator = creator;
      room_id = room;
      output_path = output;
      parts_directory = parts;
      previous_session_id = previous;
    })
claim_of rules creator previous _ _ _ = none

unfoldable pub make_claim :
    PathRules → Text → Option Observation → Admission → Option Text → Option Claim
make_claim rules creator none admission previous = none
make_claim rules creator (some o) admission previous =
    claim_of rules creator previous (canonical_of o.room_id) admission.output_path
      admission.parts_directory

unfoldable pub request_for : Bool → Claim → Request
request_for raw_copy claim = record {
  page = page_of claim.creator;
  output_path = claim.output_path;
  expected_room_id = claim.room_id;
  raw_copy = raw_copy;
}

-- The services behind the call, and the call with the document that was on the disk.
unfoldable pub log_call : {S : Type 0} → Claim → Request → S → World S → World S
log_call claim request after w = record w {
  services = after;
  calls =
      w.calls ++ record { creator = claim.creator; request = request; document = w.durable } ∷ [];
}

module _ (rules : PathRules) (services : Services) where
  open services use {State, jobs, fingerprint, start, evaluate}

  unfoldable pub controller_jobs : State → Option (List Job)
  unfolding nonempty_jobs
  controller_jobs s = nonempty_jobs (jobs s)

  -- `prior_session_id_for_start`
  unfoldable pub prior_session_id_for_start : State → Option (Option Text)
  unfolding controller_jobs
  prior_session_id_for_start s = elim fingerprint [
    | some f ↦ f s
    | none ↦ elim (controller_jobs s) [ none ↦ none | some js ↦ prior_session_id_for_jobs js ]
  ]

  -- The end of `_attempt`, by the reply of `start`.
  unfoldable pub settle_reply : Claim → StartReply → World State → Bool × World State
  settle_reply claim (accepted job) w =
      let (promoted, v) =
        replace_state rules (put w.state.consumed_rooms claim.creator claim.room_id) none
          automation_state_ambiguous w in
      (
        promoted,
        set_result claim.creator
            (result started (if promoted then none else some state_promotion_pending))
            (record v {
              started_recordings =
                  v.started_recordings
                  ++ record {
                    creator = claim.creator;
                    room_id = claim.room_id;
                    session_id = job.session_id;
                    output_path = claim.output_path;
                    slot_id = job.slot_id;
                  }
                    ∷ [];
            }),
      )
  settle_reply claim StartReply.duplicate w =
      rejected rules claim.creator duplicate_live_owned true w
  settle_reply claim StartReply.busy w =
      (false, (rejected rules claim.creator start_rejected_busy false w).1)
  settle_reply claim StartReply.refused w =
      (false, (rejected rules claim.creator start_rejected false w).1)

  -- The call of `start`, with the claim on the disk.
  unfoldable pub start_claimed : Bool → Claim → World State → Bool × World State
  start_claimed raw_copy claim w =
      let (reply, after) = start (request_for raw_copy claim) w.services in
      settle_reply claim reply (log_call claim (request_for raw_copy claim) after w)

  -- `_attempt` behind the fingerprint, with the claim that it made
  unfoldable pub attempt_claim : Bool → Text → Option Claim → World State → Bool × World State
  attempt_claim raw_copy creator none w =
      (false, set_result creator (result blocked (some identity_unavailable)) w)
  attempt_claim raw_copy creator (some claim) w =
      let (claimed, v) =
        replace_state rules w.state.consumed_rooms (some claim) automation_state_unavailable w in
      if claimed
      then start_claimed raw_copy claim v
      else (false, set_result creator (result blocked (some automation_state_unavailable)) v)

  -- `_attempt`
  unfoldable pub attempt :
      List Text → Text → Option Observation → Admission → World State → Bool × World State
  attempt raw_copy_creators creator observed admission w =
      elim (prior_session_id_for_start w.services) [
        | none ↦ (false, set_result creator (result blocked (some controller_state_unavailable)) w)
        | some previous ↦
            attempt_claim (text_in creator raw_copy_creators) creator
              (make_claim rules creator observed admission previous) w
      ]

-- ===== src/Automation/Fill.antt =====
-- The cycle that fills the capacity, and the start of a coordinator (tikrec/automation.py).
use tik_rec.Base.{
  ℕ, Bool, true, false, not, ◌&&◌, ◌||◌, Option, none, some, List, [], ◌∷◌, ◌++◌, leb,
  if◌then◌else◌,
}
use tik_rec.Text.{Text, TextDict, get, put, sort_texts, text_in}
use tik_rec.Automation.{
  Claim, AutomationState, PathRules, Job, jobs_match_claim, jobs_prove_no_claimed_start, Liveness,
  live, Observation, option_text_eq,
}
use tik_rec.Automation.Cycle.{
  not_applicable, skipped, blocked, rearmed, suppressed, eligible, not_selected,
  automation_state_unavailable, automation_state_ambiguous, capacity_exhausted, offline_observed,
  same_room_consumed, prior_start_attempt_failed, Admission, Admitted, Services, World, CycleResult,
  result, set_result, disable, SaveOutcome, replace_state, block_live_creators, set_results,
  begin_cycle, rearm, dict_eq,
}
use tik_rec.Automation.Coordinator.{
  find_admitted, find_observation, is_ready, or_unavailable, capacity, is_exhausted,
  controller_jobs, attempt,
}

abbrev pub is_live : Liveness → Bool
is_live live = true
is_live _ = false

-- What `_classify` says of one creator.
unfoldable pub verdict : TextDict Text → List Text → Admitted → CycleResult
verdict consumed again a =
    if not (is_live a.seen.state)
    then (if text_in a.seen.creator again
        then result rearmed (some offline_observed)
        else result not_applicable none)
    else (if option_text_eq (get consumed a.seen.creator) a.seen.room_id
        then result suppressed (some same_room_consumed)
        else (if is_ready a.admission.state
            then result eligible none
            else result a.admission.state (some (or_unavailable a.admission.reason))))

-- The creators that `_classify` appends to `ready`.
unfoldable pub is_candidate : TextDict Text → Admitted → Bool
is_candidate consumed a =
    is_live a.seen.state
    && (not (option_text_eq (get consumed a.seen.creator) a.seen.room_id)
        && is_ready a.admission.state)

-- `_classify`: the creators that are ready, and the results of all.
unfoldable pub classify :
    {S : Type 0} → TextDict Text → List Text → List Admitted → World S → List Text × World S
classify consumed again [] w = ([], w)
classify consumed again (a ∷ as') w =
    let (rest, w') =
      classify consumed again as' (set_result a.seen.creator (verdict consumed again a) w) in
    (if is_candidate consumed a then a.seen.creator ∷ rest else rest, w')

-- The admission of a candidate in the fresh snapshot; without one it is not ready.
abbrev pub admission_of : Option Admitted → Admission
admission_of none = record {
  state = blocked;
  reason = none;
  free_bytes = none;
  output_path = none;
  parts_directory = none;
}
admission_of (some a) = a.admission

module _ (rules : PathRules) (services : Services) (raw_copy_creators : List Text) where
  open services use {State, jobs, evaluate}

  -- `_apply_rearm_and_existing_job`: the creators re-armed
  unfoldable pub apply_rearm : List Observation → World State → List Text × World State
  unfolding rearm disable
  apply_rearm seen w = elim (controller_jobs rules services w.services) [
    | none ↦ ([], disable automation_state_ambiguous w)
    | some js ↦
        let (consumed, again) = rearm js seen w.state.consumed_rooms [] in
        (
          again,
          if dict_eq consumed w.state.consumed_rooms
              then w
              else (replace_state rules consumed w.state.pending_claim automation_state_unavailable
                  w).1,
        )
  ]

  -- The loop over the ready creators in order; the admission is asked again before each.
  unfoldable pub fill : List Observation → List Text → World State → World State
  fill seen [] w = w
  fill seen (c ∷ cs) w =
      let admission = admission_of (find_admitted c (evaluate w.services seen)) in
      let reason = capacity (or_unavailable admission.reason) in
      let passed = set_result c (result admission.state (some reason)) w in
      let chosen = record w { selected_creators = w.selected_creators ++ c ∷ [] } in
      let tried =
        attempt rules services raw_copy_creators c (find_observation c seen) admission chosen in
      let after_try = fill seen cs tried.1 in
      let after_pass = fill seen cs passed in
      if is_ready admission.state
      then (if tried.0
          then after_try
          else set_results (result not_selected (some prior_start_attempt_failed)) cs tried.1)
      else (if is_exhausted reason
          then set_results (result skipped (some capacity_exhausted)) cs passed
          else after_pass)

  -- The part of `cycle_completed` behind the re-arming.
  unfoldable pub admit_and_fill : List Observation → List Text → World State → World State
  admit_and_fill seen again w =
      let (eligible_now, v) = classify w.state.consumed_rooms again (evaluate w.services seen) w in
      fill seen (sort_texts eligible_now) v

  unfoldable pub run_cycle : List Observation → World State → World State
  run_cycle seen w =
      if not w.operational
      then block_live_creators seen w
      else (let (again, v) = apply_rearm seen w in
          if not v.operational then block_live_creators seen v else admit_and_fill seen again v)

  -- `cycle_completed`
  unfoldable pub cycle_completed : ℕ → List Observation → World State → World State
  cycle_completed cycle seen w =
      if w.stopping || leb cycle w.latest_cycle_count
      then w
      else run_cycle seen (begin_cycle cycle w)

  -- `_load_and_reconcile` with a claim on the disk, by the jobs of the controller
  unfoldable pub reconcile : Claim → Option (List Job) → World State → World State
  unfolding disable
  reconcile claim none w = disable automation_state_ambiguous w
  reconcile claim (some js) w =
      if jobs_match_claim claim js
      then (replace_state rules (put w.state.consumed_rooms claim.creator claim.room_id) none
          automation_state_ambiguous w).1
      else (if jobs_prove_no_claimed_start claim js
          then (replace_state rules w.state.consumed_rooms none automation_state_ambiguous w).1
          else disable automation_state_ambiguous w)

  abbrev pub reconcile_claim : Option Claim → World State → World State
  reconcile_claim none w = w
  reconcile_claim (some claim) w = reconcile claim (controller_jobs rules services w.services) w

  -- `_load_and_reconcile`: `none` is a document that cannot be loaded.
  unfoldable pub load_and_reconcile : Option AutomationState → World State → World State
  unfolding reconcile disable
  load_and_reconcile none w = disable automation_state_unavailable w
  load_and_reconcile (some s) w = reconcile_claim s.pending_claim (record w { state = s })

  -- `__init__` on the disk and the controller that a crash left, with a new schedule of saves.
  unfoldable pub restart : Option AutomationState → List SaveOutcome → World State → World State
  restart loaded schedule w = load_and_reconcile loaded (record {
    stopping = false;
    operational = true;
    blocked_reason = none;
    state = record { consumed_rooms = []; pending_claim = none };
    latest_cycle_count = 0;
    selected_creators = [];
    started_recordings = [];
    cycle_results = [];
    services = w.services;
    durable = w.durable;
    schedule = schedule;
    calls = w.calls;
  })

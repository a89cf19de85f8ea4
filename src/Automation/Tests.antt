-- ===== src/Automation/Tests.antt =====
-- Runs of the coordinator (tikrec/automation.py) over a controller that accepts every start.
use tik_rec.Base.{
  ◌≡◌, refl, ap, subst, Bool, true, false, Option, none, some, List, [], ◌∷◌, ◌++◌, length,
  if◌then◌else◌, All, some_eq,
}
use tik_rec.Text.{Text, codes, text_eq, get}
use tik_rec.Identity.{canonical_room_id, strip_zeros, validate_creator_handle, is_uuid}
use tik_rec.Automation.{
  Claim, AutomationState, PathRules, is_canonical_room, claim_valid, strictly_sorted, rooms_valid,
  state_valid, Job, idle, busy, page_of, job_matches_claim, jobs_match_claim, Observation, live,
  job_matches_observation, jobs_match_observation, prior_session_id, non_idle,
  prior_session_id_of_one, prior_session_id_for_jobs,
}
use tik_rec.Automation.Cycle.{
  Services, World, Request, accepted, Admitted, ready, set_result, disable, save_by, replace_state,
  block_live_creators, set_results, begin_cycle, rejected, rearm_one, rearm, dict_within, dict_eq,
}
use tik_rec.Automation.Coordinator.{
  nonempty_jobs, find_admitted, find_observation, checked_claim, claim_of, make_claim, request_for,
  log_call, controller_jobs, prior_session_id_for_start, settle_reply, start_claimed, attempt_claim,
  attempt,
}
use tik_rec.Automation.Fill.{
  verdict, is_candidate, classify, apply_rearm, fill, admit_and_fill, run_cycle, cycle_completed,
  reconcile, load_and_reconcile, restart,
}
use tik_rec.Automation.Ahead.{IsClaimed}
use tik_rec.Automation.Candidates.{seen_of, IsCanonical}
use tik_rec.Automation.Restart.{IsSettled, restart-IsSettled}
use tik_rec.Automation.Status.{
  StatusItem, current_room, default_result, status_item, status_items, automation_snapshot,
  admitted_of, IsShown, automation_snapshot-IsShown,
}
use tik_rec.Automation.History.{Step, Reachable, Reachable-IsClaimed}

-- `/…` is absolute, and `x.mp4` has its parts in `x.parts`.
abbrev starts_at_root : Text → Bool
starts_at_root [] = false
starts_at_root (c ∷ s) = text_eq (c ∷ []) (codes "/")

abbrev parts_beside : Text → Option Text
parts_beside [] = none
parts_beside (c ∷ s) =
    let rest = parts_beside s in
    if text_eq (c ∷ s) (codes ".mp4")
    then some (codes ".parts")
    else elim rest [ none ↦ none | some r ↦ some (c ∷ r) ]

abbrev unix : PathRules
unix = record { is_absolute = starts_at_root; parts_of_mp4 = parts_beside; same_path = text_eq }

abbrev admit : List Observation → List Admitted
admit [] = []
admit (o ∷ os) =
    record {
      seen = o;
      admission = record {
        state = ready;
        reason = none;
        free_bytes = none;
        output_path = some (codes "/out/" ++ (o.creator ++ codes ".mp4"));
        parts_directory = some (codes "/out/" ++ (o.creator ++ codes ".parts"));
      };
    }
    ∷ admit os

seen_of-admit : (os : List Observation) → seen_of (admit os) ≡ os
seen_of-admit [] = refl
seen_of-admit (o ∷ os) = ap (λ r. o ∷ r) (seen_of-admit os)

-- The controller's jobs are its state; a start adds one.
abbrev job_for : Request → Job
job_for q = record {
  phase = busy;
  active = true;
  session_id = some (codes "01234567-89ab-cdef-0123-456789abcdef");
  source_url = some q.page;
  output_path = some q.output_path;
  parts_directory = parts_beside q.output_path;
  room_id = some q.expected_room_id;
}

abbrev controller : Services
controller = record {
  State = List Job;
  jobs = λ s. some s;
  fingerprint = none;
  start = λ q s. (accepted (record { session_id = none; slot_id = none }), job_for q ∷ s);
  evaluate = λ s os. admit os;
}

abbrev idle_job : Job
idle_job = record {
  phase = idle;
  active = false;
  session_id = none;
  source_url = none;
  output_path = none;
  parts_directory = none;
  room_id = none;
}

abbrev first_document : AutomationState
first_document = record { consumed_rooms = []; pending_claim = none }

abbrev world_on : AutomationState → List Job → World (List Job)
world_on document js = record {
  stopping = false;
  operational = true;
  blocked_reason = none;
  state = document;
  latest_cycle_count = 0;
  selected_creators = [];
  started_recordings = [];
  cycle_results = [];
  services = js;
  durable = document;
  schedule = [];
  calls = [];
}

abbrev two_live : List Observation
two_live =
    record { creator = codes "bee"; state = live; room_id = some (codes "7") }
    ∷ record { creator = codes "ann"; state = live; room_id = some (codes "42") }
    ∷ []

abbrev fresh_world : World (List Job)
fresh_world =
    restart unix controller [] (some first_document) [] (world_on first_document (idle_job ∷ []))

abbrev after_cycle : World (List Job)
after_cycle = cycle_completed unix controller [] 1 two_live fresh_world

-- Both creators are started, in the order of their names, and both rooms count as started.
cycle_starts :
    (length after_cycle.calls ≡ 2)
    × (get after_cycle.durable.consumed_rooms (codes "ann") ≡ some (codes "42"))
unfolding canonical_room_id strip_zeros validate_creator_handle is_uuid is_canonical_room
    claim_valid strictly_sorted rooms_valid state_valid page_of jobs_match_observation
    job_matches_observation prior_session_id non_idle prior_session_id_of_one
    prior_session_id_for_jobs set_result disable save_by replace_state block_live_creators
    set_results begin_cycle rejected rearm_one rearm dict_within dict_eq nonempty_jobs find_admitted
    find_observation checked_claim claim_of make_claim request_for log_call controller_jobs
    prior_session_id_for_start settle_reply start_claimed attempt_claim attempt verdict is_candidate
    classify apply_rearm fill admit_and_fill run_cycle cycle_completed reconcile load_and_reconcile
    restart
cycle_starts = (refl, refl)

canonical_7 : canonical_room_id (codes "7") ≡ some (codes "7")
unfolding canonical_room_id strip_zeros
canonical_7 = refl

canonical_42 : canonical_room_id (codes "42") ≡ some (codes "42")
unfolding canonical_room_id strip_zeros
canonical_42 = refl

two_live-IsCanonical : All IsCanonical two_live
two_live-IsCanonical = (
  (λ r e. subst (λ x. canonical_room_id x ≡ some x) (some_eq e) canonical_7),
  ((λ r e. subst (λ x. canonical_room_id x ≡ some x) (some_eq e) canonical_42), tt),
)

after_cycle-Reachable : Reachable unix controller [] after_cycle
after_cycle-Reachable =
    Reachable.later fresh_world after_cycle
      (Reachable.created true [] (world_on first_document (idle_job ∷ [])) tt refl)
      (Step.cycle 1 two_live fresh_world (refl, (refl, tt)) two_live-IsCanonical)

Reachable-IsClaimed_example :
    All (IsClaimed unix) after_cycle.calls
    × (after_cycle.operational ≡ true
        → (after_cycle.durable ≡ after_cycle.state) × (after_cycle.durable.pending_claim ≡ none))
Reachable-IsClaimed_example =
    Reachable-IsClaimed unix controller [] (λ s os. seen_of-admit os) after_cycle
      after_cycle-Reachable

-- A crash behind the call of `start`, with the claim still on the disk.
abbrev left_claim : Claim
left_claim = record {
  creator = codes "ann";
  room_id = codes "42";
  output_path = codes "/out/ann.mp4";
  parts_directory = codes "/out/ann.parts";
  previous_session_id = none;
}

abbrev left_document : AutomationState
left_document = record { consumed_rooms = []; pending_claim = some left_claim }

abbrev ann_job : Job
ann_job = job_for (record {
  page = page_of (codes "ann");
  output_path = codes "/out/ann.mp4";
  expected_room_id = codes "42";
  raw_copy = false;
})

abbrev crashed : World (List Job)
crashed = world_on left_document (ann_job ∷ [])

crashed_operational :
    (restart unix controller [] (some crashed.durable) [] crashed).operational ≡ true
unfolding canonical_room_id strip_zeros validate_creator_handle is_canonical_room claim_valid
    strictly_sorted rooms_valid state_valid page_of jobs_match_claim job_matches_claim disable
    save_by replace_state nonempty_jobs controller_jobs reconcile load_and_reconcile restart
crashed_operational = refl

restart-IsSettled_example :
    IsSettled left_claim
      (controller_jobs unix controller crashed.services)
      crashed.durable
      (restart unix controller [] (some crashed.durable) [] crashed)
restart-IsSettled_example =
    restart-IsSettled unix controller [] left_claim [] crashed refl tt crashed_operational

abbrev armed_of : List StatusItem → List Bool
armed_of [] = []
armed_of (x ∷ xs) = x.is_armed ∷ armed_of xs

abbrev consumed_world : World (List Job)
consumed_world =
    world_on (record { consumed_rooms = (codes "ann", codes "42") ∷ []; pending_claim = none })
      (idle_job ∷ [])

-- The room of the first creator is new, that of the second counts as started.
shown :
    armed_of (automation_snapshot 1 (admit two_live) consumed_world).creators ≡ true ∷ false ∷ []
unfolding current_room default_result status_item status_items automation_snapshot
shown = refl

automation_snapshot-IsShown_example :
    (admitted_of (automation_snapshot 1 (admit two_live) consumed_world).creators ≡ admit two_live)
    × All
        (IsShown 1 consumed_world)
        (automation_snapshot 1 (admit two_live) consumed_world).creators
automation_snapshot-IsShown_example = automation_snapshot-IsShown 1 (admit two_live) consumed_world

-- ===== src/Automation.antt =====
-- The state of automatic starts: tikrec/automation_state.py, automation_jobs.py and the records that
-- automation.py keeps. Public identities and paths are texts; the rules of paths are the platform's.
pub mod Cycle
pub mod Coordinator
pub mod Fill
pub mod Ahead
pub mod Attempt
pub mod Candidates
pub mod Loop
pub mod Cycles
pub mod Restart
pub mod Rest
pub mod History
pub mod Status
mod Tests
use tik_rec.Base.{
  ℕ, Bool, true, false, not, ◌&&◌, ◌||◌, Option, none, some, List, [], ◌∷◌, ◌++◌, leb, ◌==◌, length,
  take, drop, if◌then◌else◌, is_some, is_nil, map,
}
use tik_rec.Text.{Text, codes, text_eq, text_le, TextDict, get, put, pop, sort_items, text_in}
use tik_rec.Identity.{canonical_room_id, validate_creator_handle, is_uuid}

-- `PendingAutomaticStart`
pub record Claim : Type 0 where
  pub creator : Text
  pub room_id : Text
  pub output_path : Text
  pub parts_directory : Text
  pub previous_session_id : Option Text

-- `AutomationState`, at its one schema version
pub record AutomationState : Type 0 where
  pub consumed_rooms : TextDict Text
  pub pending_claim : Option Claim

-- `Path(…).is_absolute()` with the other tests of `_absolute_path`, and the `.parts` directory beside
-- a path with the suffix `.mp4`.
pub record PathRules : Type 0 where
  pub is_absolute : Text → Bool
  pub parts_of_mp4 : Text → Option Text
  pub same_path : Text → Text → Bool

abbrev pub option_text_eq : Option Text → Option Text → Bool
option_text_eq none none = true
option_text_eq (some a) (some b) = text_eq a b
option_text_eq _ _ = false

-- `canonical_room_id(r) == r`
unfoldable pub is_canonical_room : Text → Bool
is_canonical_room r = option_text_eq (canonical_room_id r) (some r)

-- Whether the paths of the parts are equal as paths; an output that is no `.mp4` has none.
abbrev pub same_parts : PathRules → Option Text → Text → Bool
same_parts rules none parts = false
same_parts rules (some expected) parts = rules.same_path parts expected

abbrev pub is_uuid_or_none : Option Text → Bool
is_uuid_or_none none = true
is_uuid_or_none (some s) = is_uuid s

-- `PendingAutomaticStart.validate`
unfoldable pub claim_valid : PathRules → Claim → Bool
claim_valid rules c =
    validate_creator_handle c.creator
    && (is_canonical_room c.room_id
        && (rules.is_absolute c.output_path
            && (rules.is_absolute c.parts_directory
                && (same_parts rules (rules.parts_of_mp4 c.output_path) c.parts_directory
                    && is_uuid_or_none c.previous_session_id))))

-- `creators == sorted(creators)` with no duplicate: each key before the next, and not equal to it.
unfoldable pub strictly_sorted : TextDict Text → Bool
strictly_sorted [] = true
strictly_sorted (e ∷ []) = true
strictly_sorted (e ∷ f ∷ d) = text_le e.0 f.0 && (not (text_eq e.0 f.0) && strictly_sorted (f ∷ d))

unfoldable pub rooms_valid : TextDict Text → Bool
rooms_valid [] = true
rooms_valid (e ∷ d) = validate_creator_handle e.0 && (is_canonical_room e.1 && rooms_valid d)

abbrev pub claim_valid_or_none : PathRules → Option Claim → Bool
claim_valid_or_none rules none = true
claim_valid_or_none rules (some c) = claim_valid rules c

-- `AutomationState.validate`
unfoldable pub state_valid : PathRules → AutomationState → Bool
state_valid rules s =
    rooms_valid s.consumed_rooms
    && (strictly_sorted s.consumed_rooms && claim_valid_or_none rules s.pending_claim)

-- The values of a job's `state` that the coordinator tells apart.
pub data JobPhase : Type 0 where
  idle completed failed busy : JobPhase

-- The facts of a controller job.
pub record Job : Type 0 where
  pub phase : JobPhase
  pub active : Bool
  pub session_id : Option Text
  pub source_url : Option Text
  pub output_path : Option Text
  pub parts_directory : Option Text
  pub room_id : Option Text

-- `https://www.tiktok.com/@{creator}/live`
unfoldable pub page_of : Text → Text
page_of creator = codes "https://www.tiktok.com/@" ++ (creator ++ codes "/live")

abbrev pub is_idle : JobPhase → Bool
is_idle idle = true
is_idle _ = false

abbrev pub is_settled : JobPhase → Bool
is_settled busy = false
is_settled _ = true

-- `job_matches_claim`
unfoldable pub job_matches_claim : Claim → Job → Bool
job_matches_claim c j =
    option_text_eq j.source_url (some (page_of c.creator))
    && (option_text_eq j.output_path (some c.output_path)
        && option_text_eq j.parts_directory (some c.parts_directory))

abbrev pub any_job : (Job → Bool) → List Job → Bool
any_job p [] = false
any_job p (j ∷ js) = p j || any_job p js

-- `jobs_match_claim`
unfoldable pub jobs_match_claim : Claim → List Job → Bool
jobs_match_claim c js = any_job (job_matches_claim c) js

-- `job_proves_no_claimed_start`, and the test of each slot where there are several
unfoldable pub slot_unchanged : Option Text → Job → Bool
slot_unchanged none j = is_idle j.phase
slot_unchanged (some session) j = option_text_eq j.session_id (some session)

-- `jobs_prove_no_claimed_start`; with one job the test of any job is the test of that job.
unfoldable pub jobs_prove_no_claimed_start : Claim → List Job → Bool
jobs_prove_no_claimed_start c js =
    if any_job (job_matches_claim c) js
    then false
    else any_job (slot_unchanged c.previous_session_id) js

-- One creator of a monitoring snapshot.
pub data Liveness : Type 0 where
  live offline unknown pending : Liveness

pub record Observation : Type 0 where
  pub creator : Text
  pub state : Liveness
  pub room_id : Option Text

abbrev pub canonical_of : Option Text → Option Text
canonical_of none = none
canonical_of (some r) = canonical_room_id r

-- Both identities are there and name one room.
abbrev pub same_room : Option Text → Option Text → Bool
same_room (some a) (some b) = text_eq a b
same_room _ _ = false

-- `job_matches_observation`
unfoldable pub job_matches_observation : Observation → Job → Bool
job_matches_observation o j =
    if not j.active && is_settled j.phase
    then false
    else (same_room (canonical_of o.room_id) (canonical_of j.room_id)
        && option_text_eq j.source_url (some (page_of o.creator)))

unfoldable pub jobs_match_observation : Observation → List Job → Bool
jobs_match_observation o js = any_job (job_matches_observation o) js

-- `prior_session_id`: `none` outside is the exception.
unfoldable pub prior_session_id : Job → Option (Option Text)
prior_session_id j =
    if is_idle j.phase
    then some none
    else elim j.session_id [ none ↦ none | some s ↦ if is_uuid s then some (some s) else none ]

unfoldable pub non_idle : List Job → List Job
non_idle [] = []
non_idle (j ∷ js) = if is_idle j.phase then non_idle js else j ∷ non_idle js

unfoldable pub prior_session_id_of_one : List Job → Option (Option Text)
prior_session_id_of_one (j ∷ []) = prior_session_id j
prior_session_id_of_one _ = some none

-- `prior_session_id_for_jobs`
unfoldable pub prior_session_id_for_jobs : List Job → Option (Option Text)
prior_session_id_for_jobs js = prior_session_id_of_one (non_idle js)

-- ===== src/Reconcile.antt =====
-- The decisions of a restart on an interrupted job: tikrec/reconciliation.py. What the disk, the finalizer
-- and the resolver answer is a record; an effect is a line of a log, and may raise.
pub mod Decide
pub mod Restarted
pub mod Authorized
pub mod Settled
mod Tests
use tik_rec.Base.{
  ℕ, suc, ◌+◌, Bool, true, false, not, ◌&&◌, ◌||◌, Option, none, some, List, [], ◌∷◌, ◌++◌,
  if◌then◌else◌, is_some,
}
use tik_rec.Text.{Text}
use tik_rec.Identity.{canonical_room_id}
use tik_rec.Automation.{option_text_eq}
use tik_rec.Jobs.{
  JobPhase, recovering, reconciling, resuming, recovering_network, finalizing, completed, failed,
  JobReason, process_restart, user_stop, room_ended, live_changed, identity_unavailable,
  recovery_finalization, existing_output, ambiguous_state, network_outage, network_recovered,
  outage_timeout, writer_partial_recovery, JobState, needs_reconciliation, may_resume,
}

pub data Effect : Type 0 where
  -- `observe`, `_event`, and the steps on the manifest and the media
  observed : JobState → Effect
  event : JobReason → Effect
  saved : JobState → Effect
  saved_if_current : JobState → Effect
  manifest_recovery partial_preserved output_finalized manifest_completed manifest_failed : Effect

-- `finalization.status` of a manifest
pub data Finalization : Type 0 where
  running done another : Finalization

abbrev pub is_done : Finalization → Bool
is_done done = true
is_done _ = false

-- A session that is inspected
pub record Session : Type 0 where
  pub writer_recovery : Bool
  pub finalization : Finalization

-- How the resolution of the LIVE ends
pub data Identified : Type 0 where
  resolution : Option Text → Bool → Identified
  unstructured capture_stopped window_exhausted offline temporary raised : Identified

-- What the preflight of a resume says
pub record Preflight : Type 0 where
  pub creator_matches : Bool
  pub room_id : Option Text

-- What a restart meets. `none` is an exception. `writer_checked` are the checks of the writer's storage
-- before its recovery, and `writer_settled` the recovery with the inspection behind it.
pub record Answers : Type 0 where
  pub loaded : Option (Option JobState)
  pub inspected : Option Session
  pub writer_checked : Bool
  pub writer_settled : Option Session
  pub output_exists : Bool
  pub output_exists_later : Bool
  pub partial_plan : Option Bool
  pub output_proven : Option Bool
  pub preflight : Option Preflight
  pub should_stop : Bool
  -- an outage is entered, or recovered from, while the room is resolved
  pub notified : List Bool
  pub identity : Identified
  pub finalizer_ends : Bool
  pub now : ℕ
  -- the job that a save leaves, which may have been asked to stop meanwhile
  pub save : JobState → Option JobState
  pub raises : Effect → Bool

pub data Decision : Type 0 where
  idle settled resume deferred failed_decision exhausted : Decision

-- `ReconciliationResult`
pub record ReconciliationResult : Type 0 where
  pub outcome : Decision
  pub job : Option JobState
  pub reason : Option JobReason

-- `blocked`
abbrev pub is_blocked : Decision → Bool
is_blocked deferred = true
is_blocked failed_decision = true
is_blocked _ = false

-- The variables of `reconcile` that its handler reads, and the effects so far
pub record Locals : Type 0 where
  pub job : Option JobState
  pub evidence_ready : Bool
  pub failure_reason : JobReason
  pub log : List Effect

-- A piece of the `try`: `none` is an exception.
abbrev pub Action {ℓ} : Type ℓ → Type ℓ
Action A = Locals → Option A × Locals

infixl 5 ◌>>=◌ ◌>>◌
unfoldable pub then_action {ℓ κ} :
    {A : Type ℓ} {B : Type κ} → Option A × Locals → (A → Action B) → Option B × Locals
then_action (some a, s) f = f a s
then_action (none, s) f = (none, s)

abbrev pub ◌>>=◌ {ℓ κ} : {A : Type ℓ} {B : Type κ} → Action A → (A → Action B) → Action B
(m >>= f) s = then_action (m s) f

abbrev pub ◌>>◌ {ℓ κ} : {A : Type ℓ} {B : Type κ} → Action A → Action B → Action B
(m >> k) s = then_action (m s) (λ a. k)

abbrev pub give {ℓ} : {A : Type ℓ} → A → Action A
give a s = (some a, s)

abbrev pub raise_error {ℓ} : {A : Type ℓ} → Action A
raise_error s = (none, s)

abbrev pub from_answer {ℓ} : {A : Type ℓ} → Option A → Action A
from_answer o s = (o, s)

abbrev pub raise_when : Bool → Action (Unit {0})
raise_when b s = (if b then none else some tt, s)

abbrev pub set_job : JobState → Action (Unit {0})
set_job j s = (some tt, record s { job = some j })

abbrev pub set_reason : JobReason → Action (Unit {0})
set_reason r s = (some tt, record s { failure_reason = r })

abbrev pub set_ready : Action (Unit {0})
set_ready s = (some tt, record s { evidence_ready = true })

abbrev pub result : Decision → JobState → Option JobReason → ReconciliationResult
result outcome job reason = record { outcome = outcome; job = some job; reason = reason }

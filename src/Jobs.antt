-- ===== src/Jobs.antt =====
-- The durable intent of one recording: tikrec/job_state.py. The text of the file is not modelled.
use tik_rec.Base.{
  ℕ, Bool, true, false, not, ◌&&◌, ◌||◌, Option, none, some, leb, if◌then◌else◌, is_some, is_nil,
}
use tik_rec.Text.{Text, codes}
use tik_rec.Identity.{is_uuid}
use tik_rec.Pages.{behind, exact, before, from_first, is_name_char}
use tik_rec.Text.{text_eq}
use tik_rec.Automation.{same_parts, PathRules, is_canonical_room}

-- `state`
pub data JobPhase : Type 0 where
  resolving recovering reconciling resuming recording reconnecting recovering_network recovery_wait
        finalizing completed failed :
      JobPhase

abbrev pub is_terminal : JobPhase → Bool
is_terminal completed = true
is_terminal failed = true
is_terminal _ = false

-- `_CAPTURE_STATES`
abbrev pub is_capture : JobPhase → Bool
is_capture finalizing = false
is_capture completed = false
is_capture failed = false
is_capture _ = true

-- `_REASONS`, without None
pub data JobReason : Type 0 where
  process_restart user_stop room_ended live_changed identity_unavailable recovery_finalization
        existing_output failed_resume ambiguous_state unusable_media network_outage
        network_recovered outage_timeout writer_partial_recovery :
      JobReason

-- `JobState`, at its one schema version
pub record JobState : Type 0 where
  pub session_id : Text
  pub source_url : Text
  pub output_path : Text
  pub parts_directory : Text
  pub started_at : ℕ
  pub state : JobPhase
  pub ended_at : Option ℕ
  pub stop_requested : Bool
  pub finalization_completed : Bool
  pub room_id : Option Text
  pub resume_count : ℕ
  pub recovery_reason : Option JobReason
  pub raw_copy_enabled : Bool

-- `needs_reconciliation`
unfoldable pub needs_reconciliation : JobState → Bool
needs_reconciliation j = not (is_terminal j.state) && not j.finalization_completed

-- `may_resume`
unfoldable pub may_resume : JobState → Bool
unfolding needs_reconciliation
may_resume j =
    needs_reconciliation j && (is_capture j.state && (not j.stop_requested && is_some j.room_id))

abbrev pub names_live_page : Option Text → Bool
names_live_page none = false
names_live_page (some s) =
    not (is_nil (before (λ c. not (is_name_char c)) s))
    && text_eq (from_first (λ c. not (is_name_char c)) s) (codes "/live")

-- `_PUBLIC_PAGE.fullmatch`
unfoldable pub is_public_page : Text → Bool
unfolding behind before from_first
is_public_page url = names_live_page (behind exact (codes "https://www.tiktok.com/@") url)

abbrev pub ends_after : ℕ → Option ℕ → Bool
ends_after started none = true
ends_after started (some ended) = leb started ended

abbrev pub room_valid : Option Text → Bool
room_valid none = true
room_valid (some room) = is_canonical_room room

-- `validate`: whether the job is accepted
unfoldable pub job_valid : PathRules → JobState → Bool
unfolding is_public_page
job_valid rules j =
    is_uuid j.session_id
    && (is_public_page j.source_url
        && (rules.is_absolute j.output_path
            && (rules.is_absolute j.parts_directory
                && (same_parts rules (rules.parts_of_mp4 j.output_path) j.parts_directory
                    && (ends_after j.started_at j.ended_at
                        && ((not (is_terminal j.state) || is_some j.ended_at)
                            && room_valid j.room_id))))))

-- `load`, by the answer of the disk: the outer `none` is the exception, the inner one a missing file.
unfoldable pub load : PathRules → Option (Option JobState) → Option (Option JobState)
unfolding job_valid
load rules none = none
load rules (some none) = some none
load rules (some (some j)) = if job_valid rules j then some (some j) else none

-- ===== src/Reconcile/Tests.antt =====
-- Restarts that resume a capture, and that settle a job.
use tik_rec.Base.{◌≡◌, refl, sym, ap, ◌⊎◌, true, false, none, some, some_eq, [], ◌∷◌}
use tik_rec.Text.{text_eq, codes}
use tik_rec.Identity.{canonical_room_id, strip_zeros, is_uuid}
use tik_rec.Pages.{behind, before, from_first}
use tik_rec.Automation.{PathRules, is_canonical_room}
use tik_rec.Jobs.{
  recording, finalizing, JobState, needs_reconciliation, may_resume, is_public_page, job_valid,
  load,
}
use tik_rec.Reconcile.{running, resolution, Answers, resume, settled, then_action}
use tik_rec.Reconcile.Decide.{
  save_job, complete, finalize, network_observed, authorize, decide_identity, resume_identity,
  prepare, settle_job, settle_output, claim_recovery, settle_writer, reconcile_job, tried,
  reconcile,
}
use tik_rec.Reconcile.Restarted.{KeepsRoom}
use tik_rec.Reconcile.Authorized.{IsAuthorized, reconcile-IsAuthorized}
use tik_rec.Reconcile.Settled.{WasOver, HasOutput, reconcile-HasOutput}

abbrev interrupted_job : JobState
interrupted_job = record {
  session_id = codes "11111111-1111-1111-1111-111111111111";
  source_url = codes "https://www.tiktok.com/@ann/live";
  output_path = codes "/a.mp4";
  parts_directory = codes "/a.parts";
  started_at = 5;
  state = recording;
  ended_at = none;
  stop_requested = false;
  finalization_completed = false;
  room_id = some (codes "7");
  resume_count = 0;
  recovery_reason = none;
  raw_copy_enabled = false;
}

abbrev rules : PathRules
rules = record {
  is_absolute = λ p. true;
  parts_of_mp4 = λ p. some (codes "/a.parts");
  same_path = text_eq;
}

job_accepted : load rules (some (some interrupted_job)) ≡ some (some interrupted_job)
unfolding load job_valid is_public_page behind before from_first is_uuid canonical_room_id
    strip_zeros is_canonical_room
job_accepted = refl

-- The room is live again, at a working address.
abbrev live_again : Answers
live_again = record {
  loaded = some (some interrupted_job);
  inspected = some (record { writer_recovery = false; finalization = running });
  writer_checked = true;
  writer_settled = none;
  output_exists = false;
  output_exists_later = false;
  partial_plan = some false;
  output_proven = none;
  preflight = some (record { creator_matches = true; room_id = some (codes "7") });
  should_stop = false;
  notified = true ∷ false ∷ [];
  identity = resolution (some (codes "7")) true;
  finalizer_ends = true;
  now = 9;
  save = λ j. some j;
  raises = λ e. false;
}

live_again-KeepsRoom : KeepsRoom live_again
live_again-KeepsRoom j k h = ap (λ (x : JobState). x.room_id) (sym (some_eq h))

resumes : (reconcile live_again).0.outcome ≡ resume
unfolding reconcile tried reconcile_job settle_writer claim_recovery settle_output settle_job
    prepare resume_identity decide_identity authorize network_observed finalize complete save_job
    then_action needs_reconciliation may_resume canonical_room_id strip_zeros
resumes = refl

reconcile-IsAuthorized_example :
    IsAuthorized live_again live_again-KeepsRoom (reconcile live_again).0
reconcile-IsAuthorized_example = reconcile-IsAuthorized live_again live_again-KeepsRoom resumes

-- A job that was interrupted while it was finalized
abbrev half_finalized : Answers
half_finalized = record live_again {
  loaded = some (some (record interrupted_job { state = finalizing }));
}

settles : (reconcile half_finalized).0.outcome ≡ settled
unfolding reconcile tried reconcile_job settle_writer claim_recovery settle_output settle_job
    prepare resume_identity decide_identity authorize network_observed finalize complete save_job
    then_action needs_reconciliation may_resume canonical_room_id strip_zeros
settles = refl

reconcile-HasOutput_example : WasOver half_finalized ⊎ HasOutput half_finalized
reconcile-HasOutput_example = reconcile-HasOutput half_finalized settles

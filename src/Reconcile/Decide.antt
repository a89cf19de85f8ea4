-- ===== src/Reconcile/Decide.antt =====
-- `reconcile` and its helpers (tikrec/reconciliation.py).
use tik_rec.Base.{
  suc, Bool, true, false, not, ◌&&◌, ◌||◌, Option, none, some, List, [], ◌∷◌, ◌++◌, if◌then◌else◌,
  is_some,
}
use tik_rec.Text.{Text}
use tik_rec.Identity.{canonical_room_id}
use tik_rec.Automation.{option_text_eq}
use tik_rec.Jobs.{
  JobPhase, recovering, reconciling, resuming, recovering_network, finalizing, completed, failed,
  JobReason, process_restart, user_stop, room_ended, live_changed, identity_unavailable,
  recovery_finalization, existing_output, ambiguous_state, network_outage, network_recovered,
  outage_timeout, writer_partial_recovery, JobState, needs_reconciliation, may_resume,
}
use tik_rec.Reconcile.{
  Effect, observed, event, saved, saved_if_current, manifest_recovery, partial_preserved,
  output_finalized, manifest_completed, manifest_failed, is_done, Session, Identified, resolution,
  unstructured, capture_stopped, window_exhausted, offline, temporary, raised, Answers, idle,
  settled, resume, deferred, failed_decision, exhausted, ReconciliationResult, Locals, Action,
  ◌>>=◌, ◌>>◌, give, raise_error, from_answer, raise_when, set_job, set_reason, set_ready, result,
}

abbrev pub is_finalizing : JobPhase → Bool
is_finalizing finalizing = true
is_finalizing _ = false

abbrev pub is_recovering : JobPhase → Bool
is_recovering recovering = true
is_recovering _ = false

abbrev pub is_writer_recovery : Option JobReason → Bool
is_writer_recovery (some writer_partial_recovery) = true
is_writer_recovery _ = false

-- `same_live` of a resolution
abbrev pub same_live : Option Text → Option Text → Bool
same_live none room = false
same_live (some saved_room) none = false
same_live (some saved_room) (some room) = option_text_eq (canonical_room_id saved_room) (some room)

module _ (w : Answers) where
  -- An effect is logged where it does not raise.
  abbrev pub perform : Effect → Action (Unit {0})
  perform e s = if w.raises e then (none, s) else (some tt, record s { log = s.log ++ e ∷ [] })

  abbrev pub logged_save : JobState → Option JobState → Action JobState
  logged_save j none s = (none, s)
  logged_save j (some k) s = (some k, record s { log = s.log ++ saved j ∷ [] })

  -- `save_job`: what is saved, and the job that is left
  unfoldable pub save_job : JobState → Action JobState
  save_job j = logged_save j (w.save j)

  -- `_completed`
  unfoldable pub complete : JobState → JobReason → Action ReconciliationResult
  unfolding save_job
  complete job reason = do
    perform (event reason)
    job' ← save_job (record job {
      state = completed;
      ended_at = some w.now;
      finalization_completed = true;
      recovery_reason = some reason;
    })
    give (result settled job' (some reason))

  -- The `try` of `_finalize`: whether it ends without an exception
  abbrev pub run_finalizer : Action Bool
  run_finalizer s =
      if w.finalizer_ends && not (w.raises output_finalized)
      then (some true, record s { log = s.log ++ output_finalized ∷ [] })
      else (some false, s)

  abbrev pub preserve_and_run : Bool → Action Bool
  preserve_and_run false s = run_finalizer s
  preserve_and_run true s =
      if w.raises partial_preserved
      then (some false, s)
      else run_finalizer (record s { log = s.log ++ partial_preserved ∷ [] })

  abbrev pub settle_finalizer : JobState → JobReason → Bool → Action ReconciliationResult
  settle_finalizer job reason false =
      perform manifest_failed >> give (result failed_decision job (some recovery_finalization))
  settle_finalizer job reason true = perform manifest_completed >> complete job reason

  -- `_finalize`
  unfoldable pub finalize : JobState → JobReason → Bool → Action ReconciliationResult
  unfolding save_job complete
  finalize job reason partial = do
    job' ← save_job (record job { state = finalizing; recovery_reason = some reason })
    perform (observed job')
    perform (event reason)
    perform (event recovery_finalization)
    perform manifest_recovery
    ended ← preserve_and_run partial
    settle_finalizer job' reason ended

  abbrev pub network_reason : Bool → JobReason
  network_reason true = network_outage
  network_reason false = network_recovered

  abbrev pub network_phase : Bool → JobPhase
  network_phase true = recovering_network
  network_phase false = reconciling

  -- `network_observed`, for the phases that an outage passes
  unfoldable pub network_observed : JobState → List Bool → Action JobState
  unfolding save_job
  network_observed job [] = give job
  network_observed job (b ∷ bs) = do
    job' ←
        save_job (record job { state = network_phase b; recovery_reason = some (network_reason b) })
    set_job job'
    perform (observed job')
    network_observed job' bs

  -- The end of `reconcile`, for a resolution of the same LIVE
  unfoldable pub authorize : JobState → Action ReconciliationResult
  unfolding save_job finalize
  authorize job = do
    job' ← save_job (record job {
      state = resuming;
      resume_count = suc job.resume_count;
      recovery_reason = some process_restart;
    })
    set_job job'
    if job'.stop_requested then finalize job' user_stop false else (do
      perform (observed job')
      perform (event process_restart)
      give (result resume job' (some process_restart)))

  -- What the resolution decides
  unfoldable pub decide_identity : JobState → Identified → Action ReconciliationResult
  unfolding finalize authorize save_job
  decide_identity job (resolution room true) =
      if same_live job.room_id room then authorize job else finalize job live_changed false
  decide_identity job (resolution room false) = raise_error
  decide_identity job unstructured = raise_error
  decide_identity job capture_stopped =
      finalize (record job { stop_requested = true }) user_stop false
  decide_identity job window_exhausted = do
    perform manifest_failed
    job' ← save_job (record job {
      state = failed;
      ended_at = some w.now;
      recovery_reason = some outage_timeout;
    })
    set_job job'
    give (result exhausted job' (some outage_timeout))
  decide_identity job offline = finalize job room_ended false
  decide_identity job temporary =
      perform (event identity_unavailable) >> give (result deferred job (some identity_unavailable))
  decide_identity job raised = raise_error

  abbrev pub ineligible : JobState → JobReason
  ineligible job = if is_some job.room_id then ambiguous_state else identity_unavailable

  -- The resolution of the LIVE, and what it decides
  unfoldable pub resume_identity : JobState → Action ReconciliationResult
  unfolding network_observed decide_identity
  resume_identity job = network_observed job w.notified >>= λ job'. decide_identity job' w.identity

  -- A job that may resume
  unfoldable pub prepare : JobState → Action ReconciliationResult
  unfolding finalize resume_identity
  prepare job = do
    prepared ← from_answer w.preflight
    raise_when (not prepared.creator_matches || not (option_text_eq prepared.room_id job.room_id))
    set_ready
    perform (event process_restart)
    if w.should_stop
        then finalize (record job { stop_requested = true }) user_stop false
        else resume_identity job

  -- A job whose output is not there
  unfoldable pub settle_job : JobState → Session → Bool → Action ReconciliationResult
  unfolding finalize prepare
  settle_job job session partial =
      if is_done session.finalization
      then (set_reason existing_output >> raise_error)
      else if job.stop_requested || is_finalizing job.state
      then finalize job (if job.stop_requested then user_stop else recovery_finalization) partial
      else if may_resume job
      then prepare job
      else (set_reason (ineligible job) >> raise_error)

  -- The looks at the output
  unfoldable pub settle_output : JobState → Session → Action ReconciliationResult
  unfolding complete settle_job
  settle_output job session = do
    if w.output_exists then set_reason existing_output else give tt
    partial ← from_answer w.partial_plan
    if w.output_exists_later
        then (from_answer w.output_proven >>= λ proven.
            raise_when (not proven) >> complete job existing_output)
        else settle_job job session partial

  -- The recovery of a writer's partial part
  abbrev pub claimed : JobState → JobState
  claimed job = record job { state = recovering; recovery_reason = some writer_partial_recovery }

  unfoldable pub claim_recovery : JobState → Action JobState
  claim_recovery job =
      if is_recovering job.state && is_writer_recovery job.recovery_reason then give job else (do
        perform (saved_if_current (claimed job))
        set_job (claimed job)
        perform (observed (claimed job))
        give (claimed job))

  unfoldable pub settle_writer : JobState → Session → Action ReconciliationResult
  unfolding claim_recovery settle_output
  settle_writer job session =
      if session.writer_recovery
      then (do
        raise_when (not w.writer_checked)
        job' ← claim_recovery job
        session' ← from_answer w.writer_settled
        raise_when session'.writer_recovery
        settle_output job' session')
      else settle_output job session

  -- A job that needs reconciliation
  unfoldable pub reconcile_job : JobState → Action ReconciliationResult
  unfolding settle_writer
  reconcile_job job = do
    perform (observed (record job { state = reconciling }))
    session ← from_answer w.inspected
    settle_writer job session

  abbrev pub reconcile_loaded : Option JobState → Action ReconciliationResult
  reconcile_loaded none = give (record { outcome = idle; job = none; reason = none })
  reconcile_loaded (some job) = do
    set_job job
    if needs_reconciliation job then reconcile_job job else give (result settled job none)

  abbrev pub initial : Locals
  initial = record {
    job = none;
    evidence_ready = false;
    failure_reason = ambiguous_state;
    log = [];
  }

  -- The `try`
  unfoldable pub tried : Option ReconciliationResult × Locals
  unfolding reconcile_job
  tried = (from_answer w.loaded >>= reconcile_loaded) initial

  -- The handler: an exception is a failure, and is noted in the evidence where that is sound.
  abbrev pub handled : Option ReconciliationResult × Locals → ReconciliationResult × List Effect
  handled (some r, s) = (r, s.log)
  handled (none, s) = (
    record { outcome = failed_decision; job = s.job; reason = some s.failure_reason },
    if s.evidence_ready && not (w.raises (event ambiguous_state))
        then s.log ++ event ambiguous_state ∷ []
        else s.log,
  )

  -- `reconcile`: the result, and the effects in order
  unfoldable pub reconcile : ReconciliationResult × List Effect
  unfolding tried
  reconcile = handled tried

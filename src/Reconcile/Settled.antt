-- ===== src/Reconcile/Settled.antt =====
-- When a restart settles a job (tikrec/reconciliation.py).
use tik_rec.Base.{
  ◌≡◌, refl, ap, ◌∙◌, ◌⊎◌, inl, inr, Bool, true, false, not, ◌&&◌, ◌||◌, Option, none, some, [],
  ◌∷◌, ◌++◌, if◌then◌else◌, some_eq,
}
use tik_rec.Jobs.{
  JobReason, process_restart, user_stop, room_ended, live_changed, identity_unavailable,
  recovery_finalization, outage_timeout, JobState, needs_reconciliation, may_resume,
}
use tik_rec.Reconcile.{
  partial_preserved, output_finalized, is_done, Session, Identified, resolution, unstructured,
  capture_stopped, window_exhausted, offline, temporary, raised, Answers, settled, resume, deferred,
  failed_decision, exhausted, ReconciliationResult, Locals, raise_when, result,
}
use tik_rec.Reconcile.Decide.{
  is_finalizing, same_live, run_finalizer, preserve_and_run, settle_finalizer, finalize, authorize,
  decide_identity, resume_identity, prepare, settle_job, settle_output, settle_writer,
  reconcile_job, reconcile_loaded, tried, handled, reconcile,
}
use tik_rec.Reconcile.Restarted.{Ends, Ends-then, Ends-give, Ends-map, Ends-choose}

module _ (w : Answers) where
  -- A result that settles the job has the property.
  abbrev Settles : Type 0 → ReconciliationResult → Type 0
  Settles P x = x.outcome ≡ settled → P

  run_finalizer-Ends :
      (partial : Bool) (s : Locals)
      → Ends (λ b. b ≡ true → w.finalizer_ends ≡ true) (preserve_and_run w partial s)
  run_finalizer-Ends false s = by_run (w.finalizer_ends) (not (w.raises output_finalized)) refl
    where
      by_run :
          (a b : Bool)
          → w.finalizer_ends ≡ a
          → Ends
              (λ x. x ≡ true → w.finalizer_ends ≡ true)
              (if a && b
                then (some true, record s { log = s.log ++ output_finalized ∷ [] })
                else (some false, s))
      by_run true b e = record { holds = λ x h k. e }
      by_run false b e = record { holds = λ x h k. cc (some_eq h ∙ k) }
  run_finalizer-Ends true s = by_raise (w.raises partial_preserved)
    where
      by_run :
          (a b : Bool) (t : Locals)
          → w.finalizer_ends ≡ a
          → Ends
              (λ x. x ≡ true → w.finalizer_ends ≡ true)
              (if a && b
                then (some true, record t { log = t.log ++ output_finalized ∷ [] })
                else (some false, t))
      by_run true b t e = record { holds = λ x h k. e }
      by_run false b t e = record { holds = λ x h k. cc (some_eq h ∙ k) }

      by_raise :
          (b : Bool)
          → Ends
              (λ x. x ≡ true → w.finalizer_ends ≡ true)
              (if b
                then (some false, s)
                else run_finalizer w (record s { log = s.log ++ partial_preserved ∷ [] }))
      by_raise true = record { holds = λ x h k. cc (some_eq h ∙ k) }
      by_raise false = by_run w.finalizer_ends (not (w.raises output_finalized)) _ refl

  finalize-Settles :
      (job : JobState) (reason : JobReason) (partial : Bool) (s : Locals)
      → Ends (Settles (w.finalizer_ends ≡ true)) (finalize w job reason partial s)
  unfolding finalize
  finalize-Settles job reason partial s = Ends-then _ _ (λ job' s1 _. Ends-then _ _ (λ _ s2 _.
      Ends-then _ _ (λ _ s3 _. Ends-then _ _ (λ _ s4 _. Ends-then _ _ (λ _ s5 _.
        Ends-then _ _ (λ ended s6 q. by_end job' ended s6 (
          (run_finalizer-Ends partial s5).holds ended
            (ap (λ (o : Option Bool × Locals). o.0) q))))))))
    where
      by_end :
          (job' : JobState) (b : Bool) (t : Locals)
          → (b ≡ true → w.finalizer_ends ≡ true)
          → Ends (Settles (w.finalizer_ends ≡ true)) (settle_finalizer w job' reason b t)
      by_end job' true t f = Ends-then _ _ (λ _ t1 _. record { holds = λ a h k. f refl })
      by_end job' false t f = Ends-then _ _ (λ _ t1 _.
          Ends-give (result failed_decision job' (some recovery_finalization)) t1 (λ h. cc (h)))

  authorize-Settles :
      (job : JobState) (s : Locals) → Ends (Settles (w.finalizer_ends ≡ true)) (authorize w job s)
  unfolding authorize
  authorize-Settles job s = Ends-then _ _ (λ job' s1 _. Ends-then _ _ (λ _ s2 _.
      Ends-choose job'.stop_requested (finalize w job' user_stop false) _ s2
        (λ _. finalize-Settles job' user_stop false s2)
        (λ _. Ends-then _ _ (λ _ s3 _.
          Ends-then _ _
            (λ _ s4 _. Ends-give (result resume job' (some process_restart)) s4 (λ h. cc (h)))))))

  decide_identity-Settles :
      (job : JobState) (id : Identified) (s : Locals)
      → Ends (Settles (w.finalizer_ends ≡ true)) (decide_identity w job id s)
  unfolding decide_identity
  decide_identity-Settles job (resolution room true) s =
      Ends-choose (same_live job.room_id room) (authorize w job) (finalize w job live_changed false)
        s (λ h. authorize-Settles job s) (λ h. finalize-Settles job live_changed false s)
  decide_identity-Settles job (resolution room false) s = record { holds = λ a h. cc (h) }
  decide_identity-Settles job unstructured s = record { holds = λ a h. cc (h) }
  decide_identity-Settles job raised s = record { holds = λ a h. cc (h) }
  decide_identity-Settles job capture_stopped s =
      finalize-Settles (record job { stop_requested = true }) user_stop false s
  decide_identity-Settles job offline s = finalize-Settles job room_ended false s
  decide_identity-Settles job window_exhausted s = Ends-then _ _ (λ _ s1 _.
      Ends-then _ _ (λ job' s2 _.
        Ends-then _ _
          (λ _ s3 _. Ends-give (result exhausted job' (some outage_timeout)) s3 (λ h. cc (h)))))
  decide_identity-Settles job temporary s =
      Ends-then _ _
        (λ _ s1 _. Ends-give (result deferred job (some identity_unavailable)) s1 (λ h. cc (h)))

  prepare-Settles :
      (job : JobState) (s : Locals) → Ends (Settles (w.finalizer_ends ≡ true)) (prepare w job s)
  unfolding prepare resume_identity
  prepare-Settles job s = Ends-then _ _ (λ p s1 _. Ends-then _ _ (λ _ s2 _. Ends-then _ _ (λ _ s3 _.
      Ends-then _ _ (λ _ s4 _.
        Ends-choose w.should_stop
          (finalize w (record job { stop_requested = true }) user_stop false) _ s4
          (λ _. finalize-Settles (record job { stop_requested = true }) user_stop false s4)
          (λ _. Ends-then _ _ (λ job' s5 _. decide_identity-Settles job' w.identity s5))))))

  settle_job-Settles :
      (job : JobState) (session : Session) (partial : Bool) (s : Locals)
      → Ends (Settles (w.finalizer_ends ≡ true)) (settle_job w job session partial s)
  unfolding settle_job
  settle_job-Settles job session partial s =
      Ends-choose (is_done session.finalization) _ _ s
        (λ _. Ends-then _ _ (λ _ s1 _. record { holds = λ a h. cc (h) }))
        (λ _.
          Ends-choose (job.stop_requested || is_finalizing job.state) _ _ s
            (λ _.
              finalize-Settles job (if job.stop_requested then user_stop else recovery_finalization)
                partial s)
            (λ _.
              Ends-choose (may_resume job) (prepare w job) _ s (λ m. prepare-Settles job s)
                (λ _. Ends-then _ _ (λ _ s1 _. record { holds = λ a h. cc (h) }))))

  -- The output of a settled job: it was there and is proven complete, or it was not, and the finalizer has
  -- made it.
  abbrev pub HasOutput : Type 0
  HasOutput =
      ((w.output_exists_later ≡ true) × (w.output_proven ≡ some true))
      ⊎ ((w.output_exists_later ≡ false) × (w.finalizer_ends ≡ true))

  raise_when-proven : (b : Bool) (s t : Locals) → raise_when (not b) s ≡ (some tt, t) → b ≡ true
  raise_when-proven true s t h = refl
  raise_when-proven false s t h = cc (ap (λ (o : Option (Unit {0}) × Locals). o.0) h)

  settle_output-Settles :
      (job : JobState) (session : Session) (s : Locals)
      → Ends (Settles HasOutput) (settle_output w job session s)
  unfolding settle_output
  settle_output-Settles job session s = Ends-then _ _ (λ _ s1 _. Ends-then _ _ (λ partial s2 _.
      Ends-choose w.output_exists_later _ (settle_job w job session partial) s2
        (λ there. Ends-then _ _ (λ proven s3 q. Ends-then _ _ (λ _ s4 g. record {
          holds = λ a h k. inl (
            there,
            ap (λ (o : Option Bool × Locals). o.0) q ∙ ap some (raise_when-proven proven s3 s4 g),
          );
        })))
        (λ gone.
          Ends-map _ (λ x f e. inr (gone, f e)) (settle_job-Settles job session partial s2))))

  reconcile_job-Settles :
      (job : JobState) (s : Locals) → Ends (Settles HasOutput) (reconcile_job w job s)
  unfolding reconcile_job settle_writer
  reconcile_job-Settles job s = Ends-then _ _ (λ _ s1 _. Ends-then _ _ (λ session s2 _.
      Ends-choose session.writer_recovery _ (settle_output w job session) s2
        (λ _. Ends-then _ _ (λ _ s3 _. Ends-then _ _ (λ j s4 _.
          Ends-then _ _
            (λ session' s5 _. Ends-then _ _ (λ _ s6 _. settle_output-Settles j session' s6)))))
        (λ _. settle_output-Settles job session s2)))

  -- A job is loaded that was over before.
  abbrev pub WasOver : Type 0
  WasOver = (job : JobState) × (w.loaded ≡ some (some job)) × (needs_reconciliation job ≡ false)

  tried-Settles : Ends (Settles (WasOver ⊎ HasOutput)) (tried w)
  unfolding tried
  tried-Settles =
      Ends-then _ _ (λ o s q. by_job o s (ap (λ (x : Option (Option JobState) × Locals). x.0) q))
    where
      by_job :
          (o : Option JobState) (s : Locals)
          → w.loaded ≡ some o
          → Ends (Settles (WasOver ⊎ HasOutput)) (reconcile_loaded w o s)
      by_job none s e = Ends-give _ s (λ h. cc (h))
      by_job (some job) s e = Ends-then _ _ (λ _ s1 _.
          Ends-choose (needs_reconciliation job) (reconcile_job w job) _ s1
            (λ n. Ends-map _ (λ x f h. inr (f h)) (reconcile_job-Settles job s1))
            (λ n. Ends-give (result settled job none) s1 (λ h. inl (job, e, n))))

  -- A restart settles a job only where the job was over before, or its output was there and is proven
  -- complete, or there was no output and the finalizer has ended without an exception.
  pub reconcile-HasOutput : (reconcile w).0.outcome ≡ settled → WasOver ⊎ HasOutput
  unfolding reconcile
  reconcile-HasOutput h = by_result (tried w) tried-Settles h
    where
      by_result :
          (o : Option ReconciliationResult × Locals)
          → Ends (Settles (WasOver ⊎ HasOutput)) o
          → (handled w o).0.outcome ≡ settled
          → WasOver ⊎ HasOutput
      by_result (some r, s) f k = f.holds r refl k
      by_result (none, s) f k = cc (k)

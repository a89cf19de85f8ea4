-- ===== src/Reconcile/Authorized.antt =====
-- When a restart resumes a capture (tikrec/reconciliation.py).
use tik_rec.Base.{
  ◌≡◌, refl, sym, ap, ◌∙◌, subst, Bool, true, false, not, ◌&&◌, ◌||◌, Option, none, some, List, [],
  ◌∷◌, arith, if◌then◌else◌,
}
use tik_rec.Text.{Text}
use tik_rec.Automation.{option_text_eq}
use tik_rec.Jobs.{
  user_stop, recovery_finalization, existing_output, JobState, needs_reconciliation, may_resume,
}
use tik_rec.Reconcile.{
  is_done, Session, Preflight, Answers, settled, resume, ReconciliationResult, Locals, give,
  raise_when, result,
}
use tik_rec.Reconcile.Decide.{
  is_finalizing, is_recovering, is_writer_recovery, claimed, finalize, network_observed,
  resume_identity, prepare, settle_job, settle_output, claim_recovery, settle_writer, reconcile_job,
  reconcile_loaded, tried, handled, reconcile,
}
use tik_rec.Reconcile.Restarted.{
  Ends, Ends-then, Ends-give, Ends-map, Ends-choose, KeepsRoom, Continues, IsChecked,
  option_text_eq-eq, Resumes, finalize-IsOther, complete-IsOther, save_job-saved, other-Resumes,
  decide_identity-Continues,
}

Continues-as :
    (w : Answers) (r r' : Option Text) (x : ReconciliationResult)
    → r ≡ r'
    → Continues w r x
    → Continues w r' x
Continues-as w r r' x e c = subst (λ t. Continues w t x) e c

raise_when-no : (b : Bool) (s t : Locals) → raise_when b s ≡ (some tt, t) → b ≡ false
raise_when-no true s t h = cc (ap (λ (o : Option (Unit {0}) × Locals). o.0) h)
raise_when-no false s t h = refl

not_or : (a b : Bool) → (not a || not b) ≡ false → (a ≡ true) × (b ≡ true)
not_or true true h = (refl, refl)
not_or true false h = cc
not_or false b h = cc

module _ (w : Answers) (keeps : KeepsRoom w) where
  network_observed-room :
      (job : JobState) (bs : List Bool) (s : Locals)
      → Ends (λ j. j.room_id ≡ job.room_id) (network_observed w job bs s)
  unfolding network_observed
  network_observed-room job [] s = Ends-give job s refl
  network_observed-room job (b ∷ bs) s = Ends-then _ _ (λ job' s1 q. Ends-then _ _ (λ _ s2 _.
      Ends-then _ _ (λ _ s3 _.
        Ends-map _
          (λ j e.
            e
            ∙ keeps _ job'
                (save_job-saved w _ job' s (ap (λ (o : Option JobState × Locals). o.0) q)))
          (network_observed-room job' bs s3))))

  resume_identity-Continues :
      (job : JobState) (s : Locals)
      → Ends (Resumes w (Continues w job.room_id)) (resume_identity w job s)
  unfolding resume_identity
  resume_identity-Continues job s = Ends-then _ _ (λ job' s1 q.
      Ends-map _
        (λ x f e.
          Continues-as w job'.room_id job.room_id x
            ((network_observed-room job w.notified s).holds job'
              (ap (λ (o : Option JobState × Locals). o.0) q))
            (f e))
        (decide_identity-Continues w job' w.identity s1 refl))

  -- What a resume is checked against, behind the looks at the output
  pub record IsPrepared (r : Option Text) (x : ReconciliationResult) : Type 0 where
    pub checked : IsChecked w r
    pub not_asked : w.should_stop ≡ false
    pub continues : Continues w r x

  prepare-IsPrepared :
      (job : JobState) (s : Locals) → Ends (Resumes w (IsPrepared job.room_id)) (prepare w job s)
  unfolding prepare
  prepare-IsPrepared job s = Ends-then _ _ (λ p s1 q. Ends-then _ _ (λ _ s2 g.
      Ends-then _ _ (λ _ s3 _. Ends-then _ _ (λ _ s4 _.
        Ends-choose w.should_stop
          (finalize w (record job { stop_requested = true }) user_stop false)
          (resume_identity w job) s4
          (λ _.
            other-Resumes w _ _
              (finalize-IsOther w (record job { stop_requested = true }) user_stop false s4))
          (λ run.
            Ends-map _
              (λ x f e.
                let (same, room) =
                  not_or p.creator_matches (option_text_eq p.room_id job.room_id)
                    (raise_when-no _ s1 s2 g) in
                record {
                  checked = record {
                    preflight = p;
                    answered = ap (λ (o : Option Preflight × Locals). o.0) q;
                    same_creator = same;
                    same_room = option_text_eq-eq p.room_id job.room_id room;
                  };
                  not_asked = run;
                  continues = f e;
                })
              (resume_identity-Continues job s4))))))

  may_resume-running : (job : JobState) → may_resume job ≡ true → job.stop_requested ≡ false
  unfolding may_resume
  may_resume-running job h = ground arith

  settle_job-IsPrepared :
      (job : JobState) (session : Session) (partial : Bool) (s : Locals)
      → Ends
          (Resumes w (λ x. (job.stop_requested ≡ false) × IsPrepared job.room_id x))
          (settle_job w job session partial s)
  unfolding settle_job
  settle_job-IsPrepared job session partial s =
      Ends-choose (is_done session.finalization) _ _ s
        (λ _. Ends-then _ _ (λ _ s1 _. record { holds = λ a h. cc (h) }))
        (λ _.
          Ends-choose (job.stop_requested || is_finalizing job.state) _ _ s
            (λ _. other-Resumes w _ _ (
              finalize-IsOther w job
                (if job.stop_requested then user_stop else recovery_finalization) partial s))
            (λ _.
              Ends-choose (may_resume job) (prepare w job) _ s
                (λ m.
                  Ends-map _ (λ x f e. (may_resume-running job m, f e)) (prepare-IsPrepared job s))
                (λ _. Ends-then _ _ (λ _ s1 _. record { holds = λ a h. cc (h) }))))

  settle_output-IsPrepared :
      (job : JobState) (session : Session) (s : Locals)
      → Ends
          (Resumes w (λ x.
            (w.output_exists_later ≡ false)
            × (job.stop_requested ≡ false)
            × IsPrepared job.room_id x))
          (settle_output w job session s)
  unfolding settle_output
  settle_output-IsPrepared job session s = Ends-then _ _ (λ _ s1 _. Ends-then _ _ (λ partial s2 _.
      Ends-choose w.output_exists_later _ (settle_job w job session partial) s2
        (λ _. other-Resumes w _ _ (
          Ends-then _ _
            (λ proven s3 _. Ends-then _ _ (λ _ s4 _. complete-IsOther w job existing_output s4))))
        (λ gone.
          Ends-map _ (λ x f e. (gone, (f e).0, (f e).1))
            (settle_job-IsPrepared job session partial s2))))

  abbrev IsLike : JobState → JobState → Type 0
  IsLike job j = (j.room_id ≡ job.room_id) × (j.stop_requested ≡ job.stop_requested)

  claim_recovery-IsLike : (job : JobState) (s : Locals) → Ends (IsLike job) (claim_recovery w job s)
  unfolding claim_recovery
  claim_recovery-IsLike job s =
      Ends-choose (is_recovering job.state && is_writer_recovery job.recovery_reason) (give job) _ s
        (λ _. Ends-give job s (refl, refl))
        (λ _. Ends-then _ _ (λ _ s1 _.
          Ends-then _ _
            (λ _ s2 _. Ends-then _ _ (λ _ s3 _. Ends-give (claimed w job) s3 (refl, refl)))))

  -- What a resume of a job rests on, the job's own facts aside
  abbrev pub IsReady : JobState → ReconciliationResult → Type 0
  IsReady job x =
      (w.output_exists_later ≡ false) × (job.stop_requested ≡ false) × IsPrepared job.room_id x

  IsReady-like :
      (job j : JobState) (x : ReconciliationResult) → IsLike job j → IsReady j x → IsReady job x
  IsReady-like job j x like (gone, run, p) =
      (gone, sym like.1 ∙ run, subst (λ r. IsPrepared r x) like.0 p)

  settle_writer-IsReady :
      (job : JobState) (session : Session) (s : Locals)
      → Ends (Resumes w (IsReady job)) (settle_writer w job session s)
  unfolding settle_writer
  settle_writer-IsReady job session s =
      Ends-choose session.writer_recovery _ (settle_output w job session) s
        (λ _. Ends-then _ _ (λ _ s1 _. Ends-then _ _ (λ j s2 q. Ends-then _ _ (λ session' s3 _.
          Ends-then _ _ (λ _ s4 _.
            Ends-map _
              (λ x f e.
                IsReady-like job j x
                  ((claim_recovery-IsLike job s1).holds j
                    (ap (λ (o : Option JobState × Locals). o.0) q))
                  (f e))
              (settle_output-IsPrepared j session' s4))))))
        (λ _. settle_output-IsPrepared job session s)

  reconcile_job-IsReady :
      (job : JobState) (s : Locals) → Ends (Resumes w (IsReady job)) (reconcile_job w job s)
  unfolding reconcile_job
  reconcile_job-IsReady job s =
      Ends-then _ _ (λ _ s1 _. Ends-then _ _ (λ session s2 _. settle_writer-IsReady job session s2))

  -- A resumed capture is that of the loaded job, which needs reconciliation.
  pub record IsAuthorized (x : ReconciliationResult) : Type 0 where
    pub job : JobState
    pub was_loaded : w.loaded ≡ some (some job)
    pub interrupted : needs_reconciliation job ≡ true
    pub ready : IsReady job x

  tried-IsAuthorized : Ends (Resumes w IsAuthorized) (tried w)
  unfolding tried
  tried-IsAuthorized =
      Ends-then _ _ (λ o s q. by_job o s (ap (λ (x : Option (Option JobState) × Locals). x.0) q))
    where
      by_job :
          (o : Option JobState) (s : Locals)
          → w.loaded ≡ some o
          → Ends (Resumes w IsAuthorized) (reconcile_loaded w o s)
      by_job none s e = Ends-give _ s (λ h. cc (h))
      by_job (some job) s e = Ends-then _ _ (λ _ s1 _.
          Ends-choose (needs_reconciliation job) (reconcile_job w job) _ s1
            (λ n.
              Ends-map _
                (λ x f h. record { job = job; was_loaded = e; interrupted = n; ready = f h })
                (reconcile_job-IsReady job s1))
            (λ _. Ends-give (result settled job none) s1 (λ h. cc (h))))

  -- Where the saves keep the room of a job, a restart resumes a capture only for the job that was loaded,
  -- which was interrupted, has a saved room, was not asked to stop, and has no output; the preflight has
  -- proven its creator and room, the resolver has given an address of that very room, and the job that
  -- is shown was saved as resuming and is not stopped.
  pub reconcile-IsAuthorized : (reconcile w).0.outcome ≡ resume → IsAuthorized (reconcile w).0
  unfolding reconcile
  reconcile-IsAuthorized h = by_result (tried w) tried-IsAuthorized h
    where
      by_result :
          (o : Option ReconciliationResult × Locals)
          → Ends (Resumes w IsAuthorized) o
          → (handled w o).0.outcome ≡ resume
          → IsAuthorized (handled w o).0
      by_result (some r, s) f k = f.holds r refl k
      by_result (none, s) f k = cc (k)

-- ===== src/Reconcile/Restarted.antt =====
-- What a decision of a restart rests on (tikrec/reconciliation.py).
use tik_rec.Base.{
  ◌≡◌, ◌≢◌, refl, ap, ◌∙◌, subst, Bool, true, false, Option, none, some, if◌then◌else◌, some_eq,
}
use tik_rec.Text.{Text}
use tik_rec.Text.Laws.{eq_of_text_eq}
use tik_rec.Identity.{canonical_room_id}
use tik_rec.Automation.{option_text_eq}
use tik_rec.Jobs.{
  resuming, JobReason, process_restart, user_stop, room_ended, live_changed, identity_unavailable,
  recovery_finalization, outage_timeout, JobState,
}
use tik_rec.Reconcile.{
  Identified, resolution, unstructured, capture_stopped, window_exhausted, offline, temporary,
  raised, Preflight, Answers, settled, resume, deferred, failed_decision, exhausted,
  ReconciliationResult, Locals, Action, then_action, give, result,
}
use tik_rec.Reconcile.Decide.{
  same_live, save_job, logged_save, complete, settle_finalizer, finalize, authorize,
  decide_identity,
}

-- A property of each result that an action gives
pub record Ends {ℓ} {A : Type ℓ} (Q : A → Type 0) (o : Option A × Locals) : Type ℓ where
  pub holds : (a : A) → o.0 ≡ some a → Q a

pub Ends-then {ℓ κ} :
    {A : Type ℓ} {B : Type κ} {Q : B → Type 0} (o : Option A × Locals) (f : A → Action B)
    → ((a : A) (s : Locals) → o ≡ (some a, s) → Ends Q (f a s))
    → Ends Q (then_action o f)
unfolding then_action
Ends-then (some a, s) f h = h a s refl
Ends-then (none, s) f h = record { holds = λ a e. cc (e) }

pub Ends-give {ℓ} : {A : Type ℓ} {Q : A → Type 0} (a : A) (s : Locals) → Q a → Ends Q (give a s)
Ends-give {Q} a s h = record { holds = λ b e. subst (λ x. Q x) (some_eq e) h }

-- The saves keep the room of the job.
abbrev pub KeepsRoom : Answers → Type 0
KeepsRoom w = (j k : JobState) → w.save j ≡ some k → k.room_id ≡ j.room_id

-- Any result but a resumed capture
abbrev pub IsOther : ReconciliationResult → Type 0
IsOther r = r.outcome ≢ resume

module _ (w : Answers) where
  pub complete-IsOther :
      (job : JobState) (reason : JobReason) (s : Locals) → Ends IsOther (complete w job reason s)
  unfolding complete
  complete-IsOther job reason s = Ends-then _ _ (λ _ s1 _.
      Ends-then _ _ (λ job' s2 _. Ends-give (result settled job' (some reason)) s2 (λ h. cc (h))))

  pub finalize-IsOther :
      (job : JobState) (reason : JobReason) (partial : Bool) (s : Locals)
      → Ends IsOther (finalize w job reason partial s)
  unfolding finalize
  finalize-IsOther job reason partial s = Ends-then _ _ (λ job' s1 _. Ends-then _ _ (λ _ s2 _.
      Ends-then _ _ (λ _ s3 _.
        Ends-then _ _ (λ _ s4 _.
          Ends-then _ _ (λ _ s5 _. Ends-then _ _ (λ ended s6 _. by_end job' ended s6))))))
    where
      by_end :
          (job' : JobState) (b : Bool) (t : Locals)
          → Ends IsOther (settle_finalizer w job' reason b t)
      by_end job' true t = Ends-then _ _ (λ _ t1 _. complete-IsOther job' reason t1)
      by_end job' false t = Ends-then _ _ (λ _ t1 _.
          Ends-give (result failed_decision job' (some recovery_finalization)) t1 (λ h. cc (h)))

pub Ends-map {ℓ} :
    {A : Type ℓ} {Q R : A → Type 0} (o : Option A × Locals)
    → ((a : A) → Q a → R a)
    → Ends Q o
    → Ends R o
Ends-map o f h = record { holds = λ a e. f a (h.holds a e) }

pub Ends-choose {ℓ} :
    {A : Type ℓ} {Q : A → Type 0} (b : Bool) (m k : Action A) (s : Locals)
    → (b ≡ true → Ends Q (m s))
    → (b ≡ false → Ends Q (k s))
    → Ends Q ((if b then m else k) s)
Ends-choose true m k s h l = h refl
Ends-choose false m k s h l = l refl

-- The resumed capture is that of a job that was saved as resuming and not stopped meanwhile, and the
-- resolver has proven an address of the room `r`.
pub record Continues (w : Answers) (r : Option Text) (x : ReconciliationResult) : Type 0 where
  pub job : JobState
  pub shown : x.job ≡ some job
  pub before : JobState
  pub was_saved : w.save before ≡ some job
  pub as_resuming : before.state ≡ resuming
  pub unstopped : job.stop_requested ≡ false
  pub room : Text
  pub has_room : r ≡ some room
  pub current : Text
  pub identified : w.identity ≡ resolution (some current) true
  pub same_room : canonical_room_id room ≡ some current

-- The preflight of the resume has proven the same creator and room.
pub record IsChecked (w : Answers) (r : Option Text) : Type 0 where
  pub preflight : Preflight
  pub answered : w.preflight ≡ some preflight
  pub same_creator : preflight.creator_matches ≡ true
  pub same_room : preflight.room_id ≡ r

pub option_text_eq-eq : (a b : Option Text) → option_text_eq a b ≡ true → a ≡ b
option_text_eq-eq none none h = refl
option_text_eq-eq none (some b) h = cc (h)
option_text_eq-eq (some a) none h = cc (h)
option_text_eq-eq (some a) (some b) h = ap some (eq_of_text_eq a b h)

same_live-room :
    (r room : Option Text)
    → same_live r room ≡ true
    → (saved_room : Text) × (current : Text) × (r ≡ some saved_room)
      × (room ≡ some current)
      × (canonical_room_id saved_room ≡ some current)
same_live-room none room h = cc (h)
same_live-room (some a) none h = cc (h)
same_live-room (some a) (some b) h = (a, b, refl, refl, option_text_eq-eq _ _ h)

module _ (w : Answers) where
  pub save_job-saved :
      (j k : JobState) (s : Locals) → (save_job w j s).0 ≡ some k → w.save j ≡ some k
  unfolding save_job
  save_job-saved j k s h = by_save (w.save j) h
    where
      by_save : (o : Option JobState) → (logged_save w j o s).0 ≡ some k → o ≡ some k
      by_save none e = cc (e)
      by_save (some x) e = e

  abbrev pub Resumes : (ReconciliationResult → Type 0) → ReconciliationResult → Type 0
  Resumes P x = x.outcome ≡ resume → P x

  pub other-Resumes :
      (P : ReconciliationResult → Type 0) (o : Option ReconciliationResult × Locals)
      → Ends IsOther o
      → Ends (Resumes P) o
  other-Resumes P o h = Ends-map o (λ a f e. absurd (f e)) h

  authorize-Continues :
      (job : JobState) (room : Option Text) (s : Locals)
      → w.identity ≡ resolution room true
      → same_live job.room_id room ≡ true
      → Ends (Resumes (Continues w job.room_id)) (authorize w job s)
  unfolding authorize
  authorize-Continues job room s e h = Ends-then _ _ (λ job' s1 q. Ends-then _ _ (λ _ s2 _.
      Ends-choose job'.stop_requested (finalize w job' user_stop false) _ s2
        (λ _. other-Resumes _ _ (finalize-IsOther w job' user_stop false s2))
        (λ run. Ends-then _ _ (λ _ s3 _. Ends-then _ _ (λ _ s4 _.
          Ends-give (result resume job' (some process_restart)) s4 (λ _.
            let (saved_room, current, at_room, now, canonical) =
              same_live-room job.room_id room h in
            record {
              job = job';
              shown = refl;
              before = _;
              was_saved = save_job-saved _ job' s (ap (λ (o : Option JobState × Locals). o.0) q);
              as_resuming = refl;
              unstopped = run;
              room = saved_room;
              has_room = at_room;
              current = current;
              identified = e ∙ ap (λ t. resolution t true) now;
              same_room = canonical;
            }))))))

  pub decide_identity-Continues :
      (job : JobState) (id : Identified) (s : Locals)
      → w.identity ≡ id
      → Ends (Resumes (Continues w job.room_id)) (decide_identity w job id s)
  unfolding decide_identity
  decide_identity-Continues job (resolution room true) s e =
      Ends-choose (same_live job.room_id room) (authorize w job) (finalize w job live_changed false)
        s (λ h. authorize-Continues job room s e h)
        (λ h. other-Resumes _ _ (finalize-IsOther w job live_changed false s))
  decide_identity-Continues job (resolution room false) s e = record { holds = λ a h. cc (h) }
  decide_identity-Continues job unstructured s e = record { holds = λ a h. cc (h) }
  decide_identity-Continues job raised s e = record { holds = λ a h. cc (h) }
  decide_identity-Continues job capture_stopped s e =
      other-Resumes _ _
        (finalize-IsOther w (record job { stop_requested = true }) user_stop false s)
  decide_identity-Continues job offline s e =
      other-Resumes _ _ (finalize-IsOther w job room_ended false s)
  decide_identity-Continues job window_exhausted s e = Ends-then _ _ (λ _ s1 _.
      Ends-then _ _ (λ job' s2 _.
        Ends-then _ _
          (λ _ s3 _. Ends-give (result exhausted job' (some outage_timeout)) s3 (λ h. cc (h)))))
  decide_identity-Continues job temporary s e =
      Ends-then _ _
        (λ _ s1 _. Ends-give (result deferred job (some identity_unavailable)) s1 (λ h. cc (h)))

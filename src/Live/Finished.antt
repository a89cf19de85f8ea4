-- ===== src/Live/Finished.antt =====
-- The turns that finish a capture because its LIVE has ended (tikrec/live.py).
use tik_rec.Base.{
  ℕ, suc, ◌≡◌, refl, sym, ap, ◌∙◌, ◌⊎◌, inl, inr, Bool, true, false, not, Option, if◌then◌else◌,
  is_nil, Result, ok, err, err-injective,
}
use tik_rec.Text.{Text}
use tik_rec.Network.{
  Failing, capture_stopped, keyboard_interrupt, http, url_error, gaierror, timeout, connection,
  incomplete_read, eof, os_error, other_error, offline, live_changed, resolution,
  resolution_transient, source_network, source_refresh, file_exists,
}
use tik_rec.Live.{Limits, Resolution, is_offline, resolve_bound_live, resolve_live_url_confirmed}
use tik_rec.Live.Confirmed.{AreOffline, needed, resolve_live_url_confirmed-AreOffline}
use tik_rec.Live.Attempt.{
  PartWriter, ended, closed, LiveCapture, finished, failed_capture, Turn, end_outage, Step, goes,
  ends, Attempted, attempt,
}
use tik_rec.Live.Loop.{close_record, after_close, finish_offline, handle, settle, connect, turn}
use tik_rec.Live.Ended.{ends_live, IsQuiet, attempt-ends, resolved-reply}
use tik_rec.Live.Running.{ended_live, handle-running, after_close-running, connects}

ends_live-cases : (e : Failing) → ends_live (err e) ≡ true → (e ≡ offline) ⊎ (e ≡ live_changed)
ends_live-cases offline h = inl refl
ends_live-cases live_changed h = inr refl
ends_live-cases capture_stopped h = cc (h)
ends_live-cases keyboard_interrupt h = cc (h)
ends_live-cases (http a b) h = cc (h)
ends_live-cases (url_error a) h = cc (h)
ends_live-cases (resolution_transient a b) h = cc (h)
ends_live-cases resolution h = cc (h)
ends_live-cases gaierror h = cc (h)
ends_live-cases timeout h = cc (h)
ends_live-cases connection h = cc (h)
ends_live-cases incomplete_read h = cc (h)
ends_live-cases eof h = cc (h)
ends_live-cases (os_error a b d) h = cc (h)
ends_live-cases (source_network a b) h = cc (h)
ends_live-cases (source_refresh a b) h = cc (h)
ends_live-cases file_exists h = cc (h)
ends_live-cases other_error h = cc (h)

abbrev capture_of : Step → LiveCapture
capture_of (goes c) = c
capture_of (ends e c) = c

module _ (W : PartWriter) (dates : Text → Option ℕ) (stalls : Failing → Bool)
    (limits : Limits) where
  -- The replies of a turn, as `resolve_bound_live` leaves them
  abbrev pub bound_replies : Turn W → LiveCapture → ℕ → Result Failing Resolution
  bound_replies t c k = resolve_bound_live dates c.saved_room_id (t.replies k)

  -- The LIVE has ended: every check is offline and parts are retained, or a reply shows another room.
  abbrev pub IsProvenEnd : Turn W → LiveCapture → LiveCapture → Type 0
  IsProvenEnd t c d =
      (AreOffline (bound_replies t c) 0
          (needed (not (is_nil c.all_parts)) limits.offline_confirmation_checks)
        × (is_nil d.all_parts ≡ false))
      ⊎ ((k : ℕ) × (bound_replies t c k ≡ err live_changed))

  finish_offline-parts :
      (c d : LiveCapture)
      → finish_offline W dates stalls limits c ≡ ends (finished false) d
      → is_nil d.all_parts ≡ false
  finish_offline-parts c d h = by_parts (is_nil c.all_parts) refl h
    where
      by_parts :
          (b : Bool)
          → is_nil c.all_parts ≡ b
          → (if b then ends failed_capture c else ends (finished false) c) ≡ ends (finished false) d
          → is_nil d.all_parts ≡ false
      by_parts true e k = cc (ap (ended_live W dates stalls limits) k)
      by_parts false e k = ap (λ (x : Step). is_nil (capture_of x).all_parts) (sym k) ∙ e

  by_failure :
      (t : Turn W) (c d : LiveCapture) (a : Attempted) (e : Failing)
      → IsQuiet W dates stalls limits t
      → attempt W dates stalls limits t c ≡ a
      → a.result ≡ err e
      → handle W dates stalls limits t a.capture a.parts e ≡ ends (finished false) d
      → IsProvenEnd t c d
  unfolding handle
  by_failure t c d a e q s r h =
      by_cause (ends_live-cases e cause)
        (attempt-ends W dates stalls limits t c e q cause (ap (λ (x : Attempted). x.result) s ∙ r))
        h
    where
      cause : ends_live (err e) ≡ true
      cause =
          handle-running W dates stalls limits t a.capture a.parts e
            (ap (ended_live W dates stalls limits) h)

      by_cause :
          (e ≡ offline) ⊎ (e ≡ live_changed)
          → (resolve_live_url_confirmed limits.offline_confirmation_checks
              limits.offline_confirmation_interval
              (not (is_nil c.all_parts))
              (bound_replies t c)).result
            ≡ err e
          → handle W dates stalls limits t a.capture a.parts e ≡ ends (finished false) d
          → IsProvenEnd t c d
      by_cause (inl o) g k = inl (
        ((resolve_live_url_confirmed-AreOffline limits.offline_confirmation_checks
              limits.offline_confirmation_interval (not (is_nil c.all_parts)) (bound_replies t c)).0
            (g ∙ ap err o)).1,
        finish_offline-parts (end_outage (close_record W t a.capture a.parts ended)) d
            (ap (λ x. handle W dates stalls limits t a.capture a.parts x) (sym o) ∙ k),
      )
      by_cause (inr o) g k =
          elim (resolved-reply limits.offline_confirmation_checks
            limits.offline_confirmation_interval (not (is_nil c.all_parts)) (bound_replies t c)
            (err live_changed) (g ∙ ap err o)) [
              | inl p ↦ cc (ap is_offline (err-injective p))
              | inr x ↦ elim x [ inl p ↦ cc (p) | inr y ↦ inr y ]
            ]

  -- Where neither the callbacks nor the stream raise the end of a LIVE, a turn finishes the capture as
  -- complete only where the LIVE has ended: parts are retained and every reply that is needed is
  -- offline, which is each of the checks once there were parts before the turn, or a reply shows that
  -- the account has another room.
  pub turn-IsProvenEnd :
      (t : Turn W) (c d : LiveCapture)
      → IsQuiet W dates stalls limits t
      → turn W dates stalls limits t c ≡ ends (finished false) d
      → IsProvenEnd t c d
  unfolding connect
  turn-IsProvenEnd t c d q h =
      by_attempt
        (attempt W dates stalls limits t (record c { connection_number = suc c.connection_number }))
        refl
        (sym (connects W dates stalls limits t c (ap (ended_live W dates stalls limits) h)) ∙ h)
    where
      by_result :
          (a : Attempted) (r : Result Failing (Unit {0}))
          → attempt W dates stalls limits t
              (record c { connection_number = suc c.connection_number })
            ≡ a
          → a.result ≡ r
          → let s : Step = elim r [
            | ok u ↦
                after_close W dates stalls limits t
                  (close_record W t a.capture a.parts closed)
                  a.parts
            | err e ↦ handle W dates stalls limits t a.capture a.parts e
          ] in
            s ≡ ends (finished false) d → IsProvenEnd t c d
      by_result a (ok u) e r = λ k. cc (
          sym (
            after_close-running W dates stalls limits t (close_record W t a.capture a.parts closed)
              a.parts)
          ∙ ap (ended_live W dates stalls limits) k)
      by_result a (err x) e r =
          λ k. by_failure t (record c { connection_number = suc c.connection_number }) d a x q e r k

      by_attempt :
          (a : Attempted)
          → attempt W dates stalls limits t
              (record c { connection_number = suc c.connection_number })
            ≡ a
          → settle W dates stalls limits t a ≡ ends (finished false) d
          → IsProvenEnd t c d
      by_attempt a e k = by_result a a.result e refl k

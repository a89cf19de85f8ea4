-- ===== src/Live/Handled.antt =====
-- What the handlers of a turn keep of a capture (tikrec/live.py).
use tik_rec.Base.{
  ℕ, suc, Bool, true, false, not, ◌&&◌, ◌||◌, Option, none, some, List, [], ◌∷◌, leb, is_some,
  is_nil, Result, ok, err,
}
use tik_rec.Text.{Text}
use tik_rec.Network.{
  Failing, capture_stopped, keyboard_interrupt, http, url_error, gaierror, timeout, connection,
  incomplete_read, eof, os_error, other_error, offline, live_changed, resolution,
  resolution_transient, source_network, source_refresh, file_exists,
}
use tik_rec.Retry.{OutageRecovery, RetryError, failure}
use tik_rec.Live.{Limits}
use tik_rec.Live.Attempt.{
  PartWriter, Outcome, interrupted, room_changed, ended, resolver_error, resolution_error,
  capture_error, closed, LiveCapture, CaptureEnd, finished, failed_capture, escaped, Turn,
  end_outage, next_failure_counts, Step, ends, Attempted,
}
use tik_rec.Live.Loop.{
  close_record, policy, failure_of, next_turn, outage_before, failed_outage, enter_outage,
  within_failures, after_failure, after_close, stall_outcome, refresh_failure, finish_offline,
  handle, settle,
}
use tik_rec.Live.Numbered.{After, choose-After}

-- What holds of a capture behind its record and is not changed by the counts, and what holds at an end
pub record IsKept (At : LiveCapture → Type 0) (Ended : CaptureEnd → LiveCapture → Type 0)
    : Type 0 where
  pub counts :
      (c : LiveCapture) (failures empty delay : ℕ) (outage : OutageRecovery)
      → At c
      → At (record c {
        consecutive_failures = failures;
        consecutive_empty = empty;
        delay = delay;
        outage = outage;
      })
  pub over : (e : CaptureEnd) (c : LiveCapture) → At c → Ended e c

module _ (At : LiveCapture → Type 0) (Ended : CaptureEnd → LiveCapture → Type 0)
    (kept : IsKept At Ended) (W : PartWriter) (dates : Text → Option ℕ) (stalls : Failing → Bool)
    (limits : Limits) where
  open kept use {counts, over}

  abbrev pub IsGood : Step → Type 0
  IsGood s = After At Ended s

  next_turn-IsGood :
      (t : Turn W) (c : LiveCapture) (normal : Bool) (parts : List ℕ)
      → At c
      → IsGood (next_turn W dates stalls limits t c normal parts)
  next_turn-IsGood t c normal parts h =
      counts c c.consecutive_failures c.consecutive_empty _ c.outage h

  within_failures-IsGood :
      (t : Turn W) (c : LiveCapture) (normal : Bool) (parts : List ℕ)
      → At c
      → IsGood (within_failures W dates stalls limits t c normal parts)
  within_failures-IsGood t c normal parts h =
      choose-After At Ended (leb limits.max_consecutive_failures c.consecutive_failures)
        (ends failed_capture c) (next_turn W dates stalls limits t c normal parts)
        (over failed_capture c h) (next_turn-IsGood t c normal parts h)

  enter_outage-IsGood :
      (t : Turn W) (c : LiveCapture) (parts : List ℕ) (e : Failing)
      → At c
      → IsGood (enter_outage W dates stalls limits t c parts e)
  unfolding enter_outage
  enter_outage-IsGood t c parts e h = by_parts parts
    where
      by_result :
          (d : LiveCapture) (ps : List ℕ) (r : Result RetryError OutageRecovery)
          → At d
          → IsGood (failed_outage W dates stalls limits t d ps r)
      by_result d ps (err x) k = over escaped d k
      by_result d ps (ok o) k =
          next_turn-IsGood t _ false ps
            (counts d d.consecutive_failures d.consecutive_empty d.delay o k)

      by_parts :
          (ps : List ℕ)
          → IsGood (
              failed_outage W dates stalls limits t (outage_before W dates stalls limits c ps) ps (
                failure
                  (policy W dates stalls limits)
                  (failure_of W dates stalls limits e)
                  t.failed_at
                  (outage_before W dates stalls limits c ps).outage))
      by_parts [] = by_result c [] _ h
      by_parts (p ∷ ps) =
          by_result (end_outage c) (p ∷ ps) _
            (counts c c.consecutive_failures c.consecutive_empty c.delay _ h)

  after_failure-IsGood :
      (t : Turn W) (c : LiveCapture) (parts : List ℕ) (e : Option Failing)
      → At c
      → IsGood (after_failure W dates stalls limits t c parts e)
  unfolding after_failure
  after_failure-IsGood t c parts none h = within_failures-IsGood t c false parts h
  after_failure-IsGood t c parts (some e) h =
      choose-After At Ended (is_some limits.retry_policy && is_some c.saved_room_id)
        (enter_outage W dates stalls limits t c parts e)
        (within_failures W dates stalls limits t c false parts) (enter_outage-IsGood t c parts e h)
        (within_failures-IsGood t c false parts h)

  next_failure_counts-At :
      (c : LiveCapture) (parts : List ℕ) → At c → At (next_failure_counts parts c)
  unfolding next_failure_counts
  next_failure_counts-At c [] h = counts c _ c.consecutive_empty c.delay c.outage h
  next_failure_counts-At c (p ∷ ps) h = counts c _ _ c.delay c.outage h

  end_outage-At : (c : LiveCapture) → At c → At (end_outage c)
  end_outage-At c h = counts c c.consecutive_failures c.consecutive_empty c.delay _ h

  after_close-IsGood :
      (t : Turn W) (c : LiveCapture) (parts : List ℕ)
      → At c
      → IsGood (after_close W dates stalls limits t c parts)
  unfolding after_close
  after_close-IsGood t c [] h =
      let d : LiveCapture = record c {
        consecutive_failures = 0;
        consecutive_empty = suc c.consecutive_empty;
      } in
      let k : At d = counts c 0 (suc c.consecutive_empty) c.delay c.outage h in
      choose-After At Ended (leb limits.max_consecutive_empty_connections (suc c.consecutive_empty))
        (ends failed_capture d) (within_failures W dates stalls limits t d true [])
        (over failed_capture d k) (within_failures-IsGood t d true [] k)
  after_close-IsGood t c (p ∷ ps) h =
      within_failures-IsGood t _ true (p ∷ ps) (counts c 0 0 c.delay (end_outage c).outage h)

  refresh_failure-IsGood :
      (t : Turn W) (c : LiveCapture) (parts : List ℕ)
      → At c
      → IsGood (refresh_failure W dates stalls limits t c parts)
  refresh_failure-IsGood t c parts h =
      choose-After At Ended (is_nil c.all_parts || not (is_some c.saved_room_id))
        (ends failed_capture (end_outage c))
        (after_failure W dates stalls limits t (next_failure_counts parts c) parts none)
        (over failed_capture (end_outage c) (end_outage-At c h))
        (after_failure-IsGood t (next_failure_counts parts c) parts none
          (next_failure_counts-At c parts h))

  finish_offline-IsGood : (c : LiveCapture) → At c → IsGood (finish_offline W dates stalls limits c)
  finish_offline-IsGood c h =
      choose-After At Ended (is_nil c.all_parts) (ends failed_capture c) (ends (finished false) c)
        (over failed_capture c h) (over (finished false) c h)

  -- The handlers, by the state that the record of the connection leaves, which is at a turn, and the one
  -- without a record
  handle-IsGood :
      (t : Turn W) (c : LiveCapture) (parts : List ℕ) (e : Failing)
      → Ended escaped c
      → ((o : Outcome) → At (close_record W t c parts o))
      → IsGood (handle W dates stalls limits t c parts e)
  unfolding handle
  handle-IsGood t c parts file_exists h k = h
  handle-IsGood t c parts keyboard_interrupt h k =
      over (finished true) _ (end_outage-At _ (k interrupted))
  handle-IsGood t c parts capture_stopped h k =
      over (finished true) _ (end_outage-At _ (k interrupted))
  handle-IsGood t c parts live_changed h k =
      over (finished false) _ (end_outage-At _ (k room_changed))
  handle-IsGood t c parts offline h k = finish_offline-IsGood _ (end_outage-At _ (k ended))
  handle-IsGood t c parts (resolution_transient kind hint) h k =
      after_failure-IsGood t _ parts (some (resolution_transient kind hint))
        (next_failure_counts-At _ parts (k resolver_error))
  handle-IsGood t c parts (source_network stall e) h k =
      after_failure-IsGood t _ parts (some e)
        (next_failure_counts-At _ parts (k (stall_outcome W dates stalls limits stall)))
  handle-IsGood t c parts (source_refresh stall e) h k =
      refresh_failure-IsGood t _ parts (k (stall_outcome W dates stalls limits stall))
  handle-IsGood t c parts resolution h k =
      over failed_capture _ (end_outage-At _ (k resolution_error))
  handle-IsGood t c parts (http a b) h k = over failed_capture _ (end_outage-At _ (k capture_error))
  handle-IsGood t c parts (url_error a) h k =
      over failed_capture _ (end_outage-At _ (k capture_error))
  handle-IsGood t c parts gaierror h k = over failed_capture _ (end_outage-At _ (k capture_error))
  handle-IsGood t c parts timeout h k = over failed_capture _ (end_outage-At _ (k capture_error))
  handle-IsGood t c parts connection h k = over failed_capture _ (end_outage-At _ (k capture_error))
  handle-IsGood t c parts incomplete_read h k =
      over failed_capture _ (end_outage-At _ (k capture_error))
  handle-IsGood t c parts eof h k = over failed_capture _ (end_outage-At _ (k capture_error))
  handle-IsGood t c parts (os_error a b d) h k =
      over failed_capture _ (end_outage-At _ (k capture_error))
  handle-IsGood t c parts other_error h k =
      over failed_capture _ (end_outage-At _ (k capture_error))

  pub settle-IsGood :
      (t : Turn W) (a : Attempted)
      → Ended escaped a.capture
      → ((o : Outcome) → At (close_record W t a.capture a.parts o))
      → IsGood (settle W dates stalls limits t a)
  settle-IsGood t a h k = by_result a.result
    where
      by_result :
          (r : Result Failing (Unit {0}))
          → let s : Step = elim r [
            | ok u ↦
                after_close W dates stalls limits t
                  (close_record W t a.capture a.parts closed)
                  a.parts
            | err e ↦ handle W dates stalls limits t a.capture a.parts e
          ] in
            IsGood s
      by_result (ok u) = after_close-IsGood t _ a.parts (k closed)
      by_result (err e) = handle-IsGood t a.capture a.parts e h k

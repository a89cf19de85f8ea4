-- ===== src/Live/Running.antt =====
-- Which turns finish a capture because its LIVE has ended (tikrec/live.py).
use tik_rec.Base.{
  ℕ, suc, ◌≡◌, refl, sym, ◌∙◌, Bool, true, false, not, ◌&&◌, ◌||◌, Option, none, some, List, [],
  ◌∷◌, ltb, leb, if◌then◌else◌, is_some, is_nil, Result, ok, err,
}
use tik_rec.Text.{Text}
use tik_rec.Network.{
  Failing, capture_stopped, keyboard_interrupt, http, url_error, gaierror, timeout, connection,
  incomplete_read, eof, os_error, other_error, offline, live_changed, resolution,
  resolution_transient, source_network, source_refresh, file_exists,
}
use tik_rec.Retry.{
  OutageRecovery, RetryError, bad_attempt, not_retryable, stopped, exhausted, failure, wait,
}
use tik_rec.Live.{Limits}
use tik_rec.Live.Attempt.{
  PartWriter, resolver_error, LiveCapture, CaptureEnd, finished, failed_capture, Turn, is_active,
  end_outage, next_failure_counts, Step, goes, ends,
}
use tik_rec.Live.Loop.{
  close_record, policy, failure_of, next_turn, outage_before, failed_outage, enter_outage,
  within_failures, after_failure, after_close, stall_outcome, refresh_failure, handle, connect,
  waited, wait_for_turn, turn,
}
use tik_rec.Live.Ended.{ends_live}

module _ (W : PartWriter) (dates : Text → Option ℕ) (stalls : Failing → Bool)
    (limits : Limits) where
  -- Whether a step finishes the capture because its LIVE has ended
  abbrev is_live_end : CaptureEnd → Bool
  is_live_end (finished false) = true
  is_live_end _ = false

  abbrev pub ended_live : Step → Bool
  ended_live (goes c) = false
  ended_live (ends e c) = is_live_end e

  choose-running :
      (b : Bool) (s u : Step)
      → ended_live s ≡ false
      → ended_live u ≡ false
      → ended_live (if b then s else u) ≡ false
  choose-running true s u h k = h
  choose-running false s u h k = k

  within_failures-running :
      (t : Turn W) (c : LiveCapture) (normal : Bool) (parts : List ℕ)
      → ended_live (within_failures W dates stalls limits t c normal parts) ≡ false
  within_failures-running t c normal parts =
      choose-running (leb limits.max_consecutive_failures c.consecutive_failures)
        (ends failed_capture c) (next_turn W dates stalls limits t c normal parts) refl refl

  after_failure-running :
      (t : Turn W) (c : LiveCapture) (parts : List ℕ) (e : Option Failing)
      → ended_live (after_failure W dates stalls limits t c parts e) ≡ false
  unfolding after_failure enter_outage
  after_failure-running t c parts none = within_failures-running t c false parts
  after_failure-running t c parts (some e) =
      choose-running (is_some limits.retry_policy && is_some c.saved_room_id)
        (failed_outage W dates stalls limits t (outage_before W dates stalls limits c parts) parts (
          failure (policy W dates stalls limits) (failure_of W dates stalls limits e) t.failed_at
            (outage_before W dates stalls limits c parts).outage))
        (within_failures W dates stalls limits t c false parts)
        (by_result (outage_before W dates stalls limits c parts) (
          failure (policy W dates stalls limits) (failure_of W dates stalls limits e) t.failed_at
            (outage_before W dates stalls limits c parts).outage))
        (within_failures-running t c false parts)
    where
      by_result :
          (d : LiveCapture) (r : Result RetryError OutageRecovery)
          → ended_live (failed_outage W dates stalls limits t d parts r) ≡ false
      by_result d (ok o) = refl
      by_result d (err x) = refl

  pub after_close-running :
      (t : Turn W) (c : LiveCapture) (parts : List ℕ)
      → ended_live (after_close W dates stalls limits t c parts) ≡ false
  unfolding after_close
  after_close-running t c [] =
      choose-running (leb limits.max_consecutive_empty_connections (suc c.consecutive_empty)) _ _
        refl (within_failures-running t _ true [])
  after_close-running t c (p ∷ ps) = within_failures-running t _ true (p ∷ ps)

  refresh_failure-running :
      (t : Turn W) (c : LiveCapture) (parts : List ℕ)
      → ended_live (refresh_failure W dates stalls limits t c parts) ≡ false
  refresh_failure-running t c parts =
      choose-running (is_nil c.all_parts || not (is_some c.saved_room_id)) _ _ refl
        (after_failure-running t (next_failure_counts parts c) parts none)

  pub handle-running :
      (t : Turn W) (c : LiveCapture) (parts : List ℕ) (e : Failing)
      → ended_live (handle W dates stalls limits t c parts e) ≡ true
      → ends_live (err e) ≡ true
  unfolding handle
  handle-running t c parts offline h = refl
  handle-running t c parts live_changed h = refl
  handle-running t c parts file_exists h = cc (h)
  handle-running t c parts keyboard_interrupt h = cc (h)
  handle-running t c parts capture_stopped h = cc (h)
  handle-running t c parts (resolution_transient kind hint) h = cc (
      sym (
        after_failure-running t
          (next_failure_counts parts (close_record W t c parts resolver_error)) parts
          (some (resolution_transient kind hint)))
      ∙ h)
  handle-running t c parts (source_network stall e) h = cc (
      sym (
        after_failure-running t
          (next_failure_counts parts
            (close_record W t c parts (stall_outcome W dates stalls limits stall)))
          parts (some e))
      ∙ h)
  handle-running t c parts (source_refresh stall e) h = cc (
      sym (
        refresh_failure-running t
          (close_record W t c parts (stall_outcome W dates stalls limits stall)) parts)
      ∙ h)
  handle-running t c parts resolution h = cc (h)
  handle-running t c parts (http a b) h = cc (h)
  handle-running t c parts (url_error a) h = cc (h)
  handle-running t c parts gaierror h = cc (h)
  handle-running t c parts timeout h = cc (h)
  handle-running t c parts connection h = cc (h)
  handle-running t c parts incomplete_read h = cc (h)
  handle-running t c parts eof h = cc (h)
  handle-running t c parts (os_error a b d) h = cc (h)
  handle-running t c parts other_error h = cc (h)

  -- Whose turn finishes so, has come to its connection.
  pub connects :
      (t : Turn W) (c : LiveCapture)
      → ended_live (turn W dates stalls limits t c) ≡ true
      → turn W dates stalls limits t c ≡ connect W dates stalls limits t c
  unfolding turn wait_for_turn
  connects t c h = by_stop t.stopped (ltb 0 c.connection_number) h
    where
      by_result :
          (r : Result RetryError ℕ)
          → ended_live (waited W dates stalls limits t c r) ≡ true
          → waited W dates stalls limits t c r ≡ connect W dates stalls limits t c
      by_result (ok now) k = refl
      by_result (err exhausted) k = cc (k)
      by_result (err stopped) k = cc (k)
      by_result (err bad_attempt) k = cc (k)
      by_result (err not_retryable) k = cc (k)

      by_wait :
          (active stop : Bool)
          → let s : Step =
              if active
              then waited W dates stalls limits t c
                  (wait (policy W dates stalls limits) t.control t.waiting_at c.outage)
              else if stop
              then ends (finished true) (end_outage c)
              else connect W dates stalls limits t c in
            ended_live s ≡ true → s ≡ connect W dates stalls limits t c
      by_wait true stop =
          λ k. by_result (wait (policy W dates stalls limits) t.control t.waiting_at c.outage) k
      by_wait false true = λ k. cc (k)
      by_wait false false = λ k. refl

      by_stop :
          (b later : Bool)
          → let s : Step =
              if b
              then ends (finished true) (end_outage c)
              else if later
              then (if is_active c.outage
                  then waited W dates stalls limits t c
                      (wait (policy W dates stalls limits) t.control t.waiting_at c.outage)
                  else if t.control.stopped_before || t.control.stopped_during
                  then ends (finished true) (end_outage c)
                  else connect W dates stalls limits t c)
              else connect W dates stalls limits t c in
            ended_live s ≡ true → s ≡ connect W dates stalls limits t c
      by_stop true later = λ k. cc (k)
      by_stop false true =
          λ k. by_wait (is_active c.outage) (t.control.stopped_before || t.control.stopped_during) k
      by_stop false false = λ k. refl

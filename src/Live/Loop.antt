-- ===== src/Live/Loop.antt =====
-- The turns of the loop of `capture_live` (tikrec/live.py), with the evidence of its connections
-- (tikrec/live_session.py). Writing a record to the log succeeds.
use tik_rec.Base.{
  ℕ, suc, ◌+◌, ◌-◌, ◌*◌, ◌^◌, Bool, true, false, not, ◌&&◌, ◌||◌, Option, none, some, List, [], ◌∷◌,
  ◌++◌, ltb, leb, length, if◌then◌else◌, is_some, is_nil, Result, ok, err,
}
use tik_rec.Text.{Text, codes}
use tik_rec.Network.{
  Failing, capture_stopped, keyboard_interrupt, offline, live_changed, resolution,
  resolution_transient, source_network, source_refresh, file_exists, classify_failure,
}
use tik_rec.Retry.{
  RetryPolicy, OutageRecovery, Failure, RetryError, exhausted, failure, status, wait,
}
use tik_rec.Live.{Limits, is_transient}
use tik_rec.Live.Attempt.{
  PartWriter, Outcome, interrupted, room_changed, ended, resolver_error, stalled, connection_error,
  resolution_error, capture_error, closed, ConnectionRecord, LiveCapture, CaptureEnd, finished,
  failed_capture, outage_failure, escaped, Turn, policy_or_default, is_active, end_outage,
  is_resolver_error, gap_of, next_failure_counts, Step, goes, ends, Attempted, attempt,
}

module _ (W : PartWriter) where
  unfoldable pub record_of : Turn W → LiveCapture → List ℕ → Outcome → ConnectionRecord
  record_of t c parts outcome = record {
    number = c.connection_number;
    started_at = t.started_at;
    ended_at = t.ended_at;
    gap_before = gap_of c.previous_end t.started_at;
    parts = parts;
    outcome = outcome;
  }

  -- `close_record`, with `close_live_connection`
  unfoldable pub close_record : Turn W → LiveCapture → List ℕ → Outcome → LiveCapture
  unfolding record_of
  close_record t c parts outcome = record c {
    records = c.records ++ record_of t c parts outcome ∷ [];
    log =
        (if c.session_started && not (is_resolver_error outcome && is_active c.outage)
          then c.log ++ record_of t c parts outcome ∷ []
          else c.log);
    all_parts = c.all_parts ++ parts;
    next_part_index = c.next_part_index + length parts;
    previous_end = some t.ended_at;
  }

module _ (W : PartWriter) (dates : Text → Option ℕ) (stalls : Failing → Bool)
    (limits : Limits) where
  abbrev pub policy : RetryPolicy
  policy = policy_or_default limits.retry_policy

  -- How the policy sees the exception behind a failure
  unfoldable pub failure_of : Failing → Failure
  failure_of e =
      let c = classify_failure dates true e in
      record {
        is_transient = is_transient c.category;
        reason = c.reason;
        retry_after = c.retry_after;
      }

  -- The wait before the next turn
  abbrev pub delay_after : Turn W → LiveCapture → Bool → List ℕ → ℕ
  delay_after t c normal parts =
      if normal && not (is_nil parts)
      then 0
      else if is_active c.outage
      then (status policy c.outage t.failed_at).next_retry_in_seconds
      else limits.backoff_seconds * 2 ^ (c.consecutive_failures - 1)

  abbrev pub next_turn : Turn W → LiveCapture → Bool → List ℕ → Step
  next_turn t c normal parts = goes (record c { delay = delay_after t c normal parts })

  -- `recovery.failure`, with the end of an outage before it
  abbrev pub outage_before : LiveCapture → List ℕ → LiveCapture
  outage_before c [] = c
  outage_before c (p ∷ ps) = end_outage c

  abbrev pub failed_outage : Turn W → LiveCapture → List ℕ → Result RetryError OutageRecovery → Step
  failed_outage t c parts (err e) = ends escaped c
  failed_outage t c parts (ok o) = next_turn t (record c { outage = o }) false parts

  unfoldable pub enter_outage : Turn W → LiveCapture → List ℕ → Failing → Step
  unfolding failure_of
  enter_outage t c parts e =
      let d = outage_before c parts in
      failed_outage t d parts (failure policy (failure_of e) t.failed_at d.outage)

  abbrev pub within_failures : Turn W → LiveCapture → Bool → List ℕ → Step
  within_failures t c normal parts =
      if leb limits.max_consecutive_failures c.consecutive_failures
      then ends failed_capture c
      else next_turn t c normal parts

  -- What follows a connection that has failed; `retry` is `error_for_retry`.
  unfoldable pub after_failure : Turn W → LiveCapture → List ℕ → Option Failing → Step
  unfolding enter_outage
  after_failure t c parts none = within_failures t c false parts
  after_failure t c parts (some e) =
      if is_some limits.retry_policy && is_some c.saved_room_id
      then enter_outage t c parts e
      else within_failures t c false parts

  abbrev pub after_empty : Turn W → LiveCapture → Step
  after_empty t c =
      if leb limits.max_consecutive_empty_connections c.consecutive_empty
      then ends failed_capture c
      else within_failures t c true []

  -- The `else` of the `try`: the connection was closed.
  unfoldable pub after_close : Turn W → LiveCapture → List ℕ → Step
  after_close t c [] =
      after_empty t
        (record c { consecutive_failures = 0; consecutive_empty = suc c.consecutive_empty })
  after_close t c (p ∷ ps) =
      within_failures t (record (end_outage c) { consecutive_failures = 0; consecutive_empty = 0 })
        true (p ∷ ps)

  abbrev pub stall_outcome : Bool → Outcome
  stall_outcome true = stalled
  stall_outcome false = connection_error

  -- The handler of a failing source; a stale address is not retried by the policy.
  abbrev pub refresh_failure : Turn W → LiveCapture → List ℕ → Step
  refresh_failure t c parts =
      if is_nil c.all_parts || not (is_some c.saved_room_id)
      then ends failed_capture (end_outage c)
      else after_failure t (next_failure_counts parts c) parts none

  abbrev pub finish_offline : LiveCapture → Step
  finish_offline c = if is_nil c.all_parts then ends failed_capture c else ends (finished false) c

  -- The handlers of the `try`, in their order
  unfoldable pub handle : Turn W → LiveCapture → List ℕ → Failing → Step
  unfolding close_record after_failure next_failure_counts
  handle t c parts file_exists = ends escaped c
  handle t c parts keyboard_interrupt =
      ends (finished true) (end_outage (close_record W t c parts interrupted))
  handle t c parts capture_stopped =
      ends (finished true) (end_outage (close_record W t c parts interrupted))
  handle t c parts live_changed =
      ends (finished false) (end_outage (close_record W t c parts room_changed))
  handle t c parts offline = finish_offline (end_outage (close_record W t c parts ended))
  handle t c parts (resolution_transient kind hint) =
      after_failure t (next_failure_counts parts (close_record W t c parts resolver_error)) parts
        (some (resolution_transient kind hint))
  handle t c parts (source_network stall e) =
      after_failure t (next_failure_counts parts (close_record W t c parts (stall_outcome stall)))
        parts (some e)
  handle t c parts (source_refresh stall e) =
      refresh_failure t (close_record W t c parts (stall_outcome stall)) parts
  handle t c parts resolution =
      ends failed_capture (end_outage (close_record W t c parts resolution_error))
  handle t c parts _ = ends failed_capture (end_outage (close_record W t c parts capture_error))

  abbrev pub settle : Turn W → Attempted → Step
  settle t a = elim a.result [
    | ok u ↦ after_close t (close_record W t a.capture a.parts closed) a.parts
    | err e ↦ handle t a.capture a.parts e
  ]

  -- The turn behind its wait
  unfoldable pub connect : Turn W → LiveCapture → Step
  unfolding attempt close_record after_close handle
  connect t c =
      settle t
        (attempt W dates stalls limits t (record c { connection_number = suc c.connection_number }))

  abbrev pub waited : Turn W → LiveCapture → Result RetryError ℕ → Step
  waited t c (ok now) = connect t c
  waited t c (err exhausted) = ends outage_failure (end_outage c)
  waited t c (err e) = ends (finished true) (end_outage c)

  -- The wait before a turn that is not the first
  unfoldable pub wait_for_turn : Turn W → LiveCapture → Step
  unfolding connect
  wait_for_turn t c =
      if is_active c.outage
      then waited t c (wait policy t.control t.waiting_at c.outage)
      else if t.control.stopped_before || t.control.stopped_during
      then ends (finished true) (end_outage c)
      else connect t c

  -- One turn of `while True`
  unfoldable pub turn : Turn W → LiveCapture → Step
  unfolding wait_for_turn connect
  turn t c =
      if t.stopped
      then ends (finished true) (end_outage c)
      else if ltb 0 c.connection_number
      then wait_for_turn t c
      else connect t c

  abbrev pub then_turns :
      Step → (LiveCapture → Option CaptureEnd × LiveCapture) → Option CaptureEnd × LiveCapture
  then_turns (goes c) rest = rest c
  then_turns (ends e c) rest = (some e, c)

  -- The loop over the turns that are given; `none` is a capture that still runs.
  unfoldable pub turns : List (Turn W) → LiveCapture → Option CaptureEnd × LiveCapture
  unfolding turn
  turns [] c = (none, c)
  turns (t ∷ ts) c = then_turns (turn t c) (λ d. turns ts d)

-- The variables before the first turn of a new session
abbrev pub initial_capture : LiveCapture
initial_capture = record {
  records = [];
  log = [];
  all_parts = [];
  next_part_index = 1;
  consecutive_failures = 0;
  consecutive_empty = 0;
  connection_number = 0;
  previous_end = none;
  session_started = false;
  delay = 0;
  saved_room_id = none;
  outage = record { started = none; attempt = 0; reason = codes "network"; delay_seconds = 0 };
}

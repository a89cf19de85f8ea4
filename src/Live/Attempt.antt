-- ===== src/Live/Attempt.antt =====
-- The state of `capture_live` (tikrec/live.py), and the `try` of a turn with its source (tikrec/live_source.py).
-- What a turn meets is an argument: stops, clocks, replies of the resolver and the stream.
use tik_rec.Base.{
  ℕ, suc, ◌≡◌, Bool, true, false, not, Option, none, some, List, [], ◌∷◌, ◌++◌, ◌==◌, if◌then◌else◌,
  is_some, is_nil, Result, ok, err,
}
use tik_rec.Base.Int.{ℤ, pos, ◌-ℤ◌}
use tik_rec.Text.{Text}
use tik_rec.Network.{
  Failing, capture_stopped, http, source_network, source_refresh, classify_failure,
}
use tik_rec.Retry.{RetryPolicy, OutageRecovery, Control, reset}
use tik_rec.Live.{Limits, Resolution, is_transient, resolve_bound_live, resolve_live_url_confirmed}

-- The parts are numbered one behind the other from `k` on.
abbrev pub AreNumbered : ℕ → List ℕ → Type 0
AreNumbered k [] = Unit
AreNumbered k (p ∷ ps) = (p ≡ k) × AreNumbered (suc k) ps

-- How a connection's stream ends: it is closed, its source raises, or the writer does.
pub data Ending : Type 0 where
  source_closed : Ending
  source_raised writer_raised : Failing → Ending

-- The writer of `capture_live`: the parts that it retains from an index on, of a stream that is opened and
-- read to its end, and how it ends.
pub record PartWriter : Type 1 where
  pub Stream : Type 0
  pub write : ℕ → Stream → List ℕ × Ending
  pub numbered : (start : ℕ) (s : Stream) → AreNumbered start (write start s).0

pub data Outcome : Type 0 where
  interrupted room_changed ended resolver_error stalled connection_error resolution_error
        capture_error closed :
      Outcome

-- `ConnectionRecord`: its number, times, gap to the one before, parts and outcome
pub record ConnectionRecord : Type 0 where
  pub number : ℕ
  pub started_at : ℕ
  pub ended_at : ℕ
  pub gap_before : Option ℤ
  pub parts : List ℕ
  pub outcome : Outcome

-- The variables of `capture_live` that live through its loop. `log` is the file of the connections.
pub record LiveCapture : Type 0 where
  pub records : List ConnectionRecord
  pub log : List ConnectionRecord
  pub all_parts : List ℕ
  pub next_part_index : ℕ
  pub consecutive_failures : ℕ
  pub consecutive_empty : ℕ
  pub connection_number : ℕ
  pub previous_end : Option ℕ
  pub session_started : Bool
  pub delay : ℕ
  pub saved_room_id : Option Text
  pub outage : OutageRecovery

-- How the capture ends: with a result, with a CaptureError, at the end of an outage's window, or by an
-- exception that passes through.
pub data CaptureEnd : Type 0 where
  finished : Bool → CaptureEnd
  failed_capture : CaptureEnd
  outage_failure : CaptureEnd
  escaped : CaptureEnd

-- What one turn meets. `identity` is the callback for the room, `prepared` the creator and the files of a
-- session that starts, and `opened` the manifest, behind it.
pub record Turn (W : PartWriter) : Type 0 where
  pub stopped : Bool
  pub control : Control
  pub waiting_at : ℕ
  pub started_at : ℕ
  pub stopped_before : Bool
  pub replies : ℕ → Result Failing Resolution
  pub stopped_after : Bool
  pub identity : Result Failing (Unit {0})
  pub prepared : Result Failing (Unit {0})
  pub opened : Result Failing (Unit {0})
  pub stream : W.Stream
  pub ended_at : ℕ
  pub failed_at : ℕ

-- The policy of `LiveRecovery`: that of the call, or the defaults
abbrev pub policy_or_default : Option RetryPolicy → RetryPolicy
policy_or_default none = record {
  window_seconds = 900;
  delays = 1 ∷ 2 ∷ 5 ∷ 10 ∷ 10 ∷ 30 ∷ [];
  max_delay_seconds = 30;
}
policy_or_default (some p) = p

abbrev pub is_active : OutageRecovery → Bool
is_active o = is_some o.started

-- `LiveRecovery.end`, for the outage
abbrev pub end_outage : LiveCapture → LiveCapture
end_outage c = record c { outage = if is_active c.outage then reset c.outage else c.outage }

abbrev pub is_resolver_error : Outcome → Bool
is_resolver_error resolver_error = true
is_resolver_error _ = false

abbrev pub gap_of : Option ℕ → ℕ → Option ℤ
gap_of none started = none
gap_of (some previous) started = some (pos started -ℤ pos previous)

abbrev pub or_room : Option Text → Option Text → Option Text
or_room (some room) other = some room
or_room none other = other

-- `_next_failure_counts`
unfoldable pub next_failure_counts : List ℕ → LiveCapture → LiveCapture
next_failure_counts [] c = record c { consecutive_failures = suc c.consecutive_failures }
next_failure_counts (p ∷ ps) c = record c { consecutive_failures = 0; consecutive_empty = 0 }

-- A turn goes on to the next one, or the capture ends.
pub data Step : Type 0 where
  goes : LiveCapture → Step
  ends : CaptureEnd → LiveCapture → Step

-- What the `try` of a turn leaves: the variables, the parts of the connection, and how it ends.
pub record Attempted : Type 0 where
  pub capture : LiveCapture
  pub parts : List ℕ
  pub result : Result Failing (Unit {0})

abbrev pub attempted : LiveCapture → List ℕ → Result Failing (Unit {0}) → Attempted
attempted c parts result = record { capture = c; parts = parts; result = result }

-- The handlers of `connection_source` and `_guard_tags` of tikrec/live_source.py
abbrev pub is_not_found : Failing → Bool
is_not_found (http code header) = code == 404
is_not_found _ = false

module _ (dates : Text → Option ℕ) (stalls : Failing → Bool) where
  unfoldable pub source_error : Failing → Failing
  source_error e =
      if is_not_found e
      then source_refresh (stalls e) e
      else if is_transient (classify_failure dates true e).category
      then source_network (stalls e) e
      else e

  abbrev pub result_of : Ending → Result Failing (Unit {0})
  result_of source_closed = ok tt
  result_of (source_raised e) = err (source_error e)
  result_of (writer_raised e) = err e

module _ (W : PartWriter) (dates : Text → Option ℕ) (stalls : Failing → Bool)
    (limits : Limits) where
  abbrev pub written : LiveCapture → List ℕ × Ending → Attempted
  written c w = attempted c w.0 (result_of dates stalls w.1)

  -- Behind the start of the session
  abbrev pub open_source : Turn W → LiveCapture → Result Failing (Unit {0}) → Attempted
  open_source t c (err e) = attempted c [] (err e)
  open_source t c (ok _) = written c (W.write c.next_part_index t.stream)

  -- `if not session_started`: the attempts before are logged once the session is there.
  abbrev pub start_session : Turn W → LiveCapture → Result Failing (Unit {0}) → Attempted
  start_session t c (err e) = attempted c [] (err e)
  start_session t c (ok _) =
      open_source t (record c { session_started = true; log = if_ok t.opened }) t.opened
    where
      if_ok : Result Failing (Unit {0}) → List ConnectionRecord
      if_ok (ok _) = c.log ++ c.records
      if_ok (err e) = c.log

  abbrev pub identify : Turn W → Option Text → Result Failing (Unit {0})
  identify t none = ok tt
  identify t (some room) = t.identity

  abbrev pub identified : Turn W → LiveCapture → Result Failing (Unit {0}) → Attempted
  identified t c (err e) = attempted c [] (err e)
  identified t c (ok _) =
      if c.session_started then open_source t c t.opened else start_session t c t.prepared

  -- Behind the resolution
  abbrev pub resolved : Turn W → LiveCapture → Result Failing Resolution → Attempted
  resolved t c (err e) = attempted c [] (err e)
  resolved t c (ok r) =
      if t.stopped_after
      then attempted c [] (err capture_stopped)
      else identified t (record c { saved_room_id = or_room c.saved_room_id r.room_id })
          (identify t r.room_id)

  -- The `try` of the loop
  unfoldable pub attempt : Turn W → LiveCapture → Attempted
  unfolding resolve_live_url_confirmed resolve_bound_live source_error
  attempt t c =
      if t.stopped_before
      then attempted c [] (err capture_stopped)
      else resolved t c
          (resolve_live_url_confirmed limits.offline_confirmation_checks
            limits.offline_confirmation_interval (not (is_nil c.all_parts))
            (λ k. resolve_bound_live dates c.saved_room_id (t.replies k))).result

-- ===== src/Live.antt =====
-- The reconnecting capture of a public LIVE: its limits, the resolution of the stream of one room, and the
-- confirmation that the room has ended. tikrec/live_support.py, tikrec/live_recovery.py and
-- `resolve_live_url_confirmed` of tikrec/tiktok.py.
pub mod Confirmed
pub mod Attempt
pub mod Loop
pub mod Numbered
pub mod Handled
pub mod Turns
pub mod Recorder
pub mod Media
pub mod Progress
pub mod Dry
pub mod Ended
pub mod Running
pub mod Finished
mod Tests
use tik_rec.Base.{
  ℕ, zero, suc, ◌+◌, ◌-◌, Bool, true, false, not, ◌&&◌, ◌||◌, Option, none, some, List, [], ◌∷◌,
  ltb, ◌==◌, if◌then◌else◌, Result, ok, err, raise_if, ◌>>◌,
}
use tik_rec.Base.Int.{ℤ, pos, negsuc}
use tik_rec.Text.{Text, text_eq}
use tik_rec.Network.{
  Failing, other_error, offline, live_changed, resolution, resolution_transient, Category, stop,
  terminal, transient, malformed, local, FailureClassification, classify_failure,
}
use tik_rec.Retry.{RetryPolicy}

abbrev pub is_negative : ℤ → Bool
is_negative (pos n) = false
is_negative (negsuc n) = true

-- The limits of `capture_live`; `retry_policy` is none where waiting out an outage is switched off.
pub record Limits : Type 0 where
  pub max_consecutive_failures : ℕ
  pub max_consecutive_empty_connections : ℕ
  pub backoff_seconds : ℕ
  pub offline_confirmation_checks : ℕ
  pub offline_confirmation_interval : ℤ
  pub retry_policy : Option RetryPolicy

-- `_validate_limits`: whether the limits are accepted
unfoldable pub limits_valid : Limits → Bool
limits_valid l =
    ltb 0 l.max_consecutive_failures
    && (ltb 0 l.max_consecutive_empty_connections
        && (ltb 0 l.offline_confirmation_checks
            && not (is_negative l.offline_confirmation_interval)))

-- What a resolver returns: the room that it proves, and whether the address is one of HTTP(S) and FLV.
pub record Resolution : Type 0 where
  pub room_id : Option Text
  pub is_flv : Bool

abbrev pub is_transient : Category → Bool
is_transient transient = true
is_transient _ = false

abbrev pub is_offline : Failing → Bool
is_offline offline = true
is_offline _ = false

abbrev pub is_resolution_transient : Failing → Bool
is_resolution_transient (resolution_transient kind hint) = true
is_resolution_transient _ = false

-- The `except` of `resolve_bound_live`
unfoldable pub rebound : (Text → Option ℕ) → Failing → Failing
rebound dates e =
    let c = classify_failure dates true e in
    if is_transient c.category && not (is_resolution_transient e)
    then resolution_transient (some c.reason) c.retry_after
    else e

-- The tests of `resolve_bound_live` on what the resolver returns
abbrev pub check_room : Text → Option Text → Result Failing (Unit {0})
check_room room none = err resolution
check_room room (some current) = raise_if (not (text_eq current room)) live_changed

unfoldable pub check_bound : Option Text → Resolution → Result Failing (Unit {0})
check_bound none r = ok tt
check_bound (some room) r = check_room room r.room_id >> raise_if (not r.is_flv) resolution

-- `resolve_bound_live`, by the reply of the resolver
unfoldable pub resolve_bound_live :
    (Text → Option ℕ) → Option Text → Result Failing Resolution → Result Failing Resolution
unfolding rebound check_bound
resolve_bound_live dates room (err e) = err (rebound dates e)
resolve_bound_live dates room (ok r) = check_bound room r >> ok r

-- The result of `resolve_live_url_confirmed`, and what `status_observer` is told of each status that is
-- not live: whether it confirms the end.
pub record Resolved : Type 0 where
  pub result : Result Failing Resolution
  pub statuses : List Bool

-- What follows an offline reply in `resolve_live_url_confirmed`, by the next reply and what would follow
-- if that one is offline too.
unfoldable pub after_reply : Result Failing Resolution → Resolved → Resolved
after_reply (ok r) rest = record { result = ok r; statuses = false ∷ false ∷ [] }
after_reply (err e) rest =
    if is_offline e
    then record { result = rest.result; statuses = false ∷ rest.statuses }
    else record { result = err e; statuses = false ∷ [] }

-- The loop behind the offline reply `k`: `left` more attempts may follow. An attempt waits, and asks the
-- resolver again; a stop in the wait is a reply that raises it.
unfoldable pub confirm : (ℕ → Result Failing Resolution) → Bool → ℕ → ℕ → Resolved
unfolding after_reply
confirm replies started zero k = record { result = err offline; statuses = true ∷ [] }
confirm replies started (suc left) k =
    let rest = confirm replies started left (suc k) in
    if not started
    then record { result = err offline; statuses = true ∷ [] }
    else after_reply (replies (suc k)) rest

abbrev pub first_reply : Result Failing Resolution → Resolved → Resolved
first_reply (ok r) rest = record { result = ok r; statuses = [] }
first_reply (err e) rest = if is_offline e then rest else record { result = err e; statuses = [] }

-- `resolve_live_url_confirmed` behind the tests of its arguments
unfoldable pub reply_confirmed : ℕ → Bool → (ℕ → Result Failing Resolution) → Resolved
unfolding confirm
reply_confirmed checks started replies =
    first_reply (replies 0) (confirm replies started (checks - 1) 0)

-- `resolve_live_url_confirmed`; the ValueError is `other_error`.
unfoldable pub resolve_live_url_confirmed :
    ℕ → ℤ → Bool → (ℕ → Result Failing Resolution) → Resolved
unfolding reply_confirmed
resolve_live_url_confirmed checks interval started replies =
    if ltb checks 1 || is_negative interval
    then record { result = err other_error; statuses = [] }
    else reply_confirmed checks started replies

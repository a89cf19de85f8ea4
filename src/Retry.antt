-- ===== src/Retry.antt =====
-- The patient outage policy: tikrec/retry_policy.py. A time is a whole number of some unit of time; since a
-- float is a fraction, there is one in which the numbers of a policy, the hints and the clock readings are
-- whole. A clock reading is an argument.
pub mod Exhausted
mod Tests
use tik_rec.Base.{
  ℕ, zero, suc, ◌+◌, ◌-◌, min, max, Bool, true, false, not, ◌&&◌, ◌||◌, Option, none, some, List,
  [], ◌∷◌, ltb, leb, length, get_or, if◌then◌else◌, is_some, is_nil, Result, ok, err, ◌>>=◌, ◌>>◌,
  raise_if,
}
use tik_rec.Text.{Text}

pub record RetryPolicy : Type 0 where
  pub window_seconds : ℕ
  pub delays : List ℕ
  pub max_delay_seconds : ℕ

abbrev pub all_positive : List ℕ → Bool
all_positive [] = true
all_positive (d ∷ ds) = ltb 0 d && all_positive ds

-- `__post_init__`: whether the policy is accepted
unfoldable pub policy_valid : RetryPolicy → Bool
policy_valid p =
    not (is_nil p.delays)
    && (ltb 0 p.window_seconds && (ltb 0 p.max_delay_seconds && all_positive p.delays))

pub data RetryError : Type 0 where
  bad_attempt not_retryable stopped exhausted : RetryError

abbrev pub at_least : Option ℕ → ℕ → ℕ
at_least none delay = delay
at_least (some retry_after) delay = max delay retry_after

-- `delay`
unfoldable pub delay : RetryPolicy → ℕ → Option ℕ → Result RetryError ℕ
delay p zero retry_after = err bad_attempt
delay p (suc attempt) retry_after = ok (
    min (at_least retry_after (get_or p.delays (min (suc attempt) (length p.delays) - 1) 0))
      p.max_delay_seconds)

-- What `classify_failure` says of an error
pub record Failure : Type 0 where
  pub is_transient : Bool
  pub reason : Text
  pub retry_after : Option ℕ

-- `OutageRecovery`, without its policy and its clocks
pub record OutageRecovery : Type 0 where
  pub started : Option ℕ
  pub attempt : ℕ
  pub reason : Text
  pub delay_seconds : ℕ

-- `reset`; the reason stays.
unfoldable pub reset : OutageRecovery → OutageRecovery
reset r = record r { started = none; attempt = 0; delay_seconds = 0 }

abbrev pub started_or : Option ℕ → ℕ → ℕ
started_or none now = now
started_or (some s) now = s

-- `failure`
unfoldable pub failure :
    RetryPolicy → Failure → ℕ → OutageRecovery → Result RetryError OutageRecovery
failure p f now r = do
  raise_if (not f.is_transient) not_retryable
  d ← delay p (suc r.attempt) f.retry_after
  ok (record {
    started = some (started_or r.started now);
    attempt = suc r.attempt;
    reason = f.reason;
    delay_seconds = d;
  })

pub record RetryStatus : Type 0 where
  pub retry_attempt : ℕ
  pub next_retry_in_seconds : ℕ
  pub outage_elapsed_seconds : ℕ
  pub recovery_window_seconds : ℕ
  pub network_failure_kind : Text

-- `max(0.0, clock() - started) if active else 0.0`
unfoldable pub elapsed : Option ℕ → ℕ → ℕ
elapsed none now = 0
elapsed (some started) now = now - started

-- `status`
unfoldable pub status : RetryPolicy → OutageRecovery → ℕ → RetryStatus
unfolding elapsed
status p r now = record {
  retry_attempt = r.attempt;
  next_retry_in_seconds = min r.delay_seconds (p.window_seconds - elapsed r.started now);
  outage_elapsed_seconds = elapsed r.started now;
  recovery_window_seconds = p.window_seconds;
  network_failure_kind = r.reason;
}

-- How the control behaves in a wait: whether it is stopped before or during it, and how much longer
-- than asked the wait takes.
pub record Control : Type 0 where
  pub stopped_before : Bool
  pub stopped_during : Bool
  pub extra : ℕ

-- `wait`: the clock behind it
unfoldable pub wait : RetryPolicy → Control → ℕ → OutageRecovery → Result RetryError ℕ
unfolding status
wait p control now r =
    let later = now + (status p r now).next_retry_in_seconds + control.extra in
    do
      raise_if control.stopped_before stopped
      raise_if (leb p.window_seconds (status p r now).outage_elapsed_seconds) exhausted
      raise_if control.stopped_during stopped
      raise_if (leb p.window_seconds (status p r later).outage_elapsed_seconds) exhausted
      ok later

-- One failed attempt and the wait behind it.
pub record Round : Type 0 where
  pub failed : Failure
  pub control : Control

-- An outage: attempts that fail one behind the other, with their waits.
unfoldable pub outage :
    RetryPolicy → List Round → ℕ → OutageRecovery → Result RetryError (ℕ × OutageRecovery)
outage p [] now r = ok (now, r)
outage p (x ∷ xs) now r = do
  r1 ← failure p x.failed now r
  later ← wait p x.control now r1
  outage p xs later r1

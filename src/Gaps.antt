-- ===== src/Gaps.antt =====
-- The analysis of reconnect gaps: tikrec/gap_analysis.py, on records that are read from their lines.
-- Numbers are a parameter with a subtraction, since the code's are floats.
pub mod Components
mod Tests
use tik_rec.Base.{
  ℕ, zero, suc, ◌+◌, ◌-◌, Bool, true, false, not, ◌&&◌, ◌||◌, Option, none, some, List, [], ◌∷◌,
  ◌++◌, ◌==◌, length, take, drop, if◌then◌else◌, is_some,
}
use tik_rec.Text.{Text, codes, text_eq}

-- A line of `connections.jsonl`: what `_number`, `_integer` and the tests of text let through.
pub record Line (N : Type 0) : Type 0 where
  pub event : Option Text
  pub connection : Option ℕ
  pub outcome : Option Text
  pub reason : Option Text
  pub phase : Option Text
  pub started_at : Option N
  pub resolved_at : Option N
  pub http_opened_at : Option N
  pub first_media_tag_at : Option N
  pub first_retained_media_at : Option N
  pub last_retained_media_at : Option N
  pub ended_at : Option N

pub data Classification : Type 0 where
  service_restart explicit_resume network_recovery room_end_confirmation service_recovery :
      Classification
  other_recovery ordinary : Classification

-- `FailedAttempt`
pub record FailedAttempt (N : Type 0) : Type 0 where
  pub connection : ℕ
  pub outcome : Option Text
  pub duration_seconds : Option N

-- `ReconnectGap`
pub record ReconnectGap (N : Type 0) : Type 0 where
  pub previous_connection : ℕ
  pub current_connection : ℕ
  pub classification : Classification
  pub previous_tail_seconds : Option N
  pub local_backoff_seconds : Option N
  pub resolution_seconds : Option N
  pub http_setup_seconds : Option N
  pub initial_media_seconds : Option N
  pub keyframe_gate_seconds : Option N
  pub total_gap_seconds : Option N
  pub intervening_attempts : List (FailedAttempt N)
  pub unrecorded_attempt_count : ℕ
  pub boundary_events : List Text

abbrev pub starts_with : Text → Text → Bool
starts_with [] s = true
starts_with (a ∷ p) [] = false
starts_with (a ∷ p) (b ∷ s) = a == b && starts_with p s

abbrev pub any_text : (Text → Bool) → List Text → Bool
any_text p [] = false
any_text p (t ∷ ts) = p t || any_text p ts

abbrev pub outcome_is : Text → Option Text → Bool
outcome_is t none = false
outcome_is t (some s) = text_eq s t

-- The recovery that the labels of the bridge name, if there is one
unfoldable pub event_class : List Text → Option Classification
event_class events =
    if any_text (starts_with (codes "service_recovery:process_restart")) events
    then some service_restart
    else if any_text (starts_with (codes "capture_resume")) events
    then some explicit_resume
    else if any_text
        (λ e.
          starts_with (codes "network_recovery") e
          && not (text_eq e (codes "network_recovery:recovered")))
        events
    then some network_recovery
    else if any_text (starts_with (codes "room_status")) events
    then some room_end_confirmation
    else if any_text (starts_with (codes "service_recovery")) events
    then some service_recovery
    else none

-- The class without such a label
unfoldable pub outcome_class : Option Text → ℕ → Classification
outcome_class outcome unrecorded =
    if outcome_is (codes "connection_error") outcome || outcome_is (codes "stalled") outcome
    then network_recovery
    else if not (unrecorded == 0)
    then other_recovery
    else if outcome_is (codes "closed") outcome
    then ordinary
    else other_recovery

abbrev pub or_class : Option Classification → Classification → Classification
or_class none c = c
or_class (some c) d = c

-- `_classify`
unfoldable pub classify : Option Text → List Text → ℕ → Classification
unfolding event_class outcome_class
classify outcome events unrecorded =
    or_class (event_class events) (outcome_class outcome unrecorded)

abbrev pub is_in : ℕ → List ℕ → Bool
is_in n [] = false
is_in n (m ∷ ms) = n == m || is_in n ms

-- `len({…})`
unfoldable pub count_distinct : List ℕ → ℕ
count_distinct [] = 0
count_distinct (n ∷ ns) = (if is_in n ns then 0 else 1) + count_distinct ns

module _ (N : Type 0) (minus : N → N → N) where
  -- `_difference`
  unfoldable pub difference : Option N → Option N → Option N
  difference (some later) (some earlier) = some (minus later earlier)
  difference _ _ = none

  unfoldable pub connection_record : Line N → Bool
  connection_record l = not (is_some l.event) && is_some l.connection

  unfoldable pub media_record : Line N → Bool
  unfolding connection_record
  media_record l =
      connection_record l && (is_some l.first_retained_media_at && is_some l.last_retained_media_at)

  abbrev pub detail_of : Text → Line N → Option Text
  detail_of event l =
      if text_eq event (codes "capture_resume") || text_eq event (codes "service_recovery")
      then l.reason
      else l.phase

  abbrev pub labelled : Text → Option Text → Text
  labelled event none = event
  labelled event (some detail) = event ++ (codes ":" ++ detail)

  -- The labels of the lines that have an event (`_event_label`)
  unfoldable pub event_labels : List (Line N) → List Text
  event_labels [] = []
  event_labels (l ∷ ls) =
      let rest = event_labels ls in
      elim l.event [ none ↦ rest | some event ↦ labelled event (detail_of event l) ∷ rest ]

  abbrev pub attempt_of : Option ℕ → Line N → Option (FailedAttempt N)
  attempt_of none l = none
  attempt_of (some n) l = some (record {
    connection = n;
    outcome = l.outcome;
    duration_seconds = difference l.ended_at l.started_at;
  })

  abbrev pub and_then :
      Option (FailedAttempt N) → Option (List (FailedAttempt N)) → Option (List (FailedAttempt N))
  and_then (some a) (some as') = some (a ∷ as')
  and_then _ _ = none

  -- `_failed_attempt` of each connection record; `none` is the exception of `_connection_number`.
  unfoldable pub failed_attempts : List (Line N) → Option (List (FailedAttempt N))
  failed_attempts [] = some []
  failed_attempts (l ∷ ls) =
      let rest = failed_attempts ls in
      if connection_record l then and_then (attempt_of l.connection l) rest else rest

  abbrev pub numbers_of : List (FailedAttempt N) → List ℕ
  numbers_of [] = []
  numbers_of (a ∷ as') = a.connection ∷ numbers_of as'

  -- The gap between two media records with these numbers and these attempts between them; subtraction
  -- on ℕ is `max(0, …)`.
  unfoldable pub gap_with :
      List (Line N) → Line N → Line N → ℕ → ℕ → List (FailedAttempt N) → ReconnectGap N
  gap_with bridge previous current p c attempts =
      let unrecorded = (c - p - 1) - count_distinct (numbers_of attempts) in
      record {
        previous_connection = p;
        current_connection = c;
        classification = classify previous.outcome (event_labels bridge) unrecorded;
        previous_tail_seconds = difference previous.ended_at previous.last_retained_media_at;
        local_backoff_seconds = difference current.started_at previous.ended_at;
        resolution_seconds = difference current.resolved_at current.started_at;
        http_setup_seconds = difference current.http_opened_at current.resolved_at;
        initial_media_seconds = difference current.first_media_tag_at current.http_opened_at;
        keyframe_gate_seconds =
            difference current.first_retained_media_at current.first_media_tag_at;
        total_gap_seconds =
            difference current.first_retained_media_at previous.last_retained_media_at;
        intervening_attempts = attempts;
        unrecorded_attempt_count = unrecorded;
        boundary_events = event_labels bridge;
      }

  abbrev pub gap_by :
      List (Line N)
      → Line N
      → Line N
      → Option ℕ
      → Option ℕ
      → Option (List (FailedAttempt N))
      → Option (ReconnectGap N)
  gap_by bridge previous current (some p) (some c) (some attempts) =
      some (gap_with bridge previous current p c attempts)
  gap_by bridge previous current _ _ _ = none

  unfoldable pub gap_between : List (Line N) → Line N → Line N → Option (ReconnectGap N)
  gap_between bridge previous current =
      gap_by bridge previous current previous.connection current.connection (failed_attempts bridge)

  -- `media`: the media records with their indices
  unfoldable pub media_from : ℕ → List (Line N) → List (ℕ × Line N)
  media_from i [] = []
  media_from i (l ∷ ls) =
      let rest = media_from (i + 1) ls in if media_record l then (i, l) ∷ rest else rest

  abbrev pub and_gaps :
      Option (ReconnectGap N) → Option (List (ReconnectGap N)) → Option (List (ReconnectGap N))
  and_gaps (some g) (some gs) = some (g ∷ gs)
  and_gaps _ _ = none

  -- The loop over `zip(media, media[1:])`
  unfoldable pub gaps_of : List (Line N) → List (ℕ × Line N) → Option (List (ReconnectGap N))
  gaps_of records [] = some []
  gaps_of records (m ∷ []) = some []
  gaps_of records (m ∷ n ∷ media) =
      and_gaps (gap_between (take (n.0 - (m.0 + 1)) (drop (m.0 + 1) records)) m.1 n.1)
        (gaps_of records (n ∷ media))

  -- `analyze_records`
  unfoldable pub analyze_records : List (Line N) → Option (List (ReconnectGap N))
  unfolding gaps_of media_from
  analyze_records records = gaps_of records (media_from 0 records)

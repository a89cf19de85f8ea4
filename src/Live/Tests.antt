-- ===== src/Live/Tests.antt =====
-- Captures with a writer that counts, and with the part writer.
use tik_rec.Base.{
  ℕ, zero, suc, ◌+◌, ◌≡◌, ◌↔◌, refl, true, false, none, some, List, [], ◌∷◌, arith, is_some, Result,
  ok, err,
}
use tik_rec.Base.Int.{pos}
use tik_rec.Text.{codes}
use tik_rec.Network.{Failing, offline, timeout, resolution_transient, classify_failure}
use tik_rec.Retry.{reset}
use tik_rec.Live.{
  Limits, limits_valid, Resolution, rebound, check_bound, resolve_bound_live, after_reply, confirm,
  resolve_live_url_confirmed, reply_confirmed,
}
use tik_rec.Live.Confirmed.{AreAccepted, AreOffline, needed, resolve_live_url_confirmed-AreOffline}
use tik_rec.Live.Attempt.{
  PartWriter, AreNumbered, Ending, source_closed, source_raised, LiveCapture, finished, Turn, Step,
  ends, next_failure_counts, source_error, attempt,
}
use tik_rec.Live.Loop.{
  record_of, close_record, failure_of, enter_outage, after_failure, after_close, handle, connect,
  wait_for_turn, turn, turns, initial_capture,
}
use tik_rec.Live.Numbered.{IsLeft, IsAtTurn}
use tik_rec.Live.Turns.{turns-IsCounted}
use tik_rec.Live.Ended.{IsQuiet}
use tik_rec.Live.Finished.{IsProvenEnd, turn-IsProvenEnd}
use tik_rec.Live.Recorder.{recorder}
use tik_rec.Live.Dry.{turns-end}

abbrev count_from : ℕ → ℕ → List ℕ
count_from k zero = []
count_from k (suc n) = k ∷ count_from (suc k) n

count_from-AreNumbered : (k n : ℕ) → AreNumbered k (count_from k n)
count_from-AreNumbered k zero = tt
count_from-AreNumbered k (suc n) = (refl, count_from-AreNumbered (suc k) n)

-- A stream of some parts, and its end
abbrev counting : PartWriter
counting = record {
  Stream = ℕ × Ending;
  write = λ k s. (count_from k s.0, s.1);
  numbered = λ k s. count_from-AreNumbered k s.0;
}

abbrev limits_of : ℕ → Limits
limits_of failures = record {
  max_consecutive_failures = failures;
  max_consecutive_empty_connections = 1;
  backoff_seconds = 1;
  offline_confirmation_checks = 2;
  offline_confirmation_interval = pos 5;
  retry_policy = none;
}

abbrev in_room : Resolution
in_room = record { room_id = some (codes "7"); is_flv = true }

abbrev turn_of : (W : PartWriter) → W.Stream → (ℕ → Result Failing Resolution) → ℕ → Turn W
turn_of W stream replies at = record {
  stopped = false;
  control = record { stopped_before = false; stopped_during = false; extra = 0 };
  waiting_at = at;
  started_at = at;
  stopped_before = false;
  replies = replies;
  stopped_after = false;
  identity = ok tt;
  prepared = ok tt;
  opened = ok tt;
  stream = stream;
  ended_at = at + 5;
  failed_at = at + 5;
}

abbrev all_offline : ℕ → Result Failing Resolution
all_offline k = err offline

-- Two connections with media, and then the room has ended.
abbrev three_turns : List (Turn counting)
three_turns =
    turn_of counting (2, source_closed) (λ k. ok in_room) 10
    ∷ turn_of counting (1, source_raised timeout) (λ k. ok in_room) 20
    ∷ turn_of counting (0, source_closed) all_offline 30
    ∷ []

ends_complete :
    (turns counting (λ t. none) (λ e. false) (limits_of 3) three_turns initial_capture).0
    ≡ some (finished false)
unfolding turns turn wait_for_turn connect handle after_close after_failure enter_outage failure_of
    close_record record_of attempt source_error next_failure_counts resolve_live_url_confirmed
    reply_confirmed confirm after_reply resolve_bound_live check_bound rebound classify_failure
    reset
ends_complete = refl

keeps_parts :
    (turns counting (λ t. none) (λ e. false) (limits_of 3) three_turns initial_capture).1.all_parts
    ≡ 1 ∷ 2 ∷ 3 ∷ []
unfolding turns turn wait_for_turn connect handle after_close after_failure enter_outage failure_of
    close_record record_of attempt source_error next_failure_counts resolve_live_url_confirmed
    reply_confirmed confirm after_reply resolve_bound_live check_bound rebound classify_failure
    reset
keeps_parts = refl

initial_capture-IsAtTurn : IsAtTurn 1 [] initial_capture
initial_capture-IsAtTurn = record {
  counted = record { parts = tt; next = refl; recorded = refl; order = tt };
  connections = refl;
}

turns-IsCounted_example :
    IsLeft 1 [] (turns counting (λ t. none) (λ e. false) (limits_of 3) three_turns initial_capture)
turns-IsCounted_example =
    turns-IsCounted 1 [] counting (λ t. none) (λ e. false) (limits_of 3) three_turns initial_capture
      initial_capture-IsAtTurn

-- The part writer of the repository is such a writer.
recorded :
    (ts : List (Turn recorder))
    → IsLeft 1 [] (turns recorder (λ t. none) (λ e. false) (limits_of 3) ts initial_capture)
recorded ts =
    turns-IsCounted 1 [] recorder (λ t. none) (λ e. false) (limits_of 3) ts initial_capture
      initial_capture-IsAtTurn

resolve_live_url_confirmed-AreOffline_example :
    ((resolve_live_url_confirmed 3 (pos 5) true all_offline).result ≡ err offline)
    ↔ (AreAccepted 3 (pos 5) × AreOffline all_offline 0 (needed true 3))
resolve_live_url_confirmed-AreOffline_example =
    resolve_live_url_confirmed-AreOffline 3 (pos 5) true all_offline

-- A capture with one part, in a room
abbrev with_part : LiveCapture
with_part = record initial_capture {
  all_parts = 1 ∷ [];
  next_part_index = 2;
  session_started = true;
  saved_room_id = some (codes "7");
}

abbrev last_turn : Turn counting
last_turn = turn_of counting (0, source_closed) all_offline 30

last_turn-IsQuiet : IsQuiet counting (λ t. none) (λ e. false) (limits_of 3) last_turn
last_turn-IsQuiet = record { identity = refl; prepared = refl; opened = refl; stream = λ k. refl }

abbrev capture_at : Step → LiveCapture
capture_at (Step.goes c) = c
capture_at (ends e c) = c

last_turn_ends :
    turn counting (λ t. none) (λ e. false) (limits_of 3) last_turn with_part
    ≡ ends
        (finished false)
        (capture_at (turn counting (λ t. none) (λ e. false) (limits_of 3) last_turn with_part))
unfolding turn wait_for_turn connect handle close_record record_of attempt source_error
    resolve_live_url_confirmed reply_confirmed confirm after_reply resolve_bound_live check_bound
    rebound classify_failure reset
last_turn_ends = refl

turn-IsProvenEnd_example :
    IsProvenEnd counting
      (λ t. none)
      (λ e. false)
      (limits_of 3)
      last_turn
      with_part
      (capture_at (turn counting (λ t. none) (λ e. false) (limits_of 3) last_turn with_part))
turn-IsProvenEnd_example =
    turn-IsProvenEnd counting (λ t. none) (λ e. false) (limits_of 3) last_turn with_part
      (capture_at (turn counting (λ t. none) (λ e. false) (limits_of 3) last_turn with_part))
      last_turn-IsQuiet last_turn_ends

-- Two turns whose resolver fails
abbrev dry_turns : List (Turn counting)
dry_turns =
    turn_of counting (0, source_closed) (λ k. err (resolution_transient none none)) 10
    ∷ turn_of counting (0, source_closed) (λ k. err (resolution_transient none none)) 20
    ∷ []

limits_accepted : limits_valid (limits_of 2) ≡ true
unfolding limits_valid
limits_accepted = refl

turns-end_example :
    is_some (turns counting (λ t. none) (λ e. false) (limits_of 2) dry_turns initial_capture).0
    ≡ true
turns-end_example =
    turns-end counting (λ t. none) (λ e. false) (limits_of 2) dry_turns limits_accepted refl
      (λ k. refl, (λ k. refl, tt)) (omega arith)

-- ===== src/Admission/Tests.antt =====
-- Runs of the admission (tikrec/admission.py, tikrec/storage_status.py).
use tik_rec.Base.{ℕ, ◌*◌, ◌≡◌, refl, true, none, some, List, [], ◌∷◌, ◌++◌, All}
use tik_rec.Text.{codes}
use tik_rec.Automation.{Observation, live, offline}
use tik_rec.Automation.Cycle.{Admitted, ready, not_applicable, blocked, ResultState}
use tik_rec.Automation.Candidates.{seen_of}
use tik_rec.Admission.{
  gib, StorageStatus, make_storage_status, storage_state_of, storage_snapshot, candidate, Sources,
  RecordingAdmission, slot_available, settle_allocation, admit_at, admit_live, admission,
  admit_each, evaluate_with, evaluate,
}
use tik_rec.Admission.Ready.{IsSound, evaluate-IsSound}

-- The state is the number of free bytes.
abbrev disk : Sources
disk = record {
  State = ℕ;
  Moment = Unit {0};
  available = λ s. some true;
  free = λ s. some s;
  clock = λ s. some tt;
  allocate = λ s directory creator moment.
      candidate (directory ++ (creator ++ codes ".mp4")) (directory ++ (creator ++ codes ".parts"));
}

abbrev ten_gib : StorageStatus
ten_gib = record { minimum_free_bytes = 10 * gib; warning_free_bytes = 20 * gib }

made : make_storage_status 10 ≡ some ten_gib
unfolding make_storage_status
made = refl

refused : make_storage_status 1025 ≡ none
unfolding make_storage_status
refused = refl

abbrev admitting : RecordingAdmission
admitting = record { output_directory = some (codes "/out/"); storage_status = ten_gib }

abbrev two_seen : List Observation
two_seen =
    record { creator = codes "ann"; state = live; room_id = some (codes "42") }
    ∷ record { creator = codes "bee"; state = offline; room_id = none }
    ∷ []

abbrev states_of : List Admitted → List ResultState
states_of [] = []
states_of (x ∷ xs) = x.admission.state ∷ states_of xs

with_room : states_of (evaluate disk admitting (11 * gib) two_seen) ≡ ready ∷ not_applicable ∷ []
unfolding storage_state_of storage_snapshot slot_available settle_allocation admit_at admit_live
    admission admit_each evaluate_with evaluate
with_room = refl

without_room :
    states_of (evaluate disk admitting (9 * gib) two_seen) ≡ blocked ∷ not_applicable ∷ []
unfolding storage_state_of storage_snapshot slot_available settle_allocation admit_at admit_live
    admission admit_each evaluate_with evaluate
without_room = refl

evaluate-IsSound_example :
    (seen_of (evaluate disk admitting (11 * gib) two_seen) ≡ two_seen)
    × All
        (IsSound disk admitting (11 * gib) (slot_available (some true)) (some (11 * gib)))
        (evaluate disk admitting (11 * gib) two_seen)
evaluate-IsSound_example = evaluate-IsSound disk admitting (11 * gib) two_seen

-- ===== src/Unattended.antt =====
-- The monitor, the admission and the coordinator together, as tikrec/service.py joins them: the
-- coordinator is called with each snapshot of the monitor, and asks the admission.
pub mod Joined
mod Tests
use tik_rec.Base.{ℕ, Option, none, some, List, [], ◌∷◌}
use tik_rec.Text.{Text}
use tik_rec.Automation.{PathRules, Job, Observation}
use tik_rec.Automation.Cycle.{Request, StartReply, Services, World}
use tik_rec.Automation.Fill.{cycle_completed}
use tik_rec.Admission.{Sources, RecordingAdmission, evaluate}
use tik_rec.Monitor.{Sighting, Snapshot}

-- What the coordinator reads of an entry of a snapshot
abbrev pub observation_of : Sighting → Observation
observation_of o = record { creator = o.creator; state = o.state; room_id = o.room_id }

abbrev pub seen_in : List Sighting → List Observation
seen_in [] = []
seen_in (o ∷ os) = observation_of o ∷ seen_in os

module _ (sources : Sources) (a : RecordingAdmission) (jobs : sources.State → Option (List Job))
    (fingerprint : Option (sources.State → Option (Option Text)))
    (start : Request → sources.State → StartReply × sources.State) where
  -- A controller, with the admission of the program
  abbrev pub admitting : Services
  admitting = record {
    State = sources.State;
    jobs = jobs;
    fingerprint = fingerprint;
    start = start;
    evaluate = λ s os. evaluate sources a s os;
  }

  module _ (rules : PathRules) (raw_copy_creators : List Text) where
    -- One snapshot; one that could not be copied raises before the coordinator is called.
    abbrev pub receive : ℕ → Option (List Sighting) → World sources.State → World sources.State
    receive n none w = w
    receive n (some entries) w =
        cycle_completed rules admitting raw_copy_creators n (seen_in entries) w

    -- The snapshots in their order
    unfoldable pub receive_all : List Snapshot → World sources.State → World sources.State
    receive_all [] w = w
    receive_all (s ∷ ss) w = receive_all ss (receive s.cycle_count s.creators w)

-- ===== src/Unattended/Tests.antt =====
-- One cycle of the joined program.
use tik_rec.Base.{
  ℕ, ◌+◌, ◌*◌, ◌≡◌, refl, subst, true, false, Option, none, some, some_eq, List, [], ◌∷◌, ◌++◌, All,
  ltb,
}
use tik_rec.Text.{text_eq, codes}
use tik_rec.Identity.{canonical_room_id, strip_zeros, validate_creator_handle}
use tik_rec.Automation.{PathRules, Job, idle, page_of}
use tik_rec.Automation.Cycle.{Request, StartReply, accepted, Services, World}
use tik_rec.Automation.Fill.{restart}
use tik_rec.Automation.Ahead.{IsClaimed}
use tik_rec.Automation.Candidates.{IsCanonical}
use tik_rec.Automation.History.{Reachable}
use tik_rec.Admission.{gib, candidate, Sources, RecordingAdmission}
use tik_rec.Monitor.{
  resolved, Surroundings, validate_monitored_creators, pending_observations, observations_of,
  Monitor, make_monitor, snapshot, sighting_of, adopt, reload_creators, observe, observe_each,
  end_cycle, observe_cycle, poll_cycle, run_cycles, run,
}
use tik_rec.Unattended.{seen_in, admitting, receive_all}
use tik_rec.Unattended.Joined.{HasRooms, receive_all-IsClaimed}

abbrev disk : Sources
disk = record {
  State = ℕ;
  Moment = Unit {0};
  available = λ s. some true;
  free = λ s. some s;
  clock = λ s. some tt;
  allocate = λ s directory creator moment.
      candidate (directory ++ (creator ++ codes ".mp4")) (directory ++ (creator ++ codes ".parts"));
}

abbrev joined_admission : RecordingAdmission
joined_admission = record {
  output_directory = some (codes "/out/");
  storage_status = record { minimum_free_bytes = 10 * gib; warning_free_bytes = 20 * gib };
}

abbrev idle_job : Job
idle_job = record {
  phase = idle;
  active = false;
  session_id = none;
  source_url = none;
  output_path = none;
  parts_directory = none;
  room_id = none;
}

abbrev jobs : ℕ → Option (List Job)
jobs s = some (idle_job ∷ [])

abbrev start : Request → ℕ → StartReply × ℕ
start q s = (accepted (record { session_id = none; slot_id = none }), s)

abbrev unix : PathRules
unix = record {
  is_absolute = λ p. true;
  parts_of_mp4 = λ p. some (codes "/out/ann.parts");
  same_path = text_eq;
}

abbrev first_world : World ℕ
first_world = record {
  stopping = false;
  operational = true;
  blocked_reason = none;
  state = record { consumed_rooms = []; pending_claim = none };
  latest_cycle_count = 0;
  selected_creators = [];
  started_recordings = [];
  cycle_results = [];
  services = 11 * gib;
  durable = record { consumed_rooms = []; pending_claim = none };
  schedule = [];
  calls = [];
}

abbrev joined : Services
joined = admitting disk joined_admission jobs none start

abbrev begun : World ℕ
begun = restart unix joined [] (some first_world.durable) [] first_world

begun-Reachable : Reachable unix joined [] begun
begun-Reachable = Reachable.created true [] first_world tt refl

abbrev around_ann : Surroundings
around_ann = record {
  State = ℕ;
  stopped = λ s. ltb 4 s;
  resolve = λ page s. (resolved (some (codes "42")), s + 1);
  clock = λ s. (s, s);
  load_creators = none;
}

abbrev ann_monitor : Monitor ℕ
ann_monitor = record {
  creators = codes "ann" ∷ [];
  observations = pending_observations (codes "ann" ∷ []);
  configuration_unavailable = false;
  running = false;
  cycle_in_progress = false;
  cycle_count = 0;
  last_cycle_started_at = none;
  last_cycle_completed_at = none;
  surroundings = 0;
  delivered = [];
}

made : make_monitor (codes "ann" ∷ []) 0 ≡ some ann_monitor
unfolding validate_creator_handle validate_monitored_creators pending_observations make_monitor
made = refl

canonical_42 : canonical_room_id (codes "42") ≡ some (codes "42")
unfolding canonical_room_id strip_zeros
canonical_42 = refl

ann_rooms : All HasRooms (run around_ann (false ∷ []) ann_monitor).delivered
unfolding page_of pending_observations observations_of snapshot sighting_of adopt reload_creators
    observe observe_each end_cycle observe_cycle poll_cycle run_cycles run
ann_rooms = (
  λ entries e.
      subst (λ os. All IsCanonical (seen_in os)) (some_eq e)
        ((λ r p. subst (λ x. canonical_room_id x ≡ some x) (some_eq p) canonical_42), tt),
  tt,
)

receive_all-IsClaimed_example :
    All
      (IsClaimed unix)
      (receive_all disk joined_admission jobs none start unix []
        (run around_ann (false ∷ []) ann_monitor).delivered
        begun).calls
receive_all-IsClaimed_example =
    receive_all-IsClaimed disk joined_admission jobs none start unix [] around_ann
      (codes "ann" ∷ []) 0 ann_monitor (false ∷ []) begun made ann_rooms begun-Reachable

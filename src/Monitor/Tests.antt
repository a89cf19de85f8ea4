-- ===== src/Monitor/Tests.antt =====
-- Runs of the monitor (tikrec/monitoring.py).
use tik_rec.Base.{ℕ, ◌+◌, ◌≡◌, refl, Bool, true, false, none, some, [], ◌∷◌, All, length, ltb}
use tik_rec.Text.{codes, text_eq}
use tik_rec.Identity.{validate_creator_handle}
use tik_rec.Automation.{page_of}
use tik_rec.Monitor.{
  Resolution, resolved, is_offline, Surroundings, validate_monitored_creators, pending_observations,
  observations_of, Monitor, make_monitor, snapshot, sighting_of, adopt, reload_creators, observe,
  observe_each, end_cycle, observe_cycle, poll_cycle, run_cycles, run,
}
use tik_rec.Monitor.Entries.{IsComplete}
use tik_rec.Monitor.Named.{IsConfigured, run-IsComplete}

-- The state counts the calls of the resolver; the sixth call is never made, since a stop comes before it.
abbrev answers_of : Bool → Resolution
answers_of true = resolved (some (codes "42"))
answers_of false = is_offline

abbrev around_ann : Surroundings
around_ann = record {
  State = ℕ;
  stopped = λ s. ltb 4 s;
  resolve = λ page s. (answers_of (text_eq page (codes "https://www.tiktok.com/@ann/live")), s + 1);
  clock = λ s. (s, s);
  load_creators = none;
}

abbrev first_monitor : Monitor ℕ
first_monitor = record {
  creators = codes "ann" ∷ codes "bee" ∷ [];
  observations = pending_observations (codes "ann" ∷ codes "bee" ∷ []);
  configuration_unavailable = false;
  running = false;
  cycle_in_progress = false;
  cycle_count = 0;
  last_cycle_started_at = none;
  last_cycle_completed_at = none;
  surroundings = 0;
  delivered = [];
}

made : make_monitor (codes "ann" ∷ codes "bee" ∷ []) 0 ≡ some first_monitor
unfolding validate_creator_handle validate_monitored_creators pending_observations make_monitor
made = refl

twice_named : make_monitor {S = ℕ} (codes "ann" ∷ codes "ann" ∷ []) 0 ≡ none
unfolding validate_creator_handle validate_monitored_creators pending_observations make_monitor
twice_named = refl

abbrev after_run : Monitor ℕ
after_run = run around_ann (false ∷ false ∷ false ∷ []) first_monitor

-- Two cycles are complete; the third is stopped behind its first creator.
two_cycles : (after_run.cycle_count ≡ 2) × (length after_run.delivered ≡ 2)
unfolding page_of pending_observations observations_of snapshot sighting_of adopt reload_creators
    observe observe_each end_cycle observe_cycle poll_cycle run_cycles run
two_cycles = (refl, refl)

run-IsComplete_example :
    All (IsComplete (IsConfigured around_ann (codes "ann" ∷ codes "bee" ∷ []))) after_run.delivered
    × IsComplete
        (λ cs.
          (cs ≡ after_run.creators) × IsConfigured around_ann (codes "ann" ∷ codes "bee" ∷ []) cs)
        (snapshot after_run)
run-IsComplete_example =
    run-IsComplete around_ann (codes "ann" ∷ codes "bee" ∷ []) 0 first_monitor
      (false ∷ false ∷ false ∷ []) made

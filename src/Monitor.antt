-- ===== src/Monitor.antt =====
-- The monitor of creators: tikrec/monitoring.py. The resolver, the clock, the stop event and the loader
-- of the configuration are arguments, whose state each call may change.
pub mod Entries
pub mod Named
mod Tests
use tik_rec.Base.{
  ℕ, ◌+◌, Bool, true, false, not, ◌&&◌, ◌||◌, Option, none, some, List, [], ◌∷◌, ◌++◌,
  if◌then◌else◌, is_nil,
}
use tik_rec.Text.{Text, text_eq, TextDict, get, put, text_in}
use tik_rec.Identity.{validate_creator_handle}
use tik_rec.Automation.{page_of, Liveness, live, offline, unknown, pending}

pub data UnknownReason : Type 0 where
  transient unverifiable unexpected : UnknownReason

-- `_observation`
pub record Sighting : Type 0 where
  pub creator : Text
  pub state : Liveness
  pub observed_at : Option ℕ
  pub room_id : Option Text
  pub unknown_reason : Option UnknownReason

-- What a call of the resolver ends in: a resolution with a room or without, a value of another type, or
-- an exception of one of four kinds.
pub data Resolution : Type 0 where
  resolved : Option Text → Resolution
  not_a_resolution is_offline resolution_transient resolution_failed other_exception : Resolution

-- What the monitor calls; a loader that raises returns `none`.
pub record Surroundings : Type 1 where
  pub State : Type 0
  pub stopped : State → Bool
  pub resolve : Text → State → Resolution × State
  pub clock : State → ℕ × State
  pub load_creators : Option (State → Option (List Text) × State)

abbrev pub all_handles : List Text → Bool
all_handles [] = true
all_handles (c ∷ cs) = validate_creator_handle c && all_handles cs

abbrev pub no_repeats : List Text → Bool
no_repeats [] = true
no_repeats (c ∷ cs) = not (text_in c cs) && no_repeats cs

-- `validate_monitored_creators`; `none` is the exception.
unfoldable pub validate_monitored_creators : List Text → Option (List Text)
validate_monitored_creators creators =
    if all_handles creators && no_repeats creators then some creators else none

abbrev pub validated : Option (List Text) → Option (List Text)
validated none = none
validated (some creators) = validate_monitored_creators creators

abbrev pub pending_sighting : Text → Sighting
pending_sighting c = record {
  creator = c;
  state = pending;
  observed_at = none;
  room_id = none;
  unknown_reason = none;
}

-- `{creator: _observation(creator, "pending") for creator in creators}`
unfoldable pub pending_observations : List Text → TextDict Sighting
pending_observations [] = []
pending_observations (c ∷ cs) = (c, pending_sighting c) ∷ pending_observations cs

abbrev pub and_rest : Option Sighting → Option (List Sighting) → Option (List Sighting)
and_rest (some o) (some os) = some (o ∷ os)
and_rest _ _ = none

-- What `snapshot` copies of the configured creators; a missing one is a KeyError, `none`.
unfoldable pub observations_of : List Text → TextDict Sighting → Option (List Sighting)
observations_of [] observations = some []
observations_of (c ∷ cs) observations =
    and_rest (get observations c) (observations_of cs observations)

pub record Snapshot : Type 0 where
  pub cycle_count : ℕ
  pub configuration_unavailable : Bool
  pub creators : Option (List Sighting)

-- `CreatorMonitor`, with the state of what it calls and the snapshots given to `cycle_completed`
pub record Monitor (S : Type 0) : Type 0 where
  pub creators : List Text
  pub observations : TextDict Sighting
  pub configuration_unavailable : Bool
  pub running : Bool
  pub cycle_in_progress : Bool
  pub cycle_count : ℕ
  pub last_cycle_started_at : Option ℕ
  pub last_cycle_completed_at : Option ℕ
  pub surroundings : S
  pub delivered : List Snapshot

-- `__init__`; `none` is the exception.
unfoldable pub make_monitor : {S : Type 0} → List Text → S → Option (Monitor S)
unfolding pending_observations
make_monitor creators s = elim (validate_monitored_creators creators) [
  | none ↦ none
  | some cs ↦ some (record {
    creators = cs;
    observations = pending_observations cs;
    configuration_unavailable = false;
    running = false;
    cycle_in_progress = false;
    cycle_count = 0;
    last_cycle_started_at = none;
    last_cycle_completed_at = none;
    surroundings = s;
    delivered = [];
  })
]

-- `snapshot`
unfoldable pub snapshot : {S : Type 0} → Monitor S → Snapshot
snapshot m = record {
  cycle_count = m.cycle_count;
  configuration_unavailable = m.configuration_unavailable;
  creators = observations_of m.creators m.observations;
}

-- `_observe`, by the answer of the resolver
unfoldable pub sighting_of : Text → ℕ → Resolution → Sighting
sighting_of creator at (resolved room) = record {
  creator = creator;
  state = live;
  observed_at = some at;
  room_id = room;
  unknown_reason = none;
}
sighting_of creator at is_offline = record {
  creator = creator;
  state = offline;
  observed_at = some at;
  room_id = none;
  unknown_reason = none;
}
sighting_of creator at resolution_transient = record {
  creator = creator;
  state = unknown;
  observed_at = some at;
  room_id = none;
  unknown_reason = some transient;
}
sighting_of creator at other_exception = record {
  creator = creator;
  state = unknown;
  observed_at = some at;
  room_id = none;
  unknown_reason = some unexpected;
}
sighting_of creator at _ = record {
  creator = creator;
  state = unknown;
  observed_at = some at;
  room_id = none;
  unknown_reason = some unverifiable;
}

abbrev pub same_creators : List Text → List Text → Bool
same_creators [] [] = true
same_creators (a ∷ as') (b ∷ bs) = text_eq a b && same_creators as' bs
same_creators _ _ = false

module _ (around : Surroundings) where
  open around use {State, stopped, resolve, clock, load_creators}

  -- `_reload_creators` behind the loader
  unfoldable pub adopt : Option (List Text) → Monitor State → Monitor State
  adopt none m = record m { configuration_unavailable = true }
  adopt (some creators) m =
      if stopped m.surroundings
      then m
      else (if same_creators creators m.creators
          then record m { configuration_unavailable = false }
          else record m {
            creators = creators;
            observations = pending_observations creators;
            configuration_unavailable = false;
          })

  -- `_reload_creators`
  unfoldable pub reload_creators : Monitor State → Monitor State
  unfolding adopt
  reload_creators m = elim load_creators [
    | none ↦ m
    | some load ↦
        let (loaded, s) = load m.surroundings in
        adopt (validated loaded) (record m { surroundings = s })
  ]

  -- `_observe`, and the entry of what it saw
  unfoldable pub observe : Text → Monitor State → Monitor State
  unfolding sighting_of
  observe creator m =
      let (resolution, s) = resolve (page_of creator) m.surroundings in
      let (now, t) = clock s in
      record m {
        observations = put m.observations creator (sighting_of creator now resolution);
        surroundings = t;
      }

  -- The loop of `_observe_cycle`: whether it is complete
  unfoldable pub observe_each : List Text → Monitor State → Bool × Monitor State
  observe_each [] m = (true, m)
  observe_each (c ∷ cs) m =
      let rest = observe_each cs (observe c m) in
      if stopped m.surroundings then (false, m) else rest

  -- The end of `_observe_cycle`
  unfoldable pub end_cycle : Bool → Monitor State → Monitor State
  unfolding snapshot
  end_cycle looped m =
      let complete = looped && not (stopped m.surroundings) in
      let (now, s) = clock m.surroundings in
      let ended : Monitor State =
        if complete
        then record m {
          last_cycle_completed_at = some now;
          cycle_count = m.cycle_count + 1;
          cycle_in_progress = false;
          surroundings = s;
        }
        else record m { cycle_in_progress = false; surroundings = s } in
      if complete && not (stopped s)
      then record ended { delivered = ended.delivered ++ snapshot ended ∷ [] }
      else ended

  -- `_observe_cycle`
  unfoldable pub observe_cycle : Monitor State → Monitor State
  unfolding end_cycle
  observe_cycle m =
      let (now, s) = clock m.surroundings in
      let (looped, v) = observe_each m.creators (record m {
        cycle_in_progress = true;
        last_cycle_started_at = some now;
        surroundings = s;
      }) in
      end_cycle looped v

  -- `_poll_cycle`
  unfoldable pub poll_cycle : Monitor State → Monitor State
  unfolding observe_cycle
  poll_cycle m =
      if stopped m.surroundings
      then m
      else (let v = reload_creators m in if stopped v.surroundings then v else observe_cycle v)

  -- The loop of `_run`, by the answers that the waiter has given: `true` ends the loop.
  unfoldable pub run_cycles : List Bool → Monitor State → Monitor State
  run_cycles [] m = m
  run_cycles (ending ∷ answers) m =
      let v = poll_cycle m in
      let rest = run_cycles answers v in
      if stopped m.surroundings then m else (if ending then v else rest)

  -- `_run`, whose end is reached in any case
  unfoldable pub run : List Bool → Monitor State → Monitor State
  unfolding run_cycles
  run answers m =
      let v = run_cycles answers m in record v { running = false; cycle_in_progress = false }

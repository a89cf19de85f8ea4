-- ===== src/Admission.antt =====
-- The admission of unattended recordings and the state of the storage: tikrec/admission.py,
-- tikrec/storage_status.py. Health, disk, clock and allocator are arguments.
pub mod Ready
mod Tests
use tik_rec.Base.{
  ℕ, ◌+◌, ◌*◌, ◌^◌, max, Bool, true, false, not, ◌&&◌, ◌||◌, Option, none, some, List, [], ◌∷◌, ltb,
  leb, if◌then◌else◌, is_some, Result, ok, err, raise_if,
}
use tik_rec.Text.{Text}
use tik_rec.Automation.{Observation, Liveness, live, offline, unknown, pending}
use tik_rec.Automation.Cycle.{
  ResultState, not_applicable, skipped, blocked, ready, Reason, recording_slot_unavailable,
  output_directory_unconfigured, storage_unavailable, low_free_space, output_name_unavailable,
  Admission, Admitted,
}
use tik_rec.Automation.Fill.{is_live}

abbrev pub gib : ℕ
gib = 1024 ^ 3

-- `StorageStatus`, without its directory
pub record StorageStatus : Type 0 where
  pub minimum_free_bytes : ℕ
  pub warning_free_bytes : ℕ

-- `StorageStatus.__init__`; `none` is the exception.
unfoldable pub make_storage_status : ℕ → Option StorageStatus
make_storage_status minimum_free_space_gib =
    if leb 1 minimum_free_space_gib && leb minimum_free_space_gib 1024
    then some (record {
      minimum_free_bytes = minimum_free_space_gib * gib;
      warning_free_bytes = max (20 * gib) (2 * (minimum_free_space_gib * gib));
    })
    else none

pub data StorageState : Type 0 where
  unconfigured unavailable too_full warning ample : StorageState

pub record StorageSnapshot : Type 0 where
  pub state : StorageState
  pub free_bytes : Option ℕ

abbrev pub storage : StorageState → Option ℕ → StorageSnapshot
storage state free = record { state = state; free_bytes = free }

unfoldable pub storage_state_of : StorageStatus → ℕ → StorageState
storage_state_of status free =
    if ltb free status.minimum_free_bytes
    then too_full
    else if ltb free status.warning_free_bytes
    then warning
    else ample

-- `StorageStatus.snapshot`, by the directory and the answer of the disk: `none` is an exception or a
-- value that is no size.
unfoldable pub storage_snapshot : StorageStatus → Option Text → Option ℕ → StorageSnapshot
unfolding storage_state_of
storage_snapshot status none free = storage unconfigured none
storage_snapshot status (some directory) none = storage unavailable none
storage_snapshot status (some directory) (some free) =
    storage (storage_state_of status free) (some free)

-- The allocator returns two paths, or raises.
pub data Allocation : Type 0 where
  candidate : Text → Text → Allocation
  name_unavailable failed : Allocation

-- What an evaluation reads, at a state of the world; `none` is an exception or an answer of a wrong type.
pub record Sources : Type 1 where
  pub State : Type 0
  pub Moment : Type 0
  pub available : State → Option Bool
  pub free : State → Option ℕ
  pub clock : State → Option Moment
  pub allocate : State → Text → Text → Moment → Allocation

-- `RecordingAdmission`
pub record RecordingAdmission : Type 0 where
  pub output_directory : Option Text
  pub storage_status : StorageStatus

-- `_result` of a decision without paths
abbrev pub decision : ResultState → Option Reason → Option ℕ → Admission
decision state reason free = record {
  state = state;
  reason = reason;
  free_bytes = free;
  output_path = none;
  parts_directory = none;
}

unfoldable pub slot_available : Option Bool → Bool
slot_available none = false
slot_available (some available) = available

-- The end of `_admission`, by the reply of the allocator
unfoldable pub settle_allocation : ℕ → Allocation → Admission
settle_allocation free (candidate output parts) = record {
  state = ready;
  reason = none;
  free_bytes = some free;
  output_path = some output;
  parts_directory = some parts;
}
settle_allocation free name_unavailable =
    decision blocked (some output_name_unavailable) (some free)
settle_allocation free failed = decision blocked (some storage_unavailable) (some free)

-- `storage["state"] in {"ok", "warning", "blocked"}`
abbrev pub has_free_bytes : StorageState → Bool
has_free_bytes unconfigured = false
has_free_bytes unavailable = false
has_free_bytes _ = true

module _ (sources : Sources) (a : RecordingAdmission) where
  open sources use {State, Moment, available, free, clock, allocate}

  unfoldable pub admit_at : State → Text → Text → ℕ → Option Moment → Admission
  unfolding settle_allocation
  admit_at s creator directory bytes none = decision blocked (some storage_unavailable) (some bytes)
  admit_at s creator directory bytes (some moment) =
      settle_allocation bytes (allocate s directory creator moment)

  -- `_admission` of a LIVE creator
  unfoldable pub admit_live :
      State → Text → Bool → Option Text → Bool → Option ℕ → Option Moment → Admission
  admit_live s creator false directory has_storage bytes moment =
      decision skipped (some recording_slot_unavailable) none
  admit_live s creator true none has_storage bytes moment =
      decision blocked (some output_directory_unconfigured) none
  admit_live s creator true (some directory) false bytes moment =
      decision blocked (some storage_unavailable) none
  admit_live s creator true (some directory) true none moment =
      decision blocked (some storage_unavailable) none
  admit_live s creator true (some directory) true (some bytes) moment =
      if ltb bytes a.storage_status.minimum_free_bytes
      then decision blocked (some low_free_space) (some bytes)
      else admit_at s creator directory bytes moment

  -- `_admission`
  unfoldable pub admission :
      State → Observation → Bool → Bool → Option ℕ → Option Moment → Admission
  admission s o slot has_storage bytes moment =
      if not (is_live o.state)
      then decision not_applicable none none
      else admit_live s o.creator slot a.output_directory has_storage bytes moment

  abbrev pub any_live : List Observation → Bool
  any_live [] = false
  any_live (o ∷ os) = is_live o.state || any_live os

  unfoldable pub admit_each :
      State → List Observation → Bool → Bool → Option ℕ → Option Moment → List Admitted
  admit_each s [] slot has_storage bytes moment = []
  admit_each s (o ∷ os) slot has_storage bytes moment =
      record { seen = o; admission = admission s o slot has_storage bytes moment }
      ∷ admit_each s os slot has_storage bytes moment

  -- `free_bytes is not None and free_bytes >= minimum`
  abbrev pub has_room : Option ℕ → Bool
  has_room none = false
  has_room (some bytes) = leb a.storage_status.minimum_free_bytes bytes

  -- `evaluate` behind the look at the storage, which is `none` where it is not looked at
  unfoldable pub evaluate_with :
      State → List Observation → Bool → Option StorageSnapshot → List Admitted
  unfolding admit_each
  evaluate_with s os slot none = admit_each s os slot false none none
  evaluate_with s os slot (some x) =
      admit_each s os slot (has_free_bytes x.state) x.free_bytes
        (if has_free_bytes x.state && has_room x.free_bytes then clock s else none)

  -- `evaluate`
  unfoldable pub evaluate : State → List Observation → List Admitted
  unfolding evaluate_with storage_snapshot slot_available
  evaluate s os =
      let slot = if any_live os then slot_available (available s) else false in
      evaluate_with s os slot (
        if any_live os && slot
        then some (storage_snapshot a.storage_status a.output_directory (free s))
        else none)

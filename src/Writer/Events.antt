-- ===== src/Writer/Events.antt =====
-- tikrec/writer_events.py, and the state of one pending part (`_OpenPart` of tikrec/writer.py).
-- A path is the index of its part, and the calls of the callbacks are the events of a trace.
use tik_rec.Base.{
  ℕ, ◌+◌, ◌-◌, Bool, true, Option, none, some, List, [], ◌∷◌, ◌++◌, String, ltb, leb, if◌then◌else◌,
}
use tik_rec.Base.Dict.{Dict, get, put, pop}
use tik_rec.Flv.{FlvTag}

pub record TimestampReplay : Type 0 where
  pub path : ℕ
  pub position : ℕ
  pub previous_timestamp : ℕ
  pub timestamp : ℕ
  pub magnitude : ℕ
  pub replayed_tag_count : ℕ
  pub recovered : Bool

pub record PartTiming : Type 0 where
  pub path : ℕ
  pub configuration_timestamp : ℕ
  pub first_media_timestamp : ℕ
  pub first_keyframe_timestamp : ℕ
  pub last_tag_timestamp : ℕ
  pub timestamp_replays : List TimestampReplay
  pub width : Option ℕ
  pub height : Option ℕ
  pub nominal_frame_rate : Option String
  pub nominal_frame_rate_source : Option String

-- `_PendingTimestampReplay`
pub record PendingReplay : Type 0 where
  pub position : ℕ
  pub previous_timestamp : ℕ
  pub timestamp : ℕ
  pub replayed_tag_count : ℕ

pub record OpenPart : Type 0 where
  pub final_path : ℕ
  pub handle : List ℕ
  pub configuration_tag : FlvTag
  pub configuration_timestamp : ℕ
  pub first_media_timestamp : Option ℕ
  pub first_keyframe_timestamp : Option ℕ
  pub last_tag_timestamp : Option ℕ
  pub base_timestamp : ℕ
  pub started : Bool
  pub media_tag_count : ℕ
  pub tag_position : ℕ
  pub last_observed_timestamps : Dict ℕ
  pub pending_replays : Dict PendingReplay
  pub timestamp_replays : List TimestampReplay
  pub closed : Bool
  pub metadata_rate : Option String

pub data Event : Type 0 where
  part_started part_retained : ℕ → Event
  progress : ℕ → ℕ → Event
  part_closed : PartTiming → Event
  timestamp_replay : TimestampReplay → Event
  media_retained : Event

unfoldable pub completed : ℕ → PendingReplay → Bool → TimestampReplay
completed path r recovered = record {
  path = path;
  position = r.position;
  previous_timestamp = r.previous_timestamp;
  timestamp = r.timestamp;
  magnitude = r.previous_timestamp - r.timestamp;
  replayed_tag_count = r.replayed_tag_count;
  recovered = recovered;
}

-- `_finish_timestamp_replay` for the entry that `pop` found.
unfoldable pub finish_found : ℕ → Bool → Option PendingReplay → OpenPart → OpenPart × List Event
unfolding completed
finish_found stream recovered none p = (p, [])
finish_found stream recovered (some r) p =
    let event = completed p.final_path r recovered in
    (
      record p {
        pending_replays = pop p.pending_replays stream;
        timestamp_replays = p.timestamp_replays ++ event ∷ [];
      },
      timestamp_replay event ∷ [],
    )

unfoldable pub finish_timestamp_replay : ℕ → Bool → OpenPart → OpenPart × List Event
unfolding finish_found
finish_timestamp_replay stream recovered p =
    finish_found stream recovered (get p.pending_replays stream) p

-- The end of `_observe_timestamp`, with no replay pending for the stream.
unfoldable pub observe_forward : FlvTag → Option ℕ → OpenPart → OpenPart
observe_forward tag none p = record p {
  last_observed_timestamps = put p.last_observed_timestamps tag.tag_type tag.timestamp;
}
observe_forward tag (some previous) p =
    if ltb tag.timestamp previous
    then record p {
      pending_replays = put p.pending_replays tag.tag_type (record {
        position = p.tag_position;
        previous_timestamp = previous;
        timestamp = tag.timestamp;
        replayed_tag_count = 1;
      });
    }
    else record p {
      last_observed_timestamps = put p.last_observed_timestamps tag.tag_type tag.timestamp;
    }

unfoldable pub observe_pending : FlvTag → Option PendingReplay → OpenPart → OpenPart × List Event
unfolding finish_timestamp_replay observe_forward
observe_pending tag none p =
    (observe_forward tag (get p.last_observed_timestamps tag.tag_type) p, [])
observe_pending tag (some r) p =
    if leb tag.timestamp r.previous_timestamp
    then (
      record p {
        pending_replays =
            put p.pending_replays tag.tag_type
              (record r { replayed_tag_count = r.replayed_tag_count + 1 });
      },
      [],
    )
    else (let (p', events) = finish_timestamp_replay tag.tag_type true p in
        (observe_forward tag (get p'.last_observed_timestamps tag.tag_type) p', events))

-- `_observe_timestamp`
unfoldable pub observe_timestamp : FlvTag → OpenPart → OpenPart × List Event
unfolding observe_pending
observe_timestamp tag p = observe_pending tag (get p.pending_replays tag.tag_type) p

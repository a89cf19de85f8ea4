-- ===== src/Writer.antt =====
-- tikrec/writer.py: an iterable of tags into numbered parts. The file system answers by the index
-- of a part; the metadata and codec readers are functions of the bytes.
pub mod Events
pub mod Run
pub mod Content
pub mod Stage
pub mod Gate
pub mod Closing
pub mod Parts
pub mod Recordings
mod Tests
use tik_rec.Base.{
  ℕ, zero, suc, ◌+◌, ◌-◌, ◌/◌, Bool, true, false, not, ◌&&◌, ◌||◌, Option, none, some, List, [],
  ◌∷◌, ◌++◌, String, map, length, drop, ltb, leb, ◌==◌, if◌then◌else◌, is_some, is_nil, Result, ok,
  err,
}
use tik_rec.Base.Dict.{Dict, get, put, pop}
use tik_rec.Flv.{
  FlvTag, flv_audio_tag, flv_video_tag, is_configuration, is_media, is_avc_configuration, encoded,
}
use tik_rec.Flv.Reader.{FlvError}
use Events.{
  TimestampReplay, PartTiming, PendingReplay, OpenPart, Event, part_started, part_retained,
  progress, part_closed, timestamp_replay, media_retained, finish_timestamp_replay,
  observe_timestamp,
}

pub data WriterError : Type 0 where
  file_exists bad_index too_large missing_fact source_failed : WriterError

-- `avc_configuration_facts`
pub record Facts : Type 0 where
  pub width : Option ℕ
  pub height : Option ℕ
  pub rate : Option String

pub record Environment : Type 0 where
  -- a final path, a link or a partial file of this index is there when the part is opened
  pub taken_at_open : ℕ → Bool
  -- a final path or a link of this index is there when the part is closed
  pub taken_at_close : ℕ → Bool
  pub metadata_frame_rate : List ℕ → Option String
  pub avc_configuration_facts : List ℕ → Facts

-- `_FLV_HEADER`
abbrev pub flv_header : List ℕ
flv_header = 0x46 ∷ 0x4c ∷ 0x56 ∷ 1 ∷ 5 ∷ 0 ∷ 0 ∷ 0 ∷ 9 ∷ 0 ∷ 0 ∷ 0 ∷ 0 ∷ []

-- What a call on a part did: its result, the part after it, and the callbacks it made.
abbrev pub Wrote : Type 0
Wrote = Result WriterError (Unit {0}) × OpenPart × List Event

abbrev pub done : OpenPart → List Event → Wrote
done p events = (ok tt, p, events)

-- One call after another; an exception ends the row.
abbrev pub then_write : Wrote → (OpenPart → Wrote) → Wrote
then_write (ok _, p, events) f = let (r, p', more) = f p in (r, p', events ++ more)
then_write (err e, p, events) f = (err e, p, events)

-- The write of `_write_tag`, with the timestamp observed.
unfoldable pub append_encoded : FlvTag → Result FlvError (List ℕ) → OpenPart → List Event → Wrote
append_encoded tag (err e) p events = (err too_large, p, events)
append_encoded tag (ok bytes) p events =
    done
      (record p {
        handle = p.handle ++ bytes;
        last_tag_timestamp = some tag.timestamp;
        media_tag_count = if is_media tag then p.media_tag_count + 1 else p.media_tag_count;
      })
      events

-- The count of `_write_tag`, and its look at the timestamp of a media tag.
unfoldable pub count_and_observe : Bool → FlvTag → OpenPart → OpenPart × List Event
count_and_observe observe tag p =
    let counted = record p { tag_position = p.tag_position + 1 } in
    if observe && is_media tag then observe_timestamp tag counted else (counted, [])

-- `_write_tag`
unfoldable pub write_tag : Bool → FlvTag → OpenPart → Wrote
write_tag observe tag p =
    let (q, events) = count_and_observe observe tag p in
    append_encoded tag (encoded q.base_timestamp tag) q events

-- `_report_progress`
unfoldable pub report_progress : OpenPart → Wrote
report_progress p = done p (progress p.final_path (length p.handle) ∷ [])

unfoldable pub write_and_report : FlvTag → OpenPart → Wrote
unfolding report_progress
write_and_report tag p = then_write (write_tag true tag p) report_progress

-- `_is_video_keyframe`
unfoldable pub high_nibble_is_one : List ℕ → Bool
high_nibble_is_one [] = false
high_nibble_is_one (b ∷ _) = b / 16 == 1

unfoldable pub is_video_keyframe : FlvTag → Bool
unfolding high_nibble_is_one
is_video_keyframe tag =
    is_media tag && tag.tag_type == flv_video_tag && high_nibble_is_one tag.payload

unfoldable pub write_audio_configuration : Option FlvTag → OpenPart → Wrote
write_audio_configuration none p = done p []
write_audio_configuration (some tag) p = write_tag false tag p

-- The keyframe that makes a part decodable: the clock origin, and the configurations before it.
unfoldable pub start_part : Option FlvTag → FlvTag → OpenPart → Wrote
start_part audio tag p =
    then_write
      (write_tag false p.configuration_tag (record p {
        base_timestamp = tag.timestamp;
        first_keyframe_timestamp = some tag.timestamp;
      }))
      (λ q.
        then_write (write_audio_configuration audio q)
          (λ r. done (record r { started = true }) (part_started r.final_path ∷ [])))

unfoldable pub write_media : FlvTag → OpenPart → Wrote
write_media tag p = then_write (write_tag true tag p) (λ q. done q (
    (if is_media tag then media_retained ∷ [] else [])
    ++ progress q.final_path (length q.handle) ∷ []))

unfoldable pub note_first_media : FlvTag → OpenPart → OpenPart
note_first_media tag p =
    if is_media tag && not (is_some p.first_media_timestamp)
    then record p { first_media_timestamp = some tag.timestamp }
    else p

-- A tag that is no configuration, for an open part.
unfoldable pub media_tag : Option FlvTag → FlvTag → OpenPart → Wrote
media_tag audio tag p =
    let q = note_first_media tag p in
    if q.started
    then write_media tag q
    else (if is_video_keyframe tag
        then then_write (start_part audio tag q) (write_media tag)
        else done q [])

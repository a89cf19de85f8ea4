-- ===== src/Writer/Run.antt =====
-- `_open_part`, `_close_part` and the loop of `write_parts` (tikrec/writer.py).
use tik_rec.Base.{
  ℕ, ◌+◌, Bool, true, false, not, ◌&&◌, ◌||◌, Option, none, some, List, [], ◌∷◌, ◌++◌, String, map,
  length, drop, ltb, ◌==◌, if◌then◌else◌, is_some, Result, ok, err,
}
use tik_rec.Flv.{FlvTag, flv_audio_tag, is_configuration, is_avc_configuration}
use tik_rec.Writer.{
  WriterError, file_exists, bad_index, missing_fact, source_failed, Facts, Environment, flv_header,
  Wrote, write_and_report, media_tag,
}
use tik_rec.Writer.Events.{
  PartTiming, OpenPart, Event, part_retained, part_closed, finish_timestamp_replay,
}

-- The local variables of `write_parts`, the files under their final names, the partial files left
-- behind by a collision, and the callbacks made.
pub record Writer : Type 0 where
  pub paths : List ℕ
  pub part : Option OpenPart
  pub configuration : Option (List ℕ)
  pub latest_audio : Option FlvTag
  pub metadata_rate : Option String
  pub files : List (ℕ × List ℕ)
  pub left : List (ℕ × List ℕ)
  pub trace : List Event

abbrev pub Ran : Type 0
Ran = Result WriterError (Unit {0}) × Writer

-- `for stream in tuple(part.pending_replays)`
unfoldable pub finish_all : List ℕ → OpenPart → OpenPart × List Event
finish_all [] p = (p, [])
finish_all (stream ∷ streams) p =
    let (q, events) = finish_timestamp_replay stream false p in
    let (q', more) = finish_all streams q in (q', events ++ more)

-- `part.metadata_rate or rate`: the readers return no empty text.
abbrev pub or_else : Option String → Option String → Option String
or_else (some a) _ = some a
or_else none b = b

abbrev pub rate_source : Option String → Option String → Option String
rate_source (some _) _ = some "onMetaData"
rate_source none (some _) = some "sps_vui"
rate_source none none = none

unfoldable pub timing_of : OpenPart → Facts → Option ℕ → Option ℕ → Option ℕ → Option PartTiming
timing_of p facts (some media) (some keyframe) (some last) = some (record {
  path = p.final_path;
  configuration_timestamp = p.configuration_timestamp;
  first_media_timestamp = media;
  first_keyframe_timestamp = keyframe;
  last_tag_timestamp = last;
  timestamp_replays = p.timestamp_replays;
  width = facts.width;
  height = facts.height;
  nominal_frame_rate = or_else p.metadata_rate facts.rate;
  nominal_frame_rate_source = rate_source p.metadata_rate facts.rate;
})
timing_of p facts _ _ _ = none

-- The three assertions of `_close_part`, and the facts that it reports.
unfoldable pub part_timing : Environment → OpenPart → Option PartTiming
unfolding timing_of
part_timing env p =
    timing_of p (env.avc_configuration_facts (drop 5 p.configuration_tag.payload))
      p.first_media_timestamp p.first_keyframe_timestamp p.last_tag_timestamp

unfoldable pub report_closed : Option PartTiming → Writer → Ran
report_closed none w = (err missing_fact, w)
report_closed (some timing) w = (ok tt, record w { trace = w.trace ++ part_closed timing ∷ [] })

-- The file's fate, once its handle is closed and no replay is pending.
unfoldable pub settle_part : Environment → OpenPart → Writer → Ran
settle_part env p w =
    if p.media_tag_count == 0
    then (ok tt, w)
    else (if env.taken_at_close p.final_path
        then (err file_exists, record w { left = w.left ++ (p.final_path, p.handle) ∷ [] })
        else report_closed (part_timing env p) (record w {
          files = w.files ++ (p.final_path, p.handle) ∷ [];
          paths = w.paths ++ p.final_path ∷ [];
          trace = w.trace ++ part_retained p.final_path ∷ [];
        }))

unfoldable pub close_open : Environment → OpenPart → Writer → Ran
close_open env p w =
    if p.closed
    then (ok tt, w)
    else (let (q, events) =
          finish_all (map (λ e. e.0) p.pending_replays) (record p { closed = true }) in
        settle_part env q (record w { part = some q; trace = w.trace ++ events }))

-- `_close_part`, on the local variable `part`
unfoldable pub close_part : Environment → Option OpenPart → Writer → Ran
close_part env none w = (ok tt, w)
close_part env (some p) w = close_open env p w

-- `_OpenPart.__init__`, on a handle that holds the header
unfoldable pub new_part : ℕ → FlvTag → Option String → OpenPart
new_part index tag rate = record {
  final_path = index;
  handle = flv_header;
  configuration_tag = tag;
  configuration_timestamp = tag.timestamp;
  first_media_timestamp = none;
  first_keyframe_timestamp = none;
  last_tag_timestamp = none;
  base_timestamp = 0;
  started = false;
  media_tag_count = 0;
  tag_position = 0;
  last_observed_timestamps = [];
  pending_replays = [];
  timestamp_replays = [];
  closed = false;
  metadata_rate = rate;
}

-- `_open_part`, and the assignments behind it
unfoldable pub open_part : Environment → ℕ → FlvTag → List ℕ → Writer → Ran
unfolding new_part
open_part env index tag configuration w =
    if env.taken_at_open index then (err file_exists, w) else (
      ok tt,
      record w {
        part = some (new_part index tag w.metadata_rate);
        configuration = some configuration;
      },
    )

abbrev pub then_run : Ran → (Writer → Ran) → Ran
then_run (ok _, w) f = f w
then_run (err e, w) f = (err e, w)

-- A configuration that differs: close the part, and open the next.
unfoldable pub replace_part : Environment → ℕ → FlvTag → List ℕ → Writer → Ran
replace_part env start tag configuration w =
    then_run (close_part env w.part w)
      (λ w'. open_part env (start + length w'.paths) tag configuration (record w' { part = none }))

abbrev pub commit : Wrote → Writer → Ran
commit (r, p, events) w = (r, record w { part = some p; trace = w.trace ++ events })

-- An audio configuration for the part at hand, if it is started.
unfoldable pub audio_part : FlvTag → Option OpenPart → Writer → Ran
audio_part tag none w = (ok tt, w)
audio_part tag (some p) w = if p.started then commit (write_and_report tag p) w else (ok tt, w)

-- The configuration that is current already.
unfoldable pub repeated_part : FlvTag → Option OpenPart → Writer → Ran
repeated_part tag none w = (ok tt, w)
repeated_part tag (some p) w =
    if p.started
    then commit (write_and_report tag p) w
    else (ok tt, record w { part = some (record p { configuration_tag = tag }) })

unfoldable pub other_part : FlvTag → Option OpenPart → Writer → Ran
other_part tag none w = (ok tt, w)
other_part tag (some p) w = commit (media_tag w.latest_audio tag p) w

-- `configuration != next_configuration`
unfoldable pub bytes_eq : List ℕ → List ℕ → Bool
bytes_eq [] [] = true
bytes_eq (a ∷ as') (b ∷ bs) = a == b && bytes_eq as' bs
bytes_eq _ _ = false

unfoldable pub is_current : Option (List ℕ) → List ℕ → Bool
unfolding bytes_eq
is_current none next = false
is_current (some c) next = bytes_eq c next

-- The part's own rate is set until it starts, and later only if it had none.
unfoldable pub relabel : String → Option OpenPart → Option OpenPart
relabel rate none = none
relabel rate (some p) =
    if not p.started || not (is_some p.metadata_rate)
    then some (record p { metadata_rate = some rate })
    else some p

unfoldable pub note_rate : Option String → Writer → Writer
unfolding relabel
note_rate none w = w
note_rate (some rate) w = record w { metadata_rate = some rate; part = relabel rate w.part }

unfoldable pub note_metadata : Environment → FlvTag → Writer → Writer
unfolding note_rate
note_metadata env tag w =
    if tag.tag_type == 18 then note_rate (env.metadata_frame_rate tag.payload) w else w

-- The body of the loop behind the look at the metadata.
unfoldable pub dispatch : Environment → ℕ → FlvTag → Writer → Ran
dispatch env start tag w =
    if tag.tag_type == flv_audio_tag && is_configuration tag
    then audio_part tag w.part (record w { latest_audio = some tag })
    else (if is_avc_configuration tag
        then (if is_current w.configuration (drop 5 tag.payload)
            then repeated_part tag w.part w
            else replace_part env start tag (drop 5 tag.payload) w)
        else other_part tag w.part w)

unfoldable pub step : Environment → ℕ → FlvTag → Writer → Ran
step env start tag w = dispatch env start tag (note_metadata env tag w)

unfoldable pub run_tags : Environment → ℕ → List FlvTag → Writer → Ran
run_tags env start [] w = (ok tt, w)
run_tags env start (tag ∷ tags) w = then_run (step env start tag w) (run_tags env start tags)

abbrev pub initial : Writer
initial = record {
  paths = [];
  part = none;
  configuration = none;
  latest_audio = none;
  metadata_rate = none;
  files = [];
  left = [];
  trace = [];
}

-- `finally`: an exception of the last close replaces the one on its way.
abbrev pub finally : Ran → (Writer → Ran) → Ran
finally (ok _, w) f = f w
finally (err e, w) f = let (r, w') = f w in elim r [ ok _ ↦ (err e, w') | err d ↦ (err d, w') ]

-- How the iterable of tags ends: by itself, or by an exception.
abbrev pub end_of_source : Bool → Result WriterError (Unit {0})
end_of_source failed = if failed then err source_failed else ok tt

-- `write_parts`; the paths it returns are those of the writer.
unfoldable pub write_parts : Environment → ℕ → List FlvTag → Bool → Ran
write_parts env start tags failed =
    if ltb start 1
    then (err bad_index, initial)
    else finally (then_run (run_tags env start tags initial) (λ w. (end_of_source failed, w)))
        (λ w. close_part env w.part w)

-- ===== src/Writer/Recordings.antt =====
-- The loop of `write_parts` and its `finally` (tikrec/writer.py).
use tik_rec.Base.{
  ℕ, ◌≡◌, ◌≢◌, refl, subst, err-injective, some_eq, Bool, true, false, not, Option, none, some,
  List, [], ◌∷◌, map, drop, if◌then◌else◌, is_some, arith, ok, err, All, ltb, ◌&&◌, ◌||◌, ◌==◌,
  String,
}
use tik_rec.Flv.{FlvTag, is_configuration, is_avc_configuration, flv_audio_tag}
use tik_rec.Writer.{WriterError, missing_fact, bad_index, Environment}
use tik_rec.Writer.Events.{OpenPart}
use tik_rec.Writer.Closing.{IsRecording, IsNumbered, IsKept, Ends}
use tik_rec.Writer.Parts.{
  IsPartAt, IsWriter, IsStopped, Ends-then_run, Ends-if, audio_part-IsWriter,
  repeated_part-IsWriter, other_part-IsWriter, replace_part-IsWriter, close_part-IsKept,
  IsPartAt-IsEndedAt,
}
use tik_rec.Writer.Run.{
  Writer, Ran, close_part, then_run, is_current, relabel, note_rate, note_metadata, dispatch, step,
  run_tags, initial, finally, write_parts, end_of_source,
}

relabel-IsPartAt :
    (i : ℕ) (rate : String) (o : Option OpenPart) → IsPartAt i o → IsPartAt i (relabel rate o)
unfolding relabel
relabel-IsPartAt i rate none h = tt
relabel-IsPartAt i rate (some p) h = by_test (not p.started || not (is_some p.metadata_rate))
  where
    by_test :
        (b : Bool)
        → IsPartAt i (if b then some (record p { metadata_rate = some rate }) else some p)
    by_test true = h
    by_test false = h

note_rate-IsWriter :
    (start : ℕ) (rate : Option String) (w : Writer)
    → IsWriter start w
    → IsWriter start (note_rate rate w)
unfolding note_rate
note_rate-IsWriter start none w k = k
note_rate-IsWriter start (some rate) w k = record {
  kept = record {
    numbered = k.kept.numbered;
    returned = k.kept.returned;
    recordings = k.kept.recordings;
    audio = k.kept.audio;
  };
  current = relabel-IsPartAt _ rate w.part k.current;
}

note_metadata-IsWriter :
    (env : Environment) (start : ℕ) (t : FlvTag) (w : Writer)
    → IsWriter start w
    → IsWriter start (note_metadata env t w)
unfolding note_metadata
note_metadata-IsWriter env start t w k = by_test (t.tag_type == 18)
  where
    by_test :
        (b : Bool)
        → IsWriter start (if b then note_rate (env.metadata_frame_rate t.payload) w else w)
    by_test true = note_rate-IsWriter start _ w k
    by_test false = k

keep_audio :
    (start : ℕ) (t : FlvTag) (w : Writer)
    → is_configuration t ≡ true
    → IsWriter start w
    → IsWriter start (record w { latest_audio = some t })
keep_audio start t w conf k = record {
  kept = record {
    numbered = k.kept.numbered;
    returned = k.kept.returned;
    recordings = k.kept.recordings;
    audio = λ u e. subst (λ x. is_configuration x ≡ true) (some_eq e) conf;
  };
  current = k.current;
}

-- One tag keeps the invariant, or ends the loop in a state that can be closed.
step-IsWriter :
    (env : Environment) (start : ℕ) (t : FlvTag) (w : Writer)
    → IsWriter start w
    → Ends (IsWriter start) (IsStopped start) (step env start t w)
unfolding step dispatch
step-IsWriter env start t w h =
    let v = note_metadata env t w in
    let k = note_metadata-IsWriter env start t w h in
    Ends-if _ _ (t.tag_type == flv_audio_tag && is_configuration t) _ _
      (λ e.
        audio_part-IsWriter start t v.part (record v { latest_audio = some t }) k.current
          (keep_audio start t v (ground arith) k))
      (λ _.
        Ends-if _ _ (is_avc_configuration t) _ _
          (λ avc.
            Ends-if _ _ (is_current v.configuration (drop 5 t.payload)) _ _
              (λ _. repeated_part-IsWriter start t v.part v avc k.current k)
              (λ _. replace_part-IsWriter env start t (drop 5 t.payload) v avc k))
          (λ _. other_part-IsWriter start t v.part v k.current k))

run_tags-IsWriter :
    (env : Environment) (start : ℕ) (tags : List FlvTag) (w : Writer)
    → IsWriter start w
    → Ends (IsWriter start) (IsStopped start) (run_tags env start tags w)
unfolding run_tags
run_tags-IsWriter env start [] w k = k
run_tags-IsWriter env start (t ∷ tags) w k =
    Ends-then_run (IsWriter start) (IsWriter start) (IsStopped start) (step env start t w) _
      (step-IsWriter env start t w k) (λ v h. run_tags-IsWriter env start tags v h)

initial-IsWriter : (start : ℕ) → IsWriter start initial
initial-IsWriter start = record {
  kept = record { numbered = tt; returned = refl; recordings = tt; audio = λ t e. cc };
  current = tt;
}

-- The files and the result of a whole run.
abbrev pub Retained : ℕ → Ran → Type 0
Retained start (r, w) =
    IsNumbered start w.files
    × (w.paths ≡ map (λ f. f.0) w.files)
    × All IsRecording w.files
    × (r ≢ err missing_fact)

closed-Retained : (start : ℕ) (q : Ran) → Ends (IsKept start) (IsStopped start) q → Retained start q
closed-Retained start (ok _, w) k = (k.numbered, k.returned, k.recordings, λ e. cc)
closed-Retained start (err d, w) h =
    (h.0.kept.numbered, h.0.kept.returned, h.0.kept.recordings, λ e. h.1 (err-injective e))

raising-Retained :
    (start : ℕ) (e : WriterError) (q : Ran)
    → e ≢ missing_fact
    → Ends (IsKept start) (IsStopped start) q
    → Retained start (elim q.0 [ ok _ ↦ (err e, q.1) | err d ↦ (err d, q.1) ])
raising-Retained start e (ok _, w) ne k =
    (k.numbered, k.returned, k.recordings, λ p. ne (err-injective p))
raising-Retained start e (err d, w) ne h = closed-Retained start (err d, w) h

finally-Retained :
    (env : Environment) (start : ℕ) (r : Ran)
    → Ends (IsWriter start) (IsStopped start) r
    → Retained start (finally r (λ w. close_part env w.part w))
finally-Retained env start (ok _, w) h =
    closed-Retained start (close_part env w.part w)
      (close_part-IsKept env start w.part w (IsPartAt-IsEndedAt _ w.part h.current) h.kept)
finally-Retained env start (err e, w) h =
    raising-Retained start e (close_part env w.part w) h.1
      (close_part-IsKept env start w.part w h.0.ended h.0.kept)

source_end-IsWriter :
    (start : ℕ) (failed : Bool) (w : Writer)
    → IsWriter start w
    → Ends (IsWriter start) (IsStopped start) (end_of_source failed, w)
source_end-IsWriter start true w k =
    (record { kept = k.kept; ended = IsPartAt-IsEndedAt _ w.part k.current }, λ e. cc)
source_end-IsWriter start false w k = k

-- Whatever the tags are, however their source ends and whatever names are taken on the disk: the
-- retained files are numbered from `start` with no gap and are the paths returned; each holds the
-- file header and the encodings of tags that begin with a decoder configuration and have a video
-- keyframe before all other media; and no assertion of `_close_part` fails.
pub write_parts-Retained :
    (env : Environment) (start : ℕ) (tags : List FlvTag) (failed : Bool)
    → Retained start (write_parts env start tags failed)
unfolding write_parts
write_parts-Retained env start tags failed = by_index (ltb start 1)
  where
    run : Ran
    run =
        finally (then_run (run_tags env start tags initial) (λ w. (end_of_source failed, w)))
          (λ w. close_part env w.part w)

    by_index : (b : Bool) → Retained start (if b then (err bad_index, initial) else run)
    by_index true = (tt, refl, tt, λ e. cc)
    by_index false = finally-Retained env start _ (
        Ends-then_run (IsWriter start) (IsWriter start) (IsStopped start)
          (run_tags env start tags initial) _
          (run_tags-IsWriter env start tags initial (initial-IsWriter start))
          (λ w k. source_end-IsWriter start failed w k))

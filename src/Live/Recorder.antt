-- ===== src/Live/Recorder.antt =====
-- The part writer of tikrec/writer.py as the writer of a capture (tikrec/live.py).
use tik_rec.Base.{
  ℕ, suc, sym, subst, Option, none, some, List, [], ◌∷◌, map, arith, is_some, Result, ok, err,
}
use tik_rec.Flv.{FlvTag}
use tik_rec.Network.{Failing, file_exists, other_error}
use tik_rec.Writer
use tik_rec.Writer.{WriterError, Environment}
use tik_rec.Writer.Closing.{IsNumbered}
use tik_rec.Writer.Run.{write_parts}
use tik_rec.Writer.Recordings.{write_parts-Retained}
use tik_rec.Live.Attempt.{
  AreNumbered, Ending, source_closed, source_raised, writer_raised, PartWriter,
}

-- A connection for the writer: the disk, the tags, and the exception that ends their source
pub record TagStream : Type 0 where
  pub disk : Environment
  pub tags : List FlvTag
  pub raised : Option Failing

abbrev pub raised_or : Option Failing → Failing
raised_or none = other_error
raised_or (some e) = e

unfoldable pub ending_of : Option Failing → Result WriterError (Unit {0}) → Ending
ending_of raised (ok u) = source_closed
ending_of raised (err Writer.source_failed) = source_raised (raised_or raised)
ending_of raised (err Writer.file_exists) = writer_raised file_exists
ending_of raised (err Writer.bad_index) = writer_raised other_error
ending_of raised (err Writer.too_large) = writer_raised other_error
ending_of raised (err Writer.missing_fact) = writer_raised other_error

abbrev pub record_parts : ℕ → TagStream → List ℕ × Ending
record_parts start s =
    let ran = write_parts s.disk start s.tags (is_some s.raised) in
    (ran.1.paths, ending_of s.raised ran.0)

AreNumbered-files :
    (start : ℕ) (files : List (ℕ × List ℕ))
    → IsNumbered start files
    → AreNumbered start (map (λ f. f.0) files)
AreNumbered-files start [] h = tt
AreNumbered-files start (f ∷ files) h =
    (h.0, AreNumbered-files (suc start) files (subst (λ n. IsNumbered n files) (omega arith) h.1))

pub record_parts-AreNumbered :
    (start : ℕ) (s : TagStream) → AreNumbered start (record_parts start s).0
record_parts-AreNumbered start s =
    let kept = write_parts-Retained s.disk start s.tags (is_some s.raised) in
    subst (λ ps. AreNumbered start ps) (sym kept.1) (AreNumbered-files start _ kept.0)

-- The writer that `capture_live` uses by default
abbrev pub recorder : PartWriter
recorder = record { Stream = TagStream; write = record_parts; numbered = record_parts-AreNumbered }

-- ===== src/Writer/Parts.antt =====
-- Parts on the disk, as `write_parts` (tikrec/writer.py) retains them.
use tik_rec.Base.{
  ℕ, ◌+◌, ◌≡◌, ◌⊎◌, refl, sym, ap, subst, Bool, true, false, Option, none, some, List, ◌++◌, map,
  length, if◌then◌else◌, ok, err, Bool-cases, inl, inr, length-map,
}
use tik_rec.Flv.{FlvTag, is_avc_configuration}
use tik_rec.Writer.{Environment, Wrote, write_and_report}
use tik_rec.Writer.Events.{OpenPart, Event}
use tik_rec.Writer.Stage.{Core, Post}
use tik_rec.Writer.Gate.{IsPart, IsEnded, IsPart-IsEnded, write_and_report-IsPart, media_tag-IsPart}
use tik_rec.Writer.Closing.{
  IsKept, Ends, IsSettling, IsEnded-IsSettling, settle_part-IsKept, core-finish_all,
}
use tik_rec.Writer.Run.{
  Writer, Ran, finish_all, settle_part, close_open, close_part, open_part, then_run, replace_part,
  commit, audio_part, repeated_part, other_part,
}

abbrev pub IsPartAt : ℕ → Option OpenPart → Type 0
IsPartAt i none = Unit
IsPartAt i (some p) = IsPart i p

-- The part that an exception leaves: closed already, or still to be closed.
abbrev pub IsEndedAt : ℕ → Option OpenPart → Type 0
IsEndedAt i none = Unit
IsEndedAt i (some p) = (p.closed ≡ true) ⊎ IsEnded i p

-- The state between two tags.
pub record IsWriter (start : ℕ) (w : Writer) : Type 0 where
  pub kept : IsKept start w
  pub current : IsPartAt (start + length w.files) w.part

-- The state behind an exception.
pub record IsStopped (start : ℕ) (w : Writer) : Type 0 where
  pub kept : IsKept start w
  pub ended : IsEndedAt (start + length w.files) w.part

pub IsPartAt-IsEndedAt : (i : ℕ) (o : Option OpenPart) → IsPartAt i o → IsEndedAt i o
IsPartAt-IsEndedAt i none h = tt
IsPartAt-IsEndedAt i (some p) h = inr (IsPart-IsEnded p h)

with_part-IsKept :
    (start : ℕ) (w : Writer) (o : Option OpenPart) (trace : List Event)
    → IsKept start w
    → IsKept start (record w { part = o; trace = trace })
with_part-IsKept start w o trace k = record {
  numbered = k.numbered;
  returned = k.returned;
  recordings = k.recordings;
  audio = k.audio;
}

closed_still :
    (streams : List ℕ) (p : OpenPart)
    → (finish_all streams (record p { closed = true })).0.closed ≡ true
closed_still streams p =
    ap (λ (c : Core). c.closed) (core-finish_all streams (record p { closed = true }))

pub Ends-map :
    (good bad good' bad' : Writer → Type 0)
    → ((w : Writer) → good w → good' w)
    → ((w : Writer) → bad w → bad' w)
    → (r : Ran) → Ends good bad r
    → Ends good' bad' r
Ends-map good bad good' bad' f g (ok _, w) h = f w h
Ends-map good bad good' bad' f g (err e, w) h = (g w h.0, h.1)

-- Closing keeps the files, and fails only for a name that is taken: its assertions never fail.
pub close_part-IsKept :
    (env : Environment) (start : ℕ) (o : Option OpenPart) (w : Writer)
    → IsEndedAt (start + length w.files) o
    → IsKept start w
    → Ends (IsKept start) (IsStopped start) (close_part env o w)
unfolding close_part close_open
close_part-IsKept env start none w h k = k
close_part-IsKept env start (some p) w (inl shut) k = simp shut k
close_part-IsKept env start (some p) w (inr ended) k = elim (Bool-cases p.closed) [
  | inl shut ↦ simp shut k
  | inr waits ↦
      let streams = map (λ e. e.0) p.pending_replays in
      let (q, events) = finish_all streams (record p { closed = true }) in
      simp waits (
        Ends-map _ _ _ _ (λ v h. h)
          (λ v h. record { kept = h.0; ended = rw h.1 (inl (closed_still streams p)) })
          (settle_part env q (record w { part = some q; trace = w.trace ++ events }))
          (settle_part-IsKept env start q (record w { part = some q; trace = w.trace ++ events })
            (subst (IsSettling (start + length w.files))
              (sym (core-finish_all streams (record p { closed = true })))
              (IsEnded-IsSettling p ended))
            (with_part-IsKept start w (some q) (w.trace ++ events) k)))
]

pub Ends-then_run :
    (mid good bad : Writer → Type 0) (r : Ran) (f : Writer → Ran)
    → Ends mid bad r
    → ((w : Writer) → mid w → Ends good bad (f w))
    → Ends good bad (then_run r f)
Ends-then_run mid good bad (ok _, w) f h k = k w h
Ends-then_run mid good bad (err e, w) f h k = h

pub Ends-if :
    (good bad : Writer → Type 0) (b : Bool) (r q : Ran)
    → (b ≡ true → Ends good bad r)
    → (b ≡ false → Ends good bad q)
    → Ends good bad (if b then r else q)
Ends-if good bad true r q h k = h refl
Ends-if good bad false r q h k = k refl

length-paths : (start : ℕ) (w : Writer) → IsKept start w → length w.paths ≡ length w.files
length-paths start w k = rw k.returned (length-map w.files (λ f. f.0))

-- `_open_part` gives a fresh part, under the next index.
open_part-IsWriter :
    (env : Environment) (start : ℕ) (tag : FlvTag) (configuration : List ℕ) (w : Writer)
    → is_avc_configuration tag ≡ true
    → IsKept start w
    → w.part ≡ none
    → Ends
        (IsWriter start)
        (IsStopped start)
        (open_part env (start + length w.paths) tag configuration w)
unfolding open_part
open_part-IsWriter env start tag configuration w avc k empty =
    Ends-if (IsWriter start) (IsStopped start) (env.taken_at_open (start + length w.paths)) _ _
      (λ _. (record { kept = k; ended = rw empty tt }, λ e. cc))
      (λ _. record {
        kept = record {
          numbered = k.numbered;
          returned = k.returned;
          recordings = k.recordings;
          audio = k.audio;
        };
        current = inl (record {
          path = ap (λ n. start + n) (length-paths start w k);
          empty = refl;
          no_media = refl;
          flag = refl;
          open_handle = refl;
          config = avc;
        });
      })

-- A new configuration: the old part is settled, and a fresh one waits for its keyframe.
pub replace_part-IsWriter :
    (env : Environment) (start : ℕ) (tag : FlvTag) (configuration : List ℕ) (w : Writer)
    → is_avc_configuration tag ≡ true
    → IsWriter start w
    → Ends (IsWriter start) (IsStopped start) (replace_part env start tag configuration w)
unfolding replace_part
replace_part-IsWriter env start tag configuration w avc h =
    Ends-then_run (IsKept start) (IsWriter start) (IsStopped start) (close_part env w.part w) _
      (close_part-IsKept env start w.part w (IsPartAt-IsEndedAt _ w.part h.current) h.kept)
      (λ v k.
        open_part-IsWriter env start tag configuration (record v { part = none }) avc
          (with_part-IsKept start v none v.trace k) refl)

-- A row of writes on the part at hand.
commit-IsWriter :
    (start : ℕ) (w : Writer) (r : Wrote)
    → IsKept start w
    → Post (IsPart (start + length w.files)) (IsEnded (start + length w.files)) r
    → Ends (IsWriter start) (IsStopped start) (commit r w)
commit-IsWriter start w (ok _, p, events) k h = record {
  kept = with_part-IsKept start w (some p) (w.trace ++ events) k;
  current = h;
}
commit-IsWriter start w (err e, p, events) k h = (
  record { kept = with_part-IsKept start w (some p) (w.trace ++ events) k; ended = inr h.0 },
  h.1,
)

-- The writes of a configuration: only to a part that is started.
started-IsPart :
    (i : ℕ) (p : OpenPart) (t : FlvTag)
    → IsPart i p
    → p.started ≡ true
    → Post (IsPart i) (IsEnded i) (write_and_report t p)
started-IsPart i p t (inl f) h = cc (f.flag)
started-IsPart i p t (inr s) h = write_and_report-IsPart t p s

pub audio_part-IsWriter :
    (start : ℕ) (t : FlvTag) (o : Option OpenPart) (w : Writer)
    → IsPartAt (start + length w.files) o
    → IsWriter start w
    → Ends (IsWriter start) (IsStopped start) (audio_part t o w)
unfolding audio_part
audio_part-IsWriter start t none w h k = k
audio_part-IsWriter start t (some p) w h k =
    Ends-if _ _ p.started _ _ (λ s. commit-IsWriter start w _ k.kept (started-IsPart _ p t h s))
      (λ _. k)

-- A repeated configuration replaces that of a part which still waits.
reconfigure :
    (i : ℕ) (p : OpenPart) (t : FlvTag)
    → IsPart i p
    → p.started ≡ false
    → is_avc_configuration t ≡ true
    → IsPart i (record p { configuration_tag = t })
reconfigure i p t (inl f) h avc = inl (record {
  path = f.path;
  empty = f.empty;
  no_media = f.no_media;
  flag = f.flag;
  open_handle = f.open_handle;
  config = avc;
})
reconfigure i p t (inr s) h avc = cc (s.2.flag)

pub repeated_part-IsWriter :
    (start : ℕ) (t : FlvTag) (o : Option OpenPart) (w : Writer)
    → is_avc_configuration t ≡ true
    → IsPartAt (start + length w.files) o
    → IsWriter start w
    → Ends (IsWriter start) (IsStopped start) (repeated_part t o w)
unfolding repeated_part
repeated_part-IsWriter start t none w avc h k = k
repeated_part-IsWriter start t (some p) w avc h k =
    Ends-if _ _ p.started _ _ (λ s. commit-IsWriter start w _ k.kept (started-IsPart _ p t h s))
      (λ waits. record {
        kept = with_part-IsKept start w _ w.trace k.kept;
        current = reconfigure _ p t h waits avc;
      })

pub other_part-IsWriter :
    (start : ℕ) (t : FlvTag) (o : Option OpenPart) (w : Writer)
    → IsPartAt (start + length w.files) o
    → IsWriter start w
    → Ends (IsWriter start) (IsStopped start) (other_part t o w)
unfolding other_part
other_part-IsWriter start t none w h k = k
other_part-IsWriter start t (some p) w h k =
    commit-IsWriter start w _ k.kept (media_tag-IsPart w.latest_audio t p k.kept.audio h)

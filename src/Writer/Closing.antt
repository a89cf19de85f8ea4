-- ===== src/Writer/Closing.antt =====
-- What `_close_part` (tikrec/writer.py) does to the files, in every way that it can end.
use tik_rec.Base.{
  ℕ, ◌+◌, ◌<◌, ◌≡◌, ◌≢◌, refl, ◌∙◌, true, false, Option, none, some, List, [], ◌∷◌, ◌++◌, map,
  length, is_some, arith, ok, err, Bool-cases, inl, inr, All, All-append, ◌==◌,
}
use tik_rec.Flv.{FlvTag, is_configuration}
use tik_rec.Writer.{missing_fact, Facts, Environment, flv_header}
use tik_rec.Writer.Events.{OpenPart, PartTiming, part_retained, finish_timestamp_replay}
use tik_rec.Writer.Content.{encode_all, IsDecodable}
use tik_rec.Writer.Stage.{Core, core, core-finish_timestamp_replay}
use tik_rec.Writer.Gate.{IsEnded}
use tik_rec.Writer.Run.{Writer, Ran, finish_all, timing_of, part_timing, report_closed, settle_part}

-- A retained file: the header and the encodings of a decodable list of tags.
abbrev pub IsRecording : ℕ × List ℕ → Type 0
IsRecording f =
    (base : ℕ) × (ts : List FlvTag) × (body : List ℕ) × (encode_all base ts ≡ ok body)
    × (f.1 ≡ flv_header ++ body)
    × IsDecodable ts

-- The files have the indices from `n` on, with no gap.
abbrev pub IsNumbered : ℕ → List (ℕ × List ℕ) → Type 0
IsNumbered n [] = Unit
IsNumbered n (f ∷ fs) = (f.0 ≡ n) × IsNumbered (n + 1) fs

pub IsNumbered-append :
    (n : ℕ) (fs : List (ℕ × List ℕ)) (f : ℕ × List ℕ)
    → IsNumbered n fs
    → f.0 ≡ n + length fs
    → IsNumbered n (fs ++ f ∷ [])
IsNumbered-append n [] f h e = (omega (arith, e), tt)
IsNumbered-append n (x ∷ fs) f h e = (h.0, IsNumbered-append (n + 1) fs f h.1 (omega (arith, e)))

-- What every state of the loop has kept.
pub record IsKept (start : ℕ) (w : Writer) : Type 0 where
  pub numbered : IsNumbered start w.files
  pub returned : w.paths ≡ map (λ f. f.0) w.files
  pub recordings : All IsRecording w.files
  pub audio : (t : FlvTag) → w.latest_audio ≡ some t → is_configuration t ≡ true

abbrev pub Ends : (Writer → Type 0) → (Writer → Type 0) → Ran → Type 0
Ends good bad (ok _, w) = good w
Ends good bad (err e, w) = bad w × (e ≢ missing_fact)

-- What settling a part needs to know of it.
pub record IsSettling (i : ℕ) (c : Core) : Type 0 where
  pub path : c.final_path ≡ i
  pub recorded : 0 < c.media_tag_count → IsRecording (i, c.handle)
  pub media : 0 < c.media_tag_count → is_some c.first_media_timestamp ≡ true
  pub keyframe : 0 < c.media_tag_count → is_some c.first_keyframe_timestamp ≡ true
  pub last : 0 < c.media_tag_count → is_some c.last_tag_timestamp ≡ true

decodable-not_nil : (ts : List FlvTag) → IsDecodable ts → ts ≢ []
decodable-not_nil [] h e = h
decodable-not_nil (t ∷ ts) h e = cc

pub IsEnded-IsSettling :
    {i : ℕ} (p : OpenPart) → IsEnded i p → IsSettling i (core (record p { closed = true }))
IsEnded-IsSettling p (inl f) = record {
  path = f.path;
  recorded = λ h. absurd (omega (arith, f.no_media));
  media = λ h. absurd (omega (arith, f.no_media));
  keyframe = λ h. absurd (omega (arith, f.no_media));
  last = λ h. absurd (omega (arith, f.no_media));
}
IsEnded-IsSettling p (inr (b, cfg, ts, s, d)) = record {
  path = s.path;
  recorded = λ h. (p.base_timestamp, ts, s.body, s.coded, s.content, d (omega (arith, s.counted)));
  media = λ _. s.media;
  keyframe = λ _. s.keyframe;
  last = λ h. s.last (decodable-not_nil ts (d (omega (arith, s.counted))));
}

pub core-finish_all : (streams : List ℕ) (p : OpenPart) → core (finish_all streams p).0 ≡ core p
unfolding finish_all
core-finish_all [] p = refl
core-finish_all (s ∷ streams) p =
    core-finish_all streams (finish_timestamp_replay s false p).0
    ∙ core-finish_timestamp_replay s false p

-- The assertions of `_close_part` hold.
timing_known :
    (p : OpenPart) (facts : Facts) (a b c : Option ℕ)
    → is_some a ≡ true
    → is_some b ≡ true
    → is_some c ≡ true
    → is_some (timing_of p facts a b c) ≡ true
unfolding timing_of
timing_known p facts a b c h k l = ground arith

report_closed-IsKept :
    (bad : Writer → Type 0) (start : ℕ) (timing : Option PartTiming) (w : Writer)
    → is_some timing ≡ true
    → IsKept start w
    → Ends (IsKept start) bad (report_closed timing w)
unfolding report_closed
report_closed-IsKept bad start none w h k = cc
report_closed-IsKept bad start (some timing) w h k = record {
  numbered = k.numbered;
  returned = k.returned;
  recordings = k.recordings;
  audio = k.audio;
}

map-append_one :
    (fs : List (ℕ × List ℕ)) (f : ℕ × List ℕ)
    → map (λ x. x.0) fs ++ f.0 ∷ [] ≡ map (λ x. x.0) (fs ++ f ∷ [])
map-append_one [] f = refl
map-append_one (x ∷ fs) f = rw (map-append_one fs f)

-- A file under a final name is added to the others.
retain-IsKept :
    (start : ℕ) (p : OpenPart) (w : Writer)
    → IsSettling (start + length w.files) (core p)
    → 0 < p.media_tag_count
    → IsKept start w
    → IsKept start (record w {
      files = w.files ++ (p.final_path, p.handle) ∷ [];
      paths = w.paths ++ p.final_path ∷ [];
      trace = w.trace ++ part_retained p.final_path ∷ [];
    })
retain-IsKept start p w s h k = record {
  numbered = IsNumbered-append start w.files (p.final_path, p.handle) k.numbered s.path;
  returned = rw k.returned (map-append_one w.files (p.final_path, p.handle));
  recordings =
      All-append IsRecording w.files ((p.final_path, p.handle) ∷ []) k.recordings
        (s.recorded h, tt);
  audio = k.audio;
}

pub settle_part-IsKept :
    (env : Environment) (start : ℕ) (p : OpenPart) (w : Writer)
    → IsSettling (start + length w.files) (core p)
    → IsKept start w
    → Ends (IsKept start) (λ v. IsKept start v × (v.part ≡ w.part)) (settle_part env p w)
unfolding settle_part part_timing
settle_part-IsKept env start p w s k = elim (Bool-cases (p.media_tag_count == 0)) [
  | inl empty ↦ simp empty k
  | inr media ↦ elim (Bool-cases (env.taken_at_close p.final_path)) [
    | inl taken ↦
        simp (media, taken)
          (
            (
              record {
                numbered = k.numbered;
                returned = k.returned;
                recordings = k.recordings;
                audio = k.audio;
              },
              refl,
            ),
            λ e. cc,
          )
    | inr free ↦
        let pos : 0 < p.media_tag_count = ground arith in
        simp (media, free)
          (report_closed-IsKept _ start (part_timing env p) _
            (timing_known p _ _ _ _ (s.media pos) (s.keyframe pos) (s.last pos))
            (retain-IsKept start p w s pos k))
  ]
]

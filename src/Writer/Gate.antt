-- ===== src/Writer/Gate.antt =====
-- The keyframe gate of a part (tikrec/writer.py).
use tik_rec.Base.{
  ℕ, ◌<◌, ◌≡◌, ◌⊎◌, refl, Bool, true, false, not, Option, none, some, List, [], ◌∷◌, ◌++◌,
  if◌then◌else◌, is_some, arith, ok, err, Bool-cases, inl, inr, ◌&&◌,
}
use tik_rec.Flv.{FlvTag, is_media, is_avc_configuration, is_configuration}
use tik_rec.Writer.{
  Wrote, done, then_write, write_tag, report_progress, write_and_report, flv_header,
  write_audio_configuration, start_part, write_media, media_tag, note_first_media,
  is_video_keyframe,
}
use tik_rec.Writer.Events.{OpenPart}
use tik_rec.Writer.Content.{
  encode_all, count_media, count_media-append, IsDecodable, IsDecodable-append,
  is_configuration-not_media, is_avc_configuration-not_media, first_media-append_none,
}
use tik_rec.Writer.Stage.{Core, core, Stage, Post, Post-then_write, write_tag-Stage, Post-if}

-- A part that waits for its keyframe: nothing but the file header is written.
pub record IsFresh (i : ℕ) (c : Core) : Type 0 where
  pub path : c.final_path ≡ i
  pub empty : c.handle ≡ flv_header
  pub no_media : c.media_tag_count ≡ 0
  pub flag : c.started ≡ false
  pub open_handle : c.closed ≡ false
  pub config : is_avc_configuration c.configuration_tag ≡ true

abbrev pub IsStarted : ℕ → Core → Type 0
IsStarted i c = (cfg : FlvTag) × (ts : List FlvTag) × Stage i true cfg ts c × IsDecodable ts

abbrev pub IsPart : ℕ → OpenPart → Type 0
IsPart i p = IsFresh i (core p) ⊎ IsStarted i (core p)

-- A part that an exception ends: it may hold configurations alone, and is then dropped.
abbrev pub IsEnded : ℕ → OpenPart → Type 0
IsEnded i p =
    IsFresh i (core p)
    ⊎ ((b : Bool) × (cfg : FlvTag) × (ts : List FlvTag) × Stage i b cfg ts (core p)
        × (0 < count_media ts → IsDecodable ts))

pub IsPart-IsEnded : {i : ℕ} (p : OpenPart) → IsPart i p → IsEnded i p
IsPart-IsEnded p (inl fresh) = inl fresh
IsPart-IsEnded p (inr (cfg, ts, s, d)) = inr (true, cfg, ts, s, λ _. d)

Post-weaken :
    (i : ℕ) (w : Wrote)
    → Post (λ q. IsStarted i (core q)) (λ q. IsStarted i (core q)) w
    → Post (IsPart i) (IsEnded i) w
Post-weaken i (ok _, p, _) h = inr h
Post-weaken i (err _, p, _) h = (IsPart-IsEnded p (inr h.0), h.1)

Post-map :
    (good bad good' bad' : OpenPart → Type 0) (w : Wrote)
    → ((p : OpenPart) → good p → good' p)
    → ((p : OpenPart) → bad p → bad' p)
    → Post good bad w
    → Post good' bad' w
Post-map good bad good' bad' (ok _, p, _) f g h = f p h
Post-map good bad good' bad' (err _, p, _) f g h = (g p h.0, h.1)

write_tag-IsStarted :
    {i : ℕ} (t : FlvTag) (p : OpenPart)
    → IsStarted i (core p)
    → Post (λ q. IsStarted i (core q)) (λ q. IsStarted i (core q)) (write_tag true t p)
write_tag-IsStarted t p (cfg, ts, s, d) =
    Post-map _ _ _ _ (write_tag true t p) (λ q h. (cfg, ts ++ t ∷ [], h, IsDecodable-append ts t d))
      (λ q h. (cfg, ts, h, d)) (write_tag-Stage true t p s)

-- A write to a started part keeps it decodable, also one that fails.
pub write_and_report-IsPart :
    {i : ℕ} (t : FlvTag) (p : OpenPart)
    → IsStarted i (core p)
    → Post (IsPart i) (IsEnded i) (write_and_report t p)
unfolding write_and_report report_progress
write_and_report-IsPart {i} t p h = Post-weaken i _ (
    Post-then_write (λ q. IsStarted i (core q)) (λ q. IsStarted i (core q))
      (λ q. IsStarted i (core q)) (write_tag true t p) report_progress (write_tag-IsStarted t p h)
      (λ q h. h))

write_media-IsPart :
    {i : ℕ} (t : FlvTag) (p : OpenPart)
    → IsStarted i (core p)
    → Post (IsPart i) (IsEnded i) (write_media t p)
unfolding write_media
write_media-IsPart {i} t p h = Post-weaken i _ (
    Post-then_write (λ q. IsStarted i (core q)) (λ q. IsStarted i (core q))
      (λ q. IsStarted i (core q)) (write_tag true t p) _ (write_tag-IsStarted t p h) (λ q h. h))

-- The configurations are written, and the keyframe comes next.
abbrev IsPrimed : ℕ → Bool → OpenPart → Type 0
IsPrimed i b p =
    (cfg : FlvTag) × (ts : List FlvTag) × Stage i b cfg (cfg ∷ ts) (core p)
    × (is_avc_configuration cfg ≡ true)
    × (count_media ts ≡ 0)

IsPrimed-IsEnded : {i : ℕ} {b : Bool} (p : OpenPart) → IsPrimed i b p → IsEnded i p
IsPrimed-IsEnded {b} p (cfg, ts, s, avc, none_yet) =
    inr (b, cfg, cfg ∷ ts, s, λ h. absurd (ground (arith, is_avc_configuration-not_media cfg avc)))

write_audio-IsPrimed :
    {i : ℕ} (audio : Option FlvTag) (p : OpenPart)
    → ((t : FlvTag) → audio ≡ some t → is_configuration t ≡ true)
    → IsPrimed i false p
    → Post (IsPrimed i false) (IsEnded i) (write_audio_configuration audio p)
unfolding write_audio_configuration
write_audio-IsPrimed none p conf h = h
write_audio-IsPrimed (some t) p conf (cfg, ts, s, avc, none_yet) =
    Post-map _ _ _ _ (write_tag false t p)
      (λ q h. (
        cfg,
        ts ++ t ∷ [],
        h,
        avc,
        ground (arith, count_media-append ts t, is_configuration-not_media t (conf t refl)),
      ))
      (λ q h. IsPrimed-IsEnded q (cfg, ts, h, avc, none_yet)) (write_tag-Stage false t p s)

start_part-IsPrimed :
    {i : ℕ} (audio : Option FlvTag) (t : FlvTag) (p : OpenPart)
    → ((t : FlvTag) → audio ≡ some t → is_configuration t ≡ true)
    → IsFresh i (core p)
    → is_some p.first_media_timestamp ≡ true
    → Post (IsPrimed i true) (IsEnded i) (start_part audio t p)
unfolding start_part
start_part-IsPrimed {i} audio t p conf f m =
    Post-then_write (IsPrimed i false) (IsPrimed i true) (IsEnded i) _ _
      (Post-map _ _ _ _ (write_tag false p.configuration_tag origin)
        (λ q h. (p.configuration_tag, [], h, f.config, refl))
        (λ q h. inr (false, p.configuration_tag, [], h, λ pos. absurd (omega arith)))
        (write_tag-Stage false p.configuration_tag origin staged))
      (λ q primed.
        Post-then_write (IsPrimed i false) (IsPrimed i true) (IsEnded i) _ _
          (write_audio-IsPrimed audio q conf primed) (λ r h. set_started r h))
  where
    origin : OpenPart
    origin = record p { base_timestamp = t.timestamp; first_keyframe_timestamp = some t.timestamp }

    staged : Stage i false p.configuration_tag [] (core origin)
    staged = record {
      body = [];
      coded = unfold encode_all in refl;
      content = rw f.empty;
      counted = f.no_media;
      last = λ h. absurd (h refl);
      media = m;
      keyframe = refl;
      config = refl;
      path = f.path;
      flag = f.flag;
      open_handle = f.open_handle;
    }

    set_started :
        (r : OpenPart) → IsPrimed i false r → IsPrimed i true (record r { started = true })
    set_started r (cfg, ts, s, avc, none_yet) = (
      cfg,
      ts,
      record {
        body = s.body;
        coded = s.coded;
        content = s.content;
        counted = s.counted;
        last = s.last;
        media = s.media;
        keyframe = s.keyframe;
        config = s.config;
        path = s.path;
        flag = refl;
        open_handle = s.open_handle;
      },
      avc,
      none_yet,
    )

-- The keyframe itself, written behind the configurations, makes the part decodable.
keyframe-IsPart :
    {i : ℕ} (t : FlvTag) (p : OpenPart)
    → is_video_keyframe t ≡ true
    → is_media t ≡ true
    → IsPrimed i true p
    → Post (IsPart i) (IsEnded i) (write_media t p)
unfolding write_media
keyframe-IsPart {i} t p key med (cfg, ts, s, avc, none_yet) =
    Post-then_write (IsPart i) (IsPart i) (IsEnded i) (write_tag true t p) _
      (Post-map _ _ _ _ (write_tag true t p)
        (λ q h. inr (
          cfg,
          cfg ∷ (ts ++ t ∷ []),
          h,
          (avc, (t, first_media-append_none ts t none_yet med, key)),
        ))
        (λ q h. IsPrimed-IsEnded q (cfg, ts, h, avc, none_yet)) (write_tag-Stage true t p s))
      (λ q h. h)

keyframe-media : (t : FlvTag) → is_video_keyframe t ≡ true → is_media t ≡ true
unfolding is_video_keyframe
keyframe-media t h = ground arith

with_first_media :
    {i : ℕ} (p : OpenPart) (at : ℕ)
    → IsPart i p
    → IsPart i (record p { first_media_timestamp = some at })
with_first_media p at (inl f) = inl (record {
  path = f.path;
  empty = f.empty;
  no_media = f.no_media;
  flag = f.flag;
  open_handle = f.open_handle;
  config = f.config;
})
with_first_media p at (inr (cfg, ts, s, d)) = inr (
  cfg,
  ts,
  record {
    body = s.body;
    coded = s.coded;
    content = s.content;
    counted = s.counted;
    last = s.last;
    media = refl;
    keyframe = s.keyframe;
    config = s.config;
    path = s.path;
    flag = s.flag;
    open_handle = s.open_handle;
  },
  d,
)

-- A part keeps its kind when the first media timestamp is noted, and after a media tag that is known.
note_first_media-IsPart :
    {i : ℕ} (t : FlvTag) (p : OpenPart)
    → IsPart i p
    → IsPart i (note_first_media t p)
      × (is_media t ≡ true → is_some (note_first_media t p).first_media_timestamp ≡ true)
unfolding note_first_media
note_first_media-IsPart t p h =
    elim (Bool-cases (is_media t && not (is_some p.first_media_timestamp))) [
      | inl unknown ↦ rw unknown (with_first_media p t.timestamp h, λ _. refl)
      | inr other ↦ rw other (h, λ m. ground arith)
    ]

-- A tag that is no configuration keeps the invariant of the part, written or withheld.
pub media_tag-IsPart :
    {i : ℕ} (audio : Option FlvTag) (t : FlvTag) (p : OpenPart)
    → ((t : FlvTag) → audio ≡ some t → is_configuration t ≡ true)
    → IsPart i p
    → Post (IsPart i) (IsEnded i) (media_tag audio t p)
unfolding media_tag
media_tag-IsPart {i} audio t p conf h =
    let (noted, known) = note_first_media-IsPart t p h in by_kind (note_first_media t p) noted known
  where
    by_kind :
        (q : OpenPart)
        → IsPart i q
        → (is_media t ≡ true → is_some q.first_media_timestamp ≡ true)
        → Post (IsPart i) (IsEnded i) (
            if q.started
            then write_media t q
            else (if is_video_keyframe t
                then then_write (start_part audio t q) (write_media t)
                else done q []))
    by_kind q (inr s) known =
        Post-if (IsPart i) (IsEnded i) q.started _ _ (λ _. write_media-IsPart t q s)
          (λ e. cc (s.2.flag))
    by_kind q (inl f) known =
        Post-if (IsPart i) (IsEnded i) q.started _ _ (λ e. cc (f.flag))
          (λ _.
            Post-if (IsPart i) (IsEnded i) (is_video_keyframe t) _ _
              (λ key.
                Post-then_write (IsPrimed i true) (IsPart i) (IsEnded i) _ _
                  (start_part-IsPrimed audio t q conf f (known (keyframe-media t key)))
                  (λ r primed. keyframe-IsPart t r key (keyframe-media t key) primed))
              (λ _. inl f))

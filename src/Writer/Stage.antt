-- ===== src/Writer/Stage.antt =====
-- The invariant of a pending part through every write (tikrec/writer.py).
use tik_rec.Base.{
  ℕ, ◌+◌, ◌≡◌, ◌≢◌, refl, sym, subst, Bool, true, false, Option, List, [], ◌∷◌, ◌++◌, if◌then◌else◌,
  ◌&&◌, is_some, arith, Result, ok, err, append_assoc, Bool-cases, inl, inr,
}
use tik_rec.Flv.{FlvTag, is_media, encoded}
use tik_rec.Flv.Reader.{FlvError}
use tik_rec.Writer.{
  Wrote, then_write, write_tag, append_encoded, flv_header, missing_fact, WriterError,
  count_and_observe,
}
use tik_rec.Writer.Events.{
  OpenPart, Event, observe_timestamp, finish_timestamp_replay, PendingReplay, observe_pending,
  observe_forward,
}
use tik_rec.Writer.Content.{encode_all, encode_all-append, count_media, count_media-append}

-- The fields that the observation of timestamps leaves alone.
pub record Core : Type 0 where
  pub final_path : ℕ
  pub handle : List ℕ
  pub configuration_tag : FlvTag
  pub first_media_timestamp : Option ℕ
  pub first_keyframe_timestamp : Option ℕ
  pub last_tag_timestamp : Option ℕ
  pub base_timestamp : ℕ
  pub started : Bool
  pub media_tag_count : ℕ
  pub closed : Bool

abbrev pub core : OpenPart → Core
core p = record {
  final_path = p.final_path;
  handle = p.handle;
  configuration_tag = p.configuration_tag;
  first_media_timestamp = p.first_media_timestamp;
  first_keyframe_timestamp = p.first_keyframe_timestamp;
  last_tag_timestamp = p.last_tag_timestamp;
  base_timestamp = p.base_timestamp;
  started = p.started;
  media_tag_count = p.media_tag_count;
  closed = p.closed;
}

pub core-finish_timestamp_replay :
    (stream : ℕ) (recovered : Bool) (p : OpenPart)
    → core (finish_timestamp_replay stream recovered p).0 ≡ core p
unfolding finish_timestamp_replay
core-finish_timestamp_replay stream recovered p = ground arith

core-observe_forward :
    (tag : FlvTag) (o : Option ℕ) (p : OpenPart) → core (observe_forward tag o p) ≡ core p
unfolding observe_forward
core-observe_forward tag o p = ground arith

core-observe_pending :
    (tag : FlvTag) (o : Option PendingReplay) (p : OpenPart)
    → core (observe_pending tag o p).0 ≡ core p
unfolding observe_pending
core-observe_pending tag o p = ground arith

pub core-observe_timestamp :
    (tag : FlvTag) (p : OpenPart) → core (observe_timestamp tag p).0 ≡ core p
unfolding observe_timestamp
core-observe_timestamp tag p = core-observe_pending tag _ p

-- A part of index `i` whose handle holds the header and the tags `ts`. It has the configuration
-- `cfg`, and its first keyframe is known.
pub record Stage (i : ℕ) (b : Bool) (cfg : FlvTag) (ts : List FlvTag) (c : Core) : Type 0 where
  pub body : List ℕ
  pub coded : encode_all c.base_timestamp ts ≡ ok body
  pub content : c.handle ≡ flv_header ++ body
  pub counted : c.media_tag_count ≡ count_media ts
  pub last : ts ≢ [] → is_some c.last_tag_timestamp ≡ true
  pub media : is_some c.first_media_timestamp ≡ true
  pub keyframe : is_some c.first_keyframe_timestamp ≡ true
  pub config : c.configuration_tag ≡ cfg
  pub path : c.final_path ≡ i
  pub flag : c.started ≡ b
  pub open_handle : c.closed ≡ false

-- What holds of the part behind a row of writes, by how it ended.
abbrev pub Post : (OpenPart → Type 0) → (OpenPart → Type 0) → Wrote → Type 0
Post good bad (ok _, p, _) = good p
Post good bad (err e, p, _) = bad p × (e ≢ missing_fact)

Post-events :
    (good bad : OpenPart → Type 0) (r : Result WriterError (Unit {0})) (p : OpenPart)
    (events more : List Event)
    → Post good bad (r, p, events)
    → Post good bad (r, p, more)
Post-events good bad (ok _) p _ _ h = h
Post-events good bad (err _) p _ _ h = h

pub Post-then_write :
    (mid good bad : OpenPart → Type 0) (w : Wrote) (f : OpenPart → Wrote)
    → Post mid bad w
    → ((p : OpenPart) → mid p → Post good bad (f p))
    → Post good bad (then_write w f)
Post-then_write mid good bad (ok _, p, events) f h k =
    Post-events good bad (f p).0 (f p).1 (f p).2 (events ++ (f p).2) (k p h)
Post-then_write mid good bad (err e, p, events) f h k = h

pub Post-if :
    (good bad : OpenPart → Type 0) (b : Bool) (w v : Wrote)
    → (b ≡ true → Post good bad w)
    → (b ≡ false → Post good bad v)
    → Post good bad (if b then w else v)
Post-if good bad true w v h k = h refl
Post-if good bad false w v h k = k refl

append_encoded-Stage :
    {i : ℕ} {b : Bool} {cfg : FlvTag} {ts : List FlvTag} (t : FlvTag) (r : Result FlvError (List ℕ))
    (p : OpenPart) (events : List Event)
    → encoded p.base_timestamp t ≡ r
    → Stage i b cfg ts (core p)
    → Post
        (λ q. Stage i b cfg (ts ++ t ∷ []) (core q))
        (λ q. Stage i b cfg ts (core q))
        (append_encoded t r p events)
unfolding append_encoded
append_encoded-Stage t (err e) p events h s = (s, λ x. cc)
append_encoded-Stage {ts} t (ok bytes) p events h s = record {
  body = s.body ++ bytes;
  coded = encode_all-append p.base_timestamp ts t s.body bytes s.coded h;
  content = rw s.content (append_assoc flv_header s.body bytes);
  counted = ground (arith, s.counted, count_media-append ts t);
  last = λ _. refl;
  media = s.media;
  keyframe = s.keyframe;
  config = s.config;
  path = s.path;
  flag = s.flag;
  open_handle = s.open_handle;
}

pub core-count_and_observe :
    (observe : Bool) (t : FlvTag) (p : OpenPart) → core (count_and_observe observe t p).0 ≡ core p
unfolding count_and_observe
core-count_and_observe observe t p =
    let counted = record p { tag_position = p.tag_position + 1 } in
    elim (Bool-cases (observe && is_media t)) [
      | inl h ↦ rw h (core-observe_timestamp t counted)
      | inr h ↦ rw h
    ]

-- One write: the tag stands behind the others, or it is too large and the part is as it was.
pub write_tag-Stage :
    {i : ℕ} {b : Bool} {cfg : FlvTag} {ts : List FlvTag} (observe : Bool) (t : FlvTag)
    (p : OpenPart)
    → Stage i b cfg ts (core p)
    → Post
        (λ q. Stage i b cfg (ts ++ t ∷ []) (core q))
        (λ q. Stage i b cfg ts (core q))
        (write_tag observe t p)
unfolding write_tag
write_tag-Stage {i} {b} {cfg} {ts} observe t p s =
    let (q, events) = count_and_observe observe t p in
    append_encoded-Stage t (encoded q.base_timestamp t) q events refl
      (subst (Stage i b cfg ts) (sym (core-count_and_observe observe t p)) s)

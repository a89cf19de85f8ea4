-- ===== src/Live/Media.antt =====
-- The attempts of a turn whose stream holds no media (tikrec/live.py).
use tik_rec.Base.{
  ℕ, ◌≡◌, refl, Bool, true, false, not, Option, [], if◌then◌else◌, is_nil, Result, ok, err,
}
use tik_rec.Text.{Text}
use tik_rec.Network.{Failing, capture_stopped}
use tik_rec.Live.{Limits, Resolution, resolve_bound_live, resolve_live_url_confirmed}
use tik_rec.Live.Attempt.{
  PartWriter, LiveCapture, Turn, Attempted, attempted, open_source, start_session, identify,
  identified, or_room, resolved, attempt,
}

module _ (W : PartWriter) (dates : Text → Option ℕ) (stalls : Failing → Bool)
    (limits : Limits) where
  -- The stream of a turn holds no media.
  abbrev pub IsDry : Turn W → Type 0
  IsDry t = (k : ℕ) → (W.write k t.stream).0 ≡ []

  -- The attempt of a dry turn retains no part.
  open_source-dry :
      (t : Turn W) (c : LiveCapture) (r : Result Failing (Unit {0}))
      → IsDry t
      → (open_source W dates stalls limits t c r).parts ≡ []
  open_source-dry t c (err e) h = refl
  open_source-dry t c (ok u) h = h c.next_part_index

  start_session-dry :
      (t : Turn W) (c : LiveCapture) (r : Result Failing (Unit {0}))
      → IsDry t
      → (start_session W dates stalls limits t c r).parts ≡ []
  start_session-dry t c (err e) h = refl
  start_session-dry t c (ok u) h = open_source-dry t _ t.opened h

  identified-dry :
      (t : Turn W) (c : LiveCapture) (r : Result Failing (Unit {0}))
      → IsDry t
      → (identified W dates stalls limits t c r).parts ≡ []
  identified-dry t c (err e) h = refl
  identified-dry t c (ok u) h = by_session c.session_started
    where
      by_session :
          (b : Bool)
          → let a : Attempted =
              if b
              then open_source W dates stalls limits t c t.opened
              else start_session W dates stalls limits t c t.prepared in
            a.parts ≡ []
      by_session true = open_source-dry t c t.opened h
      by_session false = start_session-dry t c t.prepared h

  resolved-dry :
      (t : Turn W) (c : LiveCapture) (r : Result Failing Resolution)
      → IsDry t
      → (resolved W dates stalls limits t c r).parts ≡ []
  resolved-dry t c (err e) h = refl
  resolved-dry t c (ok r) h = by_stop t.stopped_after
    where
      by_stop :
          (b : Bool)
          → let a : Attempted =
              if b
              then attempted c [] (err capture_stopped)
              else identified W dates stalls limits t
                  (record c { saved_room_id = or_room c.saved_room_id r.room_id })
                  (identify W dates stalls limits t r.room_id) in
            a.parts ≡ []
      by_stop true = refl
      by_stop false =
          identified-dry t (record c { saved_room_id = or_room c.saved_room_id r.room_id })
            (identify W dates stalls limits t r.room_id) h

  pub attempt-dry :
      (t : Turn W) (c : LiveCapture) → IsDry t → (attempt W dates stalls limits t c).parts ≡ []
  unfolding attempt
  attempt-dry t c h = by_stop t.stopped_before
    where
      by_stop :
          (b : Bool)
          → let a : Attempted =
              if b
              then attempted c [] (err capture_stopped)
              else resolved W dates stalls limits t c
                  (resolve_live_url_confirmed limits.offline_confirmation_checks
                    limits.offline_confirmation_interval
                    (not (is_nil c.all_parts))
                    (λ k. resolve_bound_live dates c.saved_room_id (t.replies k))).result in
            a.parts ≡ []
      by_stop true = refl
      by_stop false = resolved-dry t c _ h

-- ===== src/Live/Ended.antt =====
-- When a capture finishes because its LIVE has ended (tikrec/live.py).
use tik_rec.Base.{
  ℕ, zero, suc, ◌-◌, ◌≡◌, refl, sym, ap, ◌∙◌, ◌⊎◌, inl, inr, Bool, true, false, not, ltb, ◌||◌,
  Option, none, some, [], ◌∷◌, if◌then◌else◌, is_nil, Result, ok, err, err-injective,
}
use tik_rec.Text.{Text}
use tik_rec.Base.Int.{ℤ}
use tik_rec.Network.{Failing, other_error, capture_stopped, offline, live_changed}
use tik_rec.Live.{
  Limits, Resolution, is_offline, Resolved, after_reply, confirm, first_reply, resolve_bound_live,
  reply_confirmed, resolve_live_url_confirmed, is_negative,
}
use tik_rec.Live.Attempt.{
  PartWriter, LiveCapture, Turn, Attempted, attempted, result_of, open_source, start_session,
  identify, identified, or_room, resolved, attempt,
}

-- The result of a resolution is a reply, or an end that the replies confirm.
confirm-reply :
    (replies : ℕ → Result Failing Resolution) (started : Bool) (left k : ℕ)
    (r : Result Failing Resolution)
    → (confirm replies started left k).result ≡ r
    → (r ≡ err offline) ⊎ ((j : ℕ) × (replies j ≡ r))
unfolding confirm after_reply
confirm-reply replies started zero k r h = inl (sym h)
confirm-reply replies started (suc left) k r h =
    by_start started h (confirm-reply replies started left (suc k) r)
  where
    by_reply :
        (e : Result Failing Resolution) (rest : Resolved)
        → replies (suc k) ≡ e
        → (rest.result ≡ r → (r ≡ err offline) ⊎ ((j : ℕ) × (replies j ≡ r)))
        → (after_reply e rest).result ≡ r
        → (r ≡ err offline) ⊎ ((j : ℕ) × (replies j ≡ r))
    by_reply (ok x) rest q ih g = inr (suc k, q ∙ g)
    by_reply (err e) rest q ih g = by_offline (is_offline e) g
      where
        by_offline :
            (b : Bool)
            → let x : Resolved =
                if b
                then record { result = rest.result; statuses = false ∷ rest.statuses }
                else record { result = err e; statuses = false ∷ [] } in
              x.result ≡ r → (r ≡ err offline) ⊎ ((j : ℕ) × (replies j ≡ r))
        by_offline true = λ p. ih p
        by_offline false = λ p. inr (suc k, q ∙ p)

    by_start :
        (b : Bool)
        → let x : Resolved =
            if not b
            then record { result = err offline; statuses = true ∷ [] }
            else after_reply (replies (suc k)) (confirm replies started left (suc k)) in
          x.result ≡ r
          → ((confirm replies started left (suc k)).result ≡ r
              → (r ≡ err offline) ⊎ ((j : ℕ) × (replies j ≡ r)))
          → (r ≡ err offline) ⊎ ((j : ℕ) × (replies j ≡ r))
    by_start true g ih = by_reply (replies (suc k)) (confirm replies started left (suc k)) refl ih g
    by_start false g ih = inl (sym g)

reply_confirmed-reply :
    (checks : ℕ) (started : Bool) (replies : ℕ → Result Failing Resolution)
    (r : Result Failing Resolution)
    → (reply_confirmed checks started replies).result ≡ r
    → (r ≡ err offline) ⊎ ((j : ℕ) × (replies j ≡ r))
unfolding reply_confirmed
reply_confirmed-reply checks started replies r h = by_first (replies 0) refl h
  where
    rest : Resolved
    rest = confirm replies started (checks - 1) 0

    by_first :
        (e : Result Failing Resolution)
        → replies 0 ≡ e
        → (first_reply e rest).result ≡ r
        → (r ≡ err offline) ⊎ ((j : ℕ) × (replies j ≡ r))
    by_first (ok x) q g = inr (0, q ∙ g)
    by_first (err e) q g = by_offline (is_offline e) g
      where
        by_offline :
            (b : Bool)
            → let x : Resolved = if b then rest else record { result = err e; statuses = [] } in
              x.result ≡ r → (r ≡ err offline) ⊎ ((j : ℕ) × (replies j ≡ r))
        by_offline true = λ p. confirm-reply replies started (checks - 1) 0 r p
        by_offline false = λ p. inr (0, q ∙ p)

pub resolved-reply :
    (checks : ℕ) (interval : ℤ) (started : Bool) (replies : ℕ → Result Failing Resolution)
    (r : Result Failing Resolution)
    → (resolve_live_url_confirmed checks interval started replies).result ≡ r
    → (r ≡ err offline) ⊎ ((r ≡ err other_error) ⊎ ((j : ℕ) × (replies j ≡ r)))
unfolding resolve_live_url_confirmed
resolved-reply checks interval started replies r h =
    by_test (ltb checks 1 || is_negative interval) h
  where
    by_test :
        (b : Bool)
        → let x : Resolved =
            if b
            then record { result = err other_error; statuses = [] }
            else reply_confirmed checks started replies in
          x.result ≡ r → (r ≡ err offline) ⊎ ((r ≡ err other_error) ⊎ ((j : ℕ) × (replies j ≡ r)))
    by_test true = λ k. inr (inl (sym k))
    by_test false = λ k. elim (reply_confirmed-reply checks started replies r k) [
      | inl o ↦ inl o
      | inr j ↦ inr (inr j)
    ]

-- The exceptions that end a LIVE
abbrev pub ends_live : Result Failing (Unit {0}) → Bool
ends_live (err offline) = true
ends_live (err live_changed) = true
ends_live _ = false

module _ (W : PartWriter) (dates : Text → Option ℕ) (stalls : Failing → Bool)
    (limits : Limits) where
  -- Neither the callbacks nor the stream raise the end of a LIVE.
  pub record IsQuiet (t : Turn W) : Type 0 where
    pub identity : ends_live t.identity ≡ false
    pub prepared : ends_live t.prepared ≡ false
    pub opened : ends_live t.opened ≡ false
    pub stream : (k : ℕ) → ends_live (result_of dates stalls (W.write k t.stream).1) ≡ false

  open_source-quiet :
      (t : Turn W) (c : LiveCapture) (r : Result Failing (Unit {0}))
      → IsQuiet t
      → ends_live r ≡ false
      → ends_live (open_source W dates stalls limits t c r).result ≡ false
  open_source-quiet t c (err e) q h = h
  open_source-quiet t c (ok u) q h = q.stream c.next_part_index

  start_session-quiet :
      (t : Turn W) (c : LiveCapture) (r : Result Failing (Unit {0}))
      → IsQuiet t
      → ends_live r ≡ false
      → ends_live (start_session W dates stalls limits t c r).result ≡ false
  start_session-quiet t c (err e) q h = h
  start_session-quiet t c (ok u) q h = open_source-quiet t _ t.opened q q.opened

  identified-quiet :
      (t : Turn W) (c : LiveCapture) (r : Result Failing (Unit {0}))
      → IsQuiet t
      → ends_live r ≡ false
      → ends_live (identified W dates stalls limits t c r).result ≡ false
  identified-quiet t c (err e) q h = h
  identified-quiet t c (ok u) q h = by_session c.session_started
    where
      by_session :
          (b : Bool)
          → let a : Attempted =
              if b
              then open_source W dates stalls limits t c t.opened
              else start_session W dates stalls limits t c t.prepared in
            ends_live a.result ≡ false
      by_session true = open_source-quiet t c t.opened q q.opened
      by_session false = start_session-quiet t c t.prepared q q.prepared

  identify-quiet :
      (t : Turn W) (room : Option Text)
      → IsQuiet t
      → ends_live (identify W dates stalls limits t room) ≡ false
  identify-quiet t none q = refl
  identify-quiet t (some room) q = q.identity

  -- An attempt that ends the LIVE ends in its resolution.
  resolved-ends :
      (t : Turn W) (c : LiveCapture) (r : Result Failing Resolution) (e : Failing)
      → IsQuiet t
      → ends_live (err e) ≡ true
      → (resolved W dates stalls limits t c r).result ≡ err e
      → r ≡ err e
  resolved-ends t c (err x) e q h g = ap err (err-injective g)
  resolved-ends t c (ok r) e q h g = by_stop t.stopped_after g
    where
      by_stop :
          (b : Bool)
          → let a : Attempted =
              if b
              then attempted c [] (err capture_stopped)
              else identified W dates stalls limits t
                  (record c { saved_room_id = or_room c.saved_room_id r.room_id })
                  (identify W dates stalls limits t r.room_id) in
            a.result ≡ err e → ok r ≡ err e
      by_stop true = λ p. cc (sym h ∙ ap ends_live (sym p))
      by_stop false = λ p. cc (
          sym h
          ∙ (ap ends_live (sym p)
              ∙ identified-quiet t (record c { saved_room_id = or_room c.saved_room_id r.room_id })
                  (identify W dates stalls limits t r.room_id) q (identify-quiet t r.room_id q)))

  pub attempt-ends :
      (t : Turn W) (c : LiveCapture) (e : Failing)
      → IsQuiet t
      → ends_live (err e) ≡ true
      → (attempt W dates stalls limits t c).result ≡ err e
      → (resolve_live_url_confirmed limits.offline_confirmation_checks
          limits.offline_confirmation_interval
          (not (is_nil c.all_parts))
          (λ k. resolve_bound_live dates c.saved_room_id (t.replies k))).result
        ≡ err e
  unfolding attempt
  attempt-ends t c e q h g = by_stop t.stopped_before g
    where
      by_stop :
          (b : Bool)
          → let a : Attempted =
              if b
              then attempted c [] (err capture_stopped)
              else resolved W dates stalls limits t c
                  (resolve_live_url_confirmed limits.offline_confirmation_checks
                    limits.offline_confirmation_interval
                    (not (is_nil c.all_parts))
                    (λ k. resolve_bound_live dates c.saved_room_id (t.replies k))).result in
            a.result ≡ err e
            → (resolve_live_url_confirmed limits.offline_confirmation_checks
                limits.offline_confirmation_interval
                (not (is_nil c.all_parts))
                (λ k. resolve_bound_live dates c.saved_room_id (t.replies k))).result
              ≡ err e
      by_stop true = λ p. cc (sym h ∙ ap ends_live (sym p))
      by_stop false = λ p. resolved-ends t c _ e q h p

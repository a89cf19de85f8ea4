-- ===== src/Live/Turns.antt =====
-- The parts and records behind each turn and each end of a capture (tikrec/live.py).
use tik_rec.Base.{
  ◌≡◌, ap, arith, length, inl, inr, ℕ, suc, refl, Bool, true, ◌||◌, ◌++◌, ◌⊎◌, if◌then◌else◌,
  Option, List, [], ◌∷◌, ltb, Result, ok, err,
}
use tik_rec.Text.{Text}
use tik_rec.Network.{Failing}
use tik_rec.Retry.{OutageRecovery, RetryError, bad_attempt, not_retryable, stopped, exhausted, wait}
use tik_rec.Live.{Limits}
use tik_rec.Live.Attempt.{
  PartWriter, ConnectionRecord, LiveCapture, CaptureEnd, outage_failure, finished, failed_capture,
  escaped, Turn, is_active, end_outage, Step, goes, ends, attempt,
}
use tik_rec.Live.Loop.{
  close_record, policy, settle, connect, waited, wait_for_turn, turn, then_turns, turns,
}
use tik_rec.Live.Numbered.{
  IsAtTurn, IsEnded, IsLeft, attempt-IsAttempted, After, choose-After, IsSame, IsCounted-as,
  IsAtTurn-as, close_record-IsAtTurn,
}
use tik_rec.Live.Handled.{IsKept, settle-IsGood}

-- Only the counts of failures, the outage or the delay are others.
same :
    (c : LiveCapture) (failures empty delay : ℕ) (outage : OutageRecovery)
    → IsSame c (record c {
      consecutive_failures = failures;
      consecutive_empty = empty;
      delay = delay;
      outage = outage;
    })
same c failures empty delay outage = record {
  same_parts = refl;
  same_next = refl;
  same_records = refl;
}

-- The capture has come to one more connection, and has its parts behind those of before.
pub record IsGrown (c : LiveCapture) (parts : List ℕ) (d : LiveCapture) : Type 0 where
  pub connection : d.connection_number ≡ suc c.connection_number
  pub appended : d.all_parts ≡ c.all_parts ++ parts

After-map :
    (P R : LiveCapture → Type 0) (Q T : CaptureEnd → LiveCapture → Type 0) (s : Step)
    → ((d : LiveCapture) → P d → R d)
    → ((e : CaptureEnd) (d : LiveCapture) → Q e d → T e d)
    → After P Q s
    → After R T s
After-map P R Q T (goes d) f g h = f d h
After-map P R Q T (ends e d) f g h = g e d h

module _ (first : ℕ) (before : List ℕ) where
  abbrev AtGrown : LiveCapture → List ℕ → LiveCapture → Type 0
  AtGrown c parts d = IsAtTurn first before d × IsGrown c parts d

  abbrev EndGrown : LiveCapture → List ℕ → CaptureEnd → LiveCapture → Type 0
  EndGrown c parts escaped d = IsEnded first before escaped d
  EndGrown c parts (finished b) d = AtGrown c parts d
  EndGrown c parts failed_capture d = AtGrown c parts d
  EndGrown c parts outage_failure d = AtGrown c parts d

  AtGrown-IsKept : (c : LiveCapture) (parts : List ℕ) → IsKept (AtGrown c parts) (EndGrown c parts)
  AtGrown-IsKept c parts = record {
    counts = λ d failures empty delay outage h. (
      IsAtTurn-as first before d _ (same d failures empty delay outage) refl h.0,
      record { connection = h.1.connection; appended = h.1.appended },
    );
    over = over_end;
  }
    where
      over_end : (e : CaptureEnd) (d : LiveCapture) → AtGrown c parts d → EndGrown c parts e d
      over_end escaped d h = (h.0.counted, inl h.0.connections)
      over_end (finished b) d h = h
      over_end failed_capture d h = h
      over_end outage_failure d h = h

module _ (first : ℕ) (before : List ℕ) (W : PartWriter) (dates : Text → Option ℕ)
    (stalls : Failing → Bool) (limits : Limits) where
  -- The parts that the writer has retained in the turn, if it comes to its connection
  abbrev pub retained : Turn W → LiveCapture → List ℕ
  retained t c =
      let d : LiveCapture = record c { connection_number = suc c.connection_number } in
      (attempt W dates stalls limits t d).parts

  -- The turn has come to no connection, or has all parts of one more.
  abbrev pub Grows : Turn W → LiveCapture → LiveCapture → Type 0
  Grows t c d =
      ((d.connection_number ≡ c.connection_number) × (d.all_parts ≡ c.all_parts))
      ⊎ IsGrown c (retained t c) d

  abbrev pub EndGrows : Turn W → LiveCapture → CaptureEnd → LiveCapture → Type 0
  EndGrows t c escaped d = IsEnded first before escaped d
  EndGrows t c (finished b) d = IsAtTurn first before d × Grows t c d
  EndGrows t c failed_capture d = IsAtTurn first before d × Grows t c d
  EndGrows t c outage_failure d = IsAtTurn first before d × Grows t c d

  abbrev pub Leaves : Turn W → LiveCapture → Step → Type 0
  Leaves t c s = After (λ d. IsAtTurn first before d × Grows t c d) (EndGrows t c) s

  grown_end :
      (t : Turn W) (c : LiveCapture) (e : CaptureEnd) (d : LiveCapture)
      → EndGrown first before c (retained t c) e d
      → EndGrows t c e d
  grown_end t c escaped d h = h
  grown_end t c (finished b) d h = (h.0, inr h.1)
  grown_end t c failed_capture d h = (h.0, inr h.1)
  grown_end t c outage_failure d h = (h.0, inr h.1)

  connect-Leaves :
      (t : Turn W) (c : LiveCapture)
      → IsAtTurn first before c
      → Leaves t c (connect W dates stalls limits t c)
  unfolding connect
  connect-Leaves t c h =
      let d : LiveCapture = record c { connection_number = suc c.connection_number } in
      let a = attempt W dates stalls limits t d in
      let s = attempt-IsAttempted W dates stalls limits t d in
      After-map (AtGrown first before c a.parts) _ (EndGrown first before c a.parts) (EndGrows t c)
        (settle W dates stalls limits t a) (λ x k. (k.0, inr k.1)) (grown_end t c)
        (settle-IsGood (AtGrown first before c a.parts) (EndGrown first before c a.parts)
          (AtGrown-IsKept first before c a.parts) W dates stalls limits t a
          (
            IsCounted-as first before c a.capture
                (record {
                  same_parts = s.same_parts;
                  same_next = s.same_next;
                  same_records = s.same_records;
                })
                h.counted,
            inr (
                omega (
                  arith,
                  s.same_number,
                  h.connections,
                  ap (λ (x : List ConnectionRecord). length x) s.same_records,
                )),
          )
          (λ o. (
            close_record-IsAtTurn first before W t c a o h s,
            unfold close_record in
                record {
                  connection = s.same_number;
                  appended = ap (λ x. x ++ a.parts) s.same_parts;
                },
          )))

  stays :
      (c : LiveCapture) (t : Turn W)
      → IsAtTurn first before c
      → IsAtTurn first before (end_outage c) × Grows t c (end_outage c)
  stays c t h = (
    IsAtTurn-as first before c _
        (same c c.consecutive_failures c.consecutive_empty c.delay (end_outage c).outage) refl h,
    inl (refl, refl),
  )

  choose-Leaves :
      (t : Turn W) (c : LiveCapture) (b : Bool) (s u : Step)
      → Leaves t c s
      → Leaves t c u
      → Leaves t c (if b then s else u)
  choose-Leaves t c b s u h k =
      choose-After (λ d. IsAtTurn first before d × Grows t c d) (EndGrows t c) b s u h k

  wait_for_turn-Leaves :
      (t : Turn W) (c : LiveCapture)
      → IsAtTurn first before c
      → Leaves t c (wait_for_turn W dates stalls limits t c)
  unfolding wait_for_turn
  wait_for_turn-Leaves t c h =
      choose-Leaves t c (is_active c.outage)
        (waited W dates stalls limits t c
          (wait (policy W dates stalls limits) t.control t.waiting_at c.outage))
        _ (by_wait (wait (policy W dates stalls limits) t.control t.waiting_at c.outage))
        (choose-Leaves t c (t.control.stopped_before || t.control.stopped_during)
          (ends (finished true) (end_outage c)) (connect W dates stalls limits t c) (stays c t h)
          (connect-Leaves t c h))
    where
      by_wait : (r : Result RetryError ℕ) → Leaves t c (waited W dates stalls limits t c r)
      by_wait (ok now) = connect-Leaves t c h
      by_wait (err exhausted) = stays c t h
      by_wait (err stopped) = stays c t h
      by_wait (err bad_attempt) = stays c t h
      by_wait (err not_retryable) = stays c t h

  pub turn-Leaves :
      (t : Turn W) (c : LiveCapture)
      → IsAtTurn first before c
      → Leaves t c (turn W dates stalls limits t c)
  unfolding turn
  turn-Leaves t c h =
      choose-Leaves t c t.stopped (ends (finished true) (end_outage c)) _ (stays c t h) (
        choose-Leaves t c (ltb 0 c.connection_number) (wait_for_turn W dates stalls limits t c)
          (connect W dates stalls limits t c) (wait_for_turn-Leaves t c h) (connect-Leaves t c h))

  EndGrows-IsEnded :
      (t : Turn W) (c : LiveCapture) (e : CaptureEnd) (d : LiveCapture)
      → EndGrows t c e d
      → IsEnded first before e d
  EndGrows-IsEnded t c escaped d h = h
  EndGrows-IsEnded t c (finished b) d h = h.0
  EndGrows-IsEnded t c failed_capture d h = h.0
  EndGrows-IsEnded t c outage_failure d h = h.0

  -- Whatever its turns meet, a capture keeps its parts numbered from the first index on with no gap, with
  -- the next index behind them; its records are numbered from one on, and the parts are those of before and
  -- those of the records, in order. Between its turns and at its end it has one record for each of its
  -- connections; only an exception that passes through may leave the last one without a record.
  pub turns-IsCounted :
      (ts : List (Turn W)) (c : LiveCapture)
      → IsAtTurn first before c
      → IsLeft first before (turns W dates stalls limits ts c)
  unfolding turns
  turns-IsCounted [] c h = h
  turns-IsCounted (t ∷ ts) c h =
      by_step (turn W dates stalls limits t c) (turn-Leaves t c h) (turns-IsCounted ts)
    where
      by_step :
          (s : Step)
          → Leaves t c s
          → ((d : LiveCapture)
              → IsAtTurn first before d
              → IsLeft first before (turns W dates stalls limits ts d))
          → IsLeft first before
              (then_turns W dates stalls limits s (λ d. turns W dates stalls limits ts d))
      by_step (goes d) k ih = ih d k.0
      by_step (ends e d) k ih = EndGrows-IsEnded t c e d k

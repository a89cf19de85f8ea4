-- ===== src/Live/Dry.antt =====
-- A capture without media and without the patience of a retry policy ends (tikrec/live.py).
use tik_rec.Base.{
  ℕ, zero, suc, ◌+◌, ◌*◌, ◌≤◌, ◌<◌, ◌≡◌, refl, sym, subst, Bool, true, ◌||◌, Option, none, List, [],
  ◌∷◌, arith, ltb, length, is_some, Result, ok, err, All,
}
use tik_rec.Text.{Text}
use tik_rec.Network.{Failing}
use tik_rec.Retry.{RetryError, bad_attempt, not_retryable, stopped, exhausted, wait}
use tik_rec.Live.{Limits, limits_valid}
use tik_rec.Live.Attempt.{
  PartWriter, LiveCapture, finished, Turn, is_active, end_outage, Step, goes, ends, Attempted,
  attempted, attempt,
}
use tik_rec.Live.Loop.{
  policy, settle, connect, waited, wait_for_turn, turn, then_turns, turns, initial_capture,
}
use tik_rec.Live.Numbered.{attempt-IsAttempted}
use tik_rec.Live.Media.{IsDry, attempt-dry}
use tik_rec.Live.Progress.{progress_of, IsWithin, Advances, choose-Advances, settle-Advances}

mul-le : (e E F : ℕ) → e < E → e * F + F ≤ E * F
mul-le zero zero F h = absurd (omega arith)
mul-le (suc e) zero F h = absurd (omega arith)
mul-le zero (suc E) F h = omega arith
mul-le (suc e) (suc E) F h = omega (arith, mul-le e E F (omega arith))

module _ (W : PartWriter) (dates : Text → Option ℕ) (stalls : Failing → Bool)
    (limits : Limits) where
  connect-Advances :
      (t : Turn W) (c : LiveCapture)
      → limits.retry_policy ≡ none
      → IsDry W dates stalls limits t
      → IsWithin W dates stalls limits c
      → Advances W dates stalls limits
          (progress_of W dates stalls limits c)
          (connect W dates stalls limits t c)
  unfolding connect
  connect-Advances t c p dry h =
      let d : LiveCapture = record c { connection_number = suc c.connection_number } in
      let s = attempt-IsAttempted W dates stalls limits t d in
      by_parts (attempt W dates stalls limits t d) (attempt-dry W dates stalls limits t d dry)
        (record {
          failures =
              subst (λ n. n < limits.max_consecutive_failures) (sym s.same_failures) h.failures;
          empty =
              subst (λ n. n < limits.max_consecutive_empty_connections) (sym s.same_empty) h.empty;
        })
        (λ i. s.same_empty i * limits.max_consecutive_failures + s.same_failures i)
    where
      by_parts :
          (a : Attempted)
          → a.parts ≡ []
          → IsWithin W dates stalls limits a.capture
          → progress_of W dates stalls limits a.capture ≡ progress_of W dates stalls limits c
          → Advances W dates stalls limits
              (progress_of W dates stalls limits c)
              (settle W dates stalls limits t a)
      by_parts a none_kept w k =
          subst
            (λ ps.
              Advances W dates stalls limits (progress_of W dates stalls limits c)
                (settle W dates stalls limits t (attempted a.capture ps a.result)))
            (sym none_kept)
            (settle-Advances W dates stalls limits (progress_of W dates stalls limits c) t a.capture
              a.result p w k)

  turn-Advances :
      (t : Turn W) (c : LiveCapture)
      → limits.retry_policy ≡ none
      → IsDry W dates stalls limits t
      → IsWithin W dates stalls limits c
      → Advances W dates stalls limits
          (progress_of W dates stalls limits c)
          (turn W dates stalls limits t c)
  unfolding turn wait_for_turn
  turn-Advances t c p dry h =
      choose-Advances W dates stalls limits n t.stopped (ends (finished true) (end_outage c)) _
        (λ e. tt)
        (λ e.
          choose-Advances W dates stalls limits n (ltb 0 c.connection_number) _
            (connect W dates stalls limits t c)
            (λ q.
              choose-Advances W dates stalls limits n (is_active c.outage)
                (waited W dates stalls limits t c
                  (wait (policy W dates stalls limits) t.control t.waiting_at c.outage))
                _
                (λ x. by_wait (wait (policy W dates stalls limits) t.control t.waiting_at c.outage))
                (λ x.
                  choose-Advances W dates stalls limits n
                    (t.control.stopped_before || t.control.stopped_during)
                    (ends (finished true) (end_outage c)) (connect W dates stalls limits t c)
                    (λ y. tt) (λ y. connects)))
            (λ q. connects))
    where
      n : ℕ
      n = progress_of W dates stalls limits c

      connects : Advances W dates stalls limits n (connect W dates stalls limits t c)
      connects = connect-Advances t c p dry h

      by_wait :
          (r : Result RetryError ℕ)
          → Advances W dates stalls limits n (waited W dates stalls limits t c r)
      by_wait (ok now) = connects
      by_wait (err exhausted) = tt
      by_wait (err stopped) = tt
      by_wait (err bad_attempt) = tt
      by_wait (err not_retryable) = tt

  turns-end_from :
      (ts : List (Turn W)) (c : LiveCapture)
      → limits.retry_policy ≡ none
      → All (λ t. IsDry W dates stalls limits t) ts
      → IsWithin W dates stalls limits c
      → limits.max_consecutive_empty_connections * limits.max_consecutive_failures
        ≤ progress_of W dates stalls limits c + length ts
      → is_some (turns W dates stalls limits ts c).0 ≡ true
  unfolding turns
  turns-end_from [] c p dry h k = absurd (
      omega (
        arith,
        mul-le c.consecutive_empty limits.max_consecutive_empty_connections
            limits.max_consecutive_failures h.empty,
        h.failures,
      ))
  turns-end_from (t ∷ ts) c p dry h k =
      by_step (turn W dates stalls limits t c) (turn-Advances t c p dry.0 h)
        (λ d w q. turns-end_from ts d p dry.1 w q)
    where
      by_step :
          (s : Step)
          → Advances W dates stalls limits (progress_of W dates stalls limits c) s
          → ((d : LiveCapture)
              → IsWithin W dates stalls limits d
              → limits.max_consecutive_empty_connections * limits.max_consecutive_failures
                ≤ progress_of W dates stalls limits d + length ts
              → is_some (turns W dates stalls limits ts d).0 ≡ true)
          → is_some (then_turns W dates stalls limits s (λ d. turns W dates stalls limits ts d)).0
            ≡ true
      by_step (goes d) a ih = ih d a.0 (omega (arith, a.1))
      by_step (ends e d) a ih = refl

  -- With limits that are accepted and no retry policy, a new capture whose streams hold no media ends, in
  -- at most as many turns as the limit of failures times that of empty connections, whatever the
  -- resolver, the clocks and the stops do.
  pub turns-end :
      (ts : List (Turn W))
      → limits_valid limits ≡ true
      → limits.retry_policy ≡ none
      → All (λ t. IsDry W dates stalls limits t) ts
      → limits.max_consecutive_empty_connections * limits.max_consecutive_failures ≤ length ts
      → is_some (turns W dates stalls limits ts initial_capture).0 ≡ true
  unfolding limits_valid
  turns-end ts h p dry k =
      turns-end_from ts initial_capture p dry
        (record { failures = ground arith; empty = ground arith }) (omega arith)

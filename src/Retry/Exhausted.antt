-- ===== src/Retry/Exhausted.antt =====
-- Outages under the retry policy (tikrec/retry_policy.py).
use tik_rec.Base.{
  ℕ, zero, suc, ◌+◌, ◌*◌, ◌-◌, ◌≤◌, ◌<◌, min, ◌≡◌, ◌⊎◌, refl, ap, ◌∙◌, true, false, Option, none,
  some, List, [], ◌∷◌, arith, leb, length, get_or, is_nil, ok, err, All, Bool-cases, inl, inr,
}
use tik_rec.Retry.{
  RetryPolicy, policy_valid, exhausted, at_least, delay, Failure, OutageRecovery, started_or,
  failure, elapsed, status, Control, wait, Round, outage,
}

-- No delay is shorter than `least`.
abbrev pub AllAtLeast : ℕ → List ℕ → Type 0
AllAtLeast least ds = All (λ d. least ≤ d) ds

get_or-least :
    (least : ℕ) (xs : List ℕ) (i : ℕ) → AllAtLeast least xs → i < length xs → least ≤ get_or xs i 0
get_or-least least [] i h k = ground arith
get_or-least least (x ∷ xs) zero h k = h.0
get_or-least least (x ∷ xs) (suc i) h k = get_or-least least xs i h.1 (omega arith)

length-positive : (xs : List ℕ) → is_nil xs ≡ false → 1 ≤ length xs
length-positive [] h = cc
length-positive (x ∷ xs) h = omega arith

policy_valid-parts :
    (p : RetryPolicy) → policy_valid p ≡ true → (1 ≤ length p.delays) × (1 ≤ p.window_seconds)
unfolding policy_valid
policy_valid-parts p h = (length-positive p.delays (ground arith), ground arith)

bounded :
    (hint : Option ℕ) (least staged most : ℕ)
    → least ≤ staged
    → least ≤ most
    → least ≤ min (at_least hint staged) most
bounded none least staged most h k = omega arith
bounded (some a) least staged most h k = omega arith

-- A delay of an accepted policy is as long as the shortest one, and not longer than its bound.
delay-least :
    (p : RetryPolicy) (least attempt : ℕ) (hint : Option ℕ)
    → policy_valid p ≡ true
    → AllAtLeast least p.delays
    → least ≤ p.max_delay_seconds
    → (d : ℕ) × (delay p (suc attempt) hint ≡ ok d) × (least ≤ d)
unfolding delay
delay-least p least attempt hint h all most =
    let (some_delay, _) = policy_valid-parts p h in
    (
      _,
      refl,
      bounded hint least _ p.max_delay_seconds
          (get_or-least least p.delays (min (suc attempt) (length p.delays) - 1) all (omega arith))
          most,
    )

-- A failure that the classification calls transient, with a control that is not stopped.
abbrev pub IsPatient : Round → Type 0
IsPatient x =
    (x.failed.is_transient ≡ true)
    × (x.control.stopped_before ≡ false)
    × (x.control.stopped_during ≡ false)

failure_lem :
    (p : RetryPolicy) (least : ℕ) (f : Failure) (now : ℕ) (r : OutageRecovery)
    → policy_valid p ≡ true
    → AllAtLeast least p.delays
    → least ≤ p.max_delay_seconds
    → f.is_transient ≡ true
    → (r1 : OutageRecovery) × (failure p f now r ≡ ok r1)
      × (r1.started ≡ some (started_or r.started now))
      × (least ≤ r1.delay_seconds)
unfolding failure
failure_lem p least f now r h all most t =
    let (d, e, lasts) = delay-least p least r.attempt f.retry_after h all most in
    let r1 : OutageRecovery = record {
      started = some (started_or r.started now);
      attempt = suc r.attempt;
      reason = f.reason;
      delay_seconds = d;
    } in
    (r1, rw (t, e) refl, refl, lasts)

-- A wait ends in exhaustion, or inside the window and as much later as the delay.
wait_lem :
    (p : RetryPolicy) (least : ℕ) (c : Control) (now started : ℕ) (r : OutageRecovery)
    → c.stopped_before ≡ false
    → c.stopped_during ≡ false
    → r.started ≡ some started
    → least ≤ r.delay_seconds
    → started ≤ now
    → now - started < p.window_seconds
    → (wait p c now r ≡ err exhausted)
      ⊎ ((later : ℕ) × (wait p c now r ≡ ok later)
          × (now + least ≤ later)
          × (later - started < p.window_seconds))
unfolding wait status
wait_lem p least c now started r before during e lasts order inside =
    let same : (x : ℕ) → elapsed r.started x ≡ x - started = λ x. ap (λ o. elapsed o x) e in
    let later : ℕ =
      now + min r.delay_seconds (p.window_seconds - elapsed r.started now) + c.extra in
    let early : leb p.window_seconds (elapsed r.started now) ≡ false = ground (arith, same now) in
    elim (Bool-cases (leb p.window_seconds (elapsed r.started later))) [
      | inl late ↦ inl (rw (before, early, during, late) refl)
      | inr timely ↦ inr (
        later,
        rw (before, early, during, timely) refl,
        ground (arith, same now, same later),
        ground (arith, same later),
      )
    ]

outage-err :
    (p : RetryPolicy) (least : ℕ) (xs : List Round) (now started : ℕ) (r : OutageRecovery)
    → policy_valid p ≡ true
    → AllAtLeast least p.delays
    → least ≤ p.max_delay_seconds
    → All IsPatient xs
    → started_or r.started now ≡ started
    → started ≤ now
    → now - started < p.window_seconds
    → p.window_seconds ≤ (now - started) + length xs * least
    → outage p xs now r ≡ err exhausted
unfolding outage
outage-err p least [] now started r h ds most all e order inside long = ground arith
outage-err p least (x ∷ xs) now started r h ds most all e order inside long =
    let (r1, failed, begun, lasts) = failure_lem p least x.failed now r h ds most all.0.0 in
    let begun' : r1.started ≡ some started = begun ∙ ap some e in
    elim (wait_lem p least x.control now started r1 all.0.1 all.0.2 begun' lasts order inside) [
      | inl over ↦ rw (failed, over) refl
      | inr (later, waited, longer, still) ↦
          rw (failed, waited)
            (outage-err p least xs later started r1 h ds most all.1
              (ap (λ o. started_or o later) begun') (omega arith) still (omega arith))
    ]

-- An outage ends: with a policy that is accepted, whose delays and whose bound of them last at least
-- `least`, enough failed attempts for as many times `least` to fill the window, each transient and with a
-- wait that is not stopped, end in exhaustion, whatever the server hints are and however much longer than
-- asked the waits take. Times are in any unit in which they are whole.
pub outage-exhausted :
    (p : RetryPolicy) (least : ℕ) (xs : List Round) (now : ℕ) (r : OutageRecovery)
    → policy_valid p ≡ true
    → AllAtLeast least p.delays
    → least ≤ p.max_delay_seconds
    → r.started ≡ none
    → All IsPatient xs
    → p.window_seconds ≤ length xs * least
    → outage p xs now r ≡ err exhausted
outage-exhausted p least xs now r h ds most e all long =
    let (_, window) = policy_valid-parts p h in
    outage-err p least xs now now r h ds most all (ap (λ o. started_or o now) e) (omega arith)
      (omega arith) (omega arith)

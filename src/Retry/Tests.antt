-- ===== src/Retry/Tests.antt =====
-- Runs of the outage policy (tikrec/retry_policy.py).
use tik_rec.Base.{◌≡◌, refl, Bool, true, false, none, List, [], ◌∷◌, arith, err}
use tik_rec.Text.{codes}
use tik_rec.Retry.{
  RetryPolicy, policy_valid, exhausted, stopped, delay, OutageRecovery, failure, elapsed, status,
  wait, Round, outage,
}
use tik_rec.Retry.Exhausted.{AllAtLeast, outage-exhausted}

abbrev short_policy : RetryPolicy
short_policy = record { window_seconds = 4; delays = 1 ∷ 2 ∷ []; max_delay_seconds = 30 }

short_policy_valid : policy_valid short_policy ≡ true
unfolding policy_valid
short_policy_valid = refl

short_policy_least : AllAtLeast 1 short_policy.delays
short_policy_least = (omega arith, (omega arith, tt))

abbrev at_rest : OutageRecovery
at_rest = record { started = none; attempt = 0; reason = codes "network"; delay_seconds = 0 }

abbrev timeout_round : Bool → Round
timeout_round stop = record {
  failed = record { is_transient = true; reason = codes "timeout"; retry_after = none };
  control = record { stopped_before = false; stopped_during = stop; extra = 0 };
}

abbrev four_rounds : List Round
four_rounds =
    timeout_round false ∷ timeout_round false ∷ timeout_round false ∷ timeout_round false ∷ []

-- Waits of one, two and one second fill the window of four.
third_round :
    outage short_policy
      (timeout_round false ∷ timeout_round false ∷ timeout_round false ∷ [])
      10
      at_rest
    ≡ err exhausted
unfolding delay failure elapsed status wait outage
third_round = refl

stopped_round :
    outage short_policy (timeout_round false ∷ timeout_round true ∷ []) 10 at_rest ≡ err stopped
unfolding delay failure elapsed status wait outage
stopped_round = refl

outage-exhausted_example : outage short_policy four_rounds 10 at_rest ≡ err exhausted
outage-exhausted_example =
    outage-exhausted short_policy 1 four_rounds 10 at_rest short_policy_valid short_policy_least
      (omega arith) refl
      ((refl, refl, refl), ((refl, refl, refl), ((refl, refl, refl), ((refl, refl, refl), tt))))
      (omega arith)

-- ===== src/Network/Tests.antt =====
-- Exceptions and their kinds.
use tik_rec.Base.{◌≡◌, ◌↔◌, refl, true, false, none, some}
use tik_rec.Text.{codes}
use tik_rec.Network.{
  http, url_error, os_error, transient, malformed, lstrip, rstrip, number_from, retry_after,
  is_retryable_status, classify_failure,
}
use tik_rec.Network.Outages.{IsOutage, classify_failure-IsOutage}

busy_server :
    classify_failure (λ t. none) false (url_error (http 503 (some (codes " 12 "))))
    ≡ record { category = transient; reason = codes "http"; retry_after = some 12 }
unfolding classify_failure retry_after lstrip rstrip number_from is_retryable_status
busy_server = refl

not_found : (classify_failure (λ t. none) false (http 404 none)).category ≡ malformed
unfolding classify_failure is_retryable_status
not_found = refl

classify_failure-IsOutage_example :
    ((classify_failure (λ t. none) true (os_error none none true)).category ≡ transient)
    ↔ IsOutage true (os_error none none true)
classify_failure-IsOutage_example =
    classify_failure-IsOutage (λ t. none) true (os_error none none true)

-- ===== src/Live/Confirmed.antt =====
-- When a room counts as ended (`resolve_live_url_confirmed` of tikrec/tiktok.py).
use tik_rec.Base.{
  ℕ, zero, suc, ◌-◌, ◌≤◌, ◌||◌, ltb, arith, ◌≡◌, ◌↔◌, refl, sym, ap, ◌∙◌, Bool, true, false, [],
  ◌∷◌, if◌then◌else◌, Result, ok, err, err-injective,
}
use tik_rec.Base.Int.{ℤ, pos, negsuc}
use tik_rec.Network.{
  Failing, capture_stopped, keyboard_interrupt, offline, live_changed, http, url_error,
  resolution_transient, resolution, gaierror, timeout, connection, incomplete_read, eof, os_error,
  source_network, source_refresh, file_exists, other_error,
}
use tik_rec.Live.{
  Resolution, is_offline, Resolved, after_reply, confirm, first_reply, reply_confirmed,
  resolve_live_url_confirmed,
}

is_offline-eq : (e : Failing) → is_offline e ≡ true → e ≡ offline
is_offline-eq offline h = refl
is_offline-eq capture_stopped h = cc (h)
is_offline-eq keyboard_interrupt h = cc (h)
is_offline-eq live_changed h = cc (h)
is_offline-eq (http a b) h = cc (h)
is_offline-eq (url_error a) h = cc (h)
is_offline-eq (resolution_transient a b) h = cc (h)
is_offline-eq resolution h = cc (h)
is_offline-eq gaierror h = cc (h)
is_offline-eq timeout h = cc (h)
is_offline-eq connection h = cc (h)
is_offline-eq incomplete_read h = cc (h)
is_offline-eq eof h = cc (h)
is_offline-eq (os_error a b c) h = cc (h)
is_offline-eq (source_network a b) h = cc (h)
is_offline-eq (source_refresh a b) h = cc (h)
is_offline-eq file_exists h = cc (h)
is_offline-eq other_error h = cc (h)

-- The replies `k` and the `n` behind it are all offline.
abbrev pub AreOffline : (ℕ → Result Failing Resolution) → ℕ → ℕ → Type 0
AreOffline replies k zero = replies k ≡ err offline
AreOffline replies k (suc n) = (replies k ≡ err offline) × AreOffline replies (suc k) n

-- The replies that must be offline for the room to count as ended, less one
abbrev pub needed : Bool → ℕ → ℕ
needed started checks = if started then checks - 1 else 0

AreOffline-head :
    (replies : ℕ → Result Failing Resolution) (n k : ℕ)
    → AreOffline replies k n
    → replies k ≡ err offline
AreOffline-head replies zero k h = h
AreOffline-head replies (suc n) k h = h.0

after_reply-offline :
    (r : Result Failing Resolution) (rest : Resolved)
    → ((after_reply r rest).result ≡ err offline)
      ↔ ((r ≡ err offline) × (rest.result ≡ err offline))
unfolding after_reply
after_reply-offline (ok r) rest = (λ h. cc (h), λ h. cc (h.0))
after_reply-offline (err e) rest = by_offline (is_offline e) refl
  where
    by_offline :
        (b : Bool)
        → is_offline e ≡ b
        → let x : Resolved =
            if b
            then record { result = rest.result; statuses = false ∷ rest.statuses }
            else record { result = err e; statuses = false ∷ [] } in
          (x.result ≡ err offline) ↔ (
            (◌≡◌ {A = Result Failing Resolution} (err e) (err offline))
            × (rest.result ≡ err offline))
    by_offline true q = (λ h. (ap err (is_offline-eq e q), h), λ h. h.1)
    by_offline false q = (λ h. cc (sym q ∙ ap is_offline (err-injective h)), λ h. cc (h.0))

confirm-offline :
    (replies : ℕ → Result Failing Resolution) (left k : ℕ)
    → replies k ≡ err offline
    → ((confirm replies true left k).result ≡ err offline) ↔ AreOffline replies k left
unfolding confirm
confirm-offline replies zero k e = (λ h. e, λ h. refl)
confirm-offline replies (suc left) k e =
    let step = after_reply-offline (replies (suc k)) (confirm replies true left (suc k)) in
    (
      λ h. (e, (confirm-offline replies left (suc k) (step.0 h).0).0 (step.0 h).1),
      λ h.
          let first = AreOffline-head replies left (suc k) h.1 in
          step.1 (first, (confirm-offline replies left (suc k) first).1 h.1),
    )

confirm-early :
    (replies : ℕ → Result Failing Resolution) (left k : ℕ)
    → (confirm replies false left k).result ≡ err offline
unfolding confirm
confirm-early replies zero k = refl
confirm-early replies (suc left) k = refl

confirm-needed :
    (started : Bool) (replies : ℕ → Result Failing Resolution) (checks : ℕ)
    → replies 0 ≡ err offline
    → ((confirm replies started (checks - 1) 0).result ≡ err offline)
      ↔ AreOffline replies 0 (needed started checks)
confirm-needed true replies checks e = confirm-offline replies (checks - 1) 0 e
confirm-needed false replies checks e = (λ h. e, λ h. confirm-early replies (checks - 1) 0)

reply_confirmed-AreOffline :
    (checks : ℕ) (started : Bool) (replies : ℕ → Result Failing Resolution)
    → ((reply_confirmed checks started replies).result ≡ err offline)
      ↔ AreOffline replies 0 (needed started checks)
unfolding reply_confirmed
reply_confirmed-AreOffline checks started replies = by_first (replies 0) refl
  where
    rest : Resolved
    rest = confirm replies started (checks - 1) 0

    by_offline :
        (e : Failing)
        → replies 0 ≡ err e
        → (b : Bool) → is_offline e ≡ b
        → let x : Resolved = if b then rest else record { result = err e; statuses = [] } in
          (x.result ≡ err offline) ↔ AreOffline replies 0 (needed started checks)
    by_offline e q true o = confirm-needed started replies checks (q ∙ ap err (is_offline-eq e o))
    by_offline e q false o = (
      λ h. cc (sym o ∙ ap is_offline (err-injective h)),
      λ h. cc (
          sym o
          ∙ ap is_offline
              (err-injective (sym q ∙ AreOffline-head replies (needed started checks) 0 h))),
    )

    by_first :
        (r : Result Failing Resolution)
        → replies 0 ≡ r
        → ((first_reply r rest).result ≡ err offline) ↔ AreOffline replies 0 (needed started checks)
    by_first (ok r) q =
        (λ h. cc (h), λ h. cc (sym q ∙ AreOffline-head replies (needed started checks) 0 h))
    by_first (err e) q = by_offline e q (is_offline e) refl

-- The limits of a confirmation: one check at least, and an interval that is not negative
abbrev pub AreAccepted : ℕ → ℤ → Type 0
AreAccepted checks interval = (1 ≤ checks) × ((n : ℕ) × (interval ≡ pos n))

-- A room counts as ended exactly where the limits are accepted and its replies say so: the first one, where
-- no part is retained yet; all of the checks, one behind the other, once the capture has begun.
pub resolve_live_url_confirmed-AreOffline :
    (checks : ℕ) (interval : ℤ) (started : Bool) (replies : ℕ → Result Failing Resolution)
    → ((resolve_live_url_confirmed checks interval started replies).result ≡ err offline)
      ↔ (AreAccepted checks interval × AreOffline replies 0 (needed started checks))
unfolding resolve_live_url_confirmed
resolve_live_url_confirmed-AreOffline checks (negsuc n) started replies = by_test (ltb checks 1)
  where
    by_test :
        (b : Bool)
        → let x : Resolved =
            if b || true
            then record { result = err other_error; statuses = [] }
            else reply_confirmed checks started replies in
          (x.result ≡ err offline)
          ↔ (AreAccepted checks (negsuc n) × AreOffline replies 0 (needed started checks))
    by_test true = (λ h. cc (ap is_offline (err-injective h)), λ h. cc (h.0.1.1))
    by_test false = (λ h. cc (ap is_offline (err-injective h)), λ h. cc (h.0.1.1))
resolve_live_url_confirmed-AreOffline checks (pos n) started replies = by_test (ltb checks 1) refl
  where
    by_test :
        (b : Bool)
        → ltb checks 1 ≡ b
        → let x : Resolved =
            if b || false
            then record { result = err other_error; statuses = [] }
            else reply_confirmed checks started replies in
          (x.result ≡ err offline)
          ↔ (AreAccepted checks (pos n) × AreOffline replies 0 (needed started checks))
    by_test true q = (
      λ h. cc (ap is_offline (err-injective h)),
      λ h. let one : 1 ≤ checks = h.0.0 in absurd (ground arith),
    )
    by_test false q =
        let same = reply_confirmed-AreOffline checks started replies in
        (λ h. ((ground arith, (n, refl)), same.0 h), λ h. same.1 h.1)

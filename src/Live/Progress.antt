-- ===== src/Live/Progress.antt =====
-- How far the handlers of a turn bring a capture without media (tikrec/live.py).
use tik_rec.Base.{
  ℕ, suc, ◌+◌, ◌*◌, ◌≤◌, ◌<◌, ◌≡◌, refl, sym, ap, ◌∙◌, Bool, true, false, not, ◌&&◌, ◌||◌, Option,
  none, some, List, [], arith, leb, if◌then◌else◌, is_some, is_nil, Result, ok, err,
}
use tik_rec.Text.{Text}
use tik_rec.Network.{
  Failing, capture_stopped, keyboard_interrupt, http, url_error, gaierror, timeout, connection,
  incomplete_read, eof, os_error, other_error, offline, live_changed, resolution,
  resolution_transient, source_network, source_refresh, file_exists,
}
use tik_rec.Live.{Limits}
use tik_rec.Live.Attempt.{
  PartWriter, ended, resolver_error, closed, LiveCapture, finished, failed_capture, Turn,
  end_outage, next_failure_counts, Step, goes, ends,
}
use tik_rec.Live.Loop.{
  close_record, next_turn, within_failures, after_failure, after_close, stall_outcome,
  refresh_failure, finish_offline, handle,
}

module _ (W : PartWriter) (dates : Text → Option ℕ) (stalls : Failing → Bool)
    (limits : Limits) where
  -- How far a capture without media has come
  abbrev pub progress_of : LiveCapture → ℕ
  progress_of c = c.consecutive_empty * limits.max_consecutive_failures + c.consecutive_failures

  -- The counts are below their limits.
  pub record IsWithin (c : LiveCapture) : Type 0 where
    pub failures : c.consecutive_failures < limits.max_consecutive_failures
    pub empty : c.consecutive_empty < limits.max_consecutive_empty_connections

  -- A turn that goes on has come further, and its counts are below their limits.
  abbrev pub Advances : ℕ → Step → Type 0
  Advances n (goes c) = IsWithin c × (suc n ≤ progress_of c)
  Advances n (ends e c) = Unit

  pub choose-Advances :
      (n : ℕ) (b : Bool) (s u : Step)
      → (b ≡ true → Advances n s)
      → (b ≡ false → Advances n u)
      → Advances n (if b then s else u)
  choose-Advances n true s u h k = h refl
  choose-Advances n false s u h k = k refl

  within_failures-Advances :
      (n : ℕ) (t : Turn W) (c : LiveCapture) (normal : Bool) (parts : List ℕ)
      → c.consecutive_empty < limits.max_consecutive_empty_connections
      → suc n ≤ progress_of c
      → Advances n (within_failures W dates stalls limits t c normal parts)
  within_failures-Advances n t c normal parts h k =
      choose-Advances n (leb limits.max_consecutive_failures c.consecutive_failures)
        (ends failed_capture c) (next_turn W dates stalls limits t c normal parts) (λ e. tt)
        (λ e. (record { failures = ground arith; empty = h }, k))

  after_failure-Advances :
      (n : ℕ) (t : Turn W) (c : LiveCapture) (e : Option Failing)
      → limits.retry_policy ≡ none
      → c.consecutive_empty < limits.max_consecutive_empty_connections
      → suc n ≤ progress_of c
      → Advances n (after_failure W dates stalls limits t c [] e)
  unfolding after_failure
  after_failure-Advances n t c none p h k = within_failures-Advances n t c false [] h k
  after_failure-Advances n t c (some e) p h k =
      choose-Advances n (is_some limits.retry_policy && is_some c.saved_room_id) _
        (within_failures W dates stalls limits t c false [])
        (λ q. cc (ap (λ x. is_some x && is_some c.saved_room_id) (sym p) ∙ q))
        (λ q. within_failures-Advances n t c false [] h k)

  counted-Advances :
      (n : ℕ) (t : Turn W) (c : LiveCapture) (e : Option Failing)
      → limits.retry_policy ≡ none
      → IsWithin c
      → progress_of c ≡ n
      → Advances n (after_failure W dates stalls limits t (next_failure_counts [] c) [] e)
  unfolding next_failure_counts
  counted-Advances n t c e p h k = after_failure-Advances n t _ e p h.empty (omega arith)

  after_close-Advances :
      (n : ℕ) (t : Turn W) (c : LiveCapture)
      → IsWithin c
      → progress_of c ≡ n
      → Advances n (after_close W dates stalls limits t c [])
  unfolding after_close
  after_close-Advances n t c h k =
      let d : LiveCapture = record c {
        consecutive_failures = 0;
        consecutive_empty = suc c.consecutive_empty;
      } in
      choose-Advances n (leb limits.max_consecutive_empty_connections (suc c.consecutive_empty))
        (ends failed_capture d) (within_failures W dates stalls limits t d true []) (λ e. tt)
        (λ e. within_failures-Advances n t d true [] (ground arith) (omega (arith, h.failures)))

  refresh_failure-Advances :
      (n : ℕ) (t : Turn W) (c : LiveCapture)
      → limits.retry_policy ≡ none
      → IsWithin c
      → progress_of c ≡ n
      → Advances n (refresh_failure W dates stalls limits t c [])
  refresh_failure-Advances n t c p h k =
      choose-Advances n (is_nil c.all_parts || not (is_some c.saved_room_id))
        (ends failed_capture (end_outage c)) _ (λ e. tt) (λ e. counted-Advances n t c none p h k)

  finish_offline-Advances :
      (n : ℕ) (c : LiveCapture) → Advances n (finish_offline W dates stalls limits c)
  finish_offline-Advances n c =
      choose-Advances n (is_nil c.all_parts) (ends failed_capture c) (ends (finished false) c)
        (λ e. tt) (λ e. tt)

  handle-Advances :
      (n : ℕ) (t : Turn W) (c : LiveCapture) (e : Failing)
      → limits.retry_policy ≡ none
      → IsWithin c
      → progress_of c ≡ n
      → Advances n (handle W dates stalls limits t c [] e)
  unfolding handle close_record
  handle-Advances n t c (resolution_transient kind hint) p h k =
      counted-Advances n t (close_record W t c [] resolver_error)
        (some (resolution_transient kind hint)) p
        (record { failures = h.failures; empty = h.empty }) k
  handle-Advances n t c (source_network stall e) p h k =
      counted-Advances n t (close_record W t c [] (stall_outcome W dates stalls limits stall))
        (some e) p (record { failures = h.failures; empty = h.empty }) k
  handle-Advances n t c (source_refresh stall e) p h k =
      refresh_failure-Advances n t
        (close_record W t c [] (stall_outcome W dates stalls limits stall)) p
        (record { failures = h.failures; empty = h.empty }) k
  handle-Advances n t c offline p h k =
      finish_offline-Advances n (end_outage (close_record W t c [] ended))
  handle-Advances n t c capture_stopped p h k = tt
  handle-Advances n t c keyboard_interrupt p h k = tt
  handle-Advances n t c live_changed p h k = tt
  handle-Advances n t c file_exists p h k = tt
  handle-Advances n t c resolution p h k = tt
  handle-Advances n t c (http a b) p h k = tt
  handle-Advances n t c (url_error a) p h k = tt
  handle-Advances n t c gaierror p h k = tt
  handle-Advances n t c timeout p h k = tt
  handle-Advances n t c connection p h k = tt
  handle-Advances n t c incomplete_read p h k = tt
  handle-Advances n t c eof p h k = tt
  handle-Advances n t c (os_error a b d) p h k = tt
  handle-Advances n t c other_error p h k = tt

  pub settle-Advances :
      (n : ℕ) (t : Turn W) (c : LiveCapture) (r : Result Failing (Unit {0}))
      → limits.retry_policy ≡ none
      → IsWithin c
      → progress_of c ≡ n
      → let s : Step = elim r [
        | ok u ↦ after_close W dates stalls limits t (close_record W t c [] closed) []
        | err e ↦ handle W dates stalls limits t c [] e
      ] in
        Advances n s
  settle-Advances n t c (ok u) p h k =
      after_close-Advances n t (close_record W t c [] closed)
        (unfold close_record in record { failures = h.failures; empty = h.empty })
        (unfold close_record in k)
  settle-Advances n t c (err e) p h k = handle-Advances n t c e p h k

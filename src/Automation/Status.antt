-- ===== src/Automation/Status.antt =====
-- The status fields of automatic recording (tikrec/automation_status.py).
use tik_rec.Base.{
  ℕ, ◌≡◌, ◌≢◌, ◌↔◌, sym, ◌∙◌, ==-refl, ==→eq, refl, ap, Bool, true, false, not, ◌&&◌, Option, none,
  some, List, [], ◌∷◌, ◌==◌, if◌then◌else◌, is_some, All, Bool-cases, inl, inr, arith,
}
use tik_rec.Text.{Text, text_eq, TextDict, get}
use tik_rec.Text.Laws.{text_eq_refl, eq_of_text_eq}
use tik_rec.Automation.{Observation, option_text_eq}
use tik_rec.Automation.Cycle.{
  not_applicable, blocked, suppressed, armed, Reason, same_room_consumed, service_shutting_down,
  Admitted, World, CycleResult, StartedRecording, result,
}
use tik_rec.Automation.Fill.{is_live}

-- One creator with its `automation` fields
pub record StatusItem : Type 0 where
  pub admitted : Admitted
  pub result : CycleResult
  pub is_armed : Bool
  pub consumed_room_id : Option Text

-- `item.get("room_id") if item.get("state") == "live" else None`
unfoldable pub current_room : Observation → Option Text
current_room o = if is_live o.state then o.room_id else none

-- The result of a creator that the latest cycle says nothing of
unfoldable pub default_result : Bool → Option Reason → Option Text → Option Text → CycleResult
default_result operational blocked_reason consumed none = result not_applicable none
default_result false blocked_reason consumed (some room) = result blocked blocked_reason
default_result true blocked_reason consumed (some room) =
    if option_text_eq consumed (some room)
    then result suppressed (some same_room_consumed)
    else result armed none

abbrev pub result_or : Option CycleResult → CycleResult → CycleResult
result_or none r = r
result_or (some r) d = r

-- `_status_item`
unfoldable pub status_item :
    ℕ → TextDict Text → Bool → Option Reason → ℕ → TextDict CycleResult → Admitted → StatusItem
unfolding current_room default_result
status_item cycle consumed operational blocked_reason latest cycle_results a =
    let consumed_room = get consumed a.seen.creator in
    let current = current_room a.seen in
    record {
      admitted = a;
      result =
          result_or (if cycle == latest then get cycle_results a.seen.creator else none)
            (default_result operational blocked_reason consumed_room current);
      is_armed = operational && (is_some current && not (option_text_eq consumed_room current));
      consumed_room_id = consumed_room;
    }

pub record AutomationStatus : Type 0 where
  pub operational : Bool
  pub blocked_reason : Option Reason
  pub latest_cycle_count : ℕ
  pub selected_creators : List Text
  pub started_recordings : List StartedRecording
  pub selected_creator : Option Text
  pub started_creator : Option Text
  pub started_session_id : Option Text
  pub started_output_path : Option Text
  pub creators : List StatusItem

abbrev pub single {ℓ} : {A : Type ℓ} → List A → Option A
single (a ∷ []) = some a
single _ = none

abbrev pub field_of : (StartedRecording → Option Text) → Option StartedRecording → Option Text
field_of f none = none
field_of f (some r) = f r

unfoldable pub status_items : {S : Type 0} → ℕ → World S → List Admitted → List StatusItem
unfolding status_item
status_items cycle w [] = []
status_items cycle w (a ∷ as') =
    status_item cycle w.state.consumed_rooms (w.operational && not w.stopping)
      (if w.stopping then some service_shutting_down else w.blocked_reason) w.latest_cycle_count
      w.cycle_results a
    ∷ status_items cycle w as'

-- `automation_snapshot` of a coordinator, with the cycle of the admitted snapshot
unfoldable pub automation_snapshot : {S : Type 0} → ℕ → List Admitted → World S → AutomationStatus
unfolding status_items
automation_snapshot cycle admitted w = record {
  operational = w.operational && not w.stopping;
  blocked_reason = if w.stopping then some service_shutting_down else w.blocked_reason;
  latest_cycle_count = w.latest_cycle_count;
  selected_creators = w.selected_creators;
  started_recordings = w.started_recordings;
  selected_creator = single w.selected_creators;
  started_creator = field_of (λ r. some r.creator) (single w.started_recordings);
  started_session_id = field_of (λ r. r.session_id) (single w.started_recordings);
  started_output_path = field_of (λ r. some r.output_path) (single w.started_recordings);
  creators = status_items cycle w admitted;
}

-- A creator is shown as armed where the coordinator works and is not stopping, the creator is LIVE in
-- some room, and that room does not count as started. The result is that of the latest cycle, where the
-- snapshot is of that cycle and the cycle has one for the creator; otherwise it is `armed` exactly where
-- the creator is shown as armed.
pub record IsShown {S : Type 0} (cycle : ℕ) (w : World S) (x : StatusItem) : Type 0 where
  pub consumed : x.consumed_room_id ≡ get w.state.consumed_rooms x.admitted.seen.creator
  pub active : x.is_armed ≡ true → (w.operational ≡ true) × (w.stopping ≡ false)
  pub in_new_room :
      x.is_armed ≡ true
      → (is_live x.admitted.seen.state ≡ true)
        × ((r : Text) × (x.admitted.seen.room_id ≡ some r)
            × (get w.state.consumed_rooms x.admitted.seen.creator ≢ some r))
  pub ready_for_new :
      (r : Text)
      → w.operational ≡ true
      → w.stopping ≡ false
      → is_live x.admitted.seen.state ≡ true
      → x.admitted.seen.room_id ≡ some r
      → get w.state.consumed_rooms x.admitted.seen.creator ≢ some r
      → x.is_armed ≡ true
  pub decided :
      (r : CycleResult)
      → cycle ≡ w.latest_cycle_count
      → get w.cycle_results x.admitted.seen.creator ≡ some r
      → x.result ≡ r
  pub undecided :
      (cycle ≡ w.latest_cycle_count → get w.cycle_results x.admitted.seen.creator ≡ none)
      → (x.is_armed ≡ true) ↔ (x.result ≡ result armed none)

option_text_eq-false : (o : Option Text) (r : Text) → o ≢ some r → option_text_eq o (some r) ≡ false
option_text_eq-false none r h = refl
option_text_eq-false (some t) r h = elim (Bool-cases (text_eq t r)) [
  | inl same ↦ absurd (h (ap some (eq_of_text_eq t r same)))
  | inr other ↦ other
]

-- `armed`, by the facts that decide it
abbrev is_armed_by : Bool → Bool → Bool → Option Text → Option Text → Bool
is_armed_by operational stopping live_now room consumed =
    (operational && not stopping)
    && (is_some (if live_now then room else none)
        && not (option_text_eq consumed (if live_now then room else none)))

armed-new :
    (o s l : Bool) (room consumed : Option Text)
    → is_armed_by o s l room consumed ≡ true
    → (o ≡ true) × (s ≡ false) × (l ≡ true) × ((r : Text) × (room ≡ some r) × (consumed ≢ some r))
armed-new false s l room consumed h = cc
armed-new true true l room consumed h = cc
armed-new true false false room consumed h = cc
armed-new true false true none consumed h = cc
armed-new true false true (some r) consumed h = (
  refl,
  refl,
  refl,
  (
    r,
    refl,
    λ e. let same : option_text_eq consumed (some r) ≡ true = rw e (text_eq_refl r) in ground arith,
  ),
)

new-armed :
    (o s l : Bool) (room consumed : Option Text) (r : Text)
    → o ≡ true
    → s ≡ false
    → l ≡ true
    → room ≡ some r
    → consumed ≢ some r
    → is_armed_by o s l room consumed ≡ true
new-armed o s l room consumed r ho hs hl hr fresh =
    rw (ho, hs, hl, hr, option_text_eq-false consumed r fresh) refl

-- Without a result of the cycle both fields say the same.
armed-default :
    (o s l : Bool) (blocked_by : Option Reason) (room consumed : Option Text)
    → (is_armed_by o s l room consumed ≡ true) ↔ (
        default_result (o && not s) blocked_by consumed (if l then room else none)
        ≡ result armed none)
unfolding default_result
armed-default o s false b room consumed = (by_service (o && not s), λ h. cc (h))
  where
    by_service : (a : Bool) → (a && false) ≡ true → result not_applicable none ≡ result armed none
    by_service true h = cc (h)
    by_service false h = cc (h)
armed-default o s true b none consumed = (by_service (o && not s), λ h. cc (h))
  where
    by_service : (a : Bool) → (a && false) ≡ true → result not_applicable none ≡ result armed none
    by_service true h = cc (h)
    by_service false h = cc (h)
armed-default o s true b (some room) consumed = by_service (o && not s)
  where
    by_room :
        (same : Bool)
        → (not same ≡ true) ↔ (
            (if same then result suppressed (some same_room_consumed) else result armed none)
            ≡ result armed none)
    by_room true = (λ h. cc (h), λ h. cc (h))
    by_room false = (λ h. refl, λ h. refl)

    by_service :
        (a : Bool)
        → ((a && (true && not (option_text_eq consumed (some room)))) ≡ true)
          ↔ (default_result a b consumed (some room) ≡ result armed none)
    by_service false = (λ h. cc (h), λ h. cc (h))
    by_service true = by_room (option_text_eq consumed (some room))

result_or-some :
    (b : Bool) (found : Option CycleResult) (d r : CycleResult)
    → b ≡ true
    → found ≡ some r
    → result_or (if b then found else none) d ≡ r
result_or-some b found d r h e = rw (h, e) refl

result_or-none :
    (cycle latest : ℕ) (found : Option CycleResult) (d : CycleResult)
    → (cycle ≡ latest → found ≡ none)
    → result_or (if cycle == latest then found else none) d ≡ d
result_or-none cycle latest found d h = elim (Bool-cases (cycle == latest)) [
  | inl same ↦ rw (same, h (==→eq cycle latest same)) refl
  | inr other ↦ rw other refl
]

status_item-IsShown :
    {S : Type 0} (cycle : ℕ) (w : World S) (a : Admitted)
    → IsShown cycle w (
        status_item cycle w.state.consumed_rooms
          (w.operational && not w.stopping)
          (if w.stopping then some service_shutting_down else w.blocked_reason)
          w.latest_cycle_count
          w.cycle_results
          a)
unfolding status_item current_room
status_item-IsShown cycle w a =
    let consumed = get w.state.consumed_rooms a.seen.creator in
    let parts = armed-new w.operational w.stopping (is_live a.seen.state) a.seen.room_id consumed in
    record {
      consumed = refl;
      active = λ h. ((parts h).0, (parts h).1);
      in_new_room = λ h. ((parts h).2, (parts h).3);
      ready_for_new = λ r ho hs hl hr fresh.
          new-armed w.operational w.stopping (is_live a.seen.state) a.seen.room_id consumed r ho hs
            hl hr fresh;
      decided = λ r same found.
          result_or-some (cycle == w.latest_cycle_count) _ _ r
            (ap (λ n. cycle == n) (sym same) ∙ ==-refl cycle) found;
      undecided = λ h.
          let shown =
            result_or-none cycle w.latest_cycle_count (get w.cycle_results a.seen.creator) _ h in
          let both =
            armed-default w.operational w.stopping (is_live a.seen.state)
              (if w.stopping then some service_shutting_down else w.blocked_reason) a.seen.room_id
              consumed in
          (λ k. shown ∙ both.0 k, λ k. both.1 (sym shown ∙ k));
    }

status_items-IsShown :
    {S : Type 0} (cycle : ℕ) (w : World S) (as' : List Admitted)
    → All (IsShown cycle w) (status_items cycle w as')
unfolding status_items
status_items-IsShown cycle w [] = tt
status_items-IsShown cycle w (a ∷ as') =
    (status_item-IsShown cycle w a, status_items-IsShown cycle w as')

-- The creators that are shown, as they were admitted
abbrev pub admitted_of : List StatusItem → List Admitted
admitted_of [] = []
admitted_of (x ∷ xs) = x.admitted ∷ admitted_of xs

status_items-admitted :
    {S : Type 0} (cycle : ℕ) (w : World S) (as' : List Admitted)
    → admitted_of (status_items cycle w as') ≡ as'
unfolding status_items status_item
status_items-admitted cycle w [] = refl
status_items-admitted cycle w (a ∷ as') = ap (λ x. a ∷ x) (status_items-admitted cycle w as')

-- Each creator that was admitted is shown, in order. One is shown as armed exactly where the coordinator
-- works and is not stopping, the creator is LIVE in some room, and that room does not count as started;
-- the consumed room is the coordinator's. Its result is that of the latest cycle, where there is one, and
-- otherwise is `armed` exactly where the creator is shown as armed.
pub automation_snapshot-IsShown :
    {S : Type 0} (cycle : ℕ) (admitted : List Admitted) (w : World S)
    → (admitted_of (automation_snapshot cycle admitted w).creators ≡ admitted)
      × All (IsShown cycle w) (automation_snapshot cycle admitted w).creators
unfolding automation_snapshot
automation_snapshot-IsShown cycle admitted w =
    (status_items-admitted cycle w admitted, status_items-IsShown cycle w admitted)

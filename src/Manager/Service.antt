-- ===== src/Manager/Service.antt =====
-- The slots of the service: tikrec/recording_manager.py. A slot is its number.
use tik_rec.Base.{
  ℕ, suc, Bool, true, false, not, ◌||◌, Option, none, some, List, [], ◌∷◌, ltb, length,
  if◌then◌else◌, map, Result, ok, err, ◌>>=◌,
}
use tik_rec.Text.{Text}
use tik_rec.Identity.{is_uuid}
use tik_rec.Manager.{
  Field, missing, text, unavailable, is_idle, is_unavailable, Named, Status, Health, Paths, is_true,
  owns_current_work, OwnerCache, Reads, refresh,
}

abbrev pub no_names : Named
no_names = record {
  session_id = missing;
  source_url = missing;
  room_id = missing;
  output_path = missing;
  parts_directory = missing;
}

-- `_safe_status`
abbrev pub safe_status : Option Status → Status
safe_status none = record {
  state = unavailable;
  active = false;
  started_at = none;
  named = no_names;
}
safe_status (some s) = s

-- `_safe_health`
abbrev pub safe_health : Option Health → Health
safe_health none = record { available = some false; active = some false; ownership_unknown = false }
safe_health (some h) = h

-- An entry of `_entries`; the controller is the one of its slot.
pub record Entry : Type 0 where
  pub slot : ℕ
  pub status : Status
  pub health : Health

-- The changes of the health in the loop of `_entries`
abbrev pub unless_available : Status → Health → Health
unless_available status health =
    if is_unavailable status.state then record health { available = some false } else health

abbrev pub mark_unknown : Bool → Health → Health
mark_unknown uncertain health =
    if uncertain then record health { ownership_unknown = true } else health

unfoldable pub entry_of : ℕ → Status → Health → Bool → Entry
entry_of slot status health uncertain = record {
  slot = slot;
  status = status;
  health = mark_unknown uncertain (unless_available status health);
}

-- The loop of `_entries`, from a slot on
unfoldable pub read_slots : Paths → OwnerCache → ℕ → List Reads → List Entry × OwnerCache
unfolding entry_of refresh
read_slots paths owners slot [] = ([], owners)
read_slots paths owners slot (r ∷ rs) =
    let status = safe_status r.status in
    let health = safe_health r.health in
    let refreshed = refresh paths owners slot status health r in
    let rest = read_slots paths refreshed.1 (suc slot) rs in
    (entry_of slot status health refreshed.0 ∷ rest.0, rest.1)

abbrev pub any_entry : (Entry → Bool) → List Entry → Bool
any_entry p [] = false
any_entry p (e ∷ es) = p e || any_entry p es

abbrev pub is_unknown : Entry → Bool
is_unknown e = e.health.ownership_unknown

abbrev pub closed_entry : Entry → Entry
closed_entry e = record {
  slot = e.slot;
  status = e.status;
  health = record e.health { available = some false };
}

abbrev pub fail_closed : List Entry → List Entry
fail_closed es = if any_entry is_unknown es then map closed_entry es else es

-- `_entries`
unfoldable pub entries : Paths → OwnerCache → List Reads → List Entry × OwnerCache
unfolding read_slots
entries paths owners rs = let read = read_slots paths owners 1 rs in (fail_closed read.0, read.1)

-- `RecordingManager`, without its controllers
pub record RecordingManager : Type 0 where
  pub closed : Bool
  pub owners : OwnerCache

abbrev pub owns : Entry → Bool
owns e = owns_current_work e.status e.health

abbrev pub is_available : Entry → Bool
is_available e = is_true e.health.available

abbrev pub filter : (Entry → Bool) → List Entry → List Entry
filter p [] = []
filter p (e ∷ es) = if p e then e ∷ filter p es else filter p es

-- `next((entry for entry in entries if …), None)`
abbrev pub first_entry : (Entry → Bool) → List Entry → Option Entry
first_entry p [] = none
first_entry p (e ∷ es) = if p e then some e else first_entry p es

abbrev pub count_entries : (Entry → Bool) → List Entry → ℕ
count_entries p [] = 0
count_entries p (e ∷ es) = if p e then suc (count_entries p es) else count_entries p es

-- The numbers of `health`; `active` of a slot is the one of its health.
pub record ManagerHealth : Type 0 where
  pub capacity : ℕ
  pub active_count : ℕ
  pub available_slots : ℕ
  pub available : Bool
  pub active : Bool
  pub shutting_down : Bool

abbrev pub is_active : Entry → Bool
is_active e = is_true e.health.active

unfoldable pub available_of : Bool → List Entry → ℕ
available_of closed es = if closed then 0 else count_entries is_available es

-- `health`, without the slots
unfoldable pub health : Paths → RecordingManager → List Reads → ManagerHealth × RecordingManager
unfolding entries available_of
health paths m rs =
    let read = entries paths m.owners rs in
    let available = available_of m.closed read.0 in
    let active = count_entries is_active read.0 in
    (
      record {
        capacity = length rs;
        active_count = active;
        available_slots = available;
        available = ltb 0 available;
        active = ltb 0 active;
        shutting_down = m.closed;
      },
      record m { owners = read.1 },
    )

pub data ManagerError : Type 0 where
  bad_page bad_room bad_output bad_session shutting_down ownership_unavailable output_owned
        parts_owned page_owned room_owned capacity_unavailable ambiguous not_found
        controller_failed :
      ManagerError

-- `_session_id`
unfoldable pub session_id_of : Field → Result ManagerError Text
session_id_of (text s) = if is_uuid s then ok s else err bad_session
session_id_of _ = err bad_session

-- `None if status.get("state") == "idle" else _session_id(…)`
unfoldable pub prior_of : Option Entry → Result ManagerError (Option Text)
unfolding session_id_of
prior_of none = err capacity_unavailable
prior_of (some e) =
    if is_idle e.status.state
    then ok none
    else session_id_of e.status.named.session_id >>= λ s. ok (some s)

-- `prior_session_id_for_start`
unfoldable pub prior_session_id_for_start :
    Paths → RecordingManager → List Reads → Result ManagerError (Option Text)
unfolding entries prior_of
prior_session_id_for_start paths m rs =
    prior_of (first_entry is_available (entries paths m.owners rs).0)

-- `max(non_idle, key=…)`: the first of the latest; a status with no number is before all others.
abbrev pub later_than : Option ℕ → Option ℕ → Bool
later_than none _ = false
later_than (some a) none = true
later_than (some a) (some b) = ltb b a

unfoldable pub latest : Entry → List Entry → Entry
latest e [] = e
latest e (x ∷ xs) = latest (if later_than x.status.started_at e.status.started_at then x else e) xs

abbrev pub is_not_idle : Entry → Bool
is_not_idle e = not (is_idle e.status.state)

-- `status_unlocked`: the entry whose status is shown; there is at least one slot.
abbrev pub latest_or : Option Entry → List Entry → Option Entry
latest_or fallback [] = fallback
latest_or fallback (e ∷ es) = some (latest e es)

abbrev pub head_entry : List Entry → Option Entry
head_entry [] = none
head_entry (e ∷ es) = some e

unfoldable pub status_unlocked : List Entry → Option Entry
unfolding latest
status_unlocked es = latest_or (head_entry es) (filter is_not_idle es)

abbrev pub status_of_owned : List Entry → List Entry → Result ManagerError (Option Entry)
status_of_owned es [] = ok (status_unlocked es)
status_of_owned es (e ∷ []) = ok (some e)
status_of_owned es _ = err ambiguous

-- `status`
unfoldable pub status : Paths → RecordingManager → List Reads → Result ManagerError (Option Entry)
unfolding entries status_unlocked
status paths m rs = let es = (entries paths m.owners rs).0 in status_of_owned es (filter owns es)

-- `shutdown`, for the manager itself
unfoldable pub shutdown : RecordingManager → RecordingManager
shutdown m = record m { closed = true }

-- The numbers of `recordings`
pub record Recordings : Type 0 where
  pub capacity : ℕ
  pub active_count : ℕ
  pub available_slots : ℕ
  pub slots : List Entry

-- `recordings`
unfoldable pub recordings : Paths → RecordingManager → List Reads → Recordings
unfolding entries available_of
recordings paths m rs =
    let es = (entries paths m.owners rs).0 in
    record {
      capacity = length rs;
      active_count = count_entries (λ e. e.status.active) es;
      available_slots = available_of m.closed es;
      slots = es;
    }

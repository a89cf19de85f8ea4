-- ===== src/Manager/Starts.antt =====
-- `start` and `stop` of tikrec/recording_manager.py. A call of a controller is returned beside the result.
use tik_rec.Base.{
  ℕ, Bool, false, ◌||◌, Option, none, some, List, [], ◌∷◌, if◌then◌else◌, Result, ok, err, ◌>>=◌,
  ◌>>◌, raise_if,
}
use tik_rec.Base.Dict.{get, put}
use tik_rec.Text.{Text, text_eq}
use tik_rec.Identity.{canonical_room_id}
use tik_rec.Pages.{normalize_live_url, page_identity, same_page}
use tik_rec.Automation.{option_text_eq}
use tik_rec.Manager.{
  text, field_text, Named, Status, CurrentOwner, Paths, same_path_or_none, OwnerCache, Reads,
}
use tik_rec.Manager.Service.{
  Entry, RecordingManager, ManagerError, bad_page, bad_room, bad_output, shutting_down,
  ownership_unavailable, output_owned, parts_owned, page_owned, room_owned, capacity_unavailable,
  ambiguous, not_found, controller_failed, session_id_of, entries, filter, first_entry, any_entry,
  is_unknown, is_available, owns,
}

-- What `start` is asked for, once its arguments are canonical.
pub record Request : Type 0 where
  pub page : Text
  pub identity : Text
  pub expected_room : Option Text
  pub output_path : Text
  pub parts_path : Text

-- `canonical_room_id` of the expected room, where there is one
abbrev pub ok_or {ℓ} : {A : Type ℓ} → ManagerError → Option A → Result ManagerError A
ok_or e none = err e
ok_or e (some a) = ok a

unfoldable pub canonical_expected : Option Text → Result ManagerError (Option Text)
canonical_expected none = ok none
canonical_expected (some r) = ok_or bad_room (canonical_room_id r) >>= λ room. ok (some room)

-- The arguments of `start`, before the lock
unfoldable pub request_of : Paths → Text → Text → Option Text → Result ManagerError Request
unfolding canonical_expected normalize_live_url page_identity
request_of paths url output expected = do
  page ← ok_or bad_page (normalize_live_url url)
  room ← canonical_expected expected
  parts ← ok_or bad_output (paths.parts_of output)
  ok (record {
    page = page;
    identity = page_identity page;
    expected_room = room;
    output_path = paths.lexical output;
    parts_path = parts;
  })

abbrev pub owner_path : (CurrentOwner → Option Text) → Option CurrentOwner → Option Text
owner_path field none = none
owner_path field (some o) = field o

abbrev pub has_page : Option CurrentOwner → Text → Bool
has_page none page = false
has_page (some o) page = text_eq o.page page

abbrev pub field_page : Option Text → Text → Bool
field_page none page = false
field_page (some s) page = same_page s page

abbrev pub field_room : Option Text → Text → Bool
field_room none room = false
field_room (some s) room = option_text_eq (canonical_room_id s) (some room)

abbrev pub has_room : Status → Option CurrentOwner → Option Text → Bool
has_room s o none = false
has_room s o (some room) =
    field_room (field_text s.named.room_id) room
    || option_text_eq (owner_path (λ x. x.room_id) o) (some room)

-- The tests of one slot in `start`, by the status and the owner of the slot
unfoldable pub check_owner :
    Paths → Request → Status → Option CurrentOwner → Result ManagerError (Unit {0})
check_owner paths q s o = do
  raise_if
      (same_path_or_none paths (field_text s.named.output_path) q.output_path
        || same_path_or_none paths (owner_path (λ x. x.output_path) o) q.output_path)
      output_owned
  raise_if
      (same_path_or_none paths (field_text s.named.parts_directory) q.parts_path
        || same_path_or_none paths (owner_path (λ x. x.parts_directory) o) q.parts_path)
      parts_owned
  raise_if (field_page (field_text s.named.source_url) q.identity || has_page o q.identity)
      page_owned
  raise_if (has_room s o q.expected_room) room_owned

-- The loop over the slots in `start`
unfoldable pub check_slots :
    Paths → Request → OwnerCache → List Entry → Result ManagerError (Unit {0})
unfolding check_owner
check_slots paths q owners [] = ok tt
check_slots paths q owners (e ∷ es) = do
  if owns e then check_owner paths q e.status (get owners e.slot) else ok tt
  check_slots paths q owners es

-- The slot that `start` selects
unfoldable pub select_slot : Paths → Request → OwnerCache → List Entry → Result ManagerError Entry
unfolding check_slots
select_slot paths q owners es = do
  raise_if (any_entry is_unknown es) ownership_unavailable
  check_slots paths q owners es
  ok_or capacity_unavailable (first_entry is_available es)

-- What `start` does: the call of a controller, if there is one, the result, and the manager.
pub record Started : Type 0 where
  pub call : Option (ℕ × Request)
  pub result : Result ManagerError (ℕ × Named)
  pub manager : RecordingManager

unfoldable pub claim : Request → Text → CurrentOwner
claim q session = record {
  session_id = session;
  page = q.identity;
  room_id = q.expected_room;
  output_path = some q.output_path;
  parts_directory = some q.parts_path;
}

-- The claim of an accepted session
unfoldable pub claim_session :
    RecordingManager → Request → ℕ → Named → Result ManagerError Text → Started
unfolding claim
claim_session m q slot n (err e) = record { call = some (slot, q); result = err e; manager = m }
claim_session m q slot n (ok session) = record {
  call = some (slot, q);
  result = ok (slot, n);
  manager = record m { owners = put m.owners slot (claim q session) };
}

-- The reply of `controller.start`: `none` is an exception.
unfoldable pub accept : RecordingManager → Request → ℕ → Option Named → Started
unfolding claim_session session_id_of
accept m q slot none = record { call = some (slot, q); result = err controller_failed; manager = m }
accept m q slot (some n) = claim_session m q slot n (session_id_of n.session_id)

unfoldable pub start_selected :
    RecordingManager → Request → Option Named → Result ManagerError Entry → Started
unfolding accept
start_selected m q reply (err e) = record { call = none; result = err e; manager = m }
start_selected m q reply (ok e) = accept m q e.slot reply

unfoldable pub start_request :
    Paths → RecordingManager → List Reads → Option Named → Request → Started
unfolding start_selected select_slot entries
start_request paths m rs reply q =
    let read = entries paths m.owners rs in
    if m.closed
    then start_selected m q reply (err shutting_down)
    else start_selected (record m { owners = read.1 }) q reply (select_slot paths q read.1 read.0)

abbrev pub start_result :
    Paths → RecordingManager → List Reads → Option Named → Result ManagerError Request → Started
start_result paths m rs reply (err e) = record { call = none; result = err e; manager = m }
start_result paths m rs reply (ok q) = start_request paths m rs reply q

-- `start`
unfoldable pub start :
    Paths → RecordingManager → List Reads → Option Named → Text → Text → Option Text → Started
unfolding start_request request_of
start paths m rs reply url output expected =
    start_result paths m rs reply (request_of paths url output expected)

-- Which slot `stop` stops; `none` is the answer of `status_unlocked`.
abbrev pub sole_owner : List Entry → Result ManagerError (Option Entry)
sole_owner [] = ok none
sole_owner (e ∷ []) = ok (some e)
sole_owner _ = err ambiguous

abbrev pub is_session : Text → Entry → Bool
is_session s e = option_text_eq (field_text e.status.named.session_id) (some s)

abbrev pub found_session : Option Entry → Result ManagerError (Option Entry)
found_session none = err not_found
found_session (some e) = ok (some e)

unfoldable pub stop_choice : List Entry → Option Text → Result ManagerError (Option Entry)
stop_choice owned none = sole_owner owned
stop_choice owned (some s) = found_session (first_entry (is_session s) owned)

-- `stop`: the slot whose controller is stopped
unfoldable pub stop :
    Paths → RecordingManager → List Reads → Option Text → Result ManagerError (Option Entry)
unfolding stop_choice entries session_id_of
stop paths m rs none = stop_choice (filter owns (entries paths m.owners rs).0) none
stop paths m rs (some s) = session_id_of (text s) >>= λ session.
    stop_choice (filter owns (entries paths m.owners rs).0) (some session)

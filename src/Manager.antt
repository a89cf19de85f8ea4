-- ===== src/Manager.antt =====
-- Who owns the slots of the service: tikrec/recording_ownership.py. What the reads of a controller
-- answer is an argument, since its worker may change between any two of them; the rules of paths are
-- the platform's.
pub mod Service
pub mod Starts
pub mod Owners
pub mod Known
pub mod Apart
pub mod Exclusive
pub mod Lacks
pub mod Capacity
pub mod Stopping
mod Tests
use tik_rec.Base.{
  ℕ, suc, Bool, true, false, not, ◌&&◌, ◌||◌, Option, none, some, List, [], ◌∷◌, if◌then◌else◌,
  is_some, map,
}
use tik_rec.Base.Dict.{Dict, get, put, pop}
use tik_rec.Text.{Text, text_eq}
use tik_rec.Identity.{canonical_room_id, is_uuid}
use tik_rec.Pages.{normalize_live_url, page_identity, identity_of}
use tik_rec.Automation.{option_text_eq}

-- A field of a dict: not there, None, a text, or another value.
pub data Field : Type 0 where
  missing null not_text : Field
  text : Text → Field

abbrev pub field_text : Field → Option Text
field_text (text s) = some s
field_text _ = none

-- The values of `state` that the manager tells apart.
pub data SlotState : Type 0 where
  idle unavailable other : SlotState

abbrev pub is_idle : SlotState → Bool
is_idle idle = true
is_idle _ = false

abbrev pub is_unavailable : SlotState → Bool
is_unavailable unavailable = true
is_unavailable _ = false

-- The facts that name a session, in a status or in a snapshot of the ownership.
pub record Named : Type 0 where
  pub session_id : Field
  pub source_url : Field
  pub room_id : Field
  pub output_path : Field
  pub parts_directory : Field

-- A controller's status; `active` says whether the value is `True`, and `started_at` is a number.
pub record Status : Type 0 where
  pub state : SlotState
  pub active : Bool
  pub started_at : Option ℕ
  pub named : Named

-- A controller's health: the values that are `True` or `False`.
pub record Health : Type 0 where
  pub available : Option Bool
  pub active : Option Bool
  pub ownership_unknown : Bool

-- `ownership()`: `current` is `none` where it is no Boolean.
pub record Snapshot : Type 0 where
  pub current : Option Bool
  pub named : Named

-- `CurrentOwner`
pub record CurrentOwner : Type 0 where
  pub session_id : Text
  pub page : Text
  pub room_id : Option Text
  pub output_path : Option Text
  pub parts_directory : Option Text

-- `Path` operations. `resolve` is `none` where an OSError is raised; `lexical` is `str(Path(…))`, and
-- `is_local` the tests of `_local_path` behind the one for an empty text.
pub record Paths : Type 0 where
  pub resolve : Text → Option Text
  pub lexical : Text → Text
  pub parts_of : Text → Option Text
  pub is_local_output : Text → Bool
  pub is_local : Text → Bool

abbrev pub is_true : Option Bool → Bool
is_true none = false
is_true (some b) = b

abbrev pub is_false : Option Bool → Bool
is_false none = false
is_false (some b) = not b

-- `_owns_current_work`
unfoldable pub owns_current_work : Status → Health → Bool
owns_current_work status health =
    status.active || (is_false health.available && not (is_idle status.state))

-- `same_path` of a text
abbrev pub same_resolved : Option Text → Option Text → Bool → Bool
same_resolved (some a) (some b) lexically = text_eq a b
same_resolved _ _ lexically = lexically

unfoldable pub same_path : Paths → Text → Text → Bool
same_path paths value candidate =
    same_resolved (paths.resolve value) (paths.resolve candidate)
      (text_eq (paths.lexical value) (paths.lexical candidate))

abbrev pub same_path_or_none : Paths → Option Text → Text → Bool
same_path_or_none paths none candidate = false
same_path_or_none paths (some value) candidate = same_path paths value candidate

-- `_local_path`: the path where the tests accept it
abbrev pub local_path : (Text → Bool) → Field → Option Text
local_path accepts (text []) = none
local_path accepts (text (c ∷ s)) = if accepts (c ∷ s) then some (c ∷ s) else none
local_path accepts _ = none

-- The room in `_facts`: the outer `none` is the exception, or a key that is not there.
abbrev pub room_or_none : Option Text → Option (Option Text)
room_or_none none = none
room_or_none (some room) = some (some room)

abbrev pub room_fact : Field → Option (Option Text)
room_fact null = some none
room_fact (text s) = room_or_none (canonical_room_id s)
room_fact _ = none

abbrev pub page_fact : Field → Option Text
page_fact (text s) = identity_of (normalize_live_url s)
page_fact _ = none

abbrev pub session_fact : Field → Option Text
session_fact (text s) = if is_uuid s then some s else none
session_fact _ = none

abbrev pub owner_of :
    Option Text
    → Option Text
    → Option (Option Text)
    → Option Text
    → Option Text
    → Option CurrentOwner
owner_of (some session) (some page) (some room) output parts = some (record {
  session_id = session;
  page = page;
  room_id = room;
  output_path = output;
  parts_directory = parts;
})
owner_of _ _ _ output parts = none

-- `_facts`
unfoldable pub facts : Paths → Named → Option CurrentOwner
facts paths n =
    owner_of (session_fact n.session_id) (page_fact n.source_url) (room_fact n.room_id)
      (local_path paths.is_local_output n.output_path) (local_path paths.is_local n.parts_directory)

abbrev pub or_prior : Option Text → Option Text → Option Text
or_prior (some s) prior = some s
or_prior none prior = prior

-- Both are there and they differ.
abbrev pub differs : (Text → Text → Bool) → Option Text → Option Text → Bool
differs same (some a) (some b) = not (same a b)
differs same _ _ = false

-- The facts and the owner of before, in one session, contradict each other.
unfoldable pub contradicts : Paths → CurrentOwner → CurrentOwner → Bool
contradicts paths prior new =
    not (text_eq prior.page new.page)
    || (differs text_eq prior.room_id new.room_id
        || (differs (same_path paths) prior.output_path new.output_path
            || differs (same_path paths) prior.parts_directory new.parts_directory))

unfoldable pub enriched : CurrentOwner → CurrentOwner → CurrentOwner
enriched prior new = record {
  session_id = new.session_id;
  page = new.page;
  room_id = or_prior new.room_id prior.room_id;
  output_path = or_prior new.output_path prior.output_path;
  parts_directory = or_prior new.parts_directory prior.parts_directory;
}

abbrev pub lacks_path : CurrentOwner → Bool
lacks_path o = not (is_some o.output_path) || not (is_some o.parts_directory)

abbrev pub OwnerCache : Type 0
OwnerCache = Dict CurrentOwner

-- The end of `_merge`
abbrev pub store : OwnerCache → ℕ → CurrentOwner → Bool × OwnerCache
store owners slot new = (lacks_path new, put owners slot new)

-- `_merge`: whether the slot is uncertain, and the owners. `or_prior` reads an empty text as there;
-- `canonical_room_id` and `_local_path` return none.
unfoldable pub merge_with :
    Paths → OwnerCache → ℕ → Option CurrentOwner → CurrentOwner → Bool × OwnerCache
unfolding contradicts enriched
merge_with paths owners slot none new = store owners slot new
merge_with paths owners slot (some prior) new =
    if text_eq prior.session_id new.session_id
    then if contradicts paths prior new
      then (true, owners)
      else store owners slot (enriched prior new)
    else store owners slot new

unfoldable pub merge : Paths → OwnerCache → ℕ → CurrentOwner → Bool × OwnerCache
unfolding merge_with
merge paths owners slot new = merge_with paths owners slot (get owners slot) new

-- What the reads of one controller answer, in their order: `none` is an exception or, for the snapshot
-- and the second look at the health, a value that is no dict.
pub record Reads : Type 0 where
  pub status : Option Status
  pub health : Option Health
  pub snapshot : Option Snapshot
  pub settled : Option Health

-- The facts of a status, or of a snapshot, that is current; without facts the slot is uncertain.
abbrev pub merge_facts : Paths → OwnerCache → ℕ → Option CurrentOwner → Bool × OwnerCache
merge_facts paths owners slot none = (true, owners)
merge_facts paths owners slot (some new) = merge paths owners slot new

unfoldable pub status_facts : Paths → OwnerCache → ℕ → Status → Bool → Bool × OwnerCache
unfolding facts merge
status_facts paths owners slot status current =
    if not (is_unavailable status.state) && current
    then merge_facts paths owners slot (facts paths status.named)
    else (false, owners)

-- The end of `refresh`, where no snapshot has decided
abbrev pub lacks_fact : Option CurrentOwner → Health → Bool
lacks_fact none health = is_true health.active || not (is_true health.available)
lacks_fact (some o) health = not (is_some o.room_id) || lacks_path o

unfoldable pub without_snapshot : OwnerCache → ℕ → Status → Health → Bool → Bool → Bool × OwnerCache
without_snapshot owners slot status health current uncertain =
    if is_unavailable status.state
    then (lacks_fact (get owners slot) health, owners)
    else if current
    then (uncertain || not (is_some (get owners slot)), owners)
    else (false, pop owners slot)

-- A snapshot that is not current: the slot is settled where its health says so, now or at a second look.
abbrev pub is_inactive : Option Health → Bool
is_inactive none = false
is_inactive (some h) = is_false h.active

abbrev pub is_settled : Health → Option Health → Bool
is_settled health settled = not (is_true health.active) || is_inactive settled

unfoldable pub with_current :
    Paths
    → OwnerCache
    → ℕ
    → Status
    → Reads
    → Health
    → Bool
    → Bool
    → Named
    → Option Bool
    → Bool × OwnerCache
unfolding facts without_snapshot merge
with_current paths owners slot status r health current uncertain n none =
    without_snapshot owners slot status health current uncertain
with_current paths owners slot status r health current uncertain n (some true) =
    merge_facts paths owners slot (facts paths n)
with_current paths owners slot status r health current uncertain n (some false) =
    if is_settled health r.settled then (false, pop owners slot) else (true, owners)

abbrev pub with_snapshot :
    Paths
    → OwnerCache
    → ℕ
    → Status
    → Reads
    → Health
    → Bool
    → Bool
    → Option Snapshot
    → Bool × OwnerCache
with_snapshot paths owners slot status r health current uncertain none =
    without_snapshot owners slot status health current uncertain
with_snapshot paths owners slot status r health current uncertain (some x) =
    with_current paths owners slot status r health current uncertain x.named x.current

-- `refresh`: whether the slot is uncertain, and the owners
unfoldable pub refresh : Paths → OwnerCache → ℕ → Status → Health → Reads → Bool × OwnerCache
unfolding status_facts with_current owns_current_work
refresh paths owners slot status health r =
    let current = owns_current_work status health in
    let first = status_facts paths owners slot status current in
    with_snapshot paths first.1 slot status r health current first.0 r.snapshot

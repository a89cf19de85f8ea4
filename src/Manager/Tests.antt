-- ===== src/Manager/Tests.antt =====
-- A service with two slots, one of them busy.
use tik_rec.Base.{◌≤◌, ◌≡◌, refl, true, false, Option, none, some, [], ◌∷◌, ◌++◌, ok}
use tik_rec.Text.{Text, codes}
use tik_rec.Identity.{canonical_room_id, is_uuid, strip_zeros}
use tik_rec.Pages.{
  strip_front, without_breaks, behind, behind_scheme, before, from_first, names_live, rstrip_slash,
  page_of_path, page_of_rest, normalize_live_url, page_identity, same_page,
}
use tik_rec.Manager.{
  text, idle, other, Named, Status, Health, CurrentOwner, Paths, owns_current_work, same_path,
  facts, contradicts, enriched, merge_with, merge, Reads, status_facts, without_snapshot,
  with_current, refresh,
}
use tik_rec.Manager.Owners.{MergesTo, merge-MergesTo}
use tik_rec.Manager.Known.{IsClear, refresh-IsClear}
use tik_rec.Manager.Service.{
  is_available, no_names, Entry, entry_of, read_slots, entries, RecordingManager, health, prior_of,
  prior_session_id_for_start, session_id_of,
}
use tik_rec.Manager.Starts.{
  Request, request_of, canonical_expected, check_owner, check_slots, select_slot, claim,
  claim_session, accept, start_selected, start_request, start, stop_choice, stop,
}
use tik_rec.Manager.Exclusive.{IsExclusive, start-IsExclusive}
use tik_rec.Manager.Lacks.{NoLack}
use tik_rec.Manager.Capacity.{health-IsBounded}
use tik_rec.Manager.Stopping.{IsIn, IsStopped, stop-IsStopped, start-IsSelected}

abbrev plain_paths : Paths
plain_paths = record {
  resolve = λ p. some p;
  lexical = λ p. p;
  parts_of = λ p. some (p ++ codes ".parts");
  is_local_output = λ p. true;
  is_local = λ p. true;
}

abbrev first_session : Text
first_session = codes "11111111-1111-1111-1111-111111111111"

abbrev second_session : Text
second_session = codes "22222222-2222-2222-2222-222222222222"

abbrev ann_names : Named
ann_names = record {
  session_id = text first_session;
  source_url = text (codes "https://www.tiktok.com/@Ann/live");
  room_id = text (codes "7");
  output_path = text (codes "/a.mp4");
  parts_directory = text (codes "/a.parts");
}

abbrev ann_status : Status
ann_status = record { state = other; active = true; started_at = some 5; named = ann_names }

abbrev busy_health : Health
busy_health = record { available = some false; active = some true; ownership_unknown = false }

abbrev busy : Reads
busy = record {
  status = some ann_status;
  health = some busy_health;
  snapshot = some (record { current = some true; named = ann_names });
  settled = none;
}

abbrev waiting : Reads
waiting = record {
  status = some (record { state = idle; active = false; started_at = none; named = no_names });
  health = some (record { available = some true; active = some false; ownership_unknown = false });
  snapshot = none;
  settled = none;
}

abbrev fresh : RecordingManager
fresh = record { closed = false; owners = [] }

abbrev bob_names : Named
bob_names = record no_names { session_id = text second_session }

abbrev bob_url : Text
bob_url = codes "https://www.tiktok.com/@Bob/live"

abbrev bob_request : Request
bob_request = record {
  page = bob_url;
  identity = codes "https://www.tiktok.com/@bob/live";
  expected_room = some (codes "8");
  output_path = codes "/b.mp4";
  parts_path = codes "/b.mp4.parts";
}

starts_bob :
    (start plain_paths fresh
      (busy ∷ waiting ∷ [])
      (some bob_names)
      bob_url
      (codes "/b.mp4")
      (some (codes "08"))).call
    ≡ some (2, bob_request)
unfolding start start_request start_selected accept claim_session claim select_slot check_slots
    check_owner request_of canonical_expected entries read_slots entry_of refresh with_current
    without_snapshot status_facts merge merge_with enriched contradicts facts same_path
    owns_current_work session_id_of is_uuid canonical_room_id strip_zeros same_page page_identity
    normalize_live_url page_of_rest page_of_path rstrip_slash names_live from_first before
    behind_scheme behind without_breaks strip_front
starts_bob = refl

start-IsExclusive_example :
    (request_of plain_paths bob_url (codes "/b.mp4") (some (codes "08")) ≡ ok bob_request)
    × IsExclusive plain_paths fresh (busy ∷ waiting ∷ []) bob_request 2 (
        start plain_paths fresh
          (busy ∷ waiting ∷ [])
          (some bob_names)
          bob_url
          (codes "/b.mp4")
          (some (codes "08")))
start-IsExclusive_example =
    start-IsExclusive plain_paths fresh (busy ∷ waiting ∷ []) (some bob_names) bob_url
      (codes "/b.mp4") (some (codes "08")) 2 bob_request starts_bob

start-IsSelected_example :
    (e : Entry) × IsIn e (entries plain_paths fresh.owners (busy ∷ waiting ∷ [])).0
    × (is_available e ≡ true)
    × (e.slot ≡ 2)
    × (prior_session_id_for_start plain_paths fresh (busy ∷ waiting ∷ []) ≡ prior_of (some e))
start-IsSelected_example =
    start-IsSelected plain_paths fresh (busy ∷ waiting ∷ []) (some bob_names) bob_url
      (codes "/b.mp4") (some (codes "08")) 2 bob_request starts_bob

health-IsBounded_example :
    ((health plain_paths fresh (busy ∷ waiting ∷ [])).0.available_slots
      ≤ (health plain_paths fresh (busy ∷ waiting ∷ [])).0.capacity)
    × ((health plain_paths fresh (busy ∷ waiting ∷ [])).0.active_count
        ≤ (health plain_paths fresh (busy ∷ waiting ∷ [])).0.capacity)
    × ((health plain_paths fresh (busy ∷ waiting ∷ [])).0.available ≡ true
        → (reply : Option Named) (url output : Text) (expected : Option Text)
        → NoLack (start plain_paths fresh (busy ∷ waiting ∷ []) reply url output expected).result)
health-IsBounded_example = health-IsBounded plain_paths fresh (busy ∷ waiting ∷ [])

abbrev ann_entry : Entry
ann_entry = record { slot = 1; status = ann_status; health = busy_health }

stops_ann : stop plain_paths fresh (busy ∷ waiting ∷ []) none ≡ ok (some ann_entry)
unfolding stop stop_choice entries read_slots entry_of refresh with_current without_snapshot
    status_facts merge merge_with enriched contradicts facts same_path owns_current_work is_uuid
    canonical_room_id strip_zeros page_identity normalize_live_url page_of_rest page_of_path
    rstrip_slash names_live from_first before behind_scheme behind without_breaks strip_front
stops_ann = refl

stop-IsStopped_example : IsStopped (entries plain_paths [] (busy ∷ waiting ∷ [])).0 none ann_entry
stop-IsStopped_example =
    stop-IsStopped plain_paths fresh (busy ∷ waiting ∷ []) none ann_entry stops_ann

abbrev ann_owner : CurrentOwner
ann_owner = record {
  session_id = first_session;
  page = codes "https://www.tiktok.com/@ann/live";
  room_id = some (codes "7");
  output_path = some (codes "/a.mp4");
  parts_directory = none;
}

merge-MergesTo_example :
    MergesTo plain_paths
      ((1, ann_owner) ∷ [])
      1
      ann_owner
      (merge plain_paths ((1, ann_owner) ∷ []) 1 ann_owner)
merge-MergesTo_example = merge-MergesTo plain_paths ((1, ann_owner) ∷ []) 1 ann_owner

busy_work : owns_current_work ann_status busy_health ≡ true
unfolding owns_current_work
busy_work = refl

busy_known : (refresh plain_paths [] 1 ann_status busy_health busy).0 ≡ false
unfolding refresh with_current without_snapshot status_facts merge merge_with enriched contradicts
    facts same_path owns_current_work is_uuid canonical_room_id strip_zeros page_identity
    normalize_live_url page_of_rest page_of_path rstrip_slash names_live from_first before
    behind_scheme behind without_breaks strip_front
busy_known = refl

refresh-IsClear_example :
    IsClear
      (refresh plain_paths [] 1 ann_status busy_health busy).1
      1
      ann_status
      busy_health
      busy.snapshot
refresh-IsClear_example =
    refresh-IsClear plain_paths [] 1 ann_status busy_health busy busy_work busy_known

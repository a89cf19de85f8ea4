-- ===== src/Manager/Capacity.antt =====
-- The capacity that the manager reports (tikrec/recording_manager.py).
use tik_rec.Base.{
  ℕ, suc, ◌≤◌, ◌≡◌, refl, ap, ◌∙◌, subst, Bool, true, false, Option, List, [], ◌∷◌, map, arith,
  length, if◌then◌else◌,
}
use tik_rec.Text.{Text}
use tik_rec.Manager.{Named, Paths, OwnerCache, Reads, refresh}
use tik_rec.Manager.Service.{
  safe_status, safe_health, Entry, read_slots, any_entry, is_unknown, closed_entry, entries,
  is_available, is_active, count_entries, available_of, RecordingManager, health,
}
use tik_rec.Manager.Starts.{start}
use tik_rec.Manager.Lacks.{NoLack, start-NoLack}

count_entries-le : (p : Entry → Bool) (es : List Entry) → count_entries p es ≤ length es
count_entries-le p [] = omega arith
count_entries-le p (e ∷ es) = ground (arith, count_entries-le p es)

length-read_slots :
    (paths : Paths) (owners : OwnerCache) (k : ℕ) (rs : List Reads)
    → length (read_slots paths owners k rs).0 ≡ length rs
unfolding read_slots
length-read_slots paths owners k [] = refl
length-read_slots paths owners k (r ∷ rs) = ap suc (
    length-read_slots paths
      (refresh paths owners k (safe_status r.status) (safe_health r.health) r).1 (suc k) rs)

length-closed : (es : List Entry) → length (map closed_entry es) ≡ length es
length-closed [] = refl
length-closed (e ∷ es) = ap suc (length-closed es)

length-entries :
    (paths : Paths) (owners : OwnerCache) (rs : List Reads)
    → length (entries paths owners rs).0 ≡ length rs
unfolding entries
length-entries paths owners rs =
    by_unknown (any_entry is_unknown (read_slots paths owners 1 rs).0)
    ∙ length-read_slots paths owners 1 rs
  where
    by_unknown :
        (b : Bool)
        → length (
            if b
            then map closed_entry (read_slots paths owners 1 rs).0
            else (read_slots paths owners 1 rs).0)
          ≡ length (read_slots paths owners 1 rs).0
    by_unknown true = length-closed (read_slots paths owners 1 rs).0
    by_unknown false = refl

available_of-le : (closed : Bool) (es : List Entry) → available_of closed es ≤ length es
unfolding available_of
available_of-le true es = omega arith
available_of-le false es = count_entries-le is_available es

-- At most the capacity is available or active; and where a slot is reported as available, `start` with
-- the same reads is not refused for a lack of slots, an unknown owner or a shutdown.
pub health-IsBounded :
    (paths : Paths) (m : RecordingManager) (rs : List Reads)
    → ((health paths m rs).0.available_slots ≤ (health paths m rs).0.capacity)
      × ((health paths m rs).0.active_count ≤ (health paths m rs).0.capacity)
      × ((health paths m rs).0.available ≡ true
          → (reply : Option Named) (url output : Text) (expected : Option Text)
          → NoLack (start paths m rs reply url output expected).result)
unfolding health
health-IsBounded paths m rs =
    let es = (entries paths m.owners rs).0 in
    let all : length es ≡ length rs = length-entries paths m.owners rs in
    (
      subst (λ n. available_of m.closed es ≤ n) all (available_of-le m.closed es),
      subst (λ n. count_entries is_active es ≤ n) all (count_entries-le is_active es),
      λ h reply url output expected. start-NoLack paths m rs reply url output expected h,
    )

-- ===== src/Manager/Known.antt =====
-- What is known of a slot that has been read (tikrec/recording_ownership.py, recording_manager.py).
use tik_rec.Base.{
  ℕ, suc, ◌≤◌, ◌≡◌, refl, sym, ◌∙◌, ◌⊎◌, inl, inr, Bool, true, false, not, ◌||◌, Option, none, some,
  List, [], ◌∷◌, arith, if◌then◌else◌, is_some,
}
use tik_rec.Base.Dict.{get}
use tik_rec.Manager.{
  is_unavailable, Status, Health, Snapshot, CurrentOwner, Paths, is_true, owns_current_work,
  lacks_path, OwnerCache, Reads, facts, merge_facts, status_facts, without_snapshot, lacks_fact,
  with_current, with_snapshot, refresh,
}
use tik_rec.Manager.Owners.{merge-MergesTo, refresh-KeepsOthers}
use tik_rec.Manager.Service.{
  safe_status, safe_health, Entry, mark_unknown, unless_available, entry_of, read_slots, is_unknown,
}

-- The slot has an owner with both of its paths.
abbrev pub HasOwner : OwnerCache → ℕ → Type 0
HasOwner owners slot = (o : CurrentOwner) × (get owners slot ≡ some o) × (lacks_path o ≡ false)

-- What a slot that is not uncertain has: an owner, a later snapshot that says that its work is over, or
-- no readable status and a health that says that it is available.
pub data IsClear (owners : OwnerCache) (slot : ℕ) (status : Status) (health : Health)
    (x : Option Snapshot) : Type 0 where
  owned : HasOwner owners slot → IsClear owners slot status health x
  settled :
      (s : Snapshot) → x ≡ some s → s.current ≡ some false → IsClear owners slot status health x
  free :
      is_unavailable status.state ≡ true
      → is_true health.available ≡ true
      → IsClear owners slot status health x

merge_facts-HasOwner :
    (paths : Paths) (owners : OwnerCache) (slot : ℕ) (new : Option CurrentOwner)
    → (merge_facts paths owners slot new).0 ≡ false
    → HasOwner (merge_facts paths owners slot new).1 slot
merge_facts-HasOwner paths owners slot none h = cc
merge_facts-HasOwner paths owners slot (some new) h = elim (merge-MergesTo paths owners slot new) [
  | inl (o, found, same, clash, e, k) ↦ cc (e, h)
  | inr x ↦ (x.0, x.1, sym x.2.complete ∙ h)
]

lacks_fact-HasOwner :
    (owners : OwnerCache) (slot : ℕ) (health : Health) (o : Option CurrentOwner)
    → get owners slot ≡ o
    → lacks_fact o health ≡ false
    → HasOwner owners slot ⊎ (is_true health.available ≡ true)
lacks_fact-HasOwner owners slot health none e h = inr (ground arith)
lacks_fact-HasOwner owners slot health (some o) e h = inl (o, e, ground arith)

without_snapshot-IsClear :
    (owners : OwnerCache) (slot : ℕ) (status : Status) (health : Health) (uncertain : Bool)
    (x : Option Snapshot)
    → (is_unavailable status.state ≡ false → uncertain ≡ false → HasOwner owners slot)
    → (without_snapshot owners slot status health true uncertain).0 ≡ false
    → IsClear (without_snapshot owners slot status health true uncertain).1 slot status health x
unfolding without_snapshot
without_snapshot-IsClear owners slot status health uncertain x h k =
    by_read (is_unavailable status.state) refl k
  where
    by_read :
        (b : Bool)
        → is_unavailable status.state ≡ b
        → let r : Bool × OwnerCache =
            if b
            then (lacks_fact (get owners slot) health, owners)
            else (uncertain || not (is_some (get owners slot)), owners) in
          r.0 ≡ false → IsClear r.1 slot status health x
    by_read true e = λ q. elim (lacks_fact-HasOwner owners slot health (get owners slot) refl q) [
      | inl o ↦ owned o
      | inr a ↦ free e a
    ]
    by_read false e = λ q. owned (h e (ground arith))

module _ (paths : Paths) (owners : OwnerCache) (slot : ℕ) (status : Status) (r : Reads)
    (health : Health) (uncertain : Bool)
    (h : is_unavailable status.state ≡ false → uncertain ≡ false → HasOwner owners slot) where
  with_current-IsClear :
      (s : Snapshot) (x : Option Bool)
      → s.current ≡ x
      → (with_current paths owners slot status r health true uncertain s.named x).0 ≡ false
      → IsClear
          (with_current paths owners slot status r health true uncertain s.named x).1
          slot
          status
          health
          (some s)
  unfolding with_current
  with_current-IsClear s none e k =
      without_snapshot-IsClear owners slot status health uncertain (some s) h k
  with_current-IsClear s (some true) e k =
      owned (merge_facts-HasOwner paths owners slot (facts paths s.named) k)
  with_current-IsClear s (some false) e k = settled s refl e

  with_snapshot-IsClear :
      (x : Option Snapshot)
      → (with_snapshot paths owners slot status r health true uncertain x).0 ≡ false
      → IsClear
          (with_snapshot paths owners slot status r health true uncertain x).1
          slot
          status
          health
          x
  with_snapshot-IsClear none k =
      without_snapshot-IsClear owners slot status health uncertain none h k
  with_snapshot-IsClear (some s) k = with_current-IsClear s s.current refl k

status_facts-HasOwner :
    (paths : Paths) (owners : OwnerCache) (slot : ℕ) (status : Status)
    → is_unavailable status.state ≡ false
    → (status_facts paths owners slot status true).0 ≡ false
    → HasOwner (status_facts paths owners slot status true).1 slot
unfolding status_facts
status_facts-HasOwner paths owners slot status e =
    rw (e) (λ k. merge_facts-HasOwner paths owners slot (facts paths status.named) k)

-- Where a status and a health show current work and the refresh is certain, the slot has an owner with
-- both of its paths, or a later snapshot says that the work is over, or no status can be read and the
-- health says that the slot is available.
pub refresh-IsClear :
    (paths : Paths) (owners : OwnerCache) (slot : ℕ) (status : Status) (health : Health) (r : Reads)
    → owns_current_work status health ≡ true
    → (refresh paths owners slot status health r).0 ≡ false
    → IsClear (refresh paths owners slot status health r).1 slot status health r.snapshot
unfolding refresh
refresh-IsClear paths owners slot status health r e = rw (e) (λ k.
    with_snapshot-IsClear paths (status_facts paths owners slot status true).1 slot status r health
      (status_facts paths owners slot status true).0
      (λ q u. status_facts-HasOwner paths owners slot status q u) r.snapshot k)

-- A slot whose reads show current work is clear, unless the entry says that the owner is not known.
pub record IsRead (owners : OwnerCache) (r : Reads) (e : Entry) : Type 0 where
  pub status : e.status ≡ safe_status r.status
  pub health :
      (uncertain : Bool) × (e.health
        ≡ mark_unknown uncertain (unless_available (safe_status r.status) (safe_health r.health)))
  pub clear :
      is_unknown e ≡ false
      → owns_current_work (safe_status r.status) (safe_health r.health) ≡ true
      → IsClear owners e.slot (safe_status r.status) (safe_health r.health) r.snapshot

abbrev pub AllRead : OwnerCache → ℕ → List Reads → List Entry → Type 0
AllRead owners k [] [] = Unit
AllRead owners k (r ∷ rs) (e ∷ es) = (e.slot ≡ k) × IsRead owners r e × AllRead owners (suc k) rs es
AllRead owners k _ _ = ⊥

read_slots-keeps :
    (paths : Paths) (owners : OwnerCache) (k : ℕ) (rs : List Reads) (j : ℕ)
    → suc j ≤ k
    → get (read_slots paths owners k rs).1 j ≡ get owners j
unfolding read_slots
read_slots-keeps paths owners k [] j h = refl
read_slots-keeps paths owners k (r ∷ rs) j h =
    read_slots-keeps paths
      (refresh paths owners k (safe_status r.status) (safe_health r.health) r).1 (suc k) rs j
      (omega arith)
    ∙ refresh-KeepsOthers paths owners k (safe_status r.status) (safe_health r.health) r j
        (λ e. omega arith)

IsClear-as :
    (owners owners' : OwnerCache) (slot : ℕ) (status : Status) (health : Health)
    (x : Option Snapshot)
    → get owners' slot ≡ get owners slot
    → IsClear owners slot status health x
    → IsClear owners' slot status health x
IsClear-as owners owners' slot status health x e (owned h) = owned (h.0, e ∙ h.1, h.2)
IsClear-as owners owners' slot status health x e (settled s p q) = settled s p q
IsClear-as owners owners' slot status health x e (free p q) = free p q

is_unknown-entry_of :
    (slot : ℕ) (status : Status) (health : Health) (uncertain : Bool)
    → is_unknown (entry_of slot status health uncertain) ≡ false
    → uncertain ≡ false
unfolding entry_of
is_unknown-entry_of slot status health true h = cc
is_unknown-entry_of slot status health false h = refl

pub read_slots-AllRead :
    (paths : Paths) (owners : OwnerCache) (k : ℕ) (rs : List Reads)
    → AllRead (read_slots paths owners k rs).1 k rs (read_slots paths owners k rs).0
unfolding read_slots
read_slots-AllRead paths owners k [] = tt
read_slots-AllRead paths owners k (r ∷ rs) =
    let status = safe_status r.status in
    let health = safe_health r.health in
    let refreshed = refresh paths owners k status health r in
    (
      unfold entry_of in refl,
      record {
        status = unfold entry_of in refl;
        health = (refreshed.0, unfold entry_of in refl);
        clear = λ u c.
            unfold entry_of in
            IsClear-as refreshed.1 _ k status health r.snapshot
              (read_slots-keeps paths refreshed.1 (suc k) rs k (omega arith))
              (refresh-IsClear paths owners k status health r c
                (is_unknown-entry_of k status health refreshed.0 u));
      },
      read_slots-AllRead paths refreshed.1 (suc k) rs,
    )

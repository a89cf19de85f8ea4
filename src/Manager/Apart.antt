-- ===== src/Manager/Apart.antt =====
-- Slots that are apart from a request: what the checks of `start` leave of the owners
-- (tikrec/recording_manager.py).
use tik_rec.Base.{
  ℕ, suc, ◌≡◌, refl, sym, ap, ◌∙◌, subst, ◌≢◌, Bool, true, false, ◌||◌, Option, none, some, List,
  [], ◌∷◌, arith, if◌then◌else◌, some_eq, Result, ok, err, raise_if, ◌>>◌,
}
use tik_rec.Base.Dict.{get}
use tik_rec.Text.{Text, text_eq}
use tik_rec.Text.Laws.{text_eq_refl}
use tik_rec.Automation.{option_text_eq}
use tik_rec.Manager.{
  is_unavailable, Status, Health, Snapshot, CurrentOwner, Paths, is_true, owns_current_work,
  lacks_path, OwnerCache, Reads, same_path, same_path_or_none, field_text,
}
use tik_rec.Manager.Known.{IsClear, owned, settled, free, IsRead, AllRead}
use tik_rec.Manager.Service.{
  safe_status, safe_health, Entry, mark_unknown, unless_available, any_entry, is_unknown, owns,
  ManagerError, output_owned, parts_owned, page_owned, room_owned,
}
use tik_rec.Manager.Starts.{Request, field_room, has_room, check_owner, check_slots}

-- The owner has another page and room than a request, and other paths.
pub record IsApart (paths : Paths) (q : Request) (o : CurrentOwner) : Type 0 where
  pub page : o.page ≢ q.identity
  pub room : (r : Text) → q.expected_room ≡ some r → o.room_id ≢ some r
  pub output : (p : Text) → o.output_path ≡ some p → same_path paths p q.output_path ≡ false
  pub parts : (p : Text) → o.parts_directory ≡ some p → same_path paths p q.parts_path ≡ false

raise_if-ok :
    (b : Bool) (e : ManagerError) (k : Result ManagerError (Unit {0}))
    → (raise_if b e >> k) ≡ ok tt
    → (b ≡ false) × (k ≡ ok tt)
raise_if-ok true e k h = cc
raise_if-ok false e k h = (refl, h)

raise_if-last : (b : Bool) (e : ManagerError) → raise_if b e ≡ ok tt → b ≡ false
raise_if-last true e h = cc
raise_if-last false e h = refl

or_right : (a b : Bool) → (a || b) ≡ false → b ≡ false
or_right true b h = cc
or_right false b h = h

text_eq-ne : (s t : Text) → text_eq s t ≡ false → s ≢ t
text_eq-ne s t h e = cc (sym (text_eq_refl t) ∙ (ap (λ x. text_eq x t) (sym e) ∙ h))

has_room-ne :
    (s : Status) (o : CurrentOwner) (expected : Option Text) (r : Text)
    → has_room s (some o) expected ≡ false
    → expected ≡ some r
    → o.room_id ≢ some r
has_room-ne s o none r h e = cc
has_room-ne s o (some x) r h e = λ p.
    let differ : option_text_eq o.room_id (some x) ≡ false =
      or_right (field_room (field_text s.named.room_id) x) _ h in
    cc (sym (text_eq_refl x) ∙ (ap (λ t. option_text_eq t (some x)) (sym (p ∙ sym e)) ∙ differ))

same_path_or_none-no :
    (paths : Paths) (o : Option Text) (c p : Text)
    → same_path_or_none paths o c ≡ false
    → o ≡ some p
    → same_path paths p c ≡ false
same_path_or_none-no paths none c p h e = cc
same_path_or_none-no paths (some s) c p h e = ap (λ x. same_path paths x c) (sym (some_eq e)) ∙ h

check_owner-IsApart :
    (paths : Paths) (q : Request) (s : Status) (o : CurrentOwner)
    → check_owner paths q s (some o) ≡ ok tt
    → IsApart paths q o
unfolding check_owner
check_owner-IsApart paths q s o h =
    let (no_output, h1) = raise_if-ok _ output_owned _ h in
    let (no_parts, h2) = raise_if-ok _ parts_owned _ h1 in
    let (no_page, h3) = raise_if-ok _ page_owned _ h2 in
    record {
      page = text_eq-ne o.page q.identity (or_right _ _ no_page);
      room = λ r e. has_room-ne s o q.expected_room r (raise_if-last _ room_owned h3) e;
      output = λ p e.
          same_path_or_none-no paths o.output_path q.output_path p (or_right _ _ no_output) e;
      parts = λ p e.
          same_path_or_none-no paths o.parts_directory q.parts_path p (or_right _ _ no_parts) e;
    }

-- A slot that has current work and is clear is another LIVE than the request.
pub data IsSafe (paths : Paths) (q : Request) (owners : OwnerCache) (slot : ℕ) (r : Reads)
    : Type 0 where
  apart :
      (o : CurrentOwner)
      → get owners slot ≡ some o
      → lacks_path o ≡ false
      → IsApart paths q o
      → IsSafe paths q owners slot r
  over :
      (s : Snapshot) → r.snapshot ≡ some s → s.current ≡ some false → IsSafe paths q owners slot r
  unread :
      is_unavailable (safe_status r.status).state ≡ true
      → is_true (safe_health r.health).available ≡ true
      → IsSafe paths q owners slot r

-- A property of each slot and its reads, the slots numbered from one on
abbrev pub AllSlots : (ℕ → Reads → Type 0) → ℕ → List Reads → Type 0
AllSlots P k [] = Unit
AllSlots P k (r ∷ rs) = P k r × AllSlots P (suc k) rs

abbrev pub IsSafeSlot : Paths → Request → OwnerCache → ℕ → Reads → Type 0
IsSafeSlot paths q owners k r =
    owns_current_work (safe_status r.status) (safe_health r.health) ≡ true
    → IsSafe paths q owners k r

owns-marked :
    (s : Status) (h : Health) (uncertain : Bool)
    → owns_current_work s h ≡ true
    → owns_current_work s (mark_unknown uncertain (unless_available s h)) ≡ true
unfolding owns_current_work
owns-marked s h true e = ground arith
owns-marked s h false e = ground arith

owns-read :
    (owners : OwnerCache) (r : Reads) (e : Entry)
    → IsRead owners r e
    → owns_current_work (safe_status r.status) (safe_health r.health) ≡ true
    → owns e ≡ true
owns-read owners r e x h =
    ap (λ t. owns_current_work e.status t) x.health.1
    ∙ (ap
          (λ t. owns_current_work t (
            mark_unknown x.health.0
              (unless_available (safe_status r.status) (safe_health r.health))))
          x.status
        ∙ owns-marked _ _ x.health.0 h)

IsClear-IsSafe :
    (paths : Paths) (q : Request) (owners : OwnerCache) (slot : ℕ) (r : Reads) (s : Status)
    → check_owner paths q s (get owners slot) ≡ ok tt
    → IsClear owners slot (safe_status r.status) (safe_health r.health) r.snapshot
    → IsSafe paths q owners slot r
IsClear-IsSafe paths q owners slot r s h (owned o) =
    apart o.0 o.1 o.2
      (check_owner-IsApart paths q s o.0 (ap (λ x. check_owner paths q s x) (sym o.1) ∙ h))
IsClear-IsSafe paths q owners slot r s h (settled x e k) = over x e k
IsClear-IsSafe paths q owners slot r s h (free e k) = unread e k

then_ok : (m k : Result ManagerError (Unit {0})) → (m >> k) ≡ ok tt → (m ≡ ok tt) × (k ≡ ok tt)
then_ok (ok tt) k h = (refl, h)
then_ok (err e) k h = cc

check_slots-cons :
    (paths : Paths) (q : Request) (owners : OwnerCache) (e : Entry) (es : List Entry)
    → check_slots paths q owners (e ∷ es) ≡ ok tt
    → (owns e ≡ true → check_owner paths q e.status (get owners e.slot) ≡ ok tt)
      × (check_slots paths q owners es ≡ ok tt)
unfolding check_slots
check_slots-cons paths q owners e es h = by_owns (owns e) h
  where
    by_owns :
        (b : Bool)
        → ((if b then check_owner paths q e.status (get owners e.slot) else ok tt)
            >> check_slots paths q owners es)
          ≡ ok tt
        → (b ≡ true → check_owner paths q e.status (get owners e.slot) ≡ ok tt)
          × (check_slots paths q owners es ≡ ok tt)
    by_owns true = λ k. let (first, rest) = then_ok _ _ k in (λ x. first, rest)
    by_owns false = λ k. (λ x. cc (x), k)

pub check_slots-AllSlots :
    (paths : Paths) (q : Request) (owners : OwnerCache) (k : ℕ) (rs : List Reads) (es : List Entry)
    → AllRead owners k rs es
    → any_entry is_unknown es ≡ false
    → check_slots paths q owners es ≡ ok tt
    → AllSlots (IsSafeSlot paths q owners) k rs
check_slots-AllSlots paths q owners k [] es h u c = tt
check_slots-AllSlots paths q owners k (r ∷ rs) [] h u c = absurd h
check_slots-AllSlots paths q owners k (r ∷ rs) (e ∷ es) (slot, read, rest) u c =
    let (first, others) = check_slots-cons paths q owners e es c in
    (
      λ w.
          subst (λ j. IsSafe paths q owners j r) slot
            (IsClear-IsSafe paths q owners e.slot r e.status (first (owns-read owners r e read w))
              (read.clear (ground arith) w)),
      check_slots-AllSlots paths q owners (suc k) rs es rest (or_right (is_unknown e) _ u) others,
    )

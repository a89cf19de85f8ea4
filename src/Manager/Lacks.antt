-- ===== src/Manager/Lacks.antt =====
-- When `start` is not refused for a lack of slots (tikrec/recording_manager.py).
use tik_rec.Base.{
  ℕ, suc, ◌≡◌, refl, sym, ap, ◌∙◌, Bool, true, false, Option, none, some, List, [], ◌∷◌, map, ltb,
  if◌then◌else◌, Result, ok, err, raise_if, ◌>>=◌, ◌>>◌, err-injective,
}
use tik_rec.Base.Dict.{get}
use tik_rec.Text.{Text}
use tik_rec.Identity.{is_uuid}
use tik_rec.Manager.{
  Field, missing, null, not_text, text, Named, Status, CurrentOwner, Paths, OwnerCache, Reads,
}
use tik_rec.Manager.Service.{
  Entry, read_slots, any_entry, is_unknown, owns, closed_entry, fail_closed, entries, is_available,
  first_entry, count_entries, available_of, RecordingManager, ManagerError, bad_page, bad_room,
  bad_output, bad_session, shutting_down, ownership_unavailable, output_owned, parts_owned,
  page_owned, room_owned, capacity_unavailable, controller_failed, session_id_of,
}
use tik_rec.Manager.Starts.{
  Request, request_of, check_owner, check_slots, select_slot, ok_or, Started, claim_session, accept,
  start_selected, start_request, start_result, start, canonical_expected,
}

-- The errors that say that no slot can be taken.
abbrev pub is_lack : ManagerError → Bool
is_lack shutting_down = true
is_lack ownership_unavailable = true
is_lack capacity_unavailable = true
is_lack _ = false

-- A result that is no such error.
pub record NoLack {ℓ} {A : Type ℓ} (r : Result ManagerError A) : Type ℓ where
  pub refused : (e : ManagerError) → r ≡ err e → is_lack e ≡ false

ok-NoLack {ℓ} : {A : Type ℓ} (a : A) → NoLack (ok a)
ok-NoLack a = record { refused = λ e h. cc (h) }

err-NoLack {ℓ} : {A : Type ℓ} (e : ManagerError) → is_lack e ≡ false → NoLack {A = A} (err e)
err-NoLack e h = record { refused = λ d k. ap is_lack (sym (err-injective k)) ∙ h }

raise_if-NoLack :
    (b : Bool) (e : ManagerError) (k : Result ManagerError (Unit {0}))
    → is_lack e ≡ false
    → NoLack k
    → NoLack (raise_if b e >> k)
raise_if-NoLack true e k h l = err-NoLack e h
raise_if-NoLack false e k h l = l

raise_if-NoLack_last : (b : Bool) (e : ManagerError) → is_lack e ≡ false → NoLack (raise_if b e)
raise_if-NoLack_last true e h = err-NoLack e h
raise_if-NoLack_last false e h = ok-NoLack tt

then-NoLack {ℓ} :
    {A : Type ℓ} (m : Result ManagerError (Unit {0})) (k : Result ManagerError A)
    → NoLack m
    → NoLack k
    → NoLack (m >> k)
then-NoLack (ok u) k h l = l
then-NoLack (err e) k h l = err-NoLack e (h.refused e refl)

if_ok-NoLack :
    (b : Bool) (c : Result ManagerError (Unit {0})) → NoLack c → NoLack (if b then c else ok tt)
if_ok-NoLack true c h = h
if_ok-NoLack false c h = ok-NoLack tt

check_owner-NoLack :
    (paths : Paths) (q : Request) (s : Status) (o : Option CurrentOwner)
    → NoLack (check_owner paths q s o)
unfolding check_owner
check_owner-NoLack paths q s o = raise_if-NoLack _ output_owned _ refl (
    raise_if-NoLack _ parts_owned _ refl
      (raise_if-NoLack _ page_owned _ refl (raise_if-NoLack_last _ room_owned refl)))

check_slots-NoLack :
    (paths : Paths) (q : Request) (owners : OwnerCache) (es : List Entry)
    → NoLack (check_slots paths q owners es)
unfolding check_slots
check_slots-NoLack paths q owners [] = ok-NoLack tt
check_slots-NoLack paths q owners (e ∷ es) =
    then-NoLack _ _
      (if_ok-NoLack (owns e) (check_owner paths q e.status (get owners e.slot))
        (check_owner-NoLack paths q e.status (get owners e.slot)))
      (check_slots-NoLack paths q owners es)

count-first :
    (es : List Entry)
    → ltb 0 (count_entries is_available es) ≡ true
    → (e : Entry) × (first_entry is_available es ≡ some e)
count-first [] h = cc
count-first (e ∷ es) h = by_available (is_available e) h (count-first es)
  where
    by_available :
        (b : Bool)
        → ltb 0 (if b then suc (count_entries is_available es) else count_entries is_available es)
          ≡ true
        → (ltb 0 (count_entries is_available es) ≡ true
            → (x : Entry) × (first_entry is_available es ≡ some x))
        → (x : Entry) × ((if b then some e else first_entry is_available es) ≡ some x)
    by_available true k ih = (e, refl)
    by_available false k ih = ih k

count-closed : (es : List Entry) → count_entries is_available (map closed_entry es) ≡ 0
count-closed [] = refl
count-closed (e ∷ es) = count-closed es

unknown-unavailable :
    (es : List Entry)
    → ltb 0 (count_entries is_available (fail_closed es)) ≡ true
    → any_entry is_unknown (fail_closed es) ≡ false
unknown-unavailable es h = by_unknown (any_entry is_unknown es) refl h
  where
    by_unknown :
        (b : Bool)
        → any_entry is_unknown es ≡ b
        → ltb 0 (count_entries is_available (if b then map closed_entry es else es)) ≡ true
        → any_entry is_unknown (if b then map closed_entry es else es) ≡ false
    by_unknown true e k = cc (sym (ap (λ n. ltb 0 n) (count-closed es)) ∙ k)
    by_unknown false e k = e

select_slot-NoLack :
    (paths : Paths) (q : Request) (owners : OwnerCache) (es : List Entry)
    → ltb 0 (count_entries is_available (fail_closed es)) ≡ true
    → NoLack (select_slot paths q owners (fail_closed es))
unfolding select_slot
select_slot-NoLack paths q owners es h =
    by_parts (any_entry is_unknown (fail_closed es)) (unknown-unavailable es h)
      (first_entry is_available (fail_closed es)) (count-first (fail_closed es) h)
  where
    by_parts :
        (b : Bool)
        → b ≡ false
        → (f : Option Entry) → ((e : Entry) × (f ≡ some e))
        → NoLack (
            raise_if b ownership_unavailable
            >> (check_slots paths q owners (fail_closed es) >> ok_or capacity_unavailable f))
    by_parts true e f x = cc (e)
    by_parts false e none x = cc (x.1)
    by_parts false e (some y) x =
        then-NoLack (check_slots paths q owners (fail_closed es)) (ok y)
          (check_slots-NoLack paths q owners (fail_closed es)) (ok-NoLack y)

session_id_of-NoLack : (f : Field) → NoLack (session_id_of f)
unfolding session_id_of
session_id_of-NoLack (text s) = by_form (is_uuid s)
  where
    by_form : (b : Bool) → NoLack (if b then ok s else err bad_session)
    by_form true = ok-NoLack s
    by_form false = err-NoLack bad_session refl
session_id_of-NoLack missing = err-NoLack bad_session refl
session_id_of-NoLack null = err-NoLack bad_session refl
session_id_of-NoLack not_text = err-NoLack bad_session refl

accept-NoLack :
    (m : RecordingManager) (q : Request) (k : ℕ) (reply : Option Named)
    → NoLack (accept m q k reply).result
unfolding accept
accept-NoLack m q k none = err-NoLack controller_failed refl
accept-NoLack m q k (some n) =
    by_session (session_id_of n.session_id) (session_id_of-NoLack n.session_id)
  where
    by_session : (r : Result ManagerError Text) → NoLack r → NoLack (claim_session m q k n r).result
    by_session (ok s) h = unfold claim_session in ok-NoLack (k, n)
    by_session (err e) h = unfold claim_session in err-NoLack e (h.refused e refl)

start_selected-NoLack :
    (m : RecordingManager) (q : Request) (reply : Option Named) (c : Result ManagerError Entry)
    → NoLack c
    → NoLack (start_selected m q reply c).result
unfolding start_selected
start_selected-NoLack m q reply (ok e) h = accept-NoLack m q e.slot reply
start_selected-NoLack m q reply (err e) h = err-NoLack e (h.refused e refl)

start_request-NoLack :
    (paths : Paths) (m : RecordingManager) (rs : List Reads) (reply : Option Named) (q : Request)
    → ltb 0 (available_of m.closed (entries paths m.owners rs).0) ≡ true
    → NoLack (start_request paths m rs reply q).result
unfolding start_request available_of entries
start_request-NoLack paths m rs reply q h = by_closed m.closed h
  where
    by_closed :
        (b : Bool)
        → ltb 0 (if b then 0 else count_entries is_available (entries paths m.owners rs).0) ≡ true
        → let x : Started =
            if b
            then start_selected m q reply (err shutting_down)
            else start_selected
                (record m { owners = (entries paths m.owners rs).1 })
                q
                reply
                (select_slot paths q (entries paths m.owners rs).1 (entries paths m.owners rs).0) in
          NoLack x.result
    by_closed true k = cc (k)
    by_closed false k = start_selected-NoLack _ q reply _ (
        select_slot-NoLack paths q (read_slots paths m.owners 1 rs).1
          (read_slots paths m.owners 1 rs).0 k)

bind-NoLack {ℓ κ} :
    {A : Type ℓ} {B : Type κ} (m : Result ManagerError A) (f : A → Result ManagerError B)
    → NoLack m
    → ((a : A) → NoLack (f a))
    → NoLack (m >>= f)
bind-NoLack (ok a) f h k = k a
bind-NoLack (err e) f h k = err-NoLack e (h.refused e refl)

ok_or-NoLack {ℓ} :
    {A : Type ℓ} (e : ManagerError) (o : Option A) → is_lack e ≡ false → NoLack (ok_or e o)
ok_or-NoLack e none h = err-NoLack e h
ok_or-NoLack e (some a) h = ok-NoLack a

canonical_expected-NoLack : (expected : Option Text) → NoLack (canonical_expected expected)
unfolding canonical_expected
canonical_expected-NoLack none = ok-NoLack none
canonical_expected-NoLack (some r) =
    bind-NoLack _ _ (ok_or-NoLack bad_room _ refl) (λ room. ok-NoLack (some room))

request_of-NoLack :
    (paths : Paths) (url output : Text) (expected : Option Text)
    → NoLack (request_of paths url output expected)
unfolding request_of
request_of-NoLack paths url output expected =
    bind-NoLack _ _ (ok_or-NoLack bad_page _ refl) (λ page.
      bind-NoLack _ _ (canonical_expected-NoLack expected)
        (λ room. bind-NoLack _ _ (ok_or-NoLack bad_output _ refl) (λ parts. ok-NoLack _)))

pub start-NoLack :
    (paths : Paths) (m : RecordingManager) (rs : List Reads) (reply : Option Named)
    (url output : Text) (expected : Option Text)
    → ltb 0 (available_of m.closed (entries paths m.owners rs).0) ≡ true
    → NoLack (start paths m rs reply url output expected).result
unfolding start
start-NoLack paths m rs reply url output expected h =
    by_request (request_of paths url output expected) (request_of-NoLack paths url output expected)
  where
    by_request :
        (r : Result ManagerError Request)
        → NoLack r
        → NoLack (start_result paths m rs reply r).result
    by_request (ok q) k = start_request-NoLack paths m rs reply q h
    by_request (err e) k = err-NoLack e (k.refused e refl)

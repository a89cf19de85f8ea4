-- ===== src/Manager/Exclusive.antt =====
-- When `start` calls a controller (tikrec/recording_manager.py).
use tik_rec.Base.{
  ℕ, suc, ◌+◌, ◌≡◌, refl, sym, ap, ◌∙◌, subst, Bool, true, false, Option, none, some, List, [], ◌∷◌,
  map, arith, if◌then◌else◌, some_eq, ok_eq, get_elem?, Result, ok, err, raise_if, ◌>>◌,
}
use tik_rec.Base.Dict.{get, put, get-put_self}
use tik_rec.Text.{Text}
use tik_rec.Manager.{is_unavailable, Named, Health, Paths, is_true, OwnerCache, Reads}
use tik_rec.Manager.Known.{IsRead, AllRead, read_slots-AllRead}
use tik_rec.Manager.Service.{
  safe_status, safe_health, Entry, mark_unknown, read_slots, any_entry, is_unknown, closed_entry,
  fail_closed, entries, is_available, first_entry, RecordingManager, ManagerError, shutting_down,
  ownership_unavailable, capacity_unavailable, session_id_of,
}
use tik_rec.Manager.Starts.{
  Request, request_of, check_slots, select_slot, ok_or, Started, claim, claim_session, accept,
  start_selected, start_request, start_result, start,
}
use tik_rec.Manager.Apart.{AllSlots, IsSafeSlot, check_slots-AllSlots}

-- The slot that is selected answers that it is available, and its status can be read.
pub record IsFree (k slot : ℕ) (rs : List Reads) : Type 0 where
  pub index : ℕ
  pub numbered : slot ≡ k + index
  pub reads : Reads
  pub answered : get_elem? rs index ≡ some reads
  pub available : is_true (safe_health reads.health).available ≡ true
  pub readable : is_unavailable (safe_status reads.status).state ≡ false

available-read :
    (owners : OwnerCache) (r : Reads) (e : Entry)
    → IsRead owners r e
    → is_available e ≡ true
    → (is_true (safe_health r.health).available ≡ true)
      × (is_unavailable (safe_status r.status).state ≡ false)
available-read owners r e x h =
    by_state (is_unavailable (safe_status r.status).state) x.health.0
      (ap (λ (t : Health). is_true t.available) (sym x.health.1) ∙ h)
  where
    by_state :
        (b uncertain : Bool)
        → is_true
            (mark_unknown uncertain (
              if b
              then record (safe_health r.health) { available = some false }
              else safe_health r.health)).available
          ≡ true
        → (is_true (safe_health r.health).available ≡ true) × (b ≡ false)
    by_state true true = λ k. cc (k)
    by_state true false = λ k. cc (k)
    by_state false true = λ k. (k, refl)
    by_state false false = λ k. (k, refl)

first_entry-IsFree :
    (owners : OwnerCache) (k : ℕ) (rs : List Reads) (es : List Entry) (e : Entry)
    → AllRead owners k rs es
    → first_entry is_available es ≡ some e
    → IsFree k e.slot rs
first_entry-IsFree owners k rs [] e h f = cc
first_entry-IsFree owners k [] (x ∷ es) e h f = absurd h
first_entry-IsFree owners k (r ∷ rs) (x ∷ es) e (slot, read, rest) f =
    by_available (is_available x) refl (first_entry-IsFree owners (suc k) rs es e rest) f
  where
    by_available :
        (b : Bool)
        → is_available x ≡ b
        → (first_entry is_available es ≡ some e → IsFree (suc k) e.slot rs)
        → let found : Option Entry = if b then some x else first_entry is_available es in
          found ≡ some e → IsFree k e.slot (r ∷ rs)
    by_available true q ih = λ found.
        let (available, readable) = available-read owners r x read q in
        record {
          index = 0;
          numbered = ap (λ (t : Entry). t.slot) (sym (some_eq found)) ∙ (slot ∙ omega arith);
          reads = r;
          answered = refl;
          available = available;
          readable = readable;
        }
    by_available false q ih = λ found.
        let x = ih found in
        record {
          index = suc x.index;
          numbered = x.numbered ∙ omega arith;
          reads = x.reads;
          answered = x.answered;
          available = x.available;
          readable = x.readable;
        }

-- What holds where `start` calls the controller of a slot for a request.
pub record IsExclusive (paths : Paths) (m : RecordingManager) (rs : List Reads) (q : Request)
    (slot : ℕ) (x : Started) : Type 0 where
  pub open_manager : m.closed ≡ false
  pub safe : AllSlots (IsSafeSlot paths q (entries paths m.owners rs).1) 1 rs
  pub free_slot : IsFree 1 slot rs
  pub claimed :
      (n : Named)
      → x.result ≡ ok (slot, n)
      → (session : Text) × (session_id_of n.session_id ≡ ok session)
        × (get x.manager.owners slot ≡ some (claim q session))

pub select_slot-ok :
    (paths : Paths) (q : Request) (owners : OwnerCache) (es : List Entry) (e : Entry)
    → select_slot paths q owners es ≡ ok e
    → (any_entry is_unknown es ≡ false)
      × (check_slots paths q owners es ≡ ok tt)
      × (first_entry is_available es ≡ some e)
unfolding select_slot
select_slot-ok paths q owners es e h =
    by_unknown (any_entry is_unknown es) (check_slots paths q owners es)
      (first_entry is_available es) h
  where
    by_unknown :
        (b : Bool) (c : Result ManagerError (Unit {0})) (f : Option Entry)
        → (raise_if b ownership_unavailable >> (c >> ok_or capacity_unavailable f)) ≡ ok e
        → (b ≡ false) × (c ≡ ok tt) × (f ≡ some e)
    by_unknown true c f k = cc
    by_unknown false (err x) f k = cc
    by_unknown false (ok tt) none k = cc
    by_unknown false (ok tt) (some x) k = (refl, refl, ap some (ok_eq k))

accept-claimed :
    (m : RecordingManager) (q p : Request) (slot k : ℕ) (reply : Option Named) (n : Named)
    → (accept m q k reply).call ≡ some (slot, p)
    → (accept m q k reply).result ≡ ok (slot, n)
    → (session : Text) × (session_id_of n.session_id ≡ ok session)
      × (get (accept m q k reply).manager.owners slot ≡ some (claim p session))
unfolding accept claim_session
accept-claimed m q p slot k none n h e = cc
accept-claimed m q p slot k (some x) n h e = by_session (session_id_of x.session_id) refl h e
  where
    by_session :
        (r : Result ManagerError Text)
        → session_id_of x.session_id ≡ r
        → (claim_session m q k x r).call ≡ some (slot, p)
        → (claim_session m q k x r).result ≡ ok (slot, n)
        → (session : Text) × (session_id_of n.session_id ≡ ok session)
          × (get (claim_session m q k x r).manager.owners slot ≡ some (claim p session))
    by_session (err y) g c k = cc
    by_session (ok session) g c d =
        let same = some_eq c in
        (
          session,
          ap (λ (t : Named). session_id_of t.session_id)
                (sym (ap (λ (t : ℕ × Named). t.1) (ok_eq d)))
              ∙ g,
          ap (λ (t : ℕ). get (put m.owners k (claim q session)) t)
                (sym (ap (λ (t : ℕ × Request). t.0) same))
              ∙ (get-put_self m.owners k (claim q session)
                  ∙ ap (λ (t : ℕ × Request). some (claim t.1 session)) same),
        )

pub accept-call :
    (m : RecordingManager) (q : Request) (k : ℕ) (reply : Option Named)
    → (accept m q k reply).call ≡ some (k, q)
unfolding accept claim_session
accept-call m q k none = refl
accept-call m q k (some n) = by_session (session_id_of n.session_id)
  where
    by_session : (r : Result ManagerError Text) → (claim_session m q k n r).call ≡ some (k, q)
    by_session (ok s) = refl
    by_session (err e) = refl

pub any_unknown-closed :
    (es : List Entry) → any_entry is_unknown (map closed_entry es) ≡ any_entry is_unknown es
any_unknown-closed [] = refl
any_unknown-closed (e ∷ es) = rw (any_unknown-closed es) refl

pub fail_closed-known :
    (es : List Entry)
    → any_entry is_unknown (fail_closed es) ≡ false
    → (any_entry is_unknown es ≡ false) × (fail_closed es ≡ es)
fail_closed-known es h = by_unknown (any_entry is_unknown es) refl h
  where
    by_unknown :
        (b : Bool)
        → any_entry is_unknown es ≡ b
        → any_entry is_unknown (if b then map closed_entry es else es) ≡ false
        → (any_entry is_unknown es ≡ false) × ((if b then map closed_entry es else es) ≡ es)
    by_unknown true e k = cc (sym (any_unknown-closed es) ∙ k, e)
    by_unknown false e k = (e, refl)

module _ (paths : Paths) (m : RecordingManager) (rs : List Reads) (reply : Option Named)
    (q : Request) where
  start_selected-IsExclusive :
      (c : Result ManagerError Entry) (p : Request) (slot : ℕ)
      → m.closed ≡ false
      → select_slot paths q (entries paths m.owners rs).1 (entries paths m.owners rs).0 ≡ c
      → let x : Started =
          start_selected (record m { owners = (entries paths m.owners rs).1 }) q reply c in
        x.call ≡ some (slot, p) → (q ≡ p) × IsExclusive paths m rs q slot x
  unfolding start_selected entries
  start_selected-IsExclusive (err e) p slot open_manager s h = cc
  start_selected-IsExclusive (ok e) p slot open_manager s h =
      let (known, checked, found) = select_slot-ok paths q _ _ e s in
      let (all_known, whole) = fail_closed-known _ known in
      let read = read_slots-AllRead paths m.owners 1 rs in
      let called = some_eq (
        sym (accept-call (record m { owners = (read_slots paths m.owners 1 rs).1 }) q e.slot reply)
        ∙ h) in
      let numbered : e.slot ≡ slot = ap (λ (t : ℕ × Request). t.0) called in
      let asked : q ≡ p = ap (λ (t : ℕ × Request). t.1) called in
      (
        asked,
        record {
          open_manager = open_manager;
          safe = check_slots-AllSlots paths q _ 1 rs _ read all_known (
              ap (λ es. check_slots paths q (read_slots paths m.owners 1 rs).1 es) (sym whole)
              ∙ checked);
          free_slot =
              subst (λ k. IsFree 1 k rs) numbered
                (first_entry-IsFree _ 1 rs _ e read
                  (ap (λ es. first_entry is_available es) (sym whole) ∙ found));
          claimed = λ n d.
              accept-claimed _ q q slot e.slot reply n
                (accept-call _ q e.slot reply ∙ ap (λ t. some (t, q)) numbered) d;
        },
      )

  start_request-IsExclusive :
      (p : Request) (slot : ℕ)
      → (start_request paths m rs reply q).call ≡ some (slot, p)
      → (q ≡ p) × IsExclusive paths m rs q slot (start_request paths m rs reply q)
  unfolding start_request
  start_request-IsExclusive p slot h = by_closed m.closed refl h
    where
      by_closed :
          (b : Bool)
          → m.closed ≡ b
          → let x : Started =
              if b
              then start_selected m q reply (err shutting_down)
              else start_selected
                  (record m { owners = (entries paths m.owners rs).1 })
                  q
                  reply
                  (select_slot paths q
                    (entries paths m.owners rs).1
                    (entries paths m.owners rs).0) in
            x.call ≡ some (slot, p) → (q ≡ p) × IsExclusive paths m rs q slot x
      by_closed true e = λ k. unfold start_selected in cc (k)
      by_closed false e = λ k.
          start_selected-IsExclusive
            (select_slot paths q (entries paths m.owners rs).1 (entries paths m.owners rs).0) p slot
            e refl k

-- `start` calls a controller only while the manager is open, for the request that its arguments make,
-- and for a slot that answers that it is available and whose status can be read. Each slot whose reads
-- show current work then has a known owner of another page and, where a room is expected, of another
-- room, with other paths, unless a later snapshot says that the work is over, or the status cannot be
-- read and the health says that the slot is available. A session that is returned is the claim of the slot.
pub start-IsExclusive :
    (paths : Paths) (m : RecordingManager) (rs : List Reads) (reply : Option Named)
    (url output : Text) (expected : Option Text) (slot : ℕ) (q : Request)
    → (start paths m rs reply url output expected).call ≡ some (slot, q)
    → (request_of paths url output expected ≡ ok q)
      × IsExclusive paths m rs q slot (start paths m rs reply url output expected)
unfolding start
start-IsExclusive paths m rs reply url output expected slot q h =
    by_request (request_of paths url output expected) refl h
  where
    by_request :
        (r : Result ManagerError Request)
        → request_of paths url output expected ≡ r
        → (start_result paths m rs reply r).call ≡ some (slot, q)
        → (request_of paths url output expected ≡ ok q)
          × IsExclusive paths m rs q slot (start_result paths m rs reply r)
    by_request (err e) g k = cc
    by_request (ok p) g k =
        let (same, exclusive) = start_request-IsExclusive paths m rs reply p q slot k in
        (
          g ∙ ap ok same,
          subst (λ t. IsExclusive paths m rs t slot (start_request paths m rs reply p)) same
              exclusive,
        )

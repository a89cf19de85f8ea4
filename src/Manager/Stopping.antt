-- ===== src/Manager/Stopping.antt =====
-- Which slot `start` and `prior_session_id_for_start` take, and which one `stop` stops
-- (tikrec/recording_manager.py).
use tik_rec.Base.{
  ℕ, ◌≡◌, refl, sym, ap, ◌∙◌, subst, ◌⊎◌, inl, inr, Bool, true, false, Option, none, some, List, [],
  ◌∷◌, if◌then◌else◌, some_eq, ok_eq, Result, ok, err, ◌>>=◌,
}
use tik_rec.Text.{Text}
use tik_rec.Text.Laws.{eq_of_text_eq}
use tik_rec.Identity.{is_uuid}
use tik_rec.Automation.{option_text_eq}
use tik_rec.Manager.{Field, missing, null, not_text, text, field_text, Named, Paths, Reads}
use tik_rec.Manager.Service.{
  is_available, Entry, entries, owns, filter, first_entry, RecordingManager, ManagerError, prior_of,
  prior_session_id_for_start, session_id_of, bad_session, shutting_down,
}
use tik_rec.Manager.Starts.{
  Request, request_of, select_slot, Started, start_selected, start_request, start_result, start,
  is_session, found_session, sole_owner, stop_choice, stop,
}
use tik_rec.Manager.Exclusive.{select_slot-ok, accept-call}

-- The entry is among the entries.
abbrev pub IsIn : Entry → List Entry → Type 0
IsIn e [] = ⊥
IsIn e (x ∷ es) = (x ≡ e) ⊎ IsIn e es

filter-IsIn :
    (p : Entry → Bool) (e : Entry) (es : List Entry)
    → IsIn e (filter p es)
    → IsIn e es × (p e ≡ true)
filter-IsIn p e [] h = absurd h
filter-IsIn p e (x ∷ es) h = by_test (p x) refl (filter-IsIn p e es) h
  where
    by_test :
        (b : Bool)
        → p x ≡ b
        → (IsIn e (filter p es) → IsIn e es × (p e ≡ true))
        → IsIn e (if b then x ∷ filter p es else filter p es)
        → ((x ≡ e) ⊎ IsIn e es) × (p e ≡ true)
    by_test true q ih (inl same) = (inl same, ap p (sym same) ∙ q)
    by_test true q ih (inr k) = let (found, test) = ih k in (inr found, test)
    by_test false q ih k = let (found, test) = ih k in (inr found, test)

first_entry-IsIn :
    (p : Entry → Bool) (e : Entry) (es : List Entry)
    → first_entry p es ≡ some e
    → IsIn e es × (p e ≡ true)
first_entry-IsIn p e [] h = cc
first_entry-IsIn p e (x ∷ es) h = by_test (p x) refl (first_entry-IsIn p e es) h
  where
    by_test :
        (b : Bool)
        → p x ≡ b
        → (first_entry p es ≡ some e → IsIn e es × (p e ≡ true))
        → (if b then some x else first_entry p es) ≡ some e
        → ((x ≡ e) ⊎ IsIn e es) × (p e ≡ true)
    by_test true q ih k = (inl (some_eq k), ap p (sym (some_eq k)) ∙ q)
    by_test false q ih k = let (found, test) = ih k in (inr found, test)

field_text-text :
    (f : Field) (s : Text) → option_text_eq (field_text f) (some s) ≡ true → f ≡ text s
field_text-text (text t) s h = ap text (eq_of_text_eq t s h)
field_text-text missing s h = cc
field_text-text null s h = cc
field_text-text not_text s h = cc

-- The slot that is stopped owns current work; it is the only one where no session is named, and has the
-- session that is named otherwise.
pub record IsStopped (es : List Entry) (asked : Option Text) (e : Entry) : Type 0 where
  pub is_slot : IsIn e es
  pub has_work : owns e ≡ true
  pub sole : asked ≡ none → filter owns es ≡ e ∷ []
  pub session : (s : Text) → asked ≡ some s → e.status.named.session_id ≡ text s

stop_choice-IsStopped :
    (es : List Entry) (asked : Option Text) (e : Entry)
    → stop_choice (filter owns es) asked ≡ ok (some e)
    → IsStopped es asked e
unfolding stop_choice
stop_choice-IsStopped es none e h = by_owned (filter owns es) refl h
  where
    by_owned :
        (owned : List Entry)
        → filter owns es ≡ owned
        → sole_owner owned ≡ ok (some e)
        → IsStopped es none e
    by_owned [] q k = cc (ok_eq k)
    by_owned (x ∷ []) q k =
        let same : x ≡ e = some_eq (ok_eq k) in
        let among : IsIn e (filter owns es) = subst (λ l. IsIn e l) (sym q) (inl same) in
        let (found, test) = filter-IsIn owns e es among in
        record {
          is_slot = found;
          has_work = test;
          sole = λ n. q ∙ ap (λ t. t ∷ []) same;
          session = λ s n. cc (n);
        }
    by_owned (x ∷ y ∷ l) q k = cc (k)
stop_choice-IsStopped es (some s) e h =
    by_found (first_entry (is_session s) (filter owns es)) refl h
  where
    by_found :
        (f : Option Entry)
        → first_entry (is_session s) (filter owns es) ≡ f
        → found_session f ≡ ok (some e)
        → IsStopped es (some s) e
    by_found none q k = cc (k)
    by_found (some x) q k =
        let (among, named) = first_entry-IsIn (is_session s) e (filter owns es) (q ∙ ok_eq k) in
        let (found, test) = filter-IsIn owns e es among in
        record {
          is_slot = found;
          has_work = test;
          sole = λ n. cc (n);
          session = λ t n. field_text-text _ s named ∙ ap text (some_eq n);
        }

session_id_of-text : (s t : Text) → session_id_of (text s) ≡ ok t → s ≡ t
unfolding session_id_of
session_id_of-text s t h = by_form (is_uuid s) h
  where
    by_form : (b : Bool) → (if b then ok s else err bad_session) ≡ ok t → s ≡ t
    by_form true k = ok_eq k
    by_form false k = cc (k)

-- `stop` stops a slot only where the slot owns current work, and is the only one that does, or is the
-- one with the session that is named.
pub stop-IsStopped :
    (paths : Paths) (m : RecordingManager) (rs : List Reads) (asked : Option Text) (e : Entry)
    → stop paths m rs asked ≡ ok (some e)
    → IsStopped (entries paths m.owners rs).0 asked e
unfolding stop
stop-IsStopped paths m rs none e h = stop_choice-IsStopped (entries paths m.owners rs).0 none e h
stop-IsStopped paths m rs (some s) e h = by_session (session_id_of (text s)) refl h
  where
    by_session :
        (r : Result ManagerError Text)
        → session_id_of (text s) ≡ r
        → (r >>= λ session. stop_choice (filter owns (entries paths m.owners rs).0) (some session))
          ≡ ok (some e)
        → IsStopped (entries paths m.owners rs).0 (some s) e
    by_session (ok t) q k =
        subst (λ x. IsStopped (entries paths m.owners rs).0 (some x) e)
          (sym (session_id_of-text s t q))
          (stop_choice-IsStopped (entries paths m.owners rs).0 (some t) e k)
    by_session (err x) q k = cc (k)

module _ (paths : Paths) (m : RecordingManager) (rs : List Reads) (reply : Option Named) where
  -- The slot that `prior_session_id_for_start` looks at
  abbrev pub IsSelected : ℕ → Type 0
  IsSelected slot =
      (e : Entry) × IsIn e (entries paths m.owners rs).0
      × (is_available e ≡ true)
      × (e.slot ≡ slot)
      × (prior_session_id_for_start paths m rs ≡ prior_of (some e))

  start_selected-IsSelected :
      (n : RecordingManager) (q p : Request) (slot : ℕ) (c : Result ManagerError Entry)
      → select_slot paths q (entries paths m.owners rs).1 (entries paths m.owners rs).0 ≡ c
      → (start_selected n q reply c).call ≡ some (slot, p)
      → IsSelected slot
  unfolding start_selected prior_session_id_for_start
  start_selected-IsSelected n q p slot (err e) s h = cc
  start_selected-IsSelected n q p slot (ok e) s h =
      let found = select_slot-ok paths q _ _ e s in
      let among = first_entry-IsIn is_available e _ found.2 in
      (
        e,
        among.0,
        among.1,
        ap (λ (t : ℕ × Request). t.0) (some_eq (sym (accept-call n q e.slot reply) ∙ h)),
        ap prior_of found.2,
      )

  start_request-IsSelected :
      (q p : Request) (slot : ℕ)
      → (start_request paths m rs reply q).call ≡ some (slot, p)
      → IsSelected slot
  unfolding start_request
  start_request-IsSelected q p slot h = by_closed m.closed h
    where
      by_closed :
          (b : Bool)
          → let x : Started =
              if b
              then start_selected m q reply (err shutting_down)
              else start_selected
                  (record m { owners = (entries paths m.owners rs).1 })
                  q
                  reply
                  (select_slot paths q
                    (entries paths m.owners rs).1
                    (entries paths m.owners rs).0) in
            x.call ≡ some (slot, p) → IsSelected slot
      by_closed true = λ k. unfold start_selected in cc (k)
      by_closed false = λ k.
          start_selected-IsSelected (record m { owners = (entries paths m.owners rs).1 }) q p slot
            (select_slot paths q (entries paths m.owners rs).1 (entries paths m.owners rs).0) refl k

  -- On the same reads, the slot whose controller `start` calls is one of the entries, is available, and is
  -- the one whose session `prior_session_id_for_start` gives.
  pub start-IsSelected :
      (url output : Text) (expected : Option Text) (slot : ℕ) (q : Request)
      → (start paths m rs reply url output expected).call ≡ some (slot, q)
      → IsSelected slot
  unfolding start
  start-IsSelected url output expected slot q h =
      by_request (request_of paths url output expected) h
    where
      by_request :
          (r : Result ManagerError Request)
          → (start_result paths m rs reply r).call ≡ some (slot, q)
          → IsSelected slot
      by_request (ok p) k = start_request-IsSelected p q slot k
      by_request (err e) k = cc (k)

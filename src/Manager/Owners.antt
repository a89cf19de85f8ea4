-- ===== src/Manager/Owners.antt =====
-- What a merge of facts keeps, and what a refreshed slot knows (tikrec/recording_ownership.py).
use tik_rec.Base.{
  ℕ, ◌≡◌, refl, sym, ap, ◌∙◌, subst, ◌≢◌, ◌⊎◌, inl, inr, Bool, true, false, not, ◌&&◌, ◌||◌, Option,
  none, some, arith, if◌then◌else◌, is_some, some_eq,
}
use tik_rec.Base.Dict.{get, pop, get-put_self, get-put_ne, get-pop_ne}
use tik_rec.Text.{Text, text_eq}
use tik_rec.Text.Laws.{eq_of_text_eq, text_eq_refl}
use tik_rec.Manager.{
  is_unavailable, Named, Status, Health, Snapshot, CurrentOwner, Paths, owns_current_work,
  same_path, differs, or_prior, contradicts, enriched, lacks_path, OwnerCache, store, merge_with,
  merge, Reads, facts, merge_facts, status_facts, without_snapshot, lacks_fact, is_settled,
  with_current, with_snapshot, refresh,
}

-- A path that is known stays known, as a path of the same place.
abbrev pub KeepsPath : Paths → Option Text → Option Text → Type 0
KeepsPath paths old new =
    (a : Text)
    → old ≡ some a
    → (b : Text) × (new ≡ some b) × ((a ≡ b) ⊎ (same_path paths a b ≡ true))

-- Two owners of one session are one LIVE: the page stays, and a room and paths that are known.
pub record IsContinued (paths : Paths) (prior new : CurrentOwner) : Type 0 where
  pub page : prior.page ≡ new.page
  pub room : (r : Text) → prior.room_id ≡ some r → new.room_id ≡ some r
  pub output : KeepsPath paths prior.output_path new.output_path
  pub parts : KeepsPath paths prior.parts_directory new.parts_directory

or_prior-keeps :
    (old new : Option Text) (r : Text)
    → differs text_eq old new ≡ false
    → old ≡ some r
    → or_prior new old ≡ some r
or_prior-keeps none new r h e = cc
or_prior-keeps (some a) none r h e = e
or_prior-keeps (some a) (some b) r h e = ap some (sym (eq_of_text_eq a b (ground arith))) ∙ e

or_prior-KeepsPath :
    (paths : Paths) (old new : Option Text)
    → differs (same_path paths) old new ≡ false
    → KeepsPath paths old (or_prior new old)
or_prior-KeepsPath paths none new h a e = cc
or_prior-KeepsPath paths (some c) none h a e = (a, e, inl refl)
or_prior-KeepsPath paths (some c) (some b) h a e = (b, refl, inr (ground arith))

enriched-IsContinued :
    (paths : Paths) (prior new : CurrentOwner)
    → contradicts paths prior new ≡ false
    → IsContinued paths prior (enriched prior new)
unfolding contradicts enriched
enriched-IsContinued paths prior new h = record {
  page = eq_of_text_eq prior.page new.page (ground arith);
  room = λ r e. or_prior-keeps prior.room_id new.room_id r (ground arith) e;
  output = or_prior-KeepsPath paths prior.output_path new.output_path (ground arith);
  parts = or_prior-KeepsPath paths prior.parts_directory new.parts_directory (ground arith);
}

-- Two facts of one session that cannot both be true: both name a page, a room or a path, and the two
-- are not the same.
pub data IsClash (paths : Paths) (prior new : CurrentOwner) : Type 0 where
  pages : text_eq prior.page new.page ≡ false → IsClash paths prior new
  rooms :
      (a b : Text)
      → prior.room_id ≡ some a
      → new.room_id ≡ some b
      → text_eq a b ≡ false
      → IsClash paths prior new
  outputs :
      (a b : Text)
      → prior.output_path ≡ some a
      → new.output_path ≡ some b
      → same_path paths a b ≡ false
      → IsClash paths prior new
  parts :
      (a b : Text)
      → prior.parts_directory ≡ some a
      → new.parts_directory ≡ some b
      → same_path paths a b ≡ false
      → IsClash paths prior new

differs-both :
    (same : Text → Text → Bool) (x y : Option Text)
    → differs same x y ≡ true
    → (a : Text) × (b : Text) × (x ≡ some a) × (y ≡ some b) × (same a b ≡ false)
differs-both same none y h = cc (h)
differs-both same (some a) none h = cc (h)
differs-both same (some a) (some b) h = (a, b, refl, refl, ground arith)

contradicts-IsClash :
    (paths : Paths) (prior new : CurrentOwner)
    → contradicts paths prior new ≡ true
    → IsClash paths prior new
unfolding contradicts
contradicts-IsClash paths prior new h =
    by_fact (text_eq prior.page new.page) refl (differs text_eq prior.room_id new.room_id) refl
      (differs (same_path paths) prior.output_path new.output_path) refl h
  where
    by_fact :
        (p : Bool)
        → text_eq prior.page new.page ≡ p
        → (r : Bool) → differs text_eq prior.room_id new.room_id ≡ r
        → (o : Bool) → differs (same_path paths) prior.output_path new.output_path ≡ o
        → (not p
            || (r || (o || differs (same_path paths) prior.parts_directory new.parts_directory)))
          ≡ true
        → IsClash paths prior new
    by_fact false e r f o g k = pages e
    by_fact true e true f o g k =
        let (a, b, x, y, z) = differs-both text_eq prior.room_id new.room_id f in rooms a b x y z
    by_fact true e false f true g k =
        let (a, b, x, y, z) = differs-both (same_path paths) prior.output_path new.output_path g in
        outputs a b x y z
    by_fact true e false f false g k =
        let (a, b, x, y, z) =
          differs-both (same_path paths) prior.parts_directory new.parts_directory k in
        parts a b x y z

-- What the facts name, the owner has.
pub record HasFacts (new owner : CurrentOwner) : Type 0 where
  pub page : owner.page ≡ new.page
  pub room : (r : Text) → new.room_id ≡ some r → owner.room_id ≡ some r
  pub output : (p : Text) → new.output_path ≡ some p → owner.output_path ≡ some p
  pub parts : (p : Text) → new.parts_directory ≡ some p → owner.parts_directory ≡ some p

or_prior-new : (new old : Option Text) (r : Text) → new ≡ some r → or_prior new old ≡ some r
or_prior-new none old r h = cc (h)
or_prior-new (some x) old r h = h

enriched-HasFacts : (prior new : CurrentOwner) → HasFacts new (enriched prior new)
unfolding enriched
enriched-HasFacts prior new = record {
  page = refl;
  room = λ r h. or_prior-new new.room_id prior.room_id r h;
  output = λ p h. or_prior-new new.output_path prior.output_path p h;
  parts = λ p h. or_prior-new new.parts_directory prior.parts_directory p h;
}

own-HasFacts : (new : CurrentOwner) → HasFacts new new
own-HasFacts new = record { page = refl; room = λ r h. h; output = λ p h. h; parts = λ p h. h }

-- How a slot stands behind a merge that is taken: it has the session and the facts.
pub record IsMerged (paths : Paths) (prior : Option CurrentOwner) (uncertain : Bool)
    (new owner : CurrentOwner) : Type 0 where
  pub session : owner.session_id ≡ new.session_id
  pub told : HasFacts new owner
  pub complete : uncertain ≡ lacks_path owner
  pub continued :
      (o : CurrentOwner)
      → prior ≡ some o
      → o.session_id ≡ new.session_id
      → IsContinued paths o owner

abbrev pub MergesTo : Paths → OwnerCache → ℕ → CurrentOwner → Bool × OwnerCache → Type 0
MergesTo paths owners slot new r =
    ((o : CurrentOwner) × (get owners slot ≡ some o)
      × (text_eq o.session_id new.session_id ≡ true)
      × IsClash paths o new
      × (r.0 ≡ true)
      × (r.1 ≡ owners))
    ⊎ ((owner : CurrentOwner) × (get r.1 slot ≡ some owner)
        × IsMerged paths (get owners slot) r.0 new owner)

merge_with-MergesTo :
    (paths : Paths) (owners : OwnerCache) (slot : ℕ) (prior : Option CurrentOwner)
    (new : CurrentOwner)
    → get owners slot ≡ prior
    → MergesTo paths owners slot new (merge_with paths owners slot prior new)
unfolding merge_with
merge_with-MergesTo paths owners slot none new e = inr (
  new,
  get-put_self owners slot new,
  record {
    session = refl;
    told = own-HasFacts new;
    complete = refl;
    continued = λ o k s. cc (e, k);
  },
)
merge_with-MergesTo paths owners slot (some prior) new e =
    by_session (text_eq prior.session_id new.session_id) refl (contradicts paths prior new) refl
  where
    by_session :
        (b : Bool)
        → text_eq prior.session_id new.session_id ≡ b
        → (c : Bool) → contradicts paths prior new ≡ c
        → MergesTo paths owners slot new (
            if b
            then if c then (true, owners) else store owners slot (enriched prior new)
            else store owners slot new)
    by_session true q true k = inl (prior, e, q, contradicts-IsClash paths prior new k, refl, refl)
    by_session true q false k = inr (
      enriched prior new,
      get-put_self owners slot (enriched prior new),
      record {
        session = unfold enriched in refl;
        told = enriched-HasFacts prior new;
        complete = refl;
        continued = λ o p t.
            subst (λ x. IsContinued paths x (enriched prior new)) (some_eq (sym e ∙ p))
              (enriched-IsContinued paths prior new k);
      },
    )
    by_session false q c k = inr (
      new,
      get-put_self owners slot new,
      record {
        session = refl;
        told = own-HasFacts new;
        complete = refl;
        continued = λ o p t. cc (
            sym (text_eq_refl new.session_id)
            ∙ (ap (λ x. text_eq x new.session_id)
                  (sym t ∙ ap (λ (x : CurrentOwner). x.session_id) (some_eq (sym p ∙ e)))
                ∙ q));
      },
    )

-- A merge changes nothing and is uncertain only where the slot has an owner of the same session whose page,
-- room or path is not the one that the facts name. Any other leaves an owner with the session and all
-- facts, is uncertain exactly where a path of it is missing, and keeps of an owner of the same session
-- the page, a room that was known and the places of paths that were known.
pub merge-MergesTo :
    (paths : Paths) (owners : OwnerCache) (slot : ℕ) (new : CurrentOwner)
    → MergesTo paths owners slot new (merge paths owners slot new)
unfolding merge
merge-MergesTo paths owners slot new =
    merge_with-MergesTo paths owners slot (get owners slot) new refl

-- The owners of the other slots stay.
abbrev pub KeepsOthers : OwnerCache → ℕ → Bool × OwnerCache → Type 0
KeepsOthers owners slot r = (j : ℕ) → slot ≢ j → get r.1 j ≡ get owners j

choose-KeepsOthers :
    (owners : OwnerCache) (slot : ℕ) (b : Bool) (r t : Bool × OwnerCache)
    → KeepsOthers owners slot r
    → KeepsOthers owners slot t
    → KeepsOthers owners slot (if b then r else t)
choose-KeepsOthers owners slot true r t h k = h
choose-KeepsOthers owners slot false r t h k = k

merge_with-KeepsOthers :
    (paths : Paths) (owners : OwnerCache) (slot : ℕ) (prior : Option CurrentOwner)
    (new : CurrentOwner)
    → KeepsOthers owners slot (merge_with paths owners slot prior new)
unfolding merge_with
merge_with-KeepsOthers paths owners slot none new = λ j h. get-put_ne owners slot j new h
merge_with-KeepsOthers paths owners slot (some prior) new =
    choose-KeepsOthers owners slot (text_eq prior.session_id new.session_id)
      (if contradicts paths prior new
        then (true, owners)
        else store owners slot (enriched prior new))
      (store owners slot new)
      (choose-KeepsOthers owners slot (contradicts paths prior new) (true, owners)
        (store owners slot (enriched prior new)) (λ j h. refl)
        (λ j h. get-put_ne owners slot j (enriched prior new) h))
      (λ j h. get-put_ne owners slot j new h)

merge_facts-KeepsOthers :
    (paths : Paths) (owners : OwnerCache) (slot : ℕ) (new : Option CurrentOwner)
    → KeepsOthers owners slot (merge_facts paths owners slot new)
merge_facts-KeepsOthers paths owners slot none = λ j h. refl
merge_facts-KeepsOthers paths owners slot (some new) =
    unfold merge in merge_with-KeepsOthers paths owners slot (get owners slot) new

status_facts-KeepsOthers :
    (paths : Paths) (owners : OwnerCache) (slot : ℕ) (status : Status) (current : Bool)
    → KeepsOthers owners slot (status_facts paths owners slot status current)
unfolding status_facts
status_facts-KeepsOthers paths owners slot status current =
    choose-KeepsOthers owners slot (not (is_unavailable status.state) && current)
      (merge_facts paths owners slot (facts paths status.named)) (false, owners)
      (merge_facts-KeepsOthers paths owners slot (facts paths status.named)) (λ j h. refl)

without_snapshot-KeepsOthers :
    (owners : OwnerCache) (slot : ℕ) (status : Status) (health : Health) (current uncertain : Bool)
    → KeepsOthers owners slot (without_snapshot owners slot status health current uncertain)
unfolding without_snapshot
without_snapshot-KeepsOthers owners slot status health current uncertain =
    choose-KeepsOthers owners slot (is_unavailable status.state)
      (lacks_fact (get owners slot) health, owners)
      (if current
        then (uncertain || not (is_some (get owners slot)), owners)
        else (false, pop owners slot))
      (λ j h. refl)
      (choose-KeepsOthers owners slot current (uncertain || not (is_some (get owners slot)), owners)
        (false, pop owners slot) (λ j h. refl) (λ j h. get-pop_ne owners slot j h))

module _ (paths : Paths) (owners : OwnerCache) (slot : ℕ) (status : Status) (r : Reads)
    (health : Health) (current uncertain : Bool) where
  with_current-KeepsOthers :
      (n : Named) (x : Option Bool)
      → KeepsOthers owners slot
          (with_current paths owners slot status r health current uncertain n x)
  unfolding with_current
  with_current-KeepsOthers n none =
      without_snapshot-KeepsOthers owners slot status health current uncertain
  with_current-KeepsOthers n (some true) = merge_facts-KeepsOthers paths owners slot (facts paths n)
  with_current-KeepsOthers n (some false) =
      choose-KeepsOthers owners slot (is_settled health r.settled) (false, pop owners slot)
        (true, owners) (λ j h. get-pop_ne owners slot j h) (λ j h. refl)

  with_snapshot-KeepsOthers :
      (x : Option Snapshot)
      → KeepsOthers owners slot
          (with_snapshot paths owners slot status r health current uncertain x)
  with_snapshot-KeepsOthers none =
      without_snapshot-KeepsOthers owners slot status health current uncertain
  with_snapshot-KeepsOthers (some x) = with_current-KeepsOthers x.named x.current

pub refresh-KeepsOthers :
    (paths : Paths) (owners : OwnerCache) (slot : ℕ) (status : Status) (health : Health) (r : Reads)
    → KeepsOthers owners slot (refresh paths owners slot status health r)
unfolding refresh
refresh-KeepsOthers paths owners slot status health r = λ j h.
    let current = owns_current_work status health in
    let first = status_facts paths owners slot status current in
    with_snapshot-KeepsOthers paths first.1 slot status r health current first.0 r.snapshot j h
    ∙ status_facts-KeepsOthers paths owners slot status current j h

-- ===== src/Automation/Candidates.antt =====
-- The creators that `_classify` (tikrec/automation.py) lets through, and their order.
use tik_rec.Base.{
  ◌≡◌, ◌≢◌, refl, sym, ap, ◌∙◌, Bool, true, false, ◌||◌, Option, none, some, List, [], ◌∷◌, arith,
  if◌then◌else◌, All, Bool-cases, inl, inr, some_eq,
}
use tik_rec.Text.{Text, text_eq, text_le, TextDict, get, text_in, insert_text, sort_texts}
use tik_rec.Text.Laws.{text_eq_iff, text_eq_refl}
use tik_rec.Identity.{canonical_room_id}
use tik_rec.Automation.{Observation, canonical_of, option_text_eq}
use tik_rec.Automation.Cycle.{Admitted, World}
use tik_rec.Automation.Coordinator.{find_observation}
use tik_rec.Automation.Fill.{is_candidate, classify}

abbrev pub NoRepeat : List Text → Type 0
NoRepeat [] = Unit
NoRepeat (c ∷ cs) = (text_in c cs ≡ false) × NoRepeat cs

abbrev pub creators : List Observation → List Text
creators [] = []
creators (o ∷ os) = o.creator ∷ creators os

abbrev pub seen_of : List Admitted → List Observation
seen_of [] = []
seen_of (a ∷ as') = a.seen ∷ seen_of as'

-- The monitor copies canonical room identities only.
abbrev pub IsCanonical : Observation → Type 0
IsCanonical o = (r : Text) → o.room_id ≡ some r → canonical_room_id r ≡ some r

-- Whatever is observed of the creator `c` is not the room that counts as started.
abbrev pub IsFreshIn : TextDict Text → List Observation → Text → Type 0
IsFreshIn consumed os c =
    All
      (λ o.
        text_eq o.creator c ≡ true
        → (r : Text) → canonical_of o.room_id ≡ some r
        → get consumed c ≢ some r)
      os

pub find-fresh :
    (consumed : TextDict Text) (os : List Observation) (c : Text) (o : Observation) (r : Text)
    → IsFreshIn consumed os c
    → find_observation c os ≡ some o
    → canonical_of o.room_id ≡ some r
    → get consumed c ≢ some r
unfolding find_observation
find-fresh consumed [] c o r h e q = cc
find-fresh consumed (p ∷ os) c o r h e q = elim (Bool-cases (text_eq p.creator c)) [
  | inl hit ↦
      h.0 hit r (ap (λ (x : Observation). canonical_of x.room_id) (some_eq (rw hit at e)) ∙ q)
  | inr miss ↦ find-fresh consumed os c o r h.1 (rw miss at e) q
]

-- A creator that is not among the others is fresh among them, for want of an observation.
absent-IsFreshIn :
    (consumed : TextDict Text) (os : List Observation) (c : Text)
    → text_in c (creators os) ≡ false
    → IsFreshIn consumed os c
absent-IsFreshIn consumed [] c h = tt
absent-IsFreshIn consumed (o ∷ os) c h =
    ((λ e. ground arith), absent-IsFreshIn consumed os c (ground arith))

option_text_eq_refl : (o : Option Text) → option_text_eq o o ≡ true
option_text_eq_refl none = refl
option_text_eq_refl (some t) = text_eq_refl t

canonical_of-room :
    (o : Observation) (r : Text)
    → IsCanonical o
    → canonical_of o.room_id ≡ some r
    → o.room_id ≡ some r
canonical_of-room o r h e = by_room o.room_id refl e
  where
    by_room : (q : Option Text) → o.room_id ≡ q → canonical_of q ≡ some r → o.room_id ≡ some r
    by_room none p k = cc
    by_room (some x) p k = p ∙ (sym (h x p) ∙ k)

-- A candidate's own observation is fresh.
candidate_new :
    (consumed : TextDict Text) (a : Admitted) (r : Text)
    → is_candidate consumed a ≡ true
    → IsCanonical a.seen
    → canonical_of a.seen.room_id ≡ some r
    → get consumed a.seen.creator ≢ some r
unfolding is_candidate
candidate_new consumed a r h canon e q =
    let same : option_text_eq (get consumed a.seen.creator) a.seen.room_id ≡ true =
      rw (q, canonical_of-room a.seen r canon e) (text_eq_refl r) in
    ground arith

-- What is known of a list of candidates.
pub record IsCandidates (consumed : TextDict Text) (os : List Observation) (cs : List Text)
    : Type 0 where
  pub inside : (x : Text) → text_in x cs ≡ true → text_in x (creators os) ≡ true
  pub distinct : NoRepeat cs
  pub fresh : All (IsFreshIn consumed os) cs

not_in_of_inside :
    (x : Text) (cs ds : List Text)
    → (text_in x cs ≡ true → text_in x ds ≡ true)
    → text_in x ds ≡ false
    → text_in x cs ≡ false
not_in_of_inside x cs ds h k = ground arith

-- One more observation, of a creator that is not among the candidates.
extend :
    (consumed : TextDict Text) (o : Observation) (os : List Observation) (cs : List Text)
    → text_in o.creator cs ≡ false
    → All (IsFreshIn consumed os) cs
    → All (IsFreshIn consumed (o ∷ os)) cs
extend consumed o os [] n h = tt
extend consumed o os (c ∷ cs) n h = (
  ((λ e. ground (arith, text_eq_iff o.creator c, text_eq_iff c o.creator)), h.0),
  extend consumed o os cs (ground arith) h.1,
)

-- `_classify` lets each creator through once at most, and only with a room that is not consumed; the
-- coordinator's state is as it was.
pub classify-IsCandidates :
    {S : Type 0} (consumed : TextDict Text) (again : List Text) (admitted : List Admitted)
    (w : World S)
    → NoRepeat (creators (seen_of admitted))
    → All IsCanonical (seen_of admitted)
    → IsCandidates consumed (seen_of admitted) (classify consumed again admitted w).0
unfolding classify
classify-IsCandidates consumed again [] w d canon = record {
  inside = λ x h. h;
  distinct = tt;
  fresh = tt;
}
classify-IsCandidates consumed again (a ∷ as') w d canon =
    by_test (is_candidate consumed a) refl (classify-IsCandidates consumed again as' _ d.1 canon.1)
  where
    by_test :
        (b : Bool) {cs : List Text}
        → is_candidate consumed a ≡ b
        → IsCandidates consumed (seen_of as') cs
        → IsCandidates consumed (a.seen ∷ seen_of as') (if b then a.seen.creator ∷ cs else cs)
    by_test true {cs} e k =
        let apart =
          not_in_of_inside a.seen.creator cs (creators (seen_of as')) (k.inside a.seen.creator)
            d.0 in
        record {
          inside = λ x h. ground (arith, k.inside x);
          distinct = (apart, k.distinct);
          fresh = (
            (
              λ _ r q. candidate_new consumed a r e canon.0 q,
              absent-IsFreshIn consumed (seen_of as') a.seen.creator d.0,
            ),
            extend consumed a.seen (seen_of as') cs apart k.fresh,
          );
        }
    by_test false {cs} e k = record {
      inside = λ x h. ground (arith, k.inside x h);
      distinct = k.distinct;
      fresh =
          extend consumed a.seen (seen_of as') cs
            (not_in_of_inside a.seen.creator cs (creators (seen_of as')) (k.inside a.seen.creator)
              d.0)
            k.fresh;
    }

-- Sorting keeps all three.
text_in-insert :
    (x y : Text) (ys : List Text) → text_in x (insert_text y ys) ≡ text_eq y x || text_in x ys
text_in-insert x y [] = refl
text_in-insert x y (z ∷ ys) = ground (arith, text_in-insert x y ys)

text_in-sort : (x : Text) (ys : List Text) → text_in x (sort_texts ys) ≡ text_in x ys
text_in-sort x [] = refl
text_in-sort x (y ∷ ys) = rw (text_in-insert x y (sort_texts ys), text_in-sort x ys)

insert-NoRepeat :
    (y : Text) (ys : List Text) → text_in y ys ≡ false → NoRepeat ys → NoRepeat (insert_text y ys)
insert-NoRepeat y [] h d = (refl, tt)
insert-NoRepeat y (z ∷ ys) h d =
    ground (arith, insert-NoRepeat y ys, text_in-insert z y ys, text_eq_iff y z, text_eq_iff z y)

pub sort-NoRepeat : (ys : List Text) → NoRepeat ys → NoRepeat (sort_texts ys)
sort-NoRepeat [] d = tt
sort-NoRepeat (y ∷ ys) d =
    insert-NoRepeat y (sort_texts ys) (rw (text_in-sort y ys) d.0) (sort-NoRepeat ys d.1)

module _ {κ} (P : Text → Type κ) where
  All-insert : (y : Text) (ys : List Text) → P y → All P ys → All P (insert_text y ys)
  All-insert y [] p h = (p, tt)
  All-insert y (z ∷ ys) p h = by_order (text_le y z) (All-insert y ys p h.1)
    where
      by_order :
          (b : Bool)
          → All P (insert_text y ys)
          → All P (if b then y ∷ z ∷ ys else z ∷ insert_text y ys)
      by_order true k = (p, h)
      by_order false k = (h.0, k)

  pub All-sort : (ys : List Text) → All P ys → All P (sort_texts ys)
  All-sort [] h = tt
  All-sort (y ∷ ys) h = All-insert y (sort_texts ys) h.0 (All-sort ys h.1)

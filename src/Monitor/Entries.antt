-- ===== src/Monitor/Entries.antt =====
-- The entries of a monitor by their creators (tikrec/monitoring.py).
use tik_rec.Base.{
  ℕ, ◌≡◌, refl, ap, ◌∙◌, subst, true, ◌&&◌, some, List, [], ◌∷◌, arith, All, Bool-cases, inl, inr,
  some_eq,
}
use tik_rec.Text.{Text, text_eq, TextDict, get, put}
use tik_rec.Text.Laws.{get-put, text_eq_refl, eq_of_text_eq}
use tik_rec.Automation.Candidates.{NoRepeat}
use tik_rec.Monitor.{
  Sighting, Resolution, resolved, not_a_resolution, is_offline, resolution_transient,
  resolution_failed, other_exception, all_handles, no_repeats, validate_monitored_creators,
  and_rest, pending_sighting, pending_observations, observations_of, Snapshot, Monitor, snapshot,
  sighting_of,
}

abbrev pub names : List Sighting → List Text
names [] = []
names (o ∷ os) = o.creator ∷ names os

-- There is an entry for the creator, and it is about that creator.
pub record IsKnown (d : TextDict Sighting) (c : Text) : Type 0 where
  pub sighting : Sighting
  pub found : get d c ≡ some sighting
  pub own : sighting.creator ≡ c

-- A snapshot of a list that is configured by `C`, with one entry for each of its creators, in its order.
pub record IsComplete (C : List Text → Type 0) (s : Snapshot) : Type 0 where
  pub configured : List Text
  pub is_configured : C configured
  pub entries : List Sighting
  pub copied : s.creators ≡ some entries
  pub in_order : names entries ≡ configured
  pub distinct : NoRepeat configured

-- What holds of a monitor between its steps.
pub record IsMonitoring (C : List Text → Type 0) {S : Type 0} (m : Monitor S) : Type 0 where
  pub is_configured : C m.creators
  pub distinct : NoRepeat m.creators
  pub known : All (IsKnown m.observations) m.creators
  pub complete : All (IsComplete C) m.delivered

no_repeats→NoRepeat : (cs : List Text) → no_repeats cs ≡ true → NoRepeat cs
no_repeats→NoRepeat [] h = tt
no_repeats→NoRepeat (c ∷ cs) h = (ground arith, no_repeats→NoRepeat cs (ground arith))

pub validate-NoRepeat : (xs cs : List Text) → validate_monitored_creators xs ≡ some cs → NoRepeat cs
unfolding validate_monitored_creators
validate-NoRepeat xs cs h = elim (Bool-cases (all_handles xs && no_repeats xs)) [
  | inl good ↦ subst NoRepeat (some_eq (rw good at h)) (no_repeats→NoRepeat xs (ground arith))
  | inr bad ↦ cc (rw bad at h)
]

-- A list that is accepted is left as it is.
pub validate-same : (xs cs : List Text) → validate_monitored_creators xs ≡ some cs → xs ≡ cs
unfolding validate_monitored_creators
validate-same xs cs h = elim (Bool-cases (all_handles xs && no_repeats xs)) [
  | inl good ↦ some_eq (rw good at h)
  | inr bad ↦ cc (rw bad at h)
]

pub sighting_of-creator : (c : Text) (at : ℕ) (r : Resolution) → (sighting_of c at r).creator ≡ c
unfolding sighting_of
sighting_of-creator c at (resolved room) = refl
sighting_of-creator c at not_a_resolution = refl
sighting_of-creator c at is_offline = refl
sighting_of-creator c at resolution_transient = refl
sighting_of-creator c at resolution_failed = refl
sighting_of-creator c at other_exception = refl

-- One more entry about the creator under which it stands.
put-IsKnown :
    (d : TextDict Sighting) (k : Text) (o : Sighting) (c : Text)
    → o.creator ≡ k
    → IsKnown d c
    → IsKnown (put d k o) c
put-IsKnown d k o c own h = elim (Bool-cases (text_eq k c)) [
  | inl same ↦ record {
    sighting = o;
    found = get-put d k c o ∙ rw same refl;
    own = own ∙ eq_of_text_eq k c same;
  }
  | inr other ↦ record {
    sighting = h.sighting;
    found = get-put d k c o ∙ rw other h.found;
    own = h.own;
  }
]

pub put-All-IsKnown :
    (d : TextDict Sighting) (k : Text) (o : Sighting) (cs : List Text)
    → o.creator ≡ k
    → All (IsKnown d) cs
    → All (IsKnown (put d k o)) cs
put-All-IsKnown d k o [] own h = tt
put-All-IsKnown d k o (c ∷ cs) own h =
    (put-IsKnown d k o c own h.0, put-All-IsKnown d k o cs own h.1)

-- An entry in front, about the creator under which it stands.
front-IsKnown :
    (d : TextDict Sighting) (k : Text) (o : Sighting) (c : Text)
    → o.creator ≡ k
    → IsKnown d c
    → IsKnown ((k, o) ∷ d) c
front-IsKnown d k o c own h = elim (Bool-cases (text_eq k c)) [
  | inl same ↦ record { sighting = o; found = rw same refl; own = own ∙ eq_of_text_eq k c same }
  | inr other ↦ record { sighting = h.sighting; found = rw other h.found; own = h.own }
]

front-All-IsKnown :
    (d : TextDict Sighting) (k : Text) (o : Sighting) (cs : List Text)
    → o.creator ≡ k
    → All (IsKnown d) cs
    → All (IsKnown ((k, o) ∷ d)) cs
front-All-IsKnown d k o [] own h = tt
front-All-IsKnown d k o (c ∷ cs) own h =
    (front-IsKnown d k o c own h.0, front-All-IsKnown d k o cs own h.1)

pub pending-IsKnown : (cs : List Text) → All (IsKnown (pending_observations cs)) cs
unfolding pending_observations
pending-IsKnown [] = tt
pending-IsKnown (c ∷ cs) = (
  record { sighting = pending_sighting c; found = rw (text_eq_refl c) refl; own = refl },
  front-All-IsKnown (pending_observations cs) c _ cs refl (pending-IsKnown cs),
)

observations_of-names :
    (cs : List Text) (d : TextDict Sighting)
    → All (IsKnown d) cs
    → (os : List Sighting) × (observations_of cs d ≡ some os) × (names os ≡ cs)
unfolding observations_of
observations_of-names [] d h = ([], refl, refl)
observations_of-names (c ∷ cs) d h =
    let (os, copied, in_order) = observations_of-names cs d h.1 in
    (
      h.0.sighting ∷ os,
      ap (λ o. and_rest o (observations_of cs d)) h.0.found
          ∙ ap (and_rest (some h.0.sighting)) copied,
      ap (λ x. x ∷ names os) h.0.own ∙ ap (λ xs. c ∷ xs) in_order,
    )

pub snapshot-IsComplete :
    (C : List Text → Type 0) {S : Type 0} (m : Monitor S)
    → IsMonitoring C m
    → IsComplete C (snapshot m)
unfolding snapshot
snapshot-IsComplete C m k =
    let (os, copied, in_order) = observations_of-names m.creators m.observations k.known in
    record {
      configured = m.creators;
      is_configured = k.is_configured;
      entries = os;
      copied = copied;
      in_order = in_order;
      distinct = k.distinct;
    }

-- The snapshot is of the monitor's own list.
pub snapshot-own :
    (C : List Text → Type 0) {S : Type 0} (m : Monitor S)
    → IsMonitoring C m
    → IsComplete (λ cs. (cs ≡ m.creators) × C cs) (snapshot m)
unfolding snapshot
snapshot-own C m k =
    let (os, copied, in_order) = observations_of-names m.creators m.observations k.known in
    record {
      configured = m.creators;
      is_configured = (refl, k.is_configured);
      entries = os;
      copied = copied;
      in_order = in_order;
      distinct = k.distinct;
    }

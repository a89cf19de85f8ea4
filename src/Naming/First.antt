-- ===== src/Naming/First.antt =====
-- The search for a free name (tikrec/output_naming.py).
use tik_rec.Base.{
  ℕ, zero, suc, ◌+◌, ◌≤◌, ◌<◌, ◌≡◌, ◌⊎◌, refl, subst, Bool, true, false, not, ◌||◌, Option, none,
  some, arith, ◌==◌, ==→eq, Result, ok, err, ◌>>=◌, raise_if, inl, inr, if◌then◌else◌, Bool-cases,
}
use tik_rec.Text.{Text, text_eq}
use tik_rec.Naming.{
  NameError, path_escaped, inspection_failed, name_unavailable, PathSystem, output_at, not_occupied,
  is_free, take_if_free, search, available_paths,
}

module _ (system : PathSystem) (base stem : Text) where
  abbrev pub output : ℕ → Text
  output k = output_at system base stem k

  abbrev pub parts : ℕ → Text
  parts k = system.parts_path (output k)

  -- The candidate and its parts lie in the directory.
  abbrev pub IsInside : ℕ → Type 0
  IsInside k =
      (text_eq (system.parent (output k)) base ≡ true)
      × (text_eq (system.parent (parts k)) base ≡ true)

  -- Nothing is at the candidate, nor where its parts would be.
  abbrev pub IsVacant : ℕ → Type 0
  IsVacant k =
      IsInside k
      × (system.occupied (output k) ≡ some false)
      × (system.occupied (parts k) ≡ some false)

  -- Something is at the candidate, or where its parts would be.
  abbrev pub IsTaken : ℕ → Type 0
  IsTaken k =
      IsInside k
      × ((system.occupied (output k) ≡ some true)
          ⊎ ((system.occupied (output k) ≡ some false) × (system.occupied (parts k) ≡ some true)))

  -- The candidate leaves the directory, or a look at it fails.
  abbrev pub Fails : ℕ → NameError → Type 0
  Fails k e =
      ((e ≡ path_escaped)
        × ((text_eq (system.parent (output k)) base ≡ false)
            ⊎ (text_eq (system.parent (parts k)) base ≡ false)))
      ⊎ ((e ≡ inspection_failed)
          × IsInside k
          × ((system.occupied (output k) ≡ none)
              ⊎ ((system.occupied (output k) ≡ some false) × (system.occupied (parts k) ≡ none))))

  -- What a look at a candidate says
  abbrev pub Says : ℕ → Result NameError Bool → Type 0
  Says k (ok true) = IsVacant k
  Says k (ok false) = IsTaken k
  Says k (err e) = Fails k e

  is_free-Says : (k : ℕ) → Says k (is_free system base stem k)
  unfolding is_free
  is_free-Says k =
      by_facts (text_eq (system.parent (output k)) base) (text_eq (system.parent (parts k)) base)
        (system.occupied (output k)) (system.occupied (parts k)) refl refl refl refl
    where
      by_facts :
          (a b : Bool) (o q : Option Bool)
          → text_eq (system.parent (output k)) base ≡ a
          → text_eq (system.parent (parts k)) base ≡ b
          → system.occupied (output k) ≡ o
          → system.occupied (parts k) ≡ q
          → Says k (
              raise_if (not a || not b) path_escaped >>= λ _.
              not_occupied system base stem o >>= λ free.
              if free then not_occupied system base stem q else ok false)
      by_facts true true (some false) (some false) ea eb eo eq = ((ea, eb), eo, eq)
      by_facts true true (some false) (some true) ea eb eo eq = ((ea, eb), inr (eo, eq))
      by_facts true true (some false) none ea eb eo eq = inr (refl, (ea, eb), inr (eo, eq))
      by_facts true true (some true) q ea eb eo eq = ((ea, eb), inl eo)
      by_facts true true none q ea eb eo eq = inr (refl, (ea, eb), inl eo)
      by_facts true false o q ea eb eo eq = inl (refl, inr eb)
      by_facts false b o q ea eb eo eq = inl (refl, inl ea)

  -- Each candidate from one index to another is taken.
  abbrev pub AllTaken : ℕ → ℕ → Type 0
  AllTaken i k = (j : ℕ) → i ≤ j → j < k → IsTaken j

  -- What a search from `i` has found among so many candidates.
  abbrev pub HasSearched : ℕ → ℕ → Result NameError (Text × Text) → Type 0
  HasSearched i left (ok x) =
      (k : ℕ) × (i ≤ k) × (k < i + left) × AllTaken i k × IsVacant k × (x ≡ (output k, parts k))
  HasSearched i left (err e) =
      ((e ≡ name_unavailable) × AllTaken i (i + left))
      ⊎ ((k : ℕ) × (i ≤ k) × (k < i + left) × AllTaken i k × Fails k e)

  one_more_taken : (i k : ℕ) → IsTaken i → AllTaken (i + 1) k → AllTaken i k
  one_more_taken i k h t j low high = elim (Bool-cases (i == j)) [
    | inl same ↦ subst (λ x. IsTaken x) (==→eq i j same) h
    | inr other ↦ t j (ground arith) high
  ]

  later-HasSearched :
      (i left : ℕ) (r : Result NameError (Text × Text))
      → IsTaken i
      → HasSearched (i + 1) left r
      → HasSearched i (suc left) r
  later-HasSearched i left (ok x) h (k, low, high, taken, vacant, same) =
      (k, omega arith, omega arith, one_more_taken i k h taken, vacant, same)
  later-HasSearched i left (err e) h s = elim s [
    | inl x ↦ inl (x.0, λ j low high. one_more_taken i (i + 1 + left) h x.1 j low (omega arith))
    | inr (k, low, high, taken, raised) ↦
        inr (k, omega arith, omega arith, one_more_taken i k h taken, raised)
  ]

  search-HasSearched : (left i : ℕ) → HasSearched i left (search system base stem left i)
  unfolding search
  search-HasSearched zero i = inl (refl, λ j low high. ground arith)
  search-HasSearched (suc left) i =
      by_free (is_free system base stem i) (is_free-Says i) (search system base stem left (i + 1))
        (search-HasSearched left (i + 1))
    where
      by_free :
          (f : Result NameError Bool)
          → Says i f
          → (rest : Result NameError (Text × Text)) → HasSearched (i + 1) left rest
          → HasSearched i
              (suc left)
              (take_if_free system base stem f (output_at system base stem i) rest)
      by_free (ok true) e rest h =
          (i, omega arith, omega arith, (λ j low high. ground arith), e, refl)
      by_free (ok false) e rest h = later-HasSearched i left rest e h
      by_free (err x) e rest h = inr (i, omega arith, omega arith, (λ j low high. ground arith), e)

  -- The paths of an automatic recording are those of the first of a thousand candidates where nothing is, nor
  -- where its parts would be, and which lies in the directory; behind all before, which are taken. The
  -- search fails as unavailable only where all candidates are taken, and otherwise with the failure of the
  -- first candidate behind taken ones that leaves the directory or that cannot be looked at.
  pub available_paths-HasSearched : HasSearched 1 1000 (available_paths system base stem)
  unfolding available_paths
  available_paths-HasSearched = search-HasSearched 1000 1

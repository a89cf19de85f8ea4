-- ===== src/Identity/Rooms.antt =====
-- What a canonical room identity is (tikrec/tiktok_identity.py): a name for a positive number.
use tik_rec.Base.{
  ℕ, ◌+◌, ◌-◌, ◌*◌, ◌≡◌, refl, ◌∙◌, true, false, not, ◌&&◌, some, List, [], ◌∷◌, arith, ◌==◌,
  is_nil, ==→eq, ap, sym, ◌≢◌, ◌≤◌, All, get_or, Bool-cases, inl, inr, subst, some_eq,
}
use tik_rec.Identity.{is_digit, all_chars, strip_zeros, canonical_room_id, nonempty_or_none}

-- The number that a decimal text names.
abbrev pub decimal_from : ℕ → List ℕ → ℕ
decimal_from n [] = n
decimal_from n (c ∷ s) = decimal_from (n * 10 + (c - b'0')) s

strip_zeros-digits :
    (s : List ℕ) → all_chars is_digit s ≡ true → all_chars is_digit (strip_zeros s) ≡ true
unfolding strip_zeros
strip_zeros-digits [] h = refl
strip_zeros-digits (c ∷ s) h = ground (arith, strip_zeros-digits s)

decimal-strip_zeros : (s : List ℕ) → decimal_from 0 (strip_zeros s) ≡ decimal_from 0 s
unfolding strip_zeros
decimal-strip_zeros [] = refl
decimal-strip_zeros (c ∷ s) = elim (Bool-cases (c == b'0')) [
  | inl zero_digit ↦ rw (zero_digit, decimal-strip_zeros s, ==→eq c b'0' zero_digit) refl
  | inr other ↦ rw other refl
]

-- A stripped text has no zero in front.
strip_zeros-ne : (s t : List ℕ) → strip_zeros s ≢ b'0' ∷ t
unfolding strip_zeros
strip_zeros-ne [] t = λ e. cc (e)
strip_zeros-ne (c ∷ s) t = elim (Bool-cases (c == b'0')) [
  | inl zero_digit ↦ rw zero_digit (strip_zeros-ne s t)
  | inr other ↦ λ e. absurd (ground (arith, ap (λ (l : List ℕ). get_or l 0 0) (rw other at e)))
]

strip_zeros_twice : (s : List ℕ) → strip_zeros (strip_zeros s) ≡ strip_zeros s
unfolding strip_zeros
strip_zeros_twice [] = refl
strip_zeros_twice (c ∷ s) = ground (arith, strip_zeros_twice s)

all_chars-All : (s : List ℕ) → all_chars is_digit s ≡ true → All (λ c. (b'0' ≤ c) × (c ≤ b'9')) s
all_chars-All [] h = tt
all_chars-All (c ∷ s) h = ((ground arith, ground arith), all_chars-All s (ground arith))

-- A room identity is a name for the number that was given: it has digits alone, no zero in front, and
-- is its own canonical form.
pub record IsRoomOf (s r : List ℕ) : Type 0 where
  pub digits : All (λ c. (b'0' ≤ c) × (c ≤ b'9')) r
  pub named : r ≢ []
  pub no_zero : (t : List ℕ) → r ≢ b'0' ∷ t
  pub same_number : decimal_from 0 r ≡ decimal_from 0 s
  pub settled : canonical_room_id r ≡ some r

nonempty_or_none_lem : (t : List ℕ) → is_nil t ≡ false → nonempty_or_none t ≡ some t
nonempty_or_none_lem [] n = cc
nonempty_or_none_lem (c ∷ t) n = refl

strip_zeros-IsRoomOf :
    (s : List ℕ)
    → all_chars is_digit s ≡ true
    → is_nil (strip_zeros s) ≡ false
    → IsRoomOf s (strip_zeros s)
unfolding canonical_room_id
strip_zeros-IsRoomOf s h n = record {
  digits = all_chars-All (strip_zeros s) (strip_zeros-digits s h);
  named = λ e. cc (sym n ∙ ap (is_nil {0}) e);
  no_zero = strip_zeros-ne s;
  same_number = decimal-strip_zeros s;
  settled =
      rw (n, strip_zeros-digits s h, strip_zeros_twice s) (nonempty_or_none_lem (strip_zeros s) n);
}

-- Where `canonical_room_id` accepts a text, what it returns has digits alone and at least one, has no
-- zero in front, names the same number, and is accepted as it is.
pub canonical_room_id-IsRoomOf : (s r : List ℕ) → canonical_room_id s ≡ some r → IsRoomOf s r
unfolding canonical_room_id
canonical_room_id-IsRoomOf s r e = elim (Bool-cases (not (is_nil s) && all_chars is_digit s)) [
  | inl good ↦ by_rest (strip_zeros s) refl (ground arith) (rw good at e)
  | inr bad ↦ cc (rw bad at e)
]
  where
    by_rest :
        (t : List ℕ)
        → strip_zeros s ≡ t
        → all_chars is_digit s ≡ true
        → nonempty_or_none t ≡ some r
        → IsRoomOf s r
    by_rest [] h d k = cc
    by_rest (c ∷ t) h d k =
        subst (IsRoomOf s) (h ∙ some_eq k) (strip_zeros-IsRoomOf s d (rw h refl))

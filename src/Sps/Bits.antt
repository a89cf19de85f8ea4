-- ===== src/Sps/Bits.antt =====
-- What the reader of tikrec/flv_codec.py returns, on the bits of its bytes.
use tik_rec.Base.{
  ℕ, zero, suc, ◌+◌, ◌-◌, ◌*◌, ◌/◌, ◌%◌, ◌≤◌, ◌<◌, ◌≡◌, refl, ap, sym, ◌∙◌, subst, true, false,
  List, [], ◌∷◌, ◌++◌, arith, ltb, length, drop, take, get_or, ok, err, length-append, length-take,
  take-append-drop, ◌⊎◌, length-drop, Bool-cases, inl, inr,
}
use tik_rec.Sps.{truncated, BitReader, bit_of, bit_at, read_bits, read}

-- The bits of bytes, those of the highest place first
abbrev pub bits : List ℕ → List ℕ
bits [] = []
bits (b ∷ s) =
    (b / 128 % 2)
    ∷ (b / 64 % 2)
    ∷ (b / 32 % 2)
    ∷ (b / 16 % 2)
    ∷ (b / 8 % 2)
    ∷ (b / 4 % 2)
    ∷ (b / 2 % 2)
    ∷ (b / 1 % 2)
    ∷ bits s

length-bits : (s : List ℕ) → length (bits s) ≡ length s * 8
length-bits [] = refl
length-bits (b ∷ s) = ground (arith, length-bits s)

-- The reader stands in front of these bits, which are all that is left.
pub record IsBefore (r : BitReader) (rest : List ℕ) : Type 0 where
  pub ahead : drop r.position (bits r.data') ≡ rest
  pub inside : r.position ≤ length r.data' * 8

bit_at-cons :
    (b : ℕ) (s : List ℕ) (p q : ℕ)
    → p / 8 ≡ suc (q / 8)
    → p % 8 ≡ q % 8
    → bit_at (b ∷ s) p ≡ bit_at s q
unfolding bit_at
bit_at-cons b s p q h k = rw (h, k) refl

drop-bits :
    (s : List ℕ) (p : ℕ) → p < length s * 8 → drop p (bits s) ≡ bit_at s p ∷ drop (suc p) (bits s)
unfolding bit_at bit_of
drop-bits [] p h = ground arith
drop-bits (b ∷ s) zero h = refl
drop-bits (b ∷ s) (suc zero) h = refl
drop-bits (b ∷ s) (suc (suc zero)) h = refl
drop-bits (b ∷ s) (suc (suc (suc zero))) h = refl
drop-bits (b ∷ s) (suc (suc (suc (suc zero)))) h = refl
drop-bits (b ∷ s) (suc (suc (suc (suc (suc zero))))) h = refl
drop-bits (b ∷ s) (suc (suc (suc (suc (suc (suc zero)))))) h = refl
drop-bits (b ∷ s) (suc (suc (suc (suc (suc (suc (suc zero))))))) h = refl
drop-bits (b ∷ s) (suc (suc (suc (suc (suc (suc (suc (suc q)))))))) h =
    drop-bits s q (omega arith)
    ∙ ap (λ x. x ∷ drop (suc q) (bits s)) (sym (bit_at-cons b s _ q (omega arith) (omega arith)))

-- The number that bits name, the first of them first.
abbrev pub value_of : ℕ → List ℕ → ℕ
value_of v [] = v
value_of v (b ∷ bs) = value_of (v * 2 + b) bs

-- A read takes one bit from the front.
bit-IsBefore :
    (r : BitReader) (b : ℕ) (rest : List ℕ)
    → IsBefore r (b ∷ rest)
    → (bit_at r.data' r.position ≡ b) × IsBefore (record r { position = r.position + 1 }) rest
bit-IsBefore r b rest k =
    let left : length (bits r.data') - r.position ≡ suc (length rest) =
      sym (length-drop r.position (bits r.data')) ∙ ap length k.ahead in
    let room : r.position < length r.data' * 8 = ground (arith, length-bits r.data') in
    let split = sym (drop-bits r.data' r.position room) ∙ k.ahead in
    let step : suc r.position ≡ r.position + 1 = omega arith in
    (
      ap (λ l. get_or l 0 0) split,
      record {
        ahead = subst (λ n. drop n (bits r.data') ≡ rest) step (ap (drop 1) split);
        inside = omega arith;
      },
    )

read_bits-IsBefore :
    (bs rest : List ℕ) (v : ℕ) (r : BitReader)
    → IsBefore r (bs ++ rest)
    → ((read_bits (length bs) v r).0 ≡ value_of v bs) × IsBefore (read_bits (length bs) v r).1 rest
unfolding read_bits
read_bits-IsBefore [] rest v r k = (refl, k)
read_bits-IsBefore (b ∷ bs) rest v r k =
    let (same, k') = bit-IsBefore r b (bs ++ rest) k in
    let (value, last) = read_bits-IsBefore bs rest (v * 2 + bit_at r.data' r.position) _ k' in
    (value ∙ ap (λ x. value_of (v * 2 + x) bs) same, last)

-- Where enough bits are left, `read` takes them from the front and returns the number that they name.
pub read-value :
    (bs rest : List ℕ) (r : BitReader)
    → IsBefore r (bs ++ rest)
    → (s : BitReader) × (read (length bs) r ≡ ok (value_of 0 bs, s)) × IsBefore s rest
unfolding read
read-value bs rest r k =
    let left : length (bits r.data') - r.position ≡ length bs + length rest =
      sym (length-drop r.position (bits r.data')) ∙ (ap length k.ahead ∙ length-append bs rest) in
    let room : ltb (length r.data' * 8) (r.position + length bs) ≡ false =
      ground (arith, length-bits r.data', k.inside) in
    let (value, last) = read_bits-IsBefore bs rest 0 r k in (_, rw (room, value) refl, last)

-- Where fewer bits are left, `read` fails.
pub read-truncated :
    (count : ℕ) (rest : List ℕ) (r : BitReader)
    → IsBefore r rest
    → length rest < count
    → read count r ≡ err truncated
unfolding read
read-truncated count rest r k h =
    let left : length (bits r.data') - r.position ≡ length rest =
      sym (length-drop r.position (bits r.data')) ∙ ap length k.ahead in
    let short : ltb (length r.data' * 8) (r.position + count) ≡ true =
      ground (arith, length-bits r.data', k.inside) in
    rw short refl

-- A read of bits takes the next ones, of each byte the highest first, and returns the number that they
-- name, the first of them in the highest place; it fails where fewer bits are left.
pub read_lem :
    (count : ℕ) (rest : List ℕ) (r : BitReader)
    → IsBefore r rest
    → ((count ≤ length rest)
        × ((s : BitReader) × (read count r ≡ ok (value_of 0 (take count rest), s))
            × IsBefore s (drop count rest)))
      ⊎ ((length rest < count) × (read count r ≡ err truncated))
read_lem count rest r k = elim (Bool-cases (ltb (length rest) count)) [
  | inl short ↦
      let h : length rest < count = ground arith in inr (h, read-truncated count rest r k h)
  | inr enough ↦
      let h : count ≤ length rest = ground arith in
      let same : length (take count rest) ≡ count = length-take count rest ∙ omega arith in
      inl (
        h,
        subst
            (λ n.
              (s : BitReader) × (read n r ≡ ok (value_of 0 (take count rest), s))
              × IsBefore s (drop count rest))
            same
            (read-value (take count rest) (drop count rest) r
              (subst (IsBefore r) (sym (take-append-drop count rest)) k)),
      )
]

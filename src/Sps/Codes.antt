-- ===== src/Sps/Codes.antt =====
-- Exp-Golomb codes (tikrec/flv_codec.py), and readers that are run one behind the other.
use tik_rec.Base.{
  ℕ, zero, suc, ◌+◌, ◌-◌, ◌^◌, ◌≤◌, ◌≡◌, refl, ap, ◌∙◌, subst, List, [], ◌∷◌, ◌++◌, append_assoc,
  append-nil, arith, length, ok,
}
use tik_rec.Sps.{
  BitReader, Reads, after, ◌>>=◌, return, read, leading_zeros, unsigned_exp_golomb,
  signed_exp_golomb, signed_of,
}
use tik_rec.Sps.Bits.{IsBefore, value_of, read-value}

-- On these bits, whatever follows them, the reader returns the value and stops behind them.
pub record Gives {ℓ} {A : Type ℓ} (m : Reads A) (bs : List ℕ) (a : A) : Type ℓ where
  pub run :
      (rest : List ℕ) (r : BitReader)
      → IsBefore r (bs ++ rest)
      → (s : BitReader) × (m r ≡ ok (a, s)) × IsBefore s rest

pub Gives-return {ℓ} : {A : Type ℓ} (a : A) → Gives (return a) [] a
Gives-return a = record { run = λ rest r k. (r, refl, k) }

pub Gives-bind {ℓ κ} :
    {A : Type ℓ} {B : Type κ} (m : Reads A) (f : A → Reads B) (bs cs : List ℕ) (a : A) (b : B)
    → Gives m bs a
    → Gives (f a) cs b
    → Gives (m >>= f) (bs ++ cs) b
unfolding ◌>>=◌
Gives-bind m f bs cs a b g h = record {
  run = λ rest r k.
      let (s, e, ks) = g.run (cs ++ rest) r (subst (IsBefore r) (append_assoc bs cs rest) k) in
      let (t, d, kt) = h.run rest s ks in (t, ap (λ x. after x f) e ∙ d, kt);
}

-- Two readers one behind the other, on the bits of both.
pub Gives-seq {ℓ κ} :
    {A : Type ℓ} {B : Type κ} (m : Reads A) (f : A → Reads B) {bs cs ds : List ℕ} {a : A} {b : B}
    → Gives m bs a
    → Gives (f a) cs b
    → bs ++ cs ≡ ds
    → Gives (m >>= f) ds b
Gives-seq m f {bs} {cs} {ds} {a} {b} g h e =
    subst (λ c. Gives (m >>= f) c b) e (Gives-bind m f bs cs a b g h)

pub Gives-map {ℓ κ} :
    {A : Type ℓ} {B : Type κ} (m : Reads A) (g : A → B) {bs : List ℕ} {a : A}
    → Gives m bs a
    → Gives (m >>= λ x. return (g x)) bs (g a)
Gives-map m g {bs} {a} h = Gives-seq m _ h (Gives-return (g a)) (append-nil bs)

pub Gives-read : (bs : List ℕ) → Gives (read (length bs)) bs (value_of 0 bs)
Gives-read bs = record { run = λ rest r k. read-value bs rest r k }

pub Gives-bit : (b : ℕ) → Gives (read 1) (b ∷ []) b
Gives-bit b = subst (λ v. Gives (read 1) (b ∷ []) v) (omega arith) (Gives-read (b ∷ []))

abbrev pub zero_bits : ℕ → List ℕ
zero_bits zero = []
zero_bits (suc n) = 0 ∷ zero_bits n

Gives-leading_zeros :
    (left seen n : ℕ)
    → n ≤ left
    → Gives (leading_zeros left seen) (zero_bits n ++ 1 ∷ []) (seen + n)
unfolding leading_zeros
Gives-leading_zeros zero seen zero h =
    subst (Gives _ _) (omega arith)
      (Gives-bind (read 1) _ (1 ∷ []) [] 1 seen (Gives-bit 1) (Gives-return seen))
Gives-leading_zeros zero seen (suc n) h = ground arith
Gives-leading_zeros (suc left) seen zero h =
    subst (Gives _ _) (omega arith)
      (Gives-bind (read 1) _ (1 ∷ []) [] 1 seen (Gives-bit 1) (Gives-return seen))
Gives-leading_zeros (suc left) seen (suc n) h =
    let k = Gives-leading_zeros left (suc seen) n (omega arith) in
    subst (Gives _ _) (omega arith)
      (Gives-bind (read 1) _ (0 ∷ []) (zero_bits n ++ 1 ∷ []) 0 (suc seen + n) (Gives-bit 0) k)

-- The code of a number: as many zeros as there are bits behind the one in the middle.
abbrev pub code : List ℕ → List ℕ
code bs = zero_bits (length bs) ++ 1 ∷ bs

-- `2 ^ leadingZeroBits - 1 + read_bits(leadingZeroBits)`, by which H.264 defines the code
abbrev pub number_of : List ℕ → ℕ
number_of bs = 2 ^ length bs - 1 + value_of 0 bs

-- A code with at most 31 zeros reads as its number, whatever follows it.
pub Gives-unsigned :
    (bs : List ℕ) → length bs ≤ 31 → Gives unsigned_exp_golomb (code bs) (number_of bs)
unfolding unsigned_exp_golomb
Gives-unsigned bs h =
    Gives-seq _ _
      (subst (Gives (leading_zeros 31 0) _) (omega arith) (Gives-leading_zeros 31 0 (length bs) h))
      (Gives-map _ _ (Gives-read bs)) (append_assoc (zero_bits (length bs)) (1 ∷ []) bs)

pub Gives-signed :
    (bs : List ℕ) → length bs ≤ 31 → Gives signed_exp_golomb (code bs) (signed_of (number_of bs))
unfolding signed_exp_golomb
Gives-signed bs h = Gives-map _ _ (Gives-unsigned bs h)

-- ===== src/Flv/Bytes.antt =====
-- `int.to_bytes(k, "big")` and `int.from_bytes(…, "big")` on numbers that fit, which flv.py uses at
-- widths 3 and 4.
use tik_rec.Base.{
  ℕ, zero, suc, ◌+◌, ◌*◌, ◌/◌, ◌%◌, ◌^◌, ◌<◌, ◌≡◌, refl, List, [], ◌∷◌, length, arith, All,
}

abbrev pub IsByte : ℕ → Type 0
IsByte b = b < 256

unfoldable pub to_bytes : ℕ → ℕ → List ℕ
to_bytes zero n = []
to_bytes (suc k) n = (n / 256 ^ k % 256) ∷ to_bytes k n

unfoldable pub from_bytes_acc : ℕ → List ℕ → ℕ
from_bytes_acc acc [] = acc
from_bytes_acc acc (b ∷ bs) = from_bytes_acc (acc * 256 + b) bs

unfoldable pub from_bytes : List ℕ → ℕ
unfolding from_bytes_acc
from_bytes = from_bytes_acc 0

pub length-to_bytes : (k n : ℕ) → length (to_bytes k n) ≡ k
unfolding to_bytes
length-to_bytes zero n = refl
length-to_bytes (suc k) n = omega (arith, length-to_bytes k n)

pub All-to_bytes : (k n : ℕ) → All IsByte (to_bytes k n)
unfolding to_bytes
All-to_bytes zero n = tt
All-to_bytes (suc k) n = (omega arith, All-to_bytes k n)

pub from_bytes-to_bytes_3 : (n : ℕ) → n < 2 ^ 24 → from_bytes (to_bytes 3 n) ≡ n
unfolding to_bytes from_bytes
from_bytes-to_bytes_3 n h = omega arith

pub from_bytes-to_bytes_4 : (n : ℕ) → n < 2 ^ 32 → from_bytes (to_bytes 4 n) ≡ n
unfolding to_bytes from_bytes
from_bytes-to_bytes_4 n h = omega arith

-- Three bytes and their number determine one another.
pub to_bytes-from_bytes_3 :
    (a b c : ℕ)
    → IsByte a
    → IsByte b
    → IsByte c
    → to_bytes 3 (from_bytes (a ∷ b ∷ c ∷ [])) ≡ a ∷ b ∷ c ∷ []
unfolding to_bytes from_bytes
to_bytes-from_bytes_3 a b c ha hb hc = ground arith

pub to_bytes-from_bytes_4 :
    (a b c d : ℕ)
    → IsByte a
    → IsByte b
    → IsByte c
    → IsByte d
    → to_bytes 4 (from_bytes (a ∷ b ∷ c ∷ d ∷ [])) ≡ a ∷ b ∷ c ∷ d ∷ []
unfolding to_bytes from_bytes
to_bytes-from_bytes_4 a b c d ha hb hc hd = ground arith

pub from_bytes-lt_3 :
    (a b c : ℕ) → IsByte a → IsByte b → IsByte c → from_bytes (a ∷ b ∷ c ∷ []) < 2 ^ 24
unfolding from_bytes
from_bytes-lt_3 a b c ha hb hc = omega arith

-- ===== src/Base/Int.antt =====
-- Integers over the native numbers, with the sums and differences that elapsed times need.
use Prim.Native.Nat.{ℕ, suc, ◌+◌, ◌-◌}
use mathlib.Core.Path.{◌≡◌}
use native.Mathlib.Omega.{arith}
use tik_rec.Base.{leb, if◌then◌else◌}

-- `negsuc n` stands for -(n + 1).
pub data ℤ : Type 0 where
  pos : ℕ → ℤ
  negsuc : ℕ → ℤ

abbrev up_part : ℤ → ℕ
up_part (pos n) = n
up_part (negsuc _) = 0

abbrev down_part : ℤ → ℕ
down_part (pos _) = 0
down_part (negsuc n) = suc n

abbrev from_parts : ℕ → ℕ → ℤ
from_parts u d = if leb d u then pos (u - d) else negsuc (d - u - 1)

infixl 65 ◌+ℤ◌ ◌-ℤ◌
unfoldable pub ◌+ℤ◌ : ℤ → ℤ → ℤ
x +ℤ y = from_parts (up_part x + up_part y) (down_part x + down_part y)

unfoldable pub ◌-ℤ◌ : ℤ → ℤ → ℤ
x -ℤ y = from_parts (up_part x + down_part y) (down_part x + up_part y)

-- Two differences behind one another are one.
pub -ℤ-telescopes : (a b c : ℤ) → (b -ℤ a) +ℤ (c -ℤ b) ≡ c -ℤ a
unfolding ◌+ℤ◌ ◌-ℤ◌
-ℤ-telescopes a b c = ground arith

-- ===== src/Sps.antt =====
-- The reader of H.264 parameter sets (tikrec/flv_codec.py): bits, Exp-Golomb codes, the removal of
-- emulation bytes, the displayed dimensions and the nominal picture rate.
pub mod Syntax
pub mod Bits
pub mod Codes
pub mod Grammar
pub mod Geometry
pub mod Escape
mod Tests
use tik_rec.Base.{
  ℕ, zero, suc, ◌+◌, ◌-◌, ◌*◌, ◌/◌, ◌%◌, ◌^◌, Bool, true, false, not, ◌&&◌, ◌||◌, Option, none,
  some, List, [], ◌∷◌, ◌++◌, ltb, leb, ◌==◌, length, take, drop, get_or, if◌then◌else◌, is_nil,
  Result, ok, err,
}

-- `FlvFormatError`, by what it says
pub data SpsError : Type 0 where
  truncated invalid_code not_a_sps invalid_chroma invalid_order_type invalid_dimensions : SpsError
  invalid_record no_sps truncated_length truncated_data : SpsError

-- `_BitReader`
pub record BitReader : Type 0 where
  pub data' : List ℕ
  pub position : ℕ

-- A method of the reader: the value and the reader behind it, or the exception.
abbrev pub Reads {ℓ} : Type ℓ → Type ℓ
Reads A = BitReader → Result SpsError (A × BitReader)

abbrev pub after {ℓ κ} :
    {A : Type ℓ} {B : Type κ}
    → Result SpsError (A × BitReader)
    → (A → Reads B)
    → Result SpsError (B × BitReader)
after (ok x) f = f x.0 x.1
after (err e) f = err e

infixl 5 ◌>>=◌ ◌>>◌
unfoldable pub ◌>>=◌ {ℓ κ} : {A : Type ℓ} {B : Type κ} → Reads A → (A → Reads B) → Reads B
m >>= f = λ r. after (m r) f

abbrev pub ◌>>◌ {ℓ κ} : {A : Type ℓ} {B : Type κ} → Reads A → Reads B → Reads B
m >> k = m >>= λ _. k

abbrev pub return {ℓ} : {A : Type ℓ} → A → Reads A
return a r = ok (a, r)

abbrev pub fail {ℓ} : {A : Type ℓ} → SpsError → Reads A
fail e r = err e

abbrev pub fail_if : Bool → SpsError → Reads (Unit {0})
fail_if true e = fail e
fail_if false e = return tt

-- `(byte >> (7 - position % 8)) & 1`
unfoldable pub bit_of : ℕ → ℕ → ℕ
bit_of byte i = byte / 2 ^ (7 - i) % 2

-- The bit at a position.
unfoldable pub bit_at : List ℕ → ℕ → ℕ
bit_at data' p = bit_of (get_or data' (p / 8) 0) (p % 8)

-- The loop of `read`.
unfoldable pub read_bits : ℕ → ℕ → BitReader → ℕ × BitReader
read_bits zero value r = (value, r)
read_bits (suc count) value r =
    read_bits count (value * 2 + bit_at r.data' r.position) (record r { position = r.position + 1 })

-- `read`
unfoldable pub read : ℕ → Reads ℕ
read count r =
    if ltb (length r.data' * 8) (r.position + count)
    then err truncated
    else ok (read_bits count 0 r)

-- The loop of `unsigned_exp_golomb`: so many zeros are accepted yet, and so many are read.
unfoldable pub leading_zeros : ℕ → ℕ → Reads ℕ
unfolding read
leading_zeros zero run = read 1 >>= λ bit. if bit == 0 then fail invalid_code else return run
leading_zeros (suc left) run =
    let rest = leading_zeros left (suc run) in
    read 1 >>= λ bit. if bit == 0 then rest else return run

-- `unsigned_exp_golomb`; a read of no bit is `0` and fails nowhere.
unfoldable pub unsigned_exp_golomb : Reads ℕ
unsigned_exp_golomb =
    leading_zeros 31 0 >>= λ run. read run >>= λ suffix. return (2 ^ run - 1 + suffix)

-- A signed value: up or down by a number.
pub data Signed : Type 0 where
  up down : ℕ → Signed

unfoldable pub signed_of : ℕ → Signed
signed_of value = if value % 2 == 1 then up ((value + 1) / 2) else down (value / 2)

unfoldable pub signed_exp_golomb : Reads Signed
unfolding unsigned_exp_golomb
signed_exp_golomb = unsigned_exp_golomb >>= λ value. return (signed_of value)

-- `for _ in range(count): reader.signed_exp_golomb()`
unfoldable pub skip_signed : ℕ → Reads (Unit {0})
skip_signed zero = return tt
skip_signed (suc count) = signed_exp_golomb >> skip_signed count

-- `(last_scale + delta + 256) % 256`, where `%` is never negative
unfoldable pub moved_scale : ℕ → Signed → ℕ
moved_scale last (up n) = (last + n + 256) % 256
moved_scale last (down n) = (last + 256 + (256 - n % 256)) % 256

-- The next scale of one round: it is read unless it is zero.
unfoldable pub next_of : ℕ → ℕ → Reads ℕ
next_of last zero = return 0
next_of last (suc next) = signed_exp_golomb >>= λ delta. return (moved_scale last delta)

-- `next_scale or last_scale`
unfoldable pub or_last : ℕ → ℕ → ℕ
or_last zero last = last
or_last (suc next) last = suc next

-- The loop of `_skip_scaling_list`
unfoldable pub skip_scales : ℕ → ℕ → ℕ → Reads (Unit {0})
skip_scales zero last next = return tt
skip_scales (suc count) last next =
    next_of last next >>= λ next'. skip_scales count (or_last next' last) next'

unfoldable pub skip_scaling_list : ℕ → Reads (Unit {0})
unfolding skip_scales
skip_scaling_list count = skip_scales count 8 8

-- The loop of `_skip_scaling_matrices` from an index on
unfoldable pub skip_matrices : ℕ → ℕ → Reads (Unit {0})
skip_matrices zero index = return tt
skip_matrices (suc count) index =
    let rest = skip_matrices count (suc index) in
    read 1 >>= λ present.
    if present == 0 then rest else skip_scaling_list (if ltb index 6 then 16 else 64) >> rest

unfoldable pub skip_scaling_matrices : ℕ → Reads (Unit {0})
unfolding skip_matrices
skip_scaling_matrices chroma = skip_matrices (if chroma == 3 then 12 else 8) 0

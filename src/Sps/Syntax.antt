-- ===== src/Sps/Syntax.antt =====
-- The fields of a parameter set and what is read from them (tikrec/flv_codec.py).
use tik_rec.Base.{
  ℕ, zero, suc, ◌+◌, ◌-◌, ◌*◌, ◌%◌, Bool, false, not, ◌&&◌, ◌||◌, Option, none, some, List, [], ◌∷◌,
  ltb, leb, ◌==◌, length, take, drop, get_or, if◌then◌else◌, Result, ok, err,
}
use tik_rec.Sps.{
  SpsError, not_a_sps, invalid_chroma, invalid_order_type, invalid_dimensions, invalid_record,
  no_sps, truncated_length, truncated_data, BitReader, Reads, ◌>>=◌, ◌>>◌, return, fail, fail_if,
  read, unsigned_exp_golomb, signed_exp_golomb, skip_signed, skip_scaling_matrices,
}

-- `_rbsp_without_emulation_bytes`, behind so many zeros
unfoldable pub unescape : ℕ → List ℕ → List ℕ
unescape run [] = []
unescape run (b ∷ s) =
    let kept = unescape (if b == 0 then run + 1 else 0) s in
    if leb 2 run && b == 3 then unescape 0 s else b ∷ kept

unfoldable pub rbsp_without_emulation_bytes : List ℕ → List ℕ
unfolding unescape
rbsp_without_emulation_bytes data' = unescape 0 data'

-- `_HIGH_PROFILE_IDS`
abbrev pub high_profile_ids : List ℕ
high_profile_ids = 44 ∷ 83 ∷ 86 ∷ 100 ∷ 110 ∷ 118 ∷ 122 ∷ 128 ∷ 134 ∷ 135 ∷ 138 ∷ 139 ∷ 244 ∷ []

abbrev pub is_in : ℕ → List ℕ → Bool
is_in n [] = false
is_in n (m ∷ ms) = n == m || is_in n ms

-- `chroma_format_idc` and `separate_colour_plane_flag`
pub record Chroma : Type 0 where
  pub format : ℕ
  pub separate : ℕ

unfoldable pub read_scaling : ℕ → ℕ → Reads (Unit {0})
read_scaling format zero = return tt
read_scaling format (suc flag) = skip_scaling_matrices format

unfoldable pub read_high_chroma : Reads Chroma
unfolding read_scaling
read_high_chroma = do
  format ← unsigned_exp_golomb
  fail_if (ltb 3 format) invalid_chroma
  separate ← if format == 3 then read 1 else return 0
  unsigned_exp_golomb
  unsigned_exp_golomb
  read 1
  scaling ← read 1
  read_scaling format scaling
  return (record { format = format; separate = separate })

unfoldable pub read_chroma : ℕ → Reads Chroma
unfolding read_high_chroma
read_chroma profile =
    if is_in profile high_profile_ids
    then read_high_chroma
    else return (record { format = 1; separate = 0 })

-- The fields that `pic_order_cnt_type` selects
unfoldable pub read_order : ℕ → Reads (Unit {0})
read_order zero = unsigned_exp_golomb >> return tt
read_order (suc zero) = do
  read 1
  signed_exp_golomb
  signed_exp_golomb
  count ← unsigned_exp_golomb
  skip_signed count
read_order (suc (suc zero)) = return tt
read_order (suc (suc (suc _))) = fail invalid_order_type

pub record Crop : Type 0 where
  pub left : ℕ
  pub right : ℕ
  pub top : ℕ
  pub bottom : ℕ

unfoldable pub read_crop : ℕ → Reads Crop
read_crop zero = return (record { left = 0; right = 0; top = 0; bottom = 0 })
read_crop (suc flag) = do
  left ← unsigned_exp_golomb
  right ← unsigned_exp_golomb
  top ← unsigned_exp_golomb
  bottom ← unsigned_exp_golomb
  return (record { left = left; right = right; top = top; bottom = bottom })

-- `_crop_units`
unfoldable pub crop_units : ℕ → ℕ → ℕ × ℕ
crop_units zero mbs_only = (1, 2 - mbs_only)
crop_units array_type mbs_only =
    (if array_type == 3 then 1 else 2, (if array_type == 1 then 2 else 1) * (2 - mbs_only))

-- `chroma_array_type`
unfoldable pub array_type_of : Chroma → ℕ
array_type_of c = if c.separate == 0 then c.format else 0

-- The displayed size: subtraction on ℕ stops at 0, and a size that is not positive is rejected.
unfoldable pub displayed : Chroma → ℕ → ℕ → ℕ → Crop → Result SpsError (ℕ × ℕ)
unfolding crop_units array_type_of
displayed chroma width_in_mbs height_in_map_units mbs_only crop =
    let (unit_x, unit_y) = crop_units (array_type_of chroma) mbs_only in
    let width = width_in_mbs * 16 - unit_x * (crop.left + crop.right) in
    let height = (2 - mbs_only) * height_in_map_units * 16 - unit_y * (crop.top + crop.bottom) in
    if width == 0 || height == 0 then err invalid_dimensions else ok (width, height)

abbrev pub lift_result {ℓ} : {A : Type ℓ} → Result SpsError A → Reads A
lift_result (ok a) = return a
lift_result (err e) = fail e

-- The rest of `_sps_geometry` behind `max_num_ref_frames`
unfoldable pub read_frame : Chroma → Reads (ℕ × ℕ)
unfolding displayed read_crop
read_frame chroma = do
  read 1
  width ← unsigned_exp_golomb
  height ← unsigned_exp_golomb
  mbs_only ← read 1
  if mbs_only == 0 then read 1 else return 0
  read 1
  cropping ← read 1
  crop ← read_crop cropping
  lift_result (displayed chroma (width + 1) (height + 1) mbs_only crop)

-- `_sps_geometry` behind the removal of the emulation bytes
unfoldable pub read_geometry : Reads (ℕ × ℕ)
unfolding read_chroma read_order read_frame
read_geometry = do
  profile ← read 8
  read 8
  read 8
  unsigned_exp_golomb
  chroma ← read_chroma profile
  unsigned_exp_golomb
  order_type ← unsigned_exp_golomb
  read_order order_type
  unsigned_exp_golomb
  read_frame chroma

abbrev pub is_sps : List ℕ → Bool
is_sps [] = false
is_sps (b ∷ s) = b % 32 == 7

-- `_sps_geometry`
unfoldable pub sps_geometry : List ℕ → Result SpsError ((ℕ × ℕ) × BitReader)
unfolding read_geometry rbsp_without_emulation_bytes
sps_geometry sps =
    if is_sps sps
    then read_geometry (record { data' = rbsp_without_emulation_bytes (drop 1 sps); position = 0 })
    else err not_a_sps

abbrev pub size_of : Result SpsError ((ℕ × ℕ) × BitReader) → Result SpsError (ℕ × ℕ)
size_of (ok x) = ok x.0
size_of (err e) = err e

-- `sps_dimensions`
unfoldable pub sps_dimensions : List ℕ → Result SpsError (ℕ × ℕ)
sps_dimensions sps = size_of (sps_geometry sps)

-- `reader.read(1)` and then, if it is set, the fields
unfoldable pub if_set : Reads (Unit {0}) → Reads (Unit {0})
if_set fields = read 1 >>= λ flag. if flag == 0 then return tt else fields

-- `_vui_frame_rate` behind `timing_info_present_flag`: `time_scale` over twice the units
unfoldable pub read_timing : Reads (Option (ℕ × ℕ))
read_timing = do
  units ← read 32
  scale ← read 32
  fixed ← read 1
  return (if units == 0 || (scale == 0 || fixed == 0) then none else some (scale, 2 * units))

-- The fields of the display and the colours
unfoldable pub skip_display : Reads (Unit {0})
unfolding if_set
skip_display = do
  if_set (read 8 >>= λ ratio. if ratio == 255 then read 32 >> return tt else return tt)
  if_set (read 1 >> return tt)
  if_set (read 4 >> if_set (read 24 >> return tt))
  if_set (unsigned_exp_golomb >> (unsigned_exp_golomb >> return tt))

-- `_vui_frame_rate`, as a fraction that is not yet reduced
unfoldable pub vui_frame_rate : Reads (Option (ℕ × ℕ))
unfolding skip_display read_timing
vui_frame_rate = do
  present ← read 1
  if present == 0
      then return none
      else (skip_display >> (read 1 >>= λ timing. if timing == 0 then return none else read_timing))

abbrev pub from_two : List ℕ → ℕ
from_two (a ∷ b ∷ _) = a * 256 + b
from_two _ = 0

-- `_read_length_prefixed_nal`
unfoldable pub read_length_prefixed_nal : List ℕ → ℕ → Result SpsError (List ℕ × ℕ)
read_length_prefixed_nal data' position =
    let size = from_two (drop position data') in
    if ltb (length data') (position + 2)
    then err truncated_length
    else (if size == 0 || ltb (length data') (position + 2 + size)
        then err truncated_data
        else ok (take size (drop (position + 2) data'), position + 2 + size))

abbrev pub then_of_first {ℓ} :
    {A : Type ℓ} → Result SpsError (List ℕ × ℕ) → (List ℕ → Result SpsError A) → Result SpsError A
then_of_first (ok x) f = f x.0
then_of_first (err e) f = err e

-- `avc_configuration_dimensions`
unfoldable pub avc_configuration_dimensions : List ℕ → Result SpsError (ℕ × ℕ)
avc_configuration_dimensions configuration =
    if ltb (length configuration) 7 || not (get_or configuration 0 0 == 1)
    then err invalid_record
    else (if get_or configuration 5 0 % 32 == 0
        then err no_sps
        else then_of_first (read_length_prefixed_nal configuration 6) sps_dimensions)

abbrev pub rate_or_none : Result SpsError (Option (ℕ × ℕ) × BitReader) → Option (ℕ × ℕ)
rate_or_none (ok x) = x.0
rate_or_none (err e) = none

abbrev pub rate_of : Result SpsError ((ℕ × ℕ) × BitReader) → Option (ℕ × ℕ)
rate_of (ok x) = rate_or_none (vui_frame_rate x.1)
rate_of (err e) = none

abbrev pub rate_of_nal : Result SpsError (List ℕ × ℕ) → Option (ℕ × ℕ)
rate_of_nal (ok x) = rate_of (sps_geometry x.0)
rate_of_nal (err e) = none

abbrev pub facts_of : Result SpsError (ℕ × ℕ) → Option (ℕ × ℕ) → Option (ℕ × ℕ) × Option (ℕ × ℕ)
facts_of (ok dimensions) rate = (some dimensions, rate)
facts_of (err e) rate = (none, none)

-- `avc_configuration_facts`: the dimensions and the rate, if they can be read
unfoldable pub avc_configuration_facts : List ℕ → Option (ℕ × ℕ) × Option (ℕ × ℕ)
avc_configuration_facts configuration =
    facts_of (avc_configuration_dimensions configuration)
      (rate_of_nal (read_length_prefixed_nal configuration 6))

-- ===== src/Sps/Tests.antt =====
-- Runs of the reader of parameter sets (tikrec/flv_codec.py).
use tik_rec.Base.{
  ℕ, ◌≤◌, ◌<◌, ◌≡◌, ◌⊎◌, refl, List, [], ◌∷◌, ◌++◌, ok, err, arith, take, drop, length, none, some,
}
use tik_rec.Sps.{
  BitReader, truncated, bit_of, bit_at, read_bits, read, leading_zeros, unsigned_exp_golomb, ◌>>=◌,
}
use tik_rec.Sps.Syntax.{
  Chroma, Crop, unescape, rbsp_without_emulation_bytes, read_scaling, read_high_chroma, read_chroma,
  read_order, read_crop, crop_units, array_type_of, displayed, read_frame, read_geometry,
  sps_geometry, sps_dimensions, read_length_prefixed_nal, avc_configuration_dimensions,
  vui_frame_rate, avc_configuration_facts,
}
use tik_rec.Sps.Bits.{IsBefore, bits, value_of, read_lem}
use tik_rec.Sps.Grammar.{WritesCode, WritesChroma, WritesOrder, WritesMbs, WritesCrop, WritesSps}
use tik_rec.Sps.Geometry.{Shares, IsSize, sps_dimensions-Writes}
use tik_rec.Sps.Escape.{escape, rbsp_without_emulation_bytes-escape}

-- A parameter set of 640 by 480, baseline profile
abbrev vga : List ℕ
vga = 0x42 ∷ 0x00 ∷ 0x1e ∷ 0xda ∷ 0x02 ∷ 0x80 ∷ 0xf6 ∷ 0x40 ∷ []

vga_dimensions : sps_dimensions (0x67 ∷ vga) ≡ ok (640, 480)
unfolding bit_of bit_at read_bits read leading_zeros unsigned_exp_golomb ◌>>=◌ unescape
    rbsp_without_emulation_bytes read_scaling read_high_chroma read_chroma read_order read_crop
    crop_units array_type_of displayed read_frame read_geometry sps_geometry sps_dimensions
vga_dimensions = refl

-- The configuration record with that set has no picture rate.
vga_facts :
    avc_configuration_facts (1 ∷ 0x42 ∷ 0 ∷ 0x1e ∷ 0xff ∷ 0xe1 ∷ 0 ∷ 9 ∷ 0x67 ∷ vga)
    ≡ (some (640, 480), none)
unfolding bit_of bit_at read_bits read leading_zeros unsigned_exp_golomb ◌>>=◌ unescape
    rbsp_without_emulation_bytes read_scaling read_high_chroma read_chroma read_order read_crop
    crop_units array_type_of displayed read_frame read_geometry sps_geometry sps_dimensions
    read_length_prefixed_nal avc_configuration_dimensions vui_frame_rate avc_configuration_facts
vga_facts = refl

abbrev vga_chroma : Chroma
vga_chroma = record { format = 1; separate = 0 }

abbrev no_crop : Crop
no_crop = record { left = 0; right = 0; top = 0; bottom = 0 }

coded_0 : WritesCode (1 ∷ []) 0
coded_0 = WritesCode.coded [] (omega arith)

vga_fields : WritesSps (take 56 (bits vga)) vga_chroma 40 30 1 no_crop
unfolding bit_of
vga_fields =
    WritesSps.parameter_set (0 ∷ 1 ∷ 0 ∷ 0 ∷ 0 ∷ 0 ∷ 1 ∷ 0 ∷ [])
      (0 ∷ 0 ∷ 0 ∷ 0 ∷ 0 ∷ 0 ∷ 0 ∷ 0 ∷ []) (0 ∷ 0 ∷ 0 ∷ 1 ∷ 1 ∷ 1 ∷ 1 ∷ 0 ∷ []) 0 1 refl refl refl
      coded_0 (WritesChroma.plain refl) coded_0 (WritesCode.coded (1 ∷ []) (omega arith))
      WritesOrder.as_decoded (WritesCode.coded (0 ∷ []) (omega arith))
      (WritesCode.coded (0 ∷ 1 ∷ 0 ∷ 0 ∷ 0 ∷ []) (omega arith))
      (WritesCode.coded (1 ∷ 1 ∷ 1 ∷ 0 ∷ []) (omega arith)) WritesMbs.frames WritesCrop.whole

vga_plain : bits (rbsp_without_emulation_bytes vga) ≡ take 56 (bits vga) ++ drop 56 (bits vga)
unfolding bit_of unescape rbsp_without_emulation_bytes
vga_plain = refl

vga-IsSize : IsSize vga_chroma 40 30 1 no_crop (640, 480)
vga-IsSize = record {
  columns = 2;
  rows = 2;
  shared = Shares.quarter;
  across = refl;
  down = refl;
  wide = omega arith;
  tall = omega arith;
}

-- Interlaced, with a cropped row of macroblocks
fields_displayed :
    displayed vga_chroma 120 34 0 (record { left = 0; right = 0; top = 0; bottom = 2 })
    ≡ ok (1920, 1080)
unfolding crop_units array_type_of displayed
fields_displayed = refl

sps_dimensions-Writes_example : sps_dimensions (0x67 ∷ vga) ≡ ok (640, 480)
sps_dimensions-Writes_example =
    sps_dimensions-Writes 0x67 vga (drop 56 (bits vga)) (take 56 (bits vga)) vga_chroma 40 30 1
      no_crop (640, 480) refl vga_fields vga_plain vga-IsSize

rbsp_without_emulation_bytes-escape_example :
    rbsp_without_emulation_bytes (escape 0 (0 ∷ 0 ∷ 0 ∷ 0 ∷ 0 ∷ 3 ∷ 1 ∷ []))
    ≡ 0 ∷ 0 ∷ 0 ∷ 0 ∷ 0 ∷ 3 ∷ 1 ∷ []
rbsp_without_emulation_bytes-escape_example =
    rbsp_without_emulation_bytes-escape (0 ∷ 0 ∷ 0 ∷ 0 ∷ 0 ∷ 3 ∷ 1 ∷ [])

abbrev vga_reader : BitReader
vga_reader = record { data' = vga; position = 0 }

read_lem_example :
    ((8 ≤ length (bits vga))
      × ((s : BitReader) × (read 8 vga_reader ≡ ok (value_of 0 (take 8 (bits vga)), s))
          × IsBefore s (drop 8 (bits vga))))
    ⊎ ((length (bits vga) < 8) × (read 8 vga_reader ≡ err truncated))
read_lem_example = read_lem 8 (bits vga) vga_reader (record { ahead = refl; inside = omega arith })

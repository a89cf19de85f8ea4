-- ===== src/Sps/Geometry.antt =====
-- What tikrec/flv_codec.py reads from the syntax of a parameter set.
use tik_rec.Base.{
  ℕ, suc, ◌+◌, ◌-◌, ◌*◌, ◌<◌, ◌||◌, err, ◌%◌, ◌≡◌, refl, ap, sym, subst, Bool, true, false, List,
  [], ◌∷◌, ◌++◌, append-nil, arith, ltb, ◌==◌, length, if◌then◌else◌, Result, ok,
}
use tik_rec.Sps.{
  Reads, ◌>>=◌, ◌>>◌, return, fail_if, read, unsigned_exp_golomb, skip_signed, SpsError,
  invalid_chroma, invalid_dimensions,
}
use tik_rec.Sps.Syntax.{
  Chroma, Crop, crop_units, array_type_of, read_scaling, read_high_chroma, read_chroma, read_order,
  read_crop, displayed, lift_result, read_frame, read_geometry, sps_geometry, sps_dimensions,
  size_of, rbsp_without_emulation_bytes,
}
use tik_rec.Sps.Bits.{bits, value_of}
use tik_rec.Sps.Codes.{
  Gives, Gives-return, Gives-seq, Gives-map, Gives-read, Gives-bit, Gives-unsigned, Gives-signed,
}
use tik_rec.Sps.Grammar.{
  WritesCode, coded, WritesChroma, plain, high, planes, WritesOffsets, no_offset, offset,
  WritesOrder, lowest_bits, cycle, as_decoded, WritesMbs, frames, fields, WritesCrop, whole,
  cropped, WritesSps, parameter_set,
}

Gives-code : {bs : List ℕ} {n : ℕ} → WritesCode bs n → Gives unsigned_exp_golomb bs n
Gives-code (coded bs h) = Gives-unsigned bs h

Gives-eight : (bs : List ℕ) → length bs ≡ 8 → Gives (read 8) bs (value_of 0 bs)
Gives-eight bs h = subst (λ n. Gives (read n) bs (value_of 0 bs)) h (Gives-read bs)

Gives-offsets : {bs : List ℕ} {n : ℕ} → WritesOffsets bs n → Gives (skip_signed n) bs tt
unfolding skip_signed
Gives-offsets no_offset = Gives-return tt
Gives-offsets (offset (coded bs h) more) =
    Gives-seq _ _ (Gives-signed bs h) (Gives-offsets more) refl

Gives-order : {order : ℕ} {bs : List ℕ} → WritesOrder order bs → Gives (read_order order) bs tt
unfolding read_order
Gives-order (lowest_bits c) = Gives-map _ _ (Gives-code c)
Gives-order (cycle z (coded ps hp) (coded fs hf) n os) =
    Gives-seq _ _ (Gives-bit z)
      (Gives-seq _ _ (Gives-signed ps hp)
        (Gives-seq _ _ (Gives-signed fs hf) (Gives-seq _ _ (Gives-code n) (Gives-offsets os) refl)
          refl)
        refl)
      refl
Gives-order as_decoded = Gives-return tt

-- The cropping, and what is made of it
Gives-crop {ℓ} :
    {A : Type ℓ} {bs : List ℕ} {crop : Crop} (k : Crop → Reads A) (a : A)
    → WritesCrop bs crop
    → Gives (k crop) [] a
    → Gives (read 1 >>= λ flag. read_crop flag >>= k) bs a
unfolding read_crop
Gives-crop k a whole g = Gives-seq _ _ (Gives-bit 0) (Gives-seq _ _ (Gives-return _) g refl) refl
Gives-crop k a (cropped l r t b) g =
    Gives-seq _ _ (Gives-bit 1)
      (Gives-seq _ _
        (Gives-seq _ _ (Gives-code l)
          (Gives-seq _ _ (Gives-code r)
            (Gives-seq _ _ (Gives-code t) (Gives-map _ _ (Gives-code b)) refl) refl)
          refl)
        g (append-nil _))
      refl

Gives-check : (b : Bool) (e : SpsError) → b ≡ false → Gives (fail_if b e) [] tt
Gives-check true e h = cc
Gives-check false e h = Gives-return tt

Gives-else {ℓ} :
    {A : Type ℓ} (b : Bool) (m k : Reads A) (bs : List ℕ) (a : A)
    → b ≡ false
    → Gives k bs a
    → Gives (if b then m else k) bs a
Gives-else true m k bs a h g = cc (h)
Gives-else false m k bs a h g = g

-- The bit depths, the bypass flag, and no scaling matrices
Gives-depths :
    {ls ds : List ℕ} {luma depth : ℕ} (format bypass : ℕ) (chroma : Chroma)
    → WritesCode ls luma
    → WritesCode ds depth
    → Gives
        (do
          unsigned_exp_golomb
          unsigned_exp_golomb
          read 1
          scaling ← read 1
          read_scaling format scaling
          return chroma)
        (ls ++ (ds ++ (bypass ∷ 0 ∷ [])))
        chroma
unfolding read_scaling
Gives-depths format bypass chroma l d =
    Gives-seq _ _ (Gives-code l)
      (Gives-seq _ _ (Gives-code d)
        (Gives-seq _ _ (Gives-bit bypass)
          (Gives-seq _ _ (Gives-bit 0) (Gives-seq _ _ (Gives-return tt) (Gives-return chroma) refl)
            refl)
          refl)
        refl)
      refl

Gives-chroma :
    {profile : ℕ} {bs : List ℕ} {chroma : Chroma}
    → WritesChroma profile bs chroma
    → Gives (read_chroma profile) bs chroma
unfolding read_chroma read_high_chroma
Gives-chroma (plain other) = Gives-else _ _ _ [] _ other (Gives-return _)
Gives-chroma (high {format} bypass known f below l d) = rw known (
    Gives-seq _ _ (Gives-code f)
      (Gives-seq _ _ (Gives-check (ltb 3 format) invalid_chroma (ground arith))
        (Gives-seq _ _
          (Gives-else (format == 3) (read 1) (return 0) [] 0 (ground arith) (Gives-return 0))
          (Gives-depths format bypass _ l d) refl)
        refl)
      refl)
Gives-chroma (planes separate bypass known f l d) = rw known (
    Gives-seq _ _ (Gives-code f)
      (Gives-seq _ _ (Gives-return tt)
        (Gives-seq _ _ (Gives-bit separate) (Gives-depths 3 bypass _ l d) refl) refl)
      refl)

Gives-size :
    (m : Result SpsError (ℕ × ℕ)) (size : ℕ × ℕ) → m ≡ ok size → Gives (lift_result m) [] size
Gives-size m size e = subst (λ x. Gives (lift_result x) [] size) (sym e) (Gives-return size)

Gives-frame :
    {mbs w h : ℕ} {ws hs ms xs : List ℕ} {crop : Crop} (gaps direct : ℕ) (chroma : Chroma)
    (size : ℕ × ℕ)
    → WritesCode ws w
    → WritesCode hs h
    → WritesMbs ms mbs
    → WritesCrop xs crop
    → displayed chroma (w + 1) (h + 1) mbs crop ≡ ok size
    → Gives (read_frame chroma) (gaps ∷ (ws ++ (hs ++ (ms ++ (direct ∷ xs))))) size
unfolding read_frame
Gives-frame gaps direct chroma size w h frames x e =
    Gives-seq _ _ (Gives-bit gaps)
      (Gives-seq _ _ (Gives-code w)
        (Gives-seq _ _ (Gives-code h)
          (Gives-seq _ _ (Gives-bit 1)
            (Gives-seq _ _ (Gives-return 0)
              (Gives-seq _ _ (Gives-bit direct) (Gives-crop _ size x (Gives-size _ size e)) refl)
              refl)
            refl)
          refl)
        refl)
      refl
Gives-frame gaps direct chroma size w h (fields adaptive) x e =
    Gives-seq _ _ (Gives-bit gaps)
      (Gives-seq _ _ (Gives-code w)
        (Gives-seq _ _ (Gives-code h)
          (Gives-seq _ _ (Gives-bit 0)
            (Gives-seq _ _ (Gives-bit adaptive)
              (Gives-seq _ _ (Gives-bit direct) (Gives-crop _ size x (Gives-size _ size e)) refl)
              refl)
            refl)
          refl)
        refl)
      refl

Gives-geometry :
    {bs : List ℕ} {chroma : Chroma} {width height mbs : ℕ} {crop : Crop} (size : ℕ × ℕ)
    → WritesSps bs chroma width height mbs crop
    → displayed chroma width height mbs crop ≡ ok size
    → Gives read_geometry bs size
unfolding read_geometry
Gives-geometry size
      (parameter_set {chroma} profile constraints level gaps direct lp lc ll i c f o t r w h m x)
      e =
    Gives-seq _ _ (Gives-eight profile lp)
      (Gives-seq _ _ (Gives-eight constraints lc)
        (Gives-seq _ _ (Gives-eight level ll)
          (Gives-seq _ _ (Gives-code i)
            (Gives-seq _ _ (Gives-chroma c)
              (Gives-seq _ _ (Gives-code f)
                (Gives-seq _ _ (Gives-code o)
                  (Gives-seq _ _ (Gives-order t)
                    (Gives-seq _ _ (Gives-code r) (Gives-frame gaps direct chroma size w h m x e)
                      refl)
                    refl)
                  refl)
                refl)
              refl)
            refl)
          refl)
        refl)
      refl

-- `SubWidthC` and `SubHeightC` of H.264: how many samples in a row and in a column share one of colour;
-- one each, where there is no colour or its planes are coded apart
pub data Shares : Chroma → ℕ → ℕ → Type 0 where
  no_colour : Shares (record { format = 0; separate = 0 }) 1 1
  quarter : Shares (record { format = 1; separate = 0 }) 2 2
  half : Shares (record { format = 2; separate = 0 }) 2 1
  full : Shares (record { format = 3; separate = 0 }) 1 1
  apart : (f s : ℕ) → Shares (record { format = f; separate = suc s }) 1 1

-- The size of H.264: with what is cropped, as many columns and rows as the macroblocks have, which are 16
-- by 16, with twice the rows where a unit is a pair of fields (`mbs` is `frame_mbs_only_flag`)
pub record IsSize (chroma : Chroma) (width height mbs : ℕ) (crop : Crop) (size : ℕ × ℕ)
    : Type 0 where
  pub columns : ℕ
  pub rows : ℕ
  pub shared : Shares chroma columns rows
  pub across : size.0 + columns * (crop.left + crop.right) ≡ width * 16
  pub down : size.1 + rows * (2 - mbs) * (crop.top + crop.bottom) ≡ (2 - mbs) * height * 16
  pub wide : 0 < size.0
  pub tall : 0 < size.1

abbrev checked_size : ℕ → ℕ → Result SpsError (ℕ × ℕ)
checked_size a b = if a == 0 || b == 0 then err invalid_dimensions else ok (a, b)

by_size :
    (a b u v x y : ℕ)
    → x + u ≡ a
    → y + v ≡ b
    → 0 < x
    → 0 < y
    → checked_size (a - u) (b - v) ≡ ok (x, y)
by_size a b u v x y h k w t =
    let first : a - u ≡ x = omega arith in
    let second : b - v ≡ y = omega arith in rw (first, second) (ground arith)

displayed-shared :
    (chroma : Chroma) (width height mbs : ℕ) (crop : Crop) (x y columns rows : ℕ)
    → Shares chroma columns rows
    → x + columns * (crop.left + crop.right) ≡ width * 16
    → y + rows * (2 - mbs) * (crop.top + crop.bottom) ≡ (2 - mbs) * height * 16
    → 0 < x
    → 0 < y
    → displayed chroma width height mbs crop ≡ ok (x, y)
unfolding displayed crop_units array_type_of
displayed-shared chroma width height mbs crop x y columns rows no_colour a d w t =
    by_size (width * 16) ((2 - mbs) * height * 16) (1 * (crop.left + crop.right))
      ((2 - mbs) * (crop.top + crop.bottom)) x y a (omega arith) w t
displayed-shared chroma width height mbs crop x y columns rows quarter a d w t =
    by_size (width * 16) ((2 - mbs) * height * 16) (2 * (crop.left + crop.right))
      (2 * (2 - mbs) * (crop.top + crop.bottom)) x y a (omega arith) w t
displayed-shared chroma width height mbs crop x y columns rows half a d w t =
    by_size (width * 16) ((2 - mbs) * height * 16) (2 * (crop.left + crop.right))
      (1 * (2 - mbs) * (crop.top + crop.bottom)) x y a (omega arith) w t
displayed-shared chroma width height mbs crop x y columns rows full a d w t =
    by_size (width * 16) ((2 - mbs) * height * 16) (1 * (crop.left + crop.right))
      (1 * (2 - mbs) * (crop.top + crop.bottom)) x y a (omega arith) w t
displayed-shared chroma width height mbs crop x y columns rows (apart f s) a d w t =
    let coded : (suc s == 0) ≡ false = ground arith in
    rw coded (
      by_size (width * 16) ((2 - mbs) * height * 16) (1 * (crop.left + crop.right))
        ((2 - mbs) * (crop.top + crop.bottom)) x y a (omega arith) w t)

displayed-IsSize :
    (chroma : Chroma) (width height mbs : ℕ) (crop : Crop) (size : ℕ × ℕ)
    → IsSize chroma width height mbs crop size
    → displayed chroma width height mbs crop ≡ ok size
displayed-IsSize chroma width height mbs crop size s =
    displayed-shared chroma width height mbs crop size.0 size.1 s.columns s.rows s.shared s.across
      s.down s.wide s.tall

-- Where the bytes behind the first one, without their emulation bytes, begin with the bits of a
-- parameter set without scaling matrices, and the first byte has the type of one, `sps_dimensions`
-- returns the size that H.264 gives these fields, if it is positive.
pub sps_dimensions-Writes :
    (header : ℕ) (body rest bs : List ℕ) (chroma : Chroma) (width height mbs : ℕ) (crop : Crop)
    (size : ℕ × ℕ)
    → header % 32 ≡ 7
    → WritesSps bs chroma width height mbs crop
    → bits (rbsp_without_emulation_bytes body) ≡ bs ++ rest
    → IsSize chroma width height mbs crop size
    → sps_dimensions (header ∷ body) ≡ ok size
unfolding sps_dimensions sps_geometry
sps_dimensions-Writes header body rest bs chroma width height mbs crop size nal w e d =
    let (s, read', k) =
      (Gives-geometry size w (displayed-IsSize chroma width height mbs crop size d)).run rest
        (record { data' = rbsp_without_emulation_bytes body; position = 0 })
        (record { ahead = e; inside = omega arith }) in
    let good : (header % 32 == 7) ≡ true = ground arith in
    let geometry : sps_geometry (header ∷ body) ≡ ok (size, s) = rw good read' in
    ap size_of geometry

-- ===== src/Sps/Grammar.antt =====
-- The syntax of a parameter set, as H.264 writes it (for tikrec/flv_codec.py).
use tik_rec.Base.{ℕ, suc, ◌+◌, ◌≤◌, ◌<◌, ◌≡◌, true, false, List, [], ◌∷◌, ◌++◌, length}
use tik_rec.Sps.Syntax.{Chroma, Crop, high_profile_ids, is_in}
use tik_rec.Sps.Bits.{value_of}
use tik_rec.Sps.Codes.{code, number_of}

-- The bits of an unsigned code, and its number
pub data WritesCode : List ℕ → ℕ → Type 0 where
  coded : (bs : List ℕ) → length bs ≤ 31 → WritesCode (code bs) (number_of bs)

-- The bits of `chroma_format_idc` to the scaling flag, which is zero, by the profile
pub data WritesChroma (profile : ℕ) : List ℕ → Chroma → Type 0 where
  plain :
      is_in profile high_profile_ids ≡ false
      → WritesChroma profile [] (record { format = 1; separate = 0 })
  high :
      {fs ls ds : List ℕ} {format luma depth : ℕ} (bypass : ℕ)
      → is_in profile high_profile_ids ≡ true
      → WritesCode fs format
      → format < 3
      → WritesCode ls luma
      → WritesCode ds depth
      → WritesChroma profile
          (fs ++ (ls ++ (ds ++ (bypass ∷ 0 ∷ []))))
          (record { format = format; separate = 0 })
  planes :
      {fs ls ds : List ℕ} {luma depth : ℕ} (separate bypass : ℕ)
      → is_in profile high_profile_ids ≡ true
      → WritesCode fs 3
      → WritesCode ls luma
      → WritesCode ds depth
      → WritesChroma profile
          (fs ++ (separate ∷ (ls ++ (ds ++ (bypass ∷ 0 ∷ [])))))
          (record { format = 3; separate = separate })

pub data WritesOffsets : List ℕ → ℕ → Type 0 where
  no_offset : WritesOffsets [] 0
  offset :
      {bs cs : List ℕ} {n count : ℕ}
      → WritesCode bs n
      → WritesOffsets cs count
      → WritesOffsets (bs ++ cs) (suc count)

-- The fields behind `pic_order_cnt_type`
pub data WritesOrder : ℕ → List ℕ → Type 0 where
  lowest_bits : {bs : List ℕ} {n : ℕ} → WritesCode bs n → WritesOrder 0 bs
  cycle :
      {ps fs ns os : List ℕ} {p f n : ℕ} (always_zero : ℕ)
      → WritesCode ps p
      → WritesCode fs f
      → WritesCode ns n
      → WritesOffsets os n
      → WritesOrder 1 (always_zero ∷ (ps ++ (fs ++ (ns ++ os))))
  as_decoded : WritesOrder 2 []

-- `frame_mbs_only_flag` with the flag that follows a zero
pub data WritesMbs : List ℕ → ℕ → Type 0 where
  frames : WritesMbs (1 ∷ []) 1
  fields : (adaptive : ℕ) → WritesMbs (0 ∷ adaptive ∷ []) 0

-- `frame_cropping_flag` with the offsets that follow a one
pub data WritesCrop : List ℕ → Crop → Type 0 where
  whole : WritesCrop (0 ∷ []) (record { left = 0; right = 0; top = 0; bottom = 0 })
  cropped :
      {ls rs ts bs : List ℕ} {l r t b : ℕ}
      → WritesCode ls l
      → WritesCode rs r
      → WritesCode ts t
      → WritesCode bs b
      → WritesCrop
          (1 ∷ (ls ++ (rs ++ (ts ++ bs))))
          (record { left = l; right = r; top = t; bottom = b })

-- A parameter set to its cropping, with the facts that decide the displayed size
pub data WritesSps : List ℕ → Chroma → ℕ → ℕ → ℕ → Crop → Type 0 where
  parameter_set :
      {is cs fs os ts rs ws hs ms xs : List ℕ} {id frame_num order refs w h mbs_only : ℕ}
      {chroma : Chroma} {crop : Crop} (profile constraints level : List ℕ) (gaps direct : ℕ)
      → length profile ≡ 8
      → length constraints ≡ 8
      → length level ≡ 8
      → WritesCode is id
      → WritesChroma (value_of 0 profile) cs chroma
      → WritesCode fs frame_num
      → WritesCode os order
      → WritesOrder order ts
      → WritesCode rs refs
      → WritesCode ws w
      → WritesCode hs h
      → WritesMbs ms mbs_only
      → WritesCrop xs crop
      → WritesSps
          (profile
            ++ (constraints
                ++ (level
                    ++ (is
                        ++ (cs
                            ++ (fs
                                ++ (os
                                    ++ (ts
                                        ++ (rs
                                            ++ (gaps
                                                ∷ (ws ++ (hs ++ (ms ++ (direct ∷ xs))))))))))))))
          chroma
          (w + 1)
          (h + 1)
          mbs_only
          crop

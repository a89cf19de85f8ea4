-- ===== src/Writer/Content.antt =====
-- What the handle of a part holds: the file header and the encodings of a list of tags
-- (tikrec/writer.py).
use tik_rec.Base.{
  ℕ, suc, ◌+◌, ◌≡◌, refl, true, false, Option, none, some, List, [], ◌∷◌, ◌++◌, if◌then◌else◌,
  arith, Result, ok, err, ◌>>=◌, append-nil, append_assoc,
}
use tik_rec.Flv.{FlvTag, is_media, is_avc_configuration, is_configuration, encoded, second_byte_is}
use tik_rec.Flv.Reader.{FlvError}
use tik_rec.Writer.{is_video_keyframe}

-- The encodings of a list of tags, one after another.
unfoldable pub encode_all : ℕ → List FlvTag → Result FlvError (List ℕ)
encode_all base [] = ok []
encode_all base (t ∷ ts) = do b ← encoded base t; rest ← encode_all base ts; ok (b ++ rest)

pub encode_all-append :
    (base : ℕ) (ts : List FlvTag) (t : FlvTag) (body b : List ℕ)
    → encode_all base ts ≡ ok body
    → encoded base t ≡ ok b
    → encode_all base (ts ++ t ∷ []) ≡ ok (body ++ b)
unfolding encode_all
encode_all-append base [] t body b h e = rw e (ground (arith, append-nil b))
encode_all-append base (x ∷ ts) t body b h e =
    go (encoded base x) (encode_all base ts) (λ d p. encode_all-append base ts t d b p e) h
  where
    go :
        (r : Result FlvError (List ℕ)) (q : Result FlvError (List ℕ))
        → ((d : List ℕ) → q ≡ ok d → encode_all base (ts ++ t ∷ []) ≡ ok (d ++ b))
        → (r >>= (λ c. q >>= (λ d. ok (c ++ d)))) ≡ ok body
        → (r >>= (λ c. encode_all base (ts ++ t ∷ []) >>= (λ d. ok (c ++ d)))) ≡ ok (body ++ b)
    go (ok c) (ok d) p s = rw (p d refl) (cc (append_assoc c d b, s))
    go (ok c) (err d) p s = cc
    go (err c) q p s = cc

abbrev pub count_media : List FlvTag → ℕ
count_media [] = 0
count_media (t ∷ ts) = let rest = count_media ts in if is_media t then suc rest else rest

abbrev pub first_media : List FlvTag → Option FlvTag
first_media [] = none
first_media (t ∷ ts) = if is_media t then some t else first_media ts

pub count_media-append :
    (ts : List FlvTag) (t : FlvTag)
    → count_media (ts ++ t ∷ []) ≡ (if is_media t then count_media ts + 1 else count_media ts)
count_media-append [] t = ground arith
count_media-append (x ∷ ts) t = ground (arith, count_media-append ts t)

-- A decodable part: its decoder configuration first, and a video keyframe before all other media.
abbrev pub IsDecodable : List FlvTag → Type 0
IsDecodable [] = ⊥
IsDecodable (c ∷ ts) =
    (is_avc_configuration c ≡ true)
    × ((k : FlvTag) × (first_media ts ≡ some k) × (is_video_keyframe k ≡ true))

pub first_media-append :
    (ts : List FlvTag) (t k : FlvTag)
    → first_media ts ≡ some k
    → first_media (ts ++ t ∷ []) ≡ some k
first_media-append [] t k h = cc
first_media-append (x ∷ ts) t k h = ground (arith, first_media-append ts t k)

pub first_media-append_none :
    (ts : List FlvTag) (t : FlvTag)
    → count_media ts ≡ 0
    → is_media t ≡ true
    → first_media (ts ++ t ∷ []) ≡ some t
first_media-append_none [] t h m = ground arith
first_media-append_none (x ∷ ts) t h m = ground (arith, first_media-append_none ts t)

pub IsDecodable-append :
    (ts : List FlvTag) (t : FlvTag) → IsDecodable ts → IsDecodable (ts ++ t ∷ [])
IsDecodable-append [] t h = absurd h
IsDecodable-append (c ∷ ts) t h = (h.0, (h.1.0, first_media-append ts t h.1.0 h.1.1, h.1.2))

second_bytes_differ : (p : List ℕ) → second_byte_is 0 p ≡ true → second_byte_is 1 p ≡ false
unfolding second_byte_is
second_bytes_differ [] h = refl
second_bytes_differ (_ ∷ []) h = refl
second_bytes_differ (_ ∷ b ∷ _) h = ground arith

-- A configuration is no media: its second byte is 0, and that of media is 1.
pub is_configuration-not_media : (t : FlvTag) → is_configuration t ≡ true → is_media t ≡ false
unfolding is_configuration is_media
is_configuration-not_media t h = ground (arith, second_bytes_differ t.payload)

pub is_avc_configuration-not_media :
    (t : FlvTag) → is_avc_configuration t ≡ true → is_media t ≡ false
unfolding is_avc_configuration is_media is_configuration
is_avc_configuration-not_media t h = ground (arith, second_bytes_differ t.payload)

-- ===== src/Flv/Tests.antt =====
-- Runs of the tag reader and writer on small inputs (tikrec/flv.py).
use tik_rec.Base.{ℕ, ◌≡◌, refl, some, List, [], ◌∷◌, ◌++◌, arith, All, ok, err}
use tik_rec.Flv.{FlvTag, encoded, read_tag}
use tik_rec.Flv.Reader.{eof, Stream, join, read_exact, read_header}
use tik_rec.Flv.Bytes.{IsByte, to_bytes, from_bytes}
use tik_rec.Flv.ReadExact.{IsLive, ReadsExact, read_exact_lem}
use tik_rec.Flv.RoundTrip.{IsTag, ReadsTag, read_tag-encoded}
use tik_rec.Flv.Canonical.{Parses, read_tag-Parses}

abbrev keyframe : FlvTag
keyframe = record {
  tag_type = 9;
  timestamp = 0x1000005;
  stream_id = 0 ∷ 0 ∷ 0 ∷ [];
  payload = 0x17 ∷ 1 ∷ 42 ∷ [];
}

abbrev keyframe_bytes : List ℕ
keyframe_bytes = 9 ∷ 0 ∷ 0 ∷ 3 ∷ 0 ∷ 0 ∷ 5 ∷ 1 ∷ 0 ∷ 0 ∷ 0 ∷ 0x17 ∷ 1 ∷ 42 ∷ 0 ∷ 0 ∷ 0 ∷ 14 ∷ []

keyframe-encoded : encoded 0 keyframe ≡ ok keyframe_bytes
unfolding encoded to_bytes
keyframe-encoded = refl

-- The connection cuts the tag in the middle of its header and of its trailing size.
abbrev chunks : Stream
chunks =
    (9 ∷ 0 ∷ 0 ∷ 3 ∷ [])
    ∷ (0 ∷ 0 ∷ 5 ∷ 1 ∷ 0 ∷ 0 ∷ 0 ∷ 0x17 ∷ 1 ∷ 42 ∷ 0 ∷ 0 ∷ [])
    ∷ (0 ∷ 14 ∷ 8 ∷ [])
    ∷ []

read_tag-chunks : read_tag chunks ≡ ok (some keyframe, (8 ∷ []) ∷ [])
unfolding read_tag read_exact read_header from_bytes
read_tag-chunks = refl

read_tag-truncated : read_tag ((9 ∷ 0 ∷ []) ∷ []) ≡ err (eof 9)
unfolding read_tag read_header
read_tag-truncated = refl

keyframe-IsTag : IsTag keyframe
keyframe-IsTag = record { type_byte = omega arith; four_bytes = omega arith; id_bytes = refl }

chunks-IsLive : IsLive chunks
chunks-IsLive = omega arith

join-chunks : join chunks ≡ keyframe_bytes ++ 8 ∷ []
unfolding join
join-chunks = refl

read_exact_lem_example : ReadsExact 5 chunks (read_exact 5 chunks)
read_exact_lem_example = read_exact_lem 5 chunks chunks-IsLive

read_tag-encoded_example : ReadsTag 0 keyframe (8 ∷ []) (read_tag chunks)
read_tag-encoded_example =
    read_tag-encoded 0 keyframe keyframe_bytes (8 ∷ []) chunks keyframe-IsTag keyframe-encoded
      chunks-IsLive join-chunks

chunks-IsByte : All IsByte (join chunks)
unfolding join
chunks-IsByte = omega arith

read_tag-Parses_example : Parses (join chunks) (read_tag chunks)
read_tag-Parses_example = read_tag-Parses chunks chunks-IsLive chunks-IsByte

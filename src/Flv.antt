-- ===== src/Flv.antt =====
-- Tags of an FLV stream and their wire form (tikrec/flv.py). A byte string is a list of numbers.
pub mod Reader
pub mod ReadExact
pub mod Bytes
pub mod RoundTrip
pub mod Canonical
mod Tests
use tik_rec.Base.{
  ℕ, ◌+◌, ◌-◌, ◌*◌, ◌/◌, ◌%◌, ◌^◌, Bool, true, false, ◌&&◌, ◌||◌, not, Option, none, some, List, [],
  ◌∷◌, ◌++◌, length, take, drop, get_or, ltb, leb, ◌==◌, if◌then◌else◌, is_nil, Result, ok, err,
  ◌>>=◌, ◌>>◌, raise_if,
}
use Reader.{FlvError, bad_value, bad_format, eof, overflow, Stream, read_exact, read_header}
use Bytes.{to_bytes, from_bytes}

abbrev pub flv_audio_tag : ℕ
flv_audio_tag = 8

abbrev pub flv_video_tag : ℕ
flv_video_tag = 9

abbrev pub avc_codec_id : ℕ
avc_codec_id = 7

pub record FlvTag : Type 0 where
  pub tag_type : ℕ
  pub timestamp : ℕ
  pub stream_id : List ℕ
  pub payload : List ℕ

-- The constructor with the checks of `__post_init__`.
unfoldable pub make_tag : ℕ → ℕ → List ℕ → List ℕ → Result FlvError FlvTag
make_tag tag_type timestamp stream_id payload = do
  raise_if (ltb 0xff tag_type) bad_value
  raise_if (ltb 0xffffffff timestamp) bad_value
  raise_if (not (length stream_id == 3)) bad_value
  ok (record {
    tag_type = tag_type;
    timestamp = timestamp;
    stream_id = stream_id;
    payload = payload;
  })

unfoldable pub is_audio_or_video : FlvTag → Bool
is_audio_or_video t = t.tag_type == flv_audio_tag || t.tag_type == flv_video_tag

-- `len(payload) >= 2 and payload[1] == k`
unfoldable pub second_byte_is : ℕ → List ℕ → Bool
second_byte_is k (_ ∷ b ∷ _) = b == k
second_byte_is k _ = false

unfoldable pub is_configuration : FlvTag → Bool
unfolding is_audio_or_video second_byte_is
is_configuration t = is_audio_or_video t && second_byte_is 0 t.payload

unfoldable pub is_media : FlvTag → Bool
unfolding is_audio_or_video second_byte_is
is_media t = is_audio_or_video t && second_byte_is 1 t.payload

-- `payload and (payload[0] & 0x0F) == AVC_CODEC_ID`
unfoldable pub has_avc_codec : List ℕ → Bool
has_avc_codec [] = false
has_avc_codec (b ∷ _) = b % 16 == avc_codec_id

unfoldable pub is_avc_configuration : FlvTag → Bool
unfolding has_avc_codec is_configuration
is_avc_configuration t =
    t.tag_type == flv_video_tag && has_avc_codec t.payload && is_configuration t

-- `max(0, timestamp - base_timestamp)`: subtraction on ℕ stops at 0.
unfoldable pub rebased : ℕ → FlvTag → ℕ
rebased base t = t.timestamp - base

-- The eleven header bytes; the high timestamp byte stands after the low three.
unfoldable pub tag_header : ℕ → FlvTag → List ℕ
unfolding rebased
tag_header base t =
    (t.tag_type ∷ [])
    ++ (to_bytes 3 (length t.payload)
        ++ (to_bytes 3 (rebased base t % 2 ^ 24)
            ++ ((rebased base t / 2 ^ 24 % 256) ∷ t.stream_id)))

unfoldable pub encoded : ℕ → FlvTag → Result FlvError (List ℕ)
unfolding tag_header
encoded base t =
    if ltb 0xffffff (length t.payload)
    then err bad_value
    else ok (tag_header base t ++ (t.payload ++ to_bytes 4 (11 + length t.payload)))

-- `int.from_bytes(header[1:4], "big")`
unfoldable pub header_size : List ℕ → ℕ
header_size header = from_bytes (take 3 (drop 1 header))

-- The low three bytes are below 2 ^ 24, so `|` with the shifted high byte is a sum.
unfoldable pub header_timestamp : List ℕ → ℕ
header_timestamp header = from_bytes (take 3 (drop 4 header)) + get_or header 7 0 * 2 ^ 24

-- The end of `read_tag`, with all bytes read: the size check, and the tag.
unfoldable pub finish_tag :
    List ℕ → List ℕ → List ℕ → Stream → Result FlvError (Option FlvTag × Stream)
unfolding make_tag header_size header_timestamp
finish_tag header payload previous s = do
  raise_if (not (from_bytes previous == 11 + header_size header)) bad_format
  t ← make_tag (get_or header 0 0) (header_timestamp header) (take 3 (drop 8 header)) payload
  ok (some t, s)

-- The part of `read_tag` after the header.
unfoldable pub read_body : List ℕ → Stream → Result FlvError (Option FlvTag × Stream)
unfolding finish_tag
read_body header s = do
  (payload, s1) ← read_exact (header_size header) s
  (previous, s2) ← read_exact 4 s1
  finish_tag header payload previous s2

unfoldable pub read_tag : Stream → Result FlvError (Option FlvTag × Stream)
unfolding read_body
read_tag s = do
  (header, s1) ← read_header 11 s
  elim header [ none ↦ ok (none, s1) | some h ↦ read_body h s1 ]

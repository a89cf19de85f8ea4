-- ===== src/Flv/RoundTrip.antt =====
-- `encoded` followed by `read_tag` (tikrec/flv.py).
use tik_rec.Base.{
  ℕ, ◌+◌, ◌-◌, ◌%◌, ◌^◌, ◌<◌, ◌≡◌, refl, sym, ap, ◌∙◌, true, Option, none, some, List, [], ◌++◌,
  length, take, drop, get_or, arith, Result, ok, err, append_assoc, append-cancel, take-all,
  ==-refl, length-append,
}
use tik_rec.Flv.{
  FlvTag, make_tag, rebased, tag_header, encoded, header_size, header_timestamp, read_body,
  read_tag,
}
use tik_rec.Flv.Reader.{FlvError, eof, Stream, join, read_exact, read_header}
use tik_rec.Flv.ReadExact.{IsLive, ReadsExact, read_exact_lem, Reads, read_header-Reads}
use tik_rec.Flv.Bytes.{to_bytes, length-to_bytes, from_bytes-to_bytes_3, from_bytes-to_bytes_4}

-- What `__post_init__` checks.
pub record IsTag (t : FlvTag) : Type 0 where
  pub type_byte : t.tag_type < 256
  pub four_bytes : t.timestamp < 2 ^ 32
  pub id_bytes : length t.stream_id ≡ 3

pub make_tag_valid :
    (t : FlvTag) → IsTag t → make_tag t.tag_type t.timestamp t.stream_id t.payload ≡ ok t
unfolding make_tag
make_tag_valid t v = ground arith

pub length-tag_header : (base : ℕ) (t : FlvTag) → IsTag t → length (tag_header base t) ≡ 11
unfolding tag_header to_bytes
length-tag_header base t v = omega (arith, v.id_bytes)

-- The fields that the reader takes from a header are those that the writer put there.
pub header_size_lem :
    (base : ℕ) (t : FlvTag)
    → length t.payload < 2 ^ 24
    → header_size (tag_header base t) ≡ length t.payload
unfolding header_size tag_header to_bytes
header_size_lem base t h = from_bytes-to_bytes_3 (length t.payload) h

rebased_lem : (base : ℕ) (t : FlvTag) → rebased base t ≡ t.timestamp - base
unfolding rebased
rebased_lem base t = refl

pub header_timestamp_lem :
    (base : ℕ) (t : FlvTag) → IsTag t → header_timestamp (tag_header base t) ≡ t.timestamp - base
unfolding header_timestamp tag_header to_bytes
header_timestamp_lem base t v = omega (
  arith,
  v.four_bytes,
  from_bytes-to_bytes_3 (rebased base t % 2 ^ 24) (omega arith),
  rebased_lem base t,
)

pub header_type_lem : (base : ℕ) (t : FlvTag) → get_or (tag_header base t) 0 0 ≡ t.tag_type
unfolding tag_header
header_type_lem base t = refl

pub header_id_lem :
    (base : ℕ) (t : FlvTag) → IsTag t → take 3 (drop 8 (tag_header base t)) ≡ t.stream_id
unfolding tag_header to_bytes
header_id_lem base t v = take-all 3 t.stream_id (omega (arith, v.id_bytes))

-- A read that must succeed does, where the bytes are there.
abbrev Takes : ℕ → Stream → List ℕ → List ℕ → Type 0
Takes n s b rest = (s' : Stream) × (read_exact n s ≡ ok (b, s')) × (join s' ≡ rest) × IsLive s'

read_exact_at :
    (n : ℕ) (s : Stream) (b rest : List ℕ)
    → IsLive s
    → join s ≡ b ++ rest
    → length b ≡ n
    → Takes n s b rest
read_exact_at n s b rest live e h = go (read_exact n s) refl (read_exact_lem n s live)
  where
    go :
        (r : Result FlvError (List ℕ × Stream))
        → read_exact n s ≡ r
        → ReadsExact n s r
        → Takes n s b rest
    go (ok (b', s')) p q =
        let same = append-cancel b' b (join s') rest (sym q.0 ∙ e) (omega (arith, q.1)) in
        (s', p ∙ ap (λ x. ok (x, s')) same.0, same.1, q.2)
    go (err (eof m)) p q = absurd (omega (arith, q, ap (length {0}) e, length-append {0} b rest))
    go (err FlvError.bad_value) p q = absurd q
    go (err FlvError.bad_format) p q = absurd q
    go (err FlvError.overflow) p q = absurd q
    go (err FlvError.out_of_fuel) p q = absurd q

abbrev TakesHeader : Stream → List ℕ → List ℕ → Type 0
TakesHeader s b rest =
    (s' : Stream) × (read_header 11 s ≡ ok (some b, s')) × (join s' ≡ rest) × IsLive s'

read_header_at :
    (s : Stream) (b rest : List ℕ)
    → IsLive s
    → join s ≡ b ++ rest
    → length b ≡ 11
    → TakesHeader s b rest
unfolding join
read_header_at s b rest live e h = go (read_header 11 s) refl (read_header-Reads 11 s live)
  where
    go :
        (r : Result FlvError (Option (List ℕ) × Stream))
        → read_header 11 s ≡ r
        → Reads true 11 [] s r
        → TakesHeader s b rest
    go (ok (some b', s')) p q =
        let same = append-cancel b' b (join s') rest (sym q.0 ∙ e) (omega (arith, q.1)) in
        (s', p ∙ ap (λ x. ok (some x, s')) same.0, same.1, q.2)
    go (ok (none, s')) p q =
        absurd (omega (arith, ap (length {0}) q.2, ap (length {0}) e, length-append {0} b rest))
    go (err (eof m)) p q =
        absurd (omega (arith, q.0, q.1, ap (length {0}) e, length-append {0} b rest))
    go (err FlvError.bad_value) p q = absurd q
    go (err FlvError.bad_format) p q = absurd q
    go (err FlvError.overflow) p q = absurd q
    go (err FlvError.out_of_fuel) p q = absurd q

-- The tag that stands in a part whose timestamps begin at `base`.
abbrev pub rebase : ℕ → FlvTag → FlvTag
rebase base t = record t { timestamp = t.timestamp - base }

pub rebase-IsTag : (base : ℕ) (t : FlvTag) → IsTag t → IsTag (rebase base t)
rebase-IsTag base t v = record {
  type_byte = v.type_byte;
  four_bytes = omega (arith, v.four_bytes);
  id_bytes = v.id_bytes;
}

abbrev pub ReadsTag : ℕ → FlvTag → List ℕ → Result FlvError (Option FlvTag × Stream) → Type 0
ReadsTag base t rest r =
    (s' : Stream) × (r ≡ ok (some (rebase base t), s')) × (join s' ≡ rest) × IsLive s'

read_body_at :
    (base : ℕ) (t : FlvTag) (s : Stream) (rest : List ℕ)
    → IsTag t
    → length t.payload < 2 ^ 24
    → IsLive s
    → join s ≡ t.payload ++ (to_bytes 4 (11 + length t.payload) ++ rest)
    → ReadsTag base t rest (read_body (tag_header base t) s)
unfolding read_body
read_body_at base t s rest v fits live e =
    let size = header_size_lem base t fits in
    let (s1, e1, j1, l1) =
      read_exact_at (header_size (tag_header base t)) s t.payload _ live e (sym size) in
    let (s2, e2, j2, l2) =
      read_exact_at 4 s1 (to_bytes 4 (11 + length t.payload)) rest l1 j1 (length-to_bytes 4 _) in
    (
      s2,
      rw (e1, e2, size, from_bytes-to_bytes_4 (11 + length t.payload) (omega arith)) rw
          (
            ==-refl (11 + length t.payload),
            header_type_lem base t,
            header_timestamp_lem base t v,
            header_id_lem base t v,
            make_tag_valid (rebase base t) (rebase-IsTag base t v),
          ),
      j2,
      l2,
    )

encoded-ok :
    (base : ℕ) (t : FlvTag) (bytes : List ℕ)
    → encoded base t ≡ ok bytes
    → (length t.payload < 2 ^ 24)
      × (bytes ≡ tag_header base t ++ (t.payload ++ to_bytes 4 (11 + length t.payload)))
unfolding encoded
encoded-ok base t bytes h = ground arith

-- A valid tag that `encoded` writes with any base is read back by `read_tag`, however the bytes are cut
-- into chunks that are not empty and whatever follows them: the same type, stream id and payload, and the timestamp less `base`, or zero for a
-- timestamp before `base`; the bytes behind the tag are left in the stream.
pub read_tag-encoded :
    (base : ℕ) (t : FlvTag) (bytes rest : List ℕ) (s : Stream)
    → IsTag t
    → encoded base t ≡ ok bytes
    → IsLive s
    → join s ≡ bytes ++ rest
    → ReadsTag base t rest (read_tag s)
unfolding read_tag
read_tag-encoded base t bytes rest s v enc live e =
    let (fits, shape) = encoded-ok base t bytes enc in
    let (s1, e1, j1, l1) =
      read_header_at s (tag_header base t)
        ((t.payload ++ to_bytes 4 (11 + length t.payload)) ++ rest) live
        (rw (e, shape)
          (append_assoc (tag_header base t) (t.payload ++ to_bytes 4 (11 + length t.payload)) rest))
        (length-tag_header base t v) in
    rw e1 (
      read_body_at base t s1 rest v fits l1
        (j1 ∙ append_assoc t.payload (to_bytes 4 (11 + length t.payload)) rest))

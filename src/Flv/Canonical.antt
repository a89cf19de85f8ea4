-- ===== src/Flv/Canonical.antt =====
-- What `read_tag` (tikrec/flv.py) accepts, against the bytes that `encoded` writes.
use tik_rec.Base.{
  ◌∙◌, ◌-◌, ◌/◌, ◌%◌, ℕ, ◌+◌, ◌*◌, ◌^◌, ◌<◌, ◌≡◌, ◌≢◌, ◌⊎◌, refl, ap, true, false, Option, none,
  some, List, [], ◌∷◌, ◌++◌, length, arith, Result, ok, err, ◌>>=◌, ◌==◌, append_assoc, take, drop,
  All, Bool-cases, All-append_left, All-append_right, inl, inr, ==→eq,
}
use tik_rec.Flv.{
  FlvTag, tag_header, encoded, header_size, header_timestamp, finish_tag, read_body, read_tag,
}
use tik_rec.Flv.Reader.{FlvError, eof, Stream, join, read_exact, read_header}
use tik_rec.Flv.ReadExact.{IsLive, ReadsExact, read_exact_lem, Reads, read_header-Reads}
use tik_rec.Flv.Bytes.{
  IsByte, to_bytes, from_bytes, to_bytes-from_bytes_3, to_bytes-from_bytes_4, from_bytes-lt_3,
}
use tik_rec.Flv.RoundTrip.{IsTag, make_tag_valid}

-- The number that the second to fourth byte of a header name
abbrev pub named_size : List ℕ → ℕ
named_size header = from_bytes (take 3 (drop 1 header))

-- So many bytes are missing: of a header, of the payload that a header names, or of the size behind it.
pub data IsMissing (flat : List ℕ) (m : ℕ) : Type 0 where
  of_header : length flat + m ≡ 11 → IsMissing flat m
  of_payload :
      (header rest : List ℕ)
      → flat ≡ header ++ rest
      → length header ≡ 11
      → length rest + m ≡ named_size header
      → IsMissing flat m
  of_size :
      (header payload rest : List ℕ)
      → flat ≡ header ++ (payload ++ rest)
      → length header ≡ 11
      → length payload ≡ named_size header
      → length rest + m ≡ 4
      → IsMissing flat m

-- All bytes of a tag are there, and the four behind the payload do not name its size.
pub record HasWrongSize (flat : List ℕ) : Type 0 where
  pub header : List ℕ
  pub payload : List ℕ
  pub previous : List ℕ
  pub rest : List ℕ
  pub shape : flat ≡ header ++ (payload ++ (previous ++ rest))
  pub eleven : length header ≡ 11
  pub sized : length payload ≡ named_size header
  pub four : length previous ≡ 4
  pub differs : from_bytes previous ≢ 11 + length payload

-- What `read_tag` says of the bytes `flat` of a stream, for each way to end.
abbrev pub Parses : List ℕ → Result FlvError (Option FlvTag × Stream) → Type 0
Parses flat (ok (some t, s')) =
    IsTag t × ((bytes : List ℕ) × (encoded 0 t ≡ ok bytes) × (flat ≡ bytes ++ join s'))
Parses flat (ok (none, s')) = (flat ≡ [])
Parses flat (err (eof m)) = (flat ≢ []) × (0 < m) × IsMissing flat m
Parses flat (err FlvError.bad_format) = HasWrongSize flat
Parses flat (err _) = ⊥

encoded_fits :
    (t : FlvTag)
    → length t.payload < 2 ^ 24
    → encoded 0 t ≡ ok (tag_header 0 t ++ (t.payload ++ to_bytes 4 (11 + length t.payload)))
unfolding encoded
encoded_fits t h = ground arith

wrong_size : (a b : ℕ) → (a == b) ≡ false → a ≢ b
wrong_size a b h e = ground arith

-- The tag of a header of bytes is valid, and is written back as that header.
module _ (b0 b1 b2 b3 b4 b5 b6 b7 b8 b9 b10 : ℕ) (payload : List ℕ)
    (h : All IsByte (b0 ∷ b1 ∷ b2 ∷ b3 ∷ b4 ∷ b5 ∷ b6 ∷ b7 ∷ b8 ∷ b9 ∷ b10 ∷ []))
    (size : length payload
      ≡ header_size (b0 ∷ b1 ∷ b2 ∷ b3 ∷ b4 ∷ b5 ∷ b6 ∷ b7 ∷ b8 ∷ b9 ∷ b10 ∷ [])) where
  abbrev header : List ℕ
  header = b0 ∷ b1 ∷ b2 ∷ b3 ∷ b4 ∷ b5 ∷ b6 ∷ b7 ∷ b8 ∷ b9 ∷ b10 ∷ []

  abbrev tag : FlvTag
  tag = record {
    tag_type = b0;
    timestamp = header_timestamp header;
    stream_id = b8 ∷ b9 ∷ b10 ∷ [];
    payload = payload;
  }

  low_bytes : header_timestamp header ≡ from_bytes (b4 ∷ b5 ∷ b6 ∷ []) + b7 * 2 ^ 24
  unfolding header_timestamp
  low_bytes = refl

  low_bound : from_bytes (b4 ∷ b5 ∷ b6 ∷ []) < 2 ^ 24
  low_bound = from_bytes-lt_3 b4 b5 b6 h.1.1.1.1.0 h.1.1.1.1.1.0 h.1.1.1.1.1.1.0

  tag-IsTag : IsTag tag
  tag-IsTag = record {
    type_byte = h.0;
    four_bytes = omega (arith, low_bytes, low_bound, h.1.1.1.1.1.1.1.0);
    id_bytes = refl;
  }

  payload_fits : length payload < 2 ^ 24
  unfolding header_size
  payload_fits = omega (arith, size, from_bytes-lt_3 b1 b2 b3 h.1.0 h.1.1.0 h.1.1.1.0)

  tag_header_lem : tag_header 0 tag ≡ header
  unfolding tag_header header_size
  tag_header_lem = rw (
    size,
    low_split,
    high_split,
    to_bytes-from_bytes_3 b1 b2 b3 h.1.0 h.1.1.0 h.1.1.1.0,
    to_bytes-from_bytes_3 b4 b5 b6 h.1.1.1.1.0 h.1.1.1.1.1.0 h.1.1.1.1.1.1.0,
  )
    where
      low_split : (header_timestamp header - 0) % 2 ^ 24 ≡ from_bytes (b4 ∷ b5 ∷ b6 ∷ [])
      low_split = omega (arith, low_bytes, low_bound, h.1.1.1.1.1.1.1.0)

      high_split : (header_timestamp header - 0) / 2 ^ 24 % 256 ≡ b7
      high_split = omega (arith, low_bytes, low_bound, h.1.1.1.1.1.1.1.0)

  finish_tag-Parses :
      (p0 p1 p2 p3 : ℕ) (s : Stream)
      → All IsByte (p0 ∷ p1 ∷ p2 ∷ p3 ∷ [])
      → Parses
          (header ++ (payload ++ ((p0 ∷ p1 ∷ p2 ∷ p3 ∷ []) ++ join s)))
          (finish_tag header payload (p0 ∷ p1 ∷ p2 ∷ p3 ∷ []) s)
  unfolding finish_tag
  finish_tag-Parses p0 p1 p2 p3 s hp =
      elim (Bool-cases (from_bytes (p0 ∷ p1 ∷ p2 ∷ p3 ∷ []) == 11 + header_size header)) [
        | inr differs ↦ rw differs (record {
          header = header;
          payload = payload;
          previous = p0 ∷ p1 ∷ p2 ∷ p3 ∷ [];
          rest = join s;
          shape = refl;
          eleven = refl;
          sized = unfold header_size in size;
          four = refl;
          differs = λ e.
              wrong_size (from_bytes (p0 ∷ p1 ∷ p2 ∷ p3 ∷ [])) _ differs
                (e ∙ ap (λ n. 11 + n) size);
        })
        | inl same ↦
            let four_lem : to_bytes 4 (11 + length payload) ≡ p0 ∷ p1 ∷ p2 ∷ p3 ∷ [] =
              rw (size, ← ==→eq _ _ same)
                (to_bytes-from_bytes_4 p0 p1 p2 p3 hp.0 hp.1.0 hp.1.1.0 hp.1.1.1.0) in
            rw (same, make_tag_valid tag tag-IsTag)
              (
                tag-IsTag,
                (
                  tag_header 0 tag ++ (payload ++ to_bytes 4 (11 + length payload)),
                  encoded_fits tag payload_fits,
                  rw (tag_header_lem, four_lem, append_assoc),
                ),
              )
      ]

-- The same for lists of the right lengths.
finish-Parses :
    (header payload previous : List ℕ) (s : Stream)
    → length header ≡ 11
    → length previous ≡ 4
    → length payload ≡ header_size header
    → All IsByte header
    → All IsByte previous
    → Parses (header ++ (payload ++ (previous ++ join s))) (finish_tag header payload previous s)
finish-Parses (b0 ∷ b1 ∷ b2 ∷ b3 ∷ b4 ∷ b5 ∷ b6 ∷ b7 ∷ b8 ∷ b9 ∷ b10 ∷ []) payload
      (p0 ∷ p1 ∷ p2 ∷ p3 ∷ []) s eleven four size h hp =
    finish_tag-Parses b0 b1 b2 b3 b4 b5 b6 b7 b8 b9 b10 payload h size p0 p1 p2 p3 s hp
finish-Parses header payload previous s eleven four size h hp = absurd (omega (arith, eleven, four))

-- A failed read of the bytes behind a header.
Parses-short :
    (header rest : List ℕ) (n : ℕ) (s : Stream) (e : FlvError)
    → length header ≡ 11
    → ((m : ℕ) → length (join s) + m ≡ n → IsMissing (header ++ rest) m)
    → ReadsExact n s (err e)
    → Parses (header ++ rest) (err e)
Parses-short (b ∷ header) rest n s (eof m) h k r = (λ p. cc p, r.1, k m r.0)
Parses-short [] rest n s (eof m) h k r = absurd (omega (arith, h))
Parses-short header rest n s FlvError.bad_value h k r = absurd r
Parses-short header rest n s FlvError.bad_format h k r = absurd r
Parses-short header rest n s FlvError.overflow h k r = absurd r
Parses-short header rest n s FlvError.out_of_fuel h k r = absurd r

read_body-Parses :
    (header : List ℕ) (s : Stream)
    → length header ≡ 11
    → IsLive s
    → All IsByte header
    → All IsByte (join s)
    → Parses (header ++ join s) (read_body header s)
unfolding read_body
read_body-Parses header s eleven live h hs =
    payload_read (read_exact (header_size header) s) (read_exact_lem (header_size header) s live)
  where
    previous_read :
        (payload : List ℕ) (s1 : Stream) (r : Result FlvError (List ℕ × Stream))
        → ReadsExact 4 s1 r
        → length payload ≡ header_size header
        → All IsByte (join s1)
        → Parses (header ++ (payload ++ join s1)) (r >>= (λ x. finish_tag header payload x.0 x.1))
    previous_read payload s1 (ok (b, s2)) q size bytes = rw q.0 (
        finish-Parses header payload b s2 eleven q.1 size h
          (All-append_left IsByte b (join s2) (rw q.0 at bytes)))
    previous_read payload s1 (err e) q size bytes =
        Parses-short header (payload ++ join s1) 4 s1 e eleven
          (λ m missing.
            IsMissing.of_size header payload (join s1) refl eleven (unfold header_size in size)
              missing)
          q

    payload_read :
        (r : Result FlvError (List ℕ × Stream))
        → ReadsExact (header_size header) s r
        → Parses
            (header ++ join s)
            (r >>= (λ x. read_exact 4 x.1 >>= (λ y. finish_tag header x.0 y.0 y.1)))
    payload_read (ok (payload, s1)) q = rw q.0 (
        previous_read payload s1 (read_exact 4 s1) (read_exact_lem 4 s1 q.2) q.1
          (All-append_right IsByte payload (join s1) (rw q.0 at hs)))
    payload_read (err e) q =
        Parses-short header (join s) (header_size header) s e eleven
          (λ m missing.
            IsMissing.of_payload header (join s) refl eleven (unfold header_size in missing))
          q

has_bytes : (xs : List ℕ) → (true ≡ false) ⊎ (0 < 0 + length xs) → 0 < length xs
has_bytes xs (inl p) = cc p
has_bytes xs (inr h) = omega arith

-- On any stream of bytes with no empty chunk, `read_tag` returns a valid tag only in front of that tag's own
-- encoding, and no tag only at the very end of the stream. It fails for missing bytes only where the
-- stream is not empty and so many bytes are missing of the header, of the payload that the header names,
-- or of the size behind it; and for a wrong size only where all of these are there and the size behind
-- the payload is not that of the tag. It never fails in any other way.
pub read_tag-Parses : (s : Stream) → IsLive s → All IsByte (join s) → Parses (join s) (read_tag s)
unfolding read_tag join
read_tag-Parses s live bytes = go (read_header 11 s) (read_header-Reads 11 s live)
  where
    go :
        (r : Result FlvError (Option (List ℕ) × Stream))
        → Reads true 11 [] s r
        → Parses
            (join s)
            (r >>= (λ x. elim x.0 [ none ↦ ok (none, x.1) | some h ↦ read_body h x.1 ]))
    go (ok (some front, s1)) q = rw q.0 (
        read_body-Parses front s1 (omega (arith, q.1)) q.2
          (All-append_left IsByte front (join s1) (rw q.0 at bytes))
          (All-append_right IsByte front (join s1) (rw q.0 at bytes)))
    go (ok (none, s1)) q = q.2
    go (err (eof m)) q = (
      λ p. absurd (omega (arith, ap (length {0}) p, has_bytes (join s) q.2)),
      q.1,
      IsMissing.of_header q.0,
    )
    go (err FlvError.bad_value) q = q
    go (err FlvError.bad_format) q = absurd q
    go (err FlvError.overflow) q = q
    go (err FlvError.out_of_fuel) q = q

-- ===== src/Flv/Reader.antt =====
-- `_read_exact` of tikrec/flv.py over a binary stream that may return short reads: the stream is
-- the list of the chunks that the connection delivers, and an exhausted stream reads as empty.
use tik_rec.Base.{
  ℕ, zero, suc, ◌-◌, Bool, true, false, ◌&&◌, Option, none, some, List, [], ◌∷◌, ◌++◌, length, take,
  drop, ltb, if◌then◌else◌, is_nil, Result, ok, err, ◌>>=◌,
}

pub data FlvError : Type 0 where
  bad_value bad_format overflow out_of_fuel : FlvError
  eof : ℕ → FlvError

abbrev pub Stream : Type 0
Stream = List (List ℕ)

-- `stream.read(n)`: at most `n` bytes of the chunk at hand.
unfoldable pub read : ℕ → Stream → List ℕ × Stream
read n [] = ([], [])
read n (c ∷ cs) = (take n c, if ltb n (length c) then drop n c ∷ cs else cs)

-- `b"".join(chunks)`
unfoldable pub join : List (List ℕ) → List ℕ
join [] = []
join (c ∷ cs) = c ++ join cs

-- The `while remaining` loop. Each round but the last takes a byte, so `count` rounds are enough.
unfoldable pub read_loop :
    ℕ → Bool → ℕ → List (List ℕ) → Stream → Result FlvError (Option (List ℕ) × Stream)
read_loop fuel allow zero chunks s = ok (some (join chunks), s)
read_loop zero allow (suc n) chunks s = err out_of_fuel
read_loop (suc fuel) allow (suc n) chunks s =
    let chunk = (read (suc n) s).0 in
    let rest =
      read_loop fuel allow (suc n - length chunk) (chunks ++ chunk ∷ []) (read (suc n) s).1 in
    if is_nil chunk
    then (if allow && is_nil chunks then ok (none, (read (suc n) s).1) else err (eof (suc n)))
    else rest

-- `_read_exact(stream, count, allow_initial_eof=True)`
unfoldable pub read_header : ℕ → Stream → Result FlvError (Option (List ℕ) × Stream)
unfolding read join read_loop
read_header count s = read_loop count true count [] s

-- `assert payload is not None`
unfoldable pub present : Option (List ℕ) × Stream → Result FlvError (List ℕ × Stream)
present (none, s) = err bad_value
present (some b, s) = ok (b, s)

-- `_read_exact(stream, count)` followed by the assertion that it returned bytes.
unfoldable pub read_exact : ℕ → Stream → Result FlvError (List ℕ × Stream)
unfolding read join read_loop present
read_exact count s = read_loop count false count [] s >>= present

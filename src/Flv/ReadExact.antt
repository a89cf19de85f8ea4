-- ===== src/Flv/ReadExact.antt =====
-- `_read_exact` (tikrec/flv.py) against the flat bytes of the stream.
use tik_rec.Base.{
  ℕ, zero, suc, ◌+◌, ◌-◌, ◌<◌, ◌≤◌, ◌≡◌, refl, ◌⊎◌, inl, inr, Bool, true, false, Option, none, some,
  List, [], ◌∷◌, ◌++◌, length, arith, All, Result, ok, err, append-nil, append_assoc, length-append,
  length-take, length-drop, take-append-drop, take-all, tests, ap, is_nil-of_pos, append-ne-nil,
  ◌>>=◌, Bool-cases, ltb,
}
use tik_rec.Flv.Reader.{
  FlvError, eof, Stream, read, join, read_loop, read_exact, read_header, present,
}

-- No chunk is empty: the connection only reports an end of file after its last byte.
abbrev pub IsLive : Stream → Type 0
IsLive = All (λ c. 0 < length c)

pub join-append : (cs : List (List ℕ)) (c : List ℕ) → join (cs ++ c ∷ []) ≡ join cs ++ c
unfolding join
join-append [] c = append-nil c
join-append (d ∷ cs) c = rw (join-append cs c, append_assoc)

-- What one read of a stream with a chunk left does.
record Takes (n : ℕ) (s : Stream) (r : List ℕ × Stream) : Type 0 where
  flat : join s ≡ r.0 ++ join r.1
  live : IsLive r.1
  some_byte : 0 < length r.0
  within : length r.0 ≤ n

read_lem :
    (n : ℕ) (c : List ℕ) (cs : Stream)
    → IsLive (c ∷ cs)
    → Takes (suc n) (c ∷ cs) (read (suc n) (c ∷ cs))
unfolding read join
read_lem n c cs h = elim (Bool-cases (ltb (suc n) (length c))) [
  | inl more ↦ rw more (record {
    flat = rw (← append_assoc, take-append-drop (suc n) c);
    live = (omega (tests, length-drop {0} (suc n) c), h.1);
    some_byte = omega (tests, length-take {0} (suc n) c);
    within = omega (tests, length-take {0} (suc n) c);
  })
  | inr all ↦ rw all (record {
    flat = rw (take-all (suc n) c (ground arith));
    live = h.1;
    some_byte = omega (tests, length-take {0} (suc n) c);
    within = omega (tests, length-take {0} (suc n) c);
  })
]

-- What reading `count` bytes of `s`, after the chunks `chunks`, may return.
abbrev pub Reads :
    Bool → ℕ → List (List ℕ) → Stream → Result FlvError (Option (List ℕ) × Stream) → Type 0
Reads allow n chunks s (ok (some b, s')) =
    (join chunks ++ join s ≡ b ++ join s') × (length b ≡ length (join chunks) + n) × IsLive s'
Reads allow n chunks s (ok (none, s')) =
    (allow ≡ true) × (chunks ≡ []) × (join s ≡ []) × (0 < n) × (join s' ≡ [])
Reads allow n chunks s (err (eof m)) =
    (length (join s) + m ≡ n) × (0 < m) × ((allow ≡ false) ⊎ (0 < length chunks + length (join s)))
Reads allow n chunks s (err _) = ⊥

-- A round that takes `chunk` leaves the rest of the loop with that much less to read.
Reads-step :
    (allow : Bool) (n : ℕ) (chunks : List (List ℕ)) (s : Stream) (taken : List ℕ × Stream)
    (r : Result FlvError (Option (List ℕ) × Stream))
    → Takes (suc n) s taken
    → Reads allow (suc n - length taken.0) (chunks ++ taken.0 ∷ []) taken.1 r
    → Reads allow (suc n) chunks s r
Reads-step allow n chunks s taken (ok (some b, s')) t h = (
  rw t.flat (rw (← append_assoc, ← join-append) h.0),
  omega (
    arith,
    t.within,
    h.1,
    ap (length {0}) (join-append chunks taken.0),
    length-append {0} (join chunks) taken.0,
  ),
  h.2,
)
Reads-step allow n chunks s taken (ok (none, s')) t h = absurd (append-ne-nil chunks taken.0 h.1)
Reads-step allow n chunks s taken (err (eof m)) t h = (
  omega (arith, t.within, h.0, ap (length {0}) t.flat, length-append {0} taken.0 (join taken.1)),
  h.1,
  inr (
      omega (arith, t.some_byte, ap (length {0}) t.flat, length-append {0} taken.0 (join taken.1))),
)
Reads-step allow n chunks s taken (err FlvError.bad_value) t h = h
Reads-step allow n chunks s taken (err FlvError.bad_format) t h = h
Reads-step allow n chunks s taken (err FlvError.overflow) t h = h
Reads-step allow n chunks s taken (err FlvError.out_of_fuel) t h = h

read_loop-Reads :
    (fuel : ℕ) (allow : Bool) (n : ℕ) (chunks : List (List ℕ)) (s : Stream)
    → IsLive s
    → n ≤ fuel
    → Reads allow n chunks s (read_loop fuel allow n chunks s)
unfolding read_loop
read_loop-Reads fuel allow zero chunks s live h = (refl, omega arith, live)
read_loop-Reads zero allow (suc n) chunks s live h = absurd (omega arith)
read_loop-Reads (suc fuel) true (suc n) [] [] live h =
    unfold read join in (refl, refl, refl, omega arith, refl)
read_loop-Reads (suc fuel) true (suc n) (d ∷ chunks) [] live h =
    unfold read join in (omega arith, omega arith, inr (omega arith))
read_loop-Reads (suc fuel) false (suc n) chunks [] live h =
    unfold read join in (omega arith, omega arith, inl refl)
read_loop-Reads (suc fuel) allow (suc n) chunks (c ∷ cs) live h =
    let t = read_lem n c cs live in
    let taken = read (suc n) (c ∷ cs) in
    rw (is_nil-of_pos taken.0 t.some_byte) (
      Reads-step allow n chunks (c ∷ cs) taken _ t (
        read_loop-Reads fuel allow (suc n - length taken.0) (chunks ++ taken.0 ∷ []) taken.1 t.live
          (omega (arith, t.some_byte))))

-- On a stream with no empty chunk `_read_exact` returns the next `count` bytes, whatever the chunks,
-- and leaves the bytes behind them; it fails only for want of bytes, and names how many are missing.
pub read_header-Reads :
    (count : ℕ) (s : Stream) → IsLive s → Reads true count [] s (read_header count s)
unfolding read_header
read_header-Reads count s live = read_loop-Reads count true count [] s live (omega arith)

-- The outcome of a read that must succeed.
abbrev pub ReadsExact : ℕ → Stream → Result FlvError (List ℕ × Stream) → Type 0
ReadsExact n s (ok (b, s')) = (join s ≡ b ++ join s') × (length b ≡ n) × IsLive s'
ReadsExact n s (err (eof m)) = (length (join s) + m ≡ n) × (0 < m)
ReadsExact n s (err _) = ⊥

ReadsExact-present :
    (n : ℕ) (s : Stream) (r : Result FlvError (Option (List ℕ) × Stream))
    → Reads false n [] s r
    → ReadsExact n s (r >>= present)
unfolding present join
ReadsExact-present n s (ok (some b, s')) h = (h.0, omega (arith, h.1), h.2)
ReadsExact-present n s (ok (none, s')) h = cc (h.0)
ReadsExact-present n s (err (eof m)) h = (h.0, h.1)
ReadsExact-present n s (err FlvError.bad_value) h = h
ReadsExact-present n s (err FlvError.bad_format) h = h
ReadsExact-present n s (err FlvError.overflow) h = h
ReadsExact-present n s (err FlvError.out_of_fuel) h = h

pub read_exact_lem : (count : ℕ) (s : Stream) → IsLive s → ReadsExact count s (read_exact count s)
unfolding read_exact
read_exact_lem count s live =
    ReadsExact-present count s (read_loop count false count [] s)
      (read_loop-Reads count false count [] s live (omega arith))

-- ===== src/Sps/Escape.antt =====
-- The emulation bytes of H.264, and their removal in tikrec/flv_codec.py.
use tik_rec.Base.{ℕ, ◌+◌, ◌≡◌, refl, ◌&&◌, List, [], ◌∷◌, arith, leb, ◌==◌, if◌then◌else◌}
use tik_rec.Sps.Syntax.{unescape, rbsp_without_emulation_bytes}

-- How a writer escapes: behind two zeros a byte of at most three has a three in front of it.
abbrev pub escape : ℕ → List ℕ → List ℕ
escape run [] = []
escape run (b ∷ s) =
    let after_three = escape (if b == 0 then 1 else 0) s in
    let plain = escape (if b == 0 then run + 1 else 0) s in
    if leb 2 run && leb b 3 then 3 ∷ b ∷ after_three else b ∷ plain

unescape-escape : (run : ℕ) (s : List ℕ) → unescape run (escape run s) ≡ s
unfolding unescape
unescape-escape run [] = refl
unescape-escape run (b ∷ s) =
    ground (arith, unescape-escape 0 s, unescape-escape 1 s, unescape-escape (run + 1) s)

-- What a writer escapes by the rule of H.264 is read as it was written, whatever the bytes.
pub rbsp_without_emulation_bytes-escape :
    (s : List ℕ) → rbsp_without_emulation_bytes (escape 0 s) ≡ s
unfolding rbsp_without_emulation_bytes
rbsp_without_emulation_bytes-escape s = unescape-escape 0 s

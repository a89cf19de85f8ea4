-- ===== src/Identity.antt =====
-- Public identities: `canonical_room_id` of tikrec/tiktok_identity.py, `validate_creator_handle` of
-- tikrec/creator_identity.py, and the canonical form of a UUID. A text is its code points.
pub mod Rooms
mod Tests
use tik_rec.Base.{
  ℕ, zero, suc, Bool, true, false, not, ◌&&◌, ◌||◌, Option, none, some, List, [], ◌∷◌, leb, ◌==◌,
  length, if◌then◌else◌, is_nil,
}

abbrev pub is_digit : ℕ → Bool
is_digit c = leb b'0' c && leb c b'9'

abbrev pub all_chars : (ℕ → Bool) → List ℕ → Bool
all_chars p [] = true
all_chars p (c ∷ s) = p c && all_chars p s

-- `value.lstrip("0")`
unfoldable pub strip_zeros : List ℕ → List ℕ
strip_zeros [] = []
strip_zeros (c ∷ s) = if c == b'0' then strip_zeros s else c ∷ s

abbrev pub nonempty_or_none : List ℕ → Option (List ℕ)
nonempty_or_none [] = none
nonempty_or_none (c ∷ s) = some (c ∷ s)

-- `canonical_room_id` of a text; `none` is the exception.
unfoldable pub canonical_room_id : List ℕ → Option (List ℕ)
unfolding strip_zeros
canonical_room_id value =
    if not (is_nil value) && all_chars is_digit value
    then nonempty_or_none (strip_zeros value)
    else none

-- `[a-z0-9_]`
abbrev pub is_handle_end : ℕ → Bool
is_handle_end c = (leb b'a' c && leb c b'z') || (is_digit c || c == b'_')

-- `[a-z0-9._]`
abbrev pub is_handle_char : ℕ → Bool
is_handle_char c = is_handle_end c || c == b'.'

abbrev last_or : ℕ → List ℕ → ℕ
last_or d [] = d
last_or d (c ∷ s) = last_or c s

-- `_HANDLE.fullmatch`: one to 24 characters, the first and the last of them no period. Such a text
-- has no upper-case letter, so it is its own `lower()`.
unfoldable pub validate_creator_handle : List ℕ → Bool
validate_creator_handle [] = false
validate_creator_handle (c ∷ s) =
    is_handle_end c
    && (all_chars is_handle_char s && (is_handle_end (last_or c s) && leb (length s) 23))

-- A lower-case hexadecimal digit.
abbrev is_hex : ℕ → Bool
is_hex c = is_digit c || (leb b'a' c && leb c b'f')

-- The rest of a text behind `n` hexadecimal digits.
abbrev hex_run : ℕ → List ℕ → Option (List ℕ)
hex_run zero s = some s
hex_run (suc n) [] = none
hex_run (suc n) (c ∷ s) = if is_hex c then hex_run n s else none

abbrev dash_then : ℕ → Option (List ℕ) → Option (List ℕ)
dash_then n none = none
dash_then n (some []) = none
dash_then n (some (c ∷ s)) = if c == b'-' then hex_run n s else none

abbrev at_end : Option (List ℕ) → Bool
at_end none = false
at_end (some s) = is_nil s

-- `str(UUID(value)) == value`: the form 8-4-4-4-12 in lower case.
unfoldable pub is_uuid : List ℕ → Bool
is_uuid s = at_end (dash_then 12 (dash_then 4 (dash_then 4 (dash_then 4 (hex_run 8 s)))))

-- ===== src/Pages.antt =====
-- Public LIVE pages: `normalize_live_url` of tikrec/recording_safety.py and the comparison of pages of
-- tikrec/recording_ownership.py. A text is its code points; `none` is the exception.
pub mod Canonical
mod Tests
use tik_rec.Base.{
  ℕ, ◌+◌, Bool, true, false, not, ◌&&◌, ◌||◌, Option, none, some, List, [], ◌∷◌, ◌++◌, leb, ◌==◌,
  if◌then◌else◌, is_nil,
}
use tik_rec.Text.{Text, codes, text_eq}
use tik_rec.Identity.{is_digit, all_chars}

-- `c.lower()` of an ASCII letter; other characters stay.
abbrev pub lower_char : ℕ → ℕ
lower_char c = if leb b'A' c && leb c b'Z' then c + 32 else c

abbrev pub lower_text : Text → Text
lower_text [] = []
lower_text (c ∷ s) = lower_char c ∷ lower_text s

-- What `urlsplit` removes from the front of a URL: spaces and control characters.
unfoldable pub strip_front : Text → Text
strip_front [] = []
strip_front (c ∷ s) = if leb c 32 then strip_front s else c ∷ s

-- What `urlsplit` removes anywhere: tabs and line ends.
unfoldable pub without_breaks : Text → Text
without_breaks [] = []
without_breaks (c ∷ s) =
    let rest = without_breaks s in if c == 9 || (c == 10 || c == 13) then rest else c ∷ rest

-- The rest of a text behind a prefix, whose letters are compared as `fold` maps them
unfoldable pub behind : (ℕ → ℕ) → Text → Text → Option Text
behind fold [] s = some s
behind fold (p ∷ ps) [] = none
behind fold (p ∷ ps) (c ∷ s) = if fold c == p then behind fold ps s else none

abbrev pub exact : ℕ → ℕ
exact c = c

abbrev pub first_some : Option Text → Option Text → Option Text
first_some (some s) other = some s
first_some none other = other

-- The rest behind a scheme `http` or `https` and the two slashes of the authority
unfoldable pub behind_scheme : Text → Option Text
unfolding behind
behind_scheme url =
    first_some (behind lower_char (codes "http://") url) (behind lower_char (codes "https://") url)

-- `netloc` ends at the first of these.
abbrev pub ends_netloc : ℕ → Bool
ends_netloc c = c == b'/' || (c == b'?' || c == b'#')

-- `path` ends at the first of these.
abbrev pub ends_path : ℕ → Bool
ends_path c = c == b'?' || c == b'#'

unfoldable pub before : (ℕ → Bool) → Text → Text
before ends [] = []
before ends (c ∷ s) = if ends c then [] else c ∷ before ends s

unfoldable pub from_first : (ℕ → Bool) → Text → Text
from_first ends [] = []
from_first ends (c ∷ s) = if ends c then c ∷ s else from_first ends s

-- `[A-Za-z0-9_.]`
abbrev pub is_name_char : ℕ → Bool
is_name_char c =
    (leb b'A' c && leb c b'Z')
    || ((leb b'a' c && leb c b'z') || (is_digit c || (c == b'_' || c == b'.')))

abbrev pub is_live_suffix : Text → Bool
is_live_suffix s = text_eq s (codes "/live") || text_eq s (codes "/live/")

-- `[A-Za-z0-9_.]+/live/?` of the text behind `/@`
unfoldable pub names_live : Text → Bool
unfolding before from_first
names_live s =
    not (is_nil (before (λ c. not (is_name_char c)) s))
    && is_live_suffix (from_first (λ c. not (is_name_char c)) s)

abbrev pub names_live_or_none : Option Text → Bool
names_live_or_none none = false
names_live_or_none (some s) = names_live s

-- `path.rstrip("/")`
abbrev pub unless_slash : ℕ → Text → Text
unless_slash c [] = if c == b'/' then [] else c ∷ []
unless_slash c (d ∷ s) = c ∷ d ∷ s

unfoldable pub rstrip_slash : Text → Text
rstrip_slash [] = []
rstrip_slash (c ∷ s) = unless_slash c (rstrip_slash s)

abbrev pub is_host : Text → Bool
is_host s = text_eq s (codes "tiktok.com") || text_eq s (codes "www.tiktok.com")

-- The check of a path, and what is returned
unfoldable pub page_of_path : Text → Option Text
unfolding behind rstrip_slash
page_of_path path =
    if names_live_or_none (behind exact (codes "/@") path)
    then some (codes "https://www.tiktok.com" ++ rstrip_slash path)
    else none

-- The tests behind the scheme
unfoldable pub page_of_rest : Option Text → Option Text
unfolding before from_first page_of_path
page_of_rest none = none
page_of_rest (some s) =
    if is_host (before ends_netloc s)
    then page_of_path (before ends_path (from_first ends_netloc s))
    else none

-- `normalize_live_url`
unfoldable pub normalize_live_url : Text → Option Text
unfolding page_of_rest behind_scheme without_breaks strip_front
normalize_live_url url = page_of_rest (behind_scheme (without_breaks (strip_front url)))

-- `page_identity` of an accepted page, which is ASCII
unfoldable pub page_identity : Text → Text
page_identity page = lower_text page

abbrev pub is_text : Option Text → Text → Bool
is_text none candidate = false
is_text (some s) candidate = text_eq s candidate

abbrev pub identity_of : Option Text → Option Text
identity_of none = none
identity_of (some page) = some (page_identity page)

-- `same_page` of a text
unfoldable pub same_page : Text → Text → Bool
unfolding normalize_live_url page_identity
same_page value candidate = is_text (identity_of (normalize_live_url value)) candidate

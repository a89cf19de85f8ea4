-- ===== src/Pages/Canonical.antt =====
-- The form of an accepted page (tikrec/recording_safety.py).
use tik_rec.Base.{
  ℕ, ◌≡◌, refl, sym, ap, ◌∙◌, subst, ◌⊎◌, inl, inr, Bool, true, false, not, ◌&&◌, ◌||◌, Option,
  none, some, [], ◌∷◌, ◌++◌, append-nil, arith, if◌then◌else◌, is_nil, some_eq,
}
use tik_rec.Text.{Text, codes, text_eq}
use tik_rec.Text.Laws.{eq_of_text_eq}
use tik_rec.Identity.{all_chars}
use tik_rec.Pages.{
  strip_front, without_breaks, behind, exact, behind_scheme, before, from_first, is_name_char,
  is_live_suffix, names_live, names_live_or_none, rstrip_slash, unless_slash, page_of_path,
  page_of_rest, normalize_live_url, ends_netloc, ends_path, is_host,
}

module _ (ends : ℕ → Bool) where
  before-append :
      (xs ys : Text)
      → all_chars (λ c. not (ends c)) xs ≡ true
      → before ends (xs ++ ys) ≡ xs ++ before ends ys
  unfolding before
  before-append [] ys h = refl
  before-append (x ∷ xs) ys h = ground (arith, before-append xs ys)

  from_first-append :
      (xs ys : Text)
      → all_chars (λ c. not (ends c)) xs ≡ true
      → from_first ends (xs ++ ys) ≡ from_first ends ys
  unfolding from_first
  from_first-append [] ys h = refl
  from_first-append (x ∷ xs) ys h = ground (arith, from_first-append xs ys)

  before-from_first : (s : Text) → before ends s ++ from_first ends s ≡ s
  unfolding before from_first
  before-from_first [] = refl
  before-from_first (c ∷ s) = ground (arith, before-from_first s)

  all_chars-before : (s : Text) → all_chars (λ c. not (ends c)) (before ends s) ≡ true
  unfolding before
  all_chars-before [] = refl
  all_chars-before (c ∷ s) = ground (arith, all_chars-before s)

all_chars-as :
    (p q : ℕ → Bool) (s : Text)
    → ((c : ℕ) → p c ≡ true → q c ≡ true)
    → all_chars p s ≡ true
    → all_chars q s ≡ true
all_chars-as p q [] same h = refl
all_chars-as p q (c ∷ s) same h = ground (arith, same c, all_chars-as p q s same)

behind-exact : (ps s r : Text) → behind exact ps s ≡ some r → s ≡ ps ++ r
unfolding behind
behind-exact [] s r h = some_eq h
behind-exact (p ∷ ps) [] r h = cc
behind-exact (p ∷ ps) (c ∷ s) r h = ground (arith, behind-exact ps s r)

unless_slash-kept : (c d : ℕ) (xs s : Text) → unless_slash c (xs ++ d ∷ s) ≡ c ∷ (xs ++ d ∷ s)
unless_slash-kept c d [] s = refl
unless_slash-kept c d (x ∷ xs) s = refl

rstrip_slash-append :
    (xs ys : Text) (d : ℕ) (s : Text)
    → rstrip_slash ys ≡ d ∷ s
    → rstrip_slash (xs ++ ys) ≡ xs ++ d ∷ s
unfolding rstrip_slash
rstrip_slash-append [] ys d s h = h
rstrip_slash-append (x ∷ xs) ys d s h =
    ap (unless_slash x) (rstrip_slash-append xs ys d s h) ∙ unless_slash-kept x d xs s

-- A page of TikTok's host, with no query and no slash at its end.
pub record IsPage (page : Text) : Type 0 where
  pub name : Text
  pub named : is_nil name ≡ false
  pub chars : all_chars is_name_char name ≡ true
  pub spelled : page ≡ codes "https://www.tiktok.com/@" ++ (name ++ codes "/live")

abbrev not_name : ℕ → Bool
not_name c = not (is_name_char c)

is_live_suffix-cases :
    (s : Text) → is_live_suffix s ≡ true → (s ≡ codes "/live") ⊎ (s ≡ codes "/live/")
is_live_suffix-cases s h = by_first (text_eq s (codes "/live")) refl h
  where
    by_first :
        (b : Bool)
        → text_eq s (codes "/live") ≡ b
        → (b || text_eq s (codes "/live/")) ≡ true
        → (s ≡ codes "/live") ⊎ (s ≡ codes "/live/")
    by_first true e k = inl (eq_of_text_eq s _ e)
    by_first false e k = inr (eq_of_text_eq s _ k)

rstrip_slash-live :
    (xs t : Text) → is_live_suffix t ≡ true → rstrip_slash (xs ++ t) ≡ xs ++ codes "/live"
unfolding rstrip_slash
rstrip_slash-live xs t h = elim (is_live_suffix-cases t h) [
  | inl e ↦ rstrip_slash-append xs t _ _ (rw e refl)
  | inr e ↦ rstrip_slash-append xs t _ _ (rw e refl)
]

and_left : (a b : Bool) → (a && b) ≡ true → a ≡ true
and_left true b h = refl
and_left false b h = cc

and_right : (a b : Bool) → (a && b) ≡ true → b ≡ true
and_right true b h = h
and_right false b h = cc

names_live-IsPage :
    (s : Text)
    → names_live s ≡ true
    → IsPage (codes "https://www.tiktok.com" ++ rstrip_slash (codes "/@" ++ s))
unfolding names_live
names_live-IsPage s h = record {
  name = before not_name s;
  named = ground (arith, and_left (not (is_nil (before not_name s))) _ h);
  chars =
      all_chars-as (λ c. not (not_name c)) is_name_char (before not_name s) (λ c k. ground arith)
        (all_chars-before not_name s);
  spelled =
      ap (λ t. codes "https://www.tiktok.com" ++ t)
        (ap (λ t. rstrip_slash (codes "/@" ++ t)) (sym (before-from_first not_name s))
          ∙ rstrip_slash-live (codes "/@" ++ before not_name s) (from_first not_name s)
              (and_right (not (is_nil (before not_name s))) _ h));
}

page_of_path-IsPage : (path page : Text) → page_of_path path ≡ some page → IsPage page
unfolding page_of_path
page_of_path-IsPage path page h = by_prefix (behind exact (codes "/@") path) refl h
  where
    found :
        (s : Text)
        → path ≡ codes "/@" ++ s
        → names_live s ≡ true
        → codes "https://www.tiktok.com" ++ rstrip_slash path ≡ page
        → IsPage page
    found s e k q =
        subst (IsPage) (ap (λ t. codes "https://www.tiktok.com" ++ rstrip_slash t) (sym e) ∙ q)
          (names_live-IsPage s k)

    by_prefix :
        (r : Option Text)
        → behind exact (codes "/@") path ≡ r
        → let x : Option Text =
            if names_live_or_none r
            then some (codes "https://www.tiktok.com" ++ rstrip_slash path)
            else none in
          x ≡ some page → IsPage page
    by_prefix none e = λ k. cc (k)
    by_prefix (some s) e = by_name (names_live s) refl
      where
        by_name :
            (b : Bool)
            → names_live s ≡ b
            → let x : Option Text =
                if b then some (codes "https://www.tiktok.com" ++ rstrip_slash path) else none in
              x ≡ some page → IsPage page
        by_name true q = λ k. found s (behind-exact (codes "/@") path s e) q (some_eq k)
        by_name false q = λ k. cc (k)

page_of_rest-IsPage : (r : Option Text) (page : Text) → page_of_rest r ≡ some page → IsPage page
unfolding page_of_rest
page_of_rest-IsPage none page h = cc
page_of_rest-IsPage (some s) page h = by_host (is_host (before ends_netloc s)) h
  where
    by_host :
        (b : Bool)
        → let x : Option Text =
            if b then page_of_path (before ends_path (from_first ends_netloc s)) else none in
          x ≡ some page → IsPage page
    by_host true = λ k. page_of_path-IsPage (before ends_path (from_first ends_netloc s)) page k
    by_host false = λ k. cc (k)

without_breaks-named :
    (s t : Text) → all_chars is_name_char s ≡ true → without_breaks (s ++ t) ≡ s ++ without_breaks t
unfolding without_breaks
without_breaks-named [] t h = refl
without_breaks-named (c ∷ s) t h = ground (arith, without_breaks-named s t)

names_live-name :
    (name : Text)
    → is_nil name ≡ false
    → all_chars is_name_char name ≡ true
    → names_live (name ++ codes "/live") ≡ true
unfolding names_live before from_first
names_live-name name h k =
    let plain : all_chars (λ c. not (not_name c)) name ≡ true =
      all_chars-as is_name_char (λ c. not (not_name c)) name (λ c q. ground arith) k in
    let front : before not_name (name ++ codes "/live") ≡ name =
      before-append not_name name (codes "/live") plain ∙ append-nil name in
    let back : from_first not_name (name ++ codes "/live") ≡ codes "/live" =
      from_first-append not_name name (codes "/live") plain in
    rw (front, back, h) refl

page_of_path-page :
    (name : Text)
    → is_nil name ≡ false
    → all_chars is_name_char name ≡ true
    → page_of_path (codes "/@" ++ (name ++ codes "/live"))
      ≡ some (codes "https://www.tiktok.com/@" ++ (name ++ codes "/live"))
unfolding page_of_path behind
page_of_path-page name h k = rw (names_live-name name h k) (
    ap (λ t. some (codes "https://www.tiktok.com" ++ t))
      (rstrip_slash-live (codes "/@" ++ name) (codes "/live") refl))

normalize_live_url-page :
    (name : Text)
    → is_nil name ≡ false
    → all_chars is_name_char name ≡ true
    → normalize_live_url (codes "https://www.tiktok.com/@" ++ (name ++ codes "/live"))
      ≡ some (codes "https://www.tiktok.com/@" ++ (name ++ codes "/live"))
unfolding normalize_live_url strip_front without_breaks behind_scheme behind page_of_rest before
    from_first
normalize_live_url-page name h k =
    let kept : without_breaks (name ++ codes "/live") ≡ name ++ codes "/live" =
      without_breaks-named name (codes "/live") k in
    let path : before ends_path (name ++ codes "/live") ≡ name ++ codes "/live" =
      before-append ends_path name (codes "/live")
        (all_chars-as is_name_char (λ c. not (ends_path c)) name (λ c q. ground arith) k) in
    rw (kept, path) (page_of_path-page name h k)

IsPage-normal : (page : Text) → IsPage page → normalize_live_url page ≡ some page
IsPage-normal page x =
    subst (λ t. normalize_live_url t ≡ some t) (sym x.spelled)
      (normalize_live_url-page x.name x.named x.chars)

-- Where an address is accepted, what is returned is the page of a name of the characters that TikTok
-- takes, on the host www.tiktok.com, without query, fragment or last slash; and it is accepted as it is.
pub normalize_live_url-IsPage :
    (url page : Text)
    → normalize_live_url url ≡ some page
    → IsPage page × (normalize_live_url page ≡ some page)
unfolding normalize_live_url
normalize_live_url-IsPage url page h =
    let x : IsPage page =
      page_of_rest-IsPage (behind_scheme (without_breaks (strip_front url))) page h in
    (x, IsPage-normal page x)

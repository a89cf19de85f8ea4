-- ===== src/Pages/Tests.antt =====
-- Pages at concrete addresses.
use tik_rec.Base.{◌≡◌, refl, true, none, some}
use tik_rec.Text.{codes}
use tik_rec.Pages.Canonical.{IsPage, normalize_live_url-IsPage}
use tik_rec.Pages.{
  strip_front, without_breaks, behind, behind_scheme, before, from_first, names_live, rstrip_slash,
  page_of_path, page_of_rest, normalize_live_url, page_identity, same_page,
}

accepts :
    normalize_live_url (codes " HTTPS://tiktok.com/@Ann.b/live/?x=1#y")
    ≡ some (codes "https://www.tiktok.com/@Ann.b/live")
unfolding normalize_live_url page_of_rest page_of_path rstrip_slash names_live from_first before
    behind_scheme behind without_breaks strip_front
accepts = refl

rejects : normalize_live_url (codes "https://tiktok.com:80/@ann/live") ≡ none
unfolding normalize_live_url page_of_rest page_of_path rstrip_slash names_live from_first before
    behind_scheme behind without_breaks strip_front
rejects = refl

same :
    same_page (codes "https://www.tiktok.com/@ANN/live") (codes "https://www.tiktok.com/@ann/live")
    ≡ true
unfolding same_page page_identity normalize_live_url page_of_rest page_of_path rstrip_slash
    names_live from_first before behind_scheme behind without_breaks strip_front
same = refl

normalize_live_url-IsPage_example :
    IsPage (codes "https://www.tiktok.com/@Ann.b/live")
    × (normalize_live_url (codes "https://www.tiktok.com/@Ann.b/live")
        ≡ some (codes "https://www.tiktok.com/@Ann.b/live"))
normalize_live_url-IsPage_example =
    normalize_live_url-IsPage (codes " HTTPS://tiktok.com/@Ann.b/live/?x=1#y")
      (codes "https://www.tiktok.com/@Ann.b/live") accepts

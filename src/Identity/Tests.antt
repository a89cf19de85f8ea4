-- ===== src/Identity/Tests.antt =====
-- Runs of the identities (tikrec/tiktok_identity.py, tikrec/creator_identity.py).
use tik_rec.Base.{◌≡◌, refl, true, false, none, some}
use tik_rec.Text.{codes}
use tik_rec.Identity.{canonical_room_id, strip_zeros, validate_creator_handle, is_uuid}
use tik_rec.Identity.Rooms.{IsRoomOf, canonical_room_id-IsRoomOf}

zeros_only : canonical_room_id (codes "000") ≡ none
unfolding canonical_room_id strip_zeros
zeros_only = refl

padded : canonical_room_id (codes "00420") ≡ some (codes "420")
unfolding canonical_room_id strip_zeros
padded = refl

handles :
    (validate_creator_handle (codes "a.b_1") ≡ true)
    × (validate_creator_handle (codes "a.") ≡ false)
    × (validate_creator_handle (codes "abcdefghijklmnopqrstuvwxy") ≡ false)
unfolding validate_creator_handle
handles = (refl, refl, refl)

uuids :
    (is_uuid (codes "01234567-89ab-cdef-0123-456789abcdef") ≡ true)
    × (is_uuid (codes "01234567-89AB-cdef-0123-456789abcdef") ≡ false)
unfolding is_uuid
uuids = (refl, refl)

canonical_room_id-IsRoomOf_example : IsRoomOf (codes "00420") (codes "420")
canonical_room_id-IsRoomOf_example = canonical_room_id-IsRoomOf (codes "00420") (codes "420") padded

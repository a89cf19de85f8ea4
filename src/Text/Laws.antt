-- ===== src/Text/Laws.antt =====
-- Laws of texts and of the dicts keyed by them.
use tik_rec.Base.{◌≡◌, ◌≢◌, ◌↔◌, refl, true, none, some, [], ◌∷◌, arith, if◌then◌else◌, ==-refl}
use tik_rec.Text.{Text, text_eq, TextDict, get, put, pop, insert_item, sort_items}

pub text_eq_refl : (s : Text) → text_eq s s ≡ true
text_eq_refl [] = refl
text_eq_refl (a ∷ s) = rw (==-refl a, text_eq_refl s)

pub eq_of_text_eq : (s t : Text) → text_eq s t ≡ true → s ≡ t
eq_of_text_eq [] [] h = refl
eq_of_text_eq [] (b ∷ t) h = cc
eq_of_text_eq (a ∷ s) [] h = cc
eq_of_text_eq (a ∷ s) (b ∷ t) h = ground (arith, eq_of_text_eq s t)

pub text_eq_iff : (s t : Text) → (text_eq s t ≡ true) ↔ (s ≡ t)
text_eq_iff s t = (eq_of_text_eq s t, λ e. rw e (text_eq_refl t))

module _ {ℓ} {V : Type ℓ} where
  pub get-put :
      (d : TextDict V) (k j : Text) (v : V)
      → get (put d k v) j ≡ (if text_eq k j then some v else get d j)
  get-put [] k j v = refl
  get-put (e ∷ d) k j v =
      ground (arith, get-put d k j v, text_eq_iff e.0 k, text_eq_iff k j, text_eq_iff e.0 j)

  pub get-put_self : (d : TextDict V) (k : Text) (v : V) → get (put d k v) k ≡ some v
  get-put_self d k v = rw (get-put, text_eq_refl k)

  pub get-pop_ne : (d : TextDict V) (k j : Text) → k ≢ j → get (pop d k) j ≡ get d j
  get-pop_ne [] k j h = refl
  get-pop_ne (e ∷ d) k j h =
      ground (arith, get-pop_ne d k j h, text_eq_iff e.0 k, text_eq_iff e.0 j)

  -- The keys of a dict differ.
  abbrev pub IsDict : TextDict V → Type ℓ
  IsDict [] = Unit
  IsDict (e ∷ d) = (get d e.0 ≡ none) × IsDict d

  pub put-IsDict : (d : TextDict V) (k : Text) (v : V) → IsDict d → IsDict (put d k v)
  put-IsDict [] k v h = (refl, tt)
  put-IsDict (e ∷ d) k v h =
      ground (arith, put-IsDict d k v h.1, get-put d k e.0 v, text_eq_iff e.0 k, text_eq_iff k e.0)

  pub get-pop_self : (d : TextDict V) (k : Text) → IsDict d → get (pop d k) k ≡ none
  get-pop_self [] k h = refl
  get-pop_self (e ∷ d) k h = ground (arith, get-pop_self d k h.1, text_eq_iff e.0 k)

  pub get-insert_item :
      (x : Text × V) (d : TextDict V) (j : Text)
      → get d x.0 ≡ none
      → get (insert_item x d) j ≡ (if text_eq x.0 j then some x.1 else get d j)
  get-insert_item x [] j h = refl
  get-insert_item x (e ∷ d) j h =
      ground
        (arith, get-insert_item x d j, text_eq_iff x.0 j, text_eq_iff e.0 j, text_eq_iff e.0 x.0)

  -- Sorting changes no look-up.
  pub get-sort_items : (d : TextDict V) (j : Text) → IsDict d → get (sort_items d) j ≡ get d j
  get-sort_items [] j h = refl
  get-sort_items (e ∷ d) j h = rw (
    get-insert_item e (sort_items d) j (rw (get-sort_items d e.0 h.1) h.0),
    get-sort_items d j h.1,
  )

  pub get-pop-none : (d : TextDict V) (k j : Text) → get d j ≡ none → get (pop d k) j ≡ none
  get-pop-none [] k j h = refl
  get-pop-none (e ∷ d) k j h = ground (arith, get-pop-none d k j)

  pub pop-IsDict : (d : TextDict V) (k : Text) → IsDict d → IsDict (pop d k)
  pop-IsDict [] k h = tt
  pop-IsDict (e ∷ d) k h = ground (arith, pop-IsDict d k h.1, get-pop-none d k e.0)

  insert_item-IsDict :
      (x : Text × V) (d : TextDict V) → get d x.0 ≡ none → IsDict d → IsDict (insert_item x d)
  insert_item-IsDict x [] h k = (h, k)
  insert_item-IsDict x (e ∷ d) h k = ground (
    arith,
    insert_item-IsDict x d,
    get-insert_item x d e.0,
    text_eq_iff x.0 e.0,
    text_eq_iff e.0 x.0,
  )

  pub sort_items-IsDict : (d : TextDict V) → IsDict d → IsDict (sort_items d)
  sort_items-IsDict [] h = tt
  sort_items-IsDict (e ∷ d) h =
      insert_item-IsDict e (sort_items d) (rw (get-sort_items d e.0 h.1) h.0)
        (sort_items-IsDict d h.1)

-- ===== src/Text.antt =====
-- Python texts as lists of code points, with their equality, their order and dicts keyed by them.
pub mod Laws
use Prim.Native.Char.{code}
use tik_rec.Base.{
  ℕ, Bool, true, false, ◌&&◌, ◌||◌, Option, none, some, List, [], ◌∷◌, String, ltb, ◌==◌,
  if◌then◌else◌,
}

abbrev pub Text : Type 0
Text = List ℕ

-- A literal of the source.
abbrev pub codes : String → Text
codes String.[] = []
codes (String.◌∷◌ c s) = code c ∷ codes s

abbrev pub text_eq : Text → Text → Bool
text_eq [] [] = true
text_eq (a ∷ s) (b ∷ t) = a == b && text_eq s t
text_eq _ _ = false

-- `s <= t`: by code points, and a prefix comes first.
abbrev pub text_le : Text → Text → Bool
text_le [] t = true
text_le (a ∷ s) [] = false
text_le (a ∷ s) (b ∷ t) = ltb a b || (a == b && text_le s t)

abbrev pub TextDict {ℓ} : Type ℓ → Type ℓ
TextDict V = List (Text × V)

module _ {ℓ} {V : Type ℓ} where
  -- d.get(k)
  abbrev pub get : TextDict V → Text → Option V
  get [] k = none
  get (e ∷ d) k = if text_eq e.0 k then some e.1 else get d k

  -- d[k] = v
  abbrev pub put : TextDict V → Text → V → TextDict V
  put [] k v = (k, v) ∷ []
  put (e ∷ d) k v = if text_eq e.0 k then (k, v) ∷ d else e ∷ put d k v

  -- d.pop(k, None)
  abbrev pub pop : TextDict V → Text → TextDict V
  pop [] k = []
  pop (e ∷ d) k = if text_eq e.0 k then d else e ∷ pop d k

  -- `sorted(d.items())`: the keys differ, so they alone decide the order.
  abbrev pub insert_item : Text × V → TextDict V → TextDict V
  insert_item x [] = x ∷ []
  insert_item x (e ∷ d) = if text_le x.0 e.0 then x ∷ e ∷ d else e ∷ insert_item x d

  abbrev pub sort_items : TextDict V → TextDict V
  sort_items [] = []
  sort_items (e ∷ d) = insert_item e (sort_items d)

-- `sorted(texts)`
abbrev pub insert_text : Text → List Text → List Text
insert_text x [] = x ∷ []
insert_text x (y ∷ ys) = if text_le x y then x ∷ y ∷ ys else y ∷ insert_text x ys

abbrev pub sort_texts : List Text → List Text
sort_texts [] = []
sort_texts (x ∷ xs) = insert_text x (sort_texts xs)

-- `x in xs`
abbrev pub text_in : Text → List Text → Bool
text_in x [] = false
text_in x (y ∷ ys) = text_eq y x || text_in x ys

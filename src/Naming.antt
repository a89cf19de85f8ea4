-- ===== src/Naming.antt =====
-- Names of automatic recordings: `monitored_recording_paths` of tikrec/output_naming.py. The rules of
-- paths and the look at the disk are arguments.
pub mod First
mod Tests
use tik_rec.Base.{
  ℕ, zero, suc, ◌+◌, ◌-◌, ◌/◌, ◌%◌, Bool, true, false, not, ◌&&◌, ◌||◌, Option, none, some, List,
  [], ◌∷◌, ◌++◌, ltb, ◌==◌, length, if◌then◌else◌, Result, ok, err, ◌>>=◌, ◌>>◌, raise_if,
}
use tik_rec.Text.{Text, codes, text_eq}
use tik_rec.Identity.{validate_creator_handle}

pub data NameError : Type 0 where
  bad_creator path_escaped inspection_failed name_unavailable : NameError

-- `Path` operations, and `lstat`: whether something is there; `none` is an OSError.
pub record PathSystem : Type 0 where
  pub join : Text → Text → Text
  pub parent : Text → Text
  pub parts_path : Text → Text
  pub occupied : Text → Option Bool

-- The decimal digits of a number; the number itself bounds how many there are.
unfoldable pub digits_of : ℕ → ℕ → Text
digits_of zero n = []
digits_of (suc left) n =
    let front = digits_of left (n / 10) in
    if ltb n 10 then (b'0' + n) ∷ [] else front ++ (b'0' + n % 10) ∷ []

unfoldable pub decimal : ℕ → Text
unfolding digits_of
decimal n = digits_of (n + 1) n

abbrev pub zeros_then : ℕ → Text → Text
zeros_then zero s = s
zeros_then (suc n) s = b'0' ∷ zeros_then n s

-- `f"{n:0{width}d}"`
unfoldable pub padded : ℕ → ℕ → Text
unfolding decimal
padded width n = zeros_then (width - length (decimal n)) (decimal n)

pub record Moment : Type 0 where
  pub year : ℕ
  pub month : ℕ
  pub day : ℕ
  pub hour : ℕ
  pub minute : ℕ
  pub second : ℕ

-- `_timestamp`
unfoldable pub timestamp_text : Moment → Text
unfolding padded
timestamp_text m =
    padded 4 m.year
    ++ (padded 2 m.month
        ++ (padded 2 m.day
            ++ (codes "-" ++ (padded 2 m.hour ++ (padded 2 m.minute ++ padded 2 m.second)))))

-- `"" if index == 1 else f"-{index}"`
unfoldable pub name_suffix : ℕ → Text
unfolding decimal
name_suffix index = if index == 1 then [] else codes "-" ++ decimal index

module _ (system : PathSystem) (base stem : Text) where
  unfoldable pub output_at : ℕ → Text
  unfolding name_suffix
  output_at index = system.join base (stem ++ (name_suffix index ++ codes ".mp4"))

  abbrev pub not_occupied : Option Bool → Result NameError Bool
  not_occupied none = err inspection_failed
  not_occupied (some taken) = ok (not taken)

  -- The body of the loop: whether the candidate and its parts directory are free
  unfoldable pub is_free : ℕ → Result NameError Bool
  is_free index = do
    raise_if
        (not (text_eq (system.parent (output_at index)) base)
          || not (text_eq (system.parent (system.parts_path (output_at index))) base))
        path_escaped
    output_free ← not_occupied (system.occupied (output_at index))
    if output_free
        then not_occupied (system.occupied (system.parts_path (output_at index)))
        else ok false

  abbrev pub take_if_free :
      Result NameError Bool → Text → Result NameError (Text × Text) → Result NameError (Text × Text)
  take_if_free (ok true) output rest = ok (output, system.parts_path output)
  take_if_free (ok false) output rest = rest
  take_if_free (err e) output rest = err e

  -- The loop of `_available_paths`: so many candidates from an index on
  unfoldable pub search : ℕ → ℕ → Result NameError (Text × Text)
  unfolding is_free
  search zero index = err name_unavailable
  search (suc left) index = take_if_free (is_free index) (output_at index) (search left (index + 1))

  -- `_available_paths`, with `_MAX_COLLISION_INDEX`
  unfoldable pub available_paths : Result NameError (Text × Text)
  unfolding search
  available_paths = search 1000 1

-- `monitored_recording_paths`, in a resolved directory
unfoldable pub monitored_recording_paths :
    PathSystem → Text → Text → Moment → Result NameError (Text × Text)
unfolding available_paths timestamp_text
monitored_recording_paths system directory creator moment =
    if validate_creator_handle creator
    then available_paths system directory (creator ++ (codes "-" ++ timestamp_text moment))
    else err bad_creator

-- ===== src/Gaps/Components.antt =====
-- The gaps of a log and their components (tikrec/gap_analysis.py).
use tik_rec.Base.{
  ℕ, ◌≤◌, ◌++◌, ◌+◌, ◌-◌, ◌≡◌, Bool, false, not, ◌&&◌, some, List, [], ◌∷◌, length, take, drop, All,
}
use tik_rec.Text.{Text, codes, text_eq}
use tik_rec.Gaps.{
  Line, ordinary, ReconnectGap, starts_with, any_text, event_labels, failed_attempts,
}

-- A text begins with another.
abbrev pub Begins : Text → Text → Type 0
Begins p s = (rest : Text) × (s ≡ p ++ rest)

-- A label that names no recovery: only the end of an outage may stand in between.
pub record IsPlain (label : Text) : Type 0 where
  pub no_service : ¬ Begins (codes "service_recovery") label
  pub no_resume : ¬ Begins (codes "capture_resume") label
  pub no_status : ¬ Begins (codes "room_status") label
  pub recovered :
      Begins (codes "network_recovery") label → label ≡ codes "network_recovery:recovered"

-- No label is of one kind.
abbrev NoneOf : (Text → Bool) → List Text → Type 0
NoneOf p ls = any_text p ls ≡ false

abbrev network_label : Text → Bool
network_label e =
    starts_with (codes "network_recovery") e && not (text_eq e (codes "network_recovery:recovered"))

module _ (N : Type 0) (minus plus : N → N → N)
    (telescopes : (a b c : N) → plus (minus b a) (minus c b) ≡ minus c a) where
  -- The gap between two media connections with these lines in between: from the last media of the first to
  -- the first of the second, and as long as its parts together where all are measured. It is ordinary only
  -- where the first one was closed, no label in between names a recovery, and the log has at least as many
  -- attempts in between as there are numbers.
  pub record IsSound (bridge : List (Line N)) (previous current : Line N) (g : ReconnectGap N)
      : Type 0 where
    pub behind : previous.connection ≡ some g.previous_connection
    pub ahead : current.connection ≡ some g.current_connection
    pub labels : g.boundary_events ≡ event_labels N minus bridge
    pub attempts : failed_attempts N minus bridge ≡ some g.intervening_attempts
    pub total :
        (last first : N)
        → previous.last_retained_media_at ≡ some last
        → current.first_retained_media_at ≡ some first
        → g.total_gap_seconds ≡ some (minus first last)
    pub whole :
        (tail backoff resolution setup initial gate : N)
        → g.previous_tail_seconds ≡ some tail
        → g.local_backoff_seconds ≡ some backoff
        → g.resolution_seconds ≡ some resolution
        → g.http_setup_seconds ≡ some setup
        → g.initial_media_seconds ≡ some initial
        → g.keyframe_gate_seconds ≡ some gate
        → g.total_gap_seconds
          ≡ some (plus (plus (plus (plus (plus tail backoff) resolution) setup) initial) gate)
    pub plain :
        g.classification ≡ ordinary
        → (previous.outcome ≡ some (codes "closed"))
          × All IsPlain g.boundary_events
          × (g.current_connection ≤ g.previous_connection + 1 + length g.intervening_attempts)

  abbrev IsNumbered : ℕ × Line N → Type 0
  IsNumbered m = (n : ℕ) × (m.1.connection ≡ some n)

  -- The lines between two media records
  abbrev pub bridge_of : List (Line N) → ℕ × Line N → ℕ × Line N → List (Line N)
  bridge_of records m n = take (n.0 - (m.0 + 1)) (drop (m.0 + 1) records)

  -- One sound gap for each two neighbours, in order
  abbrev pub AreGaps : List (Line N) → List (ℕ × Line N) → List (ReconnectGap N) → Type 0
  AreGaps records [] gs = (gs ≡ [])
  AreGaps records (m ∷ []) gs = (gs ≡ [])
  AreGaps records (m ∷ n ∷ media) [] = ⊥
  AreGaps records (m ∷ n ∷ media) (g ∷ gs) =
      IsSound (bridge_of records m n) m.1 n.1 g × AreGaps records (n ∷ media) gs

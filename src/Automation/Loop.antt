-- ===== src/Automation/Loop.antt =====
-- Coherence through the loops of a cycle (tikrec/automation.py).
use tik_rec.Base.{
  ℕ, ◌≡◌, ◌≢◌, refl, sym, ◌∙◌, Bool, true, false, List, [], ◌∷◌, arith, if◌then◌else◌, All,
}
use tik_rec.Text.{Text, TextDict, get, text_in}
use tik_rec.Text.Laws.{text_eq_iff}
use tik_rec.Automation.{PathRules, Liveness, live, offline, unknown, pending, Observation}
use tik_rec.Automation.Cycle.{
  World, Reason, result, CycleResult, set_result, set_results, disable, block_live_creators,
  begin_cycle, blocked, Admitted,
}
use tik_rec.Automation.Fill.{classify, verdict}
use tik_rec.Automation.Ahead.{IsCoherent, set_result-IsCoherent}
use tik_rec.Automation.Candidates.{IsFreshIn}

-- Every creator of a list has only new rooms.
abbrev pub AllNew : {S : Type 0} → List Observation → World S → List Text → Type 0
AllNew seen w cs = All (IsFreshIn w.state.consumed_rooms seen) cs

-- A world that leaves the rooms of these creators alone.
transport_fresh :
    (c d : TextDict Text) (os : List Observation) (x : Text)
    → get d x ≡ get c x
    → IsFreshIn c os x
    → IsFreshIn d os x
transport_fresh c d [] x e h = tt
transport_fresh c d (o ∷ os) x e h =
    ((λ p r q k. h.0 p r q (sym e ∙ k)), transport_fresh c d os x e h.1)

pub transport-All :
    (c d : TextDict Text) (os : List Observation) (x : Text) (cs : List Text)
    → text_in x cs ≡ false
    → ((j : Text) → x ≢ j → get d j ≡ get c j)
    → All (IsFreshIn c os) cs
    → All (IsFreshIn d os) cs
transport-All c d os x [] n same h = tt
transport-All c d os x (y ∷ cs) n same h = (
  transport_fresh c d os y (same y (λ e. ground (arith, text_eq_iff y x))) h.0,
  transport-All c d os x cs (ground arith) same h.1,
)

module _ {S : Type 0} (rules : PathRules) where
  pub choose-IsCoherent :
      (b : Bool) (v w : World S)
      → IsCoherent rules v
      → IsCoherent rules w
      → IsCoherent rules (if b then v else w)
  choose-IsCoherent true v w h k = h
  choose-IsCoherent false v w h k = k

  pub choose_three-IsCoherent :
      (is_first going halting : Bool) (a b c d : World S)
      → (going ≡ true → IsCoherent rules a)
      → IsCoherent rules b
      → IsCoherent rules c
      → IsCoherent rules d
      → IsCoherent rules (if is_first then (if going then a else b) else (if halting then c else d))
  choose_three-IsCoherent true true halting a b c d ka kb kc kd = ka refl
  choose_three-IsCoherent true false halting a b c d ka kb kc kd = kb
  choose_three-IsCoherent false going true a b c d ka kb kc kd = kc
  choose_three-IsCoherent false going false a b c d ka kb kc kd = kd

  pub set_results-IsCoherent :
      (r : CycleResult) (cs : List Text) (w : World S)
      → IsCoherent rules w
      → IsCoherent rules (set_results r cs w)
  unfolding set_results
  set_results-IsCoherent r [] w k = k
  set_results-IsCoherent r (c ∷ cs) w k =
      set_results-IsCoherent r cs (set_result c r w) (set_result-IsCoherent rules c r w k)

  pub block-IsCoherent :
      (os : List Observation) (w : World S)
      → IsCoherent rules w
      → IsCoherent rules (block_live_creators os w)
  unfolding block_live_creators
  block-IsCoherent [] w k = k
  block-IsCoherent (o ∷ os) w k = block-IsCoherent os _ (by_state o.state)
    where
      by_state :
          (s : Liveness)
          → IsCoherent rules
              (elim s [ live ↦ set_result o.creator (result blocked w.blocked_reason) w | _ ↦ w ])
      by_state live = set_result-IsCoherent rules o.creator _ w k
      by_state offline = k
      by_state unknown = k
      by_state pending = k

  pub disable-IsCoherent :
      (reason : Reason) (w : World S) → IsCoherent rules w → IsCoherent rules (disable reason w)
  unfolding disable
  disable-IsCoherent reason w k = record {
    synced = λ e. cc;
    keyed = k.keyed;
    stored = k.stored;
    claimed = k.claimed;
  }

  pub begin-IsCoherent :
      (n : ℕ) (w : World S) → IsCoherent rules w → IsCoherent rules (begin_cycle n w)
  unfolding begin_cycle
  begin-IsCoherent n w k = record {
    synced = k.synced;
    keyed = k.keyed;
    stored = k.stored;
    claimed = k.claimed;
  }

  -- `_classify` changes the results alone.
  pub classify-IsCoherent :
      (consumed : TextDict Text) (again : List Text) (as' : List Admitted) (w : World S)
      → IsCoherent rules w
      → IsCoherent rules (classify consumed again as' w).1
        × ((classify consumed again as' w).1.state ≡ w.state)
  unfolding classify
  classify-IsCoherent consumed again [] w k = (k, refl)
  classify-IsCoherent consumed again (a ∷ as') w k =
      let (kw, same) =
        classify-IsCoherent consumed again as'
          (set_result a.seen.creator (verdict consumed again a) w)
          (set_result-IsCoherent rules a.seen.creator _ w k) in
      (kw, same ∙ unfold set_result in refl)

-- ===== src/Monitor/Named.antt =====
-- What the snapshots of the monitor name (tikrec/monitoring.py).
use tik_rec.Base.{
  ◌≡◌, refl, sym, ap, ◌∙◌, subst, ◌⊎◌, inl, inr, Bool, true, false, not, ◌&&◌, Option, none, some,
  List, [], ◌∷◌, ◌++◌, if◌then◌else◌, All, All-append, some_eq,
}
use tik_rec.Text.{Text}
use tik_rec.Automation.Candidates.{NoRepeat}
use tik_rec.Monitor.{
  Surroundings, validate_monitored_creators, validated, pending_observations, Monitor, make_monitor,
  snapshot, same_creators, adopt, reload_creators, observe, observe_each, end_cycle, observe_cycle,
  poll_cycle, run_cycles, run,
}
use tik_rec.Monitor.Entries.{
  IsKnown, IsComplete, IsMonitoring, validate-NoRepeat, sighting_of-creator, put-All-IsKnown,
  pending-IsKnown, snapshot-IsComplete, snapshot-own, validate-same,
}

-- A monitor that differs in its counters and marks alone is as good.
IsMonitoring-as :
    (C : List Text → Type 0) {S : Type 0} (m v : Monitor S)
    → (v.creators ≡ m.creators) × (v.observations ≡ m.observations) × (v.delivered ≡ m.delivered)
    → IsMonitoring C m
    → IsMonitoring C v
IsMonitoring-as C m v e k = record {
  is_configured = subst C (sym e.0) k.is_configured;
  distinct = subst NoRepeat (sym e.0) k.distinct;
  known =
      subst (λ cs. All (IsKnown v.observations) cs) (sym e.0)
        (subst (λ d. All (IsKnown d) m.creators) (sym e.1) k.known);
  complete = subst (All (IsComplete C)) (sym e.2) k.complete;
}

choose-IsMonitoring :
    (C : List Text → Type 0) {S : Type 0} (b : Bool) (m v : Monitor S)
    → IsMonitoring C m
    → IsMonitoring C v
    → IsMonitoring C (if b then m else v)
choose-IsMonitoring C true m v h k = h
choose-IsMonitoring C false m v h k = k

module _ (around : Surroundings) (C : List Text → Type 0)
    (given : (load : around.State → Option (List Text) × around.State) (s : around.State)
        (cs : List Text)
      → around.load_creators ≡ some load
      → (load s).0 ≡ some cs
      → C cs) where
  open around use {State, stopped, resolve, clock, load_creators}

  adopt-IsMonitoring :
      (loaded : Option (List Text)) (m : Monitor State)
      → ((cs : List Text) → loaded ≡ some cs → NoRepeat cs × C cs)
      → IsMonitoring C m
      → IsMonitoring C (adopt around loaded m)
  unfolding adopt
  adopt-IsMonitoring none m distinct k = IsMonitoring-as C m _ (refl, refl, refl) k
  adopt-IsMonitoring (some cs) m distinct k = choose-IsMonitoring C (stopped m.surroundings) m _ k (
      choose-IsMonitoring C (same_creators cs m.creators) _ _
        (IsMonitoring-as C m _ (refl, refl, refl) k)
        (record {
          is_configured = (distinct cs refl).1;
          distinct = (distinct cs refl).0;
          known = pending-IsKnown cs;
          complete = k.complete;
        }))

  validated-given :
      (load : State → Option (List Text) × State) (s : State) (loaded : Option (List Text))
      → load_creators ≡ some load
      → (load s).0 ≡ loaded
      → (cs : List Text) → validated loaded ≡ some cs
      → NoRepeat cs × C cs
  validated-given load s none l e cs h = cc
  validated-given load s (some xs) l e cs h =
      (validate-NoRepeat xs cs h, given load s cs l (e ∙ ap some (validate-same xs cs h)))

  reload-IsMonitoring :
      (m : Monitor State) → IsMonitoring C m → IsMonitoring C (reload_creators around m)
  unfolding reload_creators
  reload-IsMonitoring m k = by_loader load_creators refl
    where
      by_loader :
          (l : Option (State → Option (List Text) × State))
          → load_creators ≡ l
          → let v : Monitor State = elim l [
            | none ↦ m
            | some load ↦
                let (loaded, s) = load m.surroundings in
                adopt around (validated loaded) (record m { surroundings = s })
          ] in
            IsMonitoring C v
      by_loader none e = k
      by_loader (some load) e =
          adopt-IsMonitoring (validated (load m.surroundings).0) _
            (validated-given load m.surroundings (load m.surroundings).0 e refl)
            (IsMonitoring-as C m (record m { surroundings = (load m.surroundings).1 })
              (refl, refl, refl) k)

  observe-IsMonitoring :
      (c : Text) (m : Monitor State) → IsMonitoring C m → IsMonitoring C (observe around c m)
  unfolding observe
  observe-IsMonitoring c m k = record {
    is_configured = k.is_configured;
    distinct = k.distinct;
    known = put-All-IsKnown m.observations c _ m.creators (sighting_of-creator c _ _) k.known;
    complete = k.complete;
  }

  observe_each-IsMonitoring :
      (cs : List Text) (m : Monitor State)
      → IsMonitoring C m
      → IsMonitoring C (observe_each around cs m).1
  unfolding observe_each
  observe_each-IsMonitoring [] m k = k
  observe_each-IsMonitoring (c ∷ cs) m k =
      by_stop (stopped m.surroundings) _
        (observe_each-IsMonitoring cs _ (observe-IsMonitoring c m k))
    where
      by_stop :
          (b : Bool) (r : Bool × Monitor State)
          → IsMonitoring C r.1
          → let v : Bool × Monitor State = if b then (false, m) else r in IsMonitoring C v.1
      by_stop true r h = k
      by_stop false r h = h

  deliver-IsMonitoring :
      (m : Monitor State)
      → IsMonitoring C m
      → IsMonitoring C (record m { delivered = m.delivered ++ snapshot m ∷ [] })
  deliver-IsMonitoring m k = record {
    is_configured = k.is_configured;
    distinct = k.distinct;
    known = k.known;
    complete = All-append (IsComplete C) m.delivered _ k.complete (snapshot-IsComplete C m k, tt);
  }

  end_cycle-IsMonitoring :
      (b : Bool) (m : Monitor State) → IsMonitoring C m → IsMonitoring C (end_cycle around b m)
  unfolding end_cycle
  end_cycle-IsMonitoring b m k =
      let ended =
        choose-IsMonitoring C (b && not (stopped m.surroundings)) _ _
          (IsMonitoring-as C m _ (refl, refl, refl) k)
          (IsMonitoring-as C m _ (refl, refl, refl) k) in
      choose-IsMonitoring C _ _ _ (deliver-IsMonitoring _ ended) ended

  poll_cycle-IsMonitoring :
      (m : Monitor State) → IsMonitoring C m → IsMonitoring C (poll_cycle around m)
  unfolding poll_cycle observe_cycle
  poll_cycle-IsMonitoring m k =
      let reloaded = reload-IsMonitoring m k in
      choose-IsMonitoring C (stopped m.surroundings) m _ k (
        choose-IsMonitoring C (stopped (reload_creators around m).surroundings) _ _ reloaded (
          end_cycle-IsMonitoring _ _
            (observe_each-IsMonitoring _ _ (IsMonitoring-as C _ _ (refl, refl, refl) reloaded))))

  run_cycles-IsMonitoring :
      (answers : List Bool) (m : Monitor State)
      → IsMonitoring C m
      → IsMonitoring C (run_cycles around answers m)
  unfolding run_cycles
  run_cycles-IsMonitoring [] m k = k
  run_cycles-IsMonitoring (ending ∷ answers) m k =
      let polled = poll_cycle-IsMonitoring m k in
      choose-IsMonitoring C (stopped m.surroundings) m _ k
        (choose-IsMonitoring C ending _ _ polled (run_cycles-IsMonitoring answers _ polled))

made-IsMonitoring :
    (C : List Text → Type 0) {S : Type 0} (creators : List Text) (s : S) (m : Monitor S)
    → C creators
    → make_monitor creators s ≡ some m
    → IsMonitoring C m
unfolding make_monitor
made-IsMonitoring C creators s m given h = by_list (validate_monitored_creators creators) refl h
  where
    by_list :
        (v : Option (List Text))
        → validate_monitored_creators creators ≡ v
        → elim v [
          | none ↦ none
          | some cs ↦ some (record {
            creators = cs;
            observations = pending_observations cs;
            configuration_unavailable = false;
            running = false;
            cycle_in_progress = false;
            cycle_count = 0;
            last_cycle_started_at = none;
            last_cycle_completed_at = none;
            surroundings = s;
            delivered = [];
          })
        ]
          ≡ some m
        → IsMonitoring C m
    by_list none e = λ k. cc (k)
    by_list (some cs) e = λ k.
        subst (λ x. IsMonitoring C x) (some_eq k)
          (record {
            is_configured = subst C (validate-same creators cs e) given;
            distinct = validate-NoRepeat creators cs e;
            known = pending-IsKnown cs;
            complete = tt;
          })

-- A list that is configured: the one that the monitor was made with, or one that the loader has returned.
abbrev pub IsConfigured : (around : Surroundings) → List Text → List Text → Type 0
IsConfigured around creators cs =
    (cs ≡ creators)
    ⊎ ((load : around.State → Option (List Text) × around.State) × (s : around.State)
        × (around.load_creators ≡ some load)
        × ((load s).0 ≡ some cs))

-- From a monitor over a validated list, whatever the resolver answers, the loader returns and the stop
-- event does, each snapshot that `cycle_completed` is given, and the one at the end, has one entry for
-- each creator, in order, of the list that the monitor was made with or of one that the loader has
-- returned, and names no creator twice. The snapshot at the end has the monitor's own list.
pub run-IsComplete :
    (around : Surroundings) (creators : List Text) (s : around.State) (m : Monitor around.State)
    (answers : List Bool)
    → make_monitor creators s ≡ some m
    → All (IsComplete (IsConfigured around creators)) (run around answers m).delivered
      × IsComplete
          (λ cs. (cs ≡ (run around answers m).creators) × IsConfigured around creators cs)
          (snapshot (run around answers m))
unfolding run
run-IsComplete around creators s m answers h =
    let C : List Text → Type 0 = λ cs. IsConfigured around creators cs in
    let k =
      run_cycles-IsMonitoring around C (λ load t cs l e. inr (load, t, l, e)) answers m
        (made-IsMonitoring C creators s m (inl refl) h) in
    (k.complete, snapshot-own C _ (IsMonitoring-as C _ _ (refl, refl, refl) k))

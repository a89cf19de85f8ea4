-- ===== src/Unattended/Joined.antt =====
-- Starts of the joined program are claimed (tikrec/monitoring.py, tikrec/admission.py and
-- tikrec/automation.py).
use tik_rec.Base.{◌≡◌, refl, sym, ap, ◌∙◌, subst, Option, some, List, [], ◌∷◌, Bool, All}
use tik_rec.Text.{Text}
use tik_rec.Automation.{PathRules, Job}
use tik_rec.Automation.Cycle.{Request, StartReply, Services, World}
use tik_rec.Automation.Ahead.{IsClaimed}
use tik_rec.Automation.Candidates.{NoRepeat, creators, IsCanonical}
use tik_rec.Automation.History.{Reachable, later, cycle, Reachable-IsClaimed}
use tik_rec.Admission.{Sources, RecordingAdmission}
use tik_rec.Admission.Ready.{seen_of-evaluate}
use tik_rec.Monitor.{Sighting, Snapshot, Surroundings, Monitor, make_monitor, run}
use tik_rec.Monitor.Entries.{names, IsComplete}
use tik_rec.Monitor.Named.{IsConfigured, run-IsComplete}
use tik_rec.Unattended.{seen_in, admitting, receive, receive_all}

-- The rooms of a snapshot are canonical.
abbrev pub HasRooms : Snapshot → Type 0
HasRooms s =
    (entries : List Sighting) → s.creators ≡ some entries → All IsCanonical (seen_in entries)

creators-seen_in : (os : List Sighting) → creators (seen_in os) ≡ names os
creators-seen_in [] = refl
creators-seen_in (o ∷ os) = ap (λ cs. o.creator ∷ cs) (creators-seen_in os)

module _ (sources : Sources) (a : RecordingAdmission) (jobs : sources.State → Option (List Job))
    (fingerprint : Option (sources.State → Option (Option Text)))
    (start : Request → sources.State → StartReply × sources.State) (rules : PathRules)
    (raw_copy_creators : List Text) where
  abbrev services : Services
  services = admitting sources a jobs fingerprint start

  receive-Reachable :
      (C : List Text → Type 0) (s : Snapshot) (w : World sources.State)
      → IsComplete C s
      → HasRooms s
      → Reachable rules services raw_copy_creators w
      → Reachable rules services raw_copy_creators (
          receive sources a jobs fingerprint start rules raw_copy_creators s.cycle_count s.creators
            w)
  receive-Reachable C s w c h r =
      subst
        (λ x.
          Reachable rules services raw_copy_creators
            (receive sources a jobs fingerprint start rules raw_copy_creators s.cycle_count x w))
        (sym c.copied)
        (later w _ r (
          cycle s.cycle_count (seen_in c.entries) w
            (subst NoRepeat (sym (creators-seen_in c.entries ∙ c.in_order)) c.distinct)
            (h c.entries c.copied)))

  receive_all-Reachable :
      (C : List Text → Type 0) (ss : List Snapshot) (w : World sources.State)
      → All (IsComplete C) ss
      → All HasRooms ss
      → Reachable rules services raw_copy_creators w
      → Reachable rules services raw_copy_creators
          (receive_all sources a jobs fingerprint start rules raw_copy_creators ss w)
  unfolding receive_all
  receive_all-Reachable C [] w c h r = r
  receive_all-Reachable C (s ∷ ss) w c h r =
      receive_all-Reachable C ss _ c.1 h.1 (receive-Reachable C s w c.0 h.0 r)

  -- In the joined program, from any state that the coordinator can reach: where the rooms of the
  -- snapshots are canonical, each call of `start` that the snapshots of a run of the monitor lead to is
  -- made under a valid claim that is on the disk, whatever the resolver, the loader, the disk and the
  -- controller answer.
  pub receive_all-IsClaimed :
      (around : Surroundings) (configured : List Text) (s : around.State) (m : Monitor around.State)
      (answers : List Bool) (w : World sources.State)
      → make_monitor configured s ≡ some m
      → All HasRooms (run around answers m).delivered
      → Reachable rules services raw_copy_creators w
      → All
          (IsClaimed rules)
          (receive_all sources a jobs fingerprint start rules raw_copy_creators
            (run around answers m).delivered
            w).calls
  receive_all-IsClaimed around configured s m answers w made rooms r =
      (Reachable-IsClaimed rules services raw_copy_creators
        (λ x os. seen_of-evaluate sources a x os) _
        (receive_all-Reachable (λ cs. IsConfigured around configured cs)
          (run around answers m).delivered w (run-IsComplete around configured s m answers made).0
          rooms r)).0

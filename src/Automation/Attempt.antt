-- ===== src/Automation/Attempt.antt =====
-- `_attempt` (tikrec/automation.py): what one try for a creator leaves behind.
use tik_rec.Base.{
  ◌≡◌, ◌≢◌, refl, sym, ap, ◌∙◌, subst, Bool, true, false, Option, none, some, List, arith,
  if◌then◌else◌, All-append, Bool-cases, inl, inr, some_eq,
}
use tik_rec.Text.{Text, TextDict, get, put, text_in}
use tik_rec.Text.Laws.{IsDict, put-IsDict, get-sort_items, get-put, text_eq_iff}
use tik_rec.Automation.{Claim, AutomationState, PathRules, claim_valid, Observation, canonical_of}
use tik_rec.Automation.Cycle.{
  result, blocked, controller_state_unavailable, Reason, automation_state_ambiguous,
  automation_state_unavailable, Admission, StartReply, accepted, Services, World, set_result,
  replace_state, rejected,
}
use tik_rec.Automation.Coordinator.{
  request_for, log_call, checked_claim, claim_of, make_claim, settle_reply, start_claimed,
  attempt_claim, attempt, prior_session_id_for_start,
}
use tik_rec.Automation.Ahead.{
  IsClaimed, IsCoherent, target, Replaced, replace_state_lem, replace_state-IsCoherent,
  set_result-IsCoherent, rejected-IsCoherent,
}

-- What a try for `c` leaves: a coherent coordinator, and, where the loop goes on, the consumed rooms
-- of all other creators as they were.
pub record Tried {S : Type 0} (rules : PathRules) (c : Text) (w : World S) (r : Bool × World S)
    : Type 0 where
  pub coherent : IsCoherent rules r.1
  pub others :
      r.0 ≡ true
      → (j : Text) → c ≢ j
      → get r.1.state.consumed_rooms j ≡ get w.state.consumed_rooms j

-- The claim of `make_claim` is valid, and is for the room that was observed.
record IsClaimFor (rules : PathRules) (c : Text) (observed : Option Observation) (claim : Claim)
    : Type 0 where
  valid : claim_valid rules claim ≡ true
  creator : claim.creator ≡ c
  seen : Observation
  found : observed ≡ some seen
  room : canonical_of seen.room_id ≡ some claim.room_id

checked_claim_lem :
    (rules : PathRules) (x claim : Claim)
    → checked_claim rules x ≡ some claim
    → (claim_valid rules x ≡ true) × (x ≡ claim)
unfolding checked_claim
checked_claim_lem rules x claim h = elim (Bool-cases (claim_valid rules x)) [
  | inl valid ↦ (valid, some_eq (rw valid at h))
  | inr bad ↦ cc (rw bad at h)
]

claim_of_lem :
    (rules : PathRules) (c : Text) (previous room output parts : Option Text) (claim : Claim)
    → claim_of rules c previous room output parts ≡ some claim
    → (claim_valid rules claim ≡ true) × (claim.creator ≡ c) × (room ≡ some claim.room_id)
unfolding claim_of
claim_of_lem rules c previous (some r) (some o) (some p) claim h =
    let (valid, same) = checked_claim_lem rules _ claim h in
    (
      subst (λ x. claim_valid rules x ≡ true) same valid,
      sym (ap (λ (x : Claim). x.creator) same),
      ap (λ (x : Claim). some x.room_id) same,
    )
claim_of_lem rules c previous _ _ _ claim h = cc

make_claim-IsClaimFor :
    (rules : PathRules) (c : Text) (observed : Option Observation) (a : Admission)
    (previous : Option Text) (claim : Claim)
    → make_claim rules c observed a previous ≡ some claim
    → IsClaimFor rules c observed claim
unfolding make_claim
make_claim-IsClaimFor rules c none a previous claim h = cc
make_claim-IsClaimFor rules c (some o) a previous claim h =
    let (valid, creator, room) = claim_of_lem rules c previous _ _ _ claim h in
    record { valid = valid; creator = creator; seen = o; found = refl; room = room }

-- What is in the room of an observation is not counted as started.
abbrev pub IsNew : {S : Type 0} → Text → Option Observation → World S → Type 0
IsNew c observed w =
    (o : Observation) (r : Text)
    → observed ≡ some o
    → canonical_of o.room_id ≡ some r
    → get w.state.consumed_rooms c ≢ some r

module _ {S : Type 0} (rules : PathRules) where
  -- The look-ups behind a save that returned.
  Replaced-others :
      (consumed : TextDict Text) (claim : Option Claim) (w : World S) (r : Bool × World S)
      → Replaced rules (target consumed claim) w r
      → IsDict consumed
      → r.0 ≡ true
      → (j : Text) → get r.1.state.consumed_rooms j ≡ get consumed j
  Replaced-others consumed claim w (true, v) h d e j =
      ap (λ (s : AutomationState). get s.consumed_rooms j) h.0 ∙ get-sort_items consumed j d
  Replaced-others consumed claim w (false, v) h d e j = cc

  -- The claim is dropped, and nothing else changes.
  rejected-others :
      (c : Text) (reason : Reason) (again : Bool) (w : World S)
      → IsCoherent rules w
      → (rejected rules c reason again w).0 ≡ true
      → (j : Text)
      → get (rejected rules c reason again w).1.state.consumed_rooms j
        ≡ get w.state.consumed_rooms j
  unfolding rejected set_result
  rejected-others c reason again w k e j =
      Replaced-others w.state.consumed_rooms none w _
        (replace_state_lem rules w.state.consumed_rooms none automation_state_ambiguous w) k.keyed
        (ground arith) j

  -- A world that differs in its account of the cycle alone is as coherent.
  pub IsCoherent-as :
      (v w : World S)
      → (v.operational ≡ w.operational)
        × (v.durable ≡ w.durable)
        × (v.state ≡ w.state)
        × (v.calls ≡ w.calls)
      → IsCoherent rules w
      → IsCoherent rules v
  IsCoherent-as v w e k = record {
    synced = λ o. e.1 ∙ (k.synced (sym e.0 ∙ o) ∙ sym e.2);
    keyed = rw e.2 k.keyed;
    stored = rw e.1 k.stored;
    claimed = rw e.3 k.claimed;
  }

-- The reply of `start` is settled: an accepted job consumes its room, any other reply drops the claim.
settle_reply-Tried :
    (rules : PathRules) (services : Services) (claim : Claim) (reply : StartReply)
    (w : World services.State)
    → IsCoherent rules w
    → Tried rules claim.creator w (settle_reply rules services claim reply w)
unfolding settle_reply
settle_reply-Tried rules services claim (accepted job) w k =
    let consumed = put w.state.consumed_rooms claim.creator claim.room_id in
    let d = put-IsDict w.state.consumed_rooms claim.creator claim.room_id k.keyed in
    let r = replace_state rules consumed none automation_state_ambiguous w in
    record {
      coherent =
          unfold set_result in
          IsCoherent-as rules _ r.1 (refl, refl, refl, refl)
            (replace_state-IsCoherent rules consumed none automation_state_ambiguous w d k);
      others =
          unfold set_result in
          (λ e j ne.
            Replaced-others rules consumed none w r
              (replace_state_lem rules consumed none automation_state_ambiguous w) d e j
            ∙ ground (
              arith,
              get-put w.state.consumed_rooms claim.creator j claim.room_id,
              text_eq_iff claim.creator j,
            ));
    }
settle_reply-Tried rules services claim StartReply.duplicate w k = record {
  coherent = rejected-IsCoherent rules claim.creator _ true w k;
  others = λ e j ne. rejected-others rules claim.creator _ true w k e j;
}
settle_reply-Tried rules services claim StartReply.busy w k = record {
  coherent = rejected-IsCoherent rules claim.creator _ false w k;
  others = λ e j ne. cc;
}
settle_reply-Tried rules services claim StartReply.refused w k = record {
  coherent = rejected-IsCoherent rules claim.creator _ false w k;
  others = λ e j ne. cc;
}

log_call-IsCoherent :
    {S : Type 0} (rules : PathRules) (raw : Bool) (claim : Claim) (after : S) (w : World S)
    → IsCoherent rules w
    → w.durable.pending_claim ≡ some claim
    → claim_valid rules claim ≡ true
    → get w.durable.consumed_rooms claim.creator ≢ some claim.room_id
    → IsCoherent rules (log_call claim (request_for raw claim) after w)
unfolding log_call request_for
log_call-IsCoherent rules raw claim after w k durable valid fresh = record {
  synced = k.synced;
  keyed = k.keyed;
  stored = k.stored;
  claimed = All-append (IsClaimed rules) w.calls _ k.claimed (
    record {
      claim = claim;
      durable = durable;
      valid = valid;
      creator = refl;
      page = refl;
      output = refl;
      room = refl;
      fresh = fresh;
    },
    tt,
  );
}

start_claimed-Tried :
    (rules : PathRules) (services : Services) (raw : Bool) (claim : Claim)
    (w : World services.State)
    → IsCoherent rules w
    → w.durable.pending_claim ≡ some claim
    → claim_valid rules claim ≡ true
    → get w.durable.consumed_rooms claim.creator ≢ some claim.room_id
    → Tried rules claim.creator w (start_claimed rules services raw claim w)
unfolding start_claimed
start_claimed-Tried rules services raw claim w k durable valid fresh =
    let request = request_for raw claim in
    let (reply, after) = services.start request w.services in
    let t =
      settle_reply-Tried rules services claim reply (log_call claim request after w)
        (log_call-IsCoherent rules raw claim after w k durable valid fresh) in
    record { coherent = t.coherent; others = unfold log_call in t.others }

-- The claim is saved, and only then the start is asked for.
attempt_claim-Tried :
    (rules : PathRules) (services : Services) (raw : Bool) (c : Text)
    (observed : Option Observation) (found : Option Claim) (w : World services.State)
    → ((claim : Claim) → found ≡ some claim → IsClaimFor rules c observed claim)
    → IsNew c observed w
    → IsCoherent rules w
    → Tried rules c w (attempt_claim rules services raw c found w)
unfolding attempt_claim
attempt_claim-Tried rules services raw c observed none w for new k = record {
  coherent = set_result-IsCoherent rules c _ w k;
  others = λ e j ne. cc;
}
attempt_claim-Tried rules services raw c observed (some claim) w for new k =
    by_save (replace_state rules w.state.consumed_rooms (some claim) automation_state_unavailable w)
      (replace_state_lem rules w.state.consumed_rooms (some claim) automation_state_unavailable w)
      (replace_state-IsCoherent rules w.state.consumed_rooms (some claim)
        automation_state_unavailable w k.keyed k)
  where
    f : IsClaimFor rules c observed claim
    f = for claim refl

    by_save :
        (r : Bool × World services.State)
        → Replaced rules (target w.state.consumed_rooms (some claim)) w r
        → IsCoherent rules r.1
        → Tried rules c w (
            if r.0
            then start_claimed rules services raw claim r.1
            else (false, set_result c (result blocked (some automation_state_unavailable)) r.1))
    by_save (false, v) h kv = record {
      coherent = set_result-IsCoherent rules c _ v kv;
      others = λ e j ne. cc;
    }
    by_save (true, v) h kv =
        let same =
          Replaced-others rules w.state.consumed_rooms (some claim) w (true, v) h k.keyed refl in
        let durable_room : get v.durable.consumed_rooms claim.creator
            ≡ get w.state.consumed_rooms claim.creator =
          ap (λ (s : AutomationState). get s.consumed_rooms claim.creator) (h.1 ∙ sym h.0)
          ∙ same claim.creator in
        let t =
          start_claimed-Tried rules services raw claim v kv
            (ap (λ (s : AutomationState). s.pending_claim) h.1) f.valid
            (λ e.
              new f.seen claim.room_id f.found f.room (
                ap (λ x. get w.state.consumed_rooms x) (sym f.creator) ∙ (sym durable_room ∙ e))) in
        record {
          coherent = t.coherent;
          others = λ e j ne. t.others e j (λ q. ne (sym f.creator ∙ q)) ∙ same j;
        }

-- A try for a creator whose observed room is new makes a call of `start` only with a valid claim for
-- it on the disk, and leaves the rooms of the other creators alone.
pub attempt-Tried :
    (rules : PathRules) (services : Services) (raw_copy_creators : List Text) (c : Text)
    (observed : Option Observation) (a : Admission) (w : World services.State)
    → IsNew c observed w
    → IsCoherent rules w
    → Tried rules c w (attempt rules services raw_copy_creators c observed a w)
unfolding attempt
attempt-Tried rules services raw_copy_creators c observed a w new k =
    by_fingerprint (prior_session_id_for_start rules services w.services)
  where
    by_fingerprint :
        (prior : Option (Option Text))
        → Tried rules c w (elim prior [
          | none ↦ (false, set_result c (result blocked (some controller_state_unavailable)) w)
          | some previous ↦
              attempt_claim rules services
                (text_in c raw_copy_creators)
                c
                (make_claim rules c observed a previous)
                w
        ])
    by_fingerprint none = record {
      coherent = set_result-IsCoherent rules c _ w k;
      others = λ e j ne. cc;
    }
    by_fingerprint (some previous) =
        attempt_claim-Tried rules services _ c observed _ w
          (make_claim-IsClaimFor rules c observed a previous) new k

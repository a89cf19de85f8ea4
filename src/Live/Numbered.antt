-- ===== src/Live/Numbered.antt =====
-- The parts and records of a capture over its connections (tikrec/live.py).
use tik_rec.Base.{
  ℕ, suc, ◌+◌, ◌≡◌, refl, sym, ap, ◌∙◌, subst, Bool, true, false, not, Option, none, some, ◌⊎◌,
  List, [], ◌∷◌, ◌++◌, append-nil, append_assoc, arith, length, length-append, if◌then◌else◌,
  is_nil, Result, ok, err,
}
use tik_rec.Text.{Text}
use tik_rec.Network.{Failing, capture_stopped}
use tik_rec.Live.{Limits, Resolution, resolve_bound_live, resolve_live_url_confirmed}
use tik_rec.Live.Attempt.{
  PartWriter, AreNumbered, Outcome, ConnectionRecord, LiveCapture, CaptureEnd, finished,
  failed_capture, outage_failure, escaped, Turn, Step, goes, ends, Attempted, attempted,
  open_source, start_session, identify, identified, or_room, resolved, attempt,
}
use tik_rec.Live.Loop.{record_of, close_record}

abbrev pub parts_of : List ConnectionRecord → List ℕ
parts_of [] = []
parts_of (r ∷ rs) = r.parts ++ parts_of rs

-- The records are numbered one behind the other.
abbrev pub AreInOrder : ℕ → List ConnectionRecord → Type 0
AreInOrder k [] = Unit
AreInOrder k (r ∷ rs) = (r.number ≡ k) × AreInOrder (suc k) rs

-- The parts are numbered from `first` on with no gap, the next index is behind them, the records are
-- numbered from one on, and the parts are those before the capture and those of the records, in order.
pub record IsCounted (first : ℕ) (before : List ℕ) (c : LiveCapture) : Type 0 where
  pub parts : AreNumbered first c.all_parts
  pub next : c.next_part_index ≡ first + length c.all_parts
  pub recorded : c.all_parts ≡ before ++ parts_of c.records
  pub order : AreInOrder 1 c.records

-- Between two turns each connection has its record.
pub record IsAtTurn (first : ℕ) (before : List ℕ) (c : LiveCapture) : Type 0 where
  pub counted : IsCounted first before c
  pub connections : c.connection_number ≡ length c.records

-- At its end each connection has its record, but for one that an exception leaves, which passes through
-- the handlers: that one may have none.
abbrev pub IsEnded : ℕ → List ℕ → CaptureEnd → LiveCapture → Type 0
IsEnded first before escaped c =
    IsCounted first before c
    × ((c.connection_number ≡ length c.records) ⊎ (c.connection_number ≡ suc (length c.records)))
IsEnded first before (finished interrupted) c = IsAtTurn first before c
IsEnded first before failed_capture c = IsAtTurn first before c
IsEnded first before outage_failure c = IsAtTurn first before c

-- What the turns of a capture leave: it still runs, or has ended.
abbrev pub IsLeft : ℕ → List ℕ → Option CaptureEnd × LiveCapture → Type 0
IsLeft first before (none, c) = IsAtTurn first before c
IsLeft first before (some e, c) = IsEnded first before e c

AreNumbered-append :
    (k : ℕ) (ps qs : List ℕ)
    → AreNumbered k ps
    → AreNumbered (k + length ps) qs
    → AreNumbered k (ps ++ qs)
AreNumbered-append k [] qs h q = subst (λ n. AreNumbered n qs) (omega arith) q
AreNumbered-append k (p ∷ ps) qs h q =
    (h.0, AreNumbered-append (suc k) ps qs h.1 (subst (λ n. AreNumbered n qs) (omega arith) q))

AreInOrder-append :
    (k : ℕ) (rs : List ConnectionRecord) (r : ConnectionRecord)
    → AreInOrder k rs
    → r.number ≡ k + length rs
    → AreInOrder k (rs ++ r ∷ [])
AreInOrder-append k [] r h e = (e ∙ omega arith, tt)
AreInOrder-append k (x ∷ rs) r h e = (h.0, AreInOrder-append (suc k) rs r h.1 (e ∙ omega arith))

parts_of-append :
    (rs : List ConnectionRecord) (r : ConnectionRecord)
    → parts_of (rs ++ r ∷ []) ≡ parts_of rs ++ r.parts
parts_of-append [] r = append-nil r.parts
parts_of-append (x ∷ rs) r =
    ap (λ t. x.parts ++ t) (parts_of-append rs r) ∙ sym (append_assoc x.parts (parts_of rs) r.parts)

-- What an attempt leaves as it was, and the numbers of its parts
pub record IsAttempted (c : LiveCapture) (a : Attempted) : Type 0 where
  pub same_parts : a.capture.all_parts ≡ c.all_parts
  pub same_next : a.capture.next_part_index ≡ c.next_part_index
  pub same_records : a.capture.records ≡ c.records
  pub same_number : a.capture.connection_number ≡ c.connection_number
  pub same_failures : a.capture.consecutive_failures ≡ c.consecutive_failures
  pub same_empty : a.capture.consecutive_empty ≡ c.consecutive_empty
  pub numbered : AreNumbered c.next_part_index a.parts

failed-IsAttempted :
    (c : LiveCapture) (r : Result Failing (Unit {0})) → IsAttempted c (attempted c [] r)
failed-IsAttempted c r = record {
  same_parts = refl;
  same_next = refl;
  same_records = refl;
  same_number = refl;
  same_failures = refl;
  same_empty = refl;
  numbered = tt;
}

-- A room, the start of the session and its log
touched :
    (c : LiveCapture) (room : Option Text) (started : Bool) (log : List ConnectionRecord)
    → IsAttempted c (
        attempted
          (record c { saved_room_id = room; session_started = started; log = log })
          []
          (ok tt))
touched c room started log = record {
  same_parts = refl;
  same_next = refl;
  same_records = refl;
  same_number = refl;
  same_failures = refl;
  same_empty = refl;
  numbered = tt;
}

module _ (W : PartWriter) (dates : Text → Option ℕ) (stalls : Failing → Bool)
    (limits : Limits) where
  open_source-IsAttempted :
      (t : Turn W) (c : LiveCapture) (r : Result Failing (Unit {0}))
      → IsAttempted c (open_source W dates stalls limits t c r)
  open_source-IsAttempted t c (err e) = failed-IsAttempted c (err e)
  open_source-IsAttempted t c (ok u) = record {
    same_parts = refl;
    same_next = refl;
    same_records = refl;
    same_number = refl;
    same_failures = refl;
    same_empty = refl;
    numbered = W.numbered c.next_part_index t.stream;
  }

  IsAttempted-under :
      (c d : LiveCapture) (a : Attempted)
      → IsAttempted c (attempted d [] (ok tt))
      → IsAttempted d a
      → IsAttempted c a
  IsAttempted-under c d a s h = record {
    same_parts = h.same_parts ∙ s.same_parts;
    same_next = h.same_next ∙ s.same_next;
    same_records = h.same_records ∙ s.same_records;
    same_number = h.same_number ∙ s.same_number;
    same_failures = h.same_failures ∙ s.same_failures;
    same_empty = h.same_empty ∙ s.same_empty;
    numbered = subst (λ n. AreNumbered n a.parts) s.same_next h.numbered;
  }

  start_session-IsAttempted :
      (t : Turn W) (c : LiveCapture) (r : Result Failing (Unit {0}))
      → IsAttempted c (start_session W dates stalls limits t c r)
  start_session-IsAttempted t c (err e) = failed-IsAttempted c (err e)
  start_session-IsAttempted t c (ok u) =
      IsAttempted-under c _ _ (touched c c.saved_room_id true _)
        (open_source-IsAttempted t _ t.opened)

  identified-IsAttempted :
      (t : Turn W) (c : LiveCapture) (r : Result Failing (Unit {0}))
      → IsAttempted c (identified W dates stalls limits t c r)
  identified-IsAttempted t c (err e) = failed-IsAttempted c (err e)
  identified-IsAttempted t c (ok u) = by_session c.session_started
    where
      by_session :
          (b : Bool)
          → IsAttempted c (
              if b
              then open_source W dates stalls limits t c t.opened
              else start_session W dates stalls limits t c t.prepared)
      by_session true = open_source-IsAttempted t c t.opened
      by_session false = start_session-IsAttempted t c t.prepared

  resolved-IsAttempted :
      (t : Turn W) (c : LiveCapture) (r : Result Failing Resolution)
      → IsAttempted c (resolved W dates stalls limits t c r)
  resolved-IsAttempted t c (err e) = failed-IsAttempted c (err e)
  resolved-IsAttempted t c (ok r) = by_stop t.stopped_after
    where
      by_stop :
          (b : Bool)
          → IsAttempted c (
              if b
              then attempted c [] (err capture_stopped)
              else identified W dates stalls limits t
                  (record c { saved_room_id = or_room c.saved_room_id r.room_id })
                  (identify W dates stalls limits t r.room_id))
      by_stop true = failed-IsAttempted c (err capture_stopped)
      by_stop false =
          IsAttempted-under c _ _
            (touched c (or_room c.saved_room_id r.room_id) c.session_started c.log)
            (identified-IsAttempted t _ (identify W dates stalls limits t r.room_id))

  pub attempt-IsAttempted :
      (t : Turn W) (c : LiveCapture) → IsAttempted c (attempt W dates stalls limits t c)
  unfolding attempt
  attempt-IsAttempted t c = by_stop t.stopped_before
    where
      by_stop :
          (b : Bool)
          → IsAttempted c (
              if b
              then attempted c [] (err capture_stopped)
              else resolved W dates stalls limits t c
                  (resolve_live_url_confirmed limits.offline_confirmation_checks
                    limits.offline_confirmation_interval
                    (not (is_nil c.all_parts))
                    (λ k. resolve_bound_live dates c.saved_room_id (t.replies k))).result)
      by_stop true = failed-IsAttempted c (err capture_stopped)
      by_stop false = resolved-IsAttempted t c _

-- What a step leaves
abbrev pub After : (LiveCapture → Type 0) → (CaptureEnd → LiveCapture → Type 0) → Step → Type 0
After P Q (goes c) = P c
After P Q (ends e c) = Q e c

pub choose-After :
    (P : LiveCapture → Type 0) (Q : CaptureEnd → LiveCapture → Type 0) (b : Bool) (s t : Step)
    → After P Q s
    → After P Q t
    → After P Q (if b then s else t)
choose-After P Q true s t h k = h
choose-After P Q false s t h k = k

-- A capture with the same parts and records
pub record IsSame (c d : LiveCapture) : Type 0 where
  pub same_parts : d.all_parts ≡ c.all_parts
  pub same_next : d.next_part_index ≡ c.next_part_index
  pub same_records : d.records ≡ c.records

module _ (first : ℕ) (before : List ℕ) where
  pub IsCounted-as :
      (c d : LiveCapture) → IsSame c d → IsCounted first before c → IsCounted first before d
  IsCounted-as c d s h = record {
    parts = subst (λ x. AreNumbered first x) (sym s.same_parts) h.parts;
    next = s.same_next ∙ (h.next ∙ ap (λ (x : List ℕ). first + length x) (sym s.same_parts));
    recorded = s.same_parts ∙ (h.recorded ∙ ap (λ x. before ++ parts_of x) (sym s.same_records));
    order = subst (λ x. AreInOrder 1 x) (sym s.same_records) h.order;
  }

  pub IsAtTurn-as :
      (c d : LiveCapture)
      → IsSame c d
      → d.connection_number ≡ c.connection_number
      → IsAtTurn first before c
      → IsAtTurn first before d
  IsAtTurn-as c d s e h = record {
    counted = IsCounted-as c d s h.counted;
    connections =
        e ∙ (h.connections ∙ ap (λ (x : List ConnectionRecord). length x) (sym s.same_records));
  }

  module _ (W : PartWriter) where
    -- The record of an attempt completes its turn.
    pub close_record-IsAtTurn :
        (t : Turn W) (c : LiveCapture) (a : Attempted) (outcome : Outcome)
        → IsAtTurn first before c
        → IsAttempted (record c { connection_number = suc c.connection_number }) a
        → IsAtTurn first before (close_record W t a.capture a.parts outcome)
    unfolding close_record record_of
    close_record-IsAtTurn t c a outcome h s = record {
      counted = record {
        parts =
            subst (λ x. AreNumbered first (x ++ a.parts)) (sym s.same_parts)
              (AreNumbered-append first c.all_parts a.parts h.counted.parts
                (subst (λ n. AreNumbered n a.parts) h.counted.next s.numbered));
        next = omega (
          arith,
          length-append {0} a.capture.all_parts a.parts,
          s.same_next,
          h.counted.next,
          ap (λ (x : List ℕ). length x) s.same_parts,
        );
        recorded =
            ap (λ x. x ++ a.parts) (s.same_parts ∙ h.counted.recorded)
            ∙ (append_assoc before (parts_of c.records) a.parts
                ∙ ap (λ x. before ++ x)
                    (sym (parts_of-append c.records (record_of W t a.capture a.parts outcome))
                      ∙ ap
                          (λ (x : List ConnectionRecord).
                            parts_of (x ++ record_of W t a.capture a.parts outcome ∷ []))
                          (sym s.same_records)));
        order =
            subst (λ x. AreInOrder 1 (x ++ record_of W t a.capture a.parts outcome ∷ []))
              (sym s.same_records)
              (AreInOrder-append 1 c.records (record_of W t a.capture a.parts outcome)
                h.counted.order (s.same_number ∙ omega (arith, h.connections)));
      };
      connections = omega (
        arith,
        s.same_number,
        h.connections,
        length-append {0} a.capture.records (record_of W t a.capture a.parts outcome ∷ []),
        ap (λ (x : List ConnectionRecord). length x) s.same_records,
      );
    }

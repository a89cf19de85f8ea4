-- ===== src/Admission/Ready.antt =====
-- When a creator is ready to be recorded (tikrec/admission.py).
use tik_rec.Base.{
  ℕ, ◌≤◌, ◌≡◌, refl, ap, Bool, true, false, not, Option, none, some, List, [], ◌∷◌, arith, ltb,
  if◌then◌else◌, All,
}
use tik_rec.Text.{Text}
use tik_rec.Automation.{Observation}
use tik_rec.Automation.Cycle.{ready, not_applicable, blocked, low_free_space, Admission, Admitted}
use tik_rec.Automation.Fill.{is_live}
use tik_rec.Automation.Candidates.{seen_of}
use tik_rec.Admission.{
  StorageStatus, StorageSnapshot, storage_snapshot, Allocation, candidate, name_unavailable, failed,
  Sources, RecordingAdmission, decision, slot_available, settle_allocation, has_free_bytes,
  admit_at, admit_live, admission, any_live, admit_each, evaluate_with, evaluate,
}

module _ (sources : Sources) (a : RecordingAdmission) where
  open sources use {State, Moment, available, free, clock, allocate}

  -- What a creator that is ready has: it is LIVE, and the allocator has given the paths, in the output
  -- directory, at a moment of the clock, with a free slot and enough free bytes on the disk.
  pub record IsRecordable (s : State) (slot : Bool) (bytes : Option ℕ) (x : Admitted) : Type 0 where
    pub is_live_now : is_live x.seen.state ≡ true
    pub has_slot : slot ≡ true
    pub directory : Text
    pub configured : a.output_directory ≡ some directory
    pub room : ℕ
    pub measured : bytes ≡ some room
    pub enough : a.storage_status.minimum_free_bytes ≤ room
    pub moment : Moment
    pub output : Text
    pub parts : Text
    pub allocated : allocate s directory x.seen.creator moment ≡ candidate output parts
    pub output_path : x.admission.output_path ≡ some output
    pub parts_directory : x.admission.parts_directory ≡ some parts

  settle-candidate :
      (bytes : ℕ) (r : Allocation)
      → (settle_allocation bytes r).state ≡ ready
      → (output : Text) × (parts : Text) × (r ≡ candidate output parts)
        × ((settle_allocation bytes r).output_path ≡ some output)
        × ((settle_allocation bytes r).parts_directory ≡ some parts)
  unfolding settle_allocation
  settle-candidate bytes (candidate output parts) h = (output, parts, refl, refl, refl)
  settle-candidate bytes name_unavailable h = cc
  settle-candidate bytes failed h = cc

  admit_at-IsRecordable :
      (s : State) (o : Observation) (d : Text) (n : ℕ) (m : Option Moment)
      → is_live o.state ≡ true
      → a.output_directory ≡ some d
      → a.storage_status.minimum_free_bytes ≤ n
      → (admit_at sources a s o.creator d n m).state ≡ ready
      → IsRecordable s true
          (some n)
          (record { seen = o; admission = admit_at sources a s o.creator d n m })
  unfolding admit_at
  admit_at-IsRecordable s o d n none l e k h = cc
  admit_at-IsRecordable s o d n (some t) l e k h =
      let (output, parts, given, first, second) = settle-candidate n (allocate s d o.creator t) h in
      record {
        is_live_now = l;
        has_slot = refl;
        directory = d;
        configured = e;
        room = n;
        measured = refl;
        enough = k;
        moment = t;
        output = output;
        parts = parts;
        allocated = given;
        output_path = first;
        parts_directory = second;
      }

  admit_live-IsRecordable :
      (s : State) (o : Observation) (slot : Bool) (directory : Option Text) (has_storage : Bool)
      (bytes : Option ℕ) (moment : Option Moment)
      → is_live o.state ≡ true
      → a.output_directory ≡ directory
      → (admit_live sources a s o.creator slot directory has_storage bytes moment).state ≡ ready
      → IsRecordable s slot bytes (record {
        seen = o;
        admission = admit_live sources a s o.creator slot directory has_storage bytes moment;
      })
  unfolding admit_live
  admit_live-IsRecordable s o false d b n m l e h = cc
  admit_live-IsRecordable s o true none b n m l e h = cc
  admit_live-IsRecordable s o true (some d) false n m l e h = cc
  admit_live-IsRecordable s o true (some d) true none m l e h = cc
  admit_live-IsRecordable s o true (some d) true (some n) m l e h =
      by_room (ltb n a.storage_status.minimum_free_bytes) refl h
    where
      by_room :
          (b : Bool)
          → ltb n a.storage_status.minimum_free_bytes ≡ b
          → let x : Admission =
              if b
              then decision blocked (some low_free_space) (some n)
              else admit_at sources a s o.creator d n m in
            x.state ≡ ready → IsRecordable s true (some n) (record { seen = o; admission = x })
      by_room true q = λ k. cc (k)
      by_room false q = λ k. admit_at-IsRecordable s o d n m l e (ground arith) k

  admission-IsRecordable :
      (s : State) (o : Observation) (slot has_storage : Bool) (bytes : Option ℕ)
      (moment : Option Moment)
      → (admission sources a s o slot has_storage bytes moment).state ≡ ready
      → IsRecordable s slot bytes
          (record { seen = o; admission = admission sources a s o slot has_storage bytes moment })
  unfolding admission
  admission-IsRecordable s o slot has_storage bytes moment h = by_live (is_live o.state) refl h
    where
      by_live :
          (b : Bool)
          → is_live o.state ≡ b
          → let x : Admission =
              if not b
              then decision not_applicable none none
              else admit_live sources a s o.creator slot a.output_directory has_storage bytes
                  moment in
            x.state ≡ ready → IsRecordable s slot bytes (record { seen = o; admission = x })
      by_live true e =
          λ k. admit_live-IsRecordable s o slot a.output_directory has_storage bytes moment e refl k
      by_live false e = λ k. cc (k)

  -- The admission is asked of every observation, in order.
  seen_of-admit_each :
      (s : State) (os : List Observation) (slot has_storage : Bool) (bytes : Option ℕ)
      (moment : Option Moment)
      → seen_of (admit_each sources a s os slot has_storage bytes moment) ≡ os
  unfolding admit_each
  seen_of-admit_each s [] slot has_storage bytes moment = refl
  seen_of-admit_each s (o ∷ os) slot has_storage bytes moment =
      ap (λ xs. o ∷ xs) (seen_of-admit_each s os slot has_storage bytes moment)

  seen_of-evaluate_with :
      (s : State) (os : List Observation) (slot : Bool) (x : Option StorageSnapshot)
      → seen_of (evaluate_with sources a s os slot x) ≡ os
  unfolding evaluate_with
  seen_of-evaluate_with s os slot none = seen_of-admit_each s os slot false none none
  seen_of-evaluate_with s os slot (some x) =
      seen_of-admit_each s os slot (has_free_bytes x.state) x.free_bytes _

  pub seen_of-evaluate :
      (s : State) (os : List Observation) → seen_of (evaluate sources a s os) ≡ os
  unfolding evaluate
  seen_of-evaluate s os = seen_of-evaluate_with s os _ _

  -- A creator that is said to be ready can be recorded.
  abbrev pub IsSound : State → Bool → Option ℕ → Admitted → Type 0
  IsSound s slot bytes x = x.admission.state ≡ ready → IsRecordable s slot bytes x

  admit_each-IsSound :
      (s : State) (os : List Observation) (slot has_storage : Bool) (bytes : Option ℕ)
      (moment : Option Moment)
      → All (IsSound s slot bytes) (admit_each sources a s os slot has_storage bytes moment)
  unfolding admit_each
  admit_each-IsSound s [] slot has_storage bytes moment = tt
  admit_each-IsSound s (o ∷ os) slot has_storage bytes moment = (
    admission-IsRecordable s o slot has_storage bytes moment,
    admit_each-IsSound s os slot has_storage bytes moment,
  )

  IsSound-as :
      (s : State) (slot slot' : Bool) (bytes bytes' : Option ℕ) (x : Admitted)
      → (slot ≡ true → slot' ≡ true)
      → ((n : ℕ) → bytes ≡ some n → bytes' ≡ some n)
      → IsSound s slot bytes x
      → IsSound s slot' bytes' x
  IsSound-as s slot slot' bytes bytes' x same measured k h =
      let r = k h in
      record {
        is_live_now = r.is_live_now;
        has_slot = same r.has_slot;
        directory = r.directory;
        configured = r.configured;
        room = r.room;
        measured = measured r.room r.measured;
        enough = r.enough;
        moment = r.moment;
        output = r.output;
        parts = r.parts;
        allocated = r.allocated;
        output_path = r.output_path;
        parts_directory = r.parts_directory;
      }

  All-IsSound :
      (s : State) (slot slot' : Bool) (bytes bytes' : Option ℕ) (xs : List Admitted)
      → (slot ≡ true → slot' ≡ true)
      → ((n : ℕ) → bytes ≡ some n → bytes' ≡ some n)
      → All (IsSound s slot bytes) xs
      → All (IsSound s slot' bytes') xs
  All-IsSound s slot slot' bytes bytes' [] same measured h = tt
  All-IsSound s slot slot' bytes bytes' (x ∷ xs) same measured h = (
    IsSound-as s slot slot' bytes bytes' x same measured h.0,
    All-IsSound s slot slot' bytes bytes' xs same measured h.1,
  )

  storage_snapshot-free :
      (status : StorageStatus) (directory : Option Text) (answer : Option ℕ) (n : ℕ)
      → (storage_snapshot status directory answer).free_bytes ≡ some n
      → answer ≡ some n
  unfolding storage_snapshot
  storage_snapshot-free status none answer n h = cc
  storage_snapshot-free status (some d) none n h = cc
  storage_snapshot-free status (some d) (some m) n h = h

  if-false : (b c : Bool) → (if b then c else false) ≡ true → c ≡ true
  if-false true c h = h
  if-false false c h = cc

  -- Whatever is observed, the admission answers for every observation in order, and each creator that it
  -- calls ready is LIVE, with a free slot and at least the minimum of free bytes, and has the two paths
  -- that the allocator gave for it in the configured directory.
  pub evaluate-IsSound :
      (s : State) (os : List Observation)
      → (seen_of (evaluate sources a s os) ≡ os)
        × All (IsSound s (slot_available (available s)) (free s)) (evaluate sources a s os)
  unfolding evaluate evaluate_with
  evaluate-IsSound s os = (seen_of-evaluate_with s os _ _, by_look (any_live sources a os) _)
    where
      by_look :
          (b looked : Bool)
          → All (IsSound s (slot_available (available s)) (free s)) (
              evaluate_with sources a s os (if b then slot_available (available s) else false) (
                if looked
                then some (storage_snapshot a.storage_status a.output_directory (free s))
                else none))
      by_look b false =
          All-IsSound s (if b then slot_available (available s) else false) _ none _ _
            (if-false b _) (λ n h. cc (h)) (admit_each-IsSound s os _ false none none)
      by_look b true =
          All-IsSound s (if b then slot_available (available s) else false) _
            (storage_snapshot a.storage_status a.output_directory (free s)).free_bytes _ _
            (if-false b _) (storage_snapshot-free a.storage_status a.output_directory (free s))
            (admit_each-IsSound s os _ _ _ _)

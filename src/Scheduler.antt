-- ===== src/Scheduler.antt =====
-- internal/scheduler/event.go and internal/scheduler/scheduler.go: the queue of future events.
-- `F` stands for float64, whose values the queue only carries. Frames, identifiers and sequence
-- numbers are uint64, so that the counters wrap. The mutex makes every method one step.
pub mod Order
pub mod Queue
pub mod Dispatch
pub mod Refinement
pub mod Peek
mod Tests
use Prim.Native.String.{String}
use govertone.Common.{
  ℕ, zero, suc, ◌+◌, ◌%◌, ◌^◌, Bool, true, false, not, ◌&&◌, Option, none, some, List, [], ◌∷◌, ltb,
  leb, ◌==◌, if◌then◌else◌, length,
}
use govertone.Common.Int.{u64_mod, ℤ, pos}
use govertone.Heap

-- `other` stands for the values of EventKind that have no name.
pub data EventKind : Type 0 where
  trigger release set_tempo stop_all set_control start_automation cancel_automation : EventKind
  other : ℕ → EventKind

unfoldable pub kind_string : EventKind → String
kind_string trigger = "trigger"
kind_string release = "release"
kind_string set_tempo = "tempo"
kind_string stop_all = "stop-all"
kind_string set_control = "set-control"
kind_string start_automation = "start-automation"
kind_string cancel_automation = "cancel-automation"
kind_string (other n) = "unknown"

pub record Event (F : Type 0) : Type 0 where
  pub id : ℕ
  pub frame : ℕ
  pub sequence : ℕ
  pub kind : EventKind
  pub instrument : String
  pub voice : ℤ
  pub voice_offset : ℤ
  pub generation : ℕ
  pub note : ℕ
  pub tempo : F
  pub handle_id : ℕ
  pub parameter : String
  pub value : F
  pub reset : Bool
  pub automation_id : ℕ
  pub end_frame : ℕ
  pub start_value : F
  pub end_value : F
  pub curve : String

-- `Event{}`
abbrev pub zero_event : {F : Type 0} → F → Event F
zero_event z = record {
  id = 0;
  frame = 0;
  sequence = 0;
  kind = trigger;
  instrument = "";
  voice = pos 0;
  voice_offset = pos 0;
  generation = 0;
  note = 0;
  tempo = z;
  handle_id = 0;
  parameter = "";
  value = z;
  reset = false;
  automation_id = 0;
  end_frame = 0;
  start_value = z;
  end_value = z;
  curve = "";
}

-- The switch of eventPriority, on the kind and the handle.
priority_of : EventKind → ℕ → ℕ
priority_of release handle = 0
priority_of set_control handle = if handle == 0 then 1 else 3
priority_of trigger handle = 2
priority_of cancel_automation handle = 3
priority_of start_automation handle = 4
priority_of stop_all handle = 5
priority_of set_tempo handle = 2
priority_of (other n) handle = 2

unfoldable pub event_priority : {F : Type 0} → Event F → ℕ
unfolding priority_of
event_priority e = priority_of e.kind e.handle_id

unfoldable pub less : {F : Type 0} → Event F → Event F → Bool
less a b =
    if not (a.frame == b.frame)
    then ltb a.frame b.frame
    else if not (event_priority a == event_priority b)
    then ltb (event_priority a) (event_priority b)
    else ltb a.sequence b.sequence

pub record Scheduler (F : Type 0) : Type 0 where
  pub h : List (Event F)
  pub capacity : ℕ
  pub next_id : ℕ
  pub next_seq : ℕ
  pub max_depth : ℕ
  pub overflows : ℕ

module _ {F : Type 0} where
  root_before : List (Event F) → ℕ → Option (Event F)
  root_before [] end = none
  root_before (e ∷ es) end = if leb end e.frame then none else some e

  unfoldable pub peek_before : Scheduler F → ℕ → Option (Event F)
  unfolding root_before
  peek_before s end = root_before s.h end

  -- The loop of CancelHandle: the events kept, and how many are removed.
  abbrev pub is_cancelled : ℕ → ℕ → Event F → Bool
  is_cancelled handle at e = (e.handle_id == handle) && leb at e.frame

  cancel_loop : ℕ → ℕ → List (Event F) → List (Event F) × ℕ
  cancel_loop handle at [] = ([], 0)
  cancel_loop handle at (e ∷ es) =
      let (kept, removed) = cancel_loop handle at es in
      if is_cancelled handle at e then (kept, removed + 1) else (e ∷ kept, removed)

module _ {F : Type 0} (z : F) where
  -- New; a negative capacity acts as zero does.
  unfoldable pub new : ℕ → Scheduler F
  new capacity = record {
    h = Heap.init (zero_event z) less [];
    capacity = capacity;
    next_id = 0;
    next_seq = 0;
    max_depth = 0;
    overflows = 0;
  }

  -- The part of Add below the check; `none` is the error.
  insert : Scheduler F → Event F → Scheduler F × Option (Event F)
  insert s e =
      let e' = record e { id = (s.next_id + 1) % u64_mod; sequence = (s.next_seq + 1) % u64_mod } in
      let h' = Heap.push (zero_event z) less s.h e' in
      (
        record s {
          h = h';
          next_id = (s.next_id + 1) % u64_mod;
          next_seq = (s.next_seq + 1) % u64_mod;
          max_depth = if ltb s.max_depth (length h') then length h' else s.max_depth;
        },
        some e',
      )

  unfoldable pub add : Scheduler F → Event F → Scheduler F × Option (Event F)
  unfolding insert
  add s e =
      if leb s.capacity (length s.h)
      then (record s { overflows = (s.overflows + 1) % u64_mod }, none)
      else insert s e

  unfoldable pub pop : Scheduler F → Scheduler F × Option (Event F)
  pop s =
      if length s.h == 0
      then (s, none)
      else let (e, rest) = Heap.pop (zero_event z) less s.h in (record s { h = rest }, some e)

  unfoldable pub cancel_handle : Scheduler F → ℕ → ℕ → Scheduler F × ℕ
  unfolding cancel_loop
  cancel_handle s handle at =
      let (kept, removed) = cancel_loop handle at s.h in
      (record s { h = Heap.init (zero_event z) less kept }, removed)

  unfoldable pub cancel_musical : Scheduler F → Scheduler F × ℕ
  cancel_musical s = (record s { h = Heap.init (zero_event z) less [] }, length s.h)

unfoldable pub len : {F : Type 0} → Scheduler F → ℕ
len s = length s.h

unfoldable pub stats : {F : Type 0} → Scheduler F → ℕ × ℕ
stats s = (s.max_depth, s.overflows)

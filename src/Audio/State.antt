-- ===== src/Audio/State.antt =====
-- The state of the engine (internal/audio/engine.go, automation.go, controlled_synth.go). The render
-- mutex makes every method one step; the measured times are left out.
use Prim.Native.String.{String}
use govertone.Common.{
  ℕ, ◌+◌, ◌%◌, Bool, false, List, [], ◌∷◌, ◌++◌, length, ltb, if◌then◌else◌, get_or, set,
}
use govertone.Common.Int.{ℤ, pos, pos_part, ltb_ℤ, u64_mod}
use govertone.Common.Maps.{pair_key, string_key, int_key, nat_key}
use govertone.Scheduler.{Scheduler, Event}
use govertone.Instruments.Voices.{Definition}

-- `controlKey`: the instrument and the parameter.
abbrev pub ControlKey : Type 0
ControlKey = String × String

-- `automationTarget`: the key, and the voice or -1.
abbrev pub Target : Type 0
Target = ControlKey × ℤ

pub record Transform (F : Type 0) : Type 0 where
  pub scale : F
  pub offset : F
  pub clamp : Bool

pub record ControlBinding (F : Type 0) : Type 0 where
  pub instrument : String
  pub parameter : String
  pub operand : ℤ
  pub scope : String
  pub minimum : F
  pub maximum : F
  pub default : F
  pub smoothing : F
  pub transform : Transform F

pub record ControlState (F : Type 0) : Type 0 where
  pub bindings : List (ControlKey × List (ControlBinding F))
  pub explicit : List (ControlKey × F)
  pub voice_value : List (ℤ × List (ControlKey × F))

pub record ValueLane (F : Type 0) : Type 0 where
  pub id : ℕ
  pub target : Target
  pub start_frame : ℕ
  pub end_frame : ℕ
  pub start_value : F
  pub end_value : F
  pub curve : String

pub record AutomationTraceEvent : Type 0 where
  pub id : ℕ
  pub kind : String
  pub target : Target
  pub start_frame : ℕ
  pub end_frame : ℕ
  pub curve : String
  pub frame : ℕ

pub record AutomationState (F : Type 0) : Type 0 where
  pub smoothing : List (Target × ValueLane F)
  pub lanes : List (ℕ × ValueLane F)
  pub authoritative : List (Target × ℕ)
  pub cancelled : List (ℕ × Bool)
  pub trace : List AutomationTraceEvent
  pub high_water : ℕ
  pub cancellations : ℕ

-- `make([]AutomationTraceEvent, 0, 1024)`
abbrev pub automation_trace_cap : ℕ
automation_trace_cap = 1024

abbrev pub new_automation_state : {F : Type 0} → AutomationState F
new_automation_state = record {
  smoothing = [];
  lanes = [];
  authoritative = [];
  cancelled = [];
  trace = [];
  high_water = 0;
  cancellations = 0;
}

pub record TraceEvent (F : Type 0) : Type 0 where
  pub id : ℕ
  pub kind : String
  pub instrument : String
  pub voice : ℤ
  pub note : ℕ
  pub parameter : String
  pub value : F
  pub generation : ℕ
  pub scheduled_frame : ℕ
  pub applied_frame : ℕ

-- `S` stands for the state of the synth. The counter `frame`, which only RenderBlock writes, stands
-- beside the other fields, in Running.
pub record Engine (F S : Type 0) : Type 0 where
  pub synth : S
  pub scheduler : Scheduler F
  pub owners : List ℕ
  pub layout : List (String × Definition)
  pub trace : List (TraceEvent F)
  pub trace_cap : ℕ
  pub late : ℕ
  pub dropped : ℕ
  pub control_applied : ℕ
  pub control_rejected : ℕ
  pub controls : ControlState F
  pub hard_release : List (String × List ℤ)
  pub automation : AutomationState F

pub record Running (F S : Type 0) : Type 0 where
  pub engine : Engine F S
  pub frame : ℕ

-- `counter.Add(1)` on a uint64
abbrev pub bump : ℕ → ℕ
bump n = (n + 1) % u64_mod

-- automationState.record: a full trace forgets the event.
unfoldable pub record_automation :
    {F : Type 0} → AutomationState F → AutomationTraceEvent → AutomationState F
record_automation a entry =
    if ltb (length a.trace) automation_trace_cap
    then record a { trace = a.trace ++ entry ∷ [] }
    else a

module _ {F S : Type 0} where
  abbrev pub drop : Engine F S → Engine F S
  drop e = record e { dropped = bump e.dropped }

  -- recordEvent: a full trace counts the event as dropped.
  unfoldable pub record_event : Engine F S → Event F → ℕ → ℤ → String → Engine F S
  record_event e ev at voice kind =
      let entry : TraceEvent F = record {
        id = ev.id;
        kind = kind;
        instrument = ev.instrument;
        voice = voice;
        note = ev.note;
        parameter = ev.parameter;
        value = ev.value;
        generation = ev.generation;
        scheduled_frame = ev.frame;
        applied_frame = at;
      } in
      if ltb (length e.trace) e.trace_cap
      then record e { trace = e.trace ++ entry ∷ [] }
      else drop e

  abbrev pub has_owner : Engine F S → ℤ → Bool
  has_owner e voice = if ltb_ℤ voice (pos 0) then false else ltb (pos_part voice) (length e.owners)

  -- `e.owners[voice]` of a voice that the array has.
  abbrev pub owner : Engine F S → ℤ → ℕ
  owner e voice = get_or e.owners (pos_part voice) 0

  abbrev pub set_owner : Engine F S → ℤ → ℕ → Engine F S
  set_owner e voice id = record e { owners = set e.owners (pos_part voice) id }

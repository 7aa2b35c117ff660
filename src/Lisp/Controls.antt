-- ===== src/Lisp/Controls.antt =====
-- internal/lisp/control_bindings.go: ctl and reset-control!, for arguments that are converted already.
-- The generation of the engine's patch is an argument.
pub mod Scheduled
mod Tests
use Prim.Native.String.{String}
use govertone.Common.{
  ℕ, leb, Bool, true, false, not, ◌&&◌, ◌||◌, Option, none, some, List, [], ◌∷◌, if◌then◌else◌,
}
use govertone.Common.Float.{Float64}
use govertone.Common.Int.{ℤ, pos, ltb_ℤ}
use govertone.Common.Maps.{lookup, string_key}
use govertone.Common.Result.{Result, ok, err, panic, ◌>>=◌}
use govertone.Common.Text.{str_eq}
use govertone.Clock.Beat.{Beat, Error, sign}
use govertone.Clock.Transport.{frame_at}
use govertone.Instruments.Voices.{Definition, NoteHandle}
use govertone.Instruments.Voices
use govertone.Scheduler.{Scheduler, Event, zero_event, set_control}
use govertone.Scheduler
use govertone.Patch.Model.{SynthParameter}
use govertone.Lisp.Notes.{NoteState, voice_offset, zero}

pub data ControlError : Type 0 where
  stale_target unknown_instrument unknown_control scope_mismatch invalid_value bad_beat :
      ControlError
  out_of_range queue_full : ControlError
  conversion : Error → ControlError

-- A value that stands for a note handle, by its identifier, or for an instrument.
pub data TargetValue : Type 0 where
  note : ℕ → TargetValue
  synth : String → TargetValue

pub record ControlTarget : Type 0 where
  pub instrument : String
  pub handle : Option NoteHandle

pub record CtlOptions : Type 0 where
  pub at : Option Beat
  pub clamp : Bool

-- `instruments.Registry(r.provider)[id]`
unfoldable pub is_known : List Definition → String → Bool
is_known [] id = false
is_known (d ∷ ds) id = let rest = is_known ds id in if str_eq d.id id then true else rest

abbrev pub has_handle : Option NoteHandle → Bool
has_handle none = false
has_handle (some h) = true

-- `uint64(frame) >= target.handle.EndFrame`
abbrev pub ends_by : Option NoteHandle → ℕ → Bool
ends_by none frame = false
ends_by (some h) frame = leb h.end_frame frame

module _ {F : Type 0} where
  unfoldable pub parse_target : NoteState F → TargetValue → Result ControlError ControlTarget
  parse_target s (note id) = elim (Voices.handle s.allocator id s.frame) [
    | none ↦ err stale_target
    | some h ↦ ok (record { instrument = h.instrument; handle = some h })
  ]
  parse_target s (synth id) =
      if is_known s.instruments id
      then ok (record { instrument = id; handle = none })
      else err unknown_instrument

  abbrev pub in_scope :
      Option NoteHandle → SynthParameter F → Result ControlError (SynthParameter F)
  in_scope handle d =
      if not (has_handle handle) && not (str_eq d.scope "instrument")
      then err scope_mismatch
      else if has_handle handle && not (str_eq d.scope "voice")
      then err scope_mismatch
      else ok d

  unfoldable pub control_descriptor :
      NoteState F → ControlTarget → String → Result ControlError (SynthParameter F)
  control_descriptor s target parameter = elim (lookup target.instrument s.controls) [
    | none ↦ err unknown_instrument
    | some declared ↦ elim (lookup parameter declared) [
      | none ↦ err unknown_control
      | some d ↦ in_scope target.handle d
    ]
  ]

module _ (fl : Float64) where
  open fl use {Float, lt, min, max, is_nan, is_inf}

  abbrev pub conversion_or_frame : Result Error ℕ → Result ControlError ℕ
  conversion_or_frame panic = panic
  conversion_or_frame (err why) = err (conversion why)
  conversion_or_frame (ok frame) = ok frame

  unfoldable pub ctl_frame : NoteState Float → Option Beat → Result ControlError ℕ
  ctl_frame s none = ok s.frame
  ctl_frame s (some beat) =
      if ltb_ℤ (sign beat) (pos 0)
      then err bad_beat
      else conversion_or_frame (frame_at fl s.transport beat)

  unfoldable pub checked_value : SynthParameter Float → Bool → Float → Result ControlError Float
  checked_value d clamp value =
      if lt value d.minimum || lt d.maximum value
      then if clamp then ok (min d.maximum (max d.minimum value)) else err out_of_range
      else ok value

  -- What the event has of the target.
  unfoldable pub targeted : List Definition → ℕ → ControlTarget → Event Float → Event Float
  targeted instruments generation target e = elim target.handle [
    | none ↦ record e { instrument = target.instrument; generation = generation }
    | some h ↦ record e {
      instrument = target.instrument;
      voice = h.voice;
      voice_offset = voice_offset instruments h;
      handle_id = h.event_id;
      generation = h.generation;
    }
  ]

  -- ctl up to Add: the event.
  unfoldable pub ctl_event :
      NoteState Float
      → ℕ
      → TargetValue
      → String
      → Float
      → CtlOptions
      → Result ControlError (Event Float)
  ctl_event s generation given parameter value options =
      if is_nan value || is_inf value
      then err invalid_value
      else (ctl_frame s options.at >>= λ frame. parse_target s given >>= λ target.
          control_descriptor s target parameter >>= λ d.
          if ends_by target.handle frame
          then err stale_target
          else (checked_value d options.clamp value >>= λ checked. ok (
              targeted s.instruments generation target (record (zero_event (zero fl)) {
                frame = frame;
                kind = set_control;
                parameter = parameter;
                value = checked;
              }))))

  unfoldable pub reset_event :
      NoteState Float → ℕ → TargetValue → String → Result ControlError (Event Float)
  reset_event s generation given parameter = parse_target s given >>= λ target.
      control_descriptor s target parameter >>= λ d. ok (
        targeted s.instruments generation target (record (zero_event (zero fl)) {
          frame = s.frame;
          kind = set_control;
          parameter = parameter;
          reset = true;
        }))

  -- Add at the end of both functions.
  unfoldable pub add_control :
      NoteState Float
      → Result ControlError (Event Float)
      → NoteState Float × Result ControlError (Event Float)
  add_control s panic = (s, panic)
  add_control s (err why) = (s, err why)
  add_control s (ok e) =
      let added = Scheduler.add (zero fl) s.queue e in
      (record s { queue = added.0 }, elim added.1 [ none ↦ err queue_full | some e' ↦ ok e' ])

  unfoldable pub ctl :
      NoteState Float
      → ℕ
      → TargetValue
      → String
      → Float
      → CtlOptions
      → NoteState Float × Result ControlError (Event Float)
  ctl s generation given parameter value options =
      add_control s (ctl_event s generation given parameter value options)

  unfoldable pub reset_control :
      NoteState Float
      → ℕ
      → TargetValue
      → String
      → NoteState Float × Result ControlError (Event Float)
  reset_control s generation given parameter =
      add_control s (reset_event s generation given parameter)

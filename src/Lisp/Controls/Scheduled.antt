-- ===== src/Lisp/Controls/Scheduled.antt =====
-- What ctl puts into the queue (internal/lisp/control_bindings.go).
use Prim.Native.String.{String}
use govertone.Common.{◌≡◌, false}
use govertone.Common.Float.{Float64}
use govertone.Common.Result.{ok}
use govertone.Scheduler.{Event}
use govertone.Patch.Model.{SynthParameter}
use govertone.Lisp.Notes.{NoteState}
use govertone.Lisp.Controls.{ControlTarget, TargetValue, parse_target, control_descriptor, ends_by}

-- What the built-in min and max of Go do on numbers in a range.
pub record IsClamping (fl : Float64) : Type 0 where
  pub above :
      (lo hi v : fl.Float) → fl.lt hi lo ≡ false → fl.lt (fl.min hi (fl.max lo v)) lo ≡ false
  pub below : (lo hi v : fl.Float) → fl.lt hi (fl.min hi (fl.max lo v)) ≡ false

module _ (fl : Float64) where
  open fl use {Float, lt, min, max, is_nan, is_inf}

  -- An event for a declared control of the target, within its range.
  pub record IsInRange (s : NoteState Float) (given : TargetValue) (parameter : String)
      (e : Event Float) : Type 0 where
    pub target : ControlTarget
    pub aimed : parse_target s given ≡ ok target
    pub declared : SynthParameter Float
    pub described : control_descriptor s target parameter ≡ ok declared
    pub at_least : lt e.value declared.minimum ≡ false
    pub at_most : lt declared.maximum e.value ≡ false
    pub before_end : ends_by target.handle e.frame ≡ false

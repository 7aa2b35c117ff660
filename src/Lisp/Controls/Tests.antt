-- ===== src/Lisp/Controls/Tests.antt =====
-- A control of an instrument, with whole numbers in place of float64.
use govertone.Common.{true, none, [], ◌∷◌}
use govertone.Common.Int.{ℤ, pos}
use govertone.Instruments.Voices.{new_allocator}
use govertone.Scheduler.{Event, zero_event, set_control, new}
use govertone.Heap
use govertone.Patch.Model.{SynthParameter}
use govertone.Lisp.Notes.{NoteState}
use govertone.Lisp.Controls.{ControlTarget, CtlOptions}

abbrev cutoff : SynthParameter ℤ
cutoff = record {
  id = "cutoff";
  default = pos 5;
  minimum = pos 0;
  maximum = pos 10;
  scope = "instrument";
  smoothing = pos 0;
  curve = "linear";
}

abbrev state : NoteState ℤ
state = record {
  frame = 50;
  transport = record {
    first = record {
      frame = 0;
      beat = record { numerator = pos 0; denominator = 1 };
      bpm = pos 60;
    };
    rest = [];
    running = true;
  };
  queue = new (pos 0) 4;
  allocator = new_allocator [];
  instruments = record { id = "lead"; first_voice = pos 0; voices = pos 2 } ∷ [];
  controls = ("lead", ("cutoff", cutoff) ∷ []) ∷ [];
  at_beat = none;
}

abbrev lead : ControlTarget
lead = record { instrument = "lead"; handle = none }

abbrev clamped : CtlOptions
clamped = record { at = none; clamp = true }

-- 12 is clamped to 10.
abbrev event : Event ℤ
event = record (zero_event (pos 0)) {
  frame = 50;
  kind = set_control;
  instrument = "lead";
  generation = 3;
  parameter = "cutoff";
  value = pos 10;
}

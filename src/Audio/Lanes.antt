-- ===== src/Audio/Lanes.antt =====
-- internal/audio/automation.go: the curves, and the value of a lane at a frame.
use Prim.Native.String.{String}
use govertone.Common.{
  ℕ, ◌-◌, Bool, true, false, ◌||◌, Option, none, some, ltb, leb, if◌then◌else◌, length,
}
use govertone.Common.Int.{pos}
use govertone.Common.Float.{Float64}
use govertone.Common.Text.{str_eq}
use govertone.Common.Maps.{delete, pair_key, string_key, int_key, nat_key}
use govertone.Audio.State.{ValueLane, AutomationTraceEvent, AutomationState}

module _ (fl : Float64) where
  open fl use {Float, of_int, add, sub, mul, div, lt, le, min, max, pow}

  abbrev pub clamped : Float → Float
  clamped position = min (of_int (pos 1)) (max (of_int (pos 0)) position)

  abbrev pub interpolate : Float → Float → Float → Float
  interpolate start end s = add start (mul (sub end start) s)

  -- EvaluateAutomationCurve; `none` is an error.
  unfoldable pub evaluate_curve : String → Float → Float → Float → Option Float
  evaluate_curve curve start end at =
      let position = clamped at in
      if str_eq curve "linear"
      then some (interpolate start end position)
      else if str_eq curve "exponential"
      then (if le start (of_int (pos 0)) || le end (of_int (pos 0))
          then none
          else some (mul start (pow (div end start) position)))
      else if str_eq curve "smoothstep"
      then some (
          interpolate start end
            (mul (mul position position) (sub (of_int (pos 3)) (mul (of_int (pos 2)) position))))
      else if str_eq curve "hold"
      then (if lt position (of_int (pos 1)) then some start else some end)
      else none

  -- The blank of `value, _ :=` makes 0 of an error.
  abbrev pub or_zero : Option Float → Float
  or_zero none = of_int (pos 0)
  or_zero (some x) = x

  unfoldable pub lane_value : ValueLane Float → ℕ → Float × Bool
  lane_value lane frame =
      if leb frame lane.start_frame
      then (lane.start_value, false)
      else if leb lane.end_frame frame
      then (lane.end_value, true)
      else (
        or_zero (
            evaluate_curve lane.curve lane.start_value lane.end_value (
              div (of_int (pos (frame - lane.start_frame)))
                (of_int (pos (lane.end_frame - lane.start_frame))))),
        false,
      )

module _ {F : Type 0} where
  abbrev pub is_active : AutomationState F → Bool
  is_active a = ltb 0 (length a.smoothing) || ltb 0 (length a.lanes)

  abbrev pub lane_event : ValueLane F → ℕ → String → ℕ → AutomationTraceEvent
  lane_event lane id kind frame = record {
    id = id;
    kind = kind;
    target = lane.target;
    start_frame = 0;
    end_frame = 0;
    curve = "";
    frame = frame;
  }

  abbrev pub start_event : ValueLane F → AutomationTraceEvent
  start_event lane = record {
    id = lane.id;
    kind = "start";
    target = lane.target;
    start_frame = lane.start_frame;
    end_frame = lane.end_frame;
    curve = lane.curve;
    frame = 0;
  }

  -- A lane leaves the state, and with it the authority of its target.
  abbrev pub retire : AutomationState F → ValueLane F → ℕ → AutomationState F
  retire a lane id = record a {
    lanes = delete id a.lanes;
    authoritative = delete lane.target a.authoritative;
  }

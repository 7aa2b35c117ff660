-- ===== src/Audio/Automation.antt =====
-- internal/audio/automation.go: smoothed controls and automation lanes.

pub mod Queue
use Prim.Native.String.{String}
use govertone.Common.{
  ℕ, zero, suc, ◌+◌, ◌-◌, ◌*◌, ◌%◌, Bool, true, false, not, ◌||◌, Option, none, some, List, [], ◌∷◌,
  ltb, leb, ◌==◌, if◌then◌else◌, length,
}
use govertone.Common.Int.{ℤ, pos, negsuc, ◌+ℤ◌, ltb_ℤ, u64_mod}
use govertone.Common.Float.{Float64}
use govertone.Common.Text.{str_eq}
use govertone.Common.Maps.{lookup, lookup_or, put, delete, pair_key, string_key, int_key, nat_key}
use govertone.Clock.Transport.{sample_rate, to_u64}
use govertone.Scheduler.{Event}
use govertone.Instruments.Voices.{Definition}
use govertone.Audio.Synth.{Synth}
use govertone.Audio.State.{
  ControlKey, Target, ControlBinding, ControlState, Engine, ValueLane, AutomationTraceEvent,
  AutomationState, record_automation, bump,
}
use govertone.Audio.Controls.{
  ControlError, Outcome, bindings_of, voice_values, set_instrument_control_locked,
  set_voice_control_locked, reset_instrument_control_locked, reset_voice_control_locked,
  unknown_control,
}
use govertone.Audio.Lanes.{
  clamped, interpolate, evaluate_curve, or_zero, lane_value, is_active, lane_event, start_event,
  retire,
}

abbrev pub max_active_automation : ℕ
max_active_automation = 4096

module _ (fl : Float64) (sy : Synth fl.Float) where
  open fl use {Float, of_int, mul, round, to_int}
  open sy use {State}

  -- `int(definition.FirstVoice) + event.VoiceOffset` for the layout's instruments
  unfoldable pub automation_target_for : Engine Float State → Event Float → Target
  automation_target_for e ev =
      let voice : ℤ = elim (lookup ev.instrument e.layout) [
        | none ↦ ev.voice
        | some d ↦ d.first_voice +ℤ ev.voice_offset
      ] in
      ((ev.instrument, ev.parameter), (if ev.handle_id == 0 then negsuc 0 else voice))

  unfoldable pub set_target_value : Engine Float State → Target → Float → Engine Float State
  set_target_value e target value =
      if ltb_ℤ target.1 (pos 0)
      then (set_instrument_control_locked fl sy e target.0 value).0
      else (set_voice_control_locked fl sy e target.1 target.0 value).0

  -- The value that a smoothed change starts from.
  unfoldable pub current_value : Engine Float State → Target → ControlBinding Float → Float
  current_value e target b =
      if ltb_ℤ target.1 (pos 0)
      then lookup_or b.default target.0 e.controls.explicit
      else lookup_or b.default target.0 (voice_values fl sy e target.1)

  abbrev pub with_smoothing :
      Engine Float State → List (Target × ValueLane Float) → Engine Float State
  with_smoothing e smoothing = record e {
    automation = record e.automation { smoothing = smoothing };
  }

  -- The branch of applyScheduledControl that takes effect at once.
  unfoldable pub apply_now : Engine Float State → Event Float → ℤ → Target → Outcome fl sy
  apply_now e ev voice target =
      let cleared = with_smoothing e (delete target e.automation.smoothing) in
      if ltb_ℤ target.1 (pos 0)
      then (if ev.reset
          then reset_instrument_control_locked fl sy cleared target.0
          else set_instrument_control_locked fl sy cleared target.0 ev.value)
      else if ev.reset
      then reset_voice_control_locked fl sy cleared voice target.0
      else set_voice_control_locked fl sy cleared voice target.0 ev.value

  abbrev pub smoothing_frames : ControlBinding Float → ℕ
  smoothing_frames b = to_u64 (to_int (round (mul b.smoothing (of_int (pos sample_rate)))))

  unfoldable pub apply_scheduled_control : Engine Float State → Event Float → ℕ → ℤ → Outcome fl sy
  apply_scheduled_control e ev at voice =
      let target = automation_target_for e ev in
      elim (bindings_of fl sy e target.0) [
        | [] ↦ (e, some unknown_control)
        | b ∷ bs ↦
            let lane : ValueLane Float = record {
              id = 0;
              target = target;
              start_frame = at;
              end_frame = (at + smoothing_frames b) % u64_mod;
              start_value = current_value e target b;
              end_value = ev.value;
              curve = "linear";
            } in
            if ev.reset || smoothing_frames b == 0
            then apply_now e ev voice target
            else (with_smoothing e (put target lane e.automation.smoothing), none)
      ]

  abbrev pub with_automation : Engine Float State → AutomationState Float → Engine Float State
  with_automation e a = record e { automation = a }

  -- The lane that had the target's authority gives way.
  unfoldable pub replace_lane : AutomationState Float → ValueLane Float → AutomationState Float
  replace_lane a lane = elim (lookup lane.target a.authoritative) [
    | none ↦ a
    | some old ↦
        record_automation (record a { lanes = delete old a.lanes })
          (lane_event lane old "replaced" lane.start_frame)
  ]

  unfoldable pub start_lane : AutomationState Float → ValueLane Float → AutomationState Float
  start_lane a lane =
      let b = replace_lane a lane in
      let lanes = put lane.id lane b.lanes in
      record_automation
        (record b {
          lanes = lanes;
          authoritative = put lane.target lane.id b.authoritative;
          high_water = if ltb b.high_water (length lanes) then length lanes else b.high_water;
        })
        (start_event lane)

  abbrev pub lane_for : Event Float → Target → ℕ → ValueLane Float
  lane_for ev target at = record {
    id = if ev.automation_id == 0 then ev.id else ev.automation_id;
    target = target;
    start_frame = at;
    end_frame = ev.end_frame;
    start_value = ev.start_value;
    end_value = ev.end_value;
    curve = ev.curve;
  }

  -- The state after the call, and whether it returned no error.
  unfoldable pub start_automation_event :
      Engine Float State → Event Float → ℕ → Engine Float State × Bool
  start_automation_event e ev at =
      let a = e.automation in
      let target = automation_target_for e ev in
      let lane = lane_for ev target at in
      if leb max_active_automation (length a.lanes)
      then (e, false)
      else if length (bindings_of fl sy e target.0) == 0
      then (e, false)
      else if lookup_or false lane.id a.cancelled
      then (
        with_automation e (
            record_automation (record a { cancelled = delete lane.id a.cancelled })
              (lane_event lane lane.id "cancelled-before-start" at)),
        true,
      )
      else (with_automation e (start_lane a lane), true)

  -- The lane's value at the frame is kept before it loses its authority.
  unfoldable pub stop_lane : Engine Float State → ValueLane Float → ℕ → ℕ → Engine Float State
  stop_lane e lane id at =
      let kept = set_target_value e lane.target (lane_value fl lane at).0 in
      let a = retire kept.automation lane id in
      with_automation kept (
        record_automation (record a { cancellations = bump a.cancellations })
          (lane_event lane id "cancel" at))

  unfoldable pub cancel_automation_event : Engine Float State → ℕ → ℕ → Engine Float State × Bool
  cancel_automation_event e id at =
      let a = e.automation in
      elim (lookup id a.lanes) [
        | some lane ↦ (stop_lane e lane id at, true)
        | none ↦ if leb max_active_automation (length a.cancelled) then (e, false) else (
          with_automation e (record a {
            cancelled = put id true a.cancelled;
            cancellations = bump a.cancellations;
          }),
          true,
        )
      ]

  -- The first loop of advanceControls: the smoothed values, but for automated targets.
  unfoldable pub advance_smoothing :
      Engine Float State → ℕ → List (Target × ValueLane Float) → Engine Float State
  advance_smoothing e frame [] = e
  advance_smoothing e frame (entry ∷ entries) =
      let target = entry.0 in
      let value = lane_value fl entry.1 frame in
      let moved = set_target_value e target value.0 in
      let finished = with_smoothing moved (delete target moved.automation.smoothing) in
      let skipped = advance_smoothing e frame entries in
      let after = advance_smoothing moved frame entries in
      let after_last = advance_smoothing finished frame entries in
      elim (lookup target e.automation.authoritative) [
        | some id ↦ skipped
        | none ↦ if value.1 then after_last else after
      ]

  -- The second loop, over the identifiers in ascending order.
  unfoldable pub advance_lanes :
      Engine Float State → ℕ → List (ℕ × ValueLane Float) → Engine Float State
  advance_lanes e frame [] = e
  advance_lanes e frame (entry ∷ entries) =
      let lane = entry.1 in
      let value = lane_value fl lane frame in
      let moved = set_target_value e lane.target value.0 in
      let finished = with_automation moved (
        record_automation (retire moved.automation lane entry.0)
          (lane_event lane entry.0 "complete" frame)) in
      let after = advance_lanes moved frame entries in
      let after_last = advance_lanes finished frame entries in if value.1 then after_last else after

  -- `sort.Slice` on the identifiers, which are distinct.
  unfoldable pub insert_lane :
      ℕ × ValueLane Float → List (ℕ × ValueLane Float) → List (ℕ × ValueLane Float)
  insert_lane x [] = x ∷ []
  insert_lane x (y ∷ ys) =
      let rest = insert_lane x ys in if ltb y.0 x.0 then y ∷ rest else x ∷ y ∷ ys

  unfoldable pub sort_lanes : List (ℕ × ValueLane Float) → List (ℕ × ValueLane Float)
  sort_lanes [] = []
  sort_lanes (x ∷ xs) = insert_lane x (sort_lanes xs)

  unfoldable pub advance_controls : Engine Float State → ℕ → Engine Float State
  advance_controls e frame =
      let smoothed = advance_smoothing e frame e.automation.smoothing in
      advance_lanes smoothed frame (sort_lanes smoothed.automation.lanes)

-- ===== src/Audio/Automation/Queue.antt =====
-- No control and no lane changes the queue of events (internal/audio/automation.go,
-- controlled_synth.go).
use govertone.Common.{
  ℕ, ◌≡◌, refl, ◌∙◌, inl, inr, Bool-cases, Option, none, some, Option-cases, List, [], ◌∷◌, arith,
}
use govertone.Common.Int.{ℤ}
use govertone.Common.Float.{Float64}
use govertone.Common.Maps.{lookup, delete, pair_key, string_key, int_key, nat_key}
use govertone.Scheduler.{Event}
use govertone.Audio.Synth.{Synth}
use govertone.Audio.State.{
  record_automation, Engine, ControlKey, ControlBinding, ControlState, Target, ValueLane,
}
use govertone.Audio.Controls.{
  ControlError, Outcome, settle, checked, set_instrument_control_locked, set_voice_control_locked,
  reset_instrument_control_locked, reset_voice_control_locked,
}
use govertone.Audio.Lanes.{retire, lane_event, lane_value}
use govertone.Audio.Automation.{
  with_smoothing, with_automation, automation_target_for, set_target_value, apply_now,
  apply_scheduled_control, start_automation_event, stop_lane, cancel_automation_event,
  advance_smoothing, advance_lanes, advance_controls,
}

module _ (fl : Float64) (sy : Synth fl.Float) where
  open fl use {Float}
  open sy use {State}

  settle-scheduler :
      (e : Engine Float State) (w : State × Option ControlError) (c : ControlState Float)
      → (settle fl sy e w c).0.scheduler ≡ e.scheduler
  unfolding settle
  settle-scheduler e (s, some why) c = refl
  settle-scheduler e (s, none) c = refl

  checked-scheduler :
      (e : Engine Float State) (bs : List (ControlBinding Float)) (out : Outcome fl sy)
      → out.0.scheduler ≡ e.scheduler
      → (checked fl sy e bs out).0.scheduler ≡ e.scheduler
  unfolding checked
  checked-scheduler e [] out h = refl
  checked-scheduler e (b ∷ bs) out h = ground arith

  set_instrument-scheduler :
      (e : Engine Float State) (key : ControlKey) (value : Float)
      → (set_instrument_control_locked fl sy e key value).0.scheduler ≡ e.scheduler
  unfolding set_instrument_control_locked
  set_instrument-scheduler e key value = checked-scheduler e _ _ (settle-scheduler e _ _)

  set_voice-scheduler :
      (e : Engine Float State) (voice : ℤ) (key : ControlKey) (value : Float)
      → (set_voice_control_locked fl sy e voice key value).0.scheduler ≡ e.scheduler
  unfolding set_voice_control_locked
  set_voice-scheduler e voice key value = checked-scheduler e _ _ (settle-scheduler e _ _)

  reset_instrument-scheduler :
      (e : Engine Float State) (key : ControlKey)
      → (reset_instrument_control_locked fl sy e key).0.scheduler ≡ e.scheduler
  unfolding reset_instrument_control_locked
  reset_instrument-scheduler e key = checked-scheduler e _ _ (settle-scheduler e _ _)

  reset_voice-scheduler :
      (e : Engine Float State) (voice : ℤ) (key : ControlKey)
      → (reset_voice_control_locked fl sy e voice key).0.scheduler ≡ e.scheduler
  unfolding reset_voice_control_locked
  reset_voice-scheduler e voice key = checked-scheduler e _ _ (settle-scheduler e _ _)

  set_target-scheduler :
      (e : Engine Float State) (target : Target) (value : Float)
      → (set_target_value fl sy e target value).scheduler ≡ e.scheduler
  unfolding set_target_value
  set_target-scheduler e target value = ground (
    arith,
    set_instrument-scheduler e target.0 value,
    set_voice-scheduler e target.1 target.0 value,
  )

  apply_now-scheduler :
      (e : Engine Float State) (ev : Event Float) (voice : ℤ) (target : Target)
      → (apply_now fl sy e ev voice target).0.scheduler ≡ e.scheduler
  unfolding apply_now
  apply_now-scheduler e ev voice target =
      let cleared = with_smoothing fl sy e (delete target e.automation.smoothing) in
      ground (
        arith,
        reset_instrument-scheduler cleared target.0,
        set_instrument-scheduler cleared target.0 ev.value,
        reset_voice-scheduler cleared voice target.0,
        set_voice-scheduler cleared voice target.0 ev.value,
      )

  pub apply_scheduled-scheduler :
      (e : Engine Float State) (ev : Event Float) (at : ℕ) (voice : ℤ)
      → (apply_scheduled_control fl sy e ev at voice).0.scheduler ≡ e.scheduler
  unfolding apply_scheduled_control
  apply_scheduled-scheduler e ev at voice =
      let target = automation_target_for fl sy e ev in
      ground (arith, apply_now-scheduler e ev voice target)

  pub start_automation-scheduler :
      (e : Engine Float State) (ev : Event Float) (at : ℕ)
      → (start_automation_event fl sy e ev at).0.scheduler ≡ e.scheduler
  unfolding start_automation_event
  start_automation-scheduler e ev at = ground arith

  stop_lane-scheduler :
      (e : Engine Float State) (lane : ValueLane Float) (id at : ℕ)
      → (stop_lane fl sy e lane id at).scheduler ≡ e.scheduler
  unfolding stop_lane
  stop_lane-scheduler e lane id at = set_target-scheduler e lane.target (lane_value fl lane at).0

  pub cancel_automation-scheduler :
      (e : Engine Float State) (id at : ℕ)
      → (cancel_automation_event fl sy e id at).0.scheduler ≡ e.scheduler
  unfolding cancel_automation_event
  cancel_automation-scheduler e id at = elim (Option-cases (lookup id e.automation.lanes)) [
    | inl z ↦ rw (cancel_automation_event, z) (ground arith)
    | inr (lane, found) ↦ rw (cancel_automation_event, found) (stop_lane-scheduler e lane id at)
  ]

  advance_smoothing-scheduler :
      (entries : List (Target × ValueLane Float)) (e : Engine Float State) (frame : ℕ)
      → (advance_smoothing fl sy e frame entries).scheduler ≡ e.scheduler
  unfolding advance_smoothing
  advance_smoothing-scheduler [] e frame = refl
  advance_smoothing-scheduler (entry ∷ entries) e frame =
      let value = lane_value fl entry.1 frame in
      let moved = set_target_value fl sy e entry.0 value.0 in
      let kept = set_target-scheduler e entry.0 value.0 in
      elim (Option-cases (lookup entry.0 e.automation.authoritative)) [
        | inr (id, found) ↦
            rw (advance_smoothing, found) (advance_smoothing-scheduler entries e frame)
        | inl z ↦ elim (Bool-cases value.1) [
          | inl last ↦
              rw (advance_smoothing, z, last)
                (advance_smoothing-scheduler entries
                    (with_smoothing fl sy moved (delete entry.0 moved.automation.smoothing)) frame
                  ∙ kept)
          | inr more ↦
              rw (advance_smoothing, z, more)
                (advance_smoothing-scheduler entries moved frame ∙ kept)
        ]
      ]

  advance_lanes-scheduler :
      (entries : List (ℕ × ValueLane Float)) (e : Engine Float State) (frame : ℕ)
      → (advance_lanes fl sy e frame entries).scheduler ≡ e.scheduler
  unfolding advance_lanes
  advance_lanes-scheduler [] e frame = refl
  advance_lanes-scheduler (entry ∷ entries) e frame =
      let lane = entry.1 in
      let value = lane_value fl lane frame in
      let moved = set_target_value fl sy e lane.target value.0 in
      let kept = set_target-scheduler e lane.target value.0 in
      let finished = with_automation fl sy moved (
        record_automation (retire moved.automation lane entry.0)
          (lane_event lane entry.0 "complete" frame)) in
      elim (Bool-cases value.1) [
        | inl last ↦ rw last (advance_lanes-scheduler entries finished frame ∙ kept)
        | inr more ↦ rw more (advance_lanes-scheduler entries moved frame ∙ kept)
      ]

  pub advance_controls-scheduler :
      (e : Engine Float State) (frame : ℕ)
      → (advance_controls fl sy e frame).scheduler ≡ e.scheduler
  unfolding advance_controls
  advance_controls-scheduler e frame =
      advance_lanes-scheduler _ _ frame ∙ advance_smoothing-scheduler e.automation.smoothing e frame

-- ===== src/Audio/Engine.antt =====
-- internal/audio/engine.go: what an event does, and the rendering of a block.
pub mod Queue
use Prim.Native.String.{String, ◌++◌ as join}
use govertone.Common.{
  ℕ, zero, suc, ◌+◌, ◌-◌, ◌%◌, Bool, true, false, not, ◌||◌, ◌&&◌, Option, none, some, List, [],
  ◌∷◌, ◌++◌, ltb, leb, ◌==◌, if◌then◌else◌, length,
}
use govertone.Common.Int.{ℤ, pos, ◌+ℤ◌, ltb_ℤ, u64_mod}
use govertone.Common.Float.{Float64}
use govertone.Common.Maps.{lookup, lookup_or, put, delete, string_key, int_key}
use govertone.Common.Result.{Result, ok, err, panic, ◌>>=◌}
use govertone.Scheduler.{
  Event, EventKind, trigger, release, set_tempo, stop_all, set_control, start_automation,
  cancel_automation, other, kind_string, Scheduler, peek_before, pop,
}
use govertone.Instruments.Voices.{Definition}
use govertone.Audio.Synth.{Synth}
use govertone.Audio.State.{
  Engine, ControlState, TraceEvent, bump, drop, record_event, has_owner, owner, set_owner,
}
use govertone.Audio.Controls.{release_voice, instrument_at_voice, with_synth}
use govertone.Audio.Lanes.{is_active}
use govertone.Audio.Automation.{
  apply_scheduled_control, start_automation_event, cancel_automation_event, advance_controls,
}

-- The errors of render, and those of RenderOffline.
pub data RenderError : Type 0 where
  render_failed no_progress negative_length block_not_positive : RenderError

module _ (fl : Float64) (sy : Synth fl.Float) where
  open fl use {Float, of_int}
  open sy use {State, Sample, render, clear_voice_controls, controlled}

  abbrev pub Eng : Type 0
  Eng = Engine Float State

  abbrev pub forget_voice_values : Eng → ℤ → Eng
  forget_voice_values e voice = record e {
    synth = clear_voice_controls e.synth voice;
    controls = record e.controls { voice_value = delete voice e.controls.voice_value };
  }

  -- A note is a MIDI note in a byte, and the synth counts an octave higher.
  abbrev pub play : Eng → Event Float → ℤ → Eng
  play e ev voice =
      let cleared = if controlled then forget_voice_values e voice else e in
      set_owner (with_synth fl sy cleared (sy.trigger cleared.synth voice ((ev.note + 12) % 256)))
        voice ev.handle_id

  abbrev pub let_go : Eng → Event Float → ℤ → Eng
  let_go e ev voice =
      if owner e voice == ev.handle_id
      then set_owner (release_voice fl sy e voice ev.instrument) voice 0
      else e

  abbrev pub reject_control : Eng → Eng
  reject_control e = record (drop e) { control_rejected = bump e.control_rejected }

  -- `ev.HandleID != 0 && e.owners[voice] != ev.HandleID`
  abbrev pub is_stale : Eng → Event Float → ℤ → Bool
  is_stale e ev voice = not (ev.handle_id == 0) && not (owner e voice == ev.handle_id)

  unfoldable pub change_control : Eng → Event Float → ℕ → ℤ → Eng
  change_control e ev at voice =
      let out = apply_scheduled_control fl sy e ev at voice in
      if is_stale e ev voice
      then record_event (reject_control e) ev at voice "set-control-stale"
      else elim out.1 [
        | some error ↦ record_event (reject_control out.0) ev at voice "set-control-failed"
        | none ↦
            record_event (record out.0 { control_applied = bump out.0.control_applied }) ev at voice
              (kind_string ev.kind)
      ]

  unfoldable pub begin_automation : Eng → Event Float → ℕ → ℤ → Eng
  begin_automation e ev at voice =
      let out = start_automation_event fl sy e ev at in
      if is_stale e ev voice
      then record_event (drop e) ev at voice "start-automation-stale"
      else if out.1
      then record_event out.0 ev at voice (kind_string ev.kind)
      else record_event (drop out.0) ev at voice "start-automation-failed"

  unfoldable pub end_automation : Eng → Event Float → ℕ → ℤ → Eng
  end_automation e ev at voice =
      let out = cancel_automation_event fl sy e ev.automation_id at in
      if out.1
      then record_event out.0 ev at voice (kind_string ev.kind)
      else record_event out.0 ev at voice "cancel-automation-inactive"

  -- The loop of a stop over the owners, from a voice on.
  unfoldable pub stop_voices : Eng → List ℕ → ℕ → Eng
  stop_voices e [] index = e
  stop_voices e (id ∷ ids) index =
      let voice = pos index in
      let released =
        set_owner (release_voice fl sy e voice (instrument_at_voice fl sy e.layout voice)) voice
          0 in
      let stopped = stop_voices released ids (suc index) in
      let kept = stop_voices e ids (suc index) in if id == 0 then kept else stopped

  -- Whether the event's voice is found through the layout.
  abbrev pub is_located : Event Float → Bool
  is_located ev = elim ev.kind [
    | trigger ↦ true
    | release ↦ true
    | set_control ↦ not (ev.handle_id == 0)
    | start_automation ↦ not (ev.handle_id == 0)
    | _ ↦ false
  ]

  -- The switch of apply, once the voice is known.
  abbrev pub dispatch_kind : Eng → Event Float → ℕ → ℤ → EventKind → Eng
  dispatch_kind e ev at voice kind = elim kind [
    | trigger ↦ record_event (play e ev voice) ev at voice (kind_string ev.kind)
    | release ↦ record_event (let_go e ev voice) ev at voice (kind_string ev.kind)
    | set_control ↦ change_control e ev at voice
    | start_automation ↦ begin_automation e ev at voice
    | cancel_automation ↦ end_automation e ev at voice
    | stop_all ↦ record_event (stop_voices e e.owners 0) ev at voice (kind_string ev.kind)
    | set_tempo ↦ record_event e ev at voice (kind_string ev.kind)
    | other n ↦ record_event e ev at voice (kind_string ev.kind)
  ]

  unfoldable pub dispatch : Eng → Event Float → ℕ → ℤ → Eng
  dispatch e ev at voice = dispatch_kind e ev at voice ev.kind

  abbrev pub misplaced : Eng → Event Float → ℕ → Eng
  misplaced e ev at = record_event (drop e) ev at ev.voice (join (kind_string ev.kind) "-failed")

  -- The offset is one of the definition's voices.
  abbrev pub has_offset : Definition → ℤ → Bool
  has_offset d offset = if ltb_ℤ offset (pos 0) then false else ltb_ℤ offset d.voices

  -- An index outside the owners panics.
  abbrev pub dispatch_owned : Eng → Event Float → ℕ → ℤ → Result RenderError Eng
  dispatch_owned e ev at voice = if has_owner e voice then ok (dispatch e ev at voice) else panic

  unfoldable pub apply : Eng → Event Float → ℕ → Result RenderError Eng
  apply e ev at = elim (lookup ev.instrument e.layout) [
    | none ↦ if is_located ev then ok (misplaced e ev at) else ok (dispatch e ev at ev.voice)
    | some d ↦
        if not (is_located ev)
        then ok (dispatch e ev at ev.voice)
        else if has_offset d ev.voice_offset
        then dispatch_owned e ev at (d.first_voice +ℤ ev.voice_offset)
        else ok (misplaced e ev at)
  ]

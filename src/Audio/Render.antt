-- ===== src/Audio/Render.antt =====
-- internal/audio/engine.go: the rendering of a block, which splits at every event. A run ends at an
-- error or a panic; what is left of the block then is not modelled. The frame counter is taken not to
-- reach 2^64 (over thirteen million years), so that the frames left after the last event are those up
-- to the end.
pub mod Before
pub mod Frames
pub mod Taking
pub mod Events
pub mod Blocks
use govertone.Common.{
  ℕ, zero, suc, ◌+◌, ◌-◌, ◌%◌, Bool, true, false, Option, none, some, List, [], ◌∷◌, ◌++◌, ltb, leb,
  ◌==◌, if◌then◌else◌, length,
}
use govertone.Common.Int.{ℤ, pos, u64_mod}
use govertone.Common.Float.{Float64}
use govertone.Common.Result.{Result, ok, err, panic, ◌>>=◌}
use govertone.Scheduler.{Event, Scheduler, zero_event, peek_before, pop}
use govertone.Audio.Synth.{Synth}
use govertone.Audio.State.{Engine, Running, bump}
use govertone.Audio.Controls.{with_synth}
use govertone.Audio.Lanes.{is_active}
use govertone.Audio.Automation.{advance_controls}
use govertone.Audio.Engine.{Eng, RenderError, render_failed, no_progress, apply}

module _ (fl : Float64) (sy : Synth fl.Float) where
  open fl use {Float, of_int}
  open sy use {State, Sample}

  -- The engine and the frames written so far.
  abbrev pub Played : Type 0
  Played = Eng fl sy × List Sample

  abbrev pub before : List Sample → Played → Result RenderError Played
  before made out = ok (out.0, made ++ out.1)

  -- A call for one frame, and the rest of the span.
  abbrev pub one_made : Option (List Sample) → Result RenderError Played → Result RenderError Played
  one_made none rest = err render_failed
  one_made (some made) rest = if length made == 1 then (rest >>= before made) else err no_progress

  -- The loop of render while automation is active: the controls move before every frame.
  unfoldable pub render_each : ℕ → Eng fl sy → ℕ → Result RenderError Played
  render_each zero e start = ok (e, [])
  render_each (suc n) e start =
      let moved = advance_controls fl sy e start in
      let out = sy.render moved.synth 1 in
      one_made out.1 (render_each n (with_synth fl sy moved out.0) ((start + 1) % u64_mod))

  -- The other loop of render. Every round makes a frame, so that as many rounds as frames are enough.
  unfoldable pub render_all : ℕ → State → ℕ → Result RenderError (State × List Sample)
  render_all zero s n = ok (s, [])
  render_all (suc k) s n =
      let out = sy.render s n in
      elim out.1 [
        | none ↦ if n == 0 then ok (s, []) else err render_failed
        | some made ↦
            let rest = render_all k out.0 (n - length made) in
            if n == 0
            then ok (s, [])
            else if length made == 0
            then err no_progress
            else if ltb n (length made)
            then panic
            else (rest >>= λ r. ok (r.0, made ++ r.1))
      ]

  unfoldable pub render : Eng fl sy → ℕ → ℕ → Result RenderError Played
  render e start n =
      if is_active e.automation
      then render_each n e start
      else (render_all n e.synth n >>= λ r. ok (with_synth fl sy e r.0, r.1))

  -- The event that Pop hands out, and the engine without it.
  abbrev pub popped : Eng fl sy → Event Float
  popped e = elim (pop (of_int (pos 0)) e.scheduler).1 [
    | some ev ↦ ev
    | none ↦ zero_event (of_int (pos 0))
  ]

  abbrev pub unqueued : Eng fl sy → Eng fl sy
  unqueued e = record e { scheduler = (pop (of_int (pos 0)) e.scheduler).0 }

  abbrev pub take_next : Eng fl sy → ℕ → Result RenderError (Eng fl sy)
  take_next e at = apply fl sy (unqueued e) (popped e) at

  -- The inner loop: every event of the frame.
  unfoldable pub apply_due : ℕ → Eng fl sy → ℕ → Result RenderError (Eng fl sy)
  apply_due zero e cursor = ok e
  apply_due (suc k) e cursor = elim (peek_before e.scheduler ((cursor + 1) % u64_mod)) [
    | none ↦ ok e
    | some next ↦
        let rest = take_next e cursor >>= λ f. apply_due k f cursor in
        if next.frame == cursor then rest else ok e
  ]

  abbrev pub queued : Eng fl sy → ℕ
  queued e = length e.scheduler.h

  -- The frames up to an event, if it is not due yet.
  abbrev pub render_to : Eng fl sy → ℕ → ℕ → Result RenderError Played
  render_to e cursor frame =
      if ltb cursor frame then render e cursor (frame - cursor) else ok (e, [])

  -- The outer loop, and the frames that are left after it. Every round takes an event, so that as
  -- many rounds as events are enough.
  unfoldable pub render_events : ℕ → Eng fl sy → ℕ → ℕ → Result RenderError Played
  render_events zero e cursor end = render_to e cursor end
  render_events (suc k) e cursor end = elim (peek_before e.scheduler end) [
    | none ↦ render_to e cursor end
    | some ev ↦
        let after_late = take_next (record e { late = bump e.late }) cursor >>= λ f.
        render_events k f cursor end in
        let on_time = render_to e cursor ev.frame >>= λ r.
        (apply_due (queued r.0) r.0 ev.frame >>= λ f.
        (render_events k f ev.frame end >>= before r.1)) in
        if ltb ev.frame cursor then after_late else on_time
  ]

  abbrev pub Run : Type 0
  Run = Running Float State

  -- RenderBlock, for a buffer of `n` frames: the engine after it, and what is in the buffer.
  unfoldable pub render_block : Run → ℕ → Result RenderError (Run × List Sample)
  render_block e n =
      let end = (e.frame + n) % u64_mod in
      render_events (queued e.engine) e.engine e.frame end >>= λ r.
      ok (record { engine = r.0; frame = end }, r.1)

  -- The frames of a block stand before those of the next.
  abbrev pub prepend : List Sample → Run × List Sample → Result RenderError (Run × List Sample)
  prepend made q = ok (q.0, made ++ q.1)

-- ===== src/Audio/Engine/Queue.antt =====
-- What an event does leaves the queue: only the rendering of a block takes events from it
-- (internal/audio/engine.go).
use Prim.Native.String.{String}
use govertone.Common.{
  ℕ, suc, ◌≡◌, refl, ◌∙◌, inl, inr, Bool-cases, Option-cases, List, [], ◌∷◌, arith,
}
use govertone.Common.Int.{ℤ, pos, ◌+ℤ◌}
use govertone.Common.Float.{Float64}
use govertone.Common.Maps.{lookup, pair_key, string_key, int_key, nat_key}
use govertone.Common.Result.{Result, ok, panic}
use govertone.Scheduler.{
  Event, EventKind, trigger, release, set_tempo, stop_all, set_control, start_automation,
  cancel_automation, other, kind_string,
}
use govertone.Audio.Synth.{Synth}
use govertone.Audio.State.{has_owner, set_owner, record_event, drop}
use govertone.Audio.Controls.{release_voice, instrument_at_voice}
use govertone.Audio.Automation.Queue.{
  apply_scheduled-scheduler, start_automation-scheduler, cancel_automation-scheduler,
}
use govertone.Audio.Engine.{
  misplaced, has_offset, is_located, Eng, RenderError, change_control, begin_automation,
  end_automation, stop_voices, dispatch, dispatch_kind, apply, play, let_go,
}

module _ (fl : Float64) (sy : Synth fl.Float) where
  open fl use {Float}
  open sy use {State}

  release_voice-scheduler :
      (e : Eng fl sy) (voice : ℤ) (instrument : String)
      → (release_voice fl sy e voice instrument).scheduler ≡ e.scheduler
  unfolding release_voice
  release_voice-scheduler e voice instrument = ground arith

  record_event-scheduler :
      (e : Eng fl sy) (ev : Event Float) (at : ℕ) (voice : ℤ) (kind : String)
      → (record_event e ev at voice kind).scheduler ≡ e.scheduler
  unfolding record_event
  record_event-scheduler e ev at voice kind = ground arith

  play-scheduler :
      (e : Eng fl sy) (ev : Event Float) (voice : ℤ)
      → (play fl sy e ev voice).scheduler ≡ e.scheduler
  play-scheduler e ev voice = ground arith

  let_go-scheduler :
      (e : Eng fl sy) (ev : Event Float) (voice : ℤ)
      → (let_go fl sy e ev voice).scheduler ≡ e.scheduler
  let_go-scheduler e ev voice = ground (arith, release_voice-scheduler e voice ev.instrument)

  pub stop_voices-scheduler :
      (ids : List ℕ) (e : Eng fl sy) (index : ℕ)
      → (stop_voices fl sy e ids index).scheduler ≡ e.scheduler
  unfolding stop_voices
  stop_voices-scheduler [] e index = refl
  stop_voices-scheduler (id ∷ ids) e index =
      let instrument = instrument_at_voice fl sy e.layout (pos index) in
      let released = set_owner (release_voice fl sy e (pos index) instrument) (pos index) 0 in
      ground (
        arith,
        stop_voices-scheduler ids released (suc index),
        stop_voices-scheduler ids e (suc index),
        release_voice-scheduler e (pos index) instrument,
      )

  change_control-scheduler :
      (e : Eng fl sy) (ev : Event Float) (at : ℕ) (voice : ℤ)
      → (change_control fl sy e ev at voice).scheduler ≡ e.scheduler
  unfolding change_control record_event
  change_control-scheduler e ev at voice =
      ground (arith, apply_scheduled-scheduler fl sy e ev at voice)

  begin_automation-scheduler :
      (e : Eng fl sy) (ev : Event Float) (at : ℕ) (voice : ℤ)
      → (begin_automation fl sy e ev at voice).scheduler ≡ e.scheduler
  unfolding begin_automation record_event
  begin_automation-scheduler e ev at voice =
      ground (arith, start_automation-scheduler fl sy e ev at)

  end_automation-scheduler :
      (e : Eng fl sy) (ev : Event Float) (at : ℕ) (voice : ℤ)
      → (end_automation fl sy e ev at voice).scheduler ≡ e.scheduler
  unfolding end_automation record_event
  end_automation-scheduler e ev at voice =
      ground (arith, cancel_automation-scheduler fl sy e ev.automation_id at)

  dispatch-scheduler :
      (e : Eng fl sy) (ev : Event Float) (at : ℕ) (voice : ℤ)
      → (dispatch fl sy e ev at voice).scheduler ≡ e.scheduler
  unfolding dispatch
  dispatch-scheduler e ev at voice = go ev.kind
    where
      recorded :
          (f : Eng fl sy)
          → f.scheduler ≡ e.scheduler
          → (record_event f ev at voice (kind_string ev.kind)).scheduler ≡ e.scheduler
      recorded f h = record_event-scheduler f ev at voice (kind_string ev.kind) ∙ h

      go : (kind : EventKind) → (dispatch_kind fl sy e ev at voice kind).scheduler ≡ e.scheduler
      go trigger = recorded _ (play-scheduler e ev voice)
      go release = recorded _ (let_go-scheduler e ev voice)
      go set_control = change_control-scheduler e ev at voice
      go start_automation = begin_automation-scheduler e ev at voice
      go cancel_automation = end_automation-scheduler e ev at voice
      go stop_all = recorded _ (stop_voices-scheduler e.owners e 0)
      go set_tempo = recorded e refl
      go (other n) = recorded e refl

  abbrev returned : Eng fl sy → Result RenderError (Eng fl sy)
  returned = ok

  abbrev panicked : Result RenderError (Eng fl sy)
  panicked = panic

  from_ok :
      (e a f : Eng fl sy)
      → returned a ≡ ok f
      → a.scheduler ≡ e.scheduler
      → f.scheduler ≡ e.scheduler
  from_ok e a f h k = let same : a ≡ f = cc in rw (← same) k

  misplaced-scheduler :
      (e : Eng fl sy) (ev : Event Float) (at : ℕ)
      → (misplaced fl sy e ev at).scheduler ≡ e.scheduler
  misplaced-scheduler e ev at = record_event-scheduler (drop e) ev at ev.voice _

  -- What an event does leaves the queue as it is.
  pub apply-scheduler :
      (e f : Eng fl sy) (ev : Event Float) (at : ℕ)
      → apply fl sy e ev at ≡ ok f
      → f.scheduler ≡ e.scheduler
  unfolding apply
  apply-scheduler e f ev at h = elim (Option-cases (lookup ev.instrument e.layout)) [
    | inl z ↦ elim (Bool-cases (is_located fl sy ev)) [
      | inl l ↦ from_ok e _ f (rw (apply, z, l) at h) (misplaced-scheduler e ev at)
      | inr l ↦ from_ok e _ f (rw (apply, z, l) at h) (dispatch-scheduler e ev at ev.voice)
    ]
    | inr (d, found) ↦ elim (Bool-cases (is_located fl sy ev)) [
      | inr l ↦ from_ok e _ f (rw (apply, found, l) at h) (dispatch-scheduler e ev at ev.voice)
      | inl l ↦ elim (Bool-cases (has_offset fl sy d ev.voice_offset)) [
        | inr q ↦ from_ok e _ f (rw (apply, found, l, q) at h) (misplaced-scheduler e ev at)
        | inl q ↦
            let voice = d.first_voice +ℤ ev.voice_offset in
            elim (Bool-cases (has_owner e voice)) [
              | inl w ↦
                  from_ok e _ f (rw (apply, found, l, q, w) at h) (dispatch-scheduler e ev at voice)
              | inr w ↦ absurd (panics f (rw (apply, found, l, q, w) at h))
            ]
      ]
    ]
  ]
    where
      panics : (f : Eng fl sy) → ¬ (panicked ≡ ok f)
      panics f e = absurd cc

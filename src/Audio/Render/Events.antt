-- ===== src/Audio/Render/Events.antt =====
-- The loop over the events of a block (internal/audio/engine.go): what a round does, and that as many
-- rounds as events are enough.
use govertone.Common.{
  ℕ, zero, suc, ◌+◌, ◌-◌, ◌<◌, ◌≤◌, ltb, ◌≡◌, refl, sym, ap, ◌∙◌, inl, inr, true, false, Bool-cases,
  none, some, Option-cases, arith, length,
}
use govertone.Common.Int.{u64_mod}
use govertone.Common.Float.{Float64}
use govertone.Common.Result.{Result, ok, ◌>>=◌, bind_cong, bind_assoc}
use govertone.Scheduler.{Event, Scheduler, peek_before}
use govertone.Scheduler.Peek.{peek_before-size}
use govertone.Audio.Synth.{Synth, IsFramewise}
use govertone.Audio.State.{bump}
use govertone.Audio.Engine.{Eng, RenderError}
use govertone.Audio.Render.{
  Played, before, render_each, take_next, apply_due, queued, render_to, render_events,
}
use govertone.Audio.Render.Taking.{take_next-queued, apply_due-takes, render_each-scheduler}
use govertone.Audio.Render.Frames.{render-each, render_each-add}

module _ (fl : Float64) (sy : Synth fl.Float) where
  open fl use {Float, of_int}
  open sy use {State, Sample}

  -- Without an event before the end, the frames up to the end are rendered.
  pub events-none :
      (k : ℕ) (e : Eng fl sy) (cursor end : ℕ)
      → peek_before e.scheduler end ≡ none
      → render_events fl sy k e cursor end ≡ render_to fl sy e cursor end
  unfolding render_events
  events-none zero e cursor end z = refl
  events-none (suc k) e cursor end z = rw (render_events, z) refl

  -- The events of a frame, and the rest of the block.
  abbrev pub go_on : ℕ → Event Float → ℕ → Eng fl sy → Result RenderError (Played fl sy)
  go_on j ev end f =
      apply_due fl sy (queued fl sy f) f ev.frame >>= λ g. render_events fl sy j g ev.frame end

  module _ (k : ℕ) (e : Eng fl sy) (cursor end : ℕ) (ev : Event Float)
      (p : peek_before e.scheduler end ≡ some ev) where
    -- An event whose frame has passed.
    pub events-late :
        ltb ev.frame cursor ≡ true
        → render_events fl sy (suc k) e cursor end ≡ (
            take_next fl sy (record e { late = bump e.late }) cursor >>= λ f.
            render_events fl sy k f cursor end)
    unfolding render_events
    events-late late = rw (render_events, p, late) refl

    pub events-on_time :
        ltb ev.frame cursor ≡ false
        → render_events fl sy (suc k) e cursor end
          ≡ (render_to fl sy e cursor ev.frame >>= λ r. (go_on k ev end r.0 >>= before fl sy r.1))
    unfolding render_events
    events-on_time on_time =
        rw (render_events, p, on_time)
          (bind_cong (render_to fl sy e cursor ev.frame) _ _
            (λ r h. sym (bind_assoc (apply_due fl sy (queued fl sy r.0) r.0 ev.frame) _ _)))

module _ (fl : Float64) (sy : Synth fl.Float) (step : sy.State → sy.State × sy.Sample)
    (o : IsFramewise sy step) where
  open fl use {Float, of_int}
  open sy use {State, Sample}

  render_to-each : (e : Eng fl sy) (c x : ℕ) → render_to fl sy e c x ≡ render_each fl sy (x - c) e c
  unfolding render_each
  render_to-each e c x = elim (Bool-cases (ltb c x)) [
    | inl some_left ↦ rw some_left (render-each fl sy step o e c (x - c))
    | inr none_left ↦ let z : x - c ≡ 0 = ground arith in rw (none_left, z) refl
  ]

  pub render_to-scheduler :
      (e : Eng fl sy) (c x : ℕ) (r : Played fl sy)
      → render_to fl sy e c x ≡ ok r
      → r.0.scheduler ≡ e.scheduler
  render_to-scheduler e c x r h =
      render_each-scheduler fl sy (x - c) e c r (sym (render_to-each e c x) ∙ h)

  -- A span is the span up to a frame and the span from it on.
  pub render_to-add :
      (e : Eng fl sy) (c m x : ℕ)
      → c ≤ m
      → m ≤ x
      → x < u64_mod
      → render_to fl sy e c x
        ≡ (render_to fl sy e c m >>= λ r. (render_to fl sy r.0 m x >>= before fl sy r.1))
  render_to-add e c m x p q bound =
      let all : x - c ≡ (m - c) + (x - m) = omega arith in
      let here : c + (m - c) ≡ m = omega arith in
      render_to-each e c x
      ∙ ap (λ n. render_each fl sy n e c) all
      ∙ render_each-add fl sy step o (m - c) (x - m) e c (omega arith)
      ∙ ap
          (λ s. render_each fl sy (m - c) e c >>= λ r.
            (render_each fl sy (x - m) r.0 s >>= before fl sy r.1))
          here
      ∙ bind_cong (render_each fl sy (m - c) e c) _ _
          (λ r h. ap (λ t. t >>= before fl sy r.1) (sym (render_to-each r.0 m x)))
      ∙ ap (λ t. t >>= λ r. (render_to fl sy r.0 m x >>= before fl sy r.1))
          (sym (render_to-each e c m))

  -- What the two loops take after an event leaves fewer events.
  pub go_on-cong :
      (e : Eng fl sy) (cursor end : ℕ) (ev : Event Float)
      (p : peek_before e.scheduler end ≡ some ev)
      (f g : Eng fl sy → Result RenderError (Played fl sy))
      → end < u64_mod
      → ((h : Eng fl sy) → queued fl sy h < queued fl sy e → f h ≡ g h)
      → (render_to fl sy e cursor ev.frame >>= λ r.
          ((apply_due fl sy (queued fl sy r.0) r.0 ev.frame >>= f) >>= before fl sy r.1))
        ≡ (render_to fl sy e cursor ev.frame >>= λ r.
            ((apply_due fl sy (queued fl sy r.0) r.0 ev.frame >>= g) >>= before fl sy r.1))
  go_on-cong e cursor end ev p f g bound same =
      bind_cong (render_to fl sy e cursor ev.frame) _ _ λ r h.
        let kept = render_to-scheduler e cursor ev.frame r h in
        let there : peek_before r.0.scheduler end ≡ some ev = rw kept p in
        let sizes : queued fl sy r.0 ≡ queued fl sy e =
          ap (λ (s : Scheduler Float). length s.h) kept in
        ap (λ t. t >>= before fl sy r.1)
          (bind_cong (apply_due fl sy (queued fl sy r.0) r.0 ev.frame) f g (λ a taken.
            same a (omega (arith, sizes, apply_due-takes fl sy r.0 a ev end bound there taken))))

  events-empty :
      (k : ℕ) (e : Eng fl sy) (cursor end : ℕ)
      → queued fl sy e ≡ 0
      → render_events fl sy k e cursor end ≡ render_to fl sy e cursor end
  events-empty k e cursor end h = elim (Option-cases (peek_before e.scheduler end)) [
    | inl z ↦ events-none fl sy k e cursor end z
    | inr (ev, found) ↦ let size = peek_before-size e.scheduler end ev found in absurd (omega arith)
  ]

  -- More rounds than events make no difference.
  pub events-rounds :
      (k j : ℕ) (e : Eng fl sy) (cursor end : ℕ)
      → end < u64_mod
      → queued fl sy e ≤ k
      → queued fl sy e ≤ j
      → render_events fl sy k e cursor end ≡ render_events fl sy j e cursor end
  events-rounds zero j e cursor end bound p q =
      events-empty zero e cursor end (omega arith) ∙ sym (events-empty j e cursor end (omega arith))
  events-rounds (suc k) zero e cursor end bound p q =
      events-empty (suc k) e cursor end (omega arith)
      ∙ sym (events-empty zero e cursor end (omega arith))
  events-rounds (suc k) (suc j) e cursor end bound p q =
      elim (Option-cases (peek_before e.scheduler end)) [
        | inl z ↦
            events-none fl sy (suc k) e cursor end z
            ∙ sym (events-none fl sy (suc j) e cursor end z)
        | inr (ev, found) ↦ elim (Bool-cases (ltb ev.frame cursor)) [
          | inl late ↦
              let size = peek_before-size e.scheduler end ev found in
              let counted : Eng fl sy = record e { late = bump e.late } in
              events-late fl sy k e cursor end ev found late
              ∙ bind_cong (take_next fl sy counted cursor) _ _ (λ f taken.
                let less = take_next-queued fl sy counted f cursor size taken in
                events-rounds k j f cursor end bound (omega arith) (omega arith))
              ∙ sym (events-late fl sy j e cursor end ev found late)
          | inr on_time ↦
              events-on_time fl sy k e cursor end ev found on_time
              ∙ go_on-cong e cursor end ev found _ _ bound
                  (λ h less. events-rounds k j h ev.frame end bound (omega arith) (omega arith))
              ∙ sym (events-on_time fl sy j e cursor end ev found on_time)
        ]
      ]

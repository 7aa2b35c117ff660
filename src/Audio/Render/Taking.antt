-- ===== src/Audio/Render/Taking.antt =====
-- What the rendering of a block takes from the queue (internal/audio/engine.go).
use native.Mathlib.Nat.{mod-eq_of_lt}
use govertone.Common.{
  ℕ, zero, suc, ◌+◌, ◌%◌, ◌<◌, ◌≤◌, ◌==◌, ◌≡◌, refl, ◌∙◌, inl, inr, true, Bool-cases, some,
  Option-cases, arith, length,
}
use govertone.Common.Int.{pos, u64_mod}
use govertone.Common.Float.{Float64}
use govertone.Common.Result.{Result, ok, err, bind_inv, ok_unique}
use govertone.Scheduler.{Event, peek_before}
use govertone.Scheduler.Peek.{
  peek_before-lt, peek_before-earlier, peek_before-size, length-pop_queue,
}
use govertone.Audio.Synth.{Synth}
use govertone.Audio.Automation.{advance_controls}
use govertone.Audio.Engine.{Eng, RenderError, render_failed, no_progress}
use govertone.Audio.Controls.{with_synth}
use govertone.Audio.Engine.Queue.{apply-scheduler}
use govertone.Audio.Automation.Queue.{advance_controls-scheduler}
use govertone.Audio.Render.{Played, render_each, popped, unqueued, take_next, apply_due, queued}

module _ (fl : Float64) (sy : Synth fl.Float) where
  open fl use {Float, of_int}
  open sy use {State, Sample}

  -- An event is taken from the queue, and what it does leaves the rest.
  pub take_next-queued :
      (e f : Eng fl sy) (at : ℕ)
      → 0 < queued fl sy e
      → take_next fl sy e at ≡ ok f
      → queued fl sy f + 1 ≡ queued fl sy e
  take_next-queued e f at p h =
      let same = apply-scheduler fl sy (unqueued fl sy e) f (popped fl sy e) at h in
      rw same (length-pop_queue (of_int (pos 0)) e.scheduler p)

  pub apply_due-queued :
      (k : ℕ) (e f : Eng fl sy) (at : ℕ)
      → apply_due fl sy k e at ≡ ok f
      → queued fl sy f ≤ queued fl sy e
  unfolding apply_due
  apply_due-queued zero e f at h = rw (ok_unique _ e f refl h) (omega arith)
  apply_due-queued (suc k) e f at h =
      elim (Option-cases (peek_before e.scheduler ((at + 1) % u64_mod))) [
        | inl z ↦ rw (ok_unique _ e f refl (rw (apply_due, z) at h)) (omega arith)
        | inr (next, p) ↦ elim (Bool-cases (next.frame == at)) [
          | inr other ↦ rw (ok_unique _ e f refl (rw (apply_due, p, other) at h)) (omega arith)
          | inl due ↦
              let (g, rest, taken) =
                bind_inv (take_next fl sy e at) _ _ (rw (apply_due, p, due) at h) in
              let size = take_next-queued e g at (peek_before-size e.scheduler _ next p) taken in
              omega (arith, apply_due-queued k g f at rest)
        ]
      ]

  -- If an event is due, the inner loop takes at least one.
  pub apply_due-takes :
      (e f : Eng fl sy) (ev : Event Float) (end : ℕ)
      → end < u64_mod
      → peek_before e.scheduler end ≡ some ev
      → apply_due fl sy (queued fl sy e) e ev.frame ≡ ok f
      → queued fl sy f < queued fl sy e
  unfolding apply_due
  apply_due-takes e f ev end bound p h = go (queued fl sy e) refl h
    where
      go :
          (k : ℕ)
          → k ≡ queued fl sy e
          → apply_due fl sy k e ev.frame ≡ ok f
          → queued fl sy f < queued fl sy e
      go zero q r = let some_queued = peek_before-size e.scheduler end ev p in absurd (omega arith)
      go (suc k) q r =
          let early = peek_before-lt e.scheduler end ev p in
          let small : ev.frame + 1 < u64_mod = omega (arith, early) in
          let near : peek_before e.scheduler ((ev.frame + 1) % u64_mod) ≡ some ev =
            rw (mod-eq_of_lt small)
              (peek_before-earlier e.scheduler end ev p (ev.frame + 1) (omega arith)) in
          let due : (ev.frame == ev.frame) ≡ true = ground arith in
          let (g, rest, taken) =
            bind_inv (take_next fl sy e ev.frame) _ _ (rw (apply_due, near, due) at r) in
          let size = take_next-queued e g ev.frame (peek_before-size e.scheduler end ev p) taken in
          omega (arith, apply_due-queued k g f ev.frame rest)

  abbrev failing : Result RenderError (Played fl sy)
  failing = err render_failed

  abbrev stuck : Result RenderError (Played fl sy)
  stuck = err no_progress

  pub render_each-scheduler :
      (n : ℕ) (e : Eng fl sy) (start : ℕ) (r : Played fl sy)
      → render_each fl sy n e start ≡ ok r
      → r.0.scheduler ≡ e.scheduler
  unfolding render_each
  render_each-scheduler zero e start r h = rw (← ok_unique _ _ r refl h) refl
  render_each-scheduler (suc n) e start r h =
      let moved = advance_controls fl sy e start in
      let kept = advance_controls-scheduler fl sy e start in
      elim (Option-cases (sy.render moved.synth 1).1) [
        | inl z ↦ absurd (failed r (rw (render_each, z) at h))
        | inr (made, some_made) ↦ elim (Bool-cases (length made == 1)) [
          | inr none_made ↦ absurd (failed_too r (rw (render_each, some_made, none_made) at h))
          | inl one ↦
              let (q, same, rest) =
                bind_inv
                  (render_each fl sy n (with_synth fl sy moved (sy.render moved.synth 1).0)
                    ((start + 1) % u64_mod))
                  _ _ (rw (render_each, some_made, one) at h) in
              rw (← ok_unique _ _ r refl same) (render_each-scheduler n _ _ q rest ∙ kept)
        ]
      ]
    where
      failed : (r : Played fl sy) → ¬ (failing ≡ ok r)
      failed r h = absurd cc

      failed_too : (r : Played fl sy) → ¬ (stuck ≡ ok r)
      failed_too r h = absurd cc

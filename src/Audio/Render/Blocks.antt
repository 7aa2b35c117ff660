-- ===== src/Audio/Render/Blocks.antt =====
-- The rendering of a block and of its parts (internal/audio/engine.go): where a block is cut makes no
-- difference to the frames, nor to the engine.
use native.Mathlib.Nat.{mod-eq_of_lt}
use govertone.Common.{
  ℕ, zero, suc, ◌+◌, ◌%◌, ◌<◌, ◌≤◌, ltb, ◌≡◌, refl, sym, ap, ◌∙◌, inl, inr, Bool-cases, none, some,
  Option-cases, List, arith, length,
}
use govertone.Common.Int.{u64_mod}
use govertone.Common.Float.{Float64}
use govertone.Common.Result.{Result, ok, err, panic, ◌>>=◌, bind_cong, bind_assoc}
use govertone.Scheduler.{Event, Scheduler, peek_before}
use govertone.Scheduler.Peek.{
  peek_before-lt, peek_before-earlier, peek_before-later, peek_before-size, peek_before-none,
}
use govertone.Audio.Synth.{Synth, IsFramewise}
use govertone.Audio.State.{bump}
use govertone.Audio.Engine.{Eng, RenderError}
use govertone.Audio.Render.{
  prepend, Played, before, take_next, apply_due, queued, render_to, render_events, render_block,
  Run,
}
use govertone.Audio.Render.Events.{
  events-none, events-late, events-on_time, events-rounds, go_on, go_on-cong, render_to-scheduler,
  render_to-add,
}
use govertone.Audio.Render.Taking.{take_next-queued}
use govertone.Audio.Render.Before.{before_both}

module _ (fl : Float64) (sy : Synth fl.Float) (step : sy.State → sy.State × sy.Sample)
    (o : IsFramewise sy step) where
  open fl use {Float, of_int}
  open sy use {State, Sample}

  -- The rest of a block from a frame on.
  abbrev rest_from : ℕ → ℕ → Played fl sy → Result RenderError (Played fl sy)
  rest_from m end r = render_events fl sy (queued fl sy r.0) r.0 m end >>= before fl sy r.1

  add_none :
      (k : ℕ) (e : Eng fl sy) (cursor m end : ℕ)
      → end < u64_mod
      → cursor ≤ m
      → m ≤ end
      → peek_before e.scheduler end ≡ none
      → render_events fl sy k e cursor end ≡ (render_events fl sy k e cursor m >>= rest_from m end)
  add_none k e cursor m end bound p q z =
      events-none fl sy k e cursor end z
      ∙ render_to-add fl sy step o e cursor m end p q bound
      ∙ bind_cong (render_to fl sy e cursor m) _ (rest_from m end) (λ r h.
        let kept = render_to-scheduler fl sy step o e cursor m r h in
        ap (λ t. t >>= before fl sy r.1)
          (sym (events-none fl sy (queued fl sy r.0) r.0 m end (rw kept z))))
      ∙ ap (λ t. t >>= rest_from m end)
          (sym (events-none fl sy k e cursor m (peek_before-none e.scheduler end m q z)))

  -- The next event is after the cut.
  add_after :
      (j : ℕ) (e : Eng fl sy) (cursor m end : ℕ) (ev : Event Float)
      → end < u64_mod
      → queued fl sy e ≤ suc j
      → cursor ≤ m
      → peek_before e.scheduler end ≡ some ev
      → m ≤ ev.frame
      → render_events fl sy (suc j) e cursor end
        ≡ (render_events fl sy (suc j) e cursor m >>= rest_from m end)
  add_after j e cursor m end ev bound p q found after =
      let early = peek_before-lt e.scheduler end ev found in
      events-on_time fl sy j e cursor end ev found (ground arith)
      ∙ ap (λ t. t >>= λ r. (go_on fl sy j ev end r.0 >>= before fl sy r.1))
          (render_to-add fl sy step o e cursor m ev.frame q after (omega (arith, early)))
      ∙ bind_assoc (render_to fl sy e cursor m) _ _
      ∙ bind_cong (render_to fl sy e cursor m) _ (rest_from m end) (λ r h.
        let kept = render_to-scheduler fl sy step o e cursor m r h in
        let there : peek_before r.0.scheduler end ≡ some ev = rw kept found in
        let sizes : queued fl sy r.0 ≡ queued fl sy e =
          ap (λ (s : Scheduler Float). length s.h) kept in
        sym (before_both fl sy (render_to fl sy r.0 m ev.frame) (go_on fl sy j ev end) r.1)
        ∙ ap (λ t. t >>= before fl sy r.1)
            (sym (events-on_time fl sy j r.0 m end ev there (ground arith))
              ∙ events-rounds fl sy step o (suc j) (queued fl sy r.0) r.0 m end bound (omega arith)
                  (omega arith)))
      ∙ ap (λ t. t >>= rest_from m end)
          (sym (
            events-none fl sy (suc j) e cursor m
              (peek_before-later e.scheduler end ev found m after)))

  -- A block is the block up to a frame and the block from it on.
  events-add :
      (k : ℕ) (e : Eng fl sy) (cursor m end : ℕ)
      → end < u64_mod
      → queued fl sy e ≤ k
      → cursor ≤ m
      → m ≤ end
      → render_events fl sy k e cursor end ≡ (render_events fl sy k e cursor m >>= rest_from m end)
  events-add zero e cursor m end bound p q r = elim (Option-cases (peek_before e.scheduler end)) [
    | inl z ↦ add_none zero e cursor m end bound q r z
    | inr (ev, found) ↦ let size = peek_before-size e.scheduler end ev found in absurd (omega arith)
  ]
  events-add (suc j) e cursor m end bound p q r =
      elim (Option-cases (peek_before e.scheduler end)) [
        | inl z ↦ add_none (suc j) e cursor m end bound q r z
        | inr (ev, found) ↦ elim (Bool-cases (ltb ev.frame m)) [
          | inr after ↦ add_after j e cursor m end ev bound p q found (ground arith)
          | inl before_cut ↦
              let size = peek_before-size e.scheduler end ev found in
              let early = peek_before-earlier e.scheduler end ev found m (ground arith) in
              elim (Bool-cases (ltb ev.frame cursor)) [
                | inl late ↦
                    let counted : Eng fl sy = record e { late = bump e.late } in
                    events-late fl sy j e cursor end ev found late
                    ∙ bind_cong (take_next fl sy counted cursor) _ _ (λ f taken.
                      let less = take_next-queued fl sy counted f cursor size taken in
                      events-add j f cursor m end bound (omega arith) q r)
                    ∙ sym (bind_assoc (take_next fl sy counted cursor) _ (rest_from m end))
                    ∙ ap (λ t. t >>= rest_from m end)
                        (sym (events-late fl sy j e cursor m ev early late))
                | inr on_time ↦
                    let span = render_to fl sy e cursor ev.frame in
                    events-on_time fl sy j e cursor end ev found on_time
                    ∙ go_on-cong fl sy step o e cursor end ev found _ _ bound (λ h less.
                      events-add j h ev.frame m end bound (omega arith) (ground arith) r)
                    ∙ bind_cong span _ _ (λ t h.
                      ap (λ u. u >>= before fl sy t.1)
                        (sym (
                          bind_assoc (apply_due fl sy (queued fl sy t.0) t.0 ev.frame) _
                            (rest_from m end)))
                      ∙ before_both fl sy (go_on fl sy j ev m t.0)
                          (λ f. render_events fl sy (queued fl sy f) f m end) t.1)
                    ∙ sym (bind_assoc span _ (rest_from m end))
                    ∙ ap (λ t. t >>= rest_from m end)
                        (sym (events-on_time fl sy j e cursor m ev early on_time))
              ]
        ]
      ]

  -- A block up to a frame, which becomes the frame of the engine.
  abbrev arrive : ℕ → Played fl sy → Result RenderError (Run fl sy × List Sample)
  arrive end r = ok (record { engine = r.0; frame = end }, r.1)

  abbrev block_to : Eng fl sy → ℕ → ℕ → Result RenderError (Run fl sy × List Sample)
  block_to e cursor end = render_events fl sy (queued fl sy e) e cursor end >>= arrive end

  block-to :
      (e : Run fl sy) (n end : ℕ)
      → e.frame + n ≡ end
      → end < u64_mod
      → render_block fl sy e n ≡ block_to e.engine e.frame end
  unfolding render_block
  block-to e n end same bound =
      ap (block_to e.engine e.frame) (ap (λ k. k % u64_mod) same ∙ mod-eq_of_lt bound)

  arrive-before :
      (x : Result RenderError (Played fl sy)) (made : List Sample) (end : ℕ)
      → ((x >>= before fl sy made) >>= arrive end) ≡ ((x >>= arrive end) >>= prepend fl sy made)
  arrive-before panic made end = refl
  arrive-before (err why) made end = refl
  arrive-before (ok r) made end = refl

  -- Rendering m + n frames in one block is rendering m frames and then n: the same frames, the same
  -- engine, the same error, whatever the events, controls and automation in between, on a synth that
  -- makes its frames one after the other and while the frame counter does not wrap.
  pub render_block-add :
      (e : Run fl sy) (m n : ℕ)
      → e.frame + (m + n) < u64_mod
      → render_block fl sy e (m + n)
        ≡ (render_block fl sy e m >>= λ r. (render_block fl sy r.0 n >>= prepend fl sy r.1))
  render_block-add e m n bound =
      let mid = e.frame + m in
      let end = e.frame + (m + n) in
      let k = queued fl sy e.engine in
      let first = render_events fl sy k e.engine e.frame mid in
      block-to e (m + n) end refl bound
      ∙ ap (λ t. t >>= arrive end)
          (events-add k e.engine e.frame mid end bound (omega arith) (omega arith) (omega arith))
      ∙ bind_assoc first (rest_from mid end) (arrive end)
      ∙ bind_cong first _ _ (λ r h.
        arrive-before (render_events fl sy (queued fl sy r.0) r.0 mid end) r.1 end
        ∙ ap (λ t. t >>= prepend fl sy r.1)
            (sym (block-to (record { engine = r.0; frame = mid }) n end (omega arith) bound)))
      ∙ sym (bind_assoc first (arrive mid) (λ r. render_block fl sy r.0 n >>= prepend fl sy r.1))
      ∙ ap (λ t. t >>= λ r. (render_block fl sy r.0 n >>= prepend fl sy r.1))
          (sym (block-to e m mid refl (omega arith)))

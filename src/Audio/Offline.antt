-- ===== src/Audio/Offline.antt =====
-- internal/audio/offline.go: rendering without a device. The size of the blocks makes no difference.
-- The WAV writer is not modelled.
use mathlib.Core.List.{append-nil}
use native.Mathlib.Nat.{mod-eq_of_lt}
use govertone.Common.{
  ℕ, zero, suc, ◌+◌, ◌-◌, ◌%◌, ◌<◌, ◌≤◌, ◌==◌, ltb, ◌≡◌, refl, sym, ap, ◌∙◌, inl, inr, Bool-cases,
  not, true, false, List, [], ◌++◌, arith, if◌then◌else◌,
}
use govertone.Common.Int.{ℤ, pos, pos_part, ltb_ℤ, u64_mod}
use govertone.Common.Float.{Float64}
use govertone.Common.Result.{Result, ok, err, panic, ◌>>=◌, bind_inv, bind_cong, ok_unique}
use govertone.Audio.Synth.{Synth, IsFramewise}
use govertone.Audio.Engine.{RenderError, negative_length, block_not_positive}
use govertone.Audio.Render.{Run, render_block, render_events, queued, prepend}
use govertone.Audio.Render.Blocks.{render_block-add}

module _ (fl : Float64) (sy : Synth fl.Float) where
  open sy use {State, Sample}

  abbrev pub Rendered : Type 0
  Rendered = Result RenderError (Run fl sy × List Sample)

  -- The loop of RenderOffline with `left` frames to come. Every round renders a frame at least, so
  -- that as many rounds as frames are enough.
  unfoldable pub offline_loop : ℕ → Run fl sy → ℕ → ℕ → Rendered
  offline_loop zero e left block = ok (e, [])
  offline_loop (suc k) e left block =
      let n = if ltb left block then left else block in
      let rest = render_block fl sy e n >>= λ r.
      (offline_loop k r.0 (left - n) block >>= prepend fl sy r.1) in
      if left == 0 then ok (e, []) else rest

  unfoldable pub render_offline : Run fl sy → ℤ → ℤ → Rendered
  render_offline e frames block =
      if ltb_ℤ frames (pos 0)
      then err negative_length
      else if not (ltb_ℤ (pos 0) block)
      then err block_not_positive
      else offline_loop (pos_part frames) e (pos_part frames) (pos_part block)

  loop-done : (k : ℕ) (e : Run fl sy) (block : ℕ) → offline_loop k e 0 block ≡ ok (e, [])
  unfolding offline_loop
  loop-done zero e block = refl
  loop-done (suc k) e block = ground arith

  render_block-frame :
      (e : Run fl sy) (n : ℕ) (r : Run fl sy × List Sample)
      → render_block fl sy e n ≡ ok r
      → r.0.frame ≡ (e.frame + n) % u64_mod
  unfolding render_block
  render_block-frame e n r h =
      let (t, same, rest) =
        bind_inv
          (render_events fl sy (queued fl sy e.engine) e.engine e.frame ((e.frame + n) % u64_mod)) _
          r h in
      rw (← ok_unique _ _ r refl same) refl

module _ (fl : Float64) (sy : Synth fl.Float) (step : sy.State → sy.State × sy.Sample)
    (o : IsFramewise sy step) where
  open sy use {State, Sample}

  append_none : (r : Rendered fl sy) → (r >>= λ t. ok (t.0, t.1 ++ [])) ≡ r
  append_none panic = refl
  append_none (err why) = refl
  append_none (ok t) = ap (λ l. ok (t.0, l)) (append-nil t.1)

  loop-block :
      (k : ℕ) (e : Run fl sy) (left block : ℕ)
      → 0 < block
      → 0 < left
      → left ≤ k
      → e.frame + left < u64_mod
      → offline_loop fl sy k e left block ≡ render_block fl sy e left
  unfolding offline_loop
  loop-block zero e left block p q r bound = absurd (omega arith)
  loop-block (suc k) e left block p q r bound =
      let some_left : (left == 0) ≡ false = ground arith in
      elim (Bool-cases (ltb left block)) [
        | inl last ↦
            let none_left : left - left ≡ 0 = omega arith in
            rw (offline_loop, some_left, last, none_left)
              (bind_cong (render_block fl sy e left) _ _
                  (λ t h. ap (λ u. u >>= prepend fl sy t.1) (loop-done fl sy k t.0 block))
                ∙ append_none (render_block fl sy e left))
        | inr whole ↦ elim (Bool-cases (left == block)) [
          | inl last ↦
              let none_left : left - block ≡ 0 = ground arith in
              let same : block ≡ left = ground arith in
              rw (offline_loop, some_left, whole, none_left, same)
                (bind_cong (render_block fl sy e left) _ _
                    (λ t h. ap (λ u. u >>= prepend fl sy t.1) (loop-done fl sy k t.0 left))
                  ∙ append_none (render_block fl sy e left))
          | inr more ↦
              let rest = left - block in
              let all : block + rest ≡ left = ground arith in
              rw (offline_loop, some_left, whole)
                (bind_cong (render_block fl sy e block) _ _ (λ t h.
                    let here = render_block-frame fl sy e block t h in
                    let small : e.frame + block < u64_mod = omega arith in
                    let there : t.0.frame ≡ e.frame + block = here ∙ mod-eq_of_lt small in
                    ap (λ u. u >>= prepend fl sy t.1)
                      (loop-block k t.0 rest block p (ground arith) (omega arith) (omega arith)))
                  ∙ sym (render_block-add fl sy step o e block rest (omega arith))
                  ∙ ap (render_block fl sy e) all)
        ]
      ]

  -- On a synth that makes its frames one after the other, RenderOffline of some frames in blocks of any
  -- size is one block of all of them, while the frame counter does not wrap.
  pub render_offline-block :
      (e : Run fl sy) (frames block : ℕ)
      → 0 < frames
      → 0 < block
      → e.frame + frames < u64_mod
      → render_offline fl sy e (pos frames) (pos block) ≡ render_block fl sy e frames
  unfolding render_offline
  render_offline-block e frames block p q bound =
      let some_size : ltb_ℤ (pos 0) (pos block) ≡ true = ground arith in
      let some_frames : ltb_ℤ (pos frames) (pos 0) ≡ false = ground arith in
      rw (some_frames, some_size) (loop-block frames e frames block q p (omega arith) bound)

-- ===== src/Audio/Render/Frames.antt =====
-- The loops of render (internal/audio/engine.go): in blocks or frame by frame, the frames are the same.
use native.Mathlib.Nat
use native.Mathlib.Nat.{mod-eq_of_lt}
use Prim.Native.Nat.add
use govertone.Common.{
  Option-cases, ℕ, zero, suc, ◌+◌, ◌-◌, ◌%◌, ◌<◌, ◌≤◌, ◌==◌, ◌≡◌, refl, sym, ap, ◌∙◌, inl, inr,
  Bool-cases, false, some, List, [], ◌∷◌, ◌++◌, ltb, length, arith, nil_of_length,
}
use govertone.Common.Int.{u64_mod}
use govertone.Common.Float.{Float64}
use govertone.Common.Result.{ok, ◌>>=◌}
use govertone.Audio.Synth.{Synth, IsFramewise, frames}
use govertone.Audio.Controls.{with_synth}
use govertone.Audio.Lanes.{is_active}
use govertone.Audio.Automation.{advance_controls, advance_smoothing, advance_lanes, sort_lanes}
use govertone.Audio.Engine.{Eng}
use govertone.Audio.Render.Before.{before_both, before_none}
use govertone.Audio.Render.{one_made, before, render_each, render_all, render}

module _ (fl : Float64) (sy : Synth fl.Float) (step : sy.State → sy.State × sy.Sample)
    (o : IsFramewise sy step) where
  open sy use {State, Sample}

  length-frames : (s : State) (n : ℕ) → length (frames sy step s n).1 ≡ n
  unfolding frames
  length-frames s zero = refl
  length-frames s (suc n) = ap suc (length-frames (step s).0 n)

  frames-add :
      (s : State) (m n : ℕ)
      → frames sy step s (m + n) ≡ (
          let first = frames sy step s m in
          let second = frames sy step first.0 n in (second.0, first.1 ++ second.1))
  unfolding frames
  frames-add s zero n = rw (add.zero n) refl
  frames-add s (suc m) n = rw (add.suc m n, frames-add (step s).0 m n) refl

  frames-none : (s : State) → frames sy step s 0 ≡ (s, [])
  unfolding frames
  frames-none s = refl

  render_all-none : (k : ℕ) (s : State) → render_all fl sy k s 0 ≡ ok (s, [])
  unfolding render_all
  render_all-none zero s = refl
  render_all-none (suc k) s = elim (Option-cases (sy.render s 0).1) [
    | inl z ↦ rw (render_all, z) refl
    | inr (made, e) ↦ rw (render_all, e) refl
  ]

  -- One round of the loop.
  render_all-suc :
      (k : ℕ) (s : State) (n : ℕ) (made : List Sample)
      → 0 < n
      → 0 < length made
      → length made ≤ n
      → (sy.render s n).1 ≡ some made
      → render_all fl sy (suc k) s n
        ≡ (render_all fl sy k (sy.render s n).0 (n - length made) >>= λ r. ok (r.0, made ++ r.1))
  unfolding render_all
  render_all-suc k s n made p q r e =
      let some_left : (n == 0) ≡ false = ground arith in
      let progress : (length made == 0) ≡ false = ground arith in
      let fits : ltb n (length made) ≡ false = ground arith in
      rw (render_all, e, some_left, progress, fits) refl

  -- On a synth that makes its frames one after the other, however many at a time, the block loop makes
  -- every frame by the synth's step and does not fail, if it has as many rounds as frames.
  pub render_all-frames :
      (k : ℕ) (s : State) (n : ℕ) → n ≤ k → render_all fl sy k s n ≡ ok (frames sy step s n)
  render_all-frames zero s n h =
      let none_left : n ≡ 0 = omega arith in rw (none_left, frames-none s) (render_all-none zero s)
  render_all-frames (suc k) s zero h = rw (frames-none s) (render_all-none (suc k) s)
  render_all-frames (suc k) s (suc n) h =
      let m = o.made s (suc n) in
      let p = o.some_made s (suc n) (omega arith) in
      let q = o.most s (suc n) (omega arith) in
      let out = frames sy step s m in
      let size = length-frames s m in
      let rest = render_all-frames k out.0 (suc n - length out.1) (omega arith) in
      let all : m + (suc n - length out.1) ≡ suc n = omega arith in
      let made = o.makes s (suc n) (omega arith) in
      render_all-suc k s (suc n) out.1 (omega arith) (omega arith) (omega arith)
        (ap (λ r. r.1) made)
      ∙ ap (λ t. render_all fl sy k t.0 (suc n - length out.1) >>= λ r. ok (r.0, out.1 ++ r.1)) made
      ∙ ap (λ r. r >>= λ t. ok (t.0, out.1 ++ t.1)) rest
      ∙ ap ok (sym (frames-add s m (suc n - length out.1)) ∙ ap (frames sy step s) all)

  advance_controls-inactive :
      (e : Eng fl sy) (frame : ℕ)
      → is_active e.automation ≡ false
      → advance_controls fl sy e frame ≡ e
  unfolding advance_controls advance_smoothing advance_lanes sort_lanes
  advance_controls-inactive e frame h =
      let none_smoothed = nil_of_length e.automation.smoothing (ground arith) in
      let no_lanes = nil_of_length e.automation.lanes (ground arith) in
      rw (none_smoothed, no_lanes) refl

  one_frame : (s : State) → sy.render s 1 ≡ ((step s).0, some ((step s).1 ∷ []))
  unfolding frames
  one_frame s =
      let p = o.some_made s 1 (omega arith) in
      let q = o.most s 1 (omega arith) in
      let one : o.made s 1 ≡ 1 = omega arith in
      o.makes s 1 (omega arith) ∙ ap (λ n. let out = frames sy step s n in (out.0, some out.1)) one

  -- One frame of the loop that moves the controls.
  render_each-suc :
      (n : ℕ) (e : Eng fl sy) (start : ℕ)
      → let moved = advance_controls fl sy e start in
        let one = step moved.synth in
        render_each fl sy (suc n) e start ≡ (
          render_each fl sy n (with_synth fl sy moved one.0) ((start + 1) % u64_mod)
          >>= before fl sy (one.1 ∷ []))
  unfolding render_each
  render_each-suc n e start =
      let moved = advance_controls fl sy e start in
      ap
        (λ out.
          one_made fl sy out.1
            (render_each fl sy n (with_synth fl sy moved out.0) ((start + 1) % u64_mod)))
        (one_frame moved.synth)

  -- Without automation the loop that moves the controls makes the frames of the block loop.
  render_each-inactive :
      (n : ℕ) (e : Eng fl sy) (start : ℕ)
      → is_active e.automation ≡ false
      → render_each fl sy n e start
        ≡ ok (with_synth fl sy e (frames sy step e.synth n).0, (frames sy step e.synth n).1)
  unfolding frames render_each
  render_each-inactive zero e start h = refl
  render_each-inactive (suc n) e start h =
      let one = step e.synth in
      render_each-suc n e start
      ∙ ap
          (λ (f : Eng fl sy).
            render_each fl sy n (with_synth fl sy f (step f.synth).0) ((start + 1) % u64_mod)
            >>= before fl sy ((step f.synth).1 ∷ []))
          (advance_controls-inactive e start h)
      ∙ ap (λ r. r >>= before fl sy (one.1 ∷ []))
          (render_each-inactive n (with_synth fl sy e one.0) ((start + 1) % u64_mod) h)

  -- On a synth that makes its frames one after the other, render leaves the same frames and the same
  -- engine as the loop that moves the controls before every frame.
  pub render-each :
      (e : Eng fl sy) (start n : ℕ) → render fl sy e start n ≡ render_each fl sy n e start
  unfolding render
  render-each e start n = elim (Bool-cases (is_active e.automation)) [
    | inl active ↦ rw active refl
    | inr idle ↦
        rw (idle, render_all-frames n e.synth n (omega arith), render_each-inactive n e start idle)
          refl
  ]

  -- Frame by frame, a span is the span up to a frame and the span from it on.
  pub render_each-add :
      (m n : ℕ) (e : Eng fl sy) (start : ℕ)
      → start + m < u64_mod
      → render_each fl sy (m + n) e start ≡ (
          render_each fl sy m e start >>= λ r.
          (render_each fl sy n r.0 (start + m) >>= before fl sy r.1))
  unfolding render_each
  render_each-add zero n e start h =
      rw (add.zero n, Nat.add-zero start) (sym (before_none fl sy (render_each fl sy n e start)))
  render_each-add (suc m) n e start h =
      let moved = advance_controls fl sy e start in
      let one = step moved.synth in
      let next = with_synth fl sy moved one.0 in
      let now : (start + 1) % u64_mod ≡ start + 1 = mod-eq_of_lt (omega arith) in
      let later : start + 1 + m ≡ start + suc m = omega arith in
      ap (λ k. render_each fl sy k e start) (add.suc m n)
      ∙ render_each-suc (m + n) e start
      ∙ ap (λ s. render_each fl sy (m + n) next s >>= before fl sy (one.1 ∷ [])) now
      ∙ ap (λ r. r >>= before fl sy (one.1 ∷ []))
          (render_each-add m n next (start + 1) (omega arith))
      ∙ before_both fl sy (render_each fl sy m next (start + 1))
          (λ f. render_each fl sy n f (start + 1 + m)) (one.1 ∷ [])
      ∙ ap
          (λ s. (render_each fl sy m next s >>= before fl sy (one.1 ∷ [])) >>= λ r.
            (render_each fl sy n r.0 (start + 1 + m) >>= before fl sy r.1))
          (sym now)
      ∙ ap (λ r. r >>= λ r. (render_each fl sy n r.0 (start + 1 + m) >>= before fl sy r.1))
          (sym (render_each-suc m e start))
      ∙ ap
          (λ s. render_each fl sy (suc m) e start >>= λ r.
            (render_each fl sy n r.0 s >>= before fl sy r.1))
          later

-- ===== src/Audio/Render/Before.antt =====
-- Frames that are written before others (internal/audio/engine.go).
use mathlib.Core.List.{append_assoc}
use govertone.Common.{◌≡◌, refl, sym, ap, List, [], ◌++◌}
use govertone.Common.Float.{Float64}
use govertone.Common.Result.{Result, ok, err, panic, ◌>>=◌}
use govertone.Audio.Synth.{Synth}
use govertone.Audio.Engine.{Eng, RenderError}
use govertone.Audio.Render.{Played, before}

module _ (fl : Float64) (sy : Synth fl.Float) where
  open sy use {State, Sample}

  -- Frames written before the two parts of a span are written before the first.
  pub before_both :
      (first : Result RenderError (Played fl sy))
      (second : Eng fl sy → Result RenderError (Played fl sy)) (made : List Sample)
      → ((first >>= λ r. (second r.0 >>= before fl sy r.1)) >>= before fl sy made)
        ≡ ((first >>= before fl sy made) >>= λ r. (second r.0 >>= before fl sy r.1))
  before_both panic second made = refl
  before_both (err why) second made = refl
  before_both (ok r) second made = go (second r.0)
    where
      go :
          (t : Result RenderError (Played fl sy))
          → ((t >>= before fl sy r.1) >>= before fl sy made) ≡ (t >>= before fl sy (made ++ r.1))
      go panic = refl
      go (err why) = refl
      go (ok t) = ap (λ l. ok (t.0, l)) (sym (append_assoc made r.1 t.1))

  pub before_none : (r : Result RenderError (Played fl sy)) → (r >>= before fl sy []) ≡ r
  before_none panic = refl
  before_none (err why) = refl
  before_none (ok r) = refl

  pub before_twice :
      (r : Result RenderError (Played fl sy)) (xs ys : List Sample)
      → ((r >>= before fl sy ys) >>= before fl sy xs) ≡ (r >>= before fl sy (xs ++ ys))
  before_twice panic xs ys = refl
  before_twice (err why) xs ys = refl
  before_twice (ok r) xs ys = ap (λ l. ok (r.0, l)) (sym (append_assoc xs ys r.1))
